-- ===== src/Common/Bits.antt =====
-- Masks and bit fields of native numbers, as arithmetic.
use Prim.Native.Nat.{
  ℕ, zero, suc, ◌+◌, ◌*◌, ◌/◌, ◌%◌, ◌^◌, ◌≤◌, ◌<◌, min, max, bit_and, bit_or, digits,
  bit_and-bitwise, bit_or-bitwise,
}
use mathlib.Core.Path.{◌≡◌, refl, ap, ◌∙◌, sym}
use native.Mathlib.Nat.{pow-suc, div-add-mod, mul-add-mod_self_right, mod-eq_of_lt}
use native.Mathlib.Omega.{arith}

-- Any fuel from the first number on gives the same digits.
module _ (z : ℕ → ℕ) (f : ℕ → ℕ → ℕ) where
  digits_fuel : (k l a b : ℕ) → a ≤ k → a ≤ l → digits z f k a b ≡ digits z f l a b
  digits_fuel zero zero zero b p q = refl
  digits_fuel zero (suc l) zero b p q = refl
  digits_fuel (suc k) zero zero b p q = refl
  digits_fuel (suc k) (suc l) zero b p q = refl
  digits_fuel zero l (suc a) b p q = absurd (omega arith)
  digits_fuel (suc k) zero (suc a) b p q = absurd (omega arith)
  digits_fuel (suc k) (suc l) (suc a) b p q =
      ap (λ (t : ℕ). t * 2 + f (suc a % 2) (b % 2))
        (digits_fuel k l (suc a / 2) (b / 2) (omega arith) (omega arith))

-- The lowest digit of `&` and of `|`, and the digits above it.
pub bit_and_low : (a b : ℕ) → bit_and a b ≡ bit_and (a / 2) (b / 2) * 2 + min (a % 2) (b % 2)
bit_and_low zero b = omega (arith, bit_and-bitwise 0 b, bit_and-bitwise 0 (b / 2))
bit_and_low (suc a) b = omega (
  arith,
  bit_and-bitwise (suc a) b,
  bit_and-bitwise (suc a / 2) (b / 2),
  digits_fuel (λ _. zero) min a (suc a / 2) (suc a / 2) (b / 2) (omega arith) (omega arith),
)

pub bit_or_low : (a b : ℕ) → bit_or a b ≡ bit_or (a / 2) (b / 2) * 2 + max (a % 2) (b % 2)
bit_or_low zero b = omega (arith, bit_or-bitwise 0 b, bit_or-bitwise 0 (b / 2))
bit_or_low (suc a) b = omega (
  arith,
  bit_or-bitwise (suc a) b,
  bit_or-bitwise (suc a / 2) (b / 2),
  digits_fuel (λ t. t) max a (suc a / 2) (suc a / 2) (b / 2) (omega arith) (omega arith),
)

-- k ones
abbrev pub ones : ℕ → ℕ
ones zero = 0
ones (suc k) = ones k * 2 + 1

bit_and-zero_bound : (n a : ℕ) → a ≤ n → bit_and a 0 ≡ 0
bit_and-zero_bound zero a h = rw (bit_and-bitwise a 0) (rw (zero_of a h))
  where
    zero_of : (a : ℕ) → a ≤ 0 → a ≡ 0
    zero_of a h = omega arith
bit_and-zero_bound (suc n) zero h = refl
bit_and-zero_bound (suc n) (suc a) h =
    omega (arith, bit_and_low (suc a) 0, bit_and-zero_bound n (suc a / 2) (omega arith))

pub bit_and-zero : (a : ℕ) → bit_and a 0 ≡ 0
bit_and-zero a = bit_and-zero_bound a a (omega arith)

mod_of_parts : (n m q r : ℕ) → r < m → n ≡ q * m + r → n % m ≡ r
mod_of_parts n m q r h e = rw e (mul-add-mod_self_right q m r ∙ mod-eq_of_lt h)

double_mod : (a m : ℕ) → (a / 2) % m * 2 + a % 2 ≡ a % (m * 2)
double_mod a zero = omega arith
double_mod a (suc m) = sym (
    mod_of_parts a (suc m * 2) (a / 2 / suc m) (a / 2 % suc m * 2 + a % 2) (omega arith)
      (omega (arith, ap (λ (t : ℕ). t * 2) (div-add-mod (a / 2) (suc m)))))

half_ones : (k : ℕ) → (k * 2 + 1) / 2 ≡ k
half_ones k = omega arith

-- a & (2 ^ k - 1) is the residue.
pub bit_and-ones : (k a : ℕ) → bit_and a (ones k) ≡ a % 2 ^ k
bit_and-ones zero a = omega (arith, bit_and-zero a)
bit_and-ones (suc k) a =
    rw (pow-suc 2 k)
      (low_digits ∙ ap (λ (t : ℕ). t * 2 + a % 2) (bit_and-ones k (a / 2)) ∙ double_mod a (2 ^ k))
  where
    low_digits : bit_and a (ones k * 2 + 1) ≡ bit_and (a / 2) (ones k) * 2 + a % 2
    low_digits = omega (arith, rw (half_ones (ones k)) at (bit_and_low a (ones k * 2 + 1)))

-- A mask with a 0 below it.
pub bit_and-even : (a b : ℕ) → bit_and a (b * 2) ≡ bit_and (a / 2) b * 2
bit_and-even a b = omega (arith, rw (half_double b) at (bit_and_low a (b * 2)))
  where
    half_double : (b : ℕ) → b * 2 / 2 ≡ b
    half_double b = omega arith

-- The `width` bits of a word from bit `offset` on, as a C bit field reads and writes them.
abbrev pub get_field : ℕ → ℕ → ℕ → ℕ
get_field offset width word = word / 2 ^ offset % 2 ^ width

abbrev pub set_field : ℕ → ℕ → ℕ → ℕ → ℕ
set_field offset width value word =
    word / 2 ^ (offset + width) * 2 ^ (offset + width)
    + value % 2 ^ width * 2 ^ offset
    + word % 2 ^ offset

pub bit_or-even : (a b : ℕ) → bit_or a (b * 2) ≡ bit_or (a / 2) b * 2 + a % 2
bit_or-even a b = omega (arith, rw (half_double b) at (bit_or_low a (b * 2)))
  where
    half_double : (b : ℕ) → b * 2 / 2 ≡ b
    half_double b = omega arith

-- Setting the bit above all digits of `a` adds it.
pub bit_or-pow : (k a : ℕ) → a < 2 ^ k → bit_or a (2 ^ k) ≡ a + 2 ^ k
bit_or-pow zero a h = rw (a_zero a h)
  where
    a_zero : (a : ℕ) → a < 1 → a ≡ 0
    a_zero a h = omega arith
bit_or-pow (suc k) a h =
    rw (pow-suc 2 k)
      (omega (arith, bit_or-even a (2 ^ k), bit_or-pow k (a / 2) (omega (arith, pow-suc 2 k))))

bit_or-zero_bound : (n a : ℕ) → a ≤ n → bit_or a 0 ≡ a
bit_or-zero_bound zero a h = rw (zero_of a h)
  where
    zero_of : (a : ℕ) → a ≤ 0 → a ≡ 0
    zero_of a h = omega arith
bit_or-zero_bound (suc n) zero h = refl
bit_or-zero_bound (suc n) (suc a) h =
    omega (arith, bit_or_low (suc a) 0, bit_or-zero_bound n (suc a / 2) (omega arith))

pub bit_or-zero : (a : ℕ) → bit_or a 0 ≡ a
bit_or-zero a = bit_or-zero_bound a a (omega arith)
