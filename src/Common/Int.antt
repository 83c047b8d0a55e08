-- ===== src/Common/Int.antt =====
-- Signed integers over the native numbers, under the library's names: C's `int` results and the
-- two's complement reading of a word.
use Prim.Native.Nat.{ℕ, suc, ◌+◌, ◌-◌, ◌%◌, ◌≤◌}
use mathlib.Core.Path.{◌≡◌, refl}
use mathlib.Core.Logic.{◌⊎◌, inl, inr}
use mathlib.Core.Bool.{Bool, true, false}
use zybo_z.Common.Tests.{ltb, ◌==◌, if◌then◌else◌}
use native.Mathlib.Omega.{arith}

-- `negsuc n` is -(n + 1).
pub data ℤ : Type 0 where
  pos : ℕ → ℤ
  negsuc : ℕ → ℤ

abbrev pub pos_part : ℤ → ℕ
pos_part (pos n) = n
pos_part (negsuc n) = 0

abbrev pub neg_part : ℤ → ℕ
neg_part (pos n) = 0
neg_part (negsuc n) = suc n

infix 50 ◌≤ℤ◌
abbrev pub ◌≤ℤ◌ : ℤ → ℤ → Type 0
a ≤ℤ b = pos_part a + neg_part b ≤ pos_part b + neg_part a

abbrev pub ltb_ℤ : ℤ → ℤ → Bool
ltb_ℤ a b = ltb (pos_part a + neg_part b) (pos_part b + neg_part a)

abbrev pub is_zero : ℤ → Bool
is_zero (pos n) = n == 0
is_zero (negsuc n) = false

-- z & (m - 1) for a power of two m: the residue of z, also below zero, as two's complement has it.
abbrev pub wrap : ℤ → ℕ → ℕ
wrap (pos n) m = n % m
wrap (negsuc n) m = m - 1 - n % m

-- The number that an m-valued word stands for as a signed integer.
abbrev pub signed : ℕ → ℕ → ℤ
signed w m = if ltb (w + w) m then pos w else negsuc (m - w - 1)

pub ℤ-cases : (z : ℤ) → ((n : ℕ) × (z ≡ pos n)) ⊎ ((n : ℕ) × (z ≡ negsuc n))
ℤ-cases (pos n) = inl (n, refl)
ℤ-cases (negsuc n) = inr (n, refl)

pub not_negative : (n : ℕ) → ltb_ℤ (pos n) (pos 0) ≡ false
not_negative n = ground arith

pub positive : (n : ℕ) → ltb_ℤ (pos 0) (pos (suc n)) ≡ true
positive n = ground arith

pub is_negative : (n : ℕ) → ltb_ℤ (negsuc n) (pos 0) ≡ true
is_negative n = ground arith

pub zero_of : (z : ℤ) → is_zero z ≡ true → z ≡ pos 0
zero_of z h = ground arith
