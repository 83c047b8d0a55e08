-- ===== src/Common/Tests.antt =====
-- Boolean tests on the native numbers, the conditional, and the C integer types.
use Prim.Native.Nat.{ℕ, ◌%◌, ◌/◌, ◌^◌, ◌≤◌, ◌<◌, compare, Ordering}
use mathlib.Core.Path.{◌≡◌, refl}
use mathlib.Core.Logic.{◌↔◌, ◌⊎◌, inl, inr}
use mathlib.Core.Bool.{Bool, true, false}
use mathlib.Core.Option.{Option, none, some}
use native.Mathlib.Omega.{arith}

abbrev pub ltb : ℕ → ℕ → Bool
ltb a b = elim (compare a b) [ Ordering.lt ↦ true | _ ↦ false ]

abbrev pub leb : ℕ → ℕ → Bool
leb a b = elim (compare a b) [ Ordering.gt ↦ false | _ ↦ true ]

infix 50 ◌==◌
abbrev pub ◌==◌ : ℕ → ℕ → Bool
a == b = elim (compare a b) [ Ordering.eq ↦ true | _ ↦ false ]

infix 1 if◌then◌else◌
abbrev pub if◌then◌else◌ {ℓ} : {A : Type ℓ} → Bool → A → A → A
if true then x else y = x
if false then x else y = y

pub Bool-cases : (b : Bool) → (b ≡ true) ⊎ (b ≡ false)
Bool-cases true = inl refl
Bool-cases false = inr refl

pub lt→ltb : (a b : ℕ) → a < b → ltb a b ≡ true
lt→ltb a b h = ground arith

pub le→leb : (a b : ℕ) → a ≤ b → leb a b ≡ true
le→leb a b h = ground arith

pub leb-cases : (a b : ℕ) → ((leb a b ≡ true) × (a ≤ b)) ⊎ ((leb a b ≡ false) × (b < a))
leb-cases a b = ground arith

pub ==_iff : (a b : ℕ) → ((a == b) ≡ true) ↔ (a ≡ b)
==_iff a b = ground arith

pub eq_self : (n : ℕ) → (n == n) ≡ true
eq_self n = ground arith

-- uint8_t, uint16_t and uint32_t keep the low bits of what is assigned to them.
abbrev pub u8 : ℕ → ℕ
u8 n = n % 256

abbrev pub u16 : ℕ → ℕ
u16 n = n % 65536

abbrev pub u32 : ℕ → ℕ
u32 n = n % 4294967296

-- x >> k
abbrev pub shr : ℕ → ℕ → ℕ
shr x k = x / 2 ^ k

-- `none` is a fault, such as an access outside an array.
infixl 5 ◌>>=◌
abbrev pub ◌>>=◌ {ℓ κ} : {A : Type ℓ} {B : Type κ} → Option A → (A → Option B) → Option B
none >>= f = none
some a >>= f = f a

module _ {ℓ κ} {A : Type ℓ} {B : Type κ} where
  pub bind_congr :
      (o : Option A) {f g : A → Option B} → ((a : A) → f a ≡ g a) → (o >>= f) ≡ (o >>= g)
  bind_congr none h = refl
  bind_congr (some a) h = h a

pub bind_assoc {ℓ κ μ} :
    {A : Type ℓ} {B : Type κ} {C : Type μ} (o : Option A) (f : A → Option B) (g : B → Option C)
    → (o >>= f >>= g) ≡ (o >>= λ a. f a >>= g)
bind_assoc none f g = refl
bind_assoc (some a) f g = refl

pub Option-cases {ℓ} : {A : Type ℓ} (o : Option A) → (o ≡ none) ⊎ ((a : A) × (o ≡ some a))
Option-cases none = inl refl
Option-cases (some a) = inr (a, refl)

-- No fault, and the result has P.
abbrev pub Succeeds {ℓ} : {A : Type ℓ} → (A → Type 0) → Option A → Type 0
Succeeds P none = ⊥
Succeeds P (some a) = P a

pub Succeeds-some {ℓ} :
    {A : Type ℓ} (P : A → Type 0) (o : Option A) → Succeeds P o → (a : A) × (o ≡ some a) × P a
Succeeds-some P none h = absurd h
Succeeds-some P (some a) h = (a, refl, h)

pub Succeeds-and {ℓ} :
    {A : Type ℓ} (P Q : A → Type 0) (o : Option A)
    → Succeeds P o
    → Succeeds Q o
    → (a : A) × (o ≡ some a) × P a × Q a
Succeeds-and P Q none h k = absurd h
Succeeds-and P Q (some a) h k = (a, refl, h, k)

pub Succeeds-bind {ℓ} :
    {A B : Type ℓ} (P : A → Type 0) (Q : B → Type 0) (o : Option A) (f : A → Option B)
    → Succeeds P o
    → ((a : A) → P a → Succeeds Q (f a))
    → Succeeds Q (o >>= f)
Succeeds-bind P Q none f h k = absurd h
Succeeds-bind P Q (some a) f h k = k a h

pub Succeeds-map {ℓ} :
    {A : Type ℓ} (P Q : A → Type 0) (o : Option A)
    → ((a : A) → P a → Q a)
    → Succeeds P o
    → Succeeds Q o
Succeeds-map P Q none k h = absurd h
Succeeds-map P Q (some a) k h = k a h
