-- ===== src/Mqtt/Memory.antt =====
-- Byte arrays that a C pointer walks over (`*buf++ = b`, `memcpy`), with a fault on any access
-- outside the array, and what a run of writes leaves behind.
use zybo_z.Common.{
  length-drop, length-set, Option-cases, flatten, bind_congr, ◌∙◌, ℕ, ◌+◌, ◌≤◌, ◌<◌, ◌≡◌, refl, ap,
  true, false, Option, none, some, List, [], ◌∷◌, ◌++◌, ltb, leb, if◌then◌else◌, ◌>>=◌, length, set,
  take, drop, length-append, take_all, arith, lt→ltb, le→leb, leb-cases, inl, inr,
}
use native.Mathlib.Nat.{zero-add}
use mathlib.Core.List.{append_assoc, append-nil}

-- An array and the offset of the pointer into it.
pub record Cursor : Type 0 where
  pub bytes : List ℕ
  pub offset : ℕ

abbrev pub start : List ℕ → Cursor
start bytes = record { bytes = bytes; offset = 0 }

-- *buf++ = b
unfoldable pub store : ℕ → Cursor → Option Cursor
store b c =
    if ltb c.offset (length c.bytes)
    then some (record { bytes = set c.bytes c.offset b; offset = c.offset + 1 })
    else none

unfoldable pub copy : List ℕ → Cursor → Option Cursor
unfolding store
copy [] c = some c
copy (b ∷ bs) c = store b c >>= copy bs

-- The n bytes of an array from `from` on, if the array has them.
unfoldable pub slice : List ℕ → ℕ → ℕ → Option (List ℕ)
slice bytes from n = if leb (from + n) (length bytes) then some (take n (drop from bytes)) else none

-- memcpy(buf, source, n); buf += n
unfoldable pub memcpy : List ℕ → ℕ → Cursor → Option Cursor
unfolding slice copy
memcpy source n c = slice source 0 n >>= λ bs. copy bs c

-- The array after `bs` has been written over its front.
abbrev pub overwrite : List ℕ → List ℕ → List ℕ
overwrite bs bytes = bs ++ drop (length bs) bytes

pub copy-append : (xs ys : List ℕ) (c : Cursor) → copy (xs ++ ys) c ≡ (copy xs c >>= copy ys)
unfolding copy
copy-append [] ys c = refl
copy-append (x ∷ xs) ys c =
    elim (store x c) as (λ o. (o >>= copy (xs ++ ys)) ≡ (o >>= copy xs >>= copy ys)) [
      | none ↦ refl
      | some c' ↦ copy-append xs ys c'
    ]

pub store-copy : (b : ℕ) (c : Cursor) → store b c ≡ copy (b ∷ []) c
unfolding copy
store-copy b c = elim (store b c) as (λ o. o ≡ (o >>= copy [])) [ none ↦ refl | some c' ↦ refl ]

set-append :
    (done rest : List ℕ) (x b : ℕ)
    → set (done ++ x ∷ rest) (length done) b ≡ (done ++ b ∷ []) ++ rest
set-append [] rest x b = refl
set-append (d ∷ done) rest x b = ap (λ t. d ∷ t) (set-append done rest x b)

-- A cursor that has written `done` and has `rest` before it.
abbrev between : List ℕ → List ℕ → Cursor
between done rest = record { bytes = done ++ rest; offset = length done }

store-between :
    (b : ℕ) (done : List ℕ) (x : ℕ) (rest : List ℕ)
    → store b (between done (x ∷ rest)) ≡ some (between (done ++ b ∷ []) rest)
unfolding store
store-between b done x rest = rw (inside, set-append done rest x b, length-append done (b ∷ []))
  where
    inside : ltb (length done) (length (done ++ x ∷ rest)) ≡ true
    inside = lt→ltb _ _ (omega (arith, length-append done (x ∷ rest)))

store-full : (b : ℕ) (done : List ℕ) → store b (between done []) ≡ none
unfolding store
store-full b done = rw (append-nil done, outside)
  where
    outside : ltb (length done) (length done) ≡ false
    outside = ground arith

pub copy-between :
    (bs done rest : List ℕ)
    → length bs ≤ length rest
    → copy bs (between done rest) ≡ some (between (done ++ bs) (drop (length bs) rest))
unfolding copy
copy-between [] done rest h = rw (append-nil done)
copy-between (b ∷ bs) done [] h = absurd (omega arith)
copy-between (b ∷ bs) done (x ∷ rest) h =
    rw (store-between b done x rest, ← append_assoc done (b ∷ []) bs)
      (copy-between bs (done ++ b ∷ []) rest (omega arith))

copy-between_full :
    (bs done rest : List ℕ) → length rest < length bs → copy bs (between done rest) ≡ none
unfolding copy
copy-between_full [] done rest h = absurd (omega arith)
copy-between_full (b ∷ bs) done [] h = rw (store-full b done)
copy-between_full (b ∷ bs) done (x ∷ rest) h =
    rw (store-between b done x rest) (copy-between_full bs (done ++ b ∷ []) rest (omega arith))

-- A run of writes from the front either fits, and overwrites the front and nothing else, or faults.
pub copy-start :
    (bs mem : List ℕ)
    → copy bs (start mem) ≡ (
        if leb (length bs) (length mem)
        then some (record { bytes = overwrite bs mem; offset = length bs })
        else none)
copy-start bs mem = elim (leb-cases (length bs) (length mem)) [
  | inl (e, h) ↦ rw e (copy-between bs [] mem h)
  | inr (e, h) ↦ rw e (copy-between_full bs [] mem h)
]

pub slice_all : (bytes : List ℕ) → slice bytes 0 (length bytes) ≡ some bytes
unfolding slice
slice_all bytes = rw (zero-add, leb_self (length bytes), take_all bytes)
  where
    leb_self : (n : ℕ) → leb n n ≡ true
    leb_self n = ground arith

pub slice-eq :
    (bytes : List ℕ) (from n : ℕ)
    → from + n ≤ length bytes
    → slice bytes from n ≡ some (take n (drop from bytes))
unfolding slice
slice-eq bytes from n h = rw (le→leb _ _ h)

pub memcpy-copy :
    (source : List ℕ) (n : ℕ) (c : Cursor)
    → n ≤ length source
    → memcpy source n c ≡ copy (take n source) c
unfolding memcpy
memcpy-copy source n c h = rw (slice-eq source 0 n (omega arith))

-- Several runs of writes, one after the other.
abbrev pub copy_all : List (List ℕ) → Cursor → Option Cursor
copy_all [] c = some c
copy_all (bs ∷ bss) c = copy bs c >>= copy_all bss

pub copy-flatten : (bss : List (List ℕ)) (c : Cursor) → copy (flatten bss) c ≡ copy_all bss c
copy-flatten [] c = unfold copy in refl
copy-flatten (bs ∷ bss) c =
    copy-append bs (flatten bss) c ∙ bind_congr (copy bs c) (copy-flatten bss)

pub length-overwrite :
    (bs mem : List ℕ) → length bs ≤ length mem → length (overwrite bs mem) ≡ length mem
length-overwrite bs mem h =
    omega (arith, length-append bs (drop (length bs) mem), length-drop (length bs) mem)

store-length : (b : ℕ) (c c' : Cursor) → store b c ≡ some c' → length c'.bytes ≡ length c.bytes
unfolding store
store-length b c c' h = ground (arith, length-set c.bytes c.offset b)

-- Writes at any place keep the array's length.
pub copy-length :
    (bs : List ℕ) (c c' : Cursor) → copy bs c ≡ some c' → length c'.bytes ≡ length c.bytes
unfolding copy
copy-length [] c c' h = ground arith
copy-length (b ∷ bs) c c' h = elim (Option-cases (store b c)) [
  | inl e ↦ cc (e, h)
  | inr (d, e) ↦ copy-length bs d c' (rw e at h) ∙ store-length b c d e
]

-- Writes at an offset fit if they end within the array.
pub copy_fits :
    (bs : List ℕ) (c : Cursor)
    → c.offset + length bs ≤ length c.bytes
    → (c' : Cursor) × (copy bs c ≡ some c')
unfolding copy store
copy_fits [] c h = (c, refl)
copy_fits (b ∷ bs) c h = rw (lt→ltb c.offset (length c.bytes) (omega arith)) (
    copy_fits bs (record { bytes = set c.bytes c.offset b; offset = c.offset + 1 })
      (omega (arith, length-set c.bytes c.offset b)))

-- Writes that pass the array's end fault.
pub copy_overflow :
    (bs : List ℕ) (c : Cursor)
    → c.offset ≤ length c.bytes
    → length c.bytes < c.offset + length bs
    → copy bs c ≡ none
unfolding copy store
copy_overflow [] c h k = absurd (omega arith)
copy_overflow (b ∷ bs) c h k = ground (
  arith,
  length-set c.bytes c.offset b,
  copy_overflow bs (record { bytes = set c.bytes c.offset b; offset = c.offset + 1 }),
)
