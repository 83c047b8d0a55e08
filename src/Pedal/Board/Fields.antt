-- ===== src/Pedal/Board/Fields.antt =====
-- What the device reads in the registers that I2s.c packs: each field of each word.
use zybo_z.Common.{ℕ, ◌-◌, ◌+◌, ◌%◌, ◌^◌, ◌<◌, ◌≡◌, ◌∙◌, arith}
use native.Mathlib.Nat.{mod-eq_of_lt, mod-lt}
use zybo_z.Common.Int.{ℤ, pos, negsuc, wrap, signed, ◌≤ℤ◌}
use zybo_z.Common.Bits.{get_field, set_field}

-- The fields of a word that have been set one after the other, in the order of I2s.c.
pub cfg1_fields :
    (e m g w : ℕ)
    → e < 2
    → m < 4
    → g < 64
    → let u = set_field 0 1 e (set_field 3 6 g (set_field 1 2 m w)) in
      (get_field 0 1 u ≡ e)
      × (get_field 1 2 u ≡ m)
      × (get_field 3 6 u ≡ g)
      × (get_field 9 23 u ≡ get_field 9 23 w)
cfg1_fields e m g w he hm hg = (omega arith, omega arith, omega arith, omega arith)

pub cfg1_second_field : (t w : ℕ) → t < 2 ^ 24 → get_field 0 24 (set_field 0 24 t w) ≡ t
cfg1_second_field t w h = omega arith

pub cfg2_fields :
    (t h l w : ℕ)
    → t < 2 ^ 24
    → h < 16
    → l < 16
    → let u = set_field 28 4 l (set_field 24 4 h (set_field 0 24 t w)) in
      (get_field 0 24 u ≡ t) × (get_field 24 4 u ≡ h) × (get_field 28 4 u ≡ l)
cfg2_fields t h l w ht hh hl = (omega arith, omega arith, omega arith)

pub cfg3_fields :
    (q c w : ℕ)
    → q < 128
    → c < 2 ^ 24
    → (let u = set_field 7 24 c (set_field 0 7 q w) in
        (get_field 0 7 u ≡ q) × (get_field 7 24 u ≡ c) × (get_field 31 1 u ≡ get_field 31 1 w))
      × (set_field 0 7 q (set_field 7 24 c w) ≡ set_field 7 24 c (set_field 0 7 q w))
cfg3_fields q c w hq hc = ((omega arith, omega arith, omega arith), omega arith)

-- The upper three fields of the fourth word, over any word below.
cfg4_upper :
    (i x t w : ℕ)
    → x < 8
    → t < 8
    → let u = set_field 11 3 t (set_field 8 3 x (set_field 6 2 i w)) in
      (get_field 0 6 u ≡ get_field 0 6 w)
      × (get_field 6 2 u ≡ i % 4)
      × (get_field 8 3 u ≡ x)
      × (get_field 11 3 u ≡ t)
      × (get_field 14 18 u ≡ get_field 14 18 w)
cfg4_upper i x t w hx ht = (omega arith, omega arith, omega arith, omega arith, omega arith)

cfg4_lower :
    (n e w : ℕ)
    → n < 32
    → e < 2
    → let u = set_field 5 1 e (set_field 0 5 n w) in
      (get_field 0 5 u ≡ n) × (get_field 5 1 u ≡ e) × (get_field 14 18 u ≡ get_field 14 18 w)
cfg4_lower n e w hn he = (omega arith, omega arith, omega arith)

low_fields :
    (u w : ℕ)
    → get_field 0 6 u ≡ get_field 0 6 w
    → (get_field 0 5 u ≡ get_field 0 5 w) × (get_field 5 1 u ≡ get_field 5 1 w)
low_fields u w h = (omega arith, omega arith)

pub cfg4_fields :
    (n e i x t w : ℕ)
    → n < 32
    → e < 2
    → x < 8
    → t < 8
    → let u =
        set_field 11 3 t
          (set_field 8 3 x (set_field 6 2 i (set_field 5 1 e (set_field 0 5 n w)))) in
      (get_field 0 5 u ≡ n)
      × (get_field 5 1 u ≡ e)
      × (get_field 6 2 u ≡ i % 4)
      × (get_field 8 3 u ≡ x)
      × (get_field 11 3 u ≡ t)
      × (get_field 14 18 u ≡ get_field 14 18 w)
cfg4_fields n e i x t w hn he hx ht =
    let low : ℕ = set_field 5 1 e (set_field 0 5 n w) in
    let (keep, inc, shift, time, none_kept) = cfg4_upper i x t low hx ht in
    let (norm, phase, none_low) = cfg4_lower n e w hn he in
    let (norm_kept, phase_kept) = low_fields _ low keep in
    (norm_kept ∙ norm, phase_kept ∙ phase, inc, shift, time, none_kept ∙ none_low)

-- Two's complement: an integer that fits is read back from its residue.
pub signed-wrap :
    (z : ℤ) (half : ℕ)
    → 0 < half
    → negsuc (half - 1) ≤ℤ z
    → z ≤ℤ pos (half - 1)
    → signed (wrap z (half + half)) (half + half) ≡ z
signed-wrap (pos n) half h lo hi =
    rw (mod-eq_of_lt {n = n} {m = half + half} (omega arith)) (ground arith)
signed-wrap (negsuc n) half h lo hi =
    rw (mod-eq_of_lt {n = n} {m = half + half} (omega arith)) (ground arith)

pub wrap-lt : (z : ℤ) (m : ℕ) → 0 < m → wrap z m < m
wrap-lt (pos n) m h = mod-lt n h
wrap-lt (negsuc n) m h = omega (arith, mod-lt n h)
