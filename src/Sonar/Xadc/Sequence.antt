-- ===== src/Sonar/Xadc/Sequence.antt =====
-- xadc.c: the flags of a finished sequence and its restart, in terms of the words read and written.
use zybo_z.Common.{
  ℕ, ◌*◌, ◌/◌, ◌%◌, ◌^◌, ◌≡◌, refl, bit_and, bit_or, true, false, some, ◌==◌, ◌≢◌, ◌⊎◌, inl, inr,
  arith,
}
use zybo_z.Common.Bits.{
  bit_and-ones, bit_and-even, bit_or-even, bit_or_low, bit_or-zero, get_field, set_field,
}
use zybo_z.Sonar.Xadc.{
  Device, Xadc, ioread32, iowrite32, get_seq_flag_and_clear, restart_sequence, intr_status_offset,
  config2_offset, clear_bits, status_bits,
}

-- The two flags of the interrupt status are both set when the field from bit 4 on is 3, those of the
-- status when the field from bit 5 on is.
bit_and-clear_bits : (w : ℕ) → bit_and w 0x30 ≡ get_field 4 2 w * 16
bit_and-clear_bits w = omega (
  arith,
  bit_and-even w 24,
  bit_and-even (w / 2) 12,
  bit_and-even (w / 2 / 2) 6,
  bit_and-even (w / 2 / 2 / 2) 3,
  bit_and-ones 2 (w / 2 / 2 / 2 / 2),
)

bit_or-clear_bits : (w : ℕ) → get_field 4 2 w ≡ 3 → bit_or w 0x30 ≡ w
bit_or-clear_bits w h = omega (
  arith,
  h,
  bit_or-even w 24,
  bit_or-even (w / 2) 12,
  bit_or-even (w / 2 / 2) 6,
  bit_or-even (w / 2 / 2 / 2) 3,
  bit_or_low (w / 2 / 2 / 2 / 2) 3,
  bit_or_low (w / 2 / 2 / 2 / 2 / 2) 1,
  bit_or-zero (w / 2 / 2 / 2 / 2 / 2 / 2),
)

bit_and-status_bits : (w : ℕ) → bit_and w 0x60 ≡ get_field 5 2 w * 32
bit_and-status_bits w = omega (
  arith,
  bit_and-even w 48,
  bit_and-even (w / 2) 24,
  bit_and-even (w / 2 / 2) 12,
  bit_and-even (w / 2 / 2 / 2) 6,
  bit_and-even (w / 2 / 2 / 2 / 2) 3,
  bit_and-ones 2 (w / 2 / 2 / 2 / 2 / 2),
)

flag_field-cases :
    (w : ℕ)
    → ((get_field 4 2 w ≡ 3) × ((bit_and w clear_bits == clear_bits) ≡ true))
      ⊎ ((get_field 4 2 w ≢ 3) × ((bit_and w clear_bits == clear_bits) ≡ false))
flag_field-cases w = rw (bit_and-clear_bits w) (ground arith)

status_field-cases :
    (w : ℕ)
    → ((get_field 5 2 w ≡ 3) × ((bit_and w status_bits == status_bits) ≡ true))
      ⊎ ((get_field 5 2 w ≢ 3) × ((bit_and w status_bits == status_bits) ≡ false))
status_field-cases w = rw (bit_and-status_bits w) (ground arith)

module _ {D : Type 0} (dev : Device D) where
  -- With the registers mapped, Xadc_GetSeqFlagAndClear returns true exactly when both the end of the
  -- sequence and the end of the conversion are flagged; it then writes back the very word it read, which
  -- clears every pending flag, and else it writes nothing.
  pub get_seq_flag_and_clear_lem :
      (x : Xadc D) (d : D) (w : ℕ)
      → x.mapped ≡ true
      → dev.read32 intr_status_offset x.device ≡ (d, w)
      → ((get_field 4 2 w ≡ 3)
          × (get_seq_flag_and_clear dev x
              ≡ some (record x { device = dev.write32 intr_status_offset w d }, true)))
        ⊎ ((get_field 4 2 w ≢ 3)
            × (get_seq_flag_and_clear dev x ≡ some (record x { device = d }, false)))
  unfolding get_seq_flag_and_clear ioread32 iowrite32
  get_seq_flag_and_clear_lem x d w h r = elim (flag_field-cases w) [
    | inl (e, t) ↦ inl (e, rw (h, r, t, bit_or-clear_bits w e) refl)
    | inr (e, t) ↦ inr (e, rw (h, r, t) refl)
  ]

  -- With the registers mapped, Xadc_RestartSequence writes the second configuration register twice, with
  -- the sequencer's mode 0 and then 1 and every other bit as it was read.
  pub restart_sequence_lem :
      (x : Xadc D) (d : D) (w : ℕ)
      → x.mapped ≡ true
      → dev.read32 config2_offset x.device ≡ (d, w)
      → (w0 : ℕ) × (w1 : ℕ) × (restart_sequence dev x
          ≡ some (record x {
            device = dev.write32 config2_offset w1 (dev.write32 config2_offset w0 d);
          }))
        × (get_field 12 4 w0 ≡ 0)
        × (get_field 12 4 w1 ≡ 1)
        × (w0 % 2 ^ 12 ≡ w % 2 ^ 12)
        × (w1 % 2 ^ 12 ≡ w % 2 ^ 12)
        × (w0 / 2 ^ 16 ≡ w / 2 ^ 16)
        × (w1 / 2 ^ 16 ≡ w / 2 ^ 16)
  unfolding restart_sequence ioread32 iowrite32
  restart_sequence_lem x d w h r = (
    set_field 12 4 0 w,
    set_field 12 4 1 (set_field 12 4 0 w),
    rw (h, r) refl,
    omega arith,
    omega arith,
    omega arith,
    omega arith,
    omega arith,
    omega arith,
  )
