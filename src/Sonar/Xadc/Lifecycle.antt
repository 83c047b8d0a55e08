-- ===== src/Sonar/Xadc/Lifecycle.antt =====
-- xadc.c: the initialisation and the shutdown of the driver, and the interrupt handler.
use zybo_z.Common.{
  ℕ, ◌≡◌, ◌↔◌, refl, bit_or, Bool, true, false, not, Option, none, some, leb, ◌==◌, if◌then◌else◌,
  ◌>>=◌, arith, Succeeds, Succeeds-some, Succeeds-bind, subst, sym,
}
use zybo_z.Common.Int.{ℤ, pos, ltb_ℤ, is_zero}
use zybo_z.Common.Bits.{get_field}
use zybo_z.Sonar.Xadc.{
  Device, Platform, XadcConfig, Xadc, requested, free_irq, ioread32, iowrite32, reset_offset,
  status_offset, global_intr_enable_offset, intr_status_offset, intr_enable_offset, config1_offset,
  config2_offset, config3_offset, seq_aux_ch_sel_offset, seq_ch_input_mode_offset, clear_bits,
}

-- Xadc_InterruptCheck, on the device tree as the kernel sees it.
unfoldable pub interrupt_check : {D : Type 0} → Platform → Xadc D → Xadc D × ℤ
interrupt_check p x =
    if not p.node_found
    then (x, p.enodev)
    else let x1 = record x { interrupt_id = p.mapped_irq } in
      if ltb_ℤ (pos 0) p.mapped_irq then (x1, pos 0) else (x1, p.einval)

module _ {D : Type 0} (dev : Device D) where
  -- The part of Xadc_Init under `intr_en`; `false` is an early return.
  unfoldable pub init_interrupts : Platform → XadcConfig → Xadc D → Option (Xadc D × Bool)
  unfolding interrupt_check
  init_interrupts p config x =
      let x1 = record x { has_cb = config.has_handler } in
      let (x2, check) = interrupt_check p x1 in
      if ltb_ℤ check (pos 0)
      then some (x2, false)
      else if not (is_zero p.request_irq)
      then some (x2, false)
      else do
        (x3, status) ← ioread32 dev status_offset (record x2 { irq = requested })
        (x4, intrflag) ← ioread32 dev intr_status_offset x3
        x5 ← iowrite32 dev (bit_or intrflag clear_bits) intr_status_offset x4
        x6 ← iowrite32 dev 0x10 intr_enable_offset x5
        x7 ← iowrite32 dev 0x80000000 global_intr_enable_offset x6
        some (x7, true)

  -- The part of Xadc_Init under `seq_mode_en`; bit 10 of the first configuration word is bibolar_en.
  unfoldable pub init_sequence : XadcConfig → Xadc D → Option (Xadc D × Bool)
  init_sequence config x = if leb 0x10000 config.seq_channel_mask then some (x, false) else do
    x1 ← iowrite32 dev config.seq_channel_mask seq_aux_ch_sel_offset x
    x2 ←
        (if get_field 10 1 config.config1 == 1
          then iowrite32 dev config.seq_channel_mask seq_ch_input_mode_offset x1
          else some x1)
    some (x2, true)

  unfoldable pub init_config : XadcConfig → Xadc D → Option (Xadc D)
  init_config config x = do
    x1 ← iowrite32 dev config.config1 config1_offset x
    x2 ← iowrite32 dev config.config2 config2_offset x1
    iowrite32 dev config.config3 config3_offset x2

  -- What follows a part of Xadc_Init that may return early.
  abbrev pub unless_returned : (Xadc D → Option (Xadc D)) → Xadc D × Bool → Option (Xadc D)
  unless_returned next (x, true) = next x
  unless_returned next (x, false) = some x

  -- Xadc_Init
  unfoldable pub init : Platform → XadcConfig → Xadc D → Option (Xadc D)
  unfolding init_interrupts init_sequence init_config
  init p config x =
      let x1 = record x { mapped = p.ioremap_ok } in
      if not p.ioremap_ok then some x1 else do
        x2 ← iowrite32 dev 0x01 reset_offset x1
        r3 ← (if config.intr_en then init_interrupts p config x2 else some (x2, true))
        unless_returned
            (λ x3. do
              r4 ← (if config.seq_mode_en then init_sequence config x3 else some (x3, true))
              unless_returned (init_config config) r4)
            r3

  -- Xadc_DeInit
  unfoldable pub deinit : Xadc D → Option (Xadc D)
  deinit x = do
    x1 ← iowrite32 dev 0x0 intr_enable_offset x
    x2 ← iowrite32 dev 0x0 global_intr_enable_offset x1
    x3 ← iowrite32 dev 0x0 config1_offset x2
    x4 ← iowrite32 dev 0x0 config2_offset x3
    x5 ← iowrite32 dev 0x0 config3_offset x4
    x6 ← iowrite32 dev 0x0 seq_aux_ch_sel_offset x5
    x7 ← iowrite32 dev 0x0 seq_ch_input_mode_offset x6
    (x8, status) ← ioread32 dev status_offset x7
    x9 ← iowrite32 dev clear_bits intr_status_offset x8
    let unmapped = (if x9.mapped then record x9 { mapped = false } else x9)
    some (
        if ltb_ℤ (pos 0) unmapped.interrupt_id
        then record unmapped { interrupt_id = pos 0; irq = free_irq unmapped.irq }
        else unmapped)

  -- Xadc_Irq: the status is read, and the callback runs if there is one.
  unfoldable pub irq : Xadc D → Option (Xadc D × Bool)
  irq x = ioread32 dev status_offset x >>= λ (x1, intrflag). some (x1, x1.has_cb)

  abbrev IsMapped : Xadc D → Type 0
  IsMapped x = x.mapped ≡ true

  abbrev PartIsMapped : Xadc D × Bool → Type 0
  PartIsMapped (x, go_on) = x.mapped ≡ true

  -- With the registers mapped, each part of Xadc_Init runs and leaves them mapped.
  iowrite32-IsMapped :
      (value offset : ℕ) (x : Xadc D)
      → IsMapped x
      → Succeeds IsMapped (iowrite32 dev value offset x)
  unfolding iowrite32
  iowrite32-IsMapped value offset x h = rw h refl

  init_interrupts-IsMapped :
      (p : Platform) (config : XadcConfig) (x : Xadc D)
      → IsMapped x
      → Succeeds PartIsMapped (init_interrupts p config x)
  unfolding init_interrupts interrupt_check iowrite32 ioread32
  init_interrupts-IsMapped p config x h = ground arith

  init_sequence-IsMapped :
      (config : XadcConfig) (x : Xadc D)
      → IsMapped x
      → Succeeds PartIsMapped (init_sequence config x)
  unfolding init_sequence iowrite32
  init_sequence-IsMapped config x h = ground arith

  init_config-IsMapped :
      (config : XadcConfig) (x : Xadc D) → IsMapped x → Succeeds IsMapped (init_config config x)
  unfolding init_config iowrite32
  init_config-IsMapped config x h = ground arith

  unless_returned-IsMapped :
      (next : Xadc D → Option (Xadc D)) (r : Xadc D × Bool)
      → ((x : Xadc D) → IsMapped x → Succeeds IsMapped (next x))
      → PartIsMapped r
      → Succeeds IsMapped (unless_returned next r)
  unless_returned-IsMapped next (x, true) k h = k x h
  unless_returned-IsMapped next (x, false) k h = h

  -- A part that the configuration asks for, or not.
  part-IsMapped :
      (asked : Bool) (part : Option (Xadc D × Bool)) (x : Xadc D)
      → IsMapped x
      → Succeeds PartIsMapped part
      → Succeeds PartIsMapped (if asked then part else some (x, true))
  part-IsMapped true part x h k = k
  part-IsMapped false part x h k = h

  init-IsMapped :
      (p : Platform) (config : XadcConfig) (x : Xadc D)
      → p.ioremap_ok ≡ true
      → Succeeds IsMapped (init p config x)
  unfolding init
  init-IsMapped p config x e = rw e (
      Succeeds-bind IsMapped IsMapped (iowrite32 dev 0x01 reset_offset (record x { mapped = true }))
        _ (iowrite32-IsMapped 0x01 reset_offset (record x { mapped = true }) refl)
        (λ x2 h2.
          Succeeds-bind PartIsMapped IsMapped
            (if config.intr_en then init_interrupts p config x2 else some (x2, true)) _
            (part-IsMapped config.intr_en (init_interrupts p config x2) x2 h2
              (init_interrupts-IsMapped p config x2 h2))
            (λ r3 h3.
              unless_returned-IsMapped _ r3
                (λ x3 k3.
                  Succeeds-bind PartIsMapped IsMapped
                    (if config.seq_mode_en then init_sequence config x3 else some (x3, true)) _
                    (part-IsMapped config.seq_mode_en (init_sequence config x3) x3 k3
                      (init_sequence-IsMapped config x3 k3))
                    (λ r4 h4. unless_returned-IsMapped _ r4 (init_config-IsMapped config) h4))
                h3)))

  -- Xadc_Init never touches a register through NULL, and Xadc_Base is NULL after it exactly when ioremap
  -- has failed.
  pub init-mapped :
      (p : Platform) (config : XadcConfig) (x : Xadc D)
      → (x' : Xadc D) × (init p config x ≡ some x') × (x'.mapped ≡ p.ioremap_ok)
  unfolding init
  init-mapped p config x =
      Succeeds-some (λ x'. x'.mapped ≡ p.ioremap_ok) (init p config x)
        (by_ioremap p.ioremap_ok refl)
    where
      Agrees : Bool → Type 0
      Agrees b = Succeeds (λ x'. x'.mapped ≡ b) (init p config x)

      by_ioremap : (b : Bool) → p.ioremap_ok ≡ b → Agrees p.ioremap_ok
      by_ioremap true e = subst Agrees (sym e) (init-IsMapped p config x e)
      by_ioremap false e = subst Agrees (sym e) (rw e refl)

  -- Xadc_DeInit writes to the registers before it looks at Xadc_Base: it faults exactly when that is NULL.
  pub deinit_fault : (x : Xadc D) → (deinit x ≡ none) ↔ (x.mapped ≡ false)
  unfolding deinit iowrite32 ioread32
  deinit_fault x = ground arith
