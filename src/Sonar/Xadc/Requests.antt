-- ===== src/Sonar/Xadc/Requests.antt =====
-- xadc.c: the interrupt that Xadc_Init requests, and what Xadc_DeInit gives back of it.
use zybo_z.Common.{
  ℕ, ◌≡◌, refl, ◌∙◌, Bool, true, false, ◌&&◌, not, Option, some, if◌then◌else◌, arith, Succeeds,
  Succeeds-some, Succeeds-bind,
}
use zybo_z.Common.Int.{pos, negsuc, ltb_ℤ, is_zero}
use zybo_z.Sonar.Xadc.{
  Device, Platform, XadcConfig, Interrupt, requested, misfreed, not_requested, free_irq, Xadc,
  ioread32, iowrite32, reset_offset,
}
use zybo_z.Sonar.Xadc.Lifecycle.{
  interrupt_check, init_interrupts, init_sequence, init_config, unless_returned, init, deinit,
}

-- The kernel's error codes are negative.
pub record IsPlatform (p : Platform) : Type 0 where
  pub enodev_neg : (n : ℕ) × (p.enodev ≡ negsuc n)
  pub einval_neg : (n : ℕ) × (p.einval ≡ negsuc n)

-- The kernel gives the device's interrupt a number.
abbrev pub numbers_irq : Platform → Bool
numbers_irq p = p.node_found && ltb_ℤ (pos 0) p.mapped_irq

-- The interrupt after Xadc_Init, and after Xadc_DeInit behind it.
abbrev pub irq_of_init : Platform → Interrupt
irq_of_init p = if numbers_irq p && is_zero p.request_irq then requested else not_requested

abbrev pub irq_of_deinit : Platform → Interrupt
irq_of_deinit p = if numbers_irq p then free_irq (irq_of_init p) else not_requested

-- Xadc_DeInit misfrees an interrupt that has got a number and that request_irq has refused.
pub irq_of_deinit_lem :
    (p : Platform)
    → irq_of_deinit p
      ≡ (if numbers_irq p && not (is_zero p.request_irq) then misfreed else not_requested)
irq_of_deinit_lem p = by_answers (numbers_irq p) (is_zero p.request_irq)
  where
    by_answers :
        (b c : Bool)
        → ◌≡◌ {A = Interrupt}
            (if b then free_irq (if b && c then requested else not_requested) else not_requested)
            (if b && not c then misfreed else not_requested)
    by_answers true true = refl
    by_answers true false = refl
    by_answers false c = refl

module _ {D : Type 0} (dev : Device D) where
  -- Mapped, the interrupt held like this, and its number positive or not.
  abbrev Tracks : Interrupt → Bool → Xadc D → Type 0
  Tracks i b x = (x.mapped ≡ true) × (x.irq ≡ i) × (ltb_ℤ (pos 0) x.interrupt_id ≡ b)

  abbrev PartTracks : Interrupt → Bool → Xadc D × Bool → Type 0
  PartTracks i b (x, go_on) = Tracks i b x

  iowrite32-Tracks :
      (i : Interrupt) (b : Bool) (value offset : ℕ) (x : Xadc D)
      → Tracks i b x
      → Succeeds (Tracks i b) (iowrite32 dev value offset x)
  unfolding iowrite32
  iowrite32-Tracks i b value offset x (h, k, l) = rw h (refl, k, l)

  init_interrupts-Tracks :
      (p : Platform) (config : XadcConfig) (x : Xadc D)
      → IsPlatform p
      → Tracks not_requested false x
      → Succeeds (PartTracks (irq_of_init p) (numbers_irq p)) (init_interrupts dev p config x)
  unfolding init_interrupts interrupt_check iowrite32 ioread32
  init_interrupts-Tracks p config x law h = ground arith

  init_sequence-Tracks :
      (i : Interrupt) (b : Bool) (config : XadcConfig) (x : Xadc D)
      → Tracks i b x
      → Succeeds (PartTracks i b) (init_sequence dev config x)
  unfolding init_sequence iowrite32
  init_sequence-Tracks i b config x h = ground arith

  init_config-Tracks :
      (i : Interrupt) (b : Bool) (config : XadcConfig) (x : Xadc D)
      → Tracks i b x
      → Succeeds (Tracks i b) (init_config dev config x)
  unfolding init_config iowrite32
  init_config-Tracks i b config x h = ground arith

  unless_returned-Tracks :
      (i : Interrupt) (b : Bool) (next : Xadc D → Option (Xadc D)) (r : Xadc D × Bool)
      → ((x : Xadc D) → Tracks i b x → Succeeds (Tracks i b) (next x))
      → PartTracks i b r
      → Succeeds (Tracks i b) (unless_returned dev next r)
  unless_returned-Tracks i b next (x, true) k h = k x h
  unless_returned-Tracks i b next (x, false) k h = h

  init-Tracks :
      (p : Platform) (config : XadcConfig) (x : Xadc D)
      → IsPlatform p
      → p.ioremap_ok ≡ true
      → config.intr_en ≡ true
      → x.irq ≡ not_requested
      → ltb_ℤ (pos 0) x.interrupt_id ≡ false
      → Succeeds (Tracks (irq_of_init p) (numbers_irq p)) (init dev p config x)
  unfolding init
  init-Tracks p config x law e a h k =
      let i = irq_of_init p in
      let b = numbers_irq p in
      rw (e, a)
        (Succeeds-bind (Tracks not_requested false) (Tracks i b)
          (iowrite32 dev 0x01 reset_offset (record x { mapped = true })) _
          (iowrite32-Tracks not_requested false 0x01 reset_offset (record x { mapped = true })
            (refl, h, k))
          (λ x2 h2.
            Succeeds-bind (PartTracks i b) (Tracks i b) (init_interrupts dev p config x2) _
              (init_interrupts-Tracks p config x2 law h2)
              (λ r3 h3.
                unless_returned-Tracks i b _ r3
                  (λ x3 k3.
                    Succeeds-bind (PartTracks i b) (Tracks i b)
                      (if config.seq_mode_en then init_sequence dev config x3 else some (x3, true))
                      _ (sequence i b config.seq_mode_en config x3 k3)
                      (λ r4 h4. unless_returned-Tracks i b _ r4 (init_config-Tracks i b config) h4))
                  h3)))
    where
      sequence :
          (i : Interrupt) (b asked : Bool) (config : XadcConfig) (x : Xadc D)
          → Tracks i b x
          → Succeeds (PartTracks i b) (if asked then init_sequence dev config x else some (x, true))
      sequence i b true config x h = init_sequence-Tracks i b config x h
      sequence i b false config x h = h

  deinit-Tracks :
      (i : Interrupt) (b : Bool) (x : Xadc D)
      → Tracks i b x
      → Succeeds
          (λ x'. (x'.mapped ≡ false) × (x'.irq ≡ (if b then free_irq i else i)))
          (deinit dev x)
  unfolding deinit iowrite32 ioread32
  deinit-Tracks i b x h = ground arith

  -- With the registers mapped, Xadc_Init of a configuration with interrupts holds the interrupt exactly when
  -- it has got a number and request_irq has granted it; Xadc_DeInit after it frees it whenever it has got a
  -- number.
  pub deinit-init :
      (p : Platform) (config : XadcConfig) (x : Xadc D)
      → IsPlatform p
      → p.ioremap_ok ≡ true
      → config.intr_en ≡ true
      → x.irq ≡ not_requested
      → ltb_ℤ (pos 0) x.interrupt_id ≡ false
      → (x1 : Xadc D) × (x2 : Xadc D) × (init dev p config x ≡ some x1)
        × (deinit dev x1 ≡ some x2)
        × (x1.mapped ≡ true)
        × (x1.irq ≡ irq_of_init p)
        × (x2.mapped ≡ false)
        × (x2.irq ≡ irq_of_deinit p)
  deinit-init p config x law e a h k =
      let (x1, e1, t) =
        Succeeds-some (Tracks (irq_of_init p) (numbers_irq p)) (init dev p config x)
          (init-Tracks p config x law e a h k) in
      let (x2, e2, mq) =
        Succeeds-some _ (deinit dev x1) (deinit-Tracks (irq_of_init p) (numbers_irq p) x1 t) in
      (x1, x2, e1, e2, t.0, t.1, mq.0, mq.1 ∙ freed (numbers_irq p) (is_zero p.request_irq))
    where
      freed :
          (b c : Bool)
          → ◌≡◌ {A = Interrupt}
              (if b
                then free_irq (if b && c then requested else not_requested)
                else (if b && c then requested else not_requested))
              (if b then free_irq (if b && c then requested else not_requested) else not_requested)
      freed true c = refl
      freed false c = refl
