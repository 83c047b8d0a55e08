-- ===== src/CenterAligned/Duties.antt =====
-- center-aligned.c: the duty cycles that the interrupts set, over a device whose registers hold what is
-- written to them.
use zybo_z.Common.{
  ℕ, zero, suc, ◌≤◌, ◌<◌, ◌%◌, ◌≡◌, refl, ap, ◌⊎◌, inl, inr, ◌∙◌, arith, Bool, true, Option, some,
  ◌==◌, if◌then◌else◌, ◌>>=◌, Succeeds, Succeeds-some, Succeeds-bind,
}
use zybo_z.Common.Int.{ℤ, pos, positive}
use zybo_z.CenterAligned.Loading.{IsGranted, granted}
use zybo_z.CenterAligned.{
  period, duty1, duty2, duty3, ctrl, intr, PwmState, first_phase, second_phase, default, Axi,
  Kernel, CenterAligned, center_start, irq, irqs, pwm_init, center_init,
}

-- The period and the duty cycles keep what was last written to them: `value` reads the registers up to
-- offset 12 without the bus.
pub record IsAxi {D : Type 0} (axi : Axi D) (value : ℕ → D → ℕ) : Type 0 where
  pub value-write :
      (o' o v : ℕ) (d : D)
      → o' ≤ 12
      → value o' (axi.write32 o v d) ≡ (if o' == o then v else value o' d)
  pub value-read : (o' o : ℕ) (d : D) → o' ≤ 12 → value o' (axi.read32 o d).0 ≡ value o' d

module _ {D : Type 0} (axi : Axi D) (value : ℕ → D → ℕ) where
  -- The period of 50000 ticks, and the three duty cycles.
  abbrev pub Holds : ℕ → ℕ → ℕ → D → Type 0
  Holds a b c d =
      (value period d ≡ 50000) × (value duty1 d ≡ a) × (value duty2 d ≡ b) × (value duty3 d ≡ c)

  -- What the registers hold while the driver waits for the interrupt in a state.
  abbrev pub HoldsIn : PwmState → D → Type 0
  HoldsIn first_phase d = Holds 10000 5000 40000 d
  HoldsIn second_phase d = Holds 35000 25000 2000 d
  HoldsIn default d = ⊥

  abbrev pub IsRunning : PwmState → CenterAligned D → Type 0
  IsRunning s c = (c.mapped ≡ true) × (c.state ≡ s) × HoldsIn s c.device

  module _ (law : IsAxi axi value) where
    -- The three writes, and the write that clears the interrupt.
    duties_written :
        (a b c : ℕ) (d : D)
        → value period d ≡ 50000
        → Holds a b c (axi.write32 duty3 c (axi.write32 duty2 b (axi.write32 duty1 a d)))
    duties_written a b c d h = grind (arith, law.value-write)

    duties_kept : (a b c o v : ℕ) (d : D) → 12 < o → Holds a b c d → Holds a b c (axi.write32 o v d)
    duties_kept a b c o v d l h = grind (arith, law.value-write)

    duties_read : (a b c o : ℕ) (d : D) → Holds a b c d → Holds a b c (axi.read32 o d).0
    duties_read a b c o d h = grind (arith, law.value-read)

    abbrev next_state : PwmState → PwmState
    next_state first_phase = second_phase
    next_state second_phase = first_phase
    next_state default = first_phase

    irq-IsRunning :
        (s : PwmState) (c : CenterAligned D)
        → IsRunning s c
        → Succeeds (IsRunning (next_state s)) (irq axi c)
    unfolding irq
    irq-IsRunning first_phase c (h, e, v) =
        let v1 = duties_read 10000 5000 40000 intr c.device v in
        rw (h, e)
          (
            refl,
            refl,
            duties_kept 35000 25000 2000 intr _ _ (omega arith)
                (duties_written 35000 25000 2000 _ (v1.0)),
          )
    irq-IsRunning second_phase c (h, e, v) =
        let v1 = duties_read 35000 25000 2000 intr c.device v in
        rw (h, e)
          (
            refl,
            refl,
            duties_kept 10000 5000 40000 intr _ _ (omega arith)
                (duties_written 10000 5000 40000 _ (v1.0)),
          )
    irq-IsRunning default c (h, e, v) = absurd v

    abbrev state_after : ℕ → PwmState → PwmState
    state_after zero s = s
    state_after (suc n) s = state_after n (next_state s)

    irqs-IsRunning :
        (n : ℕ) (s : PwmState) (c : CenterAligned D)
        → IsRunning s c
        → Succeeds (IsRunning (state_after n s)) (irqs axi n c)
    unfolding irqs
    irqs-IsRunning zero s c v = v
    irqs-IsRunning (suc n) s c v =
        Succeeds-bind (IsRunning (next_state s)) (IsRunning (state_after (suc n) s)) (irq axi c)
          (irqs axi n) (irq-IsRunning s c v) (λ c' v'. irqs-IsRunning n (next_state s) c' v')

    pwm_init-IsRunning :
        (c : CenterAligned D)
        → c.state ≡ first_phase
        → Succeeds (λ (c', flag). IsRunning first_phase c' × (flag ≡ true)) (pwm_init axi true c)
    unfolding pwm_init
    pwm_init-IsRunning c e = (
      (
        refl,
        e,
        duties_read 10000 5000 40000 ctrl _ (
            duties_kept 10000 5000 40000 ctrl 7 _ (omega arith)
              (duties_written 10000 5000 40000 _ first_write)),
      ),
      refl,
    )
      where
        first_write : value period (axi.write32 period 50000 c.device) ≡ 50000
        first_write = grind (arith, law.value-write)

    parity :
        (n : ℕ) (d : D)
        → HoldsIn (state_after n first_phase) d
        → ((n % 2 ≡ 0) × Holds 10000 5000 40000 d) ⊎ ((n % 2 ≡ 1) × Holds 35000 25000 2000 d)
    parity zero d h = inl (refl, h)
    parity (suc zero) d h = inr (refl, h)
    parity (suc (suc n)) d h = elim (parity n d h) [
      | inl (e, v) ↦ inl (omega arith, v)
      | inr (e, v) ↦ inr (omega arith, v)
    ]

    abbrev finish_init : Kernel → CenterAligned D × Bool → Option (CenterAligned D × ℤ)
    finish_init k (c, flag) = some (c, if flag then pos 0 else k.enomem)

    init_granted :
        (k : Kernel) (m : ℕ) (d : D)
        → k.node_found ≡ true
        → k.mapped_irq ≡ pos (suc m)
        → k.request_irq ≡ pos 0
        → k.ioremap_ok ≡ true
        → center_init axi k (center_start d) ≡ (pwm_init axi true (granted m d) >>= finish_init k)
    unfolding center_init
    init_granted k m d g0 g1 g2 g3 = rw (g0, g1, positive m, g2, g3) refl

    -- After a successful initialisation, any number of interrupts touch no register through NULL, and the
    -- registers hold the period of 50000 ticks and one of two triples of duty cycles: the first one after
    -- an even number of interrupts, the second one after an odd number.
    pub irqs_lem :
        (k : Kernel) (d : D) (n : ℕ)
        → IsGranted k
        → (c : CenterAligned D) × (c' : CenterAligned D) × (center_init axi k (center_start d)
            ≡ some (c, pos 0))
          × (irqs axi n c ≡ some c')
          × (((n % 2 ≡ 0) × Holds 10000 5000 40000 c'.device)
              ⊎ ((n % 2 ≡ 1) × Holds 35000 25000 2000 c'.device))
    irqs_lem k d n (m, g0, g1, g2, g3) =
        let ((c, flag), e, (v, f)) =
          Succeeds-some (λ (c', flag). IsRunning first_phase c' × (flag ≡ true))
            (pwm_init axi true (granted m d)) (pwm_init-IsRunning (granted m d) refl) in
        let (c', e', (h, q, w)) =
          Succeeds-some (IsRunning (state_after n first_phase)) (irqs axi n c)
            (irqs-IsRunning n first_phase c v) in
        (
          c,
          c',
          init_granted k m d g0 g1 g2 g3
              ∙ ap (λ (o : Option (CenterAligned D × Bool)). o >>= finish_init k) e
              ∙ ap (λ (t : Bool). some (c, if t then pos 0 else k.enomem)) f,
          e',
          parity n c'.device w,
        )
