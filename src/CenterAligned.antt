-- ===== src/CenterAligned.antt =====
-- KernelModules/center-aligned/files/center-aligned.c: the driver of the centre-aligned PWM. A register
-- access through CenterAligned_base when that is NULL is a fault, `none`.
pub mod Duties
pub mod Loading
mod Tests
use zybo_z.Common.{
  ℕ, zero, suc, ◌^◌, bit_or, Bool, true, false, not, Option, none, some, ◌==◌, if◌then◌else◌, ◌>>=◌,
}
use zybo_z.Common.Int.{ℤ, pos, ltb_ℤ, is_zero}

abbrev pub period : ℕ
period = 0

abbrev pub duty1 : ℕ
duty1 = 4

abbrev pub duty2 : ℕ
duty2 = 8

abbrev pub duty3 : ℕ
duty3 = 12

abbrev pub ctrl : ℕ
ctrl = 16

abbrev pub intr : ℕ
intr = 24

abbrev pub pwm_enable : ℕ
pwm_enable = 0

abbrev pub pwm_center_aligned : ℕ
pwm_center_aligned = 1

abbrev pub pwm_interrupt_enable : ℕ
pwm_interrupt_enable = 2

-- PWM_STATE
pub data PwmState : Type 0 where
  first_phase second_phase default : PwmState

-- ioread32 and iowrite32 on the device's registers, by offset.
pub record Axi (D : Type 0) : Type 0 where
  pub read32 : ℕ → D → D × ℕ
  pub write32 : ℕ → ℕ → D → D

-- What the kernel answers: whether the node is found and ioremap maps the registers, what
-- irq_of_parse_and_map and request_irq return, and the values of -ENODEV, -EINVAL and -ENOMEM.
pub record Kernel : Type 0 where
  pub node_found : Bool
  pub mapped_irq : ℤ
  pub request_irq : ℤ
  pub ioremap_ok : Bool
  pub enodev : ℤ
  pub einval : ℤ
  pub enomem : ℤ

-- The driver's variables, `mapped` for CenterAligned_base != NULL, the device, and whether the kernel holds
-- the interrupt for the driver.
pub record CenterAligned (D : Type 0) : Type 0 where
  pub state : PwmState
  pub ctr_reg : ℕ
  pub mapped : Bool
  pub interrupt_id : ℤ
  pub device : D
  pub irq_held : Bool

-- The module as the loader leaves it.
abbrev pub center_start : {D : Type 0} → D → CenterAligned D
center_start d = record {
  state = first_phase;
  ctr_reg = 0;
  mapped = false;
  interrupt_id = pos 0;
  device = d;
  irq_held = false;
}

-- InterruptCheck
unfoldable pub interrupt_check : {D : Type 0} → Kernel → CenterAligned D → CenterAligned D × ℤ
interrupt_check k c =
    if not k.node_found
    then (c, k.enodev)
    else let c1 = record c { interrupt_id = k.mapped_irq } in
      if ltb_ℤ (pos 0) k.mapped_irq then (c1, pos 0) else (c1, k.einval)

module _ {D : Type 0} (axi : Axi D) where
  unfoldable pub ioread32 : ℕ → CenterAligned D → Option (CenterAligned D × ℕ)
  ioread32 offset c =
      let (d, v) = axi.read32 offset c.device in
      if c.mapped then some (record c { device = d }, v) else none

  -- iowrite32, and axi_write32_safe, which adds a barrier and a pause.
  unfoldable pub axi_write32 : ℕ → ℕ → CenterAligned D → Option (CenterAligned D)
  axi_write32 offset value c =
      if c.mapped then some (record c { device = axi.write32 offset value c.device }) else none

  -- The writes of the three duty cycles.
  unfoldable pub write_duties : ℕ → ℕ → ℕ → CenterAligned D → Option (CenterAligned D)
  unfolding axi_write32
  write_duties a b c m = do
    m ← axi_write32 duty1 a m
    m ← axi_write32 duty2 b m
    axi_write32 duty3 c m

  -- The switch of CenterAligned_Irq
  abbrev pub irq_case : PwmState → CenterAligned D → Option (CenterAligned D)
  irq_case first_phase c = do
    c ← write_duties 35000 25000 2000 c
    some (record c { state = second_phase })
  irq_case second_phase c = do
    c ← write_duties 10000 5000 40000 c
    some (record c { state = first_phase })
  irq_case default c = some (record c { state = first_phase })

  -- CenterAligned_Irq
  unfoldable pub irq : CenterAligned D → Option (CenterAligned D)
  unfolding ioread32 axi_write32 write_duties
  irq c = do
    (c1, status) ← ioread32 intr c
    c2 ← irq_case c1.state c1
    axi_write32 intr (bit_or status 1) c2

  -- n interrupts
  unfoldable pub irqs : ℕ → CenterAligned D → Option (CenterAligned D)
  irqs zero c = some c
  irqs (suc n) c = irq c >>= irqs n

  -- Pwm_Init
  unfoldable pub pwm_init : Bool → CenterAligned D → Option (CenterAligned D × Bool)
  unfolding ioread32 axi_write32 write_duties
  pwm_init ioremap_ok c =
      let c1 = record c { mapped = ioremap_ok } in
      if not ioremap_ok then some (c1, false) else do
        c2 ← axi_write32 period 50000 c1
        c3 ← write_duties 10000 5000 40000 c2
        c4 ←
            axi_write32 ctrl
              (bit_or (bit_or (2 ^ pwm_enable) (2 ^ pwm_center_aligned)) (2 ^ pwm_interrupt_enable))
              c3
        (c5, ctr) ← ioread32 ctrl c4
        some (record c5 { ctr_reg = ctr }, true)

  -- CenterAligned_Init
  unfoldable pub center_init : Kernel → CenterAligned D → Option (CenterAligned D × ℤ)
  unfolding interrupt_check pwm_init
  center_init k c =
      let (c1, ret) = interrupt_check k c in
      if not (is_zero ret)
      then some (c1, ret)
      else if not (is_zero k.request_irq)
      then some (c1, k.request_irq)
      else do
        (c2, flag) ← pwm_init k.ioremap_ok (record c1 { irq_held = true })
        some (c2, if flag then pos 0 else k.enomem)

  -- One turn of center_aligned_thread, which the module does not start.
  unfoldable pub thread_turn : CenterAligned D → Option (CenterAligned D)
  unfolding write_duties
  thread_turn c = write_duties 35000 25000 2000 c >>= write_duties 10000 5000 40000

  -- CenterAligned_Exit
  unfoldable pub center_exit : CenterAligned D → Option (CenterAligned D)
  unfolding axi_write32
  center_exit c = do
    c ← axi_write32 ctrl 0x0 (record c { irq_held = false })
    some (record c { mapped = false })
