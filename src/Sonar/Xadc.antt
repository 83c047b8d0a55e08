-- ===== src/Sonar/Xadc.antt =====
-- KernelModules/adcsonar/files/xadc.c and xadc.h: the driver of the XADC converter. A register access
-- through Xadc_Base when that is NULL is a fault, `none`.
pub mod Sequence
pub mod Lifecycle
pub mod Requests
use zybo_z.Common.{
  ℕ, ◌+◌, ◌*◌, ◌%◌, bit_and, bit_or, Bool, true, false, not, Option, none, some, ltb, leb, ◌==◌,
  if◌then◌else◌, ◌>>=◌, u16, u32,
}
use zybo_z.Common.Int.{ℤ, pos, negsuc, ltb_ℤ}
use zybo_z.Common.Bits.{set_field}

abbrev pub reset_offset : ℕ
reset_offset = 0x00

abbrev pub status_offset : ℕ
status_offset = 0x04

abbrev pub global_intr_enable_offset : ℕ
global_intr_enable_offset = 0x5c

abbrev pub intr_status_offset : ℕ
intr_status_offset = 0x60

abbrev pub intr_enable_offset : ℕ
intr_enable_offset = 0x68

abbrev pub vaux0_res : ℕ
vaux0_res = 0x240

abbrev pub vaux14_res : ℕ
vaux14_res = 0x278

abbrev pub config1_offset : ℕ
config1_offset = 0x300

abbrev pub config2_offset : ℕ
config2_offset = 0x304

abbrev pub config3_offset : ℕ
config3_offset = 0x308

abbrev pub seq_aux_ch_sel_offset : ℕ
seq_aux_ch_sel_offset = 0x324

abbrev pub seq_ch_input_mode_offset : ℕ
seq_ch_input_mode_offset = 0x334

-- XADC_EOS_CLEAR_BIT | XADC_EOC_CLEAR_BIT, bits 4 and 5 of the interrupt status
abbrev pub clear_bits : ℕ
clear_bits = 0x30

-- XADC_EOC_STATUS | XADC_EOS_STATUS, bits 5 and 6 of the status
abbrev pub status_bits : ℕ
status_bits = 0x60

-- ioread32, ioread16 and iowrite32 on the device's registers, by offset.
pub record Device (D : Type 0) : Type 0 where
  pub read32 : ℕ → D → D × ℕ
  pub read16 : ℕ → D → D × ℕ
  pub write32 : ℕ → ℕ → D → D

-- What the kernel answers to the driver: whether ioremap maps the registers and the node is found, what
-- irq_of_parse_and_map and request_irq return, and the values of -ENODEV and -EINVAL.
pub record Platform : Type 0 where
  pub ioremap_ok : Bool
  pub node_found : Bool
  pub mapped_irq : ℤ
  pub request_irq : ℤ
  pub enodev : ℤ
  pub einval : ℤ

-- XADC_CONFIG_T; the three configuration registers as words, `has_handler` for irq_handler != NULL.
pub record XadcConfig : Type 0 where
  pub config1 : ℕ
  pub config2 : ℕ
  pub config3 : ℕ
  pub seq_channel_mask : ℕ
  pub intr_en : Bool
  pub seq_mode_en : Bool
  pub has_handler : Bool

-- What the kernel holds of the interrupt for the driver; `misfreed` after a free_irq of an interrupt that
-- request_irq had not granted.
pub data Interrupt : Type 0 where
  not_requested requested misfreed : Interrupt

abbrev pub free_irq : Interrupt → Interrupt
free_irq requested = not_requested
free_irq not_requested = misfreed
free_irq misfreed = misfreed

-- The driver's variables, `mapped` for Xadc_Base != NULL and `has_cb` for Xadc_Cb != NULL, the interrupt as the kernel
-- holds it, and the device.
pub record Xadc (D : Type 0) : Type 0 where
  pub mapped : Bool
  pub interrupt_id : ℤ
  pub has_cb : Bool
  pub irq : Interrupt
  pub device : D

module _ {D : Type 0} (dev : Device D) where
  unfoldable pub ioread32 : ℕ → Xadc D → Option (Xadc D × ℕ)
  ioread32 offset x =
      let (d, v) = dev.read32 offset x.device in
      if x.mapped then some (record x { device = d }, v) else none

  unfoldable pub ioread16 : ℕ → Xadc D → Option (Xadc D × ℕ)
  ioread16 offset x =
      let (d, v) = dev.read16 offset x.device in
      if x.mapped then some (record x { device = d }, u16 v) else none

  unfoldable pub iowrite32 : ℕ → ℕ → Xadc D → Option (Xadc D)
  iowrite32 value offset x =
      if x.mapped then some (record x { device = dev.write32 offset value x.device }) else none

  -- Xadc_GetSeqFlagAndClear
  unfoldable pub get_seq_flag_and_clear : Xadc D → Option (Xadc D × Bool)
  unfolding ioread32 iowrite32
  get_seq_flag_and_clear x = do
    (x1, intrflag) ← ioread32 intr_status_offset x
    (if bit_and intrflag clear_bits == clear_bits
        then (iowrite32 (bit_or intrflag clear_bits) intr_status_offset x1 >>= λ x2.
            some (x2, true))
        else some (x1, false))

  -- Xadc_GetSeqStatusAndClear
  unfoldable pub get_seq_status_and_clear : Xadc D → Option (Xadc D × Bool)
  unfolding ioread32 iowrite32
  get_seq_status_and_clear x = do
    (x1, intrflag) ← ioread32 status_offset x
    (if bit_and intrflag status_bits == status_bits
        then (iowrite32 (bit_or intrflag clear_bits) intr_status_offset x1 >>= λ x2.
            some (x2, true))
        else some (x1, false))

  -- Xadc_RestartSequence: channel_seq_mode is bits 12 to 15 of the second configuration register.
  unfoldable pub restart_sequence : Xadc D → Option (Xadc D)
  unfolding ioread32 iowrite32
  restart_sequence x = do
    (x1, config2) ← ioread32 config2_offset x
    let stopped = set_field 12 4 0x0 config2
    x2 ← iowrite32 stopped config2_offset x1
    iowrite32 (set_field 12 4 0x1 stopped) config2_offset x2

  -- Xadc_ReadChannel: the new value of the caller's variable, which a wrong channel leaves.
  unfoldable pub read_channel : ℕ → ℕ → Xadc D → Option (Xadc D × ℕ)
  unfolding ioread32
  read_channel num value x =
      if ltb 15 num
      then some (x, value)
      else (ioread32 (u32 (num * 4 + vaux0_res)) x >>= λ (x1, v). some (x1, u16 v))
