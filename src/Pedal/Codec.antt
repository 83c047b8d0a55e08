-- ===== src/Pedal/Codec.antt =====
-- PedalBoardProject/I2c/I2c.c: the configuration of the audio codec over I2C. The library of the I2C core
-- and of the interrupt controller is a parameter.
pub mod Script
use zybo_z.Common.{
  ℕ, ◌*◌, ◌^◌, bit_and, bit_or, Bool, true, not, List, [], ◌∷◌, ◌==◌, if◌then◌else◌, u8, u16, shr,
  get_or,
}

abbrev pub left_adc_vol_reg : ℕ
left_adc_vol_reg = 0x0

abbrev pub right_adc_vol_reg : ℕ
right_adc_vol_reg = 0x1

abbrev pub left_dac_vol_reg : ℕ
left_dac_vol_reg = 0x2

abbrev pub right_dac_vol_reg : ℕ
right_dac_vol_reg = 0x3

abbrev pub analog_audio_ctrl_reg : ℕ
analog_audio_ctrl_reg = 0x4

abbrev pub digital_audio_ctrl_reg : ℕ
digital_audio_ctrl_reg = 0x5

abbrev pub pow_mng_reg : ℕ
pow_mng_reg = 0x6

abbrev pub digital_audio_rate : ℕ
digital_audio_rate = 0x7

abbrev pub sampling_rate_reg : ℕ
sampling_rate_reg = 0x8

abbrev pub active_reg : ℕ
active_reg = 0x9

abbrev pub reset_reg : ℕ
reset_reg = 0x0f

abbrev pub codec_addr : ℕ
codec_addr = 0x1a

-- XIIC_STOP and XIIC_REPEATED_START
pub data BusOption : Type 0 where
  stop repeated_start : BusOption

-- What the code calls, on a world B that holds the bus, the core and the interrupt controller: XIic_Send
-- and XIic_Recv with the number of bytes that they moved, the three calls of I2c_Init that may fail, the
-- calls after them that it does not check, XIic_SetGpOutput, and msleep.
pub record Iic (B : Type 0) : Type 0 where
  pub send : ℕ → List ℕ → BusOption → B → B × ℕ
  pub recv : ℕ → ℕ → BusOption → B → B × ℕ × List ℕ
  pub initialize : B → B × ℕ
  pub dynamic_initialize : B → B × ℕ
  pub set_address : ℕ → B → B × ℕ
  pub set_options : B → B
  pub set_handlers : B → B
  pub connect_interrupt : B → B
  pub set_gp_output : Bool → B → B
  pub msleep : ℕ → B → B
  pub xst_success : ℕ
  pub xst_failure : ℕ
  pub xst_device_is_stopped : ℕ

-- The two bytes of a write: seven bits of register and nine bits of value.
unfoldable pub codec_bytes : ℕ → ℕ → List ℕ
codec_bytes reg value =
    bit_or (u8 (reg * 2)) (u8 (bit_and (shr value 8) 1)) ∷ u8 (bit_and value 0xff) ∷ []

-- I2cTxHandler and I2cRxHandler set these.
pub record Flags : Type 0 where
  pub tx_complete : Bool
  pub rx_complete : Bool

unfoldable pub tx_handler : Flags → Flags
tx_handler f = record f { tx_complete = true }

unfoldable pub rx_handler : Flags → Flags
rx_handler f = record f { rx_complete = true }

module _ {B : Type 0} (iic : Iic B) where
  -- I2c_CodecWrite
  unfoldable pub codec_write : ℕ → ℕ → B → B × ℕ
  codec_write reg value b =
      let (b', sent) = iic.send codec_addr (codec_bytes reg value) stop b in
      (b', if not (u8 sent == 2) then iic.xst_failure else iic.xst_success)

  -- I2c_CodecRead: the status, and the value that the caller's variable has after it.
  unfoldable pub codec_read : ℕ → ℕ → B → B × ℕ × ℕ
  codec_read reg old b =
      let (b1, sent) = iic.send codec_addr (u8 reg ∷ []) repeated_start b in
      if not (u8 sent == 1)
      then (b1, iic.xst_failure, old)
      else let (b2, received, bytes) = iic.recv codec_addr 2 repeated_start b1 in
        if not (u8 received == 2) then (b2, iic.xst_failure, old) else (
          b2,
          iic.xst_success,
          bit_or (u8 (get_or bytes 0 0)) (u16 (u8 (get_or bytes 1 0) * 2 ^ 8)),
        )

  -- A call whose status is checked, and what follows its success.
  abbrev pub checked : (B → B × ℕ) → (B → B × ℕ) → B → B × ℕ
  checked call next b =
      let (b', status) = call b in
      if not (status == iic.xst_success) then (b', iic.xst_failure) else next b'

  abbrev pub succeeded : B → B × ℕ
  succeeded b = (b, iic.xst_success)

  -- I2c_Init
  unfoldable pub i2c_init : Flags × B → Flags × (B × ℕ)
  i2c_init (f, b) = (
    record { tx_complete = true; rx_complete = true },
    checked iic.initialize
        (checked iic.dynamic_initialize (
          checked (iic.set_address codec_addr)
            (λ b. succeeded (iic.connect_interrupt (iic.set_handlers (iic.set_options b))))))
        b,
  )

  -- I2c_CodecConfig
  unfoldable pub codec_config : B → B × ℕ
  codec_config = checked (codec_write reset_reg 0x0) (λ b.
      checked (codec_write pow_mng_reg 0x30)
        (checked (codec_write left_adc_vol_reg 0x21) (
          checked (codec_write right_adc_vol_reg 0x21) (
            checked (codec_write left_dac_vol_reg 0x79) (
              checked (codec_write right_dac_vol_reg 0x79) (
                checked (codec_write analog_audio_ctrl_reg 0x10) (
                  checked (codec_write digital_audio_ctrl_reg 0x1) (
                    checked (codec_write digital_audio_rate 0xa) (
                      checked (codec_write sampling_rate_reg 0x0) (λ c.
                        checked (codec_write active_reg 0x1)
                          (checked (codec_write pow_mng_reg 0x20) succeeded)
                          (iic.msleep 500 c))))))))))
        (iic.msleep 500 b))

  -- I2c_ChangeMute
  unfoldable pub change_mute : Bool → B → B
  change_mute val b = iic.set_gp_output val b
