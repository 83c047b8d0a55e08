-- ===== src/Pedal/Codec/Script.antt =====
-- I2c.c: what the codec receives, against the datasheet's format, and in which order.
use zybo_z.Common.{
  ℕ, zero, suc, ◌+◌, ◌*◌, ◌/◌, ◌%◌, ◌<◌, ◌≡◌, ◌≢◌, ◌⊎◌, inl, inr, refl, ap, ◌∙◌, sym, arith, true,
  false, List, [], ◌∷◌, ◌++◌, ◌==◌, bit_and, bit_or, u8, shr, length, take, Option, none, some,
  Bool-cases, subst,
}
use mathlib.Core.List.{append_assoc, append-nil}
use zybo_z.Common.Bits.{bit_and-ones, bit_or_low, bit_or-zero}
use zybo_z.Pedal.Codec.{
  Iic, stop, codec_addr, codec_bytes, codec_write, checked, succeeded, codec_config,
  left_adc_vol_reg, right_adc_vol_reg, left_dac_vol_reg, right_dac_vol_reg, analog_audio_ctrl_reg,
  digital_audio_ctrl_reg, pow_mng_reg, digital_audio_rate, sampling_rate_reg, active_reg, reset_reg,
}

-- The codec's reading of the two bytes after the address: a register of seven bits and a value of nine.
unfoldable pub decode_bytes : List ℕ → Option (ℕ × ℕ)
decode_bytes (x ∷ y ∷ []) = some (x / 2, x % 2 * 256 + y)
decode_bytes _ = none

low_bit : (a y : ℕ) → a % 2 ≡ 0 → y < 2 → bit_or a y ≡ a + y
low_bit a zero e h = bit_or-zero a ∙ omega arith
low_bit a (suc zero) e h = omega (arith, bit_or_low a 1, bit_or-zero (a / 2), e)
low_bit a (suc (suc y)) e h = absurd (omega (arith, h))

-- What I2c_CodecWrite sends is read by the codec as the register and the value, cut to their widths.
pub codec_bytes-decode :
    (reg value : ℕ) → decode_bytes (codec_bytes reg value) ≡ some (reg % 128, value % 512)
unfolding codec_bytes decode_bytes
codec_bytes-decode reg value = rw (first, bit_and-ones 8 value) (ground arith)
  where
    top : u8 (bit_and (shr value 8) 1) ≡ value / 256 % 2
    top = omega (arith, bit_and-ones 1 (value / 256))

    first : bit_or (u8 (reg * 2)) (u8 (bit_and (shr value 8) 1)) ≡ u8 (reg * 2) + value / 256 % 2
    first = rw top (low_bit (u8 (reg * 2)) (value / 256 % 2) (omega arith) (omega arith))

-- The codec's configuration as a list.
pub data Command : Type 0 where
  set_register : ℕ → ℕ → Command
  pause : ℕ → Command

abbrev pub config_script : List Command
config_script =
    set_register reset_reg 0x0
    ∷ pause 500
    ∷ set_register pow_mng_reg 0x30
    ∷ set_register left_adc_vol_reg 0x21
    ∷ set_register right_adc_vol_reg 0x21
    ∷ set_register left_dac_vol_reg 0x79
    ∷ set_register right_dac_vol_reg 0x79
    ∷ set_register analog_audio_ctrl_reg 0x10
    ∷ set_register digital_audio_ctrl_reg 0x1
    ∷ set_register digital_audio_rate 0xa
    ∷ set_register sampling_rate_reg 0x0
    ∷ pause 500
    ∷ set_register active_reg 0x1
    ∷ set_register pow_mng_reg 0x20
    ∷ []

-- What the world has seen: bytes sent to an address, and pauses.
pub data Event : Type 0 where
  sent : ℕ → List ℕ → Event
  paused : ℕ → Event

abbrev pub events : List Command → List Event
events [] = []
events (set_register reg value ∷ cs) = sent codec_addr (codec_bytes reg value) ∷ events cs
events (pause ms ∷ cs) = paused ms ∷ events cs

-- What the code relies on: `log` records each transmission and each pause, the set-up of the core transmits
-- nothing, and failure is no success.
pub record IsIic {B : Type 0} (iic : Iic B) (log : B → List Event) : Type 0 where
  pub log-send :
      (b : B) (addr : ℕ) (bytes : List ℕ)
      → log (iic.send addr bytes stop b).0 ≡ log b ++ sent addr bytes ∷ []
  pub log-msleep : (b : B) (ms : ℕ) → log (iic.msleep ms b) ≡ log b ++ paused ms ∷ []
  pub log-initialize : (b : B) → log (iic.initialize b).0 ≡ log b
  pub log-dynamic_initialize : (b : B) → log (iic.dynamic_initialize b).0 ≡ log b
  pub log-set_address : (b : B) (addr : ℕ) → log (iic.set_address addr b).0 ≡ log b
  pub log-set_options : (b : B) → log (iic.set_options b) ≡ log b
  pub log-set_handlers : (b : B) → log (iic.set_handlers b) ≡ log b
  pub log-connect_interrupt : (b : B) → log (iic.connect_interrupt b) ≡ log b
  pub failure-ne-success : iic.xst_failure ≢ iic.xst_success

module _ {B : Type 0} (iic : Iic B) where
  -- Reference: run the commands until one fails.
  unfoldable pub run_script : List Command → B → B × ℕ
  run_script [] b = succeeded iic b
  run_script (set_register reg value ∷ cs) b =
      checked iic (codec_write iic reg value) (run_script cs) b
  run_script (pause ms ∷ cs) b = run_script cs (iic.msleep ms b)

  -- I2c_CodecConfig runs the list.
  codec_config-run_script : (b : B) → codec_config iic b ≡ run_script config_script b
  unfolding codec_config run_script
  codec_config-run_script b = refl

  -- How a run of commands has ended: all were sent, or the first k, the last of which failed.
  abbrev pub Configures : (B → List Event) → B → List Event → B × ℕ → Type 0
  Configures log b es (b', status) =
      ((status ≡ iic.xst_success) × (log b' ≡ log b ++ es))
      ⊎ ((k : ℕ) × (k < length es)
          × (status ≡ iic.xst_failure)
          × (log b' ≡ log b ++ take (suc k) es))

  module _ (log : B → List Event) (law : IsIic iic log) where
    Configures-cons :
        (b c : B) (e : Event) (es : List Event) (r : B × ℕ)
        → log c ≡ log b ++ e ∷ []
        → Configures log c es r
        → Configures log b (e ∷ es) r
    Configures-cons b c e es r h (inl (s, l)) =
        inl (s, l ∙ ap (λ (x : List Event). x ++ es) h ∙ append_assoc (log b) (e ∷ []) es)
    Configures-cons b c e es r h (inr (k, n, s, l)) = inr (
      suc k,
      omega (arith, n),
      s,
      l
          ∙ ap (λ (x : List Event). x ++ take (suc k) es) h
          ∙ append_assoc (log b) (e ∷ []) (take (suc k) es),
    )

    write_ok :
        (reg value : ℕ) (next : B → B × ℕ) (b : B)
        → (u8 (iic.send codec_addr (codec_bytes reg value) stop b).1 == 2) ≡ true
        → checked iic (codec_write iic reg value) next b
          ≡ next (iic.send codec_addr (codec_bytes reg value) stop b).0
    unfolding codec_write
    write_ok reg value next b t = rw (t, eq_self iic.xst_success) refl
      where
        eq_self : (n : ℕ) → (n == n) ≡ true
        eq_self n = ground arith

    write_failed :
        (reg value : ℕ) (next : B → B × ℕ) (b : B)
        → (u8 (iic.send codec_addr (codec_bytes reg value) stop b).1 == 2) ≡ false
        → checked iic (codec_write iic reg value) next b
          ≡ ((iic.send codec_addr (codec_bytes reg value) stop b).0, iic.xst_failure)
    unfolding codec_write
    write_failed reg value next b t = rw (t, ne law.failure-ne-success) refl
      where
        ne : {m n : ℕ} → m ≢ n → (m == n) ≡ false
        ne h = ground arith

    run_script-Configures :
        (cs : List Command) (b : B) → Configures log b (events cs) (run_script cs b)
    unfolding run_script
    run_script-Configures [] b = inl (refl, sym (append-nil (log b)))
    run_script-Configures (pause ms ∷ cs) b =
        Configures-cons b (iic.msleep ms b) (paused ms) (events cs)
          (run_script cs (iic.msleep ms b)) (law.log-msleep b ms)
          (run_script-Configures cs (iic.msleep ms b))
    run_script-Configures (set_register reg value ∷ cs) b =
        let sending = iic.send codec_addr (codec_bytes reg value) stop b in
        elim (Bool-cases (u8 sending.1 == 2)) [
          | inl t ↦
              subst (Configures log b (sent codec_addr (codec_bytes reg value) ∷ events cs))
                (sym (write_ok reg value (run_script cs) b t))
                (Configures-cons b sending.0 (sent codec_addr (codec_bytes reg value)) (events cs)
                  (run_script cs sending.0) (law.log-send b codec_addr (codec_bytes reg value))
                  (run_script-Configures cs sending.0))
          | inr t ↦
              rw (write_failed reg value (run_script cs) b t)
                (inr (0, omega arith, refl, law.log-send b codec_addr (codec_bytes reg value)))
        ]

    -- I2c_CodecConfig returns XST_SUCCESS and the world has seen the commands of the configuration in their
    -- order, each once, with its pauses; or it returns XST_FAILURE and the world has seen only a first
    -- part of them, one at least.
    pub codec_config_lem : (b : B) → Configures log b (events config_script) (codec_config iic b)
    codec_config_lem b = rw (codec_config-run_script b) (run_script-Configures config_script b)
