-- ===== src/Pedal/Board/Shows.antt =====
-- I2s.c: what the device's words show of a configuration, and that the setters' registers show it.
use native.Mathlib.Nat.{mod-lt, pow-suc}
use zybo_z.Common.{
  ℕ, zero, suc, ◌+◌, ◌-◌, ◌%◌, ◌^◌, ◌<◌, ◌≡◌, ◌∙◌, refl, ap, sym, Bool, true, false, min, bit_and,
  arith, if◌then◌else◌, ltb,
}
use zybo_z.Common.Int.{ℤ, pos, negsuc, wrap, signed, ◌≤ℤ◌}
use zybo_z.Common.Bits.{get_field, set_field, ones, bit_and-ones}
use zybo_z.Pedal.Config.{DistMode, mode_value, PhaseCfg, PedalCfg, Registers, raw_output}
use zybo_z.Pedal.Board.{clamp, bool_value, ip_init}
use zybo_z.Pedal.Board.Fields.{
  cfg1_fields, cfg1_second_field, cfg2_fields, cfg3_fields, cfg4_fields, signed-wrap, wrap-lt,
}

-- Clamping gives the nearest integer of the range.
pub clamp_lem :
    (low high x : ℤ)
    → low ≤ℤ high
    → (low ≤ℤ clamp low high x)
      × (clamp low high x ≤ℤ high)
      × (low ≤ℤ x → x ≤ℤ high → clamp low high x ≡ x)
      × (high ≤ℤ x → clamp low high x ≡ high)
      × (x ≤ℤ low → clamp low high x ≡ low)
unfolding clamp
clamp_lem low high x h = ground arith

abbrev pub IsInt8 : ℤ → Type 0
IsInt8 z = (negsuc 127 ≤ℤ z) × (z ≤ℤ pos 127)

-- The four words at the device's addresses.
pub record Words : Type 0 where
  pub word1 : ℕ
  pub word2 : ℕ
  pub word3 : ℕ
  pub word4 : ℕ

-- The words of the registers that are written to the device.
abbrev pub words : Registers → Words
words r = record { word1 = r.cfg1; word2 = r.cfg2; word3 = r.cfg3; word4 = r.cfg4 }

-- The device's words show the configuration but for its high threshold, which has no place in them: each
-- other field, as the driver's bit fields lay them out, holds the configured value, limited to what
-- the field can hold.
pub record Shows (c : PedalCfg) (w : Words) : Type 0 where
  pub is_start : get_field 0 1 w.word1 ≡ bool_value c.is_start
  pub mode : get_field 1 2 w.word1 ≡ mode_value c.mode
  pub gain : get_field 3 6 w.word1 ≡ wrap c.gain 64
  pub threshold_low :
      signed (get_field 0 24 w.word2) (2 ^ 24)
      ≡ clamp (negsuc 0x7fffff) (pos 0x7fffff) c.threshold_low
  pub highpass : signed (get_field 24 4 w.word2) 16 ≡ clamp (negsuc 7) (pos 7) c.highpass
  pub lowpass : signed (get_field 28 4 w.word2) 16 ≡ clamp (negsuc 7) (pos 7) c.lowpass
  pub shift_qubic : get_field 0 7 w.word3 ≡ c.shift_qubic % 128
  pub compressor : get_field 7 24 w.word3 ≡ c.compressor % 2 ^ 23
  pub normalizer : get_field 0 5 w.word4 ≡ min 15 c.normalizer
  pub phase_enable : get_field 5 1 w.word4 ≡ bool_value c.phase_cfg.enable
  pub phase_inc : get_field 6 2 w.word4 ≡ c.phase_cfg.inc % 4
  pub phase_max_value : get_field 8 3 w.word4 ≡ c.phase_cfg.max_value % 8
  pub phase_max_time : get_field 11 3 w.word4 ≡ c.phase_cfg.max_time % 8

-- The driver's variable, in the second word of its first union, holds the high threshold.
unfoldable pub HoldsHigh : PedalCfg → Registers → Type 0
HoldsHigh c r =
    signed (get_field 0 24 r.cfg1_second) (2 ^ 24)
    ≡ clamp (negsuc 0x7fffff) (pos 0x7fffff) c.threshold_high

mode_small : (m : DistMode) → mode_value m < 4
mode_small raw_output = omega arith
mode_small _ = omega arith

bool_small : (b : Bool) → bool_value b < 2
bool_small true = omega arith
bool_small false = omega arith

gain_clamp : (z : ℤ) → IsInt8 z → clamp (negsuc 127) (pos 127) z ≡ z
gain_clamp z h = (clamp_lem (negsuc 127) (pos 127) z (omega arith)).2 h.0 h.1

-- A clamped value is read back, as a signed field, from its residue.
clamped :
    (half : ℕ) (z : ℤ)
    → 0 < half
    → let c = clamp (negsuc (half - 1)) (pos (half - 1)) z in
      signed (wrap c (half + half)) (half + half) ≡ c
clamped half z h =
    let (lo, hi, _, _, _) = clamp_lem (negsuc (half - 1)) (pos (half - 1)) z (omega arith) in
    signed-wrap _ half h lo hi

-- The registers that the setters leave, word by word; `on` is what goes to the enable bit.
abbrev pub packed : Bool → PedalCfg → Registers → Registers
packed on c r = record {
  cfg1 = set_field 0 1 (bool_value on) (
      set_field 3 6 (wrap (clamp (negsuc 127) (pos 127) c.gain) 64)
        (set_field 1 2 (mode_value c.mode) r.cfg1));
  cfg1_second =
      set_field 0 24 (wrap (clamp (negsuc 0x7fffff) (pos 0x7fffff) c.threshold_high) 0x1000000)
        r.cfg1_second;
  cfg2 = set_field 28 4 (wrap (clamp (negsuc 7) (pos 7) c.lowpass) 16) (
      set_field 24 4 (wrap (clamp (negsuc 7) (pos 7) c.highpass) 16) (
        set_field 0 24 (wrap (clamp (negsuc 0x7fffff) (pos 0x7fffff) c.threshold_low) 0x1000000)
          r.cfg2));
  cfg3 =
      set_field 7 24 (bit_and c.compressor 0x7fffff)
        (set_field 0 7 (bit_and c.shift_qubic 0x7f) r.cfg3);
  cfg4 = set_field 11 3 (bit_and c.phase_cfg.max_time 0x7) (
      set_field 8 3 (bit_and c.phase_cfg.max_value 0x7) (
        set_field 6 2 (bit_and c.phase_cfg.inc 0x7) (
          set_field 5 1 (bool_value c.phase_cfg.enable) (
            set_field 0 5 (bit_and (if ltb 15 c.normalizer then 15 else c.normalizer) 0x1f)
              r.cfg4))));
}

pub ip_init_lem :
    (on : Bool) (r : Registers)
    → ip_init on r ≡ record r { cfg1 = set_field 0 1 (bool_value on) r.cfg1 }
unfolding ip_init
ip_init_lem true r = refl
ip_init_lem false r = refl

pub mask : (k a : ℕ) → bit_and a (ones k) < 2 ^ k
mask k a = rw (bit_and-ones k a) (mod-lt a (pow2_pos k))
  where
    pow2_pos : (k : ℕ) → 0 < 2 ^ k
    pow2_pos zero = omega arith
    pow2_pos (suc k) = omega (arith, pow2_pos k, pow-suc 2 k)

pub packed-Shows :
    (on : Bool) (c : PedalCfg) (r : Registers)
    → IsInt8 c.gain
    → c.is_start ≡ on
    → Shows c (words (packed on c r))
packed-Shows on c r g e =
    let ph : PhaseCfg = c.phase_cfg in
    let (f_on, f_mode, f_gain, _) =
      cfg1_fields (bool_value on) (mode_value c.mode)
        (wrap (clamp (negsuc 127) (pos 127) c.gain) 64) r.cfg1 (bool_small on) (mode_small c.mode)
        (wrap-lt _ 64 (omega arith)) in
    let (f_low, f_high_pass, f_low_pass) =
      cfg2_fields (wrap (clamp (negsuc 0x7fffff) (pos 0x7fffff) c.threshold_low) 0x1000000)
        (wrap (clamp (negsuc 7) (pos 7) c.highpass) 16)
        (wrap (clamp (negsuc 7) (pos 7) c.lowpass) 16) r.cfg2 (wrap-lt _ 0x1000000 (omega arith))
        (wrap-lt _ 16 (omega arith)) (wrap-lt _ 16 (omega arith)) in
    let ((f_qubic, f_compressor, _), _) =
      cfg3_fields (bit_and c.shift_qubic 0x7f) (bit_and c.compressor 0x7fffff) r.cfg3
        (mask 7 c.shift_qubic) (omega (arith, mask 23 c.compressor)) in
    let (f_norm, f_enable, f_inc, f_max, f_time, _) =
      cfg4_fields (bit_and (if ltb 15 c.normalizer then 15 else c.normalizer) 0x1f)
        (bool_value ph.enable) (bit_and ph.inc 0x7) (bit_and ph.max_value 0x7)
        (bit_and ph.max_time 0x7) r.cfg4 (mask 5 _) (bool_small ph.enable) (mask 3 _) (mask 3 _) in
    record {
      is_start = f_on ∙ ap bool_value (sym e);
      mode = f_mode;
      gain = f_gain ∙ ap (λ (z : ℤ). wrap z 64) (gain_clamp c.gain g);
      threshold_low =
          ap (λ (w : ℕ). signed w 0x1000000) f_low ∙ clamped 0x800000 c.threshold_low (omega arith);
      highpass = ap (λ (w : ℕ). signed w 16) f_high_pass ∙ clamped 8 c.highpass (omega arith);
      lowpass = ap (λ (w : ℕ). signed w 16) f_low_pass ∙ clamped 8 c.lowpass (omega arith);
      shift_qubic = f_qubic ∙ bit_and-ones 7 c.shift_qubic;
      compressor = f_compressor ∙ bit_and-ones 23 c.compressor;
      normalizer = f_norm ∙ normal c.normalizer;
      phase_enable = f_enable;
      phase_inc = f_inc ∙ residue ph.inc;
      phase_max_value = f_max ∙ bit_and-ones 3 ph.max_value;
      phase_max_time = f_time ∙ bit_and-ones 3 ph.max_time;
    }
  where
    residue : (n : ℕ) → bit_and n 0x7 % 4 ≡ n % 4
    residue n = omega (arith, bit_and-ones 3 n)

    normal : (n : ℕ) → bit_and (if ltb 15 n then 15 else n) 0x1f ≡ min 15 n
    normal n = ground (arith, bit_and-ones 5 n)

pub packed-HoldsHigh : (on : Bool) (c : PedalCfg) (r : Registers) → HoldsHigh c (packed on c r)
unfolding HoldsHigh
packed-HoldsHigh on c r =
    let w = wrap (clamp (negsuc 0x7fffff) (pos 0x7fffff) c.threshold_high) 0x1000000 in
    ap (λ (u : ℕ). signed u 0x1000000)
      (cfg1_second_field w r.cfg1_second (wrap-lt _ 0x1000000 (omega arith)))
    ∙ clamped 0x800000 c.threshold_high (omega arith)
