-- ===== src/Pedal/Board.antt =====
-- PedalBoardProject/I2s/I2s.c: the functions that pack the configuration into the registers and write
-- them to the device.
pub mod Fields
pub mod Shows
pub mod Device
pub mod Writes
use zybo_z.Common.{
  ℕ, ◌+◌, ◌%◌, bit_and, Bool, true, false, List, [], ◌∷◌, ◌++◌, ltb, if◌then◌else◌, u8,
}
use zybo_z.Common.Int.{ℤ, pos, negsuc, ltb_ℤ, wrap}
use zybo_z.Common.Bits.{set_field}
use zybo_z.Pedal.Config.{
  DistMode, mode_value, PhaseCfg, PedalCfg, Registers, Effect, out32, msleep, Board,
}

-- The two comparisons at the head of a setter for a signed field.
unfoldable pub clamp : ℤ → ℤ → ℤ → ℤ
clamp low high x = if ltb_ℤ high x then high else if ltb_ℤ x low then low else x

abbrev pub bool_value : Bool → ℕ
bool_value true = 1
bool_value false = 0

unfoldable pub set_normalization : ℕ → Registers → Registers
set_normalization normalization r =
    let clamped = (if ltb 15 normalization then 15 else normalization) in
    record r { cfg4 = set_field 0 5 (bit_and clamped 0x1f) r.cfg4 }

-- -0x800000 is `negsuc 0x7fffff`; masking an `int32_t` by 0xFFFFFF leaves its residue.
unfoldable pub set_high_threshold : ℤ → Registers → Registers
unfolding clamp
set_high_threshold threshold r = record r {
  cfg1_second =
      set_field 0 24 (wrap (clamp (negsuc 0x7fffff) (pos 0x7fffff) threshold) 0x1000000)
        r.cfg1_second;
}

unfoldable pub set_low_threshold : ℤ → Registers → Registers
unfolding clamp
set_low_threshold threshold r = record r {
  cfg2 = set_field 0 24 (wrap (clamp (negsuc 0x7fffff) (pos 0x7fffff) threshold) 0x1000000) r.cfg2;
}

unfoldable pub set_high_pass : ℤ → Registers → Registers
unfolding clamp
set_high_pass highpass r = record r {
  cfg2 = set_field 24 4 (wrap (clamp (negsuc 7) (pos 7) highpass) 16) r.cfg2;
}

unfoldable pub set_low_pass : ℤ → Registers → Registers
unfolding clamp
set_low_pass lowpass r = record r {
  cfg2 = set_field 28 4 (wrap (clamp (negsuc 7) (pos 7) lowpass) 16) r.cfg2;
}

unfoldable pub set_gain : ℤ → Registers → Registers
unfolding clamp
set_gain gain r = record r {
  cfg1 = set_field 3 6 (wrap (clamp (negsuc 127) (pos 127) gain) 64) r.cfg1;
}

unfoldable pub set_phase : PhaseCfg → Registers → Registers
set_phase phase r = record r {
  cfg4 = set_field 11 3 (bit_and phase.max_time 0x7) (
      set_field 8 3 (bit_and phase.max_value 0x7)
        (set_field 6 2 (bit_and phase.inc 0x7) (set_field 5 1 (bool_value phase.enable) r.cfg4)));
}

unfoldable pub set_mode : DistMode → Registers → Registers
set_mode mode r = record r { cfg1 = set_field 1 2 (mode_value mode) r.cfg1 }

unfoldable pub set_distortion_shift : ℕ → Registers → Registers
set_distortion_shift qubic r = record r { cfg3 = set_field 0 7 (bit_and qubic 0x7f) r.cfg3 }

unfoldable pub set_compressor : ℕ → Registers → Registers
set_compressor compressor r = record r {
  cfg3 = set_field 7 24 (bit_and compressor 0x7fffff) r.cfg3;
}

unfoldable pub enable : Registers → Registers
enable r = record r { cfg1 = set_field 0 1 1 r.cfg1 }

unfoldable pub disable : Registers → Registers
disable r = record r { cfg1 = set_field 0 1 0 r.cfg1 }

unfoldable pub ip_init : Bool → Registers → Registers
unfolding enable disable
ip_init on r = if on then enable r else disable r

-- The address of the device's registers, XPAR_GUITARPRESETS_0_BASEADDR, is the board's.
module _ (base : ℕ) where
  -- The four writes at the end of PedalBoard_Init and of PedalBoard_100ms.
  unfoldable pub write_registers : Registers → List Effect
  write_registers r =
      out32 (base + 0x0) r.cfg1
      ∷ out32 (base + 0x4) r.cfg2
      ∷ out32 (base + 0x8) r.cfg3
      ∷ out32 (base + 0xc) r.cfg4
      ∷ []

  -- PedalBoard_Init; its result is always XST_SUCCESS.
  unfoldable pub init : Board → Board
  unfolding set_mode set_normalization set_high_threshold set_low_threshold set_gain
      set_distortion_shift set_compressor set_high_pass set_low_pass set_phase ip_init
      write_registers
  init b =
      let c = b.cfg in
      let r1 = set_normalization c.normalizer (set_mode c.mode b.regs) in
      let r2 = set_low_threshold c.threshold_low (set_high_threshold c.threshold_high r1) in
      let r3 = set_distortion_shift c.shift_qubic (set_gain c.gain r2) in
      let r4 = set_high_pass c.highpass (set_compressor c.compressor r3) in
      let r5 = set_phase c.phase_cfg (set_low_pass c.lowpass r4) in
      let r6 = ip_init true r5 in
      record {
        regs = r6;
        cfg = record c { is_start = true };
        effects =
            b.effects
            ++ (out32 (base + 0x0) 0x0 ∷ out32 (base + 0x4) 0x0 ∷ msleep 100 ∷ write_registers r6);
      }

  -- PedalBoard_100ms
  unfoldable pub every_100ms : Board → Board
  unfolding set_mode set_normalization set_high_threshold set_low_threshold set_gain
      set_distortion_shift set_compressor set_high_pass set_low_pass set_phase ip_init
      write_registers
  every_100ms b =
      let c = b.cfg in
      let r1 = set_normalization c.normalizer (set_mode c.mode b.regs) in
      let r2 = set_low_threshold c.threshold_low (set_high_threshold c.threshold_high r1) in
      let r3 = set_compressor c.compressor (set_gain c.gain r2) in
      let r4 = set_high_pass c.highpass (set_distortion_shift c.shift_qubic r3) in
      let r5 = set_phase c.phase_cfg (set_low_pass c.lowpass r4) in
      let r6 = ip_init c.is_start r5 in
      record b { regs = r6; effects = b.effects ++ write_registers r6 }
