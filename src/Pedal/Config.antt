-- ===== src/Pedal/Config.antt =====
-- PedalBoardProject/I2s/I2s.h and the types of I2s.c. A bit-field struct in a union with a word is that
-- word; its fields lie from the lowest bit on. `int8_t` and `int32_t` are integers.
use zybo_z.Common.{ℕ, Bool, List, false}
use zybo_z.Common.Int.{ℤ, pos, negsuc}

-- PedalBoard_DistMode_t
pub data DistMode : Type 0 where
  raw_output distortion fuzzy fuzzy_copy : DistMode

-- The enumerators' values
abbrev pub mode_value : DistMode → ℕ
mode_value raw_output = 0
mode_value distortion = 1
mode_value fuzzy = 2
mode_value fuzzy_copy = 3

-- phase_cfg_t
pub record PhaseCfg : Type 0 where
  pub enable : Bool
  pub inc : ℕ
  pub max_value : ℕ
  pub max_time : ℕ

-- PedalBoard_Cfg_t
pub record PedalCfg : Type 0 where
  pub is_start : Bool
  pub normalizer : ℕ
  pub mode : DistMode
  pub threshold_high : ℤ
  pub threshold_low : ℤ
  pub shift_qubic : ℕ
  pub gain : ℤ
  pub compressor : ℕ
  pub highpass : ℤ
  pub lowpass : ℤ
  pub phase_cfg : PhaseCfg

-- PedalBoard_Cfg1Reg to PedalBoard_Cfg4Reg. The fields of Pedalboard_cfg1_Bits are 1 + 2 + 6 + 24 bits
-- wide, and the last does not fit the first word: it is the low part of the second, which the word U
-- of the union does not cover.
pub record Registers : Type 0 where
  pub cfg1 : ℕ
  pub cfg1_second : ℕ
  pub cfg2 : ℕ
  pub cfg3 : ℕ
  pub cfg4 : ℕ

-- PedalBoard_Cfg as the program starts with it
abbrev pub initial_cfg : PedalCfg
initial_cfg = record {
  is_start = false;
  normalizer = 8;
  mode = raw_output;
  threshold_high = pos 0x7fffff;
  threshold_low = negsuc 8388556;
  shift_qubic = 2;
  gain = pos 4;
  compressor = 0x4000;
  highpass = pos 2;
  lowpass = pos 9;
  phase_cfg = record { enable = false; inc = 1; max_value = 4; max_time = 1 };
}

-- What the firmware does to the device: a register write (Xil_Out32) and a pause (msleep).
pub data Effect : Type 0 where
  out32 : ℕ → ℕ → Effect
  msleep : ℕ → Effect

-- The static variables, and the effects so far, the last one last.
pub record Board : Type 0 where
  pub regs : Registers
  pub cfg : PedalCfg
  pub effects : List Effect
