-- ===== src/Pedal/Tests.antt =====
-- The pedal's theorems at the firmware's initial configuration, and a run.
use zybo_z.Common.{ℕ, ◌%◌, ◌≡◌, refl, arith, false, List, some, take, length, [], ◌∷◌, ◌++◌}
use zybo_z.Common.Int.{pos}
use zybo_z.Pedal.Codec.{Iic, codec_bytes, codec_write, codec_config}
use zybo_z.Pedal.Codec.Script.{
  Event, sent, paused, IsIic, events, config_script, Configures, decode_bytes, codec_bytes-decode,
  codec_config_lem,
}
use zybo_z.Pedal.Main.{Firmware}
use zybo_z.Pedal.Config.{Board, initial_cfg}
use zybo_z.Pedal.Board.{every_100ms}
use zybo_z.Pedal.Board.Writes.{every_100ms-threshold_high}

abbrev base : ℕ
base = 0x43c00000

abbrev power_on : Board
power_on = record {
  regs = record { cfg1 = 0; cfg1_second = 0; cfg2 = 0; cfg3 = 0; cfg4 = 0 };
  cfg = initial_cfg;
  effects = [];
}

threshold_high_example :
    (every_100ms base
      (record power_on { cfg = record initial_cfg { threshold_high = pos 1 } })).effects
    ≡ (every_100ms base power_on).effects
threshold_high_example = every_100ms-threshold_high base power_on (pos 1)

-- A world that is its own log, on a bus that takes every byte.
abbrev recorder : Iic (List Event)
recorder = record {
  send = λ addr bytes option b. (b ++ sent addr bytes ∷ [], length bytes);
  recv = λ addr n option b. (b, n, []);
  initialize = λ b. (b, 0);
  dynamic_initialize = λ b. (b, 0);
  set_address = λ addr b. (b, 0);
  set_options = λ b. b;
  set_handlers = λ b. b;
  connect_interrupt = λ b. b;
  set_gp_output = λ val b. b;
  msleep = λ ms b. b ++ paused ms ∷ [];
  xst_success = 0;
  xst_failure = 1;
  xst_device_is_stopped = 5;
}

recorder-IsIic : IsIic recorder (λ b. b)
recorder-IsIic = record {
  log-send = λ b addr bytes. refl;
  log-msleep = λ b ms. refl;
  log-initialize = λ b. refl;
  log-dynamic_initialize = λ b. refl;
  log-set_address = λ b addr. refl;
  log-set_options = λ b. refl;
  log-set_handlers = λ b. refl;
  log-connect_interrupt = λ b. refl;
  failure-ne-success = omega arith;
}

-- The codec is woken by the register 6 with the value 0x30, after its reset.
config_head :
    take 3 (codec_config recorder []).0
    ≡ sent 0x1a (0x1e ∷ 0 ∷ []) ∷ paused 500 ∷ sent 0x1a (0xc ∷ 0x30 ∷ []) ∷ []
unfolding codec_config codec_write codec_bytes
config_head = refl

codec_bytes_example : decode_bytes (codec_bytes 0x5 0x1a1) ≡ some (0x5 % 128, 0x1a1 % 512)
codec_bytes_example = codec_bytes-decode 0x5 0x1a1

codec_config_example :
    Configures recorder (λ b. b) [] (events config_script) (codec_config recorder [])
codec_config_example = codec_config_lem recorder (λ b. b) recorder-IsIic []

abbrev firmware : Firmware (List Event)
firmware = record {
  flags = record { tx_complete = false; rx_complete = false };
  bus = [];
  board = power_on;
  exceptions_enabled = false;
}
