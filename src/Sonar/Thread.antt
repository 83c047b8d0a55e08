-- ===== src/Sonar/Thread.antt =====
-- KernelModules/adcsonar/files/adcsonar_main.c: the sampling thread, its configuration and the read of the
-- character device; and UserSpace/mqttbroker/files/AdcSonarHandle/AdcSonarHandle.c, the device's reader.
pub mod Readings
use zybo_z.Common.{
  ℕ, zero, suc, ◌+◌, ◌*◌, ◌/◌, ◌%◌, ◌^◌, ◌≡◌, ◌≢◌, ◌≤◌, ◌<◌, ◌⊎◌, inl, inr, refl, Bool, true, false,
  not, Option, none, some, ◌==◌, if◌then◌else◌, ◌>>=◌, bit_or, u16, u32, arith, Succeeds,
  Succeeds-some, Succeeds-bind,
}
use zybo_z.Common.Bits.{set_field}
use zybo_z.Sonar.Xadc.{
  Device, Xadc, XadcConfig, ioread32, ioread16, iowrite32, get_seq_flag_and_clear,
  get_seq_status_and_clear, restart_sequence, vaux14_res,
}

-- XADC_KSTATE
pub data SonarState : Type 0 where
  start_conv : SonarState
  check_status : SonarState
  conv_end : SonarState

-- ADCSONAR_DATA, also the reader's ADCSONARHANDLE_DATA
pub record SonarData : Type 0 where
  pub distance : ℕ
  pub version : ℕ

-- The thread's variables, adcSonar_Data and the converter's driver.
pub record Sonar (D : Type 0) : Type 0 where
  pub state : SonarState
  pub raw_data : ℕ
  pub sonar_data : SonarData
  pub xadc : Xadc D

-- adcSonar_ParamsInit: the configuration, whose static storage starts with every bit 0. The callback is
-- NULL.
unfoldable pub params_init : XadcConfig
params_init = record {
  config1 =
      set_field 9 1 0
        (set_field 15 1 0 (set_field 0 5 0x18 (set_field 10 1 1 (set_field 12 2 0x1 0))));
  config2 =
      set_field 12 4 0x1
        (set_field 4 4 (bit_or 0x04 0x08) (set_field 8 1 0 (set_field 9 3 0 (set_field 0 1 1 0))));
  config3 = set_field 8 8 0x4 (set_field 4 2 0 0);
  seq_channel_mask = bit_or (2 ^ 14) (2 ^ 7);
  intr_en = true;
  seq_mode_en = true;
  has_handler = false;
}

-- adcSonar_read: what the reader's buffer gets, unless copy_to_user fails.
unfoldable pub sonar_read : {D : Type 0} → Bool → Sonar D → Option SonarData
sonar_read copied s = if copied then some s.sonar_data else none

-- AdcSonarHandle_ReadData, with what `read` of the device gives: `false` when that fails or the version is
-- the one of the last call.
unfoldable pub read_data : Option SonarData → SonarData → SonarData × Bool
read_data none previous = (previous, false)
read_data (some read) previous = (read, not (previous.version == read.version))

module _ {D : Type 0} (dev : Device D) where
  -- The three places of the thread that take a reading.
  unfoldable pub take_reading : Sonar D → Option (Sonar D)
  take_reading s = do
    (x, word) ← ioread16 dev vaux14_res s.xadc
    let raw = word / 2 ^ 4
    x' ← restart_sequence dev x
    some (record s {
      raw_data = raw;
      sonar_data = record { distance = raw; version = u32 (s.sonar_data.version + 1) };
      xadc = x';
    })

  -- A reading if the flag is set.
  abbrev pub reading_if : Sonar D → Xadc D × Bool → Option (Sonar D)
  reading_if s (x, true) = take_reading (record s { xadc = x })
  reading_if s (x, false) = some (record s { xadc = x })

  -- The case XADC_CHECK_STATUS up to the change of the state.
  abbrev pub reading_or_flag : Sonar D → Xadc D × Bool → Option (Sonar D)
  reading_or_flag s (x, true) = take_reading (record s { xadc = x })
  reading_or_flag s (x, false) = get_seq_flag_and_clear dev x >>= reading_if s

  abbrev pub thread_case : SonarState → Sonar D → Option (Sonar D)
  thread_case start_conv s = some (record s { state = check_status })
  thread_case check_status s = do
    s' ← (get_seq_status_and_clear dev s.xadc >>= reading_or_flag s)
    some (record s' { state = conv_end })
  thread_case conv_end s = get_seq_flag_and_clear dev s.xadc >>= reading_if s

  -- One iteration of adcSonar_thread
  unfoldable pub thread_step : Sonar D → Option (Sonar D)
  thread_step s = thread_case s.state s

  -- adcSonar_thread stopped after n iterations
  unfoldable pub thread : ℕ → Sonar D → Option (Sonar D)
  thread zero s = some s
  thread (suc n) s = thread_step s >>= thread n
