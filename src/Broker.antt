-- ===== src/Broker.antt =====
-- UserSpace/mqttbroker/files/mqttSender.c: the broker's scheduler and its main loop, which runs the scheduler
-- and MqttHandle_App in turn.
pub mod Publication
pub mod Phases
pub mod Samples
pub mod Drivers
pub mod Process
mod Tests
use zybo_z.Common.{ℕ, Bool, true, false, Option, some, List, [], ◌∷◌, ◌==◌, if◌then◌else◌, ◌>>=◌}
use zybo_z.Mqtt.Types.{DataState, init, idle, sending, send_success, Handle}
use zybo_z.Mqtt.Payload.{append_payload, reset_payload}
use zybo_z.Mqtt.Tls.{Tls}
use zybo_z.Mqtt.Transfer.{Machine}
use zybo_z.Mqtt.App.{app}
use zybo_z.Sonar.Thread.{SonarData, read_data}

-- MQTT_BROKER_STATE
pub data SchedulerState : Type 0 where
  unbind_xadc start_xadc_kernel reading_data send_to_server prepare_read finish_send :
      SchedulerState

abbrev pub is_idle : DataState → Bool
is_idle idle = true
is_idle init = false
is_idle sending = false
is_idle send_success = false

abbrev pub is_sending : DataState → Bool
is_sending sending = true
is_sending init = false
is_sending idle = false
is_sending send_success = false

-- What one iteration finds: the results of XadcUnbindDriver and AdcSonarHandle_Init, and what the device
-- gives to a read.
pub record Input : Type 0 where
  pub unbind : ℕ
  pub modprobe : ℕ
  pub device : Option SonarData

-- The static variables of mqttSender.c, with those of MqttHandle.c in `machine`.
pub record Broker (F S : Type 0) : Type 0 where
  pub scheduler_state : SchedulerState
  pub mqtt_write_flag : Bool
  pub distance_actl : F
  pub sonar_data : SonarData
  pub end_flag : ℕ
  pub scheduler_delay_en : Bool
  pub machine : Machine S

-- Floating-point numbers are F: `actual` scales a reading to centimetres, `text` is printf's "%.3f".
module _ {F S : Type 0} (actual : ℕ → F) (text : F → List ℕ) (tls : Tls S) where
  -- MqttHandle_ResetPayload and MqttHandle_AppendPayload
  unfoldable pub load_sample : Broker F S → Option (Machine S)
  load_sample b = do
    let h = b.machine.handle
    payload ← append_payload (text b.distance_actl) (reset_payload h.payload)
    some (record b.machine { handle = record h { payload = payload } })

  abbrev pub sample_read : Broker F S → SonarData × Bool → Broker F S
  sample_read b (new, true) = record b {
    sonar_data = new;
    distance_actl = actual new.distance;
    scheduler_state = send_to_server;
  }
  sample_read b (new, false) = record b { sonar_data = new }

  -- The cases of AppScheduler
  abbrev pub scheduler_case : SchedulerState → Input → Broker F S → Option (Broker F S)
  scheduler_case unbind_xadc i b = some (record b {
    scheduler_delay_en = false;
    sonar_data = record { distance = 0; version = 0 };
    end_flag = i.unbind;
    scheduler_state = start_xadc_kernel;
  })
  scheduler_case start_xadc_kernel i b =
      some (record b { end_flag = i.modprobe; scheduler_state = reading_data })
  scheduler_case reading_data i b = some (sample_read b (read_data i.device b.sonar_data))
  scheduler_case send_to_server i b =
      if is_idle b.machine.handle.data_state
      then (load_sample b >>= λ m.
          some (record b { machine = m; mqtt_write_flag = true; scheduler_state = prepare_read }))
      else some b
  scheduler_case prepare_read i b = some (
      if is_sending b.machine.handle.data_state
      then record b { mqtt_write_flag = false; scheduler_state = finish_send }
      else b)
  scheduler_case finish_send i b = some (
      if is_idle b.machine.handle.data_state
      then record b { scheduler_delay_en = true; scheduler_state = reading_data }
      else b)

  unfoldable pub app_scheduler : Input → Broker F S → Option (Broker F S)
  app_scheduler i b = scheduler_case b.scheduler_state i b

  -- MqttHandle_App in the main loop, and the pause.
  unfoldable pub send_data : Broker F S → Option (Broker F S)
  send_data b = do
    m ← app tls b.mqtt_write_flag b.machine
    some (record b { machine = m; scheduler_delay_en = false })

  -- One turn of the main loop, which ends when endFlag is set.
  unfoldable pub broker_step : Input → Broker F S → Option (Broker F S)
  broker_step i b = if b.end_flag == 0 then app_scheduler i b >>= send_data else some b
