-- ===== src/Broker/Process.antt =====
-- UserSpace/mqttbroker/files/mqttSender.c: `main` up to its loop, and handle_sigint, over the connection and the
-- drivers, which share one world.
pub mod Lifecycle
pub mod Turns
pub mod Loop
mod Tests
use zybo_z.Common.{
  ℕ, Bool, true, false, Option, none, some, List, [], ◌∷◌, ◌==◌, if◌then◌else◌, ◌>>=◌,
}
use zybo_z.Common.Int.{ℤ, wrap}
use zybo_z.Mqtt.Types.{Handle}
use zybo_z.Mqtt.Payload.{reset_payload}
use zybo_z.Mqtt.Connection.Calls.{Net, Connection, connection_start}
use zybo_z.Mqtt.Connection.{mqtt_handle_init, deinit}
use zybo_z.Mqtt.Tls.{Tls}
use zybo_z.Sonar.Thread.{SonarData}
use zybo_z.Broker.{SchedulerState, unbind_xadc, start_xadc_kernel, Broker, Input, broker_step}
use zybo_z.Broker.Drivers.{
  system, Os, Drivers, os_call, xadc_unbind_driver, adc_sonar_handle_init, adc_sonar_handle_deinit,
}

abbrev pub ntpdate_command : List ℕ
ntpdate_command =
    b'n' ∷ b't' ∷ b'p' ∷ b'd' ∷ b'a' ∷ b't' ∷ b'e' ∷ b' ' ∷ b'-' ∷ b'u' ∷ b' ' ∷ b'p' ∷ b'o' ∷ b'o'
    ∷ b'l' ∷ b'.' ∷ b'n' ∷ b't' ∷ b'p' ∷ b'.' ∷ b'o' ∷ b'r' ∷ b'g' ∷ []

abbrev pub date_command : List ℕ
date_command = b'd' ∷ b'a' ∷ b't' ∷ b'e' ∷ []

-- `on_sigint` says whether handle_sigint is the handler of SIGINT.
pub record Process (F S W : Type 0) : Type 0 where
  pub on_sigint : Bool
  pub broker : Broker F S
  pub connection : Connection W
  pub drivers : Drivers W

-- The process before `main`, with these values in the variables of mqttSender.c and MqttHandle.c.
abbrev pub process_start : {F S W : Type 0} → Broker F S → W → Process F S W
process_start b w = record {
  on_sigint = false;
  broker = b;
  connection = connection_start w;
  drivers = record { adc_sonar_ko_string = []; os_calls = []; os_world = w };
}

-- The drivers, in the world of the connection.
abbrev pub drivers_of : {F S W : Type 0} → Process F S W → Drivers W
drivers_of p = record p.drivers { os_world = p.connection.world }

abbrev pub with_drivers : {F S W : Type 0} → Process F S W → Drivers W → Process F S W
with_drivers p d = record p { connection = record p.connection { world = d.os_world }; drivers = d }

-- `session` is the session that the TLS library has made, when ssl_handle is not NULL.
module _ {F S W : Type 0} (os : Os W) (net : Net W) (session : W → S) where
  -- endFlag gets the `int` as a uint8_t.
  abbrev pub enter : Process F S W → Handle × Connection W × ℤ → Process F S W
  enter p (h, c, status) = record p {
    broker = record p.broker {
      scheduler_state = unbind_xadc;
      end_flag = wrap status 256;
      machine = record {
        handle = h;
        ssl_handle = (if c.ssl_handle then some (session c.world) else none);
      };
    };
    connection = c;
  }

  -- `main` up to its loop, with the three names of the client
  unfoldable pub main_setup : ℕ → List ℕ → List ℕ → List ℕ → Process F S W → Option (Process F S W)
  unfolding os_call mqtt_handle_init
  main_setup fuel client_name user_name password p = do
    let p0 = record p { on_sigint = true }
    let p1 = with_drivers p0 (os_call os (system ntpdate_command) (drivers_of p0)).0
    let p2 = with_drivers p1 (os_call os (system date_command) (drivers_of p1)).0
    r ←
        mqtt_handle_init net fuel client_name user_name password p2.broker.machine.handle
          p2.connection
    some (enter p2 r)

  -- handle_sigint up to its exit(0)
  unfoldable pub handle_sigint : Process F S W → Process F S W
  unfolding reset_payload adc_sonar_handle_deinit deinit
  handle_sigint p =
      let h = p.broker.machine.handle in
      let (d, status) = adc_sonar_handle_deinit os (drivers_of p) in
      record p {
        broker = record p.broker {
          machine = record p.broker.machine {
            handle = record h { payload = reset_payload h.payload };
            ssl_handle = none;
          };
        };
        connection = deinit net (record p.connection { world = d.os_world });
        drivers = d;
      }

module _ {F S W : Type 0} (os : Os W) (actual : ℕ → F) (text : F → List ℕ) (tls : Tls S) where
  -- What the scheduler's case gets from the drivers, and what the sonar's device gives.
  abbrev pub driver_case : SchedulerState → Option SonarData → Process F S W → Process F S W × Input
  driver_case unbind_xadc device p =
      let (d, status) = xadc_unbind_driver os (drivers_of p) in
      (with_drivers p d, record { unbind = status; modprobe = 0; device = device })
  driver_case start_xadc_kernel device p =
      let (d, status) = adc_sonar_handle_init os (drivers_of p) in
      (with_drivers p d, record { unbind = 0; modprobe = status; device = device })
  driver_case _ device p = (p, record { unbind = 0; modprobe = 0; device = device })

  -- A turn of the main loop, with the calls of the drivers that it makes, and the loop.
  unfoldable pub process_step : Option SonarData → Process F S W → Option (Process F S W)
  process_step device p =
      let (p', i) = driver_case p.broker.scheduler_state device p in
      if p.broker.end_flag == 0
      then (broker_step actual text tls i p.broker >>= λ b. some (record p' { broker = b }))
      else some p

  unfoldable pub process_run : List (Option SonarData) → Process F S W → Option (Process F S W)
  unfolding process_step
  process_run [] p = some p
  process_run (device ∷ devices) p = process_step device p >>= process_run devices
