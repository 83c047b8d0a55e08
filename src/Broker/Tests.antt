-- ===== src/Broker/Tests.antt =====
-- The broker's main loop on a client over a TLS library that takes three bytes at a time.
use zybo_z.Common.{ℕ, ◌≡◌, ◌≢◌, ◌≤◌, suc, refl, arith, false, Option, none, some, List, [], ◌∷◌}
use zybo_z.Mqtt.Types.{connect, init}
use zybo_z.Mqtt.App.Safety.{IsReady}
use zybo_z.Mqtt.Fixtures.{in_threes, in_threes-IsTls, writing, in_state-IsReady}
use zybo_z.Broker.{unbind_xadc, prepare_read, Input, Broker}
use zybo_z.Common.Int.{pos}
use zybo_z.Sonar.Thread.{SonarData}
use zybo_z.Broker.Drivers.{open_wronly, write, Os}
use zybo_z.Broker.Process.{Process, process_start, drivers_of, process_run}
use zybo_z.Broker.Process.Loop.{Called, process_run_lem}
use zybo_z.Broker.Samples.{Tally, broker_run, IsStart, broker_run_lem}

-- Numbers stand for the floats, and every text is "5".
abbrev five : ℕ → List ℕ
five x = b'5' ∷ []

abbrev scale : ℕ → ℕ
scale x = x

abbrev broker_start : Broker ℕ (List ℕ)
broker_start = record {
  scheduler_state = unbind_xadc;
  mqtt_write_flag = false;
  distance_actl = 0;
  sonar_data = record { distance = 0; version = 0 };
  end_flag = 0;
  scheduler_delay_en = false;
  machine = record {
    handle = record writing { state = connect; next_state = connect; data_state = init };
    ssl_handle = some [];
  };
}

broker_start-IsStart : IsStart scale five in_threes broker_start
broker_start-IsStart = record {
  ready = in_state-IsReady connect connect init;
  scheduler = refl;
  flag = refl;
  state = refl;
  next = refl;
}

abbrev new_reading : Input
new_reading = record {
  unbind = 0;
  modprobe = 0;
  device = some (record { distance = 100; version = 1 });
}

abbrev turns : List Input
turns = new_reading ∷ new_reading ∷ new_reading ∷ []

broker_run_example :
    (b' : Broker ℕ (List ℕ)) × (t : Tally) × (broker_run scale five in_threes turns broker_start
        (record { published = 0; loaded = 0 })
      ≡ some (b', t))
    × IsReady b'.machine.handle
    × (t.published ≤ t.loaded)
    × (t.loaded ≤ suc t.published)
    × (b'.scheduler_state ≢ prepare_read → t.loaded ≡ t.published)
broker_run_example =
    broker_run_lem scale five in_threes (λ s. s) turns broker_start in_threes-IsTls
      (λ x. omega arith) broker_start-IsStart

-- The driver of the XADC is bound, and every call succeeds.
abbrev linux : Os ℕ
linux (open_wronly f) n = (n, pos 3)
linux (write fd bytes) n = (n, pos 12)
linux _ n = (n, pos 0)

abbrev process : Process ℕ (List ℕ) ℕ
process = process_start broker_start 0

abbrev readings : List (Option SonarData)
readings = none ∷ none ∷ some (record { distance = 100; version = 1 }) ∷ none ∷ []

process_run_example :
    (p' : Process ℕ (List ℕ) ℕ) × (process_run linux scale five in_threes readings process
      ≡ some p')
    × IsReady p'.broker.machine.handle
    × Called linux scale five in_threes
        (drivers_of process)
        p'.broker.scheduler_state
        (drivers_of p')
        p'.broker.end_flag
process_run_example =
    process_run_lem linux scale five in_threes (λ s. s) in_threes-IsTls (λ x. omega arith) readings
      process broker_start-IsStart refl
