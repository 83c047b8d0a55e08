-- ===== src/Broker/Process/Tests.antt =====
-- The broker's set-up, its end, and its drivers, over a world that answers.
use zybo_z.Common.{true, ℕ, ◌≡◌, ◌⊎◌, refl, arith, false, none, some, List, [], ◌∷◌}
use zybo_z.Common.Int.{ℤ, pos, negsuc}
use zybo_z.Mqtt.Types.{connect, init}
use zybo_z.Mqtt.Tls.{Tls}
use zybo_z.Mqtt.Fixtures.{writing}
use zybo_z.Mqtt.Connection.Fixtures.{online, online-IsNet, online-IsReachable}
use zybo_z.Mqtt.Connection.Handshake.{Verified}
use zybo_z.Broker.{unbind_xadc, Broker, Input, broker_step}
use zybo_z.Broker.Drivers.{
  open_wronly, write, system, Os, Drivers, xadc_unbind_driver, xadc_bind_driver,
}
use zybo_z.Broker.Drivers.Descriptors.{
  open_fds, Unbinds, Binds, xadc_unbind_driver_lem, xadc_bind_driver_lem,
}
use zybo_z.Broker.Process.{
  Process, process_start, ntpdate_command, date_command, main_setup, handle_sigint,
}
use zybo_z.Broker.Process.Lifecycle.{Stopped, main_setup_lem}

abbrev linux : Os ℕ
linux (open_wronly f) n = (n, pos 3)
linux (write fd bytes) n = (n, negsuc 0)
linux _ n = (n, pos 0)

abbrev broker : Broker ℕ ℕ
broker = record {
  scheduler_state = unbind_xadc;
  mqtt_write_flag = false;
  distance_actl = 0;
  sonar_data = record { distance = 0; version = 0 };
  end_flag = 0;
  scheduler_delay_en = false;
  machine = record { handle = writing; ssl_handle = none };
}

abbrev session : ℕ → ℕ
session w = w

abbrev begin : Process ℕ ℕ ℕ
begin = process_start broker 0

main_setup_example :
    (p : Process ℕ ℕ ℕ) × (main_setup linux online session 3 [] [] [] begin ≡ some p)
    × (p.on_sigint ≡ true)
    × ((r s : ℤ) × (p.drivers.os_calls
          ≡ (system ntpdate_command, r) ∷ (system date_command, s) ∷ []))
    × (p.broker.scheduler_state ≡ unbind_xadc)
    × (p.broker.machine.handle.state ≡ connect)
    × (p.broker.machine.handle.data_state ≡ init)
    × (((p.broker.end_flag ≡ 0)
          × Verified p.connection
          × (p.broker.machine.ssl_handle ≡ some (session p.connection.world)))
        ⊎ ((p.broker.end_flag ≡ 255)
            × ((actual : ℕ → ℕ) (text : ℕ → List ℕ) (tls : Tls ℕ) (i : Input)
                → broker_step actual text tls i p.broker ≡ some p.broker)))
    × Stopped linux online session p (handle_sigint linux online session p)
main_setup_example =
    main_setup_lem linux online session (λ n. n) 2 online-IsNet 3 [] [] [] broker 0 (omega arith)
      (λ w. refl) online-IsReachable

abbrev drivers : Drivers ℕ
drivers = record { adc_sonar_ko_string = []; os_calls = []; os_world = 0 }

xadc_unbind_driver_example :
    (open_fds (xadc_unbind_driver linux drivers).0 ≡ open_fds drivers)
    × Unbinds linux drivers (xadc_unbind_driver linux drivers)
xadc_unbind_driver_example = xadc_unbind_driver_lem linux drivers

xadc_bind_driver_example : Binds linux drivers (xadc_bind_driver linux drivers)
xadc_bind_driver_example = xadc_bind_driver_lem linux drivers
