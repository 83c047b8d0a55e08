-- ===== src/Broker/Process/Lifecycle.antt =====
-- mqttSender.c: when the broker's loop runs, and what SIGINT leaves.
use zybo_z.Common.{
  true, ℕ, ◌<◌, ◌≡◌, ◌⊎◌, inl, inr, refl, ap, false, some, List, take, [], ◌∷◌, ◌++◌, Bool-cases,
}
use zybo_z.Common.Int.{ℤ, is_zero}
use zybo_z.Mqtt.Types.{connect, init}
use zybo_z.Mqtt.Payload.{reset_payload}
use zybo_z.Mqtt.Tls.{Tls}
use zybo_z.Mqtt.Connection.Calls.{bio_new_mem_buf, Net}
use zybo_z.Mqtt.Connection.Certificates.{IsNet}
use zybo_z.Mqtt.Connection.Setup.{Owns}
use zybo_z.Mqtt.Connection.Handshake.{IsReachable, Verified}
use zybo_z.Mqtt.Connection.Lifecycle.{Released, deinit_lem, mqtt_handle_init_lem}
use zybo_z.Broker.{unbind_xadc, Broker, Input, broker_step}
use zybo_z.Broker.Drivers.{
  system, Os, Drivers, os_call, run_command, adc_sonar_handle_deinit, modprobe_remove, adc_sonar_ko,
}
use zybo_z.Broker.Process.{
  Process, process_start, enter, with_drivers, drivers_of, ntpdate_command, date_command,
  main_setup, handle_sigint,
}

-- What a command leaves, whatever it returns.
command-drivers :
    {W : Type 0} (os : Os W) (prefix : List ℕ) (d : Drivers W)
    → (run_command os prefix d).0
      ≡ (os_call os
          (system (take 127 (prefix ++ adc_sonar_ko)))
          (record d { adc_sonar_ko_string = take 127 (prefix ++ adc_sonar_ko) })).0
unfolding run_command
command-drivers os prefix d =
    let command = take 127 (prefix ++ adc_sonar_ko) in
    let status = (os_call os (system command) (record d { adc_sonar_ko_string = command })).1 in
    elim (Bool-cases (is_zero status)) [ inl t ↦ rw t refl | inr t ↦ rw t refl ]

module _ {F S W : Type 0} (os : Os W) (net : Net W) (session : W → S) where
  -- How handle_sigint leaves the process.
  abbrev pub Stopped : Process F S W → Process F S W → Type 0
  Stopped p p' =
      Released p'.connection
      × (p'.broker.machine.handle.payload.size ≡ 0)
      × ((r : ℤ) × (p'.drivers.os_calls
            ≡ p.drivers.os_calls ++ (system (modprobe_remove ++ adc_sonar_ko), r) ∷ []))

  -- When the connection's variables say what the program holds, handle_sigint empties the payload, runs the
  -- command that removes the sonar module, once, and releases the connection.
  pub handle_sigint_lem :
      (p : Process F S W) → Owns p.connection → Stopped p (handle_sigint os net session p)
  unfolding handle_sigint reset_payload adc_sonar_handle_deinit run_command os_call
  handle_sigint_lem p o =
      let d = drivers_of p in
      let c = record p.connection { world = (adc_sonar_handle_deinit os d).0.os_world } in
      (
        (deinit_lem net c o).0,
        refl,
        (
          (os (system (modprobe_remove ++ adc_sonar_ko)) p.connection.world).1,
          ap (λ (x : Drivers W). x.os_calls) (command-drivers os modprobe_remove d),
        ),
      )

  module _ (remaining : W → ℕ) (size : ℕ) (law : IsNet net remaining size) where
    -- Given that BIO_new_mem_buf does not fail and that the host is reached, `main` comes to its loop with
    -- handle_sigint as the handler of SIGINT, after it has run the commands that set and show the time. Either endFlag is 0: the peer is verified, the client
    -- has a session, and the client and the scheduler are in their first states; or endFlag is 255, and the loop
    -- makes no turn. In both cases a SIGINT then releases all that the program holds.
    pub main_setup_lem :
        (fuel : ℕ) (client_name user_name password : List ℕ) (b : Broker F S) (w : W)
        → size < fuel
        → ((w : W) → is_zero (net bio_new_mem_buf w).1 ≡ false)
        → IsReachable net
        → (p : Process F S W) × (main_setup os net session fuel client_name user_name password
              (process_start b w)
            ≡ some p)
          × (p.on_sigint ≡ true)
          × ((r s : ℤ) × (p.drivers.os_calls
                ≡ (system ntpdate_command, r) ∷ (system date_command, s) ∷ []))
          × (p.broker.scheduler_state ≡ unbind_xadc)
          × (p.broker.machine.handle.state ≡ connect)
          × (p.broker.machine.handle.data_state ≡ init)
          × (((p.broker.end_flag ≡ 0)
                × Verified p.connection
                × (p.broker.machine.ssl_handle ≡ some (session p.connection.world)))
              ⊎ ((p.broker.end_flag ≡ 255)
                  × ((actual : ℕ → F) (text : F → List ℕ) (tls : Tls S) (i : Input)
                      → broker_step actual text tls i p.broker ≡ some p.broker)))
          × Stopped p (handle_sigint os net session p)
    unfolding main_setup os_call broker_step
    main_setup_lem fuel client_name user_name password b w f o r =
        let w1 = (os (system ntpdate_command) w).0 in
        let w2 = (os (system date_command) w1).0 in
        let (h, c, s, e, x1, x2, x3, own, ends, rel) =
          mqtt_handle_init_lem net remaining size law fuel client_name user_name password
            b.machine.handle w2 f o r in
        let before = record (process_start {S = S} b w) { on_sigint = true } in
        let p1 = with_drivers before (os_call os (system ntpdate_command) (drivers_of before)).0 in
        let p2 = with_drivers p1 (os_call os (system date_command) (drivers_of p1)).0 in
        let p = enter os net session p2 (h, c, s) in
        (
          p,
          rw e refl,
          refl,
          ((os (system ntpdate_command) w).1, (os (system date_command) w1).1, refl),
          refl,
          x1,
          x3,
          elim ends [
            | inl (z, ctx, handle, sock, v) ↦ inl (rw z refl, v, rw handle refl)
            | inr z ↦ inr (rw z refl, λ actual text tls i. rw z refl)
          ],
          handle_sigint_lem p own,
        )
