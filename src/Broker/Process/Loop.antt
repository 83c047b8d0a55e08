-- ===== src/Broker/Process/Loop.antt =====
-- mqttSender.c: the drivers' calls that the main loop makes, and their order.
use zybo_z.Common.{
  ℕ, ◌≤◌, ◌≡◌, inl, inr, refl, sym, ap, ◌∙◌, subst, arith, true, false, Option, some, List, [], ◌∷◌,
  ◌==◌, ◌>>=◌, length, Bool-cases, Succeeds, Succeeds-some, Succeeds-bind,
}
use zybo_z.Mqtt.Tls.{Tls, IsTls}
use zybo_z.Mqtt.App.Safety.{IsReady}
use zybo_z.Sonar.Thread.{SonarData}
use zybo_z.Broker.{
  SchedulerState, unbind_xadc, start_xadc_kernel, reading_data, send_to_server, prepare_read,
  finish_send, Input, Broker, broker_step,
}
use zybo_z.Broker.Samples.{
  Tally, tally, IsBalanced, IsStart, broker_step-IsBalanced, start-IsBalanced,
}
use zybo_z.Broker.Drivers.{Os, Drivers, xadc_unbind_driver, adc_sonar_handle_init}
use zybo_z.Broker.Process.{Process, drivers_of, driver_case, process_step, process_run}
use zybo_z.Broker.Process.Turns.{
  Weakly, Weakly-bind, Succeeds-Weakly, is_working, Next, broker_step-Next,
}

module _ {F S W : Type 0} (os : Os W) (actual : ℕ → F) (text : F → List ℕ) (tls : Tls S) where
  -- Both drivers have been called, the second because the first returned 0.
  abbrev pub BothCalled : Drivers W → Drivers W → ℕ → Type 0
  BothCalled d d' e =
      ((xadc_unbind_driver os d).1 ≡ 0)
      × (d' ≡ (adc_sonar_handle_init os (xadc_unbind_driver os d).0).0)
      × (e ≡ (adc_sonar_handle_init os (xadc_unbind_driver os d).0).1)

  -- The drivers after the loop's calls so far, from d on, and endFlag, by the scheduler's state: no call yet, or
  -- XadcUnbindDriver, or XadcUnbindDriver with the result 0 and then AdcSonarHandle_Init.
  abbrev pub Called : Drivers W → SchedulerState → Drivers W → ℕ → Type 0
  Called d unbind_xadc d' e = (d' ≡ d) × (e ≡ 0)
  Called d start_xadc_kernel d' e =
      (d' ≡ (xadc_unbind_driver os d).0) × (e ≡ (xadc_unbind_driver os d).1)
  Called d _ d' e = BothCalled d d' e

  abbrev pub CalledBy : Drivers W → Process F S W → Type 0
  CalledBy d p = Called d p.broker.scheduler_state (drivers_of p) p.broker.end_flag

  Called-working :
      (d d' : Drivers W) (s : SchedulerState) (e : ℕ)
      → is_working s ≡ true
      → BothCalled d d' e
      → Called d s d' e
  Called-working d d' unbind_xadc e k c = absurd (ground (arith, k))
  Called-working d d' start_xadc_kernel e k c = absurd (ground (arith, k))
  Called-working d d' reading_data e k c = c
  Called-working d d' send_to_server e k c = c
  Called-working d d' prepare_read e k c = c
  Called-working d d' finish_send e k c = c

  step_at :
      (s : SchedulerState) (i : Input) (b : Broker F S)
      → b.scheduler_state ≡ s
      → (b.end_flag == 0) ≡ true
      → Weakly (Next actual text tls s i b.end_flag) (broker_step actual text tls i b)
  step_at s i b h t =
      subst
        (λ (s : SchedulerState).
          Weakly (Next actual text tls s i b.end_flag) (broker_step actual text tls i b))
        h (broker_step-Next actual text tls i b t)

  -- A turn in a state after the first two calls no driver.
  work :
      (device : Option SonarData) (d : Drivers W) (p : Process F S W)
      → Weakly
          (λ b. (is_working b.scheduler_state ≡ true) × (b.end_flag ≡ p.broker.end_flag))
          (broker_step actual text tls
            (record { unbind = 0; modprobe = 0; device = device })
            p.broker)
      → BothCalled d (drivers_of p) p.broker.end_flag
      → Weakly (CalledBy d) (
          broker_step actual text tls
            (record { unbind = 0; modprobe = 0; device = device })
            p.broker
          >>= λ b. some (record p { broker = b }))
  work device d p n (c0, c1, c2) =
      Weakly-bind _ _
        (broker_step actual text tls (record { unbind = 0; modprobe = 0; device = device })
          p.broker)
        _ n
        (λ b (x, y).
          Called-working d (drivers_of p) b.scheduler_state b.end_flag x (c0, c1, y ∙ c2))

  zero_flag : (n : ℕ) → (n == 0) ≡ true → n ≡ 0
  zero_flag n h = ground arith

  advance :
      (s : SchedulerState) (device : Option SonarData) (d : Drivers W) (p : Process F S W)
      → p.broker.scheduler_state ≡ s
      → (p.broker.end_flag == 0) ≡ true
      → Called d s (drivers_of p) p.broker.end_flag
      → Weakly (CalledBy d) (
          let (p', i) = driver_case os actual text tls s device p in
          broker_step actual text tls i p.broker >>= λ b. some (record p' { broker = b }))
  advance unbind_xadc device d p h t (c, e) =
      let now = drivers_of p in
      let i : Input = record {
        unbind = (xadc_unbind_driver os now).1;
        modprobe = 0;
        device = device;
      } in
      Weakly-bind (Next actual text tls unbind_xadc i p.broker.end_flag) _
        (broker_step actual text tls i p.broker) _ (step_at unbind_xadc i p.broker h t)
        (λ b (x, y).
          subst (λ (s : SchedulerState). Called d s (xadc_unbind_driver os now).0 b.end_flag)
            (sym x)
            (
              ap (λ (z : Drivers W). (xadc_unbind_driver os z).0) c,
              y ∙ ap (λ (z : Drivers W). (xadc_unbind_driver os z).1) c,
            ))
  advance start_xadc_kernel device d p h t (c, e) =
      let now = drivers_of p in
      let i : Input = record {
        unbind = 0;
        modprobe = (adc_sonar_handle_init os now).1;
        device = device;
      } in
      Weakly-bind (Next actual text tls start_xadc_kernel i p.broker.end_flag) _
        (broker_step actual text tls i p.broker) _ (step_at start_xadc_kernel i p.broker h t)
        (λ b (x, y).
          subst (λ (s : SchedulerState). Called d s (adc_sonar_handle_init os now).0 b.end_flag)
            (sym x)
            (
              sym e ∙ zero_flag p.broker.end_flag t,
              ap (λ (z : Drivers W). (adc_sonar_handle_init os z).0) c,
              y ∙ ap (λ (z : Drivers W). (adc_sonar_handle_init os z).1) c,
            ))
  advance reading_data device d p h t c = work device d p (step_at reading_data _ p.broker h t) c
  advance send_to_server device d p h t c =
      work device d p (step_at send_to_server _ p.broker h t) c
  advance prepare_read device d p h t c = work device d p (step_at prepare_read _ p.broker h t) c
  advance finish_send device d p h t c = work device d p (step_at finish_send _ p.broker h t) c

  process_step-Called :
      (device : Option SonarData) (d : Drivers W) (p : Process F S W)
      → CalledBy d p
      → Weakly (CalledBy d) (process_step os actual text tls device p)
  unfolding process_step
  process_step-Called device d p c = elim (Bool-cases (p.broker.end_flag == 0)) [
    | inr t ↦ rw t c
    | inl t ↦ rw t (advance p.broker.scheduler_state device d p refl t c)
  ]

  ended-tally :
      (b : Broker F S) (t : Tally) → (b.end_flag == 0) ≡ false → tally actual text tls b t ≡ t
  unfolding tally
  ended-tally b t z = rw z refl

  module _ (sent : S → List ℕ) (law : IsTls tls sent)
      (short : (x : F) → length (text x) ≤ 127) where
    process_step-IsBalanced :
        (device : Option SonarData) (p : Process F S W) (t : Tally)
        → IsBalanced actual text tls p.broker t
        → Succeeds
            (λ p'. IsBalanced actual text tls p'.broker (tally actual text tls p.broker t))
            (process_step os actual text tls device p)
    unfolding process_step
    process_step-IsBalanced device p t v = elim (Bool-cases (p.broker.end_flag == 0)) [
      | inr z ↦
          rw z (subst (IsBalanced actual text tls p.broker) (sym (ended-tally p.broker t z)) v)
      | inl z ↦
          let i = (driver_case os actual text tls p.broker.scheduler_state device p).1 in
          rw z (
            Succeeds-bind (λ b. IsBalanced actual text tls b (tally actual text tls p.broker t)) _
              (broker_step actual text tls i p.broker) _
              (broker_step-IsBalanced actual text tls sent i p.broker t law short v) (λ b w. w))
    ]

    process_run-Called :
        (devices : List (Option SonarData)) (d : Drivers W) (p : Process F S W) (t : Tally)
        → IsBalanced actual text tls p.broker t
        → CalledBy d p
        → Succeeds
            (λ p'. IsReady p'.broker.machine.handle × CalledBy d p')
            (process_run os actual text tls devices p)
    unfolding process_run
    process_run-Called [] d p t v c = (v.ready, c)
    process_run-Called (device ∷ devices) d p t v c =
        Succeeds-bind
          (λ p'.
            IsBalanced actual text tls p'.broker (tally actual text tls p.broker t) × CalledBy d p')
          _ (process_step os actual text tls device p) (process_run os actual text tls devices)
          (Succeeds-Weakly
            (λ p'. IsBalanced actual text tls p'.broker (tally actual text tls p.broker t))
            (CalledBy d) (process_step os actual text tls device p)
            (process_step-IsBalanced device p t v) (process_step-Called device d p c))
          (λ p' (v', c'). process_run-Called devices d p' (tally actual text tls p.broker t) v' c')

    -- The main loop from UNBIND_XADC on, with a client that starts, whatever the device gives and the system
    -- answers: no turn accesses an array out of bounds, and the client stays ready. The loop calls
    -- XadcUnbindDriver once, then AdcSonarHandle_Init once and only if the first returned 0, and no driver after
    -- these, however many turns there are; endFlag is the last one's result.
    pub process_run_lem :
        (devices : List (Option SonarData)) (p : Process F S W)
        → IsStart actual text tls p.broker
        → p.broker.end_flag ≡ 0
        → (p' : Process F S W) × (process_run os actual text tls devices p ≡ some p')
          × IsReady p'.broker.machine.handle
          × Called (drivers_of p) p'.broker.scheduler_state (drivers_of p') p'.broker.end_flag
    process_run_lem devices p v z =
        let (p', e, w) =
          Succeeds-some (λ p'. IsReady p'.broker.machine.handle × CalledBy (drivers_of p) p')
            (process_run os actual text tls devices p)
            (process_run-Called devices (drivers_of p) p (record { published = 0; loaded = 0 })
              (start-IsBalanced actual text tls p.broker v)
              (subst
                (λ (s : SchedulerState). Called (drivers_of p) s (drivers_of p) p.broker.end_flag)
                (sym v.scheduler) (refl, z))) in
        (p', e, w.0, w.1)
