-- ===== src/Broker/Process/Turns.antt =====
-- mqttSender.c: what a turn of the main loop does to the scheduler's state and to endFlag.
use zybo_z.Common.{
  ℕ, ◌≡◌, inl, inr, refl, ap, ◌∙◌, Bool, true, false, Option, none, some, List, ◌==◌, ◌>>=◌,
  Bool-cases, Option-cases, Succeeds,
}
use zybo_z.Mqtt.Tls.{Tls}
use zybo_z.Mqtt.App.{app}
use zybo_z.Sonar.Thread.{SonarData, read_data}
use zybo_z.Broker.{
  SchedulerState, unbind_xadc, start_xadc_kernel, reading_data, send_to_server, prepare_read,
  finish_send, Input, Broker, load_sample, sample_read, is_idle, is_sending, scheduler_case,
  app_scheduler, send_data, broker_step,
}

-- P holds of the result, if there is one.
abbrev pub Weakly : {A : Type 0} → (A → Type 0) → Option A → Type 0
Weakly P none = ◌≡◌ {A = ℕ} 0 0
Weakly P (some a) = P a

pub Weakly-bind :
    {A B : Type 0} (P : A → Type 0) (Q : B → Type 0) (o : Option A) (f : A → Option B)
    → Weakly P o
    → ((a : A) → P a → Weakly Q (f a))
    → Weakly Q (o >>= f)
Weakly-bind P Q none f h k = refl
Weakly-bind P Q (some a) f h k = k a h

pub Succeeds-Weakly :
    {A : Type 0} (P Q : A → Type 0) (o : Option A)
    → Succeeds P o
    → Weakly Q o
    → Succeeds (λ a. P a × Q a) o
Succeeds-Weakly P Q none h k = h
Succeeds-Weakly P Q (some a) h k = (h, k)

-- The states after the first two.
abbrev pub is_working : SchedulerState → Bool
is_working unbind_xadc = false
is_working start_xadc_kernel = false
is_working _ = true

module _ {F S : Type 0} (actual : ℕ → F) (text : F → List ℕ) (tls : Tls S) where
  -- What a turn does to the scheduler's state and to endFlag.
  abbrev pub Next : SchedulerState → Input → ℕ → Broker F S → Type 0
  Next unbind_xadc i e b = (b.scheduler_state ≡ start_xadc_kernel) × (b.end_flag ≡ i.unbind)
  Next start_xadc_kernel i e b = (b.scheduler_state ≡ reading_data) × (b.end_flag ≡ i.modprobe)
  Next _ i e b = (is_working b.scheduler_state ≡ true) × (b.end_flag ≡ e)

  sample_read-Next :
      (b : Broker F S) (r : SonarData × Bool)
      → b.scheduler_state ≡ reading_data
      → (is_working (sample_read actual text tls b r).scheduler_state ≡ true)
        × ((sample_read actual text tls b r).end_flag ≡ b.end_flag)
  sample_read-Next b (new, true) h = (refl, refl)
  sample_read-Next b (new, false) h = (ap is_working h, refl)

  scheduler_case-Next :
      (s : SchedulerState) (i : Input) (b : Broker F S)
      → b.scheduler_state ≡ s
      → Weakly (Next s i b.end_flag) (scheduler_case actual text tls s i b)
  scheduler_case-Next unbind_xadc i b h = (refl, refl)
  scheduler_case-Next start_xadc_kernel i b h = (refl, refl)
  scheduler_case-Next reading_data i b h = sample_read-Next b (read_data i.device b.sonar_data) h
  scheduler_case-Next send_to_server i b h =
      elim (Bool-cases (is_idle b.machine.handle.data_state)) [
        | inr t ↦ rw t (ap is_working h, refl)
        | inl t ↦ elim (Option-cases (load_sample actual text tls b)) [
          | inl z ↦ rw (t, z) refl
          | inr (m, z) ↦ rw (t, z) (refl, refl)
        ]
      ]
  scheduler_case-Next prepare_read i b h =
      elim (Bool-cases (is_sending b.machine.handle.data_state)) [
        | inr t ↦ rw t (ap is_working h, refl)
        | inl t ↦ rw t (refl, refl)
      ]
  scheduler_case-Next finish_send i b h = elim (Bool-cases (is_idle b.machine.handle.data_state)) [
    | inr t ↦ rw t (ap is_working h, refl)
    | inl t ↦ rw t (refl, refl)
  ]

  Next-kept :
      (s : SchedulerState) (i : Input) (e : ℕ) (b b' : Broker F S)
      → b'.scheduler_state ≡ b.scheduler_state
      → b'.end_flag ≡ b.end_flag
      → Next s i e b
      → Next s i e b'
  Next-kept unbind_xadc i e b b' k l (x, y) = (k ∙ x, l ∙ y)
  Next-kept start_xadc_kernel i e b b' k l (x, y) = (k ∙ x, l ∙ y)
  Next-kept reading_data i e b b' k l (x, y) = (ap is_working k ∙ x, l ∙ y)
  Next-kept send_to_server i e b b' k l (x, y) = (ap is_working k ∙ x, l ∙ y)
  Next-kept prepare_read i e b b' k l (x, y) = (ap is_working k ∙ x, l ∙ y)
  Next-kept finish_send i e b b' k l (x, y) = (ap is_working k ∙ x, l ∙ y)

  send_data-Next :
      (s : SchedulerState) (i : Input) (e : ℕ) (b : Broker F S)
      → Next s i e b
      → Weakly (Next s i e) (send_data actual text tls b)
  unfolding send_data
  send_data-Next s i e b n = elim (Option-cases (app tls b.mqtt_write_flag b.machine)) [
    | inl z ↦ rw z refl
    | inr (m, z) ↦
        rw z (Next-kept s i e b (record b { machine = m; scheduler_delay_en = false }) refl refl n)
  ]

  pub broker_step-Next :
      (i : Input) (b : Broker F S)
      → (b.end_flag == 0) ≡ true
      → Weakly (Next b.scheduler_state i b.end_flag) (broker_step actual text tls i b)
  unfolding broker_step app_scheduler
  broker_step-Next i b t = rw t (
      Weakly-bind (Next b.scheduler_state i b.end_flag) _
        (scheduler_case actual text tls b.scheduler_state i b) (send_data actual text tls)
        (scheduler_case-Next b.scheduler_state i b refl)
        (send_data-Next b.scheduler_state i b.end_flag))
