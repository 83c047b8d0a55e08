-- ===== src/Broker/Phases.antt =====
-- mqttSender.c: how far the samples are, in each state of the scheduler, and what AppScheduler makes of it.
use zybo_z.Common.{
  ℕ, suc, ◌+◌, ◌≤◌, ◌≡◌, ◌⊎◌, inl, inr, refl, ap, arith, Bool, true, false, List, length, Succeeds,
  Succeeds-bind,
}
use zybo_z.Mqtt.Types.{MqttState, DataState}
use zybo_z.Mqtt.Payload.Text.{append_payload-reset}
use zybo_z.Mqtt.Tls.{Tls}
use zybo_z.Mqtt.Transfer.{Machine}
use zybo_z.Mqtt.App.Safety.{IsReady}
use zybo_z.Sonar.Thread.{SonarData, read_data}
use zybo_z.Broker.{
  SchedulerState, unbind_xadc, start_xadc_kernel, reading_data, send_to_server, prepare_read,
  finish_send, is_idle, is_sending, Input, Broker, load_sample, sample_read, scheduler_case,
}
use zybo_z.Broker.Publication.{is_publish}

abbrev pub one_if : Bool → ℕ
one_if true = 1
one_if false = 0

abbrev pub loads : SchedulerState → DataState → Bool
loads send_to_server d = is_idle d
loads _ d = false

one_load : (d : DataState) (t : Bool) → is_idle d ≡ t → one_if (loads send_to_server d) ≡ one_if t
one_load d t e = ap one_if e

-- With p samples published and l loaded: before the scheduler, and between it and MqttHandle_App.
abbrev pub Phase : SchedulerState → DataState → Bool → MqttState → ℕ → ℕ → Type 0
Phase prepare_read d flag s p l =
    (flag ≡ true)
    × (((is_sending d ≡ true) × (is_publish s ≡ false) × (l ≡ p))
        ⊎ ((is_sending d ≡ false) × (l ≡ suc p)))
Phase _ d flag s p l = (flag ≡ false) × (is_publish s ≡ false) × (l ≡ p)

abbrev pub MidPhase : SchedulerState → DataState → Bool → MqttState → ℕ → ℕ → Type 0
MidPhase prepare_read d flag s p l = (flag ≡ true) × (is_sending d ≡ false) × (l ≡ suc p)
MidPhase _ d flag s p l = (flag ≡ false) × (is_publish s ≡ false) × (l ≡ p)

module _ {F S : Type 0} (actual : ℕ → F) (text : F → List ℕ) (tls : Tls S) where
  abbrev pub PhaseOf : Broker F S → ℕ → ℕ → Type 0
  PhaseOf b p l =
      let h = b.machine.handle in Phase b.scheduler_state h.data_state b.mqtt_write_flag h.state p l

  abbrev pub MidPhaseOf : Broker F S → ℕ → ℕ → Type 0
  MidPhaseOf b p l =
      let h = b.machine.handle in
      MidPhase b.scheduler_state h.data_state b.mqtt_write_flag h.state p l

  -- Only the payload differs.
  abbrev pub SameStates : Machine S → Machine S → Type 0
  SameStates m m' =
      (m'.handle.state ≡ m.handle.state)
      × (m'.handle.next_state ≡ m.handle.next_state)
      × (m'.handle.data_state ≡ m.handle.data_state)

  abbrev pub Loaded : Machine S → Machine S → Type 0
  Loaded m m' = IsReady m'.handle × SameStates m m'

  load_sample-IsReady :
      (b : Broker F S)
      → ((x : F) → length (text x) ≤ 127)
      → IsReady b.machine.handle
      → Succeeds (Loaded b.machine) (load_sample actual text tls b)
  unfolding load_sample
  load_sample-IsReady b short v =
      let (q, e, f, z, n) =
        append_payload-reset (text b.distance_actl) b.machine.handle.payload v.payload_len
          (short b.distance_actl) in
      rw e (
        record {
          buffer_len = v.buffer_len;
          remain_le = v.remain_le;
          size_le = v.size_le;
          read_le = v.read_le;
          client_ok = v.client_ok;
          user_ok = v.user_ok;
          pass_ok = v.pass_ok;
          connect_fits = v.connect_fits;
          payload_len = n;
          payload_le = omega (arith, z, short b.distance_actl);
          topic_le = v.topic_le;
          id_small = v.id_small;
        },
        (refl, refl, refl),
      )

  -- What the scheduler makes of a broker in the state s.
  abbrev pub Scheduled : SchedulerState → Broker F S → ℕ → ℕ → Broker F S → Type 0
  Scheduled s b p l b' =
      (IsReady b'.machine.handle)
      × SameStates b.machine b'.machine
      × MidPhaseOf b' p (l + one_if (loads s b.machine.handle.data_state))

  sample_read-Scheduled :
      (b : Broker F S) (r : SonarData × Bool) (p l : ℕ)
      → b.scheduler_state ≡ reading_data
      → IsReady b.machine.handle
      → b.mqtt_write_flag ≡ false
      → is_publish b.machine.handle.state ≡ false
      → l ≡ p
      → Scheduled reading_data b p l (sample_read actual text tls b r)
  sample_read-Scheduled b (new, true) p l q v f g h =
      (v, (refl, refl, refl), (f, g, omega (arith, h)))
  sample_read-Scheduled b (new, false) p l q v f g h =
      rw q (v, (refl, refl, refl), (f, g, omega (arith, h)))

  pub scheduler_case-Scheduled :
      (s : SchedulerState) (i : Input) (b : Broker F S) (p l : ℕ)
      → b.scheduler_state ≡ s
      → ((x : F) → length (text x) ≤ 127)
      → IsReady b.machine.handle
      → (let h = b.machine.handle in Phase s h.data_state b.mqtt_write_flag h.state p l)
      → Succeeds (Scheduled s b p l) (scheduler_case actual text tls s i b)
  scheduler_case-Scheduled unbind_xadc i b p l q short v (f, g, h) =
      (v, (refl, refl, refl), (f, g, omega (arith, h)))
  scheduler_case-Scheduled start_xadc_kernel i b p l q short v (f, g, h) =
      (v, (refl, refl, refl), (f, g, omega (arith, h)))
  scheduler_case-Scheduled reading_data i b p l q short v (f, g, h) =
      sample_read-Scheduled b (read_data i.device b.sonar_data) p l q v f g h
  scheduler_case-Scheduled send_to_server i b p l q short v (f, g, h) =
      by_idle (is_idle b.machine.handle.data_state) refl
    where
      by_idle :
          (t : Bool)
          → is_idle b.machine.handle.data_state ≡ t
          → Succeeds
              (Scheduled send_to_server b p l)
              (scheduler_case actual text tls send_to_server i b)
      by_idle true e = rw e (
          Succeeds-bind (Loaded b.machine) _ (load_sample actual text tls b) _
            (load_sample-IsReady b short v)
            (λ m (r, (s1, s2, s3)). (
              r,
              (s1, s2, s3),
              (
                refl,
                ground (arith, s3, e),
                omega (arith, h, one_load b.machine.handle.data_state true e),
              ),
            )))
      by_idle false e = rw e (
        v,
        (refl, refl, refl),
        rw q (f, g, omega (arith, h, one_load b.machine.handle.data_state false e)),
      )
  scheduler_case-Scheduled prepare_read i b p l q short v (f, inl (g, g', h)) =
      rw g (v, (refl, refl, refl), (refl, g', omega (arith, h)))
  scheduler_case-Scheduled prepare_read i b p l q short v (f, inr (g, h)) =
      rw g (v, (refl, refl, refl), rw q (f, g, omega (arith, h)))
  scheduler_case-Scheduled finish_send i b p l q short v (f, g, h) =
      by_idle (is_idle b.machine.handle.data_state) refl
    where
      by_idle :
          (t : Bool)
          → is_idle b.machine.handle.data_state ≡ t
          → Succeeds (Scheduled finish_send b p l) (scheduler_case actual text tls finish_send i b)
      by_idle true e = rw e (v, (refl, refl, refl), (f, g, omega (arith, h)))
      by_idle false e = rw e (v, (refl, refl, refl), rw q (f, g, omega (arith, h)))
