-- ===== src/Broker/Samples.antt =====
-- mqttSender.c: the main loop, and the samples that it loads and publishes.
use zybo_z.Common.{
  ℕ, suc, ◌+◌, ◌≤◌, ◌≡◌, ◌≢◌, refl, ap, ◌∙◌, subst, arith, Bool, true, false, Option, some, List,
  [], ◌∷◌, ◌==◌, if◌then◌else◌, ◌>>=◌, length, Succeeds, Succeeds-some, Succeeds-bind,
}
use zybo_z.Mqtt.Types.{MqttState, connect, DataState, Handle}
use zybo_z.Mqtt.Tls.{Tls, IsTls}
use zybo_z.Mqtt.App.{app}
use zybo_z.Mqtt.App.Safety.{IsReady, app-IsReady}
use zybo_z.Broker.{
  SchedulerState, unbind_xadc, prepare_read, Input, Broker, app_scheduler, send_data, broker_step,
}
use zybo_z.Broker.Publication.{is_publish, Publication, dispatch-Publication}
use zybo_z.Broker.Phases.{
  one_if, loads, Phase, MidPhase, PhaseOf, MidPhaseOf, Scheduled, scheduler_case-Scheduled,
}

-- The published and the loaded samples so far.
pub record Tally : Type 0 where
  pub published : ℕ
  pub loaded : ℕ

module _ {F S : Type 0} (actual : ℕ → F) (text : F → List ℕ) (tls : Tls S) where
  -- The numbers after one more turn of the main loop.
  unfoldable pub tally : Broker F S → Tally → Tally
  tally b t =
      if b.end_flag == 0
      then record {
        published = t.published + one_if (is_publish b.machine.handle.state);
        loaded = t.loaded + one_if (loads b.scheduler_state b.machine.handle.data_state);
      }
      else t

  -- The main loop for a list of turns, with its tally: a turn publishes when MqttHandle_App meets PUBLISH,
  -- and loads a sample when SEND_TO_SERVER meets IDLE.
  unfoldable pub broker_run : List Input → Broker F S → Tally → Option (Broker F S × Tally)
  broker_run [] b t = some (b, t)
  broker_run (i ∷ is) b t = broker_step actual text tls i b >>= λ b'. broker_run is b' (tally b t)

  pub record IsBalanced (b : Broker F S) (t : Tally) : Type 0 where
    pub ready : IsReady b.machine.handle
    pub next : is_publish b.machine.handle.next_state ≡ false
    pub phase : PhaseOf actual text tls b t.published t.loaded

  -- MqttHandle_App between two turns of the scheduler
  Phase-after :
      (s : SchedulerState) (flag : Bool) (h h' : Handle) (p l : ℕ)
      → MidPhase s h.data_state flag h.state p l
      → Publication flag h h'
      → Phase s h'.data_state flag h'.state (p + one_if (is_publish h.state)) l
  Phase-after prepare_read flag h h' p l m k = ground arith
  Phase-after s flag h h' p l m k = ground arith

  send_data-IsBalanced :
      (sent : S → List ℕ) (b : Broker F S) (p l : ℕ)
      → IsTls tls sent
      → IsReady b.machine.handle
      → is_publish b.machine.handle.next_state ≡ false
      → MidPhaseOf actual text tls b p l
      → Succeeds
          (λ b'.
            IsBalanced b'
              (record { published = p + one_if (is_publish b.machine.handle.state); loaded = l }))
          (send_data actual text tls b)
  unfolding send_data app
  send_data-IsBalanced sent b p l law v n h =
      let (m, e, v') = app-IsReady tls sent b.mqtt_write_flag b.machine law v in
      let pub_lem =
        dispatch-Publication tls b.machine.handle.state b.mqtt_write_flag b.machine m refl n e in
      rw e (record {
        ready = v';
        next = pub_lem.0;
        phase =
            Phase-after b.scheduler_state b.mqtt_write_flag b.machine.handle m.handle p l h pub_lem;
      })

  pub broker_step-IsBalanced :
      (sent : S → List ℕ) (i : Input) (b : Broker F S) (t : Tally)
      → IsTls tls sent
      → ((x : F) → length (text x) ≤ 127)
      → IsBalanced b t
      → Succeeds (λ b'. IsBalanced b' (tally b t)) (broker_step actual text tls i b)
  unfolding broker_step app_scheduler tally
  broker_step-IsBalanced sent i b t law short v = by_end (b.end_flag == 0) refl
    where
      AfterApp : Broker F S → MqttState → Type 0
      AfterApp b' s =
          Succeeds
            (λ b''. IsBalanced b'' (record {
              published = t.published + one_if (is_publish s);
              loaded = t.loaded + one_if (loads b.scheduler_state b.machine.handle.data_state);
            }))
            (send_data actual text tls b')

      by_end :
          (f : Bool)
          → (b.end_flag == 0) ≡ f
          → Succeeds (λ b'. IsBalanced b' (tally b t)) (broker_step actual text tls i b)
      by_end false e = rw e v
      by_end true e = rw e (
          Succeeds-bind (Scheduled actual text tls b.scheduler_state b t.published t.loaded) _
            (app_scheduler actual text tls i b) (send_data actual text tls)
            (scheduler_case-Scheduled actual text tls b.scheduler_state i b t.published t.loaded
              refl short v.ready v.phase)
            (λ b' (r, (s1, s2, s3), m).
              subst (AfterApp b') s1
                (send_data-IsBalanced sent b' t.published _ law r (ap is_publish s2 ∙ v.next) m)))

  broker_run-IsBalanced :
      (sent : S → List ℕ) (is : List Input) (b : Broker F S) (t : Tally)
      → IsTls tls sent
      → ((x : F) → length (text x) ≤ 127)
      → IsBalanced b t
      → Succeeds (λ (b', t'). IsBalanced b' t') (broker_run is b t)
  unfolding broker_run
  broker_run-IsBalanced sent [] b t law short v = v
  broker_run-IsBalanced sent (i ∷ is) b t law short v =
      Succeeds-bind (λ b'. IsBalanced b' (tally b t)) _ (broker_step actual text tls i b)
        (λ b'. broker_run is b' (tally b t)) (broker_step-IsBalanced sent i b t law short v)
        (λ b' v'. broker_run-IsBalanced sent is b' (tally b t) law short v')

  -- The static variables as the program starts: no flag, the state UNBIND_XADC, and a ready client in
  -- CONNECT.
  pub record IsStart (b : Broker F S) : Type 0 where
    pub ready : IsReady b.machine.handle
    pub scheduler : b.scheduler_state ≡ unbind_xadc
    pub flag : b.mqtt_write_flag ≡ false
    pub state : b.machine.handle.state ≡ connect
    pub next : b.machine.handle.next_state ≡ connect

  pub start-IsBalanced :
      (b : Broker F S) → IsStart b → IsBalanced b (record { published = 0; loaded = 0 })
  start-IsBalanced b v = record {
    ready = v.ready;
    next = ap is_publish v.next;
    phase = rw v.scheduler (v.flag, ap is_publish v.state, refl);
  }

  Phase-bounds :
      (s : SchedulerState) (d : DataState) (flag : Bool) (m : MqttState) (p l : ℕ)
      → Phase s d flag m p l
      → (p ≤ l) × (l ≤ suc p) × (s ≢ prepare_read → l ≡ p)
  Phase-bounds s d flag m p l h = ground arith

  -- From the start, and whatever the device, the commands and the TLS library answer, any number of turns of
  -- the main loop access no array out of bounds and leave the client ready; as many PUBLISH packets have
  -- been built as samples were loaded into the payload, or one less while the scheduler is in
  -- PREPARE_READ. The texts have at most 127 characters.
  pub broker_run_lem :
      (sent : S → List ℕ) (is : List Input) (b : Broker F S)
      → IsTls tls sent
      → ((x : F) → length (text x) ≤ 127)
      → IsStart b
      → (b' : Broker F S) × (t : Tally) × (broker_run is b (record { published = 0; loaded = 0 })
          ≡ some (b', t))
        × IsReady b'.machine.handle
        × (t.published ≤ t.loaded)
        × (t.loaded ≤ suc t.published)
        × (b'.scheduler_state ≢ prepare_read → t.loaded ≡ t.published)
  broker_run_lem sent is b law short v =
      let ((b', t), e, w) =
        Succeeds-some (λ (b', t'). IsBalanced b' t') (broker_run is b _)
          (broker_run-IsBalanced sent is b _ law short (start-IsBalanced b v)) in
      let h = b'.machine.handle in
      let (x, y, z) =
        Phase-bounds b'.scheduler_state h.data_state b'.mqtt_write_flag h.state t.published t.loaded
          w.phase in
      (b', t, e, w.ready, x, y, z)
