-- ===== src/Mqtt/App/Delivery.antt =====
-- The bytes that reach the peer: the WRITE state of MqttHandle_App sends the packet in the buffer,
-- in however many pieces the TLS library takes it.
use zybo_z.Common.{
  ℕ, zero, suc, ◌+◌, ◌-◌, ◌≤◌, ◌<◌, ◌≡◌, refl, sym, ap, ◌∙◌, ◌⊎◌, inl, inr, Bool, true, Option,
  none, some, List, ◌++◌, length, leb-cases, Succeeds, Succeeds-and, arith, length-take,
  length-drop, drop, take, take-add, take-take,
}
use mathlib.Core.List.{append-nil, append_assoc}
use zybo_z.Common.Int.{pos, ℤ-cases}
use zybo_z.Mqtt.Types.{write, read, Handle}
use zybo_z.Mqtt.Memory.{slice-eq}
use zybo_z.Mqtt.Tls.{Tls, IsTls, IsEager}
use zybo_z.Mqtt.Transfer.{Machine, write_handler, buf_idx, write_progress, ssl_write_data}
use zybo_z.Mqtt.App.{after_write, dispatch, app}
use zybo_z.Mqtt.App.Safety.{IsReady, IsReadyMachine, dispatch-IsReady}
use zybo_z.Mqtt.Transfer.Writing.{
  write_progress-error, ssl_write_data-pos, ssl_write_data-zero, ssl_write_data-negsuc,
  write_progress-all, write_progress-part, error_of,
}

module _ {S : Type 0} (tls : Tls S) where
  -- The client is in the WRITE state over an open session, and of the packet in the buffer exactly
  -- what does not remain has been sent, after the bytes of `base`.
  module _ (sent : S → List ℕ) (base : List ℕ) where
    pub record InFlight (h : Handle) (s : S) : Type 0 where
      pub phase : h.state ≡ write
      pub left : 0 < h.info.data_remain
      pub sent_so_far : sent s ≡ base ++ take (h.info.data_size - h.info.data_remain) h.buffer

    -- The whole packet of `old` has been sent, and the client waits for the answer.
    pub record Delivered (old new : Handle) (s : S) : Type 0 where
      pub phase : new.state ≡ read
      pub sent_all : sent s ≡ base ++ take old.info.data_size old.buffer
      pub expects : new.info.data_remain ≡ old.info.data_read
      pub expects_size : new.info.data_size ≡ old.info.data_read

    -- The packet stays as it is while it is being sent.
    pub record SamePacket (old new : Handle) : Type 0 where
      pub buffer_kept : new.buffer ≡ old.buffer
      pub size_kept : new.info.data_size ≡ old.info.data_size
      pub read_kept : new.info.data_read ≡ old.info.data_read

    -- What a step of the WRITE state can lead to, where `falls` relates what remains before and after.
    abbrev pub AfterWrite : (ℕ → ℕ → Type 0) → Handle → Machine S → Type 0
    AfterWrite falls h m =
        (s : S) × (m.ssl_handle ≡ some s)
        × ((InFlight m.handle s
              × SamePacket h m.handle
              × falls m.handle.info.data_remain h.info.data_remain)
            ⊎ Delivered h m.handle s)

    module _ (law : IsTls tls sent) (h : Handle) (s : S) (v : IsReady h) (f : InFlight h s) where
      abbrev idx : ℕ
      idx = h.info.data_size - h.info.data_remain

      abbrev rest : List ℕ
      rest = take h.info.data_remain (drop idx h.buffer)

      idx_lem : buf_idx h.info ≡ idx
      idx_lem = omega (arith, v)

      length-rest : length rest ≡ h.info.data_remain
      length-rest =
          length-take h.info.data_remain (drop idx h.buffer)
            (omega (arith, v, length-drop idx h.buffer))

      -- The step, up to the answer of SSL_write.
      write_step : dispatch tls write true (record { handle = h; ssl_handle = some s }) ≡ (
          let sent_now = ssl_write_data tls (some s) rest in
          let progress = write_progress tls sent_now.1 h.info in
          some (
            after_write (
              record { handle = record h { info = progress.0 }; ssl_handle = sent_now.0 },
              progress.1,
            )))
      unfolding dispatch write_handler
      write_step = rw (idx_lem, slice-eq h.buffer idx h.info.data_remain (omega (arith, v))) refl

      abbrev Outcome : (ℕ → ℕ → Type 0) → Type 0
      Outcome falls =
          Succeeds (AfterWrite falls h)
            (dispatch tls write true (record { handle = h; ssl_handle = some s }))

      taken :
          (n : ℕ)
          → n ≤ h.info.data_remain
          → take idx h.buffer ++ take n rest ≡ take (idx + n) h.buffer
      taken n le =
          ap (λ t. take idx h.buffer ++ t) (take-take n h.info.data_remain (drop idx h.buffer) le)
          ∙ sym (take-add idx n h.buffer)

      sent_now :
          (n : ℕ)
          → (tls.write s rest).1 ≡ pos n
          → sent (tls.write s rest).0 ≡ base ++ take (idx + n) h.buffer
      sent_now n e =
          law.write_sent s rest n e
          ∙ ap (λ t. t ++ take n rest) f.sent_so_far
          ∙ append_assoc base (take idx h.buffer) (take n rest)
          ∙ ap (λ t. base ++ t) (taken n (omega (arith, law.write_le s rest n e, length-rest)))

      accepted : (n : ℕ) → (tls.write s rest).1 ≡ pos (suc n) → Outcome ◌<◌
      accepted n e =
          rw (write_step, ssl_write_data-pos tls s rest n e)
            (elim (leb-cases h.info.data_remain (suc n)) [
              | inl (_, le) ↦ rw (write_progress-all tls n h.info le) (
                  unfold after_write in
                  (
                    (tls.write s rest).0,
                    refl,
                    inr (record {
                      phase = refl;
                      sent_all =
                          sent_now (suc n) e
                          ∙ ap (λ (k : ℕ). base ++ take k h.buffer) (whole n e le);
                      expects = refl;
                      expects_size = refl;
                    }),
                  ))
              | inr (_, lt) ↦ rw (write_progress-part tls n h.info lt (omega (arith, v))) (
                  unfold after_write in
                  (
                    (tls.write s rest).0,
                    refl,
                    inl (
                      record {
                        phase = f.phase;
                        left = omega arith;
                        sent_so_far =
                            sent_now (suc n) e
                            ∙ ap (λ (k : ℕ). base ++ take k h.buffer) (part n lt);
                      },
                      record { buffer_kept = refl; size_kept = refl; read_kept = refl },
                      omega (arith, f),
                    ),
                  ))
            ])
        where
          whole :
              (n : ℕ)
              → (tls.write s rest).1 ≡ pos (suc n)
              → h.info.data_remain ≤ suc n
              → idx + suc n ≡ h.info.data_size
          whole n e le = omega (arith, v, law.write_le s rest (suc n) e, length-rest)

          part :
              (n : ℕ)
              → suc n < h.info.data_remain
              → idx + suc n ≡ h.info.data_size - (h.info.data_remain - suc n)
          part n lt = omega (arith, v)

      refused :
          sent (tls.write s rest).0 ≡ sent s
          → ssl_write_data tls (some s) rest ≡ (some (tls.write s rest).0, error_of tls s rest)
          → Outcome ◌≤◌
      refused e q =
          rw
            (
              write_step,
              q,
              write_progress-error tls (tls.get_error (tls.write s rest).0 (tls.write s rest).1)
                  h.info,
            )
            (unfold after_write in
              (
                (tls.write s rest).0,
                refl,
                inl (
                  record { phase = f.phase; left = f.left; sent_so_far = e ∙ f.sent_so_far },
                  record { buffer_kept = refl; size_kept = refl; read_kept = refl },
                  omega arith,
                ),
              ))

      -- One step, whatever SSL_write answers.
      write_advances : Outcome ◌≤◌
      write_advances = elim (ℤ-cases (tls.write s rest).1) [
        | inl (zero, e) ↦
            refused (law.write_sent s rest 0 e ∙ append-nil (sent s))
              (ssl_write_data-zero tls s rest e)
        | inl (suc n, e) ↦
            weaken (dispatch tls write true (record { handle = h; ssl_handle = some s }))
              (accepted n e)
        | inr (n, e) ↦ refused (law.write_failed s rest n e) (ssl_write_data-negsuc tls s rest n e)
      ]
        where
          weaken :
              (o : Option (Machine S))
              → Succeeds (AfterWrite ◌<◌ h) o
              → Succeeds (AfterWrite ◌≤◌ h) o
          weaken none w = w
          weaken (some m) (t, q, inl (g, p, lt)) = (t, q, inl (g, p, omega arith))
          weaken (some m) (t, q, inr d) = (t, q, inr d)

      app-write :
          (b : Bool)
          → app tls b (record { handle = h; ssl_handle = some s })
            ≡ dispatch tls write true (record { handle = h; ssl_handle = some s })
      unfolding app
      app-write b =
          ap (λ st. dispatch tls st b (record { handle = h; ssl_handle = some s })) f.phase
          ∙ unfold dispatch in refl

      -- The outcome of a step of the WRITE state is the outcome of MqttHandle_App, ready again.
      pub app_outcome :
          (falls : ℕ → ℕ → Type 0) (b : Bool)
          → Outcome falls
          → (m : Machine S) × (app tls b (record { handle = h; ssl_handle = some s }) ≡ some m)
            × AfterWrite falls h m
            × IsReady m.handle
      app_outcome falls b o = rw (app-write b) (
          Succeeds-and (AfterWrite falls h) IsReadyMachine
            (dispatch tls write true (record { handle = h; ssl_handle = some s })) o
            (dispatch-IsReady tls law write true (record { handle = h; ssl_handle = some s }) v))

      -- Where SSL_write always takes a byte or more, less remains.
      pub write_falls : IsEager tls → Outcome ◌<◌
      write_falls eager =
          let (n, e) = eager.takes s rest (omega (arith, f.left, length-rest)) in accepted n e

-- In the WRITE state, with the packet's front sent up to what remains, one step of MqttHandle_App
-- sends the next bytes of the packet and no others: either the client is still in WRITE, with the same
-- packet in the buffer and no more left than before, and exactly the rest is to be sent, or the whole
-- packet has been sent and the client is in READ, waiting for the answer. The client stays ready.
pub app-InFlight :
    {S : Type 0} (tls : Tls S) (sent : S → List ℕ) (base : List ℕ) (is_write : Bool) (h : Handle)
    (s : S)
    → IsTls tls sent
    → IsReady h
    → InFlight tls sent base h s
    → (m : Machine S) × (app tls is_write (record { handle = h; ssl_handle = some s }) ≡ some m)
      × AfterWrite tls sent base ◌≤◌ h m
      × IsReady m.handle
app-InFlight tls sent base is_write h s law v f =
    app_outcome tls sent base law h s v f ◌≤◌ is_write (write_advances tls sent base law h s v f)
