-- ===== src/Mqtt/App/Receipt.antt =====
-- The bytes that come from the peer: the READ state of MqttHandle_App puts the answer at the front of the buffer,
-- in however many pieces the TLS library gives it.
use zybo_z.Common.{
  ℕ, zero, suc, ◌+◌, ◌-◌, ◌≤◌, ◌<◌, ◌≡◌, refl, sym, ap, ◌∙◌, ◌⊎◌, inl, inr, Bool, true, some, List,
  [], ◌∷◌, ◌++◌, length, leb-cases, Succeeds, Succeeds-and, arith, take,
}
use mathlib.Core.List.{append-nil, append_assoc}
use zybo_z.Common.Int.{pos, negsuc, ℤ-cases}
use zybo_z.Mqtt.Types.{read, Handle}
use zybo_z.Mqtt.Memory.{copy}
use zybo_z.Mqtt.Tls.{Tls, IsTls}
use zybo_z.Mqtt.Transfer.{Machine, read_handler, buf_idx, ssl_read_data}
use zybo_z.Mqtt.App.{after_read, dispatch, app}
use zybo_z.Mqtt.App.Safety.{IsReady, IsReadyMachine, dispatch-IsReady}
use zybo_z.Mqtt.Transfer.Reading.{
  copy_at, read_progress-error, ssl_read_data-pos, ssl_read_data-zero, ssl_read_data-negsuc,
  read_progress-all, read_progress-part, read_error_of,
}

-- `received` is what the session has given so far: SSL_read(3) gives the bytes that it reports and no others.
pub record IsSource {S : Type 0} (tls : Tls S) (received : S → List ℕ) : Type 0 where
  pub read_received :
      (s : S) (max n : ℕ)
      → (tls.read s max).1 ≡ pos n
      → received (tls.read s max).0 ≡ received s ++ (tls.read s max).2
  pub read_failed :
      (s : S) (max n : ℕ) → (tls.read s max).1 ≡ negsuc n → received (tls.read s max).0 ≡ received s

module _ {S : Type 0} (tls : Tls S) (received : S → List ℕ) (base : List ℕ) where
  -- The client is in the READ state over an open session, and the front of the buffer, up to what
  -- remains, is what has been received after the bytes of `base`.
  pub record InReceipt (h : Handle) (s : S) : Type 0 where
    pub phase : h.state ≡ read
    pub left : 0 < h.info.data_remain
    pub received_so_far : received s ≡ base ++ take (h.info.data_size - h.info.data_remain) h.buffer

  -- The whole answer stands at the front of the buffer, and the client goes on to its next state.
  pub record Received (old new : Handle) (s : S) : Type 0 where
    pub phase : new.state ≡ old.next_state
    pub received_all : received s ≡ base ++ take old.info.data_size new.buffer

  -- What a step of the READ state can lead to.
  abbrev pub AfterRead : Handle → Machine S → Type 0
  AfterRead h m =
      (s : S) × (m.ssl_handle ≡ some s)
      × ((InReceipt m.handle s
            × (m.handle.info.data_size ≡ h.info.data_size)
            × (m.handle.next_state ≡ h.next_state)
            × (m.handle.info.data_remain ≤ h.info.data_remain))
          ⊎ Received h m.handle s)

  module _ (sent : S → List ℕ) (law : IsTls tls sent) (source : IsSource tls received) (h : Handle)
      (s : S) (v : IsReady h) (f : InReceipt h s) where
    abbrev max : ℕ
    max = h.info.data_remain

    abbrev idx : ℕ
    idx = h.info.data_size - h.info.data_remain

    idx_lem : buf_idx h.info ≡ idx
    idx_lem = omega (arith, v)

    abbrev Outcome : Type 0
    Outcome =
        Succeeds (AfterRead h) (dispatch tls read true (record { handle = h; ssl_handle = some s }))

    accepted : (n : ℕ) → (tls.read s max).1 ≡ pos (suc n) → Outcome
    unfolding dispatch read_handler
    accepted n e =
        let bs = (tls.read s max).2 in
        let long : length bs ≡ suc n = law.read_length s max (suc n) e in
        let short = law.read_le s max (suc n) e in
        let (c, k, t) = copy_at bs h.buffer idx (omega (arith, v, long, short)) in
        let got : received (tls.read s max).0 ≡ base ++ take (idx + suc n) c.bytes =
          source.read_received s max (suc n) e
          ∙ ap (λ (x : List ℕ). x ++ bs) f.received_so_far
          ∙ append_assoc base (take idx h.buffer) bs
          ∙ ap (λ (x : List ℕ). base ++ x) (sym t)
          ∙ ap (λ (x : ℕ). base ++ take (idx + x) c.bytes) long in
        rw (ssl_read_data-pos tls s max n e, idx_lem, k)
          (elim (leb-cases h.info.data_remain (suc n)) [
            | inl (_, le) ↦ rw (read_progress-all tls n h.info le) (
                unfold after_read in
                (
                  (tls.read s max).0,
                  refl,
                  inr (record {
                    phase = refl;
                    received_all = got ∙ ap (λ (x : ℕ). base ++ take x c.bytes) (whole n le short);
                  }),
                ))
            | inr (_, lt) ↦ rw (read_progress-part tls n h.info lt (omega (arith, v))) (
                unfold after_read in
                (
                  (tls.read s max).0,
                  refl,
                  inl (
                    record {
                      phase = f.phase;
                      left = omega arith;
                      received_so_far = got ∙ ap (λ (x : ℕ). base ++ take x c.bytes) (part n lt);
                    },
                    refl,
                    refl,
                    omega arith,
                  ),
                ))
          ])
      where
        whole : (n : ℕ) → h.info.data_remain ≤ suc n → suc n ≤ max → idx + suc n ≡ h.info.data_size
        whole n le short = omega (arith, v)

        part :
            (n : ℕ)
            → suc n < h.info.data_remain
            → idx + suc n ≡ h.info.data_size - (h.info.data_remain - suc n)
        part n lt = omega (arith, v)

    refused :
        received (tls.read s max).0 ≡ received s
        → ssl_read_data tls (some s) max ≡ (some (tls.read s max).0, read_error_of tls s max, [])
        → Outcome
    unfolding dispatch read_handler copy
    refused e q =
        rw
          (
            q,
            read_progress-error tls (tls.get_error (tls.read s max).0 (tls.read s max).1) h.info
                law.want_read_pos law.want_write_pos,
          )
          (unfold after_read in
            (
              (tls.read s max).0,
              refl,
              inl (
                record { phase = f.phase; left = f.left; received_so_far = e ∙ f.received_so_far },
                refl,
                refl,
                omega arith,
              ),
            ))

    -- One step, whatever SSL_read answers.
    read_advances : Outcome
    read_advances = elim (ℤ-cases (tls.read s max).1) [
      | inl (zero, e) ↦
          refused
            (source.read_received s max 0 e
              ∙ ap (λ (x : List ℕ). received s ++ x)
                  (empty (tls.read s max).2 (law.read_length s max 0 e))
              ∙ append-nil (received s))
            (ssl_read_data-zero tls s max e)
      | inl (suc n, e) ↦ accepted n e
      | inr (n, e) ↦ refused (source.read_failed s max n e) (ssl_read_data-negsuc tls s max n e)
    ]
      where
        empty : (xs : List ℕ) → length xs ≡ 0 → xs ≡ []
        empty [] z = refl
        empty (x ∷ xs) z = absurd (omega (arith, z))

    app-read :
        (b : Bool)
        → app tls b (record { handle = h; ssl_handle = some s })
          ≡ dispatch tls read true (record { handle = h; ssl_handle = some s })
    unfolding app
    app-read b =
        ap (λ st. dispatch tls st b (record { handle = h; ssl_handle = some s })) f.phase
        ∙ unfold dispatch in refl

-- In the READ state, with the front of the answer received up to what remains, one step of MqttHandle_App
-- puts the next bytes that the session gives behind those in the buffer and no others: either the client is
-- still in READ, waits for as much of the answer or less and goes on to the same state, or the whole answer
-- stands at the front of the buffer and the client is in its next state. The client stays ready.
pub app-InReceipt :
    {S : Type 0} (tls : Tls S) (sent received : S → List ℕ) (base : List ℕ) (is_write : Bool)
    (h : Handle) (s : S)
    → IsTls tls sent
    → IsSource tls received
    → IsReady h
    → InReceipt tls received base h s
    → (m : Machine S) × (app tls is_write (record { handle = h; ssl_handle = some s }) ≡ some m)
      × AfterRead tls received base h m
      × IsReady m.handle
app-InReceipt tls sent received base is_write h s law source v f =
    rw (app-read tls received base sent law source h s v f is_write) (
      Succeeds-and (AfterRead tls received base h) IsReadyMachine
        (dispatch tls read true (record { handle = h; ssl_handle = some s }))
        (read_advances tls received base sent law source h s v f)
        (dispatch-IsReady tls law read true (record { handle = h; ssl_handle = some s }) v))
