-- ===== src/Mqtt/App/Progress.antt =====
-- The WRITE state of MqttHandle_App ends: a TLS library that always takes a byte or more is given the
-- whole packet.
use zybo_z.Common.{
  ℕ, suc, ◌≤◌, ◌<◌, ◌≡◌, refl, ◌∙◌, inl, inr, Bool, Option, some, List, [], ◌∷◌, ◌>>=◌, length,
  take, arith,
}
use zybo_z.Mqtt.Types.{Handle}
use zybo_z.Mqtt.Tls.{Tls, IsTls, IsEager}
use zybo_z.Mqtt.Transfer.{Machine}
use zybo_z.Mqtt.App.{app}
use zybo_z.Mqtt.App.Safety.{IsReady}
use zybo_z.Mqtt.App.Delivery.{InFlight, Delivered, SamePacket, AfterWrite, app_outcome, write_falls}

-- Calls of MqttHandle_App, one for each flag, as the loop of the broker makes them.
unfoldable pub run : {S : Type 0} → Tls S → List Bool → Machine S → Option (Machine S)
run tls [] m = some m
run tls (b ∷ bs) m = app tls b m >>= run tls bs

module _ {S : Type 0} (tls : Tls S) (sent : S → List ℕ) (base : List ℕ) where
  Delivered-same :
      (h h' new : Handle) (s : S)
      → SamePacket tls sent base h h'
      → Delivered tls sent base h' new s
      → Delivered tls sent base h new s
  Delivered-same h h' new s k d = record {
    phase = d.phase;
    sent_all = d.sent_all ∙ rw (k.buffer_kept, k.size_kept) refl;
    expects = d.expects ∙ k.read_kept;
    expects_size = d.expects_size ∙ k.read_kept;
  }

  -- Some number of calls, at most one for each byte that remains, delivers the packet.
  abbrev pub Delivers : List Bool → Handle → S → Type 0
  Delivers flags h s =
      (k : ℕ) × (m : Machine S) × (t : S) × (k ≤ h.info.data_remain)
      × (run tls (take k flags) (record { handle = h; ssl_handle = some s }) ≡ some m)
      × (m.ssl_handle ≡ some t)
      × Delivered tls sent base h m.handle t

  -- After a first call that led to `m`.
  Delivers-next :
      (b : Bool) (flags : List Bool) (h : Handle) (s : S) (m : Machine S)
      → app tls b (record { handle = h; ssl_handle = some s }) ≡ some m
      → AfterWrite tls sent base ◌<◌ h m
      → ((t : S)
          → InFlight tls sent base m.handle t
          → m.handle.info.data_remain < h.info.data_remain
          → Delivers flags m.handle t)
      → 0 < h.info.data_remain
      → Delivers (b ∷ flags) h s
  unfolding run
  Delivers-next b flags h s m e (t, q, inr d) next left = (1, m, t, left, rw e, q, d)
  Delivers-next b flags h s m e (t, q, inl (f, kept, lt)) next left =
      let (k, m', t', le, r, q', d) = next t f lt in
      (
        suc k,
        m',
        t',
        omega arith,
        rw e (rw (← q) at r),
        q',
        Delivered-same h m.handle m'.handle t' kept d,
      )

  -- Over a TLS library that always takes a byte or more, a client in the WRITE state needs at most one
  -- call of MqttHandle_App for each byte that remains, whatever the flags of the calls, until the whole
  -- packet has been sent, in order and once, and the client is in READ, waiting for the answer.
  pub write-Delivers :
      (flags : List Bool) (h : Handle) (s : S)
      → IsTls tls sent
      → IsEager tls
      → IsReady h
      → InFlight tls sent base h s
      → h.info.data_remain ≤ length flags
      → Delivers flags h s
  write-Delivers [] h s law eager v f le = absurd (omega (arith, f.left))
  write-Delivers (b ∷ flags) h s law eager v f le =
      let (m, e, o, r) =
        app_outcome tls sent base law h s v f ◌<◌ b (write_falls tls sent base law h s v f eager) in
      Delivers-next b flags h s m e o
        (λ t g lt. write-Delivers flags m.handle t law eager r g (omega arith)) f.left
