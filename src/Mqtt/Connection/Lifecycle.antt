-- ===== src/Mqtt/Connection/Lifecycle.antt =====
-- MqttHandle.c: MqttHandle_Init and MqttHandle_DeInit, by what the program holds after them.
use zybo_z.Common.{
  ℕ, ◌<◌, ◌≡◌, ◌⊎◌, inl, inr, refl, ap, ◌∙◌, true, false, some, List, Bool-cases, eq_self,
}
use zybo_z.Common.Int.{ℤ, pos, negsuc, is_zero, ltb_ℤ, ℤ-cases, not_negative, is_negative}
use zybo_z.Mqtt.Types.{Handle, connect, init}
use zybo_z.Mqtt.Payload.{stack_init}
use zybo_z.Mqtt.Connection.Calls.{
  bio_new_mem_buf, close, ctx_free, ssl_shutdown, ssl_free, Net, Connection, connection_start, run,
}
use zybo_z.Mqtt.Connection.{
  tcp_connect, ssl_handshake, or_int, connect_all, mqtt_handle_init, end_session, close_sock,
  free_ctx, deinit,
}
use zybo_z.Mqtt.Connection.Protocol.{opened, nothing, held, held-run}
use zybo_z.Mqtt.Connection.Certificates.{IsNet}
use zybo_z.Mqtt.Connection.Setup.{holdings, Owns, connection_start-Owns, ssl_init_lem}
use zybo_z.Mqtt.Connection.Handshake.{IsReachable, Verified, tcp_connect_lem, ssl_handshake_lem}

-- The program holds nothing and its variables say so.
abbrev pub Released : {W : Type 0} → Connection W → Type 0
Released c =
    (held c ≡ some nothing)
    × (c.ssl_ctx ≡ false)
    × (c.ssl_handle ≡ false)
    × ((n : ℕ) × (c.adafruit_io_sock ≡ negsuc n))

module _ {W : Type 0} (net : Net W) where
  end_session-Owns :
      (c : Connection W)
      → Owns c
      → Owns (end_session net c) × ((end_session net c).ssl_handle ≡ false)
  unfolding end_session
  end_session-Owns c h = elim (Bool-cases c.ssl_handle) [
    | inr z ↦ rw z (h ∙ rw z refl, refl)
    | inl z ↦
        let c1 = run net ssl_shutdown c in
        let before : held c ≡ some (holdings c.ssl_ctx true c.adafruit_io_sock) = h ∙ rw z refl in
        let h1 = held-run net ssl_shutdown c (λ r. refl) before in
        rw z (held-run net ssl_free c1 (λ r. refl) h1, refl)
  ]

  close_sock-Owns :
      (c : Connection W)
      → Owns c
      → Owns (close_sock net c)
        × ((close_sock net c).ssl_handle ≡ c.ssl_handle)
        × ((n : ℕ) × ((close_sock net c).adafruit_io_sock ≡ negsuc n))
  unfolding close_sock run
  close_sock-Owns c h = elim (ℤ-cases c.adafruit_io_sock) [
    | inl (n, e) ↦
        let fd = c.adafruit_io_sock in
        let open_fd : ltb_ℤ fd (pos 0) ≡ false = rw e (not_negative n) in
        let h1 = held-run net (close fd) c (λ r. rw (e, eq_self n) refl) h in
        rw open_fd (h1, refl, (0, refl))
    | inr (n, e) ↦ rw (e, is_negative n) (h ∙ rw e refl, refl, (n, refl))
  ]

  free_ctx-Owns :
      (c : Connection W)
      → Owns c
      → c.ssl_handle ≡ false
      → (n : ℕ) → c.adafruit_io_sock ≡ negsuc n
      → Released (free_ctx net c)
  unfolding free_ctx run
  free_ctx-Owns c h z n e = elim (Bool-cases c.ssl_ctx) [
    | inr x ↦ rw x (h ∙ rw (x, z, e) refl, refl, z, (n, e))
    | inl x ↦
        let before : held c ≡ some (holdings true false (negsuc n)) = h ∙ rw (x, z, e) refl in
        rw x (held-run net ctx_free c (λ r. refl) before, refl, z, (n, e))
  ]

  Released-deinit : (c : Connection W) → Released c → deinit net c ≡ c
  unfolding deinit end_session close_sock free_ctx
  Released-deinit c (h, x, z, (n, e)) = rw (z, e, is_negative n, x) refl

  -- When the variables say what the program holds, MqttHandle_DeInit makes only calls that are allowed: it
  -- shuts the session down and frees it, closes the socket and frees the context, each if it is there, and then
  -- nothing is held; called again, it does nothing.
  pub deinit_lem :
      (c : Connection W)
      → Owns c
      → Released (deinit net c) × (deinit net (deinit net c) ≡ deinit net c)
  unfolding deinit
  deinit_lem c h =
      let (h1, z) = end_session-Owns c h in
      let (h2, k, (n, e)) = close_sock-Owns (end_session net c) h1 in
      let released = free_ctx-Owns (close_sock net (end_session net c)) h2 (k ∙ z) n e in
      (released, Released-deinit (deinit net c) released)

-- How MqttHandle_Init has ended: the session stands over an open socket and the peer is verified, or the status
-- is -1.
abbrev pub Connects : {W : Type 0} → Connection W → ℤ → Type 0
Connects c s =
    ((s ≡ pos 0)
      × (c.ssl_ctx ≡ true)
      × (c.ssl_handle ≡ true)
      × ((n : ℕ) × (c.adafruit_io_sock ≡ pos n))
      × Verified c)
    ⊎ (s ≡ negsuc 0)

-- The three statuses, or-ed.
settle :
    {W : Type 0} (c : Connection W) (a b d : ℤ)
    → ((a ≡ pos 0) × (c.ssl_ctx ≡ true)) ⊎ (a ≡ negsuc 0)
    → ((n : ℕ) × (b ≡ pos 0) × (c.adafruit_io_sock ≡ pos n)) ⊎ (b ≡ negsuc 0)
    → ((d ≡ pos 0) × (c.ssl_handle ≡ true) × Verified c) ⊎ (d ≡ negsuc 0)
    → Connects c (or_int (or_int (or_int (pos 0) a) b) d)
settle c a b d (inl (p, x)) (inl (n, q, y)) (inl (r, z, v)) =
    inl (rw (p, q, r) refl, x, z, (n, y), v)
settle c a b d (inl (p, x)) (inl (n, q, y)) (inr r) = inr (rw (p, q, r) refl)
settle c a b d (inl (p, x)) (inr q) (inl (r, z, v)) = inr (rw (p, q, r) refl)
settle c a b d (inl (p, x)) (inr q) (inr r) = inr (rw (p, q, r) refl)
settle c a b d (inr p) (inl (n, q, y)) (inl (r, z, v)) = inr (rw (p, q, r) refl)
settle c a b d (inr p) (inl (n, q, y)) (inr r) = inr (rw (p, q, r) refl)
settle c a b d (inr p) (inr q) (inl (r, z, v)) = inr (rw (p, q, r) refl)
settle c a b d (inr p) (inr q) (inr r) = inr (rw (p, q, r) refl)

context_of :
    {W : Type 0} (c c' : Connection W) {s : ℤ}
    → c'.ssl_ctx ≡ c.ssl_ctx
    → ((s ≡ pos 0) × (c.ssl_ctx ≡ true)) ⊎ ((s ≡ negsuc 0) × (c.ssl_ctx ≡ false))
    → ((s ≡ pos 0) × (c'.ssl_ctx ≡ true)) ⊎ (s ≡ negsuc 0)
context_of c c' k (inl (p, x)) = inl (p, k ∙ x)
context_of c c' k (inr (p, x)) = inr p

socket_of :
    {W : Type 0} (c c' : Connection W) {s : ℤ}
    → c'.adafruit_io_sock ≡ c.adafruit_io_sock
    → ((n : ℕ) × (s ≡ pos 0) × (c.adafruit_io_sock ≡ pos n))
      ⊎ ((n : ℕ) × (s ≡ negsuc 0) × (c.adafruit_io_sock ≡ negsuc n))
    → ((n : ℕ) × (s ≡ pos 0) × (c'.adafruit_io_sock ≡ pos n)) ⊎ (s ≡ negsuc 0)
socket_of c c' k (inl (n, p, x)) = inl (n, p, k ∙ x)
socket_of c c' k (inr (n, p, x)) = inr p

module _ {W : Type 0} (net : Net W) (remaining : W → ℕ) (size : ℕ)
    (law : IsNet net remaining size) where
  connect_all_lem :
      (fuel : ℕ) (w : W)
      → size < fuel
      → ((w : W) → is_zero (net bio_new_mem_buf w).1 ≡ false)
      → IsReachable net
      → (c : Connection W) × (s : ℤ) × (connect_all net fuel (connection_start w) ≡ some (c, s))
        × Owns c
        × Connects c s
  unfolding connect_all
  connect_all_lem fuel w f b r =
      let (c1, s1, e1, (o1, z1, d1, v1)) =
        ssl_init_lem net remaining size law fuel (connection_start w) f b refl
          (connection_start-Owns w) in
      let (o2, x2, z2, v2) = tcp_connect_lem net c1 r (ap opened d1) o1 in
      let c2 = (tcp_connect net c1).0 in
      let (o3, x3, d3, v3) = ssl_handshake_lem net c2 law.ssl_new-null (z2 ∙ z1) o2 in
      let c3 = (ssl_handshake net c2).0 in
      (
        c3,
        or_int (or_int (or_int (pos 0) s1) (tcp_connect net c1).1) (ssl_handshake net c2).1,
        rw e1 refl,
        o3,
        settle c3 s1 (tcp_connect net c1).1 (ssl_handshake net c2).1 (context_of c1 c3 (x3 ∙ x2) v1)
            (socket_of c2 c3 d3 v2) v3,
      )

  -- Given that BIO_new_mem_buf does not fail and that the host is found and takes the connection,
  -- MqttHandle_Init ends, whatever else fails, once the loop has a turn for each byte of server_cert: the client
  -- is in the state CONNECT with the data state INIT; every call so far was allowed, the variables say what
  -- the program holds, and MqttHandle_DeInit releases it. The status is 0 or -1, and 0 only when the session stands
  -- over the open socket and the last calls were a successful handshake and the verification of the peer.
  pub mqtt_handle_init_lem :
      (fuel : ℕ) (client_name user_name password : List ℕ) (h : Handle) (w : W)
      → size < fuel
      → ((w : W) → is_zero (net bio_new_mem_buf w).1 ≡ false)
      → IsReachable net
      → (h' : Handle) × (c : Connection W) × (s : ℤ) × (mqtt_handle_init net fuel client_name
            user_name password h
            (connection_start w)
          ≡ some (h', c, s))
        × (h'.state ≡ connect)
        × (h'.next_state ≡ connect)
        × (h'.data_state ≡ init)
        × Owns c
        × Connects c s
        × Released (deinit net c)
  unfolding mqtt_handle_init stack_init
  mqtt_handle_init_lem fuel client_name user_name password h w f b r =
      let (c, s, e, o, v) = connect_all_lem fuel w f b r in
      (
        stack_init client_name user_name password
            (record h { state = connect; next_state = connect; data_state = init }),
        c,
        s,
        rw e refl,
        refl,
        refl,
        refl,
        o,
        v,
        (deinit_lem net c o).0,
      )
