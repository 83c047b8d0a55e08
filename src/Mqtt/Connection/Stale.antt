-- ===== src/Mqtt/Connection/Stale.antt =====
-- MqttHandle.c: two failures after which the variables still name what has been released.
use zybo_z.Common.{
  ℕ, ◌≡◌, inl, inr, refl, ap, ◌∙◌, true, false, Option, none, some, Bool, subst, Bool-cases,
  eq_self,
}
use zybo_z.Common.Int.{ℤ, pos, negsuc, is_zero, ltb_ℤ, ℤ-cases, not_negative, is_negative}
use zybo_z.Mqtt.Connection.Calls.{
  ctx_new, ctx_free, bio_new_mem_buf, socket, gethostbyname, setsockopt, connect_socket, close,
  ssl_new, ssl_set_fd, ssl_set_host_name, ssl_connect, ssl_get_verify_result, ssl_shutdown,
  ssl_free, Net, Connection, connection_start, call, run,
}
use zybo_z.Mqtt.Connection.{
  configure, load_certs, ssl_init, reach_host, tcp_connect, verify_peer, ssl_handshake, or_int,
  connect_all, end_session, close_sock, free_ctx, deinit,
}
use zybo_z.Mqtt.Connection.Protocol.{
  Ledger, nothing, opened, has_open, held, held-call, held-run, legal,
}
use zybo_z.Mqtt.Connection.Illegal.{
  FirstIllegal, Extends, kept, extended, call-Extends, run-Extends, illegal_next,
}
use zybo_z.Mqtt.Connection.Setup.{owned, Owns, connection_start-Owns, configure-held}

module _ {W : Type 0} (net : Net W) where
  verify_peer-Extends : (c : Connection W) → Extends c (verify_peer net c).0
  unfolding verify_peer call run
  verify_peer-Extends c =
      let fd = c.adafruit_io_sock in
      let c1 = run net (ssl_set_fd fd) c in
      let c2 = run net ssl_set_host_name c1 in
      let c3 = (call net ssl_connect c2).0 in
      let e2 =
        extended c c1 c2 (run-Extends net (ssl_set_fd fd) c)
          (run-Extends net ssl_set_host_name c1) in
      let e3 = extended c c2 c3 e2 (call-Extends net ssl_connect c2) in
      let e4 =
        extended c c3 (call net ssl_get_verify_result c3).0 e3
          (call-Extends net ssl_get_verify_result c3) in
      elim (Bool-cases (ltb_ℤ (pos 0) (net ssl_connect c2.world).1)) [
        | inr t ↦ rw t e3
        | inl t ↦ elim (Bool-cases (is_zero (net ssl_get_verify_result c3.world).1)) [
          | inr u ↦ rw (t, u) e4
          | inl u ↦ rw (t, u) e4
        ]
      ]

  -- SSL_new on a context that has been freed
  ssl_handshake_freed :
      (c : Connection W) (l : Ledger)
      → c.ssl_ctx ≡ true
      → held c ≡ some (record l { context = false })
      → FirstIllegal (ssl_handshake net c).0 (ssl_new true) (record l { context = false })
  unfolding ssl_handshake call
  ssl_handshake_freed c l x h =
      let k = ssl_new c.ssl_ctx in
      let c1 = (call net k c).0 in
      let l1 : Ledger = record l { context = false } in
      let n : legal k (net k c.world).1 l1 ≡ none = rw x refl in
      subst (λ (b : Bool). FirstIllegal (ssl_handshake net c).0 (ssl_new b) l1) x
        (elim (Bool-cases (is_zero (net k c.world).1)) [
          | inl t ↦ rw t (illegal_next net k c (record c1 { ssl_handle = false }) l1 h n (kept c1))
          | inr t ↦
              let c2 = record c1 { ssl_handle = true } in
              rw t (illegal_next net k c (verify_peer net c2).0 l1 h n (verify_peer-Extends c2))
        ])

  close-held :
      (c : Connection W) (l : Ledger) (fd : ℤ)
      → has_open (opened fd) fd ≡ true
      → held c ≡ some (record l { descriptor = opened fd })
      → held (run net (close fd) c) ≡ some (record l { descriptor = none })
  close-held c l fd o h = held-run net (close fd) c (λ r. rw o refl) h

  -- tcp_connect changes no more than the descriptor.
  tcp_connect-held :
      (c : Connection W) (l : Ledger)
      → l.descriptor ≡ none
      → held c ≡ some l
      → ((d : Option ℕ) × (held (tcp_connect net c).0 ≡ some (record l { descriptor = d })))
        × ((tcp_connect net c).0.ssl_ctx ≡ c.ssl_ctx)
  unfolding tcp_connect reach_host call run
  tcp_connect-held c l z h =
      let fd = (net socket c.world).1 in
      let c1 = record (call net socket c).0 { adafruit_io_sock = fd } in
      let h1 : held c1 ≡ some (record l { descriptor = opened fd }) =
        held-call net socket c h ∙ rw z refl in
      elim (ℤ-cases fd) [
        | inr (n, e) ↦
            let less : ltb_ℤ fd (pos 0) ≡ true = rw e (is_negative n) in
            rw less ((opened fd, h1), refl)
        | inl (n, e) ↦
            let not_less : ltb_ℤ fd (pos 0) ≡ false = rw e (not_negative n) in
            let is_open : has_open (opened fd) fd ≡ true = rw e (eq_self n) in
            let c2 = run net (setsockopt fd) c1 in
            let h2 : held c2 ≡ some (record l { descriptor = opened fd }) =
              held-run net (setsockopt fd) c1 (λ r. rw is_open refl) h1 in
            let c3 = (call net gethostbyname c2).0 in
            let h3 = held-call net gethostbyname c2 h2 in
            let c4 = (call net (connect_socket fd) c3).0 in
            let h4 : held c4 ≡ some (record l { descriptor = opened fd }) =
              held-call net (connect_socket fd) c3 h3 ∙ rw is_open refl in
            elim (Bool-cases (is_zero (net gethostbyname c2.world).1)) [
              | inl t ↦ rw (not_less, t) ((none, close-held c3 l fd is_open h3), refl)
              | inr t ↦ elim (Bool-cases (ltb_ℤ (net (connect_socket fd) c3.world).1 (pos 0))) [
                | inl u ↦ rw (not_less, t, u) ((none, close-held c4 l fd is_open h4), refl)
                | inr u ↦ rw (not_less, t, u) ((opened fd, h4), refl)
              ]
            ]
      ]

  -- If SSL_CTX_new succeeds and BIO_new_mem_buf fails, ssl_init returns -1 after calls that are all allowed: nothing
  -- is held any more, the context has been freed, but ssl_ctx still points at it. MqttHandle_Init goes on, and
  -- the first call of it that is not allowed is SSL_new of that context, which does not exist any more.
  pub connect_all_freed :
      (fuel : ℕ) (w : W)
      → ((w : W) → is_zero (net ctx_new w).1 ≡ false)
      → ((w : W) → is_zero (net bio_new_mem_buf w).1 ≡ true)
      → (c : Connection W) × (c' : Connection W) × (s : ℤ) × (d : Option ℕ) × (ssl_init net fuel
            (connection_start w)
          ≡ some (c, negsuc 0))
        × (held c ≡ some nothing)
        × (c.ssl_ctx ≡ true)
        × (connect_all net fuel (connection_start w) ≡ some (c', s))
        × FirstIllegal c' (ssl_new true) (record nothing { descriptor = d })
  unfolding connect_all ssl_init load_certs call run
  connect_all_freed fuel w x b =
      let start = connection_start w in
      let c1 = record (call net ctx_new start).0 { ssl_ctx = true } in
      let h1 : held c1 ≡ some (record nothing { context = true }) =
        held-call net ctx_new start (connection_start-Owns w) ∙ rw (x w) refl in
      let (h2, (v1, v2, v3)) = configure-held net c1 nothing h1 in
      let c2 = configure net c1 in
      let c3 = (call net bio_new_mem_buf c2).0 in
      let h3 : held c3 ≡ some (record nothing { context = true; verifies_host = true }) =
        held-call net bio_new_mem_buf c2 h2 ∙ rw (b c2.world) refl in
      let c4 = run net ctx_free c3 in
      let h4 : held c4 ≡ some nothing = held-run net ctx_free c3 (λ r. refl) h3 in
      let ((d, h5), v) = tcp_connect-held c4 nothing refl h4 in
      let c5 = (tcp_connect net c4).0 in
      (
        c4,
        (ssl_handshake net c5).0,
        or_int (or_int (or_int (pos 0) (negsuc 0)) (tcp_connect net c4).1) (ssl_handshake net c5).1,
        d,
        rw (x w, b c2.world) refl,
        h4,
        v1,
        rw (x w, b c2.world) refl,
        ssl_handshake_freed c5 (record nothing { descriptor = d }) (v ∙ v1) h5,
      )

  free_ctx-Extends : (c : Connection W) → Extends c (free_ctx net c)
  unfolding free_ctx
  free_ctx-Extends c = elim (Bool-cases c.ssl_ctx) [
    | inl x ↦ rw x (run-Extends net ctx_free c)
    | inr x ↦ rw x (kept c)
  ]

  close_sock_stale :
      (c : Connection W) (l : Ledger) (n : ℕ)
      → c.adafruit_io_sock ≡ pos n
      → held c ≡ some (record l { descriptor = none })
      → FirstIllegal
          (free_ctx net (close_sock net c))
          (close (pos n))
          (record l { descriptor = none })
  unfolding close_sock run
  close_sock_stale c l n e h =
      let k = close (pos n) in
      let c1 = record (call net k c).0 { adafruit_io_sock = negsuc 0 } in
      rw (e, not_negative n)
        (illegal_next net k c (free_ctx net c1) (record l { descriptor = none }) h refl
          (free_ctx-Extends c1))

  end_session-kept : (c : Connection W) → c.ssl_handle ≡ false → end_session net c ≡ c
  unfolding end_session
  end_session-kept c z = simp z refl

  -- What is left when the session has ended: at most the context.
  abbrev session_over : Connection W → Ledger
  session_over c = record (owned c) { session = false; descriptor = none }

  deinit_stale :
      (c : Connection W) (n : ℕ)
      → c.adafruit_io_sock ≡ pos n
      → held c ≡ some (record (owned c) { descriptor = none })
      → FirstIllegal (deinit net c) (close (pos n)) (session_over c)
  unfolding deinit
  deinit_stale c n e h = elim (Bool-cases c.ssl_handle) [
    | inr z ↦ rw (end_session-kept c z) (
        close_sock_stale c (session_over c) n e
          (h ∙ ap (λ (b : Bool). some (record (owned c) { session = b; descriptor = none })) z))
    | inl z ↦
        let c1 = run net ssl_shutdown c in
        let c2 = run net ssl_free c1 in
        let h1 : held c1 ≡ some (record (owned c) { descriptor = none }) =
          held-run net ssl_shutdown c (λ r. rw z refl) h in
        let h2 : held c2 ≡ some (session_over c) = held-run net ssl_free c1 (λ r. rw z refl) h1 in
        unfold end_session run call in
        rw z (close_sock_stale (record c2 { ssl_handle = false }) (session_over c) n e h2)
  ]

  -- If no socket is held, one is opened and the host's name is not found, tcp_connect returns -1 after calls that
  -- are all allowed: the socket has been closed, but adafruitIo_sock still has its number. The first call of
  -- MqttHandle_DeInit that is not allowed is the close of that number, when no socket is open.
  pub tcp_connect-deinit :
      (c : Connection W) (n : ℕ)
      → Owns c
      → opened c.adafruit_io_sock ≡ none
      → (net socket c.world).1 ≡ pos n
      → ((w : W) → is_zero (net gethostbyname w).1 ≡ true)
      → let c' = (tcp_connect net c).0 in
        ((tcp_connect net c).1 ≡ negsuc 0)
        × (c'.adafruit_io_sock ≡ pos n)
        × (held c' ≡ some (record (owned c) { descriptor = none }))
        × FirstIllegal
            (deinit net c')
            (close (pos n))
            (record (owned c) { session = false; descriptor = none })
  unfolding tcp_connect reach_host call run
  tcp_connect-deinit c n h z e t =
      let fd = (net socket c.world).1 in
      let not_less : ltb_ℤ fd (pos 0) ≡ false = rw e (not_negative n) in
      let is_open : has_open (opened fd) fd ≡ true = rw e (eq_self n) in
      let c1 = record (call net socket c).0 { adafruit_io_sock = fd } in
      let h1 : held c1 ≡ some (owned c1) = held-call net socket c h ∙ rw z refl in
      let c2 = run net (setsockopt fd) c1 in
      let h2 : held c2 ≡ some (owned c1) =
        held-run net (setsockopt fd) c1 (λ r. rw is_open refl) h1 in
      let c3 = (call net gethostbyname c2).0 in
      let h3 : held c3 ≡ some (owned c1) = held-call net gethostbyname c2 h2 in
      let c4 = run net (close fd) c3 in
      let h4 = close-held c3 (owned c1) fd is_open h3 in
      let closed : tcp_connect net c ≡ (c4, negsuc 0) = rw (not_less, t c2.world) refl in
      rw closed (refl, e, h4, deinit_stale c4 n e h4)
