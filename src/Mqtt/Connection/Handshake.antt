-- ===== src/Mqtt/Connection/Handshake.antt =====
-- MqttHandle.c: tcp_connect and ssl_handshake, by what the connection's variables then hold.
use zybo_z.Common.{
  ℕ, zero, suc, ◌≡◌, ◌⊎◌, inl, inr, refl, ◌∙◌, arith, Bool, true, false, none, some, List, [], ◌∷◌,
  ◌++◌, Bool-cases, eq_self,
}
use mathlib.Core.List.{append_assoc}
use zybo_z.Common.Int.{ℤ, pos, negsuc, is_zero, ltb_ℤ, ℤ-cases, not_negative, is_negative, zero_of}
use zybo_z.Mqtt.Connection.Calls.{
  Call, socket, gethostbyname, setsockopt, connect_socket, ssl_new, ssl_set_fd, ssl_set_host_name,
  ssl_connect, ssl_get_verify_result, Net, Connection, call, run,
}
use zybo_z.Mqtt.Connection.{reach_host, tcp_connect, verify_peer, ssl_handshake}
use zybo_z.Mqtt.Connection.Protocol.{held, held-call, held-run, legal, opened, not_stale}
use zybo_z.Mqtt.Connection.Setup.{holdings, owned, Owns}

not_stale-opened : (fd : ℤ) → not_stale (opened fd) fd ≡ true
not_stale-opened (pos n) = eq_self n
not_stale-opened (negsuc n) = refl

-- The host's name is found and the host takes the connection.
pub record IsReachable {W : Type 0} (net : Net W) : Type 0 where
  pub host_found : (w : W) → is_zero (net gethostbyname w).1 ≡ false
  pub connects : (fd : ℤ) (w : W) → ltb_ℤ (net (connect_socket fd) w).1 (pos 0) ≡ false

-- The last calls are a handshake that succeeded and a certificate that was found valid.
abbrev pub Verified : {W : Type 0} → Connection W → Type 0
Verified c =
    (ks : List (Call × ℤ)) × (n : ℕ) × (c.calls
      ≡ ks ++ (ssl_connect, pos (suc n)) ∷ (ssl_get_verify_result, pos 0) ∷ [])

positive-pos : (z : ℤ) → ltb_ℤ (pos 0) z ≡ true → (n : ℕ) × (z ≡ pos (suc n))
positive-pos (pos zero) h = absurd (ground arith)
positive-pos (pos (suc n)) h = (n, refl)
positive-pos (negsuc n) h = absurd (ground arith)

legal-refused :
    (ctx : Bool) (r fd : ℤ)
    → is_zero r ≡ true
    → legal (ssl_new ctx) r (holdings ctx false fd) ≡ some (holdings ctx false fd)
legal-refused true r fd h = rw h refl
legal-refused false r fd h = rw h refl

legal-given :
    (ctx : Bool) (r fd : ℤ)
    → (ctx ≡ false → is_zero r ≡ true)
    → is_zero r ≡ false
    → legal (ssl_new ctx) r (holdings ctx false fd) ≡ some (holdings ctx true fd)
legal-given true r fd null h = rw h refl
legal-given false r fd null h = absurd (ground (arith, null refl, h))

module _ {W : Type 0} (net : Net W) where
  -- How tcp_connect has ended.
  abbrev pub OpensSocket : Connection W → Connection W × ℤ → Type 0
  OpensSocket c (c', s) =
      Owns c'
      × (c'.ssl_ctx ≡ c.ssl_ctx)
      × (c'.ssl_handle ≡ c.ssl_handle)
      × (((n : ℕ) × (s ≡ pos 0) × (c'.adafruit_io_sock ≡ pos n))
          ⊎ ((n : ℕ) × (s ≡ negsuc 0) × (c'.adafruit_io_sock ≡ negsuc n)))

  reach_host_lem :
      (c : Connection W) (n : ℕ)
      → IsReachable net
      → c.adafruit_io_sock ≡ pos n
      → Owns c
      → OpensSocket c (reach_host net c)
  unfolding reach_host call
  reach_host_lem c n r z h =
      let c1 = (call net gethostbyname c).0 in
      let h1 : held c1 ≡ some (owned c) = held-call net gethostbyname c h in
      let h2 = held-call net (connect_socket c1.adafruit_io_sock) c1 h1 in
      rw (r.host_found c.world, r.connects c.adafruit_io_sock c1.world)
        (h2 ∙ rw (z, eq_self n) refl, refl, refl, inl (n, refl, z))

  pub tcp_connect_lem :
      (c : Connection W)
      → IsReachable net
      → opened c.adafruit_io_sock ≡ none
      → Owns c
      → OpensSocket c (tcp_connect net c)
  unfolding tcp_connect call run
  tcp_connect_lem c r z h =
      let fd = (net socket c.world).1 in
      let c1 = record (call net socket c).0 { adafruit_io_sock = fd } in
      let h1 : held c1 ≡ some (owned c1) = held-call net socket c h ∙ rw z refl in
      elim (ℤ-cases fd) [
        | inl (n, e) ↦
            let not_less : ltb_ℤ fd (pos 0) ≡ false = rw e (not_negative n) in
            let h2 : held (run net (setsockopt fd) c1) ≡ some (owned c1) =
              held-run net (setsockopt fd) c1 (λ r. rw (e, eq_self n) refl) h1 in
            rw not_less (reach_host_lem (run net (setsockopt fd) c1) n r e h2)
        | inr (n, e) ↦
            let less : ltb_ℤ fd (pos 0) ≡ true = rw e (is_negative n) in
            rw less (h1, refl, refl, inr (n, refl, e))
      ]

  -- How ssl_handshake has ended.
  abbrev pub Handshakes : Connection W → Connection W × ℤ → Type 0
  Handshakes c (c', s) =
      Owns c'
      × (c'.ssl_ctx ≡ c.ssl_ctx)
      × (c'.adafruit_io_sock ≡ c.adafruit_io_sock)
      × (((s ≡ pos 0) × (c'.ssl_handle ≡ true) × Verified c') ⊎ (s ≡ negsuc 0))

  verify_peer_lem :
      (c : Connection W) → c.ssl_handle ≡ true → Owns c → Handshakes c (verify_peer net c)
  unfolding verify_peer call run
  verify_peer_lem c z h =
      let fd = c.adafruit_io_sock in
      let c1 = run net (ssl_set_fd fd) c in
      let c2 = run net ssl_set_host_name c1 in
      let c3 = (call net ssl_connect c2).0 in
      let c4 = (call net ssl_get_verify_result c3).0 in
      let h1 : held c1 ≡ some (owned c) =
        held-run net (ssl_set_fd fd) c (λ r. rw (z, not_stale-opened fd) refl) h in
      let h2 : held c2 ≡ some (owned c) = held-run net ssl_set_host_name c1 (λ r. rw z refl) h1 in
      let h3 : held c3 ≡ some (owned c) = held-call net ssl_connect c2 h2 ∙ rw z refl in
      let h4 : held c4 ≡ some (owned c) = held-call net ssl_get_verify_result c3 h3 ∙ rw z refl in
      elim (Bool-cases (ltb_ℤ (pos 0) (net ssl_connect c2.world).1)) [
        | inr t ↦ rw t (h3, refl, refl, inr refl)
        | inl t ↦ elim (Bool-cases (is_zero (net ssl_get_verify_result c3.world).1)) [
          | inr u ↦ rw (t, u) (h4, refl, refl, inr refl)
          | inl u ↦
              let (n, e) = positive-pos (net ssl_connect c2.world).1 t in
              let last : c4.calls
                  ≡ c2.calls ++ (ssl_connect, pos (suc n)) ∷ (ssl_get_verify_result, pos 0) ∷ [] =
                append_assoc c2.calls ((ssl_connect, (net ssl_connect c2.world).1) ∷ []) _
                ∙ rw (e, zero_of (net ssl_get_verify_result c3.world).1 u) refl in
              rw (t, u) (h4, refl, refl, inl (refl, z, (c2.calls, n, last)))
        ]
      ]

  pub ssl_handshake_lem :
      (c : Connection W)
      → ((w : W) → is_zero (net (ssl_new false) w).1 ≡ true)
      → c.ssl_handle ≡ false
      → Owns c
      → Handshakes c (ssl_handshake net c)
  unfolding ssl_handshake call
  ssl_handshake_lem c null z h =
      let c1 = (call net (ssl_new c.ssl_ctx) c).0 in
      let r = (net (ssl_new c.ssl_ctx) c.world).1 in
      let fd = c.adafruit_io_sock in
      let before : held c ≡ some (holdings c.ssl_ctx false fd) = h ∙ rw z refl in
      let h1 = held-call net (ssl_new c.ssl_ctx) c before in
      elim (Bool-cases (is_zero r)) [
        | inl t ↦
            let h2 : held c1 ≡ some (holdings c.ssl_ctx false fd) =
              h1 ∙ legal-refused c.ssl_ctx r fd t in
            rw t (h2, refl, refl, inr refl)
        | inr t ↦
            let c2 = record c1 { ssl_handle = true } in
            let null_of : c.ssl_ctx ≡ false → is_zero r ≡ true = λ x. rw x (null c.world) in
            let h2 : held c2 ≡ some (owned c2) = h1 ∙ legal-given c.ssl_ctx r fd null_of t in
            rw t (verify_peer_lem c2 refl h2)
      ]
