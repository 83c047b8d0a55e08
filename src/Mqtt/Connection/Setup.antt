-- ===== src/Mqtt/Connection/Setup.antt =====
-- MqttHandle.c: ssl_init, tcp_connect and ssl_handshake, by what the connection's variables then hold.
use zybo_z.Common.{
  ℕ, ◌<◌, ◌≡◌, ◌⊎◌, inl, inr, refl, ap, ◌∙◌, arith, Bool, true, false, some, Bool-cases,
}
use zybo_z.Common.Int.{ℤ, pos, negsuc, is_zero}
use zybo_z.Common.Replay.{replay, replay-append}
use zybo_z.Mqtt.Connection.Calls.{
  min_proto_version, options, cipher_list, hostflags, host, verify_depth, default_verify_paths,
  verify, ctx_new, ctx_set, bio_new_mem_buf, bio_free, Net, Connection, connection_start, call, run,
}
use zybo_z.Mqtt.Connection.{configure, load_certs, ssl_init}
use zybo_z.Mqtt.Connection.Protocol.{Ledger, held, held-call, held-run, allowed, nothing, opened}
use zybo_z.Mqtt.Connection.Certificates.{
  IsNet, SameVariables, add_certs_lem, reading, replay-loop_calls, loop_calls,
}

-- What the program should hold, by the values of its variables; no BIO, no certificate.
abbrev pub holdings : Bool → Bool → ℤ → Ledger
holdings ctx handle sock = record {
  context = ctx;
  verifies_peer = ctx;
  verifies_host = ctx;
  bio = false;
  cert = false;
  session = handle;
  descriptor = opened sock;
}

abbrev pub owned : {W : Type 0} → Connection W → Ledger
owned c = holdings c.ssl_ctx c.ssl_handle c.adafruit_io_sock

abbrev pub Owns : {W : Type 0} → Connection W → Type 0
Owns c = held c ≡ some (owned c)

pub connection_start-Owns : {W : Type 0} (w : W) → Owns (connection_start w)
unfolding replay
connection_start-Owns w = refl

module _ {W : Type 0} (net : Net W) where
  pub configure-held :
      (c : Connection W) (l : Ledger)
      → held c ≡ some (record l { context = true })
      → (held (configure net c) ≡ some (record l { context = true; verifies_host = true }))
        × SameVariables c (configure net c)
  unfolding configure run call
  configure-held c l h =
      let c1 = run net (ctx_set min_proto_version) c in
      let c2 = run net (ctx_set options) c1 in
      let c3 = run net (ctx_set cipher_list) c2 in
      let c4 = run net (ctx_set hostflags) c3 in
      let c5 = run net (ctx_set host) c4 in
      let c6 = run net (ctx_set verify_depth) c5 in
      let h1 = held-run net (ctx_set min_proto_version) c (λ r. refl) h in
      let h2 = held-run net (ctx_set options) c1 (λ r. refl) h1 in
      let h3 = held-run net (ctx_set cipher_list) c2 (λ r. refl) h2 in
      let h4 = held-run net (ctx_set hostflags) c3 (λ r. refl) h3 in
      let h5 = held-run net (ctx_set host) c4 (λ r. refl) h4 in
      let h6 = held-run net (ctx_set verify_depth) c5 (λ r. refl) h5 in
      (held-run net (ctx_set default_verify_paths) c6 (λ r. refl) h6, (refl, refl, refl))

module _ {W : Type 0} (net : Net W) (remaining : W → ℕ) (size : ℕ)
    (law : IsNet net remaining size) where
  load_certs-held :
      (fuel : ℕ) (c : Connection W) (l : Ledger)
      → size < fuel
      → ((w : W) → is_zero (net bio_new_mem_buf w).1 ≡ false)
      → held c ≡ some (record l { context = true; bio = false; cert = false })
      → (c' : Connection W) × (load_certs net fuel c ≡ some (c', pos 0))
        × (held c'
            ≡ some (record l { context = true; verifies_peer = true; bio = false; cert = false }))
        × SameVariables c c'
  unfolding load_certs call run
  load_certs-held fuel c l f b h =
      let c1 = (call net bio_new_mem_buf c).0 in
      let (c2, ts, e, m, a, k, v) =
        add_certs_lem net remaining size law fuel c1
          (omega (arith, f, law.remaining-new c.world)) in
      let h1 : held c1 ≡ some (reading l) =
        held-call net bio_new_mem_buf c h ∙ rw (b c.world) refl in
      let h2 : held c2 ≡ some (reading l) =
        ap (replay allowed nothing) k
        ∙ replay-append allowed nothing c1.calls (loop_calls ts)
        ∙ rw h1 (replay-loop_calls ts l a) in
      (
        run net (ctx_set verify) (run net bio_free c2),
        rw (b c.world, e) refl,
        held-run net (ctx_set verify) (run net bio_free c2) (λ r. refl)
            (held-run net bio_free c2 (λ r. refl) h2),
        v,
      )

  -- How ssl_init has ended.
  abbrev pub InitialisesTls : Connection W → Connection W → ℤ → Type 0
  InitialisesTls c c' s =
      Owns c'
      × (c'.ssl_handle ≡ c.ssl_handle)
      × (c'.adafruit_io_sock ≡ c.adafruit_io_sock)
      × (((s ≡ pos 0) × (c'.ssl_ctx ≡ true)) ⊎ ((s ≡ negsuc 0) × (c'.ssl_ctx ≡ false)))

  pub ssl_init_lem :
      (fuel : ℕ) (c : Connection W)
      → size < fuel
      → ((w : W) → is_zero (net bio_new_mem_buf w).1 ≡ false)
      → c.ssl_ctx ≡ false
      → Owns c
      → (c' : Connection W) × (s : ℤ) × (ssl_init net fuel c ≡ some (c', s)) × InitialisesTls c c' s
  unfolding ssl_init call
  ssl_init_lem fuel c f b z h = elim (Bool-cases (is_zero (net ctx_new c.world).1)) [
    | inl t ↦ (
      record (call net ctx_new c).0 { ssl_ctx = false },
      negsuc 0,
      rw t refl,
      (held-call net ctx_new c h ∙ rw (t, z) refl, refl, refl, inr (refl, refl)),
    )
    | inr t ↦
        let c1 = record (call net ctx_new c).0 { ssl_ctx = true } in
        let l = record (owned c) { context = true; verifies_peer = false; verifies_host = false } in
        let (h2, (v1, v2, v3)) =
          configure-held net c1 l (held-call net ctx_new c h ∙ rw (t, z) refl) in
        let (c', e, h3, (w1, w2, w3)) =
          load_certs-held fuel (configure net c1) (record l { verifies_host = true }) f b h2 in
        (
          c',
          pos 0,
          rw t e,
          (h3 ∙ rw (w1 ∙ v1, w2 ∙ v2, w3 ∙ v3) refl, w2 ∙ v2, w3 ∙ v3, inl (refl, w1 ∙ v1)),
        )
  ]
