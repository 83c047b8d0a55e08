-- ===== src/Mqtt/Connection/Certificates.antt =====
-- MqttHandle.c: the loop of ssl_init over the certificates of server_cert.
use zybo_z.Common.{
  ℕ, zero, suc, ◌≤◌, ◌<◌, ◌≡◌, inl, inr, refl, ap, ◌∙◌, arith, Bool, true, false, not, ◌&&◌, some,
  List, [], ◌∷◌, ◌++◌, length, Bool-cases,
}
use mathlib.Core.List.{append_assoc}
use zybo_z.Common.Int.{ℤ, pos, is_zero, zero_of}
use zybo_z.Common.Replay.{replay}
use zybo_z.Mqtt.Connection.Calls.{
  Call, bio_new_mem_buf, pem_read_cert, store_add_cert, x509_free, ssl_new, Net, Connection, call,
  run,
}
use zybo_z.Mqtt.Connection.{add_certs}
use zybo_z.Mqtt.Connection.Protocol.{Ledger, allowed}

-- What the code relies on: a certificate is read out of bytes that are still in the BIO, which holds at most
-- the `size` bytes of server_cert; and SSL_new(NULL) fails.
pub record IsNet {W : Type 0} (net : Net W) (remaining : W → ℕ) (size : ℕ) : Type 0 where
  pub remaining-new : (w : W) → remaining (net bio_new_mem_buf w).0 ≤ size
  pub remaining-read :
      (w : W)
      → is_zero (net pem_read_cert w).1 ≡ false
      → remaining (net pem_read_cert w).0 < remaining w
  pub remaining-add : (w : W) → remaining (net store_add_cert w).0 ≤ remaining w
  pub remaining-free : (w : W) → remaining (net x509_free w).0 ≤ remaining w
  pub ssl_new-null : (w : W) → is_zero (net (ssl_new false) w).1 ≡ true

-- A turn of the loop by its answers, and the calls of the loop.
abbrev pub loop_calls : List (ℤ × ℤ × ℤ) → List (Call × ℤ)
loop_calls [] = (pem_read_cert, pos 0) ∷ []
loop_calls ((x, s, f) ∷ ts) =
    (pem_read_cert, x) ∷ (store_add_cert, s) ∷ (x509_free, f) ∷ loop_calls ts

-- No turn has read NULL.
abbrev pub all_read : List (ℤ × ℤ × ℤ) → Bool
all_read [] = true
all_read ((x, s, f) ∷ ts) = not (is_zero x) && all_read ts

-- The connection's variables are the same.
abbrev pub SameVariables : {W : Type 0} → Connection W → Connection W → Type 0
SameVariables c c' =
    (c'.ssl_ctx ≡ c.ssl_ctx)
    × (c'.ssl_handle ≡ c.ssl_handle)
    × (c'.adafruit_io_sock ≡ c.adafruit_io_sock)

flat :
    (ks : List (Call × ℤ)) (a b d : Call × ℤ) (es : List (Call × ℤ))
    → (((ks ++ a ∷ []) ++ b ∷ []) ++ d ∷ []) ++ es ≡ ks ++ a ∷ b ∷ d ∷ es
flat ks a b d es =
    append_assoc ((ks ++ a ∷ []) ++ b ∷ []) (d ∷ []) es
    ∙ append_assoc (ks ++ a ∷ []) (b ∷ []) (d ∷ es)
    ∙ append_assoc ks (a ∷ []) (b ∷ d ∷ es)

module _ {W : Type 0} (net : Net W) (remaining : W → ℕ) (size : ℕ)
    (law : IsNet net remaining size) where
  -- A turn of the loop
  abbrev turn : Connection W → Connection W
  turn c = run net x509_free (run net store_add_cert (call net pem_read_cert c).0)

  -- With more turns than bytes remain in the BIO the loop ends, after at most one certificate for each
  -- byte; it adds each certificate that it reads to the store and frees it before it reads the next, stops at
  -- the first NULL, and touches no variable.
  pub add_certs_lem :
      (n : ℕ) (c : Connection W)
      → remaining c.world < n
      → (c' : Connection W) × (ts : List (ℤ × ℤ × ℤ)) × (add_certs net n c ≡ some c')
        × (length ts ≤ remaining c.world)
        × (all_read ts ≡ true)
        × (c'.calls ≡ c.calls ++ loop_calls ts)
        × SameVariables c c'
  unfolding add_certs call run
  add_certs_lem zero c h = absurd (omega arith)
  add_certs_lem (suc n) c h = elim (Bool-cases (is_zero (net pem_read_cert c.world).1)) [
    | inl t ↦ (
      (call net pem_read_cert c).0,
      [],
      rw t refl,
      omega arith,
      refl,
      ap (λ (z : ℤ). c.calls ++ (pem_read_cert, z) ∷ []) (zero_of _ t),
      (refl, refl, refl),
    )
    | inr t ↦
        let less = law.remaining-read c.world t in
        let add = law.remaining-add (net pem_read_cert c.world).0 in
        let free = law.remaining-free (net store_add_cert (net pem_read_cert c.world).0).0 in
        let (c', ts, e, m, a, k, v) =
          add_certs_lem n (turn c) (omega (arith, less, add, free, h)) in
        let x = (net pem_read_cert c.world).1 in
        let s = (net store_add_cert (net pem_read_cert c.world).0).1 in
        let f = (net x509_free (net store_add_cert (net pem_read_cert c.world).0).0).1 in
        (
          c',
          (x, s, f) ∷ ts,
          rw t e,
          omega (arith, less, add, free, m),
          rw t a,
          k ∙ flat c.calls (pem_read_cert, x) (store_add_cert, s) (x509_free, f) (loop_calls ts),
          v,
        )
  ]

-- What is held between two turns of the loop.
abbrev pub reading : Ledger → Ledger
reading l = record l { context = true; bio = true; cert = false }

and-both : (a b : Bool) → (a && b) ≡ true → (a ≡ true) × (b ≡ true)
and-both true b h = (refl, h)
and-both false b h = ground arith

-- The protocol allows the calls of the loop, after which no certificate is held.
pub replay-loop_calls :
    (ts : List (ℤ × ℤ × ℤ)) (l : Ledger)
    → all_read ts ≡ true
    → replay allowed (reading l) (loop_calls ts) ≡ some (reading l)
unfolding replay
replay-loop_calls [] l h = refl
replay-loop_calls ((x, s, f) ∷ ts) l h =
    let (u, v) = and-both (not (is_zero x)) (all_read ts) h in rw u (replay-loop_calls ts l v)
