-- ===== src/Mqtt/Connection/Protocol.antt =====
-- What a program may call on OpenSSL and on its sockets, and what it then holds: the rules that
-- MqttHandle.c's connection set-up is held to.
use zybo_z.Common.{
  ℕ, ◌≡◌, refl, ◌∙◌, Bool, true, false, not, ◌&&◌, Option, none, some, [], ◌∷◌, ◌==◌, ◌>>=◌,
}
use zybo_z.Common.Int.{ℤ, pos, negsuc, is_zero}
use zybo_z.Common.Replay.{replay, replay-append}
use zybo_z.Mqtt.Connection.Calls.{
  Setting, host, verify, Call, ctx_new, ctx_free, ctx_set, bio_new_mem_buf, pem_read_cert,
  store_add_cert, x509_free, bio_free, socket, gethostbyname, setsockopt, connect_socket, close,
  ssl_new, ssl_set_fd, ssl_set_host_name, ssl_connect, ssl_get_verify_result, ssl_shutdown,
  ssl_free, Net, Connection, call, run,
}

-- What the program holds: a context, which may have been told to verify the peer and the host's name, a BIO, a
-- certificate, a session, and an open socket.
pub record Ledger : Type 0 where
  pub context : Bool
  pub verifies_peer : Bool
  pub verifies_host : Bool
  pub bio : Bool
  pub cert : Bool
  pub session : Bool
  pub descriptor : Option ℕ

abbrev pub nothing : Ledger
nothing = record {
  context = false;
  verifies_peer = false;
  verifies_host = false;
  bio = false;
  cert = false;
  session = false;
  descriptor = none;
}

abbrev pub require : Bool → Ledger → Option Ledger
require true l = some l
require false l = none

-- The descriptor is the socket that the program has open.
abbrev pub has_open : Option ℕ → ℤ → Bool
has_open (some n) (pos m) = n == m
has_open (some n) (negsuc m) = false
has_open none fd = false

-- The descriptor is no descriptor, or is open.
abbrev pub not_stale : Option ℕ → ℤ → Bool
not_stale d (pos n) = has_open d (pos n)
not_stale d (negsuc n) = true

abbrev pub opened : ℤ → Option ℕ
opened (pos n) = some n
opened (negsuc n) = none

abbrev pub after_set : Setting → Ledger → Ledger
after_set host l = record l { verifies_host = true }
after_set verify l = record l { verifies_peer = true }
after_set _ l = l

abbrev pub is_none : Option ℕ → Bool
is_none none = true
is_none (some n) = false

-- The ledger after a call with this answer; `none` if the call is not allowed. One thing of each kind is held
-- at a time, what has been freed is not used or freed again, a socket is closed once, and a session comes only
-- from a context that verifies the peer's certificate and the host's name. SSL_new takes NULL, and then fails.
abbrev pub legal : Call → ℤ → Ledger → Option Ledger
legal ctx_new r l =
    require (not l.context)
      (record l { context = not (is_zero r); verifies_peer = false; verifies_host = false })
legal ctx_free r l =
    require l.context (record l { context = false; verifies_peer = false; verifies_host = false })
legal (ctx_set s) r l = require l.context (after_set s l)
legal bio_new_mem_buf r l = require (not l.bio) (record l { bio = not (is_zero r) })
legal pem_read_cert r l = require (l.bio && not l.cert) (record l { cert = not (is_zero r) })
legal store_add_cert r l = require (l.context && l.cert) l
legal x509_free r l = require l.cert (record l { cert = false })
legal bio_free r l = require (l.bio && not l.cert) (record l { bio = false })
legal socket r l = require (is_none l.descriptor) (record l { descriptor = opened r })
legal gethostbyname r l = some l
legal (setsockopt fd) r l = require (has_open l.descriptor fd) l
legal (connect_socket fd) r l = require (has_open l.descriptor fd) l
legal (close fd) r l = require (has_open l.descriptor fd) (record l { descriptor = none })
legal (ssl_new false) r l = require (is_zero r && not l.session) l
legal (ssl_new true) r l =
    require (l.context && l.verifies_peer && l.verifies_host && not l.session)
      (record l { session = not (is_zero r) })
legal (ssl_set_fd fd) r l = require (l.session && not_stale l.descriptor fd) l
legal ssl_set_host_name r l = require l.session l
legal ssl_connect r l = require l.session l
legal ssl_get_verify_result r l = require l.session l
legal ssl_shutdown r l = require l.session l
legal ssl_free r l = require l.session (record l { session = false })

abbrev pub allowed : Call × ℤ → Ledger → Option Ledger
allowed (k, r) l = legal k r l

-- What the program holds after all its calls, from nothing on.
abbrev pub held : {W : Type 0} → Connection W → Option Ledger
held c = replay allowed nothing c.calls

bind_some : (o : Option Ledger) → (o >>= λ l. some l) ≡ o
bind_some none = refl
bind_some (some l) = refl

module _ {W : Type 0} (net : Net W) where
  pub held-call :
      (k : Call) (c : Connection W) {l : Ledger}
      → held c ≡ some l
      → held (call net k c).0 ≡ legal k (call net k c).1 l
  unfolding call replay
  held-call k c h =
      replay-append allowed nothing c.calls ((k, (net k c.world).1) ∷ [])
      ∙ rw h (bind_some (legal k (net k c.world).1 _))

  -- A call that is allowed whatever its answer.
  pub held-run :
      (k : Call) (c : Connection W) {l l' : Ledger}
      → ((r : ℤ) → legal k r l ≡ some l')
      → held c ≡ some l
      → held (run net k c) ≡ some l'
  unfolding run
  held-run k c e h = held-call k c h ∙ e (call net k c).1
