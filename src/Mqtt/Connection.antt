-- ===== src/Mqtt/Connection.antt =====
-- MqttHandle.c: ssl_init, tcp_connect, ssl_handshake, MqttHandle_Init and MqttHandle_DeInit.
pub mod Calls
pub mod Protocol
pub mod Certificates
pub mod Setup
pub mod Handshake
pub mod Lifecycle
pub mod Illegal
pub mod Stale
pub mod Fixtures
mod Tests
use zybo_z.Common.{
  ℕ, zero, suc, Bool, true, false, not, Option, none, some, bit_or, List, if◌then◌else◌, ◌>>=◌,
}
use zybo_z.Common.Int.{ℤ, pos, negsuc, ltb_ℤ, is_zero, wrap, signed}
use zybo_z.Mqtt.Types.{Handle, connect, init}
use zybo_z.Mqtt.Payload.{stack_init}
use zybo_z.Mqtt.Connection.Calls.{
  Setting, min_proto_version, options, cipher_list, hostflags, host, verify_depth,
  default_verify_paths, verify, Call, ctx_new, ctx_free, ctx_set, bio_new_mem_buf, pem_read_cert,
  store_add_cert, x509_free, bio_free, socket, gethostbyname, setsockopt, connect_socket, close,
  ssl_new, ssl_set_fd, ssl_set_host_name, ssl_connect, ssl_get_verify_result, ssl_shutdown,
  ssl_free, Net, Connection, call, run,
}

-- a | b on the 32-bit `int`s
abbrev pub or_int : ℤ → ℤ → ℤ
or_int a b = signed (bit_or (wrap a 4294967296) (wrap b 4294967296)) 4294967296

module _ {W : Type 0} (net : Net W) where
  -- The loop over the certificates of server_cert, for at most this many turns: `none` if it has not ended.
  unfoldable pub add_certs : ℕ → Connection W → Option (Connection W)
  unfolding call run
  add_certs zero c = none
  add_certs (suc n) c =
      let (c1, cert) = call net pem_read_cert c in
      let rest = add_certs n (run net x509_free (run net store_add_cert c1)) in
      if is_zero cert then some c1 else rest

  -- The settings of the context before its certificates.
  unfoldable pub configure : Connection W → Connection W
  unfolding call run
  configure c =
      let c1 = run net (ctx_set min_proto_version) c in
      let c2 = run net (ctx_set options) c1 in
      let c3 = run net (ctx_set cipher_list) c2 in
      let c4 = run net (ctx_set hostflags) c3 in
      let c5 = run net (ctx_set host) c4 in
      let c6 = run net (ctx_set verify_depth) c5 in run net (ctx_set default_verify_paths) c6

  -- The certificates of server_cert, from BIO_new_mem_buf on.
  unfoldable pub load_certs : ℕ → Connection W → Option (Connection W × ℤ)
  unfolding call run add_certs
  load_certs fuel c =
      let (c1, cert_bio) = call net bio_new_mem_buf c in
      if is_zero cert_bio
      then some (run net ctx_free c1, negsuc 0)
      else do c2 ← add_certs fuel c1; some (run net (ctx_set verify) (run net bio_free c2), pos 0)

  -- ssl_init
  unfoldable pub ssl_init : ℕ → Connection W → Option (Connection W × ℤ)
  unfolding call configure load_certs
  ssl_init fuel c =
      let (c1, ctx) = call net ctx_new c in
      let c2 = record c1 { ssl_ctx = not (is_zero ctx) } in
      if is_zero ctx then some (c2, negsuc 0) else load_certs fuel (configure c2)

  -- tcp_connect from gethostbyname on.
  unfoldable pub reach_host : Connection W → Connection W × ℤ
  unfolding call run
  reach_host c =
      let (c1, entry) = call net gethostbyname c in
      if is_zero entry
      then (run net (close c1.adafruit_io_sock) c1, negsuc 0)
      else let (c2, connected) = call net (connect_socket c1.adafruit_io_sock) c1 in
        if ltb_ℤ connected (pos 0)
        then (run net (close c2.adafruit_io_sock) c2, negsuc 0)
        else (c2, pos 0)

  -- tcp_connect
  unfoldable pub tcp_connect : Connection W → Connection W × ℤ
  unfolding call run reach_host
  tcp_connect c =
      let (c1, fd) = call net socket c in
      let c2 = record c1 { adafruit_io_sock = fd } in
      if ltb_ℤ fd (pos 0) then (c2, negsuc 0) else reach_host (run net (setsockopt fd) c2)

  -- ssl_handshake from SSL_set_fd on; X509_V_OK is 0.
  unfoldable pub verify_peer : Connection W → Connection W × ℤ
  unfolding call run
  verify_peer c =
      let c1 = run net ssl_set_host_name (run net (ssl_set_fd c.adafruit_io_sock) c) in
      let (c2, connected) = call net ssl_connect c1 in
      if not (ltb_ℤ (pos 0) connected)
      then (c2, negsuc 0)
      else let (c3, vr) = call net ssl_get_verify_result c2 in
        if not (is_zero vr) then (c3, negsuc 0) else (c3, pos 0)

  -- ssl_handshake
  unfoldable pub ssl_handshake : Connection W → Connection W × ℤ
  unfolding call verify_peer
  ssl_handshake c =
      let (c1, handle) = call net (ssl_new c.ssl_ctx) c in
      let c2 = record c1 { ssl_handle = not (is_zero handle) } in
      if is_zero handle then (c2, negsuc 0) else verify_peer c2

  -- MqttHandle_Init: the connection's part of it
  unfoldable pub connect_all : ℕ → Connection W → Option (Connection W × ℤ)
  unfolding ssl_init tcp_connect ssl_handshake
  connect_all fuel c = do
    (c1, status1) ← ssl_init fuel c
    let (c2, status2) = tcp_connect c1
    let (c3, status3) = ssl_handshake c2
    some (c3, or_int (or_int (or_int (pos 0) status1) status2) status3)

  -- MqttHandle_Init with the three names
  unfoldable pub mqtt_handle_init :
      ℕ → List ℕ → List ℕ → List ℕ → Handle → Connection W → Option (Handle × Connection W × ℤ)
  unfolding connect_all stack_init
  mqtt_handle_init fuel client_name user_name password h c = do
    let h1 = record h { state = connect; next_state = connect; data_state = init }
    (c1, status) ← connect_all fuel c
    some (stack_init client_name user_name password h1, c1, status)

  -- The three parts of MqttHandle_DeInit
  unfoldable pub end_session : Connection W → Connection W
  unfolding run
  end_session c =
      if c.ssl_handle
      then record (run net ssl_free (run net ssl_shutdown c)) { ssl_handle = false }
      else c

  unfoldable pub close_sock : Connection W → Connection W
  unfolding run
  close_sock c =
      if not (ltb_ℤ c.adafruit_io_sock (pos 0))
      then record (run net (close c.adafruit_io_sock) c) { adafruit_io_sock = negsuc 0 }
      else c

  unfoldable pub free_ctx : Connection W → Connection W
  unfolding run
  free_ctx c = if c.ssl_ctx then record (run net ctx_free c) { ssl_ctx = false } else c

  -- MqttHandle_DeInit
  unfoldable pub deinit : Connection W → Connection W
  unfolding end_session close_sock free_ctx
  deinit c = free_ctx (close_sock (end_session c))
