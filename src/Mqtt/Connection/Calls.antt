-- ===== src/Mqtt/Connection/Calls.antt =====
-- The calls of MqttHandle.c's connection set-up on OpenSSL and on the sockets, and the state they change.
use zybo_z.Common.{Bool, false, List, [], ◌∷◌, ◌++◌}
use zybo_z.Common.Int.{ℤ, negsuc}

-- What ssl_init sets in the context.
pub data Setting : Type 0 where
  min_proto_version options cipher_list hostflags host verify_depth default_verify_paths verify :
      Setting

-- The contexts, sessions, BIOs and certificates are the ones that the variables of the program point to;
-- `ssl_new` says whether its argument is other than NULL.
pub data Call : Type 0 where
  ctx_new ctx_free : Call
  ctx_set : Setting → Call
  bio_new_mem_buf pem_read_cert store_add_cert x509_free bio_free : Call
  socket gethostbyname : Call
  setsockopt connect_socket close : ℤ → Call
  ssl_new : Bool → Call
  ssl_set_fd : ℤ → Call
  ssl_set_host_name ssl_connect ssl_get_verify_result ssl_shutdown ssl_free : Call

-- The world answers a call; a pointer is answered as 0 for NULL and as another number otherwise.
abbrev pub Net : Type 0 → Type 0
Net W = Call → W → W × ℤ

-- ssl_ctx != NULL, ssl_handle != NULL and adafruitIo_sock, with the calls made so far and their answers.
pub record Connection (W : Type 0) : Type 0 where
  pub ssl_ctx : Bool
  pub ssl_handle : Bool
  pub adafruit_io_sock : ℤ
  pub calls : List (Call × ℤ)
  pub world : W

-- The variables' initial values
abbrev pub connection_start : {W : Type 0} → W → Connection W
connection_start w = record {
  ssl_ctx = false;
  ssl_handle = false;
  adafruit_io_sock = negsuc 0;
  calls = [];
  world = w;
}

module _ {W : Type 0} (net : Net W) where
  unfoldable pub call : Call → Connection W → Connection W × ℤ
  call k c =
      let (w, r) = net k c.world in (record c { calls = c.calls ++ (k, r) ∷ []; world = w }, r)

  -- A call whose answer is not used.
  unfoldable pub run : Call → Connection W → Connection W
  unfolding call
  run k c = (call k c).0
