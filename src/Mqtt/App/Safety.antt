-- ===== src/Mqtt/App/Safety.antt =====
-- No step of MqttHandle_App leaves an array, and each keeps the client well formed.
use zybo_z.Common.{
  ℕ, true, false, ◌+◌, ◌≤◌, ◌<◌, ◌≡◌, refl, Bool, Option, none, some, List, length, u16, le→leb,
  ◌>>=◌, Succeeds, Succeeds-some, inl, inr, arith, [], ◌∷◌, u8, shr, bit_and,
}
use zybo_z.Common.Int.{ℤ, pos, negsuc, ℤ-cases}
use zybo_z.Mqtt.Types.{
  MqttState, connect, connack, ping_req, ping_resp, publish, puback, write, read, Handle, DataInfo,
}
use zybo_z.Mqtt.Memory.{Cursor, copy, copy_fits, slice-eq, copy-length, length-overwrite}
use zybo_z.Mqtt.Packet.{connack_received, puback_received, ping_resp_received}
use zybo_z.Mqtt.Packet.Ack.{starts_with_within}
use zybo_z.Mqtt.Packet.Length.{length-length_bytes}
use zybo_z.Mqtt.Packet.Layout.{
  IsCredential, IsPublication, connect_packet, connect_body_len, publish_packet, publish_body_len,
  length-connect_packet, length-publish_packet, connect_create_message_lem,
  publish_create_packet_lem, ping_req_create_lem,
}
use zybo_z.Mqtt.Tls.{Tls, IsTls}
use zybo_z.Mqtt.Transfer.{
  Machine, write_handler, read_handler, buf_idx, write_progress, read_progress, ssl_read_data,
}
use zybo_z.Mqtt.App.{
  on_connect, on_connack, on_ping_req, on_ping_resp, on_publish, on_puback, after_write, after_read,
  dispatch, app,
}

-- The transfer in progress lies within the buffer, the three names and the topic fit a packet, and the
-- payload lies within its array.
pub record IsReady (h : Handle) : Type 0 where
  pub buffer_len : length h.buffer ≡ 1500
  pub remain_le : h.info.data_remain ≤ h.info.data_size
  pub size_le : h.info.data_size ≤ 1500
  pub read_le : h.info.data_read ≤ 4
  pub client_ok : IsCredential h.client
  pub user_ok : IsCredential h.user
  pub pass_ok : IsCredential h.pass
  pub connect_fits : h.client.actl_size + h.user.actl_size + h.pass.actl_size ≤ 1400
  pub payload_len : length h.payload.bytes ≡ 128
  pub payload_le : h.payload.size ≤ 128
  pub topic_le : length h.topic ≤ 1300
  pub id_small : h.publish_cfg.packet_id < 65536

module _ {S : Type 0} where
  abbrev pub IsReadyMachine : Machine S → Type 0
  IsReadyMachine m = IsReady m.handle

  connect-IsReady : (m : Machine S) → IsReady m.handle → Succeeds IsReadyMachine (on_connect m)
  unfolding on_connect
  connect-IsReady m v =
      rw
        (connect_create_message_lem h.client h.user h.pass h.buffer v.client_ok v.user_ok v.pass_ok)
        (rw (le→leb _ _ fits)
          (ground (arith, fits, length-overwrite (connect_packet h.client h.user h.pass) h.buffer)))
    where
      open m use {handle as h}

      fits : length (connect_packet h.client h.user h.pass) ≤ length h.buffer
      fits = omega (
        arith,
        v,
        length-connect_packet h.client h.user h.pass v.client_ok v.user_ok v.pass_ok,
        length-length_bytes 4 (connect_body_len h.client h.user h.pass),
      )

  connack-IsReady : (m : Machine S) → IsReady m.handle → Succeeds IsReadyMachine (on_connack m)
  unfolding on_connack connack_received
  connack-IsReady m v =
      let (r, e) = starts_with_within (0x20 ∷ 2 ∷ 0 ∷ []) m.handle.buffer (omega (arith, v)) in
      rw e (ground arith)

  ping_req-IsReady :
      (b : Bool) (m : Machine S) → IsReady m.handle → Succeeds IsReadyMachine (on_ping_req b m)
  unfolding on_ping_req
  ping_req-IsReady true m v = ground arith
  ping_req-IsReady false m v =
      rw (ping_req_create_lem m.handle.buffer, le→leb 2 (length m.handle.buffer) (omega (arith, v)))
        (ground (arith, length-overwrite (0xc0 ∷ 0 ∷ []) m.handle.buffer))

  ping_resp-IsReady : (m : Machine S) → IsReady m.handle → Succeeds IsReadyMachine (on_ping_resp m)
  unfolding on_ping_resp ping_resp_received
  ping_resp-IsReady m v =
      let (r, e) = starts_with_within (0xd0 ∷ 0 ∷ []) m.handle.buffer (omega (arith, v)) in
      rw e (ground arith)

  puback-IsReady : (m : Machine S) → IsReady m.handle → Succeeds IsReadyMachine (on_puback m)
  unfolding on_puback puback_received
  puback-IsReady m v =
      let id = m.handle.publish_cfg.packet_id in
      let (r, e) =
        starts_with_within (0x40 ∷ 2 ∷ u8 (shr id 8) ∷ u8 (bit_and id 0xff) ∷ []) m.handle.buffer
          (omega (arith, v)) in
      rw e (ground arith)

  publish-IsReady : (m : Machine S) → IsReady m.handle → Succeeds IsReadyMachine (on_publish m)
  unfolding on_publish
  publish-IsReady m v =
      rw
        (
          topic_len,
          publish_create_packet_lem h.publish_cfg h.payload h.topic ok h.buffer,
          le→leb _ _ fits,
        )
        (ground
          (arith, fits, length-overwrite (publish_packet h.publish_cfg h.payload h.topic) h.buffer))
    where
      open m use {handle as h}

      topic_len : u16 (length h.topic) ≡ length h.topic
      topic_len = omega (arith, v)

      ok : IsPublication h.publish_cfg h.payload h.topic
      ok = record {
        payload_there = omega (arith, v);
        payload_small = omega (arith, v);
        topic_small = omega (arith, v);
        id_small = v.id_small;
      }

      fits : length (publish_packet h.publish_cfg h.payload h.topic) ≤ length h.buffer
      fits = omega (
        arith,
        v,
        length-publish_packet h.publish_cfg h.payload h.topic ok,
        length-length_bytes 4 (publish_body_len h.payload h.topic),
      )

-- A transfer's result only lowers what remains.
pub record Progressed (old new : DataInfo) : Type 0 where
  pub remain_falls : new.data_remain ≤ old.data_remain
  pub size_kept : new.data_size ≡ old.data_size
  pub read_kept : new.data_read ≡ old.data_read

progress-IsReady :
    (h : Handle) (buffer : List ℕ) (info : DataInfo)
    → IsReady h
    → length buffer ≡ length h.buffer
    → Progressed h.info info
    → IsReady (record h { buffer = buffer; info = info })
progress-IsReady h buffer info v e p = ground arith

module _ {S : Type 0} (tls : Tls S) where
  write_progress-falls :
      (ret : ℤ) (info : DataInfo)
      → info.data_remain < 65536
      → Progressed info (write_progress tls ret info).0
  unfolding write_progress
  write_progress-falls (pos n) info h = ground arith
  write_progress-falls (negsuc n) info h = ground arith

  read_progress-falls :
      (ret : ℤ) (info : DataInfo)
      → info.data_remain < 65536
      → Progressed info (read_progress tls ret info).0
  unfolding read_progress
  read_progress-falls (pos n) info h = ground arith
  read_progress-falls (negsuc n) info h = ground arith

  after_write-IsReady :
      (m : Machine S) (done : Bool) → IsReady m.handle → IsReady (after_write (m, done)).handle
  unfolding after_write
  after_write-IsReady m done v = ground arith

  after_read-IsReady :
      (m : Machine S) (done : Bool) → IsReady m.handle → IsReady (after_read (m, done)).handle
  unfolding after_read
  after_read-IsReady m done v = ground arith

  write-IsReady :
      (m : Machine S)
      → IsReady m.handle
      → Succeeds IsReadyMachine (write_handler tls m >>= λ r. some (after_write r))
  unfolding write_handler
  write-IsReady m v =
      rw (slice-eq h.buffer (buf_idx h.info) h.info.data_remain (omega (arith, v))) (
        after_write-IsReady _ _
          (progress-IsReady h h.buffer _ v refl (write_progress-falls _ h.info (omega (arith, v)))))
    where
      open m use {handle as h}

  module _ {sent : S → List ℕ} (law : IsTls tls sent) where
    -- A read gives at most the bytes that were asked for.
    ssl_read_data-length : (o : Option S) (max : ℕ) → length (ssl_read_data tls o max).2 ≤ max
    unfolding ssl_read_data
    ssl_read_data-length none max = omega arith
    ssl_read_data-length (some s) max = elim (ℤ-cases (tls.read s max).1) [
      | inl (n, e) ↦ rw e (ground (arith, law.read_le s max n e, law.read_length s max n e))
      | inr (n, e) ↦ rw e (omega arith)
    ]

    read-IsReady :
        (m : Machine S)
        → IsReady m.handle
        → Succeeds IsReadyMachine (read_handler tls m >>= λ r. some (after_read r))
    unfolding read_handler
    read-IsReady m v =
        let (c, e) = stored in
        rw e (
          after_read-IsReady _ _ (
            progress-IsReady h c.bytes _ v (copy-length _ _ c e)
              (read_progress-falls _ h.info (omega (arith, v)))))
      where
        open m use {handle as h}

        got : List ℕ
        got = (ssl_read_data tls m.ssl_handle h.info.data_remain).2

        at : Cursor
        at = record { bytes = h.buffer; offset = buf_idx h.info }

        stored : (c : Cursor) × (copy got at ≡ some c)
        stored =
            copy_fits got at
              (omega (arith, v, ssl_read_data-length m.ssl_handle h.info.data_remain))

    pub dispatch-IsReady :
        (s : MqttState) (b : Bool) (m : Machine S)
        → IsReady m.handle
        → Succeeds IsReadyMachine (dispatch tls s b m)
    unfolding dispatch
    dispatch-IsReady connect b m v = connect-IsReady m v
    dispatch-IsReady connack b m v = connack-IsReady m v
    dispatch-IsReady ping_req b m v = ping_req-IsReady b m v
    dispatch-IsReady ping_resp b m v = ping_resp-IsReady m v
    dispatch-IsReady publish b m v = publish-IsReady m v
    dispatch-IsReady puback b m v = puback-IsReady m v
    dispatch-IsReady write b m v = write-IsReady m v
    dispatch-IsReady read b m v = read-IsReady m v

-- Whatever the state and whatever the TLS library answers, a step from a ready client accesses no
-- array out of bounds, in particular not the buffer of 1500 bytes, and leaves the client ready.
pub app-IsReady :
    {S : Type 0} (tls : Tls S) (sent : S → List ℕ) (is_write : Bool) (m : Machine S)
    → IsTls tls sent
    → IsReady m.handle
    → (m' : Machine S) × (app tls is_write m ≡ some m') × IsReady m'.handle
unfolding app
app-IsReady tls sent is_write m law v =
    Succeeds-some IsReadyMachine (dispatch tls m.handle.state is_write m)
      (dispatch-IsReady tls law m.handle.state is_write m v)
