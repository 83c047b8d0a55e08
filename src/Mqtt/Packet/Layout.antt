-- ===== src/Mqtt/Packet/Layout.antt =====
-- The packets that MqttHandle.c builds, as lists of bytes, and the functions that write them into the
-- buffer against those lists.
use zybo_z.Common.{
  ℕ, ◌+◌, ◌/◌, ◌%◌, ◌≤◌, ◌<◌, ◌≡◌, refl, Option, none, some, List, [], ◌∷◌, ◌>>=◌, length, take,
  take_all, flatten, u8, u32, shr, arith, ◌∙◌, bind_assoc, length-append, length-take, leb,
  leb-cases, inl, inr, if◌then◌else◌,
}
use zybo_z.Mqtt.Types.{Credential, Payload, PublishCfg, connect_header}
use zybo_z.Mqtt.Memory.{
  Cursor, start, copy, memcpy, store-copy, copy-flatten, memcpy-copy, overwrite, copy-start,
}
use zybo_z.Mqtt.Packet.{connect_create_message, publish_create_packet, ping_req_create}
use zybo_z.Mqtt.Packet.Length.{length_bytes, length-length_bytes, store_length_lem}

-- What MqttHandle_StackInit leaves of a name: its length, also as two bytes, high byte first.
pub record IsCredential (c : Credential) : Type 0 where
  pub size_bytes : c.size ≡ (c.actl_size / 256) ∷ (c.actl_size % 256) ∷ []
  pub exact : c.actl_size ≡ length c.name
  pub small : c.actl_size < 65536

abbrev pub connect_body_len : Credential → Credential → Credential → ℕ
connect_body_len client user pass = 16 + client.actl_size + user.actl_size + pass.actl_size

-- The parts of a CONNECT packet, in order.
abbrev pub connect_parts : Credential → Credential → Credential → List (List ℕ)
connect_parts client user pass =
    (connect_header.type ∷ [])
    ∷ length_bytes 4 (connect_body_len client user pass)
    ∷ connect_header.protocol_name_length
    ∷ connect_header.protocol_name
    ∷ (connect_header.protocol_level ∷ [])
    ∷ (connect_header.connect_flags ∷ [])
    ∷ connect_header.keep_alive
    ∷ client.size
    ∷ client.name
    ∷ user.size
    ∷ user.name
    ∷ pass.size
    ∷ pass.name
    ∷ []

unfoldable pub connect_packet : Credential → Credential → Credential → List ℕ
connect_packet client user pass = flatten (connect_parts client user pass)

memcpy_all :
    (source : List ℕ) (n : ℕ) (c : Cursor) → n ≡ length source → memcpy source n c ≡ copy source c
memcpy_all source n c h = memcpy-copy source n c (omega arith) ∙ rw h (rw (take_all source))

memcpy_size :
    (cred : Credential) (c : Cursor) → IsCredential cred → memcpy cred.size 2 c ≡ copy cred.size c
memcpy_size cred c v = memcpy_all cred.size 2 c (rw v.size_bytes refl)

length-size : (cred : Credential) → IsCredential cred → length cred.size ≡ 2
length-size cred v = rw v.size_bytes refl

module _ (client user pass : Credential) (hc : IsCredential client) (hu : IsCredential user)
    (hp : IsCredential pass) where
  -- The packet's length: what the remaining length counts, its own bytes and the type.
  pub length-connect_packet :
      length (connect_packet client user pass)
      ≡ 1
        + length (length_bytes 4 (connect_body_len client user pass))
        + connect_body_len client user pass
  unfolding connect_packet
  length-connect_packet =
      simp length-append
        (omega (arith, length-size client hc, length-size user hu, length-size pass hp, hc, hu, hp))

  pub connect-copy :
      (buf : List ℕ)
      → connect_create_message client user pass buf ≡ (
          copy (connect_packet client user pass) (start buf) >>= λ c.
          some (c.bytes, length (connect_packet client user pass)))
  unfolding connect_create_message connect_packet
  connect-copy buf =
      simp
        (
          body_len,
          store-copy,
          store_length_lem (connect_body_len client user pass) _ (omega (arith, hc, hu, hp)),
          memcpy_all connect_header.protocol_name_length 2 _ refl,
          memcpy_all connect_header.protocol_name 4 _ refl,
          memcpy_all connect_header.keep_alive 2 _ refl,
          memcpy_all client.name client.actl_size _ hc.exact,
          memcpy_all user.name user.actl_size _ hu.exact,
          memcpy_all pass.name pass.actl_size _ hp.exact,
          memcpy_size client _ hc,
          memcpy_size user _ hu,
          memcpy_size pass _ hp,
          copy-flatten,
          bind_assoc,
        )
        (rw total)
    where
      body_len :
          u32 (10 + client.actl_size + 2 + user.actl_size + 2 + pass.actl_size + 2)
          ≡ connect_body_len client user pass
      body_len = omega (arith, hc, hu, hp)

      total :
          u32 (
            connect_body_len client user pass
            + (length (length_bytes 4 (connect_body_len client user pass)) + 1))
          ≡ length (connect_packet client user pass)
      total = omega (
        arith,
        length-connect_packet,
        length-length_bytes 4 (connect_body_len client user pass),
        hc,
        hu,
        hp,
      )

-- The buffer after a packet: its front overwritten if the packet fits, a fault if not.
abbrev pub put_packet : List ℕ → List ℕ → Option (List ℕ × ℕ)
put_packet packet buf =
    if leb (length packet) (length buf) then some (overwrite packet buf, length packet) else none

copy_packet :
    (packet buf : List ℕ)
    → (copy packet (start buf) >>= λ c. some (c.bytes, length packet)) ≡ put_packet packet buf
copy_packet packet buf = elim (leb-cases (length packet) (length buf)) [
  | inl (e, _) ↦ rw (copy-start packet buf, e)
  | inr (e, _) ↦ rw (copy-start packet buf, e)
]

abbrev pub put_packet_with : PublishCfg → List ℕ → List ℕ → Option (List ℕ × PublishCfg × ℕ)
put_packet_with cfg packet buf =
    if leb (length packet) (length buf)
    then some (overwrite packet buf, cfg, length packet)
    else none

put_with :
    (packet buf : List ℕ) (cfg : PublishCfg)
    → (copy packet (start buf) >>= λ c. some (c.bytes, cfg, length packet))
      ≡ put_packet_with cfg packet buf
put_with packet buf cfg = elim (leb-cases (length packet) (length buf)) [
  | inl (e, _) ↦ rw (copy-start packet buf, e)
  | inr (e, _) ↦ rw (copy-start packet buf, e)
]

-- For names below 64 KiB the function writes the CONNECT packet over the front of the buffer and
-- returns its length, or faults exactly when the packet is longer than the buffer.
pub connect_create_message_lem :
    (client user pass : Credential) (buf : List ℕ)
    → IsCredential client
    → IsCredential user
    → IsCredential pass
    → connect_create_message client user pass buf ≡ put_packet (connect_packet client user pass) buf
connect_create_message_lem client user pass buf hc hu hp =
    connect-copy client user pass hc hu hp buf ∙ copy_packet (connect_packet client user pass) buf

ping_req-copy :
    (buf : List ℕ)
    → ping_req_create buf ≡ (copy (0xc0 ∷ 0 ∷ []) (start buf) >>= λ c. some (c.bytes, 2))
unfolding ping_req_create copy
ping_req-copy buf = simp bind_assoc

-- The function writes the two bytes of a PINGREQ over the front of the buffer, or faults exactly when
-- the buffer is shorter.
pub ping_req_create_lem : (buf : List ℕ) → ping_req_create buf ≡ put_packet (0xc0 ∷ 0 ∷ []) buf
ping_req_create_lem buf = ping_req-copy buf ∙ copy_packet (0xc0 ∷ 0 ∷ []) buf

-- A payload whose bytes are there, a topic of less than 64 KiB, and a 16-bit packet id.
pub record IsPublication (cfg : PublishCfg) (payload : Payload) (topic : List ℕ) : Type 0 where
  pub payload_there : payload.size ≤ length payload.bytes
  pub payload_small : payload.size < 65536
  pub topic_small : length topic < 65536
  pub id_small : cfg.packet_id < 65536

abbrev pub publish_body_len : Payload → List ℕ → ℕ
publish_body_len payload topic = payload.size + length topic + 4

abbrev pub publish_parts : PublishCfg → Payload → List ℕ → List (List ℕ)
publish_parts cfg payload topic =
    (cfg.type ∷ [])
    ∷ length_bytes 4 (publish_body_len payload topic)
    ∷ (length topic / 256 ∷ [])
    ∷ (length topic % 256 ∷ [])
    ∷ topic
    ∷ (cfg.packet_id / 256 ∷ [])
    ∷ (cfg.packet_id % 256 ∷ [])
    ∷ take payload.size payload.bytes
    ∷ []

unfoldable pub publish_packet : PublishCfg → Payload → List ℕ → List ℕ
publish_packet cfg payload topic = flatten (publish_parts cfg payload topic)

module _ (cfg : PublishCfg) (payload : Payload) (topic : List ℕ)
    (h : IsPublication cfg payload topic) where
  pub length-publish_packet :
      length (publish_packet cfg payload topic)
      ≡ 1
        + length (length_bytes 4 (publish_body_len payload topic))
        + publish_body_len payload topic
  unfolding publish_packet
  length-publish_packet =
      simp length-append (omega (arith, length-take payload.size payload.bytes h.payload_there))

  publish-copy :
      (buf : List ℕ)
      → publish_create_packet cfg payload topic (length topic) buf ≡ (
          copy (publish_packet cfg payload topic) (start buf) >>= λ c. some (
            c.bytes,
            record cfg { payload_size = payload.size },
            length (publish_packet cfg payload topic),
          ))
  unfolding publish_create_packet publish_packet
  publish-copy buf =
      simp
        (
          body_len,
          high (length topic) h.topic_small,
          high cfg.packet_id h.id_small,
          store-copy,
          store_length_lem (publish_body_len payload topic) _ (omega (arith, h)),
          memcpy_all topic (length topic) _ refl,
          memcpy-copy payload.bytes payload.size _ h.payload_there,
          copy-flatten,
          bind_assoc,
        )
        (rw total)
    where
      body_len : u32 (payload.size + length topic + 2 + 2) ≡ publish_body_len payload topic
      body_len = omega (arith, h)

      high : (n : ℕ) → n < 65536 → u8 (shr n 8) ≡ n / 256
      high n h = omega arith

      total :
          u32 (
            publish_body_len payload topic
            + (1 + length (length_bytes 4 (publish_body_len payload topic))))
          ≡ length (publish_packet cfg payload topic)
      total =
          omega (
            arith,
            length-publish_packet,
            length-length_bytes 4 (publish_body_len payload topic),
            h,
          )

  -- The function writes the PUBLISH packet over the front of the buffer, records the payload's size
  -- and returns the packet's length, or faults exactly when the packet is longer than the buffer.
  pub publish_create_packet_lem :
      (buf : List ℕ)
      → publish_create_packet cfg payload topic (length topic) buf
        ≡ put_packet_with
            (record cfg { payload_size = payload.size })
            (publish_packet cfg payload topic)
            buf
  publish_create_packet_lem buf =
      publish-copy buf ∙ put_with (publish_packet cfg payload topic) buf _
