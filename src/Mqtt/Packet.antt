-- ===== src/Mqtt/Packet.antt =====
-- MqttHandle.c: the functions that write a packet into the buffer, and those that judge an answer.
pub mod Length
pub mod Layout
pub mod Parse
pub mod Ack
use mathlib.Core.Logic.{dite}
use mathlib.Core.WellFounded.{Acc}
use native.Mathlib.Decide.{dec_lt}
use zybo_z.Common.{
  ℕ, ◌+◌, ◌/◌, ◌%◌, ◌<◌, bit_and, bit_or, Bool, true, false, not, Option, none, some, List, [], ◌∷◌,
  ◌==◌, if◌then◌else◌, ◌>>=◌, u8, u16, u32, shr, arith,
}
use zybo_z.Common.Order.{lt_wf}
use zybo_z.Mqtt.Types.{
  Credential, Payload, PublishCfg, connect_header, connect_header_default_len, connack_type,
  publish_type_qos0, puback_type, ping_req_type, ping_resp_type,
}
use zybo_z.Mqtt.Memory.{Cursor, start, store, memcpy}

pub div_shrinks : (x : ℕ) → 0 < x / 128 → x / 128 < x
div_shrinks x h = omega arith

-- The do-while loop that writes the remaining length, seven bits a byte, and counts the bytes. It
-- goes on while what is left of `x` is not 0.
unfoldable pub length_loop : (x count : ℕ) → Acc ◌<◌ x → Cursor → Option (Cursor × ℕ)
length_loop x count (Acc.intro _ smaller) c =
    let encoded = u8 (x % 128) in
    dite (dec_lt 0 (x / 128))
      (λ more. store (bit_or encoded 0x80) c >>= λ c'.
        length_loop (x / 128) (u8 (count + 1)) (smaller (x / 128) (div_shrinks x more)) c')
      (λ _. store encoded c >>= λ c'. some (c', u8 (count + 1)))

unfoldable pub store_length : ℕ → Cursor → Option (Cursor × ℕ)
unfolding length_loop lt_wf dec_lt
store_length x c = length_loop x 0 (lt_wf.apply x) c

-- SSL_Mqtt_Connect_CreateMessage: the buffer with the packet, and the packet's length.
unfoldable pub connect_create_message :
    Credential → Credential → Credential → List ℕ → Option (List ℕ × ℕ)
connect_create_message client user pass buf = do
  let len_prv =
      u32 (
        connect_header_default_len + client.actl_size + 2 + user.actl_size + 2 + pass.actl_size + 2)
  c ← store connect_header.type (start buf)
  (c, length_bytes_num) ← store_length len_prv c
  c ← memcpy connect_header.protocol_name_length 2 c
  c ← memcpy connect_header.protocol_name 4 c
  c ← store connect_header.protocol_level c
  c ← store connect_header.connect_flags c
  c ← memcpy connect_header.keep_alive 2 c
  c ← memcpy client.size 2 c
  c ← memcpy client.name client.actl_size c
  c ← memcpy user.size 2 c
  c ← memcpy user.name user.actl_size c
  c ← memcpy pass.size 2 c
  c ← memcpy pass.name pass.actl_size c
  some (c.bytes, u32 (len_prv + (length_bytes_num + 1)))

-- A chain of && over the bytes at the front of the buffer: the first that differs ends it, and one that
-- lies outside the array is a fault.
abbrev pub starts_with : List ℕ → List ℕ → Option Bool
starts_with [] buf = some true
starts_with (b ∷ bs) [] = none
starts_with (b ∷ bs) (x ∷ buf) =
    let rest = starts_with bs buf in if x == b then rest else some false

-- SSL_Mqtt_Connack
unfoldable pub connack_received : List ℕ → Option Bool
connack_received buf = starts_with (connack_type ∷ 0x02 ∷ 0x00 ∷ []) buf

-- SSL_Mqtt_Publish_CreatePacket: the buffer, the new configuration and the packet's length.
unfoldable pub publish_create_packet :
    PublishCfg → Payload → List ℕ → ℕ → List ℕ → Option (List ℕ × PublishCfg × ℕ)
publish_create_packet old payload topic topic_len buf = do
  let cfg = record old { payload_size = payload.size }
  let len_prv = u32 (cfg.payload_size + topic_len + 2 + 2)
  c ← store cfg.type (start buf)
  (c, length_bytes_num) ← store_length len_prv c
  c ← store (u8 (shr topic_len 8)) c
  c ← store (u8 topic_len) c
  c ← memcpy topic topic_len c
  c ← store (u8 (shr cfg.packet_id 8)) c
  c ← store (u8 cfg.packet_id) c
  c ← memcpy payload.bytes cfg.payload_size c
  some (c.bytes, cfg, u32 (len_prv + (1 + length_bytes_num)))

-- SSL_Mqtt_Puback: the answer to the last packet is judged, and the packet id moves on.
unfoldable pub puback_received : PublishCfg → List ℕ → Option (PublishCfg × Bool)
puback_received cfg buf = do
  ret ←
      (if not (cfg.type == publish_type_qos0)
        then starts_with
            (puback_type ∷ 0x02 ∷ u8 (shr cfg.packet_id 8) ∷ u8 (bit_and cfg.packet_id 0x00ff) ∷ [])
            buf
        else some true)
  some (record cfg { packet_id = u16 (cfg.packet_id + 1) }, ret)

-- SSL_Mqtt_PingReq_Create
unfoldable pub ping_req_create : List ℕ → Option (List ℕ × ℕ)
ping_req_create buf = do c ← store ping_req_type (start buf); c ← store 0x00 c; some (c.bytes, 2)

-- SSL_Mqtt_PingResp_Received
unfoldable pub ping_resp_received : List ℕ → ℕ → Option Bool
ping_resp_received buf len =
    if len == 2 then starts_with (ping_resp_type ∷ 0x00 ∷ []) buf else some false
