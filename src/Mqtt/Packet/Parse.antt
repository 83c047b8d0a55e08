-- ===== src/Mqtt/Packet/Parse.antt =====
-- A parser of CONNECT and PUBLISH packets, as the protocol describes them (MQTT 3.1.1, sections 2.2,
-- 3.1 and 3.3), and what it reads in the packets that MqttHandle.c builds.
use zybo_z.Common.{
  ℕ, ◌+◌, ◌*◌, ◌/◌, ◌%◌, ◌^◌, ◌<◌, ◌≡◌, Option, none, some, List, [], ◌∷◌, ◌++◌, ◌>>=◌, length,
  take, drop, arith, ap, length-append, leb, if◌then◌else◌, ◌==◌, take-append, drop-append, le→leb,
  true, ◌≤◌, ◌∙◌, refl,
}
use zybo_z.Mqtt.Types.{Credential, connect_header}
use zybo_z.Mqtt.Memory.{overwrite}
use zybo_z.Mqtt.Packet.{connect_create_message}
use zybo_z.Mqtt.Packet.Length.{
  length_bytes_enough, length_bytes, length-length_bytes, decode_length, decode_length-length_bytes,
}
use zybo_z.Mqtt.Packet.Layout.{
  IsCredential, connect_body_len, connect_packet, length-connect_packet, connect_create_message_lem,
}

-- A string with its length in two bytes before it.
unfoldable pub parse_string : List ℕ → Option (List ℕ × List ℕ)
parse_string [] = none
parse_string (hi ∷ []) = none
parse_string (hi ∷ lo ∷ bs) =
    let n = hi * 256 + lo in if leb n (length bs) then some (take n bs, drop n bs) else none

unfoldable pub parse_u16 : List ℕ → Option (ℕ × List ℕ)
parse_u16 [] = none
parse_u16 (hi ∷ []) = none
parse_u16 (hi ∷ lo ∷ bs) = some (hi * 256 + lo, bs)

-- The type byte and the body, which has exactly the length that the header gives.
unfoldable pub parse_fixed : List ℕ → Option (ℕ × List ℕ)
parse_fixed [] = none
parse_fixed (type ∷ bs) = do
  (n, body) ← decode_length 4 bs
  if n == length body then some (type, body) else none

-- A PUBLISH packet: its type byte, topic, packet id and payload.
unfoldable pub parse_publish : List ℕ → Option (ℕ × List ℕ × ℕ × List ℕ)
parse_publish bs = do
  (type, body) ← parse_fixed bs
  (topic, rest) ← parse_string body
  (id, payload) ← parse_u16 rest
  some (type, topic, id, payload)

-- A CONNECT packet with a user name and a password: the protocol's name, its level, the flags, the
-- keep-alive time, and the three strings.
unfoldable pub parse_connect : List ℕ → Option (List ℕ × ℕ × ℕ × ℕ × List ℕ × List ℕ × List ℕ)
parse_connect bs = do
  (type, body) ← parse_fixed bs
  (protocol, rest) ← parse_string body
  (level_flags, rest) ← parse_u16 rest
  (keep_alive, rest) ← parse_u16 rest
  (client, rest) ← parse_string rest
  (user, rest) ← parse_string rest
  (pass, rest) ← parse_string rest
  if (type == 0x10)
      then some (protocol, level_flags / 256, level_flags % 256, keep_alive, client, user, pass)
      else none

==_self : (n : ℕ) → (n == n) ≡ true
==_self n = ground arith

parse_fixed-packet :
    (type : ℕ) (body : List ℕ)
    → length body < 128 ^ 4
    → parse_fixed (type ∷ length_bytes 4 (length body) ++ body) ≡ some (type, body)
unfolding parse_fixed
parse_fixed-packet type body h = rw (
  length_bytes_enough 3 (length body) h,
  decode_length-length_bytes 3 (length body) body h,
  ==_self (length body),
)

parse_string-append :
    (s rest : List ℕ)
    → parse_string ((length s / 256) ∷ (length s % 256) ∷ (s ++ rest)) ≡ some (s, rest)
unfolding parse_string
parse_string-append s rest = rw (number (length s)) (
    rw (
      le→leb (length s) (length (s ++ rest)) (omega (arith, length-append s rest)),
      take-append s rest,
      drop-append s rest,
    ))
  where
    number : (n : ℕ) → n / 256 * 256 + n % 256 ≡ n
    number n = omega arith

parse_credential :
    (c : Credential) (rest : List ℕ)
    → IsCredential c
    → parse_string (c.size ++ (c.name ++ rest)) ≡ some (c.name, rest)
parse_credential c rest h = rw (h.size_bytes, h.exact) (parse_string-append c.name rest)

parse_connect-packet :
    (client user pass : Credential)
    → IsCredential client
    → IsCredential user
    → IsCredential pass
    → parse_connect (connect_packet client user pass)
      ≡ some (b'M' ∷ b'Q' ∷ b'T' ∷ b'T' ∷ [], 4, 0xc2, 60, client.name, user.name, pass.name)
unfolding parse_connect connect_packet parse_u16
parse_connect-packet client user pass hc hu hp = rw (body_len) (
    rw (parse_fixed-packet 0x10 body (omega (arith, body_len, hc, hu, hp))) (
      rw (parse_string-append connect_header.protocol_name _) (
        rw (parse_credential client _ hc)
          (rw (parse_credential user _ hu) (rw (parse_credential pass _ hp))))))
  where
    tail : List ℕ
    tail =
        client.size
        ++ (client.name ++ (user.size ++ (user.name ++ (pass.size ++ (pass.name ++ [])))))

    body : List ℕ
    body = 0 ∷ 4 ∷ b'M' ∷ b'Q' ∷ b'T' ∷ b'T' ∷ 4 ∷ 0xc2 ∷ 0 ∷ 0x3c ∷ tail

    body_len : connect_body_len client user pass ≡ length body
    body_len = simp length-append (
        omega (
          arith,
          hc,
          hu,
          hp,
          ap length hc.size_bytes,
          ap length hu.size_bytes,
          ap length hp.size_bytes,
        ))

-- The front of the buffer behind a packet that has been written over it.
take-overwrite : (packet buf : List ℕ) → take (length packet) (overwrite packet buf) ≡ packet
take-overwrite packet buf = take-append packet (drop (length packet) buf)

-- For names of less than 64 KiB and into a buffer with room for it, SSL_Mqtt_Connect_CreateMessage writes a
-- packet of the length that it returns. A broker that parses that many bytes of the buffer gets the protocol MQTT at level 4, the
-- flags for a clean session with user name and password, 60 seconds, and the three names.
pub parse_connect-connect_create_message :
    (client user pass : Credential) (buf : List ℕ)
    → IsCredential client
    → IsCredential user
    → IsCredential pass
    → client.actl_size + user.actl_size + pass.actl_size + 22 ≤ length buf
    → (buf' : List ℕ) × (n : ℕ) × (connect_create_message client user pass buf ≡ some (buf', n))
      × (parse_connect (take n buf')
          ≡ some (b'M' ∷ b'Q' ∷ b'T' ∷ b'T' ∷ [], 4, 0xc2, 60, client.name, user.name, pass.name))
parse_connect-connect_create_message client user pass buf hc hu hp room =
    let packet = connect_packet client user pass in
    let fits : length packet ≤ length buf = omega (
      arith,
      length-connect_packet client user pass hc hu hp,
      length-length_bytes 4 (connect_body_len client user pass),
    ) in
    (
      overwrite packet buf,
      length packet,
      connect_create_message_lem client user pass buf hc hu hp ∙ rw (le→leb _ _ fits) refl,
      ap parse_connect (take-overwrite packet buf) ∙ parse_connect-packet client user pass hc hu hp,
    )
