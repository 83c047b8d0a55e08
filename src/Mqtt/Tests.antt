-- ===== src/Mqtt/Tests.antt =====
-- Runs of the MQTT client, and its theorems at concrete inputs.
use zybo_z.Common.{
  ℕ, Bool, ◌<◌, ◌+◌, ◌/◌, ◌%◌, ◌≤◌, ◌≡◌, ◌↔◌, ◌⊎◌, refl, true, false, none, some, List, [], ◌∷◌,
  length, take, drop, arith,
}
use zybo_z.Mqtt.Types.{
  read, sending, connack, ping_req, publish, puback, idle, init, Handle, Payload, PublishCfg,
}
use zybo_z.Mqtt.Memory.{Cursor, start}
use zybo_z.Mqtt.Packet.{
  connect_create_message, publish_create_packet, store_length, puback_received, connack_received,
}
use zybo_z.Mqtt.Packet.Length.{decode_length, store_length-decode}
use zybo_z.Mqtt.Packet.Layout.{
  IsPublication, connect_packet, publish_packet, put_packet, put_packet_with,
  connect_create_message_lem, publish_create_packet_lem,
}
use zybo_z.Mqtt.Packet.Parse.{parse_connect, parse_connect-connect_create_message}
use zybo_z.Mqtt.Packet.Ack.{puback_received_iff}
use zybo_z.Mqtt.Payload.{append_payload, reset_payload, credential}
use zybo_z.Mqtt.Payload.Text.{append_payload-reset, append_payload_overflow}
use zybo_z.Mqtt.Transfer.{Machine}
use zybo_z.Mqtt.App.{app, dispatch}
use zybo_z.Mqtt.App.Safety.{IsReady, app-IsReady}
use zybo_z.Mqtt.App.Delivery.{InFlight, AfterWrite, app-InFlight}
use zybo_z.Mqtt.App.Receipt.{AfterRead, app-InReceipt}
use zybo_z.Mqtt.App.Progress.{Delivers, write-Delivers}
use zybo_z.Mqtt.App.Answers.{Edge}
use zybo_z.Mqtt.App.Graph.{Accepts, app-Edge, app-idle}
use zybo_z.Mqtt.App.Counters.{SameCounters, app-SameCounters}
use zybo_z.Mqtt.Fixtures.{
  in_threes, in_threes-IsTls, in_threes-IsEager, zeros, topic, name, name-IsCredential, writing,
  writing-IsReady, in_state-IsReady, giving, giving-IsTls, giving-IsSource,
}

abbrev machine : Handle → List ℕ → Machine (List ℕ)
machine h s = record { handle = h; ssl_handle = some s }

app-IsReady_example :
    (m' : Machine (List ℕ)) × (app in_threes true (machine (record writing { state = publish }) [])
      ≡ some m')
    × IsReady m'.handle
app-IsReady_example =
    app-IsReady in_threes (λ s. s) true (machine (record writing { state = publish }) [])
      in_threes-IsTls (in_state-IsReady publish puback sending)

in_flight : InFlight in_threes (λ s. s) [] writing []
in_flight = record { phase = refl; left = omega arith; sent_so_far = refl }

app-InFlight_example :
    (m : Machine (List ℕ)) × (app in_threes true (machine writing []) ≡ some m)
    × AfterWrite in_threes (λ s. s) [] ◌≤◌ writing m
    × IsReady m.handle
app-InFlight_example =
    app-InFlight in_threes (λ s. s) [] true writing [] in_threes-IsTls writing-IsReady in_flight

write-Delivers_example :
    Delivers in_threes (λ s. s) [] (true ∷ true ∷ false ∷ false ∷ true ∷ []) writing []
write-Delivers_example =
    write-Delivers in_threes (λ s. s) [] (true ∷ true ∷ false ∷ false ∷ true ∷ []) writing []
      in_threes-IsTls in_threes-IsEager writing-IsReady in_flight (omega arith)

-- A client that has just read an accepting CONNACK.
abbrev acknowledged : Handle
acknowledged = record writing { state = connack; data_state = init; buffer = 0x20 ∷ 2 ∷ 0 ∷ 0 ∷ [] }

app-Edge_example : Edge acknowledged true connack ping_req
app-Edge_example =
    app-Edge in_threes true (machine acknowledged [])
      (machine (record acknowledged { state = ping_req; data_state = idle }) [])
      (unfold app dispatch connack_received in refl)

app-idle_example : Accepts connack acknowledged
app-idle_example =
    app-idle in_threes true (machine acknowledged [])
      (machine (record acknowledged { state = ping_req; data_state = idle }) []) (ground arith)
      (unfold app dispatch connack_received in refl) refl

app-SameCounters_example : SameCounters acknowledged.info acknowledged.info
app-SameCounters_example =
    app-SameCounters in_threes true (machine acknowledged [])
      (machine (record acknowledged { state = ping_req; data_state = idle }) []) (omega arith)
      (omega arith) (unfold app dispatch connack_received in refl)

connect_create_message_example :
    connect_create_message (credential name) (credential name) (credential name) (zeros 40)
    ≡ put_packet (connect_packet (credential name) (credential name) (credential name)) (zeros 40)
connect_create_message_example =
    connect_create_message_lem (credential name) (credential name) (credential name) (zeros 40)
      name-IsCredential name-IsCredential name-IsCredential

parse_connect-connect_create_message_example :
    (buf' : List ℕ) × (n : ℕ) × (connect_create_message
        (credential name)
        (credential name)
        (credential name)
        (zeros 80)
      ≡ some (buf', n))
    × (parse_connect (take n buf')
        ≡ some (
          b'M' ∷ b'Q' ∷ b'T' ∷ b'T' ∷ [],
          4,
          0xc2,
          60,
          (credential name).name,
          (credential name).name,
          (credential name).name,
        ))
unfolding credential
parse_connect-connect_create_message_example =
    parse_connect-connect_create_message (credential name) (credential name) (credential name)
      (zeros 80) name-IsCredential name-IsCredential name-IsCredential (omega arith)

abbrev cfg : PublishCfg
cfg = record { type = 0x32; packet_id = 513; payload_size = 0 }

abbrev payload : Payload
payload = record { bytes = b'4' ∷ b'2' ∷ zeros 126; size = 2 }

publication : IsPublication cfg payload topic
publication = record {
  payload_there = omega arith;
  payload_small = omega arith;
  topic_small = omega arith;
  id_small = omega arith;
}

publish_create_packet_example :
    publish_create_packet cfg payload topic 3 (zeros 20)
    ≡ put_packet_with
        (record cfg { payload_size = 2 })
        (publish_packet cfg payload topic)
        (zeros 20)
publish_create_packet_example = publish_create_packet_lem cfg payload topic publication (zeros 20)

store_length-decode_example :
    (c : Cursor) × (store_length 321 (start (zeros 6)) ≡ some (c, c.offset))
    × (c.offset ≤ 4)
    × (decode_length 4 c.bytes ≡ some (321, drop c.offset (zeros 6)))
store_length-decode_example = store_length-decode 321 (zeros 6) (omega arith) (omega arith)

puback_received_example :
    let next = record cfg { packet_id = (513 + 1) % 65536 } in
    let buf : List ℕ = 0x40 ∷ 2 ∷ 2 ∷ 1 ∷ [] in
    let answer : List ℕ = 0x40 ∷ 2 ∷ (513 / 256) ∷ (513 % 256) ∷ [] in
    ((puback_received cfg buf ≡ some (next, true)) ↔ (take 4 buf ≡ answer))
    × (((puback_received cfg buf ≡ none) × (length buf < 4))
        ⊎ ((b : Bool) × (puback_received cfg buf ≡ some (next, b))))
puback_received_example =
    puback_received_iff cfg (0x40 ∷ 2 ∷ 2 ∷ 1 ∷ []) (omega arith) (omega arith)

append_payload-reset_example :
    (q : Payload) × (append_payload (b'1' ∷ b'.' ∷ b'5' ∷ []) (reset_payload payload) ≡ some q)
    × (take q.size q.bytes ≡ b'1' ∷ b'.' ∷ b'5' ∷ [])
    × (q.size ≡ 3)
    × (length q.bytes ≡ 128)
append_payload-reset_example =
    append_payload-reset (b'1' ∷ b'.' ∷ b'5' ∷ []) payload refl (omega arith)

append_payload_overflow_example :
    append_payload (b'1' ∷ b'.' ∷ b'5' ∷ []) (record { bytes = zeros 128; size = 126 }) ≡ none
append_payload_overflow_example =
    append_payload_overflow (b'1' ∷ b'.' ∷ b'5' ∷ []) (record { bytes = zeros 128; size = 126 })
      refl (omega arith) (omega arith) (omega arith)

-- Two of the four bytes of an answer have come.
abbrev halfway : Handle
halfway = record writing {
  state = read;
  buffer = 0x40 ∷ 2 ∷ zeros 1498;
  info = record { data_read = 4; data_remain = 2; data_size = 4; write_fail = 0; read_fail = 0 };
}

halfway-IsReady : IsReady halfway
halfway-IsReady = record {
  buffer_len = refl;
  remain_le = omega arith;
  size_le = omega arith;
  read_le = omega arith;
  client_ok = writing-IsReady.client_ok;
  user_ok = writing-IsReady.user_ok;
  pass_ok = writing-IsReady.pass_ok;
  connect_fits = writing-IsReady.connect_fits;
  payload_len = writing-IsReady.payload_len;
  payload_le = writing-IsReady.payload_le;
  topic_le = writing-IsReady.topic_le;
  id_small = writing-IsReady.id_small;
}

app-InReceipt_example :
    (m : Machine (List ℕ)) × (app giving false (machine halfway (0x40 ∷ 2 ∷ [])) ≡ some m)
    × AfterRead giving (λ s. s) [] halfway m
    × IsReady m.handle
app-InReceipt_example =
    app-InReceipt giving (λ s. []) (λ s. s) [] false halfway (0x40 ∷ 2 ∷ []) giving-IsTls
      giving-IsSource halfway-IsReady
      (record { phase = refl; left = omega arith; received_so_far = refl })
