-- ===== src/Mqtt/App/Answers.antt =====
-- The transition diagram of MqttHandle_App, and the cases of its switch that follow it by an answer.
use zybo_z.Common.{
  subst, sym, Option, none, ◌≡◌, ◌⊎◌, refl, true, false, Bool, some, arith, [], ◌∷◌, take,
}
use zybo_z.Mqtt.Types.{
  MqttState, connect, connack, ping_req, ping_resp, publish, puback, write, read, Handle,
  PublishCfg,
}
use zybo_z.Mqtt.Packet.{connack_received, puback_received, ping_resp_received}
use zybo_z.Mqtt.Packet.Ack.{
  puback_packet, connack_received-true, puback_received-true, ping_resp_received-true,
  connack_received-false, puback_received-false, ping_resp_received-false,
}
use zybo_z.Mqtt.Transfer.{Machine}
use zybo_z.Mqtt.App.{on_connack, on_ping_req, on_ping_resp, on_puback}

-- The answers that end an exchange: to CONNECT one that starts with the bytes 20 02 00, to a ping a PINGRESP of
-- two bytes, and to a publication the PUBACK of its packet id, or anything if its QoS is 0.
abbrev pub ConnectAccepted : Handle → Type 0
ConnectAccepted h = take 3 h.buffer ≡ 0x20 ∷ 2 ∷ 0 ∷ []

abbrev pub PingAccepted : Handle → Type 0
PingAccepted h = (h.info.data_read ≡ 2) × (take 2 h.buffer ≡ 0xd0 ∷ 0 ∷ [])

abbrev pub PublishAccepted : Handle → Type 0
PublishAccepted h =
    (h.publish_cfg.type ≡ 0x30) ⊎ (take 4 h.buffer ≡ puback_packet h.publish_cfg.packet_id)

-- The diagram of a step from this client, on a call that wants to write or not.
pub data Edge (h : Handle) (is_write : Bool) : MqttState → MqttState → Type 0 where
  send_connect : Edge h is_write connect write
  accept_connect : ConnectAccepted h → Edge h is_write connack ping_req
  refuse_connect : ¬ ConnectAccepted h → Edge h is_write connack connect
  want_publish : is_write ≡ true → Edge h is_write ping_req publish
  send_ping : is_write ≡ false → Edge h is_write ping_req write
  accept_ping : PingAccepted h → Edge h is_write ping_resp ping_req
  refuse_ping : ¬ PingAccepted h → Edge h is_write ping_resp connect
  send_publish : Edge h is_write publish write
  accept_publish : PublishAccepted h → Edge h is_write puback ping_req
  refuse_publish : ¬ PublishAccepted h → Edge h is_write puback connect
  go_on_writing : Edge h is_write write write
  written : Edge h is_write write read
  go_on_reading : Edge h is_write read read
  answered : Edge h is_write read h.next_state

module _ {S : Type 0} where
  -- A step that ends in this state.
  ends_in :
      (h : Handle) (b : Bool) (s t : MqttState) (m' : Machine S)
      → m'.handle.state ≡ t
      → Edge h b s t
      → Edge h b s m'.handle.state
  ends_in h b s t m' e edge = subst (Edge h b s) (sym e) edge

  pub connack-Edge :
      (b : Bool) (m m' : Machine S)
      → on_connack m ≡ some m'
      → Edge m.handle b connack m'.handle.state
  unfolding on_connack
  connack-Edge b m m' e = by_answer (connack_received m.handle.buffer) refl
    where
      by_answer :
          (o : Option Bool)
          → connack_received m.handle.buffer ≡ o
          → Edge m.handle b connack m'.handle.state
      by_answer none n = cc (rw n at e)
      by_answer (some true) n =
          ends_in m.handle b connack ping_req m' (ground (arith, rw n at e))
            (accept_connect (connack_received-true m.handle.buffer n))
      by_answer (some false) n =
          ends_in m.handle b connack connect m' (ground (arith, rw n at e))
            (refuse_connect (connack_received-false m.handle.buffer n))

  pub ping_req-Edge :
      (b : Bool) (m m' : Machine S)
      → on_ping_req b m ≡ some m'
      → Edge m.handle b ping_req m'.handle.state
  unfolding on_ping_req
  ping_req-Edge true m m' e =
      ends_in m.handle true ping_req publish m' (ground arith) (want_publish refl)
  ping_req-Edge false m m' e =
      ends_in m.handle false ping_req write m' (ground arith) (send_ping refl)

  pub ping_resp-Edge :
      (b : Bool) (m m' : Machine S)
      → on_ping_resp m ≡ some m'
      → Edge m.handle b ping_resp m'.handle.state
  unfolding on_ping_resp
  ping_resp-Edge b m m' e = by_answer (ping_resp_received h.buffer h.info.data_read) refl
    where
      open m use {handle as h}

      by_answer :
          (o : Option Bool)
          → ping_resp_received h.buffer h.info.data_read ≡ o
          → Edge h b ping_resp m'.handle.state
      by_answer none n = cc (rw n at e)
      by_answer (some true) n =
          ends_in h b ping_resp ping_req m' (ground (arith, rw n at e))
            (accept_ping (ping_resp_received-true h.buffer h.info.data_read n))
      by_answer (some false) n =
          ends_in h b ping_resp connect m' (ground (arith, rw n at e))
            (refuse_ping (ping_resp_received-false h.buffer h.info.data_read n))

  pub puback-Edge :
      (b : Bool) (m m' : Machine S) → on_puback m ≡ some m' → Edge m.handle b puback m'.handle.state
  unfolding on_puback
  puback-Edge b m m' e = by_answer (puback_received h.publish_cfg h.buffer) refl
    where
      open m use {handle as h}

      by_answer :
          (o : Option (PublishCfg × Bool))
          → puback_received h.publish_cfg h.buffer ≡ o
          → Edge h b puback m'.handle.state
      by_answer none n = cc (rw n at e)
      by_answer (some (next, true)) n =
          ends_in h b puback ping_req m' (ground (arith, rw n at e))
            (accept_publish (puback_received-true h.publish_cfg next h.buffer n))
      by_answer (some (next, false)) n =
          ends_in h b puback connect m' (ground (arith, rw n at e))
            (refuse_publish (puback_received-false h.publish_cfg next h.buffer n))
