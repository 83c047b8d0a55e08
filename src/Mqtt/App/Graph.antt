-- ===== src/Mqtt/App/Graph.antt =====
-- MqttHandle_App follows the diagram of App.Answers, and when the client reports that it is idle.
use zybo_z.Common.{
  Option, none, Option-cases, inl, inr, ◌≡◌, ◌≢◌, ◌⊎◌, refl, true, false, Bool, some, arith, [],
  ◌∷◌, take,
}
use zybo_z.Mqtt.Types.{
  MqttState, connect, connack, ping_req, ping_resp, publish, puback, write, read, idle, Handle,
  PublishCfg,
}
use zybo_z.Mqtt.Packet.{connack_received, puback_received}
use zybo_z.Mqtt.Packet.Ack.{puback_packet, connack_received-true, puback_received-true}
use zybo_z.Mqtt.Tls.{Tls}
use zybo_z.Mqtt.Transfer.{Machine, write_handler, read_handler}
use zybo_z.Mqtt.App.Answers.{
  Edge, ConnectAccepted, PublishAccepted, send_connect, send_publish, go_on_writing, written,
  go_on_reading, answered, connack-Edge, ping_req-Edge, ping_resp-Edge, puback-Edge,
}
use zybo_z.Mqtt.App.{app, dispatch, on_connack, on_puback}

ruleset edges = (send_connect, send_publish, go_on_writing, written, go_on_reading, answered)

-- In this state the client has an answer that ends its exchange.
unfoldable pub Accepts : MqttState → Handle → Type 0
Accepts s h = ((s ≡ connack) × ConnectAccepted h) ⊎ ((s ≡ puback) × PublishAccepted h)

module _ {S : Type 0} (tls : Tls S) where
  -- A transfer leaves the protocol's states alone.
  pub write_handler-states :
      (m : Machine S) (r : Machine S × Bool)
      → write_handler tls m ≡ some r
      → (r.0.handle.state ≡ m.handle.state)
        × (r.0.handle.next_state ≡ m.handle.next_state)
        × (r.0.handle.data_state ≡ m.handle.data_state)
  unfolding write_handler
  write_handler-states m r e = ground arith

  pub read_handler-states :
      (m : Machine S) (r : Machine S × Bool)
      → read_handler tls m ≡ some r
      → (r.0.handle.state ≡ m.handle.state)
        × (r.0.handle.next_state ≡ m.handle.next_state)
        × (r.0.handle.data_state ≡ m.handle.data_state)
  unfolding read_handler
  read_handler-states m r e = ground arith

  dispatch-Edge :
      (s : MqttState) (b : Bool) (m m' : Machine S)
      → m.handle.state ≡ s
      → dispatch tls s b m ≡ some m'
      → Edge m.handle b s m'.handle.state
  unfolding dispatch
  dispatch-Edge connect b m m' q e = grind (arith, edges)
  dispatch-Edge write b m m' q e = grind (arith, edges, write_handler-states)
  dispatch-Edge read b m m' q e = grind (arith, edges, read_handler-states)
  dispatch-Edge connack b m m' q e = connack-Edge b m m' e
  dispatch-Edge ping_req b m m' q e = ping_req-Edge b m m' e
  dispatch-Edge ping_resp b m m' q e = ping_resp-Edge b m m' e
  dispatch-Edge puback b m m' q e = puback-Edge b m m' e
  dispatch-Edge publish b m m' q e = grind (arith, edges)

  connack-idle :
      (m m' : Machine S)
      → m.handle.data_state ≢ idle
      → on_connack m ≡ some m'
      → m'.handle.data_state ≡ idle
      → take 3 m.handle.buffer ≡ 0x20 ∷ 2 ∷ 0 ∷ []
  unfolding on_connack
  connack-idle m m' q e i =
      connack_received-true m.handle.buffer (by_answer (connack_received m.handle.buffer) refl)
    where
      by_answer :
          (o : Option Bool)
          → connack_received m.handle.buffer ≡ o
          → connack_received m.handle.buffer ≡ some true
      by_answer none n = cc (rw n at e)
      by_answer (some true) n = n
      by_answer (some false) n = ground (arith, rw n at e)

  puback-idle :
      (m m' : Machine S)
      → m.handle.data_state ≢ idle
      → on_puback m ≡ some m'
      → m'.handle.data_state ≡ idle
      → (m.handle.publish_cfg.type ≡ 0x30)
        ⊎ (take 4 m.handle.buffer ≡ puback_packet m.handle.publish_cfg.packet_id)
  unfolding on_puback
  puback-idle m m' q e i = by_answer (puback_received h.publish_cfg h.buffer) refl
    where
      open m use {handle as h}

      by_answer :
          (o : Option (PublishCfg × Bool))
          → puback_received h.publish_cfg h.buffer ≡ o
          → (h.publish_cfg.type ≡ 0x30) ⊎ (take 4 h.buffer ≡ puback_packet h.publish_cfg.packet_id)
      by_answer none n = cc (rw n at e)
      by_answer (some (next, true)) n = puback_received-true h.publish_cfg next h.buffer n
      by_answer (some (next, false)) n = ground (arith, rw n at e)

  dispatch-idle :
      (s : MqttState) (b : Bool) (m m' : Machine S)
      → m.handle.data_state ≢ idle
      → dispatch tls s b m ≡ some m'
      → m'.handle.data_state ≡ idle
      → Accepts s m.handle
  unfolding dispatch Accepts
  dispatch-idle write b m m' q e i = elim (Option-cases (write_handler tls m)) [
    | inl n ↦ cc (rw n at e)
    | inr (r, n) ↦ ground (arith, write_handler-states m r n)
  ]
  dispatch-idle read b m m' q e i = elim (Option-cases (read_handler tls m)) [
    | inl n ↦ cc (rw n at e)
    | inr (r, n) ↦ ground (arith, read_handler-states m r n)
  ]
  dispatch-idle connack b m m' q e i = inl (refl, connack-idle m m' q e i)
  dispatch-idle puback b m m' q e i = inr (refl, puback-idle m m' q e i)
  dispatch-idle s b m m' q e i = ground arith

-- Every step of MqttHandle_App follows an edge of the diagram, whatever the TLS library answers: an answer is
-- taken exactly when it is the one that its state waits for, and otherwise the client connects again, and
-- without a request to write the client pings.
pub app-Edge :
    {S : Type 0} (tls : Tls S) (is_write : Bool) (m m' : Machine S)
    → app tls is_write m ≡ some m'
    → Edge m.handle is_write m.handle.state m'.handle.state
unfolding app
app-Edge tls is_write m m' e = dispatch-Edge tls m.handle.state is_write m m' refl e

-- A step by which the client starts to report that it is idle is taken in CONNACK on an answer that starts
-- with 20 02 00, whatever its return code in the fourth byte, or in PUBACK on the PUBACK of the last packet's id,
-- or on any answer if the publication has QoS 0.
pub app-idle :
    {S : Type 0} (tls : Tls S) (is_write : Bool) (m m' : Machine S)
    → m.handle.data_state ≢ idle
    → app tls is_write m ≡ some m'
    → m'.handle.data_state ≡ idle
    → Accepts m.handle.state m.handle
unfolding app
app-idle tls is_write m m' q e i = dispatch-idle tls m.handle.state is_write m m' q e i
