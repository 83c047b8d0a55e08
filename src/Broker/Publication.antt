-- ===== src/Broker/Publication.antt =====
-- What one step of MqttHandle_App does to the publication of a sample.
use zybo_z.Common.{◌≡◌, inl, inr, arith, Bool, true, false, some, Option-cases}
use zybo_z.Mqtt.Types.{MqttState, publish, write, read, Handle}
use zybo_z.Mqtt.Tls.{Tls}
use zybo_z.Mqtt.Transfer.{Machine, write_handler, read_handler}
use zybo_z.Mqtt.App.{dispatch}
use zybo_z.Mqtt.App.Graph.{write_handler-states, read_handler-states}
use zybo_z.Broker.{is_sending}

abbrev pub is_publish : MqttState → Bool
is_publish publish = true
is_publish _ = false

-- What one step of MqttHandle_App does to the publication: PUBLISH turns to SENDING, and only an
-- iteration with the flag turns to PUBLISH.
abbrev pub Publication : Bool → Handle → Handle → Type 0
Publication flag h h' =
    (is_publish h'.next_state ≡ false)
    × (is_publish h.state ≡ true
        → (is_sending h'.data_state ≡ true) × (is_publish h'.state ≡ false))
    × (is_publish h.state ≡ false → is_publish h'.state ≡ true → flag ≡ true)
    × (is_publish h.state ≡ false
        → is_sending h'.data_state ≡ true
        → is_sending h.data_state ≡ true)

module _ {S : Type 0} (tls : Tls S) where
  pub dispatch-Publication :
      (s : MqttState) (b : Bool) (m m' : Machine S)
      → m.handle.state ≡ s
      → is_publish m.handle.next_state ≡ false
      → dispatch tls s b m ≡ some m'
      → Publication b m.handle m'.handle
  unfolding dispatch
  dispatch-Publication write b m m' q n e = elim (Option-cases (write_handler tls m)) [
    | inl o ↦ cc (rw o at e)
    | inr (r, o) ↦ ground (arith, write_handler-states tls m r o)
  ]
  dispatch-Publication read b m m' q n e = elim (Option-cases (read_handler tls m)) [
    | inl o ↦ cc (rw o at e)
    | inr (r, o) ↦ ground (arith, read_handler-states tls m r o)
  ]
  dispatch-Publication s b m m' q n e = ground arith
