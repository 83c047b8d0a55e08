-- ===== src/Mqtt/App.antt =====
-- MqttHandle.c: the protocol's state machine, MqttHandle_App.
pub mod Safety
pub mod Delivery
pub mod Receipt
pub mod Progress
pub mod Answers
pub mod Graph
pub mod Counters
use zybo_z.Common.{Bool, true, false, Option, some, if◌then◌else◌, ◌>>=◌, length, u16}
use zybo_z.Mqtt.Types.{
  MqttState, connect, connack, ping_req, ping_resp, publish, puback, write, read, idle, sending,
}
use zybo_z.Mqtt.Packet.{
  connect_create_message, connack_received, publish_create_packet, puback_received, ping_req_create,
  ping_resp_received,
}
use zybo_z.Mqtt.Tls.{Tls}
use zybo_z.Mqtt.Transfer.{Machine, write_handler, read_handler}

module _ {S : Type 0} where
  -- The cases of the switch in MqttHandle_App.
  unfoldable pub on_connect : Machine S → Option (Machine S)
  on_connect m = do
    let h = m.handle
    (buf, len) ← connect_create_message h.client h.user h.pass h.buffer
    some (record m {
      handle = record h {
        buffer = buf;
        info = record h.info { data_remain = u16 len; data_size = u16 len; data_read = 4 };
        state = write;
        next_state = connack;
      };
    })

  unfoldable pub on_connack : Machine S → Option (Machine S)
  on_connack m = do
    let h = m.handle
    accepted ← connack_received h.buffer
    some (record m {
      handle =
          (if accepted
            then record h { data_state = idle; state = ping_req }
            else record h { state = connect });
    })

  unfoldable pub on_ping_req : Bool → Machine S → Option (Machine S)
  on_ping_req is_write m =
      let h = m.handle in
      if is_write
      then some (record m { handle = record h { state = publish } })
      else (ping_req_create h.buffer >>= λ (buf, len). some (record m {
        handle = record h {
          buffer = buf;
          info = record h.info { data_remain = len; data_size = len; data_read = 2 };
          state = write;
          next_state = ping_resp;
        };
      }))

  unfoldable pub on_ping_resp : Machine S → Option (Machine S)
  on_ping_resp m = do
    let h = m.handle
    accepted ← ping_resp_received h.buffer h.info.data_read
    some (record m {
      handle =
          (if accepted
            then record h { state = ping_req; next_state = ping_resp }
            else record h { state = connect });
    })

  unfoldable pub on_publish : Machine S → Option (Machine S)
  on_publish m = do
    let h = m.handle
    (buf, cfg, len) ←
        publish_create_packet h.publish_cfg h.payload h.topic (u16 (length h.topic)) h.buffer
    some (record m {
      handle = record h {
        data_state = sending;
        buffer = buf;
        publish_cfg = cfg;
        info = record h.info { data_remain = u16 len; data_size = u16 len; data_read = 4 };
        state = write;
        next_state = puback;
      };
    })

  unfoldable pub on_puback : Machine S → Option (Machine S)
  on_puback m = do
    let h = m.handle
    (cfg, accepted) ← puback_received h.publish_cfg h.buffer
    some (record m {
      handle =
          (if accepted
            then record h { publish_cfg = cfg; data_state = idle; state = ping_req }
            else record h { publish_cfg = cfg; state = connect });
    })

  -- WRITE IS FINISHED READ ANSWER
  unfoldable pub after_write : Machine S × Bool → Machine S
  after_write (m, false) = m
  after_write (m, true) =
      let h = m.handle in
      let n = h.info.data_read in
      record m {
        handle = record h { info = record h.info { data_size = n; data_remain = n }; state = read };
      }

  unfoldable pub after_read : Machine S × Bool → Machine S
  after_read (m, false) = m
  after_read (m, true) = record m { handle = record m.handle { state = m.handle.next_state } }

module _ {S : Type 0} (tls : Tls S) where
  unfoldable pub dispatch : MqttState → Bool → Machine S → Option (Machine S)
  unfolding on_connect on_connack on_ping_req on_ping_resp on_publish on_puback after_write
      after_read
  dispatch connect is_write m = on_connect m
  dispatch connack is_write m = on_connack m
  dispatch ping_req is_write m = on_ping_req is_write m
  dispatch ping_resp is_write m = on_ping_resp m
  dispatch publish is_write m = on_publish m
  dispatch puback is_write m = on_puback m
  dispatch write is_write m = write_handler tls m >>= λ r. some (after_write r)
  dispatch read is_write m = read_handler tls m >>= λ r. some (after_read r)

  -- MqttHandle_App; `none` is an access outside an array.
  unfoldable pub app : Bool → Machine S → Option (Machine S)
  unfolding dispatch
  app is_write m = dispatch m.handle.state is_write m
