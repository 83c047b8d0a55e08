-- ===== src/Mqtt/Types.antt =====
-- The types and the static data of MqttHandle.h and MqttHandle.c. A `uint8_t`, `uint16_t` or
-- `uint32_t` is a number, and a C string is the list of its bytes before the final NUL.
use zybo_z.Common.{ℕ, List, [], ◌∷◌}

-- MQTTHANDLE_STATE
pub data MqttState : Type 0 where
  connect connack ping_req ping_resp publish puback write read : MqttState

-- MQTTHANDLE_DATASTATE
pub data DataState : Type 0 where
  init idle sending send_success : DataState

-- MQTT_CONNECT_HEADER
pub record ConnectHeader : Type 0 where
  pub type : ℕ
  pub protocol_name_length : List ℕ
  pub protocol_name : List ℕ
  pub protocol_level : ℕ
  pub connect_flags : ℕ
  pub keep_alive : List ℕ

-- MQTT_USERNAME, MQTT_PASSWORD and MQTT_CLIENT_ID have the same fields.
pub record Credential : Type 0 where
  pub name : List ℕ
  pub size : List ℕ
  pub actl_size : ℕ

-- MQTT_PAYLOAD: `bytes` is the array `publishpayload` that `payload` points to.
pub record Payload : Type 0 where
  pub bytes : List ℕ
  pub size : ℕ

-- MQTT_PUBLISH_CFG
pub record PublishCfg : Type 0 where
  pub type : ℕ
  pub packet_id : ℕ
  pub payload_size : ℕ

-- MQTT_HANDLER_DATA_INFO
pub record DataInfo : Type 0 where
  pub data_read : ℕ
  pub data_remain : ℕ
  pub data_size : ℕ
  pub write_fail : ℕ
  pub read_fail : ℕ

-- The static variables that the protocol functions share.
pub record Handle : Type 0 where
  pub state : MqttState
  pub next_state : MqttState
  pub data_state : DataState
  pub buffer : List ℕ
  pub info : DataInfo
  pub publish_cfg : PublishCfg
  pub payload : Payload
  pub topic : List ℕ
  pub client : Credential
  pub user : Credential
  pub pass : Credential

abbrev pub connack_type : ℕ
connack_type = 0x20

abbrev pub publish_type_qos0 : ℕ
publish_type_qos0 = 0x30

abbrev pub puback_type : ℕ
puback_type = 0x40

abbrev pub ping_req_type : ℕ
ping_req_type = 0xc0

abbrev pub ping_resp_type : ℕ
ping_resp_type = 0xd0

abbrev pub connect_header_default_len : ℕ
connect_header_default_len = 10

-- mqtt_connectHeader: type CONNECT, "MQTT", level 4, clean session with user and password, 60 s.
abbrev pub connect_header : ConnectHeader
connect_header = record {
  type = 0x10;
  protocol_name_length = 0x0 ∷ 0x4 ∷ [];
  protocol_name = b'M' ∷ b'Q' ∷ b'T' ∷ b'T' ∷ [];
  protocol_level = 4;
  connect_flags = 0xc2;
  keep_alive = 0x0 ∷ 0x3c ∷ [];
}
