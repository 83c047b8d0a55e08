-- ===== src/Mqtt.antt =====
-- UserSpace/mqttbroker/files/MqttHandle: the MQTT client over TLS.
pub mod Types
pub mod Memory
pub mod Packet
pub mod Tls
pub mod Transfer
pub mod Payload
pub mod Connection
pub mod App
pub mod Fixtures
mod Tests
