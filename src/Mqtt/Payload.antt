-- ===== src/Mqtt/Payload.antt =====
-- MqttHandle.c: the payload of the next publication, and the client's three names.
pub mod Text
use zybo_z.Common.{
  ℕ, ◌+◌, bit_and, Option, some, List, [], ◌∷◌, ◌++◌, ◌>>=◌, length, take, u8, u16, shr,
}
use zybo_z.Mqtt.Types.{Credential, Payload, Handle}
use zybo_z.Mqtt.Memory.{copy}

-- MqttHandle_AppendPayload, on the text that "%.3f" gives for the value. snprintf is told that it has
-- the whole array, 128 bytes, from the first free byte on: it writes at most 127 characters and a NUL
-- there, and returns the length of the whole text.
unfoldable pub append_payload : List ℕ → Payload → Option Payload
append_payload text p = do
  c ← copy (take 127 text ++ 0 ∷ []) (record { bytes = p.bytes; offset = p.size })
  some (record { bytes = c.bytes; size = u16 (p.size + length text) })

-- MqttHandle_ResetPayload
unfoldable pub reset_payload : Payload → Payload
reset_payload p = record p { size = 0 }

-- MqttHandle_StackInit does this for the client id, the user name and the password.
unfoldable pub credential : List ℕ → Credential
credential name =
    let n = u16 (length name) in
    record { name = name; size = u8 (shr n 8) ∷ u8 (bit_and n 0x00ff) ∷ []; actl_size = n }

unfoldable pub stack_init : List ℕ → List ℕ → List ℕ → Handle → Handle
unfolding credential
stack_init client_name user_name password h = record h {
  client = credential client_name;
  user = credential user_name;
  pass = credential password;
}
