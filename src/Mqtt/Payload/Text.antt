-- ===== src/Mqtt/Payload/Text.antt =====
-- What the payload holds after the text of a value has been appended, and when the array is too short.
use zybo_z.Common.{
  ℕ, ◌+◌, ◌/◌, ◌%◌, ◌≤◌, ◌<◌, ◌≡◌, ◌∙◌, refl, none, some, List, [], ◌∷◌, ◌++◌, length, take, drop,
  u16, u8, shr, bit_and, arith, length-append, take-append, take_ge, le→leb,
}
use mathlib.Core.List.{append_assoc}
use zybo_z.Common.Bits.{bit_and-ones}
use zybo_z.Mqtt.Types.{Payload}
use zybo_z.Mqtt.Memory.{copy-start, overwrite, length-overwrite, copy_overflow}
use zybo_z.Mqtt.Packet.Layout.{IsCredential}
use zybo_z.Mqtt.Payload.{append_payload, reset_payload, credential}

-- After a reset, a text of at most 127 characters is appended without leaving the array: the payload
-- is then exactly the text, its NUL stands behind it, and the array keeps its 128 bytes.
pub append_payload-reset :
    (text : List ℕ) (p : Payload)
    → length p.bytes ≡ 128
    → length text ≤ 127
    → (q : Payload) × (append_payload text (reset_payload p) ≡ some q)
      × (take q.size q.bytes ≡ text)
      × (q.size ≡ length text)
      × (length q.bytes ≡ 128)
unfolding append_payload reset_payload
append_payload-reset text p full short = (
  record { bytes = overwrite (text ++ 0 ∷ []) p.bytes; size = u16 (0 + length text) },
  rw (take_ge 127 text short, copy-start (text ++ 0 ∷ []) p.bytes, le→leb _ _ fits) refl,
  rw (size, append_assoc text (0 ∷ []) (drop (length (text ++ 0 ∷ [])) p.bytes))
      (take-append text _),
  size,
  length-overwrite (text ++ 0 ∷ []) p.bytes fits ∙ full,
)
  where
    fits : length (text ++ 0 ∷ []) ≤ length p.bytes
    fits = omega (arith, length-append text (0 ∷ []))

    size : u16 (0 + length text) ≡ length text
    size = omega arith

-- Without a reset the bound that snprintf is given is too large: a text that does not fit behind
-- the bytes that are there leaves the array.
pub append_payload_overflow :
    (text : List ℕ) (p : Payload)
    → length p.bytes ≡ 128
    → p.size ≤ 128
    → length text ≤ 127
    → 127 < p.size + length text
    → append_payload text p ≡ none
unfolding append_payload
append_payload_overflow text p full at short over =
    rw
      (
        take_ge 127 text short,
        copy_overflow (text ++ 0 ∷ []) (record { bytes = p.bytes; offset = p.size }) (omega arith)
            (omega (arith, length-append text (0 ∷ []))),
      )
      refl

-- A name of less than 64 KiB gets its length in two bytes, high byte first.
pub credential-IsCredential : (name : List ℕ) → length name < 65536 → IsCredential (credential name)
unfolding credential
credential-IsCredential name h = record {
  size_bytes = bytes (u16 (length name)) (omega arith);
  exact = omega arith;
  small = omega arith;
}
  where
    bytes :
        (n : ℕ)
        → n < 65536
        → ◌≡◌ {A = List ℕ} (u8 (shr n 8) ∷ u8 (bit_and n 0xff) ∷ []) ((n / 256) ∷ (n % 256) ∷ [])
    bytes n h = ground (arith, bit_and-ones 8 n)
