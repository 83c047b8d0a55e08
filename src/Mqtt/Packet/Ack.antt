-- ===== src/Mqtt/Packet/Ack.antt =====
-- When MqttHandle.c takes an answer for the one that it waits for.
use zybo_z.Common.{
  ℕ, ◌+◌, ◌/◌, ◌%◌, ◌≤◌, ◌<◌, ◌≡◌, ◌↔◌, ◌⊎◌, inl, inr, ◌≢◌, refl, Bool, true, false, Option, none,
  some, List, [], ◌∷◌, length, take, bit_and, u8, shr, arith, ◌==◌, ◌>>=◌, Bool-cases,
}
use zybo_z.Common.Bits.{bit_and-ones}
use zybo_z.Mqtt.Types.{PublishCfg}
use zybo_z.Mqtt.Packet.{starts_with, connack_received, puback_received, ping_resp_received}

-- The bytes at the front are these exactly when the chain of tests succeeds.
pub starts_with-true :
    (bs buf : List ℕ) → (starts_with bs buf ≡ some true) ↔ (take (length bs) buf ≡ bs)
starts_with-true [] buf = ground arith
starts_with-true (b ∷ bs) [] = ground arith
starts_with-true (b ∷ bs) (x ∷ buf) = ground (arith, starts_with-true bs buf)

-- The chain faults only at the end of the array.
pub starts_with_fault :
    (bs buf : List ℕ)
    → ((starts_with bs buf ≡ none) × (length buf < length bs))
      ⊎ ((r : Bool) × (starts_with bs buf ≡ some r))
starts_with_fault [] buf = inr (true, refl)
starts_with_fault (b ∷ bs) [] = inl (refl, omega arith)
starts_with_fault (b ∷ bs) (x ∷ buf) = elim (Bool-cases (x == b)) [
  | inr e ↦ inr (false, rw e refl)
  | inl e ↦ elim (starts_with_fault bs buf) [
    | inl (n, l) ↦ inl (rw (e, n) refl, omega arith)
    | inr (r, s) ↦ inr (r, rw (e, s) refl)
  ]
]

pub starts_with_within :
    (bs buf : List ℕ) → length bs ≤ length buf → (r : Bool) × (starts_with bs buf ≡ some r)
starts_with_within bs buf h = elim (starts_with_fault bs buf) [
  | inl (n, l) ↦ absurd (omega arith)
  | inr r ↦ r
]

-- The PUBACK of this packet id, high byte first.
abbrev pub puback_packet : ℕ → List ℕ
puback_packet id = 0x40 ∷ 2 ∷ (id / 256) % 256 ∷ (id % 256) ∷ []

pub id_bytes : (id : ℕ) → (u8 (shr id 8) ≡ id / 256 % 256) × (u8 (bit_and id 0xff) ≡ id % 256)
id_bytes id = (omega arith, omega (arith, bit_and-ones 8 id))

-- The configuration with the next packet id.
abbrev pub next_cfg : PublishCfg → PublishCfg
next_cfg cfg = record cfg { packet_id = (cfg.packet_id + 1) % 65536 }

abbrev pass_on : PublishCfg → Option Bool → Option (PublishCfg × Bool)
pass_on next o = o >>= λ r. some (next, r)

-- How an answer that a chain of tests judges is passed on.
Judged : PublishCfg → List ℕ → List ℕ → Option (PublishCfg × Bool) → Type 0
Judged next answer buf result =
    ((result ≡ some (next, true)) ↔ (take (length answer) buf ≡ answer))
    × (((result ≡ none) × (length buf < length answer)) ⊎ ((b : Bool) × (result ≡ some (next, b))))

starts_with-Judged :
    (next : PublishCfg) (answer buf : List ℕ)
    → Judged next answer buf (pass_on next (starts_with answer buf))
unfolding Judged
starts_with-Judged next answer buf =
    let (there, back) = starts_with-true answer buf in
    (
      (
        λ (e : pass_on next (starts_with answer buf) ≡ some (next, true)).
            there (accepted (starts_with answer buf) e),
        λ (e : take (length answer) buf ≡ answer). rw (back e) refl,
      ),
      elim (starts_with_fault answer buf) [
        | inl (n, l) ↦ inl (rw n refl, l)
        | inr (b, s) ↦ inr (b, rw s refl)
      ],
    )
  where
    accepted : (o : Option Bool) → pass_on next o ≡ some (next, true) → o ≡ some true
    accepted none e = cc
    accepted (some r) e = cc

puback_received-chain :
    (cfg : PublishCfg) (buf : List ℕ)
    → cfg.type ≢ 0x30
    → puback_received cfg buf
      ≡ pass_on (next_cfg cfg) (starts_with (puback_packet cfg.packet_id) buf)
unfolding puback_received
puback_received-chain cfg buf q =
    let other : (cfg.type == 0x30) ≡ false = ground arith in
    rw (other, (id_bytes cfg.packet_id).0, (id_bytes cfg.packet_id).1) refl

-- For a publication with QoS 1 or 2 the answer is accepted exactly when it is the PUBACK of its
-- packet id, high byte first, and accepted or not the next packet id is one more, modulo 2 ^ 16; the
-- rest of the configuration stays. Only an answer that is cut off by the end of the array is a fault.
pub puback_received_iff :
    (cfg : PublishCfg) (buf : List ℕ)
    → cfg.type ≢ 0x30
    → cfg.packet_id < 65536
    → let next = record cfg { packet_id = (cfg.packet_id + 1) % 65536 } in
      let answer = 0x40 ∷ 2 ∷ (cfg.packet_id / 256) ∷ (cfg.packet_id % 256) ∷ [] in
      ((puback_received cfg buf ≡ some (next, true)) ↔ (take 4 buf ≡ answer))
      × (((puback_received cfg buf ≡ none) × (length buf < 4))
          ⊎ ((b : Bool) × (puback_received cfg buf ≡ some (next, b))))
unfolding Judged
puback_received_iff cfg buf q small =
    let high : cfg.packet_id / 256 % 256 ≡ cfg.packet_id / 256 = omega arith in
    rw (puback_received-chain cfg buf q, ← high)
      (starts_with-Judged (next_cfg cfg) (puback_packet cfg.packet_id) buf)

-- What an accepting answer to CONNECT is, and to a publication.
pub connack_received-true :
    (buf : List ℕ) → connack_received buf ≡ some true → take 3 buf ≡ 0x20 ∷ 2 ∷ 0 ∷ []
unfolding connack_received
connack_received-true buf e = (starts_with-true (0x20 ∷ 2 ∷ 0 ∷ []) buf).0 e

pub puback_received-true :
    (cfg next : PublishCfg) (buf : List ℕ)
    → puback_received cfg buf ≡ some (next, true)
    → (cfg.type ≡ 0x30) ⊎ (take 4 buf ≡ puback_packet cfg.packet_id)
puback_received-true cfg next buf e = elim (Bool-cases (cfg.type == 0x30)) [
  | inl t ↦ inl (ground arith)
  | inr f ↦
      let q : cfg.type ≢ 0x30 = ground arith in
      inr (
        (starts_with-true (puback_packet cfg.packet_id) buf).0 (
          judged (starts_with (puback_packet cfg.packet_id) buf)
            (rw (puback_received-chain cfg buf q) at e)))
]
  where
    judged : (o : Option Bool) → pass_on (next_cfg cfg) o ≡ some (next, true) → o ≡ some true
    judged none h = cc
    judged (some r) h = cc

pub ping_resp_received-true :
    (buf : List ℕ) (len : ℕ)
    → ping_resp_received buf len ≡ some true
    → (len ≡ 2) × (take 2 buf ≡ 0xd0 ∷ 0 ∷ [])
unfolding ping_resp_received
ping_resp_received-true buf len e = elim (Bool-cases (len == 2)) [
  | inl t ↦ (ground arith, (starts_with-true (0xd0 ∷ 0 ∷ []) buf).0 (rw t at e))
  | inr f ↦ cc (rw f at e)
]

-- A chain that has failed on a byte has not found these bytes.
starts_with-false :
    (bs buf : List ℕ) → starts_with bs buf ≡ some false → ¬ (take (length bs) buf ≡ bs)
starts_with-false bs buf e t = cc (e, (starts_with-true bs buf).1 t)

pub connack_received-false :
    (buf : List ℕ) → connack_received buf ≡ some false → ¬ (take 3 buf ≡ 0x20 ∷ 2 ∷ 0 ∷ [])
unfolding connack_received
connack_received-false buf e = starts_with-false (0x20 ∷ 2 ∷ 0 ∷ []) buf e

pub ping_resp_received-false :
    (buf : List ℕ) (len : ℕ)
    → ping_resp_received buf len ≡ some false
    → ¬ ((len ≡ 2) × (take 2 buf ≡ 0xd0 ∷ 0 ∷ []))
unfolding ping_resp_received
ping_resp_received-false buf len e (l, t) =
    let two : (len == 2) ≡ true = ground arith in
    starts_with-false (0xd0 ∷ 0 ∷ []) buf (rw two at e) t

pub puback_received-false :
    (cfg next : PublishCfg) (buf : List ℕ)
    → puback_received cfg buf ≡ some (next, false)
    → ¬ ((cfg.type ≡ 0x30) ⊎ (take 4 buf ≡ puback_packet cfg.packet_id))
puback_received-false cfg next buf e (inl t) = unfold puback_received in (ground (arith, e))
puback_received-false cfg next buf e (inr t) = elim (Bool-cases (cfg.type == 0x30)) [
  | inl q ↦ unfold puback_received in (ground (arith, e))
  | inr f ↦
      let q : cfg.type ≢ 0x30 = ground arith in
      let found = (starts_with-true (puback_packet cfg.packet_id) buf).1 t in
      cc (rw (puback_received-chain cfg buf q, found) at e)
]
