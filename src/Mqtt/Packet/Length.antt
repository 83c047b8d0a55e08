-- ===== src/Mqtt/Packet/Length.antt =====
-- The remaining length of a packet: the loop of MqttHandle.c against the decoder that the protocol
-- describes (MQTT 3.1.1, section 2.2.3).
use mathlib.Core.Logic.{dif_pos, dif_neg}
use mathlib.Core.WellFounded.{Acc}
use native.Mathlib.Decide.{dec_lt}
use native.Mathlib.Nat.{zero-add}
use native.Mathlib.Bridge.{le_prop}
use zybo_z.Common.{
  drop, le→leb, refl, ℕ, zero, suc, ◌+◌, ◌-◌, ◌*◌, ◌/◌, ◌%◌, ◌^◌, ◌≤◌, ◌<◌, bit_or, ◌≡◌, Option,
  none, some, List, [], ◌∷◌, ◌++◌, ltb, if◌then◌else◌, ◌>>=◌, length, u8, arith, ◌∙◌, sym, inl, inr,
  leb-cases, bind_congr, lt→ltb, false, bind_assoc,
}
use zybo_z.Common.Bits.{bit_or-pow}
use zybo_z.Common.Order.{lt_wf}
use zybo_z.Mqtt.Memory.{start, overwrite, copy-start, Cursor, store, copy, store-copy}
use zybo_z.Mqtt.Packet.{length_loop, store_length, div_shrinks}

-- The bytes of `x`, seven bits each, lowest first, for `x` below 128 ^ (k + 1).
unfoldable pub length_bytes : ℕ → ℕ → List ℕ
length_bytes zero x = x ∷ []
length_bytes (suc k) x =
    let rest = length_bytes k (x / 128) in if ltb x 128 then x ∷ [] else (x % 128 + 128) ∷ rest

-- The decoder of the protocol: at most `k` bytes, each but the last with its top bit set.
unfoldable pub decode_length : ℕ → List ℕ → Option (ℕ × List ℕ)
decode_length zero bs = none
decode_length (suc k) [] = none
decode_length (suc k) (b ∷ bs) =
    let more = decode_length k bs in
    if ltb b 128 then some (b, bs) else (more >>= λ (v, rest). some (b - 128 + 128 * v, rest))

last_byte : (x : ℕ) → x < 128 → u8 (x % 128) ≡ x
last_byte x h = omega arith

inner_byte : (x : ℕ) → bit_or (u8 (x % 128)) 0x80 ≡ x % 128 + 128
inner_byte x = rw (low x) (bit_or-pow 7 (x % 128) (omega arith))
  where
    low : (x : ℕ) → u8 (x % 128) ≡ x % 128
    low x = omega arith

next_count : (n : ℕ) → n < 255 → u8 (n + 1) ≡ n + 1
next_count n h = omega arith

copy-cons-bind {ℓ} :
    {A : Type ℓ} (b : ℕ) (bs : List ℕ) (c : Cursor) (f : Cursor → Option A)
    → (copy (b ∷ bs) c >>= f) ≡ (store b c >>= λ c'. copy bs c' >>= f)
unfolding copy
copy-cons-bind b bs c f = bind_assoc (store b c) (copy bs) f

length_loop_last :
    (x count : ℕ) (w : Acc ◌<◌ x) (c : Cursor)
    → x < 128
    → count < 255
    → length_loop x count w c ≡ (copy (x ∷ []) c >>= λ c'. some (c', count + 1))
unfolding length_loop
length_loop_last x count (Acc.intro _ smaller) c h hc =
    rw (dif_neg (dec_lt 0 (x / 128)) (ends x h))
      (rw (last_byte x h, next_count count hc, store-copy x c))
  where
    ends : (x : ℕ) → x < 128 → ¬ (0 < x / 128)
    ends x h = omega arith

length_loop_more :
    (x count : ℕ) (smaller : (y : ℕ) → y < x → Acc ◌<◌ y) (c : Cursor) (more : 0 < x / 128)
    → count < 255
    → length_loop x count (Acc.intro x smaller) c ≡ (
        store (x % 128 + 128) c
        >>= length_loop (x / 128) (count + 1) (smaller (x / 128) (div_shrinks x more)))
unfolding length_loop
length_loop_more x count smaller c more hc =
    rw (dif_pos (dec_lt 0 (x / 128)) le_prop more) (rw (inner_byte x, next_count count hc))

-- The loop writes those bytes and counts them.
pub length_loop_lem :
    (k x count : ℕ) (w : Acc ◌<◌ x) (c : Cursor)
    → x < 128 ^ suc k
    → k + count < 255
    → length_loop x count w c
      ≡ (copy (length_bytes k x) c >>= λ c'. some (c', count + length (length_bytes k x)))
unfolding length_bytes
length_loop_lem zero x count w c h hc = length_loop_last x count w c (omega arith) (omega arith)
length_loop_lem (suc k) x count (Acc.intro _ smaller) c h hc = elim (leb-cases 128 x) [
  | inl (_, le) ↦
      rw (length_loop_more x count smaller c (omega arith) (omega arith), ltb_of_le x le)
        (bind_congr (store (x % 128 + 128) c)
            (λ c'. length_loop_lem k (x / 128) (count + 1) _ c' (omega arith) (omega arith))
          ∙ rw (add_suc_swap count (length (length_bytes k (x / 128))))
              (sym (copy-cons-bind _ (length_bytes k (x / 128)) c _)))
  | inr (_, lt) ↦
      rw (length_loop_last x count (Acc.intro x smaller) c lt (omega arith), lt→ltb x 128 lt)
]
  where
    ltb_of_le : (x : ℕ) → 128 ≤ x → ltb x 128 ≡ false
    ltb_of_le x h = ground arith

    add_suc_swap : (a b : ℕ) → a + 1 + b ≡ a + suc b
    add_suc_swap a b = omega arith

pub length-length_bytes : (k x : ℕ) → length (length_bytes k x) ≤ suc k
unfolding length_bytes
length-length_bytes zero x = omega arith
length-length_bytes (suc k) x = ground (arith, length-length_bytes k (x / 128))

pub decode_length-length_bytes :
    (k x : ℕ) (rest : List ℕ)
    → x < 128 ^ suc k
    → decode_length (suc k) (length_bytes k x ++ rest) ≡ some (x, rest)
unfolding length_bytes decode_length
decode_length-length_bytes zero x rest h = ground arith
decode_length-length_bytes (suc k) x rest h =
    ground (arith, decode_length-length_bytes k (x / 128) rest (omega arith))

-- The loop, on every uint32_t: at most five bytes.
pub store_length_lem :
    (x : ℕ) (c : Cursor)
    → x < 2 ^ 32
    → store_length x c ≡ (copy (length_bytes 4 x) c >>= λ c'. some (c', length (length_bytes 4 x)))
unfolding store_length
store_length_lem x c h =
    rw (length_loop_lem 4 x 0 (lt_wf.apply x) c (omega arith) (omega arith)) (rw zero-add)

-- Below 128 ^ (k + 1) one byte more than enough changes nothing.
pub length_bytes_enough : (k x : ℕ) → x < 128 ^ suc k → length_bytes (suc k) x ≡ length_bytes k x
unfolding length_bytes
length_bytes_enough zero x h = ground arith
length_bytes_enough (suc k) x h = ground (arith, length_bytes_enough k (x / 128) (omega arith))

-- For a length below 128 ^ 4, and an array of four bytes or more, the loop writes one to four bytes at
-- the front and counts them, and the decoder of the protocol reads the length back and stops
-- exactly behind them.
pub store_length-decode :
    (x : ℕ) (mem : List ℕ)
    → x < 128 ^ 4
    → 4 ≤ length mem
    → (c : Cursor) × (store_length x (start mem) ≡ some (c, c.offset))
      × (c.offset ≤ 4)
      × (decode_length 4 c.bytes ≡ some (x, drop c.offset mem))
store_length-decode x mem h room = (
  record { bytes = overwrite (length_bytes 3 x) mem; offset = length (length_bytes 3 x) },
  rw
      (
        store_length_lem x (start mem) (omega arith),
        length_bytes_enough 3 x h,
        copy-start (length_bytes 3 x) mem,
        le→leb (length (length_bytes 3 x)) (length mem) (omega (arith, length-length_bytes 3 x)),
      )
      refl,
  length-length_bytes 3 x,
  decode_length-length_bytes 3 x (drop (length (length_bytes 3 x)) mem) h,
)
