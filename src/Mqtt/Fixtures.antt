-- ===== src/Mqtt/Fixtures.antt =====
-- A TLS library that takes three bytes at a time, and a client in the middle of a packet, for the tests.
use zybo_z.Common.{
  ℕ, suc, ◌≤◌, ◌<◌, ◌≡◌, refl, ap, ◌∙◌, List, [], ◌∷◌, ◌++◌, length, take, replicate,
  length-replicate, arith,
}
use zybo_z.Common.Int.{ℤ, pos, negsuc}
use zybo_z.Mqtt.Types.{MqttState, DataState, puback, write, sending, Handle}
use zybo_z.Mqtt.Packet.Layout.{IsCredential}
use zybo_z.Mqtt.Payload.{credential}
use zybo_z.Mqtt.Payload.Text.{credential-IsCredential}
use zybo_z.Mqtt.Tls.{Tls, IsTls, IsEager}
use zybo_z.Mqtt.App.Safety.{IsReady}
use zybo_z.Mqtt.App.Receipt.{IsSource}

abbrev at_most_three : List ℕ → List ℕ
at_most_three [] = []
at_most_three (a ∷ []) = a ∷ []
at_most_three (a ∷ b ∷ []) = a ∷ b ∷ []
at_most_three (a ∷ b ∷ c ∷ bs) = a ∷ b ∷ c ∷ []

-- A session is the list of bytes that it has sent; it takes three bytes at a time and answers with 7s.
abbrev pub in_threes : Tls (List ℕ)
in_threes = record {
  write = λ s bs. (s ++ at_most_three bs, pos (length (at_most_three bs)));
  read = λ s max. (s, pos max, replicate max 7);
  get_error = λ s ret. 0;
  error_ssl = 1;
  error_want_read = 2;
  error_want_write = 3;
  error_syscall = 5;
  error_zero_return = 6;
}

three_le : (bs : List ℕ) → length (at_most_three bs) ≤ length bs
three_le [] = omega arith
three_le (a ∷ []) = omega arith
three_le (a ∷ b ∷ []) = omega arith
three_le (a ∷ b ∷ c ∷ bs) = omega arith

three_taken :
    (bs : List ℕ) (n : ℕ)
    → ◌≡◌ {A = ℤ} (pos (length (at_most_three bs))) (pos n)
    → at_most_three bs ≡ take n bs
three_taken bs n e = prefix bs ∙ ap (λ (k : ℕ). take k bs) same
  where
    same : length (at_most_three bs) ≡ n
    same = ground arith

    prefix : (bs : List ℕ) → at_most_three bs ≡ take (length (at_most_three bs)) bs
    prefix [] = refl
    prefix (a ∷ []) = refl
    prefix (a ∷ b ∷ []) = refl
    prefix (a ∷ b ∷ c ∷ bs) = refl

pub in_threes-IsTls : IsTls in_threes (λ s. s)
in_threes-IsTls = record {
  write_le = λ s bs n e. ground (arith, three_le bs);
  write_sent = λ s bs n e. rw (three_taken bs n e) refl;
  write_failed = λ s bs n e. absurd (ground arith);
  read_le = λ s max n e. ground arith;
  read_length = λ s max n e. ground (arith, length-replicate {A = ℕ} max 7);
  want_read_pos = omega arith;
  want_write_pos = omega arith;
}

pub in_threes-IsEager : IsEager in_threes
in_threes-IsEager = record { takes = go }
  where
    go : (s bs : List ℕ) → 0 < length bs → (n : ℕ) × ((in_threes.write s bs).1 ≡ pos (suc n))
    go s [] h = elim h [ ]
    go s (a ∷ []) h = (0, refl)
    go s (a ∷ b ∷ []) h = (1, refl)
    go s (a ∷ b ∷ c ∷ bs) h = (2, refl)

abbrev pub zeros : ℕ → List ℕ
zeros n = replicate n 0

abbrev pub topic : List ℕ
topic = b'm' ∷ b'y' ∷ b'T' ∷ []

abbrev pub name : List ℕ
name = b'm' ∷ b'e' ∷ []

pub name-IsCredential : IsCredential (credential name)
name-IsCredential = credential-IsCredential name (omega arith)

-- A client that has built a packet of five bytes, 1 to 5.
abbrev pub writing : Handle
writing = record {
  state = write;
  next_state = puback;
  data_state = sending;
  buffer = 1 ∷ 2 ∷ 3 ∷ 4 ∷ 5 ∷ zeros 1495;
  info = record { data_read = 4; data_remain = 5; data_size = 5; write_fail = 0; read_fail = 0 };
  publish_cfg = record { type = 0x32; packet_id = 0; payload_size = 0 };
  payload = record { bytes = b'7' ∷ zeros 127; size = 1 };
  topic = topic;
  client = credential name;
  user = credential name;
  pass = credential name;
}

pub writing-IsReady : IsReady writing
unfolding credential
writing-IsReady = record {
  buffer_len = refl;
  remain_le = omega arith;
  size_le = omega arith;
  read_le = omega arith;
  client_ok = name-IsCredential;
  user_ok = name-IsCredential;
  pass_ok = name-IsCredential;
  connect_fits = omega arith;
  payload_len = refl;
  payload_le = omega arith;
  topic_le = omega arith;
  id_small = omega arith;
}

-- The same client in another state.
pub in_state-IsReady :
    (now next : MqttState) (d : DataState)
    → IsReady (record writing { state = now; next_state = next; data_state = d })
in_state-IsReady now next d = record {
  buffer_len = writing-IsReady.buffer_len;
  remain_le = writing-IsReady.remain_le;
  size_le = writing-IsReady.size_le;
  read_le = writing-IsReady.read_le;
  client_ok = writing-IsReady.client_ok;
  user_ok = writing-IsReady.user_ok;
  pass_ok = writing-IsReady.pass_ok;
  connect_fits = writing-IsReady.connect_fits;
  payload_len = writing-IsReady.payload_len;
  payload_le = writing-IsReady.payload_le;
  topic_le = writing-IsReady.topic_le;
  id_small = writing-IsReady.id_small;
}

-- A session that takes nothing and gives 7s, as the list of the bytes that it has given.
abbrev pub giving : Tls (List ℕ)
giving = record {
  write = λ s bs. (s, negsuc 0);
  read = λ s max. (s ++ replicate max 7, pos max, replicate max 7);
  get_error = λ s ret. 0;
  error_ssl = 1;
  error_want_read = 2;
  error_want_write = 3;
  error_syscall = 5;
  error_zero_return = 6;
}

pub giving-IsTls : IsTls giving (λ s. [])
giving-IsTls = record {
  write_le = λ s bs n e. absurd (ground arith);
  write_sent = λ s bs n e. absurd (ground arith);
  write_failed = λ s bs n e. refl;
  read_le = λ s max n e. ground arith;
  read_length = λ s max n e. ground (arith, length-replicate {A = ℕ} max 7);
  want_read_pos = omega arith;
  want_write_pos = omega arith;
}

pub giving-IsSource : IsSource giving (λ s. s)
giving-IsSource = record {
  read_received = λ s max n e. refl;
  read_failed = λ s max n e. absurd (ground arith);
}
