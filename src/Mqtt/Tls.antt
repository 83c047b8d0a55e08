-- ===== src/Mqtt/Tls.antt =====
-- The TLS library that MqttHandle.c calls (OpenSSL), as a parameter: its read, its write and its
-- error query on a session of some type S, its error codes, and what the code relies on.
use zybo_z.Common.{ℕ, suc, ◌≤◌, ◌<◌, ◌≡◌, List, ◌++◌, length, take}
use zybo_z.Common.Int.{ℤ, pos, negsuc}

pub record Tls (S : Type 0) : Type 0 where
  -- SSL_write(ssl, buf, len), on the bytes that `buf` and `len` name
  pub write : S → List ℕ → S × ℤ
  -- SSL_read(ssl, buf, max): the session, the result and the bytes put at the front of `buf`
  pub read : S → ℕ → S × ℤ × List ℕ
  -- SSL_get_error(ssl, ret)
  pub get_error : S → ℤ → ℕ
  pub error_ssl : ℕ
  pub error_want_read : ℕ
  pub error_want_write : ℕ
  pub error_syscall : ℕ
  pub error_zero_return : ℕ

-- What SSL_read(3) and SSL_write(3) document: a positive result is a number of bytes, at most the
-- number asked for, and those bytes have been moved; `sent` is what the session has written so far.
pub record IsTls {S : Type 0} (tls : Tls S) (sent : S → List ℕ) : Type 0 where
  pub write_le : (s : S) (bs : List ℕ) (n : ℕ) → (tls.write s bs).1 ≡ pos n → n ≤ length bs
  pub write_sent :
      (s : S) (bs : List ℕ) (n : ℕ)
      → (tls.write s bs).1 ≡ pos n
      → sent (tls.write s bs).0 ≡ sent s ++ take n bs
  pub write_failed :
      (s : S) (bs : List ℕ) (n : ℕ)
      → (tls.write s bs).1 ≡ negsuc n
      → sent (tls.write s bs).0 ≡ sent s
  pub read_le : (s : S) (max n : ℕ) → (tls.read s max).1 ≡ pos n → n ≤ max
  pub read_length : (s : S) (max n : ℕ) → (tls.read s max).1 ≡ pos n → length (tls.read s max).2 ≡ n
  pub want_read_pos : 0 < tls.error_want_read
  pub want_write_pos : 0 < tls.error_want_write

-- Every SSL_write of a byte or more takes a byte or more.
pub record IsEager {S : Type 0} (tls : Tls S) : Type 0 where
  pub takes : (s : S) (bs : List ℕ) → 0 < length bs → (n : ℕ) × ((tls.write s bs).1 ≡ pos (suc n))
