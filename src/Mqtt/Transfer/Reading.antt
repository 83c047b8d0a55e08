-- ===== src/Mqtt/Transfer/Reading.antt =====
-- MqttHandle.c: what one SSL_read makes of a transfer, by the number that it returns, and where its bytes go.
use zybo_z.Common.{
  ℕ, suc, ◌+◌, ◌-◌, ◌≤◌, ◌<◌, ◌≡◌, refl, sym, ap, ◌∙◌, true, false, some, List, [], ◌++◌, length,
  take, drop, arith, take-append, take-append-drop, length-take, length-drop, length-append,
}
use zybo_z.Common.Int.{ℤ, pos, negsuc}
use zybo_z.Mqtt.Types.{DataInfo}
use zybo_z.Mqtt.Memory.{Cursor, copy, copy-between}
use zybo_z.Mqtt.Tls.{Tls}
use zybo_z.Mqtt.Transfer.{read_progress, read_error, ssl_read_data}

-- Bytes copied to a place behind the front of an array stand after that front.
pub copy_at :
    (bs xs : List ℕ) (i : ℕ)
    → i + length bs ≤ length xs
    → (c : Cursor) × (copy bs (record { bytes = xs; offset = i }) ≡ some c)
      × (take (i + length bs) c.bytes ≡ take i xs ++ bs)
copy_at bs xs i h =
    let front = take i xs in
    let rest = drop (length bs) (drop i xs) in
    let same : ◌≡◌ {A = Cursor} (record { bytes = front ++ drop i xs; offset = length front })
        (record { bytes = xs; offset = i }) =
      rw (take-append-drop i xs, length-take i xs (omega arith)) refl in
    let long : length (front ++ bs) ≡ i + length bs =
      omega (arith, length-append front bs, length-take i xs) in
    (
      record { bytes = (front ++ bs) ++ rest; offset = length (front ++ bs) },
      ap (copy bs) (sym same) ∙ copy-between bs front (drop i xs) (omega (arith, length-drop i xs)),
      ap (λ (n : ℕ). take n ((front ++ bs) ++ rest)) (sym long) ∙ take-append (front ++ bs) rest,
    )

module _ {S : Type 0} (tls : Tls S) where
  -- A failed SSL_read changes no counter.
  pub read_progress-error :
      (err : ℕ) (info : DataInfo)
      → 0 < tls.error_want_read
      → 0 < tls.error_want_write
      → read_progress tls (read_error tls err) info ≡ (info, false)
  unfolding read_progress read_error
  read_progress-error err info r w = ground arith

  pub ssl_read_data-pos :
      (s : S) (max n : ℕ)
      → (tls.read s max).1 ≡ pos (suc n)
      → ssl_read_data tls (some s) max ≡ (some (tls.read s max).0, pos (suc n), (tls.read s max).2)
  unfolding ssl_read_data
  ssl_read_data-pos s max n e = rw e (ground arith)

  -- The error that ssl_read_data reports where SSL_read moves nothing.
  abbrev pub read_error_of : S → ℕ → ℤ
  read_error_of s max = read_error tls (tls.get_error (tls.read s max).0 (tls.read s max).1)

  pub ssl_read_data-zero :
      (s : S) (max : ℕ)
      → (tls.read s max).1 ≡ pos 0
      → ssl_read_data tls (some s) max ≡ (some (tls.read s max).0, read_error_of s max, [])
  unfolding ssl_read_data
  ssl_read_data-zero s max e = rw e refl

  pub ssl_read_data-negsuc :
      (s : S) (max n : ℕ)
      → (tls.read s max).1 ≡ negsuc n
      → ssl_read_data tls (some s) max ≡ (some (tls.read s max).0, read_error_of s max, [])
  unfolding ssl_read_data
  ssl_read_data-negsuc s max n e = rw e refl

  pub read_progress-all :
      (n : ℕ) (info : DataInfo)
      → info.data_remain ≤ suc n
      → read_progress tls (pos (suc n)) info ≡ (record info { data_remain = 0 }, true)
  unfolding read_progress
  read_progress-all n info h = ground arith

  pub read_progress-part :
      (n : ℕ) (info : DataInfo)
      → suc n < info.data_remain
      → info.data_remain < 65536
      → read_progress tls (pos (suc n)) info
        ≡ (record info { data_remain = info.data_remain - suc n }, false)
  unfolding read_progress
  read_progress-part n info h small = ground arith
