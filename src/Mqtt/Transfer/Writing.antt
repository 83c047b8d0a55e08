-- ===== src/Mqtt/Transfer/Writing.antt =====
-- MqttHandle.c: what one SSL_write makes of a transfer, by the number that it returns.
use zybo_z.Common.{ℕ, suc, ◌-◌, ◌≤◌, ◌<◌, ◌≡◌, refl, true, false, some, List, arith}
use zybo_z.Common.Int.{ℤ, pos, negsuc}
use zybo_z.Mqtt.Types.{DataInfo}
use zybo_z.Mqtt.Tls.{Tls}
use zybo_z.Mqtt.Transfer.{write_progress, write_error, ssl_write_data}

module _ {S : Type 0} (tls : Tls S) where
  -- A failed SSL_write changes no counter.
  pub write_progress-error :
      (err : ℕ) (info : DataInfo) → write_progress tls (write_error tls err) info ≡ (info, false)
  unfolding write_progress write_error
  write_progress-error err info = ground arith

  pub ssl_write_data-pos :
      (s : S) (bs : List ℕ) (n : ℕ)
      → (tls.write s bs).1 ≡ pos (suc n)
      → ssl_write_data tls (some s) bs ≡ (some (tls.write s bs).0, pos (suc n))
  unfolding ssl_write_data
  ssl_write_data-pos s bs n e = rw e (ground arith)

  -- The error that ssl_write_data reports where SSL_write moves nothing.
  abbrev pub error_of : S → List ℕ → ℤ
  error_of s bs = write_error tls (tls.get_error (tls.write s bs).0 (tls.write s bs).1)

  pub ssl_write_data-zero :
      (s : S) (bs : List ℕ)
      → (tls.write s bs).1 ≡ pos 0
      → ssl_write_data tls (some s) bs ≡ (some (tls.write s bs).0, error_of s bs)
  unfolding ssl_write_data
  ssl_write_data-zero s bs e = rw e refl

  pub ssl_write_data-negsuc :
      (s : S) (bs : List ℕ) (n : ℕ)
      → (tls.write s bs).1 ≡ negsuc n
      → ssl_write_data tls (some s) bs ≡ (some (tls.write s bs).0, error_of s bs)
  unfolding ssl_write_data
  ssl_write_data-negsuc s bs n e = rw e refl

  pub write_progress-all :
      (n : ℕ) (info : DataInfo)
      → info.data_remain ≤ suc n
      → write_progress tls (pos (suc n)) info ≡ (record info { data_remain = 0 }, true)
  unfolding write_progress
  write_progress-all n info h = ground arith

  pub write_progress-part :
      (n : ℕ) (info : DataInfo)
      → suc n < info.data_remain
      → info.data_remain < 65536
      → write_progress tls (pos (suc n)) info
        ≡ (record info { data_remain = info.data_remain - suc n }, false)
  unfolding write_progress
  write_progress-part n info h small = ground arith
