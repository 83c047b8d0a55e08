-- ===== src/Mqtt/Transfer.antt =====
-- MqttHandle.c: the transfers of a packet and of its answer over TLS.
pub mod Writing
pub mod Reading
use zybo_z.Common.{
  ℕ, ◌+◌, ◌-◌, Bool, true, false, ◌||◌, Option, none, some, List, [], ltb, leb, ◌==◌, if◌then◌else◌,
  ◌>>=◌, u8, u16,
}
use zybo_z.Mqtt.Types.{DataInfo, Handle}
use zybo_z.Common.Int.{ℤ, pos, negsuc, pos_part}
use zybo_z.Mqtt.Memory.{copy, slice}
use zybo_z.Mqtt.Tls.{Tls}

-- The static variables together with the pointer `ssl_handle`, which may be NULL.
pub record Machine (S : Type 0) : Type 0 where
  pub handle : Handle
  pub ssl_handle : Option S

-- ret > 0, and ret == code
abbrev pub is_positive : ℤ → Bool
is_positive (pos n) = ltb 0 n
is_positive (negsuc n) = false

abbrev pub is_code : ℤ → ℕ → Bool
is_code (pos n) code = n == code
is_code (negsuc n) code = false

-- The uint16_t `dataSize - dataRemain`
abbrev pub buf_idx : DataInfo → ℕ
buf_idx info = u16 (info.data_size + 65536 - info.data_remain)

module _ {S : Type 0} (tls : Tls S) where
  -- How ssl_write_data answers a failed SSL_write, and ssl_read_data a failed SSL_read.
  unfoldable pub write_error : ℕ → ℤ
  write_error err =
      if err == tls.error_zero_return
      then negsuc 0
      else if err == tls.error_want_read || err == tls.error_want_write
      then negsuc 1
      else negsuc 0

  unfoldable pub read_error : ℕ → ℤ
  read_error err =
      if err == tls.error_zero_return
      then pos 0
      else if err == tls.error_want_read || err == tls.error_want_write
      then negsuc 1
      else if err == tls.error_syscall
      then negsuc 2
      else if err == tls.error_ssl
      then negsuc 3
      else negsuc 4

  -- ssl_write_data
  unfoldable pub ssl_write_data : Option S → List ℕ → Option S × ℤ
  ssl_write_data none bs = (none, negsuc 0)
  ssl_write_data (some s) bs =
      let (s', ret) = tls.write s bs in
      if is_positive ret then (some s', ret) else (some s', write_error (tls.get_error s' ret))

  -- ssl_read_data: also the bytes that it puts at the front of the buffer it is given.
  unfoldable pub ssl_read_data : Option S → ℕ → Option S × ℤ × List ℕ
  ssl_read_data none max_len = (none, negsuc 0, [])
  ssl_read_data (some s) max_len =
      let (s', ret, bs) = tls.read s max_len in
      if is_positive ret
      then (some s', ret, bs)
      else (some s', read_error (tls.get_error s' ret), [])

  -- What SSL_MqttWriteHandler and SSL_MqttReadHandler make of the result of a transfer.
  unfoldable pub write_progress : ℤ → DataInfo → DataInfo × Bool
  write_progress ret info =
      if is_positive ret
      then if leb info.data_remain (pos_part ret)
        then (record info { data_remain = 0 }, true)
        else (record info { data_remain = u16 (info.data_remain + 65536 - pos_part ret) }, false)
      else if is_code ret tls.error_want_read || is_code ret tls.error_want_write
      then (record info { write_fail = u8 (info.write_fail + 1) }, false)
      else (info, false)

  unfoldable pub read_progress : ℤ → DataInfo → DataInfo × Bool
  read_progress ret info =
      if is_positive ret
      then if leb info.data_remain (pos_part ret)
        then (record info { data_remain = 0 }, true)
        else (record info { data_remain = u16 (info.data_remain + 65536 - pos_part ret) }, false)
      else if is_code ret tls.error_want_read || is_code ret tls.error_want_write
      then (record info { read_fail = u8 (info.read_fail + 1) }, false)
      else (info, false)

  -- SSL_MqttWriteHandler, on mqtt_buffer
  unfoldable pub write_handler : Machine S → Option (Machine S × Bool)
  write_handler m = do
    let h = m.handle
    bs ← slice h.buffer (buf_idx h.info) h.info.data_remain
    let sent = ssl_write_data m.ssl_handle bs
    let progress = write_progress sent.1 h.info
    some (record { handle = record h { info = progress.0 }; ssl_handle = sent.0 }, progress.1)

  -- SSL_MqttReadHandler, on mqtt_buffer
  unfoldable pub read_handler : Machine S → Option (Machine S × Bool)
  read_handler m = do
    let h = m.handle
    let got = ssl_read_data m.ssl_handle h.info.data_remain
    c ← copy got.2 (record { bytes = h.buffer; offset = buf_idx h.info })
    let progress = read_progress got.1 h.info
    some (
      record { handle = record h { buffer = c.bytes; info = progress.0 }; ssl_handle = got.0 },
      progress.1,
    )
