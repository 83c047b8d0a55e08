-- ===== src/Mqtt/App/Counters.antt =====
-- The counters of failed transfers.
use zybo_z.Common.{◌≡◌, ◌<◌, Bool, some, arith}
use zybo_z.Common.Int.{ℤ, pos, negsuc}
use zybo_z.Mqtt.Types.{MqttState, write, read, DataInfo}
use zybo_z.Mqtt.Tls.{Tls}
use zybo_z.Mqtt.Transfer.{Machine, write_handler, read_handler, write_progress, read_progress}
use zybo_z.Mqtt.App.{app, dispatch}

pub record SameCounters (old new : DataInfo) : Type 0 where
  pub write_fail_kept : new.write_fail ≡ old.write_fail
  pub read_fail_kept : new.read_fail ≡ old.read_fail

module _ {S : Type 0} (tls : Tls S) (hr : 0 < tls.error_want_read)
    (hw : 0 < tls.error_want_write) where
  write_progress-SameCounters :
      (ret : ℤ) (info : DataInfo) → SameCounters info (write_progress tls ret info).0
  unfolding write_progress
  write_progress-SameCounters (pos n) info = ground arith
  write_progress-SameCounters (negsuc n) info = ground arith

  read_progress-SameCounters :
      (ret : ℤ) (info : DataInfo) → SameCounters info (read_progress tls ret info).0
  unfolding read_progress
  read_progress-SameCounters (pos n) info = ground arith
  read_progress-SameCounters (negsuc n) info = ground arith

  dispatch-SameCounters :
      (s : MqttState) (b : Bool) (m m' : Machine S)
      → dispatch tls s b m ≡ some m'
      → SameCounters m.handle.info m'.handle.info
  unfolding dispatch write_handler read_handler
  dispatch-SameCounters write b m m' e = grind (arith, write_progress-SameCounters)
  dispatch-SameCounters read b m m' e = grind (arith, read_progress-SameCounters)
  dispatch-SameCounters s b m m' e = ground arith

-- No step of MqttHandle_App counts a failed transfer: the codes of OpenSSL for "want read" and "want
-- write" are positive, and the handlers compare them only with a result that is not.
pub app-SameCounters :
    {S : Type 0} (tls : Tls S) (is_write : Bool) (m m' : Machine S)
    → 0 < tls.error_want_read
    → 0 < tls.error_want_write
    → app tls is_write m ≡ some m'
    → SameCounters m.handle.info m'.handle.info
unfolding app
app-SameCounters tls is_write m m' hr hw e =
    dispatch-SameCounters tls hr hw m.handle.state is_write m m' e
