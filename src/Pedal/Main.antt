-- ===== src/Pedal/Main.antt =====
-- PedalBoardProject/main.c: the firmware's start and its loop.
pub mod Start
use zybo_z.Common.{
  ℕ, zero, suc, Bool, true, not, Option, none, some, [], ◌∷◌, ◌++◌, ◌==◌, if◌then◌else◌,
}
use zybo_z.Pedal.Config.{Board, msleep}
use zybo_z.Pedal.Board.{init, every_100ms}
use zybo_z.Pedal.Codec.{Iic, Flags, i2c_init, codec_config}

-- The firmware's state: the codec's flags and world, the board, and whether interrupts are enabled.
pub record Firmware (B : Type 0) : Type 0 where
  pub flags : Flags
  pub bus : B
  pub board : Board
  pub exceptions_enabled : Bool

module _ {B : Type 0} (iic : Iic B) (base : ℕ) where
  -- `main` up to its loop: what it returns, or `none` if it goes on to the loop. PedalBoard_Init always
  -- succeeds.
  unfoldable pub start : Firmware B → Firmware B × Option ℕ
  start f =
      let (flags, (bus1, status1)) = i2c_init iic (f.flags, f.bus) in
      let f1 = record f { flags = flags; bus = bus1 } in
      if not (status1 == iic.xst_success)
      then (f1, some iic.xst_device_is_stopped)
      else let (bus2, status2) = codec_config iic bus1 in
        let f2 = record f1 { bus = bus2 } in
        if not (status2 == iic.xst_success)
        then (f2, some iic.xst_device_is_stopped)
        else (record f2 { board = init base f2.board; exceptions_enabled = true }, none)

module _ (base : ℕ) where
  -- One turn of the loop, and n turns.
  unfoldable pub turn : Board → Board
  turn b = let b' = every_100ms base b in record b' { effects = b'.effects ++ msleep 100 ∷ [] }

  unfoldable pub turns : ℕ → Board → Board
  turns zero b = b
  turns (suc n) b = turns n (turn b)
