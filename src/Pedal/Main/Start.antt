-- ===== src/Pedal/Main/Start.antt =====
-- main.c: the board is driven only after the codec has its configuration, and then shows the pedal's.
use zybo_z.Common.{ℕ, suc, ◌≡◌, true, Option, none, some, ◌++◌, List, length, flatten}
use zybo_z.Pedal.Config.{Board, PedalCfg, Effect}
use zybo_z.Pedal.Board.Shows.{HoldsHigh}
use zybo_z.Pedal.Board.Device.{AllRefresh}
use zybo_z.Pedal.Codec.{codec_addr, succeeded, Iic, checked}
use zybo_z.Pedal.Codec.Script.{Event, IsIic, events, config_script}
use zybo_z.Pedal.Main.{Firmware, turns}

module _ (base : ℕ) where
  -- From these effects on, the board has driven the device in this many groups of effects, each of which makes
  -- the device show the configuration; the board's own variables hold it too.
  unfoldable pub Displays : PedalCfg → ℕ → List Effect → Board → Type 0
  Displays c n before b =
      (ess : List (List Effect)) × (length ess ≡ n)
      × (b.effects ≡ before ++ flatten ess)
      × AllRefresh base c ess
      × HoldsHigh c b.regs
      × (b.cfg ≡ c)

module _ {B : Type 0} (iic : Iic B) (log : B → List Event) (law : IsIic iic log) where
  -- The calls of I2c_Init from the last one back.
  abbrev connect_all : B → B × ℕ
  connect_all b = succeeded iic (iic.connect_interrupt (iic.set_handlers (iic.set_options b)))

  abbrev address_and_connect : B → B × ℕ
  address_and_connect = checked iic (iic.set_address codec_addr) connect_all

  -- How `main` has got through its start, seen after n turns of the loop if it came to that.
  abbrev pub Starts : ℕ → ℕ → Firmware B → Firmware B × Option ℕ → Type 0
  Starts base n f (f', some r) =
      (r ≡ iic.xst_device_is_stopped)
      × (f'.board ≡ f.board)
      × (f'.exceptions_enabled ≡ f.exceptions_enabled)
  Starts base n f (f', none) =
      (log f'.bus ≡ log f.bus ++ events config_script)
      × (f'.exceptions_enabled ≡ true)
      × Displays base (record f.board.cfg { is_start = true }) (suc n) f.board.effects
          (turns base n f'.board)
