-- ===== src/Pedal/Board/Writes.antt =====
-- What the periodic function and the initialisation of I2s.c write to the device.
use zybo_z.Common.{ℕ, ◌+◌, ◌≡◌, refl, sym, subst, true, List, ◌∷◌, ◌++◌}
use zybo_z.Common.Int.{ℤ}
use zybo_z.Pedal.Config.{Effect, out32, msleep, Board, Registers}
use zybo_z.Pedal.Board.{write_registers, init, every_100ms}
use zybo_z.Pedal.Board.Shows.{
  IsInt8, Shows, words, HoldsHigh, packed, ip_init_lem, packed-Shows, packed-HoldsHigh,
}
use zybo_z.Pedal.Board.Device.{Refreshes, write_registers-Refreshes, cons-Refreshes}

module _ (base : ℕ) where
  init-packed : (b : Board) → (init base b).regs ≡ packed true b.cfg b.regs
  unfolding init
  init-packed b = refl

  -- The initialisation first clears the first two registers and waits, and then writes the four words;
  -- after them the device's registers show the configuration with the device enabled, whatever `isStart` was.
  pub init_lem :
      (b : Board)
      → IsInt8 b.cfg.gain
      → let on = record b.cfg { is_start = true } in
        (es : List Effect) × ((init base b).effects ≡ b.effects ++ es)
        × Refreshes base on es
        × HoldsHigh on (init base b).regs
        × ((init base b).cfg ≡ on)
  init_lem b g =
      let r = (init base b).regs in
      let on = record b.cfg { is_start = true } in
      let e = sym (init-packed b) in
      let w = write_registers base r in
      (
        out32 (base + 0x0) 0x0 ∷ out32 (base + 0x4) 0x0 ∷ msleep 100 ∷ w,
        unfold init in refl,
        cons-Refreshes base on (out32 (base + 0x0) 0x0) _ (
            cons-Refreshes base on (out32 (base + 0x4) 0x0) (msleep 100 ∷ w) (
              cons-Refreshes base on (msleep 100) w (
                write_registers-Refreshes base on r (
                  subst (λ (x : Registers). Shows on (words x)) e
                    (packed-Shows true on b.regs g refl))))),
        subst (HoldsHigh on) e (packed-HoldsHigh true on b.regs),
        unfold init in refl,
      )

  -- Nothing that PedalBoard_100ms writes depends on the high threshold: its field lies in the second
  -- word of the union, and only the first is written.
  pub every_100ms-threshold_high :
      (b : Board) (t : ℤ)
      → (every_100ms base (record b { cfg = record b.cfg { threshold_high = t } })).effects
        ≡ (every_100ms base b).effects
  unfolding every_100ms
  every_100ms-threshold_high b t = simp ip_init_lem
