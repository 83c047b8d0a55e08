-- ===== src/Pedal/Board/Device.antt =====
-- The PedalBoard's registers as the device keeps them: what the writes of I2s.c leave at each address.
use zybo_z.Common.{ℕ, ◌+◌, ◌≡◌, refl, List, [], ◌∷◌, ◌==◌, ◌++◌, if◌then◌else◌, arith, subst, sym}
use zybo_z.Pedal.Config.{Effect, out32, msleep, PedalCfg, Registers}
use zybo_z.Pedal.Board.{write_registers}
use zybo_z.Pedal.Board.Shows.{Words, words, Shows}

-- The device's memory after these effects: a write changes one address, a pause none.
unfoldable pub memory : (ℕ → ℕ) → List Effect → ℕ → ℕ
memory m [] = m
memory m (out32 a v ∷ es) = memory (λ b. if b == a then v else m b) es
memory m (msleep ms ∷ es) = memory m es

module _ (base : ℕ) where
  -- The device's four words.
  abbrev pub words_at : (ℕ → ℕ) → Words
  words_at m = record {
    word1 = m base;
    word2 = m (base + 4);
    word3 = m (base + 8);
    word4 = m (base + 12);
  }

  -- Whatever the device holds before these effects, it shows the configuration after them.
  unfoldable pub Refreshes : PedalCfg → List Effect → Type 0
  Refreshes c es = (m : ℕ → ℕ) → Shows c (words_at (memory m es))

  -- Each of these groups of effects does so.
  unfoldable pub AllRefresh : PedalCfg → List (List Effect) → Type 0
  AllRefresh c [] = Unit
  AllRefresh c (es ∷ ess) = Refreshes c es × AllRefresh c ess

  words-write_registers :
      (r : Registers) (m : ℕ → ℕ) → words_at (memory m (write_registers base r)) ≡ words r
  unfolding memory write_registers
  words-write_registers r m = ground arith

  pub write_registers-Refreshes :
      (c : PedalCfg) (r : Registers) → Shows c (words r) → Refreshes c (write_registers base r)
  unfolding Refreshes
  write_registers-Refreshes c r s m = subst (Shows c) (sym (words-write_registers r m)) s

  -- What stands before or behind does not matter, if it is a pause behind.
  pub cons-Refreshes :
      (c : PedalCfg) (e : Effect) (es : List Effect) → Refreshes c es → Refreshes c (e ∷ es)
  unfolding Refreshes memory
  cons-Refreshes c (out32 a v) es h m = h (λ b. if b == a then v else m b)
  cons-Refreshes c (msleep ms) es h m = h m

  memory-pause :
      (ms : ℕ) (es : List Effect) (m : ℕ → ℕ) → memory m (es ++ msleep ms ∷ []) ≡ memory m es
  unfolding memory
  memory-pause ms [] m = refl
  memory-pause ms (out32 a v ∷ es) m = memory-pause ms es (λ b. if b == a then v else m b)
  memory-pause ms (msleep k ∷ es) m = memory-pause ms es m

  pub pause-Refreshes :
      (c : PedalCfg) (ms : ℕ) (es : List Effect)
      → Refreshes c es
      → Refreshes c (es ++ msleep ms ∷ [])
  unfolding Refreshes
  pause-Refreshes c ms es h m = rw (memory-pause ms es m) (h m)
