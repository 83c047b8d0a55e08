-- ===== src/Led/Tests.antt =====
-- The LED module over three turns.
use zybo_z.Common.{◌≡◌, refl, true, none}
use zybo_z.Common.Int.{pos, negsuc}
use zybo_z.Common.Replay.{replay}
use zybo_z.Led.{Answers, Led, led_start, led_init}
use zybo_z.Led.Blinking.{dark, watch}

abbrev all_well : Answers
all_well = record {
  request0 = pos 0;
  request1 = pos 0;
  direction0 = pos 0;
  direction1 = pos 0;
  started = true;
}

-- A busy GPIO is used all the same.
busy_gpio : watch dark (led_init (record all_well { request0 = negsuc 15 }) led_start).calls ≡ none
unfolding led_init replay
busy_gpio = refl
