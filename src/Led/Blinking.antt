-- ===== src/Led/Blinking.antt =====
-- firstmodule.c: what the LEDs show while the thread sleeps, and what unloading leaves.
use zybo_z.Common.{
  ℕ, zero, suc, Bool, true, false, not, Option, none, some, List, [], ◌∷◌, ◌++◌, ◌==◌, ◌&&◌,
  if◌then◌else◌, ◌>>=◌,
}
use zybo_z.Common.Int.{is_zero}
use zybo_z.Common.Replay.{replay}
use zybo_z.Led.{
  led_gpio0, led_gpio1, GpioCall, gpio_request, gpio_free, gpio_direction_output, gpio_set_value,
  msleep, Answers, Led,
}

-- One GPIO: whether it is requested, whether it is an output, and its level.
pub record Pin : Type 0 where
  pub requested : Bool
  pub output : Bool
  pub level : ℕ

-- The two LEDs, and the levels that they have shown in each pause.
pub record Pins : Type 0 where
  pub led0 : Pin
  pub led1 : Pin
  pub shown : List (ℕ × ℕ)

abbrev pub off : Pin
off = record { requested = false; output = false; level = 0 }

abbrev pub dark : Pins
dark = record { led0 = off; led1 = off; shown = [] }

abbrev guard : Bool → Pin → Option Pin
guard true p = some p
guard false p = none

-- A change of the pin with this number.
abbrev on_pin : ℕ → (Pin → Option Pin) → Pins → Option Pins
on_pin n f s =
    if n == led_gpio0
    then (f s.led0 >>= λ p. some (record s { led0 = p }))
    else if n == led_gpio1
    then (f s.led1 >>= λ p. some (record s { led1 = p }))
    else none

-- A GPIO is held once gpio_request has returned 0, and then not requested again; it is made an output only
-- while it is held, driven only while it is an output, and freed once.
abbrev pub after_call : GpioCall → Pins → Option Pins
after_call (gpio_request n r) s =
    on_pin n (λ p. guard (not p.requested) (record p { requested = is_zero r })) s
after_call (gpio_free n) s =
    on_pin n (λ p. guard p.requested (record p { requested = false; output = false })) s
after_call (gpio_direction_output n v r) s =
    on_pin n
      (λ p.
        guard p.requested
          (record p { output = is_zero r; level = (if is_zero r then v else p.level) }))
      s
after_call (gpio_set_value n v) s = on_pin n (λ p. guard p.output (record p { level = v })) s
after_call (msleep ms) s = some (record s { shown = s.shown ++ (s.led0.level, s.led1.level) ∷ [] })

abbrev pub watch : Pins → List GpioCall → Option Pins
watch = replay after_call

-- The first LED alone and the second alone, n times.
abbrev pub alternate : ℕ → List (ℕ × ℕ)
alternate zero = []
alternate (suc n) = (1, 0) ∷ (0, 1) ∷ alternate n

-- Both are requested, and outputs.
abbrev lit : ℕ → ℕ → List (ℕ × ℕ) → Pins
lit a b shown = record {
  led0 = record { requested = true; output = true; level = a };
  led1 = record { requested = true; output = true; level = b };
  shown = shown;
}

-- The calls that unload the module.
abbrev exit_calls : List GpioCall
exit_calls =
    gpio_set_value led_gpio0 0
    ∷ gpio_set_value led_gpio1 0
    ∷ gpio_free led_gpio0
    ∷ gpio_free led_gpio1
    ∷ []

-- Both requests have been granted.
abbrev pub granted : Answers → Bool
granted a = is_zero a.request0 && is_zero a.request1
