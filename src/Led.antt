-- ===== src/Led.antt =====
-- KernelModules/firstmodule/files/firstmodule.c: the module whose thread blinks two LEDs in turn.
pub mod Blinking
mod Tests
use zybo_z.Common.{
  ℕ, zero, suc, Bool, true, false, Option, none, some, List, [], ◌∷◌, ◌++◌, if◌then◌else◌,
}
use zybo_z.Common.Int.{ℤ}

abbrev pub led_gpio0 : ℕ
led_gpio0 = 512

abbrev pub led_gpio1 : ℕ
led_gpio1 = 513

-- What the module asks of the kernel, by the number of the GPIO. gpio_request and gpio_direction_output are
-- recorded with what they have returned, which the module does not look at.
pub data GpioCall : Type 0 where
  gpio_request : ℕ → ℤ → GpioCall
  gpio_free : ℕ → GpioCall
  gpio_direction_output : ℕ → ℕ → ℤ → GpioCall
  gpio_set_value : ℕ → ℕ → GpioCall
  msleep : ℕ → GpioCall

-- What gpio_request and gpio_direction_output return for the two LEDs, and whether kthread_run makes the thread.
pub record Answers : Type 0 where
  pub request0 : ℤ
  pub request1 : ℤ
  pub direction0 : ℤ
  pub direction1 : ℤ
  pub started : Bool

-- Whether `thread` is a thread that runs, and the calls so far.
pub record Led : Type 0 where
  pub thread : Bool
  pub calls : List GpioCall

abbrev pub led_start : Led
led_start = record { thread = false; calls = [] }

-- led_init, which returns 0 always
unfoldable pub led_init : Answers → Led → Led
led_init a m = record {
  thread = a.started;
  calls =
      m.calls
      ++ gpio_request led_gpio0 a.request0
        ∷ gpio_request led_gpio1 a.request1
        ∷ gpio_direction_output led_gpio0 0 a.direction0
        ∷ gpio_direction_output led_gpio1 0 a.direction1
        ∷ [];
}

-- A turn of the loop of led_thread, and n turns.
unfoldable pub led_turn : Led → Led
led_turn m = record m {
  calls =
      m.calls
      ++ gpio_set_value led_gpio0 1
        ∷ gpio_set_value led_gpio1 0
        ∷ msleep 1000
        ∷ gpio_set_value led_gpio0 0
        ∷ gpio_set_value led_gpio1 1
        ∷ msleep 1000
        ∷ [];
}

unfoldable pub led_turns : ℕ → Led → Led
unfolding led_turn
led_turns zero m = m
led_turns (suc n) m = led_turns n (led_turn m)

-- led_exit: kthread_stop, which lets the thread finish its turn, faults without a thread.
unfoldable pub led_exit : Led → Option Led
led_exit m =
    if m.thread
    then some (record {
      thread = false;
      calls =
          m.calls
          ++ gpio_set_value led_gpio0 0
            ∷ gpio_set_value led_gpio1 0
            ∷ gpio_free led_gpio0
            ∷ gpio_free led_gpio1
            ∷ [];
    })
    else none
