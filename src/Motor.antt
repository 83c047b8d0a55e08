-- ===== src/Motor.antt =====
-- KernelModules/motorcontrol/files/motorcontrol.c: the thread that sweeps the PWM's duty cycle.
pub mod Sweep
pub mod Module
mod Tests
use zybo_z.Common.{
  ℕ, zero, suc, ◌+◌, ◌-◌, ◌*◌, ◌^◌, ◌≡◌, ◌≤◌, ◌<◌, refl, arith, Bool, true, false, ltb, ◌⊎◌, inl,
  inr, ap, ◌∙◌, if◌then◌else◌, u32,
}

abbrev pub pwm_period : ℕ
pwm_period = 50000

abbrev pub pwm_step : ℕ
pwm_step = 500

abbrev pub pwm_max : ℕ
pwm_max = 49500

abbrev pub pwm_min : ℕ
pwm_min = 500

-- dutycycle and pwm_dir
pub record Motor : Type 0 where
  pub dutycycle : ℕ
  pub pwm_dir : Bool

abbrev pub motor_start : Motor
motor_start = record { dutycycle = 0; pwm_dir = true }

-- The direction of the next step
unfoldable pub motor_dir : Motor → Bool
motor_dir m =
    if ltb pwm_max m.dutycycle then false else if ltb m.dutycycle pwm_min then true else m.pwm_dir

-- One iteration of ledControlThread; the unsigned subtraction wraps around.
unfoldable pub motor_step : Motor → Motor
unfolding motor_dir
motor_step m = record {
  dutycycle =
      (if motor_dir m then u32 (m.dutycycle + pwm_step) else u32 (m.dutycycle + 2 ^ 32 - pwm_step));
  pwm_dir = motor_dir m;
}

-- ledControlThread stopped after n iterations
unfoldable pub motor_run : ℕ → Motor → Motor
motor_run zero m = m
motor_run (suc n) m = motor_run n (motor_step m)
