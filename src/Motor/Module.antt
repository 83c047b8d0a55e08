-- ===== src/Motor/Module.antt =====
-- KernelModules/motorcontrol/files/motorcontrol.c: loading, the thread's writes to the PWM, and unloading.
pub mod Unloading
use zybo_z.Common.{
  ℕ, zero, suc, Bool, true, false, Option, none, some, List, [], ◌∷◌, ◌++◌, if◌then◌else◌,
}
use zybo_z.Common.Int.{ℤ, pos}
use zybo_z.Motor.{pwm_period, Motor, motor_start, motor_step}

-- The calls on Pwm0; `pwm_get` with whether it gave a device.
pub data PwmCall : Type 0 where
  pwm_get : Bool → PwmCall
  pwm_config : ℕ → ℕ → PwmCall
  pwm_enable pwm_disable pwm_put : PwmCall

-- The variables, with `thread` for a thread that runs, and the calls so far.
pub record MotorModule : Type 0 where
  pub motor : Motor
  pub thread : Bool
  pub calls : List PwmCall

abbrev pub module_start : MotorModule
module_start = record { motor = motor_start; thread = false; calls = [] }

-- motorcontrol_init: the error that pwm_get gives, if it gives one, and whether kthread_run makes the thread.
unfoldable pub motorcontrol_init : Option ℤ → Bool → MotorModule → MotorModule × ℤ
motorcontrol_init (some error) started m =
    (record m { calls = m.calls ++ pwm_get false ∷ [] }, error)
motorcontrol_init none started m = (
  record m {
    thread = started;
    calls = m.calls ++ pwm_get true ∷ pwm_config 25000 pwm_period ∷ pwm_enable ∷ [];
  },
  pos 0,
)

-- A turn of ledControlThread, and n turns.
unfoldable pub thread_turn : MotorModule → MotorModule
unfolding motor_step
thread_turn m =
    let motor = motor_step m.motor in
    record m { motor = motor; calls = m.calls ++ pwm_config motor.dutycycle pwm_period ∷ [] }

unfoldable pub thread_turns : ℕ → MotorModule → MotorModule
unfolding thread_turn
thread_turns zero m = m
thread_turns (suc n) m = thread_turns n (thread_turn m)

-- motorcontrol_exit: kthread_stop faults without a thread.
unfoldable pub motorcontrol_exit : MotorModule → Option MotorModule
motorcontrol_exit m =
    if m.thread
    then some (record m { thread = false; calls = m.calls ++ pwm_disable ∷ pwm_put ∷ [] })
    else none
