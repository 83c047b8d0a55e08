-- ===== src/Motor/Tests.antt =====
-- The motor's theorems at concrete iterations.
use zybo_z.Common.{◌+◌, ◌-◌, ◌*◌, ◌≡◌, refl, arith, Bool, true, false, none, some}
use zybo_z.Common.Int.{ℤ, pos}
use zybo_z.Motor.{motor_start, motor_run, pwm_period}
use zybo_z.Motor.Module.{
  MotorModule, module_start, motorcontrol_init, thread_turns, motorcontrol_exit,
}
use zybo_z.Motor.Module.Unloading.{released, watch, motorcontrol_exit_lem}
use zybo_z.Motor.Sweep.{IsSwept, motor_run-sweep}

motor_start-IsSwept : IsSwept motor_start
unfolding IsSwept
motor_start-IsSwept = (0, refl, omega arith)

motor_run-sweep_example :
    ((motor_run (3 * 200 + 40) motor_start).dutycycle ≡ 40 * 500)
    × ((motor_run (3 * 200 + (100 + 40)) motor_start).dutycycle ≡ pwm_period - 40 * 500)
motor_run-sweep_example = motor_run-sweep 3 40 (omega arith)

motorcontrol_exit_example :
    ((error : ℤ) (started : Bool)
      → ((motorcontrol_init (some error) started module_start).1 ≡ error)
        × (watch released (motorcontrol_init (some error) started module_start).0.calls
            ≡ some released))
    × ((motorcontrol_init none true module_start).1 ≡ pos 0)
    × ((m : MotorModule) × (motorcontrol_exit
            (thread_turns 150 (motorcontrol_init none true module_start).0)
          ≡ some m)
        × (m.motor ≡ motor_run 150 motor_start)
        × (m.thread ≡ false)
        × (watch released m.calls ≡ some released))
    × (motorcontrol_exit (motorcontrol_init none false module_start).0 ≡ none)
motorcontrol_exit_example = motorcontrol_exit_lem 150
