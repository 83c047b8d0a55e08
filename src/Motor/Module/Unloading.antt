-- ===== src/Motor/Module/Unloading.antt =====
-- motorcontrol.c: the PWM's life from loading to unloading.
use zybo_z.Common.{
  ℕ, zero, suc, ◌≡◌, refl, ◌∙◌, arith, Bool, true, false, Option, none, some, List, [], ◌∷◌, ◌++◌,
  leb, if◌then◌else◌, le→leb,
}
use zybo_z.Common.Int.{ℤ, pos}
use zybo_z.Common.Replay.{replay, replay-append}
use zybo_z.Motor.{pwm_period, motor_start, motor_step, motor_run}
use zybo_z.Motor.Sweep.{IsSwept, motor_run_lem}
use zybo_z.Motor.Module.{
  PwmCall, pwm_get, pwm_config, pwm_enable, pwm_disable, pwm_put, MotorModule, module_start,
  motorcontrol_init, thread_turn, thread_turns, motorcontrol_exit,
}

-- The PWM device as the kernel sees it, with the duty cycle and the period in the last two.
pub data Pwm : Type 0 where
  released : Pwm
  stopped running : ℕ → ℕ → Pwm

-- The device is configured only while it is held and never with a duty cycle above the period, disabled before it
-- is given back, and given back once.
abbrev pub after_call : PwmCall → Pwm → Option Pwm
after_call (pwm_get false) released = some released
after_call (pwm_get true) released = some (stopped 0 0)
after_call (pwm_config d p) (stopped d' p') = if leb d p then some (stopped d p) else none
after_call (pwm_config d p) (running d' p') = if leb d p then some (running d p) else none
after_call pwm_enable (stopped d p) = some (running d p)
after_call pwm_disable (running d p) = some (stopped d p)
after_call pwm_put (stopped d p) = some released
after_call _ _ = none

abbrev pub watch : Pwm → List PwmCall → Option Pwm
watch = replay after_call

turns-watch :
    (n : ℕ) (m : MotorModule) (d : ℕ)
    → IsSwept m.motor
    → watch released m.calls ≡ some (running d pwm_period)
    → ((d' : ℕ) × (watch released (thread_turns n m).calls ≡ some (running d' pwm_period)))
      × ((thread_turns n m).thread ≡ m.thread)
      × ((thread_turns n m).motor ≡ motor_run n m.motor)
unfolding thread_turns thread_turn replay motor_run
turns-watch zero m d w h = ((d, h), refl, refl)
turns-watch (suc n) m d w h =
    let (w1, b) = motor_run_lem 1 m.motor w in
    let duty = (motor_step m.motor).dutycycle in
    let once : watch released (thread_turn m).calls ≡ some (running duty pwm_period) =
      replay-append after_call released m.calls (pwm_config duty pwm_period ∷ [])
      ∙ rw (h, le→leb duty pwm_period b) refl in
    turns-watch n (thread_turn m) duty w1 once

-- If pwm_get fails its error is returned and nothing is held. Otherwise motorcontrol_init returns 0; after any
-- number of turns of the thread the module can be unloaded: the duty cycle is that of the sweep, every call on the
-- PWM was allowed, and the PWM is disabled and given back. If kthread_run has failed, which motorcontrol_init
-- does not notice, unloading faults.
pub motorcontrol_exit_lem :
    (n : ℕ)
    → ((error : ℤ) (started : Bool)
        → ((motorcontrol_init (some error) started module_start).1 ≡ error)
          × (watch released (motorcontrol_init (some error) started module_start).0.calls
              ≡ some released))
      × ((motorcontrol_init none true module_start).1 ≡ pos 0)
      × ((m : MotorModule) × (motorcontrol_exit
              (thread_turns n (motorcontrol_init none true module_start).0)
            ≡ some m)
          × (m.motor ≡ motor_run n motor_start)
          × (m.thread ≡ false)
          × (watch released m.calls ≡ some released))
      × (motorcontrol_exit (motorcontrol_init none false module_start).0 ≡ none)
unfolding motorcontrol_init motorcontrol_exit replay IsSwept
motorcontrol_exit_lem n =
    let m = (motorcontrol_init none true module_start).0 in
    let ((d, e), k, r) = turns-watch n m 25000 (0, refl, omega arith) refl in
    (
      λ error started. (refl, refl),
      refl,
      (
        record (thread_turns n m) {
          thread = false;
          calls = (thread_turns n m).calls ++ pwm_disable ∷ pwm_put ∷ [];
        },
        rw k refl,
        r,
        refl,
        replay-append after_call released (thread_turns n m).calls (pwm_disable ∷ pwm_put ∷ [])
            ∙ rw e refl,
      ),
      refl,
    )
