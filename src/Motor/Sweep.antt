-- ===== src/Motor/Sweep.antt =====
-- motorcontrol.c: the duty cycles that the thread sets, and their period.
use zybo_z.Common.{
  ℕ, zero, suc, ◌+◌, ◌-◌, ◌*◌, ◌≡◌, ◌≤◌, ◌<◌, refl, arith, Bool, true, false, ◌⊎◌, inl, inr, ap,
  ◌∙◌,
}
use zybo_z.Motor.{
  pwm_period, pwm_step, pwm_max, pwm_min, Motor, motor_start, motor_dir, motor_step, motor_run,
}

-- A duty cycle the thread can reach: a whole number of steps, at most the period.
unfoldable pub IsSwept : Motor → Type 0
IsSwept m = (k : ℕ) × (m.dutycycle ≡ k * 500) × (k ≤ 100)

rising_bound : (m : Motor) → motor_dir m ≡ true → m.dutycycle ≤ pwm_max
unfolding motor_dir
rising_bound m q = ground arith

falling_bound : (m : Motor) → motor_dir m ≡ false → pwm_min ≤ m.dutycycle
unfolding motor_dir
falling_bound m q = ground arith

motor_step-IsSwept :
    (m : Motor)
    → IsSwept m
    → IsSwept (motor_step m)
      × (((motor_step m).dutycycle ≡ m.dutycycle + pwm_step)
          ⊎ ((motor_step m).dutycycle + pwm_step ≡ m.dutycycle))
unfolding motor_step motor_dir IsSwept
motor_step-IsSwept m (k, e, l) = by_dir (motor_dir m) refl
  where
    by_dir :
        (d : Bool)
        → motor_dir m ≡ d
        → IsSwept (motor_step m)
          × (((motor_step m).dutycycle ≡ m.dutycycle + pwm_step)
              ⊎ ((motor_step m).dutycycle + pwm_step ≡ m.dutycycle))
    by_dir true q = rw q (
      (suc k, omega (arith, e, rising_bound m q), omega (arith, rising_bound m q)),
      inl (omega (arith, e, l)),
    )
    by_dir false q = rw q (
      (k - 1, omega (arith, e, falling_bound m q), omega arith),
      inr (omega (arith, e, l, falling_bound m q)),
    )

-- From a duty cycle of at most 100 steps of 500, the thread never sets one above the period.
pub motor_run_lem :
    (n : ℕ) (m : Motor)
    → IsSwept m
    → IsSwept (motor_run n m) × ((motor_run n m).dutycycle ≤ pwm_period)
unfolding motor_run IsSwept
motor_run_lem zero m (k, e, l) = ((k, e, l), omega (arith, e, l))
motor_run_lem (suc n) m i = motor_run_lem n (motor_step m) ((motor_step-IsSwept m i).0)

zero_add : (b : ℕ) → 0 + b ≡ b
zero_add b = omega arith

suc_add : (a b : ℕ) → suc a + b ≡ suc (a + b)
suc_add a b = omega arith

motor_run-add : (a b : ℕ) (m : Motor) → motor_run (a + b) m ≡ motor_run b (motor_run a m)
unfolding motor_run
motor_run-add zero b m = rw (zero_add b) refl
motor_run-add (suc a) b m = rw (suc_add a b) (motor_run-add a b (motor_step m))

abbrev motor : ℕ → Bool → Motor
motor duty dir = record { dutycycle = duty; pwm_dir = dir }

step_up : (k : ℕ) → k < 100 → motor_step (motor (k * 500) true) ≡ motor (suc k * 500) true
unfolding motor_step motor_dir
step_up k h = ground arith

step_down : (k : ℕ) → k < 99 → motor_step (motor (suc k * 500) false) ≡ motor (k * 500) false
unfolding motor_step motor_dir
step_down k h = ground arith

-- The thread rises step by step, and from the top falls step by step.
rises : (n k : ℕ) → k + n ≤ 100 → motor_run n (motor (k * 500) true) ≡ motor ((k + n) * 500) true
unfolding motor_run
rises zero k h = ap (λ (x : ℕ). motor x true) (omega arith)
rises (suc n) k h =
    ap (motor_run n) (step_up k (omega (arith, h)))
    ∙ rises n (suc k) (omega (arith, h))
    ∙ ap (λ (x : ℕ). motor x true) (omega arith)

falls : (n k : ℕ) → k + n ≤ 99 → motor_run n (motor ((k + n) * 500) false) ≡ motor (k * 500) false
unfolding motor_run
falls zero k h = ap (λ (x : ℕ). motor x false) (omega arith)
falls (suc n) k h =
    ap (motor_run n)
      (ap (λ (x : ℕ). motor_step (motor x false)) next ∙ step_down (k + n) (omega (arith, h)))
    ∙ falls n k (omega (arith, h))
  where
    next : (k + suc n) * 500 ≡ suc (k + n) * 500
    next = omega arith

top : motor_step (motor 50000 true) ≡ motor 49500 false
unfolding motor_step motor_dir
top = refl

bottom : (d : Bool) → motor_step (motor 0 d) ≡ motor 500 true
unfolding motor_step motor_dir
bottom true = refl
bottom false = refl

-- n steps up from 0, and n steps down from the period.
from_bottom :
    (n : ℕ) (d : Bool) → n < 100 → motor_run (suc n) (motor 0 d) ≡ motor (suc n * 500) true
unfolding motor_run
from_bottom n d h =
    ap (motor_run n) (bottom d)
    ∙ rises n 1 (omega (arith, h))
    ∙ ap (λ (x : ℕ). motor x true) (omega arith)

from_top : (n : ℕ) → n < 100 → motor_run (suc n) (motor 50000 true) ≡ motor ((99 - n) * 500) false
unfolding motor_run
from_top n h =
    ap (motor_run n) (top ∙ ap (λ (x : ℕ). motor x false) whole)
    ∙ falls n (99 - n) (omega (arith, h))
  where
    whole : 49500 ≡ (99 - n + n) * 500
    whole = omega (arith, h)

bottom_duty : (n : ℕ) (d : Bool) → n ≤ 100 → (motor_run n (motor 0 d)).dutycycle ≡ n * 500
bottom_duty zero d h = unfold motor_run in refl
bottom_duty (suc n) d h = ap (λ (m : Motor). m.dutycycle) (from_bottom n d (omega (arith, h)))

top_duty : (n : ℕ) → n ≤ 100 → (motor_run n (motor 50000 true)).dutycycle ≡ 50000 - n * 500
top_duty zero h = unfold motor_run in refl
top_duty (suc n) h =
    ap (λ (m : Motor). m.dutycycle) (from_top n (omega (arith, h))) ∙ omega (arith, h)

-- 200 iterations are a period.
period : (d : Bool) → motor_run 200 (motor 0 d) ≡ motor 0 false
period d =
    motor_run-add 100 100 (motor 0 d)
    ∙ ap (motor_run 100) (from_bottom 99 d (omega arith))
    ∙ from_top 99 (omega arith)

periods : (q : ℕ) (d : Bool) → (d' : Bool) × (motor_run (q * 200) (motor 0 d) ≡ motor 0 d')
unfolding motor_run
periods zero d = (d, ap (λ (n : ℕ). motor_run n (motor 0 d)) no_time)
  where
    no_time : 0 * 200 ≡ 0
    no_time = omega arith
periods (suc q) d =
    let (d', e) = periods q false in
    (
      d',
      ap (λ (n : ℕ). motor_run n (motor 0 d)) (whole q)
          ∙ motor_run-add 200 (q * 200) (motor 0 d)
          ∙ ap (motor_run (q * 200)) (period d)
          ∙ e,
    )
  where
    whole : (q : ℕ) → suc q * 200 ≡ 200 + q * 200
    whole q = omega arith

-- The duty cycle is a triangle wave: from the module's start it rises from 0 to the period in 100 equal
-- steps and falls back to 0 in 100 more, again and again.
pub motor_run-sweep :
    (q n : ℕ)
    → n ≤ 100
    → ((motor_run (q * 200 + n) motor_start).dutycycle ≡ n * 500)
      × ((motor_run (q * 200 + (100 + n)) motor_start).dutycycle ≡ pwm_period - n * 500)
motor_run-sweep q n h =
    let (d, e) = periods q true in
    (
      ap (λ (m : Motor). m.dutycycle) (motor_run-add (q * 200) n motor_start ∙ ap (motor_run n) e)
          ∙ bottom_duty n d h,
      ap (λ (m : Motor). m.dutycycle)
            (motor_run-add (q * 200) (100 + n) motor_start
              ∙ ap (motor_run (100 + n)) e
              ∙ motor_run-add 100 n (motor 0 d)
              ∙ ap (motor_run n) (from_bottom 99 d (omega arith)))
          ∙ top_duty n h,
    )
