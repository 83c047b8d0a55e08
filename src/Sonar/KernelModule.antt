-- ===== src/Sonar/KernelModule.antt =====
-- KernelModules/adcsonar/files/adcsonar_main.c: loading and unloading the kernel module. What the kernel
-- answers is a parameter; a call on a pointer that is no object is a fault, `none`.
pub mod Loading
use zybo_z.Common.{ℕ, ◌≡◌, Bool, true, false, not, Option, none, some, if◌then◌else◌, ◌>>=◌}
use zybo_z.Common.Int.{ℤ, pos, negsuc, ltb_ℤ}
use zybo_z.Sonar.Xadc.{not_requested, Device, Xadc, Platform}
use zybo_z.Sonar.Xadc.Lifecycle.{init, deinit}
use zybo_z.Sonar.Thread.{Sonar, SonarState, start_conv, params_init}

-- A pointer as the kernel returns it: NULL, ERR_PTR of an error, or an object.
pub data Pointer : Type 0 where
  null : Pointer
  err_ptr : ℤ → Pointer
  object : Pointer

abbrev pub is_err : Pointer → Bool
is_err (err_ptr e) = true
is_err null = false
is_err object = false

abbrev pub ptr_err : Pointer → ℤ
ptr_err (err_ptr e) = e
ptr_err null = pos 0
ptr_err object = pos 0

abbrev pub non_null : Pointer → Bool
non_null null = false
non_null (err_ptr e) = true
non_null object = true

-- What register_chrdev, class_create, device_create and kthread_run return.
pub record Answers : Type 0 where
  pub register_chrdev : ℤ
  pub class_create : Pointer
  pub device_create : Pointer
  pub kthread_run : Pointer

-- What the kernel holds for the module; the interrupt is kept in `Xadc`.
pub record Held : Type 0 where
  pub chrdev : Bool
  pub class_object : Bool
  pub device_object : Bool
  pub kthread : Bool

-- The module's variables, and what the kernel holds for it.
pub record KernelModule (D : Type 0) : Type 0 where
  pub adcsonar_major : ℤ
  pub adcsonar_class : Pointer
  pub adcsonar_device : Pointer
  pub xadc_ktask : Pointer
  pub sonar : Sonar D
  pub held : Held

abbrev pub nothing_held : Held
nothing_held = record {
  chrdev = false;
  class_object = false;
  device_object = false;
  kthread = false;
}

-- The module as the loader leaves it, every static variable at its initial value.
abbrev pub loaded : {D : Type 0} → D → KernelModule D
loaded d = record {
  adcsonar_major = pos 0;
  adcsonar_class = null;
  adcsonar_device = null;
  xadc_ktask = null;
  sonar = record {
    state = start_conv;
    raw_data = 0;
    sonar_data = record { distance = 0; version = 0 };
    xadc = record {
      mapped = false;
      interrupt_id = pos 0;
      has_cb = false;
      irq = not_requested;
      device = d;
    };
  };
  held = nothing_held;
}

abbrev pub is_object : Pointer → Bool
is_object null = false
is_object (err_ptr e) = false
is_object object = true

module _ {D : Type 0} (dev : Device D) where
  -- The end of adcsonar_init: adcSonar_ParamsInit's data, Xadc_Init and the thread.
  unfoldable pub start_sonar : Platform → Answers → KernelModule D → Option (KernelModule D × ℤ)
  start_sonar p a m = do
    let s = record m.sonar { sonar_data = record { distance = 0; version = 0 } }
    x ← init dev p params_init s.xadc
    let m1 = record m { sonar = record s { xadc = x } }
    some (
      if x.mapped
          then record m1 {
            xadc_ktask = a.kthread_run;
            held = record m1.held { kthread = is_object a.kthread_run };
          }
          else m1,
      pos 0,
    )

  -- adcsonar_init
  unfoldable pub adcsonar_init : Platform → Answers → KernelModule D → Option (KernelModule D × ℤ)
  unfolding start_sonar
  adcsonar_init p a m =
      let m1 = record m { adcsonar_major = a.register_chrdev } in
      if ltb_ℤ a.register_chrdev (pos 0)
      then some (m1, a.register_chrdev)
      else let m2 = record m1 {
        adcsonar_class = a.class_create;
        held = record m1.held { chrdev = true; class_object = is_object a.class_create };
      } in
        if is_err a.class_create
        then some (m2, ptr_err a.class_create)
        else let m3 = record m2 {
          adcsonar_device = a.device_create;
          held = record m2.held { device_object = is_object a.device_create };
        } in
          if is_err a.device_create then some (m3, ptr_err a.device_create) else start_sonar p a m3

  -- kthread_stop, if there is a task
  unfoldable pub stop_task : Pointer → KernelModule D → Option (KernelModule D)
  stop_task null m = some m
  stop_task (err_ptr e) m = none
  stop_task object m = some (record m { held = record m.held { kthread = false } })

  -- adcsonar_exit
  unfoldable pub adcsonar_exit : KernelModule D → Option (KernelModule D)
  unfolding stop_task
  adcsonar_exit m = do
    m1 ← stop_task m.xadc_ktask m
    x ← deinit dev m1.sonar.xadc
    let m2 = record m1 { sonar = record m1.sonar { xadc = x } }
    let m3 =
        (if non_null m2.adcsonar_device
          then record m2 { held = record m2.held { device_object = false } }
          else m2)
    let m4 =
        (if non_null m3.adcsonar_class
          then record m3 { held = record m3.held { class_object = false } }
          else m3)
    some (
        if ltb_ℤ (pos 0) m4.adcsonar_major
        then record m4 { held = record m4.held { chrdev = false } }
        else m4)
