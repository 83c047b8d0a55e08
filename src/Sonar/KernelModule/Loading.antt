-- ===== src/Sonar/KernelModule/Loading.antt =====
-- adcsonar_main.c: what adcsonar_init establishes, and what adcsonar_exit gives back.
use zybo_z.Common.{
  ℕ, suc, ◌≡◌, ◌≢◌, refl, ◌∙◌, sym, arith, ◌⊎◌, inl, inr, Bool, true, false, not, ◌&&◌, none, some,
  if◌then◌else◌,
}
use zybo_z.Common.Int.{pos, positive, not_negative, is_zero}
use zybo_z.Sonar.Xadc.{Device, Xadc, Platform, misfreed, not_requested}
use zybo_z.Sonar.Xadc.Lifecycle.{init, init-mapped, deinit_fault}
use zybo_z.Sonar.Xadc.Requests.{
  IsPlatform, numbers_irq, irq_of_init, irq_of_deinit_lem, deinit-init,
}
use zybo_z.Sonar.Thread.{start_conv, params_init}
use zybo_z.Sonar.Thread.Readings.{IsSonar}
use zybo_z.Sonar.KernelModule.{
  Pointer, is_object, is_err, null, err_ptr, object, Answers, Held, KernelModule, loaded,
  nothing_held, start_sonar, adcsonar_init, adcsonar_exit, stop_task,
}

-- The kernel registers the device, its class and its node.
unfoldable pub IsAccepted : Answers → Type 0
IsAccepted a =
    ((n : ℕ) × (a.register_chrdev ≡ pos (suc n)))
    × (a.class_create ≡ object)
    × (a.device_create ≡ object)

asks_interrupt : params_init.intr_en ≡ true
unfolding params_init
asks_interrupt = refl

module _ {D : Type 0} (dev : Device D) where
  -- The module with what it has got from the kernel.
  abbrev module_with : ℕ → Pointer → Pointer → Pointer → Xadc D → Held → D → KernelModule D
  module_with n class_object device_object task x held d = record (loaded d) {
    adcsonar_major = pos (suc n);
    adcsonar_class = class_object;
    adcsonar_device = device_object;
    xadc_ktask = task;
    sonar = record (loaded d).sonar { xadc = x };
    held = held;
  }

  -- All is registered; the thread is held if it is an object.
  abbrev all_held : Pointer → Held
  all_held task = record {
    chrdev = true;
    class_object = true;
    device_object = true;
    kthread = is_object task;
  }

  -- The module is running: its thread exists, and may start to sample.
  unfoldable pub IsStarted : KernelModule D → Type 0
  IsStarted m =
      (m.xadc_ktask ≡ object)
      × (m.held ≡ all_held object)
      × IsSonar dev m.sonar
      × (m.sonar.state ≡ start_conv)

  -- There is no thread, and unloading the module faults.
  unfoldable pub IsBroken : Pointer → KernelModule D → Type 0
  IsBroken task m = (m.xadc_ktask ≡ task) × (m.held ≡ all_held null) × (adcsonar_exit dev m ≡ none)

  -- What adcsonar_init leaves when it returns 0, by what ioremap and kthread_run have answered.
  unfoldable pub Outcome : Platform → Answers → KernelModule D → Type 0
  Outcome p a m =
      ((p.ioremap_ok ≡ true) × (a.kthread_run ≡ object) × IsStarted m)
      ⊎ ((p.ioremap_ok ≡ true) × (is_err a.kthread_run ≡ true) × IsBroken a.kthread_run m)
      ⊎ ((p.ioremap_ok ≡ false) × (m.sonar.xadc.mapped ≡ false) × IsBroken null m)

  -- With its device registered, adcsonar_init returns 0 whatever else happens. If the registers are mapped
  -- and kthread_run makes a thread, all is held, and the thread starts in a state in which it touches no
  -- register through NULL. If kthread_run, which never returns NULL, fails, xadc_ktask keeps the error and
  -- there is no thread; if the registers could not be mapped, xadc_ktask is NULL and there is no thread:
  -- in both cases unloading the module faults.
  pub adcsonar_init_lem :
      (p : Platform) (a : Answers) (d : D)
      → IsAccepted a
      → a.kthread_run ≢ null
      → (m : KernelModule D) × (adcsonar_init dev p a (loaded d) ≡ some (m, pos 0)) × Outcome p a m
  unfolding IsAccepted adcsonar_init start_sonar IsStarted IsBroken Outcome IsSonar adcsonar_exit
      stop_task
  adcsonar_init_lem p a d ((n, h1), h2, h3) h4 =
      let (x, e, q) = init-mapped dev p params_init (loaded d).sonar.xadc in
      by_mapped x e q x.mapped refl a.kthread_run refl
    where
      by_mapped :
          (x : Xadc D)
          → init dev p params_init (loaded d).sonar.xadc ≡ some x
          → x.mapped ≡ p.ioremap_ok
          → (b : Bool) → x.mapped ≡ b
          → (task : Pointer) → a.kthread_run ≡ task
          → (m : KernelModule D) × (adcsonar_init dev p a (loaded d) ≡ some (m, pos 0))
            × Outcome p a m
      by_mapped x e q true t object k = (
        module_with n object object object x (all_held object) d,
        rw (h1, not_negative (suc n), h2, h3, e, t, k) refl,
        inl (sym q ∙ t, k, (refl, refl, (t, refl, omega arith, omega arith), refl)),
      )
      by_mapped x e q true t (err_ptr r) k = (
        module_with n object object (err_ptr r) x (all_held null) d,
        rw (h1, not_negative (suc n), h2, h3, e, t, k) refl,
        inr (inl (sym q ∙ t, rw k refl, (sym k, refl, refl))),
      )
      by_mapped x e q true t null k = absurd (h4 k)
      by_mapped x e q false t task k = (
        module_with n object object null x (all_held null) d,
        rw (h1, not_negative (suc n), h2, h3, e, t) refl,
        inr (inr (sym q ∙ t, t, (refl, refl, rw ((deinit_fault dev x).1 t) refl))),
      )

  -- What adcsonar_init took, adcsonar_exit gives back: with the device registered, the registers mapped,
  -- the thread created, and error codes that are negative, the interrupt is held between the two exactly when it has got a number and
  -- request_irq has granted it, and unloading stops the thread, unmaps the registers, leaves nothing held,
  -- and frees the interrupt whenever it has got a number. So no interrupt is left held; but if request_irq had
  -- refused it, free_irq is called of an interrupt that is not held.
  pub adcsonar_exit-init :
      (p : Platform) (a : Answers) (d : D)
      → IsPlatform p
      → IsAccepted a
      → p.ioremap_ok ≡ true
      → a.kthread_run ≡ object
      → (m : KernelModule D) × (m' : KernelModule D) × (adcsonar_init dev p a (loaded d)
          ≡ some (m, pos 0))
        × (m.sonar.xadc.irq ≡ irq_of_init p)
        × (adcsonar_exit dev m ≡ some m')
        × (m'.held ≡ nothing_held)
        × (m'.sonar.xadc.mapped ≡ false)
        × (m'.sonar.xadc.irq
            ≡ (if numbers_irq p && not (is_zero p.request_irq) then misfreed else not_requested))
  unfolding IsAccepted adcsonar_init start_sonar adcsonar_exit stop_task
  adcsonar_exit-init p a d law ((n, h1), h2, h3) h4 h5 =
      let (x, x', e, e', t, i, t', i') =
        deinit-init dev p params_init (loaded d).sonar.xadc law h4 asks_interrupt refl refl in
      (
        module_with n object object object x (all_held object) d,
        module_with n object object object x' nothing_held d,
        rw (h1, not_negative (suc n), h2, h3, h5, e, t) refl,
        i,
        rw (e', positive n) refl,
        refl,
        t',
        i' ∙ irq_of_deinit_lem p,
      )
