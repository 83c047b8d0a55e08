-- ===== src/Sonar/Tests.antt =====
-- The sonar's theorems on a register file, and small runs.
use zybo_z.Common.{
  ℕ, ◌≡◌, ◌≤◌, ◌↔◌, refl, arith, Bool, true, false, some, ◌==◌, if◌then◌else◌, ◌>>=◌,
}
use zybo_z.Common.Int.{pos, negsuc}
use zybo_z.Sonar.Xadc.{
  requested, not_requested, Device, Platform, Xadc, restart_sequence, get_seq_status_and_clear,
  ioread16,
}
use zybo_z.Sonar.Xadc.Requests.{IsPlatform}
use zybo_z.Sonar.Thread.{
  start_conv, conv_end, take_reading, Sonar, params_init, sonar_read, read_data, thread_step,
  thread,
}
use zybo_z.Sonar.Thread.Readings.{IsSonar, ReadsUpTo, thread-IsSonar, read_data-thread}
use zybo_z.Sonar.KernelModule.{
  object, Answers, KernelModule, loaded, nothing_held, adcsonar_init, adcsonar_exit,
}
use zybo_z.Sonar.KernelModule.Loading.{IsAccepted, Outcome, adcsonar_init_lem, adcsonar_exit-init}

abbrev RegisterWords : Type 0
RegisterWords = ℕ → ℕ

abbrev register_file : Device RegisterWords
register_file = record {
  read32 = λ offset r. (r, r offset);
  read16 = λ offset r. (r, r offset);
  write32 = λ offset value r other. if other == offset then value else r other;
}

-- Every register reads as 0x7f3, whose bits 4, 5 and 6 are set.
abbrev busy : RegisterWords
busy offset = 0x7f3

abbrev mapped_xadc : Xadc RegisterWords
mapped_xadc = record {
  mapped = true;
  interrupt_id = pos 0;
  has_cb = false;
  irq = not_requested;
  device = busy;
}

abbrev sonar_running : Sonar RegisterWords
sonar_running = record {
  state = start_conv;
  raw_data = 0;
  sonar_data = record { distance = 0; version = 0 };
  xadc = mapped_xadc;
}

sonar_running-IsSonar : IsSonar register_file sonar_running
unfolding IsSonar
sonar_running-IsSonar = (refl, refl, omega arith, omega arith)

abbrev zynq : Platform
zynq = record {
  ioremap_ok = true;
  node_found = true;
  mapped_irq = pos 48;
  request_irq = pos 0;
  enodev = negsuc 18;
  einval = negsuc 21;
}

abbrev unmapped_zynq : Platform
unmapped_zynq = record zynq { ioremap_ok = false }

abbrev accepted : Answers
accepted = record {
  register_chrdev = pos 242;
  class_create = object;
  device_create = object;
  kthread_run = object;
}

accepted-IsAccepted : IsAccepted accepted
unfolding IsAccepted
accepted-IsAccepted = ((241, refl), refl, refl)

-- The configuration words of the module.
params_words :
    (params_init.config1 ≡ 0x1418)
    × (params_init.config2 ≡ 0x10c1)
    × (params_init.config3 ≡ 0x400)
    × (params_init.seq_channel_mask ≡ 0x4080)
unfolding params_init
params_words = (refl, refl, refl, refl)

-- Two iterations take one reading.
thread_run :
    (thread register_file 2 sonar_running >>= λ s. some s.sonar_data)
    ≡ some (record { distance = 0x7f; version = 1 })
unfolding thread thread_step get_seq_status_and_clear take_reading ioread16 restart_sequence
thread_run = refl

thread-IsSonar_example :
    (s' : Sonar RegisterWords) × (thread register_file 5 sonar_running ≡ some s')
    × IsSonar register_file s'
    × ReadsUpTo register_file 5 sonar_running s'
    × (2 ≤ 5 → s'.state ≡ conv_end)
thread-IsSonar_example = thread-IsSonar register_file 5 sonar_running sonar_running-IsSonar

read_data-thread_example :
    (s' : Sonar RegisterWords) × (b : Bool) × (thread register_file 5 sonar_running ≡ some s')
    × (read_data (sonar_read true s') sonar_running.sonar_data ≡ (s'.sonar_data, b))
    × ((b ≡ false) ↔ (s'.sonar_data ≡ sonar_running.sonar_data))
read_data-thread_example =
    read_data-thread register_file 5 sonar_running (omega arith) sonar_running-IsSonar

zynq-IsPlatform : IsPlatform zynq
zynq-IsPlatform = record { enodev_neg = (18, refl); einval_neg = (21, refl) }

adcsonar_init_example :
    (m : KernelModule RegisterWords) × (adcsonar_init register_file zynq accepted (loaded busy)
      ≡ some (m, pos 0))
    × Outcome register_file zynq accepted m
adcsonar_init_example =
    adcsonar_init_lem register_file zynq accepted busy accepted-IsAccepted (λ e. cc e)

adcsonar_exit-init_example :
    (m : KernelModule RegisterWords) × (m' : KernelModule RegisterWords) × (adcsonar_init
        register_file zynq accepted
        (loaded busy)
      ≡ some (m, pos 0))
    × (m.sonar.xadc.irq ≡ requested)
    × (adcsonar_exit register_file m ≡ some m')
    × (m'.held ≡ nothing_held)
    × (m'.sonar.xadc.mapped ≡ false)
    × (m'.sonar.xadc.irq ≡ not_requested)
adcsonar_exit-init_example =
    adcsonar_exit-init register_file zynq accepted busy zynq-IsPlatform accepted-IsAccepted refl
      refl
