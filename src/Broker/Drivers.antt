-- ===== src/Broker/Drivers.antt =====
-- XadcHandle/XadcHandle.c and AdcSonarHandle/AdcSonarHandle.c: the files and commands by which the broker unbinds
-- the kernel's XADC driver and loads the sonar module. The operating system is a parameter.
pub mod Descriptors
use zybo_z.Common.{ℕ, List, [], ◌∷◌, ◌++◌, take, not, if◌then◌else◌}
use zybo_z.Common.Int.{ℤ, pos, ltb_ℤ, is_zero}

-- XadcPath, and the driver's files to unbind and to bind a device.
pub data DriverFile : Type 0 where
  device unbind_file bind_file : DriverFile

pub data OsCall : Type 0 where
  access open_wronly : DriverFile → OsCall
  write : ℤ → List ℕ → OsCall
  close : ℤ → OsCall
  system : List ℕ → OsCall

abbrev pub Os : Type 0 → Type 0
Os W = OsCall → W → W × ℤ

-- AdcSonarKo_String, with the calls made so far and their answers.
pub record Drivers (W : Type 0) : Type 0 where
  pub adc_sonar_ko_string : List ℕ
  pub os_calls : List (OsCall × ℤ)
  pub os_world : W

-- XadcDev, "f8007100.adc"
abbrev pub xadc_dev : List ℕ
xadc_dev = b'f' ∷ b'8' ∷ b'0' ∷ b'0' ∷ b'7' ∷ b'1' ∷ b'0' ∷ b'0' ∷ b'.' ∷ b'a' ∷ b'd' ∷ b'c' ∷ []

-- AdcSonarKo
abbrev pub adc_sonar_ko : List ℕ
adc_sonar_ko = b'a' ∷ b'd' ∷ b'c' ∷ b's' ∷ b'o' ∷ b'n' ∷ b'a' ∷ b'r' ∷ []

abbrev pub modprobe : List ℕ
modprobe = b'm' ∷ b'o' ∷ b'd' ∷ b'p' ∷ b'r' ∷ b'o' ∷ b'b' ∷ b'e' ∷ b' ' ∷ []

abbrev pub modprobe_remove : List ℕ
modprobe_remove = modprobe ++ b'-' ∷ b'r' ∷ b' ' ∷ []

module _ {W : Type 0} (os : Os W) where
  unfoldable pub os_call : OsCall → Drivers W → Drivers W × ℤ
  os_call k d =
      let (w, r) = os k d.os_world in
      (record d { os_calls = d.os_calls ++ (k, r) ∷ []; os_world = w }, r)

  -- XadcUnbindDriver from open on.
  unfoldable pub unbind_device : Drivers W → Drivers W × ℕ
  unfolding os_call
  unbind_device d =
      let (d1, fd) = os_call (open_wronly unbind_file) d in
      if ltb_ℤ fd (pos 0)
      then (d1, 1)
      else let (d2, written) = os_call (write fd xadc_dev) d1 in
        let d3 = (os_call (close fd) d2).0 in if ltb_ℤ written (pos 0) then (d3, 1) else (d3, 0)

  -- XadcUnbindDriver
  unfoldable pub xadc_unbind_driver : Drivers W → Drivers W × ℕ
  unfolding os_call unbind_device
  xadc_unbind_driver d =
      let (d1, found) = os_call (access device) d in
      if is_zero found then unbind_device d1 else (d1, 0)

  -- XadcBindDriver
  unfoldable pub xadc_bind_driver : Drivers W → Drivers W × ℕ
  unfolding os_call
  xadc_bind_driver d =
      let (d1, fd) = os_call (open_wronly bind_file) d in
      if ltb_ℤ fd (pos 0)
      then (d1, 1)
      else let (d2, written) = os_call (write fd xadc_dev) d1 in
        if ltb_ℤ written (pos 0) then (d2, 1) else ((os_call (close fd) d2).0, 0)

  -- The command is cut to the 128 bytes of AdcSonarKo_String, the last of them a NUL.
  unfoldable pub run_command : List ℕ → Drivers W → Drivers W × ℕ
  unfolding os_call
  run_command prefix d =
      let command = take 127 (prefix ++ adc_sonar_ko) in
      let (d1, status) = os_call (system command) (record d { adc_sonar_ko_string = command }) in
      if not (is_zero status) then (d1, 1) else (d1, 0)

  -- AdcSonarHandle_Init and AdcSonarHandle_DeInit
  unfoldable pub adc_sonar_handle_init : Drivers W → Drivers W × ℕ
  unfolding run_command
  adc_sonar_handle_init = run_command modprobe

  unfoldable pub adc_sonar_handle_deinit : Drivers W → Drivers W × ℕ
  unfolding run_command
  adc_sonar_handle_deinit = run_command modprobe_remove
