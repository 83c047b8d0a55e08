-- ===== src/CenterAligned/Tests.antt =====
-- The centre-aligned PWM's theorems over a register file.
use zybo_z.Common.{ℕ, ◌%◌, ◌≡◌, ◌⊎◌, refl, true, some, ◌==◌, if◌then◌else◌}
use zybo_z.Common.Int.{ℤ, pos, negsuc}
use zybo_z.CenterAligned.{Axi, Kernel, CenterAligned, center_start, irqs, center_init}
use zybo_z.CenterAligned.Duties.{IsAxi, Holds, irqs_lem}
use zybo_z.CenterAligned.Loading.{IsKernel, Loads, center_init_lem}

abbrev registers : Axi (ℕ → ℕ)
registers = record { read32 = λ o r. (r, r o); write32 = λ o v r o'. if o' == o then v else r o' }

registers-IsAxi : IsAxi registers (λ o r. r o)
registers-IsAxi = record { value-write = λ o' o v d h. refl; value-read = λ o' o d h. refl }

abbrev zero_registers : ℕ → ℕ
zero_registers o = 0

abbrev linux : Kernel
linux = record {
  node_found = true;
  mapped_irq = pos 61;
  request_irq = pos 0;
  ioremap_ok = true;
  enodev = negsuc 18;
  einval = negsuc 21;
  enomem = negsuc 11;
}

linux-IsKernel : IsKernel linux
linux-IsKernel = record {
  enodev_neg = (18, refl);
  einval_neg = (21, refl);
  enomem_neg = (11, refl);
}

irqs_example :
    (c : CenterAligned (ℕ → ℕ)) × (c' : CenterAligned (ℕ → ℕ)) × (center_init registers linux
        (center_start zero_registers)
      ≡ some (c, pos 0))
    × (irqs registers 3 c ≡ some c')
    × (((3 % 2 ≡ 0) × Holds registers (λ o r. r o) 10000 5000 40000 c'.device)
        ⊎ ((3 % 2 ≡ 1) × Holds registers (λ o r. r o) 35000 25000 2000 c'.device))
irqs_example =
    irqs_lem registers (λ o r. r o) registers-IsAxi linux zero_registers 3
      (60, refl, refl, refl, refl)

center_init_example :
    (c : CenterAligned (ℕ → ℕ)) × (r : ℤ) × (center_init registers linux
        (center_start zero_registers)
      ≡ some (c, r))
    × Loads registers linux c r
center_init_example = center_init_lem registers linux zero_registers linux-IsKernel
