-- ===== src/CenterAligned/Loading.antt =====
-- center-aligned.c: what the module holds after its initialisation, by how that ends, and what unloading
-- gives back.
use zybo_z.Common.{ℕ, suc, ◌≡◌, ◌≢◌, ◌⊎◌, arith, true, false, none, some, Succeeds, Succeeds-some}
use zybo_z.Common.Int.{ℤ, pos, negsuc}
use zybo_z.CenterAligned.{Axi, Kernel, CenterAligned, center_start, irq, center_init, center_exit}

-- The kernel finds the node, maps its interrupt, grants the interrupt and maps the registers.
abbrev pub IsGranted : Kernel → Type 0
IsGranted k =
    (m : ℕ) × (k.node_found ≡ true)
    × (k.mapped_irq ≡ pos (suc m))
    × (k.request_irq ≡ pos 0)
    × (k.ioremap_ok ≡ true)

-- The kernel's error codes are negative.
pub record IsKernel (k : Kernel) : Type 0 where
  pub enodev_neg : (n : ℕ) × (k.enodev ≡ negsuc n)
  pub einval_neg : (n : ℕ) × (k.einval ≡ negsuc n)
  pub enomem_neg : (n : ℕ) × (k.enomem ≡ negsuc n)

-- The module when it has got its interrupt.
abbrev pub granted : {D : Type 0} → ℕ → D → CenterAligned D
granted m d = record (center_start d) { interrupt_id = pos (suc m); irq_held = true }

module _ {D : Type 0} (axi : Axi D) where
  -- How CenterAligned_Init ended.
  abbrev pub Loads : Kernel → CenterAligned D → ℤ → Type 0
  Loads k c r =
      ((r ≡ pos 0)
        × (c.irq_held ≡ true)
        × Succeeds (λ x. (x.irq_held ≡ false) × (x.mapped ≡ false)) (center_exit axi c))
      ⊎ ((r ≢ pos 0) × (c.irq_held ≡ false) × (c.mapped ≡ false))
      ⊎ ((r ≡ k.enomem) × (k.ioremap_ok ≡ false) × (c.irq_held ≡ true) × (irq axi c ≡ none))

  center_init-Loads :
      (k : Kernel) (d : D)
      → IsKernel k
      → Succeeds (λ (c, r). Loads k c r) (center_init axi k (center_start d))
  unfolding center_init center_exit irq
  center_init-Loads k d law = ground arith

  -- CenterAligned_Init returns 0 and what it took is given back by CenterAligned_Exit; or it returns an error
  -- and holds nothing; or the registers could not be mapped: then it returns -ENOMEM with the interrupt
  -- still requested, and the next interrupt faults.
  pub center_init_lem :
      (k : Kernel) (d : D)
      → IsKernel k
      → (c : CenterAligned D) × (r : ℤ) × (center_init axi k (center_start d) ≡ some (c, r))
        × Loads k c r
  center_init_lem k d law =
      let ((c, r), e, v) =
        Succeeds-some (λ (c, r). Loads k c r) (center_init axi k (center_start d))
          (center_init-Loads k d law) in
      (c, r, e, v)
