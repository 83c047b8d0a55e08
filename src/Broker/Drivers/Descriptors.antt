-- ===== src/Broker/Drivers/Descriptors.antt =====
-- XadcHandle.c: which descriptors XadcUnbindDriver and XadcBindDriver leave open.
use zybo_z.Common.{
  ℕ, ◌≡◌, ◌⊎◌, inl, inr, refl, ◌∙◌, true, false, List, [], ◌∷◌, ◌++◌, ◌==◌, if◌then◌else◌,
  Bool-cases, eq_self,
}
use zybo_z.Common.Int.{ℤ, pos, negsuc, ltb_ℤ, is_zero, ℤ-cases, not_negative, is_negative, zero_of}
use zybo_z.Broker.Drivers.{
  DriverFile, device, unbind_file, bind_file, OsCall, access, open_wronly, write, close, Os,
  Drivers, xadc_dev, os_call, unbind_device, xadc_unbind_driver, xadc_bind_driver,
}

-- The descriptor n taken out, once.
abbrev pub remove : ℕ → List ℕ → List ℕ
remove n [] = []
remove n (m ∷ ms) = if m == n then ms else m ∷ remove n ms

-- The descriptors that are open after a call with this answer, before which `fds` were open.
abbrev pub after_call : OsCall → ℤ → List ℕ → List ℕ
after_call (open_wronly f) (pos n) fds = n ∷ fds
after_call (close (pos n)) r fds = remove n fds
after_call _ r fds = fds

unfoldable pub open_after : List ℕ → List (OsCall × ℤ) → List ℕ
open_after fds [] = fds
open_after fds ((k, r) ∷ ks) = open_after (after_call k r fds) ks

abbrev pub open_fds : {W : Type 0} → Drivers W → List ℕ
open_fds d = open_after [] d.os_calls

open_after-append :
    (fds : List ℕ) (ks : List (OsCall × ℤ)) (k : OsCall) (r : ℤ)
    → open_after fds (ks ++ (k, r) ∷ []) ≡ after_call k r (open_after fds ks)
unfolding open_after
open_after-append fds [] k r = refl
open_after-append fds ((k', r') ∷ ks) k r = open_after-append (after_call k' r' fds) ks k r

written_calls :
    (ks : List (OsCall × ℤ)) {a fd w : ℤ} (x : ℤ) (n m : ℕ)
    → a ≡ pos 0
    → fd ≡ pos n
    → w ≡ pos m
    → (((ks ++ (access device, a) ∷ []) ++ (open_wronly unbind_file, fd) ∷ [])
          ++ (write fd xadc_dev, w) ∷ [])
        ++ (close fd, x) ∷ []
      ≡ (((ks ++ (access device, pos 0) ∷ []) ++ (open_wronly unbind_file, pos n) ∷ [])
          ++ (write (pos n) xadc_dev, pos m) ∷ [])
        ++ (close (pos n), x) ∷ []
written_calls ks x n m p q r = rw (p, q, r) refl

module _ {W : Type 0} (os : Os W) where
  open_fds-call :
      (k : OsCall) (d : Drivers W)
      → open_fds (os_call os k d).0 ≡ after_call k (os_call os k d).1 (open_fds d)
  unfolding os_call
  open_fds-call k d = open_after-append [] d.os_calls k (os k d.os_world).1

  -- After an open and a write, and after the close.
  module _ (f : DriverFile) (d : Drivers W) (n : ℕ)
      (e : (os_call os (open_wronly f) d).1 ≡ pos n) where
    abbrev opened : Drivers W
    opened = (os_call os (open_wronly f) d).0

    abbrev written : Drivers W
    written = (os_call os (write (os_call os (open_wronly f) d).1 xadc_dev) opened).0

    opened-fds : open_fds opened ≡ n ∷ open_fds d
    opened-fds = open_fds-call (open_wronly f) d ∙ rw e refl

    written-fds : open_fds written ≡ n ∷ open_fds d
    written-fds =
        open_fds-call (write (os_call os (open_wronly f) d).1 xadc_dev) opened ∙ opened-fds

    closed-fds :
        open_fds (os_call os (close (os_call os (open_wronly f) d).1) written).0 ≡ open_fds d
    closed-fds =
        open_fds-call (close (os_call os (open_wronly f) d).1) written
        ∙ rw (e, written-fds, eq_self n) refl

  -- How XadcUnbindDriver has ended: the device was not bound, or its name has been written to the driver's
  -- file, or that has failed.
  abbrev pub Unbinds : Drivers W → Drivers W × ℕ → Type 0
  Unbinds d (d', r) =
      ((r ≡ 0)
        × ((a : ℤ) × (is_zero a ≡ false) × (d'.os_calls ≡ d.os_calls ++ (access device, a) ∷ [])))
      ⊎ ((r ≡ 0)
          × ((n m : ℕ) × (x : ℤ) × (d'.os_calls
                ≡ (((d.os_calls ++ (access device, pos 0) ∷ [])
                      ++ (open_wronly unbind_file, pos n) ∷ [])
                    ++ (write (pos n) xadc_dev, pos m) ∷ [])
                  ++ (close (pos n), x) ∷ [])))
      ⊎ (r ≡ 1)

  -- XadcUnbindDriver closes every descriptor that it opens. It returns 0 only if the device was not bound or its
  -- name was written to the driver's file without a failure, and 1 otherwise.
  pub xadc_unbind_driver_lem :
      (d : Drivers W)
      → (open_fds (xadc_unbind_driver os d).0 ≡ open_fds d) × Unbinds d (xadc_unbind_driver os d)
  unfolding xadc_unbind_driver unbind_device os_call
  xadc_unbind_driver_lem d =
      let d1 = (os_call os (access device) d).0 in
      let fd = (os_call os (open_wronly unbind_file) d1).1 in
      let d2 = (os_call os (open_wronly unbind_file) d1).0 in
      let same = open_fds-call (access device) d in
      elim (Bool-cases (is_zero (os_call os (access device) d).1)) [
        | inr t ↦ rw t (same, inl (refl, ((os_call os (access device) d).1, t, refl)))
        | inl t ↦ elim (ℤ-cases fd) [
          | inr (n, e) ↦
              let less : ltb_ℤ fd (pos 0) ≡ true = rw e (is_negative n) in
              let kept : open_fds d2 ≡ open_fds d =
                open_fds-call (open_wronly unbind_file) d1 ∙ rw e same in
              rw (t, less) (kept, inr (inr refl))
          | inl (n, e) ↦
              let not_less : ltb_ℤ fd (pos 0) ≡ false = rw e (not_negative n) in
              let kept = closed-fds unbind_file d1 n e ∙ same in
              elim (ℤ-cases (os_call os (write fd xadc_dev) d2).1) [
                | inr (m, k) ↦
                    let failed : ltb_ℤ (os_call os (write fd xadc_dev) d2).1 (pos 0) ≡ true =
                      rw k (is_negative m) in
                    rw (t, not_less, failed) (kept, inr (inr refl))
                | inl (m, k) ↦
                    let done : ltb_ℤ (os_call os (write fd xadc_dev) d2).1 (pos 0) ≡ false =
                      rw k (not_negative m) in
                    let x = (os_call os (close fd) (os_call os (write fd xadc_dev) d2).0).1 in
                    rw (t, not_less, done)
                      (
                        kept,
                        inr (
                            inl (
                              refl,
                              (
                                n,
                                m,
                                x,
                                written_calls d.os_calls x n m
                                    (zero_of (os_call os (access device) d).1 t) e k,
                              ),
                            )),
                      )
              ]
        ]
      ]

  -- How XadcBindDriver has ended: it failed to open the file, or the name has been written to the file, or the
  -- write has failed.
  abbrev pub Binds : Drivers W → Drivers W × ℕ → Type 0
  Binds d (d', r) =
      let (d1, fd) = os_call os (open_wronly bind_file) d in
      let written = (os_call os (write fd xadc_dev) d1).1 in
      ((n : ℕ) × (fd ≡ negsuc n) × (r ≡ 1) × (open_fds d' ≡ open_fds d))
      ⊎ ((n m : ℕ) × (fd ≡ pos n) × (written ≡ pos m) × (r ≡ 0) × (open_fds d' ≡ open_fds d))
      ⊎ ((n m : ℕ) × (fd ≡ pos n) × (written ≡ negsuc m) × (r ≡ 1) × (open_fds d' ≡ n ∷ open_fds d))

  -- XadcBindDriver closes the descriptor that it opens when its write succeeds, and returns 0 then; it returns 1
  -- when the file cannot be opened; when the write fails it returns 1 and leaves the descriptor open.
  pub xadc_bind_driver_lem : (d : Drivers W) → Binds d (xadc_bind_driver os d)
  unfolding xadc_bind_driver
  xadc_bind_driver_lem d =
      let fd = (os_call os (open_wronly bind_file) d).1 in
      let d1 = (os_call os (open_wronly bind_file) d).0 in
      elim (ℤ-cases fd) [
        | inr (n, e) ↦
            let less : ltb_ℤ fd (pos 0) ≡ true = rw e (is_negative n) in
            let kept : open_fds d1 ≡ open_fds d =
              open_fds-call (open_wronly bind_file) d ∙ rw e refl in
            rw less (inl (n, e, refl, kept))
        | inl (n, e) ↦
            let not_less : ltb_ℤ fd (pos 0) ≡ false = rw e (not_negative n) in
            elim (ℤ-cases (os_call os (write fd xadc_dev) d1).1) [
              | inr (m, k) ↦
                  let failed : ltb_ℤ (os_call os (write fd xadc_dev) d1).1 (pos 0) ≡ true =
                    rw k (is_negative m) in
                  rw (not_less, failed) (inr (inr (n, m, e, k, refl, written-fds bind_file d n e)))
              | inl (m, k) ↦
                  let done : ltb_ℤ (os_call os (write fd xadc_dev) d1).1 (pos 0) ≡ false =
                    rw k (not_negative m) in
                  rw (not_less, done) (inr (inl (n, m, e, k, refl, closed-fds bind_file d n e)))
            ]
      ]
