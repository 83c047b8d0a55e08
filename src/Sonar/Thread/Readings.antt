-- ===== src/Sonar/Thread/Readings.antt =====
-- The sampling thread and its reader: which readings are taken, and what the reader learns of them.
use zybo_z.Common.{
  ℕ, zero, suc, ◌+◌, ◌^◌, ◌≡◌, ◌≢◌, ◌≤◌, ◌<◌, ◌⊎◌, ◌↔◌, inl, inr, refl, sym, ap, ◌∙◌, subst, Bool,
  true, false, not, some, ◌==◌, ◌>>=◌, u32, arith, Succeeds, Succeeds-some, Succeeds-bind,
  Succeeds-map,
}
use zybo_z.Sonar.Xadc.{
  Device, Xadc, ioread32, ioread16, iowrite32, get_seq_flag_and_clear, get_seq_status_and_clear,
  restart_sequence,
}
use zybo_z.Sonar.Thread.{
  SonarState, start_conv, check_status, conv_end, SonarData, Sonar, take_reading, reading_if,
  reading_or_flag, thread_case, thread_step, thread, sonar_read, read_data,
}

module _ {D : Type 0} (dev : Device D) where
  -- The registers are mapped, and the data is the last reading, of 12 bits.
  unfoldable pub IsSonar : Sonar D → Type 0
  IsSonar s =
      (s.xadc.mapped ≡ true)
      × (s.sonar_data.distance ≡ s.raw_data)
      × (s.raw_data < 2 ^ 12)
      × (s.sonar_data.version < 2 ^ 32)

  -- At most one reading, in the given state of the machine.
  abbrev Reads : SonarState → Sonar D → Sonar D → Type 0
  Reads state s s' =
      (s'.state ≡ state)
      × IsSonar s'
      × ((s'.sonar_data ≡ s.sonar_data) ⊎ (s'.sonar_data.version ≡ u32 (s.sonar_data.version + 1)))

  abbrev PairMapped : Xadc D × Bool → Type 0
  PairMapped (x, b) = x.mapped ≡ true

  flag-mapped : (x : Xadc D) → x.mapped ≡ true → Succeeds PairMapped (get_seq_flag_and_clear dev x)
  unfolding get_seq_flag_and_clear ioread32 iowrite32
  flag-mapped x h = ground arith

  status-mapped :
      (x : Xadc D) → x.mapped ≡ true → Succeeds PairMapped (get_seq_status_and_clear dev x)
  unfolding get_seq_status_and_clear ioread32 iowrite32
  status-mapped x h = ground arith

  take_reading-Reads :
      (s : Sonar D) (x : Xadc D)
      → x.mapped ≡ true
      → Succeeds (Reads s.state s) (take_reading dev (record s { xadc = x }))
  unfolding take_reading restart_sequence ioread32 ioread16 iowrite32 IsSonar
  take_reading-Reads s x h = rw h (refl, (refl, refl, omega arith, omega arith), inr refl)

  reading_if-Reads :
      (s : Sonar D)
      → IsSonar s
      → (r : Xadc D × Bool) → PairMapped r
      → Succeeds (Reads s.state s) (reading_if dev s r)
  unfolding IsSonar
  reading_if-Reads s (h0, h1, h2, h3) (x, true) h = take_reading-Reads s x h
  reading_if-Reads s (h0, h1, h2, h3) (x, false) h = (refl, (h, h1, h2, h3), inl refl)

  reading_or_flag-Reads :
      (s : Sonar D)
      → IsSonar s
      → (r : Xadc D × Bool) → PairMapped r
      → Succeeds (Reads s.state s) (reading_or_flag dev s r)
  reading_or_flag-Reads s i (x, true) h = take_reading-Reads s x h
  reading_or_flag-Reads s i (x, false) h =
      Succeeds-bind PairMapped (Reads s.state s) (get_seq_flag_and_clear dev x) _ (flag-mapped x h)
        (reading_if-Reads s i)

  -- The state that follows.
  abbrev next_state : SonarState → SonarState
  next_state start_conv = check_status
  next_state check_status = conv_end
  next_state conv_end = conv_end

  thread_case-Reads :
      (state : SonarState) (s : Sonar D)
      → s.state ≡ state
      → IsSonar s
      → Succeeds (Reads (next_state state) s) (thread_case dev state s)
  unfolding IsSonar
  thread_case-Reads start_conv s e i = (refl, i, inl refl)
  thread_case-Reads check_status s e (h, i1, i2, i3) =
      Succeeds-bind (Reads s.state s) (Reads conv_end s)
        (get_seq_status_and_clear dev s.xadc >>= reading_or_flag dev s) _
        (Succeeds-bind PairMapped (Reads s.state s) (get_seq_status_and_clear dev s.xadc) _
          (status-mapped s.xadc h) (reading_or_flag-Reads s (h, i1, i2, i3)))
        (λ s' (e', i', r). (refl, i', r))
  thread_case-Reads conv_end s e (h, i1, i2, i3) =
      subst
        (λ state. Succeeds (Reads state s) (get_seq_flag_and_clear dev s.xadc >>= reading_if dev s))
        e
        (Succeeds-bind PairMapped (Reads s.state s) (get_seq_flag_and_clear dev s.xadc) _
          (flag-mapped s.xadc h) (reading_if-Reads s (h, i1, i2, i3)))

  pub thread_step-Reads :
      (s : Sonar D) → IsSonar s → Succeeds (Reads (next_state s.state) s) (thread_step dev s)
  unfolding thread_step
  thread_step-Reads s i = thread_case-Reads s.state s refl i

  abbrev state_after : ℕ → SonarState → SonarState
  state_after zero state = state
  state_after (suc n) state = state_after n (next_state state)

  conv_end-stays : (n : ℕ) → state_after n conv_end ≡ conv_end
  conv_end-stays zero = refl
  conv_end-stays (suc n) = conv_end-stays n

  state_after-conv_end : (n : ℕ) (state : SonarState) → 2 ≤ n → state_after n state ≡ conv_end
  state_after-conv_end zero state h = absurd (omega (arith, h))
  state_after-conv_end (suc zero) state h = absurd (omega (arith, h))
  state_after-conv_end (suc (suc n)) start_conv h = conv_end-stays n
  state_after-conv_end (suc (suc n)) check_status h = conv_end-stays n
  state_after-conv_end (suc (suc n)) conv_end h = conv_end-stays n

  -- Up to n readings lie between two states of the thread.
  unfoldable pub ReadsUpTo : ℕ → Sonar D → Sonar D → Type 0
  ReadsUpTo n s s' =
      (k : ℕ) × (k ≤ n)
      × (s'.sonar_data.version ≡ u32 (s.sonar_data.version + k))
      × (k ≡ 0 → s'.sonar_data ≡ s.sonar_data)

  abbrev Runs : ℕ → Sonar D → Sonar D → Type 0
  Runs n s s' = IsSonar s' × (s'.state ≡ state_after n s.state) × ReadsUpTo n s s'

  Runs-refl : (s : Sonar D) → IsSonar s → Runs 0 s s
  unfolding IsSonar ReadsUpTo
  Runs-refl s (h0, h1, h2, h3) = ((h0, h1, h2, h3), refl, (0, omega arith, omega arith, λ z. refl))

  Runs-step :
      (n : ℕ) (s s1 s2 : Sonar D)
      → Reads (next_state s.state) s s1
      → Runs n s1 s2
      → Runs (suc n) s s2
  unfolding ReadsUpTo
  Runs-step n s s1 s2 (e, i, inl d) (i2, e2, (k, l, v, z)) = (
    i2,
    e2 ∙ ap (state_after n) e,
    (k, omega arith, v ∙ ap (λ (d' : SonarData). u32 (d'.version + k)) d, λ y. z y ∙ d),
  )
  Runs-step n s s1 s2 (e, i, inr d) (i2, e2, (k, l, v, z)) =
      (i2, e2 ∙ ap (state_after n) e, (suc k, omega arith, omega arith, λ y. absurd (omega arith)))

  thread-Runs : (n : ℕ) (s : Sonar D) → IsSonar s → Succeeds (Runs n s) (thread dev n s)
  unfolding thread
  thread-Runs zero s i = Runs-refl s i
  thread-Runs (suc n) s i =
      Succeeds-bind (Reads (next_state s.state) s) (Runs (suc n) s) (thread_step dev s)
        (thread dev n) (thread_step-Reads s i)
        (λ s1 r.
          Succeeds-map (Runs n s1) (Runs (suc n) s) (thread dev n s1) (λ s2. Runs-step n s s1 s2 r)
            (thread-Runs n s1 (r.1)))

  -- From a state with the registers mapped and the data the last reading, n iterations of the thread touch
  -- no register through NULL and end in such a state; the version has grown, modulo 2 ^ 32, by a number of
  -- at most n readings, and is unchanged with the distance if that is 0; and from the second iteration on
  -- the machine is in XADC_CONV_END.
  pub thread-IsSonar :
      (n : ℕ) (s : Sonar D)
      → IsSonar s
      → (s' : Sonar D) × (thread dev n s ≡ some s')
        × IsSonar s'
        × ReadsUpTo n s s'
        × (2 ≤ n → s'.state ≡ conv_end)
  thread-IsSonar n s i =
      let (s', e, (i', st, r)) = Succeeds-some (Runs n s) (thread dev n s) (thread-Runs n s i) in
      (s', e, i', r, λ l. st ∙ state_after-conv_end n s.state l)

  versions-cases :
      (v v' : ℕ) → ((v ≡ v') × (not (v == v') ≡ false)) ⊎ ((v ≢ v') × (not (v == v') ≡ true))
  versions-cases v v' = ground arith

  -- The reader of a device in a state s' that up to n readings separate from s, whose data it read before.
  read_data-ReadsUpTo :
      (n : ℕ) (s s' : Sonar D)
      → n < 2 ^ 32
      → s.sonar_data.version < 2 ^ 32
      → ReadsUpTo n s s'
      → (b : Bool) × (read_data (sonar_read true s') s.sonar_data ≡ (s'.sonar_data, b))
        × ((b ≡ false) ↔ (s'.sonar_data ≡ s.sonar_data))
  unfolding read_data sonar_read ReadsUpTo
  read_data-ReadsUpTo n s s' h w (k, l, v, z) =
      elim (versions-cases s.sonar_data.version s'.sonar_data.version) [
        | inl (e, t) ↦ (false, rw t refl, (λ y. z (omega arith), λ y. refl))
        | inr (e, t) ↦ (
          true,
          rw t refl,
          (λ y. absurd (true-false y), λ y. absurd (e (ap (λ (d : SonarData). d.version) (sym y)))),
        )
      ]
    where
      true-false : true ≢ false
      true-false y = ground arith

  -- Whatever the thread did for n < 2 ^ 32 iterations after the reader's last call, the reader's next call
  -- gets the thread's data, and reports that nothing is new exactly when the data is what it had.
  pub read_data-thread :
      (n : ℕ) (s : Sonar D)
      → n < 2 ^ 32
      → IsSonar s
      → (s' : Sonar D) × (b : Bool) × (thread dev n s ≡ some s')
        × (read_data (sonar_read true s') s.sonar_data ≡ (s'.sonar_data, b))
        × ((b ≡ false) ↔ (s'.sonar_data ≡ s.sonar_data))
  unfolding IsSonar
  read_data-thread n s h (i0, i1, i2, i3) =
      let (s', e, i', r, c) = thread-IsSonar n s (i0, i1, i2, i3) in
      let (b, q, f) = read_data-ReadsUpTo n s s' h i3 r in (s', b, e, q, f)
