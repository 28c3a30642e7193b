-- ===== src/Locks/StateLock.antt =====
-- acquireStateLock of .kilo/get-shit-done/bin/lib/state.cjs: at most ten attempts at the lock file of
-- STATE.md. `seen i` is what attempt i meets, `jitter i` the random part of its wait.
use mathlib.Core.Path.{subst}
use sagasmith.Common.{
  ◌-◌, Bool-cases, ==_iff, true_not_false, ap, ◌∙◌, sym, ◌⊎◌, inl, inr, ℕ, zero, suc, ◌+◌, ◌*◌, ◌≤◌,
  ◌<◌, Bool, true, false, ltb, ◌==◌, if◌then◌else◌, ◌≡◌, refl, arith,
}

-- The file is made; it is there, with its age, or goes before its age is read or it is removed as
-- stale; or there is another error.
pub data Seen : Type 0 where
  created : Seen
  exists : ℕ → Seen
  gone other_error : Seen

-- Whether the lock is the caller's own, the time waited, and the removals of the lock file.
pub record Acquired : Type 0 where
  pub own : Bool
  pub waited : ℕ
  pub removed : ℕ

abbrev pub max_retries : ℕ
max_retries = 10

-- Another process has the lock.
abbrev pub is_taken : Seen → Bool
is_taken (exists age) = true
is_taken gone = true
is_taken _ = false

-- A lock whose file is older than ten seconds.
abbrev pub is_old : Seen → Bool
is_old (exists age) = ltb 10000 age
is_old _ = false

seen_cases :
    (x : Seen) → (x ≡ created) ⊎ ((x ≡ other_error) ⊎ ((x ≡ gone) ⊎ ((age : ℕ) × (x ≡ exists age))))
seen_cases created = inl refl
seen_cases other_error = inr (inl refl)
seen_cases gone = inr (inr (inl refl))
seen_cases (exists age) = inr (inr (inr (age, refl)))

module _ (seen : ℕ → Seen) (jitter : ℕ → ℕ) where
  -- The end of an attempt that has found a lock which is not stale.
  abbrev pub wait_or_take : ℕ → Acquired → Acquired → Acquired
  wait_or_take i a rest =
      if i == max_retries - 1 then record a { removed = a.removed + 1 } else rest

  abbrev pub waited_more : ℕ → Acquired → Acquired
  waited_more i a = record a { waited = a.waited + 200 + jitter i }

  abbrev pub removed_one : Acquired → Acquired
  removed_one a = record a { removed = a.removed + 1 }

  abbrev pub attempted : Seen → ℕ → Acquired → Acquired → Acquired → Acquired
  attempted created i a stale later = record a { own = true }
  attempted (exists age) i a stale later = if ltb 10000 age then stale else wait_or_take i a later
  attempted gone i a stale later = wait_or_take i a later
  attempted other_error i a stale later = a

  -- The loop from attempt i on, with n attempts left.
  unfoldable pub acquire_from : ℕ → ℕ → Acquired → Acquired
  acquire_from zero i a = a
  acquire_from (suc n) i a =
      let stale = acquire_from n (i + 1) (removed_one a) in
      let later = acquire_from n (i + 1) (waited_more i a) in attempted (seen i) i a stale later

  unfoldable pub acquire_state_lock : Acquired
  unfolding acquire_from
  acquire_state_lock = acquire_from max_retries 0 (record { own = false; waited = 0; removed = 0 })

  abbrev AcquiredWithin : ℕ → Acquired → Type 0
  AcquiredWithin ms r = (r.own ≡ true) × (r.waited ≤ ms)

  goes_on :
      (x : Seen) (i ms : ℕ) (a stale later : Acquired)
      → is_taken x ≡ true
      → (i == max_retries - 1) ≡ false
      → AcquiredWithin ms stale
      → AcquiredWithin ms later
      → AcquiredWithin ms (attempted x i a stale later)
  goes_on created i ms a stale later x e s l = absurd (true_not_false x refl)
  goes_on other_error i ms a stale later x e s l = absurd (true_not_false x refl)
  goes_on gone i ms a stale later x e s l = rw e l
  goes_on (exists age) i ms a stale later x e s l = elim (Bool-cases (ltb 10000 age)) [
    | inl old ↦ rw old s
    | inr young ↦ rw (young, e) l
  ]

  acquires_from :
      (n i k : ℕ) (a : Acquired)
      → i + n ≡ max_retries
      → i ≤ k
      → k < max_retries
      → ((j : ℕ) → j < k → is_taken (seen j) ≡ true)
      → ((j : ℕ) → jitter j < 50)
      → seen k ≡ created
      → a.waited ≤ 249 * i
      → AcquiredWithin (249 * k) (acquire_from n i a)
  unfolding acquire_from
  acquires_from zero i k a e l u before small at b = absurd (omega arith)
  acquires_from (suc n) i k a e l u before small at b = elim (Bool-cases (i == k)) [
    | inl same ↦
        let here = (==_iff i k).0 same in rw (ap seen here ∙ at) (refl, omega (arith, here))
    | inr differ ↦
        let less : i < k = ground arith in
        goes_on (seen i) i (249 * k) a (acquire_from n (i + 1) (removed_one a))
          (acquire_from n (i + 1) (waited_more i a)) (before i less) (ground arith)
          (acquires_from n (i + 1) k (removed_one a) (omega arith) (omega arith) u before small at
            (omega arith))
          (acquires_from n (i + 1) k (waited_more i a) (omega arith) (omega arith) u before small at
            (omega (arith, small i)))
  ]

  -- Where one of the ten attempts finds no lock file and every earlier one finds a lock, fresh,
  -- stale or just gone, the caller gets a lock of its own, after a wait of at most 249 ms for each
  -- earlier attempt.
  pub acquire_state_lock_acquires :
      (k : ℕ)
      → k < max_retries
      → ((j : ℕ) → j < k → is_taken (seen j) ≡ true)
      → ((j : ℕ) → jitter j < 50)
      → seen k ≡ created
      → (acquire_state_lock.own ≡ true) × (acquire_state_lock.waited ≤ 249 * k)
  unfolding acquire_state_lock
  acquire_state_lock_acquires k u before small at =
      acquires_from max_retries 0 k (record { own = false; waited = 0; removed = 0 }) refl
        (omega arith) u before small at (omega arith)

  -- Before attempt k every attempt has found a lock.
  abbrev pub TakenBefore : ℕ → Type 0
  TakenBefore k = (j : ℕ) → j < k → is_taken (seen j) ≡ true

  -- The first k attempts: the removals of a stale lock, and the waits for one that is not.
  unfoldable pub removals : ℕ → ℕ
  removals zero = 0
  removals (suc k) = if is_old (seen k) then removals k + 1 else removals k

  unfoldable pub waits : ℕ → ℕ
  waits zero = 0
  waits (suc k) = if is_old (seen k) then waits k else waits k + 200 + jitter k

  abbrev pub after : ℕ → Acquired
  after k = record { own = false; waited = waits k; removed = removals k }

  -- The four ends: a lock of its own, another error, a lock that is removed by the last attempt
  -- though it is not stale, and a stale one that the last attempt removes without another try.
  pub data Ended : Acquired → Type 0 where
    acquired :
        (k : ℕ)
        → k < max_retries
        → TakenBefore k
        → seen k ≡ created
        → Ended (record (after k) { own = true })
    failed : (k : ℕ) → k < max_retries → TakenBefore k → seen k ≡ other_error → Ended (after k)
    overridden :
        TakenBefore max_retries
        → is_old (seen 9) ≡ false
        → Ended (record (after 9) { removed = removals 9 + 1 })
    exhausted : TakenBefore max_retries → is_old (seen 9) ≡ true → Ended (after max_retries)

  taken_more : (i : ℕ) → TakenBefore i → is_taken (seen i) ≡ true → TakenBefore (suc i)
  taken_more i before here j l = elim (Bool-cases (j == i)) [
    | inl same ↦ ap (λ k. is_taken (seen k)) ((==_iff j i).0 same) ∙ here
    | inr differ ↦ before j (ground arith)
  ]

  after_wait : (i : ℕ) → is_old (seen i) ≡ false → waited_more i (after i) ≡ after (suc i)
  unfolding waits removals
  after_wait i h = rw h refl

  after_removal : (i : ℕ) → is_old (seen i) ≡ true → removed_one (after i) ≡ after (suc i)
  unfolding waits removals
  after_removal i h = rw h refl

  wait_or_take-Ended :
      (n i : ℕ)
      → i + suc n ≡ max_retries
      → TakenBefore (suc i)
      → is_old (seen i) ≡ false
      → (((i == max_retries - 1) ≡ false) → Ended (acquire_from n (i + 1) (after (suc i))))
      → Ended (wait_or_take i (after i) (acquire_from n (i + 1) (waited_more i (after i))))
  wait_or_take-Ended n i e before young later = elim (Bool-cases (i == max_retries - 1)) [
    | inl last ↦
        let nine : i ≡ 9 = (==_iff i 9).0 last in
        rw last (
          subst (λ k. Ended (record (after k) { removed = removals k + 1 })) (sym nine)
            (overridden (subst (λ k. TakenBefore (suc k)) nine before)
              (ap (λ k. is_old (seen k)) (sym nine) ∙ young)))
    | inr early ↦
        rw early
          (subst (λ a. Ended (acquire_from n (i + 1) a)) (sym (after_wait i young)) (later early))
  ]

  next_from :
      (n i : ℕ)
      → Ended (acquire_from n (suc i) (after (suc i)))
      → Ended (acquire_from n (i + 1) (after (suc i)))
  next_from n i w =
      let same : suc i ≡ i + 1 = omega arith in
      subst (λ k. Ended (acquire_from n k (after (suc i)))) same w

  ends_from :
      (n i : ℕ)
      → i + n ≡ max_retries
      → TakenBefore i
      → (n ≡ 0 → is_old (seen 9) ≡ true)
      → Ended (acquire_from n i (after i))
  unfolding acquire_from
  ends_from zero i e before last =
      let ten : i ≡ max_retries = omega (arith, e) in
      subst (λ k. Ended (after k)) (sym ten) (exhausted (subst TakenBefore ten before) (last refl))
  ends_from (suc n) i e before last = elim (seen_cases (seen i)) [
    | inl found ↦ rw found (acquired i (omega arith) before found)
    | inr (inl other) ↦ rw other (failed i (omega arith) before other)
    | inr (inr (inl vanished)) ↦
        let young : is_old (seen i) ≡ false = ap is_old vanished in
        let taken : is_taken (seen i) ≡ true = ap is_taken vanished in
        let below = taken_more i before taken in
        rw vanished (
          wait_or_take-Ended n i e below young (λ early.
            next_from n i
              (ends_from n (suc i) (omega (arith, e)) below (λ z. absurd (ground arith)))))
    | inr (inr (inr (age, there))) ↦
        let taken : is_taken (seen i) ≡ true = ap is_taken there in
        let below = taken_more i before taken in
        elim (Bool-cases (ltb 10000 age)) [
          | inl old ↦
              let stale : is_old (seen i) ≡ true = ap is_old there ∙ old in
              rw (there, old)
                (subst (λ a. Ended (acquire_from n (i + 1) a)) (sym (after_removal i stale))
                  (next_from n i (
                    ends_from n (suc i) (omega (arith, e)) below (λ z.
                      let nine : 9 ≡ i = omega (arith, e, z) in
                      ap (λ k. is_old (seen k)) nine ∙ stale))))
          | inr fresh ↦
              let young : is_old (seen i) ≡ false = ap is_old there ∙ fresh in
              rw (there, fresh)
                (wait_or_take-Ended n i e below young (λ early.
                  next_from n i
                    (ends_from n (suc i) (omega (arith, e)) below (λ z. absurd (ground arith)))))
        ]
  ]

  nothing_done : after 0 ≡ record { own = false; waited = 0; removed = 0 }
  unfolding waits removals
  nothing_done = refl

  -- Whatever its attempts meet, the loop ends in one of four ways: at the first attempt that finds
  -- no lock file, with a lock of the caller's own; at the first that meets another error, without
  -- one; at the tenth, when all have found a lock, with the removal of a lock that is not stale;
  -- or after the tenth removed a stale one, without another try. In each it has removed the stale
  -- locks that it met, once each, and waited only for those that were not stale, by 200 ms and the
  -- random part each.
  pub acquire_state_lock-Ended : Ended acquire_state_lock
  unfolding acquire_state_lock
  acquire_state_lock-Ended =
      subst (λ a. Ended (acquire_from max_retries 0 a)) nothing_done
        (ends_from max_retries 0 refl (λ j l. absurd (omega (arith, l)))
          (λ e. absurd (omega (arith, e))))
