-- ===== src/Locks/Exclusion.antt =====
-- Two processes are not in fn together while no wait and no lock gets old.
use sagasmith.Common.{
  ℕ, ◌-◌, Bool, true, false, ltb, ◌==◌, ==_iff, Option, none, some, ◌≡◌, refl, inl, inr, Bool-cases,
  ap, sym, ◌∙◌, and-eq-true, not-eq-true, true_not_false, arith,
}
use sagasmith.Locks.{
  Phase, idle, waiting, removing, working, forced, Planning, set_phase, attempt, turn_from, turn,
  lock_timeout, stale_after, is_young, is_prompt_from, is_prompt, Runs, start, move, pass, in_fn,
}

abbrev owns : ℕ → Option (ℕ × ℕ) → Bool
owns p none = false
owns p (some (owner, made)) = owner == p

-- Phases that a prompt run reaches, the lock being p's own in fn.
abbrev is_sound : ℕ → Phase → Option (ℕ × ℕ) → Bool
is_sound p idle l = true
is_sound p (waiting t) l = true
is_sound p (removing t) l = false
is_sound p working l = owns p l
is_sound p forced l = false

abbrev IsExclusive : Planning → Type 0
IsExclusive s = (p : ℕ) → is_sound p (s.phase p) s.lock ≡ true

sound_without_lock :
    (p : ℕ) (x : Phase) (l : Option (ℕ × ℕ)) → is_sound p x none ≡ true → is_sound p x l ≡ true
sound_without_lock p idle l h = refl
sound_without_lock p (waiting t) l h = refl
sound_without_lock p (removing t) l h = absurd (true_not_false h refl)
sound_without_lock p working l h = absurd (true_not_false h refl)
sound_without_lock p forced l h = absurd (true_not_false h refl)

-- Where another process owns the lock, taking it away leaves p sound.
sound_released :
    (p q made : ℕ) (x : Phase)
    → (q == p) ≡ false
    → is_sound p x (some (q, made)) ≡ true
    → is_sound p x none ≡ true
sound_released p q made idle d h = refl
sound_released p q made (waiting t) d h = refl
sound_released p q made (removing t) d h = absurd (true_not_false h refl)
sound_released p q made working d h = absurd (true_not_false h d)
sound_released p q made forced d h = absurd (true_not_false h refl)

released :
    (p q : ℕ) (l : Option (ℕ × ℕ)) (x : Phase)
    → owns p l ≡ true
    → (p == q) ≡ false
    → is_sound q x l ≡ true
    → is_sound q x none ≡ true
released p q none x o d h = h
released p q (some (owner, made)) x o d h = sound_released q owner made x (ground arith) h

sound_at :
    (f : ℕ → Phase) (p : ℕ) (x : Phase) (l : Option (ℕ × ℕ))
    → is_sound p x l ≡ true
    → ((q : ℕ) → (p == q) ≡ false → is_sound q (f q) l ≡ true)
    → (q : ℕ) → is_sound q (set_phase f p x q) l ≡ true
sound_at f p x l own others q = elim (Bool-cases (p == q)) [
  | inl e ↦ let same = (==_iff p q).0 e in rw (e, ← same) own
  | inr d ↦ rw d (others q d)
]

attempt-IsExclusive :
    (p t : ℕ) (s : Planning) (l : Option (ℕ × ℕ))
    → s.lock ≡ l
    → is_young s.now l ≡ true
    → IsExclusive s
    → IsExclusive (attempt p t l s)
attempt-IsExclusive p t s none e y h =
    sound_at s.phase p working (some (p, s.now)) (ground arith) (λ q d.
      sound_without_lock q (s.phase q) (some (p, s.now))
        (ap (is_sound q (s.phase q)) (sym e) ∙ h q))
attempt-IsExclusive p t s (some (owner, made)) e y h =
    let fresh : ltb stale_after (s.now - made) ≡ false =
      not-eq-true (ltb stale_after (s.now - made)) y in
    rw fresh h

turn_from-IsExclusive :
    (x : Phase) (p : ℕ) (s : Planning)
    → s.phase p ≡ x
    → is_prompt_from x s ≡ true
    → IsExclusive s
    → IsExclusive (turn_from x p s)
turn_from-IsExclusive idle p s e y h = sound_at s.phase p (waiting s.now) s.lock refl (λ q d. h q)
turn_from-IsExclusive (waiting t) p s e y h =
    let (early, young) = and-eq-true (ltb (s.now - t) lock_timeout) (is_young s.now s.lock) y in
    rw early (attempt-IsExclusive p t s s.lock refl young h)
turn_from-IsExclusive (removing t) p s e y h =
    absurd (true_not_false (h p) (ap (λ x. is_sound p x s.lock) e))
turn_from-IsExclusive working p s e y h =
    let own = ap (λ x. is_sound p x s.lock) (sym e) ∙ h p in
    sound_at s.phase p idle none refl (λ q d. released p q s.lock (s.phase q) own d (h q))
turn_from-IsExclusive forced p s e y h =
    absurd (true_not_false (h p) (ap (λ x. is_sound p x s.lock) e))

Runs-IsExclusive : {first s : Planning} → IsExclusive first → Runs first s → IsExclusive s
unfolding turn is_prompt
Runs-IsExclusive h start = h
Runs-IsExclusive h (move {s} p r y) =
    turn_from-IsExclusive (s.phase p) p s refl y (Runs-IsExclusive h r)
Runs-IsExclusive h (pass ms r) = Runs-IsExclusive h r

in_fn-owns :
    (p : ℕ) (x : Phase) (l : Option (ℕ × ℕ))
    → is_sound p x l ≡ true
    → in_fn x ≡ true
    → owns p l ≡ true
in_fn-owns p idle l h i = absurd (true_not_false i refl)
in_fn-owns p (waiting t) l h i = absurd (true_not_false i refl)
in_fn-owns p (removing t) l h i = absurd (true_not_false i refl)
in_fn-owns p working l h i = h
in_fn-owns p forced l h i = absurd (true_not_false h refl)

one_owner : (p q : ℕ) (l : Option (ℕ × ℕ)) → owns p l ≡ true → owns q l ≡ true → p ≡ q
one_owner p q none h i = absurd (true_not_false h refl)
one_owner p q (some (owner, made)) h i = ground arith

-- From a state in which no process uses the planning lock, in every interleaving of turns and
-- passing time in which no process takes a turn after a wait of ten seconds and none meets a lock
-- older than thirty, two processes that are both in fn are the same process.
pub in_fn_alone :
    {first s : Planning} (p q : ℕ)
    → ((r : ℕ) → first.phase r ≡ idle)
    → Runs first s
    → in_fn (s.phase p) ≡ true
    → in_fn (s.phase q) ≡ true
    → p ≡ q
in_fn_alone {first} {s} p q quiet r i j =
    let sound : IsExclusive s =
      Runs-IsExclusive (λ p. ap (λ x. is_sound p x first.lock) (quiet p)) r in
    one_owner p q s.lock (in_fn-owns p (s.phase p) s.lock (sound p) i)
      (in_fn-owns q (s.phase q) s.lock (sound q) j)
