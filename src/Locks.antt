-- ===== src/Locks.antt =====
-- withPlanningLock of .kilo/get-shit-done/bin/lib/core.cjs, as run by any number of processes on one
-- .planning/.lock: a turn of a process is what it does between two points at which another may act.
-- Times are in milliseconds of a clock that does not go back.
pub mod Exclusion
pub mod StateLock
mod Tests
use sagasmith.Common.{
  ℕ, ◌+◌, ◌-◌, Bool, true, false, ◌&&◌, not, ltb, ◌==◌, Option, none, some, if◌then◌else◌, ◌≡◌,
}

-- Where a process stands: outside, in the loop since a time, about to remove a lock that it has found
-- stale, in fn with its lock, or in fn after the timeout.
pub data Phase : Type 0 where
  idle : Phase
  waiting : ℕ → Phase
  removing : ℕ → Phase
  working forced : Phase

-- The lock file has the process that made it and the time.
pub record Planning : Type 0 where
  pub now : ℕ
  pub lock : Option (ℕ × ℕ)
  pub phase : ℕ → Phase

abbrev pub set_phase : (ℕ → Phase) → ℕ → Phase → ℕ → Phase
set_phase f p x q = if p == q then x else f q

abbrev pub lock_timeout : ℕ
lock_timeout = 10000

abbrev pub stale_after : ℕ
stale_after = 30000

-- writeFileSync with the flag wx, and the test of the age where the file exists.
abbrev pub attempt : ℕ → ℕ → Option (ℕ × ℕ) → Planning → Planning
attempt p since none s = record s { lock = some (p, s.now); phase = set_phase s.phase p working }
attempt p since (some (owner, made)) s =
    if ltb stale_after (s.now - made)
    then record s { phase = set_phase s.phase p (removing since) }
    else s

abbrev pub turn_from : Phase → ℕ → Planning → Planning
turn_from idle p s = record s { phase = set_phase s.phase p (waiting s.now) }
turn_from (waiting since) p s =
    if ltb (s.now - since) lock_timeout
    then attempt p since s.lock s
    else record s { lock = none; phase = set_phase s.phase p forced }
turn_from (removing since) p s = record s {
  lock = none;
  phase = set_phase s.phase p (waiting since);
}
turn_from working p s = record s { lock = none; phase = set_phase s.phase p idle }
turn_from forced p s = record s { phase = set_phase s.phase p idle }

unfoldable pub turn : ℕ → Planning → Planning
turn p s = turn_from (s.phase p) p s

-- Neither the timeout nor the removal of a stale lock takes place at the turn of p.
abbrev pub is_young : ℕ → Option (ℕ × ℕ) → Bool
is_young now none = true
is_young now (some (owner, made)) = not (ltb stale_after (now - made))

abbrev pub is_prompt_from : Phase → Planning → Bool
is_prompt_from (waiting since) s = ltb (s.now - since) lock_timeout && is_young s.now s.lock
is_prompt_from _ s = true

unfoldable pub is_prompt : ℕ → Planning → Bool
is_prompt p s = is_prompt_from (s.phase p) s

pub data Runs (first : Planning) : Planning → Type 0 where
  start : Runs first first
  move : {s : Planning} (p : ℕ) → Runs first s → is_prompt p s ≡ true → Runs first (turn p s)
  pass : {s : Planning} (ms : ℕ) → Runs first s → Runs first (record s { now = s.now + ms })

abbrev pub is_working : Phase → Bool
is_working working = true
is_working _ = false

abbrev pub in_fn : Phase → Bool
in_fn working = true
in_fn forced = true
in_fn _ = false
