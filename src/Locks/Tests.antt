-- ===== src/Locks/Tests.antt =====
-- The lock on two processes: a run with a wait, and one in which the second comes in by the timeout.
use sagasmith.Locks.StateLock.{
  Seen, created, exists, acquire_state_lock, is_taken, acquire_state_lock_acquires,
  acquire_state_lock-Ended, Ended,
}
use sagasmith.Common.{
  ℕ, zero, suc, ◌==◌, ◌≤◌, ◌<◌, if◌then◌else◌, arith, ◌+◌, true, false, ◌≡◌, refl, none,
}
use sagasmith.Locks.{Planning, idle, working, forced, turn, is_prompt, Runs, start, move, pass}
use sagasmith.Locks.Exclusion.{in_fn_alone}

abbrev quiet : Planning
quiet = record { now = 0; lock = none; phase = λ p. idle }

abbrev wait : ℕ → Planning → Planning
wait ms s = record s { now = s.now + ms }

-- Process 1 takes the lock, and process 2 finds it taken.
abbrev contended : Planning
contended = turn 2 (turn 2 (wait 50 (turn 1 (turn 1 quiet))))

contended-Runs : Runs quiet contended
unfolding turn is_prompt
contended-Runs = move 2 (move 2 (pass 50 (move 1 (move 1 start refl) refl)) refl) refl

in_fn_alone_example : ◌≡◌ {A = ℕ} 1 1
unfolding turn
in_fn_alone_example = in_fn_alone 1 1 (λ r. refl) contended-Runs refl refl

-- Ten seconds later process 2 goes on beside process 1.
both_in_fn :
    ((turn 2 (wait 10000 contended)).phase 1 ≡ working)
    × ((turn 2 (wait 10000 contended)).phase 2 ≡ forced)
unfolding turn
both_in_fn = (refl, refl)

-- A fresh lock, then a stale one, then none.
abbrev met : ℕ → Seen
met i = if i == 0 then exists 5 else if i == 1 then exists 20000 else created

abbrev no_jitter : ℕ → ℕ
no_jitter i = 7

met_before : (j : ℕ) → j < 2 → is_taken (met j) ≡ true
met_before zero h = refl
met_before (suc zero) h = refl
met_before (suc (suc j)) h = absurd (omega arith)

acquire_state_lock_acquires_example :
    ((acquire_state_lock met no_jitter).own ≡ true)
    × ((acquire_state_lock met no_jitter).waited ≤ 498)
acquire_state_lock_acquires_example =
    acquire_state_lock_acquires met no_jitter 2 (omega arith) met_before (λ j. omega arith) refl

-- A lock that is always fresh is removed at the last attempt, and the caller goes on without its own.
abbrev held : ℕ → Seen
held i = exists 5

acquire_state_lock-Ended_example : Ended held no_jitter (acquire_state_lock held no_jitter)
acquire_state_lock-Ended_example = acquire_state_lock-Ended held no_jitter

gives_up : acquire_state_lock held no_jitter ≡ record { own = false; waited = 1863; removed = 1 }
unfolding acquire_state_lock
gives_up = refl
