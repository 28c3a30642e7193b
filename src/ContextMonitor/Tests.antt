-- ===== src/ContextMonitor/Tests.antt =====
-- Runs of the hook on concrete input, and the theorems at such runs.
use sagasmith.Common.{
  ℕ, ◌≤◌, ◌≡◌, ◌≢◌, refl, true, false, none, some, List, [], ◌∷◌, arith, str, Str, inr,
}
use sagasmith.ContextMonitor.{
  Call, Files, WarnFile, WarnData, Metrics, metrics, warning, monitor, check_metrics, level_of,
  unsafe_session,
}
use sagasmith.ContextMonitor.Debounce.{
  messages, recordings, quiet_after_message, warns_within_five, records_once,
}
use sagasmith.ContextMonitor.Sessions.{early_exit_changes_nothing}

abbrev low : ℕ → Metrics
low n = record { timestamp = some 100; remaining = some n; used_pct = some 70 }

abbrev call : ℕ → Call
call n = record {
  session_id = some (str "s1");
  warnings_off = false;
  bridge = metrics (low n);
  now = 120;
  gsd_active = true;
  spawn_works = true;
  gemini = false;
}

abbrev five : List Call
five = call 30 ∷ call 30 ∷ call 30 ∷ call 30 ∷ call 30 ∷ []

abbrev no_files : Files
no_files s = WarnFile.absent

six_calls : messages (call 30 ∷ five) WarnFile.absent ≡ 2
unfolding messages check_metrics
six_calls = refl

escalated : messages (call 30 ∷ call 20 ∷ call 20 ∷ []) WarnFile.absent ≡ 2
unfolding messages check_metrics
escalated = refl

recorded_one : recordings (call 20 ∷ call 20 ∷ five) WarnFile.absent ≡ 1
unfolding recordings check_metrics
recorded_one = refl

-- A warn file that holds null or an array keeps the hook silent, and with one that holds a scalar each
-- critical call records.
silenced : (messages five WarnFile.holds_null ≡ 0) × (messages five WarnFile.holds_array ≡ 0)
unfolding messages check_metrics
silenced = (refl, refl)

recorded_again : recordings (call 20 ∷ call 20 ∷ []) WarnFile.holds_scalar ≡ 2
unfolding recordings check_metrics
recorded_again = refl

guards :
    (unsafe_session (str "../x") ≡ true)
    × (unsafe_session (str "a/b") ≡ true)
    × (unsafe_session (str "a.b") ≡ false)
unfolding unsafe_session
guards = (refl, refl, refl)

first_message : (check_metrics (call 30) (metrics (low 30)) WarnFile.absent).message ≢ none
unfolding check_metrics
first_message = ground arith

quiet_after_message_example :
    messages
      (call 30 ∷ call 30 ∷ [])
      (check_metrics (call 30) (metrics (low 30)) WarnFile.absent).file
    ≡ 0
unfolding level_of
quiet_after_message_example =
    quiet_after_message (call 30) WarnFile.absent (call 30 ∷ call 30 ∷ []) refl first_message
      (omega arith) (refl, (refl, tt))

warns_within_five_example : 1 ≤ messages five WarnFile.absent
unfolding check_metrics
warns_within_five_example =
    warns_within_five five WarnFile.absent refl (refl, (refl, (refl, (refl, (refl, tt)))))
      (omega arith)

abbrev warned_once : WarnData
warned_once = record { calls_since_warn = 1; last_level = some warning; critical_recorded = false }

records_once_example : recordings five WarnFile.absent ≤ 1
records_once_example = records_once five WarnFile.absent refl

early_exit_changes_nothing_example :
    ((monitor (call 90) no_files).1.message ≡ none)
    × ((monitor (call 90) no_files).1.recorded ≡ false)
    × ((s : Str) → (monitor (call 90) no_files).0 s ≡ no_files s)
early_exit_changes_nothing_example =
    early_exit_changes_nothing (call 90) no_files
      (inr (inr (inr (inr (unfold check_metrics in refl)))))
