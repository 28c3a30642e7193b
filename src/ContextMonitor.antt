-- ===== src/ContextMonitor.antt =====
-- .kilo/hooks/gsd-context-monitor.js: the hook that warns an agent whose context runs out.
pub mod Debounce
pub mod Sessions
mod Tests
use sagasmith.Common.{
  ℕ, ◌+◌, ◌≡◌, Bool, true, false, ◌&&◌, ◌||◌, not, Option, none, some, List, [], ◌∷◌, ltb, leb,
  ◌==◌, if◌then◌else◌, Str, str_eq,
}

abbrev pub warning_threshold : ℕ
warning_threshold = 35

abbrev pub critical_threshold : ℕ
critical_threshold = 25

abbrev pub stale_seconds : ℕ
stale_seconds = 60

abbrev pub debounce_calls : ℕ
debounce_calls = 5

pub data Level : Type 0 where
  warning critical : Level

-- `warnData`, as the warn file of a session holds it. The counter is a natural number, 0 where it is
-- missing; a file with a negative number or another value in its place is outside the model.
pub record WarnData : Type 0 where
  pub calls_since_warn : ℕ
  pub last_level : Option Level
  pub critical_recorded : Bool

-- A warn file: not there, not parseable, a record, or another JSON value. A scalar is a text, a
-- number or a Boolean.
pub data WarnFile : Type 0 where
  absent corrupted holds_null holds_array holds_scalar : WarnFile
  saved : WarnData → WarnFile

-- The bridge file. A missing `remaining_percentage` is undefined, and a missing timestamp too.
pub record Metrics : Type 0 where
  pub timestamp : Option ℕ
  pub remaining : Option ℕ
  pub used_pct : Option ℕ

pub data MetricsFile : Type 0 where
  absent malformed : MetricsFile
  metrics : Metrics → MetricsFile

-- What one run of the hook reads besides the warn file. `session_id` is none where the input does
-- not parse or names no session; `warnings_off` says that `.planning/config.json` sets
-- `hooks.context_warnings` to false.
pub record Call : Type 0 where
  pub session_id : Option Str
  pub warnings_off : Bool
  pub bridge : MetricsFile
  pub now : ℕ
  pub gsd_active : Bool
  pub spawn_works : Bool
  pub gemini : Bool

-- The advisory text is fixed by the level and by whether a project is active.
pub record Message : Type 0 where
  pub level : Level
  pub for_active_project : Bool
  pub used_pct : Option ℕ
  pub remaining : Option ℕ
  pub after_tool_event : Bool

-- What one run leaves behind: the warn file, the message, and whether `state record-session` ran.
pub record Effect : Type 0 where
  pub file : WarnFile
  pub message : Option Message
  pub recorded : Bool

-- /[/\\]|\.\./ on the session id.
unfoldable pub unsafe_session : Str → Bool
unsafe_session [] = false
unsafe_session (c ∷ []) = (c == b'/') || (c == b'\\')
unsafe_session (c ∷ d ∷ s) =
    let rest = unsafe_session (d ∷ s) in
    if (c == b'/') || (c == b'\\') then true else if (c == b'.') && (d == b'.') then true else rest

unfoldable pub gt_opt : Option ℕ → ℕ → Bool
gt_opt none k = false
gt_opt (some n) k = ltb k n

unfoldable pub le_opt : Option ℕ → ℕ → Bool
le_opt none k = false
le_opt (some n) k = leb n k

-- `metrics.timestamp && (now - metrics.timestamp) > STALE_SECONDS`
unfoldable pub is_stale : Option ℕ → ℕ → Bool
is_stale none now = false
is_stale (some t) now = not (t == 0) && ltb (t + stale_seconds) now

unfoldable pub level_of : Metrics → Level
unfolding le_opt
level_of m = if le_opt m.remaining critical_threshold then critical else warning

abbrev pub is_critical : Level → Bool
is_critical critical = true
is_critical warning = false

abbrev pub was_warning : Option Level → Bool
was_warning (some warning) = true
was_warning _ = false

-- `warnData` and `firstWarn` after the warn file was read.
unfoldable pub read_warn : WarnFile → WarnData
read_warn (saved d) = d
read_warn _ = record { calls_since_warn = 0; last_level = none; critical_recorded = false }

unfoldable pub first_warn : WarnFile → Bool
first_warn (saved d) = false
first_warn _ = true

abbrev pub silent : WarnFile → Effect
silent f = record { file = f; message = none; recorded = false }

abbrev pub message_of : Call → Metrics → Message
unfolding level_of
message_of c m = record {
  level = level_of m;
  for_active_project = c.gsd_active;
  used_pct = m.used_pct;
  remaining = m.remaining;
  after_tool_event = c.gemini;
}

-- The debounce, the message and the recording over what the file gives.
unfoldable pub warn_record : Call → Metrics → WarnFile → Effect
unfolding level_of read_warn first_warn
warn_record c m f =
    let d = read_warn f in
    let calls = d.calls_since_warn + 1 in
    let level = level_of m in
    let escalated = is_critical level && was_warning d.last_level in
    let records = is_critical level && c.gsd_active && not d.critical_recorded && c.spawn_works in
    if not (first_warn f) && ltb calls debounce_calls && not escalated
    then record {
      file = saved (record d { calls_since_warn = calls });
      message = none;
      recorded = false;
    }
    else record {
      file = saved (record {
        calls_since_warn = 0;
        last_level = some level;
        critical_recorded = d.critical_recorded || records;
      });
      message = some (message_of c m);
      recorded = records;
    }

-- From the debounce on: the metrics are fresh and at or below the warning threshold. A name set on null
-- throws, which ends the run; one set on an array counts in this run, and is not written; one set on a
-- scalar is lost at once, so that its counter is undefined, which is not below the limit.
unfoldable pub warn : Call → Metrics → WarnFile → Effect
unfolding warn_record level_of
warn c m holds_null = silent holds_null
warn c m holds_array = silent holds_array
warn c m holds_scalar = record {
  file = holds_scalar;
  message = some (message_of c m);
  recorded = is_critical (level_of m) && c.gsd_active && c.spawn_works;
}
warn c m f = warn_record c m f

unfoldable pub check_metrics : Call → MetricsFile → WarnFile → Effect
unfolding warn is_stale gt_opt
check_metrics c (metrics m) f =
    if is_stale m.timestamp c.now
    then silent f
    else if gt_opt m.remaining warning_threshold
    then silent f
    else warn c m f
check_metrics c _ f = silent f

-- The warn files of all sessions, by session id.
abbrev pub Files : Type 0
Files = Str → WarnFile

unfoldable pub put_file : Files → Str → WarnFile → Files
put_file fs sid f other = if str_eq other sid then f else fs other

-- One run of the hook on the shared temp directory.
unfoldable pub run_session : Call → Option Str → Files → Files × Effect
unfolding unsafe_session check_metrics put_file
run_session c none fs = (fs, silent absent)
run_session c (some sid) fs =
    if str_eq sid []
    then (fs, silent (fs sid))
    else if unsafe_session sid
    then (fs, silent (fs sid))
    else if c.warnings_off
    then (fs, silent (fs sid))
    else let e = check_metrics c c.bridge (fs sid) in (put_file fs sid e.file, e)

unfoldable pub monitor : Call → Files → Files × Effect
unfolding run_session
monitor c fs = run_session c c.session_id fs
