-- ===== src/ContextMonitor/Sessions.antt =====
-- The hook on the shared temp directory: which runs it ignores, and what a run may touch.
use sagasmith.Common.{
  ◌≡◌, ◌≢◌, refl, true, false, Option, none, some, arith, Str, str_eq, str_eq_iff, ◌⊎◌, inl, inr,
  Bool-cases, ap, sym, [],
}
use sagasmith.ContextMonitor.{
  Call, Files, WarnFile, MetricsFile, metrics, monitor, run_session, silent, unsafe_session,
  check_metrics, put_file, is_stale, gt_opt, warning_threshold,
}

-- The runs that the hook leaves without a trace: no usable session id, warnings switched off, no
-- readable bridge file, stale metrics, or more than the warning threshold left.
abbrev pub IgnoredMetrics : Call → MetricsFile → Type 0
IgnoredMetrics c (metrics m) =
    (is_stale m.timestamp c.now ≡ true) ⊎ (gt_opt m.remaining warning_threshold ≡ true)
IgnoredMetrics c _ = Unit

abbrev pub Ignored : Call → Option Str → Type 0
Ignored c none = Unit
Ignored c (some sid) =
    (sid ≡ [])
    ⊎ ((unsafe_session sid ≡ true) ⊎ ((c.warnings_off ≡ true) ⊎ IgnoredMetrics c c.bridge))

put_file_self : (fs : Files) (sid s : Str) → put_file fs sid (fs sid) s ≡ fs s
unfolding put_file
put_file_self fs sid s = elim (Bool-cases (str_eq s sid)) [
  | inl same ↦ rw same (ap fs (sym ((str_eq_iff s sid).0 same)))
  | inr other ↦ rw other
]

put_file-other : (fs : Files) (sid s : Str) (f : WarnFile) → s ≢ sid → put_file fs sid f s ≡ fs s
unfolding put_file
put_file-other fs sid s f h = elim (Bool-cases (str_eq s sid)) [
  | inl same ↦ absurd (h ((str_eq_iff s sid).0 same))
  | inr other ↦ rw other
]

check_metrics-ignored :
    (c : Call) (b : MetricsFile) (f : WarnFile)
    → IgnoredMetrics c b
    → check_metrics c b f ≡ silent f
unfolding check_metrics
check_metrics-ignored c (metrics m) f (inl stale) = rw stale
check_metrics-ignored c (metrics m) f (inr above) = ground arith
check_metrics-ignored c _ f h = refl

-- A run with a session id returns early, or it passes all three guards and reads the metrics.
run_session-cases :
    (c : Call) (sid : Str) (fs : Files)
    → (run_session c (some sid) fs ≡ (fs, silent (fs sid)))
      ⊎ ((str_eq sid [] ≡ false)
          × (unsafe_session sid ≡ false)
          × (c.warnings_off ≡ false)
          × (run_session c (some sid) fs ≡ (
            put_file fs sid (check_metrics c c.bridge (fs sid)).file,
            check_metrics c c.bridge (fs sid),
          )))
unfolding run_session
run_session-cases c sid fs = elim (Bool-cases (str_eq sid [])) [
  | inl a ↦ inl (rw a)
  | inr a ↦ elim (Bool-cases (unsafe_session sid)) [
    | inl b ↦ inl (rw (a, b))
    | inr b ↦ elim (Bool-cases c.warnings_off) [
      | inl d ↦ inl (rw (a, b, d))
      | inr d ↦ inr (a, b, d, rw (a, b, d))
    ]
  ]
]

only_metrics_left :
    (c : Call) (sid : Str) (fs : Files)
    → str_eq sid [] ≡ false
    → unsafe_session sid ≡ false
    → c.warnings_off ≡ false
    → Ignored c (some sid)
    → IgnoredMetrics c c.bridge
only_metrics_left c sid fs a b d (inl e) = cc ((str_eq_iff sid []).1 e)
only_metrics_left c sid fs a b d (inr (inl e)) = cc
only_metrics_left c sid fs a b d (inr (inr (inl e))) = cc
only_metrics_left c sid fs a b d (inr (inr (inr h))) = h

run_session_quiet :
    (c : Call) (o : Option Str) (fs : Files)
    → Ignored c o
    → ((run_session c o fs).1.message ≡ none)
      × ((run_session c o fs).1.recorded ≡ false)
      × ((s : Str) → (run_session c o fs).0 s ≡ fs s)
run_session_quiet c none fs h = unfold run_session in (refl, refl, λ s. refl)
run_session_quiet c (some sid) fs h = elim (run_session-cases c sid fs) [
  | inl early ↦ rw early (refl, refl, λ s. refl)
  | inr (a, b, d, late) ↦
      let quiet = check_metrics-ignored c c.bridge (fs sid) (only_metrics_left c sid fs a b d h) in
      rw (late, quiet) (refl, refl, put_file_self fs sid)
]

run_session-other :
    (c : Call) (o : Option Str) (fs : Files) (s : Str)
    → o ≢ some s
    → (run_session c o fs).0 s ≡ fs s
run_session-other c none fs s h = unfold run_session in refl
run_session-other c (some sid) fs s h = elim (run_session-cases c sid fs) [
  | inl early ↦ rw early
  | inr (a, b, d, late) ↦
      rw late (
        put_file-other fs sid s (check_metrics c c.bridge (fs sid)).file (λ e. h (ap some (sym e))))
]

-- A run without a usable session, with warnings off, without fresh metrics, or with more than the
-- warning threshold left sends no message, records nothing and leaves every warn file as it was.
pub early_exit_changes_nothing :
    (c : Call) (fs : Files)
    → Ignored c c.session_id
    → ((monitor c fs).1.message ≡ none)
      × ((monitor c fs).1.recorded ≡ false)
      × ((s : Str) → (monitor c fs).0 s ≡ fs s)
unfolding monitor
early_exit_changes_nothing c fs h = run_session_quiet c c.session_id fs h

-- A run for one session leaves the warn file of each other session as it was.
pub other_sessions_kept :
    (c : Call) (fs : Files) (s : Str) → c.session_id ≢ some s → (monitor c fs).0 s ≡ fs s
unfolding monitor
other_sessions_kept c fs s h = run_session-other c c.session_id fs s h
