-- ===== src/ContextMonitor/Debounce.antt =====
-- The debounce of one session: `check_metrics` over the calls of a session, in order.
use sagasmith.Common.{
  ℕ, ◌+◌, ◌≤◌, ◌<◌, ◌≡◌, refl, Bool, true, false, ◌&&◌, not, Option, none, some, List, [], ◌∷◌,
  arith, length, ◌⊎◌, inl, inr, Bool-cases, ◌≢◌, true_not_false,
}
use sagasmith.ContextMonitor.{
  Level, warning, critical, WarnData, WarnFile, saved, holds_null, holds_array, holds_scalar,
  MetricsFile, metrics, Metrics, Call, Message, level_of, check_metrics, is_critical, was_warning,
  is_stale, gt_opt, warning_threshold,
}

abbrev pub is_some : Option Message → Bool
is_some none = false
is_some (some m) = true

abbrev count : Bool → ℕ
count true = 1
count false = 0

-- The messages and the recordings of a session's calls in order, and the warn file after them.
unfoldable pub messages : List Call → WarnFile → ℕ
messages [] f = 0
messages (c ∷ cs) f =
    let e = check_metrics c c.bridge f in count (is_some e.message) + messages cs e.file

unfoldable pub recordings : List Call → WarnFile → ℕ
recordings [] f = 0
recordings (c ∷ cs) f =
    let e = check_metrics c c.bridge f in count e.recorded + recordings cs e.file

-- The bridge file shows fresh metrics at or below the warning threshold.
abbrev pub qualifies : Call → MetricsFile → Bool
qualifies c (metrics m) =
    not (is_stale m.timestamp c.now) && not (gt_opt m.remaining warning_threshold)
qualifies c _ = false

abbrev pub level_at : MetricsFile → Level
level_at (metrics m) = level_of m
level_at _ = warning

-- No call of the list is an escalation from the level last warned about.
abbrev pub Calm : Option Level → List Call → Type 0
Calm l [] = Unit
Calm l (c ∷ cs) = ((is_critical (level_at c.bridge) && was_warning l) ≡ false) × Calm l cs

abbrev pub Qualify : List Call → Type 0
Qualify [] = Unit
Qualify (c ∷ cs) = (qualifies c c.bridge ≡ true) × Qualify cs

-- A warn file that is at most `k` calls past a message at level `l`.
abbrev pub Waiting : ℕ → Option Level → WarnFile → Type 0
Waiting k l (saved d) = (d.calls_since_warn ≤ k) × (d.last_level ≡ l)
Waiting k l _ = ⊥

-- A file that keeps no counter and no record of a recording.
abbrev pub is_scalar : WarnFile → Bool
is_scalar holds_scalar = true
is_scalar _ = false

-- A file with which the hook never sends a message.
abbrev pub is_silencing : WarnFile → Bool
is_silencing holds_null = true
is_silencing holds_array = true
is_silencing _ = false

calm_step :
    (c : Call) (b : MetricsFile) (f : WarnFile) (k : ℕ) (l : Option Level)
    → Waiting k l f
    → k < 4
    → (is_critical (level_at b) && was_warning l) ≡ false
    → ((check_metrics c b f).message ≡ none) × Waiting (k + 1) l (check_metrics c b f).file
unfolding check_metrics
calm_step c (metrics m) (saved d) k l w h q = ground arith
calm_step c _ (saved d) k l w h q = (refl, ground arith)
calm_step c b _ k l w h q = absurd w

message-Waiting :
    (c : Call) (b : MetricsFile) (f : WarnFile)
    → is_scalar f ≡ false
    → (check_metrics c b f).message ≢ none
    → Waiting 0 (some (level_at b)) (check_metrics c b f).file
unfolding check_metrics
message-Waiting c (metrics m) (saved d) n h = ground arith
message-Waiting c (metrics m) holds_null n h = absurd (ground arith)
message-Waiting c (metrics m) holds_array n h = absurd (ground arith)
message-Waiting c (metrics m) holds_scalar n h = absurd (true_not_false refl n)
message-Waiting c (metrics m) _ n h = ground arith
message-Waiting c _ f n h = absurd (h refl)

silence_kept :
    (cs : List Call) (f : WarnFile) (k : ℕ) (l : Option Level)
    → Waiting k l f
    → k + length cs ≤ 4
    → Calm l cs
    → messages cs f ≡ 0
unfolding messages
silence_kept [] f k l w h q = refl
silence_kept (c ∷ cs) f k l w h (q, qs) =
    let (m, w') = calm_step c c.bridge f k l w (omega arith) q in
    rw m (rw (silence_kept cs (check_metrics c c.bridge f).file (k + 1) l w' (omega arith) qs))

-- After a call that sends a message over a warn file that is not a scalar, the next calls of the
-- session, four at most, send no message, provided none of them finds a critical level where the
-- message was a warning.
pub quiet_after_message :
    (c : Call) (f : WarnFile) (cs : List Call)
    → is_scalar f ≡ false
    → (check_metrics c c.bridge f).message ≢ none
    → length cs ≤ 4
    → Calm (some (level_at c.bridge)) cs
    → messages cs (check_metrics c c.bridge f).file ≡ 0
quiet_after_message c f cs n h short calm =
    silence_kept cs (check_metrics c c.bridge f).file 0 (some (level_at c.bridge))
      (message-Waiting c c.bridge f n h) (omega arith) calm

-- A warn file that has waited for `k` calls at least, or that warns at once.
abbrev Due : ℕ → WarnFile → Type 0
Due k (saved d) = k ≤ d.calls_since_warn
Due k holds_null = ⊥
Due k holds_array = ⊥
Due k _ = Unit

step_to_message :
    (c : Call) (b : MetricsFile) (f : WarnFile) (k : ℕ)
    → Due k f
    → qualifies c b ≡ true
    → (is_some (check_metrics c b f).message ≡ true)
      ⊎ (Due (k + 1) (check_metrics c b f).file × (k < 4))
unfolding check_metrics
step_to_message c (metrics m) (saved d) k w q = ground arith
step_to_message c (metrics m) holds_null k w q = absurd w
step_to_message c (metrics m) holds_array k w q = absurd w
step_to_message c (metrics m) _ k w q = ground arith
step_to_message c _ f k w q = absurd (ground arith)

messages_pos :
    (cs : List Call) (f : WarnFile) (k : ℕ)
    → Due k f
    → Qualify cs
    → 5 ≤ k + length cs
    → k < 5
    → 1 ≤ messages cs f
unfolding messages
messages_pos [] f k w q h lt = absurd (omega arith)
messages_pos (c ∷ cs) f k w (q, qs) h lt = elim (step_to_message c c.bridge f k w q) [
  | inl sent ↦ rw sent (omega arith)
  | inr (w', lt4) ↦
      let later =
        messages_pos cs (check_metrics c c.bridge f).file (k + 1) w' qs (omega arith)
          (omega arith) in
      omega arith
]

Due-zero : (f : WarnFile) → is_silencing f ≡ false → Due 0 f
Due-zero (saved d) h = omega arith
Due-zero holds_null h = true_not_false refl h
Due-zero holds_array h = true_not_false refl h
Due-zero _ h = tt

-- From any warn file but one that holds null or an array, a missing or corrupted one included, its
-- counter being a natural number where it has one, a sequence of at least five calls of a session,
-- each with fresh metrics at or below the warning threshold, sends at least one message.
pub warns_within_five :
    (cs : List Call) (f : WarnFile)
    → is_silencing f ≡ false
    → Qualify cs
    → 5 ≤ length cs
    → 1 ≤ messages cs f
warns_within_five cs f n q h = messages_pos cs f 0 (Due-zero f n) q (omega arith) (omega arith)

-- Where the last message was a warning, a fresh critical level is told at once.
pub escalation_warns :
    (c : Call) (m : Metrics) (d : WarnData)
    → is_stale m.timestamp c.now ≡ false
    → level_of m ≡ critical
    → d.last_level ≡ some warning
    → is_some (check_metrics c (metrics m) (saved d)).message ≡ true
unfolding check_metrics
escalation_warns c m d fresh level last = ground arith

abbrev Recorded : WarnFile → Type 0
Recorded (saved d) = d.critical_recorded ≡ true
Recorded _ = ⊥

recorded_step :
    (c : Call) (b : MetricsFile) (f : WarnFile)
    → Recorded f
    → ((check_metrics c b f).recorded ≡ false) × Recorded (check_metrics c b f).file
unfolding check_metrics
recorded_step c (metrics m) (saved d) r = ground arith
recorded_step c _ (saved d) r = (refl, r)
recorded_step c b _ r = absurd r

record_step :
    (c : Call) (b : MetricsFile) (f : WarnFile)
    → is_scalar f ≡ false
    → (check_metrics c b f).recorded ≡ true
    → Recorded (check_metrics c b f).file
unfolding check_metrics
record_step c (metrics m) (saved d) n r = ground arith
record_step c (metrics m) holds_null n r = absurd (ground arith)
record_step c (metrics m) holds_array n r = absurd (ground arith)
record_step c (metrics m) holds_scalar n r = absurd (true_not_false refl n)
record_step c (metrics m) _ n r = ground arith
record_step c _ f n r = absurd (ground arith)

-- No run leaves a scalar that was not there.
scalar_kept :
    (c : Call) (b : MetricsFile) (f : WarnFile)
    → is_scalar f ≡ false
    → is_scalar (check_metrics c b f).file ≡ false
unfolding check_metrics
scalar_kept c (metrics m) (saved d) n = ground arith
scalar_kept c (metrics m) holds_null n = ground arith
scalar_kept c (metrics m) holds_array n = ground arith
scalar_kept c (metrics m) holds_scalar n = absurd (true_not_false refl n)
scalar_kept c (metrics m) _ n = ground arith
scalar_kept c _ f n = n

recordings_none : (cs : List Call) (f : WarnFile) → Recorded f → recordings cs f ≡ 0
unfolding recordings
recordings_none [] f r = refl
recordings_none (c ∷ cs) f r =
    let (no_record, r') = recorded_step c c.bridge f r in
    rw no_record (rw (recordings_none cs (check_metrics c c.bridge f).file r'))

-- However many calls a session makes, its state is recorded at most once, whatever its warn file
-- holds at first but a scalar, that is a text, a number or a Boolean.
pub records_once : (cs : List Call) (f : WarnFile) → is_scalar f ≡ false → recordings cs f ≤ 1
unfolding recordings
records_once [] f n = omega arith
records_once (c ∷ cs) f n = elim (Bool-cases (check_metrics c c.bridge f).recorded) [
  | inl now ↦ rw now (
      omega (
        arith,
        recordings_none cs (check_metrics c c.bridge f).file (record_step c c.bridge f n now),
      ))
  | inr not_now ↦ rw not_now (
      omega (arith, records_once cs (check_metrics c c.bridge f).file (scalar_kept c c.bridge f n)))
]
