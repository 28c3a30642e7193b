-- ===== src/Hooks/WorkflowGuard.antt =====
-- .kilo/hooks/gsd-workflow-guard.js
use sagasmith.Common.{
  ◌≡◌, ◌↔◌, refl, Bool, true, false, not, ◌&&◌, ◌||◌, Option, none, some, ◌∷◌, ◌++◌, arith, Str,
  str, str_eq, includes, ends_with, if◌then◌else◌, Bool-cases, inl, inr,
}
use sagasmith.Hooks.{writes, in_planning}
use sagasmith.Security.Paths.{or_text}

-- What is read of .planning/config.json: no file, one that does not parse, or whether
-- `config.hooks?.workflow_guard` is truthy.
pub data Setting : Type 0 where
  missing broken : Setting
  guard : Bool → Setting

pub record Call : Type 0 where
  pub tool_name : Str
  pub file_path : Str
  pub path : Str
  pub is_subagent : Bool
  pub session_type : Str

-- data.tool_input?.file_path || data.tool_input?.path || ''
abbrev pub edited : Call → Str
edited c = or_text c.file_path c.path

-- allowedPatterns: files that may be edited directly.
unfoldable pub is_allowed : Str → Bool
is_allowed p =
    ends_with p (str ".gitignore")
    || includes p (str ".env")
    || ends_with p (str "CLAUDE.md")
    || ends_with p (str "AGENTS.md")
    || ends_with p (str "GEMINI.md")
    || ends_with p (str "settings.json")

unfoldable pub guards : Setting → Bool
guards missing = false
guards broken = false
guards (guard b) = b

unfoldable pub advice : Str → Str
advice name =
    (0x26a0 ∷ 0xfe0f ∷ str " WORKFLOW ADVISORY: You're editing ")
    ++ (name
        ++ str
            " directly without a GSD command. This edit will not be tracked in STATE.md or produce a SUMMARY.md. Consider using /gsd-fast for trivial fixes or /gsd-quick for larger changes to maintain project state tracking. If this is intentional (e.g., user explicitly asked for a direct edit), proceed normally.")

unfoldable pub workflow_guard : (Str → Str) → Setting → Call → Option Str
unfolding is_allowed guards
workflow_guard basename setting c =
    if not (writes c.tool_name)
    then none
    else if c.is_subagent || str_eq c.session_type (str "task")
    then none
    else if in_planning (edited c)
    then none
    else if is_allowed (edited c)
    then none
    else if not (guards setting)
    then none
    else some (advice (basename (edited c)))

-- A call that is advised on.
pub record IsAdvised (setting : Setting) (c : Call) : Type 0 where
  pub enabled : setting ≡ guard true
  pub writing : writes c.tool_name ≡ true
  pub not_subagent : c.is_subagent ≡ false
  pub not_task : str_eq c.session_type (str "task") ≡ false
  pub not_planning : in_planning (edited c) ≡ false
  pub not_allowed : is_allowed (edited c) ≡ false

guards_on : (s : Setting) → guards s ≡ true → s ≡ guard true
unfolding guards
guards_on missing h = absurd (ground arith)
guards_on broken h = absurd (ground arith)
guards_on (guard b) h = ground arith

abbrev speaks : Setting → Call → Bool
speaks setting c =
    writes c.tool_name
    && (not (c.is_subagent || str_eq c.session_type (str "task"))
        && (not (in_planning (edited c)) && (not (is_allowed (edited c)) && guards setting)))

guard_speaks :
    (basename : Str → Str) (setting : Setting) (c : Call)
    → workflow_guard basename setting c
      ≡ (if speaks setting c then some (advice (basename (edited c))) else none)
unfolding workflow_guard
guard_speaks basename setting c = ground arith

speaking : (setting : Setting) (c : Call) → IsAdvised setting c → speaks setting c ≡ true
unfolding guards
speaking setting c w =
    rw (w.enabled, w.writing, w.not_subagent, w.not_task, w.not_planning, w.not_allowed) refl

none_some : {s : Str} → none ≡ some s → ⊥
none_some h = ground arith

-- The guard advises exactly on a write or edit, neither of a subagent nor in a task session, of a file
-- that is not in the planning directory and not allowed, where the project's configuration switches
-- the guard on.
pub workflow_guard-some_iff :
    (basename : Str → Str) (setting : Setting) (c : Call)
    → (workflow_guard basename setting c ≡ some (advice (basename (edited c))))
      ↔ IsAdvised setting c
workflow_guard-some_iff basename setting c = rw (guard_speaks basename setting c) (
  λ h. elim (Bool-cases (speaks setting c)) [
    | inl t ↦ record {
      enabled = guards_on setting (ground arith);
      writing = ground arith;
      not_subagent = ground arith;
      not_task = ground arith;
      not_planning = ground arith;
      not_allowed = ground arith;
    }
    | inr f ↦ absurd (none_some (rw f at h))
  ],
  λ w. rw (speaking setting c w) refl,
)
