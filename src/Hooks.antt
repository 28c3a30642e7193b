-- ===== src/Hooks.antt =====
-- The hooks of .kilo/hooks that look at one tool call and give advice or none. What they read of
-- their JSON input is a record; a missing text is empty, and `basename` is that of `path`.
pub mod PromptGuard
pub mod ReadScanner
pub mod WorkflowGuard
pub mod ReadGuard
mod Tests
use sagasmith.Common.{Bool, ◌||◌, Str, str, str_eq, includes}

-- toolName === 'Write' || toolName === 'Edit'
abbrev pub writes : Str → Bool
writes tool = str_eq tool (str "Write") || str_eq tool (str "Edit")

abbrev pub in_planning : Str → Bool
in_planning file_path =
    includes file_path (str ".planning/") || includes file_path (str ".planning\\")
