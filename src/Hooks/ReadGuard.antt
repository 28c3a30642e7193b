-- ===== src/Hooks/ReadGuard.antt =====
-- .kilo/hooks/gsd-read-guard.js
use sagasmith.Common.{Bool, not, Option, none, some, ◌++◌, Str, str, non_empty, if◌then◌else◌}
use sagasmith.Hooks.{writes}

unfoldable pub reminder : Str → Str
reminder name =
    str "READ-BEFORE-EDIT REMINDER: You are about to modify \""
    ++ (name
        ++ str
            "\" which already exists. If you have not already used the Read tool to read this file in the current session, you MUST Read it first before editing. The runtime will reject edits to files that have not been read. Use the Read tool on this file path, then retry your edit.")

-- `session` says whether the environment has CLAUDE_SESSION_ID or CLAUDECODE, `exists` whether the
-- file can be accessed.
unfoldable pub read_guard : (Str → Str) → Bool → (Str → Bool) → Str → Str → Option Str
read_guard basename session exists tool_name file_path =
    if not (writes tool_name)
    then none
    else if session
    then none
    else if not (non_empty file_path)
    then none
    else if not (exists file_path)
    then none
    else some (reminder (basename file_path))
