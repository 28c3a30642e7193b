-- ===== src/Hooks/PromptGuard/Clean.antt =====
-- The prompt guard against the scan of security.cjs.
use sagasmith.Common.{
  ◌≡◌, refl, true, false, none, List, [], ◌∷◌, ◌++◌, any, arith, Str, non_empty, In, In-append,
  In-append_left, In-append_right, false-any, non_empty-append, inl, inr,
}
use sagasmith.Security.Patterns.{
  Pattern, injection_patterns, override_patterns, role_patterns, extraction_pattern,
  question_pattern, marker_patterns, exfiltration_patterns, tool_pattern,
  obfuscation_pattern_entries, is_invisible,
}
use sagasmith.Security.Scan.{hits, scan_for_injection}
use sagasmith.Security.Scan.Clean.{
  IsClean, scan_for_injection-clean_iff, non_empty-matched, hit_not, non_empty-when,
}
use sagasmith.Hooks.PromptGuard.{hook_patterns, Call, written, findings_in, prompt_guard}

-- The patterns of the hooks are patterns of the scan.
abbrev after_role : List Pattern
after_role =
    extraction_pattern
    ∷ question_pattern
    ∷ (marker_patterns ++ (exfiltration_patterns ++ tool_pattern ∷ []))

from_extraction : (p : Pattern) → In p (extraction_pattern ∷ marker_patterns) → In p after_role
from_extraction p (inl e) = inl e
from_extraction p (inr m) =
    inr (inr (In-append_left p marker_patterns (exfiltration_patterns ++ tool_pattern ∷ []) m))

from_role :
    (p : Pattern)
    → In p (role_patterns ++ extraction_pattern ∷ marker_patterns)
    → In p (role_patterns ++ after_role)
from_role p at = elim (In-append p role_patterns (extraction_pattern ∷ marker_patterns) at) [
  | inl r ↦ In-append_left p role_patterns after_role r
  | inr later ↦ In-append_right p role_patterns after_role (from_extraction p later)
]

hook_subset : (p : Pattern) → In p hook_patterns → In p injection_patterns
unfolding hook_patterns injection_patterns
hook_subset p at =
    elim (In-append p override_patterns (role_patterns ++ extraction_pattern ∷ marker_patterns)
      at) [
        | inl o ↦ In-append_left p override_patterns (role_patterns ++ after_role) o
        | inr later ↦
            In-append_right p override_patterns (role_patterns ++ after_role) (from_role p later)
      ]

pub hook_hits : (text : Str) → IsClean text true → any (hits text) hook_patterns ≡ false
hook_hits text w = false-any (hits text) hook_patterns (λ p at. hit_not text p (
    w.no_pattern p
      (In-append_left p injection_patterns obfuscation_pattern_entries (hook_subset p at))))

pub no_invisible : (text : Str) → IsClean text true → any is_invisible text ≡ false
no_invisible text w = false-any is_invisible text w.plain.visible

clean_findings : (text : Str) → IsClean text true → non_empty (findings_in text) ≡ false
unfolding findings_in
clean_findings text w =
    rw (non_empty-append, non_empty-matched, non_empty-when, hook_hits text w, no_invisible text w)
      refl

silent :
    (basename : Str → Str) (c : Call)
    → non_empty (findings_in (written c)) ≡ false
    → prompt_guard basename c ≡ none
unfolding prompt_guard
silent basename c h = ground arith

-- Text that the strict scan of security.cjs finds clean makes the prompt guard give no advice,
-- whatever the tool and the file.
pub prompt_guard-scan :
    (basename : Str → Str) (c : Call)
    → (scan_for_injection (written c) true).clean ≡ true
    → prompt_guard basename c ≡ none
prompt_guard-scan basename c h =
    silent basename c
      (clean_findings (written c) ((scan_for_injection-clean_iff (written c) true).0 h))
