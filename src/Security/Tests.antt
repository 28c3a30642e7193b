-- ===== src/Security/Tests.antt =====
-- Runs of the checks of security.cjs, and the theorems at such runs.
use sagasmith.Common.{
  ◌≡◌, ◌≢◌, ◌↔◌, refl, arith, true, false, some, [], ◌∷◌, ◌++◌, str, str_eq, starts_with, has,
}
use sagasmith.Common.Result.{ok, thrown}
use sagasmith.Common.Regex.{full}
use sagasmith.Common.Spaces.{trim}
use sagasmith.Common.Digits.{decimal}
use sagasmith.Security.Patterns.{
  override_patterns, role_patterns, marker_patterns, exfiltration_patterns, injection_patterns,
  obfuscation_pattern_entries,
}
use sagasmith.Security.Scan.{scan_for_injection, findings_of, strict_findings, matched}
use sagasmith.Security.Scan.Clean.{IsClean, scan_for_injection-clean_iff}
use sagasmith.Security.Paths.{PathLib, validate_path, require_safe_path}
use sagasmith.Security.Arguments.{
  safe_json_parse, numeric_phase, custom_phase, validate_phase_number, validate_field_name,
}
use sagasmith.Security.Arguments.Accepted.{IsFieldName, validate_field_name-ok_iff}
use sagasmith.Security.Structure.{agent, other, known_valid_tags, validate_prompt_structure}
use sagasmith.Security.Structure.Tags.{KnownOpeningTags, validate_prompt_structure-valid_iff}

clean_text : (scan_for_injection (str "Act as a plan") false).clean ≡ true
unfolding scan_for_injection matched injection_patterns override_patterns role_patterns
    marker_patterns exfiltration_patterns obfuscation_pattern_entries findings_of
clean_text = refl

role_text : (scan_for_injection (str "please act as a planet") false).findings ≡ []
unfolding scan_for_injection matched injection_patterns override_patterns role_patterns
    marker_patterns exfiltration_patterns obfuscation_pattern_entries findings_of
role_text = refl

spelled_out :
    (scan_for_injection (str "now ACT as a pirate: i g n o r e") true).findings
    ≡ str "Matched injection pattern: act\\s+as\\s+(?:a|an|the)\\s+(?!plan|phase|wave)"
      ∷ str "Character-spacing obfuscation pattern detected (e.g. \"i g n o r e\")"
      ∷ []
unfolding scan_for_injection matched injection_patterns override_patterns role_patterns
    marker_patterns exfiltration_patterns obfuscation_pattern_entries findings_of strict_findings
spelled_out = refl

-- A file system without symlinks, whose paths are text.
abbrev plain_paths : PathLib
plain_paths = record {
  resolve = λ p. p;
  resolve_from = λ d p. d ++ (str "/" ++ p);
  is_absolute = λ p. starts_with p (str "/");
  dirname = λ p. str "/";
  basename = λ p. p;
  join = λ d p. d ++ (str "/" ++ p);
  sep = b'/';
  realpath = λ p. some p;
}

checked_paths :
    (require_safe_path plain_paths (str "a/b") (str "/home") [] false ≡ ok (str "/home/a/b"))
    × (require_safe_path plain_paths (str "/etc/a") (str "/home") [] true
        ≡ thrown
            (str "Path validation failed: Path escapes allowed directory: /etc/a is outside /home"))
    × ((validate_path plain_paths (str "/home2") (str "/home") true).safe ≡ false)
unfolding require_safe_path starts_with str_eq
checked_paths = (refl, refl, refl)

-- Below the root no file is safe, since the prefix that is tested ends in two slashes.
root_base : (validate_path plain_paths (str "/etc") (str "/") true).safe ≡ false
unfolding validate_path starts_with str_eq
root_base = refl

parsed_json :
    (safe_json_parse (λ s. ok s) (str "{}") 0 [] ≡ ok (str "{}"))
    × (safe_json_parse (λ s. ok s) (str "{}") 1 (str "Plan")
        ≡ thrown (str "Plan: input exceeds 1 byte limit (got 2)"))
unfolding safe_json_parse decimal
parsed_json = (refl, refl)

phase_numbers :
    (validate_phase_number (str " 12A.1 ") ≡ ok (str "12A.1"))
    × (validate_phase_number (str "PROJ-42") ≡ ok (str "PROJ-42"))
    × (validate_phase_number (str "12345") ≡ thrown (str "Invalid phase number format: \"12345\""))
unfolding validate_phase_number numeric_phase custom_phase full trim
phase_numbers = (refl, refl, refl)

tags_checked :
    ((validate_prompt_structure (str "<Step a='1'></step><odd>") agent).violations
      ≡ str "Unknown XML tag in agent file: <odd>" ∷ [])
unfolding validate_prompt_structure known_valid_tags has str_eq
tags_checked = refl

scan_for_injection-clean_iff_example :
    ((scan_for_injection (str "a\nb") true).clean ≡ true) ↔ IsClean (str "a\nb") true
scan_for_injection-clean_iff_example = scan_for_injection-clean_iff (str "a\nb") true

validate_field_name-ok_iff_example :
    (validate_field_name (str "Phase 1.2") ≡ ok tt) ↔ IsFieldName (str "Phase 1.2")
validate_field_name-ok_iff_example = validate_field_name-ok_iff (str "Phase 1.2")

agent_not_other : agent ≢ other
agent_not_other h = ground arith

validate_prompt_structure-valid_iff_example :
    ((validate_prompt_structure (str "<step>a < b") agent).valid ≡ true)
    ↔ KnownOpeningTags (str "<step>a < b")
validate_prompt_structure-valid_iff_example =
    validate_prompt_structure-valid_iff (str "<step>a < b") agent agent_not_other
