-- ===== src/Security/Scan.antt =====
-- `scanForInjection` of security.cjs. A text is a string; one that is empty is clean.
pub mod Clean
use sagasmith.Common.{
  ℕ, zero, suc, ◌+◌, ◌≡◌, Bool, true, false, ◌&&◌, not, List, [], ◌∷◌, ◌++◌, map, filter, any,
  length, ltb, leb, ◌==◌, Str, str, if◌then◌else◌, non_empty,
}
use sagasmith.Common.Regex.{full, test}
use sagasmith.Common.Digits.{decimal}
use sagasmith.Security.Patterns.{
  Pattern, injection_patterns, obfuscation_pattern_entries, is_invisible, tag_character,
}

pub record Scan : Type 0 where
  pub clean : Bool
  pub findings : List Str

-- Whether `test` finds the pattern in the text.
unfoldable pub hits : Str → Pattern → Bool
unfolding full
hits text p = full p.language text

-- A table's patterns that hit, by their sources.
unfoldable pub matched : Str → List Pattern → List Str
unfolding hits
matched text ps = map (λ p. p.source) (filter (hits text) ps)

-- text.replace(/\r\n/g, '\n').replace(/\r/g, '\n').length: a line feed behind a carriage return does
-- not count.
unfoldable pub normalized_length : Bool → Str → ℕ
normalized_length after_cr [] = 0
normalized_length after_cr (c ∷ s) =
    let rest = normalized_length (c == 13) s in if after_cr && (c == 10) then rest else suc rest

abbrev pub max_text : ℕ
max_text = 50000

abbrev pub when : Bool → Str → List Str
when true s = s ∷ []
when false s = []

unfoldable pub strict_findings : Str → List Str
unfolding normalized_length test
strict_findings text =
    let n = normalized_length false text in
    when (any is_invisible text)
      (str "Contains suspicious zero-width or invisible Unicode characters")
    ++ (when (test tag_character text) (
          str
            "Contains Unicode tag block characters (U+E0000–E007F) — invisible instruction injection vector")
        ++ when (ltb max_text n) (
            str "Suspicious text length: "
            ++ (decimal n ++ str " chars (potential prompt stuffing)")))

unfoldable pub findings_of : Str → Bool → List Str
findings_of text strict =
    map (λ s. str "Matched injection pattern: " ++ s) (matched text injection_patterns)
    ++ (matched text obfuscation_pattern_entries ++ (if strict then strict_findings text else []))

unfoldable pub scan_for_injection : Str → Bool → Scan
unfolding findings_of
scan_for_injection text strict =
    if non_empty text
    then record {
      clean = not (non_empty (findings_of text strict));
      findings = findings_of text strict;
    }
    else record { clean = true; findings = [] }
