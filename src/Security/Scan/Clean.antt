-- ===== src/Security/Scan/Clean.antt =====
-- What a clean scan says.
use sagasmith.Common.{
  ℕ, ◌≤◌, ◌≡◌, ◌↔◌, refl, ◌∙◌, Bool, true, false, ◌&&◌, ◌||◌, not, List, [], ◌∷◌, ◌++◌, filter, any,
  ltb, arith, Str, if◌then◌else◌, non_empty, In, In-append, In-append_left, In-append_right,
  any-false, false-any, non_empty-append, non_empty-filter, non_empty-map, true_not_false, not_true,
  inl, inr, not-eq-true,
}
use sagasmith.Common.Regex.{full, test, Matches}
use sagasmith.Common.Regex.Laws.{Found, full_iff, test_iff}
use sagasmith.Security.Patterns.{
  Pattern, override_patterns, role_patterns, marker_patterns, exfiltration_patterns,
  injection_patterns, obfuscation_pattern_entries, is_invisible, tag_character,
}
use sagasmith.Security.Scan.{
  hits, matched, normalized_length, max_text, when, strict_findings, findings_of,
  scan_for_injection,
}

abbrev pub all_patterns : List Pattern
all_patterns = injection_patterns ++ obfuscation_pattern_entries

-- No invisible character, no tag character, no more than 50000 characters.
pub record IsPlain (text : Str) : Type 0 where
  pub visible : (c : ℕ) → In c text → is_invisible c ≡ false
  pub untagged : ¬ Found tag_character text
  pub bounded : normalized_length false text ≤ max_text

abbrev pub IsPlainIf : Bool → Str → Type 0
IsPlainIf true text = IsPlain text
IsPlainIf false text = Unit

pub record IsClean (text : Str) (strict : Bool) : Type 0 where
  pub no_pattern : (p : Pattern) → In p all_patterns → ¬ Matches p.language text
  pub plain : IsPlainIf strict text

pub non_empty-matched :
    (text : Str) (ps : List Pattern) → non_empty (matched text ps) ≡ any (hits text) ps
unfolding matched
non_empty-matched text ps =
    non_empty-map (λ (p : Pattern). p.source) (filter (hits text) ps)
    ∙ non_empty-filter (hits text) ps

pub non_empty-when : (b : Bool) (s : Str) → non_empty (when b s) ≡ b
non_empty-when true s = refl
non_empty-when false s = refl

abbrev odd : Str → Bool
odd text =
    any is_invisible text
    || (test tag_character text || ltb max_text (normalized_length false text))

strict_any : (text : Str) → non_empty (strict_findings text) ≡ odd text
unfolding strict_findings
strict_any text =
    rw (non_empty-append, non_empty-append, non_empty-when, non_empty-when, non_empty-when) refl

abbrev flagged : Str → Bool → Bool
flagged text strict =
    any (hits text) injection_patterns
    || (any (hits text) obfuscation_pattern_entries || (strict && odd text))

if_any :
    (text : Str) (strict : Bool)
    → non_empty (if strict then strict_findings text else []) ≡ (strict && odd text)
if_any text true = strict_any text
if_any text false = refl

findings_any :
    (text : Str) (strict : Bool) → non_empty (findings_of text strict) ≡ flagged text strict
unfolding findings_of
findings_any text strict =
    rw
      (
        non_empty-append, non_empty-append, non_empty-map, non_empty-matched, non_empty-matched,
        if_any,
      )
      refl

clean_flagged :
    (text : Str) (strict : Bool)
    → (scan_for_injection text strict).clean
      ≡ (if non_empty text then not (flagged text strict) else true)
unfolding scan_for_injection
clean_flagged [] strict = refl
clean_flagged (c ∷ text) strict = rw (findings_any (c ∷ text) strict) refl

-- Nothing is found in the empty text.
nothing_in_nil : (strict : Bool) → flagged [] strict ≡ false
unfolding hits full test normalized_length injection_patterns override_patterns role_patterns
    marker_patterns exfiltration_patterns obfuscation_pattern_entries
nothing_in_nil true = refl
nothing_in_nil false = refl

clean_not :
    (text : Str) (strict : Bool)
    → (scan_for_injection text strict).clean ≡ not (flagged text strict)
clean_not [] strict = rw (clean_flagged [] strict, nothing_in_nil strict) refl
clean_not (c ∷ text) strict = clean_flagged (c ∷ text) strict

not_hit : (text : Str) (p : Pattern) → hits text p ≡ false → ¬ Matches p.language text
unfolding hits
not_hit text p h m = true_not_false ((full_iff p.language text).1 m) h

pub hit_not : (text : Str) (p : Pattern) → ¬ Matches p.language text → hits text p ≡ false
unfolding hits
hit_not text p h = not_true _ (λ t. h ((full_iff p.language text).0 t))

IsPlain-odd : (text : Str) → odd text ≡ false → IsPlain text
IsPlain-odd text h = record {
  visible = any-false is_invisible text (ground arith);
  untagged = λ f. true_not_false ((test_iff tag_character text).1 f) (ground arith);
  bounded = ground arith;
}

odd-IsPlain : (text : Str) → IsPlain text → odd text ≡ false
odd-IsPlain text w =
    let seen = false-any is_invisible text w.visible in
    let tag =
      not_true (test tag_character text) (λ t. w.untagged ((test_iff tag_character text).0 t)) in
    let short = w.bounded in rw (seen, tag) (ground arith)

plain_if : (text : Str) (strict : Bool) → (strict && odd text) ≡ false → IsPlainIf strict text
plain_if text true h = IsPlain-odd text h
plain_if text false h = tt

if_plain : (text : Str) (strict : Bool) → IsPlainIf strict text → (strict && odd text) ≡ false
if_plain text true w = odd-IsPlain text w
if_plain text false w = refl

any_split :
    (text : Str) (strict : Bool)
    → flagged text strict ≡ false
    → (any (hits text) injection_patterns ≡ false)
      × (any (hits text) obfuscation_pattern_entries ≡ false)
      × ((strict && odd text) ≡ false)
any_split text strict h = ground arith

IsClean-of : (text : Str) (strict : Bool) → flagged text strict ≡ false → IsClean text strict
IsClean-of text strict h =
    let (a, b, c) = any_split text strict h in
    record {
      no_pattern = λ p at. elim (In-append p injection_patterns obfuscation_pattern_entries at) [
        | inl l ↦ not_hit text p (any-false (hits text) injection_patterns a p l)
        | inr r ↦ not_hit text p (any-false (hits text) obfuscation_pattern_entries b p r)
      ];
      plain = plain_if text strict c;
    }

flagged-IsClean : (text : Str) (strict : Bool) → IsClean text strict → flagged text strict ≡ false
flagged-IsClean text strict w =
    rw
      (
        false-any (hits text) injection_patterns (λ p at.
            hit_not text p (
              w.no_pattern p (In-append_left p injection_patterns obfuscation_pattern_entries at))),
        false-any (hits text) obfuscation_pattern_entries (λ p at.
            hit_not text p (
              w.no_pattern p
                (In-append_right p injection_patterns obfuscation_pattern_entries at))),
      )
      (if_plain text strict w.plain)

-- A scan is clean exactly where no pattern of the two tables matches the text and, if the scan is
-- strict, the text has no invisible character, no tag character and at most 50000 characters, a
-- carriage return with a line feed counting once.
pub scan_for_injection-clean_iff :
    (text : Str) (strict : Bool)
    → ((scan_for_injection text strict).clean ≡ true) ↔ IsClean text strict
scan_for_injection-clean_iff text strict = rw (clean_not text strict) (
  λ h. IsClean-of text strict (not-eq-true (flagged text strict) h),
  λ w. rw (flagged-IsClean text strict w) refl,
)
