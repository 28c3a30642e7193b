-- ===== src/Security/Arguments/Accepted.antt =====
-- What the checks of arguments let through.
use sagasmith.Common.{
  ℕ, ◌≤◌, ◌≡◌, ◌↔◌, ◌≢◌, refl, ap, ◌∙◌, Bool, true, false, ◌&&◌, ◌||◌, not, [], ◌∷◌, ◌++◌, any, all,
  length, ◌==◌, arith, Str, str, includes, starts_with, non_empty, is_digit, Bool-cases, inl, inr,
  true_not_false,
}
use sagasmith.Common.Result.{ok}
use sagasmith.Common.Regex.{Regex, full, chr, seq, char, plus, Matches, one, both}
use sagasmith.Common.Regex.Laws.{full_iff, both_parts, one_char}
use sagasmith.Common.Regex.Shape.{Within, Within-all, up_to_parts, up_to_match, up_to-Within}
use sagasmith.Common.Spaces.{trim}
use sagasmith.Phases.{is_letter}
use sagasmith.Security.Paths.{has_null}
use sagasmith.Security.Arguments.{
  substitutes, validate_shell_arg, is_alnum, numeric_phase, custom_phase, validate_phase_number,
  is_field_char, field_name, validate_field_name,
}

-- A value that the shell does not take apart between double quotes.
pub record IsQuotable (value : Str) : Type 0 where
  pub some_text : value ≢ []
  pub no_null : has_null value ≡ false
  pub no_dollar_paren : includes value (str "$(") ≡ false
  pub no_backtick : any (λ c. c == b'`') value ≡ false

abbrev shell_guard : Str → Bool
shell_guard value = non_empty value && (not (has_null value) && not (substitutes value))

shell_guard_lem :
    (value label : Str) → validate_shell_arg value label ≡ ok value → shell_guard value ≡ true
unfolding validate_shell_arg
shell_guard_lem value label h = ground arith

guard_shell :
    (value label : Str) → shell_guard value ≡ true → validate_shell_arg value label ≡ ok value
unfolding validate_shell_arg
guard_shell value label h = ground arith

-- `$(` starts with a dollar, so the first test is redundant.
includes_dollar :
    (s : Str) → includes s (str "$(") ≡ true → any (λ c. (c == b'$') || (c == b'`')) s ≡ true
unfolding includes starts_with
includes_dollar [] h = absurd (ground arith)
includes_dollar (c ∷ s) h = ground (arith, includes_dollar s)

backtick_any :
    (s : Str) → any (λ c. c == b'`') s ≡ true → any (λ c. (c == b'$') || (c == b'`')) s ≡ true
backtick_any [] h = h
backtick_any (c ∷ s) h = ground (arith, backtick_any s)

substitutes_parts : (s : Str) → substitutes s ≡ (includes s (str "$(") || any (λ c. c == b'`') s)
unfolding substitutes
substitutes_parts s = ground (arith, includes_dollar s, backtick_any s)

-- A value is accepted exactly where it is not empty and has no null byte, no `$(` and no backtick;
-- what is given back is the value.
pub validate_shell_arg-ok_iff :
    (value label : Str) → (validate_shell_arg value label ≡ ok value) ↔ IsQuotable value
validate_shell_arg-ok_iff [] label =
    (λ h. absurd (true_not_false (shell_guard_lem [] label h) refl), λ w. absurd (w.some_text refl))
validate_shell_arg-ok_iff (c ∷ value) label = (
  λ h.
      let g = shell_guard_lem (c ∷ value) label h in
      let e = substitutes_parts (c ∷ value) in
      record {
        some_text = λ n. ground arith;
        no_null = ground arith;
        no_dollar_paren = ground arith;
        no_backtick = ground arith;
      },
  λ w.
      let e = substitutes_parts (c ∷ value) in
      guard_shell (c ∷ value) label (rw (e, w.no_null, w.no_dollar_paren, w.no_backtick) refl),
)

-- A letter, a digit, a dot or a dash.
abbrev pub is_phase_char : ℕ → Bool
is_phase_char c = is_alnum c || (c == b'.') || (c == b'-')

digit_ok : (c : ℕ) → is_digit c ≡ true → is_phase_char c ≡ true
digit_ok c h = ground arith

letter_ok : (c : ℕ) → is_letter c ≡ true → is_phase_char c ≡ true
letter_ok c h = ground arith

alnum_ok : (c : ℕ) → is_alnum c ≡ true → is_phase_char c ≡ true
alnum_ok c h = ground arith

dot_ok : (c : ℕ) → (c == b'.') ≡ true → is_phase_char c ≡ true
dot_ok c h = ground arith

dash_ok : (c : ℕ) → (c == b'-') ≡ true → is_phase_char c ≡ true
dash_ok c h = ground arith

numeric-Within : Within is_phase_char numeric_phase
unfolding numeric_phase
numeric-Within =
    let more = λ (n : ℕ). up_to-Within n is_phase_char (chr is_digit) digit_ok in
    (digit_ok, (more 3, ((letter_ok, tt), (dot_ok, (digit_ok, more 2)))))

custom-Within : Within is_phase_char custom_phase
unfolding custom_phase
custom-Within =
    let part : Within is_phase_char (seq (char b'-') (plus (chr is_alnum))) =
      (dash_ok, (alnum_ok, alnum_ok)) in
    (
      letter_ok,
      (alnum_ok, (part, up_to-Within 3 is_phase_char (seq (char b'-') (plus (chr is_alnum))) part)),
    )

full-Within : (p : ℕ → Bool) (r : Regex) (s : Str) → Within p r → full r s ≡ true → all p s ≡ true
full-Within p r s w h = Within-all p ((full_iff r s).0 h) w

phase_ok :
    (phase t : Str)
    → validate_phase_number phase ≡ ok t
    → (t ≡ trim phase) × ((full numeric_phase t || full custom_phase t) ≡ true)
unfolding validate_phase_number
phase_ok phase t h = ground arith

-- A phase number that is accepted is the trimmed argument, and holds only letters, digits, dots and
-- dashes.
pub validate_phase_number-chars :
    (phase t : Str)
    → validate_phase_number phase ≡ ok t
    → (t ≡ trim phase) × (all is_phase_char t ≡ true)
validate_phase_number-chars phase t h =
    let (e, m) = phase_ok phase t h in
    (
      e,
      elim (Bool-cases (full numeric_phase t)) [
        | inl n ↦ full-Within is_phase_char numeric_phase t numeric-Within n
        | inr o ↦ full-Within is_phase_char custom_phase t custom-Within (ground arith)
      ],
    )

-- A name that is accepted: a letter, then at most 60 letters, digits, spaces, underscores, dots,
-- dashes and slashes.
pub record IsFieldName (field : Str) : Type 0 where
  pub first : ℕ
  pub rest : Str
  pub made_of : field ≡ first ∷ rest
  pub starts : is_letter first ≡ true
  pub goes_on : all is_field_char rest ≡ true
  pub bounded : length rest ≤ 60

no_empty_name : full field_name [] ≡ false
unfolding full field_name
no_empty_name = refl

field_full : (field : Str) → (validate_field_name field ≡ ok tt) ↔ (full field_name field ≡ true)
unfolding validate_field_name
field_full [] = (λ h. absurd (ground arith), λ h. absurd (true_not_false h no_empty_name))
field_full (c ∷ field) = (λ h. ground arith, λ h. ground arith)

name_parts : (field : Str) → Matches field_name field → IsFieldName field
unfolding field_name
name_parts field m =
    let (s, t, e, a, b) = both_parts m in
    let (c, h, f) = one_char a in
    let (g, l) = up_to_parts 60 is_field_char t b in
    record {
      first = c;
      rest = t;
      made_of = e ∙ ap (λ v. v ++ t) f;
      starts = h;
      goes_on = g;
      bounded = l;
    }

parts_name : (field : Str) → IsFieldName field → Matches field_name field
unfolding field_name
parts_name field w =
    both (w.first ∷ []) w.rest w.made_of (one w.first w.starts refl)
      (up_to_match 60 is_field_char w.rest w.goes_on w.bounded)

-- A field name is accepted exactly where it is a letter followed by at most 60 letters, digits,
-- spaces, underscores, dots, dashes and slashes.
pub validate_field_name-ok_iff :
    (field : Str) → (validate_field_name field ≡ ok tt) ↔ IsFieldName field
validate_field_name-ok_iff field =
    let (to, from) = field_full field in
    let (sound, complete) = full_iff field_name field in
    (λ h. name_parts field (sound (to h)), λ w. from (complete (parts_name field w)))
