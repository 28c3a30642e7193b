-- ===== src/Phases/Normal.antt =====
-- `normalizePhaseName`.
use sagasmith.Common.{
  non_empty, ℕ, ◌≡◌, refl, ap, true, false, Option, none, some, List, [], ◌∷◌, ◌++◌, arith, Str,
  is_digit, Option-cases, inl, inr,
}
use sagasmith.Phases.{
  Phase, digits_of, code_rest, strip_code, strip_code_before_digit, parse_phase, pad_start,
  letter_text, print_parts, print_phase, normalize_phase_name, value_from, value, Sign,
  compare_phases, compare_phase_num,
}
use sagasmith.Phases.Parse.{
  is_number, IsPhase, parse_phase-print_phase, parse_phase-IsPhase, parse_some,
}

abbrev pub padded : Phase → Phase
padded p = record p { digits = pad_start p.digits }

pad_start_ok : (d : Str) → is_number d ≡ true → is_number (pad_start d) ≡ true
unfolding pad_start
pad_start_ok [] h = refl
pad_start_ok (c ∷ []) h = ground arith
pad_start_ok (c ∷ d ∷ s) h = h

pad_start_twice : (d : Str) → pad_start (pad_start d) ≡ pad_start d
unfolding pad_start
pad_start_twice [] = refl
pad_start_twice (c ∷ []) = refl
pad_start_twice (c ∷ d ∷ s) = refl

padded-IsPhase : (p : Phase) → IsPhase p → IsPhase (padded p)
padded-IsPhase p w = record {
  digits_ok = pad_start_ok p.digits w.digits_ok;
  letter_ok = w.letter_ok;
  parts_ok = w.parts_ok;
}

-- A text that starts with a digit has no project code.
code_rest_none : (c : ℕ) (s : Str) → is_digit c ≡ true → code_rest 6 false (c ∷ s) ≡ none
unfolding code_rest
code_rest_none c s h = ground arith

print_no_code :
    (d : Str) (l : Option ℕ) (ps : List Str)
    → is_number d ≡ true
    → code_rest 6 false (print_phase (record { digits = d; letter = l; parts = ps })) ≡ none
unfolding print_phase
print_no_code [] l ps h = absurd (ground arith)
print_no_code (c ∷ d) l ps h =
    code_rest_none c (d ++ (letter_text l ++ print_parts ps)) (ground arith)

strip-print_phase :
    (p : Phase)
    → IsPhase p
    → (strip_code (print_phase p) ≡ print_phase p)
      × (strip_code_before_digit (print_phase p) ≡ print_phase p)
unfolding strip_code strip_code_before_digit
strip-print_phase p w = ground (arith, print_no_code p.digits p.letter p.parts w.digits_ok)

normalize_of :
    (s : Str) (p : Phase)
    → parse_phase (strip_code_before_digit s) ≡ some p
    → normalize_phase_name s ≡ print_phase (padded p)
unfolding normalize_phase_name
normalize_of s p h = ground arith

normalize_custom :
    (s : Str) → parse_phase (strip_code_before_digit s) ≡ none → normalize_phase_name s ≡ s
unfolding normalize_phase_name
normalize_custom s h = ground arith

normalize-print_phase :
    (p : Phase) → IsPhase p → normalize_phase_name (print_phase p) ≡ print_phase (padded p)
normalize-print_phase p w =
    normalize_of (print_phase p) p (rw (strip-print_phase p w).1 (parse_phase-print_phase p w))

padded_twice : (p : Phase) → padded (padded p) ≡ padded p
padded_twice p = ap (λ (d : Str). record p { digits = d }) (pad_start_twice p.digits)

-- Normalising a name that is normalised changes nothing, whatever the name.
pub normalize_phase_name_twice :
    (s : Str) → normalize_phase_name (normalize_phase_name s) ≡ normalize_phase_name s
normalize_phase_name_twice s = elim (Option-cases (parse_phase (strip_code_before_digit s))) [
  | inl custom ↦ rw (normalize_custom s custom) (normalize_custom s custom)
  | inr (p, numeric) ↦
      let w = padded-IsPhase p (parse_phase-IsPhase (strip_code_before_digit s) p numeric) in
      rw (normalize_of s p numeric, normalize-print_phase (padded p) w, padded_twice p)
]

no_code : (s : Str) → code_rest 6 false s ≡ none → strip_code_before_digit s ≡ strip_code s
unfolding strip_code strip_code_before_digit
no_code s h = ground arith

code_before_digit :
    (s r : Str)
    → code_rest 6 false s ≡ some r
    → non_empty (digits_of r) ≡ true
    → strip_code_before_digit s ≡ strip_code s
unfolding strip_code strip_code_before_digit
code_before_digit s r h d = ground arith

code_stripped : (s r : Str) → code_rest 6 false s ≡ some r → strip_code s ≡ r
unfolding strip_code
code_stripped s r h = ground arith

-- Where the text after the code is a phase number, both replacements strip it.
strip_same :
    (s : Str) (p : Phase)
    → parse_phase (strip_code s) ≡ some p
    → parse_phase (strip_code_before_digit s) ≡ some p
strip_same s p h = elim (Option-cases (code_rest 6 false s)) [
  | inl plain ↦ rw (no_code s plain) h
  | inr (r, coded) ↦
      let q = rw (code_stripped s r coded) at h in
      rw (code_before_digit s r coded (parse_some r p q).0) h
]

value-pad_start : (d : Str) → is_number d ≡ true → value (pad_start d) ≡ value d
unfolding pad_start value_from
value-pad_start [] h = absurd (ground arith)
value-pad_start (c ∷ []) h = refl
value-pad_start (c ∷ d ∷ s) h = refl

parse-normalize :
    (s : Str) (p : Phase)
    → parse_phase (strip_code s) ≡ some p
    → parse_phase (strip_code (normalize_phase_name s)) ≡ some (padded p)
parse-normalize s p h =
    let w = padded-IsPhase p (parse_phase-IsPhase (strip_code s) p h) in
    rw (normalize_of s p (strip_same s p h), (strip-print_phase (padded p) w).0)
      (parse_phase-print_phase (padded p) w)

pub compare_of :
    (locale_compare : Str → Str → Sign) (a b : Str) (p q : Phase)
    → parse_phase (strip_code a) ≡ some p
    → parse_phase (strip_code b) ≡ some q
    → compare_phase_num locale_compare a b ≡ compare_phases p q
unfolding compare_phase_num
compare_of locale_compare a b p q h k = ground arith

compare-padded :
    (p q : Phase)
    → IsPhase p
    → IsPhase q
    → compare_phases (padded p) (padded q) ≡ compare_phases p q
unfolding compare_phases
compare-padded p q v w =
    rw (value-pad_start p.digits v.digits_ok, value-pad_start q.digits w.digits_ok)

-- Two names that are phase numbers, perhaps behind a project code, compare as their normal forms do.
pub compare_phase_num-normalize_phase_name :
    (locale_compare : Str → Str → Sign) (a b : Str) (p q : Phase)
    → parse_phase (strip_code a) ≡ some p
    → parse_phase (strip_code b) ≡ some q
    → compare_phase_num locale_compare (normalize_phase_name a) (normalize_phase_name b)
      ≡ compare_phase_num locale_compare a b
compare_phase_num-normalize_phase_name locale_compare a b p q h k =
    let v = parse_phase-IsPhase (strip_code a) p h in
    let w = parse_phase-IsPhase (strip_code b) q k in
    rw
      (
        compare_of locale_compare (normalize_phase_name a) (normalize_phase_name b) (padded p)
            (padded q) (parse-normalize a p h) (parse-normalize b q k),
        compare_of locale_compare a b p q h k,
      )
      (compare-padded p q v w)
