-- ===== src/Phases/Parse.antt =====
-- Parsing and printing of phase numbers.
use sagasmith.Common.{
  non_empty, ℕ, ◌≡◌, refl, ap, Bool, true, ◌&&◌, Option, none, some, List, [], ◌∷◌, ◌++◌, arith,
  all, Str, is_digit, Bool-cases, some_inj, inl, inr, and-eq-true,
}
use mathlib.Core.List.{append-nil}
use sagasmith.Phases.{
  Phase, is_letter, digits_of, after_digits, run, parts_of, letter_and_parts, parse_phase,
  print_parts, letter_text, print_phase,
}

abbrev pub is_number : Str → Bool
is_number s = non_empty s && all is_digit s

abbrev pub IsLetter : Option ℕ → Type 0
IsLetter none = Unit
IsLetter (some c) = is_letter c ≡ true

-- What the pattern can match: at least one digit, a letter or none, numbers between the dots.
pub record IsPhase (p : Phase) : Type 0 where
  pub digits_ok : is_number p.digits ≡ true
  pub letter_ok : IsLetter p.letter
  pub parts_ok : all is_number p.parts ≡ true

digits_of-append : (d t : Str) → all is_digit d ≡ true → digits_of (d ++ t) ≡ d ++ digits_of t
unfolding digits_of
digits_of-append [] t h = refl
digits_of-append (c ∷ d) t h = ground (arith, digits_of-append d t)

after_digits-append : (d t : Str) → all is_digit d ≡ true → after_digits (d ++ t) ≡ after_digits t
unfolding after_digits
after_digits-append [] t h = refl
after_digits-append (c ∷ d) t h = ground (arith, after_digits-append d t)

run-append : (d t : Str) → all is_digit d ≡ true → run (d ++ t) ≡ (d ++ (run t).0, (run t).1)
unfolding run
run-append [] t h = refl
run-append (c ∷ d) t h =
    let (q, r) = and-eq-true (is_digit c) (all is_digit d) h in rw (run-append d t r, q) refl

run-print_parts : (ps : List Str) → all is_number ps ≡ true → run (print_parts ps) ≡ ([], ps)
unfolding run print_parts
run-print_parts [] h = refl
run-print_parts (p ∷ ps) h =
    let (n, r) = and-eq-true (is_number p) (all is_number ps) h in
    let (ne, d) = and-eq-true (non_empty p) (all is_digit p) n in
    rw (run-append p (print_parts ps) d, run-print_parts ps r, append-nil, ne)

parts_of-print_parts : (ps : List Str) → all is_number ps ≡ true → parts_of (print_parts ps) ≡ ps
unfolding parts_of
parts_of-print_parts ps h = rw (run-print_parts ps h)

-- What stands behind the digits does not start with one.
tail_digits :
    (l : Option ℕ) (ps : List Str) → IsLetter l → digits_of (letter_text l ++ print_parts ps) ≡ []
unfolding digits_of print_parts
tail_digits none [] h = refl
tail_digits none (p ∷ ps) h = refl
tail_digits (some c) ps h = ground arith

after_tail : (s : Str) → digits_of s ≡ [] → after_digits s ≡ s
unfolding digits_of after_digits
after_tail [] h = refl
after_tail (c ∷ s) h = ground arith

letter_and_parts-tail :
    (d : Str) (l : Option ℕ) (ps : List Str)
    → IsLetter l
    → all is_number ps ≡ true
    → letter_and_parts d (letter_text l ++ print_parts ps)
      ≡ record { digits = d; letter = l; parts = ps }
unfolding letter_and_parts print_parts
letter_and_parts-tail d (some c) ps l h = rw (l, parts_of-print_parts ps h)
letter_and_parts-tail d none [] l h = refl
letter_and_parts-tail d none (p ∷ ps) l h =
    ap (λ (qs : List Str). record { digits = d; letter = none; parts = qs })
      (parts_of-print_parts (p ∷ ps) h)

non_empty-append : (s t : Str) → non_empty s ≡ true → non_empty (s ++ t) ≡ true
non_empty-append [] t h = absurd (ground arith)
non_empty-append (c ∷ s) t h = refl

-- A phase that the pattern can match is parsed back from its text.
pub parse_phase-print_phase : (p : Phase) → IsPhase p → parse_phase (print_phase p) ≡ some p
unfolding parse_phase print_phase
parse_phase-print_phase p w =
    let tail = letter_text p.letter ++ print_parts p.parts in
    let (ne, d) = and-eq-true (non_empty p.digits) (all is_digit p.digits) w.digits_ok in
    let stop = tail_digits p.letter p.parts w.letter_ok in
    rw (
      digits_of-append p.digits tail d,
      after_digits-append p.digits tail d,
      after_tail tail stop,
      stop,
      non_empty-append p.digits [] ne,
      append-nil,
      letter_and_parts-tail p.digits p.letter p.parts w.letter_ok w.parts_ok,
    )

run_ok : (s : Str) → (all is_digit (run s).0 && all is_number (run s).1) ≡ true
unfolding run
run_ok [] = refl
run_ok (c ∷ s) = ground (arith, run_ok s)

parts_of_ok : (s : Str) → all is_number (parts_of s) ≡ true
unfolding parts_of
parts_of_ok s = ground (arith, run_ok s)

digits_of_ok : (s : Str) → all is_digit (digits_of s) ≡ true
unfolding digits_of
digits_of_ok [] = refl
digits_of_ok (c ∷ s) = ground (arith, digits_of_ok s)

letter_and_parts_ok : (d s : Str) → is_number d ≡ true → IsPhase (letter_and_parts d s)
unfolding letter_and_parts
letter_and_parts_ok d [] h = record { digits_ok = h; letter_ok = tt; parts_ok = refl }
letter_and_parts_ok d (c ∷ s) h = elim (Bool-cases (is_letter c)) [
  | inl t ↦ rw t (record { digits_ok = h; letter_ok = t; parts_ok = parts_of_ok s })
  | inr f ↦ rw f (record { digits_ok = h; letter_ok = tt; parts_ok = parts_of_ok (c ∷ s) })
]

pub parse_some :
    (s : Str) (p : Phase)
    → parse_phase s ≡ some p
    → (non_empty (digits_of s) ≡ true) × (letter_and_parts (digits_of s) (after_digits s) ≡ p)
unfolding parse_phase
parse_some s p h = elim (Bool-cases (non_empty (digits_of s))) [
  | inl t ↦ (t, some_inj (rw t at h))
  | inr f ↦ let q = rw f at h in absurd (ground arith)
]

pub parse_phase-IsPhase : (s : Str) (p : Phase) → parse_phase s ≡ some p → IsPhase p
parse_phase-IsPhase s p h =
    let (ne, e) = parse_some s p h in
    rw (← e) (letter_and_parts_ok (digits_of s) (after_digits s) (ground (arith, digits_of_ok s)))
