-- ===== src/Phases.antt =====
-- .kilo/get-shit-done/bin/lib/core.cjs: normalizePhaseName and comparePhaseNum, the numbers of
-- phases such as `12A.1`, with a project code before them or not (`CK-12A.1`).
pub mod Parse
pub mod Normal
pub mod Order
mod Tests
use sagasmith.Common.{
  non_empty, ℕ, zero, suc, ◌+◌, ◌*◌, ◌-◌, Bool, true, false, ◌&&◌, ◌||◌, Option, none, some, List,
  [], ◌∷◌, ◌++◌, map, ltb, leb, ◌==◌, Str, is_digit, if◌then◌else◌,
}

-- The groups of /^(\d+)([A-Z])?((?:\.\d+)*)/i, the last as the numbers between its dots.
pub record Phase : Type 0 where
  pub digits : Str
  pub letter : Option ℕ
  pub parts : List Str

abbrev pub is_upper : ℕ → Bool
is_upper c = leb b'A' c && leb c b'Z'

abbrev pub is_letter : ℕ → Bool
is_letter c = is_upper c || (leb b'a' c && leb c b'z')

unfoldable pub digits_of : Str → Str
digits_of [] = []
digits_of (c ∷ s) = let rest = digits_of s in if is_digit c then c ∷ rest else []

unfoldable pub after_digits : Str → Str
after_digits [] = []
after_digits (c ∷ s) = let rest = after_digits s in if is_digit c then rest else c ∷ s

-- The digits that a string starts with, and the numbers of the `.\d+` groups behind them.
unfoldable pub run : Str → Str × List Str
run [] = ([], [])
run (c ∷ s) =
    let (d, ps) = run s in
    if is_digit c
    then (c ∷ d, ps)
    else if (c == b'.') && non_empty d
    then ([], d ∷ ps)
    else ([], [])

-- (?:\.\d+)*
unfoldable pub parts_of : Str → List Str
unfolding run
parts_of s = if non_empty (run s).0 then [] else (run s).1

unfoldable pub letter_and_parts : Str → Str → Phase
unfolding parts_of
letter_and_parts d [] = record { digits = d; letter = none; parts = [] }
letter_and_parts d (c ∷ s) =
    if is_letter c
    then record { digits = d; letter = some c; parts = parts_of s }
    else record { digits = d; letter = none; parts = parts_of (c ∷ s) }

unfoldable pub parse_phase : Str → Option Phase
unfolding digits_of after_digits letter_and_parts
parse_phase s =
    if non_empty (digits_of s) then some (letter_and_parts (digits_of s) (after_digits s)) else none

-- What follows /^[A-Z]{1,6}-/, with the number of letters that may still come, and whether one came.
unfoldable pub code_rest : ℕ → Bool → Str → Option Str
code_rest n seen [] = none
code_rest n seen (c ∷ s) =
    let rest = code_rest (n - 1) true s in
    if seen && (c == b'-') then some s else if ltb 0 n && is_upper c then rest else none

-- The replacement in comparePhaseNum.
unfoldable pub strip_code : Str → Str
unfolding code_rest
strip_code s = elim (code_rest 6 false s) [ none ↦ s | some r ↦ r ]

-- The replacement in normalizePhaseName, which looks ahead for a digit.
unfoldable pub strip_code_before_digit : Str → Str
unfolding code_rest digits_of
strip_code_before_digit s = elim (code_rest 6 false s) [
  | none ↦ s
  | some r ↦ if non_empty (digits_of r) then r else s
]

-- padStart(2, '0') of at least one character.
unfoldable pub pad_start : Str → Str
pad_start [] = b'0' ∷ b'0' ∷ []
pad_start (c ∷ []) = b'0' ∷ c ∷ []
pad_start (c ∷ d ∷ s) = c ∷ d ∷ s

unfoldable pub print_parts : List Str → Str
print_parts [] = []
print_parts (p ∷ ps) = b'.' ∷ (p ++ print_parts ps)

abbrev pub letter_text : Option ℕ → Str
letter_text none = []
letter_text (some c) = c ∷ []

unfoldable pub print_phase : Phase → Str
unfolding print_parts
print_phase p = p.digits ++ (letter_text p.letter ++ print_parts p.parts)

unfoldable pub normalize_phase_name : Str → Str
unfolding strip_code_before_digit parse_phase pad_start print_phase
normalize_phase_name s = elim (parse_phase (strip_code_before_digit s)) [
  | none ↦ s
  | some p ↦ print_phase (record p { digits = pad_start p.digits })
]

-- The sign of a number that a comparison returns.
pub data Sign : Type 0 where
  before same after : Sign

unfoldable pub compare_nat : ℕ → ℕ → Sign
compare_nat a b = if ltb a b then before else if ltb b a then after else same

-- `if (d !== 0) return d;`, and what follows.
unfoldable pub or_next : Sign → Sign → Sign
or_next before r = before
or_next same r = r
or_next after r = after

-- parseInt of digits
unfoldable pub value_from : ℕ → Str → ℕ
value_from n [] = n
value_from n (c ∷ s) = value_from (n * 10 + (c - b'0')) s

abbrev pub value : Str → ℕ
value s = value_from 0 s

-- toUpperCase of an ASCII letter
abbrev pub upper : ℕ → ℕ
upper c = if leb b'a' c && leb c b'z' then c - 32 else c

unfoldable pub compare_letters : Option ℕ → Option ℕ → Sign
unfolding compare_nat
compare_letters none none = same
compare_letters none (some b) = before
compare_letters (some a) none = after
compare_letters (some a) (some b) = compare_nat (upper a) (upper b)

-- The loop over the decimal parts, where a missing one counts as 0.
unfoldable pub compare_padded : List ℕ → List ℕ → Sign
unfolding compare_nat or_next
compare_padded [] [] = same
compare_padded [] (b ∷ ys) = or_next (compare_nat 0 b) (compare_padded [] ys)
compare_padded (a ∷ xs) [] = or_next (compare_nat a 0) (compare_padded xs [])
compare_padded (a ∷ xs) (b ∷ ys) = or_next (compare_nat a b) (compare_padded xs ys)

unfoldable pub compare_parts : List ℕ → List ℕ → Sign
unfolding compare_padded
compare_parts [] [] = same
compare_parts [] (b ∷ ys) = before
compare_parts (a ∷ xs) [] = after
compare_parts (a ∷ xs) (b ∷ ys) = compare_padded (a ∷ xs) (b ∷ ys)

unfoldable pub compare_phases : Phase → Phase → Sign
unfolding compare_nat compare_letters compare_parts value_from or_next
compare_phases p q = or_next (compare_nat (value p.digits) (value q.digits)) (
    or_next (compare_letters p.letter q.letter)
      (compare_parts (map value p.parts) (map value q.parts)))

-- `locale_compare` is the sign of String.prototype.localeCompare.
unfoldable pub compare_phase_num : (Str → Str → Sign) → Str → Str → Sign
unfolding strip_code parse_phase compare_phases
compare_phase_num locale_compare a b = elim (parse_phase (strip_code a)) [
  | none ↦ locale_compare a b
  | some p ↦ elim (parse_phase (strip_code b)) [
    | none ↦ locale_compare a b
    | some q ↦ compare_phases p q
  ]
]
