-- ===== src/StateFields.antt =====
-- .kilo/get-shit-done/bin/lib/state.cjs: reading and replacing a field of STATE.md. The parameter fold
-- is the case folding of a character under the flag i.
pub mod RoundTrip
mod Tests
use sagasmith.Common.{
  ℕ, ◌==◌, ◌||◌, ◌&&◌, Bool, true, false, not, Option, none, some, List, [], ◌∷◌, ◌++◌, Str, str,
  any, non_empty, if◌then◌else◌,
}
use sagasmith.Common.Regex.{is_space}
use sagasmith.Common.Spaces.{trim_start, trim}
use sagasmith.Frontmatter.Lines.{is_terminator, up_to_terminator}

abbrev pub Split : Type 0
Split = Option (Str × Str)

abbrev pub onto : ℕ → Split → Split
onto c none = none
onto c (some (m, r)) = some (c ∷ m, r)

-- The literal at the start of the text, as it is written there, and the rest.
unfoldable pub literal : (ℕ → ℕ) → Str → Str → Split
literal fold s [] = some ([], s)
literal fold [] (d ∷ t) = none
literal fold (c ∷ s) (d ∷ t) =
    let rest = onto c (literal fold s t) in if fold c == fold d then rest else none

-- \s*
unfoldable pub spaces : Str → Str
spaces [] = []
spaces (c ∷ s) = let rest = spaces s in if is_space c then c ∷ rest else []

-- What .* leaves.
unfoldable pub from_terminator : Str → Str
from_terminator [] = []
from_terminator (c ∷ s) = let rest = from_terminator s in if is_terminator c then c ∷ s else rest

-- \s*(.+) and trim; behind white space only, (.+) takes some of it.
unfoldable pub value_at : Str → Option Str
unfolding trim_start trim up_to_terminator
value_at r =
    if non_empty (trim_start r)
    then some (trim (up_to_terminator (trim_start r)))
    else if any (λ c. not (is_terminator c)) r
    then some []
    else none

-- Whether the pattern may match here: ^ with the flag m, or no anchor.
abbrev pub allowed : Bool → Bool → Bool
allowed anchored at_start = not anchored || at_start

abbrev pub value_or : Option Str → Option Str → Option Str
value_or none o = o
value_or (some v) o = some v

abbrev pub value_of_split : Split → Option Str
value_of_split none = none
value_of_split (some (m, r)) = value_at r

-- match: the first place where the literal is followed by a value.
unfoldable pub first_value : (ℕ → ℕ) → Bool → Str → Bool → Str → Option Str
unfolding literal value_at
first_value fold anchored name at_start [] = none
first_value fold anchored name at_start (c ∷ s) =
    let later = first_value fold anchored name (is_terminator c) s in
    if allowed anchored at_start
    then value_or (value_of_split (literal fold (c ∷ s) name)) later
    else later

abbrev pub extended : ℕ → Option Str → Option Str
extended c none = none
extended c (some s) = some (c ∷ s)

-- ${prefix}${newValue}
abbrev pub with_value : Str → Split → Option Str → Option Str
with_value v none later = later
with_value v (some (m, r)) later = some (m ++ (spaces r ++ (v ++ from_terminator (trim_start r))))

-- test and replace: the first place where the literal stands.
unfoldable pub replace_value : (ℕ → ℕ) → Bool → Str → Str → Bool → Str → Option Str
unfolding literal spaces from_terminator trim_start
replace_value fold anchored name v at_start [] = none
replace_value fold anchored name v at_start (c ∷ s) =
    let later = extended c (replace_value fold anchored name v (is_terminator c) s) in
    if allowed anchored at_start then with_value v (literal fold (c ∷ s) name) later else later

abbrev pub bold : Str → Str
bold field = str "**" ++ (field ++ str ":**")

abbrev pub plain : Str → Str
plain field = field ++ str ":"

unfoldable pub state_extract_field : (ℕ → ℕ) → Str → Str → Option Str
unfolding first_value
state_extract_field fold content field =
    value_or (first_value fold false (bold field) true content)
      (first_value fold true (plain field) true content)

unfoldable pub state_replace_field : (ℕ → ℕ) → Str → Str → Str → Option Str
unfolding replace_value
state_replace_field fold content field v =
    value_or (replace_value fold false (bold field) v true content)
      (replace_value fold true (plain field) v true content)

-- The fallback name, and the file as it was where neither is there; true with a warning.
abbrev or_unchanged : Str → Option Str → Str × Bool
or_unchanged content none = (content, true)
or_unchanged content (some []) = (content, true)
or_unchanged content (some (c ∷ s)) = (c ∷ s, false)

abbrev fallback_field : (ℕ → ℕ) → Str → Option Str → Str → Option Str
fallback_field fold content none v = none
fallback_field fold content (some []) v = none
fallback_field fold content (some (c ∷ f)) v = state_replace_field fold content (c ∷ f) v

abbrev truthy : Option Str → Option Str
truthy (some []) = none
truthy o = o

unfoldable pub state_replace_field_with_fallback :
    (ℕ → ℕ) → Str → Str → Option Str → Str → Str × Bool
unfolding state_replace_field
state_replace_field_with_fallback fold content primary fallback v = or_unchanged content (
    value_or (truthy (state_replace_field fold content primary v))
      (fallback_field fold content fallback v))
