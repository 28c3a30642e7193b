-- ===== src/Security/Arguments.antt =====
-- `validateShellArg`, `safeJsonParse`, `validatePhaseNumber` and `validateFieldName` of security.cjs.
pub mod Accepted
use sagasmith.Common.{
  ℕ, ◌+◌, ◌≤◌, ◌≡◌, ◌↔◌, ◌≢◌, refl, Bool, true, false, ◌&&◌, ◌||◌, not, Option, none, some, List,
  [], ◌∷◌, ◌++◌, any, length, ltb, leb, ◌==◌, arith, Str, str, includes, non_empty, if◌then◌else◌,
  is_digit,
}
use sagasmith.Common.Digits.{decimal}
use sagasmith.Common.Result.{Result, ok, thrown}
use sagasmith.Common.Regex.{Regex, chr, seq, star, plus, char, opt, up_to, full}
use sagasmith.Common.Spaces.{trim}
use sagasmith.Phases.{is_letter}
use sagasmith.Security.Paths.{or_text, has_null}

-- /[$`]/.test(value) && /\$\(|`/.test(value)
unfoldable pub substitutes : Str → Bool
unfolding includes
substitutes s =
    any (λ c. (c == b'$') || (c == b'`')) s && (includes s (str "$(") || any (λ c. c == b'`') s)

unfoldable pub validate_shell_arg : Str → Str → Result Str
unfolding substitutes
validate_shell_arg value label =
    let name = or_text label (str "Argument") in
    if not (non_empty value)
    then thrown (name ++ str ": empty or invalid value")
    else if has_null value
    then thrown (name ++ str ": contains null bytes")
    else if substitutes value
    then thrown (name ++ str ": contains potential command substitution")
    else ok value

-- `parse` is JSON.parse: a value or the message of its error.
module _ {V : Type 0} (parse : Str → Result V) where
  abbrev parse_result : Str → Result V → Result V
  parse_result label (ok v) = ok v
  parse_result label (thrown m) = thrown (label ++ (str ": parse error — " ++ m))

  abbrev default_length : ℕ → ℕ
  default_length n = if n == 0 then 1048576 else n

  -- A result that is not ok is its error.
  unfoldable pub safe_json_parse : Str → ℕ → Str → Result V
  safe_json_parse text max_length label =
      let name = or_text label (str "JSON") in
      let limit = default_length max_length in
      if not (non_empty text)
      then thrown (name ++ str ": empty or invalid input")
      else if ltb limit (length text)
      then thrown (
          name
          ++ (str ": input exceeds "
              ++ (decimal limit
                  ++ (str " byte limit (got " ++ (decimal (length text) ++ str ")")))))
      else parse_result name (parse text)

-- /^\d{1,4}[A-Z]?(?:\.\d{1,3})*$/i
unfoldable pub numeric_phase : Regex
numeric_phase = seq (chr is_digit) (
    seq (up_to 3 (chr is_digit)) (
      seq (opt (chr is_letter))
        (star (seq (char b'.') (seq (chr is_digit) (up_to 2 (chr is_digit)))))))

abbrev pub is_alnum : ℕ → Bool
is_alnum c = is_letter c || is_digit c

-- /^[A-Z][A-Z0-9]*(?:-[A-Z0-9]+){1,4}$/i
unfoldable pub custom_phase : Regex
custom_phase =
    let part = seq (char b'-') (plus (chr is_alnum)) in
    seq (chr is_letter) (seq (star (chr is_alnum)) (seq part (up_to 3 part)))

-- A result that is not valid is its error; one that is valid holds what is normalized.
unfoldable pub validate_phase_number : Str → Result Str
validate_phase_number phase =
    let trimmed = trim phase in
    if not (non_empty phase)
    then thrown (str "Phase number is required")
    else if full numeric_phase trimmed
    then ok trimmed
    else if full custom_phase trimmed && leb (length trimmed) 30
    then ok trimmed
    else thrown (str "Invalid phase number format: \"" ++ (trimmed ++ str "\""))

abbrev pub is_field_char : ℕ → Bool
is_field_char c =
    is_alnum c || (c == 32) || (c == b'_') || (c == b'.') || (c == b'-') || (c == b'/')

-- /^[A-Za-z][A-Za-z0-9 _.\-/]{0,60}$/
unfoldable pub field_name : Regex
field_name = seq (chr is_letter) (up_to 60 (chr is_field_char))

unfoldable pub validate_field_name : Str → Result (Unit {0})
validate_field_name field =
    if not (non_empty field)
    then thrown (str "Field name is required")
    else if full field_name field
    then ok tt
    else thrown (str "Invalid field name: \"" ++ (field ++ str "\""))
