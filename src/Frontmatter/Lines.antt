-- ===== src/Frontmatter/Lines.antt =====
-- What the parser reads of a text and of a line.
use sagasmith.Common.{
  ℕ, zero, suc, ◌==◌, ◌||◌, ◌&&◌, Bool, Option, none, some, List, [], ◌∷◌, ◌++◌, Str, str,
  starts_with, is_digit, non_empty, leb, if◌then◌else◌,
}
use sagasmith.Common.Regex.{is_space}
use sagasmith.Common.Spaces.{trim_start, trim}

-- split(/\r?\n/): the first line and the others.
unfoldable pub lines : Str → Str × List Str
unfolding starts_with
lines [] = ([], [])
lines (c ∷ s) =
    let (h, t) = lines s in
    if c == b'\n'
    then ([], h ∷ t)
    else if (c == b'\r') && starts_with s (b'\n' ∷ [])
    then (h, t)
    else (c ∷ h, t)

-- The length of /^(\s*)/.
unfoldable pub indent : Str → ℕ
indent [] = 0
indent (c ∷ s) = let rest = indent s in if is_space c then suc rest else 0

-- [a-zA-Z0-9_-]
abbrev pub is_key_char : ℕ → Bool
is_key_char c =
    (leb b'A' c && leb c b'Z')
    || ((leb b'a' c && leb c b'z') || (is_digit c || ((c == b'_') || (c == b'-'))))

-- What `.` does not match.
abbrev pub is_terminator : ℕ → Bool
is_terminator c = (c == b'\n') || ((c == b'\r') || ((c == 0x2028) || (c == 0x2029)))

unfoldable pub up_to_terminator : Str → Str
up_to_terminator [] = []
up_to_terminator (c ∷ s) = let rest = up_to_terminator s in if is_terminator c then [] else c ∷ rest

-- The longest run of key characters, and what follows it.
unfoldable pub key_run : Str → Str × Str
key_run [] = ([], [])
key_run (c ∷ s) = let (k, rest) = key_run s in if is_key_char c then (c ∷ k, rest) else ([], c ∷ s)

abbrev keyed : Str → Str → Option (Str × Str)
keyed (c ∷ k) (d ∷ r) =
    if d == b':' then some (c ∷ k, trim (up_to_terminator (trim_start r))) else none
keyed _ _ = none

-- /^(\s*)([a-zA-Z0-9_-]+):\s*(.*)/: the key and the trimmed value.
unfoldable pub key_value : Str → Option (Str × Str)
unfolding key_run trim_start up_to_terminator trim
key_value line = let (k, rest) = key_run (trim_start line) in keyed k rest

abbrev pub is_quote : ℕ → Bool
is_quote c = (c == b'"') || (c == b'\'')

unfoldable pub drop_last_quote : Str → Str
drop_last_quote [] = []
drop_last_quote (c ∷ []) = if is_quote c then [] else c ∷ []
drop_last_quote (c ∷ d ∷ s) = c ∷ drop_last_quote (d ∷ s)

-- replace(/^["']|["']$/g, '')
unfoldable pub unquote : Str → Str
unfolding drop_last_quote
unquote [] = []
unquote (c ∷ s) = if is_quote c then drop_last_quote s else drop_last_quote (c ∷ s)

abbrev pub add_item : Str → List Str → List Str
add_item current items = if non_empty (trim current) then trim current ∷ items else items

-- splitInlineArray, from a quote that is open or none and the text of the current item.
unfoldable pub split_from : Option ℕ → Str → Str → List Str
unfolding trim
split_from quote current [] = add_item current []
split_from (some q) current (c ∷ s) =
    let closed = split_from none current s in
    let inside = split_from (some q) (current ++ c ∷ []) s in if c == q then closed else inside
split_from none current (c ∷ s) =
    let opened = split_from (some c) current s in
    let next = split_from none [] s in
    let more = split_from none (current ++ c ∷ []) s in
    if is_quote c then opened else if c == b',' then add_item current next else more

unfoldable pub split_inline_array : Str → List Str
unfolding split_from
split_inline_array body = split_from none [] body

abbrev pub drop : ℕ → Str → Str
drop zero s = s
drop (suc n) [] = []
drop (suc n) (c ∷ s) = drop n s

abbrev pub after_line_end : Str → Option Str
after_line_end [] = none
after_line_end (c ∷ []) = if c == b'\n' then some [] else none
after_line_end (c ∷ d ∷ s) =
    if c == b'\n' then some (d ∷ s) else if (c == b'\r') && (d == b'\n') then some s else none

-- The text after ---\r?\n at the start.
unfoldable pub opened : Str → Option Str
unfolding starts_with
opened s = if starts_with s (str "---") then after_line_end (drop 3 s) else none

abbrev pub before : ℕ → Option (Str × Str) → Option (Str × Str)
before c none = none
before c (some (y, rest)) = some (c ∷ y, rest)

-- Up to the first \r?\n---, and what follows that.
unfoldable pub closing : Str → Option (Str × Str)
unfolding starts_with
closing [] = none
closing (c ∷ s) =
    let rest = before c (closing s) in
    if starts_with (c ∷ s) (b'\n' ∷ str "---")
    then some ([], drop 3 s)
    else if starts_with (c ∷ s) (b'\r' ∷ b'\n' ∷ str "---")
    then some ([], drop 4 s)
    else rest

abbrev pub within : Option Str → Option (Str × Str)
within none = none
within (some []) = none
within (some (c ∷ s)) = before c (closing s)

-- /^---\r?\n([\s\S]+?)\r?\n---/: the block, and the text behind the match.
unfoldable pub front_match : Str → Option (Str × Str)
unfolding opened closing
front_match content = within (opened content)
