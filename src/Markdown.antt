-- ===== src/Markdown.antt =====
-- normalizeMd of .kilo/get-shit-done/bin/lib/core.cjs, through which every markdown file is written.
pub mod Content
pub mod Ends
use sagasmith.Common.{
  ℕ, suc, ◌==◌, leb, ◌||◌, ◌&&◌, Bool, true, false, not, Option, none, some, List, [], ◌∷◌, ◌++◌,
  Str, str, starts_with, str_eq, is_digit, non_empty, join, split_at, if◌then◌else◌,
}
use sagasmith.Common.Regex.{is_space}
use sagasmith.Common.Spaces.{trim_start, trim_end}

abbrev pub newline : ℕ
newline = b'\n'

-- replace(/\r\n/g, '\n')
unfoldable pub unix : Str → Str
unfolding starts_with
unix [] = []
unix (c ∷ s) =
    let rest = unix s in if (c == b'\r') && starts_with s (newline ∷ []) then rest else c ∷ rest

abbrev pub whole : Str × List Str → List Str
whole (h, t) = h ∷ t

-- split('\n')
unfoldable pub lines_of : Str → List Str
unfolding split_at
lines_of s = whole (split_at (λ c. c == newline) s)

-- /^```/ on the trimmed line.
unfoldable pub is_fence : Str → Bool
unfolding trim_end starts_with
is_fence line = starts_with (trim_end line) (str "```")

-- /^```\s*$/ on the trimmed line.
unfoldable pub is_bare_fence : Str → Bool
unfolding trim_end str_eq
is_bare_fence line = str_eq (trim_end line) (str "```")

-- insideFence, from whether a fence is open.
unfoldable pub inside_fence : Bool → List Str → List Bool
unfolding is_fence
inside_fence open_now [] = []
inside_fence open_now (l ∷ ls) =
    let here = is_fence l in
    (not here && open_now) ∷ inside_fence (if here then not open_now else open_now) ls

unfoldable pub hashes : Str → ℕ × Str
hashes [] = (0, [])
hashes (c ∷ s) = let (n, rest) = hashes s in if c == b'#' then (suc n, rest) else (0, c ∷ s)

abbrev pub starts_with_space : Str → Bool
starts_with_space [] = false
starts_with_space (c ∷ s) = is_space c

-- /^#{1,6}\s/ on the trimmed line.
unfoldable pub is_heading : Str → Bool
unfolding hashes trim_end
is_heading line =
    let (n, rest) = hashes (trim_end line) in leb 1 n && leb n 6 && starts_with_space rest

unfoldable pub digits : Str → ℕ × Str
digits [] = (0, [])
digits (c ∷ s) = let (n, rest) = digits s in if is_digit c then (suc n, rest) else (0, c ∷ s)

abbrev pub after_dot : Str → Bool
after_dot [] = false
after_dot (c ∷ s) = (c == b'.') && starts_with_space s

abbrev pub after_dash : Str → Bool
after_dash [] = false
after_dash (c ∷ s) = ((c == b'-') || ((c == b'*') || (c == b'+'))) && starts_with_space s

-- /^(\s*[-*+]\s|\s*\d+\.\s)/
unfoldable pub is_list_item : Str → Bool
unfolding trim_start digits
is_list_item line =
    let (n, rest) = digits (trim_start line) in
    after_dash (trim_start line) || (leb 1 n && after_dot rest)

abbrev pub blank_if : Bool → List Str
blank_if b = if b then [] ∷ [] else []

unfoldable pub is_shown : Str → Bool
unfolding trim_end
is_shown line = non_empty (trim_end line)

unfoldable pub is_rule : Str → Bool
unfolding trim_end str_eq
is_rule line = str_eq (trim_end line) (str "---")

-- The blank lines in front of a line, from the line before it with its fence state, and its own.
unfoldable pub blanks_before : Option (Str × Bool) → Str → Bool → List Str
unfolding is_heading is_fence is_list_item is_shown is_rule
blanks_before none line inside = []
blanks_before (some (prev, prev_inside)) line inside =
    blank_if (is_heading line && is_shown prev && not (is_rule prev))
    ++ (blank_if (is_fence line && is_shown prev && not inside && not prev_inside)
        ++ blank_if
            (is_list_item line && is_shown prev && not (is_list_item prev) && not (is_rule prev)))

abbrev was_inside : Option (Str × Bool) → Bool
was_inside none = false
was_inside (some (prev, prev_inside)) = prev_inside

-- The blank lines behind a line, from the next one.
unfoldable pub blanks_after : Option (Str × Bool) → Str → List Str → List Str
unfolding is_heading is_bare_fence is_list_item is_shown
blanks_after prev line [] = []
blanks_after prev line (next ∷ ls) =
    blank_if (is_heading line && is_shown next)
    ++ (blank_if (is_bare_fence line && was_inside prev && is_shown next)
        ++ blank_if (
            is_list_item line
            && is_shown next
            && not (is_list_item next)
            && not (starts_with_space next)))

-- result
unfoldable pub spaced : Option (Str × Bool) → List Str → List Bool → List Str
unfolding blanks_before blanks_after
spaced prev [] flags = []
spaced prev (l ∷ ls) [] = l ∷ ls
spaced prev (l ∷ ls) (inside ∷ flags) =
    blanks_before prev l inside
    ++ (l ∷ (blanks_after prev l ls ++ spaced (some (l, inside)) ls flags))

-- replace(/\n{3,}/g, '\n\n'), after n newlines.
unfoldable pub collapse : ℕ → Str → Str
collapse n [] = []
collapse n (c ∷ s) =
    let more = collapse (suc n) s in
    let full = collapse n s in
    let other = collapse 0 s in
    if c == newline then (if leb 2 n then full else c ∷ more) else c ∷ other

-- replace(/\n*$/, '\n')
unfoldable pub strip_newlines : Str → Str
strip_newlines [] = []
strip_newlines (c ∷ s) =
    let rest = strip_newlines s in if (c == newline) && not (non_empty rest) then [] else c ∷ rest

abbrev pub normalized_lines : List Str → Str
normalized_lines ls =
    strip_newlines (collapse 0 (join (newline ∷ []) (spaced none ls (inside_fence false ls))))
    ++ newline ∷ []

unfoldable pub normalize_md : Str → Str
unfolding unix lines_of inside_fence spaced collapse strip_newlines join
normalize_md [] = []
normalize_md (c ∷ s) = normalized_lines (lines_of (unix (c ∷ s)))
