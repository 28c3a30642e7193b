-- ===== src/Frontmatter/Printer.antt =====
-- reconstructFrontmatter and spliceFrontmatter. The code writes its three depths out one by one; here
-- the depth is an argument.
use sagasmith.Common.{
  ltb, leb, length, ◌&&◌, ◌||◌, Bool, true, false, Option, none, some, List, [], ◌∷◌, ◌++◌, map,
  Str, str, includes, starts_with, join, all, if◌then◌else◌,
}
use sagasmith.Frontmatter.{
  Item, word, other, Value, absent, text, scalar, list, group, Entries, end, entry,
}
use sagasmith.Frontmatter.Lines.{front_match}

-- The three depths of an object, each two spaces further in.
pub data Depth : Type 0 where
  outer middle deep : Depth

abbrev pub pad : Depth → Str
pad outer = []
pad middle = str "  "
pad deep = str "    "

abbrev pub next : Depth → Depth
next outer = middle
next middle = deep
next deep = deep

abbrev pub has_special : Str → Bool
has_special s = includes s (str ":") || includes s (str "#")

-- Where a string or a number is put in quotes.
abbrev pub is_quoted : Depth → Str → Bool
is_quoted outer s = has_special s || (starts_with s (str "[") || starts_with s (str "{"))
is_quoted middle s = has_special s
is_quoted deep s = false

abbrev pub quoted_if : Bool → Str → Str
quoted_if b s = if b then b'"' ∷ (s ++ (b'"' ∷ [])) else s

abbrev pub is_word : Item → Bool
is_word (word s) = true
is_word (other s) = false

abbrev pub item_text : Item → Str
item_text (word s) = s
item_text (other s) = s

-- `key: [a, b]` where all are strings, at most three, and short.
abbrev pub is_inline : Depth → List Item → Bool
is_inline deep xs = false
is_inline _ xs =
    all is_word xs && (leb (length xs) 3 && ltb (length (join (str ", ") (map item_text xs))) 60)

abbrev pub item_shown : Depth → Item → Str
item_shown deep x = item_text x
item_shown _ (word s) = quoted_if (has_special s) s
item_shown _ (other s) = s

abbrev pub head_line : Depth → Str → Str → Str
head_line d k rest = pad d ++ (k ++ (b':' ∷ rest))

abbrev pub item_row : Depth → Item → Str
item_row d x = pad d ++ (str "  - " ++ item_shown d x)

abbrev pub list_lines : Depth → Str → List Item → List Str
list_lines d k [] = head_line d k (str " []") ∷ []
list_lines d k (x ∷ xs) =
    if is_inline d (x ∷ xs)
    then head_line d k (str " [" ++ (join (str ", ") (map item_text (x ∷ xs)) ++ str "]")) ∷ []
    else head_line d k [] ∷ map (item_row d) (x ∷ xs)

unfoldable mutual
  unfolding includes starts_with join

  pub print_value : Depth → Str → Value → List Str
  print_value d k absent = []
  print_value d k (text s) = head_line d k (b' ' ∷ quoted_if (is_quoted d s) s) ∷ []
  print_value d k (scalar s) = head_line d k (b' ' ∷ quoted_if (is_quoted d s) s) ∷ []
  print_value d k (list xs) = list_lines d k xs
  print_value outer k (group es) = head_line outer k [] ∷ print_entries middle es
  print_value middle k (group es) = head_line middle k [] ∷ print_entries deep es
  print_value deep k (group es) = head_line deep k (str " [object Object]") ∷ []

  pub print_entries : Depth → Entries → List Str
  print_entries d end = []
  print_entries d (entry k v es) = print_value d k v ++ print_entries d es

unfoldable pub reconstruct_frontmatter : Entries → Str
unfolding print_entries join
reconstruct_frontmatter es = join (b'\n' ∷ []) (print_entries outer es)

abbrev pub framed : Str → Str
framed yaml = str "---" ++ (b'\n' ∷ (yaml ++ (b'\n' ∷ str "---")))

abbrev pub spliced : Str → Str → Option (Str × Str) → Str
spliced content yaml none = framed yaml ++ (b'\n' ∷ b'\n' ∷ content)
spliced content yaml (some (old, rest)) = framed yaml ++ rest

unfoldable pub splice_frontmatter : Str → Entries → Str
unfolding reconstruct_frontmatter front_match
splice_frontmatter content es = spliced content (reconstruct_frontmatter es) (front_match content)
