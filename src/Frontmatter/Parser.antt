-- ===== src/Frontmatter/Parser.antt =====
-- extractFrontmatter. The code keeps a stack of references into one object; here a frame holds what its
-- object has so far, and is written into its parent when it is popped. The parent is not looked at
-- before that, since only the top frame is.
use sagasmith.Common.{
  ℕ, suc, ◌&&◌, ltb, Option, none, some, List, [], ◌∷◌, ◌++◌, map, Str, str, str_eq, starts_with,
  ends_with, non_empty, if◌then◌else◌,
}
use sagasmith.Common.Spaces.{trim}
use sagasmith.Frontmatter.{Item, word, Value, text, list, group, Entries, end, entry, put}
use sagasmith.Frontmatter.Lines.{
  lines, indent, key_value, unquote, split_inline_array, front_match, drop,
}

pub data Node : Type 0 where
  object : Entries → Node
  array : List Item → Node

-- `mark` is the indentation plus one, 0 for the root; `key` is the name in the parent.
pub record Frame : Type 0 where
  pub mark : ℕ
  pub key : Str
  pub node : Node

abbrev pub Stack : Type 0
Stack = Frame × List Frame

-- `obj[k] = v`; a name set on an array is not seen again.
abbrev pub node_put : Node → Str → Value → Node
node_put (object es) k v = object (put es k v)
node_put (array xs) k v = array xs

abbrev pub value_of : Node → Value
value_of (object es) = group es
value_of (array xs) = list xs

abbrev pub frame_put : Frame → Str → Value → Frame
frame_put f k v = record f { node = node_put f.node k v }

abbrev pub close : Frame → Frame → Frame
close child parent = frame_put parent child.key (value_of child.node)

-- The frames that are at most as deep as the indentation d.
unfoldable pub settle : ℕ → Frame → List Frame → Stack
unfolding put
settle d top [] = (top, [])
settle d top (p ∷ ps) =
    let popped = settle d (close top p) ps in if ltb d top.mark then popped else (top, p ∷ ps)

-- value.slice(1, -1)
unfoldable pub drop_last : Str → Str
drop_last [] = []
drop_last (c ∷ []) = []
drop_last (c ∷ d ∷ s) = c ∷ drop_last (d ∷ s)

-- The value on the line of its key.
unfoldable pub inline_value : Str → Value
unfolding unquote split_inline_array starts_with ends_with drop_last
inline_value v =
    if starts_with v (str "[") && ends_with v (str "]")
    then list (map word (split_inline_array (drop_last (drop 1 v))))
    else text (unquote v)

-- A line `key: value` at the indentation d.
abbrev pub keyed_line : ℕ → Str → Str → Stack → Stack
keyed_line d k v (top, ps) =
    if str_eq v []
    then (record { mark = suc d; key = k; node = object end }, top ∷ ps)
    else if str_eq v (str "[")
    then (record { mark = suc d; key = k; node = array [] }, top ∷ ps)
    else (frame_put top k (inline_value v), ps)

-- An element goes to an array, or makes one of an empty object that has a parent.
abbrev pub with_item : Node → List Frame → Str → Node
with_item (object end) [] x = object end
with_item (object end) (p ∷ ps) x = array (word x ∷ [])
with_item (object (entry k v es)) ps x = object (entry k v es)
with_item (array xs) ps x = array (xs ++ word x ∷ [])

abbrev pub item_line : Str → Stack → Stack
item_line x (top, ps) = (record top { node = with_item top.node ps x }, ps)

abbrev pub content_line : ℕ → Str → Option (Str × Str) → Stack → Stack
content_line d trimmed (some (k, v)) s = keyed_line d k v s
content_line d trimmed none s =
    if starts_with trimmed (str "- ") then item_line (unquote (drop 2 trimmed)) s else s

unfoldable pub step : Str → Stack → Stack
unfolding settle key_value indent trim unquote starts_with inline_value
step line (top, ps) =
    if non_empty (trim line)
    then content_line (indent line) (trim line) (key_value line) (settle (indent line) top ps)
    else (top, ps)

unfoldable pub run : List Str → Stack → Stack
unfolding step
run [] s = s
run (l ∷ ls) s = run ls (step l s)

abbrev pub entries_of : Node → Entries
entries_of (object es) = es
entries_of (array xs) = end

unfoldable pub close_all : Frame → List Frame → Entries
unfolding put
close_all f [] = entries_of f.node
close_all f (p ∷ ps) = close_all (close f p) ps

abbrev pub root : Frame
root = record { mark = 0; key = []; node = object end }

abbrev pub finish : Stack → Entries
finish (top, ps) = close_all top ps

unfoldable pub parse_block : Str → Entries
unfolding run close_all lines
parse_block yaml = let (h, t) = lines yaml in finish (run (h ∷ t) (root, []))

abbrev pub parsed : Option (Str × Str) → Entries
parsed none = end
parsed (some (yaml, rest)) = parse_block yaml

unfoldable pub extract_frontmatter : Str → Entries
unfolding parse_block front_match
extract_frontmatter content = parsed (front_match content)
