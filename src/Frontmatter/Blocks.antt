-- ===== src/Frontmatter/Blocks.antt =====
-- The parser over the printed lines of a value, from any stack.
pub mod Fields
use mathlib.Core.List.{append_assoc, append-nil}
use sagasmith.Common.{
  ℕ, suc, ◌+◌, ◌≤◌, ltb, ◌&&◌, Bool, true, false, Option, none, some, List, [], ◌∷◌, ◌++◌, Str, str,
  starts_with, str_eq, map, non_empty, join, ◌≡◌, refl, ap, sym, ◌∙◌, arith, Bool-cases, inl, inr,
  true_not_false, if◌then◌else◌,
}
use sagasmith.Common.Spaces.{trim, trim_start, trim_end}
use sagasmith.Frontmatter.{
  Item, word, other, Value, absent, text, scalar, list, group, Entries, end, entry, put, get,
}
use sagasmith.Frontmatter.Lines.{key_value, indent, unquote, up_to_terminator, drop}
use sagasmith.Frontmatter.Parser.{
  Node, object, array, Frame, Stack, node_put, value_of, frame_put, close, settle, inline_value,
  keyed_line, with_item, item_line, content_line, step, run,
}
use sagasmith.Frontmatter.Printer.{
  Depth, outer, middle, deep, next, head_line, item_row, item_shown, quoted_if, is_quoted,
  item_text, is_inline, list_lines, print_value, print_entries,
}
use sagasmith.Frontmatter.Shape.{IsKey, IsText, IsRowWord, AreRows, IsList, IsValue, IsEntries}
use sagasmith.Frontmatter.Reading.{
  column, key_value-head_line, indent-head_line, visible-head_line, key_value-item_row,
  indent-item_row, trim-item_row, line_value, ReadsAs, text-ReadsAs,
}
use sagasmith.Frontmatter.Reading.Elements.{
  inline-ReadsAs, empty-ReadsAs, ReadsItem, item_shown-ReadsItem,
}

abbrev pub base : ℕ → Str → Entries → Frame
base m j f = record { mark = m; key = j; node = object f }

abbrev pub child : ℕ → Str → Node → Frame
child d k n = record { mark = suc d; key = k; node = n }

abbrev pub settled : ℕ → Stack → Stack
settled d s = settle d s.0 s.1

pub settle_shallow :
    (d : ℕ) (top : Frame) (ps : List Frame) → ltb d top.mark ≡ false → settle d top ps ≡ (top, ps)
unfolding settle
settle_shallow d top [] h = refl
settle_shallow d top (p ∷ ps) h = rw h refl

pub settle-settle :
    (d e : ℕ) (top : Frame) (ps : List Frame)
    → d ≤ e
    → settled d (settle e top ps) ≡ settle d top ps
unfolding settle
settle-settle d e top [] h = refl
settle-settle d e top (p ∷ ps) h = elim (Bool-cases (ltb e top.mark)) [
  | inl over ↦
      let deeper : ltb d top.mark ≡ true = ground arith in
      rw (over, deeper) (settle-settle d e (close top p) ps h)
  | inr within ↦ rw within refl
]

step_keyed :
    (d : Depth) (k rest : Str) (s t : Stack)
    → IsKey k
    → settled (column d) s ≡ t
    → step (head_line d k rest) s ≡ keyed_line (column d) k (line_value rest) t
unfolding step
step_keyed d k rest s t h e =
    rw (visible-head_line d k rest h, indent-head_line d k rest h, key_value-head_line d k rest h)
      (ap (keyed_line (column d) k (line_value rest)) e)

pub step_value :
    (d : Depth) (k rest v : Str) (x : Value) (s : Stack) (top : Frame) (ps : List Frame)
    → IsKey k
    → settled (column d) s ≡ (top, ps)
    → ReadsAs rest v x
    → step (head_line d k rest) s ≡ (frame_put top k x, ps)
step_value d k rest v x s top ps h e r =
    step_keyed d k rest s (top, ps) h e ∙ rw (r.seen, r.not_empty, r.not_bracket, r.value) refl

pub step_header :
    (d : Depth) (k : Str) (s : Stack) (top : Frame) (ps : List Frame)
    → IsKey k
    → settled (column d) s ≡ (top, ps)
    → step (head_line d k []) s ≡ (child (column d) k (object end), top ∷ ps)
unfolding trim trim_start trim_end up_to_terminator str_eq
step_header d k s top ps h e = step_keyed d k [] s (top, ps) h e

step_content :
    (line t : Str) (i : ℕ) (s : Stack)
    → trim line ≡ t
    → non_empty t ≡ true
    → key_value line ≡ none
    → indent line ≡ i
    → step line s ≡ content_line i t none (settled i s)
unfolding step
step_content line t i s e n k h = rw (e, n, k, h) refl

dash_line :
    (i : ℕ) (x : Str) (s : Stack) → content_line i (str "- " ++ x) none s ≡ item_line (unquote x) s
unfolding starts_with
dash_line i x s = refl

step_row :
    (d : Depth) (x k : Str) (n : Node) (ps : List Frame)
    → IsRowWord d x
    → step (item_row d (word x)) (child (column d) k n, ps)
      ≡ (child (column d) k (with_item n ps x), ps)
step_row d x k n ps h =
    let r = item_shown-ReadsItem d x h in
    let shown = item_shown d (word x) in
    let here = child (column d) k n in
    step_content (item_row d (word x)) (str "- " ++ shown) (column d + 2) (here, ps)
      (trim-item_row d (word x) r.visible r.no_space_last) refl (key_value-item_row d (word x))
      (indent-item_row d (word x))
    ∙ dash_line (column d + 2) shown (settled (column d + 2) (here, ps))
    ∙ ap (item_line (unquote shown)) (settle_shallow (column d + 2) here ps (ground arith))
    ∙ ap (λ y. item_line y (here, ps)) r.read

run-rows :
    (d : Depth) (k : Str) (xs acc : List Item) (ps : List Frame)
    → AreRows d xs
    → run (map (item_row d) xs) (child (column d) k (array acc), ps)
      ≡ (child (column d) k (array (acc ++ xs)), ps)
unfolding run
run-rows d k [] acc ps h = rw append-nil refl
run-rows d k (word x ∷ xs) acc ps (h, hs) =
    ap (run (map (item_row d) xs)) (step_row d x k (array acc) ps h)
    ∙ run-rows d k xs (acc ++ word x ∷ []) ps hs
    ∙ rw append_assoc refl
run-rows d k (other x ∷ xs) acc ps h = absurd h

pub run-append : (ls ms : List Str) (s : Stack) → run (ls ++ ms) s ≡ run ms (run ls s)
unfolding run
run-append [] ms s = refl
run-append (l ∷ ls) ms s = run-append ls ms (step l s)

-- The block of a child is over at the next line of its parent's depth.
pub settled-child :
    (d : ℕ) (k : Str) (n : Node) (m : ℕ) (j : Str) (f : Entries) (ps : List Frame)
    → ltb d m ≡ false
    → settled d (child d k n, base m j f ∷ ps) ≡ (base m j (put f k (value_of n)), ps)
unfolding settle
settled-child d k n m j f ps h =
    let over : ltb d (suc d) ≡ true = ground arith in
    rw over (settle_shallow d (base m j (put f k (value_of n))) ps h)

-- The fields of es, put one after the other.
unfoldable pub put_all : Entries → Entries → Entries
unfolding put
put_all f end = f
put_all f (entry k v es) = put_all (put f k v) es

pub run_rows_block :
    (d : Depth) (k : Str) (x : Item) (xs : List Item) (s : Stack) (m : ℕ) (j : Str) (f : Entries)
    (ps : List Frame)
    → IsKey k
    → AreRows d (x ∷ xs)
    → ltb (column d) m ≡ false
    → settled (column d) s ≡ (base m j f, ps)
    → settled (column d) (run (head_line d k [] ∷ map (item_row d) (x ∷ xs)) s)
      ≡ (base m j (put f k (list (x ∷ xs))), ps)
unfolding run
run_rows_block d k (other x) xs s m j f ps h rows l e = absurd rows
run_rows_block d k (word x) xs s m j f ps h (row, rows) l e =
    let rest = map (item_row d) xs in
    let parents = base m j f ∷ ps in
    ap (λ t. settled (column d) (run rest (step (item_row d (word x)) t)))
      (step_header d k s (base m j f) ps h e)
    ∙ ap (λ t. settled (column d) (run rest t)) (step_row d x k (object end) parents row)
    ∙ ap (settled (column d)) (run-rows d k xs (word x ∷ []) parents rows)
    ∙ settled-child (column d) k (array (word x ∷ xs)) m j f ps l
