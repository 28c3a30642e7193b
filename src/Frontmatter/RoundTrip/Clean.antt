-- ===== src/Frontmatter/RoundTrip/Clean.antt =====
-- The printed lines hold no line end, and none of them looks like the closing line.
use sagasmith.Common.{
  Bool, true, false, List, [], ◌∷◌, ◌++◌, Str, str, starts_with, map, join, all, ◌≡◌, refl, arith,
  Bool-cases, inl, inr, and-eq-true,
}
use sagasmith.Frontmatter.{
  Item, word, other, Value, absent, text, scalar, list, group, Entries, end, entry,
}
use sagasmith.Frontmatter.Lines.{is_key_char, is_terminator}
use sagasmith.Frontmatter.Printer.{
  Depth, outer, middle, deep, pad, head_line, item_row, item_shown, quoted_if, is_quoted, item_text,
  is_inline, list_lines, has_special, print_value, print_entries,
}
use sagasmith.Frontmatter.Shape.{IsKey, is_line, AreRows, IsList, IsValue, IsEntries}
use sagasmith.Frontmatter.Reading.{is_line-append}
use sagasmith.Frontmatter.Reading.Elements.{is_line-join}

abbrev pub IsClean : Str → Type 0
IsClean l = (is_line l ≡ true) × (starts_with l (str "---") ≡ false)

abbrev pub AreClean : List Str → Type 0
AreClean [] = Unit
AreClean (l ∷ ls) = IsClean l × AreClean ls

AreClean-append : (ls ms : List Str) → AreClean ls → AreClean ms → AreClean (ls ++ ms)
AreClean-append [] ms h k = k
AreClean-append (l ∷ ls) ms (h, hs) k = (h, AreClean-append ls ms hs k)

key_line_chars : (k : Str) → all is_key_char k ≡ true → is_line k ≡ true
key_line_chars [] h = refl
key_line_chars (c ∷ k) h =
    let (e, r) = and-eq-true (is_key_char c) (all is_key_char k) h in
    let plain : is_terminator c ≡ false = ground arith in rw (plain, key_line_chars k r) refl

pad-is_line : (d : Depth) → is_line (pad d) ≡ true
pad-is_line outer = refl
pad-is_line middle = refl
pad-is_line deep = refl

no_rule_before_colon :
    (k rest : Str)
    → starts_with k (str "---") ≡ false
    → starts_with (k ++ (b':' ∷ rest)) (str "---") ≡ false
unfolding starts_with
no_rule_before_colon [] rest h = refl
no_rule_before_colon (a ∷ []) rest h = ground arith
no_rule_before_colon (a ∷ b ∷ []) rest h = ground arith
no_rule_before_colon (a ∷ b ∷ c ∷ k) rest h = h

head_line-no_rule :
    (d : Depth) (k rest : Str) → IsKey k → starts_with (head_line d k rest) (str "---") ≡ false
unfolding starts_with
head_line-no_rule outer k rest h = no_rule_before_colon k rest h.no_rule
head_line-no_rule middle k rest h = refl
head_line-no_rule deep k rest h = refl

head_line-IsClean :
    (d : Depth) (k rest : Str) → IsKey k → is_line rest ≡ true → IsClean (head_line d k rest)
head_line-IsClean d k rest h l = (
  is_line-append (pad d) (k ++ (b':' ∷ rest)) (pad-is_line d)
      (is_line-append k (b':' ∷ rest) (key_line_chars k h.chars) l),
  head_line-no_rule d k rest h,
)

quoted_if-is_line : (b : Bool) (s : Str) → is_line s ≡ true → is_line (quoted_if b s) ≡ true
quoted_if-is_line true s h = is_line-append s (b'"' ∷ []) h refl
quoted_if-is_line false s h = h

item_shown-is_line :
    (d : Depth) (s : Str) → is_line s ≡ true → is_line (item_shown d (word s)) ≡ true
item_shown-is_line outer s h = quoted_if-is_line (has_special s) s h
item_shown-is_line middle s h = quoted_if-is_line (has_special s) s h
item_shown-is_line deep s h = h

item_row-no_rule : (d : Depth) (x : Item) → starts_with (item_row d x) (str "---") ≡ false
unfolding starts_with
item_row-no_rule outer x = refl
item_row-no_rule middle x = refl
item_row-no_rule deep x = refl

rows-AreClean : (d : Depth) (xs : List Item) → AreRows d xs → AreClean (map (item_row d) xs)
rows-AreClean d [] h = tt
rows-AreClean d (word s ∷ xs) (h, hs) = (
  (
    is_line-append (pad d) (str "  - " ++ item_shown d (word s)) (pad-is_line d)
        (item_shown-is_line d s h.line),
    item_row-no_rule d (word s),
  ),
  rows-AreClean d xs hs,
)
rows-AreClean d (other s ∷ xs) h = absurd h

list_lines-AreClean :
    (d : Depth) (k : Str) (xs : List Item) → IsKey k → IsList d xs → AreClean (list_lines d k xs)
list_lines-AreClean d k [] h w = (head_line-IsClean d k (str " []") h refl, tt)
list_lines-AreClean d k (x ∷ xs) h w = elim (Bool-cases (is_inline d (x ∷ xs))) [
  | inl i ↦
      let ws = map item_text (x ∷ xs) in
      rw i (
        head_line-IsClean d k (str " [" ++ (join (str ", ") ws ++ str "]")) h
            (is_line-append (join (str ", ") ws) (str "]") (is_line-join ws (w.inline i).1) refl),
        tt,
      )
  | inr r ↦ rw r (head_line-IsClean d k [] h refl, rows-AreClean d (x ∷ xs) (w.rows r))
]

mutual
  unfolding print_value

  print_value-AreClean :
      (d : Depth) (k : Str) (v : Value) → IsKey k → IsValue d v → AreClean (print_value d k v)
  print_value-AreClean d k absent h w = tt
  print_value-AreClean d k (scalar s) h w = absurd w
  print_value-AreClean d k (text s) h w = (
    head_line-IsClean d k (b' ' ∷ quoted_if (is_quoted d s) s) h
        (quoted_if-is_line (is_quoted d s) s w.line),
    tt,
  )
  print_value-AreClean d k (list xs) h w = list_lines-AreClean d k xs h w
  print_value-AreClean outer k (group es) h w =
      (head_line-IsClean outer k [] h refl, print_entries-AreClean middle es w)
  print_value-AreClean middle k (group es) h w =
      (head_line-IsClean middle k [] h refl, print_entries-AreClean deep es w)
  print_value-AreClean deep k (group es) h w = absurd w

  pub print_entries-AreClean :
      (d : Depth) (es : Entries) → IsEntries d es → AreClean (print_entries d es)
  print_entries-AreClean d end h = tt
  print_entries-AreClean d (entry k v es) (n, u, w, h) =
      AreClean-append (print_value d k v) (print_entries d es) (print_value-AreClean d k v n w)
        (print_entries-AreClean d es h)
