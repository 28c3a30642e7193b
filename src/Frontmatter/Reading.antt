-- ===== src/Frontmatter/Reading.antt =====
-- What the parser makes of one printed line.
pub mod Elements
use sagasmith.Common.{
  ℕ, suc, ◌+◌, ◌==◌, ◌||◌, ◌&&◌, Bool, true, false, not, Option, none, some, List, [], ◌∷◌, ◌++◌,
  Str, str, starts_with, str_eq, ends_with, all, any, map, non_empty, join, ◌≡◌, refl, ap, sym, ◌∙◌,
  arith, Bool-cases, inl, inr, and-eq-true, not-eq-true, true_not_false, if◌then◌else◌,
}
use sagasmith.Common.Regex.{is_space}
use sagasmith.Common.Spaces.{trim_start, trim_end, trim}
use sagasmith.Frontmatter.{Item, word, other, Value, text, list}
use sagasmith.Frontmatter.Lines.{
  is_key_char, key_run, is_terminator, up_to_terminator, is_quote, unquote, key_value, indent, drop,
  drop_last_quote, split_inline_array,
}
use sagasmith.Frontmatter.Parser.{inline_value, drop_last}
use sagasmith.Frontmatter.Characters.{
  key_run-append, key_char_visible, up_to_terminator-all, trim_end-snoc, drop_last_quote-snoc,
  drop_last-snoc, ends_with-snoc, non_empty-trim_end, ArePlain, split_inline_array-join,
}
use sagasmith.Frontmatter.Printer.{
  Depth, outer, middle, deep, pad, head_line, item_row, item_shown, quoted_if, is_quoted, item_text,
  is_word, has_special,
}
use sagasmith.Frontmatter.Shape.{IsKey, is_line, IsBare, IsText, IsRowWord, item_quoted}

abbrev pub column : Depth → ℕ
column outer = 0
column middle = 2
column deep = 4

key_line :
    (c : ℕ) (k rest : Str)
    → is_space c ≡ false
    → all is_key_char (c ∷ k) ≡ true
    → key_value (c ∷ (k ++ (b':' ∷ rest))) ≡ some (c ∷ k, trim (up_to_terminator (trim_start rest)))
unfolding key_value trim_start
key_line c k rest s h = rw (s, key_run-append (c ∷ k) rest h) refl

padded_line : (d : Depth) (s : Str) → key_value (pad d ++ s) ≡ key_value s
unfolding key_value trim_start
padded_line outer s = refl
padded_line middle s = refl
padded_line deep s = refl

pub key_value-head_line :
    (d : Depth) (k rest : Str)
    → IsKey k
    → key_value (head_line d k rest) ≡ some (k, trim (up_to_terminator (trim_start rest)))
key_value-head_line d [] rest h = absurd (true_not_false h.named refl)
key_value-head_line d (c ∷ k) rest h =
    let (e, r) = and-eq-true (is_key_char c) (all is_key_char k) h.chars in
    padded_line d (c ∷ (k ++ (b':' ∷ rest))) ∙ key_line c k rest (key_char_visible c e) h.chars

indent_padded :
    (d : Depth) (c : ℕ) (s : Str) → is_space c ≡ false → indent (pad d ++ c ∷ s) ≡ column d
unfolding indent
indent_padded outer c s h = rw h refl
indent_padded middle c s h = rw h refl
indent_padded deep c s h = rw h refl

pub indent-head_line : (d : Depth) (k rest : Str) → IsKey k → indent (head_line d k rest) ≡ column d
indent-head_line d [] rest h = absurd (true_not_false h.named refl)
indent-head_line d (c ∷ k) rest h =
    let (e, r) = and-eq-true (is_key_char c) (all is_key_char k) h.chars in
    indent_padded d c (k ++ (b':' ∷ rest)) (key_char_visible c e)

trim_padded : (d : Depth) (s : Str) → trim (pad d ++ s) ≡ trim s
unfolding trim trim_start
trim_padded outer s = refl
trim_padded middle s = refl
trim_padded deep s = refl

trim_start_visible : (c : ℕ) (s : Str) → is_space c ≡ false → trim_start (c ∷ s) ≡ c ∷ s
unfolding trim_start
trim_start_visible c s h = rw h refl

trim_visible : (c : ℕ) (s : Str) → is_space c ≡ false → trim (c ∷ s) ≡ trim_end (c ∷ s)
unfolding trim
trim_visible c s h = ap trim_end (trim_start_visible c s h)

pub visible-head_line :
    (d : Depth) (k rest : Str) → IsKey k → non_empty (trim (head_line d k rest)) ≡ true
visible-head_line d [] rest h = absurd (true_not_false h.named refl)
visible-head_line d (c ∷ k) rest h =
    let (e, r) = and-eq-true (is_key_char c) (all is_key_char k) h.chars in
    let vis = key_char_visible c e in
    ap non_empty
      (trim_padded d (c ∷ (k ++ (b':' ∷ rest))) ∙ trim_visible c (k ++ (b':' ∷ rest)) vis)
    ∙ non_empty-trim_end (c ∷ (k ++ (b':' ∷ rest))) (rw vis refl)

pub key_value-item_row : (d : Depth) (x : Item) → key_value (item_row d x) ≡ none
unfolding key_value trim_start key_run
key_value-item_row d x = padded_line d (str "  - " ++ item_shown d x)

pub indent-item_row : (d : Depth) (x : Item) → indent (item_row d x) ≡ column d + 2
unfolding indent
indent-item_row outer x = refl
indent-item_row middle x = refl
indent-item_row deep x = refl

trim_dash : (s : Str) → non_empty s ≡ true → trim_end s ≡ s → trim (str "  - " ++ s) ≡ str "- " ++ s
unfolding trim trim_start trim_end
trim_dash s n h = rw (h, n) refl

pub trim-item_row :
    (d : Depth) (x : Item)
    → non_empty (item_shown d x) ≡ true
    → trim_end (item_shown d x) ≡ item_shown d x
    → trim (item_row d x) ≡ str "- " ++ item_shown d x
trim-item_row d x n h =
    trim_padded d (str "  - " ++ item_shown d x) ∙ trim_dash (item_shown d x) n h

-- The value of a line, from what stands behind the colon.
abbrev pub line_value : Str → Str
line_value rest = trim (up_to_terminator (trim_start rest))

line_value_shown :
    (s : Str) → is_line s ≡ true → trim_start s ≡ s → trim_end s ≡ s → line_value (b' ' ∷ s) ≡ s
unfolding trim trim_start
line_value_shown s l f e =
    ap (λ t. trim (up_to_terminator t)) f ∙ ap trim (up_to_terminator-all s l) ∙ ap trim_end f ∙ e

pub is_line-append : (s t : Str) → is_line s ≡ true → is_line t ≡ true → is_line (s ++ t) ≡ true
is_line-append [] t h k = k
is_line-append (c ∷ s) t h k =
    let (e, r) = and-eq-true (not (is_terminator c)) (is_line s) h in
    rw (e, is_line-append s t r k) refl

line_value_enclosed :
    (c d : ℕ) (s : Str)
    → is_space c ≡ false
    → is_space d ≡ false
    → is_line s ≡ true
    → is_terminator c ≡ false
    → is_terminator d ≡ false
    → line_value (b' ' ∷ c ∷ (s ++ d ∷ [])) ≡ c ∷ (s ++ d ∷ [])
line_value_enclosed c d s vc vd l tc td =
    line_value_shown (c ∷ (s ++ d ∷ [])) (rw (tc, is_line-append s (d ∷ []) l (rw td refl)) refl)
      (trim_start_visible c (s ++ d ∷ []) vc) (trim_end-snoc (c ∷ s) d vd)

inline_value_quoted : (s : Str) → inline_value (b'"' ∷ (s ++ b'"' ∷ [])) ≡ text s
unfolding inline_value starts_with unquote
inline_value_quoted s = ap text (drop_last_quote-snoc s b'"' refl)

inline_value_bare :
    (s : Str) → starts_with s (str "[") ≡ false → unquote s ≡ s → inline_value s ≡ text s
unfolding inline_value
inline_value_bare s b u = rw b (ap text u)

-- The line of a key: neither of the two values that open a block, and the value that is read.
pub record ReadsAs (rest v : Str) (x : Value) : Type 0 where
  pub seen : line_value rest ≡ v
  pub not_empty : str_eq v [] ≡ false
  pub not_bracket : str_eq v (str "[") ≡ false
  pub value : inline_value v ≡ x

bare_not_bracket : (s : Str) → starts_with s (str "[") ≡ false → str_eq s (str "[") ≡ false
unfolding starts_with str_eq
bare_not_bracket [] h = refl
bare_not_bracket (c ∷ s) h = ground arith

bare_not_empty : (s : Str) → non_empty s ≡ true → str_eq s [] ≡ false
unfolding str_eq
bare_not_empty [] h = absurd (true_not_false h refl)
bare_not_empty (c ∷ s) h = refl

pub text-ReadsAs :
    (d : Depth) (s : Str)
    → IsText d s
    → ReadsAs (b' ' ∷ quoted_if (is_quoted d s) s) (quoted_if (is_quoted d s) s) (text s)
unfolding str_eq
text-ReadsAs d s h = elim (Bool-cases (is_quoted d s)) [
  | inl q ↦ rw q (record {
    seen = line_value_enclosed b'"' b'"' s refl refl h.line refl refl;
    not_empty = refl;
    not_bracket = refl;
    value = inline_value_quoted s;
  })
  | inr b ↦ rw b (record {
    seen = line_value_shown s h.line (h.bare b).no_space_first (h.bare b).no_space_last;
    not_empty = bare_not_empty s (h.bare b).shown;
    not_bracket = bare_not_bracket s (h.no_bracket b);
    value = inline_value_bare s (h.no_bracket b) (h.bare b).no_quote;
  })
]
