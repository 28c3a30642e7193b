-- ===== src/Frontmatter/Reading/Elements.antt =====
-- What the parser makes of a printed array.
use sagasmith.Common.{
  ◌&&◌, leb, ltb, length, true, false, List, [], ◌∷◌, ◌++◌, Str, str, starts_with, str_eq,
  ends_with, all, map, non_empty, join, ◌≡◌, refl, ap, ◌∙◌, Bool-cases, inl, inr, and-eq-true,
  true_not_false,
}
use sagasmith.Common.Spaces.{trim_start, trim_end, trim}
use sagasmith.Frontmatter.{Item, word, other, list}
use sagasmith.Frontmatter.Lines.{up_to_terminator, unquote, split_inline_array}
use sagasmith.Frontmatter.Parser.{inline_value, drop_last}
use sagasmith.Frontmatter.Characters.{
  trim_end-snoc, drop_last_quote-snoc, drop_last-snoc, ends_with-snoc, ArePlain,
  split_inline_array-join, non_empty_snoc,
}
use sagasmith.Frontmatter.Printer.{
  Depth, outer, middle, deep, item_shown, quoted_if, item_text, is_word, has_special, is_inline,
}
use sagasmith.Frontmatter.Shape.{is_line, IsRowWord, AreLines, IsList, item_quoted}
use sagasmith.Frontmatter.Reading.{ReadsAs, is_line-append, line_value_enclosed, bare_not_empty}

pub is_line-join : (ws : List Str) → AreLines ws → is_line (join (str ", ") ws) ≡ true
unfolding join
is_line-join [] h = refl
is_line-join (w ∷ []) (l, h) = l
is_line-join (w ∷ v ∷ ws) (l, h) =
    is_line-append w (str ", " ++ join (str ", ") (v ∷ ws)) l (is_line-join (v ∷ ws) h)

inline_value_enclosed :
    (ws : List Str)
    → ArePlain ws
    → inline_value (b'[' ∷ (join (str ", ") ws ++ b']' ∷ [])) ≡ list (map word ws)
unfolding inline_value starts_with
inline_value_enclosed ws h =
    let j = join (str ", ") ws in
    rw (ends_with-snoc (b'[' ∷ j) b']', drop_last-snoc j b']', split_inline_array-join ws h) refl

words_only : (xs : List Item) → all is_word xs ≡ true → map word (map item_text xs) ≡ xs
words_only [] h = refl
words_only (word s ∷ xs) h = ap (◌∷◌ (word s)) (words_only xs h)
words_only (other s ∷ xs) h = absurd (true_not_false h refl)

inline_words : (d : Depth) (xs : List Item) → is_inline d xs ≡ true → all is_word xs ≡ true
inline_words outer xs h =
    (and-eq-true (all is_word xs)
      (leb (length xs) 3 && ltb (length (join (str ", ") (map item_text xs))) 60) h).0
inline_words middle xs h =
    (and-eq-true (all is_word xs)
      (leb (length xs) 3 && ltb (length (join (str ", ") (map item_text xs))) 60) h).0
inline_words deep xs h = absurd (true_not_false h refl)

pub inline-ReadsAs :
    (d : Depth) (xs : List Item)
    → is_inline d xs ≡ true
    → IsList d xs
    → ReadsAs
        (str " [" ++ (join (str ", ") (map item_text xs) ++ str "]"))
        (b'[' ∷ (join (str ", ") (map item_text xs) ++ b']' ∷ []))
        (list xs)
unfolding str_eq
inline-ReadsAs d xs i h =
    let ws = map item_text xs in
    let (plain, ls) = h.inline i in
    record {
      seen =
          line_value_enclosed b'[' b']' (join (str ", ") ws) refl refl (is_line-join ws ls) refl
            refl;
      not_empty = refl;
      not_bracket =
          bare_not_empty (join (str ", ") ws ++ b']' ∷ [])
            (non_empty_snoc (join (str ", ") ws) b']');
      value = inline_value_enclosed ws plain ∙ ap list (words_only xs (inline_words d xs i));
    }

pub empty-ReadsAs : ReadsAs (str " []") (str "[]") (list [])
unfolding trim trim_start trim_end up_to_terminator str_eq inline_value starts_with ends_with
    drop_last split_inline_array
empty-ReadsAs = record { seen = refl; not_empty = refl; not_bracket = refl; value = refl }

-- The text of a row, and the element that is read from it.
pub record ReadsItem (shown s : Str) : Type 0 where
  pub visible : non_empty shown ≡ true
  pub no_space_last : trim_end shown ≡ shown
  pub read : unquote shown ≡ s

quoted-ReadsItem : (s : Str) → ReadsItem (b'"' ∷ (s ++ b'"' ∷ [])) s
unfolding unquote
quoted-ReadsItem s = record {
  visible = refl;
  no_space_last = trim_end-snoc (b'"' ∷ s) b'"' refl;
  read = drop_last_quote-snoc s b'"' refl;
}

row-ReadsItem : (d : Depth) (s : Str) → IsRowWord d s → item_quoted d s ≡ false → ReadsItem s s
row-ReadsItem d s h e = record {
  visible = h.shown e;
  no_space_last = h.no_space_last e;
  read = h.no_quote e;
}

special-ReadsItem :
    (s : Str) → (has_special s ≡ false → ReadsItem s s) → ReadsItem (quoted_if (has_special s) s) s
special-ReadsItem s h = elim (Bool-cases (has_special s)) [
  | inl q ↦ rw q (quoted-ReadsItem s)
  | inr b ↦ rw b (h b)
]

pub item_shown-ReadsItem :
    (d : Depth) (s : Str) → IsRowWord d s → ReadsItem (item_shown d (word s)) s
item_shown-ReadsItem outer s h = special-ReadsItem s (row-ReadsItem outer s h)
item_shown-ReadsItem middle s h = special-ReadsItem s (row-ReadsItem middle s h)
item_shown-ReadsItem deep s h = row-ReadsItem deep s h refl
