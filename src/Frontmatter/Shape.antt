-- ===== src/Frontmatter/Shape.antt =====
-- The objects that are read back as they are printed.
use sagasmith.Common.{
  Bool, true, false, not, none, List, [], ◌∷◌, map, Str, str, starts_with, all, non_empty, ◌≡◌,
}
use sagasmith.Common.Spaces.{trim_start, trim_end}
use sagasmith.Frontmatter.{
  Item, word, other, Value, absent, text, scalar, list, group, Entries, end, entry, get,
}
use sagasmith.Frontmatter.Lines.{is_key_char, is_terminator, unquote}
use sagasmith.Frontmatter.Characters.{ArePlain}
use sagasmith.Frontmatter.Printer.{
  Depth, outer, middle, deep, is_quoted, is_inline, item_text, has_special,
}

-- A name of letters, digits, underscores and dashes that does not look like the closing line.
pub record IsKey (k : Str) : Type 0 where
  pub chars : all is_key_char k ≡ true
  pub named : non_empty k ≡ true
  pub no_rule : starts_with k (str "---") ≡ false

abbrev pub is_line : Str → Bool
is_line s = all (λ c. not (is_terminator c)) s

-- A string printed without quotes: not empty, with no space and no quote at its ends.
pub record IsBare (s : Str) : Type 0 where
  pub shown : non_empty s ≡ true
  pub no_space_first : trim_start s ≡ s
  pub no_space_last : trim_end s ≡ s
  pub no_quote : unquote s ≡ s

pub record IsText (d : Depth) (s : Str) : Type 0 where
  pub line : is_line s ≡ true
  pub bare : is_quoted d s ≡ false → IsBare s
  pub no_bracket : is_quoted d s ≡ false → starts_with s (str "[") ≡ false

abbrev pub item_quoted : Depth → Str → Bool
item_quoted deep s = false
item_quoted _ s = has_special s

pub record IsRowWord (d : Depth) (s : Str) : Type 0 where
  pub line : is_line s ≡ true
  pub shown : item_quoted d s ≡ false → non_empty s ≡ true
  pub no_space_last : item_quoted d s ≡ false → trim_end s ≡ s
  pub no_quote : item_quoted d s ≡ false → unquote s ≡ s

abbrev pub AreRows : Depth → List Item → Type 0
AreRows d [] = Unit
AreRows d (word s ∷ xs) = IsRowWord d s × AreRows d xs
AreRows d (other s ∷ xs) = ⊥

abbrev pub AreLines : List Str → Type 0
AreLines [] = Unit
AreLines (s ∷ ss) = (is_line s ≡ true) × AreLines ss

pub record IsList (d : Depth) (xs : List Item) : Type 0 where
  pub inline : is_inline d xs ≡ true → ArePlain (map item_text xs) × AreLines (map item_text xs)
  pub rows : is_inline d xs ≡ false → AreRows d xs

abbrev mutual
  pub IsValue : Depth → Value → Type 0
  IsValue d absent = ⊥
  IsValue d (text s) = IsText d s
  IsValue d (scalar s) = ⊥
  IsValue d (list xs) = IsList d xs
  IsValue outer (group es) = IsEntries middle es
  IsValue middle (group es) = IsEntries deep es
  IsValue deep (group es) = ⊥

  pub IsEntries : Depth → Entries → Type 0
  IsEntries d end = Unit
  IsEntries d (entry k v es) = IsKey k × (get es k ≡ none) × IsValue d v × IsEntries d es
