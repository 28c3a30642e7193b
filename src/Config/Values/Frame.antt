-- ===== src/Config/Values/Frame.antt =====
-- setConfigValue leaves every other path as it is.
use sagasmith.Common.{
  ℕ, ◌&&◌, ◌||◌, not, and-eq-true, not-eq-true, true_not_false, Bool, true, false, ◌≡◌, refl,
  Option, none, some, List, [], ◌∷◌, Str, str, str_eq, str_eq_iff, Bool-cases, ◌⊎◌, inl, inr, sym,
  str_eq_refl, if◌then◌else◌, ap, ◌∙◌, arith,
}
use sagasmith.Common.Json.{
  Json, null, bool, number, string, array, object, Items, Fields, get_field, get_field-put_field,
}
use sagasmith.Config.Values.{
  child, assign, with_field, own_field, throws, enter, set_in, get_in, under_name,
}
use sagasmith.Common.Digits.{decimal}
use sagasmith.Config.Arrays.{
  count, index_of, is_length, item_at, item_named, with_item, read_name, write_name,
  item_at-put_item,
}
use sagasmith.Config.Values.RoundTrip.{get_in-enter}

-- The two paths differ at a name that both have.
unfoldable pub is_apart : List Str → List Str → Bool
is_apart [] qs = false
is_apart (k ∷ ks) [] = false
is_apart (k ∷ ks) (q ∷ qs) = let rest = is_apart ks qs in if str_eq k q then rest else true

abbrev no_index : Option ℕ → Bool
no_index none = true
no_index (some n) = false

no_index_none : (o : Option ℕ) → no_index o ≡ true → o ≡ none
no_index_none none h = refl
no_index_none (some n) h = absurd (true_not_false h refl)

-- A name that does not reach into an array.
unfoldable pub is_ordinary : Str → Bool
unfolding str_eq index_of
is_ordinary k = not (is_length k) && no_index (index_of k)

abbrev is_array : Json → Bool
is_array (array xs) = true
is_array _ = false

-- The paths part at a value that is no array, or the second one goes on there with an ordinary name.
unfoldable pub parts_at : List Str → List Str → Json → Bool
unfolding child is_ordinary
parts_at [] qs j = false
parts_at (k ∷ ks) [] j = false
parts_at (k ∷ ks) (q ∷ qs) j =
    let rest = parts_at ks qs (child j k) in
    if str_eq k q then rest else not (is_array j) || is_ordinary q

-- At an ordinary name they part wherever they differ.
pub parts_at-ordinary :
    (k q : Str) (ks : List Str) (j : Json)
    → is_apart (k ∷ ks) (q ∷ []) ≡ true
    → is_ordinary q ≡ true
    → parts_at (k ∷ ks) (q ∷ []) j ≡ true
unfolding is_apart parts_at
parts_at-ordinary k q [] j h o = ground arith
parts_at-ordinary k q (l ∷ ks) j h o = ground arith

pub read_name-ordinary : (xs : Items) (q : Str) → is_ordinary q ≡ true → read_name xs q ≡ none
unfolding is_ordinary read_name
read_name-ordinary xs q h =
    let (l, i) = and-eq-true (not (is_length q)) (no_index (index_of q)) h in
    rw (not-eq-true (is_length q) l, no_index_none (index_of q) i) refl

get_field-assign_cases :
    (fs : Fields) (k : Str) (c : Json)
    → (get_field (assign fs k c) k ≡ get_field fs k) ⊎ (get_field (assign fs k c) k ≡ some c)
unfolding assign
get_field-assign_cases fs k c = elim (Bool-cases (str_eq k (str "__proto__"))) [
  | inl e ↦ inl (ground arith)
  | inr e ↦ inr (ground (arith, get_field-put_field fs k k c, str_eq_refl k))
]

own_field-with_field :
    (j : Json) (k q : Str) (v : Json)
    → str_eq k q ≡ false
    → (not (is_array j) || is_ordinary q) ≡ true
    → own_field (with_field j k v) q ≡ own_field j q
unfolding own_field with_field assign
own_field-with_field null k q v h o = refl
own_field-with_field (bool b) k q v h o = refl
own_field-with_field (number t) k q v h o = refl
own_field-with_field (string t) k q v h o = refl
own_field-with_field (array xs) k q v h o =
    read_name-ordinary (write_name xs k v) q o ∙ sym (read_name-ordinary xs q o)
own_field-with_field (object fs) k q v h o = ground (arith, get_field-put_field fs k q v)

abbrev written : Json → Option (Json × Option Json) → Json
written d none = d
written d (some (w, old)) = w

abbrev previous : Option Json → Option (Json × Option Json) → Option Json
previous d none = d
previous d (some (w, old)) = old

pub written_last :
    (k : Str) (v j w : Json) (old : Option Json)
    → set_in (k ∷ []) v j ≡ some (w, old)
    → with_field j k v ≡ w
unfolding set_in
written_last k v j w old h = elim (Bool-cases (throws j k v)) [
  | inl t ↦
      let never : none ≡ some (w, old) =
        ap (λ b. if b then none else some (with_field j k v, own_field j k)) (sym t) ∙ h in
      cc
  | inr f ↦
      ap (written null)
        (ap (λ b. if b then none else some (with_field j k v, own_field j k)) (sym f) ∙ h)
]

written_under :
    (j : Json) (k : Str) (r : Option (Json × Option Json)) (w : Json) (old : Option Json)
    → under_name j k r ≡ some (w, old)
    → (c : Json) × (r ≡ some (c, old)) × (with_field j k c ≡ w)
written_under j k none w old h = cc
written_under j k (some (c, o)) w old h =
    (c, ap (λ p. some (c, p)) (ap (previous none) h), ap (written null) h)

-- In an array, an index leads to what was written there, and an ordinary name nowhere.
item_below :
    (xs : Items) (r : Str) (qs : List Str) (c : Json) (o : Option ℕ)
    → get_in (r ∷ qs) (some c) ≡ get_in (r ∷ qs) (some (enter (item_named xs o)))
    → get_in (r ∷ qs) (item_named (with_item xs o c) o) ≡ get_in (r ∷ qs) (item_named xs o)
item_below xs r qs c none h = refl
item_below xs r qs c (some n) h =
    ap (get_in (r ∷ qs)) (item_at-put_item xs n c) ∙ h ∙ get_in-enter r qs (item_at xs n)

below_number :
    (r : Str) (qs : List Str) (s t : Str)
    → get_in (r ∷ qs) (some (number s)) ≡ get_in (r ∷ qs) (some (number t))
unfolding get_in own_field
below_number r qs s t = refl

read_length :
    (xs : Items) (k : Str)
    → is_length k ≡ true
    → read_name xs k ≡ some (number (decimal (count xs)))
unfolding read_name
read_length xs k l = rw l refl

read_item :
    (xs : Items) (k : Str) → is_length k ≡ false → read_name xs k ≡ item_named xs (index_of k)
unfolding read_name
read_item xs k f = rw f refl

write_item :
    (xs : Items) (k : Str) (v : Json)
    → is_length k ≡ false
    → write_name xs k v ≡ with_item xs (index_of k) v
unfolding write_name
write_item xs k v f = rw f refl

child_item :
    (xs : Items) (k : Str)
    → is_length k ≡ false
    → child (array xs) k ≡ enter (item_named xs (index_of k))
unfolding child
child_item xs k f = rw f refl

array_below :
    (xs : Items) (k r : Str) (qs : List Str) (c : Json)
    → get_in (r ∷ qs) (some c) ≡ get_in (r ∷ qs) (some (child (array xs) k))
    → get_in (r ∷ qs) (read_name (write_name xs k c) k) ≡ get_in (r ∷ qs) (read_name xs k)
array_below xs k r qs c h = elim (Bool-cases (is_length k)) [
  | inl l ↦
      rw (read_length (write_name xs k c) k l, read_length xs k l)
        (below_number r qs (decimal (count (write_name xs k c))) (decimal (count xs)))
  | inr f ↦
      ap (get_in (r ∷ qs)) (read_item (write_name xs k c) k f)
      ∙ ap (λ ys. get_in (r ∷ qs) (item_named ys (index_of k))) (write_item xs k c f)
      ∙ item_below xs r qs c (index_of k)
          (h ∙ ap (λ j. get_in (r ∷ qs) (some j)) (child_item xs k f))
      ∙ ap (get_in (r ∷ qs)) (sym (read_item xs k f))
]

-- Reading at the name that is written, below it at a path apart from the one that is set.
own_field_below :
    (j : Json) (k r : Str) (qs : List Str) (c : Json)
    → get_in (r ∷ qs) (some c) ≡ get_in (r ∷ qs) (some (child j k))
    → get_in (r ∷ qs) (own_field (with_field j k c) k) ≡ get_in (r ∷ qs) (own_field j k)
unfolding own_field with_field child
own_field_below null k r qs c h = refl
own_field_below (bool b) k r qs c h = refl
own_field_below (number b) k r qs c h = refl
own_field_below (string b) k r qs c h = refl
own_field_below (array xs) k r qs c h = array_below xs k r qs c h
own_field_below (object fs) k r qs c h = elim (get_field-assign_cases fs k c) [
  | inl e ↦ ap (get_in (r ∷ qs)) e
  | inr e ↦ ap (get_in (r ∷ qs)) e ∙ h ∙ get_in-enter r qs (get_field fs k)
]

own_field_at :
    (j : Json) (k q r : Str) (qs : List Str) (c : Json)
    → k ≡ q
    → get_in (r ∷ qs) (some c) ≡ get_in (r ∷ qs) (some (child j k))
    → get_in (r ∷ qs) (own_field (with_field j k c) q) ≡ get_in (r ∷ qs) (own_field j q)
own_field_at j k q r qs c e h = rw (sym e) (own_field_below j k r qs c h)

-- A write to a path that succeeds leaves what is read at every path that differs from it in a name
-- that both have, where the paths part at a value that is no array, or the second one goes on
-- there with a name that is neither an index nor length.
pub set_in-keeps :
    (k : Str) (ks : List Str) (q : Str) (qs : List Str) (v j w : Json) (old : Option Json)
    → parts_at (k ∷ ks) (q ∷ qs) j ≡ true
    → set_in (k ∷ ks) v j ≡ some (w, old)
    → get_in (q ∷ qs) (some w) ≡ get_in (q ∷ qs) (some j)
unfolding parts_at set_in get_in
set_in-keeps k [] q qs v j w old a h =
    let differ : str_eq k q ≡ false = ground arith in
    ap (λ x. get_in qs (own_field x q)) (sym (written_last k v j w old h))
    ∙ ap (get_in qs) (own_field-with_field j k q v differ (ground arith))
set_in-keeps k (l ∷ ks) q [] v j w old a h =
    let differ : str_eq k q ≡ false = ground arith in
    let (c, done, e) = written_under j k (set_in (l ∷ ks) v (child j k)) w old h in
    ap (λ x. own_field x q) (sym e) ∙ own_field-with_field j k q c differ (ground arith)
set_in-keeps k (l ∷ ks) q (r ∷ qs) v j w old a h =
    let (c, done, e) = written_under j k (set_in (l ∷ ks) v (child j k)) w old h in
    ap (λ x. get_in (r ∷ qs) (own_field x q)) (sym e) ∙ elim (Bool-cases (str_eq k q)) [
      | inl same ↦
          own_field_at j k q r qs c ((str_eq_iff k q).0 same)
            (set_in-keeps l ks r qs v (child j k) c old (ground arith) done)
      | inr differ ↦ ap (get_in (r ∷ qs)) (own_field-with_field j k q c differ (ground arith))
    ]
