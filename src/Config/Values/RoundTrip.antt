-- ===== src/Config/Values/RoundTrip.antt =====
-- setConfigValue and cmdConfigGet agree on a path.
use sagasmith.Common.{
  Bool, true, false, ◌≡◌, refl, Option, none, some, List, [], ◌∷◌, ◌&&◌, not, Str, str, str_eq,
  str_eq_refl, true_not_false, and-eq-true, ap, ◌∙◌, arith,
}
use sagasmith.Common.Json.{
  Json, null, bool, number, string, array, object, Fields, get_field, get_field-put_field,
}
use sagasmith.Config.Values.{
  enter, child, assign, with_field, own_field, set_in, get_in, under_name,
}

-- The path goes through objects, missing fields and scalar fields only, and no name is __proto__.
unfoldable pub is_open : List Str → Json → Bool
unfolding child
is_open [] j = true
is_open (k ∷ ks) null = false
is_open (k ∷ ks) (bool b) = false
is_open (k ∷ ks) (number t) = false
is_open (k ∷ ks) (string t) = false
is_open (k ∷ ks) (array t) = false
is_open (k ∷ []) (object fs) = not (str_eq k (str "__proto__"))
is_open (k ∷ l ∷ ks) (object fs) =
    let rest = is_open (l ∷ ks) (child (object fs) k) in not (str_eq k (str "__proto__")) && rest

pub get_field-assign :
    (fs : Fields) (k : Str) (v : Json)
    → not (str_eq k (str "__proto__")) ≡ true
    → get_field (assign fs k v) k ≡ some v
unfolding assign
get_field-assign fs k v h = ground (arith, get_field-put_field fs k k v, str_eq_refl k)

get_in-none : (ks : List Str) → get_in ks none ≡ none
unfolding get_in
get_in-none [] = refl
get_in-none (k ∷ ks) = refl

-- Below a field that is replaced by {} nothing was found before and nothing stands in its place.
pub get_in-enter :
    (k : Str) (ks : List Str) (o : Option Json)
    → get_in (k ∷ ks) (some (enter o)) ≡ get_in (k ∷ ks) o
unfolding get_in enter own_field get_field
get_in-enter k ks none = get_in-none ks
get_in-enter k ks (some null) = refl
get_in-enter k ks (some (bool b)) = refl
get_in-enter k ks (some (number t)) = refl
get_in-enter k ks (some (string t)) = refl
get_in-enter k ks (some (array t)) = refl
get_in-enter k ks (some (object fs)) = refl

last_name :
    (k : Str) (v : Json) (fs : Fields)
    → is_open (k ∷ []) (object fs) ≡ true
    → (w : Json) × (set_in (k ∷ []) v (object fs) ≡ some (w, get_field fs k))
      × (own_field w k ≡ some v)
unfolding set_in is_open with_field own_field
last_name k v fs h = (object (assign fs k v), refl, get_field-assign fs k v h)

-- The round trip, and the value that is reported as the previous one.
pub set_in-get_in :
    (k : Str) (ks : List Str) (v j : Json)
    → is_open (k ∷ ks) j ≡ true
    → (w : Json) × (set_in (k ∷ ks) v j ≡ some (w, get_in (k ∷ ks) (some j)))
      × (get_in (k ∷ ks) (some w) ≡ some v)
unfolding set_in get_in is_open own_field with_field child
set_in-get_in k ks v null h = absurd (true_not_false h refl)
set_in-get_in k ks v (bool b) h = absurd (true_not_false h refl)
set_in-get_in k ks v (number b) h = absurd (true_not_false h refl)
set_in-get_in k ks v (string b) h = absurd (true_not_false h refl)
set_in-get_in k ks v (array b) h = absurd (true_not_false h refl)
set_in-get_in k [] v (object fs) h = last_name k v fs h
set_in-get_in k (l ∷ ks) v (object fs) h =
    let (here, below) =
      and-eq-true (not (str_eq k (str "__proto__"))) (is_open (l ∷ ks) (child (object fs) k)) h in
    let (c, done, there) = set_in-get_in l ks v (enter (get_field fs k)) below in
    (
      object (assign fs k c),
      ap (under_name (object fs) k)
          (done ∙ ap (λ o. some (c, o)) (get_in-enter l ks (get_field fs k))),
      ap (get_in (l ∷ ks)) (get_field-assign fs k c here) ∙ there,
    )
