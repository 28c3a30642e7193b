-- ===== src/Config/Arrays.antt =====
-- What JavaScript does with a name on an array, as the loops of setConfigValue and cmdConfigGet of
-- .kilo/get-shit-done/bin/lib/config.cjs use it: an index and the name length reach into the array, and
-- JSON.stringify writes no other name.
use sagasmith.Common.{
  ℕ, zero, suc, ◌==◌, ◌&&◌, Bool, false, not, Option, none, some, [], ◌∷◌, Str, str, str_eq,
  is_digit, all, ltb, if◌then◌else◌, ◌≡◌, refl,
}
use sagasmith.Common.Digits.{decimal, decimal_value}
use sagasmith.Common.Json.{
  Json, null, bool, number, string, array, object, Items, no_items, first_item,
}

-- A row of digits as a number is printed: without a zero in front.
unfoldable pub is_decimal : Str → Bool
is_decimal [] = false
is_decimal (c ∷ []) = is_digit c
is_decimal (c ∷ d ∷ s) = not (c == b'0') && all is_digit (c ∷ d ∷ s)

-- The number that is printed so, where it is below the bound.
unfoldable pub number_below : ℕ → Str → Option ℕ
unfolding is_decimal
number_below bound s =
    if is_decimal s && ltb (decimal_value 0 s) bound then some (decimal_value 0 s) else none

-- An array index: below 2^32 - 1.
unfoldable pub index_of : Str → Option ℕ
unfolding number_below
index_of k = number_below 4294967295 k

abbrev pub is_length : Str → Bool
is_length k = str_eq k (str "length")

-- The length that an array takes from a value, none where the assignment throws a RangeError. A text
-- is a number here only as a number is printed, or empty; `config-set` gives no other one, but as an
-- item of an array.
unfoldable pub to_length : Json → Option ℕ
unfolding number_below
to_length null = some 0
to_length (bool b) = some (if b then 1 else 0)
to_length (number t) = number_below 4294967296 t
to_length (string []) = some 0
to_length (string (c ∷ t)) = number_below 4294967296 (c ∷ t)
to_length (array no_items) = some 0
to_length (array (first_item null no_items)) = some 0
to_length (array (first_item (bool b) no_items)) = none
to_length (array (first_item v no_items)) = to_length v
to_length (array (first_item v (first_item w xs))) = none
to_length (object fs) = none

unfoldable pub count : Items → ℕ
count no_items = 0
count (first_item v xs) = suc (count xs)

unfoldable pub item_at : Items → ℕ → Option Json
item_at no_items n = none
item_at (first_item v xs) zero = some v
item_at (first_item v xs) (suc n) = item_at xs n

-- xs[n] = v; the places that are skipped are written as null.
unfoldable pub put_item : Items → ℕ → Json → Items
put_item no_items zero v = first_item v no_items
put_item no_items (suc n) v = first_item null (put_item no_items n v)
put_item (first_item w xs) zero v = first_item v xs
put_item (first_item w xs) (suc n) v = first_item w (put_item xs n v)

-- xs.length = n
unfoldable pub resized : Items → ℕ → Items
resized xs zero = no_items
resized no_items (suc n) = first_item null (resized no_items n)
resized (first_item v xs) (suc n) = first_item v (resized xs n)

abbrev pub item_named : Items → Option ℕ → Option Json
item_named xs none = none
item_named xs (some n) = item_at xs n

abbrev pub with_item : Items → Option ℕ → Json → Items
with_item xs none v = xs
with_item xs (some n) v = put_item xs n v

abbrev pub with_length : Items → Option ℕ → Items
with_length xs none = xs
with_length xs (some n) = resized xs n

-- xs[k]
unfoldable pub read_name : Items → Str → Option Json
unfolding str_eq count decimal index_of item_at
read_name xs k =
    if is_length k then some (number (decimal (count xs))) else item_named xs (index_of k)

-- xs[k] = v, as JSON.stringify writes it.
unfoldable pub write_name : Items → Str → Json → Items
unfolding str_eq to_length index_of resized put_item
write_name xs k v =
    if is_length k then with_length xs (to_length v) else with_item xs (index_of k) v

pub item_at-put_item : (xs : Items) (n : ℕ) (v : Json) → item_at (put_item xs n v) n ≡ some v
unfolding item_at put_item
item_at-put_item no_items zero v = refl
item_at-put_item no_items (suc n) v = item_at-put_item no_items n v
item_at-put_item (first_item w xs) zero v = refl
item_at-put_item (first_item w xs) (suc n) v = item_at-put_item xs n v
