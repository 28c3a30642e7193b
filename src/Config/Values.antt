-- ===== src/Config/Values.antt =====
-- Reading and writing a value of config.json by the names of its dotted path: the loops of
-- setConfigValue and cmdConfigGet. `set_in` is none where the code throws a TypeError or a RangeError.
-- A name that an object or an array inherits from its prototype counts as absent.
pub mod RoundTrip
pub mod Frame
use sagasmith.Common.{
  ℕ, Bool, true, false, ◌≡◌, refl, Option, none, some, List, [], ◌∷◌, ◌&&◌, ◌||◌, not, leb, Str,
  str, str_eq, str_eq_iff, if◌then◌else◌,
}
use sagasmith.Config.Arrays.{is_length, to_length, read_name, write_name}
use sagasmith.Common.Json.{
  Json, null, bool, number, string, array, object, Fields, end, field, get_field, put_field,
}

-- The value the loop goes on with, null where that is undefined.
unfoldable pub enter : Option Json → Json
enter none = object end
enter (some null) = null
enter (some (bool b)) = object end
enter (some (number t)) = object end
enter (some (string t)) = object end
enter (some (array t)) = array t
enter (some (object fs)) = object fs

-- On an array, the name length is set to {} first, which throws.
unfoldable pub child : Json → Str → Json
unfolding enter str_eq read_name
child null k = null
child (bool b) k = null
child (number t) k = null
child (string t) k = null
child (array xs) k = if is_length k then null else enter (read_name xs k)
child (object fs) k = enter (get_field fs k)

-- `o[k] = v`, which sets no field of its own where k is __proto__.
unfoldable pub assign : Fields → Str → Json → Fields
assign fs k v = if str_eq k (str "__proto__") then fs else put_field fs k v

-- What JSON.stringify writes of j after `j[k] = v`: a name set on a scalar is lost.
unfoldable pub with_field : Json → Str → Json → Json
unfolding assign write_name
with_field null k v = null
with_field (bool b) k v = bool b
with_field (number t) k v = number t
with_field (string t) k v = string t
with_field (array xs) k v = array (write_name xs k v)
with_field (object fs) k v = object (assign fs k v)

unfoldable pub own_field : Json → Str → Option Json
unfolding read_name
own_field null k = none
own_field (bool b) k = none
own_field (number t) k = none
own_field (string t) k = none
own_field (array xs) k = read_name xs k
own_field (object fs) k = get_field fs k

abbrev is_none : Option ℕ → Bool
is_none none = true
is_none (some n) = false

-- Setting a name of null throws, and so does a length that is none.
unfoldable pub throws : Json → Str → Json → Bool
unfolding str_eq to_length
throws null k v = true
throws (array xs) k v = is_length k && is_none (to_length v)
throws _ k v = false

abbrev pub set_last : Json → Str → Json → Option (Json × Option Json)
set_last j k v = if throws j k v then none else some (with_field j k v, own_field j k)

abbrev under_name : Json → Str → Option (Json × Option Json) → Option (Json × Option Json)
under_name j k none = none
under_name j k (some (c, old)) = some (with_field j k c, old)

-- The written config and the value that stood at the path.
unfoldable pub set_in : List Str → Json → Json → Option (Json × Option Json)
unfolding child with_field own_field throws
set_in [] v j = some (j, none)
set_in (k ∷ []) v j = set_last j k v
set_in (k ∷ l ∷ ks) v j = under_name j k (set_in (l ∷ ks) v (child j k))

-- The value at the path, none for "Key not found".
unfoldable pub get_in : List Str → Option Json → Option Json
unfolding own_field
get_in [] o = o
get_in (k ∷ ks) none = none
get_in (k ∷ ks) (some j) = get_in ks (own_field j k)
