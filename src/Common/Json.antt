-- ===== src/Common/Json.antt =====
-- What JSON.parse gives: an object is its fields in order, an array its items. A number is the text
-- that JSON.stringify writes of it.
use mathlib.Core.Option.{Option, none, some}
use mathlib.Core.Path.{◌≡◌, refl}
use mathlib.Core.Bool.{Bool}
use native.Mathlib.Omega.{arith}
use sagasmith.Common.Tests.{if◌then◌else◌}
use sagasmith.Common.Text.{Str, str_eq, str_eq_iff}

mutual
  pub data Json : Type 0 where
    null : Json
    bool : Bool → Json
    number string : Str → Json
    array : Items → Json
    object : Fields → Json

  pub data Items : Type 0 where
    no_items : Items
    first_item : Json → Items → Items

  pub data Fields : Type 0 where
    end : Fields
    field : Str → Json → Fields → Fields

-- `o[k]`, none where it is undefined.
unfoldable pub get_field : Fields → Str → Option Json
get_field end k = none
get_field (field j v fs) k = if str_eq j k then some v else get_field fs k

-- `o[k] = v`: in place, or behind the other fields.
unfoldable pub put_field : Fields → Str → Json → Fields
put_field end k v = field k v end
put_field (field j w fs) k v = if str_eq j k then field j v fs else field j w (put_field fs k v)

-- { ...o, ...p }
unfoldable pub spread : Fields → Fields → Fields
unfolding put_field
spread o end = o
spread o (field k v p) = spread (put_field o k v) p

pub get_field-put_field :
    (fs : Fields) (k j : Str) (v : Json)
    → get_field (put_field fs k v) j ≡ (if str_eq k j then some v else get_field fs j)
unfolding get_field put_field
get_field-put_field end k j v = refl
get_field-put_field (field i w fs) k j v =
    ground (arith, str_eq_iff i k, str_eq_iff i j, str_eq_iff k j, get_field-put_field fs k j v)
