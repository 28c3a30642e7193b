-- ===== src/Frontmatter/Blocks/Fields.antt =====
-- Putting the fields of an object one after the other into an empty one gives the object.
use sagasmith.Common.{
  Bool, true, false, Option, none, some, Str, str_eq, str_eq_iff, str_eq_refl, ◌≡◌, refl, ap, sym,
  ◌∙◌, arith, Bool-cases, inl, inr, if◌then◌else◌, true_not_false,
}
use sagasmith.Frontmatter.{Value, Entries, end, entry, put, get}
use sagasmith.Frontmatter.Blocks.{put_all}
use sagasmith.Frontmatter.Shape.{IsEntries}
use sagasmith.Frontmatter.Printer.{Depth}

append : Entries → Entries → Entries
append end g = g
append (entry k v f) g = entry k v (append f g)

-- No field of es is in f.
abbrev Fresh : Entries → Entries → Type 0
Fresh f end = Unit
Fresh f (entry k v es) = (get f k ≡ none) × Fresh f es

abbrev pub AreUnique : Entries → Type 0
AreUnique end = Unit
AreUnique (entry k v es) = (get es k ≡ none) × AreUnique es

abbrev found : Option Value → Bool
found none = false
found (some v) = true

pub apart : (j k : Str) → str_eq j k ≡ false → str_eq k j ≡ false
apart j k h = ground (arith, str_eq_iff k j, str_eq_refl k)

other_key :
    (j k : Str) (w : Value) (es : Entries) → get (entry j w es) k ≡ none → str_eq j k ≡ false
unfolding get
other_key j k w es h = elim (Bool-cases (str_eq j k)) [
  | inl e ↦
      absurd (true_not_false (ap (λ b. found (if b then some w else get es k)) e) (ap found h))
  | inr e ↦ e
]

rest_none : (j k : Str) (w : Value) (es : Entries) → get (entry j w es) k ≡ none → get es k ≡ none
unfolding get
rest_none j k w es h = sym (ap (λ b. if b then some w else get es k) (other_key j k w es h)) ∙ h

put-fresh :
    (f : Entries) (k : Str) (v : Value) → get f k ≡ none → put f k v ≡ append f (entry k v end)
unfolding put append
put-fresh end k v h = refl
put-fresh (entry j w f) k v h =
    rw (other_key j k w f h) (ap (entry j w) (put-fresh f k v (rest_none j k w f h)))

get-append :
    (f : Entries) (k j : Str) (v : Value)
    → get f j ≡ none
    → str_eq k j ≡ false
    → get (append f (entry k v end)) j ≡ none
unfolding get append
get-append end k j v h d = rw d refl
get-append (entry i w f) k j v h d =
    rw (other_key i j w f h) (get-append f k j v (rest_none i j w f h) d)

Fresh-after :
    (f es : Entries) (k : Str) (v : Value)
    → Fresh f es
    → get es k ≡ none
    → Fresh (append f (entry k v end)) es
Fresh-after f end k v h n = tt
Fresh-after f (entry j w es) k v (h, hs) n = (
  get-append f k j v h (apart j k (other_key j k w es n)),
  Fresh-after f es k v hs (rest_none j k w es n),
)

append-append :
    (f es : Entries) (k : Str) (v : Value)
    → append (append f (entry k v end)) es ≡ append f (entry k v es)
unfolding append
append-append end es k v = refl
append-append (entry j w f) es k v = ap (entry j w) (append-append f es k v)

append-end : (f : Entries) → append f end ≡ f
unfolding append
append-end end = refl
append-end (entry k v f) = ap (entry k v) (append-end f)

put_all-append : (f es : Entries) → Fresh f es → AreUnique es → put_all f es ≡ append f es
unfolding put_all
put_all-append f end h u = sym (append-end f)
put_all-append f (entry k v es) (h, hs) (n, u) =
    ap (λ g. put_all g es) (put-fresh f k v h)
    ∙ put_all-append (append f (entry k v end)) es (Fresh-after f es k v hs n) u
    ∙ append-append f es k v

all-Fresh : (es : Entries) → Fresh end es
unfolding get
all-Fresh end = tt
all-Fresh (entry k v es) = (refl, all-Fresh es)

entries_unique : (d : Depth) (es : Entries) → IsEntries d es → AreUnique es
entries_unique d end h = tt
entries_unique d (entry k v es) (n, u, w, h) = (u, entries_unique d es h)

pub put_all_end : (d : Depth) (es : Entries) → IsEntries d es → put_all end es ≡ es
unfolding append
put_all_end d es h = put_all-append end es (all-Fresh es) (entries_unique d es h)
