-- ===== src/Common/Text.antt =====
-- JavaScript strings as lists of code units, so that the code which walks them is recursion.
use Prim.Native.Nat.{ℕ}
use Prim.Native.Char.{code}
use Prim.Native.String.{String}
use mathlib.Core.Path.{◌≡◌, refl, ap₂}
use mathlib.Core.Logic.{◌↔◌, ◌⊎◌, inl, inr}
use mathlib.Core.Bool.{Bool, true, false, ◌&&◌, ◌||◌}
use mathlib.Core.List.{List, [], ◌∷◌, ◌++◌, map}
use native.Mathlib.Omega.{arith}
use sagasmith.Common.Lists.{In}
use sagasmith.Common.Tests.{leb, ◌==◌, and-eq-true, ==_iff, if◌then◌else◌}

abbrev pub Str : Type 0
Str = List ℕ

-- A literal of ASCII characters.
abbrev pub str : String → Str
str String.[] = []
str (String.◌∷◌ c s) = code c ∷ str s

-- [0-9]
abbrev pub is_digit : ℕ → Bool
is_digit c = leb b'0' c && leb c b'9'

-- `a === b` on strings.
unfoldable pub str_eq : Str → Str → Bool
str_eq [] [] = true
str_eq (a ∷ s) (b ∷ t) = (a == b) && str_eq s t
str_eq _ _ = false

str_eq_sound : (s t : Str) → str_eq s t ≡ true → s ≡ t
unfolding str_eq
str_eq_sound [] [] h = refl
str_eq_sound (a ∷ s) (b ∷ t) h =
    let (e, r) = and-eq-true (a == b) (str_eq s t) h in
    ap₂ ◌∷◌ ((==_iff a b).0 e) (str_eq_sound s t r)
str_eq_sound _ _ h = ground arith

pub str_eq_refl : (s : Str) → str_eq s s ≡ true
unfolding str_eq
str_eq_refl [] = refl
str_eq_refl (a ∷ s) = ground (arith, str_eq_refl s)

pub str_eq_iff : (s t : Str) → (str_eq s t ≡ true) ↔ (s ≡ t)
str_eq_iff s t = (str_eq_sound s t, λ e. rw e (str_eq_refl t))

-- s.endsWith(t)
unfoldable pub ends_with : Str → Str → Bool
unfolding str_eq
ends_with [] t = str_eq [] t
ends_with (c ∷ s) t = let rest = ends_with s t in if str_eq (c ∷ s) t then true else rest

unfoldable pub starts_with : Str → Str → Bool
starts_with s [] = true
starts_with [] (d ∷ t) = false
starts_with (c ∷ s) (d ∷ t) = (c == d) && starts_with s t

-- s.includes(t)
unfoldable pub includes : Str → Str → Bool
unfolding starts_with
includes [] t = starts_with [] t
includes (c ∷ s) t = let rest = includes s t in if starts_with (c ∷ s) t then true else rest

-- A Set of strings in its insertion order: has and add.
unfoldable pub has : List Str → Str → Bool
has [] k = false
has (j ∷ s) k = str_eq j k || has s k

unfoldable pub add : List Str → Str → List Str
unfolding has
add s k = if has s k then s else s ++ k ∷ []

-- ts.join(sep)
unfoldable pub join : Str → List Str → Str
join sep [] = []
join sep (s ∷ []) = s
join sep (s ∷ t ∷ ts) = s ++ (sep ++ join sep (t ∷ ts))

-- Splitting at each character of a kind: the first piece and the others.
unfoldable pub split_at : (ℕ → Bool) → Str → Str × List Str
split_at p [] = ([], [])
split_at p (c ∷ s) = let (h, t) = split_at p s in if p c then ([], h ∷ t) else (c ∷ h, t)

pub has-append : (s t : List Str) (k : Str) → has (s ++ t) k ≡ (has s k || has t k)
unfolding has
has-append [] t k = refl
has-append (j ∷ s) t k = ground (arith, has-append s t k)

pub has-add : (s : List Str) (l k : Str) → has (add s l) k ≡ (has s k || str_eq l k)
unfolding add
has-add s l k = ground (arith, has-append s (l ∷ []) k, str_eq_iff l k)

pub has-cons_self : (k : Str) (s : List Str) → has (k ∷ s) k ≡ true
unfolding has
has-cons_self k s = ground (arith, str_eq_refl k)

pub has-cons : (j k : Str) (s : List Str) → has s k ≡ true → has (j ∷ s) k ≡ true
unfolding has
has-cons j k s h = ground arith

pub has-snoc_self : (s : List Str) (k : Str) → has (s ++ k ∷ []) k ≡ true
has-snoc_self s k = ground (arith, has-append s (k ∷ []) k, has-cons_self k [])

pub has-snoc : (s : List Str) (t k : Str) → has s k ≡ true → has (s ++ t ∷ []) k ≡ true
has-snoc s t k h = ground (arith, has-append s (t ∷ []) k)

pub snoc-has : (s : List Str) (t k : Str) → has (s ++ t ∷ []) k ≡ true → (has s k ≡ true) ⊎ (t ≡ k)
unfolding has
snoc-has s t k h = ground (arith, has-append s (t ∷ []) k, str_eq_iff t k)

pub cons-has : (j k : Str) (s : List Str) → has (j ∷ s) k ≡ true → (j ≡ k) ⊎ (has s k ≡ true)
unfolding has
cons-has j k s h = ground (arith, str_eq_iff j k)

pub nil_has : (k : Str) → has [] k ≡ true → ⊥
unfolding has
nil_has k e = ground arith

module _ {A : Type 0} (f : A → Str) where
  pub has-map : (xs : List A) (x : A) → In x xs → has (map f xs) (f x) ≡ true
  has-map [] x h = absurd h
  has-map (y ∷ xs) x (inl p) = rw p (has-cons_self (f x) (map f xs))
  has-map (y ∷ xs) x (inr i) = has-cons (f y) (f x) (map f xs) (has-map xs x i)

  pub map-has : (xs : List A) (k : Str) → has (map f xs) k ≡ true → (x : A) × In x xs × (f x ≡ k)
  map-has [] k h = absurd (nil_has k h)
  map-has (y ∷ xs) k h = elim (cons-has (f y) k (map f xs) h) [
    | inl same ↦ (y, inl refl, same)
    | inr later ↦ let (x, i, p) = map-has xs k later in (x, inr i, p)
  ]

starts_with_sound : (s t : Str) → starts_with s t ≡ true → (rest : Str) × (s ≡ t ++ rest)
unfolding starts_with
starts_with_sound s [] h = (s, refl)
starts_with_sound [] (d ∷ t) h = absurd (ground arith)
starts_with_sound (c ∷ s) (d ∷ t) h =
    let (e, r) = and-eq-true (c == d) (starts_with s t) h in
    let (rest, q) = starts_with_sound s t r in (rest, ap₂ ◌∷◌ ((==_iff c d).0 e) q)

starts_with-append : (t rest : Str) → starts_with (t ++ rest) t ≡ true
unfolding starts_with
starts_with-append [] rest = refl
starts_with-append (d ∷ t) rest = ground (arith, starts_with-append t rest)

pub starts_with_iff : (s t : Str) → (starts_with s t ≡ true) ↔ ((rest : Str) × (s ≡ t ++ rest))
starts_with_iff s t = (starts_with_sound s t, λ (rest, e). rw e (starts_with-append t rest))
