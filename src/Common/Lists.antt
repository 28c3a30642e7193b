-- ===== src/Common/Lists.antt =====
-- Lists measured by native numbers, Boolean searches, and a membership that computes.
use Prim.Native.Nat.{ℕ, suc, ◌+◌, ◌≤◌}
use mathlib.Core.Path.{◌≡◌, refl}
use mathlib.Core.Logic.{◌⊎◌, inl, inr}
use mathlib.Core.Bool.{Bool, true, false, ◌&&◌, ◌||◌}
use mathlib.Core.List.{List, [], ◌∷◌, ◌++◌, map}
use native.Mathlib.Omega.{arith}
use sagasmith.Common.Tests.{if◌then◌else◌, Bool-cases}

module _ {ℓ} {A : Type ℓ} where
  abbrev pub length : List A → ℕ
  length [] = 0
  length (x ∷ xs) = suc (length xs)

  -- xs.length > 0
  abbrev pub non_empty : List A → Bool
  non_empty [] = false
  non_empty (x ∷ xs) = true

  -- Array.prototype.filter, some and every.
  abbrev pub filter : (A → Bool) → List A → List A
  filter p [] = []
  filter p (x ∷ xs) = let rest = filter p xs in if p x then x ∷ rest else rest

  abbrev pub any : (A → Bool) → List A → Bool
  any p [] = false
  any p (x ∷ xs) = p x || any p xs

  abbrev pub all : (A → Bool) → List A → Bool
  all p [] = true
  all p (x ∷ xs) = p x && all p xs

module _ {ℓ} {A : Type ℓ} where
  pub length-append : (xs ys : List A) → length (xs ++ ys) ≡ length xs + length ys
  length-append [] ys = omega arith
  length-append (x ∷ xs) ys = omega (arith, length-append xs ys)

  pub length-filter-le : (p : A → Bool) (xs : List A) → length (filter p xs) ≤ length xs
  length-filter-le p [] = omega arith
  length-filter-le p (x ∷ xs) = ground (arith, length-filter-le p xs)

module _ {A : Type 0} where
  -- The element stands in the list; a proof says where.
  abbrev pub In : A → List A → Type 0
  In a [] = ⊥
  In a (x ∷ xs) = (x ≡ a) ⊎ In a xs

module _ {A : Type 0} where
  pub In-append_left : (a : A) (xs ys : List A) → In a xs → In a (xs ++ ys)
  In-append_left a [] ys h = absurd h
  In-append_left a (x ∷ xs) ys (inl e) = inl e
  In-append_left a (x ∷ xs) ys (inr h) = inr (In-append_left a xs ys h)

  pub In-append_right : (a : A) (xs ys : List A) → In a ys → In a (xs ++ ys)
  In-append_right a [] ys h = h
  In-append_right a (x ∷ xs) ys h = inr (In-append_right a xs ys h)

  pub In-append : (a : A) (xs ys : List A) → In a (xs ++ ys) → In a xs ⊎ In a ys
  In-append a [] ys h = inr h
  In-append a (x ∷ xs) ys (inl e) = inl (inl e)
  In-append a (x ∷ xs) ys (inr h) = elim (In-append a xs ys h) [
    | inl l ↦ inl (inr l)
    | inr r ↦ inr r
  ]

  In-filter_step :
      (p : A → Bool) (a x : A) (xs : List A)
      → (In a (filter p xs) → In a xs × (p a ≡ true))
      → In a (filter p (x ∷ xs))
      → In a (x ∷ xs) × (p a ≡ true)
  In-filter_step p a x xs ih h = elim (Bool-cases (p x)) [
    | inl t ↦ elim (rw t at h) [ inl e ↦ (inl e, rw (← e) t) | inr m ↦ (inr (ih m).0, (ih m).1) ]
    | inr f ↦ let m = rw f at h in (inr (ih m).0, (ih m).1)
  ]

  pub In-filter : (p : A → Bool) (a : A) (xs : List A) → In a (filter p xs) → In a xs × (p a ≡ true)
  In-filter p a [] h = absurd h
  In-filter p a (x ∷ xs) h = In-filter_step p a x xs (In-filter p a xs) h

  pub filter-In : (p : A → Bool) (a : A) (xs : List A) → In a xs → p a ≡ true → In a (filter p xs)
  filter-In p a [] h e = absurd h
  filter-In p a (x ∷ xs) (inl q) e = let t : p x ≡ true = rw q e in rw t (inl q)
  filter-In p a (x ∷ xs) (inr m) e = elim (Bool-cases (p x)) [
    | inl t ↦ rw t (inr (filter-In p a xs m e))
    | inr f ↦ rw f (filter-In p a xs m e)
  ]

module _ {A : Type 0} where
  pub non_empty-append : (xs ys : List A) → non_empty (xs ++ ys) ≡ (non_empty xs || non_empty ys)
  non_empty-append [] ys = refl
  non_empty-append (x ∷ xs) ys = refl

  pub non_empty-filter : (p : A → Bool) (xs : List A) → non_empty (filter p xs) ≡ any p xs
  non_empty-filter p [] = refl
  non_empty-filter p (x ∷ xs) = elim (Bool-cases (p x)) [
    | inl t ↦ rw t
    | inr f ↦ rw f (non_empty-filter p xs)
  ]

  -- No element passes the test.
  pub any-false : (p : A → Bool) (xs : List A) → any p xs ≡ false → (x : A) → In x xs → p x ≡ false
  any-false p [] h x at = absurd at
  any-false p (y ∷ xs) h x (inl e) = let t : p y ≡ false = ground arith in rw (← e) t
  any-false p (y ∷ xs) h x (inr at) = any-false p xs (ground arith) x at

  pub false-any :
      (p : A → Bool) (xs : List A) → ((x : A) → In x xs → p x ≡ false) → any p xs ≡ false
  false-any p [] h = refl
  false-any p (y ∷ xs) h = rw (h y (inl refl)) (false-any p xs (λ x at. h x (inr at)))

module _ {A B : Type 0} where
  pub non_empty-map : (f : A → B) (xs : List A) → non_empty (map f xs) ≡ non_empty xs
  non_empty-map f [] = refl
  non_empty-map f (x ∷ xs) = refl
