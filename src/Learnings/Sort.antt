-- ===== src/Learnings/Sort.antt =====
-- The order of `learningsList`.
use sagasmith.Common.{
  ℕ, ◌≡◌, true, false, Option, some, List, [], ◌∷◌, ◌++◌, arith, Str, Bool-cases, inl, inr,
}
use mathlib.Core.List.{Perm, append-nil, perm_middle}
use mathlib.Core.List.Perm
use sagasmith.Learnings.{
  Learning, Store, files_of, records, newer, insert, sort_onto, learnings_list,
}

abbrev pub All : (Learning → Type 0) → List Learning → Type 0
All P [] = Unit
All P (x ∷ xs) = P x × All P xs

module _ (parse_date : Str → Option ℕ) where
  -- The date of a record parses.
  abbrev pub IsDated : Learning → Type 0
  IsDated r = (t : ℕ) × (parse_date r.date ≡ some t)

  -- No record is newer than one before it.
  abbrev pub NewestFirst : List Learning → Type 0
  NewestFirst [] = Unit
  NewestFirst (x ∷ xs) = All (λ y. newer parse_date y x ≡ false) xs × NewestFirst xs

  insert-perm : (x : Learning) (ys : List Learning) → Perm (insert parse_date x ys) (x ∷ ys)
  unfolding insert
  insert-perm x [] = Perm.refl (x ∷ [])
  insert-perm x (y ∷ ys) = elim (Bool-cases (newer parse_date x y)) [
    | inl t ↦ rw t (Perm.refl (x ∷ y ∷ ys))
    | inr f ↦ rw f (Perm.trans (Perm.cons y (insert-perm x ys)) (Perm.swap x y ys))
  ]

  sort_onto-perm :
      (sorted xs : List Learning) → Perm (sort_onto parse_date sorted xs) (sorted ++ xs)
  unfolding sort_onto
  sort_onto-perm sorted [] = rw append-nil (Perm.refl sorted)
  sort_onto-perm sorted (x ∷ xs) = Perm.trans (sort_onto-perm (insert parse_date x sorted) xs) (
      Perm.trans (Perm.append (insert-perm x sorted) (Perm.refl xs))
        (Perm.symm (perm_middle sorted xs)))

  -- Among dated records, what is not newer than `y` is older than what is newer than `y`.
  newer_below :
      (x y z : Learning)
      → IsDated x
      → IsDated y
      → IsDated z
      → newer parse_date x y ≡ true
      → newer parse_date z y ≡ false
      → newer parse_date z x ≡ false
  unfolding newer
  newer_below x y z (s, p) (t, q) (u, r) a b = ground arith

  insert-All :
      (P : Learning → Type 0) (x : Learning) (ys : List Learning)
      → P x
      → All P ys
      → All P (insert parse_date x ys)
  unfolding insert
  insert-All P x [] p h = (p, tt)
  insert-All P x (y ∷ ys) p (q, h) = elim (Bool-cases (newer parse_date x y)) [
    | inl t ↦ rw t (p, (q, h))
    | inr f ↦ rw f (q, insert-All P x ys p h)
  ]

  All-map :
      (P Q : Learning → Type 0) (ys : List Learning)
      → ((y : Learning) → P y → Q y)
      → All P ys
      → All Q ys
  All-map P Q [] f h = tt
  All-map P Q (y ∷ ys) f (p, h) = (f y p, All-map P Q ys f h)

  -- What is newer than the head of a sorted list has nothing newer behind it.
  newer_than_rest :
      (x y : Learning) (ys : List Learning)
      → IsDated x
      → IsDated y
      → All IsDated ys
      → newer parse_date x y ≡ true
      → All (λ z. newer parse_date z y ≡ false) ys
      → All (λ z. newer parse_date z x ≡ false) ys
  newer_than_rest x y [] dx dy ds a h = tt
  newer_than_rest x y (z ∷ ys) dx dy (dz, ds) a (b, h) =
      (newer_below x y z dx dy dz a b, newer_than_rest x y ys dx dy ds a h)

  newer_asym : (x y : Learning) → newer parse_date x y ≡ true → newer parse_date y x ≡ false
  unfolding newer
  newer_asym x y a = ground arith

  insert-NewestFirst :
      (x : Learning) (ys : List Learning)
      → IsDated x
      → All IsDated ys
      → NewestFirst ys
      → NewestFirst (insert parse_date x ys)
  unfolding insert
  insert-NewestFirst x [] dx ds h = (tt, tt)
  insert-NewestFirst x (y ∷ ys) dx (dy, ds) (low, h) = elim (Bool-cases (newer parse_date x y)) [
    | inl t ↦ rw t ((newer_asym x y t, newer_than_rest x y ys dx dy ds t low), (low, h))
    | inr f ↦
        rw f (
          insert-All (λ z. newer parse_date z y ≡ false) x ys f low,
          insert-NewestFirst x ys dx ds h,
        )
  ]

  sort_onto-NewestFirst :
      (sorted xs : List Learning)
      → All IsDated sorted
      → All IsDated xs
      → NewestFirst sorted
      → NewestFirst (sort_onto parse_date sorted xs)
  unfolding sort_onto
  sort_onto-NewestFirst sorted [] ds d h = h
  sort_onto-NewestFirst sorted (x ∷ xs) ds (dx, d) h =
      sort_onto-NewestFirst (insert parse_date x sorted) xs (insert-All IsDated x sorted dx ds) d
        (insert-NewestFirst x sorted dx ds h)

  -- Where the dates of all readable records of the store parse, the listing is a permutation of these
  -- records in which no record stands behind one that it is newer than.
  pub learnings_list-NewestFirst :
      (st : Store)
      → All IsDated (records (files_of st))
      → Perm (learnings_list parse_date st) (records (files_of st))
        × NewestFirst (learnings_list parse_date st)
  unfolding learnings_list
  learnings_list-NewestFirst st d = (
    sort_onto-perm [] (records (files_of st)),
    sort_onto-NewestFirst [] (records (files_of st)) tt d tt,
  )
