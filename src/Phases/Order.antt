-- ===== src/Phases/Order.antt =====
-- The order of `comparePhaseNum`.
use sagasmith.Common.{
  ℕ, ◌≡◌, refl, Bool, true, false, Option, none, some, List, [], ◌∷◌, map, arith, Str, Option-cases,
  inl, inr,
}
use sagasmith.Phases.{
  Phase, strip_code, parse_phase, value, upper, Sign, before, same, after, compare_nat, or_next,
  compare_letters, compare_padded, compare_parts, compare_phases, compare_phase_num,
}
use sagasmith.Phases.Normal.{compare_of}

abbrev pub flip : Sign → Sign
flip before = after
flip same = same
flip after = before

-- Not after: the signs at most 0.
abbrev pub not_after : Sign → Bool
not_after before = true
not_after same = true
not_after after = false

or_next-flip : (x y : Sign) → or_next (flip x) (flip y) ≡ flip (or_next x y)
unfolding or_next
or_next-flip before y = refl
or_next-flip same y = refl
or_next-flip after y = refl

compare_nat-flip : (a b : ℕ) → compare_nat b a ≡ flip (compare_nat a b)
unfolding compare_nat
compare_nat-flip a b = ground arith

compare_letters-flip : (a b : Option ℕ) → compare_letters b a ≡ flip (compare_letters a b)
unfolding compare_letters
compare_letters-flip none none = refl
compare_letters-flip none (some b) = refl
compare_letters-flip (some a) none = refl
compare_letters-flip (some a) (some b) = compare_nat-flip (upper a) (upper b)

-- One step of the loop over the parts.
step-flip :
    (a b : ℕ) (r r' : Sign)
    → r' ≡ flip r
    → or_next (compare_nat b a) r' ≡ flip (or_next (compare_nat a b) r)
step-flip a b r r' h = rw (h, compare_nat-flip a b) (or_next-flip (compare_nat a b) r)

compare_padded-flip : (xs ys : List ℕ) → compare_padded ys xs ≡ flip (compare_padded xs ys)
unfolding compare_padded
compare_padded-flip [] [] = refl
compare_padded-flip [] (y ∷ ys) = step-flip 0 y _ _ (compare_padded-flip [] ys)
compare_padded-flip (x ∷ xs) [] = step-flip x 0 _ _ (compare_padded-flip xs [])
compare_padded-flip (x ∷ xs) (y ∷ ys) = step-flip x y _ _ (compare_padded-flip xs ys)

compare_parts-flip : (xs ys : List ℕ) → compare_parts ys xs ≡ flip (compare_parts xs ys)
unfolding compare_parts
compare_parts-flip [] [] = refl
compare_parts-flip [] (y ∷ ys) = refl
compare_parts-flip (x ∷ xs) [] = refl
compare_parts-flip (x ∷ xs) (y ∷ ys) = compare_padded-flip (x ∷ xs) (y ∷ ys)

compare_phases-flip : (p q : Phase) → compare_phases q p ≡ flip (compare_phases p q)
unfolding compare_phases
compare_phases-flip p q = step-flip (value p.digits) (value q.digits) _ _ (
    rw
      (
        compare_letters-flip p.letter q.letter,
        compare_parts-flip (map value p.parts) (map value q.parts),
      )
      (or_next-flip (compare_letters p.letter q.letter)
        (compare_parts (map value p.parts) (map value q.parts))))

-- How the signs for the pairs `(a, b)`, `(b, c)` and `(a, c)` hang together where the comparison is a
-- total preorder.
record Chains (x y z : Sign) : Type 0 where
  left_same : x ≡ same → z ≡ y
  right_same : y ≡ same → z ≡ x
  both_before : x ≡ before → y ≡ before → z ≡ before

not_after-Chains :
    (x y z : Sign) → Chains x y z → not_after x ≡ true → not_after y ≡ true → not_after z ≡ true
not_after-Chains x y z c h k =
    let l = c.left_same in let r = c.right_same in let b = c.both_before in ground arith

-- A comparison by one key and then by another keeps the property.
or_next-Chains :
    (x y z u v w : Sign)
    → Chains x y z
    → Chains u v w
    → Chains (or_next x u) (or_next y v) (or_next z w)
unfolding or_next
or_next-Chains x y z u v w c d =
    let l = c.left_same in
    let r = c.right_same in
    let b = c.both_before in
    let l' = d.left_same in
    let r' = d.right_same in
    let b' = d.both_before in
    record {
      left_same = λ h. ground arith;
      right_same = λ h. ground arith;
      both_before = λ h k. ground arith;
    }

compare_nat-Chains : (a b c : ℕ) → Chains (compare_nat a b) (compare_nat b c) (compare_nat a c)
unfolding compare_nat
compare_nat-Chains a b c = record {
  left_same = λ h. ground arith;
  right_same = λ h. ground arith;
  both_before = λ h k. ground arith;
}

compare_letters-Chains :
    (a b c : Option ℕ) → Chains (compare_letters a b) (compare_letters b c) (compare_letters a c)
unfolding compare_letters
compare_letters-Chains (some a) (some b) (some c) = compare_nat-Chains (upper a) (upper b) (upper c)
compare_letters-Chains a b c = record {
  left_same = λ h. ground arith;
  right_same = λ h. ground arith;
  both_before = λ h k. ground arith;
}

compare_padded-Chains :
    (xs ys zs : List ℕ)
    → Chains (compare_padded xs ys) (compare_padded ys zs) (compare_padded xs zs)
unfolding compare_padded compare_nat or_next
compare_padded-Chains [] [] [] = record {
  left_same = λ h. refl;
  right_same = λ h. refl;
  both_before = λ h k. h;
}
compare_padded-Chains [] [] (z ∷ zs) =
    or_next-Chains _ _ _ _ _ _ (compare_nat-Chains 0 0 z) (compare_padded-Chains [] [] zs)
compare_padded-Chains [] (y ∷ ys) [] =
    or_next-Chains _ _ _ _ _ _ (compare_nat-Chains 0 y 0) (compare_padded-Chains [] ys [])
compare_padded-Chains [] (y ∷ ys) (z ∷ zs) =
    or_next-Chains _ _ _ _ _ _ (compare_nat-Chains 0 y z) (compare_padded-Chains [] ys zs)
compare_padded-Chains (x ∷ xs) [] [] =
    or_next-Chains _ _ _ _ _ _ (compare_nat-Chains x 0 0) (compare_padded-Chains xs [] [])
compare_padded-Chains (x ∷ xs) [] (z ∷ zs) =
    or_next-Chains _ _ _ _ _ _ (compare_nat-Chains x 0 z) (compare_padded-Chains xs [] zs)
compare_padded-Chains (x ∷ xs) (y ∷ ys) [] =
    or_next-Chains _ _ _ _ _ _ (compare_nat-Chains x y 0) (compare_padded-Chains xs ys [])
compare_padded-Chains (x ∷ xs) (y ∷ ys) (z ∷ zs) =
    or_next-Chains _ _ _ _ _ _ (compare_nat-Chains x y z) (compare_padded-Chains xs ys zs)

compare_parts-Chains :
    (xs ys zs : List ℕ) → Chains (compare_parts xs ys) (compare_parts ys zs) (compare_parts xs zs)
unfolding compare_parts
compare_parts-Chains (x ∷ xs) (y ∷ ys) (z ∷ zs) = compare_padded-Chains (x ∷ xs) (y ∷ ys) (z ∷ zs)
compare_parts-Chains xs ys zs = record {
  left_same = λ h. ground arith;
  right_same = λ h. ground arith;
  both_before = λ h k. ground arith;
}

compare_phases-Chains :
    (p q r : Phase) → Chains (compare_phases p q) (compare_phases q r) (compare_phases p r)
unfolding compare_phases
compare_phases-Chains p q r =
    or_next-Chains _ _ _ _ _ _
      (compare_nat-Chains (value p.digits) (value q.digits) (value r.digits))
      (or_next-Chains _ _ _ _ _ _ (compare_letters-Chains p.letter q.letter r.letter)
        (compare_parts-Chains (map value p.parts) (map value q.parts) (map value r.parts)))

module _ (locale_compare : Str → Str → Sign) where
  compare_custom_left :
      (a b : Str)
      → parse_phase (strip_code a) ≡ none
      → compare_phase_num locale_compare a b ≡ locale_compare a b
  unfolding compare_phase_num
  compare_custom_left a b h = ground arith

  compare_custom_right :
      (a b : Str)
      → parse_phase (strip_code b) ≡ none
      → compare_phase_num locale_compare a b ≡ locale_compare a b
  unfolding compare_phase_num
  compare_custom_right a b h = ground arith

  -- Where the locale's comparison changes its sign with its arguments swapped, so does that of any two
  -- phase names, custom ones included.
  pub compare_phase_num-flip :
      (a b : Str)
      → ((s t : Str) → locale_compare t s ≡ flip (locale_compare s t))
      → compare_phase_num locale_compare b a ≡ flip (compare_phase_num locale_compare a b)
  compare_phase_num-flip a b anti = elim (Option-cases (parse_phase (strip_code a))) [
    | inl h ↦ rw (compare_custom_left a b h, compare_custom_right b a h) (anti a b)
    | inr (p, h) ↦ elim (Option-cases (parse_phase (strip_code b))) [
      | inl k ↦ rw (compare_custom_left b a k, compare_custom_right a b k) (anti a b)
      | inr (q, k) ↦
          rw (compare_of locale_compare a b p q h k, compare_of locale_compare b a q p k h)
            (compare_phases-flip p q)
    ]
  ]

  -- Among names that are phase numbers, perhaps behind a project code, a name that does not come
  -- after a second, which does not come after a third, does not come after the third.
  pub compare_phase_num_trans :
      (a b c : Str) (p q r : Phase)
      → parse_phase (strip_code a) ≡ some p
      → parse_phase (strip_code b) ≡ some q
      → parse_phase (strip_code c) ≡ some r
      → not_after (compare_phase_num locale_compare a b) ≡ true
      → not_after (compare_phase_num locale_compare b c) ≡ true
      → not_after (compare_phase_num locale_compare a c) ≡ true
  compare_phase_num_trans a b c p q r h k l =
      rw
        (
          compare_of locale_compare a b p q h k,
          compare_of locale_compare b c q r k l,
          compare_of locale_compare a c p r h l,
        )
        (not_after-Chains _ _ _ (compare_phases-Chains p q r))
