-- ===== src/StateFields/RoundTrip/Found.antt =====
-- The place where a field was replaced is the first one where it is found again.
use sagasmith.Common.{
  ℕ, suc, ◌==◌, leb, length, Bool, true, false, Option, none, some, [], ◌∷◌, ◌++◌, Str, non_empty,
  ◌⊎◌, if◌then◌else◌, ◌≡◌, refl, ap, sym, ◌∙◌, arith, Bool-cases, inl, inr, true_not_false,
}
use sagasmith.Common.Spaces.{trim_start, trim}
use sagasmith.Frontmatter.Lines.{is_terminator}
use sagasmith.Frontmatter.Shape.{is_line}
use sagasmith.StateFields.{
  Split, onto, literal, spaces, from_terminator, value_at, allowed, first_value, extended,
  replace_value,
}
use sagasmith.StateFields.RoundTrip.{
  taken, left, onto-some, literal-append, literal_absent, value_at-written,
}

Split-cases : (o : Split) → (o ≡ none) ⊎ ((m : Str) × (r : Str) × (o ≡ some (m, r)))
Split-cases none = inl refl
Split-cases (some (m, r)) = inr (m, r, refl)

extended-some :
    (c : ℕ) (o : Option Str) (out : Str)
    → extended c o ≡ some out
    → (rest : Str) × (o ≡ some rest) × (out ≡ c ∷ rest)
extended-some c none out e = absurd cc
extended-some c (some s) out e = (s, refl, cc)

-- A literal that was found is the start of the text, and as long as the name.
literal_parts :
    (fold : ℕ → ℕ) (s name m r : Str)
    → literal fold s name ≡ some (m, r)
    → (s ≡ m ++ r) × (length m ≡ length name)
unfolding literal
literal_parts fold s [] m r e = rw (sym (ap taken e)) (ap left e, refl)
literal_parts fold [] (d ∷ name) m r e = absurd cc
literal_parts fold (c ∷ s) (d ∷ name) m r e = elim (Bool-cases (fold c == fold d)) [
  | inl y ↦
      let (k, q, n) =
        onto-some c (literal fold s name) m r
          (ap (λ b. if b then onto c (literal fold s name) else none) (sym y) ∙ e) in
      let (start, same) = literal_parts fold s name k r q in rw n (ap (◌∷◌ c) start, ap suc same)
  | inr n ↦
      let never : none ≡ some (m, r) =
        ap (λ b. if b then onto c (literal fold s name) else none) (sym n) ∙ e in
      absurd cc
]

pub some_same : (x y : Str) → some x ≡ some y → x ≡ y
some_same x y e = cc

nowhere :
    (fold : ℕ → ℕ) (name m r : Str) → non_empty name ≡ true → literal fold [] name ≡ some (m, r) → ⊥
unfolding literal
nowhere fold [] m r n e = true_not_false n refl
nowhere fold (d ∷ name) m r n e = absurd cc

module _ (fold : ℕ → ℕ) (anchored : Bool) (name v : Str) where
  abbrev pub replaced : Bool → Str → Option Str
  replaced at_start s = replace_value fold anchored name v at_start s

  abbrev pub found : Bool → Str → Option Str
  found at_start s = first_value fold anchored name at_start s

  -- The pattern does not match at this place.
  abbrev pub Skips : Bool → Str → Type 0
  Skips at_start s = (allowed anchored at_start ≡ false) ⊎ (literal fold s name ≡ none)

  replaced_later :
      (at_start : Bool) (c : ℕ) (s : Str)
      → Skips at_start (c ∷ s)
      → replaced at_start (c ∷ s) ≡ extended c (replaced (is_terminator c) s)
  unfolding replace_value
  replaced_later at_start c s (inl h) = rw h refl
  replaced_later at_start c s (inr h) = elim (Bool-cases (allowed anchored at_start)) [
    | inl y ↦ rw (y, h) refl
    | inr n ↦ rw n refl
  ]

  found_later :
      (at_start : Bool) (c : ℕ) (s : Str)
      → Skips at_start (c ∷ s)
      → found at_start (c ∷ s) ≡ found (is_terminator c) s
  unfolding first_value
  found_later at_start c s (inl h) = rw h refl
  found_later at_start c s (inr h) = elim (Bool-cases (allowed anchored at_start)) [
    | inl y ↦ rw (y, h) refl
    | inr n ↦ rw n refl
  ]

  replaced_here :
      (at_start : Bool) (c : ℕ) (s m r : Str)
      → allowed anchored at_start ≡ true
      → literal fold (c ∷ s) name ≡ some (m, r)
      → replaced at_start (c ∷ s) ≡ some (m ++ (spaces r ++ (v ++ from_terminator (trim_start r))))
  unfolding replace_value
  replaced_here at_start c s m r h e = rw (h, e) refl

  found_here :
      (at_start : Bool) (s m r x : Str)
      → non_empty name ≡ true
      → allowed anchored at_start ≡ true
      → literal fold s name ≡ some (m, r)
      → value_at r ≡ some x
      → found at_start s ≡ some x
  unfolding first_value
  found_here at_start [] m r x n h e f = absurd (nowhere fold name m r n e)
  found_here at_start (c ∷ s) m r x n h e f = rw (h, e, f) refl

  place :
      (at_start : Bool) (s : Str)
      → Skips at_start s
        ⊎ ((allowed anchored at_start ≡ true)
            × ((m : Str) × (r : Str) × (literal fold s name ≡ some (m, r))))
  place at_start s = elim (Bool-cases (allowed anchored at_start)) [
    | inr n ↦ inl (inl n)
    | inl y ↦ elim (Split-cases (literal fold s name)) [ inl h ↦ inl (inr h) | inr h ↦ inr (y, h) ]
  ]

  -- The text is the same up to the end of the name that was found.
  replaced_prefix :
      (at_start : Bool) (s out : Str)
      → replaced at_start s ≡ some out
      → (p : Str) × (a : Str) × (b : Str) × (s ≡ p ++ a)
        × (out ≡ p ++ b)
        × (leb (length name) (length p) ≡ true)
  unfolding replace_value
  replaced_prefix at_start [] out e = absurd cc
  replaced_prefix at_start (c ∷ s) out e = elim (place at_start (c ∷ s)) [
    | inl skips ↦
        let (rest, q, o) =
          extended-some c (replaced (is_terminator c) s) out
            (sym (replaced_later at_start c s skips) ∙ e) in
        let (p, a, b, x, y, l) = replaced_prefix (is_terminator c) s rest q in
        (c ∷ p, a, b, ap (◌∷◌ c) x, o ∙ ap (◌∷◌ c) y, ground arith)
    | inr (h, (m, r, f)) ↦
        let (start, same) = literal_parts fold (c ∷ s) name m r f in
        (
          m,
          r,
          spaces r ++ (v ++ from_terminator (trim_start r)),
          start,
          some_same out (m ++ (spaces r ++ (v ++ from_terminator (trim_start r))))
              (sym e ∙ replaced_here at_start c s m r h f),
          ground arith,
        )
  ]

  Skips-still :
      (at_start : Bool) (c : ℕ) (s out : Str)
      → replaced (is_terminator c) s ≡ some out
      → Skips at_start (c ∷ s)
      → Skips at_start (c ∷ out)
  Skips-still at_start c s out e (inl h) = inl h
  Skips-still at_start c s out e (inr h) =
      let (p, a, b, x, y, l) = replaced_prefix (is_terminator c) s out e in
      inr (
        ap (λ t. literal fold (c ∷ t) name) y
        ∙ literal_absent fold (c ∷ p) a b name (ground arith)
            (ap (λ t. literal fold (c ∷ t) name) (sym x) ∙ h))

  pub found-replaced :
      (at_start : Bool) (s out : Str)
      → non_empty name ≡ true
      → is_line v ≡ true
      → non_empty (trim v) ≡ true
      → replaced at_start s ≡ some out
      → found at_start out ≡ some (trim v)
  unfolding replace_value
  found-replaced at_start [] out n l t e = absurd cc
  found-replaced at_start (c ∷ s) out n l t e = elim (place at_start (c ∷ s)) [
    | inl skips ↦
        let (rest, q, o) =
          extended-some c (replaced (is_terminator c) s) out
            (sym (replaced_later at_start c s skips) ∙ e) in
        ap (found at_start) o
        ∙ found_later at_start c rest (Skips-still at_start c s rest q skips)
        ∙ found-replaced (is_terminator c) s rest n l t q
    | inr (h, (m, r, f)) ↦
        let rest = spaces r ++ (v ++ from_terminator (trim_start r)) in
        ap (found at_start) (some_same out (m ++ rest) (sym e ∙ replaced_here at_start c s m r h f))
        ∙ found_here at_start (m ++ rest) m rest (trim v) n h
            (literal-append fold (c ∷ s) name m r rest f) (value_at-written r v l t)
  ]

  -- Where a value is found, one can be replaced.
  pub replaced-found :
      (at_start : Bool) (s x : Str)
      → found at_start s ≡ some x
      → (out : Str) × (replaced at_start s ≡ some out)
  unfolding first_value
  replaced-found at_start [] x e = absurd cc
  replaced-found at_start (c ∷ s) x e = elim (place at_start (c ∷ s)) [
    | inl skips ↦
        let (out, q) =
          replaced-found (is_terminator c) s x (sym (found_later at_start c s skips) ∙ e) in
        (c ∷ out, replaced_later at_start c s skips ∙ ap (extended c) q)
    | inr (h, (m, r, f)) ↦ (_, replaced_here at_start c s m r h f)
  ]
