-- ===== src/StateFields/RoundTrip.antt =====
-- A field is read back as it was written.
pub mod Found
pub mod Again
use mathlib.Core.List.{append_assoc}
use sagasmith.Common.{
  ℕ, suc, ◌==◌, ◌||◌, ◌&&◌, leb, length, Bool, true, false, not, Option, none, some, List, [], ◌∷◌,
  ◌++◌, Str, str, any, all, non_empty, if◌then◌else◌, ◌≡◌, refl, ap, sym, ◌∙◌, arith, Bool-cases,
  inl, inr, true_not_false, and-eq-true, not-eq-true,
}
use sagasmith.Common.Regex.{is_space}
use sagasmith.Common.Spaces.{trim_start, trim_end, trim}
use sagasmith.Frontmatter.Lines.{is_terminator, up_to_terminator}
use sagasmith.Frontmatter.Shape.{is_line}
use sagasmith.StateFields.{
  Split, onto, literal, spaces, from_terminator, value_at, allowed, value_or, value_of_split,
  first_value, extended, with_value, replace_value, bold, plain, state_extract_field,
  state_replace_field,
}

abbrev pub taken : Split → Str
taken none = []
taken (some (m, r)) = m

abbrev left : Split → Str
left none = []
left (some (m, r)) = r

pub onto-some :
    (c : ℕ) (o : Split) (m r : Str)
    → onto c o ≡ some (m, r)
    → (k : Str) × (o ≡ some (k, r)) × (m ≡ c ∷ k)
onto-some c none m r e = absurd cc
onto-some c (some (k, q)) m r e = (k, ap (λ t. some (k, t)) (ap left e), sym (ap taken e))

onto_none : (c : ℕ) (o : Split) → onto c o ≡ none → o ≡ none
onto_none c none e = refl
onto_none c (some (k, q)) e = absurd cc

-- The literal is found again before any other rest.
pub literal-append :
    (fold : ℕ → ℕ) (s name m r t : Str)
    → literal fold s name ≡ some (m, r)
    → literal fold (m ++ t) name ≡ some (m, t)
unfolding literal
literal-append fold s [] m r t e = rw (sym (ap taken e)) refl
literal-append fold [] (d ∷ name) m r t e = absurd cc
literal-append fold (c ∷ s) (d ∷ name) m r t e = elim (Bool-cases (fold c == fold d)) [
  | inl y ↦
      let (k, q, n) =
        onto-some c (literal fold s name) m r
          (ap (λ b. if b then onto c (literal fold s name) else none) (sym y) ∙ e) in
      rw (n, y, literal-append fold s name k r t q) refl
  | inr n ↦
      let never : none ≡ some (m, r) =
        ap (λ b. if b then onto c (literal fold s name) else none) (sym n) ∙ e in
      absurd cc
]

-- It is absent where it was, when as much of the text as its length is the same.
pub literal_absent :
    (fold : ℕ → ℕ) (p a b name : Str)
    → leb (length name) (length p) ≡ true
    → literal fold (p ++ a) name ≡ none
    → literal fold (p ++ b) name ≡ none
unfolding literal
literal_absent fold p a b [] l e = absurd cc
literal_absent fold [] a b (d ∷ name) l e = absurd (ground arith)
literal_absent fold (c ∷ p) a b (d ∷ name) l e = elim (Bool-cases (fold c == fold d)) [
  | inl y ↦
      let inner =
        onto_none c (literal fold (p ++ a) name)
          (ap (λ b. if b then onto c (literal fold (p ++ a) name) else none) (sym y) ∙ e) in
      rw (y, literal_absent fold p a b name (ground arith) inner) refl
  | inr n ↦ rw n refl
]

trim_start-spaces : (r t : Str) → trim_start (spaces r ++ t) ≡ trim_start t
unfolding trim_start spaces
trim_start-spaces [] t = refl
trim_start-spaces (c ∷ r) t = elim (Bool-cases (is_space c)) [
  | inl y ↦ rw y (rw y (trim_start-spaces r t))
  | inr n ↦ rw n refl
]

trim_start-append :
    (v t : Str) → non_empty (trim_start v) ≡ true → trim_start (v ++ t) ≡ trim_start v ++ t
unfolding trim_start
trim_start-append [] t h = absurd (true_not_false h refl)
trim_start-append (c ∷ v) t h = elim (Bool-cases (is_space c)) [
  | inl y ↦
      rw y (
        trim_start-append v t (ap (λ b. non_empty (if b then trim_start v else c ∷ v)) (sym y) ∙ h))
  | inr n ↦ rw n refl
]

trim_start_twice : (v : Str) → trim_start (trim_start v) ≡ trim_start v
unfolding trim_start
trim_start_twice [] = refl
trim_start_twice (c ∷ v) = elim (Bool-cases (is_space c)) [
  | inl y ↦ rw y (trim_start_twice v)
  | inr n ↦ rw n (rw n refl)
]

trim_start-is_line : (v : Str) → is_line v ≡ true → is_line (trim_start v) ≡ true
unfolding trim_start
trim_start-is_line [] h = refl
trim_start-is_line (c ∷ v) h = elim (Bool-cases (is_space c)) [
  | inl y ↦ rw y (trim_start-is_line v (and-eq-true (not (is_terminator c)) (is_line v) h).1)
  | inr n ↦ rw n h
]

up_to_terminator-from_terminator : (t : Str) → up_to_terminator (from_terminator t) ≡ []
unfolding up_to_terminator from_terminator
up_to_terminator-from_terminator [] = refl
up_to_terminator-from_terminator (c ∷ t) = elim (Bool-cases (is_terminator c)) [
  | inl y ↦ rw y (rw y refl)
  | inr n ↦ rw n (up_to_terminator-from_terminator t)
]

up_to_terminator-append :
    (w t : Str) → is_line w ≡ true → up_to_terminator (w ++ from_terminator t) ≡ w
unfolding up_to_terminator
up_to_terminator-append [] t h = up_to_terminator-from_terminator t
up_to_terminator-append (c ∷ w) t h =
    let (e, r) = and-eq-true (not (is_terminator c)) (is_line w) h in
    rw (not-eq-true (is_terminator c) e, up_to_terminator-append w t r) refl

non_empty-append : (w t : Str) → non_empty w ≡ true → non_empty (w ++ t) ≡ true
non_empty-append [] t h = absurd (true_not_false h refl)
non_empty-append (c ∷ w) t h = refl

trimmed_end : (w : Str) → non_empty (trim_end w) ≡ true → non_empty w ≡ true
unfolding trim_end
trimmed_end [] h = h
trimmed_end (c ∷ w) h = refl

pub value_at-written :
    (r v : Str)
    → is_line v ≡ true
    → non_empty (trim v) ≡ true
    → value_at (spaces r ++ (v ++ from_terminator (trim_start r))) ≡ some (trim v)
unfolding value_at trim
value_at-written r v l h =
    let seen = trimmed_end (trim_start v) h in
    let t = from_terminator (trim_start r) in
    rw
      (
        trim_start-spaces r (v ++ t),
        trim_start-append v t seen,
        non_empty-append (trim_start v) t seen,
        up_to_terminator-append (trim_start v) (trim_start r) (trim_start-is_line v l),
        trim_start_twice v,
      )
      refl
