-- ===== src/StateFields/RoundTrip/Again.antt =====
-- A field that is replaced, in either of its forms, is read back.
use sagasmith.Common.{
  ℕ, true, false, Option, none, some, [], ◌∷◌, Str, non_empty, ◌⊎◌, ◌≡◌, refl, ap, sym, ◌∙◌, inl,
  inr,
}
use sagasmith.Common.Spaces.{trim}
use sagasmith.Frontmatter.Shape.{is_line}
use sagasmith.StateFields.{
  value_or, first_value, replace_value, bold, plain, state_extract_field, state_replace_field,
}
use sagasmith.StateFields.RoundTrip.Found.{some_same, found-replaced, replaced-found}

plain_named : (field : Str) → non_empty (plain field) ≡ true
plain_named [] = refl
plain_named (c ∷ field) = refl

maybe : (o : Option Str) → (o ≡ none) ⊎ ((s : Str) × (o ≡ some s))
maybe none = inl refl
maybe (some s) = inr (s, refl)

read_again :
    (fold : ℕ → ℕ) (content field v out : Str)
    → is_line v ≡ true
    → non_empty (trim v) ≡ true
    → (replace_value fold false (bold field) v true content ≡ none
        → first_value fold false (bold field) true out ≡ none)
    → state_replace_field fold content field v ≡ some out
    → state_extract_field fold out field ≡ some (trim v)
unfolding state_extract_field state_replace_field
read_again fold content field v out l t apart e =
    elim (maybe (replace_value fold false (bold field) v true content)) [
      | inr (s, q) ↦
          let same = some_same s out (
            sym (ap (λ o. value_or o (replace_value fold true (plain field) v true content)) q)
            ∙ e) in
          rw (found-replaced fold false (bold field) v true content out refl l t (q ∙ ap some same))
            refl
      | inl q ↦ rw (apart q) (
          found-replaced fold true (plain field) v true content out (plain_named field) l t (
            sym (ap (λ o. value_or o (replace_value fold true (plain field) v true content)) q)
            ∙ e))
    ]

value_or-some : (o p : Option Str) (s : Str) → p ≡ some s → (t : Str) × (value_or o p ≡ some t)
value_or-some none p s e = (s, e)
value_or-some (some t) p s e = (t, refl)

replaceable :
    (fold : ℕ → ℕ) (content field v x : Str)
    → state_extract_field fold content field ≡ some x
    → (out : Str) × (state_replace_field fold content field v ≡ some out)
unfolding state_extract_field state_replace_field
replaceable fold content field v x e =
    elim (maybe (first_value fold false (bold field) true content)) [
      | inr (s, q) ↦
          let (out, r) = replaced-found fold false (bold field) v true content s q in
          (out, ap (λ o. value_or o (replace_value fold true (plain field) v true content)) r)
      | inl q ↦
          let (out, r) =
            replaced-found fold true (plain field) v true content x (
              sym (ap (λ o. value_or o (first_value fold true (plain field) true content)) q)
              ∙ e) in
          value_or-some (replace_value fold false (bold field) v true content)
            (replace_value fold true (plain field) v true content) out r
    ]

-- A field of STATE.md that can be read can be replaced, and where the new value is on one line and
-- not all white space, it reads back without its outer white space, provided that a file without
-- the bold form of the field gets none by the new value.
pub state_extract_field-state_replace_field :
    (fold : ℕ → ℕ) (content field v x : Str)
    → is_line v ≡ true
    → non_empty (trim v) ≡ true
    → state_extract_field fold content field ≡ some x
    → ((out : Str)
        → state_replace_field fold content field v ≡ some out
        → replace_value fold false (bold field) v true content ≡ none
        → first_value fold false (bold field) true out ≡ none)
    → (out : Str) × (state_replace_field fold content field v ≡ some out)
      × (state_extract_field fold out field ≡ some (trim v))
state_extract_field-state_replace_field fold content field v x l t e apart =
    let (out, r) = replaceable fold content field v x e in
    (out, r, read_again fold content field v out l t (apart out r) r)
