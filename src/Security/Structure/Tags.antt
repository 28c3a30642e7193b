-- ===== src/Security/Structure/Tags.antt =====
-- The tags of a text.
use sagasmith.Common.{
  ◌≡◌, ◌↔◌, ◌≢◌, refl, ap, ◌∙◌, Bool, true, false, ◌&&◌, not, [], ◌∷◌, ◌++◌, filter, any, all, ◌==◌,
  ==_iff, arith, ℕ, Str, non_empty, if◌then◌else◌, In, Bool-cases, inl, inr, not-eq-true,
  and-eq-true, non_empty-map, non_empty-filter, any-false, false-any,
}
use sagasmith.Security.Structure.{
  FileType, agent, workflow, other, is_tag_char, name_at, starts_letter, tags_of, known,
  violations_of, validate_prompt_structure,
}

-- The text holds the name behind a `<`: it starts with a letter, and no character of a name follows.
pub record OpeningTagIn (text name : Str) : Type 0 where
  pub front : Str
  pub back : Str
  pub placed : text ≡ front ++ b'<' ∷ (name ++ back)
  pub letter : starts_letter name ≡ true
  pub of_name : all is_tag_char name ≡ true
  pub ended : name_at back ≡ []

-- What follows the name.
after_name : Str → Str
after_name [] = []
after_name (c ∷ s) = let rest = after_name s in if is_tag_char c then rest else c ∷ s

name_parts :
    (s : Str)
    → (s ≡ name_at s ++ after_name s)
      × (all is_tag_char (name_at s) ≡ true)
      × (name_at (after_name s) ≡ [])
unfolding name_at after_name
name_parts [] = (refl, refl, refl)
name_parts (c ∷ s) =
    let (e, a, n) = name_parts s in
    elim (Bool-cases (is_tag_char c)) [
      | inl t ↦ rw t (ap (◌∷◌ c) e, rw t a, n)
      | inr f ↦ rw f (refl, refl, rw f refl)
    ]

name-append :
    (name back : Str)
    → all is_tag_char name ≡ true
    → name_at back ≡ []
    → name_at (name ++ back) ≡ name
unfolding name_at
name-append [] back h e = e
name-append (c ∷ name) back h e = ground (arith, name-append name back)

letter_name : (s : Str) → starts_letter s ≡ true → starts_letter (name_at s) ≡ true
unfolding name_at
letter_name [] h = absurd (ground arith)
letter_name (c ∷ s) h = ground arith

name_letter : (name back : Str) → starts_letter name ≡ true → starts_letter (name ++ back) ≡ true
name_letter [] back h = absurd (ground arith)
name_letter (c ∷ name) back h = h

tag_here : (s : Str) → starts_letter s ≡ true → OpeningTagIn (b'<' ∷ s) (name_at s)
tag_here s h =
    let (e, a, n) = name_parts s in
    record {
      front = [];
      back = after_name s;
      placed = ap (◌∷◌ b'<') e;
      letter = letter_name s h;
      of_name = a;
      ended = n;
    }

tag_later : (c : ℕ) (s name : Str) → OpeningTagIn s name → OpeningTagIn (c ∷ s) name
tag_later c s name t = record {
  front = c ∷ t.front;
  back = t.back;
  placed = ap (◌∷◌ c) t.placed;
  letter = t.letter;
  of_name = t.of_name;
  ended = t.ended;
}

tags_sound : (text name : Str) → In name (tags_of text) → OpeningTagIn text name
unfolding tags_of
tags_sound [] name at = absurd at
tags_sound (c ∷ s) name at = elim (Bool-cases ((c == b'<') && starts_letter s)) [
  | inl t ↦
      let (q, l) = and-eq-true (c == b'<') (starts_letter s) t in
      elim (rw t at at) [
        | inl e ↦ rw (← e, (==_iff c b'<').0 q) (tag_here s l)
        | inr later ↦ tag_later c s name (tags_sound s name later)
      ]
  | inr f ↦ tag_later c s name (tags_sound s name (rw f at at))
]

tags_complete :
    (front name back : Str)
    → starts_letter name ≡ true
    → all is_tag_char name ≡ true
    → name_at back ≡ []
    → In name (tags_of (front ++ b'<' ∷ (name ++ back)))
unfolding tags_of
tags_complete [] name back l a e = rw (name_letter name back l) (inl (name-append name back a e))
tags_complete (c ∷ front) name back l a e =
    let s = front ++ b'<' ∷ (name ++ back) in
    let ih = tags_complete front name back l a e in
    elim (Bool-cases ((c == b'<') && starts_letter s)) [ inl t ↦ rw t (inr ih) | inr f ↦ rw f ih ]

OpeningTagIn-tags : (text name : Str) → OpeningTagIn text name → In name (tags_of text)
OpeningTagIn-tags text name t =
    rw (t.placed) (tags_complete t.front name t.back t.letter t.of_name t.ended)

no_violation :
    (type : FileType) (text : Str)
    → non_empty (violations_of type text) ≡ any (λ tag. not (known tag)) (tags_of text)
unfolding violations_of
no_violation type text =
    non_empty-map _ (filter (λ tag. not (known tag)) (tags_of text))
    ∙ non_empty-filter (λ tag. not (known tag)) (tags_of text)

-- Each tag of the text is known, in any case of its letters.
abbrev pub KnownOpeningTags : Str → Type 0
KnownOpeningTags text = (name : Str) → OpeningTagIn text name → known name ≡ true

eq-of_not : (b : Bool) → not b ≡ false → b ≡ true
eq-of_not b h = ground arith

known_iff :
    (type : FileType) (text : Str)
    → (not (non_empty (violations_of type text)) ≡ true) ↔ KnownOpeningTags text
known_iff type text = rw (no_violation type text) (
  λ h name t. eq-of_not (known name) (
      any-false (λ tag. not (known tag)) (tags_of text) (not-eq-true _ h) name
        (OpeningTagIn-tags text name t)),
  λ w.
      rw
        (false-any (λ tag. not (known tag)) (tags_of text)
          (λ name at. rw (w name (tags_sound text name at)) refl))
        refl,
)

-- An agent or workflow file is valid exactly where each tag name that stands directly behind a <
-- in it, in any case of its letters, is a known one; the name of a closing tag, behind </, is not
-- looked at.
pub validate_prompt_structure-valid_iff :
    (text : Str) (type : FileType)
    → type ≢ other
    → ((validate_prompt_structure text type).valid ≡ true) ↔ KnownOpeningTags text
unfolding validate_prompt_structure
validate_prompt_structure-valid_iff text agent n = known_iff agent text
validate_prompt_structure-valid_iff text workflow n = known_iff workflow text
validate_prompt_structure-valid_iff text other n = absurd (n refl)
