-- ===== src/Markdown/Ends.antt =====
-- The runs of newlines and the end of a normalised file.
use sagasmith.Common.{
  ℕ, suc, ◌≤◌, ◌==◌, ==_iff, leb, ◌&&◌, ◌||◌, Bool, true, false, none, [], ◌∷◌, ◌++◌, Str, str_eq,
  ends_with, non_empty, join, ◌≡◌, refl, ap, sym, ◌∙◌, arith, Bool-cases, inl, inr, and-eq-true,
  true_not_false, if◌then◌else◌,
}
use sagasmith.Markdown.Content.{strip_kept, strip_end, strip_other}
use sagasmith.Markdown.{
  newline, unix, lines_of, inside_fence, spaced, collapse, strip_newlines, normalize_md,
}

-- After n newlines, no run of newlines is longer than two.
unfoldable pub has_short_gaps : ℕ → Str → Bool
has_short_gaps n [] = true
has_short_gaps n (c ∷ s) =
    let longer = has_short_gaps (suc n) s in
    let fresh = has_short_gaps 0 s in if c == newline then leb (suc n) 2 && longer else fresh

collapse_short : (s : Str) (n : ℕ) → n ≤ 2 → has_short_gaps n (collapse n s) ≡ true
unfolding has_short_gaps collapse
collapse_short [] n h = refl
collapse_short (c ∷ s) n h = elim (Bool-cases (c == newline)) [
  | inl e ↦ elim (Bool-cases (leb 2 n)) [
    | inl full ↦ rw (e, full) (collapse_short s n h)
    | inr room ↦
        let bound : leb (suc n) 2 ≡ true = ground arith in
        rw (e, room) (rw (e, bound) (collapse_short s (suc n) (ground arith)))
  ]
  | inr d ↦ rw d (rw d (collapse_short s 0 (omega arith)))
]

gaps_newline :
    (n : ℕ) (s : Str) → has_short_gaps n (newline ∷ s) ≡ (leb (suc n) 2 && has_short_gaps (suc n) s)
unfolding has_short_gaps
gaps_newline n s = refl

gaps_other :
    (n c : ℕ) (s : Str) → (c == newline) ≡ false → has_short_gaps n (c ∷ s) ≡ has_short_gaps 0 s
unfolding has_short_gaps
gaps_other n c s h = rw h refl

or_left : (a b : Bool) → a ≡ true → (a || b) ≡ true
or_left a b h = ground arith

or_right : (a b : Bool) → b ≡ true → (a || b) ≡ true
or_right a b h = ground arith

one_newline : (n : ℕ) → leb n 1 ≡ true → has_short_gaps n (newline ∷ []) ≡ true
unfolding has_short_gaps
one_newline n h = ground arith

strip_short_newline :
    (s : Str) (n : ℕ)
    → has_short_gaps n (newline ∷ s) ≡ true
    → (non_empty (strip_newlines (newline ∷ s)) || leb n 1) ≡ true
    → (non_empty (strip_newlines s) ≡ true
        → has_short_gaps (suc n) s ≡ true
        → has_short_gaps (suc n) (strip_newlines s ++ newline ∷ []) ≡ true)
    → has_short_gaps n (strip_newlines (newline ∷ s) ++ newline ∷ []) ≡ true
strip_short_newline s n h k ih = elim (Bool-cases (non_empty (strip_newlines s))) [
  | inl m ↦
      let (room, longer) =
        and-eq-true (leb (suc n) 2) (has_short_gaps (suc n) s) (sym (gaps_newline n s) ∙ h) in
      rw (strip_kept s m, gaps_newline n (strip_newlines s ++ newline ∷ []), room) (ih m longer)
  | inr e ↦
      let few : leb n 1 ≡ true = ap (λ t. non_empty t || leb n 1) (sym (strip_end s e)) ∙ k in
      rw (strip_end s e) (one_newline n few)
]

-- The text without its last newlines, and one newline.
strip_short :
    (s : Str) (n : ℕ)
    → has_short_gaps n s ≡ true
    → (non_empty (strip_newlines s) || leb n 1) ≡ true
    → has_short_gaps n (strip_newlines s ++ newline ∷ []) ≡ true
unfolding strip_newlines
strip_short [] n h k = one_newline n k
strip_short (c ∷ s) n h k = elim (Bool-cases (c == newline)) [
  | inl e ↦
      let same = (==_iff c newline).0 e in
      rw same (
        strip_short_newline s n (ap (λ d. has_short_gaps n (d ∷ s)) (sym same) ∙ h)
          (ap (λ d. non_empty (strip_newlines (d ∷ s)) || leb n 1) (sym same) ∙ k)
          (λ m longer.
            strip_short s (suc n) longer
              (or_left (non_empty (strip_newlines s)) (leb (suc n) 1) m)))
  | inr d ↦
      rw (strip_other c s d, gaps_other n c (strip_newlines s ++ newline ∷ []) d)
        (strip_short s 0 (sym (gaps_other n c s d) ∙ h)
          (or_right (non_empty (strip_newlines s)) (leb 0 1) refl))
]

single_newline : (s : Str) → non_empty s ≡ true → str_eq (newline ∷ s) (newline ∷ []) ≡ false
unfolding str_eq
single_newline [] h = absurd (true_not_false h refl)
single_newline (c ∷ s) h = refl

other_end : (c : ℕ) (s : Str) → (c == newline) ≡ false → str_eq (c ∷ s) (newline ∷ []) ≡ false
unfolding str_eq
other_end c s h = rw h refl

ends_rest :
    (c : ℕ) (s : Str)
    → str_eq (c ∷ s) (newline ∷ []) ≡ false
    → ends_with s (newline ∷ []) ≡ false
    → ends_with (c ∷ s) (newline ∷ []) ≡ false
unfolding ends_with
ends_rest c s h k = rw (h, k) refl

strip_newlines_ends : (s : Str) → ends_with (strip_newlines s) (newline ∷ []) ≡ false
strip_newlines_ends [] = unfold strip_newlines ends_with str_eq in refl
strip_newlines_ends (c ∷ s) = elim (Bool-cases (c == newline)) [
  | inl e ↦ elim (Bool-cases (non_empty (strip_newlines s))) [
    | inl m ↦
        rw ((==_iff c newline).0 e, strip_kept s m)
          (ends_rest newline (strip_newlines s) (single_newline (strip_newlines s) m)
            (strip_newlines_ends s))
    | inr n ↦ rw ((==_iff c newline).0 e, strip_end s n) (unfold ends_with str_eq in refl)
  ]
  | inr d ↦
      rw (strip_other c s d)
        (ends_rest c (strip_newlines s) (other_end c (strip_newlines s) d) (strip_newlines_ends s))
]

-- A file that is not empty is normalised to a text that ends in exactly one newline and has no
-- three newlines in a row.
pub normalize_md-has_short_gaps :
    (s : Str)
    → non_empty s ≡ true
    → (t : Str) × (normalize_md s ≡ t ++ newline ∷ [])
      × (ends_with t (newline ∷ []) ≡ false)
      × (has_short_gaps 0 (normalize_md s) ≡ true)
unfolding normalize_md
normalize_md-has_short_gaps [] h = absurd (true_not_false h refl)
normalize_md-has_short_gaps (c ∷ s) h =
    let ls = lines_of (unix (c ∷ s)) in
    let text = collapse 0 (join (newline ∷ []) (spaced none ls (inside_fence false ls))) in
    (
      strip_newlines text,
      refl,
      strip_newlines_ends text,
      strip_short text 0
          (collapse_short (join (newline ∷ []) (spaced none ls (inside_fence false ls))) 0
            (omega arith))
          (or_right (non_empty (strip_newlines text)) (leb 0 1) refl),
    )
