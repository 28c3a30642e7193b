-- ===== src/Markdown/Content.antt =====
-- Spacing, collapsing and the end of the file change blank lines only.
pub mod Kept
use sagasmith.Common.{
  ℕ, zero, suc, ◌==◌, ==_iff, leb, ◌&&◌, Bool, true, false, not, Option, none, some, List, [], ◌∷◌,
  ◌++◌, Str, str, non_empty, join, split_at, filter, ◌≡◌, refl, ap, sym, ◌∙◌, arith, Bool-cases,
  inl, inr, and-eq-true, true_not_false, if◌then◌else◌,
}
use sagasmith.Markdown.{
  is_heading, is_shown, is_rule, is_fence, is_bare_fence, is_list_item, starts_with_space,
  was_inside, newline, unix, whole, lines_of, inside_fence, blank_if, blanks_before, blanks_after,
  spaced, collapse, strip_newlines, normalized_lines, normalize_md,
}

-- The lines that are not empty.
abbrev pub shown : List Str → List Str
shown ls = filter non_empty ls

pub filter-append : (xs ys : List Str) → shown (xs ++ ys) ≡ shown xs ++ shown ys
filter-append [] ys = refl
filter-append ([] ∷ xs) ys = filter-append xs ys
filter-append ((c ∷ x) ∷ xs) ys = ap (◌∷◌ (c ∷ x)) (filter-append xs ys)

blank_if-shown : (b : Bool) (ls : List Str) → shown (blank_if b ++ ls) ≡ shown ls
blank_if-shown true ls = refl
blank_if-shown false ls = refl

three_blanks :
    (a b c : Bool) (ls : List Str)
    → shown ((blank_if a ++ (blank_if b ++ blank_if c)) ++ ls) ≡ shown ls
three_blanks true true true ls = refl
three_blanks true true false ls = refl
three_blanks true false true ls = refl
three_blanks true false false ls = refl
three_blanks false true true ls = refl
three_blanks false true false ls = refl
three_blanks false false true ls = refl
three_blanks false false false ls = refl

blanks_before-shown :
    (prev : Option (Str × Bool)) (l : Str) (i : Bool) (ls : List Str)
    → shown (blanks_before prev l i ++ ls) ≡ shown ls
unfolding blanks_before
blanks_before-shown none l i ls = refl
blanks_before-shown (some (p, b)) l i ls =
    three_blanks (is_heading l && is_shown p && not (is_rule p))
      (is_fence l && is_shown p && not i && not b)
      (is_list_item l && is_shown p && not (is_list_item p) && not (is_rule p)) ls

blanks_after-shown :
    (prev : Option (Str × Bool)) (l : Str) (next ls : List Str)
    → shown (blanks_after prev l next ++ ls) ≡ shown ls
unfolding blanks_after
blanks_after-shown prev l [] ls = refl
blanks_after-shown prev l (n ∷ next) ls =
    three_blanks (is_heading l && is_shown n) (is_bare_fence l && was_inside prev && is_shown n)
      (is_list_item l && is_shown n && not (is_list_item n) && not (starts_with_space n)) ls

cons-shown : (l : Str) (xs ys : List Str) → shown xs ≡ shown ys → shown (l ∷ xs) ≡ shown (l ∷ ys)
cons-shown [] xs ys h = h
cons-shown (c ∷ l) xs ys h = ap (◌∷◌ (c ∷ l)) h

spaced-shown :
    (prev : Option (Str × Bool)) (ls : List Str) (flags : List Bool)
    → shown (spaced prev ls flags) ≡ shown ls
unfolding spaced
spaced-shown prev [] flags = refl
spaced-shown prev (l ∷ ls) [] = refl
spaced-shown prev (l ∷ ls) (i ∷ flags) =
    let rest = spaced (some (l, i)) ls flags in
    blanks_before-shown prev l i (l ∷ (blanks_after prev l ls ++ rest))
    ∙ cons-shown l (blanks_after prev l ls ++ rest) ls
        (blanks_after-shown prev l ls rest ∙ spaced-shown (some (l, i)) ls flags)

-- Two cut texts with the same first line, and the same shown lines behind it.
abbrev Alike : Str × List Str → Str × List Str → Type 0
Alike a b = (a.0 ≡ b.0) × (shown a.1 ≡ shown b.1)

abbrev pub cut : Str → Str × List Str
cut s = split_at (λ c. c == newline) s

Alike-shown : (a b : Str × List Str) → Alike a b → shown (whole a) ≡ shown (whole b)
Alike-shown (h, t) (g, u) (e, r) = ap (λ x. shown (x ∷ t)) e ∙ cons-shown g t u r

cut-newline : (s : Str) → cut (newline ∷ s) ≡ ([], whole (cut s))
unfolding split_at
cut-newline s = refl

pub cut_other :
    (c : ℕ) (s : Str) → (c == newline) ≡ false → cut (c ∷ s) ≡ (c ∷ (cut s).0, (cut s).1)
unfolding split_at
cut_other c s h = rw h refl

collapse-newline :
    (n : ℕ) (s : Str) → leb 2 n ≡ false → collapse n (newline ∷ s) ≡ newline ∷ collapse (suc n) s
unfolding collapse
collapse-newline n s h = rw h refl

collapse_full : (n : ℕ) (s : Str) → leb 2 n ≡ true → collapse n (newline ∷ s) ≡ collapse n s
unfolding collapse
collapse_full n s h = rw h refl

pub collapse_other :
    (n c : ℕ) (s : Str) → (c == newline) ≡ false → collapse n (c ∷ s) ≡ c ∷ collapse 0 s
unfolding collapse
collapse_other n c s h = rw h refl

other-Alike :
    (c : ℕ) (s t : Str)
    → (c == newline) ≡ false
    → Alike (cut s) (cut t)
    → Alike (cut (c ∷ s)) (cut (c ∷ t))
other-Alike c s t h (e, r) = rw (cut_other c s h, cut_other c t h) (ap (◌∷◌ c) e, r)

newline-Alike :
    (s t : Str)
    → shown (whole (cut s)) ≡ shown (whole (cut t))
    → Alike (cut (newline ∷ s)) (cut (newline ∷ t))
newline-Alike s t h = rw (cut-newline s, cut-newline t) (refl, h)

newline_shown :
    (s : Str) (n : ℕ)
    → shown (whole (cut (collapse n s))) ≡ shown (whole (cut s))
    → shown (whole (cut (collapse (suc n) s))) ≡ shown (whole (cut s))
    → shown (whole (cut (collapse n (newline ∷ s)))) ≡ shown (whole (cut (newline ∷ s)))
newline_shown s n full more = elim (Bool-cases (leb 2 n)) [
  | inl e ↦ rw (collapse_full n s e, cut-newline s) full
  | inr e ↦ rw (collapse-newline n s e, cut-newline s, cut-newline (collapse (suc n) s)) more
]

mutual
  unfolding collapse

  collapse-Alike : (s : Str) (n : ℕ) → leb 1 n ≡ false → Alike (cut (collapse n s)) (cut s)
  collapse-Alike [] n h = (refl, refl)
  collapse-Alike (c ∷ s) n h = elim (Bool-cases (c == newline)) [
    | inl e ↦
        rw ((==_iff c newline).0 e, collapse-newline n s (ground arith))
          (newline-Alike (collapse (suc n) s) s (collapse-shown s (suc n)))
    | inr d ↦
        rw (collapse_other n c s d) (other-Alike c (collapse 0 s) s d (collapse-Alike s 0 refl))
  ]

  collapse-shown : (s : Str) (n : ℕ) → shown (whole (cut (collapse n s))) ≡ shown (whole (cut s))
  collapse-shown [] n = refl
  collapse-shown (c ∷ s) n = elim (Bool-cases (c == newline)) [
    | inl e ↦
        rw ((==_iff c newline).0 e)
          (newline_shown s n (collapse-shown s n) (collapse-shown s (suc n)))
    | inr d ↦ rw (collapse_other n c s d) (
        Alike-shown (cut (c ∷ collapse 0 s)) (cut (c ∷ s))
          (other-Alike c (collapse 0 s) s d (collapse-Alike s 0 refl)))
  ]

pub strip_kept :
    (s : Str)
    → non_empty (strip_newlines s) ≡ true
    → strip_newlines (newline ∷ s) ≡ newline ∷ strip_newlines s
unfolding strip_newlines
strip_kept s h = rw h refl

pub strip_end : (s : Str) → non_empty (strip_newlines s) ≡ false → strip_newlines (newline ∷ s) ≡ []
unfolding strip_newlines
strip_end s h = rw h refl

pub strip_other :
    (c : ℕ) (s : Str) → (c == newline) ≡ false → strip_newlines (c ∷ s) ≡ c ∷ strip_newlines s
unfolding strip_newlines
strip_other c s h = rw h refl

empty_nil : (s : Str) → non_empty s ≡ false → s ≡ []
empty_nil [] h = refl
empty_nil (c ∷ s) h = absurd (true_not_false refl h)

end-Alike : (s t : Str) → t ≡ [] → Alike (cut t) (cut s) → Alike (cut []) (cut (newline ∷ s))
unfolding split_at
end-Alike s t e h = (refl, ap (λ u. shown (whole (cut u))) (sym e) ∙ Alike-shown (cut t) (cut s) h)

strip-Alike : (s : Str) → Alike (cut (strip_newlines s)) (cut s)
unfolding strip_newlines
strip-Alike [] = (refl, refl)
strip-Alike (c ∷ s) = elim (Bool-cases (c == newline)) [
  | inl e ↦ elim (Bool-cases (non_empty (strip_newlines s))) [
    | inl m ↦
        rw ((==_iff c newline).0 e, strip_kept s m)
          (newline-Alike (strip_newlines s) s
            (Alike-shown (cut (strip_newlines s)) (cut s) (strip-Alike s)))
    | inr n ↦
        rw ((==_iff c newline).0 e, strip_end s n)
          (end-Alike s (strip_newlines s) (empty_nil (strip_newlines s) n) (strip-Alike s))
  ]
  | inr d ↦ rw (strip_other c s d) (other-Alike c (strip_newlines s) s d (strip-Alike s))
]

snoc-Alike : (s : Str) → Alike (cut (s ++ newline ∷ [])) (cut s)
unfolding split_at
snoc-Alike [] = (refl, refl)
snoc-Alike (c ∷ s) = elim (Bool-cases (c == newline)) [
  | inl e ↦ rw ((==_iff c newline).0 e) (
      newline-Alike (s ++ newline ∷ []) s
        (Alike-shown (cut (s ++ newline ∷ [])) (cut s) (snoc-Alike s)))
  | inr d ↦ other-Alike c (s ++ newline ∷ []) s d (snoc-Alike s)
]
