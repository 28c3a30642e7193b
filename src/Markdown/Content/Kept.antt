-- ===== src/Markdown/Content/Kept.antt =====
-- Normalising keeps the lines of a file that are not empty.
use sagasmith.Common.{
  ◌==◌, ◌&&◌, Bool, true, false, not, Option, none, some, List, [], ◌∷◌, ◌++◌, Str, join, split_at,
  all, ◌≡◌, refl, ap, ◌∙◌, arith, Bool-cases, inl, inr, and-eq-true, not-eq-true,
}
use sagasmith.Markdown.{
  is_heading, is_shown, is_rule, is_fence, is_bare_fence, is_list_item, starts_with_space,
  was_inside, newline, unix, whole, lines_of, inside_fence, blank_if, blanks_before, blanks_after,
  spaced, collapse, strip_newlines, normalized_lines, normalize_md,
}
use sagasmith.Markdown.Content.{
  shown, cut, Alike-shown, spaced-shown, collapse-shown, strip-Alike, snoc-Alike, cons-shown,
}

-- A line that holds no newline.
abbrev pub is_piece : Str → Bool
is_piece l = all (λ c. not (c == newline)) l

abbrev are_pieces : List Str → Bool
are_pieces ls = all is_piece ls

pieces-append :
    (xs ys : List Str) → are_pieces xs ≡ true → are_pieces ys ≡ true → are_pieces (xs ++ ys) ≡ true
pieces-append [] ys h k = k
pieces-append (x ∷ xs) ys h k =
    let (e, r) = and-eq-true (is_piece x) (are_pieces xs) h in rw (e, pieces-append xs ys r k) refl

blank_pieces : (b : Bool) → are_pieces (blank_if b) ≡ true
blank_pieces true = refl
blank_pieces false = refl

three_pieces : (a b c : Bool) → are_pieces (blank_if a ++ (blank_if b ++ blank_if c)) ≡ true
three_pieces a b c =
    pieces-append (blank_if a) (blank_if b ++ blank_if c) (blank_pieces a)
      (pieces-append (blank_if b) (blank_if c) (blank_pieces b) (blank_pieces c))

before_pieces :
    (prev : Option (Str × Bool)) (l : Str) (i : Bool) → are_pieces (blanks_before prev l i) ≡ true
unfolding blanks_before
before_pieces none l i = refl
before_pieces (some (p, b)) l i =
    three_pieces (is_heading l && is_shown p && not (is_rule p))
      (is_fence l && is_shown p && not i && not b)
      (is_list_item l && is_shown p && not (is_list_item p) && not (is_rule p))

after_pieces :
    (prev : Option (Str × Bool)) (l : Str) (next : List Str)
    → are_pieces (blanks_after prev l next) ≡ true
unfolding blanks_after
after_pieces prev l [] = refl
after_pieces prev l (n ∷ next) =
    three_pieces (is_heading l && is_shown n) (is_bare_fence l && was_inside prev && is_shown n)
      (is_list_item l && is_shown n && not (is_list_item n) && not (starts_with_space n))

spaced_pieces :
    (prev : Option (Str × Bool)) (ls : List Str) (flags : List Bool)
    → are_pieces ls ≡ true
    → are_pieces (spaced prev ls flags) ≡ true
unfolding spaced
spaced_pieces prev [] flags h = refl
spaced_pieces prev (l ∷ ls) [] h = h
spaced_pieces prev (l ∷ ls) (i ∷ flags) h =
    let (e, r) = and-eq-true (is_piece l) (are_pieces ls) h in
    let rest = spaced (some (l, i)) ls flags in
    pieces-append (blanks_before prev l i) (l ∷ (blanks_after prev l ls ++ rest))
      (before_pieces prev l i)
      (rw e (
        pieces-append (blanks_after prev l ls) rest (after_pieces prev l ls)
          (spaced_pieces (some (l, i)) ls flags r)))

cut_pieces : (s : Str) → are_pieces (whole (cut s)) ≡ true
unfolding split_at
cut_pieces [] = refl
cut_pieces (c ∷ s) = elim (Bool-cases (c == newline)) [
  | inl e ↦ rw e (cut_pieces s)
  | inr d ↦ rw d (ground (arith, cut_pieces s))
]

cut_piece : (l : Str) → is_piece l ≡ true → cut l ≡ (l, [])
unfolding split_at
cut_piece [] h = refl
cut_piece (c ∷ l) h =
    let (e, r) = and-eq-true (not (c == newline)) (is_piece l) h in
    rw (not-eq-true (c == newline) e, cut_piece l r) refl

pub cut-append : (l s : Str) → is_piece l ≡ true → cut (l ++ newline ∷ s) ≡ (l, whole (cut s))
unfolding split_at
cut-append [] s h = refl
cut-append (c ∷ l) s h =
    let (e, r) = and-eq-true (not (c == newline)) (is_piece l) h in
    rw (not-eq-true (c == newline) e, cut-append l s r) refl

join-shown :
    (ls : List Str) → are_pieces ls ≡ true → shown (whole (cut (join (newline ∷ []) ls))) ≡ shown ls
unfolding join split_at
join-shown [] h = refl
join-shown (l ∷ []) h =
    let (e, r) = and-eq-true (is_piece l) true h in ap (λ p. shown (whole p)) (cut_piece l e)
join-shown (l ∷ m ∷ ls) h =
    let (e, r) = and-eq-true (is_piece l) (are_pieces (m ∷ ls)) h in
    let rest = join (newline ∷ []) (m ∷ ls) in
    ap (λ p. shown (whole p)) (cut-append l rest e)
    ∙ cons-shown l (whole (cut rest)) (m ∷ ls) (join-shown (m ∷ ls) r)

normalized_lines-shown :
    (ls : List Str) → are_pieces ls ≡ true → shown (lines_of (normalized_lines ls)) ≡ shown ls
unfolding lines_of
normalized_lines-shown ls h =
    let result = spaced none ls (inside_fence false ls) in
    let joined = join (newline ∷ []) result in
    let stripped = strip_newlines (collapse 0 joined) in
    Alike-shown (cut (stripped ++ newline ∷ [])) (cut stripped) (snoc-Alike stripped)
    ∙ Alike-shown (cut stripped) (cut (collapse 0 joined)) (strip-Alike (collapse 0 joined))
    ∙ collapse-shown joined 0
    ∙ join-shown result (spaced_pieces none ls (inside_fence false ls) h)
    ∙ spaced-shown none ls (inside_fence false ls)

-- Normalising a markdown file keeps its lines that are not empty, in their order and each as it is
-- but for its line end: only empty lines come and go.
pub normalize_md-shown : (s : Str) → shown (lines_of (normalize_md s)) ≡ shown (lines_of (unix s))
unfolding normalize_md
normalize_md-shown [] = refl
normalize_md-shown (c ∷ s) =
    normalized_lines-shown (lines_of (unix (c ∷ s))) (cut_pieces (unix (c ∷ s)))
