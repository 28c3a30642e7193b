-- ===== src/Frontmatter/Characters.antt =====
-- How the pieces of a line are cut, quoted and trimmed.
use sagasmith.Common.{
  ℕ, ◌==◌, ◌&&◌, Bool, true, false, not, none, List, [], ◌∷◌, ◌++◌, Str, str, str_eq, all, any,
  non_empty, join, ends_with, ◌≡◌, refl, ap, sym, ◌∙◌, arith, Bool-cases, inl, inr, and-eq-true,
  not-eq-true, true_not_false,
}
use mathlib.Core.List.{append-nil, append_assoc}
use sagasmith.Common.Regex.{is_space}
use sagasmith.Common.Spaces.{trim_start, trim_end, trim}
use sagasmith.Frontmatter.Lines.{
  is_key_char, key_run, is_terminator, up_to_terminator, is_quote, drop_last_quote, split_from,
  split_inline_array, add_item,
}
use sagasmith.Frontmatter.Parser.{drop_last}

pub key_run-append :
    (k rest : Str) → all is_key_char k ≡ true → key_run (k ++ (b':' ∷ rest)) ≡ (k, b':' ∷ rest)
unfolding key_run
key_run-append [] rest h = refl
key_run-append (c ∷ k) rest h =
    let (e, h') = and-eq-true (is_key_char c) (all is_key_char k) h in
    rw (e, key_run-append k rest h') refl

pub key_char_visible : (c : ℕ) → is_key_char c ≡ true → is_space c ≡ false
key_char_visible c h = ground arith

pub up_to_terminator-all :
    (s : Str) → all (λ c. not (is_terminator c)) s ≡ true → up_to_terminator s ≡ s
unfolding up_to_terminator
up_to_terminator-all [] h = refl
up_to_terminator-all (c ∷ s) h =
    let (e, h') = and-eq-true (not (is_terminator c)) (all (λ c. not (is_terminator c)) s) h in
    rw (not-eq-true (is_terminator c) e, up_to_terminator-all s h') refl

pub non_empty_snoc : (s : Str) (c : ℕ) → non_empty (s ++ c ∷ []) ≡ true
non_empty_snoc [] c = refl
non_empty_snoc (d ∷ s) c = refl

pub trim_end-snoc : (s : Str) (c : ℕ) → is_space c ≡ false → trim_end (s ++ c ∷ []) ≡ s ++ c ∷ []
unfolding trim_end
trim_end-snoc [] c h = rw h refl
trim_end-snoc (d ∷ s) c h = rw (trim_end-snoc s c h, non_empty_snoc s c) refl

pub drop_last_quote-snoc : (s : Str) (c : ℕ) → is_quote c ≡ true → drop_last_quote (s ++ c ∷ []) ≡ s
unfolding drop_last_quote
drop_last_quote-snoc [] c h = rw h refl
drop_last_quote-snoc (d ∷ []) c h = rw h refl
drop_last_quote-snoc (d ∷ e ∷ s) c h = ap (◌∷◌ d) (drop_last_quote-snoc (e ∷ s) c h)

pub drop_last-snoc : (s : Str) (c : ℕ) → drop_last (s ++ c ∷ []) ≡ s
unfolding drop_last
drop_last-snoc [] c = refl
drop_last-snoc (d ∷ []) c = refl
drop_last-snoc (d ∷ e ∷ s) c = ap (◌∷◌ d) (drop_last-snoc (e ∷ s) c)

pub ends_with-snoc : (s : Str) (c : ℕ) → ends_with (s ++ c ∷ []) (c ∷ []) ≡ true
unfolding ends_with str_eq
ends_with-snoc [] c = ground arith
ends_with-snoc (d ∷ s) c = ground (arith, ends_with-snoc s c)

pub non_empty-trim_end :
    (s : Str) → any (λ c. not (is_space c)) s ≡ true → non_empty (trim_end s) ≡ true
unfolding trim_end
non_empty-trim_end [] h = absurd (true_not_false h refl)
non_empty-trim_end (c ∷ s) h = elim (Bool-cases (non_empty (trim_end s))) [
  | inl e ↦ rw e refl
  | inr e ↦ elim (Bool-cases (is_space c)) [
    | inl sp ↦ absurd (true_not_false (non_empty-trim_end s (ground arith)) e)
    | inr vis ↦ rw (e, vis) refl
  ]
]

-- [^"',]
abbrev pub is_plain_char : ℕ → Bool
is_plain_char c = not (is_quote c) && not (c == b',')

split_from-plain :
    (w current rest : Str)
    → all is_plain_char w ≡ true
    → split_from none current (w ++ rest) ≡ split_from none (current ++ w) rest
unfolding split_from
split_from-plain [] current rest h = rw append-nil refl
split_from-plain (c ∷ w) current rest h =
    let (e, h') = and-eq-true (is_plain_char c) (all is_plain_char w) h in
    let (q, k) = and-eq-true (not (is_quote c)) (not (c == b',')) e in
    rw (not-eq-true (is_quote c) q, not-eq-true (c == b',') k)
      (split_from-plain w (current ++ c ∷ []) rest h' ∙ rw append_assoc refl)

-- An element that is written without quotes in an inline array.
abbrev pub IsPlainItem : Str → Type 0
IsPlainItem w = (all is_plain_char w ≡ true) × (non_empty w ≡ true) × (trim w ≡ w)

abbrev pub ArePlain : List Str → Type 0
ArePlain [] = Unit
ArePlain (w ∷ ws) = IsPlainItem w × ArePlain ws

add_item-trimmed :
    (current w : Str) (ws : List Str)
    → trim current ≡ w
    → non_empty w ≡ true
    → add_item current ws ≡ w ∷ ws
add_item-trimmed current w ws e n = rw (e, n) refl

split_from_end : (current : Str) → split_from none current [] ≡ add_item current []
unfolding split_from
split_from_end current = refl

split_from_comma :
    (current s : Str)
    → split_from none current (b',' ∷ b' ' ∷ s) ≡ add_item current (split_from none (b' ' ∷ []) s)
unfolding split_from
split_from_comma current s = refl

trim_space : (w : Str) → trim (b' ' ∷ w) ≡ trim w
unfolding trim trim_start
trim_space w = refl

split_from-join :
    (current w : Str) (ws : List Str)
    → trim (current ++ w) ≡ w
    → IsPlainItem w
    → ArePlain ws
    → split_from none current (join (str ", ") (w ∷ ws)) ≡ w ∷ ws
unfolding join
split_from-join current w [] e (p, n, t) ps =
    ap (split_from none current) (sym (append-nil w))
    ∙ split_from-plain w current [] p
    ∙ split_from_end (current ++ w)
    ∙ add_item-trimmed (current ++ w) w [] e n
split_from-join current w (v ∷ ws) e (p, n, t) (q, ps) =
    split_from-plain w current (b',' ∷ b' ' ∷ join (str ", ") (v ∷ ws)) p
    ∙ split_from_comma (current ++ w) (join (str ", ") (v ∷ ws))
    ∙ ap (add_item (current ++ w)) (split_from-join (b' ' ∷ []) v ws (trim_space v ∙ q.2) q ps)
    ∙ add_item-trimmed (current ++ w) w (v ∷ ws) e n

pub split_inline_array-join :
    (ws : List Str) → ArePlain ws → split_inline_array (join (str ", ") ws) ≡ ws
unfolding split_inline_array join
split_inline_array-join [] ps = refl
split_inline_array-join (w ∷ ws) (p, ps) = split_from-join [] w ws p.2 p ps
