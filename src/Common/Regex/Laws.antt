-- ===== src/Common/Regex/Laws.antt =====
-- `full` and `test` decide the relation.
use Prim.Native.Nat.{ℕ}
use mathlib.Core.Path.{◌≡◌, refl, sym, ap, ◌∙◌}
use mathlib.Core.Logic.{◌↔◌, ◌⊎◌, inl, inr}
use mathlib.Core.Bool.{Bool, true}
use mathlib.Core.List.{[], ◌∷◌, ◌++◌}
use native.Mathlib.Omega.{arith}
use sagasmith.Common.Tests.{Bool-cases, and-eq-true}
use sagasmith.Common.Text.{Str}
use sagasmith.Common.Regex.{
  Regex, none, eps, chr, seq, alt, star, Matches, empty, one, both, left, right, done, more,
  nullable, deriv, full, test, any_char,
}

nullable_sound : (r : Regex) → nullable r ≡ true → Matches r []
unfolding nullable
nullable_sound Regex.none h = absurd (ground arith)
nullable_sound Regex.eps h = empty refl
nullable_sound (Regex.chr p) h = absurd (ground arith)
nullable_sound (Regex.seq r q) h =
    let (a, b) = and-eq-true (nullable r) (nullable q) h in
    both [] [] refl (nullable_sound r a) (nullable_sound q b)
nullable_sound (Regex.alt r q) h = elim (Bool-cases (nullable r)) [
  | inl a ↦ left (nullable_sound r a)
  | inr a ↦ right (nullable_sound q (ground arith))
]
nullable_sound (Regex.star r) h = done refl

append-eq-nil : (s t : Str) → [] ≡ s ++ t → (s ≡ []) × (t ≡ [])
append-eq-nil [] t h = (refl, sym h)
append-eq-nil (c ∷ s) t h = absurd (ground arith)

nullable_complete : {r : Regex} {u : Str} → Matches r u → u ≡ [] → nullable r ≡ true
unfolding nullable
nullable_complete (empty e) h = refl
nullable_complete (one c p e) h = absurd (cc)
nullable_complete (both s t e m n) h =
    let (a, b) = append-eq-nil s t (sym h ∙ e) in rw (nullable_complete m a, nullable_complete n b)
nullable_complete (left m) h = rw (nullable_complete m h)
nullable_complete (right m) h = ground (arith, nullable_complete m h)
nullable_complete (done e) h = refl
nullable_complete (more s t e m n) h = refl

pub alt_parts : {r q : Regex} {u : Str} → Matches (alt r q) u → Matches r u ⊎ Matches q u
alt_parts (left m) = inl m
alt_parts (right m) = inr m

abbrev Never : Regex → Type 0
Never none = ⊥
Never _ = Unit

pub both_parts :
    {r q : Regex} {u : Str}
    → Matches (seq r q) u
    → (s : Str) × (t : Str) × (u ≡ s ++ t) × Matches r s × Matches q t
both_parts (both s t e m n) = (s, t, e, m, n)

pub one_char : {p : ℕ → Bool} {u : Str} → Matches (chr p) u → (c : ℕ) × (p c ≡ true) × (u ≡ c ∷ [])
one_char (one c p e) = (c, p, e)

pub empty_nil : {u : Str} → Matches eps u → u ≡ []
empty_nil (empty e) = e

pub none_never : {u : Str} → Matches none u → ⊥
none_never m = elim m as (λ r u m. Never r) [
  | empty e ↦ tt
  | one c p e ↦ tt
  | both s t e m n ↦ tt
  | left m ↦ tt
  | right m ↦ tt
  | done e ↦ tt
  | more s t e m n ↦ tt
]

deriv_seq :
    (r q : Regex) (c : ℕ) (s : Str)
    → ((t : Str) → Matches (deriv r c) t → Matches r (c ∷ t))
    → Matches (seq (deriv r c) q) s
    → Matches (seq r q) (c ∷ s)
deriv_seq r q c s ih m =
    let (a, b, e, x, y) = both_parts m in both (c ∷ a) b (ap (◌∷◌ c) e) (ih a x) y

deriv_sound : (r : Regex) (c : ℕ) (s : Str) → Matches (deriv r c) s → Matches r (c ∷ s)
unfolding deriv
deriv_sound none c s m = absurd (none_never m)
deriv_sound eps c s m = absurd (none_never m)
deriv_sound (chr p) c s m = elim (Bool-cases (p c)) [
  | inl t ↦ one c t (ap (◌∷◌ c) (empty_nil (rw t at m)))
  | inr f ↦ absurd (none_never (rw f at m))
]
deriv_sound (seq r q) c s m = elim (Bool-cases (nullable r)) [
  | inl t ↦ elim (alt_parts (rw t at m)) [
    | inl x ↦ deriv_seq r q c s (deriv_sound r c) x
    | inr y ↦ both [] (c ∷ s) refl (nullable_sound r t) (deriv_sound q c s y)
  ]
  | inr f ↦ deriv_seq r q c s (deriv_sound r c) (rw f at m)
]
deriv_sound (alt r q) c s m = elim (alt_parts m) [
  | inl x ↦ left (deriv_sound r c s x)
  | inr y ↦ right (deriv_sound q c s y)
]
deriv_sound (star r) c s m =
    let (a, b, e, x, y) = both_parts m in more (c ∷ a) b (ap (◌∷◌ c) e) (deriv_sound r c a x) y

tail_eq : {c d : ℕ} {s t : Str} → c ∷ s ≡ d ∷ t → (c ≡ d) × (s ≡ t)
tail_eq h = ground arith

seq_deriv_left :
    (r q : Regex) (c : ℕ) (s : Str) → Matches (seq (deriv r c) q) s → Matches (deriv (seq r q) c) s
unfolding deriv
seq_deriv_left r q c s m = elim (Bool-cases (nullable r)) [ inl t ↦ rw t (left m) | inr f ↦ rw f m ]

seq_deriv_right :
    (r q : Regex) (c : ℕ) (s : Str)
    → nullable r ≡ true
    → Matches (deriv q c) s
    → Matches (deriv (seq r q) c) s
unfolding deriv
seq_deriv_right r q c s t m = rw t (right m)

deriv_complete :
    {r : Regex} {u : Str} → Matches r u → (c : ℕ) (s : Str) → u ≡ c ∷ s → Matches (deriv r c) s
unfolding deriv
deriv_complete (empty e) c s h = absurd (ground arith)
deriv_complete (one {p} d t e) c s h =
    let (same, nil) = tail_eq (sym e ∙ h) in rw (← same, t, ← nil) (empty refl)
deriv_complete (both {r} {q} [] b e m n) c s h =
    seq_deriv_right r q c s (nullable_complete m refl) (deriv_complete n c s (sym e ∙ h))
deriv_complete (both {r} {q} (d ∷ a) b e m n) c s h =
    let (same, rest) = tail_eq (sym e ∙ h) in
    seq_deriv_left r q c s (both a b (sym rest) (deriv_complete m c a (ap (λ x. x ∷ a) same)) n)
deriv_complete (left m) c s h = left (deriv_complete m c s h)
deriv_complete (right m) c s h = right (deriv_complete m c s h)
deriv_complete (done e) c s h = absurd (ground arith)
deriv_complete (more [] b e m n) c s h = deriv_complete n c s (sym e ∙ h)
deriv_complete (more (d ∷ a) b e m n) c s h =
    let (same, rest) = tail_eq (sym e ∙ h) in
    both a b (sym rest) (deriv_complete m c a (ap (λ x. x ∷ a) same)) n

pub full_iff : (r : Regex) (s : Str) → (full r s ≡ true) ↔ Matches r s
unfolding full
full_iff r [] = (nullable_sound r, λ m. nullable_complete m refl)
full_iff r (c ∷ s) =
    let (to, from) = full_iff (deriv r c) s in
    (λ h. deriv_sound r c s (to h), λ m. from (deriv_complete m c s refl))

any_match : (s : Str) → Matches (star (chr any_char)) s
any_match [] = done refl
any_match (c ∷ s) = more (c ∷ []) s refl (one c refl refl) (any_match s)

-- A text holds a match of the expression somewhere.
abbrev pub Found : Regex → Str → Type 0
Found r s = (a : Str) × (b : Str) × (d : Str) × (s ≡ a ++ (b ++ d)) × Matches r b

pub test_iff : (r : Regex) (s : Str) → (test r s ≡ true) ↔ Found r s
unfolding test
test_iff r s =
    let (to, from) = full_iff (seq (star (chr any_char)) (seq r (star (chr any_char)))) s in
    (
      λ h.
          let (a, t, e, x, y) = both_parts (to h) in
          let (b, d, f, m, z) = both_parts y in (a, b, d, e ∙ ap (λ v. a ++ v) f, m),
      λ (a, b, d, e, m). from (both a (b ++ d) e (any_match a) (both b d refl m (any_match d))),
    )
