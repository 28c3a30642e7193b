-- ===== src/Config/Commands/Apart.antt =====
-- The accepted keys other than "context" name a path apart from it.
use sagasmith.Common.{
  ℕ, Bool, true, ◌≡◌, refl, ◌||◌, List, [], ◌∷◌, ◌++◌, Str, str, str_eq, str_eq_iff, has, split_at,
  ◌==◌, ==_iff, Bool-cases, inl, inr, ◌⊎◌, sym, ap, ◌∙◌, and-eq-true, arith, all,
}
use sagasmith.Common.Regex.{Regex, seq, chr, char, lit, plus, full}
use sagasmith.Common.Regex.Laws.{both_parts, one_char, full_iff}
use sagasmith.Config.Keys.{is_valid_config_key, valid_config_keys, under, is_name_char}
use sagasmith.Config.Values.Frame.{is_apart}
use sagasmith.Config.Commands.{names}

abbrev pub is_apart_from_context : Str → Bool
is_apart_from_context path = is_apart (names path) (str "context" ∷ [])

first_char :
    (c : ℕ) (r q : Regex) (u : Str)
    → full (seq (seq (char c) r) q) u ≡ true
    → (t : Str) × (u ≡ c ∷ t)
first_char c r q u h =
    let (s, t, e, m, n) = both_parts ((full_iff (seq (seq (char c) r) q) u).0 h) in
    let (a, b, e2, m2, n2) = both_parts m in
    let (d, same, e3) = one_char m2 in
    (
      b ++ t,
      e ∙ ap (λ x. x ++ t) (e2 ∙ ap (λ x. x ++ b) (e3 ∙ ap (λ x. x ∷ []) ((==_iff d c).0 same))),
    )

all-has :
    (p : Str → Bool) (keys : List Str) (k : Str)
    → all p keys ≡ true
    → has keys k ≡ true
    → p k ≡ true
unfolding has
all-has p [] k a h = ground arith
all-has p (j ∷ keys) k a h =
    let (here, later) = and-eq-true (p j) (all p keys) a in
    elim (Bool-cases (str_eq j k)) [
      | inl e ↦ ap p (sym ((str_eq_iff j k).0 e)) ∙ here
      | inr e ↦ all-has p keys k later (ground arith)
    ]

listed_keys :
    all (λ k. is_apart_from_context k || str_eq k (str "context")) valid_config_keys ≡ true
unfolding names split_at is_apart str_eq valid_config_keys
listed_keys = refl

apart_a : (t : Str) → is_apart_from_context (b'a' ∷ t) ≡ true
unfolding names split_at is_apart str_eq
apart_a t = refl

apart_r : (t : Str) → is_apart_from_context (b'r' ∷ t) ≡ true
unfolding names split_at is_apart str_eq
apart_r t = refl

apart_f : (t : Str) → is_apart_from_context (b'f' ∷ t) ≡ true
unfolding names split_at is_apart str_eq
apart_f t = refl

starts_apart :
    (c : ℕ) (r q : Regex) (path : Str)
    → ((t : Str) → is_apart_from_context (c ∷ t) ≡ true)
    → full (seq (seq (char c) r) q) path ≡ true
    → is_apart_from_context path ≡ true
starts_apart c r q path h m = let (t, e) = first_char c r q path m in rw e (h t)

listed_key_apart :
    (path : Str)
    → has valid_config_keys path ≡ true
    → (is_apart_from_context path ≡ true) ⊎ (path ≡ str "context")
listed_key_apart path h =
    let either =
      all-has (λ k. is_apart_from_context k || str_eq k (str "context")) valid_config_keys path
        listed_keys h in
    elim (Bool-cases (is_apart_from_context path)) [
      | inl e ↦ inl e
      | inr e ↦ inr ((str_eq_iff path (str "context")).0 (ground arith))
    ]

pub valid_key_apart :
    (path : Str)
    → is_valid_config_key path ≡ true
    → (is_apart_from_context path ≡ true) ⊎ (path ≡ str "context")
unfolding is_valid_config_key
valid_key_apart path v = elim (Bool-cases (has valid_config_keys path)) [
  | inl e ↦ listed_key_apart path e
  | inr a ↦ elim (Bool-cases (full (under (str "agent_skills.")) path)) [
    | inl e ↦ inl (
        starts_apart b'a' (lit (str "gent_skills."))
          (plus (chr (λ c. is_name_char c || (c == b'-')))) path apart_a e)
    | inr b ↦ elim (Bool-cases (full (under (str "review.models.")) path)) [
      | inl e ↦ inl (
          starts_apart b'r' (lit (str "eview.models."))
            (plus (chr (λ c. is_name_char c || (c == b'-')))) path apart_r e)
      | inr c ↦ inl (
          starts_apart b'f' (lit (str "eatures.")) (plus (chr is_name_char)) path apart_f
            (ground arith))
    ]
  ]
]
