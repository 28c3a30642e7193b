-- ===== src/Config/Keys/Suggested.antt =====
-- The table of mistaken keys and the accepted keys.
use sagasmith.Common.{
  Bool, true, ◌≡◌, refl, ◌&&◌, not, none, List, [], ◌∷◌, Str, has, str_eq, str_eq_iff, Bool-cases,
  inl, inr, sym, ap, ◌∙◌, and-eq-true, not-eq-true, true_not_false,
}
use sagasmith.Config.Keys.{
  is_valid_config_key, config_key_suggestions, suggestion, valid_config_keys,
}

abbrev all_rejected : List (Str × Str) → Bool
all_rejected [] = true
all_rejected ((j, s) ∷ t) = not (is_valid_config_key j) && all_rejected t

suggestion_rejected :
    (t : List (Str × Str)) (k : Str)
    → all_rejected t ≡ true
    → is_valid_config_key k ≡ true
    → suggestion t k ≡ none
unfolding suggestion
suggestion_rejected [] k a v = refl
suggestion_rejected ((j, s) ∷ t) k a v =
    let (here, later) = and-eq-true (not (is_valid_config_key j)) (all_rejected t) a in
    elim (Bool-cases (str_eq j k)) [
      | inl e ↦ absurd (
          true_not_false v (
            ap is_valid_config_key (sym ((str_eq_iff j k).0 e))
            ∙ not-eq-true (is_valid_config_key j) here))
      | inr e ↦ rw e (suggestion_rejected t k later v)
    ]

suggested_are_rejected : all_rejected config_key_suggestions ≡ true
unfolding is_valid_config_key config_key_suggestions has valid_config_keys str_eq
suggested_are_rejected = refl

-- The table of mistaken keys has no entry for a key that is accepted, so that its check refuses
-- none of them.
pub suggestion-is_valid_config_key :
    (k : Str) → is_valid_config_key k ≡ true → suggestion config_key_suggestions k ≡ none
suggestion-is_valid_config_key k v =
    suggestion_rejected config_key_suggestions k suggested_are_rejected v
