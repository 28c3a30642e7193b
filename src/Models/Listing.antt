-- ===== src/Models/Listing.antt =====
-- The table of a profile against the choice of a model.
use sagasmith.Common.{
  ◌≡◌, ◌≢◌, refl, ap, sym, ◌∙◌, Bool, true, false, ◌&&◌, not, Option, some, List, [], ◌∷◌, map,
  arith, Str, str, str_eq, str_eq_iff, has, not_true, has-map, str_eq_refl, true_not_false,
  Bool-cases, inl, inr, In,
}
use sagasmith.Models.{
  Row, model_profiles, valid_profiles, find_row, model_of, get_agent_to_model_map_for_profile,
  ResolveIds, keep_alias, omit, Config, override_of, alias_of, resolve_alias, profile_of,
  resolve_model_internal,
}
use sagasmith.Models.Resolve.{by_profile, resolve_kept}

-- The agents of the rows are pairwise different.
abbrev distinct : List Row → Bool
distinct [] = true
distinct (r ∷ rs) = not (has (map (λ q. q.agent) rs) r.agent) && distinct rs

all_distinct : distinct model_profiles ≡ true
unfolding model_profiles has str_eq
all_distinct = refl

find_own : (rs : List Row) (r : Row) → distinct rs ≡ true → In r rs → find_row rs r.agent ≡ some r
unfolding find_row
find_own [] r d at = absurd at
find_own (q ∷ rs) r d (inl e) = rw (e, str_eq_refl r.agent)
find_own (q ∷ rs) r d (inr later) = elim (Bool-cases (str_eq q.agent r.agent)) [
  | inl t ↦
      let same : r.agent ≡ q.agent = sym ((str_eq_iff q.agent r.agent).0 t) in
      let there = has-map (λ (q : Row). q.agent) rs r later in
      absurd (true_not_false there (rw same (ground arith)))
  | inr f ↦ rw f (find_own rs r (ground arith) later)
]

In-map :
    {A B : Type 0} (f : A → B) (xs : List A) (y : B)
    → In y (map f xs)
    → (x : A) × In x xs × (f x ≡ y)
In-map f [] y at = absurd at
In-map f (x ∷ xs) y (inl e) = (x, inl refl, e)
In-map f (x ∷ xs) y (inr later) = let (x', i, e) = In-map f xs y later in (x', inr i, e)

alias_of-valid :
    (r : Row) (p : Str) → has valid_profiles p ≡ true → model_of r p ≡ some (alias_of r p)
unfolding alias_of model_of has
alias_of-valid r p v = ground (
  arith,
  str_eq_iff (str "quality") p,
  str_eq_iff (str "balanced") p,
  str_eq_iff (str "budget") p,
  str_eq_iff (str "adaptive") p,
  str_eq_refl p,
)

inherit_not_valid : has valid_profiles (str "inherit") ≡ false
unfolding has str_eq
inherit_not_valid = refl

valid_not_inherit : (p : Str) → has valid_profiles p ≡ true → str_eq p (str "inherit") ≡ false
valid_not_inherit p v = not_true _ (λ t.
    let e : p ≡ str "inherit" = (str_eq_iff p (str "inherit")).0 t in
    true_not_false (rw e at v) inherit_not_valid)

alias_kept : (m : ResolveIds) (a : Str) → m ≡ keep_alias → resolve_alias m a ≡ a
unfolding resolve_alias
alias_kept m a h = rw h

map_row :
    (profile agent : Str) (model : Option Str)
    → has valid_profiles profile ≡ true
    → In (agent, model) (get_agent_to_model_map_for_profile profile)
    → (r : Row) × (find_row model_profiles agent ≡ some r) × (model ≡ some (alias_of r profile))
unfolding get_agent_to_model_map_for_profile
map_row profile agent model v at =
    let (r, i, e) =
      In-map (λ (r : Row). (r.agent, model_of r profile)) model_profiles (agent, model) at in
    (
      r,
      ap (find_row model_profiles) (sym (ap (λ (q : Str × Option Str). q.0) e))
          ∙ find_own model_profiles r all_distinct i,
      sym (ap (λ (q : Str × Option Str). q.1) e) ∙ alias_of-valid r profile v,
    )

module _ (to_lower : Str → Str) where
  -- Under an existing profile, without an override and with aliases kept, the model chosen for an
  -- agent is the one that the table printed for the profile shows.
  pub resolve_model_internal-map :
      (c : Config) (agent : Str) (model : Option Str)
      → override_of c.model_overrides agent ≡ []
      → c.resolve_model_ids ≡ keep_alias
      → has valid_profiles (profile_of to_lower c) ≡ true
      → In (agent, model) (get_agent_to_model_map_for_profile (profile_of to_lower c))
      → model ≡ some (resolve_model_internal to_lower c agent)
  resolve_model_internal-map c agent model o keep v at =
      let profile = profile_of to_lower c in
      let (r, h, e) = map_row profile agent model v at in
      let kept : c.resolve_model_ids ≢ omit = λ m. ground arith in
      rw (
        e,
        resolve_kept to_lower c agent o kept,
        by_profile to_lower c agent r h (valid_not_inherit profile v),
        alias_kept c.resolve_model_ids (alias_of r profile) keep,
      )
