-- ===== src/Models/Resolve.antt =====
-- What `resolveModelInternal` gives.
use sagasmith.Common.{
  ◌≡◌, ◌≢◌, refl, Bool, true, false, ◌&&◌, some, List, [], ◌∷◌, arith, all, Str, str, str_eq,
  str_eq_iff, has, some_inj, cons-has, nil_has, not_true, Bool-cases, inl, inr, ◌⊎◌, and-eq-true,
}
use sagasmith.Models.{
  Row, opus, sonnet, haiku, model_profiles, find_row, model_of, model_alias_map, ResolveIds,
  keep_alias, omit, full_id, Config, override_of, or_fallback, alias_of, resolve_alias, profile_of,
  resolve_by_profile, resolve_model_internal,
}

abbrev pub aliases : List Str
aliases = opus ∷ sonnet ∷ haiku ∷ []

abbrev pub full_ids : List Str
full_ids = str "claude-opus-4-6" ∷ str "claude-sonnet-4-6" ∷ str "claude-haiku-4-5" ∷ []

-- Each model of a row is one of the aliases.
abbrev good_row : Row → Bool
good_row r =
    has aliases r.quality
    && (has aliases r.balanced && (has aliases r.budget && has aliases r.adaptive))

all_good : all good_row model_profiles ≡ true
unfolding model_profiles has str_eq
all_good = refl

find_good :
    (rs : List Row) (a : Str) (r : Row)
    → all good_row rs ≡ true
    → find_row rs a ≡ some r
    → good_row r ≡ true
unfolding find_row
find_good [] a r g h = absurd (ground arith)
find_good (q ∷ rs) a r g h = elim (Bool-cases (str_eq q.agent a)) [
  | inl t ↦
      let e : q ≡ r = some_inj (rw t at h) in
      rw (← e) (and-eq-true (good_row q) (all good_row rs) g).0
  | inr f ↦ find_good rs a r (and-eq-true (good_row q) (all good_row rs) g).1 (rw f at h)
]

alias_good : (r : Row) (p : Str) → good_row r ≡ true → has aliases (alias_of r p) ≡ true
unfolding alias_of model_of
alias_good r p g = ground arith

full_opus : has full_ids (or_fallback (model_alias_map opus) opus) ≡ true
unfolding has model_alias_map str_eq
full_opus = refl

full_sonnet : has full_ids (or_fallback (model_alias_map sonnet) sonnet) ≡ true
unfolding has model_alias_map str_eq
full_sonnet = refl

full_haiku : has full_ids (or_fallback (model_alias_map haiku) haiku) ≡ true
unfolding has model_alias_map str_eq
full_haiku = refl

full_good :
    (a : Str) → has aliases a ≡ true → has full_ids (or_fallback (model_alias_map a) a) ≡ true
full_good a h = elim (cons-has opus a (sonnet ∷ haiku ∷ []) h) [
  | inl e ↦ rw (← e) full_opus
  | inr h' ↦ elim (cons-has sonnet a (haiku ∷ []) h') [
    | inl e ↦ rw (← e) full_sonnet
    | inr h'' ↦ elim (cons-has haiku a [] h'') [
      | inl e ↦ rw (← e) full_haiku
      | inr none_left ↦ absurd (nil_has a none_left)
    ]
  ]
]

-- What may come back for an agent of the table: an alias, a full name, or nothing to keep the
-- runtime's own model.
abbrev pub allowed : ResolveIds → List Str
allowed keep_alias = aliases
allowed omit = [] ∷ []
allowed full_id = full_ids

alias_allowed :
    (m : ResolveIds) (a : Str)
    → m ≢ omit
    → has aliases a ≡ true
    → has (allowed m) (resolve_alias m a) ≡ true
unfolding resolve_alias
alias_allowed keep_alias a n h = h
alias_allowed omit a n h = absurd (n refl)
alias_allowed full_id a n h = full_good a h

has_nil : has ([] ∷ []) [] ≡ true
unfolding has str_eq
has_nil = refl

omit-cases : (m : ResolveIds) → (m ≡ omit) ⊎ (m ≢ omit)
omit-cases keep_alias = inr (λ e. ground arith)
omit-cases omit = inl refl
omit-cases full_id = inr (λ e. ground arith)

module _ (to_lower : Str → Str) where
  pub by_profile :
      (c : Config) (agent : Str) (r : Row)
      → find_row model_profiles agent ≡ some r
      → str_eq (profile_of to_lower c) (str "inherit") ≡ false
      → resolve_by_profile to_lower c agent
        ≡ resolve_alias c.resolve_model_ids (alias_of r (profile_of to_lower c))
  unfolding resolve_by_profile
  by_profile c agent r h p = ground arith

  pub resolve_kept :
      (c : Config) (agent : Str)
      → override_of c.model_overrides agent ≡ []
      → c.resolve_model_ids ≢ omit
      → resolve_model_internal to_lower c agent ≡ resolve_by_profile to_lower c agent
  unfolding resolve_model_internal
  resolve_kept c agent o n = ground arith

  resolve_omitted :
      (c : Config) (agent : Str)
      → override_of c.model_overrides agent ≡ []
      → c.resolve_model_ids ≡ omit
      → resolve_model_internal to_lower c agent ≡ []
  unfolding resolve_model_internal
  resolve_omitted c agent o m = ground arith

  -- For an agent of the table that has no override, under a profile other than inherit, even one
  -- that does not exist, the answer is one of the three aliases, one of their full names or empty, as
  -- the setting asks.
  pub resolve_model_internal-allowed :
      (c : Config) (agent : Str) (r : Row)
      → override_of c.model_overrides agent ≡ []
      → find_row model_profiles agent ≡ some r
      → profile_of to_lower c ≢ str "inherit"
      → has (allowed c.resolve_model_ids) (resolve_model_internal to_lower c agent) ≡ true
  resolve_model_internal-allowed c agent r o h p = elim (omit-cases c.resolve_model_ids) [
    | inl m ↦ rw (resolve_omitted c agent o m, m) has_nil
    | inr n ↦
        let profile = profile_of to_lower c in
        let other = not_true _ (λ t. p ((str_eq_iff profile (str "inherit")).0 t)) in
        rw (resolve_kept c agent o n, by_profile c agent r h other)
          (alias_allowed c.resolve_model_ids (alias_of r profile) n
            (alias_good r profile (find_good model_profiles agent r all_good h)))
  ]
