-- ===== src/Models.antt =====
-- .kilo/get-shit-done/bin/lib/model-profiles.cjs: the table of models, and resolveModelInternal of
-- core.cjs, which chooses the model of an agent.
pub mod Resolve
pub mod Listing
mod Tests
use Prim.Native.String.{String}
use sagasmith.Common.{
  Bool, true, false, Option, none, some, List, [], ◌∷◌, map, non_empty, Str, str, str_eq,
  if◌then◌else◌,
}

abbrev pub opus : Str
opus = str "opus"

abbrev pub sonnet : Str
sonnet = str "sonnet"

abbrev pub haiku : Str
haiku = str "haiku"

-- An agent and its model under each profile.
pub record Row : Type 0 where
  pub agent : Str
  pub quality : Str
  pub balanced : Str
  pub budget : Str
  pub adaptive : Str

abbrev row : String → Str → Str → Str → Str → Row
row a q b c d = record { agent = str a; quality = q; balanced = b; budget = c; adaptive = d }

unfoldable pub model_profiles : List Row
model_profiles =
    row "gsd-planner" opus opus sonnet opus
    ∷ row "gsd-roadmapper" opus sonnet sonnet sonnet
    ∷ row "gsd-executor" opus sonnet sonnet sonnet
    ∷ row "gsd-phase-researcher" opus sonnet haiku sonnet
    ∷ row "gsd-project-researcher" opus sonnet haiku sonnet
    ∷ row "gsd-research-synthesizer" sonnet sonnet haiku haiku
    ∷ row "gsd-debugger" opus sonnet sonnet opus
    ∷ row "gsd-codebase-mapper" sonnet haiku haiku haiku
    ∷ row "gsd-verifier" sonnet sonnet haiku sonnet
    ∷ row "gsd-plan-checker" sonnet sonnet haiku haiku
    ∷ row "gsd-integration-checker" sonnet sonnet haiku haiku
    ∷ row "gsd-nyquist-auditor" sonnet sonnet haiku haiku
    ∷ row "gsd-pattern-mapper" sonnet sonnet haiku haiku
    ∷ row "gsd-ui-researcher" opus sonnet haiku sonnet
    ∷ row "gsd-ui-checker" sonnet sonnet haiku haiku
    ∷ row "gsd-ui-auditor" sonnet sonnet haiku haiku
    ∷ row "gsd-doc-writer" opus sonnet haiku sonnet
    ∷ row "gsd-doc-verifier" sonnet sonnet haiku haiku
    ∷ []

abbrev pub valid_profiles : List Str
valid_profiles = str "quality" ∷ str "balanced" ∷ str "budget" ∷ str "adaptive" ∷ []

-- MODEL_PROFILES[agent]
unfoldable pub find_row : List Row → Str → Option Row
find_row [] a = none
find_row (r ∷ rs) a = if str_eq r.agent a then some r else find_row rs a

-- agentModels[profile]
unfoldable pub model_of : Row → Str → Option Str
model_of r p =
    if str_eq p (str "quality")
    then some r.quality
    else if str_eq p (str "balanced")
    then some r.balanced
    else if str_eq p (str "budget")
    then some r.budget
    else if str_eq p (str "adaptive")
    then some r.adaptive
    else none

unfoldable pub get_agent_to_model_map_for_profile : Str → List (Str × Option Str)
unfolding model_profiles model_of
get_agent_to_model_map_for_profile profile = map (λ r. (r.agent, model_of r profile)) model_profiles

unfoldable pub model_alias_map : Str → Option Str
model_alias_map a =
    if str_eq a opus
    then some (str "claude-opus-4-6")
    else if str_eq a sonnet
    then some (str "claude-sonnet-4-6")
    else if str_eq a haiku
    then some (str "claude-haiku-4-5")
    else none

-- `resolve_model_ids`: a value that is not set, "omit", or another that is.
pub data ResolveIds : Type 0 where
  keep_alias omit full_id : ResolveIds

-- What is read of the configuration. An override or a profile that is empty counts as missing.
pub record Config : Type 0 where
  pub model_overrides : List (Str × Str)
  pub resolve_model_ids : ResolveIds
  pub model_profile : Str

unfoldable pub override_of : List (Str × Str) → Str → Str
override_of [] a = []
override_of ((b, m) ∷ os) a = if str_eq b a then m else override_of os a

abbrev pub or_fallback : Option Str → Str → Str
or_fallback none d = d
or_fallback (some m) d = m

unfoldable pub alias_of : Row → Str → Str
unfolding model_of
alias_of r profile = or_fallback (model_of r profile) r.balanced

unfoldable pub resolve_alias : ResolveIds → Str → Str
unfolding model_alias_map
resolve_alias keep_alias alias = alias
resolve_alias omit alias = or_fallback (model_alias_map alias) alias
resolve_alias full_id alias = or_fallback (model_alias_map alias) alias

module _ (to_lower : Str → Str) where
  unfoldable pub profile_of : Config → Str
  profile_of c = to_lower (if non_empty c.model_profile then c.model_profile else str "balanced")

  unfoldable pub resolve_by_profile : Config → Str → Str
  unfolding profile_of find_row alias_of resolve_alias model_profiles
  resolve_by_profile c agent = elim (find_row model_profiles agent) [
    | none ↦ sonnet
    | some r ↦
        if str_eq (profile_of c) (str "inherit")
        then str "inherit"
        else resolve_alias c.resolve_model_ids (alias_of r (profile_of c))
  ]

  unfoldable pub resolve_model_internal : Config → Str → Str
  unfolding override_of resolve_by_profile
  resolve_model_internal c agent =
      if non_empty (override_of c.model_overrides agent)
      then override_of c.model_overrides agent
      else elim c.resolve_model_ids [
        | omit ↦ []
        | keep_alias ↦ resolve_by_profile c agent
        | full_id ↦ resolve_by_profile c agent
      ]
