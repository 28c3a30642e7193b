-- ===== src/Config/Commands.antt =====
-- The commands config-set, config-get, config-new-project, config-ensure-section and
-- config-set-model-profile. A command that ends the process by error() is `refused`; one that an
-- uncaught TypeError ends is `crashed`. The file is what JSON.parse gives on it, and a write succeeds.
-- Of code that is not modelled: `to_number s` is Number(s) as JSON.stringify writes it, none for NaN;
-- `parse` is JSON.parse; `string_of` is String(v); `lower` is toLowerCase().
pub mod RoundTrip
pub mod Apart
pub mod Done
pub mod Context
use sagasmith.Common.{
  Bool, true, false, ◌||◌, ◌&&◌, not, Option, none, some, List, [], ◌∷◌, Str, str, str_eq, has,
  starts_with, split_at, ◌==◌, non_empty, if◌then◌else◌,
}
use sagasmith.Common.Spaces.{trim}
use sagasmith.Common.Json.{Json, null, bool, number, string, array, object, Fields, end, get_field}
use sagasmith.Config.Keys.{is_valid_config_key, config_key_suggestions, suggestion}
use sagasmith.Config.Values.{set_in, get_in}
use sagasmith.Config.Defaults.{ApiKeys, build_new_project_config}
use sagasmith.Models.{valid_profiles, get_agent_to_model_map_for_profile}

pub data File : Type 0 where
  missing malformed : File
  holds : Json → File

pub data Refusal : Type 0 where
  usage unreadable not_found no_config unknown_profile bad_choices : Refusal
  did_you_mean : Str → Refusal
  unknown_key bad_context : Str → Refusal

-- A command's end: the file after it and what it reports.
pub data Outcome (A : Type 0) : Type 0 where
  done : File → A → Outcome A
  refused : Refusal → Outcome A
  crashed : Outcome A

-- keyPath.split('.')
unfoldable pub names : Str → List Str
unfolding split_at
names path = let (h, t) = split_at (λ c. c == b'.') path in h ∷ t

abbrev or_empty : File → Option Json
or_empty missing = some (object end)
or_empty malformed = none
or_empty (holds j) = some j

abbrev written : Option (Json × Option Json) → Outcome (Option Json)
written none = crashed
written (some (j, previous)) = done (holds j) previous

abbrev write_at : Str → Json → Option Json → Outcome (Option Json)
write_at path v none = refused unreadable
write_at path v (some j) = written (set_in (names path) v j)

-- The previous value is reported.
unfoldable pub set_config_value : File → Str → Json → Outcome (Option Json)
unfolding set_in names
set_config_value file path v = write_at path v (or_empty file)

abbrev unless : Outcome (Option Json) → Option Refusal → Outcome (Option Json)
unless o none = o
unless o (some r) = refused r

abbrev or_text : Str → Option Json → Json
or_text value none = string value
or_text value (some j) = j

abbrev pub context_values : List Str
context_values = str "dev" ∷ str "research" ∷ str "review" ∷ []

-- The checks in their order: no path, a known mistake, an unknown key, a wrong context.
abbrev refusal_of : Str → Bool → Option Str → Bool → Bool → Option Refusal
refusal_of path true s valid wrong = some usage
refusal_of path false (some s) valid wrong = some (did_you_mean s)
refusal_of path false none false wrong = some (unknown_key path)
refusal_of path false none true true = some (bad_context path)
refusal_of path false none true false = none

abbrev refuses : Option Refusal → Bool
refuses none = false
refuses (some r) = true

module _ (to_number parse : Str → Option Json) (string_of : Json → Str) where
  unfoldable pub parse_value : Str → Json
  unfolding str_eq starts_with
  parse_value value =
      if str_eq value (str "true")
      then bool true
      else if str_eq value (str "false")
      then bool false
      else elim (if str_eq value [] then none else to_number value) [
        | some n ↦ n
        | none ↦
            if starts_with value (str "[") || starts_with value (str "{")
            then or_text value (parse value)
            else string value
      ]

  unfoldable pub refusal : Str → Json → Option Refusal
  unfolding suggestion config_key_suggestions is_valid_config_key has
  refusal path v =
      refusal_of path (str_eq path []) (suggestion config_key_suggestions path)
        (is_valid_config_key path)
        (str_eq path (str "context") && not (has context_values (string_of v)))

  unfoldable pub config_set : File → Str → Str → Outcome (Option Json)
  unfolding parse_value refusal set_config_value
  config_set file path value =
      unless (set_config_value file path (parse_value value)) (refusal path (parse_value value))

-- With --default, the default is reported in place of a missing file or key.
abbrev found_or : File → Option Str → Option Json → Outcome Json
found_or file default (some v) = done file v
found_or file (some d) none = done file (string d)
found_or file none none = refused not_found

unfoldable pub config_get : File → Str → Option Str → Outcome Json
unfolding get_in names
config_get file [] default = refused usage
config_get missing (c ∷ path) none = refused no_config
config_get missing (c ∷ path) (some d) = done missing (string d)
config_get malformed (c ∷ path) default = refused unreadable
config_get (holds j) (c ∷ path) default =
    found_or (holds j) default (get_in (names (c ∷ path)) (some j))

abbrev created_from : Option Fields → Outcome Bool
created_from none = crashed
created_from (some fs) = done (holds (object fs)) true

module _ (string_of : Json → Str) (indexed : Json → Fields) (keys : ApiKeys)
    (user_file : Option Json) where
  -- Whether the file is created is reported.
  unfoldable pub ensure_config_file : File → Outcome Bool
  unfolding build_new_project_config
  ensure_config_file missing =
      created_from (build_new_project_config string_of indexed keys user_file (object end))
  ensure_config_file malformed = done malformed false
  ensure_config_file (holds j) = done (holds j) false

  abbrev create_with : Option Json → Outcome Bool
  create_with none = refused bad_choices
  create_with (some choices) =
      created_from (build_new_project_config string_of indexed keys user_file choices)

  unfoldable pub config_new_project : (Str → Option Json) → File → Str → Outcome Bool
  unfolding build_new_project_config trim
  config_new_project parse missing choices =
      create_with (if non_empty (trim choices) then parse choices else some (object end))
  config_new_project parse malformed choices = done malformed false
  config_new_project parse (holds j) choices = done (holds j) false

  -- previousValue || 'balanced'
  unfoldable pub previous_profile : Option Json → Json
  unfolding str_eq
  previous_profile none = string (str "balanced")
  previous_profile (some null) = string (str "balanced")
  previous_profile (some (bool b)) = if b then bool true else string (str "balanced")
  previous_profile (some (number t)) =
      if str_eq t (str "0") then string (str "balanced") else number t
  previous_profile (some (string t)) = if non_empty t then string t else string (str "balanced")
  previous_profile (some (array t)) = array t
  previous_profile (some (object fs)) = object fs

  abbrev profile_report :
      Str → Outcome (Option Json) → Outcome (Str × Json × List (Str × Option Str))
  profile_report p (done file old) =
      done file (p, previous_profile old, get_agent_to_model_map_for_profile p)
  profile_report p (refused r) = refused r
  profile_report p crashed = crashed

  abbrev set_profile : Str → Outcome Bool → Outcome (Str × Json × List (Str × Option Str))
  set_profile p (done file created) =
      profile_report p (set_config_value file (str "model_profile") (string p))
  set_profile p (refused r) = refused r
  set_profile p crashed = crashed

  -- The profile, the previous one and the model of each agent are reported.
  unfoldable pub config_set_model_profile :
      (Str → Str) → File → Str → Outcome (Str × Json × List (Str × Option Str))
  unfolding has set_config_value ensure_config_file previous_profile trim
      get_agent_to_model_map_for_profile
  config_set_model_profile lower file profile =
      let normalized = trim (lower profile) in
      if not (non_empty profile)
      then refused usage
      else if not (has valid_profiles normalized)
      then refused unknown_profile
      else set_profile normalized (ensure_config_file file)
