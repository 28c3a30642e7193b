-- ===== src/Config/Tests.antt =====
-- The configuration on small examples.
use sagasmith.Common.{
  true, false, ◌≡◌, refl, Option, none, some, [], ◌∷◌, Str, str, str_eq, has, split_at, starts_with,
}
use sagasmith.Common.Json.{
  Json, null, bool, number, string, array, no_items, first_item, object, Fields, end, field,
  get_field, put_field,
}
use sagasmith.Config.Keys.{
  is_valid_config_key, valid_config_keys, config_key_suggestions, suggestion,
}
use sagasmith.Config.Values.{own_field, set_in, get_in}
use sagasmith.Config.Values.Frame.{parts_at, set_in-keeps}
use sagasmith.Config.Values.RoundTrip.{is_open}
use sagasmith.Config.Defaults.{
  ApiKeys, merge_config, entries_of, hardcoded, workflow_defaults, migrate_depth, granularity_of,
}
use sagasmith.Config.Defaults.Precedence.{merge_config_section, first_of, is_unique}
use sagasmith.Config.Commands.{
  File, missing, holds, done, refused, did_you_mean, bad_context, names, parse_value, refusal,
  config_set, config_get,
}
use sagasmith.Config.Commands.RoundTrip.{config_set-config_get}
use sagasmith.Config.Commands.Context.{
  is_allowed, HasContext, start, step, Reached-HasContext, context_of,
}

-- Stand-ins that know one number and read no array or object.
abbrev to_number : Str → Option Json
to_number s = elim (str_eq s (str "3")) [ true ↦ some (number (str "3")) | false ↦ none ]

abbrev no_parse : Str → Option Json
no_parse s = none

abbrev text_of : Json → Str
text_of (string s) = s
text_of _ = []

abbrev workflow : Json
workflow = object (
    field (str "mode") (string (str "yolo"))
      (field (str "workflow") (object (field (str "research") (bool true) end)) end))

abbrev research : Str
research = str "workflow.research"

accepts_research :
    refusal to_number no_parse text_of research (parse_value to_number no_parse text_of (str "3"))
    ≡ none
unfolding refusal suggestion config_key_suggestions is_valid_config_key valid_config_keys has str_eq
accepts_research = refl

research_open : is_open (names research) workflow ≡ true
unfolding is_open names split_at str_eq get_field
research_open = refl

config_set-config_get_example :
    (w : Json) × (config_set to_number no_parse text_of (holds workflow) research (str "3")
      ≡ done (holds w) (get_in (names research) (some workflow)))
    × (config_get (holds w) research none
        ≡ done (holds w) (parse_value to_number no_parse text_of (str "3")))
config_set-config_get_example =
    config_set-config_get to_number no_parse text_of (holds workflow) research (str "3") workflow
      none accepts_research refl research_open

-- A null on the path ends the command by a TypeError, and a write through a name of an array is lost.
through_null :
    set_in
      (str "workflow" ∷ str "research" ∷ [])
      (bool true)
      (object (field (str "workflow") null end))
    ≡ none
unfolding set_in str_eq get_field
through_null = refl

through_array :
    set_in
      (str "workflow" ∷ str "research" ∷ [])
      (bool true)
      (object (field (str "workflow") (array no_items) end))
    ≡ some (object (field (str "workflow") (array no_items) end), none)
unfolding set_in str_eq get_field put_field
through_array = refl

abbrev skills : Json
skills = object (
    field (str "agent_skills")
      (array (first_item (string (str "a")) (first_item (string (str "b")) no_items))) end)

-- An index and the length of an array are read and written.
array_cut :
    set_in (str "agent_skills" ∷ str "length" ∷ []) (number (str "1")) skills
    ≡ some (
      object (field (str "agent_skills") (array (first_item (string (str "a")) no_items)) end),
      some (number (str "2")),
    )
unfolding set_in str_eq get_field put_field
array_cut = refl

array_set :
    set_in (str "agent_skills" ∷ str "2" ∷ []) null skills
    ≡ some (
      object (
          field
            (str "agent_skills")
            (array (
              first_item
                (string (str "a"))
                (first_item (string (str "b")) (first_item null no_items))))
            end),
      none,
    )
unfolding set_in str_eq get_field put_field
array_set = refl

array_read :
    (get_in (str "agent_skills" ∷ str "1" ∷ []) (some skills) ≡ some (string (str "b")))
    × (get_in (str "agent_skills" ∷ str "01" ∷ []) (some skills) ≡ none)
unfolding get_in str_eq get_field
array_read = (refl, refl)

set_research :
    set_in (str "workflow" ∷ str "research" ∷ []) (bool false) workflow
    ≡ some (
      object (
          field
            (str "mode")
            (string (str "yolo"))
            (field (str "workflow") (object (field (str "research") (bool false) end)) end)),
      some (bool true),
    )
unfolding set_in str_eq get_field put_field
set_research = refl

research_mode_apart :
    parts_at (str "workflow" ∷ str "research" ∷ []) (str "mode" ∷ []) workflow ≡ true
unfolding parts_at str_eq
research_mode_apart = refl

set_in-keeps_example :
    get_in (str "mode" ∷ []) (
      some (
        object (
          field
            (str "mode")
            (string (str "yolo"))
            (field (str "workflow") (object (field (str "research") (bool false) end)) end))))
    ≡ get_in (str "mode" ∷ []) (some workflow)
set_in-keeps_example =
    set_in-keeps (str "workflow") (str "research" ∷ []) (str "mode") [] (bool false) workflow
      (object (
        field (str "mode") (string (str "yolo"))
          (field (str "workflow") (object (field (str "research") (bool false) end)) end)))
      (some (bool true)) research_mode_apart set_research

research_valid : is_valid_config_key research ≡ true
unfolding is_valid_config_key valid_config_keys has str_eq
research_valid = refl

misspelt :
    config_set to_number no_parse text_of missing (str "workflow.codereview") (str "true")
    ≡ refused (did_you_mean (str "workflow.code_review"))
unfolding config_set suggestion config_key_suggestions str_eq
misspelt = refl

abbrev dev_file : File
dev_file = holds (object (field (str "context") (string (str "dev")) end))

set_dev :
    config_set to_number no_parse text_of missing (str "context") (str "dev") ≡ done dev_file none
unfolding config_set suggestion config_key_suggestions is_valid_config_key valid_config_keys has
    str_eq names split_at parse_value starts_with set_in get_field put_field
set_dev = refl

missing-HasContext : HasContext text_of missing
unfolding context_of is_allowed
missing-HasContext = refl

Reached-HasContext_example : HasContext text_of dev_file
Reached-HasContext_example =
    Reached-HasContext to_number no_parse text_of missing-HasContext
      (step (str "context") (str "dev") none start set_dev)

wrong_context :
    config_set to_number no_parse text_of dev_file (str "context") (str "prod")
    ≡ refused (bad_context (str "context"))
unfolding config_set suggestion config_key_suggestions is_valid_config_key valid_config_keys has
    str_eq parse_value starts_with
wrong_context = refl

abbrev no_keys : ApiKeys
no_keys = record {
  brave_env = false;
  brave_file = false;
  firecrawl_env = false;
  firecrawl_file = false;
  exa_env = false;
  exa_file = false;
}

abbrev no_index : Json → Fields
no_index v = end

abbrev choices : Json
choices = object (field (str "workflow") (object (field (str "tdd_mode") (bool true) end)) end)

merge_config_section_example :
    (m : Fields) × (get_field
        (merge_config no_index (hardcoded no_keys) (object end) choices)
        (str "workflow")
      ≡ some (object m))
    × (get_field m (str "tdd_mode")
        ≡ first_of (get_field (field (str "tdd_mode") (bool true) end) (str "tdd_mode")) (
            first_of
              (get_field end (str "tdd_mode"))
              (get_field workflow_defaults (str "tdd_mode"))))
unfolding str_eq is_unique entries_of own_field
merge_config_section_example =
    merge_config_section no_index (hardcoded no_keys) (object end) choices (str "workflow")
      (str "tdd_mode") workflow_defaults refl refl refl

migrates :
    migrate_depth text_of
      (field (str "depth") (string (str "quick")) end)
      (some (string (str "quick")))
    ≡ field (str "granularity") (string (str "coarse")) end
unfolding migrate_depth granularity_of get_field put_field str_eq
migrates = refl

same_case : Str → Str
same_case s = s
