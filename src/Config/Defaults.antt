-- ===== src/Config/Defaults.antt =====
-- buildNewProjectConfig: the settings of a new project, from the built-in values (CONFIG_DEFAULTS of
-- core.cjs among them), the user's ~/.gsd/defaults.json and the choices made for the project.
-- The sections that use them: `string_of` is String(v), and `indexed` the numbered fields that spreading
-- an array or a text gives. The order of fields is that of an object without integer names.
pub mod Precedence
use sagasmith.Common.{
  Bool, true, false, ◌||◌, ◌&&◌, not, Option, none, some, List, [], ◌∷◌, Str, str, str_eq,
  if◌then◌else◌,
}
use sagasmith.Common.Json.{
  Json, null, bool, number, string, array, no_items, object, Fields, end, field, get_field,
  put_field, spread,
}
use sagasmith.Config.Values.{own_field}

-- CONFIG_DEFAULTS
abbrev pub config_defaults : Fields
config_defaults = field (str "model_profile") (string (str "balanced")) (
    field (str "commit_docs") (bool true) (
      field (str "search_gitignored") (bool false) (
        field (str "branching_strategy") (string (str "none")) (
          field (str "phase_branch_template") (string (str "gsd/phase-{phase}-{slug}")) (
            field (str "milestone_branch_template") (string (str "gsd/{milestone}-{slug}")) (
              field (str "quick_branch_template") null (
                field (str "research") (bool true) (
                  field (str "plan_checker") (bool true) (
                    field (str "verifier") (bool true) (
                      field (str "nyquist_validation") (bool true) (
                        field (str "ai_integration_phase") (bool true) (
                          field (str "parallelization") (bool true) (
                            field (str "brave_search") (bool false) (
                              field (str "firecrawl") (bool false) (
                                field (str "exa_search") (bool false) (
                                  field (str "text_mode") (bool false) (
                                    field (str "sub_repos") (array no_items) (
                                      field (str "resolve_model_ids") (bool false) (
                                        field (str "context_window") (number (str "200000")) (
                                          field (str "phase_naming") (string (str "sequential")) (
                                            field (str "project_code") null (
                                              field (str "subagent_timeout") (number (str "300000"))
                                                end))))))))))))))))))))))

-- The API keys that the environment or a file below ~/.gsd holds.
pub record ApiKeys : Type 0 where
  pub brave_env : Bool
  pub brave_file : Bool
  pub firecrawl_env : Bool
  pub firecrawl_file : Bool
  pub exa_env : Bool
  pub exa_file : Bool

unfoldable pub default_of : Str → Json
unfolding get_field
default_of k = elim (get_field config_defaults k) [ none ↦ null | some v ↦ v ]

unfoldable pub git_defaults : Fields
unfolding default_of
git_defaults = field (str "branching_strategy") (default_of (str "branching_strategy")) (
    field (str "phase_branch_template") (default_of (str "phase_branch_template")) (
      field (str "milestone_branch_template") (default_of (str "milestone_branch_template"))
        (field (str "quick_branch_template") (default_of (str "quick_branch_template")) end)))

unfoldable pub workflow_defaults : Fields
workflow_defaults = field (str "research") (bool true) (
    field (str "plan_check") (bool true) (
      field (str "verifier") (bool true) (
        field (str "nyquist_validation") (bool true) (
          field (str "auto_advance") (bool false) (
            field (str "node_repair") (bool true) (
              field (str "node_repair_budget") (number (str "2")) (
                field (str "ui_phase") (bool true) (
                  field (str "ui_safety_gate") (bool true) (
                    field (str "ai_integration_phase") (bool true) (
                      field (str "tdd_mode") (bool false) (
                        field (str "text_mode") (bool false) (
                          field (str "research_before_questions") (bool false) (
                            field (str "discuss_mode") (string (str "discuss")) (
                              field (str "skip_discuss") (bool false) (
                                field (str "code_review") (bool true) (
                                  field (str "code_review_depth") (string (str "standard")) (
                                    field (str "code_review_command") null (
                                      field (str "pattern_mapper") (bool true) (
                                        field (str "plan_bounce") (bool false) (
                                          field (str "plan_bounce_script") null (
                                            field (str "plan_bounce_passes") (number (str "2")) (
                                              field (str "auto_prune_state") (bool false)
                                                end))))))))))))))))))))))

unfoldable pub hooks_defaults : Fields
hooks_defaults = field (str "context_warnings") (bool true) end

unfoldable pub hardcoded : ApiKeys → Fields
unfolding default_of git_defaults workflow_defaults hooks_defaults
hardcoded keys = field (str "model_profile") (default_of (str "model_profile")) (
    field (str "commit_docs") (default_of (str "commit_docs")) (
      field (str "parallelization") (default_of (str "parallelization")) (
        field (str "search_gitignored") (default_of (str "search_gitignored")) (
          field (str "brave_search") (bool (keys.brave_env || keys.brave_file)) (
            field (str "firecrawl") (bool (keys.firecrawl_env || keys.firecrawl_file)) (
              field (str "exa_search") (bool (keys.exa_env || keys.exa_file)) (
                field (str "git") (object git_defaults) (
                  field (str "workflow") (object workflow_defaults) (
                    field (str "hooks") (object hooks_defaults) (
                      field (str "project_code") null (
                        field (str "phase_naming") (string (str "sequential")) (
                          field (str "agent_skills") (object end) (
                            field (str "claude_md_path") (string (str "./CLAUDE.md"))
                              end)))))))))))))

unfoldable pub remove_field : Fields → Str → Fields
remove_field end k = end
remove_field (field j v fs) k =
    let rest = remove_field fs k in if str_eq j k then rest else field j v rest

unfoldable pub has_field : Fields → Str → Bool
unfolding get_field
has_field fs k = elim (get_field fs k) [ none ↦ false | some v ↦ true ]

abbrev pub depth_to_granularity : Fields
depth_to_granularity = field (str "quick") (string (str "coarse")) (
    field (str "standard") (string (str "standard"))
      (field (str "comprehensive") (string (str "fine")) end))

abbrev or_else : Option Json → Json → Json
or_else none d = d
or_else (some v) d = v

module _ (string_of : Json → Str) where
  unfoldable pub granularity_of : Json → Json
  unfolding get_field
  granularity_of depth = or_else (get_field depth_to_granularity (string_of depth)) depth

  -- The deprecated "depth" becomes "granularity".
  unfoldable pub migrate_depth : Fields → Option Json → Fields
  unfolding has_field put_field remove_field granularity_of
  migrate_depth fs none = fs
  migrate_depth fs (some depth) =
      if has_field fs (str "granularity")
      then fs
      else remove_field (put_field fs (str "granularity") (granularity_of depth)) (str "depth")

  -- What the try block leaves in userDefaults, from the file's value (none: absent or malformed).
  unfoldable pub user_defaults : Option Json → Json
  unfolding migrate_depth get_field
  user_defaults none = object end
  user_defaults (some null) = null
  user_defaults (some (bool b)) = bool b
  user_defaults (some (number t)) = number t
  user_defaults (some (string t)) = string t
  user_defaults (some (array t)) = array t
  user_defaults (some (object fs)) = object (migrate_depth fs (get_field fs (str "depth")))

module _ (indexed : Json → Fields) where
  -- The fields that { ...v } copies.
  unfoldable pub entries : Json → Fields
  entries null = end
  entries (bool b) = end
  entries (number t) = end
  entries (string []) = end
  entries (string (c ∷ t)) = indexed (string (c ∷ t))
  entries (array t) = indexed (array t)
  entries (object fs) = fs

  unfoldable pub entries_of : Option Json → Fields
  unfolding entries
  entries_of none = end
  entries_of (some v) = entries v

  -- { ...built_in[s], ...(defaults[s] || {}), ...(choices[s] || {}) }
  unfoldable pub merge_section : Fields → Json → Json → Str → Json
  unfolding entries_of spread own_field
  merge_section built_in defaults choices s = object (
      spread (spread built_in (entries_of (own_field defaults s)))
        (entries_of (own_field choices s)))

  -- The object that is returned.
  unfoldable pub merge_config : Fields → Json → Json → Fields
  unfolding entries spread merge_section git_defaults workflow_defaults hooks_defaults
  merge_config built_in defaults choices =
      let top = spread (spread built_in (entries defaults)) (entries choices) in
      let git =
        put_field top (str "git") (merge_section git_defaults defaults choices (str "git")) in
      let workflow =
        put_field git (str "workflow")
          (merge_section workflow_defaults defaults choices (str "workflow")) in
      let hooks =
        put_field workflow (str "hooks")
          (merge_section hooks_defaults defaults choices (str "hooks")) in
      put_field hooks (str "agent_skills") (merge_section end defaults choices (str "agent_skills"))

module _ (string_of : Json → Str) (indexed : Json → Fields) where
  -- None where reading a field of null throws.
  abbrev with_defaults : ApiKeys → Json → Json → Option Fields
  with_defaults keys null choices = none
  with_defaults keys defaults choices =
      some (merge_config indexed (hardcoded keys) defaults choices)

  unfoldable pub build_new_project_config : ApiKeys → Option Json → Json → Option Fields
  unfolding merge_config hardcoded user_defaults
  build_new_project_config keys file choices =
      with_defaults keys (user_defaults string_of file) choices
