-- ===== src/Config/Keys.antt =====
-- The keys of config.json.
pub mod Suggested
use sagasmith.Common.{
  ℕ, Bool, ◌||◌, Option, none, some, List, [], ◌∷◌, ◌==◌, ◌&&◌, leb, Str, str, str_eq, has,
  is_digit, if◌then◌else◌,
}
use sagasmith.Common.Regex.{Regex, seq, chr, plus, lit, full}
use sagasmith.Phases.{is_letter}

unfoldable pub valid_config_keys : List Str
valid_config_keys =
    str "mode"
    ∷ str "granularity"
    ∷ str "parallelization"
    ∷ str "commit_docs"
    ∷ str "model_profile"
    ∷ str "search_gitignored"
    ∷ str "brave_search"
    ∷ str "firecrawl"
    ∷ str "exa_search"
    ∷ str "workflow.research"
    ∷ str "workflow.plan_check"
    ∷ str "workflow.verifier"
    ∷ str "workflow.nyquist_validation"
    ∷ str "workflow.ai_integration_phase"
    ∷ str "workflow.ui_phase"
    ∷ str "workflow.ui_safety_gate"
    ∷ str "workflow.auto_advance"
    ∷ str "workflow.node_repair"
    ∷ str "workflow.node_repair_budget"
    ∷ str "workflow.tdd_mode"
    ∷ str "workflow.text_mode"
    ∷ str "workflow.research_before_questions"
    ∷ str "workflow.discuss_mode"
    ∷ str "workflow.skip_discuss"
    ∷ str "workflow.auto_prune_state"
    ∷ str "workflow._auto_chain_active"
    ∷ str "workflow.use_worktrees"
    ∷ str "workflow.code_review"
    ∷ str "workflow.code_review_depth"
    ∷ str "workflow.code_review_command"
    ∷ str "workflow.pattern_mapper"
    ∷ str "workflow.plan_bounce"
    ∷ str "workflow.plan_bounce_script"
    ∷ str "workflow.plan_bounce_passes"
    ∷ str "git.branching_strategy"
    ∷ str "git.base_branch"
    ∷ str "git.phase_branch_template"
    ∷ str "git.milestone_branch_template"
    ∷ str "git.quick_branch_template"
    ∷ str "planning.commit_docs"
    ∷ str "planning.search_gitignored"
    ∷ str "workflow.cross_ai_execution"
    ∷ str "workflow.cross_ai_command"
    ∷ str "workflow.cross_ai_timeout"
    ∷ str "workflow.subagent_timeout"
    ∷ str "workflow.inline_plan_threshold"
    ∷ str "hooks.context_warnings"
    ∷ str "features.thinking_partner"
    ∷ str "context"
    ∷ str "features.global_learnings"
    ∷ str "learnings.max_inject"
    ∷ str "project_code"
    ∷ str "phase_naming"
    ∷ str "manager.flags.discuss"
    ∷ str "manager.flags.plan"
    ∷ str "manager.flags.execute"
    ∷ str "response_language"
    ∷ str "intel.enabled"
    ∷ str "graphify.enabled"
    ∷ str "graphify.build_timeout"
    ∷ str "claude_md_path"
    ∷ []

abbrev pub is_name_char : ℕ → Bool
is_name_char c = is_letter c || is_digit c || (c == b'_')

-- /^prefix[a-zA-Z0-9_-]+$/
abbrev pub under : Str → Regex
under prefix = seq (lit prefix) (plus (chr (λ c. is_name_char c || (c == b'-'))))

-- /^features\.[a-zA-Z0-9_]+$/
abbrev pub feature : Regex
feature = seq (lit (str "features.")) (plus (chr is_name_char))

unfoldable pub is_valid_config_key : Str → Bool
unfolding full
is_valid_config_key key =
    has valid_config_keys key
    || full (under (str "agent_skills.")) key
    || full (under (str "review.models.")) key
    || full feature key

unfoldable pub config_key_suggestions : List (Str × Str)
config_key_suggestions =
    (str "workflow.nyquist_validation_enabled", str "workflow.nyquist_validation")
    ∷ (str "agents.nyquist_validation_enabled", str "workflow.nyquist_validation")
    ∷ (str "nyquist.validation_enabled", str "workflow.nyquist_validation")
    ∷ (str "hooks.research_questions", str "workflow.research_before_questions")
    ∷ (str "workflow.research_questions", str "workflow.research_before_questions")
    ∷ (str "workflow.codereview", str "workflow.code_review")
    ∷ (str "workflow.review_command", str "workflow.code_review_command")
    ∷ (str "workflow.review", str "workflow.code_review")
    ∷ (str "workflow.code_review_level", str "workflow.code_review_depth")
    ∷ (str "workflow.review_depth", str "workflow.code_review_depth")
    ∷ (str "review.model", str "review.models.<cli-name>")
    ∷ []

unfoldable pub suggestion : List (Str × Str) → Str → Option Str
suggestion [] k = none
suggestion ((j, s) ∷ t) k = if str_eq j k then some s else suggestion t k
