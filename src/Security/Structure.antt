-- ===== src/Security/Structure.antt =====
-- `validatePromptStructure` of security.cjs.
pub mod Tags
use sagasmith.Common.{
  Bool, true, false, ◌&&◌, ◌||◌, not, List, [], ◌∷◌, ◌++◌, map, filter, leb, ◌==◌, ◌+◌, ℕ, Str, str,
  has, non_empty, if◌then◌else◌, is_digit,
}
use sagasmith.Phases.{is_letter, is_upper}

unfoldable pub known_valid_tags : List Str
known_valid_tags =
    str "objective"
    ∷ str "process"
    ∷ str "step"
    ∷ str "success_criteria"
    ∷ str "critical_rules"
    ∷ str "available_agent_types"
    ∷ str "purpose"
    ∷ str "required_reading"
    ∷ []

-- 'agent', 'workflow', or any other type.
pub data FileType : Type 0 where
  agent workflow other : FileType

pub record Structure : Type 0 where
  pub valid : Bool
  pub violations : List Str

-- [A-Za-z0-9_-]
abbrev pub is_tag_char : ℕ → Bool
is_tag_char c = is_letter c || is_digit c || (c == b'_') || (c == b'-')

unfoldable pub name_at : Str → Str
name_at [] = []
name_at (c ∷ s) = let rest = name_at s in if is_tag_char c then c ∷ rest else []

abbrev pub starts_letter : Str → Bool
starts_letter [] = false
starts_letter (c ∷ s) = is_letter c

-- The groups of /<([A-Za-z][A-Za-z0-9_-]*)/g in order. A name has no `<`, so the search may go on
-- within it.
unfoldable pub tags_of : Str → List Str
unfolding name_at
tags_of [] = []
tags_of (c ∷ s) =
    let rest = tags_of s in if (c == b'<') && starts_letter s then name_at s ∷ rest else rest

-- toLowerCase of a name, whose characters are ASCII.
abbrev pub lower : Str → Str
lower s = map (λ c. if is_upper c then c + 32 else c) s

abbrev pub type_name : FileType → Str
type_name agent = str "agent"
type_name workflow = str "workflow"
type_name other = []

abbrev pub known : Str → Bool
known tag = has known_valid_tags (lower tag)

unfoldable pub violations_of : FileType → Str → List Str
unfolding tags_of
violations_of type text =
    map
      (λ tag.
        str "Unknown XML tag in " ++ (type_name type ++ (str " file: <" ++ (lower tag ++ str ">"))))
      (filter (λ tag. not (known tag)) (tags_of text))

unfoldable pub validate_prompt_structure : Str → FileType → Structure
unfolding violations_of
validate_prompt_structure text other = record { valid = true; violations = [] }
validate_prompt_structure text agent = record {
  valid = not (non_empty (violations_of agent text));
  violations = violations_of agent text;
}
validate_prompt_structure text workflow = record {
  valid = not (non_empty (violations_of workflow text));
  violations = violations_of workflow text;
}
