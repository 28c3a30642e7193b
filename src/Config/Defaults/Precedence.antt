-- ===== src/Config/Defaults/Precedence.antt =====
-- Which of the three sources a setting of a new project comes from.
use sagasmith.Common.{
  Bool, true, false, ◌≡◌, refl, ◌&&◌, Option, none, some, ap, ◌∙◌, sym, Str, str, str_eq,
  str_eq_iff, if◌then◌else◌, and-eq-true, true_not_false, Bool-cases, inl, inr, arith,
}
use sagasmith.Common.Json.{
  Json, object, Fields, end, field, get_field, put_field, spread, get_field-put_field,
}
use sagasmith.Config.Values.{own_field}
use sagasmith.Config.Defaults.{
  entries, entries_of, merge_section, merge_config, git_defaults, workflow_defaults, hooks_defaults,
}

-- The first source that has the field.
unfoldable pub first_of : Option Json → Option Json → Option Json
first_of none o = o
first_of (some v) o = some v

abbrev absent : Option Json → Bool
absent none = true
absent (some v) = false

unfoldable pub is_unique : Fields → Bool
unfolding get_field
is_unique end = true
is_unique (field k v fs) = let rest = is_unique fs in absent (get_field fs k) && rest

absent-none : (o : Option Json) → absent o ≡ true → o ≡ none
absent-none none h = refl
absent-none (some v) h = absurd (true_not_false h refl)

replace_first :
    (j k : Str) (v : Json) (later old : Option Json)
    → (j ≡ k → later ≡ none)
    → first_of later (if str_eq j k then some v else old)
      ≡ first_of (if str_eq j k then some v else later) old
unfolding first_of
replace_first j k v later old h = elim (Bool-cases (str_eq j k)) [
  | inl e ↦ rw (h ((str_eq_iff j k).0 e), e) refl
  | inr e ↦ rw e refl
]

get_field-spread :
    (p o : Fields) (k : Str)
    → is_unique p ≡ true
    → get_field (spread o p) k ≡ first_of (get_field p k) (get_field o k)
unfolding spread is_unique first_of
get_field-spread end o k u = refl
get_field-spread (field j v p) o k u =
    let (new, rest) = and-eq-true (absent (get_field p j)) (is_unique p) u in
    rw (get_field-spread p (put_field o j v) k rest, get_field-put_field o j k v)
      (replace_first j k v (get_field p k) (get_field o k)
        (λ e. ap (get_field p) (sym e) ∙ absent-none (get_field p j) new))

abbrev section_defaults : Str → Option Fields
section_defaults s =
    if str_eq (str "agent_skills") s
    then some end
    else if str_eq (str "hooks") s
    then some hooks_defaults
    else if str_eq (str "workflow") s
    then some workflow_defaults
    else if str_eq (str "git") s
    then some git_defaults
    else none

-- The field k of `{ ...built_in, ...defaults, ...choices }`.
abbrev chosen : Fields → Fields → Fields → Str → Option Json
chosen built_in defaults choices k =
    first_of (get_field choices k) (first_of (get_field defaults k) (get_field built_in k))

get_field_merged :
    (built_in defaults choices : Fields) (k : Str)
    → is_unique defaults ≡ true
    → is_unique choices ≡ true
    → get_field (spread (spread built_in defaults) choices) k ≡ chosen built_in defaults choices k
get_field_merged built_in defaults choices k u v =
    rw
      (
        get_field-spread choices (spread built_in defaults) k v,
        get_field-spread defaults built_in k u,
      )
      refl

abbrev with_section : (Fields → Json) → Option Json → Option Fields → Option Json
with_section merged top none = top
with_section merged top (some own) = some (merged own)

-- The four sections are put over the merged fields.
get_field_sections :
    (top : Fields) (f : Fields → Str → Json) (k : Str)
    → get_field
        (put_field
          (put_field
            (put_field
              (put_field top (str "git") (f git_defaults (str "git")))
              (str "workflow")
              (f workflow_defaults (str "workflow")))
            (str "hooks")
            (f hooks_defaults (str "hooks")))
          (str "agent_skills")
          (f end (str "agent_skills")))
        k
      ≡ with_section (λ own. f own k) (get_field top k) (section_defaults k)
get_field_sections top f k =
    let git = put_field top (str "git") (f git_defaults (str "git")) in
    let workflow = put_field git (str "workflow") (f workflow_defaults (str "workflow")) in
    let hooks = put_field workflow (str "hooks") (f hooks_defaults (str "hooks")) in
    ground (
      arith,
      get_field-put_field hooks (str "agent_skills") k (f end (str "agent_skills")),
      get_field-put_field workflow (str "hooks") k (f hooks_defaults (str "hooks")),
      get_field-put_field git (str "workflow") k (f workflow_defaults (str "workflow")),
      get_field-put_field top (str "git") k (f git_defaults (str "git")),
      str_eq_iff (str "agent_skills") k,
      str_eq_iff (str "hooks") k,
      str_eq_iff (str "workflow") k,
      str_eq_iff (str "git") k,
    )

module _ (indexed : Json → Fields) where
  pub merge_config_plain :
      (built_in : Fields) (defaults choices : Json) (k : Str)
      → section_defaults k ≡ none
      → is_unique (entries indexed defaults) ≡ true
      → is_unique (entries indexed choices) ≡ true
      → get_field (merge_config indexed built_in defaults choices) k
        ≡ chosen built_in (entries indexed defaults) (entries indexed choices) k
  unfolding merge_config
  merge_config_plain built_in defaults choices k plain u v =
      let top = spread (spread built_in (entries indexed defaults)) (entries indexed choices) in
      let section : Fields → Str → Json = λ own s. merge_section indexed own defaults choices s in
      get_field_sections top section k
      ∙ ap (with_section (λ own. section own k) (get_field top k)) plain
      ∙ get_field_merged built_in (entries indexed defaults) (entries indexed choices) k u v

  -- In the settings of a new project, each of the sections git, workflow, hooks and agent_skills
  -- is an object, and a field of it is the project choices' where they have it, else the user
  -- defaults', else the built-in one, provided that no field is given twice within a source.
  pub merge_config_section :
      (built_in : Fields) (defaults choices : Json) (s k : Str) (own : Fields)
      → section_defaults s ≡ some own
      → is_unique (entries_of indexed (own_field defaults s)) ≡ true
      → is_unique (entries_of indexed (own_field choices s)) ≡ true
      → (m : Fields) × (get_field (merge_config indexed built_in defaults choices) s
          ≡ some (object m))
        × (get_field m k
            ≡ chosen own
                (entries_of indexed (own_field defaults s))
                (entries_of indexed (own_field choices s))
                k)
  unfolding merge_config merge_section
  merge_config_section built_in defaults choices s k own section u v =
      let top = spread (spread built_in (entries indexed defaults)) (entries indexed choices) in
      let d = entries_of indexed (own_field defaults s) in
      let c = entries_of indexed (own_field choices s) in
      (
        spread (spread own d) c,
        get_field_sections top (λ b r. merge_section indexed b defaults choices r) s
            ∙ ap (with_section (λ b. merge_section indexed b defaults choices s) (get_field top s))
                section,
        get_field_merged own d c k u v,
      )
