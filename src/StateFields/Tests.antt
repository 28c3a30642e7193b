-- ===== src/StateFields/Tests.antt =====
-- Fields of small state files.
use sagasmith.Common.{ℕ, none, some, Str, str, true, false, ◌≡◌, refl, ap, sym, ◌∙◌}
use sagasmith.Common.Spaces.{trim}
use sagasmith.StateFields.{
  state_extract_field, state_replace_field, state_replace_field_with_fallback, first_value,
  replace_value, bold,
}
use sagasmith.StateFields.RoundTrip.Found.{some_same}
use sagasmith.StateFields.RoundTrip.Again.{state_extract_field-state_replace_field}

abbrev same_case : ℕ → ℕ
same_case c = c

abbrev old_state : Str
old_state = str "# State\n**Status:** ready\nPlan: 2"

abbrev new_state : Str
new_state = str "# State\n**Status:** done\nPlan: 2"

status_replaced :
    state_replace_field same_case old_state (str "Status") (str "done") ≡ some new_state
unfolding state_replace_field
status_replaced = refl

plan_read : state_extract_field same_case old_state (str "Plan") ≡ some (str "2")
unfolding state_extract_field
plan_read = refl

-- An empty field: the line below it is read, and is lost when the field is set.
line_below :
    state_extract_field same_case (str "Status:\nPlan: 2") (str "Status") ≡ some (str "Plan: 2")
unfolding state_extract_field
line_below = refl

line_lost :
    state_replace_field same_case (str "Status:\nPlan: 2") (str "Status") (str "done")
    ≡ some (str "Status:\ndone")
unfolding state_replace_field
line_lost = refl

fallback_taken :
    state_replace_field_with_fallback same_case old_state
      (str "Current Plan")
      (some (str "Plan"))
      (str "3")
    ≡ (str "# State\n**Status:** ready\nPlan: 3", false)
unfolding state_replace_field_with_fallback
fallback_taken = refl

plan_replaced :
    state_replace_field same_case old_state (str "Plan") (str "3")
    ≡ some (str "# State\n**Status:** ready\nPlan: 3")
unfolding state_replace_field
plan_replaced = refl

no_bold_plan :
    first_value same_case false (bold (str "Plan")) true (str "# State\n**Status:** ready\nPlan: 3")
    ≡ none
unfolding first_value
no_bold_plan = refl

plan_not_bold :
    (out : Str)
    → state_replace_field same_case old_state (str "Plan") (str "3") ≡ some out
    → replace_value same_case false (bold (str "Plan")) (str "3") true old_state ≡ none
    → first_value same_case false (bold (str "Plan")) true out ≡ none
plan_not_bold out e h =
    ap (first_value same_case false (bold (str "Plan")) true)
      (some_same out (str "# State\n**Status:** ready\nPlan: 3") (sym e ∙ plan_replaced))
    ∙ no_bold_plan

state_extract_field-state_replace_field_example :
    (out : Str) × (state_replace_field same_case old_state (str "Plan") (str "3") ≡ some out)
    × (state_extract_field same_case out (str "Plan") ≡ some (trim (str "3")))
unfolding trim
state_extract_field-state_replace_field_example =
    state_extract_field-state_replace_field same_case old_state (str "Plan") (str "3") (str "2")
      refl refl plan_read plan_not_bold
