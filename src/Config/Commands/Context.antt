-- ===== src/Config/Commands/Context.antt =====
-- The setting "context": config-set keeps it one of the three that are allowed.
use sagasmith.Common.{
  Bool, true, false, ◌≡◌, refl, ◌&&◌, not, Option, none, some, [], ◌∷◌, Str, str, str_eq, has,
  split_at, ◌==◌, inl, inr, sym, ap, ◌∙◌, some_inj, true_not_false,
}
use sagasmith.Common.Json.{Json, null, bool, number, string, array, object, get_field}
use sagasmith.Config.Keys.{suggestion, config_key_suggestions, is_valid_config_key}
use sagasmith.Config.Values.{set_in, get_in, own_field, with_field}
use sagasmith.Config.Values.Frame.{
  set_in-keeps, is_ordinary, parts_at-ordinary, written_last, read_name-ordinary,
}
use sagasmith.Config.Arrays.{write_name}
use sagasmith.Config.Values.RoundTrip.{get_field-assign}
use sagasmith.Config.Commands.Apart.{is_apart_from_context, valid_key_apart}
use sagasmith.Config.Commands.Done.{unless_done, set_config_value_done}
use sagasmith.Config.Commands.{
  refuses, refusal_of, context_values, File, missing, malformed, holds, done, or_empty, names,
  set_config_value, parse_value, refusal, config_set,
}

accepted :
    (path : Str) (empty : Bool) (s : Option Str) (valid wrong : Bool)
    → refusal_of path empty s valid wrong ≡ none
    → (valid ≡ true) × (wrong ≡ false)
accepted path true s valid wrong h = absurd (true_not_false refl (ap refuses h))
accepted path false (some s) valid wrong h = absurd (true_not_false refl (ap refuses h))
accepted path false none false true h = absurd (true_not_false refl (ap refuses h))
accepted path false none false false h = absurd (true_not_false refl (ap refuses h))
accepted path false none true true h = absurd (true_not_false refl (ap refuses h))
accepted path false none true false h = (refl, refl)

double_negation : (b : Bool) → not b ≡ false → b ≡ true
double_negation true h = refl
double_negation false h = absurd (true_not_false refl h)

abbrev json_after : Option (Json × Option Json) → Json
json_after none = null
json_after (some (j, old)) = j

context_not_proto : not (str_eq (str "context") (str "__proto__")) ≡ true
unfolding str_eq
context_not_proto = refl

context_is_ordinary : is_ordinary (str "context") ≡ true
unfolding is_ordinary
context_is_ordinary = refl

own_context :
    (j v x : Json)
    → get_in (str "context" ∷ []) (some (with_field j (str "context") v)) ≡ some x
    → v ≡ x
unfolding get_in own_field with_field
own_context null v x g = cc
own_context (bool b) v x g = cc
own_context (number b) v x g = cc
own_context (string b) v x g = cc
own_context (array xs) v x g =
    let never : none ≡ some x =
      sym (read_name-ordinary (write_name xs (str "context") v) (str "context") context_is_ordinary)
      ∙ g in
    cc
own_context (object fs) v x g =
    some_inj (sym (get_field-assign fs (str "context") v context_not_proto) ∙ g)

context_written :
    (j v w x : Json) (old : Option Json)
    → set_in (str "context" ∷ []) v j ≡ some (w, old)
    → get_in (str "context" ∷ []) (some w) ≡ some x
    → v ≡ x
context_written j v w x old s g =
    own_context j v x
      (ap (get_in (str "context" ∷ [])) (ap some (written_last (str "context") v j w old s)) ∙ g)

-- The setting of a file.
unfoldable pub context_of : File → Option Json
unfolding get_in
context_of missing = none
context_of malformed = none
context_of (holds j) = get_in (str "context" ∷ []) (some j)

context_of-or_empty :
    (file : File) (j : Json)
    → or_empty file ≡ some j
    → get_in (str "context" ∷ []) (some j) ≡ context_of file
unfolding context_of get_in own_field get_field
context_of-or_empty missing j e = ap (get_in (str "context" ∷ [])) (sym e)
context_of-or_empty malformed j e = cc
context_of-or_empty (holds i) j e = ap (get_in (str "context" ∷ [])) (sym e)

context_of-holds :
    (u : Json) (next : File)
    → holds u ≡ next
    → get_in (str "context" ∷ []) (some u) ≡ context_of next
unfolding context_of
context_of-holds u next e = ap context_of e

context_kept :
    (path : Str) (v j u : Json) (old : Option Json)
    → is_apart_from_context path ≡ true
    → set_in (names path) v j ≡ some (u, old)
    → get_in (str "context" ∷ []) (some u) ≡ get_in (str "context" ∷ []) (some j)
unfolding names
context_kept path v j u old a s =
    set_in-keeps (split_at (λ c. c == b'.') path).0 (split_at (λ c. c == b'.') path).1
      (str "context") [] v j u old
      (parts_at-ordinary (split_at (λ c. c == b'.') path).0 (str "context")
        (split_at (λ c. c == b'.') path).1 j a context_is_ordinary)
      s

context_names : names (str "context") ≡ str "context" ∷ []
unfolding names split_at
context_names = refl

context_set :
    (path : Str) (v j u x : Json) (next : File) (old : Option Json)
    → path ≡ str "context"
    → set_in (names path) v j ≡ some (u, old)
    → holds u ≡ next
    → context_of next ≡ some x
    → v ≡ x
context_set path v j u x next old e s h at =
    context_written j v u x old (ap (λ p. set_in p v j) (sym (ap names e ∙ context_names)) ∙ s)
      (context_of-holds u next h ∙ at)

-- No setting, or one that reads as dev, research or review.
unfoldable pub is_allowed : (Json → Str) → Option Json → Bool
unfolding has
is_allowed string_of none = true
is_allowed string_of (some v) = has context_values (string_of v)

-- The invariant.
abbrev pub HasContext : (Json → Str) → File → Type 0
HasContext string_of file = is_allowed string_of (context_of file) ≡ true

module _ (to_number parse : Str → Option Json) (string_of : Json → Str) where
  -- The files that runs of config-set leave.
  pub data Reached (first : File) : File → Type 0 where
    start : Reached first first
    step :
        {file next : File} (path value : Str) (old : Option Json)
        → Reached first file
        → config_set to_number parse string_of file path value ≡ done next old
        → Reached first next

  accepted_key :
      (path : Str) (v : Json)
      → refusal to_number parse string_of path v ≡ none
      → is_valid_config_key path ≡ true
  unfolding refusal
  accepted_key path v h =
      (accepted path (str_eq path []) (suggestion config_key_suggestions path)
        (is_valid_config_key path)
        (str_eq path (str "context") && not (has context_values (string_of v))) h).0

  accepted_context :
      (v : Json)
      → refusal to_number parse string_of (str "context") v ≡ none
      → has context_values (string_of v) ≡ true
  unfolding refusal str_eq
  accepted_context v h =
      double_negation (has context_values (string_of v))
        (accepted (str "context") (str_eq (str "context") [])
          (suggestion config_key_suggestions (str "context")) (is_valid_config_key (str "context"))
          (str_eq (str "context") (str "context") && not (has context_values (string_of v))) h).1

  config_set_done :
      (file next : File) (path value : Str) (old : Option Json)
      → config_set to_number parse string_of file path value ≡ done next old
      → (refusal to_number parse string_of path (parse_value to_number parse string_of value)
          ≡ none)
        × (set_config_value file path (parse_value to_number parse string_of value) ≡ done next old)
  unfolding config_set
  config_set_done file next path value old h =
      let v = parse_value to_number parse string_of value in
      unless_done (set_config_value file path v) (refusal to_number parse string_of path v) next old
        h

  allowed_when :
      (o : Option Json)
      → ((x : Json) → o ≡ some x → has context_values (string_of x) ≡ true)
      → is_allowed string_of o ≡ true
  unfolding is_allowed
  allowed_when none h = refl
  allowed_when (some x) h = h x refl

  config_set-HasContext :
      (file next : File) (path value : Str) (old : Option Json)
      → HasContext string_of file
      → config_set to_number parse string_of file path value ≡ done next old
      → HasContext string_of next
  config_set-HasContext file next path value old keeps h =
      let v = parse_value to_number parse string_of value in
      let (passed, wrote) = config_set_done file next path value old h in
      let (j, u, reads, set, e) = set_config_value_done file path v next old wrote in
      elim (valid_key_apart path (accepted_key path v passed)) [
        | inl apart ↦
            ap (is_allowed string_of) (
              sym (context_of-holds u next e)
              ∙ context_kept path v j u old apart set
              ∙ context_of-or_empty file j reads)
            ∙ keeps
        | inr same ↦ allowed_when (context_of next) (λ x at.
            ap (λ y. has context_values (string_of y))
              (sym (context_set path v j u x next old same set e at))
            ∙ accepted_context v
                (ap (λ p. refusal to_number parse string_of p v) (sym same) ∙ passed))
      ]

  -- From a file whose context setting is absent or reads as dev, research or review, every run of
  -- config-set commands that are not refused, with any keys and values, leaves such a file.
  pub Reached-HasContext :
      {first file : File}
      → HasContext string_of first
      → Reached first file
      → HasContext string_of file
  Reached-HasContext h start = h
  Reached-HasContext h (step {file} {next} path value old r s) =
      config_set-HasContext file next path value old (Reached-HasContext h r) s
