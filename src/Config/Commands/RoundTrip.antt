-- ===== src/Config/Commands/RoundTrip.antt =====
-- What config-set and config-set-model-profile write is what config-get reports.
use sagasmith.Common.{
  ℕ, Bool, true, ◌≡◌, refl, Option, none, some, ap, ◌∙◌, Str, str, non_empty, has, str_eq, [], ◌∷◌,
  sym, true_not_false, ◌==◌, split_at,
}
use sagasmith.Common.Spaces.{trim}
use sagasmith.Common.Json.{Json, string, object, Fields, get_field}
use sagasmith.Models.{valid_profiles, get_agent_to_model_map_for_profile}
use sagasmith.Config.Values.{set_in, get_in, own_field}
use sagasmith.Config.Values.RoundTrip.{is_open, set_in-get_in}
use sagasmith.Config.Defaults.{ApiKeys}
use sagasmith.Config.Commands.{
  File, holds, done, or_empty, names, set_config_value, parse_value, refusal, config_set,
  config_get, ensure_config_file, previous_profile, config_set_model_profile, found_or, written,
  usage, write_at, unless, refuses, set_profile, profile_report,
}

set_in-names :
    (path : Str) (v j : Json)
    → is_open (names path) j ≡ true
    → (w : Json) × (set_in (names path) v j ≡ some (w, get_in (names path) (some j)))
      × (get_in (names path) (some w) ≡ some v)
unfolding names
set_in-names path v j o =
    set_in-get_in (split_at (λ c. c == b'.') path).0 (split_at (λ c. c == b'.') path).1 v j o

-- The write to a file with a value j, {} for a missing one.
set_config_value-config_get :
    (file : File) (c : ℕ) (path : Str) (v j : Json) (d : Option Str)
    → or_empty file ≡ some j
    → is_open (names (c ∷ path)) j ≡ true
    → (w : Json) × (set_config_value file (c ∷ path) v
        ≡ done (holds w) (get_in (names (c ∷ path)) (some j)))
      × (config_get (holds w) (c ∷ path) d ≡ done (holds w) v)
unfolding set_config_value config_get
set_config_value-config_get file c path v j d e o =
    let (w, wrote, reads) = set_in-names (c ∷ path) v j o in
    (w, ap (write_at (c ∷ path) v) e ∙ ap written wrote, ap (found_or (holds w) d) reads)

profile_is_open : (fs : Fields) → is_open (names (str "model_profile")) (object fs) ≡ true
unfolding is_open names split_at str_eq
profile_is_open fs = refl

profile_at :
    (fs : Fields)
    → get_in (names (str "model_profile")) (some (object fs)) ≡ get_field fs (str "model_profile")
unfolding get_in names split_at own_field
profile_at fs = refl

module _ (to_number parse : Str → Option Json) (string_of : Json → Str) where
  refusal_empty : (v : Json) → refusal to_number parse string_of [] v ≡ some usage
  unfolding refusal str_eq
  refusal_empty v = refl

  -- Where config-set accepts the key and its context value, the file is missing or parses, and the
  -- path leads through objects, missing fields and scalars without the name __proto__, the command
  -- writes, reports the value that config-get found before, and config-get then gives the parsed
  -- value.
  pub config_set-config_get :
      (file : File) (path value : Str) (j : Json) (d : Option Str)
      → refusal to_number parse string_of path (parse_value to_number parse string_of value) ≡ none
      → or_empty file ≡ some j
      → is_open (names path) j ≡ true
      → (w : Json) × (config_set to_number parse string_of file path value
          ≡ done (holds w) (get_in (names path) (some j)))
        × (config_get (holds w) path d
            ≡ done (holds w) (parse_value to_number parse string_of value))
  unfolding config_set
  config_set-config_get file [] value j d r e o =
      let refuse = refusal_empty (parse_value to_number parse string_of value) in
      absurd (true_not_false (ap refuses (sym refuse)) (ap refuses (sym refuse ∙ r)))
  config_set-config_get file (c ∷ path) value j d r e o =
      let v = parse_value to_number parse string_of value in
      let (w, wrote, reads) = set_config_value-config_get file c path v j d e o in
      (w, ap (unless (set_config_value file (c ∷ path) v)) r ∙ wrote, reads)

module _ (string_of : Json → Str) (indexed : Json → Fields) (keys : ApiKeys)
    (user_file : Option Json) where
  -- With a profile that is one of the valid ones in lower case without outer white space, and a
  -- file that is an object after it has been ensured, config-set-model-profile reports the
  -- profile, the previous one (balanced for none) and the agents' models, and config-get then
  -- gives the profile.
  pub config_set_model_profile-config_get :
      (lower : Str → Str) (file : File) (profile : Str) (fs : Fields) (created : Bool)
      (d : Option Str)
      → non_empty profile ≡ true
      → has valid_profiles (trim (lower profile)) ≡ true
      → ensure_config_file string_of indexed keys user_file file ≡ done (holds (object fs)) created
      → (w : Json) × (config_set_model_profile string_of indexed keys user_file lower file profile
          ≡ done (holds w) (
            trim (lower profile),
            previous_profile string_of indexed keys user_file (get_field fs (str "model_profile")),
            get_agent_to_model_map_for_profile (trim (lower profile)),
          ))
        × (config_get (holds w) (str "model_profile") d
            ≡ done (holds w) (string (trim (lower profile))))
  unfolding config_set_model_profile
  config_set_model_profile-config_get lower file profile fs created d n h e =
      let p = trim (lower profile) in
      let (w, wrote, reads) =
        set_config_value-config_get (holds (object fs)) b'm' (str "odel_profile") (string p)
          (object fs) d refl (profile_is_open fs) in
      (
        w,
        rw (n, h)
            (ap (set_profile string_of indexed keys user_file p) e
              ∙ ap (profile_report string_of indexed keys user_file p) wrote
              ∙ ap (λ o. profile_report string_of indexed keys user_file p (done (holds w) o))
                  (profile_at fs)),
        reads,
      )
