-- ===== src/Models/Tests.antt =====
-- Runs of the model choice, and the theorems at such runs.
use sagasmith.Common.{
  In, ◌≡◌, ◌≢◌, refl, arith, true, some, [], ◌∷◌, Str, str, str_eq, has, inl, inr,
}
use sagasmith.Models.{
  Row, valid_profiles, sonnet, haiku, model_profiles, find_row, get_agent_to_model_map_for_profile,
  ResolveIds, keep_alias, omit, full_id, Config, override_of, profile_of, resolve_model_internal,
}
use sagasmith.Models.Listing.{resolve_model_internal-map}

-- A stand-in for toLowerCase on text that is in lower case.
abbrev plain : Str → Str
plain s = s

abbrev config : ResolveIds → Str → Config
config m p = record {
  model_overrides = (str "gsd-debugger", str "openai/gpt") ∷ [];
  resolve_model_ids = m;
  model_profile = p;
}

chosen :
    (resolve_model_internal plain (config keep_alias []) (str "gsd-verifier") ≡ str "sonnet")
    × (resolve_model_internal plain (config full_id (str "budget")) (str "gsd-verifier")
        ≡ str "claude-haiku-4-5")
    × (resolve_model_internal plain (config full_id (str "budget")) (str "someone") ≡ str "sonnet")
    × (resolve_model_internal plain (config omit (str "budget")) (str "gsd-debugger")
        ≡ str "openai/gpt")
unfolding resolve_model_internal str_eq
chosen = (refl, refl, refl, refl)

abbrev verifier : Row
verifier = record {
  agent = str "gsd-verifier";
  quality = sonnet;
  balanced = sonnet;
  budget = haiku;
  adaptive = sonnet;
}

no_override :
    (m : ResolveIds) (p : Str) → override_of (config m p).model_overrides (str "gsd-verifier") ≡ []
unfolding override_of str_eq
no_override m p = refl

found : find_row model_profiles (str "gsd-verifier") ≡ some verifier
unfolding find_row model_profiles str_eq
found = refl

not_inherit : profile_of plain (config full_id (str "odd")) ≢ str "inherit"
unfolding profile_of
not_inherit h = ground arith

budget_valid : has valid_profiles (profile_of plain (config keep_alias (str "budget"))) ≡ true
unfolding has str_eq profile_of
budget_valid = refl

verifier_row :
    In
      (str "gsd-verifier", some haiku)
      (get_agent_to_model_map_for_profile (profile_of plain (config keep_alias (str "budget"))))
unfolding get_agent_to_model_map_for_profile str_eq profile_of
verifier_row = inr (inr (inr (inr (inr (inr (inr (inr (inl refl))))))))

resolve_model_internal-map_example :
    some haiku
    ≡ some (resolve_model_internal plain (config keep_alias (str "budget")) (str "gsd-verifier"))
resolve_model_internal-map_example =
    resolve_model_internal-map plain (config keep_alias (str "budget")) (str "gsd-verifier")
      (some haiku) (no_override keep_alias (str "budget")) refl budget_valid verifier_row
