-- ===== src/Phases/Tests.antt =====
-- Runs of the phase functions, and the theorems at such runs.
use sagasmith.Common.{ℕ, Option, ◌≡◌, refl, true, none, some, List, [], ◌∷◌, Str, str}
use sagasmith.Phases.{
  Phase, Sign, before, same, strip_code, parse_phase, normalize_phase_name, compare_phase_num,
}
use sagasmith.Phases.Normal.{compare_phase_num-normalize_phase_name}
use sagasmith.Phases.Order.{flip, not_after, compare_phase_num-flip, compare_phase_num_trans}

-- A stand-in for the locale's comparison, which finds no difference.
abbrev no_difference : Str → Str → Sign
no_difference s t = same

abbrev phase : Str → Option ℕ → List Str → Phase
phase d l ps = record { digits = d; letter = l; parts = ps }

normal_names :
    (normalize_phase_name (str "3") ≡ str "03")
    × (normalize_phase_name (str "CK-7a.1.2-name") ≡ str "07a.1.2")
    × (normalize_phase_name (str "PROJECT-42") ≡ str "PROJECT-42")
    × (normalize_phase_name (str "12.x") ≡ str "12")
unfolding normalize_phase_name
normal_names = (refl, refl, refl, refl)

ordered :
    (compare_phase_num no_difference (str "2") (str "10") ≡ before)
    × (compare_phase_num no_difference (str "12") (str "12A") ≡ before)
    × (compare_phase_num no_difference (str "12A.1.2") (str "12a.2") ≡ before)
    × (compare_phase_num no_difference (str "12") (str "12.0") ≡ before)
    × (compare_phase_num no_difference (str "12.1") (str "CK-012.1.0") ≡ same)
unfolding compare_phase_num
ordered = (refl, refl, refl, refl, refl)

parsed :
    (parse_phase (strip_code (str "CK-7")) ≡ some (phase (str "7") none []))
    × (parse_phase (strip_code (str "7A")) ≡ some (phase (str "7") (some b'A') []))
    × (parse_phase (strip_code (str "12.1")) ≡ some (phase (str "12") none (str "1" ∷ [])))
unfolding strip_code parse_phase
parsed = (refl, refl, refl)

compare_phase_num-normalize_phase_name_example :
    compare_phase_num no_difference
      (normalize_phase_name (str "CK-7"))
      (normalize_phase_name (str "7A"))
    ≡ compare_phase_num no_difference (str "CK-7") (str "7A")
compare_phase_num-normalize_phase_name_example =
    compare_phase_num-normalize_phase_name no_difference (str "CK-7") (str "7A")
      (phase (str "7") none []) (phase (str "7") (some b'A') []) parsed.0 parsed.1

compare_phase_num-flip_example :
    compare_phase_num no_difference (str "12.1") (str "AB-C")
    ≡ flip (compare_phase_num no_difference (str "AB-C") (str "12.1"))
compare_phase_num-flip_example =
    compare_phase_num-flip no_difference (str "AB-C") (str "12.1") (λ s t. refl)

not_behind :
    (not_after (compare_phase_num no_difference (str "CK-7") (str "7A")) ≡ true)
    × (not_after (compare_phase_num no_difference (str "7A") (str "12.1")) ≡ true)
unfolding compare_phase_num
not_behind = (refl, refl)

compare_phase_num_trans_example :
    not_after (compare_phase_num no_difference (str "CK-7") (str "12.1")) ≡ true
compare_phase_num_trans_example =
    compare_phase_num_trans no_difference (str "CK-7") (str "7A") (str "12.1")
      (phase (str "7") none []) (phase (str "7") (some b'A') [])
      (phase (str "12") none (str "1" ∷ [])) parsed.0 parsed.1 parsed.2 not_behind.0 not_behind.1
