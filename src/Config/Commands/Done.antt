-- ===== src/Config/Commands/Done.antt =====
-- What a write that is done has read and written.
use sagasmith.Common.{
  Bool, true, false, ◌≡◌, refl, Option, none, some, Str, sym, ap, true_not_false,
}
use sagasmith.Common.Json.{Json}
use sagasmith.Config.Values.{set_in}
use sagasmith.Config.Commands.{
  File, missing, holds, Refusal, Outcome, done, or_empty, names, set_config_value, written,
  write_at, unless,
}

abbrev is_done : Outcome (Option Json) → Bool
is_done (done file o) = true
is_done _ = false

abbrev file_after : Outcome (Option Json) → File
file_after (done file o) = file
file_after _ = missing

abbrev previous_of : Outcome (Option Json) → Option Json
previous_of (done file o) = o
previous_of _ = none

pub unless_done :
    (o : Outcome (Option Json)) (r : Option Refusal) (next : File) (old : Option Json)
    → unless o r ≡ done next old
    → (r ≡ none) × (o ≡ done next old)
unless_done o none next old h = (refl, h)
unless_done o (some r) next old h = absurd (true_not_false refl (ap is_done (sym h)))

written_done :
    (r : Option (Json × Option Json)) (next : File) (old : Option Json)
    → written r ≡ done next old
    → (u : Json) × (r ≡ some (u, old)) × (holds u ≡ next)
written_done none next old h = absurd (true_not_false refl (ap is_done (sym h)))
written_done (some (u, o)) next old h =
    (u, ap (λ p. some (u, p)) (ap previous_of h), ap file_after h)

write_at_done :
    (path : Str) (v : Json) (o : Option Json) (next : File) (old : Option Json)
    → write_at path v o ≡ done next old
    → (j : Json) × (u : Json) × (o ≡ some j)
      × (set_in (names path) v j ≡ some (u, old))
      × (holds u ≡ next)
write_at_done path v none next old h = absurd (true_not_false refl (ap is_done (sym h)))
write_at_done path v (some j) next old h =
    let (u, set, e) = written_done (set_in (names path) v j) next old h in (j, u, refl, set, e)

pub set_config_value_done :
    (file : File) (path : Str) (v : Json) (next : File) (old : Option Json)
    → set_config_value file path v ≡ done next old
    → (j : Json) × (u : Json) × (or_empty file ≡ some j)
      × (set_in (names path) v j ≡ some (u, old))
      × (holds u ≡ next)
unfolding set_config_value
set_config_value_done file path v next old h = write_at_done path v (or_empty file) next old h
