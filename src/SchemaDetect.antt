-- ===== src/SchemaDetect.antt =====
-- .kilo/get-shit-done/bin/lib/schema-detect.cjs: schema files that changed without a push.
pub mod Patterns
pub mod Orms
pub mod Gate
mod Tests
use sagasmith.Common.{
  non_empty, join, ℕ, ◌≡◌, Bool, true, false, ◌&&◌, ◌||◌, not, Option, none, some, List, [], ◌∷◌,
  ◌++◌, map, any, filter, Str, str, if◌then◌else◌, ◌==◌,
}
use sagasmith.Common.Regex.{Regex, full, test}
use sagasmith.SchemaDetect.Patterns.{
  Orm, rank, orm_name, Pattern, schema_patterns, OrmInfo, orm_info,
}

-- `rawFile.replace(/\\/g, '/')`
unfoldable pub to_slashes : Str → Str
to_slashes [] = []
to_slashes (c ∷ s) = (if c == b'\\' then b'/' else c) ∷ to_slashes s

-- The loop over the patterns, up to its `break`.
unfoldable pub first_orm : List Pattern → Str → Option Orm
first_orm [] file = none
first_orm (p ∷ ps) file =
    let rest = first_orm ps file in if full p.pattern file then some p.orm else rest

unfoldable pub orm_of : Str → Option Orm
unfolding to_slashes first_orm
orm_of raw_file = first_orm schema_patterns (to_slashes raw_file)

abbrev pub orm_eq : Orm → Orm → Bool
orm_eq a b = rank a == rank b

unfoldable pub has_orm : List Orm → Orm → Bool
has_orm [] o = false
has_orm (p ∷ ps) o = orm_eq p o || has_orm ps o

unfoldable pub add_orm : List Orm → Orm → List Orm
unfolding has_orm
add_orm ps o = if has_orm ps o then ps else ps ++ o ∷ []

pub record Detection : Type 0 where
  pub detected : Bool
  pub matches : List Str
  pub orms : List Orm

-- The loop over the files, with `matches` and `orms`.
unfoldable pub detect_loop : List Str → List Str → List Orm → List Str × List Orm
unfolding orm_of add_orm
detect_loop [] found orms = (found, orms)
detect_loop (f ∷ fs) found orms = elim (orm_of f) [
  | none ↦ detect_loop fs found orms
  | some o ↦ detect_loop fs (found ++ f ∷ []) (add_orm orms o)
]

unfoldable pub detect_schema_files : List Str → Detection
unfolding detect_loop
detect_schema_files files =
    let (found, orms) = detect_loop files [] [] in
    record { detected = non_empty found; matches = found; orms = orms }

-- `info.evidencePatterns.some(p => p.test(executionLog))`
unfoldable pub has_push_evidence : Str → Orm → Bool
has_push_evidence log o = any (λ p. test p log) (orm_info o).evidence_patterns

unfoldable pub unpushed : Str → List Orm → List Orm
unfolding has_push_evidence
unpushed log os = filter (λ o. not (has_push_evidence log o)) os

pub record Drift : Type 0 where
  pub drift_detected : Bool
  pub blocking : Bool
  pub skipped : Bool
  pub schema_files : List Str
  pub orms : List Orm
  pub unpushed_orms : List Orm
  pub message : Str

abbrev pub newline : Str
newline = 10 ∷ []

abbrev pub or_else : Str → Str → Str
or_else [] t = t
or_else (c ∷ s) t = c ∷ s

unfoldable pub push_command_line : Orm → Str
push_command_line o =
    str "  "
    ++ (orm_name o ++ (str ": " ++ or_else (orm_info o).env_hint (orm_info o).push_command))

unfoldable pub drift_message : List Str → List Orm → Str
unfolding join push_command_line
drift_message files os = join newline (
    str "Schema drift detected: schema-relevant files changed but no database push was executed."
    ∷ []
    ∷ (str "Schema files changed: " ++ join (str ", ") files)
    ∷ (str "ORMs requiring push: " ++ join (str ", ") (map orm_name os))
    ∷ []
    ∷ str "Required push commands:"
    ∷ join newline (map push_command_line os)
    ∷ []
    ∷ str "Run the appropriate push command, or set GSD_SKIP_SCHEMA_CHECK=true to bypass this gate."
    ∷ [])

abbrev pub no_drift : List Str → List Orm → Drift
no_drift files orms = record {
  drift_detected = false;
  blocking = false;
  skipped = false;
  schema_files = files;
  orms = orms;
  unpushed_orms = [];
  message = [];
}

unfoldable pub check_schema_drift : List Str → Str → Bool → Drift
unfolding detect_schema_files unpushed drift_message
check_schema_drift changed_files log skip_check =
    let d = detect_schema_files changed_files in
    let os = unpushed log d.orms in
    if not d.detected
    then no_drift [] []
    else if not (non_empty os)
    then no_drift d.matches d.orms
    else record {
      drift_detected = true;
      blocking = not skip_check;
      skipped = skip_check;
      schema_files = d.matches;
      orms = d.orms;
      unpushed_orms = os;
      message =
          if skip_check
          then str "Schema drift detected but check was skipped (GSD_SKIP_SCHEMA_CHECK=true)."
          else drift_message d.matches os;
    }
