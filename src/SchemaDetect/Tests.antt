-- ===== src/SchemaDetect/Tests.antt =====
-- Runs of the schema gate, and the theorems at such runs.
use sagasmith.Common.{◌≡◌, refl, true, false, none, some, List, [], ◌∷◌, Str, str, ◌↔◌}
use sagasmith.SchemaDetect.Patterns.{Orm, prisma, drizzle, schema_patterns, orm_info}
use sagasmith.Common.Regex.{full, test}
use sagasmith.SchemaDetect.{orm_of, check_schema_drift}
use sagasmith.SchemaDetect.Orms.{Missing}
use sagasmith.SchemaDetect.Gate.{blocking_iff}

abbrev files : List Str
files = str "prisma\\schema.prisma" ∷ str "README.md" ∷ []

orms_of_files :
    (orm_of (str "prisma\\schema.prisma") ≡ some prisma)
    × (orm_of (str "drizzle/a/b.ts") ≡ some drizzle)
    × (orm_of (str "src/db/schema.tsx") ≡ none)
unfolding orm_of schema_patterns full
orms_of_files = (refl, refl, refl)

blocked : (check_schema_drift files (str "ran the tests") false).blocking ≡ true
unfolding check_schema_drift orm_of schema_patterns full orm_info test
blocked = refl

pushed : (check_schema_drift files (str "npx Prisma  DB push ok") false).drift_detected ≡ false
unfolding check_schema_drift orm_of schema_patterns full orm_info test
pushed = refl

blocking_iff_example :
    (((check_schema_drift files (str "ok") true).blocking ≡ true)
      ↔ (((o : Orm) × Missing files (str "ok") o) × (true ≡ false)))
    × (((check_schema_drift files (str "ok") true).drift_detected ≡ true)
        ↔ ((o : Orm) × Missing files (str "ok") o))
blocking_iff_example = blocking_iff files (str "ok") true
