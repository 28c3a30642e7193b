-- ===== src/SchemaDetect/Patterns.antt =====
-- The tables of schema-detect.cjs: SCHEMA_PATTERNS and ORM_INFO.
use sagasmith.Common.{ℕ, Option, none, some, List, [], ◌∷◌, Str, str}
use sagasmith.Common.Regex.{Regex, seq, star, lit, lit_i, dot, spaces}

pub data Orm : Type 0 where
  payload prisma drizzle supabase typeorm : Orm

abbrev pub rank : Orm → ℕ
rank payload = 0
rank prisma = 1
rank drizzle = 2
rank supabase = 3
rank typeorm = 4

abbrev pub orm_name : Orm → Str
orm_name payload = str "payload"
orm_name prisma = str "prisma"
orm_name drizzle = str "drizzle"
orm_name supabase = str "supabase"
orm_name typeorm = str "typeorm"

pub record Pattern : Type 0 where
  pub pattern : Regex
  pub orm : Orm

-- /^prefix.*suffix$/
abbrev pub between : Str → Str → Regex
between pre suf = seq (lit pre) (seq (star dot) (lit suf))

unfoldable pub schema_patterns : List Pattern
schema_patterns =
    record { pattern = between (str "src/collections/") (str ".ts"); orm = payload }
    ∷ record { pattern = between (str "src/globals/") (str ".ts"); orm = payload }
    ∷ record { pattern = lit (str "prisma/schema.prisma"); orm = prisma }
    ∷ record { pattern = between (str "prisma/schema/") (str ".prisma"); orm = prisma }
    ∷ record { pattern = lit (str "drizzle/schema.ts"); orm = drizzle }
    ∷ record { pattern = lit (str "src/db/schema.ts"); orm = drizzle }
    ∷ record { pattern = between (str "drizzle/") (str ".ts"); orm = drizzle }
    ∷ record { pattern = between (str "supabase/migrations/") (str ".sql"); orm = supabase }
    ∷ record { pattern = between (str "src/entities/") (str ".ts"); orm = typeorm }
    ∷ record { pattern = between (str "src/migrations/") (str ".ts"); orm = typeorm }
    ∷ []

pub record OrmInfo : Type 0 where
  pub push_command : Str
  pub env_hint : Str
  pub interactive_warning : Option Str
  pub evidence_patterns : List Regex

-- /a\s+b/i
abbrev pub words : Str → Str → Regex
words a b = seq (lit_i a) (seq spaces (lit_i b))

-- /a\s+b\s+c/i
abbrev pub three_words : Str → Str → Str → Regex
three_words a b c = seq (lit_i a) (seq spaces (words b c))

unfoldable pub orm_info : Orm → OrmInfo
orm_info payload = record {
  push_command = str "npx payload migrate";
  env_hint = str "CI=true PAYLOAD_MIGRATING=true npx payload migrate";
  interactive_warning = some (
      str
        "Payload migrate may require interactive prompts — use CI=true PAYLOAD_MIGRATING=true to suppress");
  evidence_patterns = words (str "payload") (str "migrate") ∷ lit (str "PAYLOAD_MIGRATING") ∷ [];
}
orm_info prisma = record {
  push_command = str "npx prisma db push";
  env_hint = str "npx prisma db push --accept-data-loss (if destructive changes are intended)";
  interactive_warning = some (
      str
        "Prisma db push may prompt for confirmation on destructive changes — use --accept-data-loss to bypass");
  evidence_patterns =
      three_words (str "prisma") (str "db") (str "push")
      ∷ three_words (str "prisma") (str "migrate") (str "deploy")
      ∷ three_words (str "prisma") (str "migrate") (str "dev")
      ∷ [];
}
orm_info drizzle = record {
  push_command = str "npx drizzle-kit push";
  env_hint = str "npx drizzle-kit push";
  interactive_warning = none;
  evidence_patterns =
      words (str "drizzle-kit") (str "push") ∷ words (str "drizzle-kit") (str "migrate") ∷ [];
}
orm_info supabase = record {
  push_command = str "supabase db push";
  env_hint = str "supabase db push";
  interactive_warning =
      some
        (str "Supabase db push may require authentication — ensure SUPABASE_ACCESS_TOKEN is set");
  evidence_patterns =
      three_words (str "supabase") (str "db") (str "push")
      ∷ three_words (str "supabase") (str "migration") (str "up")
      ∷ [];
}
orm_info typeorm = record {
  push_command = str "npx typeorm migration:run";
  env_hint = str "npx typeorm migration:run -d src/data-source.ts";
  interactive_warning = none;
  evidence_patterns =
      words (str "typeorm") (str "migration:run") ∷ words (str "typeorm") (str "schema:sync") ∷ [];
}
