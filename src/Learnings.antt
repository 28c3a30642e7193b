-- ===== src/Learnings.antt =====
-- .kilo/get-shit-done/bin/lib/learnings.cjs: the global knowledge store, one JSON file for each
-- learning. The store directory is the list of its files, or none while it does not exist.
pub mod Ids
pub mod Write
pub mod Remove
pub mod Sort
pub mod Copy
mod Tests
use sagasmith.Common.{
  ℕ, zero, suc, ◌+◌, ◌*◌, ◌/◌, ◌%◌, ◌-◌, ◌≡◌, Bool, true, false, ◌&&◌, not, Option, none, some,
  List, [], ◌∷◌, ◌++◌, length, any, filter, ltb, leb, ◌==◌, Str, str, str_eq, has, ends_with,
  if◌then◌else◌,
}
use sagasmith.Learnings.Ids.{id_pattern, Stamp, generate_id, days_of}
use sagasmith.Common.Regex.{full}

-- A stored learning, with the fields that `learningsWrite` writes. Tags may be missing in a file.
pub record Learning : Type 0 where
  pub id : Str
  pub source_project : Str
  pub date : Str
  pub context : Str
  pub learning : Str
  pub tags : Option (List Str)
  pub content_hash : Str

-- A file of the directory and what `readLearningFile` makes of it: none where it does not parse.
pub record File : Type 0 where
  pub name : Str
  pub content : Option Learning

abbrev pub Store : Type 0
Store = Option (List File)

-- The argument of `learningsWrite`; a missing context is the empty string, missing tags are none.
pub record Entry : Type 0 where
  pub source_project : Str
  pub learning : Str
  pub context : Str
  pub tags : List Str

pub record Written : Type 0 where
  pub id : Str
  pub created : Bool
  pub content_hash : Str

unfoldable pub is_json : File → Bool
is_json f = ends_with f.name (str ".json")

abbrev pub files_of : Store → List File
files_of none = []
files_of (some fs) = fs

abbrev pub file_name : Str → Str
file_name id = id ++ str ".json"

-- fs.writeFileSync: a file of that name is replaced.
unfoldable pub write_file : List File → File → List File
write_file [] f = f ∷ []
write_file (g ∷ fs) f = if str_eq g.name f.name then f ∷ fs else g ∷ write_file fs f

-- fs.existsSync, then the file.
unfoldable pub find_file : List File → Str → Option File
find_file [] n = none
find_file (g ∷ fs) n = if str_eq g.name n then some g else find_file fs n

-- fs.unlinkSync
unfoldable pub unlink : List File → Str → List File
unlink [] n = []
unlink (g ∷ fs) n = if str_eq g.name n then fs else g ∷ unlink fs n

abbrev pub has_hash : Str → Option Learning → Bool
has_hash h none = false
has_hash h (some l) = str_eq l.content_hash h

-- The scan for a duplicate: the id of the first JSON file with the content hash.
unfoldable pub find_hash : List File → Str → Option Str
unfolding is_json
find_hash [] h = none
find_hash (f ∷ fs) h = elim f.content [
  | none ↦ find_hash fs h
  | some l ↦ if is_json f && str_eq l.content_hash h then some l.id else find_hash fs h
]

module _ (sha256 : Str → Str) where
  unfoldable pub content_hash : Str → Str → Str
  content_hash learning source_project = sha256 (learning ++ 10 ∷ source_project)

  unfoldable pub record_of : Entry → Stamp → Learning
  unfolding content_hash
  record_of e s = record {
    id = generate_id s;
    source_project = e.source_project;
    date = s.iso_date;
    context = e.context;
    learning = e.learning;
    tags = some e.tags;
    content_hash = content_hash e.learning e.source_project;
  }

  unfoldable pub learnings_write : Entry → Stamp → Store → Store × Written
  unfolding content_hash record_of find_hash write_file
  learnings_write e s st =
      let h = content_hash e.learning e.source_project in
      elim (find_hash (files_of st) h) [
        | some id ↦ (some (files_of st), record { id = id; created = false; content_hash = h })
        | none ↦ (
          some (
              write_file (files_of st)
                (record { name = file_name (generate_id s); content = some (record_of e s) })),
          record { id = generate_id s; created = true; content_hash = h },
        )
      ]

abbrev pub content_of : Option File → Option Learning
content_of none = none
content_of (some f) = f.content

unfoldable pub learnings_read : Str → Store → Option Learning
unfolding find_file
learnings_read id st =
    if full id_pattern id then content_of (find_file (files_of st) (file_name id)) else none

abbrev pub is_some : Option File → Bool
is_some none = false
is_some (some f) = true

unfoldable pub learnings_delete : Str → Store → Store × Bool
unfolding find_file unlink
learnings_delete id none = (none, false)
learnings_delete id (some fs) =
    if full id_pattern id && is_some (find_file fs (file_name id))
    then (some (unlink fs (file_name id)), true)
    else (some fs, false)

-- The records of the readable JSON files, in the order of the directory.
unfoldable pub records : List File → List Learning
unfolding is_json
records [] = []
records (f ∷ fs) = elim f.content [
  | none ↦ records fs
  | some l ↦ if is_json f then l ∷ records fs else records fs
]

pub record Pruned : Type 0 where
  pub files : List File
  pub removed : ℕ
  pub kept : ℕ

-- `parse_date` is `new Date(text).getTime()`, none for an invalid date.
module _ (parse_date : Str → Option ℕ) where
  -- Whether the comparator puts the first before the second; a NaN counts as no difference.
  unfoldable pub newer : Learning → Learning → Bool
  newer a b = elim (parse_date a.date) [
    | none ↦ false
    | some s ↦ elim (parse_date b.date) [ none ↦ false | some t ↦ ltb t s ]
  ]

  -- Array.prototype.sort, which is stable, as an insertion behind what is not older. Where a date does
  -- not parse, the engine may choose another order.
  unfoldable pub insert : Learning → List Learning → List Learning
  unfolding newer
  insert x [] = x ∷ []
  insert x (y ∷ ys) = if newer x y then x ∷ y ∷ ys else y ∷ insert x ys

  unfoldable pub sort_onto : List Learning → List Learning → List Learning
  unfolding insert
  sort_onto sorted [] = sorted
  sort_onto sorted (x ∷ xs) = sort_onto (insert x sorted) xs

  unfoldable pub learnings_list : Store → List Learning
  unfolding records sort_onto
  learnings_list st = sort_onto [] (records (files_of st))

  abbrev pub has_tag : Str → Option (List Str) → Bool
  has_tag t none = false
  has_tag t (some ts) = has ts t

  unfoldable pub learnings_query : Option Str → Store → List Learning
  unfolding learnings_list
  learnings_query none st = learnings_list st
  learnings_query (some tag) st =
      if str_eq tag []
      then learnings_list st
      else filter (λ r. has_tag tag r.tags) (learnings_list st)

  abbrev pub day_ms : ℕ
  day_ms = 24 * 60 * 60 * 1000

  -- `new Date(record.date) < cutoff`, where the cutoff is that many days before now.
  unfoldable pub is_old : ℕ → ℕ → Learning → Bool
  is_old days now r = elim (parse_date r.date) [
    | none ↦ false
    | some t ↦ ltb (t + days * day_ms) now
  ]

  -- The loop over the files, with `removed` and `kept`.
  unfoldable pub prune_loop : ℕ → ℕ → List File → Pruned
  unfolding is_json is_old
  prune_loop days now [] = record { files = []; removed = 0; kept = 0 }
  prune_loop days now (f ∷ fs) =
      let rest = prune_loop days now fs in
      elim f.content [
        | none ↦ record rest { files = f ∷ rest.files }
        | some l ↦
            if is_json f
            then if is_old days now l
              then record rest { removed = rest.removed + 1 }
              else record rest { files = f ∷ rest.files; kept = rest.kept + 1 }
            else record rest { files = f ∷ rest.files }
      ]

  -- none is the exception for a duration that is not of the form `90d`.
  unfoldable pub learnings_prune : Str → ℕ → Store → Option (Store × (ℕ × ℕ))
  unfolding prune_loop
  learnings_prune older_than now st = elim (days_of older_than) [
    | none ↦ none
    | some days ↦ elim st [
      | none ↦ some (none, (0, 0))
      | some fs ↦ let p = prune_loop days now fs in some (some p.files, (p.removed, p.kept))
    ]
  ]
