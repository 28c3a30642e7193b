-- ===== src/Learnings/Tests.antt =====
-- Runs of the knowledge store, and the theorems at such runs.
use sagasmith.Common.{
  join, ◌+◌, length, filter, arith, ends_with, str_eq, ℕ, ◌≡◌, ◌≢◌, refl, true, false, Option, none,
  some, List, [], ◌∷◌, length, Str, str, str_eq,
}
use sagasmith.Common.Regex.{full}
use sagasmith.Learnings.Ids.{Stamp, generate_id, id_pattern, days_of}
use sagasmith.Learnings.{
  Learning, File, Entry, files_of, file_name, find_file, content_hash, record_of, learnings_write,
  learnings_read, learnings_list, learnings_delete, records,
}
use sagasmith.Learnings.Write.{learnings_write_twice, learnings_read-learnings_write}
use sagasmith.Learnings.Remove.{Distinct, learnings_delete-removes}
use sagasmith.Learnings.Sort.{All, IsDated, NewestFirst, learnings_list-NewestFirst}
use sagasmith.Learnings.Ids.Different.{generate_id-injective}
use sagasmith.Learnings.Copy.{split_headings, entry_of, after_section}
use sagasmith.Learnings.Copy.Twice.{IsFresh, copied, has_body, learnings_copy_twice}
use mathlib.Core.List.{Perm}

-- A stand-in for the hash: the text itself.
abbrev plain : Str → Str
plain s = s

-- A stand-in for the date parser: the number of characters, where there are any.
abbrev by_length : Str → Option ℕ
by_length [] = none
by_length (c ∷ s) = some (length (c ∷ s))

abbrev entry : Entry
entry = record {
  source_project = str "saga";
  learning = str "pin it";
  context = [];
  tags = str "pin" ∷ [];
}

abbrev noon : Stamp
noon = record { now = 1295; iso_date = str "dd"; random = 255 ∷ 1 ∷ [] }

abbrev later : Stamp
later = record { now = 1296; iso_date = str "ddd"; random = 7 ∷ [] }

abbrev learned : Str → Learning
learned date = record {
  id = str "a-";
  source_project = str "p";
  date = date;
  context = [];
  learning = date;
  tags = none;
  content_hash = date;
}

abbrev two_files : List File
two_files =
    record { name = str "zz-1.json"; content = some (learned (str "d")) }
    ∷ record { name = str "zz-2.json"; content = some (learned (str "ddd")) }
    ∷ record { name = str "notes.txt"; content = none }
    ∷ []

ids : (generate_id noon ≡ str "zz-ff01") × (generate_id later ≡ str "100-07")
unfolding generate_id
ids = (refl, refl)

durations :
    (days_of (str "90d") ≡ some 90) × (days_of (str "d") ≡ none) × (days_of (str "9dd") ≡ none)
unfolding days_of
durations = (refl, refl, refl)

listed : learnings_list by_length (some two_files) ≡ learned (str "ddd") ∷ learned (str "d") ∷ []
unfolding learnings_list ends_with
listed = refl

learnings_write_twice_example :
    learnings_write plain entry later (learnings_write plain entry noon (some two_files)).0 ≡ (
      (learnings_write plain entry noon (some two_files)).0,
      record {
        id = (learnings_write plain entry noon (some two_files)).1.id;
        created = false;
        content_hash = content_hash plain entry.learning entry.source_project;
      },
    )
learnings_write_twice_example = learnings_write_twice plain entry noon later (some two_files)

was_created : (learnings_write plain entry noon (some two_files)).1.created ≡ true
unfolding learnings_write ends_with
was_created = refl

learnings_read-learnings_write_example :
    learnings_read
      (learnings_write plain entry noon (some two_files)).1.id
      (learnings_write plain entry noon (some two_files)).0
    ≡ some (record_of plain entry noon)
learnings_read-learnings_write_example =
    learnings_read-learnings_write plain entry noon (some two_files) (λ h. ground arith) was_created

two_files-Distinct : Distinct two_files
unfolding find_file str_eq
two_files-Distinct = (refl, (refl, (refl, tt)))

was_deleted : (learnings_delete (str "zz-1") (some two_files)).1 ≡ true
unfolding learnings_delete full id_pattern str_eq
was_deleted = refl

learnings_delete-removes_example :
    (learnings_read (str "zz-1") (learnings_delete (str "zz-1") (some two_files)).0 ≡ none)
    × ((n : Str)
        → n ≢ file_name (str "zz-1")
        → find_file (files_of (learnings_delete (str "zz-1") (some two_files)).0) n
          ≡ find_file two_files n)
learnings_delete-removes_example =
    learnings_delete-removes (str "zz-1") two_files two_files-Distinct was_deleted

one_day : days_of (str "1d") ≡ some 1
unfolding days_of
one_day = refl

records-IsDated : All (IsDated by_length) (records two_files)
unfolding records ends_with
records-IsDated = ((1, refl), ((3, refl), tt))

learnings_list-NewestFirst_example :
    Perm (learnings_list by_length (some two_files)) (records two_files)
    × NewestFirst by_length (learnings_list by_length (some two_files))
learnings_list-NewestFirst_example =
    learnings_list-NewestFirst by_length (some two_files) records-IsDated

abbrev notes : Str
notes = str "intro\n## One fact\n it holds \n## Empty\n\n## Another\nmore"

-- Each section's stamp is later than the one before.
abbrev stamps : ℕ → Stamp
stamps i = record { now = i; iso_date = str "dddd"; random = i ∷ [] }

sections_read :
    ((split_headings true notes).1
      ≡ str "One fact\n it holds \n" ∷ str "Empty\n\n" ∷ str "Another\nmore" ∷ [])
    × (entry_of plain (str "p") (str "One fact\n it holds \n") ≡ record {
      source_project = str "p";
      learning = str "it holds";
      context = str "One fact";
      tags = str "One" ∷ str "fact" ∷ [];
    })
unfolding split_headings entry_of join
sections_read = (refl, refl)

notes-IsFresh :
    IsFresh plain plain (str "p") stamps 0 (split_headings true notes).1 (some two_files)
unfolding split_headings generate_id find_file str_eq after_section ends_with join
notes-IsFresh = (refl {a = none}, (refl {a = none}, (refl {a = none}, tt)))

learnings_copy_twice_example :
    ((copied plain plain (str "p") stamps notes (some two_files)).created
        + (copied plain plain (str "p") stamps notes (some two_files)).skipped
      ≡ length (filter has_body (split_headings true notes).1))
    × (copied plain plain
          (str "p")
          stamps
          notes
          (copied plain plain (str "p") stamps notes (some two_files)).store
        ≡ record {
          store = (copied plain plain (str "p") stamps notes (some two_files)).store;
          created = 0;
          skipped = length (filter has_body (split_headings true notes).1);
        })
learnings_copy_twice_example =
    learnings_copy_twice plain plain (str "p") stamps stamps notes (some two_files) notes-IsFresh

abbrev same_time : Stamp
same_time = record { now = 1295; iso_date = str "d"; random = 255 ∷ 1 ∷ [] }

same_id : generate_id noon ≡ generate_id same_time
unfolding generate_id
same_id = refl

generate_id-injective_example : (noon.now ≡ same_time.now) × (noon.random ≡ same_time.random)
generate_id-injective_example = generate_id-injective noon same_time refl refl same_id
