-- ===== src/Learnings/Write.antt =====
-- What a write leaves behind: reads, duplicates, other files.
use sagasmith.Common.{
  ◌≡◌, ◌≢◌, refl, ap, sym, ◌∙◌, true, false, none, some, List, [], ◌∷◌, ◌++◌, arith, Str, str,
  str_eq, str_eq_iff, str_eq_refl, ends_with, if◌then◌else◌, true_not_false, not_true, Bool-cases,
  Option-cases, inl, inr,
}
use sagasmith.Learnings.Ids.{Stamp, generate_id, full-generate_id}
use sagasmith.Learnings.{
  Learning, File, Store, Entry, is_json, files_of, file_name, write_file, find_file, find_hash,
  content_hash, record_of, learnings_write, learnings_read,
}

find_file-write_file :
    (fs : List File) (f : File) (n : Str)
    → find_file (write_file fs f) n ≡ (if str_eq f.name n then some f else find_file fs n)
unfolding find_file write_file
find_file-write_file [] f n = refl
find_file-write_file (g ∷ fs) f n = ground (
  arith,
  find_file-write_file fs f n,
  str_eq_iff g.name f.name,
  str_eq_iff g.name n,
  str_eq_iff f.name n,
)

ends_with-append : (s t : Str) → ends_with (s ++ t) t ≡ true
unfolding ends_with
ends_with-append [] [] = unfold str_eq in refl
ends_with-append [] (c ∷ t) = rw (str_eq_refl (c ∷ t))
ends_with-append (c ∷ s) t = ground (arith, ends_with-append s t)

-- The scan finds a written record by its hash, if no file had the hash before.
find_hash-write_file :
    (fs : List File) (f : File) (l : Learning)
    → f.content ≡ some l
    → is_json f ≡ true
    → find_hash fs l.content_hash ≡ none
    → find_hash (write_file fs f) l.content_hash ≡ some l.id
unfolding find_hash write_file
find_hash-write_file [] f l c j h = rw (c, j, str_eq_refl l.content_hash)
find_hash-write_file (g ∷ fs) f l c j h = elim (Bool-cases (str_eq g.name f.name)) [
  | inl same ↦ rw (same, c, j, str_eq_refl l.content_hash)
  | inr other ↦ rw other (ground (arith, find_hash-write_file fs f l c j))
]

module _ (sha256 : Str → Str) (e : Entry) where
  abbrev pub hash : Str
  hash = content_hash sha256 e.learning e.source_project

  abbrev pub new_file : Stamp → File
  new_file s = record { name = file_name (generate_id s); content = some (record_of sha256 e s) }

  pub write_duplicate :
      (s : Stamp) (st : Store) (id : Str)
      → find_hash (files_of st) hash ≡ some id
      → learnings_write sha256 e s st
        ≡ (some (files_of st), record { id = id; created = false; content_hash = hash })
  unfolding learnings_write
  write_duplicate s st id h = ground arith

  pub write_fresh :
      (s : Stamp) (st : Store)
      → find_hash (files_of st) hash ≡ none
      → learnings_write sha256 e s st ≡ (
        some (write_file (files_of st) (new_file s)),
        record { id = generate_id s; created = true; content_hash = hash },
      )
  unfolding learnings_write
  write_fresh s st h = ground arith

  hash-record_of : (s : Stamp) → (record_of sha256 e s).content_hash ≡ hash
  unfolding record_of
  hash-record_of s = refl

  id-record_of : (s : Stamp) → (record_of sha256 e s).id ≡ generate_id s
  unfolding record_of
  id-record_of s = refl

  new_file_json : (s : Stamp) → is_json (new_file s) ≡ true
  unfolding is_json
  new_file_json s = ends_with-append (generate_id s) (str ".json")

  find_hash-new_file :
      (s : Stamp) (fs : List File)
      → find_hash fs hash ≡ none
      → find_hash (write_file fs (new_file s)) hash ≡ some (generate_id s)
  unfolding record_of content_hash
  find_hash-new_file s fs h =
      find_hash-write_file fs (new_file s) (record_of sha256 e s) refl (new_file_json s)
        (rw hash-record_of h)

  -- After a write the scan finds the id that the write gave back.
  pub find_hash-learnings_write :
      (s : Stamp) (st : Store)
      → find_hash (files_of (learnings_write sha256 e s st).0) hash
        ≡ some (learnings_write sha256 e s st).1.id
  find_hash-learnings_write s st = elim (Option-cases (find_hash (files_of st) hash)) [
    | inl fresh ↦ rw (write_fresh s st fresh) (find_hash-new_file s (files_of st) fresh)
    | inr (id, dup) ↦ rw (write_duplicate s st id dup) dup
  ]

  files-learnings_write :
      (s : Stamp) (st : Store)
      → some (files_of (learnings_write sha256 e s st).0) ≡ (learnings_write sha256 e s st).0
  unfolding learnings_write
  files-learnings_write s st = ground arith

  -- Writing the same entry a second time, at any time, creates nothing: it gives the id of the first
  -- write and leaves the store as the first write left it.
  pub learnings_write_twice :
      (s s' : Stamp) (st : Store)
      → learnings_write sha256 e s' (learnings_write sha256 e s st).0 ≡ (
        (learnings_write sha256 e s st).0,
        record { id = (learnings_write sha256 e s st).1.id; created = false; content_hash = hash },
      )
  learnings_write_twice s s' st =
      let w = learnings_write sha256 e s st in
      write_duplicate s' w.0 w.1.id (find_hash-learnings_write s st)
      ∙ ap (λ (t : Store). (t, record { id = w.1.id; created = false; content_hash = hash }))
          (files-learnings_write s st)

  read_new_file :
      (s : Stamp) (fs : List File)
      → s.random ≢ []
      → learnings_read (generate_id s) (some (write_file fs (new_file s)))
        ≡ some (record_of sha256 e s)
  unfolding learnings_read
  read_new_file s fs bytes = rw (
    full-generate_id s bytes,
    find_file-write_file fs (new_file s) (file_name (generate_id s)),
    str_eq_refl (file_name (generate_id s)),
  )

  -- A write that creates a learning can be read back under the id that it returned: the record holds
  -- what was written. The id is made from at least one random byte.
  pub learnings_read-learnings_write :
      (s : Stamp) (st : Store)
      → s.random ≢ []
      → (learnings_write sha256 e s st).1.created ≡ true
      → learnings_read (learnings_write sha256 e s st).1.id (learnings_write sha256 e s st).0
        ≡ some (record_of sha256 e s)
  learnings_read-learnings_write s st bytes made =
      elim (Option-cases (find_hash (files_of st) hash)) [
        | inl fresh ↦ rw (write_fresh s st fresh) (read_new_file s (files_of st) bytes)
        | inr (id, dup) ↦ absurd (true_not_false made (rw (write_duplicate s st id dup) refl))
      ]

  other_name :
      (s : Stamp) (st : Store) (n : Str)
      → find_hash (files_of st) hash ≡ none
      → n ≢ file_name (learnings_write sha256 e s st).1.id
      → n ≢ file_name (generate_id s)
  other_name s st n fresh other = rw (write_fresh s st fresh) at other

  -- A write changes no file but the one named after the id that it returns.
  pub learnings_write-keeps :
      (s : Stamp) (st : Store) (n : Str)
      → n ≢ file_name (learnings_write sha256 e s st).1.id
      → find_file (files_of (learnings_write sha256 e s st).0) n ≡ find_file (files_of st) n
  learnings_write-keeps s st n other = elim (Option-cases (find_hash (files_of st) hash)) [
    | inl fresh ↦ rw (write_fresh s st fresh) (
        find_file-write_file (files_of st) (new_file s) n
        ∙ rw (not_true _ (λ t. other_name s st n fresh other (sym ((str_eq_iff _ n).0 t)))))
    | inr (id, dup) ↦ rw (write_duplicate s st id dup)
  ]
