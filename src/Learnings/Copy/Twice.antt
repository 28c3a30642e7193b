-- ===== src/Learnings/Copy/Twice.antt =====
-- A project's learnings copied twice.
use sagasmith.Common.{
  ℕ, suc, ◌+◌, ◌≡◌, refl, Bool, true, false, none, some, List, [], ◌∷◌, arith, length, filter, Str,
  str_eq, non_empty, Bool-cases, Option-cases, inl, inr, In,
}
use sagasmith.Learnings.Ids.{Stamp, generate_id}
use sagasmith.Learnings.{
  File, Store, Entry, files_of, file_name, write_file, find_file, find_hash, learnings_write,
}
use sagasmith.Learnings.Write.{
  hash, new_file, write_duplicate, write_fresh, find_hash-learnings_write,
}
use sagasmith.Learnings.Copy.{
  Copied, split_headings, body_of, entry_of, after_section, copy_loop, learnings_copy_from_project,
}

-- A readable file of the store has the hash.
abbrev pub Known : Str → Store → Type 0
Known h st = (id : Str) × (find_hash (files_of st) h ≡ some id)

find_hash-write_new :
    (fs : List File) (f : File) (h id : Str)
    → find_file fs f.name ≡ none
    → find_hash fs h ≡ some id
    → find_hash (write_file fs f) h ≡ some id
unfolding find_file find_hash write_file
find_hash-write_new [] f h id new k = absurd (ground arith)
find_hash-write_new (g ∷ fs) f h id new k = elim (Bool-cases (str_eq g.name f.name)) [
  | inl same ↦ absurd (ground arith)
  | inr other ↦ rw other (ground (arith, find_hash-write_new fs f h id))
]

some-Known : (h : Str) (st : Store) → Known h st → some (files_of st) ≡ st
unfolding find_hash
some-Known h none (id, k) = absurd (ground arith)
some-Known h (some fs) k = refl

module _ (sha256 : Str → Str) where
  -- A write under a name that no file has keeps what is known.
  write-Known :
      (e : Entry) (s : Stamp) (st : Store) (h : Str)
      → find_file (files_of st) (file_name (generate_id s)) ≡ none
      → Known h st
      → Known h (learnings_write sha256 e s st).0
  write-Known e s st h new (id, k) = elim (Option-cases (find_hash (files_of st) (hash sha256 e))) [
    | inl fresh ↦
        rw (write_fresh sha256 e s st fresh)
          (id, find_hash-write_new (files_of st) (new_file sha256 e s) h id new k)
    | inr (other, dup) ↦ rw (write_duplicate sha256 e s st other dup) (id, k)
  ]

-- A section with a body.
abbrev pub has_body : Str → Bool
has_body section = non_empty (body_of section)

module _ (to_lower sha256 : Str → Str) (source_project : Str) where
  abbrev section_hash : Str → Str
  section_hash section = hash sha256 (entry_of to_lower source_project section)

  abbrev after : Str → Stamp → Store → Store
  after = after_section to_lower sha256 source_project

  abbrev loop : (ℕ → Stamp) → ℕ → List Str → Store → Copied
  loop = copy_loop to_lower sha256 source_project

  abbrev pub copied : (ℕ → Stamp) → Str → Store → Copied
  copied stamps content =
      learnings_copy_from_project to_lower sha256 source_project stamps (some content)

  -- The id for a section is not that of a file which is there when its turn comes.
  abbrev pub IsFresh : (ℕ → Stamp) → ℕ → List Str → Store → Type 0
  IsFresh stamps i [] st = Unit
  IsFresh stamps i (section ∷ sections) st =
      (find_file (files_of st) (file_name (generate_id (stamps i))) ≡ none)
      × IsFresh stamps (suc i) sections (after section (stamps i) st)

  after-Known :
      (section : Str) (s : Stamp) (st : Store) (h : Str)
      → find_file (files_of st) (file_name (generate_id s)) ≡ none
      → Known h st
      → Known h (after section s st)
  unfolding after_section
  after-Known section s st h new k = elim (Bool-cases (has_body section)) [
    | inl t ↦ rw t (write-Known sha256 (entry_of to_lower source_project section) s st h new k)
    | inr f ↦ rw f k
  ]

  after-own :
      (section : Str) (s : Stamp) (st : Store)
      → has_body section ≡ true
      → Known (section_hash section) (after section s st)
  unfolding after_section
  after-own section s st t = rw t (
    (learnings_write sha256 (entry_of to_lower source_project section) s st).1.id,
    find_hash-learnings_write sha256 (entry_of to_lower source_project section) s st,
  )

  store-loop :
      (stamps : ℕ → Stamp) (i : ℕ) (section : Str) (sections : List Str) (st : Store)
      → (loop stamps i (section ∷ sections) st).store
        ≡ (loop stamps (suc i) sections (after section (stamps i) st)).store
  unfolding copy_loop
  store-loop stamps i section sections st = ground arith

  loop-Known :
      (stamps : ℕ → Stamp) (i : ℕ) (sections : List Str) (st : Store) (h : Str)
      → IsFresh stamps i sections st
      → Known h st
      → Known h (loop stamps i sections st).store
  loop-Known stamps i [] st h new k = unfold copy_loop in k
  loop-Known stamps i (section ∷ sections) st h (new, fresh) k =
      rw (store-loop stamps i section sections st) (
        loop-Known stamps (suc i) sections (after section (stamps i) st) h fresh
          (after-Known section (stamps i) st h new k))

  -- After the loop the store knows each section with a body.
  loop_knows :
      (stamps : ℕ → Stamp) (i : ℕ) (sections : List Str) (st : Store)
      → IsFresh stamps i sections st
      → (section : Str) → In section sections
      → has_body section ≡ true
      → Known (section_hash section) (loop stamps i sections st).store
  loop_knows stamps i [] st fresh section at b = absurd at
  loop_knows stamps i (x ∷ sections) st (new, fresh) section (inl here) b =
      rw (store-loop stamps i x sections st) (
        loop-Known stamps (suc i) sections (after x (stamps i) st) (section_hash section) fresh
          (rw (← here) (after-own x (stamps i) st (rw here b))))
  loop_knows stamps i (x ∷ sections) st (new, fresh) section (inr later) b =
      rw (store-loop stamps i x sections st)
        (loop_knows stamps (suc i) sections (after x (stamps i) st) fresh section later b)

  write_again :
      (section : Str) (s : Stamp) (st : Store)
      → Known (section_hash section) st
      → (learnings_write sha256 (entry_of to_lower source_project section) s st).0 ≡ st
        × ((learnings_write sha256 (entry_of to_lower source_project section) s st).1.created
            ≡ false)
  write_again section s st (id, k) =
      rw (write_duplicate sha256 (entry_of to_lower source_project section) s st id k)
        (some-Known (section_hash section) st (id, k), refl)

  after_again :
      (section : Str) (s : Stamp) (st : Store)
      → (has_body section ≡ true → Known (section_hash section) st)
      → after section s st ≡ st
  unfolding after_section
  after_again section s st known = elim (Bool-cases (has_body section)) [
    | inl t ↦ rw t (write_again section s st (known t)).0
    | inr f ↦ rw f
  ]

  module _ (stamps : ℕ → Stamp) (i : ℕ) (section : Str) (sections : List Str) (st : Store) where
    abbrev rest : Copied
    rest = loop stamps (suc i) sections (after section (stamps i) st)

    loop_without_body : has_body section ≡ false → loop stamps i (section ∷ sections) st ≡ rest
    unfolding copy_loop
    loop_without_body f = ground arith

    loop_skipped :
        has_body section ≡ true
        → (learnings_write sha256
            (entry_of to_lower source_project section)
            (stamps i)
            st).1.created
          ≡ false
        → loop stamps i (section ∷ sections) st ≡ record rest { skipped = suc rest.skipped }
    unfolding copy_loop
    loop_skipped t f = ground arith

  -- The loop over sections that the store knows.
  loop_again :
      (stamps : ℕ → Stamp) (i : ℕ) (sections : List Str) (st : Store)
      → ((section : Str)
          → In section sections
          → has_body section ≡ true
          → Known (section_hash section) st)
      → loop stamps i sections st
        ≡ record { store = st; created = 0; skipped = length (filter has_body sections) }
  loop_again stamps i [] st known = unfold copy_loop in refl
  loop_again stamps i (x ∷ sections) st known =
      let same = after_again x (stamps i) st (known x (inl refl)) in
      let ih = loop_again stamps (suc i) sections st (λ section at. known section (inr at)) in
      elim (Bool-cases (has_body x)) [
        | inl t ↦
            let old = (write_again x (stamps i) st (known x (inl refl) t)).1 in
            rw (loop_skipped stamps i x sections st t old, same, ih, t)
        | inr f ↦ rw (loop_without_body stamps i x sections st f, same, ih, f)
      ]

  loop_total :
      (stamps : ℕ → Stamp) (i : ℕ) (sections : List Str) (st : Store)
      → (loop stamps i sections st).created + (loop stamps i sections st).skipped
        ≡ length (filter has_body sections)
  unfolding copy_loop
  loop_total stamps i [] st = refl
  loop_total stamps i (x ∷ sections) st =
      ground (arith, loop_total stamps (suc i) sections (after x (stamps i) st))

  -- Where no id that is made is that of a file already there, a copy writes or skips each section
  -- with a body, and a second copy of the same text, at any time, writes nothing, skips all of them
  -- and leaves the store as the first left it.
  pub learnings_copy_twice :
      (stamps stamps' : ℕ → Stamp) (content : Str) (st : Store)
      → IsFresh stamps 0 (split_headings true content).1 st
      → ((copied stamps content st).created + (copied stamps content st).skipped
          ≡ length (filter has_body (split_headings true content).1))
        × (copied stamps' content (copied stamps content st).store ≡ record {
          store = (copied stamps content st).store;
          created = 0;
          skipped = length (filter has_body (split_headings true content).1);
        })
  unfolding learnings_copy_from_project
  learnings_copy_twice stamps stamps' content st fresh =
      let sections = (split_headings true content).1 in
      (
        loop_total stamps 0 sections st,
        loop_again stamps' 0 sections (loop stamps 0 sections st).store
            (loop_knows stamps 0 sections st fresh),
      )
