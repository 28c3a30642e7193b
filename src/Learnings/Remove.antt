-- ===== src/Learnings/Remove.antt =====
-- Deleting and pruning.
use sagasmith.Common.{
  ℕ, ◌+◌, ◌≡◌, ◌≢◌, refl, ap, sym, ◌∙◌, Bool, true, ◌&&◌, not, Option, none, some, List, [], ◌∷◌,
  arith, length, filter, Str, str_eq, str_eq_iff, str_eq_refl, if◌then◌else◌, true_not_false,
  not_true, Bool-cases, inl, inr,
}
use sagasmith.Common.Regex.{full}
use sagasmith.Learnings.Ids.{id_pattern, days_of}
use sagasmith.Learnings.{
  Learning, File, Store, files_of, file_name, find_file, unlink, learnings_read, learnings_delete,
  records, is_old, Pruned, prune_loop, learnings_prune, is_some,
}

-- The names in a directory are pairwise different.
abbrev pub Distinct : List File → Type 0
Distinct [] = Unit
Distinct (f ∷ fs) = (find_file fs f.name ≡ none) × Distinct fs

find_file-unlink :
    (fs : List File) (n m : Str)
    → Distinct fs
    → find_file (unlink fs n) m ≡ (if str_eq n m then none else find_file fs m)
unfolding find_file unlink
find_file-unlink [] n m d = ground arith
find_file-unlink (g ∷ fs) n m (new, d) = ground (
  arith,
  find_file-unlink fs n m d,
  str_eq_iff g.name n,
  str_eq_iff g.name m,
  str_eq_iff n m,
  new,
)

delete_success :
    (id : Str) (fs : List File)
    → (learnings_delete id (some fs)).1 ≡ true
    → learnings_delete id (some fs) ≡ (some (unlink fs (file_name id)), true)
unfolding learnings_delete
delete_success id fs h =
    elim (Bool-cases (full id_pattern id && is_some (find_file fs (file_name id)))) [
      | inl t ↦ rw t
      | inr f ↦ absurd (true_not_false h (rw f refl))
    ]

read_unlinked :
    (id : Str) (fs : List File)
    → Distinct fs
    → learnings_read id (some (unlink fs (file_name id))) ≡ none
unfolding learnings_read
read_unlinked id fs d = elim (Bool-cases (full id_pattern id)) [
  | inl t ↦ rw (t, find_file-unlink fs (file_name id) (file_name id) d, str_eq_refl (file_name id))
  | inr f ↦ rw f
]

-- In a directory with pairwise different names, a deletion that reports success leaves no learning under the id, and each other file as it was.
pub learnings_delete-removes :
    (id : Str) (fs : List File)
    → Distinct fs
    → (learnings_delete id (some fs)).1 ≡ true
    → (learnings_read id (learnings_delete id (some fs)).0 ≡ none)
      × ((n : Str)
          → n ≢ file_name id
          → find_file (files_of (learnings_delete id (some fs)).0) n ≡ find_file fs n)
learnings_delete-removes id fs d h = rw (delete_success id fs h) (
  read_unlinked id fs d,
  λ n other.
      find_file-unlink fs (file_name id) n d
      ∙ rw (
          not_true (str_eq (file_name id) n)
            (λ t. other (sym ((str_eq_iff (file_name id) n).0 t)))),
)

module _ (parse_date : Str → Option ℕ) (days now : ℕ) where
  abbrev loop : List File → Pruned
  loop = prune_loop parse_date days now

  abbrev old : Learning → Bool
  old = is_old parse_date days now

  -- The records left after a prune are those that are not old, in their order.
  records-prune_loop :
      (fs : List File) → records (loop fs).files ≡ filter (λ r. not (old r)) (records fs)
  unfolding records prune_loop
  records-prune_loop [] = refl
  records-prune_loop (f ∷ fs) = ground (arith, records-prune_loop fs)

  counts-prune_loop :
      (fs : List File)
      → ((loop fs).removed ≡ length (filter old (records fs)))
        × ((loop fs).kept ≡ length (records (loop fs).files))
  unfolding records prune_loop
  counts-prune_loop [] = (refl, refl)
  counts-prune_loop (f ∷ fs) = ground (arith, counts-prune_loop fs)

  loop_again :
      (fs : List File)
      → loop (loop fs).files
        ≡ record { files = (loop fs).files; removed = 0; kept = (loop fs).kept }
  unfolding prune_loop
  loop_again [] = refl
  loop_again (f ∷ fs) = ground (arith, loop_again fs)

length-filter-split :
    (p : Learning → Bool) (xs : List Learning)
    → length (filter p xs) + length (filter (λ x. not (p x)) xs) ≡ length xs
length-filter-split p [] = refl
length-filter-split p (x ∷ xs) = ground (arith, length-filter-split p xs)

module _ (parse_date : Str → Option ℕ) (older_than : Str) (days now : ℕ) (fs : List File) where
  prune_of_days :
      days_of older_than ≡ some days
      → learnings_prune parse_date older_than now (some fs)
        ≡ some (
          some (prune_loop parse_date days now fs).files,
          ((prune_loop parse_date days now fs).removed, (prune_loop parse_date days now fs).kept),
        )
  unfolding learnings_prune
  prune_of_days h = ground arith

prune_again :
    (parse_date : Str → Option ℕ) (older_than : Str) (days now : ℕ) (fs : List File)
    → days_of older_than ≡ some days
    → learnings_prune parse_date older_than now (some (prune_loop parse_date days now fs).files)
      ≡ some (
        some (prune_loop parse_date days now fs).files,
        (0, (prune_loop parse_date days now fs).kept),
      )
prune_again parse_date older_than days now fs h =
    prune_of_days parse_date older_than days now (prune_loop parse_date days now fs).files h
    ∙ ap (λ (p : Pruned). some (some p.files, (p.removed, p.kept)))
        (loop_again parse_date days now fs)

-- What a prune leaves and counts: the readable records that are left are those that are not old, in
-- their order; `removed` counts the old ones, `kept` the ones that are left, and together they count
-- the readable records there were.
pub record PruneReport (old : Learning → Bool) (fs fs' : List File) (removed kept : ℕ)
    : Type 0 where
  pub left : records fs' ≡ filter (λ r. not (old r)) (records fs)
  pub removed_old : removed ≡ length (filter old (records fs))
  pub kept_left : kept ≡ length (records fs')
  pub all_counted : removed + kept ≡ length (records fs)

module _ (parse_date : Str → Option ℕ) (older_than : Str) (days now : ℕ) (fs : List File) where
  -- A prune of a directory with a duration of so many days succeeds; the records that it leaves are
  -- the readable ones that are not old, in their order, and its two counts are those of the old
  -- records and of the ones left, which together are all readable records.
  pub learnings_prune-report :
      days_of older_than ≡ some days
      → (fs' : List File) × (removed : ℕ) × (kept : ℕ) × (learnings_prune parse_date older_than now
            (some fs)
          ≡ some (some fs', (removed, kept)))
        × PruneReport (is_old parse_date days now) fs fs' removed kept
  learnings_prune-report h =
      let p = prune_loop parse_date days now fs in
      let old = is_old parse_date days now in
      let (r, k) = counts-prune_loop parse_date days now fs in
      let left = records-prune_loop parse_date days now fs in
      (
        p.files,
        p.removed,
        p.kept,
        prune_of_days parse_date older_than days now fs h,
        record {
          left = left;
          removed_old = r;
          kept_left = k;
          all_counted = omega (arith, r, k, ap length left, length-filter-split old (records fs));
        },
      )

  -- For a duration of so many days, a second prune with the same duration at the same time removes nothing and changes nothing.
  pub learnings_prune_twice :
      days_of older_than ≡ some days
      → (st : Store) × (removed : ℕ) × (kept : ℕ) × (learnings_prune parse_date older_than now
            (some fs)
          ≡ some (st, (removed, kept)))
        × (learnings_prune parse_date older_than now st ≡ some (st, (0, kept)))
  learnings_prune_twice h =
      let p = prune_loop parse_date days now fs in
      (
        some p.files,
        p.removed,
        p.kept,
        prune_of_days parse_date older_than days now fs h,
        prune_again parse_date older_than days now fs h,
      )
