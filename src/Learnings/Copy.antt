-- ===== src/Learnings/Copy.antt =====
-- `learningsCopyFromProject` of learnings.cjs: the sections of a LEARNINGS.md become learnings.
pub mod Twice
use sagasmith.Common.{
  split_at, non_empty, ℕ, zero, suc, ◌+◌, Bool, true, false, ◌&&◌, ◌||◌, Option, none, some, List,
  [], ◌∷◌, ◌++◌, length, filter, ltb, leb, ◌==◌, Str, str, starts_with, join, if◌then◌else◌,
}
use sagasmith.Common.Regex.{is_space}
use sagasmith.Common.Spaces.{trim}
use sagasmith.Learnings.Ids.{Stamp}
use sagasmith.Learnings.{Store, Entry, learnings_write}

-- What `^` with the m flag stands behind.
abbrev pub is_line_end : ℕ → Bool
is_line_end c = (c == 10) || (c == 13) || (c == 8232) || (c == 8233)

-- split(/^## /m): what stands before the first heading, and the sections; the flag says whether the
-- text starts a line.
unfoldable pub split_headings : Bool → Str → Str × List Str
split_headings start (a ∷ b ∷ c ∷ s) =
    let (h, t) = split_headings false s in
    let (h', t') = split_headings (is_line_end a) (b ∷ c ∷ s) in
    if start && (a == b'#') && (b == b'#') && (c == 32) then ([], h ∷ t) else (a ∷ h', t')
split_headings start s = (s, [])

abbrev pub is_newline : ℕ → Bool
is_newline c = c == 10

unfoldable pub title_of : Str → Str
unfolding trim split_at
title_of section = trim (split_at is_newline (trim section)).0

unfoldable pub body_of : Str → Str
unfolding trim split_at
body_of section = trim (join (10 ∷ []) (split_at is_newline (trim section)).1)

-- The result with the store that it leaves; `total` is the sum.
pub record Copied : Type 0 where
  pub store : Store
  pub created : ℕ
  pub skipped : ℕ

module _ (to_lower : Str → Str) where
  -- A split at each white space gives only more empty words than one at `\s+`; the filter drops them.
  unfoldable pub tags_of : Str → List Str
  unfolding split_at
  tags_of title =
      let (w, ws) = split_at is_space (to_lower title) in filter (λ v. ltb 2 (length v)) (w ∷ ws)

  unfoldable pub entry_of : Str → Str → Entry
  unfolding title_of body_of tags_of
  entry_of source_project section = record {
    source_project = source_project;
    learning = body_of section;
    context = title_of section;
    tags = tags_of (title_of section);
  }

  module _ (sha256 : Str → Str) (source_project : Str) where
    unfoldable pub after_section : Str → Stamp → Store → Store
    unfolding learnings_write entry_of
    after_section section s st =
        if non_empty (body_of section)
        then (learnings_write sha256 (entry_of source_project section) s st).0
        else st

    -- The loop; the write for a section reads the stamp of the section's number.
    unfoldable pub copy_loop : (ℕ → Stamp) → ℕ → List Str → Store → Copied
    unfolding after_section
    copy_loop stamps i [] st = record { store = st; created = 0; skipped = 0 }
    copy_loop stamps i (section ∷ sections) st =
        let rest = copy_loop stamps (suc i) sections (after_section section (stamps i) st) in
        if non_empty (body_of section)
        then if (learnings_write sha256 (entry_of source_project section) (stamps i) st).1.created
          then record rest { created = rest.created + 1 }
          else record rest { skipped = rest.skipped + 1 }
        else rest

    -- The content of LEARNINGS.md, none where the file does not exist.
    unfoldable pub learnings_copy_from_project : (ℕ → Stamp) → Option Str → Store → Copied
    unfolding copy_loop split_headings
    learnings_copy_from_project stamps none st = record { store = st; created = 0; skipped = 0 }
    learnings_copy_from_project stamps (some content) st =
        copy_loop stamps 0 (split_headings true content).1 st
