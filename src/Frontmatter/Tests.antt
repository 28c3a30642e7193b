-- ===== src/Frontmatter/Tests.antt =====
-- Frontmatter on small files.
use sagasmith.Common.{
  true_not_false, str_eq, Option, none, some, sym, if◌then◌else◌, ◌≡◌, refl, [], ◌∷◌, Str, str,
  ◌++◌, true, false, starts_with, ends_with, includes,
}
use sagasmith.Frontmatter.{Value, word, text, list, group, Entries, end, entry, get, put}
use mathlib.Core.Path.{subst}
use sagasmith.Common.Spaces.{trim_start, trim_end}
use sagasmith.Frontmatter.Commands.{
  field_of, assign, frontmatter_get, frontmatter_set, frontmatter_merge,
}
use sagasmith.Frontmatter.Blocks.Fields.{AreUnique}
use sagasmith.Frontmatter.RoundTrip.Written.{
  first_of, frontmatter_get-frontmatter_set, frontmatter_get-frontmatter_merge,
}
use sagasmith.Frontmatter.Lines.{split_inline_array, unquote}
use sagasmith.Frontmatter.Parser.{extract_frontmatter}
use sagasmith.Markdown.{normalize_md, unix, lines_of}
use sagasmith.Markdown.Content.{shown}
use sagasmith.Markdown.Content.Kept.{normalize_md-shown}
use sagasmith.Markdown.Ends.{has_short_gaps, normalize_md-has_short_gaps}
use sagasmith.Frontmatter.Shape.{IsKey, IsText, IsEntries}
use sagasmith.Frontmatter.RoundTrip.Whole.{splice_frontmatter_twice}
use sagasmith.Frontmatter.Printer.{outer, splice_frontmatter}

splits : split_inline_array (str "\"a, b\", c,, 'd'") ≡ str "a, b" ∷ str "c" ∷ str "d" ∷ []
unfolding split_inline_array
splits = refl

abbrev sample : Entries
sample = entry (str "phase") (text (str "01: x")) (
    entry (str "tags") (list (word (str "a") ∷ word (str "b") ∷ [])) (
      entry (str "must")
        (group (
          entry (str "truths")
            (list (word (str "p q") ∷ word (str "r") ∷ word (str "s") ∷ word (str "t:u") ∷ []))
            (entry (str "deep") (group (entry (str "k") (text (str "v")) end)) end)))
        (entry (str "wave") (text (str "1")) end)))

reads_back : extract_frontmatter (splice_frontmatter (str "# Title") sample) ≡ sample
unfolding extract_frontmatter splice_frontmatter
reads_back = refl

phase-IsKey : IsKey (str "phase")
unfolding starts_with
phase-IsKey = record { chars = refl; named = refl; no_rule = refl }

one-IsText : IsText outer (str "01: x")
unfolding includes starts_with
one-IsText = record {
  line = refl;
  bare = λ h. absurd (true_not_false refl h);
  no_bracket = λ h. absurd (true_not_false refl h);
}

abbrev phase_only : Entries
phase_only = entry (str "phase") (text (str "01: x")) end

phase_only-IsEntries : IsEntries outer phase_only
unfolding get
phase_only-IsEntries = (phase-IsKey, refl, one-IsText, tt)

abbrev old_file : Str
old_file = str "---\na: b\n---\n# Title"

splice_frontmatter_twice_example :
    splice_frontmatter (splice_frontmatter old_file phase_only) sample
    ≡ splice_frontmatter old_file sample
splice_frontmatter_twice_example =
    splice_frontmatter_twice old_file (str "phase") (text (str "01: x")) end sample
      phase_only-IsEntries

abbrev dense : Str
dense = str "# T\ntext\n- a\n- b\n\n\n\n\nmore\n\n"

normalised : normalize_md dense ≡ str "# T\n\ntext\n\n- a\n- b\n\nmore\n"
unfolding normalize_md
normalised = refl

normalize_md-shown_example : shown (lines_of (normalize_md dense)) ≡ shown (lines_of (unix dense))
normalize_md-shown_example = normalize_md-shown dense

normalize_md-has_short_gaps_example :
    (t : Str) × (normalize_md dense ≡ t ++ b'\n' ∷ [])
    × (ends_with t (b'\n' ∷ []) ≡ false)
    × (has_short_gaps 0 (normalize_md dense) ≡ true)
normalize_md-has_short_gaps_example = normalize_md-has_short_gaps dense refl

-- An object that prints nothing is not found again, and the body is taken for it.
empty_block :
    extract_frontmatter (splice_frontmatter (str "a: b\n---\n") end)
    ≡ entry (str "a") (text (str "b")) end
unfolding extract_frontmatter splice_frontmatter
empty_block = refl

a-IsKey : IsKey (str "a")
unfolding starts_with
a-IsKey = record { chars = refl; named = refl; no_rule = refl }

b-IsText : IsText outer (str "b")
unfolding includes starts_with trim_start trim_end unquote
b-IsText = record {
  line = refl;
  bare = λ h. record { shown = refl; no_space_first = refl; no_space_last = refl; no_quote = refl };
  no_bracket = λ h. refl;
}

abbrev two_fields : Entries
two_fields = entry (str "a") (text (str "b")) phase_only

two_fields-IsEntries : IsEntries outer two_fields
unfolding get str_eq
two_fields-IsEntries = (a-IsKey, refl, b-IsText, phase_only-IsEntries)

old_file-put : put (extract_frontmatter old_file) (str "phase") (text (str "01: x")) ≡ two_fields
unfolding extract_frontmatter put
old_file-put = refl

old_file-assign : assign (extract_frontmatter old_file) phase_only ≡ two_fields
unfolding extract_frontmatter assign
old_file-assign = refl

abbrev not_json : Str → Option Value
not_json s = none

abbrev phase_json : Str → Option Entries
phase_json s = some phase_only

frontmatter_get-frontmatter_set_example :
    frontmatter_get
      (str "p.md")
      (frontmatter_set not_json (str "p.md") (some old_file) (str "phase") (some (str "01: x"))).0
      (str "a")
    ≡ field_of (str "a") (
        if str_eq (str "phase") (str "a")
        then some (text (str "01: x"))
        else get (extract_frontmatter old_file) (str "a"))
frontmatter_get-frontmatter_set_example =
    frontmatter_get-frontmatter_set not_json (str "p.md") old_file (str "phase") (str "01: x")
      (str "a") refl refl refl refl
      (subst (IsEntries outer) (sym old_file-put) two_fields-IsEntries)

phase_only-AreUnique : AreUnique phase_only
unfolding get
phase_only-AreUnique = (refl, tt)

frontmatter_get-frontmatter_merge_example :
    frontmatter_get
      (str "p.md")
      (frontmatter_merge phase_json (str "p.md") (some old_file) (str "{}")).0
      (str "a")
    ≡ field_of
        (str "a")
        (first_of (get phase_only (str "a")) (get (extract_frontmatter old_file) (str "a")))
frontmatter_get-frontmatter_merge_example =
    frontmatter_get-frontmatter_merge phase_json (str "p.md") old_file (str "{}") (str "a")
      (str "phase") (text (str "01: x")) end refl refl refl refl refl phase_only-AreUnique
      (subst (IsEntries outer) (sym old_file-assign) two_fields-IsEntries)
