-- ===== src/Frontmatter/RoundTrip/Written.antt =====
-- Reading what the commands have written.
use mathlib.Core.Path.{subst}
use sagasmith.Common.{
  true, false, Option, none, some, List, [], ◌∷◌, ◌++◌, Str, str_eq, non_empty, join, ◌≡◌, refl, ap,
  sym, ◌∙◌, Bool-cases, inl, inr, str_eq_iff, if◌then◌else◌,
}
use sagasmith.Markdown.{normalize_md}
use sagasmith.Markdown.Content.{shown}
use sagasmith.Frontmatter.{Value, Entries, end, entry, put, get}
use sagasmith.Frontmatter.Lines.{front_match}
use sagasmith.Frontmatter.Parser.{run, finish, root, parsed, extract_frontmatter}
use sagasmith.Frontmatter.Printer.{
  outer, print_entries, framed, reconstruct_frontmatter, splice_frontmatter,
}
use sagasmith.Frontmatter.Commands.{
  Answer, has_null, field_of, all_fields, with_content, frontmatter_get, set_content, value_or_text,
  frontmatter_set, assign, merge_content, frontmatter_merge,
}
use sagasmith.Frontmatter.Blocks.Fields.{AreUnique, apart}
use sagasmith.Frontmatter.Shape.{IsEntries}
use sagasmith.Frontmatter.RoundTrip.Clean.{AreClean, print_entries-AreClean}
use sagasmith.Frontmatter.RoundTrip.Framing.{newline}
use sagasmith.Frontmatter.RoundTrip.Blanks.{run-shown, front_match-lines}
use sagasmith.Frontmatter.RoundTrip.Normalised.{HasBlock, normalize_md-HasBlock}
use sagasmith.Frontmatter.RoundTrip.Whole.{
  parse_block-lines, first_line, finish-print_entries, body, spliced-framed,
}

extract_frontmatter-HasBlock :
    (s : Str) (qs : List Str)
    → HasBlock qs s
    → non_empty qs ≡ true
    → extract_frontmatter s ≡ finish (run qs (root, []))
unfolding extract_frontmatter
extract_frontmatter-HasBlock s qs (b, bs, rest, same, clean, e) n =
    ap (λ t. parsed (front_match t)) e
    ∙ ap parsed (front_match-lines b bs rest clean (ap non_empty same ∙ n))
    ∙ parse_block-lines b bs clean
    ∙ ap finish (run-shown (b ∷ bs) (root, []))
    ∙ ap (λ ls. finish (run ls (root, []))) same

-- An object with at least one field, of texts, arrays of texts and, two levels deep, objects of
-- them, whose keys and values are written unambiguously at their depth, is read back as it is from
-- every file into which it is spliced and that is then normalised.
pub extract_frontmatter-normalize_md :
    (content k : Str) (v : Value) (es : Entries)
    → IsEntries outer (entry k v es)
    → extract_frontmatter (normalize_md (splice_frontmatter content (entry k v es))) ≡ entry k v es
unfolding splice_frontmatter reconstruct_frontmatter
extract_frontmatter-normalize_md content k v es h =
    let printed = print_entries outer (entry k v es) in
    let rest = body content (front_match content) in
    let (c, l, ls, plain, e) = first_line k v es h in
    let clean = subst AreClean e (print_entries-AreClean outer (entry k v es) h) in
    ap (λ t. extract_frontmatter (normalize_md t))
      (spliced-framed content (join (newline ∷ []) printed) (front_match content))
    ∙ ap (λ ms. extract_frontmatter (normalize_md (framed (join (newline ∷ []) ms) ++ rest))) e
    ∙ extract_frontmatter-HasBlock
        (normalize_md (framed (join (newline ∷ []) ((c ∷ l) ∷ ls)) ++ rest)) (shown ((c ∷ l) ∷ ls))
        (normalize_md-HasBlock (c ∷ l) ls rest clean refl) refl
    ∙ ap finish (sym (run-shown ((c ∷ l) ∷ ls) (root, [])))
    ∙ ap (λ ms. finish (run ms (root, []))) (sym e)
    ∙ finish-print_entries (entry k v es) h

get-put :
    (es : Entries) (k j : Str) (v : Value)
    → get (put es k v) j ≡ (if str_eq k j then some v else get es j)
unfolding get put
get-put end k j v = refl
get-put (entry i w es) k j v = elim (Bool-cases (str_eq i k)) [
  | inl e ↦ rw e (elim (Bool-cases (str_eq k j)) [
    | inl s ↦ rw ((str_eq_iff i k).0 e, s) refl
    | inr d ↦ rw ((str_eq_iff i k).0 e, d) refl
  ])
  | inr d ↦ rw d (elim (Bool-cases (str_eq i j)) [
    | inl s ↦ rw (s, sym ((str_eq_iff i j).0 s), apart i k d) refl
    | inr o ↦ rw o (get-put es k j v)
  ])
]

put-entry :
    (es : Entries) (k : Str) (v : Value)
    → (j : Str) × (w : Value) × (fs : Entries) × (put es k v ≡ entry j w fs)
unfolding put
put-entry end k v = (k, v, end, refl)
put-entry (entry i w es) k v = elim (Bool-cases (str_eq i k)) [
  | inl e ↦ (i, v, es, rw e refl)
  | inr d ↦ (i, w, put es k v, rw d refl)
]

-- A file in which an object is found is not empty.
with_content_found :
    (t j : Str) (w : Value) (fs : Entries) (f : Str → Answer)
    → extract_frontmatter t ≡ entry j w fs
    → with_content (some t) f ≡ f t
unfolding extract_frontmatter
with_content_found [] j w fs f e = absurd cc
with_content_found (c ∷ t) j w fs f e = refl

read_written :
    (path content asked j : Str) (w : Value) (fs : Entries)
    → non_empty path ≡ true
    → has_null path ≡ false
    → non_empty asked ≡ true
    → IsEntries outer (entry j w fs)
    → frontmatter_get path (some (normalize_md (splice_frontmatter content (entry j w fs)))) asked
      ≡ field_of asked (get (entry j w fs) asked)
unfolding frontmatter_get
read_written path content asked j w fs p z a h =
    let file = normalize_md (splice_frontmatter content (entry j w fs)) in
    let found = extract_frontmatter-normalize_md content j w fs h in
    rw (p, z)
      (with_content_found file j w fs
          (λ t.
            if non_empty asked
            then field_of asked (get (extract_frontmatter t) asked)
            else all_fields (extract_frontmatter t))
          found
        ∙ rw (a, found) refl)

-- With a path that is not empty and has no null byte, and two field names that are not empty, a
-- get after a set on a file of any content answers for the field that was set with the value
-- given, and for another field as the file read before, where the object that the set writes has
-- only keys and values that are written unambiguously at their depth.
pub frontmatter_get-frontmatter_set :
    (parse : Str → Option Value) (path content field value asked : Str)
    → non_empty path ≡ true
    → has_null path ≡ false
    → non_empty field ≡ true
    → non_empty asked ≡ true
    → IsEntries outer (put (extract_frontmatter content) field (value_or_text value (parse value)))
    → frontmatter_get path (frontmatter_set parse path (some content) field (some value)).0 asked
      ≡ field_of asked (
          if str_eq field asked
          then some (value_or_text value (parse value))
          else get (extract_frontmatter content) asked)
unfolding frontmatter_set set_content
frontmatter_get-frontmatter_set parse path content field value asked p z f a h =
    let v = value_or_text value (parse value) in
    let fm = extract_frontmatter content in
    let (j, w, fs, e) = put-entry fm field v in
    rw (p, z, f, e) (read_written path content asked j w fs p z a (subst (IsEntries outer) e h))
    ∙ ap (λ es. field_of asked (get es asked)) (sym e)
    ∙ ap (field_of asked) (get-put fm field asked v)

abbrev pub first_of : Option Value → Option Value → Option Value
first_of none o = o
first_of (some v) o = some v

-- Object.assign reads the second object first.
get-assign :
    (es fs : Entries) (j : Str)
    → AreUnique fs
    → get (assign es fs) j ≡ first_of (get fs j) (get es j)
unfolding assign get
get-assign es end j u = refl
get-assign es (entry k v fs) j (n, u) = elim (Bool-cases (str_eq k j)) [
  | inl e ↦
      get-assign (put es k v) fs j u
      ∙ ap (first_of (get fs j)) (get-put es k j v)
      ∙ rw (e, sym ((str_eq_iff k j).0 e), n) refl
  | inr d ↦ get-assign (put es k v) fs j u ∙ ap (first_of (get fs j)) (get-put es k j v) ∙ rw d refl
]

assign-entry :
    (es fs : Entries)
    → (j : Str) × (w : Value) × (gs : Entries) × (es ≡ entry j w gs)
    → (j : Str) × (w : Value) × (gs : Entries) × (assign es fs ≡ entry j w gs)
unfolding assign
assign-entry es end h = h
assign-entry es (entry k v fs) h = assign-entry (put es k v) fs (put-entry es k v)

-- With a path that is not empty and has no null byte, and data that parses as an object of at
-- least one field and different keys, a get of a named field after a merge answers with the value
-- of the data where it has the field, and as the file read before where it does not, where the
-- merged object has only keys and values that are written unambiguously at their depth.
pub frontmatter_get-frontmatter_merge :
    (parse : Str → Option Entries) (path content json asked k : Str) (v : Value) (fs : Entries)
    → non_empty path ≡ true
    → has_null path ≡ false
    → non_empty json ≡ true
    → non_empty asked ≡ true
    → parse json ≡ some (entry k v fs)
    → AreUnique (entry k v fs)
    → IsEntries outer (assign (extract_frontmatter content) (entry k v fs))
    → frontmatter_get path (frontmatter_merge parse path (some content) json).0 asked
      ≡ field_of asked
          (first_of (get (entry k v fs) asked) (get (extract_frontmatter content) asked))
unfolding frontmatter_merge merge_content assign
frontmatter_get-frontmatter_merge parse path content json asked k v fs p z f a given u h =
    let fm = extract_frontmatter content in
    let (j, w, gs, e) = assign-entry (put fm k v) fs (put-entry fm k v) in
    rw (p, f, given, e) (read_written path content asked j w gs p z a (subst (IsEntries outer) e h))
    ∙ ap (λ es. field_of asked (get es asked)) (sym e)
    ∙ ap (field_of asked) (get-assign fm (entry k v fs) asked u)
