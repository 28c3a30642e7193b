-- ===== src/Frontmatter/RoundTrip/Whole.antt =====
-- The file as a whole.
use mathlib.Core.Path.{subst}
use sagasmith.Common.{
  ℕ, ltb, false, Option, none, some, List, [], ◌∷◌, ◌++◌, Str, str, map, join, ◌≡◌, refl, ap, sym,
  ◌∙◌, all, Bool-cases, inl, inr, and-eq-true, true_not_false, arith,
}
use sagasmith.Frontmatter.{Value, absent, text, scalar, list, group, Entries, end, entry}
use sagasmith.Frontmatter.Lines.{is_terminator, is_key_char, front_match}
use sagasmith.Frontmatter.Parser.{
  Frame, settle, close, run, close_all, finish, root, parse_block, parsed, extract_frontmatter,
}
use sagasmith.Frontmatter.Printer.{
  outer, print_value, print_entries, item_row, item_text, is_inline, framed, spliced,
  reconstruct_frontmatter, splice_frontmatter,
}
use sagasmith.Frontmatter.Shape.{IsValue, IsEntries}
use sagasmith.Frontmatter.Blocks.{settle_shallow}
use sagasmith.Frontmatter.Blocks.Fields.{put_all_end}
use sagasmith.Frontmatter.RoundTrip.{run-print_entries}
use sagasmith.Frontmatter.RoundTrip.Clean.{AreClean, print_entries-AreClean}
use sagasmith.Frontmatter.RoundTrip.Framing.{newline, lines-join, front_match-join}

finish-settle :
    (d : ℕ) (top : Frame) (ps : List Frame) → finish (settle d top ps) ≡ finish (top, ps)
unfolding settle close_all
finish-settle d top [] = refl
finish-settle d top (p ∷ ps) = elim (Bool-cases (ltb d top.mark)) [
  | inl over ↦ rw over (finish-settle d (close top p) ps)
  | inr within ↦ rw within refl
]

pub finish-print_entries :
    (es : Entries) → IsEntries outer es → finish (run (print_entries outer es) (root, [])) ≡ es
unfolding close_all
finish-print_entries es h =
    let s = run (print_entries outer es) (root, []) in
    sym (finish-settle 0 s.0 s.1)
    ∙ ap finish
        (run-print_entries outer es (root, []) 0 [] end [] h refl (settle_shallow 0 root [] refl))
    ∙ put_all_end outer es h

head_line_first :
    (c : ℕ) (k : Str) (v : Value)
    → IsValue outer v
    → (l : Str) × (ls : List Str) × (print_value outer (c ∷ k) v ≡ (c ∷ l) ∷ ls)
unfolding print_value
head_line_first c k absent w = absurd w
head_line_first c k (text s) w = (_, [], refl)
head_line_first c k (scalar s) w = absurd w
head_line_first c k (list []) w = (_, [], refl)
head_line_first c k (list (x ∷ xs)) w = elim (Bool-cases (is_inline outer (x ∷ xs))) [
  | inl i ↦ (
    k ++ (b':' ∷ (str " [" ++ (join (str ", ") (map item_text (x ∷ xs)) ++ str "]"))),
    [],
    rw i refl,
  )
  | inr r ↦ (k ++ b':' ∷ [], map (item_row outer) (x ∷ xs), rw r refl)
]
head_line_first c k (group es) w = (_, _, refl)

-- The first line begins with the first key.
pub first_line :
    (k : Str) (v : Value) (es : Entries)
    → IsEntries outer (entry k v es)
    → (c : ℕ) × (l : Str) × (ls : List Str) × (is_terminator c ≡ false)
      × (print_entries outer (entry k v es) ≡ (c ∷ l) ∷ ls)
unfolding print_entries
first_line [] v es (n, u, w, h) = absurd (true_not_false n.named refl)
first_line (c ∷ k) v es (n, u, w, h) =
    let (l, ls, e) = head_line_first c k v w in
    let key = (and-eq-true (is_key_char c) (all is_key_char k) n.chars).0 in
    let plain : is_terminator c ≡ false = ground arith in
    (c, l, ls ++ print_entries outer es, plain, ap (λ m. m ++ print_entries outer es) e)

pub parse_block-lines :
    (l : Str) (ls : List Str)
    → AreClean (l ∷ ls)
    → parse_block (join (newline ∷ []) (l ∷ ls)) ≡ finish (run (l ∷ ls) (root, []))
unfolding parse_block
parse_block-lines l ls h = ap (λ m. finish (run m (root, []))) (lines-join l ls h)

pub front_match-framed :
    (k : Str) (v : Value) (es : Entries) (rest : Str)
    → IsEntries outer (entry k v es)
    → front_match (framed (reconstruct_frontmatter (entry k v es)) ++ rest)
      ≡ some (reconstruct_frontmatter (entry k v es), rest)
unfolding reconstruct_frontmatter
front_match-framed k v es rest h =
    let (c, l, ls, plain, e) = first_line k v es h in
    let clean = subst AreClean e (print_entries-AreClean outer (entry k v es) h) in
    rw e (front_match-join c l ls rest plain clean)

parse_block-reconstruct_frontmatter :
    (k : Str) (v : Value) (es : Entries)
    → IsEntries outer (entry k v es)
    → parse_block (reconstruct_frontmatter (entry k v es)) ≡ entry k v es
unfolding reconstruct_frontmatter
parse_block-reconstruct_frontmatter k v es h =
    let (c, l, ls, plain, e) = first_line k v es h in
    let clean = subst AreClean e (print_entries-AreClean outer (entry k v es) h) in
    ap (λ m. parse_block (join (newline ∷ []) m)) e
    ∙ parse_block-lines (c ∷ l) ls clean
    ∙ ap (λ m. finish (run m (root, []))) (sym e)
    ∙ finish-print_entries (entry k v es) h

extract_framed :
    (k : Str) (v : Value) (es : Entries) (rest : Str)
    → IsEntries outer (entry k v es)
    → extract_frontmatter (framed (reconstruct_frontmatter (entry k v es)) ++ rest) ≡ entry k v es
unfolding extract_frontmatter
extract_framed k v es rest h =
    ap parsed (front_match-framed k v es rest h) ∙ parse_block-reconstruct_frontmatter k v es h

-- What stands behind the new block.
abbrev pub body : Str → Option (Str × Str) → Str
body content none = newline ∷ newline ∷ content
body content (some (yaml, rest)) = rest

pub spliced-framed :
    (content yaml : Str) (m : Option (Str × Str))
    → spliced content yaml m ≡ framed yaml ++ body content m
spliced-framed content yaml none = refl
spliced-framed content yaml (some (old, rest)) = refl

-- An object with at least one field, of texts, arrays of texts and, two levels deep, objects of
-- them, whose keys and values are written unambiguously at their depth, is read back as it is from
-- every file into which it is spliced.
pub extract_frontmatter-splice_frontmatter :
    (content k : Str) (v : Value) (es : Entries)
    → IsEntries outer (entry k v es)
    → extract_frontmatter (splice_frontmatter content (entry k v es)) ≡ entry k v es
unfolding splice_frontmatter
extract_frontmatter-splice_frontmatter content k v es h =
    ap extract_frontmatter
      (spliced-framed content (reconstruct_frontmatter (entry k v es)) (front_match content))
    ∙ extract_framed k v es (body content (front_match content)) h

-- Splicing an object of that kind into a file and then another object gives the same file as
-- splicing the second one alone, so the block is replaced and nothing of the body is lost or
-- doubled.
pub splice_frontmatter_twice :
    (content k : Str) (v : Value) (es fs : Entries)
    → IsEntries outer (entry k v es)
    → splice_frontmatter (splice_frontmatter content (entry k v es)) fs
      ≡ splice_frontmatter content fs
unfolding splice_frontmatter
splice_frontmatter_twice content k v es fs h =
    let yaml = reconstruct_frontmatter (entry k v es) in
    let rest = body content (front_match content) in
    ap (λ s. spliced s (reconstruct_frontmatter fs) (front_match s))
      (spliced-framed content yaml (front_match content))
    ∙ ap (spliced (framed yaml ++ rest) (reconstruct_frontmatter fs))
        (front_match-framed k v es rest h)
    ∙ sym (spliced-framed content (reconstruct_frontmatter fs) (front_match content))
