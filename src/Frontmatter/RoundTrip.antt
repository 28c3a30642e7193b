-- ===== src/Frontmatter/RoundTrip.antt =====
-- An object that is printed into a file is read back from it.
pub mod Blanks
pub mod Clean
pub mod Framing
pub mod Normalised
pub mod Whole
pub mod Written
use sagasmith.Common.{
  ℕ, suc, ◌≤◌, arith, ltb, Bool, true, false, not, Option, none, some, List, [], ◌∷◌, ◌++◌, Str,
  str, map, join, ◌≡◌, refl, ap, sym, ◌∙◌, Bool-cases, inl, inr,
}
use sagasmith.Frontmatter.{
  Item, word, other, Value, absent, text, scalar, list, group, Entries, end, entry, put, get,
}
use sagasmith.Frontmatter.Parser.{Node, object, array, Frame, Stack, frame_put, settle, step, run}
use sagasmith.Frontmatter.Printer.{
  Depth, outer, middle, deep, head_line, item_row, quoted_if, is_quoted, item_text, is_inline,
  list_lines, print_value, print_entries,
}
use sagasmith.Frontmatter.Shape.{IsKey, IsText, IsList, IsValue, IsEntries}
use sagasmith.Frontmatter.Reading.{column, ReadsAs, text-ReadsAs}
use sagasmith.Frontmatter.Reading.Elements.{inline-ReadsAs, empty-ReadsAs}
use sagasmith.Frontmatter.Blocks.{
  base, settled, settle-settle, settle_shallow, step_value, step_header, run_rows_block, run-append,
  settled-child, put_all, child,
}
use sagasmith.Frontmatter.Blocks.Fields.{put_all_end}

one_line :
    (d : Depth) (k rest v : Str) (x : Value) (s : Stack) (m : ℕ) (j : Str) (f : Entries)
    (ps : List Frame)
    → IsKey k
    → ltb (column d) m ≡ false
    → settled (column d) s ≡ (base m j f, ps)
    → ReadsAs rest v x
    → settled (column d) (run (head_line d k rest ∷ []) s) ≡ (base m j (put f k x), ps)
unfolding run
one_line d k rest v x s m j f ps h l e r =
    ap (settled (column d)) (step_value d k rest v x s (base m j f) ps h e r)
    ∙ settle_shallow (column d) (base m j (put f k x)) ps l

run-list_lines :
    (d : Depth) (k : Str) (xs : List Item) (s : Stack) (m : ℕ) (j : Str) (f : Entries)
    (ps : List Frame)
    → IsKey k
    → IsList d xs
    → ltb (column d) m ≡ false
    → settled (column d) s ≡ (base m j f, ps)
    → settled (column d) (run (list_lines d k xs) s) ≡ (base m j (put f k (list xs)), ps)
run-list_lines d k [] s m j f ps h w l e =
    one_line d k (str " []") (str "[]") (list []) s m j f ps h l e empty-ReadsAs
run-list_lines d k (x ∷ xs) s m j f ps h w l e = elim (Bool-cases (is_inline d (x ∷ xs))) [
  | inl i ↦ rw i (
      one_line d k (str " [" ++ (join (str ", ") (map item_text (x ∷ xs)) ++ str "]"))
        (b'[' ∷ (join (str ", ") (map item_text (x ∷ xs)) ++ b']' ∷ [])) (list (x ∷ xs)) s m j f ps
        h l e (inline-ReadsAs d (x ∷ xs) i w))
  | inr r ↦ rw r (run_rows_block d k x xs s m j f ps h (w.rows r) l e)
]

-- The fields of a child have been read, and the next line is at the parent's depth.
group_block :
    (d e : Depth) (k : Str) (es : Entries) (s : Stack) (m : ℕ) (j : Str) (f : Entries)
    (ps : List Frame)
    → column d ≤ column e
    → IsKey k
    → ltb (column d) m ≡ false
    → settled (column d) s ≡ (base m j f, ps)
    → settled (column e) (run (print_entries e es) (base (suc (column d)) k end, base m j f ∷ ps))
      ≡ (base (suc (column d)) k es, base m j f ∷ ps)
    → settled (column d) (run (head_line d k [] ∷ print_entries e es) s)
      ≡ (base m j (put f k (group es)), ps)
unfolding run
group_block d e k es s m j f ps le h l at below =
    let inner = run (print_entries e es) (base (suc (column d)) k end, base m j f ∷ ps) in
    ap (λ t. settled (column d) (run (print_entries e es) t))
      (step_header d k s (base m j f) ps h at)
    ∙ sym (settle-settle (column d) (column e) inner.0 inner.1 le)
    ∙ ap (settled (column d)) below
    ∙ settled-child (column d) k (object es) m j f ps l

mutual
  unfolding print_value put_all run

  run-print_value :
      (d : Depth) (k : Str) (v : Value) (s : Stack) (m : ℕ) (j : Str) (f : Entries)
      (ps : List Frame)
      → IsKey k
      → IsValue d v
      → ltb (column d) m ≡ false
      → settled (column d) s ≡ (base m j f, ps)
      → settled (column d) (run (print_value d k v) s) ≡ (base m j (put f k v), ps)
  run-print_value d k absent s m j f ps h w l e = absurd w
  run-print_value d k (scalar x) s m j f ps h w l e = absurd w
  run-print_value d k (text x) s m j f ps h w l e =
      one_line d k (b' ' ∷ quoted_if (is_quoted d x) x) (quoted_if (is_quoted d x) x) (text x) s m j
        f ps h l e (text-ReadsAs d x w)
  run-print_value d k (list xs) s m j f ps h w l e = run-list_lines d k xs s m j f ps h w l e
  run-print_value outer k (group es) s m j f ps h w l e =
      group_block outer middle k es s m j f ps (omega arith) h l e (
        run-print_entries middle es (base 1 k end, base m j f ∷ ps) 1 k end (base m j f ∷ ps) w refl
          (settle_shallow 2 (base 1 k end) (base m j f ∷ ps) refl)
        ∙ ap (λ g. (base 1 k g, base m j f ∷ ps)) (put_all_end middle es w))
  run-print_value middle k (group es) s m j f ps h w l e =
      group_block middle deep k es s m j f ps (omega arith) h l e (
        run-print_entries deep es (base 3 k end, base m j f ∷ ps) 3 k end (base m j f ∷ ps) w refl
          (settle_shallow 4 (base 3 k end) (base m j f ∷ ps) refl)
        ∙ ap (λ g. (base 3 k g, base m j f ∷ ps)) (put_all_end deep es w))
  run-print_value deep k (group es) s m j f ps h w l e = absurd w

  pub run-print_entries :
      (d : Depth) (es : Entries) (s : Stack) (m : ℕ) (j : Str) (f : Entries) (ps : List Frame)
      → IsEntries d es
      → ltb (column d) m ≡ false
      → settled (column d) s ≡ (base m j f, ps)
      → settled (column d) (run (print_entries d es) s) ≡ (base m j (put_all f es), ps)
  run-print_entries d end s m j f ps h l e = e
  run-print_entries d (entry k v es) s m j f ps (n, u, w, h) l e =
      ap (settled (column d)) (run-append (print_value d k v) (print_entries d es) s)
      ∙ run-print_entries d es (run (print_value d k v) s) m j (put f k v) ps h l
          (run-print_value d k v s m j f ps n w l e)
