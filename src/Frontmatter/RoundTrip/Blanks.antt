-- ===== src/Frontmatter/RoundTrip/Blanks.antt =====
-- Blank lines between the printed lines change nothing of what is read.
use mathlib.Core.Path.{subst}
use sagasmith.Common.{
  true, not, some, List, [], ◌∷◌, ◌++◌, Str, starts_with, non_empty, join, ◌≡◌, refl, ap, sym, ◌∙◌,
  true_not_false, and-eq-true, not-eq-true,
}
use sagasmith.Common.Spaces.{trim}
use sagasmith.Markdown.Content.{shown}
use sagasmith.Frontmatter.Lines.{is_terminator, front_match, opened, before}
use sagasmith.Frontmatter.Parser.{Stack, step, run}
use sagasmith.Frontmatter.Printer.{framed}
use sagasmith.Frontmatter.Shape.{is_line}
use sagasmith.Frontmatter.RoundTrip.Clean.{IsClean, AreClean}
use sagasmith.Frontmatter.RoundTrip.Framing.{newline, closing-join, front_match-join, framed_rest}

-- Empty lines are skipped by the parser.
pub run-shown : (ls : List Str) (s : Stack) → run ls s ≡ run (shown ls) s
unfolding run step trim
run-shown [] s = refl
run-shown ([] ∷ ls) s = run-shown ls s
run-shown ((c ∷ l) ∷ ls) s = run-shown ls (step (c ∷ l) s)

pub empty-IsClean : IsClean []
empty-IsClean = unfold starts_with in (refl, refl)

-- Equal lists with a first line have the same one, and the same others.
pub same_head : (x y : Str) (ls ms : List Str) → x ∷ ls ≡ y ∷ ms → (x ≡ y) × (ls ≡ ms)
same_head x y ls ms e = (cc, cc)

-- The lines up to the first one that is not among the clean ones.
pub up_to :
    (t ps : List Str) (x : Str) (qs : List Str)
    → shown t ≡ ps ++ x ∷ qs
    → AreClean ps
    → (bs : List Str) × (ts : List Str) × (t ≡ bs ++ x ∷ ts) × (shown bs ≡ ps) × AreClean bs
up_to [] [] x qs e h = absurd cc
up_to [] (p ∷ ps) x qs e h = absurd cc
up_to ([] ∷ t) ps x qs e h =
    let (bs, ts, q, s, k) = up_to t ps x qs e h in
    ([] ∷ bs, ts, ap (◌∷◌ []) q, s, (empty-IsClean, k))
up_to ((c ∷ l) ∷ t) [] x qs e h =
    ([], t, ap (λ y. y ∷ t) (same_head (c ∷ l) x (shown t) qs e).0, refl, tt)
up_to ((c ∷ l) ∷ t) (p ∷ ps) x qs e (h, hs) =
    let (first, rest) = same_head (c ∷ l) p (shown t) (ps ++ x ∷ qs) e in
    let (bs, ts, q, s, k) = up_to t ps x qs rest hs in
    (
      (c ∷ l) ∷ bs,
      ts,
      ap (◌∷◌ (c ∷ l)) q,
      ap (◌∷◌ (c ∷ l)) s ∙ ap (λ y. y ∷ ps) first,
      (subst IsClean (sym first) h, k),
    )

-- A block whose first line is empty is found like another.
pub front_match-lines :
    (b : Str) (bs : List Str) (rest : Str)
    → AreClean (b ∷ bs)
    → non_empty (shown (b ∷ bs)) ≡ true
    → front_match (framed (join (newline ∷ []) (b ∷ bs)) ++ rest)
      ≡ some (join (newline ∷ []) (b ∷ bs), rest)
unfolding front_match opened starts_with join
front_match-lines [] [] rest h n = absurd (true_not_false n refl)
front_match-lines [] (m ∷ bs) rest (h, hs) n =
    ap front_match (framed_rest (newline ∷ join (newline ∷ []) (m ∷ bs)) rest)
    ∙ ap (before newline) (closing-join m bs rest hs)
front_match-lines (c ∷ k) bs rest ((l, r), hs) n =
    front_match-join c k bs rest
      (not-eq-true (is_terminator c) (and-eq-true (not (is_terminator c)) (is_line k) l).0)
      ((l, r), hs)
