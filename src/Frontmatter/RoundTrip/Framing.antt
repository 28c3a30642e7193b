-- ===== src/Frontmatter/RoundTrip/Framing.antt =====
-- The block between its two lines of dashes.
use mathlib.Core.List.{append-nil, append_assoc}
use sagasmith.Common.{
  ℕ, ◌==◌, true, false, not, Option, some, List, [], ◌∷◌, ◌++◌, Str, str, starts_with, join, ◌≡◌,
  refl, ap, sym, ◌∙◌, arith, and-eq-true, not-eq-true,
}
use sagasmith.Frontmatter.Lines.{lines, is_terminator, closing, before, within, opened, front_match}
use sagasmith.Frontmatter.Printer.{framed}
use sagasmith.Frontmatter.Shape.{is_line}
use sagasmith.Frontmatter.RoundTrip.Clean.{IsClean, AreClean}

abbrev pub first : Str × List Str → List Str
first (h, t) = h ∷ t

abbrev pub newline : ℕ
newline = b'\n'

terminator_plain :
    (c : ℕ) → is_terminator c ≡ false → ((c == b'\n') ≡ false) × ((c == b'\r') ≡ false)
terminator_plain c h = (ground arith, ground arith)

lines_last : (l : Str) → is_line l ≡ true → lines l ≡ (l, [])
unfolding lines
lines_last [] h = refl
lines_last (c ∷ l) h =
    let (e, r) = and-eq-true (not (is_terminator c)) (is_line l) h in
    let (n, m) = terminator_plain c (not-eq-true (is_terminator c) e) in
    rw (lines_last l r, n, m) refl

lines-append : (l s : Str) → is_line l ≡ true → lines (l ++ newline ∷ s) ≡ (l, first (lines s))
unfolding lines
lines-append [] s h = refl
lines-append (c ∷ l) s h =
    let (e, r) = and-eq-true (not (is_terminator c)) (is_line l) h in
    let (n, m) = terminator_plain c (not-eq-true (is_terminator c) e) in
    rw (lines-append l s r, n, m) refl

pub lines-join :
    (l : Str) (ls : List Str)
    → AreClean (l ∷ ls)
    → first (lines (join (newline ∷ []) (l ∷ ls))) ≡ l ∷ ls
unfolding join
lines-join l [] ((h, k), hs) = ap first (lines_last l h)
lines-join l (m ∷ ls) ((h, k), hs) =
    ap first (lines-append l (join (newline ∷ []) (m ∷ ls)) h) ∙ ap (◌∷◌ l) (lines-join m ls hs)

prepend : Str → Option (Str × Str) → Option (Str × Str)
prepend [] o = o
prepend (c ∷ l) o = before c (prepend l o)

closing-append : (l s : Str) → is_line l ≡ true → closing (l ++ s) ≡ prepend l (closing s)
unfolding closing prepend starts_with
closing-append [] s h = refl
closing-append (c ∷ l) s h =
    let (e, r) = and-eq-true (not (is_terminator c)) (is_line l) h in
    let (n, m) = terminator_plain c (not-eq-true (is_terminator c) e) in
    rw (n, m, closing-append l s r) refl

closing_end : (rest : Str) → closing (newline ∷ (str "---" ++ rest)) ≡ some ([], rest)
unfolding closing starts_with
closing_end rest = refl

closing-newline :
    (s : Str)
    → starts_with s (str "---") ≡ false
    → closing (newline ∷ s) ≡ before newline (closing s)
unfolding closing starts_with
closing-newline s h = rw h refl

no_rule_before_newline :
    (k rest : Str)
    → starts_with k (str "---") ≡ false
    → starts_with (k ++ newline ∷ rest) (str "---") ≡ false
unfolding starts_with
no_rule_before_newline [] rest h = refl
no_rule_before_newline (a ∷ []) rest h = ground arith
no_rule_before_newline (a ∷ b ∷ []) rest h = ground arith
no_rule_before_newline (a ∷ b ∷ c ∷ k) rest h = h

abbrev pub closed : Str → Str
closed rest = newline ∷ (str "---" ++ rest)

no_rule-join :
    (l : Str) (ls : List Str) (rest : Str)
    → IsClean l
    → starts_with (join (newline ∷ []) (l ∷ ls) ++ closed rest) (str "---") ≡ false
unfolding join
no_rule-join l [] rest (h, k) = no_rule_before_newline l (str "---" ++ rest) k
no_rule-join l (m ∷ ls) rest (h, k) =
    ap (λ s. starts_with s (str "---"))
      (append_assoc l (newline ∷ join (newline ∷ []) (m ∷ ls)) (closed rest))
    ∙ no_rule_before_newline l (join (newline ∷ []) (m ∷ ls) ++ closed rest) k

prepend-some : (l y rest : Str) → prepend l (some (y, rest)) ≡ some (l ++ y, rest)
unfolding prepend
prepend-some [] y rest = refl
prepend-some (c ∷ l) y rest = ap (before c) (prepend-some l y rest)

pub closing-join :
    (l : Str) (ls : List Str) (rest : Str)
    → AreClean (l ∷ ls)
    → closing (join (newline ∷ []) (l ∷ ls) ++ closed rest)
      ≡ some (join (newline ∷ []) (l ∷ ls), rest)
unfolding join
closing-join l [] rest ((h, k), hs) =
    closing-append l (closed rest) h
    ∙ ap (prepend l) (closing_end rest)
    ∙ prepend-some l [] rest
    ∙ ap (λ y. some (y, rest)) (append-nil l)
closing-join l (m ∷ ls) rest ((h, k), (n, hs)) =
    let below = join (newline ∷ []) (m ∷ ls) in
    ap closing (append_assoc l (newline ∷ below) (closed rest))
    ∙ closing-append l (newline ∷ (below ++ closed rest)) h
    ∙ ap (prepend l) (closing-newline (below ++ closed rest) (no_rule-join m ls rest n))
    ∙ ap (λ o. prepend l (before newline o)) (closing-join m ls rest (n, hs))
    ∙ prepend-some l (newline ∷ below) rest

-- The block starts with a character that ends no line.
starts_within :
    (c : ℕ) (s : Str) → is_terminator c ≡ false → within (some (c ∷ s)) ≡ closing (c ∷ s)
unfolding closing starts_with
starts_within c s h = let (n, m) = terminator_plain c h in rw (n, m) refl

opened-framed : (c : ℕ) (s : Str) → opened (str "---" ++ newline ∷ c ∷ s) ≡ some (c ∷ s)
unfolding opened starts_with
opened-framed c s = refl

pub framed_rest :
    (yaml rest : Str) → framed yaml ++ rest ≡ str "---" ++ newline ∷ (yaml ++ closed rest)
framed_rest yaml rest =
    ap (λ s. str "---" ++ newline ∷ s) (append_assoc yaml (newline ∷ str "---") rest)

pub join_head :
    (c : ℕ) (k : Str) (ls : List Str) → (t : Str) × (join (newline ∷ []) ((c ∷ k) ∷ ls) ≡ c ∷ t)
unfolding join
join_head c k [] = (k, refl)
join_head c k (m ∷ ls) = (k ++ newline ∷ join (newline ∷ []) (m ∷ ls), refl)

pub front_match-join :
    (c : ℕ) (k : Str) (ls : List Str) (rest : Str)
    → is_terminator c ≡ false
    → AreClean ((c ∷ k) ∷ ls)
    → front_match (framed (join (newline ∷ []) ((c ∷ k) ∷ ls)) ++ rest)
      ≡ some (join (newline ∷ []) ((c ∷ k) ∷ ls), rest)
unfolding front_match
front_match-join c k ls rest e h =
    let yaml = join (newline ∷ []) ((c ∷ k) ∷ ls) in
    let (t, shape) = join_head c k ls in
    ap front_match (framed_rest yaml rest)
    ∙ ap (λ y. within (opened (str "---" ++ newline ∷ (y ++ closed rest)))) shape
    ∙ ap within (opened-framed c (t ++ closed rest))
    ∙ starts_within c (t ++ closed rest) e
    ∙ ap (λ y. closing (y ++ closed rest)) (sym shape)
    ∙ closing-join (c ∷ k) ls rest h
