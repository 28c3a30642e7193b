-- ===== src/Frontmatter/RoundTrip/Normalised.antt =====
-- Normalising the file keeps what is read of it.
use mathlib.Core.List.{append_assoc}
use mathlib.Core.Path.{subst}
use sagasmith.Common.{
  ℕ, ◌==◌, Bool, true, false, not, none, List, [], ◌∷◌, ◌++◌, Str, str, non_empty, join, split_at,
  ◌≡◌, refl, ap, sym, ◌∙◌, arith, and-eq-true, Bool-cases, inl, inr, ==_iff, true_not_false,
}
use sagasmith.Markdown.{
  newline, unix, whole, lines_of, inside_fence, spaced, collapse, strip_newlines, normalized_lines,
  normalize_md, blanks_before,
}
use sagasmith.Markdown.Content.{shown, cut, cut_other, filter-append, collapse_other, strip_other}
use sagasmith.Markdown.Content.Kept.{is_piece, cut-append, normalize_md-shown}
use sagasmith.Frontmatter.Lines.{is_terminator}
use sagasmith.Frontmatter.Printer.{framed}
use sagasmith.Frontmatter.Shape.{is_line}
use sagasmith.Frontmatter.RoundTrip.Clean.{AreClean}
use sagasmith.Frontmatter.RoundTrip.Framing.{closed, framed_rest, join_head}
use sagasmith.Frontmatter.RoundTrip.Blanks.{same_head, up_to}

unix-append : (l s : Str) → is_line l ≡ true → unix (l ++ newline ∷ s) ≡ l ++ newline ∷ unix s
unfolding unix
unix-append [] s h = refl
unix-append (c ∷ l) s h =
    let (e, r) = and-eq-true (not (is_terminator c)) (is_line l) h in
    let plain : (c == b'\r') ≡ false = ground arith in rw (plain, unix-append l s r) refl

line_piece : (l : Str) → is_line l ≡ true → is_piece l ≡ true
line_piece [] h = refl
line_piece (c ∷ l) h =
    let (e, r) = and-eq-true (not (is_terminator c)) (is_line l) h in
    let plain : (c == newline) ≡ false = ground arith in rw (plain, line_piece l r) refl

cut-line :
    (l s : Str)
    → is_line l ≡ true
    → whole (cut (unix (l ++ newline ∷ s))) ≡ l ∷ whole (cut (unix s))
cut-line l s h =
    ap (λ t. whole (cut t)) (unix-append l s h) ∙ ap whole (cut-append l (unix s) (line_piece l h))

cut-join :
    (l : Str) (ls : List Str) (s : Str)
    → AreClean (l ∷ ls)
    → whole (cut (unix (join (newline ∷ []) (l ∷ ls) ++ newline ∷ s)))
      ≡ (l ∷ ls) ++ whole (cut (unix s))
unfolding join
cut-join l [] s ((h, k), hs) = cut-line l s h
cut-join l (m ∷ ls) s ((h, k), hs) =
    let below = join (newline ∷ []) (m ∷ ls) in
    ap (λ t. whole (cut (unix t))) (append_assoc l (newline ∷ below) (newline ∷ s))
    ∙ cut-line l (below ++ newline ∷ s) h
    ∙ ap (◌∷◌ l) (cut-join m ls s hs)

cut-rule :
    (s : Str)
    → whole (cut (unix (str "---" ++ s))) ≡ (str "---" ++ (cut (unix s)).0) ∷ (cut (unix s)).1
unfolding unix split_at
cut-rule s = refl

lines_of-framed :
    (l : Str) (ls : List Str) (rest : Str)
    → AreClean (l ∷ ls)
    → lines_of (unix (framed (join (newline ∷ []) (l ∷ ls)) ++ rest))
      ≡ str "---" ∷ ((l ∷ ls) ++ (str "---" ++ (cut (unix rest)).0) ∷ (cut (unix rest)).1)
unfolding lines_of
lines_of-framed l ls rest h =
    let yaml = join (newline ∷ []) (l ∷ ls) in
    ap (λ t. whole (cut (unix t))) (framed_rest yaml rest)
    ∙ cut-line (str "---") (yaml ++ closed rest) refl
    ∙ ap (◌∷◌ (str "---")) (cut-join l ls (str "---" ++ rest) h)
    ∙ ap (λ t. str "---" ∷ ((l ∷ ls) ++ t)) (cut-rule rest)

spaced_first :
    (l : Str) (ls : List Str) (flags : List Bool)
    → (ms : List Str) × (spaced none (l ∷ ls) flags ≡ l ∷ ms)
unfolding spaced blanks_before
spaced_first l ls [] = (ls, refl)
spaced_first l ls (i ∷ flags) = (_, refl)

-- The first character of a file whose first line is not empty stays.
first_kept :
    (c : ℕ) (l : Str) (ls : List Str)
    → (c == newline) ≡ false
    → (s : Str) × (normalized_lines ((c ∷ l) ∷ ls) ≡ c ∷ s)
first_kept c l ls h =
    let (ms, e) = spaced_first (c ∷ l) ls (inside_fence false ((c ∷ l) ∷ ls)) in
    let (t, j) = join_head c l ms in
    (
      strip_newlines (collapse 0 t) ++ newline ∷ [],
      ap (λ m. strip_newlines (collapse 0 (join (newline ∷ []) m)) ++ newline ∷ []) e
          ∙ ap (λ m. strip_newlines (collapse 0 m) ++ newline ∷ []) j
          ∙ ap (λ m. strip_newlines m ++ newline ∷ []) (collapse_other 0 c t h)
          ∙ ap (λ m. m ++ newline ∷ []) (strip_other c (collapse 0 t) h),
    )

join-cons :
    (c : ℕ) (l : Str) (ls : List Str)
    → join (newline ∷ []) ((c ∷ l) ∷ ls) ≡ c ∷ join (newline ∷ []) (l ∷ ls)
unfolding join
join-cons c l [] = refl
join-cons c l (m ∷ ls) = refl

join-cut : (s : Str) → join (newline ∷ []) (whole (cut s)) ≡ s
unfolding split_at join
join-cut [] = refl
join-cut (c ∷ s) = elim (Bool-cases (c == newline)) [
  | inl e ↦ rw ((==_iff c newline).0 e) (ap (◌∷◌ newline) (join-cut s))
  | inr d ↦
      ap (λ m. join (newline ∷ []) (whole m)) (cut_other c s d)
      ∙ join-cons c (cut s).0 (cut s).1
      ∙ ap (◌∷◌ c) (join-cut s)
]

join_rule :
    (x : Str) (ts : List Str)
    → (rest : Str) × (join (newline ∷ []) ((str "---" ++ x) ∷ ts) ≡ str "---" ++ rest)
unfolding join
join_rule x [] = (x, refl)
join_rule x (t ∷ ts) = (x ++ newline ∷ join (newline ∷ []) (t ∷ ts), refl)

join-append :
    (b : Str) (bs : List Str) (x : Str) (ts : List Str)
    → join (newline ∷ []) ((b ∷ bs) ++ x ∷ ts)
      ≡ join (newline ∷ []) (b ∷ bs) ++ newline ∷ join (newline ∷ []) (x ∷ ts)
unfolding join
join-append b [] x ts = refl
join-append b (m ∷ bs) x ts =
    ap (λ s. b ++ newline ∷ s) (join-append m bs x ts)
    ∙ sym (
        append_assoc b (newline ∷ join (newline ∷ []) (m ∷ bs))
          (newline ∷ join (newline ∷ []) (x ∷ ts)))

-- Lines between two rules are a block between its two lines of dashes.
join-framed :
    (b : Str) (bs : List Str) (x : Str) (ts : List Str)
    → (rest : Str) × (join (newline ∷ []) (str "---" ∷ ((b ∷ bs) ++ (str "---" ++ x) ∷ ts))
        ≡ framed (join (newline ∷ []) (b ∷ bs)) ++ rest)
unfolding join
join-framed b bs x ts =
    let (rest, e) = join_rule x ts in
    (
      rest,
      ap (λ s. str "---" ++ newline ∷ s)
            (join-append b bs (str "---" ++ x) ts
              ∙ ap (λ s. join (newline ∷ []) (b ∷ bs) ++ newline ∷ s) e)
          ∙ sym (framed_rest (join (newline ∷ []) (b ∷ bs)) rest),
    )

AreClean-shown : (ls : List Str) → AreClean ls → AreClean (shown ls)
AreClean-shown [] h = tt
AreClean-shown ([] ∷ ls) (h, hs) = AreClean-shown ls hs
AreClean-shown ((c ∷ l) ∷ ls) (h, hs) = (h, AreClean-shown ls hs)

-- A text that is a block with these lines, but for empty ones.
abbrev pub HasBlock : List Str → Str → Type 0
HasBlock qs s =
    (b : Str) × (bs : List Str) × (rest : Str) × (shown (b ∷ bs) ≡ qs)
    × AreClean (b ∷ bs)
    × (s ≡ framed (join (newline ∷ []) (b ∷ bs)) ++ rest)

block_of :
    (s : Str) (bs ts qs : List Str) (x : Str)
    → s ≡ join (newline ∷ []) (str "---" ∷ (bs ++ (str "---" ++ x) ∷ ts))
    → shown bs ≡ qs
    → non_empty qs ≡ true
    → AreClean bs
    → HasBlock qs s
block_of s [] ts qs x e h n k = absurd (true_not_false (ap non_empty h ∙ n) refl)
block_of s (b ∷ bs) ts qs x e h n k =
    let (rest, j) = join-framed b bs x ts in (b, bs, rest, h, k, e ∙ j)

lines-HasBlock :
    (s : Str) (qs ts : List Str) (x : Str)
    → shown (lines_of (b'-' ∷ s)) ≡ str "---" ∷ (qs ++ (str "---" ++ x) ∷ ts)
    → AreClean qs
    → non_empty qs ≡ true
    → HasBlock qs (b'-' ∷ s)
unfolding lines_of
lines-HasBlock s qs ts x e h n =
    let first = cut_other b'-' s refl in
    let (head, below) =
      same_head (b'-' ∷ (cut s).0) (str "---") (shown (cut s).1) (qs ++ (str "---" ++ x) ∷ ts)
        (ap (λ m. shown (whole m)) (sym first) ∙ e) in
    let (bs, us, q, same, k) = up_to (cut s).1 qs (str "---" ++ x) ts below h in
    block_of (b'-' ∷ s) bs us qs x
      (sym (join-cut (b'-' ∷ s))
        ∙ ap (λ m. join (newline ∷ []) (whole m)) first
        ∙ ap (λ l. join (newline ∷ []) (l ∷ (cut s).1)) head
        ∙ ap (λ m. join (newline ∷ []) (str "---" ∷ m)) q)
      same n k

dash_kept :
    (p : Str) (ps : List Str) (rest : Str)
    → AreClean (p ∷ ps)
    → (s : Str) × (normalize_md (framed (join (newline ∷ []) (p ∷ ps)) ++ rest) ≡ b'-' ∷ s)
unfolding normalize_md
dash_kept p ps rest h =
    let tail = (str "---" ++ (cut (unix rest)).0) ∷ (cut (unix rest)).1 in
    let (s, e) = first_kept b'-' (str "--") ((p ∷ ps) ++ tail) refl in
    (s, ap normalized_lines (lines_of-framed p ps rest h) ∙ e)

-- Normalising a file that begins with a block leaves a block with the same lines, but for empty
-- ones.
pub normalize_md-HasBlock :
    (p : Str) (ps : List Str) (rest : Str)
    → AreClean (p ∷ ps)
    → non_empty (shown (p ∷ ps)) ≡ true
    → HasBlock (shown (p ∷ ps)) (normalize_md (framed (join (newline ∷ []) (p ∷ ps)) ++ rest))
normalize_md-HasBlock p ps rest h n =
    let file = framed (join (newline ∷ []) (p ∷ ps)) ++ rest in
    let (s, e) = dash_kept p ps rest h in
    let x = (cut (unix rest)).0 in
    let ts = (cut (unix rest)).1 in
    subst (HasBlock (shown (p ∷ ps))) (sym e) (
      lines-HasBlock s (shown (p ∷ ps)) (shown ts) x
        (ap (λ t. shown (lines_of t)) (sym e)
          ∙ normalize_md-shown file
          ∙ ap shown (lines_of-framed p ps rest h)
          ∙ ap (◌∷◌ (str "---")) (filter-append (p ∷ ps) ((str "---" ++ x) ∷ ts)))
        (AreClean-shown (p ∷ ps) h) n)
