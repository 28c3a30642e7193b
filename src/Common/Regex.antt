-- ===== src/Common/Regex.antt =====
-- Regular expressions as the source writes them: a syntax, the relation that says which texts an
-- expression matches, and `RegExp.prototype.test` by derivatives. Without look-around and back
-- references, `test` is membership, whatever the order of the engine's search.
pub mod Laws
pub mod Shape
use Prim.Native.String.{String}
use sagasmith.Common.Tests.{ltb, leb, ◌==◌, if◌then◌else◌}
use sagasmith.Common.Text.{Str, str}
use Prim.Native.Nat.{ℕ, zero, suc, ◌-◌}
use mathlib.Core.Path.{◌≡◌}
use mathlib.Core.Bool.{Bool, true, false, ◌&&◌, ◌||◌, not}
use mathlib.Core.List.{List, [], ◌∷◌, ◌++◌}

pub data Regex : Type 0 where
  none eps : Regex
  chr : (ℕ → Bool) → Regex
  seq alt : Regex → Regex → Regex
  star : Regex → Regex

-- The texts that an expression matches.
pub data Matches : Regex → Str → Type 0 where
  empty : {u : Str} → u ≡ [] → Matches eps u
  one : {p : ℕ → Bool} {u : Str} (c : ℕ) → p c ≡ true → u ≡ c ∷ [] → Matches (chr p) u
  both :
      {r q : Regex} {u : Str} (s t : Str)
      → u ≡ s ++ t
      → Matches r s
      → Matches q t
      → Matches (seq r q) u
  left : {r q : Regex} {u : Str} → Matches r u → Matches (alt r q) u
  right : {r q : Regex} {u : Str} → Matches q u → Matches (alt r q) u
  done : {r : Regex} {u : Str} → u ≡ [] → Matches (star r) u
  more :
      {r : Regex} {u : Str} (s t : Str)
      → u ≡ s ++ t
      → Matches r s
      → Matches (star r) t
      → Matches (star r) u

unfoldable pub nullable : Regex → Bool
nullable none = false
nullable eps = true
nullable (chr p) = false
nullable (seq r q) = nullable r && nullable q
nullable (alt r q) = nullable r || nullable q
nullable (star r) = true

unfoldable pub deriv : Regex → ℕ → Regex
unfolding nullable
deriv none c = none
deriv eps c = none
deriv (chr p) c = if p c then eps else none
deriv (seq r q) c =
    let here = seq (deriv r c) q in if nullable r then alt here (deriv q c) else here
deriv (alt r q) c = alt (deriv r c) (deriv q c)
deriv (star r) c = seq (deriv r c) (star r)

-- /^r$/.test(s)
unfoldable pub full : Regex → Str → Bool
unfolding deriv
full r [] = nullable r
full r (c ∷ s) = full (deriv r c) s

-- [^]
abbrev pub any_char : ℕ → Bool
any_char c = true

-- /r/.test(s)
unfoldable pub test : Regex → Str → Bool
unfolding full
test r s = full (seq (star (chr any_char)) (seq r (star (chr any_char)))) s

abbrev pub plus : Regex → Regex
plus r = seq r (star r)

abbrev pub char : ℕ → Regex
char c = chr (λ d. d == c)

abbrev pub lit : Str → Regex
lit [] = eps
lit (c ∷ s) = seq (char c) (lit s)

-- A letter of a pattern under the flag i: for ASCII letters the canonical form is the upper case,
-- and no character outside ASCII folds to one of them.
abbrev pub same_letter : ℕ → ℕ → Bool
same_letter c d =
    (d == c)
    || ((leb b'a' c && leb c b'z' && (d == c - 32)) || (leb b'A' c && leb c b'Z' && (c == d - 32)))

abbrev pub lit_i : Str → Regex
lit_i [] = eps
lit_i (c ∷ s) = seq (chr (same_letter c)) (lit_i s)

-- `.`: any character but a line terminator.
abbrev pub dot : Regex
dot = chr (λ c. not ((c == 10) || ((c == 13) || ((c == 0x2028) || (c == 0x2029)))))

-- `\s`
abbrev pub is_space : ℕ → Bool
is_space c =
    (leb 9 c && leb c 13)
    || ((c == 32)
        || ((c == 160)
            || ((c == 0x1680)
                || ((leb 0x2000 c && leb c 0x200a)
                    || ((c == 0x2028)
                        || ((c == 0x2029)
                            || ((c == 0x202f)
                                || ((c == 0x205f) || ((c == 0x3000) || (c == 0xfeff))))))))))

abbrev pub spaces : Regex
spaces = plus (chr is_space)

-- r?
abbrev pub opt : Regex → Regex
opt r = alt r eps

abbrev pub seqs : List Regex → Regex
seqs [] = eps
seqs (r ∷ rs) = seq r (seqs rs)

-- (?:r|q|…)
abbrev pub alts : List Regex → Regex
alts [] = none
alts (r ∷ rs) = alt r (alts rs)

-- (?:a|b|…) of words under the flag i.
abbrev pub words_i : List Str → Regex
words_i [] = none
words_i (w ∷ ws) = alt (lit_i w) (words_i ws)

-- [^]*
abbrev pub anything : Regex
anything = star (chr any_char)

-- The texts that hold a match: `test r` is `full (holds r)`.
abbrev pub holds : Regex → Regex
holds r = seq anything (seq r anything)

-- r{0,n}
abbrev pub up_to : ℕ → Regex → Regex
up_to zero r = eps
up_to (suc n) r = opt (seq r (up_to n r))
