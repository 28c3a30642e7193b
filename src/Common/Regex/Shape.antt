-- ===== src/Common/Regex/Shape.antt =====
-- What the texts of an expression are made of.
use Prim.Native.Nat.{ℕ, zero, suc, ◌≤◌}
use mathlib.Core.Path.{◌≡◌, refl}
use mathlib.Core.Logic.{inl, inr}
use mathlib.Core.Bool.{Bool, true}
use mathlib.Core.List.{[], ◌∷◌, ◌++◌}
use native.Mathlib.Omega.{arith}
use sagasmith.Common.Tests.{and-eq-true}
use sagasmith.Common.Lists.{all, length}
use sagasmith.Common.Text.{Str}
use sagasmith.Common.Regex.{
  Regex, none, eps, chr, seq, alt, star, Matches, empty, one, both, left, right, done, more, up_to,
}
use sagasmith.Common.Regex.Laws.{both_parts, one_char, empty_nil, alt_parts}

-- Each character class of the expression lies within the class.
abbrev pub Within : (ℕ → Bool) → Regex → Type 0
Within p none = Unit
Within p eps = Unit
Within p (chr q) = (c : ℕ) → q c ≡ true → p c ≡ true
Within p (seq r q) = Within p r × Within p q
Within p (alt r q) = Within p r × Within p q
Within p (star r) = Within p r

pub all-append :
    (p : ℕ → Bool) (s t : Str) → all p s ≡ true → all p t ≡ true → all p (s ++ t) ≡ true
all-append p [] t h k = k
all-append p (c ∷ s) t h k = ground (arith, all-append p s t)

-- Then so do the characters of the texts that it matches.
pub Within-all : (p : ℕ → Bool) {r : Regex} {u : Str} → Matches r u → Within p r → all p u ≡ true
Within-all p (empty e) w = rw e refl
Within-all p (one c h e) w = rw (e, w c h) refl
Within-all p (both s t e m n) (v, w) = rw e (all-append p s t (Within-all p m v) (Within-all p n w))
Within-all p (left m) (v, w) = Within-all p m v
Within-all p (right m) (v, w) = Within-all p m w
Within-all p (done e) w = rw e refl
Within-all p (more s t e m n) w = rw e (all-append p s t (Within-all p m w) (Within-all p n w))

-- (?:[…]){0,n}
pub up_to_parts :
    (n : ℕ) (p : ℕ → Bool) (u : Str)
    → Matches (up_to n (chr p)) u
    → (all p u ≡ true) × (length u ≤ n)
up_to_parts zero p u m = rw (empty_nil m) (refl, omega arith)
up_to_parts (suc n) p u m = elim (alt_parts m) [
  | inl x ↦
      let (s, t, e, a, b) = both_parts x in
      let (c, h, f) = one_char a in
      let (g, l) = up_to_parts n p t b in rw (e, f) (ground arith, omega (arith, l))
  | inr y ↦ rw (empty_nil y) (refl, omega arith)
]

pub up_to_match :
    (n : ℕ) (p : ℕ → Bool) (u : Str) → all p u ≡ true → length u ≤ n → Matches (up_to n (chr p)) u
up_to_match zero p [] h l = empty refl
up_to_match zero p (c ∷ u) h l = absurd (omega (arith, l))
up_to_match (suc n) p [] h l = right (empty refl)
up_to_match (suc n) p (c ∷ u) h l =
    let (a, b) = and-eq-true (p c) (all p u) h in
    left (both (c ∷ []) u refl (one c a refl) (up_to_match n p u b (omega (arith, l))))

pub up_to-Within : (n : ℕ) (p : ℕ → Bool) (r : Regex) → Within p r → Within p (up_to n r)
up_to-Within zero p r w = tt
up_to-Within (suc n) p r w = ((w, up_to-Within n p r w), tt)
