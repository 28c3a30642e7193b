-- ===== src/Learnings/Ids.antt =====
-- The ids of learnings.cjs: how they are made, and the pattern that guards the file path.
pub mod Different
use sagasmith.Common.{
  is_digit, ℕ, zero, suc, ◌+◌, ◌*◌, ◌/◌, ◌%◌, ◌-◌, ◌<◌, ◌≡◌, ◌≢◌, refl, Bool, true, false, ◌&&◌,
  ◌||◌, Option, none, some, List, [], ◌∷◌, ◌++◌, arith, ltb, leb, ◌==◌, Str, if◌then◌else◌, all,
  Bool-cases, inl, inr,
}
use sagasmith.Common.Regex.{Regex, seq, chr, char, plus, star, full, Matches, one, both, done, more}
use sagasmith.Common.Regex.Shape.{all-append}
use sagasmith.Common.Regex.Laws.{full_iff}

-- What a write reads of the clock and of the random source: four bytes in the code.
pub record Stamp : Type 0 where
  pub now : ℕ
  pub iso_date : Str
  pub random : List ℕ

-- A digit below 36.
unfoldable pub digit : ℕ → ℕ
digit d = if ltb d 10 then b'0' + d else b'a' + (d - 10)

-- n.toString(36), on fuel.
unfoldable pub to_base36 : ℕ → ℕ → Str
unfolding digit
to_base36 zero n = []
to_base36 (suc f) n =
    let rest = to_base36 f (n / 36) in
    if ltb n 36 then digit n ∷ [] else rest ++ digit (n % 36) ∷ []

-- bytes.toString('hex')
unfoldable pub to_hex : List ℕ → Str
unfolding digit
to_hex [] = []
to_hex (b ∷ bs) = digit (b / 16 % 16) ∷ digit (b % 16) ∷ to_hex bs

unfoldable pub generate_id : Stamp → Str
unfolding to_base36 to_hex
generate_id s = to_base36 (suc s.now) s.now ++ b'-' ∷ to_hex s.random

abbrev pub is_id_char : ℕ → Bool
is_id_char c = (leb b'a' c && leb c b'z') || is_digit c

abbrev pub is_hex_char : ℕ → Bool
is_hex_char c = (leb b'a' c && leb c b'f') || is_digit c

-- /^[a-z0-9]+-[a-f0-9]+$/
unfoldable pub id_pattern : Regex
id_pattern = seq (plus (chr is_id_char)) (seq (char b'-') (plus (chr is_hex_char)))

-- /^(\d+)d$/ and parseInt: the digits read so far, and whether there is one.
unfoldable pub days_loop : ℕ → Bool → Str → Option ℕ
days_loop n seen [] = none
days_loop n seen (c ∷ s) = elim s [
  | [] ↦ if seen && (c == b'd') then some n else none
  | d ∷ t ↦ let rest = days_loop (n * 10 + (c - b'0')) true s in if is_digit c then rest else none
]

unfoldable pub days_of : Str → Option ℕ
unfolding days_loop
days_of s = days_loop 0 false s

chars_match : (p : ℕ → Bool) (s : Str) → all p s ≡ true → Matches (star (chr p)) s
chars_match p [] h = done refl
chars_match p (c ∷ s) h =
    more (c ∷ []) s refl (one c (ground arith) refl) (chars_match p s (ground arith))

plus_match : (p : ℕ → Bool) (s : Str) → s ≢ [] → all p s ≡ true → Matches (plus (chr p)) s
plus_match p [] n h = absurd (n refl)
plus_match p (c ∷ s) n h =
    both (c ∷ []) s refl (one c (ground arith) refl) (chars_match p s (ground arith))

digit_id : (d : ℕ) → d < 36 → is_id_char (digit d) ≡ true
unfolding digit
digit_id d h = ground arith

digit_hex : (d : ℕ) → d < 16 → is_hex_char (digit d) ≡ true
unfolding digit
digit_hex d h = ground arith

base36_id : (f n : ℕ) → all is_id_char (to_base36 f n) ≡ true
unfolding to_base36
base36_id zero n = refl
base36_id (suc f) n = elim (Bool-cases (ltb n 36)) [
  | inl small ↦ rw small (ground (arith, digit_id n))
  | inr large ↦ rw large (
      all-append is_id_char (to_base36 f (n / 36)) (digit (n % 36) ∷ []) (base36_id f (n / 36))
        (ground (arith, digit_id (n % 36))))
]

hex_id : (bs : List ℕ) → all is_hex_char (to_hex bs) ≡ true
unfolding to_hex
hex_id [] = refl
hex_id (b ∷ bs) =
    rw (digit_hex (b / 16 % 16) (omega arith), digit_hex (b % 16) (omega arith)) (hex_id bs)

cons_not_nil : {c : ℕ} {s : Str} → c ∷ s ≡ [] → ⊥
cons_not_nil h = ground arith

append_ne : (s : Str) (c : ℕ) → s ++ c ∷ [] ≢ []
append_ne [] c h = absurd (ground arith)
append_ne (d ∷ s) c h = absurd (ground arith)

base36_ne : (f n : ℕ) → to_base36 (suc f) n ≢ []
unfolding to_base36
base36_ne f n h = elim (Bool-cases (ltb n 36)) [
  | inl small ↦ absurd (cons_not_nil (rw small at h))
  | inr large ↦ append_ne (to_base36 f (n / 36)) (digit (n % 36)) (rw large at h)
]

to_hex_ne : (bs : List ℕ) → bs ≢ [] → to_hex bs ≢ []
unfolding to_hex
to_hex_ne [] h e = h refl
to_hex_ne (b ∷ bs) h e = cons_not_nil e

-- Every id that is generated from at least one random byte passes the pattern, so it can be read
-- and deleted.
pub full-generate_id : (s : Stamp) → s.random ≢ [] → full id_pattern (generate_id s) ≡ true
unfolding generate_id id_pattern
full-generate_id s h = (full_iff id_pattern (generate_id s)).1 (
    both (to_base36 (suc s.now) s.now) (b'-' ∷ to_hex s.random) refl
      (plus_match is_id_char (to_base36 (suc s.now) s.now) (base36_ne s.now s.now)
        (base36_id (suc s.now) s.now))
      (both (b'-' ∷ []) (to_hex s.random) refl (one b'-' refl refl)
        (plus_match is_hex_char (to_hex s.random) (to_hex_ne s.random h) (hex_id s.random))))
