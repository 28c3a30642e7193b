-- ===== src/Learnings/Ids/Different.antt =====
-- Different stamps give different ids: the digits can be read back.
use sagasmith.Common.{
  ℕ, zero, suc, ◌+◌, ◌*◌, ◌/◌, ◌%◌, ◌-◌, ◌<◌, ◌≡◌, refl, ap, sym, ◌∙◌, Bool, true, List, [], ◌∷◌,
  ◌++◌, arith, ltb, leb, Str, if◌then◌else◌, all, Bool-cases, inl, inr, and-eq-true,
}
use sagasmith.Learnings.Ids.{Stamp, digit, to_base36, to_hex, generate_id, is_id_char, base36_id}

-- The value of a digit, and of a numeral in base 36 behind digits that are read.
abbrev digit_value : ℕ → ℕ
digit_value c = if leb b'a' c then c - b'a' + 10 else c - b'0'

abbrev numeral_value : ℕ → Str → ℕ
numeral_value n [] = n
numeral_value n (c ∷ s) = numeral_value (n * 36 + digit_value c) s

digit_value-digit : (d : ℕ) → d < 36 → digit_value (digit d) ≡ d
unfolding digit
digit_value-digit d h = ground arith

numeral_value-append :
    (n : ℕ) (s : Str) (c : ℕ)
    → numeral_value n (s ++ c ∷ []) ≡ numeral_value n s * 36 + digit_value c
numeral_value-append n [] c = refl
numeral_value-append n (d ∷ s) c = numeral_value-append (n * 36 + digit_value d) s c

-- The numeral stands for the number where the fuel is more than the number.
numeral_value-to_base36 : (f n : ℕ) → n < f → numeral_value 0 (to_base36 f n) ≡ n
unfolding to_base36
numeral_value-to_base36 zero n h = absurd (omega (arith, h))
numeral_value-to_base36 (suc f) n h = elim (Bool-cases (ltb n 36)) [
  | inl small ↦ let e = digit_value-digit n (ground arith) in rw small (omega (arith, e))
  | inr large ↦
      let ih = numeral_value-to_base36 f (n / 36) (ground arith) in
      rw
        (
          large,
          numeral_value-append 0 (to_base36 f (n / 36)) (digit (n % 36)),
          ih,
          digit_value-digit (n % 36) (omega arith),
        )
        (omega arith)
]

to_base36-injective : (m n : ℕ) → to_base36 (suc m) m ≡ to_base36 (suc n) n → m ≡ n
to_base36-injective m n h =
    sym (numeral_value-to_base36 (suc m) m (omega arith))
    ∙ (ap (numeral_value 0) h ∙ numeral_value-to_base36 (suc n) n (omega arith))

digit-injective : (d e : ℕ) → d < 36 → e < 36 → digit d ≡ digit e → d ≡ e
unfolding digit
digit-injective d e h k q = ground arith

abbrev pub is_byte : ℕ → Bool
is_byte b = ltb b 256

same_byte :
    (b c : ℕ)
    → is_byte b ≡ true
    → is_byte c ≡ true
    → b / 16 % 16 ≡ c / 16 % 16
    → b % 16 ≡ c % 16
    → b ≡ c
same_byte b c h k high low =
    let l : b < 256 = ground arith in
    let l' : c < 256 = ground arith in omega (arith, l, l', high, low)

to_hex-injective :
    (bs cs : List ℕ)
    → all is_byte bs ≡ true
    → all is_byte cs ≡ true
    → to_hex bs ≡ to_hex cs
    → bs ≡ cs
unfolding to_hex
to_hex-injective [] [] h k q = refl
to_hex-injective [] (c ∷ cs) h k q = absurd (ground arith)
to_hex-injective (b ∷ bs) [] h k q = absurd (ground arith)
to_hex-injective (b ∷ bs) (c ∷ cs) h k q =
    let (hb, hs) = and-eq-true (is_byte b) (all is_byte bs) h in
    let (kc, ks) = and-eq-true (is_byte c) (all is_byte cs) k in
    let high =
      digit-injective (b / 16 % 16) (c / 16 % 16) (omega arith) (omega arith) (ground arith) in
    let low = digit-injective (b % 16) (c % 16) (omega arith) (omega arith) (ground arith) in
    let ih = to_hex-injective bs cs hs ks (ground arith) in
    let same = same_byte b c hb kc high low in ground arith

-- The first dash ends the numeral.
split_dash :
    (s t h k : Str)
    → all is_id_char s ≡ true
    → all is_id_char t ≡ true
    → s ++ b'-' ∷ h ≡ t ++ b'-' ∷ k
    → (s ≡ t) × (h ≡ k)
split_dash [] [] h k p q e = (refl, ground arith)
split_dash [] (d ∷ t) h k p q e = absurd (ground arith)
split_dash (c ∷ s) [] h k p q e = absurd (ground arith)
split_dash (c ∷ s) (d ∷ t) h k p q e =
    let (ps, qs) = split_dash s t h k (ground arith) (ground arith) (ground arith) in
    (ground arith, qs)

-- Two stamps whose random values are bytes and that give the same id agree in their time and in
-- their random bytes.
pub generate_id-injective :
    (s t : Stamp)
    → all is_byte s.random ≡ true
    → all is_byte t.random ≡ true
    → generate_id s ≡ generate_id t
    → (s.now ≡ t.now) × (s.random ≡ t.random)
unfolding generate_id
generate_id-injective s t hs ht e =
    let (n, r) =
      split_dash (to_base36 (suc s.now) s.now) (to_base36 (suc t.now) t.now) (to_hex s.random)
        (to_hex t.random) (base36_id (suc s.now) s.now) (base36_id (suc t.now) t.now) e in
    (to_base36-injective s.now t.now n, to_hex-injective s.random t.random hs ht r)
