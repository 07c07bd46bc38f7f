-- ===== src/Text/Decimal.antt =====
-- `i64::to_string` and `str::parse::<i64>`, over bytes, and their round trip.
use combee.Prelude.{
  ℕ, zero, suc, ◌+◌, ◌-◌, ◌*◌, ◌/◌, ◌%◌, ◌^◌, ◌<◌, ◌≡◌, refl, ◌∙◌, List, [], ◌∷◌, true, ◌&&◌,
  Option, none, some, inl, inr, arith, ltb, leb, ◌==◌, if◌then◌else◌, Bool-cases,
}
use combee.Prelude.Int.{ℤ, pos, negsuc, ◌≤ℤ◌, i64_min, i64_max, in_i64}
use combee.Text.Utf8.{AllAscii, is_utf8, is_utf8_of_ascii}

-- The digits of a number in front of a text; twenty rounds are enough for any 64-bit number.
digits_onto : ℕ → ℕ → List ℕ → List ℕ
digits_onto zero n rest = rest
digits_onto (suc f) n rest =
    let more = digits_onto f (n / 10) ((48 + n % 10) ∷ rest) in
    if ltb n 10 then (48 + n) ∷ rest else more

digits : ℕ → List ℕ
unfolding digits_onto
digits n = digits_onto 20 n []

pub to_string : ℤ → List ℕ
to_string (pos n) = digits n
to_string (negsuc n) = b'-' ∷ digits (n + 1)

-- `none` at a byte that is no digit.
digits_from : ℕ → List ℕ → Option ℕ
digits_from acc [] = some acc
digits_from acc (b ∷ bs) =
    let rest = digits_from (acc * 10 + (b - 48)) bs in if leb 48 b && leb b 57 then rest else none

magnitude : List ℕ → Option ℕ
unfolding digits_from
magnitude [] = none
magnitude (b ∷ bs) = digits_from 0 (b ∷ bs)

abbrev negated : ℕ → ℤ
negated zero = pos 0
negated (suc n) = negsuc n

abbrev ranged : ℤ → Option ℤ
ranged a = if in_i64 a then some a else none

abbrev signed : (ℕ → ℤ) → Option ℕ → Option ℤ
signed f none = none
signed f (some n) = ranged (f n)

-- An optional sign, at least one digit, and a value in range.
pub parse_i64 : List ℕ → Option ℤ
unfolding magnitude
parse_i64 [] = none
parse_i64 (b ∷ bs) =
    if b == b'-'
    then signed negated (magnitude bs)
    else if b == b'+'
    then signed pos (magnitude bs)
    else signed pos (magnitude (b ∷ bs))

pow10 : ℕ → ℕ
pow10 zero = 1
pow10 (suc f) = 10 * pow10 f

digits_from-onto :
    (f n : ℕ) (rest : List ℕ)
    → n < pow10 (suc f)
    → digits_from 0 (digits_onto (suc f) n rest) ≡ digits_from n rest
unfolding digits_from digits_onto pow10
digits_from-onto zero n rest h = ground arith
digits_from-onto (suc f) n rest h = elim (Bool-cases (ltb n 10)) [
  | inl small ↦ ground arith
  | inr large ↦
      rw large (ground (arith, digits_from-onto f (n / 10) ((48 + n % 10) ∷ rest) (omega arith)))
]

-- What is printed begins with a digit.
digits_head :
    (f n : ℕ) (rest : List ℕ)
    → (b : ℕ) × (bs : List ℕ) × (digits_onto (suc f) n rest ≡ b ∷ bs) × (47 < b)
unfolding digits_onto
digits_head zero n rest = elim (Bool-cases (ltb n 10)) [
  | inl small ↦ (48 + n, rest, rw small, omega arith)
  | inr large ↦ (48 + n % 10, rest, rw large, omega arith)
]
digits_head (suc f) n rest = elim (Bool-cases (ltb n 10)) [
  | inl small ↦ (48 + n, rest, rw small, omega arith)
  | inr large ↦
      let (b, bs, e, h) = digits_head f (n / 10) ((48 + n % 10) ∷ rest) in (b, bs, rw large e, h)
]

digits_onto-AllAscii : (f n : ℕ) (rest : List ℕ) → AllAscii rest → AllAscii (digits_onto f n rest)
unfolding digits_onto
digits_onto-AllAscii zero n rest h = h
digits_onto-AllAscii (suc f) n rest h = elim (Bool-cases (ltb n 10)) [
  | inl small ↦ rw small (ground arith, h)
  | inr large ↦ rw large (digits_onto-AllAscii f (n / 10) ((48 + n % 10) ∷ rest) (omega arith, h))
]

digits-AllAscii : (n : ℕ) → AllAscii (digits n)
unfolding digits
digits-AllAscii n = digits_onto-AllAscii 20 n [] tt

-- A printed number is UTF-8.
pub is_utf8-to_string : (a : ℤ) → is_utf8 (to_string a) ≡ true
unfolding to_string
is_utf8-to_string (pos n) = is_utf8_of_ascii _ (digits-AllAscii n)
is_utf8-to_string (negsuc n) = is_utf8_of_ascii _ (omega arith, digits-AllAscii (n + 1))

StartsWithDigit : List ℕ → Type 0
StartsWithDigit [] = ⊥
StartsWithDigit (b ∷ bs) = 47 < b

digits-StartsWithDigit : (n : ℕ) → StartsWithDigit (digits n)
unfolding digits StartsWithDigit
digits-StartsWithDigit n = let (b, bs, e, h) = digits_head 19 n [] in rw e h

magnitude_of_digit : (xs : List ℕ) → StartsWithDigit xs → magnitude xs ≡ digits_from 0 xs
unfolding magnitude StartsWithDigit
magnitude_of_digit [] h = absurd h
magnitude_of_digit (b ∷ bs) h = refl

parse_i64_of_digit : (xs : List ℕ) → StartsWithDigit xs → parse_i64 xs ≡ signed pos (magnitude xs)
unfolding parse_i64 StartsWithDigit
parse_i64_of_digit [] h = absurd h
parse_i64_of_digit (b ∷ bs) h = ground arith

magnitude-digits : (n : ℕ) → n < 2 ^ 64 → magnitude (digits n) ≡ some n
magnitude-digits n h =
    magnitude_of_digit _ (digits-StartsWithDigit n)
    ∙ unfold digits digits_from pow10 in digits_from-onto 19 n [] (omega arith)

-- Parsing what was printed gives the number back, for every `i64`.
pub parse_i64-to_string : (a : ℤ) → i64_min ≤ℤ a → a ≤ℤ i64_max → parse_i64 (to_string a) ≡ some a
unfolding to_string
parse_i64-to_string (pos n) lo hi =
    rw (parse_i64_of_digit _ (digits-StartsWithDigit n), magnitude-digits n (omega arith))
      (ground arith)
parse_i64-to_string (negsuc n) lo hi =
    unfold parse_i64 in rw (magnitude-digits (n + 1) (omega arith)) (ground arith)
