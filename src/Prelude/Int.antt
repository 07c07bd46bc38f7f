-- ===== src/Prelude/Int.antt =====
-- Signed integers over the native numbers, and Rust's 64-bit words: `i64` as the integers of its
-- range, `u64` as the numbers below 2 ^ 64.
use combee.Prelude.{
  ℕ, suc, ◌+◌, ◌-◌, ◌%◌, ◌^◌, ◌≤◌, ◌<◌, ◌≡◌, refl, Bool, arith, ltb, leb, if◌then◌else◌,
}
use mathlib.Core.Bool.{◌&&◌}

-- `negsuc n` is -(n + 1).
pub data ℤ : Type 0 where
  pos : ℕ → ℤ
  negsuc : ℕ → ℤ

abbrev pub pos_part : ℤ → ℕ
pos_part (pos n) = n
pos_part (negsuc n) = 0

abbrev pub neg_part : ℤ → ℕ
neg_part (pos n) = 0
neg_part (negsuc n) = suc n

-- a - b, as an integer.
abbrev pub sub_ℕ : ℕ → ℕ → ℤ
sub_ℕ a b = if leb b a then pos (a - b) else negsuc (b - a - 1)

infixl 65 ◌+ℤ◌ ◌-ℤ◌
infix 50 ◌≤ℤ◌ ◌<ℤ◌
unfoldable pub ◌+ℤ◌ : ℤ → ℤ → ℤ
a +ℤ b = sub_ℕ (pos_part a + pos_part b) (neg_part a + neg_part b)

unfoldable pub ◌-ℤ◌ : ℤ → ℤ → ℤ
a -ℤ b = sub_ℕ (pos_part a + neg_part b) (neg_part a + pos_part b)

abbrev pub ◌≤ℤ◌ : ℤ → ℤ → Type 0
a ≤ℤ b = pos_part a + neg_part b ≤ pos_part b + neg_part a

abbrev pub ◌<ℤ◌ : ℤ → ℤ → Type 0
a <ℤ b = pos_part a + neg_part b < pos_part b + neg_part a

abbrev pub leb_ℤ : ℤ → ℤ → Bool
leb_ℤ a b = leb (pos_part a + neg_part b) (pos_part b + neg_part a)

abbrev pub ltb_ℤ : ℤ → ℤ → Bool
ltb_ℤ a b = ltb (pos_part a + neg_part b) (pos_part b + neg_part a)

abbrev pub eq_ℤ : ℤ → ℤ → Bool
eq_ℤ a b = leb_ℤ a b && leb_ℤ b a

abbrev pub max_ℤ : ℤ → ℤ → ℤ
max_ℤ a b = if leb_ℤ a b then b else a

pub +ℤ_parts :
    (a b : ℤ)
    → pos_part (a +ℤ b) + neg_part a + neg_part b ≡ neg_part (a +ℤ b) + pos_part a + pos_part b
unfolding ◌+ℤ◌
+ℤ_parts a b = ground arith

pub -ℤ_parts :
    (a b : ℤ)
    → pos_part (a -ℤ b) + neg_part a + pos_part b ≡ neg_part (a -ℤ b) + pos_part a + neg_part b
unfolding ◌-ℤ◌
-ℤ_parts a b = ground arith

pub eq_of_parts : (a b : ℤ) → pos_part a + neg_part b ≡ pos_part b + neg_part a → a ≡ b
eq_of_parts a b h = ground arith

pub ruleset int_laws = (arith, +ℤ_parts, -ℤ_parts, eq_of_parts)

pub +ℤ_assoc : (a b c : ℤ) → a +ℤ b +ℤ c ≡ a +ℤ (b +ℤ c)
+ℤ_assoc a b c = omega int_laws

abbrev pub i64_max : ℤ
i64_max = pos (2 ^ 63 - 1)

abbrev pub i64_min : ℤ
i64_min = negsuc (2 ^ 63 - 1)

abbrev pub u64_max : ℕ
u64_max = 2 ^ 64 - 1

abbrev pub in_i64 : ℤ → Bool
in_i64 a = leb_ℤ i64_min a && leb_ℤ a i64_max

-- The word that a 64-bit pattern stands for when it is read as an `i64`: Rust's `as i64`.
unfoldable pub as_i64 : ℕ → ℤ
as_i64 w = if ltb w (2 ^ 63) then pos w else negsuc (2 ^ 64 - w - 1)

-- The pattern of an integer, modulo 2 ^ 64.
unfoldable pub to_word : ℤ → ℕ
to_word (pos n) = n % 2 ^ 64
to_word (negsuc n) = 2 ^ 64 - 1 - n % 2 ^ 64

-- `a + b` and `a - b` on `i64` in a release build: they wrap round.
unfoldable pub wrapping_add : ℤ → ℤ → ℤ
unfolding as_i64 to_word ◌+ℤ◌
wrapping_add a b = as_i64 (to_word (a +ℤ b))

unfoldable pub wrapping_sub : ℤ → ℤ → ℤ
unfolding as_i64 to_word ◌-ℤ◌
wrapping_sub a b = as_i64 (to_word (a -ℤ b))

-- An integer of the range stands for itself.
pub as_i64-to_word : (a : ℤ) → i64_min ≤ℤ a → a ≤ℤ i64_max → as_i64 (to_word a) ≡ a
unfolding as_i64 to_word
as_i64-to_word (pos n) lo hi = ground arith
as_i64-to_word (negsuc n) lo hi = ground arith

-- Where the true sum is in range, the wrapping sum is that sum.
pub wrapping_add_lem : (a b : ℤ) → i64_min ≤ℤ a +ℤ b → a +ℤ b ≤ℤ i64_max → wrapping_add a b ≡ a +ℤ b
unfolding wrapping_add
wrapping_add_lem a b lo hi = as_i64-to_word (a +ℤ b) lo hi

pub wrapping_sub_lem : (a b : ℤ) → i64_min ≤ℤ a -ℤ b → a -ℤ b ≤ℤ i64_max → wrapping_sub a b ≡ a -ℤ b
unfolding wrapping_sub
wrapping_sub_lem a b lo hi = as_i64-to_word (a -ℤ b) lo hi

-- `i64::saturating_add`.
unfoldable pub saturating_add : ℤ → ℤ → ℤ
unfolding ◌+ℤ◌
saturating_add a b =
    let s = a +ℤ b in if ltb_ℤ i64_max s then i64_max else if ltb_ℤ s i64_min then i64_min else s
