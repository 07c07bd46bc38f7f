-- ===== src/Text/Utf8.antt =====
-- `String::from_utf8` and `str::from_utf8`: which byte strings are UTF-8.
use combee.Prelude.{
  ℕ, zero, suc, ◌<◌, List, [], ◌∷◌, ◌≡◌, refl, Bool, true, false, ◌&&◌, Option, none, some, arith,
  ltb, leb, ◌==◌, if◌then◌else◌,
}

-- The continuation bytes that are still due, and the range of the next one.
pub record Due : Type 0 where
  pub count : ℕ
  pub low : ℕ
  pub high : ℕ

abbrev boundary : Due
boundary = record { count = 0; low = 0x80; high = 0xbf }

abbrev due : ℕ → ℕ → ℕ → Option Due
due n lo hi = some (record { count = n; low = lo; high = hi })

-- The first byte of a character.
lead : ℕ → Option Due
lead b =
    if ltb b 0x80
    then due 0 0x80 0xbf
    else if ltb b 0xc2
    then none
    else if ltb b 0xe0
    then due 1 0x80 0xbf
    else if b == 0xe0
    then due 2 0xa0 0xbf
    else if b == 0xed
    then due 2 0x80 0x9f
    else if ltb b 0xf0
    then due 2 0x80 0xbf
    else if b == 0xf0
    then due 3 0x90 0xbf
    else if ltb b 0xf4
    then due 3 0x80 0xbf
    else if b == 0xf4
    then due 3 0x80 0x8f
    else none

next_due : ℕ → ℕ → ℕ → ℕ → Option Due
unfolding lead
next_due zero lo hi b = lead b
next_due (suc n) lo hi b = if leb lo b && leb b hi then due n 0x80 0xbf else none

utf8_from : Due → List ℕ → Bool
utf8_from d [] = d.count == 0
utf8_from d (b ∷ bs) = elim (next_due d.count d.low d.high b) [
  | none ↦ false
  | some d' ↦ utf8_from d' bs
]

unfoldable pub is_utf8 : List ℕ → Bool
unfolding utf8_from next_due
is_utf8 = utf8_from boundary

abbrev pub AllAscii : List ℕ → Type 0
AllAscii [] = Unit
AllAscii (b ∷ bs) = (b < 128) × AllAscii bs

ascii-utf8_from : (bs : List ℕ) → AllAscii bs → utf8_from boundary bs ≡ true
unfolding utf8_from next_due
ascii-utf8_from [] h = refl
ascii-utf8_from (b ∷ bs) h = ground (arith, h.0, ascii-utf8_from bs h.1)

pub is_utf8_of_ascii : (bs : List ℕ) → AllAscii bs → is_utf8 bs ≡ true
unfolding is_utf8
is_utf8_of_ascii bs h = ascii-utf8_from bs h

is_utf8_tests :
    (is_utf8 (0xe5 ∷ 0x80 ∷ 0xbc ∷ 65 ∷ []) ≡ true)
    × (is_utf8 (0xff ∷ 0xfe ∷ []) ≡ false)
    × (is_utf8 (0xed ∷ 0xa0 ∷ 0x80 ∷ []) ≡ false)
unfolding is_utf8
is_utf8_tests = (refl, refl, refl)
