-- ===== src/Sql/Trivia.antt =====
-- What the scanners of crates/data-node/src/sql.rs find: the start of a statement, and what
-- follows a semicolon.
use combee.Prelude.{
  ℕ, zero, suc, ◌<◌, ◌≡◌, refl, ◌∙◌, Bool, true, false, not, [], ◌∷◌, ◌++◌, length, length-append,
  arith, ◌==◌, ◌&&◌, Bool-cases, inl, inr, if◌then◌else◌, ◌⊎◌,
}
use combee.Text.{Bytes}
use combee.Sql.{
  tail, skip_line, skip_block, skip_spaces, trailing_from, trailing_has_sql, multiple_from,
  has_multiple_statements, skip_leading_from, skip_leading_trivia, is_space, is_quote, next_is,
  dash, slash, star, semicolon,
}
use combee.Sql.Fuel.{
  skip_leading_fuel, multiple_fuel, length-skip_spaces, skip_line-lt, skip_block-lt,
}

-- Whether a text is empty or starts with neither space nor comment.
abbrev pub starts_clean : Bytes → Bool
starts_clean [] = true
starts_clean (b ∷ bs) =
    not (is_space b) && (not (b == dash && next_is dash bs) && not (b == slash && next_is star bs))

abbrev pub is_cons : Bytes → Bool
is_cons [] = false
is_cons (b ∷ bs) = true

skip_leading_from-starts :
    (n : ℕ) (bs : Bytes) → length bs < n → starts_clean (skip_leading_from n bs) ≡ true
unfolding skip_leading_from
skip_leading_from-starts zero bs h = absurd (omega arith)
skip_leading_from-starts (suc n) [] h = refl
skip_leading_from-starts (suc n) (b ∷ bs) h = elim (Bool-cases (is_space b)) [
  | inl s ↦ ground (arith, s, skip_leading_from-starts n bs (omega arith))
  | inr s ↦ elim (Bool-cases (b == dash && next_is dash bs)) [
    | inl d ↦ ground (
      arith,
      s,
      d,
      skip_leading_from-starts n (skip_line (b ∷ bs))
          (omega (arith, skip_line-lt b bs (ground arith))),
    )
    | inr d ↦ ground (
      arith,
      s,
      d,
      skip_leading_from-starts n (skip_block (tail bs)) (omega (arith, skip_block-lt bs)),
    )
  ]
]

skip_leading_clean : (n : ℕ) (bs : Bytes) → starts_clean bs ≡ true → skip_leading_from n bs ≡ bs
unfolding skip_leading_from
skip_leading_clean zero bs h = refl
skip_leading_clean (suc n) [] h = refl
skip_leading_clean (suc n) (b ∷ bs) h = ground arith

-- What is left after the leading space and comments is empty or starts with neither, so skipping
-- them again changes nothing.
pub skip_leading_trivia_lem :
    (bs : Bytes)
    → (starts_clean (skip_leading_trivia bs) ≡ true)
      × (skip_leading_trivia (skip_leading_trivia bs) ≡ skip_leading_trivia bs)
unfolding skip_leading_trivia
skip_leading_trivia_lem bs =
    let clean = skip_leading_from-starts (suc (length bs)) bs (omega arith) in
    (
      clean,
      skip_leading_clean (suc (length (skip_leading_trivia bs))) (skip_leading_trivia bs) clean,
    )

skip_leading_empty : (n : ℕ) → skip_leading_from n [] ≡ []
unfolding skip_leading_from
skip_leading_empty zero = refl
skip_leading_empty (suc n) = refl

skip_leading_spaces :
    (n : ℕ) (bs : Bytes)
    → length bs < n
    → skip_leading_from n bs ≡ skip_leading_from n (skip_spaces bs)
unfolding skip_leading_from skip_spaces
skip_leading_spaces zero bs h = absurd (omega arith)
skip_leading_spaces (suc n) [] h = refl
skip_leading_spaces (suc n) (b ∷ bs) h = elim (Bool-cases (is_space b)) [
  | inl s ↦
      let shorter = length-skip_spaces bs in
      ground (
        arith,
        s,
        skip_leading_spaces n bs (omega arith),
        skip_leading_fuel n (suc n) (skip_spaces bs) (omega (arith, shorter))
            (omega (arith, shorter)),
      )
  | inr s ↦ ground (arith, s)
]

skip_spaces-head :
    (bs : Bytes) (b : ℕ) (rest : Bytes) → skip_spaces bs ≡ b ∷ rest → is_space b ≡ false
unfolding skip_spaces
skip_spaces-head [] b rest h = absurd (ground arith)
skip_spaces-head (c ∷ bs) b rest h = ground (arith, skip_spaces-head bs b rest)

Bytes-cases : (bs : Bytes) → (bs ≡ []) ⊎ ((b : ℕ) × (rest : Bytes) × (bs ≡ b ∷ rest))
Bytes-cases [] = inl refl
Bytes-cases (b ∷ bs) = inr (b, bs, refl)

-- One round of `trailing_has_sql` from a byte that is no space.
trailing_round :
    (n : ℕ) (b : ℕ) (rest : Bytes)
    → is_space b ≡ false
    → is_cons (skip_leading_from (suc n) (b ∷ rest)) ≡ (
        if b == dash && next_is dash rest
        then is_cons (skip_leading_from n (skip_line (b ∷ rest)))
        else if b == slash && next_is star rest
        then is_cons (skip_leading_from n (skip_block (tail rest)))
        else true)
unfolding skip_leading_from
trailing_round n b rest s = ground arith

trailing_from_lem :
    (n : ℕ) (bs : Bytes) → length bs < n → trailing_from n bs ≡ is_cons (skip_leading_from n bs)
unfolding trailing_from
trailing_from_lem zero bs h = absurd (omega arith)
trailing_from_lem (suc n) bs h = elim (Bytes-cases (skip_spaces bs)) [
  | inl q ↦ ground (arith, q, skip_leading_spaces (suc n) bs h, skip_leading_empty (suc n))
  | inr (b, rest, q) ↦
      let s = skip_spaces-head bs b rest q in
      let l : length rest < n = ground (arith, length-skip_spaces bs, q) in
      elim (Bool-cases (b == dash && next_is dash rest)) [
        | inl d ↦ ground (
          arith,
          q,
          s,
          d,
          skip_leading_spaces (suc n) bs h,
          trailing_round n b rest s,
          trailing_from_lem n (skip_line (b ∷ rest))
              (omega (arith, l, skip_line-lt b rest (ground arith))),
        )
        | inr d ↦ ground (
          arith,
          q,
          s,
          d,
          skip_leading_spaces (suc n) bs h,
          trailing_round n b rest s,
          trailing_from_lem n (skip_block (tail rest)) (omega (arith, l, skip_block-lt rest)),
        )
      ]
]

-- A text after a semicolon counts as SQL exactly if something is left of it after its leading space
-- and comments: the two scanners of the file agree.
pub trailing_has_sql_lem : (bs : Bytes) → trailing_has_sql bs ≡ is_cons (skip_leading_trivia bs)
unfolding trailing_has_sql skip_leading_trivia
trailing_has_sql_lem bs = trailing_from_lem (suc (length bs)) bs (omega arith)

-- No byte of the text starts a string, a comment or the end of a statement.
abbrev pub plain : Bytes → Bool
plain [] = true
plain (b ∷ bs) =
    let rest = plain bs in
    not (is_quote b) && (not (b == dash) && (not (b == slash) && (not (b == semicolon) && rest)))

multiple_plain :
    (n : ℕ) (pre bs : Bytes)
    → plain pre ≡ true
    → length (pre ++ bs) < n
    → multiple_from n (pre ++ bs) ≡ multiple_from n bs
unfolding multiple_from
multiple_plain n [] bs p h = refl
multiple_plain zero (b ∷ pre) bs p h = absurd (omega arith)
multiple_plain (suc n) (b ∷ pre) bs p h =
    let l : length bs < n = omega (arith, length-append pre bs) in
    ground (
      arith,
      p,
      multiple_plain n pre bs (ground (arith, p)) (omega arith),
      multiple_fuel n (suc n) bs l (omega (arith, l)),
    )

multiple_after :
    (pre bs : Bytes)
    → plain pre ≡ true
    → has_multiple_statements (pre ++ bs) ≡ has_multiple_statements bs
unfolding has_multiple_statements
multiple_after pre bs p =
    multiple_plain (suc (length (pre ++ bs))) pre bs p (omega arith)
    ∙ multiple_fuel (suc (length (pre ++ bs))) (suc (length bs)) bs
        (omega (arith, length-append pre bs)) (omega arith)

ends_from : (n : ℕ) (pre : Bytes) → plain pre ≡ true → multiple_from n pre ≡ false
unfolding multiple_from
ends_from zero pre p = refl
ends_from (suc n) [] p = refl
ends_from (suc n) (b ∷ pre) p = ground (arith, p, ends_from n pre (ground (arith, p)))

ends : (pre : Bytes) → plain pre ≡ true → has_multiple_statements pre ≡ false
unfolding has_multiple_statements
ends pre p = ends_from (suc (length pre)) pre p

at_semicolon : (rest : Bytes) → has_multiple_statements (semicolon ∷ rest) ≡ trailing_has_sql rest
unfolding has_multiple_statements multiple_from
at_semicolon rest = refl

-- A text without quotes, dashes, slashes and semicolons is one statement; followed by a semicolon,
-- it is more than one exactly if something is left after the space and comments that follow.
pub has_multiple_statements-plain :
    (pre rest : Bytes)
    → plain pre ≡ true
    → (has_multiple_statements pre ≡ false)
      × (has_multiple_statements (pre ++ semicolon ∷ rest) ≡ is_cons (skip_leading_trivia rest))
has_multiple_statements-plain pre rest p = (
  ends pre p,
  multiple_after pre (semicolon ∷ rest) p ∙ at_semicolon rest ∙ trailing_has_sql_lem rest,
)

at_comment :
    (rest : Bytes)
    → has_multiple_statements (slash ∷ star ∷ star ∷ slash ∷ semicolon ∷ rest)
      ≡ has_multiple_statements rest
unfolding has_multiple_statements multiple_from skip_block
at_comment rest =
    multiple_fuel (suc (suc (suc (suc (suc (length rest)))))) (suc (length rest)) rest (omega arith)
      (omega arith)

-- After a start without quotes, dashes, slashes and semicolons, a semicolon right after an empty
-- block comment is not seen: the answer for the text is that for what follows the semicolon.
pub missed_semicolon :
    (pre rest : Bytes)
    → plain pre ≡ true
    → has_multiple_statements (pre ++ slash ∷ star ∷ star ∷ slash ∷ semicolon ∷ rest)
      ≡ has_multiple_statements rest
missed_semicolon pre rest p = multiple_after pre _ p ∙ at_comment rest
