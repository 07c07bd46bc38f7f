-- ===== src/Sql/Fuel.antt =====
-- The fuel of the scanners of crates/data-node/src/sql.rs: what each round consumes.
use combee.Prelude.{
  ℕ, zero, suc, ◌≤◌, ◌<◌, ◌≡◌, refl, true, [], ◌∷◌, length, arith, ◌==◌, ◌&&◌, Bool-cases, inl, inr,
}
use combee.Text.{Bytes}
use combee.Sql.{
  tail, skip_line, skip_block, skip_quoted, skip_spaces, multiple_from, skip_leading_from, is_space,
  is_quote, next_is, dash,
}

length-tail : (bs : Bytes) → length (tail bs) ≤ length bs
length-tail [] = omega arith
length-tail (b ∷ bs) = omega arith

length-skip_line : (bs : Bytes) → length (skip_line bs) ≤ length bs
unfolding skip_line
length-skip_line [] = omega arith
length-skip_line (b ∷ bs) = ground (arith, length-skip_line bs)

length-skip_block : (bs : Bytes) → length (skip_block bs) ≤ length bs
unfolding skip_block
length-skip_block [] = omega arith
length-skip_block (b ∷ bs) = ground (arith, length-skip_block bs, length-tail bs)

length-skip_quoted : (n q : ℕ) (bs : Bytes) → length (skip_quoted n q bs) ≤ length bs
unfolding skip_quoted
length-skip_quoted zero q bs = omega arith
length-skip_quoted (suc n) q [] = omega arith
length-skip_quoted (suc n) q (b ∷ bs) =
    ground (arith, length-skip_quoted n q bs, length-skip_quoted n q (tail bs), length-tail bs)

pub length-skip_spaces : (bs : Bytes) → length (skip_spaces bs) ≤ length bs
unfolding skip_spaces
length-skip_spaces [] = omega arith
length-skip_spaces (b ∷ bs) = ground (arith, length-skip_spaces bs)

-- A line comment is not empty: skipping it moves on.
pub skip_line-lt :
    (b : ℕ) (bs : Bytes) → (b == dash) ≡ true → length (skip_line (b ∷ bs)) ≤ length bs
unfolding skip_line
skip_line-lt b bs h = ground (arith, length-skip_line bs)

pub skip_block-lt : (bs : Bytes) → length (skip_block (tail bs)) ≤ length bs
skip_block-lt bs = omega (arith, length-skip_block (tail bs), length-tail bs)

pub skip_leading_fuel :
    (n m : ℕ) (bs : Bytes)
    → length bs < n
    → length bs < m
    → skip_leading_from n bs ≡ skip_leading_from m bs
unfolding skip_leading_from
skip_leading_fuel zero m bs h k = absurd (omega arith)
skip_leading_fuel (suc n) zero bs h k = absurd (omega arith)
skip_leading_fuel (suc n) (suc m) [] h k = refl
skip_leading_fuel (suc n) (suc m) (b ∷ bs) h k = elim (Bool-cases (is_space b)) [
  | inl s ↦ ground (arith, skip_leading_fuel n m bs (omega arith) (omega arith))
  | inr s ↦ elim (Bool-cases (b == dash && next_is dash bs)) [
    | inl d ↦
        let shorter = skip_line-lt b bs (ground arith) in
        ground (
          arith,
          d,
          s,
          skip_leading_fuel n m (skip_line (b ∷ bs)) (omega (arith, shorter))
              (omega (arith, shorter)),
        )
    | inr d ↦
        let shorter = skip_block-lt bs in
        ground (
          arith,
          d,
          s,
          skip_leading_fuel n m (skip_block (tail bs)) (omega (arith, shorter))
              (omega (arith, shorter)),
        )
  ]
]

-- The search for a second statement ends: each round consumes a byte, so with more fuel than the
-- text has bytes the answer does not depend on the fuel.
pub multiple_fuel :
    (n m : ℕ) (bs : Bytes) → length bs < n → length bs < m → multiple_from n bs ≡ multiple_from m bs
unfolding multiple_from
multiple_fuel zero m bs h k = absurd (omega arith)
multiple_fuel (suc n) zero bs h k = absurd (omega arith)
multiple_fuel (suc n) (suc m) [] h k = refl
multiple_fuel (suc n) (suc m) (b ∷ bs) h k =
    let q' = skip_quoted (suc (length bs)) b bs in
    let quoted : length (tail q') ≤ length bs =
      omega (arith, length-skip_quoted (suc (length bs)) b bs, length-tail q') in
    let block : length (tail (skip_block (tail bs))) ≤ length bs =
      omega (arith, skip_block-lt bs, length-tail (skip_block (tail bs))) in
    elim (Bool-cases (is_quote b)) [
      | inl q ↦
          ground
            (arith, q, multiple_fuel n m (tail q') (omega (arith, quoted)) (omega (arith, quoted)))
      | inr q ↦ elim (Bool-cases (b == dash && next_is dash bs)) [
        | inl d ↦
            let shorter = skip_line-lt b bs (ground arith) in
            let line : length (tail (skip_line (b ∷ bs))) ≤ length bs =
              omega (arith, shorter, length-tail (skip_line (b ∷ bs))) in
            ground (
              arith,
              q,
              d,
              multiple_fuel n m (tail (skip_line (b ∷ bs))) (omega (arith, line))
                  (omega (arith, line)),
            )
        | inr d ↦ ground (
          arith,
          q,
          d,
          multiple_fuel n m (tail (skip_block (tail bs))) (omega (arith, block))
              (omega (arith, block)),
          multiple_fuel n m bs (omega arith) (omega arith),
        )
      ]
    ]
