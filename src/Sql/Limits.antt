-- ===== src/Sql/Limits.antt =====
-- crates/data-node/src/sql.rs: the rows that the limits of a node let through.
use combee.Prelude.{
  ℕ, ◌⊎◌, ◌+◌, ◌^◌, ◌≤◌, ◌<◌, ◌≡◌, Bool, true, false, List, [], ◌∷◌, leb, ltb, ◌&&◌, arith, length,
  take, if◌then◌else◌, Bool-cases, inl, inr,
}
use combee.Usage.{add_u64}
use combee.Errors.{Result, ok, err, Result-cases}
use combee.Sql.Execute.{Libraries, SqlValue, Json, collect, row_to_json, prepended}

module _ {F : Type 0} (lib : Libraries F) where
  -- The rows as JSON, up to the first that SQLite could not give.
  abbrev pub converted : List (Result (List (SqlValue F))) → List (List (Json F))
  converted [] = []
  converted (err e ∷ rs) = []
  converted (ok row ∷ rs) = row_to_json lib row ∷ converted rs

  abbrev pub size_or_zero : Result ℕ → ℕ
  size_or_zero (ok n) = n
  size_or_zero (err e) = 0

  -- The bytes of rows as JSON.
  abbrev pub bytes_of : List (List (Json F)) → ℕ
  bytes_of [] = 0
  bytes_of (r ∷ rs) = size_or_zero (lib.json_size r) + bytes_of rs

  -- The rows are the first ones, and the flag says whether some are left out.
  abbrev pub IsStart : List (Result (List (SqlValue F))) → List (List (Json F)) → Bool → Type 0
  IsStart rs out truncated =
      (out ≡ converted (take (length out) rs)) × (truncated ≡ ltb (length out) (length rs))

  prepended-cases :
      (j : List (Json F)) (r : Result (List (List (Json F)) × Bool)) (out : List (List (Json F)))
      (truncated : Bool)
      → prepended lib j r ≡ ok (out, truncated)
      → (rest : List (List (Json F))) × (r ≡ ok (rest, truncated)) × (out ≡ j ∷ rest)
  prepended-cases j (err e) out truncated h = ground (arith, h)
  prepended-cases j (ok (rest, t)) out truncated h = (rest, ground (arith, h), ground (arith, h))

  abbrev counted : ℕ → ℕ → List (SqlValue F) → ℕ
  counted max_bytes total row =
      if ltb 0 max_bytes
      then add_u64 total (size_or_zero (lib.json_size (row_to_json lib row)))
      else total

  -- A row that is there is the last straw, or it is let through within both limits.
  abbrev Passes :
      ℕ
      → ℕ
      → List (SqlValue F)
      → List (Result (List (SqlValue F)))
      → ℕ
      → ℕ
      → List (List (Json F))
      → Bool
      → Type 0
  Passes max_rows max_bytes row rs count total out truncated =
      (rest : List (List (Json F))) × (collect lib max_rows max_bytes rs (count + 1)
          (counted max_bytes total row)
        ≡ ok (rest, truncated))
      × (out ≡ row_to_json lib row ∷ rest)
      × ((ltb 0 max_rows && leb max_rows count) ≡ false)
      × ((ltb 0 max_bytes && ltb max_bytes (counted max_bytes total row)) ≡ false)

  collect-cases :
      (max_rows max_bytes : ℕ) (row : List (SqlValue F)) (rs : List (Result (List (SqlValue F))))
      (count total : ℕ) (out : List (List (Json F))) (truncated : Bool)
      → collect lib max_rows max_bytes (ok row ∷ rs) count total ≡ ok (out, truncated)
      → ((out ≡ []) × (truncated ≡ true))
        ⊎ Passes max_rows max_bytes row rs count total out truncated
  unfolding collect
  collect-cases max_rows max_bytes row rs count total out truncated h =
      let next = counted max_bytes total row in
      let rest = collect lib max_rows max_bytes rs (count + 1) next in
      elim (Bool-cases (ltb 0 max_rows && leb max_rows count)) [
        | inl q ↦ inl (ground (arith, h, q), ground (arith, h, q))
        | inr q ↦ elim (Bool-cases (ltb 0 max_bytes)) [
          | inr p ↦
              let (tail, same, front) =
                prepended-cases (row_to_json lib row) rest out truncated
                  (ground (arith, h, q, p)) in
              inr (tail, same, front, q, ground (arith, p))
          | inl p ↦ elim (Result-cases (lib.json_size (row_to_json lib row))) [
            | inr (e, z) ↦ ground (arith, h, q, p, z)
            | inl (n, z) ↦ elim (Bool-cases (ltb max_bytes next)) [
              | inl o ↦ inl (ground (arith, h, q, p, z, o), ground (arith, h, q, p, z, o))
              | inr o ↦
                  let (tail, same, front) =
                    prepended-cases (row_to_json lib row) rest out truncated
                      (ground (arith, h, q, p, z, o)) in
                  inr (tail, same, front, q, ground (arith, o))
            ]
          ]
        ]
      ]

  pub collect-IsStart :
      (max_rows max_bytes : ℕ) (rs : List (Result (List (SqlValue F)))) (count total : ℕ)
      (out : List (List (Json F))) (truncated : Bool)
      → collect lib max_rows max_bytes rs count total ≡ ok (out, truncated)
      → IsStart rs out truncated
  unfolding collect
  collect-IsStart max_rows max_bytes [] count total out truncated h =
      (ground (arith, h), ground (arith, h))
  collect-IsStart max_rows max_bytes (err e ∷ rs) count total out truncated h =
      (ground (arith, h), ground (arith, h))
  collect-IsStart max_rows max_bytes (ok row ∷ rs) count total out truncated h =
      elim (collect-cases max_rows max_bytes row rs count total out truncated h) [
        | inl (none_left, cut) ↦ (ground (arith, none_left), ground (arith, none_left, cut))
        | inr (rest, same, front, few, small) ↦
            let found =
              collect-IsStart max_rows max_bytes rs (count + 1) (counted max_bytes total row) rest
                truncated same in
            (ground (arith, front, found.0), ground (arith, front, found.1))
      ]

  -- No row is longer than memory allows.
  abbrev pub HasRoom : ℕ → Type 0
  HasRoom max_bytes = (j : List (Json F)) → size_or_zero (lib.json_size j) + max_bytes < 2 ^ 64

  pub collect-bounds :
      (max_rows max_bytes : ℕ) (rs : List (Result (List (SqlValue F)))) (count total : ℕ)
      (out : List (List (Json F))) (truncated : Bool)
      → collect lib max_rows max_bytes rs count total ≡ ok (out, truncated)
      → (0 < max_rows → count ≤ max_rows)
      → (0 < max_bytes → total ≤ max_bytes)
      → HasRoom max_bytes
      → (0 < max_rows → count + length out ≤ max_rows)
        × (0 < max_bytes → total + bytes_of out ≤ max_bytes)
  unfolding collect
  collect-bounds max_rows max_bytes [] count total out truncated h n b room =
      (λ p. ground (arith, h, n, p), λ p. ground (arith, h, b, p))
  collect-bounds max_rows max_bytes (err e ∷ rs) count total out truncated h n b room =
      (λ p. ground (arith, h), λ p. ground (arith, h))
  collect-bounds max_rows max_bytes (ok row ∷ rs) count total out truncated h n b room =
      elim (collect-cases max_rows max_bytes row rs count total out truncated h) [
        | inl (none_left, cut) ↦
            (λ p. ground (arith, none_left, n p), λ p. ground (arith, none_left, b p))
        | inr (rest, same, front, few, small) ↦
            let next = counted max_bytes total row in
            let found =
              collect-bounds max_rows max_bytes rs (count + 1) next rest truncated same
                (λ p. ground (arith, n, few, p)) (λ p. ground (arith, small, p)) room in
            (
              λ p. ground (arith, front, found.0 p),
              λ p. ground (arith, front, found.1 p, b p, room (row_to_json lib row)),
            )
      ]
