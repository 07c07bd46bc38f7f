-- ===== src/Kv/Faults.antt =====
-- What the operations do to the table where a statement may fail.
use combee.Prelude.{ℕ, String, ◌≡◌, refl, ◌⊎◌, inl, inr, false, Option, some, arith, str_eq, eq_iff}
use combee.Prelude.Int.{ℤ}
use combee.Errors.{CombeeError, ok, err, sql, Result-cases}
use combee.Text.{Bytes}
use combee.Text.Decimal.{to_string}
use combee.Sqlite.{Row, Statement, Sqlite, upsert, delete, key_of, changes, apply}
use combee.Kv.{read_with_expiry, incr, incr_from}
use combee.Kv.Live.{live}

module _ {Conn : Type 0} (sq : Sqlite Conn) where
  pub execute_at :
      (s : Statement) (c : Conn) (j : String)
      → ((sq.execute s c).0 ≡ ok (changes s (sq.rows c (key_of s))))
          × (sq.rows (sq.execute s c).1 j ≡ apply s (sq.rows c) j)
        ⊎ ((sq.execute s c).0 ≡ err sql) × (sq.rows (sq.execute s c).1 j ≡ sq.rows c j)
  execute_at s c j = elim (sq.execute_law s c) [
    | inl (a, f) ↦ inl (a, f j)
    | inr (b, f) ↦ inr (b, f j)
  ]

  -- Reading changes nothing that is visible, and what it returns is visible.
  pub read_with_expiry_at :
      (k : String) (now : ℤ) (c : Conn)
      → ((j : String)
          → live now (sq.rows (read_with_expiry sq k now c).1 j) ≡ live now (sq.rows c j))
        × ((v : Bytes) (e : Option ℤ)
            → (read_with_expiry sq k now c).0 ≡ ok (some (v, e))
            → live now (sq.rows c k) ≡ some (v, e))
  unfolding read_with_expiry
  read_with_expiry_at k now c = (
    λ j. ground (arith, sq.select_law k c, execute_at (delete k) c j, eq_iff k j),
    λ v e q. ground (arith, sq.select_law k c, execute_at (delete k) c k),
  )

  incr_from_at :
      (k : String) (delta : ℤ) (t : Option ℕ) (now : ℤ) (c : Conn) (r : Option Row) (j : String)
      → r ≡ sq.rows c k
      → (live now (sq.rows (incr_from sq k delta t now r c).1 j) ≡ live now (sq.rows c j))
        × (str_eq k j ≡ false → sq.rows (incr_from sq k delta t now r c).1 j ≡ sq.rows c j)
  unfolding incr_from
  incr_from_at k delta t now c r j q = (
    ground (arith, execute_at (delete k) c j, eq_iff k j),
    λ ne. ground (arith, execute_at (delete k) c j),
  )

  -- INCR changes no other key, and where it fails it changes nothing that is visible.
  pub incr_at :
      (k : String) (delta : ℤ) (t : Option ℕ) (now : ℤ) (c : Conn)
      → ((j : String) → str_eq k j ≡ false → sq.rows (incr sq k delta t now c).1 j ≡ sq.rows c j)
        × ((x : CombeeError) (j : String)
            → (incr sq k delta t now c).0 ≡ err x
            → live now (sq.rows (incr sq k delta t now c).1 j) ≡ live now (sq.rows c j))
  unfolding incr
  incr_at k delta t now c =
      let m = incr_from sq k delta t now (sq.rows c k) c in
      let at = λ (j : String). incr_from_at k delta t now c (sq.rows c k) j refl in
      elim (Result-cases m.0) [
        | inl ((n, e), q) ↦
            let end = execute_at (upsert k (to_string n) e) m.1 in
            (
              λ j ne. ground (arith, sq.select_law k c, q, at j, end j),
              λ x j p. ground (arith, sq.select_law k c, q, at j, end j),
            )
        | inr (y, q) ↦ (
          λ j ne. ground (arith, sq.select_law k c, q, at j),
          λ x j p. ground (arith, sq.select_law k c, q, at j),
        )
      ]
