-- ===== src/Sql/Results.antt =====
-- crates/data-node/src/sql.rs: what the limits of a node make of the result of a statement.
use combee.Prelude.{◌≡◌, Bool, false, Option, some, List, [], ◌∷◌, arith, length, String, inl, inr}
use combee.Errors.{Result, ok, Result-cases}
use combee.Text.{Bytes}
use combee.Quota.{QuotaConfig, exceeds}
use combee.Sql.Check.{check_statement}
use combee.Sql.Execute.{
  max_rows_of, max_bytes_of, Libraries, SqlValue, Json, Engine, SqlRequest, SqlResult, collect,
  to_sql_values, executed, execute_sql_quota,
}
use combee.Sql.Limits.{IsStart, HasRoom, bytes_of, collect-IsStart, collect-bounds}

module _ {F Conn : Type 0} (lib : Libraries F) (en : Engine F Conn) where
  abbrev pub Within : QuotaConfig → SqlResult F → Type 0
  Within q r =
      (exceeds (length r.rows) q.max_sql_rows ≡ false)
      × (exceeds (bytes_of lib r.rows) q.max_sql_result_bytes ≡ false)

  collect-Within :
      (q : QuotaConfig) (rs : List (Result (List (SqlValue F)))) (out : List (List (Json F)))
      (truncated : Bool)
      → HasRoom lib q.max_sql_result_bytes
      → collect lib q.max_sql_rows q.max_sql_result_bytes rs 0 0 ≡ ok (out, truncated)
      → (exceeds (length out) q.max_sql_rows ≡ false)
        × (exceeds (bytes_of lib out) q.max_sql_result_bytes ≡ false)
  collect-Within q rs out truncated room h =
      let (few, small) =
        collect-bounds lib q.max_sql_rows q.max_sql_result_bytes rs 0 0 out truncated h
          (λ p. omega arith) (λ p. omega arith) room in
      (ground (arith, few), ground (arith, small))

  executed-Within :
      (q : QuotaConfig) (sql : Bytes) (values : List (SqlValue F)) (columns : List String)
      (c : Conn) (r : SqlResult F)
      → HasRoom lib q.max_sql_result_bytes
      → (executed lib en (some q) sql values columns c).0 ≡ ok r
      → Within q r
  executed-Within q sql values [] c r room h = elim (Result-cases (en.execute sql values c).0) [
    | inl (n, z) ↦ (ground (arith, h, z), ground (arith, h, z))
    | inr (e, z) ↦ ground (arith, h, z)
  ]
  executed-Within q sql values (k ∷ ks) c r room h = elim (Result-cases (en.query sql values c).0) [
    | inr (e, z) ↦ ground (arith, h, z)
    | inl (rs, z) ↦ elim (Result-cases (collect lib q.max_sql_rows q.max_sql_result_bytes rs 0 0)) [
      | inr (e, y) ↦ ground (arith, h, z, y)
      | inl ((out, t), y) ↦
          let within = collect-Within q rs out t room y in
          (ground (arith, h, z, y, within.0), ground (arith, h, z, y, within.1))
    ]
  ]

  -- A result has no more rows and no more bytes of rows than the limits of the node, where these
  -- are not 0 and no row is so long that the count of bytes leaves 64 bits.
  pub execute_sql_quota-Within :
      (req : SqlRequest F) (q : QuotaConfig) (c : Conn) (r : SqlResult F)
      → HasRoom lib q.max_sql_result_bytes
      → (execute_sql_quota lib en req (some q) c).0 ≡ ok r
      → Within q r
  unfolding execute_sql_quota
  execute_sql_quota-Within req q c r room h = elim (Result-cases (check_statement req.sql)) [
    | inr (e, a) ↦ ground (arith, h, a)
    | inl (u, a) ↦ elim (Result-cases (to_sql_values lib req.params)) [
      | inr (e, b) ↦ ground (arith, h, a, b)
      | inl (values, b) ↦ elim (Result-cases (en.prepare req.sql c)) [
        | inr (e, d) ↦ ground (arith, h, a, b, d)
        | inl (columns, d) ↦
            executed-Within q req.sql values columns c r room (ground (arith, h, a, b, d))
      ]
    ]
  ]

  -- The rows in the result of a query are the first rows that SQLite gives, as JSON and in order,
  -- and the result is marked as truncated exactly when rows are left out.
  pub execute_sql_quota-IsStart :
      (req : SqlRequest F) (quota : Option QuotaConfig) (c : Conn) (r : SqlResult F)
      (values : List (SqlValue F)) (column : String) (columns : List String)
      (rs : List (Result (List (SqlValue F))))
      → to_sql_values lib req.params ≡ ok values
      → en.prepare req.sql c ≡ ok (column ∷ columns)
      → (en.query req.sql values c).0 ≡ ok rs
      → (execute_sql_quota lib en req quota c).0 ≡ ok r
      → IsStart lib rs r.rows r.truncated
  unfolding execute_sql_quota
  execute_sql_quota-IsStart req quota c r values column columns rs b d z h =
      elim (Result-cases (check_statement req.sql)) [
        | inr (e, a) ↦ ground (arith, h, a)
        | inl (u, a) ↦
            elim (Result-cases (collect lib (max_rows_of quota) (max_bytes_of quota) rs 0 0)) [
              | inr (e, y) ↦ ground (arith, h, a, b, d, z, y)
              | inl ((out, t), y) ↦
                  let start =
                    collect-IsStart lib (max_rows_of quota) (max_bytes_of quota) rs 0 0 out t y in
                  (
                    ground (arith, h, a, b, d, z, y, start.0),
                    ground (arith, h, a, b, d, z, y, start.1),
                  )
            ]
      ]
