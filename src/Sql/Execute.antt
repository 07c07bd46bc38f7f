-- ===== src/Sql/Execute.antt =====
-- crates/data-node/src/sql.rs: the execution of one statement within the limits of a node, and of a
-- transaction. SQLite is a parameter; the flag of the sandbox is in Sandbox.
use combee.Prelude.{
  ℕ, ◌+◌, Bool, true, false, Option, none, some, List, [], ◌∷◌, String, leb, ltb, ◌&&◌, map,
  if◌then◌else◌,
}
use combee.Prelude.Int.{ℤ, pos}
use combee.Errors.{Result, ok, err, invalid_request}
use combee.Exec.{Exec, pure, raise, lift, ◌>>=◌, ◌>>◌}
use combee.Text.{Bytes}
use combee.Quota.{QuotaConfig}
use combee.Usage.{add_u64}
use combee.Sql.Check.{check_statement}

-- A number of JSON, as the code asks it: one of `i64`, one of `u64` beyond that, or a fraction.
pub data Number (F : Type 0) : Type 0 where
  signed : ℤ → Number F
  large : ℕ → Number F
  fraction : F → Number F

-- `serde_json::Value`; a list and an object are not taken apart.
pub data Json (F : Type 0) : Type 0 where
  null compound : Json F
  boolean : Bool → Json F
  number : Number F → Json F
  string : Bytes → Json F

-- `rusqlite::types::Value`
pub data SqlValue (F : Type 0) : Type 0 where
  null_value : SqlValue F
  integer : ℤ → SqlValue F
  real : F → SqlValue F
  text blob : Bytes → SqlValue F

-- What the libraries do with floating-point numbers, texts and JSON.
pub record Libraries (F : Type 0) : Type 0 where
  pub of_u64 : ℕ → F
  pub is_finite : F → Bool
  pub from_utf8_lossy : Bytes → Bytes
  pub json_size : List (Json F) → Result ℕ

pub record SqlRequest (F : Type 0) : Type 0 where
  pub sql : Bytes
  pub params : List (Json F)

pub record SqlResult (F : Type 0) : Type 0 where
  pub columns : List String
  pub rows : List (List (Json F))
  pub rows_affected : ℕ
  pub truncated : Bool

-- A connection of SQLite: the columns of a prepared statement, the answers of its `next`, the rows
-- that a change affects, and transactions. `query` leaves what the whole query does.
pub record Engine (F Conn : Type 0) : Type 0 where
  pub prepare : Bytes → Conn → Result (List String)
  pub query : Bytes → List (SqlValue F) → Exec Conn (List (Result (List (SqlValue F))))
  pub execute : Bytes → List (SqlValue F) → Exec Conn ℕ
  pub begin : Exec Conn (Unit {0})
  pub commit : Exec Conn (Unit {0})
  pub rollback : Conn → Conn

abbrev pub max_rows_of : Option QuotaConfig → ℕ
max_rows_of none = 0
max_rows_of (some q) = q.max_sql_rows

abbrev pub max_bytes_of : Option QuotaConfig → ℕ
max_bytes_of none = 0
max_bytes_of (some q) = q.max_sql_result_bytes

module _ {F : Type 0} (lib : Libraries F) where
  abbrev pub number_value : Number F → SqlValue F
  number_value (signed i) = integer i
  number_value (large n) = real (lib.of_u64 n)
  number_value (fraction f) = real f

  -- `to_sql_value`; every number of the library is one of the two that the code takes.
  unfoldable pub to_sql_value : Json F → Result (SqlValue F)
  to_sql_value null = ok null_value
  to_sql_value (boolean b) = ok (integer (pos (if b then 1 else 0)))
  to_sql_value (number n) = ok (number_value n)
  to_sql_value (string s) = ok (text s)
  to_sql_value compound = err invalid_request

  unfoldable pub to_sql_values : List (Json F) → Result (List (SqlValue F))
  unfolding to_sql_value
  to_sql_values [] = ok []
  to_sql_values (p ∷ ps) = elim (to_sql_value p) [
    | err e ↦ err e
    | ok v ↦ (elim (to_sql_values ps) [ err e ↦ err e | ok vs ↦ ok (v ∷ vs) ])
  ]

  abbrev pub json_of : SqlValue F → Json F
  json_of null_value = null
  json_of (integer i) = number (signed i)
  json_of (real f) = if lib.is_finite f then number (fraction f) else null
  json_of (text s) = string s
  json_of (blob b) = string (lib.from_utf8_lossy b)

  -- `row_to_json`
  unfoldable pub row_to_json : List (SqlValue F) → List (Json F)
  row_to_json vs = map json_of vs

  abbrev pub prepended :
      List (Json F) → Result (List (List (Json F)) × Bool) → Result (List (List (Json F)) × Bool)
  prepended json (err e) = err e
  prepended json (ok (out, truncated)) = ok (json ∷ out, truncated)

  -- The loop over the rows, after `count` rows of `total` bytes: the rows that follow, and whether it
  -- broke off.
  unfoldable pub collect :
      ℕ → ℕ → List (Result (List (SqlValue F))) → ℕ → ℕ → Result (List (List (Json F)) × Bool)
  unfolding row_to_json
  collect max_rows max_bytes [] count total = ok ([], false)
  collect max_rows max_bytes (err e ∷ rs) count total = err e
  collect max_rows max_bytes (ok row ∷ rs) count total =
      if ltb 0 max_rows && leb max_rows count
      then ok ([], true)
      else if ltb 0 max_bytes
      then (elim (lib.json_size (row_to_json row)) [
        | err e ↦ err e
        | ok size ↦
            let total = add_u64 total size in
            let rest = collect max_rows max_bytes rs (count + 1) total in
            if ltb max_bytes total then ok ([], true) else prepended (row_to_json row) rest
      ])
      else prepended (row_to_json row) (collect max_rows max_bytes rs (count + 1) total)

  module _ {Conn : Type 0} (en : Engine F Conn) where
    abbrev pub query_result : List String → List (List (Json F)) × Bool → SqlResult F
    query_result columns (out, truncated) = record {
      columns = columns;
      rows = out;
      rows_affected = 0;
      truncated = truncated;
    }

    abbrev pub change_result : ℕ → SqlResult F
    change_result n = record { columns = []; rows = []; rows_affected = n; truncated = false }

    abbrev pub executed :
        Option QuotaConfig → Bytes → List (SqlValue F) → List String → Exec Conn (SqlResult F)
    executed quota sql values [] = do
      affected ← en.execute sql values
      pure (change_result affected)
    executed quota sql values (c ∷ cs) = do
      rows ← en.query sql values
      out ← lift (collect (max_rows_of quota) (max_bytes_of quota) rows 0 0)
      pure (query_result (c ∷ cs) out)

    -- `execute_sql_quota`
    unfoldable pub execute_sql_quota : SqlRequest F → Option QuotaConfig → Exec Conn (SqlResult F)
    unfolding check_statement to_sql_values collect
    execute_sql_quota req quota = do
      lift (check_statement req.sql)
      values ← lift (to_sql_values req.params)
      columns ← (λ c. (en.prepare req.sql c, c))
      executed quota req.sql values columns

    unfoldable pub execute_all :
        List (SqlRequest F) → Option QuotaConfig → Exec Conn (List (SqlResult F))
    unfolding execute_sql_quota
    execute_all [] quota = pure []
    execute_all (st ∷ sts) quota = do
      r ← execute_sql_quota st quota
      rs ← execute_all sts quota
      pure (r ∷ rs)

    -- A transaction that is dropped before it is committed is rolled back.
    abbrev pub or_rollback : {A : Type 0} → Result A × Conn → Result A × Conn
    or_rollback (ok a, c) = (ok a, c)
    or_rollback (err e, c) = (err e, en.rollback c)

    abbrev pub in_transaction :
        List (SqlRequest F) → Option QuotaConfig → Exec Conn (List (SqlResult F))
    in_transaction sts quota = do rs ← execute_all sts quota; en.commit; pure rs

    abbrev pub begun :
        Exec Conn (List (SqlResult F))
        → Result (Unit {0}) × Conn
        → Result (List (SqlResult F)) × Conn
    begun f (err e, c) = (err e, c)
    begun f (ok u, c) = or_rollback (f c)

    -- `execute_transaction`
    unfoldable pub execute_transaction :
        List (SqlRequest F) → Option QuotaConfig → Exec Conn (List (SqlResult F))
    unfolding execute_all
    execute_transaction [] quota c = raise invalid_request c
    execute_transaction (st ∷ sts) quota c = begun (in_transaction (st ∷ sts) quota) (en.begin c)
