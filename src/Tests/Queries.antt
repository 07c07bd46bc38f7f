-- ===== src/Tests/Queries.antt =====
-- The execution of SQL over a connection that counts its changes: the theorems at a small result and at
-- a transaction that fails.
use combee.Prelude.{ℕ, suc, ◌≡◌, refl, true, none, some, List, [], ◌∷◌, arith, String}
use combee.Prelude.Int.{pos}
use combee.Errors.{ok, invalid_request, Result}
use combee.Text.{Bytes}
use combee.Quota.{QuotaConfig}
use combee.Sql.{multiple_from}
use combee.Sql.Fuel.{multiple_fuel}
use combee.Sql.Check.{vacuum}
use combee.Sql.Execute.{
  Libraries, SqlValue, integer, number, signed, Engine, SqlRequest, SqlResult, execute_sql_quota,
  execute_transaction,
}
use combee.Sql.Results.{Within, execute_sql_quota-Within}
use combee.Sql.Atomic.{IsTransactional, failed_transaction_changes_nothing}

-- The changes so far, and those before the transaction.
abbrev Counted : Type 0
Counted = ℕ × ℕ

abbrev changes_of : Counted → ℕ
changes_of (n, m) = n

abbrev saved_of : Counted → ℕ
saved_of (n, m) = m

abbrev pub two_rows : List (Result (List (SqlValue ℕ)))
two_rows = ok (integer (pos 7) ∷ []) ∷ ok (integer (pos 8) ∷ []) ∷ []

-- A text that begins with `s` has a column.
abbrev columns_of : Bytes → List String
columns_of [] = []
columns_of (b ∷ bs) = "c" ∷ []

abbrev counting : Engine ℕ Counted
counting = record {
  prepare = λ sql c. ok (columns_of sql);
  query = λ sql values c. (ok two_rows, c);
  execute = λ sql values c. (ok 1, (suc c.0, c.1));
  begin = λ c. (ok tt, (c.0, c.0));
  commit = λ c. (ok tt, c);
  rollback = λ c. (c.1, c.1);
}

abbrev pub libraries : Libraries ℕ
libraries = record {
  of_u64 = λ n. n;
  is_finite = λ f. true;
  from_utf8_lossy = λ b. b;
  json_size = λ j. ok 3;
}

abbrev one_row : QuotaConfig
one_row = record {
  max_request_body_bytes = 0;
  max_kv_key_bytes = 0;
  max_kv_value_bytes = 0;
  max_sql_rows = 1;
  max_sql_result_bytes = 10;
  max_cells_per_tenant = 0;
  max_per_tenant_concurrency = 0;
  max_per_cell_concurrency = 0;
  storage_soft_bytes = 0;
  storage_hard_bytes = 0;
  max_ttl_seconds = 0;
}

abbrev select : SqlRequest ℕ
select = record { sql = 115 ∷ []; params = [] }

abbrev first_row : SqlResult ℕ
first_row = record {
  columns = "c" ∷ [];
  rows = (number (signed (pos 7)) ∷ []) ∷ [];
  rows_affected = 0;
  truncated = true;
}

selected : (execute_sql_quota libraries counting select (some one_row) (0, 0)).0 ≡ ok first_row
unfolding execute_sql_quota
selected = refl

execute_sql_quota-Within_example : Within libraries counting one_row first_row
execute_sql_quota-Within_example =
    execute_sql_quota-Within libraries counting select one_row (0, 0) first_row (λ j. omega arith)
      selected

counting-IsTransactional : IsTransactional counting changes_of saved_of
counting-IsTransactional = record {
  begins = λ c h. refl;
  fails = λ c e h. refl;
  queries = λ sql values c. refl;
  changes = λ sql values c. refl;
  commits = λ c e h. refl;
  restores = λ c. refl;
}

abbrev insert_then_vacuum : List (SqlRequest ℕ)
insert_then_vacuum = record { sql = []; params = [] } ∷ record { sql = vacuum; params = [] } ∷ []

failed_transaction_changes_nothing_example :
    changes_of (execute_transaction libraries counting insert_then_vacuum none (4, 0)).1 ≡ 4
failed_transaction_changes_nothing_example =
    failed_transaction_changes_nothing libraries counting changes_of saved_of insert_then_vacuum
      none (4, 0) invalid_request counting-IsTransactional (unfold execute_transaction in refl)

multiple_fuel_example :
    multiple_from 9 (115 ∷ 59 ∷ 116 ∷ []) ≡ multiple_from 4 (115 ∷ 59 ∷ 116 ∷ [])
multiple_fuel_example = multiple_fuel 9 4 (115 ∷ 59 ∷ 116 ∷ []) (omega arith) (omega arith)
