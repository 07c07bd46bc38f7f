-- ===== src/Node/Queries.antt =====
-- crates/data-node/src/lib.rs: SQL on a Cell, with the guards of a write and the limits of the node. SQLite is the
-- engine of Sql.Execute; the timeout of a query, which is off by default, is not modelled.
use combee.Prelude.{ℕ, ◌≡◌, false, some, List, arith}
use combee.Prelude.Int.{ℤ, eq_ℤ}
use combee.Errors.{err, forbidden}
use combee.Exec.{Exec}
use combee.Manager.{Opening}
use combee.Node.{
  Node, with_conn, on_conn, writable, guarded, check_generation, check_writable, fence_cell,
}
use combee.Sql.Execute
use combee.Sql.Execute.{Engine, Libraries, SqlRequest, SqlResult}

module _ {F Conn Store : Type 0} (lib : Libraries F) (en : Engine F Conn) where
  unfoldable pub execute_sql : ℕ → Opening → SqlRequest F → ℤ → Exec (Node Conn Store) (SqlResult F)
  unfolding with_conn check_generation check_writable Execute.execute_sql_quota
  execute_sql db o req generation n =
      writable db generation
        (with_conn db o (on_conn (Execute.execute_sql_quota lib en req (some n.quota)))) n

  unfoldable pub execute_transaction :
      ℕ → Opening → List (SqlRequest F) → ℤ → Exec (Node Conn Store) (List (SqlResult F))
  unfolding with_conn check_generation check_writable Execute.execute_transaction
  execute_transaction db o reqs generation n =
      writable db generation
        (with_conn db o (on_conn (Execute.execute_transaction lib en reqs (some n.quota)))) n

  -- After a fence, SQL that carries another generation is refused and changes nothing.
  pub fenced_queries :
      (db : ℕ) (g stale : ℤ) (o : Opening) (req : SqlRequest F) (reqs : List (SqlRequest F))
      (n : Node Conn Store)
      → eq_ℤ stale g ≡ false
      → let n' = fence_cell db g n in
        (execute_sql db o req stale n' ≡ (err forbidden, n'))
        × (execute_transaction db o reqs stale n' ≡ (err forbidden, n'))
  unfolding fence_cell execute_sql execute_transaction guarded check_generation
  fenced_queries db g stale o req reqs n ne = (ground (arith, ne), ground (arith, ne))
