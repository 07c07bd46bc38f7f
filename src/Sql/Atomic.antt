-- ===== src/Sql/Atomic.antt =====
-- crates/data-node/src/sql.rs: a transaction is done as a whole or not at all.
use combee.Prelude.{◌≡◌, refl, Option, List, [], ◌∷◌, arith, String, inl, inr}
use combee.Errors.{CombeeError, ok, err, Result-cases}
use combee.Text.{Bytes}
use combee.Quota.{QuotaConfig}
use combee.Sql.Check.{check_statement}
use combee.Sql.Execute.{
  max_rows_of, max_bytes_of, Libraries, SqlValue, Engine, SqlRequest, collect, to_sql_values,
  executed, execute_sql_quota, execute_all, in_transaction, execute_transaction,
}

-- What SQLite promises of transactions: `saved` is what a connection has to come back to. The
-- statements of users neither end a transaction nor begin one, which the sandbox sees to.
pub record IsTransactional {F Conn Content : Type 0} (en : Engine F Conn)
    (content saved : Conn → Content) : Type 0 where
  pub begins : (c : Conn) → (en.begin c).0 ≡ ok tt → saved (en.begin c).1 ≡ content c
  pub fails :
      (c : Conn) (e : CombeeError) → (en.begin c).0 ≡ err e → content (en.begin c).1 ≡ content c
  pub queries :
      (sql : Bytes) (values : List (SqlValue F)) (c : Conn)
      → saved (en.query sql values c).1 ≡ saved c
  pub changes :
      (sql : Bytes) (values : List (SqlValue F)) (c : Conn)
      → saved (en.execute sql values c).1 ≡ saved c
  pub commits :
      (c : Conn) (e : CombeeError) → (en.commit c).0 ≡ err e → saved (en.commit c).1 ≡ saved c
  pub restores : (c : Conn) → content (en.rollback c) ≡ saved c

module _ {F Conn Content : Type 0} (lib : Libraries F) (en : Engine F Conn)
    (content saved : Conn → Content) where
  executed-saved :
      (good : IsTransactional en content saved) (quota : Option QuotaConfig) (sql : Bytes)
      (values : List (SqlValue F)) (columns : List String) (c : Conn)
      → saved (executed lib en quota sql values columns c).1 ≡ saved c
  executed-saved good quota sql values [] c = elim (Result-cases (en.execute sql values c).0) [
    | inl (n, z) ↦ ground (arith, z, good.changes sql values c)
    | inr (e, z) ↦ ground (arith, z, good.changes sql values c)
  ]
  executed-saved good quota sql values (k ∷ ks) c = elim (Result-cases (en.query sql values c).0) [
    | inr (e, z) ↦ ground (arith, z, good.queries sql values c)
    | inl (rs, z) ↦
        elim (Result-cases (collect lib (max_rows_of quota) (max_bytes_of quota) rs 0 0)) [
          | inl (o, y) ↦ ground (arith, z, y, good.queries sql values c)
          | inr (e, y) ↦ ground (arith, z, y, good.queries sql values c)
        ]
  ]

  execute_sql_quota-saved :
      (good : IsTransactional en content saved) (req : SqlRequest F) (quota : Option QuotaConfig)
      (c : Conn)
      → saved (execute_sql_quota lib en req quota c).1 ≡ saved c
  unfolding execute_sql_quota
  execute_sql_quota-saved good req quota c = elim (Result-cases (check_statement req.sql)) [
    | inr (e, a) ↦ ground (arith, a)
    | inl (u, a) ↦ elim (Result-cases (to_sql_values lib req.params)) [
      | inr (e, b) ↦ ground (arith, a, b)
      | inl (values, b) ↦ elim (Result-cases (en.prepare req.sql c)) [
        | inr (e, d) ↦ ground (arith, a, b, d)
        | inl (columns, d) ↦
            ground (arith, a, b, d, executed-saved good quota req.sql values columns c)
      ]
    ]
  ]

  execute_all-saved :
      (good : IsTransactional en content saved) (sts : List (SqlRequest F))
      (quota : Option QuotaConfig) (c : Conn)
      → saved (execute_all lib en sts quota c).1 ≡ saved c
  unfolding execute_all
  execute_all-saved good [] quota c = refl
  execute_all-saved good (st ∷ sts) quota c =
      let c1 = (execute_sql_quota lib en st quota c).1 in
      let first = execute_sql_quota-saved good st quota c in
      let others = execute_all-saved good sts quota c1 in
      elim (Result-cases (execute_sql_quota lib en st quota c).0) [
        | inr (e, z) ↦ ground (arith, z, first)
        | inl (r, z) ↦ elim (Result-cases (execute_all lib en sts quota c1).0) [
          | inr (e, y) ↦ ground (arith, z, y, first, others)
          | inl (rs, y) ↦ ground (arith, z, y, first, others)
        ]
      ]

  in_transaction-saved :
      (good : IsTransactional en content saved) (sts : List (SqlRequest F))
      (quota : Option QuotaConfig) (c : Conn) (e : CombeeError)
      → (in_transaction lib en sts quota c).0 ≡ err e
      → saved (in_transaction lib en sts quota c).1 ≡ saved c
  in_transaction-saved good sts quota c e h =
      let c1 = (execute_all lib en sts quota c).1 in
      let ran = execute_all-saved good sts quota c in
      elim (Result-cases (execute_all lib en sts quota c).0) [
        | inr (x, z) ↦ ground (arith, z, ran)
        | inl (rs, z) ↦ elim (Result-cases (en.commit c1).0) [
          | inr (x, y) ↦ ground (arith, z, y, ran, good.commits c1 x y)
          | inl (u, y) ↦ ground (arith, h, z, y)
        ]
      ]

  -- Over a connection on which rolling back restores what was there when the transaction began, a
  -- transaction that is answered with an error, at whichever statement or at the commit, leaves
  -- the content as it was before.
  pub failed_transaction_changes_nothing :
      (sts : List (SqlRequest F)) (quota : Option QuotaConfig) (c : Conn) (e : CombeeError)
      → IsTransactional en content saved
      → (execute_transaction lib en sts quota c).0 ≡ err e
      → content (execute_transaction lib en sts quota c).1 ≡ content c
  unfolding execute_transaction
  failed_transaction_changes_nothing [] quota c e good h = refl
  failed_transaction_changes_nothing (st ∷ sts) quota c e good h =
      let c1 = (en.begin c).1 in
      let run = in_transaction lib en (st ∷ sts) quota c1 in
      elim (Result-cases (en.begin c).0) [
        | inr (x, z) ↦ ground (arith, z, good.fails c x z)
        | inl (u, z) ↦ elim (Result-cases run.0) [
          | inl (rs, y) ↦ ground (arith, h, z, y)
          | inr (x, y) ↦ ground (
            arith,
            z,
            y,
            good.restores run.1,
            in_transaction-saved good (st ∷ sts) quota c1 x y,
            good.begins c z,
          )
        ]
      ]
