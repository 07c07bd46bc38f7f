-- ===== src/Rpc/Fencing.antt =====
-- crates/api-server/src/client.rs, crates/data-node/src/server.rs and crates/data-node/src/lib.rs: a fence that is
-- set over an RPC, and the writes that come after it.
use combee.Prelude.{ℕ, ◌≡◌, refl, Bool, true, false, String, List, map, arith}
use combee.Prelude.Int.{ℤ, eq_ℤ}
use combee.Errors.{Result, ok, err, internal, forbidden, kind, from_kind}
use combee.Sqlite.{Sqlite}
use combee.Kv.{KvSetItem}
use combee.Cache.{Moka}
use combee.Node.{Node, fence_cell, check_generation, guarded}
use combee.Node.Ops
use combee.Node.Queries
use combee.Sql.Execute.{Engine, Libraries, SqlRequest}
use combee.Rpc.{
  DataNodeClient, KvSetRequest, KvIncrRequest, KvExpireRequest, Moment, Link, unreachable, lost,
  works, Line, from_result, into_result, call, replied,
}
use combee.Rpc.Remote.{remote_client, sent, read_result}

-- Whether the request of a call gets to its node.
abbrev pub arrives : Link → Bool
arrives unreachable = false
arrives lost = true
arrives works = true

abbrev pub answer_by : Link → Result (Unit {0})
answer_by unreachable = err internal
answer_by lost = err internal
answer_by works = ok tt

module _ {F Conn Store : Type 0} (sq : Sqlite Conn) (moka : Moka Store) (lib : Libraries F)
    (en : Engine F Conn) (through : F → F) where
  generation_fenced :
      (db : ℕ) (g stale : ℤ) (n : Node Conn Store)
      → eq_ℤ stale g ≡ false
      → check_generation db stale (fence_cell db g n) ≡ err forbidden
  unfolding check_generation fence_cell
  generation_fenced db g stale n ne = ground (arith, ne)

  call_forbidden :
      {A : Type 0} (fresh : ℕ) (read : A → A) (m : Node Conn Store → Result A × Node Conn Store)
      (l : Line Conn Store)
      → m l.node ≡ (err forbidden, l.node)
      → call works fresh read (λ n. replied (m n)) l ≡ (err forbidden, l)
  unfolding call into_result from_result kind from_kind
  call_forbidden fresh read m l h = rw h refl

  -- What a node refuses for its generation is refused over the RPC.
  refused :
      (fresh db : ℕ) (stale : ℤ) (t : Moment Conn) (key : String) (set : KvSetRequest)
      (items : List KvSetItem) (expire : KvExpireRequest) (incr : KvIncrRequest)
      (query : SqlRequest F) (queries : List (SqlRequest F)) (l : Line Conn Store)
      → check_generation db stale l.node ≡ err forbidden
      → let far : DataNodeClient F Conn (Line Conn Store) =
          remote_client sq moka lib en through works fresh in
        (far.kv_set t db key set stale l ≡ (err forbidden, l))
        × (far.kv_del t db key stale l ≡ (err forbidden, l))
        × (far.kv_mset t db items stale l ≡ (err forbidden, l))
        × (far.kv_expire t db expire stale l ≡ (err forbidden, l))
        × (far.kv_incr t db incr stale l ≡ (err forbidden, l))
        × (far.execute_sql t db query stale l ≡ (err forbidden, l))
        × (far.execute_transaction t db queries stale l ≡ (err forbidden, l))
  unfolding remote_client Ops.kv_set Ops.kv_del Ops.kv_mset Ops.kv_expire Ops.kv_incr
      Queries.execute_sql Queries.execute_transaction guarded
  refused fresh db stale t key set items expire incr query queries l stopped = (
    call_forbidden fresh (λ a. a)
        (Ops.kv_set sq moka db t.opening key set.value set.ttl_seconds set.nx set.xx stale t.stored
          t.now t.then_now)
        l (ground (arith, stopped)),
    call_forbidden fresh (λ a. a) (Ops.kv_del sq moka db t.opening key stale) l
        (ground (arith, stopped)),
    call_forbidden fresh (λ a. a) (Ops.kv_mset sq moka db t.opening items stale t.clock) l
        (ground (arith, stopped)),
    call_forbidden fresh (λ a. a)
        (Ops.kv_expire sq moka db t.opening expire.key expire.ttl_seconds stale t.now t.then_now) l
        (ground (arith, stopped)),
    call_forbidden fresh (λ a. a)
        (Ops.kv_incr sq moka db t.opening incr.key incr.delta incr.ttl_seconds stale t.now) l
        (ground (arith, stopped)),
    call_forbidden fresh (read_result through)
        (Queries.execute_sql lib en db t.opening (sent through query) stale) l
        (ground (arith, stopped)),
    call_forbidden fresh (map (read_result through))
        (Queries.execute_transaction lib en db t.opening (map (sent through) queries) stale) l
        (ground (arith, stopped)),
  )

  -- Take a fence of a Cell that is set over an RPC whose request gets to its node, whether or not
  -- the answer comes back. The fence succeeds if its answer comes back and ends with an internal
  -- error if not; and afterwards each of the five writes of keys, a statement and a transaction
  -- that carry another generation, sent over a link that works, come back as forbidden, leave the
  -- node as it is and do not run the hook of the client.
  pub fence_cell_over_rpc :
      (link : Link) (fresh fresh' db : ℕ) (g stale : ℤ) (t t' : Moment Conn) (key : String)
      (set : KvSetRequest) (items : List KvSetItem) (expire : KvExpireRequest)
      (incr : KvIncrRequest) (query : SqlRequest F) (queries : List (SqlRequest F))
      (l : Line Conn Store)
      → arrives link ≡ true
      → eq_ℤ stale g ≡ false
      → let fenced = (remote_client sq moka lib en through link fresh).fence_cell t db g l in
        let l' = fenced.1 in
        let far : DataNodeClient F Conn (Line Conn Store) =
          remote_client sq moka lib en through works fresh' in
        (fenced.0 ≡ answer_by link)
        × (far.kv_set t' db key set stale l' ≡ (err forbidden, l'))
        × (far.kv_del t' db key stale l' ≡ (err forbidden, l'))
        × (far.kv_mset t' db items stale l' ≡ (err forbidden, l'))
        × (far.kv_expire t' db expire stale l' ≡ (err forbidden, l'))
        × (far.kv_incr t' db incr stale l' ≡ (err forbidden, l'))
        × (far.execute_sql t' db query stale l' ≡ (err forbidden, l'))
        × (far.execute_transaction t' db queries stale l' ≡ (err forbidden, l'))
  unfolding remote_client call fence_cell into_result from_result
  fence_cell_over_rpc unreachable fresh fresh' db g stale t t' key set items expire incr query
        queries l there ne =
      absurd (ground (arith, there))
  fence_cell_over_rpc lost fresh fresh' db g stale t t' key set items expire incr query queries l
        there ne =
      let fenced = (remote_client sq moka lib en through lost fresh).fence_cell t db g l in
      let stopped = generation_fenced db g stale l.node ne in
      let (set_ok, del, mset, exp, inc, sql, txn) =
        refused fresh' db stale t' key set items expire incr query queries fenced.1 stopped in
      (refl, set_ok, del, mset, exp, inc, sql, txn)
  fence_cell_over_rpc works fresh fresh' db g stale t t' key set items expire incr query queries l
        there ne =
      let fenced = (remote_client sq moka lib en through works fresh).fence_cell t db g l in
      let stopped = generation_fenced db g stale l.node ne in
      let (set_ok, del, mset, exp, inc, sql, txn) =
        refused fresh' db stale t' key set items expire incr query queries fenced.1 stopped in
      (refl, set_ok, del, mset, exp, inc, sql, txn)
