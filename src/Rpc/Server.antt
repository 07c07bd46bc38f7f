-- ===== src/Rpc/Server.antt =====
-- crates/data-node/src/server.rs: the handlers of the RPCs that work on a Cell, by the fields of their requests.
use combee.Prelude.{ℕ, String, Bool, Option, List}
use combee.Prelude.Int.{ℤ}
use combee.Errors.{ok}
use combee.Text.{Bytes}
use combee.Sqlite.{Sqlite}
use combee.Kv.{KvEntry, KvSetItem}
use combee.Cache.{Moka}
use combee.Node.{Node, fence_cell}
use combee.Node.Ops
use combee.Node.Queries
use combee.Sql.Execute.{Engine, Libraries, SqlRequest, SqlResult}
use combee.Rpc.{RpcResponse, Moment, KvSetRequest, KvIncrRequest, KvExpireRequest, replied}

module _ {F Conn Store : Type 0} (sq : Sqlite Conn) (moka : Moka Store) (lib : Libraries F)
    (en : Engine F Conn) where
  abbrev pub rpc_execute_sql :
      Moment Conn
      → ℕ
      → SqlRequest F
      → ℤ
      → Node Conn Store
      → RpcResponse (SqlResult F) × Node Conn Store
  rpc_execute_sql t db req g n = replied (Queries.execute_sql lib en db t.opening req g n)

  abbrev pub rpc_execute_transaction :
      Moment Conn
      → ℕ
      → List (SqlRequest F)
      → ℤ
      → Node Conn Store
      → RpcResponse (List (SqlResult F)) × Node Conn Store
  rpc_execute_transaction t db reqs g n =
      replied (Queries.execute_transaction lib en db t.opening reqs g n)

  abbrev pub rpc_kv_get :
      Moment Conn → ℕ → String → Node Conn Store → RpcResponse (Option KvEntry) × Node Conn Store
  rpc_kv_get t db key n =
      replied (Ops.kv_get sq moka db t.opening key t.now t.then_now t.read_now n)

  abbrev pub rpc_kv_set :
      Moment Conn
      → ℕ
      → String
      → KvSetRequest
      → ℤ
      → Node Conn Store
      → RpcResponse (Bool) × Node Conn Store
  rpc_kv_set t db key req g n = replied (
      Ops.kv_set sq moka db t.opening key req.value req.ttl_seconds req.nx req.xx g t.stored t.now
        t.then_now n)

  abbrev pub rpc_kv_del :
      Moment Conn → ℕ → String → ℤ → Node Conn Store → RpcResponse (Bool) × Node Conn Store
  rpc_kv_del t db key g n = replied (Ops.kv_del sq moka db t.opening key g n)

  abbrev pub rpc_kv_exists :
      Moment Conn → ℕ → String → Node Conn Store → RpcResponse (Bool) × Node Conn Store
  rpc_kv_exists t db key n = replied (Ops.kv_exists sq moka db t.opening key t.now t.read_now n)

  abbrev pub rpc_kv_mget :
      Moment Conn
      → ℕ
      → List String
      → Node Conn Store
      → RpcResponse (List (Option Bytes)) × Node Conn Store
  rpc_kv_mget t db keys n = replied (Ops.kv_mget sq moka db t.opening keys t.now t.clock n)

  abbrev pub rpc_kv_mset :
      Moment Conn
      → ℕ
      → List KvSetItem
      → ℤ
      → Node Conn Store
      → RpcResponse (Unit {0}) × Node Conn Store
  rpc_kv_mset t db items g n = replied (Ops.kv_mset sq moka db t.opening items g t.clock n)

  abbrev pub rpc_kv_ttl :
      Moment Conn → ℕ → String → Node Conn Store → RpcResponse (Option ℤ) × Node Conn Store
  rpc_kv_ttl t db key n = replied (Ops.kv_ttl sq moka db t.opening key t.now t.read_now n)

  abbrev pub rpc_kv_expire :
      Moment Conn → ℕ → KvExpireRequest → ℤ → Node Conn Store → RpcResponse (Bool) × Node Conn Store
  rpc_kv_expire t db req g n =
      replied (Ops.kv_expire sq moka db t.opening req.key req.ttl_seconds g t.now t.then_now n)

  abbrev pub rpc_kv_incr :
      Moment Conn → ℕ → KvIncrRequest → ℤ → Node Conn Store → RpcResponse (ℤ) × Node Conn Store
  rpc_kv_incr t db req g n =
      replied (Ops.kv_incr sq moka db t.opening req.key req.delta req.ttl_seconds g t.now n)

  abbrev pub rpc_fence_cell :
      Moment Conn → ℕ → ℤ → Node Conn Store → RpcResponse (Unit {0}) × Node Conn Store
  rpc_fence_cell t db g n = replied (ok tt, fence_cell db g n)

  abbrev pub rpc_delete_database :
      Moment Conn → ℕ → Node Conn Store → RpcResponse (Unit {0}) × Node Conn Store
  rpc_delete_database t db n = replied (Ops.delete_database sq moka db t.removed t.left n)

  abbrev pub rpc_reset_database :
      Moment Conn → ℕ → Node Conn Store → RpcResponse (Unit {0}) × Node Conn Store
  rpc_reset_database t db n = replied (Ops.reset_database sq moka db t.removed t.left n)
