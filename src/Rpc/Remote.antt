-- ===== src/Rpc/Remote.antt =====
-- crates/api-server/src/client.rs: RemoteDataNodeClient, each of whose methods is a call of its handler.
use combee.Rpc.{DataNodeClient, Line, Link, call}
use combee.Prelude.{ℕ, map}
use combee.Sqlite.{Sqlite}
use combee.Cache.{Moka}
use combee.Sql.Execute.{
  Engine, Libraries, SqlRequest, SqlResult, Json, null, compound, boolean, number, string, signed,
  large, fraction,
}
use combee.Rpc.Server.{
  rpc_execute_sql, rpc_execute_transaction, rpc_kv_get, rpc_kv_set, rpc_kv_del, rpc_kv_exists,
  rpc_kv_mget, rpc_kv_mset, rpc_kv_ttl, rpc_kv_expire, rpc_kv_incr, rpc_fence_cell,
  rpc_delete_database, rpc_reset_database,
}

-- A value of JSON that is printed and read again; `through` is what becomes of a fraction.
abbrev pub read_json : {F : Type 0} → (F → F) → Json F → Json F
read_json through null = null
read_json through compound = compound
read_json through (boolean b) = boolean b
read_json through (number (signed i)) = number (signed i)
read_json through (number (large n)) = number (large n)
read_json through (number (fraction f)) = number (fraction (through f))
read_json through (string s) = string s

abbrev pub sent : {F : Type 0} → (F → F) → SqlRequest F → SqlRequest F
sent through req = record req { params = map (read_json through) req.params }

abbrev pub read_result : {F : Type 0} → (F → F) → SqlResult F → SqlResult F
read_result through r = record r { rows = map (map (read_json through)) r.rows }

-- The texts, numbers and truth values of the KV requests and answers are read as they were printed.
module _ {F Conn Store : Type 0} (sq : Sqlite Conn) (moka : Moka Store) (lib : Libraries F)
    (en : Engine F Conn) (through : F → F) (link : Link) (fresh : ℕ) where
  unfoldable pub remote_client : DataNodeClient F Conn (Line Conn Store)
  unfolding call
  remote_client = record {
    execute_sql = λ t db req g.
        call link fresh (read_result through)
          (rpc_execute_sql sq moka lib en t db (sent through req) g);
    execute_transaction = λ t db reqs g.
        call link fresh (map (read_result through))
          (rpc_execute_transaction sq moka lib en t db (map (sent through) reqs) g);
    kv_get = λ t db key. call link fresh (λ a. a) (rpc_kv_get sq moka lib en t db key);
    kv_set = λ t db key req g. call link fresh (λ a. a) (rpc_kv_set sq moka lib en t db key req g);
    kv_del = λ t db key g. call link fresh (λ a. a) (rpc_kv_del sq moka lib en t db key g);
    kv_exists = λ t db key. call link fresh (λ a. a) (rpc_kv_exists sq moka lib en t db key);
    kv_mget = λ t db keys. call link fresh (λ a. a) (rpc_kv_mget sq moka lib en t db keys);
    kv_mset = λ t db items g. call link fresh (λ a. a) (rpc_kv_mset sq moka lib en t db items g);
    kv_ttl = λ t db key. call link fresh (λ a. a) (rpc_kv_ttl sq moka lib en t db key);
    kv_expire = λ t db req g. call link fresh (λ a. a) (rpc_kv_expire sq moka lib en t db req g);
    kv_incr = λ t db req g. call link fresh (λ a. a) (rpc_kv_incr sq moka lib en t db req g);
    fence_cell = λ t db g. call link fresh (λ a. a) (rpc_fence_cell sq moka lib en t db g);
    delete_database = λ t db. call link fresh (λ a. a) (rpc_delete_database sq moka lib en t db);
    reset_database = λ t db. call link fresh (λ a. a) (rpc_reset_database sq moka lib en t db);
  }
