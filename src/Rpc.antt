-- ===== src/Rpc.antt =====
-- crates/common/src/rpc.rs, the handlers of crates/data-node/src/server.rs and the two clients of
-- crates/api-server/src/client.rs: the trait DataNodeClient as a record of its methods, the node in the process
-- behind it, and the node at the other end of an RPC.
pub mod Server
pub mod Remote
pub mod Fencing
use combee.Prelude.{ℕ, ◌+◌, String, Bool, Option, none, some, List}
use combee.Prelude.Int.{ℤ}
use combee.Errors.{CombeeError, Result, ok, err, kind, from_kind, internal}
use combee.Errors.Wire.{named_id}
use combee.Exec.{Exec}
use combee.Text.{Bytes}
use combee.Sqlite.{Sqlite}
use combee.Kv.{KvEntry, KvSetItem, Clock}
use combee.Cache.{Moka}
use combee.Manager.{Opening}
use combee.Node.{Node, fence_cell}
use combee.Node.Ops
use combee.Node.Queries
use combee.Sql.Execute.{Engine, Libraries, SqlRequest, SqlResult}

-- `RpcResponse`; of a message, the identifier it ends with is kept.
pub data RpcResponse (A : Type 0) : Type 0 where
  ok_data : A → RpcResponse A
  err_kind : String → Option ℕ → RpcResponse A

unfoldable pub from_result : {A : Type 0} → Result A → RpcResponse A
unfolding kind
from_result (ok a) = ok_data a
from_result (err e) = err_kind (kind e) (named_id e)

-- `fresh` is the identifier that takes the place of one that the message lacks.
unfoldable pub into_result : {A : Type 0} → ℕ → RpcResponse A → Result A
unfolding from_kind
into_result fresh (ok_data a) = ok a
into_result fresh (err_kind k tail) = err (from_kind k tail fresh)

-- The JSON of a response, read again.
abbrev pub read_back : {A : Type 0} → (A → A) → RpcResponse A → RpcResponse A
read_back read (ok_data a) = ok_data (read a)
read_back read (err_kind k tail) = err_kind k tail

pub record KvSetRequest : Type 0 where
  pub value : Bytes
  pub ttl_seconds : Option ℕ
  pub nx : Bool
  pub xx : Bool

pub record KvIncrRequest : Type 0 where
  pub key : String
  pub delta : ℤ
  pub ttl_seconds : Option ℕ

pub record KvExpireRequest : Type 0 where
  pub key : String
  pub ttl_seconds : Option ℕ

-- What an operation meets at its node: the opening of the Cell, the readings of the clock, the size of
-- its file, how the removal of its files ends, and what a removal leaves.
pub record Moment (Conn : Type 0) : Type 0 where
  pub opening : Opening
  pub now : ℤ
  pub then_now : ℤ
  pub read_now : ℤ
  pub clock : Clock
  pub stored : ℕ
  pub removed : Result (Unit {0})
  pub left : Conn

-- The methods of the trait, over a state, that work on a Cell.
pub record DataNodeClient (F Conn S : Type 0) : Type 0 where
  pub execute_sql : Moment Conn → ℕ → SqlRequest F → ℤ → Exec S (SqlResult F)
  pub execute_transaction : Moment Conn → ℕ → List (SqlRequest F) → ℤ → Exec S (List (SqlResult F))
  pub kv_get : Moment Conn → ℕ → String → Exec S (Option KvEntry)
  pub kv_set : Moment Conn → ℕ → String → KvSetRequest → ℤ → Exec S Bool
  pub kv_del : Moment Conn → ℕ → String → ℤ → Exec S Bool
  pub kv_exists : Moment Conn → ℕ → String → Exec S Bool
  pub kv_mget : Moment Conn → ℕ → List String → Exec S (List (Option Bytes))
  pub kv_mset : Moment Conn → ℕ → List KvSetItem → ℤ → Exec S (Unit {0})
  pub kv_ttl : Moment Conn → ℕ → String → Exec S (Option ℤ)
  pub kv_expire : Moment Conn → ℕ → KvExpireRequest → ℤ → Exec S Bool
  pub kv_incr : Moment Conn → ℕ → KvIncrRequest → ℤ → Exec S ℤ
  pub fence_cell : Moment Conn → ℕ → ℤ → Exec S (Unit {0})
  pub delete_database : Moment Conn → ℕ → Exec S (Unit {0})
  pub reset_database : Moment Conn → ℕ → Exec S (Unit {0})

-- How a call goes: the request does not arrive, the answer does not come back or does not read, or both
-- arrive.
pub data Link : Type 0 where
  unreachable lost works : Link

-- A node and how often the `on_error` hook of its client has run.
pub record Line (Conn Store : Type 0) : Type 0 where
  pub node : Node Conn Store
  pub hook_runs : ℕ

module _ {Conn Store : Type 0} where
  abbrev pub notified : Node Conn Store → Line Conn Store → Line Conn Store
  notified n l = record { node = n; hook_runs = l.hook_runs + 1 }

  -- `RemoteDataNodeClient::call` of a handler, with `notify_error`; `read` is what the JSON of an answer
  -- reads as.
  unfoldable pub call :
      {A : Type 0}
      → Link
      → ℕ
      → (A → A)
      → (Node Conn Store → RpcResponse A × Node Conn Store)
      → Exec (Line Conn Store) A
  unfolding into_result
  call unreachable fresh read handler l = (err internal, notified l.node l)
  call lost fresh read handler l = (err internal, notified (handler l.node).1 l)
  call works fresh read handler l = (
    into_result fresh (read_back read (handler l.node).0),
    record l { node = (handler l.node).1 },
  )

  -- The answer of a handler.
  abbrev pub replied : {A : Type 0} → Result A × Node Conn Store → RpcResponse A × Node Conn Store
  replied r = (from_result r.0, r.1)

module _ {F Conn Store : Type 0} (sq : Sqlite Conn) (moka : Moka Store) (lib : Libraries F)
    (en : Engine F Conn) where
  -- `LocalDataNodeClient`
  abbrev pub local_client : DataNodeClient F Conn (Node Conn Store)
  local_client = record {
    execute_sql = λ t db req g. Queries.execute_sql lib en db t.opening req g;
    execute_transaction = λ t db reqs g. Queries.execute_transaction lib en db t.opening reqs g;
    kv_get = λ t db key. Ops.kv_get sq moka db t.opening key t.now t.then_now t.read_now;
    kv_set = λ t db key req g.
        Ops.kv_set sq moka db t.opening key req.value req.ttl_seconds req.nx req.xx g t.stored t.now
          t.then_now;
    kv_del = λ t db key g. Ops.kv_del sq moka db t.opening key g;
    kv_exists = λ t db key. Ops.kv_exists sq moka db t.opening key t.now t.read_now;
    kv_mget = λ t db keys. Ops.kv_mget sq moka db t.opening keys t.now t.clock;
    kv_mset = λ t db items g. Ops.kv_mset sq moka db t.opening items g t.clock;
    kv_ttl = λ t db key. Ops.kv_ttl sq moka db t.opening key t.now t.read_now;
    kv_expire =
        λ t db req g. Ops.kv_expire sq moka db t.opening req.key req.ttl_seconds g t.now t.then_now;
    kv_incr =
        λ t db req g. Ops.kv_incr sq moka db t.opening req.key req.delta req.ttl_seconds g t.now;
    fence_cell = λ t db g n. (ok tt, fence_cell db g n);
    delete_database = λ t db. Ops.delete_database sq moka db t.removed t.left;
    reset_database = λ t db. Ops.reset_database sq moka db t.removed t.left;
  }
