-- ===== src/Node.antt =====
-- crates/data-node/src/lib.rs: a data node. Each operation checks its guards, then works on the
-- Cell's connection and the shared cache. The per-Cell lock makes the locked part of an operation
-- one step; the lookup in the cache before it is part of the same step here.
-- The state, the guards and `with_conn` are here, the operations in `Ops`.
pub mod Ops
pub mod Coherence
pub mod Jobs
pub mod Invariant
pub mod Calls
pub mod Histories
pub mod Answers
pub mod Batch
pub mod Queries
use Prim.Native.String.{len}
use combee.Prelude.{
  ℕ, ◌+◌, ◌-◌, ◌^◌, String, Bool, true, false, not, ◌||◌, Option, none, some, List, [], ◌∷◌, length,
  min, ltb, ◌==◌, if◌then◌else◌,
}
use combee.Prelude.Int.{ℤ, pos, eq_ℤ}
use combee.Errors.{Result, ok, err, forbidden, internal, quota_exceeded}
use combee.Exec.{Exec, pure, raise, lift, ◌>>=◌, ◌>>◌}
use combee.Text.{Bytes}
use combee.Ttl.{expires_at_from, ttl_or_remaining}
use combee.Sqlite.{Sqlite}
use combee.Kv
use combee.Kv.{KvEntry, KvSetItem, Clock}
use combee.Cache
use combee.Cache.{KvCache, Moka}
use combee.Manager
use combee.Manager.{Manager, Opening, update}
use combee.Quota.{QuotaConfig, check}

pub record Node (Conn Store : Type 0) : Type 0 where
  pub manager : Manager Conn
  pub cache : KvCache Store
  -- `generations`: a Cell that was never fenced has none.
  pub generations : ℕ → Option ℤ
  pub quota : QuotaConfig

-- What the closure of an operation works on: the Cell's connection and the cache.
pub record Inside (Conn Store : Type 0) : Type 0 where
  pub conn : Conn
  pub cache : KvCache Store

abbrev pub generation_or_zero : Option ℤ → ℤ
generation_or_zero none = pos 0
generation_or_zero (some g) = g

module _ {Conn Store : Type 0} where
  -- A call of the functions of `kv.rs` inside the closure.
  abbrev pub on_conn : {A : Type 0} → Exec Conn A → Exec (Inside Conn Store) A
  on_conn m i = ((m i.conn).0, record i { conn = (m i.conn).1 })

  abbrev pub on_cache : (KvCache Store → KvCache Store) → Exec (Inside Conn Store) (Unit {0})
  on_cache f i = (ok tt, record i { cache = f i.cache })

  abbrev pub inside : ℕ → Node Conn Store → Inside Conn Store
  inside db n = record { conn = n.manager.cells db; cache = n.cache }

  abbrev pub run_inside :
      {A : Type 0}
      → ℕ
      → Opening
      → Node Conn Store
      → Result A × Inside Conn Store
      → Result A × Node Conn Store
  run_inside db o n (r, i) =
      (r, record n { manager = Manager.finish db o i.conn n.manager; cache = i.cache })

  abbrev pub enter :
      {A : Type 0}
      → ℕ
      → Opening
      → Exec (Inside Conn Store) A
      → Node Conn Store
      → Result (Unit {0}) × Manager Conn
      → Result A × Node Conn Store
  enter db o f n (err e, m) = (err e, record n { manager = m })
  enter db o f n (ok _, m) =
      run_inside db o (record n { manager = m }) (f (record { conn = m.cells db; cache = n.cache }))

  -- `ActiveDbManager::with_conn`
  unfoldable pub with_conn :
      {A : Type 0} → ℕ → Opening → Exec (Inside Conn Store) A → Exec (Node Conn Store) A
  with_conn db o f n = enter db o f n (Manager.acquire db o n.manager)

  unfoldable pub fence_cell : ℕ → ℤ → Node Conn Store → Node Conn Store
  fence_cell db generation n = record n { generations = update n.generations db (some generation) }

  unfoldable pub check_generation : ℕ → ℤ → Node Conn Store → Result (Unit {0})
  check_generation db generation n =
      check (not (eq_ℤ generation (generation_or_zero (n.generations db)))) (err forbidden)

  unfoldable pub check_writable : ℕ → Node Conn Store → Result (Unit {0})
  check_writable db n = check (n.manager.readonly db) (err internal)

  unfoldable pub guarded :
      {A : Type 0}
      → (Node Conn Store → Result (Unit {0}))
      → Exec (Node Conn Store) A
      → Exec (Node Conn Store) A
  guarded g m n = elim (g n) [ err e ↦ (err e, n) | ok _ ↦ m n ]

  -- The checks that every write starts with.
  abbrev pub writable : {A : Type 0} → ℕ → ℤ → Exec (Node Conn Store) A → Exec (Node Conn Store) A
  writable db generation m =
      guarded (check_generation db generation) (guarded (check_writable db) m)
