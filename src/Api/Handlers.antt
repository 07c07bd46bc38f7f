-- ===== src/Api/Handlers.antt =====
-- crates/api-server/src/handlers/kv.rs and database.rs: the handlers that write to a Cell and the one that
-- resets it, for a request of a tenant to a server with one node in its process (LocalProvider of client.rs).
-- A request of the platform itself, which may name the Cell of any tenant, is not modelled.
use combee.Prelude.{ℕ, ◌≡◌, String, Bool, Option, some, List, arith}
use combee.Prelude.Int.{ℤ, pos, ◌+ℤ◌, ◌≤ℤ◌, i64_max, i64_min, wrapping_add_lem}
use combee.Errors.{Result, ok, err, forbidden, cell_reset_failed}
use combee.Exec.{Exec}
use combee.Text.{Bytes}
use combee.Sqlite.{Sqlite}
use combee.Kv.{KvSetItem, Clock}
use combee.Cache.{Moka}
use combee.Manager.{Opening}
use combee.Node
use combee.Node.{Node, check_generation, generation_or_zero, guarded}
use combee.Node.Ops
use combee.Node.Ops.{kv_set, kv_del, kv_mset, kv_expire, kv_incr}
use combee.Catalog
use combee.Catalog.{Catalog, DatabaseRecord, get_database, on_record}
use combee.Catalog.Generations.{one_up_ne}
use combee.Usage.{UsageStore, UsageMeter, record_usage, kv_write}

-- The parts of `AppState` that these handlers use.
pub record Server (Conn Store S : Type 0) : Type 0 where
  pub catalog : Catalog
  pub usage : UsageMeter S
  pub node : Node Conn Store

module _ {Conn Store S : Type 0} (sq : Sqlite Conn) (moka : Moka Store) (st : UsageStore S) where
  abbrev pub on_node :
      {A : Type 0}
      → Server Conn Store S
      → Result A × Node Conn Store
      → Result A × Server Conn Store S
  on_node s r = (r.0, record s { node = r.1 })

  abbrev pub metered : ℕ → ℕ → ℤ → Server Conn Store S → Server Conn Store S
  metered tenant db now s = record s {
    usage = record_usage st tenant (some db) kv_write 1 now s.usage;
  }

  -- What the five handlers share: `require_db`, the count of the write, and the call of the node with
  -- the generation of the record.
  unfoldable pub serve_write :
      {A : Type 0} → ℕ → ℕ → ℤ → (ℤ → Exec (Node Conn Store) A) → Exec (Server Conn Store S) A
  unfolding get_database record_usage
  serve_write tenant db now write s = elim (get_database tenant db s.catalog) [
    | err e ↦ (err e, s)
    | ok r ↦ on_node (metered tenant db now s) (write r.generation s.node)
  ]

  abbrev pub serve_kv_set :
      ℕ
      → ℕ
      → Opening
      → String
      → Bytes
      → Option ℕ
      → Bool
      → Bool
      → ℕ
      → ℤ
      → ℤ
      → Exec (Server Conn Store S) Bool
  serve_kv_set tenant db o k v t nx xx stored now later =
      serve_write tenant db now (λ g. kv_set sq moka db o k v t nx xx g stored now later)

  abbrev pub serve_kv_del : ℕ → ℕ → Opening → String → ℤ → Exec (Server Conn Store S) Bool
  serve_kv_del tenant db o k now = serve_write tenant db now (kv_del sq moka db o k)

  abbrev pub serve_kv_mset :
      ℕ → ℕ → Opening → List KvSetItem → ℤ → Clock → Exec (Server Conn Store S) (Unit {0})
  serve_kv_mset tenant db o items now clock =
      serve_write tenant db now (λ g. kv_mset sq moka db o items g clock)

  abbrev pub serve_kv_expire :
      ℕ → ℕ → Opening → String → Option ℕ → ℤ → ℤ → Exec (Server Conn Store S) Bool
  serve_kv_expire tenant db o k t now later =
      serve_write tenant db now (λ g. kv_expire sq moka db o k t g now later)

  abbrev pub serve_kv_incr :
      ℕ → ℕ → Opening → String → ℤ → Option ℕ → ℤ → Exec (Server Conn Store S) ℤ
  serve_kv_incr tenant db o k d t now =
      serve_write tenant db now (λ g. kv_incr sq moka db o k d t g now)

  abbrev pub reset_record :
      ℕ
      → ℕ
      → Result (Unit {0}) × Node Conn Store
      → Server Conn Store S
      → Result DatabaseRecord × Server Conn Store S
  reset_record tenant db (err e, n) s = (err cell_reset_failed, record s { node = n })
  reset_record tenant db (ok u, n) s =
      let r = Catalog.reset_database tenant db s.catalog in
      (r.0, record s { node = n; catalog = r.1 })

  -- `reset_database` of database.rs; `removed` is how the removal of the files ends.
  unfoldable pub serve_reset :
      ℕ → ℕ → Result (Unit {0}) → Conn → Exec (Server Conn Store S) DatabaseRecord
  unfolding get_database Node.Ops.reset_database Catalog.reset_database
  serve_reset tenant db removed left s = elim (get_database tenant db s.catalog) [
    | err e ↦ (err e, s)
    | ok r ↦ reset_record tenant db (Node.Ops.reset_database sq moka db removed left s.node) s
  ]

  -- A request that writes and was refused as forbidden, with only the count of the write changed.
  abbrev pub Refused :
      {A : Type 0} → ℕ → ℕ → ℤ → Server Conn Store S → Exec (Server Conn Store S) A → Type 0
  Refused tenant db now s request = request s ≡ (err forbidden, metered tenant db now s)

  -- Take a Cell whose node expects the generation of the catalogue, which is below the largest
  -- `i64`, and a reset whose removal of the files succeeds. The node accepts the generation
  -- before; the reset answers with the record one generation on; afterwards each of the five
  -- requests that write to the Cell is refused as forbidden and changes nothing but the count of
  -- the write.
  pub reset_locks_out_writes :
      (tenant db : ℕ) (u : Unit {0}) (left : Conn) (s : Server Conn Store S) (r : DatabaseRecord)
      → s.catalog.databases tenant db ≡ some r
      → generation_or_zero (s.node.generations db) ≡ r.generation
      → i64_min ≤ℤ r.generation +ℤ pos 1
      → r.generation +ℤ pos 1 ≤ℤ i64_max
      → (o : Opening) (k : String) (v : Bytes) (t : Option ℕ) (nx xx : Bool)
        (items : List KvSetItem) (d : ℤ) (stored : ℕ) (now later : ℤ) (clock : Clock)
      → let reset = serve_reset tenant db (ok u) left s in
        let s' = reset.1 in
        (check_generation db r.generation s.node ≡ ok tt)
        × (reset.0 ≡ ok (record r { generation = r.generation +ℤ pos 1 }))
        × Refused tenant db now s' (serve_kv_set tenant db o k v t nx xx stored now later)
        × Refused tenant db now s' (serve_kv_del tenant db o k now)
        × Refused tenant db now s' (serve_kv_mset tenant db o items now clock)
        × Refused tenant db now s' (serve_kv_expire tenant db o k t now later)
        × Refused tenant db now s' (serve_kv_incr tenant db o k d t now)
  unfolding serve_reset serve_write get_database Node.Ops.reset_database Catalog.reset_database
      on_record check_generation kv_set kv_del kv_mset kv_expire kv_incr guarded
  reset_locks_out_writes tenant db u left s r there current lo hi o k v t nx xx items d stored now
        later clock =
      let g = wrapping_add_lem r.generation (pos 1) lo hi in
      let ne = one_up_ne r.generation in ground (arith, there, current, g, ne)
