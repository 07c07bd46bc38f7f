-- ===== src/Node/Ops.antt =====
-- crates/data-node/src/lib.rs: the KV operations of a node, and the maintenance round, deletion and
-- reset of a Cell. Every argument of type ℤ named for a moment is one reading of `unix_now`.
use combee.Prelude.{
  ℕ, ◌+◌, String, Bool, true, false, Option, none, some, List, [], ◌∷◌, if◌then◌else◌,
}
use combee.Prelude.Int.{ℤ}
use combee.Errors.{Result, ok, err}
use combee.Exec.{Exec, pure, ◌>>=◌, ◌>>◌}
use combee.Text.{Bytes}
use combee.Ttl.{expires_at_from}
use combee.Sqlite.{Sqlite}
use combee.Kv
use combee.Kv.{KvEntry, KvSetItem, Clock}
use combee.Cache
use combee.Cache.{KvCache, Moka}
use combee.Manager
use combee.Manager.{Manager, Opening, update}
use combee.Quota.{QuotaConfig, check_ttl, check_sizes, check_storage}
use combee.Node.{
  Node, Inside, on_conn, on_cache, with_conn, check_generation, check_writable, guarded, writable,
}

abbrev pub read_value : Option (Bytes × Option ℤ) → Option Bytes
read_value none = none
read_value (some (v, e)) = some v

abbrev pub all_hit : List (String × Option Bytes) → Bool
all_hit [] = true
all_hit ((k, some v) ∷ ks) = all_hit ks
all_hit ((k, none) ∷ ks) = false

abbrev pub hits_of : List (String × Option Bytes) → List (Option Bytes)
hits_of [] = []
hits_of ((k, v) ∷ ks) = v ∷ hits_of ks

module _ {Conn Store : Type 0} (sq : Sqlite Conn) (moka : Moka Store) where
  abbrev cached : ℕ → String → Option (Bytes × Option ℤ) → KvCache Store → KvCache Store
  cached db key none c = c
  cached db key (some (v, e)) c = Cache.put moka db key v e c

  -- Read a row and fill the cache with what is there.
  unfoldable pub fill_row : ℕ → String → ℤ → Exec (Inside Conn Store) (Option (Bytes × Option ℤ))
  fill_row db key read_now = do
    r ← on_conn (Kv.read_with_expiry sq key read_now)
    on_cache (cached db key r)
    pure r

  -- The locked part of GET.
  unfoldable pub fill : ℕ → String → ℤ → ℤ → Exec (Inside Conn Store) (Option KvEntry)
  fill db key now read_now = do r ← fill_row db key read_now; pure (Kv.entry now r)

  abbrev pub hit_or :
      {A : Type 0}
      → (KvEntry → A)
      → Exec (Node Conn Store) A
      → Node Conn Store
      → Option KvEntry × KvCache Store
      → Result A × Node Conn Store
  hit_or f miss n (some e, c) = (ok (f e), record n { cache = c })
  hit_or f miss n (none, c) = miss (record n { cache = c })

  unfoldable pub kv_get : ℕ → Opening → String → ℤ → ℤ → ℤ → Exec (Node Conn Store) (Option KvEntry)
  unfolding with_conn fill
  kv_get db o key now then_now read_now n =
      hit_or (λ e. some e) (with_conn db o (fill db key then_now read_now)) n
        (Cache.get moka db key now n.cache)

  -- The locked part of SET.
  unfoldable pub set_job :
      ℕ → String → Bytes → Option ℕ → Bool → Bool → ℤ → ℤ → Exec (Inside Conn Store) Bool
  set_job db key value ttl_seconds nx xx now put_now = do
    written ← on_conn (Kv.set sq key value ttl_seconds nx xx now)
    if written
        then (do
          on_cache (Cache.put moka db key value (expires_at_from ttl_seconds put_now))
          pure true)
        else pure false

  -- `current` is what `storage_bytes` returns.
  unfoldable pub kv_set :
      ℕ
      → Opening
      → String
      → Bytes
      → Option ℕ
      → Bool
      → Bool
      → ℤ
      → ℕ
      → ℤ
      → ℤ
      → Exec (Node Conn Store) Bool
  unfolding with_conn set_job check_generation check_writable check_ttl
  kv_set db o key value ttl_seconds nx xx generation current now put_now = writable db generation (
      guarded (λ n. check_ttl ttl_seconds n.quota)
        (guarded (λ n. check_sizes key value n.quota)
          (guarded (λ n. check_storage current value n.quota)
            (with_conn db o (set_job db key value ttl_seconds nx xx now put_now)))))

  unfoldable pub del_job : ℕ → String → Exec (Inside Conn Store) Bool
  del_job db key = do
    deleted ← on_conn (Kv.del sq key)
    if deleted then (do on_cache (Cache.invalidate moka db key); pure true) else pure false

  unfoldable pub kv_del : ℕ → Opening → String → ℤ → Exec (Node Conn Store) Bool
  unfolding with_conn del_job check_generation check_writable
  kv_del db o key generation = writable db generation (with_conn db o (del_job db key))

  unfoldable pub kv_exists : ℕ → Opening → String → ℤ → ℤ → Exec (Node Conn Store) Bool
  unfolding with_conn
  kv_exists db o key now read_now n =
      hit_or (λ e. true) (with_conn db o (on_conn (Kv.exists sq key read_now))) n
        (Cache.get moka db key now n.cache)

  -- The loop of MGET over the cache: what it holds of each key.
  unfoldable pub scan_cache :
      ℕ → ℤ → List String → KvCache Store → List (String × Option Bytes) × KvCache Store
  scan_cache db now [] c = ([], c)
  scan_cache db now (k ∷ ks) c =
      let (e, c') = Cache.get moka db k now c in
      let (rest, c'') = scan_cache db now ks c' in ((k, Kv.value_of e) ∷ rest, c'')

  -- The loop over the keys that missed.
  unfoldable pub fill_misses :
      ℕ → Clock → ℕ → List (String × Option Bytes) → Exec (Inside Conn Store) (List (Option Bytes))
  fill_misses db clock i [] = pure []
  fill_misses db clock i ((k, some v) ∷ ks) = do
    rest ← fill_misses db clock i ks
    pure (some v ∷ rest)
  fill_misses db clock i ((k, none) ∷ ks) = do
    r ← fill_row db k (clock i)
    rest ← fill_misses db clock (i + 1) ks
    pure (read_value r ∷ rest)

  abbrev pub mget_rest :
      ℕ
      → Opening
      → Clock
      → Node Conn Store
      → List (String × Option Bytes) × KvCache Store
      → Result (List (Option Bytes)) × Node Conn Store
  mget_rest db o clock n (found, c) =
      if all_hit found
      then (ok (hits_of found), record n { cache = c })
      else with_conn db o (fill_misses db clock 0 found) (record n { cache = c })

  unfoldable pub kv_mget :
      ℕ → Opening → List String → ℤ → Clock → Exec (Node Conn Store) (List (Option Bytes))
  unfolding with_conn scan_cache fill_misses
  kv_mget db o keys now clock n = mget_rest db o clock n (scan_cache db now keys n.cache)

  unfoldable pub check_items : List KvSetItem → QuotaConfig → Result (Unit {0})
  unfolding check_ttl
  check_items [] q = ok tt
  check_items (it ∷ items) q = elim (check_sizes it.key it.value q) [
    | err e ↦ err e
    | ok _ ↦ elim (check_ttl it.ttl_seconds q) [ err e ↦ err e | ok _ ↦ check_items items q ]
  ]

  -- The i-th item reads the clock at `i`, for the row, and at `i + 1`, for the cache.
  unfoldable pub mset_job : ℕ → Clock → ℕ → List KvSetItem → Exec (Inside Conn Store) (Unit {0})
  mset_job db clock i [] = pure tt
  mset_job db clock i (it ∷ items) = do
    set_job db it.key it.value it.ttl_seconds false false (clock i) (clock (i + 1))
    mset_job db clock (i + 2) items

  unfoldable pub kv_mset :
      ℕ → Opening → List KvSetItem → ℤ → Clock → Exec (Node Conn Store) (Unit {0})
  unfolding with_conn mset_job check_items check_generation check_writable
  kv_mset db o items generation clock =
      writable db generation
        (guarded (λ n. check_items items n.quota) (with_conn db o (mset_job db clock 0 items)))

  unfoldable pub kv_ttl : ℕ → Opening → String → ℤ → ℤ → Exec (Node Conn Store) (Option ℤ)
  unfolding with_conn
  kv_ttl db o key now read_now n =
      hit_or (λ e. e.ttl_seconds) (with_conn db o (on_conn (Kv.ttl sq key read_now))) n
        (Cache.get moka db key now n.cache)

  unfoldable pub expire_job : ℕ → String → Option ℕ → ℤ → ℤ → Exec (Inside Conn Store) Bool
  expire_job db key ttl_seconds now then_now = do
    updated ← on_conn (Kv.expire sq key ttl_seconds now then_now)
    if updated then (do on_cache (Cache.invalidate moka db key); pure true) else pure false

  unfoldable pub kv_expire :
      ℕ → Opening → String → Option ℕ → ℤ → ℤ → ℤ → Exec (Node Conn Store) Bool
  unfolding with_conn expire_job check_generation check_writable check_ttl
  kv_expire db o key ttl_seconds generation now then_now =
      guarded (check_generation db generation) (
        guarded (λ n. check_ttl ttl_seconds n.quota)
          (guarded (check_writable db)
            (with_conn db o (expire_job db key ttl_seconds now then_now))))

  unfoldable pub incr_job : ℕ → String → ℤ → Option ℕ → ℤ → Exec (Inside Conn Store) ℤ
  incr_job db key delta ttl_seconds now = do
    value ← on_conn (Kv.incr sq key delta ttl_seconds now)
    on_cache (Cache.invalidate moka db key)
    pure value

  unfoldable pub kv_incr : ℕ → Opening → String → ℤ → Option ℕ → ℤ → ℤ → Exec (Node Conn Store) ℤ
  unfolding with_conn incr_job check_generation check_writable check_ttl
  kv_incr db o key delta ttl_seconds generation now = guarded (check_generation db generation) (
      guarded (λ n. check_ttl ttl_seconds n.quota)
        (guarded (check_writable db) (with_conn db o (incr_job db key delta ttl_seconds now))))

  -- One round of the maintenance task; `now_secs` is what `unix_now` returns to `gc_expired`.
  unfoldable pub maintain : ℕ → ℤ → Node Conn Store → Node Conn Store
  maintain now now_secs n = record n {
    manager = Manager.maintain (λ c. (sq.gc now_secs 1000 c).1) now n.manager;
  }

  -- `removed` is what removing the files returns, `left` the Cell as it is afterwards.
  unfoldable pub delete_database : ℕ → Result (Unit {0}) → Conn → Exec (Node Conn Store) (Unit {0})
  delete_database db (err e) left n =
      (err e, record n { manager = Manager.delete_database db left n.manager })
  delete_database db (ok _) left n = (
    ok tt,
    record n {
      manager = Manager.delete_database db left n.manager;
      cache = Cache.clear_database moka db n.cache;
    },
  )

  unfoldable pub reset_database : ℕ → Result (Unit {0}) → Conn → Exec (Node Conn Store) (Unit {0})
  reset_database db removed left n = (
    removed,
    record n {
      manager = Manager.delete_database db left n.manager;
      cache = Cache.clear_database moka db n.cache;
    },
  )
