-- ===== src/Node/Calls.antt =====
-- The calls a node of crates/data-node/src/lib.rs serves, as data, and its histories.
use combee.Prelude.{
  ℕ, String, ◌≡◌, refl, inl, inr, Bool, true, Option, none, some, List, [], ◌∷◌, arith,
  Option-cases, Bool-cases, ◌==◌, if◌then◌else◌,
}
use combee.Prelude.Int.{ℤ}
use combee.Errors.{Result, ok, Result-cases}
use combee.Exec.{Exec}
use combee.Text.{Bytes}
use combee.Sqlite.{Sqlite}
use combee.Kv.{KvSetItem, KvEntry}
use combee.Cache
use combee.Cache.{CacheKey, CachedValue, KvCache, Moka, cache_key, same_key, lists}
use combee.Manager
use combee.Manager.{Entry, Manager, Opening, update, awake}
use combee.Manager.Bounds.{delete_database-IsValid, maintain-IsValid}
use combee.Node.{Node, Inside, with_conn, guarded, fence_cell}
use combee.Node.Ops.{
  kv_get, kv_set, kv_del, kv_exists, kv_mget, kv_mset, kv_ttl, kv_expire, kv_incr, maintain,
  delete_database, reset_database, hit_or, scan_cache,
}
use combee.Node.Coherence.{Right}
use combee.Node.Jobs.{Kept, Keeps}
use combee.Node.Invariant.{IsCoherent, with_conn-IsCoherent, Kept-Right}

-- Deleting is the call whose removal of files has succeeded: a failed one may leave any part of a
-- Cell behind. `left` is the Cell as it is opened next.
pub data Call (Conn : Type 0) : Type 0 where
  get exists ttl : ℕ → Opening → String → Call Conn
  set : ℕ → Opening → String → Bytes → Option ℕ → Bool → Bool → ℤ → ℕ → Call Conn
  del : ℕ → Opening → String → ℤ → Call Conn
  mget : ℕ → Opening → List String → Call Conn
  mset : ℕ → Opening → List KvSetItem → ℤ → Call Conn
  expire : ℕ → Opening → String → Option ℕ → ℤ → Call Conn
  incr : ℕ → Opening → String → ℤ → Option ℕ → ℤ → Call Conn
  fence : ℕ → ℤ → Call Conn
  close : ℕ → Call Conn
  round : ℕ → Call Conn
  delete : ℕ → Conn → Call Conn
  reset : ℕ → Result (Unit {0}) → Conn → Call Conn

module _ {Conn Store : Type 0} (sq : Sqlite Conn) (moka : Moka Store) where
  -- The node after a call, all of whose readings of the clock agree.
  unfoldable pub step : ℤ → Call Conn → Node Conn Store → Node Conn Store
  unfolding kv_get kv_set kv_del kv_exists kv_mget kv_mset kv_ttl kv_expire kv_incr fence_cell
      maintain delete_database reset_database Manager.close_database
  step now (get db o k) n = (kv_get sq moka db o k now now now n).1
  step now (exists db o k) n = (kv_exists sq moka db o k now now n).1
  step now (ttl db o k) n = (kv_ttl sq moka db o k now now n).1
  step now (set db o k v t nx xx g c) n = (kv_set sq moka db o k v t nx xx g c now now n).1
  step now (del db o k g) n = (kv_del sq moka db o k g n).1
  step now (mget db o ks) n = (kv_mget sq moka db o ks now (λ x. now) n).1
  step now (mset db o items g) n = (kv_mset sq moka db o items g (λ x. now) n).1
  step now (expire db o k t g) n = (kv_expire sq moka db o k t g now now n).1
  step now (incr db o k d t g) n = (kv_incr sq moka db o k d t g now n).1
  step now (fence db g) n = fence_cell db g n
  step now (close db) n = record n { manager = Manager.close_database db n.manager }
  step now (round moment) n = maintain sq moka moment now n
  step now (delete db left) n = (delete_database sq moka db (ok tt) left n).1
  step now (reset db removed left) n = (reset_database sq moka db removed left n).1

  unfoldable pub run : List (ℤ × Call Conn) → Node Conn Store → Node Conn Store
  unfolding step
  run [] n = n
  run ((now, c) ∷ calls) n = run calls (step now c n)

  -- What the cache forgets.
  pub get-Kept :
      (db : ℕ) (k : String) (now : ℤ) (c : KvCache Store) (y : CacheKey)
      → Kept (moka.find (Cache.get moka db k now c).1.inner y) (moka.find c.inner y)
  unfolding Cache.get
  get-Kept db k now c y u p = ground (arith, p, moka.invalidate_law (cache_key db k) c.inner y)

  pub scan_cache-Kept :
      (db : ℕ) (now : ℤ) (ks : List String) (c : KvCache Store) (y : CacheKey)
      → Kept (moka.find (scan_cache sq moka db now ks c).1.inner y) (moka.find c.inner y)
  unfolding scan_cache
  scan_cache-Kept db now [] c y u p = p
  scan_cache-Kept db now (k ∷ ks) c y u p =
      get-Kept db k now c y u (scan_cache-Kept db now ks (Cache.get moka db k now c).1 y u p)

  invalidate_of-Kept :
      (db : ℕ) (ks : List CacheKey) (s : Store) (y : CacheKey)
      → Kept (moka.find (Cache.invalidate_of moka db ks s) y) (moka.find s y)
  unfolding Cache.invalidate_of
  invalidate_of-Kept db [] s y u p = p
  invalidate_of-Kept db (k ∷ ks) s y u p = ground (
    arith,
    invalidate_of-Kept db ks (if k.database_id == db then moka.invalidate k s else s) y u p,
    moka.invalidate_law k s y,
  )

  Kept-none : (after before : Option CachedValue) → Kept after before → before ≡ none → after ≡ none
  Kept-none none before k e = refl
  Kept-none (some v) before k e = ground (arith, k v refl, e)

  invalidate_of-listed :
      (db : ℕ) (ks : List CacheKey) (s : Store) (y : CacheKey)
      → (y.database_id == db) ≡ true
      → lists ks y ≡ true
      → moka.find (Cache.invalidate_of moka db ks s) y ≡ none
  unfolding Cache.invalidate_of
  invalidate_of-listed db [] s y e h = cc
  invalidate_of-listed db (k ∷ ks) s y e h =
      let s' = if k.database_id == db then moka.invalidate k s else s in
      elim (Bool-cases (same_key k y)) [
        | inl x ↦
            Kept-none _ (moka.find s' y) (invalidate_of-Kept db ks s' y)
              (ground (arith, x, moka.invalidate_law k s y))
        | inr x ↦ invalidate_of-listed db ks s' y e (ground (arith, x, h))
      ]

  -- Clearing a Cell leaves no entry of it.
  clear_database-none :
      (db : ℕ) (c : KvCache Store) (k : String)
      → moka.find (Cache.clear_database moka db c).inner (cache_key db k) ≡ none
  unfolding Cache.clear_database
  clear_database-none db c k = elim (Bool-cases (lists (moka.keys c.inner) (cache_key db k))) [
    | inl x ↦ invalidate_of-listed db (moka.keys c.inner) c.inner (cache_key db k) (ground arith) x
    | inr x ↦
        Kept-none _ _ (invalidate_of-Kept db (moka.keys c.inner) c.inner (cache_key db k))
          (moka.keys_law c.inner (cache_key db k) x)
  ]

  -- The ways a call is put together.
  pub forgetting :
      (now : ℤ) (n : Node Conn Store) (c : KvCache Store)
      → ((y : CacheKey) → Kept (moka.find c.inner y) (moka.find n.cache.inner y))
      → IsCoherent sq moka now n
      → IsCoherent sq moka now (record n { cache = c })
  forgetting now n c kept h = record {
    right = λ db k. Kept-Right now _ _ _ (kept (cache_key db k)) (h.right db k);
    connections = h.connections;
  }

  pub guarded-IsCoherent :
      {A : Type 0} (now : ℤ) (g : Node Conn Store → Result (Unit {0}))
      (m : Exec (Node Conn Store) A) (n : Node Conn Store)
      → IsCoherent sq moka now n
      → IsCoherent sq moka now (m n).1
      → IsCoherent sq moka now (guarded g m n).1
  unfolding guarded
  guarded-IsCoherent now g m n h after = elim (Result-cases (g n)) [
    | inl (a, q) ↦ rw (q, guarded) after
    | inr (x, q) ↦ rw (q, guarded) h
  ]

  -- A lookup, and on a miss a job under the lock.
  pub looked-IsCoherent :
      {A : Type 0} (now : ℤ) (db : ℕ) (o : Opening) (k : String) (n : Node Conn Store)
      (f : KvEntry → A) (job : Exec (Inside Conn Store) A)
      → Keeps sq moka now db job
      → IsCoherent sq moka now n
      → IsCoherent sq moka now
          (hit_or sq moka f (with_conn db o job) n (Cache.get moka db k now n.cache)).1
  looked-IsCoherent now db o k n f job kj h =
      let after : IsCoherent sq moka now
          (record n { cache = (Cache.get moka db k now n.cache).1 }) =
        forgetting now n (Cache.get moka db k now n.cache).1 (get-Kept db k now n.cache) h in
      elim (Option-cases (Cache.get moka db k now n.cache).0) [
        | inl q ↦ rw q (with_conn-IsCoherent sq moka now db o job _ kj after)
        | inr (e, q) ↦ rw q after
      ]

  -- A Cell deleted or reset.
  pub cleared-IsCoherent :
      (now : ℤ) (db : ℕ) (left : Conn) (n : Node Conn Store)
      → IsCoherent sq moka now n
      → IsCoherent sq moka now (record n {
        manager = Manager.delete_database db left n.manager;
        cache = Cache.clear_database moka db n.cache;
      })
  unfolding Manager.delete_database Cache.clear_database
  cleared-IsCoherent now db left n h = record {
    right = λ j k. elim (Bool-cases (db == j)) [
      | inl x ↦ λ e p. ground (arith, x, p, clear_database-none db n.cache k)
      | inr x ↦ rw x (
          Kept-Right now _ _ _
            (invalidate_of-Kept db (moka.keys n.cache.inner) n.cache.inner (cache_key j k))
            (h.right j k))
    ];
    connections = delete_database-IsValid db left n.manager h.connections;
  }

  Right-gc :
      (now : ℤ) (limit : ℕ) (o : Option CachedValue) (c : Conn) (k : String)
      → Right now o (sq.rows c k)
      → Right now o (sq.rows (sq.gc now limit c).1 k)
  Right-gc now limit o c k h e p = ground (arith, h e p, sq.gc_law now limit c k)

  gc_open-Right :
      (now : ℤ) (limit : ℕ) (es : List Entry) (cells : ℕ → Conn) (db : ℕ) (k : String)
      (o : Option CachedValue)
      → Right now o (sq.rows (cells db) k)
      → Right now o (sq.rows (Manager.gc_open (λ c. (sq.gc now limit c).1) es cells db) k)
  unfolding Manager.gc_open
  gc_open-Right now limit [] cells db k o h = h
  gc_open-Right now limit (e ∷ es) cells db k o h =
      gc_open-Right now limit es (update cells e.id (sq.gc now limit (cells e.id)).1) db k o
        (elim (Bool-cases (e.id == db)) [
          | inl x ↦ rw x (λ s p. ground (arith, x, p, Right-gc now limit o (cells db) k h s))
          | inr x ↦ rw x h
        ])

  pub maintain-IsCoherent :
      (now : ℤ) (moment : ℕ) (n : Node Conn Store)
      → IsCoherent sq moka now n
      → IsCoherent sq moka now (maintain sq moka moment now n)
  unfolding maintain Manager.maintain
  maintain-IsCoherent now moment n h = record {
    right = λ db k.
        gc_open-Right now 1000 (awake n.manager.idle_timeout moment n.manager.conns) n.manager.cells
          db k _ (h.right db k);
    connections = maintain-IsValid (λ c. (sq.gc now 1000 c).1) moment n.manager h.connections;
  }
