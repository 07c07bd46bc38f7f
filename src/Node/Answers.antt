-- ===== src/Node/Answers.antt =====
-- What the reads of a node answer from a right cache, and what stops its writes.
use combee.Prelude.{
  ℕ, String, ◌≡◌, refl, Bool, true, false, Option, none, some, List, arith, Option-cases, inl, inr,
}
use combee.Prelude.Int.{ℤ, negsuc, eq_ℤ}
use combee.Errors.{Result, ok, err, forbidden, internal}
use combee.Exec.{Exec}
use combee.Text.{Bytes}
use combee.Text.Utf8.{is_utf8}
use combee.Ttl.{ttl_or_remaining, is_expired}
use combee.Sqlite.{Row, Sqlite, IsReliable}
use combee.Kv
use combee.Kv.{KvSetItem, KvEntry, entry}
use combee.Kv.Live.{live, checked-live}
use combee.Kv.Reads.{read_with_expiry_lem, exists_lem, ttl_lem, is_some}
use combee.Cache
use combee.Cache.{KvCache, CachedValue, Moka, cache_key}
use combee.Manager
use combee.Manager.{Opening, Manager}
use combee.Quota.{check_ttl}
use combee.Node.{
  Node, Inside, inside, on_conn, with_conn, enter, check_generation, check_writable, guarded,
  fence_cell,
}
use combee.Node.Ops.{
  kv_get, kv_set, kv_del, kv_exists, kv_mset, kv_ttl, kv_expire, kv_incr, fill, fill_row,
}
use combee.Node.Coherence.{shown}
use combee.Node.Invariant.{IsCoherent, acquire-cells}

module _ {Conn Store : Type 0} (sq : Sqlite Conn) (moka : Moka Store) where
  -- What a lookup in the cache answers.
  pub cache_get_lem :
      (db : ℕ) (k : String) (now : ℤ) (c : KvCache Store)
      → (Cache.get moka db k now c).0 ≡ entry now (shown now (moka.find c.inner (cache_key db k)))
  unfolding Cache.get
  cache_get_lem db k now c = ground arith

  enter_result :
      {A : Type 0} (db : ℕ) (o : Opening) (f : Exec (Inside Conn Store) A) (n : Node Conn Store)
      (r : Result (Unit {0}) × Manager Conn)
      → r.0 ≡ ok tt
      → r.1.cells ≡ n.manager.cells
      → (enter db o f n r).0 ≡ (f (inside db n)).0
  enter_result db o f n (err e, m) opens same = cc
  enter_result db o f n (ok _, m) opens same = rw same refl

  -- On a connection that opens, an operation returns what its job returns.
  pub with_conn_result :
      {A : Type 0} (db : ℕ) (o : Opening) (f : Exec (Inside Conn Store) A) (n : Node Conn Store)
      → (Manager.acquire db o n.manager).0 ≡ ok tt
      → (with_conn db o f n).0 ≡ (f (inside db n)).0
  unfolding with_conn
  with_conn_result db o f n opens =
      enter_result db o f n (Manager.acquire db o n.manager) opens (acquire-cells db o n.manager)

  -- The answer from the cache is the answer from the table.
  cached_answer :
      (now : ℤ) (db : ℕ) (k : String) (n : Node Conn Store) (x : KvEntry)
      → IsCoherent sq moka now n
      → (Cache.get moka db k now n.cache).0 ≡ some x
      → entry now (live now (sq.rows (n.manager.cells db) k)) ≡ some x
  cached_answer now db k n x h q =
      elim (Option-cases (shown now (moka.find n.cache.inner (cache_key db k)))) [
        | inl none_shown ↦ ground (arith, cache_get_lem db k now n.cache, q, none_shown)
        | inr (e, found) ↦
            ground (arith, cache_get_lem db k now n.cache, q, found, h.right db k e found)
      ]

  -- GET from a node whose cache is right, on a Cell whose connection opens, whose statements do
  -- not fail and whose value is UTF-8: the visible value with the seconds it has left, whether the
  -- cache or the table answers, if all readings of the clock agree.
  pub kv_get_lem :
      (now : ℤ) (db : ℕ) (o : Opening) (k : String) (n : Node Conn Store)
      → IsReliable sq
      → IsCoherent sq moka now n
      → (Manager.acquire db o n.manager).0 ≡ ok tt
      → ((r : Row) → sq.rows (n.manager.cells db) k ≡ some r → is_utf8 r.value ≡ true)
      → (kv_get sq moka db o k now now now n).0
        ≡ ok (entry now (live now (sq.rows (n.manager.cells db) k)))
  unfolding kv_get fill fill_row
  kv_get_lem now db o k n good h opens texts =
      elim (Option-cases (Cache.get moka db k now n.cache).0) [
        | inl q ↦ ground (
          arith,
          q,
          with_conn_result db o (fill sq moka db k now now)
              (record n { cache = (Cache.get moka db k now n.cache).1 }) opens,
          (read_with_expiry_lem sq good k now (n.manager.cells db)).0,
          checked-live now (sq.rows (n.manager.cells db) k) texts,
        )
        | inr (x, q) ↦ ground (arith, q, cached_answer now db k n x h q)
      ]

  -- EXISTS on a node whose cache is right, on a Cell whose connection opens and whose statements
  -- do not fail: true exactly for a key with a visible value, if both readings of the clock agree.
  pub kv_exists_lem :
      (now : ℤ) (db : ℕ) (o : Opening) (k : String) (n : Node Conn Store)
      → IsReliable sq
      → IsCoherent sq moka now n
      → (Manager.acquire db o n.manager).0 ≡ ok tt
      → (kv_exists sq moka db o k now now n).0
        ≡ ok (is_some (live now (sq.rows (n.manager.cells db) k)))
  unfolding kv_exists
  kv_exists_lem now db o k n good h opens =
      elim (Option-cases (Cache.get moka db k now n.cache).0) [
        | inl q ↦ ground (
          arith,
          q,
          with_conn_result db o (on_conn (Kv.exists sq k now))
              (record n { cache = (Cache.get moka db k now n.cache).1 }) opens,
          exists_lem sq good k now (n.manager.cells db),
        )
        | inr (x, q) ↦ ground (arith, q, cached_answer now db k n x h q)
      ]

  -- TTL of a key without lifetime that the cache of a right node holds: the node answers `None`,
  -- while the table, on a connection whose statements do not fail, gives -1.
  pub kv_ttl_cached :
      (now : ℤ) (db : ℕ) (o : Opening) (k : String) (n : Node Conn Store) (v : Bytes)
      → IsReliable sq
      → IsCoherent sq moka now n
      → moka.find n.cache.inner (cache_key db k) ≡ some (record { value = v; expires_at = none })
      → ((kv_ttl sq moka db o k now now n).0 ≡ ok none)
        × ((Kv.ttl sq k now (n.manager.cells db)).0 ≡ ok (some (negsuc 0)))
  unfolding kv_ttl Cache.get is_expired ttl_or_remaining
  kv_ttl_cached now db o k n v good h found = (
    ground (arith, found),
    ground (
      arith,
      ttl_lem sq good k now (n.manager.cells db),
      h.right db k (v, none) (ground (arith, found)),
    ),
  )

  -- After a fence, each of the five writes with another generation than that of the fence is
  -- refused as forbidden and changes nothing.
  pub fenced_writes :
      (db : ℕ) (g stale : ℤ) (o : Opening) (k : String) (v : Bytes) (t : Option ℕ) (nx xx : Bool)
      (items : List KvSetItem) (d : ℤ) (stored : ℕ) (now : ℤ) (n : Node Conn Store)
      → eq_ℤ stale g ≡ false
      → let n' = fence_cell db g n in
        (kv_set sq moka db o k v t nx xx stale stored now now n' ≡ (err forbidden, n'))
        × (kv_del sq moka db o k stale n' ≡ (err forbidden, n'))
        × (kv_mset sq moka db o items stale (λ i. now) n' ≡ (err forbidden, n'))
        × (kv_expire sq moka db o k t stale now now n' ≡ (err forbidden, n'))
        × (kv_incr sq moka db o k d t stale now n' ≡ (err forbidden, n'))
  unfolding fence_cell kv_set kv_del kv_mset kv_expire kv_incr guarded check_generation
  fenced_writes db g stale o k v t nx xx items d stored now n ne = (
    ground (arith, ne),
    ground (arith, ne),
    ground (arith, ne),
    ground (arith, ne),
    ground (arith, ne),
  )

  -- On a read-only Cell, each of the five writes that carries the right generation and no lifetime
  -- is refused with an internal error, and nothing changes.
  pub readonly_writes :
      (db : ℕ) (g : ℤ) (o : Opening) (k : String) (v : Bytes) (nx xx : Bool)
      (items : List KvSetItem) (d : ℤ) (stored : ℕ) (now : ℤ) (n : Node Conn Store)
      → check_generation db g n ≡ ok tt
      → n.manager.readonly db ≡ true
      → (kv_set sq moka db o k v none nx xx g stored now now n ≡ (err internal, n))
        × (kv_del sq moka db o k g n ≡ (err internal, n))
        × (kv_mset sq moka db o items g (λ i. now) n ≡ (err internal, n))
        × (kv_expire sq moka db o k none g now now n ≡ (err internal, n))
        × (kv_incr sq moka db o k d none g now n ≡ (err internal, n))
  unfolding kv_set kv_del kv_mset kv_expire kv_incr guarded check_writable check_ttl
  readonly_writes db g o k v nx xx items d stored now n current ro = (
    ground (arith, current, ro),
    ground (arith, current, ro),
    ground (arith, current, ro),
    ground (arith, current, ro),
    ground (arith, current, ro),
  )
