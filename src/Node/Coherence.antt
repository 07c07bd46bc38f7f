-- ===== src/Node/Coherence.antt =====
-- crates/data-node/src/lib.rs: when an entry of the cache is right, and one lemma for each job
-- that an operation runs inside the lock.
use combee.Prelude.{
  ℕ, String, ◌≡◌, inl, inr, Bool, Option, none, some, arith, eq_iff, if◌then◌else◌,
}
use combee.Prelude.Int.{ℤ, ◌≤ℤ◌}
use combee.Errors.{Result-cases}
use combee.Text.{Bytes}
use combee.Ttl.{is_expired, is_expired_mono, expires_at_from}
use combee.Sqlite.{Row, Sqlite, delete, set_expiry}
use combee.Kv
use combee.Kv.{Clock, KvSetItem, set_statement}
use combee.Kv.Live.{live}
use combee.Kv.Faults.{execute_at, read_with_expiry_at, incr_at}
use combee.Cache
use combee.Cache.{CacheKey, CachedValue, KvCache, Moka, cache_key, same_key}
use combee.Node.{Inside}
use combee.Node.Ops.{set_job, del_job, expire_job, incr_job, fill_row}

-- What the cache answers from an entry.
abbrev pub shown : ℤ → Option CachedValue → Option (Bytes × Option ℤ)
shown now none = none
shown now (some v) = if is_expired v.expires_at now then none else some (v.value, v.expires_at)

-- What the cache answers is what is visible in the table.
abbrev pub Right : ℤ → Option CachedValue → Option Row → Type 0
Right now o r = (e : Bytes × Option ℤ) → shown now o ≡ some e → live now r ≡ some e

-- An answer that is right stays right while the clock does not go back.
pub Right-later :
    (now later : ℤ) (o : Option CachedValue) (r : Option Row)
    → now ≤ℤ later
    → Right now o r
    → Right later o r
Right-later now later none r le h = λ e p. cc
Right-later now later (some v) none le h =
    λ e p. ground (arith, h (v.value, v.expires_at), is_expired_mono v.expires_at now later le)
Right-later now later (some v) (some r) le h = λ e p. ground (
  arith,
  h (v.value, v.expires_at),
  is_expired_mono v.expires_at now later le,
  is_expired_mono r.expires_at now later le,
)

module _ {Conn Store : Type 0} (sq : Sqlite Conn) (moka : Moka Store) where
  -- The entry of one key of the Cell, and its row.
  abbrev pub RightAt : ℤ → ℕ → Inside Conn Store → String → Type 0
  RightAt now db i k = Right now (moka.find i.cache.inner (cache_key db k)) (sq.rows i.conn k)

  pub set_job-RightAt :
      (db : ℕ) (k : String) (v : Bytes) (t : Option ℕ) (nx xx : Bool) (now : ℤ)
      (i : Inside Conn Store) (j : String)
      → RightAt now db i j
      → RightAt now db (set_job sq moka db k v t nx xx now now i).1 j
  unfolding set_job Kv.set Cache.put
  set_job-RightAt db k v t nx xx now i j h = λ e p. ground (
    arith,
    execute_at sq (set_statement k v (expires_at_from t now) nx xx) i.conn j,
    moka.insert_law (cache_key db k) (record { value = v; expires_at = expires_at_from t now })
        i.cache.inner (cache_key db j),
    h e,
    eq_iff k j,
  )

  pub del_job-RightAt :
      (db : ℕ) (k : String) (now : ℤ) (i : Inside Conn Store) (j : String)
      → RightAt now db i j
      → RightAt now db (del_job sq moka db k i).1 j
  unfolding del_job Kv.del Cache.invalidate
  del_job-RightAt db k now i j h = λ e p. ground (
    arith,
    execute_at sq (delete k) i.conn j,
    moka.invalidate_law (cache_key db k) i.cache.inner (cache_key db j),
    h e,
    eq_iff k j,
  )

  pub expire_job-RightAt :
      (db : ℕ) (k : String) (t : Option ℕ) (now : ℤ) (i : Inside Conn Store) (j : String)
      → RightAt now db i j
      → RightAt now db (expire_job sq moka db k t now now i).1 j
  unfolding expire_job Kv.expire Cache.invalidate
  expire_job-RightAt db k t now i j h = λ e p. ground (
    arith,
    sq.select_law k i.conn,
    execute_at sq (set_expiry k (expires_at_from t now)) i.conn j,
    moka.invalidate_law (cache_key db k) i.cache.inner (cache_key db j),
    h e,
    eq_iff k j,
  )

  pub fill_row-RightAt :
      (db : ℕ) (k : String) (now : ℤ) (i : Inside Conn Store) (j : String)
      → RightAt now db i j
      → RightAt now db (fill_row sq moka db k now i).1 j
  unfolding fill_row Cache.put
  fill_row-RightAt db k now i j h = λ e p.
      let (same, result) = read_with_expiry_at sq k now i.conn in
      elim (Result-cases (Kv.read_with_expiry sq k now i.conn).0) [
        | inl (none, q) ↦ ground (arith, same j, q, h e)
        | inl (some (v, x), q) ↦ ground (
          arith,
          same j,
          q,
          result v x,
          moka.insert_law (cache_key db k) (record { value = v; expires_at = x }) i.cache.inner
              (cache_key db j),
          h e,
          eq_iff k j,
        )
        | inr (x, q) ↦ ground (arith, same j, q, h e)
      ]

  pub incr_job-RightAt :
      (db : ℕ) (k : String) (d : ℤ) (t : Option ℕ) (now : ℤ) (i : Inside Conn Store) (j : String)
      → RightAt now db i j
      → RightAt now db (incr_job sq moka db k d t now i).1 j
  unfolding incr_job Cache.invalidate
  incr_job-RightAt db k d t now i j h = λ e p.
      let (others, refused) = incr_at sq k d t now i.conn in
      elim (Result-cases (Kv.incr sq k d t now i.conn).0) [
        | inl (n, q) ↦ ground (
          arith,
          q,
          others j,
          moka.invalidate_law (cache_key db k) i.cache.inner (cache_key db j),
          h e,
          eq_iff k j,
        )
        | inr (x, q) ↦ ground (arith, q, refused x j, h e)
      ]
