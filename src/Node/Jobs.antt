-- ===== src/Node/Jobs.antt =====
-- crates/data-node/src/lib.rs: what the jobs of the operations do to the cache entries of every
-- Cell.
use combee.Prelude.{
  ℕ, ◌+◌, String, ◌≡◌, inl, inr, Bool, false, Option, none, some, List, [], ◌∷◌, arith, ◌==◌,
}
use combee.Prelude.Int.{ℤ}
use combee.Errors.{Result-cases}
use combee.Exec.{Exec, pure, ◌>>=◌}
use combee.Text.{Bytes}
use combee.Ttl.{expires_at_from}
use combee.Sqlite.{Sqlite}
use combee.Kv
use combee.Kv.{Clock, KvSetItem}
use combee.Cache
use combee.Cache.{CacheKey, CachedValue, KvCache, Moka, cache_key}
use combee.Node.{Inside, on_conn}
use combee.Node.Ops.{
  set_job, del_job, expire_job, incr_job, fill_row, fill, fill_misses, mset_job, read_value,
}
use combee.Node.Coherence.{
  RightAt, set_job-RightAt, del_job-RightAt, expire_job-RightAt, fill_row-RightAt, incr_job-RightAt,
}

-- An entry is as it was, or gone.
abbrev pub Kept : Option CachedValue → Option CachedValue → Type 0
Kept after before = (v : CachedValue) → after ≡ some v → before ≡ some v

module _ {Conn Store : Type 0} (sq : Sqlite Conn) (moka : Moka Store) where
  -- `m` keeps the cache right at its own Cell and shows nothing new of other Cells.
  pub record Keeps {A : Type 0} (now : ℤ) (db : ℕ) (m : Exec (Inside Conn Store) A) : Type 0 where
    pub right :
        (i : Inside Conn Store) (j : String)
        → RightAt sq moka now db i j
        → RightAt sq moka now db (m i).1 j
    pub elsewhere :
        (i : Inside Conn Store) (y : CacheKey)
        → (db == y.database_id) ≡ false
        → Kept (moka.find (m i).1.cache.inner y) (moka.find i.cache.inner y)

  pub Keeps-set_job :
      (now : ℤ) (db : ℕ) (k : String) (v : Bytes) (t : Option ℕ) (nx xx : Bool)
      → Keeps now db (set_job sq moka db k v t nx xx now now)
  unfolding set_job Cache.put
  Keeps-set_job now db k v t nx xx = record {
    right = set_job-RightAt sq moka db k v t nx xx now;
    elsewhere = λ i y ne u p. ground (
      arith,
      moka.insert_law (cache_key db k) (record { value = v; expires_at = expires_at_from t now })
          i.cache.inner y,
    );
  }

  pub Keeps-del_job : (now : ℤ) (db : ℕ) (k : String) → Keeps now db (del_job sq moka db k)
  unfolding del_job Cache.invalidate
  Keeps-del_job now db k = record {
    right = del_job-RightAt sq moka db k now;
    elsewhere = λ i y ne u p. ground (arith, moka.invalidate_law (cache_key db k) i.cache.inner y);
  }

  pub Keeps-expire_job :
      (now : ℤ) (db : ℕ) (k : String) (t : Option ℕ)
      → Keeps now db (expire_job sq moka db k t now now)
  unfolding expire_job Cache.invalidate
  Keeps-expire_job now db k t = record {
    right = expire_job-RightAt sq moka db k t now;
    elsewhere = λ i y ne u p. ground (arith, moka.invalidate_law (cache_key db k) i.cache.inner y);
  }

  pub Keeps-incr_job :
      (now : ℤ) (db : ℕ) (k : String) (d : ℤ) (t : Option ℕ)
      → Keeps now db (incr_job sq moka db k d t now)
  unfolding incr_job Cache.invalidate
  Keeps-incr_job now db k d t = record {
    right = incr_job-RightAt sq moka db k d t now;
    elsewhere = λ i y ne u p. ground (arith, moka.invalidate_law (cache_key db k) i.cache.inner y);
  }

  -- Rules for the loops.
  Keeps-pure : {A : Type 0} (now : ℤ) (db : ℕ) (a : A) → Keeps now db (pure a)
  Keeps-pure now db a = record { right = λ i j h. h; elsewhere = λ i y ne u p. p }

  Keeps-bind :
      {A B : Type 0} (now : ℤ) (db : ℕ) (m : Exec (Inside Conn Store) A)
      (f : A → Exec (Inside Conn Store) B)
      → Keeps now db m
      → ((a : A) → Keeps now db (f a))
      → Keeps now db (m >>= f)
  Keeps-bind now db m f km kf = record {
    right = λ i j h. elim (Result-cases (m i).0) [
      | inl (a, q) ↦ rw q ((kf a).right (m i).1 j (km.right i j h))
      | inr (x, q) ↦ rw q (km.right i j h)
    ];
    elsewhere = λ i y ne u. elim (Result-cases (m i).0) [
      | inl (a, q) ↦ rw q (λ p. km.elsewhere i y ne u ((kf a).elsewhere (m i).1 y ne u p))
      | inr (x, q) ↦ rw q (km.elsewhere i y ne u)
    ];
  }

  Keeps-fill_row : (now : ℤ) (db : ℕ) (k : String) → Keeps now db (fill_row sq moka db k now)
  unfolding fill_row Cache.put
  Keeps-fill_row now db k = record {
    right = fill_row-RightAt sq moka db k now;
    elsewhere = λ i y ne u p. elim (Result-cases (Kv.read_with_expiry sq k now i.conn).0) [
      | inl (none, q) ↦ ground (arith, q)
      | inl (some (v, x), q) ↦ ground (
        arith,
        q,
        moka.insert_law (cache_key db k) (record { value = v; expires_at = x }) i.cache.inner y,
      )
      | inr (x, q) ↦ ground (arith, q)
    ];
  }

  pub Keeps-fill :
      (now then_now : ℤ) (db : ℕ) (k : String) → Keeps now db (fill sq moka db k then_now now)
  unfolding fill
  Keeps-fill now then_now db k =
      Keeps-bind now db _ _ (Keeps-fill_row now db k) (λ r. Keeps-pure now db (Kv.entry then_now r))

  pub Keeps-fill_misses :
      (now : ℤ) (db : ℕ) (i : ℕ) (found : List (String × Option Bytes))
      → Keeps now db (fill_misses sq moka db (λ x. now) i found)
  unfolding fill_misses
  Keeps-fill_misses now db i [] = Keeps-pure now db []
  Keeps-fill_misses now db i ((k, some v) ∷ found) =
      Keeps-bind now db _ _ (Keeps-fill_misses now db i found)
        (λ rest. Keeps-pure now db (some v ∷ rest))
  Keeps-fill_misses now db i ((k, none) ∷ found) =
      Keeps-bind now db _ _ (Keeps-fill_row now db k) λ r.
        Keeps-bind now db _ _ (Keeps-fill_misses now db (i + 1) found)
          (λ rest. Keeps-pure now db (read_value r ∷ rest))

  pub Keeps-mset_job :
      (now : ℤ) (db : ℕ) (i : ℕ) (items : List KvSetItem)
      → Keeps now db (mset_job sq moka db (λ x. now) i items)
  unfolding mset_job
  Keeps-mset_job now db i [] = Keeps-pure now db tt
  Keeps-mset_job now db i (it ∷ items) =
      Keeps-bind now db _ _ (Keeps-set_job now db it.key it.value it.ttl_seconds false false)
        (λ w. Keeps-mset_job now db (i + 2) items)

  pub Keeps-exists : (now : ℤ) (db : ℕ) (k : String) → Keeps now db (on_conn (Kv.exists sq k now))
  unfolding Kv.exists
  Keeps-exists now db k = record {
    right = λ i j h e p. ground (arith, h e p);
    elsewhere = λ i y ne u p. p;
  }

  pub Keeps-ttl : (now : ℤ) (db : ℕ) (k : String) → Keeps now db (on_conn (Kv.ttl sq k now))
  unfolding Kv.ttl
  Keeps-ttl now db k = record {
    right = λ i j h e p. ground (arith, h e p);
    elsewhere = λ i y ne u p. p;
  }
