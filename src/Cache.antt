-- ===== src/Cache.antt =====
-- crates/data-node/src/cache.rs: the cache of KV values that all Cells of a node share. The moka
-- cache inside it is not part of the repository: it is a parameter that returns what was put in
-- and not invalidated since, or nothing, since it may evict an entry at any operation.
pub mod Assoc
use combee.Prelude.{
  ℕ, ◌+◌, ◌%◌, ◌^◌, String, ◌≡◌, ◌≢◌, ◌⊎◌, Bool, true, false, not, ◌&&◌, ◌||◌, Option, none, some,
  List, [], ◌∷◌, ◌==◌, str_eq, if◌then◌else◌,
}
use combee.Prelude.Int.{ℤ}
use combee.Text.{Bytes}
use combee.Ttl.{is_expired, ttl_or_remaining}
use combee.Kv.{KvEntry}

-- A `DatabaseId` is the number of its UUID.
pub record CacheKey : Type 0 where
  pub database_id : ℕ
  pub key : String

pub record CachedValue : Type 0 where
  pub value : Bytes
  pub expires_at : Option ℤ

abbrev pub same_key : CacheKey → CacheKey → Bool
same_key a b = a.database_id == b.database_id && str_eq a.key b.key

abbrev pub lists : List CacheKey → CacheKey → Bool
lists [] k = false
lists (j ∷ js) k = same_key j k || lists js k

pub record Moka (Store : Type 0) : Type 0 where
  pub find : Store → CacheKey → Option CachedValue
  pub insert : CacheKey → CachedValue → Store → Store
  pub invalidate : CacheKey → Store → Store
  pub keys : Store → List CacheKey
  pub insert_law :
      (k : CacheKey) (v : CachedValue) (s : Store) (j : CacheKey)
      → (find (insert k v s) j ≡ (if same_key k j then some v else find s j))
        ⊎ (find (insert k v s) j ≡ none)
  pub invalidate_law :
      (k : CacheKey) (s : Store) (j : CacheKey)
      → (find (invalidate k s) j ≡ (if same_key k j then none else find s j))
        ⊎ (find (invalidate k s) j ≡ none)
  pub keys_law : (s : Store) (k : CacheKey) → lists (keys s) k ≡ false → find s k ≡ none

pub record KvCache (Store : Type 0) : Type 0 where
  pub inner : Store
  pub hits : ℕ
  pub misses : ℕ

-- `AtomicU64::fetch_add(1)` wraps round.
abbrev pub counted : ℕ → ℕ
counted n = (n + 1) % 2 ^ 64

abbrev pub cache_key : ℕ → String → CacheKey
cache_key db key = record { database_id = db; key = key }

module _ {Store : Type 0} (moka : Moka Store) where
  -- What `get` does with what the inner cache holds: a hit, an expired entry, a miss.
  looked_up : KvCache Store → CacheKey → ℤ → Option CachedValue → Option KvEntry × KvCache Store
  looked_up c k now none = (none, record c { misses = counted c.misses })
  looked_up c k now (some v) =
      if is_expired v.expires_at now
      then (none, record c { inner = moka.invalidate k c.inner; misses = counted c.misses })
      else (
        some (record { value = v.value; ttl_seconds = ttl_or_remaining v.expires_at now }),
        record c { hits = counted c.hits },
      )

  unfoldable pub get : ℕ → String → ℤ → KvCache Store → Option KvEntry × KvCache Store
  unfolding looked_up
  get db key now c = looked_up c (cache_key db key) now (moka.find c.inner (cache_key db key))

  unfoldable pub put : ℕ → String → Bytes → Option ℤ → KvCache Store → KvCache Store
  put db key value expires_at c = record c {
    inner =
        moka.insert (cache_key db key) (record { value = value; expires_at = expires_at }) c.inner;
  }

  unfoldable pub invalidate : ℕ → String → KvCache Store → KvCache Store
  invalidate db key c = record c { inner = moka.invalidate (cache_key db key) c.inner }

  -- The loop of `clear_database` over the keys of one Cell.
  unfoldable pub invalidate_of : ℕ → List CacheKey → Store → Store
  invalidate_of db [] s = s
  invalidate_of db (k ∷ ks) s =
      invalidate_of db ks (if k.database_id == db then moka.invalidate k s else s)

  unfoldable pub clear_database : ℕ → KvCache Store → KvCache Store
  unfolding invalidate_of
  clear_database db c = record c { inner = invalidate_of db (moka.keys c.inner) c.inner }

  unfoldable pub stats : KvCache Store → ℕ × ℕ
  stats c = (c.hits, c.misses)
