-- ===== src/Node/Batch.antt =====
-- MGET of a node of crates/data-node/src/lib.rs: the scan of the cache and the reading of the
-- misses.
use combee.Prelude.{
  ℕ, ◌+◌, String, ◌≡◌, refl, true, Option, none, some, List, [], ◌∷◌, arith, Bool-cases,
  Option-cases, inl, inr, str_eq, if◌then◌else◌,
}
use combee.Prelude.Int.{ℤ}
use combee.Errors.{Result-cases, ok}
use combee.Text.{Bytes}
use combee.Text.Utf8.{is_utf8}
use combee.Sqlite.{Row, Table, Sqlite, IsReliable}
use combee.Kv
use combee.Kv.{entry}
use combee.Kv.Live.{live, dropped, live-dropped, checked-live}
use combee.Kv.Batch.{AllUtf8}
use combee.Kv.Reads.{read_with_expiry_lem}
use combee.Cache
use combee.Cache.{KvCache, Moka, cache_key}
use combee.Manager
use combee.Manager.{Opening}
use combee.Node.{Node, Inside}
use combee.Node.Ops.{kv_mget, scan_cache, fill_misses, fill_row, all_hit, hits_of, read_value}
use combee.Node.Coherence.{Right, shown}
use combee.Node.Invariant.{IsCoherent, Kept-Right}
use combee.Node.Calls.{get-Kept}
use combee.Node.Answers.{cache_get_lem, with_conn_result}

-- The visible value of each key.
abbrev pub visible_all : ℤ → List String → Table → List (Option Bytes)
visible_all now [] t = []
visible_all now (k ∷ ks) t = read_value (live now (t k)) ∷ visible_all now ks t

abbrev keys_of : List (String × Option Bytes) → List String
keys_of [] = []
keys_of ((k, o) ∷ found) = k ∷ keys_of found

-- A value found for a key is its visible value.
abbrev AllRight : ℤ → Table → List (String × Option Bytes) → Type 0
AllRight now t [] = Unit
AllRight now t ((k, none) ∷ found) = AllRight now t found
AllRight now t ((k, some v) ∷ found) = (read_value (live now (t k)) ≡ some v) × AllRight now t found

AllRight-cons :
    (now : ℤ) (t : Table) (k : String) (o : Option Bytes) (found : List (String × Option Bytes))
    → ((v : Bytes) → o ≡ some v → read_value (live now (t k)) ≡ some v)
    → AllRight now t found
    → AllRight now t ((k, o) ∷ found)
AllRight-cons now t k none found h rest = rest
AllRight-cons now t k (some v) found h rest = (h v refl, rest)

hits_visible :
    (now : ℤ) (t : Table) (found : List (String × Option Bytes))
    → AllRight now t found
    → all_hit found ≡ true
    → hits_of found ≡ visible_all now (keys_of found) t
hits_visible now t [] h a = refl
hits_visible now t ((k, none) ∷ found) h a = ground (arith, a)
hits_visible now t ((k, some v) ∷ found) h a = ground (arith, h.0, hits_visible now t found h.1 a)

module _ {Conn Store : Type 0} (sq : Sqlite Conn) (moka : Moka Store) where
  keys_of-scan_cache :
      (db : ℕ) (now : ℤ) (ks : List String) (c : KvCache Store)
      → keys_of (scan_cache sq moka db now ks c).0 ≡ ks
  unfolding scan_cache
  keys_of-scan_cache db now [] c = refl
  keys_of-scan_cache db now (k ∷ ks) c =
      cc (keys_of-scan_cache db now ks (Cache.get moka db k now c).1)

  -- Reading one row and filling the cache with it.
  fill_row_lem :
      (good : IsReliable sq) (db : ℕ) (k : String) (now : ℤ) (n : Inside Conn Store)
      → ((r : Row) → sq.rows n.conn k ≡ some r → is_utf8 r.value ≡ true)
      → (fill_row sq moka db k now n).0 ≡ ok (live now (sq.rows n.conn k))
  unfolding fill_row
  fill_row_lem good db k now n u =
      ground (
        arith,
        (read_with_expiry_lem sq good k now n.conn).0,
        checked-live now (sq.rows n.conn k) u,
      )

  fill_row-rows :
      (good : IsReliable sq) (db : ℕ) (k : String) (now : ℤ) (n : Inside Conn Store) (j : String)
      → sq.rows (fill_row sq moka db k now n).1.conn j
        ≡ (if str_eq k j then dropped now (sq.rows n.conn j) else sq.rows n.conn j)
  unfolding fill_row
  fill_row-rows good db k now n j = elim (Result-cases (Kv.read_with_expiry sq k now n.conn).0) [
    | inl (r, q) ↦ ground (arith, q, (read_with_expiry_lem sq good k now n.conn).1 j)
    | inr (x, q) ↦ ground (arith, q, (read_with_expiry_lem sq good k now n.conn).1 j)
  ]

  scan_cache-AllRight :
      (db : ℕ) (now : ℤ) (ks : List String) (c : KvCache Store) (t : Table)
      → ((k : String) → Right now (moka.find c.inner (cache_key db k)) (t k))
      → AllRight now t (scan_cache sq moka db now ks c).0
  unfolding scan_cache
  scan_cache-AllRight db now [] c t h = tt
  scan_cache-AllRight db now (k ∷ ks) c t h =
      let c' = (Cache.get moka db k now c).1 in
      AllRight-cons now t k (Kv.value_of (Cache.get moka db k now c).0) _
        (λ v p. elim (Option-cases (shown now (moka.find c.inner (cache_key db k)))) [
          | inl q ↦ ground (arith, p, q, cache_get_lem sq moka db k now c)
          | inr (e, q) ↦ ground (arith, p, q, cache_get_lem sq moka db k now c, h k e q)
        ])
        (scan_cache-AllRight db now ks c' t
          (λ j. Kept-Right now _ _ _ (get-Kept sq moka db k now c (cache_key db j)) (h j)))

  -- Reading the misses: the table may lose rows that have expired on the way.
  fill_misses-visible :
      (good : IsReliable sq) (db : ℕ) (now : ℤ) (i : ℕ) (t : Table)
      (found : List (String × Option Bytes)) (n : Inside Conn Store)
      → AllUtf8 (sq.rows n.conn)
      → ((j : String) → live now (sq.rows n.conn j) ≡ live now (t j))
      → AllRight now t found
      → (fill_misses sq moka db (λ x. now) i found n).0 ≡ ok (visible_all now (keys_of found) t)
  unfolding fill_misses
  fill_misses-visible good db now i t [] n u same h = refl
  fill_misses-visible good db now i t ((k, some v) ∷ found) n u same h =
      ground (arith, fill_misses-visible good db now i t found n u same h.1, h.0)
  fill_misses-visible good db now i t ((k, none) ∷ found) n u same h =
      let n' = (fill_row sq moka db k now n).1 in
      let rest = fill_row-rows good db k now n in
      ground (
        arith,
        (fill_row_lem good db k now n (u k)),
        same k,
        fill_misses-visible good db now (i + 1) t found n'
            (λ j r p. ground (arith, rest j, p, u j r))
            (λ j.
              ground (arith, rest j, same j, live-dropped now now (sq.rows n.conn j) (omega arith)))
            h,
      )

  -- MGET from a node whose cache is right, on a Cell whose connection opens, whose statements do
  -- not fail and whose values are UTF-8: in the order of the keys, the visible value of each,
  -- whichever of them the cache holds, if all readings of the clock agree.
  pub kv_mget_lem :
      (now : ℤ) (db : ℕ) (o : Opening) (ks : List String) (n : Node Conn Store)
      → IsReliable sq
      → IsCoherent sq moka now n
      → (Manager.acquire db o n.manager).0 ≡ ok tt
      → AllUtf8 (sq.rows (n.manager.cells db))
      → (kv_mget sq moka db o ks now (λ x. now) n).0
        ≡ ok (visible_all now ks (sq.rows (n.manager.cells db)))
  unfolding kv_mget
  kv_mget_lem now db o ks n good h opens texts =
      let t = sq.rows (n.manager.cells db) in
      let found = (scan_cache sq moka db now ks n.cache).0 in
      let c = (scan_cache sq moka db now ks n.cache).1 in
      let right = scan_cache-AllRight db now ks n.cache t (h.right db) in
      let same = keys_of-scan_cache db now ks n.cache in
      elim (Bool-cases (all_hit found)) [
        | inl x ↦ ground (arith, x, same, hits_visible now t found right x)
        | inr x ↦ ground (
          arith,
          x,
          same,
          with_conn_result sq moka db o (fill_misses sq moka db (λ y. now) 0 found)
              (record n { cache = c }) opens,
          fill_misses-visible good db now 0 t found
              (record { conn = n.manager.cells db; cache = c }) texts (λ j. refl) right,
        )
      ]
