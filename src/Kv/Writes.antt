-- ===== src/Kv/Writes.antt =====
-- SET with its options, DEL and EXPIRE, and what GET sees after them.
use combee.Prelude.{
  ℕ, String, ◌≡◌, ◌≢◌, refl, Bool, true, false, not, Option, none, some, arith, str_eq, eq_iff,
  if◌then◌else◌,
}
use combee.Prelude.Int.{ℤ}
use combee.Errors.{ok, err, invalid_request}
use combee.Text.{Bytes}
use combee.Text.Utf8.{is_utf8}
use combee.Ttl.{is_expired, ttl_or_remaining, expires_at_from}
use combee.Sqlite.{
  Row, Sqlite, IsReliable, upsert, insert_if_absent, update_if_present, delete, set_expiry,
  row_expired, upserted, re_expired,
}
use combee.Kv.{get, set, del, expire, exists}
use combee.Kv.Live.{live}
use combee.Kv.Reads.{get_lem, exists_lem, is_some}

abbrev pub holds_row : Option Row → Bool
holds_row none = false
holds_row (some r) = true

-- Whether SET writes: NX wants no row, XX wants one.
abbrev pub set_writes : Bool → Bool → Option Row → Bool
set_writes nx xx o = if nx then not (holds_row o) else if xx then holds_row o else true

abbrev pub written : Bytes → Option ℤ → Option Row → Option Row
written v e o = upserted v e o

module _ {Conn : Type 0} (sq : Sqlite Conn) (good : IsReliable sq) where
  -- On a connection whose statements do not fail, SET at a key that is not empty writes exactly
  -- when its option allows, says so, and changes no other key. NX and XX go by the row and not by
  -- what is visible.
  pub set_lem :
      (k : String) (v : Bytes) (t : Option ℕ) (nx xx : Bool) (now : ℤ) (c : Conn)
      → str_eq k "" ≡ false
      → ((set sq k v t nx xx now c).0 ≡ ok (set_writes nx xx (sq.rows c k)))
        × ((j : String)
            → sq.rows (set sq k v t nx xx now c).1 j ≡ (
                if str_eq k j
                then (if set_writes nx xx (sq.rows c j)
                    then written v (expires_at_from t now) (sq.rows c j)
                    else sq.rows c j)
                else sq.rows c j))
  unfolding set
  set_lem k v t true xx now c h =
      let s = good.executes (insert_if_absent k v (expires_at_from t now)) c in
      (ground (arith, s.0), λ j. ground (arith, s.1 j))
  set_lem k v t false true now c h =
      let s = good.executes (update_if_present k v (expires_at_from t now)) c in
      (ground (arith, s.0), λ j. ground (arith, s.1 j))
  set_lem k v t false false now c h =
      let s = good.executes (upsert k v (expires_at_from t now)) c in
      (ground (arith, s.0), λ j. ground (arith, s.1 j))

  -- An empty key is refused, and nothing is written.
  set_empty_key :
      (v : Bytes) (t : Option ℕ) (nx xx : Bool) (now : ℤ) (c : Conn)
      → set sq "" v t nx xx now c ≡ (err invalid_request, c)
  unfolding set
  set_empty_key v t nx xx now c = refl

  -- On a connection whose statements do not fail, after a plain SET of UTF-8 at a key that is not
  -- empty, GET returns the value with the rest of its lifetime until that ends, and then nothing.
  pub get-set_self :
      (k : String) (v : Bytes) (t : Option ℕ) (now later then_later : ℤ) (c : Conn)
      → str_eq k "" ≡ false
      → is_utf8 v ≡ true
      → (get sq k later then_later (set sq k v t false false now c).1).0
        ≡ ok (
            if is_expired (expires_at_from t now) then_later
            then none
            else some (record {
              value = v;
              ttl_seconds = ttl_or_remaining (expires_at_from t now) later;
            }))
  get-set_self k v t now later then_later c h u =
      let c' = (set sq k v t false false now c).1 in
      ground (
        arith,
        get_lem sq good k later then_later c',
        (set_lem k v t false false now c h).1 k,
        eq_iff k k,
      )

  -- On a connection whose statements do not fail, SET at a key that is not empty, whatever its
  -- options, leaves what GET returns for another key.
  pub get-set_ne :
      (k j : String) (v : Bytes) (t : Option ℕ) (nx xx : Bool) (now later then_later : ℤ) (c : Conn)
      → str_eq k "" ≡ false
      → k ≢ j
      → (get sq j later then_later (set sq k v t nx xx now c).1).0 ≡ (get sq j later then_later c).0
  get-set_ne k j v t nx xx now later then_later c h ne = ground (
    arith,
    get_lem sq good j later then_later (set sq k v t nx xx now c).1,
    get_lem sq good j later then_later c,
    (set_lem k v t nx xx now c h).1 j,
    eq_iff k j,
  )

  -- On a connection whose statements do not fail, SET NX at a key that is not empty and whose row
  -- has expired writes nothing, although EXISTS then says that the key does not exist.
  pub set_nx_blocked_by_expired :
      (k : String) (v : Bytes) (t : Option ℕ) (xx : Bool) (now : ℤ) (c : Conn) (r : Row)
      → str_eq k "" ≡ false
      → sq.rows c k ≡ some r
      → row_expired r now ≡ true
      → ((set sq k v t true xx now c).0 ≡ ok false)
        × (exists sq k now (set sq k v t true xx now c).1
            ≡ (ok false, (set sq k v t true xx now c).1))
  set_nx_blocked_by_expired k v t xx now c r h p x =
      let s = set_lem k v t true xx now c h in
      let c' = (set sq k v t true xx now c).1 in
      (ground (arith, s.0), ground (arith, s.1 k, exists_lem sq good k now c', eq_iff k k))

  -- On a connection whose statements do not fail, SET XX without a lifetime at a key that is not
  -- empty and whose row has expired writes, although EXISTS said before that the key does not
  -- exist; after it EXISTS says that it does.
  pub set_xx_revives_expired :
      (k : String) (v : Bytes) (now : ℤ) (c : Conn) (r : Row)
      → str_eq k "" ≡ false
      → sq.rows c k ≡ some r
      → row_expired r now ≡ true
      → (exists sq k now c ≡ (ok false, c))
        × ((set sq k v none false true now c).0 ≡ ok true)
        × (exists sq k now (set sq k v none false true now c).1
            ≡ (ok true, (set sq k v none false true now c).1))
  unfolding is_expired expires_at_from
  set_xx_revives_expired k v now c r h p x =
      let s = set_lem k v none false true now c h in
      let c' = (set sq k v none false true now c).1 in
      (
        ground (arith, exists_lem sq good k now c),
        ground (arith, s.0),
        ground (arith, s.1 k, exists_lem sq good k now c', eq_iff k k),
      )

  -- On a connection whose statements do not fail, DEL removes the row of its key and no other; it
  -- says true for every row, also one that had expired.
  pub del_lem :
      (k : String) (c : Conn)
      → ((del sq k c).0 ≡ ok (holds_row (sq.rows c k)))
        × ((j : String) → sq.rows (del sq k c).1 j ≡ (if str_eq k j then none else sq.rows c j))
  unfolding del
  del_lem k c =
      let s = good.executes (delete k) c in (ground (arith, s.0), λ j. ground (arith, s.1 j))

  -- On a connection whose statements do not fail, EXPIRE says whether the key exists, and where it
  -- does gives it the new lifetime (none: it no longer expires) and keeps its value. No other key
  -- changes.
  pub expire_lem :
      (k : String) (t : Option ℕ) (now then_now : ℤ) (c : Conn)
      → ((expire sq k t now then_now c).0 ≡ ok (is_some (live now (sq.rows c k))))
        × ((j : String)
            → sq.rows (expire sq k t now then_now c).1 j ≡ (
                if str_eq k j
                then (if is_some (live now (sq.rows c k))
                    then re_expired (expires_at_from t then_now) (sq.rows c j)
                    else sq.rows c j)
                else sq.rows c j))
  unfolding expire
  expire_lem k t now then_now c =
      let s = good.executes (set_expiry k (expires_at_from t then_now)) c in
      (ground (arith, good.selects k c, s.0), λ j. ground (arith, good.selects k c, s.0, s.1 j))
