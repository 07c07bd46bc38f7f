-- ===== src/Kv/Reads.antt =====
-- GET, EXISTS, TTL and MGET against what is visible in the table.
use combee.Prelude.{
  String, ◌≡◌, Bool, true, false, Option, none, some, arith, str_eq, eq_iff, if◌then◌else◌,
}
use combee.Prelude.Int.{ℤ, negsuc}
use combee.Errors.{ok, ◌>>=◌}
use combee.Text.{Bytes}
use combee.Ttl.{is_expired, ttl_or_remaining}
use combee.Sqlite.{Sqlite, IsReliable, delete}
use combee.Kv.{read_with_expiry, get, exists, ttl, entry}
use combee.Kv.Live.{live, dropped, checked}

abbrev pub is_some {ℓ} : {A : Type ℓ} → Option A → Bool
is_some none = false
is_some (some a) = true

abbrev pub ttl_shown : ℤ → Option (Bytes × Option ℤ) → Option ℤ
ttl_shown now none = none
ttl_shown now (some (v, none)) = some (negsuc 0)
ttl_shown now (some (v, some e)) = ttl_or_remaining (some e) now

module _ {Conn : Type 0} (sq : Sqlite Conn) (good : IsReliable sq) where
  -- Reading a key returns what is visible, or refuses what is not UTF-8, and drops the row if
  -- it has expired; no other row changes.
  pub read_with_expiry_lem :
      (k : String) (now : ℤ) (c : Conn)
      → ((read_with_expiry sq k now c).0 ≡ checked (live now (sq.rows c k)))
        × ((j : String)
            → sq.rows (read_with_expiry sq k now c).1 j
              ≡ (if str_eq k j then dropped now (sq.rows c j) else sq.rows c j))
  unfolding read_with_expiry
  read_with_expiry_lem k now c = (
    ground (arith, good.selects k c, good.executes (delete k) c),
    λ j. ground (arith, good.selects k c, (good.executes (delete k) c).1 j, eq_iff k j),
  )

  -- GET returns the visible value with the seconds it has left.
  pub get_lem :
      (k : String) (now then_now : ℤ) (c : Conn)
      → (get sq k now then_now c).0
        ≡ (checked (live then_now (sq.rows c k)) >>= λ r. ok (entry now r))
  unfolding get
  get_lem k now then_now c = ground (arith, (read_with_expiry_lem k then_now c).0)

  pub get_rows :
      (k : String) (now then_now : ℤ) (c : Conn) (j : String)
      → sq.rows (get sq k now then_now c).1 j
        ≡ (if str_eq k j then dropped then_now (sq.rows c j) else sq.rows c j)
  unfolding get
  get_rows k now then_now c j =
      ground (arith, read_with_expiry_lem k then_now c, (read_with_expiry_lem k then_now c).1 j)

  -- EXISTS says true exactly for a key with a visible value, and changes nothing.
  pub exists_lem :
      (k : String) (now : ℤ) (c : Conn)
      → exists sq k now c ≡ (ok (is_some (live now (sq.rows c k))), c)
  unfolding exists
  exists_lem k now c = ground (arith, good.selects k c)

  -- TTL is `None` for a key with no visible value, -1 for one that does not expire, and else what
  -- GET reports.
  pub ttl_lem :
      (k : String) (now : ℤ) (c : Conn)
      → ttl sq k now c ≡ (ok (ttl_shown now (live now (sq.rows c k))), c)
  unfolding ttl ttl_or_remaining is_expired
  ttl_lem k now c = ground (arith, good.selects k c)
