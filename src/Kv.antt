-- ===== src/Kv.antt =====
-- crates/data-node/src/kv.rs: the Redis-style operations on the table `__sys_kv` of one Cell.
-- A KV value is the list of its bytes. An argument named `now` or `clock` is what the calls of
-- `unix_now` return. Only `scan` is not here: it hands its filter and its order to SQLite.
pub mod Live
pub mod Reads
pub mod Writes
pub mod Counter
pub mod Batch
pub mod Faults
use combee.Prelude.{
  ℕ, ◌+◌, ◌<◌, String, ◌≡◌, Bool, true, false, not, Option, none, some, List, [], ◌∷◌, ltb, str_eq,
  if◌then◌else◌,
}
use combee.Prelude.Int.{ℤ, pos, negsuc, ◌+ℤ◌, in_i64, max_ℤ, wrapping_sub, wrapping_add, as_i64}
use combee.Errors.{Result, ok, err, invalid_request}
use combee.Exec.{Exec, pure, raise, lift, ignore, ◌>>=◌, ◌>>◌}
use combee.Text.{Bytes}
use combee.Text.Utf8.{is_utf8}
use combee.Text.Decimal.{parse_i64, to_string}
use combee.Ttl.{is_expired, ttl_or_remaining, expires_at_from}
use combee.Sqlite.{
  Row, Statement, upsert, insert_if_absent, update_if_present, delete, set_expiry, Sqlite,
  row_expired,
}

-- protocol.rs
pub record KvEntry : Type 0 where
  pub value : Bytes
  pub ttl_seconds : Option ℤ

pub record KvSetItem : Type 0 where
  pub key : String
  pub value : Bytes
  pub ttl_seconds : Option ℕ

-- The readings of the clock within one call, in order.
abbrev pub Clock : Type 0
Clock = ℕ → ℤ

abbrev pub checked_add : ℤ → ℤ → Option ℤ
checked_add a b = if in_i64 (a +ℤ b) then some (a +ℤ b) else none

abbrev pub or_else {ℓ} : {A : Type ℓ} → Option A → Option A → Option A
or_else none b = b
or_else (some a) b = some a

abbrev pub entry : ℤ → Option (Bytes × Option ℤ) → Option KvEntry
entry now none = none
entry now (some (v, e)) = some (record { value = v; ttl_seconds = ttl_or_remaining e now })

abbrev pub set_statement : String → Bytes → Option ℤ → Bool → Bool → Statement
set_statement key value e nx xx =
    if nx
    then insert_if_absent key value e
    else if xx
    then update_if_present key value e
    else upsert key value e

abbrev pub set_changed : Bool → Bool → ℕ → ℕ
set_changed nx xx n = if nx then n else if xx then n else 1

abbrev pub present : ℤ → Option Row → Bool
present now none = false
present now (some r) = not (row_expired r now)

abbrev pub value_of : Option KvEntry → Option Bytes
value_of none = none
value_of (some e) = some e.value

abbrev pub remaining : ℤ → Row → Option ℤ → Option ℤ
remaining now r none = some (negsuc 0)
remaining now r (some e) =
    if row_expired r now then none else some (max_ℤ (wrapping_sub e now) (pos 0))

abbrev pub ttl_of : ℤ → Option Row → Option ℤ
ttl_of now none = none
ttl_of now (some r) = remaining now r r.expires_at

module _ {Conn : Type 0} (sq : Sqlite Conn) where
  pub read_row : String → Exec Conn (Option Row)
  read_row key c = (sq.select key c, c)

  -- DEL
  unfoldable pub del : String → Exec Conn Bool
  del key = do n ← sq.execute (delete key); pure (ltb 0 n)

  -- The value and the moment it expires, for a row that has not expired; an expired row is
  -- deleted on the way.
  live_row : String → ℤ → Option Row → Exec Conn (Option (Bytes × Option ℤ))
  unfolding del
  live_row key now none = pure none
  live_row key now (some r) =
      if row_expired r now
      then (do ignore (del key); pure none)
      else if is_utf8 r.value
      then pure (some (r.value, r.expires_at))
      else raise invalid_request

  unfoldable pub read_with_expiry : String → ℤ → Exec Conn (Option (Bytes × Option ℤ))
  unfolding read_row live_row
  read_with_expiry key now = do r ← read_row key; live_row key now r

  -- GET; `now` is read first, `then_now` in `read_with_expiry`.
  unfoldable pub get : String → ℤ → ℤ → Exec Conn (Option KvEntry)
  unfolding read_with_expiry
  get key now then_now = do r ← read_with_expiry key then_now; pure (entry now r)

  -- SET key value [EX ttl] [NX|XX]; the result says whether it wrote.
  unfoldable pub set : String → Bytes → Option ℕ → Bool → Bool → ℤ → Exec Conn Bool
  set key value ttl_seconds nx xx now = if str_eq key "" then raise invalid_request else do
    n ← sq.execute (set_statement key value (expires_at_from ttl_seconds now) nx xx)
    pure (ltb 0 (set_changed nx xx n))

  -- EXISTS
  unfoldable pub exists : String → ℤ → Exec Conn Bool
  unfolding read_row
  exists key now = do r ← read_row key; pure (present now r)

  -- MGET; the i-th key reads the clock at `i` and `i + 1`.
  unfoldable pub mget : Clock → ℕ → List String → Exec Conn (List (Option Bytes))
  mget clock i [] = pure []
  mget clock i (k ∷ ks) = do
    e ← get k (clock i) (clock (i + 1))
    rest ← mget clock (i + 2) ks
    pure (value_of e ∷ rest)

  -- MSET
  unfoldable pub mset : Clock → ℕ → List KvSetItem → Exec Conn (Unit {0})
  mset clock i [] = pure tt
  mset clock i (it ∷ items) = do
    written ← set it.key it.value it.ttl_seconds false false (clock i)
    mset clock (i + 1) items

  -- TTL: -1 for a key that does not expire.
  unfoldable pub ttl : String → ℤ → Exec Conn (Option ℤ)
  unfolding read_row wrapping_sub
  ttl key now = do r ← read_row key; pure (ttl_of now r)

  -- EXPIRE, or PERSIST where no ttl is given.
  unfoldable pub expire : String → Option ℕ → ℤ → ℤ → Exec Conn Bool
  unfolding exists expires_at_from
  expire key ttl_seconds now then_now = do
    found ← exists key now
    if found
        then (do n ← sq.execute (set_expiry key (expires_at_from ttl_seconds then_now)); pure true)
        else pure false

  -- What INCR stores: the sum, and when it expires.
  increased : ℤ → Option ℕ → ℤ → Row → Result (ℤ × Option ℤ)
  unfolding expires_at_from
  increased delta ttl_seconds now r =
      if is_utf8 r.value
      then elim (parse_i64 r.value) [
        | none ↦ err invalid_request
        | some old ↦ elim (checked_add old delta) [
          | none ↦ err invalid_request
          | some new ↦ ok (new, or_else (expires_at_from ttl_seconds now) r.expires_at)
        ]
      ]
      else err invalid_request

  unfoldable pub incr_from : String → ℤ → Option ℕ → ℤ → Option Row → Exec Conn (ℤ × Option ℤ)
  unfolding increased del expires_at_from
  incr_from key delta ttl_seconds now none = pure (delta, expires_at_from ttl_seconds now)
  incr_from key delta ttl_seconds now (some r) =
      if row_expired r now
      then (do ignore (del key); pure (delta, expires_at_from ttl_seconds now))
      else lift (increased delta ttl_seconds now r)

  -- INCR and DECR
  unfoldable pub incr : String → ℤ → Option ℕ → ℤ → Exec Conn ℤ
  unfolding read_row
  incr key delta ttl_seconds now = if str_eq key "" then raise invalid_request else do
    r ← read_row key
    (value, e) ← incr_from key delta ttl_seconds now r
    sq.execute (upsert key (to_string value) e)
    pure value
