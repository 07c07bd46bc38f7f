-- ===== src/Kv/Live.antt =====
-- What a client can see of a row of crates/data-node/src/kv.rs at a moment.
use combee.Prelude.{◌≡◌, refl, true, Option, none, some, arith, Bool-cases, inl, inr, if◌then◌else◌}
use combee.Prelude.Int.{ℤ, ◌≤ℤ◌}
use combee.Errors.{Result, ok, err, invalid_request}
use combee.Text.{Bytes}
use combee.Text.Utf8.{is_utf8}
use combee.Ttl.{is_expired_mono}
use combee.Sqlite.{Row, row_expired}

abbrev pub live : ℤ → Option Row → Option (Bytes × Option ℤ)
live now none = none
live now (some r) = if row_expired r now then none else some (r.value, r.expires_at)

-- The table without the row of `k`, if that has expired.
abbrev pub dropped : ℤ → Option Row → Option Row
dropped now none = none
dropped now (some r) = if row_expired r now then none else some r

abbrev pub checked : Option (Bytes × Option ℤ) → Result (Option (Bytes × Option ℤ))
checked none = ok none
checked (some (v, e)) = if is_utf8 v then ok (some (v, e)) else err invalid_request

-- Dropping what had expired hides nothing, then or later.
pub live-dropped :
    (now later : ℤ) (o : Option Row) → now ≤ℤ later → live later (dropped now o) ≡ live later o
live-dropped now later none h = refl
live-dropped now later (some r) h = elim (Bool-cases (row_expired r now)) [
  | inl x ↦ rw (x, is_expired_mono r.expires_at now later h x)
  | inr x ↦ rw x
]

-- A table of UTF-8 refuses no reading.
pub checked-live :
    (now : ℤ) (o : Option Row)
    → ((r : Row) → o ≡ some r → is_utf8 r.value ≡ true)
    → checked (live now o) ≡ ok (live now o)
checked-live now none u = refl
checked-live now (some r) u = ground (arith, u r refl)
