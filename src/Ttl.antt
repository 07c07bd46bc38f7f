-- ===== src/Ttl.antt =====
-- crates/data-node/src/ttl.rs: expiry times. `unix_now` is an input: every function that reads the
-- clock takes its readings as arguments.
use combee.Prelude.{ℕ, ◌+◌, ◌^◌, ◌<◌, ◌≤◌, ◌≡◌, Bool, true, false, Option, none, some, arith}
use combee.Prelude.Int.{ℤ, pos, ◌+ℤ◌, ◌≤ℤ◌, leb_ℤ, max_ℤ, as_i64, wrapping_add, wrapping_sub}

-- `expires_at <= now`.
unfoldable pub is_expired : Option ℤ → ℤ → Bool
is_expired none now = false
is_expired (some e) now = leb_ℤ e now

-- The seconds left; `None` for a key that does not expire.
unfoldable pub ttl_or_remaining : Option ℤ → ℤ → Option ℤ
unfolding wrapping_sub
ttl_or_remaining none now = none
ttl_or_remaining (some e) now = some (max_ℤ (wrapping_sub e now) (pos 0))

-- `now + s as i64`, in a release build.
unfoldable pub expires_at_from : Option ℕ → ℤ → Option ℤ
unfolding wrapping_add as_i64
expires_at_from none now = none
expires_at_from (some s) now = some (wrapping_add now (as_i64 s))

-- What has expired stays expired while the clock does not go back.
pub is_expired_mono :
    (e : Option ℤ) (now later : ℤ)
    → now ≤ℤ later
    → is_expired e now ≡ true
    → is_expired e later ≡ true
unfolding is_expired
is_expired_mono none now later h x = x
is_expired_mono (some e) now later h x = ground arith

-- While `now + s` stays in the range of `i64` nothing wraps.
expires_at_from_small :
    (s now : ℕ) → now + s < 2 ^ 63 → expires_at_from (some s) (pos now) ≡ some (pos (now + s))
unfolding expires_at_from ◌+ℤ◌
expires_at_from_small s now h = ground arith

-- At a moment from 0 to the largest `i64`, a lifetime of 2 ^ 63 seconds or more has ended at once.
pub expires_at_from_large :
    (s now : ℕ)
    → 2 ^ 63 ≤ s
    → s < 2 ^ 64
    → now < 2 ^ 63
    → is_expired (expires_at_from (some s) (pos now)) (pos now) ≡ true
unfolding expires_at_from is_expired ◌+ℤ◌
expires_at_from_large s now lo hi h = ground arith
