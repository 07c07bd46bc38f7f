-- ===== src/Access/Leases.antt =====
-- crates/metadata/src/store.rs: the owners of a lease.
use combee.Prelude.{ℕ, String, ◌≡◌, true, false, ◌==◌, eq_iff, arith}
use combee.Prelude.Int.{ℤ, ◌≤ℤ◌, ◌<ℤ◌, wrapping_add}
use combee.Access.{Access, try_acquire_lease}

-- Up to the moment at which a lease that was granted runs out, it is refused to every other owner,
-- with nothing changed, and granted to its owner.
pub try_acquire_lease_excludes :
    (name : String) (owner other : ℕ) (now later ttl longer : ℤ) (a : Access)
    → (try_acquire_lease name owner now ttl a).0 ≡ true
    → (owner == other) ≡ false
    → later ≤ℤ wrapping_add now ttl
    → let a' = (try_acquire_lease name owner now ttl a).1 in
      (try_acquire_lease name other later longer a' ≡ (false, a'))
      × ((try_acquire_lease name owner later longer a').0 ≡ true)
unfolding try_acquire_lease
try_acquire_lease_excludes name owner other now later ttl longer a granted ne le =
    (ground (arith, granted, ne, le, eq_iff name name), ground (arith, granted, eq_iff name name))

-- A lease that has run out is granted to anyone.
try_acquire_lease_expired :
    (name : String) (owner other : ℕ) (now later ttl longer : ℤ) (a : Access)
    → (try_acquire_lease name owner now ttl a).0 ≡ true
    → wrapping_add now ttl <ℤ later
    → (try_acquire_lease name other later longer (try_acquire_lease name owner now ttl a).1).0
      ≡ true
unfolding try_acquire_lease
try_acquire_lease_expired name owner other now later ttl longer a granted lt =
    ground (arith, granted, lt, eq_iff name name)
