-- ===== src/Tests/Backups.antt =====
-- The incremental backup over a list of objects: its theorem at two rounds.
use combee.Prelude.{
  ℕ, ◌≡◌, refl, true, none, some, [], ◌∷◌, arith, String, ◌==◌, Bool-cases, inl, inr,
}
use combee.Errors.{ok}
use combee.Text.{Bytes}
use combee.Backup.{ObjectName, snapshot, wal, full, upload_incr, restore_from_incr}
use combee.Backup.Restored.{kept_if, Before, restore_from_incr-upload_incr}
use combee.Backup.Ideal.{Objects, objects, objects-IsFaithful}

abbrev earlier : Objects
earlier = ((3, wal 5), 1 ∷ []) ∷ ((3, snapshot 5), 2 ∷ []) ∷ []

abbrev hash_of : Bytes → String
hash_of bytes = "h"

abbrev length_of : ℕ → ObjectName → ℕ
length_of db k = 9

earlier-Before : Before objects 3 8 earlier
earlier-Before (full ts id) b h = refl
earlier-Before (snapshot r) b h = elim (Bool-cases (5 == r)) [
  | inl q ↦ ground (arith, q)
  | inr q ↦ ground (arith, h, q)
]
earlier-Before (wal r) b h = elim (Bool-cases (5 == r)) [
  | inl q ↦ ground (arith, q)
  | inr q ↦ ground (arith, h, q)
]

restore_from_incr-upload_incr_example :
    let r = upload_incr objects hash_of length_of 3 (7 ∷ []) (some (8 ∷ [])) 8 earlier in
    restore_from_incr objects hash_of
      (ok tt)
      (ok tt)
      3
      r.1
      (record { main = none; wal_file = none })
    ≡ (ok true, record { main = some (7 ∷ []); wal_file = kept_if r.0 (some (8 ∷ [])) })
restore_from_incr-upload_incr_example =
    restore_from_incr-upload_incr objects hash_of length_of 3 8 (7 ∷ []) (some (8 ∷ [])) earlier
      (record { main = none; wal_file = none }) objects-IsFaithful earlier-Before refl
