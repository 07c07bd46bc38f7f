-- ===== src/Backup/Rounds.antt =====
-- crates/data-node/src/backup.rs: what `restore_from_incr` brings back after `upload_incr`.
use combee.Prelude.{
  ℕ, ◌≡◌, refl, ap, sym, ◌∙◌, Bool, true, false, not, Option, none, some, List, [], ◌∷◌, ◌==◌, ◌&&◌,
  arith, if◌then◌else◌, Bool-cases, Option-cases, inl, inr, String,
}
use combee.Errors.{ok, err, CombeeError}
use combee.Text.{Bytes}
use combee.Backup.{
  ObjectStore, ObjectName, full, snapshot, wal, Files, latest_incr, download_snapshot,
  restore_from_incr,
}
use combee.Backup.Latest.{is_snapshot, is_wal, any_name, is_until, all_until, latest_of_lem}

abbrev pub eq_name : ObjectName → ObjectName → Bool
eq_name (full ts id) (full ts' id') = (ts == ts') && (id == id')
eq_name (full ts id) (snapshot r) = false
eq_name (full ts id) (wal r) = false
eq_name (snapshot q) (full ts id) = false
eq_name (snapshot q) (snapshot r) = q == r
eq_name (snapshot q) (wal r) = false
eq_name (wal q) (full ts id) = false
eq_name (wal q) (snapshot r) = false
eq_name (wal q) (wal r) = q == r

-- A store that keeps what it accepts, changes nothing when it refuses, gives what it has, and lists
-- the names of a Cell that it has.
pub record IsFaithful {S : Type 0} (os : ObjectStore S) : Type 0 where
  pub puts :
      (db : ℕ) (k : ObjectName) (b : Bytes) (s : S) (j : ObjectName)
      → (os.put db k b s).0 ≡ ok tt
      → os.content db j (os.put db k b s).1 ≡ (if eq_name k j then some b else os.content db j s)
  pub refuses :
      (db : ℕ) (k : ObjectName) (b : Bytes) (s : S) (j : ObjectName) (e : CombeeError)
      → (os.put db k b s).0 ≡ err e
      → os.content db j (os.put db k b s).1 ≡ os.content db j s
  pub gives :
      (db : ℕ) (k : ObjectName) (b : Bytes) (s : S)
      → os.content db k s ≡ some b
      → os.get db k s ≡ ok b
  pub names : ℕ → S → List ObjectName
  pub lists : (db : ℕ) (s : S) → os.list db s ≡ ok (names db s)
  pub complete :
      (db : ℕ) (s : S) (test : ObjectName → Bool) (k : ObjectName) (b : Bytes)
      → os.content db k s ≡ some b
      → test k ≡ true
      → any_name test (names db s) ≡ true
  pub sound :
      (db : ℕ) (s : S) (test : ObjectName → Bool)
      → any_name test (names db s) ≡ true
      → (k : ObjectName) × (b : Bytes) × (os.content db k s ≡ some b) × (test k ≡ true)

all_until_of :
    (rev : ℕ) (ks : List ObjectName)
    → any_name (λ k. not (is_until rev k)) ks ≡ false
    → all_until rev ks ≡ true
all_until_of rev [] h = refl
all_until_of rev (k ∷ ks) h = ground (arith, h, all_until_of rev ks)

is_wal→eq : (rev : ℕ) (k : ObjectName) → is_wal rev k ≡ true → k ≡ wal rev
is_wal→eq rev (full ts id) h = ground (arith, h)
is_wal→eq rev (snapshot r) h = ground (arith, h)
is_wal→eq rev (wal r) h = ap wal (ground (arith, h))

abbrev is_some : Option Bytes → Bool
is_some none = false
is_some (some b) = true

module _ {S : Type 0} (os : ObjectStore S) where
  -- What is in the store is of no later round.
  abbrev pub Until : ℕ → ℕ → S → Type 0
  Until db rev s = (k : ObjectName) (b : Bytes) → os.content db k s ≡ some b → is_until rev k ≡ true

  names-all_until :
      (good : IsFaithful os) (db rev : ℕ) (s : S)
      → Until db rev s
      → all_until rev (good.names db s) ≡ true
  names-all_until good db rev s h =
      elim (Bool-cases (any_name (λ k. not (is_until rev k)) (good.names db s))) [
        | inl q ↦
            let (k, b, there, late) = good.sound db s (λ k. not (is_until rev k)) q in
            ground (arith, late, h k b there)
        | inr q ↦ all_until_of rev (good.names db s) q
      ]

  names-is_wal :
      (good : IsFaithful os) (db rev : ℕ) (s : S)
      → any_name (is_wal rev) (good.names db s) ≡ is_some (os.content db (wal rev) s)
  names-is_wal good db rev s = elim (Option-cases (os.content db (wal rev) s)) [
    | inr (b, q) ↦ ground (arith, q, good.complete db s (is_wal rev) (wal rev) b q (ground arith))
    | inl q ↦ elim (Bool-cases (any_name (is_wal rev) (good.names db s))) [
      | inr p ↦ ground (arith, p, q)
      | inl p ↦
          let (k, b, there, named) = good.sound db s (is_wal rev) p in
          ground (arith, q, sym (ap (λ x. os.content db x s) (is_wal→eq rev k named)) ∙ there)
    ]
  ]

  latest_incr_lem :
      (good : IsFaithful os) (sha : Bytes → String) (db rev : ℕ) (snap : Bytes) (s : S)
      → Until db rev s
      → os.content db (snapshot rev) s ≡ some snap
      → latest_incr os sha db s
        ≡ ok (
            some
              (snapshot rev, if is_some (os.content db (wal rev) s) then some (wal rev) else none))
  unfolding latest_incr
  latest_incr_lem good sha db rev snap s h there =
      let found =
        latest_of_lem rev (good.names db s) (names-all_until good db rev s h)
          (good.complete db s (is_snapshot rev) (snapshot rev) snap there (ground arith)) in
      rw (good.lists db s, latest_incr)
        (ap ok (
          found
          ∙ ap (λ b. some (snapshot rev, if b then some (wal rev) else none))
              (names-is_wal good db rev s)))

  pub restored :
      (good : IsFaithful os) (sha : Bytes → String) (db rev : ℕ) (snap : Bytes) (s : S) (f : Files)
      → Until db rev s
      → os.content db (snapshot rev) s ≡ some snap
      → restore_from_incr os sha (ok tt) (ok tt) db s f
        ≡ (ok true, record { main = some snap; wal_file = os.content db (wal rev) s })
  unfolding restore_from_incr download_snapshot
  restored good sha db rev snap s f h there =
      let found = latest_incr_lem good sha db rev snap s h there in
      let taken = good.gives db (snapshot rev) snap s there in
      elim (Option-cases (os.content db (wal rev) s)) [
        | inl q ↦ ground (arith, found, taken, q)
        | inr (w, q) ↦ ground (arith, found, taken, q, good.gives db (wal rev) w s q)
      ]
