-- ===== src/Backup/Restored.antt =====
-- crates/data-node/src/backup.rs: `restore_from_incr` after `upload_incr`, whether it succeeded or lost
-- the WAL on the way.
use combee.Prelude.{
  ℕ, ◌≡◌, refl, ap, sym, ◌∙◌, Bool, true, Option, none, some, [], ◌∷◌, ltb, arith, if◌then◌else◌,
  Bool-cases, Option-cases, inl, inr, String,
}
use combee.Errors.{Result, ok, err, Result-cases}
use combee.Text.{Bytes}
use combee.Backup.{
  ObjectStore, ObjectName, full, snapshot, wal, Files, upload_incr, upload_wal, restore_from_incr,
  is_empty,
}
use combee.Backup.Latest.{is_until}
use combee.Backup.Rounds.{eq_name, IsFaithful, Until, restored}

-- The name is of an earlier round.
abbrev pub is_before : ℕ → ObjectName → Bool
is_before rev (full ts id) = true
is_before rev (snapshot r) = ltb r rev
is_before rev (wal r) = ltb r rev

is_before→until : (rev : ℕ) (k : ObjectName) → is_before rev k ≡ true → is_until rev k ≡ true
is_before→until rev (full ts id) h = refl
is_before→until rev (snapshot r) h = ground (arith, h)
is_before→until rev (wal r) h = ground (arith, h)

eq_name-until :
    (rev : ℕ) (n k : ObjectName)
    → eq_name n k ≡ true
    → is_until rev n ≡ true
    → is_until rev k ≡ true
eq_name-until rev n (full ts id) h u = refl
eq_name-until rev (full ts id) (snapshot r) h u = ground (arith, h)
eq_name-until rev (wal q) (snapshot r) h u = ground (arith, h)
eq_name-until rev (snapshot q) (snapshot r) h u = ground (arith, h, u)
eq_name-until rev (full ts id) (wal r) h u = ground (arith, h)
eq_name-until rev (snapshot q) (wal r) h u = ground (arith, h)
eq_name-until rev (wal q) (wal r) h u = ground (arith, h, u)

-- What a WAL leaves behind: an empty one is not uploaded.
abbrev pub wal_kept : Option Bytes → Option Bytes
wal_kept none = none
wal_kept (some w) = if is_empty w then none else some w

-- Of a round that failed after its snapshot, no WAL is left.
abbrev pub kept_if : {A : Type 0} → Result A → Option Bytes → Option Bytes
kept_if (ok a) w = wal_kept w
kept_if (err e) w = none

module _ {S : Type 0} (os : ObjectStore S) where
  abbrev pub Before : ℕ → ℕ → S → Type 0
  Before db rev s =
      (k : ObjectName) (b : Bytes) → os.content db k s ≡ some b → is_before rev k ≡ true

  put-Until :
      (good : IsFaithful os) (db rev : ℕ) (n : ObjectName) (b : Bytes) (s : S)
      → is_until rev n ≡ true
      → Until os db rev s
      → Until os db rev (os.put db n b s).1
  put-Until good db rev n b s u h k c there = elim (Result-cases (os.put db n b s).0) [
    | inr (e, q) ↦ h k c (sym (good.refuses db n b s k e q) ∙ there)
    | inl (t, q) ↦ elim (Bool-cases (eq_name n k)) [
      | inl same ↦ eq_name-until rev n k same u
      | inr other ↦ h k c (ground (arith, good.puts db n b s k q, other, there))
    ]
  ]

  abbrev after_snapshot : ℕ → ℕ → Bytes → S → S
  after_snapshot db rev snap s = (os.put db (snapshot rev) snap s).1

  snapshot-Until :
      (good : IsFaithful os) (db rev : ℕ) (snap : Bytes) (s : S)
      → Before db rev s
      → Until os db rev (after_snapshot db rev snap s)
  snapshot-Until good db rev snap s h =
      put-Until good db rev (snapshot rev) snap s (ground arith)
        (λ k b there. is_before→until rev k (h k b there))

  no_wal : (db rev : ℕ) (s : S) → Before db rev s → os.content db (wal rev) s ≡ none
  no_wal db rev s h = elim (Option-cases (os.content db (wal rev) s)) [
    | inl q ↦ q
    | inr (b, q) ↦ ground (arith, h (wal rev) b q)
  ]

  module _ (sha : Bytes → String) (name_length : ℕ → ObjectName → ℕ) where
    -- The state after the snapshot was accepted is the one after the WAL.
    upload_incr_state :
        (db rev : ℕ) (snap : Bytes) (w : Option Bytes) (s : S)
        → (os.put db (snapshot rev) snap s).0 ≡ ok tt
        → let r = upload_incr os sha name_length db snap w rev s in
          let q = upload_wal os sha name_length db w rev (after_snapshot db rev snap s) in
          (r.1 ≡ q.1) × (kept_if r.0 w ≡ kept_if q.0 w)
    unfolding upload_incr
    upload_incr_state db rev snap w s accepted =
        let s1 = after_snapshot db rev snap s in
        elim (Result-cases (upload_wal os sha name_length db w rev s1).0) [
          | inl (n, q) ↦ (ground (arith, accepted, q), ground (arith, accepted, q))
          | inr (e, q) ↦ (ground (arith, accepted, q), ground (arith, accepted, q))
        ]

    upload_wal_state :
        (db rev b : ℕ) (bs : Bytes) (s : S)
        → (os.put db (wal rev) (b ∷ bs) s).1
          ≡ (upload_wal os sha name_length db (some (b ∷ bs)) rev s).1
    upload_wal_state db rev b bs s = elim (Result-cases (os.put db (wal rev) (b ∷ bs) s).0) [
      | inl (t, q) ↦ ground (arith, q)
      | inr (e, q) ↦ ground (arith, q)
    ]

    -- Uploading the WAL leaves the rest, and the WAL is there when it was accepted.
    upload_wal_lem :
        (good : IsFaithful os) (db rev : ℕ) (w : Option Bytes) (s : S)
        → Until os db rev s
        → os.content db (wal rev) s ≡ none
        → let q = upload_wal os sha name_length db w rev s in
          (Until os db rev q.1)
          × (os.content db (snapshot rev) q.1 ≡ os.content db (snapshot rev) s)
          × (os.content db (wal rev) q.1 ≡ kept_if q.0 w)
    upload_wal_lem good db rev none s h gone = (h, refl, gone)
    upload_wal_lem good db rev (some []) s h gone = (h, refl, gone)
    upload_wal_lem good db rev (some (b ∷ bs)) s h gone =
        let kept : Until os db rev (os.put db (wal rev) (b ∷ bs) s).1 =
          put-Until good db rev (wal rev) (b ∷ bs) s (ground arith) h in
        let still : Until os db rev (upload_wal os sha name_length db (some (b ∷ bs)) rev s).1 =
          λ k c there. kept k c (ap (os.content db k) (upload_wal_state db rev b bs s) ∙ there) in
        elim (Result-cases (os.put db (wal rev) (b ∷ bs) s).0) [
          | inl (t, q) ↦ (
            still,
            ground (arith, q, good.puts db (wal rev) (b ∷ bs) s (snapshot rev) q),
            ground (arith, q, good.puts db (wal rev) (b ∷ bs) s (wal rev) q),
          )
          | inr (e, q) ↦ (
            still,
            ground (arith, q, good.refuses db (wal rev) (b ∷ bs) s (snapshot rev) e q),
            ground (arith, q, gone, good.refuses db (wal rev) (b ∷ bs) s (wal rev) e q),
          )
        ]

    -- Take an object store that keeps what it accepts and gives what it has, with only earlier
    -- rounds of a Cell, and a round whose snapshot it accepts. All work on local files succeeds.
    -- Restoring then brings back the snapshot of that round, and its WAL if the round succeeded
    -- with one that is not empty; if the upload of the WAL failed, it brings back the snapshot
    -- without any WAL.
    pub restore_from_incr-upload_incr :
        (db rev : ℕ) (snap : Bytes) (w : Option Bytes) (s : S) (f : Files)
        → IsFaithful os
        → Before db rev s
        → (os.put db (snapshot rev) snap s).0 ≡ ok tt
        → let r = upload_incr os sha name_length db snap w rev s in
          restore_from_incr os sha (ok tt) (ok tt) db r.1 f
          ≡ (ok true, record { main = some snap; wal_file = kept_if r.0 w })
    restore_from_incr-upload_incr db rev snap w s f good h accepted =
        let s1 = after_snapshot db rev snap s in
        let state = upload_incr_state db rev snap w s accepted in
        let here : (os.content db (snapshot rev) s1 ≡ some snap) =
          ground (arith, good.puts db (snapshot rev) snap s (snapshot rev) accepted) in
        let gone : (os.content db (wal rev) s1 ≡ none) =
          ground
            (arith, good.puts db (snapshot rev) snap s (wal rev) accepted, no_wal db rev s h) in
        let q = upload_wal_lem good db rev w s1 (snapshot-Until good db rev snap s h) gone in
        rw state.0 (
          restored os good sha db rev snap (upload_wal os sha name_length db w rev s1).1 f q.0
            (q.1 ∙ here)
          ∙ ap (λ x. (ok true, record { main = some snap; wal_file = x })) (q.2 ∙ sym state.1))
