-- ===== src/Backup/Latest.antt =====
-- crates/data-node/src/backup.rs: which round of the incremental backup `latest_incr` takes.
use combee.Prelude.{
  ℕ, ◌≤◌, ◌≡◌, refl, ap, ◌∙◌, Bool, true, false, none, some, List, [], ◌∷◌, ◌==◌, ◌&&◌, ◌||◌, leb,
  arith, if◌then◌else◌, Bool-cases, inl, inr,
}
use combee.Backup.{
  ObjectName, full, snapshot, wal, parse_rev, IncrMeta, no_meta, noted, note_at, note, note_all,
  first_with_snap, latest_of,
}

abbrev pub is_snapshot : ℕ → ObjectName → Bool
is_snapshot rev (full ts id) = false
is_snapshot rev (snapshot r) = r == rev
is_snapshot rev (wal r) = false

abbrev pub is_wal : ℕ → ObjectName → Bool
is_wal rev (full ts id) = false
is_wal rev (snapshot r) = false
is_wal rev (wal r) = r == rev

abbrev pub any_name : (ObjectName → Bool) → List ObjectName → Bool
any_name test [] = false
any_name test (k ∷ ks) = test k || any_name test ks

-- The name is of no later round.
abbrev pub is_until : ℕ → ObjectName → Bool
is_until rev (full ts id) = true
is_until rev (snapshot r) = leb r rev
is_until rev (wal r) = leb r rev

abbrev pub all_until : ℕ → List ObjectName → Bool
all_until rev [] = true
all_until rev (k ∷ ks) = is_until rev k && all_until rev ks

-- The first entry, if it is of the round.
abbrev head_at : ℕ → List (ℕ × IncrMeta) → IncrMeta
head_at rev [] = no_meta
head_at rev ((r, e) ∷ es) = if r == rev then e else no_meta

abbrev starts_until : ℕ → List (ℕ × IncrMeta) → Bool
starts_until rev [] = true
starts_until rev ((r, e) ∷ es) = leb r rev

head_at-note_at :
    (rev r : ℕ) (k : ObjectName) (es : List (ℕ × IncrMeta))
    → r ≤ rev
    → starts_until rev es ≡ true
    → (head_at rev (note_at r k es)
        ≡ (if r == rev then noted k (head_at rev es) else head_at rev es))
      × (starts_until rev (note_at r k es) ≡ true)
unfolding note_at
head_at-note_at rev r k [] le h = (ground (arith, le), ground (arith, le))
head_at-note_at rev r k ((q, e) ∷ es) le h = (ground (arith, le, h), ground (arith, le, h))

head_at-note :
    (rev : ℕ) (k : ObjectName) (es : List (ℕ × IncrMeta))
    → is_until rev k ≡ true
    → starts_until rev es ≡ true
    → (head_at rev (note k es)
        ≡ (if is_snapshot rev k || is_wal rev k then noted k (head_at rev es) else head_at rev es))
      × (starts_until rev (note k es) ≡ true)
unfolding parse_rev
head_at-note rev (full ts id) es u h = (refl, h)
head_at-note rev (snapshot r) es u h =
    let l = head_at-note_at rev r (snapshot r) es (ground (arith, u)) h in
    (ground (arith, l.0), l.1)
head_at-note rev (wal r) es u h =
    let l = head_at-note_at rev r (wal r) es (ground (arith, u)) h in (ground (arith, l.0), l.1)

-- What the names of a list note for the round.
abbrev round_of : ℕ → List ObjectName → IncrMeta → IncrMeta
round_of rev ks e = record {
  snap = if any_name (is_snapshot rev) ks then some (snapshot rev) else e.snap;
  wal_key = if any_name (is_wal rev) ks then some (wal rev) else e.wal_key;
}

round_of_cons :
    (rev : ℕ) (k : ObjectName) (ks : List ObjectName) (e : IncrMeta)
    → round_of rev ks (if is_snapshot rev k || is_wal rev k then noted k e else e)
      ≡ round_of rev (k ∷ ks) e
round_of_cons rev (full ts id) ks e = refl
round_of_cons rev (snapshot r) ks e = elim (Bool-cases (r == rev)) [
  | inl q ↦
      let same : (snapshot r ≡ snapshot rev) = ap snapshot (ground (arith, q)) in
      ground (arith, q, same)
  | inr q ↦ ground (arith, q)
]
round_of_cons rev (wal r) ks e = elim (Bool-cases (r == rev)) [
  | inl q ↦ let same : (wal r ≡ wal rev) = ap wal (ground (arith, q)) in ground (arith, q, same)
  | inr q ↦ ground (arith, q)
]

head_at-note_all :
    (rev : ℕ) (ks : List ObjectName) (es : List (ℕ × IncrMeta))
    → all_until rev ks ≡ true
    → starts_until rev es ≡ true
    → head_at rev (note_all ks es) ≡ round_of rev ks (head_at rev es)
unfolding note_all
head_at-note_all rev [] es u h = refl
head_at-note_all rev (k ∷ ks) es u h =
    let (step, still) = head_at-note rev k es (ground (arith, u)) h in
    head_at-note_all rev ks (note k es) (ground (arith, u)) still
    ∙ ap (round_of rev ks) step
    ∙ round_of_cons rev k ks (head_at rev es)

first_with_snap-head :
    (rev : ℕ) (k : ObjectName) (es : List (ℕ × IncrMeta))
    → (head_at rev es).snap ≡ some k
    → first_with_snap es ≡ some (k, (head_at rev es).wal_key)
unfolding first_with_snap
first_with_snap-head rev k [] h = ground (arith, h)
first_with_snap-head rev k ((r, e) ∷ es) h = elim (Bool-cases (r == rev)) [
  | inl q ↦ ground (arith, q, h)
  | inr q ↦ ground (arith, q, h)
]

-- Where the list has the snapshot of a round and nothing of a later one, that snapshot is taken, with
-- the WAL of the round if the list has it.
pub latest_of_lem :
    (rev : ℕ) (ks : List ObjectName)
    → all_until rev ks ≡ true
    → any_name (is_snapshot rev) ks ≡ true
    → latest_of ks ≡ some (snapshot rev, if any_name (is_wal rev) ks then some (wal rev) else none)
latest_of_lem rev ks u there =
    let head = head_at-note_all rev ks [] u refl in
    first_with_snap-head rev (snapshot rev) (note_all ks [])
      (ap (λ e. e.snap) head ∙ ground (arith, there))
    ∙ ap (λ e. some (snapshot rev, e.wal_key)) head
