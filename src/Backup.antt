-- ===== src/Backup.antt =====
-- crates/data-node/src/backup.rs: snapshots of a Cell in an object store, and the rounds of the
-- incremental backup. The name of an object is kept by its parts: the Cell, and what stands after
-- `backups/{db}/`.

pub mod Latest
pub mod Rounds
pub mod Restored
pub mod Ideal
use combee.Prelude.{
  ℕ, ◌+◌, ◌/◌, Bool, true, false, Option, none, some, List, [], ◌∷◌, ◌==◌, ◌&&◌, ltb, length,
  String, if◌then◌else◌,
}
use combee.Errors.{Result, ok, err}
use combee.Exec.{Exec, pure, ◌>>=◌, ◌>>◌}
use combee.Text.{Bytes}

-- `{ts_ms}-{uuid}.sqlite`, `incr/snapshot-{rev}.sqlite` and `incr/wal-{rev}.sqlite-wal`
pub data ObjectName : Type 0 where
  full : ℕ → ℕ → ObjectName
  snapshot wal : ℕ → ObjectName

-- An object store: what the code calls of it, and its content.
pub record ObjectStore (S : Type 0) : Type 0 where
  pub put : ℕ → ObjectName → Bytes → Exec S (Unit {0})
  pub get : ℕ → ObjectName → S → Result Bytes
  pub list : ℕ → S → Result (List ObjectName)
  pub content : ℕ → ObjectName → S → Option Bytes

pub record BackupInfo : Type 0 where
  pub key : ObjectName
  pub size_bytes : ℕ
  pub created_at : ℕ
  pub checksum : Option String

-- `parse_rev`, on the parts of a name: those of the incremental backup have a round.
unfoldable pub parse_rev : ObjectName → Option ℕ
parse_rev (full ts id) = none
parse_rev (snapshot rev) = some rev
parse_rev (wal rev) = some rev

pub record IncrMeta : Type 0 where
  pub snap : Option ObjectName
  pub wal_key : Option ObjectName

abbrev pub no_meta : IncrMeta
no_meta = record { snap = none; wal_key = none }

-- What the loop of `latest_incr` does with the entry of the round of a name.
abbrev pub noted : ObjectName → IncrMeta → IncrMeta
noted (full ts id) e = e
noted (snapshot rev) e = record e { snap = some (snapshot rev) }
noted (wal rev) e = record e { wal_key = some (wal rev) }

-- `by_rev.entry(rev).or_default()`: the map is the list of its entries from the last round back.
unfoldable pub note_at : ℕ → ObjectName → List (ℕ × IncrMeta) → List (ℕ × IncrMeta)
note_at rev k [] = (rev, noted k no_meta) ∷ []
note_at rev k ((r, e) ∷ es) =
    let rest = note_at rev k es in
    if r == rev
    then (r, noted k e) ∷ es
    else if ltb r rev
    then (rev, noted k no_meta) ∷ (r, e) ∷ es
    else (r, e) ∷ rest

abbrev pub note : ObjectName → List (ℕ × IncrMeta) → List (ℕ × IncrMeta)
note k es = elim (parse_rev k) [ none ↦ es | some rev ↦ note_at rev k es ]

unfoldable pub note_all : List ObjectName → List (ℕ × IncrMeta) → List (ℕ × IncrMeta)
unfolding note_at parse_rev
note_all [] es = es
note_all (k ∷ ks) es = note_all ks (note k es)

-- `by_rev.values().rev().find(|m| m.snap.is_some())`
unfoldable pub first_with_snap : List (ℕ × IncrMeta) → Option (ObjectName × Option ObjectName)
first_with_snap [] = none
first_with_snap ((r, e) ∷ es) =
    let rest = first_with_snap es in elim e.snap [ none ↦ rest | some k ↦ some (k, e.wal_key) ]

abbrev pub latest_of : List ObjectName → Option (ObjectName × Option ObjectName)
latest_of ks = first_with_snap (note_all ks [])

-- The files of a Cell that a restoration replaces.
pub record Files : Type 0 where
  pub main : Option Bytes
  pub wal_file : Option Bytes

abbrev pub is_empty : Bytes → Bool
is_empty [] = true
is_empty (b ∷ bs) = false

module _ {S : Type 0} (os : ObjectStore S) (sha256_hex : Bytes → String) where
  -- `upload_snapshot`, given the bytes of the temporary file, the time and the identifier drawn.
  unfoldable pub upload_snapshot : ℕ → Bytes → ℕ → ℕ → ℕ → Exec S BackupInfo
  upload_snapshot db bytes ts_ms id now_secs = do
    os.put db (full ts_ms id) bytes
    pure (record {
      key = full ts_ms id;
      size_bytes = length bytes;
      created_at = now_secs;
      checksum = some (sha256_hex bytes);
    })

  -- The part of `upload_incr` for the WAL; `name_length` is the length of the text of a name.
  abbrev pub upload_wal : (ℕ → ObjectName → ℕ) → ℕ → Option Bytes → ℕ → Exec S ℕ
  upload_wal name_length db none rev = pure 0
  upload_wal name_length db (some w) rev =
      if is_empty w then pure 0 else (do os.put db (wal rev) w; pure (name_length db (wal rev)))

  -- `upload_incr` at the time `rev`
  unfoldable pub upload_incr :
      (ℕ → ObjectName → ℕ) → ℕ → Bytes → Option Bytes → ℕ → Exec S BackupInfo
  upload_incr name_length db snap_bytes wal_bytes rev = do
    os.put db (snapshot rev) snap_bytes
    wal_size ← upload_wal name_length db wal_bytes rev
    pure (record {
      key = snapshot rev;
      size_bytes = length snap_bytes + wal_size;
      created_at = rev / 1000;
      checksum = some (sha256_hex snap_bytes);
    })

  -- `latest_incr`
  unfoldable pub latest_incr : ℕ → S → Result (Option (ObjectName × Option ObjectName))
  unfolding note_all first_with_snap
  latest_incr db s = elim (os.list db s) [ err e ↦ err e | ok ks ↦ ok (latest_of ks) ]

  -- `download_snapshot`, given how writing and renaming the file end: the bytes that then stand
  -- at the destination.
  unfoldable pub download_snapshot : Result (Unit {0}) → ℕ → ObjectName → S → Result Bytes
  download_snapshot fs db k s = elim (os.get db k s) [
    | err e ↦ err e
    | ok bytes ↦ (elim fs [ err e ↦ err e | ok u ↦ ok bytes ])
  ]

  abbrev pub restore_wal :
      Result (Unit {0}) → ℕ → Option ObjectName → S → Files → Result Bool × Files
  restore_wal fs db none s f =
      (ok true, record f { wal_file = elim fs [ ok u ↦ none | err e ↦ f.wal_file ] })
  restore_wal fs db (some k) s f = elim (download_snapshot fs db k s) [
    | err e ↦ (err e, f)
    | ok bytes ↦ (ok true, record f { wal_file = some bytes })
  ]

  abbrev pub restore_found :
      Result (Unit {0})
      → Result (Unit {0})
      → ℕ
      → S
      → Result (Option (ObjectName × Option ObjectName))
      → Files
      → Result Bool × Files
  restore_found fs fs_wal db s (err e) f = (err e, f)
  restore_found fs fs_wal db s (ok none) f = (ok false, f)
  restore_found fs fs_wal db s (ok (some (k, w))) f = elim (download_snapshot fs db k s) [
    | err e ↦ (err e, f)
    | ok bytes ↦ restore_wal fs_wal db w s (record f { main = some bytes })
  ]

  -- `restore_from_incr`, with how the writing of its two files, or the removal of the second, ends.
  unfoldable pub restore_from_incr :
      Result (Unit {0}) → Result (Unit {0}) → ℕ → S → Files → Result Bool × Files
  unfolding latest_incr download_snapshot
  restore_from_incr fs fs_wal db s f = restore_found fs fs_wal db s (latest_incr db s) f
