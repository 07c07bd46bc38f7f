-- ===== src/Postgres/Sound.antt =====
-- crates/metadata/src/postgres.rs: what any calls keep of the table of Cells.
use combee.Prelude.{
  ℕ, ◌≡◌, refl, String, Bool, true, false, Option, some, List, [], ◌∷◌, ◌==◌, arith, Option-cases,
  Bool-cases, inl, inr, if◌then◌else◌,
}
use combee.Errors.{
  CombeeError, Result, ok, err, internal, database_already_exists, database_not_found,
}
use combee.Catalog.{DatabaseRecord, DatabaseState, created, active, deleting}
use combee.Postgres.Rows.{first, affected, affected-update, first-update-none}
use combee.Postgres.Cells.{
  CellRow, has_id, is_cell, has_name, row_to_record, one_up, has_replica, promoted_row, as_str,
  create_database, set_replica_node, reset_database, migrate_database, promote_replica,
  delete_database, set_database_state, create_databases_batch, rename_database,
  ensure_database_by_name, get_database_by_name, ensured, overflows,
}
use combee.Postgres.Agree.{IsSound, unreadable, Keeps}
use combee.Postgres.Kept.{
  unreadable-state, update-IsSound, updated-IsSound, delete-IsSound, insert-IsSound,
  rename_database-IsSound, create_database-IsSound,
}

pub data Change : Type 0 where
  create : ℕ → ℕ → Option ℕ → Option String → ℕ → Change
  ensure : ℕ → String → Option ℕ → ℕ → ℕ → ℕ → Change
  rename : ℕ → ℕ → String → Change
  reset promote remove : ℕ → ℕ → Change
  replica : ℕ → ℕ → Option ℕ → Change
  migrate : ℕ → ℕ → ℕ → Change
  set_state : ℕ → ℕ → DatabaseState → Change
  batch : ℕ → ℕ → List ℕ → Change

module _ (default_name : ℕ → String) where
  unfoldable pub changed : Change → List CellRow → List CellRow
  unfolding create_database ensure_database_by_name rename_database reset_database promote_replica
      delete_database set_replica_node migrate_database set_database_state create_databases_batch
  changed (create tenant id place name now) rows =
      (create_database default_name tenant id place name now rows).1
  changed (ensure tenant name place id now random) rows =
      (ensure_database_by_name default_name tenant name place id now random rows).1
  changed (rename tenant id name) rows = (rename_database default_name tenant id name rows).1
  changed (reset tenant id) rows = (reset_database default_name tenant id rows).1
  changed (promote tenant id) rows = (promote_replica default_name tenant id rows).1
  changed (remove tenant id) rows = (delete_database tenant id rows).1
  changed (replica tenant id place) rows = (set_replica_node default_name tenant id place rows).1
  changed (migrate tenant id node) rows = (migrate_database default_name tenant id node rows).1
  changed (set_state tenant id state) rows = (set_database_state tenant id state rows).1
  changed (batch tenant now ids) rows = create_databases_batch tenant now ids rows

  unfoldable pub changed_all : List Change → List CellRow → List CellRow
  unfolding changed
  changed_all [] rows = rows
  changed_all (c ∷ cs) rows = changed_all cs (changed c rows)

  Keeps-key :
      (f : CellRow → CellRow)
      → ((r : CellRow) → (f r).id ≡ r.id)
      → ((r : CellRow) → (f r).tenant_id ≡ r.tenant_id)
      → ((r : CellRow) → (f r).name ≡ r.name)
      → Keeps default_name f
  Keeps-key f i t n = record { id = i; tenant_id = t; name = n }

  -- The statement of an UPDATE that a number too large may stop.
  checked-IsSound :
      {A : Type 0} (b : Bool) (e : CombeeError) (rows : List CellRow) (m : Result A × List CellRow)
      → IsSound default_name rows
      → IsSound default_name m.1
      → IsSound default_name (if b then (err e, rows) else m).1
  checked-IsSound true e rows m sound sound' = sound
  checked-IsSound false e rows m sound sound' = sound'

  ensured-rows :
      (tenant : ℕ) (name : String) (random : ℕ) (m : Result DatabaseRecord × List CellRow)
      → (ensured default_name tenant name random m).1 ≡ m.1
  ensured-rows tenant name random (ok r, rows) = refl
  ensured-rows tenant name random (err (database_already_exists id), rows) = refl
  ensured-rows tenant name random (err _, rows) = refl

  batch-IsSound :
      (tenant now : ℕ) (ids : List ℕ) (rows : List CellRow)
      → IsSound default_name rows
      → IsSound default_name (create_databases_batch tenant now ids rows)
  unfolding create_databases_batch row_to_record
  batch-IsSound tenant now [] rows sound = sound
  batch-IsSound tenant now (id ∷ ids) rows sound =
      batch-IsSound tenant now ids _ (elim (Option-cases (first (has_id id) rows)) [
        | inr (r, q) ↦ rw q sound
        | inl q ↦
            rw q (insert-IsSound default_name _ rows sound q (λ t n h. ground (arith, h)) refl)
      ])

  looked-IsSound :
      (g : Result DatabaseRecord) (tenant : ℕ) (name : String) (random : ℕ) (rows : List CellRow)
      (m : Result DatabaseRecord × List CellRow)
      → IsSound default_name rows
      → IsSound default_name m.1
      → IsSound default_name
          (elim g as (λ x. Result (DatabaseRecord × Bool) × List CellRow) [
            | ok r ↦ (ok (r, false), rows)
            | err e ↦ ensured default_name tenant name random m
          ]).1
  looked-IsSound (ok r) tenant name random rows m sound sound' = sound
  looked-IsSound (err e) tenant name random rows m sound sound' =
      rw (ensured-rows tenant name random m) sound'

  ensure-IsSound :
      (tenant : ℕ) (name : String) (place : Option ℕ) (id now random : ℕ) (rows : List CellRow)
      → IsSound default_name rows
      → IsSound default_name
          (ensure_database_by_name default_name tenant name place id now random rows).1
  unfolding ensure_database_by_name
  ensure-IsSound tenant name place id now random rows sound =
      looked-IsSound (get_database_by_name default_name tenant name random rows) tenant name random
        rows _ sound
        (create_database-IsSound default_name tenant id place (some name) now rows sound)

  written_state-reads :
      (state : DatabaseState) (r : CellRow)
      → unreadable default_name (record r { state = as_str state }) ≡ false
  unfolding row_to_record
  written_state-reads created r = refl
  written_state-reads active r = refl
  written_state-reads deleting r = refl

  -- Each call keeps the table sound, whether it succeeds or not.
  pub changed-IsSound :
      (c : Change) (rows : List CellRow)
      → IsSound default_name rows
      → IsSound default_name (changed c rows)
  unfolding changed reset_database promote_replica set_replica_node migrate_database
      set_database_state delete_database ensure_database_by_name row_to_record
  changed-IsSound (create tenant id place name now) rows sound =
      create_database-IsSound default_name tenant id place name now rows sound
  changed-IsSound (ensure tenant name place id now random) rows sound =
      ensure-IsSound tenant name place id now random rows sound
  changed-IsSound (rename tenant id name) rows sound =
      rename_database-IsSound default_name tenant id name rows sound
  changed-IsSound (reset tenant id) rows sound =
      checked-IsSound (overflows (first (is_cell tenant id) rows)) internal rows _ sound (
        updated-IsSound default_name tenant id one_up rows sound
          (Keeps-key one_up (λ r. refl) (λ r. refl) (λ r. refl))
          (λ r. unreadable-state default_name (one_up r) r refl))
  changed-IsSound (promote tenant id) rows sound =
      checked-IsSound (overflows (first (has_replica tenant id) rows)) internal rows _ sound
        (elim (Bool-cases (affected (has_replica tenant id) rows == 0)) [
          | inl y ↦ rw y sound
          | inr n ↦ rw n (
              update-IsSound default_name (has_replica tenant id) promoted_row rows sound
                (Keeps-key promoted_row (λ r. refl) (λ r. refl) (λ r. refl))
                (λ r. unreadable-state default_name (promoted_row r) r refl))
        ])
  changed-IsSound (remove tenant id) rows sound =
      checked-IsSound (affected (is_cell tenant id) rows == 0) (database_not_found id) rows _ sound
        (delete-IsSound default_name (is_cell tenant id) rows sound)
  changed-IsSound (replica tenant id place) rows sound =
      let f : CellRow → CellRow = λ r. record r { replica_node_id = place } in
      updated-IsSound default_name tenant id f rows sound
        (Keeps-key f (λ r. refl) (λ r. refl) (λ r. refl))
        (λ r. unreadable-state default_name (f r) r refl)
  changed-IsSound (migrate tenant id node) rows sound =
      let f : CellRow → CellRow = λ r. record (one_up r) { storage_node_id = some node } in
      checked-IsSound (overflows (first (is_cell tenant id) rows)) internal rows _ sound (
        updated-IsSound default_name tenant id f rows sound
          (Keeps-key f (λ r. refl) (λ r. refl) (λ r. refl))
          (λ r. unreadable-state default_name (f r) r refl))
  changed-IsSound (set_state tenant id state) rows sound =
      let f : CellRow → CellRow = λ r. record r { state = as_str state } in
      record {
        ids = λ j.
            rw (affected-update (has_id j) (is_cell tenant id) f rows (λ r. refl)) (sound.ids j);
        names = λ t n.
            rw (affected-update (has_name t n) (is_cell tenant id) f rows (λ r. refl))
              (sound.names t n);
        reads =
            first-update-none (unreadable default_name) (is_cell tenant id) f rows
              (written_state-reads state) sound.reads;
      }
  changed-IsSound (batch tenant now ids) rows sound = batch-IsSound tenant now ids rows sound

  from-IsSound :
      (cs : List Change) (rows : List CellRow)
      → IsSound default_name rows
      → IsSound default_name (changed_all cs rows)
  unfolding changed_all
  from-IsSound [] rows sound = sound
  from-IsSound (c ∷ cs) rows sound = from-IsSound cs (changed c rows) (changed-IsSound c rows sound)

  -- After any calls on an empty table, whether they succeed or not, an identifier is in at most
  -- one row, a name is at most once in a tenant, and every row reads back as a record.
  pub changed_all-IsSound : (cs : List Change) → IsSound default_name (changed_all cs [])
  unfolding affected first
  changed_all-IsSound cs =
      from-IsSound cs []
        (record { ids = λ j. omega arith; names = λ t n. omega arith; reads = refl })
