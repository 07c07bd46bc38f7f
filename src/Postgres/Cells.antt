-- ===== src/Postgres/Cells.antt =====
-- crates/metadata/src/postgres.rs: the table of Cells, `databases`, and the operations of PostgresStore on it.
-- Its primary key is the identifier, and one index makes the names of a tenant unique, in which NULL is equal
-- to nothing. The column of the state holds what `as_str` of the state prints, which `parse` reads back.
use combee.Prelude.{
  ℕ, String, Bool, true, false, not, ◌&&◌, Option, none, some, List, [], ◌∷◌, ◌==◌, map, str_eq,
  if◌then◌else◌,
}
use combee.Prelude.Int.{ℤ, pos, ◌+ℤ◌, in_i64}
use combee.Errors.{
  Result, ok, err, database_not_found, database_already_exists, internal, CombeeError,
}
use combee.Exec.{Exec}
use combee.Catalog.{DatabaseRecord, DatabaseState, created, active, deleting, is_set}
use combee.Postgres.Rows.{first, select, update, delete, affected}

-- `DatabaseState::as_str` and `DatabaseState::parse`
abbrev pub as_str : DatabaseState → String
as_str created = "created"
as_str active = "active"
as_str deleting = "deleting"

abbrev pub parse : String → Result DatabaseState
parse s =
    if str_eq s "created"
    then ok created
    else if str_eq s "active"
    then ok active
    else if str_eq s "deleting"
    then ok deleting
    else err internal

pub record CellRow : Type 0 where
  pub id : ℕ
  pub tenant_id : ℕ
  pub state : String
  pub created_at : ℕ
  pub storage_node_id : Option ℕ
  pub replica_node_id : Option ℕ
  pub generation : ℤ
  pub name : Option String

-- Conditions of the statements.
abbrev pub has_id : ℕ → CellRow → Bool
has_id id r = r.id == id

abbrev pub is_cell : ℕ → ℕ → CellRow → Bool
is_cell tenant id r = r.id == id && r.tenant_id == tenant

abbrev pub equals_name : String → Option String → Bool
equals_name n none = false
equals_name n (some m) = str_eq m n

abbrev pub has_name : ℕ → String → CellRow → Bool
has_name tenant n r = r.tenant_id == tenant && equals_name n r.name

abbrev pub is_node : ℕ → Option ℕ → Bool
is_node node none = false
is_node node (some n) = n == node

abbrev pub is_replica_on : ℕ → CellRow → Bool
is_replica_on node r = is_node node r.replica_node_id

-- The other row that keeps a name from the row of a Cell.
abbrev pub taken_from : ℕ → ℕ → String → List CellRow → Bool
taken_from tenant id n rows =
    is_set (first (is_cell tenant id) rows)
    && is_set (first (λ r. has_name tenant n r && not (r.id == id)) rows)

-- `generation + 1` of a row, which the statement refuses where it is past the largest `bigint`.
abbrev pub one_up : CellRow → CellRow
one_up r = record r { generation = r.generation +ℤ pos 1 }

abbrev pub overflows : Option CellRow → Bool
overflows none = false
overflows (some r) = not (in_i64 (r.generation +ℤ pos 1))

abbrev pub has_replica : ℕ → ℕ → CellRow → Bool
has_replica tenant id r = is_cell tenant id r && is_set r.replica_node_id

abbrev pub promoted_row : CellRow → CellRow
promoted_row r = record (one_up r) { storage_node_id = r.replica_node_id; replica_node_id = none }

module _ (default_name : ℕ → String) where
  abbrev pub name_or : ℕ → Option String → String
  name_or id none = default_name id
  name_or id (some n) = n

  abbrev pub with_state : CellRow → Result DatabaseState → Result DatabaseRecord
  with_state r (err e) = err e
  with_state r (ok s) = ok (record {
    id = r.id;
    tenant_id = r.tenant_id;
    name = name_or r.id r.name;
    state = s;
    created_at = r.created_at;
    storage_node_id = r.storage_node_id;
    replica_node_id = r.replica_node_id;
    generation = r.generation;
  })

  -- `row_to_record` of a row with all its columns.
  unfoldable pub row_to_record : CellRow → Result DatabaseRecord
  row_to_record r = with_state r (parse r.state)

  -- `row_to_record` of a row that was selected without `generation`: reading the missing column fails.
  abbrev pub row_without_generation : CellRow → Result DatabaseRecord
  row_without_generation r = err internal

  abbrev pub record_or : CombeeError → Option CellRow → Result DatabaseRecord
  record_or e none = err e
  record_or e (some r) = row_to_record r

  unfoldable pub get_database : ℕ → ℕ → List CellRow → Result DatabaseRecord
  unfolding first row_to_record
  get_database tenant id rows = record_or (database_not_found id) (first (is_cell tenant id) rows)

  unfoldable pub get_database_by_id : ℕ → List CellRow → Result DatabaseRecord
  unfolding first row_to_record
  get_database_by_id id rows = record_or (database_not_found id) (first (has_id id) rows)

  unfoldable pub get_database_by_name : ℕ → String → ℕ → List CellRow → Result DatabaseRecord
  unfolding first row_to_record
  get_database_by_name tenant name random rows =
      record_or (database_not_found random) (first (has_name tenant name) rows)

  -- `INSERT … ON CONFLICT (id) DO NOTHING`: a name that the tenant has is an error of the index.
  unfoldable pub create_database :
      ℕ → ℕ → Option ℕ → Option String → ℕ → Exec (List CellRow) DatabaseRecord
  unfolding get_database
  create_database tenant id storage_node name now rows =
      let n = name_or id name in
      let r : CellRow = record {
        id = id;
        tenant_id = tenant;
        state = as_str created;
        created_at = now;
        storage_node_id = storage_node;
        replica_node_id = none;
        generation = pos 0;
        name = some n;
      } in
      if is_set (first (has_id id) rows)
      then (err (database_already_exists id), rows)
      else if is_set (first (has_name tenant n) rows)
      then (err internal, rows)
      else (get_database tenant id (r ∷ rows), r ∷ rows)

  -- An UPDATE of the row of a Cell, and the SELECT that follows when a row was changed.
  unfoldable pub updated : ℕ → ℕ → (CellRow → CellRow) → Exec (List CellRow) DatabaseRecord
  unfolding get_database affected update
  updated tenant id f rows =
      if affected (is_cell tenant id) rows == 0
      then (err (database_not_found id), rows)
      else (let rows' = update (is_cell tenant id) f rows in (get_database tenant id rows', rows'))

  unfoldable pub rename_database : ℕ → ℕ → String → Exec (List CellRow) DatabaseRecord
  unfolding updated
  rename_database tenant id new_name rows =
      if taken_from tenant id new_name rows
      then (err internal, rows)
      else updated tenant id (λ r. record r { name = some new_name }) rows

  unfoldable pub reset_database : ℕ → ℕ → Exec (List CellRow) DatabaseRecord
  unfolding updated ◌+ℤ◌
  reset_database tenant id rows =
      if overflows (first (is_cell tenant id) rows)
      then (err internal, rows)
      else updated tenant id one_up rows

  unfoldable pub set_replica_node : ℕ → ℕ → Option ℕ → Exec (List CellRow) DatabaseRecord
  unfolding updated
  set_replica_node tenant id replica =
      updated tenant id (λ r. record r { replica_node_id = replica })

  -- `UPDATE … RETURNING …`
  unfoldable pub migrate_database : ℕ → ℕ → ℕ → Exec (List CellRow) DatabaseRecord
  unfolding updated ◌+ℤ◌
  migrate_database tenant id new_node rows =
      if overflows (first (is_cell tenant id) rows)
      then (err internal, rows)
      else updated tenant id (λ r. record (one_up r) { storage_node_id = some new_node }) rows

  abbrev pub no_replica : Result DatabaseRecord → Result DatabaseRecord
  no_replica (err e) = err e
  no_replica (ok r) = err internal

  unfoldable pub promote_replica : ℕ → ℕ → Exec (List CellRow) DatabaseRecord
  unfolding get_database affected update ◌+ℤ◌
  promote_replica tenant id rows =
      if overflows (first (has_replica tenant id) rows)
      then (err internal, rows)
      else if affected (has_replica tenant id) rows == 0
      then (no_replica (get_database tenant id rows), rows)
      else (let rows' = update (has_replica tenant id) promoted_row rows in
          (get_database tenant id rows', rows'))

  abbrev pub also : {A : Type 0} → Bool → Result A → Result (A × Bool)
  also b (ok a) = ok (a, b)
  also b (err e) = err e

  abbrev pub ensured :
      ℕ
      → String
      → ℕ
      → Result DatabaseRecord × List CellRow
      → Result (DatabaseRecord × Bool) × List CellRow
  ensured tenant name random (ok r, rows) = (ok (r, true), rows)
  ensured tenant name random (err (database_already_exists id), rows) =
      (also false (get_database_by_name tenant name random rows), rows)
  ensured tenant name random (err e, rows) = (err e, rows)

  unfoldable pub ensure_database_by_name :
      ℕ → String → Option ℕ → ℕ → ℕ → ℕ → Exec (List CellRow) (DatabaseRecord × Bool)
  unfolding get_database_by_name create_database
  ensure_database_by_name tenant name storage_node id now random rows =
      elim (get_database_by_name tenant name random rows) [
        | ok r ↦ (ok (r, false), rows)
        | err e ↦
            ensured tenant name random (create_database tenant id storage_node (some name) now rows)
      ]

  abbrev pub collect : List (Result DatabaseRecord) → Result (List DatabaseRecord)
  collect [] = ok []
  collect (err e ∷ rs) = err e
  collect (ok r ∷ rs) = elim (collect rs) [ err e ↦ err e | ok l ↦ ok (r ∷ l) ]

  -- `list_replicas_of`, up to the order: its SELECT leaves out the generation.
  unfoldable pub list_replicas_of : ℕ → List CellRow → Result (List DatabaseRecord)
  unfolding select
  list_replicas_of node rows =
      collect (map row_without_generation (select (is_replica_on node) rows))

-- `set_database_state`: nothing tells whether there was a row.
unfoldable pub set_database_state : ℕ → ℕ → DatabaseState → Exec (List CellRow) (Unit {0})
unfolding update
set_database_state tenant id state rows =
    (ok tt, update (is_cell tenant id) (λ r. record r { state = as_str state }) rows)

unfoldable pub delete_database : ℕ → ℕ → Exec (List CellRow) (Unit {0})
unfolding affected delete
delete_database tenant id rows =
    if affected (is_cell tenant id) rows == 0
    then (err (database_not_found id), rows)
    else (ok tt, delete (is_cell tenant id) rows)

-- One identifier of `create_databases_batch`: the column of the name is left NULL.
abbrev pub insert_unnamed : ℕ → ℕ → List CellRow → ℕ → List CellRow
insert_unnamed tenant now rows id =
    if is_set (first (has_id id) rows)
    then rows
    else record {
      id = id;
      tenant_id = tenant;
      state = as_str created;
      created_at = now;
      storage_node_id = none;
      replica_node_id = none;
      generation = pos 0;
      name = none;
    }
      ∷ rows

-- Its statements insert the identifiers of a chunk each, without those that are there.
unfoldable pub create_databases_batch : ℕ → ℕ → List ℕ → List CellRow → List CellRow
unfolding first
create_databases_batch tenant now [] rows = rows
create_databases_batch tenant now (id ∷ ids) rows =
    create_databases_batch tenant now ids (insert_unnamed tenant now rows id)
