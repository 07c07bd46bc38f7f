-- ===== src/Api/Directory.antt =====
-- crates/api-server/src/handlers/database.rs: the handlers that create, rename and delete a Cell, for a server
-- whose store is PostgreSQL. The payload of an idempotency key is the identifier it holds.
use combee.Prelude.{
  ℕ, String, Bool, true, false, ◌&&◌, Option, none, some, List, ◌∷◌, ◌==◌, leb, ltb, str_eq,
  if◌then◌else◌,
}
use combee.Errors.{Result, ok, err, quota_exceeded}
use combee.Exec.{Exec}
use combee.Catalog.{DatabaseRecord, active, deleting}
use combee.Postgres.Rows.{first, affected}
use combee.Postgres.Cells
use combee.Postgres.Cells.{CellRow}
use combee.Api.Names.{validate_cell_name}

-- A row of `idempotency_keys`.
pub record IdemRow : Type 0 where
  pub idem_key : String
  pub tenant_id : ℕ
  pub payload : ℕ

pub record Directory : Type 0 where
  pub cells : List CellRow
  pub idempotency : List IdemRow

abbrev pub has_key : String → IdemRow → Bool
has_key k r = str_eq r.idem_key k

abbrev pub has_key_of : String → ℕ → IdemRow → Bool
has_key_of k tenant r = has_key k r && r.tenant_id == tenant

abbrev pub payload_of : Option IdemRow → Option ℕ
payload_of none = none
payload_of (some r) = some r.payload

abbrev pub saved : String → ℕ → ℕ → Directory → Option IdemRow → Option ℕ × Directory
saved k tenant id d none = (
  none,
  record d {
    idempotency = record { idem_key = k; tenant_id = tenant; payload = id } ∷ d.idempotency;
  },
)
saved k tenant id d (some r) = (payload_of (first (has_key_of k tenant) d.idempotency), d)

-- `PostgresStore::save_idempotency`: the SELECT after a conflict asks for the tenant as well.
unfoldable pub save_idempotency : String → ℕ → ℕ → Directory → Option ℕ × Directory
unfolding first
save_idempotency k tenant id d = saved k tenant id d (first (has_key k) d.idempotency)

-- What a creation answers: whether it is new, the identifier and the name.
pub record Created : Type 0 where
  pub is_new : Bool
  pub id : ℕ
  pub name : String

abbrev pub of_tenant : ℕ → CellRow → Bool
of_tenant tenant r = r.tenant_id == tenant

-- `list_databases(tenant).len()`, against the limit, where 0 is none.
abbrev pub at_limit : ℕ → ℕ → Directory → Bool
at_limit max tenant d = ltb 0 max && leb max (affected (of_tenant tenant) d.cells)

abbrev pub check_name : Option String → Result (Unit {0})
check_name none = ok tt
check_name (some n) = validate_cell_name n

module _ (default_name : ℕ → String) where
  abbrev pub replayed : Result DatabaseRecord → Result Created
  replayed (err e) = err e
  replayed (ok r) = ok (record { is_new = false; id = r.id; name = r.name })

  -- What follows the insertion of the row: the state of the Cell is set, whatever that answers.
  abbrev pub activated :
      ℕ → ℕ → Directory → Result DatabaseRecord × List CellRow → Result Created × Directory
  activated tenant id d (err e, rows) = (err e, record d { cells = rows })
  activated tenant id d (ok r, rows) = (
    ok (record { is_new = true; id = id; name = r.name }),
    record d { cells = (Cells.set_database_state tenant id active rows).1 },
  )

  abbrev pub named_creation :
      ℕ
      → ℕ
      → Option ℕ
      → Option String
      → ℕ
      → Directory
      → Result (Unit {0})
      → Result Created × Directory
  named_creation tenant id place name now d (err e) = (err e, d)
  named_creation tenant id place name now d (ok u) =
      activated tenant id d (Cells.create_database default_name tenant id place name now d.cells)

  -- The part of `create_database` after the idempotency key.
  unfoldable pub create_checked : ℕ → ℕ → ℕ → Option ℕ → Option String → ℕ → Exec Directory Created
  unfolding Cells.create_database Cells.set_database_state validate_cell_name affected
  create_checked max tenant id place name now d =
      if at_limit max tenant d
      then (err quota_exceeded, d)
      else named_creation tenant id place name now d (check_name name)

  abbrev pub unless_saved :
      ℕ → ℕ → ℕ → Option ℕ → Option String → ℕ → Option ℕ × Directory → Result Created × Directory
  unless_saved max tenant id place name now (none, d) =
      create_checked max tenant id place name now d
  unless_saved max tenant id place name now (some old, d) =
      (replayed (Cells.get_database default_name tenant old d.cells), d)

  -- `create_database`; `id` is the new identifier and `place` the node that the registry picks.
  unfoldable pub create_database :
      ℕ → ℕ → ℕ → Option ℕ → Option String → Option String → ℕ → Exec Directory Created
  unfolding create_checked save_idempotency Cells.get_database
  create_database max tenant id place key name now d = elim key [
    | none ↦ create_checked max tenant id place name now d
    | some k ↦ unless_saved max tenant id place name now (save_idempotency k tenant id d)
  ]

  -- How the initialisation of a new Cell at its node ends, in `ensure_database`.
  abbrev pub initialised :
      ℕ
      → Directory
      → Result (Unit {0})
      → Result (DatabaseRecord × Bool) × List CellRow
      → Result (DatabaseRecord × Bool) × Directory
  initialised tenant d init (err e, rows) = (err e, record d { cells = rows })
  initialised tenant d init (ok (r, false), rows) = (ok (r, false), record d { cells = rows })
  initialised tenant d (err e) (ok (r, true), rows) =
      (err e, record d { cells = (Cells.delete_database tenant r.id rows).1 })
  initialised tenant d (ok u) (ok (r, true), rows) =
      (ok (r, true), record d { cells = (Cells.set_database_state tenant r.id active rows).1 })

  -- `ensure_database`; `init` is how the node initialises the Cell, if it is new.
  unfoldable pub ensure_database :
      ℕ
      → ℕ
      → String
      → Option ℕ
      → ℕ
      → ℕ
      → ℕ
      → Result (Unit {0})
      → Exec Directory (DatabaseRecord × Bool)
  unfolding validate_cell_name affected Cells.ensure_database_by_name Cells.delete_database
      Cells.set_database_state
  ensure_database max tenant name place id now random init d = elim (validate_cell_name name) [
    | err e ↦ (err e, d)
    | ok u ↦
        if at_limit max tenant d
        then (err quota_exceeded, d)
        else initialised tenant d init
            (Cells.ensure_database_by_name default_name tenant name place id now random d.cells)
  ]

  -- `rename_database`
  unfoldable pub rename_database : ℕ → ℕ → String → Exec Directory DatabaseRecord
  unfolding validate_cell_name Cells.rename_database
  rename_database tenant id name d = elim (validate_cell_name name) [
    | err e ↦ (err e, d)
    | ok u ↦
        let r = Cells.rename_database default_name tenant id name d.cells in
        (r.0, record d { cells = r.1 })
  ]

  -- `delete_database`; `gone` is how the removal at the node ends.
  unfoldable pub delete_database : ℕ → ℕ → Result (Unit {0}) → Exec Directory (Unit {0})
  unfolding Cells.get_database Cells.set_database_state Cells.delete_database
  delete_database tenant id gone d = elim (Cells.get_database default_name tenant id d.cells) [
    | err e ↦ (err e, d)
    | ok r ↦
        let marked = (Cells.set_database_state tenant id deleting d.cells).1 in
        (elim gone [
          | err e ↦ (err e, record d { cells = marked })
          | ok u ↦ let r = Cells.delete_database tenant id marked in (r.0, record d { cells = r.1 })
        ])
  ]
