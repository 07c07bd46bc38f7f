-- ===== src/Catalog.antt =====
-- crates/metadata/src/store.rs: the catalogue of Cells that the API server consults, in the form of
-- `InMemoryStore`: which Cells a tenant has, their names, nodes and generations. Its mutex makes each
-- operation one step. Listings of the whole catalogue are not modelled.
pub mod Index
pub mod Generations
use combee.Prelude.{
  ℕ, String, Bool, true, false, not, ◌&&◌, Option, none, some, ◌==◌, str_eq, if◌then◌else◌,
}
use combee.Prelude.Int.{ℤ, pos, wrapping_add}
use combee.Errors.{
  Result, ok, err, database_not_found, database_already_exists, cell_already_exists,
  cell_name_conflict, internal,
}
use combee.Exec.{Exec}

pub data DatabaseState : Type 0 where
  created active deleting : DatabaseState

pub record DatabaseRecord : Type 0 where
  pub id : ℕ
  pub tenant_id : ℕ
  pub name : String
  pub state : DatabaseState
  pub created_at : ℕ
  pub storage_node_id : Option ℕ
  pub replica_node_id : Option ℕ
  pub generation : ℤ

-- The maps of `InMemoryInner` that concern Cells; their keys are pairs with a tenant.
pub record Catalog : Type 0 where
  pub databases : ℕ → ℕ → Option DatabaseRecord
  pub name_index : ℕ → String → Option ℕ

abbrev pub put_database :
    ℕ → ℕ → DatabaseRecord → (ℕ → ℕ → Option DatabaseRecord) → ℕ → ℕ → Option DatabaseRecord
put_database tenant id r m t j = if tenant == t && id == j then some r else m t j

abbrev pub put_name : ℕ → String → Option ℕ → (ℕ → String → Option ℕ) → ℕ → String → Option ℕ
put_name tenant name v m t n = if tenant == t && str_eq name n then v else m t n

abbrev pub is_set {ℓ} : {A : Type ℓ} → Option A → Bool
is_set none = false
is_set (some a) = true

-- `record`, with both maps changed, as all operations that create a Cell do.
unfoldable pub added : ℕ → ℕ → DatabaseRecord → Catalog → Catalog
added tenant id r c = record {
  databases = put_database tenant id r c.databases;
  name_index = put_name tenant r.name (some id) c.name_index;
}

abbrev pub new_record : ℕ → ℕ → String → Option ℕ → ℕ → DatabaseRecord
new_record tenant id name storage_node now = record {
  id = id;
  tenant_id = tenant;
  name = name;
  state = created;
  created_at = now;
  storage_node_id = storage_node;
  replica_node_id = none;
  generation = pos 0;
}

-- `default_name` is the `cell-…` that the source makes from the text of the identifier.
unfoldable pub create_database :
    (ℕ → String) → ℕ → ℕ → Option ℕ → Option String → ℕ → Exec Catalog DatabaseRecord
unfolding added
create_database default_name tenant id storage_node (some n) now c =
    if is_set (c.databases tenant id)
    then (err (database_already_exists id), c)
    else if is_set (c.name_index tenant n)
    then (err cell_already_exists, c)
    else let r = new_record tenant id n storage_node now in (ok r, added tenant id r c)
create_database default_name tenant id storage_node none now c =
    if is_set (c.databases tenant id)
    then (err (database_already_exists id), c)
    else let r = new_record tenant id (default_name id) storage_node now in
      (ok r, added tenant id r c)

abbrev pub found : ℕ → Option DatabaseRecord → Result DatabaseRecord
found id none = err (database_not_found id)
found id (some r) = ok r

-- `random` is the identifier that the error carries when no Cell has the name.
unfoldable pub get_database_by_name : ℕ → String → ℕ → Catalog → Result DatabaseRecord
get_database_by_name tenant name random c = elim (c.name_index tenant name) [
  | none ↦ err (database_not_found random)
  | some id ↦ found id (c.databases tenant id)
]

unfoldable pub get_database : ℕ → ℕ → Catalog → Result DatabaseRecord
get_database tenant id c = found id (c.databases tenant id)

abbrev pub already : Result DatabaseRecord → Result (DatabaseRecord × Bool)
already (err e) = err e
already (ok r) = ok (r, false)

unfoldable pub ensure_database_by_name :
    ℕ → String → Option ℕ → ℕ → ℕ → Exec Catalog (DatabaseRecord × Bool)
unfolding added
ensure_database_by_name tenant name storage_node id now c = elim (c.name_index tenant name) [
  | some old ↦ (already (found old (c.databases tenant old)), c)
  | none ↦ let r = new_record tenant id name storage_node now in (ok (r, true), added tenant id r c)
]

abbrev pub moved : ℕ → ℕ → String → DatabaseRecord → Catalog → Catalog
moved tenant id new_name r c = record {
  databases = put_database tenant id (record r { name = new_name }) c.databases;
  name_index = put_name tenant new_name (some id) (put_name tenant r.name none c.name_index);
}

-- The record of a Cell, changed or refused.
unfoldable pub on_record : {A : Type 0} → ℕ → ℕ → (DatabaseRecord → Exec Catalog A) → Exec Catalog A
on_record tenant id f c = elim (c.databases tenant id) [
  | none ↦ (err (database_not_found id), c)
  | some r ↦ f r c
]

abbrev pub stored : ℕ → ℕ → DatabaseRecord → Exec Catalog DatabaseRecord
stored tenant id r c = (ok r, record c { databases = put_database tenant id r c.databases })

unfoldable pub rename_database : ℕ → ℕ → String → Exec Catalog DatabaseRecord
unfolding on_record
rename_database tenant id new_name = on_record tenant id λ r c.
    if is_set (c.name_index tenant new_name)
    then (err cell_name_conflict, c)
    else (ok (record r { name = new_name }), moved tenant id new_name r c)

abbrev pub next_generation : DatabaseRecord → DatabaseRecord
next_generation r = record r { generation = wrapping_add r.generation (pos 1) }

unfoldable pub reset_database : ℕ → ℕ → Exec Catalog DatabaseRecord
unfolding on_record
reset_database tenant id = on_record tenant id λ r. stored tenant id (next_generation r)

abbrev without_id : ℕ → Option ℕ → Option ℕ
without_id id none = none
without_id id (some v) = if v == id then none else some v

-- The names of the Cell go in the index of every tenant.
abbrev pub removed : ℕ → ℕ → Catalog → Catalog
removed tenant id c = record {
  databases = λ t j. if tenant == t && id == j then none else c.databases t j;
  name_index = λ t n. without_id id (c.name_index t n);
}

unfoldable pub delete_database : ℕ → ℕ → Exec Catalog (Unit {0})
unfolding on_record
delete_database tenant id = on_record tenant id λ r c. (ok tt, removed tenant id c)

unfoldable pub set_database_state : ℕ → ℕ → DatabaseState → Exec Catalog (Unit {0})
unfolding on_record
set_database_state tenant id state =
    on_record tenant id λ r c. (ok tt, (stored tenant id (record r { state = state }) c).1)

unfoldable pub set_replica_node : ℕ → ℕ → Option ℕ → Exec Catalog DatabaseRecord
unfolding on_record
set_replica_node tenant id replica =
    on_record tenant id λ r. stored tenant id (record r { replica_node_id = replica })

abbrev pub promoted : ℕ → ℕ → Option ℕ → DatabaseRecord → Exec Catalog DatabaseRecord
promoted tenant id none r c = (err internal, c)
promoted tenant id (some replica) r c =
    stored tenant id
      (next_generation (record r { storage_node_id = some replica; replica_node_id = none })) c

unfoldable pub promote_replica : ℕ → ℕ → Exec Catalog DatabaseRecord
unfolding on_record
promote_replica tenant id = on_record tenant id λ r. promoted tenant id r.replica_node_id r

unfoldable pub migrate_database : ℕ → ℕ → ℕ → Exec Catalog DatabaseRecord
unfolding on_record
migrate_database tenant id new_node =
    on_record tenant id
      λ r. stored tenant id (next_generation (record r { storage_node_id = some new_node }))
