-- ===== src/Postgres/Differs.antt =====
-- crates/metadata/src/postgres.rs against store.rs: where the operations on Cells differ.
use combee.Prelude.{
  ℕ, ◌≡◌, refl, String, false, not, ◌&&◌, Option, none, some, List, [], ◌∷◌, ◌==◌, arith,
  if◌then◌else◌,
}
use combee.Errors.{ok, err, internal, cell_already_exists, cell_name_conflict}
use combee.Catalog
use combee.Catalog.{Catalog, DatabaseRecord, on_record, stored, is_set, next_generation, added}
use combee.Postgres.Rows.{first, select, affected-some, first_stronger, first_met}
use combee.Postgres.Cells
use combee.Postgres.Cells.{
  CellRow, has_id, is_cell, has_name, row_to_record, get_database, updated, overflows, one_up,
  is_replica_on, list_replicas_of, name_or,
}
use combee.Postgres.Agree.{IsSound, catalog_of, row-reads}

module _ (default_name : ℕ → String) where
  -- A name that is taken: PostgreSQL runs into its unique index and answers an internal error, where the
  -- in-memory store says that the name is taken.
  pub taken_names :
      (tenant id j now : ℕ) (place : Option ℕ) (n : String) (rows : List CellRow) (r r' : CellRow)
      → IsSound default_name rows
      → first (has_id id) rows ≡ none
      → first (has_name tenant n) rows ≡ some r
      → first (is_cell tenant j) rows ≡ some r'
      → (r.id == j) ≡ false
      → ((Cells.create_database default_name tenant id place (some n) now rows).0 ≡ err internal)
        × ((Catalog.create_database default_name tenant id place
              (some n)
              now
              (catalog_of default_name rows)).0
            ≡ err cell_already_exists)
        × ((Cells.rename_database default_name tenant j n rows).0 ≡ err internal)
        × ((Catalog.rename_database tenant j n (catalog_of default_name rows)).0
            ≡ err cell_name_conflict)
  unfolding Cells.create_database Catalog.create_database Cells.rename_database
      Catalog.rename_database on_record catalog_of
  taken_names tenant id j now place n rows r r' sound new taken there other =
      let unused : first (is_cell tenant id) rows ≡ none =
        first_stronger (is_cell tenant id) (has_id id) rows (λ r h. ground (arith, h)) new in
      let (named, _) = affected-some (has_name tenant n) rows r taken in
      let (a, met) =
        first_met (λ r. has_name tenant n r && not (r.id == j)) (has_name tenant n) rows r taken
          (ground (arith, named, other)) in
      let (d, e) = row-reads default_name rows (is_cell tenant j) r' sound there in
      (
        ground (arith, new, taken),
        ground (arith, new, taken, unused),
        ground (arith, there, met),
        ground (arith, there, taken, e),
      )

  -- Asked for the Cells whose replica a node holds, PostgreSQL gives the empty list if there are
  -- none, and an error as soon as there is one.
  pub list_replicas_of_lem :
      (node : ℕ) (rows : List CellRow)
      → list_replicas_of default_name node rows
        ≡ (if is_set (first (is_replica_on node) rows) then err internal else ok [])
  unfolding list_replicas_of first select
  list_replicas_of_lem node [] = refl
  list_replicas_of_lem node (r ∷ rows) = ground (arith, list_replicas_of_lem node rows)
