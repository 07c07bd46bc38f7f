-- ===== src/Postgres/Refines.antt =====
-- crates/metadata/src/postgres.rs against store.rs: the operations on Cells one by one.
use combee.Prelude.{
  ℕ, ◌≤◌, ◌≡◌, refl, String, Bool, true, false, ◌&&◌, Option, none, some, List, ◌==◌, arith,
  Option-cases, Bool-cases, inl, inr,
}
use combee.Prelude.Int.{pos, ◌+ℤ◌, in_i64, wrapping_add_lem}
use combee.Errors.{ok}
use combee.Catalog
use combee.Catalog.{Catalog, DatabaseRecord, on_record, stored, is_set, next_generation, added}
use combee.Postgres.Rows.{
  first, affected, first-delete, affected-none, affected-some, first_same, affected_le,
  first_stronger,
}
use combee.Postgres.Cells
use combee.Postgres.Cells.{
  CellRow, has_id, is_cell, has_name, row_to_record, get_database, updated, overflows, one_up,
  is_replica_on, list_replicas_of, name_or,
}
use combee.Postgres.Agree.{Agrees, IsSound, catalog_of, updated-Agrees, row-reads}

module _ (default_name : ℕ → String) where
  set_replica_node-Agrees :
      (tenant id : ℕ) (replica : Option ℕ) (rows : List CellRow)
      → IsSound default_name rows
      → Agrees default_name
          (Cells.set_replica_node default_name tenant id replica)
          (Catalog.set_replica_node tenant id replica)
          rows
  unfolding Cells.set_replica_node Catalog.set_replica_node row_to_record
  set_replica_node-Agrees tenant id replica rows sound =
      updated-Agrees default_name tenant id (λ r. record r { replica_node_id = replica })
        (λ r. record r { replica_node_id = replica }) rows sound
        (record { id = λ r. refl; tenant_id = λ r. refl; name = λ r. refl })
        (λ r d q e. ground (arith, e))

  one_up-reads :
      (r : CellRow) (d : DatabaseRecord)
      → row_to_record default_name r ≡ ok d
      → in_i64 (r.generation +ℤ pos 1) ≡ true
      → row_to_record default_name (one_up r) ≡ ok (next_generation d)
  unfolding row_to_record
  one_up-reads r d e room = ground (
    arith,
    e,
    wrapping_add_lem r.generation (pos 1) (ground (arith, room)) (ground (arith, room)),
  )

  reset_database-Agrees :
      (tenant id : ℕ) (rows : List CellRow)
      → IsSound default_name rows
      → overflows (first (is_cell tenant id) rows) ≡ false
      → Agrees default_name
          (Cells.reset_database default_name tenant id)
          (Catalog.reset_database tenant id)
          rows
  unfolding Cells.reset_database Catalog.reset_database row_to_record
  reset_database-Agrees tenant id rows sound room =
      let base =
        updated-Agrees default_name tenant id one_up next_generation rows sound
          (record { id = λ r. refl; tenant_id = λ r. refl; name = λ r. refl })
          (λ r d q e. one_up-reads r d e (ground (arith, room, q))) in
      record {
        answers = ground (arith, room, base.answers);
        leaves = record {
          databases = λ t j. ground (arith, room, base.leaves.databases t j);
          name_index = λ t n. ground (arith, room, base.leaves.name_index t n);
        };
      }

  migrated-reads :
      (node : ℕ) (r : CellRow) (d : DatabaseRecord)
      → row_to_record default_name r ≡ ok d
      → in_i64 (r.generation +ℤ pos 1) ≡ true
      → row_to_record default_name (record (one_up r) { storage_node_id = some node })
        ≡ ok (next_generation (record d { storage_node_id = some node }))
  unfolding row_to_record
  migrated-reads node r d e room = ground (
    arith,
    e,
    wrapping_add_lem r.generation (pos 1) (ground (arith, room)) (ground (arith, room)),
  )

  migrate_database-Agrees :
      (tenant id node : ℕ) (rows : List CellRow)
      → IsSound default_name rows
      → overflows (first (is_cell tenant id) rows) ≡ false
      → Agrees default_name
          (Cells.migrate_database default_name tenant id node)
          (Catalog.migrate_database tenant id node)
          rows
  unfolding Cells.migrate_database Catalog.migrate_database
  migrate_database-Agrees tenant id node rows sound room =
      let base =
        updated-Agrees default_name tenant id
          (λ r. record (one_up r) { storage_node_id = some node })
          (λ r. next_generation (record r { storage_node_id = some node })) rows sound
          (record { id = λ r. refl; tenant_id = λ r. refl; name = λ r. refl })
          (λ r d q e. migrated-reads node r d e (ground (arith, room, q))) in
      record {
        answers = ground (arith, room, base.answers);
        leaves = record {
          databases = λ t j. ground (arith, room, base.leaves.databases t j);
          name_index = λ t n. ground (arith, room, base.leaves.name_index t n);
        };
      }

  -- The row of a Cell is the only one with its identifier.
  cell_has_id :
      (tenant id : ℕ) (rows : List CellRow) (r r' : CellRow) (p : CellRow → Bool)
      → IsSound default_name rows
      → first (is_cell tenant id) rows ≡ some r
      → first p rows ≡ some r'
      → r'.id ≡ id
      → r' ≡ r
  cell_has_id tenant id rows r r' p sound q q' same =
      let (hit, _) = affected-some (is_cell tenant id) rows r q in
      first_same (has_id id) p (is_cell tenant id) rows r' r (sound.ids id) q' q
        (ground (arith, same)) (ground (arith, hit))

  one_cell :
      (t j : ℕ) (rows : List CellRow) → IsSound default_name rows → affected (is_cell t j) rows ≤ 1
  one_cell t j rows sound =
      omega
        (arith, sound.ids j, affected_le (is_cell t j) (has_id j) rows (λ r h. ground (arith, h)))

  delete_database-Agrees :
      (tenant id : ℕ) (rows : List CellRow)
      → IsSound default_name rows
      → Agrees default_name
          (Cells.delete_database tenant id)
          (Catalog.delete_database tenant id)
          rows
  unfolding Cells.delete_database Catalog.delete_database on_record catalog_of
  delete_database-Agrees tenant id rows sound =
      elim (Option-cases (first (is_cell tenant id) rows)) [
        | inl q ↦ record {
          answers = ground (arith, q, affected-none (is_cell tenant id) rows q);
          leaves = record {
            databases = λ t j. ground (arith, q, affected-none (is_cell tenant id) rows q);
            name_index = λ t n. ground (arith, q, affected-none (is_cell tenant id) rows q);
          };
        }
        | inr (r, q) ↦
            (let (d, e) = row-reads default_name rows (is_cell tenant id) r sound q in
              let hit = affected-some (is_cell tenant id) rows r q in
              record {
                answers = ground (arith, q, e, hit);
                leaves = record {
                  databases = λ t j.
                      let gone =
                        first-delete (is_cell t j) (is_cell tenant id) rows
                          (one_cell t j rows sound) in
                      elim (Option-cases (first (is_cell t j) rows)) [
                        | inl p ↦ ground (arith, q, e, hit, p, gone)
                        | inr (r', p) ↦
                            (let (met, _) = affected-some (is_cell t j) rows r' p in
                              let same : is_cell tenant id r' ≡ (tenant == t && id == j) =
                                ground (arith, met) in
                              elim (Bool-cases (tenant == t && id == j)) [
                                | inl y ↦ ground (arith, q, e, hit, p, gone, same, y)
                                | inr n ↦ ground (arith, q, e, hit, p, gone, same, n)
                              ])
                      ];
                  name_index = λ t n. elim (Option-cases (first (has_name t n) rows)) [
                    | inl p ↦ ground (
                      arith,
                      q,
                      e,
                      hit,
                      p,
                      first-delete (has_name t n) (is_cell tenant id) rows (sound.names t n),
                    )
                    | inr (r', p) ↦ ground (
                      arith,
                      q,
                      e,
                      hit,
                      p,
                      first-delete (has_name t n) (is_cell tenant id) rows (sound.names t n),
                      cell_has_id tenant id rows r r' (has_name t n) sound q p,
                    )
                  ];
                };
              })
      ]

  create_database-Agrees :
      (tenant id : ℕ) (place : Option ℕ) (name : Option String) (now : ℕ) (rows : List CellRow)
      → IsSound default_name rows
      → first (has_id id) rows ≡ none
      → first (has_name tenant (name_or default_name id name)) rows ≡ none
      → Agrees default_name
          (Cells.create_database default_name tenant id place name now)
          (Catalog.create_database default_name tenant id place name now)
          rows
  unfolding Cells.create_database Catalog.create_database added catalog_of first get_database
  create_database-Agrees tenant id place name now rows sound new free =
      let unused : first (is_cell tenant id) rows ≡ none =
        first_stronger (is_cell tenant id) (has_id id) rows (λ r h. ground (arith, h)) new in
      record {
        answers = elim name [
          | none ↦ ground (arith, new, free, unused)
          | some n ↦ ground (arith, new, free, unused)
        ];
        leaves = record {
          databases = λ t j. ground (arith, new, free, unused);
          name_index = λ t n. ground (arith, new, free, unused);
        };
      }

  -- On a sound table, in which the counted Cell is not at the largest generation, PostgreSQL
  -- answers as the in-memory store does on the catalogue of the table, and leaves the table of the
  -- catalogue that store leaves: in setting a replica, a reset, a migration, a deletion, and a
  -- creation whose identifier is in no row and whose name is free.
  pub cells_agree :
      (tenant id node : ℕ) (replica : Option ℕ) (rows : List CellRow)
      → IsSound default_name rows
      → overflows (first (is_cell tenant id) rows) ≡ false
      → Agrees default_name
          (Cells.set_replica_node default_name tenant id replica)
          (Catalog.set_replica_node tenant id replica)
          rows
        × Agrees default_name
            (Cells.reset_database default_name tenant id)
            (Catalog.reset_database tenant id)
            rows
        × Agrees default_name
            (Cells.migrate_database default_name tenant id node)
            (Catalog.migrate_database tenant id node)
            rows
        × Agrees default_name
            (Cells.delete_database tenant id)
            (Catalog.delete_database tenant id)
            rows
        × ((fresh now : ℕ) (place : Option ℕ) (name : Option String)
            → first (has_id fresh) rows ≡ none
            → first (has_name tenant (name_or default_name fresh name)) rows ≡ none
            → Agrees default_name
                (Cells.create_database default_name tenant fresh place name now)
                (Catalog.create_database default_name tenant fresh place name now)
                rows)
  cells_agree tenant id node replica rows sound room = (
    set_replica_node-Agrees tenant id replica rows sound,
    reset_database-Agrees tenant id rows sound room,
    migrate_database-Agrees tenant id node rows sound room,
    delete_database-Agrees tenant id rows sound,
    λ fresh now place name. create_database-Agrees tenant fresh place name now rows sound,
  )
