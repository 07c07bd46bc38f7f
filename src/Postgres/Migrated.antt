-- ===== src/Postgres/Migrated.antt =====
-- crates/metadata/src/postgres.rs: a Cell read before and after its migration.
use combee.Prelude.{ℕ, ◌≡◌, refl, String, true, some, List, arith, Option-cases, inl, inr}
use combee.Prelude.Int.{pos, ◌+ℤ◌, in_i64}
use combee.Errors.{ok, Result-cases}
use combee.Catalog.{DatabaseRecord}
use combee.Postgres.Rows.{first, first-update, first_met, first_same, affected-some}
use combee.Postgres.Cells.{
  CellRow, has_id, is_cell, row_to_record, get_database_by_id, updated, migrate_database, one_up,
  parse,
}
use combee.Postgres.Agree.{IsSound}

module _ (default_name : ℕ → String) where
  -- The columns that a record repeats.
  reads_columns :
      (row : CellRow) (r : DatabaseRecord)
      → row_to_record default_name row ≡ ok r
      → (row.id ≡ r.id) × (row.tenant_id ≡ r.tenant_id) × (row.generation ≡ r.generation)
  unfolding row_to_record
  reads_columns row r h = elim (Result-cases (parse row.state)) [
    | inl (s, q) ↦ ground (arith, h, q)
    | inr (e, q) ↦ absurd (ground (arith, h, q))
  ]

  moved_row-reads :
      (row : CellRow) (r : DatabaseRecord) (node : ℕ)
      → row_to_record default_name row ≡ ok r
      → row_to_record default_name (record (one_up row) { storage_node_id = some node })
        ≡ ok (record r { generation = r.generation +ℤ pos 1; storage_node_id = some node })
  unfolding row_to_record
  moved_row-reads row r node h = elim (Result-cases (parse row.state)) [
    | inl (s, q) ↦ ground (arith, h, q)
    | inr (e, q) ↦ absurd (ground (arith, h, q))
  ]

  pub migrate_database_lem :
      (id node : ℕ) (rows : List CellRow) (r : DatabaseRecord)
      → IsSound default_name rows
      → get_database_by_id default_name id rows ≡ ok r
      → in_i64 (r.generation +ℤ pos 1) ≡ true
      → let r' = record r { generation = r.generation +ℤ pos 1; storage_node_id = some node } in
        let done = migrate_database default_name r.tenant_id id node rows in
        (done.0 ≡ ok r') × (get_database_by_id default_name id done.1 ≡ ok r')
  unfolding migrate_database updated get_database_by_id
  migrate_database_lem id node rows r sound found room =
      elim (Option-cases (first (has_id id) rows)) [
        | inl q ↦ absurd (ground (arith, found, q))
        | inr (row, q) ↦
            (let mine = is_cell r.tenant_id id in
              let f : CellRow → CellRow = λ r. record (one_up r) { storage_node_id = some node } in
              let reads : row_to_record default_name row ≡ ok r = ground (arith, found, q) in
              let (i, t, g) = reads_columns row r reads in
              let (hit, _) = affected-some (has_id id) rows row q in
              let own : mine row ≡ true = ground (arith, hit, t) in
              let (a, met) = first_met mine (has_id id) rows row q own in
              let (at_a, _) = affected-some mine rows a met in
              let at_id : has_id id a ≡ true = ground (arith, at_a) in
              let alone =
                first_same (has_id id) mine (has_id id) rows a row (sound.ids id) met q at_id hit in
              let there : first mine rows ≡ some row = ground (arith, met, alone) in
              let (_, once) = affected-some mine rows row there in
              let kept = moved_row-reads row r node reads in
              let up = first-update mine mine f rows (λ r. refl) in
              let up_id = first-update (has_id id) mine f rows (λ r. refl) in
              (
                ground (arith, there, once, own, g, room, kept, up),
                ground (arith, there, once, own, g, room, kept, up_id, q),
              ))
      ]
