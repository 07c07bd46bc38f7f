-- ===== src/Api/Idempotency.antt =====
-- crates/api-server/src/handlers/database.rs: what a repeated creation of a Cell answers, and the limit on Cells.
use combee.Prelude.{
  ℕ, ◌+◌, ◌≤◌, ◌<◌, ◌≡◌, refl, ap, ◌∙◌, String, true, false, ◌⊎◌, Option, none, some, List, ◌∷◌,
  arith, eq_iff, Option-cases, Bool-cases, inl, inr,
}
use combee.Errors.{
  Result, ok, err, database_not_found, quota_exceeded, internal, CombeeError, Result-cases,
}
use combee.Prelude.Int.{pos}
use combee.Catalog.{DatabaseRecord, DatabaseState, active, created, deleting}
use combee.Postgres.Rows.{first, affected, update, first_stronger, affected-update}
use combee.Postgres.Cells
use combee.Postgres.Cells.{
  CellRow, has_id, is_cell, has_name, name_or, row_to_record, get_database, set_database_state,
  as_str,
}
use combee.Api.Directory.{
  Directory, Created, IdemRow, has_key, save_idempotency, create_checked, create_database,
  check_name, at_limit, of_tenant, unless_saved,
}

-- What the second call with a key answers after the first.
abbrev pub second_answer : ℕ → Result Created → Result Created
second_answer id (err e) = err (database_not_found id)
second_answer id (ok c) = ok (record c { is_new = false })

abbrev with_key : String → ℕ → ℕ → Directory → Directory
with_key key tenant id d = record d {
  idempotency = record { idem_key = key; tenant_id = tenant; payload = id } ∷ d.idempotency;
}

module _ (default_name : ℕ → String) where
  abbrev fresh_row : ℕ → ℕ → Option ℕ → String → ℕ → DatabaseState → CellRow
  fresh_row tenant id place n now state = record {
    id = id;
    tenant_id = tenant;
    state = as_str state;
    created_at = now;
    storage_node_id = place;
    replica_node_id = none;
    generation = pos 0;
    name = some n;
  }

  abbrev fresh_record : ℕ → ℕ → Option ℕ → String → ℕ → DatabaseState → DatabaseRecord
  fresh_record tenant id place n now state = record {
    id = id;
    tenant_id = tenant;
    name = n;
    state = state;
    created_at = now;
    storage_node_id = place;
    replica_node_id = none;
    generation = pos 0;
  }

  fresh_row-reads :
      (tenant id : ℕ) (place : Option ℕ) (n : String) (now : ℕ) (state : DatabaseState)
      → row_to_record default_name (fresh_row tenant id place n now state)
        ≡ ok (fresh_record tenant id place n now state)
  unfolding row_to_record
  fresh_row-reads tenant id place n now created = refl
  fresh_row-reads tenant id place n now active = refl
  fresh_row-reads tenant id place n now deleting = refl

  -- A creation fails and leaves everything, or the Cell is there with the name that it answered.
  pub create_checked_lem :
      (max tenant id now : ℕ) (place : Option ℕ) (name : Option String) (d : Directory)
      → first (has_id id) d.cells ≡ none
      → let made = create_checked default_name max tenant id place name now d in
        ((e : CombeeError) × (made ≡ (err e, d)))
        ⊎ ((r : DatabaseRecord) × (made.0 ≡ ok (record { is_new = true; id = id; name = r.name }))
            × (made.1.idempotency ≡ d.idempotency)
            × (get_database default_name tenant id made.1.cells ≡ ok r)
            × (r.id ≡ id)
            × (at_limit max tenant d ≡ false)
            × (affected (of_tenant tenant) made.1.cells ≡ affected (of_tenant tenant) d.cells + 1))
  unfolding create_checked Cells.create_database set_database_state get_database first update
      affected
  create_checked_lem max tenant id now place name d new =
      let unused : first (is_cell tenant id) d.cells ≡ none =
        first_stronger (is_cell tenant id) (has_id id) d.cells (λ r h. ground (arith, h)) new in
      elim (Bool-cases (at_limit max tenant d)) [
        | inl full ↦ inl (quota_exceeded, ground (arith, full))
        | inr room ↦ elim (Result-cases (check_name name)) [
          | inr (e, q) ↦ inl (e, ground (arith, room, q))
          | inl (u, q) ↦
              elim (Option-cases (first (has_name tenant (name_or default_name id name)) d.cells)) [
                | inr (r, p) ↦ inl (internal, ground (arith, room, q, new, p))
                | inl p ↦
                    (let n = name_or default_name id name in
                      let r = fresh_record tenant id place n now active in
                      let made = fresh_row-reads tenant id place n now created in
                      let reads = fresh_row-reads tenant id place n now active in
                      let kept =
                        affected-update (of_tenant tenant) (is_cell tenant id)
                          (λ r. record r { state = as_str active }) d.cells (λ r. refl) in
                      let rows =
                        fresh_row tenant id place n now active
                        ∷ update (is_cell tenant id) (λ r. record r { state = as_str active })
                            d.cells in
                      let whole : create_checked default_name max tenant id place name now d ≡ (
                        ok (record { is_new = true; id = id; name = n }),
                        record d { cells = rows },
                      ) =
                        ground (arith, room, q, new, p, unused, made) in
                      let there : get_database default_name tenant id rows ≡ ok r =
                        ground (arith, reads) in
                      let more : affected (of_tenant tenant) rows
                          ≡ affected (of_tenant tenant) d.cells + 1 =
                        ground (arith, kept) in
                      inr (
                        r,
                        ap (λ m. m.0) whole,
                        ap (λ m. m.1.idempotency) whole,
                        ap (λ m. get_database default_name tenant id m.1.cells) whole ∙ there,
                        refl,
                        room,
                        ap (λ m. affected (of_tenant tenant) m.1.cells) whole ∙ more,
                      ))
              ]
        ]
      ]

  -- A key that is not there is saved, and the next call finds its payload.
  saved_new :
      (key : String) (tenant id : ℕ) (d : Directory)
      → first (has_key key) d.idempotency ≡ none
      → save_idempotency key tenant id d ≡ (none, with_key key tenant id d)
  unfolding save_idempotency
  saved_new key tenant id d unused = rw unused refl

  saved_before :
      (key : String) (tenant id id' : ℕ) (rows : List IdemRow) (d : Directory)
      → d.idempotency ≡ record { idem_key = key; tenant_id = tenant; payload = id } ∷ rows
      → save_idempotency key tenant id' d ≡ (some id, d)
  unfolding save_idempotency first
  saved_before key tenant id id' rows d same = ground (arith, same, eq_iff key key)

  -- With an idempotency key and an identifier that are new, a second creation of the tenant with
  -- the same key changes nothing, whatever its limit, name, node and identifier are. It answers
  -- the Cell of the first creation, not as new; and if that was refused, that the Cell of the
  -- first identifier does not exist.
  pub create_database_again :
      (max max' tenant id id' now now' : ℕ) (place place' : Option ℕ) (key : String)
      (name name' : Option String) (d : Directory)
      → first (has_key key) d.idempotency ≡ none
      → first (has_id id) d.cells ≡ none
      → let once = create_database default_name max tenant id place (some key) name now d in
        let twice =
          create_database default_name max' tenant id' place' (some key) name' now' once.1 in
        (twice.0 ≡ second_answer id once.0) × (twice.1 ≡ once.1)
  unfolding create_database get_database
  create_database_again max max' tenant id id' now now' place place' key name name' d unused new =
      let d' = with_key key tenant id d in
      let absent : first (is_cell tenant id) d.cells ≡ none =
        first_stronger (is_cell tenant id) (has_id id) d.cells (λ r h. ground (arith, h)) new in
      elim (create_checked_lem max tenant id now place name d' new) [
        | inl (e, q) ↦
            rw
              (
                saved_new key tenant id d unused,
                q,
                saved_before key tenant id id' d.idempotency d' refl,
              )
              (ground (arith, absent), refl)
        | inr (r, a, i, g, same, room, more) ↦
            let made = create_checked default_name max tenant id place name now d' in
            rw
              (
                saved_new key tenant id d unused,
                saved_before key tenant id id' d.idempotency made.1 i,
              )
              (ground (arith, a, g, same), refl)
      ]

  unless_saved-within :
      (max tenant id now : ℕ) (place : Option ℕ) (name : Option String) (m : Option ℕ × Directory)
      → first (has_id id) m.1.cells ≡ none
      → 0 < max
      → affected (of_tenant tenant) m.1.cells ≤ max
      → affected
          (of_tenant tenant)
          (unless_saved default_name max tenant id place name now m).1.cells
        ≤ max
  unless_saved-within max tenant id now place name (some old, d) new pos_max within = within
  unless_saved-within max tenant id now place name (none, d) new pos_max within =
      elim (create_checked_lem max tenant id now place name d new) [
        | inl (e, q) ↦ ground (arith, q, within)
        | inr (r, a, i, g, same, room, more) ↦ ground (arith, room, more, within, pos_max)
      ]

  save_idempotency-cells :
      (key : String) (tenant id : ℕ) (d : Directory)
      → (save_idempotency key tenant id d).1.cells ≡ d.cells
  unfolding save_idempotency
  save_idempotency-cells key tenant id d = elim (Option-cases (first (has_key key) d.idempotency)) [
    | inl q ↦ rw q refl
    | inr (r, q) ↦ rw q refl
  ]

  -- With a limit on Cells that is not 0, a creation whose identifier is new, with an idempotency
  -- key or without, leaves a tenant that is within the limit within it.
  pub create_database_within :
      (max tenant id now : ℕ) (place : Option ℕ) (key name : Option String) (d : Directory)
      → first (has_id id) d.cells ≡ none
      → 0 < max
      → affected (of_tenant tenant) d.cells ≤ max
      → affected
          (of_tenant tenant)
          (create_database default_name max tenant id place key name now d).1.cells
        ≤ max
  unfolding create_database
  create_database_within max tenant id now place none name d new pos_max within =
      unless_saved-within max tenant id now place name (none, d) new pos_max within
  create_database_within max tenant id now place (some key) name d new pos_max within =
      let kept = save_idempotency-cells key tenant id d in
      unless_saved-within max tenant id now place name (save_idempotency key tenant id d)
        (rw kept new) pos_max (rw kept within)
