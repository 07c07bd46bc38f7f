-- ===== src/Postgres/Kept.antt =====
-- crates/metadata/src/postgres.rs: what each kind of statement keeps of the table of Cells.
use combee.Prelude.{
  ℕ, ◌≤◌, ◌≡◌, refl, String, Bool, true, false, not, ◌&&◌, Option, none, some, List, ◌∷◌, ◌==◌,
  arith, Option-cases, Bool-cases, inl, inr, str_eq, eq_iff,
}
use combee.Catalog.{is_set}
use combee.Postgres.Rows.{
  first, update, delete, affected, affected-none, affected-update, affected-delete,
  first-delete-none, first-update, affected-update_split, affected_le, affected-some,
  affected_never, first_stronger,
}
use combee.Postgres.Cells.{
  CellRow, has_id, is_cell, has_name, row_to_record, updated, create_database, taken_from,
  rename_database, name_or,
}
use combee.Postgres.Agree.{IsSound, unreadable, Keeps}

module _ (default_name : ℕ → String) where
  pub unreadable-state :
      (r r' : CellRow) → r.state ≡ r'.state → unreadable default_name r ≡ unreadable default_name r'
  unfolding row_to_record
  unreadable-state r r' same = ground (arith, same)

  -- An UPDATE that keeps the key, the name, and whether the state reads back.
  pub update-IsSound :
      (p : CellRow → Bool) (f : CellRow → CellRow) (rows : List CellRow)
      → IsSound default_name rows
      → Keeps default_name f
      → ((r : CellRow) → unreadable default_name (f r) ≡ unreadable default_name r)
      → IsSound default_name (update p f rows)
  update-IsSound p f rows sound k reads = record {
    ids = λ j. rw (affected-update (has_id j) p f rows (λ r. rw (k.id r) refl)) (sound.ids j);
    names = λ t n.
        rw (affected-update (has_name t n) p f rows (λ r. rw (k.name r, k.tenant_id r) refl))
          (sound.names t n);
    reads = ground (arith, sound.reads, first-update (unreadable default_name) p f rows reads);
  }

  pub updated-IsSound :
      (tenant id : ℕ) (f : CellRow → CellRow) (rows : List CellRow)
      → IsSound default_name rows
      → Keeps default_name f
      → ((r : CellRow) → unreadable default_name (f r) ≡ unreadable default_name r)
      → IsSound default_name (updated default_name tenant id f rows).1
  unfolding updated
  updated-IsSound tenant id f rows sound k reads =
      elim (Bool-cases (affected (is_cell tenant id) rows == 0)) [
        | inl y ↦ rw y sound
        | inr n ↦ rw n (update-IsSound (is_cell tenant id) f rows sound k reads)
      ]

  pub delete-IsSound :
      (p : CellRow → Bool) (rows : List CellRow)
      → IsSound default_name rows
      → IsSound default_name (delete p rows)
  delete-IsSound p rows sound = record {
    ids = λ j. omega (arith, affected-delete (has_id j) p rows, sound.ids j);
    names = λ t n. omega (arith, affected-delete (has_name t n) p rows, sound.names t n);
    reads = first-delete-none (unreadable default_name) p rows sound.reads;
  }

  pub insert-IsSound :
      (r : CellRow) (rows : List CellRow)
      → IsSound default_name rows
      → first (has_id r.id) rows ≡ none
      → ((t : ℕ) (n : String) → has_name t n r ≡ true → first (has_name t n) rows ≡ none)
      → unreadable default_name r ≡ false
      → IsSound default_name (r ∷ rows)
  unfolding affected first
  insert-IsSound r rows sound new free reads = record {
    ids = λ j. ground (arith, sound.ids j, affected-none (has_id j) rows, new);
    names = λ t n. elim (Bool-cases (has_name t n r)) [
      | inl y ↦ ground (arith, y, affected-none (has_name t n) rows (free t n y))
      | inr m ↦ ground (arith, m, sound.names t n)
    ];
    reads = ground (arith, reads, sound.reads);
  }

  -- A new name that no other row of the tenant has.
  rename-names :
      (tenant id t : ℕ) (new n : String) (rows : List CellRow)
      → IsSound default_name rows
      → taken_from tenant id new rows ≡ false
      → is_set (first (is_cell tenant id) rows) ≡ true
      → affected
          (has_name t n)
          (update (is_cell tenant id) (λ r. record r { name = some new }) rows)
        ≤ 1
  rename-names tenant id t new n rows sound free there =
      let f : CellRow → CellRow = λ r. record r { name = some new } in
      let split = affected-update_split (has_name t n) (is_cell tenant id) f rows in
      elim (Bool-cases (tenant == t && str_eq new n)) [
        | inl y ↦
            (let none_else : first (λ r. has_name t n r && not (is_cell tenant id r)) rows ≡ none =
                first_stronger (λ r. has_name t n r && not (is_cell tenant id r))
                  (λ r. has_name tenant new r && not (r.id == id)) rows
                  (λ r h. ground (arith, h, y, eq_iff new n)) (ground (arith, free, there)) in
              omega (
                arith,
                split,
                sound.ids id,
                affected-none (λ r. has_name t n r && not (is_cell tenant id r)) rows none_else,
                affected_le (λ r. is_cell tenant id r && has_name t n (f r)) (has_id id) rows
                    (λ r h. ground (arith, h)),
              ))
        | inr m ↦ omega (
          arith,
          split,
          sound.names t n,
          affected_never (λ r. is_cell tenant id r && has_name t n (f r)) rows
              (λ r. ground (arith, m)),
          affected_le (λ r. has_name t n r && not (is_cell tenant id r)) (has_name t n) rows
              (λ r h. ground (arith, h)),
        )
      ]

  pub rename_database-IsSound :
      (tenant id : ℕ) (new : String) (rows : List CellRow)
      → IsSound default_name rows
      → IsSound default_name (rename_database default_name tenant id new rows).1
  unfolding rename_database updated row_to_record
  rename_database-IsSound tenant id new rows sound =
      elim (Bool-cases (taken_from tenant id new rows)) [
        | inl y ↦ rw y sound
        | inr n ↦ elim (Option-cases (first (is_cell tenant id) rows)) [
          | inl q ↦ rw (n, affected-none (is_cell tenant id) rows q) sound
          | inr (r, q) ↦
              (let (_, some_row) = affected-some (is_cell tenant id) rows r q in
                let hit : (affected (is_cell tenant id) rows == 0) ≡ false =
                  ground (arith, some_row) in
                let f : CellRow → CellRow = λ r'. record r' { name = some new } in
                rw (n, hit)
                  (record {
                    ids = λ j.
                        rw (affected-update (has_id j) (is_cell tenant id) f rows (λ r'. refl))
                          (sound.ids j);
                    names = λ t m. rename-names tenant id t new m rows sound n (ground (arith, q));
                    reads = ground (
                      arith,
                      sound.reads,
                      first-update (unreadable default_name) (is_cell tenant id) f rows
                          (λ r'. unreadable-state (f r') r' refl),
                    );
                  }))
        ]
      ]

  pub create_database-IsSound :
      (tenant id : ℕ) (place : Option ℕ) (name : Option String) (now : ℕ) (rows : List CellRow)
      → IsSound default_name rows
      → IsSound default_name (create_database default_name tenant id place name now rows).1
  unfolding create_database row_to_record
  create_database-IsSound tenant id place name now rows sound =
      elim (Option-cases (first (has_id id) rows)) [
        | inr (r, q) ↦ rw q sound
        | inl q ↦
            elim (Option-cases (first (has_name tenant (name_or default_name id name)) rows)) [
              | inr (r, p) ↦ rw (q, p) sound
              | inl p ↦
                  rw (q, p)
                    (insert-IsSound _ rows sound q
                      (λ t n h. ground (arith, h, p, eq_iff (name_or default_name id name) n)) refl)
            ]
      ]

-- What changes the table.
