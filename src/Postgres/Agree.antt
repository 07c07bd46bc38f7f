-- ===== src/Postgres/Agree.antt =====
-- crates/metadata/src/postgres.rs against store.rs: the catalogue that the table of Cells stands for, and what
-- the two stores have to do alike.
use combee.Prelude.{
  ℕ, ◌≤◌, ◌≡◌, refl, String, Bool, not, ◌&&◌, Option, none, some, List, ◌==◌, arith, Option-cases,
  Bool-cases, inl, inr, if◌then◌else◌,
}
use combee.Errors.{Result, ok, err, Result-cases}
use combee.Exec.{Exec}
use combee.Catalog.{Catalog, DatabaseRecord, on_record, stored, is_set}
use combee.Postgres.Rows.{
  first, update, affected, first-update, affected-none, affected-some, first_met,
}
use combee.Postgres.Cells.{CellRow, has_id, is_cell, has_name, row_to_record, get_database, updated}

abbrev pub id_of : Option CellRow → Option ℕ
id_of none = none
id_of (some r) = some r.id

abbrev pub answer : Result DatabaseRecord → Option DatabaseRecord
answer (ok r) = some r
answer (err e) = none

-- Two catalogues with the same Cells and names.
pub record Same (c d : Catalog) : Type 0 where
  pub databases : (t j : ℕ) → c.databases t j ≡ d.databases t j
  pub name_index : (t : ℕ) (n : String) → c.name_index t n ≡ d.name_index t n

module _ (default_name : ℕ → String) where
  abbrev pub record_of : Option CellRow → Option DatabaseRecord
  record_of none = none
  record_of (some r) = answer (row_to_record default_name r)

  -- The catalogue that a table stands for.
  unfoldable pub catalog_of : List CellRow → Catalog
  unfolding first row_to_record
  catalog_of rows = record {
    databases = λ t j. record_of (first (is_cell t j) rows);
    name_index = λ t n. id_of (first (has_name t n) rows);
  }

  abbrev pub unreadable : CellRow → Bool
  unreadable r = not (is_set (answer (row_to_record default_name r)))

  -- The constraints of the table, and that the states of its rows read back.
  pub record IsSound (rows : List CellRow) : Type 0 where
    pub ids : (j : ℕ) → affected (has_id j) rows ≤ 1
    pub names : (t : ℕ) (n : String) → affected (has_name t n) rows ≤ 1
    pub reads : first unreadable rows ≡ none

  -- An operation of the one store answers like that of the other, and leaves what stands for it.
  pub record Agrees {A : Type 0} (pg : Exec (List CellRow) A) (mem : Exec Catalog A)
      (rows : List CellRow) : Type 0 where
    pub answers : (pg rows).0 ≡ (mem (catalog_of rows)).0
    pub leaves : Same (catalog_of (pg rows).1) (mem (catalog_of rows)).1

  -- An UPDATE that keeps the key and the name.
  pub record Keeps (f : CellRow → CellRow) : Type 0 where
    pub id : (r : CellRow) → (f r).id ≡ r.id
    pub tenant_id : (r : CellRow) → (f r).tenant_id ≡ r.tenant_id
    pub name : (r : CellRow) → (f r).name ≡ r.name

  pub row-reads :
      (rows : List CellRow) (p : CellRow → Bool) (r : CellRow)
      → IsSound rows
      → first p rows ≡ some r
      → (d : DatabaseRecord) × (row_to_record default_name r ≡ ok d)
  row-reads rows p r sound q = elim (Result-cases (row_to_record default_name r)) [
    | inl (d, e) ↦ (d, e)
    | inr (x, e) ↦
        (let (a, met) = first_met unreadable p rows r q (ground (arith, e)) in
          absurd (ground (arith, met, sound.reads)))
  ]

  Keeps-is_cell :
      (t j : ℕ) (f : CellRow → CellRow)
      → Keeps f
      → (r : CellRow) → is_cell t j (f r) ≡ is_cell t j r
  Keeps-is_cell t j f k r = rw (k.id r, k.tenant_id r) refl

  Keeps-has_name :
      (t : ℕ) (n : String) (f : CellRow → CellRow)
      → Keeps f
      → (r : CellRow) → has_name t n (f r) ≡ has_name t n r
  Keeps-has_name t n f k r = rw (k.name r, k.tenant_id r) refl

  record_of-update :
      (tenant id t j : ℕ) (f : CellRow → CellRow) (g : DatabaseRecord → DatabaseRecord)
      (rows : List CellRow) (r : CellRow) (d : DatabaseRecord)
      → Keeps f
      → first (is_cell tenant id) rows ≡ some r
      → row_to_record default_name (f r) ≡ ok (g d)
      → record_of (first (is_cell t j) (update (is_cell tenant id) f rows))
        ≡ (if tenant == t && id == j then some (g d) else record_of (first (is_cell t j) rows))
  record_of-update tenant id t j f g rows r d k q kept =
      let up = first-update (is_cell t j) (is_cell tenant id) f rows (Keeps-is_cell t j f k) in
      elim (Option-cases (first (is_cell t j) rows)) [
        | inl p ↦ ground (arith, p, q, up, kept)
        | inr (r', p) ↦
            (let (hit, _) = affected-some (is_cell t j) rows r' p in
              let same : is_cell tenant id r' ≡ (tenant == t && id == j) = ground (arith, hit) in
              elim (Bool-cases (tenant == t && id == j)) [
                | inl y ↦
                    (let one : some r' ≡ some r = ground (arith, y, p, q) in
                      ground (arith, y, p, one, up, kept, same))
                | inr n ↦ ground (arith, n, p, up, same)
              ])
      ]

  pub updated-Agrees :
      (tenant id : ℕ) (f : CellRow → CellRow) (g : DatabaseRecord → DatabaseRecord)
      (rows : List CellRow)
      → IsSound rows
      → Keeps f
      → ((r : CellRow) (d : DatabaseRecord)
          → first (is_cell tenant id) rows ≡ some r
          → row_to_record default_name r ≡ ok d
          → row_to_record default_name (f r) ≡ ok (g d))
      → Agrees
          (updated default_name tenant id f)
          (on_record tenant id (λ r. stored tenant id (g r)))
          rows
  unfolding updated on_record catalog_of get_database
  updated-Agrees tenant id f g rows sound k reads =
      elim (Option-cases (first (is_cell tenant id) rows)) [
        | inl q ↦ record {
          answers = ground (arith, q, affected-none (is_cell tenant id) rows q);
          leaves = record {
            databases = λ t j. ground (arith, q, affected-none (is_cell tenant id) rows q);
            name_index = λ t n. ground (arith, q, affected-none (is_cell tenant id) rows q);
          };
        }
        | inr (r, q) ↦
            (let (d, e) = row-reads rows (is_cell tenant id) r sound q in
              let kept = reads r d q e in
              let hit = affected-some (is_cell tenant id) rows r q in
              record {
                answers = ground (
                  arith,
                  q,
                  e,
                  kept,
                  hit,
                  first-update (is_cell tenant id) (is_cell tenant id) f rows
                      (Keeps-is_cell tenant id f k),
                );
                leaves = record {
                  databases = λ t j.
                      ground
                        (arith, q, e, hit, record_of-update tenant id t j f g rows r d k q kept);
                  name_index = λ t n. elim (Option-cases (first (has_name t n) rows)) [
                    | inl p ↦ ground (
                      arith,
                      q,
                      e,
                      hit,
                      p,
                      first-update (has_name t n) (is_cell tenant id) f rows
                          (Keeps-has_name t n f k),
                    )
                    | inr (r', p) ↦ ground (
                      arith,
                      q,
                      e,
                      hit,
                      p,
                      k.id r',
                      first-update (has_name t n) (is_cell tenant id) f rows
                          (Keeps-has_name t n f k),
                    )
                  ];
                };
              })
      ]
