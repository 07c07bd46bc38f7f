-- ===== src/Catalog/Index.antt =====
-- crates/metadata/src/store.rs: the index of names against the Cells of a tenant.
use combee.Prelude.{
  ℕ, String, ◌≡◌, refl, true, Option, none, some, eq_iff, arith, Option-cases, inl, inr,
  if◌then◌else◌,
}
use combee.Errors.{ok, err, cell_name_conflict}
use combee.Exec.{Exec}
use combee.Catalog.{
  Catalog, DatabaseRecord, DatabaseState, added, new_record, is_set, create_database,
  ensure_database_by_name, rename_database, reset_database, delete_database, set_database_state,
  set_replica_node, promote_replica, migrate_database, get_database_by_name, on_record, removed,
  promoted, next_generation, moved, stored,
}

abbrev pub name_of : Option DatabaseRecord → Option String
name_of none = none
name_of (some r) = some r.name

-- A Cell has a name exactly if the index leads from that name to it, and belongs to one tenant.
pub record IsIndexed (c : Catalog) : Type 0 where
  pub listed :
      (t j : ℕ) (n : String) → name_of (c.databases t j) ≡ some n → c.name_index t n ≡ some j
  pub leads :
      (t j : ℕ) (n : String) → c.name_index t n ≡ some j → name_of (c.databases t j) ≡ some n
  pub owned :
      (t u j : ℕ) → is_set (c.databases t j) ≡ true → is_set (c.databases u j) ≡ true → t ≡ u

-- A Cell whose identifier and name are new joins.
added-IsIndexed :
    (tenant id : ℕ) (r : DatabaseRecord) (c : Catalog)
    → IsIndexed c
    → ((t : ℕ) → c.databases t id ≡ none)
    → c.name_index tenant r.name ≡ none
    → IsIndexed (added tenant id r c)
unfolding added
added-IsIndexed tenant id r c h fresh free = record {
  listed = λ t j n p. ground (arith, p, h.listed t j n, free, eq_iff r.name n);
  leads = λ t j n p. ground (arith, p, h.leads t j n, fresh t, fresh tenant, eq_iff r.name n);
  owned = λ t u j p q. ground (arith, p, q, h.owned t u j, fresh t, fresh u);
}

-- A record that changes and keeps its name.
stored-IsIndexed :
    (tenant id : ℕ) (r old : DatabaseRecord) (c : Catalog)
    → IsIndexed c
    → c.databases tenant id ≡ some old
    → r.name ≡ old.name
    → IsIndexed (stored tenant id r c).1
stored-IsIndexed tenant id r old c h there same = record {
  listed = λ t j n p. ground (arith, p, h.listed t j n, there, same);
  leads = λ t j n p. ground (arith, p, h.leads t j n, there, same);
  owned = λ t u j p q. ground (arith, p, q, h.owned t u j, there);
}

moved-IsIndexed :
    (tenant id : ℕ) (new_name : String) (r : DatabaseRecord) (c : Catalog)
    → IsIndexed c
    → c.databases tenant id ≡ some r
    → c.name_index tenant new_name ≡ none
    → IsIndexed (moved tenant id new_name r c)
moved-IsIndexed tenant id new_name r c h there free = record {
  listed = λ t j n p. ground (
    arith,
    p,
    h.listed t j n,
    h.listed tenant id r.name,
    there,
    free,
    eq_iff new_name n,
    eq_iff r.name n,
  );
  leads =
      λ t j n p. ground (arith, p, h.leads t j n, there, free, eq_iff new_name n, eq_iff r.name n);
  owned = λ t u j p q. ground (arith, p, q, h.owned t u j, there);
}

on_record-IsIndexed :
    {A : Type 0} (tenant id : ℕ) (f : DatabaseRecord → Exec Catalog A) (c : Catalog)
    → IsIndexed c
    → ((r : DatabaseRecord) → c.databases tenant id ≡ some r → IsIndexed (f r c).1)
    → IsIndexed (on_record tenant id f c).1
unfolding on_record
on_record-IsIndexed tenant id f c h k = elim (Option-cases (c.databases tenant id)) [
  | inl q ↦ rw (q, on_record) h
  | inr (r, q) ↦ rw (q, on_record) (k r q)
]

removed-IsIndexed :
    (tenant id : ℕ) (c : Catalog) (r : DatabaseRecord)
    → IsIndexed c
    → c.databases tenant id ≡ some r
    → IsIndexed (removed tenant id c)
removed-IsIndexed tenant id c r h q = record {
  listed = λ t j n p. ground (arith, p, h.listed t j n, h.owned t tenant id, q);
  leads = λ t j n p. ground (arith, p, h.leads t j n, q);
  owned = λ t u j a b. ground (arith, a, b, h.owned t u j);
}

create_database-IsIndexed :
    (d : ℕ → String) (tenant id : ℕ) (place : Option ℕ) (n : String) (now : ℕ) (c : Catalog)
    → IsIndexed c
    → ((t : ℕ) → c.databases t id ≡ none)
    → IsIndexed (create_database d tenant id place (some n) now c).1
unfolding create_database
create_database-IsIndexed d tenant id place n now c h new =
    elim (Option-cases (c.name_index tenant n)) [
      | inl q ↦
          rw (new tenant, q, create_database)
            (added-IsIndexed tenant id (new_record tenant id n place now) c h new q)
      | inr (j, q) ↦ rw (new tenant, q, create_database) h
    ]

ensure_database_by_name-IsIndexed :
    (tenant id : ℕ) (place : Option ℕ) (n : String) (now : ℕ) (c : Catalog)
    → IsIndexed c
    → ((t : ℕ) → c.databases t id ≡ none)
    → IsIndexed (ensure_database_by_name tenant n place id now c).1
unfolding ensure_database_by_name
ensure_database_by_name-IsIndexed tenant id place n now c h new =
    elim (Option-cases (c.name_index tenant n)) [
      | inl q ↦
          rw (q, ensure_database_by_name)
            (added-IsIndexed tenant id (new_record tenant id n place now) c h new q)
      | inr (j, q) ↦ rw (q, ensure_database_by_name) h
    ]

promoted-IsIndexed :
    (tenant id : ℕ) (replica : Option ℕ) (r : DatabaseRecord) (c : Catalog)
    → IsIndexed c
    → c.databases tenant id ≡ some r
    → IsIndexed (promoted tenant id replica r c).1
promoted-IsIndexed tenant id none r c h q = h
promoted-IsIndexed tenant id (some place) r c h q =
    stored-IsIndexed tenant id
      (next_generation (record r { storage_node_id = some place; replica_node_id = none })) r c h q
      refl

-- The calls that change the catalogue.
pub data Change : Type 0 where
  create ensure : ℕ → ℕ → Option ℕ → String → ℕ → Change
  rename : ℕ → ℕ → String → Change
  reset delete promote : ℕ → ℕ → Change
  set_state : ℕ → ℕ → DatabaseState → Change
  set_replica : ℕ → ℕ → Option ℕ → Change
  migrate : ℕ → ℕ → ℕ → Change

unfoldable pub changed : (ℕ → String) → Change → Catalog → Catalog
unfolding create_database ensure_database_by_name rename_database reset_database delete_database
    set_database_state set_replica_node promote_replica migrate_database
changed default_name (create tenant id place n now) c =
    (create_database default_name tenant id place (some n) now c).1
changed default_name (ensure tenant id place n now) c =
    (ensure_database_by_name tenant n place id now c).1
changed default_name (rename tenant id n) c = (rename_database tenant id n c).1
changed default_name (reset tenant id) c = (reset_database tenant id c).1
changed default_name (delete tenant id) c = (delete_database tenant id c).1
changed default_name (promote tenant id) c = (promote_replica tenant id c).1
changed default_name (set_state tenant id s) c = (set_database_state tenant id s c).1
changed default_name (set_replica tenant id place) c = (set_replica_node tenant id place c).1
changed default_name (migrate tenant id place) c = (migrate_database tenant id place c).1

-- The identifier that a call brings is new to every tenant.
abbrev pub BringsNew : Change → Catalog → Type 0
BringsNew (create tenant id place n now) c = (t : ℕ) → c.databases t id ≡ none
BringsNew (ensure tenant id place n now) c = (t : ℕ) → c.databases t id ≡ none
BringsNew (rename tenant id n) c = Unit
BringsNew (reset tenant id) c = Unit
BringsNew (delete tenant id) c = Unit
BringsNew (promote tenant id) c = Unit
BringsNew (set_state tenant id s) c = Unit
BringsNew (set_replica tenant id place) c = Unit
BringsNew (migrate tenant id place) c = Unit

-- Every call that changes the catalogue keeps names and Cells in agreement, whether it succeeds or
-- not. A creation is one that is given a name, and brings an identifier that is new to every
-- tenant.
pub changed-IsIndexed :
    (default_name : ℕ → String) (change : Change) (c : Catalog)
    → IsIndexed c
    → BringsNew change c
    → IsIndexed (changed default_name change c)
unfolding changed rename_database reset_database delete_database set_database_state set_replica_node
    promote_replica migrate_database
changed-IsIndexed d (create tenant id place n now) c h new =
    create_database-IsIndexed d tenant id place n now c h new
changed-IsIndexed d (ensure tenant id place n now) c h new =
    ensure_database_by_name-IsIndexed tenant id place n now c h new
changed-IsIndexed d (rename tenant id n) c h new =
    on_record-IsIndexed tenant id
      (λ r c.
        if is_set (c.name_index tenant n)
        then (err (cell_name_conflict), c)
        else (ok (record r { name = n }), moved tenant id n r c))
      c h
      λ r q. elim (Option-cases (c.name_index tenant n)) [
        | inl free ↦ rw free (moved-IsIndexed tenant id n r c h q free)
        | inr (j, x) ↦ rw x h
      ]
changed-IsIndexed d (reset tenant id) c h new =
    on_record-IsIndexed tenant id (λ r. stored tenant id (next_generation r)) c h
      λ r q. stored-IsIndexed tenant id (next_generation r) r c h q refl
changed-IsIndexed d (delete tenant id) c h new =
    on_record-IsIndexed tenant id (λ r c'. (ok tt, removed tenant id c')) c h
      λ r q. removed-IsIndexed tenant id c r h q
changed-IsIndexed d (promote tenant id) c h new =
    on_record-IsIndexed tenant id (λ r. promoted tenant id r.replica_node_id r) c h
      λ r q. promoted-IsIndexed tenant id r.replica_node_id r c h q
changed-IsIndexed d (set_state tenant id s) c h new =
    on_record-IsIndexed tenant id
      (λ r c'. (ok tt, (stored tenant id (record r { state = s }) c').1)) c h
      λ r q. stored-IsIndexed tenant id (record r { state = s }) r c h q refl
changed-IsIndexed d (set_replica tenant id place) c h new =
    on_record-IsIndexed tenant id (λ r. stored tenant id (record r { replica_node_id = place })) c h
      λ r q. stored-IsIndexed tenant id (record r { replica_node_id = place }) r c h q refl
changed-IsIndexed d (migrate tenant id place) c h new =
    on_record-IsIndexed tenant id
      (λ r. stored tenant id (next_generation (record r { storage_node_id = some place }))) c h
      λ r q.
        stored-IsIndexed tenant id (next_generation (record r { storage_node_id = some place })) r c
          h q refl

-- In an agreeing catalogue, the Cell found by a name is the one that carries it.
get_database_by_name_lem :
    (tenant random : ℕ) (n : String) (c : Catalog) (r : DatabaseRecord)
    → IsIndexed c
    → get_database_by_name tenant n random c ≡ ok r
    → r.name ≡ n
unfolding get_database_by_name
get_database_by_name_lem tenant random n c r h p = elim (Option-cases (c.name_index tenant n)) [
  | inl q ↦ ground (arith, p, q)
  | inr (j, q) ↦ ground (arith, p, q, h.leads tenant j n)
]
