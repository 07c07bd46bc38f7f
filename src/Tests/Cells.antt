-- ===== src/Tests/Cells.antt =====
-- The catalogue of Cells, the scanners of SQL texts and the errors on the wire: their theorems at
-- small inputs.
use combee.Prelude.{
  ℕ, String, ◌≡◌, refl, true, false, none, some, [], ◌∷◌, ◌++◌, ◌==◌, ◌&&◌, arith, str_eq, eq_iff,
  if◌then◌else◌,
}
use combee.Prelude.Int.{pos, ◌+ℤ◌, wrapping_add, as_i64, to_word}
use combee.Text.{Bytes}
use combee.Access.{Access, ApiKeyRecord, try_acquire_lease}
use combee.Access.Leases.{try_acquire_lease_excludes}
use combee.Catalog.{Catalog, DatabaseRecord, active}
use combee.Catalog.Index.{IsIndexed, create, changed, changed-IsIndexed}
use combee.Sql.{has_multiple_statements, dash, slash, star, semicolon}
use combee.Sql.Trivia.{missed_semicolon}

-- One Cell of tenant 1, with the number 5 and the name "main", and a replica on node 9.
abbrev pub main_cell : DatabaseRecord
main_cell = record {
  id = 5;
  tenant_id = 1;
  name = "main";
  state = active;
  created_at = 0;
  storage_node_id = some 8;
  replica_node_id = some 9;
  generation = pos 3;
}

abbrev pub one_cell : Catalog
one_cell = record {
  databases = λ t j. if 1 == t && 5 == j then some main_cell else none;
  name_index = λ t n. if 1 == t && str_eq "main" n then some 5 else none;
}

one_cell-IsIndexed : IsIndexed one_cell
one_cell-IsIndexed = record {
  listed = λ t j n p. ground (arith, p, eq_iff "main" n);
  leads = λ t j n p. ground (arith, p, eq_iff "main" n);
  owned = λ t u j p q. ground (arith, p, q);
}

any_name : ℕ → String
any_name id = "cell-"

six_is_new : (t : ℕ) → one_cell.databases t 6 ≡ none
six_is_new t = ground arith

changed-IsIndexed_example : IsIndexed (changed any_name (create 1 6 none "other" 0) one_cell)
changed-IsIndexed_example =
    changed-IsIndexed any_name (create 1 6 none "other" 0) one_cell one_cell-IsIndexed six_is_new

-- The identifier 6 and the Cell that took the name "main" get the same text.
abbrev main_name : ℕ → String
main_name id = "main"

-- A space, a line comment with one byte, the end of the line and the byte x.
abbrev commented : Bytes
commented = 32 ∷ dash ∷ dash ∷ 97 ∷ 10 ∷ 120 ∷ []

missed_semicolon_example :
    has_multiple_statements ((97 ∷ []) ++ slash ∷ star ∷ star ∷ slash ∷ semicolon ∷ 100 ∷ [])
    ≡ has_multiple_statements (100 ∷ [])
missed_semicolon_example = missed_semicolon (97 ∷ []) (100 ∷ []) refl

abbrev gate : Access
gate = record {
  tenants = λ t. none;
  api_keys =
      record {
        id = 3;
        tenant_id = 1;
        name = "k";
        key_hash = "h";
        created_at = 0;
        revoked_at = none;
      }
      ∷ [];
  data_nodes = λ id. none;
  leases = λ n. none;
}

-- A second key, with the same hash, stays valid.
abbrev second_key : ApiKeyRecord
second_key = record {
  id = 4;
  tenant_id = 1;
  name = "l";
  key_hash = "h";
  created_at = 0;
  revoked_at = none;
}

abbrev two_keys : Access
two_keys = record gate {
  api_keys =
      record {
        id = 3;
        tenant_id = 1;
        name = "k";
        key_hash = "h";
        created_at = 0;
        revoked_at = none;
      }
      ∷ second_key
      ∷ [];
}

try_acquire_lease_excludes_example :
    let a' = (try_acquire_lease "gc" 1 (pos 10) (pos 30) gate).1 in
    (try_acquire_lease "gc" 2 (pos 40) (pos 30) a' ≡ (false, a'))
    × ((try_acquire_lease "gc" 1 (pos 40) (pos 30) a').0 ≡ true)
unfolding try_acquire_lease wrapping_add as_i64 to_word ◌+ℤ◌
try_acquire_lease_excludes_example =
    try_acquire_lease_excludes "gc" 1 2 (pos 10) (pos 40) (pos 30) (pos 30) gate refl refl
      (omega arith)
