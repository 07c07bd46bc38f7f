-- ===== src/Catalog/Generations.antt =====
-- Generations and the fence: the calls of crates/metadata/src/store.rs that move or empty a Cell,
-- and the node that held it. Also what a creation without a name does to the index.
use combee.Prelude.{ℕ, String, ◌≡◌, Bool, false, Option, none, some, List, eq_iff, arith}
use combee.Prelude.Int.{ℤ, pos, negsuc, ◌+ℤ◌, ◌≤ℤ◌, eq_ℤ, i64_max, i64_min, wrapping_add_lem}
use combee.Errors.{ok, err, forbidden}
use combee.Text.{Bytes}
use combee.Sqlite.{Sqlite}
use combee.Kv.{KvSetItem}
use combee.Cache.{Moka}
use combee.Manager.{Opening}
use combee.Node.{Node, fence_cell}
use combee.Node.Ops.{kv_set, kv_del, kv_mset, kv_expire, kv_incr}
use combee.Node.Answers.{fenced_writes}
use combee.Catalog.{
  Catalog, DatabaseRecord, create_database, reset_database, promote_replica, migrate_database,
  added, on_record,
}

abbrev pub one_up : ℤ → ℤ
one_up g = g +ℤ pos 1

pub one_up_ne : (g : ℤ) → eq_ℤ g (one_up g) ≡ false
unfolding ◌+ℤ◌
one_up_ne (pos n) = ground arith
one_up_ne (negsuc n) = ground arith

-- Resetting, promoting the replica of, and migrating a Cell that has a replica and whose
-- generation is below the largest `i64` each answer with its record one generation on; the
-- promoted and the migrated Cell stand on the new node.
pub generation_lem :
    (tenant id place target : ℕ) (c : Catalog) (r : DatabaseRecord)
    → c.databases tenant id ≡ some r
    → r.replica_node_id ≡ some place
    → i64_min ≤ℤ r.generation +ℤ pos 1
    → r.generation +ℤ pos 1 ≤ℤ i64_max
    → let next = r.generation +ℤ pos 1 in
      ((reset_database tenant id c).0 ≡ ok (record r { generation = next }))
      × ((promote_replica tenant id c).0
          ≡ ok (record r {
            storage_node_id = some place;
            replica_node_id = none;
            generation = next;
          }))
      × ((migrate_database tenant id target c).0
          ≡ ok (record r { storage_node_id = some target; generation = next }))
unfolding reset_database promote_replica migrate_database on_record
generation_lem tenant id place target c r there replica lo hi =
    let g = wrapping_add_lem r.generation (pos 1) lo hi in
    (ground (arith, there, g), ground (arith, there, replica, g), ground (arith, there, g))

module _ {Conn Store : Type 0} (sq : Sqlite Conn) (moka : Moka Store) where
  -- Take a Cell with a replica, its generation below the largest `i64`. After its promotion, the
  -- old node, fenced with the generation that the promotion answered, refuses each of the five
  -- writes that carries the generation from before, and stays as it is.
  pub promotion_fences :
      (tenant id place : ℕ) (c : Catalog) (r r' : DatabaseRecord)
      → c.databases tenant id ≡ some r
      → r.replica_node_id ≡ some place
      → i64_min ≤ℤ r.generation +ℤ pos 1
      → r.generation +ℤ pos 1 ≤ℤ i64_max
      → (promote_replica tenant id c).0 ≡ ok r'
      → (o : Opening) (k : String) (v : Bytes) (t : Option ℕ) (nx xx : Bool)
        (items : List KvSetItem) (d : ℤ) (stored : ℕ) (now : ℤ) (n : Node Conn Store)
      → let n' = fence_cell id r'.generation n in
        (kv_set sq moka id o k v t nx xx r.generation stored now now n' ≡ (err forbidden, n'))
        × (kv_del sq moka id o k r.generation n' ≡ (err forbidden, n'))
        × (kv_mset sq moka id o items r.generation (λ i. now) n' ≡ (err forbidden, n'))
        × (kv_expire sq moka id o k t r.generation now now n' ≡ (err forbidden, n'))
        × (kv_incr sq moka id o k d t r.generation now n' ≡ (err forbidden, n'))
  promotion_fences tenant id place c r r' there replica lo hi answer o k v t nx xx items d stored
        now n =
      fenced_writes sq moka id r'.generation r.generation o k v t nx xx items d stored now n (
        ground (
          arith,
          answer,
          (generation_lem tenant id place 0 c r there replica lo hi).1,
          one_up_ne r.generation,
        ))

-- A creation without a name, with an identifier that the tenant does not use, takes the name that
-- it makes from another Cell of the tenant that has it: the name then leads to the new Cell, and
-- the record of the old one is as it was.
pub create_unnamed_takes_name :
    (default_name : ℕ → String) (tenant id j now : ℕ) (place : Option ℕ) (c : Catalog)
    (r : DatabaseRecord)
    → c.databases tenant id ≡ none
    → c.databases tenant j ≡ some r
    → c.name_index tenant (default_name id) ≡ some j
    → let c' = (create_database default_name tenant id place none now c).1 in
      (c'.name_index tenant (default_name id) ≡ some id) × (c'.databases tenant j ≡ some r)
unfolding create_database added
create_unnamed_takes_name default_name tenant id j now place c r new old taken =
    (ground (arith, new, eq_iff (default_name id) (default_name id)), ground (arith, new, old))
