-- ===== src/Tests/Stores.antt =====
-- PostgreSQL behind the store, the creation of Cells over it, and the remote client: the theorems at small tables.
use combee.Prelude.{ℕ, ◌≡◌, refl, false, none, some, List, [], ◌∷◌, String, Option, arith, ◌≤◌}
use combee.Prelude.Int.{ℤ, pos, ◌+ℤ◌}
use combee.Errors.{Result, ok, err, forbidden, invalid_request}
use combee.Sqlite.{Table}
use combee.Sqlite.Ideal.{tables}
use combee.Cache.Assoc.{assoc_moka, Entries}
use combee.Sql.Execute.{Engine, SqlRequest}
use combee.Catalog
use combee.Ledger
use combee.Ledger.{Ledger}
use combee.Postgres.Rows.{first, affected}
use combee.Postgres.Cells
use combee.Postgres.Cells.{CellRow, has_id, has_name, name_or}
use combee.Postgres.Agree.{Agrees, IsSound}
use combee.Postgres.Refines.{cells_agree}
use combee.Postgres.Sound.{Change, create, rename, reset, changed_all, changed_all-IsSound}
use combee.Postgres.Money.{Money, redeem_voucher}
use combee.Postgres.Books.{
  Balanced, Entry, open_account, append, redeem, entered, entered-Balanced, redeem_voucher_at_end,
}
use combee.Rpc.{
  DataNodeClient, Link, Line, Moment, lost, works, KvSetRequest, KvExpireRequest, KvIncrRequest,
}
use combee.Rpc.Remote.{remote_client}
use combee.Rpc.Fencing.{fence_cell_over_rpc, answer_by}
use combee.Api.Directory.{Directory, create_database, of_tenant}
use combee.Api.Idempotency.{second_answer, create_database_again, create_database_within}
use combee.Api.Routing.{remote, new_provider, Addresses}
use combee.Api.Migration.{Migration, backup, restore, answered, admin_migrate_cell}
use combee.Api.Migration.Target.{admin_migrate_cell_asks_target}
use combee.Tests.Nodes
use combee.Tests.Nodes.{opening}
use combee.Tests.Money.{gift, start, top_up}
use combee.Tests.Queries.{libraries, two_rows}

abbrev plain : ℕ → String
plain id = "cell-0"

abbrev changes : List Change
changes = create 1 5 (some 8) (some "main") 0 ∷ rename 1 5 "other" ∷ reset 1 5 ∷ []

changed_all-IsSound_example : IsSound plain (changed_all plain changes [])
changed_all-IsSound_example = changed_all-IsSound plain changes

-- The row of Cell 5 of tenant 1, on node 8 with a replica on node 9.
abbrev main_row : CellRow
main_row = record {
  id = 5;
  tenant_id = 1;
  state = "active";
  created_at = 0;
  storage_node_id = some 8;
  replica_node_id = some 9;
  generation = pos 3;
  name = some "main";
}

main_row-IsSound : IsSound plain (main_row ∷ [])
unfolding affected first Cells.row_to_record
main_row-IsSound = record { ids = λ j. ground arith; names = λ t n. ground arith; reads = refl }

cells_agree_example :
    Agrees plain
      (Cells.set_replica_node plain 1 5 none)
      (Catalog.set_replica_node 1 5 none)
      (main_row ∷ [])
    × Agrees plain (Cells.reset_database plain 1 5) (Catalog.reset_database 1 5) (main_row ∷ [])
    × Agrees plain
        (Cells.migrate_database plain 1 5 7)
        (Catalog.migrate_database 1 5 7)
        (main_row ∷ [])
    × Agrees plain (Cells.delete_database 1 5) (Catalog.delete_database 1 5) (main_row ∷ [])
    × ((fresh now : ℕ) (place : Option ℕ) (name : Option String)
        → first (has_id fresh) (main_row ∷ []) ≡ none
        → first (has_name 1 (name_or plain fresh name)) (main_row ∷ []) ≡ none
        → Agrees plain
            (Cells.create_database plain 1 fresh place name now)
            (Catalog.create_database plain 1 fresh place name now)
            (main_row ∷ []))
cells_agree_example =
    cells_agree plain 1 5 7 none (main_row ∷ []) main_row-IsSound (unfold first ◌+ℤ◌ in refl)

abbrev no_money : Money
no_money = record { accounts = []; transactions = []; vouchers = gift ∷ [] }

no_money-Balanced : Balanced no_money
unfolding first affected
no_money-Balanced = record { sums = λ tenant. refl; once = λ r. omega arith }

-- Two servers that both looked for the reference before either booked it.
abbrev entries : List Entry
entries =
    open_account 4 (pos 1)
    ∷ append no_money top_up
    ∷ append no_money top_up
    ∷ redeem "h" 4 3 (pos 40)
    ∷ []

entered-Balanced_example : Balanced (entered entries no_money)
entered-Balanced_example = entered-Balanced entries no_money no_money-Balanced

abbrev last_moment : Ledger
last_moment = record start { vouchers = λ id. some (record gift { expires_at = some (pos 50) }) }

abbrev last_row : Money
last_row = record no_money { vouchers = record gift { expires_at = some (pos 50) } ∷ [] }

redeem_voucher_at_end_example :
    ((Ledger.redeem_voucher "h" 4 3 (pos 50) last_moment).0 ≡ ok (pos 500))
    × (redeem_voucher "h" 4 3 (pos 50) last_row ≡ (err invalid_request, last_row))
redeem_voucher_at_end_example =
    redeem_voucher_at_end "h" 4 3 (pos 50) last_moment last_row
      (record gift { expires_at = some (pos 50) }) refl refl refl (unfold first in refl)
      (unfold affected in omega arith)

abbrev still : Engine ℕ Table
still = record {
  prepare = λ sql c. ok [];
  query = λ sql values c. (ok two_rows, c);
  execute = λ sql values c. (ok 1, c);
  begin = λ c. (ok tt, c);
  commit = λ c. (ok tt, c);
  rollback = λ c. c;
}

abbrev far : Link → DataNodeClient ℕ Table (Line Table Entries)
far link = remote_client tables assoc_moka libraries still (λ f. f) link 77

abbrev moment : Moment Table
moment = record {
  opening = opening 9;
  now = pos 9;
  then_now = pos 9;
  read_now = pos 9;
  clock = λ i. pos 9;
  stored = 0;
  removed = ok tt;
  left = λ k. none;
}

abbrev a_five : KvSetRequest
a_five = record { value = Nodes.five; ttl_seconds = none; nx = false; xx = false }

abbrev a_expire : KvExpireRequest
a_expire = record { key = "a"; ttl_seconds = none }

abbrev a_incr : KvIncrRequest
a_incr = record { key = "a"; delta = pos 1; ttl_seconds = none }

abbrev no_params : SqlRequest ℕ
no_params = record { sql = []; params = [] }

-- The answer of the fence is lost; the Cell is then written with the generation from before.
abbrev fenced : Result (Unit {0}) × Line Table Entries
fenced = (far lost).fence_cell moment 1 (pos 4) (record { node = Nodes.start; hook_runs = 0 })

fence_cell_over_rpc_example :
    (fenced.0 ≡ answer_by lost)
    × ((far works).kv_set moment 1 "a" a_five (pos 3) fenced.1 ≡ (err forbidden, fenced.1))
    × ((far works).kv_del moment 1 "a" (pos 3) fenced.1 ≡ (err forbidden, fenced.1))
    × ((far works).kv_mset moment 1 [] (pos 3) fenced.1 ≡ (err forbidden, fenced.1))
    × ((far works).kv_expire moment 1 a_expire (pos 3) fenced.1 ≡ (err forbidden, fenced.1))
    × ((far works).kv_incr moment 1 a_incr (pos 3) fenced.1 ≡ (err forbidden, fenced.1))
    × ((far works).execute_sql moment 1 no_params (pos 3) fenced.1 ≡ (err forbidden, fenced.1))
    × ((far works).execute_transaction moment 1 (no_params ∷ []) (pos 3) fenced.1
        ≡ (err forbidden, fenced.1))
fence_cell_over_rpc_example =
    fence_cell_over_rpc tables assoc_moka libraries still (λ f. f) lost 77 77 1 (pos 4) (pos 3)
      moment moment "a" a_five [] a_expire a_incr no_params (no_params ∷ [])
      (record { node = Nodes.start; hook_runs = 0 }) refl refl

abbrev directory : Directory
directory = record { cells = main_row ∷ []; idempotency = [] }

create_database_again_example :
    let once = create_database plain 2 1 6 (some 8) (some "k") (some "notes") 10 directory in
    let twice = create_database plain 2 1 7 none (some "k") none 11 once.1 in
    (twice.0 ≡ second_answer 6 once.0) × (twice.1 ≡ once.1)
create_database_again_example =
    create_database_again plain 2 2 1 6 7 10 11 (some 8) none "k" (some "notes") none directory
      (unfold first in refl) (unfold first in refl)

create_database_within_example :
    affected
      (of_tenant 1)
      (create_database plain 2 1 6 (some 8) (some "k") (some "notes") 10 directory).1.cells
    ≤ 2
create_database_within_example =
    create_database_within plain 2 1 6 10 (some 8) (some "k") (some "notes") directory
      (unfold first in refl) (omega arith) (unfold affected in omega arith)

abbrev routes_up : Addresses
routes_up n = some "b"

abbrev migration : Migration
migration = record { cells = main_row ∷ []; routes = new_provider none; requests = [] }

abbrev moved_record : Catalog.DatabaseRecord
moved_record = record {
  id = 5;
  tenant_id = 1;
  name = "main";
  state = Catalog.active;
  created_at = 0;
  storage_node_id = some 7;
  replica_node_id = some 9;
  generation = pos 4;
}

-- The Cell is migrated to node 7.
abbrev ask : Result ℤ × Migration
ask =
    admin_migrate_cell plain (λ c. answered (ok "v1")) (λ c. answered (ok tt)) 5 7 (pos 100)
      routes_up migration

admin_migrate_cell_asks_target_example :
    (ask.1.requests
      ≡ (remote "b" (some 5), backup) ∷ (remote "b" (some 5), restore (some "v1")) ∷ [])
    × (ask.0 ≡ ok (pos 4))
    × (Cells.get_database_by_id plain 5 ask.1.cells ≡ ok moved_record)
unfolding ◌+ℤ◌
admin_migrate_cell_asks_target_example =
    admin_migrate_cell_asks_target plain (λ c. answered (ok "v1")) (λ c. answered (ok tt)) 5 7
      (pos 100) routes_up migration
      (record moved_record { storage_node_id = some 8; generation = pos 3 }) "b" main_row-IsSound
      (unfold Cells.get_database_by_id first Cells.row_to_record in refl) refl refl refl refl refl
