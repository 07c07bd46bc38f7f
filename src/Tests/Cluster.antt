-- ===== src/Tests/Cluster.antt =====
-- Failover and reset: their theorems on the Cell of the catalogue's tests, with a primary on node 8 and a
-- replica on node 9.
use combee.Prelude.{
  ℕ, ◌≡◌, refl, true, false, none, some, [], ◌==◌, arith, Option, str_eq, if◌then◌else◌,
}
use combee.Prelude.Int.{pos, ◌+ℤ◌}
use combee.Errors.{ok, err, forbidden}
use combee.Sqlite.{Table}
use combee.Sqlite.Ideal.{tables, empty_table}
use combee.Cache.Assoc.{Entries, assoc_moka}
use combee.Node.{check_generation}
use combee.Usage.{Counters}
use combee.Usage.Store.{memory_store}
use combee.Tests.Cells.{one_cell, main_cell}
use combee.Tests.Nodes.{start, five, opening}
use combee.Api.Routing.{Client, in_process, remote, Addresses}
use combee.Api.Failover.{Cluster, failover_cell, failover_cell_fences}
use combee.Api.Handlers.{
  Server, Refused, serve_reset, serve_kv_set, serve_kv_del, serve_kv_mset, serve_kv_expire,
  serve_kv_incr, reset_locks_out_writes,
}

-- The node of a client.
abbrev node_of : Client → Option ℕ
node_of in_process = none
node_of (remote addr hook) = if str_eq addr "a" then some 8 else some 9

abbrev address : Addresses
address n = if n == 8 then some "a" else some "b"

abbrev cluster : Cluster Table Entries
cluster = record {
  catalog = one_cell;
  routes = record {
    clients = λ n. if n == 8 then some (remote "a" none) else some (remote "b" none);
    local = none;
    route_cache = λ db. none;
  };
  nodes = λ n. start;
}

failover_cell_fences_example :
    let next = record main_cell {
      storage_node_id = some 9;
      replica_node_id = none;
      generation = pos 4;
    } in
    let after = failover_cell node_of 1 5 address address (ok true) (λ n. n) cluster in
    (after.0 ≡ ok next)
    × (after.1.catalog.databases 1 5 ≡ some next)
    × (after.1.routes.route_cache 5 ≡ none)
    × ((after.1.nodes 9).generations 5 ≡ some (pos 4))
    × (check_generation 5 (pos 3) (after.1.nodes 8) ≡ err forbidden)
unfolding ◌+ℤ◌
failover_cell_fences_example =
    failover_cell_fences node_of 1 5 8 9 address address true (λ n. n) cluster main_cell "b" "a"
      (remote "b" none) (remote "a" none) (pos 3) refl refl refl refl refl refl refl refl refl refl
      (omega arith) (omega arith) refl

-- A server whose node expects the generation of the catalogue.
abbrev server : Server Table Entries Counters
server = record {
  catalog = one_cell;
  usage = record { counters = []; batch = []; metadata = [] };
  node = record start { generations = λ db. some (pos 3) };
}

reset_locks_out_writes_example :
    let reset = serve_reset tables assoc_moka memory_store 1 5 (ok tt) empty_table server in
    let s' = reset.1 in
    (check_generation 5 (pos 3) server.node ≡ ok tt)
    × (reset.0 ≡ ok (record main_cell { generation = pos 4 }))
    × Refused tables assoc_moka memory_store 1 5 (pos 9) s' (
        serve_kv_set tables assoc_moka memory_store 1 5
          (opening 6)
          "a"
          five
          none
          false
          false
          0
          (pos 9)
          (pos 9))
    × Refused tables assoc_moka memory_store 1 5
        (pos 9)
        s'
        (serve_kv_del tables assoc_moka memory_store 1 5 (opening 6) "a" (pos 9))
    × Refused tables assoc_moka memory_store 1 5
        (pos 9)
        s'
        (serve_kv_mset tables assoc_moka memory_store 1 5 (opening 6) [] (pos 9) (λ i. pos 9))
    × Refused tables assoc_moka memory_store 1 5
        (pos 9)
        s'
        (serve_kv_expire tables assoc_moka memory_store 1 5 (opening 6) "a" none (pos 9) (pos 9))
    × Refused tables assoc_moka memory_store 1 5
        (pos 9)
        s'
        (serve_kv_incr tables assoc_moka memory_store 1 5 (opening 6) "a" (pos 1) none (pos 9))
unfolding ◌+ℤ◌
reset_locks_out_writes_example =
    reset_locks_out_writes tables assoc_moka memory_store 1 5 tt empty_table server main_cell refl
      refl (omega arith) (omega arith) (opening 6) "a" five none false false [] (pos 1) 0 (pos 9)
      (pos 9) (λ i. pos 9)
