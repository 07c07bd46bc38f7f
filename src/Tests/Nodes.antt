-- ===== src/Tests/Nodes.antt =====
-- A data node and its connections: their theorems at a node with two connections at most.
use combee.Prelude.{
  ℕ, ◌≡◌, refl, true, false, none, some, List, [], ◌∷◌, ◌==◌, arith, str_eq, eq_iff, if◌then◌else◌,
}
use combee.Prelude.Int.{ℤ, pos, negsuc, ◌+ℤ◌, wrapping_add, as_i64, to_word}
use combee.Errors.{ok, err, forbidden}
use combee.Text.{Bytes}
use combee.Text.Utf8.{is_utf8}
use combee.Sqlite.{Row, Table}
use combee.Sqlite.Ideal.{tables, tables-IsReliable, empty_table}
use combee.Kv
use combee.Kv.{KvSetItem, entry}
use combee.Kv.Live.{live}
use combee.Cache.{cache_key}
use combee.Cache.Assoc.{Entries, assoc_moka, find}
use combee.Manager.{Entry, Manager, Opening, is_open, acquire, new, mark_readonly}
use combee.Manager.Bounds.{IsValid, new-IsValid}
use combee.Manager.Lru.{AllSince, Holds, acquire_at_limit}
use combee.Quota.{QuotaConfig}
use combee.Node.{Node, fence_cell}
use combee.Node.Ops.{kv_get, kv_set, kv_del, kv_mset, kv_mget, kv_ttl, kv_expire, kv_incr}
use combee.Kv.Batch.{AllUtf8}
use combee.Node.Batch.{visible_all, kv_mget_lem}
use combee.Node.Invariant.{IsCoherent}
use combee.Node.Calls.{Call, get, set, expire, run}
use combee.Node.Histories.{run-IsCoherent}
use combee.Node.Answers.{kv_get_lem, kv_ttl_cached}
use combee.Catalog.{promote_replica, on_record}
use combee.Tests.Cells.{one_cell, main_cell}
use combee.Catalog.Generations.{promotion_fences}

abbrev pub five : Bytes
five = 53 ∷ []

abbrev row : Row
row = record { value = five; expires_at = none; version = 1 }

-- Every Cell starts with one row.
abbrev one_row : Table
one_row j = if str_eq "a" j then some row else none

abbrev no_limits : QuotaConfig
no_limits = record {
  max_request_body_bytes = 0;
  max_kv_key_bytes = 0;
  max_kv_value_bytes = 0;
  max_sql_rows = 0;
  max_sql_result_bytes = 0;
  max_cells_per_tenant = 0;
  max_per_tenant_concurrency = 0;
  max_per_cell_concurrency = 0;
  storage_soft_bytes = 0;
  storage_hard_bytes = 0;
  max_ttl_seconds = 0;
}

abbrev pub opening : ℕ → Opening
opening t = record { opened = ok tt; format = ok tt; started = t; finished = t }

abbrev pub start : Node Table Entries
start = record {
  manager = new 2 60 (λ db. one_row);
  cache = record { inner = []; hits = 0; misses = 0 };
  generations = λ db. none;
  quota = no_limits;
}

start-IsCoherent : IsCoherent tables assoc_moka (pos 0) start
unfolding assoc_moka find new
start-IsCoherent = record {
  right = λ db k e p. ground (arith, p);
  connections = new-IsValid 2 60 (λ db. one_row);
}

-- A Cell is read, so that it is in the cache, and then written twice.
abbrev calls : List (ℤ × Call Table)
calls =
    (pos 5, get 1 (opening 5) "a")
    ∷ (pos 6, set 1 (opening 6) "b" five (some 10) false false (pos 0) 0)
    ∷ (pos 7, expire 1 (opening 7) "a" (some 3) (pos 0))
    ∷ []

run-IsCoherent_example : IsCoherent tables assoc_moka (pos 7) (run tables assoc_moka calls start)
run-IsCoherent_example =
    run-IsCoherent tables assoc_moka (pos 0) calls start start-IsCoherent
      (omega arith, (omega arith, (omega arith, tt)))

five-IsUtf8 : is_utf8 five ≡ true
unfolding is_utf8
five-IsUtf8 = refl

-- A node whose cache holds the row.
abbrev warm : Node Table Entries
warm = record start {
  cache = record {
    inner = (cache_key 1 "a", record { value = five; expires_at = none }) ∷ [];
    hits = 0;
    misses = 1;
  };
}

warm-IsCoherent : IsCoherent tables assoc_moka (pos 6) warm
unfolding assoc_moka find new
warm-IsCoherent = record {
  right = λ db k e p. ground (arith, p, eq_iff "a" k);
  connections = new-IsValid 2 60 (λ db. one_row);
}

opens : (acquire 1 (opening 6) warm.manager).0 ≡ ok tt
unfolding acquire new is_open
opens = refl

kv_get_lem_example :
    (kv_get tables assoc_moka 1 (opening 6) "a" (pos 6) (pos 6) (pos 6) warm).0
    ≡ ok (entry (pos 6) (live (pos 6) (one_row "a")))
unfolding new
kv_get_lem_example =
    kv_get_lem tables assoc_moka (pos 6) 1 (opening 6) "a" warm tables-IsReliable warm-IsCoherent
      opens (λ r p. ground (arith, p, five-IsUtf8))

row-AllUtf8 : AllUtf8 one_row
row-AllUtf8 j r p = ground (arith, p, five-IsUtf8)

kv_mget_lem_example :
    (kv_mget tables assoc_moka 1 (opening 6) ("b" ∷ "a" ∷ []) (pos 6) (λ x. pos 6) warm).0
    ≡ ok (visible_all (pos 6) ("b" ∷ "a" ∷ []) one_row)
unfolding new
kv_mget_lem_example =
    kv_mget_lem tables assoc_moka (pos 6) 1 (opening 6) ("b" ∷ "a" ∷ []) warm tables-IsReliable
      warm-IsCoherent opens row-AllUtf8

kv_ttl_cached_example :
    ((kv_ttl tables assoc_moka 1 (opening 6) "a" (pos 6) (pos 6) warm).0 ≡ ok none)
    × ((Kv.ttl tables "a" (pos 6) (warm.manager.cells 1)).0 ≡ ok (some (negsuc 0)))
unfolding assoc_moka find new
kv_ttl_cached_example =
    kv_ttl_cached tables assoc_moka (pos 6) 1 (opening 6) "a" warm five tables-IsReliable
      warm-IsCoherent refl

abbrev frozen : Node Table Entries
frozen = record warm { manager = mark_readonly 1 warm.manager }

-- A manager with two open connections, its limit.
abbrev full : Manager Table
full = record (new 2 60 (λ db. empty_table)) {
  conns = record { id = 1; last_used = 4 } ∷ record { id = 2; last_used = 3 } ∷ [];
}

full-IsValid : IsValid full
unfolding new is_open
full-IsValid = record {
  positive = omega arith;
  bounded = omega arith;
  distinct = (refl, (refl, tt));
}

acquire_at_limit_example :
    (v : Entry) × Holds v full.conns
    × AllSince v.last_used full.conns
    × ((j : ℕ)
        → is_open j (acquire 3 (opening 9) full).1.conns
          ≡ (if 3 == j then true else if v.id == j then false else is_open j full.conns))
unfolding new is_open
acquire_at_limit_example =
    acquire_at_limit 3 (opening 9) full full-IsValid refl refl refl (omega arith)

promotion_fences_example :
    let n' = fence_cell 5 (pos 4) warm in
    (kv_set tables assoc_moka 5 (opening 6) "a" five none false false (pos 3) 0 (pos 6) (pos 6) n'
      ≡ (err forbidden, n'))
    × (kv_del tables assoc_moka 5 (opening 6) "a" (pos 3) n' ≡ (err forbidden, n'))
    × (kv_mset tables assoc_moka 5 (opening 6) [] (pos 3) (λ i. pos 6) n' ≡ (err forbidden, n'))
    × (kv_expire tables assoc_moka 5 (opening 6) "a" none (pos 3) (pos 6) (pos 6) n'
        ≡ (err forbidden, n'))
    × (kv_incr tables assoc_moka 5 (opening 6) "a" (pos 1) none (pos 3) (pos 6) n'
        ≡ (err forbidden, n'))
unfolding promote_replica on_record wrapping_add as_i64 to_word ◌+ℤ◌
promotion_fences_example =
    promotion_fences tables assoc_moka 1 5 9 one_cell main_cell
      (record main_cell { storage_node_id = some 9; replica_node_id = none; generation = pos 4 })
      refl refl (omega arith) (omega arith) refl (opening 6) "a" five none false false [] (pos 1) 0
      (pos 6) warm
