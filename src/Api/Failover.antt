-- ===== src/Api/Failover.antt =====
-- crates/api-server/src/failover.rs: the failover of a Cell to its replica, over the catalogue, the routes
-- and the nodes. Which node a client reaches is an argument (home): a client without one fails, and its call
-- does nothing at any node. What the copy of the last archive answers and makes of the replica's node is
-- an argument too.
use combee.Prelude.{String, ℕ, ◌≡◌, Bool, false, Option, none, some, ◌==◌, if◌then◌else◌, arith}
use combee.Prelude.Int.{ℤ, pos, ◌+ℤ◌, ◌≤ℤ◌, eq_ℤ, i64_max, i64_min, wrapping_add_lem}
use combee.Errors.{Result, ok, err, forbidden, internal}
use combee.Exec.{Exec}
use combee.Node.{Node, fence_cell, check_generation}
use combee.Catalog.{Catalog, DatabaseRecord, get_database, promote_replica, on_record}
use combee.Api.Routing.{
  Client, RoutingProvider, Addresses, client_for_node, on_error, invalidate_route,
}

-- What a failover works on.
pub record Cluster (Conn Store : Type 0) : Type 0 where
  pub catalog : Catalog
  pub routes : RoutingProvider
  pub nodes : ℕ → Node Conn Store

module _ {Conn Store : Type 0} (home : Client → Option ℕ) where
  abbrev pub set_node : ℕ → Node Conn Store → Cluster Conn Store → Cluster Conn Store
  set_node i n w = record w { nodes = λ j. if i == j then n else w.nodes j }

  abbrev pub set_routes : RoutingProvider → Cluster Conn Store → Cluster Conn Store
  set_routes p w = record w { routes = p }

  -- `fence_cell` of a client, whose answer is dropped by both calls.
  unfoldable pub fence_at : ℕ → ℤ → Client → Cluster Conn Store → Cluster Conn Store
  unfolding on_error fence_cell
  fence_at db g c w = elim (home c) [
    | none ↦ set_routes (on_error c w.routes) w
    | some i ↦ set_node i (fence_cell db g (w.nodes i)) w
  ]

  abbrev pub fence_through : ℕ → Result Client → Cluster Conn Store → Cluster Conn Store
  fence_through db (err e) w = w
  fence_through db (ok c) w = fence_at db i64_max c w

  -- The last part: the fence of the old primary, when there is one.
  unfoldable pub fence_old : ℕ → ℕ → Addresses → Option ℕ → Cluster Conn Store → Cluster Conn Store
  unfolding client_for_node fence_at
  fence_old db replica addresses none w = w
  fence_old db replica addresses (some old) w =
      let found = client_for_node old addresses w.routes in
      if old == replica then w else fence_through db found.0 (set_routes found.1 w)

  -- What follows the promotion.
  abbrev pub settle :
      ℕ
      → ℕ
      → Addresses
      → Client
      → Option ℕ
      → Result DatabaseRecord
      → Cluster Conn Store
      → Result DatabaseRecord × Cluster Conn Store
  settle db replica addresses c old (err e) w = (err e, w)
  settle db replica addresses c old (ok r) w =
      let fenced = fence_at db r.generation c w in
      (
        ok r,
        fence_old db replica addresses old (set_routes (invalidate_route db fenced.routes) fenced),
      )

  abbrev pub promoted_by :
      ℕ
      → ℕ
      → ℕ
      → Addresses
      → Client
      → Option ℕ
      → Cluster Conn Store
      → Result DatabaseRecord × Cluster Conn Store
  promoted_by tenant db replica addresses c old w =
      let p = promote_replica tenant db w.catalog in
      settle db replica addresses c old p.0 (record w { catalog = p.1 })

  -- `replicate` of the client, then the rest.
  abbrev pub copied_by :
      ℕ
      → ℕ
      → ℕ
      → Addresses
      → Result Bool
      → (Node Conn Store → Node Conn Store)
      → Client
      → Option ℕ
      → Cluster Conn Store
      → Option ℕ
      → Result DatabaseRecord × Cluster Conn Store
  copied_by tenant db replica addresses answer copy c old w none =
      (err internal, set_routes (on_error c w.routes) w)
  copied_by tenant db replica addresses answer copy c old w (some i) =
      let w' = set_node i (copy (w.nodes i)) w in
      elim answer [
        | err e ↦ (err e, w')
        | ok fresh ↦ promoted_by tenant db replica addresses c old w'
      ]

  abbrev pub with_client :
      ℕ
      → ℕ
      → ℕ
      → Addresses
      → Result Bool
      → (Node Conn Store → Node Conn Store)
      → Option ℕ
      → Result Client
      → Cluster Conn Store
      → Result DatabaseRecord × Cluster Conn Store
  with_client tenant db replica later answer copy old (err e) w = (err e, w)
  with_client tenant db replica later answer copy old (ok c) w =
      copied_by tenant db replica later answer copy c old w (home c)

  abbrev pub from_record :
      ℕ
      → ℕ
      → Addresses
      → Addresses
      → Result Bool
      → (Node Conn Store → Node Conn Store)
      → DatabaseRecord
      → Option ℕ
      → Cluster Conn Store
      → Result DatabaseRecord × Cluster Conn Store
  from_record tenant db now later answer copy r none w = (err internal, w)
  from_record tenant db now later answer copy r (some replica) w =
      let found = client_for_node replica now w.routes in
      with_client tenant db replica later answer copy r.storage_node_id found.0
        (set_routes found.1 w)

  -- `now` and `later` are the addresses when the client of the replica and that of the old primary are
  -- looked for.
  unfoldable pub failover_cell :
      ℕ
      → ℕ
      → Addresses
      → Addresses
      → Result Bool
      → (Node Conn Store → Node Conn Store)
      → Exec (Cluster Conn Store) DatabaseRecord
  unfolding client_for_node on_error fence_at promote_replica fence_old invalidate_route
      get_database
  failover_cell tenant db now later answer copy w = elim (get_database tenant db w.catalog) [
    | err e ↦ (err e, w)
    | ok r ↦ from_record tenant db now later answer copy r r.replica_node_id w
  ]

  -- Take a Cell with a primary and a different replica, both with an address and with a client
  -- that reaches them, a generation below the largest `i64`, and a copy that succeeds, whatever it
  -- makes of the node of the replica. A failover then answers with the record promoted to the
  -- replica and stores it, leaves no route of the Cell in the cache, sets the generation of the
  -- new primary to that of the record, and the old primary refuses every generation but the
  -- largest `i64`.
  pub failover_cell_fences :
      (tenant db old place : ℕ) (now later : Addresses) (fresh : Bool)
      (copy : Node Conn Store → Node Conn Store) (w : Cluster Conn Store) (r : DatabaseRecord)
      (a b : String) (c d : Client) (stale : ℤ)
      → w.catalog.databases tenant db ≡ some r
      → r.replica_node_id ≡ some place
      → r.storage_node_id ≡ some old
      → (old == place) ≡ false
      → now place ≡ some a
      → w.routes.clients place ≡ some c
      → home c ≡ some place
      → later old ≡ some b
      → w.routes.clients old ≡ some d
      → home d ≡ some old
      → i64_min ≤ℤ r.generation +ℤ pos 1
      → r.generation +ℤ pos 1 ≤ℤ i64_max
      → eq_ℤ stale i64_max ≡ false
      → let next = record r {
        storage_node_id = some place;
        replica_node_id = none;
        generation = r.generation +ℤ pos 1;
      } in
        let after = failover_cell tenant db now later (ok fresh) copy w in
        (after.0 ≡ ok next)
        × (after.1.catalog.databases tenant db ≡ some next)
        × (after.1.routes.route_cache db ≡ none)
        × ((after.1.nodes place).generations db ≡ some next.generation)
        × (check_generation db stale (after.1.nodes old) ≡ err forbidden)
  unfolding failover_cell fence_cell check_generation client_for_node fence_at fence_old
      promote_replica invalidate_route get_database on_record
  failover_cell_fences tenant db old place now later fresh copy w r a b c d stale there replica
        primary apart up c_at c_home up' d_at d_home lo hi st =
      let g = wrapping_add_lem r.generation (pos 1) lo hi in
      ground (arith, there, replica, primary, apart, up, c_at, c_home, up', d_at, d_home, g, st)
