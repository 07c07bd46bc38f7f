-- ===== src/Api/Migration/Target.antt =====
-- crates/api-server/src/handlers/admin.rs: which node a migration asks, and where the catalogue leads after it.
use combee.Prelude.{
  ℕ, ◌≡◌, refl, ap, String, true, false, inl, inr, Option-cases, ◌∙◌, Option, none, some, List, [],
  ◌∷◌, ◌++◌, arith,
}
use combee.Prelude.Int.{ℤ, pos, ◌+ℤ◌, in_i64}
use combee.Errors.{Result, ok, err, Result-cases}
use combee.Catalog.{DatabaseRecord}
use combee.Postgres.Agree.{IsSound}
use combee.Postgres.Migrated.{migrate_database_lem}
use combee.Postgres.Cells
use combee.Postgres.Cells.{CellRow}
use combee.Api.Routing.{
  Client, RoutingProvider, Addresses, client_for, client_for_node, invalidate_route, make_client,
  on_error, remote, in_process, set_entry, cache_route,
}
use combee.Api.Migration.{
  backup, restore, Migration, asked, Reply, answered, broken, result_of, hooked, version_of,
  is_home, restored, frozen, admin_migrate_cell,
}

module _ (default_name : ℕ → String) (back_up : Client → Reply String)
    (put_back : Client → Reply (Unit {0})) where
  hooked_clients :
      {A : Type 0} (c : Client) (a : Reply A) (p : RoutingProvider)
      → (hooked c a p).clients ≡ p.clients
  unfolding on_error invalidate_route
  hooked_clients c (answered r) p = refl
  hooked_clients in_process broken p = refl
  hooked_clients (remote addr none) broken p = refl
  hooked_clients (remote addr (some db)) broken p = refl

  -- What a migration answers when the restoration ended like this.
  abbrev pub migrated : ℤ → Result (Unit {0}) → Result ℤ
  migrated generation (ok u) = ok generation
  migrated generation (err e) = err e

  first_client :
      (node : ℕ) (addr : String) (addresses : Addresses) (p : RoutingProvider)
      → addresses node ≡ some addr
      → (c : Client) × (p' : RoutingProvider) × (client_for_node node addresses p ≡ (ok c, p'))
        × (p'.route_cache ≡ p.route_cache)
  unfolding client_for_node
  first_client node addr addresses p up = elim (Option-cases (p.clients node)) [
    | inl q ↦ (
      remote addr none,
      record p { clients = set_entry p.clients node (some (remote addr none)) },
      ground (arith, up, q),
      refl,
    )
    | inr (c, q) ↦ (c, p, ground (arith, up, q), refl)
  ]

  known_client :
      (node : ℕ) (addr : String) (addresses : Addresses) (c : Client) (p : RoutingProvider)
      → addresses node ≡ some addr
      → p.clients node ≡ some c
      → client_for_node node addresses p ≡ (ok c, p)
  unfolding client_for_node
  known_client node addr addresses c p up known = ground (arith, up, known)

  -- The client of a Cell whose route is not cached, which is a new one.
  new_client :
      (id node : ℕ) (now : ℤ) (addr : String) (addresses : Addresses) (r : DatabaseRecord)
      (p : RoutingProvider)
      → p.route_cache id ≡ none
      → r.storage_node_id ≡ some node
      → addresses node ≡ some addr
      → (p' : RoutingProvider) × (client_for id now addresses addresses (ok r) (ok r) p
          ≡ (ok (remote addr (some id)), p'))
        × (p'.clients node ≡ some (remote addr (some id)))
  unfolding client_for make_client
  new_client id node now addr addresses r p no_route home up = (
    (make_client id node addr (cache_route id node now p)).1,
    ground (arith, no_route, home, up),
    ground arith,
  )

  restored_lem :
      (id : ℕ) (generation : ℤ) (version : Option String) (m : Migration) (c : Client)
      (p : RoutingProvider)
      → let done = restored default_name back_up put_back id generation version m (ok c, p) in
        (done.1.requests ≡ m.requests ++ (c, restore version) ∷ [])
        × (done.0 ≡ migrated generation (result_of (put_back c)))
        × (done.1.cells ≡ m.cells)
  restored_lem id generation version m c p = elim (Result-cases (result_of (put_back c))) [
    | inl (u, q) ↦ (ground (arith, q), ground (arith, q), ground (arith, q))
    | inr (e, q) ↦ (ground (arith, q), ground (arith, q), ground (arith, q))
  ]

  -- From the change of the row on.
  frozen_lem :
      (id node : ℕ) (now : ℤ) (addr : String) (addresses : Addresses) (m : Migration)
      (r : DatabaseRecord) (rows : List CellRow)
      → m.routes.route_cache id ≡ none
      → m.requests ≡ []
      → Cells.get_database_by_id default_name id rows ≡ ok r
      → r.storage_node_id ≡ some node
      → addresses node ≡ some addr
      → let done = frozen default_name back_up put_back id node now addresses m (ok r, rows) in
        let c = remote addr (some id) in
        (done.1.requests ≡ (c, backup) ∷ (c, restore (version_of (result_of (back_up c)))) ∷ [])
        × (done.0 ≡ migrated r.generation (result_of (put_back c)))
        × (done.1.cells ≡ rows)
  frozen_lem id node now addr addresses m r rows no_route start back home up =
      let c = remote addr (some id) in
      let (p, made, known) = new_client id node now addr addresses r m.routes no_route home up in
      let p' = hooked c (back_up c) p in
      let there : p'.clients node ≡ some c =
        ap (λ f. f node) (hooked_clients c (back_up c) p) ∙ known in
      rw (back, made, known_client node addr addresses c p' up there)
        (let m' : Migration = asked c backup (record m { cells = rows; routes = p' }) in
          let (sent, answer, left) =
            restored_lem id r.generation (version_of (result_of (back_up c))) m' c p' in
          (
            sent
                ∙ ap
                    (λ q.
                      (q ++ (c, backup) ∷ [])
                      ++ (c, restore (version_of (result_of (back_up c)))) ∷ [])
                    start,
            answer,
            left,
          ))

  asks_target :
      (id to_node : ℕ) (now : ℤ) (addresses : Addresses) (m : Migration) (r r' : DatabaseRecord)
      (rows : List CellRow) (addr : String)
      → Cells.get_database_by_id default_name id m.cells ≡ ok r
      → is_home to_node r.storage_node_id ≡ false
      → Cells.migrate_database default_name r.tenant_id id to_node m.cells ≡ (ok r', rows)
      → Cells.get_database_by_id default_name id rows ≡ ok r'
      → r'.storage_node_id ≡ some to_node
      → addresses to_node ≡ some addr
      → m.routes.route_cache id ≡ none
      → m.requests ≡ []
      → let done = admin_migrate_cell default_name back_up put_back id to_node now addresses m in
        let c = remote addr (some id) in
        (done.1.requests ≡ (c, backup) ∷ (c, restore (version_of (result_of (back_up c)))) ∷ [])
        × (done.0 ≡ migrated r'.generation (result_of (put_back c)))
        × (done.1.cells ≡ rows)
  unfolding admin_migrate_cell
  asks_target id to_node now addresses m r r' rows addr there away moved back home up no_route
        start =
      let (c, p, found, cache) = first_client to_node addr addresses m.routes up in
      let whole : admin_migrate_cell default_name back_up put_back id to_node now addresses m
          ≡ frozen default_name back_up put_back id to_node now addresses (record m { routes = p })
              (ok r', rows) =
        ground (arith, there, away, found, moved) in
      rw whole (
        frozen_lem id to_node now addr addresses (record m { routes = p }) r' rows
          (ap (λ f. f id) cache ∙ no_route) start back home up)

  -- Take a migration of a Cell of a sound table to a node other than its own, which has an
  -- address, while no route of the Cell is cached, its generation is below the largest `i64` and
  -- nothing is recorded as asked yet. However the backup and the restoration end, both are asked
  -- of the target, not of the node that had the Cell: first the backup, then the restoration of
  -- the version it answered, or of none if it failed. The migration answers the next generation if
  -- the restoration succeeds and its error if not, and in both cases the catalogue leads to the
  -- target, with that generation.
  pub admin_migrate_cell_asks_target :
      (id to_node : ℕ) (now : ℤ) (addresses : Addresses) (m : Migration) (r : DatabaseRecord)
      (addr : String)
      → IsSound default_name m.cells
      → Cells.get_database_by_id default_name id m.cells ≡ ok r
      → is_home to_node r.storage_node_id ≡ false
      → in_i64 (r.generation +ℤ pos 1) ≡ true
      → addresses to_node ≡ some addr
      → m.routes.route_cache id ≡ none
      → m.requests ≡ []
      → let done = admin_migrate_cell default_name back_up put_back id to_node now addresses m in
        let c = remote addr (some id) in
        let r' : DatabaseRecord = record r {
          generation = r.generation +ℤ pos 1;
          storage_node_id = some to_node;
        } in
        (done.1.requests ≡ (c, backup) ∷ (c, restore (version_of (result_of (back_up c)))) ∷ [])
        × (done.0 ≡ migrated (r.generation +ℤ pos 1) (result_of (put_back c)))
        × (Cells.get_database_by_id default_name id done.1.cells ≡ ok r')
  admin_migrate_cell_asks_target id to_node now addresses m r addr sound there away room up no_route
        start =
      let r' : DatabaseRecord = record r {
        generation = r.generation +ℤ pos 1;
        storage_node_id = some to_node;
      } in
      let done = Cells.migrate_database default_name r.tenant_id id to_node m.cells in
      let (moved, back) = migrate_database_lem default_name id to_node m.cells r sound there room in
      let (sent, answer, left) =
        asks_target id to_node now addresses m r r' done.1 addr there away
          (ap (λ a. (a, done.1)) moved) back refl up no_route start in
      (sent, answer, ap (Cells.get_database_by_id default_name id) left ∙ back)
