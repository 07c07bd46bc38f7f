-- ===== src/Api/Migration.antt =====
-- crates/api-server/src/handlers/admin.rs: the migration of a Cell to another node, over PostgreSQL and the routes.
-- Which requests it sends to which clients is recorded; what they answer are arguments.
pub mod Target
use combee.Prelude.{
  ℕ, ◌≡◌, refl, ap, String, Bool, true, false, inl, inr, Option-cases, ◌∙◌, Option, none, some,
  List, [], ◌∷◌, ◌++◌, ◌==◌, arith, if◌then◌else◌,
}
use combee.Prelude.Int.{ℤ, pos, ◌+ℤ◌, in_i64}
use combee.Errors.{Result, ok, err, invalid_request, internal, Result-cases}
use combee.Catalog.{DatabaseRecord}
use combee.Postgres.Agree.{IsSound}
use combee.Postgres.Migrated.{migrate_database_lem}
use combee.Postgres.Cells
use combee.Postgres.Cells.{CellRow}
use combee.Api.Routing.{
  Client, RoutingProvider, Addresses, client_for, client_for_node, invalidate_route, make_client,
  on_error, remote, in_process, set_entry, cache_route,
}

-- What is asked of a client.
pub data Request : Type 0 where
  backup : Request
  restore : Option String → Request

pub record Migration : Type 0 where
  pub cells : List CellRow
  pub routes : RoutingProvider
  pub requests : List (Client × Request)

abbrev pub asked : Client → Request → Migration → Migration
asked c r m = record m { requests = m.requests ++ (c, r) ∷ [] }

-- How a call of a client ends: the node answers, or the call breaks off and the hook of the client runs.
pub data Reply (A : Type 0) : Type 0 where
  answered : Result A → Reply A
  broken : Reply A

abbrev pub result_of : {A : Type 0} → Reply A → Result A
result_of (answered r) = r
result_of broken = err internal

abbrev pub hooked : {A : Type 0} → Client → Reply A → RoutingProvider → RoutingProvider
hooked c (answered r) p = p
hooked c broken p = on_error c p

abbrev pub version_of : Result String → Option String
version_of (ok v) = some v
version_of (err e) = none

abbrev pub is_home : ℕ → Option ℕ → Bool
is_home node none = false
is_home node (some n) = n == node

module _ (default_name : ℕ → String) (back_up : Client → Reply String)
    (put_back : Client → Reply (Unit {0})) where
  -- 3 and 4: the restoration at the target and the route.
  abbrev pub restored :
      ℕ → ℤ → Option String → Migration → Result Client × RoutingProvider → Result ℤ × Migration
  restored id generation version m (err e, p) = (err e, record m { routes = p })
  restored id generation version m (ok c, p) =
      let m' = asked c (restore version) (record m { routes = hooked c (put_back c) p }) in
      elim (result_of (put_back c)) [
        | err e ↦ (err e, m')
        | ok u ↦ (ok generation, record m' { routes = invalidate_route id m'.routes })
      ]

  -- 2: the backup, whose failure is let pass.
  abbrev pub backed_up : Migration → Result Client × RoutingProvider → Option String × Migration
  backed_up m (err e, p) = (none, record m { routes = p })
  backed_up m (ok c, p) = (
    version_of (result_of (back_up c)),
    asked c backup (record m { routes = hooked c (back_up c) p }),
  )

  abbrev pub frozen :
      ℕ
      → ℕ
      → ℤ
      → Addresses
      → Migration
      → Result DatabaseRecord × List CellRow
      → Result ℤ × Migration
  frozen id to_node now addresses m (err e, rows) = (err e, record m { cells = rows })
  frozen id to_node now addresses m (ok r, rows) =
      let found = Cells.get_database_by_id default_name id rows in
      let b =
        backed_up (record m { cells = rows })
          (client_for id now addresses addresses found found m.routes) in
      restored id r.generation b.0 b.1 (client_for_node to_node addresses b.1.routes)

  abbrev pub to_target :
      ℕ
      → ℕ
      → ℤ
      → Addresses
      → DatabaseRecord
      → Migration
      → Result Client × RoutingProvider
      → Result ℤ × Migration
  to_target id to_node now addresses r m (err e, p) = (err e, record m { routes = p })
  to_target id to_node now addresses r m (ok c, p) =
      frozen id to_node now addresses (record m { routes = p })
        (Cells.migrate_database default_name r.tenant_id id to_node m.cells)

  -- `admin_migrate_cell`, at one moment and while the registry does not change.
  unfoldable pub admin_migrate_cell : ℕ → ℕ → ℤ → Addresses → Migration → Result ℤ × Migration
  unfolding Cells.get_database_by_id Cells.migrate_database client_for client_for_node
      invalidate_route on_error
  admin_migrate_cell id to_node now addresses m =
      elim (Cells.get_database_by_id default_name id m.cells) [
        | err e ↦ (err e, m)
        | ok r ↦
            if is_home to_node r.storage_node_id
            then (err invalid_request, m)
            else to_target id to_node now addresses r m (client_for_node to_node addresses m.routes)
      ]
