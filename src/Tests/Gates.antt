-- ===== src/Tests/Gates.antt =====
-- The limits, the authentication and the registry of nodes of an API server: their theorems at concrete
-- requests.
use Prim.Native.String.{String}
use combee.Prelude.{
  ℕ, ◌≡◌, ◌<◌, refl, true, false, none, some, List, [], ◌∷◌, ◌&&◌, arith, Option, map, str_eq,
}
use combee.Prelude.Int.{pos, ◌-ℤ◌}
use combee.Quota.{QuotaConfig}
use combee.Catalog.{DatabaseRecord, active}
use combee.Access.{Access, ApiKeyRecord, lookup_api_key_by_hash, find_valid}
use combee.Api.{AuthContext}
use combee.Api.Quotas.{ConcurrencyCounters, passed}
use combee.Api.Guards.{entered, dropped, IsTrue, after_all, after_all-IsTrue}
use combee.Api.Passing.{verdicts, all_requests_pass}
use combee.Api.Auth.{
  Headers, text, text_of, equals, internal_auth, rpc_auth, admin_auth, auth_middleware,
}
use combee.Api.Tenancy.{tenant_key_stays_out, IsEntitled, auth_middleware-IsEntitled}
use combee.Api.Nodes.{NodeEntry, NodeRegistry, pg_cache_ttl}
use combee.Api.Placement.{
  healthy, healthy_in, entry_healthy, pick, after_picks, every_node_has_a_turn,
}

abbrev free : ConcurrencyCounters
free = λ k. none

after_all-IsTrue_example :
    IsTrue
      (λ k. 1)
      (after_all
        (λ k. 1)
        (entered "t:1" ∷ entered "t:1" ∷ dropped "t:1" ∷ entered "t:2" ∷ [])
        (record { held = []; counters = free }))
after_all-IsTrue_example =
    after_all-IsTrue (λ k. 1) (entered "t:1" ∷ entered "t:1" ∷ dropped "t:1" ∷ entered "t:2" ∷ [])
      (record { held = []; counters = free }) (λ k. (refl, λ p. omega arith))

abbrev limits : QuotaConfig
limits = record {
  max_request_body_bytes = 0;
  max_kv_key_bytes = 0;
  max_kv_value_bytes = 0;
  max_sql_rows = 0;
  max_sql_result_bytes = 0;
  max_cells_per_tenant = 0;
  max_per_tenant_concurrency = 1;
  max_per_cell_concurrency = 1;
  storage_soft_bytes = 0;
  storage_hard_bytes = 0;
  max_ttl_seconds = 0;
}

abbrev show_id : ℕ → String
show_id n = "id"

abbrev read_id : String → Option ℕ
read_id s = some 3

abbrev requests_now : List (Option AuthContext × String)
requests_now =
    (none, "/v1/databases/3/kv") ∷ (none, "/v1/databases/3/kv") ∷ (none, "/v1/databases") ∷ []

all_requests_pass_example :
    verdicts show_id read_id limits requests_now free ≡ map (λ r. passed) requests_now
all_requests_pass_example = all_requests_pass show_id read_id limits requests_now free (λ k. refl)

abbrev with_tenant_key : Headers
with_tenant_key = record {
  x_api_key = text "cmb_tenant";
  authorization = text "Bearer secret";
  x_control_token = text "secret";
  x_admin_token = text "admin";
  x_combee_on_behalf_tenant = text "9";
}

tenant_key_stays_out_example :
    (internal_auth (some "secret") with_tenant_key ≡ false)
    × (rpc_auth (some "secret") with_tenant_key ≡ false)
    × (admin_auth (some "cmb_service") (some "admin") true "/admin/tenants" with_tenant_key ≡ (
        equals "cmb_service" (text_of with_tenant_key.x_api_key)
        && (true && str_eq "/admin/tenants" "/admin/tenants")))
tenant_key_stays_out_example =
    tenant_key_stays_out (some "secret") (some "cmb_service") (some "admin") true "/admin/tenants"
      with_tenant_key refl

abbrev known : ApiKeyRecord
known = record {
  id = 1;
  tenant_id = 4;
  name = "bootstrap";
  key_hash = "cmb_tenant";
  created_at = 0;
  revoked_at = none;
}

abbrev access : Access
access = record {
  tenants = λ t. none;
  api_keys = known ∷ [];
  data_nodes = λ n. none;
  leases = λ n. none;
}

auth_middleware-IsEntitled_example :
    IsEntitled
      (λ s. s)
      read_id
      access
      (some "cmb_service")
      with_tenant_key
      (record { tenant_id = 4; internal = false })
auth_middleware-IsEntitled_example =
    auth_middleware-IsEntitled (λ s. s) read_id access (some "cmb_service") with_tenant_key
      (record { tenant_id = 4; internal = false })
      (unfold auth_middleware lookup_api_key_by_hash find_valid in refl)

abbrev entry_at : String → NodeEntry
entry_at addr = record {
  addr = addr;
  capacity = 10;
  active_conns = 0;
  last_heartbeat = pos 1000;
  registered_at = pos 0;
}

abbrev registry : NodeRegistry
registry = record {
  inner = (1, entry_at "a") ∷ (2, entry_at "b") ∷ [];
  rr = 7;
  pg = none;
  cache_ttl = pg_cache_ttl;
  last_refresh = pos 0;
}

every_node_has_a_turn_example :
    (k : ℕ) × (k < 2) × ((pick (pos 2000) (after_picks (pos 2000) k registry)).0 ≡ some (2, "b"))
every_node_has_a_turn_example =
    every_node_has_a_turn (pos 2000) 1 (2, "b") (1, "a") ((2, "b") ∷ []) registry
      (unfold healthy healthy_in entry_healthy ◌-ℤ◌ in refl) (omega arith) refl (omega arith)

abbrev cell_on : ℕ → ℕ → DatabaseRecord
cell_on n node = record {
  id = n;
  tenant_id = 1;
  name = "main";
  state = active;
  created_at = 0;
  storage_node_id = some node;
  replica_node_id = none;
  generation = pos 3;
}
