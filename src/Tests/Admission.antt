-- ===== src/Tests/Admission.antt =====
-- The tables of PostgreSQL for keys, nodes and leases: the theorems at one row each.
use combee.Prelude.{◌≡◌, refl, false, none, some, [], ◌∷◌, arith}
use combee.Prelude.Int.{pos}
use combee.Errors.{ok, err, internal}
use combee.Access
use combee.Access.{ApiKeyRecord}
use combee.Postgres.Rows.{first, affected}
use combee.Postgres.Gates
use combee.Postgres.Gates.{Gates, is_tenant, has_key_id, has_hash}
use combee.Postgres.Admission.{access_of, was_revoked, SameAccess, Alike, HasKeys}
use combee.Postgres.Admission.Agree.{gates_agree}
use combee.Postgres.Admission.Bootstrap.{revoked_key_bars_bootstrap}

abbrev first_key : ApiKeyRecord
first_key = record {
  id = 4;
  tenant_id = 1;
  name = "bootstrap";
  key_hash = "cb_live_1";
  created_at = 0;
  revoked_at = none;
}

abbrev rows : Gates
rows = record {
  tenants = record { id = 1; created_at = 0; status = "active" } ∷ [];
  api_keys = first_key ∷ [];
  data_nodes =
      record {
        id = 8;
        addr = "http://a";
        capacity = 100;
        active_conns = 0;
        last_heartbeat_at = 0;
        created_at = 0;
      }
      ∷ [];
  leader_leases = record { name = "failover"; owner = 3; expires_at = pos 30 } ∷ [];
}

rows-HasKeys : HasKeys rows
unfolding affected
rows-HasKeys = record {
  key_ids = λ id. ground arith;
  hashes = λ h. ground arith;
  nodes = λ id. ground arith;
}

gates_agree_example :
    (Gates.lookup_api_key_by_hash "cb_live_2" rows
      ≡ Access.lookup_api_key_by_hash "cb_live_2" (access_of rows))
    × (first (is_tenant 2) rows.tenants ≡ none
        → Alike
            (Gates.create_tenant 2 9 rows)
            (let r = Access.create_tenant 2 9 (access_of rows) in (ok r.0, r.1)))
    × (first (has_key_id 8) rows.api_keys ≡ none
        → first (has_hash "cb_live_2") rows.api_keys ≡ none
        → Alike (Gates.create_api_key 2 "cb_live_2" "failover" 8 9 rows) (
            let r = Access.create_api_key 2 "cb_live_2" "failover" 8 9 (access_of rows) in
            (ok r.0, r.1)))
    × (was_revoked (first (has_key_id 8) rows.api_keys) ≡ false
        → Alike (Gates.revoke_api_key 2 8 9 rows) (Access.revoke_api_key 2 8 9 (access_of rows)))
    × SameAccess
        (access_of (Gates.upsert_data_node 8 "failover" 7 9 rows))
        (Access.upsert_data_node 8 "failover" 7 9 (access_of rows))
    × Alike
        (Gates.heartbeat_data_node 8 7 9 rows)
        (Access.heartbeat_data_node 8 7 9 (access_of rows))
    × Alike (Gates.unregister_data_node 8 rows) (Access.unregister_data_node 8 (access_of rows))
    × Alike
        (Gates.try_acquire_lease "failover" 8 (pos 31) (pos 30) rows)
        (Access.try_acquire_lease "failover" 8 (pos 31) (pos 30) (access_of rows))
gates_agree_example = gates_agree 2 8 9 7 "failover" "cb_live_2" (pos 31) (pos 30) rows rows-HasKeys

first_key-found : Gates.lookup_api_key_by_hash "cb_live_1" rows ≡ some first_key
unfolding Gates.lookup_api_key_by_hash first
first_key-found = refl

revoked_key_bars_bootstrap_example :
    let r = Gates.revoke_api_key 1 4 9 rows in
    (r.0 ≡ ok tt)
    × ((Gates.bootstrap_api_keys (λ k. k) (λ i. (i, i)) 20 9 ("cb_live_1" ∷ []) r.1).0
        ≡ err internal)
revoked_key_bars_bootstrap_example =
    revoked_key_bars_bootstrap (λ k. k) (λ i. (i, i)) 20 9 "cb_live_1" [] rows first_key
      rows-HasKeys first_key-found
