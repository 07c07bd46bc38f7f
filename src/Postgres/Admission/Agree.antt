-- ===== src/Postgres/Admission/Agree.antt =====
-- crates/metadata/src/postgres.rs against store.rs: all operations on tenants, API keys, nodes and leases.
use combee.Prelude.{ℕ, ◌≡◌, sym, String, false, none}
use combee.Prelude.Int.{ℤ}
use combee.Errors.{ok}
use combee.Access
use combee.Access.{
  Access, ApiKeyRecord, TenantRecord, DataNodeRecord, is_none, is_valid_for, find_key, find_valid,
  revoked, without_key,
}
use combee.Postgres.Rows.{first}
use combee.Postgres.Gates
use combee.Postgres.Gates.{
  Gates, LeaseRow, is_tenant, has_key_id, has_hash, is_data_node, is_lease, is_revocable,
  revoked_now,
}
use combee.Postgres.Admission.{access_of, SameAccess, Alike, HasKeys, was_revoked}
use combee.Postgres.Admission.Keys.{
  find_valid_lem, create_tenant-Alike, create_api_key-Alike, revoke_api_key-Alike,
}
use combee.Postgres.Admission.Nodes.{
  upsert_data_node-Alike, heartbeat_data_node-Alike, unregister_data_node-Alike,
  try_acquire_lease-Alike,
}

-- On tables that keep their keys, PostgreSQL answers as the in-memory store does on what the
-- tables hold, and leaves tables that hold what that store leaves: in looking a key up,
-- registering, beating and unregistering a node, and acquiring a lease; in a creation of a tenant
-- whose identifier is new, and of a key whose identifier and hash are new; and in a revocation of
-- a key that is not revoked already.
pub gates_agree :
    (tenant id now more : ℕ) (name h : String) (at_time ttl : ℤ) (g : Gates)
    → HasKeys g
    → (Gates.lookup_api_key_by_hash h g ≡ Access.lookup_api_key_by_hash h (access_of g))
      × (first (is_tenant tenant) g.tenants ≡ none
          → Alike
              (Gates.create_tenant tenant now g)
              (let r = Access.create_tenant tenant now (access_of g) in (ok r.0, r.1)))
      × (first (has_key_id id) g.api_keys ≡ none
          → first (has_hash h) g.api_keys ≡ none
          → Alike
              (Gates.create_api_key tenant h name id now g)
              (let r = Access.create_api_key tenant h name id now (access_of g) in (ok r.0, r.1)))
      × (was_revoked (first (has_key_id id) g.api_keys) ≡ false
          → Alike
              (Gates.revoke_api_key tenant id now g)
              (Access.revoke_api_key tenant id now (access_of g)))
      × SameAccess
          (access_of (Gates.upsert_data_node id name more now g))
          (Access.upsert_data_node id name more now (access_of g))
      × Alike
          (Gates.heartbeat_data_node id more now g)
          (Access.heartbeat_data_node id more now (access_of g))
      × Alike (Gates.unregister_data_node id g) (Access.unregister_data_node id (access_of g))
      × Alike
          (Gates.try_acquire_lease name id at_time ttl g)
          (Access.try_acquire_lease name id at_time ttl (access_of g))
unfolding Gates.lookup_api_key_by_hash Access.lookup_api_key_by_hash access_of
gates_agree tenant id now more name h at_time ttl g keys = (
  sym (find_valid_lem h g.api_keys),
  create_tenant-Alike tenant now g,
  create_api_key-Alike tenant id now h name g,
  revoke_api_key-Alike tenant id now g keys,
  upsert_data_node-Alike id more now name g,
  heartbeat_data_node-Alike id more now g,
  unregister_data_node-Alike id g keys,
  try_acquire_lease-Alike name id at_time ttl g,
)
