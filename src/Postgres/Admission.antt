-- ===== src/Postgres/Admission.antt =====
-- crates/metadata/src/postgres.rs against store.rs: the tenants, API keys, data nodes and leases of the two stores.
pub mod Keys
pub mod Nodes
pub mod Agree
pub mod Bootstrap
use combee.Prelude.{
  ℕ, ◌≤◌, ◌≡◌, refl, sym, String, Bool, true, false, not, Option, none, some, List, [], ◌∷◌, ◌==◌,
  arith, str_eq, if◌then◌else◌, eq_iff, Option-cases, Bool-cases, inl, inr,
}
use combee.Prelude.Int.{ℤ, wrapping_add}
use combee.Errors.{ok, err, internal}
use combee.Access
use combee.Access.{
  Access, ApiKeyRecord, TenantRecord, DataNodeRecord, is_none, is_valid_for, find_key, find_valid,
  revoked, without_key,
}
use combee.Postgres.Rows.{
  first, update, delete, affected, affected_le, first-update, first-delete, first_met,
  affected-none, affected-some,
}
use combee.Postgres.Gates
use combee.Postgres.Gates.{
  Gates, LeaseRow, is_tenant, has_key_id, has_hash, is_data_node, is_lease, is_revocable,
  revoked_now,
}

abbrev pub lease_of : Option LeaseRow → Option (ℕ × ℤ)
lease_of none = none
lease_of (some r) = some (r.owner, r.expires_at)

-- What the store in memory holds for the tables.
unfoldable pub access_of : Gates → Access
unfolding first
access_of g = record {
  tenants = λ t. first (is_tenant t) g.tenants;
  api_keys = g.api_keys;
  data_nodes = λ n. first (is_data_node n) g.data_nodes;
  leases = λ n. lease_of (first (is_lease n) g.leader_leases);
}

pub record SameAccess (a b : Access) : Type 0 where
  pub tenants : (t : ℕ) → a.tenants t ≡ b.tenants t
  pub api_keys : a.api_keys ≡ b.api_keys
  pub data_nodes : (n : ℕ) → a.data_nodes n ≡ b.data_nodes n
  pub leases : (n : String) → a.leases n ≡ b.leases n

-- A step of the one store answers like a step of the other and leaves what stands for it.
pub record Alike {A : Type 0} (pg : A × Gates) (mem : A × Access) : Type 0 where
  pub answers : pg.0 ≡ mem.0
  pub leaves : SameAccess (access_of pg.1) mem.1

-- The primary keys of the tables, and the unique hashes.
pub record HasKeys (g : Gates) : Type 0 where
  pub key_ids : (id : ℕ) → affected (has_key_id id) g.api_keys ≤ 1
  pub hashes : (h : String) → affected (has_hash h) g.api_keys ≤ 1
  pub nodes : (id : ℕ) → affected (is_data_node id) g.data_nodes ≤ 1

abbrev pub was_revoked : Option ApiKeyRecord → Bool
was_revoked none = false
was_revoked (some k) = not (is_none k.revoked_at)

pub same_access : (a : Access) → SameAccess a a
same_access a = record {
  tenants = λ t. refl;
  api_keys = refl;
  data_nodes = λ n. refl;
  leases = λ n. refl;
}
