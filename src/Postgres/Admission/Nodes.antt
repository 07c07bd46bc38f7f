-- ===== src/Postgres/Admission/Nodes.antt =====
-- crates/metadata/src/postgres.rs against store.rs: data nodes and leases.
use combee.Prelude.{
  ℕ, ◌≤◌, ◌≡◌, refl, String, Option, none, some, List, ◌==◌, arith, str_eq, if◌then◌else◌, eq_iff,
  Option-cases, inl, inr,
}
use combee.Prelude.Int.{ℤ, wrapping_add}
use combee.Access
use combee.Access.{
  Access, ApiKeyRecord, TenantRecord, DataNodeRecord, is_none, is_valid_for, find_key, find_valid,
  revoked, without_key,
}
use combee.Postgres.Rows.{
  first, update, delete, affected, first-update, first-delete, affected-none, affected-some,
}
use combee.Postgres.Gates
use combee.Postgres.Gates.{
  Gates, LeaseRow, is_tenant, has_key_id, has_hash, is_data_node, is_lease, is_revocable,
  revoked_now,
}
use combee.Postgres.Admission.{access_of, SameAccess, Alike, HasKeys}

abbrev changed {ℓ} : {A : Type ℓ} → (A → A) → Option A → Option A
changed f none = none
changed f (some a) = some (f a)

node_updated :
    (id n : ℕ) (f : DataNodeRecord → DataNodeRecord) (rows : List DataNodeRecord)
    → ((r : DataNodeRecord) → (f r).id ≡ r.id)
    → first (is_data_node n) (update (is_data_node id) f rows)
      ≡ (if id == n then changed f (first (is_data_node id) rows) else first (is_data_node n) rows)
node_updated id n f rows keeps =
    let up =
      first-update (is_data_node n) (is_data_node id) f rows (λ r. ground (arith, keeps r)) in
    elim (Option-cases (first (is_data_node n) rows)) [
      | inl q ↦ ground (arith, up, q)
      | inr (r, q) ↦ ground (arith, up, q, affected-some (is_data_node n) rows r q)
    ]

node_deleted :
    (id n : ℕ) (rows : List DataNodeRecord)
    → affected (is_data_node n) rows ≤ 1
    → first (is_data_node n) (delete (is_data_node id) rows)
      ≡ (if id == n then none else first (is_data_node n) rows)
node_deleted id n rows once =
    let down = first-delete (is_data_node n) (is_data_node id) rows once in
    elim (Option-cases (first (is_data_node n) rows)) [
      | inl q ↦ ground (arith, down, q)
      | inr (r, q) ↦ ground (arith, down, q, affected-some (is_data_node n) rows r q)
    ]

lease_updated :
    (name n : String) (f : LeaseRow → LeaseRow) (rows : List LeaseRow)
    → ((r : LeaseRow) → (f r).name ≡ r.name)
    → first (is_lease n) (update (is_lease name) f rows)
      ≡ (if str_eq name n then changed f (first (is_lease name) rows) else first (is_lease n) rows)
lease_updated name n f rows keeps =
    let up = first-update (is_lease n) (is_lease name) f rows (λ r. ground (arith, keeps r)) in
    elim (Option-cases (first (is_lease n) rows)) [
      | inl q ↦ ground (arith, up, q, eq_iff name n)
      | inr (r, q) ↦ ground (
        arith,
        up,
        q,
        affected-some (is_lease n) rows r q,
        eq_iff name n,
        eq_iff r.name n,
        eq_iff r.name name,
      )
    ]

pub upsert_data_node-Alike :
    (id capacity now : ℕ) (addr : String) (g : Gates)
    → SameAccess
        (access_of (Gates.upsert_data_node id addr capacity now g))
        (Access.upsert_data_node id addr capacity now (access_of g))
unfolding Gates.upsert_data_node Access.upsert_data_node access_of first
upsert_data_node-Alike id capacity now addr g =
    let f : DataNodeRecord → DataNodeRecord =
      λ r. record r { addr = addr; capacity = capacity; last_heartbeat_at = now } in
    record {
      tenants = λ t. refl;
      api_keys = refl;
      data_nodes = λ n. elim (Option-cases (first (is_data_node id) g.data_nodes)) [
        | inl q ↦ ground (arith, q)
        | inr (r, q) ↦ ground (arith, q, node_updated id n f g.data_nodes (λ r. refl))
      ];
      leases = λ n. refl;
    }

pub heartbeat_data_node-Alike :
    (id active_conns now : ℕ) (g : Gates)
    → Alike
        (Gates.heartbeat_data_node id active_conns now g)
        (Access.heartbeat_data_node id active_conns now (access_of g))
unfolding Gates.heartbeat_data_node Access.heartbeat_data_node access_of
heartbeat_data_node-Alike id active_conns now g =
    let f : DataNodeRecord → DataNodeRecord =
      λ r. record r { active_conns = active_conns; last_heartbeat_at = now } in
    elim (Option-cases (first (is_data_node id) g.data_nodes)) [
      | inl q ↦ record {
        answers = ground (arith, q, affected-none (is_data_node id) g.data_nodes q);
        leaves = record {
          tenants = λ t. ground (arith, q);
          api_keys = ground (arith, q);
          data_nodes = λ n. ground (arith, q, node_updated id n f g.data_nodes (λ r. refl));
          leases = λ n. ground (arith, q);
        };
      }
      | inr (r, q) ↦ record {
        answers = ground (arith, q, affected-some (is_data_node id) g.data_nodes r q);
        leaves = record {
          tenants = λ t. ground (arith, q);
          api_keys = ground (arith, q);
          data_nodes = λ n. ground (arith, q, node_updated id n f g.data_nodes (λ r. refl));
          leases = λ n. ground (arith, q);
        };
      }
    ]

pub unregister_data_node-Alike :
    (id : ℕ) (g : Gates)
    → HasKeys g
    → Alike (Gates.unregister_data_node id g) (Access.unregister_data_node id (access_of g))
unfolding Gates.unregister_data_node Access.unregister_data_node access_of
unregister_data_node-Alike id g keys = record {
  answers = elim (Option-cases (first (is_data_node id) g.data_nodes)) [
    | inl q ↦ ground (arith, q, affected-none (is_data_node id) g.data_nodes q)
    | inr (r, q) ↦ ground (arith, q, affected-some (is_data_node id) g.data_nodes r q)
  ];
  leaves = record {
    tenants = λ t. refl;
    api_keys = refl;
    data_nodes = λ n. node_deleted id n g.data_nodes (keys.nodes n);
    leases = λ n. refl;
  };
}

pub try_acquire_lease-Alike :
    (name : String) (owner : ℕ) (now ttl : ℤ) (g : Gates)
    → Alike
        (Gates.try_acquire_lease name owner now ttl g)
        (Access.try_acquire_lease name owner now ttl (access_of g))
unfolding Gates.try_acquire_lease Access.try_acquire_lease access_of first
try_acquire_lease-Alike name owner now ttl g =
    let f : LeaseRow → LeaseRow =
      λ l. record l { owner = owner; expires_at = wrapping_add now ttl } in
    elim (Option-cases (first (is_lease name) g.leader_leases)) [
      | inl q ↦ record {
        answers = ground (arith, q);
        leaves = record {
          tenants = λ t. ground (arith, q);
          api_keys = ground (arith, q);
          data_nodes = λ n. ground (arith, q);
          leases = λ n. ground (arith, q);
        };
      }
      | inr (r, q) ↦ record {
        answers = ground (arith, q);
        leaves = record {
          tenants = λ t. ground (arith, q);
          api_keys = ground (arith, q);
          data_nodes = λ n. ground (arith, q);
          leases = λ n. ground (arith, q, lease_updated name n f g.leader_leases (λ r. refl));
        };
      }
    ]
