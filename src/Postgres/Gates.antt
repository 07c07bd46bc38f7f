-- ===== src/Postgres/Gates.antt =====
-- crates/metadata/src/postgres.rs: the tenants, API keys, data nodes and leases of PostgresStore. A row of the
-- tenants, keys or nodes is the record that is read from it; a bigint holds the 64 bits of a number.
use combee.Prelude.{
  ℕ, ◌+◌, String, Bool, true, false, ◌&&◌, ◌||◌, Option, none, some, List, [], ◌∷◌, ◌==◌, str_eq,
  if◌then◌else◌, ltb,
}
use combee.Prelude.Int.{ℤ, ltb_ℤ, wrapping_add}
use combee.Errors.{Result, ok, err, internal, api_key_not_found}
use combee.Exec.{Exec}
use combee.Access.{ApiKeyRecord, TenantRecord, DataNodeRecord, is_none, is_valid_for}
use combee.Catalog.{is_set}
use combee.Postgres.Rows.{first, update, delete, affected}

-- A row of `leader_leases`.
pub record LeaseRow : Type 0 where
  pub name : String
  pub owner : ℕ
  pub expires_at : ℤ

-- The tables `tenants`, `api_keys`, `data_nodes` and `leader_leases`.
pub record Gates : Type 0 where
  pub tenants : List TenantRecord
  pub api_keys : List ApiKeyRecord
  pub data_nodes : List DataNodeRecord
  pub leader_leases : List LeaseRow

abbrev pub is_tenant : ℕ → TenantRecord → Bool
is_tenant id r = r.id == id

abbrev pub has_key_id : ℕ → ApiKeyRecord → Bool
has_key_id id k = k.id == id

abbrev pub has_hash : String → ApiKeyRecord → Bool
has_hash h k = str_eq k.key_hash h

abbrev pub is_data_node : ℕ → DataNodeRecord → Bool
is_data_node id r = r.id == id

abbrev pub is_lease : String → LeaseRow → Bool
is_lease n r = str_eq r.name n

-- The INSERT of `create_tenant`: the identifier is the primary key.
unfoldable pub create_tenant : ℕ → ℕ → Exec Gates TenantRecord
unfolding first
create_tenant tenant now g =
    let r : TenantRecord = record { id = tenant; created_at = now; status = "active" } in
    if is_set (first (is_tenant tenant) g.tenants)
    then (err internal, g)
    else (ok r, record g { tenants = r ∷ g.tenants })

-- `create_api_key`: no two rows have one identifier or one hash, revoked or not.
unfoldable pub create_api_key : ℕ → String → String → ℕ → ℕ → Exec Gates ApiKeyRecord
unfolding first
create_api_key tenant key_hash name id now g =
    let r : ApiKeyRecord = record {
      id = id;
      tenant_id = tenant;
      name = name;
      key_hash = key_hash;
      created_at = now;
      revoked_at = none;
    } in
    if is_set (first (has_key_id id) g.api_keys)
    then (err internal, g)
    else if is_set (first (has_hash key_hash) g.api_keys)
    then (err internal, g)
    else (ok r, record g { api_keys = r ∷ g.api_keys })

unfoldable pub lookup_api_key_by_hash : String → Gates → Option ApiKeyRecord
unfolding first
lookup_api_key_by_hash key_hash g = first (is_valid_for key_hash) g.api_keys

-- The condition of the UPDATE of `revoke_api_key`.
abbrev pub is_revocable : ℕ → ℕ → ApiKeyRecord → Bool
is_revocable tenant key_id k = k.id == key_id && (k.tenant_id == tenant && is_none k.revoked_at)

abbrev pub revoked_now : ℕ → ApiKeyRecord → ApiKeyRecord
revoked_now now k = record k { revoked_at = some now }

unfoldable pub revoke_api_key : ℕ → ℕ → ℕ → Exec Gates (Unit {0})
unfolding affected update
revoke_api_key tenant key_id now g =
    if affected (is_revocable tenant key_id) g.api_keys == 0 then (err api_key_not_found, g) else (
      ok tt,
      record g { api_keys = update (is_revocable tenant key_id) (revoked_now now) g.api_keys },
    )

abbrev pub keyed : String → ℕ → ℕ → ℕ → Result TenantRecord × Gates → Result (Unit {0}) × Gates
keyed key_hash tenant id now (err e, g) = (err e, g)
keyed key_hash tenant id now (ok t, g) =
    let r = create_api_key tenant key_hash "bootstrap" id now g in
    (elim r.0 [ err e ↦ err e | ok k ↦ ok tt ], r.1)

-- One key of `bootstrap_api_keys`: `tenant` and `id` are the new identifiers.
unfoldable pub bootstrap_key : String → ℕ → ℕ → ℕ → Exec Gates (Unit {0})
unfolding lookup_api_key_by_hash create_tenant create_api_key
bootstrap_key key_hash tenant id now g = elim (lookup_api_key_by_hash key_hash g) [
  | some k ↦ (ok tt, g)
  | none ↦ keyed key_hash tenant id now (create_tenant tenant now g)
]

abbrev pub unless_failed : Result (Unit {0}) → Exec Gates (Unit {0}) → Exec Gates (Unit {0})
unless_failed (err e) next g = (err e, g)
unless_failed (ok u) next g = next g

-- The i-th key that the loop looks at draws the identifiers `fresh i`; the first error ends it. `hash` is
-- the library's.
unfoldable pub bootstrap_api_keys :
    (String → String) → (ℕ → ℕ × ℕ) → ℕ → ℕ → List String → Exec Gates (Unit {0})
unfolding bootstrap_key
bootstrap_api_keys hash fresh i now [] g = (ok tt, g)
bootstrap_api_keys hash fresh i now (k ∷ ks) g =
    let rest = bootstrap_api_keys hash fresh (i + 1) now ks in
    let r = bootstrap_key (hash k) (fresh i).0 (fresh i).1 now g in unless_failed r.0 rest r.1

-- `INSERT … ON CONFLICT (id) DO UPDATE …`
unfoldable pub upsert_data_node : ℕ → String → ℕ → ℕ → Gates → Gates
unfolding first update
upsert_data_node id addr capacity now g = record g {
  data_nodes =
      if is_set (first (is_data_node id) g.data_nodes)
      then update (is_data_node id)
          (λ r. record r { addr = addr; capacity = capacity; last_heartbeat_at = now }) g.data_nodes
      else record {
        id = id;
        addr = addr;
        capacity = capacity;
        active_conns = 0;
        last_heartbeat_at = now;
        created_at = now;
      }
        ∷ g.data_nodes;
}

unfoldable pub heartbeat_data_node : ℕ → ℕ → ℕ → Gates → Bool × Gates
unfolding affected update
heartbeat_data_node id active_conns now g = (
  ltb 0 (affected (is_data_node id) g.data_nodes),
  record g {
    data_nodes =
        update (is_data_node id)
          (λ r. record r { active_conns = active_conns; last_heartbeat_at = now }) g.data_nodes;
  },
)

unfoldable pub unregister_data_node : ℕ → Gates → Bool × Gates
unfolding affected delete
unregister_data_node id g = (
  ltb 0 (affected (is_data_node id) g.data_nodes),
  record g { data_nodes = delete (is_data_node id) g.data_nodes },
)

-- The condition under which the lease of a row is taken.
abbrev pub is_taken_by : ℕ → ℤ → LeaseRow → Bool
is_taken_by owner now r = ltb_ℤ r.expires_at now || r.owner == owner

abbrev pub leased : String → ℕ → ℤ → ℤ → Option LeaseRow → List LeaseRow → Bool × List LeaseRow
leased name owner now until none rows =
    (true, record { name = name; owner = owner; expires_at = until } ∷ rows)
leased name owner now until (some r) rows =
    if is_taken_by owner now r
    then (true, update (is_lease name) (λ l. record l { owner = owner; expires_at = until }) rows)
    else (false, rows)

unfoldable pub try_acquire_lease : String → ℕ → ℤ → ℤ → Gates → Bool × Gates
unfolding first update
try_acquire_lease name owner now ttl_secs g =
    let r =
      leased name owner now (wrapping_add now ttl_secs) (first (is_lease name) g.leader_leases)
        g.leader_leases in
    (r.0, record g { leader_leases = r.1 })
