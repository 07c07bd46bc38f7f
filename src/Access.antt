-- ===== src/Access.antt =====
-- crates/metadata/src/store.rs: who may use the program and what runs it, in the form of
-- `InMemoryStore`: API keys and tenants, data nodes, and leases for the leader of a background job. Its
-- mutex makes each operation one step. Listings are not modelled.
pub mod Keys
pub mod Leases
use combee.Prelude.{
  ℕ, ◌+◌, String, Bool, true, false, not, ◌&&◌, ◌||◌, Option, none, some, List, [], ◌∷◌, ◌==◌,
  str_eq, if◌then◌else◌,
}
use combee.Prelude.Int.{ℤ, ltb_ℤ, wrapping_add}
use combee.Errors.{Result, ok, err, api_key_not_found}
use combee.Exec.{Exec}

pub record ApiKeyRecord : Type 0 where
  pub id : ℕ
  pub tenant_id : ℕ
  pub name : String
  pub key_hash : String
  pub created_at : ℕ
  pub revoked_at : Option ℕ

pub record TenantRecord : Type 0 where
  pub id : ℕ
  pub created_at : ℕ
  pub status : String

pub record DataNodeRecord : Type 0 where
  pub id : ℕ
  pub addr : String
  pub capacity : ℕ
  pub active_conns : ℕ
  pub last_heartbeat_at : ℕ
  pub created_at : ℕ

-- The fields of `InMemoryInner` for access. The API keys are the values of their map, which are
-- searched; the other maps are functions.
pub record Access : Type 0 where
  pub tenants : ℕ → Option TenantRecord
  pub api_keys : List ApiKeyRecord
  pub data_nodes : ℕ → Option DataNodeRecord
  pub leases : String → Option (ℕ × ℤ)

abbrev pub set_at {ℓ} : {A : Type ℓ} → (ℕ → Option A) → ℕ → Option A → ℕ → Option A
set_at m k v j = if k == j then v else m j

unfoldable pub without_key : ℕ → List ApiKeyRecord → List ApiKeyRecord
without_key id [] = []
without_key id (k ∷ ks) = let rest = without_key id ks in if k.id == id then rest else k ∷ rest

unfoldable pub find_key : ℕ → List ApiKeyRecord → Option ApiKeyRecord
find_key id [] = none
find_key id (k ∷ ks) = let rest = find_key id ks in if k.id == id then some k else rest

-- `revoked_at = Some(now)` at the key with the identifier.
unfoldable pub revoked : ℕ → ℕ → List ApiKeyRecord → List ApiKeyRecord
revoked id now [] = []
revoked id now (k ∷ ks) =
    (if k.id == id then record k { revoked_at = some now } else k) ∷ revoked id now ks

abbrev pub is_none {ℓ} : {A : Type ℓ} → Option A → Bool
is_none none = true
is_none (some a) = false

abbrev pub is_valid_for : String → ApiKeyRecord → Bool
is_valid_for key_hash k = str_eq k.key_hash key_hash && is_none k.revoked_at

unfoldable pub find_valid : String → List ApiKeyRecord → Option ApiKeyRecord
find_valid key_hash [] = none
find_valid key_hash (k ∷ ks) =
    let rest = find_valid key_hash ks in if is_valid_for key_hash k then some k else rest

unfoldable pub lookup_api_key_by_hash : String → Access → Option ApiKeyRecord
unfolding find_valid
lookup_api_key_by_hash key_hash a = find_valid key_hash a.api_keys

unfoldable pub create_tenant : ℕ → ℕ → Access → TenantRecord × Access
create_tenant tenant now a =
    let r : TenantRecord = record { id = tenant; created_at = now; status = "active" } in
    (r, record a { tenants = set_at a.tenants tenant (some r) })

-- `id` is the new identifier.
unfoldable pub create_api_key : ℕ → String → String → ℕ → ℕ → Access → ApiKeyRecord × Access
unfolding without_key
create_api_key tenant key_hash name id now a =
    let r : ApiKeyRecord = record {
      id = id;
      tenant_id = tenant;
      name = name;
      key_hash = key_hash;
      created_at = now;
      revoked_at = none;
    } in
    (r, record a { api_keys = r ∷ without_key id a.api_keys })

abbrev pub revoke_found : ℕ → ℕ → ℕ → Option ApiKeyRecord → Exec Access (Unit {0})
revoke_found tenant key_id now none a = (err api_key_not_found, a)
revoke_found tenant key_id now (some k) a =
    if not (k.tenant_id == tenant)
    then (err api_key_not_found, a)
    else (ok tt, record a { api_keys = revoked key_id now a.api_keys })

unfoldable pub revoke_api_key : ℕ → ℕ → ℕ → Exec Access (Unit {0})
unfolding find_key
revoke_api_key tenant key_id now a = revoke_found tenant key_id now (find_key key_id a.api_keys) a

-- One key of `bootstrap_api_keys`: `tenant` and `id` are the new identifiers.
unfoldable pub bootstrap_key : String → ℕ → ℕ → ℕ → Access → Access
unfolding lookup_api_key_by_hash create_tenant create_api_key
bootstrap_key key_hash tenant id now a = elim (lookup_api_key_by_hash key_hash a) [
  | some k ↦ a
  | none ↦ (create_api_key tenant key_hash "bootstrap" id now (create_tenant tenant now a).1).1
]

-- The i-th key that the loop looks at draws the identifiers `fresh i`. `hash` is the library's.
unfoldable pub bootstrap_api_keys :
    (String → String) → (ℕ → ℕ × ℕ) → ℕ → ℕ → List String → Access → Access
unfolding bootstrap_key
bootstrap_api_keys hash fresh i now [] a = a
bootstrap_api_keys hash fresh i now (k ∷ ks) a =
    bootstrap_api_keys hash fresh (i + 1) now ks
      (bootstrap_key (hash k) (fresh i).0 (fresh i).1 now a)

abbrev upserted : ℕ → String → ℕ → ℕ → Option DataNodeRecord → DataNodeRecord
upserted id addr capacity now none = record {
  id = id;
  addr = addr;
  capacity = capacity;
  active_conns = 0;
  last_heartbeat_at = now;
  created_at = now;
}
upserted id addr capacity now (some r) = record r {
  addr = addr;
  capacity = capacity;
  last_heartbeat_at = now;
}

unfoldable pub upsert_data_node : ℕ → String → ℕ → ℕ → Access → Access
upsert_data_node id addr capacity now a = record a {
  data_nodes = set_at a.data_nodes id (some (upserted id addr capacity now (a.data_nodes id)));
}

unfoldable pub heartbeat_data_node : ℕ → ℕ → ℕ → Access → Bool × Access
heartbeat_data_node id active_conns now a = elim (a.data_nodes id) [
  | none ↦ (false, a)
  | some r ↦ (
    true,
    record a {
      data_nodes =
          set_at a.data_nodes id
            (some (record r { active_conns = active_conns; last_heartbeat_at = now }));
    },
  )
]

unfoldable pub unregister_data_node : ℕ → Access → Bool × Access
unregister_data_node id a =
    (not (is_none (a.data_nodes id)), record a { data_nodes = set_at a.data_nodes id none })

-- Whether a lease is free for `owner`.
abbrev pub is_free : ℕ → ℤ → Option (ℕ × ℤ) → Bool
is_free owner now none = true
is_free owner now (some (cur, until)) = cur == owner || ltb_ℤ until now

unfoldable pub try_acquire_lease : String → ℕ → ℤ → ℤ → Access → Bool × Access
try_acquire_lease name owner now ttl_secs a =
    if is_free owner now (a.leases name)
    then (
      true,
      record a {
        leases = λ n. if str_eq name n then some (owner, wrapping_add now ttl_secs) else a.leases n;
      },
    )
    else (false, a)
