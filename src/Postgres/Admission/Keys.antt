-- ===== src/Postgres/Admission/Keys.antt =====
-- crates/metadata/src/postgres.rs against store.rs: tenants and API keys.
use combee.Prelude.{
  ℕ, ◌≤◌, ◌≡◌, refl, String, true, false, none, some, List, [], ◌∷◌, ◌==◌, arith, Option-cases,
  Bool-cases, inl, inr,
}
use combee.Errors.{ok}
use combee.Access
use combee.Access.{
  Access, ApiKeyRecord, TenantRecord, DataNodeRecord, is_none, is_valid_for, find_key, find_valid,
  revoked, without_key,
}
use combee.Postgres.Rows.{
  first, update, affected, affected_le, first_met, affected-none, affected-some,
}
use combee.Postgres.Gates
use combee.Postgres.Gates.{
  Gates, LeaseRow, is_tenant, has_key_id, has_hash, is_data_node, is_lease, is_revocable,
  revoked_now,
}
use combee.Postgres.Admission.{access_of, Alike, HasKeys, was_revoked, same_access}

pub find_valid_lem :
    (h : String) (ks : List ApiKeyRecord) → find_valid h ks ≡ first (is_valid_for h) ks
unfolding find_valid first
find_valid_lem h [] = refl
find_valid_lem h (k ∷ ks) = ground (arith, find_valid_lem h ks)

find_key_lem : (id : ℕ) (ks : List ApiKeyRecord) → find_key id ks ≡ first (has_key_id id) ks
unfolding find_key first
find_key_lem id [] = refl
find_key_lem id (k ∷ ks) = ground (arith, find_key_lem id ks)

without_key_lem :
    (id : ℕ) (ks : List ApiKeyRecord) → first (has_key_id id) ks ≡ none → without_key id ks ≡ ks
unfolding without_key first
without_key_lem id [] h = refl
without_key_lem id (k ∷ ks) h = ground (arith, h, without_key_lem id ks)

-- A key that is not there is not changed.
update-absent :
    (tenant id now : ℕ) (ks : List ApiKeyRecord)
    → affected (has_key_id id) ks ≡ 0
    → update (is_revocable tenant id) (revoked_now now) ks ≡ revoked id now ks
unfolding update revoked affected
update-absent tenant id now [] h = refl
update-absent tenant id now (k ∷ ks) h = ground (arith, h, update-absent tenant id now ks)

update-revoked :
    (tenant id now : ℕ) (ks : List ApiKeyRecord) (k : ApiKeyRecord)
    → affected (has_key_id id) ks ≤ 1
    → first (has_key_id id) ks ≡ some k
    → is_revocable tenant id k ≡ true
    → update (is_revocable tenant id) (revoked_now now) ks ≡ revoked id now ks
unfolding update revoked affected first
update-revoked tenant id now [] k once found free = ground (arith, found)
update-revoked tenant id now (j ∷ ks) k once found free = elim (Bool-cases (has_key_id id j)) [
  | inl y ↦ ground (arith, once, found, free, y, update-absent tenant id now ks)
  | inr n ↦ ground (arith, once, found, n, update-revoked tenant id now ks k)
]

-- How many keys an UPDATE that revokes meets: none, if the key there is not one to revoke.
affected-revocable :
    (tenant id : ℕ) (ks : List ApiKeyRecord)
    → affected (has_key_id id) ks ≤ 1
    → (k : ApiKeyRecord) → first (has_key_id id) ks ≡ some k
    → is_revocable tenant id k ≡ false
    → affected (is_revocable tenant id) ks ≡ 0
unfolding affected first
affected-revocable tenant id [] once k found other = refl
affected-revocable tenant id (j ∷ ks) once k found other =
    let less = affected_le (is_revocable tenant id) (has_key_id id) ks (λ r h. ground (arith, h)) in
    elim (Bool-cases (has_key_id id j)) [
      | inl y ↦ ground (arith, once, found, other, y, less)
      | inr n ↦
          ground
            (arith, once, found, n, affected-revocable tenant id ks (ground (arith, once, n)) k)
    ]

pub create_tenant-Alike :
    (tenant now : ℕ) (g : Gates)
    → first (is_tenant tenant) g.tenants ≡ none
    → Alike
        (Gates.create_tenant tenant now g)
        (let r = Access.create_tenant tenant now (access_of g) in (ok r.0, r.1))
unfolding Gates.create_tenant Access.create_tenant access_of first
create_tenant-Alike tenant now g new = record {
  answers = ground (arith, new);
  leaves = record {
    tenants = λ t. ground (arith, new);
    api_keys = ground (arith, new);
    data_nodes = λ n. ground (arith, new);
    leases = λ n. ground (arith, new);
  };
}

pub create_api_key-Alike :
    (tenant id now : ℕ) (key_hash name : String) (g : Gates)
    → first (has_key_id id) g.api_keys ≡ none
    → first (has_hash key_hash) g.api_keys ≡ none
    → Alike
        (Gates.create_api_key tenant key_hash name id now g)
        (let r = Access.create_api_key tenant key_hash name id now (access_of g) in (ok r.0, r.1))
unfolding Gates.create_api_key Access.create_api_key access_of
create_api_key-Alike tenant id now key_hash name g new unused =
    let kept = without_key_lem id g.api_keys new in
    record {
      answers = ground (arith, new, unused);
      leaves = record {
        tenants = λ t. ground (arith, new, unused);
        api_keys = ground (arith, new, unused, kept);
        data_nodes = λ n. ground (arith, new, unused);
        leases = λ n. ground (arith, new, unused);
      };
    }

pub revoke_api_key-Alike :
    (tenant id now : ℕ) (g : Gates)
    → HasKeys g
    → was_revoked (first (has_key_id id) g.api_keys) ≡ false
    → Alike
        (Gates.revoke_api_key tenant id now g)
        (Access.revoke_api_key tenant id now (access_of g))
unfolding Gates.revoke_api_key Access.revoke_api_key access_of
revoke_api_key-Alike tenant id now g keys valid =
    elim (Option-cases (first (has_key_id id) g.api_keys)) [
      | inl q ↦
          (let none_found = affected-none (has_key_id id) g.api_keys q in
            let less =
              affected_le (is_revocable tenant id) (has_key_id id) g.api_keys
                (λ r h. ground (arith, h)) in
            let nothing : affected (is_revocable tenant id) g.api_keys ≡ 0 =
              ground (arith, none_found, less) in
            rw (find_key_lem id g.api_keys, q, nothing)
              (record { answers = refl; leaves = same_access (access_of g) }))
      | inr (k, q) ↦ elim (Bool-cases (k.tenant_id == tenant)) [
        | inl own ↦
            (let (hit, _) = affected-some (has_key_id id) g.api_keys k q in
              let free : is_revocable tenant id k ≡ true = ground (arith, hit, own, valid, q) in
              let (a, met) =
                first_met (is_revocable tenant id) (has_key_id id) g.api_keys k q free in
              let (_, some_met) = affected-some (is_revocable tenant id) g.api_keys a met in
              let more : (affected (is_revocable tenant id) g.api_keys == 0) ≡ false =
                ground (arith, some_met) in
              let kept = update-revoked tenant id now g.api_keys k (keys.key_ids id) q free in
              rw (find_key_lem id g.api_keys, q, more, own)
                (record {
                  answers = refl;
                  leaves = record {
                    tenants = λ t. refl;
                    api_keys = kept;
                    data_nodes = λ n. refl;
                    leases = λ n. refl;
                  };
                }))
        | inr other ↦
            (let nothing =
                affected-revocable tenant id g.api_keys (keys.key_ids id) k q
                  (ground (arith, other)) in
              rw (find_key_lem id g.api_keys, q, nothing, other)
                (record { answers = refl; leaves = same_access (access_of g) }))
      ]
    ]
