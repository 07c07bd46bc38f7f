-- ===== src/Access/Keys.antt =====
-- crates/metadata/src/store.rs: an API key from its creation to its revocation.
use combee.Prelude.{
  ℕ, String, ◌≡◌, refl, true, false, none, some, List, [], ◌∷◌, ◌==◌, str_eq, arith, Option-cases,
  Bool-cases, inl, inr, if◌then◌else◌,
}
use combee.Errors.{ok, err, api_key_not_found}
use combee.Access.{
  Access, ApiKeyRecord, find_valid, lookup_api_key_by_hash, create_api_key, revoke_api_key, revoked,
  find_key, without_key, is_valid_for,
}

-- A key that is found is valid, and of the hash asked for.
find_valid-valid :
    (h : String) (ks : List ApiKeyRecord) (k : ApiKeyRecord)
    → find_valid h ks ≡ some k
    → is_valid_for h k ≡ true
unfolding find_valid
find_valid-valid h [] k p = ground (arith, p)
find_valid-valid h (j ∷ ks) k p = elim (Bool-cases (is_valid_for h j)) [
  | inl x ↦ ground (arith, p, x)
  | inr x ↦ find_valid-valid h ks k (ground (arith, p, x))
]

find_valid-revoked :
    (h : String) (id now : ℕ) (ks : List ApiKeyRecord) (k : ApiKeyRecord)
    → find_valid h (revoked id now ks) ≡ some k
    → (k.id == id) ≡ false
unfolding find_valid revoked
find_valid-revoked h id now [] k p = ground (arith, p)
find_valid-revoked h id now (j ∷ ks) k p = elim (Bool-cases (j.id == id)) [
  | inl x ↦ find_valid-revoked h id now ks k (ground (arith, p, x))
  | inr x ↦ elim (Bool-cases (is_valid_for h j)) [
    | inl v ↦ ground (arith, p, x, v)
    | inr v ↦ find_valid-revoked h id now ks k (ground (arith, p, x, v))
  ]
]

without_key-fresh :
    (id : ℕ) (ks : List ApiKeyRecord) → find_key id ks ≡ none → without_key id ks ≡ ks
unfolding find_key without_key
without_key-fresh id [] h = refl
without_key-fresh id (k ∷ ks) h = ground (arith, without_key-fresh id ks)

-- A new key, under an identifier that no key has, is found by its hash at once; what the other hashes
-- find does not change.
pub lookup_api_key_by_hash-create_api_key :
    (tenant id now : ℕ) (key_hash name h : String) (a : Access)
    → find_key id a.api_keys ≡ none
    → lookup_api_key_by_hash h (create_api_key tenant key_hash name id now a).1 ≡ (
        if str_eq key_hash h
        then some (create_api_key tenant key_hash name id now a).0
        else lookup_api_key_by_hash h a)
unfolding lookup_api_key_by_hash create_api_key find_valid
lookup_api_key_by_hash-create_api_key tenant id now key_hash name h a fresh =
    ground (arith, without_key-fresh id a.api_keys fresh)

-- After a revocation that succeeds, no hash finds the key.
pub lookup_api_key_by_hash-revoke_api_key :
    (tenant id now : ℕ) (h : String) (a : Access) (k : ApiKeyRecord)
    → (revoke_api_key tenant id now a).0 ≡ ok tt
    → lookup_api_key_by_hash h (revoke_api_key tenant id now a).1 ≡ some k
    → (k.id == id) ≡ false
unfolding lookup_api_key_by_hash revoke_api_key
lookup_api_key_by_hash-revoke_api_key tenant id now h a k done p =
    elim (Option-cases (find_key id a.api_keys)) [
      | inl q ↦ ground (arith, q, done)
      | inr (r, q) ↦ find_valid-revoked h id now a.api_keys k (ground (arith, q, done, p))
    ]

-- What a lookup finds has the hash asked for and is not revoked.
lookup_api_key_by_hash-IsValid :
    (h : String) (a : Access) (k : ApiKeyRecord)
    → lookup_api_key_by_hash h a ≡ some k
    → is_valid_for h k ≡ true
unfolding lookup_api_key_by_hash
lookup_api_key_by_hash-IsValid h a k p = find_valid-valid h a.api_keys k p

-- A tenant cannot revoke the key of another: it is told that there is none, and nothing changes.
revoke_api_key_of_other :
    (tenant id now : ℕ) (a : Access) (k : ApiKeyRecord)
    → find_key id a.api_keys ≡ some k
    → (k.tenant_id == tenant) ≡ false
    → revoke_api_key tenant id now a ≡ (err api_key_not_found, a)
unfolding revoke_api_key
revoke_api_key_of_other tenant id now a k found other = ground (arith, found, other)
