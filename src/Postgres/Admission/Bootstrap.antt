-- ===== src/Postgres/Admission/Bootstrap.antt =====
-- crates/metadata/src/postgres.rs: the bootstrap keys of a server, one of which was revoked.
use combee.Prelude.{
  ℕ, ◌≤◌, ◌≡◌, refl, String, Bool, true, false, none, some, List, [], ◌∷◌, ◌==◌, arith,
  Option-cases, Bool-cases, inl, inr,
}
use combee.Errors.{ok, err, internal}
use combee.Access.{ApiKeyRecord, is_valid_for}
use combee.Postgres.Rows.{first, update, affected, first-update, first_met, affected-some}
use combee.Postgres.Gates
use combee.Postgres.Gates.{
  Gates, LeaseRow, is_tenant, has_key_id, has_hash, is_data_node, is_lease, is_revocable,
  revoked_now,
}
use combee.Postgres.Admission.{HasKeys}

no_hash-no_valid :
    (p : ApiKeyRecord → Bool) (h : String) (now : ℕ) (ks : List ApiKeyRecord)
    → affected (has_hash h) ks ≡ 0
    → first (is_valid_for h) (update p (revoked_now now) ks) ≡ none
unfolding affected first update
no_hash-no_valid p h now [] gone = refl
no_hash-no_valid p h now (k ∷ ks) gone = ground (arith, gone, no_hash-no_valid p h now ks)

valid_hash : (h : String) (k : ApiKeyRecord) → is_valid_for h k ≡ true → has_hash h k ≡ true
valid_hash h k v = ground (arith, v)

-- The only key of a hash is revoked: no key of the hash is valid.
revoked_hash :
    (p : ApiKeyRecord → Bool) (h : String) (now : ℕ) (ks : List ApiKeyRecord) (k : ApiKeyRecord)
    → affected (has_hash h) ks ≤ 1
    → first (is_valid_for h) ks ≡ some k
    → p k ≡ true
    → first (is_valid_for h) (update p (revoked_now now) ks) ≡ none
unfolding affected first update
revoked_hash p h now [] k once found hit = refl
revoked_hash p h now (j ∷ ks) k once found hit = elim (Bool-cases (is_valid_for h j)) [
  | inl y ↦ ground (arith, once, found, hit, y, valid_hash h j y, no_hash-no_valid p h now ks)
  | inr n ↦ elim (Bool-cases (has_hash h j)) [
    | inl y ↦ ground (arith, once, n, y, no_hash-no_valid p h now ks)
    | inr m ↦ ground (arith, once, found, hit, n, m, revoked_hash p h now ks k)
  ]
]

-- A hash that a row has, revoked or not, makes the first step of the loop fail.
taken_hash :
    (hash : String → String) (fresh : ℕ → ℕ × ℕ) (i now : ℕ) (key : String) (keys : List String)
    (g : Gates) (k : ApiKeyRecord)
    → Gates.lookup_api_key_by_hash (hash key) g ≡ none
    → first (has_hash (hash key)) g.api_keys ≡ some k
    → (Gates.bootstrap_api_keys hash fresh i now (key ∷ keys) g).0 ≡ err internal
unfolding Gates.bootstrap_api_keys Gates.bootstrap_key Gates.create_tenant Gates.create_api_key
taken_hash hash fresh i now key keys g k lost there =
    elim (Option-cases (first (is_tenant (fresh i).0) g.tenants)) [
      | inr (t, q) ↦ ground (arith, lost, q)
      | inl q ↦ elim (Option-cases (first (has_key_id (fresh i).1) g.api_keys)) [
        | inr (l, r) ↦ ground (arith, lost, q, r)
        | inl r ↦ ground (arith, lost, q, r, there)
      ]
    ]

-- On tables that keep their keys, revoking a key that a lookup finds succeeds, and the next
-- bootstrap whose list starts with that key fails with an internal error.
pub revoked_key_bars_bootstrap :
    (hash : String → String) (fresh : ℕ → ℕ × ℕ) (i now : ℕ) (key : String) (keys : List String)
    (g : Gates) (k : ApiKeyRecord)
    → HasKeys g
    → Gates.lookup_api_key_by_hash (hash key) g ≡ some k
    → let r = Gates.revoke_api_key k.tenant_id k.id now g in
      (r.0 ≡ ok tt)
      × ((Gates.bootstrap_api_keys hash fresh i now (key ∷ keys) r.1).0 ≡ err internal)
unfolding Gates.lookup_api_key_by_hash Gates.revoke_api_key
revoked_key_bars_bootstrap hash fresh i now key keys g k has found =
    let h = hash key in
    let p = is_revocable k.tenant_id k.id in
    let (valid, _) = affected-some (is_valid_for h) g.api_keys k found in
    let hit : p k ≡ true = ground (arith, valid) in
    let (a, met) = first_met p (is_valid_for h) g.api_keys k found hit in
    let (_, some_met) = affected-some p g.api_keys a met in
    let more : (affected p g.api_keys == 0) ≡ false = ground (arith, some_met) in
    let lost = revoked_hash p h now g.api_keys k (has.hashes h) found hit in
    let (b, there) =
      first_met (has_hash h) (is_valid_for h) g.api_keys k found (valid_hash h k valid) in
    let kept = first-update (has_hash h) p (revoked_now now) g.api_keys (λ r. refl) in
    let g' : Gates = record g { api_keys = update p (revoked_now now) g.api_keys } in
    rw more (
      refl,
      elim (Bool-cases (p b)) [
        | inl y ↦
            taken_hash hash fresh i now key keys g' (revoked_now now b) lost
              (ground (arith, kept, there, y))
        | inr n ↦ taken_hash hash fresh i now key keys g' b lost (ground (arith, kept, there, n))
      ],
    )
