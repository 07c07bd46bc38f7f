-- ===== src/Api/Tenancy.antt =====
-- crates/api-server/src/auth.rs: whose data a request reaches, and what a tenant's key opens.
use Prim.Native.String.{String}
use combee.Prelude.{
  ℕ, ◌≡◌, ◌⊎◌, ap, sym, Bool, true, false, Option, none, some, List, [], ◌∷◌, ◌&&◌, arith, str_eq,
  Bool-cases, Option-cases, inl, inr, eq_iff,
}
use mathlib.Core.List.{Memᴰ}
use mathlib.Core.List.Memᴰ.{head, tail}
use combee.Api.Guards.{str_eq→eq}
use combee.Errors.{Result, ok}
use combee.Api.{AuthContext}
use combee.Access.{ApiKeyRecord, Access, lookup_api_key_by_hash, find_valid, is_valid_for}
use combee.Api.Auth.{
  Header, Headers, contains, text_of, equals, internal_auth, rpc_auth, admin_auth, key, proceed,
  auth_middleware, with_key, on_behalf,
}

-- A request with the header of a tenant key passes neither the layer of the control plane nor that
-- of the data node, and the layer of the operator only if the key is that of the service and the
-- request creates a tenant, whatever tokens it shows.
pub tenant_key_stays_out :
    (token bff admin_token : Option String) (is_post : Bool) (path : String) (h : Headers)
    → contains h.x_api_key ≡ true
    → (internal_auth token h ≡ false)
      × (rpc_auth token h ≡ false)
      × (admin_auth bff admin_token is_post path h ≡ (elim bff [
        | none ↦ false
        | some service ↦
            equals service (text_of h.x_api_key) && (is_post && str_eq path "/admin/tenants")
      ]))
unfolding internal_auth rpc_auth admin_auth
tenant_key_stays_out token none admin_token is_post path h k =
    (ground (arith, k), ground (arith, k), ground (arith, k))
tenant_key_stays_out token (some service) admin_token is_post path h k =
    (ground (arith, k), ground (arith, k), ground (arith, k))

-- A key that is found is a row of the store, of the hash asked for and not revoked.
find_valid-stored :
    (hashed : String) (ks : List ApiKeyRecord) (r : ApiKeyRecord)
    → find_valid hashed ks ≡ some r
    → Memᴰ r ks × (r.key_hash ≡ hashed) × (r.revoked_at ≡ none)
unfolding find_valid
find_valid-stored hashed [] r h = absurd (ground (arith, h))
find_valid-stored hashed (k ∷ ks) r h = elim (Bool-cases (is_valid_for hashed k)) [
  | inl q ↦
      (let one : k ≡ r = ground (arith, h, q) in
        (head (sym one), ground (arith, q, one, eq_iff k.key_hash hashed), ground (arith, q, one)))
  | inr q ↦ (let (m, e, v) = find_valid-stored hashed ks r (ground (arith, h, q)) in (tail m, e, v))
]

module _ (hash : String → String) (parse_tenant : String → Option ℕ) (a : Access) where
  abbrev pub lookup_in : String → Result (Option ApiKeyRecord)
  lookup_in hashed = ok (lookup_api_key_by_hash hashed a)

  -- Whom the service acts for: the tenant that its header names, or the one of its key.
  abbrev pub IsNamed : Header → ApiKeyRecord → ℕ → Type 0
  IsNamed named r tenant =
      ((text_of named ≡ none) × (tenant ≡ r.tenant_id))
      ⊎ ((raw : String) × (text_of named ≡ some raw) × (parse_tenant raw ≡ some tenant))

  -- The request shows a key of the store that is not revoked, and is for its tenant; unless the key is
  -- the service's, and it is for the one that the service acts for.
  abbrev pub IsEntitled : Option String → Headers → AuthContext → Type 0
  IsEntitled bff h c =
      (given : String) × (r : ApiKeyRecord) × (text_of h.x_api_key ≡ some given)
      × Memᴰ r a.api_keys
      × (r.key_hash ≡ hash given)
      × (r.revoked_at ≡ none)
      × (((equals given bff ≡ false) × (c ≡ record { tenant_id = r.tenant_id; internal = false }))
          ⊎ ((bff ≡ some given)
              × (c.internal ≡ true)
              × IsNamed h.x_combee_on_behalf_tenant r c.tenant_id))

  equals→eq : (given : String) (bff : Option String) → equals given bff ≡ true → bff ≡ some given
  equals→eq given none p = ground (arith, p)
  equals→eq given (some b) p = ap some (str_eq→eq b given p)

  -- What the service's key is let through with.
  service_names :
      (named : Header) (c : AuthContext) (r : ApiKeyRecord)
      → on_behalf hash parse_tenant lookup_in true named r.tenant_id ≡ proceed c
      → (c.internal ≡ true) × IsNamed named r c.tenant_id
  service_names named c r goes = elim (Option-cases (text_of named)) [
    | inl q ↦ (ground (arith, goes, q), inl (q, ground (arith, goes, q)))
    | inr (raw, q) ↦ elim (Option-cases (parse_tenant raw)) [
      | inl p ↦ absurd (ground (arith, goes, q, p))
      | inr (t, p) ↦ (ground (arith, goes, q, p), inr (raw, q, ground (arith, goes, q, p)))
    ]
  ]

  with_key-IsEntitled :
      (bff : Option String) (h : Headers) (given : String) (c : AuthContext)
      → text_of h.x_api_key ≡ some given
      → with_key hash parse_tenant lookup_in bff h given ≡ proceed c
      → IsEntitled bff h c
  unfolding lookup_api_key_by_hash
  with_key-IsEntitled bff h given c shown goes =
      elim (Option-cases (find_valid (hash given) a.api_keys)) [
        | inl q ↦ absurd (ground (arith, goes, q))
        | inr (r, q) ↦
            (let (stored, hashed, valid) = find_valid-stored (hash given) a.api_keys r q in
              (
                given,
                r,
                shown,
                stored,
                hashed,
                valid,
                elim (Bool-cases (equals given bff)) [
                  | inl p ↦
                      (let named = h.x_combee_on_behalf_tenant in
                        let (inside, whose) =
                          service_names named c r (ground (arith, goes, q, p)) in
                        inr (equals→eq given bff p, inside, whose))
                  | inr p ↦ inl (p, ground (arith, goes, q, p))
                ],
              ))
      ]

  -- A request that the middleware lets through, with keys required, shows a key whose hash is that
  -- of a row of the store that is not revoked. Unless the key is that of the service, the context
  -- is for the tenant of that row and not internal; if it is, the context is internal and for the
  -- tenant that the on-behalf header names, or for that of the row if the header has no text.
  pub auth_middleware-IsEntitled :
      (bff : Option String) (h : Headers) (c : AuthContext)
      → auth_middleware hash parse_tenant lookup_in key bff h ≡ proceed c
      → IsEntitled bff h c
  unfolding auth_middleware
  auth_middleware-IsEntitled bff h c goes = elim (Option-cases (text_of h.x_api_key)) [
    | inl q ↦ ground (arith, goes, q)
    | inr (given, q) ↦ with_key-IsEntitled bff h given c q (ground (arith, goes, q))
  ]
