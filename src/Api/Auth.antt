-- ===== src/Api/Auth.antt =====
-- crates/api-server/src/auth.rs and `rpc_auth` of crates/data-node/src/server.rs: who may call what. A
-- response of the layers themselves is its status.
use Prim.Native.Char.{code}
use Prim.Native.String.{String, [] as nil, ◌∷◌ as cons}
use combee.Prelude.{
  ℕ, Bool, true, false, Option, none, some, ◌==◌, ◌&&◌, ◌||◌, str_eq, if◌then◌else◌,
}
use combee.Errors.{Result, ok, err}
use combee.Api.{AuthContext, default_tenant}
use combee.Access.{ApiKeyRecord}

-- A header: absent, present but not text, or text.
pub data Header : Type 0 where
  absent opaque : Header
  text : String → Header

-- `headers().contains_key(…)` and `headers().get(…).and_then(|v| v.to_str().ok())`
abbrev pub contains : Header → Bool
contains absent = false
contains opaque = true
contains (text s) = true

abbrev pub text_of : Header → Option String
text_of absent = none
text_of opaque = none
text_of (text s) = some s

pub record Headers : Type 0 where
  pub x_api_key : Header
  pub authorization : Header
  pub x_control_token : Header
  pub x_admin_token : Header
  pub x_combee_on_behalf_tenant : Header

abbrev pub equals : String → Option String → Bool
equals expected none = false
equals expected (some s) = str_eq s expected

unfoldable pub strip_prefix : String → String → Option String
strip_prefix nil s = some s
strip_prefix (cons c p) nil = none
strip_prefix (cons c p) (cons d s) =
    let rest = strip_prefix p s in if code c == code d then rest else none

abbrev pub strip_bearer : Option String → Option String
strip_bearer none = none
strip_bearer (some s) = strip_prefix "Bearer " s

-- `bearer_ok || header_ok`
abbrev pub shows_token : String → Header → Header → Bool
shows_token expected authorization header =
    equals expected (strip_bearer (text_of authorization)) || equals expected (text_of header)

-- `internal_auth`: whether the request goes on.
unfoldable pub internal_auth : Option String → Headers → Bool
unfolding strip_prefix
internal_auth token h = if contains h.x_api_key then false else (elim token [
  | none ↦ true
  | some expected ↦ shows_token expected h.authorization h.x_control_token
])

-- `rpc_auth` of the data node.
unfoldable pub rpc_auth : Option String → Headers → Bool
unfolding strip_prefix
rpc_auth token h = if contains h.x_api_key then false else (elim token [
  | none ↦ true
  | some expected ↦ shows_token expected h.authorization h.x_control_token
])

abbrev pub admin_by_token : Option String → Headers → Bool
admin_by_token admin_token h = if contains h.x_api_key then false else (elim admin_token [
  | none ↦ false
  | some expected ↦ shows_token expected h.authorization h.x_admin_token
])

-- `admin_auth`; `is_post` and the path are those of the request.
unfoldable pub admin_auth : Option String → Option String → Bool → String → Headers → Bool
unfolding strip_prefix
admin_auth bff admin_token is_post path h = elim bff [
  | none ↦ admin_by_token admin_token h
  | some key ↦
      if equals key (text_of h.x_api_key)
      then is_post && str_eq path "/admin/tenants"
      else admin_by_token admin_token h
]

pub data AuthMode : Type 0 where
  off key : AuthMode

-- What `auth_middleware` does with a request: it goes on with a context, or is answered with 401
-- or 400.
pub data Answer : Type 0 where
  proceed : AuthContext → Answer
  unauthorized bad_request : Answer

module _ (hash : String → String) (parse_tenant : String → Option ℕ)
    (lookup : String → Result (Option ApiKeyRecord)) where
  abbrev pub on_behalf : Bool → Header → ℕ → Answer
  on_behalf internal h tenant =
      if internal
      then (elim (text_of h) [
        | none ↦ proceed (record { tenant_id = tenant; internal = internal })
        | some raw ↦ (elim (parse_tenant raw) [
          | none ↦ bad_request
          | some t ↦ proceed (record { tenant_id = t; internal = internal })
        ])
      ])
      else proceed (record { tenant_id = tenant; internal = internal })

  abbrev pub with_key : Option String → Headers → String → Answer
  with_key bff h given =
      let internal = equals given bff in
      elim (lookup (hash given)) [
        | err e ↦ unauthorized
        | ok found ↦ (elim found [
          | none ↦ unauthorized
          | some r ↦ on_behalf internal h.x_combee_on_behalf_tenant r.tenant_id
        ])
      ]

  -- `auth_middleware`
  unfoldable pub auth_middleware : AuthMode → Option String → Headers → Answer
  auth_middleware off bff h = on_behalf false h.x_combee_on_behalf_tenant default_tenant
  auth_middleware key bff h = elim (text_of h.x_api_key) [
    | none ↦ unauthorized
    | some given ↦ with_key bff h given
  ]
