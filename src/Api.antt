-- ===== src/Api.antt =====
-- What the parts of crates/api-server/src share: who a request is from (crates/common/src/api_key.rs)
-- and the Cell that its path names.

pub mod Quotas
pub mod Guards
pub mod Passing
pub mod Auth
pub mod Nodes
pub mod Placement
pub mod Tenancy
pub mod Routing
pub mod Failover
pub mod Handlers
pub mod Names
pub mod Directory
pub mod Idempotency
pub mod Migration
use Prim.Native.Char.{Char, code}
use Prim.Native.String.{String, [] as nil, ◌∷◌ as cons}
use combee.Prelude.{
  ℕ, Bool, true, false, Option, none, some, List, [], ◌∷◌, ◌==◌, ◌&&◌, str_eq, if◌then◌else◌,
}

-- `DEFAULT_TENANT`
abbrev pub default_tenant : ℕ
default_tenant = 1

pub record AuthContext : Type 0 where
  pub tenant_id : ℕ
  pub internal : Bool

abbrev pub is_internal : Option AuthContext → Bool
is_internal none = false
is_internal (some a) = a.internal

abbrev pub tenant_of : Option AuthContext → ℕ
tenant_of none = default_tenant
tenant_of (some a) = a.tenant_id

abbrev pub push_char : Char → List String → List String
push_char c [] = cons c nil ∷ []
push_char c (s ∷ ss) = cons c s ∷ ss

-- `split('/')`
unfoldable pub split_slash : String → List String
split_slash nil = nil ∷ []
split_slash (cons c s) =
    let rest = split_slash s in if code c == 47 then nil ∷ rest else push_char c rest

-- `filter(|s| !s.is_empty())`
unfoldable pub non_empty : List String → List String
non_empty [] = []
non_empty (nil ∷ ss) = non_empty ss
non_empty (cons c s ∷ ss) = cons c s ∷ non_empty ss

abbrev pub cell_part : (String → Option ℕ) → List String → Option ℕ
cell_part parse_id (v ∷ d ∷ id ∷ rest) =
    if str_eq v "v1" && str_eq d "databases" then parse_id id else none
cell_part parse_id (v ∷ d ∷ []) = none
cell_part parse_id (v ∷ []) = none
cell_part parse_id [] = none

-- `parse_cell_from_path`; `parse_id` is the UUID library's.
unfoldable pub parse_cell_from_path : (String → Option ℕ) → String → Option ℕ
unfolding split_slash non_empty
parse_cell_from_path parse_id path = cell_part parse_id (non_empty (split_slash path))

-- `starts_with`
unfoldable pub starts_with : String → String → Bool
starts_with s nil = true
starts_with nil (cons d p) = false
starts_with (cons c s) (cons d p) =
    let rest = starts_with s p in if code c == code d then rest else false
