-- ===== src/Errors/Wire.antt =====
-- crates/common/src/errors.rs: what an error becomes on its way through an RPC.
use combee.Prelude.{ℕ, ◌≡◌, refl, Option, none, some}
use combee.Errors.{
  CombeeError, kind, from_kind, database_not_found, database_already_exists, cell_already_exists,
  invalid_cell_name, cell_name_conflict, cell_reset_failed, api_key_not_found, unauthorized,
  invalid_request, forbidden, quota_exceeded, sql, internal,
}

-- The identifier at the end of an error's message.
abbrev pub named_id : CombeeError → Option ℕ
named_id (database_not_found id) = some id
named_id (database_already_exists id) = some id
named_id cell_already_exists = none
named_id invalid_cell_name = none
named_id cell_name_conflict = none
named_id cell_reset_failed = none
named_id unauthorized = none
named_id api_key_not_found = none
named_id invalid_request = none
named_id forbidden = none
named_id quota_exceeded = none
named_id sql = none
named_id internal = none

-- The four errors that `from_kind` does not know become `internal`.
abbrev pub received : CombeeError → CombeeError
received (database_not_found id) = database_not_found id
received (database_already_exists id) = database_already_exists id
received cell_already_exists = internal
received invalid_cell_name = internal
received cell_name_conflict = internal
received cell_reset_failed = internal
received unauthorized = unauthorized
received api_key_not_found = api_key_not_found
received invalid_request = invalid_request
received forbidden = forbidden
received quota_exceeded = quota_exceeded
received sql = sql
received internal = internal

-- An error whose identifier, if it has one, is read from its message comes back from an RPC as it
-- was sent, except that an existing name, an invalid name, a conflict of names and a failed reset
-- come back as an internal error.
pub from_kind-kind :
    (e : CombeeError) (fresh : ℕ) → from_kind (kind e) (named_id e) fresh ≡ received e
unfolding from_kind kind
from_kind-kind (database_not_found id) fresh = refl
from_kind-kind (database_already_exists id) fresh = refl
from_kind-kind cell_already_exists fresh = refl
from_kind-kind invalid_cell_name fresh = refl
from_kind-kind cell_name_conflict fresh = refl
from_kind-kind cell_reset_failed fresh = refl
from_kind-kind unauthorized fresh = refl
from_kind-kind api_key_not_found fresh = refl
from_kind-kind invalid_request fresh = refl
from_kind-kind forbidden fresh = refl
from_kind-kind quota_exceeded fresh = refl
from_kind-kind sql fresh = refl
from_kind-kind internal fresh = refl
