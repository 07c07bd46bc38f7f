-- ===== src/Errors.antt =====
-- crates/common/src/errors.rs: the error type of every component, its name on the wire and the way
-- back from that name.
pub mod Wire
use combee.Prelude.{◌⊎◌, inl, inr, ℕ, ◌≡◌, refl, Option, none, some, String, str_eq, if◌then◌else◌}

-- The texts of the messages are not modelled; what an error names is.
pub data CombeeError : Type 0 where
  database_not_found database_already_exists : ℕ → CombeeError
  cell_already_exists invalid_cell_name cell_name_conflict : CombeeError
  cell_reset_failed api_key_not_found unauthorized : CombeeError
  invalid_request forbidden quota_exceeded sql internal : CombeeError

-- `CombeeError::kind`
unfoldable pub kind : CombeeError → String
kind (database_not_found id) = "database_not_found"
kind (database_already_exists id) = "database_already_exists"
kind cell_already_exists = "cell_already_exists"
kind invalid_cell_name = "invalid_cell_name"
kind cell_name_conflict = "cell_name_conflict"
kind cell_reset_failed = "cell_reset_failed"
kind unauthorized = "unauthorized"
kind api_key_not_found = "api_key_not_found"
kind invalid_request = "invalid_request"
kind forbidden = "forbidden"
kind quota_exceeded = "quota_exceeded"
kind sql = "sql"
kind internal = "internal"

abbrev unwrap_or : ℕ → Option ℕ → ℕ
unwrap_or fresh none = fresh
unwrap_or fresh (some id) = id

-- `CombeeError::from_kind`; `tail_id` is the UUID that the last word of the message reads as, `fresh`
-- the new one that takes its place.
unfoldable pub from_kind : String → Option ℕ → ℕ → CombeeError
from_kind k tail_id fresh =
    if str_eq k "database_not_found"
    then database_not_found (unwrap_or fresh tail_id)
    else if str_eq k "database_already_exists"
    then database_already_exists (unwrap_or fresh tail_id)
    else if str_eq k "unauthorized"
    then unauthorized
    else if str_eq k "api_key_not_found"
    then api_key_not_found
    else if str_eq k "invalid_request"
    then invalid_request
    else if str_eq k "forbidden"
    then forbidden
    else if str_eq k "quota_exceeded"
    then quota_exceeded
    else if str_eq k "sql"
    then sql
    else internal

pub data Result {ℓ} (A : Type ℓ) : Type ℓ where
  ok : A → Result A
  err : CombeeError → Result A

pub Result-cases {ℓ} :
    {A : Type ℓ} (r : Result A) → ((a : A) × (r ≡ ok a)) ⊎ ((e : CombeeError) × (r ≡ err e))
Result-cases (ok a) = inl (a, refl)
Result-cases (err e) = inr (e, refl)

-- `?`
infixl 5 ◌>>=◌
abbrev pub ◌>>=◌ {κ μ} : {B : Type κ} {C : Type μ} → Result B → (B → Result C) → Result C
err x >>= next = err x
ok b >>= next = next b
