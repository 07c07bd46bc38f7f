-- ===== src/Quota.antt =====
-- `QuotaConfig` of crates/common/src/config.rs: the limits of a node, and the checks of
-- crates/data-node/src/lib.rs against them; 0 stands for none. The soft limit on storage only warns.
use Prim.Native.String.{len}
use combee.Prelude.{
  ℕ, ◌+◌, ◌-◌, ◌^◌, String, Bool, ltb, min, ◌&&◌, ◌||◌, Option, none, some, length, if◌then◌else◌,
}
use combee.Errors.{Result, ok, err, quota_exceeded}
use combee.Text.{Bytes}

pub record QuotaConfig : Type 0 where
  pub max_request_body_bytes : ℕ
  pub max_kv_key_bytes : ℕ
  pub max_kv_value_bytes : ℕ
  pub max_sql_rows : ℕ
  pub max_sql_result_bytes : ℕ
  pub max_cells_per_tenant : ℕ
  pub max_per_tenant_concurrency : ℕ
  pub max_per_cell_concurrency : ℕ
  pub storage_soft_bytes : ℕ
  pub storage_hard_bytes : ℕ
  pub max_ttl_seconds : ℕ

-- `max > 0 && n > max`
abbrev pub exceeds : ℕ → ℕ → Bool
exceeds n max = ltb 0 max && ltb max n

abbrev pub check : Bool → Result (Unit {0}) → Result (Unit {0})
check refused e = if refused then e else ok tt

unfoldable pub check_ttl : Option ℕ → QuotaConfig → Result (Unit {0})
check_ttl none q = ok tt
check_ttl (some t) q = check (exceeds t q.max_ttl_seconds) (err quota_exceeded)

abbrev pub check_sizes : String → Bytes → QuotaConfig → Result (Unit {0})
check_sizes key value q =
    check (exceeds (len key) q.max_kv_key_bytes || exceeds (length value) q.max_kv_value_bytes)
      (err quota_exceeded)

-- `current.saturating_add(value.len()) > storage_hard_bytes`
abbrev pub check_storage : ℕ → Bytes → QuotaConfig → Result (Unit {0})
check_storage current value q =
    check (exceeds (min (current + length value) (2 ^ 64 - 1)) q.storage_hard_bytes)
      (err quota_exceeded)
