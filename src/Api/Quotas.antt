-- ===== src/Api/Quotas.antt =====
-- crates/api-server/src/quota.rs: the limits on concurrent requests and on the balance.
use Prim.Native.String.{String, ◌++◌ as append}
use combee.Prelude.{
  ℕ, ◌+◌, ◌-◌, Bool, true, false, Option, none, some, ◌==◌, ◌&&◌, ltb, leb, str_eq, if◌then◌else◌,
}
use combee.Prelude.Int.{ℤ, ltb_ℤ}
use combee.Errors.{Result, ok, err}
use combee.Api.{AuthContext, tenant_of, parse_cell_from_path}
use combee.Quota.{QuotaConfig}

-- `ConcurrencyCounters`: the requests in flight for a key.
abbrev pub ConcurrencyCounters : Type 0
ConcurrencyCounters = String → Option ℕ

abbrev pub count_of : Option ℕ → ℕ
count_of none = 0
count_of (some n) = n

abbrev pub inflight : String → ConcurrencyCounters → ℕ
inflight key m = count_of (m key)

abbrev pub set_count : String → Option ℕ → ConcurrencyCounters → ConcurrencyCounters
set_count key n m j = if str_eq key j then n else m j

-- `ConcurrencyCounters::try_enter`: whether a guard for the key is given.
unfoldable pub try_enter : String → ℕ → ConcurrencyCounters → Bool × ConcurrencyCounters
try_enter key max m =
    let cur = inflight key m in
    if ltb 0 max && leb max cur
    then (false, set_count key (some cur) m)
    else (true, set_count key (some (cur + 1)) m)

abbrev pub decremented : Option ℕ → Option ℕ
decremented none = none
decremented (some v) = if v - 1 == 0 then none else some (v - 1)

-- `drop` of a `Guard`
unfoldable pub drop_guard : String → ConcurrencyCounters → ConcurrencyCounters
drop_guard key m = set_count key (decremented (m key)) m

-- `credit_quota`: whether the request is refused, given what the ledger answers for the balance of
-- its tenant.
unfoldable pub credit_quota : Option AuthContext → (ℕ → Result ℤ) → ℤ → Bool
credit_quota none balance least = false
credit_quota (some auth) balance least =
    if auth.internal
    then false
    else (elim (balance auth.tenant_id) [ ok b ↦ ltb_ℤ b least | err e ↦ false ])

-- What the middleware answers: the request passes to its handler, or it is refused and counted as
-- a request for the Cell.
pub data Verdict : Type 0 where
  passed : Verdict
  refused : Option ℕ → Verdict

abbrev pub tenant_key : (ℕ → String) → ℕ → String
tenant_key show_uuid t = append "t:" (show_uuid t)

abbrev pub cell_key : (ℕ → String) → ℕ → String
cell_key show_uuid c = append "c:" (show_uuid c)

module _ (show_uuid : ℕ → String) (parse_id : String → Option ℕ) (q : QuotaConfig) where
  -- The guard of the Cell, if it has a limit; where it is not given, the one of the tenant is
  -- dropped by the early return.
  unfoldable pub enter_cell : ℕ → Option ℕ → ConcurrencyCounters → Verdict × ConcurrencyCounters
  unfolding try_enter drop_guard
  enter_cell tenant none m = (passed, drop_guard (tenant_key show_uuid tenant) m)
  enter_cell tenant (some c) m =
      if ltb 0 q.max_per_cell_concurrency
      then (let (given, m') = try_enter (cell_key show_uuid c) q.max_per_cell_concurrency m in
          if given
          then (
            passed,
            drop_guard (cell_key show_uuid c) (drop_guard (tenant_key show_uuid tenant) m'),
          )
          else (refused (some c), drop_guard (tenant_key show_uuid tenant) m'))
      else (passed, drop_guard (tenant_key show_uuid tenant) m)

  -- `concurrency_quota` up to `next.run`: the verdict, and the counters while the handler runs.
  -- The statement `let _ = (tenant_guard, cell_guard);` drops both guards.
  unfoldable pub concurrency_quota :
      Option AuthContext → String → ConcurrencyCounters → Verdict × ConcurrencyCounters
  unfolding enter_cell try_enter
  concurrency_quota auth path m =
      let tenant = tenant_of auth in
      let cell = parse_cell_from_path parse_id path in
      let (given, m') = try_enter (tenant_key show_uuid tenant) q.max_per_tenant_concurrency m in
      if given then enter_cell tenant cell m' else (refused cell, m')
