-- ===== src/Api/Passing.antt =====
-- crates/api-server/src/quota.rs: what the limits on concurrent requests let through.
use Prim.Native.Char.{Char, code}
use Prim.Native.String.{String, [] as nil, ◌∷◌ as cons, ◌++◌ as append}
use Prim.Native.String.append
use combee.Prelude.{
  ℕ, ◌≡◌, refl, ap, true, false, Option, none, some, List, [], ◌∷◌, ltb, arith, map, str_eq,
  if◌then◌else◌, Bool-cases, inl, inr,
}
use combee.Api.{AuthContext, parse_cell_from_path, tenant_of}
use combee.Quota.{QuotaConfig}
use combee.Api.Quotas.{
  ConcurrencyCounters, inflight, try_enter, drop_guard, concurrency_quota, enter_cell, Verdict,
  passed, tenant_key, cell_key,
}
use combee.Api.Guards.{inflight-drop_guard, inflight-try_enter, str_eq→eq}

abbrev first : String → ℕ
first nil = 0
first (cons c s) = code c

first-append : (c : Char) (s t : String) → first (append (cons c s) t) ≡ code c
first-append c s t = ap first (append.cons c s t)

-- A key of a tenant is not a key of a Cell.
keys_differ : (a b : String) → str_eq (append "t:" a) (append "c:" b) ≡ false
keys_differ a b = elim (Bool-cases (str_eq (append "t:" a) (append "c:" b))) [
  | inl q ↦
      let same = ap first (str_eq→eq (append "t:" a) (append "c:" b) q) in
      let left = first-append "t" ":" a in
      let right = first-append "c" ":" b in ground (arith, same, left, right)
  | inr q ↦ q
]

-- Nobody holds a guard.
abbrev pub IsIdle : ConcurrencyCounters → Type 0
IsIdle m = (key : String) → inflight key m ≡ 0

try_enter_idle :
    (key : String) (max : ℕ) (m : ConcurrencyCounters)
    → inflight key m ≡ 0
    → (try_enter key max m).0 ≡ true
unfolding try_enter
try_enter_idle key max m idle = elim (Bool-cases (ltb 0 max)) [
  | inl q ↦ ground (arith, q, idle)
  | inr q ↦ ground (arith, q, idle)
]

module _ (show_uuid : ℕ → String) (parse_id : String → Option ℕ) (q : QuotaConfig) where
  enter_cell-IsIdle :
      (tenant : ℕ) (cell : Option ℕ) (m : ConcurrencyCounters)
      → ((key : String)
          → inflight key m ≡ (if str_eq (tenant_key show_uuid tenant) key then 1 else 0))
      → ((enter_cell show_uuid parse_id q tenant cell m).0 ≡ passed)
        × IsIdle (enter_cell show_uuid parse_id q tenant cell m).1
  unfolding enter_cell
  enter_cell-IsIdle tenant none m h =
      (refl, λ j. ground (arith, h j, inflight-drop_guard (tenant_key show_uuid tenant) j m))
  enter_cell-IsIdle tenant (some c) m h = elim (Bool-cases (ltb 0 q.max_per_cell_concurrency)) [
    | inl z ↦
        let max = q.max_per_cell_concurrency in
        let free : (inflight (cell_key show_uuid c) m ≡ 0) =
          rw (h (cell_key show_uuid c)) (rw (keys_differ (show_uuid tenant) (show_uuid c)) refl) in
        let given = try_enter_idle (cell_key show_uuid c) max m free in
        let m' = (try_enter (cell_key show_uuid c) max m).1 in
        (
          ground (arith, z, given),
          λ j. ground (
            arith,
            z,
            given,
            h j,
            inflight-try_enter (cell_key show_uuid c) j max m given,
            inflight-drop_guard (tenant_key show_uuid tenant) j m',
            inflight-drop_guard (cell_key show_uuid c) j
                (drop_guard (tenant_key show_uuid tenant) m'),
          ),
        )
    | inr z ↦ (
      ground (arith, z),
      λ j. ground (arith, z, h j, inflight-drop_guard (tenant_key show_uuid tenant) j m),
    )
  ]

  concurrency_quota-IsIdle :
      (auth : Option AuthContext) (path : String) (m : ConcurrencyCounters)
      → IsIdle m
      → ((concurrency_quota show_uuid parse_id q auth path m).0 ≡ passed)
        × IsIdle (concurrency_quota show_uuid parse_id q auth path m).1
  unfolding concurrency_quota
  concurrency_quota-IsIdle auth path m idle =
      let key = tenant_key show_uuid (tenant_of auth) in
      let max = q.max_per_tenant_concurrency in
      let given = try_enter_idle key max m (idle key) in
      rw given (
        enter_cell-IsIdle (tenant_of auth) (parse_cell_from_path parse_id path)
          (try_enter key max m).1
          (λ j. ground (arith, idle j, inflight-try_enter key j max m given)))

  -- The verdicts on requests that come one after the other, of which none has ended.
  abbrev pub verdicts : List (Option AuthContext × String) → ConcurrencyCounters → List Verdict
  verdicts [] m = []
  verdicts ((auth, path) ∷ rs) m =
      let (v, m') = concurrency_quota show_uuid parse_id q auth path m in v ∷ verdicts rs m'

  -- While nobody holds a guard, every request of any list is let through to its handler although
  -- none of those before it has ended, whatever the limits are: the middleware gives its guards
  -- back before it calls the handler.
  pub all_requests_pass :
      (rs : List (Option AuthContext × String)) (m : ConcurrencyCounters)
      → IsIdle m
      → verdicts rs m ≡ map (λ r. passed) rs
  all_requests_pass [] m idle = refl
  all_requests_pass ((auth, path) ∷ rs) m idle =
      let (passes, still) = concurrency_quota-IsIdle auth path m idle in
      rw passes (ap (λ vs. passed ∷ vs) (all_requests_pass rs _ still))
