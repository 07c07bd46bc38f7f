-- ===== src/Settlement.antt =====
-- crates/api-server/src/settlement.rs: the job that turns the usage of past minutes into entries of
-- the ledger.
pub mod Memory
pub mod Repeat
pub mod Watermark
use Prim.Native.String.{◌++◌ as append}
use combee.Prelude.{
  ℕ, zero, suc, ◌+◌, String, Bool, true, false, Option, none, some, List, [], ◌∷◌, ◌++◌, ◌==◌, ◌||◌,
  if◌then◌else◌,
}
use combee.Prelude.Int.{ℤ, pos, negsuc, eq_ℤ, leb_ℤ, wrapping_sub}
use combee.Errors.{Result, ok, err}
use combee.Exec.{Exec, pure, ◌>>=◌}
use combee.Api.{default_tenant}
use combee.Access.{TenantRecord}
use combee.Usage.{UsageMetric, UsageBucket, storage_bytes, eq_metric, add_u64, as_str, bucket_start}
use combee.Ledger.{CreditTransaction, usage}
use combee.Ledger.Reload.{PricingConfig, rate_by}

-- What the job calls on the trait `MetadataStore`; a listing gives the identifiers of the tenants.
pub record Billing (S : Type 0) : Type 0 where
  pub list_tenants : Exec S (List ℕ)
  pub query_usage : ℕ → Option ℕ → Option UsageMetric → ℤ → ℤ → Exec S (List UsageBucket)
  pub append_credit_transaction : ℤ → CreditTransaction → Exec S CreditTransaction

-- The texts that the libraries make of an identifier and of numbers.
pub record Display : Type 0 where
  pub show_uuid : ℕ → String
  pub show_i64 : ℤ → String
  pub show_u64 : ℕ → String

-- `Settlement`; `pricing` is what its manager currently holds.
pub record Settlement (S : Type 0) : Type 0 where
  pub metadata : S
  pub pricing : PricingConfig
  pub last_settled_bucket : ℤ

unfoldable pub has_tenant : ℕ → List ℕ → Bool
has_tenant t [] = false
has_tenant t (u ∷ us) = (u == t) || has_tenant t us

abbrev pub with_default : List ℕ → List ℕ
with_default ts = if has_tenant default_tenant ts then ts else ts ++ (default_tenant ∷ [])

-- `*by_metric.entry(b.metric).or_insert(0) += b.value`
unfoldable pub add_metric : UsageMetric → ℕ → List (UsageMetric × ℕ) → List (UsageMetric × ℕ)
add_metric m v [] = (m, add_u64 0 v) ∷ []
add_metric m v ((n, t) ∷ ts) =
    let rest = add_metric m v ts in if eq_metric n m then (n, add_u64 t v) ∷ ts else (n, t) ∷ rest

unfoldable pub by_metric : List UsageBucket → List (UsageMetric × ℕ) → List (UsageMetric × ℕ)
unfolding add_metric
by_metric [] ts = ts
by_metric (b ∷ bs) ts = by_metric bs (add_metric b.metric b.value ts)

abbrev pub negated : ℤ → ℤ
negated (pos zero) = pos zero
negated (pos (suc n)) = negsuc n
negated (negsuc n) = pos (suc n)

module _ (d : Display) (fresh : ℕ → UsageMetric → ℕ) (now last : ℤ) (c : PricingConfig) where
  -- `format!("usage:{}:{}:{}:{}", …)`
  abbrev pub reference : ℕ → UsageMetric → String
  reference tenant metric = append "usage:" (
      append (d.show_uuid tenant) (
        append ":" (
          append (as_str metric)
            (append ":" (append (d.show_i64 last) (append ":" (d.show_i64 c.version)))))))

  abbrev pub usage_entry : ℕ → UsageMetric → ℕ → CreditTransaction
  usage_entry tenant metric total = record {
    id = fresh tenant metric;
    tenant_id = tenant;
    txn_type = usage;
    amount_units = negated (rate_by c metric total);
    pricing_version = some c.version;
    reference_id = some (reference tenant metric);
    description =
        some
          (append "usage " (append (as_str metric) (append "(" (append (d.show_u64 total) ")"))));
    created_at = now;
    balance_after = none;
  }

  -- The entry of a metric, unless it is not charged.
  unfoldable pub charge : ℕ → UsageMetric × ℕ → Option CreditTransaction
  unfolding rate_by
  charge tenant (metric, total) =
      if eq_metric metric storage_bytes
      then none
      else if eq_ℤ (rate_by c metric total) (pos 0)
      then none
      else some (usage_entry tenant metric total)

abbrev pub counted {ℓ} : {A : Type ℓ} → Result A → ℕ
counted (ok a) = 1
counted (err e) = 0

abbrev pub counting : {S : Type 0} → (S → ℕ × S) → Exec S ℕ
counting f s = let (n, s') = f s in (ok n, s')

abbrev pub first_or_last : ℤ → ℤ → ℤ
first_or_last current last = if eq_ℤ last (pos 0) then wrapping_sub current (pos 60) else last

-- The loops of `settle_once`, for the moment `now` and the identifiers that it draws: over the
-- metrics of a tenant, and over the tenants. A refused entry is only warned of.
module _ {S : Type 0} (b : Billing S) (d : Display) (fresh : ℕ → UsageMetric → ℕ) (now : ℤ) where
  unfoldable pub settle_metrics : ℤ → PricingConfig → ℕ → List (UsageMetric × ℕ) → S → ℕ × S
  unfolding charge
  settle_metrics last c tenant [] s = (0, s)
  settle_metrics last c tenant (t ∷ ts) s = elim (charge d fresh now last c tenant t) [
    | none ↦ settle_metrics last c tenant ts s
    | some txn ↦
        let (answer, s') = b.append_credit_transaction now txn s in
        let (written, s'') = settle_metrics last c tenant ts s' in (counted answer + written, s'')
  ]

  unfoldable pub settle_tenants : ℤ → ℤ → PricingConfig → List ℕ → Exec S ℕ
  unfolding settle_metrics by_metric
  settle_tenants last current c [] = pure 0
  settle_tenants last current c (t ∷ ts) = do
    bs ← b.query_usage t none none last (wrapping_sub current (pos 60))
    written ← counting (settle_metrics last c t (by_metric bs []))
    others ← settle_tenants last current c ts
    pure (written + others)

  abbrev pub settled_to : ℤ → Settlement S → Result ℕ × S → Result ℕ × Settlement S
  settled_to current st (ok n, s) =
      (ok n, record st { metadata = s; last_settled_bucket = current })
  settled_to current st (err e, s) = (err e, record st { metadata = s })

  -- `Settlement::settle_once`
  unfoldable pub settle_once : Settlement S → Result ℕ × Settlement S
  unfolding settle_tenants bucket_start wrapping_sub has_tenant
  settle_once st =
      let current = bucket_start now in
      let last = first_or_last current st.last_settled_bucket in
      if leb_ℤ current last
      then (ok 0, st)
      else settled_to current st (
          (b.list_tenants >>= λ ts. settle_tenants last current st.pricing (with_default ts))
            st.metadata)
