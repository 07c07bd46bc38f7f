-- ===== src/Tests/Meters.antt =====
-- The meter, the settlement and the prices: their theorems at small states, with a store of usage that
-- refuses the entries of one tenant.
use combee.Prelude.{
  ℕ, ◌+◌, ◌%◌, ◌^◌, ◌≡◌, refl, none, some, List, [], ◌∷◌, ◌==◌, arith, String, Option,
  if◌then◌else◌, ◌++◌, Bool-cases, inl, inr,
}
use combee.Prelude.Int.{pos, wrapping_sub}
use combee.Errors.{ok, err, internal}
use combee.Exec.{Exec}
use combee.Api.{parse_cell_from_path}
use combee.Ledger.{Ledger}
use combee.Ledger.Pricing.{PricingRule, Prices, PricingVersion, active}
use combee.Ledger.Reload.{PricingConfig}
use combee.Usage.{
  UsageKey, UsageMetric, UsageMeter, UsageStore, IsExact, Counters, kv_read, requests, bytes_in,
  bytes_out, bucket_start,
}
use combee.Usage.Flush.{
  MeterEvent, recorded, drained, wrote, tally, after_events, usage_of, meter_keeps_usage, Flushed,
  flush_once_lem,
}
use combee.Usage.Store.{memory_store, memory_store-IsExact, usage_add, value_at, query_usage}
use combee.Usage.Body.{ended, data_frame}
use combee.Usage.Tracking.{usage_tracking, usage_tracking_lem, bytes_recorded, starts_with_any}
use combee.Settlement.{Billing, Display, Settlement, settle_once}
use combee.Settlement.Memory.{MemoryStore, memory}
use combee.Settlement.Repeat.{settle_once_again}
use combee.Settlement.Watermark.{settle_once_watermark, reading_from}

-- A store that refuses what tenant 9 used.
abbrev flaky_add : UsageKey → ℕ → Exec Counters (Unit {0})
flaky_add k d c = if k.tenant_id == 9 then (err internal, c) else usage_add k d c

abbrev flaky : UsageStore Counters
flaky = record { usage_add = flaky_add; stored = value_at }

acknowledged : (k : UsageKey) (d : ℕ) (c : Counters) → (usage_add k d c).0 ≡ ok tt
unfolding usage_add
acknowledged k d c = refl

flaky-IsExact : IsExact flaky
flaky-IsExact = record {
  adds = λ k d s h j. elim (Bool-cases (k.tenant_id == 9)) [
    | inl q ↦ ground (arith, h, q)
    | inr q ↦ ground (arith, q, memory_store-IsExact.adds k d s (acknowledged k d s) j)
  ];
  keeps = λ k d s j h. elim (Bool-cases (k.tenant_id == 9)) [
    | inl q ↦ ground (arith, q)
    | inr q ↦ absurd (h (ground (arith, q, acknowledged k d s)))
  ];
}

abbrev key_for : ℕ → UsageKey
key_for tenant = record {
  tenant_id = tenant;
  cell_id = none;
  metric = kv_read;
  bucket_start = pos 60;
}

abbrev idle_meter : UsageMeter Counters
idle_meter = record { counters = []; batch = []; metadata = [] }

abbrev busy : List MeterEvent
busy =
    recorded 9 none kv_read 5 (pos 61)
    ∷ recorded 4 none kv_read 2 (pos 62)
    ∷ drained
    ∷ wrote
    ∷ recorded 9 none kv_read 1 (pos 63)
    ∷ wrote
    ∷ []

meter_keeps_usage_example :
    tally flaky (key_for 9) (after_events flaky busy idle_meter) % 2 ^ 64
    ≡ (tally flaky (key_for 9) idle_meter + usage_of (key_for 9) busy) % 2 ^ 64
meter_keeps_usage_example = meter_keeps_usage flaky busy idle_meter (key_for 9) flaky-IsExact

abbrev full_meter : UsageMeter Counters
full_meter = record {
  counters = (key_for 4, 7) ∷ (key_for 9, 1) ∷ [];
  batch = [];
  metadata = (key_for 4, 3) ∷ [];
}

flush_once_lem_example : Flushed memory_store full_meter
flush_once_lem_example =
    flush_once_lem memory_store full_meter memory_store-IsExact acknowledged refl

abbrev no_cells : String → Option ℕ
no_cells s = some 3

usage_tracking_lem_example :
    usage_tracking memory_store no_cells none "/v1/databases/3/kv"
      (data_frame 10 ∷ ended ∷ [])
      (data_frame 20 ∷ data_frame 2 ∷ [])
      (pos 60, pos 61, pos 62)
      []
      idle_meter
    ≡ after_events memory_store
        (recorded 1 (parse_cell_from_path no_cells "/v1/databases/3/kv") requests 1 (pos 60)
          ∷ (bytes_recorded memory_store 1
                (parse_cell_from_path no_cells "/v1/databases/3/kv")
                bytes_in
                (pos 61)
                (data_frame 10 ∷ ended ∷ [])
              ++ ([]
                  ++ bytes_recorded memory_store 1
                      (parse_cell_from_path no_cells "/v1/databases/3/kv")
                      bytes_out
                      (pos 62)
                      (data_frame 20 ∷ data_frame 2 ∷ []))))
        idle_meter
usage_tracking_lem_example =
    usage_tracking_lem memory_store no_cells none "/v1/databases/3/kv" (data_frame 10 ∷ ended ∷ [])
      (data_frame 20 ∷ data_frame 2 ∷ []) (pos 60) (pos 61) (pos 62) [] idle_meter refl
      (unfold starts_with_any in refl)

abbrev read_rule : PricingRule
read_rule = record {
  pricing_version = pos 1;
  metric = kv_read;
  unit_size = pos 1000;
  price_units = pos 10;
}

abbrev first_version : PricingVersion
first_version = record {
  version = pos 1;
  status = active;
  effective_at = pos 5;
  created_at = pos 5;
}

abbrev no_prices : Prices
no_prices = record { pricing_versions = []; pricing_rules = λ v. [] }

abbrev display : Display
display = record { show_uuid = λ t. "t"; show_i64 = λ n. "n"; show_u64 = λ n. "u" }

abbrev no_ledger : Ledger
no_ledger = record {
  credit_accounts = λ t. none;
  credit_transactions = [];
  credit_txn_by_ref = λ r. none;
  vouchers = λ id. none;
  voucher_by_hash = λ h. none;
}

abbrev read_prices : PricingConfig
read_prices = record { version = pos 1; effective_at = pos 5; rules = λ m. some (pos 1000, pos 10) }

abbrev job : Settlement MemoryStore
job = record {
  metadata = record { tenants = 4 ∷ []; usage = (key_for 4, 2000) ∷ []; ledger = no_ledger };
  pricing = read_prices;
  last_settled_bucket = pos 0;
}

abbrev ids : ℕ → ℕ → UsageMetric → ℕ
ids base tenant m = base + tenant

settle_once_again_example :
    let settled = (settle_once memory display (ids 100) (pos 125) job).1.metadata in
    let restarted : Settlement MemoryStore = record {
      metadata = settled;
      pricing = read_prices;
      last_settled_bucket = pos 0;
    } in
    (settle_once memory display (ids 200) (pos 150) restarted).1.metadata ≡ settled
settle_once_again_example =
    settle_once_again display (ids 100) (ids 200) (pos 125) (pos 150) (pos 0) job
      (unfold bucket_start in refl) (unfold bucket_start in refl)

-- A store that refuses every entry; the next minute is settled after the first one.
abbrev refusing : Billing MemoryStore
refusing = record memory { append_credit_transaction = λ now txn s. (err internal, s) }

settle_once_watermark_example :
    let run = settle_once refusing display (ids 100) (pos 125) job in
    ((n : ℕ) × (run.0 ≡ ok n))
    × (run.1.last_settled_bucket ≡ bucket_start (pos 125))
    × (settle_once
          (reading_from refusing (bucket_start (pos 125)))
          display
          (ids 200)
          (pos 190)
          run.1
        ≡ settle_once refusing display (ids 200) (pos 190) run.1)
settle_once_watermark_example =
    settle_once_watermark refusing display (ids 100) (ids 200) (pos 125) (pos 190) job
      (unfold bucket_start wrapping_sub in refl) (unfold bucket_start in refl) refl
      (λ t from to s. unfold query_usage in refl)
