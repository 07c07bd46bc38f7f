-- ===== src/Usage/Queries.antt =====
-- crates/metadata/src/store.rs: what `query_usage` of `InMemoryStore` answers.
use combee.Prelude.{
  ℕ, ◌+◌, ◌≡◌, refl, ap, Bool, Option, List, [], ◌∷◌, arith, if◌then◌else◌, Bool-cases, inl, inr,
}
use combee.Prelude.Int.{ℤ}
use combee.Errors.{ok}
use combee.Usage.{UsageMetric, UsageKey, UsageBucket, Counters, eq_key}
use combee.Usage.Flush.{eq_key→eq, count}
use combee.Usage.Store.{query_usage, matching, is_asked, sort_buckets, insert_sorted, before}

abbrev pub key_of : UsageBucket → UsageKey
key_of b = record {
  tenant_id = b.tenant_id;
  cell_id = b.cell_id;
  metric = b.metric;
  bucket_start = b.bucket_start;
}

-- What the buckets of a key add up to.
abbrev pub total_in : UsageKey → List UsageBucket → ℕ
total_in j [] = 0
total_in j (b ∷ bs) =
    let rest = total_in j bs in if eq_key (key_of b) j then b.value + rest else rest

total_in-insert_sorted :
    (j : UsageKey) (a : UsageBucket) (bs : List UsageBucket)
    → total_in j (insert_sorted a bs) ≡ total_in j (a ∷ bs)
unfolding insert_sorted
total_in-insert_sorted j a [] = refl
total_in-insert_sorted j a (b ∷ bs) = elim (Bool-cases (before b a)) [
  | inl q ↦ ground (arith, q, total_in-insert_sorted j a bs)
  | inr q ↦ ground (arith, q)
]

total_in-sort_buckets :
    (j : UsageKey) (bs : List UsageBucket) → total_in j (sort_buckets bs) ≡ total_in j bs
unfolding sort_buckets
total_in-sort_buckets j [] = refl
total_in-sort_buckets j (b ∷ bs) =
    ground (arith, total_in-insert_sorted j b (sort_buckets bs), total_in-sort_buckets j bs)

total_in-matching :
    (test : UsageKey → Bool) (j : UsageKey) (c : Counters)
    → total_in j (matching test c) ≡ (if test j then count j c else 0)
unfolding matching
total_in-matching test j [] = ground arith
total_in-matching test j ((k, v) ∷ c) = elim (Bool-cases (eq_key k j)) [
  | inl q ↦ ground (arith, q, ap test (eq_key→eq k j q), total_in-matching test j c)
  | inr q ↦ ground (arith, q, total_in-matching test j c)
]

-- The buckets that a query returns have, for each key, the usage of the key if it is of the
-- tenant, Cell, metric and time asked for, and nothing otherwise.
pub query_usage_lem :
    (tenant : ℕ) (cell : Option ℕ) (metric : Option UsageMetric) (from to : ℤ) (c : Counters)
    (bs : List UsageBucket) (j : UsageKey)
    → (query_usage tenant cell metric from to c).0 ≡ ok bs
    → total_in j bs ≡ (if is_asked tenant cell metric from to j then count j c else 0)
unfolding query_usage
query_usage_lem tenant cell metric from to c bs j h =
    let test = is_asked tenant cell metric from to in
    ground (arith, h, total_in-sort_buckets j (matching test c), total_in-matching test j c)
