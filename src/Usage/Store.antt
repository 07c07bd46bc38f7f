-- ===== src/Usage/Store.antt =====
-- crates/metadata/src/store.rs: the usage buckets of `InMemoryStore`, and that they are a store as
-- the meter wants it.
use Prim.Native.Nat.{Ordering}
use Prim.Native.String.{compare as compare_text}
use combee.Prelude.{
  ℕ, ◌≡◌, refl, ap, sym, ◌∙◌, Bool, true, false, Option, none, some, List, [], ◌∷◌, ◌==◌, ◌&&◌, ltb,
  arith, if◌then◌else◌, Bool-cases, inl, inr,
}
use combee.Prelude.Int.{ℤ, leb_ℤ, eq_ℤ, ltb_ℤ}
use combee.Errors.{ok}
use combee.Exec.{Exec}
use combee.Usage.{
  UsageMetric, UsageKey, UsageBucket, Counters, UsageStore, IsExact, add_to, add_u64, eq_key,
  eq_cell, eq_metric, as_str,
}
use combee.Usage.Flush.{eq_key→eq}

-- `usage.get(key)`, 0 where there is none.
abbrev pub value_at : UsageKey → Counters → ℕ
value_at j [] = 0
value_at j ((k, v) ∷ c) = let rest = value_at j c in if eq_key k j then v else rest

-- `InMemoryStore::usage_add`
unfoldable pub usage_add : UsageKey → ℕ → Exec Counters (Unit {0})
unfolding add_to
usage_add k d c = (ok tt, add_to k d c)

unfoldable pub put_to : UsageKey → ℕ → Counters → Counters
unfolding eq_key
put_to k d [] = (k, d) ∷ []
put_to k d ((j, v) ∷ c) =
    let rest = put_to k d c in if eq_key j k then (j, d) ∷ c else (j, v) ∷ rest

-- `InMemoryStore::usage_set`
unfoldable pub usage_set : UsageKey → ℕ → Exec Counters (Unit {0})
unfolding put_to
usage_set k d c = (ok tt, put_to k d c)

-- A condition that may be absent.
abbrev pub asked {ℓ} : {A : Type ℓ} → (A → Bool) → Option A → Bool
asked test none = true
asked test (some a) = test a

abbrev pub is_asked : ℕ → Option ℕ → Option UsageMetric → ℤ → ℤ → UsageKey → Bool
is_asked tenant cell metric from to k =
    k.tenant_id == tenant
    && (asked (λ c. eq_cell k.cell_id (some c)) cell
        && (asked (eq_metric k.metric) metric
            && (leb_ℤ from k.bucket_start && leb_ℤ k.bucket_start to)))

abbrev pub bucket_of : UsageKey → ℕ → UsageBucket
bucket_of k v = record {
  tenant_id = k.tenant_id;
  cell_id = k.cell_id;
  metric = k.metric;
  bucket_start = k.bucket_start;
  value = v;
}

unfoldable pub matching : (UsageKey → Bool) → Counters → List UsageBucket
matching test [] = []
matching test ((k, v) ∷ c) =
    let rest = matching test c in if test k then bucket_of k v ∷ rest else rest

abbrev before_cell : Option ℕ → Option ℕ → Bool
before_cell none none = false
before_cell none (some d) = true
before_cell (some c) none = false
before_cell (some c) (some d) = ltb c d

-- The order of `(bucket_start, metric.as_str(), cell_id)`.
unfoldable pub before : UsageBucket → UsageBucket → Bool
unfolding as_str
before a b =
    if ltb_ℤ a.bucket_start b.bucket_start
    then true
    else if eq_ℤ a.bucket_start b.bucket_start
    then (elim (compare_text (as_str a.metric) (as_str b.metric)) [
      | Ordering.lt ↦ true
      | Ordering.gt ↦ false
      | Ordering.eq ↦ before_cell a.cell_id b.cell_id
    ])
    else false

-- `sort_by_key`, which is stable.
unfoldable pub insert_sorted : UsageBucket → List UsageBucket → List UsageBucket
unfolding before
insert_sorted a [] = a ∷ []
insert_sorted a (b ∷ bs) =
    let rest = insert_sorted a bs in if before b a then b ∷ rest else a ∷ b ∷ bs

unfoldable pub sort_buckets : List UsageBucket → List UsageBucket
unfolding insert_sorted
sort_buckets [] = []
sort_buckets (b ∷ bs) = insert_sorted b (sort_buckets bs)

-- `InMemoryStore::query_usage`
unfoldable pub query_usage :
    ℕ → Option ℕ → Option UsageMetric → ℤ → ℤ → Exec Counters (List UsageBucket)
unfolding matching sort_buckets
query_usage tenant cell metric from to c =
    (ok (sort_buckets (matching (is_asked tenant cell metric from to) c)), c)

abbrev pub memory_store : UsageStore Counters
memory_store = record { usage_add = usage_add; stored = value_at }

value_at-add_to :
    (k j : UsageKey) (d : ℕ) (c : Counters)
    → value_at j (add_to k d c) ≡ (if eq_key k j then add_u64 (value_at j c) d else value_at j c)
unfolding add_to
value_at-add_to k j d [] = ground arith
value_at-add_to k j d ((i, v) ∷ c) = elim (Bool-cases (eq_key i k)) [
  | inl q ↦ ground (arith, q, eq_key→eq i k q)
  | inr q ↦ elim (Bool-cases (eq_key k j)) [
    | inl p ↦
        ground
          (arith, q, p, value_at-add_to k j d c, ap (λ x. eq_key i x) (sym (eq_key→eq k j p)) ∙ q)
    | inr p ↦ ground (arith, q, p, value_at-add_to k j d c)
  ]
]

-- The in-memory store is a store as the meter wants it: it adds what it acknowledges to the bucket
-- of the key and to no other, modulo 2 ^ 64.
pub memory_store-IsExact : IsExact memory_store
unfolding usage_add
memory_store-IsExact = record {
  adds = λ k d s h j. value_at-add_to k j d s;
  keeps = λ k d s j h. absurd (h refl);
}
