-- ===== src/Usage/Flush.antt =====
-- crates/api-server/src/usage.rs: what the meter has counted against what the store has been
-- given, in every order of recording and flushing.
use combee.Prelude.{
  ℕ, zero, suc, ◌+◌, ◌%◌, ◌^◌, ◌≡◌, refl, ap, true, Option, none, some, List, [], ◌∷◌, ◌++◌, arith,
  ◌==◌, Bool-cases, inl, inr, if◌then◌else◌, length,
}
use combee.Prelude.Int.{ℤ, eq_ℤ, eq_of_parts}
use combee.Errors.{ok, Result-cases}
use combee.Usage.{
  UsageMetric, UsageKey, Counters, UsageStore, IsExact, UsageMeter, add_to, eq_key, eq_cell, tag,
  bucket_start, record_usage, kv_read, kv_write, sql_read, sql_write, requests, bytes_in, bytes_out,
  storage_bytes, storage_byte_secs, drain, flush_entry, flush_entries, flush_once,
}

abbrev with_tag : ℕ → UsageMetric
with_tag n =
    if n == 0
    then kv_read
    else if n == 1
    then kv_write
    else if n == 2
    then sql_read
    else if n == 3
    then sql_write
    else if n == 4
    then requests
    else if n == 5
    then bytes_in
    else if n == 6
    then bytes_out
    else if n == 7
    then storage_bytes
    else storage_byte_secs

with_tag-tag : (a : UsageMetric) → with_tag (tag a) ≡ a
with_tag-tag kv_read = refl
with_tag-tag kv_write = refl
with_tag-tag sql_read = refl
with_tag-tag sql_write = refl
with_tag-tag requests = refl
with_tag-tag bytes_in = refl
with_tag-tag bytes_out = refl
with_tag-tag storage_bytes = refl
with_tag-tag storage_byte_secs = refl

tag-injective : (a b : UsageMetric) → tag a ≡ tag b → a ≡ b
tag-injective a b h = cc (with_tag-tag a, with_tag-tag b, h)

eq_cell→eq : (a b : Option ℕ) → eq_cell a b ≡ true → a ≡ b
eq_cell→eq none none h = refl
eq_cell→eq none (some d) h = ground (arith, h)
eq_cell→eq (some c) none h = ground (arith, h)
eq_cell→eq (some c) (some d) h = ground (arith, h)

pub eq_ℤ→eq : (a b : ℤ) → eq_ℤ a b ≡ true → a ≡ b
eq_ℤ→eq a b h = eq_of_parts a b (ground (arith, h))

-- The derived equality of keys is equality.
pub eq_key→eq : (a b : UsageKey) → eq_key a b ≡ true → a ≡ b
unfolding eq_key
eq_key→eq a b h = ground (
  arith,
  h,
  tag-injective a.metric b.metric,
  eq_cell→eq a.cell_id b.cell_id,
  eq_ℤ→eq a.bucket_start b.bucket_start,
)

-- What the entries for a key add up to.
abbrev pub count : UsageKey → Counters → ℕ
count j [] = 0
count j ((k, v) ∷ c) = let rest = count j c in if eq_key k j then v + rest else rest

abbrev pub for_key : UsageKey → UsageKey → ℕ → ℕ
for_key j k d = if eq_key k j then d else 0

count-add_to :
    (j k : UsageKey) (d : ℕ) (c : Counters)
    → count j (add_to k d c) % 2 ^ 64 ≡ (count j c + for_key j k d) % 2 ^ 64
unfolding add_to
count-add_to j k d [] = ground arith
count-add_to j k d ((i, v) ∷ c) = elim (Bool-cases (eq_key i k)) [
  | inl q ↦ ground (arith, q, eq_key→eq i k q)
  | inr q ↦ ground (arith, q, count-add_to j k d c)
]

count-append : (j : UsageKey) (a b : Counters) → count j (a ++ b) ≡ count j a + count j b
count-append j [] b = omega arith
count-append j ((k, v) ∷ a) b = ground (arith, count-append j a b)

-- What happens to a meter: a request is recorded, a flush drains the counters, a flush writes the
-- next entry that it has drained. Flushes and requests may take turns in every order.
pub data MeterEvent : Type 0 where
  recorded : ℕ → Option ℕ → UsageMetric → ℕ → ℤ → MeterEvent
  drained wrote : MeterEvent

abbrev pub key_at : ℕ → Option ℕ → UsageMetric → ℤ → UsageKey
key_at tenant cell metric now = record {
  tenant_id = tenant;
  cell_id = cell;
  metric = metric;
  bucket_start = bucket_start now;
}

-- What the events record for a key.
abbrev pub usage_of : UsageKey → List MeterEvent → ℕ
usage_of j [] = 0
usage_of j (recorded tenant cell metric delta now ∷ es) =
    for_key j (key_at tenant cell metric now) delta + usage_of j es
usage_of j (drained ∷ es) = usage_of j es
usage_of j (wrote ∷ es) = usage_of j es

module _ {S : Type 0} (st : UsageStore S) where
  abbrev pub happened : MeterEvent → UsageMeter S → UsageMeter S
  happened (recorded tenant cell metric delta now) m =
      record_usage st tenant cell metric delta now m
  happened drained m = drain st m
  happened wrote m = (flush_entry st m).1

  abbrev pub after_events : List MeterEvent → UsageMeter S → UsageMeter S
  after_events [] m = m
  after_events (e ∷ es) m = after_events es (happened e m)

  -- What a meter and its store have for a key.
  abbrev pub tally : UsageKey → UsageMeter S → ℕ
  tally j m = count j m.counters + count j m.batch + st.stored j m.metadata

  record_usage-tally :
      (j : UsageKey) (tenant : ℕ) (cell : Option ℕ) (metric : UsageMetric) (delta : ℕ) (now : ℤ)
      (m : UsageMeter S)
      → tally j (record_usage st tenant cell metric delta now m) % 2 ^ 64
        ≡ (tally j m + for_key j (key_at tenant cell metric now) delta) % 2 ^ 64
  unfolding record_usage
  record_usage-tally j tenant cell metric delta now m =
      ground (arith, count-add_to j (key_at tenant cell metric now) delta m.counters)

  abbrev meter : Counters → Counters → S → UsageMeter S
  meter c b s = record { counters = c; batch = b; metadata = s }

  written-tally :
      (good : IsExact st) (j : UsageKey) (c b : Counters) (s : S)
      → tally j (flush_entry st (meter c b s)).1 % 2 ^ 64 ≡ tally j (meter c b s) % 2 ^ 64
  unfolding flush_entry
  written-tally good j c [] s = refl
  written-tally good j c ((k, d) ∷ rest) s = elim (Result-cases (st.usage_add k d s).0) [
    | inl (u, q) ↦ ground (arith, q, good.adds k d s q j)
    | inr (e, q) ↦
        ground (arith, q, good.keeps k d s j (λ p. ground (arith, p, q)), count-add_to j k d c)
  ]

  flush_entry-tally :
      (good : IsExact st) (j : UsageKey) (m : UsageMeter S)
      → tally j (flush_entry st m).1 % 2 ^ 64 ≡ tally j m % 2 ^ 64
  flush_entry-tally good j m = written-tally good j m.counters m.batch m.metadata

  drain-tally : (j : UsageKey) (m : UsageMeter S) → tally j (drain st m) ≡ tally j m
  drain-tally j m = ground (arith, count-append j m.batch m.counters)

  -- Over a store that adds what it acknowledges and keeps what it has when it refuses, and in
  -- every order of recording, draining and writing: what the counters, the drained entries and the
  -- store have for a key, together, grows by what was recorded for the key, modulo 2 ^ 64. Usage
  -- is neither lost nor counted twice.
  pub meter_keeps_usage :
      (es : List MeterEvent) (m : UsageMeter S) (j : UsageKey)
      → IsExact st
      → tally j (after_events es m) % 2 ^ 64 ≡ (tally j m + usage_of j es) % 2 ^ 64
  meter_keeps_usage [] m j good = omega arith
  meter_keeps_usage (recorded tenant cell metric delta now ∷ es) m j good = omega (
    arith,
    meter_keeps_usage es (record_usage st tenant cell metric delta now m) j good,
    record_usage-tally j tenant cell metric delta now m,
  )
  meter_keeps_usage (drained ∷ es) m j good =
      omega (arith, meter_keeps_usage es (drain st m) j good, drain-tally j m)
  meter_keeps_usage (wrote ∷ es) m j good =
      omega (arith, meter_keeps_usage es (flush_entry st m).1 j good, flush_entry-tally good j m)

  flush_entries-all :
      (b : Counters) (s : S)
      → ((k : UsageKey) (d : ℕ) (s : S) → (st.usage_add k d s).0 ≡ ok tt)
      → ((flush_entries st (length b) (meter [] b s)).0 ≡ length b)
        × ((flush_entries st (length b) (meter [] b s)).1.batch ≡ [])
        × ((flush_entries st (length b) (meter [] b s)).1.counters ≡ [])
  unfolding flush_entries flush_entry
  flush_entries-all [] s up = (refl, refl, refl)
  flush_entries-all ((k, d) ∷ rest) s up =
      ground (arith, up k d s, flush_entries-all rest (st.usage_add k d s).1 up)

  flush_entries-tally :
      (good : IsExact st) (n : ℕ) (m : UsageMeter S) (j : UsageKey)
      → tally j (flush_entries st n m).1 % 2 ^ 64 ≡ tally j m % 2 ^ 64
  unfolding flush_entries
  flush_entries-tally good zero m j = refl
  flush_entries-tally good (suc n) m j =
      omega (arith, flush_entries-tally good n (flush_entry st m).1 j, flush_entry-tally good j m)

  abbrev pub Flushed : UsageMeter S → Type 0
  Flushed m =
      ((flush_once st m).0 ≡ ok (length m.counters))
      × ((flush_once st m).1.counters ≡ [])
      × ((flush_once st m).1.batch ≡ [])
      × ((j : UsageKey)
          → st.stored j (flush_once st m).1.metadata % 2 ^ 64
            ≡ (st.stored j m.metadata + count j m.counters) % 2 ^ 64)

  flush_once-Flushed :
      (c : Counters) (s : S)
      → IsExact st
      → ((k : UsageKey) (d : ℕ) (s : S) → (st.usage_add k d s).0 ≡ ok tt)
      → Flushed (meter c [] s)
  unfolding flush_once
  flush_once-Flushed [] s good up = (refl, refl, refl, λ j. omega arith)
  flush_once-Flushed (e ∷ c) s good up =
      let (n, no_batch, no_counters) = flush_entries-all (e ∷ c) s up in
      (
        ap ok n,
        no_counters,
        no_batch,
        λ j. ground (
          arith,
          flush_entries-tally good (length (e ∷ c)) (meter [] (e ∷ c) s) j,
          no_batch,
          no_counters,
        ),
      )

  -- A flush over such a store that refuses nothing, while no other flush runs, returns the number
  -- of counters, leaves neither a counter nor a drained entry, and adds to the store what the
  -- counters had for each key, modulo 2 ^ 64.
  pub flush_once_lem :
      (m : UsageMeter S)
      → IsExact st
      → ((k : UsageKey) (d : ℕ) (s : S) → (st.usage_add k d s).0 ≡ ok tt)
      → m.batch ≡ []
      → Flushed m
  flush_once_lem m good up idle = rw idle (flush_once-Flushed m.counters m.metadata good up)
