-- ===== src/Usage.antt =====
-- crates/common/src/usage.rs and crates/api-server/src/usage.rs: what is metered, the counters in
-- memory and their flush into the store; with the usage buckets of crates/metadata/src/store.rs.
pub mod Buckets
pub mod Flush
pub mod Store
pub mod Queries
pub mod Body
pub mod Tracking
use combee.Prelude.{
  ℕ, zero, suc, ◌+◌, ◌-◌, ◌*◌, ◌/◌, ◌%◌, ◌^◌, String, Bool, true, false, Option, none, some, List,
  [], ◌∷◌, ◌++◌, map, ◌==◌, ◌&&◌, str_eq, if◌then◌else◌, ◌≡◌, length,
}
use combee.Prelude.Int.{ℤ, pos, negsuc, eq_ℤ, leb_ℤ, as_i64, to_word}
use combee.Errors.{Result, ok, err}
use combee.Exec.{Exec}
use combee.Api.{AuthContext}

pub data UsageMetric : Type 0 where
  kv_read kv_write sql_read sql_write requests bytes_in bytes_out : UsageMetric
  storage_bytes storage_byte_secs : UsageMetric

-- `UsageMetric::as_str`
unfoldable pub as_str : UsageMetric → String
as_str kv_read = "kv_read"
as_str kv_write = "kv_write"
as_str sql_read = "sql_read"
as_str sql_write = "sql_write"
as_str requests = "requests"
as_str bytes_in = "bytes_in"
as_str bytes_out = "bytes_out"
as_str storage_bytes = "storage_bytes"
as_str storage_byte_secs = "storage_byte_secs"

-- `UsageMetric::parse`
unfoldable pub parse : String → Option UsageMetric
parse s =
    if str_eq s "kv_read"
    then some kv_read
    else if str_eq s "kv_write"
    then some kv_write
    else if str_eq s "sql_read"
    then some sql_read
    else if str_eq s "sql_write"
    then some sql_write
    else if str_eq s "requests"
    then some requests
    else if str_eq s "bytes_in"
    then some bytes_in
    else if str_eq s "bytes_out"
    then some bytes_out
    else if str_eq s "storage_bytes"
    then some storage_bytes
    else if str_eq s "storage_byte_secs"
    then some storage_byte_secs
    else none

-- The derived equality goes by the constructor.
abbrev pub tag : UsageMetric → ℕ
tag kv_read = 0
tag kv_write = 1
tag sql_read = 2
tag sql_write = 3
tag requests = 4
tag bytes_in = 5
tag bytes_out = 6
tag storage_bytes = 7
tag storage_byte_secs = 8

abbrev pub eq_metric : UsageMetric → UsageMetric → Bool
eq_metric a b = tag a == tag b

-- `i64::div_euclid(60) * 60`; the product may leave the range of `i64` below.
abbrev pub floor_minute : ℤ → ℤ
floor_minute (pos n) = pos (n / 60 * 60)
floor_minute (negsuc n) = negsuc ((n / 60 + 1) * 60 - 1)

unfoldable pub bucket_start : ℤ → ℤ
unfolding as_i64 to_word
bucket_start t = as_i64 (to_word (floor_minute t))

pub record UsageKey : Type 0 where
  pub tenant_id : ℕ
  pub cell_id : Option ℕ
  pub metric : UsageMetric
  pub bucket_start : ℤ

pub record UsageBucket : Type 0 where
  pub tenant_id : ℕ
  pub cell_id : Option ℕ
  pub metric : UsageMetric
  pub bucket_start : ℤ
  pub value : ℕ

abbrev pub eq_cell : Option ℕ → Option ℕ → Bool
eq_cell none none = true
eq_cell none (some d) = false
eq_cell (some c) none = false
eq_cell (some c) (some d) = c == d

unfoldable pub eq_key : UsageKey → UsageKey → Bool
eq_key a b =
    a.tenant_id == b.tenant_id
    && (eq_cell a.cell_id b.cell_id
        && (eq_metric a.metric b.metric && eq_ℤ a.bucket_start b.bucket_start))

-- A `HashMap<UsageKey, u64>` is the list of its entries.
abbrev pub Counters : Type 0
Counters = List (UsageKey × ℕ)

-- `+=` on `u64`, in a release build.
abbrev pub add_u64 : ℕ → ℕ → ℕ
add_u64 a b = (a + b) % 2 ^ 64

-- `*c.entry(key).or_insert(0) += delta`
unfoldable pub add_to : UsageKey → ℕ → Counters → Counters
unfolding eq_key
add_to k d [] = (k, add_u64 0 d) ∷ []
add_to k d ((j, v) ∷ c) =
    let rest = add_to k d c in if eq_key j k then (j, add_u64 v d) ∷ c else (j, v) ∷ rest

-- What a store of usage promises to the meter: the trait `MetadataStore` as far as the meter
-- writes to it.
pub record UsageStore (S : Type 0) : Type 0 where
  pub usage_add : UsageKey → ℕ → Exec S (Unit {0})
  pub stored : UsageKey → S → ℕ

-- A store that adds what it acknowledges, and keeps what it has when it refuses.
pub record IsExact {S : Type 0} (st : UsageStore S) : Type 0 where
  pub adds :
      (k : UsageKey) (d : ℕ) (s : S)
      → (st.usage_add k d s).0 ≡ ok tt
      → (j : UsageKey)
      → st.stored j (st.usage_add k d s).1
        ≡ (if eq_key k j then add_u64 (st.stored j s) d else st.stored j s)
  pub keeps :
      (k : UsageKey) (d : ℕ) (s : S) (j : UsageKey)
      → ((st.usage_add k d s).0 ≡ ok tt → ⊥)
      → st.stored j (st.usage_add k d s).1 ≡ st.stored j s

-- `UsageMeter`, with the entries that a flush has drained and not yet written.
pub record UsageMeter (S : Type 0) : Type 0 where
  pub counters : Counters
  pub batch : Counters
  pub metadata : S

module _ {S : Type 0} (st : UsageStore S) where
  -- `UsageMeter::record` at the moment `now`
  unfoldable pub record_usage : ℕ → Option ℕ → UsageMetric → ℕ → ℤ → UsageMeter S → UsageMeter S
  unfolding add_to bucket_start
  record_usage tenant cell metric delta now m =
      let key : UsageKey = record {
        tenant_id = tenant;
        cell_id = cell;
        metric = metric;
        bucket_start = bucket_start now;
      } in
      if delta == 0 then m else record m { counters = add_to key delta m.counters }

  -- `UsageMeter::record_billed`
  unfoldable pub record_billed :
      AuthContext → Option ℕ → UsageMetric → ℕ → ℤ → UsageMeter S → UsageMeter S
  unfolding record_usage
  record_billed auth cell metric delta now m =
      if auth.internal then m else record_usage auth.tenant_id cell metric delta now m

  -- `c.drain().collect()`
  abbrev pub drain : UsageMeter S → UsageMeter S
  drain m = record m { batch = m.batch ++ m.counters; counters = [] }

  -- What follows the answer of the store to one entry of the batch.
  abbrev pub acknowledged :
      UsageKey → ℕ → Counters → Counters → Result (Unit {0}) × S → ℕ × UsageMeter S
  acknowledged k d c rest (ok u, s) = (1, record { counters = c; batch = rest; metadata = s })
  acknowledged k d c rest (err e, s) =
      (0, record { counters = add_to k d c; batch = rest; metadata = s })

  -- One turn of the loop of `flush_once`, with the number of entries written.
  unfoldable pub flush_entry : UsageMeter S → ℕ × UsageMeter S
  flush_entry m = elim m.batch [
    | [] ↦ (0, m)
    | ((k, d) ∷ rest) ↦ acknowledged k d m.counters rest (st.usage_add k d m.metadata)
  ]

  -- The loop of `flush_once`, of as many turns as the batch has entries.
  unfoldable pub flush_entries : ℕ → UsageMeter S → ℕ × UsageMeter S
  unfolding flush_entry
  flush_entries zero m = (0, m)
  flush_entries (suc n) m =
      let (written, m') = flush_entry m in
      let (others, m'') = flush_entries n m' in (written + others, m'')

  -- `UsageMeter::flush_once`, alone.
  unfoldable pub flush_once : UsageMeter S → Result ℕ × UsageMeter S
  unfolding flush_entries
  flush_once m = elim m.counters [
    | [] ↦ (ok 0, m)
    | (e ∷ c) ↦ let (written, m') = flush_entries (suc (length c)) (drain m) in (ok written, m')
  ]
