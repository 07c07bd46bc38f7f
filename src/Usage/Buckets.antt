-- ===== src/Usage/Buckets.antt =====
-- crates/common/src/usage.rs: the names of metrics and the minutes of usage.
use combee.Prelude.{◌≡◌, refl, some, arith}
use combee.Prelude.Int.{ℤ, pos, negsuc, ◌+ℤ◌, ◌≤ℤ◌, ◌<ℤ◌, i64_max, as_i64-to_word}
use combee.Usage.{
  UsageMetric, as_str, parse, bucket_start, floor_minute, kv_read, kv_write, sql_read, sql_write,
  requests, bytes_in, bytes_out, storage_bytes, storage_byte_secs,
}

-- Reading the name of a metric gives the metric.
pub parse-as_str : (m : UsageMetric) → parse (as_str m) ≡ some m
unfolding parse as_str
parse-as_str kv_read = refl
parse-as_str kv_write = refl
parse-as_str sql_read = refl
parse-as_str sql_write = refl
parse-as_str requests = refl
parse-as_str bytes_in = refl
parse-as_str bytes_out = refl
parse-as_str storage_bytes = refl
parse-as_str storage_byte_secs = refl

floor_minute_lem : (t : ℤ) → (floor_minute t ≤ℤ t) × (t <ℤ floor_minute t +ℤ pos 60)
unfolding ◌+ℤ◌
floor_minute_lem (pos n) = (omega arith, ground arith)
floor_minute_lem (negsuc n) = (omega arith, ground arith)

-- A moment from 0 to the largest `i64` is in the minute that starts at its bucket.
pub bucket_start_lem :
    (t : ℤ) → pos 0 ≤ℤ t → t ≤ℤ i64_max → (bucket_start t ≤ℤ t) × (t <ℤ bucket_start t +ℤ pos 60)
unfolding bucket_start
bucket_start_lem t lo hi =
    rw
      (as_i64-to_word (floor_minute t) (ground (arith, floor_minute_lem t))
        (ground (arith, floor_minute_lem t)))
      (floor_minute_lem t)
