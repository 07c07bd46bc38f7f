-- ===== src/Tests/Kv.antt =====
-- crates/data-node/src/kv.rs and ttl.rs: the theorems on the operations of one Cell, at small tables.
use combee.Prelude.{
  String, ◌≡◌, refl, true, false, none, some, [], ◌∷◌, arith, str_eq, eq_iff, ◌≢◌, if◌then◌else◌,
}
use combee.Prelude.Int.{pos, negsuc}
use combee.Errors.{ok}
use combee.Text.{Bytes}
use combee.Text.Utf8.{is_utf8}
use combee.Text.Decimal.{parse_i64, to_string, parse_i64-to_string}
use combee.Ttl.{is_expired, expires_at_from, ttl_or_remaining}
use combee.Sqlite.{Row, Table}
use combee.Sqlite.Ideal.{tables, tables-IsReliable, empty_table}
use combee.Kv.{KvSetItem, Clock, get, set, incr}
use combee.Kv.Live.{live, dropped}
use combee.Kv.Writes.{get-set_self}
use combee.Kv.Counter.{incr_lem, counted, value_of, after_count}
use combee.Kv.Batch.{IsMonotone, AllUtf8}

-- The text "5".
abbrev five : Bytes
five = 53 ∷ []

-- A row that ends at the moment 9.
abbrev short_row : Row
short_row = record { value = five; expires_at = some (pos 9); version = 1 }

-- A table with one row.
abbrev one_row : Table
one_row j = if str_eq "a" j then some short_row else none

abbrev item : String → KvSetItem
item k = record { key = k; value = five; ttl_seconds = none }

abbrev steady : Clock
steady i = pos 3

get-set_self_example :
    (get tables "a"
      (pos 5)
      (pos 5)
      (set tables "a" five (some 10) false false (pos 0) empty_table).1).0
    ≡ ok (
        if is_expired (expires_at_from (some 10) (pos 0)) (pos 5)
        then none
        else some (record {
          value = five;
          ttl_seconds = ttl_or_remaining (expires_at_from (some 10) (pos 0)) (pos 5);
        }))
unfolding is_utf8
get-set_self_example =
    get-set_self tables tables-IsReliable "a" five (some 10) (pos 0) (pos 5) (pos 5) empty_table
      refl refl

b_ne_a : ◌≢◌ {A = String} "b" "a"
b_ne_a e = let q : str_eq "b" "a" ≡ false = refl in ground (arith, e, eq_iff "b" "a", q)

incr_lem_example :
    ((incr tables "a" (pos 2) none (pos 3) one_row).0
      ≡ value_of (counted (pos 2) (expires_at_from none (pos 3)) (live (pos 3) (one_row "a"))))
    × ((j : String)
        → (incr tables "a" (pos 2) none (pos 3) one_row).1 j ≡ (
            if str_eq "a" j
            then after_count
                (one_row j)
                (dropped (pos 3) (one_row j))
                (counted (pos 2) (expires_at_from none (pos 3)) (live (pos 3) (one_row "a")))
            else one_row j))
incr_lem_example = incr_lem tables tables-IsReliable "a" (pos 2) none (pos 3) one_row refl

steady-IsMonotone : IsMonotone steady
steady-IsMonotone i j le = omega arith

five-IsUtf8 : is_utf8 five ≡ true
unfolding is_utf8
five-IsUtf8 = refl

one_row-AllUtf8 : AllUtf8 one_row
one_row-AllUtf8 j r p = ground (arith, p, five-IsUtf8)

parse_i64-to_string_example : parse_i64 (to_string (negsuc 41)) ≡ some (negsuc 41)
parse_i64-to_string_example = parse_i64-to_string (negsuc 41) (omega arith) (omega arith)
