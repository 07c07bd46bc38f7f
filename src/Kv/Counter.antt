-- ===== src/Kv/Counter.antt =====
-- INCR and DECR: the counter that a key holds.
use combee.Prelude.{
  ℕ, String, ◌≡◌, true, false, Option, none, some, arith, Bool-cases, Option-cases, inl, inr,
  str_eq, eq_iff, if◌then◌else◌,
}
use combee.Prelude.Int.{ℤ, ◌+ℤ◌, ◌≤ℤ◌, in_i64, i64_min, i64_max}
use combee.Errors.{Result, ok, err, invalid_request}
use combee.Text.{Bytes}
use combee.Text.Utf8.{is_utf8}
use combee.Text.Decimal.{parse_i64, to_string, parse_i64-to_string, is_utf8-to_string}
use combee.Ttl.{is_expired, expires_at_from}
use combee.Sqlite.{Row, Sqlite, IsReliable, upsert, delete, row_expired, upserted}
use combee.Kv.{incr, incr_from, or_else}
use combee.Kv.Live.{live, dropped}

-- What INCR stores, from what is visible: a key that is not there starts at the increment; text
-- that is no 64-bit integer and a sum that is none are refused.
abbrev pub counted : ℤ → Option ℤ → Option (Bytes × Option ℤ) → Result (ℤ × Option ℤ)
counted delta fresh none = ok (delta, fresh)
counted delta fresh (some (v, e)) =
    if is_utf8 v
    then elim (parse_i64 v) [
      | none ↦ err invalid_request
      | some old ↦
          if in_i64 (old +ℤ delta) then ok (old +ℤ delta, or_else fresh e) else err invalid_request
    ]
    else err invalid_request

abbrev pub value_of {ℓ κ} : {A : Type ℓ} {B : Type κ} → Result (A × B) → Result A
value_of (ok (a, b)) = ok a
value_of (err e) = err e

abbrev pub after_count : Option Row → Option Row → Result (ℤ × Option ℤ) → Option Row
after_count old base (ok (n, e)) = upserted (to_string n) e base
after_count old base (err x) = old

module _ {Conn : Type 0} (sq : Sqlite Conn) (good : IsReliable sq) where
  abbrev IncrLaw : String → ℤ → Option ℕ → ℤ → Conn → Type 0
  IncrLaw k delta t now c =
      ((incr sq k delta t now c).0
        ≡ value_of (counted delta (expires_at_from t now) (live now (sq.rows c k))))
      × ((j : String)
          → sq.rows (incr sq k delta t now c).1 j ≡ (
              if str_eq k j
              then after_count (sq.rows c j) (dropped now (sq.rows c j))
                  (counted delta (expires_at_from t now) (live now (sq.rows c k)))
              else sq.rows c j))

  incr_visible :
      (k : String) (delta : ℤ) (t : Option ℕ) (now : ℤ) (c : Conn) (r : Row)
      → str_eq k "" ≡ false
      → sq.rows c k ≡ some r
      → row_expired r now ≡ false
      → IncrLaw k delta t now c
  unfolding incr incr_from
  incr_visible k delta t now c r h p x = elim (Option-cases (parse_i64 r.value)) [
    | inl bad ↦
        (ground (arith, good.selects k c), λ j. ground (arith, good.selects k c, eq_iff k j))
    | inr (old, q) ↦
        let n = old +ℤ delta in
        let u =
          good.executes (upsert k (to_string n) (or_else (expires_at_from t now) r.expires_at)) c in
        (
          ground (arith, good.selects k c, u.0),
          λ j. ground (arith, good.selects k c, u.0, u.1 j, eq_iff k j),
        )
  ]

  -- On a connection whose statements do not fail, INCR at a key that is not empty returns the
  -- number that it stores, with the lifetime asked for or the old one; where it refuses, nothing
  -- changes, and no other key ever does.
  pub incr_lem :
      (k : String) (delta : ℤ) (t : Option ℕ) (now : ℤ) (c : Conn)
      → str_eq k "" ≡ false
      → ((incr sq k delta t now c).0
          ≡ value_of (counted delta (expires_at_from t now) (live now (sq.rows c k))))
        × ((j : String)
            → sq.rows (incr sq k delta t now c).1 j ≡ (
                if str_eq k j
                then after_count
                    (sq.rows c j)
                    (dropped now (sq.rows c j))
                    (counted delta (expires_at_from t now) (live now (sq.rows c k)))
                else sq.rows c j))
  unfolding incr incr_from
  incr_lem k delta t now c h =
      let d = good.executes (delete k) c in
      let c' = (sq.execute (delete k) c).1 in
      let e = expires_at_from t now in
      let u = λ (n : ℤ) (x : Option ℤ). good.executes (upsert k (to_string n) x) in
      elim (Option-cases (sq.rows c k)) [
        | inl absent ↦ (
          ground (arith, good.selects k c, u delta e c),
          λ j. ground (arith, good.selects k c, u delta e c, (u delta e c).1 j, eq_iff k j),
        )
        | inr (r, p) ↦ elim (Bool-cases (row_expired r now)) [
          | inl x ↦ (
            ground (arith, good.selects k c, u delta e c'),
            λ j.
                ground
                  (arith, good.selects k c, u delta e c', (u delta e c').1 j, d.1 j, eq_iff k j),
          )
          | inr x ↦ incr_visible k delta t now c r h p x
        ]
      ]

  -- On a connection whose statements do not fail, a second INCR, without a lifetime, at a key that
  -- is not empty finds what the first one stored: while that has not expired and the sum fits in
  -- 64 bits, it returns the sum of the first result and its own increment.
  pub incr-incr :
      (k : String) (first second : ℤ) (t : Option ℕ) (now later : ℤ) (c : Conn) (m : ℤ)
      (e : Option ℤ)
      → str_eq k "" ≡ false
      → counted first (expires_at_from t now) (live now (sq.rows c k)) ≡ ok (m, e)
      → i64_min ≤ℤ m
      → m ≤ℤ i64_max
      → in_i64 (m +ℤ second) ≡ true
      → is_expired e later ≡ false
      → (incr sq k second none later (incr sq k first t now c).1).0 ≡ ok (m +ℤ second)
  unfolding expires_at_from
  incr-incr k first second t now later c m e h counts lo hi fits alive =
      let c' = (incr sq k first t now c).1 in
      ground (
        arith,
        (incr_lem k second none later c' h).0,
        (incr_lem k first t now c h).1 k,
        eq_iff k k,
        parse_i64-to_string m lo hi,
        is_utf8-to_string m,
      )
