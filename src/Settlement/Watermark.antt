-- ===== src/Settlement/Watermark.antt =====
-- crates/api-server/src/settlement.rs: the minute from which the next settlement starts, whatever entries the
-- store refuses.
use mathlib.Core.Path.{subst}
use combee.Prelude.{
  ℕ, ◌≡◌, refl, Bool, true, false, List, [], ◌∷◌, if◌then◌else◌, arith, none, Option-cases,
  Bool-cases, inl, inr,
}
use combee.Prelude.Int.{ℤ, pos, leb_ℤ, ltb_ℤ, eq_ℤ, wrapping_sub}
use combee.Errors.{Result, ok, err, internal, Result-cases}
use combee.Ledger.Reload.{PricingConfig}
use combee.Usage.{UsageMetric, bucket_start}
use combee.Settlement.{
  Billing, Display, Settlement, settle_once, settled_to, first_or_last, settle_tenants,
  settle_metrics, charge, by_metric, with_default,
}

abbrev pub is_ok : {A : Type 0} → Result A → Bool
is_ok (ok a) = true
is_ok (err e) = false

not_before : (a : ℤ) → ltb_ℤ a a ≡ false
not_before a = ground arith

module _ {S : Type 0} (b : Billing S) where
  -- The store as one that reads no usage from before a minute.
  abbrev pub reading_from : ℤ → Billing S
  reading_from minute = record b {
    query_usage = λ t cell metric from to s.
        if ltb_ℤ from minute then (err internal, s) else b.query_usage t cell metric from to s;
  }

module _ {S : Type 0} (b : Billing S) (d : Display) (fresh : ℕ → UsageMetric → ℕ) (now : ℤ) where
  tenants_answered :
      (last current : ℤ) (c : PricingConfig) (ts : List ℕ) (s : S)
      → ((t : ℕ) (from to : ℤ) (s : S) → is_ok (b.query_usage t none none from to s).0 ≡ true)
      → is_ok (settle_tenants b d fresh now last current c ts s).0 ≡ true
  unfolding settle_tenants
  tenants_answered last current c [] s reads = refl
  tenants_answered last current c (t ∷ ts) s reads =
      let to = wrapping_sub current (pos 60) in
      let q = b.query_usage t none none last to s in
      elim (Result-cases q.0) [
        | inr (e, p) ↦ absurd (ground (arith, p, reads t last to s))
        | inl (bs, p) ↦
            (let done = settle_metrics b d fresh now last c t (by_metric bs []) q.1 in
              let rest = settle_tenants b d fresh now last current c ts done.1 in
              elim (Result-cases rest.0) [
                | inr (e, r) ↦
                    absurd (ground (arith, r, tenants_answered last current c ts done.1 reads))
                | inl (n, r) ↦ rw (p, r) refl
              ])
      ]

  metrics_same :
      (minute last : ℤ) (c : PricingConfig) (t : ℕ) (ms : List (UsageMetric × ℕ)) (s : S)
      → settle_metrics (reading_from b minute) d fresh now last c t ms s
        ≡ settle_metrics b d fresh now last c t ms s
  unfolding settle_metrics
  metrics_same minute last c t [] s = refl
  metrics_same minute last c t (m ∷ ms) s = elim (Option-cases (charge d fresh now last c t m)) [
    | inl q ↦ ground (arith, q, metrics_same minute last c t ms s)
    | inr (txn, q) ↦
        ground (arith, q, metrics_same minute last c t ms (b.append_credit_transaction now txn s).1)
  ]

  tenants_same :
      (minute last current : ℤ) (c : PricingConfig) (ts : List ℕ) (s : S)
      → ltb_ℤ last minute ≡ false
      → settle_tenants (reading_from b minute) d fresh now last current c ts s
        ≡ settle_tenants b d fresh now last current c ts s
  unfolding settle_tenants
  tenants_same minute last current c [] s late = refl
  tenants_same minute last current c (t ∷ ts) s late =
      let to = wrapping_sub current (pos 60) in
      let q = b.query_usage t none none last to s in
      elim (Result-cases q.0) [
        | inr (e, p) ↦ rw (late, p) refl
        | inl (bs, p) ↦
            (let done = settle_metrics b d fresh now last c t (by_metric bs []) q.1 in
              rw
                (
                  late,
                  p,
                  metrics_same minute last c t (by_metric bs []) q.1,
                  tenants_same minute last current c ts done.1 late,
                )
                refl)
      ]

  -- A settlement that starts at a watermark asks for no usage from before it.
  from_watermark :
      (st : Settlement S)
      → eq_ℤ st.last_settled_bucket (pos 0) ≡ false
      → settle_once (reading_from b st.last_settled_bucket) d fresh now st
        ≡ settle_once b d fresh now st
  unfolding settle_once
  from_watermark st set =
      let current = bucket_start now in
      let last = st.last_settled_bucket in
      let asked = b.list_tenants st.metadata in
      elim (Bool-cases (leb_ℤ current last)) [
        | inl early ↦ rw (set, early) refl
        | inr due ↦ elim (Result-cases asked.0) [
          | inr (e, p) ↦ rw (set, due, p) refl
          | inl (ts, p) ↦
              rw
                (
                  set,
                  due,
                  p,
                  tenants_same last last current st.pricing (with_default ts) asked.1
                      (not_before last),
                )
                refl
        ]
      ]

  settled_to_ok :
      (current : ℤ) (st : Settlement S) (r : Result ℕ × S)
      → is_ok r.0 ≡ true
      → let run = settled_to b d fresh now current st r in
        ((n : ℕ) × (run.0 ≡ ok n)) × (run.1.last_settled_bucket ≡ current)
  settled_to_ok current st (ok n, s) done = ((n, refl), refl)
  settled_to_ok current st (err e, s) done = absurd (ground (arith, done))

  answered :
      (st : Settlement S)
      → leb_ℤ (bucket_start now) (first_or_last (bucket_start now) st.last_settled_bucket) ≡ false
      → is_ok (b.list_tenants st.metadata).0 ≡ true
      → ((t : ℕ) (from to : ℤ) (s : S) → is_ok (b.query_usage t none none from to s).0 ≡ true)
      → let run = settle_once b d fresh now st in
        ((n : ℕ) × (run.0 ≡ ok n)) × (run.1.last_settled_bucket ≡ bucket_start now)
  unfolding settle_once
  answered st due listed reads =
      let current = bucket_start now in
      let last = first_or_last current st.last_settled_bucket in
      let asked = b.list_tenants st.metadata in
      elim (Result-cases asked.0) [
        | inr (e, p) ↦ absurd (ground (arith, p, listed))
        | inl (ts, p) ↦
            (let run =
                settle_tenants b d fresh now last current st.pricing (with_default ts) asked.1 in
              rw (due, p)
                (settled_to_ok current st run
                  (tenants_answered last current st.pricing (with_default ts) asked.1 reads)))
      ]

module _ {S : Type 0} (b : Billing S) (d : Display) (fresh fresh' : ℕ → UsageMetric → ℕ)
    (now later : ℤ) where
  -- Take a settlement where a minute is due, which is not the first of the epoch, over a store
  -- that lists its tenants and answers every question for usage, and may refuse any entries. It
  -- answers a count, the watermark moves to the current minute, and the next settlement, at any
  -- moment and with any new identifiers, is the same over the store as over one that reads no
  -- usage asked for from before that minute: usage whose entry was refused is not tried again.
  pub settle_once_watermark :
      (st : Settlement S)
      → leb_ℤ (bucket_start now) (first_or_last (bucket_start now) st.last_settled_bucket) ≡ false
      → eq_ℤ (bucket_start now) (pos 0) ≡ false
      → is_ok (b.list_tenants st.metadata).0 ≡ true
      → ((t : ℕ) (from to : ℤ) (s : S) → is_ok (b.query_usage t none none from to s).0 ≡ true)
      → let run = settle_once b d fresh now st in
        ((n : ℕ) × (run.0 ≡ ok n))
        × (run.1.last_settled_bucket ≡ bucket_start now)
        × (settle_once (reading_from b (bucket_start now)) d fresh' later run.1
            ≡ settle_once b d fresh' later run.1)
  settle_once_watermark st due past listed reads =
      let run = settle_once b d fresh now st in
      let (counted, moved) = answered b d fresh now st due listed reads in
      (
        counted,
        moved,
        subst
            (λ m.
              settle_once (reading_from b m) d fresh' later run.1
              ≡ settle_once b d fresh' later run.1)
            moved (from_watermark b d fresh' later run.1 (rw moved past)),
      )
