-- ===== src/Settlement/Memory.antt =====
-- crates/api-server/src/settlement.rs over the in-memory store of crates/metadata/src/store.rs: what
-- a settlement books, and that settling again books nothing.
use combee.Prelude.{
  ℕ, suc, ◌+◌, ◌≡◌, refl, ap, none, some, List, [], ◌∷◌, ◌++◌, arith, length, length-append,
  Option-cases, inl, inr,
}
use combee.Prelude.Int.{ℤ, pos, wrapping_sub}
use combee.Errors.{ok}
use combee.Usage.{UsageMetric, Counters}
use combee.Usage.Store.{query_usage, matching, sort_buckets, is_asked}
use combee.Ledger.{CreditTransaction, Ledger, append_credit_transaction}
use combee.Ledger.Reload.{PricingConfig}
use combee.Settlement.{Billing, Display, charge, settle_metrics, settle_tenants, by_metric}

pub record MemoryStore : Type 0 where
  pub tenants : List ℕ
  pub usage : Counters
  pub ledger : Ledger

-- What `InMemoryStore` gives the job.
abbrev pub memory : Billing MemoryStore
memory = record {
  list_tenants = λ s. (ok s.tenants, s);
  query_usage = λ t cell metric from to s. ((query_usage t cell metric from to s.usage).0, s);
  append_credit_transaction = λ now txn s.
      let (entry, l) = append_credit_transaction now txn s.ledger in
      (ok entry, record s { ledger = l });
}

abbrev pub append_all : ℤ → List CreditTransaction → Ledger → Ledger
append_all now [] l = l
append_all now (t ∷ ts) l = append_all now ts (append_credit_transaction now t l).1

append_all-append :
    (now : ℤ) (ts us : List CreditTransaction) (l : Ledger)
    → append_all now (ts ++ us) l ≡ append_all now us (append_all now ts l)
append_all-append now [] us l = refl
append_all-append now (t ∷ ts) us l = append_all-append now ts us _

module _ (d : Display) (fresh : ℕ → UsageMetric → ℕ) (now last : ℤ) (c : PricingConfig) where
  abbrev pub metric_charges : ℕ → List (UsageMetric × ℕ) → List CreditTransaction
  metric_charges tenant [] = []
  metric_charges tenant (t ∷ ts) =
      let rest = metric_charges tenant ts in
      elim (charge d fresh now last c tenant t) [ none ↦ rest | some txn ↦ txn ∷ rest ]

  -- The usage of a tenant from `last` to the minute before `current`, by metric.
  abbrev pub totals : ℤ → ℕ → Counters → List (UsageMetric × ℕ)
  totals current t u =
      by_metric
        (sort_buckets (matching (is_asked t none none last (wrapping_sub current (pos 60))) u)) []

  -- The entries for the usage of the tenants from `last` to the minute before `current`.
  abbrev pub charges : ℤ → List ℕ → Counters → List CreditTransaction
  charges current [] u = []
  charges current (t ∷ ts) u = metric_charges t (totals current t u) ++ charges current ts u

  settle_metrics-memory :
      (tenant : ℕ) (ts : List (UsageMetric × ℕ)) (s : MemoryStore)
      → settle_metrics memory d fresh now last c tenant ts s ≡ (
        length (metric_charges tenant ts),
        record s { ledger = append_all now (metric_charges tenant ts) s.ledger },
      )
  unfolding settle_metrics
  settle_metrics-memory tenant [] s = refl
  settle_metrics-memory tenant (t ∷ ts) s =
      elim (Option-cases (charge d fresh now last c tenant t)) [
        | inl q ↦ rw (q, settle_metrics, metric_charges) (settle_metrics-memory tenant ts s)
        | inr (txn, q) ↦
            let s' : MemoryStore = record s {
              ledger = (append_credit_transaction now txn s.ledger).1;
            } in
            let rest = metric_charges tenant ts in
            let one : 1 + length rest ≡ suc (length rest) = omega arith in
            rw (q, settle_metrics, metric_charges)
              (rw (settle_metrics-memory tenant ts s')
                (ap (λ n. (n, record s' { ledger = append_all now rest s'.ledger })) one))
      ]

  pub settle_tenants-memory :
      (current : ℤ) (ts : List ℕ) (s : MemoryStore)
      → settle_tenants memory d fresh now last current c ts s ≡ (
        ok (length (charges current ts s.usage)),
        record s { ledger = append_all now (charges current ts s.usage) s.ledger },
      )
  unfolding settle_tenants query_usage
  settle_tenants-memory current [] s = refl
  settle_tenants-memory current (t ∷ ts) s =
      let booked_now = metric_charges t (totals current t s.usage) in
      let s' : MemoryStore = record s { ledger = append_all now booked_now s.ledger } in
      rw
        (
          settle_metrics-memory t (totals current t s.usage) s,
          settle_tenants-memory current ts s',
          length-append booked_now (charges current ts s.usage),
          append_all-append now booked_now (charges current ts s.usage) s.ledger,
        )
        refl
