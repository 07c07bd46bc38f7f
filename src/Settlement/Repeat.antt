-- ===== src/Settlement/Repeat.antt =====
-- crates/api-server/src/settlement.rs: a settlement that runs again, after a restart or beside another,
-- over the in-memory store.
use combee.Prelude.{
  ℕ, ◌⊎◌, String, ◌≡◌, refl, ap, ◌∙◌, Bool, true, false, not, ◌&&◌, Option, none, some, List, [],
  ◌∷◌, ◌++◌, ◌==◌, arith, map, if◌then◌else◌, Bool-cases, Option-cases, inl, inr, str_eq,
}
use combee.Prelude.Int.{ℤ, leb_ℤ}
use combee.Usage.{UsageMetric, Counters, bucket_start}
use combee.Ledger.{
  CreditTransaction, Ledger, find_txn, find_transaction_by_reference, append_credit_transaction,
  existing, booked, without_txn, insert_txn, found_by, named,
}
use combee.Ledger.Balance.{existing-append}
use combee.Ledger.Reload.{PricingConfig}
use combee.Access.{is_none}
use combee.Settlement.{Display, Settlement, charge, settle_once, with_default, first_or_last}
use combee.Settlement.Memory.{
  MemoryStore, memory, append_all, charges, metric_charges, totals, settle_tenants-memory,
}

-- An entry with the reference is in the ledger.
abbrev pub IsBooked : Option String → Ledger → Type 0
IsBooked r l = (e : CreditTransaction) × (existing r l ≡ some e)

abbrev pub AllBooked : List (Option String) → Ledger → Type 0
AllBooked [] l = Unit
AllBooked (r ∷ rs) l = IsBooked r l × AllBooked rs l

abbrev pub references : List CreditTransaction → List (Option String)
references ts = map (λ t. t.reference_id) ts

find_txn-without_txn :
    (id k : ℕ) (ts : List CreditTransaction)
    → (k == id) ≡ false
    → find_txn id (without_txn k ts) ≡ find_txn id ts
unfolding find_txn without_txn
find_txn-without_txn id k [] h = refl
find_txn-without_txn id k (t ∷ ts) h = ground (arith, h, find_txn-without_txn id k ts h)

-- Appending an entry takes no reference away.
found_by-insert_txn :
    (o : Option ℕ) (t e : CreditTransaction) (ts : List CreditTransaction)
    → found_by o ts ≡ some e
    → (e' : CreditTransaction) × (found_by o (insert_txn t ts) ≡ some e')
unfolding insert_txn find_txn
found_by-insert_txn none t e ts h = ground (arith, h)
found_by-insert_txn (some id) t e ts h = elim (Bool-cases (t.id == id)) [
  | inl q ↦ (t, ground (arith, q))
  | inr q ↦ (e, ground (arith, q, h, find_txn-without_txn id t.id ts q))
]

named-cases :
    (r : Option String) (id : ℕ) (m : String → Option ℕ) (x : String)
    → (named r id m x ≡ m x) ⊎ (named r id m x ≡ some id)
named-cases none id m x = inl refl
named-cases (some y) id m x = elim (Bool-cases (str_eq y x)) [
  | inl q ↦ inr (ground (arith, q))
  | inr q ↦ inl (ground (arith, q))
]

booked-IsBooked :
    (now : ℤ) (t : CreditTransaction) (x : String) (l : Ledger)
    → IsBooked (some x) l
    → IsBooked (some x) (booked now t l).1
unfolding booked find_transaction_by_reference insert_txn find_txn
booked-IsBooked now t x l (e, h) =
    let entry = (booked now t l).0 in
    elim (named-cases t.reference_id t.id l.credit_txn_by_ref x) [
      | inl q ↦ rw q (found_by-insert_txn (l.credit_txn_by_ref x) entry e l.credit_transactions h)
      | inr q ↦ (entry, ground (arith, q))
    ]

append-IsBooked :
    (now : ℤ) (t : CreditTransaction) (r : Option String) (l : Ledger)
    → IsBooked r l
    → IsBooked r (append_credit_transaction now t l).1
unfolding append_credit_transaction
append-IsBooked now t none l (e, h) = ground (arith, h)
append-IsBooked now t (some x) l (e, h) = elim (Option-cases (existing t.reference_id l)) [
  | inl q ↦ rw (q, append_credit_transaction) (booked-IsBooked now t x l (e, h))
  | inr (t', q) ↦ rw (q, append_credit_transaction) (e, h)
]

append_all-IsBooked :
    (now : ℤ) (ts : List CreditTransaction) (r : Option String) (l : Ledger)
    → IsBooked r l
    → IsBooked r (append_all now ts l)
append_all-IsBooked now [] r l h = h
append_all-IsBooked now (t ∷ ts) r l h =
    append_all-IsBooked now ts r _ (append-IsBooked now t r l h)

abbrev has_reference : CreditTransaction → Bool
has_reference t = not (is_none t.reference_id)

abbrev all_named : List CreditTransaction → Bool
all_named [] = true
all_named (t ∷ ts) = has_reference t && all_named ts

own-IsBooked :
    (now : ℤ) (t : CreditTransaction) (l : Ledger)
    → has_reference t ≡ true
    → IsBooked t.reference_id (append_credit_transaction now t l).1
own-IsBooked now t l h = elim (Option-cases t.reference_id) [
  | inl q ↦ ground (arith, h, q)
  | inr (x, q) ↦ (
    (append_credit_transaction now t l).0,
    ap (λ o. existing o (append_credit_transaction now t l).1) q ∙ existing-append now t l x q,
  )
]

append_all-AllBooked :
    (now : ℤ) (ts : List CreditTransaction) (l : Ledger)
    → all_named ts ≡ true
    → AllBooked (references ts) (append_all now ts l)
append_all-AllBooked now [] l h = tt
append_all-AllBooked now (t ∷ ts) l h = (
  append_all-IsBooked now ts t.reference_id _ (own-IsBooked now t l (ground (arith, h))),
  append_all-AllBooked now ts _ (ground (arith, h)),
)

-- Where all references are booked, appending entries with them changes nothing.
append_all-booked :
    (now : ℤ) (ts : List CreditTransaction) (l : Ledger)
    → AllBooked (references ts) l
    → append_all now ts l ≡ l
unfolding append_credit_transaction
append_all-booked now [] l h = refl
append_all-booked now (t ∷ ts) l ((e, q), h) =
    rw (q, append_credit_transaction) (append_all-booked now ts l h)

all_named-append :
    (ts us : List CreditTransaction)
    → all_named ts ≡ true
    → all_named us ≡ true
    → all_named (ts ++ us) ≡ true
all_named-append [] us h k = k
all_named-append (t ∷ ts) us h k = ground (arith, h, k, all_named-append ts us)

references-append :
    (ts us : List CreditTransaction) → references (ts ++ us) ≡ references ts ++ references us
references-append [] us = refl
references-append (t ∷ ts) us = ground (arith, references-append ts us)

module _ (d : Display) (last : ℤ) (c : PricingConfig) where
  -- The references of the entries depend neither on the moment nor on the identifiers drawn.
  references_same :
      (fresh again : ℕ → UsageMetric → ℕ) (now later : ℤ) (tenant : ℕ) (ts : List (UsageMetric × ℕ))
      → references (metric_charges d fresh now last c tenant ts)
        ≡ references (metric_charges d again later last c tenant ts)
  unfolding charge
  references_same fresh again now later tenant [] = refl
  references_same fresh again now later tenant (t ∷ ts) =
      ground (arith, references_same fresh again now later tenant ts)

  all_named-charges :
      (fresh : ℕ → UsageMetric → ℕ) (now : ℤ) (tenant : ℕ) (ts : List (UsageMetric × ℕ))
      → all_named (metric_charges d fresh now last c tenant ts) ≡ true
  unfolding charge
  all_named-charges fresh now tenant [] = refl
  all_named-charges fresh now tenant (t ∷ ts) =
      ground (arith, all_named-charges fresh now tenant ts)

  charges-all_named :
      (fresh : ℕ → UsageMetric → ℕ) (now current : ℤ) (ts : List ℕ) (u : Counters)
      → all_named (charges d fresh now last c current ts u) ≡ true
  charges-all_named fresh now current [] u = refl
  charges-all_named fresh now current (t ∷ ts) u =
      let own = totals d fresh now last c current t u in
      all_named-append (metric_charges d fresh now last c t own)
        (charges d fresh now last c current ts u) (all_named-charges fresh now t own)
        (charges-all_named fresh now current ts u)

  references-charges :
      (fresh again : ℕ → UsageMetric → ℕ) (now later current : ℤ) (ts : List ℕ) (u : Counters)
      → references (charges d fresh now last c current ts u)
        ≡ references (charges d again later last c current ts u)
  references-charges fresh again now later current [] u = refl
  references-charges fresh again now later current (t ∷ ts) u = grind (
    arith,
    references-append,
    references_same fresh again now later t,
    references-charges fresh again now later current ts u,
  )

  -- Booking the same charges again.
  append_all_again :
      (fresh again : ℕ → UsageMetric → ℕ) (now later current : ℤ) (ts : List ℕ) (u : Counters)
      (l : Ledger)
      → let l' = append_all now (charges d fresh now last c current ts u) l in
        append_all later (charges d again later last c current ts u) l' ≡ l'
  append_all_again fresh again now later current ts u l =
      let first = charges d fresh now last c current ts u in
      append_all-booked later (charges d again later last c current ts u) (append_all now first l) (
        rw (references-charges again fresh later now current ts u)
          (append_all-AllBooked now first l (charges-all_named fresh now current ts u)))

settle_once-memory :
    (d : Display) (fresh : ℕ → UsageMetric → ℕ) (now : ℤ) (st : Settlement MemoryStore)
    → let current = bucket_start now in
      let last = first_or_last current st.last_settled_bucket in
      let s = st.metadata in
      let entries = charges d fresh now last st.pricing current (with_default s.tenants) s.usage in
      (settle_once memory d fresh now st).1.metadata
      ≡ (if leb_ℤ current last then s else record s { ledger = append_all now entries s.ledger })
unfolding settle_once
settle_once-memory d fresh now st =
    let current = bucket_start now in
    let last = first_or_last current st.last_settled_bucket in
    elim (Bool-cases (leb_ℤ current last)) [
      | inl q ↦ rw q refl
      | inr q ↦
          rw
            (
              q,
              settle_tenants-memory d fresh now last st.pricing current
                  (with_default st.metadata.tenants) st.metadata,
            )
            refl
    ]

module _ (d : Display) (fresh again : ℕ → UsageMetric → ℕ) (now later last current : ℤ)
    (c : PricingConfig) where
  abbrev settled_store : (ℕ → UsageMetric → ℕ) → ℤ → MemoryStore → MemoryStore
  settled_store fresh now s =
      let entries = charges d fresh now last c current (with_default s.tenants) s.usage in
      if leb_ℤ current last then s else record s { ledger = append_all now entries s.ledger }

  settled_store_again :
      (s : MemoryStore)
      → settled_store again later (settled_store fresh now s) ≡ settled_store fresh now s
  settled_store_again s = elim (Bool-cases (leb_ℤ current last)) [
    | inl q ↦ rw q refl
    | inr q ↦ rw q (
        ap (λ l. record s { ledger = l })
          (append_all_again d last c fresh again now later current (with_default s.tenants) s.usage
            s.ledger))
  ]

-- Over the in-memory store, a settlement that runs a second time in the same minute from the same
-- watermark, with the same prices but with new identifiers and at another second, changes neither
-- the ledger nor anything else in the store: nobody is charged twice for a stretch of usage.
pub settle_once_again :
    (d : Display) (fresh again : ℕ → UsageMetric → ℕ) (now later watermark : ℤ)
    (st : Settlement MemoryStore)
    → bucket_start later ≡ bucket_start now
    → first_or_last (bucket_start later) watermark
      ≡ first_or_last (bucket_start now) st.last_settled_bucket
    → let settled = (settle_once memory d fresh now st).1.metadata in
      let restarted : Settlement MemoryStore = record {
        metadata = settled;
        pricing = st.pricing;
        last_settled_bucket = watermark;
      } in
      (settle_once memory d again later restarted).1.metadata ≡ settled
settle_once_again d fresh again now later watermark st minute same =
    let current = bucket_start now in
    let last = first_or_last current st.last_settled_bucket in
    rw (settle_once-memory d fresh now st) (
      settle_once-memory d again later (record {
        metadata =
            settled_store d fresh again now later last current st.pricing fresh now st.metadata;
        pricing = st.pricing;
        last_settled_bucket = watermark;
      })
      ∙ rw (same, minute)
          (settled_store_again d fresh again now later last current st.pricing st.metadata))
