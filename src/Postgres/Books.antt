-- ===== src/Postgres/Books.antt =====
-- crates/metadata/src/postgres.rs: balances and references of the ledger in PostgreSQL, whatever several servers
-- do to it in any order, and how it differs from the store in memory.
use combee.Prelude.{
  ℕ, ◌≤◌, ◌≡◌, refl, String, true, Option, none, some, List, [], ◌∷◌, ◌==◌, arith, Option-cases,
  Bool-cases, inl, inr, if◌then◌else◌, str_eq, eq_iff,
}
use combee.Prelude.Int.{ℤ, pos, negsuc, ◌+ℤ◌, in_i64}
use combee.Errors.{ok, err, invalid_request}
use combee.Catalog.{is_set}
use combee.Ledger
use combee.Ledger.{
  CreditAccount, CreditTransaction, CreditVoucher, Ledger, is_active, voucher_reference,
}
use combee.Ledger.Balance.{sum_of, +ℤ_comm}
use combee.Ledger.Vouchers.{voucher_at}
use combee.Postgres.Rows.{first, affected, first-update, affected-none, affected-some, first_same}
use combee.Postgres.Money.{
  Money, is_account, has_ref, has_txn_id, balance_in, get_credit_account, seen, add_units, upserted,
  new_balance, booked, append_transaction, append_credit_transaction, find_transaction_by_reference,
  takes, redeem_voucher, voucher_txn, redeemed, opened, append_unless,
}

-- Every balance is what the entries of its tenant add up to, and every reference has one entry.
pub record Balanced (m : Money) : Type 0 where
  pub sums :
      (tenant : ℕ)
      → balance_in (first (is_account tenant) m.accounts) ≡ sum_of tenant m.transactions
  pub once : (r : String) → affected (has_ref r) m.transactions ≤ 1

zero_plus : (a : ℤ) → pos 0 +ℤ a ≡ a
unfolding ◌+ℤ◌
zero_plus (pos n) = ground arith
zero_plus (negsuc n) = ground arith

balance-upserted :
    (tenant t : ℕ) (amount now : ℤ) (accounts : List CreditAccount)
    → balance_in (
        first
          (is_account t)
          (upserted tenant amount now accounts (first (is_account tenant) accounts)))
      ≡ (if tenant == t
          then balance_in (first (is_account t) accounts) +ℤ amount
          else balance_in (first (is_account t) accounts))
unfolding first
balance-upserted tenant t amount now accounts =
    elim (Option-cases (first (is_account tenant) accounts)) [
      | inl q ↦ ground (arith, q, zero_plus amount)
      | inr (a, q) ↦
          (let up =
              first-update (is_account t) (is_account tenant) (add_units amount now) accounts
                (λ r. refl) in
            elim (Option-cases (first (is_account t) accounts)) [
              | inl p ↦ ground (arith, q, p, up)
              | inr (b, p) ↦ ground (arith, q, p, up, affected-some (is_account t) accounts b p)
            ])
    ]

booked-Balanced :
    (txn : CreditTransaction) (now : ℤ) (m : Money)
    → Balanced m
    → seen txn.reference_id m ≡ none
    → Balanced (booked txn now m)
unfolding booked affected find_transaction_by_reference
booked-Balanced txn now m h new = record {
  sums = λ t. ground (
    arith,
    h.sums t,
    balance-upserted txn.tenant_id t txn.amount_units now m.accounts,
    +ℤ_comm (balance_in (first (is_account t) m.accounts)) txn.amount_units,
  );
  once = λ r. elim (Option-cases txn.reference_id) [
    | inl p ↦ ground (arith, p, h.once r)
    | inr (s, p) ↦
        ground (arith, p, new, h.once r, affected-none (has_ref r) m.transactions, eq_iff s r)
  ];
}

append_transaction-Balanced :
    (txn : CreditTransaction) (m : Money) → Balanced m → Balanced (append_transaction txn m).1
unfolding append_transaction
append_transaction-Balanced txn m h = elim (Option-cases (seen txn.reference_id m)) [
  | inr (t, q) ↦ rw q h
  | inl q ↦ elim (Bool-cases (is_set (first (has_txn_id txn.id) m.transactions))) [
    | inl y ↦ rw (q, y) h
    | inr n ↦ elim (Bool-cases (in_i64 (new_balance txn.tenant_id txn.amount_units m))) [
      | inl fits ↦ rw (q, n, fits) (booked-Balanced txn txn.created_at m h q)
      | inr over ↦ rw (q, n, over) h
    ]
  ]
]

redeemed-Balanced :
    (code_hash : String) (tenant txn_id : ℕ) (now : ℤ) (m : Money) (v : Option CreditVoucher)
    → Balanced m
    → Balanced (redeemed code_hash tenant txn_id now m v).1
unfolding find_transaction_by_reference first
redeemed-Balanced code_hash tenant txn_id now m none h = h
redeemed-Balanced code_hash tenant txn_id now m (some v) h =
    let txn = voucher_txn (voucher_reference code_hash) tenant txn_id v.amount_units now in
    elim (Option-cases (first (has_ref (voucher_reference code_hash)) m.transactions)) [
      | inr (t, q) ↦ rw q h
      | inl q ↦ elim (Bool-cases (is_set (first (has_txn_id txn_id) m.transactions))) [
        | inl y ↦ rw (q, y) h
        | inr n ↦ elim (Bool-cases (in_i64 (new_balance tenant v.amount_units m))) [
          | inl fits ↦
              (let b = booked-Balanced txn now m h q in
                rw (q, n, fits) (record { sums = b.sums; once = b.once }))
          | inr over ↦ rw (q, n, over) h
        ]
      ]
    ]

-- What the servers do to the ledger; an append looked for its reference in any earlier state.
pub data Entry : Type 0 where
  open_account : ℕ → ℤ → Entry
  append : Money → CreditTransaction → Entry
  redeem : String → ℕ → ℕ → ℤ → Entry

unfoldable pub entered : List Entry → Money → Money
unfolding get_credit_account append_credit_transaction redeem_voucher
entered [] m = m
entered (open_account tenant now ∷ es) m = entered es (get_credit_account tenant now m).1
entered (append before txn ∷ es) m = entered es (append_credit_transaction before txn m).1
entered (redeem code_hash tenant txn_id now ∷ es) m =
    entered es (redeem_voucher code_hash tenant txn_id now m).1

opened-Balanced :
    (tenant : ℕ) (now : ℤ) (m : Money)
    → Balanced m
    → Balanced (opened tenant now m (first (is_account tenant) m.accounts)).1
unfolding first
opened-Balanced tenant now m h = elim (Option-cases (first (is_account tenant) m.accounts)) [
  | inr (a, q) ↦ rw q h
  | inl q ↦ rw q (record { sums = λ t. ground (arith, q, h.sums t); once = h.once })
]

append_unless-Balanced :
    (txn : CreditTransaction) (o : Option CreditTransaction) (m : Money)
    → Balanced m
    → Balanced (append_unless txn o m).1
append_unless-Balanced txn (some t) m h = h
append_unless-Balanced txn none m h = append_transaction-Balanced txn m h

-- Any sequence of openings of accounts, bookings and redemptions, whatever each booking saw of the
-- ledger when it looked for its reference and whether the step succeeds or not, keeps each balance
-- the sum of the entries of its tenant and each reference in at most one entry.
pub entered-Balanced : (es : List Entry) (m : Money) → Balanced m → Balanced (entered es m)
unfolding entered redeem_voucher get_credit_account append_credit_transaction
entered-Balanced [] m h = h
entered-Balanced (open_account tenant now ∷ es) m h =
    entered-Balanced es _ (opened-Balanced tenant now m h)
entered-Balanced (append before txn ∷ es) m h =
    entered-Balanced es _ (append_unless-Balanced txn (seen txn.reference_id before) m h)
entered-Balanced (redeem code_hash tenant txn_id now ∷ es) m h =
    entered-Balanced es _
      (redeemed-Balanced code_hash tenant txn_id now m (first (takes code_hash now) m.vouchers) h)

-- At the very moment at which an active voucher ends, the in-memory store redeems it and
-- PostgreSQL, with the same voucher in its only row of that code, refuses it and changes nothing.
pub redeem_voucher_at_end :
    (code_hash : String) (tenant txn_id : ℕ) (now : ℤ) (l : Ledger) (m : Money) (v : CreditVoucher)
    → voucher_at code_hash l ≡ some v
    → is_active v.status ≡ true
    → v.expires_at ≡ some now
    → (first (λ w. str_eq w.code_hash code_hash) m.vouchers ≡ some v)
    → affected (λ w. str_eq w.code_hash code_hash) m.vouchers ≤ 1
    → ((Ledger.redeem_voucher code_hash tenant txn_id now l).0 ≡ ok v.amount_units)
      × (redeem_voucher code_hash tenant txn_id now m ≡ (err invalid_request, m))
unfolding redeem_voucher Ledger.redeem_voucher
redeem_voucher_at_end code_hash tenant txn_id now l m v there on end row once = (
  elim (Option-cases (l.voucher_by_hash code_hash)) [
    | inl q ↦ ground (arith, q, there)
    | inr (id, q) ↦ ground (arith, q, there, on, end)
  ],
  elim (Option-cases (first (takes code_hash now) m.vouchers)) [
    | inl q ↦ rw q refl
    | inr (w, q) ↦
        (let (met, _) = affected-some (takes code_hash now) m.vouchers w q in
          let (hashed, _) = affected-some (λ w. str_eq w.code_hash code_hash) m.vouchers v row in
          let same : w ≡ v =
            first_same (λ w. str_eq w.code_hash code_hash) (takes code_hash now)
              (λ w. str_eq w.code_hash code_hash) m.vouchers w v once q row (ground (arith, met))
              hashed in
          absurd (ground (arith, met, same, end)))
  ],
)
