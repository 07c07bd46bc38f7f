-- ===== src/Ledger/Balance.antt =====
-- crates/metadata/src/store.rs: balances against the entries of the ledger, and references.
use combee.Prelude.{
  ℕ, String, ◌≡◌, refl, true, none, some, List, [], ◌∷◌, ◌==◌, arith, eq_iff, Option-cases, inl,
  inr, if◌then◌else◌,
}
use combee.Prelude.Int.{ℤ, pos, ◌+ℤ◌, in_i64, saturating_add, int_laws}
use combee.Ledger.{
  CreditTransaction, Ledger, find_txn, without_txn, insert_txn, or_new_account,
  append_credit_transaction, booked, existing, find_transaction_by_reference,
}

-- What the entries of a tenant add up to.
abbrev pub sum_of : ℕ → List CreditTransaction → ℤ
sum_of tenant [] = pos 0
sum_of tenant (t ∷ ts) =
    let rest = sum_of tenant ts in if t.tenant_id == tenant then t.amount_units +ℤ rest else rest

abbrev pub balance_of : ℕ → Ledger → ℤ
balance_of tenant l = (or_new_account tenant (pos 0) (l.credit_accounts tenant)).balance_units

-- Every balance is what the entries of its tenant add up to.
abbrev pub Balanced : Ledger → Type 0
Balanced l = (tenant : ℕ) → balance_of tenant l ≡ sum_of tenant l.credit_transactions

pub saturating_add_exact : (a b : ℤ) → in_i64 (a +ℤ b) ≡ true → saturating_add a b ≡ a +ℤ b
unfolding saturating_add
saturating_add_exact a b h = ground arith

pub without_txn-fresh :
    (id : ℕ) (ts : List CreditTransaction) → find_txn id ts ≡ none → without_txn id ts ≡ ts
unfolding find_txn without_txn
without_txn-fresh id [] h = refl
without_txn-fresh id (t ∷ ts) h = ground (arith, without_txn-fresh id ts)

pub +ℤ_comm : (a b : ℤ) → a +ℤ b ≡ b +ℤ a
+ℤ_comm a b = grind int_laws

-- The entry returned and booked, and the balance after it.
booked-Balanced :
    (now : ℤ) (txn : CreditTransaction) (l : Ledger)
    → Balanced l
    → find_txn txn.id l.credit_transactions ≡ none
    → in_i64 (balance_of txn.tenant_id l +ℤ txn.amount_units) ≡ true
    → Balanced (booked now txn l).1
unfolding booked insert_txn
booked-Balanced now txn l h fresh room tenant = ground (
  arith,
  h tenant,
  h txn.tenant_id,
  without_txn-fresh txn.id l.credit_transactions fresh,
  saturating_add_exact (balance_of txn.tenant_id l) txn.amount_units room,
  +ℤ_comm (balance_of txn.tenant_id l) txn.amount_units,
)

-- Booking an entry in a ledger whose balances are the sums of the entries of their tenants keeps
-- them so, if the identifier of the entry is new and the balance of its tenant does not leave the
-- range of `i64`.
pub append_credit_transaction-Balanced :
    (now : ℤ) (txn : CreditTransaction) (l : Ledger)
    → Balanced l
    → find_txn txn.id l.credit_transactions ≡ none
    → in_i64 (balance_of txn.tenant_id l +ℤ txn.amount_units) ≡ true
    → Balanced (append_credit_transaction now txn l).1
unfolding append_credit_transaction
append_credit_transaction-Balanced now txn l h fresh room =
    elim (Option-cases (existing txn.reference_id l)) [
      | inl q ↦ rw (q, append_credit_transaction) (booked-Balanced now txn l h fresh room)
      | inr (t, q) ↦ rw (q, append_credit_transaction) h
    ]

pub existing-append :
    (now : ℤ) (txn : CreditTransaction) (l : Ledger) (r : String)
    → txn.reference_id ≡ some r
    → find_transaction_by_reference r (append_credit_transaction now txn l).1
      ≡ some (append_credit_transaction now txn l).0
unfolding append_credit_transaction booked find_transaction_by_reference insert_txn find_txn
existing-append now txn l r named = elim (Option-cases (find_transaction_by_reference r l)) [
  | inl q ↦ ground (arith, named, q, eq_iff r r)
  | inr (t, q) ↦ ground (arith, named, q)
]

-- After an entry with a reference was booked or found, a transaction with the same reference books
-- nothing: it returns the first entry, whatever its tenant, amount and moment, and the ledger
-- stays.
pub append_credit_transaction_twice :
    (now later : ℤ) (txn again : CreditTransaction) (l : Ledger) (r : String)
    → txn.reference_id ≡ some r
    → again.reference_id ≡ some r
    → append_credit_transaction later again (append_credit_transaction now txn l).1
      ≡ append_credit_transaction now txn l
append_credit_transaction_twice now later txn again l r first second =
    let e = existing-append now txn l r first in
    unfold append_credit_transaction in ground (arith, e, second)
