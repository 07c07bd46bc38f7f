-- ===== src/Ledger/Vouchers.antt =====
-- crates/metadata/src/store.rs: the redemption of vouchers.
use combee.Prelude.{
  ℕ, String, List, [], ◌∷◌, Bool, not, false, ◌≡◌, true, Option, none, some, ◌==◌, arith,
  Option-cases, inl, inr, if◌then◌else◌,
}
use combee.Prelude.Int.{ℤ, ◌+ℤ◌, in_i64, saturating_add}
use combee.Errors.{Result, ok, err, invalid_request}
use combee.Ledger.{
  append_credit_transaction, booked, existing, CreditVoucher, CreditTransaction, Ledger, find_txn,
  insert_txn, redeem_voucher, redeemed_ledger, voucher_of, is_active, has_passed,
}
use combee.Ledger.Balance.{Balanced, balance_of, saturating_add_exact, +ℤ_comm, without_txn-fresh}

-- The voucher of a code.
abbrev pub voucher_at : String → Ledger → Option CreditVoucher
voucher_at code_hash l = voucher_of (l.voucher_by_hash code_hash) l.vouchers

abbrev pub redeemable : ℤ → Option CreditVoucher → Option ℤ
redeemable now none = none
redeemable now (some v) =
    if is_active v.status
    then (if has_passed v.expires_at now then none else some v.amount_units)
    else none

abbrev pub granted : Option ℤ → Result ℤ
granted none = err invalid_request
granted (some a) = ok a

abbrev pub after_grant : Option ℤ → ℤ → ℤ
after_grant none b = b
after_grant (some a) b = saturating_add b a

-- Redeeming pays exactly the amount of a voucher that is active and not past its end, saturating,
-- to the tenant that redeems it and nobody else; otherwise it is refused and no balance changes.
pub redeem_voucher_lem :
    (code_hash : String) (tenant txn_id : ℕ) (now : ℤ) (l : Ledger)
    → let pay = redeemable now (voucher_at code_hash l) in
      ((redeem_voucher code_hash tenant txn_id now l).0 ≡ granted pay)
      × ((j : ℕ)
          → balance_of j (redeem_voucher code_hash tenant txn_id now l).1
            ≡ (if tenant == j then after_grant pay (balance_of j l) else balance_of j l))
unfolding redeem_voucher redeemed_ledger
redeem_voucher_lem code_hash tenant txn_id now l =
    elim (Option-cases (l.voucher_by_hash code_hash)) [
      | inl q ↦ (ground (arith, q), λ j. ground (arith, q))
      | inr (id, q) ↦ (ground (arith, q), λ j. ground (arith, q))
    ]

-- Redeeming in a ledger whose balances are the sums of the entries of their tenants keeps them so,
-- if the identifier of the new entry is new and the balance of the tenant does not leave the range
-- of `i64`.
pub redeem_voucher-Balanced :
    (code_hash : String) (tenant txn_id : ℕ) (now : ℤ) (l : Ledger)
    → Balanced l
    → find_txn txn_id l.credit_transactions ≡ none
    → ((v : CreditVoucher)
        → voucher_at code_hash l ≡ some v
        → in_i64 (balance_of tenant l +ℤ v.amount_units) ≡ true)
    → Balanced (redeem_voucher code_hash tenant txn_id now l).1
unfolding redeem_voucher redeemed_ledger insert_txn
redeem_voucher-Balanced code_hash tenant txn_id now l h fresh room j =
    elim (Option-cases (voucher_at code_hash l)) [
      | inl q ↦ ground (arith, h j, q)
      | inr (v, q) ↦ ground (
        arith,
        q,
        h j,
        h tenant,
        without_txn-fresh txn_id l.credit_transactions fresh,
        saturating_add_exact (balance_of tenant l) v.amount_units (room v q),
        +ℤ_comm (balance_of tenant l) v.amount_units,
      )
    ]

-- What moves money.
pub data Movement : Type 0 where
  book : ℤ → CreditTransaction → Movement
  redeem : String → ℕ → ℕ → ℤ → Movement

unfoldable pub after : List Movement → Ledger → Ledger
unfolding append_credit_transaction redeem_voucher
after [] l = l
after (book now txn ∷ ms) l = after ms (append_credit_transaction now txn l).1
after (redeem code_hash tenant txn_id now ∷ ms) l =
    after ms (redeem_voucher code_hash tenant txn_id now l).1

-- The code leads to a voucher that is not active.
abbrev is_spent : Option CreditVoucher → Bool
is_spent none = false
is_spent (some v) = not (is_active v.status)

book-spent :
    (h : String) (now : ℤ) (txn : CreditTransaction) (l : Ledger)
    → is_spent (voucher_at h (append_credit_transaction now txn l).1) ≡ is_spent (voucher_at h l)
unfolding append_credit_transaction booked
book-spent h now txn l = elim (Option-cases (existing txn.reference_id l)) [
  | inl q ↦ ground (arith, q)
  | inr (t, q) ↦ ground (arith, q)
]

redeem-spent :
    (h code_hash : String) (tenant txn_id : ℕ) (now : ℤ) (l : Ledger)
    → is_spent (voucher_at h l) ≡ true
    → is_spent (voucher_at h (redeem_voucher code_hash tenant txn_id now l).1) ≡ true
unfolding redeem_voucher redeemed_ledger
redeem-spent h code_hash tenant txn_id now l spent =
    elim (Option-cases (l.voucher_by_hash code_hash)) [
      | inl q ↦ ground (arith, q, spent)
      | inr (id, q) ↦ elim (Option-cases (l.voucher_by_hash h)) [
        | inl p ↦ ground (arith, p, spent)
        | inr (j, p) ↦ ground (arith, p, q, spent)
      ]
    ]

after-spent :
    (h : String) (ms : List Movement) (l : Ledger)
    → is_spent (voucher_at h l) ≡ true
    → is_spent (voucher_at h (after ms l)) ≡ true
unfolding after
after-spent h [] l spent = spent
after-spent h (book now txn ∷ ms) l spent =
    after-spent h ms (append_credit_transaction now txn l).1 (rw (book-spent h now txn l) spent)
after-spent h (redeem code_hash tenant txn_id now ∷ ms) l spent =
    after-spent h ms (redeem_voucher code_hash tenant txn_id now l).1
      (redeem-spent h code_hash tenant txn_id now l spent)

spent_refused :
    (h : String) (tenant txn_id : ℕ) (now : ℤ) (l : Ledger)
    → is_spent (voucher_at h l) ≡ true
    → redeem_voucher h tenant txn_id now l ≡ (err invalid_request, l)
unfolding redeem_voucher
spent_refused h tenant txn_id now l spent = elim (Option-cases (l.voucher_by_hash h)) [
  | inl q ↦ ground (arith, q, spent)
  | inr (id, q) ↦ ground (arith, q, spent)
]

redeem_voucher-spent :
    (h : String) (tenant txn_id : ℕ) (now amount : ℤ) (l : Ledger)
    → (redeem_voucher h tenant txn_id now l).0 ≡ ok amount
    → is_spent (voucher_at h (redeem_voucher h tenant txn_id now l).1) ≡ true
unfolding redeem_voucher redeemed_ledger
redeem_voucher-spent h tenant txn_id now amount l paid = elim (Option-cases (l.voucher_by_hash h)) [
  | inl q ↦ ground (arith, q, paid)
  | inr (id, q) ↦ ground (arith, q, paid)
]

-- A voucher that was redeemed is never redeemed again: after any bookings and redemptions, by any
-- tenant and at any moment, it is refused and the ledger stays.
pub redeem_voucher_once :
    (code_hash : String) (tenant other txn_id other_id : ℕ) (now later amount : ℤ)
    (ms : List Movement) (l : Ledger)
    → (redeem_voucher code_hash tenant txn_id now l).0 ≡ ok amount
    → let l' = after ms (redeem_voucher code_hash tenant txn_id now l).1 in
      redeem_voucher code_hash other other_id later l' ≡ (err invalid_request, l')
redeem_voucher_once code_hash tenant other txn_id other_id now later amount ms l paid =
    spent_refused code_hash other other_id later _ (
      after-spent code_hash ms (redeem_voucher code_hash tenant txn_id now l).1
        (redeem_voucher-spent code_hash tenant txn_id now amount l paid))
