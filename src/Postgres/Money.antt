-- ===== src/Postgres/Money.antt =====
-- crates/metadata/src/postgres.rs: the accounts, the ledger and the vouchers of PostgresStore. A transaction of
-- the database is one step, which a statement that fails undoes. The columns of a type or a status hold what
-- `as_str` prints.
use combee.Prelude.{
  ℕ, String, Bool, true, false, ◌&&◌, Option, none, some, List, ◌∷◌, ◌==◌, str_eq, if◌then◌else◌,
}
use combee.Prelude.Int.{ℤ, pos, ◌+ℤ◌, in_i64, ltb_ℤ}
use combee.Errors.{Result, ok, err, internal, invalid_request}
use combee.Exec.{Exec}
use combee.Catalog.{is_set}
use combee.Ledger.{
  CreditAccount, CreditTransaction, CreditVoucher, is_active, used, voucher, voucher_reference,
}
use combee.Postgres.Rows.{first, update}

-- The tables `credit_accounts`, `credit_transactions` and `credit_vouchers`.
pub record Money : Type 0 where
  pub accounts : List CreditAccount
  pub transactions : List CreditTransaction
  pub vouchers : List CreditVoucher

abbrev pub is_account : ℕ → CreditAccount → Bool
is_account tenant a = a.tenant_id == tenant

abbrev pub equals_ref : String → Option String → Bool
equals_ref r none = false
equals_ref r (some s) = str_eq s r

abbrev pub has_ref : String → CreditTransaction → Bool
has_ref r t = equals_ref r t.reference_id

abbrev pub has_txn_id : ℕ → CreditTransaction → Bool
has_txn_id id t = t.id == id

abbrev pub balance_in : Option CreditAccount → ℤ
balance_in none = pos 0
balance_in (some a) = a.balance_units

abbrev pub new_account : ℕ → ℤ → ℤ → CreditAccount
new_account tenant balance now = record {
  tenant_id = tenant;
  balance_units = balance;
  reserved_units = pos 0;
  updated_at = now;
}

abbrev pub opened : ℕ → ℤ → Money → Option CreditAccount → Result CreditAccount × Money
opened tenant now m (some a) = (ok a, m)
opened tenant now m none =
    let a = new_account tenant (pos 0) now in (ok a, record m { accounts = a ∷ m.accounts })

-- `get_credit_account`
unfoldable pub get_credit_account : ℕ → ℤ → Exec Money CreditAccount
unfolding first
get_credit_account tenant now m = opened tenant now m (first (is_account tenant) m.accounts)

unfoldable pub find_transaction_by_reference : String → Money → Option CreditTransaction
unfolding first
find_transaction_by_reference r m = first (has_ref r) m.transactions

abbrev pub seen : Option String → Money → Option CreditTransaction
seen none m = none
seen (some r) m = find_transaction_by_reference r m

abbrev pub add_units : ℤ → ℤ → CreditAccount → CreditAccount
add_units amount now a = record a { balance_units = a.balance_units +ℤ amount; updated_at = now }

abbrev pub upserted : ℕ → ℤ → ℤ → List CreditAccount → Option CreditAccount → List CreditAccount
upserted tenant amount now accounts none = new_account tenant amount now ∷ accounts
upserted tenant amount now accounts (some a) =
    update (is_account tenant) (add_units amount now) accounts

-- The new balance of an account, which has to be a `bigint`.
abbrev pub new_balance : ℕ → ℤ → Money → ℤ
new_balance tenant amount m = balance_in (first (is_account tenant) m.accounts) +ℤ amount

-- The INSERT of an entry and the upsert of its account, in one transaction.
unfoldable pub booked : CreditTransaction → ℤ → Money → Money
unfolding first update ◌+ℤ◌
booked txn now m = record m {
  accounts =
      upserted txn.tenant_id txn.amount_units now m.accounts
        (first (is_account txn.tenant_id) m.accounts);
  transactions = record txn { balance_after = none } ∷ m.transactions;
}

abbrev pub or_conflict : Option CreditTransaction → Result CreditTransaction
or_conflict none = err internal
or_conflict (some t) = ok t

-- The transaction of `append_credit_transaction`.
unfoldable pub append_transaction : CreditTransaction → Exec Money CreditTransaction
unfolding booked find_transaction_by_reference
append_transaction txn m =
    if is_set (seen txn.reference_id m)
    then (or_conflict (seen txn.reference_id m), m)
    else if is_set (first (has_txn_id txn.id) m.transactions)
    then (err internal, m)
    else if in_i64 (new_balance txn.tenant_id txn.amount_units m)
    then (
      ok (record txn { balance_after = some (new_balance txn.tenant_id txn.amount_units m) }),
      booked txn txn.created_at m,
    )
    else (err internal, m)

abbrev pub append_unless :
    CreditTransaction → Option CreditTransaction → Exec Money CreditTransaction
append_unless txn (some t) m = (ok t, m)
append_unless txn none m = append_transaction txn m

-- `append_credit_transaction`, which looks for the reference in `before` and writes later.
unfoldable pub append_credit_transaction : Money → CreditTransaction → Exec Money CreditTransaction
unfolding append_transaction find_transaction_by_reference
append_credit_transaction before txn m = append_unless txn (seen txn.reference_id before) m

abbrev pub unexpired : ℤ → Option ℤ → Bool
unexpired now none = true
unexpired now (some e) = ltb_ℤ now e

-- The condition of the UPDATE that takes a voucher.
abbrev pub takes : String → ℤ → CreditVoucher → Bool
takes code_hash now v =
    str_eq v.code_hash code_hash && (is_active v.status && unexpired now v.expires_at)

abbrev pub taken : ℕ → ℤ → CreditVoucher → CreditVoucher
taken tenant now v = record v { status = used; redeemed_by = some tenant; redeemed_at = some now }

abbrev pub voucher_txn : String → ℕ → ℕ → ℤ → ℤ → CreditTransaction
voucher_txn reference tenant txn_id amount now = record {
  id = txn_id;
  tenant_id = tenant;
  txn_type = voucher;
  amount_units = amount;
  pricing_version = none;
  reference_id = some reference;
  description = some "voucher redemption";
  created_at = now;
  balance_after = none;
}

-- What follows the UPDATE: the entry, whose reference or identifier may be there, and the account.
abbrev pub redeemed : String → ℕ → ℕ → ℤ → Money → Option CreditVoucher → Result ℤ × Money
redeemed code_hash tenant txn_id now m none = (err invalid_request, m)
redeemed code_hash tenant txn_id now m (some v) =
    let txn = voucher_txn (voucher_reference code_hash) tenant txn_id v.amount_units now in
    if is_set (first (has_ref (voucher_reference code_hash)) m.transactions)
    then (err internal, m)
    else if is_set (first (has_txn_id txn_id) m.transactions)
    then (err internal, m)
    else if in_i64 (new_balance tenant v.amount_units m)
    then (
      ok v.amount_units,
      record (booked txn now m) {
        vouchers = update (takes code_hash now) (taken tenant now) m.vouchers;
      },
    )
    else (err internal, m)

-- `redeem_voucher`
unfoldable pub redeem_voucher : String → ℕ → ℕ → ℤ → Exec Money ℤ
unfolding first update booked
redeem_voucher code_hash tenant txn_id now m =
    redeemed code_hash tenant txn_id now m (first (takes code_hash now) m.vouchers)
