-- ===== src/Ledger.antt =====
-- crates/common/src/credit.rs and the part of crates/metadata/src/store.rs that keeps the money:
-- accounts, the append-only ledger and vouchers of `InMemoryStore`. Its mutex makes each operation
-- one step. The identifiers that the source draws at random are arguments.
pub mod Balance
pub mod Vouchers
pub mod Pricing
pub mod Reload
use Prim.Native.String.{◌++◌ as append}
use combee.Prelude.{
  ℕ, String, Bool, true, false, Option, none, some, List, [], ◌∷◌, ◌==◌, str_eq, if◌then◌else◌,
}
use combee.Prelude.Int.{ℤ, pos, ltb_ℤ, saturating_add, ◌+ℤ◌}
use combee.Errors.{Result, ok, err, invalid_request}
use combee.Exec.{Exec}

pub data CreditTransactionType : Type 0 where
  recharge usage grant voucher refund adjustment : CreditTransactionType

pub record CreditTransaction : Type 0 where
  pub id : ℕ
  pub tenant_id : ℕ
  pub txn_type : CreditTransactionType
  pub amount_units : ℤ
  pub pricing_version : Option ℤ
  pub reference_id : Option String
  pub description : Option String
  pub created_at : ℤ
  pub balance_after : Option ℤ

pub record CreditAccount : Type 0 where
  pub tenant_id : ℕ
  pub balance_units : ℤ
  pub reserved_units : ℤ
  pub updated_at : ℤ

pub data VoucherStatus : Type 0 where
  active used expired revoked : VoucherStatus

pub record CreditVoucher : Type 0 where
  pub id : ℕ
  pub code_hash : String
  pub amount_units : ℤ
  pub status : VoucherStatus
  pub campaign : Option String
  pub created_at : ℤ
  pub expires_at : Option ℤ
  pub redeemed_by : Option ℕ
  pub redeemed_at : Option ℤ

-- The fields of `InMemoryInner` that concern money: a map is a function, but the ledger, which is
-- summed, is the list of its values.
pub record Ledger : Type 0 where
  pub credit_accounts : ℕ → Option CreditAccount
  pub credit_transactions : List CreditTransaction
  pub credit_txn_by_ref : String → Option ℕ
  pub vouchers : ℕ → Option CreditVoucher
  pub voucher_by_hash : String → Option ℕ

-- `insert` of a `HashMap`.
abbrev pub insert_at {ℓ} : {A : Type ℓ} → (ℕ → Option A) → ℕ → A → ℕ → Option A
insert_at m k v j = if k == j then some v else m j

abbrev pub insert_named : (String → Option ℕ) → String → ℕ → String → Option ℕ
insert_named m k v j = if str_eq k j then some v else m j

-- `credit_transactions.get` and `credit_transactions.insert`.
unfoldable pub find_txn : ℕ → List CreditTransaction → Option CreditTransaction
find_txn id [] = none
find_txn id (t ∷ ts) = let rest = find_txn id ts in if t.id == id then some t else rest

unfoldable pub without_txn : ℕ → List CreditTransaction → List CreditTransaction
without_txn id [] = []
without_txn id (t ∷ ts) = let rest = without_txn id ts in if t.id == id then rest else t ∷ rest

unfoldable pub insert_txn : CreditTransaction → List CreditTransaction → List CreditTransaction
unfolding without_txn
insert_txn t ts = t ∷ without_txn t.id ts

-- `entry(tenant).or_insert_with(…)`
abbrev pub or_new_account : ℕ → ℤ → Option CreditAccount → CreditAccount
or_new_account tenant now none = record {
  tenant_id = tenant;
  balance_units = pos 0;
  reserved_units = pos 0;
  updated_at = now;
}
or_new_account tenant now (some a) = a

abbrev pub credited : ℤ → ℤ → CreditAccount → CreditAccount
credited amount now a = record a {
  balance_units = saturating_add a.balance_units amount;
  updated_at = now;
}

-- `InMemoryStore::get_credit_account`
unfoldable pub get_credit_account : ℕ → ℤ → Ledger → CreditAccount × Ledger
get_credit_account tenant now l =
    let a = or_new_account tenant now (l.credit_accounts tenant) in
    (a, record l { credit_accounts = insert_at l.credit_accounts tenant a })

abbrev pub found_by : Option ℕ → List CreditTransaction → Option CreditTransaction
found_by none ts = none
found_by (some id) ts = find_txn id ts

-- `InMemoryStore::find_transaction_by_reference`
unfoldable pub find_transaction_by_reference : String → Ledger → Option CreditTransaction
unfolding find_txn
find_transaction_by_reference r l = found_by (l.credit_txn_by_ref r) l.credit_transactions

-- The entry that already has the reference of a transaction.
abbrev pub existing : Option String → Ledger → Option CreditTransaction
existing none l = none
existing (some r) l = find_transaction_by_reference r l

abbrev pub named : Option String → ℕ → (String → Option ℕ) → String → Option ℕ
named none id m = m
named (some r) id m = insert_named m r id

-- The part of `append_credit_transaction` after the look for an entry with the reference.
unfoldable pub booked : ℤ → CreditTransaction → Ledger → CreditTransaction × Ledger
unfolding insert_txn
booked now txn l =
    let a =
      credited txn.amount_units now
        (or_new_account txn.tenant_id now (l.credit_accounts txn.tenant_id)) in
    let t = record txn { balance_after = some a.balance_units } in
    (
      t,
      record l {
        credit_accounts = insert_at l.credit_accounts txn.tenant_id a;
        credit_txn_by_ref = named txn.reference_id txn.id l.credit_txn_by_ref;
        credit_transactions = insert_txn t l.credit_transactions;
      },
    )

-- `InMemoryStore::append_credit_transaction`
unfoldable pub append_credit_transaction :
    ℤ → CreditTransaction → Ledger → CreditTransaction × Ledger
unfolding booked find_transaction_by_reference
append_credit_transaction now txn l = elim (existing txn.reference_id l) [
  | some t ↦ (t, l)
  | none ↦ booked now txn l
]

abbrev pub is_active : VoucherStatus → Bool
is_active active = true
is_active used = false
is_active expired = false
is_active revoked = false

abbrev pub has_passed : Option ℤ → ℤ → Bool
has_passed none now = false
has_passed (some e) now = ltb_ℤ e now

abbrev pub voucher_of : Option ℕ → (ℕ → Option CreditVoucher) → Option CreditVoucher
voucher_of none m = none
voucher_of (some id) m = m id

abbrev pub voucher_reference : String → String
voucher_reference code_hash = append "voucher:" code_hash

abbrev redeemed : ℕ → ℤ → CreditVoucher → CreditVoucher
redeemed tenant now v = record v {
  status = used;
  redeemed_by = some tenant;
  redeemed_at = some now;
}

-- The part of `redeem_voucher` after its checks; `txn_id` is the new identifier.
unfoldable pub redeemed_ledger : String → ℕ → CreditVoucher → ℕ → ℕ → ℤ → Ledger → Ledger
unfolding insert_txn
redeemed_ledger code_hash id v tenant txn_id now l =
    let a = credited v.amount_units now (or_new_account tenant now (l.credit_accounts tenant)) in
    let t : CreditTransaction = record {
      id = txn_id;
      tenant_id = tenant;
      txn_type = voucher;
      amount_units = v.amount_units;
      pricing_version = none;
      reference_id = some (voucher_reference code_hash);
      description = some "voucher redemption";
      created_at = now;
      balance_after = some a.balance_units;
    } in
    record l {
      credit_accounts = insert_at l.credit_accounts tenant a;
      vouchers = insert_at l.vouchers id (redeemed tenant now v);
      credit_txn_by_ref = insert_named l.credit_txn_by_ref (voucher_reference code_hash) txn_id;
      credit_transactions = insert_txn t l.credit_transactions;
    }

abbrev redeem_at : String → ℕ → ℕ → ℤ → Option ℕ → Exec Ledger ℤ
redeem_at code_hash tenant txn_id now none l = (err invalid_request, l)
redeem_at code_hash tenant txn_id now (some id) l = elim (l.vouchers id) [
  | none ↦ (err invalid_request, l)
  | some v ↦
      if is_active v.status
      then (if has_passed v.expires_at now
          then (err invalid_request, l)
          else (ok v.amount_units, redeemed_ledger code_hash id v tenant txn_id now l))
      else (err invalid_request, l)
]

-- `InMemoryStore::redeem_voucher`
unfoldable pub redeem_voucher : String → ℕ → ℕ → ℤ → Exec Ledger ℤ
unfolding redeemed_ledger
redeem_voucher code_hash tenant txn_id now l =
    redeem_at code_hash tenant txn_id now (l.voucher_by_hash code_hash) l
