-- ===== src/Tests/Money.antt =====
-- The ledger of credits: its theorems at a small ledger.
use combee.Prelude.{◌≡◌, refl, true, none, some, [], ◌==◌, arith, str_eq, if◌then◌else◌, List, ◌∷◌}
use combee.Prelude.Int.{pos, ◌+ℤ◌, in_i64}
use combee.Errors.{err, invalid_request}
use combee.Ledger.{
  CreditTransaction, CreditVoucher, Ledger, recharge, active, find_txn, append_credit_transaction,
  redeem_voucher,
}
use combee.Ledger.Pricing.{PricingRule, Prices, active as priced_active}
use combee.Ledger.Balance.{Balanced, balance_of, append_credit_transaction-Balanced}
use combee.Ledger.Vouchers.{redeem_voucher_once, Movement, book, redeem, after, voucher_at}
use combee.Usage.{storage_byte_secs}

abbrev pub gift : CreditVoucher
gift = record {
  id = 7;
  code_hash = "h";
  amount_units = pos 500;
  status = active;
  campaign = none;
  created_at = pos 0;
  expires_at = some (pos 90);
  redeemed_by = none;
  redeemed_at = none;
}

abbrev pub start : Ledger
start = record {
  credit_accounts = λ t. none;
  credit_transactions = [];
  credit_txn_by_ref = λ r. none;
  vouchers = λ id. if id == 7 then some gift else none;
  voucher_by_hash = λ h. if str_eq h "h" then some 7 else none;
}

start-Balanced : Balanced start
start-Balanced tenant = refl

abbrev pub top_up : CreditTransaction
top_up = record {
  id = 1;
  tenant_id = 4;
  txn_type = recharge;
  amount_units = pos 100;
  pricing_version = none;
  reference_id = some "pay:1";
  description = none;
  created_at = pos 10;
  balance_after = none;
}

append_credit_transaction-Balanced_example :
    Balanced (append_credit_transaction (pos 10) top_up start).1
append_credit_transaction-Balanced_example =
    append_credit_transaction-Balanced (pos 10) top_up start start-Balanced
      (unfold find_txn in refl) (unfold ◌+ℤ◌ in refl)

abbrev movements : List Movement
movements = book (pos 55) top_up ∷ redeem "h" 5 6 (pos 60) ∷ []

redeem_voucher_once_example :
    let l' = after movements (redeem_voucher "h" 4 3 (pos 50) start).1 in
    redeem_voucher "h" 5 8 (pos 70) l' ≡ (err invalid_request, l')
redeem_voucher_once_example =
    redeem_voucher_once "h" 4 5 3 8 (pos 50) (pos 70) (pos 500) movements start
      (unfold redeem_voucher in refl)

gift_fits :
    (v : CreditVoucher)
    → voucher_at "h" start ≡ some v
    → in_i64 (balance_of 4 start +ℤ v.amount_units) ≡ true
unfolding ◌+ℤ◌
gift_fits v p = ground (arith, p)

abbrev storage_rule : PricingRule
storage_rule = record {
  pricing_version = pos 2;
  metric = storage_byte_secs;
  unit_size = pos 1000;
  price_units = pos 10;
}

abbrev old_prices : Prices
old_prices = record {
  pricing_versions =
      record { version = pos 1; status = priced_active; effective_at = pos 0; created_at = pos 0 }
      ∷ [];
  pricing_rules = λ v. [];
}
