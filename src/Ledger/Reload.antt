-- ===== src/Ledger/Reload.antt =====
-- crates/api-server/src/pricing.rs: the manager that holds the active prices and takes over a new
-- version while requests run.
use combee.Prelude.{
  ℕ, ◌≡◌, refl, Bool, true, false, Option, none, some, List, [], ◌∷◌, ◌||◌, arith, if◌then◌else◌,
  Bool-cases, inl, inr,
}
use combee.Prelude.Int.{ℤ, pos, negsuc, leb_ℤ, ltb_ℤ, eq_ℤ, ◌<ℤ◌}
use combee.Errors.{Result, ok, err}
use combee.Usage.{UsageMetric, eq_metric, storage_byte_secs}
use combee.Usage.Flush.{eq_ℤ→eq}
use combee.Ledger.Pricing.{
  PricingVersion, PricingRule, Prices, is_active, rate, get_active_pricing, create_pricing_version,
  get_active_pricing-create_pricing_version,
}

pub record PricingConfig : Type 0 where
  pub version : ℤ
  pub effective_at : ℤ
  pub rules : UsageMetric → Option (ℤ × ℤ)

-- `PricingConfig::empty`
abbrev pub empty : PricingConfig
empty = record { version = pos 0; effective_at = pos 0; rules = λ m. none }

-- `PricingManager::rate`, over the configuration it holds.
unfoldable pub rate_by : PricingConfig → UsageMetric → ℕ → ℤ
unfolding rate
rate_by c metric units = rate (c.rules metric) units

unfoldable pub has_invalid : List PricingRule → Bool
has_invalid [] = false
has_invalid (r ∷ rs) = leb_ℤ r.unit_size (pos 0) || (leb_ℤ r.price_units (pos 0) || has_invalid rs)

-- `for r in &rules { map.insert(r.metric, (r.unit_size, r.price_units)) }`
unfoldable pub insert_rules :
    List PricingRule → (UsageMetric → Option (ℤ × ℤ)) → UsageMetric → Option (ℤ × ℤ)
insert_rules [] rules = rules
insert_rules (r ∷ rs) rules =
    insert_rules rs
      (λ m. if eq_metric r.metric m then some (r.unit_size, r.price_units) else rules m)

abbrev pub refresh_to : PricingVersion → List PricingRule → PricingConfig → Bool × PricingConfig
refresh_to v rs c =
    if is_active v.status
    then (if has_invalid rs then (false, c) else if eq_ℤ c.version v.version then (false, c) else (
      true,
      record {
        version = v.version;
        effective_at = v.effective_at;
        rules = insert_rules rs (λ m. none);
      },
    ))
    else (false, c)

-- `PricingManager::refresh`, given what `get_active_pricing` answers.
unfoldable pub refresh :
    Result (PricingVersion × List PricingRule) → PricingConfig → Result Bool × PricingConfig
unfolding has_invalid insert_rules
refresh (err e) c = (err e, c)
refresh (ok (v, rs)) c = let (changed, c') = refresh_to v rs c in (ok changed, c')

-- `DEFAULT_STORAGE_PRICE_UNITS_PER_GB_HOUR` and `BYTE_SECS_PER_GB_HOUR`
abbrev default_storage_price : ℤ
default_storage_price = pos 10000

abbrev byte_secs_per_gb_hour : ℤ
byte_secs_per_gb_hour = pos 3600000000000

abbrev price_or_default : Option ℤ → ℤ
price_or_default none = default_storage_price
price_or_default (some p) = if ltb_ℤ (pos 0) p then p else default_storage_price

-- `seed_default_pricing` on the in-memory store; the first argument is the number that the
-- environment gives, if it gives one.
unfoldable pub seed_default_pricing : Option ℤ → ℤ → Prices → Prices
unfolding get_active_pricing create_pricing_version
seed_default_pricing price now p =
    if ltb_ℤ (pos 0) (get_active_pricing p).0.version
    then p
    else (create_pricing_version
        (record {
          pricing_version = pos 0;
          metric = storage_byte_secs;
          unit_size = byte_secs_per_gb_hour;
          price_units = price_or_default price;
        }
          ∷ [])
        now p).1

-- Every rule has a positive unit and a positive price.
abbrev pub IsPositive : (UsageMetric → Option (ℤ × ℤ)) → Type 0
IsPositive rules = (m : UsageMetric) (u p : ℤ) → rules m ≡ some (u, p) → (pos 0 <ℤ u) × (pos 0 <ℤ p)

insert_rules-IsPositive :
    (rs : List PricingRule) (rules : UsageMetric → Option (ℤ × ℤ))
    → has_invalid rs ≡ false
    → IsPositive rules
    → IsPositive (insert_rules rs rules)
unfolding insert_rules has_invalid
insert_rules-IsPositive [] rules h good = good
insert_rules-IsPositive (r ∷ rs) rules h good =
    insert_rules-IsPositive rs _ (ground (arith, h)) (λ m u p q.
      elim (Bool-cases (eq_metric r.metric m)) [
        | inl e ↦ (ground (arith, h, e, q), ground (arith, h, e, q))
        | inr e ↦ good m u p (ground (arith, e, q))
      ])

-- A manager whose rules all have a positive unit and a positive price has such rules after every
-- refresh, whatever the store answers.
pub refresh-IsPositive :
    (answer : Result (PricingVersion × List PricingRule)) (c : PricingConfig)
    → IsPositive c.rules
    → IsPositive (refresh answer c).1.rules
unfolding refresh
refresh-IsPositive (err e) c good m u p h = good m u p h
refresh-IsPositive (ok (v, rs)) c good m u p h = elim (Bool-cases (has_invalid rs)) [
  | inl q ↦ good m u p (ground (arith, h, q))
  | inr q ↦
      let loaded = insert_rules-IsPositive rs (λ m. none) q (λ m u p x. ground (arith, x)) m u p in
      (ground (arith, h, q, good m u p, loaded), ground (arith, h, q, good m u p, loaded))
]

eq_ℤ_refl : (a : ℤ) → eq_ℤ a a ≡ true
eq_ℤ_refl (pos n) = ground arith
eq_ℤ_refl (negsuc n) = ground arith

refresh_valid :
    (v : PricingVersion) (rs : List PricingRule) (c : PricingConfig)
    → is_active v.status ≡ true
    → has_invalid rs ≡ false
    → let loaded = refresh (ok (v, rs)) c in
      (loaded.1.version ≡ v.version) × (refresh (ok (v, rs)) loaded.1 ≡ (ok false, loaded.1))
unfolding refresh
refresh_valid v rs c live valid = elim (Bool-cases (eq_ℤ c.version v.version)) [
  | inl q ↦ (
    ground (arith, live, valid, q, eq_ℤ→eq c.version v.version q),
    ground (arith, live, valid, q),
  )
  | inr q ↦ (ground (arith, live, valid, q), ground (arith, live, valid, q, eq_ℤ_refl v.version))
]

-- After a version with valid rules is made, a refresh of any manager leaves it at that version,
-- and a second refresh changes nothing.
pub refresh-create_pricing_version :
    (rules : List PricingRule) (now : ℤ) (p : Prices) (c : PricingConfig)
    → has_invalid rules ≡ false
    → let made = create_pricing_version rules now p in
      let loaded = refresh (ok (get_active_pricing made.1)) c in
      (loaded.1.version ≡ made.0.version)
      × (refresh (ok (get_active_pricing made.1)) loaded.1 ≡ (ok false, loaded.1))
refresh-create_pricing_version rules now p c valid =
    rw (get_active_pricing-create_pricing_version rules now p) (
      refresh_valid (create_pricing_version rules now p).0 rules c
        (unfold create_pricing_version in refl) valid)
