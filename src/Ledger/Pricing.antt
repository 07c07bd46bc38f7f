-- ===== src/Ledger/Pricing.antt =====
-- crates/common/src/credit.rs and crates/metadata/src/store.rs: what usage costs, and the versions of
-- the prices of which one is active.
use combee.Prelude.{
  ℕ, ◌*◌, ◌/◌, ◌^◌, ◌-◌, ◌≡◌, refl, Bool, true, false, Option, none, some, List, [], ◌∷◌, map,
  arith, ◌==◌, ◌||◌, min, if◌then◌else◌,
}
use combee.Prelude.Int.{ℤ, pos, negsuc, pos_part, leb_ℤ, eq_ℤ, max_ℤ, wrapping_add}
use combee.Usage.{UsageMetric}

pub data PricingStatus : Type 0 where
  active inactive : PricingStatus

pub record PricingVersion : Type 0 where
  pub version : ℤ
  pub status : PricingStatus
  pub effective_at : ℤ
  pub created_at : ℤ

-- `PricingConfig::rate`, for the rule of its metric: the size of a unit and its price.
unfoldable pub rate : Option (ℤ × ℤ) → ℕ → ℤ
rate none units = pos 0
rate (some (unit_size, price_units)) units =
    if leb_ℤ unit_size (pos 0) || (leb_ℤ price_units (pos 0) || units == 0)
    then pos 0
    else pos (min (units * pos_part price_units / pos_part unit_size) (2 ^ 63 - 1))

pub record PricingRule : Type 0 where
  pub pricing_version : ℤ
  pub metric : UsageMetric
  pub unit_size : ℤ
  pub price_units : ℤ

-- The values of `pricing_versions`, and `pricing_rules`.
pub record Prices : Type 0 where
  pub pricing_versions : List PricingVersion
  pub pricing_rules : ℤ → List PricingRule

abbrev pub greatest : List PricingVersion → ℤ
greatest [] = pos 0
greatest (v ∷ []) = v.version
greatest (v ∷ w ∷ vs) = max_ℤ v.version (greatest (w ∷ vs))

abbrev pub retired : PricingVersion → PricingVersion
retired v = record v { status = inactive }

-- `pricing_versions.insert`
unfoldable pub put_version : PricingVersion → List PricingVersion → List PricingVersion
put_version r [] = r ∷ []
put_version r (v ∷ vs) =
    let rest = put_version r vs in if eq_ℤ v.version r.version then r ∷ vs else v ∷ rest

-- `InMemoryStore::create_pricing_version`
unfoldable pub create_pricing_version : List PricingRule → ℤ → Prices → PricingVersion × Prices
unfolding put_version wrapping_add
create_pricing_version rules now p =
    let version = wrapping_add (greatest p.pricing_versions) (pos 1) in
    let r : PricingVersion = record {
      version = version;
      status = active;
      effective_at = now;
      created_at = now;
    } in
    (
      r,
      record {
        pricing_versions = put_version r (map retired p.pricing_versions);
        pricing_rules = λ v. if eq_ℤ version v then rules else p.pricing_rules v;
      },
    )

abbrev pub is_active : PricingStatus → Bool
is_active active = true
is_active inactive = false

unfoldable pub find_active : List PricingVersion → Option PricingVersion
find_active [] = none
find_active (v ∷ vs) = let rest = find_active vs in if is_active v.status then some v else rest

abbrev pub no_pricing : PricingVersion
no_pricing = record { version = pos 0; status = active; effective_at = pos 0; created_at = pos 0 }

-- `InMemoryStore::get_active_pricing`
unfoldable pub get_active_pricing : Prices → PricingVersion × List PricingRule
unfolding find_active
get_active_pricing p = elim (find_active p.pricing_versions) [
  | none ↦ (no_pricing, [])
  | some v ↦ (v, p.pricing_rules v.version)
]

find_active-put_version :
    (r : PricingVersion) (vs : List PricingVersion)
    → is_active r.status ≡ true
    → find_active (put_version r (map retired vs)) ≡ some r
unfolding find_active put_version
find_active-put_version r [] h = ground (arith, h)
find_active-put_version r (v ∷ vs) h = ground (arith, h, find_active-put_version r vs h)

-- A new version of the prices is the active one, with its own rules.
pub get_active_pricing-create_pricing_version :
    (rules : List PricingRule) (now : ℤ) (p : Prices)
    → get_active_pricing (create_pricing_version rules now p).1
      ≡ ((create_pricing_version rules now p).0, rules)
unfolding get_active_pricing create_pricing_version
get_active_pricing-create_pricing_version rules now p =
    let r = (create_pricing_version rules now p).0 in
    ground (arith, find_active-put_version r p.pricing_versions refl, eq_same r.version)
  where
    eq_same : (a : ℤ) → eq_ℤ a a ≡ true
    eq_same (pos n) = ground arith
    eq_same (negsuc n) = ground arith
