-- ===== src/Api/Guards.antt =====
-- crates/api-server/src/quota.rs: the counters of concurrent requests against the guards that are held,
-- and what the middleware makes of them.
use Prim.Native.String.{String}
use combee.Prelude.{
  ℕ, suc, ◌+◌, ◌-◌, ◌≤◌, ◌<◌, ◌≡◌, refl, ap, ◌∙◌, Bool, true, false, Option, none, some, List, [],
  ◌∷◌, ◌==◌, ◌&&◌, ltb, leb, arith, str_eq, eq_iff, if◌then◌else◌, Bool-cases, inl, inr,
}
use combee.Api.Quotas.{ConcurrencyCounters, inflight, count_of, try_enter, drop_guard, decremented}

-- Requests that hold their guards: one enters with a key, one that holds a guard of the key drops it.
pub data CounterEvent : Type 0 where
  entered dropped : String → CounterEvent

abbrev pub holds : String → List String → ℕ
holds key [] = 0
holds key (k ∷ ks) = let rest = holds key ks in if str_eq k key then suc rest else rest

abbrev pub release : String → List String → List String
release key [] = []
release key (k ∷ ks) = let rest = release key ks in if str_eq k key then ks else k ∷ rest

-- The keys of the guards held, and the counters.
pub record InFlight : Type 0 where
  pub held : List String
  pub counters : ConcurrencyCounters

abbrev pub after_event : (String → ℕ) → CounterEvent → InFlight → InFlight
after_event max (entered key) f =
    let (given, m) = try_enter key (max key) f.counters in
    record { held = if given then key ∷ f.held else f.held; counters = m }
after_event max (dropped key) f =
    if holds key f.held == 0
    then f
    else record { held = release key f.held; counters = drop_guard key f.counters }

abbrev pub after_all : (String → ℕ) → List CounterEvent → InFlight → InFlight
after_all max [] f = f
after_all max (e ∷ es) f = after_all max es (after_event max e f)

-- The counters tell how many guards of each key are held, and no limit is passed.
abbrev pub IsTrue : (String → ℕ) → InFlight → Type 0
IsTrue max f =
    (key : String)
    → (inflight key f.counters ≡ holds key f.held)
      × (0 < max key → inflight key f.counters ≤ max key)

pub str_eq→eq : (a b : String) → str_eq a b ≡ true → a ≡ b
str_eq→eq a b h = ground (arith, h, eq_iff a b)

holds-release :
    (key j : String) (ks : List String)
    → holds j (release key ks) ≡ (if str_eq key j then holds j ks - 1 else holds j ks)
holds-release key j [] = ground arith
holds-release key j (k ∷ ks) = elim (Bool-cases (str_eq k key)) [
  | inl q ↦ ground (arith, q, ap (λ x. str_eq x j) (str_eq→eq k key q))
  | inr q ↦ elim (Bool-cases (str_eq key j)) [
    | inl p ↦ ground (arith, q, p, holds-release key j ks, ap (λ x. str_eq k x) (str_eq→eq key j p))
    | inr p ↦ ground (arith, q, p, holds-release key j ks)
  ]
]

enter-IsTrue :
    (max : String → ℕ) (key : String) (f : InFlight)
    → IsTrue max f
    → IsTrue max (after_event max (entered key) f)
unfolding try_enter
enter-IsTrue max key f h j = elim (Bool-cases (str_eq key j)) [
  | inl q ↦
      let same : (key ≡ j) = str_eq→eq key j q in
      (
        ground (arith, q, h j, ap (λ x. inflight x f.counters) same),
        λ p. ground (arith, q, h j, p, ap (λ x. inflight x f.counters) same, ap max same),
      )
  | inr q ↦ (ground (arith, q, h j), λ p. ground (arith, q, h j, p))
]

leave-IsTrue :
    (max : String → ℕ) (key : String) (f : InFlight)
    → IsTrue max f
    → IsTrue max (after_event max (dropped key) f)
unfolding drop_guard
leave-IsTrue max key f h j = elim (Bool-cases (holds key f.held == 0)) [
  | inl z ↦ (ground (arith, z, h j), λ p. ground (arith, z, h j, p))
  | inr z ↦ elim (Bool-cases (str_eq key j)) [
    | inl q ↦
        let same = ap (λ x. f.counters x) (str_eq→eq key j q) in
        (
          ground (arith, z, q, h j, same, holds-release key j f.held),
          λ p. ground (arith, z, q, h j, p, same),
        )
    | inr q ↦
        (ground (arith, z, q, h j, holds-release key j f.held), λ p. ground (arith, z, q, h j, p))
  ]
]

-- Let requests enter under limits that depend on the key alone, and drop guards that they hold, in
-- every order. If the counters tell how many guards of each key are held, none above a positive
-- limit, they do so afterwards.
pub after_all-IsTrue :
    (max : String → ℕ) (es : List CounterEvent) (f : InFlight)
    → IsTrue max f
    → IsTrue max (after_all max es f)
after_all-IsTrue max [] f h = h
after_all-IsTrue max (entered key ∷ es) f h = after_all-IsTrue max es _ (enter-IsTrue max key f h)
after_all-IsTrue max (dropped key ∷ es) f h = after_all-IsTrue max es _ (leave-IsTrue max key f h)

count_of-decremented : (o : Option ℕ) → count_of (decremented o) ≡ count_of o - 1
count_of-decremented none = omega arith
count_of-decremented (some n) = ground arith

count_of_if :
    (b : Bool) (n o : Option ℕ)
    → count_of (if b then n else o) ≡ (if b then count_of n else count_of o)
count_of_if true n o = refl
count_of_if false n o = refl

-- A test on equal keys may speak of either.
if_same :
    (key j : String) (f : String → ℕ) (n : ℕ)
    → (if str_eq key j then f key else n) ≡ (if str_eq key j then f j else n)
if_same key j f n = elim (Bool-cases (str_eq key j)) [
  | inl q ↦ rw q (ap f (str_eq→eq key j q))
  | inr q ↦ rw q refl
]

pub inflight-drop_guard :
    (key j : String) (m : ConcurrencyCounters)
    → inflight j (drop_guard key m) ≡ (if str_eq key j then inflight j m - 1 else inflight j m)
unfolding drop_guard
inflight-drop_guard key j m =
    count_of_if (str_eq key j) (decremented (m key)) (m j)
    ∙ ap (λ n. if str_eq key j then n else inflight j m) (count_of-decremented (m key))
    ∙ if_same key j (λ k. inflight k m - 1) (inflight j m)

pub inflight-try_enter :
    (key j : String) (max : ℕ) (m : ConcurrencyCounters)
    → (try_enter key max m).0 ≡ true
    → inflight j (try_enter key max m).1 ≡ (if str_eq key j then inflight j m + 1 else inflight j m)
unfolding try_enter
inflight-try_enter key j max m given = elim (Bool-cases (ltb 0 max && leb max (inflight key m))) [
  | inl q ↦ ground (arith, given, q)
  | inr q ↦
      rw (q, try_enter)
        (count_of_if (str_eq key j) (some (inflight key m + 1)) (m j)
          ∙ if_same key j (λ k. inflight k m + 1) (inflight j m))
]
