-- ===== src/Manager/Lru.antt =====
-- crates/data-node/src/manager.rs: which connection an opening closes.
use combee.Prelude.{
  ℕ, ◌≤◌, ◌<◌, ◌≡◌, refl, ◌∙◌, ◌⊎◌, true, false, List, [], ◌∷◌, length, arith, ltb, leb, ◌==◌,
  Bool-cases, inl, inr, if◌then◌else◌,
}
use combee.Errors.{ok}
use combee.Manager.{Entry, Manager, Opening, is_open, oldest, evict_lru, acquire}
use combee.Manager.Bounds.{IsValid, is_open-remove}

-- No entry was used before the moment `t`.
abbrev pub AllSince : ℕ → List Entry → Type 0
AllSince t [] = Unit
AllSince t (e ∷ es) = (t ≤ e.last_used) × AllSince t es

abbrev pub Holds : Entry → List Entry → Type 0
Holds v [] = ⊥
Holds v (e ∷ es) = (v ≡ e) ⊎ Holds v es

AllSince-mono : (s t : ℕ) (es : List Entry) → s ≤ t → AllSince t es → AllSince s es
AllSince-mono s t [] le h = tt
AllSince-mono s t (e ∷ es) le h = (omega (arith, h.0), AllSince-mono s t es le h.1)

oldest-AllSince : (e : Entry) (es : List Entry) → AllSince (oldest e es).last_used (e ∷ es)
unfolding oldest
oldest-AllSince e [] = omega arith
oldest-AllSince e (f ∷ fs) =
    let h = oldest-AllSince (if ltb f.last_used e.last_used then f else e) fs in
    (ground (arith, h.0), (ground (arith, h.0), h.1))

Holds-oldest : (e : Entry) (es : List Entry) → Holds (oldest e es) (e ∷ es)
unfolding oldest
Holds-oldest e [] = inl refl
Holds-oldest e (f ∷ fs) = elim (Holds-oldest (if ltb f.last_used e.last_used then f else e) fs) [
  | inl p ↦ elim (Bool-cases (ltb f.last_used e.last_used)) [
    | inl x ↦ inr (inl (p ∙ ground arith))
    | inr x ↦ inl (p ∙ ground arith)
  ]
  | inr h ↦ inr (inr h)
]

-- The eviction removes one entry, used no later than any other.
evict_lru_lem :
    (es : List Entry)
    → 0 < length es
    → (v : Entry) × Holds v es
      × AllSince v.last_used es
      × ((j : ℕ) → is_open j (evict_lru es) ≡ (if v.id == j then false else is_open j es))
unfolding evict_lru
evict_lru_lem [] h = absurd (omega arith)
evict_lru_lem (e ∷ es) h = (
  oldest e es,
  Holds-oldest e es,
  oldest-AllSince e es,
  λ j. is_open-remove (oldest e es).id j (e ∷ es),
)

module _ {Cell : Type 0} where
  -- In a valid manager at its limit, a Cell without a connection that opens well takes the place
  -- of a Cell used no later than any other open one; every other connection stays.
  pub acquire_at_limit :
      (db : ℕ) (o : Opening) (m : Manager Cell)
      → IsValid m
      → is_open db m.conns ≡ false
      → o.opened ≡ ok tt
      → o.format ≡ ok tt
      → m.max_active ≤ length m.conns
      → (v : Entry) × Holds v m.conns
        × AllSince v.last_used m.conns
        × ((j : ℕ)
            → is_open j (acquire db o m).1.conns
              ≡ (if db == j then true else if v.id == j then false else is_open j m.conns))
  unfolding acquire
  acquire_at_limit db o m valid closed opens formatted full =
      let (v, held, least, rest) = evict_lru_lem m.conns (omega (arith, valid.positive)) in
      let e : leb m.max_active (length m.conns) ≡ true = ground arith in
      (v, held, least, λ j. ground (arith, rest j))

  -- While there are fewer connections than the limit, a call on any Cell closes none.
  acquire_below_limit :
      (db : ℕ) (o : Opening) (m : Manager Cell) (j : ℕ)
      → length m.conns < m.max_active
      → is_open j m.conns ≡ true
      → is_open j (acquire db o m).1.conns ≡ true
  unfolding acquire
  acquire_below_limit db o m j room found = ground arith
