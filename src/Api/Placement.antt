-- ===== src/Api/Placement.antt =====
-- crates/api-server/src/nodes.rs: which nodes are taken for healthy, and the choice of one for a Cell.
use native.Mathlib.Nat.{mod-add-mod, add-mod_right, mod-eq_of_lt, mod-lt}
use combee.Prelude.{
  ℕ, zero, suc, ◌+◌, ◌-◌, ◌%◌, ◌^◌, ◌<◌, ◌≡◌, ap, sym, ◌∙◌, String, Bool, false, Option, none, some,
  List, [], ◌∷◌, leb, arith, length, if◌then◌else◌, Bool-cases, inl, inr,
}
use combee.Prelude.Int.{ℤ, pos, ◌-ℤ◌, ltb_ℤ}
use combee.Api.Nodes.{NodeEntry, NodeRegistry, find_entry, heartbeat_timeout}

-- `entry_healthy`
unfoldable pub entry_healthy : ℤ → NodeEntry → Bool
unfolding ◌-ℤ◌
entry_healthy now e = ltb_ℤ (now -ℤ e.last_heartbeat) (pos heartbeat_timeout)

unfoldable pub healthy_in : ℤ → List (ℕ × NodeEntry) → List (ℕ × String)
unfolding entry_healthy
healthy_in now [] = []
healthy_in now ((id, e) ∷ es) =
    let rest = healthy_in now es in if entry_healthy now e then (id, e.addr) ∷ rest else rest

-- The functions below are what the source does after `ensure_fresh`.
-- `is_healthy`
unfoldable pub is_healthy : ℕ → ℤ → NodeRegistry → Bool
unfolding find_entry entry_healthy
is_healthy id now g = elim (find_entry id g.inner) [ none ↦ false | some e ↦ entry_healthy now e ]

-- `addr`
unfoldable pub addr_of : ℕ → ℤ → NodeRegistry → Option String
unfolding find_entry entry_healthy
addr_of id now g = elim (find_entry id g.inner) [
  | none ↦ none
  | some e ↦ if entry_healthy now e then some e.addr else none
]

-- `healthy`
unfoldable pub healthy : ℤ → NodeRegistry → List (ℕ × String)
unfolding healthy_in
healthy now g = healthy_in now g.inner

-- `get(i).cloned()`
abbrev pub get_elem? : {A : Type 0} → List A → ℕ → Option A
get_elem? [] i = none
get_elem? (x ∷ xs) zero = some x
get_elem? (x ∷ xs) (suc i) = get_elem? xs i

abbrev pick_from : List (ℕ × String) → NodeRegistry → Option (ℕ × String) × NodeRegistry
pick_from [] g = (none, g)
pick_from (x ∷ xs) g =
    (get_elem? (x ∷ xs) (g.rr % length (x ∷ xs)), record g { rr = (g.rr + 1) % 2 ^ 64 })

-- `pick`
unfoldable pub pick : ℤ → NodeRegistry → Option (ℕ × String) × NodeRegistry
unfolding healthy
pick now g = pick_from (healthy now g) g

-- The registry after so many choices at one moment.
abbrev pub after_picks : ℤ → ℕ → NodeRegistry → NodeRegistry
after_picks now zero g = g
after_picks now (suc n) g = after_picks now n (pick now g).1

-- The turn at which the j-th of n comes, when the counter stands at r.
turn : (r j n : ℕ) → j < n → (k : ℕ) × (k < n) × ((r + k) % n ≡ j)
turn r j n h =
    let low : (r % n < n) = mod-lt r (omega arith) in
    elim (Bool-cases (leb (r % n) j)) [
      | inl q ↦ (
        j - r % n,
        ground (arith, h),
        sym (mod-add-mod r n (j - r % n)) ∙ ap (λ x. x % n) (ground (arith, q)) ∙ mod-eq_of_lt h,
      )
      | inr q ↦ (
        j + n - r % n,
        ground (arith, h, q),
        sym (mod-add-mod r n (j + n - r % n))
            ∙ ap (λ x. x % n) (ground (arith, q, low))
            ∙ add-mod_right j n
            ∙ mod-eq_of_lt h,
      )
    ]

pick_lem :
    (now : ℤ) (x : ℕ × String) (xs : List (ℕ × String)) (g : NodeRegistry)
    → healthy now g ≡ x ∷ xs
    → pick now g
      ≡ (get_elem? (x ∷ xs) (g.rr % length (x ∷ xs)), record g { rr = (g.rr + 1) % 2 ^ 64 })
unfolding pick
pick_lem now x xs g h = ap (λ l. pick_from l g) h

-- The choices leave the entries and move the counter.
after_picks_lem :
    (now : ℤ) (k : ℕ) (x : ℕ × String) (xs : List (ℕ × String)) (g : NodeRegistry)
    → healthy now g ≡ x ∷ xs
    → g.rr + k < 2 ^ 64
    → (healthy now (after_picks now k g) ≡ x ∷ xs) × ((after_picks now k g).rr ≡ g.rr + k)
unfolding healthy
after_picks_lem now zero x xs g h room = (h, omega arith)
after_picks_lem now (suc k) x xs g h room =
    let g' : NodeRegistry = record g { rr = (g.rr + 1) % 2 ^ 64 } in
    let rest = after_picks_lem now k x xs g' h (omega arith) in
    let step = ap (λ p. after_picks now k p.1) (pick_lem now x xs g h) in
    (ap (healthy now) step ∙ rest.0, ap (λ r. r.rr) step ∙ rest.1 ∙ omega arith)

-- Each healthy node is picked within as many picks at one moment as there are healthy nodes, while
-- the counter of picks stays below 2 ^ 64.
pub every_node_has_a_turn :
    (now : ℤ) (j : ℕ) (wanted : ℕ × String) (x : ℕ × String) (xs : List (ℕ × String))
    (g : NodeRegistry)
    → healthy now g ≡ x ∷ xs
    → j < length (x ∷ xs)
    → get_elem? (x ∷ xs) j ≡ some wanted
    → g.rr + length (x ∷ xs) < 2 ^ 64
    → (k : ℕ) × (k < length (x ∷ xs)) × ((pick now (after_picks now k g)).0 ≡ some wanted)
every_node_has_a_turn now j wanted x xs g h inside named room =
    let (k, early, hits) = turn g.rr j (length (x ∷ xs)) inside in
    let (still, counter) = after_picks_lem now k x xs g h (omega arith) in
    (
      k,
      early,
      ap (λ p. p.0) (pick_lem now x xs (after_picks now k g) still)
          ∙ ap (λ r. get_elem? (x ∷ xs) (r % length (x ∷ xs))) counter
          ∙ ap (get_elem? (x ∷ xs)) hits
          ∙ named,
    )
