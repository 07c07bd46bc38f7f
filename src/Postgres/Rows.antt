-- ===== src/Postgres/Rows.antt =====
-- The statements of SQL that crates/metadata/src/postgres.rs sends, on a table as the list of its rows:
-- SELECT, UPDATE and DELETE with a condition, and how many rows a condition holds of. Their order is not
-- meant.
use combee.Prelude.{
  ℕ, ◌+◌, ◌≤◌, ◌≡◌, refl, Bool, true, false, not, ◌&&◌, Option, none, some, List, [], ◌∷◌, arith,
  if◌then◌else◌, Bool-cases, inl, inr,
}

module _ {R : Type 0} where
  -- The row that a condition on a key finds.
  unfoldable pub first : (R → Bool) → List R → Option R
  first p [] = none
  first p (r ∷ rs) = let rest = first p rs in if p r then some r else rest

  unfoldable pub select : (R → Bool) → List R → List R
  select p [] = []
  select p (r ∷ rs) = let rest = select p rs in if p r then r ∷ rest else rest

  -- `UPDATE … SET … WHERE …`
  unfoldable pub update : (R → Bool) → (R → R) → List R → List R
  update p f [] = []
  update p f (r ∷ rs) = (if p r then f r else r) ∷ update p f rs

  -- `DELETE FROM … WHERE …`
  unfoldable pub delete : (R → Bool) → List R → List R
  delete p [] = []
  delete p (r ∷ rs) = let rest = delete p rs in if p r then rest else r ∷ rest

  -- `rows_affected`
  unfoldable pub affected : (R → Bool) → List R → ℕ
  affected p [] = 0
  affected p (r ∷ rs) = let rest = affected p rs in if p r then 1 + rest else rest

  abbrev pub mapped : (R → Bool) → (R → R) → Option R → Option R
  mapped p f none = none
  mapped p f (some r) = if p r then some (f r) else some r

  abbrev pub kept : (R → Bool) → Option R → Option R
  kept p none = none
  kept p (some r) = if p r then none else some r

  pub first-update :
      (q p : R → Bool) (f : R → R) (rs : List R)
      → ((r : R) → q (f r) ≡ q r)
      → first q (update p f rs) ≡ mapped p f (first q rs)
  unfolding first update
  first-update q p f [] same = refl
  first-update q p f (r ∷ rs) same = ground (arith, same r, first-update q p f rs same)

  pub affected-none : (p : R → Bool) (rs : List R) → first p rs ≡ none → affected p rs ≡ 0
  unfolding first affected
  affected-none p [] h = refl
  affected-none p (r ∷ rs) h = ground (arith, h, affected-none p rs)

  pub affected-some :
      (p : R → Bool) (rs : List R) (r : R)
      → first p rs ≡ some r
      → (p r ≡ true) × (1 ≤ affected p rs)
  unfolding first affected
  affected-some p [] r h = ground (arith, h)
  affected-some p (r' ∷ rs) r h = ground (arith, h, affected-some p rs r)

  first-none : (p : R → Bool) (rs : List R) → affected p rs ≡ 0 → first p rs ≡ none
  unfolding first affected
  first-none p [] h = refl
  first-none p (r ∷ rs) h = ground (arith, h, first-none p rs)

  pub first-delete-none :
      (q p : R → Bool) (rs : List R) → first q rs ≡ none → first q (delete p rs) ≡ none
  unfolding first delete
  first-delete-none q p [] h = refl
  first-delete-none q p (r ∷ rs) h = ground (arith, h, first-delete-none q p rs)

  -- Where a key is met once, a deletion leaves its row or nothing of it.
  pub first-delete :
      (q p : R → Bool) (rs : List R)
      → affected q rs ≤ 1
      → first q (delete p rs) ≡ kept p (first q rs)
  unfolding first delete affected
  first-delete q p [] once = refl
  first-delete q p (r ∷ rs) once =
      ground (arith, once, first-delete q p rs, first-delete-none q p rs, first-none q rs)

  key_met :
      (key p : R → Bool) (rs : List R) (a : R)
      → first p rs ≡ some a
      → key a ≡ true
      → 1 ≤ affected key rs
  unfolding first affected
  key_met key p [] a h k = ground (arith, h)
  key_met key p (r ∷ rs) a h k = ground (arith, h, k, key_met key p rs a)

  pub affected_le :
      (p q : R → Bool) (rs : List R)
      → ((r : R) → p r ≡ true → q r ≡ true)
      → affected p rs ≤ affected q rs
  unfolding affected
  affected_le p q [] h = omega arith
  affected_le p q (r ∷ rs) h = ground (arith, h r, affected_le p q rs h)

  -- A stronger condition finds nothing where the weaker one does not.
  pub first_stronger :
      (p q : R → Bool) (rs : List R)
      → ((r : R) → p r ≡ true → q r ≡ true)
      → first q rs ≡ none
      → first p rs ≡ none
  unfolding first
  first_stronger p q [] h none_q = refl
  first_stronger p q (r ∷ rs) h none_q = ground (arith, h r, none_q, first_stronger p q rs h)

  -- A condition that some row meets finds one.
  pub first_met :
      (p q : R → Bool) (rs : List R) (r : R)
      → first q rs ≡ some r
      → p r ≡ true
      → (a : R) × (first p rs ≡ some a)
  unfolding first
  first_met p q [] r at_r h = absurd (ground (arith, at_r))
  first_met p q (r' ∷ rs) r at_r h = elim (Bool-cases (p r')) [
    | inl y ↦ (r', ground (arith, y))
    | inr n ↦
        (let (a, e) = first_met p q rs r (ground (arith, n, at_r, h)) h in
          (a, ground (arith, n, e)))
  ]

  -- Two conditions that find rows of one key, which is met once, find the same row.
  pub first_same :
      (key p q : R → Bool) (rs : List R) (a b : R)
      → affected key rs ≤ 1
      → first p rs ≡ some a
      → first q rs ≡ some b
      → key a ≡ true
      → key b ≡ true
      → a ≡ b
  unfolding first affected
  first_same key p q [] a b once at_a at_b ka kb = ground (arith, at_a)
  first_same key p q (r ∷ rs) a b once at_a at_b ka kb = ground (
    arith,
    once,
    at_a,
    at_b,
    ka,
    kb,
    key_met key p rs a,
    key_met key q rs b,
    first_same key p q rs a b,
  )

  -- What an UPDATE that keeps a condition leaves of it.
  pub affected-update :
      (q p : R → Bool) (f : R → R) (rs : List R)
      → ((r : R) → q (f r) ≡ q r)
      → affected q (update p f rs) ≡ affected q rs
  unfolding affected update
  affected-update q p f [] same = refl
  affected-update q p f (r ∷ rs) same = ground (arith, same r, affected-update q p f rs same)

  pub affected-delete : (q p : R → Bool) (rs : List R) → affected q (delete p rs) ≤ affected q rs
  unfolding affected delete
  affected-delete q p [] = omega arith
  affected-delete q p (r ∷ rs) = ground (arith, affected-delete q p rs)

  pub affected-update_split :
      (q p : R → Bool) (f : R → R) (rs : List R)
      → affected q (update p f rs)
        ≡ affected (λ r. q r && not (p r)) rs + affected (λ r. p r && q (f r)) rs
  unfolding affected update
  affected-update_split q p f [] = refl
  affected-update_split q p f (r ∷ rs) = ground (arith, affected-update_split q p f rs)

  pub affected_never : (p : R → Bool) (rs : List R) → ((r : R) → p r ≡ false) → affected p rs ≡ 0
  unfolding affected
  affected_never p [] h = refl
  affected_never p (r ∷ rs) h = ground (arith, h r, affected_never p rs h)

  -- An UPDATE whose rows do not meet a condition that nothing met.
  pub first-update-none :
      (q p : R → Bool) (f : R → R) (rs : List R)
      → ((r : R) → q (f r) ≡ false)
      → first q rs ≡ none
      → first q (update p f rs) ≡ none
  unfolding first update
  first-update-none q p f [] quiet h = refl
  first-update-none q p f (r ∷ rs) quiet h = ground (arith, quiet r, h, first-update-none q p f rs)
