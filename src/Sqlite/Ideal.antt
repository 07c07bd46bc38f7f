-- ===== src/Sqlite/Ideal.antt =====
-- A connection that is just its table: the laws asked of SQLite can be met.
use combee.Prelude.{◌≡◌, refl, ◌⊎◌, inl, inr, true, Option, none, some, Bool-cases, if◌then◌else◌}
use combee.Prelude.Int.{ℤ}
use combee.Errors.{ok}
use combee.Sqlite.{Row, Table, Sqlite, IsReliable, key_of, changes, apply, row_expired}

abbrev swept : ℤ → Option Row → Option Row
swept now none = none
swept now (some r) = if row_expired r now then none else some r

pub swept_cases :
    (now : ℤ) (o : Option Row)
    → (swept now o ≡ o)
      ⊎ (swept now o ≡ none) × ((r : Row) × (o ≡ some r) × (row_expired r now ≡ true))
swept_cases now none = inl refl
swept_cases now (some r) = elim (Bool-cases (row_expired r now)) [
  | inl e ↦ inr (rw e, (r, refl, e))
  | inr e ↦ inl (rw e)
]

abbrev pub tables : Sqlite Table
tables = record {
  rows = λ t. t;
  select = λ k t. ok (t k);
  execute = λ s t. (ok (changes s (t (key_of s))), apply s t);
  gc = λ now limit t. (ok 0, λ j. swept now (t j));
  select_law = λ k t. inl refl;
  execute_law = λ s t. inl (refl, λ j. refl);
  gc_law = λ now limit t j. swept_cases now (t j);
}

pub tables-IsReliable : IsReliable tables
tables-IsReliable = record { selects = λ k t. refl; executes = λ s t. (refl, λ j. refl) }

abbrev pub empty_table : Table
empty_table k = none
