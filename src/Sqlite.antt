-- ===== src/Sqlite.antt =====
-- The table `__sys_kv` of a Cell and the statements that crates/data-node/src/kv.rs and ttl.rs
-- send to it. SQLite is not part of the repository: a connection is a parameter with the laws
-- that SQLite documents for these statements. A statement may fail, and then changes nothing.
pub mod Ideal
use combee.Prelude.{
  ℕ, suc, ◌+◌, String, ◌≡◌, ◌⊎◌, Bool, true, false, Option, none, some, str_eq, if◌then◌else◌,
}
use combee.Prelude.Int.{ℤ}
use combee.Errors.{Result, ok, err, sql}
use combee.Text.{Bytes}
use combee.Ttl.{is_expired}

pub record Row : Type 0 where
  pub value : Bytes
  pub expires_at : Option ℤ
  pub version : ℕ

abbrev pub Table : Type 0
Table = String → Option Row

-- `UPSERT`, `INSERT_IF_ABSENT`, `UPDATE_IF_PRESENT`, and the statements of `del` and `expire`.
pub data Statement : Type 0 where
  upsert insert_if_absent update_if_present : String → Bytes → Option ℤ → Statement
  delete : String → Statement
  set_expiry : String → Option ℤ → Statement

abbrev pub stored : Bytes → Option ℤ → ℕ → Option Row
stored v e n = some (record { value = v; expires_at = e; version = n })

abbrev pub upserted : Bytes → Option ℤ → Option Row → Option Row
upserted v e none = stored v e 1
upserted v e (some r) = stored v e (r.version + 1)

abbrev pub inserted : Bytes → Option ℤ → Option Row → Option Row
inserted v e none = stored v e 1
inserted v e (some r) = some r

abbrev pub updated : Bytes → Option ℤ → Option Row → Option Row
updated v e none = none
updated v e (some r) = stored v e (r.version + 1)

abbrev pub re_expired : Option ℤ → Option Row → Option Row
re_expired e none = none
re_expired e (some r) = stored r.value e (r.version + 1)

abbrev pub count_present : Option Row → ℕ
count_present none = 0
count_present (some r) = 1

abbrev pub count_absent : Option Row → ℕ
count_absent none = 1
count_absent (some r) = 0

-- The one key that a statement names.
abbrev pub key_of : Statement → String
key_of (upsert k v e) = k
key_of (insert_if_absent k v e) = k
key_of (update_if_present k v e) = k
key_of (delete k) = k
key_of (set_expiry k e) = k

-- What a statement makes of the row of its key.
abbrev pub new_row : Statement → Option Row → Option Row
new_row (upsert k v e) r = upserted v e r
new_row (insert_if_absent k v e) r = inserted v e r
new_row (update_if_present k v e) r = updated v e r
new_row (delete k) r = none
new_row (set_expiry k e) r = re_expired e r

-- The number of rows that it reports.
abbrev pub changes : Statement → Option Row → ℕ
changes (upsert k v e) r = 1
changes (insert_if_absent k v e) r = count_absent r
changes (update_if_present k v e) r = count_present r
changes (delete k) r = count_present r
changes (set_expiry k e) r = count_present r

abbrev pub apply : Statement → Table → Table
apply s t j = if str_eq (key_of s) j then new_row s (t j) else t j

abbrev pub row_expired : Row → ℤ → Bool
row_expired r now = is_expired r.expires_at now

-- A connection and the content of its table.
pub record Sqlite (Conn : Type 0) : Type 0 where
  pub rows : Conn → Table
  pub select : String → Conn → Result (Option Row)
  pub execute : Statement → Conn → Result ℕ × Conn
  -- The `DELETE` of `gc_expired`; SQLite chooses which expired rows fall under the limit.
  pub gc : ℤ → ℕ → Conn → Result ℕ × Conn
  pub select_law : (k : String) (c : Conn) → (select k c ≡ ok (rows c k)) ⊎ (select k c ≡ err sql)
  pub execute_law :
      (s : Statement) (c : Conn)
      → ((execute s c).0 ≡ ok (changes s (rows c (key_of s))))
          × ((j : String) → rows (execute s c).1 j ≡ apply s (rows c) j)
        ⊎ ((execute s c).0 ≡ err sql) × ((j : String) → rows (execute s c).1 j ≡ rows c j)
  pub gc_law :
      (now : ℤ) (limit : ℕ) (c : Conn) (j : String)
      → (rows (gc now limit c).1 j ≡ rows c j)
        ⊎ (rows (gc now limit c).1 j ≡ none)
          × ((r : Row) × (rows c j ≡ some r) × (row_expired r now ≡ true))

-- A connection on which no statement fails.
pub record IsReliable {Conn : Type 0} (sq : Sqlite Conn) : Type 0 where
  pub selects : (k : String) (c : Conn) → sq.select k c ≡ ok (sq.rows c k)
  pub executes :
      (s : Statement) (c : Conn)
      → ((sq.execute s c).0 ≡ ok (changes s (sq.rows c (key_of s))))
        × ((j : String) → sq.rows (sq.execute s c).1 j ≡ apply s (sq.rows c) j)
