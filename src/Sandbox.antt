-- ===== src/Sandbox.antt =====
-- crates/data-node/src/sandbox.rs: the flag that tells user SQL from the program's own on a thread,
-- and the lists of pragmas and functions that user SQL may use. The callback that SQLite calls is not
-- modelled.
use combee.Prelude.{
  String, ◌≡◌, refl, Bool, true, false, not, ◌||◌, List, [], ◌∷◌, str_eq, if◌then◌else◌,
}

-- `matches!` over a list of names.
abbrev one_of : String → List String → Bool
one_of name [] = false
one_of name (n ∷ ns) = str_eq name n || one_of name ns

abbrev functional : List String
functional =
    "quick_check" ∷ "integrity_check" ∷ "table_info" ∷ "table_xinfo" ∷ "table_list"
    ∷ "database_list" ∷ "index_list" ∷ "index_info" ∷ "index_xinfo" ∷ "collation_list"
    ∷ "compile_options" ∷ "function_list" ∷ "module_list" ∷ "pragma_list" ∷ []

abbrev read_only : List String
read_only =
    "user_version" ∷ "application_id" ∷ "page_count" ∷ "freelist_count" ∷ "schema_version"
    ∷ "data_version" ∷ "journal_mode" ∷ "foreign_keys" ∷ "wal_checkpoint" ∷ []

-- `pragma_allowed`
unfoldable pragma_allowed : String → Bool → Bool
pragma_allowed name has_value =
    if one_of name functional
    then true
    else if not (one_of name read_only)
    then false
    else if has_value
    then one_of name ("user_version" ∷ "application_id" ∷ [])
    else true

-- `function_allowed`
unfoldable function_allowed : String → Bool
function_allowed name =
    not
      (one_of name ("load_extension" ∷ "readfile" ∷ "writefile" ∷ "sqlite_compileoption_used" ∷ []))

-- `UserSqlGuard`
record UserSqlGuard : Type 0 where
  prev : Bool

-- The thread's flag is `active`.
unfoldable set : Bool → Bool → UserSqlGuard × Bool
set value active = (record { prev = active }, value)

unfoldable enter : Bool → UserSqlGuard × Bool
unfolding set
enter active = set true active

unfoldable leave : Bool → UserSqlGuard × Bool
unfolding set
leave active = set false active

unfoldable drop : UserSqlGuard → Bool → Bool
drop guard active = guard.prev

-- Guards that nest: what runs while they are held, one inside the other.
data Nest : Type 0 where
  done : Nest
  entering leaving : Nest → Nest → Nest

-- The flag after guards that are each dropped where they end.
run : Nest → Bool → Bool
unfolding enter leave drop
run done active = active
run (entering inner next) active =
    let (guard, flag) = enter active in run next (drop guard (run inner flag))
run (leaving inner next) active =
    let (guard, flag) = leave active in run next (drop guard (run inner flag))

-- Guards that end in the reverse order of their beginnings leave the flag as it was.
run-same : (n : Nest) (active : Bool) → run n active ≡ active
unfolding run enter leave set drop
run-same done active = refl
run-same (entering inner next) active = run-same next active
run-same (leaving inner next) active = run-same next active

with_value :
    (f r s : Bool)
    → (if f then true else if not r then false else s) ≡ true
    → (if f then true else if not r then false else true) ≡ true
with_value true r s h = refl
with_value false true s h = refl
with_value false false s h = h

-- Assigning a value is allowed only for a pragma that may be read.
pragma_allowed_mono :
    (name : String) → pragma_allowed name true ≡ true → pragma_allowed name false ≡ true
unfolding pragma_allowed
pragma_allowed_mono name h = with_value (one_of name functional) (one_of name read_only) _ h
