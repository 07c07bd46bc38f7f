-- ===== src/Api/Names.antt =====
-- crates/api-server/src/handlers/database.rs: the names that a Cell may have. A name is read as its characters.
use Prim.Native.Char.{Char, code}
use Prim.Native.String.{String, [] as nil, ◌∷◌ as cons}
use combee.Prelude.{
  ℕ, ◌≡◌, refl, Bool, true, false, ◌&&◌, ◌||◌, List, [], ◌∷◌, ◌==◌, leb, length, if◌then◌else◌,
}
use combee.Errors.{Result, ok, err, invalid_cell_name}

abbrev pub chars : String → List ℕ
chars nil = []
chars (cons c s) = code c ∷ chars s

abbrev pub between : ℕ → ℕ → ℕ → Bool
between lo hi c = leb lo c && leb c hi

-- `char::is_whitespace`
abbrev pub is_whitespace : ℕ → Bool
is_whitespace c =
    between 9 13 c
    || (c == 32
        || (c == 133
            || (c == 160
                || (c == 5760
                    || (between 8192 8202 c
                        || (c == 8232
                            || (c == 8233 || (c == 8239 || (c == 8287 || c == 12288)))))))))

unfoldable pub trim_start : List ℕ → List ℕ
trim_start [] = []
trim_start (c ∷ cs) = let rest = trim_start cs in if is_whitespace c then rest else c ∷ cs

abbrev onto : List ℕ → List ℕ → List ℕ
onto acc [] = acc
onto acc (c ∷ cs) = onto (c ∷ acc) cs

-- `str::trim`
unfoldable pub trim : List ℕ → List ℕ
unfolding trim_start
trim cs = onto [] (trim_start (onto [] (trim_start cs)))

abbrev pub is_lowercase : ℕ → Bool
is_lowercase c = between 97 122 c

abbrev pub is_digit : ℕ → Bool
is_digit c = between 48 57 c

abbrev pub may_follow : ℕ → Bool
may_follow c = is_lowercase c || (is_digit c || (c == 45 || c == 95))

abbrev pub all_follow : List ℕ → Bool
all_follow [] = true
all_follow (c ∷ cs) = may_follow c && all_follow cs

abbrev pub may_begin : List ℕ → Bool
may_begin [] = false
may_begin (c ∷ cs) = is_lowercase c || is_digit c

-- `validate_cell_name`: all characters are of one byte, so their number is the length.
unfoldable pub validate_cell_name : String → Result (Unit {0})
unfolding trim
validate_cell_name name =
    let n = trim (chars name) in
    if leb (length n) 63 && (all_follow n && may_begin n) then ok tt else err invalid_cell_name

-- A name with white space before it is valid if it is without, although the white space is a part of it.
pub spaced_name_valid :
    (c : Char) (name : String)
    → is_whitespace (code c) ≡ true
    → validate_cell_name (cons c name) ≡ validate_cell_name name
unfolding validate_cell_name trim trim_start
spaced_name_valid c name h = rw h refl
