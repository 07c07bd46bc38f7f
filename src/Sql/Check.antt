-- ===== src/Sql/Check.antt =====
-- crates/data-node/src/sql.rs: `check_statement`, over the bytes of the text.
use combee.Prelude.{ℕ, ◌+◌, Bool, true, false, [], ◌∷◌, leb, ◌==◌, ◌&&◌, ◌||◌, if◌then◌else◌}
use combee.Errors.{Result, ok, err, forbidden, invalid_request}
use combee.Text.{Bytes}
use combee.Sql.{skip_leading_trivia, has_multiple_statements}

abbrev between : ℕ → ℕ → ℕ → Bool
between low high b = leb low b && leb b high

-- Whitespace of Unicode in UTF-8, of one, two or three bytes.
abbrev space_1 : ℕ → Bool
space_1 a = between 9 13 a || a == 32

abbrev space_2 : ℕ → ℕ → Bool
space_2 a b = a == 194 && (b == 133 || b == 160)

abbrev space_3 : ℕ → ℕ → ℕ → Bool
space_3 a b c =
    (a == 225 && (b == 154 && c == 128))
    || ((a == 226
          && ((b == 128 && (between 128 138 c || (c == 168 || (c == 169 || c == 175))))
              || (b == 129 && c == 159)))
        || (a == 227 && (b == 128 && c == 128)))

-- `trim_start`
unfoldable pub trim_start : Bytes → Bytes
trim_start [] = []
trim_start (a ∷ []) = if space_1 a then [] else a ∷ []
trim_start (a ∷ b ∷ []) =
    let one = trim_start (b ∷ []) in
    if space_1 a then one else if space_2 a b then [] else a ∷ b ∷ []
trim_start (a ∷ b ∷ c ∷ bs) =
    let one = trim_start (b ∷ c ∷ bs) in
    let two = trim_start (c ∷ bs) in
    let three = trim_start bs in
    if space_1 a
    then one
    else if space_2 a b
    then two
    else if space_3 a b c
    then three
    else a ∷ b ∷ c ∷ bs

-- `to_ascii_lowercase`
unfoldable pub to_ascii_lowercase : Bytes → Bytes
to_ascii_lowercase [] = []
to_ascii_lowercase (b ∷ bs) = (if between 65 90 b then b + 32 else b) ∷ to_ascii_lowercase bs

unfoldable pub begins_with : Bytes → Bytes → Bool
begins_with [] bs = true
begins_with (p ∷ ps) [] = false
begins_with (p ∷ ps) (b ∷ bs) = let rest = begins_with ps bs in if p == b then rest else false

unfoldable pub contains : Bytes → Bytes → Bool
unfolding begins_with
contains p [] = begins_with p []
contains p (b ∷ bs) = let rest = contains p bs in if begins_with p (b ∷ bs) then true else rest

-- `__sys` and `vacuum`
abbrev pub sys : Bytes
sys = 95 ∷ 95 ∷ 115 ∷ 121 ∷ 115 ∷ []

abbrev pub vacuum : Bytes
vacuum = 118 ∷ 97 ∷ 99 ∷ 117 ∷ 117 ∷ 109 ∷ []

unfoldable pub check_statement : Bytes → Result (Unit {0})
unfolding trim_start to_ascii_lowercase begins_with contains skip_leading_trivia
    has_multiple_statements
check_statement sql =
    if contains sys (to_ascii_lowercase (trim_start sql))
    then err forbidden
    else if begins_with vacuum (to_ascii_lowercase (trim_start (skip_leading_trivia sql)))
    then err invalid_request
    else if has_multiple_statements sql
    then err invalid_request
    else ok tt
