-- ===== src/Sql.antt =====
-- crates/data-node/src/sql.rs: what is checked of the text of a statement before SQLite sees it. The
-- source walks an index over the bytes; here a position is the list of the bytes that are left.
-- Loops that skip by more than one byte run on fuel, one unit for each byte.
pub mod Fuel
pub mod Trivia
pub mod Check
pub mod Execute
pub mod Limits
pub mod Atomic
pub mod Results
use combee.Prelude.{
  ℕ, zero, suc, ◌+◌, Bool, true, false, ◌&&◌, ◌||◌, Option, none, some, List, [], ◌∷◌, length, ltb,
  leb, ◌==◌, if◌then◌else◌,
}
use combee.Text.{Bytes}

abbrev pub newline : ℕ
newline = 10

abbrev pub dash : ℕ
dash = 45

abbrev pub slash : ℕ
slash = 47

abbrev pub star : ℕ
star = 42

abbrev pub semicolon : ℕ
semicolon = 59

abbrev pub is_space : ℕ → Bool
is_space c = c == 32 || (c == 9 || (c == 13 || c == newline))

abbrev pub is_quote : ℕ → Bool
is_quote c = c == 39 || (c == 34 || c == 96)

-- `b.get(i + 1) == Some(&c)`, for the bytes after `i`.
abbrev pub next_is : ℕ → Bytes → Bool
next_is c [] = false
next_is c (b ∷ bs) = b == c

-- `i += 1`
abbrev pub tail : Bytes → Bytes
tail [] = []
tail (b ∷ bs) = bs

-- The loop over a line comment: it stops at the end of the line.
unfoldable pub skip_line : Bytes → Bytes
skip_line [] = []
skip_line (b ∷ bs) = let rest = skip_line bs in if b == newline then b ∷ bs else rest

-- The loop over a block comment and the step over its end: past `*/`, or to the end of the text.
unfoldable pub skip_block : Bytes → Bytes
skip_block [] = []
skip_block (b ∷ bs) =
    let rest = skip_block bs in if b == star && next_is slash bs then tail bs else rest

-- `skip_quoted`, from the byte after the first quote: at the closing quote, or at the end.
unfoldable pub skip_quoted : ℕ → ℕ → Bytes → Bytes
skip_quoted zero q bs = bs
skip_quoted (suc n) q [] = []
skip_quoted (suc n) q (b ∷ bs) =
    let rest = skip_quoted n q bs in
    let after = skip_quoted n q (tail bs) in
    if b == q then (if next_is q bs then after else b ∷ bs) else rest

unfoldable pub skip_spaces : Bytes → Bytes
skip_spaces [] = []
skip_spaces (b ∷ bs) = let rest = skip_spaces bs in if is_space b then rest else b ∷ bs

-- `trailing_has_sql`
unfoldable pub trailing_from : ℕ → Bytes → Bool
unfolding skip_spaces skip_line skip_block
trailing_from zero bs = false
trailing_from (suc n) bs = elim (skip_spaces bs) [
  | [] ↦ false
  | b ∷ rest ↦
      let line = trailing_from n (skip_line (b ∷ rest)) in
      let block = trailing_from n (skip_block (tail rest)) in
      if b == dash && next_is dash rest
      then line
      else if b == slash && next_is star rest
      then block
      else true
]

unfoldable pub trailing_has_sql : Bytes → Bool
unfolding trailing_from
trailing_has_sql bs = trailing_from (suc (length bs)) bs

-- The loop of `has_multiple_statements`. Every branch but the last `;` goes on after the `i += 1` at
-- the loop's end.
unfoldable pub multiple_from : ℕ → Bytes → Bool
unfolding skip_quoted skip_line skip_block trailing_has_sql
multiple_from zero bs = false
multiple_from (suc n) [] = false
multiple_from (suc n) (b ∷ bs) =
    let quoted = multiple_from n (tail (skip_quoted (suc (length bs)) b bs)) in
    let line = multiple_from n (tail (skip_line (b ∷ bs))) in
    let block = multiple_from n (tail (skip_block (tail bs))) in
    let next = multiple_from n bs in
    if is_quote b
    then quoted
    else if b == dash && next_is dash bs
    then line
    else if b == slash && next_is star bs
    then block
    else if b == semicolon
    then trailing_has_sql bs
    else next

unfoldable pub has_multiple_statements : Bytes → Bool
unfolding multiple_from
has_multiple_statements bs = multiple_from (suc (length bs)) bs

-- `skip_leading_trivia`
unfoldable pub skip_leading_from : ℕ → Bytes → Bytes
unfolding skip_line skip_block
skip_leading_from zero bs = bs
skip_leading_from (suc n) [] = []
skip_leading_from (suc n) (b ∷ bs) =
    let space = skip_leading_from n bs in
    let line = skip_leading_from n (skip_line (b ∷ bs)) in
    let block = skip_leading_from n (skip_block (tail bs)) in
    if is_space b
    then space
    else if b == dash && next_is dash bs
    then line
    else if b == slash && next_is star bs
    then block
    else b ∷ bs

unfoldable pub skip_leading_trivia : Bytes → Bytes
unfolding skip_leading_from
skip_leading_trivia bs = skip_leading_from (suc (length bs)) bs
