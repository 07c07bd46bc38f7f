-- ===== src/Kv/Batch.antt =====
-- MGET and MSET: the loops over the keys and the items.
use combee.Prelude.{
  ℕ, ◌+◌, ◌≤◌, String, ◌≡◌, refl, ◌∙◌, true, false, Option, none, some, List, [], ◌∷◌, ◌++◌, arith,
  str_eq, if◌then◌else◌,
}
use combee.Prelude.Int.{ℤ, ◌≤ℤ◌}
use combee.Errors.{ok, err, invalid_request}
use combee.Text.{Bytes}
use combee.Text.Utf8.{is_utf8}
use combee.Ttl.{expires_at_from}
use combee.Sqlite.{Row, Table, Sqlite, IsReliable, upserted}
use combee.Kv.{KvSetItem, Clock, get, mget, mset, set}
use combee.Kv.Live.{live, live-dropped, checked-live}
use combee.Kv.Reads.{get_lem, get_rows}
use combee.Kv.Writes.{set_lem}

abbrev pub IsMonotone : Clock → Type 0
IsMonotone clock = (i j : ℕ) → i ≤ j → clock i ≤ℤ clock j

abbrev pub shown : Option (Bytes × Option ℤ) → Option Bytes
shown none = none
shown (some (v, e)) = some v

-- The visible value of each key at the moment that it is read.
abbrev pub all_shown : Clock → ℕ → List String → Table → List (Option Bytes)
all_shown clock i [] t = []
all_shown clock i (k ∷ ks) t = shown (live (clock (i + 1)) (t k)) ∷ all_shown clock (i + 2) ks t

abbrev pub AllUtf8 : Table → Type 0
AllUtf8 t = (j : String) (r : Row) → t j ≡ some r → is_utf8 r.value ≡ true

-- From a moment on, two tables look the same.
abbrev SameFrom : ℤ → Table → Table → Type 0
SameFrom from s t = (j : String) (later : ℤ) → from ≤ℤ later → live later (s j) ≡ live later (t j)

abbrev item_key : KvSetItem → String
item_key it = it.key

-- The table after writing the items one after another.
abbrev pub all_written : Clock → ℕ → List KvSetItem → Table → Table
all_written clock i [] t = t
all_written clock i (it ∷ items) t = all_written clock (i + 1) items λ j.
    if str_eq it.key j
    then upserted it.value (expires_at_from it.ttl_seconds (clock i)) (t j)
    else t j

abbrev pub AllNamed : List KvSetItem → Type 0
AllNamed [] = Unit
AllNamed (it ∷ items) = (str_eq it.key "" ≡ false) × AllNamed items

all_shown-SameFrom :
    (clock : Clock) (i : ℕ) (ks : List String) (s t : Table)
    → IsMonotone clock
    → SameFrom (clock i) s t
    → all_shown clock i ks s ≡ all_shown clock i ks t
all_shown-SameFrom clock i [] s t mono same = refl
all_shown-SameFrom clock i (k ∷ ks) s t mono same = cc (
  same k (clock (i + 1)) (mono i (i + 1) (omega arith)),
  all_shown-SameFrom clock (i + 2) ks s t mono
      (λ j later h. same j later (omega (arith, mono i (i + 2) (omega arith)))),
)

all_written-cong :
    (clock : Clock) (i : ℕ) (items : List KvSetItem) (s t : Table)
    → ((j : String) → s j ≡ t j)
    → (j : String) → all_written clock i items s j ≡ all_written clock i items t j
all_written-cong clock i [] s t same j = same j
all_written-cong clock i (it ∷ items) s t same j =
    all_written-cong clock (i + 1) items _ _ (λ x. rw (same x)) j

module _ {Conn : Type 0} (sq : Sqlite Conn) (good : IsReliable sq) where
  -- On a connection whose statements do not fail, MGET over a table of UTF-8, with a clock that
  -- does not go back, returns in the order of the keys the value of each that is visible when it
  -- is read.
  pub mget_lem :
      (clock : Clock) (i : ℕ) (ks : List String) (c : Conn)
      → IsMonotone clock
      → AllUtf8 (sq.rows c)
      → (mget sq clock i ks c).0 ≡ ok (all_shown clock i ks (sq.rows c))
  unfolding mget
  mget_lem clock i [] c mono utf8 = refl
  mget_lem clock i (k ∷ ks) c mono utf8 =
      let c' = (get sq k (clock i) (clock (i + 1)) c).1 in
      let rows' = get_rows sq good k (clock i) (clock (i + 1)) c in
      ground (
        arith,
        get_lem sq good k (clock i) (clock (i + 1)) c,
        checked-live (clock (i + 1)) (sq.rows c k) (utf8 k),
        mget_lem clock (i + 2) ks c' mono (λ j r p. ground (arith, rows' j, utf8 j r)),
        all_shown-SameFrom clock (i + 2) ks (sq.rows c') (sq.rows c) mono (λ j later h. ground (
          arith,
          rows' j,
          live-dropped (clock (i + 1)) later (sq.rows c j),
          mono (i + 1) (i + 2) (omega arith),
        )),
      )

  -- On a connection whose statements do not fail, MSET of items whose keys are not empty writes
  -- them all, one after another, and no other key.
  pub mset_lem :
      (clock : Clock) (i : ℕ) (items : List KvSetItem) (c : Conn)
      → AllNamed items
      → ((mset sq clock i items c).0 ≡ ok tt)
        × ((j : String)
            → sq.rows (mset sq clock i items c).1 j ≡ all_written clock i items (sq.rows c) j)
  unfolding mset
  mset_lem clock i [] c h = (refl, λ j. refl)
  mset_lem clock i (it ∷ items) c h =
      let c' = (set sq it.key it.value it.ttl_seconds false false (clock i) c).1 in
      let (done, rows') =
        set_lem sq good it.key it.value it.ttl_seconds false false (clock i) c h.0 in
      let (ih, ih') = mset_lem clock (i + 1) items c' h.1 in
      (
        ground (arith, done, ih),
        λ j. rw done (ih' j ∙ all_written-cong clock (i + 1) items _ _ rows' j),
      )

  -- On a connection whose statements do not fail, MSET is not atomic: it refuses an item with an
  -- empty key, and the items before that one, whose keys are not empty, stay written.
  pub mset_stops_at_empty_key :
      (clock : Clock) (i : ℕ) (before after : List KvSetItem) (bad : KvSetItem) (c : Conn)
      → AllNamed before
      → str_eq bad.key "" ≡ true
      → ((mset sq clock i (before ++ bad ∷ after) c).0 ≡ err invalid_request)
        × ((j : String)
            → sq.rows (mset sq clock i (before ++ bad ∷ after) c).1 j
              ≡ all_written clock i before (sq.rows c) j)
  unfolding mset
  mset_stops_at_empty_key clock i [] after bad c h e =
      unfold set in (ground arith, λ j. ground arith)
  mset_stops_at_empty_key clock i (it ∷ before) after bad c h e =
      let c' = (set sq it.key it.value it.ttl_seconds false false (clock i) c).1 in
      let (done, rows') =
        set_lem sq good it.key it.value it.ttl_seconds false false (clock i) c h.0 in
      let (ih, ih') = mset_stops_at_empty_key clock (i + 1) before after bad c' h.1 e in
      (rw done ih, λ j. rw done (ih' j ∙ all_written-cong clock (i + 1) before _ _ rows' j))
