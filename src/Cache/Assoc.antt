-- ===== src/Cache/Assoc.antt =====
-- An association list that never evicts: the laws asked of moka can be met.
use combee.Prelude.{
  ◌≡◌, refl, inl, false, Option, none, some, List, [], ◌∷◌, arith, eq_iff, if◌then◌else◌,
}
use combee.Cache.{CacheKey, CachedValue, Moka, same_key, lists}

abbrev pub Entries : Type 0
Entries = List (CacheKey × CachedValue)

unfoldable pub find : Entries → CacheKey → Option CachedValue
find [] k = none
find ((j, v) ∷ s) k = if same_key j k then some v else find s k

unfoldable pub without : CacheKey → Entries → Entries
without k [] = []
without k ((j, v) ∷ s) = let rest = without k s in if same_key j k then rest else (j, v) ∷ rest

unfoldable pub keys : Entries → List CacheKey
keys [] = []
keys ((j, v) ∷ s) = j ∷ keys s

pub find-without :
    (k : CacheKey) (s : Entries) (j : CacheKey)
    → find (without k s) j ≡ (if same_key k j then none else find s j)
unfolding find without
find-without k [] j = ground arith
find-without k ((i, v) ∷ s) j =
    ground (arith, find-without k s j, eq_iff i.key k.key, eq_iff i.key j.key, eq_iff k.key j.key)

pub find-keys : (s : Entries) (k : CacheKey) → lists (keys s) k ≡ false → find s k ≡ none
unfolding find keys
find-keys [] k h = refl
find-keys ((j, v) ∷ s) k h = ground (arith, find-keys s k)

pub find-cons :
    (k : CacheKey) (v : CachedValue) (s : Entries) (j : CacheKey)
    → find ((k, v) ∷ s) j ≡ (if same_key k j then some v else find s j)
unfolding find
find-cons k v s j = refl

unfoldable pub assoc_moka : Moka Entries
unfolding find
assoc_moka = record {
  find = find;
  insert = λ k v s. (k, v) ∷ s;
  invalidate = without;
  keys = keys;
  insert_law = λ k v s j. inl (find-cons k v s j);
  invalidate_law = λ k s j. inl (find-without k s j);
  keys_law = find-keys;
}
