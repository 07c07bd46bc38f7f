-- ===== src/Backup/Ideal.antt =====
-- A list of objects as an object store for crates/data-node/src/backup.rs: the contract of the parameter
-- can be met.
use combee.Prelude.{
  ℕ, ◌≡◌, refl, ap, ◌∙◌, Bool, true, Option, none, some, List, [], ◌∷◌, ◌==◌, ◌&&◌, arith,
  if◌then◌else◌, Bool-cases, inl, inr,
}
use combee.Errors.{ok, err, internal}
use combee.Text.{Bytes}
use combee.Backup.{ObjectStore, ObjectName, full, snapshot, wal}
use combee.Backup.Latest.{any_name}
use combee.Backup.Rounds.{eq_name, IsFaithful}

abbrev pub Objects : Type 0
Objects = List ((ℕ × ObjectName) × Bytes)

abbrev pub content_of : ℕ → ObjectName → Objects → Option Bytes
content_of db k [] = none
content_of db k (((d, n), b) ∷ s) =
    let rest = content_of db k s in if (d == db) && eq_name n k then some b else rest

abbrev pub names_of : ℕ → Objects → List ObjectName
names_of db [] = []
names_of db (((d, n), b) ∷ s) = let rest = names_of db s in if d == db then n ∷ rest else rest

abbrev pub objects : ObjectStore Objects
objects = record {
  put = λ db k b s. (ok tt, ((db, k), b) ∷ s);
  get = λ db k s. elim (content_of db k s) [ none ↦ err internal | some b ↦ ok b ];
  list = λ db s. ok (names_of db s);
  content = content_of;
}

eq_name→eq : (n k : ObjectName) → eq_name n k ≡ true → n ≡ k
eq_name→eq (full ts id) (full ts' id') h = ground (arith, h)
eq_name→eq (full ts id) (snapshot r) h = ground (arith, h)
eq_name→eq (full ts id) (wal r) h = ground (arith, h)
eq_name→eq (snapshot q) (full ts id) h = ground (arith, h)
eq_name→eq (snapshot q) (snapshot r) h = ap snapshot (ground (arith, h))
eq_name→eq (snapshot q) (wal r) h = ground (arith, h)
eq_name→eq (wal q) (full ts id) h = ground (arith, h)
eq_name→eq (wal q) (snapshot r) h = ground (arith, h)
eq_name→eq (wal q) (wal r) h = ap wal (ground (arith, h))

complete :
    (db : ℕ) (s : Objects) (test : ObjectName → Bool) (k : ObjectName) (b : Bytes)
    → content_of db k s ≡ some b
    → test k ≡ true
    → any_name test (names_of db s) ≡ true
complete db [] test k b h t = ground (arith, h)
complete db (((d, n), c) ∷ s) test k b h t = elim (Bool-cases (d == db)) [
  | inr q ↦ ground (arith, q, complete db s test k b (ground (arith, h, q)) t)
  | inl q ↦ elim (Bool-cases (eq_name n k)) [
    | inl p ↦ ground (arith, q, ap test (eq_name→eq n k p) ∙ t)
    | inr p ↦ ground (arith, q, complete db s test k b (ground (arith, h, q, p)) t)
  ]
]

eq_name_refl : (k : ObjectName) → eq_name k k ≡ true
eq_name_refl (full ts id) = ground arith
eq_name_refl (snapshot r) = ground arith
eq_name_refl (wal r) = ground arith

abbrev Named : ℕ → Objects → (ObjectName → Bool) → Type 0
Named db s test = (k : ObjectName) × (b : Bytes) × (content_of db k s ≡ some b) × (test k ≡ true)

-- An object in front may stand before the one that is named.
in_front :
    (db d : ℕ) (n : ObjectName) (c : Bytes) (s : Objects) (test : ObjectName → Bool)
    → Named db s test
    → Named db (((d, n), c) ∷ s) test
in_front db d n c s test (k, b, there, t) = elim (Bool-cases ((d == db) && eq_name n k)) [
  | inl q ↦ (k, c, ground (arith, q), t)
  | inr q ↦ (k, b, ground (arith, q, there), t)
]

sound :
    (db : ℕ) (s : Objects) (test : ObjectName → Bool)
    → any_name test (names_of db s) ≡ true
    → Named db s test
sound db [] test h = ground (arith, h)
sound db (((d, n), c) ∷ s) test h = elim (Bool-cases (d == db)) [
  | inr q ↦ in_front db d n c s test (sound db s test (ground (arith, h, q)))
  | inl q ↦ elim (Bool-cases (test n)) [
    | inl t ↦ (n, c, ground (arith, q, eq_name_refl n), t)
    | inr t ↦ in_front db d n c s test (sound db s test (ground (arith, h, q, t)))
  ]
]

pub objects-IsFaithful : IsFaithful objects
objects-IsFaithful = record {
  puts = λ db k b s j h. ground arith;
  refuses = λ db k b s j e h. ground (arith, h);
  gives = λ db k b s h. ground (arith, h);
  names = names_of;
  lists = λ db s. refl;
  complete = complete;
  sound = sound;
}
