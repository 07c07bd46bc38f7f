-- ===== src/Node/Invariant.antt =====
-- The invariant of a node of crates/data-node/src/lib.rs: its cache against its tables, and its
-- connections.
use combee.Prelude.{ℕ, String, ◌≡◌, refl, inl, inr, Option, none, some, arith, Bool-cases, ◌==◌}
use combee.Prelude.Int.{ℤ}
use combee.Errors.{Result, ok, err}
use combee.Exec.{Exec}
use combee.Sqlite.{Row, Sqlite}
use combee.Cache.{CachedValue, Moka, cache_key}
use combee.Manager
use combee.Manager.{Manager, Opening, update}
use combee.Manager.Bounds.{IsValid, acquire-IsValid, finish-IsValid}
use combee.Node.{Node, Inside, inside, enter, with_conn}
use combee.Node.Coherence.{Right}
use combee.Node.Jobs.{Kept, Keeps}

pub acquire-cells :
    {Cell : Type 0} (db : ℕ) (o : Opening) (m : Manager Cell)
    → (Manager.acquire db o m).1.cells ≡ m.cells
unfolding Manager.acquire
acquire-cells db o m = ground arith

pub Kept-Right :
    (now : ℤ) (after before : Option CachedValue) (r : Option Row)
    → Kept after before
    → Right now before r
    → Right now after r
Kept-Right now none before r k h = λ e p. cc
Kept-Right now (some v) before r k h = λ e p. h e (ground (arith, k v refl, p))

module _ {Conn Store : Type 0} (sq : Sqlite Conn) (moka : Moka Store) where
  pub record IsCoherent (now : ℤ) (n : Node Conn Store) : Type 0 where
    pub right :
        (db : ℕ) (k : String)
        → Right now (moka.find n.cache.inner (cache_key db k)) (sq.rows (n.manager.cells db) k)
    pub connections : IsValid n.manager

  -- One job on a Cell, after its connection is open.
  entered-Right :
      {A : Type 0} (now : ℤ) (db : ℕ) (f : Exec (Inside Conn Store) A) (n : Node Conn Store) (j : ℕ)
      (s : String)
      → Keeps sq moka now db f
      → ((db : ℕ) (k : String)
          → Right now (moka.find n.cache.inner (cache_key db k)) (sq.rows (n.manager.cells db) k))
      → Right now
          (moka.find (f (inside db n)).1.cache.inner (cache_key j s))
          (sq.rows (update n.manager.cells db (f (inside db n)).1.conn j) s)
  entered-Right now db f n j s k h = elim (Bool-cases (db == j)) [
    | inl x ↦ rw x (λ e p. ground (arith, p, x, k.right (inside db n) s (h db s) e))
    | inr x ↦ rw x (Kept-Right now _ _ _ (k.elsewhere (inside db n) (cache_key j s) x) (h j s))
  ]

  enter-IsCoherent :
      {A : Type 0} (now : ℤ) (db : ℕ) (o : Opening) (f : Exec (Inside Conn Store) A)
      (n : Node Conn Store) (r : Result (Unit {0}) × Manager Conn)
      → Keeps sq moka now db f
      → IsCoherent now n
      → r.1.cells ≡ n.manager.cells
      → IsValid r.1
      → IsCoherent now (enter db o f n r).1
  unfolding Manager.finish
  enter-IsCoherent now db o f n (err e, m) k h same valid = record {
    right = rw same h.right;
    connections = valid;
  }
  enter-IsCoherent now db o f n (ok _, m) k h same valid = record {
    right = λ j s. entered-Right now db f (record n { manager = m }) j s k (rw same h.right);
    connections = finish-IsValid db o _ m valid;
  }

  pub with_conn-IsCoherent :
      {A : Type 0} (now : ℤ) (db : ℕ) (o : Opening) (m : Exec (Inside Conn Store) A)
      (n : Node Conn Store)
      → Keeps sq moka now db m
      → IsCoherent now n
      → IsCoherent now (with_conn db o m n).1
  unfolding with_conn
  with_conn-IsCoherent now db o m n k h =
      enter-IsCoherent now db o m n (Manager.acquire db o n.manager) k h
        (acquire-cells db o n.manager) (acquire-IsValid db o n.manager h.connections)
