-- ===== src/Manager/Bounds.antt =====
-- crates/data-node/src/manager.rs: the bound on open connections, one lemma for each operation of
-- the manager.
use combee.Prelude.{
  ℕ, ◌-◌, ◌≤◌, ◌<◌, ◌≡◌, refl, true, false, List, [], ◌∷◌, length, arith, ltb, leb, ◌==◌,
  Bool-cases, inl, inr, if◌then◌else◌,
}
use combee.Errors.{Result, ok, err}
use combee.Manager.{
  Entry, Manager, Opening, new, is_open, remove, oldest, evict_lru, touch, make_room, acquire,
  finish, mark_readonly, delete_database, close_database, awake, maintain, opened_conn, open_conn,
}

abbrev pub Distinct : List Entry → Type 0
Distinct [] = Unit
Distinct (e ∷ es) = (is_open e.id es ≡ false) × Distinct es

pub record IsValid {Cell : Type 0} (m : Manager Cell) : Type 0 where
  pub positive : 0 < m.max_active
  pub bounded : length m.conns ≤ m.max_active
  pub distinct : Distinct m.conns

length-remove-le : (db : ℕ) (es : List Entry) → length (remove db es) ≤ length es
unfolding remove
length-remove-le db [] = omega arith
length-remove-le db (e ∷ es) = ground (arith, length-remove-le db es)

length-remove-lt :
    (db : ℕ) (es : List Entry) → is_open db es ≡ true → length (remove db es) < length es
unfolding remove is_open
length-remove-lt db [] h = cc
length-remove-lt db (e ∷ es) h = ground (arith, length-remove-lt db es, length-remove-le db es)

pub is_open-remove :
    (db j : ℕ) (es : List Entry)
    → is_open j (remove db es) ≡ (if db == j then false else is_open j es)
unfolding remove is_open
is_open-remove db j [] = ground arith
is_open-remove db j (e ∷ es) = ground (arith, is_open-remove db j es)

remove-Distinct : (db : ℕ) (es : List Entry) → Distinct es → Distinct (remove db es)
unfolding remove
remove-Distinct db [] h = tt
remove-Distinct db (e ∷ es) h = elim (Bool-cases (e.id == db)) [
  | inl x ↦ rw x (remove-Distinct db es h.1)
  | inr x ↦ rw x (ground (arith, is_open-remove db e.id es), remove-Distinct db es h.1)
]

is_open-touch : (db now j : ℕ) (es : List Entry) → is_open j (touch db now es) ≡ is_open j es
unfolding touch is_open
is_open-touch db now j [] = refl
is_open-touch db now j (e ∷ es) = ground (arith, is_open-touch db now j es)

touch-Distinct : (db now : ℕ) (es : List Entry) → Distinct es → Distinct (touch db now es)
unfolding touch
touch-Distinct db now [] h = tt
touch-Distinct db now (e ∷ es) h =
    (ground (arith, is_open-touch db now e.id es), touch-Distinct db now es h.1)

length-touch : (db now : ℕ) (es : List Entry) → length (touch db now es) ≡ length es
unfolding touch
length-touch db now [] = refl
length-touch db now (e ∷ es) = omega (arith, length-touch db now es)

is_open-oldest : (e : Entry) (es : List Entry) → is_open (oldest e es).id (e ∷ es) ≡ true
unfolding oldest is_open
is_open-oldest e [] = ground arith
is_open-oldest e (f ∷ fs) = ground (arith, is_open-oldest f fs, is_open-oldest e fs)

-- Evicting makes room for one.
evict_lru-lt : (es : List Entry) → 0 < length es → length (evict_lru es) < length es
unfolding evict_lru
evict_lru-lt [] h = absurd (omega arith)
evict_lru-lt (e ∷ es) h = length-remove-lt _ (e ∷ es) (is_open-oldest e es)

evict_lru-Distinct : (es : List Entry) → Distinct es → Distinct (evict_lru es)
unfolding evict_lru
evict_lru-Distinct [] h = tt
evict_lru-Distinct (e ∷ es) h = remove-Distinct _ (e ∷ es) h

is_open-evict_lru :
    (db : ℕ) (es : List Entry) → is_open db es ≡ false → is_open db (evict_lru es) ≡ false
unfolding evict_lru
is_open-evict_lru db [] h = h
is_open-evict_lru db (e ∷ es) h = ground (arith, is_open-remove (oldest e es).id db (e ∷ es))

is_open-awake :
    (timeout now j : ℕ) (es : List Entry)
    → is_open j es ≡ false
    → is_open j (awake timeout now es) ≡ false
unfolding awake is_open
is_open-awake timeout now j [] h = h
is_open-awake timeout now j (e ∷ es) h = ground (arith, is_open-awake timeout now j es)

awake-Distinct : (timeout now : ℕ) (es : List Entry) → Distinct es → Distinct (awake timeout now es)
unfolding awake
awake-Distinct timeout now [] h = tt
awake-Distinct timeout now (e ∷ es) h = elim (Bool-cases (ltb timeout (now - e.last_used))) [
  | inl x ↦ rw x (awake-Distinct timeout now es h.1)
  | inr x ↦ rw x (is_open-awake timeout now e.id es h.0, awake-Distinct timeout now es h.1)
]

length-awake-le : (timeout now : ℕ) (es : List Entry) → length (awake timeout now es) ≤ length es
unfolding awake
length-awake-le timeout now [] = omega arith
length-awake-le timeout now (e ∷ es) = ground (arith, length-awake-le timeout now es)

module _ {Cell : Type 0} where
  -- A new manager has no connection and a limit of at least one.
  pub new-IsValid :
      (max_active_dbs idle_timeout : ℕ) (cells : ℕ → Cell)
      → IsValid (new max_active_dbs idle_timeout cells)
  unfolding new
  new-IsValid max_active_dbs idle_timeout cells = record {
    positive = omega arith;
    bounded = omega arith;
    distinct = tt;
  }

  -- What an opening needs: room for one more, and no connection for the Cell yet.
  record HasRoom (db : ℕ) (m : Manager Cell) : Type 0 where
    positive : 0 < m.max_active
    room : length m.conns < m.max_active
    closed : is_open db m.conns ≡ false
    distinct : Distinct m.conns

  HasRoom-IsValid : (db : ℕ) (m : Manager Cell) → HasRoom db m → IsValid m
  HasRoom-IsValid db m h = record {
    positive = h.positive;
    bounded = omega (arith, h.room);
    distinct = h.distinct;
  }

  opened_conn-IsValid :
      (db : ℕ) (o : Opening) (m : Manager Cell) (r : Result (Unit {0}))
      → HasRoom db m
      → IsValid (opened_conn db o m r).1
  opened_conn-IsValid db o m (err e) h = HasRoom-IsValid db m h
  opened_conn-IsValid db o m (ok _) h = record {
    positive = h.positive;
    bounded = omega (arith, h.room);
    distinct = (h.closed, h.distinct);
  }

  open_conn-IsValid :
      (db : ℕ) (o : Opening) (m : Manager Cell) (r : Result (Unit {0}))
      → HasRoom db m
      → IsValid (open_conn db o m r).1
  unfolding mark_readonly
  open_conn-IsValid db o m (err e) h =
      HasRoom-IsValid db (mark_readonly db m)
        (record { positive = h.positive; room = h.room; closed = h.closed; distinct = h.distinct })
  open_conn-IsValid db o m (ok _) h = opened_conn-IsValid db o m o.format h

  make_room-HasRoom :
      (db : ℕ) (m : Manager Cell)
      → is_open db m.conns ≡ false
      → IsValid m
      → HasRoom db (make_room m)
  make_room-HasRoom db m closed v = elim (Bool-cases (leb m.max_active (length m.conns))) [
    | inl full ↦ rw full (record {
      positive = v.positive;
      room = omega (arith, evict_lru-lt m.conns (ground arith));
      closed = is_open-evict_lru db m.conns closed;
      distinct = evict_lru-Distinct m.conns v.distinct;
    })
    | inr free ↦ rw free (record {
      positive = v.positive;
      room = ground arith;
      closed = closed;
      distinct = v.distinct;
    })
  ]

  -- Connections within a positive limit and distinct stay so when a call on any Cell opens its
  -- connection, whatever the opening returns.
  pub acquire-IsValid :
      (db : ℕ) (o : Opening) (m : Manager Cell) → IsValid m → IsValid (acquire db o m).1
  acquire-IsValid db o m v =
      unfold acquire in
      elim (Bool-cases (is_open db m.conns)) [
        | inl found ↦ rw found v
        | inr closed ↦
            rw closed
              (open_conn-IsValid db o (make_room m) o.opened (make_room-HasRoom db m closed v))
      ]

  pub finish-IsValid :
      (db : ℕ) (o : Opening) (cell : Cell) (m : Manager Cell)
      → IsValid m
      → IsValid (finish db o cell m)
  unfolding finish
  finish-IsValid db o cell m v = record {
    positive = v.positive;
    bounded = omega (arith, length-touch db o.finished m.conns);
    distinct = touch-Distinct db o.finished m.conns v.distinct;
  }

  pub delete_database-IsValid :
      (db : ℕ) (empty : Cell) (m : Manager Cell) → IsValid m → IsValid (delete_database db empty m)
  unfolding delete_database
  delete_database-IsValid db empty m v = record {
    positive = v.positive;
    bounded = omega (arith, length-remove-le db m.conns);
    distinct = remove-Distinct db m.conns v.distinct;
  }

  pub close_database-IsValid :
      (db : ℕ) (m : Manager Cell) → IsValid m → IsValid (close_database db m)
  unfolding close_database
  close_database-IsValid db m v = record {
    positive = v.positive;
    bounded = omega (arith, length-remove-le db m.conns);
    distinct = remove-Distinct db m.conns v.distinct;
  }

  -- A round of maintenance keeps the open connections within a positive limit and distinct.
  pub maintain-IsValid :
      (gc : Cell → Cell) (now : ℕ) (m : Manager Cell) → IsValid m → IsValid (maintain gc now m)
  unfolding maintain
  maintain-IsValid gc now m v = record {
    positive = v.positive;
    bounded = omega (arith, length-awake-le m.idle_timeout now m.conns);
    distinct = awake-Distinct m.idle_timeout now m.conns v.distinct;
  }
