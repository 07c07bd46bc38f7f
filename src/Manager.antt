-- ===== src/Manager.antt =====
-- crates/data-node/src/manager.rs: which Cells have an open connection. The mutex of `conns` makes
-- each operation below one step. A `Cell` keeps its content while its connection is closed, so the
-- content stands in `cells`; opening a file and checking its format are inputs (`Opening`).
-- Lock statistics, interrupt handles, the manifest and the log are not modelled.
pub mod Bounds
pub mod Lru
use combee.Prelude.{
  ℕ, ◌-◌, Bool, true, false, not, Option, none, some, List, [], ◌∷◌, length, ltb, leb, ◌==◌, max,
  if◌then◌else◌,
}
use combee.Errors.{Result, ok, err}
use combee.Exec.{Exec}

-- Instants are numbers.
pub record Entry : Type 0 where
  pub id : ℕ
  pub last_used : ℕ

pub record Manager (Cell : Type 0) : Type 0 where
  pub max_active : ℕ
  pub idle_timeout : ℕ
  pub conns : List Entry
  pub readonly : ℕ → Bool
  pub cells : ℕ → Cell

-- One call of `with_conn`: what `storage::open` and `check_format_version` return if the Cell has
-- no connection, and the moments at which the closure starts and ends.
pub record Opening : Type 0 where
  pub opened : Result (Unit {0})
  pub format : Result (Unit {0})
  pub started : ℕ
  pub finished : ℕ

abbrev pub update {ℓ} : {A : Type ℓ} → (ℕ → A) → ℕ → A → ℕ → A
update f k v j = if k == j then v else f j

unfoldable pub is_open : ℕ → List Entry → Bool
is_open db [] = false
is_open db (e ∷ es) = let rest = is_open db es in if e.id == db then true else rest

-- `conns.remove`
unfoldable pub remove : ℕ → List Entry → List Entry
remove db [] = []
remove db (e ∷ es) = let rest = remove db es in if e.id == db then rest else e ∷ rest

-- `min_by_key` over `last_used`: the first of the least.
unfoldable pub oldest : Entry → List Entry → Entry
oldest e [] = e
oldest e (f ∷ fs) = oldest (if ltb f.last_used e.last_used then f else e) fs

unfoldable pub evict_lru : List Entry → List Entry
unfolding oldest remove
evict_lru [] = []
evict_lru (e ∷ es) = remove (oldest e es).id (e ∷ es)

-- `entry.last_used = Instant::now()`
unfoldable pub touch : ℕ → ℕ → List Entry → List Entry
touch db now [] = []
touch db now (e ∷ es) = (if e.id == db then record e { last_used = now } else e) ∷ touch db now es

module _ {Cell : Type 0} where
  -- `ActiveDbManager::new`
  unfoldable pub new : ℕ → ℕ → (ℕ → Cell) → Manager Cell
  new max_active_dbs idle_timeout cells = record {
    max_active = max max_active_dbs 1;
    idle_timeout = idle_timeout;
    conns = [];
    readonly = λ db. false;
    cells = cells;
  }

  abbrev pub make_room : Manager Cell → Manager Cell
  make_room m =
      if leb m.max_active (length m.conns) then record m { conns = evict_lru m.conns } else m

  unfoldable pub mark_readonly : ℕ → Manager Cell → Manager Cell
  mark_readonly db m = record m { readonly = update m.readonly db true }

  abbrev pub insert_conn : ℕ → ℕ → Manager Cell → Manager Cell
  insert_conn db now m = record m { conns = record { id = db; last_used = now } ∷ m.conns }

  abbrev pub opened_conn :
      ℕ → Opening → Manager Cell → Result (Unit {0}) → Result (Unit {0}) × Manager Cell
  opened_conn db o m (err e) = (err e, m)
  opened_conn db o m (ok _) = (ok tt, insert_conn db o.started m)

  abbrev pub open_conn :
      ℕ → Opening → Manager Cell → Result (Unit {0}) → Result (Unit {0}) × Manager Cell
  open_conn db o m (err e) = (err e, mark_readonly db m)
  open_conn db o m (ok _) = opened_conn db o m o.format

  -- The `match conns.get_mut(&db)` of `with_conn`: an open connection, or room for one and a new one.
  unfoldable pub acquire : ℕ → Opening → Manager Cell → Result (Unit {0}) × Manager Cell
  unfolding is_open evict_lru mark_readonly
  acquire db o m = if is_open db m.conns then (ok tt, m) else open_conn db o (make_room m) o.opened

  -- The closure's changes to the Cell stay, whatever it returns.
  unfoldable pub finish : ℕ → Opening → Cell → Manager Cell → Manager Cell
  unfolding touch
  finish db o cell m = record m {
    conns = touch db o.finished m.conns;
    cells = update m.cells db cell;
  }

  -- `delete_database`, where removing the files has succeeded: the Cell starts empty.
  unfoldable pub delete_database : ℕ → Cell → Manager Cell → Manager Cell
  unfolding remove
  delete_database db empty m = record m {
    conns = remove db m.conns;
    cells = update m.cells db empty;
  }

  unfoldable pub close_database : ℕ → Manager Cell → Manager Cell
  unfolding remove
  close_database db m = record m { conns = remove db m.conns }

  unfoldable pub close_all : Manager Cell → Manager Cell
  close_all m = record m { conns = [] }

-- The idle connections that a round of maintenance closes.
unfoldable pub awake : ℕ → ℕ → List Entry → List Entry
awake timeout now [] = []
awake timeout now (e ∷ es) =
    let rest = awake timeout now es in if ltb timeout (now - e.last_used) then rest else e ∷ rest

module _ {Cell : Type 0} where
  -- `gc_expired` on every connection that is still open; its errors are only logged.
  unfoldable pub gc_open : (Cell → Cell) → List Entry → (ℕ → Cell) → ℕ → Cell
  gc_open gc [] cells = cells
  gc_open gc (e ∷ es) cells = gc_open gc es (update cells e.id (gc (cells e.id)))

  -- One round of `spawn_maintenance`.
  unfoldable pub maintain : (Cell → Cell) → ℕ → Manager Cell → Manager Cell
  unfolding awake gc_open
  maintain gc now m =
      let conns = awake m.idle_timeout now m.conns in
      record m { conns = conns; cells = gc_open gc conns m.cells }
