-- ===== src/Api/Nodes.antt =====
-- crates/api-server/src/nodes.rs: the registry of data nodes of an API server, alone or as a cache of
-- what the store knows. Moments of the monotonic clock are in nanoseconds.
use combee.Prelude.{
  ℕ, ◌-◌, ◌*◌, String, Bool, true, false, Option, none, some, List, [], ◌∷◌, ◌==◌, if◌then◌else◌,
}
use combee.Prelude.Int.{ℤ, pos, ◌-ℤ◌, ltb_ℤ}
use combee.Errors.{Result, ok, err}
use combee.Access.{
  Access, DataNodeRecord, is_none, upsert_data_node, heartbeat_data_node, unregister_data_node,
}

abbrev pub nanos : ℕ → ℕ
nanos secs = secs * 1000000000

-- `HEARTBEAT_TIMEOUT` and `PG_CACHE_TTL`
abbrev pub heartbeat_timeout : ℕ
heartbeat_timeout = nanos 10

abbrev pub pg_cache_ttl : ℕ
pg_cache_ttl = nanos 3

pub record NodeEntry : Type 0 where
  pub addr : String
  pub capacity : ℕ
  pub active_conns : ℕ
  pub last_heartbeat : ℤ
  pub registered_at : ℤ

-- `NodeRegistry`: the entries in the order in which the map is walked. With `pg`, the store that
-- the servers share is the authority.
pub record NodeRegistry : Type 0 where
  pub inner : List (ℕ × NodeEntry)
  pub rr : ℕ
  pub pg : Option Access
  pub cache_ttl : ℕ
  pub last_refresh : ℤ

-- `NodeRegistry::new` and `NodeRegistry::with_pg`
abbrev pub new_registry : ℤ → NodeRegistry
new_registry now = record {
  inner = [];
  rr = 0;
  pg = none;
  cache_ttl = pg_cache_ttl;
  last_refresh = now;
}

unfoldable pub with_pg : Access → ℤ → NodeRegistry
unfolding ◌-ℤ◌
with_pg pg now = record {
  inner = [];
  rr = 0;
  pg = some pg;
  cache_ttl = pg_cache_ttl;
  last_refresh = now -ℤ pos pg_cache_ttl;
}

unfoldable pub find_entry : ℕ → List (ℕ × NodeEntry) → Option NodeEntry
find_entry id [] = none
find_entry id ((k, e) ∷ es) = let rest = find_entry id es in if k == id then some e else rest

-- `insert`, and the change of an entry in its place.
unfoldable pub put_entry : ℕ → NodeEntry → List (ℕ × NodeEntry) → List (ℕ × NodeEntry)
put_entry id e [] = (id, e) ∷ []
put_entry id e ((k, f) ∷ es) =
    let rest = put_entry id e es in if k == id then (k, e) ∷ es else (k, f) ∷ rest

unfoldable pub without_entry : ℕ → List (ℕ × NodeEntry) → List (ℕ × NodeEntry)
without_entry id [] = []
without_entry id ((k, e) ∷ es) =
    let rest = without_entry id es in if k == id then rest else (k, e) ∷ rest

-- The entry that a record of the store becomes.
unfoldable pub entry_of : ℤ → ℕ → DataNodeRecord → NodeEntry
unfolding ◌-ℤ◌
entry_of now now_unix r = record {
  addr = r.addr;
  capacity = r.capacity;
  active_conns = r.active_conns;
  last_heartbeat = now -ℤ pos (nanos (now_unix - r.last_heartbeat_at));
  registered_at = now -ℤ pos (nanos (now_unix - r.created_at));
}

unfoldable pub load_entries :
    ℤ → ℕ → List DataNodeRecord → List (ℕ × NodeEntry) → List (ℕ × NodeEntry)
unfolding put_entry entry_of
load_entries now now_unix [] es = es
load_entries now now_unix (r ∷ rs) es =
    load_entries now now_unix rs (put_entry r.id (entry_of now now_unix r) es)

abbrev pub refreshed : ℤ → ℕ → Result (List DataNodeRecord) → NodeRegistry → NodeRegistry
refreshed now now_unix (err e) g = g
refreshed now now_unix (ok rs) g = record g {
  inner = load_entries now now_unix rs [];
  last_refresh = now;
}

-- `ensure_fresh`, given what listing the data nodes of the store answers.
unfoldable pub ensure_fresh : ℤ → ℕ → Result (List DataNodeRecord) → NodeRegistry → NodeRegistry
unfolding load_entries ◌-ℤ◌
ensure_fresh now now_unix listed g =
    if is_none g.pg
    then g
    else if ltb_ℤ (now -ℤ g.last_refresh) (pos g.cache_ttl)
    then g
    else refreshed now now_unix listed g

abbrev pub registered : String → ℕ → ℤ → Option NodeEntry → NodeEntry
registered addr capacity now none = record {
  addr = addr;
  capacity = capacity;
  active_conns = 0;
  last_heartbeat = now;
  registered_at = now;
}
registered addr capacity now (some e) = record e {
  addr = addr;
  capacity = capacity;
  last_heartbeat = now;
}

abbrev pub on_store : (Access → Access) → Option Access → Option Access
on_store f none = none
on_store f (some a) = some (f a)

-- `register_with_id`; an identifier that the source draws is given.
unfoldable pub register_with_id : ℕ → String → ℕ → ℤ → ℕ → NodeRegistry → NodeRegistry
unfolding find_entry put_entry upsert_data_node
register_with_id id addr capacity now now_unix g = record g {
  inner = put_entry id (registered addr capacity now (find_entry id g.inner)) g.inner;
  pg = on_store (upsert_data_node id addr capacity now_unix) g.pg;
}

-- `heartbeat`: whether the node is known.
unfoldable pub heartbeat : ℕ → ℕ → ℤ → ℕ → NodeRegistry → Bool × NodeRegistry
unfolding find_entry put_entry heartbeat_data_node
heartbeat id active_conns now now_unix g = elim (find_entry id g.inner) [
  | none ↦ (false, g)
  | some e ↦ (
    true,
    record g {
      inner = put_entry id (record e { active_conns = active_conns; last_heartbeat = now }) g.inner;
      pg = on_store (λ a. (heartbeat_data_node id active_conns now_unix a).1) g.pg;
    },
  )
]

-- `unregister`: whether the node was there.
unfoldable pub unregister : ℕ → NodeRegistry → Bool × NodeRegistry
unfolding find_entry without_entry unregister_data_node
unregister id g = elim (find_entry id g.inner) [
  | none ↦ (false, record g { inner = without_entry id g.inner })
  | some e ↦ (
    true,
    record g {
      inner = without_entry id g.inner;
      pg = on_store (λ a. (unregister_data_node id a).1) g.pg;
    },
  )
]
