-- ===== src/Api/Routing.antt =====
-- crates/api-server/src/client.rs: the provider that finds the data node of a Cell. What the registry and
-- the catalogue answer when they are asked are arguments: they may change between two questions. A request
-- reads the clock once, and the configuration that the clients only pass on is left out.
use combee.Prelude.{
  ℕ, ◌*◌, ◌≡◌, String, true, false, Option, none, some, ◌==◌, arith, if◌then◌else◌,
}
use combee.Prelude.Int.{ℤ, pos, ◌-ℤ◌, ltb_ℤ}
use combee.Errors.{Result, ok, err, internal}
use combee.Exec.{Exec}
use combee.Catalog.{DatabaseRecord}

-- A client of a data node: the one in the process, or the remote one at an address, with the Cell whose
-- route its `on_error` hook clears.
pub data Client : Type 0 where
  in_process : Client
  remote : String → Option ℕ → Client

-- `RoutingProvider`, less what it only passes on.
pub record RoutingProvider : Type 0 where
  pub clients : ℕ → Option Client
  pub local : Option Client
  pub route_cache : ℕ → Option (ℕ × ℤ)

abbrev pub set_entry {ℓ} : {A : Type ℓ} → (ℕ → Option A) → ℕ → Option A → ℕ → Option A
set_entry m k v j = if k == j then v else m j

-- `ROUTE_CACHE_TTL`, in nanoseconds
abbrev pub route_cache_ttl : ℤ
route_cache_ttl = pos (5 * 1000000000)

-- `RoutingProvider::new`
abbrev pub new_provider : Option Client → RoutingProvider
new_provider local = record { clients = λ n. none; local = local; route_cache = λ db. none }

-- `invalidate_route`
unfoldable pub invalidate_route : ℕ → RoutingProvider → RoutingProvider
invalidate_route db p = record p { route_cache = set_entry p.route_cache db none }

unfoldable pub make_client : ℕ → ℕ → String → RoutingProvider → Client × RoutingProvider
make_client db node_id addr p = (
  remote addr (some db),
  record p { clients = set_entry p.clients node_id (some (remote addr (some db))) },
)

-- The `on_error` hook, which a client runs when a call of it fails.
unfoldable pub on_error : Client → RoutingProvider → RoutingProvider
unfolding invalidate_route
on_error in_process p = p
on_error (remote addr none) p = p
on_error (remote addr (some db)) p = invalidate_route db p

abbrev pub cache_route : ℕ → ℕ → ℤ → RoutingProvider → RoutingProvider
cache_route db node_id now p = record p {
  route_cache = set_entry p.route_cache db (some (node_id, now));
}

-- An address for a node, as the registry has it.
abbrev pub Addresses : Type 0
Addresses = ℕ → Option String

abbrev pub made : ℕ → ℕ → Option String → Exec RoutingProvider Client
made db node_id none p = (err internal, p)
made db node_id (some addr) p = let (c, p') = make_client db node_id addr p in (ok c, p')

-- The second look at the catalogue, when the node of the first is not available. The client is made
-- under the node of the first look.
abbrev pub retry_with : ℕ → ℕ → ℤ → Addresses → Option ℕ → Exec RoutingProvider Client
retry_with db node_id now again none p = (err internal, p)
retry_with db node_id now again (some node2) p =
    made db node_id (again node2) (cache_route db node2 now p)

abbrev pub retry : ℕ → ℕ → ℤ → Addresses → Result DatabaseRecord → Exec RoutingProvider Client
retry db node_id now again (err e) p = (err e, invalidate_route db p)
retry db node_id now again (ok r) p =
    retry_with db node_id now again r.storage_node_id (invalidate_route db p)

abbrev pub local_client : Option Client → Result Client
local_client none = err internal
local_client (some c) = ok c

-- The way through the catalogue.
abbrev pub by_record :
    ℕ → ℤ → Addresses → Addresses → Result DatabaseRecord → Option ℕ → Exec RoutingProvider Client
by_record db now first again second none p = (local_client p.local, p)
by_record db now first again second (some node_id) p = elim (first node_id) [
  | some addr ↦ made db node_id (some addr) (cache_route db node_id now p)
  | none ↦ retry db node_id now again second (cache_route db node_id now p)
]

abbrev pub by_authority :
    ℕ
    → ℤ
    → Addresses
    → Addresses
    → Result DatabaseRecord
    → Result DatabaseRecord
    → Exec RoutingProvider Client
by_authority db now first again (err e) second p = (err e, p)
by_authority db now first again (ok r) second p =
    by_record db now first again second r.storage_node_id p

-- `client_for` at the moment `now`; `found` and `second` are what the catalogue answers, `first` and
-- `again` the addresses before and after the second look.
unfoldable pub client_for :
    ℕ
    → ℤ
    → Addresses
    → Addresses
    → Result DatabaseRecord
    → Result DatabaseRecord
    → Exec RoutingProvider Client
unfolding make_client invalidate_route ◌-ℤ◌
client_for db now first again found second p = elim (p.route_cache db) [
  | none ↦ by_authority db now first again found second p
  | some cached ↦
      if ltb_ℤ (now -ℤ cached.1) route_cache_ttl
      then (elim (p.clients cached.0) [
        | some c ↦ (ok c, p)
        | none ↦ (elim (first cached.0) [
          | some addr ↦ made db cached.0 (some addr) p
          | none ↦ by_authority db now first again found second (invalidate_route db p)
        ])
      ])
      else by_authority db now first again found second p
]

-- `client_for_node`
unfoldable pub client_for_node : ℕ → Addresses → Exec RoutingProvider Client
client_for_node node_id addresses p = elim (addresses node_id) [
  | none ↦ (err internal, p)
  | some addr ↦ (elim (p.clients node_id) [
    | some c ↦ (ok c, p)
    | none ↦ (
      ok (remote addr none),
      record p { clients = set_entry p.clients node_id (some (remote addr none)) },
    )
  ])
]

-- Let no route of the Cell be cached, its first node have no address, and the second look at the
-- catalogue find a node that has one. The request then gets a client for the address of the second
-- node, and a later client_for_node of the first node, when that has an address again, returns
-- this client for the second node.
pub retry_misfiles_client :
    (db : ℕ) (now : ℤ) (p : RoutingProvider) (first again later : Addresses) (r r2 : DatabaseRecord)
    (old new : ℕ) (old_addr new_addr : String)
    → p.route_cache db ≡ none
    → r.storage_node_id ≡ some old
    → first old ≡ none
    → r2.storage_node_id ≡ some new
    → again new ≡ some new_addr
    → later old ≡ some old_addr
    → let routed = client_for db now first again (ok r) (ok r2) p in
      (routed.0 ≡ ok (remote new_addr (some db)))
      × ((client_for_node old later routed.1).0 ≡ ok (remote new_addr (some db)))
unfolding client_for client_for_node make_client
retry_misfiles_client db now p first again later r r2 old new old_addr new_addr cold at_old down
      at_new up back =
    (
      ground (arith, cold, at_old, down, at_new, up),
      ground (arith, cold, at_old, down, at_new, up, back),
    )

-- Let two different Cells, whose routes are not cached, have their home on one node that has an
-- address, and let a request for each of them be routed. A further request for the first Cell,
-- while its route is fresh, then gets a client whose failure leaves the route of the first Cell in
-- the cache.
pub failure_clears_other_route :
    (a b : ℕ) (t1 t2 t3 : ℤ) (p : RoutingProvider) (first again : Addresses)
    (ra rb : DatabaseRecord) (sa sb found second : Result DatabaseRecord) (home : ℕ) (addr : String)
    → p.route_cache a ≡ none
    → p.route_cache b ≡ none
    → (a == b) ≡ false
    → ra.storage_node_id ≡ some home
    → rb.storage_node_id ≡ some home
    → first home ≡ some addr
    → ltb_ℤ (t3 -ℤ t1) route_cache_ttl ≡ true
    → let p1 = (client_for a t1 first again (ok ra) sa p).1 in
      let p2 = (client_for b t2 first again (ok rb) sb p1).1 in
      let third = client_for a t3 first again found second p2 in
      (third.0 ≡ ok (remote addr (some b)))
      × ((on_error (remote addr (some b)) third.1).route_cache a ≡ some (home, t1))
unfolding client_for make_client on_error invalidate_route ◌-ℤ◌
failure_clears_other_route a b t1 t2 t3 p first again ra rb sa sb found second home addr cold_a
      cold_b ab at_a at_b up fresh =
    (
      ground (arith, cold_a, cold_b, ab, at_a, at_b, up, fresh),
      ground (arith, cold_a, cold_b, ab, at_a, at_b, up, fresh),
    )
