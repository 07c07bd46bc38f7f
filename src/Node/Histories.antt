-- ===== src/Node/Histories.antt =====
-- The invariant over the histories of a node of crates/data-node/src/lib.rs.
use combee.Prelude.{ℕ, String, List, [], ◌∷◌, Bool-cases, inl, inr}
use combee.Prelude.Int.{ℤ, ◌≤ℤ◌}
use combee.Sqlite.{Sqlite}
use combee.Cache.{Moka}
use combee.Manager
use combee.Manager.{Opening}
use combee.Manager.Bounds.{close_database-IsValid}
use combee.Node.{Node, fence_cell}
use combee.Node.Ops.{
  kv_get, kv_set, kv_del, kv_exists, kv_mget, kv_mset, kv_ttl, kv_expire, kv_incr, scan_cache,
  delete_database, reset_database, all_hit, fill_misses,
}
use combee.Node.Coherence.{Right-later}
use combee.Node.Jobs.{
  Keeps-set_job, Keeps-del_job, Keeps-expire_job, Keeps-incr_job, Keeps-fill, Keeps-fill_misses,
  Keeps-mset_job, Keeps-exists, Keeps-ttl,
}
use combee.Node.Invariant.{IsCoherent, with_conn-IsCoherent}
use combee.Node.Calls.{
  Call, get, exists, ttl, set, del, mget, mset, expire, incr, fence, close, round, delete, reset,
  step, run, guarded-IsCoherent, looked-IsCoherent, forgetting, cleared-IsCoherent,
  maintain-IsCoherent, scan_cache-Kept,
}

module _ {Conn Store : Type 0} (sq : Sqlite Conn) (moka : Moka Store) where
  mget-IsCoherent :
      (now : ℤ) (db : ℕ) (o : Opening) (ks : List String) (n : Node Conn Store)
      → IsCoherent sq moka now n
      → IsCoherent sq moka now (kv_mget sq moka db o ks now (λ x. now) n).1
  unfolding kv_mget
  mget-IsCoherent now db o ks n h =
      let (found, c) = scan_cache sq moka db now ks n.cache in
      let after = forgetting sq moka now n c (scan_cache-Kept sq moka db now ks n.cache) h in
      elim (Bool-cases (all_hit found)) [
        | inl x ↦ rw x after
        | inr x ↦ rw x (
            with_conn-IsCoherent sq moka now db o (fill_misses sq moka db (λ x. now) 0 found) _
              (Keeps-fill_misses sq moka now db 0 found) after)
      ]

  step-IsCoherent :
      (now : ℤ) (call : Call Conn) (n : Node Conn Store)
      → IsCoherent sq moka now n
      → IsCoherent sq moka now (step sq moka now call n)
  unfolding step kv_get kv_set kv_del kv_exists kv_ttl kv_mset kv_expire kv_incr fence_cell
      delete_database reset_database
  step-IsCoherent now (get db o k) n h =
      looked-IsCoherent sq moka now db o k n _ _ (Keeps-fill sq moka now now db k) h
  step-IsCoherent now (exists db o k) n h =
      looked-IsCoherent sq moka now db o k n _ _ (Keeps-exists sq moka now db k) h
  step-IsCoherent now (ttl db o k) n h =
      looked-IsCoherent sq moka now db o k n _ _ (Keeps-ttl sq moka now db k) h
  step-IsCoherent now (set db o k v t nx xx g c) n h = guarded-IsCoherent sq moka now _ _ n h (
      guarded-IsCoherent sq moka now _ _ n h (
        guarded-IsCoherent sq moka now _ _ n h (
          guarded-IsCoherent sq moka now _ _ n h (
            guarded-IsCoherent sq moka now _ _ n h (
              with_conn-IsCoherent sq moka now db o _ n (Keeps-set_job sq moka now db k v t nx xx)
                h)))))
  step-IsCoherent now (del db o k g) n h = guarded-IsCoherent sq moka now _ _ n h (
      guarded-IsCoherent sq moka now _ _ n h
        (with_conn-IsCoherent sq moka now db o _ n (Keeps-del_job sq moka now db k) h))
  step-IsCoherent now (mget db o ks) n h = mget-IsCoherent now db o ks n h
  step-IsCoherent now (mset db o items g) n h = guarded-IsCoherent sq moka now _ _ n h (
      guarded-IsCoherent sq moka now _ _ n h (
        guarded-IsCoherent sq moka now _ _ n h
          (with_conn-IsCoherent sq moka now db o _ n (Keeps-mset_job sq moka now db 0 items) h)))
  step-IsCoherent now (expire db o k t g) n h = guarded-IsCoherent sq moka now _ _ n h (
      guarded-IsCoherent sq moka now _ _ n h (
        guarded-IsCoherent sq moka now _ _ n h
          (with_conn-IsCoherent sq moka now db o _ n (Keeps-expire_job sq moka now db k t) h)))
  step-IsCoherent now (incr db o k d t g) n h = guarded-IsCoherent sq moka now _ _ n h (
      guarded-IsCoherent sq moka now _ _ n h (
        guarded-IsCoherent sq moka now _ _ n h
          (with_conn-IsCoherent sq moka now db o _ n (Keeps-incr_job sq moka now db k d t) h)))
  step-IsCoherent now (fence db g) n h = record { right = h.right; connections = h.connections }
  step-IsCoherent now (close db) n h = record {
    right = unfold Manager.close_database in h.right;
    connections = close_database-IsValid db n.manager h.connections;
  }
  step-IsCoherent now (round moment) n h = maintain-IsCoherent sq moka now moment n h
  step-IsCoherent now (delete db left) n h = cleared-IsCoherent sq moka now db left n h
  step-IsCoherent now (reset db removed left) n h = cleared-IsCoherent sq moka now db left n h

  -- The moments of a history do not go back.
  abbrev pub InOrder : ℤ → List (ℤ × Call Conn) → Type 0
  InOrder start [] = Unit
  InOrder start ((now, c) ∷ calls) = (start ≤ℤ now) × InOrder now calls

  abbrev pub last_moment : ℤ → List (ℤ × Call Conn) → ℤ
  last_moment start [] = start
  last_moment start ((now, c) ∷ calls) = last_moment now calls

  later-IsCoherent :
      (now later : ℤ) (n : Node Conn Store)
      → now ≤ℤ later
      → IsCoherent sq moka now n
      → IsCoherent sq moka later n
  later-IsCoherent now later n le h = record {
    right = λ db k. Right-later now later _ _ le (h.right db k);
    connections = h.connections;
  }

  -- Take a node whose cache shows nothing that is not visible in the table of its Cell, and whose
  -- open connections are distinct and within the limit. After any KV calls but SCAN, fences,
  -- closings, rounds of maintenance, deletions that succeed and resets, in any order on any Cells,
  -- at moments that do not go back, each of which sees one moment, both still hold: whatever fails
  -- in SQLite, in an opening or in a reset, and whatever the cache evicts.
  pub run-IsCoherent :
      (start : ℤ) (calls : List (ℤ × Call Conn)) (n : Node Conn Store)
      → IsCoherent sq moka start n
      → InOrder start calls
      → IsCoherent sq moka (last_moment start calls) (run sq moka calls n)
  unfolding run
  run-IsCoherent start [] n h order = h
  run-IsCoherent start ((now, c) ∷ calls) n h order =
      run-IsCoherent now calls (step sq moka now c n)
        (step-IsCoherent now c n (later-IsCoherent start now n order.0 h)) order.1
