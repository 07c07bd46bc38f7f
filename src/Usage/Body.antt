-- ===== src/Usage/Body.antt =====
-- crates/api-server/src/usage.rs: the wrapper that counts the bytes of a body and reports them once.
use combee.Prelude.{
  ℕ, ◌+◌, ◌%◌, ◌^◌, ◌≡◌, refl, Bool, true, false, Option, none, some, List, [], ◌∷◌, arith, ◌∙◌,
  if◌then◌else◌,
}
use combee.Usage.{add_u64}

-- What polling the inner body may give: a frame of so many bytes of data, or a frame without data.
pub data Poll : Type 0 where
  pending ended failed trailers : Poll
  data_frame : ℕ → Poll

-- `CountingBody`, less the inner body; `on_done` tells whether the callback is still there.
pub record CountingBody : Type 0 where
  pub bytes : ℕ
  pub done : Bool
  pub on_done : Bool

abbrev pub fresh_body : CountingBody
fresh_body = record { bytes = 0; done = false; on_done = true }

-- `CountingBody::poll_frame`, with the total for which the callback runs.
unfoldable pub poll_frame : Poll → CountingBody → Option ℕ × CountingBody
poll_frame pending b = (none, b)
poll_frame failed b = (none, b)
poll_frame trailers b = (none, b)
poll_frame (data_frame n) b = (none, record b { bytes = add_u64 b.bytes n })
poll_frame ended b =
    if b.done
    then (none, b)
    else (if b.on_done then some b.bytes else none, record b { done = true; on_done = false })

abbrev pub called : Option ℕ → List ℕ → List ℕ
called none ns = ns
called (some n) ns = n ∷ ns

-- The totals that the callback is given while a body is polled.
unfoldable pub poll_all : List Poll → CountingBody → List ℕ
unfolding poll_frame
poll_all [] b = []
poll_all (p ∷ ps) b = let (answer, b') = poll_frame p b in called answer (poll_all ps b')

-- The bytes of the frames before the end, if the end is reached.
abbrev pub bytes_until_end : List Poll → Option ℕ
bytes_until_end [] = none
bytes_until_end (pending ∷ ps) = bytes_until_end ps
bytes_until_end (failed ∷ ps) = bytes_until_end ps
bytes_until_end (trailers ∷ ps) = bytes_until_end ps
bytes_until_end (ended ∷ ps) = some 0
bytes_until_end (data_frame n ∷ ps) = elim (bytes_until_end ps) [
  | none ↦ none
  | some m ↦ some (n + m)
]

abbrev pub reported : ℕ → Option ℕ → List ℕ
reported before none = []
reported before (some n) = (before + n) % 2 ^ 64 ∷ []

poll_all-done :
    (ps : List Poll) (n : ℕ) (c : Bool)
    → poll_all ps (record { bytes = n; done = true; on_done = c }) ≡ []
unfolding poll_all poll_frame
poll_all-done [] n c = refl
poll_all-done (pending ∷ ps) n c = poll_all-done ps n c
poll_all-done (failed ∷ ps) n c = poll_all-done ps n c
poll_all-done (trailers ∷ ps) n c = poll_all-done ps n c
poll_all-done (ended ∷ ps) n c = poll_all-done ps n c
poll_all-done (data_frame k ∷ ps) n c = poll_all-done ps (add_u64 n k) c

reported_shift :
    (n k : ℕ) (o : Option ℕ)
    → reported (add_u64 n k) o ≡ reported n (elim o [ none ↦ none | some m ↦ some (k + m) ])
reported_shift n k none = refl
reported_shift n k (some m) = ground arith

poll_all_from :
    (ps : List Poll) (n : ℕ)
    → n % 2 ^ 64 ≡ n
    → poll_all ps (record { bytes = n; done = false; on_done = true })
      ≡ reported n (bytes_until_end ps)
unfolding poll_all poll_frame
poll_all_from [] n h = refl
poll_all_from (pending ∷ ps) n h = poll_all_from ps n h
poll_all_from (failed ∷ ps) n h = poll_all_from ps n h
poll_all_from (trailers ∷ ps) n h = poll_all_from ps n h
poll_all_from (ended ∷ ps) n h = ground (arith, h, poll_all-done ps n false)
poll_all_from (data_frame k ∷ ps) n h =
    poll_all_from ps (add_u64 n k) (omega arith) ∙ reported_shift n k (bytes_until_end ps)

-- The callback runs for the bytes before the end of the body, and not at all without an end.
pub poll_all_lem : (ps : List Poll) → poll_all ps fresh_body ≡ reported 0 (bytes_until_end ps)
poll_all_lem ps = poll_all_from ps 0 refl
