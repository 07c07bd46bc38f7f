-- ===== src/Usage/Tracking.antt =====
-- crates/api-server/src/usage.rs: the middleware that meters each request.
use Prim.Native.String.{String}
use combee.Prelude.{
  ℕ, ◌≡◌, refl, Bool, true, false, Option, List, [], ◌∷◌, ◌++◌, map, arith, if◌then◌else◌,
}
use combee.Prelude.Int.{ℤ}
use combee.Usage.{UsageMetric, UsageStore, UsageMeter, requests, bytes_in, bytes_out, record_usage}
use combee.Api.{AuthContext, is_internal, tenant_of, starts_with, parse_cell_from_path}
use combee.Usage.Body.{Poll, poll_all, fresh_body, bytes_until_end, reported, poll_all_lem}
use combee.Usage.Flush.{MeterEvent, recorded, after_events}

-- `USAGE_SELF_PATHS.iter().any(|p| path.starts_with(p))`
unfoldable pub starts_with_any : List String → String → Bool
unfolding starts_with
starts_with_any [] s = false
starts_with_any (p ∷ ps) s =
    let rest = starts_with_any ps s in if starts_with s p then true else rest

abbrev pub usage_self_paths : List String
usage_self_paths =
    "/v1/usage/summary" ∷ "/v1/usage/timeseries" ∷ "/v1/cells/" ∷ "/v1/credits/balance"
    ∷ "/v1/credits/transactions" ∷ []

module _ {S : Type 0} (st : UsageStore S) where
  -- The callback of a body: a record of what it reports.
  unfoldable pub report : ℕ → Option ℕ → UsageMetric → ℤ → List ℕ → UsageMeter S → UsageMeter S
  unfolding record_usage
  report tenant cell metric now [] m = m
  report tenant cell metric now (n ∷ ns) m =
      report tenant cell metric now ns (record_usage st tenant cell metric n now m)

  -- `usage_tracking` around a handler that records `handled`; `ins` and `outs` are what polling the
  -- two bodies gives, and the three moments those of the records.
  unfoldable pub usage_tracking :
      (String → Option ℕ)
      → Option AuthContext
      → String
      → List Poll
      → List Poll
      → ℤ × ℤ × ℤ
      → List MeterEvent
      → UsageMeter S
      → UsageMeter S
  unfolding report parse_cell_from_path poll_all starts_with_any
  usage_tracking parse_id auth path ins outs (begun, read, sent) handled m =
      if is_internal auth
      then after_events st handled m
      else if starts_with_any usage_self_paths path
      then after_events st handled m
      else (let tenant = tenant_of auth in
          let cell = parse_cell_from_path parse_id path in
          let m = record_usage st tenant cell requests 1 begun m in
          let m = report tenant cell bytes_in read (poll_all ins fresh_body) m in
          report tenant cell bytes_out sent (poll_all outs fresh_body) (after_events st handled m))

  report-after_events :
      (tenant : ℕ) (cell : Option ℕ) (metric : UsageMetric) (now : ℤ) (ns : List ℕ)
      (m : UsageMeter S)
      → report tenant cell metric now ns m
        ≡ after_events st (map (λ n. recorded tenant cell metric n now) ns) m
  unfolding report
  report-after_events tenant cell metric now [] m = refl
  report-after_events tenant cell metric now (n ∷ ns) m =
      report-after_events tenant cell metric now ns (record_usage st tenant cell metric n now m)

  after_events-append :
      (es fs : List MeterEvent) (m : UsageMeter S)
      → after_events st (es ++ fs) m ≡ after_events st fs (after_events st es m)
  after_events-append [] fs m = refl
  after_events-append (e ∷ es) fs m = after_events-append es fs _

  abbrev pub bytes_recorded : ℕ → Option ℕ → UsageMetric → ℤ → List Poll → List MeterEvent
  bytes_recorded tenant cell metric now ps =
      map (λ n. recorded tenant cell metric n now) (reported 0 (bytes_until_end ps))

  -- A request that is not internal and whose path is not one of those that show usage is metered
  -- as one request, then the bytes of its body, then what its handler records, then the bytes of
  -- the answer. A body counts once, with the frames before its end, and not at all if its end is
  -- not reached.
  pub usage_tracking_lem :
      (parse_id : String → Option ℕ) (auth : Option AuthContext) (path : String)
      (ins outs : List Poll) (begun read sent : ℤ) (handled : List MeterEvent) (m : UsageMeter S)
      → is_internal auth ≡ false
      → starts_with_any usage_self_paths path ≡ false
      → usage_tracking parse_id auth path ins outs (begun, read, sent) handled m ≡ (
          let tenant = tenant_of auth in
          let cell = parse_cell_from_path parse_id path in
          after_events st
            (recorded tenant cell requests 1 begun
              ∷ (bytes_recorded tenant cell bytes_in read ins
                  ++ (handled ++ bytes_recorded tenant cell bytes_out sent outs)))
            m)
  unfolding usage_tracking
  usage_tracking_lem parse_id auth path ins outs begun read sent handled m outside metered =
      let tenant = tenant_of auth in
      let cell = parse_cell_from_path parse_id path in
      let m1 = record_usage st tenant cell requests 1 begun m in
      let es = bytes_recorded tenant cell bytes_in read ins in
      let fs = bytes_recorded tenant cell bytes_out sent outs in
      let m2 = after_events st es m1 in
      ground (
        arith,
        outside,
        metered,
        poll_all_lem ins,
        poll_all_lem outs,
        report-after_events tenant cell bytes_in read (reported 0 (bytes_until_end ins)) m1,
        report-after_events tenant cell bytes_out sent (reported 0 (bytes_until_end outs))
            (after_events st handled m2),
        after_events-append es (handled ++ fs) m1,
        after_events-append handled fs m2,
      )
