-- ===== src/Fetch/Service.antt =====
-- The loading waterfall: pkg/fetch/orchestrator.go. The state holds the world outside (network,
-- browser, clock) next to the routes, the clearances, the calls of their stores so far, and the
-- runState of the call. The outside is the parameter `Env`: fetchers that change the world, its
-- clock, url.ParseRequestURI, and ExtractHTML of pkg/fetch/extract.go. The context is left out:
-- a fetcher that is cut off answers with an error.
pub mod Defs
pub mod Stages
pub mod Order
pub mod Outcomes
pub mod Learning
use pagelode.Prelude.{Str, Option, none, some, true, []}
use pagelode.Fetch.Page.{no_session, Session}
use pagelode.Fetch.Routes.{Routes}
use pagelode.Fetch.Clearances.{Clearances}
use pagelode.Fetch.Service.Defs.{
  Env, State, RunState, Result, StoreCall, Fallible, ok, err, new_run_state, needs_browser_result,
}
use pagelode.Fetch.Service.Stages.{Stage, finished, pending, http_stage, try_patchright}

-- What stays from call to call.
pub record Held (W : Type 0) : Type 0 where
  pub world : W
  pub routes : Routes
  pub clearances : Clearances

module _ {W : Type 0} (env : Env W) where
  abbrev pub start : Held W → RunState → State W
  start h r = record {
    world = h.world;
    routes = h.routes;
    clearances = h.clearances;
    calls = [];
    run = r;
  }

  after_http : Stage × State W → Fallible Result × State W
  after_http (finished result, s) = (ok result, s)
  after_http (pending session, s) = try_patchright env session s

  after_http_only : Stage × State W → Fallible Result × State W
  after_http_only (finished result, s) = (ok result, s)
  after_http_only (pending session, s) = (ok (needs_browser_result s.run), s)

  -- The body of each of the three methods, from the runState on.
  pub extract_from : State W → Fallible Result × State W
  unfolding after_http
  extract_from s = after_http (http_stage env s)

  pub extract_http_from : State W → Fallible Result × State W
  unfolding after_http_only
  extract_http_from s = after_http_only (http_stage env s)

  pub extract_browser_from : State W → Fallible Result × State W
  extract_browser_from s =
      let r = s.run in
      try_patchright env no_session (record s { run = record r { defer_on_capacity = true } })

  abbrev pub run_with :
      (State W → Fallible Result × State W)
      → Held W
      → Fallible RunState
      → Fallible Result × Option (State W)
  run_with body h (err e) = (err e, none)
  run_with body h (ok r) = let (result, s) = body (start h r) in (result, some s)

  -- Extract, ExtractHTTP and ExtractBrowser; no state where the URL is refused.
  unfoldable pub extract : Held W → Str → Fallible Result × Option (State W)
  unfolding extract_from
  extract h input = run_with extract_from h (new_run_state env.parse_request_uri input)

  unfoldable pub extract_http : Held W → Str → Fallible Result × Option (State W)
  unfolding extract_http_from
  extract_http h input = run_with extract_http_from h (new_run_state env.parse_request_uri input)

  unfoldable pub extract_browser : Held W → Str → Fallible Result × Option (State W)
  unfolding extract_browser_from
  extract_browser h input =
      run_with extract_browser_from h (new_run_state env.parse_request_uri input)
