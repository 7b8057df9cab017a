-- ===== src/Fetch/Service/Order/Browser.antt =====
-- The browser and CapSolver stages of pkg/fetch/orchestrator.go keep the order of the attempts.
use pagelode.Prelude.{Option, none, some, List, arith, inl, inr, Bool-cases}
use pagelode.Fetch.Page.{patchright, capsolver, Session, Document, Kind, dead}
use pagelode.Fetch.Service.Defs.{FetchError, was_tried, failed_result, Env, Fetcher, Result, State}
use pagelode.Fetch.Service.Stages.{
  capsolver_judged, capsolver_resolved, capsolver_fetch, give_up_or_solve, patchright_resolved,
  patchright_judged, patchright_fetch, keep_browser, Judged, try_capsolver, try_patchright,
}
use pagelode.Fetch.Service.Order.Attempts.{
  Asked, browser_fetcher, capsolver_fetcher, listening_option, logged, Asks, Given, Returned,
  Solved, Asks-le, Asks-attempt, Given-resolve_document,
}

module _ {W : Type 0} (plain : Env W) where
  capsolver_resolved-Asks :
      (d : Document) (kind : Kind) (x : Option Result × State (W × List Asked))
      → Given 4 x
      → Solved 4 (capsolver_resolved (logged plain) d kind x)
  unfolding capsolver_resolved failed_result
  capsolver_resolved-Asks d kind (some result, s) g = g
  capsolver_resolved-Asks d dead (none, s) g = g
  capsolver_resolved-Asks d _ (none, s) g = g

  capsolver_judged-Asks :
      (x : Judged × State (W × List Asked))
      → Asks 4 x.1.world.1 x.1.run.attempts
      → Solved 4 (capsolver_judged (logged plain) x)
  unfolding capsolver_judged failed_result
  capsolver_judged-Asks (none, s) h = h
  capsolver_judged-Asks (some (d, v), s) h =
      capsolver_resolved-Asks d v.kind _ (Given-resolve_document plain 4 d v s h)

  capsolver_fetch-Asks :
      (f : Option (Fetcher W)) (session : Session) (s : State (W × List Asked))
      → Asks 3 s.world.1 s.run.attempts
      → Solved 4 (capsolver_fetch (logged plain) (listening_option capsolver_fetcher f) session s)
  unfolding capsolver_fetch failed_result
  capsolver_fetch-Asks none session s h = Asks-le 3 4 s.world.1 s.run.attempts (omega arith) h
  capsolver_fetch-Asks (some fetcher) session s h = elim (Bool-cases (was_tried s.run capsolver)) [
    | inl old ↦ rw old (Asks-le 3 4 s.world.1 s.run.attempts (omega arith) h)
    | inr new ↦
        rw new (
          capsolver_judged-Asks _
            (Asks-attempt plain 4 capsolver fetcher session s (omega arith) h))
  ]

  give_up_or_solve-Asks :
      (session : Session) (s : State (W × List Asked)) (e : Option FetchError)
      → Asks 3 s.world.1 s.run.attempts
      → Returned 4 (give_up_or_solve (logged plain) session s e)
  unfolding give_up_or_solve try_capsolver
  give_up_or_solve-Asks session s (some e) h = Asks-le 3 4 s.world.1 s.run.attempts (omega arith) h
  give_up_or_solve-Asks session s none h = capsolver_fetch-Asks plain.capsolver session s h

  patchright_resolved-Asks :
      (d : Document) (kind : Kind) (x : Option Result × State (W × List Asked))
      → Given 3 x
      → Returned 4 (patchright_resolved (logged plain) d kind x)
  unfolding patchright_resolved failed_result keep_browser
  patchright_resolved-Asks d kind (some result, s) g =
      Asks-le 3 4 s.world.1 result.attempts (omega arith) g
  patchright_resolved-Asks d dead (none, s) g = Asks-le 3 4 s.world.1 s.run.attempts (omega arith) g
  patchright_resolved-Asks d _ (none, s) g = give_up_or_solve-Asks d.session s none g

  patchright_judged-Asks :
      (session : Session) (x : Judged × State (W × List Asked))
      → Asks 3 x.1.world.1 x.1.run.attempts
      → Returned 4 (patchright_judged (logged plain) session x)
  unfolding patchright_judged
  patchright_judged-Asks session (none, s) h = give_up_or_solve-Asks session s s.run.capacity_err h
  patchright_judged-Asks session (some (d, v), s) h =
      patchright_resolved-Asks d v.kind _ (Given-resolve_document plain 3 d v s h)

  patchright_fetch-Asks :
      (f : Option (Fetcher W)) (session : Session) (s : State (W × List Asked))
      → Asks 2 s.world.1 s.run.attempts
      → Returned 4 (patchright_fetch (logged plain) (listening_option browser_fetcher f) session s)
  unfolding patchright_fetch
  patchright_fetch-Asks none session s h =
      give_up_or_solve-Asks session s none (Asks-le 2 3 s.world.1 s.run.attempts (omega arith) h)
  patchright_fetch-Asks (some fetcher) session s h =
      elim (Bool-cases (was_tried s.run patchright)) [
        | inl old ↦ rw old (
            give_up_or_solve-Asks session s none
              (Asks-le 2 3 s.world.1 s.run.attempts (omega arith) h))
        | inr new ↦ rw new (
            patchright_judged-Asks session _
              (Asks-attempt plain 3 patchright fetcher session s (omega arith) h))
      ]

  pub try_patchright-Asks :
      (session : Session) (s : State (W × List Asked))
      → Asks 2 s.world.1 s.run.attempts
      → Returned 4 (try_patchright (logged plain) session s)
  unfolding try_patchright
  try_patchright-Asks session s h = patchright_fetch-Asks plain.browser session s h
