-- ===== src/Fetch/Service/Order/Http.antt =====
-- The replay and HTTP stages of pkg/fetch/orchestrator.go keep the order of the attempts.
use pagelode.Prelude.{Option, none, some, List, arith, inl, inr, Bool-cases}
use pagelode.Fetch.Page.{tls, replay, Session, no_session, Document, Kind, accept, dead}
use pagelode.Fetch.Classify.{is_html}
use pagelode.Fetch.Routes.{preferred}
use pagelode.Fetch.Clearances.{get_clearance}
use pagelode.Fetch.Service.Defs.{failed_result, Env, Result, State}
use pagelode.Fetch.Service.Stages.{
  replay_resolved, replay_judged, replay_held, http_resolved, http_judged, http_replayed,
  http_route, skips_http, Judged, try_replay, http_stage,
}
use pagelode.Fetch.Service.Order.Attempts.{
  Asked, logged, Asks, Given, Staged, Asks-le, Asks-attempt, Given-resolve_document,
}

module _ {W : Type 0} (plain : Env W) where
  replay_resolved-Asks :
      (d : Document) (kind : Kind) (x : Option Result × State (W × List Asked))
      → Given 1 x
      → Given 1 (replay_resolved (logged plain) d kind x)
  unfolding replay_resolved failed_result
  replay_resolved-Asks d kind (some result, s) g = g
  replay_resolved-Asks d dead (none, s) g = g
  replay_resolved-Asks d _ (none, s) g = g

  replay_judged-Asks :
      (x : Judged × State (W × List Asked))
      → Asks 1 x.1.world.1 x.1.run.attempts
      → Given 1 (replay_judged (logged plain) x)
  unfolding replay_judged
  replay_judged-Asks (none, s) h = h
  replay_judged-Asks (some (d, v), s) h =
      replay_resolved-Asks (record d { provider = replay }) v.kind _
        (Given-resolve_document plain 1 (record d { provider = replay }) v s h)

  replay_held-Asks :
      (held : Option Session) (s : State (W × List Asked))
      → Asks 0 s.world.1 s.run.attempts
      → Given 1 (replay_held (logged plain) held s)
  unfolding replay_held
  replay_held-Asks none s h = Asks-le 0 1 s.world.1 s.run.attempts (omega arith) h
  replay_held-Asks (some session) s h =
      replay_judged-Asks _ (Asks-attempt plain 1 replay plain.http session s (omega arith) h)

  http_resolved-Asks :
      (d : Document) (kind : Kind) (x : Option Result × State (W × List Asked))
      → Given 2 x
      → Staged 2 (http_resolved (logged plain) d kind x)
  unfolding http_resolved failed_result
  http_resolved-Asks d kind (some result, s) g = g
  http_resolved-Asks d dead (none, s) g = g
  http_resolved-Asks d accept (none, s) g = elim (Bool-cases (is_html d.content_type)) [
    | inl page ↦ rw page g
    | inr other ↦ rw other g
  ]
  http_resolved-Asks d _ (none, s) g = g

  http_judged-Asks :
      (x : Judged × State (W × List Asked))
      → Asks 2 x.1.world.1 x.1.run.attempts
      → Staged 2 (http_judged (logged plain) x)
  unfolding http_judged
  http_judged-Asks (none, s) h = h
  http_judged-Asks (some (d, v), s) h =
      http_resolved-Asks d v.kind _ (Given-resolve_document plain 2 d v s h)

  http_route-Asks :
      (s : State (W × List Asked))
      → Asks 1 s.world.1 s.run.attempts
      → Staged 2 (http_route (logged plain) s)
  unfolding http_route
  http_route-Asks s h =
      let p = preferred s.routes (plain.now s.world.0) s.run.host in
      elim (Bool-cases (skips_http (logged plain) p.1 (logged plain).browser)) [
        | inl skip ↦ rw skip (Asks-le 1 2 s.world.1 s.run.attempts (omega arith) h)
        | inr fetch ↦ rw fetch (
            http_judged-Asks _ (
              Asks-attempt plain 2 tls plain.http no_session (record s { routes = p.0 })
                (omega arith) h))
      ]

  http_replayed-Asks :
      (x : Option Result × State (W × List Asked))
      → Given 1 x
      → Staged 2 (http_replayed (logged plain) x)
  unfolding http_replayed
  http_replayed-Asks (some result, s) g = Asks-le 1 2 s.world.1 result.attempts (omega arith) g
  http_replayed-Asks (none, s) g = http_route-Asks s g

  pub http_stage-Asks :
      (s : State (W × List Asked))
      → Asks 0 s.world.1 s.run.attempts
      → Staged 2 (http_stage (logged plain) s)
  unfolding http_stage try_replay
  http_stage-Asks s h =
      let c = get_clearance s.clearances (plain.now s.world.0) s.run.host in
      http_replayed-Asks _ (replay_held-Asks c.1 (record s { clearances = c.0 }) h)
