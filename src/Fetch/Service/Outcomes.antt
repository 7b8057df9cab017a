-- ===== src/Fetch/Service/Outcomes.antt =====
-- What the results of the waterfall in pkg/fetch/orchestrator.go say, and that it always has one.
pub mod Resolve
use mathlib.Core.Path.{subst}
use pagelode.Prelude.{
  ℕ, suc, ◌≤◌, ◌<◌, Str, codes, List, [], ◌∷◌, ◌++◌, Option, none, some, Bool, true, false, arith,
  ◌≡◌, ◌≢◌, refl, ap, ◌⊎◌, inl, inr, Bool-cases, str_eq, str_eq_iff, trim_space, of_runes, leb,
  length, runes, take,
}
use pagelode.Fetch.Page.{
  Provider, tls, patchright, capsolver, replay, Session, no_session, Document, Verdict, Kind,
  accept, dead, ContentType, text, html, pdf, unknown,
}
use pagelode.Fetch.Classify.{is_html, classify}
use pagelode.Fetch.Routes.{preferred}
use pagelode.Fetch.Clearances.{get_clearance}
use pagelode.Fetch.Service.{Held, after_http, start, run_with, extract_from, extract}
use pagelode.Fetch.Service.Defs.{
  FetchError, Fallible, ok, err, Content, Env, Fetcher, Attempt, Result, State, RunState, bounded,
  success_result, failed_result, new_run_state, was_tried,
}
use pagelode.Fetch.Service.Stages.{
  Judged, Stage, finished, pending, Resolved, resolved, empty_page, other_type, outcome_of, judge,
  attempt, resolve_html, resolve_type, settle, resolve_kind, resolve_document, capsolver_resolved,
  capsolver_judged, capsolver_fetch, try_capsolver, give_up_or_solve, patchright_resolved,
  patchright_judged, patchright_fetch, try_patchright, keep_browser, replay_resolved, replay_judged,
  replay_held, try_replay, http_resolved, http_judged, http_replayed, http_route, http_stage,
  skips_http,
}
use pagelode.Fetch.Service.Outcomes.Resolve.{
  IsReported, Calm, Given, Staged, Tracked, failed_result-IsReported, attempt-Tracked,
  resolve_document-Given, capsolver_fetch-IsReported,
}

-- There is a result, and it is reported.
abbrev pub Delivers : Fallible Result → Type 0
Delivers (err e) = ⊥
Delivers (ok result) = IsReported result

module _ {W : Type 0} (env : Env W) where
  solve-Delivers :
      (session : Session) (s : State W)
      → Calm s.run
      → Delivers (give_up_or_solve env session s none).0
  unfolding give_up_or_solve try_capsolver
  solve-Delivers session s c = capsolver_fetch-IsReported env env.capsolver session s c

  patchright_resolved-Delivers :
      (d : Document) (kind : Kind) (x : Option Result × State W)
      → Given x.0
      → Calm x.1.run
      → Delivers (patchright_resolved env d kind x).0
  unfolding patchright_resolved
  patchright_resolved-Delivers d kind (some result, s) g c = g
  patchright_resolved-Delivers d dead (none, s) g c = failed_result-IsReported s.run d _ (inl refl)
  patchright_resolved-Delivers d _ (none, s) g c = solve-Delivers d.session s c

  patchright_judged-Delivers :
      (session : Session) (x : Judged × State W)
      → Tracked x.0 x.1.run
      → Calm x.1.run
      → Delivers (patchright_judged env session x).0
  unfolding patchright_judged
  patchright_judged-Delivers session (none, s) t c = simp (c.1) (solve-Delivers session s c)
  patchright_judged-Delivers session (some (d, v), s) t c =
      let (g, c') = resolve_document-Given env d v s t c in
      patchright_resolved-Delivers d v.kind _ g c'

  patchright_fetch-Delivers :
      (f : Option (Fetcher W)) (session : Session) (s : State W)
      → Calm s.run
      → Delivers (patchright_fetch env f session s).0
  unfolding patchright_fetch attempt
  patchright_fetch-Delivers none session s c = solve-Delivers session s c
  patchright_fetch-Delivers (some fetcher) session s c =
      elim (Bool-cases (was_tried s.run patchright)) [
        | inl old ↦ rw old (solve-Delivers session s c)
        | inr new ↦ rw new (
            let (t, c') = attempt-Tracked env patchright _ _ _ c in
            patchright_judged-Delivers session _ t c')
      ]

  replay_resolved-Given :
      (d : Document) (kind : Kind) (x : Option Result × State W)
      → Given x.0
      → Calm x.1.run
      → Given (replay_resolved env d kind x).0 × Calm (replay_resolved env d kind x).1.run
  unfolding replay_resolved
  replay_resolved-Given d kind (some result, s) g c = (g, c)
  replay_resolved-Given d dead (none, s) g c = (failed_result-IsReported s.run d _ (inl refl), c)
  replay_resolved-Given d _ (none, s) g c = (tt, c)

  replay_judged-Given :
      (x : Judged × State W)
      → Tracked x.0 x.1.run
      → Calm x.1.run
      → Given (replay_judged env x).0 × Calm (replay_judged env x).1.run
  unfolding replay_judged
  replay_judged-Given (none, s) t c = (tt, c)
  replay_judged-Given (some (d, v), s) t c =
      let (g, c') = resolve_document-Given env (record d { provider = replay }) v s t c in
      replay_resolved-Given (record d { provider = replay }) v.kind _ g c'

  replay_held-Given :
      (held : Option Session) (s : State W)
      → Calm s.run
      → Given (replay_held env held s).0 × Calm (replay_held env held s).1.run
  unfolding replay_held attempt
  replay_held-Given none s c = (tt, c)
  replay_held-Given (some session) s c =
      let (t, c') = attempt-Tracked env replay _ _ _ c in replay_judged-Given _ t c'

  http_resolved-Staged :
      (d : Document) (kind : Kind) (x : Option Result × State W)
      → Given x.0
      → Calm x.1.run
      → Staged (http_resolved env d kind x).0 × Calm (http_resolved env d kind x).1.run
  unfolding http_resolved
  http_resolved-Staged d kind (some result, s) g c = (g, c)
  http_resolved-Staged d dead (none, s) g c = (failed_result-IsReported s.run d _ (inl refl), c)
  http_resolved-Staged d accept (none, s) g c = elim (Bool-cases (is_html d.content_type)) [
    | inl page ↦ rw page (tt, c)
    | inr other ↦ rw other (failed_result-IsReported s.run d _ (inr refl), c)
  ]
  http_resolved-Staged d _ (none, s) g c = (tt, c)

  http_judged-Staged :
      (x : Judged × State W)
      → Tracked x.0 x.1.run
      → Calm x.1.run
      → Staged (http_judged env x).0 × Calm (http_judged env x).1.run
  unfolding http_judged
  http_judged-Staged (none, s) t c = (tt, c)
  http_judged-Staged (some (d, v), s) t c =
      let (g, c') = resolve_document-Given env d v s t c in http_resolved-Staged d v.kind _ g c'

  http_route-Staged :
      (s : State W) → Calm s.run → Staged (http_route env s).0 × Calm (http_route env s).1.run
  unfolding http_route attempt
  http_route-Staged s c =
      let p = preferred s.routes (env.now s.world) s.run.host in
      elim (Bool-cases (skips_http env p.1 env.browser)) [
        | inl skip ↦ rw skip (tt, c)
        | inr fetch ↦
            rw fetch (let (t, c') = attempt-Tracked env tls _ _ _ c in http_judged-Staged _ t c')
      ]

  http_replayed-Staged :
      (x : Option Result × State W)
      → Given x.0
      → Calm x.1.run
      → Staged (http_replayed env x).0 × Calm (http_replayed env x).1.run
  unfolding http_replayed
  http_replayed-Staged (some result, s) g c = (g, c)
  http_replayed-Staged (none, s) g c = http_route-Staged s c

  http_stage-Staged :
      (s : State W) → Calm s.run → Staged (http_stage env s).0 × Calm (http_stage env s).1.run
  unfolding http_stage try_replay
  http_stage-Staged s c =
      let held = get_clearance s.clearances (env.now s.world) s.run.host in
      let (g, c') = replay_held-Given held.1 (record s { clearances = held.0 }) c in
      http_replayed-Staged _ g c'

  after_http-Delivers :
      (x : Stage × State W) → Staged x.0 → Calm x.1.run → Delivers (after_http env x).0
  unfolding after_http try_patchright
  after_http-Delivers (finished result, s) g c = g
  after_http-Delivers (pending session, s) g c = patchright_fetch-Delivers env.browser session s c

  Calm-new :
      (input : Str) (r : RunState) → new_run_state env.parse_request_uri input ≡ ok r → Calm r
  unfolding new_run_state
  Calm-new input r e = ground arith

  -- Once the URL is accepted, Extract returns a result and no error. Its outcome is ok, with content
  -- that is not empty and a last attempt that was accepted, or it is dead or failed, with neither
  -- content nor links.
  pub extract-Delivers :
      (held : Held W) (input : Str) (r : RunState)
      → new_run_state env.parse_request_uri input ≡ ok r
      → Delivers (extract env held input).0
  unfolding extract extract_from
  extract-Delivers held input r e = rw e (
      let (g, c) = http_stage-Staged (start env held r) (Calm-new input r e) in
      after_http-Delivers _ g c)
