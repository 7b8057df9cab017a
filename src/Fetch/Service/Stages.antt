-- ===== src/Fetch/Service/Stages.antt =====
-- The stages of the waterfall: the methods of Service in pkg/fetch/orchestrator.go.
use pagelode.Prelude.{
  ℕ, ◌-◌, ◌/◌, Str, codes, List, [], ◌∷◌, ◌++◌, Option, none, some, Bool, true, false, ◌&&◌, ◌||◌,
  if◌then◌else◌, str_eq, trim_space,
}
use pagelode.Fetch.Page.{
  Provider, tls, patchright, capsolver, replay, ContentType, html, text, pdf, unknown, Session,
  no_session, Document, Kind, accept, dead, Verdict, kind_string,
}
use pagelode.Fetch.Routes.{preferred, record_route}
use pagelode.Fetch.Clearances.{get_clearance, record_clearance, forget}
use pagelode.Fetch.Classify.{classify, is_html, is_patchright}
use pagelode.Fetch.Service.Defs.{
  FetchError, Fallible, ok, err, Content, Fetcher, Env, Attempt, Result, RunState, StoreCall,
  save_route, save_clearance, delete_clearance, State, was_tried, bounded, concise, success_result,
  failed_result, capsolver_document,
}

abbrev pub log_call {ℓ} :
    {A : Type ℓ} → (A → StoreCall) → List StoreCall → Option A → List StoreCall
log_call make calls none = calls
log_call make calls (some a) = calls ++ make a ∷ []

-- What an attempt hands on: (Document, Verdict, true), or none for false.
abbrev pub Judged : Type 0
Judged = Option (Document × Verdict)

-- string(classification.Kind), but "ok" for accept.
abbrev pub outcome_of : Kind → Str
outcome_of accept = codes "ok"
outcome_of k = kind_string k

-- state.capacityErr, for an error of the given provider.
abbrev pub capacity_of : RunState → Provider → FetchError → Option FetchError
capacity_of r p e =
    if r.defer_on_capacity && (is_patchright p && (e.saturated || e.unavailable))
    then some (record e { message = codes "extract: browser capacity: " ++ e.message })
    else r.capacity_err

-- What resolveDocument makes of an accepted document: its result, or an empty page.
pub data Resolved : Type 0 where
  resolved : Result → Resolved
  empty_page : Resolved
  other_type : Resolved

abbrev pub mark_empty : List Attempt → List Attempt
mark_empty [] = []
mark_empty (a ∷ []) =
    record a { outcome = codes "empty"; detail = codes "no readable content" } ∷ []
mark_empty (a ∷ b ∷ rest) = a ∷ mark_empty (b ∷ rest)

-- The httpStage result: done with a result, or go on with a session.
pub data Stage : Type 0 where
  finished : Result → Stage
  pending : Session → Stage

module _ {W : Type 0} (env : Env W) where
  -- The attempt's record and what it hands on, once the fetcher has answered.
  unfoldable pub judge : Provider → ℕ → State W → Fallible Document → Judged × State W
  judge p duration s (err e) =
      let r = s.run in
      (
        none,
        record s {
          run = record r {
            attempts =
                r.attempts
                ++ record {
                  provider = p;
                  outcome = codes "error";
                  status = 0;
                  duration_ms = duration;
                  detail = concise e.message;
                  classification = [];
                  render_score = 0;
                }
                  ∷ [];
            capacity_err = capacity_of r p e;
          };
        },
      )
  judge p duration s (ok d) =
      let r = s.run in
      let v = classify env.inspector d in
      (
        some (d, v),
        record s {
          run = record r {
            attempts =
                r.attempts
                ++ record {
                  provider = p;
                  outcome = outcome_of v.kind;
                  status = d.status_code;
                  duration_ms = duration;
                  detail = v.reason;
                  classification = kind_string v.kind;
                  render_score = v.render_score;
                }
                  ∷ [];
          };
        },
      )

  unfoldable pub attempt : Provider → Fetcher W → Session → State W → Judged × State W
  unfolding judge
  attempt p fetcher session s =
      let started = env.now s.world in
      let (answer, w) = fetcher s.world s.run.target session in
      let r = s.run in
      judge p ((env.now w - started) / 1000000)
        (record s { world = w; run = record r { tried = p ∷ r.tried } }) answer

  unfoldable pub resolve_html : RunState → Document → Option Content → Resolved
  resolve_html r d none = empty_page
  resolve_html r d (some c) =
      if str_eq (trim_space c.content) []
      then empty_page
      else resolved (
          success_result r d (bounded c.content) c.links
            (if str_eq d.title [] then c.title else d.title))

  unfoldable pub resolve_type : RunState → Document → ContentType → Resolved
  unfolding resolve_html
  resolve_type r d text =
      if str_eq (trim_space d.text) []
      then other_type
      else resolved (success_result r d (bounded d.text) [] d.title)
  resolve_type r d html = resolve_html r d (env.extract_html d.html d.final_url)
  resolve_type r d pdf = other_type
  resolve_type r d unknown = other_type

  unfoldable pub settle : State W → Resolved → Option Result × State W
  settle s (resolved result) = (some result, s)
  settle s empty_page =
      let r = s.run in (none, record s { run = record r { attempts = mark_empty r.attempts } })
  settle s other_type = (none, s)

  unfoldable pub resolve_kind : Document → State W → Kind → Option Result × State W
  unfolding resolve_type settle
  resolve_kind d s accept = settle s (resolve_type s.run d d.content_type)
  resolve_kind d s k = (none, s)

  unfoldable pub resolve_document : Document → Verdict → State W → Option Result × State W
  unfolding resolve_kind
  resolve_document d v s = resolve_kind d s v.kind

  -- tryCapSolver behind resolveDocument, and behind a fetch that was judged.
  unfoldable pub capsolver_resolved : Document → Kind → Option Result × State W → Result × State W
  capsolver_resolved d k (some result, s) = (result, s)
  capsolver_resolved d dead (none, s) = (failed_result s.run d (codes "dead"), s)
  capsolver_resolved d k (none, s) = (failed_result s.run d (codes "failed"), s)

  unfoldable pub capsolver_judged : Judged × State W → Result × State W
  unfolding capsolver_resolved
  capsolver_judged (none, s) = (failed_result s.run capsolver_document (codes "failed"), s)
  capsolver_judged (some (d, v), s) = capsolver_resolved d v.kind (resolve_document d v s)

  unfoldable pub capsolver_fetch : Option (Fetcher W) → Session → State W → Result × State W
  unfolding capsolver_judged
  capsolver_fetch none session s = (failed_result s.run capsolver_document (codes "failed"), s)
  capsolver_fetch (some fetcher) session s =
      if was_tried s.run capsolver
      then (failed_result s.run capsolver_document (codes "failed"), s)
      else capsolver_judged (attempt capsolver fetcher session s)

  unfoldable pub try_capsolver : Session → State W → Result × State W
  unfolding capsolver_fetch
  try_capsolver session s = capsolver_fetch env.capsolver session s

  -- A page that the browser got: its route and its clearance are kept.
  unfoldable pub keep_browser : Document → State W → State W
  keep_browser d s =
      let (routes, route) = record_route s.routes (env.now s.world) s.run.host patchright in
      let (clearances, saved) =
        record_clearance s.clearances (env.now s.world) s.run.host d.session in
      record s {
        routes = routes;
        clearances = clearances;
        calls = log_call save_clearance (log_call save_route s.calls route) saved;
      }

  unfoldable pub give_up_or_solve :
      Session → State W → Option FetchError → Fallible Result × State W
  give_up_or_solve session s (some e) = (err e, s)
  give_up_or_solve session s none = let (result, s') = try_capsolver session s in (ok result, s')

  unfoldable pub patchright_resolved :
      Document → Kind → Option Result × State W → Fallible Result × State W
  unfolding give_up_or_solve keep_browser
  patchright_resolved d k (some result, s) = (ok result, keep_browser d s)
  patchright_resolved d dead (none, s) = (ok (failed_result s.run d (codes "dead")), s)
  patchright_resolved d k (none, s) = give_up_or_solve d.session s none

  unfoldable pub patchright_judged : Session → Judged × State W → Fallible Result × State W
  unfolding patchright_resolved
  patchright_judged session (none, s) = give_up_or_solve session s s.run.capacity_err
  patchright_judged session (some (d, v), s) = patchright_resolved d v.kind (resolve_document d v s)

  unfoldable pub patchright_fetch :
      Option (Fetcher W) → Session → State W → Fallible Result × State W
  unfolding patchright_judged
  patchright_fetch none session s = give_up_or_solve session s none
  patchright_fetch (some fetcher) session s =
      if was_tried s.run patchright
      then give_up_or_solve session s none
      else patchright_judged session (attempt patchright fetcher session s)

  unfoldable pub try_patchright : Session → State W → Fallible Result × State W
  unfolding patchright_fetch
  try_patchright session s = patchright_fetch env.browser session s

  unfoldable pub forget_clearance : State W → State W
  forget_clearance s =
      let (clearances, call) = forget s.clearances s.run.host in
      record s { clearances = clearances; calls = log_call delete_clearance s.calls call }

  -- tryReplay behind resolveDocument, and behind a fetch that was judged; a clearance that does
  -- not get the page is forgotten.
  unfoldable pub replay_resolved :
      Document → Kind → Option Result × State W → Option Result × State W
  unfolding forget_clearance
  replay_resolved d k (some result, s) = (some result, s)
  replay_resolved d dead (none, s) = (some (failed_result s.run d (codes "dead")), s)
  replay_resolved d k (none, s) = (none, forget_clearance s)

  unfoldable pub replay_judged : Judged × State W → Option Result × State W
  unfolding replay_resolved
  replay_judged (none, s) = (none, forget_clearance s)
  replay_judged (some (d, v), s) =
      let d' = record d { provider = replay } in replay_resolved d' v.kind (resolve_document d' v s)

  unfoldable pub replay_held : Option Session → State W → Option Result × State W
  unfolding replay_judged
  replay_held none s = (none, s)
  replay_held (some session) s = replay_judged (attempt replay env.http session s)

  unfoldable pub try_replay : State W → Option Result × State W
  unfolding replay_held
  try_replay s =
      let (clearances, held) = get_clearance s.clearances (env.now s.world) s.run.host in
      replay_held held (record s { clearances = clearances })

  -- The switch of httpStage on the classification.
  unfoldable pub http_kind : Document → Kind → State W → Stage × State W
  http_kind d dead s = (finished (failed_result s.run d (codes "dead")), s)
  http_kind d accept s = (
    if is_html d.content_type
        then pending d.session
        else finished (failed_result s.run d (codes "failed")),
    s,
  )
  http_kind d k s = (pending d.session, s)

  unfoldable pub http_resolved : Document → Kind → Option Result × State W → Stage × State W
  unfolding http_kind
  http_resolved d k (some result, s) = (finished result, s)
  http_resolved d k (none, s) = http_kind d k s

  unfoldable pub http_judged : Judged × State W → Stage × State W
  unfolding http_resolved
  http_judged (none, s) = (pending no_session, s)
  http_judged (some (d, v), s) = http_resolved d v.kind (resolve_document d v s)

  -- Whether the browser is preferred, and there is one.
  unfoldable pub skips_http : Option Provider → Option (Fetcher W) → Bool
  skips_http (some patchright) (some browser) = true
  skips_http p b = false

  unfoldable pub http_route : State W → Stage × State W
  unfolding http_judged skips_http
  http_route s =
      let (routes, p) = preferred s.routes (env.now s.world) s.run.host in
      let s' : State W = record s { routes = routes } in
      if skips_http p env.browser
      then (pending no_session, s')
      else http_judged (attempt tls env.http no_session s')

  unfoldable pub http_replayed : Option Result × State W → Stage × State W
  unfolding http_route
  http_replayed (some result, s) = (finished result, s)
  http_replayed (none, s) = http_route s

  unfoldable pub http_stage : State W → Stage × State W
  unfolding http_replayed
  http_stage s = http_replayed (try_replay s)
