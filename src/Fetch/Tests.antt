-- ===== src/Fetch/Tests.antt =====
-- Tests of the models of pkg/fetch, and its theorems at concrete inputs.
use mathlib.Core.Option
use mathlib.Core.List.{Memᴰ}
use pagelode.Prelude.{
  ◌/◌, ◌*◌, Bool, ap, sym, str_eq_iff, ℕ, ◌≤◌, ◌<◌, Str, codes, List, [], ◌∷◌, Option, none, some,
  true, false, ◌≡◌, ◌↔◌, ◌⊎◌, refl, arith, str_eq, contains, trim_space, has_suffix, trim_suffix,
  to_lower, get, put, has_prefix, itoa, fields, leb, if◌then◌else◌, ◌&&◌, equal_fold, before_byte,
  join,
}
use pagelode.Fetch.Page.{
  Provider, tls, patchright, unset, ContentType, html, text, Session, no_session, Cookie, Document,
  replayable, kind_string, dead,
}
use pagelode.Fetch.Routes.{
  Route, Entry, new_routes, preferred, record_route, normalize_host, is_protected, restore, size,
}
use pagelode.Fetch.Routes.Laws.{preferred-record_route, preferred-size}
use pagelode.Fetch.Routes.Restore.{
  IsLoaded, unexpired, save_row, Learned, preferred-restore, attached, record_all,
}
use pagelode.Fetch.Clearances.{new_clearances, get_clearance, record_clearance, forget}
use pagelode.Fetch.Clearances.Laws.{
  get_clearance-record_clearance, get_clearance-forget, get_clearance-get_clearance,
}
use pagelode.Fetch.Classify.{
  Inspector, View, classify, is_html, render_score, challenge_signal, first, normalized_text,
  empty_application_root,
}
use pagelode.Fetch.Classify.Laws.{
  classify-dead_iff, IsUsable, classify-IsUsable, classify-needs_render,
}
use pagelode.Fetch.Service.{Held, extract, extract_http, start}
use pagelode.Fetch.Service.Defs.{
  FetchError, Fallible, ok, err, Url, Fetcher, Env, Result, RunState, State, new_run_state,
  parse_url, bounded, success_result, failed_result, needs_browser_result,
}
use pagelode.Fetch.Service.Stages.{
  try_capsolver, resolve_document, try_patchright, attempt, try_replay, http_stage,
}
use pagelode.Fetch.Service.Order.Attempts.{Asked, http_fetcher, browser_fetcher, logged}
use pagelode.Fetch.Service.Order.{IsAsked, AsksHttp, extract-IsOrdered, extract_http-IsOrdered}
use pagelode.Fetch.Service.Outcomes.{Delivers, extract-Delivers}
use pagelode.Fetch.Service.Learning.{HasNone, try_replay-HasNone}
use pagelode.Fetch.Limiter.{
  System, Limiter, Place, new_limiter, Reach, here, next, step, outside, serving, queued, refused,
  working, leaving, blocked, admitted, count_in, no_slot, wait, give_back, count_out, admit,
  count_admitted, refuse, entered, take_slot, total, works, let_wait, holds, counted, waits,
}
use pagelode.Fetch.Limiter.Bounds.{started, limits_hold}

-- A world that holds the answers still to come.
abbrev Script : Type 0
Script = List (Fallible Document)

abbrev timeout : FetchError
timeout = record { message = codes "timeout"; saturated = false; unavailable = false }

abbrev next_answer : Fetcher Script
next_answer [] url session = (err timeout, [])
next_answer (d ∷ ds) url session = (d, ds)

abbrev page_of : Provider → ℕ → Str → ContentType → Document
page_of p status body type = record {
  provider = p;
  status_code = status;
  final_url = codes "https://a.io/";
  title = [];
  html = body;
  text = body;
  content_type = type;
  headers = [];
  challenge = none;
  session = no_session;
  explored_urls = [];
}

abbrev plain_view : Str → Option View
plain_view body = some (record {
  has_body = true;
  body_text = body;
  noscript_text = [];
  hydration_markers = 0;
  root_texts = [];
  script_count = 4;
  inline_script_text = [];
  semantic_count = 0;
})

abbrev inspector : Inspector
inspector = record {
  blocks = record { label = codes "block"; matches = λ s. contains s (codes "denied") } ∷ [];
  short_blocks = [];
  challenge_headers = [];
  challenge_urls = codes "__cf_chl" ∷ [];
  javascript_required = λ s. false;
  dom_mutation = λ s. false;
  parse_html = plain_view;
}

abbrev parse : Str → Fallible Url
parse input = ok (record { scheme = codes "https"; hostname = codes "a.io"; string = input })

abbrev env : Env Script
env = record {
  now = λ w. 5;
  http = next_answer;
  browser = some next_answer;
  capsolver = some next_answer;
  inspector = inspector;
  parse_request_uri = parse;
  extract_html = λ body base. some (record { content = body; links = []; title = codes "t" });
}

abbrev fresh : Script → Held Script
fresh answers = record {
  world = answers;
  routes = new_routes 100 [];
  clearances = new_clearances 100;
}

-- Plain HTTP is denied, then the browser gets the page.
abbrev denied_then_rendered : Script
denied_then_rendered =
    ok (page_of tls 200 (codes "denied") html)
    ∷ ok (page_of patchright 200 (codes "hello") html)
    ∷ []

tools : Unit {0}
unfolding extract extract_http contains trim_space has_suffix trim_suffix to_lower str_eq get put
    has_prefix itoa fields new_run_state parse_url bounded normalize_host is_protected preferred
    record_route get_clearance record_clearance forget classify challenge_signal first
    normalized_text equal_fold before_byte join restore size replayable kind_string http_stage
    try_replay attempt resolve_document try_patchright success_result failed_result
    needs_browser_result render_score try_capsolver empty_application_root
tools = tt

abbrev no_result : Result
no_result = record {
  url = [];
  final_url = [];
  title = [];
  content = [];
  content_type = text;
  provider = unset;
  outcome = [];
  links = [];
  attempts = [];
}

abbrev result_of : Fallible Result → Result
result_of (ok r) = r
result_of (err e) = no_result

abbrev site : Str
site = codes "a.io"

abbrev denied : Held Script
denied = fresh denied_then_rendered

denied_runs :
    ((result_of (extract env denied site).0).outcome ≡ codes "ok")
    × ((result_of (extract env denied site).0).content ≡ codes "hello")
    × ((result_of (extract_http env denied site).0).outcome ≡ codes "needs_browser")
    × ((result_of (extract env (fresh []) site).0).outcome ≡ codes "failed")
unfolding tools
denied_runs = (refl, refl, refl, refl)

-- The same world, with the log of the fetchers that are asked.
abbrev denied_log : Held (Script × List Asked)
denied_log = record {
  world = (denied.world, []);
  routes = denied.routes;
  clearances = denied.clearances;
}

asked_in : Option (State (Script × List Asked)) → List Asked
asked_in none = []
asked_in (some s) = s.world.1

denied_asks :
    (asked_in (extract (logged env) denied_log site).1 ≡ http_fetcher ∷ browser_fetcher ∷ [])
    × (asked_in (extract_http (logged env) denied_log site).1 ≡ http_fetcher ∷ [])
unfolding tools asked_in
denied_asks = (refl, refl)

extract-IsOrdered_example : IsAsked 4 (extract (logged env) denied_log site)
extract-IsOrdered_example = extract-IsOrdered env denied_log site refl

extract_http-IsOrdered_example :
    IsAsked 2 (extract_http (logged env) denied_log site)
    × AsksHttp (extract_http (logged env) denied_log site).1
extract_http-IsOrdered_example = extract_http-IsOrdered env denied_log site refl

abbrev site_run : RunState
site_run = record {
  target = codes "https://a.io";
  host = codes "a.io";
  tried = [];
  attempts = [];
  defer_on_capacity = false;
  capacity_err = none;
}

extract-Delivers_example : Delivers (extract env denied site).0
unfolding tools
extract-Delivers_example = extract-Delivers env denied site site_run refl

abbrev cookie : Cookie
cookie = record {
  name = codes "c";
  value = codes "1";
  domain = [];
  path = [];
  expires = 0;
  http_only = false;
  secure = true;
  same_site = [];
}

abbrev cleared : Session
cleared = record {
  user_agent = codes "ua";
  cookies = cookie ∷ [];
  proxy_url = codes "p";
  headers = (codes "h", codes "v") ∷ [];
}

-- A host with a clearance that the site no longer takes.
abbrev stale : State Script
stale = record (start env denied site_run) {
  clearances = record (new_clearances 100) {
    entries = (codes "a.io", record { session = cleared; expires = 50 }) ∷ [];
  };
}

try_replay-HasNone_example : HasNone (try_replay env stale).1
unfolding tools
try_replay-HasNone_example = try_replay-HasNone env stale refl

abbrev learned : State Script
learned = record (start env denied site_run) {
  routes = record (new_routes 100 []) {
    entries = (codes "a.io", record { provider = patchright; expires = 50 }) ∷ [];
  };
}

preferred-record_route_example :
    (preferred (record_route (new_routes 100 []) 5 site patchright).0 7 (codes "A.io.")).1 ≡ (
      if is_protected [] (normalize_host (codes "A.io."))
      then some patchright
      else if str_eq (normalize_host site) (normalize_host (codes "A.io."))
      then if leb 7 105 then some patchright else none
      else (preferred (new_routes 100 []) 7 (codes "A.io.")).1)
preferred-record_route_example =
    preferred-record_route (new_routes 100 []) 5 7 site (codes "A.io.") patchright (λ e. cc)

preferred-size_example :
    (preferred (size learned.routes 60).0 61 site).1 ≡ (preferred learned.routes 61 site).1
unfolding get
preferred-size_example = preferred-size learned.routes 60 61 site (refl, tt) (omega arith)

abbrev lessons : List Learned
lessons = record { at = 5; host = site; provider = patchright } ∷ []

-- A database that keeps times in a unit of 5.
abbrev whole_fives : ℕ → ℕ
whole_fives time = time / 5 * 5

-- The rows of their table at time 6.
abbrev lesson_rows : List Route
lesson_rows = record { host = site; provider = patchright; expires = 105 } ∷ []

abbrev lesson : Entry
lesson = record { provider = patchright; expires = 105 }

only_lesson :
    (host : Str) (e : Entry) (same : Bool)
    → str_eq site host ≡ same
    → unexpired 6 (if same then some lesson else none) ≡ some e
    → Memᴰ (record { host = host; provider = e.provider; expires = e.expires }) lesson_rows
only_lesson host e false other h = absurd (ground arith)
only_lesson host e true same h =
    let named : site ≡ host = (str_eq_iff site host).0 same in
    let kept : lesson ≡ e = ap (λ (x : Option Entry). elim x [ none ↦ lesson | some y ↦ y ]) h in
    Memᴰ.head (λ i. record {
      host = sym named i;
      provider = (sym kept i).provider;
      expires = (sym kept i).expires;
    })

lesson_rows-IsLoaded :
    IsLoaded 6 (record_all whole_fives (attached 100 []) [] lessons).1 lesson_rows
unfolding tools record_all save_row
lesson_rows-IsLoaded = ((refl, tt), λ host e h. only_lesson host e (str_eq site host) refl h)

preferred-restore_example :
    Option.map (λ s. (preferred s 7 site).1) (restore (new_routes 100 []) (some lesson_rows))
    ≡ some (preferred (record_all whole_fives (attached 100 []) [] lessons).0 7 site).1
unfolding tools
preferred-restore_example =
    preferred-restore whole_fives 100 [] lessons 6 7 site lesson_rows ((refl, refl), tt)
      lesson_rows-IsLoaded (omega arith)

get_clearance-record_clearance_example :
    (get_clearance (record_clearance (new_clearances 9) 5 site cleared).0 7 site).1 ≡ (
      if replayable cleared && str_eq (normalize_host site) (normalize_host site)
      then if leb 7 14 then some cleared else none
      else (get_clearance (new_clearances 9) 7 site).1)
get_clearance-record_clearance_example =
    get_clearance-record_clearance (new_clearances 9) 5 7 site site cleared

get_clearance-forget_example : (get_clearance (forget stale.clearances site).0 7 site).1 ≡ (
    if str_eq (normalize_host site) (normalize_host site)
    then none
    else (get_clearance stale.clearances 7 site).1)
get_clearance-forget_example = get_clearance-forget stale.clearances 7 site site

get_clearance-get_clearance_example :
    (get_clearance (get_clearance stale.clearances 60 site).0 70 site).1
    ≡ (get_clearance stale.clearances 70 site).1
get_clearance-get_clearance_example =
    get_clearance-get_clearance stale.clearances 60 70 site site (omega arith)

abbrev gone : Document
gone = page_of tls 410 (codes "bye") html

classify-dead_iff_example :
    ((classify inspector gone).kind ≡ dead) ↔ ((gone.status_code ≡ 404) ⊎ (gone.status_code ≡ 410))
classify-dead_iff_example = classify-dead_iff inspector gone

abbrev rendered : Document
rendered = page_of patchright 200 (codes "hello") html

classify-IsUsable_example : IsUsable inspector rendered
unfolding tools
classify-IsUsable_example = classify-IsUsable inspector rendered refl refl

abbrev shell : Document
shell = page_of tls 200 (codes "hello") html

classify-needs_render_example :
    (is_html shell.content_type ≡ true)
    × (shell.status_code < 400)
    × (10 ≤ (classify inspector shell).render_score)
unfolding tools
classify-needs_render_example = classify-needs_render inspector shell refl

abbrev entered_one : System
entered_one = record {
  limiter = record (new_limiter 1 1) { slots = 1 };
  places = entered ∷ outside ∷ [];
}

limits_hold_example :
    (total works entered_one.places ≤ 1)
    × (total let_wait entered_one.places ≤ 1)
    × (entered_one.limiter.slots ≡ total holds entered_one.places)
    × (entered_one.limiter.active ≡ total counted entered_one.places)
    × (entered_one.limiter.waiting ≡ total waits entered_one.places)
limits_hold_example =
    limits_hold 1 1 2
      (next here (step _ _ outside entered [] (outside ∷ []) (take_slot (omega arith))))

abbrev numbers : ℕ → ℕ → ℕ → Limiter
numbers slots active waiting = record (new_limiter 1 1) {
  slots = slots;
  active = active;
  waiting = waiting;
}

abbrev system : ℕ → ℕ → ℕ → Place → Place → Place → System
system slots active waiting p q r = record {
  limiter = numbers slots active waiting;
  places = p ∷ q ∷ r ∷ [];
}

-- With one slot and one place to wait, a caller is refused although nobody waits for a slot: the
-- goroutine that waited before still counts as waiting while it runs its work.
refused_with_no_waiter : Reach (started 1 1 3) (system 1 1 2 outside serving refused)
refused_with_no_waiter =
    let a : Reach (started 1 1 3) (system 1 1 0 working outside outside) =
      next (next here (step _ _ outside entered [] _ (take_slot (omega arith))))
        (step (numbers 1 0 0) _ entered working [] _ count_in) in
    let b : Reach (started 1 1 3) (system 1 1 1 working blocked outside) =
      next (next a (step (numbers 1 1 0) _ outside queued (working ∷ []) _ (no_slot refl)))
        (step (numbers 1 1 0) _ queued blocked (working ∷ []) _ (wait (omega arith))) in
    let c : Reach (started 1 1 3) (system 0 0 1 outside blocked outside) =
      next (next b (step (numbers 1 1 1) _ working leaving [] _ (give_back (omega arith))))
        (step (numbers 0 1 1) _ leaving outside [] _ count_out) in
    let d : Reach (started 1 1 3) (system 1 1 1 outside serving outside) =
      next (next c (step (numbers 0 0 1) _ blocked admitted (outside ∷ []) _ (admit (omega arith))))
        (step (numbers 1 0 1) _ admitted serving (outside ∷ []) _ count_admitted) in
    next (next d (step (numbers 1 1 1) _ outside queued (outside ∷ serving ∷ []) _ (no_slot refl)))
      (step (numbers 1 1 1) _ queued refused (outside ∷ serving ∷ []) _ (refuse (omega arith)))
