-- ===== src/Sitemap/Map.antt =====
-- The map of a site: Map of pkg/sitemap/service.go.
pub mod Queues
pub mod Bounds
use pagelode.Prelude.{
  ℕ, zero, suc, ◌+◌, ◌-◌, min, Str, codes, List, [], ◌∷◌, ◌++◌, Option, none, some, Bool, true,
  false, ◌||◌, ◌&&◌, not, ltb, leb, ◌==◌, if◌then◌else◌, str_eq, length, take, drop, member,
}
use pagelode.Url.{NetUrl}
use pagelode.Fetch.Page.{Document}
use pagelode.Sitemap.Types.{Request, Report, Summary, Template}
use pagelode.Sitemap.Robots.{RobotsRule, parse_robots_rules, robots_sitemaps}
use pagelode.Sitemap.Urls.{globs_compile, normalize, new_scope}
use pagelode.Sitemap.Run.{Run, Loaded, SiteMap, full, warn, final_url, consume_sitemap}
use pagelode.Sitemap.Templates.{templates_of}
use pagelode.Sitemap.Crawl.{Loading, Outside, Readers, Ended, saturated, ended}
use pagelode.Sitemap.Crawl.Levels.{load_all, crawl}

-- The queue of site maps, and the URLs that were put into it.
pub record Queue : Type 0 where
  pub queue : List Str
  pub visited : List Str

-- What Map answers: an invalid request, ErrSaturated, the caller's context being over, a report; or
-- a panic, of compileGlobs, of parseRobotsRules or by the dereference of a nil node in Templates.
pub data Mapped : Type 0 where
  invalid busy over broken : Mapped
  mapped : Report → Mapped

module _ {U W : Type 0} (net : NetUrl U) (readers : Readers) (out : Outside W)
    (parse_sitemap : Str → Option SiteMap) where
  -- url.URL{Scheme, Host} as a string
  abbrev pub origin_of : U → Str
  origin_of start = net.scheme start ++ (codes "://" ++ net.host start)

  abbrev pub robots_url : U → Str
  robots_url start = origin_of start ++ codes "/robots.txt"

  unfoldable pub enqueue : Run → Queue → Str → Str → Queue
  enqueue r q raw base =
      let url = normalize net r.scope raw base in
      if str_eq url [] || member url q.visited
      then q
      else record { queue = q.queue ++ url ∷ []; visited = url ∷ q.visited }

  unfoldable pub enqueue_all : Run → Queue → List Str → Str → Queue
  unfolding enqueue
  enqueue_all r q [] base = q
  enqueue_all r q (raw ∷ raws) base = enqueue_all r (enqueue r q raw base) raws base

  -- The loop over the results of a batch of site maps; `none` is ErrSaturated.
  unfoldable pub consume_maps : Run → Queue → List Loaded → Option (Run × Queue)
  unfolding enqueue_all
  consume_maps r q [] = some (r, q)
  consume_maps r q (l ∷ ls) =
      let (s, children) = consume_sitemap net parse_sitemap r l in
      let rest = consume_maps s (enqueue_all s q children (final_url l)) ls in
      if l.saturated then none else rest

  unfoldable pub goes_on : Run → Queue → W → Bool
  goes_on r q w = ltb 0 (length q.queue) && not (full r) && not (out.over w)

  -- The loop over the queue; `none` is the end of the fuel.
  unfoldable pub read_maps : ℕ → ℕ → Run → Queue → W → Option (Ended Run × W)
  unfolding goes_on consume_maps
  read_maps zero fetched r q w = none
  read_maps (suc fuel) fetched r q w = elim (goes_on r q w) [
    | false ↦ some (ended r, w)
    | true ↦ elim (leb 25 fetched) [
      | true ↦ some (ended (warn r (codes "sitemap limit reached")), w)
      | false ↦
          let size = min (min 4 (length q.queue)) (25 - fetched) in
          let (results, w') = load_all net readers out (take size q.queue) w in
          elim (consume_maps r (record q { queue = drop size q.queue }) results) [
            | none ↦ some (saturated, w')
            | some (s, p) ↦ read_maps fuel (fetched + size) s p w'
          ]
    ]
  ]

  -- Whether there is a robots.txt.
  abbrev pub has_robots : Loading → Bool
  has_robots l = not l.failed && not (leb 400 l.document.status_code)

  -- Its rules, none if there is none; `none` is a panic of parseRobotsRules.
  abbrev pub rules_of : Loading → Option (List RobotsRule)
  rules_of l = if has_robots l then parse_robots_rules l.document.text else some []

  abbrev pub sitemaps_of : Loading → List Str
  sitemaps_of l = if has_robots l then robots_sitemaps l.document.text else []

  -- The queue that the reading of site maps starts from.
  unfoldable pub first_queue : Run → Str → List Str → Queue
  unfolding enqueue_all
  first_queue r origin named =
      let q =
        enqueue_all r (record { queue = []; visited = [] }) named (origin ++ codes "/robots.txt") in
      if length q.queue == 0
      then enqueue_all r q (codes "/sitemap.xml" ∷ codes "/sitemap_index.xml" ∷ []) origin
      else q

  -- The crawl behind the site maps, unless the report is full or the time is over.
  unfoldable pub crawl_after : List RobotsRule → Option (Ended Run × W) → Option (Ended Run × W)
  crawl_after rules none = none
  crawl_after rules (some (saturated, w)) = some (saturated, w)
  crawl_after rules (some (ended r, w)) =
      if not (full r) && not (out.over w)
      then crawl net readers out r r.request.url rules w
      else some (ended r, w)

  abbrev pub limited_run : Run → Run
  limited_run r =
      let p = r.report in
      let s = p.summary in record r { report = record p { summary = record s { limited = true } } }

  -- The end of Map, with the templates and the time that it took.
  abbrev pub final_report : Run → List Template → ℕ → Report
  final_report r templates elapsed =
      let p = r.report in
      let s = p.summary in
      record p {
        outcome =
            if (length p.urls == 0) && (s.sitemaps_read == 0) && not r.page_read
            then codes "failed"
            else p.outcome;
        summary = record s { urls_found = length p.urls; duration_ms = elapsed };
        templates = templates;
      }

  abbrev pub reported : Run → Option (List Template) → ℕ → Mapped
  reported r none elapsed = broken
  reported r (some templates) elapsed = mapped (final_report r templates elapsed)

  -- `cancelled` is the caller's context, `elapsed` the time.
  unfoldable pub finish : (W → Bool) → (W → ℕ) → Ended Run × W → Mapped
  finish cancelled elapsed (saturated, w) = busy
  finish cancelled elapsed (ended r, w) =
      let s = if out.over w then limited_run (warn r (codes "duration limit reached")) else r in
      if cancelled w then over else reported s (templates_of net s.report.urls) (elapsed w)

  abbrev pub finished : (W → Bool) → (W → ℕ) → Option (Ended Run × W) → Option Mapped
  finished cancelled elapsed none = none
  finished cancelled elapsed (some x) = some (finish cancelled elapsed x)

  unfoldable pub new_run : Request → U → Run
  new_run request start = record {
    request = request;
    scope = new_scope net start request.subdomains;
    seen = [];
    endpoint_seen = [];
    report = record {
      url = request.url;
      outcome = codes "ok";
      urls = [];
      summary = record {
        urls_found = 0;
        sitemaps_read = 0;
        pages_crawled = 0;
        pages_rendered = 0;
        robots_skipped = 0;
        duration_ms = 0;
        limited = false;
      };
      warnings = [];
      endpoints = [];
      templates = [];
    };
    page_read = false;
  }

  -- Map behind the reading of the rules.
  unfoldable pub map_ruled :
      (W → Bool) → (W → ℕ) → Run → U → List Str → Option (List RobotsRule) → W → Option Mapped
  unfolding read_maps first_queue crawl_after
  map_ruled cancelled elapsed r start named none w = some broken
  map_ruled cancelled elapsed r start named (some rules) w =
      finished cancelled elapsed
        (crawl_after rules (read_maps 26 0 r (first_queue r (origin_of start) named) w))

  -- Map behind the load of the robots.txt.
  unfoldable pub map_loaded : (W → Bool) → (W → ℕ) → Request → U → Loading × W → Option Mapped
  unfolding map_ruled
  map_loaded cancelled elapsed request start (l, w) =
      let r = new_run request start in
      if l.saturated
      then some busy
      else map_ruled cancelled elapsed r start (sitemaps_of l) (rules_of l) w

  -- Whether the patterns of a request compile.
  abbrev pub patterns_compile : Request → Bool
  patterns_compile request = globs_compile request.include && globs_compile request.exclude

  -- Map, for an accepted request; the patterns are compiled before anything is loaded.
  unfoldable pub map_site : (W → Bool) → (W → ℕ) → Request → W → Option Mapped
  unfolding map_loaded
  map_site cancelled elapsed request w = elim (net.parse request.url) [
    | none ↦ some invalid
    | some start ↦
        if patterns_compile request
        then map_loaded cancelled elapsed request start (out.load w (robots_url start))
        else some broken
  ]
