-- ===== src/Sitemap/Run.antt =====
-- The state of a map and its operations: run of pkg/sitemap/service.go, and addEndpoints of
-- crawl.go. A set of strings is a list.
pub mod Selection
use pagelode.Prelude.{
  ℕ, ◌+◌, Str, codes, List, [], ◌∷◌, ◌++◌, Option, none, some, Bool, true, false, ◌||◌, ◌&&◌, not,
  ltb, leb, ◌==◌, if◌then◌else◌, str_eq, has_suffix, to_lower, trim_space, any, length, map, member,
}
use pagelode.Url.{NetUrl}
use pagelode.Fetch.Page.{Document, ContentType, unknown}
use pagelode.Sitemap.Types.{Request, Entry, Summary, Report, source_sitemap}
use pagelode.Sitemap.Urls.{Scope, normalize, permitted}

pub record Run : Type 0 where
  pub request : Request
  pub scope : Scope
  pub seen : List Str
  pub endpoint_seen : List Str
  pub report : Report
  pub page_read : Bool

-- What is offered to the report: the arguments of add.
pub record Candidate : Type 0 where
  pub url : Str
  pub source : Str
  pub last_modified : Str

-- loaded; `failed` says that err is not nil, `saturated` that it is ErrSaturated.
pub record Loaded : Type 0 where
  pub target : Str
  pub document : Document
  pub failed : Bool
  pub saturated : Bool

-- finalURL
unfoldable pub final_url : Loaded → Str
final_url l = if str_eq l.document.final_url [] then l.target else l.document.final_url

unfoldable pub full : Run → Bool
full r = leb r.request.limit (length r.report.urls)

unfoldable pub warn : Run → Str → Run
warn r message =
    let p = r.report in
    if member message p.warnings
    then r
    else record r { report = record p { warnings = p.warnings ++ message ∷ [] } }

abbrev pub entry_of : Candidate → Entry
entry_of c = record { url = c.url; source = c.source; last_modified = trim_space c.last_modified }

abbrev pub limited : Run → Run
limited r =
    let p = r.report in
    let s = p.summary in record r { report = record p { summary = record s { limited = true } } }

abbrev pub with_entry : Run → Candidate → Run
with_entry r c =
    let p = r.report in
    record r { seen = c.url ∷ r.seen; report = record p { urls = p.urls ++ entry_of c ∷ [] } }

abbrev pub maximum_endpoints : ℕ
maximum_endpoints = 200

-- parsedSitemap: the entries of the URLs, a location and a date each, and the site maps.
abbrev pub SiteMap : Type 0
SiteMap = List (Str × Str) × List Str

module _ {U : Type 0} (net : NetUrl U) where
  abbrev pub is_permitted : Request → Str → Bool
  is_permitted request url = permitted net request.include request.exclude url

  unfoldable pub add : Run → Candidate → Run
  unfolding full
  add r c =
      if str_eq c.url [] || member c.url r.seen || not (is_permitted r.request c.url)
      then r
      else if full r
      then limited r
      else with_entry r c

  unfoldable pub add_all : Run → List Candidate → Run
  add_all r [] = r
  add_all r (c ∷ cs) = add_all (add r c) cs

  -- addEndpoints
  unfoldable pub add_endpoint : Run → Str → Run
  add_endpoint r endpoint =
      let p = r.report in
      if str_eq endpoint []
        || member endpoint r.endpoint_seen
        || leb maximum_endpoints (length p.endpoints)
      then r
      else record r {
        endpoint_seen = endpoint ∷ r.endpoint_seen;
        report = record p { endpoints = p.endpoints ++ endpoint ∷ [] };
      }

  unfoldable pub add_endpoints : Run → List Str → Str → Run
  unfolding add_endpoint
  add_endpoints r [] base = r
  add_endpoints r (path ∷ paths) base =
      add_endpoints (add_endpoint r (normalize net r.scope path base)) paths base

  abbrev pub is_unknown : ContentType → Bool
  is_unknown unknown = true
  is_unknown _ = false

  abbrev pub map_candidates : Scope → Str → List (Str × Str) → List Candidate
  map_candidates scope base [] = []
  map_candidates scope base ((location, date) ∷ entries) =
      record {
        url = normalize net scope location base;
        source = source_sitemap;
        last_modified = date;
      }
      ∷ map_candidates scope base entries

  abbrev pub read_sitemap : Run → Run
  read_sitemap r =
      let p = r.report in
      let s = p.summary in
      record r { report = record p { summary = record s { sitemaps_read = s.sitemaps_read + 1 } } }

  -- consumeSitemap behind parseSitemap: the state, and the site maps that it names.
  unfoldable pub consume_parsed : Run → Loaded → Option SiteMap → Run × List Str
  unfolding warn add_all final_url
  consume_parsed r l none =
      if is_unknown l.document.content_type && has_suffix (to_lower l.target) (codes ".gz")
      then (warn r (codes "compressed sitemap skipped: " ++ l.target), [])
      else (r, [])
  consume_parsed r l (some (entries, maps)) =
      (add_all (read_sitemap r) (map_candidates r.scope (final_url l) entries), maps)

  -- `parse_sitemap` is the XML decoder with the test of the root element.
  unfoldable pub consume_sitemap : (Str → Option SiteMap) → Run → Loaded → Run × List Str
  unfolding consume_parsed
  consume_sitemap parse_sitemap r l =
      if l.failed || leb 400 l.document.status_code
      then (r, [])
      else consume_parsed r l
          (parse_sitemap (if str_eq l.document.text [] then l.document.html else l.document.text))
