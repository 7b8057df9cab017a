-- ===== src/Emails/Find.antt =====
-- The loop of an e-mail search: New, Find and loadBatch of pkg/emails/service.go, and finish of
-- search.go. The goroutines of loadBatch write different places of the result; here the pages of a
-- batch are loaded one after the other.
pub mod Rounds
pub mod Bounds
use pagelode.Prelude.{
  ℕ, zero, suc, ◌+◌, ◌-◌, Str, codes, List, [], ◌∷◌, ◌++◌, map, Option, none, some, Bool, true,
  false, ◌||◌, ◌&&◌, not, ltb, leb, ◌==◌, if◌then◌else◌, str_eq, length, str_less, sort,
}
use pagelode.Fetch.Page.{Document}
use pagelode.Emails.Types.{Request, Source, Address, Page, Summary, Report, Options}
use pagelode.Emails.Targets.{Target, order_targets}
use pagelode.Url.{NetUrl}
use pagelode.Emails.Search.{Search, Loaded, Readers, add, take_batch, warn, consume}

-- What a load gives: the document, and whether there is an error, and whether it is ErrSaturated.
pub record Loading : Type 0 where
  pub document : Document
  pub failed : Bool
  pub saturated : Bool

-- The limiter with the page loader, the deadline of the search, and the caller's context.
pub record Outside (W : Type 0) : Type 0 where
  pub load : W → Str → Options → Loading × W
  pub deadline_over : W → Bool
  pub cancelled : W → Bool
  pub elapsed_ms : W → ℕ

-- New
unfoldable pub new_concurrency : ℕ → ℕ
new_concurrency n = if ltb n 1 then 1 else if ltb 4 n then 4 else n

unfoldable pub sooner_source : Source → Source → Bool
sooner_source a b =
    if str_eq a.url b.url then str_less a.found_in b.found_in else str_less a.url b.url

unfoldable pub sorted_emails : List Address → List Address
unfolding sooner_source
sorted_emails emails =
    map (λ (a : Address). record a { sources = sort sooner_source a.sources })
      (sort (λ (a : Address) (b : Address). str_less a.address b.address) emails)

unfoldable pub warn_if : Bool → Str → Search → Search
warn_if c message s = if c then warn s message else s

-- The warnings of finish, in its order.
unfoldable pub final_warnings : Search → Search
final_warnings s = warn_if s.depth_limited (codes "crawl depth limit reached") (
    warn_if s.sitemap_limited (codes "sitemap request limit reached") (
      warn_if s.candidates_dropped (codes "candidate URL limit reached") (
        warn_if (ltb 0 (length s.queue) && leb s.request.max_pages (length s.report.pages))
          (codes "page limit reached")
          (warn_if (leb s.request.max_emails (length s.report.emails)) (codes "email limit reached")
            s))))

unfoldable pub outcome_of : Report → Str
outcome_of r =
    if ltb 0 (length r.pages) && (r.summary.pages_failed == length r.pages)
    then codes "failed"
    else if ltb 0 r.summary.pages_failed || r.summary.limited
    then codes "partial"
    else r.outcome

-- finish
unfoldable pub finish : Search → ℕ → Report
unfolding final_warnings outcome_of sorted_emails
finish s elapsed =
    let t = final_warnings s in
    let r = t.report in
    let summary = r.summary in
    record r {
      outcome = outcome_of r;
      emails = sorted_emails r.emails;
      summary = record summary {
        pages_visited = length r.pages;
        emails_found = length r.emails;
        duration_ms = elapsed;
      };
    }

-- The state that Find starts from, and its first targets; `site_map` is the URL of /sitemap.xml.
unfoldable pub empty_search : Readers → Request → Search
empty_search readers request = record {
  request = request;
  report = record {
    url = readers.public_url request.url;
    outcome = codes "ok";
    emails = [];
    pages = [];
    summary = record {
      pages_visited = 0;
      pages_failed = 0;
      emails_found = 0;
      duration_ms = 0;
      limited = false;
    };
    warnings = [];
  };
  queue = [];
  seen = [];
  visited = [];
  addresses = [];
  sitemap_requests = 0;
  candidates_dropped = false;
  sitemap_limited = false;
  depth_limited = false;
}

unfoldable pub first_search : Readers → Request → Str → Search
unfolding empty_search
first_search readers request site_map =
    let s =
      add (empty_search readers request)
        (record { url = request.url; depth = 0; score = 200; sitemap = false }) in
    if str_eq request.profile [] && ltb 1 request.max_pages
    then add s (record { url = site_map; depth = 0; score = 110; sitemap = true })
    else s

-- How the loop of Find ends: ErrSaturated, or the state behind it.
pub data Ended : Type 0 where
  saturated : Ended
  ended : Search → Ended

module _ {U W : Type 0} (net : NetUrl U) (scope : U) (readers : Readers) (out : Outside W) where
  -- loadBatch
  unfoldable pub load_batch : Options → List Target → W → List Loaded × W
  load_batch options [] w = ([], w)
  load_batch options (item ∷ items) w =
      let o : Options =
        if item.sitemap then record { profile = []; render = codes "never" } else options in
      let (l, w1) = out.load w item.url o in
      let (rest, w2) = load_batch options items w1 in
      (
        record { target = item; document = l.document; failed = l.failed; saturated = l.saturated }
            ∷ rest,
        w2,
      )

  -- The loop over the results; `none` is ErrSaturated.
  unfoldable pub consume_all : Search → List Loaded → Option Search
  consume_all s [] = some s
  consume_all s (result ∷ results) =
      let rest = consume_all (consume net scope readers s result) results in
      if result.saturated then none else rest

  -- The condition of the loop.
  unfoldable pub goes_on : Search → W → Bool
  goes_on s w =
      ltb 0 (length s.queue)
      && ltb (length s.report.pages) s.request.max_pages
      && ltb (length s.report.emails) s.request.max_emails
      && not (out.deadline_over w)

  unfoldable pub ordered : Search → Search
  ordered s = record s { queue = order_targets s.queue }

  -- The loop of Find; `none` is the end of the fuel.
  unfoldable pub rounds : ℕ → Options → ℕ → Search → W → Option (Ended × W)
  unfolding goes_on load_batch consume_all ordered
  rounds zero options concurrency s w = none
  rounds (suc fuel) options concurrency s w = elim (goes_on s w) [
    | false ↦ some (ended s, w)
    | true ↦
        let (t, batch) = take_batch (ordered s) concurrency in
        elim batch [
          | [] ↦ some (ended t, w)
          | item ∷ items ↦
              let (results, w') = load_batch options (item ∷ items) w in
              elim (consume_all t results) [
                | none ↦ some (saturated, w')
                | some u ↦ rounds fuel options concurrency u w'
              ]
        ]
  ]

-- What Find answers: an invalid request, the caller's context being over, ErrSaturated, a report.
pub data Found : Type 0 where
  invalid over busy : Found
  found : Report → Found

module _ {U W : Type 0} (net : NetUrl U) (readers : Readers) (out : Outside W) where
  -- Find behind its loop.
  unfoldable pub find_ended : Ended × W → Found
  find_ended (saturated, w) = busy
  find_ended (ended s, w) =
      if out.cancelled w
      then over
      else found (
          finish (warn_if (out.deadline_over w) (codes "duration limit reached") s)
            (out.elapsed_ms w))

  -- The URL of the site map.
  abbrev site_map_of : U → Str
  site_map_of scope =
      net.string (net.keep_query (λ name. false) (net.set_path (codes "/sitemap.xml") scope))

  unfoldable pub find_in : ℕ → ℕ → Request → U → W → Option Found
  unfolding find_ended
  find_in fuel concurrency request scope w =
      let options : Options = record { profile = request.profile; render = request.render } in
      elim (rounds net scope readers out fuel options
        (if str_eq request.profile [] then concurrency else 1)
        (first_search readers request (site_map_of scope)) w) [
          | none ↦ none
          | some x ↦ some (find_ended x)
        ]

  -- Find, for an accepted request; `none` is the end of the fuel.
  unfoldable pub find : ℕ → ℕ → Request → W → Option Found
  unfolding find_in
  find fuel concurrency request w = elim (net.parse request.url) [
    | none ↦ some invalid
    | some scope ↦ find_in fuel concurrency request scope w
  ]
