-- ===== src/Emails/Search.antt =====
-- The state of an e-mail search and its operations: pkg/emails/search.go. A set of URLs is a list;
-- extractAddresses, publicURL, the parsers and net/url are parameters.
pub mod Limits
pub mod Queue
pub mod Addresses
use pagelode.Prelude.{
  ℕ, zero, suc, ◌+◌, Str, codes, List, [], ◌∷◌, ◌++◌, Option, none, some, Bool, true, false, ◌||◌,
  ◌&&◌, not, ltb, leb, ◌==◌, if◌then◌else◌, str_eq, Dict, get, put, any, length, get_elem?,
}
use pagelode.Fetch.Page.{Document}
use pagelode.Emails.Types.{Request, Source, Address, Page, Summary, Report}
use pagelode.Url.{NetUrl}
use pagelode.Emails.Targets.{Target, max_candidates, scoped_url, page_links_from, sitemap_links}

-- match of extract.go
pub record Match : Type 0 where
  pub address : Str
  pub kind : Str
  pub source : Str

-- loaded of service.go; `failed` says that err is not nil.
pub record Loaded : Type 0 where
  pub target : Target
  pub document : Document
  pub failed : Bool
  pub saturated : Bool

-- `scope` is that of the parameters; `addresses` gives the position of an address in the report.
pub record Search : Type 0 where
  pub request : Request
  pub report : Report
  pub queue : List Target
  pub seen : List Str
  pub visited : List Str
  pub addresses : Dict ℕ
  pub sitemap_requests : ℕ
  pub candidates_dropped : Bool
  pub sitemap_limited : Bool
  pub depth_limited : Bool

abbrev pub has_url : List Str → Str → Bool
has_url urls url = any (λ u. str_eq u url) urls

unfoldable pub add : Search → Target → Search
add s item =
    if has_url s.seen item.url
    then s
    else if ltb 2 item.depth
    then record s { depth_limited = true }
    else if leb max_candidates (length s.seen)
    then record s { candidates_dropped = true }
    else record s { seen = item.url ∷ s.seen; queue = s.queue ++ item ∷ [] }

unfoldable pub add_all : Search → List Target → Search
add_all s [] = s
add_all s (item ∷ items) = add_all (add s item) items

-- What the loop of take does with the first of the queue: it ends, or passes over it, or takes it;
-- the state and the count of pages that it goes on with.
pub data Taking : Type 0 where
  stop : Taking
  skip : Search → Taking
  grab : ℕ → Search → Taking

unfoldable pub taking : Search → Target → ℕ → Taking
taking s item pages =
    if not item.sitemap && leb s.request.max_pages pages
    then stop
    else if has_url s.visited item.url
    then skip s
    else if item.sitemap
    then if leb 4 s.sitemap_requests
      then skip (record s { sitemap_limited = true })
      else grab pages
          (record s { visited = item.url ∷ s.visited; sitemap_requests = s.sitemap_requests + 1 })
    else grab (pages + 1) (record s { visited = item.url ∷ s.visited })

-- The loop of take, over the queue, with the count of pages and the places left in the batch.
unfoldable pub take_loop : List Target → Search → ℕ → ℕ → Search × List Target
unfolding taking
take_loop [] s pages room = (record s { queue = [] }, [])
take_loop (item ∷ queue) s pages zero = (record s { queue = item ∷ queue }, [])
take_loop (item ∷ queue) s pages (suc room) = elim (taking s item pages) [
  | stop ↦ (record s { queue = item ∷ queue }, [])
  | skip t ↦ take_loop queue t pages (suc room)
  | grab more t ↦ let (u, batch) = take_loop queue t more room in (u, item ∷ batch)
]

-- take
unfoldable pub take_batch : Search → ℕ → Search × List Target
take_batch s concurrency = take_loop s.queue s (length s.report.pages) concurrency

unfoldable pub warn : Search → Str → Search
warn s message =
    let r = s.report in
    if any (λ w. str_eq w message) r.warnings
    then s
    else let summary = r.summary in
      record s {
        report = record r {
          summary = record summary { limited = true };
          warnings = r.warnings ++ message ∷ [];
        };
      }

-- The source is added unless it is there.
unfoldable pub add_source : Source → Address → Address
add_source source a =
    if any (λ s. str_eq s.url source.url && str_eq s.found_in source.found_in) a.sources
    then a
    else record a { sources = a.sources ++ source ∷ [] }

-- report.Emails[position].Sources. Out of range, where the code would panic, nothing changes; the
-- positions that `addresses` has are in range, see IsIndexed in Search/Addresses.antt.
unfoldable pub update_at : List Address → ℕ → (Address → Address) → List Address
update_at [] position f = []
update_at (a ∷ rest) zero f = f a ∷ rest
update_at (a ∷ rest) (suc position) f = a ∷ update_at rest position f

unfoldable pub add_source_at : Search → Source → ℕ → Search
unfolding add_source update_at
add_source_at s source position =
    let r = s.report in
    record s { report = record r { emails = update_at r.emails position (add_source source) } }

-- The new address at the end of the report.
abbrev pub with_address : Search → Str → Search
with_address s address =
    let r = s.report in
    record s {
      addresses = put s.addresses address (length r.emails);
      report = record r { emails = r.emails ++ record { address = address; sources = [] } ∷ [] };
    }

-- record, of a new address and of any.
unfoldable pub record_new : Search → Str → Source → Search
unfolding warn add_source_at
record_new s address source =
    if leb s.request.max_emails (length s.report.emails)
    then warn s (codes "email limit reached")
    else add_source_at (with_address s address) source (length s.report.emails)

unfoldable pub record_known : Search → Str → Source → Option ℕ → Search
unfolding record_new
record_known s address source none = record_new s address source
record_known s address source (some position) = add_source_at s source position

module _ (public_url : Str → Str) where
  unfoldable pub record_match : Search → Match → Str → Search
  unfolding record_known
  record_match s found base =
      let url = if str_eq found.source [] then base else found.source in
      record_known s found.address (record { url = public_url url; found_in = found.kind })
        (get s.addresses found.address)

  unfoldable pub record_all : Search → List Match → Str → Search
  record_all s [] base = s
  record_all s (found ∷ rest) base = record_all (record_match s found base) rest base

-- What consume reads of a loaded page besides the state: `site_map` parses the XML of a site map,
-- `anchors` finds the anchors of a page, `extract_addresses` is the function of extract.go.
pub record Readers : Type 0 where
  pub site_map : Str → Option (List Str × List Str)
  pub anchors : Str → List (Str × Str)
  pub extract_addresses : Document → List Match
  pub public_url : Str → Str

abbrev pub or_url : Str → Str → Str
or_url url default = if str_eq url [] then default else url

abbrev pub count_failed : Summary → Summary
count_failed summary = record summary { pages_failed = summary.pages_failed + 1 }

-- The page of a result in the report.
unfoldable pub page_of : Readers → Loaded → Str → Str → Page
page_of readers result final_url outcome =
    let d = result.document in
    record {
      url = readers.public_url result.target.url;
      final_url = readers.public_url final_url;
      provider = d.provider;
      status = d.status_code;
      outcome = outcome;
    }

module _ {U : Type 0} (net : NetUrl U) (scope : U) (readers : Readers) where
  abbrev final_url : Loaded → Str
  final_url result = or_url result.document.final_url result.target.url

  abbrev normalized : Loaded → Str
  normalized result = scoped_url net (final_url result) (final_url result) scope

  unfoldable pub is_unusable : Loaded → Bool
  is_unusable result =
      result.failed || leb 400 result.document.status_code || str_eq (normalized result) []

  unfoldable pub consume_sitemap : Search → Loaded → Search
  unfolding is_unusable
  consume_sitemap s result =
      if is_unusable result
      then s
      else add_all s (
          sitemap_links net (readers.site_map (or_url result.document.text result.document.html))
            (final_url result) scope)

  unfoldable pub consume_failed : Search → Loaded → Search
  unfolding page_of
  consume_failed s result =
      let r = s.report in
      record s {
        report = record r {
          summary = count_failed r.summary;
          pages = r.pages ++ page_of readers result (final_url result) (codes "failed") ∷ [];
        };
      }

  -- The state with the page in the report and its final URL visited.
  unfoldable pub keep_page : Search → Loaded → Search
  unfolding page_of
  keep_page s result =
      let r = s.report in
      record s {
        report = record r {
          pages = r.pages ++ page_of readers result (final_url result) (codes "ok") ∷ [];
        };
        visited = normalized result ∷ s.visited;
      }

  unfoldable pub consume_page : Search → Loaded → Search
  unfolding keep_page is_unusable consume_failed
  consume_page s result =
      if is_unusable result
      then consume_failed s result
      else let d = result.document in
        add_all
          (record_all readers.public_url (keep_page s result)
            (readers.extract_addresses (record d { final_url = final_url result }))
            (final_url result))
          (page_links_from net (final_url result) scope (result.target.depth + 1)
            (readers.anchors d.html) 0)

  unfoldable pub consume : Search → Loaded → Search
  unfolding consume_sitemap consume_page
  consume s result =
      if result.target.sitemap then consume_sitemap s result else consume_page s result
