-- ===== src/Emails/Tests.antt =====
-- Tests of the model of pkg/emails, and its theorems at concrete inputs.
use pagelode.Prelude.{
  ℕ, arith, Str, codes, List, [], ◌∷◌, ◌++◌, Option, none, some, false, ◌≡◌, refl, str_eq, get, put,
  length, has_prefix, contains, map, remove, trim_prefix, to_lower, split, trim_space, is_space,
  runes, insert, sort, str_less,
}
use pagelode.Fetch.Page.{Document, tls, html, no_session}
use pagelode.Emails.Types.{Request, Address, filled}
use pagelode.Url.{NetUrl, ext, ext_tail, is_tracking}
use pagelode.Emails.Targets.{
  scoped_url, scoped, in_scope, is_page_path, priority, page_links_from, sitemap_links,
  order_targets, priority_in, sitemap_maps, sitemap_pages, sooner,
}
use pagelode.Emails.Search.{
  Search, Readers, Loaded, consume, Match, take_batch, add, take_loop, add_all, add_source,
  add_source_at, consume_failed, consume_page, consume_sitemap, is_unusable, keep_page, page_of,
  record_all, record_known, record_match, record_new, taking, update_at, warn,
}
use pagelode.Emails.Search.Limits.{Grows, consume-Grows}
use pagelode.Emails.Search.Addresses.{credited_all, IsIndexed, record_all-IsIndexed}
use pagelode.Emails.Search.Queue.{IsBatch, take_batch-IsBatch}
use pagelode.Emails.Find.{
  Outside, Found, found, find, first_search, rounds, consume_all, empty_search, final_warnings,
  find_ended, find_in, finish, goes_on, load_batch, ordered, outcome_of, sooner_source,
  sorted_emails, warn_if,
}
use pagelode.Emails.Find.Bounds.{IsAnswered, find-IsAnswered}

abbrev given : Request
given = record {
  url = codes "a.io";
  max_pages = 0;
  max_emails = 3;
  max_duration_ms = 0;
  profile = [];
  render = [];
}

-- A site on which a URL is its path.
abbrev net : NetUrl Str
net = record {
  parse = λ url. some url;
  resolve = λ base url. url;
  has_user = λ url. false;
  scheme = λ url. codes "https";
  hostname = λ url. codes "a.io";
  port = λ url. [];
  host = λ url. codes "a.io";
  path = λ url. url;
  set_host = λ host url. url;
  set_path = λ path url. path;
  clear_fragment = λ url. url;
  keep_query = λ keep url. url;
  query_names = λ url. [];
  raw_query = λ url. [];
  escaped_path = λ url. url;
  string = λ url. url;
}

-- The first page links to a second one.
abbrev readers : Readers
readers = record {
  site_map = λ text. none;
  anchors = λ text. (codes "/team", codes "Team") ∷ (codes "/logo.png", []) ∷ [];
  extract_addresses = λ document.
      record { address = codes "me@a.io"; kind = codes "text"; source = document.final_url } ∷ [];
  public_url = λ url. url;
}

abbrev page : Document
page = record {
  provider = tls;
  status_code = 200;
  final_url = [];
  title = [];
  html = codes "<html>";
  text = [];
  content_type = html;
  headers = [];
  challenge = none;
  session = no_session;
  explored_urls = [];
}

-- The outside: the state is the list of the URLs that were loaded.
abbrev outside : Outside (List Str)
outside = record {
  load = λ urls url options.
      (record { document = page; failed = false; saturated = false }, urls ++ url ∷ []);
  deadline_over = λ urls. false;
  cancelled = λ urls. false;
  elapsed_ms = λ urls. 5;
}

abbrev request : Request
request = filled (codes "/") given

find-IsAnswered_example :
    IsAnswered net readers outside request (find net readers outside 1001 2 request [])
find-IsAnswered_example = find-IsAnswered net readers outside 2 request []

abbrev begin : Search
begin = first_search readers request (codes "/sitemap.xml")

take_batch-IsBatch_example :
    IsBatch begin.queue begin 0 2 (take_batch begin 2).0 (take_batch begin 2).1
unfolding first_search add str_eq filled
take_batch-IsBatch_example = take_batch-IsBatch begin 2

abbrev result : Loaded
result = record {
  target = record { url = codes "/"; depth = 0; score = 200; sitemap = false };
  document = page;
  failed = false;
  saturated = false;
}

consume-Grows_example : Grows 1 begin (consume net (codes "/") readers begin result)
consume-Grows_example = consume-Grows net (codes "/") readers begin result

abbrev counts : Option Found → Option (ℕ × ℕ × List (Str × ℕ))
counts (some (found r)) = some (
  r.summary.pages_visited,
  r.summary.emails_found,
  map (λ (a : Address). (a.address, length a.sources)) r.emails,
)
counts x = none

two_pages :
    counts (find net readers outside 1001 2 request []) ≡ some (2, 1, (codes "me@a.io", 2) ∷ [])
unfolding take_loop add_all add_source add_source_at consume_failed consume_page consume_sitemap
    is_unusable keep_page page_of record_all record_known record_match record_new taking update_at
    warn rounds consume_all empty_search final_warnings find_ended find_in finish goes_on load_batch
    ordered outcome_of sooner_source sorted_emails warn_if insert is_page_path priority_in
    sitemap_maps sitemap_pages sooner sort remove trim_prefix to_lower split trim_space is_space
    runes find first_search str_eq filled add take_batch order_targets consume scoped_url has_prefix
    ext ext_tail in_scope is_tracking page_links_from priority scoped sitemap_links str_less get put
    contains
two_pages = refl

abbrev mail : Str → Match
mail name = record { address = name; kind = codes "text"; source = [] }

abbrev mails : List Match
mails = mail (codes "a@a.io") ∷ mail (codes "b@a.io") ∷ []

begin-IsIndexed : IsIndexed begin
unfolding first_search add str_eq filled empty_search get
begin-IsIndexed = (λ address n e. absurd (ground arith), λ address n e. absurd (ground arith))

record_all-IsIndexed_example :
    IsIndexed (record_all (λ url. url) begin mails (codes "/"))
    × ((record_all (λ url. url) begin mails (codes "/")).report.emails
        ≡ credited_all (λ url. url) 3 mails (codes "/") [])
unfolding first_search add str_eq filled empty_search
record_all-IsIndexed_example =
    record_all-IsIndexed (λ url. url) begin mails (codes "/") begin-IsIndexed
