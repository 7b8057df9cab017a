-- ===== src/Sitemap/Tests.antt =====
-- Tests of the model of pkg/sitemap, and its theorems at concrete inputs.
use pagelode.Prelude.{
  arith, Str, codes, List, [], ◌∷◌, ◌++◌, Option, none, some, true, false, ◌≡◌, refl, length, map,
  ltb, contains, has_prefix, str_eq, take, trim_space, before_byte, valid_utf8, runes, to_lower,
  split, itoa, join, sort,
}
use pagelode.Url.{NetUrl}
use pagelode.Fetch.Page.{Document, tls, html, no_session}
use pagelode.Sitemap.Types.{checked, Request, IsBounded, filled, validate, validate-IsBounded}
use pagelode.Sitemap.Robots.{RobotsRule, blocks, parse_robots_rules, cut}
use pagelode.Sitemap.Robots.Blocks.{longest, blocks-longest}
use pagelode.Sitemap.Run.{Run, Candidate, SiteMap, add_all, entry_of}
use pagelode.Sitemap.Run.Selection.{distinct, urls-add_all}
use pagelode.Sitemap.Shape.{new_sampler, shape}
use pagelode.Sitemap.Shape.Sampling.{allowed, allowed-new_sampler}
use pagelode.Sitemap.Templates.{templates, parse_all}
use pagelode.Sitemap.Templates.Counts.{AreCounted, templates-AreCounted}
use pagelode.Sitemap.Similarity.{new_duplicate_index}
use pagelode.Sitemap.Similarity.Spread.{AreSpread, unseen, seen_all, seen_all-new}
use pagelode.Sitemap.Crawl.{Outside, Loading, Readers}
use pagelode.Sitemap.Map.{map_site, broken}
use pagelode.Sitemap.Urls.{globs_compile}

-- A site on which a URL is its path.
abbrev net : NetUrl Str
net = record {
  parse = λ url. some url;
  resolve = λ base url. url;
  has_user = λ url. false;
  scheme = λ url. codes "https";
  hostname = λ url. codes "a.io";
  port = λ url. [];
  host = λ url. codes "a.io";
  path = λ url. url;
  set_host = λ host url. url;
  set_path = λ path url. path;
  clear_fragment = λ url. url;
  keep_query = λ keep url. url;
  query_names = λ url. [];
  raw_query = λ url. [];
  escaped_path = λ url. url;
  string = λ url. url;
}

abbrev given : Request
given = record {
  url = codes "/";
  limit = 3;
  max_duration_ms = 0;
  subdomains = false;
  include = [];
  exclude = [];
  depth = 2;
  render = [];
  explore = false;
}

abbrev request : Request
request = filled (codes "/") given

validate-IsBounded_example : IsBounded request
unfolding validate contains has_prefix str_eq
validate-IsBounded_example =
    validate-IsBounded net (λ url. some (codes "/")) given {p = request} refl

-- The longer rule wins.
abbrev rules : List RobotsRule
rules =
    record { allow = false; value = codes "/a" }
    ∷ record { allow = true; value = codes "/a/*.html$" }
    ∷ []

blocks-longest_example :
    blocks net rules (codes "/a/b.html")
    ≡ ltb (longest true rules (codes "/a/b.html")) (longest false rules (codes "/a/b.html"))
unfolding str_eq
blocks-longest_example = blocks-longest net rules (codes "/a/b.html")

longer_allows :
    map (blocks net rules) (codes "/a/b.html" ∷ codes "/a/b.htm" ∷ codes "/b" ∷ [])
    ≡ false ∷ true ∷ false ∷ []
unfolding blocks str_eq
longer_allows = refl

-- A value that is not UTF-8.
abbrev broken_rules : Str
broken_rules = codes "User-agent: *" ++ 10 ∷ (codes "Disallow: /" ++ 0xff ∷ [])

broken_rules_panic : parse_robots_rules broken_rules ≡ none
unfolding parse_robots_rules split cut trim_space before_byte to_lower str_eq valid_utf8
broken_rules_panic = refl

abbrev candidate : Str → Candidate
candidate url = record { url = url; source = codes "link"; last_modified = [] }

abbrev candidates : List Candidate
candidates =
    candidate (codes "/x") ∷ candidate [] ∷ candidate (codes "/x") ∷ candidate (codes "/y") ∷ []

abbrev begin : Run
begin = record {
  request = request;
  scope = record { host = codes "a.io"; port = []; subdomains = false };
  seen = [];
  endpoint_seen = [];
  report = record {
    url = codes "/";
    outcome = codes "ok";
    urls = [];
    summary = record {
      urls_found = 0;
      sitemaps_read = 0;
      pages_crawled = 0;
      pages_rendered = 0;
      robots_skipped = 0;
      duration_ms = 0;
      limited = false;
    };
    warnings = [];
    endpoints = [];
    templates = [];
  };
  page_read = false;
}

urls-add_all_example :
    (add_all net begin candidates).report.urls
    ≡ map entry_of (take 3 (distinct net request [] candidates))
unfolding filled
urls-add_all_example = urls-add_all net candidates begin

allowed-new_sampler_example :
    allowed net
      (shape net (codes "/p/1"))
      (new_sampler 2)
      (codes "/p/1" ∷ codes "/p/2" ∷ codes "/p/3" ∷ [])
    ≡ 2
unfolding allowed str_eq shape to_lower split itoa join sort
allowed-new_sampler_example =
    allowed-new_sampler net 2 (shape net (codes "/p/1"))
      (codes "/p/1" ∷ codes "/p/2" ∷ codes "/p/3" ∷ []) (omega arith)

abbrev urls : List Str
urls = codes "/p/1" ∷ codes "/p/a" ∷ codes "/p/b" ∷ codes "/q" ∷ []

templates-AreCounted_example : AreCounted (length (parse_all net urls)) (templates net urls 2)
templates-AreCounted_example = templates-AreCounted net urls 2

seen_all-new_example :
    (AreSpread 3 (seen_all (new_duplicate_index 3) (0 ∷ 7 ∷ 255 ∷ [])).1.fingerprints
      × ((seen_all (new_duplicate_index 3) (0 ∷ 7 ∷ 255 ∷ [])).1.fingerprints
          ≡ unseen (0 ∷ 7 ∷ 255 ∷ []) (seen_all (new_duplicate_index 3) (0 ∷ 7 ∷ 255 ∷ [])).0))
seen_all-new_example = seen_all-new 3 (0 ∷ 7 ∷ 255 ∷ [])

abbrev page : Document
page = record {
  provider = tls;
  status_code = 200;
  final_url = [];
  title = [];
  html = codes "<html>";
  text = [];
  content_type = html;
  headers = [];
  challenge = none;
  session = no_session;
  explored_urls = [];
}

abbrev loading : Loading
loading = record { document = page; failed = false; saturated = false }

abbrev readers : Readers
readers = record {
  page_text = λ page. [];
  hrefs = λ page. codes "/team" ∷ codes "/about" ∷ [];
  script_sources = λ page. [];
  inline_scripts = λ page. [];
  patterns = record { quoted = λ source. codes "/api/x" ∷ []; mime_like = λ value. false };
  is_word = λ rune. true;
  inspector = record {
    blocks = [];
    short_blocks = [];
    challenge_headers = [];
    challenge_urls = [];
    javascript_required = λ s. false;
    dom_mutation = λ s. false;
    parse_html = λ page. none;
  };
}

-- The outside: the state is the list of the URLs that were loaded.
abbrev outside : Outside (List Str)
outside = record {
  load = λ urls url. (loading, urls ++ url ∷ []);
  browse = λ urls url. (loading, urls);
  explore = λ urls url. (loading, urls);
  has_browser = false;
  over = λ urls. false;
}

abbrev no_site_map : Str → Option SiteMap
no_site_map text = none

-- A pattern that is not UTF-8 passes the checks of a request, and Map panics on it.
abbrev broken_pattern : Request
broken_pattern = record request { include = (codes "/" ++ 0xff ∷ []) ∷ [] }

broken_pattern_panics :
    (checked broken_pattern ≡ some broken_pattern)
    × (map_site net readers outside no_site_map (λ urls. false) (λ urls. 5) broken_pattern []
        ≡ some broken)
unfolding checked map_site globs_compile valid_utf8 runes has_prefix str_eq filled
broken_pattern_panics = (refl, refl)
