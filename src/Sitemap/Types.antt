-- ===== src/Sitemap/Types.antt =====
-- The data of a site map: pkg/sitemap/types.go, and the checks of Request.Validate.
use pagelode.Prelude.{
  ℕ, ◌≤◌, Str, codes, List, [], ◌++◌, Option, none, some, Bool, true, false, ◌||◌, ◌&&◌, not, ltb,
  ◌==◌, if◌then◌else◌, str_eq, contains, has_prefix, any, length, ◌≡◌, arith,
}
use pagelode.Url.{NetUrl}

-- The numbers are not negative here; Validate refuses the others.
pub record Request : Type 0 where
  pub url : Str
  pub limit : ℕ
  pub max_duration_ms : ℕ
  pub subdomains : Bool
  pub include : List Str
  pub exclude : List Str
  pub depth : ℕ
  pub render : Str
  pub explore : Bool

pub record Entry : Type 0 where
  pub url : Str
  pub source : Str
  pub last_modified : Str

pub record Summary : Type 0 where
  pub urls_found : ℕ
  pub sitemaps_read : ℕ
  pub pages_crawled : ℕ
  pub pages_rendered : ℕ
  pub robots_skipped : ℕ
  pub duration_ms : ℕ
  pub limited : Bool

pub record Template : Type 0 where
  pub pattern : Str
  pub count : ℕ
  pub samples : List Str

pub record Report : Type 0 where
  pub url : Str
  pub outcome : Str
  pub urls : List Entry
  pub summary : Summary
  pub warnings : List Str
  pub endpoints : List Str
  pub templates : List Template

abbrev pub source_sitemap : Str
source_sitemap = codes "sitemap"

abbrev pub source_page : Str
source_page = codes "page"

abbrev pub source_link : Str
source_link = codes "link"

abbrev pub source_rendered : Str
source_rendered = codes "rendered"

abbrev pub source_explore : Str
source_explore = codes "explore"

abbrev pub render_never : Str
render_never = codes "never"

abbrev pub render_auto : Str
render_auto = codes "auto"

abbrev pub render_always : Str
render_always = codes "always"

abbrev or_default : ℕ → ℕ → ℕ
or_default value default = if value == 0 then default else value

-- The request with its defaults, once its URL is accepted.
unfoldable pub filled : Str → Request → Request
filled url r = record r {
  url = url;
  limit = or_default r.limit 500;
  max_duration_ms = or_default r.max_duration_ms 30000;
  depth = or_default r.depth 2;
  render = if str_eq r.render [] then render_never else r.render;
}

abbrev outside : ℕ → ℕ → ℕ → Bool
outside low high n = ltb n low || ltb high n

abbrev bad_pattern : Str → Bool
bad_pattern pattern = not (has_prefix pattern (codes "/")) || ltb 200 (length pattern)

abbrev bad_patterns : List Str → Bool
bad_patterns patterns = ltb 20 (length patterns) || any bad_pattern patterns

abbrev known_render : Str → Bool
known_render render =
    str_eq render render_never || str_eq render render_auto || str_eq render render_always

unfoldable pub checked : Request → Option Request
checked r =
    if outside 1 5000 r.limit
      || outside 1000 120000 r.max_duration_ms
      || bad_patterns r.include
      || bad_patterns r.exclude
      || outside 1 5 r.depth
      || not (known_render r.render)
      || r.explore && str_eq r.render render_never
    then none
    else some r

abbrev absolute : Str → Str
absolute url = if contains url (codes "://") then url else codes "https://" ++ url

with_url : Request → Option Str → Option Request
unfolding checked filled
with_url r none = none
with_url r (some url) = checked (filled url r)

-- The checks of the parsed URL, its path and its fragment; ParseRequestURI is `parse_request_uri`.
unfoldable pub accepted_url : {U : Type 0} → NetUrl U → Option U → Option Str
accepted_url net none = none
accepted_url net (some u) =
    if str_eq (net.hostname u) []
      || net.has_user u
      || not (str_eq (net.scheme u) (codes "http")) && not (str_eq (net.scheme u) (codes "https"))
    then none
    else some (
        net.string
          (net.clear_fragment (if str_eq (net.path u) [] then net.set_path (codes "/") u else u)))

-- Validate; `none` is an error.
unfoldable pub validate : {U : Type 0} → NetUrl U → (Str → Option U) → Request → Option Request
unfolding with_url accepted_url
validate net parse_request_uri r =
    with_url r (accepted_url net (parse_request_uri (absolute r.url)))

-- What an accepted request satisfies.
pub record IsBounded (r : Request) : Type 0 where
  pub urls : (1 ≤ r.limit) × (r.limit ≤ 5000)
  pub duration : (1000 ≤ r.max_duration_ms) × (r.max_duration_ms ≤ 120000)
  pub depths : (1 ≤ r.depth) × (r.depth ≤ 5)
  pub patterns : (length r.include ≤ 20) × (length r.exclude ≤ 20)
  pub explores : r.explore ≡ true → str_eq r.render render_never ≡ false

checked-IsBounded : (r : Request) {p : Request} → checked r ≡ some p → IsBounded p
unfolding checked
checked-IsBounded r h = ground arith

with_url-IsBounded :
    (r : Request) (url : Option Str) {p : Request} → with_url r url ≡ some p → IsBounded p
unfolding with_url
with_url-IsBounded r none h = absurd (ground arith)
with_url-IsBounded r (some url) h = checked-IsBounded (filled url r) h

-- An accepted request asks for 1 to 5000 URLs, 1 to 120 seconds and a depth of 1 to 5, has at most
-- 20 patterns of each kind, and renders pages if it explores them.
pub validate-IsBounded :
    {U : Type 0} (net : NetUrl U) (parse_request_uri : Str → Option U) (r : Request) {p : Request}
    → validate net parse_request_uri r ≡ some p
    → IsBounded p
unfolding validate
validate-IsBounded net parse_request_uri r h =
    with_url-IsBounded r (accepted_url net (parse_request_uri (absolute r.url))) h
