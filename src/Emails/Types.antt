-- ===== src/Emails/Types.antt =====
-- The data of an e-mail search: pkg/emails/types.go, and the checks of Request.Validate.
use pagelode.Prelude.{
  ℕ, ◌≤◌, Str, codes, List, [], ◌++◌, Option, none, some, Bool, true, false, ◌||◌, ◌&&◌, not, ltb,
  ◌==◌, if◌then◌else◌, str_eq, contains, ◌≡◌, ◌⊎◌, arith,
}
use pagelode.Fetch.Page.{Provider}
use pagelode.Url.{NetUrl}

-- The limits are not negative here; Validate refuses the others.
pub record Request : Type 0 where
  pub url : Str
  pub max_pages : ℕ
  pub max_emails : ℕ
  pub max_duration_ms : ℕ
  pub profile : Str
  pub render : Str

pub record Source : Type 0 where
  pub url : Str
  pub found_in : Str

pub record Address : Type 0 where
  pub address : Str
  pub sources : List Source

pub record Page : Type 0 where
  pub url : Str
  pub final_url : Str
  pub provider : Provider
  pub status : ℕ
  pub outcome : Str

pub record Summary : Type 0 where
  pub pages_visited : ℕ
  pub pages_failed : ℕ
  pub emails_found : ℕ
  pub duration_ms : ℕ
  pub limited : Bool

pub record Report : Type 0 where
  pub url : Str
  pub outcome : Str
  pub emails : List Address
  pub pages : List Page
  pub summary : Summary
  pub warnings : List Str

-- Options of one load.
pub record Options : Type 0 where
  pub profile : Str
  pub render : Str

abbrev or_default : ℕ → ℕ → ℕ
or_default value default = if value == 0 then default else value

-- The defaults, once the URL is accepted.
unfoldable pub filled : Str → Request → Request
filled url r = record {
  url = url;
  max_pages = or_default r.max_pages 20;
  max_emails = or_default r.max_emails 100;
  max_duration_ms = or_default r.max_duration_ms 30000;
  profile = r.profile;
  render = if str_eq r.render [] then codes "auto" else r.render;
}

abbrev outside : ℕ → ℕ → ℕ → Bool
outside low high n = ltb n low || ltb high n

abbrev known_render : Str → Bool
known_render render =
    str_eq render (codes "auto") || str_eq render (codes "never") || str_eq render (codes "always")

unfoldable pub checked : (Str → Bool) → Request → Option Request
checked valid_profile r =
    if outside 1 100 r.max_pages
      || outside 1 1000 r.max_emails
      || outside 1000 120000 r.max_duration_ms
      || not (known_render r.render)
    then none
    else if str_eq r.profile []
    then some r
    else if not (valid_profile r.profile) || str_eq r.render (codes "never")
    then none
    else some r

abbrev absolute : Str → Str
absolute url = if contains url (codes "://") then url else codes "https://" ++ url

with_url : (Str → Bool) → Request → Option Str → Option Request
unfolding checked filled
with_url valid_profile r none = none
with_url valid_profile r (some url) = checked valid_profile (filled url r)

-- The checks of the parsed URL, its path and its fragment; ParseRequestURI is `parse_request_uri`.
unfoldable pub accepted_url : {U : Type 0} → NetUrl U → Option U → Option Str
accepted_url net none = none
accepted_url net (some u) =
    if str_eq (net.hostname u) []
      || net.has_user u
      || not (str_eq (net.scheme u) (codes "http")) && not (str_eq (net.scheme u) (codes "https"))
    then none
    else some (
        net.string
          (net.clear_fragment (if str_eq (net.path u) [] then net.set_path (codes "/") u else u)))

-- Validate; `none` is an error.
unfoldable pub validate :
    {U : Type 0} → NetUrl U → (Str → Option U) → (Str → Bool) → Request → Option Request
unfolding with_url accepted_url
validate net parse_request_uri valid_profile r =
    with_url valid_profile r (accepted_url net (parse_request_uri (absolute r.url)))

-- What an accepted request satisfies.
pub record IsBounded (r : Request) : Type 0 where
  pub pages : (1 ≤ r.max_pages) × (r.max_pages ≤ 100)
  pub emails : (1 ≤ r.max_emails) × (r.max_emails ≤ 1000)
  pub duration : (1000 ≤ r.max_duration_ms) × (r.max_duration_ms ≤ 120000)
  pub profiled : (str_eq r.profile [] ≡ true) ⊎ (str_eq r.render (codes "never") ≡ false)

checked-IsBounded :
    (valid_profile : Str → Bool) (r : Request) {p : Request}
    → checked valid_profile r ≡ some p
    → IsBounded p
unfolding checked
checked-IsBounded valid_profile r h = ground arith

with_url-IsBounded :
    (valid_profile : Str → Bool) (r : Request) (url : Option Str) {p : Request}
    → with_url valid_profile r url ≡ some p
    → IsBounded p
unfolding with_url
with_url-IsBounded valid_profile r none h = absurd (ground arith)
with_url-IsBounded valid_profile r (some url) h = checked-IsBounded valid_profile (filled url r) h

pub validate-IsBounded :
    {U : Type 0} (net : NetUrl U) (parse_request_uri : Str → Option U) (valid_profile : Str → Bool)
    (r : Request) {p : Request}
    → validate net parse_request_uri valid_profile r ≡ some p
    → IsBounded p
unfolding validate
validate-IsBounded net parse_request_uri valid_profile r h =
    with_url-IsBounded valid_profile r (accepted_url net (parse_request_uri (absolute r.url))) h
