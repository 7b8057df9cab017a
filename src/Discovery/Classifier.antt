-- ===== src/Discovery/Classifier.antt =====
-- The score of a request and the parts of its URL: pkg/discovery/classifier.go, and the questions of
-- analyze.go that rest on them. The expression of a SOAP envelope is a parameter.
use pagelode.Prelude.{
  ℕ, ◌+◌, ◌-◌, Str, codes, List, [], ◌∷◌, ◌++◌, Option, none, some, Bool, true, false, ◌||◌, ◌&&◌,
  not, ltb, leb, ◌==◌, if◌then◌else◌, str_eq, contains, has_prefix, has_suffix, all, any, length,
  drop, take, map, in_range, to_lower, to_upper, equal_fold, trim_space, split, join, itoa, Dict,
}
use pagelode.Discovery.Types.{Exchange, Score, Tools}

-- header and getHeaderValue
unfoldable pub header : Dict Str → Str → Str
header [] want = []
header ((key, value) ∷ rest) want =
    let other = header rest want in if equal_fold key want then value else other

unfoldable pub has_header : Dict Str → Str → Bool
has_header headers want = any (λ (entry : Str × Str). equal_fold entry.0 want) headers

unfoldable pub is_mutating_method : Str → Bool
is_mutating_method method =
    let m = to_upper (trim_space method) in
    str_eq m (codes "POST")
    || str_eq m (codes "PUT")
    || str_eq m (codes "PATCH")
    || str_eq m (codes "DELETE")

abbrev pub rest_path_segments : List Str
rest_path_segments =
    codes "/api/"
    ∷ codes "/v1/"
    ∷ codes "/v2/"
    ∷ codes "/v3/"
    ∷ codes "/rest/"
    ∷ codes "/rpc/"
    ∷ codes "/jsonrpc"
    ∷ codes "/.well-known/"
    ∷ codes "/oauth/"
    ∷ codes "/openapi"
    ∷ []

abbrev pub contains_one : Str → List Str → Bool
contains_one s words = any (λ w. contains s w) words

unfoldable pub host_matches : Str → List Str → Bool
host_matches host blocklist =
    not (str_eq host [])
    && any
        (λ blocked.
          str_eq host (to_lower blocked) || has_suffix host (codes "." ++ to_lower blocked))
        blocklist

-- defaultBlocklist
abbrev pub default_blocklist : List Str
default_blocklist =
    codes "google-analytics.com"
    ∷ codes "doubleclick.net"
    ∷ codes "sentry.io"
    ∷ codes "facebook.com"
    ∷ codes "googlesyndication.com"
    ∷ codes "googletagmanager.com"
    ∷ codes "fonts.googleapis.com"
    ∷ codes "gstatic.com"
    ∷ codes "bat.bing.com"
    ∷ codes "criteo.com"
    ∷ codes "demdex.net"
    ∷ codes "onetrust.com"
    ∷ codes "cookielaw.org"
    ∷ codes "amazon-adsystem.com"
    ∷ codes "adsymptotic.com"
    ∷ codes "improving.duckduckgo.com"
    ∷ codes "lngtd.com"
    ∷ codes "kargo.com"
    ∷ codes "segment.io"
    ∷ codes "api.segment.io"
    ∷ codes "mixpanel.com"
    ∷ codes "amplitude.com"
    ∷ codes "hotjar.com"
    ∷ codes "newrelic.com"
    ∷ codes "fullstory.com"
    ∷ codes "intercom.io"
    ∷ codes "branch.io"
    ∷ codes "stats.g.doubleclick.net"
    ∷ codes "adservice.google.com"
    ∷ codes "connect.facebook.net"
    ∷ []

-- What stands behind the first occurrence of a string.
unfoldable pub behind : Str → Str → Option Str
behind [] word = if str_eq word [] then some [] else none
behind (c ∷ s) word =
    let later = behind s word in
    if has_prefix (c ∷ s) word then some (drop (length word) (c ∷ s)) else later

-- What stands in front of the first byte that passes a test.
unfoldable pub in_front : (ℕ → Bool) → Str → Str
in_front p [] = []
in_front p (c ∷ s) = let rest = in_front p s in if p c then [] else c ∷ rest

-- From the first slash on.
unfoldable pub from_slash : Str → Str
from_slash [] = codes "/"
from_slash (c ∷ s) = let rest = from_slash s in if c == 47 then c ∷ s else rest

abbrev or_self : Str → Option Str → Str
or_self s none = s
or_self s (some t) = t

abbrev rooted : Str → Str
rooted path =
    if str_eq path []
    then codes "/"
    else if has_prefix path (codes "/")
    then path
    else codes "/" ++ path

abbrev without_scheme : Str → Option Str → Str
without_scheme raw none = rooted (in_front (λ c. c == 63) raw)
without_scheme raw (some rest) = rooted (in_front (λ c. c == 63) (from_slash rest))

abbrev is_hex : ℕ → Bool
is_hex c = in_range 48 57 c || in_range 97 102 c || in_range 65 70 c

-- uuidSegmentPattern, from an index of the segment.
unfoldable pub uuid_from : ℕ → Str → Bool
uuid_from i [] = i == 36
uuid_from i (c ∷ s) =
    (if (i == 8) || (i == 13) || (i == 18) || (i == 23)
      then c == 45
      else if i == 14
      then in_range 49 53 c
      else if i == 19
      then any (λ b. b == c) (codes "89abAB")
      else is_hex c)
    && uuid_from (i + 1) s

unfoldable pub path_part : Str → Str
unfolding uuid_from
path_part segment =
    if not (str_eq segment []) && all (in_range 48 57) segment
    then codes "{id}"
    else if uuid_from 0 segment
    then codes "{uuid}"
    else if leb 32 (length segment) && all is_hex segment
    then codes "{hash}"
    else segment

module _ {U : Type 0} (tools : Tools U) where
  -- extractHost where the URL has no host.
  abbrev host_by_hand : Str → Str
  host_by_hand raw =
      let host = in_front (λ c. (c == 47) || (c == 63)) (or_self raw (behind raw (codes "://"))) in
      or_self [] (tools.split_host_port host)

  -- extractHost; where SplitHostPort fails, it has assigned the empty host.
  unfoldable pub extract_host : Str → Str
  unfolding in_front behind
  extract_host raw = elim (tools.parse raw) [
    | none ↦ host_by_hand raw
    | some u ↦ if str_eq (tools.host u) [] then host_by_hand raw else tools.hostname u
  ]

  unfoldable pub extract_path : Str → Str
  unfolding in_front behind from_slash
  extract_path raw = elim (tools.parse raw) [
    | none ↦ without_scheme raw (behind raw (codes "://"))
    | some u ↦
        if str_eq (tools.path u) []
        then without_scheme raw (behind raw (codes "://"))
        else tools.path u
  ]

  unfoldable pub normalize_entry_path : Str → Str
  unfolding extract_path path_part
  normalize_entry_path raw =
      let normalized = join (map path_part (split (extract_path raw) 47)) (codes "/") in
      if str_eq normalized [] then codes "/" else normalized

  unfoldable pub has_soap_envelope : Str → Bool
  has_soap_envelope body =
      let probe = take 4096 body in
      tools.envelope_start probe && contains (to_lower probe) (codes "soap")

  unfoldable pub is_soap : Exchange → Str → Str → Bool
  unfolding has_soap_envelope has_header
  is_soap entry request_type response_type =
      has_header entry.request_headers (codes "SOAPAction")
      || contains request_type (codes "soap+xml")
      || contains response_type (codes "soap+xml")
      || (contains request_type (codes "xml") || contains response_type (codes "xml"))
        && (has_soap_envelope entry.request_body || has_soap_envelope entry.response_body)

  abbrev either : Str → Str → Str → Bool
  either a b word = contains a word || contains b word

  -- structuredAPIBonus
  unfoldable pub structured_bonus : Exchange → Str → Str → Str → ℕ
  unfolding is_soap is_mutating_method
  structured_bonus entry request_type response_type path =
      if is_soap entry request_type response_type
        || either request_type response_type (codes "application/grpc")
        || either request_type response_type (codes "application/graphql")
      then 2
      else if either request_type response_type (codes "application/xml")
          && (is_mutating_method entry.method || contains_one path rest_path_segments)
      then 2
      else if is_mutating_method entry.method && contains request_type (codes "multipart/form-data")
      then 1
      else 0

  unfoldable pub is_valid_json : Str → Bool
  is_valid_json body =
      not (str_eq (trim_space body) [])
      && elim (tools.parse_json body) [ none ↦ false | some value ↦ true ]

  abbrev if_so : Bool → ℕ → ℕ
  if_so c n = if c then n else 0

  unfoldable pub score_entry : Exchange → List Str → Score
  unfolding header extract_path extract_host is_valid_json structured_bonus host_matches
  score_entry entry blocklist =
      let response_type = to_lower entry.mime_type in
      let request_type = to_lower (header entry.request_headers (codes "Content-Type")) in
      let path = to_lower (extract_path entry.url) in
      record {
        gained =
            if_so (contains response_type (codes "application/json")) 2
            + (if_so
                  (contains request_type (codes "application/json")
                    || contains request_type (codes "application/x-www-form-urlencoded"))
                  1
                + (if_so
                      (contains_one path (
                        codes "/api/"
                        ∷ codes "/v1/"
                        ∷ codes "/v2/"
                        ∷ codes "/v3/"
                        ∷ codes "/graphql"
                        ∷ codes "/data/"
                        ∷ codes "/youtubei/"
                        ∷ []))
                      1
                    + (if_so (is_valid_json entry.response_body) 1
                        + structured_bonus entry request_type response_type path)));
        lost =
            if_so (host_matches (to_lower (extract_host entry.url)) blocklist) 3
            + (if_so
                  (any (λ prefix. has_prefix response_type prefix)
                    (codes "image/"
                      ∷ codes "text/css"
                      ∷ codes "text/html"
                      ∷ codes "application/javascript"
                      ∷ codes "font/"
                      ∷ []))
                  2
                + if_so
                    (any (λ suffix. has_suffix (to_lower entry.url) suffix)
                      (codes ".js"
                        ∷ codes ".css"
                        ∷ codes ".png"
                        ∷ codes ".jpg"
                        ∷ codes ".woff"
                        ∷ codes ".svg"
                        ∷ codes ".ico"
                        ∷ []))
                    1);
      }

  -- "%d" of a score
  abbrev score_text : Score → Str
  score_text s =
      if leb s.lost s.gained
      then itoa (s.gained - s.lost)
      else codes "-" ++ itoa (s.lost - s.gained)

  abbrev pub is_data : Score → Bool
  is_data s = ltb s.lost s.gained

  -- classifyEntry: the classification and the reason.
  unfoldable pub classify_entry : Exchange → Str × Str
  unfolding score_entry
  classify_entry entry =
      let score = score_entry entry default_blocklist in
      if is_data score
      then (codes "data", codes "printing press API score " ++ (score_text score ++ codes " > 0"))
      else (codes "noise", codes "printing press API score " ++ (score_text score ++ codes " <= 0"))
