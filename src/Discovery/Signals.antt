-- ===== src/Discovery/Signals.antt =====
-- The credentials and the other signals of a request: pkg/discovery/signals.go.
use pagelode.Prelude.{
  ℕ, Str, codes, List, [], ◌∷◌, ◌++◌, none, some, Bool, ◌||◌, ◌==◌, if◌then◌else◌, str_eq, contains,
  trim_suffix, to_lower, trim_space, before_byte, split, Dict, member,
}
use pagelode.Discovery.Types.{Exchange, Field, Signal, Tools}
use pagelode.Discovery.Schema.{append_unique, safe_name, schema, request_fields}
use pagelode.Discovery.Classifier.{header, contains_one}

abbrev pub sensitive_words : List Str
sensitive_words =
    codes "token"
    ∷ codes "secret"
    ∷ codes "password"
    ∷ codes "api_key"
    ∷ codes "apikey"
    ∷ codes "authorization"
    ∷ codes "session"
    ∷ []

unfoldable pub sensitive_name : Str → Bool
sensitive_name name = contains_one (to_lower name) sensitive_words

unfoldable pub pagination_name : Str → Bool
pagination_name name =
    let lower = to_lower name in
    contains_one lower (
      codes "cursor"
      ∷ codes "nextpage"
      ∷ codes "next_page"
      ∷ codes "nexttoken"
      ∷ codes "next_token"
      ∷ codes "hasnext"
      ∷ codes "has_next"
      ∷ codes "pagetoken"
      ∷ codes "page_token"
      ∷ [])
    || member lower (
        codes "page"
        ∷ codes "offset"
        ∷ codes "limit"
        ∷ codes "per_page"
        ∷ codes "after"
        ∷ codes "before"
        ∷ codes "next"
        ∷ codes "totalpages"
        ∷ codes "total_pages"
        ∷ [])

-- The kinds of an Authorization header.
unfoldable pub authorization_kinds : List Str → Str → List Str
unfolding append_unique
authorization_kinds result value =
    let scheme = before_byte 32 (trim_space (to_lower value)) in
    if str_eq scheme (codes "bearer")
    then append_unique result (codes "bearer")
    else if member scheme (codes "basic" ∷ codes "digest" ∷ codes "negotiate" ∷ codes "ntlm" ∷ [])
    then append_unique (append_unique result (codes "authorization")) scheme
    else append_unique result (codes "authorization")

unfoldable pub header_auth : Dict Str → List Str → List Str
unfolding authorization_kinds append_unique
header_auth [] result = result
header_auth ((name, value) ∷ rest) result =
    let lower = to_lower name in
    header_auth rest (
      if str_eq lower (codes "authorization")
      then authorization_kinds result value
      else if str_eq lower (codes "cookie")
      then append_unique result (codes "cookies")
      else if contains lower (codes "csrf") || contains lower (codes "xsrf")
      then append_unique result (codes "csrf")
      else if contains lower (codes "api-key") || contains lower (codes "apikey")
      then append_unique result (codes "api_key")
      else result)

unfoldable pub query_auth : List (Str × List Str) → List Str → List Str
unfolding sensitive_name append_unique
query_auth [] result = result
query_auth ((name, values) ∷ rest) result =
    query_auth rest
      (if sensitive_name name then append_unique result (codes "query_credential") else result)

unfoldable pub status_signals : ℕ → List Str
status_signals status =
    if status == 401
    then codes "authentication_required" ∷ []
    else if status == 403
    then codes "access_denied" ∷ []
    else if status == 429
    then codes "rate_limited" ∷ []
    else []

unfoldable pub protection_signals : Exchange → List Str
unfolding status_signals header
protection_signals entry =
    status_signals entry.status
    ++ ((if contains_one (to_lower entry.response_body) (
            codes "cf-chl-"
            ∷ codes "challenge-platform"
            ∷ codes "challenges.cloudflare.com"
            ∷ codes "verify you are human"
            ∷ [])
          then codes "browser_challenge" ∷ []
          else [])
        ++ (if str_eq (header entry.response_headers (codes "retry-after")) []
            then []
            else codes "retry_after" ∷ []))

-- The name that a path of a field ends in.
abbrev last_of : List Str → Str
last_of [] = []
last_of (s ∷ []) = s
last_of (s ∷ t ∷ ss) = last_of (t ∷ ss)

abbrev field_name : Field → Str
field_name field = trim_suffix (last_of (split field.path 46)) (codes "[]")

abbrev found_page : Str → Str → Str → Str → Signal
found_page id evidence location name = record {
  endpoint_id = id;
  kind = codes "pagination";
  location = location;
  name = safe_name name;
  basis = codes "inferred";
  evidence = evidence ∷ [];
}

unfoldable pub query_pages : Str → Str → List (Str × List Str) → List Signal
unfolding pagination_name safe_name
query_pages id evidence [] = []
query_pages id evidence ((name, values) ∷ rest) =
    let others = query_pages id evidence rest in
    if pagination_name name then found_page id evidence (codes "query") name ∷ others else others

unfoldable pub field_pages : Str → Str → Str → List Field → List Signal
unfolding pagination_name safe_name
field_pages id evidence location [] = []
field_pages id evidence location (field ∷ fields) =
    let others = field_pages id evidence location fields in
    if pagination_name (field_name field)
    then found_page id evidence location field.path ∷ others
    else others

module _ {U : Type 0} (tools : Tools U) where
  unfoldable pub auth_signals : Exchange → List Str
  unfolding header_auth query_auth
  auth_signals entry =
      let result = header_auth entry.request_headers [] in
      elim (tools.parse entry.url) [ none ↦ result | some u ↦ query_auth (tools.query u) result ]

  unfoldable pub pagination_signals : Str → Exchange → List (Str × List Str) → Str → List Signal
  unfolding query_pages field_pages header request_fields schema
  pagination_signals id entry query evidence =
      query_pages id evidence query
      ++ (field_pages id evidence (codes "request_body") (
            request_fields tools entry.request_body
              (header entry.request_headers (codes "content-type")))
          ++ (field_pages id evidence (codes "response_body") (schema tools entry.response_body)
              ++ (if contains (to_lower (header entry.response_headers (codes "link")))
                    (codes "rel=\"next\"")
                  then found_page id evidence (codes "response_header") (codes "link") ∷ []
                  else [])))
