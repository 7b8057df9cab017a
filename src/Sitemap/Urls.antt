-- ===== src/Sitemap/Urls.antt =====
-- Which URLs a site map takes: scope, normalize and the globs of pkg/sitemap/urls.go.
use pagelode.Prelude.{
  Str, codes, List, [], ◌∷◌, ◌++◌, none, some, Bool, false, ◌||◌, ◌&&◌, not, ◌==◌, if◌then◌else◌,
  all, valid_utf8, str_eq, has_suffix, to_lower, trim_space, split, any, length, take,
}
use pagelode.Url.{NetUrl, slash, ext, one_of, leaving_segments, is_tracking, bare_host, tidied}
use pagelode.Sitemap.Robots.{star_tails}

pub record Scope : Type 0 where
  pub host : Str
  pub port : Str
  pub subdomains : Bool

abbrev pub file_extensions : List Str
file_extensions =
    codes ".jpg"
    ∷ codes ".jpeg"
    ∷ codes ".png"
    ∷ codes ".gif"
    ∷ codes ".svg"
    ∷ codes ".webp"
    ∷ codes ".ico"
    ∷ codes ".css"
    ∷ codes ".js"
    ∷ codes ".zip"
    ∷ codes ".mp4"
    ∷ codes ".woff"
    ∷ codes ".woff2"
    ∷ []

-- The expression of a glob, on the whole of a path: a star takes any bytes but a newline.
unfoldable pub glob_matches : Str → Str → Bool
unfolding star_tails
glob_matches [] s = str_eq s []
glob_matches (c ∷ cs) [] = let here = glob_matches cs [] in (c == 42) && here
glob_matches (c ∷ cs) (d ∷ s) =
    let here = glob_matches cs s in
    let later = any (λ t. glob_matches cs t) (star_tails (d ∷ s)) in
    if c == 42 then later else (c == d) && here

-- Whether compileGlobs returns: MustCompile panics on a pattern that is not UTF-8.
unfoldable pub globs_compile : List Str → Bool
globs_compile patterns = all valid_utf8 patterns

-- match of the globs, once they are compiled
unfoldable pub globs_match : List Str → Str → Bool
unfolding glob_matches
globs_match patterns path = any (λ p. glob_matches p path) patterns

-- The loop of pageLinks over the references.
unfoldable pub page_links : List Str → List Str
page_links hrefs = take 5000 hrefs

module _ {U : Type 0} (net : NetUrl U) where
  unfoldable pub new_scope : U → Bool → Scope
  new_scope start subdomains = record {
    host = bare_host net start;
    port = net.port start;
    subdomains = subdomains;
  }

  unfoldable pub scope_contains : Scope → U → Bool
  scope_contains s value =
      str_eq (net.port value) s.port
      && (str_eq (bare_host net value) s.host
          || s.subdomains && has_suffix (bare_host net value) (codes "." ++ s.host))

  unfoldable pub is_page_path : Str → Bool
  unfolding ext
  is_page_path path =
      not (any (λ segment. one_of segment leaving_segments) (split (to_lower path) slash))
      && not (one_of (to_lower (ext path)) file_extensions)

  unfoldable pub normalized : Scope → U → Str
  unfolding scope_contains is_page_path is_tracking
  normalized s current =
      if net.has_user current
        || not (
            str_eq (net.scheme current) (codes "http")
            || str_eq (net.scheme current) (codes "https"))
        || not (scope_contains s current)
      then []
      else if is_page_path (net.path (tidied net current))
      then net.string (net.keep_query (λ name. not (is_tracking name)) (tidied net current))
      else []

  -- normalize; the empty string is a refusal.
  unfoldable pub normalize : Scope → Str → Str → Str
  unfolding normalized
  normalize s raw base = elim (net.parse base) [
    | none ↦ []
    | some parent ↦ elim (net.parse (trim_space raw)) [
      | none ↦ []
      | some reference ↦ normalized s (net.resolve parent reference)
    ]
  ]

  -- permitted, for the patterns of a request
  unfoldable pub permitted : List Str → List Str → Str → Bool
  unfolding globs_match
  permitted include exclude url = elim (net.parse url) [
    | none ↦ false
    | some u ↦
        ((length include == 0) || globs_match include (net.path u))
        && not (globs_match exclude (net.path u))
  ]
