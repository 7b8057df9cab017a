-- ===== src/Sitemap/Scripts.antt =====
-- The endpoints and scripts that a page names: pkg/sitemap/scriptscan.go. The quoted strings of a
-- source and the test for MIME types are regular expressions, and parameters here.
use pagelode.Prelude.{
  ℕ, ◌+◌, Str, codes, List, [], ◌∷◌, ◌++◌, Option, none, some, Bool, true, false, ◌||◌, ◌&&◌, not,
  ltb, ◌==◌, if◌then◌else◌, str_eq, has_prefix, any, length, member, runes, to_lower, trim_space,
}
use pagelode.Url.{NetUrl, slash, dot, bare_host}

pub record Patterns : Type 0 where
  pub quoted : Str → List Str
  pub mime_like : Str → Bool

abbrev byte_in : List ℕ → ℕ → Bool
byte_in bytes c = any (λ b. b == c) bytes

-- isSpace, of the bytes of a rune.
unfoldable pub is_blank : Str → Bool
is_blank (b ∷ []) = byte_in (0x20 ∷ 9 ∷ 11 ∷ 12 ∷ []) b
is_blank (b ∷ c ∷ []) = (b == 0xc2) && (c == 0xa0)
is_blank _ = false

-- In front of the first `?` or `#`.
unfoldable pub without_query : Str → Str
without_query [] = []
without_query (c ∷ s) =
    let rest = without_query s in if (c == 63) || (c == 35) then [] else c ∷ rest

-- What stands behind the last dot, if no slash does.
unfoldable pub extension : Str → Option Str
extension [] = none
extension (c ∷ s) = elim (extension s) [
  | some e ↦ some e
  | none ↦ if (c == dot) && not (any (λ d. (d == slash) || (d == dot)) s) then some s else none
]

abbrev pub static_extensions : List Str
static_extensions =
    codes "png"
    ∷ codes "jpg"
    ∷ codes "jpeg"
    ∷ codes "gif"
    ∷ codes "svg"
    ∷ codes "webp"
    ∷ codes "ico"
    ∷ codes "css"
    ∷ codes "woff"
    ∷ codes "woff2"
    ∷ codes "ttf"
    ∷ codes "map"
    ∷ codes "mp4"
    ∷ []

unfoldable pub static_asset : Str → Bool
unfolding without_query extension
static_asset value = elim (extension (without_query value)) [
  | none ↦ false
  | some e ↦ member (to_lower e) static_extensions
]

unfoldable pub keep_endpoint : Patterns → Str → Bool
unfolding is_blank static_asset
keep_endpoint p value = not (
    str_eq value (codes "/")
    || ltb 200 (length value)
    || has_prefix value (codes "//")
    || any (byte_in (123 ∷ 125 ∷ 92 ∷ [])) value
    || any is_blank (runes value)
    || p.mime_like value
    || static_asset value)

-- The loop of ScriptEndpoints, with the endpoints so far.
unfoldable pub endpoints_from : Patterns → List Str → List Str → List Str
unfolding keep_endpoint
endpoints_from p [] found = found
endpoints_from p (value ∷ values) found = elim (not (keep_endpoint p value) || member value found) [
  | true ↦ endpoints_from p values found
  | false ↦ elim (length found + 1 == 500) [
    | true ↦ found ++ value ∷ []
    | false ↦ endpoints_from p values (found ++ value ∷ [])
  ]
]

unfoldable pub script_endpoints : Patterns → Str → List Str
unfolding endpoints_from
script_endpoints p source = endpoints_from p (p.quoted source) []

module _ {U : Type 0} (net : NetUrl U) where
  -- The URL of a script, if it is one of the same site.
  unfoldable pub script_url : U → Str → Option Str
  script_url base src =
      let trimmed = trim_space src in
      if str_eq trimmed [] then none else elim (net.parse trimmed) [
        | none ↦ none
        | some reference ↦
            let resolved = net.resolve base reference in
            if not (
                str_eq (net.scheme resolved) (codes "http")
                || str_eq (net.scheme resolved) (codes "https"))
              || not (str_eq (bare_host net resolved) (bare_host net base))
            then none
            else some (net.string (net.clear_fragment resolved))
      ]

  -- The loop over the sources of the scripts.
  unfoldable pub script_urls_from : U → List Str → List Str → List Str
  unfolding script_url
  script_urls_from base [] found = found
  script_urls_from base (src ∷ srcs) found = elim (script_url base src) [
    | none ↦ script_urls_from base srcs found
    | some url ↦ elim (member url found) [
      | true ↦ script_urls_from base srcs found
      | false ↦ elim (ltb (length found + 1) 20) [
        | true ↦ script_urls_from base srcs (found ++ url ∷ [])
        | false ↦ found ++ url ∷ []
      ]
    ]
  ]

  -- ScriptURLs, for the sources that the parser of HTML finds.
  unfoldable pub script_urls : U → List Str → List Str
  unfolding script_urls_from
  script_urls base srcs =
      if str_eq (bare_host net base) [] then [] else script_urls_from base srcs []
