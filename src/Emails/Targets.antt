-- ===== src/Emails/Targets.antt =====
-- The pages that an e-mail search may load: pkg/emails/targets.go. Package net/url and the parsers
-- of HTML and XML are parameters.
use pagelode.Url.{NetUrl, slash, ext, one_of, leaving_segments, is_tracking, bare_host, tidied}
use pagelode.Prelude.{
  ℕ, ◌+◌, ◌-◌, ◌*◌, Str, codes, List, [], ◌∷◌, ◌++◌, Option, none, some, Bool, true, false, ◌||◌,
  ◌&&◌, not, ltb, leb, ◌==◌, if◌then◌else◌, str_eq, contains, to_lower, trim_space, split, any,
  length, sort, str_less,
}

pub record Target : Type 0 where
  pub url : Str
  pub depth : ℕ
  pub score : ℕ
  pub sitemap : Bool

abbrev pub max_candidates : ℕ
max_candidates = 1000

abbrev pub file_extensions : List Str
file_extensions =
    codes ".jpg"
    ∷ codes ".jpeg"
    ∷ codes ".png"
    ∷ codes ".gif"
    ∷ codes ".svg"
    ∷ codes ".webp"
    ∷ codes ".ico"
    ∷ codes ".css"
    ∷ codes ".js"
    ∷ codes ".pdf"
    ∷ codes ".zip"
    ∷ codes ".mp4"
    ∷ codes ".woff"
    ∷ codes ".woff2"
    ∷ []

-- The loop of priority, from the rank of the first word.
unfoldable pub priority_in : Str → ℕ → List Str → ℕ
priority_in lower i [] = 0
priority_in lower i (word ∷ words) =
    let rest = priority_in lower (i + 1) words in if contains lower word then 100 - i * 10 else rest

abbrev pub priority_words : List Str
priority_words =
    codes "contact"
    ∷ codes "team"
    ∷ codes "staff"
    ∷ codes "directory"
    ∷ codes "people"
    ∷ codes "about"
    ∷ codes "location"
    ∷ codes "support"
    ∷ []

unfoldable pub priority : Str → ℕ
unfolding priority_in
priority value = priority_in (to_lower value) 0 priority_words

-- The order of orderTargets.
unfoldable pub sooner : Target → Target → Bool
unfolding str_less
sooner a b =
    if not (a.score == b.score)
    then ltb b.score a.score
    else if not (a.depth == b.depth)
    then ltb a.depth b.depth
    else str_less a.url b.url

unfoldable pub order_targets : List Target → List Target
unfolding sooner sort
order_targets queue = sort sooner queue

module _ {U : Type 0} (net : NetUrl U) where
  unfoldable pub in_scope : U → U → Bool
  in_scope current scope =
      str_eq (bare_host net current) (bare_host net scope)
      && str_eq (net.port current) (net.port scope)

  unfoldable pub is_page_path : Str → Bool
  unfolding ext
  is_page_path path =
      not (any (λ segment. one_of segment leaving_segments) (split (to_lower path) slash))
      && not (one_of (to_lower (ext path)) file_extensions)

  unfoldable pub scoped : U → U → Str
  unfolding in_scope is_page_path is_tracking
  scoped current scope =
      if net.has_user current
        || not (
            str_eq (net.scheme current) (codes "http")
            || str_eq (net.scheme current) (codes "https"))
        || not (in_scope current scope)
      then []
      else if is_page_path (net.path (tidied net current))
      then net.string (net.keep_query (λ name. not (is_tracking name)) (tidied net current))
      else []

  -- scopedURL; the empty string is a refusal.
  unfoldable pub scoped_url : Str → Str → U → Str
  unfolding scoped
  scoped_url raw base scope = elim (net.parse base) [
    | none ↦ []
    | some parent ↦ elim (net.parse (trim_space raw)) [
      | none ↦ []
      | some reference ↦ scoped (net.resolve parent reference) scope
    ]
  ]

  -- The loop of pageLinks over the anchors, a reference and a text each, with the links so far.
  unfoldable pub page_links_from : Str → U → ℕ → List (Str × Str) → ℕ → List Target
  unfolding scoped_url priority
  page_links_from base scope depth [] n = []
  page_links_from base scope depth ((href, text) ∷ anchors) n =
      let url = scoped_url href base scope in
      elim (str_eq url []) [
        | true ↦ elim (ltb n max_candidates) [
          | true ↦ page_links_from base scope depth anchors n
          | false ↦ []
        ]
        | false ↦
            record {
              url = url;
              depth = depth;
              score = priority (url ++ (codes " " ++ text));
              sitemap = false;
            }
            ∷ elim (ltb (n + 1) max_candidates) [
              | true ↦ page_links_from base scope depth anchors (n + 1)
              | false ↦ []
            ]
      ]

  -- The first loop of sitemapLinks, over the pages of a site map; the flag says that it is full.
  unfoldable pub sitemap_pages : Str → U → List Str → ℕ → List Target × Bool
  unfolding scoped_url priority
  sitemap_pages base scope [] n = ([], false)
  sitemap_pages base scope (location ∷ locations) n =
      let url = scoped_url location base scope in
      elim (str_eq url [] || (priority url == 0)) [
        | true ↦ elim (leb max_candidates n) [
          | true ↦ ([], true)
          | false ↦ sitemap_pages base scope locations n
        ]
        | false ↦
            let item : Target = record {
              url = url;
              depth = 1;
              score = priority url;
              sitemap = false;
            } in
            elim (leb max_candidates (n + 1)) [
              | true ↦ (item ∷ [], true)
              | false ↦
                  let (items, full) = sitemap_pages base scope locations (n + 1) in
                  (item ∷ items, full)
            ]
      ]

  -- The second loop, over the site maps that it names.
  unfoldable pub sitemap_maps : Str → U → List Str → ℕ → List Target
  unfolding scoped_url
  sitemap_maps base scope [] n = []
  sitemap_maps base scope (location ∷ locations) n =
      let url = scoped_url location base scope in
      elim (str_eq url []) [
        | true ↦ elim (leb max_candidates n) [
          | true ↦ []
          | false ↦ sitemap_maps base scope locations n
        ]
        | false ↦
            record { url = url; depth = 0; score = 110; sitemap = true }
            ∷ elim (leb max_candidates (n + 1)) [
              | true ↦ []
              | false ↦ sitemap_maps base scope locations (n + 1)
            ]
      ]

  -- sitemapLinks, for the locations of a parsed site map; `none` is an XML error.
  unfoldable pub sitemap_links : Option (List Str × List Str) → Str → U → List Target
  unfolding sitemap_pages sitemap_maps
  sitemap_links none base scope = []
  sitemap_links (some (pages, maps)) base scope =
      let (items, full) = sitemap_pages base scope pages 0 in
      if full then items else items ++ sitemap_maps base scope maps (length items)
