-- ===== src/Sitemap/Crawl.antt =====
-- The crawl of a site: crawler of pkg/sitemap/crawl.go. The goroutines of fetchAll write different
-- places of the result; here the pages of a batch are loaded one after the other. What lies outside
-- is the parameter `Outside`; the parsers of a page are the parameter `Readers`.
pub mod Pages
pub mod Levels
pub mod Limits
pub mod Fetching
pub mod Rounds
use pagelode.Prelude.{
  ℕ, zero, suc, ◌+◌, ◌-◌, min, Str, codes, List, [], ◌∷◌, ◌++◌, Option, none, some, Bool, true,
  false, ◌||◌, ◌&&◌, not, ltb, leb, ◌==◌, if◌then◌else◌, str_eq, length, take, drop, member,
}
use pagelode.Url.{NetUrl}
use pagelode.Fetch.Page.{Document, ContentType, html, Kind, needs_render}
use pagelode.Fetch.Classify.{Inspector, classify}
use pagelode.Sitemap.Types.{
  Request, Report, Summary, source_link, source_page, source_rendered, source_explore, render_never,
  render_auto, render_always,
}
use pagelode.Sitemap.Robots.{RobotsRule, blocks}
use pagelode.Sitemap.Urls.{normalize, page_links}
use pagelode.Sitemap.Run.{
  Run, Candidate, Loaded, full, warn, add, add_endpoints, is_permitted, final_url,
}
use pagelode.Sitemap.Shape.{Sampler, new_sampler, allow}
use pagelode.Sitemap.Similarity.{DuplicateIndex, new_duplicate_index, seen, fingerprint}
use pagelode.Sitemap.Scripts.{Patterns, script_endpoints, script_urls}

-- crawlTarget
pub record Target : Type 0 where
  pub url : Str
  pub depth : ℕ

-- crawled
pub record Crawled : Type 0 where
  pub target : Target
  pub document : Document
  pub rendered : Bool
  pub failed : Bool
  pub saturated : Bool

-- What a load gives: the document, whether there is an error, and whether it is ErrSaturated.
pub record Loading : Type 0 where
  pub document : Document
  pub failed : Bool
  pub saturated : Bool

-- The limiter with the fetcher, with the two calls of the browser, if there is one, and whether the
-- context of the map is over.
pub record Outside (W : Type 0) : Type 0 where
  pub load : W → Str → Loading × W
  pub browse : W → Str → Loading × W
  pub explore : W → Str → Loading × W
  pub has_browser : Bool
  pub over : W → Bool

-- PageText, the anchors of pageLinks, the sources and the text of the scripts, and the tables of the
-- regular expressions, of the runes and of Classify.
pub record Readers : Type 0 where
  pub page_text : Str → Str
  pub hrefs : Str → List Str
  pub script_sources : Str → List Str
  pub inline_scripts : Str → Str
  pub patterns : Patterns
  pub is_word : Str → Bool
  pub inspector : Inspector

-- The crawler; `next` and `found_scripts` are the variables of one level.
pub record Crawler : Type 0 where
  pub run : Run
  pub rules : List RobotsRule
  pub queued : List Str
  pub scripts : List Str
  pub sampler : Sampler
  pub index : DuplicateIndex
  pub renders : ℕ
  pub explores : ℕ
  pub next : List Target
  pub found_scripts : List Str

abbrev pub is_html : ContentType → Bool
is_html html = true
is_html _ = false

abbrev asks_render : Kind → Bool
asks_render needs_render = true
asks_render _ = false

abbrev crawled_of : Target → Bool → Loading → Crawled
crawled_of target rendered l = record {
  target = target;
  document = l.document;
  rendered = rendered;
  failed = l.failed;
  saturated = l.saturated;
}

abbrev pub add_render : Crawler → Crawler
add_render c = record c { renders = c.renders + 1 }

abbrev pub add_explore : Crawler → Crawler
add_explore c = record c { explores = c.explores + 1 }

-- Whether a load of the browser ends fetch.
abbrev pub is_final : Loading → Bool
is_final l = not l.failed || l.saturated

-- The page that the browser rendered in place of the one that was loaded, if it could.
abbrev rendered_or : {W : Type 0} → Target → Loading → Crawler → Loading × W → Crawled × Crawler × W
rendered_or target l c (r, w) =
    (if is_final r then crawled_of target (not r.failed) r else crawled_of target false l, c, w)

module _ {W : Type 0} (out : Outside W) (inspector : Inspector) where
  -- fetch behind the load over HTTP: the page is rendered where it asks for it.
  unfoldable pub fetch_loaded : Crawler → Target → Loading × W → Crawled × Crawler × W
  unfolding classify
  fetch_loaded c target (l, w) =
      if not l.failed
        && out.has_browser
        && str_eq c.run.request.render render_auto
        && is_html l.document.content_type
        && asks_render (classify inspector l.document).kind
      then if leb (c.renders + 1) 25
        then rendered_or target l (add_render c) (out.browse w target.url)
        else (crawled_of target false l, add_render c, w)
      else (crawled_of target false l, c, w)

  unfoldable pub fetch_plain : Crawler → Target → W → Crawled × Crawler × W
  unfolding fetch_loaded
  fetch_plain c target w = fetch_loaded c target (out.load w target.url)

  -- A page that the browser loaded, or that is loaded over HTTP after it.
  unfoldable pub fetch_browsed : Crawler → Target → Loading × W → Crawled × Crawler × W
  unfolding fetch_plain
  fetch_browsed c target (r, w) =
      if is_final r then (crawled_of target true r, c, w) else fetch_plain c target w

  -- fetch where exploration is not asked for, or used up.
  unfoldable pub fetch_unexplored : Crawler → Target → W → Crawled × Crawler × W
  unfolding fetch_browsed
  fetch_unexplored c target w =
      if out.has_browser && str_eq c.run.request.render render_always
      then if leb (c.renders + 1) 25
        then fetch_browsed (add_render c) target (out.browse w target.url)
        else fetch_plain (add_render c) target w
      else fetch_plain c target w

  -- fetch
  unfoldable pub fetch : Crawler → Target → W → Crawled × Crawler × W
  unfolding fetch_unexplored
  fetch c target w =
      if out.has_browser && c.run.request.explore
      then if leb (c.explores + 1) 5
        then fetch_browsed (add_explore c) target (out.explore w target.url)
        else fetch_unexplored (add_explore c) target w
      else fetch_unexplored c target w

  -- fetchAll
  unfoldable pub fetch_all : Crawler → List Target → W → List Crawled × Crawler × W
  unfolding fetch
  fetch_all c [] w = ([], c, w)
  fetch_all c (target ∷ targets) w =
      let (result, d, w1) = fetch c target w in
      let (results, e, w2) = fetch_all d targets w1 in (result ∷ results, e, w2)

-- How a loop ends: with ErrSaturated, or with a state.
pub data Ended (S : Type 0) : Type 0 where
  saturated : Ended S
  ended : S → Ended S
