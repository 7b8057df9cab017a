-- ===== src/Sitemap/Crawl/Pages.antt =====
-- What the crawler makes of a loaded page: consume and enqueue of pkg/sitemap/crawl.go.
use pagelode.Prelude.{
  ℕ, ◌+◌, Str, codes, List, [], ◌∷◌, ◌++◌, Option, none, some, Bool, true, false, ◌||◌, ◌&&◌, not,
  ltb, leb, ◌==◌, if◌then◌else◌, str_eq, length, member,
}
use pagelode.Url.{NetUrl}
use pagelode.Fetch.Page.{Document}
use pagelode.Sitemap.Types.{source_link, source_page, source_rendered, source_explore}
use pagelode.Sitemap.Robots.{blocks}
use pagelode.Sitemap.Urls.{normalize, page_links}
use pagelode.Sitemap.Run.{Run, warn, add, add_endpoints, is_permitted}
use pagelode.Sitemap.Shape.{Sampler, allow}
use pagelode.Sitemap.Similarity.{DuplicateIndex, seen, fingerprint}
use pagelode.Sitemap.Scripts.{Patterns, script_endpoints, script_urls}
use pagelode.Sitemap.Crawl.{Target, Crawled, Readers, Crawler, is_html}

module _ {U : Type 0} (net : NetUrl U) where
  abbrev pub with_queued : Crawler → Str → Crawler
  with_queued c link = record c { queued = link ∷ c.queued }

  abbrev pub skip_robots : Run → Run
  skip_robots r =
      let p = r.report in
      let s = p.summary in
      record r {
        report = record p { summary = record s { robots_skipped = s.robots_skipped + 1 } };
      }

  unfoldable pub enqueue_allowed : Crawler → Str → ℕ → Bool × Sampler → Crawler
  enqueue_allowed c link depth (false, s) = c
  enqueue_allowed c link depth (true, s) = record c {
    sampler = s;
    queued = link ∷ c.queued;
    next = c.next ++ record { url = link; depth = depth } ∷ [];
  }

  unfoldable pub enqueue : Crawler → Str → ℕ → Crawler
  unfolding enqueue_allowed
  enqueue c link depth =
      if str_eq link [] || member link c.queued || not (is_permitted net c.run.request link)
      then c
      else if blocks net c.rules link
      then with_queued (record c { run = skip_robots c.run }) link
      else enqueue_allowed c link depth (allow net c.sampler link)

  -- A link of a page: it is added to the report, and queued where the level is expanded.
  unfoldable pub take_link : Crawler → Bool → Str → Str → ℕ → Crawler
  unfolding enqueue
  take_link c expand source link depth =
      let d : Crawler = record c {
        run = add net c.run (record { url = link; source = source; last_modified = [] });
      } in
      if expand then enqueue d link depth else d

  -- The loop over the links; they are resolved against the final URL.
  unfoldable pub take_links : Crawler → Bool → Str → Str → ℕ → List Str → Crawler
  unfolding take_link
  take_links c expand source base depth [] = c
  take_links c expand source base depth (href ∷ hrefs) =
      take_links (take_link c expand source (normalize net c.run.scope href base) depth) expand
        source base depth hrefs

  -- The loop over the scripts of a page.
  unfoldable pub take_scripts : Crawler → List Str → Crawler
  take_scripts c [] = c
  take_scripts c (script ∷ scripts) =
      take_scripts
        (if not (member script c.scripts) && ltb (length c.scripts) 20
          then record c {
            scripts = script ∷ c.scripts;
            found_scripts = c.found_scripts ++ script ∷ [];
          }
          else c)
        scripts

  abbrev pub take_page_scripts : Readers → Crawler → Str → Option U → Crawler
  take_page_scripts readers c page none = c
  take_page_scripts readers c page (some base) =
      take_scripts c (script_urls net base (readers.script_sources page))

  -- The inline scripts of a page.
  abbrev pub take_endpoints : Crawler → Patterns → Str → Str → Crawler
  take_endpoints c patterns source base = record c {
    run = add_endpoints net c.run (script_endpoints patterns source) base;
  }

  -- Whether a page is a near duplicate, and the index behind the question.
  unfoldable pub judge_duplicate : Readers → DuplicateIndex → Str → Bool × DuplicateIndex
  unfolding fingerprint
  judge_duplicate readers index page =
      let text = readers.page_text page in
      if leb 200 (length text)
      then seen index (fingerprint readers.is_word text)
      else (false, index)

  -- consume of an HTML page, behind the counts.
  unfoldable pub consume_html : Readers → Crawler → Bool → Document → Target → Str → Str → Crawler
  unfolding judge_duplicate take_links take_scripts
  consume_html readers c expand d target source base =
      let (duplicate, index) = judge_duplicate readers c.index d.html in
      let expands = expand && not duplicate in
      let linked =
        take_links (record c { index = index }) expands source base (target.depth + 1)
          (page_links (readers.hrefs d.html)) in
      let explored =
        take_links linked expands source_explore base (target.depth + 1) d.explored_urls in
      take_endpoints (take_page_scripts readers explored d.html (net.parse base)) readers.patterns
        (readers.inline_scripts d.html) base

  abbrev pub count_page : Run → Bool → Run
  count_page r rendered =
      let p = r.report in
      let s = p.summary in
      record r {
        report = record p {
          summary = record s {
            pages_crawled = s.pages_crawled + 1;
            pages_rendered = if rendered then s.pages_rendered + 1 else s.pages_rendered;
          };
        };
      }

  abbrev pub source_of : Bool → ℕ → Str
  source_of rendered depth =
      if rendered then source_rendered else if depth == 0 then source_page else source_link

  -- The start page is added to the report itself.
  unfoldable pub add_start : Run → ℕ → Str → Str → Run
  add_start r depth normalized source =
      if depth == 0
      then add net (record r { page_read = true })
          (record { url = normalized; source = source; last_modified = [] })
      else r

  abbrev pub warn_start : Crawler → ℕ → Str → Crawler
  warn_start c depth message = record c { run = if depth == 0 then warn c.run message else c.run }

  unfoldable pub consume_page : Readers → Crawler → Bool → Crawled → Str → Str → Crawler
  unfolding consume_html add_start
  consume_page readers c expand result base normalized =
      let source = source_of result.rendered result.target.depth in
      let d : Crawler = record c {
        run = add_start (count_page c.run result.rendered) result.target.depth normalized source;
      } in
      if is_html result.document.content_type
      then consume_html readers d expand result.document result.target source base
      else d

  -- consume
  unfoldable pub consume : Readers → Crawler → Bool → Crawled → Crawler
  unfolding consume_page
  consume readers c expand result =
      let base =
        if str_eq result.document.final_url []
        then result.target.url
        else result.document.final_url in
      let normalized = normalize net c.run.scope base base in
      if result.failed || leb 400 result.document.status_code
      then warn_start c result.target.depth (codes "start page could not be loaded")
      else if str_eq normalized []
      then warn_start c result.target.depth (codes "start page redirected outside the mapped site")
      else consume_page readers c expand result base normalized

  -- The loop over the results of a batch; `none` is ErrSaturated.
  unfoldable pub consume_all : Readers → Crawler → Bool → List Crawled → Option Crawler
  consume_all readers c expand [] = some c
  consume_all readers c expand (result ∷ results) =
      let rest = consume_all readers (consume readers c expand result) expand results in
      if result.saturated then none else rest
