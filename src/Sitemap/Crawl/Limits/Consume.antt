-- ===== src/Sitemap/Crawl/Limits/Consume.antt =====
-- What consume leaves of the limits of a map: pkg/sitemap/crawl.go.
use pagelode.Prelude.{
  ℕ, ◌+◌, ◌≡◌, refl, arith, Str, List, [], ◌∷◌, ◌++◌, Option, none, some, Bool, true, false, ◌||◌,
  ◌&&◌, not, if◌then◌else◌, ◌==◌, str_eq, member, length, leb, ltb, Bool-cases, inl, inr,
}
use mathlib.Core.Path.{subst}
use pagelode.Url.{NetUrl}
use pagelode.Fetch.Page.{Document}
use pagelode.Sitemap.Types.{source_explore}
use pagelode.Sitemap.Urls.{normalize, page_links}
use pagelode.Sitemap.Run.{Run, add}
use pagelode.Sitemap.Crawl.{Target, Crawled, Readers, Crawler, is_html}
use pagelode.Sitemap.Crawl.Pages.{
  take_link, take_links, take_scripts, take_page_scripts, take_endpoints, judge_duplicate,
  consume_html, count_page, source_of, add_start, warn_start, consume_page, consume,
}
use pagelode.Sitemap.Crawl.Limits.{
  Grows, stays, then-Grows, warn-Grows, add-Grows, take_endpoints-Grows, enqueue-Grows,
}

module _ {U : Type 0} (net : NetUrl U) where
  take_link-Grows :
      (c : Crawler) (expand : Bool) (source link : Str) (depth : ℕ)
      → Grows 0 c.run (take_link net c expand source link depth).run
  unfolding take_link
  take_link-Grows c true source link depth =
      let added =
        add-Grows net c.run (record { url = link; source = source; last_modified = [] }) in
      then-Grows added (enqueue-Grows net (record c { run = add net c.run _ }) link depth)
  take_link-Grows c false source link depth = add-Grows net c.run _

  take_links-Grows :
      (c : Crawler) (expand : Bool) (source base : Str) (depth : ℕ) (hrefs : List Str)
      → Grows 0 c.run (take_links net c expand source base depth hrefs).run
  unfolding take_links
  take_links-Grows c expand source base depth [] = stays c.run
  take_links-Grows c expand source base depth (href ∷ hrefs) =
      then-Grows (take_link-Grows c expand source (normalize net c.run.scope href base) depth) (
        take_links-Grows (take_link net c expand source (normalize net c.run.scope href base) depth)
          expand source base depth hrefs)

  run-take_scripts : (c : Crawler) (scripts : List Str) → (take_scripts net c scripts).run ≡ c.run
  unfolding take_scripts
  run-take_scripts c [] = refl
  run-take_scripts c (script ∷ scripts) =
      elim (Bool-cases (not (member script c.scripts) && ltb (length c.scripts) 20)) [
        | inl new ↦ simp new (
            run-take_scripts
              (record c {
                scripts = script ∷ c.scripts;
                found_scripts = c.found_scripts ++ script ∷ [];
              })
              scripts)
        | inr old ↦ simp old (run-take_scripts c scripts)
      ]

  run-take_page_scripts :
      (readers : Readers) (c : Crawler) (page : Str) (base : Option U)
      → (take_page_scripts net readers c page base).run ≡ c.run
  run-take_page_scripts readers c page none = refl
  run-take_page_scripts readers c page (some base) = run-take_scripts c _

  consume_html-Grows :
      (readers : Readers) (c : Crawler) (expand : Bool) (d : Document) (target : Target)
      (source base : Str)
      → Grows 0 c.run (consume_html net readers c expand d target source base).run
  unfolding consume_html
  consume_html-Grows readers c expand d target source base =
      let (duplicate, index) = judge_duplicate net readers c.index d.html in
      let expands = expand && not duplicate in
      let links = page_links (readers.hrefs d.html) in
      let depth = target.depth + 1 in
      let c1 : Crawler = record c { index = index } in
      let c2 = take_links net c1 expands source base depth links in
      let c3 = take_links net c2 expands source_explore base depth d.explored_urls in
      let c4 = take_page_scripts net readers c3 d.html (net.parse base) in
      then-Grows (take_links-Grows c1 expands source base depth links) (
        then-Grows (take_links-Grows c2 expands source_explore base depth d.explored_urls) (
          subst
            (λ r.
              Grows 0 r
                (take_endpoints net c4 readers.patterns (readers.inline_scripts d.html) base).run)
            (run-take_page_scripts readers c3 d.html (net.parse base))
            (take_endpoints-Grows net c4 readers.patterns (readers.inline_scripts d.html) base)))

  count_page-Grows : (r : Run) (rendered : Bool) → Grows 1 r (count_page net r rendered)
  count_page-Grows r rendered = record {
    asks = refl;
    crawled = omega arith;
    urls = λ h. h;
    endpoints = λ h. h;
  }

  add_start-Grows :
      (r : Run) (depth : ℕ) (normalized source : Str)
      → Grows 0 r (add_start net r depth normalized source)
  unfolding add_start
  add_start-Grows r depth normalized source = elim (Bool-cases (depth == 0)) [
    | inl start ↦ simp start (
        let g =
          add-Grows net (record r { page_read = true })
            (record { url = normalized; source = source; last_modified = [] }) in
        record { asks = g.asks; crawled = g.crawled; urls = g.urls; endpoints = g.endpoints })
    | inr later ↦ simp later (stays r)
  ]

  warn_start-Grows :
      (c : Crawler) (depth : ℕ) (message : Str) → Grows 0 c.run (warn_start net c depth message).run
  warn_start-Grows c depth message = elim (Bool-cases (depth == 0)) [
    | inl start ↦ simp start (warn-Grows c.run message)
    | inr later ↦ simp later (stays c.run)
  ]

  consume_page-Grows :
      (readers : Readers) (c : Crawler) (expand : Bool) (result : Crawled) (base normalized : Str)
      → Grows 1 c.run (consume_page net readers c expand result base normalized).run
  unfolding consume_page
  consume_page-Grows readers c expand result base normalized =
      let source = source_of net result.rendered result.target.depth in
      let counted = count_page net c.run result.rendered in
      let d : Crawler = record c {
        run = add_start net counted result.target.depth normalized source;
      } in
      let g =
        then-Grows (count_page-Grows c.run result.rendered)
          (add_start-Grows counted result.target.depth normalized source) in
      elim (Bool-cases (is_html result.document.content_type)) [
        | inl page ↦ simp page (
            then-Grows g
              (consume_html-Grows readers d expand result.document result.target source base))
        | inr other ↦ simp other g
      ]

  weaken : {r t : Run} → Grows 0 r t → Grows 1 r t
  weaken g = record {
    asks = g.asks;
    crawled = omega (arith, g.crawled);
    urls = g.urls;
    endpoints = g.endpoints;
  }

  pub consume-Grows :
      (readers : Readers) (c : Crawler) (expand : Bool) (result : Crawled)
      → Grows 1 c.run (consume net readers c expand result).run
  unfolding consume
  consume-Grows readers c expand result =
      let base =
        if str_eq result.document.final_url []
        then result.target.url
        else result.document.final_url in
      let normalized = normalize net c.run.scope base base in
      elim (Bool-cases (result.failed || leb 400 result.document.status_code)) [
        | inl bad ↦ simp bad (weaken (warn_start-Grows c result.target.depth _))
        | inr good ↦ elim (Bool-cases (str_eq normalized [])) [
          | inl outside ↦ simp (good, outside) (weaken (warn_start-Grows c result.target.depth _))
          | inr inside ↦
              simp (good, inside) (consume_page-Grows readers c expand result base normalized)
        ]
      ]
