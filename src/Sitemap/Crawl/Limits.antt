-- ===== src/Sitemap/Crawl/Limits.antt =====
-- What the operations of a map leave of its limits: pkg/sitemap/crawl.go and service.go.
pub mod Consume
use pagelode.Prelude.{
  ℕ, zero, suc, ◌+◌, ◌≤◌, ◌<◌, ◌≡◌, refl, arith, Str, List, [], ◌∷◌, ◌++◌, Option, none, some, Bool,
  true, false, ◌||◌, ◌&&◌, not, if◌then◌else◌, ◌==◌, str_eq, member, length, length-append, leb,
  ltb, Bool-cases, Option-cases, inl, inr, ◌∙◌, ap,
}
use mathlib.Core.Path.{subst}
use pagelode.Url.{NetUrl}
use pagelode.Fetch.Page.{Document}
use pagelode.Sitemap.Types.{Request, Report, Summary, source_explore}
use pagelode.Sitemap.Robots.{RobotsRule, blocks}
use pagelode.Sitemap.Urls.{normalize, page_links}
use pagelode.Sitemap.Run.{
  Run, Candidate, full, warn, limited, entry_of, with_entry, add, add_all, add_endpoint,
  add_endpoints, is_permitted, maximum_endpoints,
}
use pagelode.Sitemap.Shape.{Sampler, allow}
use pagelode.Sitemap.Scripts.{script_urls}
use pagelode.Sitemap.Crawl.{Target, Crawled, Readers, Crawler, is_html}
use pagelode.Sitemap.Crawl.Pages.{
  with_queued, skip_robots, enqueue, enqueue_allowed, take_link, take_links, take_scripts,
  take_page_scripts, take_endpoints, judge_duplicate, consume_html, count_page, source_of,
  add_start, warn_start, consume_page, consume, consume_all,
}

-- A change of the state by at most n crawled pages that keeps its limits.
pub record Grows (n : ℕ) (r t : Run) : Type 0 where
  pub asks : t.request ≡ r.request
  pub crawled : t.report.summary.pages_crawled ≤ r.report.summary.pages_crawled + n
  pub urls : length r.report.urls ≤ r.request.limit → length t.report.urls ≤ r.request.limit
  pub endpoints :
      length r.report.endpoints ≤ maximum_endpoints → length t.report.endpoints ≤ maximum_endpoints

pub stays : (r : Run) → Grows 0 r r
stays r = record { asks = refl; crawled = omega arith; urls = λ h. h; endpoints = λ h. h }

pub then-Grows : {m n : ℕ} {r s t : Run} → Grows m r s → Grows n s t → Grows (m + n) r t
then-Grows {r = r} g h = record {
  asks = h.asks ∙ g.asks;
  crawled = omega (arith, g.crawled, h.crawled);
  urls = λ e.
      let same = ap (λ (q : Request). q.limit) g.asks in
      omega (arith, same, h.urls (omega (arith, same, g.urls e)));
  endpoints = λ e. h.endpoints (g.endpoints e);
}

pub warn-Grows : (r : Run) (message : Str) → Grows 0 r (warn r message)
unfolding warn
warn-Grows r message = elim (Bool-cases (member message r.report.warnings)) [
  | inl old ↦ simp old (stays r)
  | inr new ↦
      simp new (record { asks = refl; crawled = omega arith; urls = λ h. h; endpoints = λ h. h })
]

module _ {U : Type 0} (net : NetUrl U) where
  with_entry-Grows : (r : Run) (c : Candidate) → full r ≡ false → Grows 0 r (with_entry r c)
  unfolding full
  with_entry-Grows r c room = record {
    asks = refl;
    crawled = omega arith;
    urls = λ h. ground (arith, length-append r.report.urls (entry_of c ∷ []));
    endpoints = λ h. h;
  }

  limited-Grows : (r : Run) → Grows 0 r (limited r)
  limited-Grows r = record { asks = refl; crawled = omega arith; urls = λ h. h; endpoints = λ h. h }

  pub add-Grows : (r : Run) (c : Candidate) → Grows 0 r (add net r c)
  unfolding add
  add-Grows r c =
      elim (Bool-cases
        (str_eq c.url [] || member c.url r.seen || not (is_permitted net r.request c.url))) [
          | inl out ↦ simp out (stays r)
          | inr fresh ↦ elim (Bool-cases (full r)) [
            | inl f ↦ simp (fresh, f) (limited-Grows r)
            | inr f ↦ simp (fresh, f) (with_entry-Grows r c f)
          ]
        ]

  pub add_all-Grows : (cs : List Candidate) (r : Run) → Grows 0 r (add_all net r cs)
  unfolding add_all
  add_all-Grows [] r = stays r
  add_all-Grows (c ∷ cs) r = then-Grows (add-Grows r c) (add_all-Grows cs (add net r c))

  add_endpoint-Grows : (r : Run) (endpoint : Str) → Grows 0 r (add_endpoint net r endpoint)
  unfolding add_endpoint
  add_endpoint-Grows r endpoint =
      elim (Bool-cases (
        str_eq endpoint []
        || member endpoint r.endpoint_seen
        || leb maximum_endpoints (length r.report.endpoints))) [
          | inl out ↦ simp out (stays r)
          | inr fresh ↦ simp fresh (record {
            asks = refl;
            crawled = omega arith;
            urls = λ h. h;
            endpoints = λ h. ground (arith, length-append r.report.endpoints (endpoint ∷ []));
          })
        ]

  add_endpoints-Grows :
      (paths : List Str) (r : Run) (base : Str) → Grows 0 r (add_endpoints net r paths base)
  unfolding add_endpoints
  add_endpoints-Grows [] r base = stays r
  add_endpoints-Grows (path ∷ paths) r base =
      then-Grows (add_endpoint-Grows r (normalize net r.scope path base))
        (add_endpoints-Grows paths _ base)

  pub take_endpoints-Grows :
      (c : Crawler) (patterns : _) (source base : Str)
      → Grows 0 c.run (take_endpoints net c patterns source base).run
  take_endpoints-Grows c patterns source base = add_endpoints-Grows _ c.run base

  skip_robots-Grows : (r : Run) → Grows 0 r (skip_robots net r)
  skip_robots-Grows r = record {
    asks = refl;
    crawled = omega arith;
    urls = λ h. h;
    endpoints = λ h. h;
  }

  run-enqueue_allowed :
      (c : Crawler) (link : Str) (depth : ℕ) (x : Bool × Sampler)
      → (enqueue_allowed net c link depth x).run ≡ c.run
  unfolding enqueue_allowed
  run-enqueue_allowed c link depth (false, s) = refl
  run-enqueue_allowed c link depth (true, s) = refl

  pub enqueue-Grows :
      (c : Crawler) (link : Str) (depth : ℕ) → Grows 0 c.run (enqueue net c link depth).run
  unfolding enqueue
  enqueue-Grows c link depth =
      elim (Bool-cases
        (str_eq link [] || member link c.queued || not (is_permitted net c.run.request link))) [
          | inl out ↦ simp out (stays c.run)
          | inr fresh ↦ elim (Bool-cases (blocks net c.rules link)) [
            | inl blocked ↦ simp (fresh, blocked) (skip_robots-Grows c.run)
            | inr open_to_all ↦
                simp (fresh, open_to_all)
                  (rw (run-enqueue_allowed c link depth (allow net c.sampler link)) (stays c.run))
          ]
        ]
