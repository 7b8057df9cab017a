-- ===== src/Sitemap/Map/Bounds.antt =====
-- What Map of pkg/sitemap/service.go promises: it ends, and its report keeps to the limits.
use pagelode.Prelude.{
  ◌≤◌, ◌≡◌, Str, codes, List, [], Option, none, some, false, false, ◌⊎◌, length, map,
}
use pagelode.Url.{NetUrl}
use pagelode.Sitemap.Types.{Request, Report, Entry}
use pagelode.Sitemap.Robots.{RobotsRule}
use pagelode.Sitemap.Run.{Run, SiteMap, warn, maximum_endpoints}
use pagelode.Sitemap.Templates.{parse_all}
use pagelode.Sitemap.Templates.Counts.{total}
use pagelode.Sitemap.Crawl.{Outside, Readers}
use pagelode.Sitemap.Map.{
  Mapped, broken, mapped, rules_of, robots_url, patterns_compile, limited_run,
}

-- The limits of a request, and the counts of a report, which are those of its lists.
pub record IsReport {U : Type 0} (net : NetUrl U) (request : Request) (r : Report) : Type 0 where
  pub urls : length r.urls ≤ request.limit
  pub endpoints : length r.endpoints ≤ maximum_endpoints
  pub crawled : r.summary.pages_crawled ≤ 200
  pub found : r.summary.urls_found ≡ length r.urls
  pub templates : total r.templates ≡ length (parse_all net (map (λ (e : Entry). e.url) r.urls))

module _ {U W : Type 0} (net : NetUrl U) (readers : Readers) (out : Outside W)
    (parse_sitemap : Str → Option SiteMap) where
  -- There is an answer; it is a panic only where a pattern of the request does not compile or where
  -- there are no rules; and a report keeps to the limits.
  abbrev pub IsAnswered : Option (List RobotsRule) → Request → Option Mapped → Type 0
  IsAnswered rules request none = ⊥
  IsAnswered rules request (some broken) =
      (patterns_compile net readers out parse_sitemap request ≡ false) ⊎ (rules ≡ none)
  IsAnswered rules request (some (mapped report)) = IsReport net request report
  IsAnswered rules request (some answer) = Unit {0}

  -- The rules of the robots.txt that Map loads first.
  abbrev pub first_rules : Request → W → Option (List RobotsRule)
  first_rules request w = elim (net.parse request.url) [
    | none ↦ some []
    | some start ↦
        rules_of net readers out parse_sitemap
          (out.load w (robots_url net readers out parse_sitemap start)).0
  ]

  abbrev late_run : Run → Run
  late_run r = limited_run net readers out parse_sitemap (warn r (codes "duration limit reached"))
