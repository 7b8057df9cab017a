-- ===== src/Sitemap/Crawl/Levels.antt =====
-- The loops of the crawl: crawl and readScripts of pkg/sitemap/crawl.go.
use pagelode.Prelude.{
  ℕ, zero, suc, ◌-◌, min, Str, codes, List, [], ◌∷◌, Option, none, some, Bool, true, false, ◌||◌,
  ◌&&◌, not, ltb, leb, ◌==◌, if◌then◌else◌, str_eq, length, take, drop,
}
use pagelode.Url.{NetUrl}
use pagelode.Fetch.Page.{Document}
use pagelode.Sitemap.Types.{render_never}
use pagelode.Sitemap.Robots.{RobotsRule}
use pagelode.Sitemap.Urls.{normalize}
use pagelode.Sitemap.Run.{Run, Loaded, full, warn, final_url}
use pagelode.Sitemap.Shape.{new_sampler}
use pagelode.Sitemap.Similarity.{new_duplicate_index}
use pagelode.Sitemap.Crawl.{
  Target, Loading, Outside, Readers, Crawler, Ended, saturated, ended, fetch_all,
}
use pagelode.Sitemap.Crawl.Pages.{consume_all, take_endpoints}

abbrev pub crawled_pages : Crawler → ℕ
crawled_pages c = c.run.report.summary.pages_crawled

abbrev pub warned : Crawler → Str → Crawler
warned c message = record c { run = warn c.run message }

abbrev pub batch_size : Crawler → List Target → ℕ
batch_size c level = min (min 6 (length level)) (200 - crawled_pages c)

abbrev loaded_of : Str → Loading → Loaded
loaded_of target l = record {
  target = target;
  document = l.document;
  failed = l.failed;
  saturated = l.saturated;
}

module _ {U W : Type 0} (net : NetUrl U) (readers : Readers) (out : Outside W) where
  -- loadAll
  unfoldable pub load_all : List Str → W → List Loaded × W
  load_all [] w = ([], w)
  load_all (target ∷ targets) w =
      let (l, w1) = out.load w target in
      let (rest, w2) = load_all targets w1 in (loaded_of target l ∷ rest, w2)

  abbrev pub script_source : Document → Str
  script_source d = if str_eq d.text [] then d.html else d.text

  -- The loop of readScripts over the results; `none` is ErrSaturated.
  unfoldable pub read_results : Crawler → List Loaded → Option Crawler
  read_results c [] = some c
  read_results c (l ∷ ls) =
      let rest =
        read_results
          (if l.failed || leb 400 l.document.status_code
            then c
            else take_endpoints net c readers.patterns (script_source l.document) (final_url l))
          ls in
      if l.saturated then none else rest

  abbrev pub or_saturated : Option Crawler → Ended Crawler
  or_saturated none = saturated
  or_saturated (some c) = ended c

  -- readScripts
  unfoldable pub read_scripts : Crawler → W → Ended Crawler × W
  unfolding load_all read_results
  read_scripts c w =
      if (length c.found_scripts == 0) || out.over w
      then (ended c, w)
      else let (results, w') = load_all c.found_scripts w in
        (or_saturated (read_results c results), w')

  unfoldable pub goes_on : Crawler → List Target → W → Bool
  goes_on c level w = ltb 0 (length level) && not (full c.run) && not (out.over w)

  -- The loop over the batches of a level; `none` is the end of the fuel.
  unfoldable pub batches : ℕ → Bool → Crawler → List Target → W → Option (Ended Crawler × W)
  unfolding goes_on
  batches zero expand c level w = none
  batches (suc fuel) expand c level w = elim (goes_on c level w) [
    | false ↦ some (ended c, w)
    | true ↦ elim (leb 200 (crawled_pages c)) [
      | true ↦ some (ended (warned c (codes "crawl page limit reached")), w)
      | false ↦
          let size = batch_size c level in
          let (results, d, w') = fetch_all out readers.inspector c (take size level) w in
          elim (consume_all net readers d expand results) [
            | none ↦ some (saturated, w')
            | some e ↦ batches fuel expand e (drop size level) w'
          ]
    ]
  ]

  abbrev pub new_level : Crawler → Crawler
  new_level c = record c { next = []; found_scripts = [] }

  -- readScripts behind the batches of a level.
  abbrev pub then_scripts : Option (Ended Crawler × W) → Option (Ended Crawler × W)
  then_scripts none = none
  then_scripts (some (saturated, w)) = some (saturated, w)
  then_scripts (some (ended c, w)) = some (read_scripts c w)

  -- The loop over the depths that are left.
  unfoldable pub levels : ℕ → Crawler → List Target → W → Option (Ended Crawler × W)
  unfolding batches read_scripts
  levels zero c level w = some (ended c, w)
  levels (suc left) c [] w = some (ended c, w)
  levels (suc left) c (target ∷ targets) w =
      elim (then_scripts (
        batches (suc (length (target ∷ targets))) (ltb 0 left) (new_level c) (target ∷ targets)
          w)) [
            | none ↦ none
            | some (saturated, w') ↦ some (saturated, w')
            | some (ended d, w') ↦ levels left d d.next w'
          ]

  abbrev pub new_crawler : Run → Str → List RobotsRule → Crawler
  new_crawler r start rules = record {
    run =
        if not (str_eq r.request.render render_never) && not out.has_browser
        then warn r (codes "browser rendering is unavailable; pages were loaded over HTTP only")
        else r;
    rules = rules;
    queued = normalize net r.scope start start ∷ [];
    scripts = [];
    sampler = new_sampler 20;
    index = new_duplicate_index 3;
    renders = 0;
    explores = 0;
    next = [];
    found_scripts = [];
  }

  abbrev pub run_of : Option (Ended Crawler × W) → Option (Ended Run × W)
  run_of none = none
  run_of (some (saturated, w)) = some (saturated, w)
  run_of (some (ended c, w)) = some (ended c.run, w)

  -- crawl
  unfoldable pub crawl : Run → Str → List RobotsRule → W → Option (Ended Run × W)
  unfolding levels
  crawl r start rules w = run_of (
      levels r.request.depth (new_crawler r start rules) (record { url = start; depth = 0 } ∷ []) w)
