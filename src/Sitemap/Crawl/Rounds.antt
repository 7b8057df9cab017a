-- ===== src/Sitemap/Crawl/Rounds.antt =====
-- The limits of the whole crawl, and the end of its loops: crawl and readScripts of
-- pkg/sitemap/crawl.go.
use pagelode.Prelude.{
  ℕ, zero, suc, ◌+◌, ◌≤◌, ◌<◌, ◌≡◌, refl, arith, Str, List, [], ◌∷◌, Option, none, some, Bool, true,
  ◌&&◌, ◌||◌, not, ltb, leb, length, take, drop, length-take, length-drop, if◌then◌else◌,
  Bool-cases, Option-cases, inl, inr, ap, codes, str_eq, ◌==◌,
}
use mathlib.Core.Path.{subst}
use pagelode.Url.{NetUrl}
use pagelode.Sitemap.Types.{Request, render_never}
use pagelode.Sitemap.Robots.{RobotsRule}
use pagelode.Sitemap.Run.{Run, Loaded, warn, final_url, maximum_endpoints}
use pagelode.Sitemap.Crawl.{
  Target, Crawled, Outside, Readers, Crawler, Ended, saturated, ended, fetch_all,
}
use pagelode.Sitemap.Crawl.Pages.{consume, consume_all, take_endpoints}
use pagelode.Sitemap.Crawl.Levels.{
  load_all, script_source, read_results, or_saturated, read_scripts, goes_on, batches, batch_size,
  crawled_pages, new_level, then_scripts, levels, new_crawler, run_of, crawl,
}
use pagelode.Sitemap.Crawl.Limits.{Grows, stays, then-Grows, warn-Grows, take_endpoints-Grows}
use pagelode.Sitemap.Crawl.Limits.Consume.{consume-Grows}
use pagelode.Sitemap.Crawl.Fetching.{run-fetch_all, length-fetch_all}

-- The limits of a map.
pub record IsWithin (r : Run) : Type 0 where
  pub urls : length r.report.urls ≤ r.request.limit
  pub endpoints : length r.report.endpoints ≤ maximum_endpoints
  pub crawled : r.report.summary.pages_crawled ≤ 200

pub grown-IsWithin :
    {n : ℕ} {r t : Run}
    → Grows n r t
    → r.report.summary.pages_crawled + n ≤ 200
    → IsWithin r
    → IsWithin t
grown-IsWithin g room i = record {
  urls = omega (arith, g.urls i.urls, ap (λ (q : Request). q.limit) g.asks);
  endpoints = g.endpoints i.endpoints;
  crawled = omega (arith, g.crawled, room);
}

pub unread-IsWithin : {r t : Run} → Grows 0 r t → IsWithin r → IsWithin t
unread-IsWithin g i = grown-IsWithin g (omega (arith, i.crawled)) i

module _ {U W : Type 0} (net : NetUrl U) (readers : Readers) (out : Outside W) where
  -- Where no result is ErrSaturated, the state has grown.
  abbrev pub IfGrown : ℕ → Run → Option Crawler → Type 0
  IfGrown n r none = Unit {0}
  IfGrown n r (some d) = Grows n r d.run

  IfGrown-then :
      {m k : ℕ} (n : ℕ) {r s : Run} (x : Option Crawler)
      → m + n ≤ k
      → Grows m r s
      → IfGrown n s x
      → IfGrown k r x
  IfGrown-then n none le g h = tt
  IfGrown-then n (some d) le g h =
      let f = then-Grows g h in
      record {
        asks = f.asks;
        crawled = omega (arith, f.crawled, le);
        urls = f.urls;
        endpoints = f.endpoints;
      }

  consume_all-IfGrown :
      (expand : Bool) (results : List Crawled) (c : Crawler)
      → IfGrown (length results) c.run (consume_all net readers c expand results)
  unfolding consume_all
  consume_all-IfGrown expand [] c = stays c.run
  consume_all-IfGrown expand (result ∷ results) c = elim (Bool-cases result.saturated) [
    | inl busy ↦ simp busy tt
    | inr free ↦ simp free (
        IfGrown-then (length results)
          (consume_all net readers (consume net readers c expand result) expand results)
          (omega arith) (consume-Grows net readers c expand result)
          (consume_all-IfGrown expand results (consume net readers c expand result)))
  ]

  abbrev read_result : Crawler → Loaded → Crawler
  read_result c l =
      if l.failed || leb 400 l.document.status_code
      then c
      else take_endpoints net c readers.patterns (script_source net readers out l.document)
          (final_url l)

  read_result-Grows : (c : Crawler) (l : Loaded) → Grows 0 c.run (read_result c l).run
  read_result-Grows c l = elim (Bool-cases (l.failed || leb 400 l.document.status_code)) [
    | inl bad ↦ simp bad (stays c.run)
    | inr good ↦ simp good (take_endpoints-Grows net c readers.patterns _ (final_url l))
  ]

  read_results-IfGrown :
      (ls : List Loaded) (c : Crawler) → IfGrown 0 c.run (read_results net readers out c ls)
  unfolding read_results
  read_results-IfGrown [] c = stays c.run
  read_results-IfGrown (l ∷ ls) c = elim (Bool-cases l.saturated) [
    | inl busy ↦ simp busy tt
    | inr free ↦ simp free (
        IfGrown-then 0 (read_results net readers out (read_result c l) ls) (omega arith)
          (read_result-Grows c l) (read_results-IfGrown ls (read_result c l)))
  ]

  -- The loop has ended with fuel left, and not with more than the limits.
  abbrev pub IsDone : Request → Option (Ended Crawler × W) → Type 0
  IsDone request none = ⊥
  IsDone request (some (saturated, w)) = Unit {0}
  IsDone request (some (ended c, w)) = IsWithin c.run × (c.run.request ≡ request)

  asked_of :
      {asked request : Request} (x : Option (Ended Crawler × W))
      → asked ≡ request
      → IsDone asked x
      → IsDone request x
  asked_of x e h = subst (λ r. IsDone r x) e h

  ended_lem :
      (r : Run) (x : Option Crawler) (w : W)
      → IsWithin r
      → IfGrown 0 r x
      → IsDone r.request (some (or_saturated net readers out x, w))
  ended_lem r none w i g = tt
  ended_lem r (some d) w i g = (unread-IsWithin g i, g.asks)

  read_scripts-IsDone :
      (c : Crawler) (w : W)
      → IsWithin c.run
      → IsDone c.run.request (some (read_scripts net readers out c w))
  unfolding read_scripts
  read_scripts-IsDone c w i = elim (Bool-cases ((length c.found_scripts == 0) || out.over w)) [
    | inl none_left ↦ rw (none_left, read_scripts) (i, refl)
    | inr some_left ↦
        let (results, w') = load_all net readers out c.found_scripts w in
        rw (some_left, read_scripts)
          (ended_lem c.run (read_results net readers out c results) w' i
            (read_results-IfGrown results c))
  ]

  -- A batch and its results.
  batch_lem :
      (expand : Bool) (c : Crawler) (level : List Target) (w : W) (d : Crawler)
      → crawled_pages c < 200
      → IsWithin c.run
      → (let (results, e, w') =
            fetch_all out readers.inspector c (take (batch_size c level) level) w in
          consume_all net readers e expand results ≡ some d)
      → IsWithin d.run × (d.run.request ≡ c.run.request)
  batch_lem expand c level w d room i e =
      let batch = take (batch_size c level) level in
      let (results, f, w') = fetch_all out readers.inspector c batch w in
      let same = run-fetch_all out readers.inspector c batch w in
      let loaded = length-fetch_all out readers.inspector c batch w in
      let grown : Grows (length results) c.run d.run =
        subst (λ r. Grows (length results) r d.run) same
          (subst (IfGrown (length results) f.run) e (consume_all-IfGrown expand results f)) in
      (
        grown-IsWithin grown (omega (arith, loaded, length-take (batch_size c level) level, room))
            i,
        grown.asks,
      )

  drop_lem :
      (fuel : ℕ) (c : Crawler) (level : List Target) (w : W)
      → length level < suc fuel
      → crawled_pages c < 200
      → goes_on net readers out c level w ≡ true
      → length (drop (batch_size c level) level) < fuel
  unfolding goes_on
  drop_lem fuel c level w enough few on =
      let some_left : 0 < length level = ground arith in
      omega (arith, length-drop (batch_size c level) level)

  -- The loop over the batches of a level ends before its fuel does, if that is more than the level.
  batches-IsDone :
      (fuel : ℕ) (expand : Bool) (c : Crawler) (level : List Target) (w : W)
      → length level < fuel
      → IsWithin c.run
      → IsDone c.run.request (batches net readers out fuel expand c level w)
  unfolding batches
  batches-IsDone zero expand c level w enough i = absurd (omega arith)
  batches-IsDone (suc fuel) expand c level w enough i =
      elim (Bool-cases (goes_on net readers out c level w)) [
        | inr over ↦ rw (over, batches) (i, refl)
        | inl on ↦ elim (Bool-cases (leb 200 (crawled_pages c))) [
          | inl many ↦
              rw (on, many, batches)
                (unread-IsWithin (warn-Grows c.run _) i, (warn-Grows c.run _).asks)
          | inr few ↦
              let (results, d, w') =
                fetch_all out readers.inspector c (take (batch_size c level) level) w in
              elim (Option-cases (consume_all net readers d expand results)) [
                | inl busy ↦ rw (on, few, busy, batches) tt
                | inr (e, loaded) ↦
                    let (within, asks) = batch_lem expand c level w e (ground arith) i loaded in
                    rw (on, few, loaded, batches)
                      (asked_of _ asks (
                        batches-IsDone fuel expand e (drop (batch_size c level) level) w'
                          (drop_lem fuel c level w enough (ground arith) on) within))
              ]
        ]
      ]

  new_level-IsDone :
      (c : Crawler) (x : Option (Ended Crawler × W))
      → IsDone c.run.request x
      → IsDone c.run.request (then_scripts net readers out x)
  new_level-IsDone c none d = d
  new_level-IsDone c (some (saturated, w)) d = tt
  new_level-IsDone c (some (ended e, w)) (i, asks) =
      asked_of (some (read_scripts net readers out e w)) asks (read_scripts-IsDone e w i)

  next_lem :
      (left : ℕ) (c : Crawler) (x : Option (Ended Crawler × W))
      → ((d : Crawler) (w : W)
          → IsWithin d.run
          → IsDone d.run.request (levels net readers out left d d.next w))
      → IsDone c.run.request x
      → IsDone c.run.request (elim x [
        | none ↦ none
        | some (saturated, w') ↦ some (saturated, w')
        | some (ended d, w') ↦ levels net readers out left d d.next w'
      ])
  next_lem left c none rest d = d
  next_lem left c (some (saturated, w)) rest d = tt
  next_lem left c (some (ended d, w)) rest (i, asks) = asked_of _ asks (rest d w i)

  -- The loop over the depths that are left ends.
  pub levels-IsDone :
      (left : ℕ) (c : Crawler) (level : List Target) (w : W)
      → IsWithin c.run
      → IsDone c.run.request (levels net readers out left c level w)
  unfolding levels
  levels-IsDone zero c level w i = (i, refl)
  levels-IsDone (suc left) c [] w i = (i, refl)
  levels-IsDone (suc left) c (target ∷ targets) w i =
      next_lem left c
        (then_scripts net readers out (
          batches net readers out (suc (length (target ∷ targets))) (ltb 0 left)
            (new_level net readers out c) (target ∷ targets) w))
        (λ d w' j. levels-IsDone left d d.next w' j)
        (new_level-IsDone c _ (
          batches-IsDone (suc (length (target ∷ targets))) (ltb 0 left)
            (new_level net readers out c) (target ∷ targets) w (omega arith) i))

  -- The reading of site maps or the crawl has ended, and not with more than the limits.
  abbrev pub IsEnded : Request → Option (Ended Run × W) → Type 0
  IsEnded request none = ⊥
  IsEnded request (some (saturated, w)) = Unit {0}
  IsEnded request (some (ended r, w)) = IsWithin r × (r.request ≡ request)

  run_of-IsEnded :
      (request : Request) (x : Option (Ended Crawler × W))
      → IsDone request x
      → IsEnded request (run_of net readers out x)
  run_of-IsEnded request none d = d
  run_of-IsEnded request (some (saturated, w)) d = tt
  run_of-IsEnded request (some (ended c, w)) d = d

  first_run : Run → Run
  first_run r =
      if not (str_eq r.request.render render_never) && not out.has_browser
      then warn r (codes "browser rendering is unavailable; pages were loaded over HTTP only")
      else r

  first_run-Grows : (r : Run) → Grows 0 r (first_run r)
  unfolding first_run
  first_run-Grows r =
      elim (Bool-cases (not (str_eq r.request.render render_never) && not out.has_browser)) [
        | inl no_browser ↦ simp no_browser (warn-Grows r _)
        | inr ready ↦ simp ready (stays r)
      ]

  pub crawl-IsEnded :
      (r : Run) (start : Str) (rules : List RobotsRule) (w : W)
      → IsWithin r
      → IsEnded r.request (crawl net readers out r start rules w)
  unfolding crawl first_run
  crawl-IsEnded r start rules w i =
      let g = first_run-Grows r in
      run_of-IsEnded r.request _ (
        asked_of _ g.asks (
          levels-IsDone r.request.depth (new_crawler net readers out r start rules) _ w
            (unread-IsWithin g i)))
