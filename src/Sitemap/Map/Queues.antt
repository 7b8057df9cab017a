-- ===== src/Sitemap/Map/Queues.antt =====
-- The end of the loop over the site maps, and its limits: Map of pkg/sitemap/service.go.
use pagelode.Prelude.{
  ℕ, zero, suc, ◌+◌, ◌-◌, min, ◌<◌, ◌≡◌, refl, arith, Str, codes, List, [], ◌∷◌, Option, none, some,
  true, ◌&&◌, ◌||◌, leb, length, take, drop, if◌then◌else◌, Bool-cases, Option-cases, inl, inr,
  str_eq, has_suffix, to_lower,
}
use mathlib.Core.Path.{subst}
use pagelode.Url.{NetUrl}
use pagelode.Sitemap.Types.{Request}
use pagelode.Sitemap.Run.{
  Run, Loaded, SiteMap, final_url, consume_sitemap, consume_parsed, map_candidates, read_sitemap,
  is_unknown,
}
use pagelode.Sitemap.Crawl.{Outside, Readers, Ended}
use pagelode.Sitemap.Crawl.Levels.{load_all}
use pagelode.Sitemap.Crawl.Limits.{Grows, stays, then-Grows, warn-Grows, add_all-Grows}
use pagelode.Sitemap.Crawl.Rounds.{IsWithin, unread-IsWithin, IsEnded}
use pagelode.Sitemap.Map.{Queue, enqueue_all, consume_maps, goes_on, read_maps}

module _ {U W : Type 0} (net : NetUrl U) (readers : Readers) (out : Outside W)
    (parse_sitemap : Str → Option SiteMap) where
  read_sitemap-Grows : (r : Run) → Grows 0 r (read_sitemap net r)
  read_sitemap-Grows r = record {
    asks = refl;
    crawled = omega arith;
    urls = λ h. h;
    endpoints = λ h. h;
  }

  consume_parsed-Grows :
      (r : Run) (l : Loaded) (x : Option SiteMap) → Grows 0 r (consume_parsed net r l x).0
  unfolding consume_parsed
  consume_parsed-Grows r l none =
      elim (Bool-cases
        (is_unknown net l.document.content_type && has_suffix (to_lower l.target) (codes ".gz"))) [
          | inl zipped ↦ simp zipped (warn-Grows r _)
          | inr other ↦ simp other (stays r)
        ]
  consume_parsed-Grows r l (some (entries, maps)) =
      then-Grows (read_sitemap-Grows r)
        (add_all-Grows net (map_candidates net r.scope (final_url l) entries) _)

  consume_sitemap-Grows :
      (r : Run) (l : Loaded) → Grows 0 r (consume_sitemap net parse_sitemap r l).0
  unfolding consume_sitemap
  consume_sitemap-Grows r l = elim (Bool-cases (l.failed || leb 400 l.document.status_code)) [
    | inl bad ↦ simp bad (stays r)
    | inr good ↦ simp good (
        consume_parsed-Grows r l
          (parse_sitemap (if str_eq l.document.text [] then l.document.html else l.document.text)))
  ]

  abbrev IfGrown : Run → Option (Run × Queue) → Type 0
  IfGrown r none = Unit {0}
  IfGrown r (some (s, q)) = Grows 0 r s

  IfGrown-then : {r s : Run} (x : Option (Run × Queue)) → Grows 0 r s → IfGrown s x → IfGrown r x
  IfGrown-then none g h = tt
  IfGrown-then (some (t, q)) g h = then-Grows g h

  consume_maps-IfGrown :
      (r : Run) (q : Queue) (ls : List Loaded)
      → IfGrown r (consume_maps net readers out parse_sitemap r q ls)
  unfolding consume_maps
  consume_maps-IfGrown r q [] = stays r
  consume_maps-IfGrown r q (l ∷ ls) =
      let (s, children) = consume_sitemap net parse_sitemap r l in
      let p = enqueue_all net readers out parse_sitemap s q children (final_url l) in
      elim (Bool-cases l.saturated) [
        | inl full_up ↦ simp full_up tt
        | inr free ↦ simp free (
            IfGrown-then (consume_maps net readers out parse_sitemap s p ls)
              (consume_sitemap-Grows r l) (consume_maps-IfGrown s p ls))
      ]

  pub ended_as :
      {asked request : Request} (x : Option (Ended Run × W))
      → asked ≡ request
      → IsEnded net readers out asked x
      → IsEnded net readers out request x
  ended_as x e h = subst (λ r. IsEnded net readers out r x) e h

  fetched_lem :
      (fuel fetched : ℕ) (r : Run) (q : Queue) (w : W)
      → 25 - fetched < suc fuel
      → fetched < 25
      → goes_on net readers out parse_sitemap r q w ≡ true
      → 25 - (fetched + min (min 4 (length q.queue)) (25 - fetched)) < fuel
  unfolding goes_on
  fetched_lem fuel fetched r q w enough few on =
      let some_left : 0 < length q.queue = ground arith in omega arith

  -- The loop over the queue of site maps ends before its fuel does, if that is more than the site
  -- maps that may still be read.
  pub read_maps-IsEnded :
      (fuel fetched : ℕ) (r : Run) (q : Queue) (w : W)
      → 25 - fetched < fuel
      → IsWithin r
      → IsEnded net readers out r.request
          (read_maps net readers out parse_sitemap fuel fetched r q w)
  unfolding read_maps
  read_maps-IsEnded zero fetched r q w enough i = absurd (omega arith)
  read_maps-IsEnded (suc fuel) fetched r q w enough i =
      elim (Bool-cases (goes_on net readers out parse_sitemap r q w)) [
        | inr empty ↦ rw (empty, read_maps) (i, refl)
        | inl on ↦ elim (Bool-cases (leb 25 fetched)) [
          | inl many ↦
              rw (on, many, read_maps) (unread-IsWithin (warn-Grows r _) i, (warn-Grows r _).asks)
          | inr few ↦
              let size = min (min 4 (length q.queue)) (25 - fetched) in
              let (results, w') = load_all net readers out (take size q.queue) w in
              let p : Queue = record q { queue = drop size q.queue } in
              let grown = consume_maps-IfGrown r p results in
              let x = consume_maps net readers out parse_sitemap r p results in
              elim (Option-cases x) [
                | inl full_up ↦ rw (on, few, full_up, read_maps) tt
                | inr ((s, t), e) ↦
                    let g : Grows 0 r s = subst (IfGrown r) e grown in
                    rw (on, few, e, read_maps)
                      (ended_as _ g.asks (
                        read_maps-IsEnded fuel (fetched + size) s t w'
                          (fetched_lem fuel fetched r q w enough (ground arith) on)
                          (unread-IsWithin g i)))
              ]
        ]
      ]
