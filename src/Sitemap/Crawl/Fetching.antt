-- ===== src/Sitemap/Crawl/Fetching.antt =====
-- fetch and fetchAll leave the report alone: pkg/sitemap/crawl.go.
use pagelode.Prelude.{
  suc, ◌+◌, ◌≡◌, refl, arith, List, [], ◌∷◌, ◌&&◌, leb, length, Bool-cases, inl, inr, ◌∙◌, ap,
  str_eq,
}
use pagelode.Fetch.Classify.{Inspector}
use pagelode.Sitemap.Types.{render_always}
use pagelode.Sitemap.Crawl.{
  Target, Loading, Outside, Crawler, fetch_loaded, fetch_plain, fetch_browsed, fetch_unexplored,
  fetch, fetch_all, is_final, add_render, add_explore,
}

module _ {W : Type 0} (out : Outside W) (inspector : Inspector) where
  run-fetch_loaded :
      (c : Crawler) (target : Target) (x : Loading × W)
      → (fetch_loaded out inspector c target x).1.run ≡ c.run
  unfolding fetch_loaded
  run-fetch_loaded c target (l, w) = grind arith

  run-fetch_browsed :
      (c : Crawler) (target : Target) (x : Loading × W)
      → (fetch_browsed out inspector c target x).1.run ≡ c.run
  unfolding fetch_browsed fetch_plain
  run-fetch_browsed c target (l, w) = elim (Bool-cases (is_final l)) [
    | inl final ↦ simp final refl
    | inr again ↦ simp again (run-fetch_loaded c target (out.load w target.url))
  ]

  run-fetch_unexplored :
      (c : Crawler) (target : Target) (w : W)
      → (fetch_unexplored out inspector c target w).1.run ≡ c.run
  unfolding fetch_unexplored fetch_plain
  run-fetch_unexplored c target w =
      elim (Bool-cases (out.has_browser && str_eq c.run.request.render render_always)) [
        | inl always ↦ elim (Bool-cases (leb (c.renders + 1) 25)) [
          | inl few ↦
              simp (always, few) (run-fetch_browsed (add_render c) target (out.browse w target.url))
          | inr many ↦
              simp (always, many) (run-fetch_loaded (add_render c) target (out.load w target.url))
        ]
        | inr plain ↦ simp plain (run-fetch_loaded c target (out.load w target.url))
      ]

  run-fetch :
      (c : Crawler) (target : Target) (w : W) → (fetch out inspector c target w).1.run ≡ c.run
  unfolding fetch
  run-fetch c target w = elim (Bool-cases (out.has_browser && c.run.request.explore)) [
    | inl explores ↦ elim (Bool-cases (leb (c.explores + 1) 5)) [
      | inl few ↦
          simp (explores, few) (run-fetch_browsed (add_explore c) target (out.explore w target.url))
      | inr many ↦ simp (explores, many) (run-fetch_unexplored (add_explore c) target w)
    ]
    | inr plain ↦ simp plain (run-fetch_unexplored c target w)
  ]

  pub run-fetch_all :
      (c : Crawler) (targets : List Target) (w : W)
      → (fetch_all out inspector c targets w).1.run ≡ c.run
  unfolding fetch_all
  run-fetch_all c [] w = refl
  run-fetch_all c (target ∷ targets) w =
      let (result, d, w1) = fetch out inspector c target w in
      run-fetch_all d targets w1 ∙ run-fetch c target w

  pub length-fetch_all :
      (c : Crawler) (targets : List Target) (w : W)
      → length (fetch_all out inspector c targets w).0 ≡ length targets
  unfolding fetch_all
  length-fetch_all c [] w = refl
  length-fetch_all c (target ∷ targets) w =
      let (result, d, w1) = fetch out inspector c target w in ap suc (length-fetch_all d targets w1)
