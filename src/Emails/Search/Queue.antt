-- ===== src/Emails/Search/Queue.antt =====
-- What take leaves of the queue of an e-mail search, and what it takes.
use pagelode.Prelude.{
  ℕ, zero, suc, ap, false, if◌then◌else◌, ◌+◌, ◌≤◌, ◌≡◌, refl, arith, Str, List, [], ◌∷◌, Bool,
  true, length, Bool-cases, inl, ◌++◌, inr, ◌⊎◌, leb, ◌∙◌,
}
use mathlib.Core.Path.{subst}
use pagelode.Emails.Targets.{Target}
use pagelode.Emails.Search.{
  Search, Taking, stop, skip, grab, taking, take_loop, take_batch, has_url,
}
use pagelode.Emails.Search.Limits.{pages_of}

-- The pages that a batch adds to the report.
abbrev pub batch_pages : List Target → ℕ
batch_pages [] = 0
batch_pages (item ∷ items) = pages_of item + batch_pages items

abbrev pub maps_of : Target → ℕ
maps_of item = if item.sitemap then 1 else 0

-- The site maps of a batch.
abbrev pub batch_maps : List Target → ℕ
batch_maps [] = 0
batch_maps (item ∷ items) = maps_of item + batch_maps items

-- The items are visited one by one, and none of them was visited before.
abbrev pub AreVisited : List Target → List Str → List Str → Type 0
AreVisited [] before after = after ≡ before
AreVisited (item ∷ items) before after =
    (has_url before item.url ≡ false) × AreVisited items (item.url ∷ before) after

-- The batch is a part of the items that have left the queue, in their order.
pub data IsPart : List Target → List Target → Type 0 where
  part_nil : IsPart [] []
  part_over :
      (item : Target) {batch gone : List Target} → IsPart batch gone → IsPart batch (item ∷ gone)
  part_with :
      (item : Target) {batch gone : List Target}
      → IsPart batch gone
      → IsPart (item ∷ batch) (item ∷ gone)

-- A step of take keeps all but the visited URLs, the flag and the count of site maps.
pub record IsKept (s t : Search) : Type 0 where
  pub asks : t.request ≡ s.request
  pub reports : t.report ≡ s.report
  pub sees : t.seen ≡ s.seen
  pub asked : s.sitemap_requests ≤ 4 → t.sitemap_requests ≤ 4

abbrev IsTaken : Search → Target → ℕ → Taking → Type 0
IsTaken s item pages stop = Unit {0}
IsTaken s item pages (skip t) =
    IsKept s t × (t.visited ≡ s.visited) × (t.sitemap_requests ≡ s.sitemap_requests)
IsTaken s item pages (grab more t) =
    IsKept s t
    × (more ≡ pages + pages_of item)
    × (pages ≤ s.request.max_pages → more ≤ s.request.max_pages)
    × (has_url s.visited item.url ≡ false)
    × (t.visited ≡ item.url ∷ s.visited)
    × (t.sitemap_requests ≡ s.sitemap_requests + maps_of item)

kept :
    (s : Search) (visited : List Str) (limited : Bool) (n : ℕ)
    → (s.sitemap_requests ≤ 4 → n ≤ 4)
    → IsKept s (record s { visited = visited; sitemap_limited = limited; sitemap_requests = n })
kept s visited limited n asked = record { asks = refl; reports = refl; sees = refl; asked = asked }

taking-IsTaken :
    (s : Search) (item : Target) (pages : ℕ) → IsTaken s item pages (taking s item pages)
unfolding taking
taking-IsTaken s item pages = elim (Bool-cases item.sitemap) [
  | inl map ↦ simp map (elim (Bool-cases (has_url s.visited item.url)) [
    | inl old ↦
        simp old ((kept s s.visited s.sitemap_limited s.sitemap_requests (λ h. h), refl, refl))
    | inr new ↦ simp new (elim (Bool-cases (leb 4 s.sitemap_requests)) [
      | inl full ↦ simp full ((kept s s.visited true s.sitemap_requests (λ h. h), refl, refl))
      | inr room ↦ simp room (
        kept s (item.url ∷ s.visited) s.sitemap_limited (s.sitemap_requests + 1)
            (λ h. ground arith),
        ground (arith, map),
        λ h. h,
        new,
        refl,
        ground (arith, map),
      )
    ])
  ])
  | inr page ↦ simp page (elim (Bool-cases (leb s.request.max_pages pages)) [
    | inl full ↦ simp full tt
    | inr room ↦ simp room (elim (Bool-cases (has_url s.visited item.url)) [
      | inl old ↦
          simp old ((kept s s.visited s.sitemap_limited s.sitemap_requests (λ h. h), refl, refl))
      | inr new ↦ simp new (
        kept s (item.url ∷ s.visited) s.sitemap_limited s.sitemap_requests (λ h. h),
        ground (arith, page),
        λ h. ground arith,
        refl,
        refl,
        ground (arith, page),
      )
    ])
  ])
]

-- The state and the batch that take gives for a queue.
pub record IsBatch (queue : List Target) (s : Search) (pages room : ℕ) (t : Search)
    (batch : List Target) : Type 0 where
  pub keeps : IsKept s t
  pub leaves : (gone : List Target) × (gone ++ t.queue ≡ queue) × IsPart batch gone
  pub shrinks : length t.queue + length batch ≤ length queue
  pub visits : AreVisited batch s.visited t.visited
  pub maps : t.sitemap_requests ≡ s.sitemap_requests + batch_maps batch
  pub paged : pages ≤ s.request.max_pages → pages + batch_pages batch ≤ s.request.max_pages
  pub fits : length batch ≤ room

IsKept-trans : {s t u : Search} → IsKept s t → IsKept t u → IsKept s u
IsKept-trans g h = record {
  asks = h.asks ∙ g.asks;
  reports = h.reports ∙ g.reports;
  sees = h.sees ∙ g.sees;
  asked = λ n. h.asked (g.asked n);
}

stopped :
    (queue : List Target) (s : Search) (pages room : ℕ)
    → IsBatch queue s pages room (record s { queue = queue }) []
stopped queue s pages room = record {
  keeps = record { asks = refl; reports = refl; sees = refl; asked = λ h. h };
  leaves = ([], refl, part_nil);
  shrinks = omega arith;
  visits = refl;
  maps = omega arith;
  paged = λ h. omega arith;
  fits = omega arith;
}

Taking-cases :
    (x : Taking)
    → (x ≡ stop) ⊎ ((t : Search) × (x ≡ skip t)) ⊎ ((n : ℕ) × (t : Search) × (x ≡ grab n t))
Taking-cases stop = inl refl
Taking-cases (skip t) = inr (inl (t, refl))
Taking-cases (grab n t) = inr (inr (n, t, refl))

-- Behind an item that take passes over, and behind one that it takes.
behind_skip :
    (item : Target) {queue : List Target} {s t u : Search} {pages room : ℕ} {batch : List Target}
    → IsTaken s item pages (skip t)
    → IsBatch queue t pages (suc room) u batch
    → IsBatch (item ∷ queue) s pages (suc room) u batch
behind_skip item {s = s} {u = u} {batch = batch} (k, same, maps) b =
    let (gone, split, part) = b.leaves in
    record {
      keeps = IsKept-trans k b.keeps;
      leaves = (item ∷ gone, ap (λ xs. item ∷ xs) split, part_over item part);
      shrinks = omega (arith, b.shrinks);
      visits = subst (λ v. AreVisited batch v u.visited) same b.visits;
      maps = omega (arith, b.maps, maps);
      paged = rw (k.asks) at b.paged;
      fits = b.fits;
    }

behind_grab :
    (item : Target) {queue : List Target} {s t u : Search} {pages more room : ℕ}
    {batch : List Target}
    → IsTaken s item pages (grab more t)
    → IsBatch queue t more room u batch
    → IsBatch (item ∷ queue) s pages (suc room) u (item ∷ batch)
behind_grab item {s = s} {t = t} {u = u} {pages = pages} {more = more} {batch = batch}
      (k, counts, fits, new, visited, maps) b =
    let (gone, split, part) = b.leaves in
    record {
      keeps = IsKept-trans k b.keeps;
      leaves = (item ∷ gone, ap (λ xs. item ∷ xs) split, part_with item part);
      shrinks = omega (arith, b.shrinks);
      visits = (new, subst (λ v. AreVisited batch v u.visited) visited b.visits);
      maps = omega (arith, b.maps, maps);
      paged = λ h.
          let paged : more ≤ s.request.max_pages → more + batch_pages batch ≤ s.request.max_pages =
            rw (k.asks) at b.paged in
          omega (arith, counts, paged (fits h));
      fits = omega (arith, b.fits);
    }

take_loop-IsBatch :
    (queue : List Target) (s : Search) (pages room : ℕ)
    → let (t, batch) = take_loop queue s pages room in IsBatch queue s pages room t batch
unfolding take_loop
take_loop-IsBatch [] s pages room = stopped [] s pages room
take_loop-IsBatch (item ∷ queue) s pages zero = stopped (item ∷ queue) s pages zero
take_loop-IsBatch (item ∷ queue) s pages (suc room) =
    let now = taking-IsTaken s item pages in
    elim (Taking-cases (taking s item pages)) [
      | inl e ↦ rw (e, take_loop) (stopped (item ∷ queue) s pages (suc room))
      | inr (inl (t, e)) ↦
          rw (e, take_loop)
            (behind_skip item (rw e at now) (take_loop-IsBatch queue t pages (suc room)))
      | inr (inr (more, t, e)) ↦
          rw (e, take_loop) (behind_grab item (rw e at now) (take_loop-IsBatch queue t more room))
    ]

-- take changes neither the report nor the candidates. Some first items leave the queue and the others
-- stay as they are; the batch is a part of those that leave, in their order. It is at most as long as
-- the places, its pages are no more than the limit of the request leaves, and the count of site maps
-- rises by those of the batch and stays within four if it was. Each item of the batch is marked as
-- visited, nothing else is, and none of them was before.
pub take_batch-IsBatch :
    (s : Search) (concurrency : ℕ)
    → let (t, batch) = take_batch s concurrency in
      IsBatch s.queue s (length s.report.pages) concurrency t batch
unfolding take_batch
take_batch-IsBatch s concurrency = take_loop-IsBatch s.queue s (length s.report.pages) concurrency
