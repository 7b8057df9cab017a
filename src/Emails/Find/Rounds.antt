-- ===== src/Emails/Find/Rounds.antt =====
-- What one round of an e-mail search does to its limits and to the work that is left.
use pagelode.Prelude.{
  ℕ, zero, suc, ◌+◌, ◌≤◌, ◌<◌, ◌≡◌, refl, arith, List, [], ◌∷◌, Option, none, some, length,
  Bool-cases, Option-cases, inl, inr, ◌∙◌, sym, ap, map, List-cases, length-sort,
}
use mathlib.Core.Path.{subst}
use pagelode.Emails.Types.{Request, Report, Options}
use pagelode.Emails.Targets.{Target, max_candidates, order_targets, sooner}
use pagelode.Url.{NetUrl}
use pagelode.Emails.Search.{Search, Loaded, Readers, take_batch, consume}
use pagelode.Emails.Search.Limits.{Grows, work, then-Grows, consume-Grows, stays}
use pagelode.Emails.Search.Queue.{IsBatch, batch_pages, take_batch-IsBatch}
use pagelode.Emails.Find.{
  Outside, Ended, saturated, ended, load_batch, consume_all, goes_on, ordered, rounds,
}

-- The limits of a search.
pub record IsWithin (s : Search) : Type 0 where
  pub pages : length s.report.pages ≤ s.request.max_pages
  pub emails : length s.report.emails ≤ s.request.max_emails
  pub candidates : length s.seen ≤ max_candidates
  pub site_maps : s.sitemap_requests ≤ 4

pub work-ordered :
    {U W : Type 0} (net : NetUrl U) (scope : U) (readers : Readers) (out : Outside W) (s : Search)
    → work (ordered net scope readers out s) ≡ work s
unfolding ordered order_targets
work-ordered net scope readers out s = omega (arith, length-sort sooner s.queue)

-- The step from a state with its queue in order, by a batch and its results.
round_lem :
    {s t u : Search} {batch : List Target} {concurrency : ℕ}
    → IsBatch s.queue s (length s.report.pages) concurrency t batch
    → Grows (batch_pages batch) t u
    → IsWithin s
    → IsWithin u × (u.request ≡ s.request) × (work u + length batch ≤ work s)
round_lem {s = s} {t = t} {u = u} b g i =
    let asks : u.request ≡ s.request = g.asks ∙ b.keeps.asks in
    let seen = ap length b.keeps.sees in
    let pages = ap (λ (r : Report). length r.pages) b.keeps.reports in
    let emails = ap (λ (r : Report). length r.emails) b.keeps.reports in
    let most_pages = ap (λ (r : Request). r.max_pages) asks in
    let most_emails = ap (λ (r : Request). r.max_emails) asks in
    let first_emails = ap (λ (r : Request). r.max_emails) b.keeps.asks in
    (
      record {
        pages = omega (arith, g.paged, pages, b.paged i.pages, most_pages);
        emails = omega (
          arith,
          g.mailed (omega (arith, emails, i.emails, first_emails)),
          most_emails,
          first_emails,
        );
        candidates = g.bounded (omega (arith, seen, i.candidates));
        site_maps = omega (arith, g.asked, b.keeps.asked i.site_maps);
      },
      asks,
      omega (arith, g.weighed, seen, b.shrinks),
    )

module _ {U W : Type 0} (net : NetUrl U) (scope : U) (readers : Readers) (out : Outside W) where
  target-load_batch :
      (options : Options) (batch : List Target) (w : W)
      → batch_pages
          (map (λ (l : Loaded). l.target) (load_batch net scope readers out options batch w).0)
        ≡ batch_pages batch
  unfolding load_batch
  target-load_batch options [] w = refl
  target-load_batch options (item ∷ items) w =
      omega (arith, target-load_batch options items (out.load w item.url _).1)

  -- Where no result is ErrSaturated, the state has grown.
  abbrev IfGrown : ℕ → Search → Option Search → Type 0
  IfGrown n s none = Unit {0}
  IfGrown n s (some u) = Grows n s u

  IfGrown-then :
      {m : ℕ} (n : ℕ) {s t : Search} (x : Option Search)
      → Grows m s t
      → IfGrown n t x
      → IfGrown (m + n) s x
  IfGrown-then n none g h = tt
  IfGrown-then n (some u) g h = then-Grows g h

  consume_all-IfGrown :
      (results : List Loaded) (s : Search)
      → IfGrown
          (batch_pages (map (λ (l : Loaded). l.target) results))
          s
          (consume_all net scope readers out s results)
  unfolding consume_all
  consume_all-IfGrown [] s = stays s
  consume_all-IfGrown (result ∷ results) s = elim (Bool-cases result.saturated) [
    | inl full ↦ simp full tt
    | inr room ↦ simp room (
        IfGrown-then _
          (consume_all net scope readers out (consume net scope readers s result) results)
          (consume-Grows net scope readers s result)
          (consume_all-IfGrown results (consume net scope readers s result)))
  ]

  ordered-IsWithin : (s : Search) → IsWithin s → IsWithin (ordered net scope readers out s)
  unfolding ordered
  ordered-IsWithin s i = record {
    pages = i.pages;
    emails = i.emails;
    candidates = i.candidates;
    site_maps = i.site_maps;
  }

  -- The loop has ended with fuel left, and not with more than the limits.
  abbrev pub IsDone : Request → Option (Ended × W) → Type 0
  IsDone request none = ⊥
  IsDone request (some (saturated, w)) = Unit {0}
  IsDone request (some (ended s, w)) = IsWithin s × (s.request ≡ request)

  -- A batch and its results.
  batch_lem :
      (options : Options) (concurrency : ℕ) (s : Search) (w : W)
      → let (t, batch) = take_batch s concurrency in
        (x : Option Search)
        → consume_all net scope readers out t (load_batch net scope readers out options batch w).0
          ≡ x
        → IfGrown (batch_pages batch) t x
  batch_lem options concurrency s w x e =
      let (t, batch) = take_batch s concurrency in
      let grown = consume_all-IfGrown (load_batch net scope readers out options batch w).0 t in
      rw (sym e) (rw (sym (target-load_batch options batch w)) grown)

  -- What is behind a batch that is not empty.
  IfGrown-round :
      (s : Search) (concurrency : ℕ) (x : Option Search)
      → IfGrown (batch_pages (take_batch s concurrency).1) (take_batch s concurrency).0 x
      → IsWithin s
      → elim x as (λ x. Type 0) [
        | none ↦ Unit {0}
        | some u ↦
            IsWithin u
            × (u.request ≡ s.request)
            × (work u + length (take_batch s concurrency).1 ≤ work s)
      ]
  IfGrown-round s concurrency none h i = tt
  IfGrown-round s concurrency (some u) h i = round_lem (take_batch-IsBatch s concurrency) h i

  pub asked_of :
      {asked request : Request} (x : Option (Ended × W))
      → asked ≡ request
      → IsDone asked x
      → IsDone request x
  asked_of x e h = subst (λ r. IsDone r x) e h

  -- The loop ends before its fuel does, if that is more than the work that is left.
  pub rounds-IsDone :
      (fuel : ℕ) (options : Options) (concurrency : ℕ) (s : Search) (w : W)
      → work s < fuel
      → IsWithin s
      → IsDone s.request (rounds net scope readers out fuel options concurrency s w)
  unfolding rounds
  rounds-IsDone zero options concurrency s w enough i = absurd (omega arith)
  rounds-IsDone (suc fuel) options concurrency s w enough i =
      elim (Bool-cases (goes_on net scope readers out s w)) [
        | inr over ↦ rw (over, rounds) (i, refl)
        | inl on ↦
            let s' : Search = ordered net scope readers out s in
            let i' = ordered-IsWithin s i in
            let t : Search = (take_batch s' concurrency).0 in
            elim (List-cases (take_batch s' concurrency).1) [
              | inl empty ↦
                  let (within, asks, less) =
                    IfGrown-round s' concurrency (some t) (rw empty (stays t)) i' in
                  rw (on, empty, rounds) (within, asks)
              | inr (item, items, some_batch) ↦
                  elim (Option-cases (
                    consume_all net scope readers out t
                      (load_batch net scope readers out options (item ∷ items) w).0)) [
                        | inl full ↦ rw (on, some_batch, full, rounds) tt
                        | inr (u, e) ↦
                            let (within, asks, less) =
                              IfGrown-round s' concurrency (some u)
                                (batch_lem options concurrency s' w (some u) (rw some_batch e))
                                i' in
                            rw (on, some_batch, e, rounds)
                              (asked_of _ asks (
                                rounds-IsDone fuel options concurrency u
                                  (load_batch net scope readers out options (item ∷ items) w).1
                                  (omega (
                                    arith,
                                    less,
                                    work-ordered net scope readers out s,
                                    ap length some_batch,
                                  ))
                                  within))
                      ]
            ]
      ]
