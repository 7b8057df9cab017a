-- ===== src/Emails/Find/Bounds.antt =====
-- What Find of pkg/emails/service.go promises: it ends, and its report keeps to the limits.
use pagelode.Prelude.{
  ℕ, suc, ◌≤◌, ◌≡◌, refl, arith, Str, codes, List, [], ◌∷◌, map, Option, none, some, Bool, true,
  false, length, length-sort, inl, inr, Bool-cases, Option-cases, ◌∙◌, ap, str_eq, ltb, ◌&&◌,
}
use mathlib.Core.Path.{subst}
use pagelode.Emails.Types.{Options, Request, Report}
use pagelode.Url.{NetUrl}
use pagelode.Emails.Search.{Search, Readers}
use pagelode.Emails.Search.Limits.{Grows, stays, add-Grows, warn-Grows, then-Grows}
use pagelode.Emails.Find.{
  Outside, Ended, saturated, ended, finish, final_warnings, warn_if, sorted_emails, empty_search,
  first_search, rounds, Found, found, find_ended, find_in, find,
}
use pagelode.Emails.Find.Rounds.{IsWithin, IsDone, rounds-IsDone, asked_of}

grown-IsWithin : {s t : Search} → Grows 0 s t → IsWithin s → IsWithin t
grown-IsWithin g i = record {
  pages = omega (arith, g.paged, i.pages, ap (λ (r : Request). r.max_pages) g.asks);
  emails = omega (arith, g.mailed i.emails, ap (λ (r : Request). r.max_emails) g.asks);
  candidates = g.bounded i.candidates;
  site_maps = omega (arith, g.asked, i.site_maps);
}

empty_search-IsWithin :
    (readers : Readers) (request : Request) → IsWithin (empty_search readers request)
unfolding empty_search
empty_search-IsWithin readers request = record {
  pages = omega arith;
  emails = omega arith;
  candidates = omega arith;
  site_maps = omega arith;
}

first-Grows :
    (readers : Readers) (request : Request) (map_url : Str)
    → Grows 0 (empty_search readers request) (first_search readers request map_url)
unfolding first_search
first-Grows readers request map_url =
    elim (Bool-cases (str_eq request.profile [] && ltb 1 request.max_pages)) [
      | inl more ↦ simp more (then-Grows (add-Grows _ _) (add-Grows _ _))
      | inr one ↦ simp one (add-Grows _ _)
    ]

warn_if-Grows : (c : Bool) (message : Str) (s : Search) → Grows 0 s (warn_if c message s)
unfolding warn_if
warn_if-Grows true message s = warn-Grows s message
warn_if-Grows false message s = stays s

after_warn :
    (c : Bool) (message : Str) {s t : Search} → Grows 0 s t → Grows 0 s (warn_if c message t)
after_warn c message {t = t} g = then-Grows g (warn_if-Grows c message t)

final_warnings-Grows : (s : Search) → Grows 0 s (final_warnings s)
unfolding final_warnings
final_warnings-Grows s =
    after_warn _ _ (after_warn _ _ (after_warn _ _ (after_warn _ _ (warn_if-Grows _ _ _))))

length-map : {A B : Type 0} (f : A → B) (xs : List A) → length (map f xs) ≡ length xs
length-map f [] = refl
length-map f (x ∷ xs) = ap suc (length-map f xs)

-- The limits of a request, and the counts of a report, which are those of its lists.
pub record IsReport (request : Request) (r : Report) : Type 0 where
  pub pages : length r.pages ≤ request.max_pages
  pub emails : length r.emails ≤ request.max_emails
  pub visited : r.summary.pages_visited ≡ length r.pages
  pub found : r.summary.emails_found ≡ length r.emails

finish-IsReport : (s : Search) (elapsed : ℕ) → IsWithin s → IsReport s.request (finish s elapsed)
unfolding finish sorted_emails
finish-IsReport s elapsed i =
    let g = final_warnings-Grows s in
    let j = grown-IsWithin g i in
    let sorted : length (sorted_emails (final_warnings s).report.emails)
        ≡ length (final_warnings s).report.emails =
      length-map _ _ ∙ length-sort _ (final_warnings s).report.emails in
    record {
      pages = omega (arith, j.pages, ap (λ (r : Request). r.max_pages) g.asks);
      emails = omega (arith, j.emails, sorted, ap (λ (r : Request). r.max_emails) g.asks);
      visited = refl;
      found = omega (arith, sorted);
    }

module _ {U W : Type 0} (net : NetUrl U) (readers : Readers) (out : Outside W) where
  -- There is an answer, and a report keeps to the limits of the request.
  abbrev pub IsAnswered : Request → Option Found → Type 0
  IsAnswered request none = ⊥
  IsAnswered request (some (found report)) = IsReport request report
  IsAnswered request (some answer) = Unit {0}

  find_ended-IsAnswered :
      (scope : U) (request : Request) (x : Option (Ended × W))
      → IsDone net scope readers out request x
      → IsAnswered request (elim x [ none ↦ none | some y ↦ some (find_ended net readers out y) ])
  unfolding find_ended
  find_ended-IsAnswered scope request none d = elim d [ ]
  find_ended-IsAnswered scope request (some (saturated, w)) d = tt
  find_ended-IsAnswered scope request (some (ended s, w)) (i, asks) =
      elim (Bool-cases (out.cancelled w)) [
        | inl late ↦ rw late tt
        | inr live ↦ rw live (
            let g = warn_if-Grows (out.deadline_over w) (codes "duration limit reached") s in
            subst
              (λ r. IsReport r (
                finish (warn_if (out.deadline_over w) (codes "duration limit reached") s)
                  (out.elapsed_ms w)))
              (g.asks ∙ asks)
              (finish-IsReport (warn_if (out.deadline_over w) _ s) (out.elapsed_ms w)
                (grown-IsWithin g i)))
      ]

  first-IsDone :
      (concurrency : ℕ) (request : Request) (scope : U) (w : W) (map_url : Str) (options : Options)
      → IsDone net scope readers out request (
          rounds net scope readers out 1001 options concurrency
            (first_search readers request map_url)
            w)
  unfolding empty_search
  first-IsDone concurrency request scope w map_url options =
      let g = first-Grows readers request map_url in
      asked_of net scope readers out _ g.asks (
        rounds-IsDone net scope readers out 1001 options concurrency _ w (omega (arith, g.weighed))
          (grown-IsWithin g (empty_search-IsWithin readers request)))

  -- Find always ends: for every request 1001 rounds are enough, whatever the pages, the
  -- links on them and the errors are. Its report has at most the pages and at most the addresses
  -- that the request allows, and its counts are the lengths of its lists.
  pub find-IsAnswered :
      (concurrency : ℕ) (request : Request) (w : W)
      → IsAnswered request (find net readers out 1001 concurrency request w)
  unfolding find find_in
  find-IsAnswered concurrency request w = elim (Option-cases (net.parse request.url)) [
    | inl bad ↦ rw (bad, find) tt
    | inr (scope, good) ↦
        rw (good, find) (find_ended-IsAnswered scope request _ (first-IsDone _ request scope w _ _))
  ]
