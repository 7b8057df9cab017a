-- ===== src/Fetch/Service/Order/Attempts.antt =====
-- Attempts in the order of their providers, the fetchers that are asked for them, and how one attempt
-- of the waterfall in pkg/fetch/orchestrator.go and the resolving of its document keep both in step.
use pagelode.Prelude.{
  ℕ, ◌≤◌, ◌<◌, List, [], ◌∷◌, ◌++◌, map, Option, none, some, arith, ◌≡◌, refl, ap, str_eq,
  trim_space, ◌∙◌, sym, inl, inr, Bool-cases, All,
}
use mathlib.Core.List.{map-append}
use pagelode.Fetch.Page.{
  tls, patchright, capsolver, replay, unset, Provider, Session, Document, Verdict, Kind, accept,
  ContentType, text, html, pdf, unknown,
}
use pagelode.Fetch.Service.Defs.{
  Fallible, ok, err, Content, success_result, Env, Fetcher, Attempt, Result, State, RunState,
  provider_index,
}
use pagelode.Fetch.Service.Stages.{
  resolved, empty_page, other_type, resolve_html, resolve_type, Stage, finished, pending, attempt,
  judge, resolve_document, mark_empty, settle, resolve_kind, Resolved,
}

abbrev pub providers : List Attempt → List Provider
providers = map (λ a. a.provider)

abbrev pub Below : ℕ → List Provider → Type 0
Below k = All (λ p. provider_index p < k)

-- Each provider stands before the next one in: replay, tls, patchright, capsolver.
abbrev pub Ascending : List Provider → Type 0
Ascending [] = Unit
Ascending (p ∷ ps) = All (λ q. provider_index p < provider_index q) ps × Ascending ps

abbrev pub IsOrdered : ℕ → List Attempt → Type 0
IsOrdered k attempts = Below k (providers attempts) × Ascending (providers attempts)

-- The three fetchers of a service.
pub data Asked : Type 0 where
  http_fetcher : Asked
  browser_fetcher : Asked
  capsolver_fetcher : Asked

-- The fetcher behind each provider; no attempt is made for `unset`.
abbrev pub asked_by : Provider → Asked
asked_by replay = http_fetcher
asked_by tls = http_fetcher
asked_by patchright = browser_fetcher
asked_by capsolver = capsolver_fetcher
asked_by unset = http_fetcher

-- A fetcher that writes down, next to the world, that it was asked.
abbrev pub listening : {W : Type 0} → Asked → Fetcher W → Fetcher (W × List Asked)
listening who fetcher w target session =
    let (answer, v) = fetcher w.0 target session in (answer, (v, w.1 ++ who ∷ []))

abbrev pub listening_option :
    {W : Type 0} → Asked → Option (Fetcher W) → Option (Fetcher (W × List Asked))
listening_option who none = none
listening_option who (some fetcher) = some (listening who fetcher)

-- The same outside, where each fetcher writes down that it was asked.
abbrev pub logged : {W : Type 0} → Env W → Env (W × List Asked)
logged env = record {
  now = λ w. env.now w.0;
  http = listening http_fetcher env.http;
  browser = listening_option browser_fetcher env.browser;
  capsolver = listening_option capsolver_fetcher env.capsolver;
  inspector = env.inspector;
  parse_request_uri = env.parse_request_uri;
  extract_html = env.extract_html;
}

-- The attempts are in order, and the fetchers that were asked are those of the attempts, one by one.
abbrev pub Asks : ℕ → List Asked → List Attempt → Type 0
Asks k log attempts = IsOrdered k attempts × (log ≡ map asked_by (providers attempts))

providers-append : (xs ys : List Attempt) → providers (xs ++ ys) ≡ providers xs ++ providers ys
providers-append [] ys = refl
providers-append (x ∷ xs) ys = ap (λ ps. x.provider ∷ ps) (providers-append xs ys)

providers-mark_empty : (xs : List Attempt) → providers (mark_empty xs) ≡ providers xs
providers-mark_empty [] = refl
providers-mark_empty (x ∷ []) = refl
providers-mark_empty (x ∷ y ∷ xs) = ap (λ ps. x.provider ∷ ps) (providers-mark_empty (y ∷ xs))

Below-le : (k n : ℕ) (ps : List Provider) → k ≤ n → Below k ps → Below n ps
Below-le k n [] le h = tt
Below-le k n (p ∷ ps) le (b, h) = (omega arith, Below-le k n ps le h)

Below-last :
    (k : ℕ) (p : Provider) (ps : List Provider)
    → provider_index p < k
    → Below (provider_index p) ps
    → Below k (ps ++ p ∷ [])
Below-last k p [] lt h = (lt, tt)
Below-last k p (q ∷ ps) lt (b, h) = (omega arith, Below-last k p ps lt h)

last-All :
    (q p : Provider) (ps : List Provider)
    → provider_index q < provider_index p
    → All (λ r. provider_index q < provider_index r) ps
    → All (λ r. provider_index q < provider_index r) (ps ++ p ∷ [])
last-All q p [] lt h = (lt, tt)
last-All q p (r ∷ ps) lt (b, h) = (b, last-All q p ps lt h)

Ascending-last :
    (p : Provider) (ps : List Provider)
    → Below (provider_index p) ps
    → Ascending ps
    → Ascending (ps ++ p ∷ [])
Ascending-last p [] h a = (tt, tt)
Ascending-last p (q ∷ ps) (b, h) (aq, a) = (last-All q p ps b aq, Ascending-last p ps h a)

IsOrdered-last :
    (k : ℕ) (p : Provider) (xs : List Attempt) (x : Attempt)
    → provider_index p < k
    → IsOrdered (provider_index p) xs
    → x.provider ≡ p
    → IsOrdered k (xs ++ x ∷ [])
IsOrdered-last k p xs x lt (b, a) same =
    rw (providers-append, same)
      (Below-last k p (providers xs) lt b, Ascending-last p (providers xs) b a)

IsOrdered-le : (k n : ℕ) (xs : List Attempt) → k ≤ n → IsOrdered k xs → IsOrdered n xs
IsOrdered-le k n xs le (b, a) = (Below-le k n (providers xs) le b, a)

pub Asks-le :
    (k n : ℕ) (log : List Asked) (xs : List Attempt) → k ≤ n → Asks k log xs → Asks n log xs
Asks-le k n log xs le (h, e) = (IsOrdered-le k n xs le h, e)

Asks-mark_empty :
    (k : ℕ) (log : List Asked) (xs : List Attempt) → Asks k log xs → Asks k log (mark_empty xs)
Asks-mark_empty k log xs h = rw providers-mark_empty h

module _ {W : Type 0} where
  -- The same of what the stages hand on: a result's attempts, or those so far.
  abbrev pub Given : ℕ → Option Result × State (W × List Asked) → Type 0
  Given k (none, s) = Asks k s.world.1 s.run.attempts
  Given k (some result, s) = Asks k s.world.1 result.attempts

  abbrev pub Returned : ℕ → Fallible Result × State (W × List Asked) → Type 0
  Returned k (err e, s) = Asks k s.world.1 s.run.attempts
  Returned k (ok result, s) = Asks k s.world.1 result.attempts

  abbrev pub Staged : ℕ → Stage × State (W × List Asked) → Type 0
  Staged k (pending session, s) = Asks k s.world.1 s.run.attempts
  Staged k (finished result, s) = Asks k s.world.1 result.attempts

  abbrev pub Solved : ℕ → Result × State (W × List Asked) → Type 0
  Solved k (result, s) = Asks k s.world.1 result.attempts

abbrev Settled : ℕ → List Asked → Resolved → Type 0
Settled k log (resolved result) = Asks k log result.attempts
Settled k log _ = Unit

module _ {W : Type 0} (plain : Env W) where
  Asks-judge :
      (k : ℕ) (p : Provider) (n : ℕ) (s : State (W × List Asked)) (answer : Fallible Document)
      → provider_index p < k
      → IsOrdered (provider_index p) s.run.attempts
      → s.world.1 ≡ map asked_by (providers s.run.attempts) ++ asked_by p ∷ []
      → let (x, t) = judge (logged plain) p n s answer in Asks k t.world.1 t.run.attempts
  unfolding judge
  Asks-judge k p n s (ok d) lt h e =
      (IsOrdered-last k p s.run.attempts _ lt h refl, e ∙ sym (rw (providers-append, map-append)))
  Asks-judge k p n s (err f) lt h e =
      (IsOrdered-last k p s.run.attempts _ lt h refl, e ∙ sym (rw (providers-append, map-append)))

  -- An attempt asks the fetcher of its provider, once.
  pub Asks-attempt :
      (k : ℕ) (p : Provider) (fetcher : Fetcher W) (session : Session) (s : State (W × List Asked))
      → provider_index p < k
      → Asks (provider_index p) s.world.1 s.run.attempts
      → let (x, t) = attempt (logged plain) p (listening (asked_by p) fetcher) session s in
        Asks k t.world.1 t.run.attempts
  unfolding attempt
  Asks-attempt k p fetcher session s lt (h, e) =
      Asks-judge k p _ _ _ lt h (ap (λ log. log ++ asked_by p ∷ []) e)

  module _ (k : ℕ) where
    Settled-html :
        (log : List Asked) (r : RunState) (d : Document) (c : Option Content)
        → Asks k log r.attempts
        → Settled k log (resolve_html (logged plain) r d c)
    unfolding resolve_html success_result
    Settled-html log r d none h = tt
    Settled-html log r d (some c) h = elim (Bool-cases (str_eq (trim_space c.content) [])) [
      | inl blank ↦ rw blank tt
      | inr full ↦ rw full h
    ]

    Settled-type :
        (log : List Asked) (r : RunState) (d : Document) (t : ContentType)
        → Asks k log r.attempts
        → Settled k log (resolve_type (logged plain) r d t)
    unfolding resolve_type success_result
    Settled-type log r d text h = elim (Bool-cases (str_eq (trim_space d.text) [])) [
      | inl blank ↦ rw blank tt
      | inr full ↦ rw full h
    ]
    Settled-type log r d html h = Settled-html log r d (plain.extract_html d.html d.final_url) h
    Settled-type log r d pdf h = tt
    Settled-type log r d unknown h = tt

    Given-settle :
        (s : State (W × List Asked)) (x : Resolved)
        → Asks k s.world.1 s.run.attempts
        → Settled k s.world.1 x
        → Given k (settle (logged plain) s x)
    unfolding settle
    Given-settle s (resolved result) h g = g
    Given-settle s empty_page h g = Asks-mark_empty k s.world.1 s.run.attempts h
    Given-settle s other_type h g = h

    Given-resolve_kind :
        (d : Document) (s : State (W × List Asked)) (kind : Kind)
        → Asks k s.world.1 s.run.attempts
        → Given k (resolve_kind (logged plain) d s kind)
    unfolding resolve_kind
    Given-resolve_kind d s accept h =
        Given-settle s _ h (Settled-type s.world.1 s.run d d.content_type h)
    Given-resolve_kind d s _ h = h

    pub Given-resolve_document :
        (d : Document) (v : Verdict) (s : State (W × List Asked))
        → Asks k s.world.1 s.run.attempts
        → Given k (resolve_document (logged plain) d v s)
    unfolding resolve_document
    Given-resolve_document d v s h = Given-resolve_kind d s v.kind h
