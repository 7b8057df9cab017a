-- ===== src/Fetch/Service/Order.antt =====
-- The order in which the waterfall of pkg/fetch/orchestrator.go asks its fetchers. The theorems are
-- about any outside whose fetchers also write down, next to the world, that they were asked.
mod Browser
mod Http
pub mod Attempts
use pagelode.Prelude.{
  ℕ, ◌<◌, Str, List, [], ◌∷◌, map, Option, none, some, arith, ◌≡◌, refl, All, sym,
}
use mathlib.Core.Path.{subst}
use pagelode.Fetch.Page.{Provider, tls, patchright, capsolver, replay, unset}
use pagelode.Fetch.Service.{
  Held, after_http, after_http_only, start, run_with, extract_from, extract_http_from, extract,
  extract_http,
}
use pagelode.Fetch.Service.Defs.{
  Attempt, Fallible, ok, err, Env, Result, State, RunState, needs_browser_result, new_run_state,
}
use pagelode.Fetch.Service.Stages.{Stage, finished, pending}
use pagelode.Fetch.Service.Order.Browser.{try_patchright-Asks}
use pagelode.Fetch.Service.Order.Http.{http_stage-Asks}
use pagelode.Fetch.Service.Order.Attempts.{
  providers, Below, Asked, http_fetcher, asked_by, logged, Asks, Returned, Staged, Asks-le,
}

-- The fetchers that were asked are those of the attempts of the result, or of the run where there is an
-- error, one by one and in order. Where the URL is refused there is no run.
abbrev pub IsAsked : {W : Type 0} → ℕ → Fallible Result × Option (State (W × List Asked)) → Type 0
IsAsked k (ok result, none) = ⊥
IsAsked k (err e, none) = Unit {0}
IsAsked k (ok result, some s) = Asks k s.world.1 result.attempts
IsAsked k (err e, some s) = Asks k s.world.1 s.run.attempts

-- Of all fetchers the HTTP fetcher alone was asked.
abbrev pub AsksHttp : {W : Type 0} → Option (State (W × List Asked)) → Type 0
AsksHttp none = Unit {0}
AsksHttp (some s) = All (λ who. who ≡ http_fetcher) s.world.1

asked-http : (ps : List Provider) → Below 2 ps → All (λ who. who ≡ http_fetcher) (map asked_by ps)
asked-http [] h = tt
asked-http (replay ∷ ps) (b, h) = (refl, asked-http ps h)
asked-http (tls ∷ ps) (b, h) = (refl, asked-http ps h)
asked-http (patchright ∷ ps) (b, h) = absurd (omega arith)
asked-http (capsolver ∷ ps) (b, h) = absurd (omega arith)
asked-http (unset ∷ ps) (b, h) = absurd (omega arith)

module _ {W : Type 0} where
  IsAsked-http :
      (x : Fallible Result × Option (State (W × List Asked))) → IsAsked 2 x → AsksHttp x.1
  IsAsked-http (ok result, none) h = tt
  IsAsked-http (err e, none) h = tt
  IsAsked-http (ok result, some s) ((b, a), e) =
      subst (All (λ who. who ≡ http_fetcher)) (sym e) (asked-http (providers result.attempts) b)
  IsAsked-http (err f, some s) ((b, a), e) =
      subst (All (λ who. who ≡ http_fetcher)) (sym e) (asked-http (providers s.run.attempts) b)

  ran-IsAsked :
      (k : ℕ) (x : Fallible Result × State (W × List Asked))
      → Returned k x
      → IsAsked k (x.0, some x.1)
  ran-IsAsked k (ok result, s) h = h
  ran-IsAsked k (err e, s) h = h

module _ {W : Type 0} (plain : Env W) where
  after_http-Asks :
      (x : Stage × State (W × List Asked)) → Staged 2 x → Returned 4 (after_http (logged plain) x)
  unfolding after_http
  after_http-Asks (finished result, s) g = Asks-le 2 4 s.world.1 result.attempts (omega arith) g
  after_http-Asks (pending session, s) g = try_patchright-Asks plain session s g

  after_http_only-Asks :
      (x : Stage × State (W × List Asked))
      → Staged 2 x
      → Returned 2 (after_http_only (logged plain) x)
  unfolding after_http_only needs_browser_result
  after_http_only-Asks (finished result, s) g = g
  after_http_only-Asks (pending session, s) g = g

  none_asked :
      (log : List Asked) (attempts : List Attempt) → log ≡ [] → attempts ≡ [] → Asks 0 log attempts
  none_asked log attempts e f = rw (e, f) ((tt, tt), refl)

  run_with-IsAsked :
      (k : ℕ) (body : State (W × List Asked) → Fallible Result × State (W × List Asked))
      (held : Held (W × List Asked)) (r : Fallible RunState)
      → ((s : State (W × List Asked)) → Asks 0 s.world.1 s.run.attempts → Returned k (body s))
      → held.world.1 ≡ []
      → ((x : RunState) → r ≡ ok x → x.attempts ≡ [])
      → IsAsked k (run_with (logged plain) body held r)
  run_with-IsAsked k body held (err e) each quiet new = tt
  run_with-IsAsked k body held (ok r) each quiet new =
      ran-IsAsked k (body (start (logged plain) held r))
        (each (start (logged plain) held r) (none_asked held.world.1 r.attempts quiet (new r refl)))

  module _ (held : Held (W × List Asked)) (input : Str) where
    new_run_state-attempts :
        (x : RunState) → new_run_state plain.parse_request_uri input ≡ ok x → x.attempts ≡ []
    unfolding new_run_state
    new_run_state-attempts x e = ground arith

    -- Extract asks its fetchers in the order replay, tls, patchright, capsolver, each at most once,
    -- where replay and tls ask the HTTP fetcher: from an empty log on, the fetchers that were asked
    -- are, one by one, those of the attempts, and these stand in that order. The attempts are those
    -- of the result, and behind an error those of the run.
    pub extract-IsOrdered : held.world.1 ≡ [] → IsAsked 4 (extract (logged plain) held input)
    unfolding extract extract_from
    extract-IsOrdered quiet =
        run_with-IsAsked 4 (extract_from (logged plain)) held
          (new_run_state plain.parse_request_uri input)
          (λ s h. after_http-Asks _ (http_stage-Asks plain s h)) quiet new_run_state-attempts

    -- ExtractHTTP asks the HTTP fetcher alone, for replay and then for tls, each at most once: from an
    -- empty log on, no other fetcher was asked, and the fetchers that were asked are, one by one,
    -- those of the attempts, which stand in that order.
    pub extract_http-IsOrdered :
        held.world.1 ≡ []
        → IsAsked 2 (extract_http (logged plain) held input)
          × AsksHttp (extract_http (logged plain) held input).1
    unfolding extract_http extract_http_from
    extract_http-IsOrdered quiet =
        let asked =
          run_with-IsAsked 2 (extract_http_from (logged plain)) held
            (new_run_state plain.parse_request_uri input)
            (λ s h. after_http_only-Asks _ (http_stage-Asks plain s h)) quiet
            new_run_state-attempts in
        (asked, IsAsked-http (extract_http (logged plain) held input) asked)
