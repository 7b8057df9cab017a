-- ===== src/Fetch/Service/Outcomes/Resolve.antt =====
-- What a document that was fetched is resolved to: resolveDocument and tryCapSolver of
-- pkg/fetch/orchestrator.go.
use pagelode.Prelude.{
  ℕ, Str, codes, List, [], ◌∷◌, ◌++◌, Option, none, some, false, ◌≡◌, ◌≢◌, refl, ◌⊎◌, inl, inr,
  Bool-cases, str_eq, str_eq_iff, trim_space, leb, length, runes,
}
use pagelode.Fetch.Page.{
  Provider, capsolver, Session, Document, Verdict, Kind, accept, dead, ContentType, text, html, pdf,
  unknown,
}
use pagelode.Fetch.Service.Defs.{
  Fallible, ok, err, Content, Env, Fetcher, Attempt, Result, State, RunState, bounded,
  success_result, failed_result, was_tried,
}
use pagelode.Fetch.Service.Stages.{
  Judged, Stage, finished, pending, Resolved, resolved, empty_page, other_type, outcome_of, judge,
  attempt, resolve_html, resolve_type, settle, resolve_kind, resolve_document, capsolver_resolved,
  capsolver_judged, capsolver_fetch,
}

abbrev pub last_outcome : List Attempt → Option Str
last_outcome [] = none
last_outcome (a ∷ []) = some a.outcome
last_outcome (a ∷ b ∷ rest) = last_outcome (b ∷ rest)

-- A success has content, and its last attempt was accepted.
abbrev pub Succeeds : Result → Type 0
Succeeds r =
    (r.outcome ≡ codes "ok") × (r.content ≢ []) × (last_outcome r.attempts ≡ some (codes "ok"))

-- A failure is dead or failed, and has neither content nor links.
abbrev pub Fails : Result → Type 0
Fails r =
    ((r.outcome ≡ codes "dead") ⊎ (r.outcome ≡ codes "failed")) × (r.content ≡ []) × (r.links ≡ [])

abbrev pub IsReported : Result → Type 0
IsReported r = Succeeds r ⊎ Fails r

-- No error of the browser is put off.
abbrev pub Calm : RunState → Type 0
Calm r = (r.defer_on_capacity ≡ false) × (r.capacity_err ≡ none)

last_outcome-append :
    (xs : List Attempt) (a : Attempt) → last_outcome (xs ++ a ∷ []) ≡ some a.outcome
last_outcome-append [] a = refl
last_outcome-append (x ∷ []) a = refl
last_outcome-append (x ∷ y ∷ xs) a = last_outcome-append (y ∷ xs) a

append_ne_nil : (s : Str) (b : ℕ) (t : Str) → s ++ b ∷ t ≢ []
append_ne_nil [] b t h = cc
append_ne_nil (c ∷ s) b t h = cc

-- The bounded text of a page that is not blank is not empty.
bounded-ne-nil : (s : Str) → str_eq (trim_space s) [] ≡ false → bounded s ≢ []
unfolding bounded
bounded-ne-nil s full h = elim (Bool-cases (leb (length (runes (trim_space s))) 12000)) [
  | inl short ↦
      let blank : trim_space s ≡ [] = rw short at h in
      cc (full, (str_eq_iff (trim_space s) []).1 blank)
  | inr long ↦ append_ne_nil _ 10 _ (rw long at h)
]

abbrev pub Given : Option Result → Type 0
Given none = Unit
Given (some result) = IsReported result

abbrev pub Staged : Stage → Type 0
Staged (pending session) = Unit
Staged (finished result) = IsReported result

abbrev pub Settled : Resolved → Type 0
Settled (resolved result) = IsReported result
Settled _ = Unit

-- What an attempt hands on, against the last record that it left.
abbrev pub Tracked : Judged → RunState → Type 0
Tracked none r = Unit
Tracked (some (d, v)) r = last_outcome r.attempts ≡ some (outcome_of v.kind)

module _ (r : RunState) (d : Document) where
  pub failed_result-IsReported :
      (outcome : Str)
      → (outcome ≡ codes "dead") ⊎ (outcome ≡ codes "failed")
      → IsReported (failed_result r d outcome)
  unfolding failed_result
  failed_result-IsReported outcome h = inr (h, refl, refl)

  success_result-IsReported :
      (s : Str) (links : List Str) (title : Str)
      → str_eq (trim_space s) [] ≡ false
      → last_outcome r.attempts ≡ some (codes "ok")
      → IsReported (success_result r d (bounded s) links title)
  unfolding success_result
  success_result-IsReported s links title full last = inl (refl, bounded-ne-nil s full, last)

module _ {W : Type 0} (env : Env W) where
  pub attempt-Tracked :
      (p : Provider) (n : ℕ) (s : State W) (answer : Fallible Document)
      → Calm s.run
      → Tracked (judge env p n s answer).0 (judge env p n s answer).1.run
        × Calm (judge env p n s answer).1.run
  unfolding judge
  attempt-Tracked p n s (ok d) c = (last_outcome-append s.run.attempts _, c)
  attempt-Tracked p n s (err e) (off, free) = (tt, (off, rw off free))

  resolve_html-Settled :
      (r : RunState) (d : Document) (c : Option Content)
      → last_outcome r.attempts ≡ some (codes "ok")
      → Settled (resolve_html env r d c)
  unfolding resolve_html
  resolve_html-Settled r d none last = tt
  resolve_html-Settled r d (some c) last = elim (Bool-cases (str_eq (trim_space c.content) [])) [
    | inl blank ↦ rw blank tt
    | inr full ↦ rw full (success_result-IsReported r d c.content _ _ full last)
  ]

  resolve_type-Settled :
      (r : RunState) (d : Document) (t : ContentType)
      → last_outcome r.attempts ≡ some (codes "ok")
      → Settled (resolve_type env r d t)
  unfolding resolve_type
  resolve_type-Settled r d text last = elim (Bool-cases (str_eq (trim_space d.text) [])) [
    | inl blank ↦ rw blank tt
    | inr full ↦ rw full (success_result-IsReported r d d.text _ _ full last)
  ]
  resolve_type-Settled r d html last =
      resolve_html-Settled r d (env.extract_html d.html d.final_url) last
  resolve_type-Settled r d pdf last = tt
  resolve_type-Settled r d unknown last = tt

  settle-Given :
      (s : State W) (x : Resolved)
      → Settled x
      → Calm s.run
      → Given (settle env s x).0 × Calm (settle env s x).1.run
  unfolding settle
  settle-Given s (resolved result) g c = (g, c)
  settle-Given s empty_page g c = (tt, c)
  settle-Given s other_type g c = (tt, c)

  resolve_kind-Given :
      (d : Document) (s : State W) (kind : Kind)
      → last_outcome s.run.attempts ≡ some (outcome_of kind)
      → Calm s.run
      → Given (resolve_kind env d s kind).0 × Calm (resolve_kind env d s kind).1.run
  unfolding resolve_kind
  resolve_kind-Given d s accept last c =
      settle-Given s _ (resolve_type-Settled s.run d d.content_type last) c
  resolve_kind-Given d s _ last c = (tt, c)

  pub resolve_document-Given :
      (d : Document) (v : Verdict) (s : State W)
      → Tracked (some (d, v)) s.run
      → Calm s.run
      → Given (resolve_document env d v s).0 × Calm (resolve_document env d v s).1.run
  unfolding resolve_document
  resolve_document-Given d v s last c = resolve_kind-Given d s v.kind last c

  capsolver_resolved-IsReported :
      (d : Document) (kind : Kind) (x : Option Result × State W)
      → Given x.0
      → IsReported (capsolver_resolved env d kind x).0
  unfolding capsolver_resolved
  capsolver_resolved-IsReported d kind (some result, s) g = g
  capsolver_resolved-IsReported d dead (none, s) g = failed_result-IsReported s.run d _ (inl refl)
  capsolver_resolved-IsReported d _ (none, s) g = failed_result-IsReported s.run d _ (inr refl)

  capsolver_judged-IsReported :
      (x : Judged × State W)
      → Tracked x.0 x.1.run
      → Calm x.1.run
      → IsReported (capsolver_judged env x).0
  unfolding capsolver_judged
  capsolver_judged-IsReported (none, s) t c = failed_result-IsReported s.run _ _ (inr refl)
  capsolver_judged-IsReported (some (d, v), s) t c =
      capsolver_resolved-IsReported d v.kind _ (resolve_document-Given d v s t c).0

  pub capsolver_fetch-IsReported :
      (f : Option (Fetcher W)) (session : Session) (s : State W)
      → Calm s.run
      → IsReported (capsolver_fetch env f session s).0
  unfolding capsolver_fetch attempt
  capsolver_fetch-IsReported none session s c = failed_result-IsReported s.run _ _ (inr refl)
  capsolver_fetch-IsReported (some fetcher) session s c =
      elim (Bool-cases (was_tried s.run capsolver)) [
        | inl old ↦ rw old (failed_result-IsReported s.run _ _ (inr refl))
        | inr new ↦
            rw new (
              let (t, c') = attempt-Tracked capsolver _ _ _ c in capsolver_judged-IsReported _ t c')
      ]
