-- ===== src/Batch/Worker/Completion.antt =====
-- When a job of a batch is complete, and when it comes back: pkg/batch/batch.go.
use pagelode.Prelude.{
  ◌+◌, Str, codes, List, [], Option, some, ◌∷◌, ◌++◌, none, Bool, true, false, ◌||◌, ◌≡◌, ◌⊎◌, inl,
  inr, refl, arith, Bool-cases, str_eq,
}
use mathlib.Core.List.{append-nil}
use pagelode.Fetch.Service.Defs.{FetchError, Fallible, ok, err, Result, outcome_needs_browser}
use pagelode.Batch.Options.{Options}
use pagelode.Batch.Gate.{HostGate, acquire}
use pagelode.Batch.Worker.{
  Insertion, not_inserted, inserted_new, skipped_duplicate, Job, Verdict, complete, fault, snoozed,
  Runner, Answers, output_of, snooze, store, dead, failure, begin_tx, insert_tx, complete_tx,
  commit_tx, hand_off_tx, count_failed, hand_off, http_outcome, http_extracted, browser_extracted,
  gated, http_work, browser_work,
}

-- The page is in the sink, and its output names where.
abbrev pub IsStored : Answers → Runner → Runner → Type 0
IsStored a r t =
    (result : Result) × (ref : Str) × (a.extracted ≡ ok result)
    × (a.sink ≡ ok ref)
    × (t.outputs ≡ r.outputs ++ record (output_of result) { content_ref = ref } ∷ [])
    × (t.stats.done ≡ r.stats.done + 1)

-- The jobs for the browser after InsertTx has answered: the job is a new one of them, or River has
-- one with its arguments already; behind an error there is no hand-off.
abbrev pub IsQueued : Insertion → Job → List Job → List Job → Type 0
IsQueued (not_inserted e) job before after = ⊥
IsQueued inserted_new job before after = after ≡ before ++ job ∷ []
IsQueued skipped_duplicate job before after = after ≡ before

-- The transaction has been begun and committed, without an error in between, and has queued the
-- browser job and completed this one.
abbrev pub IsHandedOff : Answers → Job → Runner → Runner → Type 0
IsHandedOff a job r t =
    (a.begun ≡ none)
    × IsQueued a.inserted job r.browser_jobs t.browser_jobs
    × (a.completed ≡ none)
    × (a.committed ≡ none)
    × (t.completed ≡ r.completed ++ job.id ∷ [])
    × (t.stats.needs_browser ≡ r.stats.needs_browser + 1)

sink_cases : (x : Fallible Str) → ((ref : Str) × (x ≡ ok ref)) ⊎ ((e : FetchError) × (x ≡ err e))
sink_cases (ok ref) = inl (ref, refl)
sink_cases (err e) = inr (e, refl)

-- A transaction of the hand-off that ends without an error.
committed-complete :
    (job : Job) (r : Runner) (begun : Option Str) (insertion : Insertion)
    (completed committed : Option Str)
    → let (v, t) =
        commit_tx committed job r
          (complete_tx completed job (insert_tx insertion job (begin_tx begun))) in
      v ≡ complete
      → (begun ≡ none)
        × IsQueued insertion job r.browser_jobs t.browser_jobs
        × (completed ≡ none)
        × (committed ≡ none)
        × (t.completed ≡ r.completed ++ job.id ∷ [])
        × (t.stats.needs_browser ≡ r.stats.needs_browser + 1)
unfolding commit_tx complete_tx insert_tx begin_tx
committed-complete job r (some m) insertion completed committed e = absurd (ground arith)
committed-complete job r none (not_inserted m) completed committed e = absurd (ground arith)
committed-complete job r none insertion (some m) committed e = absurd (ground arith)
committed-complete job r none insertion none (some m) e = absurd (ground arith)
committed-complete job r none inserted_new none none e = (refl, refl, refl, refl, refl, refl)
committed-complete job r none skipped_duplicate none none e =
    (refl, append-nil r.browser_jobs, refl, refl, refl, refl)

-- What holds behind a recorded output holds of a completed job.
recorded-complete :
    (x : Option Str) (r : Runner) (next : Verdict × Runner) (P : Runner → Type 0)
    → (next.0 ≡ complete → P next.1)
    → let out : Verdict × Runner = elim x [ some message ↦ (fault message, r) | none ↦ next ] in
      out.0 ≡ complete → P out.1
recorded-complete none r next P h e = h e
recorded-complete (some message) r next P h e = absurd (ground arith)

module _ (a : Answers) (r : Runner) (result : Result) where
  store-complete :
      a.extracted ≡ ok result → (store a result r).0 ≡ complete → IsStored a r (store a result r).1
  unfolding store snooze
  store-complete from e = elim (sink_cases a.sink) [
    | inl (ref, kept) ↦ (result, ref, from, kept, ground arith, ground arith)
    | inr (bad, lost) ↦ absurd (ground arith)
  ]

  dead-complete : (dead a result r).0 ≡ complete → ⊥
  unfolding dead
  dead-complete e = ground arith

  failure-complete : (t : Runner) → (failure a result t).0 ≡ complete → ⊥
  unfolding failure
  failure-complete t e = ground arith

  hand_off-complete :
      (job : Job)
      → (hand_off a job result r).0 ≡ complete
      → IsHandedOff a job r (hand_off a job result r).1
  unfolding hand_off hand_off_tx
  hand_off-complete job e =
      recorded-complete a.recorded r
        (hand_off_tx a job (record r { outputs = r.outputs ++ output_of result ∷ [] }))
        (IsHandedOff a job r)
        (committed-complete job (record r { outputs = r.outputs ++ output_of result ∷ [] }) a.begun
          a.inserted a.completed a.committed)
        e

abbrev IsFinished : Answers → Job → Runner → Runner → Type 0
IsFinished a job r t = IsStored a r t ⊎ IsHandedOff a job r t

http_outcome-complete :
    (a : Answers) (r : Runner) (job : Job) (result : Result)
    → a.extracted ≡ ok result
    → (http_outcome a job result r).0 ≡ complete
    → IsFinished a job r (http_outcome a job result r).1
unfolding http_outcome
http_outcome-complete a r job result from e =
    elim (Bool-cases (str_eq result.outcome (codes "ok"))) [
      | inl good ↦ rw good (inl (store-complete a r result from (rw good at e)))
      | inr bad ↦ rw bad (elim (Bool-cases (str_eq result.outcome (codes "dead"))) [
        | inl gone ↦ absurd (dead-complete a r result (rw (bad, gone) at e))
        | inr there ↦ rw there (elim (Bool-cases (str_eq result.outcome outcome_needs_browser)) [
          | inl next ↦ rw next (inr (hand_off-complete a r result job (rw (bad, there, next) at e)))
          | inr failed ↦
              absurd (failure-complete a r result (count_failed r) (rw (bad, there, failed) at e))
        ])
      ])
    ]

http_extracted-complete :
    (a : Answers) (r : Runner) (job : Job) (x : Fallible Result)
    → a.extracted ≡ x
    → (http_extracted a job x r).0 ≡ complete
    → IsFinished a job r (http_extracted a job x r).1
unfolding http_extracted
http_extracted-complete a r job (err f) from e = absurd (ground arith)
http_extracted-complete a r job (ok result) from e = http_outcome-complete a r job result from e

gated-complete :
    (o : Options) (a : Answers) (job : Job) (r : Runner) (x : HostGate × Bool)
    → (gated o a job (http_extracted a job a.extracted) r x).0 ≡ complete
    → IsFinished a job r (gated o a job (http_extracted a job a.extracted) r x).1
unfolding gated snooze
gated-complete o a job r (g, false) e = absurd (ground arith)
gated-complete o a job r (g, true) e = elim (Bool-cases a.cancelled) [
  | inl over ↦ absurd (ground arith)
  | inr live ↦
      let kept : (http_extracted a job a.extracted (record r { hosts = g })).0 ≡ complete =
        simp live at e in
      simp live
        (elim (http_extracted-complete a (record r { hosts = g }) job a.extracted refl kept) [
          | inl stored ↦ inl stored
          | inr handed ↦ inr handed
        ])
]

-- The HTTP worker completes a job only when its page is in the sink, with an output that names the
-- place, the count done then being one higher; or when the transaction of the hand-off was begun and
-- committed without an error from its insert or its completion in between. In that case the browser
-- job is queued, unless River has skipped it as a duplicate, this job is completed in the database,
-- and the count of pages for the browser is one higher.
pub http_work-complete :
    (o : Options) (a : Answers) (job : Job) (r : Runner)
    → (http_work o a job r).0 ≡ complete
    → IsStored a r (http_work o a job r).1 ⊎ IsHandedOff a job r (http_work o a job r).1
unfolding http_work
http_work-complete o a job r e = gated-complete o a job r (acquire r.hosts job.host) e

abbrev pub is_snoozed : Verdict → Bool
is_snoozed (snoozed delay) = true
is_snoozed v = false

-- The job is put off, and that is all.
abbrev pub IsPutOff : Runner → Verdict × Runner → Type 0
IsPutOff r (v, t) =
    (is_snoozed v ≡ true)
    × (t.stats ≡ (let s = r.stats in record s { deferred = s.deferred + 1 }))
    × (t.outputs ≡ r.outputs)
    × (t.stop ≡ r.stop)

capacity_extracted :
    (o : Options) (a : Answers) (r : Runner) (e : FetchError)
    → (e.saturated || e.unavailable) ≡ true
    → IsPutOff r (browser_extracted o a (err e) r)
unfolding browser_extracted snooze
capacity_extracted o a r e full = rw full (refl, refl, refl, refl)

capacity_gated :
    (o : Options) (a : Answers) (job : Job) (r : Runner) (e : FetchError) (x : HostGate × Bool)
    → (e.saturated || e.unavailable) ≡ true
    → IsPutOff r (gated o a job (browser_extracted o a (err e)) r x)
unfolding gated snooze
capacity_gated o a job r e (g, false) full = (refl, refl, refl, refl)
capacity_gated o a job r e (g, true) full = elim (Bool-cases a.cancelled) [
  | inl over ↦ simp over (refl, refl, refl, refl)
  | inr live ↦ simp live (capacity_extracted o a (record r { hosts = g }) e full)
]

-- A capacity error of the browser costs a job nothing: the worker puts the job off. No count but
-- that of deferred jobs changes, no output is recorded, and the run is not stopped.
pub browser_work-capacity :
    (o : Options) (a : Answers) (job : Job) (r : Runner) (e : FetchError)
    → a.extracted ≡ err e
    → (e.saturated || e.unavailable) ≡ true
    → IsPutOff r (browser_work o a job r)
unfolding browser_work
browser_work-capacity o a job r e from full =
    simp from (capacity_gated o a job r e (acquire r.hosts job.host) full)
