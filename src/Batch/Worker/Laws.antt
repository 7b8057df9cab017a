-- ===== src/Batch/Worker/Laws.antt =====
-- What the workers of pkg/batch/batch.go promise about their counts, the gate and finished jobs.
use pagelode.Prelude.{
  ℕ, ◌+◌, codes, Bool, true, false, ◌≡◌, ◌⊎◌, inl, inr, refl, arith, Bool-cases, str_eq,
}
use pagelode.Fetch.Service.Defs.{Fallible, ok, err, Result, outcome_needs_browser}
use pagelode.Batch.Options.{Options}
use pagelode.Batch.Gate.{HostGate, acquire}
use pagelode.Batch.Worker.{
  Stats, Job, Verdict, fault, Runner, Answers, snooze, store, dead, failure, count_failed, hand_off,
  http_outcome, browser_outcome, http_extracted, browser_extracted, gated, http_work, browser_work,
}

abbrev pub total : Stats → ℕ
total s = s.done + s.dead + s.failed + s.needs_browser + s.deferred

abbrev pub is_fault : Verdict → Bool
is_fault (fault message) = true
is_fault v = false

-- One more job is counted; or none is, and an error is returned.
abbrev pub IsCounted : ℕ → Verdict × Runner → Type 0
IsCounted n (v, r) = (total r.stats ≡ n + 1) ⊎ ((total r.stats ≡ n) × (is_fault v ≡ true))

module _ (a : Answers) (r : Runner) where
  snooze-IsCounted : (delay : ℕ) → IsCounted (total r.stats) (snooze delay r)
  unfolding snooze
  snooze-IsCounted delay = inl (omega arith)

  store-IsCounted : (result : Result) → IsCounted (total r.stats) (store a result r)
  unfolding store snooze
  store-IsCounted result = ground arith

  dead-IsCounted : (result : Result) → IsCounted (total r.stats) (dead a result r)
  unfolding dead
  dead-IsCounted result = ground arith

  failure-IsCounted :
      (result : Result) → IsCounted (total r.stats) (failure a result (count_failed r))
  unfolding failure
  failure-IsCounted result = ground arith

  hand_off-IsCounted :
      (job : Job) (result : Result) → IsCounted (total r.stats) (hand_off a job result r)
  unfolding hand_off
  hand_off-IsCounted job result = ground arith

  http_outcome-IsCounted :
      (job : Job) (result : Result) → IsCounted (total r.stats) (http_outcome a job result r)
  unfolding http_outcome
  http_outcome-IsCounted job result = elim (Bool-cases (str_eq result.outcome (codes "ok"))) [
    | inl good ↦ rw good (store-IsCounted result)
    | inr bad ↦ rw bad (elim (Bool-cases (str_eq result.outcome (codes "dead"))) [
      | inl gone ↦ rw gone (dead-IsCounted result)
      | inr there ↦ rw there (elim (Bool-cases (str_eq result.outcome outcome_needs_browser)) [
        | inl next ↦ rw next (hand_off-IsCounted job result)
        | inr failed ↦ rw failed (failure-IsCounted result)
      ])
    ])
  ]

  browser_outcome-IsCounted :
      (result : Result) → IsCounted (total r.stats) (browser_outcome a result r)
  unfolding browser_outcome
  browser_outcome-IsCounted result = elim (Bool-cases (str_eq result.outcome (codes "ok"))) [
    | inl good ↦ rw good (store-IsCounted result)
    | inr bad ↦ rw bad (elim (Bool-cases (str_eq result.outcome (codes "dead"))) [
      | inl gone ↦ rw gone (dead-IsCounted result)
      | inr failed ↦ rw failed (failure-IsCounted result)
    ])
  ]

  http_extracted-IsCounted :
      (job : Job) (e : Fallible Result) → IsCounted (total r.stats) (http_extracted a job e r)
  unfolding http_extracted
  http_extracted-IsCounted job (err e) = inl (omega arith)
  http_extracted-IsCounted job (ok result) = http_outcome-IsCounted job result

  browser_extracted-IsCounted :
      (o : Options) (e : Fallible Result) → IsCounted (total r.stats) (browser_extracted o a e r)
  unfolding browser_extracted snooze
  browser_extracted-IsCounted o (err e) = ground arith
  browser_extracted-IsCounted o (ok result) = browser_outcome-IsCounted result

  gated-IsCounted :
      (o : Options) (job : Job) (body : Runner → Verdict × Runner) (x : HostGate × Bool)
      → ((t : Runner) → t.stats ≡ r.stats → IsCounted (total t.stats) (body t))
      → IsCounted (total r.stats) (gated o a job body r x)
  unfolding gated snooze
  gated-IsCounted o job body (g, false) counts = inl (omega arith)
  gated-IsCounted o job body (g, true) counts = elim (Bool-cases a.cancelled) [
    | inl over ↦ rw over (inl (omega arith))
    | inr live ↦ rw live (counts (record r { hosts = g }) refl)
  ]

module _ (o : Options) (a : Answers) (job : Job) (r : Runner) where
  -- After each run of the HTTP worker the sum of the five counts is one higher, or it is unchanged
  -- and the run has returned an error to River.
  pub http_work-IsCounted : IsCounted (total r.stats) (http_work o a job r)
  unfolding http_work
  http_work-IsCounted =
      gated-IsCounted a r o job (http_extracted a job a.extracted) (acquire r.hosts job.host)
        (λ t same. http_extracted-IsCounted a t job a.extracted)

  -- After each run of the browser worker the sum of the five counts is one higher, or it is
  -- unchanged and the run has returned an error to River.
  pub browser_work-IsCounted : IsCounted (total r.stats) (browser_work o a job r)
  unfolding browser_work
  browser_work-IsCounted =
      gated-IsCounted a r o job (browser_extracted o a a.extracted) (acquire r.hosts job.host)
        (λ t same. browser_extracted-IsCounted a t o a.extracted)
