-- ===== src/Batch/Jobs/Laws.antt =====
-- What jobs.go of pkg/batch says about retrying.
use pagelode.Prelude.{ℕ, ◌+◌, ◌≤◌, List, [], ◌∷◌, Option, some, ◌≡◌, ◌↔◌, arith, length, ◌⊎◌}
use pagelode.Batch.Jobs.{JobState, UrlState, dead, failed, state_of, retry_from, retry}

-- A retry selects a job state exactly for failed and dead URLs, and the jobs in that state are the
-- ones that are shown in the state of the URL that was asked for.
pub retry_from-state_of :
    (s : UrlState) (j : JobState)
    → (retry_from s ≡ some j) ↔ ((state_of j ≡ s) × ((s ≡ failed) ⊎ (s ≡ dead)))
unfolding retry_from state_of
retry_from-state_of s j = (λ h. ground arith, λ h. ground arith)

-- Retry counts each id at most once.
pub retry-le :
    (job_retry : ℕ → Option JobState) (ids : List ℕ) (n : ℕ)
    → (n ≤ (retry job_retry ids n).0) × ((retry job_retry ids n).0 ≤ n + length ids)
unfolding retry
retry-le job_retry [] n = omega arith
retry-le job_retry (id ∷ ids) n =
    ground (arith, retry-le job_retry ids n, retry-le job_retry ids (n + 1))
