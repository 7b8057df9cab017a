-- ===== src/Batch/Jobs.antt =====
-- The states of a URL in a batch: pkg/batch/jobs.go. The job states are those of River.
pub mod Laws
use pagelode.Prelude.{
  ℕ, ◌+◌, Str, codes, List, [], ◌∷◌, Option, none, some, Bool, true, false, str_eq, if◌then◌else◌,
}

-- rivertype.JobState
pub data JobState : Type 0 where
  available cancelled completed discarded pending retryable running scheduled : JobState

-- State
pub data UrlState : Type 0 where
  waiting active retrying done dead failed : UrlState

abbrev pub http_kind_name : Str
http_kind_name = codes "extract_http"

abbrev pub browser_kind_name : Str
browser_kind_name = codes "extract_browser"

-- Stage
unfoldable pub stage : Str → Str
stage kind =
    if str_eq kind http_kind_name
    then codes "http"
    else if str_eq kind browser_kind_name
    then codes "browser"
    else kind

-- StateOf
unfoldable pub state_of : JobState → UrlState
state_of running = active
state_of retryable = retrying
state_of completed = done
state_of cancelled = dead
state_of discarded = failed
state_of _ = waiting

-- RetryFrom; `none` is its error.
unfoldable pub retry_from : UrlState → Option JobState
retry_from failed = some discarded
retry_from dead = some cancelled
retry_from _ = none

-- The loop of Retry: what JobRetry answers for each id, `none` for an error, and the number of
-- jobs that it put back; the flag says whether every id was handled.
unfoldable pub retry : (ℕ → Option JobState) → List ℕ → ℕ → ℕ × Bool
retry job_retry [] retried = (retried, true)
retry job_retry (id ∷ ids) retried = elim (job_retry id) [
  | none ↦ (retried, false)
  | some running ↦ retry job_retry ids retried
  | some _ ↦ retry job_retry ids (retried + 1)
]
