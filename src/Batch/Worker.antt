-- ===== src/Batch/Worker.antt =====
-- The two workers of a batch run: httpWorker, browserWorker and the runner's methods in
-- pkg/batch/batch.go. What River, the sink, the database and the context answer during one job is
-- the parameter `Answers`; the job's effects are collected in the state.
pub mod Laws
pub mod Gate
pub mod Completion
use pagelode.Prelude.{
  ℕ, ◌+◌, ◌/◌, Str, codes, List, [], ◌∷◌, ◌++◌, Option, none, some, Bool, true, false, ◌||◌, str_eq,
  if◌then◌else◌, itoa, ◌==◌,
}
use pagelode.Fetch.Page.{Provider, tls, patchright, capsolver, replay, unset}
use pagelode.Fetch.Service.Defs.{
  FetchError, Fallible, ok, err, Attempt, Result, outcome_needs_browser,
}
use pagelode.Batch.Options.{Options, is_negative}
use pagelode.Batch.Gate.{HostGate, acquire, release}

-- Stats
pub record Stats : Type 0 where
  pub done : ℕ
  pub dead : ℕ
  pub failed : ℕ
  pub needs_browser : ℕ
  pub deferred : ℕ

pub record Output : Type 0 where
  pub outcome : Str
  pub provider : Str
  pub status_code : ℕ
  pub detail : Str
  pub content_ref : Str

pub record Job : Type 0 where
  pub id : ℕ
  pub url : Str
  pub host : Str

-- What Work returns to River: nil, JobSnooze, JobCancel, or an error.
pub data Verdict : Type 0 where
  complete : Verdict
  snoozed : ℕ → Verdict
  cancel : Str → Verdict
  fault : Str → Verdict

-- `stop` is the cause that r.fail has set for the whole run; `outputs` what RecordOutput was given;
-- `browser_jobs` are the jobs that this run has queued for the browser and `completed` the ids of the
-- jobs that it has completed in the database itself, both as committed.
pub record Runner : Type 0 where
  pub stats : Stats
  pub hosts : HostGate
  pub outputs : List Output
  pub browser_jobs : List Job
  pub completed : List ℕ
  pub stop : Option Str

-- What InsertTx answers: an error, a new job, or that the job is skipped as a duplicate of one that is
-- there. The code does not look at which of the last two it is.
pub data Insertion : Type 0 where
  not_inserted : Str → Insertion
  inserted_new : Insertion
  skipped_duplicate : Insertion

-- What the outside answers during one job: whether the job's context is over when the extraction
-- returns and when the sink does, the extraction, the sink, RecordOutput, the four calls of the
-- hand-off's transaction, and the random part of a delay.
pub record Answers : Type 0 where
  pub cancelled : Bool
  pub cancelled_later : Bool
  pub extracted : Fallible Result
  pub sink : Fallible Str
  pub recorded : Option Str
  pub begun : Option Str
  pub inserted : Insertion
  pub completed : Option Str
  pub committed : Option Str
  pub random : ℕ

-- string(provider)
unfoldable pub provider_string : Provider → Str
provider_string tls = codes "tls"
provider_string patchright = codes "patchright"
provider_string capsolver = codes "capsolver"
provider_string replay = codes "replay"
provider_string unset = []

last_attempt : List Attempt → Option Attempt
last_attempt [] = none
last_attempt (a ∷ []) = some a
last_attempt (a ∷ b ∷ rest) = last_attempt (b ∷ rest)

unfoldable pub output_of : Result → Output
unfolding provider_string last_attempt
output_of r = elim (last_attempt r.attempts) [
  | none ↦ record {
    outcome = r.outcome;
    provider = provider_string r.provider;
    status_code = 0;
    detail = [];
    content_ref = [];
  }
  | some a ↦ record {
    outcome = r.outcome;
    provider = provider_string r.provider;
    status_code = a.status;
    detail = a.detail;
    content_ref = [];
  }
]

unfoldable pub describe : Result → Str
describe r =
    let output = output_of r in
    if str_eq output.detail []
    then if output.status_code == 0 then r.outcome else codes "status " ++ itoa output.status_code
    else output.detail

-- jittered, for a random number below the delay; a delay that is negative or 0 is none.
unfoldable pub jittered : ℕ → ℕ → ℕ
jittered random delay = if (delay == 0) || is_negative delay then 0 else delay / 2 + random

unfoldable pub snooze : ℕ → Runner → Verdict × Runner
snooze delay r =
    let s = r.stats in (snoozed delay, record r { stats = record s { deferred = s.deferred + 1 } })

-- RecordOutput, and what follows where it succeeds.
record_output : Answers → Output → Runner → (Runner → Verdict × Runner) → Verdict × Runner
record_output a output r next = elim a.recorded [
  | some message ↦ (fault message, r)
  | none ↦ next (record r { outputs = r.outputs ++ output ∷ [] })
]

stopped_by : Answers → Str → Runner → Runner
stopped_by a message r = if a.cancelled_later then r else record r { stop = some message }

unfoldable pub store : Answers → Result → Runner → Verdict × Runner
unfolding record_output stopped_by
store a result r = elim a.sink [
  | err e ↦ snooze 0 (stopped_by a e.message r)
  | ok ref ↦
      let output = output_of result in
      record_output a (record output { content_ref = ref }) r
        (λ t. let s = t.stats in (complete, record t { stats = record s { done = s.done + 1 } }))
]

unfoldable pub dead : Answers → Result → Runner → Verdict × Runner
unfolding record_output
dead a result r =
    let s = r.stats in
    record_output a (output_of result) (record r { stats = record s { dead = s.dead + 1 } })
      (λ t. (cancel (codes "dead: " ++ describe result), t))

unfoldable pub failure : Answers → Result → Runner → Verdict × Runner
unfolding record_output
failure a result r =
    record_output a (output_of result) r
      (λ t. (fault (result.outcome ++ (codes ": " ++ describe result)), t))

abbrev pub count_failed : Runner → Runner
count_failed r = let s = r.stats in record r { stats = record s { failed = s.failed + 1 } }

-- The open transaction of handOff: the jobs that it inserts and the ids of those that it completes.
pub record Tx : Type 0 where
  pub queued : List Job
  pub finished : List ℕ

pub data TxResult : Type 0 where
  failed_tx : Str → TxResult
  open_tx : Tx → TxResult

begin_tx : Option Str → TxResult
begin_tx (some e) = failed_tx e
begin_tx none = open_tx (record { queued = []; finished = [] })

insert_tx : Insertion → Job → TxResult → TxResult
insert_tx answer job (failed_tx e) = failed_tx e
insert_tx (not_inserted e) job (open_tx t) = failed_tx e
insert_tx inserted_new job (open_tx t) = open_tx (record t { queued = t.queued ++ job ∷ [] })
insert_tx skipped_duplicate job (open_tx t) = open_tx t

complete_tx : Option Str → Job → TxResult → TxResult
complete_tx answer job (failed_tx e) = failed_tx e
complete_tx (some e) job (open_tx t) = failed_tx e
complete_tx none job (open_tx t) = open_tx (record t { finished = t.finished ++ job.id ∷ [] })

hand_off_error : Job → Str → Runner → Verdict × Runner
hand_off_error job e r =
    (fault (codes "batch: hand " ++ (job.url ++ (codes " to the browser stage: " ++ e))), r)

-- The commit, with which what the transaction did takes effect; an error rolls it back.
commit_tx : Option Str → Job → Runner → TxResult → Verdict × Runner
unfolding hand_off_error
commit_tx answer job r (failed_tx e) = hand_off_error job e r
commit_tx (some e) job r (open_tx t) = hand_off_error job e r
commit_tx none job r (open_tx t) =
    let s = r.stats in
    (
      complete,
      record r {
        stats = record s { needs_browser = s.needs_browser + 1 };
        browser_jobs = r.browser_jobs ++ t.queued;
        completed = r.completed ++ t.finished;
      },
    )

-- handOff behind RecordOutput.
hand_off_tx : Answers → Job → Runner → Verdict × Runner
unfolding begin_tx insert_tx complete_tx commit_tx
hand_off_tx a job r =
    commit_tx a.committed job r
      (complete_tx a.completed job (insert_tx a.inserted job (begin_tx a.begun)))

unfoldable pub hand_off : Answers → Job → Result → Runner → Verdict × Runner
unfolding record_output hand_off_tx
hand_off a job result r = record_output a (output_of result) r (hand_off_tx a job)

-- The switch of httpWorker.Work on the outcome.
http_outcome : Answers → Job → Result → Runner → Verdict × Runner
http_outcome a job result r =
    if str_eq result.outcome (codes "ok")
    then store a result r
    else if str_eq result.outcome (codes "dead")
    then dead a result r
    else if str_eq result.outcome outcome_needs_browser
    then hand_off a job result r
    else failure a result (count_failed r)

browser_outcome : Answers → Result → Runner → Verdict × Runner
browser_outcome a result r =
    if str_eq result.outcome (codes "ok")
    then store a result r
    else if str_eq result.outcome (codes "dead")
    then dead a result r
    else failure a result (count_failed r)

http_extracted : Answers → Job → Fallible Result → Runner → Verdict × Runner
unfolding http_outcome
http_extracted a job (err e) r = (fault e.message, count_failed r)
http_extracted a job (ok result) r = http_outcome a job result r

browser_extracted : Options → Answers → Fallible Result → Runner → Verdict × Runner
unfolding browser_outcome
browser_extracted o a (err e) r =
    if e.saturated || e.unavailable
    then snooze (jittered a.random o.capacity_delay) r
    else (fault e.message, count_failed r)
browser_extracted o a (ok result) r = browser_outcome a result r

-- The part of Work behind the gate, which the deferred release ends.
abbrev pub released : Str → Verdict × Runner → Verdict × Runner
released host (v, r) = (v, record r { hosts = release r.hosts host })

gated :
    Options
    → Answers
    → Job
    → (Runner → Verdict × Runner)
    → Runner
    → HostGate × Bool
    → Verdict × Runner
gated o a job body r (g, false) =
    snooze (jittered a.random o.host_busy_delay) (record r { hosts = g })
gated o a job body r (g, true) =
    released job.host
      (let t : Runner = record r { hosts = g } in if a.cancelled then snooze 0 t else body t)

-- Work of the two workers.
unfoldable pub http_work : Options → Answers → Job → Runner → Verdict × Runner
unfolding gated http_extracted
http_work o a job r = gated o a job (http_extracted a job a.extracted) r (acquire r.hosts job.host)

unfoldable pub browser_work : Options → Answers → Job → Runner → Verdict × Runner
unfolding gated browser_extracted
browser_work o a job r =
    gated o a job (browser_extracted o a a.extracted) r (acquire r.hosts job.host)
