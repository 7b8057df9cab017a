-- ===== src/Batch/Tests.antt =====
-- Tests of the models of pkg/batch, and its theorems at concrete inputs.
use pagelode.Prelude.{
  All, ℕ, ◌+◌, ◌≤◌, Str, codes, List, [], ◌∷◌, ◌++◌, none, some, true, false, ◌≡◌, ◌↔◌, ◌⊎◌, refl,
  arith, str_eq, get, put, remove, itoa, length, Bool, trim_space, has_prefix, contains, is_space,
  runes, to_lower,
}
use pagelode.Fetch.Page.{tls, html}
use pagelode.Fetch.Service.Defs.{Fallible, ok, err, FetchError, Result}
use pagelode.Batch.Jobs.{failed, dead, discarded, running, retry_from, state_of, retry}
use pagelode.Batch.Jobs.Laws.{retry_from-state_of, retry-le}
use pagelode.Batch.Options.{
  Options, IsRunnable, with_defaults, with_defaults-IsRunnable, AreWords, filled,
}
use pagelode.Batch.Gate.{new_host_gate, flying, acquire, release, here, next, start}
use pagelode.Batch.Gate.Laws.{occurrences, jobs_within_limit}
use pagelode.Batch.Worker.{
  inserted_new, Answers, Job, Runner, http_work, browser_work, store, snooze, output_of, jittered,
  dead as mark_dead, hand_off, failure,
}
use pagelode.Batch.Worker.Laws.{IsCounted, http_work-IsCounted, browser_work-IsCounted}
use pagelode.Batch.Worker.Gate.{flying-work}
use pagelode.Batch.Worker.Completion.{
  IsStored, IsHandedOff, IsPutOff, http_work-complete, browser_work-capacity,
}
use pagelode.Batch.Import.{
  UrlParts, Client, Entry, import_urls, normalize, take_lines, take_line, take_normalized,
  take_entry, flush, count_results,
}
use pagelode.Batch.Import.Counts.{IsImported, AnswersAll, import_urls-IsImported}
use pagelode.Batch.Writer.{
  Event, Disk, add, close, tick, run, received, new_writer, step, on_record, on_close, on_tick,
  open_and_write, write_record, encode_record, after_write, finish_file, places, rejections,
  file_name,
}
use pagelode.Batch.Writer.Laws.{answered, waiting_of, replies_complete}
use pagelode.Batch.Writer.Places.{IsPlaced, places_hold}

retry_from-state_of_example :
    (retry_from failed ≡ some discarded)
    ↔ ((state_of discarded ≡ failed) × ((failed ≡ failed) ⊎ (failed ≡ dead)))
retry_from-state_of_example = retry_from-state_of failed discarded

retry-le_example :
    (0 ≤ (retry (λ id. some running) (1 ∷ 2 ∷ []) 0).0)
    × ((retry (λ id. some running) (1 ∷ 2 ∷ []) 0).0 ≤ 0 + length {A = ℕ} (1 ∷ 2 ∷ []))
retry-le_example = retry-le (λ id. some running) (1 ∷ 2 ∷ []) 0

abbrev given : Options
given = record {
  owner = codes "me";
  http_workers = 0;
  browser_workers = 2;
  lease = 0;
  page_timeout = 0;
  host_concurrency = 0;
  idle = 0;
  progress_interval = 0;
  host_busy_delay = 0;
  capacity_delay = 0;
  fetch_poll_interval = 0;
}

given-AreWords : AreWords given
given-AreWords = record {
  workers = omega arith;
  browsers = omega arith;
  hosts = omega arith;
  lease = omega arith;
  page_timeout = omega arith;
}

with_defaults-IsRunnable_example : IsRunnable (filled 7 given)
unfolding with_defaults str_eq
with_defaults-IsRunnable_example =
    with_defaults-IsRunnable 7 given {p = filled 7 given} given-AreWords refl

-- A page timeout of -5 seconds, and one with which the sum wraps.
abbrev backwards : Options
backwards = record (filled 7 given) { page_timeout = 18446744068709551616 }

abbrev endless : Options
endless = record (filled 7 given) { page_timeout = 9223372036854775807 }

backwards_accepted :
    (with_defaults 7 backwards ≡ some backwards) × (with_defaults 7 endless ≡ some endless)
unfolding with_defaults filled str_eq
backwards_accepted = (refl, refl)

abbrev host : Str
host = codes "a.io"

jobs_within_limit_example :
    (occurrences host (host ∷ []) ≤ 2)
    × (flying (acquire (new_host_gate 2) host).0 host ≡ occurrences host (host ∷ []))
unfolding acquire get
jobs_within_limit_example =
    jobs_within_limit 2 host
      (next here (start (new_host_gate 2) (acquire (new_host_gate 2) host).0 [] host refl))

abbrev job : Job
job = record { id = 7; url = codes "https://a.io/"; host = host }

abbrev idle_runner : Runner
idle_runner = record {
  stats = record { done = 0; dead = 0; failed = 0; needs_browser = 0; deferred = 0 };
  hosts = new_host_gate 2;
  outputs = [];
  browser_jobs = [];
  completed = [];
  stop = none;
}

abbrev page : Str → Result
page outcome = record {
  url = job.url;
  final_url = job.url;
  title = [];
  content = codes "hi";
  content_type = html;
  provider = tls;
  outcome = outcome;
  links = [];
  attempts = [];
}

abbrev answers : Fallible Result → Answers
answers extracted = record {
  cancelled = false;
  cancelled_later = false;
  extracted = extracted;
  sink = ok (codes "f:1");
  recorded = none;
  begun = none;
  inserted = inserted_new;
  completed = none;
  committed = none;
  random = 0;
}

abbrev good : Answers
good = answers (ok (page (codes "ok")))

abbrev full : FetchError
full = record { message = codes "queue is full"; saturated = true; unavailable = false }

tools : Unit {0}
unfolding http_work browser_work acquire release get put remove str_eq store snooze output_of
    jittered mark_dead hand_off failure run received new_writer step on_record on_close on_tick
    open_and_write write_record encode_record after_write finish_file places rejections file_name
    itoa
tools = tt

http_work-IsCounted_example : IsCounted 0 (http_work given good job idle_runner)
http_work-IsCounted_example = http_work-IsCounted given good job idle_runner

browser_work-IsCounted_example : IsCounted 0 (browser_work given good job idle_runner)
browser_work-IsCounted_example = browser_work-IsCounted given good job idle_runner

flying-work_example :
    (flying (http_work given good job idle_runner).1.hosts host ≡ flying idle_runner.hosts host)
    × (flying (browser_work given good job idle_runner).1.hosts host
        ≡ flying idle_runner.hosts host)
flying-work_example = flying-work given good job idle_runner host

http_work-complete_example :
    IsStored good idle_runner (http_work given good job idle_runner).1
    ⊎ IsHandedOff good job idle_runner (http_work given good job idle_runner).1
unfolding tools
http_work-complete_example = http_work-complete given good job idle_runner refl

browser_work-capacity_example :
    IsPutOff idle_runner (browser_work given (answers (err full)) job idle_runner)
browser_work-capacity_example =
    browser_work-capacity given (answers (err full)) job idle_runner full refl refl

abbrev disk : Disk
disk = record { stamp = codes "t"; opened = none; encoded = none; closed = none }

abbrev session : List Event
session = add 4 disk ∷ add 9 disk ∷ tick true disk ∷ add 5 disk ∷ close disk ∷ []

session_run :
    ((run (new_writer (codes "p")) session).files
      ≡ (codes "p-t-000001.jsonl.gz", 4 ∷ 9 ∷ []) ∷ (codes "p-t-000002.jsonl.gz", 5 ∷ []) ∷ [])
    × (answered (run (new_writer (codes "p")) session).replies ≡ 4 ∷ 9 ∷ 5 ∷ [])
unfolding tools
session_run = (refl, refl)

replies_complete_example :
    (answered (run (new_writer (codes "p")) session).replies
        ++ waiting_of (run (new_writer (codes "p")) session).current
      ≡ received (new_writer (codes "p")) session)
    × ((run (new_writer (codes "p")) session).stopped ≡ true
        → answered (run (new_writer (codes "p")) session).replies
          ≡ received (new_writer (codes "p")) session)
replies_complete_example = replies_complete (codes "p") session

places_hold_example :
    All
      (IsPlaced (run (new_writer (codes "p")) session).files)
      (run (new_writer (codes "p")) session).replies
places_hold_example = places_hold (codes "p") session

-- URLs that are their own parts.
abbrev url_parts : UrlParts Str
url_parts = record {
  parse = λ url. some url;
  scheme = λ url. codes "http";
  hostname = λ url. codes "a.io";
  host = λ url. codes "a.io";
  path = λ url. codes "/";
  opaque = λ url. [];
  set_host = λ host url. url;
  set_path = λ path url. url;
  clear_fragment = λ url. url;
  string = λ url. url;
}

all_new : List Entry → List Bool
all_new [] = []
all_new (e ∷ entries) = false ∷ all_new entries

-- A queue that holds none of the URLs.
abbrev empty_queue : Client ℕ
empty_queue = record { insert_many = λ n entries. (some (all_new entries), n + 1) }

empty_queue-AnswersAll : AnswersAll empty_queue
unfolding all_new
empty_queue-AnswersAll w [] results e = ground arith
empty_queue-AnswersAll w (x ∷ entries) results e =
    ground (arith, empty_queue-AnswersAll w entries (all_new entries) refl)

abbrev input : List Str
input =
    codes "# pages" ∷ codes "a.io/x" ∷ codes "a.io/y" ∷ [] ∷ codes "a.io/y" ∷ codes "a.io/z" ∷ []

import_urls-IsImported_example :
    IsImported url_parts input (import_urls url_parts empty_queue 3 false input 0)
import_urls-IsImported_example =
    import_urls-IsImported url_parts empty_queue empty_queue-AnswersAll 3 false input 0

import_counts :
    (import_urls url_parts empty_queue 3 false input 0).1.stats
    ≡ record { lines = 4; invalid = 0; inserted = 3; duplicates = 1 }
unfolding import_urls take_lines take_line take_normalized take_entry flush count_results normalize
    str_eq trim_space has_prefix contains is_space runes to_lower all_new
import_counts = refl
