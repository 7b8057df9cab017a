-- ===== src/Batch/Worker/Gate.antt =====
-- A run of a worker of pkg/batch/batch.go leaves the gate as it found it.
use pagelode.Prelude.{
  Str, Bool, true, false, ◌≡◌, inl, inr, refl, arith, Bool-cases, str_eq, str_eq_iff, str_eq_refl,
  ap,
}
use pagelode.Fetch.Service.Defs.{Fallible, ok, err, Result}
use pagelode.Batch.Options.{Options}
use pagelode.Batch.Gate.{HostGate, flying, acquire, release}
use pagelode.Batch.Gate.Laws.{acquire_lem, release_lem, turned_away}
use pagelode.Batch.Worker.{
  Job, Verdict, Runner, Answers, snooze, store, dead, failure, count_failed, hand_off,
  http_extracted, browser_extracted, gated, http_work, browser_work,
}

abbrev KeepsHosts : (Runner → Verdict × Runner) → Type 0
KeepsHosts body = (r : Runner) → (body r).1.hosts ≡ r.hosts

module _ (a : Answers) where
  hosts-store : (result : Result) → KeepsHosts (store a result)
  unfolding store snooze
  hosts-store result r = ground arith

  hosts-dead : (result : Result) → KeepsHosts (dead a result)
  unfolding dead
  hosts-dead result r = ground arith

  hosts-failure : (result : Result) → KeepsHosts (failure a result)
  unfolding failure
  hosts-failure result r = ground arith

  hosts-hand_off : (job : Job) (result : Result) → KeepsHosts (hand_off a job result)
  unfolding hand_off
  hosts-hand_off job result r = ground arith

  hosts-http_extracted : (job : Job) (e : Fallible Result) → KeepsHosts (http_extracted a job e)
  unfolding http_extracted
  hosts-http_extracted job (err e) r = refl
  hosts-http_extracted job (ok result) r = ground (
    arith,
    hosts-store result r,
    hosts-dead result r,
    hosts-hand_off job result r,
    hosts-failure result (count_failed r),
  )

  hosts-browser_extracted :
      (o : Options) (e : Fallible Result) → KeepsHosts (browser_extracted o a e)
  unfolding browser_extracted snooze
  hosts-browser_extracted o (err e) r = ground arith
  hosts-browser_extracted o (ok result) r =
      ground
        (arith, hosts-store result r, hosts-dead result r, hosts-failure result (count_failed r))

-- One unit more and one unit less is where the count was.
acquire-release :
    (g g' : HostGate) (host other : Str)
    → acquire g host ≡ (g', true)
    → flying (release g' host) other ≡ flying g other
acquire-release g g' host other e = elim (Bool-cases (str_eq host other)) [
  | inl same ↦ ground (
    arith,
    release_lem g' host other,
    acquire_lem g g' host host e,
    str_eq_refl host,
    same,
    ap (flying g) ((str_eq_iff host other).0 same),
  )
  | inr different ↦
      ground (arith, release_lem g' host other, acquire_lem g g' host other e, different)
]

module _ (o : Options) (a : Answers) (job : Job) where
  flying-gated :
      (body : Runner → Verdict × Runner) (r : Runner) (other : Str) (x : HostGate × Bool)
      → KeepsHosts body
      → acquire r.hosts job.host ≡ x
      → flying (gated o a job body r x).1.hosts other ≡ flying r.hosts other
  unfolding gated snooze
  flying-gated body r other (g, false) keeps e =
      ap (λ h. flying h other) (turned_away r.hosts g job.host e)
  flying-gated body r other (g, true) keeps e =
      let back = acquire-release r.hosts g job.host other e in
      elim (Bool-cases a.cancelled) [
        | inl over ↦ rw over back
        | inr live ↦ rw live (rw (keeps (record r { hosts = g })) back)
      ]

  flying-http_work :
      (r : Runner) (other : Str) → flying (http_work o a job r).1.hosts other ≡ flying r.hosts other
  unfolding http_work
  flying-http_work r other =
      flying-gated (http_extracted a job a.extracted) r other _
        (hosts-http_extracted a job a.extracted) refl

  flying-browser_work :
      (r : Runner) (other : Str)
      → flying (browser_work o a job r).1.hosts other ≡ flying r.hosts other
  unfolding browser_work
  flying-browser_work r other =
      flying-gated (browser_extracted o a a.extracted) r other _
        (hosts-browser_extracted a o a.extracted) refl

  -- Whatever the page, the sink, the queue and the context answer, a run of the HTTP worker, and one
  -- of the browser worker, gives its place at the gate back: afterwards every host has the count of
  -- running jobs that it had.
  pub flying-work :
      (r : Runner) (other : Str)
      → (flying (http_work o a job r).1.hosts other ≡ flying r.hosts other)
        × (flying (browser_work o a job r).1.hosts other ≡ flying r.hosts other)
  flying-work r other = (flying-http_work r other, flying-browser_work r other)
