-- ===== src/Batch/Gate/Laws.antt =====
-- The gate of pkg/batch/batch.go counts the running jobs of each host, and keeps them below the
-- limit.
use mathlib.Core.Path.{subst}
use pagelode.Prelude.{
  sym, ap, ◌∙◌, ℕ, suc, ◌+◌, ◌-◌, ◌≤◌, ◌<◌, Str, List, [], ◌∷◌, ◌++◌, true, false, ◌≡◌, refl, arith,
  str_eq, str_eq_iff, if◌then◌else◌, get, get_or-put, get_or-remove, inl, inr, Bool-cases,
}
use pagelode.Batch.Gate.{
  HostGate, new_host_gate, flying, acquire, release, Jobs, Step, start, turn_away, finish, Reach,
  here, next,
}

-- How often a host stands in a list.
abbrev pub occurrences : Str → List Str → ℕ
occurrences host [] = 0
occurrences host (h ∷ hs) =
    let rest = occurrences host hs in if str_eq h host then suc rest else rest

occurrences-append :
    (host : Str) (xs ys : List Str)
    → occurrences host (xs ++ ys) ≡ occurrences host xs + occurrences host ys
occurrences-append host [] ys = omega arith
occurrences-append host (x ∷ xs) ys = ground (arith, occurrences-append host xs ys)

-- A job that passes raises the count of its own host, which was below the limit, and no other.
pub acquire_lem :
    (g g' : HostGate) (host other : Str)
    → acquire g host ≡ (g', true)
    → (flying g host < g.limit)
      × (g'.limit ≡ g.limit)
      × (flying g' other ≡ (if str_eq host other then flying g host + 1 else flying g other))
unfolding acquire
acquire_lem g g' host other e =
    ground (arith, get_or-put g.in_flight host (flying g host + 1) other 0)

pub turned_away : (g g' : HostGate) (host : Str) → acquire g host ≡ (g', false) → g' ≡ g
unfolding acquire
turned_away g g' host e = ground arith

-- A job that ends lowers the count of its own host and no other.
pub release_lem :
    (g : HostGate) (host other : Str)
    → flying (release g host) other
      ≡ (if str_eq host other then flying g host - 1 else flying g other)
unfolding release
release_lem g host other = ground (
  arith,
  get_or-put g.in_flight host (flying g host - 1) other 0,
  get_or-remove g.in_flight host other 0,
)

limit-release : (g : HostGate) (host : Str) → (release g host).limit ≡ g.limit
unfolding release
limit-release g host = ground arith

-- What holds between two steps, for every host.
pub record IsExact (s : Jobs) : Type 0 where
  pub counted : (host : Str) → flying s.gate host ≡ occurrences host s.running
  pub limited : (host : Str) → occurrences host s.running ≤ s.gate.limit

-- A host that is spelled the same has the same count.
same_count :
    (hs : List Str) (host other : Str)
    → str_eq host other ≡ true
    → occurrences host hs ≡ occurrences other hs
same_count hs host other same = ap (λ h. occurrences h hs) ((str_eq_iff host other).0 same)

module _ (g g' : HostGate) (jobs : List Str) (host : Str) (e : acquire g host ≡ (g', true))
    (x : IsExact (record { gate = g; running = jobs })) where
  start-counted : (other : Str) → flying g' other ≡ occurrences other (host ∷ jobs)
  start-counted other =
      let (room, same_limit, count) = acquire_lem g g' host other e in
      elim (Bool-cases (str_eq host other)) [
        | inl same ↦ ground (arith, count, same, x.counted host, same_count jobs host other same)
        | inr different ↦ ground (arith, count, different, x.counted other)
      ]

  start-limited : (other : Str) → occurrences other (host ∷ jobs) ≤ g'.limit
  start-limited other =
      let (room, same_limit, count) = acquire_lem g g' host other e in
      elim (Bool-cases (str_eq host other)) [
        | inl same ↦
            ground (arith, room, same, same_limit, x.counted host, same_count jobs host other same)
        | inr different ↦ ground (arith, different, same_limit, x.limited other)
      ]

module _ (g : HostGate) (before after : List Str) (host : Str)
    (x : IsExact (record { gate = g; running = before ++ host ∷ after })) where
  without :
      (other : Str)
      → occurrences other (before ++ host ∷ after)
        ≡ occurrences other (before ++ after) + (if str_eq host other then 1 else 0)
  without other =
      ground (
        arith,
        occurrences-append other before (host ∷ after),
        occurrences-append other before after,
      )

  finish-counted :
      (other : Str) → flying (release g host) other ≡ occurrences other (before ++ after)
  finish-counted other =
      let count = release_lem g host other in
      elim (Bool-cases (str_eq host other)) [
        | inl same ↦ ground (
          arith,
          count,
          same,
          x.counted host,
          without other,
          same_count (before ++ host ∷ after) host other same,
        )
        | inr different ↦ ground (arith, count, different, x.counted other, without other)
      ]

  finish-limited : (other : Str) → occurrences other (before ++ after) ≤ (release g host).limit
  finish-limited other = ground (arith, limit-release g host, x.limited other, without other)

Step-IsExact : {s t : Jobs} → Step s t → IsExact s → IsExact t
Step-IsExact (start g g' jobs host e) x = record {
  counted = start-counted g g' jobs host e x;
  limited = start-limited g g' jobs host e x;
}
Step-IsExact (turn_away g g' jobs host e) x =
    subst (λ h. IsExact (record { gate = h; running = jobs })) (sym (turned_away g g' host e)) x
Step-IsExact (finish g before after host) x = record {
  counted = finish-counted g before after host x;
  limited = finish-limited g before after host x;
}

Reach-IsExact : {s t : Jobs} → IsExact s → Reach s t → IsExact t
Reach-IsExact x here = x
Reach-IsExact x (next r st) = Step-IsExact st (Reach-IsExact x r)

limit-Step : {s t : Jobs} → Step s t → t.gate.limit ≡ s.gate.limit
limit-Step (start g g' jobs host e) = (acquire_lem g g' host host e).1
limit-Step (turn_away g g' jobs host e) = ap (λ h. h.limit) (turned_away g g' host e)
limit-Step (finish g before after host) = limit-release g host

limit-Reach : {s t : Jobs} → Reach s t → t.gate.limit ≡ s.gate.limit
limit-Reach here = refl
limit-Reach (next r st) = limit-Step st ∙ limit-Reach r

-- However the jobs of a run start, are turned away and end, no host ever has more of them running
-- than the limit, and the gate's count for a host is the number of its running jobs; so a host with
-- no running job is back at 0.
pub jobs_within_limit :
    (limit : ℕ) {t : Jobs} (host : Str)
    → Reach (record { gate = new_host_gate limit; running = [] }) t
    → (occurrences host t.running ≤ limit) × (flying t.gate host ≡ occurrences host t.running)
unfolding get
jobs_within_limit limit host r =
    let x = Reach-IsExact (record { counted = λ h. refl; limited = λ h. omega arith }) r in
    (omega (arith, x.limited host, limit-Reach r), x.counted host)
