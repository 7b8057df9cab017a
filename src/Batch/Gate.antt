-- ===== src/Batch/Gate.antt =====
-- The limit of jobs per host: hostGate of pkg/batch/batch.go.
pub mod Laws
use pagelode.Prelude.{
  ℕ, ◌+◌, ◌-◌, Str, List, [], ◌∷◌, ◌++◌, Bool, true, false, leb, if◌then◌else◌, Dict, get, put,
  remove, get_or, ◌≡◌,
}

pub record HostGate : Type 0 where
  pub limit : ℕ
  pub in_flight : Dict ℕ

abbrev pub new_host_gate : ℕ → HostGate
new_host_gate limit = record { limit = limit; in_flight = [] }

-- g.inFlight[host]
abbrev pub flying : HostGate → Str → ℕ
flying g host = get_or g.in_flight host 0

unfoldable pub acquire : HostGate → Str → HostGate × Bool
acquire g host =
    if leb g.limit (flying g host)
    then (g, false)
    else (record g { in_flight = put g.in_flight host (flying g host + 1) }, true)

unfoldable pub release : HostGate → Str → HostGate
release g host =
    if leb (flying g host) 1
    then record g { in_flight = remove g.in_flight host }
    else record g { in_flight = put g.in_flight host (flying g host - 1) }

-- The workers of a run: the gate, and the hosts of the jobs that passed it and have not ended.
pub record Jobs : Type 0 where
  pub gate : HostGate
  pub running : List Str

-- A job passes the gate, is turned away, or ends.
pub data Step : Jobs → Jobs → Type 0 where
  start :
      (g g' : HostGate) (jobs : List Str) (host : Str)
      → acquire g host ≡ (g', true)
      → Step (record { gate = g; running = jobs }) (record { gate = g'; running = host ∷ jobs })
  turn_away :
      (g g' : HostGate) (jobs : List Str) (host : Str)
      → acquire g host ≡ (g', false)
      → Step (record { gate = g; running = jobs }) (record { gate = g'; running = jobs })
  finish :
      (g : HostGate) (before after : List Str) (host : Str)
      → Step
          (record { gate = g; running = before ++ host ∷ after })
          (record { gate = release g host; running = before ++ after })

pub data Reach (s : Jobs) : Jobs → Type 0 where
  here : Reach s s
  next : {t u : Jobs} → Reach s t → Step t u → Reach s u
