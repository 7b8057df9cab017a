-- ===== src/Fetch/Limiter.antt =====
-- The limiter of concurrent work: pkg/fetch/limit.go. Goroutines run Run at once; each of its
-- atomic steps is one step of the relation, so a run of the relation is an interleaving.
pub mod Bounds
use pagelode.Prelude.{ℕ, zero, suc, ◌+◌, ◌-◌, ◌≤◌, ◌<◌, ◌≡◌, List, [], ◌∷◌, ◌++◌}

-- Where a goroutine stands in Run.
--   outside: before the call or after it
--   entered: holds a slot by the first select, active not yet counted
--   working: counted in active, and running work; from the first select
--   leaving: slot given back, active still to be lowered
--   queued: the first select found no slot, waiting not yet raised
--   refused: waiting was raised above the limit, and is to be lowered again
--   blocked: waits in the second select
--   admitted, serving, closing: as entered, working and leaving, from the second select
--   parting: only the deferred lowering of waiting is left
pub data Place : Type 0 where
  outside entered working leaving queued refused blocked admitted serving closing parting : Place

-- `slots` is the number of values in the channel; the counters are int64 in the source, and the
-- invariant shows that they neither fall below 0 nor pass the number of goroutines.
pub record Limiter : Type 0 where
  pub concurrency : ℕ
  pub max_waiting : ℕ
  pub slots : ℕ
  pub active : ℕ
  pub waiting : ℕ

abbrev pub new_limiter : ℕ → ℕ → Limiter
new_limiter concurrency max_waiting = record {
  concurrency = concurrency;
  max_waiting = max_waiting;
  slots = 0;
  active = 0;
  waiting = 0;
}

-- One atomic step of one goroutine.
pub data Move (l : Limiter) : Place → Place → Limiter → Type 0 where
  take_slot : l.slots < l.concurrency → Move l outside entered (record l { slots = l.slots + 1 })
  count_in : Move l entered working (record l { active = l.active + 1 })
  give_back : 0 < l.slots → Move l working leaving (record l { slots = l.slots - 1 })
  count_out : Move l leaving outside (record l { active = l.active - 1 })
  no_slot : l.slots ≡ l.concurrency → Move l outside queued l
  wait :
      l.waiting + 1 ≤ l.max_waiting → Move l queued blocked (record l { waiting = l.waiting + 1 })
  refuse :
      l.max_waiting < l.waiting + 1 → Move l queued refused (record l { waiting = l.waiting + 1 })
  turn_away : Move l refused outside (record l { waiting = l.waiting - 1 })
  admit : l.slots < l.concurrency → Move l blocked admitted (record l { slots = l.slots + 1 })
  cancel : Move l blocked parting l
  count_admitted : Move l admitted serving (record l { active = l.active + 1 })
  give_back_admitted : 0 < l.slots → Move l serving closing (record l { slots = l.slots - 1 })
  count_served : Move l closing parting (record l { active = l.active - 1 })
  part : Move l parting outside (record l { waiting = l.waiting - 1 })

-- The limiter and where each goroutine stands.
pub record System : Type 0 where
  pub limiter : Limiter
  pub places : List Place

pub data Step : System → System → Type 0 where
  step :
      (l l' : Limiter) (p q : Place) (before after : List Place)
      → Move l p q l'
      → Step
          (record { limiter = l; places = before ++ p ∷ after })
          (record { limiter = l'; places = before ++ q ∷ after })

pub data Reach (s : System) : System → Type 0 where
  here : Reach s s
  next : {t u : System} → Reach s t → Step t u → Reach s u

-- n goroutines before their calls.
abbrev pub idle : ℕ → List Place
idle zero = []
idle (suc n) = outside ∷ idle n

-- What a goroutine at a place holds: a slot; a count in active; a count in waiting; a count in
-- waiting that was let through.
abbrev pub holds : Place → ℕ
holds entered = 1
holds working = 1
holds admitted = 1
holds serving = 1
holds _ = 0

abbrev pub counted : Place → ℕ
counted working = 1
counted leaving = 1
counted serving = 1
counted closing = 1
counted _ = 0

abbrev pub waits : Place → ℕ
waits refused = 1
waits blocked = 1
waits admitted = 1
waits serving = 1
waits closing = 1
waits parting = 1
waits _ = 0

abbrev pub let_wait : Place → ℕ
let_wait blocked = 1
let_wait admitted = 1
let_wait serving = 1
let_wait closing = 1
let_wait parting = 1
let_wait _ = 0

-- Running the work that was handed to Run.
abbrev pub works : Place → ℕ
works working = 1
works serving = 1
works _ = 0

abbrev pub total : (Place → ℕ) → List Place → ℕ
total f [] = 0
total f (p ∷ ps) = f p + total f ps
