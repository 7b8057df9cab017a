-- ===== src/Fetch/Limiter/Bounds.antt =====
-- Every interleaving of calls of Run keeps the limits: pkg/fetch/limit.go.
use pagelode.Prelude.{sym, ◌∙◌, ℕ, zero, suc, ◌+◌, ◌≤◌, ◌≡◌, refl, List, [], ◌∷◌, ◌++◌, arith}
use pagelode.Fetch.Limiter.{
  Place, Limiter, new_limiter, Move, take_slot, count_in, give_back, count_out, no_slot, wait,
  refuse, turn_away, admit, cancel, count_admitted, give_back_admitted, count_served, part, System,
  Step, step, Reach, here, next, idle, holds, counted, waits, let_wait, works, total,
}

-- The shared numbers are what the goroutines account for, and the limits hold.
pub record IsCounted (s : System) : Type 0 where
  pub slots : s.limiter.slots ≡ total holds s.places
  pub active : s.limiter.active ≡ total counted s.places
  pub waiting : s.limiter.waiting ≡ total waits s.places
  pub room : s.limiter.slots ≤ s.limiter.concurrency
  pub patience : total let_wait s.places ≤ s.limiter.max_waiting

total-append : (f : Place → ℕ) (xs ys : List Place) → total f (xs ++ ys) ≡ total f xs + total f ys
total-append f [] ys = omega arith
total-append f (x ∷ xs) ys = omega (arith, total-append f xs ys)

let_wait-le-waits : (ps : List Place) → total let_wait ps ≤ total waits ps
let_wait-le-waits [] = omega arith
let_wait-le-waits (p ∷ ps) = ground (arith, let_wait-le-waits ps)

works-le-holds : (ps : List Place) → total works ps ≤ total holds ps
works-le-holds [] = omega arith
works-le-holds (p ∷ ps) = ground (arith, works-le-holds ps)

-- The four sums with one goroutine taken out.
module _ (before after : List Place) where
  abbrev around : (Place → ℕ) → ℕ
  around f = total f before + total f after

  total-around : (f : Place → ℕ) (p : Place) → total f (before ++ p ∷ after) ≡ around f + f p
  total-around f p = omega (arith, total-append f before (p ∷ after))

  record IsKept (l : Limiter) (p : Place) : Type 0 where
    slots : l.slots ≡ around holds + holds p
    active : l.active ≡ around counted + counted p
    waiting : l.waiting ≡ around waits + waits p
    room : l.slots ≤ l.concurrency
    patience : around let_wait + let_wait p ≤ l.max_waiting

  Move-IsKept :
      {l l' : Limiter} {p q : Place}
      → around let_wait ≤ around waits
      → Move l p q l'
      → IsKept l p
      → IsKept l' q
  Move-IsKept le (take_slot h) k = omega arith
  Move-IsKept le count_in k = omega arith
  Move-IsKept le (give_back h) k = omega arith
  Move-IsKept le count_out k = omega arith
  Move-IsKept le (no_slot h) k = omega arith
  Move-IsKept le (wait h) k = omega arith
  Move-IsKept le (refuse h) k = omega arith
  Move-IsKept le turn_away k = omega arith
  Move-IsKept le (admit h) k = omega arith
  Move-IsKept le cancel k = omega arith
  Move-IsKept le count_admitted k = omega arith
  Move-IsKept le (give_back_admitted h) k = omega arith
  Move-IsKept le count_served k = omega arith
  Move-IsKept le part k = omega arith

Step-IsCounted : {s t : System} → Step s t → IsCounted s → IsCounted t
Step-IsCounted (step l l' p q before after move) c =
    let sum = total-around before after in
    let le : around before after let_wait ≤ around before after waits =
      omega (arith, let_wait-le-waits before, let_wait-le-waits after) in
    let k : IsKept before after l' q = Move-IsKept before after le move (record {
      slots = c.slots ∙ sum holds p;
      active = c.active ∙ sum counted p;
      waiting = c.waiting ∙ sum waits p;
      room = c.room;
      patience = omega (arith, c.patience, sum let_wait p);
    }) in
    record {
      slots = k.slots ∙ sym (sum holds q);
      active = k.active ∙ sym (sum counted q);
      waiting = k.waiting ∙ sym (sum waits q);
      room = k.room;
      patience = omega (arith, k.patience, sum let_wait q);
    }

Reach-IsCounted : {s t : System} → IsCounted s → Reach s t → IsCounted t
Reach-IsCounted c here = c
Reach-IsCounted c (next r st) = Step-IsCounted st (Reach-IsCounted c r)

total-idle :
    (n : ℕ)
    → (total holds (idle n) ≡ 0)
      × (total counted (idle n) ≡ 0)
      × (total waits (idle n) ≡ 0)
      × (total let_wait (idle n) ≡ 0)
total-idle zero = (refl, refl, refl, refl)
total-idle (suc n) =
    let (a, b, c, d) = total-idle n in (omega arith, omega arith, omega arith, omega arith)

abbrev pub started : ℕ → ℕ → ℕ → System
started concurrency max_waiting n = record {
  limiter = new_limiter concurrency max_waiting;
  places = idle n;
}

started-IsCounted : (concurrency max_waiting n : ℕ) → IsCounted (started concurrency max_waiting n)
started-IsCounted concurrency max_waiting n =
    let (a, b, c, d) = total-idle n in
    record {
      slots = sym a;
      active = sym b;
      waiting = sym c;
      room = omega arith;
      patience = omega (arith, d);
    }

Move-limits :
    {l l' : Limiter} {p q : Place}
    → Move l p q l'
    → (l'.concurrency ≡ l.concurrency) × (l'.max_waiting ≡ l.max_waiting)
Move-limits (take_slot h) = (refl, refl)
Move-limits _ = (refl, refl)

Step-limits :
    {s t : System}
    → Step s t
    → (t.limiter.concurrency ≡ s.limiter.concurrency)
      × (t.limiter.max_waiting ≡ s.limiter.max_waiting)
Step-limits (step l l' p q before after move) = Move-limits move

Reach-limits :
    {s t : System}
    → Reach s t
    → (t.limiter.concurrency ≡ s.limiter.concurrency)
      × (t.limiter.max_waiting ≡ s.limiter.max_waiting)
Reach-limits here = (refl, refl)
Reach-limits (next r st) =
    let (a, b) = Step-limits st in let (c, d) = Reach-limits r in (a ∙ c, b ∙ d)

module _ (concurrency max_waiting n : ℕ) {t : System}
    (r : Reach (started concurrency max_waiting n) t) where
  -- However the calls of n goroutines interleave, at most `concurrency` of them run their work, at
  -- most `max_waiting` of them were let wait and have not returned, and no slot or count is lost:
  -- the channel and the two counters are what the goroutines at each place account for.
  pub limits_hold :
      (total works t.places ≤ concurrency)
      × (total let_wait t.places ≤ max_waiting)
      × (t.limiter.slots ≡ total holds t.places)
      × (t.limiter.active ≡ total counted t.places)
      × (t.limiter.waiting ≡ total waits t.places)
  limits_hold =
      let c = Reach-IsCounted (started-IsCounted concurrency max_waiting n) r in
      let (same, also) = Reach-limits r in
      (
        omega (arith, works-le-holds t.places, c.slots, c.room, same),
        omega (arith, c.patience, also),
        c.slots,
        c.active,
        c.waiting,
      )
