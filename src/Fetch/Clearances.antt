-- ===== src/Fetch/Clearances.antt =====
-- The stored clearances of hosts: pkg/fetch/clearances.go, modelled as Fetch/Routes.antt is.
pub mod Laws
use pagelode.Prelude.{
  ℕ, ◌+◌, Str, List, [], ◌∷◌, Option, none, some, Bool, true, false, ltb, if◌then◌else◌, Dict, get,
  put, remove,
}
use pagelode.Fetch.Page.{Session, replayable}
use pagelode.Fetch.Routes.{normalize_host}

-- A stored clearance, as the store sees it.
pub record Clearance : Type 0 where
  pub host : Str
  pub session : Session
  pub expires : ℕ

-- The type clearance of the map's values.
pub record Held : Type 0 where
  pub session : Session
  pub expires : ℕ

pub record Clearances : Type 0 where
  pub ttl : ℕ
  pub entries : Dict Held
  pub stored : Bool

abbrev pub new_clearances : ℕ → Clearances
new_clearances ttl = record { ttl = ttl; entries = []; stored = false }

restore_entries : Dict Held → List Clearance → Dict Held
restore_entries m [] = m
restore_entries m (c ∷ cs) =
    restore_entries
      (put m (normalize_host c.host) (record { session = c.session; expires = c.expires })) cs

-- `none` is the error of LoadClearances.
unfoldable pub restore : Clearances → Option (List Clearance) → Option Clearances
unfolding restore_entries
restore c none = none
restore c (some stored) =
    some (record c { entries = restore_entries c.entries stored; stored = true })

look_up : Clearances → ℕ → Str → Option Held → Clearances × Option Session
look_up c now key none = (c, none)
look_up c now key (some held) =
    if ltb held.expires now
    then (record c { entries = remove c.entries key }, none)
    else (c, some held.session)

-- Get
unfoldable pub get_clearance : Clearances → ℕ → Str → Clearances × Option Session
unfolding look_up
get_clearance c now host = let key = normalize_host host in look_up c now key (get c.entries key)

-- Record; the second result is the call of SaveClearance, if it is made.
unfoldable pub record_clearance : Clearances → ℕ → Str → Session → Clearances × Option Clearance
record_clearance c now host session =
    let key = normalize_host host in
    if replayable session
    then (
      record c {
        entries = put c.entries key (record { session = session; expires = now + c.ttl });
      },
      if c.stored
          then some (record { host = key; session = session; expires = now + c.ttl })
          else none,
    )
    else (c, none)

-- Forget; the second result is the call of DeleteClearance, if it is made.
unfoldable pub forget : Clearances → Str → Clearances × Option Str
forget c host =
    let key = normalize_host host in
    (record c { entries = remove c.entries key }, if c.stored then some key else none)
