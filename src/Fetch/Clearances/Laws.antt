-- ===== src/Fetch/Clearances/Laws.antt =====
-- What the stored clearances of pkg/fetch/clearances.go promise: Get against Record, Forget and
-- expiry.
use pagelode.Prelude.{
  ℕ, ◌+◌, ◌≤◌, Str, Option, none, some, arith, ◌≡◌, str_eq, str_eq_iff, str_eq_refl, Bool-cases,
  inl, inr, leb, ltb, ◌&&◌, if◌then◌else◌, get, get-put, get-remove,
}
use pagelode.Fetch.Page.{Session, replayable}
use pagelode.Fetch.Routes.{normalize_host}
use pagelode.Fetch.Clearances.{Held, Clearances, get_clearance, record_clearance, forget}

-- What a host's entry is worth at a time.
abbrev pub fresh : ℕ → Option Held → Option Session
fresh now none = none
fresh now (some e) = if ltb e.expires now then none else some e.session

pub get_clearance-eq :
    (c : Clearances) (now : ℕ) (host : Str)
    → (get_clearance c now host).1 ≡ fresh now (get c.entries (normalize_host host))
unfolding get_clearance
get_clearance-eq c now host = ground arith

-- After Record of a session at time t, Get answers for any host: with the session, if it is
-- replayable, the host is the same up to case and a final dot, and t + ttl is not past; as before
-- for the other hosts, and for every host if the session is not replayable.
pub get_clearance-record_clearance :
    (c : Clearances) (t now : ℕ) (host other : Str) (session : Session)
    → (get_clearance (record_clearance c t host session).0 now other).1 ≡ (
        if replayable session && str_eq (normalize_host host) (normalize_host other)
        then if leb now (t + c.ttl) then some session else none
        else (get_clearance c now other).1)
unfolding get_clearance record_clearance
get_clearance-record_clearance c t now host other session = ground (
  arith,
  get-put c.entries (normalize_host host) (record { session = session; expires = t + c.ttl })
      (normalize_host other),
)

-- After Forget, Get has nothing for the host at any time, and answers as before for other hosts.
pub get_clearance-forget :
    (c : Clearances) (now : ℕ) (host other : Str)
    → (get_clearance (forget c host).0 now other).1 ≡ (
        if str_eq (normalize_host host) (normalize_host other)
        then none
        else (get_clearance c now other).1)
unfolding get_clearance forget
get_clearance-forget c now host other =
    ground (arith, get-remove c.entries (normalize_host host) (normalize_host other))

-- A Get of one host, which may delete its expired entry, changes no later Get of any host.
pub get_clearance-get_clearance :
    (c : Clearances) (now later : ℕ) (host other : Str)
    → now ≤ later
    → (get_clearance (get_clearance c now host).0 later other).1 ≡ (get_clearance c later other).1
unfolding get_clearance
get_clearance-get_clearance c now later host other le =
    elim (Bool-cases (str_eq (normalize_host host) (normalize_host other))) [
      | inl same ↦ rw ((str_eq_iff _ _).0 same) (
          ground (
            arith,
            get-remove c.entries (normalize_host other) (normalize_host other),
            str_eq_refl (normalize_host other),
          ))
      | inr different ↦
          ground
            (arith, different, get-remove c.entries (normalize_host host) (normalize_host other))
    ]
