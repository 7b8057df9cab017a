-- ===== src/Fetch/Routes.antt =====
-- The learned routes of hosts: pkg/fetch/routes.go. A time is a number of nanoseconds; the clock
-- is read by the caller and handed in. A call of the store is what a function returns beside the
-- new state: its error is only logged.
pub mod Laws
pub mod Restore
use pagelode.Prelude.{
  ℕ, ◌+◌, Str, codes, List, [], ◌∷◌, ◌++◌, Option, none, some, Bool, true, false, ◌||◌, str_eq,
  has_suffix, trim_suffix, to_lower, any, ltb, if◌then◌else◌, Dict, get, put, remove, length,
}
use pagelode.Fetch.Page.{Provider, tls, patchright}

pub record Route : Type 0 where
  pub host : Str
  pub provider : Provider
  pub expires : ℕ

pub record Entry : Type 0 where
  pub provider : Provider
  pub expires : ℕ

-- `stored` says whether a store is attached.
pub record Routes : Type 0 where
  pub ttl : ℕ
  pub protected : List Str
  pub entries : Dict Entry
  pub stored : Bool

unfoldable pub normalize_host : Str → Str
normalize_host host = to_lower (trim_suffix host (codes "."))

abbrev pub new_routes : ℕ → List Str → Routes
new_routes ttl protected = record { ttl = ttl; protected = protected; entries = []; stored = false }

-- The loop of Restore over the loaded routes.
restore_entries : Dict Entry → List Route → Dict Entry
restore_entries m [] = m
restore_entries m (r ∷ rs) =
    restore_entries
      (put m (normalize_host r.host) (record { provider = r.provider; expires = r.expires })) rs

-- `none` is the error of LoadRoutes, which leaves the routes as they were.
unfoldable pub restore : Routes → Option (List Route) → Option Routes
unfolding restore_entries
restore r none = none
restore r (some routes) =
    some (record r { entries = restore_entries r.entries routes; stored = true })

-- The loop of Preferred over the protected suffixes.
unfoldable pub is_protected : List Str → Str → Bool
is_protected suffixes host =
    any (λ suffix. str_eq host suffix || has_suffix host (codes "." ++ suffix)) suffixes

-- The map's part of Preferred, with the host normalized.
look_up : Routes → ℕ → Str → Option Entry → Routes × Option Provider
look_up r now host none = (r, none)
look_up r now host (some value) =
    if ltb value.expires now
    then (record r { entries = remove r.entries host }, none)
    else (r, some value.provider)

unfoldable pub preferred : Routes → ℕ → Str → Routes × Option Provider
unfolding look_up
preferred r now host =
    let key = normalize_host host in
    if is_protected r.protected key
    then (r, some patchright)
    else look_up r now key (get r.entries key)

record_known : Routes → ℕ → Str → Provider → Routes × Option Route
record_known r now host provider =
    let route : Route = record {
      host = normalize_host host;
      provider = provider;
      expires = now + r.ttl;
    } in
    (
      record r {
        entries =
            put r.entries route.host (record { provider = provider; expires = route.expires });
      },
      if r.stored then some route else none,
    )

-- Record; the second result is the call of SaveRoute, if it is made.
unfoldable pub record_route : Routes → ℕ → Str → Provider → Routes × Option Route
unfolding record_known
record_route r now host tls = (r, none)
record_route r now host provider = record_known r now host provider

-- The loop of Size: expired entries are deleted.
prune : ℕ → Dict Entry → Dict Entry
prune now [] = []
prune now ((host, value) ∷ m) =
    let rest = prune now m in if ltb value.expires now then rest else (host, value) ∷ rest

unfoldable pub size : Routes → ℕ → Routes × ℕ
unfolding prune
size r now = let left = prune now r.entries in (record r { entries = left }, length left)
