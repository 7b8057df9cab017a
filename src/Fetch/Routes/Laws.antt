-- ===== src/Fetch/Routes/Laws.antt =====
-- What the learned routes of pkg/fetch/routes.go promise: Preferred against Record, Size and the
-- protected suffixes.
use pagelode.Prelude.{
  ℕ, ◌+◌, ◌≤◌, Str, [], ◌∷◌, Option, none, some, arith, ◌≡◌, ◌≢◌, refl, str_eq, str_eq_iff, leb,
  ltb, if◌then◌else◌, Dict, get, get-put, Bool-cases, IsMap, inl, inr,
}
use pagelode.Fetch.Page.{Provider, tls, patchright}
use pagelode.Fetch.Routes.{
  Entry, Routes, normalize_host, is_protected, preferred, record_route, prune, size,
}

-- What a host's entry is worth at a time.
abbrev pub fresh : ℕ → Option Entry → Option Provider
fresh now none = none
fresh now (some e) = if ltb e.expires now then none else some e.provider

pub preferred-eq :
    (r : Routes) (now : ℕ) (host : Str)
    → (preferred r now host).1 ≡ (
        if is_protected r.protected (normalize_host host)
        then some patchright
        else fresh now (get r.entries (normalize_host host)))
unfolding preferred
preferred-eq r now host = ground arith

-- After Record of a provider other than tls at time t, Preferred answers for any host: with the
-- browser, if the host is protected; with that provider while t + ttl is not past and with nothing
-- later, if the host is the same up to case and a final dot; and as before for any other host.
pub preferred-record_route :
    (r : Routes) (t now : ℕ) (host other : Str) (p : Provider)
    → p ≢ tls
    → (preferred (record_route r t host p).0 now other).1 ≡ (
        if is_protected r.protected (normalize_host other)
        then some patchright
        else if str_eq (normalize_host host) (normalize_host other)
        then if leb now (t + r.ttl) then some p else none
        else (preferred r now other).1)
unfolding preferred record_route
preferred-record_route r t now host other tls h = absurd (h refl)
preferred-record_route r t now host other p h = ground (
  arith,
  get-put r.entries (normalize_host host) (record { provider = p; expires = t + r.ttl })
      (normalize_host other),
)

fresh-get-prune :
    (now later : ℕ) (m : Dict Entry) (k : Str)
    → IsMap m
    → now ≤ later
    → fresh later (get (prune now m) k) ≡ fresh later (get m k)
unfolding prune get
fresh-get-prune now later [] k h le = refl
fresh-get-prune now later ((i, v) ∷ m) k (absent, h) le = elim (Bool-cases (str_eq i k)) [
  | inl same ↦
      let none_left : get m k ≡ none = rw ((str_eq_iff i k).0 same) at absent in
      ground (arith, same, none_left, fresh-get-prune now later m k h le)
  | inr other ↦ ground (arith, other, fresh-get-prune now later m k h le)
]

-- Where no host stands twice in the map, Size at one time changes no answer of Preferred at that
-- time or later.
pub preferred-size :
    (r : Routes) (now later : ℕ) (host : Str)
    → IsMap r.entries
    → now ≤ later
    → (preferred (size r now).0 later host).1 ≡ (preferred r later host).1
unfolding size
preferred-size r now later host h le =
    simp preferred-eq (rw (fresh-get-prune now later r.entries (normalize_host host) h le))
