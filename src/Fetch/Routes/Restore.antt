-- ===== src/Fetch/Routes/Restore.antt =====
-- A restart: what Restore rebuilds from the routes that Record handed to the store of
-- internal/store/store.go, a table with one row for each host.
use mathlib.Core.Option
use mathlib.Core.List.{Memᴰ}
use mathlib.Core.Path.{subst}
use pagelode.Prelude.{
  ℕ, ◌+◌, ◌<◌, Str, List, [], ◌∷◌, Option, none, some, true, ◌≡◌, refl, ◌∙◌, sym, ap, arith, All,
  Dict, get, put, get-put, leb, ltb, if◌then◌else◌, str_eq, str_eq_iff, Bool-cases, Option-cases,
  inl, inr,
}
use pagelode.Fetch.Page.{Provider, tls}
use pagelode.Fetch.Routes.{
  Entry, Route, Routes, normalize_host, restore, restore_entries, preferred, new_routes,
  record_route, record_known,
}
use pagelode.Fetch.Routes.Laws.{fresh, preferred-eq}

-- One call of Record.
pub record Learned : Type 0 where
  pub at : ℕ
  pub host : Str
  pub provider : Provider

abbrev pub row_entry : Route → Entry
row_entry route = record { provider = route.provider; expires = route.expires }

-- SaveRoute, where it is called: UpsertRoute on the table, whose key is the host; `keep` is the time
-- that the database keeps for a time, which it may round.
unfoldable pub save_row : (ℕ → ℕ) → Dict Entry → Option Route → Dict Entry
save_row keep table none = table
save_row keep table (some route) =
    put table route.host (record { provider = route.provider; expires = keep route.expires })

-- A sequence of calls of Record, with the table that they leave.
unfoldable pub record_all : (ℕ → ℕ) → Routes → Dict Entry → List Learned → Routes × Dict Entry
unfolding save_row
record_all keep r table [] = (r, table)
record_all keep r table (l ∷ ls) =
    let (r', call) = record_route r l.at l.host l.provider in
    record_all keep r' (save_row keep table call) ls

-- The row of a host that DeleteExpiredRoutes leaves at a time: one that expires later.
abbrev pub unexpired : ℕ → Option Entry → Option Entry
unexpired at none = none
unexpired at (some e) = if leb e.expires at then none else some e

abbrev pub live_row : ℕ → Dict Entry → Str → Option Entry
live_row at table host = unexpired at (get table host)

-- The rows that LoadRoutes has at a time: those that are left, in any order.
abbrev pub IsLoaded : ℕ → Dict Entry → List Route → Type 0
IsLoaded at table rows =
    All (λ r. live_row at table r.host ≡ some (row_entry r)) rows
    × ((host : Str) (e : Entry)
        → live_row at table host ≡ some e
        → Memᴰ (record { host = host; provider = e.provider; expires = e.expires }) rows)

-- normalizeHost leaves the host's normal form alone: it ends in at most one dot.
abbrev pub IsStable : Str → Type 0
IsStable host = normalize_host (normalize_host host) ≡ normalize_host host

-- A call for a host whose normal form is stable, with an expiry that the database keeps as it is.
abbrev pub IsExact : (ℕ → ℕ) → ℕ → Learned → Type 0
IsExact keep ttl l = IsStable l.host × (keep (l.at + ttl) ≡ l.at + ttl)

-- The rows of the table have stable names.
abbrev AreNormal : Dict Entry → Type 0
AreNormal table = (host : Str) (e : Entry) → get table host ≡ some e → normalize_host host ≡ host

-- The table and the routes agree, for a store that is attached.
record Agrees (ttl : ℕ) (r : Routes) (table : Dict Entry) : Type 0 where
  on : r.stored ≡ true
  lasts : r.ttl ≡ ttl
  same : table ≡ r.entries
  normal : AreNormal table

put-AreNormal :
    (table : Dict Entry) (host : Str) (e : Entry)
    → normalize_host host ≡ host
    → AreNormal table
    → AreNormal (put table host e)
put-AreNormal table host e stable normal other f h =
    let at = get-put table host e other in
    elim (Bool-cases (str_eq host other)) [
      | inl same ↦ subst (λ x. normalize_host x ≡ x) ((str_eq_iff host other).0 same) stable
      | inr different ↦ normal other f (sym (rw different at at) ∙ h)
    ]

record_known-Agrees :
    (keep : ℕ → ℕ) (ttl : ℕ) (r : Routes) (table : Dict Entry) (l : Learned) (p : Provider)
    → IsExact keep ttl l
    → Agrees ttl r table
    → let (r', call) = record_known r l.at l.host p in Agrees ttl r' (save_row keep table call)
unfolding record_known save_row
record_known-Agrees keep ttl r table l p (stable, whole) g =
    let kept : keep (l.at + r.ttl) ≡ l.at + r.ttl =
      subst (λ n. keep (l.at + n) ≡ l.at + n) (sym (g.lasts)) whole in
    simp (g.on, kept)
      (record {
        on = refl;
        lasts = g.lasts;
        same =
            ap
              (λ m. put m (normalize_host l.host) (record { provider = p; expires = l.at + r.ttl }))
              g.same;
        normal = put-AreNormal table (normalize_host l.host) _ stable g.normal;
      })

record_route-Agrees :
    (keep : ℕ → ℕ) (ttl : ℕ) (r : Routes) (table : Dict Entry) (l : Learned) (p : Provider)
    → IsExact keep ttl l
    → Agrees ttl r table
    → let (r', call) = record_route r l.at l.host p in Agrees ttl r' (save_row keep table call)
unfolding record_route save_row
record_route-Agrees keep ttl r table l tls exact g = g
record_route-Agrees keep ttl r table l p exact g = record_known-Agrees keep ttl r table l p exact g

record_all-Agrees :
    (keep : ℕ → ℕ) (ttl : ℕ) (ls : List Learned) (r : Routes) (table : Dict Entry)
    → All (IsExact keep ttl) ls
    → Agrees ttl r table
    → let (r', table') = record_all keep r table ls in Agrees ttl r' table'
unfolding record_all
record_all-Agrees keep ttl [] r table exact g = g
record_all-Agrees keep ttl (l ∷ ls) r table (first, exact) g =
    record_all-Agrees keep ttl ls _ _ exact
      (record_route-Agrees keep ttl r table l l.provider first g)

-- Rows that agree with f, under names that are stable.
module _ (f : Str → Option Entry) where
  abbrev FollowRows : List Route → Type 0
  FollowRows = All (λ r. (f r.host ≡ some (row_entry r)) × (normalize_host r.host ≡ r.host))

  put_row :
      (m : Dict Entry) (r : Route) (key : Str)
      → f r.host ≡ some (row_entry r)
      → normalize_host r.host ≡ r.host
      → str_eq r.host key ≡ true
      → get (put m (normalize_host r.host) (row_entry r)) key ≡ f key
  put_row m r key known stable same = rw stable (
      (rw same at (get-put {V = Entry} m r.host (row_entry r) key))
      ∙ sym known
      ∙ ap f ((str_eq_iff r.host key).0 same))

  -- A key that is right stays right.
  restored_keeps :
      (rows : List Route) (m : Dict Entry) (key : Str)
      → FollowRows rows
      → get m key ≡ f key
      → get (restore_entries m rows) key ≡ f key
  unfolding restore_entries
  restored_keeps [] m key follow h = h
  restored_keeps (r ∷ rows) m key ((known, stable), follow) h =
      restored_keeps rows _ key follow (elim (Bool-cases (str_eq r.host key)) [
        | inl same ↦ put_row m r key known stable same
        | inr other ↦ rw stable ((rw other at (get-put {V = Entry} m r.host (row_entry r) key)) ∙ h)
      ])

  -- A key that has a row is right at the end.
  restored_has :
      (rows : List Route) (m : Dict Entry) (row : Route)
      → FollowRows rows
      → Memᴰ row rows
      → get (restore_entries m rows) row.host ≡ f row.host
  unfolding restore_entries
  restored_has [] m row follow there = elim there [ ]
  restored_has (r ∷ rows) m row ((known, stable), follow) (Memᴰ.head e) =
      restored_keeps rows _ row.host follow (
        put_row m r row.host known stable
          ((str_eq_iff r.host row.host).1 (ap (λ (x : Route). x.host) (sym e))))
  restored_has (r ∷ rows) m row (first, follow) (Memᴰ.tail there) =
      restored_has rows _ row follow there

follow_rows :
    (at : ℕ) (table : Dict Entry) (rows : List Route)
    → AreNormal table
    → All (λ r. live_row at table r.host ≡ some (row_entry r)) rows
    → FollowRows (live_row at table) rows
follow_rows at table [] normal h = tt
follow_rows at table (r ∷ rows) normal (known, h) = (
  (
    known,
    elim (Option-cases (get table r.host)) [
      | inl missing ↦ absurd (ground (arith, rw missing at known))
      | inr (e, found) ↦ normal r.host e found
    ],
  ),
  follow_rows at table rows normal h,
)

get-restore_entries :
    (at : ℕ) (table : Dict Entry) (rows : List Route) (key : Str)
    → AreNormal table
    → IsLoaded at table rows
    → get (restore_entries [] rows) key ≡ live_row at table key
get-restore_entries at table rows key normal (known, all) =
    let follow = follow_rows at table rows normal known in
    elim (Option-cases (live_row at table key)) [
      | inl gone ↦ restored_keeps (live_row at table) rows [] key follow (unfold get in sym gone)
      | inr (e, left) ↦
          restored_has (live_row at table) rows []
            (record { host = key; provider = e.provider; expires = e.expires }) follow
            (all key e left)
    ]

protected-record_route :
    (r : Routes) (at : ℕ) (host : Str) (p : Provider)
    → (record_route r at host p).0.protected ≡ r.protected
unfolding record_route
protected-record_route r at host tls = refl
protected-record_route r at host p = refl

protected-record_all :
    (keep : ℕ → ℕ) (ls : List Learned) (r : Routes) (table : Dict Entry)
    → (record_all keep r table ls).0.protected ≡ r.protected
unfolding record_all
protected-record_all keep [] r table = refl
protected-record_all keep (l ∷ ls) r table =
    protected-record_all keep ls _ _ ∙ protected-record_route r l.at l.host l.provider

-- Routes with a store that holds nothing yet.
abbrev pub attached : ℕ → List Str → Routes
attached ttl protected = record (new_routes ttl protected) { stored = true }

-- An entry that the load has dropped is no longer used later.
fresh-live_row :
    (at now : ℕ) (x : Option Entry) → at < now → fresh now (unexpired at x) ≡ fresh now x
fresh-live_row at now none later = refl
fresh-live_row at now (some e) later = elim (Bool-cases (leb e.expires at)) [
  | inl over ↦ let late : ltb e.expires now ≡ true = ground arith in rw (over, late) refl
  | inr lives ↦ rw lives refl
]

-- Routes with an empty store, any calls of Record for hosts whose normal form is stable, each of them
-- saved without an error and with an expiry that the database keeps as it is, and a restart: LoadRoutes
-- deletes the rows that have expired at the time `at`, as the database has it, and gives the others in
-- any order. Then Restore succeeds, and at every later time Preferred has the answer for every host
-- that it would have had without the restart.
pub preferred-restore :
    (keep : ℕ → ℕ) (ttl : ℕ) (protected : List Str) (ls : List Learned) (at now : ℕ) (host : Str)
    (rows : List Route)
    → All (IsExact keep ttl) ls
    → IsLoaded at (record_all keep (attached ttl protected) [] ls).1 rows
    → at < now
    → Option.map (λ s. (preferred s now host).1) (restore (new_routes ttl protected) (some rows))
      ≡ some (preferred (record_all keep (attached ttl protected) [] ls).0 now host).1
unfolding restore
preferred-restore keep ttl protected ls at now host rows exact loaded later =
    let (r, table) = record_all keep (attached ttl protected) [] ls in
    let g = record_all-Agrees keep ttl ls (attached ttl protected) [] exact (record {
      on = refl;
      lasts = refl;
      same = refl;
      normal = λ h e k. absurd (unfold get in ground arith);
    }) in
    rw
      (
        preferred-eq,
        preferred-eq,
        get-restore_entries at table rows (normalize_host host) g.normal loaded,
        sym (g.same),
        protected-record_all keep ls (attached ttl protected) [],
        fresh-live_row at now (get table (normalize_host host)) later,
      )
      refl
