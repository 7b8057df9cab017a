-- ===== src/Fetch/Service/Learning.antt =====
-- What the waterfall of pkg/fetch/orchestrator.go learns from an attempt, and how it uses that.
use pagelode.Prelude.{
  ℕ, Str, Option, none, some, arith, ◌≡◌, inl, inr, Option-cases, get, get-remove, str_eq_refl,
}
use pagelode.Fetch.Page.{replay, Document, Kind, dead}
use pagelode.Fetch.Routes.{normalize_host}
use pagelode.Fetch.Clearances.{Clearances, get_clearance, forget}
use pagelode.Fetch.Service.Defs.{Env, Result, State}
use pagelode.Fetch.Service.Stages.{
  Judged, forget_clearance, replay_resolved, replay_judged, replay_held, try_replay,
}

-- The clearances have nothing for the host of the run.
abbrev pub HasNone : {W : Type 0} → State W → Type 0
HasNone s = get s.clearances.entries (normalize_host s.run.host) ≡ none

module _ {W : Type 0} (env : Env W) where
  HasNone-forget_clearance : (s : State W) → HasNone (forget_clearance env s)
  unfolding forget_clearance forget
  HasNone-forget_clearance s = rw (get-remove, str_eq_refl)

  replay_resolved-HasNone :
      (d : Document) (kind : Kind) (x : Option Result × State W)
      → (replay_resolved env d kind x).0 ≡ none
      → HasNone (replay_resolved env d kind x).1
  unfolding replay_resolved
  replay_resolved-HasNone d kind (some result, s) e = cc
  replay_resolved-HasNone d dead (none, s) e = cc
  replay_resolved-HasNone d _ (none, s) e = HasNone-forget_clearance s

  replay_judged-HasNone :
      (x : Judged × State W) → (replay_judged env x).0 ≡ none → HasNone (replay_judged env x).1
  unfolding replay_judged
  replay_judged-HasNone (none, s) e = HasNone-forget_clearance s
  replay_judged-HasNone (some (d, v), s) e =
      replay_resolved-HasNone (record d { provider = replay }) v.kind _ e

  get_clearance-none :
      (c : Clearances) (now : ℕ) (host : Str)
      → (get_clearance c now host).1 ≡ none
      → get (get_clearance c now host).0.entries (normalize_host host) ≡ none
  unfolding get_clearance
  get_clearance-none c now host e = ground (
    arith,
    get-remove c.entries (normalize_host host) (normalize_host host),
    str_eq_refl (normalize_host host),
  )

  -- Where the replay of a clearance does not end the call, no clearance is left for the host:
  -- whether none was held, it had expired, or the page could not be had with it.
  pub try_replay-HasNone :
      (s : State W) → (try_replay env s).0 ≡ none → HasNone (try_replay env s).1
  unfolding try_replay replay_held
  try_replay-HasNone s e =
      elim (Option-cases (get_clearance s.clearances (env.now s.world) s.run.host).1) [
        | inl missing ↦
            rw missing (get_clearance-none s.clearances (env.now s.world) s.run.host missing)
        | inr (session, found) ↦ rw found (replay_judged-HasNone _ (rw found at e))
      ]
