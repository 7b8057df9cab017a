-- ===== src/Sitemap/Robots/Blocks.antt =====
-- Which rule of a robots.txt decides: blocks of pkg/sitemap/urls.go against a description of it.
use pagelode.Prelude.{
  ℕ, ◌+◌, ◌≡◌, refl, arith, Str, List, [], ◌∷◌, Bool, true, false, ltb, length, ◌&&◌, if◌then◌else◌,
  inl, inr, Option-cases, none, some, ◌∙◌, not,
}
use Prim.Native.Nat.{max}
use pagelode.Url.{NetUrl}
use pagelode.Sitemap.Robots.{RobotsRule, matches, decides, judge, blocks, robots_target}

-- One more than the length of the longest matching rule that allows, or disallows; 0 if there is
-- none.
abbrev pub longest : Bool → List RobotsRule → Str → ℕ
longest allow [] target = 0
longest allow (r ∷ rules) target =
    max
      (if matches r.value target && (if allow then r.allow else not r.allow)
        then length r.value + 1
        else 0)
      (longest allow rules target)

-- What the rule at the head makes of the best length and the verdict.
step_lem :
    (r : RobotsRule) (target : Str) (a d a' d' : ℕ)
    → a' ≡ max a (if matches r.value target && r.allow then length r.value + 1 else 0)
    → d' ≡ max d (if matches r.value target && not r.allow then length r.value + 1 else 0)
    → ((if decides r target (max a d) then length r.value + 1 else max a d) ≡ max a' d')
      × ((if decides r target (max a d) then not r.allow else ltb a d) ≡ ltb a' d')
step_lem r target a d a' d' e f = ground arith

zero-max : (a : ℕ) → max 0 a ≡ a
zero-max a = omega arith

max_assoc : (a b c : ℕ) → max (max a b) c ≡ max a (max b c)
max_assoc a b c = omega arith

judge_lem :
    (rules : List RobotsRule) (target : Str) (a d best : ℕ) (blocked : Bool)
    → best ≡ max a d
    → blocked ≡ ltb a d
    → judge rules target best blocked
      ≡ ltb (max a (longest true rules target)) (max d (longest false rules target))
unfolding judge
judge_lem [] target a d best blocked e f = ground arith
judge_lem (r ∷ rules) target a d best blocked e f =
    let x = if matches r.value target && r.allow then length r.value + 1 else 0 in
    let y = if matches r.value target && not r.allow then length r.value + 1 else 0 in
    let (longer, verdict) = step_lem r target a d (max a x) (max d y) refl refl in
    judge_lem rules target (max a x) (max d y) _ _ (rw e longer) (rw (e, f) verdict)
    ∙ rw (max_assoc a x (longest true rules target), max_assoc d y (longest false rules target))
        refl

-- A path is blocked exactly when the longest rule that matches it and disallows it is longer than
-- every rule that matches it and allows it; no rule at all, a tie, and a URL that cannot be parsed
-- do not block.
pub blocks-longest :
    {U : Type 0} (net : NetUrl U) (rules : List RobotsRule) (raw : Str)
    → blocks net rules raw ≡ elim (net.parse raw) [
      | none ↦ false
      | some u ↦
          ltb (longest true rules (robots_target net u)) (longest false rules (robots_target net u))
    ]
unfolding blocks
blocks-longest net rules raw = elim (Option-cases (net.parse raw)) [
  | inl bad ↦ rw (bad, blocks) refl
  | inr (u, good) ↦
      rw (good, blocks)
        (judge_lem rules (robots_target net u) 0 0 0 false refl refl
          ∙ rw
              (
                zero-max (longest true rules (robots_target net u)),
                zero-max (longest false rules (robots_target net u)),
              )
              refl)
]
