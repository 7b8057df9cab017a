-- ===== src/Sitemap/Similarity/Spread.antt =====
-- What the index of fingerprints keeps: Seen of pkg/sitemap/similarity.go.
use pagelode.Prelude.{
  ℕ, ◌<◌, ◌≡◌, refl, arith, List, [], ◌∷◌, ◌++◌, Bool, true, false, any, if◌then◌else◌, Bool-cases,
  inl, inr, All, All-append, sym, ◌∙◌,
}
use mathlib.Core.List.{append-nil, append_assoc}
use pagelode.Sitemap.Similarity.{
  DuplicateIndex, new_duplicate_index, seen, simhash_distance, is_near,
}

-- No two of the fingerprints are near each other.
abbrev pub AreSpread : ℕ → List ℕ → Type 0
AreSpread distance [] = Unit {0}
AreSpread distance (f ∷ fs) = All (λ g. distance < simhash_distance f g) fs × AreSpread distance fs

-- Seen of a list of fingerprints, one after the other: the answers, and the index behind them.
unfoldable pub seen_all : DuplicateIndex → List ℕ → List Bool × DuplicateIndex
seen_all i [] = ([], i)
seen_all i (f ∷ fs) =
    let (answer, j) = seen i f in let (answers, k) = seen_all j fs in (answer ∷ answers, k)

-- The fingerprints that were new, in their order.
abbrev pub unseen : List ℕ → List Bool → List ℕ
unseen [] answers = []
unseen (f ∷ fs) [] = []
unseen (f ∷ fs) (true ∷ answers) = unseen fs answers
unseen (f ∷ fs) (false ∷ answers) = f ∷ unseen fs answers

far :
    (distance f : ℕ) (fs : List ℕ)
    → any (is_near distance f) fs ≡ false
    → All (λ g. distance < simhash_distance g f) fs
far distance f [] h = tt
far distance f (g ∷ fs) h = (ground arith, far distance f fs (ground arith))

AreSpread-append :
    (distance : ℕ) (fs : List ℕ) (f : ℕ)
    → AreSpread distance fs
    → All (λ g. distance < simhash_distance g f) fs
    → AreSpread distance (fs ++ f ∷ [])
AreSpread-append distance [] f s h = (tt, tt)
AreSpread-append distance (g ∷ fs) f s h =
    (All-append _ fs (f ∷ []) s.0 (h.0, tt), AreSpread-append distance fs f s.1 h.1)

seen-AreSpread :
    (i : DuplicateIndex) (f : ℕ)
    → AreSpread i.max_distance i.fingerprints
    → ((seen i f).1.max_distance ≡ i.max_distance)
      × AreSpread i.max_distance (seen i f).1.fingerprints
      × ((seen i f).1.fingerprints ≡ i.fingerprints ++ (if (seen i f).0 then [] else f ∷ []))
unfolding seen
seen-AreSpread i f s = elim (Bool-cases (any (is_near i.max_distance f) i.fingerprints)) [
  | inl near ↦ rw near (refl, s, sym (append-nil i.fingerprints))
  | inr new ↦ rw new (
    refl,
    AreSpread-append i.max_distance i.fingerprints f s (far i.max_distance f i.fingerprints new),
    refl,
  )
]

unseen_step :
    (kept : List ℕ) (f : ℕ) (fs : List ℕ) (answer : Bool) (answers : List Bool)
    → (kept ++ (if answer then [] else f ∷ [])) ++ unseen fs answers
      ≡ kept ++ unseen (f ∷ fs) (answer ∷ answers)
unseen_step kept f fs true answers = rw (append-nil kept) refl
unseen_step kept f fs false answers = append_assoc kept (f ∷ []) (unseen fs answers)

seen_all-AreSpread :
    (fs : List ℕ) (i : DuplicateIndex)
    → AreSpread i.max_distance i.fingerprints
    → let (answers, j) = seen_all i fs in
      AreSpread i.max_distance j.fingerprints
      × (j.fingerprints ≡ i.fingerprints ++ unseen fs answers)
unfolding seen_all
seen_all-AreSpread [] i s = (s, sym (append-nil i.fingerprints))
seen_all-AreSpread (f ∷ fs) i s =
    let (distance, spread, kept) = seen-AreSpread i f s in
    let (spread', kept') = seen_all-AreSpread fs (seen i f).1 (rw distance spread) in
    (
      rw distance at spread',
      kept' ∙ rw kept (unseen_step i.fingerprints f fs (seen i f).0 (seen_all (seen i f).1 fs).0),
    )

-- Of any sequence of fingerprints, the index keeps exactly those that Seen called new, in their
-- order, and any two that it keeps differ in more bits than the distance.
pub seen_all-new :
    (distance : ℕ) (fs : List ℕ)
    → let (answers, i) = seen_all (new_duplicate_index distance) fs in
      AreSpread distance i.fingerprints × (i.fingerprints ≡ unseen fs answers)
seen_all-new distance fs = seen_all-AreSpread fs (new_duplicate_index distance) tt
