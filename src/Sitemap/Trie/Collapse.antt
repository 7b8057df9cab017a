-- ===== src/Sitemap/Trie/Collapse.antt =====
-- Every path of a trie can be walked after collapse: pkg/sitemap/urlshape.go.
use pagelode.Prelude.{
  ℕ, zero, suc, ◌≡◌, refl, arith, Str, List, [], ◌∷◌, Option, none, some, Bool, true, false,
  if◌then◌else◌, str_eq, Bool-cases, Option-cases, inl, inr, not, ◌&&◌,
}
use pagelode.Sitemap.Trie.{
  Trie, node, Children, nil, child, wildcard, new_trie, get_child, put_child, absorb,
  absorb_children, absorb_child, merge_children, each_child, narrowed, collapse, insert_path,
  pattern_parts, is_wide,
}
use pagelode.Sitemap.Trie.Paths.{HasIn, Has, no_path, merge_children-Has}

-- No node of the trie is wild, as none is before collapse.
mutual
  pub IsPlain : Trie → Type 0
  IsPlain (node w cs) = (w ≡ false) × ArePlain cs

  pub ArePlain : Children → Type 0
  ArePlain nil = Unit {0}
  ArePlain (child k t rest) = IsPlain t × ArePlain rest

abbrev pub IsPlainIn : Option Trie → Type 0
IsPlainIn none = Unit {0}
IsPlainIn (some t) = IsPlain t

pub new_trie-IsPlain : IsPlain new_trie
unfolding IsPlain
new_trie-IsPlain = (refl, tt)

get_child-IsPlain : (cs : Children) (k : Str) → ArePlain cs → IsPlainIn (get_child cs k)
unfolding get_child IsPlain
get_child-IsPlain nil k h = tt
get_child-IsPlain (child l t rest) k h = elim (Bool-cases (str_eq l k)) [
  | inl same ↦ rw same (h.0)
  | inr other ↦ rw other (get_child-IsPlain rest k h.1)
]

put_child-ArePlain :
    (cs : Children) (k : Str) (t : Trie) → ArePlain cs → IsPlain t → ArePlain (put_child cs k t)
unfolding put_child IsPlain
put_child-ArePlain nil k t h g = (g, tt)
put_child-ArePlain (child l u rest) k t h g = elim (Bool-cases (str_eq l k)) [
  | inl same ↦ rw same (g, h.1)
  | inr other ↦ rw other (h.0, put_child-ArePlain rest k t h.1 g)
]

mutual
  unfolding absorb IsPlain

  absorb_children-ArePlain :
      (mine theirs : Children)
      → ArePlain mine
      → ArePlain theirs
      → ArePlain (absorb_children mine theirs)
  absorb_children-ArePlain mine nil h g = h
  absorb_children-ArePlain mine (child k t rest) h g =
      absorb_children-ArePlain (put_child mine k (absorb_child (get_child mine k) t)) rest
        (put_child-ArePlain mine k _ h
          (absorb_child-IsPlain (get_child mine k) t (get_child-IsPlain mine k h) g.0))
        g.1

  absorb_child-IsPlain :
      (o : Option Trie) (t : Trie) → IsPlainIn o → IsPlain t → IsPlain (absorb_child o t)
  absorb_child-IsPlain none (node v theirs) h g = g
  absorb_child-IsPlain (some (node w mine)) (node v theirs) h g =
      (h.0, absorb_children-ArePlain mine theirs h.1 g.1)

absorb-IsPlain : (a b : Trie) → IsPlain a → IsPlain b → IsPlain (absorb a b)
unfolding absorb IsPlain
absorb-IsPlain (node w mine) (node v theirs) h g =
    (h.0, absorb_children-ArePlain mine theirs h.1 g.1)

merge_children-IsPlain :
    (cs : Children) (merged : Trie)
    → IsPlain merged
    → ArePlain cs
    → IsPlain (merge_children merged cs)
unfolding merge_children IsPlain
merge_children-IsPlain nil merged h g = h
merge_children-IsPlain (child k t rest) merged h g =
    merge_children-IsPlain rest (absorb merged t) (absorb-IsPlain merged t h g.0) g.1

pub insert_path-IsPlain : (p : List Str) (t : Trie) → IsPlain t → IsPlain (insert_path t p)
unfolding insert_path IsPlain
insert_path-IsPlain [] t h = h
insert_path-IsPlain (s ∷ ss) (node w cs) h =
    let plain = get_child-IsPlain cs s h.1 in
    elim (Option-cases (get_child cs s)) [
      | inl new ↦
          rw (new, insert_path)
            (h.0, put_child-ArePlain cs s _ h.1 (insert_path-IsPlain ss new_trie (refl, tt)))
      | inr (t, old) ↦
          rw (old, insert_path)
            (h.0, put_child-ArePlain cs s _ h.1 (insert_path-IsPlain ss t (rw old at plain)))
    ]

-- The walk of templatePattern along the segments meets no missing node.
abbrev pub Walks : Option Trie → List Str → Type 0
Walks t p = (parts : List Str) × (pattern_parts t p ≡ some parts)

walk_end : (t : Option Trie) → Walks t []
unfolding pattern_parts
walk_end t = ([], refl)

-- The step of a walk, by the key that the node asks for.
walk_step :
    (w : Bool) (cs : Children) (s : Str) (ss : List Str)
    → Walks (get_child cs (if w then wildcard else s)) ss
    → Walks (some (node w cs)) (s ∷ ss)
unfolding pattern_parts
walk_step w cs s ss (parts, e) = ((if w then wildcard else s) ∷ parts, rw e refl)

get_child-each_child :
    (f : Trie → Trie) (cs : Children) (k : Str) (t : Trie)
    → get_child cs k ≡ some t
    → get_child (each_child f cs) k ≡ some (f t)
unfolding get_child each_child
get_child-each_child f nil k t e = absurd (ground arith)
get_child-each_child f (child l u rest) k t e = elim (Bool-cases (str_eq l k)) [
  | inl same ↦ ground (arith, e, same)
  | inr other ↦ rw other (get_child-each_child f rest k t (rw other at e))
]

plain_walk : (p : List Str) (t : Trie) → IsPlain t → Has t p → Walks (some t) p
unfolding IsPlain HasIn
plain_walk [] t h g = walk_end (some t)
plain_walk (s ∷ ss) (node w cs) h g =
    let plain = get_child-IsPlain cs s h.1 in
    let below : HasIn (get_child cs s) ss = g in
    walk_step w cs s ss (
      rw (h.0) (elim (Option-cases (get_child cs s)) [
        | inl gone ↦ absurd (no_path ss (rw gone at below))
        | inr (t, found) ↦ rw found (plain_walk ss t (rw found at plain) (rw found at below))
      ]))

-- A path of a trie before collapse can be walked after it, whatever the threshold and the fuel.
pub collapse-Walks :
    (threshold fuel : ℕ) (root : Bool) (t : Trie) (p : List Str)
    → IsPlain t
    → Has t p
    → Walks (some (collapse threshold fuel root t)) p
unfolding collapse narrowed each_child HasIn IsPlain get_child str_eq
collapse-Walks threshold zero root t p h g = plain_walk p t h g
collapse-Walks threshold (suc fuel) root t [] h g = walk_end _
collapse-Walks threshold (suc fuel) root (node w cs) (s ∷ ss) h g =
    let below : HasIn (get_child cs s) ss = g in
    elim (Bool-cases (not root && is_wide threshold cs)) [
      | inl wide ↦
          let merged = merge_children new_trie cs in
          rw wide (
            walk_step true _ s ss (
              collapse-Walks threshold fuel false merged ss
                (merge_children-IsPlain cs new_trie (refl, tt) h.1)
                (merge_children-Has cs new_trie s ss below)))
      | inr slim ↦ rw slim (
          walk_step w _ s ss (
            rw (h.0) (elim (Option-cases (get_child cs s)) [
              | inl gone ↦ absurd (no_path ss (rw gone at below))
              | inr (t, found) ↦
                  let plain = get_child-IsPlain cs s h.1 in
                  rw (get_child-each_child (collapse threshold fuel false) cs s t found) (
                    collapse-Walks threshold fuel false t ss (rw found at plain)
                      (rw found at below))
            ])))
    ]
