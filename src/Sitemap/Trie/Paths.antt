-- ===== src/Sitemap/Trie/Paths.antt =====
-- The paths of a trie of pkg/sitemap/urlshape.go: what insertion, absorb and collapse keep of them.
use pagelode.Prelude.{
  ◌≡◌, refl, arith, Str, List, [], ◌∷◌, Option, none, some, true, if◌then◌else◌, str_eq, str_eq_iff,
  str_eq_refl, Bool-cases, Option-cases, inl, inr,
}
use pagelode.Sitemap.Trie.{
  Trie, node, Children, nil, child, new_trie, get_child, put_child, absorb, absorb_children,
  absorb_child, merge_children, insert_path,
}

-- There is a trie, and the path stands in it by its own segments.
unfoldable pub HasIn : Option Trie → List Str → Type 0
HasIn none [] = ⊥
HasIn none (s ∷ ss) = ⊥
HasIn (some t) [] = Unit {0}
HasIn (some (node w cs)) (s ∷ ss) = HasIn (get_child cs s) ss

abbrev pub Has : Trie → List Str → Type 0
Has t p = HasIn (some t) p

pub no_path : (p : List Str) → HasIn none p → ⊥
unfolding HasIn
no_path [] h = h
no_path (s ∷ ss) h = h

Has-root : (t : Trie) → Has t []
unfolding HasIn
Has-root (node w cs) = tt

get_child-put_child :
    (cs : Children) (k : Str) (t : Trie) (j : Str)
    → get_child (put_child cs k t) j ≡ (if str_eq k j then some t else get_child cs j)
unfolding get_child put_child
get_child-put_child nil k t j = refl
get_child-put_child (child l u rest) k t j =
    ground (arith, get_child-put_child rest k t j, str_eq_iff l k, str_eq_iff l j, str_eq_iff k j)

-- The children of a node after a child was put back with all the paths that it had.
put_child-HasIn :
    (cs : Children) (k : Str) (t : Trie) (s : Str) (p : List Str)
    → ((q : List Str) → HasIn (get_child cs k) q → Has t q)
    → HasIn (get_child cs s) p
    → HasIn (get_child (put_child cs k t) s) p
put_child-HasIn cs k t s p keeps h =
    rw (get_child-put_child cs k t s) (elim (Bool-cases (str_eq k s)) [
      | inl same ↦ rw same (keeps p (rw ((str_eq_iff k s).0 same) h))
      | inr other ↦ rw other h
    ])

put_child-Has :
    (cs : Children) (k : Str) (t : Trie) (s : Str) (p : List Str)
    → str_eq k s ≡ true
    → Has t p
    → HasIn (get_child (put_child cs k t) s) p
put_child-Has cs k t s p same h = rw (get_child-put_child cs k t s, same) h

-- Absorbing keeps the paths of both tries.
mutual
  unfolding absorb HasIn get_child

  absorb_children-mine :
      (mine theirs : Children) (s : Str) (p : List Str)
      → HasIn (get_child mine s) p
      → HasIn (get_child (absorb_children mine theirs) s) p
  absorb_children-mine mine nil s p h = h
  absorb_children-mine mine (child k t rest) s p h =
      absorb_children-mine (put_child mine k (absorb_child (get_child mine k) t)) rest s p
        (put_child-HasIn mine k _ s p (absorb_child-mine (get_child mine k) t) h)

  absorb_child-mine :
      (o : Option Trie) (t : Trie) (p : List Str) → HasIn o p → Has (absorb_child o t) p
  absorb_child-mine none t p h = absurd (no_path p h)
  absorb_child-mine (some (node w mine)) (node v theirs) [] h = tt
  absorb_child-mine (some (node w mine)) (node v theirs) (s ∷ ss) h =
      absorb_children-mine mine theirs s ss h

mutual
  unfolding absorb HasIn get_child

  absorb_children-theirs :
      (mine theirs : Children) (s : Str) (p : List Str)
      → HasIn (get_child theirs s) p
      → HasIn (get_child (absorb_children mine theirs) s) p
  absorb_children-theirs mine nil s p h = absurd (no_path p h)
  absorb_children-theirs mine (child k t rest) s p h =
      let mixed = put_child mine k (absorb_child (get_child mine k) t) in
      elim (Bool-cases (str_eq k s)) [
        | inl same ↦ absorb_children-mine mixed rest s p (
            put_child-Has mine k _ s p same
              (absorb_child-theirs (get_child mine k) t p (simp same at h)))
        | inr other ↦ absorb_children-theirs mixed rest s p (simp other at h)
      ]

  absorb_child-theirs :
      (o : Option Trie) (t : Trie) (p : List Str) → Has t p → Has (absorb_child o t) p
  absorb_child-theirs none (node v theirs) p h = h
  absorb_child-theirs (some (node w mine)) (node v theirs) [] h = tt
  absorb_child-theirs (some (node w mine)) (node v theirs) (s ∷ ss) h =
      absorb_children-theirs mine theirs s ss h

absorb-mine : (a b : Trie) (p : List Str) → Has a p → Has (absorb a b) p
unfolding absorb HasIn
absorb-mine (node w mine) (node v theirs) [] h = tt
absorb-mine (node w mine) (node v theirs) (s ∷ ss) h = absorb_children-mine mine theirs s ss h

absorb-theirs : (a b : Trie) (p : List Str) → Has b p → Has (absorb a b) p
unfolding absorb HasIn
absorb-theirs (node w mine) (node v theirs) [] h = tt
absorb-theirs (node w mine) (node v theirs) (s ∷ ss) h = absorb_children-theirs mine theirs s ss h

merge_children-mine :
    (cs : Children) (merged : Trie) (p : List Str) → Has merged p → Has (merge_children merged cs) p
unfolding merge_children
merge_children-mine nil merged p h = h
merge_children-mine (child k t rest) merged p h =
    merge_children-mine rest (absorb merged t) p (absorb-mine merged t p h)

pub merge_children-Has :
    (cs : Children) (merged : Trie) (s : Str) (p : List Str)
    → HasIn (get_child cs s) p
    → Has (merge_children merged cs) p
unfolding merge_children get_child
merge_children-Has nil merged s p h = absurd (no_path p h)
merge_children-Has (child k t rest) merged s p h = elim (Bool-cases (str_eq k s)) [
  | inl same ↦
      merge_children-mine rest (absorb merged t) p (absorb-theirs merged t p (simp same at h))
  | inr other ↦ merge_children-Has rest (absorb merged t) s p (simp other at h)
]

-- Insertion keeps the paths, and adds its own.
pub insert_path-keeps : (p : List Str) (t : Trie) (q : List Str) → Has t q → Has (insert_path t p) q
unfolding insert_path HasIn
insert_path-keeps [] t q h = h
insert_path-keeps (s ∷ ss) (node w cs) [] h = Has-root (insert_path (node w cs) (s ∷ ss))
insert_path-keeps (s ∷ ss) (node w cs) (r ∷ rs) h = elim (Option-cases (get_child cs s)) [
  | inl new ↦
      rw (new, insert_path)
        (put_child-HasIn cs s _ r rs (λ q g. absurd (no_path q (rw new at g))) h)
  | inr (t, old) ↦
      rw (old, insert_path)
        (put_child-HasIn cs s _ r rs (λ q g. insert_path-keeps ss t q (rw old at g)) h)
]

pub insert_path-Has : (p : List Str) (t : Trie) → Has (insert_path t p) p
unfolding insert_path HasIn
insert_path-Has [] t = Has-root t
insert_path-Has (s ∷ ss) (node w cs) = elim (Option-cases (get_child cs s)) [
  | inl new ↦
      rw (new, insert_path)
        (put_child-Has cs s _ s ss (str_eq_refl s) (insert_path-Has ss new_trie))
  | inr (t, old) ↦
      rw (old, insert_path) (put_child-Has cs s _ s ss (str_eq_refl s) (insert_path-Has ss t))
]
