-- ===== src/Sitemap/Trie.antt =====
-- The trie of path segments: trieNode of pkg/sitemap/urlshape.go. A map of children is a list of
-- keys and tries; a pointer that is written through is the trie that is put back at its place.
pub mod Paths
pub mod Collapse
use pagelode.Prelude.{
  ℕ, zero, suc, ◌+◌, Str, codes, List, [], ◌∷◌, Option, none, some, Bool, true, false, ◌&&◌, not,
  ltb, leb, if◌then◌else◌, str_eq,
}
use Prim.Native.Nat.{max}

mutual
  pub data Trie : Type 0 where
    node : Bool → Children → Trie

  pub data Children : Type 0 where
    nil : Children
    child : Str → Trie → Children → Children

abbrev pub wildcard : Str
wildcard = codes "*"

-- newTrieNode
abbrev pub new_trie : Trie
new_trie = node false nil

unfoldable pub get_child : Children → Str → Option Trie
get_child nil key = none
get_child (child k t rest) key =
    let other = get_child rest key in if str_eq k key then some t else other

unfoldable pub put_child : Children → Str → Trie → Children
put_child nil key t = child key t nil
put_child (child k u rest) key t =
    let other = put_child rest key t in if str_eq k key then child k t rest else child k u other

abbrev pub count_children : Children → ℕ
count_children nil = 0
count_children (child k t rest) = suc (count_children rest)

-- absorb: its loop over the other's children, and one of them.
unfoldable mutual
  pub absorb : Trie → Trie → Trie
  absorb (node w mine) (node v theirs) = node w (absorb_children mine theirs)

  pub absorb_children : Children → Children → Children
  absorb_children mine nil = mine
  absorb_children mine (child k t rest) =
      absorb_children (put_child mine k (absorb_child (get_child mine k) t)) rest

  pub absorb_child : Option Trie → Trie → Trie
  absorb_child none (node v theirs) = node v theirs
  absorb_child (some (node w mine)) (node v theirs) = node w (absorb_children mine theirs)

unfoldable pub merge_children : Trie → Children → Trie
unfolding absorb
merge_children merged nil = merged
merge_children merged (child k t rest) = merge_children (absorb merged t) rest

-- The height of a trie, which bounds the recursion of collapse.
mutual
  pub height : Trie → ℕ
  height (node w cs) = height_children cs

  pub height_children : Children → ℕ
  height_children nil = 0
  height_children (child k t rest) = max (suc (height t)) (height_children rest)

abbrev pub is_wide : ℕ → Children → Bool
is_wide threshold cs = ltb 0 threshold && leb threshold (count_children cs)

-- The loop of collapse over the children, given the call for one.
unfoldable pub each_child : (Trie → Trie) → Children → Children
each_child f nil = nil
each_child f (child k t rest) = child k (f t) (each_child f rest)

abbrev pub under : (Trie → Trie) → Trie → Trie
under f (node w cs) = node w (each_child f cs)

-- A node whose children are merged into one if they are as many as the threshold.
unfoldable pub narrowed : ℕ → Bool → Trie → Trie
unfolding merge_children
narrowed threshold root (node w cs) =
    if not root && is_wide threshold cs
    then node true (child wildcard (merge_children new_trie cs) nil)
    else node w cs

-- collapse; the fuel is at least the height of the trie.
unfoldable pub collapse : ℕ → ℕ → Bool → Trie → Trie
unfolding narrowed each_child
collapse threshold zero root t = t
collapse threshold (suc fuel) root t =
    under (collapse threshold fuel false) (narrowed threshold root t)

-- The path of segments, put below a node.
unfoldable pub insert_path : Trie → List Str → Trie
insert_path t [] = t
insert_path (node w cs) (s ∷ ss) = elim (get_child cs s) [
  | none ↦ node w (put_child cs s (insert_path new_trie ss))
  | some t ↦ node w (put_child cs s (insert_path t ss))
]

-- The parts of templatePattern; `none` is the dereference of a nil node.
unfoldable pub pattern_parts : Option Trie → List Str → Option (List Str)
pattern_parts t [] = some []
pattern_parts none (s ∷ ss) = none
pattern_parts (some (node w cs)) (s ∷ ss) =
    let key = if w then wildcard else s in
    elim (pattern_parts (get_child cs key) ss) [ none ↦ none | some parts ↦ some (key ∷ parts) ]
