-- ===== src/Sitemap/Templates/Counts.antt =====
-- What Templates of pkg/sitemap/urlshape.go makes of a list of URLs.
use pagelode.Prelude.{
  ℕ, ◌+◌, ◌≡◌, refl, arith, Str, List, [], ◌∷◌, Option, none, some, Bool, true, str_eq, str_eq_iff,
  str_eq_refl, length, Dict, get, put, get-put, All, Bool-cases, inl, inr, ◌∙◌, sort, insert,
}
use pagelode.Url.{NetUrl}
use pagelode.Sitemap.Types.{Template}
use pagelode.Sitemap.Trie.{Trie, insert_path, height}
use pagelode.Sitemap.Trie.Paths.{HasIn, Has, no_path, insert_path-keeps, insert_path-Has}
use pagelode.Sitemap.Trie.Collapse.{
  IsPlain, IsPlainIn, new_trie-IsPlain, Walks, collapse-Walks, insert_path-IsPlain,
}
use pagelode.Sitemap.Templates.{
  Parsed, root_of, fill_roots, collapse_roots, template_pattern, count_url, count_all,
  more_frequent, parse_all, templates, sorted,
}

abbrev ArePlain : Dict Trie → Type 0
ArePlain roots = (host : Str) → IsPlainIn (get roots host)

-- The path of a URL stands in the trie of its host.
abbrev IsFiled : Dict Trie → Parsed → Type 0
IsFiled roots p = HasIn (get roots p.host) p.segments

root_of-IsPlain : (o : Option Trie) → IsPlainIn o → IsPlain (root_of o)
root_of-IsPlain none h = new_trie-IsPlain
root_of-IsPlain (some t) h = h

root_of-Has : (o : Option Trie) (p : List Str) → HasIn o p → Has (root_of o) p
root_of-Has none p h = absurd (no_path p h)
root_of-Has (some t) p h = h

file : Dict Trie → Parsed → Dict Trie
file roots p = put roots p.host (insert_path (root_of (get roots p.host)) p.segments)

file-ArePlain : (roots : Dict Trie) (p : Parsed) → ArePlain roots → ArePlain (file roots p)
unfolding file
file-ArePlain roots p h host =
    rw (get-put roots p.host (insert_path (root_of (get roots p.host)) p.segments) host)
      (elim (Bool-cases (str_eq p.host host)) [
        | inl same ↦ rw same (insert_path-IsPlain p.segments _ (root_of-IsPlain _ (h p.host)))
        | inr other ↦ rw other (h host)
      ])

file-keeps : (roots : Dict Trie) (p q : Parsed) → IsFiled roots q → IsFiled (file roots p) q
unfolding file
file-keeps roots p q h =
    rw (get-put roots p.host (insert_path (root_of (get roots p.host)) p.segments) q.host)
      (elim (Bool-cases (str_eq p.host q.host)) [
        | inl same ↦ rw same (
            insert_path-keeps p.segments (root_of (get roots p.host)) q.segments (
              root_of-Has (get roots p.host) q.segments (rw ((str_eq_iff p.host q.host).0 same) h)))
        | inr other ↦ rw other h
      ])

file-IsFiled : (roots : Dict Trie) (p : Parsed) → IsFiled (file roots p) p
unfolding file
file-IsFiled roots p =
    rw
      (
        get-put roots p.host (insert_path (root_of (get roots p.host)) p.segments) p.host,
        str_eq_refl p.host,
      )
      (insert_path-Has p.segments _)

fill_roots-ArePlain :
    (ps : List Parsed) (roots : Dict Trie) → ArePlain roots → ArePlain (fill_roots ps roots)
unfolding fill_roots file
fill_roots-ArePlain [] roots h = h
fill_roots-ArePlain (p ∷ ps) roots h =
    fill_roots-ArePlain ps (file roots p) (file-ArePlain roots p h)

fill_roots-keeps :
    (ps : List Parsed) (roots : Dict Trie) (q : Parsed)
    → IsFiled roots q
    → IsFiled (fill_roots ps roots) q
unfolding fill_roots file
fill_roots-keeps [] roots q h = h
fill_roots-keeps (p ∷ ps) roots q h = fill_roots-keeps ps (file roots p) q (file-keeps roots p q h)

fill_roots-IsFiled : (ps : List Parsed) (roots : Dict Trie) → All (IsFiled (fill_roots ps roots)) ps
unfolding fill_roots file
fill_roots-IsFiled [] roots = tt
fill_roots-IsFiled (p ∷ ps) roots = (
  fill_roots-keeps ps (file roots p) p (file-IsFiled roots p),
  fill_roots-IsFiled ps (file roots p),
)

-- A URL whose path stands in the tries can be given its pattern after collapse.
abbrev HasPattern : Dict Trie → Parsed → Type 0
HasPattern roots p = Walks (get roots p.host) p.segments

collapse_roots-HasPattern :
    (threshold : ℕ) (roots : Dict Trie) (p : Parsed)
    → IsPlainIn (get roots p.host)
    → IsFiled roots p
    → HasPattern (collapse_roots threshold roots) p
unfolding collapse_roots get
collapse_roots-HasPattern threshold [] p h g = absurd (no_path p.segments g)
collapse_roots-HasPattern threshold ((host, t) ∷ roots) p h g =
    elim (Bool-cases (str_eq host p.host)) [
      | inl same ↦
          rw same (
            collapse-Walks threshold (height t) true t p.segments (simp same at h) (simp same at g))
      | inr other ↦
          rw other (collapse_roots-HasPattern threshold roots p (simp other at h) (simp other at g))
    ]

-- The URLs that templates stand for.
abbrev pub total : List Template → ℕ
total [] = 0
total (t ∷ ts) = t.count + total ts

total-count_url :
    (ts : List Template) (pattern raw : Str) → total (count_url ts pattern raw) ≡ total ts + 1
unfolding count_url
total-count_url [] pattern raw = refl
total-count_url (t ∷ ts) pattern raw = elim (Bool-cases (str_eq t.pattern pattern)) [
  | inl same ↦ rw same (omega arith)
  | inr other ↦ rw other (omega (arith, total-count_url ts pattern raw))
]

module _ (less : Template → Template → Bool) where
  total-insert : (t : Template) (ts : List Template) → total (insert less t ts) ≡ t.count + total ts
  unfolding insert
  total-insert t [] = refl
  total-insert t (u ∷ us) = elim (Bool-cases (less u t)) [
    | inl behind ↦ rw behind (omega (arith, total-insert t us))
    | inr before ↦ rw before refl
  ]

  total-sort : (ts : List Template) → total (sort less ts) ≡ total ts
  unfolding sort
  total-sort [] = refl
  total-sort (t ∷ ts) = omega (arith, total-insert t (sort less ts), total-sort ts)

-- There are templates, and they stand for n URLs.
abbrev pub AreCounted : ℕ → Option (List Template) → Type 0
AreCounted n none = ⊥
AreCounted n (some ts) = total ts ≡ n

count_all-AreCounted :
    (ps : List Parsed) (roots : Dict Trie) (ts : List Template) (n : ℕ)
    → All (HasPattern roots) ps
    → total ts + length ps ≡ n
    → AreCounted n (count_all roots ps ts)
unfolding count_all template_pattern
count_all-AreCounted [] roots ts n h e = omega (arith, e)
count_all-AreCounted (p ∷ ps) roots ts n ((parts, found), h) e =
    rw (found, count_all)
      (count_all-AreCounted ps roots (count_url ts _ p.raw) n h
        (omega (arith, e, total-count_url ts _ p.raw)))

filed-HasPattern :
    (threshold : ℕ) (roots : Dict Trie) (ps : List Parsed)
    → ArePlain roots
    → All (IsFiled roots) ps
    → All (HasPattern (collapse_roots threshold roots)) ps
filed-HasPattern threshold roots [] h g = tt
filed-HasPattern threshold roots (p ∷ ps) h g = (
  collapse_roots-HasPattern threshold roots p (h p.host) g.0,
  filed-HasPattern threshold roots ps h g.1,
)

sorted-AreCounted : (n : ℕ) (x : Option (List Template)) → AreCounted n x → AreCounted n (sorted x)
sorted-AreCounted n none h = h
sorted-AreCounted n (some ts) h = total-sort more_frequent ts ∙ h

-- Templates never follows a missing node of its tries: it gives a list of templates for any URLs and
-- any threshold, and the counts of the templates add up to the number of URLs that can be parsed.
pub templates-AreCounted :
    {U : Type 0} (net : NetUrl U) (urls : List Str) (threshold : ℕ)
    → AreCounted (length (parse_all net urls)) (templates net urls threshold)
unfolding templates get
templates-AreCounted net urls threshold =
    let ps = parse_all net urls in
    sorted-AreCounted (length ps) _ (
      count_all-AreCounted ps (collapse_roots threshold (fill_roots ps [])) [] (length ps)
        (filed-HasPattern threshold (fill_roots ps []) ps (fill_roots-ArePlain ps [] (λ host. tt))
          (fill_roots-IsFiled ps []))
        (omega arith))
