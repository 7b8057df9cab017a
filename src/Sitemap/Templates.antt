-- ===== src/Sitemap/Templates.antt =====
-- The templates of a list of URLs: Templates and templatesOf of pkg/sitemap/urlshape.go and urls.go.
pub mod Counts
use pagelode.Prelude.{
  ℕ, zero, suc, ◌+◌, Str, codes, List, [], ◌∷◌, ◌++◌, Option, none, some, Bool, true, false, ◌&&◌,
  not, ltb, ◌==◌, if◌then◌else◌, str_eq, to_lower, join, length, map, member, sort, str_less, Dict,
  get, put,
}
use pagelode.Url.{NetUrl}
use pagelode.Sitemap.Types.{Entry, Template}
use pagelode.Sitemap.Shape.{path_segments, masked, query_names}
use pagelode.Sitemap.Trie.{Trie, new_trie, wildcard, insert_path, collapse, height, pattern_parts}

-- parsedURL
pub record Parsed : Type 0 where
  pub raw : Str
  pub host : Str
  pub segments : List Str
  pub query : Str

-- The root of a host, a new one if there is none.
abbrev pub root_of : Option Trie → Trie
root_of none = new_trie
root_of (some t) = t

-- The loop that fills the tries of the hosts.
unfoldable pub fill_roots : List Parsed → Dict Trie → Dict Trie
fill_roots [] roots = roots
fill_roots (p ∷ ps) roots =
    fill_roots ps (put roots p.host (insert_path (root_of (get roots p.host)) p.segments))

-- The loop that collapses them; the height of a trie is enough fuel.
unfoldable pub collapse_roots : ℕ → Dict Trie → Dict Trie
collapse_roots threshold [] = []
collapse_roots threshold ((host, t) ∷ roots) =
    (host, collapse threshold (height t) true t) ∷ collapse_roots threshold roots

abbrev pattern_of : Str → List Str → Str
pattern_of query parts =
    let pattern = codes "/" ++ join parts (codes "/") in
    if str_eq query [] then pattern else pattern ++ (codes "?" ++ query)

-- templatePattern
unfoldable pub template_pattern : Option Trie → Parsed → Option Str
template_pattern root p = elim (pattern_parts root p.segments) [
  | none ↦ none
  | some parts ↦ some (pattern_of p.query parts)
]

abbrev pub counted : Template → Str → Template
counted t raw = record t {
  count = t.count + 1;
  samples =
      if ltb (length t.samples) 3 && not (member raw t.samples)
      then t.samples ++ raw ∷ []
      else t.samples;
}

-- A URL counted under its pattern.
unfoldable pub count_url : List Template → Str → Str → List Template
count_url [] pattern raw = counted (record { pattern = pattern; count = 0; samples = [] }) raw ∷ []
count_url (t ∷ ts) pattern raw =
    let rest = count_url ts pattern raw in
    if str_eq t.pattern pattern then counted t raw ∷ ts else t ∷ rest

-- The loop over the parsed URLs; `none` is the dereference of a nil node.
unfoldable pub count_all : Dict Trie → List Parsed → List Template → Option (List Template)
unfolding template_pattern count_url
count_all roots [] ts = some ts
count_all roots (p ∷ ps) ts = elim (template_pattern (get roots p.host) p) [
  | none ↦ none
  | some pattern ↦ count_all roots ps (count_url ts pattern p.raw)
]

unfoldable pub more_frequent : Template → Template → Bool
more_frequent a b =
    if not (a.count == b.count) then ltb b.count a.count else str_less a.pattern b.pattern

abbrev sorted : Option (List Template) → Option (List Template)
sorted none = none
sorted (some ts) = some (sort more_frequent ts)

module _ {U : Type 0} (net : NetUrl U) where
  unfoldable pub parse_one : Str → List Parsed
  parse_one raw = elim (net.parse raw) [
    | none ↦ []
    | some u ↦
        if str_eq raw []
        then []
        else record {
          raw = raw;
          host = to_lower (net.host u);
          segments = masked wildcard (path_segments (net.path u));
          query = join (query_names net u) (codes "&");
        }
          ∷ []
  ]

  unfoldable pub parse_all : List Str → List Parsed
  unfolding parse_one
  parse_all [] = []
  parse_all (raw ∷ raws) = parse_one raw ++ parse_all raws

  -- Templates
  unfoldable pub templates : List Str → ℕ → Option (List Template)
  unfolding parse_all fill_roots collapse_roots count_all more_frequent
  templates urls threshold =
      let parsed = parse_all urls in
      sorted (count_all (collapse_roots threshold (fill_roots parsed [])) parsed [])

  -- templatesOf
  unfoldable pub templates_of : List Entry → Option (List Template)
  templates_of [] = some []
  templates_of (e ∷ es) = templates (map (λ (x : Entry). x.url) (e ∷ es)) 10
