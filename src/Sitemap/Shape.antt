-- ===== src/Sitemap/Shape.antt =====
-- The shape of a URL and the sampler of shapes: pkg/sitemap/urlshape.go.
pub mod Sampling
use pagelode.Prelude.{
  ℕ, ◌+◌, Str, codes, List, [], ◌∷◌, ◌++◌, Option, none, some, Bool, true, false, ◌||◌, ◌&&◌, not,
  ltb, leb, ◌==◌, if◌then◌else◌, str_eq, to_lower, split, join, itoa, length, all, map, in_range,
  sort, str_less, Dict, get_or, put,
}
use pagelode.Url.{NetUrl, slash}

unfoldable pub is_digit : ℕ → Bool
is_digit c = in_range 48 57 c

unfoldable pub is_hex : ℕ → Bool
unfolding is_digit
is_hex c = is_digit c || in_range 97 102 c || in_range 65 70 c

-- The loop of isUUID, from an index.
unfoldable pub uuid_from : ℕ → Str → Bool
unfolding is_hex
uuid_from i [] = true
uuid_from i (c ∷ s) =
    (if (i == 8) || (i == 13) || (i == 18) || (i == 23) then c == 45 else is_hex c)
    && uuid_from (i + 1) s

unfoldable pub looks_like_id : Str → Bool
unfolding uuid_from
looks_like_id segment =
    not (str_eq segment [])
    && (all is_digit segment
        || (length segment == 36) && uuid_from 0 segment
        || leb 8 (length segment) && all is_hex segment)

abbrev non_empty : List Str → List Str
non_empty [] = []
non_empty (s ∷ ss) = if str_eq s [] then non_empty ss else s ∷ non_empty ss

unfoldable pub path_segments : Str → List Str
path_segments path = non_empty (split path slash)

-- The segments with those that look like an identifier replaced.
unfoldable pub masked : Str → List Str → List Str
unfolding looks_like_id
masked mark segments = map (λ s. if looks_like_id s then mark else s) segments

abbrev first_of : List Str → Str
first_of [] = []
first_of (s ∷ ss) = s

module _ {U : Type 0} (net : NetUrl U) where
  -- queryNames
  unfoldable pub query_names : U → List Str
  query_names u = sort str_less (net.query_names u)

  unfoldable pub shape : Str → Str
  unfolding masked path_segments query_names
  shape raw = elim (net.parse raw) [
    | none ↦ raw
    | some u ↦
        let segments = masked (codes "#") (path_segments (net.path u)) in
        to_lower (net.host u)
        ++ (codes "|"
            ++ (first_of segments
                ++ (codes "|"
                    ++ (itoa (length segments)
                        ++ (codes "|" ++ join (query_names u) (codes ","))))))
  ]

pub record Sampler : Type 0 where
  pub limit : ℕ
  pub counts : Dict ℕ

abbrev pub new_sampler : ℕ → Sampler
new_sampler limit = record { limit = limit; counts = [] }

-- Allow, for a shape.
unfoldable pub allow_shape : Sampler → Str → Bool × Sampler
allow_shape s shape =
    let n = get_or s.counts shape 0 in
    if leb s.limit n then (false, s) else (true, record s { counts = put s.counts shape (n + 1) })

unfoldable pub allow : {U : Type 0} → NetUrl U → Sampler → Str → Bool × Sampler
unfolding allow_shape
allow net s raw = if s.limit == 0 then (true, s) else allow_shape s (shape net raw)
