-- ===== src/Sitemap/Shape/Sampling.antt =====
-- What the sampler lets through: Allow of pkg/sitemap/urlshape.go.
use pagelode.Prelude.{
  ℕ, ◌+◌, ◌<◌, ◌≡◌, refl, arith, get, Str, ◌&&◌, ltb, min, ◌-◌, List, [], ◌∷◌, true, false, ◌==◌,
  leb, if◌then◌else◌, str_eq, get_or, get_or-put, Bool-cases, inl, inr, str_eq_iff, ap, ◌∙◌,
}
use pagelode.Url.{NetUrl}
use pagelode.Sitemap.Shape.{Sampler, new_sampler, shape, allow, allow_shape}

module _ {U : Type 0} (net : NetUrl U) where
  -- How many of the URLs with a shape the sampler allows, one after the other.
  unfoldable pub allowed : Str → Sampler → List Str → ℕ
  allowed kind s [] = 0
  allowed kind s (url ∷ urls) =
      let (taken, t) = allow net s url in
      (if taken && str_eq (shape net url) kind then 1 else 0) + allowed kind t urls

  -- The URLs with a shape.
  abbrev pub of_shape : Str → List Str → ℕ
  of_shape kind [] = 0
  of_shape kind (url ∷ urls) = (if str_eq (shape net url) kind then 1 else 0) + of_shape kind urls

-- The count of a shape.
abbrev count_of : Sampler → Str → ℕ
count_of s kind = get_or s.counts kind 0

-- One call with a shape, seen from the same shape and from another one.
allow-same :
    (s : Sampler) (shape kind : Str)
    → str_eq shape kind ≡ true
    → let (taken, t) = allow_shape s shape in
      (t.limit ≡ s.limit)
      × (taken ≡ ltb (count_of s kind) s.limit)
      × (count_of t kind ≡ (if taken then 1 else 0) + count_of s kind)
unfolding allow_shape
allow-same s shape kind same =
    let c : count_of s shape ≡ count_of s kind = ap (count_of s) ((str_eq_iff shape kind).0 same) in
    elim (Bool-cases (leb s.limit (count_of s shape))) [
      | inl full ↦ rw full (refl, ground (arith, c), omega arith)
      | inr room ↦ rw room (
        refl,
        ground (arith, c),
        get_or-put s.counts shape (count_of s shape + 1) kind 0 ∙ rw same (omega (arith, c)),
      )
    ]

allow-other :
    (s : Sampler) (shape kind : Str)
    → str_eq shape kind ≡ false
    → let (taken, t) = allow_shape s shape in
      (t.limit ≡ s.limit) × (count_of t kind ≡ count_of s kind)
unfolding allow_shape
allow-other s shape kind other = elim (Bool-cases (leb s.limit (count_of s shape))) [
  | inl full ↦ rw full (refl, refl)
  | inr room ↦
      rw room (refl, get_or-put s.counts shape (count_of s shape + 1) kind 0 ∙ rw other refl)
]

module _ {U : Type 0} (net : NetUrl U) where
  allow_lem :
      (s : Sampler) (url : Str) → 0 < s.limit → allow net s url ≡ allow_shape s (shape net url)
  unfolding allow
  allow_lem s url some_limit = elim (Bool-cases (s.limit == 0)) [
    | inl none_at_all ↦ absurd (ground arith)
    | inr some ↦ rw some refl
  ]

  allowed-room :
      (kind : Str) (urls : List Str) (s : Sampler)
      → 0 < s.limit
      → allowed net kind s urls ≡ min (s.limit - count_of s kind) (of_shape net kind urls)
  unfolding allowed
  allowed-room kind [] s some_limit = omega arith
  allowed-room kind (url ∷ urls) s some_limit =
      rw (allow_lem s url some_limit) (elim (Bool-cases (str_eq (shape net url) kind)) [
        | inl same ↦
            let (keeps, taken, counts) = allow-same s (shape net url) kind same in
            let rest =
              allowed-room kind urls (allow_shape s (shape net url)).1 (rw keeps some_limit) in
            rw same (ground (arith, keeps, taken, counts, rest))
        | inr other ↦
            let (keeps, counts) = allow-other s (shape net url) kind other in
            let rest =
              allowed-room kind urls (allow_shape s (shape net url)).1 (rw keeps some_limit) in
            rw other (ground (arith, keeps, counts, rest))
      ])

  -- Of any sequence of URLs a new sampler with a limit allows, for each shape, as many URLs of that
  -- shape as there are, or as the limit if there are more.
  pub allowed-new_sampler :
      (limit : ℕ) (kind : Str) (urls : List Str)
      → 0 < limit
      → allowed net kind (new_sampler limit) urls ≡ min limit (of_shape net kind urls)
  unfolding get
  allowed-new_sampler limit kind urls some_limit =
      omega (arith, allowed-room kind urls (new_sampler limit) some_limit)
