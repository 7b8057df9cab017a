-- ===== src/Url.antt =====
-- What the code uses of the package net/url, as a parameter of its models, and the parts of
-- pkg/emails/targets.go and pkg/sitemap/urls.go that are the same in both files.
use pagelode.Prelude.{
  ℕ, Str, codes, List, [], ◌∷◌, Option, none, some, Bool, ◌||◌, ◌&&◌, not, ◌==◌, if◌then◌else◌,
  str_eq, has_prefix, trim_prefix, to_lower, any,
}

-- What the code uses of net/url. `resolve` is ResolveReference; `keep_query` deletes the parameters
-- whose name fails the test and encodes the others; `query_names` are the names in Query(), which
-- stand in no fixed order.
pub record NetUrl (U : Type 0) : Type 0 where
  pub parse : Str → Option U
  pub resolve : U → U → U
  pub has_user : U → Bool
  pub scheme : U → Str
  pub hostname : U → Str
  pub port : U → Str
  pub host : U → Str
  pub path : U → Str
  pub set_host : Str → U → U
  pub set_path : Str → U → U
  pub clear_fragment : U → U
  pub keep_query : (Str → Bool) → U → U
  pub query_names : U → List Str
  pub raw_query : U → Str
  pub escaped_path : U → Str
  pub string : U → Str

abbrev pub slash : ℕ
slash = 47

abbrev pub dot : ℕ
dot = 46

-- path.Ext, in a tail of the path; `none` if the tail has no dot behind its last slash.
unfoldable pub ext_tail : Str → Option Str
ext_tail [] = none
ext_tail (c ∷ cs) = elim (ext_tail cs) [
  | some e ↦ some e
  | none ↦ if (c == dot) && not (any (λ d. d == slash) cs) then some (c ∷ cs) else none
]

unfoldable pub ext : Str → Str
unfolding ext_tail
ext path = elim (ext_tail path) [ none ↦ [] | some e ↦ e ]

abbrev pub one_of : Str → List Str → Bool
one_of s words = any (λ w. str_eq s w) words

abbrev pub leaving_segments : List Str
leaving_segments =
    codes "logout"
    ∷ codes "log-out"
    ∷ codes "signout"
    ∷ codes "sign-out"
    ∷ codes "unsubscribe"
    ∷ codes "delete"
    ∷ codes "remove"
    ∷ []

unfoldable pub is_tracking : Str → Bool
is_tracking name =
    has_prefix (to_lower name) (codes "utm_")
    || str_eq name (codes "fbclid")
    || str_eq name (codes "gclid")

module _ {U : Type 0} (net : NetUrl U) where
  abbrev pub bare_host : U → Str
  bare_host u = trim_prefix (to_lower (net.hostname u)) (codes "www.")

  -- The URL that is left once user, scheme and scope are accepted,
  -- in targets.go of pkg/emails and urls.go of pkg/sitemap.
  abbrev pub tidied : U → U
  tidied u =
      let v = net.set_host (to_lower (net.host u)) (net.clear_fragment u) in
      if str_eq (net.path v) [] then net.set_path (codes "/") v else v
