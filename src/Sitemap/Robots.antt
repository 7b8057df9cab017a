-- ===== src/Sitemap/Robots.antt =====
-- The rules of a robots.txt: parseRobotsRules, robotsSitemaps and blocks of pkg/sitemap/urls.go.
-- A rule keeps its value, from which the code compiles a regular expression, and `matches` is what
-- that expression matches. MustCompile panics on a value that is not UTF-8: `none`.
pub mod Blocks
use pagelode.Prelude.{
  ℕ, zero, suc, ◌+◌, Str, codes, List, [], ◌∷◌, ◌++◌, Option, none, some, Bool, true, false, ◌||◌,
  ◌&&◌, not, ltb, leb, ◌==◌, if◌then◌else◌, str_eq, before_byte, equal_fold, split, to_lower,
  trim_space, take, drop, length, any, map, valid_utf8,
}
use pagelode.Url.{NetUrl}

-- robotsRule; its length is that of the value.
pub record RobotsRule : Type 0 where
  pub allow : Bool
  pub value : Str

abbrev newline : ℕ
newline = 10

abbrev star : ℕ
star = 42

abbrev dollar : ℕ
dollar = 36

-- What `.*` may leave of a string: it takes any bytes but a newline.
unfoldable pub star_tails : Str → List Str
star_tails [] = [] ∷ []
star_tails (c ∷ s) = (c ∷ s) ∷ (if c == newline then [] else star_tails s)

-- The expression of a value, at the beginning of a string: a star is `.*`, a `$` at the end is the
-- end, and everything else stands for itself.
unfoldable pub matches : Str → Str → Bool
unfolding star_tails
matches [] s = true
matches (c ∷ cs) [] =
    let here = matches cs [] in if c == star then here else (c == dollar) && str_eq cs []
matches (c ∷ cs) (d ∷ s) =
    let here = matches cs s in
    let later = any (λ t. matches cs t) (star_tails (d ∷ s)) in
    if c == star then later else (c == d) && here && not ((c == dollar) && str_eq cs [])

-- strings.Cut, in front of a byte and behind it
unfoldable pub cut : Str → ℕ → Option (Str × Str)
cut [] b = none
cut (c ∷ s) b =
    let rest = cut s b in
    if c == b then some ([], s) else elim rest [ none ↦ none | some p ↦ some (c ∷ p.0, p.1) ]

abbrev without_comment : Str → Str
without_comment line = before_byte 35 line

-- The variables of parseRobotsRules.
pub record Parsing : Type 0 where
  pub applies : Bool
  pub after_agent : Bool
  pub rules : List RobotsRule

abbrev pub maximum_rules : ℕ
maximum_rules = 200

unfoldable pub take_rule : Parsing → Bool → Str → Option Parsing
take_rule p allow value =
    if not p.applies || str_eq value [] || leb maximum_rules (length p.rules)
    then some (record p { after_agent = false })
    else if valid_utf8 value
    then some (record p {
      after_agent = false;
      rules = p.rules ++ record { allow = allow; value = value } ∷ [];
    })
    else none

unfoldable pub take_field : Parsing → Str → Str → Option Parsing
unfolding take_rule
take_field p name value =
    if str_eq name (codes "user-agent")
    then some (record p {
      applies = p.applies && p.after_agent || str_eq value (codes "*");
      after_agent = true;
    })
    else if str_eq name (codes "allow")
    then take_rule p true value
    else if str_eq name (codes "disallow")
    then take_rule p false value
    else some p

unfoldable pub take_cut : Parsing → Option (Str × Str) → Option Parsing
unfolding take_field
take_cut p none = some p
take_cut p (some (name, value)) = take_field p (to_lower (trim_space name)) (trim_space value)

unfoldable pub parse_lines : Parsing → List Str → Option (List RobotsRule)
unfolding take_cut
parse_lines p [] = some p.rules
parse_lines p (line ∷ lines) = elim (take_cut p (cut (trim_space (without_comment line)) 58)) [
  | none ↦ none
  | some q ↦ parse_lines q lines
]

-- parseRobotsRules
unfoldable pub parse_robots_rules : Str → Option (List RobotsRule)
unfolding parse_lines
parse_robots_rules body =
    parse_lines (record { applies = false; after_agent = false; rules = [] }) (split body newline)

-- The site map that a line names.
unfoldable pub sitemap_line : Str → List Str
sitemap_line raw =
    let line = trim_space (without_comment raw) in
    let value = trim_space (drop 8 line) in
    if ltb 8 (length line) && equal_fold (take 8 line) (codes "sitemap:") && not (str_eq value [])
    then value ∷ []
    else []

-- The loop of robotsSitemaps, with the number of locations so far.
unfoldable pub sitemap_lines : List Str → ℕ → List Str
unfolding sitemap_line
sitemap_lines [] n = []
sitemap_lines (line ∷ lines) n =
    let found = sitemap_line line in
    found ++ elim (leb 10 (n + length found)) [
      | true ↦ []
      | false ↦ sitemap_lines lines (n + length found)
    ]

-- robotsSitemaps
unfoldable pub robots_sitemaps : Str → List Str
unfolding sitemap_lines
robots_sitemaps body = sitemap_lines (split body newline) 0

-- Whether a rule takes the place of the best one so far, whose length is given one higher than in
-- the code, where it starts at -1.
abbrev pub decides : RobotsRule → Str → ℕ → Bool
decides r target best =
    matches r.value target
    && (ltb best (length r.value + 1) || (length r.value + 1 == best) && r.allow)

-- The loop of blocks.
unfoldable pub judge : List RobotsRule → Str → ℕ → Bool → Bool
unfolding matches
judge [] target best blocked = blocked
judge (r ∷ rules) target best blocked =
    let taken = decides r target best in
    judge rules target (if taken then length r.value + 1 else best)
      (if taken then not r.allow else blocked)

module _ {U : Type 0} (net : NetUrl U) where
  -- What the rules are matched against.
  abbrev pub robots_target : U → Str
  robots_target u =
      if str_eq (net.raw_query u) []
      then net.escaped_path u
      else net.escaped_path u ++ (codes "?" ++ net.raw_query u)

  -- blocks
  unfoldable pub blocks : List RobotsRule → Str → Bool
  unfolding judge
  blocks rules raw = elim (net.parse raw) [
    | none ↦ false
    | some u ↦ judge rules (robots_target u) 0 false
  ]
