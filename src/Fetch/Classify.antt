-- ===== src/Fetch/Classify.antt =====
-- The verdict on a fetched document: Classify of pkg/fetch/classify.go. What the regular
-- expressions, the embedded signature table and the HTML parser answer is a parameter, `Inspector`.
pub mod Laws
use pagelode.Prelude.{
  ℕ, ◌+◌, Str, codes, List, [], ◌∷◌, ◌++◌, Option, none, some, Bool, true, false, ◌&&◌, ◌||◌, ltb,
  leb, ◌==◌, if◌then◌else◌, Dict, get, length, take, contains, to_lower, equal_fold, trim_space,
  str_eq, join, fields, runes, itoa,
}
use pagelode.Fetch.Page.{
  Provider, tls, patchright, capsolver, replay, unset, html, text, pdf, unknown, ContentType,
  Document, Challenge, Kind, accept, needs_render, blocked, retryable, dead, Verdict, vendor_string,
}

-- A compiled pattern with its label.
pub record Signature : Type 0 where
  pub label : Str
  pub matches : Str → Bool

pub record HeaderSignature : Type 0 where
  pub name : Str
  pub value : Str
  pub label : Str

-- What the selectors of Classify find in a parsed document.
pub record View : Type 0 where
  pub has_body : Bool
  pub body_text : Str
  pub noscript_text : Str
  pub hydration_markers : ℕ
  pub root_texts : List Str
  pub script_count : ℕ
  pub inline_script_text : Str
  pub semantic_count : ℕ

pub record Inspector : Type 0 where
  pub blocks : List Signature
  pub short_blocks : List Signature
  pub challenge_headers : List HeaderSignature
  pub challenge_urls : List Str
  pub javascript_required : Str → Bool
  pub dom_mutation : Str → Bool
  pub parse_html : Str → Option View

abbrev http_status : ℕ → Str
http_status status = codes "HTTP " ++ itoa status

abbrev verdict : Kind → Str → ℕ → ℕ → Verdict
verdict kind reason score visible = record {
  kind = kind;
  reason = reason;
  render_score = score;
  visible_text = visible;
}

abbrev pub is_html : ContentType → Bool
is_html html = true
is_html _ = false

abbrev pub is_patchright : Provider → Bool
is_patchright patchright = true
is_patchright _ = false

-- The loop of headerValue over the map, for a key that differs in case.
folded_value : Dict Str → Str → Str
folded_value [] name = []
folded_value ((key, value) ∷ m) name = if equal_fold key name then value else folded_value m name

unfoldable pub header_value : Dict Str → Str → Str
unfolding folded_value
header_value headers name = elim (get headers name) [
  | some value ↦ value
  | none ↦ folded_value headers name
]

unfoldable pub first : Str → ℕ → Str
first value limit = if leb (length value) limit then value else take limit value

unfoldable pub normalized_text : Str → Str
normalized_text value = join (fields value) (codes " ")

-- The label of the first signature that matches.
unfoldable pub first_match : List Signature → Str → Option Str
first_match [] s = none
first_match (c ∷ cs) s = if c.matches s then some c.label else first_match cs s

header_signal : List HeaderSignature → Document → Option Str
header_signal [] d = none
header_signal (h ∷ hs) d =
    if contains (to_lower (header_value d.headers h.name)) h.value
    then some h.label
    else header_signal hs d

url_signal : List Str → Document → Option Str
url_signal [] d = none
url_signal (m ∷ ms) d =
    if contains d.final_url m then some (codes "challenge URL " ++ m) else url_signal ms d

or_else : Option Str → Option Str → Option Str
or_else none other = other
or_else (some s) other = some s

unfoldable pub challenge_signal : Inspector → Document → Option Str
unfolding header_signal url_signal or_else
challenge_signal i d = elim d.challenge [
  | some c ↦ some (vendor_string c.vendor ++ codes " challenge remained after browser settling")
  | none ↦ or_else (header_signal i.challenge_headers d) (url_signal i.challenge_urls d)
]

unfoldable pub empty_application_root : List Str → Bool
empty_application_root [] = false
empty_application_root (t ∷ ts) = str_eq (normalized_text t) [] || empty_application_root ts

-- One weighted signal of the score.
abbrev add : Bool → ℕ → Str → ℕ × List Str → ℕ × List Str
add true points reason (score, reasons) = (score + points, reasons ++ reason ∷ [])
add false points reason (score, reasons) = (score, reasons)

-- The score and its reasons, for a visible text of the given length.
unfoldable pub render_score : Inspector → View → ℕ → ℕ × List Str
render_score i v visible =
    let a =
      add (i.javascript_required v.noscript_text) 10 (codes "noscript requires JavaScript")
        (0, []) in
    let b =
      add (ltb 0 v.hydration_markers && ltb visible 1000) 10
        (codes "hydration marker with little visible content") a in
    let c =
      add (empty_application_root v.root_texts && ltb visible 500) 10
        (codes "empty application root") b in
    let d =
      add (leb 4 v.script_count && ltb visible 500) 6
        (itoa v.script_count ++ codes " scripts with little visible content") c in
    let e =
      add (i.dom_mutation v.inline_script_text && ltb visible 500) 5 (codes "inline DOM mutation")
        d in
    let f =
      add (v.semantic_count == 0 && ltb 0 v.script_count) 5
        (codes "script shell has no semantic content") e in
    add (ltb visible 50) 5 (codes "minimal visible text") f

judge_score : ℕ × List Str → ℕ → Verdict
judge_score (score, reasons) visible =
    if leb 10 score
    then verdict needs_render (join reasons (codes "; ")) score visible
    else verdict accept (codes "usable HTML") score visible

-- From the visible text on.
judge_view : Inspector → Document → View → Verdict
unfolding judge_score first_match
judge_view i d v =
    let visible = length (runes (normalized_text v.body_text)) in
    elim (if ltb visible 2500 then first_match i.short_blocks (first d.html 30000) else none) [
      | some label ↦ verdict blocked label 0 visible
      | none ↦
          if is_patchright d.provider
          then verdict accept (codes "rendered HTML") 0 visible
          else judge_score (render_score i v visible) visible
    ]

-- The statuses that block an HTML page.
abbrev pub is_blocked_status : ℕ → Bool
is_blocked_status s = s == 401 || (s == 403 || (s == 429 || (s == 503 || leb 520 s && leb s 530)))

-- An HTML page with a status below 400.
judge_html : Inspector → Document → Verdict
unfolding judge_view
judge_html i d =
    if str_eq (trim_space d.html) []
    then verdict needs_render (codes "empty HTML response") 10 0
    else elim (i.parse_html d.html) [
      | none ↦ verdict retryable (codes "invalid HTML") 0 0
      | some v ↦
          if v.has_body
          then judge_view i d v
          else verdict needs_render (codes "HTML has no body") 10 0
    ]

judge_status : Inspector → Document → Verdict
unfolding judge_html first_match
judge_status i d = elim (first_match i.blocks (first d.html 500000)) [
  | some label ↦ verdict blocked label 0 0
  | none ↦
      if is_blocked_status d.status_code
      then verdict blocked (http_status d.status_code ++ codes " with HTML content") 0 0
      else if leb 500 d.status_code
      then verdict retryable (http_status d.status_code) 0 0
      else if leb 400 d.status_code
      then verdict retryable (http_status d.status_code) 0 0
      else judge_html i d
]

judge_plain : Document → Verdict
judge_plain d =
    if leb 500 d.status_code
    then verdict retryable (http_status d.status_code) 0 0
    else verdict accept (codes "non-HTML response") 0 0

unfoldable pub classify : Inspector → Document → Verdict
unfolding judge_plain judge_status
classify i d =
    if d.status_code == 404 || d.status_code == 410
    then verdict dead (http_status d.status_code) 0 0
    else elim (challenge_signal i d) [
      | some reason ↦ verdict blocked reason 0 0
      | none ↦ if is_html d.content_type then judge_status i d else judge_plain d
    ]
