-- ===== src/Fetch/Service/Defs.antt =====
-- The state and the data of the waterfall: the types of pkg/fetch/orchestrator.go and the
-- functions on them.
use pagelode.Prelude.{
  ℕ, Str, codes, List, [], ◌++◌, Option, none, Bool, false, ◌&&◌, ◌||◌, not, leb, ◌==◌,
  if◌then◌else◌, str_eq, contains, trim_space, runes, of_runes, length, take, before_byte, any,
}
use pagelode.Fetch.Page.{
  Provider, tls, patchright, capsolver, replay, unset, ContentType, unknown, Session, no_session,
  Document,
}
use pagelode.Fetch.Routes.{Routes, Route}
use pagelode.Fetch.Clearances.{Clearances, Clearance}
use pagelode.Fetch.Classify.{Inspector}

-- An error of a fetcher: its text, and what errors.Is says of ErrSaturated and ErrUnavailable.
pub record FetchError : Type 0 where
  pub message : Str
  pub saturated : Bool
  pub unavailable : Bool

-- (T, error), of which the caller reads one.
pub data Fallible {ℓ} (A : Type ℓ) : Type ℓ where
  ok : A → Fallible A
  err : FetchError → Fallible A

-- A parsed url.URL as parseURL reads it: Scheme, Hostname() and String().
pub record Url : Type 0 where
  pub scheme : Str
  pub hostname : Str
  pub string : Str

-- Content of pkg/fetch/extract.go
pub record Content : Type 0 where
  pub content : Str
  pub links : List Str
  pub title : Str

abbrev pub Fetcher : Type 0 → Type 0
Fetcher W = W → Str → Session → Fallible Document × W

pub record Env (W : Type 0) : Type 0 where
  pub now : W → ℕ
  pub http : Fetcher W
  pub browser : Option (Fetcher W)
  pub capsolver : Option (Fetcher W)
  pub inspector : Inspector
  pub parse_request_uri : Str → Fallible Url
  pub extract_html : Str → Str → Option Content

pub record Attempt : Type 0 where
  pub provider : Provider
  pub outcome : Str
  pub status : ℕ
  pub duration_ms : ℕ
  pub detail : Str
  pub classification : Str
  pub render_score : ℕ

pub record Result : Type 0 where
  pub url : Str
  pub final_url : Str
  pub title : Str
  pub content : Str
  pub content_type : ContentType
  pub provider : Provider
  pub outcome : Str
  pub links : List Str
  pub attempts : List Attempt

pub record RunState : Type 0 where
  pub target : Str
  pub host : Str
  pub tried : List Provider
  pub attempts : List Attempt
  pub defer_on_capacity : Bool
  pub capacity_err : Option FetchError

-- A call of the route store or of the clearance store.
pub data StoreCall : Type 0 where
  save_route : Route → StoreCall
  save_clearance : Clearance → StoreCall
  delete_clearance : Str → StoreCall

pub record State (W : Type 0) : Type 0 where
  pub world : W
  pub routes : Routes
  pub clearances : Clearances
  pub calls : List StoreCall
  pub run : RunState

abbrev pub maximum_content_characters : ℕ
maximum_content_characters = 12000

abbrev pub outcome_needs_browser : Str
outcome_needs_browser = codes "needs_browser"

abbrev pub provider_index : Provider → ℕ
provider_index replay = 0
provider_index tls = 1
provider_index patchright = 2
provider_index capsolver = 3
provider_index unset = 4

abbrev pub was_tried : RunState → Provider → Bool
was_tried r p = any (λ q. provider_index q == provider_index p) r.tried

abbrev failure : Str → FetchError
failure message = record { message = message; saturated = false; unavailable = false }

-- The checks of parseURL on a parsed URL.
check_url : Fallible Url → Fallible Url
check_url (err e) = err (record e { message = codes "extract: invalid URL: " ++ e.message })
check_url (ok u) =
    if str_eq u.hostname []
      || (not (str_eq u.scheme (codes "http")) && not (str_eq u.scheme (codes "https")))
    then err (failure (codes "extract: URL must be absolute HTTP(S)"))
    else ok u

unfoldable pub parse_url : (Str → Fallible Url) → Str → Fallible Url
unfolding check_url
parse_url parse_request_uri input =
    check_url (
      parse_request_uri (if contains input (codes "://") then input else codes "https://" ++ input))

started_run : Fallible Url → Fallible RunState
started_run (err e) = err e
started_run (ok u) = ok (record {
  target = u.string;
  host = u.hostname;
  tried = [];
  attempts = [];
  defer_on_capacity = false;
  capacity_err = none;
})

unfoldable pub new_run_state : (Str → Fallible Url) → Str → Fallible RunState
unfolding started_run
new_run_state parse_request_uri input = started_run (parse_url parse_request_uri input)

unfoldable pub bounded : Str → Str
bounded s =
    let content = trim_space s in
    let rs = runes content in
    if leb (length rs) maximum_content_characters
    then content
    else of_runes (take maximum_content_characters rs) ++ codes "\n\n[truncated]"

unfoldable pub concise : Str → Str
concise message =
    let line = before_byte 10 message in if leb (length line) 300 then line else take 300 line

unfoldable pub needs_browser_result : RunState → Result
needs_browser_result r = record {
  url = r.target;
  final_url = [];
  title = [];
  content = [];
  content_type = unknown;
  provider = unset;
  outcome = outcome_needs_browser;
  links = [];
  attempts = r.attempts;
}

-- A nil list of links and an empty one are the same list here.
unfoldable pub success_result : RunState → Document → Str → List Str → Str → Result
success_result r d content links title = record {
  url = r.target;
  final_url = d.final_url;
  title = title;
  content = content;
  content_type = d.content_type;
  provider = d.provider;
  outcome = codes "ok";
  links = links;
  attempts = r.attempts;
}

unfoldable pub failed_result : RunState → Document → Str → Result
failed_result r d outcome = record {
  url = r.target;
  final_url = d.final_url;
  title = d.title;
  content = [];
  content_type = d.content_type;
  provider = d.provider;
  outcome = outcome;
  links = [];
  attempts = r.attempts;
}

-- Document{Provider: ProviderCapSolver, Type: ContentUnknown}
abbrev pub capsolver_document : Document
capsolver_document = record {
  provider = capsolver;
  status_code = 0;
  final_url = [];
  title = [];
  html = [];
  text = [];
  content_type = unknown;
  headers = [];
  challenge = none;
  session = no_session;
  explored_urls = [];
}
