-- ===== src/Fetch/Page.antt =====
-- The data of a loaded page: pkg/fetch/page.go, and the verdicts of pkg/fetch/classify.go.
-- A Go string type with a fixed set of constants is a data type; `unset` is its zero value "".
use pagelode.Prelude.{ℕ, Str, codes, List, [], ◌∷◌, Option, Bool, true, false, ◌&&◌, not, Dict}

pub data Provider : Type 0 where
  tls patchright capsolver replay unset : Provider

pub data ContentType : Type 0 where
  html text pdf unknown : ContentType

-- Expires is a float64 in the source; the modelled code only passes it on.
pub record Cookie : Type 0 where
  pub name : Str
  pub value : Str
  pub domain : Str
  pub path : Str
  pub expires : ℕ
  pub http_only : Bool
  pub secure : Bool
  pub same_site : Str

pub record Session : Type 0 where
  pub user_agent : Str
  pub cookies : List Cookie
  pub proxy_url : Str
  pub headers : Dict Str

-- Session{}
abbrev pub no_session : Session
no_session = record { user_agent = []; cookies = []; proxy_url = []; headers = [] }

abbrev is_empty {ℓ} : {A : Type ℓ} → List A → Bool
is_empty [] = true
is_empty (x ∷ xs) = false

unfoldable pub replayable : Session → Bool
replayable s = not (is_empty s.proxy_url) && not (is_empty s.headers) && not (is_empty s.cookies)

pub data ChallengeVendor : Type 0 where
  cloudflare datadome recaptcha : ChallengeVendor

pub record Challenge : Type 0 where
  pub vendor : ChallengeVendor
  pub url : Str
  pub site_key : Str
  pub data_s : Str

-- Traffic, the network capture, is read by pkg/emails and pkg/discovery only and is left out.
pub record Document : Type 0 where
  pub provider : Provider
  pub status_code : ℕ
  pub final_url : Str
  pub title : Str
  pub html : Str
  pub text : Str
  pub content_type : ContentType
  pub headers : Dict Str
  pub challenge : Option Challenge
  pub session : Session
  pub explored_urls : List Str

-- Kind of pkg/fetch/classify.go
pub data Kind : Type 0 where
  accept needs_render blocked retryable dead : Kind

pub record Verdict : Type 0 where
  pub kind : Kind
  pub reason : Str
  pub render_score : ℕ
  pub visible_text : ℕ

-- string(kind)
unfoldable pub kind_string : Kind → Str
kind_string accept = codes "accept"
kind_string needs_render = codes "needs_render"
kind_string blocked = codes "blocked"
kind_string retryable = codes "retryable"
kind_string dead = codes "dead"

unfoldable pub vendor_string : ChallengeVendor → Str
vendor_string cloudflare = codes "cloudflare"
vendor_string datadome = codes "datadome"
vendor_string recaptcha = codes "recaptcha"
