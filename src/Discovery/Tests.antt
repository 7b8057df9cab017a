-- ===== src/Discovery/Tests.antt =====
-- Tests of the model of pkg/discovery, and its theorems at concrete inputs.
use pagelode.Prelude.{
  ◌≤◌, Str, codes, List, [], ◌∷◌, none, some, false, ◌≡◌, refl, length, str_eq, All,
}
use pagelode.Discovery.Types.{Exchange, Tools, object, number, member_of, closed}
use pagelode.Discovery.Schema.{schema, maximum_fields}
use pagelode.Discovery.Schema.Paths.{HasSafePath, schema-IsSafe}
use pagelode.Discovery.Analyze.{analyze}
use pagelode.Discovery.Analyze.Counts.{IsReport, analyze-IsReport}
use pagelode.Discovery.Classifier.{extract_host, in_front, behind}

-- A site on which a URL is its path, and every body one object.
abbrev tools : Tools Str
tools = record {
  parse = λ url. some url;
  scheme = λ url. codes "https";
  host = λ url. [];
  hostname = λ url. codes "a.io";
  path = λ url. url;
  query = λ url. [];
  redacted = λ url query path. path;
  parse_query = λ body. none;
  split_host_port = λ host. none;
  parse_json = λ body.
      some (object (member_of (codes "id") number (member_of (codes "full name") number closed)));
  parses_float = λ value. false;
  envelope_start = λ body. false;
}

abbrev call : Str → Str → Exchange
call url mime = record {
  url = url;
  method = codes "GET";
  resource_type = [];
  frame_id = [];
  initiator = [];
  started_ms = 3;
  request_headers = [];
  request_body = [];
  status = 200;
  mime_type = mime;
  response_headers = [];
  response_body = codes "{}";
  truncated = false;
  error = [];
}

abbrev calls : List Exchange
calls =
    call (codes "/api/users/1") (codes "application/json")
    ∷ call (codes "/logo.png") (codes "image/png")
    ∷ call (codes "/api/users/2") (codes "application/json")
    ∷ []

analyze-IsReport_example : IsReport tools calls (analyze tools calls 0 9 [])
analyze-IsReport_example = analyze-IsReport tools calls 0 9 []

schema-IsSafe_example :
    (length (schema tools (codes "{}")) ≤ maximum_fields)
    × All HasSafePath (schema tools (codes "{}"))
schema-IsSafe_example = schema-IsSafe tools (codes "{}")

-- A host without a port is lost where the URL has no host of its own.
lost_host : extract_host tools (codes "a.io/x") ≡ []
unfolding extract_host in_front behind str_eq
lost_host = refl
