-- ===== src/Discovery/Protocol.antt =====
-- The protocol of a request: detectProtocol of pkg/discovery/signals.go.
use pagelode.Prelude.{
  Str, codes, List, [], ◌∷◌, Option, none, some, Bool, true, false, ◌||◌, ◌&&◌, not, ◌==◌,
  if◌then◌else◌, str_eq, contains, has_prefix, any, length, drop, to_lower, equal_fold, trim_space,
  join,
}
use pagelode.Discovery.Types.{
  Exchange, Json, string, array, object, Items, end, item, Members, closed, member_of, Tools,
}
use pagelode.Discovery.Schema.{append_unique, safe_name}
use pagelode.Discovery.Classifier.{header, has_header, is_soap}

abbrev pub member_value : Members → Str → Option Json
member_value closed name = none
member_value (member_of key value rest) name =
    let other = member_value rest name in if str_eq key name then some value else other

abbrev pub is_some : {A : Type 0} → Option A → Bool
is_some none = false
is_some (some x) = true

-- value.(string)
abbrev pub as_string : Option Json → Option Str
as_string (some (string s)) = some s
as_string _ = none

abbrev pub or_empty : Option Str → Str
or_empty none = []
or_empty (some s) = s

unfoldable pub persisted_query : Option Json → Bool
persisted_query (some (object members)) = is_some (member_value members (codes "persistedQuery"))
persisted_query _ = false

abbrev starts_selection : Str → Bool
starts_selection [] = false
starts_selection (c ∷ s) =
    any (λ b. b == c) (0x20 ∷ 9 ∷ 13 ∷ 10 ∷ codes "{(@") && contains (c ∷ s) (codes "{")

unfoldable pub graphql_document : Str → Bool
graphql_document raw =
    let value = trim_space raw in
    has_prefix value (codes "{")
    || any (λ keyword. has_prefix value keyword && starts_selection (drop (length keyword) value))
        (codes "query" ∷ codes "mutation" ∷ codes "subscription" ∷ codes "fragment" ∷ [])

-- Query().Get
unfoldable pub query_value : List (Str × List Str) → Str → Str
query_value [] name = []
query_value ((key, []) ∷ rest) name =
    let other = query_value rest name in if str_eq key name then [] else other
query_value ((key, value ∷ values) ∷ rest) name =
    let other = query_value rest name in if str_eq key name then value else other

-- A member of a batch: whether it is JSON-RPC, whether it is GraphQL, and its operation.
abbrev is_graphql_member : Members → Bool
is_graphql_member m =
    is_some (as_string (member_value m (codes "operationName")))
    || graphql_document (or_empty (as_string (member_value m (codes "query"))))
    || persisted_query (member_value m (codes "extensions"))

abbrev with_operation : Members → List Str → List Str
with_operation m operations =
    let name = or_empty (as_string (member_value m (codes "operationName"))) in
    if str_eq name [] then operations else append_unique operations (safe_name name)

-- batchProtocol
unfoldable pub batch_protocol : Items → Str → List Str → Str × List Str
unfolding append_unique safe_name graphql_document persisted_query
batch_protocol end protocol operations = (protocol, operations)
batch_protocol (item (object m) rest) protocol operations =
    let later =
      batch_protocol rest (if is_graphql_member m then codes "graphql_batch" else protocol)
        (with_operation m operations) in
    if is_some (member_value m (codes "jsonrpc")) then (codes "json_rpc", []) else later
batch_protocol (item value rest) protocol operations = batch_protocol rest protocol operations

module _ {U : Type 0} (tools : Tools U) where
  -- The protocols behind GraphQL, in the order of their tests.
  unfoldable pub plain_protocol : Exchange → U → Str → Str → Str → Str
  unfolding has_header
  plain_protocol entry u path request_type mime =
      if contains path (codes "batchexecute")
      then codes "google_batchexecute"
      else if contains path (codes "/trpc")
      then codes "trpc"
      else if contains mime (codes "grpc")
          || contains request_type (codes "grpc")
          || has_header entry.request_headers (codes "x-grpc-web")
      then codes "grpc_web"
      else if str_eq (tools.scheme u) (codes "ws")
          || str_eq (tools.scheme u) (codes "wss")
          || equal_fold entry.resource_type (codes "websocket")
      then codes "websocket"
      else if contains mime (codes "event-stream")
      then codes "sse"
      else if is_some (tools.parse_json entry.response_body) || contains mime (codes "json")
      then codes "rest_json"
      else if contains mime (codes "html")
      then codes "html"
      else codes "http"

  -- What is left once the payload is read: whether there is GraphQL, and the operation.
  unfoldable pub query_protocol : Exchange → U → Str → Str → Str → Bool → Str → Str × Str
  unfolding plain_protocol graphql_document persisted_query query_value safe_name
  query_protocol entry u path request_type mime graphql operation =
      let query = tools.query u in
      let name = query_value query (codes "operationName") in
      let named = not (str_eq name []) in
      let operation' = if named then safe_name name else operation in
      let raw = query_value query (codes "extensions") in
      if not (str_eq raw []) && persisted_query (tools.parse_json raw)
      then (codes "graphql_persisted_query", operation')
      else if graphql || named || graphql_document (query_value query (codes "query"))
      then (codes "graphql", operation')
      else (plain_protocol entry u path request_type mime, [])

  abbrev named_operation : Option Str → Str
  named_operation none = []
  named_operation (some name) = safe_name name

  -- detectProtocol with the payload of the request.
  unfoldable pub payload_protocol : Exchange → U → Str → Str → Str → Bool → Option Json → Str × Str
  unfolding query_protocol graphql_document persisted_query safe_name
  payload_protocol entry u path request_type mime graphql (some (object m)) =
      let name = as_string (member_value m (codes "operationName")) in
      if persisted_query (member_value m (codes "extensions"))
      then (codes "graphql_persisted_query", named_operation name)
      else if is_some (member_value m (codes "jsonrpc"))
      then (codes "json_rpc", [])
      else query_protocol entry u path request_type mime
          (graphql
            || graphql_document (or_empty (as_string (member_value m (codes "query"))))
            || is_some name)
          (named_operation name)
  payload_protocol entry u path request_type mime graphql _ =
      query_protocol entry u path request_type mime graphql []

  unfoldable pub url_protocol : Exchange → Str → Str → Option Json → Str × Str
  unfolding payload_protocol
  url_protocol entry request_type mime value = elim (tools.parse entry.url) [
    | none ↦ (codes "http", [])
    | some u ↦
        let path = to_lower (tools.path u) in
        payload_protocol entry u path request_type mime
          (contains path (codes "graphql")
            || contains request_type (codes "application/graphql")
            || contains mime (codes "application/graphql"))
          value
  ]

  -- A batch is reported where it has a protocol.
  unfoldable pub body_protocol : Exchange → Str → Str → Option Json → Str × Str
  unfolding url_protocol batch_protocol
  body_protocol entry request_type mime (some (array batch)) =
      let (protocol, operations) = batch_protocol batch [] [] in
      if str_eq protocol []
      then url_protocol entry request_type mime (some (array batch))
      else (protocol, join operations (codes ","))
  body_protocol entry request_type mime value = url_protocol entry request_type mime value

  -- detectProtocol: the protocol and the operation.
  unfoldable pub detect_protocol : Exchange → Str × Str
  unfolding body_protocol is_soap header
  detect_protocol entry =
      let mime = to_lower entry.mime_type in
      let request_type = to_lower (header entry.request_headers (codes "content-type")) in
      if is_soap tools entry request_type mime
      then (codes "soap", [])
      else body_protocol entry request_type mime (tools.parse_json entry.request_body)
