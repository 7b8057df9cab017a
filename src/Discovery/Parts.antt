-- ===== src/Discovery/Parts.antt =====
-- The parts of a report: its signals, its data sources and its endpoints, pkg/discovery/analyze.go.
use pagelode.Prelude.{
  ℕ, ◌+◌, ◌-◌, Str, codes, List, [], ◌∷◌, ◌++◌, Bool, ◌||◌, ◌&&◌, ltb, ◌==◌, if◌then◌else◌, str_eq,
  contains, any, length, drop, take, to_lower, itoa, sort, str_less, member,
}
use pagelode.Discovery.Types.{Field, Endpoint, Signal, DataSource}
use pagelode.Discovery.Schema.{append_unique, append_all}

-- candidateOperation
unfoldable pub candidate_operation : Str → Str → Str
candidate_operation method path =
    if contains (to_lower path) (codes "search")
    then codes "search"
    else if str_eq method (codes "GET")
    then if contains path (codes "{id}")
        || contains path (codes "{uuid}")
        || contains path (codes "{hash}")
      then codes "detail"
      else codes "list_or_document"
    else codes "request"

abbrev pub is_same_signal : Signal → Signal → Bool
is_same_signal a b =
    str_eq a.endpoint_id b.endpoint_id
    && str_eq a.kind b.kind
    && str_eq a.location b.location
    && str_eq a.name b.name

unfoldable pub add_signal : List Signal → Signal → List Signal
unfolding append_all
add_signal [] incoming = incoming ∷ []
add_signal (signal ∷ signals) incoming =
    let rest = add_signal signals incoming in
    if is_same_signal signal incoming
    then record signal { evidence = append_all signal.evidence incoming.evidence } ∷ signals
    else signal ∷ rest

unfoldable pub add_signals : List Signal → List Signal → List Signal
unfolding add_signal
add_signals signals [] = signals
add_signals signals (incoming ∷ more) = add_signals (add_signal signals incoming) more

abbrev pub signal_of : Str → Str → Str → Str → Signal
signal_of endpoint_id kind basis evidence = record {
  endpoint_id = endpoint_id;
  kind = kind;
  location = [];
  name = [];
  basis = basis;
  evidence = evidence ∷ [];
}

-- The places of the arrays in a schema.
abbrev pub array_paths : List Field → List Str
array_paths [] = []
array_paths (field ∷ fields) =
    if member (codes "array") field.types
    then field.path ∷ array_paths fields
    else array_paths fields

abbrev pub or_root : List Str → List Str
or_root [] = codes "$" ∷ []
or_root locations = locations

unfoldable pub add_source : List DataSource → Endpoint → Str → Str → List DataSource
unfolding append_unique
add_source [] endpoint location evidence =
    record {
      endpoint_id = endpoint.id;
      kind = endpoint.protocol;
      location = location;
      basis = codes "candidate";
      evidence = evidence ∷ [];
    }
    ∷ []
add_source (source ∷ sources) endpoint location evidence =
    let rest = add_source sources endpoint location evidence in
    if str_eq source.endpoint_id endpoint.id && str_eq source.location location
    then record source { evidence = append_unique source.evidence evidence } ∷ sources
    else source ∷ rest

unfoldable pub add_sources : List DataSource → Endpoint → List Str → Str → List DataSource
unfolding add_source
add_sources sources endpoint [] evidence = sources
add_sources sources endpoint (location ∷ locations) evidence =
    add_sources (add_source sources endpoint location evidence) endpoint locations evidence

abbrev pub sole : List Str → Str
sole (operation ∷ []) = operation
sole _ = []

-- The operation of a request, put into the endpoint.
unfoldable pub with_operation : Endpoint → Str → Endpoint
unfolding append_unique
with_operation e operation =
    let operations = sort str_less (append_unique e.operations operation) in
    if str_eq operation []
    then e
    else record e { operations = operations; operation = sole operations }

abbrev pub with_status : List ℕ → ℕ → List ℕ
with_status statuses status =
    if any (λ s. s == status) statuses then statuses else sort ltb (statuses ++ status ∷ [])

-- The parts of a path that stand for values.
abbrev pub path_fields : List Str → List Field
path_fields [] = []
path_fields (segment ∷ segments) =
    if str_eq segment (codes "{id}")
      || str_eq segment (codes "{uuid}")
      || str_eq segment (codes "{hash}")
    then record {
      path = codes "path." ++ take (length segment - 2) (drop 1 segment);
      types = codes "string" ∷ [];
      evidence = [];
    }
      ∷ path_fields segments
    else path_fields segments

abbrev pub evidence_id : ℕ → Str
evidence_id index = codes "r" ++ itoa (index + 1)

abbrev pub if_one : Bool → ℕ
if_one c = if c then 1 else 0
