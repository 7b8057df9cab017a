-- ===== src/Discovery/Types.antt =====
-- The data of a discovery: pkg/discovery/types.go, Exchange of pkg/fetch/capture.go, and what the
-- code uses of net/url and encoding/json.
use pagelode.Prelude.{ℕ, Str, List, Option, Bool, Dict}

-- Exchange, without the ID, which the analysis does not read. StartedMS is only compared.
pub record Exchange : Type 0 where
  pub url : Str
  pub method : Str
  pub resource_type : Str
  pub frame_id : Str
  pub initiator : Str
  pub started_ms : ℕ
  pub request_headers : Dict Str
  pub request_body : Str
  pub status : ℕ
  pub mime_type : Str
  pub response_headers : Dict Str
  pub response_body : Str
  pub truncated : Bool
  pub error : Str

pub record Field : Type 0 where
  pub path : Str
  pub types : List Str
  pub evidence : List Str

-- A score of int: what was added to it, and what was taken off.
pub record Score : Type 0 where
  pub gained : ℕ
  pub lost : ℕ

pub record Evidence : Type 0 where
  pub id : Str
  pub url : Str
  pub method : Str
  pub status : ℕ
  pub resource_type : Str
  pub classification : Str
  pub score : Score
  pub reason : Str
  pub frame_id : Str
  pub initiator : Str
  pub started_ms : ℕ
  pub truncated : Bool
  pub incomplete : Bool

pub record Endpoint : Type 0 where
  pub id : Str
  pub host : Str
  pub method : Str
  pub path : Str
  pub protocol : Str
  pub operation : Str
  pub operations : List Str
  pub candidate : Str
  pub calls : ℕ
  pub statuses : List ℕ
  pub parameters : List Field
  pub request_schema : List Field
  pub response_schema : List Field
  pub auth : List Str
  pub evidence : List Str
  pub replayability : Str

pub record Signal : Type 0 where
  pub endpoint_id : Str
  pub kind : Str
  pub location : Str
  pub name : Str
  pub basis : Str
  pub evidence : List Str

pub record Sequence : Type 0 where
  pub evidence_id : Str
  pub endpoint_id : Str
  pub started_ms : ℕ

pub record DataSource : Type 0 where
  pub endpoint_id : Str
  pub kind : Str
  pub location : Str
  pub basis : Str
  pub evidence : List Str

pub record Summary : Type 0 where
  pub requests : ℕ
  pub data_requests : ℕ
  pub noise_requests : ℕ
  pub endpoint_count : ℕ
  pub dropped : ℕ
  pub duration_ms : ℕ
  pub incomplete : ℕ
  pub truncated : ℕ

-- Report, without the data of the page and the attempts.
pub record Report : Type 0 where
  pub summary : Summary
  pub endpoints : List Endpoint
  pub evidence : List Evidence
  pub protocols : List Signal
  pub auth : List Signal
  pub protections : List Signal
  pub sequences : List Sequence
  pub pagination : List Signal
  pub data_sources : List DataSource
  pub warnings : List Str

-- A value of encoding/json, as far as the code reads it. The members of an object stand in the order
-- of their names, in which the code walks them.
mutual
  pub data Json : Type 0 where
    null boolean number : Json
    string : Str → Json
    array : Items → Json
    object : Members → Json

  pub data Items : Type 0 where
    end : Items
    item : Json → Items → Items

  pub data Members : Type 0 where
    closed : Members
    member_of : Str → Json → Members → Members

-- What the code uses of net/url, net and encoding/json, and the expression of a SOAP envelope.
-- `query` is Query(), with the values of a name in their order; `redacted` is String() of the URL
-- without user and fragment, with a query that is encoded from names and values, and with a path.
pub record Tools (U : Type 0) : Type 0 where
  pub parse : Str → Option U
  pub scheme : U → Str
  pub host : U → Str
  pub hostname : U → Str
  pub path : U → Str
  pub query : U → List (Str × List Str)
  pub redacted : U → List (Str × Str) → Str → Str
  pub parse_query : Str → Option (List (Str × List Str))
  pub split_host_port : Str → Option Str
  pub parse_json : Str → Option Json
  pub parses_float : Str → Bool
  pub envelope_start : Str → Bool
