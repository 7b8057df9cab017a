-- ===== src/Discovery/Observe.antt =====
-- What a request leaves in a report and in its endpoint: analyzeEntry of pkg/discovery/analyze.go.
use pagelode.Prelude.{
  ℕ, ◌+◌, Str, codes, List, [], ◌∷◌, ◌++◌, none, some, Bool, not, ltb, if◌then◌else◌, str_eq,
  length, map, to_lower, to_upper, trim_space, split, join,
}
use pagelode.Discovery.Types.{Exchange, Evidence, Endpoint, Sequence, Report, Tools}
use pagelode.Discovery.Schema.{
  append_all, safe_name, schema, request_fields, query_fields, merge_fields,
}
use pagelode.Discovery.Classifier.{
  header, extract_host, normalize_entry_path, classify_entry, score_entry, default_blocklist,
}
use pagelode.Discovery.Signals.{auth_signals, pagination_signals, protection_signals}
use pagelode.Discovery.Parts.{
  candidate_operation, add_signal, add_signals, signal_of, array_paths, or_root, add_sources,
  with_operation, with_status, path_fields, evidence_id, if_one,
}

module _ {U : Type 0} (tools : Tools U) where
  abbrev redacted_names : List (Str × List Str) → List (Str × Str)
  redacted_names [] = []
  redacted_names ((name, values) ∷ rest) =
      (safe_name name, codes "[redacted]") ∷ redacted_names rest

  abbrev redacted_part : Str → Str
  redacted_part part = if ltb 100 (length part) then codes "[redacted]" else part

  -- sanitizeURL
  unfoldable pub sanitize_url : Str → Str
  unfolding safe_name
  sanitize_url raw = elim (tools.parse raw) [
    | none ↦ []
    | some u ↦
        tools.redacted u (redacted_names (tools.query u))
          (join (map redacted_part (split (tools.path u) 47)) (codes "/"))
  ]

  unfoldable pub evidence_of : ℕ → Exchange → Evidence
  unfolding sanitize_url classify_entry score_entry
  evidence_of index entry =
      let (classification, reason) = classify_entry tools entry in
      record {
        id = evidence_id index;
        url = sanitize_url entry.url;
        method = entry.method;
        status = entry.status;
        resource_type = entry.resource_type;
        classification = classification;
        score = score_entry tools entry default_blocklist;
        reason = reason;
        frame_id = entry.frame_id;
        initiator = entry.initiator;
        started_ms = entry.started_ms;
        truncated = entry.truncated;
        incomplete = not (str_eq entry.error []);
      }

  abbrev pub is_noise : Exchange → Bool
  is_noise entry = str_eq (classify_entry tools entry).0 (codes "noise")

  -- The counts that every request goes into.
  unfoldable pub with_evidence : Report → ℕ → Exchange → Report
  unfolding evidence_of
  with_evidence r index entry =
      let s = r.summary in
      record r {
        evidence = r.evidence ++ evidence_of index entry ∷ [];
        summary = record s {
          truncated = s.truncated + if_one entry.truncated;
          incomplete = s.incomplete + if_one (not (str_eq entry.error []));
          noise_requests = s.noise_requests + if_one (is_noise entry);
        };
      }

  -- The endpoint that a request opens, but for its place.
  abbrev pub new_endpoint : Exchange → Str → Endpoint
  new_endpoint entry protocol = record {
    id = [];
    host = to_lower (extract_host tools entry.url);
    method = to_upper (trim_space entry.method);
    path = normalize_entry_path tools entry.url;
    protocol = protocol;
    operation = [];
    operations = [];
    candidate =
        candidate_operation (to_upper (trim_space entry.method))
          (normalize_entry_path tools entry.url);
    calls = 0;
    statuses = [];
    parameters = [];
    request_schema = [];
    response_schema = [];
    auth = [];
    evidence = [];
    replayability = codes "untested";
  }

  abbrev pub group_of : Exchange → Str
  group_of entry =
      to_lower (extract_host tools entry.url)
      ++ (codes " "
          ++ (to_upper (trim_space entry.method)
              ++ (codes " " ++ normalize_entry_path tools entry.url)))

  -- What an endpoint learns from a request.
  unfoldable pub observed : Endpoint → Exchange → U → Str → Str → Endpoint
  unfolding with_operation merge_fields
  observed e entry u operation evidence =
      let w = with_operation e operation in
      record w {
        calls = w.calls + 1;
        evidence = w.evidence ++ evidence ∷ [];
        statuses = with_status w.statuses entry.status;
        parameters =
            merge_fields w.parameters
              (query_fields tools (tools.query u) (codes "query.")
                ++ path_fields (split (normalize_entry_path tools entry.url) 47))
              evidence;
        request_schema =
            merge_fields w.request_schema
              (request_fields tools entry.request_body
                (header entry.request_headers (codes "content-type")))
              evidence;
        response_schema =
            merge_fields w.response_schema (schema tools entry.response_body) evidence;
        auth = append_all w.auth (auth_signals tools entry);
      }

  -- The lists of the report that a request goes into, once its endpoint has learned from it.
  unfoldable pub reported : Report → Exchange → U → Endpoint → Str → Str → Report
  unfolding add_signals add_sources
  reported r entry u e protocol evidence =
      let s = r.summary in
      let sequence : Sequence = record {
        evidence_id = evidence;
        endpoint_id = e.id;
        started_ms = entry.started_ms;
      } in
      record r {
        auth = add_signals r.auth (
            map (λ kind. signal_of e.id kind (codes "observed") evidence)
              (auth_signals tools entry));
        protocols = add_signal r.protocols (signal_of e.id protocol (codes "inferred") evidence);
        pagination =
            add_signals r.pagination (pagination_signals tools e.id entry (tools.query u) evidence);
        protections = add_signals r.protections (
            map (λ kind. signal_of e.id kind (codes "observed") evidence)
              (protection_signals entry));
        sequences = r.sequences ++ sequence ∷ [];
        summary = record s { data_requests = s.data_requests + if_one (not (is_noise entry)) };
        data_sources =
            if is_noise entry
            then r.data_sources
            else add_sources r.data_sources e (or_root (array_paths e.response_schema)) evidence;
      }
