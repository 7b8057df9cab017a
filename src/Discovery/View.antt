-- ===== src/Discovery/View.antt =====
-- What a caller sees of a report: pkg/discovery/view.go. The slices that it writes through belong to
-- the report that is shown, and to no other.
use pagelode.Prelude.{List, [], ◌∷◌, Bool, if◌then◌else◌}
use pagelode.Discovery.Types.{Field, Endpoint, Signal, DataSource, Report}

-- hideFieldEvidence
unfoldable pub hide_fields : List Field → List Field
hide_fields [] = []
hide_fields (field ∷ fields) = record field { evidence = [] } ∷ hide_fields fields

unfoldable pub hide_endpoints : List Endpoint → List Endpoint
unfolding hide_fields
hide_endpoints [] = []
hide_endpoints (e ∷ es) =
    record e {
      evidence = [];
      parameters = hide_fields e.parameters;
      request_schema = hide_fields e.request_schema;
      response_schema = hide_fields e.response_schema;
    }
    ∷ hide_endpoints es

unfoldable pub hide_signals : List Signal → List Signal
hide_signals [] = []
hide_signals (signal ∷ signals) = record signal { evidence = [] } ∷ hide_signals signals

unfoldable pub hide_sources : List DataSource → List DataSource
hide_sources [] = []
hide_sources (source ∷ sources) = record source { evidence = [] } ∷ hide_sources sources

-- reportView
unfoldable pub report_view : Report → Bool → Report
unfolding hide_endpoints hide_signals hide_sources
report_view r verbose = if verbose then r else record r {
  evidence = [];
  sequences = [];
  endpoints = hide_endpoints r.endpoints;
  protocols = hide_signals r.protocols;
  auth = hide_signals r.auth;
  protections = hide_signals r.protections;
  pagination = hide_signals r.pagination;
  data_sources = hide_sources r.data_sources;
}
