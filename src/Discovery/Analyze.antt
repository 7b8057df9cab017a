-- ===== src/Discovery/Analyze.antt =====
-- The report on the traffic of a page: pkg/discovery/analyze.go. A slice that is indexed
-- out of range is `none`. The data that stands in the page itself is found by the parser of HTML: a
-- parameter.
pub mod Places
pub mod Counts
use pagelode.Prelude.{
  ℕ, zero, suc, ◌+◌, ◌-◌, Str, codes, List, [], ◌∷◌, ◌++◌, Option, none, some, Bool, true, false,
  ◌||◌, ◌&&◌, not, ltb, leb, ◌==◌, if◌then◌else◌, str_eq, contains, any, length, drop, take, map,
  get_elem?, to_lower, to_upper, trim_space, split, join, itoa, sort, str_less, Dict, get, put,
  member,
}
use pagelode.Discovery.Types.{
  Exchange, Field, Score, Evidence, Endpoint, Signal, Sequence, DataSource, Summary, Report, Tools,
}
use pagelode.Discovery.Schema.{
  append_unique, append_all, safe_name, schema, request_fields, query_fields, merge_fields,
}
use pagelode.Discovery.Classifier.{
  header, extract_host, normalize_entry_path, classify_entry, score_entry, default_blocklist,
}
use pagelode.Discovery.Protocol.{detect_protocol}
use pagelode.Discovery.Signals.{auth_signals, pagination_signals, protection_signals}
use pagelode.Discovery.Parts.{
  candidate_operation, add_signal, add_signals, signal_of, array_paths, or_root, add_source,
  add_sources, with_operation, with_status, path_fields, evidence_id, if_one,
}
use pagelode.Discovery.Observe.{
  evidence_of, is_noise, with_evidence, new_endpoint, group_of, observed, reported,
}

-- The report with the position of each group of requests.
pub record Analysis : Type 0 where
  pub report : Report
  pub groups : Dict ℕ

-- The place of a group in the endpoints, with a new endpoint if there is none.
unfoldable pub place_of : Analysis → Str → Endpoint → ℕ × Analysis
place_of a key fresh = elim (get a.groups key) [
  | some position ↦ (position, a)
  | none ↦
      let r = a.report in
      let position = length r.endpoints in
      (
        position,
        record a {
          report = record r {
            endpoints = r.endpoints ++ record fresh { id = codes "e" ++ itoa (position + 1) } ∷ [];
          };
          groups = put a.groups key position;
        },
      )
]

unfoldable pub set_endpoint : List Endpoint → ℕ → Endpoint → List Endpoint
set_endpoint [] position endpoint = []
set_endpoint (e ∷ es) zero endpoint = endpoint ∷ es
set_endpoint (e ∷ es) (suc position) endpoint = e ∷ set_endpoint es position endpoint

module _ {U : Type 0} (tools : Tools U) where
  -- A request at its place in the endpoints; `none` is a place that is out of range.
  unfoldable pub at_place : Exchange → U → Str → Str → Str → ℕ × Analysis → Option Analysis
  unfolding observed reported set_endpoint
  at_place entry u protocol operation evidence (position, a) =
      elim (get_elem? a.report.endpoints position) [
        | none ↦ none
        | some old ↦
            let e = observed tools old entry u operation evidence in
            let r = a.report in
            some (record a {
              report =
                  reported tools (record r { endpoints = set_endpoint r.endpoints position e })
                    entry u e protocol evidence;
            })
      ]

  -- A request whose URL can be parsed.
  unfoldable pub analyze_parsed : Analysis → ℕ → Exchange → U → Option Analysis
  unfolding at_place place_of detect_protocol
  analyze_parsed a index entry u =
      let (protocol, operation) = detect_protocol tools entry in
      at_place entry u protocol operation (evidence_id index)
        (place_of a (group_of tools entry) (new_endpoint tools entry protocol))

  -- analyzeEntry
  unfoldable pub analyze_entry : Analysis → ℕ → Exchange → Option Analysis
  unfolding analyze_parsed
  analyze_entry a index entry =
      let b : Analysis = record a { report = with_evidence tools a.report index entry } in
      if is_noise tools entry
      then some b
      else elim (tools.parse entry.url) [ none ↦ some b | some u ↦ analyze_parsed b index entry u ]

  -- The loop over the entries.
  unfoldable pub analyze_entries : Analysis → ℕ → List Exchange → Option Analysis
  unfolding analyze_entry
  analyze_entries a index [] = some a
  analyze_entries a index (entry ∷ entries) = elim (analyze_entry a index entry) [
    | none ↦ none
    | some b ↦ analyze_entries b (index + 1) entries
  ]

  abbrev pub first_report : ℕ → ℕ → ℕ → Report
  first_report requests dropped duration = record {
    summary = record {
      requests = requests;
      data_requests = 0;
      noise_requests = 0;
      endpoint_count = 0;
      dropped = dropped;
      duration_ms = duration;
      incomplete = 0;
      truncated = 0;
    };
    endpoints = [];
    evidence = [];
    protocols = [];
    auth = [];
    protections = [];
    sequences = [];
    pagination = [];
    data_sources = [];
    warnings = [];
  }

  abbrev warn_if : Bool → Str → List Str
  warn_if c message = if c then message ∷ [] else []

  -- The end of Analyze; `embedded` are the data sources that embeddedData finds in the page.
  unfoldable pub finished : List DataSource → Report → Report
  finished embedded r =
      let s = r.summary in
      record r {
        sequences = sort (λ (x y : Sequence). ltb x.started_ms y.started_ms) r.sequences;
        summary = record s { endpoint_count = length r.endpoints };
        data_sources = r.data_sources ++ embedded;
        warnings =
            warn_if (ltb 0 s.dropped)
              (codes "request limit reached; some requests were not retained")
            ++ (warn_if (ltb 0 s.truncated)
                  (codes "body limits reached; some schemas may be incomplete")
                ++ (warn_if (ltb 0 s.incomplete) (
                      codes "some requests or bodies were incomplete during the observation window")
                    ++ (warn_if (s.data_requests == 0)
                          (codes "no data endpoint observed during this page load")
                        ++ codes
                            "endpoint descriptions are inferred from observed traffic; direct replay is untested"
                          ∷ [])));
      }

  abbrev pub finish_analysis : List DataSource → Option Analysis → Option Report
  finish_analysis embedded none = none
  finish_analysis embedded (some a) = some (finished embedded a.report)

  -- Analyze of a document with traffic.
  unfoldable pub analyze : List Exchange → ℕ → ℕ → List DataSource → Option Report
  unfolding analyze_entries finished
  analyze entries dropped duration embedded = finish_analysis embedded (
      analyze_entries
        (record { report = first_report (length entries) dropped duration; groups = [] }) 0 entries)
