-- ===== src/Discovery/Analyze/Counts.antt =====
-- What the counts of a report on traffic say: Analyze of pkg/discovery/analyze.go.
use pagelode.Prelude.{
  ℕ, ◌+◌, ◌<◌, ◌≡◌, refl, arith, Str, codes, List, [], ◌∷◌, ◌++◌, Option, none, some, Bool, true,
  false, ltb, if◌then◌else◌, length, length-append, length-sort, All-append, get_elem?, get, itoa,
  split, Option-cases, inl, inr, ◌∙◌, sym,
}
use mathlib.Core.Path.{subst}
use pagelode.Discovery.Types.{Exchange, Endpoint, Sequence, DataSource, Report, Tools}
use pagelode.Discovery.Schema.{query_fields, request_fields, schema}
use pagelode.Discovery.Classifier.{header, normalize_entry_path}
use pagelode.Discovery.Schema.Safety.{merge_fields-few}
use pagelode.Discovery.Protocol.{detect_protocol}
use pagelode.Discovery.Parts.{with_operation, evidence_id, path_fields}
use pagelode.Discovery.Observe.{
  is_noise, with_evidence, evidence_of, new_endpoint, group_of, observed,
}
use pagelode.Discovery.Analyze.{
  Analysis, place_of, at_place, analyze_parsed, analyze_entry, analyze_entries, finished,
  finish_analysis, analyze, first_report,
}
use pagelode.Discovery.Analyze.Places.{
  total_calls, IsHeard, IsTally, ArePlaced, placed-put, IsKept, no_elem, total-set_endpoint,
  length-set_endpoint, All-set_endpoint, get_elem-IsHeard, with_operation-IsHeard,
}

module _ {U : Type 0} (tools : Tools U) where
  observed-IsHeard :
      (e : Endpoint) (entry : Exchange) (u : U) (operation evidence : Str)
      → IsHeard e
      → IsHeard (observed tools e entry u operation evidence)
        × ((observed tools e entry u operation evidence).calls ≡ e.calls + 1)
  unfolding observed
  observed-IsHeard e entry u operation evidence h =
      let w = with_operation e operation in
      let (g, same) = with_operation-IsHeard e operation h in
      (
        record {
          calls = omega (arith, g.calls, length-append w.evidence (evidence ∷ []));
          parameters =
              merge_fields-few w.parameters
                (query_fields tools (tools.query u) (codes "query.")
                  ++ path_fields (split (normalize_entry_path tools entry.url) 47))
                evidence g.parameters;
          request_fields =
              merge_fields-few w.request_schema
                (request_fields tools entry.request_body
                  (header entry.request_headers (codes "content-type")))
                evidence g.request_fields;
          response_fields =
              merge_fields-few w.response_schema (schema tools entry.response_body) evidence
                g.response_fields;
        },
        omega (arith, same),
      )

  -- Whether a request is noise, and whether it is a data request: one that is not noise and whose
  -- URL can be parsed; as numbers.
  abbrev pub noise_of : Exchange → ℕ
  noise_of entry = if is_noise tools entry then 1 else 0

  abbrev pub data_of : Exchange → ℕ
  data_of entry =
      if is_noise tools entry then 0 else elim (tools.parse entry.url) [ none ↦ 0 | some u ↦ 1 ]

  abbrev pub noise_in : List Exchange → ℕ
  noise_in [] = 0
  noise_in (entry ∷ entries) = noise_of entry + noise_in entries

  abbrev pub data_in : List Exchange → ℕ
  data_in [] = 0
  data_in (entry ∷ entries) = data_of entry + data_in entries

  -- A report with the evidence of one more request.
  with_evidence-IsTally :
      (r : Report) (index n q d : ℕ) (entry : Exchange)
      → IsTally n q d r
      → IsTally (n + 1) (q + noise_of entry) d (with_evidence tools r index entry)
  unfolding with_evidence
  with_evidence-IsTally r index n q d entry t = record {
    evidence =
        omega (arith, t.evidence, length-append r.evidence (evidence_of tools index entry ∷ []));
    noise = ground (arith, t.noise);
    sequences = t.sequences;
    data_requests = t.data_requests;
    calls = t.calls;
    heard = t.heard;
  }

  new_endpoint-IsHeard :
      (entry : Exchange) (protocol id : Str)
      → IsHeard (record (new_endpoint tools entry protocol) { id = id })
  new_endpoint-IsHeard entry protocol id = record {
    calls = refl;
    parameters = omega arith;
    request_fields = omega arith;
    response_fields = omega arith;
  }

  total-append :
      (es : List Endpoint) (e : Endpoint)
      → e.calls ≡ 0
      → total_calls (es ++ e ∷ []) ≡ total_calls es
  total-append [] e h = omega (arith, h)
  total-append (x ∷ es) e h = omega (arith, total-append es e h)

  -- The place of a group is in range, and a new endpoint changes no count.
  place_of-IsTally :
      (a : Analysis) (key : Str) (entry : Exchange) (protocol : Str) (n q d : ℕ)
      → IsTally n q d a.report
      → ArePlaced a.groups a.report.endpoints
      → let (position, b) = place_of a key (new_endpoint tools entry protocol) in
        IsTally n q d b.report
        × ArePlaced b.groups b.report.endpoints
        × (position < length b.report.endpoints)
        × (b.report.sequences ≡ a.report.sequences)
  unfolding place_of
  place_of-IsTally a key entry protocol n q d t p = elim (Option-cases (get a.groups key)) [
    | inr (position, known) ↦ rw (known, place_of) (t, p, p key position known, refl)
    | inl new ↦
        let es = a.report.endpoints in
        let e : Endpoint = record (new_endpoint tools entry protocol) {
          id = codes "e" ++ itoa (length es + 1);
        } in
        let longer = length-append es (e ∷ []) in
        rw (new, place_of)
          (
            record {
              evidence = t.evidence;
              noise = t.noise;
              sequences = t.sequences;
              data_requests = t.data_requests;
              calls = total-append es e refl ∙ t.calls;
              heard =
                  All-append IsHeard es (e ∷ []) t.heard
                    (new_endpoint-IsHeard entry protocol _, tt);
            },
            placed-put a.groups key (length es) _ (omega (arith, longer)) p,
            omega (arith, longer),
            refl,
          )
  ]

  -- A request that goes into an endpoint whose place is in range.
  at_place-IsTally :
      (entry : Exchange) (u : U) (protocol operation evidence : Str) (position : ℕ) (a : Analysis)
      (n q d : ℕ)
      → is_noise tools entry ≡ false
      → IsTally n q d a.report
      → ArePlaced a.groups a.report.endpoints
      → position < length a.report.endpoints
      → IsKept n q (d + 1) (at_place tools entry u protocol operation evidence (position, a))
  unfolding at_place
  at_place-IsTally entry u protocol operation evidence position a n q d quiet t p inside =
      elim (Option-cases (get_elem? a.report.endpoints position)) [
        | inl out ↦ absurd (omega (arith, no_elem a.report.endpoints position out))
        | inr (old, found) ↦
            let es = a.report.endpoints in
            let e = observed tools old entry u operation evidence in
            let (heard, more) =
              observed-IsHeard old entry u operation evidence
                (get_elem-IsHeard es position t.heard found) in
            let same = length-set_endpoint es position e in
            let sum = total-set_endpoint es position e found in
            let longer = length-append a.report.sequences (
              record { evidence_id = evidence; endpoint_id = e.id; started_ms = entry.started_ms }
              ∷ []) in
            rw (found, at_place)
              (
                record {
                  evidence = t.evidence;
                  noise = t.noise;
                  sequences = omega (arith, t.sequences, longer);
                  data_requests = rw quiet (omega (arith, t.data_requests, longer));
                  calls = omega (arith, t.calls, sum, more, longer);
                  heard = All-set_endpoint es position e t.heard heard;
                },
                λ key i h. omega (arith, p key i h, same),
              )
      ]

  analyze_parsed-IsKept :
      (a : Analysis) (index n q d : ℕ) (entry : Exchange) (u : U)
      → is_noise tools entry ≡ false
      → IsTally n q d a.report
      → ArePlaced a.groups a.report.endpoints
      → IsKept n q (d + 1) (analyze_parsed tools a index entry u)
  unfolding analyze_parsed
  analyze_parsed-IsKept a index n q d entry u quiet t p =
      let (protocol, operation) = detect_protocol tools entry in
      let (position, b) = place_of a (group_of tools entry) (new_endpoint tools entry protocol) in
      let (tally, placed, inside, same) =
        place_of-IsTally a (group_of tools entry) entry protocol n q d t p in
      at_place-IsTally entry u protocol operation (evidence_id index) position b n q d quiet tally
        placed inside

  endpoints-with_evidence :
      (r : Report) (index : ℕ) (entry : Exchange)
      → (with_evidence tools r index entry).endpoints ≡ r.endpoints
  unfolding with_evidence
  endpoints-with_evidence r index entry = refl

  if_kept :
      (n q d : ℕ) (c : Bool) (x y : Option Analysis)
      → (c ≡ true → IsKept n q d x)
      → (c ≡ false → IsKept n q d y)
      → IsKept n q d (if c then x else y)
  if_kept n q d true x y h g = h refl
  if_kept n q d false x y h g = g refl

  analyze_entry-IsKept :
      (a : Analysis) (index n q d : ℕ) (entry : Exchange)
      → IsTally n q d a.report
      → ArePlaced a.groups a.report.endpoints
      → IsKept (n + 1) (q + noise_of entry) (d + data_of entry) (analyze_entry tools a index entry)
  unfolding analyze_entry
  analyze_entry-IsKept a index n q d entry t p =
      let tally = with_evidence-IsTally a.report index n q d entry t in
      let b : Analysis = record a { report = with_evidence tools a.report index entry } in
      let placed : ArePlaced b.groups b.report.endpoints =
        subst (ArePlaced a.groups) (sym (endpoints-with_evidence a.report index entry)) p in
      if_kept (n + 1) (q + noise_of entry) (d + data_of entry) (is_noise tools entry) _ _
        (λ noise. (
          subst (λ i. IsTally (n + 1) (q + noise_of entry) i b.report) (ground (arith, noise))
              tally,
          placed,
        ))
        (λ quiet. elim (Option-cases (tools.parse entry.url)) [
          | inl bad ↦
              at_count (d + data_of entry) d (ground (arith, quiet, bad)) (simp bad (tally, placed))
          | inr (u, good) ↦ at_count (d + data_of entry) (d + 1) (ground (arith, quiet, good)) (
              simp good (
                analyze_parsed-IsKept b index (n + 1) (q + noise_of entry) d entry u quiet tally
                  placed))
        ])
    where
      at_count :
          (i j : ℕ)
          → j ≡ i
          → IsKept (n + 1) (q + noise_of entry) j (elim (tools.parse entry.url) [
            | none ↦ some (record a { report = with_evidence tools a.report index entry })
            | some v ↦
                analyze_parsed tools
                  (record a { report = with_evidence tools a.report index entry })
                  index
                  entry
                  v
          ])
          → IsKept (n + 1) (q + noise_of entry) i (elim (tools.parse entry.url) [
            | none ↦ some (record a { report = with_evidence tools a.report index entry })
            | some v ↦
                analyze_parsed tools
                  (record a { report = with_evidence tools a.report index entry })
                  index
                  entry
                  v
          ])
      at_count i j e h = rw e at h

  next_lem :
      (n q d m q' d' index : ℕ) (entries : List Exchange) (x : Option Analysis)
      → ((a : Analysis)
          → IsTally n q d a.report
          → ArePlaced a.groups a.report.endpoints
          → IsKept m q' d' (analyze_entries tools a index entries))
      → IsKept n q d x
      → IsKept m q' d' (elim x [ none ↦ none | some b ↦ analyze_entries tools b index entries ])
  next_lem n q d m q' d' index entries none rest h = absurd h
  next_lem n q d m q' d' index entries (some a) rest (t, p) = rest a t p

  retally :
      {n q d m q' d' : ℕ} {r : Report}
      → n ≡ m
      → q ≡ q'
      → d ≡ d'
      → IsTally n q d r
      → IsTally m q' d' r
  retally e f g t = record {
    evidence = t.evidence ∙ e;
    noise = t.noise ∙ f;
    sequences = t.sequences ∙ g;
    data_requests = t.data_requests;
    calls = t.calls;
    heard = t.heard;
  }

  analyze_entries-IsKept :
      (entries : List Exchange) (a : Analysis) (index n q d m q' d' : ℕ)
      → n + length entries ≡ m
      → q + noise_in entries ≡ q'
      → d + data_in entries ≡ d'
      → IsTally n q d a.report
      → ArePlaced a.groups a.report.endpoints
      → IsKept m q' d' (analyze_entries tools a index entries)
  unfolding analyze_entries
  analyze_entries-IsKept [] a index n q d m q' d' e f g t p =
      (retally (omega (arith, e)) (omega (arith, f)) (omega (arith, g)) t, p)
  analyze_entries-IsKept (entry ∷ entries) a index n q d m q' d' e f g t p =
      next_lem (n + 1) (q + noise_of entry) (d + data_of entry) m q' d' (index + 1) entries
        (analyze_entry tools a index entry)
        (λ b s placed.
          analyze_entries-IsKept entries b (index + 1) (n + 1) (q + noise_of entry)
            (d + data_of entry) m q' d' (omega (arith, e)) (omega (arith, f)) (omega (arith, g)) s
            placed)
        (analyze_entry-IsKept a index n q d entry t p)

  -- What a report states of the requests.
  abbrev pub IsReport : List Exchange → Option Report → Type 0
  IsReport entries none = ⊥
  IsReport entries (some r) =
      IsTally (length entries) (noise_in entries) (data_in entries) r
      × (r.summary.endpoint_count ≡ length r.endpoints)

  finished-IsTally :
      (embedded : List DataSource) (r : Report) (n q d : ℕ)
      → IsTally n q d r
      → IsTally n q d (finished tools embedded r)
  unfolding finished
  finished-IsTally embedded r n q d t =
      let same = length-sort (λ (x y : Sequence). ltb x.started_ms y.started_ms) r.sequences in
      record {
        evidence = t.evidence;
        noise = t.noise;
        sequences = omega (arith, t.sequences, same);
        data_requests = omega (arith, t.data_requests, same);
        calls = omega (arith, t.calls, same);
        heard = t.heard;
      }

  finish_lem :
      (embedded : List DataSource) (entries : List Exchange) (x : Option Analysis)
      → IsKept (length entries) (noise_in entries) (data_in entries) x
      → IsReport entries (finish_analysis tools embedded x)
  unfolding finished
  finish_lem embedded entries none h = absurd h
  finish_lem embedded entries (some a) (t, p) = (
    finished-IsTally embedded a.report (length entries) (noise_in entries) (data_in entries) t,
    refl,
  )

  -- Analyze has a report on any traffic: no group of requests points outside the endpoints. There is one
  -- piece of evidence for each request. The noise counted is the number of requests that are noise;
  -- the sequence is as long as the number of requests that are no noise and whose URL can be parsed,
  -- and the data requests and the calls of the endpoints each add up to that number. Each endpoint
  -- names as many pieces of evidence as it has calls and has at most 512 fields of each kind; and the
  -- count of endpoints is that of the list.
  pub analyze-IsReport :
      (entries : List Exchange) (dropped duration : ℕ) (embedded : List DataSource)
      → IsReport entries (analyze tools entries dropped duration embedded)
  unfolding analyze get
  analyze-IsReport entries dropped duration embedded = finish_lem embedded entries _ (
      analyze_entries-IsKept entries
        (record { report = first_report tools (length entries) dropped duration; groups = [] }) 0 0
        0 0 (length entries) (noise_in entries) (data_in entries) (omega arith) (omega arith)
        (omega arith)
        (record {
          evidence = refl;
          noise = refl;
          sequences = refl;
          data_requests = refl;
          calls = refl;
          heard = tt;
        })
        (λ key position h. absurd (ground arith)))
