-- ===== src/Discovery/Analyze/Places.antt =====
-- The places of endpoints and what changing one does to the counts: pkg/discovery/analyze.go.
use pagelode.Prelude.{
  ℕ, zero, suc, ◌+◌, ◌≤◌, ◌<◌, ◌≡◌, refl, arith, Str, List, [], ◌∷◌, Option, none, some,
  if◌then◌else◌, str_eq, length, All, get_elem?, Dict, get, put, get-put, Bool-cases, inl, inr, ◌∙◌,
  sym, ap,
}
use mathlib.Core.Path.{subst}
use pagelode.Discovery.Types.{Endpoint, Report}
use pagelode.Discovery.Schema.{maximum_fields}
use pagelode.Discovery.Parts.{with_operation}
use pagelode.Discovery.Analyze.{Analysis, set_endpoint}

-- The requests of the endpoints.
abbrev pub total_calls : List Endpoint → ℕ
total_calls [] = 0
total_calls (e ∷ es) = e.calls + total_calls es

-- An endpoint names each of its requests as evidence, and its lists of fields are bounded.
pub record IsHeard (e : Endpoint) : Type 0 where
  pub calls : e.calls ≡ length e.evidence
  pub parameters : length e.parameters ≤ maximum_fields
  pub request_fields : length e.request_schema ≤ maximum_fields
  pub response_fields : length e.response_schema ≤ maximum_fields

-- What holds of a report once n requests are in it, q of them noise and d of them data requests.
pub record IsTally (n q d : ℕ) (r : Report) : Type 0 where
  pub evidence : length r.evidence ≡ n
  pub noise : r.summary.noise_requests ≡ q
  pub sequences : length r.sequences ≡ d
  pub data_requests : r.summary.data_requests ≡ length r.sequences
  pub calls : total_calls r.endpoints ≡ length r.sequences
  pub heard : All IsHeard r.endpoints

-- The groups point into the endpoints.
abbrev pub ArePlaced : Dict ℕ → List Endpoint → Type 0
ArePlaced groups endpoints =
    (key : Str) (position : ℕ) → get groups key ≡ some position → position < length endpoints

pub placed-put :
    (groups : Dict ℕ) (key : Str) (n m : ℕ)
    → n < m
    → ((other : Str) (position : ℕ) → get groups other ≡ some position → position < n)
    → (other : Str) (position : ℕ) → get (put groups key n) other ≡ some position
    → position < m
placed-put groups key n m less p other position h =
    let h' : (if str_eq key other then some n else get groups other) ≡ some position =
      sym (get-put groups key n other) ∙ h in
    elim (Bool-cases (str_eq key other)) [
      | inl same ↦
          omega
            (arith, ap {B = ℕ} (λ (y : Option ℕ). elim y [ none ↦ n | some z ↦ z ]) (rw same at h'))
      | inr different ↦ omega (arith, p other position (rw different at h'))
    ]

-- There is an analysis, with n requests, q of them noise and d of them data requests, and its groups
-- point into its endpoints.
abbrev pub IsKept : ℕ → ℕ → ℕ → Option Analysis → Type 0
IsKept n q d none = ⊥
IsKept n q d (some a) = IsTally n q d a.report × ArePlaced a.groups a.report.endpoints

pub no_elem : (es : List Endpoint) (i : ℕ) → get_elem? es i ≡ none → length es ≤ i
no_elem [] i e = omega arith
no_elem (x ∷ es) zero e = absurd (ground arith)
no_elem (x ∷ es) (suc i) e = omega (arith, no_elem es i e)

pub total-set_endpoint :
    (es : List Endpoint) (i : ℕ) (e : Endpoint) {old : Endpoint}
    → get_elem? es i ≡ some old
    → total_calls (set_endpoint es i e) + old.calls ≡ total_calls es + e.calls
unfolding set_endpoint
total-set_endpoint [] i e h = absurd (ground arith)
total-set_endpoint (x ∷ es) zero e {old = old} h =
    omega (arith, ap {B = ℕ} (λ (y : Option Endpoint). elim y [ none ↦ 0 | some z ↦ z.calls ]) h)
total-set_endpoint (x ∷ es) (suc i) e h = omega (arith, total-set_endpoint es i e h)

pub length-set_endpoint :
    (es : List Endpoint) (i : ℕ) (e : Endpoint) → length (set_endpoint es i e) ≡ length es
unfolding set_endpoint
length-set_endpoint [] i e = refl
length-set_endpoint (x ∷ es) zero e = refl
length-set_endpoint (x ∷ es) (suc i) e = ap suc (length-set_endpoint es i e)

pub All-set_endpoint :
    (es : List Endpoint) (i : ℕ) (e : Endpoint)
    → All IsHeard es
    → IsHeard e
    → All IsHeard (set_endpoint es i e)
unfolding set_endpoint
All-set_endpoint [] i e h g = tt
All-set_endpoint (x ∷ es) zero e h g = (g, h.1)
All-set_endpoint (x ∷ es) (suc i) e h g = (h.0, All-set_endpoint es i e h.1 g)

pub get_elem-IsHeard :
    (es : List Endpoint) (i : ℕ) {old : Endpoint}
    → All IsHeard es
    → get_elem? es i ≡ some old
    → IsHeard old
get_elem-IsHeard [] i h e = absurd (ground arith)
get_elem-IsHeard (x ∷ es) zero h e =
    subst IsHeard (ap {B = Endpoint} (λ (y : Option Endpoint). elim y [ none ↦ x | some z ↦ z ]) e)
      h.0
get_elem-IsHeard (x ∷ es) (suc i) h e = get_elem-IsHeard es i h.1 e

pub with_operation-IsHeard :
    (e : Endpoint) (operation : Str)
    → IsHeard e
    → IsHeard (with_operation e operation) × ((with_operation e operation).calls ≡ e.calls)
unfolding with_operation
with_operation-IsHeard e operation h = elim (Bool-cases (str_eq operation [])) [
  | inl none_named ↦ simp none_named (h, refl)
  | inr named ↦ simp named (
    record {
      calls = h.calls;
      parameters = h.parameters;
      request_fields = h.request_fields;
      response_fields = h.response_fields;
    },
    refl,
  )
]
