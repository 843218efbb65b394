-- ===== src/Metrics/Requests.antt =====
-- What `record_request` of src/metrics.rs counts, and what it leaves alone.
use tinkiva_sqllite_server.Prelude.{
  ℕ, zero, suc, String, ◌+◌, ◌≡◌, ◌≢◌, refl, Bool, none, some, List, [], ◌∷◌, arith, eq_iff,
  if◌then◌else◌, get_elem?, All, wrap64, Option-cases, Bool-cases, true, false, ◌==◌, inl, inr,
}
use mathlib.Core.Path.{subst}
use mathlib.Core.Option.{some-injective}
use tinkiva_sqllite_server.Metrics.{
  RouteMetrics, Metrics, routes, position, update_route, record_outcome, record_request,
  record_duration,
}

position-none :
    (route : String) (known : List String)
    → All (λ k. k ≢ route) known
    → position route known ≡ none
unfolding position
position-none route [] h = refl
position-none route (k ∷ ks) h = ground (arith, eq_iff k route, position-none route ks h.1)

position_of_index :
    (j : ℕ) (route : String) → get_elem? routes j ≡ some route → position route routes ≡ some j
unfolding position
position_of_index zero route h = subst (λ t. position t routes ≡ some 0) (some-injective _ _ h) refl
position_of_index (suc zero) route h =
    subst (λ t. position t routes ≡ some 1) (some-injective _ _ h) refl
position_of_index (suc (suc zero)) route h =
    subst (λ t. position t routes ≡ some 2) (some-injective _ _ h) refl
position_of_index (suc (suc (suc j))) route h = absurd (ground arith)

get_elem?-update_route :
    (f : RouteMetrics → RouteMetrics) (i j : ℕ) (rs : List RouteMetrics) (r : RouteMetrics)
    → get_elem? rs j ≡ some r
    → get_elem? (update_route i f rs) j ≡ (if i == j then some (f r) else some r)
unfolding update_route
get_elem?-update_route f i j [] r h = absurd (ground arith)
get_elem?-update_route f zero zero (x ∷ rs) r h = ground arith
get_elem?-update_route f zero (suc j) (x ∷ rs) r h = ground arith
get_elem?-update_route f (suc i) zero (x ∷ rs) r h = ground arith
get_elem?-update_route f (suc i) (suc j) (x ∷ rs) r h =
    ground (arith, get_elem?-update_route f i j rs r h)

record_request_admission :
    (route : String) (elapsed : ℕ) (succeeded : Bool) (m : Metrics)
    → ((record_request route elapsed succeeded m).admission_wait ≡ m.admission_wait)
      × ((record_request route elapsed succeeded m).requests_shed ≡ m.requests_shed)
unfolding record_request
record_request_admission route elapsed succeeded m = elim (Option-cases (position route routes)) [
  | inl e ↦ rw (e, record_request) (refl, refl)
  | inr (i, e) ↦ rw (e, record_request) (refl, refl)
]

-- A request whose matched path is the route `i` of the table is recorded at that route and leaves
-- every other route as it was.
record_request-get_elem? :
    (i j : ℕ) (route : String) (elapsed : ℕ) (succeeded : Bool) (m : Metrics) (r : RouteMetrics)
    → get_elem? routes i ≡ some route
    → get_elem? m.by_route j ≡ some r
    → get_elem? (record_request route elapsed succeeded m).by_route j
      ≡ (if i == j then some (record_outcome elapsed succeeded r) else some r)
unfolding record_request
record_request-get_elem? i j route elapsed succeeded m r hi hr =
    rw (position_of_index i route hi, record_request)
      (get_elem?-update_route (record_outcome elapsed succeeded) i j m.by_route r hr)

-- A request whose matched path is the route `i` of the table adds one to the histogram of that route
-- and to its successes or to its failures, as it went; the other of these two counters, every other
-- route, the admission waits and the number of shed requests stay.
pub record_request_counts :
    (i j : ℕ) (route : String) (elapsed : ℕ) (succeeded : Bool) (m : Metrics) (r : RouteMetrics)
    → get_elem? routes i ≡ some route
    → get_elem? m.by_route j ≡ some r
    → (r' : RouteMetrics) × (get_elem? (record_request route elapsed succeeded m).by_route j
        ≡ some r')
      × (i ≡ j
          → (r'.duration.count ≡ wrap64 (r.duration.count + 1))
            × (succeeded ≡ true
                → (r'.succeeded ≡ wrap64 (r.succeeded + 1)) × (r'.failed ≡ r.failed))
            × (succeeded ≡ false
                → (r'.failed ≡ wrap64 (r.failed + 1)) × (r'.succeeded ≡ r.succeeded)))
      × (i ≢ j → r' ≡ r)
      × ((record_request route elapsed succeeded m).admission_wait ≡ m.admission_wait)
      × ((record_request route elapsed succeeded m).requests_shed ≡ m.requests_shed)
unfolding record_outcome record_duration
record_request_counts i j route elapsed succeeded m r hi hr =
    let recorded = record_request-get_elem? i j route elapsed succeeded m r hi hr in
    let (waits, shed) = record_request_admission route elapsed succeeded m in
    elim (Bool-cases (i == j)) [
      | inl same ↦ (
        record_outcome elapsed succeeded r,
        ground (arith, recorded),
        λ _. (
          ground arith,
          (λ good. rw (good, record_outcome) (refl, refl)),
          λ bad. rw (bad, record_outcome) (refl, refl),
        ),
        λ other. ground arith,
        waits,
        shed,
      )
      | inr other ↦
          (r, ground (arith, recorded), (λ same. absurd (ground arith)), (λ _. refl), waits, shed)
    ]

-- A path that is not in the table, such as one with a tenant's name in it, changes no metric.
pub record_request_unknown :
    (route : String) (elapsed : ℕ) (succeeded : Bool) (m : Metrics)
    → All (λ k. k ≢ route) routes
    → record_request route elapsed succeeded m ≡ m
unfolding record_request
record_request_unknown route elapsed succeeded m h =
    rw (position-none route routes h, record_request)
