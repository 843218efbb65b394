-- ===== src/Metrics/Tests.antt =====
-- Runs of the metrics of src/metrics.rs, and the theorems about them at concrete inputs.
use tinkiva_sqllite_server.Prelude.{
  ℕ, codes, String, ◌≡◌, ◌≢◌, refl, true, false, List, [], ◌∷◌, map, arith, length, wrap64,
  get_elem?, some,
}
use tinkiva_sqllite_server.Metrics.{
  buckets_bounds, empty_histogram, new, RouteMetrics, Metrics, record_duration, record_request,
}
use tinkiva_sqllite_server.Metrics.Render.{Text, line, digits, decimal}
use tinkiva_sqllite_server.Metrics.Durations.{count_le, sum_micros, record_all, record_all-counts}
use tinkiva_sqllite_server.Metrics.Requests.{record_request_counts}

-- 30 ms, 1 ms, 6 s and 2.5 s
abbrev durations : List ℕ
durations = 30_000_000 ∷ 1_000_000 ∷ 6_000_000_000 ∷ 2_500_000_000 ∷ []

durations_recorded :
    (record_all durations).buckets ≡ 1 ∷ 1 ∷ 1 ∷ 1 ∷ 1 ∷ 2 ∷ 2 ∷ 2 ∷ 2 ∷ 2 ∷ 3 ∷ 3 ∷ []
unfolding record_duration empty_histogram
durations_recorded = refl

record_all-counts_example :
    ((record_all durations).buckets ≡ map (λ b. count_le b durations) buckets_bounds)
    × ((record_all durations).count ≡ length durations)
    × ((record_all durations).total_micros ≡ wrap64 (sum_micros durations))
record_all-counts_example = record_all-counts durations (omega arith)

abbrev execute_route : String
execute_route = "/v1/db/{database}/execute"

-- A route on which two requests have succeeded and one has failed.
abbrev counted : RouteMetrics
counted = record { duration = record empty_histogram { count = 3 }; succeeded = 2; failed = 1 }

abbrev one : ℕ
one = 1

abbrev busy : Metrics
busy = record new { by_route = counted ∷ counted ∷ counted ∷ [] }

record_request_counts_example :
    (r' : RouteMetrics) × (get_elem? (record_request execute_route 30_000_000 false busy).by_route 1
      ≡ some r')
    × (one ≡ 1
        → (r'.duration.count ≡ wrap64 4)
          × (false ≡ true → (r'.succeeded ≡ wrap64 3) × (r'.failed ≡ 1))
          × (false ≡ false → (r'.failed ≡ wrap64 2) × (r'.succeeded ≡ 2)))
    × (one ≢ 1 → r' ≡ counted)
    × ((record_request execute_route 30_000_000 false busy).admission_wait ≡ busy.admission_wait)
    × ((record_request execute_route 30_000_000 false busy).requests_shed ≡ busy.requests_shed)
record_request_counts_example =
    record_request_counts 1 1 execute_route 30_000_000 false busy counted refl refl

abbrev one_line : Text
one_line = codes "tinkiva_open_databases 12\n"

line_of_value : line (codes "tinkiva_open_databases") (decimal 12) ≡ one_line
unfolding line decimal digits
line_of_value = refl
