-- ===== src/Metrics/Render.antt =====
-- src/metrics.rs: the text that `render` writes, as code points. `seconds` is the text of
-- `total_micros as f64 / 1_000_000.0`; the bounds are the texts of `BUCKETS`.
use tinkiva_sqllite_server.Prelude.{
  ℕ, zero, suc, ◌+◌, ◌/◌, ◌%◌, String, Bool, true, false, List, [], ◌∷◌, ◌++◌, ltb, codes,
}
use tinkiva_sqllite_server.Metrics.{Histogram, RouteMetrics, Metrics, routes}
use tinkiva_sqllite_server.Db.Maintenance.{ManagerStats}
pub mod Decimal

abbrev pub Text : Type 0
Text = List ℕ

-- The digits of a number, with fuel for more digits than there are.
unfoldable pub digits : ℕ → ℕ → Text
digits zero n = []
digits (suc fuel) n = elim (ltb n 10) [
  | true ↦ (48 + n) ∷ []
  | false ↦ digits fuel (n / 10) ++ (48 + n % 10) ∷ []
]

-- `Display` for `u64`
unfoldable pub decimal : ℕ → Text
decimal n = digits (suc n) n

abbrev pub bounds : List String
bounds =
    "0.001" ∷ "0.0025" ∷ "0.005" ∷ "0.01" ∷ "0.025" ∷ "0.05" ∷ "0.1" ∷ "0.25" ∷ "0.5" ∷ "1" ∷ "2.5"
    ∷ "5" ∷ []

-- `writeln!`: what stands before the last word of a line, and that word.
unfoldable pub line : Text → Text → Text
line body value = body ++ 32 ∷ value ++ 10 ∷ []

unfoldable pub render_buckets : Text → List ℕ → List String → Text
render_buckets start [] bs = []
render_buckets start (bucket ∷ buckets) [] = []
render_buckets start (bucket ∷ buckets) (bound ∷ bs) =
    line (start ++ codes "le=\"" ++ codes bound ++ codes "\"}") (decimal bucket)
    ++ render_buckets start buckets bs

abbrev pub separator : Text → Text
separator [] = []
separator (c ∷ cs) = codes ","

abbrev pub braces : Text → Text
braces [] = []
braces (c ∷ cs) = codes "{" ++ (c ∷ cs) ++ codes "}"

abbrev pub bucket_start : Text → Text → Text
bucket_start name labels = name ++ codes "_bucket{" ++ labels ++ separator labels

-- `Histogram::render`
unfoldable pub render_histogram : (ℕ → Text) → Text → Text → Histogram → Text
render_histogram seconds name labels h =
    render_buckets (bucket_start name labels) h.buckets bounds
    ++ line (bucket_start name labels ++ codes "le=\"+Inf\"}") (decimal h.count)
    ++ line (name ++ codes "_sum" ++ braces labels) (seconds h.total_micros)
    ++ line (name ++ codes "_count" ++ braces labels) (decimal h.count)

abbrev pub outcome_labels : String → String → Text
outcome_labels name outcome =
    codes "tinkiva_requests_total{route=\""
    ++ codes name
    ++ codes "\",outcome=\""
    ++ codes outcome
    ++ codes "\"}"

-- The two loops of `Metrics::render` over the routes.
unfoldable pub render_requests : List RouteMetrics → List String → Text
render_requests [] names = []
render_requests (r ∷ rs) [] = []
render_requests (r ∷ rs) (name ∷ names) =
    line (outcome_labels name "ok") (decimal r.succeeded)
    ++ line (outcome_labels name "error") (decimal r.failed)
    ++ render_requests rs names

abbrev pub route_label : String → Text
route_label name = codes "route=\"" ++ codes name ++ codes "\""

unfoldable pub render_durations : (ℕ → Text) → List RouteMetrics → List String → Text
render_durations seconds [] names = []
render_durations seconds (r ∷ rs) [] = []
render_durations seconds (r ∷ rs) (name ∷ names) =
    render_histogram seconds (codes "tinkiva_request_duration_seconds") (route_label name)
      r.duration
    ++ render_durations seconds rs names

-- Its last loop, and the array that the loop is over.
unfoldable pub render_values : List (String × String × ℕ) → Text
render_values [] = []
render_values ((name, kind, value) ∷ rest) =
    line (codes "# TYPE " ++ codes name) (codes kind)
    ++ line (codes name) (decimal value)
    ++ render_values rest

abbrev pub values : Metrics → ManagerStats → List (String × String × ℕ)
values m stats =
    ("tinkiva_requests_shed_total", "counter", m.requests_shed)
    ∷ ("tinkiva_databases_opened_total", "counter", m.databases_opened)
    ∷ ("tinkiva_databases_evicted_total", "counter", m.databases_evicted)
    ∷ ("tinkiva_databases_closed_idle_total", "counter", m.databases_closed_idle)
    ∷ ("tinkiva_wal_checkpoints_total", "counter", m.wal_checkpoints)
    ∷ ("tinkiva_open_databases", "gauge", stats.open_databases)
    ∷ ("tinkiva_active_leases", "gauge", stats.active_leases)
    ∷ ("tinkiva_max_open_databases", "gauge", stats.max_open_databases)
    ∷ ("tinkiva_available_request_slots", "gauge", stats.available_request_slots)
    ∷ ("tinkiva_max_concurrent_requests", "gauge", stats.max_concurrent_requests)
    ∷ []

-- `Metrics::render`
unfoldable pub render : (ℕ → Text) → Metrics → ManagerStats → Text
render seconds m stats =
    line (codes "# TYPE tinkiva_requests_total") (codes "counter")
    ++ render_requests m.by_route routes
    ++ line (codes "# TYPE tinkiva_request_duration_seconds") (codes "histogram")
    ++ render_durations seconds m.by_route routes
    ++ line (codes "# TYPE tinkiva_admission_wait_seconds") (codes "histogram")
    ++ render_histogram seconds (codes "tinkiva_admission_wait_seconds") [] m.admission_wait
    ++ render_values (values m stats)
