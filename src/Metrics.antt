-- ===== src/Metrics.antt =====
-- src/metrics.rs: the counters. Every counter is an `AtomicU64`, so it wraps at 2 ^ 64.
-- A duration is its count of nanoseconds. `as_secs_f64` rounds, but a bound of `BUCKETS` is below
-- 2 ^ 3 seconds, where two durations a nanosecond apart are different doubles: comparing the
-- rounded seconds with the rounded bound is comparing the nanoseconds.
use tinkiva_sqllite_server.Prelude.{
  ℕ, zero, suc, String, ◌+◌, ◌/◌, ◌%◌, Bool, true, false, Option, none, some, List, [], ◌∷◌, map,
  if◌then◌else◌, leb, str_eq, wrap64, replicate, get_elem?,
}
pub mod Render
mod Durations
mod Requests
mod Tests

-- The upper bounds, in nanoseconds.
abbrev pub buckets_bounds : List ℕ
buckets_bounds =
    1_000_000 ∷ 2_500_000 ∷ 5_000_000 ∷ 10_000_000 ∷ 25_000_000 ∷ 50_000_000 ∷ 100_000_000
    ∷ 250_000_000 ∷ 500_000_000 ∷ 1_000_000_000 ∷ 2_500_000_000 ∷ 5_000_000_000 ∷ []

abbrev pub routes : List String
routes = "/v1/db/{database}/query" ∷ "/v1/db/{database}/execute" ∷ "/v1/db/{database}/batch" ∷ []

pub record Histogram : Type 0 where
  pub buckets : List ℕ
  pub count : ℕ
  pub total_micros : ℕ

-- `#[derive(Default)]`
unfoldable pub empty_histogram : Histogram
empty_histogram = record { buckets = replicate 12 0; count = 0; total_micros = 0 }

-- The loop over `buckets.iter().zip(BUCKETS)`.
pub record_buckets : ℕ → List ℕ → List ℕ → List ℕ
record_buckets elapsed [] bounds = []
record_buckets elapsed (bucket ∷ buckets) [] = bucket ∷ buckets
record_buckets elapsed (bucket ∷ buckets) (bound ∷ bounds) =
    (if leb elapsed bound then wrap64 (bucket + 1) else bucket)
    ∷ record_buckets elapsed buckets bounds

-- `Histogram::record`. `as_micros() as u64` keeps the low 64 bits.
unfoldable pub record_duration : ℕ → Histogram → Histogram
unfolding record_buckets
record_duration elapsed h = record {
  buckets = record_buckets elapsed h.buckets buckets_bounds;
  count = wrap64 (h.count + 1);
  total_micros = wrap64 (h.total_micros + wrap64 (elapsed / 1000));
}

pub record RouteMetrics : Type 0 where
  pub duration : Histogram
  pub succeeded : ℕ
  pub failed : ℕ

pub record Metrics : Type 0 where
  pub by_route : List RouteMetrics
  pub admission_wait : Histogram
  pub requests_shed : ℕ
  pub databases_opened : ℕ
  pub databases_evicted : ℕ
  pub databases_closed_idle : ℕ
  pub wal_checkpoints : ℕ

unfoldable pub new : Metrics
unfolding empty_histogram
new = record {
  by_route = replicate 3 (record { duration = empty_histogram; succeeded = 0; failed = 0 });
  admission_wait = empty_histogram;
  requests_shed = 0;
  databases_opened = 0;
  databases_evicted = 0;
  databases_closed_idle = 0;
  wal_checkpoints = 0;
}

-- `ROUTES.iter().position(|known| *known == route)`
pub position : String → List String → Option ℕ
position route [] = none
position route (known ∷ rest) =
    if str_eq known route
    then some 0
    else elim (position route rest) [ none ↦ none | some i ↦ some (suc i) ]

unfoldable pub record_outcome : ℕ → Bool → RouteMetrics → RouteMetrics
record_outcome elapsed succeeded r =
    let timed = record r { duration = record_duration elapsed r.duration } in
    if succeeded
    then record timed { succeeded = wrap64 (r.succeeded + 1) }
    else record timed { failed = wrap64 (r.failed + 1) }

-- The routes after `self.routes[index]` has been recorded. The index that `position` finds is
-- below `ROUTES.len()`, so the access does not panic.
pub update_route : ℕ → (RouteMetrics → RouteMetrics) → List RouteMetrics → List RouteMetrics
update_route i f [] = []
update_route zero f (r ∷ rs) = f r ∷ rs
update_route (suc i) f (r ∷ rs) = r ∷ update_route i f rs

unfoldable pub record_request : String → ℕ → Bool → Metrics → Metrics
unfolding position update_route
record_request route elapsed succeeded m = elim (position route routes) [
  | none ↦ m
  | some index ↦ record m {
    by_route = update_route index (record_outcome elapsed succeeded) m.by_route;
  }
]

unfoldable pub record_admission_wait : ℕ → Metrics → Metrics
record_admission_wait elapsed m = record m {
  admission_wait = record_duration elapsed m.admission_wait;
}

unfoldable pub record_shed : Metrics → Metrics
record_shed m = record m { requests_shed = wrap64 (m.requests_shed + 1) }

unfoldable pub record_open : Metrics → Metrics
record_open m = record m { databases_opened = wrap64 (m.databases_opened + 1) }

unfoldable pub record_eviction : Metrics → Metrics
record_eviction m = record m { databases_evicted = wrap64 (m.databases_evicted + 1) }

unfoldable pub record_idle_close : ℕ → Metrics → Metrics
record_idle_close databases m = record m {
  databases_closed_idle = wrap64 (m.databases_closed_idle + databases);
}

unfoldable pub record_checkpoints : ℕ → Metrics → Metrics
record_checkpoints databases m = record m {
  wal_checkpoints = wrap64 (m.wal_checkpoints + databases);
}
