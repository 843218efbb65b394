-- ===== src/Metrics/Durations.antt =====
-- The histograms of src/metrics.rs against the list of the durations recorded.
use tinkiva_sqllite_server.Prelude.{
  ℕ, ◌+◌, ◌/◌, ◌≤◌, ◌<◌, ◌≡◌, refl, ap, ◌∙◌, List, [], ◌∷◌, map, arith, leb, if◌then◌else◌, length,
  wrap64,
}
use tinkiva_sqllite_server.Metrics.{
  Histogram, buckets_bounds, empty_histogram, record_buckets, record_duration,
}

-- How many durations are at or below a bound.
abbrev pub count_le : ℕ → List ℕ → ℕ
count_le bound [] = 0
count_le bound (d ∷ ds) = (if leb d bound then 1 else 0) + count_le bound ds

-- The whole microseconds of each duration, added up.
abbrev pub sum_micros : List ℕ → ℕ
sum_micros [] = 0
sum_micros (d ∷ ds) = d / 1000 + sum_micros ds

-- The durations recorded one after the other, the last of them first in the list.
abbrev pub record_all : List ℕ → Histogram
record_all [] = empty_histogram
record_all (d ∷ ds) = record_duration d (record_all ds)

count_le-le-length : (bound : ℕ) (ds : List ℕ) → count_le bound ds ≤ length ds
count_le-le-length bound [] = omega arith
count_le-le-length bound (d ∷ ds) = ground (arith, count_le-le-length bound ds)

record_buckets-count_le :
    (d : ℕ) (ds bounds : List ℕ)
    → length ds + 1 < 18_446_744_073_709_551_616
    → record_buckets d (map (λ b. count_le b ds) bounds) bounds
      ≡ map (λ b. count_le b (d ∷ ds)) bounds
unfolding record_buckets
record_buckets-count_le d ds [] h = refl
record_buckets-count_le d ds (b ∷ bs) h =
    ground (arith, count_le-le-length b ds, record_buckets-count_le d ds bs h)

-- After fewer than 2 ^ 64 durations, bucket `i` holds the number of durations at or below the
-- bound `i`, the count is their number, and the total is the sum of their whole microseconds
-- modulo 2 ^ 64.
pub record_all-counts :
    (ds : List ℕ)
    → length ds < 18_446_744_073_709_551_616
    → ((record_all ds).buckets ≡ map (λ b. count_le b ds) buckets_bounds)
      × ((record_all ds).count ≡ length ds)
      × ((record_all ds).total_micros ≡ wrap64 (sum_micros ds))
unfolding record_duration empty_histogram
record_all-counts [] h = (refl, refl, refl)
record_all-counts (d ∷ ds) h =
    let (ih_buckets, ih_count, ih_total) = record_all-counts ds (omega arith) in
    (
      ap (λ bs. record_buckets d bs buckets_bounds) ih_buckets
          ∙ record_buckets-count_le d ds buckets_bounds (omega arith),
      omega arith,
      omega arith,
    )

-- The buckets are cumulative, as Prometheus wants its `le` buckets: each is at most the next,
-- and the last is at most the count.
abbrev pub IsCumulative : List ℕ → ℕ → Type 0
IsCumulative [] total = Unit {0}
IsCumulative (b ∷ []) total = b ≤ total
IsCumulative (b ∷ c ∷ bs) total = (b ≤ c) × IsCumulative (c ∷ bs) total

count_le_mono : (a b : ℕ) (ds : List ℕ) → a ≤ b → count_le a ds ≤ count_le b ds
count_le_mono a b [] h = omega arith
count_le_mono a b (d ∷ ds) h = ground (arith, count_le_mono a b ds h)

abbrev Ascending : List ℕ → Type 0
Ascending [] = Unit {0}
Ascending (b ∷ []) = Unit {0}
Ascending (b ∷ c ∷ bs) = (b ≤ c) × Ascending (c ∷ bs)

map-IsCumulative :
    (bounds ds : List ℕ)
    → Ascending bounds
    → IsCumulative (map (λ b. count_le b ds) bounds) (length ds)
map-IsCumulative [] ds h = tt
map-IsCumulative (b ∷ []) ds h = count_le-le-length b ds
map-IsCumulative (b ∷ c ∷ bs) ds h = (count_le_mono b c ds h.0, map-IsCumulative (c ∷ bs) ds h.1)

-- After fewer than 2 ^ 64 durations the buckets are cumulative and bounded by the count.
pub record_all-IsCumulative :
    (ds : List ℕ)
    → length ds < 18_446_744_073_709_551_616
    → IsCumulative (record_all ds).buckets (record_all ds).count
record_all-IsCumulative ds h =
    let (b, c, _) = record_all-counts ds h in
    rw (b, c) (map-IsCumulative buckets_bounds ds (omega arith))
