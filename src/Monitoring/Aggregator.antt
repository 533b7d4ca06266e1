-- ===== src/Monitoring/Aggregator.antt =====
-- monitoring/aggregator.go without the detector, whose state is a part of the aggregator's. Counters are bit patterns of
-- an int64; the ticker's loop is `aggregate` at its ticks.
pub mod Totals
pub mod Snapshots
use distributed_caching_syst.Prelude.{
  ℕ, zero, suc, ◌+◌, ◌-◌, ◌*◌, ◌%◌, ◌/◌, ◌^◌, Bool, true, false, ◌&&◌, Option, none, some, List, [],
  ◌∷◌, ◌++◌, if◌then◌else◌, length, get_elem?, ltb, leb, ◌==◌, map,
}
use distributed_caching_syst.Prelude.Int.{ℤ, pos, negsuc, ◌-ℤ◌, ltb_ℤ, leb_ℤ}
use distributed_caching_syst.Monitoring.Alerts.{add_int64}
use distributed_caching_syst.Monitoring.Floats.{Floats}
use distributed_caching_syst.Monitoring.RingBuffer.{RingBuffer, get_all}
use distributed_caching_syst.Monitoring.Collector.{
  Counters, Bucket, TimeSeries, MetricsCollector, Sample, get_counters, total_of,
}
use distributed_caching_syst.Monitoring.Collector as Collector
use distributed_caching_syst.Monitoring.Windows.{
  AggregatedStats, SlidingWindow, no_stats, new_sliding_window, second,
}
use distributed_caching_syst.Monitoring.Windows as Windows

pub record LatencyStats (F : Type 0) : Type 0 where
  pub min : F
  pub max : F
  pub avg : F
  pub p50 : F
  pub p90 : F
  pub p95 : F
  pub p99 : F
  pub count : ℕ

pub record Aggregator (F : Type 0) : Type 0 where
  pub window1s : SlidingWindow F
  pub window10s : SlidingWindow F
  pub window1m : SlidingWindow F

-- An int64 from its bit pattern.
abbrev pub int_of : ℕ → ℤ
int_of n = if ltb n (2 ^ 63) then pos n else negsuc (2 ^ 64 - 1 - n)

module _ {F : Type 0} (floats : Floats F) where
  abbrev pub zero_float : F
  zero_float = floats.of_int (pos 0)

  abbrev pub new_aggregator : Aggregator F
  new_aggregator = record {
    window1s = new_sliding_window floats second;
    window10s = new_sliding_window floats (10 * second);
    window1m = new_sliding_window floats (60 * second);
  }

  abbrev pub or_zero : Option F → F
  or_zero none = zero_float
  or_zero (some x) = x

  -- `p` is a number of hundredths. An index out of range, which panics, is read as zero.
  unfoldable pub percentile : List F → ℕ → F
  percentile values p =
      let index = floats.mul (floats.decimal p 2) (floats.of_int (pos (length values - 1))) in
      let lower = floats.floor index in
      let upper = floats.ceil index in
      let weight = floats.sub index (floats.of_int (pos lower)) in
      if length values == 0
      then zero_float
      else if lower == upper
      then or_zero (get_elem? values lower)
      else floats.add
          (floats.mul (or_zero (get_elem? values lower))
            (floats.sub (floats.of_int (pos 1)) weight))
          (floats.mul (or_zero (get_elem? values upper)) weight)

  abbrev pub least : F → List F → F
  least m [] = m
  least m (x ∷ xs) = least (if floats.lt x m then x else m) xs

  abbrev pub greatest : F → List F → F
  greatest m [] = m
  greatest m (x ∷ xs) = greatest (if floats.lt m x then x else m) xs

  abbrev pub sum : F → List F → F
  sum s [] = s
  sum s (x ∷ xs) = sum (floats.add s x) xs

  abbrev pub no_latencies : LatencyStats F
  no_latencies = record {
    min = zero_float;
    max = zero_float;
    avg = zero_float;
    p50 = zero_float;
    p90 = zero_float;
    p95 = zero_float;
    p99 = zero_float;
    count = 0;
  }

  -- Of the values of the samples.
  unfoldable pub calculate_latency_stats : List F → LatencyStats F
  calculate_latency_stats values =
      let sorted = floats.sort_floats values in
      if length values == 0 then no_latencies else record {
        min = least floats.max_float values;
        max = greatest zero_float values;
        avg = floats.div (sum zero_float values) (floats.of_int (pos (length values)));
        p50 = percentile sorted 50;
        p90 = percentile sorted 90;
        p95 = percentile sorted 95;
        p99 = percentile sorted 99;
        count = length values;
      }

  unfoldable pub get_latency_stats : MetricsCollector F → LatencyStats F
  get_latency_stats mc =
      calculate_latency_stats (map (λ (s : Sample F). s.value) (get_all mc.latency_buffer))

  abbrev pub ratio : ℕ → ℕ → F
  ratio part total =
      if total == 0
      then zero_float
      else floats.div (floats.of_int (int_of part)) (floats.of_int (int_of total))

  unfoldable pub calculate_hit_rate : ℕ → ℕ → F
  calculate_hit_rate hits misses = ratio hits (add_int64 hits misses)

  unfoldable pub calculate_error_rate : ℕ → ℕ → F
  calculate_error_rate errors total = ratio errors total

  -- What `aggregate` puts into the windows. It sets no QPS.
  unfoldable pub snapshot : ℤ → MetricsCollector F → AggregatedStats F
  snapshot now mc =
      let c = get_counters mc in
      let l = get_latency_stats mc in
      let total = add_int64 c.cache_hits c.cache_misses in
      record {
        timestamp = now;
        total_requests = total;
        cache_hits = c.cache_hits;
        cache_misses = c.cache_misses;
        hit_rate = calculate_hit_rate c.cache_hits c.cache_misses;
        qps = zero_float;
        avg_latency = l.avg;
        p50_latency = l.p50;
        p90_latency = l.p90;
        p95_latency = l.p95;
        p99_latency = l.p99;
        error_rate = calculate_error_rate c.errors total;
        invalidations = c.invalidations;
        warmings = c.warmings;
        evictions = c.evictions;
      }

  unfoldable pub aggregate : ℤ → MetricsCollector F → Aggregator F → Aggregator F
  aggregate now mc a =
      let s = snapshot now mc in
      record {
        window1s = Windows.add s a.window1s;
        window10s = Windows.add s a.window10s;
        window1m = Windows.add s a.window1m;
      }

  abbrev pub mean_of : (AggregatedStats F → F) → List (AggregatedStats F) → F
  mean_of f snapshots =
      floats.div (sum zero_float (map f snapshots)) (floats.of_int (pos (length snapshots)))

  abbrev pub per_second : ℕ → ℤ → F
  per_second total duration =
      if floats.lt zero_float (floats.seconds duration)
      then floats.div (floats.of_int (int_of total)) (floats.seconds duration)
      else zero_float

  abbrev pub last_timestamp : ℤ → List (AggregatedStats F) → ℤ
  last_timestamp t [] = t
  last_timestamp t (s ∷ more) = last_timestamp s.timestamp more

  -- The errors, which no snapshot counts, stay zero.
  unfoldable pub aggregate_snapshots : List (AggregatedStats F) → ℤ → AggregatedStats F
  aggregate_snapshots [] duration = no_stats floats
  aggregate_snapshots (first ∷ more) duration =
      let snapshots = first ∷ more in
      let total = total_of (λ s. s.total_requests) snapshots in
      let hits = total_of (λ s. s.cache_hits) snapshots in
      let misses = total_of (λ s. s.cache_misses) snapshots in
      record {
        timestamp = last_timestamp first.timestamp more;
        total_requests = total;
        cache_hits = hits;
        cache_misses = misses;
        hit_rate = calculate_hit_rate hits misses;
        qps = per_second total duration;
        avg_latency = mean_of (λ s. s.avg_latency) snapshots;
        p50_latency = mean_of (λ s. s.p50_latency) snapshots;
        p90_latency = mean_of (λ s. s.p90_latency) snapshots;
        p95_latency = mean_of (λ s. s.p95_latency) snapshots;
        p99_latency = mean_of (λ s. s.p99_latency) snapshots;
        error_rate = calculate_error_rate 0 total;
        invalidations = total_of (λ s. s.invalidations) snapshots;
        warmings = total_of (λ s. s.warmings) snapshots;
        evictions = total_of (λ s. s.evictions) snapshots;
      }

  abbrev pub all_latencies : List (Bucket F) → List F
  all_latencies [] = []
  all_latencies (b ∷ bs) = b.latencies ++ all_latencies bs

  -- The evictions, which no bucket counts, stay zero.
  unfoldable pub aggregate_from_time_series : ℤ → ℤ → MetricsCollector F → AggregatedStats F
  aggregate_from_time_series start end mc =
      let buckets = Collector.get_range start end mc.time_series in
      let hits = total_of (λ (b : Bucket F). b.cache_hits) buckets in
      let misses = total_of (λ (b : Bucket F). b.cache_misses) buckets in
      let total = add_int64 hits misses in
      let l = calculate_latency_stats (all_latencies buckets) in
      record {
        timestamp = end;
        total_requests = total;
        cache_hits = hits;
        cache_misses = misses;
        hit_rate = calculate_hit_rate hits misses;
        qps = per_second total (end -ℤ start);
        avg_latency = l.avg;
        p50_latency = l.p50;
        p90_latency = l.p90;
        p95_latency = l.p95;
        p99_latency = l.p99;
        error_rate = calculate_error_rate (total_of (λ (b : Bucket F). b.errors) buckets) total;
        invalidations = total_of (λ (b : Bucket F). b.invalidations) buckets;
        warmings = total_of (λ (b : Bucket F). b.warmings) buckets;
        evictions = 0;
      }

  unfoldable pub get_stats : ℤ → ℤ → MetricsCollector F → Aggregator F → AggregatedStats F
  get_stats start end mc a =
      let duration = end -ℤ start in
      if leb_ℤ duration (pos second)
      then aggregate_snapshots (Windows.get_range start end a.window1s) duration
      else if leb_ℤ duration (pos (10 * second))
      then aggregate_snapshots (Windows.get_range start end a.window10s) duration
      else if leb_ℤ duration (pos (60 * second))
      then aggregate_snapshots (Windows.get_range start end a.window1m) duration
      else aggregate_from_time_series start end mc
