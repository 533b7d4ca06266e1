-- ===== src/Examples/Watching.antt =====
-- Metrics, windows and the detector on concrete inputs, with whole numbers for floats.
use distributed_caching_syst.Prelude.{
  ℕ, zero, suc, ◌+◌, ◌-◌, ◌*◌, ◌/◌, ◌≡◌, refl, Bool, true, false, not, ◌&&◌, Option, none, some,
  List, [], ◌∷◌, arith, ltb, All, map, get_elem?,
}
use distributed_caching_syst.Prelude.Int.{ℤ, pos, pos_part, ◌-ℤ◌}
use distributed_caching_syst.GoMap.{lookup}
use distributed_caching_syst.GoString.{Bytes, codes, bytes_key}
use distributed_caching_syst.Monitoring.Floats.{Floats, ZeroLaws}
use distributed_caching_syst.Monitoring.Alerts.{add_int64, new_alert_manager}
use distributed_caching_syst.Monitoring.Alerts.Registry.{
  present, IsRegistry, new-IsRegistry, verdict,
}
use distributed_caching_syst.Monitoring.Collector.{
  cache_hit, MetricEvent, MetricsCollector, new_metrics_collector, get_counters, total_of, beq_ℤ,
}
use distributed_caching_syst.Monitoring.Collector.Counts.{Call, gained}
use distributed_caching_syst.Monitoring.Windows.{
  AggregatedStats, no_stats, new_sliding_window, add, adds, get_range, get_latest,
}
use distributed_caching_syst.Monitoring.Windows.Recent.{adds-get_range, new_sliding_window-IsWindow}
use distributed_caching_syst.Monitoring.Aggregator.{
  new_aggregator, zero_float, snapshot, aggregate, get_stats, aggregate_from_time_series,
  calculate_error_rate,
}
use distributed_caching_syst.Monitoring.Aggregator.Totals.{
  is_hit, is_miss, is_invalidation, is_warming, collect, aggregate_from_time_series-gained,
}
use distributed_caching_syst.Monitoring.Aggregator.Snapshots.{ticks, get_stats-counts_again}
use distributed_caching_syst.Monitoring.Detector.{new_anomaly_detector}
use distributed_caching_syst.Monitoring.Detector.History.{IsOther, detections, detections-no_qps}
use distributed_caching_syst.Monitoring.Rules.{default_rules, evaluate_latest}
use distributed_caching_syst.Monitoring.Rules.Defaults.{evaluate_latest-verdict}
use distributed_caching_syst.Monitoring.Service.{
  ok, CacheMetricEvent, GetAggregatedRequest, data_point, get_aggregated,
}
use distributed_caching_syst.Monitoring.Service.Points.{Tiles, get_aggregated-Tiles}
use distributed_caching_syst.Monitoring.Service.Intake.{
  is_get, tallied, handle_all, handle_all-tallied,
}

abbrev divide : ℕ → ℕ → ℕ
divide zero b = 0
divide (suc a) b = suc a / b

abbrev whole : Floats ℕ
whole = record {
  add = λ a b. a + b;
  sub = λ a b. a - b;
  mul = λ a b. a * b;
  div = divide;
  lt = ltb;
  abs = λ a. a;
  sqrt = λ a. a;
  of_int = pos_part;
  decimal = λ n k. n;
  to_int64 = λ a. a;
  floor = λ a. a;
  ceil = λ a. a;
  seconds = λ d. pos_part d / 1_000_000_000;
  hours = λ d. 1;
  minutes = λ d. 1;
  max_float = 1_000_000;
  sort_floats = λ l. l;
  sprintf = λ format values. format;
}

-- Numbers with one that is not a number, which `0 / 0` gives and which every operation on it gives again.
abbrev lift : (ℕ → ℕ → ℕ) → Option ℕ → Option ℕ → Option ℕ
lift f (some a) (some b) = some (f a b)
lift f none b = none
lift f (some a) none = none

abbrev over_zero : ℕ → Option ℕ
over_zero zero = none
over_zero (suc a) = some 1_000_000

abbrev quotient : Option ℕ → Option ℕ → Option ℕ
quotient (some a) (some zero) = over_zero a
quotient (some a) (some (suc b)) = some (a / suc b)
quotient none b = none
quotient (some a) none = none

abbrev is_less : Option ℕ → Option ℕ → Bool
is_less (some a) (some b) = ltb a b
is_less none b = false
is_less (some a) none = false

abbrev or_none : Option ℕ → ℕ
or_none none = 0
or_none (some a) = a

abbrev partial : Floats (Option ℕ)
partial = record {
  add = lift (λ a b. a + b);
  sub = lift (λ a b. a - b);
  mul = lift (λ a b. a * b);
  div = quotient;
  lt = is_less;
  abs = λ a. a;
  sqrt = λ a. a;
  of_int = λ n. some (pos_part n);
  decimal = λ n k. some n;
  to_int64 = or_none;
  floor = or_none;
  ceil = or_none;
  seconds = λ d. some (pos_part d / 1_000_000_000);
  hours = λ d. some 1;
  minutes = λ d. some 1;
  max_float = some 1_000_000;
  sort_floats = λ l. l;
  sprintf = λ format values. format;
}

partial-ZeroLaws : ZeroLaws partial (zero_float partial)
partial-ZeroLaws = record {
  sub_zero = refl;
  add_zero = refl;
  mul_zero = refl;
  div_zero = λ n. ground arith;
  sqrt_zero = refl;
  lt_zero = refl;
}

abbrev hour : ℤ
hour = pos 3_600_000_000_000

abbrev start : ℤ
start = pos 10_000_000_000_000

abbrev collector : MetricsCollector ℕ
collector = new_metrics_collector whole start hour

abbrev seen : AggregatedStats ℕ
seen = record (no_stats whole) { timestamp = start }

adds-get_range_example :
    ((k : ℕ) × (get_elem?
          (get_range start start
            (adds (no_stats whole ∷ []) (add seen (new_sliding_window whole 10_000_000_000))))
          k
        ≡ some seen))
    × (get_latest (add seen (new_sliding_window whole 10_000_000_000)) ≡ some seen)
unfolding beq_ℤ
adds-get_range_example =
    adds-get_range seen (no_stats whole ∷ []) start start (new_sliding_window whole 10_000_000_000)
      (new_sliding_window-IsWindow whole 10_000_000_000) (omega arith) refl

abbrev hit_at : ℤ → MetricEvent ℕ
hit_at t = record { type = cache_hit; value = 1; timestamp = t }

abbrev two_hits : List (Call ℕ)
two_hits =
    ((λ i. pos 10_000_000_000_001), hit_at start)
    ∷ ((λ i. pos 10_100_000_000_000), hit_at (pos 10_099_000_000_000))
    ∷ []

aggregate_from_time_series-gained_example :
    let stats =
      aggregate_from_time_series whole start
        (pos 10_100_000_000_000)
        (collect whole two_hits collector) in
    (stats.cache_hits ≡ gained is_hit start (pos 10_100_000_000_000) two_hits 0)
    × (stats.cache_misses ≡ gained is_miss start (pos 10_100_000_000_000) two_hits 0)
    × (stats.invalidations ≡ gained is_invalidation start (pos 10_100_000_000_000) two_hits 0)
    × (stats.warmings ≡ gained is_warming start (pos 10_100_000_000_000) two_hits 0)
unfolding ◌-ℤ◌
aggregate_from_time_series-gained_example =
    aggregate_from_time_series-gained whole two_hits start hour start (pos 10_100_000_000_000)
      (omega arith)

abbrev two_ticks : List ℤ
two_ticks = start ∷ pos 10_002_000_000_000 ∷ []

abbrev until : ℤ
until = pos 10_005_000_000_000

get_stats-counts_again_example :
    ((get_stats whole start until collector
        (ticks whole two_ticks collector (new_aggregator whole))).total_requests
      ≡ total_of
          (λ (_ : ℤ).
            add_int64 (get_counters collector).cache_hits (get_counters collector).cache_misses)
          two_ticks)
    × ((get_stats whole start until collector
          (ticks whole two_ticks collector (new_aggregator whole))).error_rate
        ≡ calculate_error_rate whole 0
            (get_stats whole start until collector
              (ticks whole two_ticks collector (new_aggregator whole))).total_requests)
unfolding beq_ℤ snapshot ◌-ℤ◌
get_stats-counts_again_example =
    get_stats-counts_again whole two_ticks 9 start until collector refl (refl, (refl, tt))
      (omega arith) (omega arith)

-- More rounds than the ten that the detector waits for.
abbrev rounds : ℕ → List (ℤ × ℤ × MetricsCollector (Option ℕ))
rounds zero = []
rounds (suc n) = (start, start, new_metrics_collector partial start hour) ∷ rounds n

detections-no_qps_example :
    All
      (IsOther partial partial-ZeroLaws)
      (detections partial partial-ZeroLaws (rounds 12) (new_anomaly_detector partial)).anomalies
detections-no_qps_example = detections-no_qps partial partial-ZeroLaws (rounds 12)

evaluate_latest-verdict_example :
    IsRegistry (
      evaluate_latest whole
        (λ i. start)
        (aggregate whole start collector (new_aggregator whole))
        new_alert_manager)
    × ((id : Bytes)
        → present (
            lookup id
              (evaluate_latest whole
                (λ i. start)
                (aggregate whole start collector (new_aggregator whole))
                new_alert_manager).active_alerts)
          ≡ verdict
              (snapshot whole start collector)
              (default_rules whole)
              id
              (present (lookup id (new_alert_manager {V = ℕ}).active_alerts)))
evaluate_latest-verdict_example =
    evaluate_latest-verdict whole (λ i. start) start collector (new_aggregator whole)
      new_alert_manager (new_sliding_window-IsWindow whole 60_000_000_000) new-IsRegistry

abbrev in_minutes : GetAggregatedRequest
in_minutes = record { start_time = start; end_time = pos 10_090_000_000_000; interval = [] }

abbrev a_minute : Bytes → Option ℤ
a_minute text = some (pos 60_000_000_000)

get_aggregated-Tiles_example :
    (spans : List (ℤ × ℤ)) × Tiles (pos 60_000_000_000) start (pos 10_090_000_000_000) spans
    × (get_aggregated whole a_minute in_minutes collector (new_aggregator whole)
        ≡ some (
            ok (record {
              data_points = map (data_point whole a_minute collector (new_aggregator whole)) spans;
              summary =
                  get_stats whole start (pos 10_090_000_000_000) collector (new_aggregator whole);
            })))
get_aggregated-Tiles_example =
    get_aggregated-Tiles whole a_minute collector (new_aggregator whole) in_minutes
      (pos 60_000_000_000) (omega arith) refl (omega arith)

abbrev get_event : Bool → CacheMetricEvent ℕ
get_event hit = record { operation = codes "get"; hit = hit; latency = 0; timestamp = start }

abbrev a_hit_and_a_miss : List ((ℕ → ℕ → ℤ) × CacheMetricEvent ℕ)
a_hit_and_a_miss = ((λ i j. start), get_event true) ∷ ((λ i j. start), get_event false) ∷ []

handle_all-tallied_example :
    ((get_counters (handle_all whole a_hit_and_a_miss collector)).cache_hits
      ≡ tallied
          (λ event. is_get event && event.hit)
          a_hit_and_a_miss
          (get_counters collector).cache_hits)
    × ((get_counters (handle_all whole a_hit_and_a_miss collector)).cache_misses
        ≡ tallied
            (λ event. is_get event && not event.hit)
            a_hit_and_a_miss
            (get_counters collector).cache_misses)
handle_all-tallied_example = handle_all-tallied whole a_hit_and_a_miss collector refl
