-- ===== src/Monitoring/Service.antt =====
-- monitoring/service.go: the three queries and the three handlers of events. `parse_duration` is that of package time,
-- with a duration in nanoseconds; a span's text in the summary of `GetAggregated` is left out.
pub mod Intake
pub mod Points
use distributed_caching_syst.Prelude.{
  ℕ, zero, suc, ◌+◌, ◌-◌, Bool, true, false, Option, none, some, List, [], ◌∷◌, if◌then◌else◌, map,
}
use distributed_caching_syst.Prelude.Int.{ℤ, pos, pos_part, ◌+ℤ◌, ◌-ℤ◌, ltb_ℤ, leb_ℤ}
use distributed_caching_syst.GoString.{Bytes, codes, bytes_eq}
use distributed_caching_syst.Monitoring.Floats.{Floats}
use distributed_caching_syst.Monitoring.Alerts.{
  Alert, AlertManager, get_active_alerts, get_recent_resolved_alerts,
}
use distributed_caching_syst.Monitoring.Collector.{
  MetricType, cache_hit, cache_miss, cache_set, cache_delete, invalidation, warming, error, latency,
  MetricEvent, MetricsCollector, record_metric,
}
use distributed_caching_syst.Monitoring.Windows.{AggregatedStats}
use distributed_caching_syst.Monitoring.Aggregator.{Aggregator, get_stats, zero_float}

pub data Error : Type 0 where
  invalid_window window_not_positive end_before_start invalid_interval interval_not_positive : Error

pub data Reply {ℓ} (A : Type ℓ) : Type ℓ where
  ok : A → Reply A
  err : Error → Reply A

-- The response repeats the statistics, with the time of the call.
pub record GetMetricsResponse (F : Type 0) : Type 0 where
  pub timestamp : ℤ
  pub window : Bytes
  pub stats : AggregatedStats F

pub record GetAggregatedRequest : Type 0 where
  pub start_time : ℤ
  pub end_time : ℤ
  pub interval : Bytes

pub record AggregatedDataPoint (F : Type 0) : Type 0 where
  pub timestamp : ℤ
  pub requests : ℕ
  pub hit_rate : F
  pub avg_latency : F
  pub p95_latency : F
  pub qps : F
  pub error_rate : F

pub record GetAggregatedResponse (F : Type 0) : Type 0 where
  pub data_points : List (AggregatedDataPoint F)
  pub summary : AggregatedStats F

-- Without the size and the names, which nothing reads.
pub record CacheMetricEvent (F : Type 0) : Type 0 where
  pub operation : Bytes
  pub hit : Bool
  pub latency : F
  pub timestamp : ℤ

pub record WarmCompletedEvent : Type 0 where
  pub status : Bytes
  pub duration_ms : ℤ
  pub timestamp : ℤ

pub record InvalidationMetricEvent : Type 0 where
  pub keys_count : ℤ
  pub duration_ms : ℤ
  pub timestamp : ℤ

-- An empty text stands for a minute.
abbrev pub or_minute : Bytes → Bytes
or_minute [] = codes "1m"
or_minute (c ∷ text) = c ∷ text

module _ {F : Type 0} (floats : Floats F) (parse_duration : Bytes → Option ℤ) where
  unfoldable pub get_metrics :
      ℤ → Bytes → MetricsCollector F → Aggregator F → Reply (GetMetricsResponse F)
  get_metrics now window mc a = elim (parse_duration (or_minute window)) [
    | none ↦ err invalid_window
    | some duration ↦
        if leb_ℤ duration (pos 0)
        then err window_not_positive
        else ok (record {
          timestamp = now;
          window = or_minute window;
          stats = get_stats floats (now -ℤ duration) now mc a;
        })
  ]

  abbrev pub data_point : MetricsCollector F → Aggregator F → ℤ × ℤ → AggregatedDataPoint F
  data_point mc a (current, next) =
      let stats = get_stats floats current next mc a in
      record {
        timestamp = current;
        requests = stats.total_requests;
        hit_rate = stats.hit_rate;
        avg_latency = stats.avg_latency;
        p95_latency = stats.p95_latency;
        qps = stats.qps;
        error_rate = stats.error_rate;
      }

  -- The loop over the intervals; `none` says that the fuel was too little.
  unfoldable pub points_loop :
      ℕ → ℤ → ℤ → ℤ → MetricsCollector F → Aggregator F → Option (List (AggregatedDataPoint F))
  points_loop zero interval end current mc a = if ltb_ℤ current end then none else some []
  points_loop (suc fuel) interval end current mc a =
      let next = if ltb_ℤ end (current +ℤ interval) then end else current +ℤ interval in
      let rest = points_loop fuel interval end next mc a in
      if ltb_ℤ current end
      then elim rest [ none ↦ none | some points ↦ some (data_point mc a (current, next) ∷ points) ]
      else some []

  -- Each round moves on by a nanosecond at least, so a round for each of them is enough.
  unfoldable pub get_aggregated :
      GetAggregatedRequest
      → MetricsCollector F
      → Aggregator F
      → Option (Reply (GetAggregatedResponse F))
  get_aggregated req mc a =
      if ltb_ℤ req.end_time req.start_time
      then some (err end_before_start)
      else elim (parse_duration (or_minute req.interval)) [
        | none ↦ some (err invalid_interval)
        | some interval ↦
            if leb_ℤ interval (pos 0)
            then some (err interval_not_positive)
            else elim (points_loop (pos_part (req.end_time -ℤ req.start_time)) interval req.end_time
                req.start_time mc a) [
                  | none ↦ none
                  | some points ↦ some (
                      ok (record {
                        data_points = points;
                        summary = get_stats floats req.start_time req.end_time mc a;
                      }))
                ]
      ]

module _ {F : Type 0} (floats : Floats F) where
  abbrev pub event_of : MetricType → F → ℤ → MetricEvent F
  event_of type value timestamp = record { type = type; value = value; timestamp = timestamp }

  abbrev pub one : F
  one = floats.of_int (pos 1)

  -- `clocks i` is the clock of the i-th call of `RecordMetric` in the text.
  unfoldable pub handle_cache_metric :
      (ℕ → ℕ → ℤ) → CacheMetricEvent F → MetricsCollector F → MetricsCollector F
  handle_cache_metric clocks event mc =
      let asked =
        if bytes_eq event.operation (codes "get")
        then (if event.hit
            then record_metric floats (clocks 0) (event_of cache_hit one event.timestamp) mc
            else record_metric floats (clocks 1) (event_of cache_miss one event.timestamp) mc)
        else mc in
      let done =
        if bytes_eq event.operation (codes "set")
        then record_metric floats (clocks 2) (event_of cache_set one event.timestamp) asked
        else if bytes_eq event.operation (codes "delete")
        then record_metric floats (clocks 3) (event_of cache_delete one event.timestamp) asked
        else asked in
      if floats.lt (zero_float floats) event.latency
      then record_metric floats (clocks 4) (event_of latency event.latency event.timestamp) done
      else done

  unfoldable pub handle_warm_completed :
      (ℕ → ℕ → ℤ) → WarmCompletedEvent → MetricsCollector F → MetricsCollector F
  handle_warm_completed clocks event mc =
      let warmed = record_metric floats (clocks 0) (event_of warming one event.timestamp) mc in
      let timed =
        record_metric floats (clocks 1)
          (event_of latency (floats.of_int event.duration_ms) event.timestamp) warmed in
      if bytes_eq event.status (codes "success")
      then timed
      else record_metric floats (clocks 2) (event_of error one event.timestamp) timed

  unfoldable pub handle_invalidation_metric :
      (ℕ → ℕ → ℤ) → InvalidationMetricEvent → MetricsCollector F → MetricsCollector F
  handle_invalidation_metric clocks event mc =
      let counted =
        record_metric floats (clocks 0)
          (event_of invalidation (floats.of_int event.keys_count) event.timestamp) mc in
      record_metric floats (clocks 1)
        (event_of latency (floats.of_int event.duration_ms) event.timestamp) counted

  abbrev pub get_alerts : AlertManager F → List (Alert F) × List (Alert F)
  get_alerts am = (get_active_alerts am, get_recent_resolved_alerts 10 am)
