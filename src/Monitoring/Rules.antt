-- ===== src/Monitoring/Rules.antt =====
-- The rules of monitoring/alerts.go over the aggregated statistics. What `Rule`, `Type` and `Metric` of an alert say
-- follows from its id, so they are left out of it here.
pub mod Defaults
use distributed_caching_syst.Prelude.{
  ℕ, ◌*◌, ◌+◌, ◌^◌, ◌-◌, Bool, true, false, ◌&&◌, not, Option, none, some, List, [], ◌∷◌,
  if◌then◌else◌, ltb,
}
use distributed_caching_syst.Prelude.Int.{ℤ, pos, ltb_ℤ}
use distributed_caching_syst.GoString.{Bytes, codes, bytes_eq}
use distributed_caching_syst.Monitoring.Floats.{Floats}
use distributed_caching_syst.Monitoring.Alerts.{Alert, AlertRule, AlertManager, evaluate_rules}
use distributed_caching_syst.Monitoring.Windows.{AggregatedStats, get_latest}
use distributed_caching_syst.Monitoring.Aggregator.{Aggregator, int_of, zero_float}
use distributed_caching_syst.Monitoring.Detector.{HistoricalStats, add, mean_std_dev}

module _ {F : Type 0} (floats : Floats F) where
  abbrev pub of_nat : ℕ → F
  of_nat n = floats.of_int (pos n)

  -- An alert as a rule makes it, before it is triggered.
  abbrev pub new_alert : Bytes → Bytes → F → F → Bytes → Alert F
  new_alert id severity current_value threshold message = record {
    id = id;
    severity = severity;
    current_value = current_value;
    threshold = threshold;
    message = message;
    triggered_at = pos 0;
    resolved_at = none;
    duration = pos 0;
    resolved = false;
  }

  -- `x*100`
  abbrev pub percent : F → F
  percent x = floats.mul x (of_nat 100)

  unfoldable pub evaluate_high_error_rate : AggregatedStats F → Option (Alert F)
  evaluate_high_error_rate stats =
      let threshold = floats.decimal 5 2 in
      if floats.lt threshold stats.error_rate
      then some (
          new_alert (codes "high_error_rate") (codes "critical") stats.error_rate threshold (
            floats.sprintf (codes "Error rate %.2f%% exceeds threshold %.2f%%")
              (percent stats.error_rate ∷ percent threshold ∷ [])))
      else none

  unfoldable pub evaluate_low_hit_rate : AggregatedStats F → Option (Alert F)
  evaluate_low_hit_rate stats =
      let threshold = floats.decimal 70 2 in
      if ltb_ℤ (pos 100) (int_of stats.total_requests) && floats.lt stats.hit_rate threshold
      then some (
          new_alert (codes "low_hit_rate")
            (if floats.lt stats.hit_rate (floats.decimal 50 2)
              then codes "critical"
              else codes "warning")
            stats.hit_rate threshold
            (floats.sprintf (codes "Cache hit rate %.2f%% below threshold %.2f%%")
              (percent stats.hit_rate ∷ percent threshold ∷ [])))
      else none

  unfoldable pub evaluate_latency_spike : AggregatedStats F → Option (Alert F)
  evaluate_latency_spike stats =
      let threshold = of_nat 100 in
      if floats.lt threshold stats.p95_latency
      then some (
          new_alert (codes "latency_spike")
            (if floats.lt (floats.mul threshold (of_nat 2)) stats.p95_latency
              then codes "critical"
              else codes "warning")
            stats.p95_latency threshold
            (floats.sprintf (codes "P95 latency %.2fms exceeds threshold %.2fms")
              (stats.p95_latency ∷ threshold ∷ [])))
      else none

  abbrev pub eviction_rate : AggregatedStats F → F
  eviction_rate stats = floats.div (floats.of_int (int_of stats.evictions)) (of_nat 60)

  unfoldable pub evaluate_high_eviction_rate : AggregatedStats F → Option (Alert F)
  evaluate_high_eviction_rate stats =
      let threshold = of_nat 10 in
      if floats.lt threshold (eviction_rate stats)
      then some (
          new_alert (codes "high_eviction_rate") (codes "warning") (eviction_rate stats) threshold (
            floats.sprintf
              (codes
                "Eviction rate %.2f/sec exceeds threshold %.2f/sec - consider increasing cache size")
              (eviction_rate stats ∷ threshold ∷ [])))
      else none

  -- The rules that `NewAlertManager` registers.
  unfoldable pub default_rules : List (AlertRule (AggregatedStats F) F)
  unfolding evaluate_high_error_rate evaluate_low_hit_rate evaluate_latency_spike
      evaluate_high_eviction_rate
  default_rules =
      record { id = codes "high_error_rate"; evaluate = evaluate_high_error_rate }
      ∷ record { id = codes "low_hit_rate"; evaluate = evaluate_low_hit_rate }
      ∷ record { id = codes "latency_spike"; evaluate = evaluate_latency_spike }
      ∷ record { id = codes "high_eviction_rate"; evaluate = evaluate_high_eviction_rate }
      ∷ []

  -- A round of the alert manager: the rules on the latest snapshot of the minute.
  unfoldable pub evaluate_latest : (ℕ → ℤ) → Aggregator F → AlertManager F → AlertManager F
  evaluate_latest clock a am = elim (get_latest a.window1m) [
    | none ↦ am
    | some latest ↦ evaluate_rules clock latest default_rules am
  ]
