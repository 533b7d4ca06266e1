-- ===== src/Monitoring/Detector.antt =====
-- `AnomalyDetector` and `HistoricalStats` of monitoring/aggregator.go, and the detector's part of `aggregate`.
pub mod History
use distributed_caching_syst.Prelude.{
  ℕ, zero, suc, ◌+◌, ◌-◌, ◌%◌, Bool, true, false, Option, none, some, List, [], ◌∷◌, ◌++◌,
  if◌then◌else◌, length, get_elem?, drop, ltb, leb, ◌==◌, filter,
}
use distributed_caching_syst.Prelude.Int.{ℤ, pos, negsuc, ◌-ℤ◌, ltb_ℤ}
use distributed_caching_syst.GoString.{Bytes, codes}
use distributed_caching_syst.Monitoring.Floats.{Floats}
use distributed_caching_syst.Monitoring.RingBuffer.{places, set_elem}
use distributed_caching_syst.Monitoring.Windows.{AggregatedStats}
use distributed_caching_syst.Monitoring.Aggregator.{zero_float, or_zero}

pub record HistoricalStats (F : Type 0) : Type 0 where
  pub values : List F
  pub count : ℕ
  pub index : ℕ
  pub mean : F
  pub m2 : F

pub data AnomalyType : Type 0 where
  latency_spike hit_rate_drop error_rate_spike qps_anomaly : AnomalyType

-- The message, which follows from the type, is left out.
pub record Anomaly (F : Type 0) : Type 0 where
  pub type : AnomalyType
  pub severity : Bytes
  pub metric : Bytes
  pub value : F
  pub expected : F
  pub deviation : F
  pub timestamp : ℤ

pub record AnomalyDetector (F : Type 0) : Type 0 where
  pub hit_rate_history : HistoricalStats F
  pub latency_history : HistoricalStats F
  pub error_rate_history : HistoricalStats F
  pub qps_history : HistoricalStats F
  pub anomalies : List (Anomaly F)

module _ {F : Type 0} (floats : Floats F) where
  abbrev pub new_historical_stats : ℕ → HistoricalStats F
  new_historical_stats capacity = record {
    values = places capacity (zero_float floats);
    count = 0;
    index = 0;
    mean = zero_float floats;
    m2 = zero_float floats;
  }

  abbrev pub of_nat : ℕ → F
  of_nat n = floats.of_int (pos n)

  -- Before a value goes in: one more, or the influence of the oldest one taken out.
  unfoldable pub make_room : HistoricalStats F → HistoricalStats F
  make_room hs =
      let old_value = or_zero floats (get_elem? hs.values hs.index) in
      let mean = floats.sub hs.mean (floats.div (floats.sub old_value hs.mean) (of_nat hs.count)) in
      if ltb hs.count (length hs.values) then record hs { count = hs.count + 1 } else record hs {
        mean = mean;
        m2 =
            floats.sub hs.m2
              (floats.mul (floats.sub old_value hs.mean) (floats.sub old_value mean));
      }

  unfoldable pub add : F → HistoricalStats F → HistoricalStats F
  add value hs =
      let hs' = make_room hs in
      let mean = floats.add hs'.mean (floats.div (floats.sub value hs'.mean) (of_nat hs'.count)) in
      record hs' {
        values = set_elem hs'.index value hs'.values;
        mean = mean;
        m2 = floats.add hs'.m2 (floats.mul (floats.sub value hs'.mean) (floats.sub value mean));
        index = (hs'.index + 1) % length hs'.values;
      }

  unfoldable pub mean_std_dev : HistoricalStats F → F × F
  mean_std_dev hs =
      if ltb hs.count 2
      then (hs.mean, zero_float floats)
      else (hs.mean, floats.sqrt (floats.div hs.m2 (of_nat (hs.count - 1))))

  abbrev pub three : F
  three = of_nat 3

  unfoldable pub calculate_severity : F → Bytes
  calculate_severity zscore =
      let abs_z = floats.abs zscore in
      if floats.lt (of_nat 5) abs_z
      then codes "critical"
      else if floats.lt (of_nat 4) abs_z
      then codes "high"
      else if floats.lt (floats.decimal 35 1) abs_z
      then codes "medium"
      else codes "low"

  abbrev pub zscore_of : F → HistoricalStats F → F
  zscore_of value hs = floats.div (floats.sub value (mean_std_dev hs).0) (mean_std_dev hs).1

  abbrev pub spreads : HistoricalStats F → Bool
  spreads hs = floats.lt (zero_float floats) (mean_std_dev hs).1

  abbrev pub detect_hit_rate : ℤ → F → HistoricalStats F → List (Anomaly F)
  detect_hit_rate now value hs =
      let zscore = zscore_of value hs in
      if ltb 10 hs.count
      then (if floats.lt zscore (floats.of_int (negsuc 2))
          then record {
            type = hit_rate_drop;
            severity = calculate_severity zscore;
            metric = codes "hit_rate";
            value = value;
            expected = (mean_std_dev hs).0;
            deviation = zscore;
            timestamp = now;
          }
            ∷ []
          else [])
      else []

  abbrev pub detect_latency : ℤ → F → HistoricalStats F → List (Anomaly F)
  detect_latency now value hs =
      let zscore = zscore_of value hs in
      if ltb 10 hs.count
      then (if floats.lt three zscore
          then record {
            type = latency_spike;
            severity = calculate_severity zscore;
            metric = codes "p95_latency";
            value = value;
            expected = (mean_std_dev hs).0;
            deviation = zscore;
            timestamp = now;
          }
            ∷ []
          else [])
      else []

  abbrev pub detect_error_rate : ℤ → F → HistoricalStats F → List (Anomaly F)
  detect_error_rate now value hs =
      let zscore = zscore_of value hs in
      if ltb 10 hs.count
      then (if spreads hs
          then (if floats.lt three zscore
              then record {
                type = error_rate_spike;
                severity = codes "critical";
                metric = codes "error_rate";
                value = value;
                expected = (mean_std_dev hs).0;
                deviation = zscore;
                timestamp = now;
              }
                ∷ []
              else [])
          else [])
      else []

  abbrev pub detect_qps : ℤ → F → HistoricalStats F → List (Anomaly F)
  detect_qps now value hs =
      let zscore = floats.abs (zscore_of value hs) in
      if ltb 10 hs.count
      then (if spreads hs
          then (if floats.lt (of_nat 4) zscore
              then record {
                type = qps_anomaly;
                severity = calculate_severity zscore;
                metric = codes "qps";
                value = value;
                expected = (mean_std_dev hs).0;
                deviation = zscore;
                timestamp = now;
              }
                ∷ []
              else [])
          else [])
      else []

  abbrev pub new_anomaly_detector : AnomalyDetector F
  new_anomaly_detector = record {
    hit_rate_history = new_historical_stats 100;
    latency_history = new_historical_stats 100;
    error_rate_history = new_historical_stats 100;
    qps_history = new_historical_stats 100;
    anomalies = [];
  }

  -- The last hundred.
  abbrev pub keep_last : List (Anomaly F) → List (Anomaly F)
  keep_last anomalies =
      if ltb 100 (length anomalies) then drop (length anomalies - 100) anomalies else anomalies

  unfoldable pub detect : ℤ → AggregatedStats F → AnomalyDetector F → AnomalyDetector F
  detect now stats ad =
      let hit_rates = add stats.hit_rate ad.hit_rate_history in
      let latencies = add stats.p95_latency ad.latency_history in
      let error_rates = add stats.error_rate ad.error_rate_history in
      let qps = add stats.qps ad.qps_history in
      record {
        hit_rate_history = hit_rates;
        latency_history = latencies;
        error_rate_history = error_rates;
        qps_history = qps;
        anomalies = keep_last (
            ad.anomalies
            ++ (detect_hit_rate now stats.hit_rate hit_rates
                ++ (detect_latency now stats.p95_latency latencies
                    ++ (detect_error_rate now stats.error_rate error_rates
                        ++ detect_qps now stats.qps qps))));
      }

  -- After the cutoff, which is `duration` ago.
  unfoldable pub get_recent_anomalies : ℤ → ℤ → AnomalyDetector F → List (Anomaly F)
  get_recent_anomalies now duration ad =
      filter (λ (a : Anomaly F). ltb_ℤ (now -ℤ duration) a.timestamp) ad.anomalies
