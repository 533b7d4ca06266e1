-- ===== src/Monitoring/Detector/History.antt =====
-- What the detector of monitoring/aggregator.go can find in the snapshots of `aggregate`.
use distributed_caching_syst.Prelude.{
  ℕ, zero, suc, ◌-◌, ◌<◌, ◌≡◌, arith, refl, Bool, true, false, List, [], ◌∷◌, ◌++◌, if◌then◌else◌,
  length, get_elem?, drop, ltb, All, if_cases,
}
use distributed_caching_syst.Prelude.Int.{ℤ, pos}
use distributed_caching_syst.Monitoring.Floats.{Floats, ZeroLaws}
use distributed_caching_syst.Monitoring.Collector.{MetricsCollector}
use distributed_caching_syst.Monitoring.RingBuffer.{places, set_elem}
use distributed_caching_syst.Monitoring.Windows.Recent.{length-set_elem}
use distributed_caching_syst.Monitoring.Aggregator.{zero_float, or_zero, snapshot}
use distributed_caching_syst.Monitoring.Detector.{
  HistoricalStats, AnomalyType, latency_spike, hit_rate_drop, error_rate_spike, qps_anomaly,
  Anomaly, AnomalyDetector, make_room, add, mean_std_dev, detect_hit_rate, detect_latency,
  detect_error_rate, detect_qps, keep_last, detect, new_anomaly_detector, spreads,
}

abbrev pub is_qps : AnomalyType → Bool
is_qps qps_anomaly = true
is_qps latency_spike = false
is_qps hit_rate_drop = false
is_qps error_rate_spike = false

module _ {κ} {A : Type 0} (P : A → Type κ) where
  All-append : (xs ys : List A) → All P xs → All P ys → All P (xs ++ ys)
  All-append [] ys h k = k
  All-append (x ∷ xs) ys h k = (h.0, All-append xs ys h.1 k)

  All-drop : (n : ℕ) (xs : List A) → All P xs → All P (drop n xs)
  All-drop zero xs h = h
  All-drop (suc n) [] h = tt
  All-drop (suc n) (x ∷ xs) h = All-drop n xs h.1

  All-places : (n : ℕ) (x : A) → P x → All P (places n x)
  All-places zero x h = tt
  All-places (suc n) x h = (h, All-places n x h)

  All-set_elem : (i : ℕ) (x : A) (xs : List A) → P x → All P xs → All P (set_elem i x xs)
  unfolding set_elem
  All-set_elem i x [] h k = tt
  All-set_elem zero x (y ∷ ys) h k = (h, k.1)
  All-set_elem (suc i) x (y ∷ ys) h k = (k.0, All-set_elem i x ys h k.1)

module _ {F : Type 0} (floats : Floats F) (laws : ZeroLaws floats (zero_float floats)) where
  div_positive :
      (n : ℕ) → 0 < n → floats.div (zero_float floats) (floats.of_int (pos n)) ≡ zero_float floats
  div_positive zero h = absurd (omega (arith, h))
  div_positive (suc n) h = laws.div_zero n

  -- A history of zeros, with room for a value at least.
  record IsFlat (hs : HistoricalStats F) : Type 0 where
    roomy : 0 < length hs.values
    flat_mean : hs.mean ≡ zero_float floats
    flat_m2 : hs.m2 ≡ zero_float floats
    flat_values : All (λ x. x ≡ zero_float floats) hs.values

  read-flat :
      (i : ℕ) (xs : List F)
      → All (λ x. x ≡ zero_float floats) xs
      → or_zero floats (get_elem? xs i) ≡ zero_float floats
  read-flat i [] h = refl
  read-flat zero (x ∷ xs) h = h.0
  read-flat (suc i) (x ∷ xs) h = read-flat i xs h.1

  make_room-IsFlat : (hs : HistoricalStats F) → IsFlat hs → IsFlat (make_room floats hs)
  unfolding make_room
  make_room-IsFlat hs flat =
      if_cases IsFlat (ltb hs.count (length hs.values)) _ _
        (λ _. record {
          roomy = flat.roomy;
          flat_mean = flat.flat_mean;
          flat_m2 = flat.flat_m2;
          flat_values = flat.flat_values;
        })
        (λ full. record {
          roomy = flat.roomy;
          flat_mean = cc (
            read-flat hs.index hs.values flat.flat_values,
            flat.flat_mean,
            div_positive hs.count (counted full),
            laws.sub_zero,
          );
          flat_m2 = cc (
            read-flat hs.index hs.values flat.flat_values,
            flat.flat_mean,
            flat.flat_m2,
            div_positive hs.count (counted full),
            laws.sub_zero,
            laws.mul_zero,
          );
          flat_values = flat.flat_values;
        })
    where
      counted : ltb hs.count (length hs.values) ≡ false → 0 < hs.count
      counted full = let room = flat.roomy in ground arith

  make_room-counts : (hs : HistoricalStats F) → IsFlat hs → 0 < (make_room floats hs).count
  unfolding make_room
  make_room-counts hs flat =
      let room = flat.roomy in
      if_cases (λ (h : HistoricalStats F). 0 < h.count) (ltb hs.count (length hs.values)) _ _
        (λ _. omega arith) (λ full. ground arith)

  add-IsFlat : (hs : HistoricalStats F) → IsFlat hs → IsFlat (add floats (zero_float floats) hs)
  unfolding add
  add-IsFlat hs flat =
      let room = make_room-IsFlat hs flat in
      let division = div_positive (make_room floats hs).count (make_room-counts hs flat) in
      record {
        roomy =
            rw
              (length-set_elem (make_room floats hs).index (zero_float floats)
                (make_room floats hs).values)
              room.roomy;
        flat_mean = cc (room.flat_mean, laws.sub_zero, division, laws.add_zero);
        flat_m2 =
            cc
              (room.flat_mean, room.flat_m2, laws.sub_zero, division, laws.add_zero, laws.mul_zero);
        flat_values =
            All-set_elem (λ x. x ≡ zero_float floats) (make_room floats hs).index
              (zero_float floats) (make_room floats hs).values refl room.flat_values;
      }

  spreads-flat : (hs : HistoricalStats F) → IsFlat hs → spreads floats hs ≡ false
  unfolding mean_std_dev
  spreads-flat hs flat =
      if_cases (λ (r : F × F). floats.lt (zero_float floats) r.1 ≡ false) (ltb hs.count 2)
        (hs.mean, zero_float floats) _ (λ _. laws.lt_zero)
        (λ several. cc (
          flat.flat_m2,
          div_positive (hs.count - 1) (ground (arith, several)),
          laws.sqrt_zero,
          laws.lt_zero,
        ))

  qps_silent :
      (now : ℤ) (hs : HistoricalStats F)
      → IsFlat hs
      → detect_qps floats now (zero_float floats) hs ≡ []
  qps_silent now hs flat =
      if_cases (λ l. l ≡ []) (ltb 10 hs.count) _ [] (λ _. rw (spreads-flat hs flat) refl)
        (λ _. refl)

  -- What `aggregate` does to the detector, round by round: the instants, and the collector at each.
  abbrev pub detections : List (ℤ × ℤ × MetricsCollector F) → AnomalyDetector F → AnomalyDetector F
  detections [] ad = ad
  detections ((now, later, mc) ∷ rounds) ad =
      detections rounds (detect floats later (snapshot floats now mc) ad)

  abbrev pub IsOther : Anomaly F → Type 0
  IsOther a = is_qps a.type ≡ false

  single : (b : Bool) (a : Anomaly F) → IsOther a → All IsOther (if b then a ∷ [] else [])
  single true a h = (h, tt)
  single false a h = tt

  others :
      (now : ℤ) (value : F) (hs : HistoricalStats F)
      → All IsOther (detect_hit_rate floats now value hs)
        × All IsOther (detect_latency floats now value hs)
        × All IsOther (detect_error_rate floats now value hs)
  others now value hs = (
    if_cases (All IsOther) (ltb 10 hs.count) _ [] (λ _. single _ _ refl) (λ _. tt),
    if_cases (All IsOther) (ltb 10 hs.count) _ [] (λ _. single _ _ refl) (λ _. tt),
    if_cases (All IsOther) (ltb 10 hs.count) _ []
        (λ _. if_cases (All IsOther) (spreads floats hs) _ [] (λ _. single _ _ refl) (λ _. tt))
        (λ _. tt),
  )

  keep_last-All : (l : List (Anomaly F)) → All IsOther l → All IsOther (keep_last floats l)
  keep_last-All l h =
      if_cases (All IsOther) (ltb 100 (length l)) _ _ (λ _. All-drop IsOther (length l - 100) l h)
        (λ _. h)

  record IsSilent (ad : AnomalyDetector F) : Type 0 where
    flat_qps : IsFlat ad.qps_history
    silent : All IsOther ad.anomalies

  detect-IsSilent :
      (later now : ℤ) (mc : MetricsCollector F) (ad : AnomalyDetector F)
      → IsSilent ad
      → IsSilent (detect floats later (snapshot floats now mc) ad)
  unfolding detect snapshot
  detect-IsSilent later now mc ad s =
      let stats = snapshot floats now mc in
      let hit_rates = add floats stats.hit_rate ad.hit_rate_history in
      let latencies = add floats stats.p95_latency ad.latency_history in
      let error_rates = add floats stats.error_rate ad.error_rate_history in
      let qps = add-IsFlat ad.qps_history s.flat_qps in
      record {
        flat_qps = qps;
        silent = keep_last-All _ (
            All-append IsOther _ _ s.silent (
              All-append IsOther _ _ (others later stats.hit_rate hit_rates).0 (
                All-append IsOther _ _ (others later stats.p95_latency latencies).1 (
                  All-append IsOther _ _ (others later stats.error_rate error_rates).2 (
                    rw (qps_silent later (add floats (zero_float floats) ad.qps_history) qps)
                      tt)))));
      }

  detections-IsSilent :
      (rounds : List (ℤ × ℤ × MetricsCollector F)) (ad : AnomalyDetector F)
      → IsSilent ad
      → IsSilent (detections rounds ad)
  detections-IsSilent [] ad s = s
  detections-IsSilent ((now, later, mc) ∷ rounds) ad s =
      detections-IsSilent rounds (detect floats later (snapshot floats now mc) ad)
        (detect-IsSilent later now mc ad s)

  -- Where the operations on floats obey what IEEE 754 says of the positive zero, a new detector
  -- that is given the snapshots of any rounds of the aggregator finds no anomaly of QPS.
  pub detections-no_qps :
      (rounds : List (ℤ × ℤ × MetricsCollector F))
      → All IsOther (detections rounds (new_anomaly_detector floats)).anomalies
  detections-no_qps rounds =
      (detections-IsSilent rounds (new_anomaly_detector floats) (record {
        flat_qps = record {
          roomy = omega arith;
          flat_mean = refl;
          flat_m2 = refl;
          flat_values = All-places (λ x. x ≡ zero_float floats) 100 (zero_float floats) refl;
        };
        silent = tt;
      })).silent
