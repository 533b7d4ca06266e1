-- ===== src/Monitoring/Aggregator/Totals.antt =====
-- The totals that `GetStats` of monitoring/aggregator.go replies, against the events.
use distributed_caching_syst.Prelude.{ℕ, ◌%◌, ◌^◌, ◌≡◌, refl, sym, ◌∙◌, List, [], ◌∷◌, arith, All}
use distributed_caching_syst.Prelude.Int.{ℤ}
use distributed_caching_syst.Monitoring.Floats.{Floats}
use distributed_caching_syst.Monitoring.Collector.{
  cache_hit, cache_miss, invalidation, warming, MetricEvent, Bucket, MetricsCollector, total_of,
  add_event, record_metric, new_metrics_collector, get_range,
}
use distributed_caching_syst.Monitoring.Collector.Counts.{
  IsCounter, Call, record_all, Retains, gained, record_all-get_range,
}
use distributed_caching_syst.Monitoring.Aggregator.{aggregate_from_time_series}

total_of-mod {ℓ} :
    {A : Type ℓ} (f : A → ℕ) (xs : List A) → total_of (λ x. f x % 2 ^ 64) xs ≡ total_of f xs
total_of-mod f [] = refl
total_of-mod f (x ∷ xs) = omega (arith, total_of-mod f xs)

-- One for an event of the kind that is counted.
abbrev pub is_hit : {F : Type 0} → MetricEvent F → ℕ
is_hit event = elim event.type [ cache_hit ↦ 1 | _ ↦ 0 ]

abbrev pub is_miss : {F : Type 0} → MetricEvent F → ℕ
is_miss event = elim event.type [ cache_miss ↦ 1 | _ ↦ 0 ]

abbrev pub is_invalidation : {F : Type 0} → MetricEvent F → ℕ
is_invalidation event = elim event.type [ invalidation ↦ 1 | _ ↦ 0 ]

abbrev pub is_warming : {F : Type 0} → MetricEvent F → ℕ
is_warming event = elim event.type [ warming ↦ 1 | _ ↦ 0 ]

module _ {F : Type 0} where
  hits-IsCounter : IsCounter {F = F} (λ b. b.cache_hits % 2 ^ 64) is_hit
  unfolding add_event
  hits-IsCounter = record { starts = λ key. refl; grows = λ event b. ground arith }

  misses-IsCounter : IsCounter {F = F} (λ b. b.cache_misses % 2 ^ 64) is_miss
  unfolding add_event
  misses-IsCounter = record { starts = λ key. refl; grows = λ event b. ground arith }

  invalidations-IsCounter : IsCounter {F = F} (λ b. b.invalidations % 2 ^ 64) is_invalidation
  unfolding add_event
  invalidations-IsCounter = record { starts = λ key. refl; grows = λ event b. ground arith }

  warmings-IsCounter : IsCounter {F = F} (λ b. b.warmings % 2 ^ 64) is_warming
  unfolding add_event
  warmings-IsCounter = record { starts = λ key. refl; grows = λ event b. ground arith }

module _ {F : Type 0} (floats : Floats F) where
  -- The events that a collector is given, one after the other.
  abbrev pub collect : List (Call F) → MetricsCollector F → MetricsCollector F
  collect [] mc = mc
  collect ((clock, event) ∷ calls) mc = collect calls (record_metric floats clock event mc)

  collect-time_series :
      (calls : List (Call F)) (mc : MetricsCollector F)
      → (collect calls mc).time_series ≡ record_all calls mc.time_series
  unfolding record_metric
  collect-time_series [] mc = refl
  collect-time_series ((clock, event) ∷ calls) mc =
      collect-time_series calls (record_metric floats clock event mc)

  counted :
      (f : Bucket F → ℕ) (one : MetricEvent F → ℕ)
      → IsCounter (λ b. f b % 2 ^ 64) one
      → (calls : List (Call F)) (now retention start end : ℤ) → All (Retains start retention) calls
      → total_of f (
          get_range start end
            (collect calls (new_metrics_collector floats now retention)).time_series)
        ≡ gained one start end calls 0
  counted f one counter calls now retention start end h =
      rw (collect-time_series calls (new_metrics_collector floats now retention)) (
        sym (
          total_of-mod f (
            get_range start end
              (record_all calls (new_metrics_collector floats now retention).time_series)))
        ∙ record_all-get_range (λ b. f b % 2 ^ 64) one counter start end calls retention now h)

  -- Where the start of the range is not before what is retained at any call, the hits, misses,
  -- invalidations and warmings that a new collector adds up over the range are the numbers of
  -- those events, as an int64, that were recorded with a second in it.
  pub aggregate_from_time_series-gained :
      (calls : List (Call F)) (now retention start end : ℤ)
      → All (Retains start retention) calls
      → let stats =
          aggregate_from_time_series floats start end
            (collect calls (new_metrics_collector floats now retention)) in
        (stats.cache_hits ≡ gained is_hit start end calls 0)
        × (stats.cache_misses ≡ gained is_miss start end calls 0)
        × (stats.invalidations ≡ gained is_invalidation start end calls 0)
        × (stats.warmings ≡ gained is_warming start end calls 0)
  unfolding aggregate_from_time_series
  aggregate_from_time_series-gained calls now retention start end h = (
    counted (λ b. b.cache_hits) is_hit hits-IsCounter calls now retention start end h,
    counted (λ b. b.cache_misses) is_miss misses-IsCounter calls now retention start end h,
    counted (λ b. b.invalidations) is_invalidation invalidations-IsCounter calls now retention start
        end h,
    counted (λ b. b.warmings) is_warming warmings-IsCounter calls now retention start end h,
  )
