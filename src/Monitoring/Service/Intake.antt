-- ===== src/Monitoring/Service/Intake.antt =====
-- What the handlers of monitoring/service.go make of the events of the cache.
use distributed_caching_syst.Prelude.{
  ℕ, ◌≡◌, refl, ap, ◌∙◌, Bool, true, false, not, ◌&&◌, List, [], ◌∷◌, if◌then◌else◌, inl, inr,
  Bool-cases, if_cases,
}
use distributed_caching_syst.Prelude.Int.{ℤ}
use distributed_caching_syst.GoString.{codes, bytes_eq}
use distributed_caching_syst.Monitoring.Alerts.{add_int64}
use distributed_caching_syst.Monitoring.Floats.{Floats}
use distributed_caching_syst.Monitoring.Collector.{
  cache_hit, cache_miss, MetricsCollector, record_metric, get_counters,
}
use distributed_caching_syst.Monitoring.Aggregator.{zero_float}
use distributed_caching_syst.Monitoring.Service.{
  CacheMetricEvent, handle_cache_metric, one, event_of,
}

abbrev pub is_get : {F : Type 0} → CacheMetricEvent F → Bool
is_get event = bytes_eq event.operation (codes "get")

-- How many of the events a test accepts, on top of `n`, as an int64.
abbrev pub tallied :
    {F : Type 0} → (CacheMetricEvent F → Bool) → List ((ℕ → ℕ → ℤ) × CacheMetricEvent F) → ℕ → ℕ
tallied accepts [] n = n
tallied accepts ((clocks, event) ∷ calls) n =
    tallied accepts calls (if accepts event then add_int64 n 1 else n)

module _ {F : Type 0} (floats : Floats F) where
  abbrev pub handle_all :
      List ((ℕ → ℕ → ℤ) × CacheMetricEvent F) → MetricsCollector F → MetricsCollector F
  handle_all [] mc = mc
  handle_all ((clocks, event) ∷ calls) mc =
      handle_all calls (handle_cache_metric floats clocks event mc)

  -- The collector has counted so many hits and misses.
  abbrev Counted : ℕ → ℕ → MetricsCollector F → Type 0
  Counted hits misses mc = (mc.counters.cache_hits ≡ hits) × (mc.counters.cache_misses ≡ misses)

  asked :
      (clocks : ℕ → ℕ → ℤ) (get : Bool) (event : CacheMetricEvent F) (mc : MetricsCollector F)
      → floats.to_int64 (one floats) ≡ 1
      → Counted
          (if get && event.hit then add_int64 mc.counters.cache_hits 1 else mc.counters.cache_hits)
          (if get && not event.hit
            then add_int64 mc.counters.cache_misses 1
            else mc.counters.cache_misses)
          (if get
            then (if event.hit
                then record_metric floats
                    (clocks 0)
                    (event_of floats cache_hit (one floats) event.timestamp)
                    mc
                else record_metric floats
                    (clocks 1)
                    (event_of floats cache_miss (one floats) event.timestamp)
                    mc)
            else mc)
  unfolding record_metric
  asked clocks false event mc unit = (refl, refl)
  asked clocks true event mc unit = elim (Bool-cases event.hit) [
    | inl e ↦ rw (e, unit) (refl, refl)
    | inr e ↦ rw (e, unit) (refl, refl)
  ]

  handled :
      (clocks : ℕ → ℕ → ℤ) (event : CacheMetricEvent F) (mc : MetricsCollector F)
      → floats.to_int64 (one floats) ≡ 1
      → Counted
          (if is_get event && event.hit
            then add_int64 mc.counters.cache_hits 1
            else mc.counters.cache_hits)
          (if is_get event && not event.hit
            then add_int64 mc.counters.cache_misses 1
            else mc.counters.cache_misses)
          (handle_cache_metric floats clocks event mc)
  unfolding handle_cache_metric record_metric
  handled clocks event mc unit =
      let C =
        Counted
          (if is_get event && event.hit
            then add_int64 mc.counters.cache_hits 1
            else mc.counters.cache_hits)
          (if is_get event && not event.hit
            then add_int64 mc.counters.cache_misses 1
            else mc.counters.cache_misses) in
      let a = asked clocks (is_get event) event mc unit in
      let done =
        if_cases C (bytes_eq event.operation (codes "set")) _ _ (λ _. a)
          (λ _. if_cases C (bytes_eq event.operation (codes "delete")) _ _ (λ _. a) (λ _. a)) in
      if_cases C (floats.lt (zero_float floats) event.latency) _ _ (λ _. done) (λ _. done)

  -- Where the float 1.0 converts to the int64 1, the counters of hits and misses have grown, after
  -- any cache events, by the numbers of the gets that hit and that missed, as int64.
  pub handle_all-tallied :
      (calls : List ((ℕ → ℕ → ℤ) × CacheMetricEvent F)) (mc : MetricsCollector F)
      → floats.to_int64 (one floats) ≡ 1
      → ((get_counters (handle_all calls mc)).cache_hits
          ≡ tallied (λ event. is_get event && event.hit) calls (get_counters mc).cache_hits)
        × ((get_counters (handle_all calls mc)).cache_misses
            ≡ tallied (λ event. is_get event && not event.hit) calls (get_counters mc).cache_misses)
  unfolding get_counters
  handle_all-tallied [] mc unit = (refl, refl)
  handle_all-tallied ((clocks, event) ∷ calls) mc unit =
      let first = handled clocks event mc unit in
      let rest = handle_all-tallied calls (handle_cache_metric floats clocks event mc) unit in
      (
        rest.0 ∙ ap (tallied (λ event. is_get event && event.hit) calls) first.0,
        rest.1 ∙ ap (tallied (λ event. is_get event && not event.hit) calls) first.1,
      )
