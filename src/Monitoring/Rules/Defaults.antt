-- ===== src/Monitoring/Rules/Defaults.antt =====
-- A round of the aggregator of monitoring/aggregator.go followed by one of the alert manager of monitoring/alerts.go.
use distributed_caching_syst.Prelude.{
  ℕ, ◌≡◌, sym, ap, Bool, true, false, Option, none, some, if◌then◌else◌,
}
use distributed_caching_syst.Prelude.Int.{ℤ}
use distributed_caching_syst.GoMap.{lookup}
use distributed_caching_syst.GoString.{Bytes, bytes_key}
use distributed_caching_syst.Monitoring.Floats.{Floats}
use distributed_caching_syst.Monitoring.Collector.{MetricsCollector}
use distributed_caching_syst.Monitoring.Alerts.{Alert, AlertManager, evaluate_rules}
use distributed_caching_syst.Monitoring.Alerts.Registry.{
  IsRegistry, Named, verdict, present, evaluate_rules-verdict,
}
use distributed_caching_syst.Monitoring.Windows.{AggregatedStats, get_latest}
use distributed_caching_syst.Monitoring.Windows.Recent.{IsWindow, get_latest-add}
use distributed_caching_syst.Monitoring.Aggregator.{Aggregator, snapshot, aggregate}
use distributed_caching_syst.Monitoring.Rules.{
  default_rules, evaluate_latest, evaluate_high_error_rate, evaluate_low_hit_rate,
  evaluate_latency_spike, evaluate_high_eviction_rate, new_alert,
}

module _ {F : Type 0} (floats : Floats F) where
  -- A rule that gives at most one alert, under its id.
  guarded :
      (b : Bool) (id severity : Bytes) (value threshold : F) (message : Bytes) (alert : Alert F)
      → (if b then some (new_alert floats id severity value threshold message) else none)
        ≡ some alert
      → alert.id ≡ id
  guarded true id severity value threshold message alert e =
      ap (λ (o : Option (Alert F)). elim o [ none ↦ id | some a ↦ a.id ]) (sym e)
  guarded false id severity value threshold message alert e = absurd (cc (e))

  default_rules-Named : (stats : AggregatedStats F) → Named stats (default_rules floats)
  unfolding default_rules evaluate_high_error_rate evaluate_low_hit_rate evaluate_latency_spike
      evaluate_high_eviction_rate
  default_rules-Named stats = (
    (λ alert e. guarded _ _ _ _ _ _ alert e),
    (
      (λ alert e. guarded _ _ _ _ _ _ alert e),
      ((λ alert e. guarded _ _ _ _ _ _ alert e), ((λ alert e. guarded _ _ _ _ _ _ alert e), tt)),
    ),
  )

  evaluate_latest-some :
      (clock : ℕ → ℤ) (stats : AggregatedStats F) (a : Aggregator F) (am : AlertManager F)
      → get_latest a.window1m ≡ some stats
      → evaluate_latest floats clock a am ≡ evaluate_rules clock stats (default_rules floats) am
  unfolding evaluate_latest
  evaluate_latest-some clock stats a am e =
      ap
        (λ (o : Option (AggregatedStats F)). elim o [
          | none ↦ am
          | some latest ↦ evaluate_rules clock latest (default_rules floats) am
        ])
        e

  newest_snapshot :
      (now : ℤ) (mc : MetricsCollector F) (a : Aggregator F)
      → IsWindow a.window1m
      → get_latest (aggregate floats now mc a).window1m ≡ some (snapshot floats now mc)
  unfolding aggregate
  newest_snapshot now mc a w = get_latest-add (snapshot floats now mc) a.window1m w

  -- With a well-formed window of a minute and a sound registry, a round of the aggregator and one
  -- of the alert manager keep the registry sound, and exactly those ids are active whose default
  -- rule fires on the counters as they are; an id without a rule is active as before.
  pub evaluate_latest-verdict :
      (clock : ℕ → ℤ) (now : ℤ) (mc : MetricsCollector F) (a : Aggregator F) (am : AlertManager F)
      → IsWindow a.window1m
      → IsRegistry am
      → IsRegistry (evaluate_latest floats clock (aggregate floats now mc a) am)
        × ((id : Bytes)
            → present (
                lookup id
                  (evaluate_latest floats clock (aggregate floats now mc a) am).active_alerts)
              ≡ verdict
                  (snapshot floats now mc)
                  (default_rules floats)
                  id
                  (present (lookup id am.active_alerts)))
  evaluate_latest-verdict clock now mc a am w r =
      rw
        (evaluate_latest-some clock (snapshot floats now mc) (aggregate floats now mc a) am
          (newest_snapshot now mc a w))
        (evaluate_rules-verdict clock (snapshot floats now mc) (default_rules floats) r
          (default_rules-Named (snapshot floats now mc)))
