-- ===== src/Warming/Service/Stops.antt =====
-- The emergency stop of warming/service.go and warming/worker_pool.go. The duration that `executeWarmTaskInternal`
-- compares with the threshold is measured from the origin's timeout before the present, after the fetch.
use distributed_caching_syst.Prelude.{ℕ, ◌≡◌, Option, some, List, [], ◌∷◌}
use distributed_caching_syst.Prelude.Int.{ℤ, ◌≤ℤ◌, ◌<ℤ◌}
use distributed_caching_syst.Warming.Service.{Config, Environment, Service, Error}
use distributed_caching_syst.Warming.Service.Execution.{run_worker}

-- The later reading is not the earlier one.
abbrev pub Monotone : (ℕ → ℤ) → Type 0
Monotone clock = clock 1 ≤ℤ clock 2

-- The threshold is below the timeout.
abbrev pub Below : Config → Type 0
Below config = config.emergency_threshold <ℤ config.origin_timeout

-- What the first state has counted and is configured with, the second has too.
pub record Unwarmed {S : Type 0} (s s' : Service S) : Type 0 where
  pub same_config : s'.config ≡ s.config
  pub same_writes : s'.metrics.cache_writes ≡ s.metrics.cache_writes
  pub same_successes : s'.metrics.success_total ≡ s.metrics.success_total

-- The outcome of an attempt that changes nothing in the cache and does not succeed.
pub record Fails {S : Type 0} (s : Service S) (after : Service S × Option Error) : Type 0 where
  pub unwarmed : Unwarmed s after.0
  pub error : Error
  pub failed : after.1 ≡ some error

module _ {S : Type 0} (env : Environment S) where
  -- The turns of workers, one after the other, each with its readings of the clock.
  abbrev pub run_workers : List (ℕ → ℕ → ℤ) → Service S → Service S
  run_workers [] s = s
  run_workers (clocks ∷ turns) s = run_workers turns (run_worker env clocks s)
