-- ===== src/Warming/Service/Execution.antt =====
-- `ExecuteWarmTask` of warming/service.go and the turn of a worker in warming/worker_pool.go, without its pauses.
use distributed_caching_syst.Prelude.{
  ℕ, zero, suc, ◌+◌, ◌-◌, ◌/◌, ◌%◌, ◌^◌, true, false, Option, none, some, [], ◌∷◌, if◌then◌else◌,
  ◌==◌,
}
use distributed_caching_syst.Prelude.Int.{ℤ, pos, negsuc, pos_part, ◌-ℤ◌, ltb_ℤ}
use distributed_caching_syst.GoString.{Bytes, codes}
use distributed_caching_syst.Warming.Tasks.{WarmTask, is_zero}
use distributed_caching_syst.Warming.Service.{
  Config, Completion, Environment, Service, Error, rate_limited, no_fetcher, fetch_failed,
  high_latency, write_failed, stopped, add_int64,
}

-- `Duration.Milliseconds`, as a bit pattern.
abbrev pub milliseconds : ℤ → ℕ
milliseconds (pos n) = n / 1000000 % 2 ^ 64
milliseconds (negsuc n) = (2 ^ 64 - (n + 1) / 1000000 % 2 ^ 64) % 2 ^ 64

-- `time.Since(time.Now().Add(-s.config.OriginTimeout))`, from the two readings of the clock.
abbrev pub fetch_duration : ℤ → ℤ → Config → ℤ
fetch_duration now since config = since -ℤ (now -ℤ config.origin_timeout)

abbrev pub completed : WarmTask → Bytes → Completion
completed task status = record { key = task.key; status = status; strategy = task.strategy }

module _ {S : Type 0} (env : Environment S) where
  -- The write of the fetched value, with the task's time to live where the origin gives none.
  unfoldable pub write_cache : WarmTask → Bytes → ℤ → Service S → Service S × Option Error
  write_cache task value ttl s = elim s.cache_client [
    | false ↦ (s, none)
    | true ↦
        let (written, outside) =
          env.cache_set task.key value (if is_zero ttl then task.ttl else ttl) s.outside in
        if written
        then (
          record s {
            outside = outside;
            metrics = record (s.metrics) { cache_writes = add_int64 s.metrics.cache_writes 1 };
          },
          none,
        )
        else (record s { outside = outside }, some write_failed)
  ]

  -- What follows a fetch that succeeded.
  unfoldable pub after_fetch : (ℕ → ℤ) → WarmTask → Bytes → ℤ → Service S → Service S × Option Error
  after_fetch clock task value ttl s =
      let s' : Service S = record s {
        metrics = record (s.metrics) { origin_requests = add_int64 s.metrics.origin_requests 1 };
      } in
      if ltb_ℤ s.config.emergency_threshold (fetch_duration (clock 1) (clock 2) s.config)
      then (
        record s' {
          emergency_stop = true;
          metrics = record (s'.metrics) {
            emergency_stops = add_int64 s'.metrics.emergency_stops 1;
          };
        },
        some high_latency,
      )
      else write_cache task value ttl s'

  unfoldable pub execute_warm_task_internal :
      (ℕ → ℤ) → WarmTask → Service S → Service S × Option Error
  execute_warm_task_internal clock task s =
      let (allowed, outside) = env.wait s.outside in
      let waited : Service S = record s { outside = outside } in
      if allowed
      then (if s.origin_fetcher
          then (let (fetched, outside') = env.fetch task.key outside in
              let asked : Service S = record waited { outside = outside' } in
              elim fetched [
                | none ↦ (asked, some fetch_failed)
                | some (value, ttl) ↦ after_fetch clock task value ttl asked
              ])
          else (waited, some no_fetcher))
      else (
        record waited {
          metrics = record (waited.metrics) {
            rate_limit_hits = add_int64 waited.metrics.rate_limit_hits 1;
          };
        },
        some rate_limited,
      )

  -- The completion event of a success is published by a goroutine, which is run at once here.
  unfoldable pub execute_warm_task : (ℕ → ℤ) → WarmTask → Service S → Service S × Option Error
  execute_warm_task clock task s =
      let (s', failed) = execute_warm_task_internal clock task s in
      let timed : Service S = record s' {
        metrics = record (s'.metrics) {
          total_duration = add_int64 s'.metrics.total_duration (milliseconds (clock 3 -ℤ clock 0));
        };
      } in
      if s.emergency_stop then (s, some stopped) else elim failed [
        | some e ↦ (
          record timed {
            metrics = record (timed.metrics) {
              failure_total = add_int64 timed.metrics.failure_total 1;
            };
          },
          some e,
        )
        | none ↦ (
          record timed {
            metrics = record (timed.metrics) {
              success_total = add_int64 timed.metrics.success_total 1;
            };
            outside = env.publish (completed task (codes "success")) timed.outside;
          },
          none,
        )
      ]

  -- `retryTask` with `left` attempts left; `clocks i` is the clock of the i-th attempt. The last failure is published.
  unfoldable pub retry_loop : ℕ → ℕ → (ℕ → ℕ → ℤ) → WarmTask → Service S → Service S
  retry_loop zero i clocks task s = s
  retry_loop (suc left) i clocks task s =
      let (s', failed) = execute_warm_task (clocks i) task s in
      let again = retry_loop left (suc i) clocks task s' in
      elim failed [
        | none ↦ s'
        | some _ ↦
            if left == 0
            then record s' { outside = env.publish (completed task (codes "failure")) s'.outside }
            else again
      ]

  unfoldable pub retry_task : (ℕ → ℕ → ℤ) → WarmTask → Service S → Service S
  retry_task clocks task s = retry_loop (pos_part s.config.retry_attempts) 1 clocks task s

  -- A worker takes the first task of the queue, executes it and retries where it failed. The turn is one step here, so turns
  -- that overlap are not.
  unfoldable pub run_worker : (ℕ → ℕ → ℤ) → Service S → Service S
  run_worker clocks s = elim s.task_queue [
    | [] ↦ s
    | task ∷ queue ↦
        let (s', failed) = execute_warm_task (clocks 0) task (record s { task_queue = queue }) in
        elim failed [ none ↦ s' | some _ ↦ retry_task clocks task s' ]
  ]
