-- ===== src/Warming/Scheduler.antt =====
-- warming/cron.go: the jobs that the cron service runs and the scheduler of one's own jobs, whose map holds pointers,
-- so that what `executeJob` notes on a job is read through the map. Times of the last and the next run are left out
-- but for the last, which the code sets; nothing sets the next.
pub mod Jobs
use distributed_caching_syst.Prelude.{
  ℕ, zero, suc, ◌+◌, ◌%◌, ◌^◌, Bool, true, false, ◌||◌, Option, none, some, List, [], ◌∷◌,
  if◌then◌else◌, ltb, map,
}
use distributed_caching_syst.Prelude.Int.{ℤ, pos, ◌*ℤ◌}
use distributed_caching_syst.GoMap.{lookup, insert, delete}
use distributed_caching_syst.GoString.{Bytes, codes, bytes_eq, bytes_key}
use distributed_caching_syst.Warming.Tasks.{PlanOptions, WarmTask, hour, plan}
use distributed_caching_syst.Warming.Service.{
  Environment, Service, Metrics, Result, ok, err, panic, Error, Response, WarmKeyRequest, warm_key,
  trigger_predictive, prediction_failed, unknown_strategy, is_empty, queue_tasks, add_int64,
  filter_by_pattern,
}
use distributed_caching_syst.Warming.Service.Settings.{is_registered}

pub record ScheduledJob : Type 0 where
  pub id : Bytes
  pub name : Bytes
  pub schedule : Bytes
  pub strategy : Bytes
  pub key_pattern : Bytes
  pub limit : ℤ
  pub priority : ℤ
  pub enabled : Bool
  pub last_run : Option ℤ
  pub run_count : ℕ
  pub fail_count : ℕ

abbrev pub Jobs : Type 0
Jobs = List (Bytes × ScheduledJob)

pub data JobError : Type 0 where
  already_exists not_found : JobError

unfoldable pub register_job : ScheduledJob → Jobs → Jobs × Option JobError
register_job job jobs = elim (lookup job.id jobs) [
  | some _ ↦ (jobs, some already_exists)
  | none ↦ (insert job.id job jobs, none)
]

unfoldable pub unregister_job : Bytes → Jobs → Jobs × Option JobError
unregister_job job_id jobs = elim (lookup job_id jobs) [
  | none ↦ (jobs, some not_found)
  | some _ ↦ (delete job_id jobs, none)
]

unfoldable pub list_jobs : Jobs → List ScheduledJob
list_jobs jobs = map (λ entry. entry.1) jobs

module _ {S : Type 0} (env : Environment S) where
  abbrev pub failed : ScheduledJob → ScheduledJob
  failed job = record job { fail_count = add_int64 job.fail_count 1 }

  -- The keys of a job: none without a pattern, `none` where the prediction fails.
  unfoldable pub job_keys : ScheduledJob → S → Option (List Bytes)
  job_keys job outside =
      if is_empty job.key_pattern
      then some []
      else elim (env.predict_hot_keys hour job.limit outside) [
        | none ↦ none
        | some predicted ↦ some (filter_by_pattern predicted job.key_pattern)
      ]

  abbrev pub queue_planned :
      List WarmTask → ScheduledJob → Service S → Service S × ScheduledJob × Option Error
  queue_planned tasks job s =
      let (queue, queued) = queue_tasks tasks s.task_queue in
      let s' : Service S = record s { task_queue = queue } in
      if ltb 0 queued
      then (
        record s' {
          metrics = record (s'.metrics) { jobs_total = add_int64 s'.metrics.jobs_total queued };
        },
        record job { run_count = add_int64 job.run_count 1 },
        none,
      )
      else (s', job, none)

  -- The strategy is looked up before the keys, and no strategy fails to plan.
  unfoldable pub execute_job :
      (ℕ → ℤ) → ScheduledJob → Service S → Service S × ScheduledJob × Option Error
  execute_job clock job s =
      let run : ScheduledJob = record job { last_run = some (clock 0) } in
      if job.enabled
      then (if is_registered job.strategy
          then elim (job_keys job s.outside) [
            | none ↦ (s, failed run, some prediction_failed)
            | some [] ↦ (s, run, none)
            | some (key ∷ keys) ↦
                elim (plan env.score job.strategy
                  (record { keys = key ∷ keys; priority = job.priority; limit = job.limit })) [
                    | none ↦ (s, failed run, some unknown_strategy)
                    | some tasks ↦ queue_planned tasks run s
                  ]
          ]
          else (s, failed run, some unknown_strategy))
      else (s, job, none)

  -- What `DailyWarmup` returns: the error of the call, `none` where it is nil.
  abbrev pub error_of : Result Response → Option (Result Response)
  error_of (ok _) = none
  error_of (err e) = some (err e)
  error_of panic = some panic

  unfoldable pub daily_warmup : (ℕ → ℤ) → Service S → Service S × Option (Result Response)
  daily_warmup clock s = let (s', reply) = trigger_predictive env clock s in (s', error_of reply)

  -- The common text of the other two jobs: the window, how many keys, and the priority.
  unfoldable pub warm_predicted :
      ℤ → ℤ → ℤ → (ℕ → ℤ) → Service S → Service S × Option (Result Response)
  warm_predicted window limit priority clock s =
      elim (env.predict_hot_keys window limit s.outside) [
        | none ↦ (s, some (err prediction_failed))
        | some [] ↦ (s, none)
        | some (key ∷ keys) ↦
            let (s', reply) =
              warm_key env clock
                (record { keys = key ∷ keys; priority = priority; strategy = codes "priority" })
                s in
            (s', error_of reply)
      ]

  unfoldable pub hourly_refresh : (ℕ → ℤ) → Service S → Service S × Option (Result Response)
  unfolding warm_predicted
  hourly_refresh clock s = warm_predicted hour (pos 50) (pos 70) clock s

  unfoldable pub peak_hours_warmup : (ℕ → ℤ) → Service S → Service S × Option (Result Response)
  unfolding warm_predicted
  peak_hours_warmup clock s = warm_predicted (pos 2 *ℤ hour) (pos 100) (pos 90) clock s
