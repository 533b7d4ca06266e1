-- ===== src/Warming/Service/Halts.antt =====
-- The service of warming/service.go after an emergency stop, with its workers and its scheduled jobs.
use distributed_caching_syst.Prelude.{ℕ, ◌≡◌, drop, Bool, List, [], ◌∷◌}
use distributed_caching_syst.Prelude.Int.{ℤ}
use distributed_caching_syst.GoString.{codes}
use distributed_caching_syst.Warming.Tasks.{WarmTask}
use distributed_caching_syst.Warming.Service.{
  Environment, Service, Error, Result, err, UpdateConfigRequest, Response,
}
use distributed_caching_syst.Warming.Service.Execution.{execute_warm_task, completed, run_worker}
use distributed_caching_syst.Warming.Service.Settings.{
  update_config, set_origin_fetcher, set_cache_client,
}
use distributed_caching_syst.Warming.Scheduler.{ScheduledJob, execute_job}
use distributed_caching_syst.Warming.Service.Queue.{Call, perform}

-- What can happen to the service once no task is past the check of `ExecuteWarmTask`. A worker has a turn that no other
-- worker's overlaps; and for turns that do, it takes the first task, attempts a task, or gives one up. A job is a
-- scheduled one.
pub data Step : Type 0 where
  call : (ℕ → ℤ) → Call → Step
  job : (ℕ → ℤ) → ScheduledJob → Step
  turn : (ℕ → ℕ → ℤ) → Step
  take_task : Step
  attempt : (ℕ → ℤ) → WarmTask → Step
  give_up : WarmTask → Step
  update : UpdateConfigRequest → Step
  fetcher client : Bool → Step

-- A call is refused with the state as it was.
pub record Refused {S : Type 0} (s : Service S) (after : Service S × Result Response) : Type 0 where
  pub unchanged : after.0 ≡ s
  pub error : Error
  pub refused : after.1 ≡ err error

module _ {S : Type 0} (env : Environment S) where
  unfoldable pub act : Step → Service S → Service S
  act (call clock c) s = (perform env clock c s).0
  act (job clock j) s = (execute_job env clock j s).0
  act (turn clocks) s = run_worker env clocks s
  act take_task s = record s { task_queue = drop 1 s.task_queue }
  act (attempt clock task) s = (execute_warm_task env clock task s).0
  act (give_up task) s = record s {
    outside = env.publish (completed task (codes "failure")) s.outside;
  }
  act (update req) s = (update_config req s).0
  act (fetcher given) s = set_origin_fetcher given s
  act (client given) s = set_cache_client given s

  abbrev pub acts : List Step → Service S → Service S
  acts [] s = s
  acts (step ∷ steps) s = acts steps (act step s)
