-- ===== src/Warming/Service/Stopped.antt =====
-- What a step of warming/service.go, warming/worker_pool.go or warming/cron.go does after an emergency stop.
use mathlib.Core.Path.{subst}
use distributed_caching_syst.Prelude.{
  zero, suc, ◌==◌, ℕ, ◌≡◌, refl, sym, ap, ◌∙◌, ◌++◌, true, Option, none, some, List, [], ◌∷◌,
  if_cases, Option_cases, ltb,
}
use distributed_caching_syst.Prelude.Int.{ℤ, pos_part}
use distributed_caching_syst.GoString.{Bytes, codes}
use distributed_caching_syst.Warming.Tasks.{WarmTask, plan}
use distributed_caching_syst.Warming.Service.{
  Metrics, Completion, Environment, Service, Error, stopped, prediction_failed, unknown_strategy,
  queue_tasks,
}
use distributed_caching_syst.Warming.Service.Execution.{
  execute_warm_task, completed, retry_loop, retry_task,
}
use distributed_caching_syst.Warming.Service.Retries.{attempted, loop-attempted}
use distributed_caching_syst.Warming.Service.Settings.{is_registered}
use distributed_caching_syst.Warming.Scheduler.{
  ScheduledJob, execute_job, job_keys, queue_planned, failed,
}

abbrev pub published : {S : Type 0} → Environment S → List Completion → S → S
published env [] outside = outside
published env (event ∷ events) outside = published env events (env.publish event outside)

-- The second state is stopped, has counted nothing since the first but the tasks that jobs queued, and all that it did
-- outside was to publish: it asked no origin and wrote to no cache.
pub record Halts {S : Type 0} (env : Environment S) (s s' : Service S) : Type 0 where
  pub stays : s'.emergency_stop ≡ true
  pub same_metrics : s'.metrics ≡ record (s.metrics) { jobs_total = s'.metrics.jobs_total }
  pub events : List Completion
  pub told : s'.outside ≡ published env events s.outside

module _ {S : Type 0} (env : Environment S) where
  published-append :
      (first later : List Completion) (outside : S)
      → published env (first ++ later) outside ≡ published env later (published env first outside)
  published-append [] later outside = refl
  published-append (event ∷ first) later outside =
      published-append first later (env.publish event outside)

  pub Halts-trans : {a b c : Service S} → Halts env a b → Halts env b c → Halts env a c
  Halts-trans {a} {b} {c} p q = record {
    stays = q.stays;
    same_metrics =
        q.same_metrics
        ∙ ap (λ (m : Metrics). record m { jobs_total = c.metrics.jobs_total }) p.same_metrics;
    events = p.events ++ q.events;
    told =
        q.told
        ∙ ap (published env q.events) p.told
        ∙ sym (published-append p.events q.events a.outside);
  }

  abbrev JobHalts : Service S → Service S × ScheduledJob × Option Error → Type 0
  JobHalts s r = Halts env s r.0

  pub same_Halts : {s : Service S} → s.emergency_stop ≡ true → Halts env s s
  same_Halts h = record { stays = h; same_metrics = refl; events = []; told = refl }

  pub execute-stopped :
      (clock : ℕ → ℤ) (task : WarmTask) (s : Service S)
      → s.emergency_stop ≡ true
      → execute_warm_task env clock task s ≡ (s, some stopped)
  unfolding execute_warm_task
  execute-stopped clock task s h =
      if_cases (λ r. r ≡ (s, some stopped)) s.emergency_stop (s, some stopped) _ (λ _. refl)
        (λ f. cc (h, f))

  queue_planned-Halts :
      (keys : Option (List Bytes)) (j run : ScheduledJob) (s : Service S)
      → s.emergency_stop ≡ true
      → JobHalts s (elim keys [
        | none ↦ (s, failed env run, some prediction_failed)
        | some [] ↦ (s, run, none)
        | some (key ∷ keys) ↦
            elim (plan env.score j.strategy
              (record { keys = key ∷ keys; priority = j.priority; limit = j.limit })) [
                | none ↦ (s, failed env run, some unknown_strategy)
                | some tasks ↦ queue_planned env tasks run s
              ]
      ])
  queue_planned-Halts none j run s h = same_Halts h
  queue_planned-Halts (some []) j run s h = same_Halts h
  queue_planned-Halts (some (key ∷ keys)) j run s h =
      Option_cases (JobHalts s)
        (plan env.score j.strategy
          (record { keys = key ∷ keys; priority = j.priority; limit = j.limit }))
        (same_Halts h)
        (λ tasks.
          if_cases (JobHalts s) (ltb 0 (queue_tasks tasks s.task_queue).1) _ _
            (λ _. record { stays = h; same_metrics = refl; events = []; told = refl })
            (λ _. record { stays = h; same_metrics = refl; events = []; told = refl }))

  -- A job plans and queues without a look at the stop.
  pub job-Halts :
      (clock : ℕ → ℤ) (j : ScheduledJob) (s : Service S)
      → s.emergency_stop ≡ true
      → Halts env s (execute_job env clock j s).0
  unfolding execute_job
  job-Halts clock j s h =
      if_cases (JobHalts s) j.enabled _ _
        (λ _.
          if_cases (JobHalts s) (is_registered j.strategy) _ _
            (λ _.
              queue_planned-Halts (job_keys env j s.outside) j
                (record j { last_run = some (clock 0) }) s h)
            (λ _. same_Halts h))
        (λ _. same_Halts h)

  pub given_up-Halts :
      (task : WarmTask) (s : Service S)
      → s.emergency_stop ≡ true
      → Halts env s
          (record s { outside = env.publish (completed task (codes "failure")) s.outside })
  given_up-Halts task s h = record {
    stays = h;
    same_metrics = refl;
    events = completed task (codes "failure") ∷ [];
    told = refl;
  }

  retry_loop-Halts :
      (left i : ℕ) (clocks : ℕ → ℕ → ℤ) (task : WarmTask) (s : Service S)
      → s.emergency_stop ≡ true
      → Halts env s (retry_loop env left i clocks task s)
  unfolding attempted retry_loop
  retry_loop-Halts zero i clocks task s h = same_Halts h
  retry_loop-Halts (suc left) i clocks task s h =
      subst (Halts env s)
        (sym (
          loop-attempted env clocks task left i s (s, some stopped)
            (execute-stopped (clocks i) task s h)))
        (if_cases (Halts env s) (left == 0) _ _ (λ _. given_up-Halts task s h)
          (λ _. retry_loop-Halts left (suc i) clocks task s h))

  pub taken-Halts :
      (queue : List WarmTask) (clocks : ℕ → ℕ → ℤ) (s : Service S)
      → s.emergency_stop ≡ true
      → Halts env s (elim queue [
        | [] ↦ s
        | task ∷ queue ↦
            let (s', failed) =
              execute_warm_task env (clocks 0) task (record s { task_queue = queue }) in
            elim failed [ none ↦ s' | some _ ↦ retry_task env clocks task s' ]
      ])
  unfolding retry_task
  taken-Halts [] clocks s h = same_Halts h
  taken-Halts (task ∷ queue) clocks s h =
      subst
        (λ (r : Service S × Option Error).
          Halts env s (elim r.1 [ none ↦ r.0 | some _ ↦ retry_task env clocks task r.0 ]))
        (sym (execute-stopped (clocks 0) task (record s { task_queue = queue }) h))
        (Halts-trans (record { stays = h; same_metrics = refl; events = []; told = refl })
          (retry_loop-Halts (pos_part s.config.retry_attempts) 1 clocks task
            (record s { task_queue = queue }) h))
