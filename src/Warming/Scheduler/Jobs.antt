-- ===== src/Warming/Scheduler/Jobs.antt =====
-- The registry and the runs of the jobs of warming/cron.go.
use mathlib.Core.List.{append-nil}
use mathlib.Core.Path.{subst}
use distributed_caching_syst.Prelude.{
  ℕ, ◌-◌, ◌≡◌, ◌≤◌, refl, sym, ap, ◌∙◌, Bool, true, false, Option, none, some, List, [], ◌∷◌, ◌++◌,
  ltb, length, take, if_cases, Option_cases, arith, length-append, length-take,
}
use distributed_caching_syst.Prelude.Int.{ℤ}
use distributed_caching_syst.GoMap.{lookup, insert, delete, lookup-insert, delete-insert_new}
use distributed_caching_syst.GoString.{Bytes, bytes_eq_iff, bytes_key}
use distributed_caching_syst.Warming.Tasks.{WarmTask, plan}
use distributed_caching_syst.Warming.Service.{
  Environment, Service, Error, prediction_failed, unknown_strategy, queue_tasks, queue_size,
  add_int64,
}
use distributed_caching_syst.Warming.Service.Queue.{queue_tasks-take}
use distributed_caching_syst.Warming.Service.Settings.{is_registered}
use distributed_caching_syst.Warming.Scheduler.{
  ScheduledJob, Jobs, already_exists, register_job, unregister_job, failed, queue_planned, job_keys,
  execute_job,
}

register_job_new :
    (job : ScheduledJob) (jobs : Jobs)
    → lookup job.id jobs ≡ none
    → register_job job jobs ≡ (insert job.id job jobs, none)
unfolding register_job
register_job_new job jobs free = rw (free, register_job) refl

register_job_again :
    (job old : ScheduledJob) (jobs : Jobs)
    → lookup job.id jobs ≡ some old
    → register_job job jobs ≡ (jobs, some already_exists)
unfolding register_job
register_job_again job old jobs taken = rw (taken, register_job) refl

unregister_job_old :
    (job_id : Bytes) (job : ScheduledJob) (jobs : Jobs)
    → lookup job_id jobs ≡ some job
    → unregister_job job_id jobs ≡ (delete job_id jobs, none)
unfolding unregister_job
unregister_job_old job_id job jobs found = rw (found, unregister_job) refl

-- A job whose id is not taken can be found after it was registered, cannot be registered again under that id, and
-- leaves the registry as it was when it goes.
pub register_job-unregister_job :
    (job other : ScheduledJob) (jobs : Jobs)
    → lookup job.id jobs ≡ none
    → other.id ≡ job.id
    → (lookup job.id (register_job job jobs).0 ≡ some job)
      × (register_job other (register_job job jobs).0
          ≡ ((register_job job jobs).0, some already_exists))
      × (unregister_job job.id (register_job job jobs).0 ≡ (jobs, none))
register_job-unregister_job job other jobs free same =
    let found : lookup job.id (insert job.id job jobs) ≡ some job =
      ground (arith, lookup-insert job.id job.id job jobs, bytes_eq_iff job.id job.id) in
    rw (register_job_new job jobs free) (
      found,
      register_job_again other job (insert job.id job jobs) (rw same found),
      unregister_job_old job.id job (insert job.id job jobs) found
          ∙ rw (delete-insert_new job.id job jobs free) refl,
    )

abbrev pub grows : Bool → ℕ → ℕ
grows true n = add_int64 n 1
grows false n = n

abbrev pub is_some {ℓ} : {A : Type ℓ} → Option A → Bool
is_some none = false
is_some (some _) = true

-- What a run of the job leaves: tasks behind those that wait and within the buffer, a failure counted where it returns
-- an error, and a run where it queued anything.
pub record Accounts {S : Type 0} (s : Service S) (job : ScheduledJob)
    (after : Service S × ScheduledJob × Option Error) : Type 0 where
  pub added : List WarmTask
  pub behind : after.0.task_queue ≡ s.task_queue ++ added
  pub within : length after.0.task_queue ≤ queue_size
  pub failures : after.1.fail_count ≡ grows (is_some after.2) job.fail_count
  pub runs : after.1.run_count ≡ grows (ltb 0 (length added)) job.run_count

module _ {S : Type 0} (env : Environment S) where
  idle-Accounts :
      (s : Service S) (job job' : ScheduledJob) (e : Option Error)
      → length s.task_queue ≤ queue_size
      → job'.fail_count ≡ grows (is_some e) job.fail_count
      → job'.run_count ≡ job.run_count
      → Accounts s job (s, job', e)
  idle-Accounts s job job' e h f r = record {
    added = [];
    behind = sym (append-nil s.task_queue);
    within = h;
    failures = f;
    runs = r;
  }

  planned-Accounts :
      (tasks : List WarmTask) (job run : ScheduledJob) (s : Service S)
      → length s.task_queue ≤ queue_size
      → run.fail_count ≡ job.fail_count
      → run.run_count ≡ job.run_count
      → Accounts s job (queue_planned env tasks run s)
  planned-Accounts tasks job run s h f r =
      let room = take (queue_size - length s.task_queue) tasks in
      let taken = queue_tasks-take tasks s.task_queue in
      let behind : (queue_tasks tasks s.task_queue).0 ≡ s.task_queue ++ room =
        ap (λ (p : List WarmTask × ℕ). p.0) taken in
      let within : length (queue_tasks tasks s.task_queue).0 ≤ queue_size = rw behind (
        omega (
          arith,
          h,
          length-append s.task_queue room,
          length-take (queue_size - length s.task_queue) tasks,
        )) in
      let counted : (queue_tasks tasks s.task_queue).1 ≡ length room =
        ap (λ (p : List WarmTask × ℕ). p.1) taken in
      if_cases (Accounts s job) (ltb 0 (queue_tasks tasks s.task_queue).1) _ _
        (λ e. record {
          added = room;
          behind = behind;
          within = within;
          failures = f;
          runs = rw (subst (λ n. ltb 0 n ≡ true) counted e) (ap (λ n. add_int64 n 1) r);
        })
        (λ e. record {
          added = room;
          behind = behind;
          within = within;
          failures = f;
          runs = rw (subst (λ n. ltb 0 n ≡ false) counted e) r;
        })

  ran-Accounts :
      (keys : Option (List Bytes)) (job run : ScheduledJob) (s : Service S)
      → length s.task_queue ≤ queue_size
      → run.fail_count ≡ job.fail_count
      → run.run_count ≡ job.run_count
      → Accounts s job (elim keys [
        | none ↦ (s, failed env run, some prediction_failed)
        | some [] ↦ (s, run, none)
        | some (key ∷ keys) ↦
            elim (plan env.score job.strategy
              (record { keys = key ∷ keys; priority = job.priority; limit = job.limit })) [
                | none ↦ (s, failed env run, some unknown_strategy)
                | some tasks ↦ queue_planned env tasks run s
              ]
      ])
  ran-Accounts none job run s h f r =
      idle-Accounts s job (failed env run) (some prediction_failed) h (ap (λ n. add_int64 n 1) f) r
  ran-Accounts (some []) job run s h f r = idle-Accounts s job run none h f r
  ran-Accounts (some (key ∷ keys)) job run s h f r =
      Option_cases (Accounts s job)
        (plan env.score job.strategy
          (record { keys = key ∷ keys; priority = job.priority; limit = job.limit }))
        (idle-Accounts s job (failed env run) (some unknown_strategy) h (ap (λ n. add_int64 n 1) f)
          r)
        (λ tasks. planned-Accounts tasks job run s h f r)

  -- On a queue that is no longer than its buffer, a run of a job puts some tasks behind those that
  -- wait and stays within the buffer, counts a failure where it returns an error, and counts a run
  -- where it queued a task, and neither otherwise.
  pub execute_job-Accounts :
      (clock : ℕ → ℤ) (job : ScheduledJob) (s : Service S)
      → length s.task_queue ≤ queue_size
      → Accounts s job (execute_job env clock job s)
  unfolding execute_job
  execute_job-Accounts clock job s h =
      let run : ScheduledJob = record job { last_run = some (clock 0) } in
      if_cases (Accounts s job) job.enabled _ _
        (λ _.
          if_cases (Accounts s job) (is_registered job.strategy) _ _
            (λ _. ran-Accounts (job_keys env job s.outside) job run s h refl refl)
            (λ _. idle-Accounts s job (failed env run) (some unknown_strategy) h refl refl))
        (λ _. idle-Accounts s job job none h refl refl)
