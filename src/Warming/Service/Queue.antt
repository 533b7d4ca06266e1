-- ===== src/Warming/Service/Queue.antt =====
-- What `QueueTasks` of warming/worker_pool.go does to the queue: the tasks for which there is room go to its end in
-- their order, and the rest are dropped.
use distributed_caching_syst.Prelude.{
  ℕ, zero, suc, ◌+◌, ◌-◌, ◌≤◌, ◌≡◌, refl, sym, ap, true, false, List, [], ◌∷◌, ◌++◌, if◌then◌else◌,
  length, take, ltb, leb, arith, inl, inr, Bool-cases, if_cases, Option_cases, Option, none, some,
  ◌*◌, length-append, length-take,
}
use mathlib.Core.List.{append_assoc, append-nil}
use distributed_caching_syst.Prelude.Int.{ℤ, pos}
use distributed_caching_syst.GoString.{Bytes, codes}
use distributed_caching_syst.Warming.Tasks.{WarmTask, plan, hour}
use distributed_caching_syst.Warming.Service.{
  key_tasks, no_keys, stopped, prediction_failed, unknown_strategy, no_pattern, nothing_queued,
  quotient, Response, ok, err, panic, Service, queue_size, queue_tasks, Environment, Result,
  WarmKeyRequest, queue_job, hot_keys, limit_keys, is_empty, WarmPatternRequest, warm_key,
  warm_pattern, trigger_predictive,
}

queue_tasks_full :
    (tasks queue : List WarmTask)
    → ltb (length queue) queue_size ≡ false
    → queue_tasks tasks queue ≡ (queue, 0)
unfolding queue_tasks
queue_tasks_full [] queue full = refl
queue_tasks_full (task ∷ tasks) queue full = rw full (rw (queue_tasks_full tasks queue full) refl)

fits :
    (queue : List WarmTask) (room : ℕ)
    → length queue + suc room ≡ queue_size
    → ltb (length queue) queue_size ≡ true
fits queue room e = ground arith

queue_tasks_room :
    (room : ℕ) (tasks queue : List WarmTask)
    → length queue + room ≡ queue_size
    → queue_tasks tasks queue ≡ (queue ++ take room tasks, length (take room tasks))
unfolding queue_tasks
queue_tasks_room zero tasks queue e =
    rw (queue_tasks_full tasks queue (ground arith)) (rw (append-nil queue) refl)
queue_tasks_room (suc room) [] queue e = rw (append-nil queue) refl
queue_tasks_room (suc room) (task ∷ tasks) queue e = rw (fits queue room e) (
    rw
      (queue_tasks_room room tasks (queue ++ task ∷ [])
        (omega (arith, length-append queue (task ∷ []))))
      (rw (append_assoc queue (task ∷ []) (take room tasks)) refl))

-- The tasks that are queued are the first ones, as many as the channel has room for, behind those that wait already,
-- and the count is of those.
pub queue_tasks-take :
    (tasks queue : List WarmTask)
    → queue_tasks tasks queue ≡ (
      queue ++ take (queue_size - length queue) tasks,
      length (take (queue_size - length queue) tasks),
    )
queue_tasks-take tasks queue = elim (Bool-cases (leb (length queue) queue_size)) [
  | inl e ↦ queue_tasks_room (queue_size - length queue) tasks queue (ground arith)
  | inr e ↦ over (queue_size - length queue) e (ground arith)
]
  where
    over :
        (room : ℕ)
        → leb (length queue) queue_size ≡ false
        → room ≡ 0
        → queue_tasks tasks queue ≡ (queue ++ take room tasks, length (take room tasks))
    over room e none_left =
        rw none_left (rw (queue_tasks_full tasks queue (ground arith)) (rw (append-nil queue) refl))

-- The calls that queue tasks.
pub data Call : Type 0 where
  keys_call : WarmKeyRequest → Call
  pattern_call : WarmPatternRequest → Call
  predictive_call : Call

abbrev pub Counts : Result Response → ℕ → Type 0
Counts (ok r) n = r.queued ≡ n
Counts (err e) n = n ≡ 0
Counts panic n = Unit

-- The call puts tasks behind those that wait, within the buffer, and a reply counts them; a refusal puts none.
pub record Queues {S : Type 0} (s : Service S) (after : Service S × Result Response) : Type 0 where
  pub added : List WarmTask
  pub behind : after.0.task_queue ≡ s.task_queue ++ added
  pub within : length after.0.task_queue ≤ queue_size
  pub counted : Counts after.1 (length added)

estimate-Counts :
    {n : ℕ} (q : Option ℤ) (job : ℤ → Response)
    → ((e : ℤ) → (job e).queued ≡ n)
    → Counts (elim q [ none ↦ panic | some estimate ↦ ok (job estimate) ]) n
estimate-Counts none job h = tt
estimate-Counts (some e) job h = h e

module _ {S : Type 0} (env : Environment S) where
  unfoldable pub perform : (ℕ → ℤ) → Call → Service S → Service S × Result Response
  perform clock (keys_call r) s = warm_key env clock r s
  perform clock (pattern_call r) s = warm_pattern env clock r s
  perform clock predictive_call s = trigger_predictive env clock s

  refused-Queues :
      (s : Service S) (result : Result Response)
      → Counts result 0
      → length s.task_queue ≤ queue_size
      → Queues s (s, result)
  refused-Queues s result c h = record {
    added = [];
    behind = sym (append-nil s.task_queue);
    within = h;
    counted = c;
  }

  queue_job-Queues :
      (clock : ℕ → ℤ) (keys : List Bytes) (tasks : List WarmTask) (s : Service S)
      → length s.task_queue ≤ queue_size
      → Queues s (queue_job env clock keys tasks s)
  unfolding queue_job
  queue_job-Queues clock keys tasks s h = record {
    added = take (queue_size - length s.task_queue) tasks;
    behind = ap (λ (p : List WarmTask × ℕ). p.0) (queue_tasks-take tasks s.task_queue);
    within = rw (queue_tasks-take tasks s.task_queue) (
        omega (
          arith,
          h,
          length-append s.task_queue (take (queue_size - length s.task_queue) tasks),
          length-take (queue_size - length s.task_queue) tasks,
        ));
    counted =
        estimate-Counts
          (quotient ((queue_tasks tasks s.task_queue).1 * 50) s.config.concurrent_warmers)
          (λ (estimate : ℤ). record {
            success = true;
            queued = (queue_tasks tasks s.task_queue).1;
            keys = keys;
            job_id = env.generate_job_id (clock 0);
            estimated_time = estimate;
          })
          (λ estimate. ap (λ (p : List WarmTask × ℕ). p.1) (queue_tasks-take tasks s.task_queue));
  }

  asked-Queues :
      (clock : ℕ → ℤ) (keys : List Bytes) (r : WarmKeyRequest) (s : Service S)
      → length s.task_queue ≤ queue_size
      → Queues s (elim keys [
        | [] ↦ (s, err no_keys)
        | _ ∷ _ ↦
            if s.emergency_stop
            then (s, err stopped)
            else queue_job env clock r.keys (key_tasks env r s r.keys) s
      ])
  asked-Queues clock [] r s h = refused-Queues s (err no_keys) refl h
  asked-Queues clock (_ ∷ _) r s h =
      if_cases (Queues s) s.emergency_stop (s, err stopped)
        (queue_job env clock r.keys (key_tasks env r s r.keys) s)
        (λ _. refused-Queues s (err stopped) refl h)
        (λ _. queue_job-Queues clock r.keys (key_tasks env r s r.keys) s h)

  predicted-Queues :
      (clock : ℕ → ℤ) (predicted : Option (List Bytes)) (s : Service S)
      → length s.task_queue ≤ queue_size
      → Queues s (elim predicted [
        | none ↦ (s, err prediction_failed)
        | some [] ↦ (s, ok nothing_queued)
        | some (key ∷ keys) ↦
            elim (plan env.score
              (codes "priority")
              (record { keys = key ∷ keys; priority = pos 80; limit = pos 0 })) [
                | none ↦ (s, err unknown_strategy)
                | some tasks ↦ queue_job env clock (key ∷ keys) tasks s
              ]
      ])
  predicted-Queues clock none s h = refused-Queues s (err prediction_failed) refl h
  predicted-Queues clock (some []) s h = refused-Queues s (ok nothing_queued) refl h
  predicted-Queues clock (some (key ∷ keys)) s h =
      Option_cases (Queues s)
        (plan env.score (codes "priority")
          (record { keys = key ∷ keys; priority = pos 80; limit = pos 0 }))
        (refused-Queues s (err unknown_strategy) refl h)
        (λ tasks. queue_job-Queues clock (key ∷ keys) tasks s h)

  -- On a queue that is no longer than its buffer, `WarmKey`, `WarmPattern` and `TriggerPredictive`
  -- put some tasks behind those that wait and stay within the buffer; a reply counts exactly the
  -- tasks that were put there, and a call that is refused puts none.
  pub perform-Queues :
      (clock : ℕ → ℤ) (call : Call) (s : Service S)
      → length s.task_queue ≤ queue_size
      → Queues s (perform clock call s)
  unfolding perform warm_key warm_pattern trigger_predictive
  perform-Queues clock (keys_call r) s h = asked-Queues clock r.keys r s h
  perform-Queues clock (pattern_call r) s h =
      if_cases (Queues s) (is_empty r.pattern) (s, err no_pattern) _
        (λ _. refused-Queues s (err no_pattern) refl h)
        (λ _.
          if_cases (Queues s) s.emergency_stop (s, err stopped) _
            (λ _. refused-Queues s (err stopped) refl h)
            (λ _.
              Option_cases (Queues s) (hot_keys env r.keys r.pattern s.outside)
                (refused-Queues s (err prediction_failed) refl h)
                (λ found.
                  Option_cases (Queues s)
                    (plan env.score
                      (if is_empty r.strategy then s.config.default_strategy else r.strategy)
                      (record {
                        keys = limit_keys r.limit found;
                        priority = r.priority;
                        limit = r.limit;
                      }))
                    (refused-Queues s (err unknown_strategy) refl h)
                    (λ tasks. queue_job-Queues clock (limit_keys r.limit found) tasks s h))))
  perform-Queues clock predictive_call s h =
      if_cases (Queues s) s.emergency_stop (s, err stopped) _
        (λ _. refused-Queues s (err stopped) refl h)
        (λ _. predicted-Queues clock (env.predict_hot_keys hour (pos 100) s.outside) s h)
