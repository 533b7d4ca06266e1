-- ===== src/Examples/Warmups.antt =====
-- The warming service on concrete inputs: an environment with one origin value and a log of what was published.
use distributed_caching_syst.Prelude.{
  ℕ, ◌+◌, ◌≡◌, refl, true, false, none, some, List, [], ◌∷◌, arith,
}
use distributed_caching_syst.Prelude.Int.{ℤ, pos}
use distributed_caching_syst.GoString.{codes, bytes_key}
use distributed_caching_syst.Warming.Tasks.{PlanOptions, WarmTask, hour, plan, selective_plan}
use distributed_caching_syst.Warming.Tasks.Plans.{Bounded, plan-Bounded}
use distributed_caching_syst.Warming.Service.{
  default_config, Metrics, Completion, Environment, Service, panic, fetch_failed, WarmKeyRequest,
  WarmPatternRequest, UpdateConfigRequest, queue_tasks, key_tasks, warm_key,
}
use distributed_caching_syst.Warming.Service.Execution.{
  execute_warm_task, execute_warm_task_internal, retry_task, completed,
}
use distributed_caching_syst.Warming.Service.Queue.{
  Queues, perform, pattern_call, keys_call, perform-Queues,
}
use distributed_caching_syst.Warming.Service.Retries.{none_yet, one_more, retry_task-gives_up}
use distributed_caching_syst.Warming.Service.Stopped.{Halts}
use distributed_caching_syst.Warming.Service.Halts.{
  Step, call, job, turn, take_task, attempt, give_up, fetcher,
}
use distributed_caching_syst.Warming.Service.Settings.{update_config, warm_key-panics}
use distributed_caching_syst.Warming.Scheduler.{ScheduledJob, execute_job}
use distributed_caching_syst.Warming.Scheduler.Jobs.{Accounts, execute_job-Accounts}

abbrev no_metrics : Metrics
no_metrics = record {
  jobs_total = 0;
  success_total = 0;
  failure_total = 0;
  origin_requests = 0;
  cache_writes = 0;
  rate_limit_hits = 0;
  emergency_stops = 0;
  total_duration = 0;
}

-- An origin that answers, and one that does not.
abbrev world : Environment (List Completion)
world = record {
  predict_hot_keys = λ window limit s. some (codes "user:1" ∷ codes "post:2" ∷ []);
  fetch = λ key s. (some (codes "v", pos 0), s);
  cache_set = λ key value ttl s. (true, s);
  wait = λ s. (true, s);
  publish = λ c s. c ∷ s;
  score = λ n i cost. pos 50;
  generate_job_id = λ now. codes "warm-1";
}

abbrev offline : Environment (List Completion)
offline = record world { fetch = λ key s. (none, s) }

abbrev one_task : WarmTask
one_task = record {
  key = codes "user:1";
  priority = pos 50;
  estimated_cost = 50;
  ttl = hour;
  strategy = codes "priority";
}

abbrev started : Service (List Completion)
started = record {
  config = default_config;
  origin_fetcher = true;
  cache_client = true;
  task_queue = one_task ∷ [];
  metrics = no_metrics;
  emergency_stop = false;
  outside = [];
}

abbrev halted : Service (List Completion)
halted = record started { emergency_stop = true }

abbrev clock : ℕ → ℤ
clock i = pos (100 + i)

abbrev clocks : ℕ → ℕ → ℤ
clocks i j = pos (1000 + j)

abbrev two_keys : PlanOptions
two_keys = record {
  keys = codes "user:1" ∷ codes "user:2:posts" ∷ [];
  priority = pos 40;
  limit = pos 1;
}

plan-Bounded_example : Bounded two_keys (selective_plan two_keys)
unfolding plan
plan-Bounded_example =
    plan-Bounded (λ n i cost. pos 50) (codes "selective") two_keys (omega arith) (omega arith) refl

abbrev users : WarmPatternRequest
users = record {
  pattern = codes "user:*";
  limit = pos 5;
  priority = pos 60;
  strategy = [];
  keys = [];
}

perform-Queues_example : Queues started (perform world clock (pattern_call users) started)
perform-Queues_example = perform-Queues world clock (pattern_call users) started (omega arith)

abbrev one_key : WarmKeyRequest
one_key = record { keys = codes "user:1" ∷ []; priority = pos 0; strategy = codes "priority" }

abbrev nightly : ScheduledJob
nightly = record {
  id = codes "nightly";
  name = codes "nightly";
  schedule = codes "0 2 * * *";
  strategy = codes "breadth";
  key_pattern = codes "user:*";
  limit = pos 10;
  priority = pos 50;
  enabled = true;
  last_run = none;
  run_count = 0;
  fail_count = 0;
}

-- A call, a job that queues, a worker's turn, the parts of one, and another fetcher.
abbrev after_the_stop : List Step
after_the_stop =
    call clock (keys_call one_key)
    ∷ job clock nightly
    ∷ turn clocks
    ∷ take_task
    ∷ attempt clock one_task
    ∷ attempt clock one_task
    ∷ give_up one_task
    ∷ fetcher true
    ∷ []

abbrev no_workers : UpdateConfigRequest
no_workers = record {
  max_origin_rps = none;
  max_batch_size = none;
  concurrent_warmers = some (pos 0);
  default_strategy = [];
}

warm_key-panics_example :
    ((warm_key world clock one_key (update_config no_workers started).0).1 ≡ panic)
    × ((warm_key world clock one_key (update_config no_workers started).0).0.task_queue
        ≡ (queue_tasks
            (key_tasks world one_key (update_config no_workers started).0 (codes "user:1" ∷ []))
            (one_task ∷ [])).0)
warm_key-panics_example =
    warm_key-panics world clock no_workers one_key (codes "user:1") [] started refl refl refl

-- A service with one retry.
abbrev impatient : Service (List Completion)
impatient = record started { config = record default_config { retry_attempts = pos 1 } }

fails_once :
    execute_warm_task offline (clocks 1) one_task impatient
    ≡ ((execute_warm_task offline (clocks 1) one_task impatient).0, some fetch_failed)
unfolding execute_warm_task execute_warm_task_internal
fails_once = refl

retry_task-gives_up_example :
    retry_task offline clocks one_task impatient
    ≡ record ((execute_warm_task offline (clocks 1) one_task impatient).0) {
      outside =
          offline.publish
            (completed one_task (codes "failure"))
            (execute_warm_task offline (clocks 1) one_task impatient).0.outside;
    }
retry_task-gives_up_example =
    retry_task-gives_up offline clocks one_task 0 impatient
      (execute_warm_task offline (clocks 1) one_task impatient).0 refl
      (one_more fails_once none_yet)

execute_job-Accounts_example : Accounts started nightly (execute_job world clock nightly started)
execute_job-Accounts_example = execute_job-Accounts world clock nightly started (omega arith)
