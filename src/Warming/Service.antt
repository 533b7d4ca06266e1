-- ===== src/Warming/Service.antt =====
-- warming/service.go with the queue, the worker's turn and the retries of warming/worker_pool.go. The predictor,
-- the origin, the cache client, the limiter of golang.org/x/time/rate, the completion topic and the job ids are an
-- environment whose state `S` the calls pass along. `clock i` is the i-th reading of the clock in the text of
-- a call. The deduper of golang.org/x/sync lets the call through where no other task has the same key. The
-- pauses between retries are left out, and so is the duration of a task in its event.
pub mod Queue
pub mod Execution
pub mod Stops
pub mod Stopped
pub mod Halts
pub mod Retries
pub mod Settings
use distributed_caching_syst.Prelude.{
  ℕ, zero, suc, ◌+◌, ◌-◌, ◌*◌, ◌/◌, ◌%◌, ◌^◌, Bool, true, false, Option, none, some, List, [], ◌∷◌,
  ◌++◌, if◌then◌else◌, length, take, ltb, filter,
}
use distributed_caching_syst.Prelude.Int.{ℤ, pos, negsuc, pos_part, sub_ℕ, ◌+ℤ◌, ◌-ℤ◌, ltb_ℤ, leb_ℤ}
use distributed_caching_syst.GoString.{Bytes, codes, bytes_eq, has_prefix, has_suffix, trim_suffix}
use distributed_caching_syst.Warming.Tasks.{PlanOptions, WarmTask, is_zero, hour, plan}

pub record Config : Type 0 where
  pub max_origin_rps : ℤ
  pub max_batch_size : ℤ
  pub concurrent_warmers : ℤ
  pub default_ttl : ℤ
  pub origin_timeout : ℤ
  pub retry_attempts : ℤ
  pub emergency_threshold : ℤ
  pub default_strategy : Bytes

-- Five seconds for the origin, and a threshold of two.
abbrev pub default_config : Config
default_config = record {
  max_origin_rps = pos 100;
  max_batch_size = pos 50;
  concurrent_warmers = pos 10;
  default_ttl = hour;
  origin_timeout = pos 5_000_000_000;
  retry_attempts = pos 3;
  emergency_threshold = pos 2_000_000_000;
  default_strategy = codes "priority";
}

pub record Metrics : Type 0 where
  pub jobs_total : ℕ
  pub success_total : ℕ
  pub failure_total : ℕ
  pub origin_requests : ℕ
  pub cache_writes : ℕ
  pub rate_limit_hits : ℕ
  pub emergency_stops : ℕ
  pub total_duration : ℕ

pub record Completion : Type 0 where
  pub key : Bytes
  pub status : Bytes
  pub strategy : Bytes

pub record Environment (S : Type 0) : Type 0 where
  pub predict_hot_keys : ℤ → ℤ → S → Option (List Bytes)
  pub fetch : Bytes → S → Option (Bytes × ℤ) × S
  pub cache_set : Bytes → Bytes → ℤ → S → Bool × S
  pub wait : S → Bool × S
  pub publish : Completion → S → S
  pub score : ℕ → ℕ → ℕ → ℤ
  pub generate_job_id : ℤ → Bytes

pub record Service (S : Type 0) : Type 0 where
  pub config : Config
  pub origin_fetcher : Bool
  pub cache_client : Bool
  pub task_queue : List WarmTask
  pub metrics : Metrics
  pub emergency_stop : Bool
  pub outside : S

pub data Error : Type 0 where
  no_keys no_pattern stopped prediction_failed unknown_strategy rate_limited no_fetcher fetch_failed
        high_latency write_failed :
      Error

-- A call replies, fails, or panics on a division by zero.
pub data Result {ℓ} (A : Type ℓ) : Type ℓ where
  ok : A → Result A
  err : Error → Result A
  panic : Result A

pub record WarmKeyRequest : Type 0 where
  pub keys : List Bytes
  pub priority : ℤ
  pub strategy : Bytes

pub record WarmPatternRequest : Type 0 where
  pub pattern : Bytes
  pub limit : ℤ
  pub priority : ℤ
  pub strategy : Bytes
  pub keys : List Bytes

-- The response to the three calls that queue tasks; the one for a pattern also repeats the pattern.
pub record Response : Type 0 where
  pub success : Bool
  pub queued : ℕ
  pub keys : List Bytes
  pub job_id : Bytes
  pub estimated_time : ℤ

pub record UpdateConfigRequest : Type 0 where
  pub max_origin_rps : Option ℤ
  pub max_batch_size : Option ℤ
  pub concurrent_warmers : Option ℤ
  pub default_strategy : Bytes

abbrev pub add_int64 : ℕ → ℕ → ℕ
add_int64 a b = (a + b) % 2 ^ 64

abbrev pub is_empty : Bytes → Bool
is_empty [] = true
is_empty (_ ∷ _) = false

-- The buffer of the channel.
abbrev pub queue_size : ℕ
queue_size = 1000

-- The loop of `QueueTasks`: a task for which the channel has no room is dropped.
unfoldable pub queue_tasks : List WarmTask → List WarmTask → List WarmTask × ℕ
queue_tasks [] queue = (queue, 0)
queue_tasks (task ∷ tasks) queue =
    let fits = ltb (length queue) queue_size in
    let (queue', queued) = queue_tasks tasks (if fits then queue ++ task ∷ [] else queue) in
    (queue', if fits then suc queued else queued)

-- `a / b` of ints, which rounds towards zero.
abbrev pub quotient : ℕ → ℤ → Option ℤ
quotient a (pos zero) = none
quotient a (pos (suc n)) = some (pos (a / suc n))
quotient a (negsuc n) = some (sub_ℕ 0 (a / suc n))

-- The keys that start with what stands before the asterisk, if there is one.
unfoldable pub filter_by_pattern : List Bytes → Bytes → List Bytes
filter_by_pattern keys pattern =
    if bytes_eq pattern (codes "*")
    then keys
    else filter (has_prefix (trim_suffix (codes "*") pattern)) keys

abbrev pub limit_keys : ℤ → List Bytes → List Bytes
limit_keys limit keys = if ltb_ℤ (pos 0) limit then take (pos_part limit) keys else keys

abbrev pub nothing_queued : Response
nothing_queued = record {
  success = true;
  queued = 0;
  keys = [];
  job_id = [];
  estimated_time = pos 0;
}

module _ {S : Type 0} (env : Environment S) where
  -- The end of the calls that queue tasks. The tasks are queued before the division.
  unfoldable pub queue_job :
      (ℕ → ℤ) → List Bytes → List WarmTask → Service S → Service S × Result Response
  queue_job clock keys tasks s =
      let (queue, queued) = queue_tasks tasks s.task_queue in
      (
        record s {
          task_queue = queue;
          metrics = record (s.metrics) { jobs_total = add_int64 s.metrics.jobs_total queued };
        },
        elim (quotient (queued * 50) s.config.concurrent_warmers) [
          | none ↦ panic
          | some estimate ↦ ok (record {
            success = true;
            queued = queued;
            keys = keys;
            job_id = env.generate_job_id (clock 0);
            estimated_time = estimate;
          })
        ],
      )

  unfoldable pub key_tasks : WarmKeyRequest → Service S → List Bytes → List WarmTask
  key_tasks req s [] = []
  key_tasks req s (key ∷ keys) =
      record {
        key = key;
        priority = if is_zero req.priority then pos 50 else req.priority;
        estimated_cost = 50;
        ttl = s.config.default_ttl;
        strategy = req.strategy;
      }
      ∷ key_tasks req s keys

  unfoldable pub warm_key : (ℕ → ℤ) → WarmKeyRequest → Service S → Service S × Result Response
  warm_key clock req s = elim req.keys [
    | [] ↦ (s, err no_keys)
    | _ ∷ _ ↦
        if s.emergency_stop
        then (s, err stopped)
        else queue_job clock req.keys (key_tasks req s req.keys) s
  ]

  abbrev pub hot_keys : List Bytes → Bytes → S → Option (List Bytes)
  hot_keys [] pattern outside = elim (env.predict_hot_keys hour (pos 100) outside) [
    | none ↦ none
    | some predicted ↦ some (filter_by_pattern predicted pattern)
  ]
  hot_keys (key ∷ keys) pattern outside = some (key ∷ keys)

  unfoldable pub warm_pattern :
      (ℕ → ℤ) → WarmPatternRequest → Service S → Service S × Result Response
  warm_pattern clock req s =
      if is_empty req.pattern
      then (s, err no_pattern)
      else if s.emergency_stop
      then (s, err stopped)
      else elim (hot_keys req.keys req.pattern s.outside) [
        | none ↦ (s, err prediction_failed)
        | some found ↦
            let keys = limit_keys req.limit found in
            let name = if is_empty req.strategy then s.config.default_strategy else req.strategy in
            elim (plan env.score name
              (record { keys = keys; priority = req.priority; limit = req.limit })) [
                | none ↦ (s, err unknown_strategy)
                | some tasks ↦ queue_job clock keys tasks s
              ]
      ]

  unfoldable pub trigger_predictive : (ℕ → ℤ) → Service S → Service S × Result Response
  trigger_predictive clock s =
      if s.emergency_stop
      then (s, err stopped)
      else elim (env.predict_hot_keys hour (pos 100) s.outside) [
        | none ↦ (s, err prediction_failed)
        | some [] ↦ (s, ok nothing_queued)
        | some (key ∷ keys) ↦
            elim (plan env.score (codes "priority")
              (record { keys = key ∷ keys; priority = pos 80; limit = pos 0 })) [
                | none ↦ (s, err unknown_strategy)
                | some tasks ↦ queue_job clock (key ∷ keys) tasks s
              ]
      ]
