-- ===== src/Warming/Service/Settings.antt =====
-- `GetStatus`, `GetConfig` and `UpdateConfig` of warming/service.go. The limiter that `UpdateConfig` renews is that of
-- the environment.
use distributed_caching_syst.Prelude.{
  ℕ, ◌≡◌, refl, Bool, true, false, Option, none, some, List, ◌∷◌, if◌then◌else◌, length, arith, inl,
  inr, Bool-cases,
}
use distributed_caching_syst.Prelude.Int.{ℤ, pos}
use distributed_caching_syst.GoString.{Bytes, codes, bytes_eq}
use distributed_caching_syst.Warming.Service.{
  Config, Metrics, Environment, Service, unknown_strategy, Result, ok, err, panic, WarmKeyRequest,
  UpdateConfigRequest, is_empty, queue_tasks, queue_job, key_tasks, warm_key,
}

pub record StatusResponse : Type 0 where
  pub queued_tasks : ℕ
  pub emergency_stop : Bool
  pub metrics : Metrics

abbrev pub given_or : ℤ → Option ℤ → ℤ
given_or old none = old
given_or old (some new) = new

abbrev pub is_registered : Bytes → Bool
is_registered name =
    if bytes_eq name (codes "selective")
    then true
    else (if bytes_eq name (codes "breadth") then true else bytes_eq name (codes "priority"))

-- The three numbers, which are set before the strategy is looked up.
abbrev pub set_numbers : UpdateConfigRequest → Config → Config
set_numbers req c = record c {
  max_origin_rps = given_or c.max_origin_rps req.max_origin_rps;
  max_batch_size = given_or c.max_batch_size req.max_batch_size;
  concurrent_warmers = given_or c.concurrent_warmers req.concurrent_warmers;
}

module _ {S : Type 0} where
  unfoldable pub update_config : UpdateConfigRequest → Service S → Service S × Result Config
  update_config req s =
      let numbers = set_numbers req s.config in
      if is_empty req.default_strategy
      then (record s { config = numbers }, ok numbers)
      else if is_registered req.default_strategy
      then (
        record s { config = record numbers { default_strategy = req.default_strategy } },
        ok (record numbers { default_strategy = req.default_strategy }),
      )
      else (record s { config = numbers }, err unknown_strategy)

  unfoldable pub get_config : Service S → Config
  get_config s = s.config

  unfoldable pub set_origin_fetcher : Bool → Service S → Service S
  set_origin_fetcher given s = record s { origin_fetcher = given }

  unfoldable pub set_cache_client : Bool → Service S → Service S
  set_cache_client given s = record s { cache_client = given }

  -- The status without the rates, which are floats, and without what the workers are doing.
  unfoldable pub get_status : Service S → StatusResponse
  get_status s = record {
    queued_tasks = length s.task_queue;
    emergency_stop = s.emergency_stop;
    metrics = s.metrics;
  }

  -- `UpdateConfig` is not atomic: a request that it refuses for its strategy has its numbers stored all the same.
  pub update_config-refuses :
      (req : UpdateConfigRequest) (s : Service S)
      → is_empty req.default_strategy ≡ false
      → is_registered req.default_strategy ≡ false
      → ((update_config req s).1 ≡ err unknown_strategy)
        × ((update_config req s).0 ≡ record s { config = set_numbers req s.config })
  unfolding update_config
  update_config-refuses req s given unknown = (ground arith, ground arith)

module _ {S : Type 0} (env : Environment S) where
  -- After an `UpdateConfig` to no workers, and without an emergency stop, `WarmKey` with keys
  -- queues its tasks and then panics.
  pub warm_key-panics :
      (clock : ℕ → ℤ) (req : UpdateConfigRequest) (r : WarmKeyRequest) (key : Bytes)
      (keys : List Bytes) (s : Service S)
      → req.concurrent_warmers ≡ some (pos 0)
      → s.emergency_stop ≡ false
      → r.keys ≡ key ∷ keys
      → ((warm_key env clock r (update_config req s).0).1 ≡ panic)
        × ((warm_key env clock r (update_config req s).0).0.task_queue
            ≡ (queue_tasks (key_tasks env r (update_config req s).0 (key ∷ keys)) s.task_queue).0)
  unfolding warm_key queue_job update_config
  warm_key-panics clock req r key keys s none_left running named =
      rw named (elim (Bool-cases (is_empty req.default_strategy)) [
        | inl e ↦ rw e (rw running (rw none_left (refl, refl)))
        | inr e ↦ elim (Bool-cases (is_registered req.default_strategy)) [
          | inl k ↦ rw (e, k) (rw running (rw none_left (refl, refl)))
          | inr k ↦ rw (e, k) (rw running (rw none_left (refl, refl)))
        ]
      ])
