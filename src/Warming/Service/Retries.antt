-- ===== src/Warming/Service/Retries.antt =====
-- `retryTask` of warming/worker_pool.go against the attempts that fail before one succeeds.
use mathlib.Core.Path.{subst}
use distributed_caching_syst.Prelude.{
  ℕ, zero, suc, ◌+◌, ◌<◌, ◌==◌, ◌≡◌, refl, ap, ◌∙◌, false, Option, none, some, if◌then◌else◌, arith,
}
use distributed_caching_syst.Prelude.Int.{ℤ, pos_part}
use distributed_caching_syst.GoString.{codes}
use distributed_caching_syst.Warming.Tasks.{WarmTask}
use distributed_caching_syst.Warming.Service.{Environment, Service, Error}
use distributed_caching_syst.Warming.Service.Execution.{
  execute_warm_task, retry_loop, retry_task, completed,
}

module _ {S : Type 0} (env : Environment S) (clocks : ℕ → ℕ → ℤ) (task : WarmTask) where
  -- `Failures i k s s'`: from the i-th attempt on, k attempts in a row fail and lead from s to s'.
  pub data Failures : ℕ → ℕ → Service S → Service S → Type 0 where
    none_yet : {i : ℕ} {s : Service S} → Failures i 0 s s
    one_more :
        {i k : ℕ} {s s' s'' : Service S} {e : Error}
        → execute_warm_task env (clocks i) task s ≡ (s', some e)
        → Failures (suc i) k s' s''
        → Failures i (suc k) s s''

  -- What the loop does with the outcome of an attempt.
  unfoldable pub attempted : ℕ → ℕ → Service S × Option Error → Service S
  attempted left i (s', none) = s'
  attempted left i (s', some _) =
      if left == 0
      then record s' { outside = env.publish (completed task (codes "failure")) s'.outside }
      else retry_loop env left (suc i) clocks task s'

  pub loop-attempted :
      (left i : ℕ) (s : Service S) (outcome : Service S × Option Error)
      → execute_warm_task env (clocks i) task s ≡ outcome
      → retry_loop env (suc left) i clocks task s ≡ attempted left i outcome
  unfolding retry_loop attempted
  loop-attempted left i s outcome h = ap (attempted left i) h

  loop-again :
      (left i : ℕ) (s s' : Service S) (e : Error)
      → (left == 0) ≡ false
      → execute_warm_task env (clocks i) task s ≡ (s', some e)
      → retry_loop env (suc left) i clocks task s ≡ retry_loop env left (suc i) clocks task s'
  unfolding attempted
  loop-again left i s s' e more fails = loop-attempted left i s (s', some e) fails ∙ rw more refl

  loop-succeeds :
      (i k j left : ℕ) (s s' s'' : Service S)
      → k < left
      → j ≡ i + k
      → Failures i k s s'
      → execute_warm_task env (clocks j) task s' ≡ (s'', none)
      → retry_loop env left i clocks task s ≡ s''
  unfolding attempted
  loop-succeeds i k j zero s s' s'' fits e failures wins = absurd (omega arith)
  loop-succeeds i zero j (suc left) s _ s'' fits e none_yet wins =
      loop-attempted left i s (s'', none)
        (subst (λ j. execute_warm_task env (clocks j) task s ≡ (s'', none)) (omega arith) wins)
  loop-succeeds i (suc k) j (suc left) s s' s'' fits e (one_more fails rest) wins =
      loop-again left i s _ _ (ground arith) fails
      ∙ loop-succeeds (suc i) k j left _ s' s'' (omega arith) (omega arith) rest wins

  loop-gives_up :
      (i k : ℕ) {s s' : Service S}
      → Failures i (suc k) s s'
      → retry_loop env (suc k) i clocks task s
        ≡ record s' { outside = env.publish (completed task (codes "failure")) s'.outside }
  unfolding attempted
  loop-gives_up i zero (one_more fails none_yet) = loop-attempted 0 i _ _ fails
  loop-gives_up i (suc k) (one_more fails rest) =
      loop-again (suc k) i _ _ _ (ground arith) fails ∙ loop-gives_up (suc i) k rest

  -- The attempts end with the first that succeeds, if it is among those configured, and nothing is published but what
  -- that attempt publishes.
  pub retry_task-succeeds :
      (k : ℕ) (s s' s'' : Service S)
      → k < pos_part s.config.retry_attempts
      → Failures 1 k s s'
      → execute_warm_task env (clocks (suc k)) task s' ≡ (s'', none)
      → retry_task env clocks task s ≡ s''
  unfolding retry_task
  retry_task-succeeds k s s' s'' fits failures wins =
      loop-succeeds 1 k (suc k) (pos_part s.config.retry_attempts) s s' s'' fits (omega arith)
        failures wins

  -- Where at least one retry is configured and the configured number of attempts fail one after
  -- the other, `retryTask` makes just those and then publishes the failure once.
  pub retry_task-gives_up :
      (k : ℕ) (s s' : Service S)
      → suc k ≡ pos_part s.config.retry_attempts
      → Failures 1 (suc k) s s'
      → retry_task env clocks task s
        ≡ record s' { outside = env.publish (completed task (codes "failure")) s'.outside }
  unfolding retry_task
  retry_task-gives_up k s s' all failures = rw⁻¹ all (loop-gives_up 1 k failures)
