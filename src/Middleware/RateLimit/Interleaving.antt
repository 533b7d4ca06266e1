-- ===== src/Middleware/RateLimit/Interleaving.antt =====
-- `tryConsume` of pkg/middleware/ratelimit.go with its atomic steps taken apart: the two loads, the
-- compare-and-swap of the tokens and the store of the refill time, each interleaved with the steps
-- of any number of other goroutines on the same bucket.
use distributed_caching_syst.Prelude.{
  ℕ, ◌≤◌, ◌≡◌, ◌≢◌, refl, Bool, true, false, if◌then◌else◌, if_cases, ◌==◌, arith,
}
use distributed_caching_syst.Prelude.Int.{ℤ, pos, ◌+ℤ◌, ◌-ℤ◌, ◌≤ℤ◌, ◌<ℤ◌, int_laws}
use distributed_caching_syst.Middleware.RateLimit.{Bucket, refilled}
use distributed_caching_syst.Middleware.RateLimit.Budget.{InRange, refilled_bounds}

-- Where a goroutine stands, with the clock that it read and the values that it loaded; `returned` has the answer.
pub data Phase : Type 0 where
  idle : Phase
  wants : ℤ → ℤ → Phase
  loaded_tokens : ℤ → ℤ → ℤ → Phase
  loaded : ℤ → ℤ → ℤ → ℤ → Phase
  swapped : ℤ → Phase
  returned : Bool → Phase

-- `handed` adds up the tokens of the calls that have swapped.
pub record Machine : Type 0 where
  pub bucket : Bucket
  pub handed : ℤ
  pub threads : ℕ → Phase

abbrev pub goto : ℕ → Phase → (ℕ → Phase) → ℕ → Phase
goto i p threads j = if i == j then p else threads j

module _ (accrue : ℤ → ℤ) where
  pub data Step : Machine → Machine → Type 0 where
    call :
        (s : Machine) (i : ℕ) (now n : ℤ)
        → s.threads i ≡ idle
        → pos 0 ≤ℤ n
        → Step s (record s { threads = goto i (wants now n) s.threads })
    load_tokens :
        (s : Machine) (i : ℕ) (now n : ℤ)
        → s.threads i ≡ wants now n
        → Step s (record s { threads = goto i (loaded_tokens now n s.bucket.tokens) s.threads })
    load_refill :
        (s : Machine) (i : ℕ) (now n t : ℤ)
        → s.threads i ≡ loaded_tokens now n t
        → Step s (record s { threads = goto i (loaded now n t s.bucket.last_refill) s.threads })
    refuse :
        (s : Machine) (i : ℕ) (now n t l : ℤ)
        → s.threads i ≡ loaded now n t l
        → refilled accrue now t l s.bucket.max_tokens <ℤ n
        → Step s (record s { threads = goto i (returned false) s.threads })
    swap :
        (s : Machine) (i : ℕ) (now n t l : ℤ)
        → s.threads i ≡ loaded now n t l
        → n ≤ℤ refilled accrue now t l s.bucket.max_tokens
        → s.bucket.tokens ≡ t
        → Step s (record s {
          bucket = record (s.bucket) { tokens = refilled accrue now t l s.bucket.max_tokens -ℤ n };
          handed = s.handed +ℤ n;
          threads = goto i (swapped now) s.threads;
        })
    swap_fails :
        (s : Machine) (i : ℕ) (now n t l : ℤ)
        → s.threads i ≡ loaded now n t l
        → n ≤ℤ refilled accrue now t l s.bucket.max_tokens
        → s.bucket.tokens ≢ t
        → Step s (record s { threads = goto i (wants now n) s.threads })
    store :
        (s : Machine) (i : ℕ) (now : ℤ)
        → s.threads i ≡ swapped now
        → Step s (record s {
          bucket = record (s.bucket) { last_refill = now };
          threads = goto i (returned true) s.threads;
        })
    leave :
        (s : Machine) (i : ℕ) (answer : Bool)
        → s.threads i ≡ returned answer
        → Step s (record s { threads = goto i idle s.threads })

  -- The goroutine that takes the step.
  unfoldable pub actor : {s t : Machine} → Step s t → ℕ
  actor (call s i now n at h) = i
  actor (load_tokens s i now n at) = i
  actor (load_refill s i now n t at) = i
  actor (refuse s i now n t l at h) = i
  actor (swap s i now n t l at h e) = i
  actor (swap_fails s i now n t l at h e) = i
  actor (store s i now at) = i
  actor (leave s i answer at) = i

  pub data Reach (s : Machine) : Machine → Type 0 where
    here : Reach s s
    next : {t u : Machine} → Reach s t → Step t u → Reach s u

  -- What a goroutine wants is never negative.
  abbrev Wanted : Phase → Type 0
  Wanted idle = Unit
  Wanted (wants now n) = pos 0 ≤ℤ n
  Wanted (loaded_tokens now n t) = pos 0 ≤ℤ n
  Wanted (loaded now n t l) = pos 0 ≤ℤ n
  Wanted (swapped now) = Unit
  Wanted (returned answer) = Unit

  pub record IsSafe (s : Machine) : Type 0 where
    pub range : InRange s.bucket
    pub wanted : (i : ℕ) → Wanted (s.threads i)

  goto-Wanted :
      (i j : ℕ) (p : Phase) (threads : ℕ → Phase)
      → Wanted p
      → ((j : ℕ) → Wanted (threads j))
      → Wanted (goto i p threads j)
  goto-Wanted i j p threads h all = if_cases Wanted (i == j) p (threads j) (λ _. h) (λ _. all j)

  Step-IsSafe : {s t : Machine} → Step s t → IsSafe s → IsSafe t
  Step-IsSafe (call s i now n at h) safe = record {
    range = safe.range;
    wanted = λ j. goto-Wanted i j _ s.threads h safe.wanted;
  }
  Step-IsSafe (load_tokens s i now n at) safe = record {
    range = safe.range;
    wanted = λ j. goto-Wanted i j _ s.threads (rw at at (safe.wanted i)) safe.wanted;
  }
  Step-IsSafe (load_refill s i now n t at) safe = record {
    range = safe.range;
    wanted = λ j. goto-Wanted i j _ s.threads (rw at at (safe.wanted i)) safe.wanted;
  }
  Step-IsSafe (refuse s i now n t l at short) safe = record {
    range = safe.range;
    wanted = λ j. goto-Wanted i j _ s.threads tt safe.wanted;
  }
  Step-IsSafe (swap s i now n t l at enough same) safe =
      let positive : pos 0 ≤ℤ n = rw at at (safe.wanted i) in
      let (below, _) = refilled_bounds accrue now t l s.bucket.max_tokens in
      record {
        range = record { not_negative = omega int_laws; within = omega int_laws };
        wanted = λ j. goto-Wanted i j _ s.threads tt safe.wanted;
      }
  Step-IsSafe (swap_fails s i now n t l at enough other) safe = record {
    range = safe.range;
    wanted = λ j. goto-Wanted i j _ s.threads (rw at at (safe.wanted i)) safe.wanted;
  }
  Step-IsSafe (store s i now at) safe = record {
    range = record { not_negative = safe.range.not_negative; within = safe.range.within };
    wanted = λ j. goto-Wanted i j _ s.threads tt safe.wanted;
  }
  Step-IsSafe (leave s i answer at) safe = record {
    range = safe.range;
    wanted = λ j. goto-Wanted i j _ s.threads tt safe.wanted;
  }

  -- However the steps of the goroutines interleave, a machine whose tokens lie between none and
  -- the maximum, and whose calls want no negative number, stays one.
  pub Reach-IsSafe : {s t : Machine} → IsSafe s → Reach s t → IsSafe t
  Reach-IsSafe safe here = safe
  Reach-IsSafe safe (next r step) = Step-IsSafe step (Reach-IsSafe safe r)

  abbrev pub start : Bucket → Machine
  start b = record { bucket = b; handed = pos 0; threads = λ _. idle }

  refilled_zero :
      (now l : ℤ) (k m : ℕ)
      → accrue (now -ℤ l) ≡ pos k
      → k ≤ m
      → refilled accrue now (pos 0) l (pos m) ≡ pos k
  unfolding refilled ◌+ℤ◌
  refilled_zero now l k m e h = rw e (ground arith)

  -- One stretch of time can be paid out twice: where `k` tokens have accrued since the last
  -- refill, at most the maximum, an empty bucket can reach a state in which `k + k` are handed
  -- out, by two calls that read the same instant.
  pub paid_twice :
      (now l : ℤ) (k m : ℕ)
      → accrue (now -ℤ l) ≡ pos k
      → k ≤ m
      → (s : Machine) × Reach
          (start (record { tokens = pos 0; last_refill = l; max_tokens = pos m }))
          s
        × (s.handed ≡ pos k +ℤ pos k)
  paid_twice now l k m e h = (
    _,
    next
        (next
          (next
            (next
              (next
                (next
                  (next (next here (call _ 0 now (pos k) refl (omega arith)))
                    (load_tokens _ 0 now (pos k) refl))
                  (load_refill _ 0 now (pos k) (pos 0) refl))
                (swap _ 0 now (pos k) (pos 0) l refl (rw full (omega arith)) refl))
              (call _ 1 now (pos k) refl (omega arith)))
            (load_tokens _ 1 now (pos k) refl))
          (load_refill _ 1 now (pos k) left refl))
        (swap _ 1 now (pos k) left l refl (rw (empty, full) (omega arith)) refl),
    unfold ◌+ℤ◌ in ground arith,
  )
    where
      full : refilled accrue now (pos 0) l (pos m) ≡ pos k
      full = refilled_zero now l k m e h

      left : ℤ
      left = refilled accrue now (pos 0) l (pos m) -ℤ pos k

      empty : left ≡ pos 0
      empty = rw full (unfold ◌-ℤ◌ in ground arith)
