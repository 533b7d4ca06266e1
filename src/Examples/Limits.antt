-- ===== src/Examples/Limits.antt =====
-- The token bucket on concrete inputs: ten tokens a second, counted in tenths of a second.
use distributed_caching_syst.Prelude.{ℕ, ◌+◌, ◌*◌, ◌/◌, ◌≤◌, ◌≡◌, refl, List, [], ◌∷◌, arith}
use distributed_caching_syst.Prelude.Int.{ℤ, pos, pos_part, ◌+ℤ◌, ◌-ℤ◌, ◌≤ℤ◌}
use distributed_caching_syst.Middleware.RateLimit.{Bucket, full_bucket, refilled, try_consume}
use distributed_caching_syst.Middleware.RateLimit.Budget.{
  InRange, attempts, duration, attempts_budget,
}
use distributed_caching_syst.Middleware.RateLimit.Progress.{Returns, IsAlone, wants-Finishes}
use distributed_caching_syst.Middleware.RateLimit.Interleaving.{
  wants, Machine, Reach, Step, IsSafe, Reach-IsSafe, start, paid_twice,
}

-- One token for every ten ticks.
abbrev one_in_ten : ℤ → ℤ
one_in_ten e = pos (pos_part e / 10)

one_in_ten-rate : (e : ℕ) → pos_part (one_in_ten (pos e)) * 10 ≤ 1 * e
one_in_ten-rate e = omega arith

abbrev two_left : Bucket
two_left = record { tokens = pos 2; last_refill = pos 100; max_tokens = pos 5 }

two_left-InRange : InRange two_left
two_left-InRange = record { not_negative = omega arith; within = omega arith }

-- A burst of three, a refusal and, after twenty ticks, two more.
abbrev burst : List (ℕ × ℕ)
burst = (0, 3) ∷ (1, 3) ∷ (20, 2) ∷ []

burst_used : (attempts one_in_ten 100 burst (full_bucket (pos 5) (pos 100))).1 ≡ 5
unfolding attempts try_consume refilled ◌+ℤ◌ ◌-ℤ◌
burst_used = refl

attempts_budget_example :
    (attempts one_in_ten 100 burst (full_bucket (pos 5) (pos 100))).1 * 10
    ≤ 5 * 10 + 1 * duration burst
attempts_budget_example = attempts_budget one_in_ten 1 10 one_in_ten-rate burst 100 5

paid_twice_example :
    (s : Machine) × Reach one_in_ten
      (start one_in_ten (record { tokens = pos 0; last_refill = pos 0; max_tokens = pos 5 }))
      s
    × (s.handed ≡ pos 3 +ℤ pos 3)
unfolding ◌-ℤ◌ ◌+ℤ◌
paid_twice_example = paid_twice one_in_ten (pos 30) (pos 0) 3 5 refl (omega arith)

start-IsSafe : IsSafe one_in_ten (start one_in_ten two_left)
start-IsSafe = record { range = two_left-InRange; wanted = λ i. tt }

enough_left : pos 2 ≤ℤ refilled one_in_ten (pos 130) (pos 2) (pos 100) (pos 5)
unfolding refilled ◌-ℤ◌ ◌+ℤ◌
enough_left = omega arith

-- One call that takes two tokens and stores the time.
abbrev one_call : (s : Machine) × Reach one_in_ten (start one_in_ten two_left) s
one_call = (
  _,
  Reach.next
      (Reach.next
        (Reach.next
          (Reach.next (Reach.next Reach.here (Step.call _ 0 (pos 130) (pos 2) refl (omega arith)))
            (Step.load_tokens _ 0 (pos 130) (pos 2) refl))
          (Step.load_refill _ 0 (pos 130) (pos 2) (pos 2) refl))
        (Step.swap _ 0 (pos 130) (pos 2) (pos 2) (pos 100) refl enough_left refl))
      (Step.store _ 0 (pos 130) refl),
)

Reach-IsSafe_example : IsSafe one_in_ten one_call.0
Reach-IsSafe_example = Reach-IsSafe one_in_ten start-IsSafe one_call.1

abbrev waiting : Machine
waiting = record { bucket = two_left; handed = pos 0; threads = λ i. wants (pos 130) (pos 2) }

wants-Finishes_example :
    Returns one_in_ten 3 (IsAlone one_in_ten two_left (pos 0) 3 (pos 130) (pos 2)) waiting
wants-Finishes_example = wants-Finishes one_in_ten waiting 3 (pos 130) (pos 2) refl
