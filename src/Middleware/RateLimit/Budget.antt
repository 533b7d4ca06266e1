-- ===== src/Middleware/RateLimit/Budget.antt =====
-- Calls and sequences of calls of `tryConsume` of pkg/middleware/ratelimit.go.
use native.Mathlib.Nat.{mul-le-mul_right}
use distributed_caching_syst.Prelude.{
  ℕ, ◌+◌, ◌-◌, ◌*◌, ◌≤◌, ◌≡◌, ◌↔◌, ◌⊎◌, refl, true, false, List, [], ◌∷◌, if◌then◌else◌, arith, inl,
  inr, Bool-cases,
}
use distributed_caching_syst.Prelude.Int.{
  ℤ, pos, pos_part, ◌+ℤ◌, ◌-ℤ◌, ◌≤ℤ◌, ltb_ℤ, ◌<ℤ◌, int_laws, neg_part-eq-zero, sub_pos,
}
use distributed_caching_syst.Middleware.RateLimit.{Bucket, refilled, try_consume, full_bucket}

-- The tokens lie between none and the maximum.
pub record InRange (b : Bucket) : Type 0 where
  pub not_negative : pos 0 ≤ℤ b.tokens
  pub within : b.tokens ≤ℤ b.max_tokens

module _ (accrue : ℤ → ℤ) where
  pub refilled_bounds :
      (now t l m : ℤ)
      → (refilled accrue now t l m ≤ℤ m) × (refilled accrue now t l m ≤ℤ t +ℤ accrue (now -ℤ l))
  unfolding refilled
  refilled_bounds now t l m = ground arith

  -- How a call ends: with the tokens taken, or with the bucket as it was.
  consume_outcomes :
      (now n : ℤ) (b : Bucket)
      → ((n ≤ℤ refilled accrue now b.tokens b.last_refill b.max_tokens)
          × (try_consume accrue now n b ≡ (
            record b {
              tokens = refilled accrue now b.tokens b.last_refill b.max_tokens -ℤ n;
              last_refill = now;
            },
            true,
          )))
        ⊎ ((refilled accrue now b.tokens b.last_refill b.max_tokens <ℤ n)
            × (try_consume accrue now n b ≡ (b, false)))
  unfolding try_consume
  consume_outcomes now n b =
      elim (Bool-cases (ltb_ℤ (refilled accrue now b.tokens b.last_refill b.max_tokens) n)) [
        | inl short ↦ inr (ground arith, ground arith)
        | inr enough ↦ inl (ground arith, ground arith)
      ]

  -- A call for a number of tokens that is not negative keeps the tokens of a bucket between none
  -- and the maximum, whatever the clock and the rate do.
  pub try_consume-InRange :
      (now n : ℤ) {b : Bucket} → pos 0 ≤ℤ n → InRange b → InRange (try_consume accrue now n b).0
  try_consume-InRange now n {b} h r = elim (consume_outcomes now n b) [
    | inl (enough, e) ↦
        let (below, _) = refilled_bounds now b.tokens b.last_refill b.max_tokens in
        rw e (record { not_negative = omega int_laws; within = omega int_laws })
    | inr (short, e) ↦ rw e r
  ]

  -- A call is refused exactly when the refilled tokens do not suffice, and it then leaves the bucket as it is,
  -- the time of its last refill included.
  pub try_consume-refuses :
      (now n : ℤ) (b : Bucket)
      → ((try_consume accrue now n b).1 ≡ false
          ↔ refilled accrue now b.tokens b.last_refill b.max_tokens <ℤ n)
        × ((try_consume accrue now n b).1 ≡ false → (try_consume accrue now n b).0 ≡ b)
  try_consume-refuses now n b = elim (consume_outcomes now n b) [
    | inl (enough, e) ↦ rw e (
      (λ bad. absurd (ground arith), λ short. absurd (omega arith)),
      λ bad. absurd (ground arith),
    )
    | inr (short, e) ↦ rw e ((λ _. short, λ _. refl), λ _. refl)
  ]

  -- What a call takes was in the bucket or has accrued since the last refill.
  spent :
      (now n : ℤ) (b : Bucket)
      → InRange b
      → pos 0 ≤ℤ n
      → (try_consume accrue now n b).1 ≡ true
      → (pos_part (try_consume accrue now n b).0.tokens + pos_part n
          ≤ pos_part b.tokens + pos_part (accrue (now -ℤ b.last_refill)))
        × ((try_consume accrue now n b).0.last_refill ≡ now)
  spent now n b r h done = elim (consume_outcomes now n b) [
    | inl (enough, e) ↦
        let (_, gain) = refilled_bounds now b.tokens b.last_refill b.max_tokens in
        let left = try_consume-InRange now n h r in
        rw e (
          omega (
            int_laws,
            neg_part-eq-zero n h,
            neg_part-eq-zero b.tokens r.not_negative,
            neg_part-eq-zero _ (rw e at left).not_negative,
          ),
          refl,
        )
    | inr (short, e) ↦ absurd (ground arith)
  ]

  -- Attempts in the order of time: the nanoseconds since the one before, and the tokens that are wanted. The
  -- result is the bucket and the tokens that were handed out.
  unfoldable pub attempts : ℕ → List (ℕ × ℕ) → Bucket → Bucket × ℕ
  attempts now [] b = (b, 0)
  attempts now ((gap, n) ∷ rest) b =
      let (b', done) = try_consume accrue (pos (now + gap)) (pos n) b in
      let (b'', used) = attempts (now + gap) rest b' in (b'', if done then n + used else used)

abbrev pub duration : List (ℕ × ℕ) → ℕ
duration [] = 0
duration ((gap, n) ∷ rest) = gap + duration rest

-- `accrue` gives at most `num` tokens in every `den` nanoseconds.
module _ (accrue : ℤ → ℤ) (num den : ℕ)
    (rate : (e : ℕ) → pos_part (accrue (pos e)) * den ≤ num * e) where
  step_budget :
      (now n l : ℕ) (b : Bucket)
      → InRange b
      → b.last_refill ≡ pos l
      → l ≤ now
      → (try_consume accrue (pos now) (pos n) b).1 ≡ true
      → n * den + pos_part (try_consume accrue (pos now) (pos n) b).0.tokens * den
        ≤ pos_part b.tokens * den + num * (now - l)
  step_budget now n l b r last order done =
      let (taken, _) = spent accrue (pos now) (pos n) b r (omega arith) done in
      scaled _ _ (pos now -ℤ b.last_refill) (now - l) taken (rw last (sub_pos now l order))
    where
      scaled :
          (t t' : ℕ) (x : ℤ) (e : ℕ)
          → t' + n ≤ t + pos_part (accrue x)
          → x ≡ pos e
          → n * den + t' * den ≤ t * den + num * e
      scaled t t' x e h q = rate_at t t' e (rw (← q) h)
        where
          rate_at :
              (t t' e : ℕ)
              → t' + n ≤ t + pos_part (accrue (pos e))
              → n * den + t' * den ≤ t * den + num * e
          rate_at t t' e h = omega (arith, rate e, mul-le-mul_right den h)

  attempts_from :
      (steps : List (ℕ × ℕ)) (now l : ℕ) (b : Bucket)
      → InRange b
      → b.last_refill ≡ pos l
      → l ≤ now
      → (attempts accrue now steps b).1 * den
        ≤ pos_part b.tokens * den + num * (now + duration steps - l)
  unfolding attempts
  attempts_from [] now l b r last order = omega arith
  attempts_from ((gap, n) ∷ rest) now l b r last order =
      elim (Bool-cases (try_consume accrue (pos (now + gap)) (pos n) b).1) [
        | inl done ↦
            let b' = (try_consume accrue (pos (now + gap)) (pos n) b).0 in
            let (_, last') = spent accrue (pos (now + gap)) (pos n) b r (omega arith) done in
            let now_budget = step_budget (now + gap) n l b r last (omega arith) done in
            let later =
              attempts_from rest (now + gap) (now + gap) b'
                (try_consume-InRange accrue (pos (now + gap)) (pos n) (omega arith) r) last'
                (omega arith) in
            rw done (
              joined _ _ _ (now + gap - l) (duration rest) _ now_budget (rw cancel at later)
                (omega arith))
        | inr refused ↦
            let same = (try_consume-refuses accrue (pos (now + gap)) (pos n) b).1 refused in
            rw (refused, same)
              (rw (← regroup) (attempts_from rest (now + gap) l b r last (omega arith)))
      ]
    where
      cancel : now + gap + duration rest - (now + gap) ≡ duration rest
      cancel = omega arith

      regroup : now + gap + duration rest - l ≡ now + (gap + duration rest) - l
      regroup = omega arith

      joined :
          (used t t' e d total : ℕ)
          → n * den + t' * den ≤ t * den + num * e
          → used * den ≤ t' * den + num * d
          → total ≡ e + d
          → (n + used) * den ≤ t * den + num * total
      joined used t t' e d total h h' q = rw q (omega arith)

  -- The rate limit: where the rate gives at most `num` tokens in `den` nanoseconds and time does
  -- not run back, the tokens that a full bucket hands out over any attempts are at most its size
  -- and what the rate gives in the time they took.
  pub attempts_budget :
      (steps : List (ℕ × ℕ)) (now size : ℕ)
      → (attempts accrue now steps (full_bucket (pos size) (pos now))).1 * den
        ≤ size * den + num * duration steps
  attempts_budget steps now size = rw elapsed at (
      attempts_from steps now now (full_bucket (pos size) (pos now))
        (record { not_negative = omega arith; within = omega arith }) refl (omega arith))
    where
      elapsed : now + duration steps - now ≡ duration steps
      elapsed = omega arith
