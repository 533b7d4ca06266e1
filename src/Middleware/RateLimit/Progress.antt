-- ===== src/Middleware/RateLimit/Progress.antt =====
-- The steps of `tryConsume` of pkg/middleware/ratelimit.go when the others hold still.
use mathlib.Core.Path.{subst}
use distributed_caching_syst.Prelude.{
  ◌≢◌, ◌⊎◌, ℕ, ◌≡◌, refl, sym, true, false, if◌then◌else◌, arith, inl, inr, Bool-cases,
}
use distributed_caching_syst.Prelude.Int.{ℤ, ◌+ℤ◌, ◌-ℤ◌, ◌≤ℤ◌, ◌<ℤ◌, ltb_ℤ}
use distributed_caching_syst.Middleware.RateLimit.{Bucket, refilled, try_consume}
use distributed_caching_syst.Middleware.RateLimit.Interleaving.{
  Phase, idle, wants, loaded_tokens, loaded, swapped, returned, Machine, goto, Step, call,
  load_tokens, load_refill, refuse, swap, swap_fails, store, leave, actor,
}

goto_here : (i : ℕ) (p : Phase) (threads : ℕ → Phase) → goto i p threads i ≡ p
goto_here i p threads = ground arith

module _ (accrue : ℤ → ℤ) where
  -- A step of the goroutine.
  abbrev pub Own : ℕ → Machine → Machine → Type 0
  Own i s t = (step : Step accrue s t) × (actor accrue step ≡ i)

  -- With the steps of the goroutine alone, whichever it takes, it cannot but return after finitely many, in a state with
  -- the property.
  pub data Returns (i : ℕ) (Ends : Machine → Type 0) : Machine → Type 0 where
    done : (s : Machine) → Ends s → Returns i Ends s
    going :
        (s t : Machine)
        → Own i s t
        → ((u : Machine) → Own i s u → Returns i Ends u)
        → Returns i Ends s

  -- The answer, the bucket and the tokens handed out are those of the call that runs alone.
  pub record IsAlone (b : Bucket) (handed : ℤ) (i : ℕ) (now n : ℤ) (after : Machine) : Type 0 where
    pub answer : after.threads i ≡ returned (try_consume accrue now n b).1
    pub same_bucket : after.bucket ≡ (try_consume accrue now n b).0
    pub handed_out : after.handed ≡ (if (try_consume accrue now n b).1 then handed +ℤ n else handed)

  -- What a step of the goroutine makes of the machine, by where it stands. From rest it may take up any call.
  abbrev Next : ℕ → Machine → Phase → Machine → Type 0
  Next i s idle u = Unit
  Next i s (wants now n) u =
      u ≡ record s { threads = goto i (loaded_tokens now n s.bucket.tokens) s.threads }
  Next i s (loaded_tokens now n t) u =
      u ≡ record s { threads = goto i (loaded now n t s.bucket.last_refill) s.threads }
  Next i s (loaded now n t l) u =
      (refilled accrue now t l s.bucket.max_tokens <ℤ n)
        × (u ≡ record s { threads = goto i (returned false) s.threads })
      ⊎ (n ≤ℤ refilled accrue now t l s.bucket.max_tokens)
        × (u ≡ record s {
          bucket = record (s.bucket) { tokens = refilled accrue now t l s.bucket.max_tokens -ℤ n };
          handed = s.handed +ℤ n;
          threads = goto i (swapped now) s.threads;
        })
      ⊎ (s.bucket.tokens ≢ t)
  Next i s (swapped now) u = u ≡ record s {
    bucket = record (s.bucket) { last_refill = now };
    threads = goto i (returned true) s.threads;
  }
  Next i s (returned answer) u = Unit

  Step-Next :
      {s u : Machine} (step : Step accrue s u)
      → Next (actor accrue step) s (s.threads (actor accrue step)) u
  unfolding actor
  Step-Next (call s i now n at h) = rw at tt
  Step-Next (load_tokens s i now n at) = rw at refl
  Step-Next (load_refill s i now n t at) = rw at refl
  Step-Next (refuse s i now n t l at h) = rw at (inl (h, refl))
  Step-Next (swap s i now n t l at h e) = rw at (inr (inl (h, refl)))
  Step-Next (swap_fails s i now n t l at h e) = rw at (inr (inr e))
  Step-Next (store s i now at) = rw at refl
  Step-Next (leave s i answer at) = rw at tt

  Own-Next : {i : ℕ} {s u : Machine} (p : Phase) → s.threads i ≡ p → Own i s u → Next i s p u
  Own-Next {i} {s} {u} p at (step, who) =
      subst (λ q. Next i s q u) at (subst (λ j. Next j s (s.threads j) u) who (Step-Next step))

  -- The four stages, from the last to the first. The goroutine has loaded what the bucket still holds.
  swapped-Returns :
      (i : ℕ) (now : ℤ) (Ends : Machine → Type 0) (s : Machine)
      → s.threads i ≡ swapped now
      → Ends (record s {
        bucket = record (s.bucket) { last_refill = now };
        threads = goto i (returned true) s.threads;
      })
      → Returns i Ends s
  unfolding actor
  swapped-Returns i now Ends s at ends =
      going s _ (store s i now at, refl)
        (λ u own. done u (subst Ends (sym (Own-Next (swapped now) at own)) ends))

  loaded-Returns :
      (i : ℕ) (now n : ℤ) (s : Machine)
      → s.threads i ≡ loaded now n s.bucket.tokens s.bucket.last_refill
      → Returns i (IsAlone s.bucket s.handed i now n) s
  unfolding actor
  loaded-Returns i now n s at =
      let b = s.bucket in
      let left = refilled accrue now b.tokens b.last_refill b.max_tokens in
      let p = loaded now n b.tokens b.last_refill in
      elim (Bool-cases (ltb_ℤ left n)) [
        | inl short ↦
            going s _ (refuse s i now n b.tokens b.last_refill at (ground (arith, short)), refl)
              (λ u own. elim (Own-Next p at own) [
                | inl (_, e) ↦ done u (subst (IsAlone b s.handed i now n) (sym e) (refused short))
                | inr (inl (enough, _)) ↦ absurd (ground (arith, short, enough))
                | inr (inr other) ↦ absurd (other refl)
              ])
        | inr enough ↦
            going s _ (swap s i now n b.tokens b.last_refill at (ground (arith, enough)) refl, refl)
              (λ u own. elim (Own-Next p at own) [
                | inl (short, _) ↦ absurd (ground (arith, short, enough))
                | inr (inl (_, e)) ↦ subst (Returns i (IsAlone b s.handed i now n)) (sym e) (
                    swapped-Returns i now _ _ (goto_here i (swapped now) s.threads)
                      (granted enough))
                | inr (inr other) ↦ absurd (other refl)
              ])
      ]
    where
      refused :
          ltb_ℤ (refilled accrue now s.bucket.tokens s.bucket.last_refill s.bucket.max_tokens) n
            ≡ true
          → IsAlone s.bucket s.handed i now n
              (record s { threads = goto i (returned false) s.threads })
      refused short =
          unfold try_consume in
          record {
            answer = rw short (goto_here i (returned false) s.threads);
            same_bucket = rw short refl;
            handed_out = rw short refl;
          }

      granted :
          ltb_ℤ (refilled accrue now s.bucket.tokens s.bucket.last_refill s.bucket.max_tokens) n
            ≡ false
          → IsAlone s.bucket s.handed i now n (record s {
            bucket = record (s.bucket) {
              tokens =
                  refilled accrue now s.bucket.tokens s.bucket.last_refill s.bucket.max_tokens -ℤ n;
              last_refill = now;
            };
            handed = s.handed +ℤ n;
            threads = goto i (returned true) (goto i (swapped now) s.threads);
          })
      granted enough =
          unfold try_consume in
          record {
            answer = rw enough (goto_here i (returned true) (goto i (swapped now) s.threads));
            same_bucket = rw enough refl;
            handed_out = rw enough refl;
          }

  -- From any state in which a goroutine is about to run `tryConsume`, with the steps of this
  -- goroutine alone, whichever it takes, it never sticks and returns after finitely many, and
  -- answer, bucket and tokens handed out are those of the call that runs alone.
  pub wants-Finishes :
      (s : Machine) (i : ℕ) (now n : ℤ)
      → s.threads i ≡ wants now n
      → Returns i (IsAlone s.bucket s.handed i now n) s
  unfolding actor
  wants-Finishes s i now n wanted =
      let first : Machine = record s {
        threads = goto i (loaded_tokens now n s.bucket.tokens) s.threads;
      } in
      let second : Machine = record s {
        threads = goto i (loaded now n s.bucket.tokens s.bucket.last_refill) first.threads;
      } in
      let here = goto_here i (loaded_tokens now n s.bucket.tokens) s.threads in
      going s first (load_tokens s i now n wanted, refl)
        (λ u own.
          subst (Returns i (IsAlone s.bucket s.handed i now n))
            (sym (Own-Next (wants now n) wanted own))
            (going first second (load_refill first i now n s.bucket.tokens here, refl)
              (λ v own'.
                subst (Returns i (IsAlone s.bucket s.handed i now n))
                  (sym (Own-Next (loaded_tokens now n s.bucket.tokens) here own'))
                  (loaded-Returns i now n second (
                    goto_here i (loaded now n s.bucket.tokens s.bucket.last_refill)
                      first.threads)))))
