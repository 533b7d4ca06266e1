-- ===== src/Warming/Tasks/Plans.antt =====
-- What the strategies of warming/strategies.go plan.
use mathlib.Core.List.{Perm}
use distributed_caching_syst.Prelude.{
  nat_eq, ℕ, zero, suc, ◌-◌, ◌≤◌, ◌≡◌, ◌⊎◌, refl, ap, ◌∙◌, Bool, true, false, some, List, [], ◌∷◌,
  if◌then◌else◌, length, length-take, take, map, All, All-map, ltb, arith, inl, inr, Bool-cases,
}
use distributed_caching_syst.Prelude.Int.{ℤ, pos, pos_part, ◌≤ℤ◌, ltb_ℤ}
use distributed_caching_syst.Prelude.SortBy.{
  sort_by, sort_by-perm, sort_by-InOrder, sort_by-All, sort_by-length, InOrder,
}
use distributed_caching_syst.GoString.{Bytes}
use distributed_caching_syst.Warming.Tasks.{
  PlanOptions, WarmTask, key_depth, limit_of, selective_loop, selective_plan, selective_cap,
  bytes_ltb, shallower, breadth_loop, breadth_plan, more_urgent, priority_loop, priority_plan, plan,
}

-- Every item is followed by keys that are as deep or deeper.
abbrev pub Deepening : List Bytes → Type 0
Deepening [] = Unit
Deepening (key ∷ keys) = All (λ other. key_depth key ≤ key_depth other) keys × Deepening keys

bytes_ltb-asym : (a b : Bytes) → bytes_ltb a b ≡ true → bytes_ltb b a ≡ false
unfolding bytes_ltb
bytes_ltb-asym [] [] h = refl
bytes_ltb-asym [] (_ ∷ _) h = refl
bytes_ltb-asym (_ ∷ _) [] h = absurd (ground arith)
bytes_ltb-asym (x ∷ a) (y ∷ b) h = ground (arith, bytes_ltb-asym a b)

shallower-asym : (a b : Bytes) → shallower a b ≡ true → shallower b a ≡ false
unfolding shallower
shallower-asym a b h = ground (arith, bytes_ltb-asym a b)

InOrder-Deepening : (keys : List Bytes) → InOrder shallower keys → Deepening keys
InOrder-Deepening [] h = tt
InOrder-Deepening (key ∷ []) h = (tt, tt)
InOrder-Deepening (key ∷ next ∷ keys) h =
    let rest = InOrder-Deepening (next ∷ keys) h.1 in
    let step = deeper h.0 in ((step, All-map keys (λ other le. omega (arith, step)) rest.0), rest)
  where
    deeper : shallower next key ≡ false → key_depth key ≤ key_depth next
    deeper e = unfold shallower in ground arith

All-take {ℓ κ} :
    {A : Type ℓ} (P : A → Type κ) (n : ℕ) (keys : List A) → All P keys → All P (take n keys)
All-take P zero keys h = tt
All-take P (suc n) [] h = tt
All-take P (suc n) (key ∷ keys) h = (h.0, All-take P n keys h.1)

take-Deepening : (n : ℕ) (keys : List Bytes) → Deepening keys → Deepening (take n keys)
take-Deepening zero keys h = tt
take-Deepening (suc n) [] h = tt
take-Deepening (suc n) (key ∷ keys) h = (All-take _ n keys h.0, take-Deepening n keys h.1)

breadth_loop-keys :
    (given : ℤ) (keys : List Bytes) → map (λ t. t.key) (breadth_loop given keys) ≡ keys
unfolding breadth_loop
breadth_loop-keys given [] = refl
breadth_loop-keys given (key ∷ keys) = ap (◌∷◌ key) (breadth_loop-keys given keys)

-- The breadth-first strategy plans the first keys of an ordering of the keys that it was given, up to the limit, and no
-- planned key is followed by one that is less deep.
pub breadth_plan-Deepening :
    (opts : PlanOptions)
    → (sorted : List Bytes) × Perm sorted opts.keys
      × (map (λ t. t.key) (breadth_plan opts)
          ≡ take (limit_of opts.limit (length opts.keys)) sorted)
      × Deepening (map (λ t. t.key) (breadth_plan opts))
breadth_plan-Deepening opts =
    let keys : map (λ t. t.key) (breadth_plan opts)
        ≡ take (limit_of opts.limit (length opts.keys)) (sort_by shallower opts.keys) =
      unfold breadth_plan in
      breadth_loop-keys opts.priority
        (take (limit_of opts.limit (length opts.keys)) (sort_by shallower opts.keys)) in
    (
      sort_by shallower opts.keys,
      sort_by-perm shallower opts.keys,
      keys,
      rw keys (
          take-Deepening (limit_of opts.limit (length opts.keys)) (sort_by shallower opts.keys)
            (InOrder-Deepening _ (sort_by-InOrder shallower shallower-asym opts.keys))),
    )

-- The bounds of a list of tasks: how many there are, and the range of their priorities.
abbrev pub InPercent : List WarmTask → Type 0
InPercent tasks = All (λ t. (pos 0 ≤ℤ t.priority) × (t.priority ≤ℤ pos 100)) tasks

selective_loop-length :
    (limit i : ℕ) (given : ℤ) (keys : List Bytes)
    → (length (selective_loop limit i given keys) ≤ limit - i)
      × (length (selective_loop limit i given keys) ≤ length keys)
unfolding selective_loop
selective_loop-length limit i given [] = omega arith
selective_loop-length limit i given (key ∷ keys) =
    ground (arith, selective_loop-length limit (suc i) given keys)

selective_loop-InPercent :
    (limit i : ℕ) (given : ℤ) (keys : List Bytes)
    → pos 0 ≤ℤ given
    → given ≤ℤ pos 100
    → InPercent (selective_loop limit i given keys)
unfolding selective_loop
selective_loop-InPercent limit i given [] low high = tt
selective_loop-InPercent limit i given (key ∷ keys) low high = elim (Bool-cases (ltb i limit)) [
  | inl room ↦ rw room (ground arith, selective_loop-InPercent limit (suc i) given keys low high)
  | inr full ↦ rw full tt
]

breadth_loop-length :
    (given : ℤ) (keys : List Bytes) → length (breadth_loop given keys) ≡ length keys
unfolding breadth_loop
breadth_loop-length given [] = refl
breadth_loop-length given (key ∷ keys) = ap suc (breadth_loop-length given keys)

breadth_loop-InPercent :
    (given : ℤ) (keys : List Bytes)
    → pos 0 ≤ℤ given
    → given ≤ℤ pos 100
    → InPercent (breadth_loop given keys)
unfolding breadth_loop
breadth_loop-InPercent given [] low high = tt
breadth_loop-InPercent given (key ∷ keys) low high =
    (ground arith, breadth_loop-InPercent given keys low high)

at_most :
    (given : Bool) (limit : ℤ) (n keys : ℕ)
    → n ≤ keys
    → (given ≡ true → n ≤ pos_part limit)
    → n ≤ (if given then pos_part limit else keys)
at_most true limit n keys few h = h refl
at_most false limit n keys few h = few

-- What holds of every plan.
pub record Bounded (opts : PlanOptions) (tasks : List WarmTask) : Type 0 where
  pub few : length tasks ≤ length opts.keys
  pub limited :
      length tasks ≤ (if ltb_ℤ (pos 0) opts.limit then pos_part opts.limit else length opts.keys)
  pub percent : InPercent tasks

selective_plan-Bounded :
    (opts : PlanOptions)
    → pos 0 ≤ℤ opts.priority
    → opts.priority ≤ℤ pos 100
    → Bounded opts (selective_plan opts)
unfolding selective_plan
selective_plan-Bounded opts low high =
    let cap = limit_of opts.limit (length opts.keys) in
    let bound =
      selective_loop-length (if ltb selective_cap cap then selective_cap else cap) 0 opts.priority
        opts.keys in
    record {
      few = bound.1;
      limited =
          at_most (ltb_ℤ (pos 0) opts.limit) opts.limit _ (length opts.keys) bound.1
            (λ given. ground arith);
      percent = selective_loop-InPercent _ 0 opts.priority opts.keys low high;
    }

breadth_plan-Bounded :
    (opts : PlanOptions)
    → pos 0 ≤ℤ opts.priority
    → opts.priority ≤ℤ pos 100
    → Bounded opts (breadth_plan opts)
unfolding breadth_plan
breadth_plan-Bounded opts low high =
    let n = limit_of opts.limit (length opts.keys) in
    let sorted = sort_by shallower opts.keys in
    let size = breadth_loop-length opts.priority (take n sorted) ∙ length-take n sorted in
    let same = sort_by-length shallower opts.keys in
    record {
      few = omega (arith, size, same);
      limited =
          at_most (ltb_ℤ (pos 0) opts.limit) opts.limit _ (length opts.keys)
            (omega (arith, size, same))
            (λ given. omega (arith, size, within opts.limit (length opts.keys) given));
      percent = breadth_loop-InPercent opts.priority (take n sorted) low high;
    }
  where
    within : (limit : ℤ) (n : ℕ) → ltb_ℤ (pos 0) limit ≡ true → limit_of limit n ≤ pos_part limit
    within limit n given = ground arith

module _ (score : ℕ → ℕ → ℕ → ℤ) where
  priority_loop-length :
      (n i : ℕ) (keys : List Bytes) → length (priority_loop score n i keys) ≡ length keys
  unfolding priority_loop
  priority_loop-length n i [] = refl
  priority_loop-length n i (key ∷ keys) = ap suc (priority_loop-length n (suc i) keys)

  priority_loop-InPercent : (n i : ℕ) (keys : List Bytes) → InPercent (priority_loop score n i keys)
  unfolding priority_loop
  priority_loop-InPercent n i [] = tt
  priority_loop-InPercent n i (key ∷ keys) = (ground arith, priority_loop-InPercent n (suc i) keys)

  priority_plan-Bounded : (opts : PlanOptions) → Bounded opts (priority_plan score opts)
  priority_plan-Bounded opts = elim (Bool-cases (ltb_ℤ (pos 0) opts.limit)) [
    | inl given ↦
        unfold priority_plan in
        rw given (record {
          few = omega (arith, length-take (pos_part opts.limit) tasks, size);
          limited = rw given (omega (arith, length-take (pos_part opts.limit) tasks));
          percent = All-take _ (pos_part opts.limit) tasks percents;
        })
    | inr free ↦
        unfold priority_plan in
        rw free (record {
          few = omega (arith, size);
          limited = rw free (omega (arith, size));
          percent = percents;
        })
  ]
    where
      tasks : List WarmTask
      tasks = sort_by more_urgent (priority_loop score (length opts.keys) 0 opts.keys)

      size : length tasks ≡ length opts.keys
      size =
          sort_by-length more_urgent (priority_loop score (length opts.keys) 0 opts.keys)
          ∙ priority_loop-length (length opts.keys) 0 opts.keys

      percents : InPercent tasks
      percents =
          sort_by-All more_urgent _ (priority_loop score (length opts.keys) 0 opts.keys)
            (priority_loop-InPercent (length opts.keys) 0 opts.keys)

  plan_cases :
      (name : Bytes) (opts : PlanOptions) (tasks : List WarmTask)
      → plan score name opts ≡ some tasks
      → (tasks ≡ selective_plan opts)
        ⊎ (tasks ≡ breadth_plan opts)
        ⊎ (tasks ≡ priority_plan score opts)
  unfolding plan
  plan_cases name opts tasks e = ground arith

  -- For a given priority between 0 and 100, a plan of a registered strategy has no more tasks than
  -- keys were given and no more than a positive limit, and its priorities lie between 0 and 100.
  pub plan-Bounded :
      (name : Bytes) (opts : PlanOptions) {tasks : List WarmTask}
      → pos 0 ≤ℤ opts.priority
      → opts.priority ≤ℤ pos 100
      → plan score name opts ≡ some tasks
      → Bounded opts tasks
  plan-Bounded name opts {tasks} low high e = elim (plan_cases name opts tasks e) [
    | inl selective ↦ rw selective (selective_plan-Bounded opts low high)
    | inr (inl breadth) ↦ rw breadth (breadth_plan-Bounded opts low high)
    | inr (inr urgent) ↦ rw urgent (priority_plan-Bounded opts)
  ]
