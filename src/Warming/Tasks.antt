-- ===== src/Warming/Tasks.antt =====
-- warming/strategies.go. The metadata of a task, which only repeats what led to its priority, is left out.
-- `score n i cost` stands for `int(importance * hotness * 100 / cost)` of the priority strategy, a product of
-- floats, for the i-th of n keys; `sort.Slice` is a sort that keeps the order of equal items.
pub mod Plans
use distributed_caching_syst.Prelude.{
  ℕ, zero, suc, ◌+◌, ◌-◌, ◌*◌, ◌/◌, Bool, true, false, ◌&&◌, ◌||◌, Option, none, some, List, [],
  ◌∷◌, if◌then◌else◌, length, take, drop, ltb, leb, ◌==◌,
}
use distributed_caching_syst.Prelude.Int.{ℤ, pos, pos_part, ◌-ℤ◌, ltb_ℤ, leb_ℤ}
use distributed_caching_syst.Prelude.SortBy.{sort_by}
use distributed_caching_syst.GoString.{Bytes, codes, bytes_eq}

pub record PlanOptions : Type 0 where
  pub keys : List Bytes
  pub priority : ℤ
  pub limit : ℤ

pub record WarmTask : Type 0 where
  pub key : Bytes
  pub priority : ℤ
  pub estimated_cost : ℕ
  pub ttl : ℤ
  pub strategy : Bytes

abbrev pub hour : ℤ
hour = pos 3_600_000_000_000

-- The number of colons.
unfoldable pub key_depth : Bytes → ℕ
key_depth [] = 0
key_depth (ch ∷ key) = if ch == b':' then suc (key_depth key) else key_depth key

-- The loop of `contains`, over the places at which the part can begin.
contains_loop : ℕ → Bytes → Bytes → Bool
contains_loop zero part s = false
contains_loop (suc rounds) part s =
    let later = contains_loop rounds part (drop 1 s) in
    if bytes_eq (take (length part) s) part then true else later

unfoldable pub contains_pattern : Bytes → Bytes → Bool
unfolding contains_loop
contains_pattern key pattern =
    leb (length pattern) (length key)
    && contains_loop (suc (length key - length pattern)) pattern key

unfoldable pub estimate_fetch_cost : Bytes → ℕ
estimate_fetch_cost key =
    50
    + (if ltb 50 (length key) then 20 else 0)
    + key_depth key * 10
    + (if contains_pattern key (codes "report") then 100 else 0)
    + (if contains_pattern key (codes "analytics") then 150 else 0)

abbrev pub is_zero : ℤ → Bool
is_zero n = leb_ℤ n (pos 0) && leb_ℤ (pos 0) n

-- The limit of the options, or the number of keys where it is not given or beyond them.
abbrev pub limit_of : ℤ → ℕ → ℕ
limit_of limit n = if leb_ℤ limit (pos 0) || ltb n (pos_part limit) then n else pos_part limit

-- The loop of the selective strategy, from the i-th key on.
unfoldable pub selective_loop : ℕ → ℕ → ℤ → List Bytes → List WarmTask
selective_loop limit i given [] = []
selective_loop limit i given (key ∷ keys) =
    let rest = selective_loop limit (suc i) given keys in
    if ltb i limit
    then record {
      key = key;
      priority = if is_zero given then pos (100 - i * 100 / limit) else given;
      estimated_cost = estimate_fetch_cost key;
      ttl = hour;
      strategy = codes "selective";
    }
      ∷ rest
    else []

abbrev pub selective_cap : ℕ
selective_cap = 1000

unfoldable pub selective_plan : PlanOptions → List WarmTask
selective_plan opts =
    let limit = limit_of opts.limit (length opts.keys) in
    selective_loop (if ltb selective_cap limit then selective_cap else limit) 0 opts.priority
      opts.keys

-- `<` of texts.
unfoldable pub bytes_ltb : Bytes → Bytes → Bool
bytes_ltb [] [] = false
bytes_ltb [] (_ ∷ _) = true
bytes_ltb (_ ∷ _) [] = false
bytes_ltb (a ∷ s) (b ∷ t) = ltb a b || ((a == b) && bytes_ltb s t)

unfoldable pub shallower : Bytes → Bytes → Bool
shallower a b =
    if key_depth a == key_depth b then bytes_ltb a b else ltb (key_depth a) (key_depth b)

abbrev pub breadth_task : ℤ → Bytes → WarmTask
breadth_task given key = record {
  key = key;
  priority = if is_zero given then pos (100 - key_depth key * 10) else given;
  estimated_cost = estimate_fetch_cost key;
  ttl = hour;
  strategy = codes "breadth";
}

unfoldable pub breadth_loop : ℤ → List Bytes → List WarmTask
breadth_loop given [] = []
breadth_loop given (key ∷ keys) = breadth_task given key ∷ breadth_loop given keys

unfoldable pub breadth_plan : PlanOptions → List WarmTask
breadth_plan opts =
    breadth_loop opts.priority
      (take (limit_of opts.limit (length opts.keys)) (sort_by shallower opts.keys))

abbrev pub clamp : ℤ → ℤ
clamp n = if ltb_ℤ (pos 100) n then pos 100 else (if ltb_ℤ n (pos 0) then pos 0 else n)

abbrev pub more_urgent : WarmTask → WarmTask → Bool
more_urgent a b = ltb_ℤ b.priority a.priority

module _ (score : ℕ → ℕ → ℕ → ℤ) where
  unfoldable pub priority_loop : ℕ → ℕ → List Bytes → List WarmTask
  priority_loop n i [] = []
  priority_loop n i (key ∷ keys) =
      record {
        key = key;
        priority = clamp (score n i (estimate_fetch_cost key));
        estimated_cost = estimate_fetch_cost key;
        ttl = hour;
        strategy = codes "priority";
      }
      ∷ priority_loop n (suc i) keys

  unfoldable pub priority_plan : PlanOptions → List WarmTask
  priority_plan opts =
      let tasks = sort_by more_urgent (priority_loop (length opts.keys) 0 opts.keys) in
      if ltb_ℤ (pos 0) opts.limit then take (pos_part opts.limit) tasks else tasks

  -- The strategy that is registered under a name, if there is one.
  unfoldable pub plan : Bytes → PlanOptions → Option (List WarmTask)
  plan name opts =
      if bytes_eq name (codes "selective")
      then some (selective_plan opts)
      else if bytes_eq name (codes "breadth")
      then some (breadth_plan opts)
      else if bytes_eq name (codes "priority")
      then some (priority_plan opts)
      else none
