-- ===== src/Monitoring/Windows/Recent.antt =====
-- What a sliding window of monitoring/aggregator.go holds: the newest snapshots, as many as it has places.
use mathlib.Core.Path.{subst}
use native.Mathlib.Nat.{add-zero, mod-eq_of_lt, mod-eq-sub-mod}
use distributed_caching_syst.Prelude.{
  ℕ, zero, suc, ◌+◌, ◌-◌, ◌%◌, ◌/◌, ◌<◌, ◌≡◌, refl, ap, ◌∙◌, Bool, true, false, Option, some, List,
  [], ◌∷◌, if◌then◌else◌, get_elem?, length, filter, Bool-cases, take_of_length-le, arith, inl, inr,
  ltb, ◌==◌,
}
use distributed_caching_syst.Prelude.Int.{ℤ}
use distributed_caching_syst.Monitoring.Floats.{Floats}
use distributed_caching_syst.Monitoring.RingBuffer.{set_elem, places}
use distributed_caching_syst.Monitoring.Windows.{
  AggregatedStats, SlidingWindow, add, adds, get_latest, get_range, is_within, new_sliding_window,
  no_stats, second,
}

module _ {A : Type 0} where
  pub get_elem?-set_elem :
      (i j : ℕ) (x : A) (xs : List A)
      → i < length xs
      → get_elem? (set_elem i x xs) j ≡ (if i == j then some x else get_elem? xs j)
  unfolding set_elem
  get_elem?-set_elem i j x [] h = absurd (omega arith)
  get_elem?-set_elem zero zero x (y ∷ ys) h = ground arith
  get_elem?-set_elem zero (suc j) x (y ∷ ys) h = ground arith
  get_elem?-set_elem (suc i) zero x (y ∷ ys) h = ground arith
  get_elem?-set_elem (suc i) (suc j) x (y ∷ ys) h =
      ground (arith, get_elem?-set_elem i j x ys (omega arith))

  pub length-set_elem : (i : ℕ) (x : A) (xs : List A) → length (set_elem i x xs) ≡ length xs
  unfolding set_elem
  length-set_elem i x [] = refl
  length-set_elem zero x (y ∷ ys) = refl
  length-set_elem (suc i) x (y ∷ ys) = ap suc (length-set_elem i x ys)

-- What a list holds and a test accepts is among what the test filters.
get_elem?-filter {ℓ} :
    {A : Type ℓ} (p : A → Bool) (x : A) (xs : List A) (i : ℕ)
    → get_elem? xs i ≡ some x
    → p x ≡ true
    → (k : ℕ) × (get_elem? (filter p xs) k ≡ some x)
get_elem?-filter p x [] i found accepted = absurd (cc (found))
get_elem?-filter p x (y ∷ ys) zero found accepted = elim (Bool-cases (p y)) [
  | inl e ↦ rw e (0, found)
  | inr e ↦ cc (e, found, accepted)
]
get_elem?-filter p x (y ∷ ys) (suc i) found accepted =
    let (k, later) = get_elem?-filter p x ys i found accepted in
    elim (Bool-cases (p y)) [ inl e ↦ rw e (suc k, later) | inr e ↦ rw e (k, later) ]

-- The place of the j-th newest of `capacity` places.
abbrev pub back : ℕ → ℕ → ℕ → ℕ
back capacity head j = if ltb j head then head - 1 - j else head + capacity - 1 - j

next_head :
    (head capacity : ℕ)
    → head < capacity
    → (head + 1) % capacity ≡ (if suc head == capacity then 0 else suc head)
next_head head capacity h = grind arith

back-latest :
    (capacity head : ℕ) → head < capacity → (head + capacity - 1) % capacity ≡ back capacity head 0
back-latest capacity zero h = mod-eq_of_lt (omega arith) ∙ ground arith
back-latest capacity (suc head) h =
    mod-eq-sub-mod (omega arith) ∙ mod-eq_of_lt (omega arith) ∙ ground arith

back-next :
    (capacity head j : ℕ)
    → head < capacity
    → suc j < capacity
    → back capacity (if suc head == capacity then 0 else suc head) (suc j) ≡ back capacity head j
back-next capacity head j h k = ground arith

back-zero :
    (capacity head : ℕ)
    → head < capacity
    → back capacity (if suc head == capacity then 0 else suc head) 0 ≡ head
back-zero capacity head h = ground arith

back-apart :
    (capacity head j : ℕ)
    → head < capacity
    → suc j < capacity
    → (head == back capacity head j) ≡ false
back-apart capacity head j h k = ground arith

module _ {F : Type 0} where
  pub record IsWindow (sw : SlidingWindow F) : Type 0 where
    pub full : length sw.buffer ≡ sw.capacity
    pub head_within : sw.head < sw.capacity

  -- What stands at the place of the j-th newest, for `j` below the capacity.
  abbrev pub newest : SlidingWindow F → ℕ → Option (AggregatedStats F)
  newest sw j = get_elem? sw.buffer (back sw.capacity sw.head j)

  add-IsWindow :
      (stats : AggregatedStats F) (sw : SlidingWindow F) → IsWindow sw → IsWindow (add stats sw)
  unfolding add
  add-IsWindow stats sw w = record {
    full = length-set_elem sw.head stats sw.buffer ∙ w.full;
    head_within = rw (next_head sw.head sw.capacity w.head_within) (ground (arith, w.head_within));
  }

  newest-add :
      (stats : AggregatedStats F) (sw : SlidingWindow F) (j : ℕ)
      → IsWindow sw
      → suc j < sw.capacity
      → newest (add stats sw) (suc j) ≡ newest sw j
  unfolding add
  newest-add stats sw j w h = rw (next_head sw.head sw.capacity w.head_within) (
      rw (back-next sw.capacity sw.head j w.head_within h) (
        get_elem?-set_elem sw.head (back sw.capacity sw.head j) stats sw.buffer
          (omega (arith, w.full, w.head_within))
        ∙ ap (λ b. if b then some stats else newest sw j)
            (back-apart sw.capacity sw.head j w.head_within h)))

  newest-add_zero :
      (stats : AggregatedStats F) (sw : SlidingWindow F)
      → IsWindow sw
      → newest (add stats sw) 0 ≡ some stats
  unfolding add
  newest-add_zero stats sw w = rw (next_head sw.head sw.capacity w.head_within) (
      rw (back-zero sw.capacity sw.head w.head_within) (
        get_elem?-set_elem sw.head sw.head stats sw.buffer (omega (arith, w.full, w.head_within))
        ∙ ground arith))

  pub adds-IsWindow :
      (more : List (AggregatedStats F)) (sw : SlidingWindow F)
      → IsWindow sw
      → IsWindow (adds more sw)
  adds-IsWindow [] sw w = w
  adds-IsWindow (stats ∷ more) sw w = adds-IsWindow more (add stats sw) (add-IsWindow stats sw w)

  -- Later snapshots push one back by their number.
  newest-adds :
      (more : List (AggregatedStats F)) (sw : SlidingWindow F) (j : ℕ)
      → IsWindow sw
      → j + length more < sw.capacity
      → newest (adds more sw) (j + length more) ≡ newest sw j
  newest-adds [] sw j w h = rw add-zero refl
  newest-adds (stats ∷ more) sw j w h =
      let shifted : suc j + length more ≡ j + suc (length more) = omega arith in
      rw (← shifted) (
        newest-adds more (add stats sw) (suc j) (add-IsWindow stats sw w)
          (unfold add in omega arith)
        ∙ newest-add stats sw j w (omega arith))

  -- The latest is the one that was added last.
  pub get_latest-add :
      (stats : AggregatedStats F) (sw : SlidingWindow F)
      → IsWindow sw
      → get_latest (add stats sw) ≡ some stats
  unfolding get_latest
  get_latest-add stats sw w =
      rw
        (back-latest (add stats sw).capacity (add stats sw).head
          (add-IsWindow stats sw w).head_within)
        (newest-add_zero stats sw w)

  adds-capacity :
      (more : List (AggregatedStats F)) (sw : SlidingWindow F)
      → (adds more sw).capacity ≡ sw.capacity
  unfolding add
  adds-capacity [] sw = refl
  adds-capacity (stats ∷ more) sw = adds-capacity more (add stats sw)

  -- On a well-formed window, a snapshot that is added is the latest, and it is in `GetRange` of
  -- each range that its time lies in for as long as fewer snapshots than the window has places are
  -- added after it.
  pub adds-get_range :
      (stats : AggregatedStats F) (more : List (AggregatedStats F)) (start end : ℤ)
      (sw : SlidingWindow F)
      → IsWindow sw
      → length more < sw.capacity
      → is_within start end stats ≡ true
      → ((k : ℕ) × (get_elem? (get_range start end (adds more (add stats sw))) k ≡ some stats))
        × (get_latest (add stats sw) ≡ some stats)
  unfolding get_range
  adds-get_range stats more start end sw w h within =
      let sw' = adds more (add stats sw) in
      let w' = adds-IsWindow more (add stats sw) (add-IsWindow stats sw w) in
      let held : newest sw' (length more) ≡ some stats =
        subst (λ j. newest sw' j ≡ some stats) (omega arith)
          (newest-adds more (add stats sw) 0 (add-IsWindow stats sw w) (unfold add in omega arith)
            ∙ newest-add_zero stats sw w) in
      (
        rw (take_of_length-le sw'.capacity sw'.buffer (omega (arith, w'.full))) (
            get_elem?-filter (is_within start end) stats sw'.buffer
              (back sw'.capacity sw'.head (length more)) held within),
        get_latest-add stats sw w,
      )

length-places : {A : Type 0} (n : ℕ) (blank : A) → length (places n blank) ≡ n
length-places zero blank = refl
length-places (suc n) blank = ap suc (length-places n blank)

pub new_sliding_window-IsWindow :
    {F : Type 0} (floats : Floats F) (duration : ℕ) → IsWindow (new_sliding_window floats duration)
new_sliding_window-IsWindow floats duration = record {
  full = length-places (duration / second + 1) (no_stats floats);
  head_within = omega arith;
}
