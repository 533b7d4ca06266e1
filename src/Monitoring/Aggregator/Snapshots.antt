-- ===== src/Monitoring/Aggregator/Snapshots.antt =====
-- `GetStats` of monitoring/aggregator.go for ranges that it reads from a window, whose snapshots are of counters that
-- run from the start of the service.
use mathlib.Core.List.{append_assoc}
use mathlib.Core.Path.{subst}
use native.Mathlib.Nat.{mod-eq_of_lt}
use distributed_caching_syst.Prelude.{
  ℕ, zero, suc, ◌+◌, ◌*◌, ◌%◌, ◌≡◌, refl, ap, ◌∙◌, true, List, [], ◌∷◌, ◌++◌, length, filter, map,
  arith, All, take_of_length-le, length-append, if_cases, length-map,
}
use distributed_caching_syst.Prelude.Int.{ℤ, pos, ◌-ℤ◌, ◌<ℤ◌, ◌≤ℤ◌, leb_ℤ}
use distributed_caching_syst.Monitoring.Alerts.{add_int64}
use distributed_caching_syst.Monitoring.Floats.{Floats}
use distributed_caching_syst.Monitoring.RingBuffer.{set_elem, places}
use distributed_caching_syst.Monitoring.Collector.{MetricsCollector, total_of, get_counters, beq_ℤ}
use distributed_caching_syst.Monitoring.Windows.{
  AggregatedStats, SlidingWindow, no_stats, new_sliding_window, second, add, adds, is_within,
  get_range,
}
use distributed_caching_syst.Monitoring.Windows.Recent.{adds-IsWindow, new_sliding_window-IsWindow}
use distributed_caching_syst.Monitoring.Aggregator.{
  Aggregator, new_aggregator, snapshot, aggregate, aggregate_snapshots, calculate_error_rate,
  get_stats,
}

module _ {A : Type 0} where
  set_elem-append :
      (done : List A) (x y : A) (rest : List A)
      → set_elem (length done) x (done ++ y ∷ rest) ≡ done ++ x ∷ rest
  unfolding set_elem
  set_elem-append [] x y rest = refl
  set_elem-append (z ∷ done) x y rest = ap (◌∷◌ z) (set_elem-append done x y rest)

module _ {F : Type 0} (blank : AggregatedStats F) (capacity : ℕ) where
  abbrev filled : List (AggregatedStats F) → ℕ → ℕ → SlidingWindow F
  filled done k head = record { buffer = done ++ places k blank; capacity = capacity; head = head }

  add-filled :
      (x : AggregatedStats F) (done : List (AggregatedStats F)) (k : ℕ)
      → capacity ≡ length done + suc k
      → add x (filled done (suc k) (length done % capacity))
        ≡ filled (done ++ x ∷ []) k (length (done ++ x ∷ []) % capacity)
  unfolding add
  add-filled x done k c =
      let here : length done % capacity ≡ length done = mod-eq_of_lt (omega arith) in
      rw here (
        rw
          (
            set_elem-append done x blank (places k blank),
            append_assoc done (x ∷ []) (places k blank),
            length-append done (x ∷ []),
          )
          refl)

  -- Until it is full, the window holds the snapshots in their order.
  adds-filled :
      (xs done : List (AggregatedStats F)) (k rest : ℕ)
      → k ≡ length xs + rest
      → capacity ≡ length done + k
      → (adds xs (filled done k (length done % capacity))).buffer
        ≡ done ++ (xs ++ places rest blank)
  adds-filled [] done k rest e c =
      let same : k ≡ rest = omega arith in ap (λ n. done ++ places n blank) same
  adds-filled (x ∷ xs) done zero rest e c = absurd (omega arith)
  adds-filled (x ∷ xs) done (suc k) rest e c =
      ap (λ sw. (adds xs sw).buffer) (add-filled x done k c)
      ∙ adds-filled xs (done ++ x ∷ []) k rest (omega arith)
          (omega (arith, length-append done (x ∷ [])))
      ∙ append_assoc done (x ∷ []) (xs ++ places rest blank)

module _ {F : Type 0} (floats : Floats F) where
  blanks-filtered :
      (start end : ℤ) (n : ℕ) → filter (is_within start end) (places n (no_stats floats)) ≡ []
  unfolding beq_ℤ
  blanks-filtered start end zero = refl
  blanks-filtered start end (suc n) = blanks-filtered start end n

  filter-kept :
      (start end : ℤ) (xs rest : List (AggregatedStats F))
      → All (λ x. is_within start end x ≡ true) xs
      → filter (is_within start end) rest ≡ []
      → filter (is_within start end) (xs ++ rest) ≡ xs
  filter-kept start end [] rest h none_left = none_left
  filter-kept start end (x ∷ xs) rest h none_left =
      rw (h.0) (ap (◌∷◌ x) (filter-kept start end xs rest h.1 none_left))

  get_range-adds :
      (start end : ℤ) (duration rest : ℕ) (xs : List (AggregatedStats F))
      → (new_sliding_window floats duration).capacity ≡ length xs + rest
      → All (λ x. is_within start end x ≡ true) xs
      → get_range start end (adds xs (new_sliding_window floats duration)) ≡ xs
  unfolding get_range
  get_range-adds start end duration rest xs room h =
      let new = new_sliding_window floats duration in
      let held : (adds xs new).buffer ≡ xs ++ places rest (no_stats floats) =
        subst
          (λ head.
            (adds xs (record {
              buffer = places new.capacity (no_stats floats);
              capacity = new.capacity;
              head = head;
            })).buffer
            ≡ xs ++ places rest (no_stats floats))
          (mod-eq_of_lt (omega arith))
          (adds-filled (no_stats floats) new.capacity xs [] new.capacity rest room (omega arith)) in
      let full = (adds-IsWindow xs new (new_sliding_window-IsWindow floats duration)).full in
      rw (take_of_length-le (adds xs new).capacity (adds xs new).buffer (omega (arith, full))) (
        rw held (
          filter-kept start end xs (places rest (no_stats floats)) h
            (blanks-filtered start end rest)))

  -- The rounds of the ticker at the given instants.
  abbrev pub ticks : List ℤ → MetricsCollector F → Aggregator F → Aggregator F
  ticks [] mc a = a
  ticks (now ∷ times) mc a = ticks times mc (aggregate floats now mc a)

  ticks-window10s :
      (times : List ℤ) (mc : MetricsCollector F) (a : Aggregator F)
      → (ticks times mc a).window10s ≡ adds (map (λ now. snapshot floats now mc) times) a.window10s
  unfolding aggregate
  ticks-window10s [] mc a = refl
  ticks-window10s (now ∷ times) mc a = ticks-window10s times mc (aggregate floats now mc a)

  repeated :
      (times : List ℤ) (mc : MetricsCollector F)
      → total_of
          (λ (s : AggregatedStats F). s.total_requests)
          (map (λ now. snapshot floats now mc) times)
        ≡ total_of
            (λ (_ : ℤ). add_int64 (get_counters mc).cache_hits (get_counters mc).cache_misses)
            times
  unfolding snapshot
  repeated [] mc = refl
  repeated (now ∷ times) mc =
      ap (add_int64 (add_int64 (get_counters mc).cache_hits (get_counters mc).cache_misses))
        (repeated times mc)

  of_snapshots :
      (snapshots : List (AggregatedStats F)) (duration : ℤ)
      → ((aggregate_snapshots floats snapshots duration).total_requests
          ≡ total_of (λ s. s.total_requests) snapshots)
        × ((aggregate_snapshots floats snapshots duration).error_rate
            ≡ calculate_error_rate floats 0
                (aggregate_snapshots floats snapshots duration).total_requests)
  unfolding aggregate_snapshots
  of_snapshots [] duration = (refl, unfold calculate_error_rate in refl)
  of_snapshots (s ∷ more) duration = (refl, refl)

  -- Over at most 11 rounds of a new aggregator, all in the range and with one collector that does
  -- not change, `GetStats` over more than a second and at most ten adds the counters of hits and
  -- misses once for each round, and its error rate is that of no errors.
  pub get_stats-counts_again :
      (times : List ℤ) (rest : ℕ) (start end : ℤ) (mc : MetricsCollector F)
      → 11 ≡ length times + rest
      → All (λ now. is_within start end (snapshot floats now mc) ≡ true) times
      → pos second <ℤ (end -ℤ start)
      → (end -ℤ start) ≤ℤ pos (10 * second)
      → ((get_stats floats start end mc (ticks times mc (new_aggregator floats))).total_requests
          ≡ total_of
              (λ (_ : ℤ). add_int64 (get_counters mc).cache_hits (get_counters mc).cache_misses)
              times)
        × ((get_stats floats start end mc (ticks times mc (new_aggregator floats))).error_rate
            ≡ calculate_error_rate floats 0
                (get_stats floats start end mc
                  (ticks times mc (new_aggregator floats))).total_requests)
  unfolding get_stats
  get_stats-counts_again times rest start end mc room h long short =
      let a = ticks times mc (new_aggregator floats) in
      let duration = end -ℤ start in
      let snapshots = map (λ now. snapshot floats now mc) times in
      let found : get_range start end a.window10s ≡ snapshots =
        ap (get_range start end) (ticks-window10s times mc (new_aggregator floats))
        ∙ get_range-adds start end (10 * second) rest snapshots
            (omega (arith, room, length-map (λ (now : ℤ). snapshot floats now mc) times))
            (All-map_back times h) in
      let Again = λ (stats : AggregatedStats F).
        (stats.total_requests
          ≡ total_of
              (λ (_ : ℤ). add_int64 (get_counters mc).cache_hits (get_counters mc).cache_misses)
              times)
        × (stats.error_rate ≡ calculate_error_rate floats 0 stats.total_requests) in
      if_cases Again (leb_ℤ duration (pos second)) _ _ (λ e. absurd (ground (arith, long, e)))
        (λ _.
          if_cases Again (leb_ℤ duration (pos (10 * second))) _ _
            (λ _. rw found (
              (of_snapshots snapshots duration).0 ∙ repeated times mc,
              (of_snapshots snapshots duration).1,
            ))
            (λ e. absurd (ground (arith, short, e))))
    where
      All-map_back :
          (times : List ℤ)
          → All (λ now. is_within start end (snapshot floats now mc) ≡ true) times
          → All (λ x. is_within start end x ≡ true) (map (λ now. snapshot floats now mc) times)
      All-map_back [] h = tt
      All-map_back (now ∷ times) h = (h.0, All-map_back times h.1)
