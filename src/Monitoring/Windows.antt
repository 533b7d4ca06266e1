-- ===== src/Monitoring/Windows.antt =====
-- `SlidingWindow` and `AggregatedStats` of monitoring/aggregator.go. An instant is in nanoseconds, the zero time of
-- package time included, which is that of a place not yet written.
pub mod Recent
use distributed_caching_syst.Prelude.{
  ℕ, zero, suc, ◌+◌, ◌-◌, ◌%◌, ◌/◌, Bool, true, false, not, ◌&&◌, Option, none, some, List, [], ◌∷◌,
  if◌then◌else◌, filter, get_elem?, take,
}
use distributed_caching_syst.Prelude.Int.{ℤ, pos, negsuc, pos_part, ltb_ℤ, leb_ℤ}
use distributed_caching_syst.Monitoring.Floats.{Floats}
use distributed_caching_syst.Monitoring.Collector.{beq_ℤ}
use distributed_caching_syst.Monitoring.RingBuffer.{set_elem, places}

pub record AggregatedStats (F : Type 0) : Type 0 where
  pub timestamp : ℤ
  pub total_requests : ℕ
  pub cache_hits : ℕ
  pub cache_misses : ℕ
  pub hit_rate : F
  pub qps : F
  pub avg_latency : F
  pub p50_latency : F
  pub p90_latency : F
  pub p95_latency : F
  pub p99_latency : F
  pub error_rate : F
  pub invalidations : ℕ
  pub warmings : ℕ
  pub evictions : ℕ

-- 1 January of the year 1.
abbrev pub zero_time : ℤ
zero_time = negsuc 62_135_596_799_999_999_999

-- The zero value of the type.
abbrev pub no_stats : {F : Type 0} → Floats F → AggregatedStats F
no_stats floats =
    let zero = floats.of_int (pos 0) in
    record {
      timestamp = zero_time;
      total_requests = 0;
      cache_hits = 0;
      cache_misses = 0;
      hit_rate = zero;
      qps = zero;
      avg_latency = zero;
      p50_latency = zero;
      p90_latency = zero;
      p95_latency = zero;
      p99_latency = zero;
      error_rate = zero;
      invalidations = 0;
      warmings = 0;
      evictions = 0;
    }

pub record SlidingWindow (F : Type 0) : Type 0 where
  pub buffer : List (AggregatedStats F)
  pub capacity : ℕ
  pub head : ℕ

abbrev pub second : ℕ
second = 1_000_000_000

-- For a duration that is not negative.
abbrev pub new_sliding_window : {F : Type 0} → Floats F → ℕ → SlidingWindow F
new_sliding_window floats duration = record {
  buffer = places (duration / second + 1) (no_stats floats);
  capacity = duration / second + 1;
  head = 0;
}

module _ {F : Type 0} where
  unfoldable pub add : AggregatedStats F → SlidingWindow F → SlidingWindow F
  add stats sw = record sw {
    buffer = set_elem sw.head stats sw.buffer;
    head = (sw.head + 1) % sw.capacity;
  }

  abbrev pub is_within : ℤ → ℤ → AggregatedStats F → Bool
  is_within start end stats =
      not (beq_ℤ stats.timestamp zero_time)
      && not (ltb_ℤ stats.timestamp start)
      && not (ltb_ℤ end stats.timestamp)

  -- In the order of the places.
  unfoldable pub get_range : ℤ → ℤ → SlidingWindow F → List (AggregatedStats F)
  get_range start end sw = filter (is_within start end) (take sw.capacity sw.buffer)

  -- `none` where the index is out of range.
  unfoldable pub get_latest : SlidingWindow F → Option (AggregatedStats F)
  get_latest sw = get_elem? sw.buffer ((sw.head + sw.capacity - 1) % sw.capacity)

  abbrev pub adds : List (AggregatedStats F) → SlidingWindow F → SlidingWindow F
  adds [] sw = sw
  adds (stats ∷ more) sw = adds more (add stats sw)
