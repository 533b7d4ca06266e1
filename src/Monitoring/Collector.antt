-- ===== src/Monitoring/Collector.antt =====
-- `MetricsCollector` and `TimeSeries` of monitoring/metrics.go, for calls that do not overlap. A counter is the bit
-- pattern of its int64; source and labels of an event, which nothing reads, are left out.
pub mod Counts
use distributed_caching_syst.Prelude.{
  ℕ, zero, suc, ◌+◌, ◌/◌, ◌%◌, ◌^◌, ◌↔◌, ◌≡◌, Bool, true, false, ◌&&◌, Option, none, some, List, [],
  ◌∷◌, ◌++◌, if◌then◌else◌, map, filter, arith, Eq, length,
}
use distributed_caching_syst.Prelude.Int.{ℤ, pos, negsuc, ◌-ℤ◌, ◌+ℤ◌, ltb_ℤ, leb_ℤ, eq_of_parts}
use distributed_caching_syst.Prelude.SortBy.{sort_by}
use distributed_caching_syst.GoMap.{lookup, insert}
use distributed_caching_syst.Monitoring.Alerts.{add_int64}
use distributed_caching_syst.Monitoring.Floats.{Floats}
use distributed_caching_syst.Monitoring.RingBuffer.{RingBuffer, new_ring_buffer, get_all}
use distributed_caching_syst.Monitoring.RingBuffer as RingBuffer

pub data MetricType : Type 0 where
  cache_hit cache_miss cache_set cache_delete cache_eviction invalidation warming error latency :
      MetricType

pub record MetricEvent (F : Type 0) : Type 0 where
  pub type : MetricType
  pub value : F
  pub timestamp : ℤ

pub record Sample (F : Type 0) : Type 0 where
  pub value : F
  pub timestamp : ℤ

-- An instant in nanoseconds as a number of seconds, which rounds down.
abbrev pub unix : ℤ → ℤ
unix (pos n) = pos (n / 1000000000)
unix (negsuc n) = negsuc (n / 1000000000)

pub record Counters : Type 0 where
  pub cache_hits : ℕ
  pub cache_misses : ℕ
  pub cache_sets : ℕ
  pub cache_deletes : ℕ
  pub evictions : ℕ
  pub invalidations : ℕ
  pub warmings : ℕ
  pub errors : ℕ

-- The bucket of a second, whose timestamp is its key.
pub record Bucket (F : Type 0) : Type 0 where
  pub timestamp : ℤ
  pub events : List (MetricEvent F)
  pub cache_hits : ℕ
  pub cache_misses : ℕ
  pub latencies : List F
  pub errors : ℕ
  pub invalidations : ℕ
  pub warmings : ℕ

unfoldable pub beq_ℤ : ℤ → ℤ → Bool
beq_ℤ a b = leb_ℤ a b && leb_ℤ b a

pub beq_ℤ_iff : (a b : ℤ) → (beq_ℤ a b ≡ true) ↔ (a ≡ b)
unfolding beq_ℤ
beq_ℤ_iff a b = ground (arith, eq_of_parts a b)

instance abbrev pub int_key : Eq ℤ
int_key = record { beq = beq_ℤ; beq_iff = beq_ℤ_iff }

-- The sum of a counter over what a list holds, as an int64.
abbrev pub total_of {ℓ} : {A : Type ℓ} → (A → ℕ) → List A → ℕ
total_of f [] = 0
total_of f (x ∷ xs) = add_int64 (f x) (total_of f xs)

pub record TimeSeries (F : Type 0) : Type 0 where
  pub buckets : List (ℤ × Bucket F)
  pub retention : ℤ
  pub last_cleanup : ℤ

pub record MetricsCollector (F : Type 0) : Type 0 where
  pub counters : Counters
  pub latency_buffer : RingBuffer (Sample F)
  pub time_series : TimeSeries F

abbrev pub zero_counters : Counters
zero_counters = record {
  cache_hits = 0;
  cache_misses = 0;
  cache_sets = 0;
  cache_deletes = 0;
  evictions = 0;
  invalidations = 0;
  warmings = 0;
  errors = 0;
}

abbrev pub count : MetricType → ℕ → Counters → Counters
count cache_hit n c = record c { cache_hits = add_int64 c.cache_hits n }
count cache_miss n c = record c { cache_misses = add_int64 c.cache_misses n }
count cache_set n c = record c { cache_sets = add_int64 c.cache_sets n }
count cache_delete n c = record c { cache_deletes = add_int64 c.cache_deletes n }
count cache_eviction n c = record c { evictions = add_int64 c.evictions n }
count invalidation n c = record c { invalidations = add_int64 c.invalidations n }
count warming n c = record c { warmings = add_int64 c.warmings n }
count error n c = record c { errors = add_int64 c.errors n }
count latency n c = c

abbrev pub in_range : ℤ → ℤ → ℤ → Bool
in_range start end key = leb_ℤ (unix start) key && leb_ℤ key (unix end)

module _ {F : Type 0} where
  abbrev pub new_bucket : ℤ → Bucket F
  new_bucket key = record {
    timestamp = key;
    events = [];
    cache_hits = 0;
    cache_misses = 0;
    latencies = [];
    errors = 0;
    invalidations = 0;
    warmings = 0;
  }

  -- The two changes that an event makes to its bucket.
  abbrev pub tally : MetricType → F → Bucket F → Bucket F
  tally cache_hit x b = record b { cache_hits = add_int64 b.cache_hits 1 }
  tally cache_miss x b = record b { cache_misses = add_int64 b.cache_misses 1 }
  tally latency x b = record b { latencies = b.latencies ++ x ∷ [] }
  tally error x b = record b { errors = add_int64 b.errors 1 }
  tally invalidation x b = record b { invalidations = add_int64 b.invalidations 1 }
  tally warming x b = record b { warmings = add_int64 b.warmings 1 }
  tally cache_set x b = b
  tally cache_delete x b = b
  tally cache_eviction x b = b

  unfoldable pub add_event : MetricEvent F → Bucket F → Bucket F
  add_event event b = tally event.type event.value (record b { events = b.events ++ event ∷ [] })

  unfoldable pub bucket_of : ℤ → List (ℤ × Bucket F) → Bucket F
  bucket_of key buckets = elim (lookup key buckets) [ none ↦ new_bucket key | some b ↦ b ]

  -- `now` is what the clock reads in `cleanup`.
  unfoldable pub cleanup : ℤ → TimeSeries F → TimeSeries F
  cleanup now ts = record ts {
    buckets = filter (λ entry. leb_ℤ (unix (now -ℤ ts.retention)) entry.0) ts.buckets;
  }

  unfoldable pub add : (ℕ → ℤ) → MetricEvent F → TimeSeries F → TimeSeries F
  add clock event ts =
      let key = unix event.timestamp in
      let ts' : TimeSeries F = record ts {
        buckets = insert key (add_event event (bucket_of key ts.buckets)) ts.buckets;
      } in
      if ltb_ℤ (pos 60_000_000_000) (clock 0 -ℤ ts'.last_cleanup)
      then record (cleanup (clock 1) ts') { last_cleanup = clock 2 }
      else ts'

  unfoldable pub get_range : ℤ → ℤ → TimeSeries F → List (Bucket F)
  get_range start end ts =
      sort_by (λ a b. ltb_ℤ a.timestamp b.timestamp)
        (map (λ entry. entry.1) (filter (λ entry. in_range start end entry.0) ts.buckets))

module _ {F : Type 0} (floats : Floats F) where
  abbrev pub new_metrics_collector : ℤ → ℤ → MetricsCollector F
  new_metrics_collector now retention = record {
    counters = zero_counters;
    latency_buffer =
        new_ring_buffer (record { value = floats.of_int (pos 0); timestamp = pos 0 }) 10000;
    time_series = record { buckets = []; retention = retention; last_cleanup = now };
  }

  abbrev pub keep_latency : MetricEvent F → RingBuffer (Sample F) → RingBuffer (Sample F)
  keep_latency event buffer = elim event.type [
    | latency ↦ RingBuffer.add (record { value = event.value; timestamp = event.timestamp }) buffer
    | _ ↦ buffer
  ]

  unfoldable pub record_metric : (ℕ → ℤ) → MetricEvent F → MetricsCollector F → MetricsCollector F
  record_metric clock event mc = record {
    counters = count event.type (floats.to_int64 event.value) mc.counters;
    latency_buffer = keep_latency event mc.latency_buffer;
    time_series = add clock event mc.time_series;
  }

unfoldable pub get_counters : {F : Type 0} → MetricsCollector F → Counters
get_counters mc = mc.counters
