-- ===== src/Middleware/RateLimit.antt =====
-- pkg/middleware/ratelimit.go. `accrue` stands for `int64(b.refillRate * elapsed.Seconds())`, whose
-- floats are not modelled: it is a function of the elapsed nanoseconds. `now` is the reading of the
-- clock in the call. `try_consume` is a call that no other goroutine interrupts; the machine of
-- Middleware/RateLimit/Interleaving.antt takes its loads, swap and store apart.
pub mod Budget
pub mod Interleaving
pub mod Progress
use distributed_caching_syst.Prelude.{
  ℕ, zero, suc, ◌+◌, Bool, true, false, ◌||◌, Option, none, some, List, [], ◌∷◌, if◌then◌else◌,
  length, take, ltb,
}
use distributed_caching_syst.Prelude.Int.{ℤ, pos, ◌+ℤ◌, ◌-ℤ◌, ltb_ℤ, leb_ℤ}
use distributed_caching_syst.GoMap.{lookup, insert}
use distributed_caching_syst.GoString.{Bytes, bytes_key}

pub record Bucket : Type 0 where
  pub tokens : ℤ
  pub last_refill : ℤ
  pub max_tokens : ℤ

pub record TokenBucket : Type 0 where
  pub bucket_size : ℤ
  pub buckets : List (Bytes × Bucket)
  pub global_bucket : Bucket

abbrev pub full_bucket : ℤ → ℤ → Bucket
full_bucket size now = record { tokens = size; last_refill = now; max_tokens = size }

-- `rate_positive` is the test `refillRate > 0`; `none` is the panic.
unfoldable pub new_token_bucket : Bool → ℤ → ℤ → Option TokenBucket
new_token_bucket rate_positive bucket_size now =
    if rate_positive
    then (if leb_ℤ bucket_size (pos 0)
        then none
        else some (record {
          bucket_size = bucket_size;
          buckets = [];
          global_bucket = full_bucket bucket_size now;
        }))
    else none

unfoldable pub reset : ℤ → Bucket → Bucket
reset now b = record b { tokens = b.max_tokens; last_refill = now }

abbrev pub is_empty : Bytes → Bool
is_empty [] = true
is_empty (_ ∷ _) = false

-- `LoadOrStore` of a full bucket: the bucket of the key, and the map that holds it.
unfoldable pub get_or_create_bucket : ℤ → Bytes → TokenBucket → TokenBucket × Bucket
get_or_create_bucket now key tb = elim (lookup key tb.buckets) [
  | some b ↦ (tb, b)
  | none ↦
      let b = full_bucket tb.bucket_size now in (record tb { buckets = insert key b tb.buckets }, b)
]

pub record Stats : Type 0 where
  pub total_keys : ℕ
  pub global_tokens : ℤ
  pub sample_key_stats : List (Bytes × ℤ)

-- One step of `EvictStaleKeys` over the map, for the threshold that it computed.
unfoldable pub evict_stale : ℤ → List (Bytes × Bucket) → List (Bytes × Bucket) × ℕ
evict_stale threshold [] = ([], 0)
evict_stale threshold ((key, b) ∷ m) =
    let (m', evicted) = evict_stale threshold m in
    if ltb_ℤ b.last_refill threshold then (m', suc evicted) else ((key, b) ∷ m', evicted)

unfoldable pub evict_stale_keys : ℤ → ℤ → TokenBucket → TokenBucket × ℕ
evict_stale_keys now stale_duration tb =
    let (m, evicted) = evict_stale (now -ℤ stale_duration) tb.buckets in
    (record tb { buckets = m }, evicted)

-- The handler's choice: the request is served, or answered by status 429.
pub data Answer : Type 0 where
  served too_many_requests : Answer

module _ (accrue : ℤ → ℤ) where
  -- The tokens after the refill, capped, from the two values that were loaded.
  unfoldable pub refilled : ℤ → ℤ → ℤ → ℤ → ℤ
  refilled now tokens last_refill max_tokens =
      let new_tokens = tokens +ℤ accrue (now -ℤ last_refill) in
      if ltb_ℤ max_tokens new_tokens then max_tokens else new_tokens

  unfoldable pub try_consume : ℤ → ℤ → Bucket → Bucket × Bool
  try_consume now n b =
      let new_tokens = refilled now b.tokens b.last_refill b.max_tokens in
      if ltb_ℤ new_tokens n
      then (b, false)
      else (record b { tokens = new_tokens -ℤ n; last_refill = now }, true)

  -- `CurrentTokens` refills first.
  unfoldable pub current_tokens : ℤ → Bucket → Bucket × ℤ
  current_tokens now b = let (b', _) = try_consume now (pos 0) b in (b', b'.tokens)

  -- The bucket is shared with the map, so its new state stands there.
  unfoldable pub consume_for : ℤ → Bytes → ℤ → TokenBucket → TokenBucket × Bool
  consume_for now key n tb =
      let (tb', b) = get_or_create_bucket now key tb in
      let (b', done) = try_consume now n b in
      (record tb' { buckets = insert key b' tb'.buckets }, done)

  unfoldable pub allow : ℤ → Bytes → TokenBucket → TokenBucket × Bool
  allow now key tb = if is_empty key then (tb, false) else consume_for now key (pos 1) tb

  unfoldable pub allow_n : ℤ → Bytes → ℤ → TokenBucket → TokenBucket × Bool
  allow_n now key n tb =
      if is_empty key || leb_ℤ n (pos 0) then (tb, false) else consume_for now key n tb

  unfoldable pub allow_global : ℤ → TokenBucket → TokenBucket × Bool
  allow_global now tb =
      let (b, done) = try_consume now (pos 1) tb.global_bucket in
      (record tb { global_bucket = b }, done)

  -- The visit of `GetStats`: the first ten buckets are refilled and reported.
  unfoldable pub sample : ℕ → ℤ → List (Bytes × Bucket) → List (Bytes × Bucket) × List (Bytes × ℤ)
  sample room now [] = ([], [])
  sample zero now ((key, b) ∷ m) = ((key, b) ∷ m, [])
  sample (suc room) now ((key, b) ∷ m) =
      let (b', tokens) = current_tokens now b in
      let (m', rest) = sample room now m in ((key, b') ∷ m', (key, tokens) ∷ rest)

  -- `GetStats` refills the buckets that it reports.
  unfoldable pub get_stats : ℤ → TokenBucket → TokenBucket × Stats
  get_stats now tb =
      let (b, global_tokens) = current_tokens now tb.global_bucket in
      let (m, sampled) = sample 10 now tb.buckets in
      (
        record tb { global_bucket = b; buckets = m },
        record {
          total_keys = length tb.buckets;
          global_tokens = global_tokens;
          sample_key_stats = sampled;
        },
      )

  unfoldable pub rate_limit_middleware : ℤ → Bytes → TokenBucket → TokenBucket × Answer
  rate_limit_middleware now key tb =
      if is_empty key
      then (tb, served)
      else (let (tb', allowed) = allow now key tb in
          (tb', if allowed then served else too_many_requests))
