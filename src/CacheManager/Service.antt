-- ===== src/CacheManager/Service.antt =====
-- cache-manager/service.go and cache-manager/subscriptions.go: the handlers of the cache service
-- over its L1 cache. The L2 cache, the origin, the JSON codec and the topic are an environment whose
-- state `S` the handlers pass along; `clock i` is what the i-th `time.Now()` in the handler's text
-- reads. A goroutine that writes to L2 is a pending task. An int64 counter is its bit pattern.
pub mod Events
pub mod Effects
pub mod Replies
pub mod Reads
pub mod Stores
pub mod Outcomes
use distributed_caching_syst.Prelude.{
  ℕ, zero, suc, ◌+◌, ◌%◌, ◌^◌, Bool, true, false, ◌&&◌, ◌||◌, Option, none, some, List, [], ◌∷◌,
  ◌++◌, if◌then◌else◌, ltb,
}
use distributed_caching_syst.Prelude.Int.{ℤ, int64, pos, ◌+ℤ◌, ◌-ℤ◌, ◌*ℤ◌, ltb_ℤ, leb_ℤ}
use distributed_caching_syst.GoString.{Bytes, codes, bytes_eq}
use distributed_caching_syst.CacheManager.L1Cache
use distributed_caching_syst.CacheManager.L1Cache.{L1Cache, CacheEntry}

-- `atomic.Int64.Add`
abbrev pub add_int64 : ℕ → ℕ → ℕ
add_int64 a b = (a + b) % 2 ^ 64

pub record Metrics : Type 0 where
  pub hits : ℕ
  pub misses : ℕ
  pub sets : ℕ
  pub deletes : ℕ
  pub evictions : ℕ
  pub l2_hits : ℕ
  pub l2_misses : ℕ
  pub l2_errors : ℕ

-- Pattern and matched keys of the event that the topic carries; its other fields are for the log.
pub record InvalidationEvent : Type 0 where
  pub pattern : Bytes
  pub matched_keys : List Bytes

pub record RefreshEvent : Type 0 where
  pub key : Bytes
  pub value : Bytes
  pub ttl : ℤ

-- What `RemoteCache.Get` answers: an error, no entry, or the stored bytes.
pub data RemoteRead : Type 0 where
  failed absent : RemoteRead
  found : Bytes → RemoteRead

-- The code that the service calls and does not contain.
pub record Environment (S V : Type 0) : Type 0 where
  pub l2_get : Bytes → S → RemoteRead × S
  pub l2_set : Bytes → Bytes → ℤ → S → Bool × S
  pub l2_delete : Bytes → S → S
  pub l2_delete_pattern : Bytes → S → S
  pub fetch : Bytes → S → Option V × S
  pub marshal_value : V → Option Bytes
  pub marshal : CacheEntry → Option Bytes
  pub unmarshal : Bytes → Option CacheEntry
  pub publish : InvalidationEvent → S → S

-- An L2 write that a goroutine still has to make.
pub record Task : Type 0 where
  pub key : Bytes
  pub entry : CacheEntry
  pub ttl : ℤ

pub record Service (S : Type 0) : Type 0 where
  pub l1_cache : L1Cache
  pub l2_cache : Bool
  pub origin_fetch : Bool
  pub metrics : Metrics
  pub default_ttl : ℤ
  pub l2_enabled : Bool
  pub pending : List Task
  pub outside : S

pub data Error : Type 0 where
  empty_key empty_value no_origin origin_failed marshal_failed : Error

pub record GetResponse : Type 0 where
  pub value : Bytes
  pub hit : Bool
  pub source : Bytes
  pub cached_at : Option ℤ
  pub expires_at : Option ℤ

pub record SetRequest : Type 0 where
  pub value : Bytes
  pub ttl : ℤ

pub record SetResponse : Type 0 where
  pub success : Bool
  pub expires_at : ℤ

pub record InvalidateRequest : Type 0 where
  pub keys : List Bytes
  pub pattern : Bytes

pub record InvalidateResponse : Type 0 where
  pub invalidated : ℕ
  pub success : Bool

abbrev pub second : ℤ
second = pos 1_000_000_000

abbrev pub is_empty : Bytes → Bool
is_empty [] = true
is_empty (_ ∷ _) = false

-- `&GetResponse{Hit: false}`
abbrev pub no_hit : GetResponse
no_hit = record { value = []; hit = false; source = []; cached_at = none; expires_at = none }

abbrev pub response_of : CacheEntry → GetResponse
response_of entry = record {
  value = entry.value;
  hit = true;
  source = entry.source;
  cached_at = some entry.cached_at;
  expires_at = some entry.expires_at;
}

module _ {S V : Type 0} (env : Environment S V) where
  abbrev pub uses_l2 : Service S → Bool
  uses_l2 s = s.l2_enabled && s.l2_cache

  -- `SetL2Cache` with a cache or nil
  unfoldable pub set_l2_cache : Bool → Service S → Service S
  set_l2_cache given s = record s { l2_cache = given; l2_enabled = given }

  unfoldable pub set_origin_fetcher : Bool → Service S → Service S
  set_origin_fetcher given s = record s { origin_fetch = given }

  -- The first half of `fetchWithFallback`: what L2 gives, and L1 filled from it.
  unfoldable pub fetch_l2 : (ℕ → ℤ) → Bytes → Service S → Service S × Option CacheEntry
  fetch_l2 clock key s = elim ((env.l2_get key s.outside).0) [
    | RemoteRead.failed ↦ (
      record s {
        outside = (env.l2_get key s.outside).1;
        metrics = record (s.metrics) { l2_errors = add_int64 s.metrics.l2_errors 1 };
      },
      none,
    )
    | RemoteRead.absent ↦ (
      record s {
        outside = (env.l2_get key s.outside).1;
        metrics = record (s.metrics) { l2_misses = add_int64 s.metrics.l2_misses 1 };
      },
      none,
    )
    | RemoteRead.found bytes ↦ elim (env.unmarshal bytes) [
      | none ↦ (record s { outside = (env.l2_get key s.outside).1 }, none)
      | some entry ↦ (
        record s {
          outside = (env.l2_get key s.outside).1;
          l1_cache = L1Cache.set (clock 3) key entry.value (entry.expires_at -ℤ clock 2) s.l1_cache;
          metrics = record (s.metrics) { l2_hits = add_int64 s.metrics.l2_hits 1 };
        },
        some (record entry { source = codes "l2" }),
      )
    ]
  ]

  -- What is done with the bytes of a fetched value.
  unfoldable pub store_fetched : (ℕ → ℤ) → Bytes → Bytes → Service S → Service S × CacheEntry
  store_fetched clock key bytes s =
      let entry : CacheEntry = record {
        value = bytes;
        cached_at = clock 6;
        expires_at = clock 4 +ℤ s.default_ttl;
        source = codes "origin";
      } in
      (
        record s {
          l1_cache = L1Cache.set (clock 5) key bytes s.default_ttl s.l1_cache;
          pending =
              if uses_l2 s
              then s.pending ++ record { key = key; entry = entry; ttl = s.default_ttl } ∷ []
              else s.pending;
        },
        entry,
      )

  -- The second half of `fetchWithFallback`.
  unfoldable pub fetch_origin :
      (ℕ → ℤ) → Bytes → Service S → Service S × Option CacheEntry × Option Error
  fetch_origin clock key s = elim s.origin_fetch [
    | false ↦ (s, none, some no_origin)
    | true ↦
        let s' : Service S = record s { outside = (env.fetch key s.outside).1 } in
        elim ((env.fetch key s.outside).0) [
          | none ↦ (s', none, some origin_failed)
          | some value ↦ elim (env.marshal_value value) [
            | none ↦ (s', none, some marshal_failed)
            | some bytes ↦ (
              (store_fetched clock key bytes s').0,
              some (store_fetched clock key bytes s').1,
              none,
            )
          ]
        ]
  ]

  unfoldable pub fetch_with_fallback :
      (ℕ → ℤ) → Bytes → Service S → Service S × Option CacheEntry × Option Error
  fetch_with_fallback clock key s = elim (uses_l2 s) [
    | false ↦ fetch_origin clock key s
    | true ↦ elim ((fetch_l2 clock key s).1) [
      | some entry ↦ ((fetch_l2 clock key s).0, some entry, none)
      | none ↦ fetch_origin clock key (fetch_l2 clock key s).0
    ]
  ]

  -- The part of `Get` behind an L1 miss, with the fetch that `coalescer.Do` runs for its first caller.
  unfoldable pub get_missed :
      (ℕ → ℤ) → Bytes → Service S → Service S × Option GetResponse × Option Error
  get_missed clock key s =
      let (s', entry?, error?) = fetch_with_fallback clock key s in
      elim entry? [
        | some entry ↦ (s', some (response_of entry), none)
        | none ↦ (
          record s' { metrics = record (s'.metrics) { misses = add_int64 s'.metrics.misses 1 } },
          some no_hit,
          error?,
        )
      ]

  unfoldable pub get : (ℕ → ℤ) → Bytes → Service S → Service S × Option GetResponse × Option Error
  get clock key s =
      if is_empty key
      then (s, none, some empty_key)
      else elim ((L1Cache.get (clock 1) key s.l1_cache).1) [
        | some entry ↦ (
          record s {
            l1_cache = (L1Cache.get (clock 1) key s.l1_cache).0;
            metrics = record (s.metrics) { hits = add_int64 s.metrics.hits 1 };
          },
          some (record (response_of entry) { source = codes "l1" }),
          none,
        )
        | none ↦
            get_missed clock key (record s { l1_cache = (L1Cache.get (clock 1) key s.l1_cache).0 })
      ]

  -- The write-through of `Set`.
  unfoldable pub write_through : (ℕ → ℤ) → Bytes → Bytes → ℤ → Service S → Service S × Option Error
  write_through clock key value ttl s =
      elim (env.marshal
        (record { value = value; cached_at = clock 2; expires_at = clock 0 +ℤ ttl; source = [] })) [
          | none ↦ (s, some marshal_failed)
          | some bytes ↦
              let s' : Service S = record s { outside = (env.l2_set key bytes ttl s.outside).1 } in
              if (env.l2_set key bytes ttl s.outside).0 then (s', none) else (
                record s' {
                  metrics = record (s.metrics) { l2_errors = add_int64 s.metrics.l2_errors 1 };
                },
                none,
              )
        ]

  abbrev pub ttl_of : ℤ → Service S → ℤ
  ttl_of ttl s = if ltb_ℤ (pos 0) ttl then int64 (ttl *ℤ second) else s.default_ttl

  -- `Set` behind its checks, with the time to live that it chose.
  unfoldable pub set_checked :
      (ℕ → ℤ) → Bytes → Bytes → ℤ → Service S → Service S × Option SetResponse × Option Error
  set_checked clock key value ttl s =
      let s' : Service S = record s {
        l1_cache = L1Cache.set (clock 1) key value ttl s.l1_cache;
        metrics = record (s.metrics) { sets = add_int64 s.metrics.sets 1 };
      } in
      let done : SetResponse = record { success = true; expires_at = clock 0 +ℤ ttl } in
      elim (uses_l2 s) [
        | false ↦ (s', some done, none)
        | true ↦ elim ((write_through clock key value ttl s').1) [
          | none ↦ ((write_through clock key value ttl s').0, some done, none)
          | some e ↦ ((write_through clock key value ttl s').0, none, some e)
        ]
      ]

  unfoldable pub set :
      (ℕ → ℤ) → Bytes → SetRequest → Service S → Service S × Option SetResponse × Option Error
  set clock key req s =
      if is_empty key
      then (s, none, some empty_key)
      else if is_empty req.value
      then (s, none, some empty_value)
      else set_checked clock key req.value (ttl_of req.ttl s) s
