-- ===== src/CacheManager/Service/Events.antt =====
-- cache-manager/service.go, `Invalidate`, `GetMetrics` and the cleanup tick, and the event handlers of
-- cache-manager/subscriptions.go. `HitRate` is kept as the pair of counters that it divides.
use distributed_caching_syst.Prelude.{
  ℕ, suc, ◌+◌, ◌^◌, Bool, true, ◌&&◌, none, some, List, [], ◌∷◌, if◌then◌else◌, ltb,
}
use distributed_caching_syst.Prelude.Int.{ℤ, int64, pos, ◌*ℤ◌, leb_ℤ}
use distributed_caching_syst.GoString.{Bytes}
use distributed_caching_syst.CacheManager.L1Cache
use distributed_caching_syst.CacheManager.L1Cache.{L1Cache}
use distributed_caching_syst.CacheManager.Service.{
  Service, Environment, InvalidationEvent, RefreshEvent, InvalidateRequest, InvalidateResponse,
  Metrics, add_int64, is_empty, uses_l2, second,
}

pub record MetricsResponse : Type 0 where
  pub counters : Metrics
  pub hit_rate : ℕ × ℕ
  pub l1_size : ℕ

module _ {S V : Type 0} (env : Environment S V) where
  -- One round of the loop over `req.Keys`.
  unfoldable pub invalidate_key : Bytes → Service S → Service S × Bool
  invalidate_key key s = (
    record s {
      l1_cache = (L1Cache.remove key s.l1_cache).0;
      outside = if uses_l2 env s then env.l2_delete key s.outside else s.outside;
      metrics = record (s.metrics) { deletes = add_int64 s.metrics.deletes 1 };
    },
    (L1Cache.remove key s.l1_cache).1,
  )

  unfoldable pub invalidate_keys : List Bytes → Service S → Service S × ℕ
  invalidate_keys [] s = (s, 0)
  invalidate_keys (key ∷ keys) s =
      let (s', deleted) = invalidate_key key s in
      let (s'', count) = invalidate_keys keys s' in (s'', if deleted then suc count else count)

  -- The branch on `req.Pattern`.
  unfoldable pub invalidate_pattern : Bytes → Service S → Service S × ℕ
  invalidate_pattern pattern s =
      if is_empty pattern
      then (s, 0)
      else let (l1, deleted) = L1Cache.delete_pattern pattern s.l1_cache in
        (
          record s {
            l1_cache = l1;
            outside = if uses_l2 env s then env.l2_delete_pattern pattern s.outside else s.outside;
            metrics = record (s.metrics) { deletes = add_int64 s.metrics.deletes deleted };
          },
          deleted,
        )

  -- The event that `Invalidate` publishes.
  abbrev pub event_of : InvalidateRequest → InvalidationEvent
  event_of req = record { pattern = req.pattern; matched_keys = req.keys }

  unfoldable pub invalidate : InvalidateRequest → Service S → Service S × InvalidateResponse
  invalidate req s =
      let (s', by_key) = invalidate_keys req.keys s in
      let (s'', by_pattern) = invalidate_pattern req.pattern s' in
      let count = by_key + by_pattern in
      (
        (if ltb 0 count
            then record s'' { outside = env.publish (event_of req) s''.outside }
            else s''),
        record { invalidated = count; success = true },
      )

  -- The first goroutine that writes to L2 runs; `data, _ := json.Marshal(entry)` is nil on an error.
  unfoldable pub run_pending : Service S → Service S
  run_pending s = elim s.pending [
    | [] ↦ s
    | task ∷ tasks ↦ record s {
      pending = tasks;
      outside =
          (env.l2_set task.key (elim (env.marshal task.entry) [ none ↦ [] | some bytes ↦ bytes ])
            task.ttl s.outside).1;
    }
  ]

module _ {S : Type 0} where
  -- One tick of `runTTLCleanup`.
  unfoldable pub ttl_cleanup : ℤ → Service S → Service S
  ttl_cleanup now s =
      let (l1, evicted) = L1Cache.cleanup_expired now s.l1_cache in
      record s {
        l1_cache = l1;
        metrics = record (s.metrics) { evictions = add_int64 s.metrics.evictions evicted };
      }

  unfoldable pub get_metrics : Service S → MetricsResponse
  get_metrics s =
      let total = add_int64 s.metrics.hits s.metrics.misses in
      record {
        counters = s.metrics;
        hit_rate = if ltb 0 total && ltb total (2 ^ 63) then (s.metrics.hits, total) else (0, 1);
        l1_size = L1Cache.size s.l1_cache;
      }

  -- The loop over `event.MatchedKeys`.
  unfoldable pub handle_keys : List Bytes → Service S → Service S
  handle_keys [] s = s
  handle_keys (key ∷ keys) s = handle_keys keys (record s {
    l1_cache = (L1Cache.remove key s.l1_cache).0;
    metrics = record (s.metrics) { deletes = add_int64 s.metrics.deletes 1 };
  })

  unfoldable pub handle_invalidate_event : InvalidationEvent → Service S → Service S
  handle_invalidate_event event s =
      let s' = handle_keys event.matched_keys s in
      if is_empty event.pattern
      then s'
      else let (l1, deleted) = L1Cache.delete_pattern event.pattern s'.l1_cache in
        record s' {
          l1_cache = l1;
          metrics = record (s'.metrics) { deletes = add_int64 s'.metrics.deletes deleted };
        }

  -- The goroutine that the handler starts for L2 stores nothing.
  unfoldable pub handle_refresh_event : ℤ → RefreshEvent → Service S → Service S
  handle_refresh_event now event s =
      let given = int64 (event.ttl *ℤ second) in
      let ttl = if leb_ℤ given (pos 0) && leb_ℤ (pos 0) given then s.default_ttl else given in
      record s { l1_cache = L1Cache.set now event.key event.value ttl s.l1_cache }
