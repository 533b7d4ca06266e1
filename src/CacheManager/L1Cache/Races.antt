-- ===== src/CacheManager/L1Cache/Races.antt =====
-- `Get` of cache-manager/cache.go releases its lock between the reading of an entry and the removal of
-- an expired one; here a `Set` of another goroutine runs in between.
use distributed_caching_syst.Prelude.{◌≡◌, arith, true, some, none}
use distributed_caching_syst.Prelude.Int.{ℤ}
use distributed_caching_syst.GoString.{Bytes, bytes_key, bytes_eq_iff}
use distributed_caching_syst.GoMap.{lookup, lookup-delete}
use distributed_caching_syst.CacheManager.L1Cache.{L1Cache, LruEntry, after, set, get_finish}
use distributed_caching_syst.CacheManager.L1Cache.View.{view, view-delete_unsafe, view-Distinct}
use distributed_caching_syst.CacheManager.L1Cache.Links.{IsLinked}
use distributed_caching_syst.CacheManager.L1Cache.Steps.{set-IsLinked}

-- On a linked cache, a `Get` that has found an expired entry and then waits for the lock while a
-- `Set` of the same key runs removes the row that the `Set` stored, whatever its time to live, and
-- replies a miss.
pub get_finish-set :
    {c : L1Cache} (now later : ℤ) (key value : Bytes) (ttl : ℤ) (stale : LruEntry)
    → IsLinked c
    → lookup key c.cache ≡ some stale
    → after now stale.expires_at ≡ true
    → (lookup key (view (get_finish now key stale (set later key value ttl c)).0) ≡ none)
      × ((get_finish now key stale (set later key value ttl c)).1 ≡ none)
unfolding get_finish
get_finish-set {c} now later key value ttl stale inv found old = (
  ground (
    arith,
    view-delete_unsafe linked key,
    lookup-delete key key (view (set later key value ttl c)) (view-Distinct linked),
    bytes_eq_iff key key,
  ),
  ground arith,
)
  where
    linked : IsLinked (set later key value ttl c)
    linked = set-IsLinked later key value ttl inv
