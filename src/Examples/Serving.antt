-- ===== src/Examples/Serving.antt =====
-- The cache service on concrete inputs: an L2 cache as an association list, an origin that knows
-- every key, and a list of the events that were published.
use distributed_caching_syst.Prelude.{
  nat_eq, ℕ, ◌+◌, ◌≡◌, refl, true, false, not, ◌⊎◌, Option, some, none, List, [], ◌∷◌, filter,
  length, if◌then◌else◌, ltb,
}
use distributed_caching_syst.Prelude.Int.{ℤ, pos, ◌+ℤ◌}
use distributed_caching_syst.GoMap.{lookup, insert, delete}
use distributed_caching_syst.GoString.{Bytes, codes, bytes_key}
use distributed_caching_syst.CacheManager.L1Cache.View.{view}
use distributed_caching_syst.CacheManager.Service
use distributed_caching_syst.CacheManager.Service.{
  Environment, Service, InvalidationEvent, RemoteRead, Metrics, GetResponse, SetRequest,
  InvalidateRequest, ttl_of, add_int64,
}
use distributed_caching_syst.CacheManager.Service.Events.{
  invalidate, event_of, handle_invalidate_event,
}
use distributed_caching_syst.CacheManager.Service.Effects.{
  names, handle-eq-invalidate, invalidate-filter, invalidate-publishes,
}
use distributed_caching_syst.CacheManager.Service.Reads.{get-set}
use distributed_caching_syst.CacheManager.Service.Stores.{get-stores}
use distributed_caching_syst.CacheManager.Service.Outcomes.{Answers, Fails, get_outcomes}
use distributed_caching_syst.Examples.Cache.{running, filled, filled-IsValid}

record World : Type 0 where
  l2 : List (Bytes × Bytes)
  events : List InvalidationEvent

abbrev found? : Option Bytes → RemoteRead
found? none = RemoteRead.absent
found? (some bytes) = RemoteRead.found bytes

abbrev world : Environment World Bytes
world = record {
  l2_get = λ key w. (found? (lookup key w.l2), w);
  l2_set = λ key bytes ttl w. (true, record w { l2 = insert key bytes w.l2 });
  l2_delete = λ key w. record w { l2 = delete key w.l2 };
  l2_delete_pattern = λ pattern w. w;
  fetch = λ key w. (some key, w);
  marshal_value = λ value. some value;
  marshal = λ entry. some entry.value;
  unmarshal = λ bytes.
      some (record { value = bytes; cached_at = pos 0; expires_at = pos 500; source = [] });
  publish = λ event w. record w { events = event ∷ w.events };
}

abbrev service : Service World
service = record {
  l1_cache = filled;
  l2_cache = false;
  origin_fetch = true;
  metrics = record {
    hits = 0;
    misses = 0;
    sets = 0;
    deletes = 0;
    evictions = 0;
    l2_hits = 0;
    l2_misses = 0;
    l2_errors = 0;
  };
  default_ttl = pos 100;
  l2_enabled = false;
  pending = [];
  outside = record { l2 = []; events = [] };
}

-- The i-th reading of the clock.
abbrev clock : ℕ → ℤ
clock i = pos (5 + i)

abbrev request : SetRequest
request = record { value = codes "7"; ttl = pos 0 }

abbrev drop_b : InvalidateRequest
drop_b = record { keys = codes "b" ∷ []; pattern = codes "z*" }

get-set_example :
    (r : GetResponse) × ((Service.get world clock
        (codes "k")
        (Service.set world clock (codes "k") request service).0).1
      ≡ some r)
    × (r.value ≡ codes "7")
    × (r.hit ≡ true)
    × (r.source ≡ codes "l1")
    × (r.expires_at ≡ some (clock 1 +ℤ ttl_of world (pos 0) service))
    × ((Service.get world clock
          (codes "k")
          (Service.set world clock (codes "k") request service).0).0.outside
        ≡ (Service.set world clock (codes "k") request service).0.outside)
unfolding ◌+ℤ◌
get-set_example =
    get-set world clock clock (codes "k") request service filled-IsValid refl refl refl

abbrev fetched : GetResponse
fetched = record {
  value = codes "k";
  hit = true;
  source = codes "origin";
  cached_at = some (pos 11);
  expires_at = some (pos 109);
}

get-stores_example :
    (expires_at : ℤ) × (lookup
        (codes "k")
        (view (Service.get world clock (codes "k") service).0.l1_cache)
      ≡ some (codes "k", expires_at))
unfolding running Service.get Service.get_missed Service.fetch_with_fallback Service.fetch_origin
    Service.store_fetched
get-stores_example = get-stores world clock (codes "k") service fetched filled-IsValid refl refl

get_outcomes_example :
    Answers service (Service.get world clock (codes "k") service)
    ⊎ Fails service (Service.get world clock (codes "k") service)
get_outcomes_example = get_outcomes world clock (codes "k") service refl

handle-eq-invalidate_example :
    (handle_invalidate_event (event_of world drop_b) service).l1_cache
    ≡ (invalidate world drop_b service).0.l1_cache
handle-eq-invalidate_example = handle-eq-invalidate world drop_b service

invalidate-filter_example :
    (view (invalidate world drop_b service).0.l1_cache
      ≡ filter (λ x. not (names (event_of world drop_b) x.0)) (view filled))
    × ((invalidate world drop_b service).1.invalidated
        ≡ length (filter (λ x. names (event_of world drop_b) x.0) (view filled)))
invalidate-filter_example = invalidate-filter world drop_b service filled-IsValid.linked

invalidate-publishes_example : (invalidate world drop_b service).0.outside ≡ (
    if ltb 0 (length (filter (λ x. names (event_of world drop_b) x.0) (view filled)))
    then world.publish (event_of world drop_b) service.outside
    else service.outside)
invalidate-publishes_example = invalidate-publishes world drop_b service filled-IsValid.linked refl
