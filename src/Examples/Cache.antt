-- ===== src/Examples/Cache.antt =====
-- The L1 cache on concrete inputs.
use distributed_caching_syst.Prelude.{nat_eq, ◌≡◌, refl, none, List, [], ◌∷◌}
use distributed_caching_syst.Prelude.Int.{pos, ◌+ℤ◌, ◌-ℤ◌}
use distributed_caching_syst.GoMap.{lookup, insert, delete}
use distributed_caching_syst.GoString.{codes, bytes_key, has_prefix, has_suffix, trim_suffix}
use distributed_caching_syst.CacheManager.L1Cache
use distributed_caching_syst.CacheManager.L1Cache.{L1Cache, after, LruEntry}
use distributed_caching_syst.CacheManager.L1Cache.Rows.{rows}
use distributed_caching_syst.CacheManager.L1Cache.View.{view, capacity}
use distributed_caching_syst.CacheManager.L1Cache.Refine.{IsValid}
use distributed_caching_syst.CacheManager.L1Cache.Runs.{Call, run, run_spec, call, run-spec}
use distributed_caching_syst.CacheManager.L1Cache.Races.{get_finish-set}

-- What a test that runs the L1 cache unfolds.
unfoldable pub running : Unit {0}
unfolding L1Cache.new L1Cache.move_to_front L1Cache.back L1Cache.delete_unsafe L1Cache.remove
    L1Cache.get_finish L1Cache.get L1Cache.evict_lru_unsafe L1Cache.push_entry L1Cache.make_room
    L1Cache.update_entry L1Cache.set L1Cache.delete_keys L1Cache.matches_pattern L1Cache.keys_where
    L1Cache.delete_pattern L1Cache.cleanup_expired L1Cache.size L1Cache.clear lookup insert delete
    ◌+ℤ◌ ◌-ℤ◌ has_prefix has_suffix trim_suffix rows run call
running = tt

-- Two places: "b" is read, so the third key pushes "a" out.
abbrev pub three_keys : List Call
three_keys =
    Call.set (pos 0) (codes "a") (codes "1") (pos 10)
    ∷ Call.set (pos 0) (codes "b") (codes "2") (pos 20)
    ∷ Call.get (pos 1) (codes "a")
    ∷ Call.get (pos 1) (codes "b")
    ∷ Call.set (pos 2) (codes "c") (codes "3") (pos 30)
    ∷ []

abbrev pub filled : L1Cache
filled = (run three_keys (L1Cache.new (pos 2))).0

filled_rows : view filled ≡ (codes "c", (codes "3", pos 32)) ∷ (codes "b", (codes "2", pos 20)) ∷ []
unfolding running
filled_rows = refl

run-spec_example :
    IsValid (run three_keys (L1Cache.new (pos 2))).0
    × ((view (run three_keys (L1Cache.new (pos 2))).0, (run three_keys (L1Cache.new (pos 2))).1)
        ≡ run_spec (capacity (pos 2)) three_keys [])
run-spec_example = run-spec (pos 2) three_keys

pub filled-IsValid : IsValid filled
filled-IsValid = (run-spec (pos 2) three_keys).0

abbrev stale : LruEntry
stale = record { key = codes "b"; value = codes "2"; expires_at = pos 20; element = 1 }

get_finish-set_example :
    (lookup (codes "b") (
        view
          (L1Cache.get_finish
            (pos 25)
            (codes "b")
            stale
            (L1Cache.set (pos 26) (codes "b") (codes "9") (pos 1000) filled)).0)
      ≡ none)
    × ((L1Cache.get_finish
          (pos 25)
          (codes "b")
          stale
          (L1Cache.set (pos 26) (codes "b") (codes "9") (pos 1000) filled)).1
        ≡ none)
unfolding running
get_finish-set_example =
    get_finish-set (pos 25) (pos 26) (codes "b") (codes "9") (pos 1000) stale filled-IsValid.linked
      refl refl
