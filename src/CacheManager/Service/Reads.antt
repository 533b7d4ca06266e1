-- ===== src/CacheManager/Service/Reads.antt =====
-- `Get` after `Set` in cache-manager/service.go.
use distributed_caching_syst.Prelude.{
  ℕ, ◌≡◌, refl, true, false, none, some, inl, inr, Option-cases, arith,
}
use mathlib.Core.Option
use distributed_caching_syst.Prelude.Int.{ℤ, ◌+ℤ◌, ◌-ℤ◌}
use distributed_caching_syst.GoString.{Bytes, codes, bytes_key}
use distributed_caching_syst.GoMap.{lookup}
use distributed_caching_syst.CacheManager.L1Cache
use distributed_caching_syst.CacheManager.L1Cache.{L1Cache, CacheEntry, after, hour, get_finish}
use distributed_caching_syst.CacheManager.L1Cache.Rows.{Row}
use distributed_caching_syst.CacheManager.L1Cache.View.{view, reply_row}
use distributed_caching_syst.CacheManager.L1Cache.Refine.{IsValid, view-set}
use distributed_caching_syst.CacheManager.Service.{
  Service, Environment, GetResponse, SetRequest, is_empty, ttl_of, add_int64, response_of, get, set,
  set_checked, write_through,
}
use distributed_caching_syst.CacheManager.Service.Replies.{
  lookup-put_self, get_live, get_reply, set-IsValid,
}

module _ {S V : Type 0} (env : Environment S V) where
  write_through-l1 :
      (clock : ℕ → ℤ) (key value : Bytes) (ttl : ℤ) (s : Service S)
      → (write_through env clock key value ttl s).0.l1_cache ≡ s.l1_cache
  unfolding write_through
  write_through-l1 clock key value ttl s = ground arith

  -- Whatever becomes of L2, `Set` with a key and a value has written L1.
  set-l1 :
      (clock : ℕ → ℤ) (key : Bytes) (req : SetRequest) (s : Service S)
      → is_empty key ≡ false
      → is_empty req.value ≡ false
      → (set env clock key req s).0.l1_cache
        ≡ L1Cache.set (clock 1) key req.value (ttl_of env req.ttl s) s.l1_cache
  unfolding set set_checked
  set-l1 clock key req s hk hv = ground (
    arith,
    write_through-l1 clock key req.value (ttl_of env req.ttl s) (record s {
      l1_cache = L1Cache.set (clock 1) key req.value (ttl_of env req.ttl s) s.l1_cache;
      metrics = record (s.metrics) { sets = add_int64 s.metrics.sets 1 };
    }),
  )

  -- A hit in L1 answers from there, leaves the outside alone and counts a hit.
  get_hit :
      (clock : ℕ → ℤ) (key : Bytes) (s : Service S) (r : Row)
      → is_empty key ≡ false
      → Option.map reply_row (L1Cache.get (clock 1) key s.l1_cache).1 ≡ some r
      → (entry : CacheEntry) × (reply_row entry ≡ r)
        × ((get env clock key s).1
            ≡ some (record (response_of entry) {
              cached_at = some (entry.expires_at -ℤ hour);
              source = codes "l1";
            }))
        × ((get env clock key s).2 ≡ none)
        × ((get env clock key s).0.outside ≡ s.outside)
        × ((get env clock key s).0.metrics
            ≡ record (s.metrics) { hits = add_int64 s.metrics.hits 1 })
  get_hit clock key s r hk e = elim (Option-cases (L1Cache.get (clock 1) key s.l1_cache).1) [
    | inl miss ↦ absurd (ground arith)
    | inr (entry, found) ↦
        let shape = get_reply (clock 1) key s.l1_cache entry found in
        (
          entry,
          ground arith,
          unfold get in ground arith,
          unfold get in ground arith,
          unfold get in ground arith,
          unfold get in ground arith,
        )
  ]

  -- Read your writes: on a valid L1 cache, after a `Set` of a key and a value that are not empty,
  -- a `Get` of the key before the value expires replies the value as an L1 hit and changes nothing
  -- outside, also where the write-through to L2 failed.
  pub get-set :
      (clock clock' : ℕ → ℤ) (key : Bytes) (req : SetRequest) (s : Service S)
      → IsValid s.l1_cache
      → is_empty key ≡ false
      → is_empty req.value ≡ false
      → after (clock' 1) (clock 1 +ℤ ttl_of env req.ttl s) ≡ false
      → (r : GetResponse) × ((get env clock' key (set env clock key req s).0).1 ≡ some r)
        × (r.value ≡ req.value)
        × (r.hit ≡ true)
        × (r.source ≡ codes "l1")
        × (r.expires_at ≡ some (clock 1 +ℤ ttl_of env req.ttl s))
        × ((get env clock' key (set env clock key req s).0).0.outside
            ≡ (set env clock key req s).0.outside)
  get-set clock clock' key req s valid hk hv live =
      let s' = (set env clock key req s).0 in
      let l1 = set-l1 clock key req s hk hv in
      let expires_at = clock 1 +ℤ ttl_of env req.ttl s in
      let valid' : IsValid s'.l1_cache =
        rw l1 (set-IsValid valid (clock 1) key req.value (ttl_of env req.ttl s)) in
      let stored : lookup key (view s'.l1_cache) ≡ some (req.value, expires_at) =
        rw (l1, view-set valid (clock 1) key req.value (ttl_of env req.ttl s))
          (lookup-put_self s.l1_cache.max_entries key (req.value, expires_at) (view s.l1_cache)) in
      let (entry, e, response, _, outside, _) =
        get_hit clock' key s' (req.value, expires_at) hk
          (get_live valid' (clock' 1) key (req.value, expires_at) stored live) in
      (_, response, ground arith, refl, refl, ground arith, outside)
