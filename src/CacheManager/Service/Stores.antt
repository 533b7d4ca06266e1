-- ===== src/CacheManager/Service/Stores.antt =====
-- `Get` and `fetchWithFallback` of cache-manager/service.go: what they leave in L1.
use distributed_caching_syst.Prelude.{
  ℕ, ◌≡◌, true, none, some, inl, inr, Bool-cases, Option-cases, arith,
}
use distributed_caching_syst.Prelude.Int.{ℤ, ◌+ℤ◌, ◌-ℤ◌}
use distributed_caching_syst.GoString.{Bytes, bytes_key}
use distributed_caching_syst.GoMap.{lookup}
use distributed_caching_syst.CacheManager.L1Cache
use distributed_caching_syst.CacheManager.L1Cache.{L1Cache, CacheEntry, after, hour, get_finish}
use distributed_caching_syst.CacheManager.L1Cache.View.{view}
use distributed_caching_syst.CacheManager.L1Cache.Refine.{IsValid, view-set}
use distributed_caching_syst.CacheManager.Service.{
  Service, Environment, GetResponse, is_empty, uses_l2, get, get_missed, fetch_with_fallback,
  fetch_l2, fetch_origin, store_fetched,
}
use distributed_caching_syst.CacheManager.Service.Replies.{lookup-put_self, get-IsValid, get-keeps}

module _ {S V : Type 0} (env : Environment S V) where
  -- L1 is filled from L2 with the rest of the entry's time to live.
  fetch_l2-l1 :
      (clock : ℕ → ℤ) (key : Bytes) (s : Service S) (entry : CacheEntry)
      → (fetch_l2 env clock key s).1 ≡ some entry
      → (fetch_l2 env clock key s).0.l1_cache
        ≡ L1Cache.set (clock 3) key entry.value (entry.expires_at -ℤ clock 2) s.l1_cache
  unfolding fetch_l2
  fetch_l2-l1 clock key s entry e = ground arith

  fetch_l2-l1_none :
      (clock : ℕ → ℤ) (key : Bytes) (s : Service S)
      → (fetch_l2 env clock key s).1 ≡ none
      → (fetch_l2 env clock key s).0.l1_cache ≡ s.l1_cache
  unfolding fetch_l2
  fetch_l2-l1_none clock key s e = ground arith

  fetch_origin-l1 :
      (clock : ℕ → ℤ) (key : Bytes) (s : Service S) (entry : CacheEntry)
      → (fetch_origin env clock key s).1 ≡ some entry
      → (fetch_origin env clock key s).0.l1_cache
        ≡ L1Cache.set (clock 5) key entry.value s.default_ttl s.l1_cache
  unfolding fetch_origin store_fetched
  fetch_origin-l1 clock key s entry e = ground arith

  -- L1 after a fetch that succeeded is L1 with the value set.
  fetch-sets :
      (clock : ℕ → ℤ) (key : Bytes) (s : Service S) (entry : CacheEntry)
      → (fetch_with_fallback env clock key s).1 ≡ some entry
      → (now ttl : ℤ) × ((fetch_with_fallback env clock key s).0.l1_cache
          ≡ L1Cache.set now key entry.value ttl s.l1_cache)
  fetch-sets clock key s entry e = elim (Bool-cases (uses_l2 env s)) [
    | inl on ↦ elim (Option-cases (fetch_l2 env clock key s).1) [
      | inl miss ↦ (
        clock 5,
        (fetch_l2 env clock key s).0.default_ttl,
        unfold fetch_with_fallback in
            ground (
              arith,
              fetch_origin-l1 clock key (fetch_l2 env clock key s).0 entry,
              fetch_l2-l1_none clock key s,
            ),
      )
      | inr (found, hit) ↦ (
        clock 3,
        entry.expires_at -ℤ clock 2,
        unfold fetch_with_fallback in ground (arith, fetch_l2-l1 clock key s entry),
      )
    ]
    | inr off ↦ (
      clock 5,
      s.default_ttl,
      unfold fetch_with_fallback in ground (arith, fetch_origin-l1 clock key s entry),
    )
  ]

  set-stores :
      {c : L1Cache}
      → IsValid c
      → (now : ℤ) (key value : Bytes) (ttl : ℤ)
      → (expires_at : ℤ) × (lookup key (view (L1Cache.set now key value ttl c))
          ≡ some (value, expires_at))
  set-stores {c} valid now key value ttl = (
    now +ℤ ttl,
    rw (view-set valid now key value ttl)
        (lookup-put_self c.max_entries key (value, now +ℤ ttl) (view c)),
  )

  missed-stores :
      (clock : ℕ → ℤ) (key : Bytes) (s : Service S) (r : GetResponse)
      → IsValid s.l1_cache
      → (get_missed env clock key s).1 ≡ some r
      → r.hit ≡ true
      → (expires_at : ℤ) × (lookup key (view (get_missed env clock key s).0.l1_cache)
          ≡ some (r.value, expires_at))
  missed-stores clock key s r valid e h =
      elim (Option-cases (fetch_with_fallback env clock key s).1) [
        | inl failed ↦ absurd (unfold get_missed in ground arith)
        | inr (entry, fetched) ↦
            let (now, ttl, l1) = fetch-sets clock key s entry fetched in
            let (expires_at, stored) = set-stores valid now key entry.value ttl in
            (expires_at, unfold get_missed in ground arith)
      ]

  -- On a valid L1 cache, a `Get` that replies a hit leaves the value that it replied in L1,
  -- wherever the value came from.
  pub get-stores :
      (clock : ℕ → ℤ) (key : Bytes) (s : Service S) (r : GetResponse)
      → IsValid s.l1_cache
      → (get env clock key s).1 ≡ some r
      → r.hit ≡ true
      → (expires_at : ℤ) × (lookup key (view (get env clock key s).0.l1_cache)
          ≡ some (r.value, expires_at))
  get-stores clock key s r valid e h = elim (Bool-cases (is_empty key)) [
    | inl empty ↦ absurd (unfold get in ground arith)
    | inr given ↦ elim (Option-cases (L1Cache.get (clock 1) key s.l1_cache).1) [
      | inl miss ↦
          let s' : Service S = record s { l1_cache = (L1Cache.get (clock 1) key s.l1_cache).0 } in
          let (expires_at, stored) =
            missed-stores clock key s' r (get-IsValid valid (clock 1) key)
              (unfold get in ground arith) h in
          (expires_at, unfold get in ground arith)
      | inr (entry, found) ↦
          (entry.expires_at, unfold get in ground (arith, get-keeps valid (clock 1) key entry))
    ]
  ]
