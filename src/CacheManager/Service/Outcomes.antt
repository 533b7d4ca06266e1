-- ===== src/CacheManager/Service/Outcomes.antt =====
-- How `Get` of cache-manager/service.go ends, and what it counts.
use distributed_caching_syst.Prelude.{
  ℕ, ◌≡◌, refl, true, false, Option, none, some, inl, inr, ◌⊎◌, Bool-cases, Option-cases, arith,
}
use distributed_caching_syst.Prelude.Int.{ℤ}
use distributed_caching_syst.GoString.{Bytes, codes, bytes_key}
use distributed_caching_syst.CacheManager.L1Cache
use distributed_caching_syst.CacheManager.L1Cache.{L1Cache, CacheEntry, after, hour, get_finish}
use distributed_caching_syst.CacheManager.Service.{
  Service, Environment, Error, no_origin, origin_failed, marshal_failed, GetResponse, is_empty,
  add_int64, no_hit, response_of, uses_l2, get, get_missed, fetch_with_fallback, fetch_l2,
  fetch_origin, store_fetched,
}

-- How a `Get` with a key ends: with a hit and no error, or with an error and no hit.
abbrev pub Answers :
    {S : Type 0} → Service S → Service S × Option GetResponse × Option Error → Type 0
Answers s out =
    (out.2 ≡ none)
    × ((r : GetResponse) × (out.1 ≡ some r) × (r.hit ≡ true))
    × (out.0.metrics.misses ≡ s.metrics.misses)

abbrev pub Fails : {S : Type 0} → Service S → Service S × Option GetResponse × Option Error → Type 0
Fails s out =
    ((e : Error) × (out.2 ≡ some e))
    × (out.1 ≡ some no_hit)
    × (out.0.metrics.misses ≡ add_int64 s.metrics.misses 1)

module _ {S V : Type 0} (env : Environment S V) where
  fetch_l2-misses :
      (clock : ℕ → ℤ) (key : Bytes) (s : Service S)
      → (fetch_l2 env clock key s).0.metrics.misses ≡ s.metrics.misses
  unfolding fetch_l2
  fetch_l2-misses clock key s = ground arith

  fetch_origin-failed :
      (clock : ℕ → ℤ) (key : Bytes) (s : Service S)
      → (fetch_origin env clock key s).1 ≡ none
      → ((e : Error) × ((fetch_origin env clock key s).2 ≡ some e))
        × ((fetch_origin env clock key s).0.metrics.misses ≡ s.metrics.misses)
  unfolding fetch_origin
  fetch_origin-failed clock key s e = elim (Bool-cases s.origin_fetch) [
    | inl there ↦ elim (Option-cases (env.fetch key s.outside).0) [
      | inl failed ↦ ((origin_failed, ground arith), ground arith)
      | inr (value, fetched) ↦ ((marshal_failed, ground arith), ground arith)
    ]
    | inr absent ↦ ((no_origin, ground arith), ground arith)
  ]

  fetch-failed :
      (clock : ℕ → ℤ) (key : Bytes) (s : Service S)
      → (fetch_with_fallback env clock key s).1 ≡ none
      → ((e : Error) × ((fetch_with_fallback env clock key s).2 ≡ some e))
        × ((fetch_with_fallback env clock key s).0.metrics.misses ≡ s.metrics.misses)
  fetch-failed clock key s e = elim (Bool-cases (uses_l2 env s)) [
    | inl on ↦
        let ((why, said), counted) =
          fetch_origin-failed clock key (fetch_l2 env clock key s).0
            (unfold fetch_with_fallback in ground arith) in
        (
          (why, unfold fetch_with_fallback in ground arith),
          unfold fetch_with_fallback in ground (arith, fetch_l2-misses clock key s),
        )
    | inr off ↦
        let ((why, said), counted) =
          fetch_origin-failed clock key s (unfold fetch_with_fallback in ground arith) in
        (
          (why, unfold fetch_with_fallback in ground arith),
          unfold fetch_with_fallback in ground arith,
        )
  ]

  fetch_origin-misses :
      (clock : ℕ → ℤ) (key : Bytes) (s : Service S)
      → (fetch_origin env clock key s).0.metrics.misses ≡ s.metrics.misses
  unfolding fetch_origin store_fetched
  fetch_origin-misses clock key s = ground arith

  fetch-misses :
      (clock : ℕ → ℤ) (key : Bytes) (s : Service S)
      → (fetch_with_fallback env clock key s).0.metrics.misses ≡ s.metrics.misses
  unfolding fetch_with_fallback
  fetch-misses clock key s = ground (
    arith,
    fetch_l2-misses clock key s,
    fetch_origin-misses clock key s,
    fetch_origin-misses clock key (fetch_l2 env clock key s).0,
  )

  missed_outcomes :
      (clock : ℕ → ℤ) (key : Bytes) (s : Service S)
      → Answers s (get_missed env clock key s) ⊎ Fails s (get_missed env clock key s)
  missed_outcomes clock key s = elim (Option-cases (fetch_with_fallback env clock key s).1) [
    | inl failed ↦
        let ((why, said), counted) = fetch-failed clock key s failed in
        inr (
          (why, unfold get_missed in ground arith),
          unfold get_missed in ground arith,
          unfold get_missed in ground arith,
        )
    | inr (entry, fetched) ↦ inl (
      unfold get_missed in ground arith,
      (response_of entry, unfold get_missed in ground arith, refl),
      unfold get_missed in ground (arith, fetch-misses clock key s),
    )
  ]

  -- A `Get` with a key replies a hit and no error, or it replies an error and no hit and counts a miss; a
  -- read that is answered, by L2 and the origin too, leaves the counter of misses as it was.
  pub get_outcomes :
      (clock : ℕ → ℤ) (key : Bytes) (s : Service S)
      → is_empty key ≡ false
      → Answers s (get env clock key s) ⊎ Fails s (get env clock key s)
  get_outcomes clock key s given = elim (Option-cases (L1Cache.get (clock 1) key s.l1_cache).1) [
    | inl miss ↦
        elim (missed_outcomes clock key
          (record s { l1_cache = (L1Cache.get (clock 1) key s.l1_cache).0 })) [
            | inl good ↦ inl (rw (to_missed miss) good)
            | inr bad ↦ inr (rw (to_missed miss) bad)
          ]
    | inr (entry, found) ↦ inl (
      unfold get in ground arith,
      (record (response_of entry) { source = codes "l1" }, unfold get in ground arith, refl),
      unfold get in ground arith,
    )
  ]
    where
      to_missed :
          (L1Cache.get (clock 1) key s.l1_cache).1 ≡ none
          → get env clock key s
            ≡ get_missed env clock key
                (record s { l1_cache = (L1Cache.get (clock 1) key s.l1_cache).0 })
      to_missed miss = unfold get in ground arith
