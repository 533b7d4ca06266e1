-- ===== src/CacheManager/Service/Effects.antt =====
-- Invalidation in cache-manager/service.go and cache-manager/subscriptions.go: at the instance that
-- serves the request and at one that handles the event.
use distributed_caching_syst.Prelude.{
  ◌+◌, ◌≡◌, refl, sym, ◌∙◌, ap, Bool, false, not, ◌&&◌, ◌||◌, List, [], ◌∷◌, if◌then◌else◌,
  if_cases, inl, inr, Bool-cases, ltb, arith, length, filter,
}
use distributed_caching_syst.GoString.{Bytes, bytes_key}
use distributed_caching_syst.CacheManager.L1Cache
use distributed_caching_syst.CacheManager.L1Cache.{L1Cache}
use distributed_caching_syst.CacheManager.L1Cache.Links.{IsLinked}
use distributed_caching_syst.CacheManager.L1Cache.Steps.{
  delete_keys-IsLinked, delete_pattern-IsLinked,
}
use distributed_caching_syst.CacheManager.L1Cache.View.{view}
use distributed_caching_syst.CacheManager.L1Cache.Bulk.{
  member, matched, key_matches, delete_keys-filter, delete_keys-count, delete_pattern-filter,
  filter-filter, filter_ext, filter_twice, All-rows, length-filter-not,
}
use distributed_caching_syst.CacheManager.Service.{uses_l2}
use distributed_caching_syst.CacheManager.Service.{
  Service, Environment, InvalidationEvent, InvalidateRequest, is_empty,
}
use distributed_caching_syst.CacheManager.Service.Events.{
  invalidate_key, invalidate_keys, invalidate_pattern, invalidate, event_of, handle_keys,
  handle_invalidate_event,
}

-- The L1 cache after the event, as a function of the L1 cache before it.
pub purge : InvalidationEvent → L1Cache → L1Cache
purge event c =
    let c' = (L1Cache.delete_keys event.matched_keys c).0 in
    if is_empty event.pattern then c' else (L1Cache.delete_pattern event.pattern c').0

handle_keys-l1 :
    {S : Type 0} (keys : List Bytes) (s : Service S)
    → (handle_keys keys s).l1_cache ≡ (L1Cache.delete_keys keys s.l1_cache).0
unfolding handle_keys L1Cache.delete_keys L1Cache.remove
handle_keys-l1 [] s = refl
handle_keys-l1 (key ∷ keys) s = handle_keys-l1 keys _

handle-purge :
    {S : Type 0} (event : InvalidationEvent) (s : Service S)
    → (handle_invalidate_event event s).l1_cache ≡ purge event s.l1_cache
unfolding handle_invalidate_event purge
handle-purge event s = ground (arith, handle_keys-l1 event.matched_keys s)

module _ {S V : Type 0} (env : Environment S V) where
  invalidate_keys-l1 :
      (keys : List Bytes) (s : Service S)
      → ((invalidate_keys env keys s).0.l1_cache ≡ (L1Cache.delete_keys keys s.l1_cache).0)
        × ((invalidate_keys env keys s).1 ≡ (L1Cache.delete_keys keys s.l1_cache).1)
  unfolding invalidate_keys invalidate_key L1Cache.delete_keys L1Cache.remove
  invalidate_keys-l1 [] s = (refl, refl)
  invalidate_keys-l1 (key ∷ keys) s =
      let (l1, count) = invalidate_keys-l1 keys (invalidate_key env key s).0 in (l1, rw count)

  invalidate-purge :
      (req : InvalidateRequest) (s : Service S)
      → (invalidate env req s).0.l1_cache ≡ purge (event_of env req) s.l1_cache
  unfolding invalidate invalidate_pattern purge
  invalidate-purge req s = ground (arith, invalidate_keys-l1 req.keys s)

  -- An instance that handles the event of an `Invalidate` ends with the L1 cache that the same
  -- call would have left there.
  pub handle-eq-invalidate :
      (req : InvalidateRequest) (s : Service S)
      → (handle_invalidate_event (event_of env req) s).l1_cache ≡ (invalidate env req s).0.l1_cache
  handle-eq-invalidate req s = handle-purge (event_of env req) s ∙ sym (invalidate-purge req s)

-- The rows that an event means: those of its keys, and those that its pattern matches.
abbrev pub names : InvalidationEvent → Bytes → Bool
names event key =
    member key event.matched_keys || (not (is_empty event.pattern) && key_matches event.pattern key)

purge-filter :
    (event : InvalidationEvent) {c : L1Cache}
    → IsLinked c
    → view (purge event c) ≡ filter (λ x. not (names event x.0)) (view c)
unfolding purge
purge-filter event {c} inv = elim (Bool-cases (is_empty event.pattern)) [
  | inl e ↦
      rw (e, if◌then◌else◌)
        (delete_keys-filter event.matched_keys inv
          ∙ filter_ext _ _ (view c) (All-rows _ (view c) (λ x. ground arith)))
  | inr e ↦
      rw (e, if◌then◌else◌)
        ((delete_pattern-filter event.pattern (delete_keys-IsLinked event.matched_keys inv)).0
          ∙ ap (filter (λ x. not (matched event.pattern x.0 x.1)))
              (delete_keys-filter event.matched_keys inv)
          ∙ filter-filter _ _ (view c)
          ∙ filter_ext
              (λ x.
                if not (member x.0 event.matched_keys)
                then not (matched event.pattern x.0 x.1)
                else false)
              _ (view c) (All-rows _ (view c) (λ x. ground arith)))
]

-- Handling an invalidation event drops the rows that the event means and keeps the others in order.
pub handle-filter :
    {S : Type 0} (event : InvalidationEvent) (s : Service S)
    → IsLinked s.l1_cache
    → view (handle_invalidate_event event s).l1_cache
      ≡ filter (λ x. not (names event x.0)) (view s.l1_cache)
handle-filter event s inv = rw (handle-purge event s) (purge-filter event inv)

purge-IsLinked : (event : InvalidationEvent) {c : L1Cache} → IsLinked c → IsLinked (purge event c)
unfolding purge
purge-IsLinked event inv =
    if_cases IsLinked (is_empty event.pattern) _ _
      (λ _. delete_keys-IsLinked event.matched_keys inv)
      (λ _. delete_pattern-IsLinked event.pattern (delete_keys-IsLinked event.matched_keys inv))

-- On a linked L1 cache, an event that is delivered and handled a second time changes no row.
pub handle_twice :
    {S : Type 0} (event : InvalidationEvent) (s : Service S)
    → IsLinked s.l1_cache
    → view (handle_invalidate_event event (handle_invalidate_event event s)).l1_cache
      ≡ view (handle_invalidate_event event s).l1_cache
handle_twice event s inv =
    handle-filter event (handle_invalidate_event event s)
      (rw (handle-purge event s) (purge-IsLinked event inv))
    ∙ ap (filter (λ x. not (names event x.0))) (handle-filter event s inv)
    ∙ filter_twice _ (view s.l1_cache)
    ∙ sym (handle-filter event s inv)

module _ {S V : Type 0} (env : Environment S V) (req : InvalidateRequest) (s : Service S)
    (inv : IsLinked s.l1_cache) where
  after_keys-count :
      (invalidate_keys env req.keys s).1 + length (view (invalidate_keys env req.keys s).0.l1_cache)
      ≡ length (view s.l1_cache)
  after_keys-count =
      let (l1, count) = invalidate_keys-l1 env req.keys s in
      rw (l1, count) (delete_keys-count req.keys inv)

  -- `Invalidate` counts the rows that it drops.
  invalidate-count :
      (invalidate env req s).1.invalidated + length (view (invalidate env req s).0.l1_cache)
      ≡ length (view s.l1_cache)
  unfolding invalidate invalidate_pattern
  invalidate-count =
      let (l1, count) = invalidate_keys-l1 env req.keys s in
      let linked : IsLinked (invalidate_keys env req.keys s).0.l1_cache =
        rw l1 (delete_keys-IsLinked req.keys inv) in
      let (rest, dropped) = delete_pattern-filter req.pattern linked in
      ground (
        arith,
        after_keys-count,
        rest,
        dropped,
        length-filter-not (λ x. matched req.pattern x.0 x.1)
            (view (invalidate_keys env req.keys s).0.l1_cache),
      )

  -- On a linked L1 cache, `Invalidate` drops exactly the rows of its keys and those that its
  -- pattern matches, keeps the others in order, and counts the dropped.
  pub invalidate-filter :
      (view (invalidate env req s).0.l1_cache
        ≡ filter (λ x. not (names (event_of env req) x.0)) (view s.l1_cache))
      × ((invalidate env req s).1.invalidated
          ≡ length (filter (λ x. names (event_of env req) x.0) (view s.l1_cache)))
  invalidate-filter =
      let rows : view (invalidate env req s).0.l1_cache
          ≡ filter (λ x. not (names (event_of env req) x.0)) (view s.l1_cache) =
        rw (invalidate-purge env req s) (purge-filter (event_of env req) inv) in
      (
        rows,
        omega (
          arith,
          ap length rows,
          invalidate-count,
          length-filter-not (λ x. names (event_of env req) x.0) (view s.l1_cache),
        ),
      )

  invalidate_keys-outside :
      (keys : List Bytes) (s : Service S)
      → uses_l2 env s ≡ false
      → ((invalidate_keys env keys s).0.outside ≡ s.outside)
        × (uses_l2 env (invalidate_keys env keys s).0 ≡ false)
  unfolding invalidate_keys invalidate_key
  invalidate_keys-outside [] s off = (refl, off)
  invalidate_keys-outside (key ∷ keys) s off =
      let (out, still) = invalidate_keys-outside keys (invalidate_key env key s).0 off in
      (ground arith, still)

  -- Without L2 and on a linked L1 cache, `Invalidate` publishes its event if this instance held a
  -- row that the event names, and otherwise changes nothing outside.
  pub invalidate-publishes :
      uses_l2 env s ≡ false
      → (invalidate env req s).0.outside ≡ (
          if ltb 0 (length (filter (λ x. names (event_of env req) x.0) (view s.l1_cache)))
          then env.publish (event_of env req) s.outside
          else s.outside)
  invalidate-publishes off =
      rw (← invalidate-filter.1) (published (invalidate_keys-outside req.keys s off))
    where
      published :
          ((invalidate_keys env req.keys s).0.outside ≡ s.outside)
            × (uses_l2 env (invalidate_keys env req.keys s).0 ≡ false)
          → (invalidate env req s).0.outside ≡ (
              if ltb 0 (invalidate env req s).1.invalidated
              then env.publish (event_of env req) s.outside
              else s.outside)
      published h = unfold invalidate invalidate_pattern in ground arith
