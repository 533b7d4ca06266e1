-- ===== src/CacheManager/L1Cache/Steps.antt =====
-- The operations of cache-manager/cache.go and the links between its map and its recency list.
use distributed_caching_syst.Prelude.{
  nat_eq, if_cases, ◌==◌, ℕ, suc, ◌≡◌, refl, none, some, List, [], ◌∷◌, arith, inl, inr, ==_iff,
  if◌then◌else◌, length, Option-cases, Bool-cases,
}
use distributed_caching_syst.Prelude.Int.{ℤ, ◌+ℤ◌}
use distributed_caching_syst.GoMap.{
  lookup, insert, delete, Distinct, lookup-insert, lookup-delete, insert-Distinct, delete-Distinct,
  length-insert_new, length-insert_old, length-delete,
}
use distributed_caching_syst.GoString.{Bytes, bytes_key, bytes_eq, bytes_eq_iff}
use distributed_caching_syst.CacheManager.L1Cache
use distributed_caching_syst.CacheManager.L1Cache.{
  LruEntry, L1Cache, new, move_to_front, delete_unsafe, get_finish, get, evict_lru_unsafe,
  push_entry, make_room, update_entry, set, delete_keys, after,
}
use distributed_caching_syst.CacheManager.L1Cache.Maps.{lookup-back, lookup_there}
use distributed_caching_syst.CacheManager.L1Cache.Links.{
  IsLinked, PointsBack, unlink-IsLinked, move_to_front-found,
}

-- An entry that is moved to the front, over a map that is the old one but for that entry's fields.
module _ {c : L1Cache} (inv : IsLinked c) (key : Bytes) (entry entry' : LruEntry)
    (found : lookup key c.cache ≡ some entry) (same : entry'.element ≡ entry.element)
    (m : List (Bytes × LruEntry)) (distinct : Distinct m) (long : length m ≡ length c.cache)
    (read : (k : Bytes)
      → lookup k m ≡ (if bytes_eq key k then some entry' else lookup k c.cache)) where
  abbrev moved : L1Cache
  moved = record c { cache = m; lru_list = (entry.element, key) ∷ delete entry.element c.lru_list }

  lookup-moved : (i : ℕ) → lookup i moved.lru_list ≡ lookup i c.lru_list
  lookup-moved i =
      unfold lookup in
      ground (
        arith,
        ==_iff entry.element i,
        inv.back key entry found,
        lookup-delete entry.element i c.lru_list inv.list_distinct,
      )

  moved-forth : (i : ℕ) (k : Bytes) → lookup i moved.lru_list ≡ some k → PointsBack m i k
  moved-forth i k q =
      let (other, p, pe) = inv.forth i k (lookup-moved-some i k q) in
      elim (Bool-cases (bytes_eq key k)) [
        | inl hit ↦ (entry', ground (arith, read k), ground (arith, bytes_eq_iff key k))
        | inr miss ↦ (other, ground (arith, read k), pe)
      ]
    where
      lookup-moved-some :
          (i : ℕ) (k : Bytes) → lookup i moved.lru_list ≡ some k → lookup i c.lru_list ≡ some k
      lookup-moved-some i k q = ground (arith, lookup-moved i)

  moved-back :
      (k : Bytes) (other : LruEntry)
      → lookup k m ≡ some other
      → lookup other.element moved.lru_list ≡ some k
  moved-back k other q = ground (
    arith,
    read k,
    lookup-moved other.element,
    inv.back k other,
    inv.back key entry,
    bytes_eq_iff key k,
  )

  pub moved-IsLinked : IsLinked moved
  moved-IsLinked = record {
    map_distinct = distinct;
    list_distinct = (
      ground (
        arith,
        lookup-delete entry.element entry.element c.lru_list inv.list_distinct,
        ==_iff entry.element entry.element,
      ),
      delete-Distinct entry.element c.lru_list inv.list_distinct,
    );
    forth = moved-forth;
    back = moved-back;
    fresh = λ i k q. ground (arith, inv.fresh i k, lookup-moved i);
    sizes = omega (
      arith,
      long,
      inv.sizes,
      length-delete entry.element key c.lru_list (inv.back key entry found),
    );
  }

module _ {c : L1Cache} (inv : IsLinked c) where
  pub delete_unsafe-IsLinked : (key : Bytes) → IsLinked (delete_unsafe key c).0
  unfolding delete_unsafe
  delete_unsafe-IsLinked key = elim (Option-cases (lookup key c.cache)) [
    | inl miss ↦ rw (miss, delete_unsafe) inv
    | inr (entry, hit) ↦ rw (hit, delete_unsafe) (unlink-IsLinked inv key entry hit)
  ]

  touch-IsLinked :
      (key : Bytes) (entry : LruEntry)
      → lookup key c.cache ≡ some entry
      → IsLinked (record c { lru_list = move_to_front entry.element c.lru_list })
  touch-IsLinked key entry found = rw (move_to_front-found inv key entry found) (
      moved-IsLinked inv key entry entry found refl c.cache inv.map_distinct refl
        (λ k. ground (arith, bytes_eq_iff key k)))

  pub get_finish-IsLinked :
      (now : ℤ) (key : Bytes) (entry : LruEntry)
      → lookup key c.cache ≡ some entry
      → IsLinked (get_finish now key entry c).0
  unfolding get_finish
  get_finish-IsLinked now key entry found = elim (Bool-cases (after now entry.expires_at)) [
    | inl expired ↦ rw (expired, get_finish) (delete_unsafe-IsLinked key)
    | inr live ↦ rw (live, get_finish) (touch-IsLinked key entry found)
  ]

  pub get-IsLinked : (now : ℤ) (key : Bytes) → IsLinked (get now key c).0
  unfolding get
  get-IsLinked now key = elim (Option-cases (lookup key c.cache)) [
    | inl miss ↦ rw (miss, get) inv
    | inr (entry, hit) ↦ rw (hit, get) (get_finish-IsLinked now key entry hit)
  ]

  pub update_entry-IsLinked :
      (key value : Bytes) (expires_at : ℤ) (entry : LruEntry)
      → lookup key c.cache ≡ some entry
      → IsLinked (update_entry key value expires_at entry c)
  unfolding update_entry
  update_entry-IsLinked key value expires_at entry found =
      rw (move_to_front-found inv key entry found) (
        moved-IsLinked inv key entry (record entry { value = value; expires_at = expires_at }) found
          refl _ (insert-Distinct key _ c.cache inv.map_distinct)
          (length-insert_old key _ entry c.cache found) (λ k. lookup-insert key k _ c.cache))

  -- The back element is unlinked together with its entry.
  pub evict-unlinks :
      (x : ℕ × Bytes)
      → L1Cache.back c.lru_list ≡ some x
      → (entry : LruEntry) × (lookup x.1 c.cache ≡ some entry) × (entry.element ≡ x.0)
  evict-unlinks x q = inv.forth x.0 x.1 (lookup-back c.lru_list x inv.list_distinct q)

  pub evict-IsLinked : IsLinked (evict_lru_unsafe c)
  unfolding evict_lru_unsafe
  evict-IsLinked = elim (Option-cases (L1Cache.back c.lru_list)) [
    | inl nothing ↦ rw (nothing, evict_lru_unsafe) inv
    | inr (x, q) ↦
        let (entry, found, same) = evict-unlinks x q in
        rw (q, evict_lru_unsafe) (rw (← same) (unlink-IsLinked inv x.1 entry found))
  ]

  -- `PushFront` with a fresh handle.
  module _ (key value : Bytes) (expires_at : ℤ) (absent : lookup key c.cache ≡ none) where
    abbrev pushed : L1Cache
    pushed = record c {
      cache =
          insert key
            (record { key = key; value = value; expires_at = expires_at; element = c.next_id })
            c.cache;
      lru_list = (c.next_id, key) ∷ c.lru_list;
      next_id = suc c.next_id;
    }

    unused : lookup c.next_id c.lru_list ≡ none
    unused = elim (Option-cases (lookup c.next_id c.lru_list)) [
      | inl e ↦ e
      | inr (k, q) ↦ absurd (omega (arith, inv.fresh c.next_id k q))
    ]

    pushed-forth :
        (i : ℕ) (k : Bytes) → lookup i pushed.lru_list ≡ some k → PointsBack pushed.cache i k
    pushed-forth i k q = elim (Bool-cases (c.next_id == i)) [
      | inl new_one ↦ (
        record { key = key; value = value; expires_at = expires_at; element = c.next_id },
        unfold lookup in
            ground (
              arith,
              lookup-insert key k
                  (record {
                    key = key;
                    value = value;
                    expires_at = expires_at;
                    element = c.next_id;
                  })
                  c.cache,
              bytes_eq_iff key k,
            ),
        ground (arith, ==_iff c.next_id i),
      )
      | inr old_one ↦
          let (other, p, pe) = inv.forth i k (unfold lookup in ground arith) in
          (
            other,
            ground (
              arith,
              lookup-insert key k
                  (record {
                    key = key;
                    value = value;
                    expires_at = expires_at;
                    element = c.next_id;
                  })
                  c.cache,
              bytes_eq_iff key k,
            ),
            pe,
          )
    ]

    pushed-back :
        (k : Bytes) (other : LruEntry)
        → lookup k pushed.cache ≡ some other
        → lookup other.element pushed.lru_list ≡ some k
    pushed-back k other q = elim (Bool-cases (bytes_eq key k)) [
      | inl new_one ↦
          unfold lookup in
          ground (
            arith,
            lookup-insert key k
                (record { key = key; value = value; expires_at = expires_at; element = c.next_id })
                c.cache,
            bytes_eq_iff key k,
          )
      | inr old_one ↦ lookup_there _ _ c.next_id key c.lru_list unused (
          inv.back k other (
            ground (
              arith,
              lookup-insert key k
                  (record {
                    key = key;
                    value = value;
                    expires_at = expires_at;
                    element = c.next_id;
                  })
                  c.cache,
            )))
    ]

    pub push_entry-IsLinked : IsLinked (push_entry key value expires_at c)
    unfolding push_entry
    push_entry-IsLinked = record {
      map_distinct = insert-Distinct key _ c.cache inv.map_distinct;
      list_distinct = (unused, inv.list_distinct);
      forth = pushed-forth;
      back = pushed-back;
      fresh = λ i k q. unfold lookup in ground (arith, inv.fresh i k, ==_iff c.next_id i);
      sizes = omega (
        arith,
        inv.sizes,
        length-insert_new key
            (record { key = key; value = value; expires_at = expires_at; element = c.next_id })
            c.cache absent,
      );
    }

  pub make_room-IsLinked : IsLinked (make_room c)
  unfolding make_room
  make_room-IsLinked = if_cases IsLinked _ _ _ (λ _. evict-IsLinked) (λ _. inv)

  evict-absent :
      (key : Bytes) → lookup key c.cache ≡ none → lookup key (evict_lru_unsafe c).cache ≡ none
  unfolding evict_lru_unsafe
  evict-absent key absent = elim (Option-cases (L1Cache.back c.lru_list)) [
    | inl nothing ↦ rw (nothing, evict_lru_unsafe) absent
    | inr (x, q) ↦
        rw (q, evict_lru_unsafe) (ground (arith, lookup-delete x.1 key c.cache inv.map_distinct))
  ]

  -- Making room brings no key in.
  pub make_room-absent :
      (key : Bytes) → lookup key c.cache ≡ none → lookup key (make_room c).cache ≡ none
  unfolding make_room
  make_room-absent key absent =
      if_cases (λ (r : L1Cache). lookup key r.cache ≡ none) _ _ _ (λ _. evict-absent key absent)
        (λ _. absent)

pub set-IsLinked :
    {c : L1Cache} (now : ℤ) (key value : Bytes) (ttl : ℤ)
    → IsLinked c
    → IsLinked (set now key value ttl c)
unfolding set
set-IsLinked {c} now key value ttl inv = elim (Option-cases (lookup key c.cache)) [
  | inl miss ↦
      rw (miss, set)
        (push_entry-IsLinked (make_room-IsLinked inv) key value (now +ℤ ttl)
          (make_room-absent inv key miss))
  | inr (entry, hit) ↦ rw (hit, set) (update_entry-IsLinked inv key value (now +ℤ ttl) entry hit)
]

pub delete_keys-IsLinked :
    (keys : List Bytes) {c : L1Cache} → IsLinked c → IsLinked (delete_keys keys c).0
unfolding delete_keys
delete_keys-IsLinked [] inv = inv
delete_keys-IsLinked (key ∷ keys) inv = delete_keys-IsLinked keys (delete_unsafe-IsLinked inv key)

pub delete_pattern-IsLinked :
    (pattern : Bytes) {c : L1Cache} → IsLinked c → IsLinked (L1Cache.delete_pattern pattern c).0
unfolding L1Cache.delete_pattern
delete_pattern-IsLinked pattern inv = delete_keys-IsLinked _ inv
