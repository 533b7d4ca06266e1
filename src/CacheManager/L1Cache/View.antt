-- ===== src/CacheManager/L1Cache/View.antt =====
-- The abstract view of cache-manager/cache.go: rows in the order of their last use, and short functions
-- on them for the operations.
use distributed_caching_syst.Prelude.{
  nat_eq, ℕ, ◌≡◌, refl, false, Option, none, some, List, ◌∷◌, arith, inl, inr, if◌then◌else◌,
  length, Option-cases, drop_last, ap, take, leb, ◌∙◌, sym,
}
use distributed_caching_syst.Prelude.Int.{ℤ, pos_part}
use distributed_caching_syst.GoMap.{
  lookup, insert, delete, Distinct, delete_absent, lookup-delete, lookup-insert,
}
use distributed_caching_syst.GoString.{Bytes, bytes_key, bytes_eq, bytes_eq_iff}
use distributed_caching_syst.CacheManager.L1Cache.{
  LruEntry, L1Cache, CacheEntry, after, back, size, evict_lru_unsafe, push_entry, update_entry,
  delete_unsafe, move_to_front,
}
use distributed_caching_syst.CacheManager.L1Cache.Maps.{All-of_lookup, delete-back, back_none}
use distributed_caching_syst.CacheManager.L1Cache.Links.{IsLinked, PointsBack, move_to_front-found}
use distributed_caching_syst.CacheManager.L1Cache.Steps.{evict-unlinks}
use distributed_caching_syst.CacheManager.L1Cache.Rows.{
  Row, row, rows, Links, rows_absent, rows_unlink, length-rows, lookup-rows-none, lookup-rows-some,
  rows-Distinct, back-rows, rows-cons,
}

abbrev pub View : Type 0
View = List (Bytes × Row)

abbrev pub view : L1Cache → View
view c = rows c.cache c.lru_list

-- The row that a reply of `Get` shows.
abbrev pub reply_row : CacheEntry → Row
reply_row entry = (entry.value, entry.expires_at)

-- The number of rows that fit: `Set` adds its row even where the configured maximum is below one.
abbrev pub capacity : ℤ → ℕ
capacity max = if leb (pos_part max) 0 then 1 else pos_part max

-- Store a row in front, and keep what fits.
abbrev pub put : ℕ → Bytes → Row → View → View
put cap key r v = take cap ((key, r) ∷ delete key v)

-- Read a row: a live one comes to the front, an expired one goes.
unfoldable pub read : ℤ → Bytes → View → View × Option Row
read now key v = elim (lookup key v) [
  | none ↦ (v, none)
  | some r ↦ if after now r.1 then (delete key v, none) else ((key, r) ∷ delete key v, some r)
]

module _ {c : L1Cache} (inv : IsLinked c) where
  pub links : Links c.cache c.lru_list
  links = All-of_lookup (PointsBack c.cache) c.lru_list inv.list_distinct inv.forth

  pub view-Distinct : Distinct (view c)
  view-Distinct = rows-Distinct c.cache c.lru_list inv.list_distinct links

  -- As many rows as `Size` counts entries.
  pub length-view : length (view c) ≡ size c
  unfolding size
  length-view = omega (arith, length-rows c.cache c.lru_list links, inv.sizes)

  pub lookup-view-some :
      (key : Bytes) (entry : LruEntry)
      → lookup key c.cache ≡ some entry
      → lookup key (view c) ≡ some (row entry)
  lookup-view-some key entry p =
      lookup-rows-some c.cache key entry p c.lru_list (inv.back key entry p) links

  pub lookup-view-none : (key : Bytes) → lookup key c.cache ≡ none → lookup key (view c) ≡ none
  lookup-view-none key p = lookup-rows-none c.cache key c.lru_list p

  delete-agrees :
      (key k : Bytes) → bytes_eq key k ≡ false → lookup k (delete key c.cache) ≡ lookup k c.cache
  delete-agrees key k h = ground (arith, lookup-delete key k c.cache inv.map_distinct)

  view-unlink :
      (key : Bytes) (entry : LruEntry)
      → lookup key c.cache ≡ some entry
      → rows (delete key c.cache) (delete entry.element c.lru_list) ≡ delete key (view c)
  view-unlink key entry p =
      rows_unlink c.cache _ key (delete-agrees key) entry p c.lru_list inv.list_distinct
        (inv.back key entry p) links

  pub view-delete_unsafe : (key : Bytes) → view (delete_unsafe key c).0 ≡ delete key (view c)
  unfolding delete_unsafe
  view-delete_unsafe key = elim (Option-cases (lookup key c.cache)) [
    | inl miss ↦
        rw (miss, delete_unsafe) (sym (delete_absent key (view c) (lookup-view-none key miss)))
    | inr (entry, hit) ↦ rw (hit, delete_unsafe) (view-unlink key entry hit)
  ]

  pub view-touch :
      (key : Bytes) (entry : LruEntry)
      → lookup key c.cache ≡ some entry
      → rows c.cache (move_to_front entry.element c.lru_list)
        ≡ (key, row entry) ∷ delete key (view c)
  view-touch key entry p =
      rw
        (
          move_to_front-found inv key entry p,
          rows-cons c.cache entry.element key entry (delete entry.element c.lru_list) p,
        )
        (ap (◌∷◌ (key, row entry)) (
          rows_unlink c.cache c.cache key (λ k h. refl) entry p c.lru_list inv.list_distinct
            (inv.back key entry p) links))

  pub view-update_entry :
      (key value : Bytes) (expires_at : ℤ) (entry : LruEntry)
      → lookup key c.cache ≡ some entry
      → view (update_entry key value expires_at entry c)
        ≡ (key, (value, expires_at)) ∷ delete key (view c)
  unfolding update_entry
  view-update_entry key value expires_at entry p =
      let entry' : LruEntry = record entry { value = value; expires_at = expires_at } in
      rw
        (
          move_to_front-found inv key entry p,
          rows-cons (insert key entry' c.cache) entry.element key entry'
              (delete entry.element c.lru_list)
              (ground (arith, lookup-insert key key entry' c.cache, bytes_eq_iff key key)),
        )
        (ap (◌∷◌ (key, row entry')) (
          rows_unlink c.cache (insert key entry' c.cache) key
            (λ k h. ground (arith, lookup-insert key k entry' c.cache)) entry p c.lru_list
            inv.list_distinct (inv.back key entry p) links))

  pub view-push_entry :
      (key value : Bytes) (expires_at : ℤ)
      → lookup key c.cache ≡ none
      → view (push_entry key value expires_at c) ≡ (key, (value, expires_at)) ∷ view c
  unfolding push_entry
  view-push_entry key value expires_at p =
      let entry : LruEntry = record {
        key = key;
        value = value;
        expires_at = expires_at;
        element = c.next_id;
      } in
      rw
        (rows-cons (insert key entry c.cache) c.next_id key entry c.lru_list
          (ground (arith, lookup-insert key key entry c.cache, bytes_eq_iff key key)))
        (ap (◌∷◌ (key, row entry)) (
          rows_absent c.cache (insert key entry c.cache) key
            (λ k h. ground (arith, lookup-insert key k entry c.cache)) c.lru_list p links))

  -- What the cache evicts is its last row.
  pub view-evict : view (evict_lru_unsafe c) ≡ drop_last (view c)
  unfolding evict_lru_unsafe
  view-evict = elim (Option-cases (back c.lru_list)) [
    | inl nothing ↦
        rw (nothing, evict_lru_unsafe) (rw (back_none c.lru_list nothing) (unfold rows in refl))
    | inr (x, q) ↦
        let (entry, found, same) = evict-unlinks inv x q in
        let (r, last) = back-rows c.cache c.lru_list x links q in
        rw (q, evict_lru_unsafe)
          (rw (← same)
            (view-unlink x.1 entry found ∙ delete-back (view c) (x.1, r) view-Distinct last))
  ]
