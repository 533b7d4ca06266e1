-- ===== src/CacheManager/L1Cache/Links.antt =====
-- The linked structure of cache-manager/cache.go: map and recency list point at one another.
use distributed_caching_syst.Prelude.{
  nat_eq, ℕ, ◌<◌, ◌≡◌, refl, some, List, ◌∷◌, arith, ==_iff, length,
}
use distributed_caching_syst.Prelude.Int.{ℤ}
use distributed_caching_syst.GoMap.{
  lookup, delete, Distinct, lookup-delete, delete-Distinct, length-delete,
}
use distributed_caching_syst.GoString.{Bytes, bytes_key, bytes_eq_iff}
use distributed_caching_syst.CacheManager.L1Cache.{LruEntry, L1Cache, new, move_to_front}

-- An element of the list names a key whose entry points back at the element.
abbrev pub PointsBack : List (Bytes × LruEntry) → ℕ → Bytes → Type 0
PointsBack m i k = (entry : LruEntry) × (lookup k m ≡ some entry) × (entry.element ≡ i)

pub record IsLinked (c : L1Cache) : Type 0 where
  pub map_distinct : Distinct c.cache
  pub list_distinct : Distinct c.lru_list
  pub forth : (i : ℕ) (k : Bytes) → lookup i c.lru_list ≡ some k → PointsBack c.cache i k
  pub back :
      (k : Bytes) (entry : LruEntry)
      → lookup k c.cache ≡ some entry
      → lookup entry.element c.lru_list ≡ some k
  pub fresh : (i : ℕ) (k : Bytes) → lookup i c.lru_list ≡ some k → i < c.next_id
  pub sizes : length c.cache ≡ length c.lru_list

pub new-IsLinked : (max : ℤ) → IsLinked (new max)
unfolding new lookup
new-IsLinked max = record {
  map_distinct = tt;
  list_distinct = tt;
  forth = λ i k q. absurd (ground arith);
  back = λ k entry q. absurd (ground arith);
  fresh = λ i k q. absurd (ground arith);
  sizes = refl;
}

-- An entry and its element taken out of a linked cache, by the one or the other.
module _ {c : L1Cache} (inv : IsLinked c) (key : Bytes) (entry : LruEntry)
    (found : lookup key c.cache ≡ some entry) where
  abbrev without : L1Cache
  without = record c { cache = delete key c.cache; lru_list = delete entry.element c.lru_list }

  unlink-forth :
      (i : ℕ) (k : Bytes) → lookup i without.lru_list ≡ some k → PointsBack without.cache i k
  unlink-forth i k q =
      let (other, p, pe) =
        inv.forth i k
          (ground (arith, lookup-delete entry.element i c.lru_list inv.list_distinct)) in
      (
        other,
        ground (
          arith,
          lookup-delete key k c.cache inv.map_distinct,
          lookup-delete entry.element i c.lru_list inv.list_distinct,
          bytes_eq_iff key k,
          ==_iff entry.element i,
        ),
        pe,
      )

  unlink-back :
      (k : Bytes) (other : LruEntry)
      → lookup k without.cache ≡ some other
      → lookup other.element without.lru_list ≡ some k
  unlink-back k other q = ground (
    arith,
    lookup-delete key k c.cache inv.map_distinct,
    lookup-delete entry.element other.element c.lru_list inv.list_distinct,
    bytes_eq_iff key k,
    ==_iff entry.element other.element,
    inv.back k other,
    inv.back key entry,
  )

  pub unlink-IsLinked : IsLinked without
  unlink-IsLinked = record {
    map_distinct = delete-Distinct key c.cache inv.map_distinct;
    list_distinct = delete-Distinct entry.element c.lru_list inv.list_distinct;
    forth = unlink-forth;
    back = unlink-back;
    fresh = λ i k q.
        ground (arith, inv.fresh i k, lookup-delete entry.element i c.lru_list inv.list_distinct);
    sizes = omega (
      arith,
      inv.sizes,
      length-delete key entry c.cache found,
      length-delete entry.element key c.lru_list (inv.back key entry found),
    );
  }

  pub move_to_front-found :
      move_to_front entry.element c.lru_list
      ≡ (entry.element, key) ∷ delete entry.element c.lru_list
  unfolding move_to_front
  move_to_front-found = ground (arith, inv.back key entry found)
