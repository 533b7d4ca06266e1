-- ===== src/CacheManager/L1Cache.antt =====
-- cache-manager/cache.go. The map holds the entries; the recency list holds, front to back, the
-- handle of each list element with the key of the entry that the element points at (an entry's key
-- never changes). An entry records the handle of its element. Instants and durations are integers
-- in nanoseconds; each operation takes the instant that `time.Now()` gives it.
pub mod Maps
pub mod Links
pub mod Steps
pub mod Rows
pub mod View
pub mod Refine
pub mod Bulk
pub mod Runs
pub mod Races
use distributed_caching_syst.Prelude.{
  nat_eq, ℕ, suc, ◌+◌, Bool, true, false, ◌&&◌, ◌||◌, Option, none, some, List, [], ◌∷◌,
  if◌then◌else◌, length, filter, map, not,
}
use distributed_caching_syst.Prelude.Int.{ℤ, pos, ◌+ℤ◌, ◌-ℤ◌, ltb_ℤ, leb_ℤ}
use distributed_caching_syst.GoMap.{lookup, insert, delete}
use distributed_caching_syst.GoString.{
  Bytes, codes, bytes_key, bytes_eq, has_prefix, has_suffix, trim_suffix,
}

pub record CacheEntry : Type 0 where
  pub value : Bytes
  pub cached_at : ℤ
  pub expires_at : ℤ
  pub source : Bytes

pub record LruEntry : Type 0 where
  pub key : Bytes
  pub value : Bytes
  pub expires_at : ℤ
  pub element : ℕ

-- `next_id` is the handle that the next `PushFront` allocates.
pub record L1Cache : Type 0 where
  pub cache : List (Bytes × LruEntry)
  pub lru_list : List (ℕ × Bytes)
  pub next_id : ℕ
  pub max_entries : ℤ

unfoldable pub new : ℤ → L1Cache
new max_entries = record { cache = []; lru_list = []; next_id = 0; max_entries = max_entries }

-- `now.After(t)`
abbrev pub after : ℤ → ℤ → Bool
after now t = ltb_ℤ t now

abbrev pub hour : ℤ
hour = pos 3_600_000_000_000

-- `list.MoveToFront`, which ignores an element that is no longer in the list
unfoldable pub move_to_front : ℕ → List (ℕ × Bytes) → List (ℕ × Bytes)
move_to_front i l = elim (lookup i l) [ none ↦ l | some k ↦ (i, k) ∷ delete i l ]

-- `list.Back`
unfoldable pub back {ℓ} : {A : Type ℓ} → List A → Option A
back [] = none
back (x ∷ []) = some x
back (x ∷ y ∷ l) = back (y ∷ l)

unfoldable pub delete_unsafe : Bytes → L1Cache → L1Cache × Bool
delete_unsafe key c = elim (lookup key c.cache) [
  | none ↦ (c, false)
  | some entry ↦
      (record c { cache = delete key c.cache; lru_list = delete entry.element c.lru_list }, true)
]

unfoldable pub remove : Bytes → L1Cache → L1Cache × Bool
remove key c = delete_unsafe key c

-- The part of `Get` behind its first lock: what it does with the entry that it read.
unfoldable pub get_finish : ℤ → Bytes → LruEntry → L1Cache → L1Cache × Option CacheEntry
get_finish now key entry c =
    if after now entry.expires_at then ((delete_unsafe key c).0, none) else (
      record c { lru_list = move_to_front entry.element c.lru_list },
      some (record {
        value = entry.value;
        cached_at = entry.expires_at -ℤ hour;
        expires_at = entry.expires_at;
        source = codes "l1";
      }),
    )

unfoldable pub get : ℤ → Bytes → L1Cache → L1Cache × Option CacheEntry
get now key c = elim (lookup key c.cache) [
  | none ↦ (c, none)
  | some entry ↦ get_finish now key entry c
]

unfoldable pub evict_lru_unsafe : L1Cache → L1Cache
evict_lru_unsafe c = elim (back c.lru_list) [
  | none ↦ c
  | some oldest ↦ record c {
    lru_list = delete oldest.0 c.lru_list;
    cache = delete oldest.1 c.cache;
  }
]

-- The end of `Set`: `PushFront` of a new entry and its place in the map.
unfoldable pub push_entry : Bytes → Bytes → ℤ → L1Cache → L1Cache
push_entry key value expires_at c = record c {
  cache =
      insert key (record { key = key; value = value; expires_at = expires_at; element = c.next_id })
        c.cache;
  lru_list = (c.next_id, key) ∷ c.lru_list;
  next_id = suc c.next_id;
}

unfoldable pub make_room : L1Cache → L1Cache
make_room c = if leb_ℤ c.max_entries (pos (length c.lru_list)) then evict_lru_unsafe c else c

unfoldable pub update_entry : Bytes → Bytes → ℤ → LruEntry → L1Cache → L1Cache
update_entry key value expires_at entry c = record c {
  cache = insert key (record entry { value = value; expires_at = expires_at }) c.cache;
  lru_list = move_to_front entry.element c.lru_list;
}

unfoldable pub set : ℤ → Bytes → Bytes → ℤ → L1Cache → L1Cache
set now key value ttl c = elim (lookup key c.cache) [
  | some entry ↦ update_entry key value (now +ℤ ttl) entry c
  | none ↦ push_entry key value (now +ℤ ttl) (make_room c)
]

-- The loop over the collected keys that `DeletePattern` and `CleanupExpired` share.
unfoldable pub delete_keys : List Bytes → L1Cache → L1Cache × ℕ
delete_keys [] c = (c, 0)
delete_keys (key ∷ keys) c =
    let (c', deleted) = delete_unsafe key c in
    let (c'', count) = delete_keys keys c' in (c'', if deleted then suc count else count)

abbrev pub star : Bytes
star = codes "*"

unfoldable pub matches_pattern : Bytes → Bytes → Bytes → Bool
matches_pattern key pattern prefix =
    if has_suffix star pattern then has_prefix prefix key else bytes_eq key pattern

-- The keys of the map whose entry passes a test, in the order of the visit.
unfoldable pub keys_where : (Bytes → LruEntry → Bool) → List (Bytes × LruEntry) → List Bytes
keys_where p [] = []
keys_where p ((k, entry) ∷ m) = if p k entry then k ∷ keys_where p m else keys_where p m

unfoldable pub delete_pattern : Bytes → L1Cache → L1Cache × ℕ
delete_pattern pattern c =
    let prefix = trim_suffix star pattern in
    delete_keys (keys_where (λ key _. matches_pattern key pattern prefix) c.cache) c

unfoldable pub cleanup_expired : ℤ → L1Cache → L1Cache × ℕ
cleanup_expired now c = delete_keys (keys_where (λ _ entry. after now entry.expires_at) c.cache) c

unfoldable pub size : L1Cache → ℕ
size c = length c.cache

unfoldable pub clear : L1Cache → L1Cache
clear c = record c { cache = []; lru_list = [] }
