-- ===== src/CacheManager/L1Cache/Bulk.antt =====
-- `DeletePattern` and `CleanupExpired` of cache-manager/cache.go, which collect keys and delete them
-- one by one, on the rows.
use distributed_caching_syst.Prelude.{
  suc, ◌+◌, ◌≡◌, refl, ap, Bool, true, false, not, none, some, List, [], ◌∷◌, arith, inl, inr, sym,
  ◌∙◌, if◌then◌else◌, length, All, All-map, filter, Option-cases, Bool-cases,
}
use distributed_caching_syst.Prelude.Int.{ℤ}
use distributed_caching_syst.GoMap.{
  lookup, delete, Distinct, delete_absent, delete-Distinct, length-delete,
}
use distributed_caching_syst.GoString.{Bytes, bytes_key, bytes_eq, bytes_eq_iff, trim_suffix}
use distributed_caching_syst.CacheManager.L1Cache.{
  LruEntry, L1Cache, after, delete_unsafe, delete_keys, keys_where, delete_pattern, matches_pattern,
  star, cleanup_expired,
}
use distributed_caching_syst.CacheManager.L1Cache.Maps.{All-of_lookup}
use distributed_caching_syst.CacheManager.L1Cache.Links.{IsLinked}
use distributed_caching_syst.CacheManager.L1Cache.Steps.{delete_unsafe-IsLinked}
use distributed_caching_syst.CacheManager.L1Cache.Rows.{Row, row}
use distributed_caching_syst.CacheManager.L1Cache.View.{
  View, view, view-Distinct, view-delete_unsafe, lookup-view-some, lookup-view-none,
}

abbrev pub member : Bytes → List Bytes → Bool
member k [] = false
member k (j ∷ keys) = if bytes_eq j k then true else member k keys

delete_all : List Bytes → View → View
delete_all [] v = v
delete_all (k ∷ keys) v = delete_all keys (delete k v)

delete-filter :
    (k : Bytes) (v : View) → Distinct v → delete k v ≡ filter (λ x. not (bytes_eq k x.0)) v
unfolding delete
delete-filter k [] d = refl
delete-filter k ((j, r) ∷ v) d = ground (
  arith,
  bytes_eq_iff j k,
  bytes_eq_iff k j,
  delete-filter k v d.1,
  sym (delete_absent j v d.0) ∙ delete-filter j v d.1,
)

pub filter-filter :
    (p q : Bytes × Row → Bool) (v : View)
    → filter q (filter p v) ≡ filter (λ x. if p x then q x else false) v
filter-filter p q [] = refl
filter-filter p q (x ∷ v) = ground (arith, filter-filter p q v)

pub filter_ext :
    (p q : Bytes × Row → Bool) (v : View) → All (λ x. p x ≡ q x) v → filter p v ≡ filter q v
filter_ext p q [] h = refl
filter_ext p q (x ∷ v) h = rw h.0 (ground (arith, filter_ext p q v h.1))

pub All-rows : (P : Bytes × Row → Type 0) (v : View) → ((x : Bytes × Row) → P x) → All P v
All-rows P [] h = tt
All-rows P (x ∷ v) h = (h x, All-rows P v h)

delete_all-filter :
    (keys : List Bytes) (v : View)
    → Distinct v
    → delete_all keys v ≡ filter (λ x. not (member x.0 keys)) v
unfolding delete_all
delete_all-filter [] v d = sym (keep_all v)
  where
    keep_all : (v : View) → filter (λ _. true) v ≡ v
    keep_all [] = refl
    keep_all (x ∷ v) = ap (◌∷◌ x) (keep_all v)
delete_all-filter (k ∷ keys) v d =
    delete_all-filter keys (delete k v) (delete-Distinct k v d)
    ∙ ap (filter (λ x. not (member x.0 keys))) (delete-filter k v d)
    ∙ filter-filter (λ x. not (bytes_eq k x.0)) (λ x. not (member x.0 keys)) v
    ∙ filter_ext _ _ v (All-rows _ v (λ x. ground arith))

member-keys_where-none :
    (p : Bytes → LruEntry → Bool) (k : Bytes) (m : List (Bytes × LruEntry))
    → lookup k m ≡ none
    → member k (keys_where p m) ≡ false
unfolding lookup keys_where
member-keys_where-none p k [] q = refl
member-keys_where-none p k ((j, other) ∷ m) q = ground (arith, member-keys_where-none p k m)

pub filter_twice : (p : Bytes × Row → Bool) (v : View) → filter p (filter p v) ≡ filter p v
filter_twice p [] = refl
filter_twice p (x ∷ v) = ground (arith, filter_twice p v)

-- Which keys the visit of the map collects.
member-keys_where :
    (p : Bytes → LruEntry → Bool) (k : Bytes) (entry : LruEntry) (m : List (Bytes × LruEntry))
    → Distinct m
    → lookup k m ≡ some entry
    → member k (keys_where p m) ≡ p k entry
unfolding lookup keys_where
member-keys_where p k entry [] d q = absurd (ground arith)
member-keys_where p k entry ((j, other) ∷ m) d q = elim (Bool-cases (bytes_eq j k)) [
  | inl here ↦
      let same : j ≡ k = (bytes_eq_iff j k).0 here in
      ground (arith, member-keys_where-none p k m (rw (← same) d.0), bytes_eq_iff j k)
  | inr there ↦ ground (arith, member-keys_where p k entry m d.1)
]

pub length-filter-not :
    (p : Bytes × Row → Bool) (v : View)
    → length (filter p v) + length (filter (λ x. not (p x)) v) ≡ length v
length-filter-not p [] = omega arith
length-filter-not p (x ∷ v) = ground (arith, length-filter-not p v)

view-delete_keys :
    (keys : List Bytes) {c : L1Cache}
    → IsLinked c
    → view (delete_keys keys c).0 ≡ delete_all keys (view c)
unfolding delete_keys delete_all
view-delete_keys [] inv = refl
view-delete_keys (k ∷ keys) inv =
    view-delete_keys keys (delete_unsafe-IsLinked inv k)
    ∙ ap (delete_all keys) (view-delete_unsafe inv k)

-- A key that was there counts one, and its row is gone.
delete_unsafe-count :
    (k : Bytes) {c : L1Cache}
    → IsLinked c
    → (if (delete_unsafe k c).1
        then suc (length (view (delete_unsafe k c).0))
        else length (view (delete_unsafe k c).0))
      ≡ length (view c)
delete_unsafe-count k {c} inv = rw (view-delete_unsafe inv k) (
    unfold delete_unsafe in
    elim (Option-cases (lookup k c.cache)) [
      | inl miss ↦ ground (arith, delete_absent k (view c) (lookup-view-none inv k miss))
      | inr (entry, hit) ↦
          ground (arith, length-delete k (row entry) (view c) (lookup-view-some inv k entry hit))
    ])

pub delete_keys-count :
    (keys : List Bytes) {c : L1Cache}
    → IsLinked c
    → (delete_keys keys c).1 + length (view (delete_keys keys c).0) ≡ length (view c)
unfolding delete_keys
delete_keys-count [] inv = omega arith
delete_keys-count (k ∷ keys) inv =
    ground (arith, delete_keys-count keys (delete_unsafe-IsLinked inv k), delete_unsafe-count k inv)

module _ {c : L1Cache} (inv : IsLinked c) (q : Bytes → Row → Bool) where
  abbrev selected : List Bytes
  selected = keys_where (λ k entry. q k (row entry)) c.cache

  selects : (k : Bytes) (r : Row) → lookup k (view c) ≡ some r → member k selected ≡ q k r
  selects k r e = elim (Option-cases (lookup k c.cache)) [
    | inl miss ↦ absurd (ground (arith, lookup-view-none inv k miss))
    | inr (entry, hit) ↦ ground (
      arith,
      lookup-view-some inv k entry hit,
      member-keys_where (λ k entry. q k (row entry)) k entry c.cache inv.map_distinct hit,
    )
  ]

  -- The selected rows go, the others stay in their order.
  pub view-delete_where : view (delete_keys selected c).0 ≡ filter (λ x. not (q x.0 x.1)) (view c)
  view-delete_where =
      view-delete_keys selected inv
      ∙ delete_all-filter selected (view c) (view-Distinct inv)
      ∙ filter_ext _ _ (view c) (
          All-map (view c) (λ x h. rw h)
            (All-of_lookup (λ k r. member k selected ≡ q k r) (view c) (view-Distinct inv) selects))

  -- The count is that of the selected rows.
  pub count-delete_where : (delete_keys selected c).1 ≡ length (filter (λ x. q x.0 x.1) (view c))
  count-delete_where = omega (
    arith,
    ap length view-delete_where,
    delete_keys-count selected inv,
    length-filter-not (λ x. q x.0 x.1) (view c),
  )

-- The loop over given keys drops their rows and counts those that were there.
pub delete_keys-filter :
    (keys : List Bytes) {c : L1Cache}
    → IsLinked c
    → view (delete_keys keys c).0 ≡ filter (λ x. not (member x.0 keys)) (view c)
delete_keys-filter keys {c} inv =
    view-delete_keys keys inv ∙ delete_all-filter keys (view c) (view-Distinct inv)

-- The test of `DeletePattern`.
abbrev pub key_matches : Bytes → Bytes → Bool
key_matches pattern key = matches_pattern key pattern (trim_suffix star pattern)

abbrev pub matched : Bytes → Bytes → Row → Bool
matched pattern key r = key_matches pattern key

-- The test of `CleanupExpired`.
abbrev pub expired : ℤ → Bytes → Row → Bool
expired now key r = after now r.1

-- On a linked cache, `DeletePattern` drops the rows whose key matches, keeps the others in order,
-- and counts the dropped.
pub delete_pattern-filter :
    (pattern : Bytes) {c : L1Cache}
    → IsLinked c
    → (view (delete_pattern pattern c).0 ≡ filter (λ x. not (matched pattern x.0 x.1)) (view c))
      × ((delete_pattern pattern c).1 ≡ length (filter (λ x. matched pattern x.0 x.1) (view c)))
unfolding delete_pattern
delete_pattern-filter pattern inv =
    (view-delete_where inv (matched pattern), count-delete_where inv (matched pattern))

-- On a linked cache, `CleanupExpired` drops the expired rows, keeps the others in order, and
-- counts the dropped.
pub cleanup_expired-filter :
    (now : ℤ) {c : L1Cache}
    → IsLinked c
    → (view (cleanup_expired now c).0 ≡ filter (λ x. not (expired now x.0 x.1)) (view c))
      × ((cleanup_expired now c).1 ≡ length (filter (λ x. expired now x.0 x.1) (view c)))
unfolding cleanup_expired
cleanup_expired-filter now inv =
    (view-delete_where inv (expired now), count-delete_where inv (expired now))
