-- ===== src/CacheManager/L1Cache/Runs.antt =====
-- Whole runs of the calls of cache-manager/cache.go, on the detailed cache and on its rows.
use mathlib.Core.Option
use distributed_caching_syst.Prelude.{
  ℕ, ◌≤◌, ◌≡◌, refl, ap, Bool, true, false, not, Option, none, some, List, [], ◌∷◌, arith, inl, inr,
  ◌∙◌, if◌then◌else◌, length, filter, length-filter-le, Option-cases, length-take,
}
use distributed_caching_syst.Prelude.Int.{ℤ, ◌+ℤ◌}
use distributed_caching_syst.GoMap.{lookup, delete, delete_absent, length-delete}
use distributed_caching_syst.GoString.{Bytes, bytes_key}
use distributed_caching_syst.CacheManager.L1Cache
use distributed_caching_syst.CacheManager.L1Cache.{
  L1Cache, new, after, size, get_finish, delete_unsafe, delete_keys, update_entry, push_entry,
  make_room, evict_lru_unsafe, back,
}
use distributed_caching_syst.CacheManager.L1Cache.Links.{IsLinked, new-IsLinked}
use distributed_caching_syst.CacheManager.L1Cache.Steps.{
  delete_unsafe-IsLinked, get-IsLinked, set-IsLinked, delete_keys-IsLinked,
}
use distributed_caching_syst.CacheManager.L1Cache.Rows.{Row, rows}
use distributed_caching_syst.CacheManager.L1Cache.View.{
  View, view, capacity, put, read, reply_row, length-view, view-delete_unsafe, lookup-view-some,
  lookup-view-none,
}
use distributed_caching_syst.CacheManager.L1Cache.Refine.{IsValid, view-set, view-get}
use distributed_caching_syst.CacheManager.L1Cache.Bulk.{
  matched, expired, delete_pattern-filter, cleanup_expired-filter,
}

-- The calls that the service makes, with the instant of `time.Now()` where it is read.
pub data Call : Type 0 where
  get : ℤ → Bytes → Call
  set : ℤ → Bytes → Bytes → ℤ → Call
  remove : Bytes → Call
  delete_pattern : Bytes → Call
  cleanup_expired : ℤ → Call
  clear : Call

pub data Reply : Type 0 where
  row : Option Row → Reply
  flag : Bool → Reply
  count : ℕ → Reply
  nothing : Reply

unfoldable pub call : Call → L1Cache → L1Cache × Reply
call (Call.get now key) c =
    ((L1Cache.get now key c).0, row (Option.map reply_row (L1Cache.get now key c).1))
call (Call.set now key value ttl) c = (L1Cache.set now key value ttl c, nothing)
call (Call.remove key) c = ((L1Cache.remove key c).0, flag (L1Cache.remove key c).1)
call (Call.delete_pattern pattern) c =
    ((L1Cache.delete_pattern pattern c).0, count (L1Cache.delete_pattern pattern c).1)
call (Call.cleanup_expired now) c =
    ((L1Cache.cleanup_expired now c).0, count (L1Cache.cleanup_expired now c).1)
call Call.clear c = (L1Cache.clear c, nothing)

abbrev present : Option Row → Bool
present none = false
present (some _) = true

-- The same calls on the rows.
unfoldable pub spec : ℕ → Call → View → View × Reply
spec cap (Call.get now key) v = ((read now key v).0, row (read now key v).1)
spec cap (Call.set now key value ttl) v = (put cap key (value, now +ℤ ttl) v, nothing)
spec cap (Call.remove key) v = (delete key v, flag (present (lookup key v)))
spec cap (Call.delete_pattern pattern) v = (
  filter (λ x. not (matched pattern x.0 x.1)) v,
  count (length (filter (λ x. matched pattern x.0 x.1) v)),
)
spec cap (Call.cleanup_expired now) v = (
  filter (λ x. not (expired now x.0 x.1)) v,
  count (length (filter (λ x. expired now x.0 x.1) v)),
)
spec cap Call.clear v = ([], nothing)

unfoldable pub run : List Call → L1Cache → L1Cache × List Reply
run [] c = (c, [])
run (k ∷ calls) c = let (c', r) = call k c in let (c'', rs) = run calls c' in (c'', r ∷ rs)

unfoldable pub run_spec : ℕ → List Call → View → View × List Reply
run_spec cap [] v = (v, [])
run_spec cap (k ∷ calls) v =
    let (v', r) = spec cap k v in let (v'', rs) = run_spec cap calls v' in (v'', r ∷ rs)

delete_unsafe-max :
    (key : Bytes) (c : L1Cache) → (delete_unsafe key c).0.max_entries ≡ c.max_entries
unfolding delete_unsafe
delete_unsafe-max key c = ground arith

delete_keys-max :
    (keys : List Bytes) (c : L1Cache) → (delete_keys keys c).0.max_entries ≡ c.max_entries
unfolding delete_keys
delete_keys-max [] c = refl
delete_keys-max (key ∷ keys) c =
    delete_keys-max keys (delete_unsafe key c).0 ∙ delete_unsafe-max key c

call-max : (k : Call) (c : L1Cache) → (call k c).0.max_entries ≡ c.max_entries
unfolding call
call-max (Call.get now key) c =
    unfold L1Cache.get get_finish in ground (arith, delete_unsafe-max key c)
call-max (Call.set now key value ttl) c =
    unfold L1Cache.set update_entry push_entry make_room evict_lru_unsafe in ground arith
call-max (Call.remove key) c = unfold L1Cache.remove in delete_unsafe-max key c
call-max (Call.delete_pattern pattern) c = unfold L1Cache.delete_pattern in delete_keys-max _ c
call-max (Call.cleanup_expired now) c = unfold L1Cache.cleanup_expired in delete_keys-max _ c
call-max Call.clear c = unfold L1Cache.clear in refl

call-IsLinked : (k : Call) {c : L1Cache} → IsLinked c → IsLinked (call k c).0
unfolding call
call-IsLinked (Call.get now key) inv = get-IsLinked inv now key
call-IsLinked (Call.set now key value ttl) inv = set-IsLinked now key value ttl inv
call-IsLinked (Call.remove key) inv = unfold L1Cache.remove in delete_unsafe-IsLinked inv key
call-IsLinked (Call.delete_pattern pattern) inv =
    unfold L1Cache.delete_pattern in delete_keys-IsLinked _ inv
call-IsLinked (Call.cleanup_expired now) inv =
    unfold L1Cache.cleanup_expired in delete_keys-IsLinked _ inv
call-IsLinked Call.clear {c} inv = unfold L1Cache.clear in cleared (new-IsLinked c.max_entries)
  where
    cleared : IsLinked (new c.max_entries) → IsLinked (record c { cache = []; lru_list = [] })
    cleared h =
        unfold lookup in
        record {
          map_distinct = tt;
          list_distinct = tt;
          forth = λ i k q. absurd (ground arith);
          back = λ k entry q. absurd (ground arith);
          fresh = λ i k q. absurd (ground arith);
          sizes = refl;
        }

delete_unsafe-flag :
    (key : Bytes) {c : L1Cache}
    → IsLinked c
    → (delete_unsafe key c).1 ≡ present (lookup key (view c))
unfolding delete_unsafe
delete_unsafe-flag key {c} inv = elim (Option-cases (lookup key c.cache)) [
  | inl miss ↦ ground (arith, lookup-view-none inv key miss)
  | inr (entry, hit) ↦ ground (arith, lookup-view-some inv key entry hit)
]

-- One call does to the rows what the specification says, and replies the same.
pub call-spec :
    (k : Call) {c : L1Cache}
    → IsValid c
    → (view (call k c).0, (call k c).1) ≡ spec (capacity c.max_entries) k (view c)
unfolding call spec
call-spec (Call.get now key) valid = ground (arith, view-get valid now key)
call-spec (Call.set now key value ttl) valid = ground (arith, view-set valid now key value ttl)
call-spec (Call.remove key) valid =
    unfold L1Cache.remove in
    ground (arith, view-delete_unsafe valid.linked key, delete_unsafe-flag key valid.linked)
call-spec (Call.delete_pattern pattern) valid =
    ground (arith, delete_pattern-filter pattern valid.linked)
call-spec (Call.cleanup_expired now) valid = ground (arith, cleanup_expired-filter now valid.linked)
call-spec Call.clear valid = unfold L1Cache.clear rows in refl

-- No specified call makes the rows outgrow the capacity.
spec-fits : (cap : ℕ) (k : Call) (v : View) → length v ≤ cap → length (spec cap k v).0 ≤ cap
unfolding spec
spec-fits cap (Call.get now key) v h = unfold read in read-fits (lookup key v) refl
  where
    read-fits :
        (o : Option Row)
        → lookup key v ≡ o
        → length
            (elim o as (λ _. View × Option Row) [
              | none ↦ (v, none)
              | some r ↦
                  if after now r.1 then (delete key v, none) else ((key, r) ∷ delete key v, some r)
            ]).0
          ≤ cap
    read-fits none e = h
    read-fits (some r) e = ground (arith, length-delete key r v e)
spec-fits cap (Call.set now key value ttl) v h =
    omega (arith, length-take cap ((key, (value, now +ℤ ttl)) ∷ delete key v))
spec-fits cap (Call.remove key) v h = elim (Option-cases (lookup key v)) [
  | inl miss ↦ rw (delete_absent key v miss) h
  | inr (r, hit) ↦ omega (arith, length-delete key r v hit)
]
spec-fits cap (Call.delete_pattern pattern) v h =
    omega (arith, length-filter-le (λ x. not (matched pattern x.0 x.1)) v)
spec-fits cap (Call.cleanup_expired now) v h =
    omega (arith, length-filter-le (λ x. not (expired now x.0 x.1)) v)
spec-fits cap Call.clear v h = omega arith

-- Every call keeps the cache valid: linked, and never above its capacity.
pub call-IsValid : (k : Call) {c : L1Cache} → IsValid c → IsValid (call k c).0
call-IsValid k {c} valid = record {
  linked = linked;
  bounded = rw (call-max k c) (
      omega (
        arith,
        length-view linked,
        ap (λ s. length s.0) (call-spec k valid),
        spec-fits (capacity c.max_entries) k (view c) (rw (length-view valid.linked) valid.bounded),
      ));
}
  where
    linked : IsLinked (call k c).0
    linked = call-IsLinked k valid.linked

new-IsValid : (max : ℤ) → IsValid (new max)
new-IsValid max = record { linked = new-IsLinked max; bounded = unfold new size in omega arith }

run-spec_from :
    (calls : List Call) {c : L1Cache}
    → IsValid c
    → IsValid (run calls c).0
      × ((view (run calls c).0, (run calls c).1) ≡ run_spec (capacity c.max_entries) calls (view c))
unfolding run run_spec
run-spec_from [] valid = (valid, refl)
run-spec_from (k ∷ calls) {c} valid =
    let (final, rest) = run-spec_from calls (call-IsValid k valid) in
    (final, ground (arith, rest, call-spec k valid, call-max k c))

-- From a new cache of any capacity, any sequence of calls ends in a cache whose map and recency
-- list are linked and within capacity, and its rows and all the replies are those of the
-- specification on a list of rows.
pub run-spec :
    (max : ℤ) (calls : List Call)
    → IsValid (run calls (new max)).0
      × ((view (run calls (new max)).0, (run calls (new max)).1) ≡ run_spec (capacity max) calls [])
run-spec max calls = unfold new rows in run-spec_from calls (new-IsValid max)
