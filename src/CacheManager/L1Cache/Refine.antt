-- ===== src/CacheManager/L1Cache/Refine.antt =====
-- `Get` and `Set` of cache-manager/cache.go against `read` and `put` on the rows.
use mathlib.Core.Option
use distributed_caching_syst.Prelude.{
  nat_eq, ℕ, suc, zero, ◌-◌, ◌≤◌, ◌≡◌, refl, true, false, List, [], ◌∷◌, arith, inl, inr, length,
  Option-cases, Bool-cases, drop_last, ap, take, take_of_length-le, ◌∙◌, sym,
}
use distributed_caching_syst.Prelude.Int.{ℤ, pos, negsuc, ◌+ℤ◌, leb_ℤ}
use distributed_caching_syst.GoMap.{lookup, delete_absent, length-delete}
use distributed_caching_syst.GoString.{Bytes, bytes_key}
use distributed_caching_syst.CacheManager.L1Cache.{L1Cache, size, make_room, set, get_finish, get}
use distributed_caching_syst.CacheManager.L1Cache.Links.{IsLinked}
use distributed_caching_syst.CacheManager.L1Cache.Steps.{make_room-IsLinked, make_room-absent}
use distributed_caching_syst.CacheManager.L1Cache.Rows.{Row, row, length-rows}
use distributed_caching_syst.CacheManager.L1Cache.View.{
  View, view, capacity, put, read, reply_row, links, length-view, lookup-view-some,
  lookup-view-none, view-delete_unsafe, view-touch, view-update_entry, view-push_entry, view-evict,
}

drop_last-take {ℓ} : {A : Type ℓ} (n : ℕ) (v : List A) → length v ≡ suc n → drop_last v ≡ take n v
drop_last-take n [] h = absurd (omega arith)
drop_last-take zero (x ∷ []) h = refl
drop_last-take zero (x ∷ y ∷ v) h = absurd (omega arith)
drop_last-take (suc n) (x ∷ []) h = absurd (omega arith)
drop_last-take (suc n) (x ∷ y ∷ v) h = ap (◌∷◌ x) (drop_last-take n (y ∷ v) (omega arith))

-- The eviction test makes room for one more row, and never more.
room_full :
    (max : ℤ) (v : View)
    → length v ≤ capacity max
    → leb_ℤ max (pos (length v)) ≡ true
    → drop_last v ≡ take (capacity max - 1) v
room_full max [] h full = sym (take_of_length-le _ [] (omega arith))
room_full max (x ∷ v) h full =
    drop_last-take (capacity max - 1) (x ∷ v) (full_length max (length v) h full)
  where
    full_length :
        (max : ℤ) (n : ℕ)
        → suc n ≤ capacity max
        → leb_ℤ max (pos (suc n)) ≡ true
        → suc n ≡ suc (capacity max - 1)
    full_length (pos zero) n h full = ground arith
    full_length (pos (suc k)) n h full = ground arith
    full_length (negsuc k) n h full = ground arith

room_space :
    (max : ℤ) (v : View) → leb_ℤ max (pos (length v)) ≡ false → v ≡ take (capacity max - 1) v
room_space max v space = sym (take_of_length-le _ v (space_length max (length v) space))
  where
    space_length : (max : ℤ) (n : ℕ) → leb_ℤ max (pos n) ≡ false → n ≤ capacity max - 1
    space_length (pos zero) n space = ground arith
    space_length (pos (suc k)) n space = ground arith
    space_length (negsuc k) n space = ground arith

first_and_rest :
    (v : View) (x : Bytes × Row) (max : ℤ)
    → x ∷ take (capacity max - 1) v ≡ take (capacity max) (x ∷ v)
first_and_rest v x (pos zero) = refl
first_and_rest v x (pos (suc k)) = ground arith
first_and_rest v x (negsuc k) = refl

-- The links are sound, and the rows fit.
pub record IsValid (c : L1Cache) : Type 0 where
  pub linked : IsLinked c
  pub bounded : size c ≤ capacity c.max_entries

module _ {c : L1Cache} (valid : IsValid c) where
  fits : length (view c) ≤ capacity c.max_entries
  fits = omega (arith, length-view valid.linked, valid.bounded)

  view-make_room : view (make_room c) ≡ take (capacity c.max_entries - 1) (view c)
  unfolding make_room
  view-make_room = elim (Bool-cases (leb_ℤ c.max_entries (pos (length c.lru_list)))) [
    | inl full ↦
        rw (full, make_room)
          (view-evict valid.linked ∙ room_full c.max_entries (view c) fits (rw same_length full))
    | inr space ↦ rw (space, make_room) (room_space c.max_entries (view c) (rw same_length space))
  ]
    where
      same_length : length (view c) ≡ length c.lru_list
      same_length = length-rows c.cache c.lru_list (links valid.linked)

  -- `Set` stores the row in front of the others and evicts the last ones that no longer fit.
  pub view-set :
      (now : ℤ) (key value : Bytes) (ttl : ℤ)
      → view (set now key value ttl c)
        ≡ put (capacity c.max_entries) key (value, now +ℤ ttl) (view c)
  unfolding set
  view-set now key value ttl = elim (Option-cases (lookup key c.cache)) [
    | inl miss ↦
        rw (miss, set)
          (view-push_entry (make_room-IsLinked valid.linked) key value (now +ℤ ttl)
              (make_room-absent valid.linked key miss)
            ∙ ap (◌∷◌ (key, (value, now +ℤ ttl))) view-make_room
            ∙ first_and_rest (view c) (key, (value, now +ℤ ttl)) c.max_entries
            ∙ ap (λ v. take (capacity c.max_entries) ((key, (value, now +ℤ ttl)) ∷ v))
                (sym (delete_absent key (view c) (lookup-view-none valid.linked key miss))))
    | inr (entry, hit) ↦
        rw (hit, set)
          (view-update_entry valid.linked key value (now +ℤ ttl) entry hit
            ∙ sym (
                take_of_length-le _ _ (
                  omega (
                    arith,
                    length-delete key (row entry) (view c)
                        (lookup-view-some valid.linked key entry hit),
                    fits,
                  ))))
  ]

  -- `Get` reads the row; a live row comes to the front, an expired one goes.
  pub view-get :
      (now : ℤ) (key : Bytes)
      → (view (get now key c).0 ≡ (read now key (view c)).0)
        × (Option.map reply_row (get now key c).1 ≡ (read now key (view c)).1)
  unfolding get get_finish read
  view-get now key = elim (Option-cases (lookup key c.cache)) [
    | inl miss ↦ ground (arith, lookup-view-none valid.linked key)
    | inr (entry, hit) ↦ ground (
      arith,
      lookup-view-some valid.linked key entry hit,
      view-delete_unsafe valid.linked key,
      view-touch valid.linked key entry hit,
    )
  ]
