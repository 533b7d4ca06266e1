-- ===== src/Models/Entry/Expiry.antt =====
-- Expiry and metadata of the entries of pkg/models/cache.go.
use distributed_caching_syst.Prelude.{
  ◌≡◌, refl, ◌∙◌, true, false, none, some, List, [], ◌∷◌, if◌then◌else◌, arith, inl, inr,
  Bool-cases,
}
use distributed_caching_syst.Prelude.Int.{ℤ, pos, ◌+ℤ◌, ◌-ℤ◌, ltb_ℤ, int_laws}
use distributed_caching_syst.GoMap.{lookup, insert, Distinct, lookup-insert}
use distributed_caching_syst.GoString.{Bytes, bytes_eq, bytes_eq_iff, bytes_key}
use distributed_caching_syst.Models.Entry.{
  Entry, is_zero, is_expired, expires_at, time_until_expiry, copy_onto, clone, get_metadata,
  set_metadata,
}

left_live :
    (now end : ℤ)
    → ltb_ℤ end now ≡ false
    → now +ℤ (if ltb_ℤ (end -ℤ now) (pos 0) then pos 0 else end -ℤ now) ≡ end
left_live now end h = elim (Bool-cases (ltb_ℤ (end -ℤ now) (pos 0))) [
  | inl negative ↦ absurd (negative_not negative)
  | inr positive ↦ rw positive (omega int_laws)
]
  where
    negative_not : ltb_ℤ (end -ℤ now) (pos 0) ≡ true → ⊥
    negative_not e = unfold ◌-ℤ◌ in ground arith

left_dead :
    (now end : ℤ)
    → ltb_ℤ end now ≡ true
    → (if ltb_ℤ (end -ℤ now) (pos 0) then pos 0 else end -ℤ now) ≡ pos 0
unfolding ◌-ℤ◌
left_dead now end h = ground arith

-- For an entry with a time to live, the three functions on expiry agree at every instant: where it
-- has not expired, the time that is left leads exactly to the instant of expiry, and where it has,
-- no time is left.
pub time_until_expiry_lem :
    (now : ℤ) (e : Entry)
    → is_zero e.ttl ≡ false
    → (end : ℤ) × (expires_at e ≡ some end)
      × (is_expired now e ≡ false → now +ℤ time_until_expiry now e ≡ end)
      × (is_expired now e ≡ true → time_until_expiry now e ≡ pos 0)
unfolding is_expired expires_at time_until_expiry
time_until_expiry_lem now e finite = (
  e.created_at +ℤ e.ttl,
  ground arith,
  λ live. rw finite (left_live now (e.created_at +ℤ e.ttl) (rw finite at live)),
  λ dead. rw finite (left_dead now (e.created_at +ℤ e.ttl) (rw finite at dead)),
)

copy_onto-lookup :
    (rest m : List (Bytes × Bytes)) (k : Bytes)
    → Distinct rest
    → lookup k (copy_onto rest m) ≡ (elim (lookup k rest) [ none ↦ lookup k m | some v ↦ some v ])
unfolding copy_onto lookup
copy_onto-lookup [] m k d = refl
copy_onto-lookup ((j, v) ∷ rest) m k d = ground (
  arith,
  copy_onto-lookup rest (insert j v m) k d.1,
  lookup-insert j k v m,
  bytes_eq_iff j k,
  d.0,
)

-- A clone reads as its entry, whose map has no key twice, under every key of the metadata; what is set on the clone
-- is read back from it, and the other keys read as before.
pub clone-metadata :
    (e : Entry) (m : List (Bytes × Bytes))
    → e.metadata ≡ some m
    → Distinct m
    → (key value k : Bytes)
    → (get_metadata k (clone e) ≡ get_metadata k e)
      × (get_metadata k (set_metadata key value (clone e))
          ≡ (if bytes_eq key k then some value else get_metadata k e))
unfolding clone get_metadata set_metadata
clone-metadata e m there d key value k =
    (rw there copied, rw there (lookup-insert key k value (copy_onto m []) ∙ rw copied refl))
  where
    copied : lookup k (copy_onto m []) ≡ lookup k m
    copied = copy_onto-lookup m [] k d ∙ read
      where
        read : (elim (lookup k m) [ none ↦ lookup k [] | some v ↦ some v ]) ≡ lookup k m
        read = unfold lookup in ground arith
