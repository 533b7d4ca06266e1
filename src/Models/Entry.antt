-- ===== src/Models/Entry.antt =====
-- pkg/models/cache.go, but for the rates of `Stats`. Instants and durations are integers in nanoseconds; the
-- zero time is `none`. A nil metadata map is `none`.
pub mod Expiry
use distributed_caching_syst.Prelude.{
  ℕ, ◌+◌, ◌-◌, ◌%◌, ◌^◌, Bool, true, false, Option, none, some, List, [], ◌∷◌, if◌then◌else◌,
  length,
}
use distributed_caching_syst.Prelude.Int.{ℤ, pos, ◌+ℤ◌, ◌-ℤ◌, ltb_ℤ, leb_ℤ}
use distributed_caching_syst.GoMap.{lookup, insert}
use distributed_caching_syst.GoString.{Bytes, bytes_eq, bytes_key}

pub record Entry : Type 0 where
  pub key : Bytes
  pub value : Bytes
  pub created_at : ℤ
  pub last_access : ℤ
  pub ttl : ℤ
  pub access_count : ℕ
  pub metadata : Option (List (Bytes × Bytes))

-- An hour.
abbrev pub default_ttl : ℤ
default_ttl = pos 3_600_000_000_000

-- The longest duration, which stands for never.
abbrev pub max_duration : ℤ
max_duration = pos (2 ^ 63 - 1)

unfoldable pub new_entry_with_ttl : ℤ → Bytes → Bytes → ℤ → Entry
new_entry_with_ttl now key value ttl = record {
  key = key;
  value = value;
  created_at = now;
  last_access = now;
  ttl = ttl;
  access_count = 0;
  metadata = some [];
}

unfoldable pub new_entry : ℤ → Bytes → Bytes → Entry
unfolding new_entry_with_ttl
new_entry now key value = new_entry_with_ttl now key value default_ttl

abbrev pub is_zero : ℤ → Bool
is_zero ttl = if leb_ℤ ttl (pos 0) then leb_ℤ (pos 0) ttl else false

unfoldable pub is_expired : ℤ → Entry → Bool
is_expired now e = if is_zero e.ttl then false else ltb_ℤ (e.created_at +ℤ e.ttl) now

unfoldable pub expires_at : Entry → Option ℤ
expires_at e = if is_zero e.ttl then none else some (e.created_at +ℤ e.ttl)

unfoldable pub time_until_expiry : ℤ → Entry → ℤ
time_until_expiry now e =
    let remaining = (e.created_at +ℤ e.ttl) -ℤ now in
    if is_zero e.ttl then max_duration else (if ltb_ℤ remaining (pos 0) then pos 0 else remaining)

unfoldable pub touch : ℤ → Entry → Entry
touch now e = record e { last_access = now; access_count = (e.access_count + 1) % 2 ^ 64 }

unfoldable pub get_access_count : Entry → ℕ
get_access_count e = e.access_count

unfoldable pub reset_access_count : Entry → Entry
reset_access_count e = record e { access_count = 0 }

metadata_size : List (Bytes × Bytes) → ℕ
metadata_size [] = 0
metadata_size ((k, v) ∷ m) = length k + length v + metadata_size m

-- The approximate number of bytes.
unfoldable pub size : Entry → ℕ
unfolding metadata_size
size e =
    length e.key + length e.value + (elim e.metadata [ none ↦ 0 | some m ↦ metadata_size m ]) + 64

-- The loop of `Clone` over the metadata.
unfoldable pub copy_onto : List (Bytes × Bytes) → List (Bytes × Bytes) → List (Bytes × Bytes)
copy_onto [] m = m
copy_onto ((k, v) ∷ rest) m = copy_onto rest (insert k v m)

unfoldable pub clone : Entry → Entry
clone e = record e { metadata = some (copy_onto (elim e.metadata [ none ↦ [] | some m ↦ m ]) []) }

unfoldable pub set_metadata : Bytes → Bytes → Entry → Entry
set_metadata key value e = record e {
  metadata = some (insert key value (elim e.metadata [ none ↦ [] | some m ↦ m ]));
}

unfoldable pub get_metadata : Bytes → Entry → Option Bytes
get_metadata key e = elim e.metadata [ none ↦ none | some m ↦ lookup key m ]
