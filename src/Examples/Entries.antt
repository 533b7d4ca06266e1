-- ===== src/Examples/Entries.antt =====
-- Cache entries on concrete inputs.
use distributed_caching_syst.Prelude.{◌≡◌, refl, true, false, some, [], ◌∷◌}
use distributed_caching_syst.Prelude.Int.{ℤ, pos, ◌+ℤ◌}
use distributed_caching_syst.GoString.{codes, bytes_key}
use distributed_caching_syst.Models.Entry.{Entry, is_expired, expires_at, time_until_expiry}
use distributed_caching_syst.Models.Entry.Expiry.{time_until_expiry_lem}

abbrev stored : Entry
stored = record {
  key = codes "k";
  value = codes "v";
  created_at = pos 100;
  last_access = pos 100;
  ttl = pos 50;
  access_count = 0;
  metadata = some ((codes "owner", codes "a") ∷ (codes "kind", codes "b") ∷ []);
}

time_until_expiry_lem_example :
    (end : ℤ) × (expires_at stored ≡ some end)
    × (is_expired (pos 120) stored ≡ false → pos 120 +ℤ time_until_expiry (pos 120) stored ≡ end)
    × (is_expired (pos 120) stored ≡ true → time_until_expiry (pos 120) stored ≡ pos 0)
time_until_expiry_lem_example = time_until_expiry_lem (pos 120) stored refl
