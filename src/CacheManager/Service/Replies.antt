-- ===== src/CacheManager/Service/Replies.antt =====
-- What `Get` and `Set` of cache-manager/cache.go do for a single key, as the service uses it.
use distributed_caching_syst.Prelude.{zero, suc, ◌≡◌, false, some, arith}
use mathlib.Core.Option
use distributed_caching_syst.Prelude.Int.{ℤ, pos, negsuc, ◌-ℤ◌}
use distributed_caching_syst.GoString.{Bytes, codes, bytes_key, bytes_eq_iff}
use distributed_caching_syst.GoMap.{lookup}
use distributed_caching_syst.CacheManager.L1Cache
use distributed_caching_syst.CacheManager.L1Cache.{L1Cache, CacheEntry, after, hour, get_finish}
use distributed_caching_syst.CacheManager.L1Cache.Rows.{Row}
use distributed_caching_syst.CacheManager.L1Cache.View.{View, view, put, read, reply_row, capacity}
use distributed_caching_syst.CacheManager.L1Cache.Refine.{IsValid, view-get}
use distributed_caching_syst.CacheManager.L1Cache.Runs
use distributed_caching_syst.CacheManager.L1Cache.Runs.{call, call-IsValid}

pub lookup-put_self :
    (max : ℤ) (key : Bytes) (r : Row) (v : View) → lookup key (put (capacity max) key r v) ≡ some r
unfolding lookup
lookup-put_self (pos zero) key r v = ground (arith, bytes_eq_iff key key)
lookup-put_self (pos (suc n)) key r v = ground (arith, bytes_eq_iff key key)
lookup-put_self (negsuc n) key r v = ground (arith, bytes_eq_iff key key)

-- A row that is live is what `Get` replies.
pub get_live :
    {c : L1Cache}
    → IsValid c
    → (now : ℤ) (key : Bytes) (r : Row) → lookup key (view c) ≡ some r
    → after now r.1 ≡ false
    → Option.map reply_row (L1Cache.get now key c).1 ≡ some r
unfolding read
get_live valid now key r found live = ground (arith, view-get valid now key)

-- The reply of the L1 cache carries its source and the approximate time of storing.
pub get_reply :
    (now : ℤ) (key : Bytes) (c : L1Cache) (entry : CacheEntry)
    → (L1Cache.get now key c).1 ≡ some entry
    → entry ≡ record {
      value = entry.value;
      cached_at = entry.expires_at -ℤ hour;
      expires_at = entry.expires_at;
      source = codes "l1";
    }
unfolding L1Cache.get get_finish
get_reply now key c entry e = ground arith

pub set-IsValid :
    {c : L1Cache}
    → IsValid c
    → (now : ℤ) (key value : Bytes) (ttl : ℤ) → IsValid (L1Cache.set now key value ttl c)
set-IsValid valid now key value ttl =
    unfold call in call-IsValid (Runs.Call.set now key value ttl) valid

pub get-IsValid :
    {c : L1Cache} → IsValid c → (now : ℤ) (key : Bytes) → IsValid (L1Cache.get now key c).0
get-IsValid valid now key = unfold call in call-IsValid (Runs.Call.get now key) valid

-- What `Get` replies is in front afterwards.
pub get-keeps :
    {c : L1Cache}
    → IsValid c
    → (now : ℤ) (key : Bytes) (entry : CacheEntry) → (L1Cache.get now key c).1 ≡ some entry
    → lookup key (view (L1Cache.get now key c).0) ≡ some (reply_row entry)
get-keeps valid now key entry e =
    unfold read lookup in ground (arith, view-get valid now key, bytes_eq_iff key key)
