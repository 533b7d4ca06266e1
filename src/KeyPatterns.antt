-- ===== src/KeyPatterns.antt =====
-- pkg/utils/pattern.go. The package's cache of compiled expressions is passed along; package regexp is the record of
-- Invalidation.Patterns.
pub mod Scans
use distributed_caching_syst.Prelude.{
  ℕ, zero, suc, ◌+◌, ◌-◌, Bool, true, false, not, ◌&&◌, ◌||◌, Option, none, some, List, [], ◌∷◌,
  ◌++◌, if◌then◌else◌, length, take, ◌==◌, filter,
}
use distributed_caching_syst.GoMap.{lookup, insert}
use distributed_caching_syst.GoString.{
  Bytes, codes, bytes_eq, bytes_key, contains, has_prefix, has_suffix,
}
use distributed_caching_syst.Invalidation.Patterns.{Regexp, is_empty, asterisk}

pub data Error : Type 0 where
  empty_pattern invalid_regex : Error

pub data Reply {ℓ} (A : Type ℓ) : Type ℓ where
  ok : A → Reply A
  err : Error → Reply A

abbrev pub regex_chars : Bytes
regex_chars = codes ".+()|[]{}^$\\"

unfoldable pub glob_to_regex : Bytes → Bytes
glob_to_regex [] = []
glob_to_regex (ch ∷ pattern) =
    let rest = glob_to_regex pattern in
    if ch == b'*'
    then b'.' ∷ b'*' ∷ rest
    else if ch == b'?'
    then b'.' ∷ rest
    else if contains (ch ∷ []) regex_chars
    then b'\\' ∷ ch ∷ rest
    else ch ∷ rest

unfoldable pub prefix_match : Bytes → Bytes → Bool
prefix_match prefix key = has_prefix prefix key

-- `pattern[:len(pattern)-1]`
abbrev pub without_last : Bytes → Bytes
without_last pattern = take (length pattern - 1) pattern

-- The test of the fast path: one asterisk, at the end.
abbrev pub is_prefix_pattern : Bytes → Bool
is_prefix_pattern pattern =
    has_suffix asterisk pattern && not (contains asterisk (without_last pattern))

abbrev pub to_regex : Bytes → Bytes
to_regex pattern =
    if contains asterisk pattern || contains (codes "?") pattern
    then glob_to_regex pattern
    else pattern

abbrev pub anchored : Bytes → Bytes
anchored regex = codes "^" ++ regex ++ codes "$"

abbrev pub keep : Bytes → Bool → Reply (List Bytes) → Reply (List Bytes)
keep key true (ok found) = ok (key ∷ found)
keep key false (ok found) = ok found
keep key matched (err e) = err e

module _ {R : Type 0} (re : Regexp R) where
  -- The part of `MatchPattern` from the look into the cache on.
  unfoldable pub match_cached : Bytes → Bytes → List (Bytes × R) → List (Bytes × R) × Reply Bool
  match_cached regex key cache = elim (lookup regex cache) [
    | some r ↦ (cache, ok (re.match_string r key))
    | none ↦ elim (re.compile (anchored regex)) [
      | none ↦ (cache, err invalid_regex)
      | some r ↦ (insert regex r cache, ok (re.match_string r key))
    ]
  ]

  unfoldable pub match_pattern : Bytes → Bytes → List (Bytes × R) → List (Bytes × R) × Reply Bool
  match_pattern pattern key cache =
      if is_empty pattern
      then (cache, err empty_pattern)
      else if bytes_eq pattern key
      then (cache, ok true)
      else if is_prefix_pattern pattern
      then (cache, ok (has_prefix (without_last pattern) key))
      else if bytes_eq pattern asterisk
      then (cache, ok true)
      else match_cached (to_regex pattern) key cache

  -- The loop of `FilterKeys`, which ends at the first error.
  unfoldable pub scan :
      Bytes → List Bytes → List (Bytes × R) → List (Bytes × R) × Reply (List Bytes)
  scan pattern [] cache = (cache, ok [])
  scan pattern (key ∷ keys) cache =
      let (cache', reply) = match_pattern pattern key cache in
      let (cache'', rest) = scan pattern keys cache' in
      elim reply [ err e ↦ (cache', err e) | ok matched ↦ (cache'', keep key matched rest) ]

  unfoldable pub filter_keys :
      Bytes → List Bytes → List (Bytes × R) → List (Bytes × R) × Reply (List Bytes)
  filter_keys pattern keys cache =
      if is_empty pattern
      then (cache, err empty_pattern)
      else if bytes_eq pattern asterisk
      then (cache, ok keys)
      else if is_prefix_pattern pattern
      then (cache, ok (filter (has_prefix (without_last pattern)) keys))
      else scan pattern keys cache

unfoldable pub clear_regex_cache : {R : Type 0} → List (Bytes × R) → List (Bytes × R)
clear_regex_cache cache = []

unfoldable pub regex_cache_size : {R : Type 0} → List (Bytes × R) → ℕ
regex_cache_size cache = length cache
