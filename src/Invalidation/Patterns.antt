-- ===== src/Invalidation/Patterns.antt =====
-- invalidation/patterns.go. `compile` and `match_string` are those of package regexp; the matcher keeps
-- what it compiled in a map that is passed along.
pub mod Affix
pub mod Agreement
use distributed_caching_syst.Prelude.{
  ℕ, ◌+◌, Bool, true, false, ◌&&◌, ◌||◌, Option, none, some, List, [], ◌∷◌, ◌++◌, if◌then◌else◌,
  length, ltb, ◌==◌, filter,
}
use distributed_caching_syst.GoMap.{lookup, insert}
use distributed_caching_syst.GoString.{
  Bytes, codes, bytes_eq, bytes_key, contains, has_prefix, has_suffix, trim_prefix, trim_suffix,
  trim,
}

pub record Regexp (R : Type 0) : Type 0 where
  pub compile : Bytes → Option R
  pub match_string : R → Bytes → Bool

pub record PatternMatcher (R : Type 0) : Type 0 where
  pub regex_cache : List (Bytes × R)

abbrev pub new_pattern_matcher : {R : Type 0} → PatternMatcher R
new_pattern_matcher = record { regex_cache = [] }

pub data Error : Type 0 where
  too_long bad_regex : Error

abbrev pub asterisk : Bytes
asterisk = b'*' ∷ []

unfoldable pub is_wildcard : Bytes → Bool
is_wildcard pattern = contains asterisk pattern

any_of : List Bytes → Bytes → Bool
any_of [] pattern = false
any_of (part ∷ parts) pattern = if contains part pattern then true else any_of parts pattern

abbrev regex_chars : List Bytes
regex_chars =
    codes "["
    ∷ codes "]"
    ∷ codes "("
    ∷ codes ")"
    ∷ codes "^"
    ∷ codes "$"
    ∷ codes "+"
    ∷ codes "?"
    ∷ codes "{"
    ∷ codes "}"
    ∷ codes "|"
    ∷ []

unfoldable pub is_regex : Bytes → Bool
unfolding any_of
is_regex pattern = any_of regex_chars pattern

-- The bytes that `regexp.QuoteMeta` puts a backslash before.
is_special : ℕ → Bool
unfolding contains
is_special c = contains (c ∷ []) (codes "\\.+*?()|[]{}^$")

quote_meta : Bytes → Bytes
unfolding is_special
quote_meta [] = []
quote_meta (c ∷ s) = if is_special c then b'\\' ∷ c ∷ quote_meta s else c ∷ quote_meta s

-- `strings.ReplaceAll(s, "\\*", ".*")`; `held` says that the byte before is a backslash not yet written.
replace_stars : Bool → Bytes → Bytes
replace_stars true [] = b'\\' ∷ []
replace_stars false [] = []
replace_stars true (c ∷ s) =
    if c == b'*'
    then b'.' ∷ b'*' ∷ replace_stars false s
    else (if c == b'\\' then b'\\' ∷ replace_stars true s else b'\\' ∷ c ∷ replace_stars false s)
replace_stars false (c ∷ s) = if c == b'\\' then replace_stars true s else c ∷ replace_stars false s

unfoldable pub wildcard_to_regex : Bytes → Bytes
unfolding quote_meta replace_stars
wildcard_to_regex pattern = b'^' ∷ replace_stars false (quote_meta pattern) ++ b'$' ∷ []

-- The loop of the exact match, which ends at the first hit.
unfoldable pub find_exact : Bytes → List Bytes → List Bytes
find_exact pattern [] = []
find_exact pattern (key ∷ keys) = if bytes_eq key pattern then key ∷ [] else find_exact pattern keys

abbrev pub is_empty : Bytes → Bool
is_empty [] = true
is_empty (_ ∷ _) = false

module _ {R : Type 0} (re : Regexp R) where
  unfoldable pub match_regex : Bytes → List Bytes → PatternMatcher R → PatternMatcher R × List Bytes
  match_regex pattern keys pm = elim (lookup pattern pm.regex_cache) [
    | some r ↦ (pm, filter (re.match_string r) keys)
    | none ↦ elim (re.compile pattern) [
      | none ↦ (pm, [])
      | some r ↦ (
        record pm { regex_cache = insert pattern r pm.regex_cache },
        filter (re.match_string r) keys,
      )
    ]
  ]

  unfoldable pub match_wildcard :
      Bytes → List Bytes → PatternMatcher R → PatternMatcher R × List Bytes
  match_wildcard pattern keys pm =
      if bytes_eq pattern asterisk
      then (pm, keys)
      else if has_prefix asterisk pattern && has_suffix asterisk pattern
      then (pm, filter (contains (trim b'*' pattern)) keys)
      else if has_prefix asterisk pattern
      then (pm, filter (has_suffix (trim_prefix asterisk pattern)) keys)
      else if has_suffix asterisk pattern
      then (pm, filter (has_prefix (trim_suffix asterisk pattern)) keys)
      else match_regex (wildcard_to_regex pattern) keys pm

  unfoldable pub match : Bytes → List Bytes → PatternMatcher R → PatternMatcher R × List Bytes
  match pattern keys pm =
      if is_empty pattern
      then (pm, [])
      else if is_wildcard pattern
      then match_wildcard pattern keys pm
      else if is_regex pattern
      then match_regex pattern keys pm
      else (pm, find_exact pattern keys)

  -- The loop of `MatchCount` for an exact pattern.
  unfoldable pub count_exact : Bytes → List Bytes → ℕ
  count_exact pattern [] = 0
  count_exact pattern (key ∷ keys) = if bytes_eq key pattern then 1 else count_exact pattern keys

  unfoldable pub match_count : Bytes → List Bytes → PatternMatcher R → PatternMatcher R × ℕ
  match_count pattern keys pm =
      if is_empty pattern
      then (pm, 0)
      else if is_wildcard pattern || is_regex pattern
      then (let (pm', matches) = match pattern keys pm in (pm', length matches))
      else (pm, count_exact pattern keys)

  unfoldable pub validate_pattern : Bytes → Option Error
  validate_pattern pattern =
      if is_empty pattern
      then none
      else if ltb 1000 (length pattern)
      then some too_long
      else if is_regex pattern
      then elim (re.compile pattern) [ none ↦ some bad_regex | some _ ↦ none ]
      else none

unfoldable pub clear_cache : {R : Type 0} → PatternMatcher R → PatternMatcher R
clear_cache pm = record pm { regex_cache = [] }

unfoldable pub cache_size : {R : Type 0} → PatternMatcher R → ℕ
cache_size pm = length pm.regex_cache
