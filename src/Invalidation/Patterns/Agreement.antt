-- ===== src/Invalidation/Patterns/Agreement.antt =====
-- The matcher of invalidation/patterns.go against what it promises: its cache of compiled expressions,
-- its two ways to count, and the patterns that cache-manager/cache.go reads in its own way.
use distributed_caching_syst.Prelude.{
  ℕ, ◌≡◌, refl, ap, sym, ◌∙◌, false, some, List, [], ◌∷◌, ◌++◌, length, filter, arith, inl, inr,
  Bool-cases, Option-cases,
}
use distributed_caching_syst.GoMap.{lookup, lookup-insert}
use distributed_caching_syst.GoString.{
  Bytes, bytes_eq, bytes_eq_iff, bytes_key, contains, has_prefix, has_suffix, trim_prefix,
  trim_suffix,
}
use distributed_caching_syst.CacheManager.L1Cache.{matches_pattern}
use distributed_caching_syst.Invalidation.Patterns.{
  Regexp, PatternMatcher, asterisk, is_wildcard, is_regex, wildcard_to_regex, find_exact,
  count_exact, is_empty, match_regex, match_wildcard, match, match_count, new_pattern_matcher,
}
use distributed_caching_syst.Invalidation.Patterns.Affix.{
  contains-append_self, has_suffix-append_self, trim_suffix-append_self, has_suffix-absent,
  has_suffix-cons,
}

module _ {R : Type 0} (re : Regexp R) where
  -- Every expression in the cache is the compiled form of its key.
  abbrev pub IsCompiled : PatternMatcher R → Type 0
  IsCompiled pm =
      (pattern : Bytes) (r : R)
      → lookup pattern pm.regex_cache ≡ some r
      → re.compile pattern ≡ some r

  match_regex-pure :
      (pattern : Bytes) (keys : List Bytes) (pm : PatternMatcher R)
      → IsCompiled pm
      → (match_regex re pattern keys pm).1 ≡ (match_regex re pattern keys new_pattern_matcher).1
  unfolding match_regex lookup
  match_regex-pure pattern keys pm good = elim (Option-cases (lookup pattern pm.regex_cache)) [
    | inl fresh ↦ ground arith
    | inr (r, kept) ↦ ground (arith, good pattern r kept)
  ]

  match_regex-IsCompiled :
      (pattern : Bytes) (keys : List Bytes) (pm : PatternMatcher R)
      → IsCompiled pm
      → IsCompiled (match_regex re pattern keys pm).0
  unfolding match_regex
  match_regex-IsCompiled pattern keys pm good other r e =
      elim (Option-cases (lookup pattern pm.regex_cache)) [
        | inr (r', kept) ↦ good other r (ground arith)
        | inl fresh ↦ elim (Option-cases (re.compile pattern)) [
          | inl bad ↦ good other r (ground arith)
          | inr (r', made) ↦ elim (Bool-cases (bytes_eq pattern other)) [
            | inl same ↦
                ground
                  (arith, lookup-insert pattern other r' pm.regex_cache, bytes_eq_iff pattern other)
            | inr apart ↦
                good other r (ground (arith, lookup-insert pattern other r' pm.regex_cache))
          ]
        ]
      ]

  -- The cache of compiled expressions is never seen: a matcher whose cache holds compiled forms only replies what a
  -- new matcher replies, and its cache holds compiled forms only afterwards.
  pub match-pure :
      (pattern : Bytes) (keys : List Bytes) (pm : PatternMatcher R)
      → IsCompiled pm
      → ((match re pattern keys pm).1 ≡ (match re pattern keys new_pattern_matcher).1)
        × IsCompiled (match re pattern keys pm).0
  unfolding match match_wildcard
  match-pure pattern keys pm good = (
    ground (
      arith,
      match_regex-pure pattern keys pm good,
      match_regex-pure (wildcard_to_regex pattern) keys pm good,
    ),
    λ other r e. ground (
      arith,
      good other r,
      match_regex-IsCompiled pattern keys pm good other r,
      match_regex-IsCompiled (wildcard_to_regex pattern) keys pm good other r,
    ),
  )

  find-count :
      (pattern : Bytes) (keys : List Bytes)
      → length (find_exact pattern keys) ≡ count_exact re pattern keys
  unfolding find_exact count_exact
  find-count pattern [] = refl
  find-count pattern (key ∷ keys) = ground (arith, find-count pattern keys)

  -- `MatchCount` is the number of keys that `Match` replies, and it leaves the same cache.
  pub match_count-length :
      (pattern : Bytes) (keys : List Bytes) (pm : PatternMatcher R)
      → ((match_count re pattern keys pm).1 ≡ length (match re pattern keys pm).1)
        × ((match_count re pattern keys pm).0 ≡ (match re pattern keys pm).0)
  unfolding match_count
  match_count-length pattern keys pm = elim (Bool-cases (is_empty pattern)) [
    | inl empty ↦ (unfold match in ground arith, unfold match in ground arith)
    | inr given ↦ elim (Bool-cases (is_wildcard pattern)) [
      | inl wild ↦ (ground arith, ground arith)
      | inr exact ↦ elim (Bool-cases (is_regex pattern)) [
        | inl regex ↦ (ground arith, ground arith)
        | inr plain ↦
            (unfold match in ground (arith, find-count pattern keys), unfold match in ground arith)
      ]
    ]
  ]

  every_key : (keys : List Bytes) → filter (has_prefix []) keys ≡ keys
  unfolding has_prefix
  every_key [] = refl
  every_key (key ∷ keys) = ap (◌∷◌ key) (every_key keys)

  match-star_last :
      (prefix : Bytes) (keys : List Bytes) (pm : PatternMatcher R)
      → contains asterisk prefix ≡ false
      → (match re (prefix ++ asterisk) keys pm).1 ≡ filter (has_prefix prefix) keys
  unfolding match match_wildcard is_wildcard
  match-star_last [] keys pm plain = unfold contains has_prefix in sym (every_key keys)
  match-star_last (b ∷ prefix) keys pm plain =
      rw
        (
          contains-append_self b'*' (b ∷ prefix),
          first plain,
          longer prefix,
          has_suffix-append_self b'*' (b ∷ prefix),
          trim_suffix-append_self b'*' (b ∷ prefix),
        )
        (ground arith)
    where
      longer : (prefix : Bytes) → bytes_eq ((b ∷ prefix) ++ asterisk) asterisk ≡ false
      longer [] = ground arith
      longer (a ∷ prefix) = ground arith

      first :
          contains asterisk (b ∷ prefix) ≡ false
          → has_prefix asterisk (b ∷ prefix ++ asterisk) ≡ false
      first plain = unfold contains has_prefix in ground arith

  match-star_first :
      (b : ℕ) (suffix : Bytes) (keys : List Bytes) (pm : PatternMatcher R)
      → has_suffix asterisk (b'*' ∷ b ∷ suffix) ≡ false
      → (match re (b'*' ∷ b ∷ suffix) keys pm).1 ≡ filter (has_suffix (b ∷ suffix)) keys
  unfolding match match_wildcard is_wildcard contains has_prefix trim_prefix
  match-star_first b suffix keys pm last = rw last refl

  -- A prefix pattern, whose one asterisk is its last byte, means the same to the invalidation service and to the L1
  -- cache: the keys that start with what stands before the asterisk.
  pub match-prefix :
      (prefix : Bytes) (keys : List Bytes) (pm : PatternMatcher R)
      → contains asterisk prefix ≡ false
      → ((match re (prefix ++ asterisk) keys pm).1 ≡ filter (has_prefix prefix) keys)
        × ((key : Bytes)
            → matches_pattern key (prefix ++ asterisk) (trim_suffix asterisk (prefix ++ asterisk))
              ≡ has_prefix prefix key)
  match-prefix prefix keys pm plain = (
    match-star_last prefix keys pm plain,
    λ key.
        unfold matches_pattern in
        rw (has_suffix-append_self b'*' prefix, trim_suffix-append_self b'*' prefix) refl,
  )

  -- A suffix pattern, whose one asterisk is its first byte, means the keys with the suffix to the invalidation
  -- service, and to the L1 cache only the key that is spelled like the pattern.
  pub match-suffix :
      (b : ℕ) (suffix : Bytes) (keys : List Bytes) (pm : PatternMatcher R)
      → contains asterisk (b ∷ suffix) ≡ false
      → ((match re (b'*' ∷ b ∷ suffix) keys pm).1 ≡ filter (has_suffix (b ∷ suffix)) keys)
        × ((key : Bytes)
            → matches_pattern key (b'*' ∷ b ∷ suffix) (trim_suffix asterisk (b'*' ∷ b ∷ suffix))
              ≡ bytes_eq key (b'*' ∷ b ∷ suffix))
  match-suffix b suffix keys pm plain =
      let last : has_suffix asterisk (b'*' ∷ b ∷ suffix) ≡ false =
        has_suffix-cons b'*' b'*' b suffix ∙ has_suffix-absent b'*' (b ∷ suffix) plain in
      (match-star_first b suffix keys pm last, λ key. unfold matches_pattern in rw last refl)
