-- ===== src/KeyPatterns/Scans.antt =====
-- `FilterKeys` of pkg/utils/pattern.go against `MatchPattern` on each key, whatever the cache of compiled expressions
-- has seen.
use distributed_caching_syst.Prelude.{
  ℕ, zero, suc, ◌-◌, ◌≡◌, refl, sym, ap, ◌∙◌, Bool, true, false, some, List, [], ◌∷◌, if◌then◌else◌,
  length, take, ==_iff, filter, arith, inl, inr, Bool-cases, Option-cases, if_cases,
}
use distributed_caching_syst.GoMap.{lookup, lookup-insert}
use distributed_caching_syst.GoString.{
  Bytes, bytes_eq, bytes_eq_iff, bytes_key, contains, has_prefix, has_suffix,
}
use distributed_caching_syst.Invalidation.Patterns.{Regexp, is_empty, asterisk}
use distributed_caching_syst.KeyPatterns.{
  Reply, ok, err, keep, without_last, is_prefix_pattern, to_regex, anchored, match_cached,
  match_pattern, scan, filter_keys,
}

-- The keys that are accepted, or the first error.
abbrev pub chosen : (Bytes → Reply Bool) → List Bytes → Reply (List Bytes)
chosen accepts [] = ok []
chosen accepts (key ∷ keys) = elim (accepts key) [
  | err e ↦ err e
  | ok matched ↦ keep key matched (chosen accepts keys)
]

has_prefix-take : (n : ℕ) (s : Bytes) → has_prefix (take n s) s ≡ true
unfolding has_prefix
has_prefix-take zero s = refl
has_prefix-take (suc n) [] = refl
has_prefix-take (suc n) (b ∷ s) = ground (arith, ==_iff b b, has_prefix-take n s)

chosen-filter :
    (accepts : Bytes → Reply Bool) (p : Bytes → Bool)
    → ((key : Bytes) → accepts key ≡ ok (p key))
    → (keys : List Bytes) → chosen accepts keys ≡ ok (filter p keys)
chosen-filter accepts p h [] = refl
chosen-filter accepts p h (key ∷ keys) =
    ap
      (λ (reply : Reply Bool). elim reply [
        | err e ↦ err e
        | ok matched ↦ keep key matched (chosen accepts keys)
      ])
      (h key)
    ∙ ap (keep key (p key)) (chosen-filter accepts p h keys)
    ∙ kept (p key)
  where
    kept :
        (b : Bool)
        → keep key b (ok (filter p keys)) ≡ ok (if b then key ∷ filter p keys else filter p keys)
    kept true = refl
    kept false = refl

fast-asterisk : is_prefix_pattern asterisk ≡ true
unfolding has_suffix contains has_prefix
fast-asterisk = refl

filter-all : (keys : List Bytes) → filter (has_prefix []) keys ≡ keys
unfolding has_prefix
filter-all [] = refl
filter-all (key ∷ keys) = ap (◌∷◌ key) (filter-all keys)

module _ {R : Type 0} (re : Regexp R) where
  -- Every expression in the cache is the compiled form of its key, anchored.
  abbrev pub IsSound : List (Bytes × R) → Type 0
  IsSound cache =
      (regex : Bytes) (r : R) → lookup regex cache ≡ some r → re.compile (anchored regex) ≡ some r

  abbrev pub verdict : Bytes → Bytes → Reply Bool
  verdict pattern key = (match_pattern re pattern key []).1

  match_cached-IsSound :
      (regex key : Bytes) (cache : List (Bytes × R))
      → IsSound cache
      → IsSound (match_cached re regex key cache).0
  unfolding match_cached
  match_cached-IsSound regex key cache good other r e = elim (Option-cases (lookup regex cache)) [
    | inr (r', kept) ↦ good other r (ground arith)
    | inl fresh ↦ elim (Option-cases (re.compile (anchored regex))) [
      | inl bad ↦ good other r (ground arith)
      | inr (r', made) ↦ elim (Bool-cases (bytes_eq regex other)) [
        | inl same ↦ ground (arith, lookup-insert regex other r' cache, bytes_eq_iff regex other)
        | inr apart ↦ good other r (ground (arith, lookup-insert regex other r' cache))
      ]
    ]
  ]

  match_cached-pure :
      (regex key : Bytes) (cache : List (Bytes × R))
      → IsSound cache
      → (match_cached re regex key cache).1 ≡ (match_cached re regex key []).1
  unfolding match_cached lookup
  match_cached-pure regex key cache good = elim (Option-cases (lookup regex cache)) [
    | inl fresh ↦ ground arith
    | inr (r, kept) ↦ ground (arith, good regex r kept)
  ]

  match_pattern-IsSound :
      (pattern key : Bytes) (cache : List (Bytes × R))
      → IsSound cache
      → IsSound (match_pattern re pattern key cache).0
  unfolding match_pattern
  match_pattern-IsSound pattern key cache good =
      let Good = λ (o : List (Bytes × R) × Reply Bool). IsSound o.0 in
      if_cases Good (is_empty pattern) _ _ (λ _. good)
        (λ _.
          if_cases Good (bytes_eq pattern key) _ _ (λ _. good)
            (λ _.
              if_cases Good (is_prefix_pattern pattern) _ _ (λ _. good)
                (λ _.
                  if_cases Good (bytes_eq pattern asterisk) _ _ (λ _. good)
                    (λ _. match_cached-IsSound (to_regex pattern) key cache good))))

  match_pattern-pure :
      (pattern key : Bytes) (cache : List (Bytes × R))
      → IsSound cache
      → (match_pattern re pattern key cache).1 ≡ verdict pattern key
  unfolding match_pattern
  match_pattern-pure pattern key cache good =
      ground (arith, match_cached-pure (to_regex pattern) key cache good)

  step :
      (key : Bytes) (cache' cache'' : List (Bytes × R)) (rest expected : Reply (List Bytes))
      (reply wanted : Reply Bool)
      → reply ≡ wanted
      → rest ≡ expected
      → IsSound cache'
      → IsSound cache''
      → ((let after : List (Bytes × R) × Reply (List Bytes) = elim reply [
        | err e ↦ (cache', err e)
        | ok matched ↦ (cache'', keep key matched rest)
      ] in
            after.1)
          ≡ elim wanted [ err e ↦ err e | ok matched ↦ keep key matched expected ])
        × IsSound (
            let after : List (Bytes × R) × Reply (List Bytes) = elim reply [
              | err e ↦ (cache', err e)
              | ok matched ↦ (cache'', keep key matched rest)
            ] in
            after.0)
  step key cache' cache'' rest expected (err e) wanted same later good good' =
      rw⁻¹ same (refl, good)
  step key cache' cache'' rest expected (ok matched) wanted same later good good' =
      rw⁻¹ same (ap (keep key matched) later, good')

  scan-chosen :
      (pattern : Bytes) (keys : List Bytes) (cache : List (Bytes × R))
      → IsSound cache
      → ((scan re pattern keys cache).1 ≡ chosen (verdict pattern) keys)
        × IsSound (scan re pattern keys cache).0
  unfolding scan
  scan-chosen pattern [] cache good = (refl, good)
  scan-chosen pattern (key ∷ keys) cache good =
      let sound = match_pattern-IsSound pattern key cache good in
      let later = scan-chosen pattern keys (match_pattern re pattern key cache).0 sound in
      step key _ _ _ _ (match_pattern re pattern key cache).1 (verdict pattern key)
        (match_pattern-pure pattern key cache good) later.0 sound later.1

  prefix-verdict :
      (pattern key : Bytes)
      → is_empty pattern ≡ false
      → is_prefix_pattern pattern ≡ true
      → verdict pattern key ≡ ok (has_prefix (without_last pattern) key)
  unfolding match_pattern
  prefix-verdict pattern key some_pattern fast =
      let Accepts =
        λ (o : List (Bytes × R) × Reply Bool). o.1 ≡ ok (has_prefix (without_last pattern) key) in
      if_cases Accepts (is_empty pattern) _ _ (λ e. cc (e, some_pattern))
        (λ _.
          if_cases Accepts (bytes_eq pattern key) _ _
            (λ e. ap ok (
              sym (
                rw⁻¹ ((bytes_eq_iff pattern key).0 e)
                  (has_prefix-take (length pattern - 1) pattern))))
            (λ _. if_cases Accepts (is_prefix_pattern pattern) _ _ (λ _. refl) (λ e. cc (e, fast))))

  -- For a pattern that is not empty and a sound cache of expressions, `FilterKeys` replies the
  -- keys that `MatchPattern` accepts with an empty cache, or the first error that it gives, and
  -- the cache stays sound.
  pub filter_keys-match_pattern :
      (pattern : Bytes) (keys : List Bytes) (cache : List (Bytes × R))
      → is_empty pattern ≡ false
      → IsSound cache
      → ((filter_keys re pattern keys cache).1 ≡ chosen (verdict pattern) keys)
        × IsSound (filter_keys re pattern keys cache).0
  unfolding filter_keys
  filter_keys-match_pattern pattern keys cache some_pattern good =
      let Chooses = λ (o : List (Bytes × R) × Reply (List Bytes)).
        (o.1 ≡ chosen (verdict pattern) keys) × IsSound o.0 in
      if_cases Chooses (is_empty pattern) _ _ (λ e. cc (e, some_pattern))
        (λ _.
          if_cases Chooses (bytes_eq pattern asterisk) _ _ (λ e. (star e, good))
            (λ _.
              if_cases Chooses (is_prefix_pattern pattern) _ _
                (λ fast. (
                  sym (
                      chosen-filter (verdict pattern) (has_prefix (without_last pattern))
                        (λ key. prefix-verdict pattern key some_pattern fast) keys),
                  good,
                ))
                (λ _. scan-chosen pattern keys cache good)))
    where
      star : bytes_eq pattern asterisk ≡ true → ok keys ≡ chosen (verdict pattern) keys
      star e = rw ((bytes_eq_iff pattern asterisk).0 e) (
          ap ok (sym (filter-all keys))
          ∙ sym (
              chosen-filter (verdict asterisk) (has_prefix [])
                (λ key. prefix-verdict asterisk key refl fast-asterisk) keys))
