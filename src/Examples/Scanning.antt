-- ===== src/Examples/Scanning.antt =====
-- The key patterns on concrete inputs, with expressions that are texts and match what they are.
use distributed_caching_syst.Prelude.{◌≡◌, refl, some, List, [], ◌∷◌, arith}
use distributed_caching_syst.GoMap.{lookup}
use distributed_caching_syst.GoString.{
  Bytes, codes, bytes_eq, bytes_eq_iff, contains, has_prefix, bytes_key,
}
use distributed_caching_syst.Invalidation.Patterns.{Regexp}
use distributed_caching_syst.KeyPatterns.{anchored, filter_keys, glob_to_regex}
use distributed_caching_syst.KeyPatterns.Scans.{IsSound, chosen, verdict, filter_keys-match_pattern}

-- Every text compiles, to itself.
abbrev literal : Regexp Bytes
literal = record { compile = λ s. some s; match_string = λ r s. bytes_eq r (anchored s) }

abbrev held : List (Bytes × Bytes)
held = (codes "a.c", codes "^a.c$") ∷ []

held-IsSound : IsSound literal held
unfolding lookup
held-IsSound regex r e = ground (arith, bytes_eq_iff (codes "a.c") regex)

glob_to_regex_test : glob_to_regex (codes "user:*:p?.x") ≡ codes "user:.*:p.\\.x"
unfolding glob_to_regex contains has_prefix
glob_to_regex_test = refl

filter_keys-match_pattern_example :
    ((filter_keys literal (codes "a.c") (codes "a.c" ∷ codes "abc" ∷ []) held).1
      ≡ chosen (verdict literal (codes "a.c")) (codes "a.c" ∷ codes "abc" ∷ []))
    × IsSound literal (filter_keys literal (codes "a.c") (codes "a.c" ∷ codes "abc" ∷ []) held).0
filter_keys-match_pattern_example =
    filter_keys-match_pattern literal (codes "a.c") (codes "a.c" ∷ codes "abc" ∷ []) held refl
      held-IsSound
