-- ===== src/Invalidation/Patterns/Affix.antt =====
-- Prefixes, suffixes and parts of texts in which one byte does not occur.
use distributed_caching_syst.Prelude.{
  ℕ, suc, ◌-◌, ◌≡◌, refl, ap, ◌∙◌, true, false, [], ◌∷◌, ◌++◌, length, length-append, drop, take,
  ==_iff, arith,
}
use distributed_caching_syst.GoString.{Bytes, contains, has_prefix, has_suffix, trim_suffix}

module _ (c : ℕ) where
  pub contains-append_self : (p : Bytes) → contains (c ∷ []) (p ++ c ∷ []) ≡ true
  unfolding contains has_prefix
  contains-append_self [] = ground (arith, ==_iff c c)
  contains-append_self (b ∷ p) = ground (arith, contains-append_self p)

  drop-last : (p : Bytes) → drop (length p) (p ++ c ∷ []) ≡ c ∷ []
  drop-last [] = refl
  drop-last (b ∷ p) = drop-last p

  take-front : (p s : Bytes) → take (length p) (p ++ s) ≡ p
  take-front [] s = refl
  take-front (b ∷ p) s = ap (◌∷◌ b) (take-front p s)

  front-length : (p : Bytes) → length (p ++ c ∷ []) - length (c ∷ []) ≡ length p
  front-length p = omega (arith, length-append p (c ∷ []))

  pub has_suffix-append_self : (p : Bytes) → has_suffix (c ∷ []) (p ++ c ∷ []) ≡ true
  unfolding has_suffix
  has_suffix-append_self p =
      rw (front-length p, drop-last p) (ground (arith, ==_iff c c, length-append p (c ∷ [])))

  pub trim_suffix-append_self : (p : Bytes) → trim_suffix (c ∷ []) (p ++ c ∷ []) ≡ p
  unfolding trim_suffix
  trim_suffix-append_self p = rw (has_suffix-append_self p, front-length p) (take-front p (c ∷ []))

  pub has_suffix-cons :
      (b a : ℕ) (s : Bytes) → has_suffix (c ∷ []) (b ∷ a ∷ s) ≡ has_suffix (c ∷ []) (a ∷ s)
  unfolding has_suffix
  has_suffix-cons b a s =
      let long : suc (suc (length s)) - 1 ≡ suc (length s) = omega arith in
      let short : suc (length s) - 1 ≡ length s = omega arith in rw (long, short) (ground arith)

  -- A text without the byte does not end with it.
  pub has_suffix-absent : (s : Bytes) → contains (c ∷ []) s ≡ false → has_suffix (c ∷ []) s ≡ false
  unfolding contains has_prefix
  has_suffix-absent [] h = unfold has_suffix in ground arith
  has_suffix-absent (b ∷ []) h = unfold has_suffix in ground arith
  has_suffix-absent (b ∷ a ∷ s) h = has_suffix-cons b a s ∙ has_suffix-absent (a ∷ s) (ground arith)
