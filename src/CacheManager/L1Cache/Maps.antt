-- ===== src/CacheManager/L1Cache/Maps.antt =====
-- Facts on association lists that the linked structure of the L1 cache needs.
use distributed_caching_syst.Prelude.{
  nat_eq, ◌≡◌, refl, false, none, some, List, [], ◌∷◌, arith, Eq, inl, inr, Bool-cases, All,
  drop_last,
}
use distributed_caching_syst.GoMap.{lookup, delete, Distinct}
use distributed_caching_syst.CacheManager.L1Cache.{back}

module _ {ℓ κ} {K : Type ℓ} {V : Type κ} ⦃e : Eq K⦄ where
  lookup_ne :
      {k : K} {v : V} (j : K) (m : List (K × V))
      → lookup j m ≡ none
      → lookup k m ≡ some v
      → e.beq j k ≡ false
  lookup_ne {k} j m h h' = elim (Bool-cases (e.beq j k)) [
    | inl same ↦ ground (arith, e.beq_iff j k)
    | inr other ↦ other
  ]

  pub lookup_there :
      (k : K) (v : V) (j : K) (w : V) (m : List (K × V))
      → lookup j m ≡ none
      → lookup k m ≡ some v
      → lookup k ((j, w) ∷ m) ≡ some v
  lookup_there k v j w m h h' = unfold lookup in ground (arith, lookup_ne j m h h')

  -- What holds of every pair that a lookup finds holds of every pair of the list.
  pub All-of_lookup {μ} :
      (P : K → V → Type μ) (m : List (K × V))
      → Distinct m
      → ((k : K) (v : V) → lookup k m ≡ some v → P k v)
      → All (λ x. P x.0 x.1) m
  All-of_lookup P [] d h = tt
  All-of_lookup P ((i, w) ∷ m) d h = (
    h i w (unfold lookup in ground (arith, e.beq_iff i i)),
    All-of_lookup P m d.1 (λ k v q. h k v (unfold lookup in ground (arith, lookup_ne i m d.0 q))),
  )

  pub lookup_of_All {μ} :
      (P : K → V → Type μ) (m : List (K × V)) (k : K) (v : V)
      → All (λ x. P x.0 x.1) m
      → lookup k m ≡ some v
      → P k v
  unfolding lookup
  lookup_of_All P [] k v h q = absurd (ground arith)
  lookup_of_All P ((i, w) ∷ m) k v h q = elim (Bool-cases (e.beq i k)) [
    | inl same ↦
        let here : i ≡ k = (e.beq_iff i k).0 same in
        let value : w ≡ v = ground arith in rw (← here, ← value) h.0
    | inr other ↦ lookup_of_All P m k v h.1 (ground arith)
  ]

-- The back element is in the list, and taking it out drops the last element.
module _ {ℓ κ} {K : Type ℓ} {V : Type κ} ⦃e : Eq K⦄ where
  pub lookup-back :
      (l : List (K × V)) (x : K × V) → Distinct l → back l ≡ some x → lookup x.0 l ≡ some x.1
  unfolding back
  lookup-back [] x d q = absurd (ground arith)
  lookup-back (y ∷ []) x d q = unfold lookup in ground (arith, e.beq_iff y.0 x.0)
  lookup-back (y ∷ z ∷ l) x d q = lookup_there _ _ y.0 y.1 (z ∷ l) d.0 (lookup-back (z ∷ l) x d.1 q)

  pub delete-back :
      (l : List (K × V)) (x : K × V) → Distinct l → back l ≡ some x → delete x.0 l ≡ drop_last l
  unfolding back
  delete-back [] x d q = absurd (ground arith)
  delete-back (y ∷ []) x d q = unfold delete in ground (arith, e.beq_iff y.0 x.0)
  delete-back (y ∷ z ∷ l) x d q =
      let other = lookup_ne y.0 (z ∷ l) d.0 (lookup-back (z ∷ l) x d.1 q) in
      keep_head other (delete-back (z ∷ l) x d.1 q)
    where
      keep_head :
          e.beq y.0 x.0 ≡ false
          → delete x.0 (z ∷ l) ≡ drop_last (z ∷ l)
          → delete x.0 (y ∷ z ∷ l) ≡ y ∷ drop_last (z ∷ l)
      keep_head other rest = rw (← rest) (unfold delete in ground arith)

pub back_none {ℓ} : {A : Type ℓ} (l : List A) → back l ≡ none → l ≡ []
unfolding back
back_none [] q = refl
back_none (y ∷ []) q = absurd (ground arith)
back_none (y ∷ z ∷ l) q = absurd (ground (arith, back_none (z ∷ l) q))
