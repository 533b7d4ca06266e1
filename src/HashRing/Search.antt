-- ===== src/HashRing/Search.antt =====
-- The binary search of `sort.Search`, as pkg/utils/hash.go uses it.
use distributed_caching_syst.Prelude.{
  ℕ, zero, suc, ◌+◌, ◌-◌, ◌/◌, ◌≤◌, ◌<◌, ◌≡◌, Bool, true, false, ltb, arith, inl, inr, Bool-cases,
}
use distributed_caching_syst.HashRing.{search}

module _ (f : ℕ → Bool) (up : (i j : ℕ) → i ≤ j → f i ≡ true → f j ≡ true) where
  -- With a test that stays true once it is true and at least `hi - lo` rounds, the search ends at the first index
  -- from `lo` on at which the test is true, or at `hi`.
  pub search_lem :
      (fuel lo hi : ℕ)
      → lo ≤ hi
      → hi - lo ≤ fuel
      → (lo ≤ search fuel f lo hi)
        × (search fuel f lo hi ≤ hi)
        × ((i : ℕ) → lo ≤ i → i < search fuel f lo hi → f i ≡ false)
        × ((i : ℕ) → search fuel f lo hi ≤ i → i < hi → f i ≡ true)
  unfolding search
  search_lem zero lo hi order enough =
      (omega arith, omega arith, λ i a b. absurd (omega arith), λ i a b. absurd (omega arith))
  search_lem (suc fuel) lo hi order enough = elim (Bool-cases (ltb lo hi)) [
    | inr done ↦
        rw done
          (omega arith, omega arith, λ i a b. absurd (omega arith), λ i a b. absurd (ground arith))
    | inl more ↦
        let less : lo < hi = ground arith in
        elim (Bool-cases (f ((lo + hi) / 2))) [
          | inl hit ↦
              let (a, b, before, after) =
                search_lem fuel lo ((lo + hi) / 2) (omega arith) (omega arith) in
              rw (more, hit) (a, omega arith, before, λ i c d. beyond i (after i c) hit)
          | inr miss ↦
              let (a, b, before, after) =
                search_lem fuel (suc ((lo + hi) / 2)) hi (omega arith) (omega arith) in
              rw (more, miss) (omega arith, b, λ i c d. below i (λ e. before i e d) miss, after)
        ]
  ]
    where
      beyond : (i : ℕ) → (i < (lo + hi) / 2 → f i ≡ true) → f ((lo + hi) / 2) ≡ true → f i ≡ true
      beyond i near hit = elim (Bool-cases (ltb i ((lo + hi) / 2))) [
        | inl less ↦ near (ground arith)
        | inr more ↦ up ((lo + hi) / 2) i (ground arith) hit
      ]

      below :
          (i : ℕ)
          → (suc ((lo + hi) / 2) ≤ i → f i ≡ false)
          → f ((lo + hi) / 2) ≡ false
          → f i ≡ false
      below i far miss = elim (Bool-cases (ltb ((lo + hi) / 2) i)) [
        | inl more ↦ far (ground arith)
        | inr less ↦ elim (Bool-cases (f i)) [
          | inl hit ↦ absurd (ground (arith, up i ((lo + hi) / 2) (ground arith) hit))
          | inr out ↦ out
        ]
      ]
