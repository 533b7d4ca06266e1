-- ===== src/Prelude/SortBy.antt =====
-- Sorting by a test that says which of two items comes first. Items that neither puts first keep their order.
use mathlib.Core.List.{Perm}
use mathlib.Core.List.Perm
use distributed_caching_syst.Prelude.Tests.{if◌then◌else◌, Bool-cases}
use Prim.Native.Nat.{suc}
use distributed_caching_syst.Prelude.Lists.{length, All}
use mathlib.Core.Path.{◌≡◌, refl}
use mathlib.Core.Logic.{inl, inr}
use mathlib.Core.Bool.{Bool, true, false}
use mathlib.Core.List.{List, [], ◌∷◌}
use native.Mathlib.Omega.{arith}

module _ {ℓ} {A : Type ℓ} (before : A → A → Bool) where
  unfoldable pub insert_by : A → List A → List A
  insert_by x [] = x ∷ []
  insert_by x (y ∷ ys) = if before y x then y ∷ insert_by x ys else x ∷ y ∷ ys

  unfoldable pub sort_by : List A → List A
  sort_by [] = []
  sort_by (x ∷ xs) = insert_by x (sort_by xs)

  insert_by-perm : (x : A) (xs : List A) → Perm (insert_by x xs) (x ∷ xs)
  unfolding insert_by
  insert_by-perm x [] = Perm.rfl
  insert_by-perm x (y ∷ ys) = elim (Bool-cases (before y x)) [
    | inl later ↦ rw later (Perm.trans (Perm.cons y (insert_by-perm x ys)) (Perm.swap x y ys))
    | inr first ↦ rw first Perm.rfl
  ]

  -- Sorting keeps the items.
  pub sort_by-perm : (xs : List A) → Perm (sort_by xs) xs
  unfolding sort_by
  sort_by-perm [] = Perm.rfl
  sort_by-perm (x ∷ xs) = Perm.trans (insert_by-perm x (sort_by xs)) (Perm.cons x (sort_by-perm xs))

  insert_by-All {κ} :
      (P : A → Type κ) (x : A) (xs : List A) → P x → All P xs → All P (insert_by x xs)
  unfolding insert_by
  insert_by-All P x [] h hs = (h, tt)
  insert_by-All P x (y ∷ ys) h hs = elim (Bool-cases (before y x)) [
    | inl later ↦ rw later (hs.0, insert_by-All P x ys h hs.1)
    | inr first ↦ rw first (h, hs)
  ]

  pub sort_by-All {κ} : (P : A → Type κ) (xs : List A) → All P xs → All P (sort_by xs)
  unfolding sort_by
  sort_by-All P [] h = tt
  sort_by-All P (x ∷ xs) h = insert_by-All P x (sort_by xs) h.0 (sort_by-All P xs h.1)

  insert_by-length : (x : A) (xs : List A) → length (insert_by x xs) ≡ suc (length xs)
  unfolding insert_by
  insert_by-length x [] = refl
  insert_by-length x (y ∷ ys) = ground (arith, insert_by-length x ys)

  pub sort_by-length : (xs : List A) → length (sort_by xs) ≡ length xs
  unfolding sort_by
  sort_by-length [] = refl
  sort_by-length (x ∷ xs) = omega (arith, insert_by-length x (sort_by xs), sort_by-length xs)

  -- No item comes before the one that it follows.
  abbrev pub InOrder : List A → Type 0
  InOrder [] = Unit
  InOrder (x ∷ []) = Unit
  InOrder (x ∷ y ∷ ys) = (before y x ≡ false) × InOrder (y ∷ ys)

  module _ (asym : (x y : A) → before x y ≡ true → before y x ≡ false) where
    insert_by-InOrder : (x : A) (xs : List A) → InOrder xs → InOrder (insert_by x xs)
    unfolding insert_by
    insert_by-InOrder x [] h = tt
    insert_by-InOrder x (y ∷ []) h = elim (Bool-cases (before y x)) [
      | inl later ↦ rw later (asym y x later, tt)
      | inr first ↦ rw first (first, tt)
    ]
    insert_by-InOrder x (y ∷ z ∷ ys) h = elim (Bool-cases (before y x)) [
      | inr first ↦ rw first (first, h)
      | inl later ↦ elim (Bool-cases (before z x)) [
        | inl after ↦
            rw later
              (let rest = insert_by-InOrder x (z ∷ ys) h.1 in rw after (h.0, rw after at rest))
        | inr here ↦ rw later (rw here (asym y x later, (here, h.1)))
      ]
    ]

    -- Sorting puts the items in order.
    pub sort_by-InOrder : (xs : List A) → InOrder (sort_by xs)
    unfolding sort_by
    sort_by-InOrder [] = tt
    sort_by-InOrder (x ∷ xs) = insert_by-InOrder x (sort_by xs) (sort_by-InOrder xs)
