-- ===== src/HashRing/Sorting.antt =====
-- The sorted list of positions of pkg/utils/hash.go.
use distributed_caching_syst.Prelude.{
  nat_eq, ℕ, zero, suc, ◌≤◌, ◌<◌, ◌≡◌, refl, Bool, true, false, Option, none, some, List, [], ◌∷◌,
  ◌++◌, if◌then◌else◌, leb, ◌==◌, ==_iff, length, get_elem?, arith, inl, inr, Bool-cases, All,
  All-map,
}
use distributed_caching_syst.HashRing.{insert_sorted, sort, reaches}

abbrev pub mem : ℕ → List ℕ → Bool
mem h [] = false
mem h (k ∷ keys) = if k == h then true else mem h keys

abbrev pub Sorted : List ℕ → Type 0
Sorted [] = Unit
Sorted (k ∷ keys) = All (λ j. k ≤ j) keys × Sorted keys

insert_sorted-All :
    (k h : ℕ) (keys : List ℕ)
    → k ≤ h
    → All (λ j. k ≤ j) keys
    → All (λ j. k ≤ j) (insert_sorted h keys)
unfolding insert_sorted
insert_sorted-All k h [] le a = (le, tt)
insert_sorted-All k h (j ∷ keys) le a = elim (Bool-cases (leb h j)) [
  | inl first ↦ rw first (le, a)
  | inr later ↦ rw later (a.0, insert_sorted-All k h keys le a.1)
]

insert_sorted-Sorted : (h : ℕ) (keys : List ℕ) → Sorted keys → Sorted (insert_sorted h keys)
unfolding insert_sorted
insert_sorted-Sorted h [] s = (tt, tt)
insert_sorted-Sorted h (j ∷ keys) s = elim (Bool-cases (leb h j)) [
  | inl first ↦
      rw first ((ground arith, All-map keys (λ x le. omega (arith, ordered first)) s.0), s)
  | inr later ↦
      rw later (insert_sorted-All j h keys (ground arith) s.0, insert_sorted-Sorted h keys s.1)
]
  where
    ordered : leb h j ≡ true → h ≤ j
    ordered e = ground arith

pub sort-Sorted : (keys : List ℕ) → Sorted (sort keys)
unfolding sort
sort-Sorted [] = tt
sort-Sorted (h ∷ keys) = insert_sorted-Sorted h (sort keys) (sort-Sorted keys)

mem-insert_sorted :
    (k h : ℕ) (keys : List ℕ) → mem k (insert_sorted h keys) ≡ (if h == k then true else mem k keys)
unfolding insert_sorted
mem-insert_sorted k h [] = refl
mem-insert_sorted k h (j ∷ keys) = ground (arith, mem-insert_sorted k h keys)

-- Sorting keeps the members.
pub mem-sort : (k : ℕ) (keys : List ℕ) → mem k (sort keys) ≡ mem k keys
unfolding sort
mem-sort k [] = refl
mem-sort k (h ∷ keys) = ground (arith, mem-insert_sorted k h (sort keys), mem-sort k keys)

length-insert_sorted : (h : ℕ) (keys : List ℕ) → length (insert_sorted h keys) ≡ suc (length keys)
unfolding insert_sorted
length-insert_sorted h [] = refl
length-insert_sorted h (j ∷ keys) = ground (arith, length-insert_sorted h keys)

pub mem-append : (k : ℕ) (xs ys : List ℕ) → mem k (xs ++ ys) ≡ (if mem k xs then true else mem k ys)
mem-append k [] ys = refl
mem-append k (x ∷ xs) ys = ground (arith, mem-append k xs ys)

get_elem?-le :
    (k : ℕ) (keys : List ℕ) (j y : ℕ) → All (λ j. k ≤ j) keys → get_elem? keys j ≡ some y → k ≤ y
get_elem?-le k [] j y a e = absurd (ground arith)
get_elem?-le k (x ∷ keys) zero y a e = ground arith
get_elem?-le k (x ∷ keys) (suc j) y a e = get_elem?-le k keys j y a.1 e

-- Along a sorted list the test of the search, once true, stays true.
pub reaches-up :
    (hash : ℕ) (keys : List ℕ) (i j : ℕ)
    → Sorted keys
    → i ≤ j
    → reaches keys hash i ≡ true
    → reaches keys hash j ≡ true
reaches-up hash [] i j s le e = refl
reaches-up hash (k ∷ keys) zero zero s le e = e
reaches-up hash (k ∷ keys) zero (suc j) s le e = later (get_elem? keys j) (get_elem?-le k keys j)
  where
    later :
        (o : Option ℕ)
        → ((y : ℕ) → All (λ j. k ≤ j) keys → o ≡ some y → k ≤ y)
        → elim o as (λ _. Bool) [ none ↦ true | some y ↦ leb hash y ] ≡ true
    later none h = refl
    later (some y) h = ground (arith, h y s.0 refl)
reaches-up hash (k ∷ keys) (suc i) zero s le e = absurd (omega arith)
reaches-up hash (k ∷ keys) (suc i) (suc j) s le e = reaches-up hash keys i j s.1 (omega arith) e

pub get_elem?-some :
    (keys : List ℕ) (i : ℕ)
    → i < length keys
    → (k : ℕ) × (get_elem? keys i ≡ some k) × (mem k keys ≡ true)
get_elem?-some [] i h = elim h [ ]
get_elem?-some (x ∷ keys) zero h = (x, refl, ground (arith, ==_iff x x))
get_elem?-some (x ∷ keys) (suc i) h =
    let (k, e, m) = get_elem?-some keys i (omega arith) in (k, e, ground arith)
