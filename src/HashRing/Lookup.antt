-- ===== src/HashRing/Lookup.antt =====
-- `GetNode` of pkg/utils/hash.go, and where the walks around the ring begin.
use distributed_caching_syst.Prelude.{
  nat_eq, ℕ, zero, suc, ◌≤◌, ◌<◌, ◌≡◌, ◌≢◌, ◌⊎◌, refl, true, false, none, some, List, [], ◌∷◌, ltb,
  ◌==◌, ==_iff, length, get_elem?, arith, inl, inr, Bool-cases, Option-cases, ◌∙◌, All,
}
use distributed_caching_syst.GoMap.{lookup}
use distributed_caching_syst.GoString.{Bytes, bytes_key}
use distributed_caching_syst.HashRing.{
  HashRing, hash_key, search, reaches, start_index, node_at, get_node,
}
use distributed_caching_syst.HashRing.Search.{search_lem}
use distributed_caching_syst.HashRing.Sorting.{mem, Sorted, reaches-up, get_elem?-some}
use distributed_caching_syst.HashRing.Ring.{IsRing}

-- The position that owns a hash: the first one clockwise, or the lowest where none lies ahead.
abbrev pub Successor : List ℕ → ℕ → ℕ → Type 0
Successor keys hash k =
    (mem k keys ≡ true)
    × ((hash ≤ k) × ((j : ℕ) → mem j keys ≡ true → hash ≤ j → k ≤ j)
        ⊎ ((j : ℕ) → mem j keys ≡ true → (j < hash) × (k ≤ j)))

mem-index :
    (j : ℕ) (keys : List ℕ)
    → mem j keys ≡ true
    → (i : ℕ) × (i < length keys) × (get_elem? keys i ≡ some j)
mem-index j [] h = absurd (ground arith)
mem-index j (x ∷ keys) h = elim (Bool-cases (x == j)) [
  | inl here ↦ (0, omega arith, ground (arith, ==_iff x j))
  | inr there ↦ let (i, less, e) = mem-index j keys (ground arith) in (suc i, omega arith, e)
]

Sorted-le :
    (keys : List ℕ) (i i' a b : ℕ)
    → Sorted keys
    → i ≤ i'
    → get_elem? keys i ≡ some a
    → get_elem? keys i' ≡ some b
    → a ≤ b
Sorted-le [] i i' a b s le p q = absurd (ground arith)
Sorted-le (x ∷ keys) zero zero a b s le p q = ground arith
Sorted-le (x ∷ keys) zero (suc i') a b s le p q = first keys i' s.0 q
  where
    first : (keys : List ℕ) (i' : ℕ) → All (λ j. x ≤ j) keys → get_elem? keys i' ≡ some b → a ≤ b
    first [] i' h q = absurd (ground arith)
    first (y ∷ keys) zero h q = ground arith
    first (y ∷ keys) (suc i') h q = first keys i' h.1 q
Sorted-le (x ∷ keys) (suc i) zero a b s le p q = absurd (omega arith)
Sorted-le (x ∷ keys) (suc i) (suc i') a b s le p q = Sorted-le keys i i' a b s.1 (omega arith) p q

module _ (keys : List ℕ) (hash : ℕ) (s : Sorted keys) (nonempty : 0 < length keys) where
  idx_lem : ℕ
  idx_lem = search (length keys) (reaches keys hash) 0 (length keys)

  found :
      (0 ≤ idx_lem)
      × (idx_lem ≤ length keys)
      × ((i : ℕ) → 0 ≤ i → i < idx_lem → reaches keys hash i ≡ false)
      × ((i : ℕ) → idx_lem ≤ i → i < length keys → reaches keys hash i ≡ true)
  unfolding idx_lem
  found =
      search_lem (reaches keys hash) (λ i j le e. reaches-up hash keys i j s le e) (length keys) 0
        (length keys) (omega arith) (omega arith)

  below : (i j : ℕ) → i < idx_lem → get_elem? keys i ≡ some j → j < hash
  below i j less e = under (found.2 i (omega arith) less)
    where
      under : reaches keys hash i ≡ false → j < hash
      under out = ground arith

  above : (i j : ℕ) → idx_lem ≤ i → i < length keys → get_elem? keys i ≡ some j → hash ≤ j
  above i j le less e = over (found.3 i le less)
    where
      over : reaches keys hash i ≡ true → hash ≤ j
      over hit = ground arith

  -- The walk begins at the position that owns the hash.
  pub start_index-Successor :
      (k : ℕ) × (start_index keys hash < length keys)
      × (get_elem? keys (start_index keys hash) ≡ some k)
      × Successor keys hash k
  start_index-Successor = elim (Bool-cases (idx_lem == length keys)) [
    | inl wrapped ↦
        let (k, e, m) = get_elem?-some keys 0 nonempty in
        (
          k,
          rw (begins-wrapped wrapped) nonempty,
          rw (begins-wrapped wrapped) e,
          (
            m,
            inr (λ j mj.
                let (i, less, ej) = mem-index j keys mj in
                (below i j (ground arith) ej, Sorted-le keys 0 i k j s (omega arith) e ej)),
          ),
        )
    | inr inside ↦
        let (_, bound, _, _) = found in
        let within : idx_lem < length keys = ground arith in
        let (k, e, m) = get_elem?-some keys idx_lem within in
        (
          k,
          rw (begins-inside inside) within,
          rw (begins-inside inside) e,
          (
            m,
            inl (
              above idx_lem k (omega arith) within e,
              λ j mj far.
                  let (i, less, ej) = mem-index j keys mj in
                  Sorted-le keys idx_lem i k j s (ahead i j ej far) e ej,
            ),
          ),
        )
  ]
    where
      begins-wrapped : (idx_lem == length keys) ≡ true → start_index keys hash ≡ 0
      begins-wrapped e = unfold start_index idx_lem in ground arith

      begins-inside : (idx_lem == length keys) ≡ false → start_index keys hash ≡ idx_lem
      begins-inside e = unfold start_index idx_lem in ground arith

      ahead : (i j : ℕ) → get_elem? keys i ≡ some j → hash ≤ j → idx_lem ≤ i
      ahead i j e far = elim (Bool-cases (ltb i idx_lem)) [
        | inl less ↦ absurd (omega (arith, below i j (ground arith) e))
        | inr more ↦ ground arith
      ]

pub get_node-at :
    (key : Bytes) (h : HashRing)
    → h.keys ≢ []
    → get_node key h ≡ node_at h (start_index h.keys (hash_key key))
unfolding get_node
get_node-at key h nonempty = ground arith

pub length-pos : (keys : List ℕ) → keys ≢ [] → 0 < length keys
length-pos [] ne = absurd (ne refl)
length-pos (k ∷ keys) ne = omega arith

-- `GetNode` on a well-formed ring that has positions replies the node of the position that owns
-- the key's hash: the first position clockwise from the hash, or the lowest one where the hash
-- lies beyond them all.
pub get_node-owner :
    (key : Bytes) {h : HashRing}
    → IsRing h
    → h.keys ≢ []
    → (k : ℕ) × (node : Bytes) × Successor h.keys (hash_key key) k
      × (lookup k h.ring ≡ some node)
      × (get_node key h ≡ node)
get_node-owner key {h} r nonempty =
    let (k, less, at, owner) =
      start_index-Successor h.keys (hash_key key) r.sorted (length-pos h.keys nonempty) in
    elim (Option-cases (lookup k h.ring)) [
      | inl nobody ↦ absurd (missing k nobody owner.0)
      | inr (node, e) ↦ (k, node, owner, e, get_node-at key h nonempty ∙ there k node at e)
    ]
  where
    missing : (k : ℕ) → lookup k h.ring ≡ none → mem k h.keys ≡ true → ⊥
    missing k nobody m = ground (arith, r.agree k)

    there :
        (k : ℕ) (node : Bytes)
        → get_elem? h.keys (start_index h.keys (hash_key key)) ≡ some k
        → lookup k h.ring ≡ some node
        → node_at h (start_index h.keys (hash_key key)) ≡ node
    there k node at e = unfold node_at in ground arith
