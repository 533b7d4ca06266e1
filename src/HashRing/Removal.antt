-- ===== src/HashRing/Removal.antt =====
-- `RemoveNode` of pkg/utils/hash.go, and who owns the positions of the ring.
use native.Mathlib.Nat.{mul-le-mul_left}
use distributed_caching_syst.Prelude.{
  nat_eq, ℕ, zero, suc, ◌+◌, ◌*◌, ◌≤◌, ◌<◌, ◌≡◌, ◌≢◌, ◌⊎◌, none, some, List, [], ◌∷◌, ◌++◌, ◌==◌,
  ==_iff, arith, inl, inr, Bool-cases, Option-cases,
}
use distributed_caching_syst.Prelude.Int.{ℤ}
use distributed_caching_syst.GoMap.{
  lookup, insert, delete, Distinct, lookup-insert, lookup-delete, delete-Distinct,
}
use distributed_caching_syst.GoString.{Bytes, bytes_key, bytes_eq, bytes_eq_iff}
use distributed_caching_syst.HashRing.{
  HashRing, position, add_virtual, add_node, remove_virtual, remove_node, positive_or,
}
use distributed_caching_syst.HashRing.Ring.{IsRing, remove_virtual-old}

-- Every position belongs to one of the virtual nodes that its node has by its present weight.
abbrev pub Owned : HashRing → Type 0
Owned h =
    (k : ℕ) (node : Bytes)
    → lookup k h.ring ≡ some node
    → (w : ℕ) × (i : ℕ) × (lookup node h.nodes ≡ some w)
      × (i < h.replicas * w)
      × (position node i ≡ k)

remove_virtual-clears :
    (n i j : ℕ) (node : Bytes) (ring : List (ℕ × Bytes))
    → Distinct ring
    → i ≤ j
    → j < i + n
    → lookup (position node j) (remove_virtual n i node ring) ≡ none
unfolding remove_virtual
remove_virtual-clears zero i j node ring d le less = absurd (omega arith)
remove_virtual-clears (suc n) i j node ring d le less = elim (Bool-cases (i == j)) [
  | inl here ↦
      elim (Option-cases (
        lookup (position node j) (remove_virtual n (suc i) node (delete (position node i) ring)))) [
          | inl out ↦ out
          | inr (owner, e) ↦ absurd (
              deleted ((==_iff i j).0 here) owner (
                remove_virtual-old n (suc i) node (delete (position node i) ring) (position node j)
                  owner (delete-Distinct _ ring d) e))
        ]
  | inr there ↦
      remove_virtual-clears n (suc i) j node (delete (position node i) ring)
        (delete-Distinct _ ring d) (ground arith) (omega arith)
]
  where
    deleted :
        i ≡ j
        → (owner : Bytes) → lookup (position node j) (delete (position node i) ring) ≡ some owner
        → ⊥
    deleted same owner e = ground (
      arith,
      lookup-delete (position node i) (position node j) ring d,
      ==_iff (position node i) (position node j),
    )

remove_node-ring :
    (node : Bytes) (h : HashRing) (w : ℕ)
    → lookup node h.nodes ≡ some w
    → (remove_node node h).0.ring ≡ remove_virtual (h.replicas * w) 0 node h.ring
unfolding remove_node
remove_node-ring node h w known = ground arith

-- On a well-formed ring where every position is owned by the present weights, `RemoveNode` of a
-- node that is there leaves no position of it.
pub remove_node-clears :
    (node : Bytes) {h : HashRing}
    → IsRing h
    → Owned h
    → (k : ℕ) (w : ℕ) → lookup node h.nodes ≡ some w
    → lookup k (remove_node node h).0.ring ≢ some node
remove_node-clears node {h} r owned k w known left =
    let before =
      remove_virtual-old (h.replicas * w) 0 node h.ring k node r.distinct
        (rw (remove_node-ring node h w known) at left) in
    let (w', i, known', less, at) = owned k node before in
    let same : w' ≡ w = ground arith in
    let cleared =
      remove_virtual-clears (h.replicas * w) 0 i node h.ring r.distinct (omega arith)
        (bound i w' same less) in
    ground (arith, cleared, at, remove_node-ring node h w known)
  where
    bound : (i w' : ℕ) → w' ≡ w → i < h.replicas * w' → i < 0 + h.replicas * w
    bound i w' same less = rw (← same) (omega arith)

-- What `AddNode` assigns: the virtual nodes of its node, and otherwise what was there.
add_virtual-owners :
    (n i : ℕ) (node : Bytes) (ring : List (ℕ × Bytes)) (keys : List ℕ) (k : ℕ) (owner : Bytes)
    → lookup k (add_virtual n i node (ring, keys)).0 ≡ some owner
    → (owner ≡ node) × ((j : ℕ) × (j < i + n) × (position node j ≡ k)) ⊎ lookup k ring ≡ some owner
unfolding add_virtual
add_virtual-owners zero i node ring keys k owner e = inr e
add_virtual-owners (suc n) i node ring keys k owner e =
    elim (add_virtual-owners n (suc i) node (insert (position node i) node ring)
      (keys ++ position node i ∷ []) k owner e) [
        | inl (same, (j, less, at)) ↦ inl (same, (j, omega arith, at))
        | inr before ↦ elim (Bool-cases (position node i == k)) [
          | inl new ↦ inl (
            ground (arith, lookup-insert (position node i) k node ring),
            (i, omega arith, (==_iff _ _).0 new),
          )
          | inr old ↦ inr (ground (arith, lookup-insert (position node i) k node ring))
        ]
      ]

-- `AddNode` keeps every position owned, if it does not lower the weight of a node that is there.
pub add_node-Owned :
    (node : Bytes) (weight : ℤ) (h : HashRing)
    → Owned h
    → ((w : ℕ) → lookup node h.nodes ≡ some w → w ≤ positive_or 1 weight)
    → Owned (add_node node weight h).0
unfolding add_node
add_node-Owned [] weight h owned raised k owner e = owned k owner e
add_node-Owned (c ∷ node) weight h owned raised k owner e =
    let w = positive_or 1 weight in
    elim (add_virtual-owners (h.replicas * w) 0 (c ∷ node) h.ring h.keys k owner e) [
      | inl (same, (j, less, at)) ↦ (
        w,
        j,
        ground (arith, lookup-insert (c ∷ node) owner w h.nodes, bytes_eq_iff (c ∷ node) owner),
        omega arith,
        rw same at,
      )
      | inr before ↦
          let (w', i, known, less, at) = owned k owner before in
          elim (Bool-cases (bytes_eq (c ∷ node) owner)) [
            | inl same ↦ (
              w,
              i,
              ground (arith, lookup-insert (c ∷ node) owner w h.nodes),
              widened i w' less (raised w' (ground (arith, bytes_eq_iff (c ∷ node) owner))),
              at,
            )
            | inr other ↦
                (w', i, ground (arith, lookup-insert (c ∷ node) owner w h.nodes), less, at)
          ]
    ]
  where
    widened :
        (i w' : ℕ)
        → i < h.replicas * w'
        → w' ≤ positive_or 1 weight
        → i < h.replicas * positive_or 1 weight
    widened i w' less le = omega (arith, mul-le-mul_left h.replicas le)

remove_virtual-keeps :
    (n i : ℕ) (node : Bytes) (ring : List (ℕ × Bytes)) (k : ℕ) (owner : Bytes)
    → Distinct ring
    → ((j : ℕ) → j < i + n → position node j ≢ k)
    → lookup k ring ≡ some owner
    → lookup k (remove_virtual n i node ring) ≡ some owner
unfolding remove_virtual
remove_virtual-keeps zero i node ring k owner d apart e = e
remove_virtual-keeps (suc n) i node ring k owner d apart e =
    remove_virtual-keeps n (suc i) node (delete (position node i) ring) k owner
      (delete-Distinct _ ring d) (λ j less. apart j (omega arith))
      (ground (
        arith,
        lookup-delete (position node i) k ring d,
        ==_iff (position node i) k,
        apart i (omega arith),
      ))
