-- ===== src/HashRing/Ring.antt =====
-- The invariant of the ring of pkg/utils/hash.go: the positions are sorted and are those that the map
-- assigns, each to a node with a name.
use distributed_caching_syst.Prelude.{
  nat_eq, ℕ, zero, suc, ◌*◌, ◌≡◌, refl, Bool, true, false, Option, none, some, List, [], ◌∷◌, ◌++◌,
  map, arith, inl, inr, Option-cases, ◌∙◌,
}
use distributed_caching_syst.Prelude.Int.{ℤ}
use distributed_caching_syst.GoMap.{
  lookup, insert, delete, Distinct, lookup-insert, lookup-delete, insert-Distinct, delete-Distinct,
}
use distributed_caching_syst.GoString.{Bytes, bytes_key}
use distributed_caching_syst.HashRing.{
  HashRing, new_hash_ring, position, add_virtual, add_node, remove_virtual, remove_node, sort,
  positive_or,
}
use distributed_caching_syst.HashRing.Sorting.{mem, Sorted, sort-Sorted, mem-sort, mem-append}

abbrev pub assigned : Option Bytes → Bool
assigned none = false
assigned (some _) = true

abbrev pub named : Bytes → Bool
named [] = false
named (_ ∷ _) = true

-- The parts of the invariant that the loops keep.
record Matched (ring : List (ℕ × Bytes)) (keys : List ℕ) : Type 0 where
  distinct : Distinct ring
  agree : (k : ℕ) → mem k keys ≡ assigned (lookup k ring)
  names : (k : ℕ) (node : Bytes) → lookup k ring ≡ some node → named node ≡ true

pub record IsRing (h : HashRing) : Type 0 where
  pub sorted : Sorted h.keys
  pub distinct : Distinct h.ring
  pub agree : (k : ℕ) → mem k h.keys ≡ assigned (lookup k h.ring)
  pub names : (k : ℕ) (node : Bytes) → lookup k h.ring ≡ some node → named node ≡ true

add_virtual-Matched :
    (n i : ℕ) (node : Bytes) (ring : List (ℕ × Bytes)) (keys : List ℕ)
    → named node ≡ true
    → Matched ring keys
    → Matched (add_virtual n i node (ring, keys)).0 (add_virtual n i node (ring, keys)).1
unfolding add_virtual
add_virtual-Matched zero i node ring keys is_named m = m
add_virtual-Matched (suc n) i node ring keys is_named m =
    let p = position node i in
    add_virtual-Matched n (suc i) node (insert p node ring) (keys ++ p ∷ []) is_named (record {
      distinct = insert-Distinct p node ring m.distinct;
      agree =
          λ k. ground (arith, mem-append k keys (p ∷ []), m.agree k, lookup-insert p k node ring);
      names = λ k other e. ground (arith, m.names k other, lookup-insert p k node ring);
    })

-- `AddNode` keeps the ring well formed.
pub add_node-IsRing :
    (node : Bytes) (weight : ℤ) {h : HashRing} → IsRing h → IsRing (add_node node weight h).0
unfolding add_node
add_node-IsRing [] weight r = r
add_node-IsRing (c ∷ node) weight {h} r =
    let m =
      add_virtual-Matched (h.replicas * positive_or 1 weight) 0 (c ∷ node) h.ring h.keys refl
        (record { distinct = r.distinct; agree = r.agree; names = r.names }) in
    record {
      sorted = sort-Sorted _;
      distinct = m.distinct;
      agree = λ k. mem-sort k _ ∙ m.agree k;
      names = m.names;
    }

remove_virtual-Distinct :
    (n i : ℕ) (node : Bytes) (ring : List (ℕ × Bytes))
    → Distinct ring
    → Distinct (remove_virtual n i node ring)
unfolding remove_virtual
remove_virtual-Distinct zero i node ring d = d
remove_virtual-Distinct (suc n) i node ring d =
    remove_virtual-Distinct n (suc i) node (delete (position node i) ring)
      (delete-Distinct _ ring d)

-- What is left after the loop was there before it.
pub remove_virtual-old :
    (n i : ℕ) (node : Bytes) (ring : List (ℕ × Bytes)) (k : ℕ) (owner : Bytes)
    → Distinct ring
    → lookup k (remove_virtual n i node ring) ≡ some owner
    → lookup k ring ≡ some owner
unfolding remove_virtual
remove_virtual-old zero i node ring k owner d e = e
remove_virtual-old (suc n) i node ring k owner d e = left (
    remove_virtual-old n (suc i) node (delete (position node i) ring) k owner
      (delete-Distinct _ ring d) e)
  where
    left : lookup k (delete (position node i) ring) ≡ some owner → lookup k ring ≡ some owner
    left e = ground (arith, lookup-delete (position node i) k ring d)

mem-map_keys :
    (k : ℕ) (ring : List (ℕ × Bytes)) → mem k (map (λ x. x.0) ring) ≡ assigned (lookup k ring)
unfolding lookup
mem-map_keys k [] = refl
mem-map_keys k ((j, node) ∷ ring) = ground (arith, mem-map_keys k ring)

-- `RemoveNode` keeps the ring well formed.
pub remove_node-IsRing : (node : Bytes) {h : HashRing} → IsRing h → IsRing (remove_node node h).0
remove_node-IsRing node {h} r = elim (Option-cases (lookup node h.nodes)) [
  | inl unknown ↦ rw (same unknown) r
  | inr (w, known) ↦ rw (shrunk w known) (record {
    sorted = sort-Sorted _;
    distinct = remove_virtual-Distinct (h.replicas * w) 0 node h.ring r.distinct;
    agree = λ k. mem-sort k _ ∙ mem-map_keys k _;
    names = λ k owner e.
        r.names k owner (remove_virtual-old (h.replicas * w) 0 node h.ring k owner r.distinct e);
  })
]
  where
    same : lookup node h.nodes ≡ none → (remove_node node h).0 ≡ h
    same e = unfold remove_node in ground arith

    shrunk :
        (w : ℕ)
        → lookup node h.nodes ≡ some w
        → (remove_node node h).0 ≡ record h {
          ring = remove_virtual (h.replicas * w) 0 node h.ring;
          keys = sort (map (λ x. x.0) (remove_virtual (h.replicas * w) 0 node h.ring));
          nodes = delete node h.nodes;
        }
    shrunk w e = unfold remove_node in ground arith

pub new-IsRing : (replicas : ℤ) → IsRing (new_hash_ring replicas)
unfolding new_hash_ring lookup
new-IsRing replicas = record {
  sorted = tt;
  distinct = tt;
  agree = λ k. refl;
  names = λ k node e. absurd (ground arith);
}

pub data Change : Type 0 where
  adds : Bytes → ℤ → Change
  removes : Bytes → Change

-- Calls of `AddNode` and `RemoveNode`, one after the other, also those that fail.
abbrev pub changes : List Change → HashRing → HashRing
changes [] h = h
changes (adds node weight ∷ more) h = changes more (add_node node weight h).0
changes (removes node ∷ more) h = changes more (remove_node node h).0

keeps-IsRing : (more : List Change) (h : HashRing) → IsRing h → IsRing (changes more h)
keeps-IsRing [] h r = r
keeps-IsRing (adds node weight ∷ more) h r =
    keeps-IsRing more (add_node node weight h).0 (add_node-IsRing node weight r)
keeps-IsRing (removes node ∷ more) h r =
    keeps-IsRing more (remove_node node h).0 (remove_node-IsRing node r)

-- Every ring that calls of `AddNode` and `RemoveNode` make from a new one is well-formed.
pub changes-IsRing :
    (more : List Change) (replicas : ℤ) → IsRing (changes more (new_hash_ring replicas))
changes-IsRing more replicas = keeps-IsRing more (new_hash_ring replicas) (new-IsRing replicas)
