-- ===== src/Examples/Rings.antt =====
-- The hash ring on concrete inputs.
use distributed_caching_syst.Prelude.{
  ℕ, ◌≤◌, ◌≡◌, ◌≢◌, ap, refl, some, [], ◌∷◌, arith, length, nat_eq,
}
use distributed_caching_syst.Prelude.Int.{pos}
use distributed_caching_syst.GoMap.{lookup, insert, delete}
use distributed_caching_syst.GoString.{Bytes, codes, bytes_key}
use distributed_caching_syst.HashRing.{
  HashRing, new_hash_ring, hash_key, search, sort, insert_sorted, add_virtual, add_node,
  remove_virtual, remove_node, start_index, node_at, get_node, get_n_nodes, position, positive_or,
  virtual_node,
}
use distributed_caching_syst.HashRing.Ring.{
  adds, removes, changes, changes-IsRing, IsRing, new-IsRing, add_node-IsRing,
}
use distributed_caching_syst.HashRing.Lookup.{Successor, get_node-owner}
use distributed_caching_syst.HashRing.Walk.{Unique, get_n_nodes-Unique}
use distributed_caching_syst.HashRing.Removal.{Owned, add_node-Owned, remove_node-clears}

abbrev one_node : HashRing
one_node = (add_node (codes "a") (pos 1) (new_hash_ring (pos 2))).0

abbrev two_nodes : HashRing
two_nodes = (add_node (codes "b") (pos 2) one_node).0

one_node-IsRing : IsRing one_node
one_node-IsRing = add_node-IsRing (codes "a") (pos 1) (new-IsRing (pos 2))

two_nodes-IsRing : IsRing two_nodes
two_nodes-IsRing = add_node-IsRing (codes "b") (pos 2) one_node-IsRing

unfoldable running : Unit {0}
unfolding new_hash_ring hash_key virtual_node insert_sorted sort add_virtual add_node remove_virtual
    remove_node search start_index node_at get_node lookup insert delete
running = tt

keys_count : length two_nodes.keys ≡ 6
unfolding running
keys_count = refl

get_node_run : get_node (codes "user:1") two_nodes ≡ codes "b"
unfolding running
get_node_run = refl

some_keys : two_nodes.keys ≢ []
some_keys e = let no_keys : length two_nodes.keys ≡ 0 = ap length e in omega (arith, keys_count)

get_node-owner_example :
    (k : ℕ) × (node : Bytes) × Successor two_nodes.keys (hash_key (codes "user:1")) k
    × (lookup k two_nodes.ring ≡ some node)
    × (get_node (codes "user:1") two_nodes ≡ node)
get_node-owner_example = get_node-owner (codes "user:1") two_nodes-IsRing some_keys

get_n_nodes-Unique_example :
    Unique (get_n_nodes (codes "user:1") (pos 2) two_nodes)
    × (length (get_n_nodes (codes "user:1") (pos 2) two_nodes) ≤ 2)
get_n_nodes-Unique_example = get_n_nodes-Unique (codes "user:1") (pos 2) two_nodes

one_node-Owned : Owned one_node
unfolding new_hash_ring lookup
one_node-Owned =
    add_node-Owned (codes "a") (pos 1) (new_hash_ring (pos 2)) (λ k node e. absurd (ground arith))
      (λ w e. absurd (ground arith))

fresh : (w : ℕ) → lookup (codes "b") one_node.nodes ≡ some w → w ≤ positive_or 1 (pos 2)
unfolding new_hash_ring add_node add_virtual lookup insert
fresh w e = absurd (ground arith)

weight_of_a : lookup (codes "a") two_nodes.nodes ≡ some 1
unfolding new_hash_ring add_node add_virtual lookup insert
weight_of_a = refl

two_nodes-Owned : Owned (add_node (codes "b") (pos 2) one_node).0
two_nodes-Owned = add_node-Owned (codes "b") (pos 2) one_node one_node-Owned fresh

remove_node-clears_example :
    lookup (position (codes "a") 0) (remove_node (codes "a") two_nodes).0.ring ≢ some (codes "a")
remove_node-clears_example =
    remove_node-clears (codes "a") two_nodes-IsRing two_nodes-Owned (position (codes "a") 0) 1
      weight_of_a

changes-IsRing_example : IsRing (
    changes
      (adds (codes "a") (pos 1) ∷ adds (codes "b") (pos 2) ∷ removes (codes "a") ∷ [])
      (new_hash_ring (pos 2)))
changes-IsRing_example =
    changes-IsRing (adds (codes "a") (pos 1) ∷ adds (codes "b") (pos 2) ∷ removes (codes "a") ∷ [])
      (pos 2)
