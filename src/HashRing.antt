-- ===== src/HashRing.antt =====
-- pkg/utils/hash.go. The ring is the map from positions to nodes, the sorted list of positions, and
-- the weights of the nodes. `search` is the loop of `sort.Search`, `sort` the order that `sort.Slice`
-- leaves on numbers, `hash_key` is FNV-1a over 64 bits.
pub mod Search
pub mod Sorting
pub mod Ring
pub mod Lookup
pub mod Walk
pub mod Removal
use Prim.Native.Nat.{bit_xor}
use distributed_caching_syst.Prelude.{
  nat_eq, ℕ, zero, suc, ◌+◌, ◌-◌, ◌*◌, ◌/◌, ◌%◌, ◌^◌, Bool, true, false, Option, none, some, List,
  [], ◌∷◌, ◌++◌, if◌then◌else◌, length, get_elem?, leb, ltb, ◌==◌, map,
}
use distributed_caching_syst.Prelude.Int.{ℤ, pos, pos_part, leb_ℤ}
use distributed_caching_syst.GoMap.{lookup, insert, delete}
use distributed_caching_syst.GoString.{Bytes, codes, bytes_key, bytes_eq}

pub record HashRing : Type 0 where
  pub replicas : ℕ
  pub keys : List ℕ
  pub ring : List (ℕ × Bytes)
  pub nodes : List (Bytes × ℕ)

pub data Error : Type 0 where
  empty_id : Error
  not_found : Bytes → Error

abbrev pub default_replicas : ℕ
default_replicas = 150

-- A count that is given as an int, or its default where it is not positive.
abbrev pub positive_or : ℕ → ℤ → ℕ
positive_or d n = if leb_ℤ n (pos 0) then d else pos_part n

unfoldable pub new_hash_ring : ℤ → HashRing
new_hash_ring replicas = record {
  replicas = positive_or default_replicas replicas;
  keys = [];
  ring = [];
  nodes = [];
}

fnv_step : ℕ → Bytes → ℕ
fnv_step h [] = h
fnv_step h (c ∷ s) = fnv_step (bit_xor h c * 1099511628211 % 2 ^ 64) s

-- FNV-1a, 64 bits
unfoldable pub hash_key : Bytes → ℕ
unfolding fnv_step
hash_key s = fnv_step 14695981039346656037 s

-- The digits of `%d`, with fuel for as many as the number can have.
digits_onto : ℕ → ℕ → Bytes → Bytes
digits_onto zero n rest = rest
digits_onto (suc f) n rest =
    let more = digits_onto f (n / 10) ((b'0' + n % 10) ∷ rest) in
    if ltb n 10 then (b'0' + n) ∷ rest else more

-- `fmt.Sprintf("%s:%d", nodeID, i)`
unfoldable pub virtual_node : Bytes → ℕ → Bytes
unfolding digits_onto
virtual_node node i = node ++ b':' ∷ digits_onto (suc i) i []

abbrev pub position : Bytes → ℕ → ℕ
position node i = hash_key (virtual_node node i)

unfoldable pub insert_sorted : ℕ → List ℕ → List ℕ
insert_sorted h [] = h ∷ []
insert_sorted h (k ∷ keys) = if leb h k then h ∷ k ∷ keys else k ∷ insert_sorted h keys

unfoldable pub sort : List ℕ → List ℕ
sort [] = []
sort (h ∷ keys) = insert_sorted h (sort keys)

-- The loop of `AddNode` from round `i` on, with `n` rounds left.
unfoldable pub add_virtual : ℕ → ℕ → Bytes → List (ℕ × Bytes) × List ℕ → List (ℕ × Bytes) × List ℕ
add_virtual zero i node (ring, keys) = (ring, keys)
add_virtual (suc n) i node (ring, keys) =
    add_virtual n (suc i) node (insert (position node i) node ring, keys ++ position node i ∷ [])

unfoldable pub add_node : Bytes → ℤ → HashRing → HashRing × Option Error
add_node [] weight h = (h, some empty_id)
add_node (c ∷ node) weight h =
    let w = positive_or 1 weight in
    let (ring, keys) = add_virtual (h.replicas * w) 0 (c ∷ node) (h.ring, h.keys) in
    (record h { nodes = insert (c ∷ node) w h.nodes; ring = ring; keys = sort keys }, none)

-- The loop of `RemoveNode`.
unfoldable pub remove_virtual : ℕ → ℕ → Bytes → List (ℕ × Bytes) → List (ℕ × Bytes)
remove_virtual zero i node ring = ring
remove_virtual (suc n) i node ring = remove_virtual n (suc i) node (delete (position node i) ring)

unfoldable pub remove_node : Bytes → HashRing → HashRing × Option Error
remove_node node h = elim (lookup node h.nodes) [
  | none ↦ (h, some (not_found node))
  | some w ↦
      let ring = remove_virtual (h.replicas * w) 0 node h.ring in
      (
        record h { ring = ring; keys = sort (map (λ x. x.0) ring); nodes = delete node h.nodes },
        none,
      )
]

-- `sort.Search` between `lo` and `hi`; the distance halves, so `hi - lo` rounds are enough.
unfoldable pub search : ℕ → (ℕ → Bool) → ℕ → ℕ → ℕ
search zero f lo hi = lo
search (suc fuel) f lo hi =
    let mid = (lo + hi) / 2 in
    let right = search fuel f (suc mid) hi in
    let left = search fuel f lo mid in if ltb lo hi then (if f mid then left else right) else lo

-- `h.keys[i] >= hash`
abbrev pub reaches : List ℕ → ℕ → ℕ → Bool
reaches keys hash i = elim (get_elem? keys i) [ none ↦ true | some k ↦ leb hash k ]

-- The index at which a key's clockwise walk begins.
unfoldable pub start_index : List ℕ → ℕ → ℕ
start_index keys hash =
    let idx = search (length keys) (reaches keys hash) 0 (length keys) in
    if idx == length keys then 0 else idx

-- `h.ring[h.keys[i]]`, with the zero value for what is not there
unfoldable pub node_at : HashRing → ℕ → Bytes
node_at h i = elim (get_elem? h.keys i) [
  | none ↦ []
  | some k ↦ elim (lookup k h.ring) [ none ↦ [] | some node ↦ node ]
]

unfoldable pub get_node : Bytes → HashRing → Bytes
get_node key h = elim h.keys [ [] ↦ [] | _ ∷ _ ↦ node_at h (start_index h.keys (hash_key key)) ]

unfoldable pub seen : Bytes → List Bytes → Bool
seen node [] = false
seen node (other ∷ result) = if bytes_eq other node then true else seen node result

-- The walk of `GetNNodes` from round `i` on, with `rounds` left.
unfoldable pub collect : ℕ → ℕ → ℕ → ℕ → HashRing → List Bytes → List Bytes
collect zero i idx n h result = result
collect (suc rounds) i idx n h result =
    let node = node_at h ((idx + i) % length h.keys) in
    let rest =
      collect rounds (suc i) idx n h (if seen node result then result else result ++ node ∷ []) in
    if ltb (length result) n then rest else result

unfoldable pub get_n_nodes : Bytes → ℤ → HashRing → List Bytes
get_n_nodes key n h =
    if leb_ℤ n (pos 0)
    then []
    else collect (length h.keys) 0 (start_index h.keys (hash_key key)) (pos_part n) h []

unfoldable pub size : HashRing → ℕ
size h = length h.nodes
