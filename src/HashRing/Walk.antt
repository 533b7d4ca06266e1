-- ===== src/HashRing/Walk.antt =====
-- The walk of `GetNNodes` of pkg/utils/hash.go.
use mathlib.Core.List.{append-nil, append_assoc}
use native.Mathlib.Nat.{add-zero, mod-eq_of_lt}
use distributed_caching_syst.Prelude.{
  ltb→lt, ◌-◌, nat_eq, ℕ, zero, suc, ◌+◌, ◌%◌, ◌≤◌, ◌<◌, ◌≡◌, ◌≢◌, refl, true, false, List, [], ◌∷◌,
  ◌++◌, if◌then◌else◌, ltb, length, length-append, arith, inl, inr, Bool-cases, sym, ◌∙◌, ap,
}
use distributed_caching_syst.Prelude.Int.{ℤ, pos, pos_part, leb_ℤ}
use distributed_caching_syst.GoString.{Bytes, bytes_eq, bytes_key, bytes_eq_iff}
use distributed_caching_syst.HashRing.{
  HashRing, hash_key, start_index, node_at, get_node, seen, collect, get_n_nodes,
}
use distributed_caching_syst.HashRing.Ring.{IsRing}
use distributed_caching_syst.HashRing.Lookup.{start_index-Successor, get_node-at, length-pos}

-- No node twice.
abbrev pub Unique : List Bytes → Type 0
Unique [] = Unit
Unique (node ∷ nodes) = (seen node nodes ≡ false) × Unique nodes

seen-append :
    (node other : Bytes) (nodes : List Bytes)
    → seen node (nodes ++ other ∷ []) ≡ (if seen node nodes then true else bytes_eq other node)
unfolding seen
seen-append node other [] = ground arith
seen-append node other (x ∷ nodes) = ground (arith, seen-append node other nodes)

Unique-append :
    (node : Bytes) (nodes : List Bytes)
    → Unique nodes
    → seen node nodes ≡ false
    → Unique (nodes ++ node ∷ [])
Unique-append node [] u fresh = (unfold seen in refl, tt)
Unique-append node (x ∷ nodes) u fresh =
    (apart x nodes u.0 fresh, Unique-append node nodes u.1 (rest x nodes fresh))
  where
    apart :
        (x : Bytes) (nodes : List Bytes)
        → seen x nodes ≡ false
        → seen node (x ∷ nodes) ≡ false
        → seen x (nodes ++ node ∷ []) ≡ false
    apart x nodes u fresh =
        unfold seen in
        ground (arith, seen-append x node nodes, bytes_eq_iff x node, bytes_eq_iff node x)

    rest :
        (x : Bytes) (nodes : List Bytes) → seen node (x ∷ nodes) ≡ false → seen node nodes ≡ false
    rest x nodes fresh = unfold seen in ground arith

-- One round appends the node that it meets unless it is there, and the result never grows beyond `n`.
collect_sound :
    (rounds i idx n : ℕ) (h : HashRing) (result : List Bytes)
    → Unique result
    → length result ≤ n
    → Unique (collect rounds i idx n h result)
      × (length (collect rounds i idx n h result) ≤ n)
      × ((more : List Bytes) × (collect rounds i idx n h result ≡ result ++ more))
collect_sound zero i idx n h result u le = unfold collect in (u, le, ([], sym (append-nil result)))
collect_sound (suc rounds) i idx n h result u le =
    let node = node_at h ((idx + i) % length h.keys) in
    elim (Bool-cases (ltb (length result) n)) [
      | inr full ↦ rw (collect-full full) (u, le, ([], sym (append-nil result)))
      | inl space ↦ elim (Bool-cases (seen node result)) [
        | inl old ↦ rw (collect-old space old) (collect_sound rounds (suc i) idx n h result u le)
        | inr new ↦
            let (unique, bound, (more, e)) =
              collect_sound rounds (suc i) idx n h (result ++ node ∷ [])
                (Unique-append node result u new)
                (omega (arith, length-append result (node ∷ []), ltb→lt (length result) n space)) in
            rw (collect-new space new)
              (unique, bound, (node ∷ more, e ∙ append_assoc result (node ∷ []) more))
      ]
    ]
  where
    collect-full : ltb (length result) n ≡ false → collect (suc rounds) i idx n h result ≡ result
    collect-full full = unfold collect in ground arith

    collect-old :
        ltb (length result) n ≡ true
        → seen (node_at h ((idx + i) % length h.keys)) result ≡ true
        → collect (suc rounds) i idx n h result ≡ collect rounds (suc i) idx n h result
    collect-old space old = unfold collect in ground arith

    collect-new :
        ltb (length result) n ≡ true
        → seen (node_at h ((idx + i) % length h.keys)) result ≡ false
        → collect (suc rounds) i idx n h result
          ≡ collect rounds (suc i) idx n h (result ++ node_at h ((idx + i) % length h.keys) ∷ [])
    collect-new space new = unfold collect in ground arith

collect-first :
    (rounds idx n : ℕ) (h : HashRing)
    → collect (suc rounds) 0 idx (suc n) h []
      ≡ collect rounds 1 idx (suc n) h (node_at h ((idx + 0) % length h.keys) ∷ [])
unfolding collect seen
collect-first rounds idx n h = ground arith

-- `GetNNodes` replies at most `n` nodes and none of them twice.
pub get_n_nodes-Unique :
    (key : Bytes) (n : ℤ) (h : HashRing)
    → Unique (get_n_nodes key n h) × (length (get_n_nodes key n h) ≤ pos_part n)
unfolding get_n_nodes
get_n_nodes-Unique key n h = elim (Bool-cases (leb_ℤ n (pos 0))) [
  | inl none_wanted ↦ rw none_wanted (tt, omega arith)
  | inr wanted ↦
      let (unique, bound, _) =
        collect_sound (length h.keys) 0 (start_index h.keys (hash_key key)) (pos_part n) h [] tt
          (omega arith) in
      rw wanted (unique, bound)
]

-- On a well-formed ring that has positions, the first of the nodes that `GetNNodes` replies for
-- one node or more is the one that `GetNode` replies.
pub get_n_nodes-first :
    (key : Bytes) (n : ℕ) {h : HashRing}
    → IsRing h
    → h.keys ≢ []
    → (more : List Bytes) × (get_n_nodes key (pos (suc n)) h ≡ get_node key h ∷ more)
get_n_nodes-first key n {h} r nonempty =
    let (k, less, at, owner) =
      start_index-Successor h.keys (hash_key key) r.sorted (length-pos h.keys nonempty) in
    let idx = start_index h.keys (hash_key key) in
    let (_, _, (more, e)) =
      collect_sound (length h.keys - 1) 1 idx (suc n) h (node_at h ((idx + 0) % length h.keys) ∷ [])
        (unfold seen in (refl, tt)) (omega arith) in
    (
      more,
      walk less (length-pos h.keys nonempty)
          ∙ e
          ∙ ap (λ node. node ∷ more)
              (ap (node_at h) (turn idx (length h.keys) less) ∙ sym (get_node-at key h nonempty)),
    )
  where
    turn : (idx len : ℕ) → idx < len → (idx + 0) % len ≡ idx
    turn idx len less = rw add-zero (mod-eq_of_lt less)

    opened :
        get_n_nodes key (pos (suc n)) h
        ≡ collect (length h.keys) 0 (start_index h.keys (hash_key key)) (suc n) h []
    opened = unfold get_n_nodes in ground arith

    walk :
        start_index h.keys (hash_key key) < length h.keys
        → 0 < length h.keys
        → get_n_nodes key (pos (suc n)) h
          ≡ collect
              (length h.keys - 1)
              1
              (start_index h.keys (hash_key key))
              (suc n)
              h
              (node_at h ((start_index h.keys (hash_key key) + 0) % length h.keys) ∷ [])
    walk less some_keys =
        let e : length h.keys ≡ suc (length h.keys - 1) = omega arith in
        opened
        ∙ (ap (λ rounds. collect rounds 0 (start_index h.keys (hash_key key)) (suc n) h []) e
            ∙ collect-first (length h.keys - 1) (start_index h.keys (hash_key key)) n h)
