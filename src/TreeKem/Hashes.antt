-- ===== src/TreeKem/Hashes.antt =====
-- The tree hash: each node's hash is computed once and kept until it is cleared. The marshalling of
-- the hash inputs and the digest are parameters.
pub mod Stale
pub mod Again
use go_mls.Base.{
  ℕ, zero, suc, ◌==◌, ◌/◌, true, false, Option, none, some, List, [], Bytes, Outcome, ok, err,
  panic, and_then, ◌>>=◌, malformed_path, wrong_node_type,
}
use go_mls.TreeMath.{level, left, right, root}
use go_mls.KeyPackage.{KeyPackage, or_error}
use go_mls.TreeKem.{ParentNode, Node, leaf, parent, OptionalNode, Nodes, size, node_at, update}

pub record Hashing : Type 0 where
  pub leaf_input : ℕ → Option KeyPackage → Option Bytes
  pub parent_input : ℕ → Option ParentNode → Bytes → Bytes → Option Bytes
  pub digest : Bytes → Bytes

-- The leaf or the parent part for the hash input; a blank node has none.
unfoldable pub leaf_part : Option Node → Outcome (Option KeyPackage)
leaf_part none = ok none
leaf_part (some (leaf kp)) = ok (some kp)
leaf_part (some (parent p)) = err wrong_node_type

unfoldable pub parent_part : Option Node → Outcome (Option ParentNode)
parent_part none = ok none
parent_part (some (leaf kp)) = err wrong_node_type
parent_part (some (parent p)) = ok (some p)

-- A child that `right` does not reach.
unfoldable pub or_no_child : Option ℕ → Outcome ℕ
or_no_child none = panic malformed_path
or_no_child (some r) = ok r

-- `pub.Nodes[index].Hash`, after it was set.
unfoldable pub hash_bytes : Option Bytes → Bytes
hash_bytes none = []
hash_bytes (some b) = b

-- A call that may return an error after it has changed the nodes: its outcome, and the nodes then.
abbrev pub Tracked : Type 0 → Type 0
Tracked A = Outcome A × Nodes

-- A write that fails changes nothing.
unfoldable pub store : Outcome Nodes → Nodes → Tracked (Unit {0})
store (ok new) ns = (ok tt, new)
store (err why) ns = (err why, ns)
store (panic why) ns = (panic why, ns)

unfoldable pub read_hash : ℕ → Nodes → Tracked Bytes
read_hash index ns = and_then (node_at ns index, ns) (λ n ns'. (ok (hash_bytes n.hash), ns'))

-- `RootHash` panics on an error.
unfoldable pub or_panic_with : Tracked Bytes → Outcome (Bytes × Nodes)
or_panic_with (ok b, ns) = ok (b, ns)
or_panic_with (err why, ns) = panic why
or_panic_with (panic why, ns) = panic why

-- The callers of `SetHashAll` drop its error.
unfoldable pub drop_error : Tracked Bytes → Tracked (Unit {0})
drop_error (ok b, ns) = (ok tt, ns)
drop_error (err why, ns) = (ok tt, ns)
drop_error (panic why, ns) = (panic why, ns)

module _ (h : Hashing) where
  unfoldable pub set_leaf_node_hash : ℕ → OptionalNode → Outcome OptionalNode
  set_leaf_node_hash index n = do
    kp ← leaf_part n.node
    b ← or_error (h.leaf_input index kp)
    ok (record n { hash = some (h.digest b) })

  unfoldable pub set_parent_node_hash : ℕ → Bytes → Bytes → OptionalNode → Outcome OptionalNode
  set_parent_node_hash index lh rh n = do
    p ← parent_part n.node
    b ← or_error (h.parent_input index p lh rh)
    ok (record n { hash = some (h.digest b) })

  -- `getHash`; the fuel bounds the levels to go down, and a tree has 33 at most.
  unfoldable pub get_hash : ℕ → ℕ → Nodes → Tracked Bytes
  get_hash zero index ns = (panic malformed_path, ns)
  get_hash (suc fuel) index ns =
      and_then (node_at ns index, ns)
        (λ n ns0. elim n.hash [
          | some b ↦ (ok b, ns0)
          | none ↦ elim (level index == 0) [
            | true ↦
                and_then (store (update (set_leaf_node_hash (index / 2)) index ns0) ns0)
                  (λ _ ns1. read_hash index ns1)
            | false ↦ and_then (get_hash fuel (left index) ns0) (λ lh ns1.
                and_then (or_no_child (right index (size ns1)), ns1)
                  (λ r ns2. and_then (get_hash fuel r ns2) (λ rh ns3.
                    and_then (store (update (set_parent_node_hash index lh rh) index ns3) ns3)
                      (λ _ ns4. read_hash index ns4))))
          ]
        ])

  unfoldable pub root_hash : Nodes → Outcome (Bytes × Nodes)
  root_hash ns = or_panic_with (get_hash 33 (root (size ns)) ns)

  unfoldable pub set_hash_all : Nodes → Tracked (Unit {0})
  set_hash_all ns = drop_error (get_hash 33 (root (size ns)) ns)
