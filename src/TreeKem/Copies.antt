-- ===== src/TreeKem/Copies.antt =====
-- Copies and comparison of nodes and trees.
pub mod Lost
use go_mls.Base.{
  ◌==◌, if◌then◌else◌, Bool, true, false, not, ◌&&◌, Option, none, some, [], ◌∷◌, map, length,
  Bytes, bytes_eq, Outcome, ok, panic, ◌>>=◌, malformed_node,
}
use go_mls.KeyPackage.{key_package_equals, key_package_clone}
use go_mls.TreeKem.{ParentNode, Node, leaf, parent, OptionalNode, Nodes, TreeKemPublicKey}

unfoldable pub parent_node_equals : ParentNode → ParentNode → Bool
parent_node_equals n other =
    bytes_eq n.public_key other.public_key
    && bytes_eq n.unmerged_leaves other.unmerged_leaves
    && bytes_eq n.parent_hash other.parent_hash

-- Nodes of different types: the other's part of this type is nil, and is dereferenced.
unfoldable pub node_equals : Option Node → Option Node → Outcome Bool
node_equals none none = ok true
node_equals none (some n) = ok false
node_equals (some n) none = ok false
node_equals (some (leaf kp)) (some (leaf other)) = key_package_equals kp other
node_equals (some (leaf kp)) (some (parent other)) = panic malformed_node
node_equals (some (parent p)) (some (leaf other)) = panic malformed_node
node_equals (some (parent p)) (some (parent other)) = ok (parent_node_equals p other)

unfoldable pub parent_node_clone : ParentNode → ParentNode
parent_node_clone n = record {
  public_key = n.public_key;
  unmerged_leaves = n.unmerged_leaves;
  parent_hash = n.parent_hash;
}

unfoldable pub node_clone : Option Node → Option Node
node_clone none = none
node_clone (some (leaf kp)) = some (leaf (key_package_clone kp))
node_clone (some (parent p)) = some (parent (parent_node_clone p))

-- `dup(n.Hash)`: a copy is never nil.
unfoldable pub dup_hash : Option Bytes → Option Bytes
dup_hash none = some []
dup_hash (some b) = some b

unfoldable pub optional_node_clone : OptionalNode → OptionalNode
optional_node_clone n = record { node = node_clone n.node; hash = dup_hash n.hash }

unfoldable pub tree_clone : TreeKemPublicKey → TreeKemPublicKey
tree_clone t = record { suite = t.suite; nodes = map optional_node_clone t.nodes }

-- The loop of `Equals`, for trees of one length.
unfoldable pub nodes_equal : Nodes → Nodes → Outcome Bool
nodes_equal [] other = ok true
nodes_equal (n ∷ ns) [] = ok true
nodes_equal (n ∷ ns) (m ∷ ms) = do
  same ← node_equals n.node m.node
  elim same [ true ↦ nodes_equal ns ms | false ↦ ok false ]

unfoldable pub tree_equals : TreeKemPublicKey → TreeKemPublicKey → Outcome Bool
tree_equals t other =
    if not (length t.nodes == length other.nodes) then ok false else nodes_equal t.nodes other.nodes
