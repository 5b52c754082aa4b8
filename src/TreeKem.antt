-- ===== src/TreeKem.antt =====
-- The public half of treekem.go: nodes, the tree as a slice, and the operations that change it.
-- A node that is neither a leaf nor a parent panics in the source; here there is none. An index
-- outside the slice panics.
pub mod Each
pub mod Blank
pub mod Hashes
pub mod FirstFree
pub mod AddLeaf
pub mod Merge
pub mod Copies
use go_mls.Base.{
  ℕ, zero, suc, ◌+◌, ◌-◌, ◌*◌, ◌%◌, ltb, leb, ◌==◌, if◌then◌else◌, Bool, true, false, not, ◌&&◌,
  Option, none, some, List, [], ◌∷◌, ◌++◌, map, length, replicate, get_elem?, Bytes, bytes_eq, u32,
  Outcome, ok, err, panic, ◌>>=◌, ◌>>◌, guard, index_out_of_range, malformed_node, malformed_path,
  wrong_node_type, marshal_failure,
}
use go_mls.TreeMath.{to_node_index, leaf_width, level, root, left, right, dirpath}
use go_mls.KeyPackage.{KeyPackage, key_package_equals, key_package_clone, or_error}

pub record ParentNode : Type 0 where
  pub public_key : Bytes
  pub unmerged_leaves : List ℕ
  pub parent_hash : Bytes

pub data Node : Type 0 where
  leaf : KeyPackage → Node
  parent : ParentNode → Node

-- A nil node is a blank one; a nil hash is one that was cleared.
pub record OptionalNode : Type 0 where
  pub node : Option Node
  pub hash : Option Bytes

abbrev pub Nodes : Type 0
Nodes = List OptionalNode

pub record TreeKemPublicKey : Type 0 where
  pub suite : ℕ
  pub nodes : Nodes

unfoldable pub add_unmerged : ParentNode → ℕ → ParentNode
add_unmerged n l = record n { unmerged_leaves = n.unmerged_leaves ++ l ∷ [] }

unfoldable pub public_key : Node → Bytes
public_key (leaf kp) = kp.init_key
public_key (parent n) = n.public_key

-- A new slice entry.
unfoldable pub new_node : OptionalNode
new_node = record { node = none; hash = none }

unfoldable pub new_leaf_node : KeyPackage → OptionalNode
new_leaf_node kp = record { node = some (leaf kp); hash = none }

unfoldable pub new_parent_node : Bytes → OptionalNode
new_parent_node pub_key = record {
  node = some (parent (record { public_key = pub_key; unmerged_leaves = []; parent_hash = [] }));
  hash = none;
}

unfoldable pub is_some : Option Node → Bool
is_some none = false
is_some (some n) = true

unfoldable pub blank : OptionalNode → Bool
blank n = not (is_some n.node)

unfoldable pub set_to_blank : OptionalNode → OptionalNode
set_to_blank n = record n { node = none }

unfoldable pub clear_hash : OptionalNode → OptionalNode
clear_hash n = record n { hash = none }

unfoldable pub new_tree : ℕ → TreeKemPublicKey
new_tree suite = record { suite = suite; nodes = [] }

-- `len(pub.Nodes)` as a `uint32`.
unfoldable pub size : Nodes → ℕ
size ns = leaf_width (length ns % u32)

-- `ns[i]` and `ns[i] = f(ns[i])`
unfoldable pub node_at : Nodes → ℕ → Outcome OptionalNode
node_at [] i = panic index_out_of_range
node_at (n ∷ ns) zero = ok n
node_at (n ∷ ns) (suc i) = node_at ns i

unfoldable pub update : (OptionalNode → Outcome OptionalNode) → ℕ → Nodes → Outcome Nodes
update f i [] = panic index_out_of_range
update f zero (n ∷ ns) = do n' ← f n; ok (n' ∷ ns)
update f (suc i) (n ∷ ns) = do ns' ← update f i ns; ok (n ∷ ns')

-- `for _, n := range path { ns[n] = f(ns[n]) }`
unfoldable pub each : (OptionalNode → Outcome OptionalNode) → List ℕ → Nodes → Outcome Nodes
each f [] ns = ok ns
each f (i ∷ path) ns = do ns' ← update f i ns; each f path ns'

-- The direct path, which has to end.
unfoldable pub or_stuck : Option (List ℕ) → Outcome (List ℕ)
or_stuck none = panic malformed_path
or_stuck (some d) = ok d

unfoldable pub path_of : ℕ → Nodes → Outcome (List ℕ)
path_of ni ns = or_stuck (dirpath ni (size ns))

-- `for index < size && !pub.Nodes[toNodeIndex(index)].Blank() { index++ }`, for so many rounds.
unfoldable pub first_free : ℕ → ℕ → Nodes → Outcome ℕ
first_free zero index ns = ok index
first_free (suc rest) index ns = do
  n ← node_at ns (to_node_index index)
  elim (blank n) [ true ↦ ok index | false ↦ first_free rest (index + 1) ns ]

-- `for len(pub.Nodes) < int(n)+1`
unfoldable pub extend : ℕ → Nodes → Nodes
extend n ns = ns ++ replicate (n + 1 - length ns) new_node

-- A leaf has no parent part: `AddUnmerged` on it dereferences nil.
unfoldable pub mark_unmerged : ℕ → OptionalNode → Outcome OptionalNode
mark_unmerged index n = elim n.node [
  | none ↦ ok n
  | some (leaf kp) ↦ panic malformed_node
  | some (parent p) ↦ ok (record n { node = some (parent (add_unmerged p index)) })
]

unfoldable pub clear_hash_path : ℕ → Nodes → Outcome Nodes
clear_hash_path index ns = do
  ns' ← update (λ n. ok (clear_hash n)) (to_node_index index) ns
  path ← path_of (to_node_index index) ns'
  each (λ n. ok (clear_hash n)) path ns'

-- The loop that tells the nodes above a new leaf of it. The test for the leaf itself never holds on
-- a direct path.
unfoldable pub mark_path : ℕ → ℕ → List ℕ → Nodes → Outcome Nodes
mark_path ni index [] ns = ok ns
mark_path ni index (v ∷ path) ns = do
  ns' ← if v == ni then ok ns else update (mark_unmerged index) v ns
  mark_path ni index path ns'

unfoldable pub add_leaf : KeyPackage → Nodes → Outcome (ℕ × Nodes)
add_leaf kp ns = do
  index ← first_free (size ns) 0 ns
  let n = to_node_index index
  placed ← update (λ _. ok (new_leaf_node kp)) n (extend n ns)
  path ← path_of n placed
  marked ← mark_path n index path placed
  cleared ← clear_hash_path index marked
  ok (index, cleared)

unfoldable pub blank_path : ℕ → Nodes → Outcome Nodes
blank_path index [] = ok []
blank_path index (n ∷ ns) = do
  blanked ← update (λ m. ok (set_to_blank m)) (to_node_index index) (n ∷ ns)
  path ← path_of (to_node_index index) blanked
  each (λ m. ok (set_to_blank m)) path blanked

unfoldable pub update_leaf : ℕ → KeyPackage → Nodes → Outcome Nodes
update_leaf index kp ns = do
  blanked ← blank_path index ns
  placed ← update (λ _. ok (new_leaf_node kp)) (to_node_index index) blanked
  clear_hash_path index placed

unfoldable pub clear_hash_all : Nodes → Nodes
clear_hash_all = map clear_hash

-- `KeyPackage(index)`; a parent at a leaf's place dereferences nil.
unfoldable pub key_package_of : Option Node → Outcome (Option KeyPackage)
key_package_of none = ok none
key_package_of (some (leaf kp)) = ok (some kp)
key_package_of (some (parent p)) = panic malformed_node

unfoldable pub key_package_at : ℕ → Nodes → Outcome (Option KeyPackage)
key_package_at index ns = do n ← node_at ns (to_node_index index); key_package_of n.node

unfoldable pub matches : KeyPackage → Option KeyPackage → Outcome Bool
matches kp none = ok false
matches kp (some other) = key_package_equals other kp

-- The loop of `Find`, over the leaves that are left.
unfoldable pub find_from : ℕ → ℕ → KeyPackage → Nodes → Outcome (Option ℕ)
find_from zero i kp ns = ok none
find_from (suc rest) i kp ns = do
  o ← key_package_at i ns
  hit ← matches kp o
  elim hit [ true ↦ ok (some i) | false ↦ find_from rest (i + 1) kp ns ]

unfoldable pub find_leaf : KeyPackage → Nodes → Outcome (Option ℕ)
find_leaf kp ns = find_from (size ns) 0 kp ns
