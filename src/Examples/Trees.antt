-- ===== src/Examples/Trees.antt =====
-- The index functions and the tree operations at small trees.
use go_mls.Base.{ℕ, suc, ◌+◌, ◌^◌, ◌/◌, ◌≤◌, ◌<◌, ◌≡◌, refl, arith, none, some, [], ◌∷◌, Bytes, ok}
use mathlib.Core.Option
use go_mls.TreeMath.{
  log2_loop, parent_loop, dirpath_loop, level_loop, log2, level, node_width, root, parent, dirpath,
  parent_step,
}
use go_mls.TreeMath.Coordinates.{node, level-node, parent_step-node}
use go_mls.TreeMath.Root.{log2_bounds, root-node}
use go_mls.TreeMath.Ancestors.{ancestors, present}
use go_mls.TreeMath.DirectPath.{dirpath-ancestors}
use go_mls.TreeMath.Children.{Family, Family-of_node}
use go_mls.TreeKem.{
  OptionalNode, Nodes, set_to_blank, clear_hash, blank_path, clear_hash_path, new_parent_node,
}
use go_mls.TreeKem.{
  add_leaf, first_free, size, node_at, blank, is_some, new_leaf_node, extend, update, new_node,
  path_of, or_stuck, each, mark_path, mark_unmerged, key_package_at,
}
use go_mls.TreeMath.{leaf_width, to_node_index}
use go_mls.TreeKem.AddLeaf.{key_package_at-add_leaf}
use go_mls.TreeKem.FirstFree.{First, first_free-First}
use go_mls.Examples.Packages.{alice_package}
use go_mls.TreeKem.Blank.{Spans, ChangedAlong, blank_path_lem, clear_hash_path_lem}
use go_mls.TreeKem.Hashes.{Hashing, root_hash}
use go_mls.TreeKem.Hashes.Stale.{root_hash-blank_path}

parent_of_eight : parent 8 5 ≡ some 7
unfolding parent root log2 log2_loop node_width parent_loop parent_step level level_loop
parent_of_eight = refl

dirpath_of_five : dirpath 2 5 ≡ some (1 ∷ 3 ∷ 7 ∷ [])
unfolding dirpath Option.bind parent root log2 node_width log2_loop parent_loop parent_step level
    dirpath_loop level_loop
dirpath_of_five = refl

dirpath-ancestors_example :
    (k : ℕ) × (q : ℕ) × (d : ℕ) × (6 ≡ node k q)
    × (root 5 ≡ node (k + d) 0)
    × (dirpath 6 5 ≡ some (present (node_width 5) (ancestors d k q)))
unfolding node_width
dirpath-ancestors_example = dirpath-ancestors 5 6 (omega arith) (omega arith) (omega arith)

Family-of_node_example : (r : ℕ) × Family 5 7 r
unfolding node_width
Family-of_node_example = Family-of_node 5 7 (omega arith) (omega arith) (omega arith) refl

log2_bounds_example : (2 ^ log2 9 ≤ 9) × (9 < 2 ^ (log2 9 + 1))
log2_bounds_example = log2_bounds 9 (omega arith) (omega arith)

root-node_example :
    (m : ℕ) × (m < 32) × (root 5 ≡ node m 0) × (2 ^ m ≤ node_width 5) × (node_width 5 < 2 ^ suc m)
root-node_example = root-node 5 (omega arith) (omega arith)

level-node_example : level (node 2 1) ≡ 2
level-node_example = level-node 2 1 (omega arith)

parent_step-node_example : parent_step (node 1 2) ≡ node 2 (2 / 2)
unfolding node
parent_step-node_example = parent_step-node 1 2 (omega arith)

abbrev entry : Bytes → OptionalNode
entry b = record { node = none; hash = some b }

-- A tree of two leaves of which all hashes are known.
abbrev pub two_leaves : Nodes
two_leaves =
    entry (1 ∷ [])
    ∷ record (new_parent_node (5 ∷ [])) { hash = some (2 ∷ []) }
    ∷ entry (3 ∷ [])
    ∷ []

two_leaves-Spans : Spans 2 two_leaves
unfolding node_width
two_leaves-Spans = record { some_leaf = omega arith; few = omega arith; width = refl }

blank_path_lem_example :
    (out : Nodes) × (blank_path 1 two_leaves ≡ ok out)
    × ChangedAlong set_to_blank 2 1 two_leaves out
blank_path_lem_example = blank_path_lem 2 1 two_leaves two_leaves-Spans (omega arith)

clear_hash_path_lem_example :
    (out : Nodes) × (clear_hash_path 1 two_leaves ≡ ok out)
    × ChangedAlong clear_hash 2 1 two_leaves out
clear_hash_path_lem_example = clear_hash_path_lem 2 1 two_leaves two_leaves-Spans (omega arith)

abbrev pub hashing : Hashing
hashing = record {
  leaf_input = λ i kp. some (i ∷ []);
  parent_input = λ i p l r. some (i ∷ l);
  digest = λ b. b;
}

root_hash-blank_path_example :
    (out : Nodes) × (blank_path 1 two_leaves ≡ ok out)
    × (root_hash hashing two_leaves ≡ ok (2 ∷ [], two_leaves))
    × (root_hash hashing out ≡ ok (2 ∷ [], out))
unfolding root log2 node_width log2_loop
root_hash-blank_path_example =
    root_hash-blank_path hashing 2 1 two_leaves
      (record (new_parent_node (5 ∷ [])) { hash = some (2 ∷ []) }) (2 ∷ []) two_leaves-Spans
      (omega arith) refl refl

-- A second leaf beside the first.
abbrev with_second : Nodes
with_second =
    new_leaf_node (alice_package [] []) ∷ new_node ∷ new_leaf_node (alice_package [] (5 ∷ [])) ∷ []

key_package_at-add_leaf_example :
    key_package_at 1 with_second ≡ ok (some (alice_package [] (5 ∷ [])))
unfolding add_leaf first_free size leaf_width node_at to_node_index blank is_some new_leaf_node
    extend update new_node path_of or_stuck each mark_path clear_hash_path clear_hash dirpath
    Option.bind parent root log2 log2_loop node_width parent_loop parent_step level level_loop
    dirpath_loop mark_unmerged
key_package_at-add_leaf_example =
    key_package_at-add_leaf (alice_package [] (5 ∷ [])) (new_leaf_node (alice_package [] []) ∷ [])
      with_second 1 refl

first_free-First_example :
    (i : ℕ) × (first_free (size two_leaves) 0 two_leaves ≡ ok i) × First 0 2 two_leaves i
first_free-First_example = first_free-First 2 two_leaves two_leaves-Spans
