-- ===== src/TreeKem/Copies/Lost.antt =====
-- What a copy of a tree does to a root hash that is not known.
use go_mls.Base.{ℕ, zero, suc, ◌≡◌, refl, ap, ◌∙◌, none, some, [], ◌∷◌, map, length, get_elem?, ok}
use mathlib.Core.Option.{some-injective}
use go_mls.TreeMath.{root}
use go_mls.TreeKem.{OptionalNode, Nodes, TreeKemPublicKey}
use go_mls.TreeKem.Copies.{optional_node_clone, dup_hash, tree_clone}
use go_mls.TreeKem.Blank.{Spans}
use go_mls.TreeKem.Hashes.{Hashing, root_hash}
use go_mls.TreeKem.Hashes.Stale.{root_hash_kept}

get_elem?-map :
    (f : OptionalNode → OptionalNode) (ns : Nodes) (i : ℕ) {n : OptionalNode}
    → get_elem? ns i ≡ some n
    → get_elem? (map f ns) i ≡ some (f n)
get_elem?-map f [] i e = cc
get_elem?-map f (n ∷ ns) zero e = ap (λ m. some (f m)) (some-injective _ _ e)
get_elem?-map f (n ∷ ns) (suc i) e = get_elem?-map f ns i e

length-map : (f : OptionalNode → OptionalNode) (ns : Nodes) → length (map f ns) ≡ length ns
length-map f [] = refl
length-map f (n ∷ ns) = ap suc (length-map f ns)

-- A copy of a tree of fewer than 2 ^ 31 leaves whose root has no hash yet: its root hash is the empty
-- string, whatever the nodes are, since the copy holds an empty hash where there was none.
pub root_hash-tree_clone :
    (h : Hashing) (s : ℕ) (t : TreeKemPublicKey) (n : OptionalNode)
    → Spans s t.nodes
    → get_elem? t.nodes (root s) ≡ some n
    → n.hash ≡ none
    → root_hash h (tree_clone t).nodes ≡ ok ([], (tree_clone t).nodes)
unfolding tree_clone optional_node_clone dup_hash
root_hash-tree_clone h s t n sp e f =
    root_hash_kept h s (map optional_node_clone t.nodes) (optional_node_clone n) []
      (record {
        some_leaf = sp.some_leaf;
        few = sp.few;
        width = length-map optional_node_clone t.nodes ∙ sp.width;
      })
      (get_elem?-map optional_node_clone t.nodes (root s) e) (rw f refl)
