-- ===== src/TreeKem/Merge.antt =====
-- The resolution of a node, and the direct path that a commit carries: its parent hashes, its
-- signature and its way into the public tree.
use go_mls.Base.{
  ℕ, zero, suc, ◌==◌, if◌then◌else◌, true, false, not, Option, none, some, List, [], ◌∷◌, ◌++◌, map,
  length, Bytes, bytes_eq, Outcome, and_then, ok, err, panic, ◌>>=◌, guard, malformed_path,
  malformed_node, no_parent_hash, wrong_parent_hash,
}
use go_mls.TreeMath.{to_node_index, level, left, right}
use go_mls.Crypto.{Primitives, digest}
use go_mls.Crypto.Hpke.{HpkeCiphertext}
use go_mls.Extensions.{
  ExtensionBody, Finding, absent, failed, found, find, add, ParentHashExtension,
}
use go_mls.KeyPackage.{KeyPackage, Services, SignaturePrivateKey, key_package_sign, or_error}
use go_mls.TreeKem.{
  ParentNode, Node, leaf, parent, Nodes, size, node_at, update, path_of, new_leaf_node,
  new_parent_node, clear_hash_all,
}
use go_mls.TreeKem.Hashes.{Hashing, Tracked, store, or_no_child, set_hash_all}

pub record DirectPathNode : Type 0 where
  pub public_key : Bytes
  pub encrypted_path_secrets : List HpkeCiphertext

pub record DirectPath : Type 0 where
  pub leaf_key_package : KeyPackage
  pub steps : List DirectPathNode

-- The unmerged leaves of the parent part of a node. A leaf that stands above level 0 has none.
unfoldable pub unmerged_below : ℕ → Node → Outcome (List ℕ)
unmerged_below index (leaf kp) = if level index == 0 then ok [] else panic malformed_node
unmerged_below index (parent p) =
    if level index == 0 then ok [] else ok (map to_node_index p.unmerged_leaves)

-- `resolve`; the fuel bounds the levels to go down.
unfoldable pub resolve : ℕ → ℕ → Nodes → Outcome (List ℕ)
resolve zero index ns = panic malformed_path
resolve (suc fuel) index ns = node_at ns index >>= λ n. elim n.node [
  | some m ↦ unmerged_below index m >>= λ rest. ok (index ∷ rest)
  | none ↦ elim (level index == 0) [
    | true ↦ ok []
    | false ↦ resolve fuel (left index) ns >>= λ l.
        or_no_child (right index (size ns)) >>= λ r. resolve fuel r ns >>= λ below. ok (l ++ below)
  ]
]

-- `pub.Nodes[n] = newParentNode(path.Steps[i].PublicKey)` along the direct path. A path without
-- steps for all its nodes would read out of range.
unfoldable pub place_steps : List ℕ → List DirectPathNode → Nodes → Outcome Nodes
place_steps [] steps ns = ok ns
place_steps (n ∷ dp) [] ns = panic malformed_path
place_steps (n ∷ dp) (step ∷ steps) ns = do
  ns' ← update (λ _. ok (new_parent_node step.public_key)) n ns
  place_steps dp steps ns'

-- What `Merge` does once the path has the right length.
unfoldable pub merge_steps : Hashing → List ℕ → List DirectPathNode → Nodes → Tracked (Unit {0})
merge_steps h dp steps ns =
    and_then (store (place_steps dp steps ns) ns) (λ _ ns'. set_hash_all h (clear_hash_all ns'))

-- `Merge`: the leaf is replaced before the path's length is looked at.
unfoldable pub merge : Hashing → ℕ → DirectPath → Nodes → Tracked (Unit {0})
merge h from path ns =
    let ni = to_node_index from in
    and_then (store (update (λ _. ok (new_leaf_node path.leaf_key_package)) ni ns) ns) (λ _ ns1.
      and_then (path_of ni ns1, ns1)
        (λ dp ns2.
          if not (length dp == length path.steps)
          then (err malformed_path, ns2)
          else merge_steps h dp path.steps ns2))

-- What marshals a parent node, and the body of the parent hash extension.
pub record ParentHashing : Type 0 where
  pub marshal_parent : ParentNode → Option Bytes
  pub parent_hash_body : ExtensionBody ParentHashExtension

unfoldable pub finding_hash : Finding ParentHashExtension → Outcome Bytes
finding_hash absent = err no_parent_hash
finding_hash (failed why) = err why
finding_hash (found e) = ok e.parent_hash

-- `ph[0]`, or nothing where the path has no steps.
unfoldable pub first_hash : List Bytes → Bytes
first_hash [] = []
first_hash (b ∷ bs) = b

module _ (p : Primitives) (ph : ParentHashing) where
  -- The loop of `ParentHashes` from the last step to the first: the hashes so far, and the marshalled
  -- parent node that goes into the next one.
  unfoldable pub hash_steps : ℕ → List DirectPathNode → Outcome (List Bytes × Bytes)
  hash_steps suite [] = ok ([], [])
  hash_steps suite (step ∷ steps) = do
    (hashes, last_hash) ← hash_steps suite steps
    next_hash ← or_error (
        ph.marshal_parent
          (record { public_key = step.public_key; unmerged_leaves = []; parent_hash = last_hash }))
    d ← digest p suite next_hash
    ok (d ∷ hashes, next_hash)

  unfoldable pub parent_hashes : ℕ → DirectPath → Outcome (List Bytes)
  parent_hashes suite path = hash_steps suite path.steps >>= λ r. ok r.0

  unfoldable pub parent_hash_valid : ℕ → DirectPath → Outcome (Unit {0})
  parent_hash_valid suite path = do
    hashes ← parent_hashes suite path
    h ← finding_hash (find ph.parent_hash_body path.leaf_key_package.extensions)
    guard (bytes_eq (first_hash hashes) h) wrong_parent_hash

  -- `Sign`: the parent hash goes into the leaf's package, with the new key, and the package is signed.
  unfoldable pub sign_path :
      Services → ℕ → Bytes → SignaturePrivateKey → DirectPath → Outcome DirectPath
  sign_path sv suite init_pub sig_priv path = do
    hashes ← parent_hashes suite path
    let kp = path.leaf_key_package
    extensions ← add ph.parent_hash_body kp.extensions (record { parent_hash = first_hash hashes })
    signed ←
        key_package_sign sv (record kp { extensions = extensions; init_key = init_pub }) sig_priv
    ok (record path { leaf_key_package = signed })
