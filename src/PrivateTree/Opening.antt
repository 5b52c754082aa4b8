-- ===== src/PrivateTree/Opening.antt =====
-- The receiving side of a direct path, `Decap` of treekem.go.
use go_mls.Base.{
  ℕ, suc, ◌==◌, if◌then◌else◌, Option, none, some, List, [], ◌∷◌, length, Bytes, lookup, get_elem?,
  Outcome, ok, err, panic, ◌>>=◌, ◌>>◌, guard, no_overlap, undecryptable, malformed_path,
  index_out_of_range,
}
use go_mls.TreeMath.{to_node_index, sibling, in_path}
use go_mls.Crypto.{Primitives}
use go_mls.Crypto.Hpke.{HpkeCiphertext, HpkeLibrary, hpke_decrypt}
use go_mls.TreeKem.{Nodes, size, path_of}
use go_mls.TreeKem.Merge.{DirectPathNode, DirectPath, resolve}
use go_mls.PrivateTree.{TreeKemPrivateKey, private_key, set_path_secrets, or_no_parent}

-- `for i, n := range dp`: the first node of the path that stands above the member, its place, and
-- the node before it.
unfoldable pub find_overlap : ℕ → ℕ → ℕ → List ℕ → Option (ℕ × ℕ × ℕ)
find_overlap ni i last [] = none
find_overlap ni i last (n ∷ dp) =
    let rest = find_overlap ni (suc i) n dp in if in_path ni n then some (i, n, last) else rest

unfoldable pub or_no_overlap : Option (ℕ × ℕ × ℕ) → Outcome (ℕ × ℕ × ℕ)
or_no_overlap none = err no_overlap
or_no_overlap (some o) = ok o

unfoldable pub or_undecryptable : Option Bytes → Outcome Bytes
or_undecryptable none = err undecryptable
or_undecryptable (some b) = ok b

unfoldable pub step_at : List DirectPathNode → ℕ → Outcome DirectPathNode
step_at steps i = elim (get_elem? steps i) [ none ↦ panic index_out_of_range | some s ↦ ok s ]

module _ (p : Primitives) (lib : HpkeLibrary) where
  -- The loop over the ciphertexts for the resolution of the copath node. A later secret replaces an
  -- earlier one; a node that the member has no secret for is passed over.
  unfoldable pub open_secrets :
      Bytes
      → List ℕ
      → List HpkeCiphertext
      → Option Bytes
      → TreeKemPrivateKey
      → Outcome (Option Bytes × TreeKemPrivateKey)
  open_secrets context [] cts got priv = ok (got, priv)
  open_secrets context (n ∷ res) [] got priv = ok (got, priv)
  open_secrets context (n ∷ res) (ct ∷ cts) got priv = elim (lookup n priv.path_secrets) [
    | none ↦ open_secrets context res cts got priv
    | some s ↦ private_key p lib n priv >>= λ k.
        hpke_decrypt lib priv.suite k.0 context ct >>= λ path_secret.
        open_secrets context res cts (some path_secret) k.1
  ]

  -- `Decap`. The key cache, which a failed call may fill, is dropped with the error. A secret
  -- that is opened to no bytes at all counts as one here; the source asks if the slice is nil.
  unfoldable pub decap :
      ℕ → Nodes → Bytes → DirectPath → TreeKemPrivateKey → Outcome TreeKemPrivateKey
  decap from ns context path priv = do
    dp ← path_of (to_node_index from) ns
    guard (length dp == length path.steps) malformed_path
    (at, overlap, last) ←
        or_no_overlap (find_overlap (to_node_index priv.index) 0 (to_node_index from) dp)
    copath ← or_no_parent (sibling last (size ns))
    res ← resolve 33 copath ns
    step ← step_at path.steps at
    guard (length res == length step.encrypted_path_secrets) malformed_path
    (got, priv') ← open_secrets context res step.encrypted_path_secrets none priv
    path_secret ← or_undecryptable got
    set_path_secrets p overlap (size ns) path_secret priv'
