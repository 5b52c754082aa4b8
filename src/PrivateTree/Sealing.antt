-- ===== src/PrivateTree/Sealing.antt =====
-- The sending side of a direct path, `Encap` of treekem.go.
use go_mls.Base.{
  ℕ, suc, Option, none, some, List, [], ◌∷◌, Bytes, lookup, Outcome, and_then, ok, panic, ◌>>=◌,
  malformed_node,
}
use go_mls.TreeMath.{to_node_index, sibling}
use go_mls.Crypto.{Primitives}
use go_mls.Crypto.Hpke.{HpkeCiphertext, HpkeLibrary, hpke_encrypt}
use go_mls.KeyPackage.{KeyPackage, Services, SignaturePrivateKey}
use go_mls.TreeKem.{Node, Nodes, size, node_at, path_of, public_key, key_package_of, clear_hash_all}
use go_mls.TreeKem.Hashes.{Hashing, Tracked, set_hash_all}
use go_mls.TreeKem.Merge.{DirectPathNode, DirectPath, resolve, merge, ParentHashing, sign_path}
use go_mls.PrivateTree.{TreeKemPrivateKey, private_key, new_private_key, or_no_parent}

-- `pub.Nodes[nr].Node.PublicKey()`: a blank node is dereferenced.
unfoldable pub key_of_node : Option Node → Outcome Bytes
key_of_node none = panic malformed_node
key_of_node (some m) = ok (public_key m)

-- `priv.PathSecrets[n]`; a missing key reads as the nil slice.
unfoldable pub secret_of : Option Bytes → Bytes
secret_of none = []
secret_of (some b) = b

unfoldable pub or_no_leaf : Option KeyPackage → Outcome KeyPackage
or_no_leaf none = panic malformed_node
or_no_leaf (some kp) = ok kp

module _ (p : Primitives) (lib : HpkeLibrary) where
  -- The ciphertexts of a path secret for the nodes of a resolution; the random bytes of each stand in
  -- the order of use.
  unfoldable pub seal_secrets :
      ℕ → (ℕ → Bytes) → Bytes → Bytes → ℕ → List ℕ → Nodes → Outcome (List HpkeCiphertext)
  seal_secrets suite random context path_secret j [] ns = ok []
  seal_secrets suite random context path_secret j (nr ∷ res) ns = do
    n ← node_at ns nr
    node_pub ← key_of_node n.node
    ct ← hpke_encrypt lib suite (random j) node_pub context path_secret
    cts ← seal_secrets suite random context path_secret (suc j) res ns
    ok (ct ∷ cts)

  -- The loop of `Encap` over the direct path, with the member's keys at its end.
  unfoldable pub seal_steps :
      (ℕ → ℕ → Bytes)
      → Bytes
      → ℕ
      → ℕ
      → List ℕ
      → Nodes
      → TreeKemPrivateKey
      → Outcome (List DirectPathNode × TreeKemPrivateKey)
  seal_steps random context i last [] ns priv = ok ([], priv)
  seal_steps random context i last (n ∷ dp) ns priv = do
    (key, priv') ← private_key p lib n priv
    copath ← or_no_parent (sibling last (size ns))
    res ← resolve 33 copath ns
    cts ←
        seal_secrets priv.suite (random i) context (secret_of (lookup n priv.path_secrets)) 0 res ns
    (steps, priv'') ← seal_steps random context (suc i) n dp ns priv'
    ok (record { public_key = key.public_key; encrypted_path_secrets = cts } ∷ steps, priv'')

  -- `Encap` until the path is signed: the member's keys and the path.
  unfoldable pub encap_path :
      Services
      → ParentHashing
      → ℕ
      → (ℕ → ℕ → Bytes)
      → ℕ
      → Bytes
      → Bytes
      → SignaturePrivateKey
      → Nodes
      → Outcome (TreeKemPrivateKey × DirectPath)
  encap_path sv ph suite random from context leaf_secret leaf_sig_priv ns = do
    priv ← new_private_key p suite (size ns) from leaf_secret
    dp ← path_of (to_node_index from) ns
    n ← node_at ns (to_node_index from)
    o ← key_package_of n.node
    kp ← or_no_leaf o
    (steps, priv1) ← seal_steps random context 0 (to_node_index from) dp ns priv
    (leaf_priv, priv2) ← private_key p lib (to_node_index from) priv1
    path ←
        sign_path p ph sv suite leaf_priv.public_key leaf_sig_priv
          (record { leaf_key_package = kp; steps = steps })
    ok (priv2, path)

  -- `Encap`: the path goes into the tree, and all hashes are computed once more.
  unfoldable pub encap :
      Services
      → ParentHashing
      → Hashing
      → ℕ
      → (ℕ → ℕ → Bytes)
      → ℕ
      → Bytes
      → Bytes
      → SignaturePrivateKey
      → Nodes
      → Tracked (TreeKemPrivateKey × DirectPath)
  encap sv ph h suite random from context leaf_secret leaf_sig_priv ns =
      and_then (encap_path sv ph suite random from context leaf_secret leaf_sig_priv ns, ns)
        (λ made ns1.
          and_then (merge h from made.1 ns1)
            (λ _ ns2. and_then (set_hash_all h (clear_hash_all ns2)) (λ _ ns3. (ok made, ns3))))
