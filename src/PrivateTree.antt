-- ===== src/PrivateTree.antt =====
-- The private half of treekem.go: the path secrets of a member, the keys made of them, and the two
-- sides of a direct path. Secrets are values here: the source copies them with `dup` when it keeps
-- them, and nothing overwrites them.
pub mod Opening
pub mod Sealing
pub mod Ways
pub mod Agreement
pub mod Fitting
pub mod RoundTrip
pub mod Sent
pub mod Delivery
pub mod Published
use go_mls.Base.{
  ℕ, zero, suc, ◌==◌, if◌then◌else◌, Bool, true, false, not, ◌&&◌, ltb, Option, none, some, List,
  [], ◌∷◌, ◌++◌, map, length, Bytes, bytes_eq, lookup, insert, delete, get_elem?, Outcome, and_then,
  ok, err, panic, ◌>>=◌, ◌>>◌, guard, no_key, no_overlap, undecryptable, malformed_path,
  malformed_node, index_out_of_range,
}
use go_mls.TreeMath.{to_node_index, root, parent, sibling, in_path, ancestor, dirpath}
use go_mls.Crypto.{Primitives, constants, hkdf_expand_label}
use go_mls.Crypto.Hpke.{
  HpkePrivateKey, HpkeCiphertext, HpkeLibrary, hpke_derive, hpke_encrypt, hpke_decrypt,
}
use go_mls.KeyPackage.{KeyPackage, Services, SignaturePrivateKey}
use go_mls.TreeKem.{
  Node, leaf, OptionalNode, Nodes, size, node_at, path_of, or_stuck, public_key, blank,
  key_package_of, clear_hash_all,
}
use go_mls.TreeKem.Hashes.{Hashing, Tracked, set_hash_all}
use go_mls.TreeKem.Merge.{DirectPathNode, DirectPath, resolve, merge, ParentHashing, sign_path}

-- The cache holds the keys that were made of path secrets already.
pub record TreeKemPrivateKey : Type 0 where
  pub suite : ℕ
  pub index : ℕ
  pub update_secret : Bytes
  pub path_secrets : List (ℕ × Bytes)
  pub private_key_cache : List (ℕ × HpkePrivateKey)

unfoldable pub empty_private_key : ℕ → ℕ → TreeKemPrivateKey
empty_private_key suite index = record {
  suite = suite;
  index = index;
  update_secret = [];
  path_secrets = [];
  private_key_cache = [];
}

-- `priv.PathSecrets[n] = dup(secret)` and `delete(priv.privateKeyCache, n)`
unfoldable pub keep_secret : ℕ → Bytes → TreeKemPrivateKey → TreeKemPrivateKey
keep_secret n secret priv = record priv {
  path_secrets = insert n secret priv.path_secrets;
  private_key_cache = delete n priv.private_key_cache;
}

-- A node that `parent` does not reach.
unfoldable pub or_no_parent : Option ℕ → Outcome ℕ
or_no_parent none = panic malformed_path
or_no_parent (some n) = ok n

unfoldable pub set_leaf_secret : Bytes → TreeKemPrivateKey → TreeKemPrivateKey
set_leaf_secret secret priv = keep_secret (to_node_index priv.index) secret priv

-- The copy has no update secret, as in the source.
unfoldable pub private_clone : TreeKemPrivateKey → TreeKemPrivateKey
private_clone priv = record priv { update_secret = [] }

-- The node, and its secret if there is one; the test of the caller is dropped.
unfoldable pub shared_path_secret : ℕ → TreeKemPrivateKey → Outcome (ℕ × Option Bytes)
shared_path_secret to priv =
    or_no_parent (ancestor priv.index to) >>= λ n. ok (n, lookup n priv.path_secrets)

-- The nodes that both have a secret for agree on it, and there is one.
unfoldable pub overlaps : List (ℕ × Bytes) → List (ℕ × Bytes) → Bool
overlaps [] other = false
overlaps ((n, s) ∷ secrets) other = elim (lookup n other) [
  | some t ↦ true
  | none ↦ overlaps secrets other
]

unfoldable pub same_where_both : List (ℕ × Bytes) → List (ℕ × Bytes) → Bool
same_where_both [] other = true
same_where_both ((n, s) ∷ secrets) other = elim (lookup n other) [
  | some t ↦ bytes_eq s t && same_where_both secrets other
  | none ↦ same_where_both secrets other
]

unfoldable pub consistent : TreeKemPrivateKey → TreeKemPrivateKey → Bool
consistent priv other =
    if not (priv.suite == other.suite)
    then false
    else if not (bytes_eq priv.update_secret other.update_secret)
    then false
    else if not (overlaps priv.path_secrets other.path_secrets)
    then false
    else same_where_both priv.path_secrets other.path_secrets

module _ (p : Primitives) where
  unfoldable pub path_step : ℕ → Bytes → Outcome Bytes
  path_step suite path_secret = do
    c ← constants suite
    hkdf_expand_label p suite path_secret "path" [] c.secret_size

  -- `for n := start; n != r; n = parent(n, size)`, and what follows the loop.
  unfoldable pub climb : ℕ → ℕ → ℕ → Bytes → TreeKemPrivateKey → Outcome TreeKemPrivateKey
  climb zero size n secret priv = panic malformed_path
  climb (suc fuel) size n secret priv = path_step priv.suite secret >>= λ next.
      elim (n == root size) [
        | true ↦ ok (record (keep_secret n secret priv) { update_secret = next })
        | false ↦ or_no_parent (parent n size) >>= λ up.
            climb fuel size up next (keep_secret n secret priv)
      ]

  unfoldable pub set_path_secrets : ℕ → ℕ → Bytes → TreeKemPrivateKey → Outcome TreeKemPrivateKey
  set_path_secrets start size secret priv = climb 33 size start secret priv

  unfoldable pub new_private_key : ℕ → ℕ → ℕ → Bytes → Outcome TreeKemPrivateKey
  new_private_key suite size index leaf_secret =
      set_path_secrets (to_node_index index) size leaf_secret (empty_private_key suite index)

  -- A joiner may have been sent no path secret.
  unfoldable pub new_private_key_for_joiner :
      ℕ → ℕ → ℕ → Bytes → ℕ → Option Bytes → Outcome TreeKemPrivateKey
  new_private_key_for_joiner suite index size leaf_secret intersect none =
      ok (record (empty_private_key suite index) {
        path_secrets = insert (to_node_index index) leaf_secret [];
      })
  new_private_key_for_joiner suite index size leaf_secret intersect (some path_secret) =
      set_path_secrets intersect size path_secret (record (empty_private_key suite index) {
        path_secrets = insert (to_node_index index) leaf_secret [];
      })

-- The public key at a node that is not blank is the one that belongs to the member's secret.
unfoldable pub agrees_with : HpkePrivateKey → OptionalNode → Bool
agrees_with key n = elim n.node [ none ↦ false | some m ↦ bytes_eq key.public_key (public_key m) ]

module _ (p : Primitives) (lib : HpkeLibrary) where
  -- A secret without a key gets one.
  unfoldable pub make_key :
      ℕ → Option Bytes → TreeKemPrivateKey → Outcome (HpkePrivateKey × TreeKemPrivateKey)
  make_key n none priv = err no_key
  make_key n (some secret) priv = do
    key ← hpke_derive lib p priv.suite secret
    ok (key, record priv { private_key_cache = insert n key priv.private_key_cache })

  unfoldable pub private_key : ℕ → TreeKemPrivateKey → Outcome (HpkePrivateKey × TreeKemPrivateKey)
  private_key n priv = elim (lookup n priv.private_key_cache) [
    | some key ↦ ok (key, priv)
    | none ↦ make_key n (lookup n priv.path_secrets) priv
  ]

  -- Nothing where a key cannot be made or disagrees; else the member's keys, with the new one.
  unfoldable pub key_agrees :
      Outcome (HpkePrivateKey × TreeKemPrivateKey) → ℕ → Nodes → Outcome (Option TreeKemPrivateKey)
  key_agrees (panic why) n ns = panic why
  key_agrees (err why) n ns = ok none
  key_agrees (ok (key, priv)) n ns =
      node_at ns n >>= λ m. ok (if agrees_with key m then some priv else none)

  unfoldable pub all_agree : List (ℕ × Bytes) → Nodes → TreeKemPrivateKey → Outcome Bool
  all_agree [] ns priv = ok true
  all_agree ((n, s) ∷ secrets) ns priv = key_agrees (private_key n priv) n ns >>= λ r. elim r [
    | none ↦ ok false
    | some priv' ↦ all_agree secrets ns priv'
  ]

  unfoldable pub consistent_pub : ℕ → Nodes → TreeKemPrivateKey → Outcome Bool
  consistent_pub suite ns priv =
      if not (priv.suite == suite) then ok false else all_agree priv.path_secrets ns priv
