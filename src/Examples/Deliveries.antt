-- ===== src/Examples/Deliveries.antt =====
-- A path from one member to another, and a message.
use mathlib.Core.Option
use mathlib.Core.Option.{some-injective}
use go_mls.Base.{
  bytes_eq, insert, delete, ℕ, ◌==◌, ◌≡◌, ==_iff, refl, sym, ap, subst, ◌∙◌, arith, Bool, true,
  false, if◌then◌else◌, none, some, [], ◌∷◌, Bytes, lookup, ok, ok_injective,
}
use go_mls.TreeMath.{
  node_width, parent, root, log2, log2_loop, parent_loop, parent_step, level, level_loop,
  to_node_index, leaf_width, left, right, right_loop, dirpath, dirpath_loop, sibling, in_path,
}
use go_mls.Extensions.{add, add_data, put}
use go_mls.Credential.{credential_public_key, credential_scheme}
use go_mls.Crypto.{
  digest, expand_loop, new_digest, constants, hkdf_expand_label, hkdf_expand, or_panic,
}
use go_mls.Crypto.Hpke.{
  hpke_encrypt, key_pair_secret_size, HpkePrivateKey, hpke_derive, or_hpke_error,
}
use go_mls.KeyPackage.{key_package_sign, key_package_tbs, or_error}
use go_mls.TreeKem.Hashes.{or_no_child}
use go_mls.TreeKem.{
  public_key, key_package_of, Nodes, new_leaf_node, new_node, size, node_at, path_of, or_stuck,
}
use go_mls.TreeKem.Merge.{
  first_hash, hash_steps, parent_hashes, sign_path, DirectPath, resolve, unmerged_below,
}
use go_mls.PrivateTree.{
  new_private_key, set_path_secrets, climb, empty_private_key, keep_secret, private_key, make_key,
  TreeKemPrivateKey, path_step, or_no_parent,
}
use go_mls.PrivateTree.Ways.{Above}
use go_mls.PrivateTree.Sealing.{
  or_no_leaf, seal_steps, seal_secrets, secret_of, encap_path, key_of_node,
}
use go_mls.PrivateTree.Opening.{decap, find_overlap}
use go_mls.PrivateTree.Fitting.{OpensSealed, Fits, holds, key_at}
use go_mls.PrivateTree.Delivery.{decap-encap_path}
use go_mls.PrivateTree.Published.{merge-encap}
use go_mls.Examples.Trees.{hashing}
use go_mls.Base.{and_then}
use go_mls.TreeKem.{update, clear_hash_all, clear_hash, new_parent_node}
use go_mls.TreeKem.Merge.{merge, place_steps, merge_steps}
use go_mls.TreeKem.Hashes.{
  store, set_hash_all, get_hash, drop_error, read_hash, set_leaf_node_hash, set_parent_node_hash,
  leaf_part, parent_part, hash_bytes,
}
use go_mls.PrivateTree.Sealing.{encap}
use go_mls.Examples.Suites.{primitives}
use go_mls.Examples.Packages.{services, alice_key, alice_package}
use go_mls.Examples.Keys.{or_else}
use go_mls.Examples.Worlds.{hpke, parent_hashing, own_keys}

-- The key of the second member's leaf.
abbrev pub second_key : Bytes
second_key = or_else [] (hkdf_expand_label primitives 1 (2 ∷ []) "key pair" [] 32)

abbrev pub tree_of_two : Nodes
tree_of_two =
    new_leaf_node (alice_package [] [])
    ∷ new_node
    ∷ new_leaf_node (record (alice_package [] []) { init_key = second_key })
    ∷ []

abbrev pub second : TreeKemPrivateKey
second = record (own_keys 1) { path_secrets = (2, 2 ∷ []) ∷ [] }

pub hpke-OpensSealed : OpensSealed hpke
unfolding OpensSealed
hpke-OpensSealed kem b k c random aad pt ct e f =
    ap (λ x. some x.ciphertext) (sym (some-injective _ _ f))

pub second-Fits : Fits primitives hpke tree_of_two second
unfolding key_at lookup node_at key_of_node hpke_derive hkdf_expand_label new_digest constants
    hkdf_expand or_panic or_hpke_error new_leaf_node key_pair_secret_size expand_loop public_key
second-Fits = record { public = λ n s e. known n s (2 == n) refl e; cached = λ n key e. cc }
  where
    Wanted : ℕ → Bytes → Type 0
    Wanted n s =
        (key : HpkePrivateKey) × (hpke_derive hpke primitives 1 s ≡ ok key)
        × (key_at tree_of_two n ≡ ok key.public_key)

    known :
        (n : ℕ) (s : Bytes) (b : Bool)
        → (2 == n) ≡ b
        → (if b then some (2 ∷ []) else none) ≡ some s
        → Wanted n s
    known n s false f e = cc
    known n s true f e =
        let here : 2 ≡ n = (==_iff 2 n).0 f in
        subst (λ x. Wanted x s) here
          (subst (Wanted 2) (some-injective _ _ e)
            (record { secret = second_key; public_key = second_key }, refl, refl))

abbrev pub next_secret : Bytes → Bytes
next_secret t = or_else [] (path_step primitives 1 t)

abbrev made : TreeKemPrivateKey × DirectPath
made =
    or_else (own_keys 0, record { leaf_key_package = alice_package [] []; steps = [] })
      (encap_path primitives hpke services parent_hashing 1 (λ i j. []) 0 (9 ∷ []) (1 ∷ [])
        alice_key tree_of_two)

decap-encap_path_example :
    (out : TreeKemPrivateKey) × (decap primitives hpke 0 tree_of_two (9 ∷ []) made.1 second
      ≡ ok out)
    × (out.update_secret ≡ made.0.update_secret)
    × ((x i : ℕ) → Above 2 1 x i → lookup x out.path_secrets ≡ lookup x made.0.path_secrets)
unfolding size leaf_width to_node_index node_width path_of or_stuck dirpath dirpath_loop Option.bind
    root log2 log2_loop parent parent_loop parent_step level level_loop path_step constants
    hkdf_expand_label or_panic hkdf_expand new_digest find_overlap in_path Above sibling
    or_no_parent resolve unmerged_below node_at holds lookup new_leaf_node left right right_loop
    encap_path new_private_key set_path_secrets climb empty_private_key keep_secret key_package_of
    or_no_leaf seal_steps private_key delete make_key insert hpke_derive or_hpke_error seal_secrets
    key_of_node hpke_encrypt bytes_eq credential_public_key credential_scheme key_pair_secret_size
    digest expand_loop add add_data put key_package_sign key_package_tbs or_error secret_of
    or_no_child first_hash hash_steps parent_hashes sign_path public_key
decap-encap_path_example =
    decap-encap_path primitives hpke services parent_hashing next_secret 1 (λ i j. []) 0 (9 ∷ [])
      (1 ∷ []) alice_key tree_of_two made.0 second made.1 (1 ∷ []) 0 1 0 1 hpke-OpensSealed
      (λ t. refl) (omega arith) (omega arith) (omega arith) refl second-Fits refl refl refl
      (λ e. omega (arith, e), 1, refl, refl)
      (λ copath res e f.
        let here : 2 ≡ copath = ok_injective e in
        let resolved : resolve 33 2 tree_of_two ≡ ok res =
          ap (λ x. resolve 33 x tree_of_two) here ∙ f in
        let alone : 2 ∷ [] ≡ res = ok_injective resolved in
        ap (holds second.path_secrets) (sym alone))

abbrev published : (TreeKemPrivateKey × DirectPath) × Nodes
published = (
  made,
  (encap primitives hpke services parent_hashing hashing 1 (λ i j. []) 0 (9 ∷ []) (1 ∷ []) alice_key
      tree_of_two).1,
)

merge-encap_example : merge hashing 0 made.1 tree_of_two ≡ (ok tt, published.1)
unfolding size leaf_width to_node_index node_width path_of or_stuck dirpath dirpath_loop Option.bind
    root log2 log2_loop parent parent_loop parent_step level level_loop path_step constants
    hkdf_expand_label or_panic hkdf_expand new_digest find_overlap in_path Above sibling
    or_no_parent resolve unmerged_below node_at holds lookup new_leaf_node left right right_loop
    encap encap_path and_then merge store update place_steps merge_steps set_hash_all clear_hash_all
    clear_hash get_hash drop_error read_hash set_leaf_node_hash set_parent_node_hash leaf_part
    parent_part hash_bytes new_parent_node new_node new_private_key set_path_secrets climb
    empty_private_key keep_secret key_package_of or_no_leaf seal_steps private_key delete make_key
    insert hpke_derive or_hpke_error seal_secrets key_of_node hpke_encrypt bytes_eq
    credential_public_key credential_scheme key_pair_secret_size digest expand_loop add add_data put
    key_package_sign key_package_tbs or_error secret_of or_no_child first_hash hash_steps
    parent_hashes sign_path public_key
merge-encap_example =
    merge-encap primitives hpke services parent_hashing hashing 1 (λ i j. []) 0 (9 ∷ []) (1 ∷ [])
      alice_key tree_of_two published.1 made refl
