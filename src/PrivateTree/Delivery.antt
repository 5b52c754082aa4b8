-- ===== src/PrivateTree/Delivery.antt =====
-- From `Encap` of one member to `Decap` of another.
use go_mls.Base.{
  ℕ, ◌≡◌, ==_refl, refl, sym, ap, subst, ◌∙◌, arith, ◌≤◌, ◌<◌, ◌^◌, true, if◌then◌else◌, none, some,
  List, length, Bytes, lookup, ok, >>=-eq-ok, ok_injective,
}
use go_mls.TreeMath.{to_node_index, sibling, node_width}
use go_mls.Crypto.{Primitives}
use go_mls.Crypto.Hpke.{HpkeLibrary}
use go_mls.Extensions.{add}
use go_mls.KeyPackage.{Services, SignaturePrivateKey, key_package_sign}
use go_mls.TreeKem.{Nodes, size, path_of, node_at, key_package_of}
use go_mls.TreeKem.Merge.{DirectPath, ParentHashing, resolve, sign_path, parent_hashes}
use go_mls.PrivateTree.{
  TreeKemPrivateKey, private_key, or_no_parent, path_step, set_path_secrets, new_private_key,
  empty_private_key,
}
use go_mls.PrivateTree.Ways.{Above}
use go_mls.PrivateTree.Agreement.{set_path_secrets-Raised, set_path_secrets_agree}
use go_mls.PrivateTree.Sealing.{secret_of, seal_steps, encap_path, or_no_leaf}
use go_mls.PrivateTree.Opening.{find_overlap, or_no_overlap, or_undecryptable, open_secrets, decap}
use go_mls.PrivateTree.Fitting.{OpensSealed, holds, Kept, Kept-trans, Fits, private_key-Kept}
use go_mls.PrivateTree.RoundTrip.{open-seal_secrets}
use go_mls.PrivateTree.Sent.{SealedAt, seal_steps-Kept, seal_steps-SealedAt}

module _ (p : Primitives) (lib : HpkeLibrary) where
  -- What the receiver does with the step that was made for it.
  decap_by :
      (from : ℕ) (ns : Nodes) (context : Bytes) (path : DirectPath)
      (priv opened : TreeKemPrivateKey) (dp : List ℕ) (at overlap before : ℕ) (secret : Bytes)
      (sender : TreeKemPrivateKey)
      (s : SealedAt p lib context ns sender path.steps at overlap before)
      → path_of (to_node_index from) ns ≡ ok dp
      → length dp ≡ length path.steps
      → find_overlap (to_node_index priv.index) 0 (to_node_index from) dp
        ≡ some (at, overlap, before)
      → length s.res ≡ length s.step.encrypted_path_secrets
      → open_secrets p lib context s.res s.step.encrypted_path_secrets none priv
        ≡ ok (some secret, opened)
      → decap p lib from ns context path priv ≡ set_path_secrets p overlap (size ns) secret opened
  unfolding decap or_no_overlap or_undecryptable
  decap_by from ns context path priv opened dp at overlap before secret sender s f len found len'
        run =
      rw
        (
          f,
          len,
          ==_refl (length path.steps),
          found,
          s.beside,
          s.resolved,
          s.is_step,
          len',
          ==_refl (length s.step.encrypted_path_secrets),
          run,
        )
        refl

  sign_path-steps :
      (ph : ParentHashing) (sv : Services) (suite : ℕ) (init_pub : Bytes)
      (sig_priv : SignaturePrivateKey) (path out : DirectPath)
      → sign_path p ph sv suite init_pub sig_priv path ≡ ok out
      → out.steps ≡ path.steps
  unfolding sign_path
  sign_path-steps ph sv suite init_pub sig_priv path out e =
      let (hashes, _, e1) = >>=-eq-ok (parent_hashes p ph suite path) _ e in
      let (extensions, _, e2) =
        >>=-eq-ok (add ph.parent_hash_body path.leaf_key_package.extensions _) _ e1 in
      let (signed, _, e3) = >>=-eq-ok (key_package_sign sv _ sig_priv) _ e2 in
      ap (λ (q : DirectPath). q.steps) (sym (ok_injective e3))

  -- The member's keys at the end are those that the leaf's secret led to, but for the cache; the steps
  -- of the path were sealed with them.
  record Encapsulated (random : ℕ → ℕ → Bytes) (suite from : ℕ) (context leaf_secret : Bytes)
      (ns : Nodes) (sender : TreeKemPrivateKey) (path : DirectPath) : Type 0 where
    fresh : TreeKemPrivateKey
    is_fresh :
        set_path_secrets p (to_node_index from) (size ns) leaf_secret (empty_private_key suite from)
        ≡ ok fresh
    dp : List ℕ
    is_path : path_of (to_node_index from) ns ≡ ok dp
    sealed_by : TreeKemPrivateKey
    is_sealed :
        seal_steps p lib random context 0 (to_node_index from) dp ns fresh
        ≡ ok (path.steps, sealed_by)
    kept : Kept fresh sender

  encap_path-Encapsulated :
      (sv : Services) (ph : ParentHashing) (suite : ℕ) (random : ℕ → ℕ → Bytes) (from : ℕ)
      (context leaf_secret : Bytes) (sig_priv : SignaturePrivateKey) (ns : Nodes)
      (out : TreeKemPrivateKey × DirectPath)
      → encap_path p lib sv ph suite random from context leaf_secret sig_priv ns ≡ ok out
      → Encapsulated random suite from context leaf_secret ns out.0 out.1
  unfolding encap_path new_private_key
  encap_path-Encapsulated sv ph suite random from context leaf_secret sig_priv ns out e =
      let (fresh, f1, e1) = >>=-eq-ok (new_private_key p suite (size ns) from leaf_secret) _ e in
      let (dp, f2, e2) = >>=-eq-ok (path_of (to_node_index from) ns) _ e1 in
      let (n, _, e3) = >>=-eq-ok (node_at ns (to_node_index from)) _ e2 in
      let (o, _, e4) = >>=-eq-ok (key_package_of n.node) _ e3 in
      let (kp, _, e5) = >>=-eq-ok (or_no_leaf o) _ e4 in
      let (made, f6, e6) =
        >>=-eq-ok (seal_steps p lib random context 0 (to_node_index from) dp ns fresh) _ e5 in
      let (leaf_key, f7, e7) = >>=-eq-ok (private_key p lib (to_node_index from) made.1) _ e6 in
      let unsigned : DirectPath = record { leaf_key_package = kp; steps = made.0 } in
      let (path, f8, e8) =
        >>=-eq-ok (sign_path p ph sv suite leaf_key.0.public_key sig_priv unsigned) _ e7 in
      let steps : path.steps ≡ made.0 =
        sign_path-steps ph sv suite leaf_key.0.public_key sig_priv unsigned path f8 in
      let (_, kept) =
        seal_steps-Kept p lib random context 0 (to_node_index from) dp ns fresh made f6 in
      subst
        (λ (q : TreeKemPrivateKey × DirectPath).
          Encapsulated random suite from context leaf_secret ns q.0 q.1)
        (ok_injective e8)
        (record {
          fresh = fresh;
          is_fresh = f1;
          dp = dp;
          is_path = f2;
          sealed_by = made.1;
          is_sealed = f6 ∙ ap (λ x. ok (x, made.1)) (sym steps);
          kept =
              Kept-trans fresh made.1 leaf_key.1 kept
                (private_key-Kept p lib (to_node_index from) made.1 leaf_key f7);
        })

  -- In a tree of 1 to 2 ^ 31 leaves, where a step of the derivation returns and HPKE opens what it
  -- sealed: of a path that `Encap` made and signed, `Decap` of another member of the suite succeeds if
  -- its secrets fit the public tree and it has one for the resolution of the node beside the path from
  -- which its overlap with the path, j steps above the sender's leaf, is reached. Both have then the
  -- same update secret, and the same secrets at the overlap and above.
  pub decap-encap_path :
      (sv : Services) (ph : ParentHashing) (st : Bytes → Bytes) (suite : ℕ) (random : ℕ → ℕ → Bytes)
      (from : ℕ) (context leaf_secret : Bytes) (sig_priv : SignaturePrivateKey) (ns : Nodes)
      (sender priv : TreeKemPrivateKey) (path : DirectPath) (dp : List ℕ) (at overlap before j : ℕ)
      → OpensSealed lib
      → ((t : Bytes) → path_step p suite t ≡ ok (st t))
      → 1 ≤ size ns
      → size ns ≤ 2 ^ 31
      → to_node_index from < node_width (size ns)
      → encap_path p lib sv ph suite random from context leaf_secret sig_priv ns ≡ ok (sender, path)
      → Fits p lib ns priv
      → priv.suite ≡ suite
      → path_of (to_node_index from) ns ≡ ok dp
      → find_overlap (to_node_index priv.index) 0 (to_node_index from) dp
        ≡ some (at, overlap, before)
      → Above (size ns) (to_node_index from) overlap j
      → ((copath : ℕ) (res : List ℕ)
          → or_no_parent (sibling before (size ns)) ≡ ok copath
          → resolve 33 copath ns ≡ ok res
          → holds priv.path_secrets res ≡ true)
      → (out : TreeKemPrivateKey) × (decap p lib from ns context path priv ≡ ok out)
        × (out.update_secret ≡ sender.update_secret)
        × ((x i : ℕ)
            → Above (size ns) overlap x i
            → lookup x out.path_secrets ≡ lookup x sender.path_secrets)
  unfolding empty_private_key secret_of
  decap-encap_path sv ph st suite random from context leaf_secret sig_priv ns sender priv path dp at
        overlap before j law steps lo hi inside made fits same f found above held =
      let enc =
        encap_path-Encapsulated sv ph suite random from context leaf_secret sig_priv ns
          (sender, path) made in
      let same_path : enc.dp ≡ dp = ok_injective (sym enc.is_path ∙ f) in
      let found' : find_overlap (to_node_index priv.index) 0 (to_node_index from) enc.dp
          ≡ some (at, overlap, before) =
        ap (find_overlap (to_node_index priv.index) 0 (to_node_index from)) same_path ∙ found in
      let (len, _) =
        seal_steps-Kept p lib random context 0 (to_node_index from) enc.dp ns enc.fresh
          (path.steps, enc.sealed_by) enc.is_sealed in
      let (k, place, s0) =
        seal_steps-SealedAt p lib random context 0 (to_node_index from) enc.dp ns enc.fresh
          (path.steps, enc.sealed_by) (to_node_index priv.index) at overlap before enc.is_sealed
          found' in
      let here : k ≡ at = omega (arith, place) in
      let s : SealedAt p lib context ns enc.fresh path.steps at overlap before =
        subst (λ x. SealedAt p lib context ns enc.fresh path.steps x overlap before) here s0 in
      let (_, _, raised, run_raised, r) =
        set_path_secrets-Raised p (size ns) st (to_node_index from) suite leaf_secret
          (empty_private_key suite from) steps refl lo hi inside in
      let fresh_suite : enc.fresh.suite ≡ suite =
        ap (λ (x : TreeKemPrivateKey). x.suite) (ok_injective (sym enc.is_fresh ∙ run_raised))
        ∙ r.same_suite in
      let secret : Bytes = secret_of (lookup overlap enc.fresh.path_secrets) in
      let (len', opens) =
        open-seal_secrets p lib enc.fresh.suite s.random context secret 0 s.res ns
          s.step.encrypted_path_secrets law s.sealed in
      let (opened, run_opens, kept) = opens none priv fits (same ∙ sym fresh_suite) in
      let read : open_secrets p lib context s.res s.step.encrypted_path_secrets none priv
          ≡ ok (some secret, opened) =
        run_opens
        ∙ ap (λ b. ok (if b then some secret else none, opened))
            (held s.copath s.res s.beside s.resolved) in
      let (a', t, b', run_a, has, run_b, updates, agree) =
        set_path_secrets_agree p (size ns) st (to_node_index from) overlap j suite leaf_secret
          (empty_private_key suite from) opened steps refl (kept.suite ∙ same) lo hi inside above in
      let as_fresh : a' ≡ enc.fresh = ok_injective (sym run_a ∙ enc.is_fresh) in
      let known : secret ≡ t =
        ap (λ (x : TreeKemPrivateKey). secret_of (lookup overlap x.path_secrets)) (sym as_fresh)
        ∙ ap secret_of has in
      (
        b',
        decap_by from ns context path priv opened enc.dp at overlap before secret enc.fresh s
              enc.is_path len found' len' read
            ∙ ap (λ x. set_path_secrets p overlap (size ns) x opened) known
            ∙ run_b,
        updates
            ∙ ap (λ (x : TreeKemPrivateKey). x.update_secret) as_fresh
            ∙ sym enc.kept.update_secret,
        λ x i over.
            agree x i over
            ∙ ap (λ (y : TreeKemPrivateKey). lookup x y.path_secrets) as_fresh
            ∙ ap (lookup x) (sym enc.kept.path_secrets),
      )
