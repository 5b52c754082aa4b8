-- ===== src/PrivateTree/Published.antt =====
-- The tree that `Encap` leaves to the sender, beside the one that `Merge` leaves to a receiver.
use go_mls.Base.{
  ℕ, ◌==◌, ◌≡◌, sym, ap, subst, ◌∙◌, Bool, true, false, not, if◌then◌else◌, List, length, Bytes, ok,
  ok_injective, err, and_then-eq-ok, malformed_path,
}
use go_mls.TreeMath.{to_node_index}
use go_mls.Crypto.{Primitives}
use go_mls.Crypto.Hpke.{HpkeLibrary}
use go_mls.KeyPackage.{Services, SignaturePrivateKey}
use go_mls.TreeKem.{Nodes, update, path_of, new_leaf_node, clear_hash_all}
use go_mls.TreeKem.Hashes.{Hashing, Tracked, store, set_hash_all}
use go_mls.TreeKem.Hashes.Again.{set_hash_all-again}
use go_mls.TreeKem.Merge.{DirectPath, ParentHashing, place_steps, merge_steps, merge}
use go_mls.PrivateTree.{TreeKemPrivateKey}
use go_mls.PrivateTree.Sealing.{encap_path, encap}

-- All hashes of the nodes were computed at the end.
abbrev Rehashed : Hashing → Tracked (Unit {0}) → Type 0
Rehashed h t = (ns : Nodes) × (set_hash_all h (clear_hash_all ns) ≡ t)

merge-Rehashed :
    (h : Hashing) (from : ℕ) (path : DirectPath) (ns out : Nodes) (u : Unit {0})
    → merge h from path ns ≡ (ok u, out)
    → Rehashed h (ok u, out)
unfolding merge merge_steps
merge-Rehashed h from path ns out u e =
    let placed =
      and_then-eq-ok
        (store (update (λ _. ok (new_leaf_node path.leaf_key_package)) (to_node_index from) ns) ns)
        _ e in
    let (_, ns1, _, e1) = placed in
    let (dp, ns2, _, e2) = and_then-eq-ok (path_of (to_node_index from) ns1, ns1) _ e1 in
    by_length (not (length dp == length path.steps)) dp ns2 e2
  where
    by_length :
        (b : Bool) (dp : List ℕ) (ns2 : Nodes)
        → (if b then (err malformed_path, ns2) else merge_steps h dp path.steps ns2) ≡ (ok u, out)
        → Rehashed h (ok u, out)
    by_length true dp ns2 e = cc
    by_length false dp ns2 e =
        let (_, ns3, _, e1) = and_then-eq-ok (store (place_steps dp path.steps ns2) ns2) _ e in
        (ns3, e1)

module _ (p : Primitives) (lib : HpkeLibrary) where
  -- Where `Encap` returns a path without an error: `Merge` of that path into the same tree succeeds
  -- and leaves the nodes and hashes that `Encap` left, though `Encap` computes all hashes twice.
  pub merge-encap :
      (sv : Services) (ph : ParentHashing) (h : Hashing) (suite : ℕ) (random : ℕ → ℕ → Bytes)
      (from : ℕ) (context leaf_secret : Bytes) (sig_priv : SignaturePrivateKey) (ns out : Nodes)
      (made : TreeKemPrivateKey × DirectPath)
      → encap p lib sv ph h suite random from context leaf_secret sig_priv ns ≡ (ok made, out)
      → merge h from made.1 ns ≡ (ok tt, out)
  unfolding encap
  merge-encap sv ph h suite random from context leaf_secret sig_priv ns out made e =
      let (got, ns1, f1, e1) =
        and_then-eq-ok
          (encap_path p lib sv ph suite random from context leaf_secret sig_priv ns, ns) _ e in
      let (u, ns2, f2, e2) = and_then-eq-ok (merge h from got.1 ns1) _ e1 in
      let (v, ns3, f3, e3) = and_then-eq-ok (set_hash_all h (clear_hash_all ns2)) _ e2 in
      let (before, done) = merge-Rehashed h from got.1 ns1 ns2 u f2 in
      let again : set_hash_all h (clear_hash_all ns2) ≡ (ok u, ns2) =
        subst (λ (t : Tracked (Unit {0})). set_hash_all h (clear_hash_all t.1) ≡ t) done
          (set_hash_all-again h before) in
      let same : ns2 ≡ ns3 = ap (λ (t : Tracked (Unit {0})). t.1) (sym again ∙ f3) in
      let at : ns ≡ ns1 = ap (λ q. q.1) f1 in
      let made_it : got ≡ made = ok_injective (ap (λ q. q.0) e3) in
      let left : ns3 ≡ out = ap (λ q. q.1) e3 in
      ap (λ x. merge h from x.1 ns) (sym made_it)
      ∙ ap (merge h from got.1) at
      ∙ f2
      ∙ ap (λ x. (ok tt, x)) (same ∙ left)

  pub encap-made :
      (sv : Services) (ph : ParentHashing) (h : Hashing) (suite : ℕ) (random : ℕ → ℕ → Bytes)
      (from : ℕ) (context leaf_secret : Bytes) (sig_priv : SignaturePrivateKey) (ns out : Nodes)
      (made : TreeKemPrivateKey × DirectPath)
      → encap p lib sv ph h suite random from context leaf_secret sig_priv ns ≡ (ok made, out)
      → encap_path p lib sv ph suite random from context leaf_secret sig_priv ns ≡ ok made
  unfolding encap
  encap-made sv ph h suite random from context leaf_secret sig_priv ns out made e =
      let (got, ns1, f1, e1) =
        and_then-eq-ok
          (encap_path p lib sv ph suite random from context leaf_secret sig_priv ns, ns) _ e in
      let (u, ns2, f2, e2) = and_then-eq-ok (merge h from got.1 ns1) _ e1 in
      let (v, ns3, f3, e3) = and_then-eq-ok (set_hash_all h (clear_hash_all ns2)) _ e2 in
      ap (λ q. q.0) f1 ∙ ap (λ q. q.0) e3
