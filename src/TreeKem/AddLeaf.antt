-- ===== src/TreeKem/AddLeaf.antt =====
-- `AddLeaf` of treekem.go and what the tree has at the place that it returns.
use go_mls.Base.{
  ℕ, zero, suc, ◌≡◌, ◌≢◌, refl, ap, sym, subst, ◌∙◌, arith, inl, inr, Bool-cases, ◌==◌, ==_iff,
  none, some, List, [], ◌∷◌, Outcome, ok, >>=-eq-ok,
}
use go_mls.TreeMath.{to_node_index}
use go_mls.KeyPackage.{KeyPackage}
use go_mls.TreeKem.{
  OptionalNode, Nodes, leaf, node_at, update, each, path_of, size, extend, first_free, clear_hash,
  clear_hash_path, mark_unmerged, mark_path, new_leaf_node, add_leaf, key_package_at,
  key_package_of,
}

-- The leaf that stands at an index.
record LeafAt (kp : KeyPackage) (i : ℕ) (ns : Nodes) : Type 0 where
  entry : OptionalNode
  is_entry : node_at ns i ≡ ok entry
  is_leaf : entry.node ≡ some (leaf kp)

-- What an update that returns did to its entry, and to the others.
record Updated (f : OptionalNode → Outcome OptionalNode) (i : ℕ) (ns out : Nodes) : Type 0 where
  before : OptionalNode
  after : OptionalNode
  was : node_at ns i ≡ ok before
  applied : f before ≡ ok after
  now : node_at out i ≡ ok after
  others : (j : ℕ) → i ≢ j → node_at out j ≡ node_at ns j

update-Updated :
    (f : OptionalNode → Outcome OptionalNode) (i : ℕ) (ns out : Nodes)
    → update f i ns ≡ ok out
    → Updated f i ns out
unfolding update node_at
update-Updated f i [] out e = cc
update-Updated f zero (n ∷ ns) out e =
    let (n', run, e1) = >>=-eq-ok (f n) _ e in
    let same : out ≡ n' ∷ ns = cc in
    subst (Updated f zero (n ∷ ns)) (sym same) (record {
      before = n;
      after = n';
      was = refl;
      applied = run;
      now = refl;
      others = λ j. elim j as (λ k. 0 ≢ k → node_at (n' ∷ ns) k ≡ node_at (n ∷ ns) k) [
        | zero ↦ λ h. absurd (h refl)
        | suc k ↦ λ h. refl
      ];
    })
update-Updated f (suc i) (n ∷ ns) out e =
    let (ns', run, e1) = >>=-eq-ok (update f i ns) _ e in
    let same : out ≡ n ∷ ns' = cc in
    let u = update-Updated f i ns ns' run in
    subst (Updated f (suc i) (n ∷ ns)) (sym same) (record {
      before = u.before;
      after = u.after;
      was = u.was;
      applied = u.applied;
      now = u.now;
      others = λ j. elim j as (λ k. suc i ≢ k → node_at (n ∷ ns') k ≡ node_at (n ∷ ns) k) [
        | zero ↦ λ h. refl
        | suc k ↦ λ h. u.others k (λ q. h (ap suc q))
      ];
    })

module _ (kp : KeyPackage) (i : ℕ) where
  -- An update of another entry leaves the leaf.
  elsewhere :
      (f : OptionalNode → Outcome OptionalNode) (v : ℕ) (ns out : Nodes)
      → v ≢ i
      → update f v ns ≡ ok out
      → LeafAt kp i ns
      → LeafAt kp i out
  elsewhere f v ns out apart e l = record {
    entry = l.entry;
    is_entry = (update-Updated f v ns out e).others i apart ∙ l.is_entry;
    is_leaf = l.is_leaf;
  }

  cleared_here :
      (ns out : Nodes)
      → update (λ n. ok (clear_hash n)) i ns ≡ ok out
      → LeafAt kp i ns
      → LeafAt kp i out
  unfolding clear_hash
  cleared_here ns out e l =
      let u = update-Updated (λ n. ok (clear_hash n)) i ns out e in
      let same : u.before ≡ l.entry = cc (u.was, l.is_entry) in
      let made : record u.before { hash = none } ≡ u.after = cc (u.applied) in
      record {
        entry = u.after;
        is_entry = u.now;
        is_leaf = ap (λ n. n.node) (sym made) ∙ ap (λ n. n.node) same ∙ l.is_leaf;
      }

  cleared :
      (v : ℕ) (ns out : Nodes)
      → update (λ n. ok (clear_hash n)) v ns ≡ ok out
      → LeafAt kp i ns
      → LeafAt kp i out
  cleared v ns out e l = elim (Bool-cases (v == i)) [
    | inl same ↦
        let at = (==_iff v i).0 same in
        cleared_here ns out (subst (λ k. update (λ n. ok (clear_hash n)) k ns ≡ ok out) at e) l
    | inr apart ↦ elsewhere (λ n. ok (clear_hash n)) v ns out (ground arith) e l
  ]

  all_cleared :
      (path : List ℕ) (ns out : Nodes)
      → each (λ n. ok (clear_hash n)) path ns ≡ ok out
      → LeafAt kp i ns
      → LeafAt kp i out
  unfolding each
  all_cleared [] ns out e l = subst (LeafAt kp i) (cc e) l
  all_cleared (v ∷ path) ns out e l =
      let (ns', run, rest) = >>=-eq-ok (update (λ n. ok (clear_hash n)) v ns) _ e in
      all_cleared path ns' out rest (cleared v ns ns' run l)

  marked :
      (index : ℕ) (path : List ℕ) (ns out : Nodes)
      → mark_path i index path ns ≡ ok out
      → LeafAt kp i ns
      → LeafAt kp i out
  unfolding mark_path
  marked index [] ns out e l = subst (LeafAt kp i) (cc e) l
  marked index (v ∷ path) ns out e l = elim (Bool-cases (v == i)) [
    | inl same ↦
        let rest : mark_path i index path ns ≡ ok out = rw same at e in
        marked index path ns out rest l
    | inr apart ↦
        let (ns', run, rest) = >>=-eq-ok (update (mark_unmerged index) v ns) _ (rw apart at e) in
        marked index path ns' out rest
          (elsewhere (mark_unmerged index) v ns ns' (ground arith) run l)
  ]

  is_new : (n : OptionalNode) → new_leaf_node kp ≡ n → n.node ≡ some (leaf kp)
  unfolding new_leaf_node
  is_new n e = ap (λ (m : OptionalNode). m.node) (sym e)

  placed : (ns out : Nodes) → update (λ _. ok (new_leaf_node kp)) i ns ≡ ok out → LeafAt kp i out
  placed ns out e =
      let u = update-Updated (λ _. ok (new_leaf_node kp)) i ns out e in
      record { entry = u.after; is_entry = u.now; is_leaf = is_new u.after (cc (u.applied)) }

  path_cleared :
      (index : ℕ) (ns out : Nodes)
      → to_node_index index ≡ i
      → clear_hash_path index ns ≡ ok out
      → LeafAt kp i ns
      → LeafAt kp i out
  unfolding clear_hash_path
  path_cleared index ns out at e l =
      let (ns', run, e1) =
        >>=-eq-ok (update (λ n. ok (clear_hash n)) (to_node_index index) ns) _ e in
      let (path, found, rest) = >>=-eq-ok (path_of (to_node_index index) ns') _ e1 in
      all_cleared path ns' out rest (cleared (to_node_index index) ns ns' run l)

key_package_by :
    (kp : KeyPackage) (index : ℕ) (ns : Nodes)
    → LeafAt kp (to_node_index index) ns
    → key_package_at index ns ≡ ok (some kp)
unfolding key_package_at key_package_of
key_package_by kp index ns l = rw (l.is_entry, l.is_leaf) refl

-- Where `AddLeaf` returns, `KeyPackage` finds the package that was added at the index returned.
pub key_package_at-add_leaf :
    (kp : KeyPackage) (ns out : Nodes) (index : ℕ)
    → add_leaf kp ns ≡ ok (index, out)
    → key_package_at index out ≡ ok (some kp)
unfolding add_leaf
key_package_at-add_leaf kp ns out index e =
    let (free, e0, e1) = >>=-eq-ok (first_free (size ns) 0 ns) _ e in
    let ni = to_node_index free in
    let (ns1, put, e2) = >>=-eq-ok (update (λ _. ok (new_leaf_node kp)) ni (extend ni ns)) _ e1 in
    let (path, e3, e4) = >>=-eq-ok (path_of ni ns1) _ e2 in
    let (ns2, mark, e5) = >>=-eq-ok (mark_path ni free path ns1) _ e4 in
    let (ns3, clear, e6) = >>=-eq-ok (clear_hash_path free ns2) _ e5 in
    let at : free ≡ index = cc in
    let whole : ns3 ≡ out = cc in
    let l =
      path_cleared kp ni free ns2 ns3 refl clear
        (marked kp ni free path ns1 ns2 mark (placed kp ni (extend ni ns) ns1 put)) in
    subst (λ o. key_package_at index o ≡ ok (some kp)) whole
      (subst (λ k. key_package_at k ns3 ≡ ok (some kp)) at (key_package_by kp free ns3 l))
