-- ===== src/TreeKem/Hashes/Again.antt =====
-- What computing hashes leaves of the nodes, and computing all of them once more.
use go_mls.Base.{
  ℕ, zero, suc, ◌==◌, ◌/◌, ◌≡◌, refl, sym, ap, subst, ◌∙◌, Bool, true, false, Option, none, some,
  [], ◌∷◌, map, Bytes, Outcome, ok, err, panic, and_then, >>=-eq-ok, ok_injective,
}
use go_mls.TreeMath.{level, left, right, root}
use go_mls.KeyPackage.{or_error}
use go_mls.TreeKem.{OptionalNode, Nodes, size, node_at, update, clear_hash, clear_hash_all}
use go_mls.TreeKem.Hashes.{
  Hashing, Tracked, store, read_hash, drop_error, leaf_part, parent_part, or_no_child,
  set_leaf_node_hash, set_parent_node_hash, get_hash, set_hash_all,
}

-- The nodes without their hashes are as they were.
abbrev Kept : Nodes → Nodes → Type 0
Kept ns out = clear_hash_all out ≡ clear_hash_all ns

-- A call that leaves them so.
abbrev Keeps : Nodes → Tracked Bytes → Type 0
Keeps ns t = Kept ns t.1

and_then-Kept :
    {A B : Type 0} (first : Tracked A) (next : A → Nodes → Tracked B) (ns : Nodes)
    → Kept ns first.1
    → ((a : A) (s : Nodes) → Kept s (next a s).1)
    → Kept ns (and_then first next).1
unfolding and_then
and_then-Kept (ok a, s) next ns e f = f a s ∙ e
and_then-Kept (err why, s) next ns e f = e
and_then-Kept (panic why, s) next ns e f = e

-- A change of the hash of a node.
abbrev Rehashes : (OptionalNode → Outcome OptionalNode) → Type 0
Rehashes f = (n n' : OptionalNode) → f n ≡ ok n' → clear_hash n' ≡ clear_hash n

update-Kept :
    (f : OptionalNode → Outcome OptionalNode) (i : ℕ) (ns out : Nodes)
    → Rehashes f
    → update f i ns ≡ ok out
    → Kept ns out
unfolding update clear_hash_all
update-Kept f i [] out law e = cc
update-Kept f zero (n ∷ ns) out law e =
    let (n', g, e1) = >>=-eq-ok (f n) _ e in
    subst (Kept (n ∷ ns)) (ok_injective e1) (ap (λ m. m ∷ map clear_hash ns) (law n n' g))
update-Kept f (suc i) (n ∷ ns) out law e =
    let (ns', g, e1) = >>=-eq-ok (update f i ns) _ e in
    subst (Kept (n ∷ ns)) (ok_injective e1)
      (ap (λ ms. clear_hash n ∷ ms) (update-Kept f i ns ns' law g))

store-Kept :
    (o : Outcome Nodes) (ns : Nodes)
    → ((out : Nodes) → o ≡ ok out → Kept ns out)
    → Kept ns (store o ns).1
unfolding store
store-Kept (ok out) ns law = law out refl
store-Kept (err why) ns law = refl
store-Kept (panic why) ns law = refl

read_hash-Kept : (i : ℕ) (ns : Nodes) → Kept ns (read_hash i ns).1
unfolding read_hash
read_hash-Kept i ns = and_then-Kept (node_at ns i, ns) _ ns refl (λ n s. refl)

module _ (h : Hashing) where
  leaf-Rehashes : (i : ℕ) → Rehashes (set_leaf_node_hash h i)
  unfolding set_leaf_node_hash clear_hash
  leaf-Rehashes i n n' e =
      let (kp, _, e1) = >>=-eq-ok (leaf_part n.node) _ e in
      let (b, _, e2) = >>=-eq-ok (or_error (h.leaf_input i kp)) _ e1 in
      ap clear_hash (sym (ok_injective e2))

  parent-Rehashes : (i : ℕ) (l r : Bytes) → Rehashes (set_parent_node_hash h i l r)
  unfolding set_parent_node_hash clear_hash
  parent-Rehashes i l r n n' e =
      let (q, _, e1) = >>=-eq-ok (parent_part n.node) _ e in
      let (b, _, e2) = >>=-eq-ok (or_error (h.parent_input i q l r)) _ e1 in
      ap clear_hash (sym (ok_injective e2))

  -- The hash of a node that is computed and read.
  rehash-Kept :
      (f : OptionalNode → Outcome OptionalNode) (i : ℕ) (ns : Nodes)
      → Rehashes f
      → Kept ns (and_then (store (update f i ns) ns) (λ _ s. read_hash i s)).1
  rehash-Kept f i ns law =
      and_then-Kept (store (update f i ns) ns) (λ _ s. read_hash i s) ns
        (store-Kept (update f i ns) ns (λ out e. update-Kept f i ns out law e))
        (λ _ s. read_hash-Kept i s)

  get_hash-Kept : (fuel i : ℕ) (ns : Nodes) → Kept ns (get_hash h fuel i ns).1
  unfolding get_hash
  get_hash-Kept zero i ns = refl
  get_hash-Kept (suc fuel) i ns =
      and_then-Kept (node_at ns i, ns) _ ns refl
        (λ n s. by_hash (λ j t. get_hash-Kept fuel j t) n.hash s)
    where
      below :
          (again : (j : ℕ) (t : Nodes) → Kept t (get_hash h fuel j t).1) (s : Nodes)
          → Keeps s (
              and_then (get_hash h fuel (left i) s) (λ lh ns1.
                and_then
                  (or_no_child (right i (size ns1)), ns1)
                  (λ r ns2. and_then (get_hash h fuel r ns2) (λ rh ns3.
                    and_then
                      (store (update (set_parent_node_hash h i lh rh) i ns3) ns3)
                      (λ _ ns4. read_hash i ns4)))))
      below again s = and_then-Kept (get_hash h fuel (left i) s) _ s (again (left i) s) (λ lh s1.
          and_then-Kept (or_no_child (right i (size s1)), s1) _ s1 refl
            (λ r s2. and_then-Kept (get_hash h fuel r s2) _ s2 (again r s2) (λ rh s3.
              rehash-Kept (set_parent_node_hash h i lh rh) i s3 (parent-Rehashes i lh rh))))

      by_level :
          (again : (j : ℕ) (t : Nodes) → Kept t (get_hash h fuel j t).1) (b : Bool) (s : Nodes)
          → Keeps s (elim b [
            | true ↦
                and_then
                  (store (update (set_leaf_node_hash h (i / 2)) i s) s)
                  (λ _ ns1. read_hash i ns1)
            | false ↦ and_then (get_hash h fuel (left i) s) (λ lh ns1.
                and_then
                  (or_no_child (right i (size ns1)), ns1)
                  (λ r ns2. and_then (get_hash h fuel r ns2) (λ rh ns3.
                    and_then
                      (store (update (set_parent_node_hash h i lh rh) i ns3) ns3)
                      (λ _ ns4. read_hash i ns4))))
          ])
      by_level again true s = rehash-Kept (set_leaf_node_hash h (i / 2)) i s (leaf-Rehashes (i / 2))
      by_level again false s = below again s

      by_hash :
          (again : (j : ℕ) (t : Nodes) → Kept t (get_hash h fuel j t).1) (o : Option Bytes)
          (s : Nodes)
          → Keeps s (elim o [
            | some b ↦ (ok b, s)
            | none ↦ elim (level i == 0) [
              | true ↦
                  and_then
                    (store (update (set_leaf_node_hash h (i / 2)) i s) s)
                    (λ _ ns1. read_hash i ns1)
              | false ↦ and_then (get_hash h fuel (left i) s) (λ lh ns1.
                  and_then
                    (or_no_child (right i (size ns1)), ns1)
                    (λ r ns2. and_then (get_hash h fuel r ns2) (λ rh ns3.
                      and_then
                        (store (update (set_parent_node_hash h i lh rh) i ns3) ns3)
                        (λ _ ns4. read_hash i ns4))))
            ]
          ])
      by_hash again none s = by_level again (level i == 0) s
      by_hash again (some b) s = refl

  drop_error-nodes : (t : Tracked Bytes) → (drop_error t).1 ≡ t.1
  unfolding drop_error
  drop_error-nodes (ok b, ns) = refl
  drop_error-nodes (err why, ns) = refl
  drop_error-nodes (panic why, ns) = refl

  clear_hash_all-twice : (ns : Nodes) → clear_hash_all (clear_hash_all ns) ≡ clear_hash_all ns
  unfolding clear_hash_all clear_hash
  clear_hash_all-twice [] = refl
  clear_hash_all-twice (n ∷ ns) = ap (λ ms. clear_hash n ∷ ms) (clear_hash_all-twice ns)

  -- Computing all hashes once more gives what it gave.
  pub set_hash_all-again :
      (ns : Nodes)
      → let done = set_hash_all h (clear_hash_all ns) in
        set_hash_all h (clear_hash_all done.1) ≡ done
  unfolding set_hash_all
  set_hash_all-again ns =
      let start = clear_hash_all ns in
      ap (set_hash_all h) (
        ap clear_hash_all (drop_error-nodes (get_hash h 33 (root (size start)) start))
        ∙ get_hash-Kept 33 (root (size start)) start
        ∙ clear_hash_all-twice ns)
