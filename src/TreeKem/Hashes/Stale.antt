-- ===== src/TreeKem/Hashes/Stale.antt =====
-- The root hash after a leaf was removed.
use go_mls.Base.{
  and_then, ℕ, zero, suc, ◌<◌, ◌≡◌, refl, ap, ◌∙◌, Bool-cases, inl, inr, none, some, [], ◌∷◌,
  get_elem?, Bytes, ok,
}
use go_mls.TreeMath.{root, to_node_index}
use go_mls.TreeKem.{OptionalNode, Nodes, node_at, set_to_blank, blank_path}
use go_mls.TreeKem.Each.{contains}
use go_mls.TreeKem.Blank.{Spans, size-Spans, ChangedAlong, blank_path_lem}
use go_mls.TreeKem.Hashes.{Hashing, or_panic_with, get_hash, root_hash}

node_at-get :
    (ns : Nodes) (i : ℕ) {n : OptionalNode} → get_elem? ns i ≡ some n → node_at ns i ≡ ok n
unfolding node_at
node_at-get [] i e = cc
node_at-get (n ∷ ns) zero e = cc
node_at-get (n ∷ ns) (suc i) e = node_at-get ns i e

-- A hash that is kept is the result.
get_hash_kept :
    (h : Hashing) (fuel i : ℕ) (ns : Nodes) (n : OptionalNode) (b : Bytes)
    → node_at ns i ≡ ok n
    → n.hash ≡ some b
    → get_hash h (suc fuel) i ns ≡ (ok b, ns)
unfolding get_hash and_then
get_hash_kept h fuel i ns n b e f = rw (e, f) refl

pub root_hash_kept :
    (h : Hashing) (s : ℕ) (ns : Nodes) (n : OptionalNode) (b : Bytes)
    → Spans s ns
    → get_elem? ns (root s) ≡ some n
    → n.hash ≡ some b
    → root_hash h ns ≡ ok (b, ns)
unfolding root_hash or_panic_with
root_hash_kept h s ns n b t e f =
    ap (λ k. or_panic_with (get_hash h 33 (root k) ns)) (size-Spans t)
    ∙ ap or_panic_with (get_hash_kept h 32 (root s) ns n b (node_at-get ns (root s) e) f)

-- Blanking keeps the hash of every entry.
kept_entry :
    (ns out : Nodes) (s index j : ℕ) (n : OptionalNode)
    → ChangedAlong set_to_blank s index ns out
    → get_elem? ns j ≡ some n
    → (n' : OptionalNode) × (get_elem? out j ≡ some n') × (n'.hash ≡ n.hash)
unfolding set_to_blank
kept_entry ns out s index j n c e = elim (Bool-cases (contains (to_node_index index ∷ c.path) j)) [
  | inl on ↦ (record n { node = none }, c.entry j ∙ rw (on, e), refl)
  | inr off ↦ (n, c.entry j ∙ rw (off, e), refl)
]

-- In a tree of fewer than 2 ^ 31 leaves of which the root's hash is known, `BlankPath` of any leaf
-- succeeds, and `RootHash` is the same before and after it.
pub root_hash-blank_path :
    (h : Hashing) (s index : ℕ) (ns : Nodes) (n : OptionalNode) (b : Bytes)
    → Spans s ns
    → index < s
    → get_elem? ns (root s) ≡ some n
    → n.hash ≡ some b
    → (out : Nodes) × (blank_path index ns ≡ ok out)
      × (root_hash h ns ≡ ok (b, ns))
      × (root_hash h out ≡ ok (b, out))
root_hash-blank_path h s index ns n b t low e f =
    let (out, run, c) = blank_path_lem s index ns t low in
    let (n', at, same) = kept_entry ns out s index (root s) n c e in
    let t' : Spans s out = record {
      some_leaf = t.some_leaf;
      few = t.few;
      width = c.same_length ∙ t.width;
    } in
    (out, run, root_hash_kept h s ns n b t e f, root_hash_kept h s out n' b t' at (same ∙ f))
