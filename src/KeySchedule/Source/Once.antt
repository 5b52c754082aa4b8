-- ===== src/KeySchedule/Source/Once.antt =====
-- What becomes of the secrets that the base key source of key-schedule.go holds, and how often a
-- sender is given one.
use go_mls.Base.{
  ℕ, suc, ◌<◌, ◌≡◌, ◌≢◌, sym, ap, ◌∙◌, arith, inl, inr, none, some, Option, List, ◌∷◌, Bytes,
  lookup, insert, delete, lookup-insert, lookup-delete, Option-cases, ok, >>=-eq-ok,
}
use go_mls.TreeMath.{left, right, to_node_index, dirpath}
use Prim.Native.String.{String}
use go_mls.Crypto.{Primitives}
use go_mls.KeySchedule.Memory.{Memory, zeros, zeroize, alloc}
use go_mls.KeySchedule.Ratchet.{HashRatchet, new_hash_ratchet}
use go_mls.KeySchedule.Ratchet.Advance.{Derives}
use go_mls.KeySchedule.Source.{
  TreeBaseKeySource, GroupKeySource, Call, suite_of, or_stuck, secret_bytes, forget, split,
  hand_out, tree_get, get_below, base_get, add_ratchet, ratchet, first_populated, derive_down,
}

forget_gone :
    (node : ℕ) (secrets : List (ℕ × ℕ)) (m : Memory) → lookup node (forget node secrets m).0 ≡ none
unfolding forget
forget_gone node secrets m = ground (arith, lookup-delete node node secrets)

forget-some :
    (node a : ℕ) (secrets : List (ℕ × ℕ)) (m : Memory)
    → lookup node secrets ≡ some a
    → forget node secrets m ≡ (delete node secrets, zeroize a m)
unfolding forget
forget-some node a secrets m e = ground arith

secret_some :
    (node a : ℕ) (secrets : List (ℕ × ℕ)) (m : Memory)
    → lookup node secrets ≡ some a
    → secret_bytes secrets node m ≡ m.cells a
unfolding secret_bytes
secret_some node a secrets m e = ground arith

-- What a round of the derivation leaves: the node's secret is overwritten and gone, the two
-- children have theirs, and the other nodes keep what they had.
pub record Splits (secrets after : List (ℕ × ℕ)) (m m' : Memory) (node l r a : ℕ) (bl br : Bytes)
    : Type 0 where
  pub gone : lookup node after ≡ none
  pub wiped : m'.cells a ≡ zeros (m.cells a)
  pub left_secret : secret_bytes after l m' ≡ bl
  pub right_secret : secret_bytes after r m' ≡ br
  pub others : (j : ℕ) → j ≢ node → j ≢ l → j ≢ r → lookup j after ≡ lookup j secrets

split_run :
    (p : Primitives) (s : TreeBaseKeySource) (d : Bytes → String → ℕ → ℕ → ℕ → Bytes) (node r a : ℕ)
    (secrets : List (ℕ × ℕ)) (m : Memory)
    → Derives p s.cipher_suite d
    → right node s.size ≡ some r
    → lookup node secrets ≡ some a
    → split p s node secrets m
      ≡ ok (
          forget node (insert r (suc m.used) (insert (left node) m.used secrets)) (
            alloc
              (d (m.cells a) "tree" r 0 s.secret_size)
              (alloc (d (m.cells a) "tree" (left node) 0 s.secret_size) m)))
unfolding split or_stuck
split_run p s d node r a secrets m h found e = simp (found, secret_some node a secrets m e, h)

-- Where derivations return, one round turns the secret of an intermediate node between its two
-- children, held in an allocated slice, into the secrets of these.
pub split-Splits :
    (p : Primitives) (s : TreeBaseKeySource) (d : Bytes → String → ℕ → ℕ → ℕ → Bytes) (node r a : ℕ)
    (secrets : List (ℕ × ℕ)) (m : Memory)
    → Derives p s.cipher_suite d
    → right node s.size ≡ some r
    → left node < node
    → node < r
    → lookup node secrets ≡ some a
    → a < m.used
    → (after : List (ℕ × ℕ)) × (m' : Memory) × (split p s node secrets m ≡ ok (after, m'))
      × Splits secrets after m m' node
          (left node)
          r
          a
          (d (m.cells a) "tree" (left node) 0 s.secret_size)
          (d (m.cells a) "tree" r 0 s.secret_size)
split-Splits p s d node r a secrets m h found before after has_secret low =
    let l = left node in
    let bl = d (m.cells a) "tree" l 0 s.secret_size in
    let br = d (m.cells a) "tree" r 0 s.secret_size in
    let filled = alloc br (alloc bl m) in
    let full = insert r (suc m.used) (insert l m.used secrets) in
    let in_full : (j : ℕ) → lookup j full ≡ _ =
      λ j. lookup-insert r j (suc m.used) (insert l m.used secrets) in
    let in_left = λ (j : ℕ). lookup-insert l j m.used secrets in
    let here : lookup node full ≡ some a = ground (arith, in_full node, in_left node) in
    let rest = λ (j : ℕ). lookup-delete node j full in
    let at_left : lookup l (delete node full) ≡ some m.used =
      ground (arith, rest l, in_full l, in_left l) in
    let at_right : lookup r (delete node full) ≡ some (suc m.used) =
      ground (arith, rest r, in_full r, in_left r) in
    (
      delete node full,
      zeroize a filled,
      split_run p s d node r a secrets m h found has_secret
          ∙ ap ok (forget-some node a full filled here),
      record {
        gone = ground (arith, rest node);
        wiped = ground arith;
        left_secret = secret_some l m.used (delete node full) _ at_left ∙ ground arith;
        right_secret = secret_some r (suc m.used) (delete node full) _ at_right ∙ ground arith;
        others = λ j hn hl hr. ground (arith, rest j, in_full j, in_left j);
      },
    )

get_below_forgets :
    (p : Primitives) (s : TreeBaseKeySource) (leaf : ℕ) (d : List ℕ) (m : Memory) (o : Option ℕ)
    {out : ℕ} {s' : TreeBaseKeySource} {m' : Memory}
    → get_below p s leaf d m o ≡ ok (out, s', m')
    → lookup leaf s'.secrets ≡ none
unfolding get_below hand_out
get_below_forgets p s leaf d m none e = cc
get_below_forgets p s leaf d m (some curr) e =
    let ((secrets, m1), _, e1) = >>=-eq-ok (derive_down p s d curr s.secrets m) _ e in
    ground (arith, e1, forget_gone leaf secrets (alloc (secret_bytes secrets leaf m1) m1))

-- A `Get` of the tree source that returns leaves no secret for the sender's leaf.
pub tree_get_forgets :
    (p : Primitives) (s s' : TreeBaseKeySource) (sender out : ℕ) (m m' : Memory)
    → tree_get p s sender m ≡ ok (out, s', m')
    → lookup (to_node_index sender) s'.secrets ≡ none
unfolding tree_get
tree_get_forgets p s s' sender out m m' e =
    let leaf = to_node_index sender in
    let (d, _, below) = >>=-eq-ok (or_stuck (dirpath leaf s.size)) _ e in
    get_below_forgets p s leaf (leaf ∷ d) m (first_populated s.secrets (leaf ∷ d)) below

add_ratchet_stored :
    (p : Primitives) (g : GroupKeySource) (sender : ℕ) (m : Memory) (c : Call HashRatchet)
    → add_ratchet p g sender m ≡ ok c
    → lookup sender c.source.ratchets ≡ some c.result
unfolding add_ratchet
add_ratchet_stored p g sender m c e =
    let ((a, base, m'), _, e1) = >>=-eq-ok (base_get p g.base sender m) _ e in
    let (r, _, e2) = >>=-eq-ok (new_hash_ratchet (suite_of g.base) (to_node_index sender) a) _ e1 in
    ground (arith, e2, lookup-insert sender sender r g.ratchets)

ratchet_found :
    (p : Primitives) (g : GroupKeySource) (sender : ℕ) (m : Memory) (r : HashRatchet)
    → lookup sender g.ratchets ≡ some r
    → ratchet p g sender m ≡ ok (record { result = r; source = g; memory = m })
unfolding ratchet
ratchet_found p g sender m r e = ground arith

ratchet_missing :
    (p : Primitives) (g : GroupKeySource) (sender : ℕ) (m : Memory)
    → lookup sender g.ratchets ≡ none
    → ratchet p g sender m ≡ add_ratchet p g sender m
unfolding ratchet
ratchet_missing p g sender m e = ground arith

-- After a call of `ratchet` that returned, a second one for the same sender returns the same ratchet
-- and leaves the source and the memory as they are, so it asks for no base key.
pub ratchet_twice :
    (p : Primitives) (g : GroupKeySource) (sender : ℕ) (m later : Memory) (c : Call HashRatchet)
    → ratchet p g sender m ≡ ok c
    → ratchet p c.source sender later
      ≡ ok (record { result = c.result; source = c.source; memory = later })
ratchet_twice p g sender m later c e = elim (Option-cases (lookup sender g.ratchets)) [
  | inl missing ↦
      ratchet_found p c.source sender later c.result
        (add_ratchet_stored p g sender m c (sym (ratchet_missing p g sender m missing) ∙ e))
  | inr (r, there) ↦
      let same = sym (ratchet_found p g sender m r there) ∙ e in
      ratchet_found p c.source sender later c.result (ground (arith, same))
]
