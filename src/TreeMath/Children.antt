-- ===== src/TreeMath/Children.antt =====
-- `left`, `right` and `sibling` against `parent`.
use go_mls.Base.{
  ℕ, zero, suc, ◌+◌, ◌*◌, ◌/◌, ◌%◌, ◌^◌, ◌≤◌, ◌<◌, ◌≡◌, refl, sym, ap, subst, ◌∙◌, inl, inr, arith,
  ltb, Bool-cases, List, ◌∷◌, some,
}
use mathlib.Core.Option
use native.Mathlib.Nat.{pow-suc, one-le-pow}
use go_mls.TreeMath.{rounds, left, right_loop, right, parent, sibling, node_width}
use go_mls.TreeMath.Coordinates.{node, node_cover, level-node, left-node, flip_right-node}
use go_mls.TreeMath.Root.{node_width_small}
use go_mls.TreeMath.Ancestors.{ancestors, present, present_here, present_skip, Within, node-Within}
use go_mls.TreeMath.DirectPath.{Shape, shape, parent-node}

-- A node stands right of its left child and left of its right child, by the same distance.
node_split :
    (k q : ℕ)
    → (node (suc k) q ≡ node k (2 * q) + 2 ^ k) × (node k (2 * q + 1) ≡ node (suc k) q + 2 ^ k)
unfolding node
node_split zero q = omega arith
node_split (suc k) q = omega (arith, pow-suc 2 k, node_split k q)

Within-down : (m k q d r : ℕ) → Within m (suc k) q d → r < 2 → Within m k (2 * q + r) (suc d)
Within-down m k q d r i h = record {
  depth = omega (arith, i.depth);
  place = omega (arith, i.place, pow-suc 2 d);
}

twice : {m : ℕ} (k q d : ℕ) → Within m (suc k) q d → Within m k (2 * q) (suc d)
twice k q d i = record {
  depth = omega (arith, i.depth);
  place = omega (arith, i.place, pow-suc 2 d);
}

head_eq : {x y : ℕ} {xs ys : List ℕ} → x ∷ xs ≡ y ∷ ys → x ≡ y
head_eq e = cc

-- Where `right_loop` comes to rest: a node in the tree whose ancestors in the tree are those of the
-- node it started from.
record Descent (fuel w m d k p b : ℕ) : Type 0 where
  down : ℕ
  at : ℕ
  depth : ℕ
  within : Within m down at depth
  found : right_loop fuel w (node k p) ≡ some (node down at)
  in_tree : node down at < w
  after : b ≤ node down at
  same : present w (ancestors depth down at) ≡ present w (ancestors d k p)

module _ {n w m : ℕ} (s : Shape n w m) where
  right_loop_here : (fuel r : ℕ) → r < w → right_loop (suc fuel) w r ≡ some r
  unfolding right_loop
  right_loop_here fuel r low = ground arith

  right_loop_next :
      (fuel k p : ℕ)
      → k < 32
      → w ≤ node (suc k) p
      → right_loop (suc fuel) w (node (suc k) p) ≡ right_loop fuel w (node k (2 * p))
  unfolding right_loop
  right_loop_next fuel k p h high = ground (arith, left-node k p h)

  stay :
      (fuel k p d b : ℕ)
      → Within m k p d
      → node k p + 1 ≡ b + 2 ^ k
      → node k p < w
      → Descent (suc fuel) w m d k p b
  stay fuel k p d b i e low = record {
    down = k;
    at = p;
    depth = d;
    within = i;
    found = right_loop_here fuel (node k p) low;
    in_tree = low;
    after = omega (arith, one-le-pow k 2 (omega arith));
    same = refl;
  }

  above_left :
      (k p d : ℕ)
      → w ≤ node (suc k) p
      → present w (ancestors (suc d) k (2 * p)) ≡ present w (ancestors d (suc k) p)
  above_left k p d high =
      let half : 2 * p / 2 ≡ p = omega arith in
      subst (λ t. present w (ancestors (suc d) k (2 * p)) ≡ present w (ancestors d (suc k) t)) half
        (present_skip w d k (2 * p) (rw half high))

  -- `b` is the first leaf below the node; it is in the tree, so the loop ends.
  descend :
      (fuel k p d b : ℕ)
      → k < fuel
      → Within m k p d
      → node k p + 1 ≡ b + 2 ^ k
      → b < w
      → Descent fuel w m d k p b
  descend zero k p d b h i e low = absurd (omega arith)
  descend (suc fuel) zero p d b h i e low = stay fuel 0 p d b i e (omega arith)
  descend (suc fuel) (suc k) p d b h i e low = elim (Bool-cases (ltb (node (suc k) p) w)) [
    | inl stop ↦ stay fuel (suc k) p d b i e (ground arith)
    | inr go_on ↦
        let high : w ≤ node (suc k) p = ground arith in
        let rest =
          descend fuel k (2 * p) (suc d) b (omega arith) (twice k p d i)
            (omega (arith, node_split k p, pow-suc 2 k)) low in
        record {
          down = rest.down;
          at = rest.at;
          depth = rest.depth;
          within = rest.within;
          found = right_loop_next fuel k p (omega (arith, i.depth, s.height)) high ∙ rest.found;
          in_tree = rest.in_tree;
          after = rest.after;
          same = rest.same ∙ above_left k p d high;
        }
  ]

-- A node with children in the tree: the two, and what the functions make of them.
pub record Family (n x r : ℕ) : Type 0 where
  pub right_found : right x n ≡ some r
  pub in_tree : r < node_width n
  pub left_before : left x < x
  pub right_after : x < r
  pub parent_left : parent (left x) n ≡ some x
  pub parent_right : parent r n ≡ some x
  pub sibling_left : sibling (left x) n ≡ some r
  pub sibling_right : sibling r n ≡ some (left x)

sibling_of_left :
    (n x p r : ℕ) → parent x n ≡ some p → x < p → right p n ≡ some r → sibling x n ≡ some r
unfolding sibling Option.bind
sibling_of_left n x p r e low f = rw e (ground (arith, f))

sibling_of_right : (n x p : ℕ) → parent x n ≡ some p → p < x → sibling x n ≡ some (left p)
unfolding sibling Option.bind
sibling_of_right n x p e high = rw e (ground arith)

module _ {n w m : ℕ} (s : Shape n w m) where
  -- The parent of a node of which the first ancestor in the tree is known.
  parent_by :
      (j p e x : ℕ) (xs : List ℕ)
      → Within m j p e
      → present w (ancestors e j p) ≡ x ∷ xs
      → parent (node j p) n ≡ some x
  parent_by j p zero x xs inside l = unfold present ancestors in cc
  parent_by j p (suc e) x xs inside l =
      let (a, f) = parent-node s e j p inside in f ∙ ap some (head_eq (sym a.list_eq ∙ l))

  right-node :
      (k q d : ℕ)
      → Within m (suc k) q d
      → right (node (suc k) q) n ≡ right_loop rounds w (node k (2 * q + 1))
  unfolding right
  right-node k q d i = ground (
    arith,
    i.depth,
    s.height,
    s.width,
    level-node (suc k) q,
    flip_right-node k q (omega (arith, i.depth, s.height)),
  )

  above_child :
      (k p q d : ℕ)
      → p / 2 ≡ q
      → node (suc k) q < w
      → present w (ancestors (suc d) k p) ≡ node (suc k) q ∷ present w (ancestors d (suc k) q)
  above_child k p q d half low =
      subst
        (λ t.
          present w (ancestors (suc d) k p) ≡ node (suc k) t ∷ present w (ancestors d (suc k) t))
        half (present_here w d k p (rw half low))

  family :
      (k q d : ℕ)
      → Within m (suc k) q d
      → node (suc k) q + 1 < w
      → (r : ℕ) × Family n (node (suc k) q) r
  family k q d i room =
      let x : ℕ = node (suc k) q in
      let in_left = left-node k q (omega (arith, i.depth, s.height)) in
      let split = node_split k q in
      let power = one-le-pow k 2 (omega arith) in
      let rest =
        descend s rounds k (2 * q + 1) (suc d) (x + 1) (omega (arith, i.depth, s.height))
          (Within-down m k q d 1 i (omega arith)) (omega (arith, split)) room in
      let r : ℕ = node rest.down rest.at in
      let after : x < r = omega (arith, rest.after) in
      let found : right x n ≡ some r = right-node k q d i ∙ rest.found in
      let before : left x < x = rw in_left (omega (arith, split, power)) in
      let up_left : parent (left x) n ≡ some x = rw in_left (
        parent_by k (2 * q) (suc d) x _ (twice k q d i)
          (above_child k (2 * q) q d (omega arith) (omega arith))) in
      let up_right : parent r n ≡ some x =
        parent_by rest.down rest.at rest.depth x _ rest.within
          (rest.same ∙ above_child k (2 * q + 1) q d (omega arith) (omega arith)) in
      (
        r,
        record {
          right_found = found;
          in_tree = rw s.width rest.in_tree;
          left_before = before;
          right_after = after;
          parent_left = up_left;
          parent_right = up_right;
          sibling_left = sibling_of_left n (left x) x r up_left before found;
          sibling_right = sibling_of_right n r x up_right after;
        },
      )

node-zero : (q : ℕ) → node 0 q ≡ 2 * q
unfolding node
node-zero q = refl

-- In a tree of 1 to 2 ^ 31 leaves every intermediate node x has a left child before it and a right
-- child r after it, both in the tree; `parent` takes both back to x, and `sibling` takes each to the
-- other.
pub Family-of_node :
    (n x : ℕ) → 1 ≤ n → n ≤ 2 ^ 31 → x < node_width n → x % 2 ≡ 1 → (r : ℕ) × Family n x r
Family-of_node n x lo hi in_tree odd =
    let (m, s) = shape n lo hi in
    let (k, q, e) = node_cover x in
    let (d, i) = node-Within m k q (omega (arith, s.bound, e)) in go m s k q d e i
  where
    go :
        (m : ℕ)
        → Shape n (node_width n) m
        → (k q d : ℕ) → x ≡ node k q
        → Within m k q d
        → (r : ℕ) × Family n x r
    go m s zero q d e i = absurd (omega (arith, node-zero q, e))
    go m s (suc k) q d e i =
        subst (λ t. (r : ℕ) × Family n t r) (sym e)
          (family s k q d i (omega (arith, e, node_width_small n lo hi)))
