-- ===== src/TreeMath/Ancestors.antt =====
-- The strict ancestors of a node in the full tree, and those of them that a tree of w nodes has:
-- what `parent` and `dirpath` are compared with.
use go_mls.Base.{
  ℕ, zero, suc, ◌+◌, ◌/◌, ◌^◌, ◌≤◌, ◌<◌, ◌≡◌, ap, ◌∙◌, inl, inr, arith, ltb, Bool-cases, List, [],
  ◌∷◌, if◌then◌else◌, All,
}
use native.Mathlib.Nat.{pow-suc, le_refl}
use go_mls.TreeMath.Coordinates.{node}

-- The `d` nodes above the q-th node of level k, from below.
unfoldable pub ancestors : ℕ → ℕ → ℕ → List ℕ
ancestors zero k q = []
ancestors (suc d) k q = node (suc k) (q / 2) ∷ ancestors d (suc k) (q / 2)

-- Those below w.
unfoldable pub present : ℕ → List ℕ → List ℕ
present w [] = []
present w (x ∷ xs) = if ltb x w then x ∷ present w xs else present w xs

-- A node of a tree of depth m.
pub record Within (m k q d : ℕ) : Type 0 where
  pub depth : k + d ≡ m
  pub place : q < 2 ^ d

pub node-Within : (m k q : ℕ) → node k q + 1 < 2 ^ suc m → (d : ℕ) × Within m k q d
unfolding node
node-Within m zero q h = (m, record { depth = omega arith; place = omega (arith, pow-suc 2 m) })
node-Within zero (suc k) q h = absurd (omega arith)
node-Within (suc m) (suc k) q h =
    let (d, i) = node-Within m k q (omega (arith, pow-suc 2 (suc m))) in
    (d, record { depth = omega (arith, i.depth); place = i.place })

pub Within-lt : (m k q d : ℕ) → Within m k q d → node k q + 1 < 2 ^ suc m
unfolding node
Within-lt m zero q d i =
    let same : 2 ^ d ≡ 2 ^ m = ap (λ (t : ℕ). 2 ^ t) (omega (arith, i.depth)) in
    omega (arith, i.place, same, pow-suc 2 m)
Within-lt zero (suc k) q d i = absurd (omega (arith, i.depth))
Within-lt (suc m) (suc k) q d i = omega (
  arith,
  pow-suc 2 (suc m),
  Within-lt m k q d (record { depth = omega (arith, i.depth); place = i.place }),
)

pub Within-up : (m k q d : ℕ) → Within m k q (suc d) → Within m (suc k) (q / 2) d
Within-up m k q d i = record {
  depth = omega (arith, i.depth);
  place = omega (arith, i.place, pow-suc 2 d);
}

pub node_injective : (k q j p : ℕ) → node k q ≡ node j p → (k ≡ j) × (q ≡ p)
unfolding node
node_injective zero q zero p e = omega arith
node_injective zero q (suc j) p e = absurd (omega arith)
node_injective (suc k) q zero p e = absurd (omega arith)
node_injective (suc k) q (suc j) p e = omega (arith, node_injective k q j p (omega arith))

-- The node of depth 0 is the root.
pub Within-zero : (m k q : ℕ) → Within m k q 0 → (k ≡ m) × (q ≡ 0)
Within-zero m k q i = (omega (arith, i.depth), omega (arith, i.place))

-- The nearest ancestor in the tree: it stands above the node, and the ancestors of the node that
-- are in the tree are this one and its own.
pub record Nearest (w m d k q : ℕ) : Type 0 where
  pub up : ℕ
  pub at : ℕ
  pub left_over : ℕ
  pub within : Within m up at left_over
  pub fewer : left_over ≤ d
  pub above : k < up
  pub in_tree : node up at < w
  pub list_eq :
      present w (ancestors (suc d) k q) ≡ node up at ∷ present w (ancestors left_over up at)

pub present_here :
    (w d k q : ℕ)
    → node (suc k) (q / 2) < w
    → present w (ancestors (suc d) k q)
      ≡ node (suc k) (q / 2) ∷ present w (ancestors d (suc k) (q / 2))
unfolding present ancestors
present_here w d k q low = ground arith

pub present_skip :
    (w d k q : ℕ)
    → w ≤ node (suc k) (q / 2)
    → present w (ancestors (suc d) k q) ≡ present w (ancestors d (suc k) (q / 2))
unfolding present ancestors
present_skip w d k q high = ground arith

pub le_up : {a b : ℕ} → a ≤ b → a ≤ suc b
le_up h = omega arith

pub lt_down : {a b : ℕ} → suc a < b → a < b
lt_down h = omega arith

-- The node one level up, where it is in the tree.
abbrev pub here :
    (w m d k q : ℕ) → Within m (suc k) (q / 2) d → node (suc k) (q / 2) < w → Nearest w m d k q
here w m d k q i low = record {
  up = suc k;
  at = q / 2;
  left_over = d;
  within = i;
  fewer = le_refl d;
  above = le_refl (suc k);
  in_tree = low;
  list_eq = present_here w d k q low;
}

-- The nearest ancestor of the node one level up, where that one is not in the tree.
abbrev pub further :
    {w m d k q : ℕ}
    → w ≤ node (suc k) (q / 2)
    → Nearest w m d (suc k) (q / 2)
    → Nearest w m (suc d) k q
further {w} {m} {d} {k} {q} high next = record {
  up = next.up;
  at = next.at;
  left_over = next.left_over;
  within = next.within;
  fewer = le_up next.fewer;
  above = lt_down next.above;
  in_tree = next.in_tree;
  list_eq = present_skip w (suc d) k q high ∙ next.list_eq;
}

-- All that is present is inside the tree.
pub present_inside : (w : ℕ) (xs : List ℕ) → All (λ i. i < w) (present w xs)
unfolding present
present_inside w [] = tt
present_inside w (x ∷ xs) = elim (Bool-cases (ltb x w)) [
  | inl low ↦ rw low (ground arith, present_inside w xs)
  | inr high ↦ rw high (present_inside w xs)
]
