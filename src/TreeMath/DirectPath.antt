-- ===== src/TreeMath/DirectPath.antt =====
-- `parent` and `dirpath` against the list of ancestors, for a tree of at least one leaf and at
-- most 2 ^ 31, which is as many as a `uint32` can index.
use go_mls.Base.{
  ℕ, zero, suc, ◌+◌, ◌/◌, ◌^◌, ◌≤◌, ◌<◌, ◌≡◌, ◌≢◌, refl, ap, sym, ne→==_false, ◌∙◌, inl, inr, arith,
  ltb, ◌==◌, Bool-cases, false, List, [], ◌∷◌, ◌++◌, some, u32,
}
use mathlib.Core.Option
use mathlib.Core.List.{append_assoc}
use native.Mathlib.Nat.{pow-le-pow_right}
use go_mls.TreeMath.{rounds, parent_loop, parent, root, node_width, dirpath_loop, dirpath}
use go_mls.TreeMath.Coordinates.{node, node_closed, parent_step-node, node_cover}
use go_mls.TreeMath.Root.{root-node}
use go_mls.TreeMath.Ancestors.{
  ancestors, present, Within, node-Within, Within-lt, Within-up, Within-zero, node_injective,
  Nearest, here, further,
}

-- A tree of n leaves: its width, and the level of its root.
pub record Shape (n w m : ℕ) : Type 0 where
  pub width : node_width n ≡ w
  pub top : root n ≡ node m 0
  pub height : m < 32
  pub has_root : node m 0 < w
  pub bound : w < 2 ^ suc m

module _ (w m : ℕ) (height : m < 32) (has_root : node m 0 < w) where
  Within-u32 : (k q d : ℕ) → Within m k q d → node k q + 1 < u32
  Within-u32 k q d i =
      let le : 2 ^ suc m ≤ 2 ^ 32 =
        pow-le-pow_right {n = 2} (omega arith) {i = suc m} {j = 32} (omega arith) in
      omega (arith, Within-lt m k q d i)

  parent_loop_here : (fuel p : ℕ) → p < w → parent_loop (suc fuel) w p ≡ some p
  unfolding parent_loop
  parent_loop_here fuel p low = ground arith

  parent_loop_next :
      (fuel k q d : ℕ)
      → Within m k q (suc d)
      → w ≤ node k q
      → parent_loop (suc fuel) w (node k q) ≡ parent_loop fuel w (node (suc k) (q / 2))
  unfolding parent_loop
  parent_loop_next fuel k q d i high =
      ground (arith, parent_step-node k q (Within-u32 k q (suc d) i))

  depth_zero : (k q : ℕ) → Within m k q 0 → node k q < w
  depth_zero k q i = let (ek, eq) = Within-zero m k q i in rw (ek, eq) has_root

  -- The loop of `parent`, started one level up, finds the nearest ancestor in the tree.
  climb :
      (fuel d k q : ℕ)
      → d < fuel
      → Within m k q (suc d)
      → (a : Nearest w m d k q) × (parent_loop fuel w (node (suc k) (q / 2))
          ≡ some (node a.up a.at))
  climb zero d k q h i = absurd (omega arith)
  climb (suc fuel) zero k q h i =
      let j = Within-up m k q 0 i in
      let low : node (suc k) (q / 2) < w = depth_zero (suc k) (q / 2) j in
      (here w m zero k q j low, parent_loop_here fuel _ low)
  climb (suc fuel) (suc d) k q h i = elim (Bool-cases (ltb (node (suc k) (q / 2)) w)) [
    | inl yes_low ↦
        let low : node (suc k) (q / 2) < w = ground arith in
        (here w m (suc d) k q (Within-up m k q (suc d) i) low, parent_loop_here fuel _ low)
    | inr no_low ↦
        let high : w ≤ node (suc k) (q / 2) = ground arith in
        let j = Within-up m k q (suc d) i in
        let (a, e) = climb fuel d (suc k) (q / 2) (omega arith) j in
        (further high a, parent_loop_next fuel (suc k) (q / 2) d j high ∙ e)
  ]

  -- The root is the only node of depth 0.
  not_top : (k q d : ℕ) → Within m k q (suc d) → node k q ≢ node m 0
  not_top k q d i e = omega (arith, i.depth, node_injective k q m 0 e)

module _ {n w m : ℕ} (s : Shape n w m) where
  pub parent-node :
      (d k q : ℕ)
      → Within m k q (suc d)
      → (a : Nearest w m d k q) × (parent (node k q) n ≡ some (node a.up a.at))
  unfolding parent
  parent-node d k q i =
      let (a, e) = climb w m s.height s.has_root 33 d k q (omega (arith, i.depth, s.height)) i in
      let off : (node k q == root n) ≡ false =
        ne→==_false _ _ (λ e. not_top w m s.height s.has_root k q d i (e ∙ s.top)) in
      let step = parent_step-node k q (Within-u32 w m s.height s.has_root k q (suc d) i) in
      (a, rw (off, step, s.width) e)

  gather_stop :
      (fuel : ℕ) (acc : List ℕ) (p : ℕ)
      → p ≡ root n
      → dirpath_loop (suc fuel) n (root n) acc p ≡ some (acc, root n)
  unfolding dirpath_loop
  gather_stop fuel acc p e = ground arith

  gather_next :
      (fuel : ℕ) (acc : List ℕ) (p q : ℕ)
      → p ≢ root n
      → parent p n ≡ some q
      → dirpath_loop (suc fuel) n (root n) acc p ≡ dirpath_loop fuel n (root n) (acc ++ p ∷ []) q
  unfolding dirpath_loop Option.bind
  gather_next fuel acc p q off e = ground (arith, e)

  top_of : (k q : ℕ) → Within m k q 0 → node k q ≡ root n
  top_of k q i = let (ek, eq) = Within-zero m k q i in rw (ek, eq) (sym s.top)

  -- `dirpath_loop` gathers the ancestors; the last one stays outside the list.
  gather :
      (fuel : ℕ) (acc : List ℕ) (d k q : ℕ)
      → d < fuel
      → Within m k q d
      → (front : List ℕ) × (dirpath_loop fuel n (root n) acc (node k q) ≡ some (front, root n))
        × (front ++ root n ∷ [] ≡ acc ++ node k q ∷ present w (ancestors d k q))
  gather zero acc d k q h i = absurd (omega arith)
  gather (suc fuel) acc zero k q h i =
      let top = top_of k q i in
      (acc, gather_stop fuel acc _ top, rw top (unfold present ancestors in refl))
  gather (suc fuel) acc (suc d) k q h i =
      let (a, e) = parent-node d k q i in
      let (front, loop, whole) =
        gather fuel (acc ++ node k q ∷ []) a.left_over a.up a.at (omega (arith, a.fewer))
          a.within in
      let off : node k q ≢ root n = λ e. not_top w m s.height s.has_root k q d i (e ∙ s.top) in
      (
        front,
        gather_next fuel acc _ _ off e ∙ loop,
        rw a.list_eq (whole ∙ append_assoc acc (node k q ∷ []) _),
      )

  dirpath_top : (x : ℕ) → x ≡ root n → dirpath x n ≡ some []
  unfolding dirpath dirpath_loop parent Option.bind
  dirpath_top x e = ground arith

  dirpath_by :
      (x p q : ℕ) (front : List ℕ)
      → x ≢ root n
      → parent x n ≡ some p
      → dirpath_loop rounds n (root n) [] p ≡ some (front, q)
      → dirpath x n ≡ some (front ++ q ∷ [])
  unfolding dirpath Option.bind
  dirpath_by x p q front off e loop =
      rw (e, loop) (ap some (ground (arith, ne→==_false x (root n) off)))

  dirpath-node :
      (d k q : ℕ) → Within m k q d → dirpath (node k q) n ≡ some (present w (ancestors d k q))
  dirpath-node zero k q i = unfold present ancestors in dirpath_top _ (top_of k q i)
  dirpath-node (suc d) k q i =
      let (a, e) = parent-node d k q i in
      let (front, loop, whole) =
        gather 33 [] a.left_over a.up a.at (omega (arith, i.depth, a.fewer, s.height)) a.within in
      let off : node k q ≢ root n = λ e. not_top w m s.height s.has_root k q d i (e ∙ s.top) in
      dirpath_by _ _ _ front off e loop ∙ ap some (whole ∙ sym a.list_eq)

-- `node_width` and `root` give such a tree.
pub shape : (n : ℕ) → 1 ≤ n → n ≤ 2 ^ 31 → (m : ℕ) × Shape n (node_width n) m
shape n lo hi =
    let (m, height, top, below, above) = root-node n lo hi in
    (
      m,
      record {
        width = refl;
        top = top;
        height = height;
        has_root = omega (arith, below, node_closed m 0);
        bound = above;
      },
    )

-- In a tree of 1 to 2 ^ 31 leaves the direct path of a node is the list of those of its ancestors
-- up to the root that the tree has, from below: the path is found, has no gap and ends at the root.
pub dirpath-ancestors :
    (n x : ℕ)
    → 1 ≤ n
    → n ≤ 2 ^ 31
    → x < node_width n
    → (k : ℕ) × (q : ℕ) × (d : ℕ) × (x ≡ node k q)
      × (root n ≡ node (k + d) 0)
      × (dirpath x n ≡ some (present (node_width n) (ancestors d k q)))
dirpath-ancestors n x lo hi in_tree =
    let (m, s) = shape n lo hi in
    let (k, q, e) = node_cover x in
    let (d, i) = node-Within m k q (omega (arith, s.bound, e)) in
    (k, q, d, e, rw i.depth s.top, ap (λ y. dirpath y n) e ∙ dirpath-node s d k q i)
