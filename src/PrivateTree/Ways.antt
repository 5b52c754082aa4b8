-- ===== src/PrivateTree/Ways.antt =====
-- The ways from the nodes of a tree up to its root.
use go_mls.Base.{ℕ, zero, suc, ◌+◌, ◌^◌, ◌≤◌, ◌<◌, ◌≡◌, ◌≢◌, refl, sym, ap, subst, ◌∙◌, arith, some}
use mathlib.Core.Option.{some-injective}
use go_mls.TreeMath.{root, parent, node_width}
use go_mls.TreeMath.Coordinates.{node_cover, node}
use go_mls.TreeMath.Ancestors.{Within, Within-zero, node-Within, node_injective}
use go_mls.TreeMath.DirectPath.{Shape, parent-node, shape}

-- The root is `d` steps above the node.
unfoldable pub Way : ℕ → ℕ → ℕ → Type 0
Way size n zero = n ≡ root size
Way size n (suc d) = (n ≢ root size) × (u : ℕ) × (parent n size ≡ some u) × Way size u d

-- The node m is reached from n in `j` steps.
unfoldable pub Above : ℕ → ℕ → ℕ → ℕ → Type 0
Above size n m zero = n ≡ m
Above size n m (suc j) = (n ≢ root size) × (u : ℕ) × (parent n size ≡ some u) × Above size u m j

module _ (size : ℕ) where
  pub Way-unique : (d e n : ℕ) → Way size n d → Way size n e → d ≡ e
  unfolding Way
  Way-unique zero zero n a b = refl
  Way-unique zero (suc e) n a (off, _, _, _) = absurd (off a)
  Way-unique (suc d) zero n (off, _, _, _) b = absurd (off b)
  Way-unique (suc d) (suc e) n (_, u, p, a) (_, v, q, b) =
      let same : u ≡ v = some-injective _ _ (sym p ∙ q) in ap suc (Way-unique d e u a (rw same b))

  pub Above-Way :
      (j d n m : ℕ) → Way size n d → Above size n m j → (e : ℕ) × (j + e ≡ d) × Way size m e
  unfolding Way Above
  Above-Way zero d n m w a = (d, omega arith, rw (← a) w)
  Above-Way (suc j) zero n m w (off, _, _, _) = absurd (off w)
  Above-Way (suc j) (suc d) n m (_, u, p, w) (_, v, q, a) =
      let same : v ≡ u = some-injective _ _ (sym q ∙ p) in
      let (e, sum, there) = Above-Way j d u m w (rw (← same) a) in (e, omega (arith, sum), there)

  -- No way comes back.
  pub no_return :
      (d j n u : ℕ) → n ≢ root size → parent n size ≡ some u → Way size u d → ¬ Above size u n j
  no_return d j n u off p w a =
      let (e, sum, there) = Above-Way j d u n w a in
      omega (arith, sum, Way-unique e (suc d) n there (unfold Way in (off, u, p, w)))

-- Every node of a tree of 1 to 2 ^ 31 leaves has a way to the root.
module _ {n w m : ℕ} (s : Shape n w m) where
  Way-by : (fuel d k q : ℕ) → d ≤ fuel → Within m k q d → (e : ℕ) × (e ≤ d) × Way n (node k q) e
  unfolding Way
  Way-by fuel zero k q h i =
      let (ek, eq) = Within-zero m k q i in (0, omega arith, rw (ek, eq) (sym s.top))
  Way-by zero (suc d) k q h i = absurd (omega arith)
  Way-by (suc fuel) (suc d) k q h i =
      let (a, e) = parent-node s d k q i in
      let (len, short, rest) =
        Way-by fuel a.left_over a.up a.at (omega (arith, a.fewer)) a.within in
      let off : node k q ≢ root n =
        λ top. omega (arith, i.depth, node_injective k q m 0 (top ∙ s.top)) in
      (suc len, omega (arith, short, a.fewer), (off, node a.up a.at, e, rest))

pub Way-of_node : (n x : ℕ) → 1 ≤ n → n ≤ 2 ^ 31 → x < node_width n → (d : ℕ) × (d < 33) × Way n x d
Way-of_node n x lo hi inside =
    let (m, s) = shape n lo hi in
    let (k, q, e) = node_cover x in
    let (d, i) = node-Within m k q (omega (arith, s.bound, e)) in
    let (len, short, way) = Way-by s d d k q (omega arith) i in
    (len, omega (arith, short, i.depth, s.height), subst (λ y. Way n y len) (sym e) way)
