-- ===== src/TreeMath/Root.antt =====
-- `log2`, `node_width` and `root`: the shape of the tree with n leaves.
use go_mls.Base.{
  ℕ, zero, suc, ◌+◌, ◌*◌, ◌^◌, ◌≤◌, ◌<◌, ◌≡◌, ap, subst, ◌∙◌, inl, inr, arith, ltb, Bool-cases, u32,
  shr, shl32, sub32,
}
use native.Mathlib.Nat.{one-le-pow, div-eq_of_lt, lt-div-mul-add, pow-le-pow_right}
use native.Mathlib.Numerals.{add-one}
use go_mls.TreeMath.{log2_loop, log2, node_width, leaf_width, root}
use go_mls.TreeMath.Coordinates.{node, node_closed, shl32_one, power_lt}

-- The loop goes on as long as the power is no more than the number.
shr_pos : (x k : ℕ) → 2 ^ k ≤ x → 0 < shr x k
shr_pos x k h = elim (Bool-cases (ltb 0 (shr x k))) [
  | inl pos ↦ ground arith
  | inr not_pos ↦
      let z : shr x k ≡ 0 = ground arith in
      omega (
        arith,
        ap (λ (t : ℕ). t * 2 ^ k) z,
        lt-div-mul-add {a = x} {b = 2 ^ k} (omega (arith, one-le-pow k 2)),
      )
]

log2_loop_stop : (fuel x k : ℕ) → x < 2 ^ k → log2_loop (suc fuel) x k ≡ k
unfolding log2_loop
log2_loop_stop fuel x k h = ground (arith, div-eq_of_lt h)

log2_loop_next : (fuel x k : ℕ) → 2 ^ k ≤ x → log2_loop (suc fuel) x k ≡ log2_loop fuel x (suc k)
unfolding log2_loop
log2_loop_next fuel x k h = ground (arith, shr_pos x k h, add-one k)

-- With a round for each bit the loop ends at the first power above the number.
log2_loop_bounds :
    (fuel x k m : ℕ)
    → 2 ^ k ≤ x
    → x < 2 ^ m
    → m ≡ suc fuel + k
    → (r : ℕ) × (log2_loop (suc fuel) x (suc k) ≡ suc r) × (2 ^ r ≤ x) × (x < 2 ^ suc r)
log2_loop_bounds zero x k m lo hi e =
    let below : x < 2 ^ suc k = subst (λ t. x < 2 ^ t) (omega arith) hi in
    (k, log2_loop_stop 0 x (suc k) below, lo, below)
log2_loop_bounds (suc fuel) x k m lo hi e = elim (Bool-cases (ltb x (2 ^ suc k))) [
  | inl stop ↦ (k, log2_loop_stop (suc fuel) x (suc k) (ground arith), lo, ground arith)
  | inr more ↦
      let lo' : 2 ^ suc k ≤ x = ground arith in
      let (r, eq, bounds, above) = log2_loop_bounds fuel x (suc k) m lo' hi (omega arith) in
      (r, log2_loop_next (suc fuel) x (suc k) lo' ∙ eq, bounds, above)
]

-- For a word that is not 0 `log2` is the position of the highest 1 bit.
pub log2_bounds : (x : ℕ) → 0 < x → x < u32 → (2 ^ log2 x ≤ x) × (x < 2 ^ (log2 x + 1))
log2_bounds x pos hi =
    let (r, eq, lo, above) = log2_loop_bounds 31 x 0 32 (omega arith) hi (omega arith) in
    let start = log2_loop_next 32 x 0 (omega arith) in
    let value : log2 x ≡ r = unfold log2 in ground (arith, eq, start) in
    rw (value, add-one r) (lo, above)

log2-lt : (x : ℕ) → 0 < x → x < u32 → log2 x < 32
log2-lt x pos hi = elim (Bool-cases (ltb (log2 x) 32)) [
  | inl low ↦ ground arith
  | inr high ↦
      let big : 2 ^ 32 ≤ 2 ^ log2 x =
        pow-le-pow_right {n = 2} (omega arith) {i = 32} {j = log2 x} (ground arith) in
      absurd (omega (arith, log2_bounds x pos hi))
]

-- Between 1 and 2 ^ 31 leaves the width does not wrap.
pub node_width_small : (n : ℕ) → 1 ≤ n → n ≤ 2 ^ 31 → node_width n + 1 ≡ 2 * n
unfolding node_width
node_width_small n lo hi = omega arith

pub leaf_width-node_width : (n : ℕ) → 1 ≤ n → n < 2 ^ 31 → leaf_width (node_width n) ≡ n
unfolding leaf_width
leaf_width-node_width n lo hi = omega (arith, node_width_small n lo (omega arith))

-- In a tree of 1 to 2 ^ 31 leaves the root is the leftmost node of a level below 32, the highest
-- that the tree has a node of.
pub root-node :
    (n : ℕ)
    → 1 ≤ n
    → n ≤ 2 ^ 31
    → (m : ℕ) × (m < 32) × (root n ≡ node m 0) × (2 ^ m ≤ node_width n) × (node_width n < 2 ^ suc m)
unfolding root
root-node n lo hi =
    let width = node_width_small n lo hi in
    let w : ℕ = node_width n in
    let (below, above) = log2_bounds w (omega arith) (omega arith) in
    let top = log2-lt w (omega arith) (omega arith) in
    let m : ℕ = log2 w in
    let value : sub32 (shl32 1 m) 1 ≡ node m 0 =
      rw (shl32_one m top) (omega (arith, node_closed m 0, power_lt m 32 top, one-le-pow m 2)) in
    (m, top, value, below, rw (← add-one m) above)
