-- ===== src/TreeMath/Coordinates.antt =====
-- Nodes by level and position: `node k q` is the q-th node from the left on level k. The functions
-- of tree-math.go that step from node to node are read in these coordinates.
use go_mls.Base.{
  ℕ, zero, suc, ◌+◌, ◌-◌, ◌*◌, ◌/◌, ◌%◌, ◌^◌, ◌≤◌, ◌<◌, ◌≡◌, refl, sym, ap, inl, inr, arith, ◌==◌,
  bit_and, bit_or, bit_xor, u32, u64, shl32, shl64, shr, Bool-cases,
}
use go_mls.Base.Bits.{
  bit_xor_digits, bit_or_digits, bit_and_digits, bit_xor-zero, bit_or-zero, bit_and_ones,
}
use native.Mathlib.Nat.{pow-suc, one-le-pow, div-div-eq-div-mul, pow-le-pow_right, mod-eq_of_lt}
use native.Mathlib.Numerals.{add-one}
use go_mls.TreeMath.{rounds, level_loop, level, left, parent_step}

unfoldable pub node : ℕ → ℕ → ℕ
node zero q = 2 * q
node (suc k) q = 2 * node k q + 1

-- The closed form.
pub node_closed : (k q : ℕ) → node k q + 1 ≡ 2 ^ k * (2 * q + 1)
unfolding node
node_closed zero q = omega arith
node_closed (suc k) q =
    omega (arith, node_closed k q, ap (λ (t : ℕ). t * (2 * q + 1)) (pow-suc 2 k))

-- Every number is a node.
node_cover_below : (n x : ℕ) → x ≤ n → (k : ℕ) × (q : ℕ) × (x ≡ node k q)
unfolding node
node_cover_below n zero h = (0, 0, refl)
node_cover_below zero (suc x) h = absurd (omega arith)
node_cover_below (suc n) (suc x) h = elim (Bool-cases (x % 2 == 0)) [
  | inl even ↦
      let (k, q, e) = node_cover_below n (x / 2) (omega arith) in (suc k, q, ground (arith, e))
  | inr odd ↦ (0, suc x / 2, ground arith)
]

pub node_cover : (x : ℕ) → (k : ℕ) × (q : ℕ) × (x ≡ node k q)
node_cover x = node_cover_below x x (omega arith)

-- A node below 2 ^ m - 1 stands on a level below m.
pub node_level_lt : (m k q : ℕ) → node k q + 1 < 2 ^ m → k < m
unfolding node
node_level_lt zero k q h = absurd (omega arith)
node_level_lt (suc m) zero q h = omega arith
node_level_lt (suc m) (suc k) q h = omega (arith, node_level_lt m k q (omega (arith, pow-suc 2 m)))

half_power : (x k : ℕ) → x / 2 ^ suc k ≡ x / 2 ^ k / 2
half_power x k = rw (pow-suc 2 k) (sym (div-div-eq-div-mul x (2 ^ k) 2))

level_loop-node : (fuel x k j q : ℕ) → shr x k ≡ node j q → j < fuel → level_loop fuel x k ≡ k + j
unfolding level_loop node
level_loop-node zero x k j q e h = absurd (omega arith)
level_loop-node (suc fuel) x k zero q e h = ground arith
level_loop-node (suc fuel) x k (suc j) q e h =
    ground (arith, half_power x k, add-one k, level_loop-node fuel x (k + 1) j q)

-- `level` of the q-th node of a level up to 32 is that level.
pub level-node : (k q : ℕ) → k ≤ 32 → level (node k q) ≡ k
unfolding level node
level-node zero q h = ground arith
level-node (suc k) q h = ground (arith, level_loop-node rounds (2 * node k q + 1) 0 (suc k) q)

pub power_lt : (j m : ℕ) → j < m → 2 ^ j < 2 ^ m
power_lt j m h =
    omega (arith, pow-le-pow_right {n = 2} (omega arith) h, pow-suc 2 j, one-le-pow j 2)

pub shl32_one : (j : ℕ) → j < 32 → shl32 1 j ≡ 2 ^ j
shl32_one j h = ground (arith, power_lt j 32 h, mod-eq_of_lt {n = 1 * 2 ^ j} {m = u32})

pub shl64_one : (j : ℕ) → j < 64 → shl64 1 j ≡ 2 ^ j
shl64_one j h = ground (arith, power_lt j 64 h, mod-eq_of_lt {n = 1 * 2 ^ j} {m = u64})

shl32_three : (j : ℕ) → j < 31 → shl32 3 j ≡ 3 * 2 ^ j
shl32_three j h =
    let small : 2 ^ j ≤ 2 ^ 30 =
      pow-le-pow_right {n = 2} (omega arith) {i = j} {j = 30} (omega arith) in
    ground (arith, small, mod-eq_of_lt {n = 3 * 2 ^ j} {m = u32})

-- The left child is one level down, at twice the position.
flip_left : (k q : ℕ) → bit_xor (node (suc k) q) (2 ^ k) ≡ node k (2 * q)
unfolding node
flip_left zero q = omega (
  arith,
  bit_xor_digits {x = 2 * (2 * q) + 1} {y = 1} (2 * q) 0 1 1 (omega arith) (omega arith)
      (omega arith) (omega arith),
  bit_xor-zero (2 * q),
)
flip_left (suc k) q = omega (
  arith,
  bit_xor_digits {x = 2 * node (suc k) q + 1} {y = 2 ^ suc k} (node (suc k) q) (2 ^ k) 1 0
      (omega arith) (omega (arith, pow-suc 2 k)) (omega arith) (omega arith),
  flip_left k q,
)

flip_right : (k q : ℕ) → bit_xor (node (suc k) q) (3 * 2 ^ k) ≡ node k (2 * q + 1)
unfolding node
flip_right zero q = omega (
  arith,
  bit_xor_digits {x = 2 * (2 * q) + 1} {y = 3} (2 * q) 1 1 1 (omega arith) (omega arith)
      (omega arith) (omega arith),
  bit_xor_digits {x = 2 * q} {y = 1} q 0 0 1 (omega arith) (omega arith) (omega arith)
      (omega arith),
  bit_xor-zero q,
)
flip_right (suc k) q = omega (
  arith,
  bit_xor_digits {x = 2 * node (suc k) q + 1} {y = 3 * 2 ^ suc k} (node (suc k) q) (3 * 2 ^ k) 1 0
      (omega arith) (omega (arith, pow-suc 2 k)) (omega arith) (omega arith),
  flip_right k q,
)

pub left-node : (k q : ℕ) → k < 32 → left (node (suc k) q) ≡ node k (2 * q)
unfolding left
left-node k q h = ground (arith, level-node (suc k) q, shl32_one k h, flip_left k q)

-- The right child in the full tree, before `right` looks for it among the nodes there are.
pub flip_right-node :
    (k q : ℕ)
    → k < 31
    → bit_xor (node (suc k) q) (shl32 3 (level (node (suc k) q) - 1)) ≡ node k (2 * q + 1)
flip_right-node k q h = ground (arith, level-node (suc k) q, shl32_three k h, flip_right k q)

-- A node with the bit of its level set.
filled : ℕ → ℕ → ℕ
filled zero q = 2 * q + 1
filled (suc k) q = 2 * filled k q + 1

set_bit : (k q : ℕ) → bit_or (node k q) (2 ^ k) ≡ filled k q
unfolding node filled
set_bit zero q = omega (
  arith,
  bit_or_digits {x = 2 * q} {y = 1} q 0 0 1 (omega arith) (omega arith) (omega arith) (omega arith),
  bit_or-zero q,
)
set_bit (suc k) q = omega (
  arith,
  bit_or_digits {x = 2 * node k q + 1} {y = 2 ^ suc k} (node k q) (2 ^ k) 1 0 (omega arith)
      (omega (arith, pow-suc 2 k)) (omega arith) (omega arith),
  set_bit k q,
)

filled-lt : (m k q : ℕ) → node k q + 1 < 2 ^ m → filled k q < 2 ^ m
unfolding node filled
filled-lt zero k q h = absurd (omega arith)
filled-lt (suc m) zero q h = omega arith
filled-lt (suc m) (suc k) q h =
    omega (arith, pow-suc 2 m, filled-lt m k q (omega (arith, pow-suc 2 m)))

-- Stepping up from a node below 2 ^ m - 1 stays below 2 ^ m.
pub parent-lt : (m k q : ℕ) → node k q + 1 < 2 ^ m → node (suc k) (q / 2) < 2 ^ m
unfolding node
parent-lt zero k q h = absurd (omega arith)
parent-lt (suc zero) zero q h = omega arith
parent-lt (suc (suc m)) zero q h = omega (arith, pow-suc 2 (suc m), pow-suc 2 m)
parent-lt (suc m) (suc k) q h =
    omega (arith, pow-suc 2 m, parent-lt m k q (omega (arith, pow-suc 2 m)))

clear_bit :
    (w k q : ℕ)
    → filled k q < 2 ^ w
    → k + 1 < w
    → bit_and (filled k q) (2 ^ w - 1 - 2 ^ suc k) ≡ node (suc k) (q / 2)
unfolding node filled
clear_bit zero k q h b = absurd (omega arith)
clear_bit (suc zero) zero q h b = absurd (omega arith)
clear_bit (suc (suc w)) zero q h b = omega (
  arith,
  pow-suc 2 w,
  pow-suc 2 (suc w),
  one-le-pow w 2 (omega arith),
  bit_and_digits {x = 2 * q + 1} {y = 2 ^ suc (suc w) - 1 - 2} q (2 ^ suc w - 2) 1 1 (omega arith)
      (omega (arith, pow-suc 2 w, pow-suc 2 (suc w), one-le-pow w 2 (omega arith))) (omega arith)
      (omega arith),
  bit_and_digits {x = q} {y = 2 ^ suc w - 2} (q / 2) (2 ^ w - 1) (q % 2) 0 (omega arith)
      (omega (arith, pow-suc 2 w, one-le-pow w 2 (omega arith))) (omega arith) (omega arith),
  bit_and_ones w (q / 2) (omega (arith, pow-suc 2 w, pow-suc 2 (suc w))),
)
clear_bit (suc w) (suc k) q h b = omega (
  arith,
  bit_and_digits {x = 2 * filled k q + 1} {y = 2 ^ suc w - 1 - 2 ^ suc (suc k)} (filled k q)
      (2 ^ w - 1 - 2 ^ suc k) 1 1 (omega arith)
      (omega (arith, pow-suc 2 w, pow-suc 2 (suc k), power_lt (suc k) w (omega arith)))
      (omega arith) (omega arith),
  clear_bit w k q (omega (arith, pow-suc 2 w)) (omega arith),
)

-- The bit operations of `parent_step` lead from a node, other than the last word, to the node in
-- whose half it stands, one level up.
pub parent_step-node :
    (k q : ℕ) → node k q + 1 < u32 → parent_step (node k q) ≡ node (suc k) (q / 2)
unfolding parent_step
parent_step-node k q h =
    let low : k < 32 = node_level_lt 32 k q h in
    let inside : filled k q < u64 = omega (arith, filled-lt 32 k q h) in
    let up : node (suc k) (q / 2) < u32 = parent-lt 32 k q h in
    ground (
      arith,
      level-node k q,
      shl64_one k (omega arith),
      shl64_one (suc k) (omega arith),
      add-one k,
      set_bit k q,
      clear_bit 64 k q inside (omega arith),
      mod-eq_of_lt {n = node (suc k) (q / 2)} {m = u32} up,
    )
