-- ===== src/TreeMath.antt =====
-- tree-math.go: the index calculus of the ratchet tree. Leaf and node indices are `uint32` values.
-- A loop takes fuel of 33 rounds, one more than a word has bits; where Go's loop could run on for
-- ever the result is an `Option`, and `none` says that the rounds did not suffice.
pub mod Coordinates
pub mod Root
pub mod Ancestors
pub mod DirectPath
pub mod Children
use go_mls.Base.{
  ℕ, zero, suc, ◌+◌, ◌-◌, ◌*◌, ◌/◌, ◌%◌, ◌^◌, ltb, leb, ◌==◌, if◌then◌else◌, Bool, true, false, not,
  ◌&&◌, bit_and, bit_or, bit_xor, u32, add32, sub32, mul32, shl32, shl64, shr, pred64, complement64,
  Option, none, some, List, [], ◌∷◌, ◌++◌, Outcome, ok, panic, not_leaf,
}
use mathlib.Core.Option

infixl 5 ◌>>=◌
abbrev ◌>>=◌ {ℓ κ} : {A : Type ℓ} {B : Type κ} → Option A → (A → Option B) → Option B
m >>= f = Option.bind m f

unfoldable pub to_node_index : ℕ → ℕ
to_node_index leaf = mul32 2 leaf

unfoldable pub to_leaf_index : ℕ → Outcome ℕ
to_leaf_index node = if not (node % 2 == 0) then panic not_leaf else ok (node / 2)

abbrev pub rounds : ℕ
rounds = 33

-- `for (x >> k) > 0 { k += 1 }`
unfoldable pub log2_loop : ℕ → ℕ → ℕ → ℕ
log2_loop zero x k = k
log2_loop (suc fuel) x k = elim (ltb 0 (shr x k)) [ true ↦ log2_loop fuel x (k + 1) | false ↦ k ]

-- Position of the most significant 1 bit.
unfoldable pub log2 : ℕ → ℕ
log2 x = if x == 0 then 0 else log2_loop rounds x 0 - 1

-- `for (x>>k)&0x01 == 1 { k += 1 }`
unfoldable pub level_loop : ℕ → ℕ → ℕ → ℕ
level_loop zero x k = k
level_loop (suc fuel) x k = elim (shr x k % 2 == 1) [ true ↦ level_loop fuel x (k + 1) | false ↦ k ]

-- Position of the least significant 0 bit.
unfoldable pub level : ℕ → ℕ
level x = if x % 2 == 0 then 0 else level_loop rounds x 0

unfoldable pub node_width : ℕ → ℕ
node_width n = sub32 (mul32 2 n) 1

unfoldable pub leaf_width : ℕ → ℕ
leaf_width n = add32 n 1 / 2

unfoldable pub root : ℕ → ℕ
root n = sub32 (shl32 1 (log2 (node_width n))) 1

unfoldable pub left : ℕ → ℕ
left x = if level x == 0 then x else bit_xor x (shl32 1 (level x - 1))

-- `for r >= w { r = left(r) }`
unfoldable pub right_loop : ℕ → ℕ → ℕ → Option ℕ
right_loop zero w r = none
right_loop (suc fuel) w r = elim (leb w r) [ true ↦ right_loop fuel w (left r) | false ↦ some r ]

unfoldable pub right : ℕ → ℕ → Option ℕ
right x n =
    if level x == 0
    then some x
    else right_loop rounds (node_width n) (bit_xor x (shl32 3 (level x - 1)))

-- `NodeIndex((uint(x) | (one << k)) & ^(one << (k + 1)))`
unfoldable pub parent_step : ℕ → ℕ
parent_step x =
    let k = level x in bit_and (bit_or x (shl64 1 k)) (complement64 (shl64 1 (k + 1))) % u32

-- `for p >= w { p = parent_step(p) }`
unfoldable pub parent_loop : ℕ → ℕ → ℕ → Option ℕ
parent_loop zero w p = none
parent_loop (suc fuel) w p = elim (leb w p) [
  | true ↦ parent_loop fuel w (parent_step p)
  | false ↦ some p
]

unfoldable pub parent : ℕ → ℕ → Option ℕ
parent x n = if x == root n then some x else parent_loop rounds (node_width n) (parent_step x)

unfoldable pub sibling : ℕ → ℕ → Option ℕ
sibling x n = do
  p ← parent x n
  if ltb x p then right p n else if ltb p x then some (left p) else some p

-- `for p != r { d = append(d, p); p = parent(p, n) }`, with `d` and `p` at its end.
unfoldable pub dirpath_loop : ℕ → ℕ → ℕ → List ℕ → ℕ → Option (List ℕ × ℕ)
dirpath_loop zero n r d p = none
dirpath_loop (suc fuel) n r d p = elim (p == r) [
  | true ↦ some (d, p)
  | false ↦ Option.bind (parent p n) (λ q. dirpath_loop fuel n r (d ++ p ∷ []) q)
]

unfoldable pub dirpath : ℕ → ℕ → Option (List ℕ)
dirpath x n = do
  p ← parent x n
  (d, q) ← dirpath_loop rounds n (root n) [] p
  some (if not (x == root n) then d ++ q ∷ [] else d)

-- All but the last element, `d[:len(d)-1]`.
unfoldable pub init : List ℕ → List ℕ
init [] = []
init (x ∷ []) = []
init (x ∷ y ∷ d) = x ∷ init (y ∷ d)

-- The loop of `copath`; the entry of the root keeps the 0 of `make`.
unfoldable pub siblings : ℕ → List ℕ → Option (List ℕ)
siblings n [] = some []
siblings n (x ∷ d) = do
  c ← if x == root n then some 0 else sibling x n
  cs ← siblings n d
  some (c ∷ cs)

-- What `copath` makes of the direct path.
unfoldable pub copath_of : ℕ → ℕ → List ℕ → Option (List ℕ)
copath_of x n [] = some []
copath_of x n (y ∷ d) = siblings n (x ∷ init (y ∷ d))

unfoldable pub copath : ℕ → ℕ → Option (List ℕ)
copath x n = do d ← dirpath x n; copath_of x n d

unfoldable pub in_path : ℕ → ℕ → Bool
in_path x y = let lx = level x in let ly = level y in leb lx ly && shr x (ly + 1) == shr y (ly + 1)

-- `for ln != rn { ln, rn = ln>>1, rn>>1; k += 1 }`, with `ln` and `k` at its end.
unfoldable pub join_loop : ℕ → ℕ → ℕ → ℕ → Option (ℕ × ℕ)
join_loop zero ln rn k = none
join_loop (suc fuel) ln rn k = elim (ln == rn) [
  | true ↦ some (ln, k)
  | false ↦ join_loop fuel (ln / 2) (rn / 2) (k + 1)
]

-- `(ln << k) + (1 << (k - 1)) - 1`
unfoldable pub join_node : ℕ × ℕ → ℕ
join_node (ln, k) = sub32 (add32 (shl32 ln k) (shl32 1 (pred64 k))) 1

unfoldable pub full_ancestor : ℕ → ℕ → Option ℕ
full_ancestor l r =
    let ll = level l + 1 in
    let lr = level r + 1 in
    if leb ll lr && shr l lr == shr r lr
    then some r
    else if leb lr ll && shr l ll == shr r ll
    then some l
    else Option.map join_node (join_loop rounds l r 0)

unfoldable pub ancestor : ℕ → ℕ → Option ℕ
ancestor l r = Option.map join_node (join_loop rounds (to_node_index l) (to_node_index r) 0)
