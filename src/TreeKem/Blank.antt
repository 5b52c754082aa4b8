-- ===== src/TreeKem/Blank.antt =====
-- Operations that treat a leaf and its direct path alike: `BlankPath` and `clearHashPath`.
use go_mls.Base.{
  ℕ, ◌*◌, ◌%◌, ◌^◌, ◌≤◌, ◌<◌, ◌≡◌, refl, sym, subst, ◌∙◌, arith, some, List, [], ◌∷◌, length,
  get_elem?, All, u32, Outcome, ok, ◌>>=◌, if◌then◌else◌,
}
use mathlib.Core.Option
use native.Mathlib.Nat.{mod-eq_of_lt}
use go_mls.TreeMath.{to_node_index, node_width, dirpath}
use go_mls.TreeMath.Root.{node_width_small, leaf_width-node_width}
use go_mls.TreeMath.Ancestors.{ancestors, present, present_inside}
use go_mls.TreeMath.DirectPath.{dirpath-ancestors}
use go_mls.TreeKem.{
  OptionalNode, Nodes, size, update, each, or_stuck, path_of, set_to_blank, clear_hash, blank_path,
  clear_hash_path,
}
use go_mls.TreeKem.Each.{
  contains, modify, modify_all, update-modify, length-modify, each-modify_all, length-modify_all,
  get-modify_all,
}

-- A slice as long as a tree of `s` leaves.
pub record Spans (s : ℕ) (ns : Nodes) : Type 0 where
  pub some_leaf : 1 ≤ s
  pub few : s < 2 ^ 31
  pub width : length ns ≡ node_width s

pub size-Spans : {s : ℕ} {ns : Nodes} → Spans s ns → size ns ≡ s
unfolding size
size-Spans {s} {ns} t =
    let small : length ns % u32 ≡ node_width s =
      mod-eq_of_lt (omega (arith, t.width, node_width_small s t.some_leaf, t.few)) ∙ t.width in
    rw small (leaf_width-node_width s t.some_leaf t.few)

-- The direct path of a leaf, inside the slice.
pub record LeafPath (s : ℕ) (index : ℕ) (ns : Nodes) : Type 0 where
  pub path : List ℕ
  pub is_path : dirpath (to_node_index index) s ≡ some path
  pub leaf_inside : to_node_index index < length ns
  pub path_inside : All (λ i. i < length ns) path

pub leaf_path : {s : ℕ} (index : ℕ) {ns : Nodes} → Spans s ns → index < s → LeafPath s index ns
unfolding to_node_index
leaf_path {s} index {ns} t low =
    let inside : 2 * index % u32 < node_width s =
      omega (arith, node_width_small s t.some_leaf, t.few) in
    let (k, q, d, e, r, p) =
      dirpath-ancestors s (2 * index % u32) t.some_leaf (omega (arith, t.few)) inside in
    record {
      path = present (node_width s) (ancestors d k q);
      is_path = p;
      leaf_inside = rw t.width inside;
      path_inside =
          subst (λ w. All (λ i. i < w) (present (node_width s) (ancestors d k q))) (sym t.width)
            (present_inside (node_width s) (ancestors d k q));
    }

-- What `f(ns[leaf])` and then `f(ns[n])` for each n of the direct path does, for an `f` of which
-- doing it twice is the same as once.
module _ (g : OptionalNode → OptionalNode) (twice : (n : OptionalNode) → g (g n) ≡ g n) where
  along : ℕ → Nodes → Outcome Nodes
  along index ns = update (λ n. ok (g n)) (to_node_index index) ns >>= λ ns'.
      path_of (to_node_index index) ns' >>= λ path. each (λ n. ok (g n)) path ns'

  along_lem :
      {s : ℕ} (index : ℕ) {ns : Nodes}
      → (t : Spans s ns) → (p : LeafPath s index ns)
      → (out : Nodes) × (along index ns ≡ ok out)
        × (length out ≡ length ns)
        × ((j : ℕ)
            → get_elem? out j ≡ (
                if contains (to_node_index index ∷ p.path) j
                then Option.map g (get_elem? ns j)
                else get_elem? ns j))
  unfolding along path_of or_stuck
  along_lem {s} index {ns} t p =
      let ni = to_node_index index in
      let once = modify g ni ns in
      let same = length-modify g ni ns in
      let sized : size once ≡ s =
        size-Spans (record { some_leaf = t.some_leaf; few = t.few; width = same ∙ t.width }) in
      (
        modify_all g p.path once,
        rw (update-modify g ni ns p.leaf_inside, sized, p.is_path)
            (each-modify_all g p.path once (rw same p.path_inside)),
        length-modify_all g p.path once ∙ same,
        λ j. unfold modify_all in get-modify_all g twice (ni ∷ p.path) j ns,
      )

pub blank_twice : (n : OptionalNode) → set_to_blank (set_to_blank n) ≡ set_to_blank n
unfolding set_to_blank
blank_twice n = refl

pub clear_twice : (n : OptionalNode) → clear_hash (clear_hash n) ≡ clear_hash n
unfolding clear_hash
clear_twice n = refl

blank_path-along :
    {s : ℕ} (index : ℕ) (ns : Nodes)
    → Spans s ns
    → blank_path index ns ≡ along set_to_blank blank_twice index ns
unfolding blank_path along
blank_path-along {s} index [] t =
    absurd (omega (arith, t.width, t.some_leaf, node_width_small s t.some_leaf, t.few))
blank_path-along index (n ∷ ns) t = refl

-- What an operation on a leaf and its direct path leaves: each entry of the path is changed by `g`,
-- each other entry and the length are as they were.
pub record ChangedAlong (g : OptionalNode → OptionalNode) (s index : ℕ) (ns out : Nodes)
    : Type 0 where
  pub path : List ℕ
  pub is_path : dirpath (to_node_index index) s ≡ some path
  pub same_length : length out ≡ length ns
  pub entry :
      (j : ℕ)
      → get_elem? out j ≡ (
          if contains (to_node_index index ∷ path) j
          then Option.map g (get_elem? ns j)
          else get_elem? ns j)

-- In a tree of fewer than 2 ^ 31 leaves `BlankPath` of any of its leaves does not panic, blanks that
-- leaf and its direct path, and changes nothing else.
pub blank_path_lem :
    (s index : ℕ) (ns : Nodes)
    → Spans s ns
    → index < s
    → (out : Nodes) × (blank_path index ns ≡ ok out) × ChangedAlong set_to_blank s index ns out
blank_path_lem s index ns t low =
    let p = leaf_path index t low in
    let (out, run, len, entry) = along_lem set_to_blank blank_twice index t p in
    (
      out,
      blank_path-along index ns t ∙ run,
      record { path = p.path; is_path = p.is_path; same_length = len; entry = entry },
    )

-- In a tree of fewer than 2 ^ 31 leaves `clearHashPath` of any of its leaves does not panic, forgets
-- the hashes of that leaf and of its direct path, and changes nothing else.
pub clear_hash_path_lem :
    (s index : ℕ) (ns : Nodes)
    → Spans s ns
    → index < s
    → (out : Nodes) × (clear_hash_path index ns ≡ ok out) × ChangedAlong clear_hash s index ns out
unfolding clear_hash_path
clear_hash_path_lem s index ns t low =
    let p = leaf_path index t low in
    let (out, run, len, entry) = along_lem clear_hash clear_twice index t p in
    (
      out,
      unfold along in run,
      record { path = p.path; is_path = p.is_path; same_length = len; entry = entry },
    )
