-- ===== src/TreeKem/FirstFree.antt =====
-- The search of `AddLeaf` in treekem.go for a leaf that is free.
use go_mls.Base.{
  ℕ, zero, suc, [], ◌∷◌, length, ap, ◌+◌, ◌≤◌, ◌<◌, ◌≡◌, ◌⊎◌, refl, ◌∙◌, arith, inl, inr, true,
  false, Bool-cases, ltb, ok, >>=-eq-ok, subst,
}
use go_mls.TreeMath.{to_node_index}
use go_mls.TreeMath.Root.{node_width_small}
use go_mls.TreeKem.{OptionalNode, Nodes, node_at, blank, size, first_free}
use go_mls.TreeKem.Blank.{Spans, size-Spans}

-- A leaf that is taken, and one that is free.
pub record Taken (ns : Nodes) (j : ℕ) : Type 0 where
  pub node : OptionalNode
  pub is_node : node_at ns (to_node_index j) ≡ ok node
  pub not_blank : blank node ≡ false

pub record Free (ns : Nodes) (j : ℕ) : Type 0 where
  pub node : OptionalNode
  pub is_node : node_at ns (to_node_index j) ≡ ok node
  pub is_blank : blank node ≡ true

-- The first free leaf from `start` on, or the end.
pub record First (start end : ℕ) (ns : Nodes) (i : ℕ) : Type 0 where
  pub taken : (j : ℕ) → start ≤ j → j < i → Taken ns j
  pub from : start ≤ i
  pub stop : (i ≡ end) ⊎ ((i < end) × Free ns i)

search :
    (rest start : ℕ) (ns : Nodes) (i : ℕ)
    → first_free rest start ns ≡ ok i
    → First start (start + rest) ns i
unfolding first_free
search zero start ns i e =
    let same : start ≡ i = cc in
    record {
      taken = λ j low high. absurd (omega arith);
      from = omega arith;
      stop = inl (omega arith);
    }
search (suc rest) start ns i e =
    let (n, found, e1) = >>=-eq-ok (node_at ns (to_node_index start)) _ e in
    elim (Bool-cases (blank n)) [
      | inl free ↦
          let same : start ≡ i = cc (rw free at e1) in
          record {
            taken = λ j low high. absurd (omega arith);
            from = omega arith;
            stop = inr (
              omega arith,
              subst (Free ns) same (record { node = n; is_node = found; is_blank = free }),
            );
          }
      | inr not_free ↦
          let f = search rest (start + 1) ns i (rw not_free at e1) in
          record {
            taken = λ j low high. elim (Bool-cases (ltb start j)) [
              | inl later ↦ f.taken j (ground arith) high
              | inr here ↦
                  subst (Taken ns) (ground arith)
                    (record { node = n; is_node = found; not_blank = not_free })
            ];
            from = omega (arith, f.from);
            stop = elim f.stop [
              | inl at_end ↦ inl (omega arith)
              | inr (before, free) ↦ inr (omega arith, free)
            ];
          }
    ]

node_at-inside : (ns : Nodes) (j : ℕ) → j < length ns → (n : OptionalNode) × (node_at ns j ≡ ok n)
unfolding node_at
node_at-inside [] j h = absurd (omega arith)
node_at-inside (n ∷ ns) zero h = (n, refl)
node_at-inside (n ∷ ns) (suc j) h = node_at-inside ns j (omega arith)

leaf_inside : (s j : ℕ) (ns : Nodes) → Spans s ns → j < s → to_node_index j < length ns
unfolding to_node_index
leaf_inside s j ns t low = omega (arith, t.width, node_width_small s t.some_leaf, t.few)

stop_here :
    (rest start : ℕ) (ns : Nodes) (n : OptionalNode)
    → node_at ns (to_node_index start) ≡ ok n
    → blank n ≡ true
    → first_free (suc rest) start ns ≡ ok start
unfolding first_free
stop_here rest start ns n e f = ground (arith, e, f)

go_on :
    (rest start : ℕ) (ns : Nodes) (n : OptionalNode)
    → node_at ns (to_node_index start) ≡ ok n
    → blank n ≡ false
    → first_free (suc rest) start ns ≡ first_free rest (start + 1) ns
unfolding first_free
go_on rest start ns n e f = ground (arith, e, f)

stop_at_end : (start : ℕ) (ns : Nodes) → first_free 0 start ns ≡ ok start
unfolding first_free
stop_at_end start ns = refl

returns :
    (s rest start : ℕ) (ns : Nodes)
    → Spans s ns
    → start + rest ≡ s
    → (i : ℕ) × (first_free rest start ns ≡ ok i)
returns s zero start ns t e = (start, stop_at_end start ns)
returns s (suc rest) start ns t e =
    let (n, found) =
      node_at-inside ns (to_node_index start) (leaf_inside s start ns t (omega arith)) in
    elim (Bool-cases (blank n)) [
      | inl free ↦ (start, stop_here rest start ns n found free)
      | inr not_free ↦
          let (i, run) = returns s rest (start + 1) ns t (omega arith) in
          (i, go_on rest start ns n found not_free ∙ run)
    ]

-- In a tree of fewer than 2 ^ 31 leaves the search of `AddLeaf` returns, without a panic, the first
-- leaf that is blank: all leaves before it are taken, and it is free or stands behind the last leaf.
pub first_free-First :
    (s : ℕ) (ns : Nodes)
    → Spans s ns
    → (i : ℕ) × (first_free (size ns) 0 ns ≡ ok i) × First 0 s ns i
first_free-First s ns t =
    let (i, run) = returns s s 0 ns t (omega arith) in
    (
      i,
      ap (λ k. first_free k 0 ns) (size-Spans t) ∙ run,
      subst (λ end. First 0 end ns i) (omega arith) (search s 0 ns i run),
    )
