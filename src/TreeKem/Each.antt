-- ===== src/TreeKem/Each.antt =====
-- Updates of single entries, and of all entries on a path.
use go_mls.Base.{
  ℕ, zero, suc, ◌<◌, ◌≡◌, ◌≢◌, refl, ap, ◌∙◌, arith, Bool, true, false, Option, none, some, List,
  [], ◌∷◌, length, get_elem?, All, ok, if◌then◌else◌, ◌==◌, ==_iff, Bool-cases, inl, inr, subst,
}
use mathlib.Core.Option
use go_mls.TreeKem.{OptionalNode, Nodes, update, each}

-- Whether an index stands on a path.
unfoldable pub contains : List ℕ → ℕ → Bool
contains [] j = false
contains (i ∷ path) j = if i == j then true else contains path j

module _ (g : OptionalNode → OptionalNode) where
  -- `xs[i] = g(xs[i])` without the bounds check.
  unfoldable pub modify : ℕ → Nodes → Nodes
  modify i [] = []
  modify zero (n ∷ ns) = g n ∷ ns
  modify (suc i) (n ∷ ns) = n ∷ modify i ns

  pub update-modify :
      (i : ℕ) (ns : Nodes) → i < length ns → update (λ n. ok (g n)) i ns ≡ ok (modify i ns)
  unfolding update modify
  update-modify i [] h = absurd (omega arith)
  update-modify zero (n ∷ ns) h = refl
  update-modify (suc i) (n ∷ ns) h = rw (update-modify i ns (omega arith))

  pub length-modify : (i : ℕ) (ns : Nodes) → length (modify i ns) ≡ length ns
  unfolding modify
  length-modify i [] = refl
  length-modify zero (n ∷ ns) = refl
  length-modify (suc i) (n ∷ ns) = ap suc (length-modify i ns)

  pub get-modify : (i : ℕ) (ns : Nodes) → get_elem? (modify i ns) i ≡ Option.map g (get_elem? ns i)
  unfolding modify
  get-modify i [] = refl
  get-modify zero (n ∷ ns) = refl
  get-modify (suc i) (n ∷ ns) = get-modify i ns

  pub get-modify_ne : (i j : ℕ) (ns : Nodes) → i ≢ j → get_elem? (modify i ns) j ≡ get_elem? ns j
  unfolding modify
  get-modify_ne i j [] h = refl
  get-modify_ne zero zero (n ∷ ns) h = absurd (h refl)
  get-modify_ne zero (suc j) (n ∷ ns) h = refl
  get-modify_ne (suc i) zero (n ∷ ns) h = refl
  get-modify_ne (suc i) (suc j) (n ∷ ns) h = get-modify_ne i j ns (λ e. h (ap suc e))

  unfoldable pub modify_all : List ℕ → Nodes → Nodes
  modify_all [] ns = ns
  modify_all (i ∷ path) ns = modify_all path (modify i ns)

  pub length-modify_all : (path : List ℕ) (ns : Nodes) → length (modify_all path ns) ≡ length ns
  unfolding modify_all
  length-modify_all [] ns = refl
  length-modify_all (i ∷ path) ns = length-modify_all path (modify i ns) ∙ length-modify i ns

  -- A path inside the slice is updated without a panic.
  pub each-modify_all :
      (path : List ℕ) (ns : Nodes)
      → All (λ i. i < length ns) path
      → each (λ n. ok (g n)) path ns ≡ ok (modify_all path ns)
  unfolding each modify_all
  each-modify_all [] ns h = refl
  each-modify_all (i ∷ path) ns h =
      rw (update-modify i ns h.0) (each-modify_all path (modify i ns) (inside path h.1))
    where
      inside : (p : List ℕ) → All (λ i. i < length ns) p → All (λ j. j < length (modify i ns)) p
      inside [] h = tt
      inside (j ∷ p) (h, hs) = (rw (length-modify i ns) h, inside p hs)

  -- The entries on the path have been through `g`, if doing that twice is the same as once; the
  -- others are as they were.
  pub get-modify_all :
      ((n : OptionalNode) → g (g n) ≡ g n)
      → (path : List ℕ) (j : ℕ) (ns : Nodes)
      → get_elem? (modify_all path ns) j
        ≡ (if contains path j then Option.map g (get_elem? ns j) else get_elem? ns j)
  unfolding modify_all contains
  get-modify_all twice [] j ns = refl
  get-modify_all twice (i ∷ path) j ns = elim (Bool-cases (i == j)) [
    | inl same ↦
        let at : get_elem? (modify i ns) j ≡ Option.map g (get_elem? ns j) =
          subst (λ k. get_elem? (modify i ns) k ≡ Option.map g (get_elem? ns k))
            ((==_iff i j).0 same) (get-modify i ns) in
        rw same (
          get-modify_all twice path j (modify i ns)
          ∙ collapse (contains path j) (get_elem? ns j) (get_elem? (modify i ns) j) at)
    | inr other ↦
        let away : get_elem? (modify i ns) j ≡ get_elem? ns j =
          get-modify_ne i j ns (ground arith) in
        rw other (rw away at (get-modify_all twice path j (modify i ns)))
  ]
    where
      collapse :
          (b : Bool) (o o' : Option OptionalNode)
          → o' ≡ Option.map g o
          → (if b then Option.map g o' else o') ≡ Option.map g o
      collapse false o o' e = e
      collapse true none o' e = rw e refl
      collapse true (some n) o' e = rw e (ap some (twice n))
