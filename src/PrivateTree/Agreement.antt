-- ===== src/PrivateTree/Agreement.antt =====
-- The secrets that `setPathSecrets` leaves along the way from a node to the root, and that two
-- members who start on one way have the same ones from where they meet.
use go_mls.Base.{
  ℕ, zero, suc, ◌+◌, ◌^◌, ◌≤◌, ◌<◌, ◌≡◌, ◌≢◌, refl, sym, ap, subst, ◌∙◌, arith, eq→==, ne→==_false,
  some, Bytes, lookup, lookup-insert, ok,
}
use mathlib.Core.Option.{some-injective}
use go_mls.TreeMath.{root, parent, node_width}
use go_mls.Crypto.{Primitives}
use go_mls.PrivateTree.{
  TreeKemPrivateKey, keep_secret, or_no_parent, path_step, climb, set_path_secrets,
}
use go_mls.PrivateTree.Ways.{Way, Above, Above-Way, no_return, Way-of_node}

-- The secret that `j` steps make of one.
unfoldable pub chain : (Bytes → Bytes) → ℕ → Bytes → Bytes
chain st zero s = s
chain st (suc j) s = chain st j (st s)

-- What a member knows who started with a secret at a node, `d` steps below the root.
pub record Raised (size d n : ℕ) (st : Bytes → Bytes) (s : Bytes) (priv out : TreeKemPrivateKey)
    : Type 0 where
  pub end : out.update_secret ≡ chain st (suc d) s
  pub same_suite : out.suite ≡ priv.suite
  pub on : (m j : ℕ) → Above size n m j → lookup m out.path_secrets ≡ some (chain st j s)
  pub off :
      (m : ℕ)
      → ((j : ℕ) → ¬ Above size n m j)
      → lookup m out.path_secrets ≡ lookup m priv.path_secrets

lookup-keep_self :
    (n : ℕ) (s : Bytes) (priv : TreeKemPrivateKey)
    → lookup n (keep_secret n s priv).path_secrets ≡ some s
unfolding keep_secret
lookup-keep_self n s priv = ground (arith, lookup-insert n n s priv.path_secrets)

lookup-keep_other :
    (n m : ℕ) (s : Bytes) (priv : TreeKemPrivateKey)
    → n ≢ m
    → lookup m (keep_secret n s priv).path_secrets ≡ lookup m priv.path_secrets
unfolding keep_secret
lookup-keep_other n m s priv off = ground (arith, lookup-insert n m s priv.path_secrets)

-- `st` is what one step makes of a secret.
module _ (p : Primitives) (size : ℕ) (st : Bytes → Bytes) where
  climb_top :
      (fuel n : ℕ) (s : Bytes) (priv : TreeKemPrivateKey)
      → n ≡ root size
      → path_step p priv.suite s ≡ ok (st s)
      → climb p (suc fuel) size n s priv
        ≡ ok (record (keep_secret n s priv) { update_secret = st s })
  unfolding climb
  climb_top fuel n s priv top step = rw (step, eq→== n (root size) top) refl

  climb_next :
      (fuel n u : ℕ) (s : Bytes) (priv : TreeKemPrivateKey)
      → n ≢ root size
      → parent n size ≡ some u
      → path_step p priv.suite s ≡ ok (st s)
      → climb p (suc fuel) size n s priv ≡ climb p fuel size u (st s) (keep_secret n s priv)
  unfolding climb or_no_parent
  climb_next fuel n u s priv off up step = rw (step, ne→==_false n (root size) off, up) refl

  on_top :
      (n m j : ℕ) (s : Bytes) (priv : TreeKemPrivateKey)
      → n ≡ root size
      → Above size n m j
      → lookup m (keep_secret n s priv).path_secrets ≡ some (chain st j s)
  unfolding Above chain
  on_top n m zero s priv top a = rw (← a) (lookup-keep_self n s priv)
  on_top n m (suc j) s priv top (off, _, _, _) = absurd (off top)

  Raised-top :
      (n : ℕ) (s : Bytes) (priv : TreeKemPrivateKey)
      → n ≡ root size
      → Raised size zero n st s priv (record (keep_secret n s priv) { update_secret = st s })
  Raised-top n s priv top = record {
    end = unfold chain in refl;
    same_suite = unfold keep_secret in refl;
    on = λ m j. on_top n m j s priv top;
    off = λ m none_above. lookup-keep_other n m s priv (λ e. none_above zero (unfold Above in e));
  }

  -- One node further down.
  module _ (d n u : ℕ) (s : Bytes) (priv : TreeKemPrivateKey) {out : TreeKemPrivateKey}
      (off_root : n ≢ root size) (up : parent n size ≡ some u) (way : Way size u d)
      (above : Raised size d u st (st s) (keep_secret n s priv) out) where
    on_next : (m j : ℕ) → Above size n m j → lookup m out.path_secrets ≡ some (chain st j s)
    unfolding Above chain
    on_next m zero a =
        rw (← a)
          (above.off n (λ j. no_return size d j n u off_root up way) ∙ lookup-keep_self n s priv)
    on_next m (suc j) (_, v, q, a) =
        let same : v ≡ u = some-injective _ _ (sym q ∙ up) in above.on m j (rw (← same) a)

    off_next :
        (m : ℕ)
        → ((j : ℕ) → ¬ Above size n m j)
        → lookup m out.path_secrets ≡ lookup m priv.path_secrets
    unfolding Above
    off_next m none_above =
        above.off m (λ j a. none_above (suc j) (off_root, u, up, a))
        ∙ lookup-keep_other n m s priv (none_above zero)

    Raised-next : Raised size (suc d) n st s priv out
    Raised-next = record {
      end = unfold chain in above.end;
      same_suite = unfold keep_secret in above.same_suite;
      on = on_next;
      off = off_next;
    }

  climb-Raised :
      (fuel d n suite : ℕ) (s : Bytes) (priv : TreeKemPrivateKey)
      → ((t : Bytes) → path_step p suite t ≡ ok (st t))
      → priv.suite ≡ suite
      → d < fuel
      → Way size n d
      → (out : TreeKemPrivateKey) × (climb p fuel size n s priv ≡ ok out)
        × Raised size d n st s priv out
  unfolding Way
  climb-Raised zero d n suite s priv steps e low w = absurd (omega arith)
  climb-Raised (suc fuel) zero n suite s priv steps e low w =
      (_, climb_top fuel n s priv w (rw e (steps s)), Raised-top n s priv w)
  climb-Raised (suc fuel) (suc d) n suite s priv steps e low (off, u, up, w) =
      let (out, run, r) =
        climb-Raised fuel d u suite (st s) (keep_secret n s priv) steps (unfold keep_secret in e)
          (omega arith) w in
      (
        out,
        climb_next fuel n u s priv off up (rw e (steps s)) ∙ run,
        Raised-next d n u s priv off up w r,
      )

  -- In a tree of 1 to 2 ^ 31 leaves, where a step of the derivation returns `st` of its secret:
  -- `setPathSecrets` from any node returns. It leaves at each node on the way to the root the secret
  -- that so many steps make of the first one, at every other node what was there, and as update
  -- secret the one that comes after the root's.
  pub set_path_secrets-Raised :
      (start suite : ℕ) (s : Bytes) (priv : TreeKemPrivateKey)
      → ((t : Bytes) → path_step p suite t ≡ ok (st t))
      → priv.suite ≡ suite
      → 1 ≤ size
      → size ≤ 2 ^ 31
      → start < node_width size
      → (d : ℕ) × Way size start d
        × (out : TreeKemPrivateKey) × (set_path_secrets p start size s priv ≡ ok out)
        × Raised size d start st s priv out
  unfolding set_path_secrets
  set_path_secrets-Raised start suite s priv steps e lo hi inside =
      let (d, low, w) = Way-of_node size start lo hi inside in
      let (out, run, r) = climb-Raised 33 d start suite s priv steps e low w in (d, w, out, run, r)

  Above-trans : (j i n m x : ℕ) → Above size n m j → Above size m x i → Above size n x (j + i)
  unfolding Above
  Above-trans zero i n m x a b =
      let none_more : i ≡ 0 + i = omega arith in subst (λ k. Above size n x k) none_more (rw a b)
  Above-trans (suc j) i n m x (off, u, e, a) b =
      let more : suc (j + i) ≡ suc j + i = omega arith in
      subst (λ k. Above size n x k) more (off, u, e, Above-trans j i u m x a b)

  chain_add : (j i : ℕ) (s : Bytes) → chain st (j + i) s ≡ chain st i (chain st j s)
  unfolding chain
  chain_add zero i s = let none_more : 0 + i ≡ i = omega arith in ap (λ k. chain st k s) none_more
  chain_add (suc j) i s =
      let more : suc j + i ≡ suc (j + i) = omega arith in
      ap (λ k. chain st k s) more ∙ chain_add j i (st s)

  -- Two members of one suite, in a tree of 1 to 2 ^ 31 leaves where a step of the derivation returns:
  -- one calls `setPathSecrets` at a node, the other at a node m on the way from there to the root,
  -- with the secret that the first one then has for m. Both calls return, both members have the same
  -- update secret, and the same secret at m and at every node above m.
  pub set_path_secrets_agree :
      (start m j suite : ℕ) (s : Bytes) (a b : TreeKemPrivateKey)
      → ((t : Bytes) → path_step p suite t ≡ ok (st t))
      → a.suite ≡ suite
      → b.suite ≡ suite
      → 1 ≤ size
      → size ≤ 2 ^ 31
      → start < node_width size
      → Above size start m j
      → (a' : TreeKemPrivateKey) × (t : Bytes) × (b' : TreeKemPrivateKey) × (set_path_secrets p
            start size s a
          ≡ ok a')
        × (lookup m a'.path_secrets ≡ some t)
        × (set_path_secrets p m size t b ≡ ok b')
        × (b'.update_secret ≡ a'.update_secret)
        × ((x i : ℕ) → Above size m x i → lookup x b'.path_secrets ≡ lookup x a'.path_secrets)
  unfolding set_path_secrets
  set_path_secrets_agree start m j suite s a b steps ea eb lo hi inside above =
      let (d, low, w) = Way-of_node size start lo hi inside in
      let (e, sum, w') = Above-Way size j d start m w above in
      let (a', run, r) = climb-Raised 33 d start suite s a steps ea low w in
      let (b', run', r') =
        climb-Raised 33 e m suite (chain st j s) b steps eb (omega (arith, sum, low)) w' in
      let total : j + suc e ≡ suc d = omega (arith, sum) in
      (
        a',
        chain st j s,
        b',
        run,
        r.on m j above,
        run',
        r'.end ∙ sym (r.end ∙ ap (λ k. chain st k s) (sym total) ∙ chain_add j (suc e) s),
        λ x i over.
            r'.on x i over
            ∙ sym
                (r.on x (j + i) (Above-trans j i start m x above over) ∙ ap some (chain_add j i s)),
      )
