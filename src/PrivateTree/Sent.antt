-- ===== src/PrivateTree/Sent.antt =====
-- The steps of a path that `Encap` makes, as the receiver of each finds them.
use go_mls.Base.{
  ℕ, suc, ◌+◌, ◌≡◌, refl, sym, ap, subst, ◌∙◌, arith, Bool, true, false, if◌then◌else◌, some, List,
  [], ◌∷◌, length, Bytes, lookup, ok, >>=-eq-ok, ok_injective,
}
use mathlib.Core.Option.{some-injective}
use go_mls.TreeMath.{sibling, in_path}
use go_mls.Crypto.{Primitives}
use go_mls.Crypto.Hpke.{HpkeLibrary}
use go_mls.TreeKem.{Nodes, size}
use go_mls.TreeKem.Merge.{DirectPathNode, resolve}
use go_mls.PrivateTree.{TreeKemPrivateKey, private_key, or_no_parent}
use go_mls.PrivateTree.Sealing.{secret_of, seal_secrets, seal_steps}
use go_mls.PrivateTree.Opening.{find_overlap, step_at}
use go_mls.PrivateTree.Fitting.{Kept, Kept-trans, Kept-refl, private_key-Kept}

module _ (p : Primitives) (lib : HpkeLibrary) where
  -- The step that the sender made for one node of the path: its secret, sealed for the resolution of
  -- the sibling of the node before.
  pub record SealedAt (context : Bytes) (ns : Nodes) (priv : TreeKemPrivateKey)
      (steps : List DirectPathNode) (k overlap before : ℕ) : Type 0 where
    pub step : DirectPathNode
    pub is_step : step_at steps k ≡ ok step
    pub copath : ℕ
    pub beside : or_no_parent (sibling before (size ns)) ≡ ok copath
    pub res : List ℕ
    pub resolved : resolve 33 copath ns ≡ ok res
    pub random : ℕ → Bytes
    pub sealed :
        seal_secrets p lib priv.suite random context
          (secret_of (lookup overlap priv.path_secrets))
          0
          res
          ns
        ≡ ok step.encrypted_path_secrets

  pub seal_steps-Kept :
      (random : ℕ → ℕ → Bytes) (context : Bytes) (i last : ℕ) (dp : List ℕ) (ns : Nodes)
      (priv : TreeKemPrivateKey) (out : List DirectPathNode × TreeKemPrivateKey)
      → seal_steps p lib random context i last dp ns priv ≡ ok out
      → (length dp ≡ length out.0) × Kept priv out.1
  unfolding seal_steps
  seal_steps-Kept random context i last [] ns priv out e =
      subst (λ q. (0 ≡ length q.0) × Kept priv q.1) (ok_injective e) (refl, Kept-refl priv)
  seal_steps-Kept random context i last (n ∷ dp) ns priv out e =
      let (kp, f1, e1) = >>=-eq-ok (private_key p lib n priv) _ e in
      let (copath, _, e2) = >>=-eq-ok (or_no_parent (sibling last (size ns))) _ e1 in
      let (res, _, e3) = >>=-eq-ok (resolve 33 copath ns) _ e2 in
      let (cts, _, e4) =
        >>=-eq-ok
          (seal_secrets p lib priv.suite (random i) context (secret_of (lookup n priv.path_secrets))
            0 res ns)
          _ e3 in
      let (rest, f5, e5) = >>=-eq-ok (seal_steps p lib random context (suc i) n dp ns kp.1) _ e4 in
      let (len, kept) = seal_steps-Kept random context (suc i) n dp ns kp.1 rest f5 in
      subst (λ q. (length (n ∷ dp) ≡ length q.0) × Kept priv q.1) (ok_injective e5)
        (ap suc len, Kept-trans priv kp.1 rest.1 (private_key-Kept p lib n priv kp f1) kept)

  pub seal_steps-SealedAt :
      (random : ℕ → ℕ → Bytes) (context : Bytes) (i last : ℕ) (dp : List ℕ) (ns : Nodes)
      (priv : TreeKemPrivateKey) (out : List DirectPathNode × TreeKemPrivateKey)
      (ni at overlap before : ℕ)
      → seal_steps p lib random context i last dp ns priv ≡ ok out
      → find_overlap ni i last dp ≡ some (at, overlap, before)
      → (k : ℕ) × (at ≡ i + k) × SealedAt context ns priv out.0 k overlap before
  unfolding seal_steps find_overlap step_at
  seal_steps-SealedAt random context i last [] ns priv out ni at overlap before e f = cc
  seal_steps-SealedAt random context i last (n ∷ dp) ns priv out ni at overlap before e f =
      let (kp, f1, e1) = >>=-eq-ok (private_key p lib n priv) _ e in
      let (copath, f2, e2) = >>=-eq-ok (or_no_parent (sibling last (size ns))) _ e1 in
      let (res, f3, e3) = >>=-eq-ok (resolve 33 copath ns) _ e2 in
      let (cts, f4, e4) =
        >>=-eq-ok
          (seal_secrets p lib priv.suite (random i) context (secret_of (lookup n priv.path_secrets))
            0 res ns)
          _ e3 in
      let (rest, f5, e5) = >>=-eq-ok (seal_steps p lib random context (suc i) n dp ns kp.1) _ e4 in
      let kept = private_key-Kept p lib n priv kp f1 in
      let step : DirectPathNode = record {
        public_key = kp.0.public_key;
        encrypted_path_secrets = cts;
      } in
      subst
        (λ (q : List DirectPathNode × TreeKemPrivateKey).
          (k : ℕ) × (at ≡ i + k) × SealedAt context ns priv q.0 k overlap before)
        (ok_injective e5)
        (here_or_above i last dp n step rest.0 copath res (random i) kp.1 f2 f3 f4 kept
          (in_path ni n) f
          (λ g.
            seal_steps-SealedAt random context (suc i) n dp ns kp.1 rest ni at overlap before f5 g))
    where
      here_or_above :
          (i last : ℕ) (dp : List ℕ) (n : ℕ) (step : DirectPathNode) (steps : List DirectPathNode)
          (copath : ℕ) (res : List ℕ) (random : ℕ → Bytes) (priv' : TreeKemPrivateKey)
          → or_no_parent (sibling last (size ns)) ≡ ok copath
          → resolve 33 copath ns ≡ ok res
          → seal_secrets p lib priv.suite random context
              (secret_of (lookup n priv.path_secrets))
              0
              res
              ns
            ≡ ok step.encrypted_path_secrets
          → Kept priv priv'
          → (b : Bool)
          → (if b then some (i, n, last) else find_overlap ni (suc i) n dp)
            ≡ some (at, overlap, before)
          → (find_overlap ni (suc i) n dp ≡ some (at, overlap, before)
              → (k : ℕ) × (at ≡ suc i + k) × SealedAt context ns priv' steps k overlap before)
          → (k : ℕ) × (at ≡ i + k) × SealedAt context ns priv (step ∷ steps) k overlap before
      here_or_above i last dp n step steps copath res random priv' f2 f3 f4 kept true f above =
          let found = some-injective _ _ f in
          let place : i ≡ at = ap (λ q. q.0) found in
          let node : n ≡ overlap = ap (λ q. q.1) found in
          let below : last ≡ before = ap (λ q. q.2) found in
          (
            0,
            omega (arith, place),
            record {
              step = step;
              is_step = refl;
              copath = copath;
              beside = ap (λ x. or_no_parent (sibling x (size ns))) (sym below) ∙ f2;
              res = res;
              resolved = f3;
              random = random;
              sealed =
                  ap
                    (λ x.
                      seal_secrets p lib priv.suite random context
                        (secret_of (lookup x priv.path_secrets)) 0 res ns)
                    (sym node)
                  ∙ f4;
            },
          )
      here_or_above i last dp n step steps copath res random priv' f2 f3 f4 kept false f above =
          let (k, place, s) = above f in
          (
            suc k,
            omega (arith, place),
            record {
              step = s.step;
              is_step = s.is_step;
              copath = s.copath;
              beside = s.beside;
              res = s.res;
              resolved = s.resolved;
              random = s.random;
              sealed =
                  ap
                    (λ x.
                      seal_secrets p lib x s.random context
                        (secret_of (lookup overlap priv.path_secrets)) 0 s.res ns)
                    (sym kept.suite)
                  ∙ ap
                      (λ (x : List (ℕ × Bytes)).
                        seal_secrets p lib priv'.suite s.random context
                          (secret_of (lookup overlap x)) 0 s.res ns)
                      (sym kept.path_secrets)
                  ∙ s.sealed;
            },
          )
