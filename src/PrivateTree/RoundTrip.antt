-- ===== src/PrivateTree/RoundTrip.antt =====
-- What `Encap` seals for the nodes of a resolution, `Decap` of a member below them opens.
use go_mls.Base.{
  ℕ, suc, ◌≡◌, refl, sym, ap, subst, ◌∙◌, Bool, true, false, if◌then◌else◌, Option, none, some,
  List, [], ◌∷◌, length, Bytes, lookup, ok, ◌>>=◌, >>=-eq-ok, ok_injective,
}
use go_mls.Crypto.{Primitives, constants, hkdf_expand_label}
use go_mls.Crypto.Hpke.{
  HpkePrivateKey, HpkeCiphertext, HpkeLibrary, hpke_derive, hpke_encrypt, hpke_decrypt,
  or_hpke_error,
}
use go_mls.TreeKem.{Nodes, node_at}
use go_mls.PrivateTree.{TreeKemPrivateKey, private_key}
use go_mls.PrivateTree.Sealing.{key_of_node, seal_secrets}
use go_mls.PrivateTree.Opening.{open_secrets}
use go_mls.PrivateTree.Fitting.{
  OpensSealed, holds, key_at, Kept, Kept-refl, Kept-trans, or_hpke_error-eq-ok, Fits,
  private_key-Kept, private_key-Fits,
}

module _ (p : Primitives) (lib : HpkeLibrary) where
  -- The suite by which the secret was sealed is the member's.
  open-hpke_encrypt :
      (suite : ℕ) (secret random pub_key aad pt : Bytes) (k : HpkePrivateKey) (ct : HpkeCiphertext)
      → OpensSealed lib
      → hpke_derive lib p suite secret ≡ ok k
      → k.public_key ≡ pub_key
      → hpke_encrypt lib suite random pub_key aad pt ≡ ok ct
      → hpke_decrypt lib suite k aad ct ≡ ok pt
  unfolding hpke_derive hpke_encrypt hpke_decrypt OpensSealed or_hpke_error
  open-hpke_encrypt suite secret random pub_key aad pt k ct law derived same e =
      let (c, f, e1) = >>=-eq-ok (constants suite) _ e in
      let (c', f', d1) = >>=-eq-ok (constants suite) _ derived in
      let (b, _, d2) = >>=-eq-ok (hkdf_expand_label p suite secret "key pair" [] _) _ d1 in
      let opened = law c'.hpke_kem b k c random aad pt ct (or_hpke_error-eq-ok _ d2) (
        subst (λ x. lib.seal_base c random x aad pt ≡ some ct) (sym same)
          (or_hpke_error-eq-ok _ e1)) in
      rw (f, opened) refl

  -- What `open_secrets` is to do on the rest of a resolution.
  abbrev Opened : Nodes → ℕ → Bytes → Bytes → List ℕ → List HpkeCiphertext → Type 0
  Opened ns suite context path_secret res cts =
      (got : Option Bytes) (priv : TreeKemPrivateKey)
      → Fits p lib ns priv
      → priv.suite ≡ suite
      → (out : TreeKemPrivateKey) × (open_secrets p lib context res cts got priv
          ≡ ok (if holds priv.path_secrets res then some path_secret else got, out))
        × Kept priv out

  same_either_way : {A : Type 0} (b : Bool) (a : A) → (if b then a else a) ≡ a
  same_either_way true a = refl
  same_either_way false a = refl

  open_next :
      (ns : Nodes) (suite : ℕ) (random context path_secret node_pub : Bytes) (n : ℕ) (res : List ℕ)
      (ct : HpkeCiphertext) (cts : List HpkeCiphertext)
      → OpensSealed lib
      → key_at ns n ≡ ok node_pub
      → hpke_encrypt lib suite random node_pub context path_secret ≡ ok ct
      → Opened ns suite context path_secret res cts
      → Opened ns suite context path_secret (n ∷ res) (ct ∷ cts)
  unfolding open_secrets holds
  open_next ns suite random context path_secret node_pub n res ct cts law public sealed rest got
        priv fits same =
      by_secret (lookup n priv.path_secrets) refl
    where
      by_secret :
          (o : Option Bytes)
          → lookup n priv.path_secrets ≡ o
          → (out : TreeKemPrivateKey) × (elim o [
            | none ↦ open_secrets p lib context res cts got priv
            | some s ↦ private_key p lib n priv >>= λ k.
                hpke_decrypt lib priv.suite k.0 context ct >>= λ path_secret.
                open_secrets p lib context res cts (some path_secret) k.1
          ]
              ≡ ok (
                if elim o [ none ↦ holds priv.path_secrets res | some s ↦ true ]
                    then some path_secret
                    else got,
                out,
              ))
            × Kept priv out
      by_secret none e = rest got priv fits same
      by_secret (some s) e =
          let (key, priv1, run, derived, at, fits1) = private_key-Fits p lib ns n s priv fits e in
          let kept = private_key-Kept p lib n priv (key, priv1) run in
          let pub_key : key.public_key ≡ node_pub = ok_injective (sym at ∙ public) in
          let opened =
            open-hpke_encrypt suite s random node_pub context path_secret key ct law
              (ap (λ x. hpke_derive lib p x s) (sym same) ∙ derived) pub_key sealed in
          let (out, run', kept') = rest (some path_secret) priv1 fits1 (kept.suite ∙ same) in
          (
            out,
            rw (run, same, opened, run')
                (ap (λ x. ok (x, out))
                  (same_either_way (holds priv1.path_secrets res) (some path_secret))),
            Kept-trans priv priv1 out kept kept',
          )

  -- The ciphertexts of a path secret, made for the nodes of a resolution: a member whose secrets fit
  -- the tree reads the path secret if it has a secret of some of the nodes.
  pub open-seal_secrets :
      (suite : ℕ) (random : ℕ → Bytes) (context path_secret : Bytes) (j : ℕ) (res : List ℕ)
      (ns : Nodes) (cts : List HpkeCiphertext)
      → OpensSealed lib
      → seal_secrets p lib suite random context path_secret j res ns ≡ ok cts
      → (length res ≡ length cts) × Opened ns suite context path_secret res cts
  unfolding seal_secrets open_secrets holds key_at
  open-seal_secrets suite random context path_secret j [] ns cts law e =
      (ap length (ok_injective e), λ got priv fits same. (priv, refl, Kept-refl priv))
  open-seal_secrets suite random context path_secret j (n ∷ res) ns cts law e =
      let (node, f1, e1) = >>=-eq-ok (node_at ns n) _ e in
      let (node_pub, f2, e2) = >>=-eq-ok (key_of_node node.node) _ e1 in
      let (ct, f3, e3) =
        >>=-eq-ok (hpke_encrypt lib suite (random j) node_pub context path_secret) _ e2 in
      let (rest, f4, e4) =
        >>=-eq-ok (seal_secrets p lib suite random context path_secret (suc j) res ns) _ e3 in
      let (len, opens) =
        open-seal_secrets suite random context path_secret (suc j) res ns rest law f4 in
      subst (λ x. (length (n ∷ res) ≡ length x) × Opened ns suite context path_secret (n ∷ res) x)
        (ok_injective e4)
        (
          ap suc len,
          open_next ns suite (random j) context path_secret node_pub n res ct rest law
              (ap (λ o. o >>= λ x. key_of_node x.node) f1 ∙ f2) f3 opens,
        )
