-- ===== src/PrivateTree/Fitting.antt =====
-- Members whose secrets fit the public tree, and what opening their keys keeps.
use go_mls.Base.{
  ℕ, ◌==◌, ==_iff, ◌≡◌, refl, sym, ap, subst, ◌∙◌, Bool, true, false, if◌then◌else◌, Option, none,
  some, List, [], ◌∷◌, Bytes, lookup, insert, lookup-insert, Outcome, ok, ◌>>=◌, >>=-eq-ok,
  ok_injective,
}
use mathlib.Core.Option.{some-injective}
use go_mls.Crypto.{Kem, CipherConstants, Primitives}
use go_mls.Crypto.Hpke.{HpkePrivateKey, HpkeCiphertext, HpkeLibrary, hpke_derive, or_hpke_error}
use go_mls.TreeKem.{Nodes, node_at}
use go_mls.PrivateTree.{TreeKemPrivateKey, private_key, make_key}
use go_mls.PrivateTree.Sealing.{key_of_node}

-- The library opens with a private key what it sealed for the public key that goes with it.
unfoldable pub OpensSealed : HpkeLibrary → Type 0
OpensSealed lib =
    (kem : Kem) (b : Bytes) (k : HpkePrivateKey) (c : CipherConstants) (random aad pt : Bytes)
    (ct : HpkeCiphertext)
    → lib.unmarshal_private kem b ≡ some k
    → lib.seal_base c random k.public_key aad pt ≡ some ct
    → lib.open_base c k.secret aad ct ≡ some pt

-- Some node of the list has a secret.
unfoldable pub holds : List (ℕ × Bytes) → List ℕ → Bool
holds secrets [] = false
holds secrets (n ∷ ns) = elim (lookup n secrets) [ none ↦ holds secrets ns | some s ↦ true ]

-- The public key of a node.
unfoldable pub key_at : Nodes → ℕ → Outcome Bytes
key_at ns n = node_at ns n >>= λ x. key_of_node x.node

-- What opening keys leaves as it was.
pub record Kept (a b : TreeKemPrivateKey) : Type 0 where
  pub suite : b.suite ≡ a.suite
  pub index : b.index ≡ a.index
  pub update_secret : b.update_secret ≡ a.update_secret
  pub path_secrets : b.path_secrets ≡ a.path_secrets

pub Kept-refl : (a : TreeKemPrivateKey) → Kept a a
Kept-refl a = record { suite = refl; index = refl; update_secret = refl; path_secrets = refl }

pub Kept-trans : (a b c : TreeKemPrivateKey) → Kept a b → Kept b c → Kept a c
Kept-trans a b c e f = record {
  suite = f.suite ∙ e.suite;
  index = f.index ∙ e.index;
  update_secret = f.update_secret ∙ e.update_secret;
  path_secrets = f.path_secrets ∙ e.path_secrets;
}

pub or_hpke_error-eq-ok : {A : Type 0} (o : Option A) {a : A} → or_hpke_error o ≡ ok a → o ≡ some a
unfolding or_hpke_error
or_hpke_error-eq-ok none e = cc
or_hpke_error-eq-ok (some d) e = ap some (ok_injective e)

module _ (p : Primitives) (lib : HpkeLibrary) where
  -- The member's secrets fit the public tree, and its cache holds keys that were made of them.
  pub record Fits (ns : Nodes) (priv : TreeKemPrivateKey) : Type 0 where
    pub public :
        (n : ℕ) (s : Bytes)
        → lookup n priv.path_secrets ≡ some s
        → (key : HpkePrivateKey) × (hpke_derive lib p priv.suite s ≡ ok key)
          × (key_at ns n ≡ ok key.public_key)
    pub cached :
        (n : ℕ) (key : HpkePrivateKey)
        → lookup n priv.private_key_cache ≡ some key
        → (s : Bytes) × (lookup n priv.path_secrets ≡ some s)
          × (hpke_derive lib p priv.suite s ≡ ok key)

  pub private_key-Kept :
      (n : ℕ) (priv : TreeKemPrivateKey) (out : HpkePrivateKey × TreeKemPrivateKey)
      → private_key p lib n priv ≡ ok out
      → Kept priv out.1
  unfolding private_key make_key
  private_key-Kept n priv out e = found (lookup n priv.private_key_cache) e
    where
      made : (o : Option Bytes) → make_key p lib n o priv ≡ ok out → Kept priv out.1
      made none e = cc
      made (some s) e =
          let (key, _, e1) = >>=-eq-ok (hpke_derive lib p priv.suite s) _ e in
          subst (λ q. Kept priv q.1) (ok_injective e1)
            (record { suite = refl; index = refl; update_secret = refl; path_secrets = refl })

      found :
          (o : Option HpkePrivateKey)
          → elim o [
            | some key ↦ ok (key, priv)
            | none ↦ make_key p lib n (lookup n priv.path_secrets) priv
          ]
            ≡ ok out
          → Kept priv out.1
      found none e = made (lookup n priv.path_secrets) e
      found (some key) e = subst (λ q. Kept priv q.1) (ok_injective e) (Kept-refl priv)

  -- The key of a node that the member has a secret for.
  pub private_key-Fits :
      (ns : Nodes) (n : ℕ) (s : Bytes) (priv : TreeKemPrivateKey)
      → Fits ns priv
      → lookup n priv.path_secrets ≡ some s
      → (key : HpkePrivateKey) × (out : TreeKemPrivateKey) × (private_key p lib n priv
          ≡ ok (key, out))
        × (hpke_derive lib p priv.suite s ≡ ok key)
        × (key_at ns n ≡ ok key.public_key)
        × Fits ns out
  unfolding private_key make_key
  private_key-Fits ns n s priv fits has =
      let (key, derived, at) = fits.public n s has in
      found key derived at (lookup n priv.private_key_cache) refl
    where
      Wanted : Outcome (HpkePrivateKey × TreeKemPrivateKey) → Type 0
      Wanted run =
          (key : HpkePrivateKey) × (out : TreeKemPrivateKey) × (run ≡ ok (key, out))
          × (hpke_derive lib p priv.suite s ≡ ok key)
          × (key_at ns n ≡ ok key.public_key)
          × Fits ns out

      cached_now :
          (key : HpkePrivateKey)
          → hpke_derive lib p priv.suite s ≡ ok key
          → (m : ℕ) (k : HpkePrivateKey) (b : Bool) → (n == m) ≡ b
          → (if n == m then some key else lookup m priv.private_key_cache) ≡ some k
          → (t : Bytes) × (lookup m priv.path_secrets ≡ some t)
            × (hpke_derive lib p priv.suite t ≡ ok k)
      cached_now key derived m k true e f =
          let here : n ≡ m = (==_iff n m).0 e in
          (
            s,
            subst (λ x. lookup x priv.path_secrets ≡ some s) here has,
            derived ∙ ap ok (some-injective _ _ (sym (rw e refl) ∙ f)),
          )
      cached_now key derived m k false e f = fits.cached m k (sym (rw e refl) ∙ f)

      found :
          (key : HpkePrivateKey)
          → hpke_derive lib p priv.suite s ≡ ok key
          → key_at ns n ≡ ok key.public_key
          → (o : Option HpkePrivateKey) → lookup n priv.private_key_cache ≡ o
          → Wanted (elim o [
            | some key ↦ ok (key, priv)
            | none ↦ make_key p lib n (lookup n priv.path_secrets) priv
          ])
      found key derived at none e = (
        key,
        record priv { private_key_cache = insert n key priv.private_key_cache },
        rw (has, derived) refl,
        derived,
        at,
        record {
          public = fits.public;
          cached = λ m k f.
              cached_now key derived m k (n == m) refl
                (sym (lookup-insert n m key priv.private_key_cache) ∙ f);
        },
      )
      found key derived at (some old) e =
          let (s', has', derived') = fits.cached n old e in
          let same : s' ≡ s = some-injective _ _ (sym has' ∙ has) in
          let same_key : key ≡ old =
            ok_injective (sym derived ∙ ap (hpke_derive lib p priv.suite) (sym same) ∙ derived') in
          (
            old,
            priv,
            refl,
            derived ∙ ap ok same_key,
            at ∙ ap (λ (k : HpkePrivateKey). ok k.public_key) same_key,
            fits,
          )
