-- ===== src/KeyPackage/Creation.antt =====
-- `NewKeyPackageWithInitKey` of messages.go and what `Verify` says of its result.
use go_mls.Base.{
  ℕ, ◌+◌, ◌*◌, ◌/◌, ◌^◌, ◌<◌, false, ◌≤◌, ◌≡◌, ◌≢◌, ap, sym, ◌∙◌, arith, true, false, [], List,
  Bytes, ReadsBack, ok, >>=-eq-ok,
}
use go_mls.Extensions.{
  found, find, add, SupportedVersionsExtension, SupportedCipherSuitesExtension, LifetimeExtension,
}
use go_mls.Extensions.Laws.{find-add, find-add_other}
use go_mls.Credential.{Credential, credential_scheme}
use go_mls.KeyPackage.{
  KeyPackage, SignaturePrivateKey, Services, is_found, in_lifetime, before_unix, after_unix,
  expiry_of, verify_under, verify_signature, key_package_verify, new_key_package_with_init_key,
}
use go_mls.KeyPackage.Signing.{ChecksOut, verify_under-sign, sign_keeps}

-- The code points are three, and the package go-tls-syntax reads back what it wrote.
pub record Wired (sv : Services) : Type 0 where
  pub versions_suites : sv.versions_body.type ≢ sv.suites_body.type
  pub versions_lifetime : sv.versions_body.type ≢ sv.lifetime_body.type
  pub suites_lifetime : sv.suites_body.type ≢ sv.lifetime_body.type
  pub versions_read : ReadsBack sv.versions_body.codec
  pub suites_read : ReadsBack sv.suites_body.codec
  pub lifetime_read : ReadsBack sv.lifetime_body.codec

-- A package with the three extensions, in its lifetime, with the scheme of its suite, is judged by
-- its signature.
verify_by :
    (sv : Services) (now scheme : ℕ) (kp : KeyPackage) (v : SupportedVersionsExtension)
    (s : SupportedCipherSuitesExtension) (l : LifetimeExtension)
    → find sv.versions_body kp.extensions ≡ found v
    → find sv.suites_body kp.extensions ≡ found s
    → find sv.lifetime_body kp.extensions ≡ found l
    → before_unix now l.not_before ≡ false
    → after_unix now l.not_after ≡ false
    → credential_scheme sv.x509 kp.credential ≡ ok scheme
    → sv.scheme_of_suite kp.cipher_suite ≡ ok scheme
    → key_package_verify sv now kp ≡ verify_under sv scheme kp
unfolding key_package_verify verify_signature is_found in_lifetime
verify_by sv now scheme kp v s l ev es el from to c t = rw (ev, es, el, c, t) (ground arith)

-- A package made less than thirty days ago is not expired, and none is from the future.
fresh_enough :
    (made now : ℕ)
    → made < 2 ^ 63
    → now ≤ (made / 10 ^ 9 + 2592000) * 10 ^ 9
    → (before_unix now 0 ≡ false) × (after_unix now (expiry_of made) ≡ false)
unfolding before_unix after_unix expiry_of
fresh_enough made now small in_time = (ground arith, ground arith)

-- Where signatures check out, the three extension types differ and their bodies are read back, and
-- the credential has the scheme of the suite: what `NewKeyPackageWithInitKey` returned at a time
-- before 2 ^ 63 nanoseconds, `Verify` accepts at any time up to thirty days later, counted from the
-- full second.
pub verify-new :
    (sv : Services) (made now : ℕ) (versions suites : List ℕ) (suite scheme : ℕ) (init_key : Bytes)
    (cred : Credential) (priv : SignaturePrivateKey) (kp : KeyPackage)
    → Wired sv
    → ChecksOut sv
    → credential_scheme sv.x509 cred ≡ ok scheme
    → sv.scheme_of_suite suite ≡ ok scheme
    → made < 2 ^ 63
    → now ≤ (made / 10 ^ 9 + 2592000) * 10 ^ 9
    → new_key_package_with_init_key sv made versions suites suite init_key cred priv ≡ ok kp
    → key_package_verify sv now kp ≡ ok true
unfolding new_key_package_with_init_key
verify-new sv made now versions suites suite scheme init_key cred priv kp w law c t small in_time
      e =
    let v : SupportedVersionsExtension = record { supported_versions = versions } in
    let u : SupportedCipherSuitesExtension = record { supported_cipher_suites = suites } in
    let l : LifetimeExtension = record { not_before = 0; not_after = expiry_of made } in
    let (e1, add1, r1) = >>=-eq-ok (add sv.versions_body [] v) _ e in
    let (e2, add2, r2) = >>=-eq-ok (add sv.suites_body e1 u) _ r1 in
    let (e3, add3, r3) = >>=-eq-ok (add sv.lifetime_body e2 l) _ r2 in
    let fresh : KeyPackage = record {
      version = 0;
      cipher_suite = suite;
      init_key = init_key;
      credential = cred;
      extensions = e3;
      signature = [];
    } in
    let (sig, shape) = sign_keeps sv fresh kp priv r3 in
    let find_versions =
      find-add_other sv.lifetime_body sv.versions_body e2 e3 l (λ h. w.versions_lifetime (sym h))
        add3
      ∙ find-add_other sv.suites_body sv.versions_body e1 e2 u (λ h. w.versions_suites (sym h)) add2
      ∙ find-add sv.versions_body [] e1 v w.versions_read add1 in
    let find_suites =
      find-add_other sv.lifetime_body sv.suites_body e2 e3 l (λ h. w.suites_lifetime (sym h)) add3
      ∙ find-add sv.suites_body e1 e2 u w.suites_read add2 in
    let find_lifetime = find-add sv.lifetime_body e2 e3 l w.lifetime_read add3 in
    let signed = verify_under-sign sv fresh kp priv scheme law c r3 in
    let same = ap (verify_under sv scheme) shape in
    ap (key_package_verify sv now) shape
    ∙ verify_by sv now scheme (record fresh { signature = sig }) v u l find_versions find_suites
        find_lifetime (fresh_enough made now small in_time).0
        (fresh_enough made now small in_time).1 c t
    ∙ sym same
    ∙ signed
