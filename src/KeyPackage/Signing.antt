-- ===== src/KeyPackage/Signing.antt =====
-- `Sign` of messages.go and the check of the signature in `Verify`.
use go_mls.Base.{
  ℕ, ◌≡◌, refl, ap, subst, ◌∙◌, Bool, true, false, Option, none, some, Bytes, bytes_eq, bytes_eq→eq,
  Failure, key_mismatch, Outcome, ok, guard, ◌>>◌, >>=-eq-ok,
}
use go_mls.Credential.{credential_scheme, credential_public_key}
use go_mls.KeyPackage.{
  KeyPackage, SignaturePrivateKey, Services, check_signed, or_error, key_package_tbs,
  key_package_sign, verify_under,
}

-- Signatures made with a private key check under its public key.
abbrev pub ChecksOut : Services → Type 0
ChecksOut sv =
    (scheme : ℕ) (priv : SignaturePrivateKey) (msg sig : Bytes)
    → sv.sign scheme priv msg ≡ some sig
    → sv.check scheme priv.public_key msg sig ≡ true

pub or_error-eq-ok : (o : Option Bytes) {b : Bytes} → or_error o ≡ ok b → o ≡ some b
unfolding or_error
or_error-eq-ok none e = cc
or_error-eq-ok (some b) e = cc

guard-eq-ok :
    {A : Type 0} (b : Bool) (f : Failure) (k : Outcome A) {a : A}
    → (guard b f >> k) ≡ ok a
    → (b ≡ true) × (k ≡ ok a)
guard-eq-ok true f k e = (refl, e)
guard-eq-ok false f k e = cc

checked :
    (sv : Services) (kp : KeyPackage) (scheme : ℕ) (pub_key tbs sig : Bytes)
    → credential_public_key sv.x509 kp.credential ≡ ok pub_key
    → key_package_tbs sv kp ≡ some tbs
    → sv.check scheme pub_key tbs sig ≡ true
    → verify_under sv scheme (record kp { signature = sig }) ≡ ok true
unfolding verify_under check_signed key_package_tbs
checked sv kp scheme pub_key tbs sig e f g = rw (e, f, g)

-- Where signatures check out, a `Sign` that succeeds leaves a package of which the signature is good
-- under the scheme of its credential.
pub verify_under-sign :
    (sv : Services) (kp out : KeyPackage) (priv : SignaturePrivateKey) (scheme : ℕ)
    → ChecksOut sv
    → credential_scheme sv.x509 kp.credential ≡ ok scheme
    → key_package_sign sv kp priv ≡ ok out
    → verify_under sv scheme out ≡ ok true
unfolding key_package_sign
verify_under-sign sv kp out priv scheme law has_scheme e =
    let (pub_key, e0, e1) = >>=-eq-ok (credential_public_key sv.x509 kp.credential) _ e in
    let (same, e2) = guard-eq-ok (bytes_eq priv.public_key pub_key) key_mismatch _ e1 in
    let (tbs, e3, e4) = >>=-eq-ok (or_error (key_package_tbs sv kp)) _ e2 in
    let (scheme', e5, e6) = >>=-eq-ok (credential_scheme sv.x509 kp.credential) _ e4 in
    let (sig, e7, e8) = >>=-eq-ok (or_error (sv.sign scheme' priv tbs)) _ e6 in
    let same_scheme : scheme' ≡ scheme = cc in
    let same_key : priv.public_key ≡ pub_key = bytes_eq→eq _ _ same in
    let signed = law scheme' priv tbs sig (or_error-eq-ok _ e7) in
    let good : sv.check scheme pub_key tbs sig ≡ true =
      subst (λ k. sv.check scheme k tbs sig ≡ true) same_key
        (subst (λ c. sv.check c priv.public_key tbs sig ≡ true) same_scheme signed) in
    let final : out ≡ record kp { signature = sig } = cc in
    ap (verify_under sv scheme) final
    ∙ checked sv kp scheme pub_key tbs sig e0 (or_error-eq-ok _ e3) good

-- `Sign` changes the signature only.
pub sign_keeps :
    (sv : Services) (kp out : KeyPackage) (priv : SignaturePrivateKey)
    → key_package_sign sv kp priv ≡ ok out
    → (sig : Bytes) × (out ≡ record kp { signature = sig })
unfolding key_package_sign
sign_keeps sv kp out priv e =
    let (pub_key, e0, e1) = >>=-eq-ok (credential_public_key sv.x509 kp.credential) _ e in
    let (same, e2) = guard-eq-ok (bytes_eq priv.public_key pub_key) key_mismatch _ e1 in
    let (tbs, e3, e4) = >>=-eq-ok (or_error (key_package_tbs sv kp)) _ e2 in
    let (scheme', e5, e6) = >>=-eq-ok (credential_scheme sv.x509 kp.credential) _ e4 in
    let (sig, e7, e8) = >>=-eq-ok (or_error (sv.sign scheme' priv tbs)) _ e6 in (sig, cc)
