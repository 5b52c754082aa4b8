-- ===== src/Credential/Chains.antt =====
-- Which certificate chains `Verify` accepts.
use go_mls.Base.{
  ◌≡◌, ◌↔◌, arith, inl, inr, true, refl, Option, none, some, Bool-cases, List, [], ◌∷◌, ok,
}
use go_mls.Credential.{
  Certificate, X509, X509Credential, CertPool, new_cert_pool, anchored, verify_last, verify_chain,
  verify, parent_in,
}
use go_mls.Credential.Issuers.{Issuer, parent_in-Issuer, Issuer-parent_in}

-- A chain of certificates, each signed by the next, up to one that its trusted issuer signed.
pub data Trusted (x : X509) (trusted : List Certificate) : List Certificate → Type 0 where
  anchor :
      {c : Certificate} {cs : List Certificate} (t : Certificate)
      → Issuer x trusted c t
      → x.signed_by c t ≡ true
      → Trusted x trusted (c ∷ cs)
  link :
      {c d : Certificate} {cs : List Certificate}
      → x.signed_by c d ≡ true
      → Trusted x trusted (d ∷ cs)
      → Trusted x trusted (c ∷ d ∷ cs)

anchored-Issuer :
    (x : X509) (trusted : List Certificate) (c : Certificate)
    → anchored x (new_cert_pool x trusted) c ≡ true
    → (t : Certificate) × Issuer x trusted c t × (x.signed_by c t ≡ true)
unfolding anchored
anchored-Issuer x trusted c e = parent_of (parent_in x (new_cert_pool x trusted) c) refl
  where
    parent_of :
        (o : Option Certificate)
        → parent_in x (new_cert_pool x trusted) c ≡ o
        → (t : Certificate) × Issuer x trusted c t × (x.signed_by c t ≡ true)
    parent_of none f = ground (arith, e, f)
    parent_of (some t) f = (t, parent_in-Issuer x trusted c t f, ground (arith, e, f))

Issuer-anchored :
    (x : X509) (trusted : List Certificate) (c t : Certificate)
    → Issuer x trusted c t
    → x.signed_by c t ≡ true
    → anchored x (new_cert_pool x trusted) c ≡ true
unfolding anchored
Issuer-anchored x trusted c t i signed = rw (Issuer-parent_in x trusted c i, anchored) signed

verify_last-anchored :
    (x : X509) (pool : CertPool) (c : Certificate)
    → verify_last x pool c ≡ ok tt
    → anchored x pool c ≡ true
unfolding verify_last anchored
verify_last-anchored x pool c e = ground arith

anchored-verify_last :
    (x : X509) (pool : CertPool) (c : Certificate)
    → anchored x pool c ≡ true
    → verify_last x pool c ≡ ok tt
unfolding verify_last anchored
anchored-verify_last x pool c e = ground arith

module _ (x : X509) (trusted : List Certificate) where
  sound :
      (chain : List Certificate)
      → verify_chain x (new_cert_pool x trusted) chain ≡ ok tt
      → Trusted x trusted chain
  unfolding verify_chain
  sound [] e = cc
  sound (c ∷ []) e =
      let (t, i, signed) =
        anchored-Issuer x trusted c (verify_last-anchored x (new_cert_pool x trusted) c e) in
      anchor t i signed
  sound (c ∷ d ∷ cs) e = elim (Bool-cases (anchored x (new_cert_pool x trusted) c)) [
    | inl yes_anchored ↦
        let (t, i, signed) = anchored-Issuer x trusted c yes_anchored in anchor t i signed
    | inr not_anchored ↦ elim (Bool-cases (x.signed_by c d)) [
      | inl signed ↦ link signed (sound (d ∷ cs) (ground arith))
      | inr unsigned ↦ absurd (ground arith)
    ]
  ]

  complete :
      {chain : List Certificate}
      → Trusted x trusted chain
      → verify_chain x (new_cert_pool x trusted) chain ≡ ok tt
  unfolding verify_chain
  complete {chain = c ∷ []} (anchor t i signed) =
      anchored-verify_last x (new_cert_pool x trusted) c (Issuer-anchored x trusted c t i signed)
  complete {chain = c ∷ d ∷ cs} (anchor t i signed) =
      rw (Issuer-anchored x trusted c t i signed) refl
  complete (link signed rest) = ground (arith, complete rest)

-- `Verify` accepts a chain exactly when some certificate of it is signed by its trusted issuer and
-- each certificate before that is signed by the next. The trusted issuer is the last trusted
-- certificate with the key identifier that the certificate gives for its issuer; where it gives none,
-- or no trusted certificate has it, the last one whose subject is the certificate's issuer.
pub verify_iff :
    (x : X509) (cred : X509Credential) (trusted : List Certificate)
    → (verify x cred trusted ≡ ok tt) ↔ Trusted x trusted cred.chain
unfolding verify
verify_iff x cred trusted = (sound x trusted cred.chain, complete x trusted)
