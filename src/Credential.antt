-- ===== src/Credential.antt =====
-- credential.go: basic and X.509 credentials. A certificate is its `Raw` bytes, by which
-- `Certificate.Equal` compares; what Go's x509 package reads from one is a parameter. The code points
-- of signature schemes are those of crypto.go.
pub mod Issuers
pub mod Chains
use go_mls.Base.{
  ℕ, ◌==◌, if◌then◌else◌, Bool, true, false, ◌&&◌, Option, none, some, List, [], ◌∷◌, ◌++◌, Bytes,
  bytes_eq, Codec, Outcome, ok, err, panic, ◌>>=◌, malformed_credential, unsupported_certificate,
  no_trust_anchor, bad_signature,
}

abbrev pub credential_type_basic : ℕ
credential_type_basic = 0

abbrev pub credential_type_x509 : ℕ
credential_type_x509 = 1

pub record BasicCredential : Type 0 where
  pub identity : Bytes
  pub signature_scheme : ℕ
  pub public_key : Bytes

abbrev pub Certificate : Type 0
Certificate = Bytes

pub record X509Credential : Type 0 where
  pub chain : List Certificate

-- A nil pointer is `none`.
pub record Credential : Type 0 where
  pub x509 : Option X509Credential
  pub basic : Option BasicCredential

unfoldable pub new_basic_credential : Bytes → ℕ → Bytes → Credential
new_basic_credential user_id scheme pub_key = record {
  x509 = none;
  basic = some (record { identity = user_id; signature_scheme = scheme; public_key = pub_key });
}

unfoldable pub new_x509_credential : List Certificate → Outcome Credential
new_x509_credential [] = err malformed_credential
new_x509_credential (c ∷ cs) = ok (record { x509 = some (record { chain = c ∷ cs }); basic = none })

unfoldable pub chain_eq : List Certificate → List Certificate → Bool
chain_eq [] [] = true
chain_eq [] (y ∷ ys) = false
chain_eq (x ∷ xs) [] = false
chain_eq (x ∷ xs) (y ∷ ys) = bytes_eq x y && chain_eq xs ys

unfoldable pub basic_eq : BasicCredential → BasicCredential → Bool
basic_eq a b =
    bytes_eq a.identity b.identity
    && a.signature_scheme == b.signature_scheme
    && bytes_eq a.public_key b.public_key

-- `Type`: the X.509 credential goes first.
unfoldable pub credential_type : Credential → Outcome ℕ
credential_type c = elim c.x509 [
  | some x ↦ ok credential_type_x509
  | none ↦ elim c.basic [ some b ↦ ok credential_type_basic | none ↦ panic malformed_credential ]
]

-- A nil X.509 credential on the other side is dereferenced.
unfoldable pub x509_equals : X509Credential → Option X509Credential → Outcome Bool
x509_equals x none = panic malformed_credential
x509_equals x (some y) = ok (chain_eq x.chain y.chain)

unfoldable pub basic_equals : Option BasicCredential → Option BasicCredential → Outcome Bool
basic_equals none o = panic malformed_credential
basic_equals (some a) none = ok false
basic_equals (some a) (some b) = ok (basic_eq a b)

unfoldable pub credential_equals : Credential → Credential → Outcome Bool
credential_equals c o = elim c.x509 [
  | some x ↦ x509_equals x o.x509
  | none ↦ basic_equals c.basic o.basic
]

pub data KeyAlgorithm : Type 0 where
  ecdsa_algorithm ed25519_algorithm other_algorithm : KeyAlgorithm

pub data Curve : Type 0 where
  p256 p521 other_curve : Curve

-- A public key in a certificate; that of a curve with the bytes that `elliptic.Marshal` makes of it.
pub data CertKey : Type 0 where
  ecdsa_key : Curve → Bytes → CertKey
  ed25519_key : Bytes → CertKey
  other_key : CertKey

-- What the x509 package reads from a certificate.
pub record X509 : Type 0 where
  pub raw_subject : Certificate → Bytes
  pub raw_issuer : Certificate → Bytes
  pub subject_key_id : Certificate → Bytes
  pub authority_key_id : Certificate → Bytes
  pub key_algorithm : Certificate → KeyAlgorithm
  pub key : Certificate → CertKey
  pub signed_by : Certificate → Certificate → Bool

unfoldable pub curve_scheme : CertKey → Outcome ℕ
curve_scheme (ecdsa_key p256 b) = ok 0x0403
curve_scheme (ecdsa_key p521 b) = ok 0x0603
curve_scheme (ecdsa_key other_curve b) = panic unsupported_certificate
curve_scheme (ed25519_key b) = panic unsupported_certificate
curve_scheme other_key = panic unsupported_certificate

unfoldable pub certificate_scheme : KeyAlgorithm → CertKey → Outcome ℕ
certificate_scheme ecdsa_algorithm key = curve_scheme key
certificate_scheme ed25519_algorithm key = ok 0x0807
certificate_scheme other_algorithm key = panic unsupported_certificate

unfoldable pub certificate_public_key : CertKey → Outcome Bytes
certificate_public_key (ecdsa_key curve b) = ok b
certificate_public_key (ed25519_key b) = ok b
certificate_public_key other_key = panic unsupported_certificate

-- The map from names or key identifiers; a later certificate replaces an earlier one.
unfoldable pub find_key : Bytes → List (Bytes × Certificate) → Option Certificate
find_key k [] = none
find_key k ((j, c) ∷ m) = if bytes_eq j k then some c else find_key k m

pub record CertPool : Type 0 where
  pub by_key_id : List (Bytes × Certificate)
  pub by_name : List (Bytes × Certificate)

-- `len(s) > 0`
unfoldable pub is_given : Bytes → Bool
is_given [] = false
is_given (x ∷ b) = true

module _ (x : X509) where
  -- Entries in front hide those behind, as an assignment replaces what a key had.
  unfoldable pub add_trusted : CertPool → List Certificate → CertPool
  add_trusted pool [] = pool
  add_trusted pool (cert ∷ trusted) =
      add_trusted
        (record {
          by_key_id =
              if is_given (x.subject_key_id cert)
              then (x.subject_key_id cert, cert) ∷ pool.by_key_id
              else pool.by_key_id;
          by_name = (x.raw_subject cert, cert) ∷ pool.by_name;
        })
        trusted

  unfoldable pub new_cert_pool : List Certificate → CertPool
  new_cert_pool trusted = add_trusted (record { by_key_id = []; by_name = [] }) trusted

  unfoldable pub parent_in : CertPool → Certificate → Option Certificate
  parent_in pool cert =
      let by_name = find_key (x.raw_issuer cert) pool.by_name in
      if is_given (x.authority_key_id cert)
      then elim (find_key (x.authority_key_id cert) pool.by_key_id) [
        | some c ↦ some c
        | none ↦ by_name
      ]
      else by_name

  unfoldable pub anchored : CertPool → Certificate → Bool
  anchored pool cert = elim (parent_in pool cert) [
    | none ↦ false
    | some parent ↦ x.signed_by cert parent
  ]

  unfoldable pub verify_last : CertPool → Certificate → Outcome (Unit {0})
  verify_last pool last = elim (parent_in pool last) [
    | none ↦ err no_trust_anchor
    | some parent ↦ if x.signed_by last parent then ok tt else err bad_signature
  ]

  -- The loop of `Verify`, and the last certificate after it. An empty chain panics.
  unfoldable pub verify_chain : CertPool → List Certificate → Outcome (Unit {0})
  verify_chain pool [] = panic malformed_credential
  verify_chain pool (last ∷ []) = verify_last pool last
  verify_chain pool (curr ∷ next ∷ chain) =
      let rest = verify_chain pool (next ∷ chain) in
      if anchored pool curr
      then ok tt
      else if x.signed_by curr next
      then rest
      else err bad_signature

  unfoldable pub verify : X509Credential → List Certificate → Outcome (Unit {0})
  verify cred trusted = verify_chain (new_cert_pool trusted) cred.chain

  unfoldable pub leaf_of : X509Credential → Outcome Certificate
  leaf_of cred = elim cred.chain [ [] ↦ panic malformed_credential | c ∷ cs ↦ ok c ]

  -- `Identity`, `Scheme` and `PublicKey` of a credential.
  unfoldable pub identity_of : Credential → Outcome Bytes
  identity_of c = elim c.x509 [
    | some cred ↦ leaf_of cred >>= (λ leaf. ok (x.raw_subject leaf))
    | none ↦ elim c.basic [ some b ↦ ok b.identity | none ↦ panic malformed_credential ]
  ]

  unfoldable pub credential_scheme : Credential → Outcome ℕ
  credential_scheme c = elim c.x509 [
    | some cred ↦ leaf_of cred >>= (λ leaf. certificate_scheme (x.key_algorithm leaf) (x.key leaf))
    | none ↦ elim c.basic [ some b ↦ ok b.signature_scheme | none ↦ panic malformed_credential ]
  ]

  unfoldable pub credential_public_key : Credential → Outcome Bytes
  credential_public_key c = elim c.x509 [
    | some cred ↦ leaf_of cred >>= (λ leaf. certificate_public_key (x.key leaf))
    | none ↦ elim c.basic [ some b ↦ ok b.public_key | none ↦ panic malformed_credential ]
  ]
