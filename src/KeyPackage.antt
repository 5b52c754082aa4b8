-- ===== src/KeyPackage.antt =====
-- The key package of messages.go. Signatures, the clock and the marshalling of what is signed are
-- parameters.
pub mod Equality
pub mod Signing
pub mod Creation
use go_mls.Base.{
  ℕ, ◌+◌, ◌*◌, ◌/◌, ◌-◌, ◌%◌, ◌^◌, u64, ltb, ◌==◌, if◌then◌else◌, Bool, true, false, not, ◌&&◌,
  ◌||◌, Option, none, some, List, [], ◌∷◌, ◌++◌, Bytes, bytes_eq, Codec, Outcome, ok, err, panic,
  ◌>>=◌, ◌>>◌, guard, marshal_failure, key_mismatch, bad_signature,
}
use go_mls.Extensions.{
  ExtensionList, ExtensionBody, Finding, absent, failed, found, find, add,
  SupportedVersionsExtension, SupportedCipherSuitesExtension, LifetimeExtension,
}
use go_mls.Credential.{
  Credential, X509, credential_equals, credential_scheme, credential_public_key,
}

abbrev pub protocol_version_mls10 : ℕ
protocol_version_mls10 = 0x00

pub record KeyPackage : Type 0 where
  pub version : ℕ
  pub cipher_suite : ℕ
  pub init_key : Bytes
  pub credential : Credential
  pub extensions : ExtensionList
  pub signature : Bytes

-- `reflect.DeepEqual(kp.Extensions, kp.Extensions)`
unfoldable pub extensions_eq : ExtensionList → ExtensionList → Bool
extensions_eq [] [] = true
extensions_eq [] (y ∷ ys) = false
extensions_eq (x ∷ xs) [] = false
extensions_eq (x ∷ xs) (y ∷ ys) =
    x.extension_type == y.extension_type
    && bytes_eq x.extension_data y.extension_data
    && extensions_eq xs ys

-- The last comparison but one is of the receiver with itself, as the source has it.
unfoldable pub key_package_equals : KeyPackage → KeyPackage → Outcome Bool
key_package_equals kp other = do
  let version = kp.version == other.version
  let suite = kp.cipher_suite == other.cipher_suite
  let init_key = bytes_eq kp.init_key other.init_key
  credential ← credential_equals kp.credential other.credential
  let extensions = extensions_eq kp.extensions kp.extensions
  let signature = bytes_eq kp.signature other.signature
  ok (version && suite && init_key && credential && extensions && signature)

unfoldable pub key_package_clone : KeyPackage → KeyPackage
key_package_clone kp = record {
  version = kp.version;
  cipher_suite = kp.cipher_suite;
  init_key = kp.init_key;
  credential = kp.credential;
  extensions = kp.extensions;
  signature = kp.signature;
}

pub record SignaturePrivateKey : Type 0 where
  pub secret : Bytes
  pub public_key : Bytes

-- What key packages take from elsewhere. `scheme_of_suite` is the table of crypto.go, with the code
-- points of the schemes; `tbs` marshals all fields but the signature.
pub record Services : Type 0 where
  pub x509 : X509
  pub sign : ℕ → SignaturePrivateKey → Bytes → Option Bytes
  pub check : ℕ → Bytes → Bytes → Bytes → Bool
  pub scheme_of_suite : ℕ → Outcome ℕ
  pub tbs : ℕ → ℕ → Bytes → Credential → ExtensionList → Option Bytes
  pub versions_body : ExtensionBody SupportedVersionsExtension
  pub suites_body : ExtensionBody SupportedCipherSuitesExtension
  pub lifetime_body : ExtensionBody LifetimeExtension

unfoldable pub is_found : {B : Type 0} → Finding B → Bool
is_found absent = false
is_found (failed e) = true
is_found (found b) = true

-- `now.After(time.Unix(int64(n), 0))` and `now.Before(…)`, for a time in nanoseconds since 1970. As an
-- `int64` a number from 2 ^ 63 on is negative, a time before that; and `time.Unix` adds the seconds from
-- the year 1 to 1970, so that a number from 2 ^ 63 less those on overflows to a time before, too.
unfoldable pub after_unix : ℕ → ℕ → Bool
after_unix now n = if ltb n (2 ^ 63 - 62135596800) then ltb (n * 10 ^ 9) now else true

unfoldable pub before_unix : ℕ → ℕ → Bool
before_unix now n = if ltb n (2 ^ 63 - 62135596800) then ltb now (n * 10 ^ 9) else false

-- Not expired and not from the future.
unfoldable pub in_lifetime : ℕ → Finding LifetimeExtension → Bool
in_lifetime now absent = false
in_lifetime now (failed e) = false
in_lifetime now (found l) = not (after_unix now l.not_after) && not (before_unix now l.not_before)

-- `uint64(time.Now().Add(defaultLifetime).Unix())`: thirty days later, in seconds.
unfoldable pub expiry_of : ℕ → ℕ
expiry_of now = (now + 30 * 24 * 3600 * 10 ^ 9) / 10 ^ 9 % u64

-- An error of `toBeSigned` makes `Verify` false.
unfoldable pub check_signed : (Bytes → Bool) → Option Bytes → Bool
check_signed f none = false
check_signed f (some b) = f b

unfoldable pub or_error : Option Bytes → Outcome Bytes
or_error none = err marshal_failure
or_error (some b) = ok b

module _ (sv : Services) where
  unfoldable pub key_package_tbs : KeyPackage → Option Bytes
  key_package_tbs kp = sv.tbs kp.version kp.cipher_suite kp.init_key kp.credential kp.extensions

  unfoldable pub key_package_sign : KeyPackage → SignaturePrivateKey → Outcome KeyPackage
  key_package_sign kp priv = do
    pub_key ← credential_public_key sv.x509 kp.credential
    guard (bytes_eq priv.public_key pub_key) key_mismatch
    tbs ← or_error (key_package_tbs kp)
    scheme ← credential_scheme sv.x509 kp.credential
    sig ← or_error (sv.sign scheme priv tbs)
    ok (record kp { signature = sig })

  unfoldable pub verify_under : ℕ → KeyPackage → Outcome Bool
  verify_under scheme kp = do
    pub_key ← credential_public_key sv.x509 kp.credential
    ok (check_signed (λ tbs. sv.check scheme pub_key tbs kp.signature) (key_package_tbs kp))

  -- The last part of `Verify`, for a package with the extensions it needs and in its lifetime.
  unfoldable pub verify_signature : KeyPackage → Outcome Bool
  verify_signature kp = do
    scheme ← credential_scheme sv.x509 kp.credential
    expected ← sv.scheme_of_suite kp.cipher_suite
    if not (scheme == expected) then ok false else verify_under scheme kp

  unfoldable pub key_package_verify : ℕ → KeyPackage → Outcome Bool
  key_package_verify now kp =
      if not (is_found (find sv.versions_body kp.extensions))
        || not (is_found (find sv.suites_body kp.extensions))
      then ok false
      else if not (in_lifetime now (find sv.lifetime_body kp.extensions))
      then ok false
      else verify_signature kp

  -- `NewKeyPackageWithInitKey`, at a time in nanoseconds, with the versions and suites of the package.
  unfoldable pub new_key_package_with_init_key :
      ℕ → List ℕ → List ℕ → ℕ → Bytes → Credential → SignaturePrivateKey → Outcome KeyPackage
  new_key_package_with_init_key now versions suites suite init_key cred sig_priv = do
    e1 ← add sv.versions_body [] (record { supported_versions = versions })
    e2 ← add sv.suites_body e1 (record { supported_cipher_suites = suites })
    let expiry = expiry_of now
    e3 ← add sv.lifetime_body e2 (record { not_before = 0; not_after = expiry })
    key_package_sign
        (record {
          version = protocol_version_mls10;
          cipher_suite = suite;
          init_key = init_key;
          credential = cred;
          extensions = e3;
          signature = [];
        })
        sig_priv
