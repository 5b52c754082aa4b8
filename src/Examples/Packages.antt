-- ===== src/Examples/Packages.antt =====
-- Extension lists, credentials and key packages at concrete inputs.
use go_mls.Base.{
  ℕ, zero, suc, subst, bytes_eq_refl, ◌≡◌, ◌↔◌, refl, arith, true, none, some, Option, List, [],
  ◌∷◌, ◌++◌, length, Bytes, ◌||◌, ◌==◌, bytes_eq, Codec, ReadsBack, ok,
}
use mathlib.Core.Option
use mathlib.Core.Option.{some-injective}
use go_mls.Extensions.{
  ExtensionList, ExtensionBody, found, find, put, add, add_data, has, SupportedVersionsExtension,
  SupportedCipherSuitesExtension, LifetimeExtension, supported_versions_body,
  supported_cipher_suites_body, lifetime_body,
}
use go_mls.Extensions.Laws.{IsUnique, find-add, find-add_other, add-IsUnique}
use go_mls.Credential.{
  ed25519_algorithm, ed25519_key, X509, X509Credential, Credential, verify, credential_scheme,
  credential_public_key, credential_equals, basic_equals, basic_eq,
}
use go_mls.Credential.Chains.{Trusted, verify_iff}
use go_mls.KeyPackage.{
  KeyPackage, Services, SignaturePrivateKey, key_package_equals, extensions_eq, key_package_sign,
  key_package_tbs, verify_under, or_error, key_package_verify, expiry_of,
  new_key_package_with_init_key,
}
use go_mls.KeyPackage.Equality.{equals_any_extensions, equals_fields}
use go_mls.KeyPackage.Signing.{ChecksOut, verify_under-sign}
use go_mls.KeyPackage.Creation.{Wired, verify-new}

-- A list of numbers as its length and the numbers, and a lifetime as its two ends.
abbrev take_list : ℕ → Bytes → Option (List ℕ)
take_list zero b = some []
take_list (suc n) [] = none
take_list (suc n) (x ∷ b) = Option.map (λ xs. x ∷ xs) (take_list n b)

take_list-append : (xs rest : List ℕ) → take_list (length xs) (xs ++ rest) ≡ some xs
take_list-append [] rest = refl
take_list-append (x ∷ xs) rest = rw (take_list-append xs rest) refl

abbrev read_list : Bytes → Option (List ℕ × ℕ)
read_list [] = none
read_list (n ∷ b) = Option.map (λ xs. (xs, suc n)) (take_list n b)

read_list-append :
    (xs rest : List ℕ) → read_list (length xs ∷ xs ++ rest) ≡ some (xs, suc (length xs))
read_list-append xs rest = rw (take_list-append xs rest) refl

abbrev pub list_codec : Codec (List ℕ)
list_codec = record { encode = λ xs. some (length xs ∷ xs); decode = read_list }

pub list-ReadsBack : ReadsBack list_codec
list-ReadsBack xs d rest e =
    subst (λ d. list_codec.decode (d ++ rest) ≡ some (xs, length d)) (some-injective _ _ e)
      (read_list-append xs rest)

abbrev versions_codec : Codec SupportedVersionsExtension
versions_codec = record {
  encode = λ v. some (length v.supported_versions ∷ v.supported_versions);
  decode = λ b. Option.map (λ r. (record { supported_versions = r.0 }, r.1)) (read_list b);
}

abbrev suites_codec : Codec SupportedCipherSuitesExtension
suites_codec = record {
  encode = λ v. some (length v.supported_cipher_suites ∷ v.supported_cipher_suites);
  decode = λ b. Option.map (λ r. (record { supported_cipher_suites = r.0 }, r.1)) (read_list b);
}

abbrev read_lifetime : Bytes → Option (LifetimeExtension × ℕ)
read_lifetime (a ∷ b ∷ rest) = some (record { not_before = a; not_after = b }, 2)
read_lifetime _ = none

abbrev lifetime_codec : Codec LifetimeExtension
lifetime_codec = record {
  encode = λ l. some (l.not_before ∷ l.not_after ∷ []);
  decode = read_lifetime;
}

versions-ReadsBack : ReadsBack versions_codec
versions-ReadsBack v d rest e =
    subst (λ d. versions_codec.decode (d ++ rest) ≡ some (v, length d)) (some-injective _ _ e)
      (rw (read_list-append v.supported_versions rest) refl)

suites-ReadsBack : ReadsBack suites_codec
suites-ReadsBack v d rest e =
    subst (λ d. suites_codec.decode (d ++ rest) ≡ some (v, length d)) (some-injective _ _ e)
      (rw (read_list-append v.supported_cipher_suites rest) refl)

lifetime-ReadsBack : ReadsBack lifetime_codec
lifetime-ReadsBack l d rest e =
    subst (λ d. lifetime_codec.decode (d ++ rest) ≡ some (l, length d)) (some-injective _ _ e) refl

abbrev versions : ExtensionBody SupportedVersionsExtension
versions = supported_versions_body versions_codec

abbrev suites : ExtensionBody SupportedCipherSuitesExtension
suites = supported_cipher_suites_body suites_codec

-- Lists with and without an entry of the type.
abbrev one_suite : ExtensionList
one_suite = record { extension_type = 2; extension_data = 1 ∷ 5 ∷ [] } ∷ []

abbrev both : ExtensionList
both =
    record { extension_type = 2; extension_data = 1 ∷ 5 ∷ [] }
    ∷ record { extension_type = 1; extension_data = 2 ∷ 0 ∷ 7 ∷ [] }
    ∷ []

abbrev two_versions : SupportedVersionsExtension
two_versions = record { supported_versions = 0 ∷ 7 ∷ [] }

find-add_example : find versions both ≡ found two_versions
unfolding add add_data put
find-add_example = find-add versions one_suite both two_versions versions-ReadsBack refl

find-add_other_example : find suites both ≡ find suites one_suite
unfolding add add_data put
find-add_other_example =
    find-add_other versions suites one_suite both two_versions (omega arith) refl

add-IsUnique_example : IsUnique both × ((u : ℕ) → has both u ≡ (1 == u) || has one_suite u)
unfolding add add_data put has
add-IsUnique_example = add-IsUnique versions one_suite both two_versions (refl, tt) refl

-- Certificates of which the first byte is the subject and the second the issuer.
abbrev first_byte : Bytes → Bytes
first_byte [] = []
first_byte (a ∷ b) = a ∷ []

abbrev second_byte : Bytes → Bytes
second_byte [] = []
second_byte (a ∷ b) = first_byte b

abbrev pub x509 : X509
x509 = record {
  raw_subject = first_byte;
  raw_issuer = second_byte;
  subject_key_id = λ c. [];
  authority_key_id = λ c. [];
  key_algorithm = λ c. ed25519_algorithm;
  key = λ c. ed25519_key c;
  signed_by = λ c d. bytes_eq (second_byte c) (first_byte d);
}

verify_iff_example :
    let cred : X509Credential = record { chain = (1 ∷ 2 ∷ []) ∷ (2 ∷ 3 ∷ []) ∷ [] } in
    (verify x509 cred ((3 ∷ 3 ∷ []) ∷ []) ≡ ok tt) ↔ Trusted x509 ((3 ∷ 3 ∷ []) ∷ []) cred.chain
verify_iff_example =
    verify_iff x509 (record { chain = (1 ∷ 2 ∷ []) ∷ (2 ∷ 3 ∷ []) ∷ [] }) ((3 ∷ 3 ∷ []) ∷ [])

-- Signatures that repeat the public key and the message.
abbrev pub services : Services
services = record {
  x509 = x509;
  sign = λ scheme priv msg. some (priv.public_key ++ msg);
  check = λ scheme pub_key msg sig. bytes_eq sig (pub_key ++ msg);
  scheme_of_suite = λ suite. ok 0x0807;
  tbs = λ version suite init_key cred extensions. some (version ∷ suite ∷ init_key);
  versions_body = versions;
  suites_body = suites;
  lifetime_body = lifetime_body lifetime_codec;
}

pub services-ChecksOut : ChecksOut services
services-ChecksOut scheme priv msg sig e =
    subst (λ s. bytes_eq s (priv.public_key ++ msg) ≡ true) (some-injective _ _ e)
      (bytes_eq_refl (priv.public_key ++ msg))

services-Wired : Wired services
services-Wired = record {
  versions_suites = omega arith;
  versions_lifetime = omega arith;
  suites_lifetime = omega arith;
  versions_read = versions-ReadsBack;
  suites_read = suites-ReadsBack;
  lifetime_read = lifetime-ReadsBack;
}

abbrev pub alice : Credential
alice = record {
  x509 = none;
  basic = some (record { identity = 1 ∷ []; signature_scheme = 0x0807; public_key = 4 ∷ [] });
}

abbrev pub alice_key : SignaturePrivateKey
alice_key = record { secret = 8 ∷ []; public_key = 4 ∷ [] }

abbrev pub alice_package : ExtensionList → Bytes → KeyPackage
alice_package extensions signature = record {
  version = 0;
  cipher_suite = 1;
  init_key = 6 ∷ [];
  credential = alice;
  extensions = extensions;
  signature = signature;
}

verify_under-sign_example :
    verify_under services 0x0807 (alice_package [] (4 ∷ 0 ∷ 1 ∷ 6 ∷ [])) ≡ ok true
unfolding credential_scheme credential_public_key key_package_sign key_package_tbs or_error bytes_eq
verify_under-sign_example =
    verify_under-sign services (alice_package [] []) (alice_package [] (4 ∷ 0 ∷ 1 ∷ 6 ∷ []))
      alice_key 0x0807 services-ChecksOut refl refl

-- What a client that runs 100 seconds after 1970 makes.
abbrev pub made_extensions : ExtensionList
made_extensions =
    record { extension_type = 1; extension_data = 1 ∷ 0 ∷ [] }
    ∷ record { extension_type = 2; extension_data = 1 ∷ 1 ∷ [] }
    ∷ record { extension_type = 3; extension_data = 0 ∷ 2592100 ∷ [] }
    ∷ []

verify-new_example :
    key_package_verify services 500000000000 (alice_package made_extensions (4 ∷ 0 ∷ 1 ∷ 6 ∷ []))
    ≡ ok true
unfolding new_key_package_with_init_key expiry_of add add_data put credential_scheme
    credential_public_key key_package_sign key_package_tbs or_error bytes_eq
verify-new_example =
    verify-new services 100000000000 500000000000 (0 ∷ []) (1 ∷ []) 1 0x0807 (6 ∷ []) alice
      alice_key (alice_package made_extensions (4 ∷ 0 ∷ 1 ∷ 6 ∷ [])) services-Wired
      services-ChecksOut refl refl (omega arith) (omega arith) refl

equals_any_extensions_example :
    key_package_equals (alice_package [] []) (alice_package made_extensions [])
    ≡ key_package_equals (alice_package [] []) (alice_package [] [])
equals_any_extensions_example =
    equals_any_extensions (alice_package [] []) (alice_package [] []) made_extensions

equals_fields_example : alice_package [] (2 ∷ []) ≡ alice_package [] (2 ∷ [])
unfolding key_package_equals bytes_eq credential_equals basic_equals basic_eq extensions_eq
equals_fields_example =
    equals_fields (alice_package [] (2 ∷ [])) (alice_package one_suite (2 ∷ []))
      (record { identity = 1 ∷ []; signature_scheme = 0x0807; public_key = 4 ∷ [] })
      (record { identity = 1 ∷ []; signature_scheme = 0x0807; public_key = 4 ∷ [] }) refl refl refl
