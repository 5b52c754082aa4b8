-- ===== src/KeyPackage/Equality.antt =====
-- What `KeyPackage.Equals` compares, and what it does not.
use go_mls.Base.{◌≡◌, refl, arith, true, none, some, [], ◌∷◌, bytes_eq_refl, bytes_eq→eq, ok}
use go_mls.Extensions.{ExtensionList}
use go_mls.Credential.{Credential, BasicCredential, credential_equals, basic_equals, basic_eq}
use go_mls.KeyPackage.{KeyPackage, extensions_eq, key_package_equals}

extensions_eq_refl : (el : ExtensionList) → extensions_eq el el ≡ true
unfolding extensions_eq
extensions_eq_refl [] = refl
extensions_eq_refl (x ∷ xs) = ground (arith, bytes_eq_refl x.extension_data, extensions_eq_refl xs)

-- Whatever extensions the other package has, the result is the same: two packages that differ in
-- their extensions only count as equal.
pub equals_any_extensions :
    (kp other : KeyPackage) (el : ExtensionList)
    → key_package_equals kp (record other { extensions = el }) ≡ key_package_equals kp other
unfolding key_package_equals
equals_any_extensions kp other el = refl

basic_credentials :
    (c o : Credential) (a b : BasicCredential)
    → c ≡ record { x509 = none; basic = some a }
    → o ≡ record { x509 = none; basic = some b }
    → credential_equals c o ≡ ok (basic_eq a b)
unfolding credential_equals basic_equals
basic_credentials c o a b ea eb = rw (ea, eb) refl

basic_eq→eq : (a b : BasicCredential) → basic_eq a b ≡ true → a ≡ b
unfolding basic_eq
basic_eq→eq a b e =
    ground (arith, bytes_eq→eq a.identity b.identity, bytes_eq→eq a.public_key b.public_key)

-- Two packages with basic credentials that `Equals` takes for equal agree in every field but the
-- extensions.
pub equals_fields :
    (kp other : KeyPackage) (a b : BasicCredential)
    → kp.credential ≡ record { x509 = none; basic = some a }
    → other.credential ≡ record { x509 = none; basic = some b }
    → key_package_equals kp other ≡ ok true
    → record other { extensions = kp.extensions } ≡ kp
unfolding key_package_equals
equals_fields kp other a b ea eb e = ground (
  arith,
  basic_credentials kp.credential other.credential a b ea eb,
  basic_eq→eq a b,
  bytes_eq→eq kp.init_key other.init_key,
  bytes_eq→eq kp.signature other.signature,
)
