-- ===== src/Crypto/Suites.antt =====
-- The tables of the cipher suites in crypto.go, side by side.
use go_mls.Base.{
  ℕ, ◌≡◌, refl, sym, subst, arith, true, false, ok, panic, unsupported_suite, ◌⊎◌, inl, inr,
}
use go_mls.Crypto.{
  supported, CipherConstants, constants, scheme, new_digest, new_aead, size, Hash, SignatureScheme,
  AeadFamily,
}

-- What the tables say of a suite that can be used.
pub record Usable (cs : ℕ) : Type 0 where
  pub constants_of : CipherConstants
  pub hash_of : Hash
  pub scheme_of : SignatureScheme
  pub family_of : AeadFamily
  pub has_constants : constants cs ≡ ok constants_of
  pub has_hash : new_digest cs ≡ ok hash_of
  pub has_scheme : scheme cs ≡ ok scheme_of
  pub has_aead : new_aead cs ≡ ok family_of
  pub secret_is_hash : constants_of.secret_size ≡ size hash_of

Usable-one : Usable 1
unfolding constants new_digest scheme new_aead
Usable-one = record {
  constants_of = _;
  hash_of = _;
  scheme_of = _;
  family_of = _;
  has_constants = refl;
  has_hash = refl;
  has_scheme = refl;
  has_aead = refl;
  secret_is_hash = refl;
}

Usable-two : Usable 2
unfolding constants new_digest scheme new_aead
Usable-two = record {
  constants_of = _;
  hash_of = _;
  scheme_of = _;
  family_of = _;
  has_constants = refl;
  has_hash = refl;
  has_scheme = refl;
  has_aead = refl;
  secret_is_hash = refl;
}

Usable-three : Usable 3
unfolding constants new_digest scheme new_aead
Usable-three = record {
  constants_of = _;
  hash_of = _;
  scheme_of = _;
  family_of = _;
  has_constants = refl;
  has_hash = refl;
  has_scheme = refl;
  has_aead = refl;
  secret_is_hash = refl;
}

Usable-five : Usable 5
unfolding constants new_digest scheme new_aead
Usable-five = record {
  constants_of = _;
  hash_of = _;
  scheme_of = _;
  family_of = _;
  has_constants = refl;
  has_hash = refl;
  has_scheme = refl;
  has_aead = refl;
  secret_is_hash = refl;
}

supported_cases : (cs : ℕ) → supported cs ≡ true → (cs ≡ 1) ⊎ ((cs ≡ 2) ⊎ ((cs ≡ 3) ⊎ (cs ≡ 5)))
unfolding supported
supported_cases cs h = ground arith

-- Every supported suite has constants, a hash, a signature scheme and an AEAD, so none of these
-- panics, and its secrets are as long as its hash.
pub supported-Usable : (cs : ℕ) → supported cs ≡ true → Usable cs
supported-Usable cs h = elim (supported_cases cs h) [
  | inl e ↦ subst Usable (sym e) Usable-one
  | inr (inl e) ↦ subst Usable (sym e) Usable-two
  | inr (inr (inl e)) ↦ subst Usable (sym e) Usable-three
  | inr (inr (inr e)) ↦ subst Usable (sym e) Usable-five
]

-- Any other suite panics where constants or a signature scheme are asked for.
pub unsupported_panics :
    (cs : ℕ)
    → supported cs ≡ false
    → (constants cs ≡ panic unsupported_suite) × (scheme cs ≡ panic unsupported_suite)
unfolding supported constants scheme
unsupported_panics cs h = ground arith
