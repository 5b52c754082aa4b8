-- ===== src/Crypto/Hpke.antt =====
-- The wrapper of crypto.go around the package go-hpke. That package is a parameter: it makes a key
-- pair of a secret, and seals and opens with the algorithms of a suite; sealing draws random bytes.
use go_mls.Base.{
  ℕ, Option, none, some, [], Bytes, bytes_eq, Bool, Outcome, ok, err, ◌>>=◌, hpke_failure,
}
use go_mls.Crypto.{
  Kem, dhkem_x25519, dhkem_p256, dhkem_p521, CipherConstants, Primitives, constants,
  hkdf_expand_label,
}

pub record HpkePrivateKey : Type 0 where
  pub secret : Bytes
  pub public_key : Bytes

pub record HpkeCiphertext : Type 0 where
  pub kem_output : Bytes
  pub ciphertext : Bytes

-- The calls of go-hpke, each with the marshalling that goes with it.
pub record HpkeLibrary : Type 0 where
  pub unmarshal_private : Kem → Bytes → Option HpkePrivateKey
  pub seal_base : CipherConstants → Bytes → Bytes → Bytes → Bytes → Option HpkeCiphertext
  pub open_base : CipherConstants → Bytes → Bytes → HpkeCiphertext → Option Bytes

unfoldable pub hpke_public_key_equals : Bytes → Bytes → Bool
hpke_public_key_equals = bytes_eq

unfoldable pub key_pair_secret_size : Kem → ℕ
key_pair_secret_size dhkem_x25519 = 32
key_pair_secret_size dhkem_p256 = 32
key_pair_secret_size dhkem_p521 = 66

unfoldable pub or_hpke_error {ℓ} : {A : Type ℓ} → Option A → Outcome A
or_hpke_error none = err hpke_failure
or_hpke_error (some a) = ok a

module _ (lib : HpkeLibrary) where
  unfoldable pub hpke_derive : Primitives → ℕ → Bytes → Outcome HpkePrivateKey
  hpke_derive p cs seed = do
    c ← constants cs
    key_pair_secret ← hkdf_expand_label p cs seed "key pair" [] (key_pair_secret_size c.hpke_kem)
    or_hpke_error (lib.unmarshal_private c.hpke_kem key_pair_secret)

  -- The random bytes, the public key, the additional data and the plaintext.
  unfoldable pub hpke_encrypt : ℕ → Bytes → Bytes → Bytes → Bytes → Outcome HpkeCiphertext
  hpke_encrypt cs random pub_key aad pt = do
    c ← constants cs
    or_hpke_error (lib.seal_base c random pub_key aad pt)

  unfoldable pub hpke_decrypt : ℕ → HpkePrivateKey → Bytes → HpkeCiphertext → Outcome Bytes
  hpke_decrypt cs priv aad ct = do
    c ← constants cs
    or_hpke_error (lib.open_base c priv.secret aad ct)
