-- ===== src/Crypto/Aead.antt =====
-- The ciphers of Go's library, which `NewAEAD` of crypto.go builds for a key, as parameters. A key
-- of a wrong length gives none; a nonce of a wrong length panics.
use go_mls.Base.{ℕ, Option, none, some, Bytes, Outcome, ok, err, panic, ◌>>=◌, aead_failure}
use go_mls.Crypto.{AeadFamily, new_aead}

pub record Cipher : Type 0 where
  pub seal : Bytes → Bytes → Bytes → Outcome Bytes
  pub unseal : Bytes → Bytes → Bytes → Outcome Bytes

abbrev pub CipherLibrary : Type 0
CipherLibrary = AeadFamily → Bytes → Option Cipher

unfoldable pub or_aead_error : Option Cipher → Outcome Cipher
or_aead_error none = err aead_failure
or_aead_error (some c) = ok c

unfoldable pub make_aead : CipherLibrary → ℕ → Bytes → Outcome Cipher
make_aead lib cs key = do family ← new_aead cs; or_aead_error (lib family key)

-- A caller that panics on an error.
unfoldable pub errors_panic {ℓ} : {A : Type ℓ} → Outcome A → Outcome A
errors_panic (ok a) = ok a
errors_panic (err why) = panic why
errors_panic (panic why) = panic why

-- `aead, _ := NewAEAD(key)`: a cipher that was not made is nil, and is called.
unfoldable pub aead_unchecked : CipherLibrary → ℕ → Bytes → Outcome Cipher
aead_unchecked lib cs key = errors_panic (make_aead lib cs key)
