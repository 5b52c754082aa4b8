-- ===== src/Crypto.antt =====
-- crypto.go: the cipher suites with their tables, and the derivations on top of HMAC.
-- The hash functions and HMAC are those of Go's library, and the package go-tls-syntax writes the
-- label structures: both are parameters. An unknown suite panics, as in the source.
pub mod Suites
pub mod Expand
pub mod Hpke
pub mod Aead
use go_mls.Base.{
  ℕ, zero, suc, ◌+◌, ◌%◌, ◌^◌, ltb, ◌==◌, if◌then◌else◌, Bool, true, false, ◌||◌, Option, none,
  some, List, [], ◌∷◌, ◌++◌, length, replicate, Bytes, Outcome, ok, panic, ◌>>=◌, unsupported_suite,
  marshal_failure, ascii,
}
use Prim.Native.String.{String}

abbrev pub x25519_aes128gcm_sha256_ed25519 : ℕ
x25519_aes128gcm_sha256_ed25519 = 0x0001

abbrev pub p256_aes128gcm_sha256_p256 : ℕ
p256_aes128gcm_sha256_p256 = 0x0002

abbrev pub x25519_chacha20poly1305_sha256_ed25519 : ℕ
x25519_chacha20poly1305_sha256_ed25519 = 0x0003

abbrev pub x448_aes256gcm_sha512_ed448 : ℕ
x448_aes256gcm_sha512_ed448 = 0x0004

abbrev pub p521_aes256gcm_sha512_p521 : ℕ
p521_aes256gcm_sha512_p521 = 0x0005

abbrev pub x448_chacha20poly1305_sha512_ed448 : ℕ
x448_chacha20poly1305_sha512_ed448 = 0x0006

unfoldable pub supported : ℕ → Bool
supported cs =
    cs == x25519_aes128gcm_sha256_ed25519
    || cs == p256_aes128gcm_sha256_p256
    || cs == p521_aes256gcm_sha512_p521
    || cs == x25519_chacha20poly1305_sha256_ed25519

pub data Kem : Type 0 where
  dhkem_x25519 dhkem_p256 dhkem_p521 : Kem

pub data Kdf : Type 0 where
  kdf_hkdf_sha256 kdf_hkdf_sha512 : Kdf

pub data AeadId : Type 0 where
  aead_aesgcm128 aead_aesgcm256 aead_chacha20poly1305 : AeadId

pub record CipherConstants : Type 0 where
  pub key_size : ℕ
  pub nonce_size : ℕ
  pub secret_size : ℕ
  pub hpke_kem : Kem
  pub hpke_kdf : Kdf
  pub hpke_aead : AeadId

unfoldable pub constants : ℕ → Outcome CipherConstants
constants cs =
    if cs == x25519_aes128gcm_sha256_ed25519
    then ok (record {
      key_size = 16;
      nonce_size = 12;
      secret_size = 32;
      hpke_kem = dhkem_x25519;
      hpke_kdf = kdf_hkdf_sha256;
      hpke_aead = aead_aesgcm128;
    })
    else if cs == p256_aes128gcm_sha256_p256
    then ok (record {
      key_size = 16;
      nonce_size = 12;
      secret_size = 32;
      hpke_kem = dhkem_p256;
      hpke_kdf = kdf_hkdf_sha256;
      hpke_aead = aead_aesgcm128;
    })
    else if cs == x25519_chacha20poly1305_sha256_ed25519
    then ok (record {
      key_size = 32;
      nonce_size = 12;
      secret_size = 32;
      hpke_kem = dhkem_x25519;
      hpke_kdf = kdf_hkdf_sha256;
      hpke_aead = aead_chacha20poly1305;
    })
    else if cs == p521_aes256gcm_sha512_p521
    then ok (record {
      key_size = 32;
      nonce_size = 12;
      secret_size = 64;
      hpke_kem = dhkem_p521;
      hpke_kdf = kdf_hkdf_sha512;
      hpke_aead = aead_aesgcm256;
    })
    else panic unsupported_suite

pub data SignatureScheme : Type 0 where
  ecdsa_secp256r1_sha256 ecdsa_secp521r1_sha512 ed25519 : SignatureScheme

unfoldable pub scheme : ℕ → Outcome SignatureScheme
scheme cs =
    if cs == x25519_aes128gcm_sha256_ed25519
    then ok ed25519
    else if cs == p256_aes128gcm_sha256_p256
    then ok ecdsa_secp256r1_sha256
    else if cs == x25519_chacha20poly1305_sha256_ed25519
    then ok ed25519
    else if cs == p521_aes256gcm_sha512_p521
    then ok ecdsa_secp521r1_sha512
    else panic unsupported_suite

pub data Hash : Type 0 where
  sha256 sha512 : Hash

unfoldable pub new_digest : ℕ → Outcome Hash
new_digest cs =
    if cs == x25519_aes128gcm_sha256_ed25519
      || cs == p256_aes128gcm_sha256_p256
      || cs == x25519_chacha20poly1305_sha256_ed25519
    then ok sha256
    else if cs == x448_aes256gcm_sha512_ed448 || cs == p521_aes256gcm_sha512_p521
    then ok sha512
    else panic unsupported_suite

-- Which cipher `NewAEAD` builds. The key's length picks the AES variant.
pub data AeadFamily : Type 0 where
  aes_gcm chacha20poly1305 : AeadFamily

unfoldable pub new_aead : ℕ → Outcome AeadFamily
new_aead cs =
    if cs == x25519_aes128gcm_sha256_ed25519
      || cs == p256_aes128gcm_sha256_p256
      || cs == x448_aes256gcm_sha512_ed448
      || cs == p521_aes256gcm_sha512_p521
    then ok aes_gcm
    else if cs == x25519_chacha20poly1305_sha256_ed25519
    then ok chacha20poly1305
    else panic unsupported_suite

abbrev pub size : Hash → ℕ
size sha256 = 32
size sha512 = 64

-- The hash functions, HMAC and the marshalling of the two label structures.
pub record Primitives : Type 0 where
  pub sum : Hash → Bytes → Bytes
  pub hmac : Hash → Bytes → Bytes → Bytes
  pub marshal_label : ℕ → Bytes → Bytes → Option Bytes
  pub marshal_context : ℕ → ℕ → Option Bytes

unfoldable pub or_panic : Option Bytes → Outcome Bytes
or_panic none = panic marshal_failure
or_panic (some b) = ok b

unfoldable pub zero_bytes : ℕ → Outcome Bytes
zero_bytes cs = do h ← new_digest cs; ok (replicate (size h) 0)

-- `buf[:size]`
unfoldable pub take : ℕ → Bytes → Bytes
take zero b = []
take (suc n) [] = []
take (suc n) (x ∷ b) = x ∷ take n b

module _ (p : Primitives) where
  unfoldable pub digest : ℕ → Bytes → Outcome Bytes
  digest cs d = do h ← new_digest cs; ok (p.sum h d)

  unfoldable pub hkdf_extract : ℕ → Bytes → Bytes → Outcome Bytes
  hkdf_extract cs salt ikm = do h ← new_digest cs; ok (p.hmac h salt ikm)

  -- `for len(buf) < size`, and what follows the loop. The counter is a byte. Each round appends a
  -- MAC, so `size` rounds and one for the last test are enough unless MACs are empty.
  unfoldable pub expand_loop : ℕ → Hash → Bytes → Bytes → ℕ → Bytes → ℕ → Bytes → Bytes
  expand_loop zero h secret info n last counter buf = take n buf
  expand_loop (suc fuel) h secret info n last counter buf = elim (ltb (length buf) n) [
    | true ↦
        let mac = p.hmac h secret (last ++ info ++ counter ∷ []) in
        expand_loop fuel h secret info n mac ((counter + 1) % 256) (buf ++ mac)
    | false ↦ take n buf
  ]

  unfoldable pub hkdf_expand : ℕ → Bytes → Bytes → ℕ → Outcome Bytes
  hkdf_expand cs secret info n = do
    h ← new_digest cs
    ok (expand_loop (suc n) h secret info n [] 1 [])

  unfoldable pub hkdf_expand_label : ℕ → Bytes → String → Bytes → ℕ → Outcome Bytes
  hkdf_expand_label cs secret label context n = do
    label_data ← or_panic (p.marshal_label (n % 2 ^ 16) (ascii "mls10 " ++ ascii label) context)
    hkdf_expand cs secret label_data n

  unfoldable pub derive_secret : ℕ → Bytes → String → Bytes → Outcome Bytes
  derive_secret cs secret label context = do
    context_hash ← digest cs context
    c ← constants cs
    hkdf_expand_label cs secret label context_hash c.secret_size

  unfoldable pub derive_app_secret : ℕ → Bytes → String → ℕ → ℕ → ℕ → Outcome Bytes
  derive_app_secret cs secret label node generation n = do
    ctx ← or_panic (p.marshal_context node generation)
    hkdf_expand_label cs secret label ctx n
