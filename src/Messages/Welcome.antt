-- ===== src/Messages/Welcome.antt =====
-- The information on a group that a new member gets, and the message that carries it.
use go_mls.Base.{
  ℕ, ◌==◌, Option, none, some, List, [], ◌∷◌, ◌++◌, Bytes, bytes_eq, Codec, Outcome, ok, err, ◌>>=◌,
  ◌>>◌, guard, blank_leaf, key_mismatch, bad_signature, unmarshal_failure, unsupported_suite,
}
use go_mls.Extensions.{ExtensionList}
use go_mls.Credential.{credential_public_key}
use go_mls.KeyPackage.{KeyPackage, Services, SignaturePrivateKey, or_error, protocol_version_mls10}
use go_mls.Crypto.{Primitives, digest}
use go_mls.Crypto.Hpke.{HpkeCiphertext, HpkeLibrary, hpke_encrypt}
use go_mls.Crypto.Aead.{CipherLibrary, make_aead, errors_panic}
use go_mls.KeySchedule.Epoch.{group_info_key_and_nonce}
use go_mls.TreeKem.{TreeKemPublicKey, key_package_at}
use go_mls.TreeKem.Hashes.{Hashing, set_hash_all}

pub record GroupInfo : Type 0 where
  pub group_id : Bytes
  pub epoch : ℕ
  pub tree : TreeKemPublicKey
  pub confirmed_transcript_hash : Bytes
  pub interim_transcript_hash : Bytes
  pub extensions : ExtensionList
  pub confirmation : Bytes
  pub signer_index : ℕ
  pub signature : Bytes

-- The structure that `toBeSigned` writes.
pub record GroupInfoPart : Type 0 where
  pub group_id : Bytes
  pub epoch : ℕ
  pub tree : TreeKemPublicKey
  pub confirmed_transcript_hash : Bytes
  pub interim_transcript_hash : Bytes
  pub confirmation : Bytes
  pub signer_index : ℕ

pub record GroupSecrets : Type 0 where
  pub epoch_secret : Bytes
  pub path_secret : Option Bytes

pub record EncryptedGroupSecrets : Type 0 where
  pub key_package_hash : Bytes
  pub encrypted_group_secrets : HpkeCiphertext

pub record Welcome : Type 0 where
  pub version : ℕ
  pub cipher_suite : ℕ
  pub secrets : List EncryptedGroupSecrets
  pub encrypted_group_info : Bytes
  pub epoch_secret : Bytes

pub record WelcomeWire : Type 0 where
  pub group_info_part : GroupInfoPart → Option Bytes
  pub group_info : Codec GroupInfo
  pub group_secrets : Codec GroupSecrets
  pub key_package : KeyPackage → Option Bytes

unfoldable pub group_info_part : GroupInfo → GroupInfoPart
group_info_part gi = record {
  group_id = gi.group_id;
  epoch = gi.epoch;
  tree = gi.tree;
  confirmed_transcript_hash = gi.confirmed_transcript_hash;
  interim_transcript_hash = gi.interim_transcript_hash;
  confirmation = gi.confirmation;
  signer_index = gi.signer_index;
}

unfoldable pub or_blank_leaf : Option KeyPackage → Outcome KeyPackage
or_blank_leaf none = err blank_leaf
or_blank_leaf (some kp) = ok kp

-- What was read of a stream of bytes; what stands behind it is ignored.
unfoldable pub or_unread {ℓ} : {A : Type ℓ} → Option (A × ℕ) → Outcome A
or_unread none = err unmarshal_failure
or_unread (some (a, n)) = ok a

module _ (sv : Services) (w : WelcomeWire) where
  unfoldable pub group_info_tbs : GroupInfo → Outcome Bytes
  group_info_tbs gi = or_error (w.group_info_part (group_info_part gi))

  unfoldable pub group_info_sign : ℕ → SignaturePrivateKey → GroupInfo → Outcome GroupInfo
  group_info_sign index priv gi = do
    o ← key_package_at index gi.tree.nodes
    kp ← or_blank_leaf o
    scheme ← sv.scheme_of_suite kp.cipher_suite
    pub_key ← credential_public_key sv.x509 kp.credential
    guard (bytes_eq pub_key priv.public_key) key_mismatch
    tbs ← group_info_tbs (record gi { signer_index = index })
    sig ← or_error (sv.sign scheme priv tbs)
    ok (record gi { signer_index = index; signature = sig })

  unfoldable pub group_info_verify : GroupInfo → Outcome (Unit {0})
  group_info_verify gi = do
    o ← key_package_at gi.signer_index gi.tree.nodes
    kp ← or_blank_leaf o
    scheme ← sv.scheme_of_suite kp.cipher_suite
    pub_key ← credential_public_key sv.x509 kp.credential
    tbs ← group_info_tbs gi
    guard (sv.check scheme pub_key tbs gi.signature) bad_signature

module _ (p : Primitives) (ciphers : CipherLibrary) where
  unfoldable pub new_welcome : WelcomeWire → ℕ → Bytes → GroupInfo → Outcome Welcome
  new_welcome w cs epoch_secret gi = do
    pt ← errors_panic (or_error (w.group_info.encode gi))
    kn ← group_info_key_and_nonce p cs epoch_secret
    aead ← errors_panic (make_aead ciphers cs kn.0)
    ct ← aead.seal kn.1 pt []
    ok (record {
      version = protocol_version_mls10;
      cipher_suite = cs;
      secrets = [];
      encrypted_group_info = ct;
      epoch_secret = epoch_secret;
    })

  -- `Decrypt`. The error of `SetHashAll` is dropped; the tree is then verified as it is.
  unfoldable pub welcome_decrypt :
      Services → WelcomeWire → Hashing → ℕ → Bytes → Welcome → Outcome GroupInfo
  welcome_decrypt sv w h suite epoch_secret wel = do
    kn ← group_info_key_and_nonce p suite epoch_secret
    aead ← make_aead ciphers suite kn.0
    data' ← aead.unseal kn.1 wel.encrypted_group_info []
    gi ← or_unread (w.group_info.decode data')
    let hashed = set_hash_all h gi.tree.nodes
    _ ← hashed.0
    let gi' = record gi { tree = record { suite = suite; nodes = hashed.1 } }
    _ ← group_info_verify sv w gi'
    ok gi'

-- `EncryptTo`; any error panics. The random bytes are those that the encryption draws.
unfoldable pub encrypt_to :
    Primitives
    → HpkeLibrary
    → WelcomeWire
    → Bytes
    → KeyPackage
    → Option Bytes
    → Welcome
    → Outcome Welcome
encrypt_to p lib w random kp path_secret wel = do
  _ ← errors_panic (guard (kp.cipher_suite == wel.cipher_suite) unsupported_suite)
  data' ← errors_panic (or_error (w.key_package kp))
  kp_hash ← digest p wel.cipher_suite data'
  pt ← errors_panic (
      or_error (
        w.group_secrets.encode
          (record { epoch_secret = wel.epoch_secret; path_secret = path_secret })))
  egs ← errors_panic (hpke_encrypt lib wel.cipher_suite random kp.init_key [] pt)
  ok (record wel {
    secrets =
        wel.secrets ++ record { key_package_hash = kp_hash; encrypted_group_secrets = egs } ∷ [];
  })
