-- ===== src/State/Joining.antt =====
-- How a state is made of a welcome message, compared, and saved and loaded with its secrets.
use go_mls.Base.{
  ℕ, zero, suc, ◌+◌, ◌==◌, if◌then◌else◌, Bool, true, ◌&&◌, Option, none, some, List, [], ◌∷◌,
  Bytes, bytes_eq, get_elem?, Outcome, ok, err, panic, ◌>>=◌, guard, undecryptable,
  unsupported_suite, key_mismatch, wrong_confirmation, index_out_of_range,
}
use go_mls.TreeMath.{ancestor}
use go_mls.Credential.{credential_scheme}
use go_mls.KeyPackage.{KeyPackage, SignaturePrivateKey, or_error}
use go_mls.Crypto.{digest}
use go_mls.Crypto.Hpke.{HpkePrivateKey, hpke_derive, hpke_decrypt, hpke_public_key_equals}
use go_mls.Messages.Plaintext.{MlsPlaintext}
use go_mls.Messages.Welcome.{
  GroupSecrets, EncryptedGroupSecrets, Welcome, welcome_decrypt, or_unread,
}
use go_mls.TreeKem.{size, find_leaf}
use go_mls.TreeKem.Copies.{tree_clone, tree_equals}
use go_mls.PrivateTree.{
  TreeKemPrivateKey, empty_private_key, or_no_parent, new_private_key_for_joiner,
}
use go_mls.KeySchedule.Memory.{Memory}
use go_mls.KeySchedule.Epoch.{KeyScheduleEpoch, new_key_schedule_epoch}
use go_mls.State.{World, State, UpdateSecrets, supports_all, group_context}
use go_mls.State.Commits.{or_not_in_tree}
use go_mls.State.Handling.{verify_confirmation}

-- The state that is made of a welcome before the secrets are there.
pub record Blank : Type 0 where
  pub identity_priv : SignaturePrivateKey
  pub scheme : ℕ
  pub keys : KeyScheduleEpoch

-- `for i := LeafIndex(0); i < LeafIndex(s.Tree.Size()); i++`
unfoldable pub all_new : ℕ → ℕ → List (ℕ × Bool)
all_new zero i = []
all_new (suc rest) i = (i, true) ∷ all_new rest (i + 1)

-- The loop over the secrets of a welcome.
unfoldable pub find_secrets : Bytes → List EncryptedGroupSecrets → Option EncryptedGroupSecrets
find_secrets kp_hash [] = none
find_secrets kp_hash (egs ∷ rest) =
    if bytes_eq kp_hash egs.key_package_hash then some egs else find_secrets kp_hash rest

-- `sigPrivs[idx]`
unfoldable pub priv_at : List SignaturePrivateKey → ℕ → Outcome SignaturePrivateKey
priv_at privs i = elim (get_elem? privs i) [ none ↦ panic index_out_of_range | some k ↦ ok k ]

-- What a joiner finds out about its own package.
pub record OwnPackage : Type 0 where
  pub init_priv : HpkePrivateKey
  pub sig_priv : SignaturePrivateKey
  pub key_package : KeyPackage
  pub secrets : EncryptedGroupSecrets

pub record StateSecrets : Type 0 where
  pub cipher_suite : ℕ
  pub index : ℕ
  pub identity_priv : SignaturePrivateKey
  pub scheme : ℕ
  pub pending_proposals : List MlsPlaintext
  pub pending_updates : List (ℕ × UpdateSecrets)
  pub keys : KeyScheduleEpoch
  pub tree_priv : TreeKemPrivateKey

unfoldable pub set_secrets : StateSecrets → State → State
set_secrets ss s = record s {
  cipher_suite = ss.cipher_suite;
  index = ss.index;
  identity_priv = ss.identity_priv;
  scheme = ss.scheme;
  pending_proposals = ss.pending_proposals;
  keys = ss.keys;
  tree_priv = record ss.tree_priv { private_key_cache = [] };
  pending_updates = ss.pending_updates;
}

-- The field `InitPriv` is left empty by the source, and is not here.
unfoldable pub get_secrets : State → StateSecrets
get_secrets s = record {
  cipher_suite = s.cipher_suite;
  index = s.index;
  identity_priv = s.identity_priv;
  scheme = s.scheme;
  pending_proposals = s.pending_proposals;
  pending_updates = s.pending_updates;
  keys = s.keys;
  tree_priv = s.tree_priv;
}

-- `reflect.DeepEqual` of the keys is a parameter, since it looks behind the addresses.
unfoldable pub state_equals :
    (KeyScheduleEpoch → KeyScheduleEpoch → Bool) → State → State → Outcome Bool
state_equals same_keys s o = do
  let suite = s.cipher_suite == o.cipher_suite
  let group_id = bytes_eq s.group_id o.group_id
  let epoch = s.epoch == o.epoch
  tree ← tree_equals s.tree o.tree
  let cth = bytes_eq s.confirmed_transcript_hash o.confirmed_transcript_hash
  let ith = bytes_eq s.interim_transcript_hash o.interim_transcript_hash
  let keys = same_keys s.keys o.keys
  ok (suite && group_id && epoch && tree && cth && ith && keys)

module _ (w : World) where
  -- `NewStateFromWelcome`: the state, the signer and the confirmation. The fields that it leaves
  -- empty take what is in `blank`.
  unfoldable pub new_state_from_welcome : Blank → ℕ → Bytes → Welcome → Outcome (State × ℕ × Bytes)
  new_state_from_welcome blank suite epoch_secret wel = do
    gi ←
        welcome_decrypt w.primitives w.ciphers w.services w.welcome_wire (w.hashing suite) suite
          epoch_secret wel
    let tree = tree_clone gi.tree
    ok (
      record {
        cipher_suite = suite;
        group_id = gi.group_id;
        epoch = gi.epoch;
        tree = tree;
        confirmed_transcript_hash = gi.confirmed_transcript_hash;
        interim_transcript_hash = gi.interim_transcript_hash;
        extensions = gi.extensions;
        index = 0;
        identity_priv = blank.identity_priv;
        tree_priv = empty_private_key 0 0;
        scheme = blank.scheme;
        pending_proposals = [];
        pending_updates = [];
        keys = blank.keys;
        new_credentials = all_new (size tree.nodes) 0;
      },
      gi.signer_index,
      gi.confirmation,
    )

  unfoldable pub own_package :
      Bytes → List SignaturePrivateKey → ℕ → KeyPackage → EncryptedGroupSecrets → Outcome OwnPackage
  own_package init_secret sig_privs i kp egs = do
    init_priv ← hpke_derive w.hpke w.primitives kp.cipher_suite init_secret
    _ ← guard (hpke_public_key_equals init_priv.public_key kp.init_key) key_mismatch
    sig_priv ← priv_at sig_privs i
    ok (record { init_priv = init_priv; sig_priv = sig_priv; key_package = kp; secrets = egs })

  -- The loop over the packages.
  unfoldable pub find_package :
      Bytes → List SignaturePrivateKey → Welcome → ℕ → List KeyPackage → Outcome OwnPackage
  find_package init_secret sig_privs wel i [] = err undecryptable
  find_package init_secret sig_privs wel i (kp ∷ kps) = do
    data' ← or_error (w.welcome_wire.key_package kp)
    kp_hash ← digest w.primitives wel.cipher_suite data'
    elim (find_secrets kp_hash wel.secrets) [
      | some egs ↦ own_package init_secret sig_privs i kp egs
      | none ↦ find_package init_secret sig_privs wel (i + 1) kps
    ]

  unfoldable pub open_group_secrets : Welcome → OwnPackage → Outcome GroupSecrets
  open_group_secrets wel own = do
    _ ← guard (own.key_package.cipher_suite == wel.cipher_suite) unsupported_suite
    pt ← hpke_decrypt w.hpke wel.cipher_suite own.init_priv [] own.secrets.encrypted_group_secrets
    or_unread (w.welcome_wire.group_secrets.decode pt)

  -- The joiner's place in the tree and its private keys.
  unfoldable pub take_place : Bytes → OwnPackage → GroupSecrets → ℕ → State → Outcome State
  take_place init_secret own gs signer s = do
    _ ← supports_all s.extensions own.key_package.extensions
    found ← find_leaf own.key_package s.tree.nodes
    index ← or_not_in_tree found
    common ← or_no_parent (ancestor index signer)
    priv ←
        new_private_key_for_joiner w.primitives s.cipher_suite index (size s.tree.nodes) init_secret
          common gs.path_secret
    ok (record s { index = index; tree_priv = priv })

  -- The key schedule of the joiner, and the confirmation.
  unfoldable pub start_keys : Bytes → Bytes → State → Memory → Outcome (State × Memory)
  start_keys epoch_secret confirmation s m = do
    let hashed = group_context w s
    ctx ← hashed.0
    let s' = hashed.1
    enc ← or_error (w.wire.context ctx)
    (keys, m') ←
        new_key_schedule_epoch w.primitives s'.cipher_suite (size s'.tree.nodes) epoch_secret enc m
    let joined = record s' { keys = keys }
    good ← verify_confirmation w confirmation joined
    _ ← guard good wrong_confirmation
    ok (joined, m')

  unfoldable pub new_joined_state :
      Blank
      → Bytes
      → List SignaturePrivateKey
      → List KeyPackage
      → Welcome
      → Memory
      → Outcome (State × Memory)
  new_joined_state blank init_secret sig_privs kps wel m = do
    own ← find_package init_secret sig_privs wel 0 kps
    gs ← open_group_secrets wel own
    (s, signer, confirmation) ← new_state_from_welcome blank wel.cipher_suite gs.epoch_secret wel
    scheme ← credential_scheme w.services.x509 own.key_package.credential
    s' ←
        take_place init_secret own gs signer
          (record s { identity_priv = own.sig_priv; scheme = scheme })
    start_keys gs.epoch_secret confirmation s' m

  unfoldable pub new_state_from_welcome_and_secrets : Blank → Welcome → StateSecrets → Outcome State
  new_state_from_welcome_and_secrets blank wel ss = do
    (s, _, confirmation) ← new_state_from_welcome blank ss.cipher_suite ss.keys.epoch_secret wel
    let loaded = set_secrets ss s
    good ← verify_confirmation w confirmation loaded
    _ ← guard good wrong_confirmation
    ok loaded
