-- ===== src/State.antt =====
-- state.go: the state that a member keeps of a group. A tree's hashes are cached in the slice of its
-- nodes, which copies of the state by value share: a method that asks for the root hash gives the
-- state with them. The pending updates are a map that `Clone` does not copy; here each state has its
-- own. The byte slices of the key schedule stand in a memory.
pub mod Proposals
pub mod Commits
pub mod Handling
pub mod Protection
pub mod Joining
pub mod Frame
pub mod Standing
pub mod Agreement
pub mod Reached
use go_mls.Base.{
  ℕ, zero, suc, ◌+◌, ◌*◌, ◌^◌, ◌==◌, ltb, if◌then◌else◌, Bool, true, false, not, Option, none, some,
  List, [], ◌∷◌, ◌++◌, Bytes, Codec, bytes_eq, get_elem?, insert, lookup, bit_or, replicate,
  Outcome, ok, err, panic, ◌>>=◌, ◌>>◌, and_then, guard, index_out_of_range, unsupported_extension,
  blank_leaf, wrong_sender, wrong_group, wrong_epoch,
}
use go_mls.Extensions.{ExtensionList, Extension, has}
use go_mls.Credential.{credential_scheme, credential_public_key}
use go_mls.KeyPackage.{KeyPackage, Services, SignaturePrivateKey, or_error}
use go_mls.Crypto.{Primitives, digest, new_digest, size}
use go_mls.Crypto.Hpke.{HpkeLibrary}
use go_mls.Crypto.Aead.{CipherLibrary, errors_panic}
use go_mls.Messages.{Proposal}
use go_mls.Messages.Content.{MlsPlaintextContent, of_proposal, sender_type_member}
use go_mls.Messages.Plaintext.{
  GroupContext, Sender, MlsPlaintext, PlaintextWire, signed_part, plaintext_sign,
}
use go_mls.Messages.Welcome.{WelcomeWire, or_blank_leaf}
use go_mls.TreeKem.{Nodes, TreeKemPublicKey, key_package_at, add_leaf, new_tree}
use go_mls.TreeKem.Hashes.{Hashing, root_hash}
use go_mls.TreeKem.Merge.{ParentHashing}
use go_mls.TreeKem.Copies.{tree_clone}
use go_mls.PrivateTree.{TreeKemPrivateKey, private_clone, new_private_key}
use go_mls.KeySchedule.Memory.{Memory}
use go_mls.KeySchedule.Epoch.{KeyScheduleEpoch, new_key_schedule_epoch}

-- How `encrypt` and `decrypt` write and read: the sender data, and the data that is authenticated.
pub record ProtectionWire : Type 0 where
  pub sender_data : ℕ → ℕ → Bytes → Option Bytes
  pub read_sender_data : Bytes → Option (ℕ × ℕ × Bytes)
  pub sender_data_aad : Bytes → ℕ → ℕ → Bytes → Option Bytes
  pub content_aad : Bytes → ℕ → ℕ → Bytes → Bytes → Bytes → Option Bytes
  pub signature : Codec Bytes

-- What the state takes from elsewhere. The hashes of a tree depend on its suite.
pub record World : Type 0 where
  pub primitives : Primitives
  pub services : Services
  pub hashing : ℕ → Hashing
  pub parent_hashing : ParentHashing
  pub hpke : HpkeLibrary
  pub ciphers : CipherLibrary
  pub wire : PlaintextWire
  pub welcome_wire : WelcomeWire
  pub protection_wire : ProtectionWire

pub record UpdateSecrets : Type 0 where
  pub secret : Bytes
  pub identity_priv : Option SignaturePrivateKey

pub record State : Type 0 where
  pub cipher_suite : ℕ
  pub group_id : Bytes
  pub epoch : ℕ
  pub tree : TreeKemPublicKey
  pub confirmed_transcript_hash : Bytes
  pub interim_transcript_hash : Bytes
  pub extensions : ExtensionList
  pub index : ℕ
  pub identity_priv : SignaturePrivateKey
  pub tree_priv : TreeKemPrivateKey
  pub scheme : ℕ
  pub pending_proposals : List MlsPlaintext
  pub pending_updates : List (ℕ × UpdateSecrets)
  pub keys : KeyScheduleEpoch
  pub new_credentials : List (ℕ × Bool)

-- `for i := uint(0); i < 8; i++ { ref |= uint64(id.Hash[i]) << i }`, from round i on.
unfoldable pub ref_loop : ℕ → ℕ → ℕ → Bytes → Outcome ℕ
ref_loop zero i ref id = ok ref
ref_loop (suc rounds) i ref id = elim (get_elem? id i) [
  | none ↦ panic index_out_of_range
  | some b ↦ ref_loop rounds (suc i) (bit_or ref (b * 2 ^ i)) id
]

unfoldable pub to_ref : Bytes → Outcome ℕ
to_ref id = ref_loop 8 0 0 id

-- The checks that a member supports each extension of the group.
unfoldable pub supports_all : ExtensionList → ExtensionList → Outcome (Unit {0})
supports_all [] mine = ok tt
supports_all (e ∷ es) mine =
    if has mine e.extension_type then supports_all es mine else err unsupported_extension

-- `State.Clone`: the extensions, the confirmed transcript hash and the new credentials are left out.
unfoldable pub state_clone : State → State
state_clone s = record s {
  tree = tree_clone s.tree;
  confirmed_transcript_hash = [];
  extensions = [];
  tree_priv = private_clone s.tree_priv;
  new_credentials = [];
}

-- `Tree.RootHash()`
unfoldable pub keep_hashes : Outcome (Bytes × Nodes) → State → Outcome Bytes × State
keep_hashes (ok (b, ns)) s = (ok b, record s { tree = record { suite = s.tree.suite; nodes = ns } })
keep_hashes (err why) s = (err why, s)
keep_hashes (panic why) s = (panic why, s)

unfoldable pub state_root_hash : World → State → Outcome Bytes × State
state_root_hash w s = keep_hashes (root_hash (w.hashing s.tree.suite) s.tree.nodes) s

unfoldable pub context_with : ExtensionList → State → Bytes → GroupContext
context_with exts s tree_hash = record {
  group_id = s.group_id;
  epoch = s.epoch;
  tree_hash = tree_hash;
  confirmed_transcript_hash = s.confirmed_transcript_hash;
  extensions = exts;
}

module _ (w : World) where
  unfoldable pub group_context : State → Outcome GroupContext × State
  group_context s =
      and_then (state_root_hash w s) (λ b s'. (ok (context_with s.extensions s b), s'))

  -- `proposalID`; an error panics.
  unfoldable pub proposal_id : State → MlsPlaintext → Outcome Bytes
  proposal_id s pt = do
    part ← errors_panic (signed_part w.wire pt)
    enc ← errors_panic (or_error (w.wire.plaintext part pt.signature))
    digest w.primitives s.cipher_suite enc

  -- The loop of `findProposal`.
  unfoldable pub find_proposal : State → Bytes → List MlsPlaintext → Outcome (Option MlsPlaintext)
  find_proposal s id [] = ok none
  find_proposal s id (pt ∷ pts) = do
    other ← proposal_id s pt
    elim (bytes_eq other id) [ true ↦ ok (some pt) | false ↦ find_proposal s id pts ]

  -- `State.sign` of a proposal.
  unfoldable pub state_sign : Proposal → State → Outcome MlsPlaintext × State
  state_sign p s = and_then (group_context s) (λ ctx s'. (
    plaintext_sign w.wire w.services ctx s.identity_priv s.scheme (record {
      group_id = s.group_id;
      epoch = s.epoch;
      sender = record { type = sender_type_member; sender = s.index };
      authenticated_data = [];
      content = of_proposal p;
      signature = [];
    }),
    s',
  ))

  unfoldable pub signer_public_key : Sender → State → Outcome Bytes
  signer_public_key sender s =
      if sender.type == sender_type_member
      then (key_package_at sender.sender s.tree.nodes >>= λ o.
          or_blank_leaf o >>= λ kp. credential_public_key w.services.x509 kp.credential)
      else err wrong_sender

  -- `NewEmptyStateWithExtensions`. The state shares its key with the package.
  unfoldable pub new_empty_state_with_extensions :
      Bytes
      → Bytes
      → SignaturePrivateKey
      → KeyPackage
      → ExtensionList
      → Memory
      → Outcome (State × Memory)
  new_empty_state_with_extensions group_id leaf_secret sig_priv kp exts m = do
    let suite = kp.cipher_suite
    (index, nodes) ← add_leaf kp []
    tree_priv ← new_private_key w.primitives suite (go_mls.TreeKem.size nodes) index leaf_secret
    _ ← supports_all exts kp.extensions
    h ← new_digest suite
    (keys, m') ← new_key_schedule_epoch w.primitives suite 1 (replicate (size h) 0) [] m
    scheme ← credential_scheme w.services.x509 kp.credential
    ok (
      record {
        cipher_suite = suite;
        group_id = group_id;
        epoch = 0;
        tree = record { suite = suite; nodes = nodes };
        confirmed_transcript_hash = [];
        interim_transcript_hash = [];
        extensions = exts;
        index = 0;
        identity_priv = sig_priv;
        tree_priv = tree_priv;
        scheme = scheme;
        pending_proposals = [];
        pending_updates = [];
        keys = keys;
        new_credentials = [];
      },
      m',
    )

  unfoldable pub new_empty_state :
      Bytes → Bytes → SignaturePrivateKey → KeyPackage → Memory → Outcome (State × Memory)
  new_empty_state group_id leaf_secret sig_priv kp m =
      new_empty_state_with_extensions group_id leaf_secret sig_priv kp [] m
