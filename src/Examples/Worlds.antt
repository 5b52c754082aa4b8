-- ===== src/Examples/Worlds.antt =====
-- A world in which everything that is taken from elsewhere is a small function, and two members of
-- a group in it.
use go_mls.Base.{ℕ, none, some, List, [], ◌∷◌, ◌++◌, length, Bytes, Codec, ok}
use go_mls.Extensions.{parent_hash_body, ParentHashExtension}
use go_mls.KeyPackage.{KeyPackage}
use go_mls.Crypto.Hpke.{HpkeLibrary}
use go_mls.Crypto.Aead.{CipherLibrary}
use go_mls.Messages.{Proposal, added}
use go_mls.Messages.Content.{ContentCodecs, of_proposal, sender_type_member}
use go_mls.Messages.Plaintext.{MlsPlaintext, CommitData, PlaintextWire}
use go_mls.Messages.Welcome.{WelcomeWire}
use go_mls.TreeKem.{Nodes, new_leaf_node, new_node}
use go_mls.TreeKem.Merge.{ParentHashing}
use go_mls.PrivateTree.{TreeKemPrivateKey}
use go_mls.KeySchedule.Epoch.{KeyScheduleEpoch}
use go_mls.State.{World, ProtectionWire, State}
use go_mls.Examples.Suites.{primitives}
use go_mls.Examples.Packages.{services, alice_key, alice_package, made_extensions}
use go_mls.Examples.Trees.{hashing}
use go_mls.Examples.Unions.{byte}

abbrev bytes_codec : Codec Bytes
bytes_codec = record { encode = λ b. some (length b ∷ b); decode = λ b. some (b, length b) }

abbrev proposal_codec : Codec Proposal
proposal_codec = record { encode = λ p. some (9 ∷ []); decode = λ b. none }

abbrev commit_codec : Codec CommitData
commit_codec = record { encode = λ d. some d.confirmation; decode = λ b. none }

abbrev pub content_codecs : ContentCodecs Bytes Proposal CommitData
content_codecs = record {
  tag = byte;
  application = bytes_codec;
  proposal = proposal_codec;
  commit = commit_codec;
}

abbrev plaintext_wire : PlaintextWire
plaintext_wire = record {
  content = content_codecs;
  context = λ c. some (c.epoch ∷ c.tree_hash);
  signed_part = λ start p. some (start ++ p.content);
  commit_part = λ c. some (c.epoch ∷ length c.commit.adds ∷ []);
  auth_data = λ confirmation signature. some (confirmation ++ signature);
  plaintext = λ p signature. some (p.content ++ signature);
}

abbrev welcome_wire : WelcomeWire
welcome_wire = record {
  group_info_part = λ gi. some gi.group_id;
  group_info = record { encode = λ gi. some gi.group_id; decode = λ b. none };
  group_secrets = record { encode = λ s. some s.epoch_secret; decode = λ b. none };
  key_package = λ kp. some kp.init_key;
}

abbrev protection_wire : ProtectionWire
protection_wire = record {
  sender_data = λ sender generation reuse_guard. some (sender ∷ generation ∷ reuse_guard);
  read_sender_data = λ b. none;
  sender_data_aad = λ group_id epoch type nonce. some group_id;
  content_aad = λ group_id epoch type authenticated nonce sender_data. some authenticated;
  signature = bytes_codec;
}

-- The public key of a secret is the secret; what is sealed stands in the ciphertext.
abbrev pub hpke : HpkeLibrary
hpke = record {
  unmarshal_private = λ kem b. some (record { secret = b; public_key = b });
  seal_base = λ c random pub_key aad pt. some (record { kem_output = pub_key; ciphertext = pt });
  open_base = λ c priv aad ct. some ct.ciphertext;
}

abbrev ciphers : CipherLibrary
ciphers family key = some (record { seal = λ nonce pt aad. ok pt; unseal = λ nonce ct aad. ok ct })

abbrev hash_body : Codec ParentHashExtension
hash_body = record { encode = λ e. some e.parent_hash; decode = λ b. none }

abbrev pub parent_hashing : ParentHashing
parent_hashing = record {
  marshal_parent = λ p. some p.public_key;
  parent_hash_body = parent_hash_body hash_body;
}

abbrev pub world : World
world = record {
  primitives = primitives;
  services = services;
  hashing = λ suite. hashing;
  parent_hashing = parent_hashing;
  hpke = hpke;
  ciphers = ciphers;
  wire = plaintext_wire;
  welcome_wire = welcome_wire;
  protection_wire = protection_wire;
}

-- Packages of two members and of a third person.
abbrev first_member : KeyPackage
first_member = alice_package [] []

abbrev second_member : KeyPackage
second_member = alice_package [] (5 ∷ [])

abbrev joiner : KeyPackage
joiner = alice_package made_extensions (4 ∷ 0 ∷ 1 ∷ 6 ∷ [])

abbrev pub add_of_joiner : MlsPlaintext
add_of_joiner = record {
  group_id = 3 ∷ [];
  epoch = 7;
  sender = record { type = sender_type_member; sender = 0 };
  authenticated_data = [];
  content = of_proposal (added (record { key_package = joiner }));
  signature = [];
}

abbrev pub own_keys : ℕ → TreeKemPrivateKey
own_keys index = record {
  suite = 1;
  index = index;
  update_secret = [];
  path_secrets = [];
  private_key_cache = [];
}

-- A member of a group of two, who was told of the third person.
abbrev pub member : KeyScheduleEpoch → ℕ → State
member keys index = record {
  cipher_suite = 1;
  group_id = 3 ∷ [];
  epoch = 7;
  tree = record {
    suite = 1;
    nodes = new_leaf_node first_member ∷ new_node ∷ new_leaf_node second_member ∷ [];
  };
  confirmed_transcript_hash = 1 ∷ [];
  interim_transcript_hash = 2 ∷ [];
  extensions = [];
  index = index;
  identity_priv = alice_key;
  tree_priv = own_keys index;
  scheme = 0x0807;
  pending_proposals = add_of_joiner ∷ [];
  pending_updates = [];
  keys = keys;
  new_credentials = [];
}

-- A tree whose hashes are known.
abbrev pub with_hashes : List Bytes → Nodes → Nodes
with_hashes [] ns = ns
with_hashes (h ∷ hs) [] = []
with_hashes (h ∷ hs) (n ∷ ns) = record n { hash = some h } ∷ with_hashes hs ns

abbrev pub hashes_of_two : List Bytes
hashes_of_two = (0 ∷ []) ∷ (1 ∷ 0 ∷ []) ∷ (1 ∷ []) ∷ []

abbrev pub hashed_member : KeyScheduleEpoch → ℕ → State
hashed_member keys index =
    let s = member keys index in
    record s { tree = record { suite = 1; nodes = with_hashes hashes_of_two s.tree.nodes } }
