-- ===== src/Examples/Rounds.antt =====
-- Commits and messages between two members of a small group.
use mathlib.Core.Option
use go_mls.Base.{arith, ◌≡◌, refl, none, some, [], ◌∷◌, ok}
use go_mls.KeySchedule.Memory.{Memory}
use go_mls.KeySchedule.Epoch.{KeyScheduleEpoch, new_key_schedule_epoch}
use go_mls.Messages.Plaintext.{MlsPlaintext}
use go_mls.Messages.Welcome.{Welcome}
use go_mls.State.{State, context_with}
use go_mls.Messages.Plaintext.{or_nil}
use go_mls.TreeKem.Hashes.{hash_bytes}
use go_mls.State.Commits.{commit}
use go_mls.State.Handling.{handle}
use go_mls.KeySchedule.Material.{material}
use go_mls.State.Reached.{Later, start, committed, Reached-Later}
use go_mls.State.Agreement.{view}
use go_mls.State.Agreement.Adds.{commit_adds_agree}
use go_mls.Messages.Plaintext.{CommitData}
use go_mls.Examples.Keys.{memory, or_else, empty_epoch}
use go_mls.Examples.Packages.{services-ChecksOut}
use go_mls.Examples.Worlds.{world, hashed_member}
use go_mls.Base.{and_then, bytes_eq}
use go_mls.Credential.{
  basic_eq, basic_equals, credential_equals, credential_public_key, credential_scheme,
}
use go_mls.Crypto.{
  constants, derive_secret, digest, hkdf_expand, hkdf_expand_label, hkdf_extract, new_aead,
  new_digest, or_panic, zero_bytes,
}
use go_mls.Crypto.Aead.{errors_panic, make_aead, or_aead_error}
use go_mls.Crypto.Hpke.{hpke_encrypt, or_hpke_error}
use go_mls.Extensions.{find, read_all}
use go_mls.KeyPackage.{
  after_unix, before_unix, check_signed, extensions_eq, in_lifetime, is_found, key_package_clone,
  key_package_equals, key_package_tbs, key_package_verify, or_error, verify_signature, verify_under,
}
use go_mls.KeySchedule.Epoch.{choose_psk, group_info_key_and_nonce, next_epoch, next_epoch_secret}
use go_mls.KeySchedule.Source.{new_tree_base_key_source}
use go_mls.Messages.{have, path_required, write_behind}
use go_mls.Messages.Content.{
  of_commit, sender_type_member, content_type, marshal_content, write_content,
}
use go_mls.Messages.Plaintext.{
  commit_auth_data, commit_content, commit_of, plaintext_sign, signed_part, to_be_signed,
}
use go_mls.Messages.Welcome.{
  encrypt_to, group_info_sign, group_info_tbs, new_welcome, or_blank_leaf,
}
use go_mls.PrivateTree.{or_no_parent, private_clone, shared_path_secret}
use go_mls.State.{
  signer_public_key, find_proposal, group_context, keep_hashes, proposal_id, state_clone,
  state_root_hash,
}
use go_mls.State.Commits.{
  advance_epoch, commit_message, confirm_transcript, confirmation_of, finish_commit, gather,
  gather_one, interim_transcript, mac_of, make_welcome, new_group_info, or_not_in_tree,
  path_if_required, prepare_commit, ratchet_and_sign, update_epoch_secrets, welcome_all,
}
use go_mls.State.Proposals.{
  apply, apply_add_proposal, apply_found, apply_new, apply_proposal, apply_proposals, mark_new,
  proposal_of, seen, with_nodes,
}
use go_mls.TreeKem.{
  or_stuck, add_leaf, blank, clear_hash, clear_hash_path, each, extend, find_from, find_leaf,
  first_free, is_some, key_package_at, key_package_of, mark_path, mark_unmerged, matches,
  new_leaf_node, new_node, node_at, path_of, size, update,
}
use go_mls.TreeKem.Copies.{dup_hash, node_clone, optional_node_clone, tree_clone}
use go_mls.TreeKem.Hashes.{
  get_hash, leaf_part, or_no_child, or_panic_with, parent_part, read_hash, root_hash,
  set_leaf_node_hash, set_parent_node_hash, store,
}
use go_mls.TreeMath.{
  ancestor, dirpath, dirpath_loop, join_loop, leaf_width, left, level, level_loop, log2, log2_loop,
  node_width, parent, parent_loop, parent_step, right, right_loop, root, to_node_index,
}

abbrev pub seventh_epoch : KeyScheduleEpoch × Memory
seventh_epoch =
    or_else (empty_epoch, memory) (new_key_schedule_epoch world.primitives 1 2 (5 ∷ []) [] memory)

abbrev sender : State
sender = hashed_member seventh_epoch.0 0

abbrev data_sent : CommitData
data_sent = record {
  commit = record { updates = []; removes = []; adds = (2 ∷ 9 ∷ []) ∷ []; path = none };
  confirmation = 7 ∷ 2 ∷ 7 ∷ 1 ∷ [];
}

abbrev message_sent : MlsPlaintext
message_sent = record {
  group_id = 3 ∷ [];
  epoch = 7;
  sender = record { type = sender_type_member; sender = 0 };
  authenticated_data = [];
  content = of_commit data_sent;
  signature = 4 ∷ 7 ∷ 1 ∷ 0 ∷ 3 ∷ 7 ∷ 2 ∷ 7 ∷ 1 ∷ [];
}

abbrev returned : MlsPlaintext × Welcome × State × Memory
returned =
    or_else
      (
        message_sent,
        record {
          version = 0;
          cipher_suite = 0;
          secrets = [];
          encrypted_group_info = [];
          epoch_secret = [];
        },
        sender,
        memory,
      )
      (commit world 500000000000 (λ i j. []) (λ i. []) [] sender memory).0

-- The message above, with what else the call that sends it returns.
abbrev sent : MlsPlaintext × Welcome × State × Memory
sent = (message_sent, returned.1, returned.2, returned.3)

abbrev after_sending : State
after_sending = (commit world 500000000000 (λ i j. []) (λ i. []) [] sender memory).1

sent-run :
    commit world 500000000000 (λ i j. []) (λ i. []) [] sender memory ≡ (ok sent, after_sending)
unfolding add_leaf advance_epoch after_unix ancestor and_then apply apply_add_proposal apply_found
    apply_new apply_proposal apply_proposals basic_eq basic_equals before_unix blank bytes_eq
    check_signed choose_psk clear_hash clear_hash_path commit commit_auth_data commit_content
    commit_message commit_of confirm_transcript confirmation_of constants content_type
    credential_equals credential_public_key credential_scheme derive_secret digest dirpath
    dirpath_loop dup_hash each encrypt_to errors_panic extend extensions_eq find find_from find_leaf
    find_proposal finish_commit first_free gather gather_one get_hash group_context
    group_info_key_and_nonce group_info_sign group_info_tbs have hkdf_expand hkdf_expand_label
    hkdf_extract hpke_encrypt in_lifetime interim_transcript is_found is_some join_loop keep_hashes
    key_package_at key_package_clone key_package_equals key_package_of key_package_tbs
    key_package_verify leaf_part leaf_width left level level_loop log2 log2_loop mac_of make_aead
    make_welcome mark_new mark_path mark_unmerged marshal_content matches new_aead new_digest
    new_group_info new_key_schedule_epoch new_leaf_node new_node new_tree_base_key_source
    new_welcome next_epoch next_epoch_secret node_at node_clone node_width optional_node_clone
    or_aead_error or_blank_leaf or_error or_hpke_error or_no_child or_no_parent or_not_in_tree
    or_panic or_panic_with or_stuck parent parent_loop parent_part parent_step path_if_required
    path_of path_required plaintext_sign prepare_commit private_clone proposal_id proposal_of
    ratchet_and_sign read_all read_hash right right_loop root root_hash seen set_leaf_node_hash
    set_parent_node_hash shared_path_secret signed_part size state_clone state_root_hash store
    to_be_signed to_node_index tree_clone update update_epoch_secrets verify_signature verify_under
    welcome_all with_nodes write_behind write_content zero_bytes Option.bind or_nil context_with
    hash_bytes
sent-run = refl

abbrev receiver : State
receiver = hashed_member seventh_epoch.0 1

abbrev applied : State
applied = or_else receiver (apply world 600000000000 data_sent.commit (state_clone receiver))

commit_adds_agree_example :
    (r : State × Memory) × (handle world 600000000000 sent.0 receiver memory
      ≡ (ok (some r.0, r.1), receiver))
    × (view sent.2 ≡ view r.0)
    × (material r.0.keys r.1 ≡ material sent.2.keys sent.3)
unfolding and_then signer_public_key key_package_at or_blank_leaf key_package_of state_root_hash
    root_hash keep_hashes get_hash read_hash or_panic_with view zero_bytes commit_of apply
    apply_proposals find_proposal proposal_id errors_panic signed_part marshal_content content_type
    write_content write_behind or_error digest new_digest bytes_eq apply_new seen apply_found
    proposal_of apply_proposal apply_add_proposal key_package_verify verify_under verify_signature
    credential_public_key credential_scheme key_package_tbs check_signed in_lifetime find read_all
    after_unix before_unix is_found state_clone add_leaf first_free size leaf_width tree_clone
    node_at to_node_index blank is_some optional_node_clone node_clone dup_hash new_leaf_node
    new_node update extend path_of or_stuck dirpath dirpath_loop Option.bind root log2 log2_loop
    node_width parent parent_loop parent_step level level_loop each mark_path mark_unmerged
    clear_hash_path clear_hash with_nodes mark_new key_package_clone hkdf_extract
commit_adds_agree_example =
    commit_adds_agree world 500000000000 600000000000 (λ i j. []) (λ i. []) [] sender receiver
      after_sending memory memory sent data_sent (or_else [] (zero_bytes 1)) applied
      (record { views = refl; pending = refl })
      (record {
        apart = λ e. omega (arith, e);
        same_extensions = refl;
        same_scheme = refl;
        signs = refl;
        cached = refl;
      })
      services-ChecksOut sent-run refl refl refl refl (λ x. refl)

-- The sender goes one epoch on, with the commit above.
Reached-Later_example : Later world sender 1 sent.2
Reached-Later_example =
    Reached-Later world sender sent.2 1 (omega arith)
      (committed 500000000000 (λ i j. []) (λ i. []) [] memory sent start sent-run)
