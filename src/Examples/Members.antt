-- ===== src/Examples/Members.antt =====
-- One member: the messages it takes, its path secrets, copies of its tree and its epochs.
use go_mls.Base.{and_then, bytes_eq, ◌≡◌, refl, arith, none, [], ◌∷◌, ok}
use go_mls.TreeMath.{
  node_width, parent, root, log2, log2_loop, parent_loop, parent_step, level, level_loop,
  to_node_index, leaf_width, left, right, right_loop,
}
use go_mls.Crypto.{
  zero_bytes, new_digest, hkdf_extract, derive_secret, digest, constants, hkdf_expand_label,
  or_panic, hkdf_expand,
}
use go_mls.Messages.Content.{
  marshal_content, content_type, write_content, of_proposal, sender_type_member,
}
use go_mls.Messages.{removed_member, write_behind}
use go_mls.Messages.Plaintext.{MlsPlaintext, plaintext_verify, to_be_signed, signed_part}
use go_mls.Messages.Welcome.{or_blank_leaf}
use go_mls.Credential.{credential_public_key, credential_scheme}
use go_mls.KeyPackage.{or_error}
use go_mls.Crypto.Aead.{errors_panic}
use go_mls.TreeKem.{
  TreeKemPublicKey, new_node, key_package_at, node_at, key_package_of, new_leaf_node, size, update,
}
use go_mls.TreeKem.Copies.{tree_clone}
use go_mls.TreeKem.Copies.Lost.{root_hash-tree_clone}
use go_mls.TreeKem.Hashes.{
  root_hash, or_panic_with, get_hash, store, read_hash, set_leaf_node_hash, set_parent_node_hash,
  leaf_part, parent_part, or_no_child, hash_bytes,
}
use go_mls.KeySchedule.Memory.{Memory}
use go_mls.KeySchedule.Epoch.{
  KeyScheduleEpoch, next_epoch, next_epoch_secret, choose_psk, new_key_schedule_epoch,
}
use go_mls.KeySchedule.Source.{new_tree_base_key_source}
use go_mls.KeySchedule.Material.{material, Extracted, Scheduled}
use go_mls.KeySchedule.Agreement.{secrets, next_epoch_agree}
use go_mls.State.{
  State, context_with, signer_public_key, group_context, state_root_hash, keep_hashes,
}
use go_mls.State.Handling.{handle, checks, admit, check_signature, dispatch}
use go_mls.State.Handling.Checks.{Accepted, Led, handle-outcome}
use go_mls.Examples.Suites.{primitives}
use go_mls.Examples.Trees.{hashing}
use go_mls.Examples.Keys.{memory, or_else, empty_epoch}
use go_mls.Examples.Worlds.{world, member}

-- The other member asks for a removal.
abbrev removal : MlsPlaintext
removal = record {
  group_id = 3 ∷ [];
  epoch = 7;
  sender = record { type = sender_type_member; sender = 1 };
  authenticated_data = [];
  content = of_proposal (removed_member (record { removed = 0 }));
  signature = 4 ∷ 7 ∷ 1 ∷ 0 ∷ 2 ∷ 9 ∷ [];
}

abbrev receiver : State
receiver = member empty_epoch 0

handle-outcome_example :
    (s1 : State) × Accepted world removal receiver s1
    × Led world removal receiver s1 none (handle world 0 removal receiver memory).1
unfolding handle checks admit and_then bytes_eq signer_public_key key_package_at or_blank_leaf
    credential_public_key group_context state_root_hash root_hash keep_hashes check_signature
    plaintext_verify to_be_signed or_error errors_panic signed_part marshal_content content_type
    write_content write_behind dispatch node_at to_node_index key_package_of new_leaf_node
    or_panic_with get_hash root log2 node_width size leaf_width log2_loop new_node level level_loop
    left right right_loop store read_hash set_leaf_node_hash set_parent_node_hash leaf_part
    parent_part or_no_child hash_bytes update context_with credential_scheme parent parent_loop
    parent_step
handle-outcome_example =
    handle-outcome world 0 removal receiver memory (none, memory)
      (handle world 0 removal receiver memory).1 refl

-- A tree of two leaves of which no hash is known.
abbrev unhashed : TreeKemPublicKey
unhashed = record { suite = 1; nodes = new_node ∷ new_node ∷ new_node ∷ [] }

root_hash-tree_clone_example :
    root_hash hashing (tree_clone unhashed).nodes ≡ ok ([], (tree_clone unhashed).nodes)
unfolding node_width root new_node log2 log2_loop
root_hash-tree_clone_example =
    root_hash-tree_clone hashing 2 unhashed new_node
      (record { some_leaf = omega arith; few = omega arith; width = refl }) refl refl

abbrev elsewhere : Memory
elsewhere = record { cells = λ a. []; used = 100 }

next_epoch_agree_example :
    let r =
      or_else (empty_epoch, memory) (next_epoch primitives empty_epoch 2 [] (1 ∷ []) [] memory) in
    (r' : KeyScheduleEpoch × Memory) × (next_epoch primitives empty_epoch 2 [] (1 ∷ []) [] elsewhere
      ≡ ok r')
    × (secrets r'.0 ≡ secrets r.0)
    × (material r'.0 r'.1 ≡ material r.0 r.1)
    × Extracted primitives 1 empty_epoch.init_secret [] (1 ∷ []) [] r'.0.epoch_secret
    × Scheduled primitives 1 2 [] r'.0 r'.1
unfolding next_epoch next_epoch_secret choose_psk zero_bytes new_digest hkdf_extract derive_secret
    digest constants hkdf_expand_label or_panic hkdf_expand new_key_schedule_epoch
    new_tree_base_key_source
next_epoch_agree_example =
    next_epoch_agree primitives empty_epoch empty_epoch 2 [] (1 ∷ []) (1 ∷ []) [] memory elsewhere _
      refl refl (λ x. refl) refl
