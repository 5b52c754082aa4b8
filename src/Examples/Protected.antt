-- ===== src/Examples/Protected.antt =====
-- A message under the keys of an epoch.
use mathlib.Core.Option
use mathlib.Core.Option.{some-injective}
use go_mls.Base.{
  lookup, insert, delete, and_then, ℕ, ◌≡◌, refl, sym, subst, Option, none, some, [], ◌∷◌, Bytes,
  Codec, ok, ap, err, panic, ReadsBackAt, Outcome,
}
use go_mls.TreeMath.{
  node_width, parent, root, log2, log2_loop, parent_loop, parent_step, level, level_loop,
  to_node_index, left, right, right_loop, dirpath, dirpath_loop,
}
use go_mls.Crypto.{
  derive_secret, digest, new_digest, constants, hkdf_expand_label, or_panic, hkdf_expand,
  derive_app_secret, expand_loop, new_aead, take,
}
use go_mls.Crypto.Aead.{Cipher, aead_unchecked, make_aead, errors_panic, or_aead_error}
use go_mls.KeyPackage.{or_error}
use go_mls.KeySchedule.Ratchet.{get_new, skip, advance, clone, new_hash_ratchet, next, get, erase}
use go_mls.KeySchedule.Source.{
  group_next, group_get, group_erase, ratchet, new_tree_base_key_source, add_ratchet, base_get,
  tree_get, derive_down, first_populated, forget, get_below, hand_out, index, keep, no_fs_get,
  or_stuck, split, suite_of,
}
use go_mls.Messages.{
  Proposal, removed_member, proposal_type, write_behind, write_member, marshal_proposal,
  unmarshal_proposal,
}
use go_mls.Messages.RoundTrip.{one_remove, unmarshal-marshal}
use go_mls.Messages.Content.{
  ContentCodecs, of_proposal, content_type, sender_type_member, marshal_content, write_content,
}
use go_mls.Messages.Content.RoundTrip.{legible_proposal}
use go_mls.Messages.Plaintext.{or_nil, CommitData, MlsPlaintext, MlsCiphertext}
use go_mls.KeySchedule.Memory.{Memory}
use go_mls.KeySchedule.Epoch.{KeyScheduleEpoch, new_key_schedule_epoch}
use go_mls.State.{World, State}
use go_mls.State.Protection.{
  for_handshake, key_use, Store, source_of, put_source, key_bytes, and_store, apply_guard,
}
use go_mls.State.Protection.Sending.{
  seal_sender_data, write_message, seal_message, draw_keys, encrypt,
}
use go_mls.State.Protection.Receiving.{take_message_keys, decrypt}
use go_mls.State.Protection.Opened.{Opens, Readable, delivered}
use go_mls.State.Protection.RoundTrip.{decrypt-encrypt}
use go_mls.Examples.Keys.{memory, or_else, empty_epoch}
use go_mls.Examples.Packages.{list_codec, list-ReadsBack}
use go_mls.Examples.Unions.{byte, byte-ReadsBack, proposals, proposals-Faithful}
use go_mls.Examples.Worlds.{world, member}

-- A world that writes proposals by the program's own union format.
abbrev numbers : Bytes → Option (ℕ × ℕ × Bytes)
numbers (a ∷ b ∷ rest) = some (a, b, rest)
numbers _ = none

abbrev value {ℓ} : {A : Type ℓ} → Outcome A → Option A
value (ok a) = some a
value (err e) = none
value (panic e) = none

abbrev proposal_codec : Codec Proposal
proposal_codec = record {
  encode = λ p. value (marshal_proposal proposals p);
  decode = λ b. value (unmarshal_proposal proposals b);
}

-- A commit without proposals and path.
abbrev of_confirmation : Bytes → CommitData
of_confirmation b = record {
  commit = record { updates = []; removes = []; adds = []; path = none };
  confirmation = b;
}

abbrev commit_codec : Codec CommitData
commit_codec = record {
  encode = λ d. list_codec.encode d.confirmation;
  decode = λ b. Option.map (λ q. (of_confirmation q.0, q.1)) (list_codec.decode b);
}

abbrev codecs : ContentCodecs Bytes Proposal CommitData
codecs = record {
  tag = byte;
  application = list_codec;
  proposal = proposal_codec;
  commit = commit_codec;
}

abbrev readable : World
readable = record world {
  wire = record world.wire { content = codecs };
  protection_wire = record world.protection_wire {
    read_sender_data = numbers;
    signature = list_codec;
  };
}

readable-Readable : Readable readable
unfolding Opens
readable-Readable = record {
  opens = λ family key c nonce pt aad ct e f.
      subst (λ (x : Cipher). x.seal nonce pt aad ≡ ok ct → x.unseal nonce ct aad ≡ ok pt)
        (some-injective _ _ e) (λ g. sym g) f;
  tag = byte-ReadsBack;
  signature = list-ReadsBack;
  sender_data = λ sender generation reuse_guard b e.
      subst (λ x. numbers x ≡ some (sender, generation, reuse_guard)) (some-injective _ _ e) refl;
}

abbrev epoch_keys : KeyScheduleEpoch × Memory
epoch_keys =
    or_else (empty_epoch, memory)
      (new_key_schedule_epoch readable.primitives 1 2 (5 ∷ []) [] memory)

abbrev sender : State
sender = member epoch_keys.0 0

abbrev receiver : State
receiver = member epoch_keys.0 1

-- The sender asks for a removal.
abbrev removal : Proposal
removal = removed_member (record { removed = 1 })

value-eq-some : {A : Type 0} (o : Outcome A) {a : A} → value o ≡ some a → o ≡ ok a
value-eq-some (ok b) e = ap ok (some-injective _ _ e)
value-eq-some (err why) e = cc
value-eq-some (panic why) e = cc

removal-ReadsBackAt : ReadsBackAt proposal_codec removal
removal-ReadsBackAt d rest e = ap value (
    unmarshal-marshal proposals removal d rest proposals-Faithful
      (one_remove (record { removed = 1 })) (value-eq-some (marshal_proposal proposals removal) e))

abbrev message : MlsPlaintext
message = record {
  group_id = 3 ∷ [];
  epoch = 7;
  sender = record { type = sender_type_member; sender = 0 };
  authenticated_data = [];
  content = of_proposal removal;
  signature = 8 ∷ [];
}

abbrev drawn : (ℕ × Bytes × Bytes) × Store
drawn =
    or_else ((0, [], []), (sender, memory))
      (draw_keys readable for_handshake (sender, epoch_keys.1))

abbrev taken : (Bytes × Bytes) × Store
taken =
    or_else (([], []), (receiver, memory))
      (take_message_keys readable for_handshake
        (record { sender = 0; generation = 0; reuse_guard = 6 ∷ [] }) (receiver, epoch_keys.1))

abbrev encrypted : MlsCiphertext
encrypted =
    or_else
      (record {
        group_id = [];
        epoch = 0;
        content_type = 0;
        sender_data_nonce = [];
        encrypted_sender_data = [];
        authenticated_data = [];
        ciphertext = [];
      })
      (encrypt readable (6 ∷ []) (4 ∷ []) message (sender, epoch_keys.1)).0

decrypt-encrypt_example :
    decrypt readable encrypted (receiver, epoch_keys.1)
    ≡ (ok (delivered sender receiver message), taken.1)
unfolding content_type key_use draw_keys group_next ratchet lookup source_of new_key_schedule_epoch
    derive_secret digest new_digest constants hkdf_expand_label or_panic hkdf_expand
    new_tree_base_key_source add_ratchet base_get tree_get delete insert derive_app_secret
    expand_loop advance clone new_hash_ratchet next derive_down first_populated get_below hand_out
    index no_fs_get or_stuck split suite_of key_bytes put_source dirpath dirpath_loop left level
    level_loop log2 log2_loop node_width parent parent_loop parent_step right right_loop root
    to_node_index Option.bind take_message_keys group_get get group_erase erase encrypt and_then
    and_store seal_message seal_sender_data write_message marshal_content write_content write_behind
    or_error or_nil apply_guard aead_unchecked make_aead errors_panic or_aead_error new_aead keep
    get_new skip forget take marshal_proposal proposal_type write_member
decrypt-encrypt_example =
    decrypt-encrypt readable sender receiver epoch_keys.1 epoch_keys.1 message 2 0 for_handshake
      (6 ∷ []) (4 ∷ []) drawn.0.1 drawn.0.2 drawn.1 taken.1 encrypted readable-Readable
      (legible_proposal removal removal-ReadsBackAt)
      (record { suite = refl; group = refl; epoch = refl; key = refl }) refl refl refl refl refl
