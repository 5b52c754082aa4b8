-- ===== src/Examples/PathRounds.antt =====
-- A commit with a path between two members of a small group.
use mathlib.Core.Option
use go_mls.Base.{
  err, panic, Bool, false, Outcome, [], and_then, arith, bytes_eq, delete, insert, lookup, none, ok,
  refl, some, true, ℕ, ◌∷◌, ◌≡◌,
}
use go_mls.Credential.{
  basic_eq, basic_equals, credential_equals, credential_public_key, credential_scheme,
}
use go_mls.Crypto.{
  constants, derive_secret, digest, expand_loop, hkdf_expand, hkdf_expand_label, hkdf_extract,
  new_aead, new_digest, or_panic, zero_bytes,
}
use go_mls.Crypto.Aead.{errors_panic, make_aead, or_aead_error}
use go_mls.Crypto.Hpke.{hpke_derive, hpke_encrypt, key_pair_secret_size, or_hpke_error}
use go_mls.Examples.Deliveries.{second, tree_of_two}
use go_mls.Examples.Keys.{memory, or_else}
use go_mls.Examples.Rounds.{seventh_epoch}
use go_mls.Examples.Worlds.{add_of_joiner, member, own_keys, world}
use go_mls.Extensions.{add, add_data, find, put, read_all}
use go_mls.KeyPackage.{
  after_unix, before_unix, check_signed, extensions_eq, in_lifetime, is_found, key_package_clone,
  key_package_equals, key_package_sign, key_package_tbs, key_package_verify, or_error,
  verify_signature, verify_under,
}
use go_mls.KeySchedule.Epoch.{
  choose_psk, group_info_key_and_nonce, new_key_schedule_epoch, next_epoch, next_epoch_secret,
}
use go_mls.KeySchedule.Memory.{Memory}
use go_mls.KeySchedule.Source.{new_tree_base_key_source}
use go_mls.Messages.{have, path_required, write_behind}
use go_mls.Messages.Content.{content_type, marshal_content, write_content}
use go_mls.Messages.Plaintext.{
  CommitData, MlsPlaintext, commit_auth_data, commit_content, commit_of, or_nil, plaintext_sign,
  signed_part, to_be_signed,
}
use go_mls.Messages.Welcome.{
  Welcome, encrypt_to, group_info_sign, group_info_tbs, new_welcome, or_blank_leaf,
}
use go_mls.PrivateTree.{
  TreeKemPrivateKey, climb, empty_private_key, keep_secret, make_key, new_private_key, or_no_parent,
  path_step, private_clone, private_key, set_path_secrets, shared_path_secret,
}
use go_mls.PrivateTree.Fitting.{holds}
use go_mls.PrivateTree.Opening.{find_overlap}
use go_mls.PrivateTree.Sealing.{
  encap, encap_path, key_of_node, or_no_leaf, seal_secrets, seal_steps, secret_of,
}
use go_mls.PrivateTree.Ways.{Above}
use go_mls.State.{
  State, context_with, find_proposal, group_context, keep_hashes, proposal_id, state_clone,
  state_root_hash,
}
use go_mls.State.Agreement.Rounds.{emptied}
use go_mls.State.Commits.{
  advance_epoch, commit, commit_message, confirm_transcript, confirmation_of, finish_commit, gather,
  gather_one, interim_transcript, mac_of, make_welcome, new_group_info, or_not_in_tree,
  path_if_required, prepare_commit, ratchet_and_sign, update_epoch_secrets, welcome_all,
}
use go_mls.State.Proposals.{
  apply, apply_add_proposal, apply_found, apply_new, apply_proposal, apply_proposals, mark_new,
  proposal_of, seen, with_nodes,
}
use go_mls.TreeKem.{
  add_leaf, blank, clear_hash, clear_hash_all, clear_hash_path, each, extend, find_from, find_leaf,
  first_free, is_some, key_package_at, key_package_of, mark_path, mark_unmerged, matches,
  new_leaf_node, new_node, new_parent_node, node_at, or_stuck, path_of, public_key, size, update,
}
use go_mls.TreeKem.Copies.{dup_hash, node_clone, optional_node_clone, tree_clone}
use go_mls.TreeKem.Hashes.{
  drop_error, get_hash, hash_bytes, leaf_part, or_no_child, or_panic_with, parent_part, read_hash,
  root_hash, set_hash_all, set_leaf_node_hash, set_parent_node_hash, store,
}
use go_mls.TreeKem.Merge.{
  first_hash, hash_steps, merge, merge_steps, parent_hashes, place_steps, resolve, sign_path,
  unmerged_below,
}
use go_mls.TreeMath.{
  ancestor, dirpath, dirpath_loop, in_path, join_loop, leaf_width, left, level, level_loop, log2,
  log2_loop, node_width, parent, parent_loop, parent_step, right, right_loop, root, sibling,
  to_node_index,
}
use go_mls.State.Commits.{add_path, next_epoch_number}
use go_mls.TreeKem.Copies.{parent_node_clone}
use go_mls.Messages.Welcome.{group_info_part}
use go_mls.Crypto.{take}
use go_mls.Base.{sym, subst, ap, ◌∙◌, ok_injective}
use go_mls.TreeKem.{Nodes}
use go_mls.Base.{zero, suc}
use go_mls.TreeMath.{in_path}
use go_mls.PrivateTree.Fitting.{Fits, key_at}
use go_mls.State.Handling.{handle}
use go_mls.KeySchedule.Material.{material}
use go_mls.Examples.Packages.{services-ChecksOut}
use go_mls.Base.{List, Bytes}
use go_mls.Examples.Worlds.{with_hashes, hashes_of_two}
use go_mls.State.{signer_public_key}
use go_mls.State.Agreement.{view}
use go_mls.State.Agreement.Paths.{Reads, commit_path_agree}
use go_mls.Examples.Suites.{primitives}
use go_mls.Examples.Worlds.{hpke}
use go_mls.Examples.Deliveries.{second-Fits, next_secret, hpke-OpensSealed}

abbrev hashed_two : Nodes
hashed_two = with_hashes hashes_of_two tree_of_two

abbrev group_member : ℕ → TreeKemPrivateKey → State
group_member index priv = record (member seventh_epoch.0 index) {
  tree = record { suite = 1; nodes = hashed_two };
  tree_priv = priv;
  pending_proposals = [];
}

abbrev sender : State
sender = group_member 0 (own_keys 0)

abbrev receiver : State
receiver = group_member 1 second

abbrev nothing : MlsPlaintext × Welcome × State × Memory
nothing = (
  add_of_joiner,
  record {
    version = 0;
    cipher_suite = 0;
    secrets = [];
    encrypted_group_info = [];
    epoch_secret = [];
  },
  sender,
  memory,
)

abbrev run : Outcome (MlsPlaintext × Welcome × State × Memory) × State
run = commit world 0 (λ i j. []) (λ i. []) (1 ∷ []) sender memory

abbrev sent : MlsPlaintext × Welcome × State × Memory
sent = or_else nothing run.0

abbrev data_sent : CommitData
data_sent =
    or_else
      (record {
        commit = record { updates = []; removes = []; adds = []; path = none };
        confirmation = [];
      })
      (commit_of sent.0.content)

abbrev applied : State
applied = or_else receiver (apply world 0 data_sent.commit (state_clone receiver))

abbrev hashed : State
hashed = (state_root_hash world (emptied applied)).1

abbrev is_ok : {A : Type 0} → Outcome A → Bool
is_ok (ok a) = true
is_ok (err why) = false
is_ok (panic why) = false

or_else_ok : {A : Type 0} (d : A) (o : Outcome A) → is_ok o ≡ true → o ≡ ok (or_else d o)
or_else_ok d (ok a) e = refl
or_else_ok d (err why) e = cc
or_else_ok d (panic why) e = cc

-- What the receiver reads the path with.
abbrev read_by : State → ℕ × Nodes × TreeKemPrivateKey
read_by s = (s.tree.suite, s.tree.nodes, s.tree_priv)

-- All the calls return, and the receiver has its tree as it was.
computed :
    (is_ok run.0 ≡ true)
    × (is_ok (commit_of sent.0.content) ≡ true)
    × (path_required data_sent.commit ≡ true)
    × (is_ok (apply world 0 data_sent.commit (state_clone receiver)) ≡ true)
    × (read_by hashed ≡ (1, hashed_two, second))
unfolding add_leaf advance_epoch after_unix ancestor and_then apply apply_add_proposal apply_found
    apply_new apply_proposal apply_proposals basic_eq basic_equals before_unix blank bytes_eq
    check_signed choose_psk clear_hash clear_hash_path commit commit_auth_data commit_content
    commit_message commit_of confirm_transcript confirmation_of constants content_type
    credential_equals credential_public_key credential_scheme derive_secret digest dirpath
    dirpath_loop dup_hash each encrypt_to errors_panic extend extensions_eq find find_from find_leaf
    find_proposal finish_commit first_free gather gather_one get_hash group_context
    group_info_key_and_nonce group_info_sign group_info_tbs have hkdf_expand hkdf_expand_label
    hkdf_extract hpke_encrypt in_lifetime interim_transcript is_found is_some join_loop keep_hashes
    key_package_at key_package_clone key_package_equals key_package_of key_package_tbs
    key_package_verify leaf_part leaf_width left level level_loop log2 log2_loop mac_of make_aead
    make_welcome mark_new mark_path mark_unmerged marshal_content matches new_aead new_digest
    new_group_info new_key_schedule_epoch new_leaf_node new_node new_tree_base_key_source
    new_welcome next_epoch next_epoch_secret node_at node_clone node_width optional_node_clone
    or_aead_error or_blank_leaf or_error or_hpke_error or_no_child or_no_parent or_not_in_tree
    or_panic or_panic_with or_stuck parent parent_loop parent_part parent_step path_if_required
    path_of path_required plaintext_sign prepare_commit private_clone proposal_id proposal_of
    ratchet_and_sign read_all read_hash right right_loop root root_hash seen set_leaf_node_hash
    set_parent_node_hash shared_path_secret signed_part size state_clone state_root_hash store
    to_be_signed to_node_index tree_clone update update_epoch_secrets verify_signature verify_under
    welcome_all with_nodes write_behind write_content zero_bytes Option.bind or_nil context_with
    hash_bytes path_step find_overlap in_path Above sibling resolve unmerged_below holds lookup
    encap encap_path merge place_steps merge_steps set_hash_all clear_hash_all drop_error
    new_parent_node new_private_key set_path_secrets climb empty_private_key keep_secret or_no_leaf
    seal_steps private_key delete make_key insert hpke_derive seal_secrets key_of_node
    key_pair_secret_size expand_loop add add_data put key_package_sign secret_of first_hash
    hash_steps parent_hashes sign_path public_key add_path next_epoch_number parent_node_clone
    group_info_part take
computed = (refl, refl, refl, refl, refl)

key_at-with_hashes :
    (hs : List Bytes) (ns : Nodes) (n : ℕ) → key_at (with_hashes hs ns) n ≡ key_at ns n
unfolding key_at node_at
key_at-with_hashes [] ns n = refl
key_at-with_hashes (h ∷ hs) [] n = refl
key_at-with_hashes (h ∷ hs) (m ∷ ns) zero = refl
key_at-with_hashes (h ∷ hs) (m ∷ ns) (suc n) = key_at-with_hashes hs ns n

second-Fits_hashed : Fits primitives hpke hashed_two second
second-Fits_hashed = record {
  public = λ n s e.
      let (key, derived, at) = second-Fits.public n s e in
      (key, derived, key_at-with_hashes hashes_of_two tree_of_two n ∙ at);
  cached = second-Fits.cached;
}

second-Reads : Reads world next_secret 1 0 hashed_two second
unfolding size leaf_width to_node_index node_width path_of or_stuck dirpath dirpath_loop Option.bind
    root log2 log2_loop parent parent_loop parent_step level level_loop path_step constants
    hkdf_expand_label or_panic hkdf_expand new_digest find_overlap in_path Above sibling
    or_no_parent resolve unmerged_below node_at holds lookup new_leaf_node left right right_loop
second-Reads = record {
  steps = λ t. refl;
  some_leaf = omega arith;
  few = omega arith;
  inside = omega arith;
  fits = second-Fits_hashed;
  same_suite = refl;
  dp = 1 ∷ [];
  is_path = refl;
  at = 0;
  overlap = 1;
  before = 0;
  found = refl;
  distance = 1;
  above = (λ e. omega (arith, e), 1, refl, refl);
  held = λ copath res e f.
      let here : 2 ≡ copath = ok_injective e in
      let resolved : resolve 33 2 hashed_two ≡ ok res =
        ap (λ x. resolve 33 x hashed_two) here ∙ f in
      let alone : 2 ∷ [] ≡ res = ok_injective resolved in
      ap (holds second.path_secrets) (sym alone);
}

commit_path_agree_example :
    (r : State × Memory) × (handle world 0 sent.0 receiver memory ≡ (ok (some r.0, r.1), receiver))
    × (view sent.2 ≡ view r.0)
    × (material r.0.keys r.1 ≡ material sent.2.keys sent.3)
unfolding and_then signer_public_key key_package_at or_blank_leaf key_package_of state_root_hash
    root_hash keep_hashes get_hash read_hash or_panic_with node_at size leaf_width root log2
    log2_loop to_node_index node_width new_leaf_node new_node credential_public_key view zero_bytes
    new_digest
commit_path_agree_example =
    commit_path_agree world 0 0 (λ i j. []) (λ i. []) (1 ∷ []) next_secret sender receiver run.1
      memory memory sent data_sent (or_else [] (zero_bytes 1)) applied
      (record { views = refl; pending = refl })
      (record {
        apart = λ e. omega (arith, e);
        same_extensions = refl;
        same_scheme = refl;
        signs = refl;
        cached = refl;
      })
      services-ChecksOut (ap (λ o. (o, run.1)) (or_else_ok nothing run.0 computed.0))
      (or_else_ok _ (commit_of sent.0.content) computed.1) computed.2
      (or_else_ok receiver _ computed.3) refl hpke-OpensSealed
      (subst (λ (x : ℕ × Nodes × TreeKemPrivateKey). Reads world next_secret x.0 0 x.1 x.2)
        (sym computed.4) second-Reads)
