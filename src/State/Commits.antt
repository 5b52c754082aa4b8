-- ===== src/State/Commits.antt =====
-- The steps of transcripts and key schedule that a commit causes, and `Commit` itself.
use go_mls.Base.{
  ℕ, ◌+◌, ◌%◌, if◌then◌else◌, Option, none, some, List, [], ◌∷◌, ◌++◌, Bytes, u64, Outcome, ok, err,
  panic, ◌>>=◌, and_then, not_in_tree, malformed_proposal,
}
use go_mls.KeyPackage.{KeyPackage, SignaturePrivateKey, or_error}
use go_mls.Crypto.{Primitives, digest, new_digest}
use go_mls.Crypto.Aead.{errors_panic}
use go_mls.Messages.{Proposal, Commit, path_required}
use go_mls.Messages.Content.{of_commit, sender_type_member}
use go_mls.Messages.Plaintext.{
  GroupContext, MlsPlaintext, commit_of, plaintext_sign, commit_content, commit_auth_data,
}
use go_mls.Messages.Welcome.{GroupInfo, Welcome, group_info_sign, new_welcome, encrypt_to}
use go_mls.TreeKem.{size, find_leaf}
use go_mls.TreeKem.Merge.{DirectPath}
use go_mls.PrivateTree.{shared_path_secret}
use go_mls.PrivateTree.Sealing.{encap}
use go_mls.KeySchedule.Memory.{Memory}
use go_mls.KeySchedule.Epoch.{next_epoch}
use go_mls.State.{
  World, State, state_clone, state_root_hash, context_with, group_context, proposal_id,
}
use go_mls.State.Proposals.{proposal_of, apply}

-- `hmac := s.CipherSuite.NewHMAC(key)`, one write, and the sum.
unfoldable pub mac_of : Primitives → ℕ → Bytes → Bytes → Outcome Bytes
mac_of p suite key data' = do h ← new_digest suite; ok (p.hmac h key data')

-- A leaf that `Find` did not find.
unfoldable pub or_not_in_tree : Option ℕ → Outcome ℕ
or_not_in_tree none = err not_in_tree
or_not_in_tree (some i) = ok i

unfoldable pub next_epoch_number : ℕ → ℕ
next_epoch_number epoch = (epoch + 1) % u64

-- The new commit so far, and the packages that it adds.
abbrev pub Gathered : Type 0
Gathered = Commit DirectPath × List KeyPackage

unfoldable pub gather_one : Bytes → Proposal → Gathered → Outcome Gathered
gather_one id p (c, joiners) = elim p.add [
  | some a ↦ ok (record c { adds = c.adds ++ id ∷ [] }, joiners ++ a.key_package ∷ [])
  | none ↦ elim p.update [
    | some u ↦ ok (record c { updates = c.updates ++ id ∷ [] }, joiners)
    | none ↦ elim p.remove [
      | some r ↦ ok (record c { removes = c.removes ++ id ∷ [] }, joiners)
      | none ↦ panic malformed_proposal
    ]
  ]
]

module _ (w : World) where
  -- The context is written without the extensions.
  unfoldable pub update_epoch_secrets : Bytes → State → Memory → Outcome (State × Memory)
  update_epoch_secrets secret s m = do
    let hashed = state_root_hash w s
    tree_hash ← hashed.0
    let s' = hashed.1
    ctx ← errors_panic (or_error (w.wire.context (context_with [] s' tree_hash)))
    (keys, m') ← next_epoch w.primitives s'.keys (size s'.tree.nodes) [] secret ctx m
    ok (record s' { keys = keys }, m')

  -- The confirmed transcript hash takes in the commit.
  unfoldable pub confirm_transcript : MlsPlaintext → State → Outcome State
  confirm_transcript pt s = do
    content ← commit_content w.wire pt
    confirmed ← digest w.primitives s.cipher_suite (s.interim_transcript_hash ++ content)
    ok (record s { confirmed_transcript_hash = confirmed })

  -- The interim transcript hash takes in the confirmation and the signature.
  unfoldable pub interim_transcript : MlsPlaintext → State → Outcome State
  interim_transcript pt s = do
    auth ← commit_auth_data w.wire pt
    interim ← digest w.primitives s.cipher_suite (s.confirmed_transcript_hash ++ auth)
    ok (record s { interim_transcript_hash = interim })

  -- `s.Epoch += 1` and the secrets of the new epoch.
  unfoldable pub advance_epoch : Bytes → State → Memory → Outcome (State × Memory)
  advance_epoch secret s m =
      update_epoch_secrets secret (record s { epoch = next_epoch_number s.epoch }) m

  unfoldable pub confirmation_of : State → Outcome Bytes
  confirmation_of s =
      mac_of w.primitives s.cipher_suite s.keys.confirmation_key s.confirmed_transcript_hash

  unfoldable pub commit_message : Commit DirectPath → Bytes → State → MlsPlaintext
  commit_message op confirmation s = record {
    group_id = s.group_id;
    epoch = s.epoch;
    sender = record { type = sender_type_member; sender = s.index };
    authenticated_data = [];
    content = of_commit (record { commit = op; confirmation = confirmation });
    signature = [];
  }

  unfoldable pub ratchet_and_sign :
      Commit DirectPath
      → Bytes
      → GroupContext
      → SignaturePrivateKey
      → State
      → Memory
      → Outcome (MlsPlaintext × State × Memory)
  ratchet_and_sign op commit_secret prev_ctx sig_priv s m = do
    s1 ← confirm_transcript (commit_message op [] s) s
    (s2, m') ← advance_epoch commit_secret s1 m
    confirmation ← confirmation_of s2
    pt ←
        plaintext_sign w.wire w.services prev_ctx sig_priv s2.scheme
          (commit_message op confirmation s)
    s3 ← interim_transcript pt s2
    ok (pt, s3, m')

  -- The loop over the pending proposals.
  unfoldable pub gather : State → List MlsPlaintext → Gathered → Outcome Gathered
  gather s [] g = ok g
  gather s (pp ∷ pps) g = do
    id ← proposal_id w s pp
    p ← proposal_of pp.content
    g' ← gather_one id p g
    gather s pps g'

  -- A path with fresh secrets, for a commit that needs one.
  unfoldable pub add_path :
      (ℕ → ℕ → Bytes) → ℕ → Bytes → Commit DirectPath → State → Outcome (Commit DirectPath × State)
  add_path random from leaf_secret commit next = do
    let hashed = group_context w next
    ctx ← hashed.0
    enc ← or_error (w.wire.context ctx)
    let next' = hashed.1
    let done =
        encap w.primitives w.hpke w.services w.parent_hashing (w.hashing next'.tree.suite)
          next'.tree.suite random from enc leaf_secret next'.identity_priv next'.tree.nodes
    made ← done.0
    ok (
      record commit { path = some made.1 },
      record next' {
        tree_priv = made.0;
        tree = record { suite = next'.tree.suite; nodes = done.1 };
      },
    )

  unfoldable pub path_if_required :
      (ℕ → ℕ → Bytes) → ℕ → Bytes → Commit DirectPath → State → Outcome (Commit DirectPath × State)
  path_if_required random from leaf_secret commit next =
      if path_required commit
      then add_path random from leaf_secret commit next
      else ok (commit, next)

  -- The first part of `Commit`: the commit, who joins, and the next state up to the ratchet.
  unfoldable pub prepare_commit :
      ℕ → (ℕ → ℕ → Bytes) → Bytes → State → Outcome (Commit DirectPath × List KeyPackage × State)
  prepare_commit now random leaf_secret s = do
    (commit, joiners) ←
        gather s s.pending_proposals
          (record { updates = []; removes = []; adds = []; path = none }, [])
    next ← apply w now commit (state_clone s)
    (commit', next') ←
        path_if_required random s.index leaf_secret commit (record next { pending_proposals = [] })
    ok (commit', joiners, next')

  -- The loop over the joiners; the random bytes stand in the order of use.
  unfoldable pub welcome_all : (ℕ → Bytes) → ℕ → List KeyPackage → State → Welcome → Outcome Welcome
  welcome_all random i [] next wel = ok wel
  welcome_all random i (kp ∷ kps) next wel = do
    found ← find_leaf kp next.tree.nodes
    leaf ← or_not_in_tree found
    (_, path_secret) ← shared_path_secret leaf next.tree_priv
    wel' ← encrypt_to w.primitives w.hpke w.welcome_wire (random i) kp path_secret wel
    welcome_all random (i + 1) kps next wel'

  unfoldable pub new_group_info : Bytes → State → GroupInfo
  new_group_info confirmation next = record {
    group_id = next.group_id;
    epoch = next.epoch;
    tree = next.tree;
    confirmed_transcript_hash = next.confirmed_transcript_hash;
    interim_transcript_hash = next.interim_transcript_hash;
    extensions = [];
    confirmation = confirmation;
    signer_index = 0;
    signature = [];
  }

  -- The last part of `Commit`.
  unfoldable pub make_welcome : (ℕ → Bytes) → ℕ → Bytes → List KeyPackage → State → Outcome Welcome
  make_welcome random suite confirmation joiners next = do
    gi ←
        group_info_sign w.services w.welcome_wire next.index next.identity_priv
          (new_group_info confirmation next)
    wel ← new_welcome w.primitives w.ciphers w.welcome_wire suite next.keys.epoch_secret gi
    welcome_all random 0 joiners next wel

  -- `ratchetAndSign` and what follows it, in the old group's context.
  unfoldable pub finish_commit :
      (ℕ → Bytes)
      → Commit DirectPath
      → List KeyPackage
      → State
      → GroupContext
      → State
      → Memory
      → Outcome (MlsPlaintext × Welcome × State × Memory)
  finish_commit random commit joiners next ctx s m = do
    (pt, next', m') ←
        ratchet_and_sign commit next.tree_priv.update_secret ctx s.identity_priv next m
    data' ← commit_of pt.content
    wel ← make_welcome random s.cipher_suite data'.confirmation joiners next'
    ok (pt, wel, next', m')

  -- `Commit`, with the state that it was called on: its root hash is cached on the way.
  unfoldable pub commit :
      ℕ
      → (ℕ → ℕ → Bytes)
      → (ℕ → Bytes)
      → Bytes
      → State
      → Memory
      → Outcome (MlsPlaintext × Welcome × State × Memory) × State
  commit now path_random welcome_random leaf_secret s m =
      and_then (prepare_commit now path_random leaf_secret s, s)
        (λ prepared s0.
          and_then (group_context w s0) (λ ctx s1.
            (finish_commit welcome_random prepared.0 prepared.1 prepared.2 ctx s1 m, s1)))
