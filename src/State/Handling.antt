-- ===== src/State/Handling.antt =====
-- `Handle`: a proposal is queued, a commit of another member leads to a next state.
pub mod Checks
use go_mls.Base.{
  ℕ, ◌==◌, if◌then◌else◌, Bool, true, false, not, Option, none, some, List, [], ◌∷◌, ◌++◌, Bytes,
  bytes_eq, Outcome, ok, err, panic, ◌>>=◌, and_then, guard, wrong_group, wrong_epoch,
  bad_signature, wrong_content, wrong_sender, own_commit, wrong_confirmation,
}
use go_mls.KeyPackage.{or_error}
use go_mls.Crypto.{zero_bytes}
use go_mls.Messages.Content.{
  content_type, content_type_proposal, content_type_commit, sender_type_member,
}
use go_mls.Messages.Plaintext.{
  GroupContext, MlsPlaintext, CommitData, PlaintextWire, commit_of, plaintext_verify,
}
use go_mls.TreeKem.Merge.{DirectPath, merge}
use go_mls.PrivateTree.{TreeKemPrivateKey}
use go_mls.PrivateTree.Opening.{decap}
use go_mls.KeySchedule.Memory.{Memory}
use go_mls.State.{
  World, State, state_clone, state_root_hash, context_with, group_context, signer_public_key,
}
use go_mls.State.Proposals.{apply}
use go_mls.State.Commits.{confirm_transcript, interim_transcript, advance_epoch, confirmation_of}

unfoldable pub queue : MlsPlaintext → State → State
queue pt s = record s { pending_proposals = s.pending_proposals ++ pt ∷ [] }

module _ (w : World) where
  unfoldable pub verify_confirmation : Bytes → State → Outcome Bool
  verify_confirmation confirmation s =
      confirmation_of w s >>= λ confirm. ok (bytes_eq confirm confirmation)

  -- The direct path, if the commit has one: the secret of the commit, and the next state.
  unfoldable pub receive_path : ℕ → Bytes → Option DirectPath → State → Outcome (Bytes × State)
  receive_path from zero_secret none next = ok (zero_secret, next)
  receive_path from zero_secret (some path) next = do
    let hashed = state_root_hash w next
    tree_hash ← hashed.0
    let next' = hashed.1
    ctx ← or_error (w.wire.context (context_with [] next' tree_hash))
    priv ← decap w.primitives w.hpke from next'.tree.nodes ctx path next'.tree_priv
    let merged = merge (w.hashing next'.tree.suite) from path next'.tree.nodes
    _ ← merged.0
    ok (
      priv.update_secret,
      record next' {
        tree_priv = priv;
        tree = record { suite = next'.tree.suite; nodes = merged.1 };
      },
    )

  -- The last part of `Handle`: transcripts, epoch and confirmation.
  unfoldable pub finish_handle :
      MlsPlaintext → Bytes → Bytes → State → Memory → Outcome (State × Memory)
  finish_handle pt confirmation secret next m = do
    s1 ← confirm_transcript w pt next
    (s2, m') ← advance_epoch w secret s1 m
    good ← verify_confirmation confirmation s2
    _ ← guard good wrong_confirmation
    s3 ← interim_transcript w pt s2
    ok (s3, m')

  unfoldable pub handle_commit :
      ℕ → MlsPlaintext → CommitData → State → Memory → Outcome (State × Memory)
  handle_commit now pt data' s m = do
    next ← apply w now data'.commit (state_clone s)
    zero_secret ← zero_bytes s.cipher_suite
    (secret, next') ←
        receive_path pt.sender.sender zero_secret data'.commit.path
          (record next { pending_proposals = [] })
    finish_handle pt data'.confirmation secret next' m

  -- What `Handle` does with a message that is no proposal.
  unfoldable pub handle_other :
      ℕ → ℕ → MlsPlaintext → State → Memory → Outcome (Option State × Memory)
  handle_other now t pt s m = do
    _ ← guard (t == content_type_commit) wrong_content
    _ ← guard (pt.sender.type == sender_type_member) wrong_sender
    _ ← guard (not (pt.sender.sender == s.index)) own_commit
    data' ← commit_of pt.content
    (next, m') ← handle_commit now pt data' s m
    ok (some next, m')

  -- The checks before the signature, and the key that it is checked with.
  unfoldable pub admit : MlsPlaintext → State → Outcome Bytes
  admit pt s = do
    _ ← guard (bytes_eq pt.group_id s.group_id) wrong_group
    _ ← guard (pt.epoch == s.epoch) wrong_epoch
    signer_public_key w pt.sender s

  unfoldable pub check_signature : MlsPlaintext → Bytes → GroupContext → State → Outcome ℕ
  check_signature pt pub_key ctx s = do
    good ← plaintext_verify w.wire w.services ctx pub_key s.scheme pt
    _ ← guard good bad_signature
    content_type pt.content

  -- The checks of `Handle` that every message has to pass; they leave the type of the content.
  unfoldable pub checks : MlsPlaintext → State → Outcome ℕ × State
  checks pt s =
      and_then (admit pt s, s)
        (λ pub_key s0.
          and_then (group_context w s0) (λ ctx s1. (check_signature pt pub_key ctx s1, s1)))

  unfoldable pub dispatch :
      ℕ → MlsPlaintext → Memory → ℕ → State → Outcome (Option State × Memory) × State
  dispatch now pt m t s =
      if t == content_type_proposal
      then (ok (none, m), queue pt s)
      else (handle_other now t pt s m, s)

  -- `Handle`, with the state that it was called on.
  unfoldable pub handle :
      ℕ → MlsPlaintext → State → Memory → Outcome (Option State × Memory) × State
  handle now pt s m = and_then (checks pt s) (dispatch now pt m)
