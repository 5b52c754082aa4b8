-- ===== src/State/Standing.antt =====
-- Where a member stands in a group, and which steps change it.
use go_mls.Base.{
  ℕ, ◌≡◌, refl, sym, ap, ◌∙◌, Option, none, some, List, [], ◌++◌, Bytes, guard, Outcome, ok, err,
  panic, >>=-eq-ok, ok_injective, wrong_confirmation,
}
use go_mls.Extensions.{ExtensionList}
use go_mls.KeyPackage.{or_error, SignaturePrivateKey}
use go_mls.Crypto.{digest}
use go_mls.Crypto.Aead.{errors_panic}
use go_mls.Messages.{Commit}
use go_mls.Messages.Plaintext.{
  GroupContext, MlsPlaintext, commit_content, commit_auth_data, plaintext_sign,
}
use go_mls.TreeKem.{Nodes, size}
use go_mls.TreeKem.Merge.{DirectPath, merge}
use go_mls.PrivateTree.Opening.{decap}
use go_mls.KeySchedule.Memory.{Memory}
use go_mls.KeySchedule.Epoch.{next_epoch}
use go_mls.State.{World, State, keep_hashes, state_root_hash, context_with}
use go_mls.State.Commits.{
  next_epoch_number, confirm_transcript, interim_transcript, update_epoch_secrets, advance_epoch,
  confirmation_of, commit_message, ratchet_and_sign,
}
use go_mls.State.Handling.{verify_confirmation, receive_path, finish_handle}

pub record Standing : Type 0 where
  pub cipher_suite : ℕ
  pub group_id : Bytes
  pub epoch : ℕ
  pub extensions : ExtensionList
  pub index : ℕ
  pub scheme : ℕ
  pub pending_proposals : List MlsPlaintext

unfoldable pub standing : State → Standing
standing s = record {
  cipher_suite = s.cipher_suite;
  group_id = s.group_id;
  epoch = s.epoch;
  extensions = s.extensions;
  index = s.index;
  scheme = s.scheme;
  pending_proposals = s.pending_proposals;
}

-- The same place in the next epoch.
unfoldable pub next_standing : Standing → Standing
next_standing t = record t { epoch = next_epoch_number t.epoch }

pub keep_hashes-standing :
    (o : Outcome (Bytes × Nodes)) (s : State) → standing (keep_hashes o s).1 ≡ standing s
unfolding keep_hashes standing
keep_hashes-standing (ok r) s = refl
keep_hashes-standing (err why) s = refl
keep_hashes-standing (panic why) s = refl

module _ (w : World) where
  pub state_root_hash-standing : (s : State) → standing (state_root_hash w s).1 ≡ standing s
  unfolding state_root_hash
  state_root_hash-standing s = keep_hashes-standing _ s

  pub confirm_transcript-standing :
      (pt : MlsPlaintext) (s out : State)
      → confirm_transcript w pt s ≡ ok out
      → standing out ≡ standing s
  unfolding confirm_transcript standing
  confirm_transcript-standing pt s out e =
      let (content, _, e1) = >>=-eq-ok (commit_content w.wire pt) _ e in
      let (_, _, e2) =
        >>=-eq-ok (digest w.primitives s.cipher_suite (s.interim_transcript_hash ++ content)) _
          e1 in
      ap standing (sym (ok_injective e2))

  interim_transcript-standing :
      (pt : MlsPlaintext) (s out : State)
      → interim_transcript w pt s ≡ ok out
      → standing out ≡ standing s
  unfolding interim_transcript standing
  interim_transcript-standing pt s out e =
      let (auth, _, e1) = >>=-eq-ok (commit_auth_data w.wire pt) _ e in
      let (_, _, e2) =
        >>=-eq-ok (digest w.primitives s.cipher_suite (s.confirmed_transcript_hash ++ auth)) _ e1 in
      ap standing (sym (ok_injective e2))

  update_epoch_secrets-standing :
      (secret : Bytes) (s : State) (m : Memory) (out : State × Memory)
      → update_epoch_secrets w secret s m ≡ ok out
      → standing out.0 ≡ standing s
  unfolding update_epoch_secrets standing
  update_epoch_secrets-standing secret s m out e =
      let hashed = state_root_hash w s in
      let (tree_hash, _, e1) = >>=-eq-ok hashed.0 _ e in
      let (ctx, _, e2) =
        >>=-eq-ok (errors_panic (or_error (w.wire.context (context_with [] hashed.1 tree_hash)))) _
          e1 in
      let (_, _, e3) =
        >>=-eq-ok (next_epoch w.primitives hashed.1.keys (size hashed.1.tree.nodes) [] secret ctx m)
          _ e2 in
      ap (λ r. standing r.0) (sym (ok_injective e3)) ∙ state_root_hash-standing s

  pub advance_epoch-standing :
      (secret : Bytes) (s : State) (m : Memory) (out : State × Memory)
      → advance_epoch w secret s m ≡ ok out
      → standing out.0 ≡ next_standing (standing s)
  unfolding advance_epoch next_standing standing
  advance_epoch-standing secret s m out e =
      update_epoch_secrets-standing secret (record s { epoch = next_epoch_number s.epoch }) m out e

  -- Both ends of a commit lead to the next epoch, and change nothing else of where a member stands.
  pub finish_handle-standing :
      (pt : MlsPlaintext) (confirmation secret : Bytes) (next : State) (m : Memory)
      (out : State × Memory)
      → finish_handle w pt confirmation secret next m ≡ ok out
      → standing out.0 ≡ next_standing (standing next)
  unfolding finish_handle
  finish_handle-standing pt confirmation secret next m out e =
      let (s1, f1, e1) = >>=-eq-ok (confirm_transcript w pt next) _ e in
      let (r, f2, e2) = >>=-eq-ok (advance_epoch w secret s1 m) _ e1 in
      let (good, _, e3) = >>=-eq-ok (verify_confirmation w confirmation r.0) _ e2 in
      let (_, _, e4) = >>=-eq-ok (guard good wrong_confirmation) _ e3 in
      let (s3, f5, e5) = >>=-eq-ok (interim_transcript w pt r.0) _ e4 in
      ap (λ q. standing q.0) (sym (ok_injective e5))
      ∙ interim_transcript-standing pt r.0 s3 f5
      ∙ advance_epoch-standing secret s1 m r f2
      ∙ ap next_standing (confirm_transcript-standing pt next s1 f1)

  pub ratchet_and_sign-standing :
      (op : Commit DirectPath) (secret : Bytes) (ctx : GroupContext) (priv : SignaturePrivateKey)
      (next : State) (m : Memory) (out : MlsPlaintext × State × Memory)
      → ratchet_and_sign w op secret ctx priv next m ≡ ok out
      → standing out.1 ≡ next_standing (standing next)
  unfolding ratchet_and_sign
  ratchet_and_sign-standing op secret ctx priv next m out e =
      let (s1, f1, e1) = >>=-eq-ok (confirm_transcript w (commit_message w op [] next) next) _ e in
      let (r, f2, e2) = >>=-eq-ok (advance_epoch w secret s1 m) _ e1 in
      let (confirmation, _, e3) = >>=-eq-ok (confirmation_of w r.0) _ e2 in
      let (pt, _, e4) =
        >>=-eq-ok
          (plaintext_sign w.wire w.services ctx priv r.0.scheme
            (commit_message w op confirmation next))
          _ e3 in
      let (s3, f5, e5) = >>=-eq-ok (interim_transcript w pt r.0) _ e4 in
      ap (λ q. standing q.1) (sym (ok_injective e5))
      ∙ interim_transcript-standing pt r.0 s3 f5
      ∙ advance_epoch-standing secret s1 m r f2
      ∙ ap next_standing (confirm_transcript-standing (commit_message w op [] next) next s1 f1)

  pub receive_path-standing :
      (from : ℕ) (zero_secret : Bytes) (path : Option DirectPath) (next : State)
      (out : Bytes × State)
      → receive_path w from zero_secret path next ≡ ok out
      → standing out.1 ≡ standing next
  unfolding receive_path standing
  receive_path-standing from zero_secret none next out e =
      ap (λ q. standing q.1) (sym (ok_injective e))
  receive_path-standing from zero_secret (some path) next out e =
      let hashed = state_root_hash w next in
      let (tree_hash, _, e1) = >>=-eq-ok hashed.0 _ e in
      let (ctx, _, e2) =
        >>=-eq-ok (or_error (w.wire.context (context_with [] hashed.1 tree_hash))) _ e1 in
      let (priv, _, e3) =
        >>=-eq-ok (decap w.primitives w.hpke from hashed.1.tree.nodes ctx path hashed.1.tree_priv) _
          e2 in
      let (_, _, e4) =
        >>=-eq-ok (merge (w.hashing hashed.1.tree.suite) from path hashed.1.tree.nodes).0 _ e3 in
      ap (λ q. standing q.1) (sym (ok_injective e4)) ∙ state_root_hash-standing next
