-- ===== src/State/Agreement.antt =====
-- What the members of a group share, and that the two ends of a commit, `ratchetAndSign` of the
-- sender and the last part of `Handle` of the receiver in state.go, lead to the same.
pub mod Ends
pub mod Applied
pub mod Alike
pub mod Rounds
pub mod Handled
pub mod Adds
pub mod Added
pub mod Paths
use go_mls.Base.{
  ℕ, ◌≡◌, refl, sym, ap, subst, ◌∙◌, true, none, some, [], ◌++◌, Bytes, bytes_eq, bytes_eq_refl,
  guard, Outcome, ok, err, panic, ◌>>=◌, >>=-eq-ok, ok_injective, wrong_confirmation,
}
use go_mls.KeyPackage.{or_error, SignaturePrivateKey}
use go_mls.Crypto.{digest}
use go_mls.Crypto.Aead.{errors_panic}
use go_mls.Messages.{Commit}
use go_mls.Messages.Content.{of_commit, content_type}
use go_mls.Messages.Plaintext.{
  GroupContext, MlsPlaintext, commit_of, commit_content, commit_auth_data, plaintext_sign,
  to_be_signed,
}
use go_mls.TreeKem.{Nodes, TreeKemPublicKey, size}
use go_mls.TreeKem.Hashes.{root_hash}
use go_mls.TreeKem.Merge.{DirectPath}
use go_mls.KeySchedule.Memory.{Memory}
use go_mls.KeySchedule.Epoch.{KeyScheduleEpoch, next_epoch}
use go_mls.KeySchedule.Material.{material}
use go_mls.KeySchedule.Agreement.{Secrets, secrets, SameCommitSecret, next_epoch_agree}
use go_mls.State.{World, State, keep_hashes, state_root_hash, context_with}
use go_mls.State.Commits.{
  next_epoch_number, mac_of, confirm_transcript, interim_transcript, update_epoch_secrets,
  advance_epoch, confirmation_of, commit_message, ratchet_and_sign,
}
use go_mls.State.Handling.{verify_confirmation, finish_handle}

-- What `State.Equals` compares, the keys by those of their secrets that are no addresses; the others
-- are the material of the keys.
pub record View : Type 0 where
  pub cipher_suite : ℕ
  pub group_id : Bytes
  pub epoch : ℕ
  pub tree : TreeKemPublicKey
  pub confirmed_transcript_hash : Bytes
  pub interim_transcript_hash : Bytes
  pub shared : Secrets

unfoldable pub view : State → View
view s = record {
  cipher_suite = s.cipher_suite;
  group_id = s.group_id;
  epoch = s.epoch;
  tree = s.tree;
  confirmed_transcript_hash = s.confirmed_transcript_hash;
  interim_transcript_hash = s.interim_transcript_hash;
  shared = secrets s.keys;
}

keep_hashes-view :
    (o : Outcome (Bytes × Nodes)) (a b : State)
    → view a ≡ view b
    → ((keep_hashes o b).0 ≡ (keep_hashes o a).0)
      × (view (keep_hashes o a).1 ≡ view (keep_hashes o b).1)
unfolding keep_hashes view
keep_hashes-view (ok (h, ns)) a b e =
    let cached : View → View =
      λ v. record v { tree = record { suite = v.tree.suite; nodes = ns } } in
    (refl, ap cached e)
keep_hashes-view (err why) a b e = (refl, e)
keep_hashes-view (panic why) a b e = (refl, e)

module _ (w : World) (a b : State) (e : view a ≡ view b) where
  -- The root hash is the same for both, and is cached by both.
  pub state_root_hash-view :
      ((state_root_hash w b).0 ≡ (state_root_hash w a).0)
      × (view (state_root_hash w a).1 ≡ view (state_root_hash w b).1)
  unfolding state_root_hash view
  state_root_hash-view =
      let o : Outcome (Bytes × Nodes) = root_hash (w.hashing a.tree.suite) a.tree.nodes in
      let same : root_hash (w.hashing b.tree.suite) b.tree.nodes ≡ o =
        ap (λ (v : View). root_hash (w.hashing v.tree.suite) v.tree.nodes) (sym e) in
      rw same (keep_hashes-view o a b e)

  pub confirm_transcript-view :
      (pt pt' : MlsPlaintext) (out : State)
      → commit_content w.wire pt' ≡ commit_content w.wire pt
      → confirm_transcript w pt a ≡ ok out
      → (out' : State) × (confirm_transcript w pt' b ≡ ok out') × (view out ≡ view out')
  unfolding confirm_transcript view
  confirm_transcript-view pt pt' out same run =
      let (content, f, g) = >>=-eq-ok (commit_content w.wire pt) _ run in
      let (confirmed, h, k) =
        >>=-eq-ok (digest w.primitives a.cipher_suite (a.interim_transcript_hash ++ content)) _ g in
      let there : digest w.primitives b.cipher_suite (b.interim_transcript_hash ++ content)
          ≡ ok confirmed =
        ap (λ (v : View). digest w.primitives v.cipher_suite (v.interim_transcript_hash ++ content))
          (sym e)
        ∙ h in
      let now : View → View = λ v. record v { confirmed_transcript_hash = confirmed } in
      (
        record b { confirmed_transcript_hash = confirmed },
        rw (same, f, there) refl,
        ap view (sym (ok_injective k)) ∙ ap now e,
      )

  pub interim_transcript-view :
      (pt : MlsPlaintext) (out : State)
      → interim_transcript w pt a ≡ ok out
      → (out' : State) × (interim_transcript w pt b ≡ ok out') × (view out ≡ view out')
  unfolding interim_transcript view
  interim_transcript-view pt out run =
      let (auth, f, g) = >>=-eq-ok (commit_auth_data w.wire pt) _ run in
      let (interim, h, k) =
        >>=-eq-ok (digest w.primitives a.cipher_suite (a.confirmed_transcript_hash ++ auth)) _ g in
      let there : digest w.primitives b.cipher_suite (b.confirmed_transcript_hash ++ auth)
          ≡ ok interim =
        ap (λ (v : View). digest w.primitives v.cipher_suite (v.confirmed_transcript_hash ++ auth))
          (sym e)
        ∙ h in
      let now : View → View = λ v. record v { interim_transcript_hash = interim } in
      (
        record b { interim_transcript_hash = interim },
        rw (f, there) refl,
        ap view (sym (ok_injective k)) ∙ ap now e,
      )

  pub confirmation_of-view : confirmation_of w b ≡ confirmation_of w a
  unfolding confirmation_of view secrets
  confirmation_of-view =
      ap
        (λ (v : View).
          mac_of w.primitives v.cipher_suite v.shared.confirmation_key v.confirmed_transcript_hash)
        (sym e)

keep_hashes-keys : (o : Outcome (Bytes × Nodes)) (s : State) → (keep_hashes o s).1.keys ≡ s.keys
unfolding keep_hashes
keep_hashes-keys (ok r) s = refl
keep_hashes-keys (err why) s = refl
keep_hashes-keys (panic why) s = refl

state_root_hash-keys : (w : World) (s : State) → (state_root_hash w s).1.keys ≡ s.keys
unfolding state_root_hash
state_root_hash-keys w s = keep_hashes-keys _ s

-- Two members with one view, who were given secrets of a commit that the extraction of their suite
-- does not tell apart.
module _ (w : World) (sa sb : Bytes) where
  -- The context and the keys of the next epoch, at a root hash.
  next_keys-view :
      (a b : State) (tree_hash ctx : Bytes) (m m' : Memory) (r : KeyScheduleEpoch × Memory)
      → view a ≡ view b
      → SameCommitSecret w.primitives a.keys.suite sa sb
      → errors_panic (or_error (w.wire.context (context_with [] a tree_hash))) ≡ ok ctx
      → next_epoch w.primitives a.keys (size a.tree.nodes) [] sa ctx m ≡ ok r
      → (errors_panic (or_error (w.wire.context (context_with [] b tree_hash))) ≡ ok ctx)
        × ((r' : KeyScheduleEpoch × Memory) × (next_epoch w.primitives b.keys
                (size b.tree.nodes)
                []
                sb
                ctx
                m'
              ≡ ok r')
            × (secrets r'.0 ≡ secrets r.0)
            × (material r'.0 r'.1 ≡ material r.0 r.1))
  unfolding context_with view secrets
  next_keys-view a b tree_hash ctx m m' r e same f g =
      let written : View → Outcome Bytes = λ v. errors_panic (
        or_error (
          w.wire.context (record {
            group_id = v.group_id;
            epoch = v.epoch;
            tree_hash = tree_hash;
            confirmed_transcript_hash = v.confirmed_transcript_hash;
            extensions = [];
          }))) in
      let width : size a.tree.nodes ≡ size b.tree.nodes = ap (λ (v : View). size v.tree.nodes) e in
      let (r', run, eq, holds, _, _) =
        next_epoch_agree w.primitives a.keys b.keys (size b.tree.nodes) [] sa sb ctx m m' r
          (ap (λ (v : View). v.shared.suite) e) (ap (λ (v : View). v.shared.init_secret) e) same
          (rw width at g) in
      (ap written (sym e) ∙ f, (r', run, eq, holds))

  update_epoch_secrets-view :
      (a b : State) (m m' : Memory) (out : State × Memory)
      → view a ≡ view b
      → SameCommitSecret w.primitives a.keys.suite sa sb
      → update_epoch_secrets w sa a m ≡ ok out
      → (out' : State × Memory) × (update_epoch_secrets w sb b m' ≡ ok out')
        × (view out.0 ≡ view out'.0)
        × (material out'.0.keys out'.1 ≡ material out.0.keys out.1)
  unfolding update_epoch_secrets view
  update_epoch_secrets-view a b m m' out e same run =
      let ra = state_root_hash w a in
      let rb = state_root_hash w b in
      let (hashes, e') = state_root_hash-view w a b e in
      let (tree_hash, f1, e1) = >>=-eq-ok ra.0 _ run in
      let (ctx, f2, e2) =
        >>=-eq-ok (errors_panic (or_error (w.wire.context (context_with [] ra.1 tree_hash)))) _
          e1 in
      let (r, f3, e3) =
        >>=-eq-ok (next_epoch w.primitives ra.1.keys (size ra.1.tree.nodes) [] sa ctx m) _ e2 in
      let same' =
        subst (λ k. SameCommitSecret w.primitives k.suite sa sb) (sym (state_root_hash-keys w a))
          same in
      let (g2, there) = next_keys-view ra.1 rb.1 tree_hash ctx m m' r e' same' f2 f3 in
      let (r', g3, eq, holds) = there in
      let now : View → View = λ v. record v { shared = secrets r.0 } in
      (
        (record rb.1 { keys = r'.0 }, r'.1),
        rw (hashes ∙ f1, g2, g3) refl,
        ap (λ q. view q.0) (sym (ok_injective e3))
            ∙ ap now e'
            ∙ ap (λ k. record (view rb.1) { shared = k }) (sym eq),
        holds ∙ ap (λ q. material q.0.keys q.1) (ok_injective e3),
      )

  pub advance_epoch-view :
      (a b : State) (m m' : Memory) (out : State × Memory)
      → view a ≡ view b
      → SameCommitSecret w.primitives a.keys.suite sa sb
      → advance_epoch w sa a m ≡ ok out
      → (out' : State × Memory) × (advance_epoch w sb b m' ≡ ok out')
        × (view out.0 ≡ view out'.0)
        × (material out'.0.keys out'.1 ≡ material out.0.keys out.1)
  unfolding advance_epoch
  advance_epoch-view a b m m' out e same run =
      let now : View → View = λ v. record v { epoch = next_epoch_number v.epoch } in
      update_epoch_secrets-view (record a { epoch = next_epoch_number a.epoch })
        (record b { epoch = next_epoch_number b.epoch }) m m' out (unfold view in ap now e) same run
