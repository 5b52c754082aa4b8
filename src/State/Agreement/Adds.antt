-- ===== src/State/Agreement/Adds.antt =====
-- A commit without a path, from `Commit` of its sender to `Handle` of a receiver.
use go_mls.Base.{
  ℕ, ◌≡◌, refl, sym, ap, subst, ◌∙◌, Bool, true, false, if◌then◌else◌, Option, none, some, [],
  Bytes, ok, >>=-eq-ok, ok_injective,
}
use go_mls.Crypto.{zero_bytes}
use go_mls.KeyPackage.{or_error}
use go_mls.Messages.{Commit, path_required}
use go_mls.Messages.Plaintext.{MlsPlaintext, CommitData, commit_of}
use go_mls.Messages.Welcome.{Welcome}
use go_mls.TreeKem.Merge.{DirectPath}
use go_mls.PrivateTree.Sealing.{encap}
use go_mls.KeySchedule.Memory.{Memory}
use go_mls.KeySchedule.Agreement.{SameCommitSecret}
use go_mls.State.{World, State, state_clone, group_context}
use go_mls.State.Proposals.{apply}
use go_mls.State.Commits.{add_path, path_if_required, commit_message, commit}
use go_mls.State.Handling.{receive_path, finish_handle, handle_commit, handle}
use go_mls.KeyPackage.Signing.{ChecksOut}
use go_mls.KeySchedule.Material.{material}
use go_mls.State.Agreement.Handled.{Peers, handle_sent}
use go_mls.State.Frame.{Frame, frame, apply-frame}
use go_mls.State.Agreement.{view}
use go_mls.State.Agreement.Ends.{Accepts, finish_agree, ratchet_and_sign-carries}
use go_mls.State.Agreement.Alike.{Alike, apply-Alike}
use go_mls.State.Agreement.Rounds.{
  emptied, emptied-Alike, state_clone-Alike, applied_update_secret, Committed, commit-Committed,
}

module _ (w : World) where
  -- The keys are those of before, after proposals were applied to a copy.
  pub applied_keys :
      (now : ℕ) (c : Commit DirectPath) (a out : State)
      → apply w now c (state_clone a) ≡ ok out
      → out.keys ≡ a.keys
  unfolding frame state_clone
  applied_keys now c a out e =
      ap (λ (f : Frame). f.keys) (apply-frame w now c (state_clone a) out e)

  pub handle_commit_by :
      (now : ℕ) (pt : MlsPlaintext) (d : CommitData) (z secret : Bytes) (b applied next : State)
      (m : Memory) (r : State × Memory)
      → apply w now d.commit (state_clone b) ≡ ok applied
      → zero_bytes b.cipher_suite ≡ ok z
      → receive_path w pt.sender.sender z d.commit.path (emptied applied) ≡ ok (secret, next)
      → finish_handle w pt d.confirmation secret next m ≡ ok r
      → handle_commit w now pt d b m ≡ ok r
  unfolding handle_commit
  handle_commit_by now pt d z secret b applied next m r f g h k = rw (f, g, h, k) refl

  add_path-has :
      (random : ℕ → ℕ → Bytes) (i : ℕ) (leaf_secret : Bytes) (named sent : Commit DirectPath)
      (s next : State)
      → add_path w random i leaf_secret named s ≡ ok (sent, next)
      → (dp : DirectPath) × (sent.path ≡ some dp)
  unfolding add_path
  add_path-has random i leaf_secret named sent s next e =
      let hashed = group_context w s in
      let (ctx, _, e1) = >>=-eq-ok hashed.0 _ e in
      let (enc, _, e2) = >>=-eq-ok (or_error (w.wire.context ctx)) _ e1 in
      let t = hashed.1 in
      let done =
        encap w.primitives w.hpke w.services w.parent_hashing (w.hashing t.tree.suite) t.tree.suite
          random i enc leaf_secret t.identity_priv t.tree.nodes in
      let (made, _, e3) = >>=-eq-ok done.0 _ e2 in
      (made.1, ap (λ (q : Commit DirectPath × State). q.0.path) (sym (ok_injective e3)))

  -- A commit that has no path was sent as it was named, to the state that the proposals left.
  no_path_sent :
      (random : ℕ → ℕ → Bytes) (i : ℕ) (leaf_secret : Bytes) (named sent : Commit DirectPath)
      (s next : State)
      → path_if_required w random i leaf_secret named s ≡ ok (sent, next)
      → sent.path ≡ none
      → (sent ≡ named) × (next ≡ s)
  unfolding path_if_required
  no_path_sent random i leaf_secret named sent s next e no_path = required (path_required named) e
    where
      required :
          (b : Bool)
          → (if b then add_path w random i leaf_secret named s else ok (named, s)) ≡ ok (sent, next)
          → (sent ≡ named) × (next ≡ s)
      required false e =
          (ap (λ q. q.0) (sym (ok_injective e)), ap (λ q. q.1) (sym (ok_injective e)))
      required true e = let (dp, has) = add_path-has random i leaf_secret named sent s next e in cc

  -- What the receiver goes on with where there is no path.
  receive_none :
      (from : ℕ) (z : Bytes) (path : Option DirectPath) (s : State)
      → path ≡ none
      → receive_path w from z path s ≡ ok (z, s)
  unfolding receive_path
  receive_none from z path s e = rw e refl

  module _ (now now' : ℕ) (random : ℕ → ℕ → Bytes) (welcome_random : ℕ → Bytes)
      (leaf_secret : Bytes) where
    -- The commit that the receiver reads is the one that was sent.
    pub sent-read :
        {a a' b : State} {m m' : Memory} {out : MlsPlaintext × Welcome × State × Memory}
        {d : CommitData} {sb : Bytes} (c : Committed w now random leaf_secret a a' m out)
        → (acc : Accepts w out.0 c.sent sb out.2 out.3 b m') → commit_of out.0.content ≡ ok d
        → record { commit = c.sent; confirmation = acc.confirmation } ≡ d
    sent-read c acc carries = ok_injective (sym acc.carries ∙ carries)

    -- Where the receiver's path leaves it with the view of the sender, and with a secret that the
    -- extraction does not tell from the sender's, `Handle` gives the next state of the sender.
    pub round_agree :
        (a b a' : State) (m m' : Memory) (out : MlsPlaintext × Welcome × State × Memory)
        (d : CommitData) (z sb : Bytes) (applied next : State)
        → (c : Committed w now random leaf_secret a a' m out) → view a ≡ view b
        → Peers w a b
        → ChecksOut w.services
        → commit_of out.0.content ≡ ok d
        → view c.next ≡ view next
        → SameCommitSecret w.primitives c.next.keys.suite c.next.tree_priv.update_secret sb
        → apply w now' d.commit (state_clone b) ≡ ok applied
        → zero_bytes b.cipher_suite ≡ ok z
        → receive_path w out.0.sender.sender z d.commit.path (emptied applied) ≡ ok (sb, next)
        → (r : State × Memory) × (handle w now' out.0 b m' ≡ (ok (some r.0, r.1), b))
          × (view out.2 ≡ view r.0)
          × (material r.0.keys r.1 ≡ material out.2.keys out.3)
    round_agree a b a' m m' out d z sb applied next c e peers law carries views same takes zeros
          received =
        let acc =
          finish_agree w c.sent c.next.tree_priv.update_secret sb c.ctx a'.identity_priv c.next next
            m m' (out.0, out.2, out.3) views same c.is_signed in
        let read = sent-read c acc carries in
        let finished : finish_handle w out.0 d.confirmation sb next m' ≡ ok (acc.out, acc.memory) =
          subst
            (λ (x : CommitData).
              finish_handle w out.0 x.confirmation sb next m' ≡ ok (acc.out, acc.memory))
            read acc.takes in
        (
          (acc.out, acc.memory),
          handle_sent w now random leaf_secret now' a a' b m m' out d (acc.out, acc.memory) c e
              peers law carries
              (handle_commit_by now' out.0 d z sb b applied next m' (acc.out, acc.memory) takes
                zeros received finished),
          acc.same_view,
          acc.same_material,
        )

    pub sent_commit :
        {a a' : State} {m : Memory} {out : MlsPlaintext × Welcome × State × Memory} {d : CommitData}
        (c : Committed w now random leaf_secret a a' m out)
        → commit_of out.0.content ≡ ok d
        → c.sent ≡ d.commit
    unfolding commit_of commit_message
    sent_commit {a' = a'} {m = m} {out = out} {d = d} c carries =
        let (conf, sig, scheme, form, _, _) =
          ratchet_and_sign-carries w c.sent c.next.tree_priv.update_secret c.ctx a'.identity_priv
            c.next m (out.0, out.2, out.3) c.is_signed in
        ap (λ (x : CommitData). x.commit)
          (ok_injective (ap (λ (pt : MlsPlaintext). commit_of pt.content) (sym form) ∙ carries))

    -- One member commits without a path, and `Handle` of another, whose state was alike, takes the
    -- message: where the receiver is at another leaf, has the same extensions and scheme, the sender's
    -- key in the sender's leaf and its root hash cached, signatures that were made check out, and the
    -- named proposals apply for the receiver too, `Handle` gives a next state, and both have one view
    -- of the next epoch and key sources with the same secrets. The extraction must not tell the empty
    -- secret of the sender from the zeros of the receiver, as a MAC does not that fills up its key.
    pub commit_adds_agree :
        (a b a' : State) (m m' : Memory) (out : MlsPlaintext × Welcome × State × Memory)
        (d : CommitData) (z : Bytes) (applied : State)
        → Alike a b
        → Peers w a b
        → ChecksOut w.services
        → commit w now random welcome_random leaf_secret a m ≡ (ok out, a')
        → commit_of out.0.content ≡ ok d
        → d.commit.path ≡ none
        → apply w now' d.commit (state_clone b) ≡ ok applied
        → zero_bytes b.cipher_suite ≡ ok z
        → SameCommitSecret w.primitives a.keys.suite [] z
        → (r : State × Memory) × (handle w now' out.0 b m' ≡ (ok (some r.0, r.1), b))
          × (view out.2 ≡ view r.0)
          × (material r.0.keys r.1 ≡ material out.2.keys out.3)
    commit_adds_agree a b a' m m' out d z applied e peers law run carries no_path takes zeros same =
        let c = commit-Committed w now random leaf_secret welcome_random a a' m out run in
        let read : c.sent ≡ d.commit = sent_commit c carries in
        let (as_named, unchanged) =
          no_path_sent random a.index leaf_secret c.named c.sent (emptied c.applied) c.next
            c.has_path (ap (λ (x : Commit DirectPath). x.path) read ∙ no_path) in
        let applies : apply w now' c.named (state_clone b) ≡ ok applied =
          subst (λ x. apply w now' x (state_clone b) ≡ ok applied) (sym read ∙ as_named) takes in
        let alike = emptied-Alike c.applied applied (
          apply-Alike w now now' c.named (state_clone a) (state_clone b) c.applied applied
            (state_clone-Alike a b e) c.is_applied applies) in
        let secret : c.next.tree_priv.update_secret ≡ [] =
          ap (λ (s : State). s.tree_priv.update_secret) unchanged
          ∙ applied_update_secret w now c.named a c.applied c.is_applied in
        let keys : c.next.keys ≡ a.keys =
          ap (λ (s : State). s.keys) unchanged
          ∙ applied_keys now c.named a c.applied c.is_applied in
        round_agree a b a' m m' out d z z applied (emptied applied) c e.views peers law carries
          (ap view unchanged ∙ alike.views)
          (subst (λ k. SameCommitSecret w.primitives k.suite c.next.tree_priv.update_secret z)
            (sym keys)
            (subst (λ x. SameCommitSecret w.primitives a.keys.suite x z) (sym secret) same))
          takes zeros (receive_none out.0.sender.sender z d.commit.path (emptied applied) no_path)
