-- ===== src/State/Handling/Checks.antt =====
-- Which messages `Handle` takes, and where it leads.
use go_mls.Base.{
  ℕ, ◌==◌, ◌≡◌, ◌≢◌, ◌⊎◌, inl, inr, refl, sym, ap, subst, ◌∙◌, Bool, Bool-cases, true, false, not,
  ==_iff, if◌then◌else◌, Option, none, some, [], Bytes, bytes_eq, bytes_eq→eq, guard, guard-eq-ok,
  Outcome, ok, >>=-eq-ok, ok_injective, and_then-eq-ok, wrong_group, wrong_epoch, bad_signature,
  wrong_content, wrong_sender, own_commit, arith,
}
use go_mls.Crypto.{zero_bytes}
use go_mls.Messages.Content.{
  content_type, content_type_proposal, content_type_commit, sender_type_member,
}
use go_mls.Messages.Plaintext.{GroupContext, MlsPlaintext, CommitData, commit_of, plaintext_verify}
use go_mls.KeySchedule.Memory.{Memory}
use go_mls.State.{World, State, state_clone, group_context, signer_public_key, state_root_hash}
use go_mls.State.Proposals.{apply}
use go_mls.State.Frame.{Frame, frame, apply-frame}
use go_mls.State.Standing.{
  Standing, standing, next_standing, state_root_hash-standing, finish_handle-standing,
  receive_path-standing,
}
use go_mls.State.Handling.{
  queue, receive_path, handle_commit, handle_other, admit, check_signature, checks, dispatch,
  handle,
}

-- What every message that `Handle` takes has: the group and the epoch of the state, and a signature
-- under the key of the sender's leaf, over the state's group context.
pub record Accepted (w : World) (pt : MlsPlaintext) (s s1 : State) : Type 0 where
  pub same_group : pt.group_id ≡ s.group_id
  pub same_epoch : pt.epoch ≡ s.epoch
  pub pub_key : Bytes
  pub of_signer : signer_public_key w pt.sender s ≡ ok pub_key
  pub ctx : GroupContext
  pub in_context : group_context w s ≡ (ok ctx, s1)
  pub signed : plaintext_verify w.wire w.services ctx pub_key s1.scheme pt ≡ ok true

-- The next state stands in the next epoch, without pending proposals and without extensions.
unfoldable pub successor : State → Standing
successor s = record (standing s) {
  epoch = (next_standing (standing s)).epoch;
  extensions = [];
  pending_proposals = [];
}

-- Without pending proposals, where a member stands is part of the frame.
unfoldable pub emptied : State → State
emptied s = record s { pending_proposals = [] }

pub emptied-standing :
    (a b : State) → frame a ≡ frame b → standing (emptied a) ≡ standing (emptied b)
unfolding frame standing emptied
emptied-standing a b e =
    let of_frame : Frame → Standing = λ f. record {
      cipher_suite = f.cipher_suite;
      group_id = f.group_id;
      epoch = f.epoch;
      extensions = f.extensions;
      index = f.index;
      scheme = f.scheme;
      pending_proposals = [];
    } in
    ap of_frame e

pub emptied-state_clone :
    (s : State) → next_standing (standing (emptied (state_clone s))) ≡ successor s
unfolding successor next_standing standing state_clone emptied
emptied-state_clone s = refl

module _ (w : World) where
  checks-Accepted :
      (pt : MlsPlaintext) (s s1 : State) (t : ℕ)
      → checks w pt s ≡ (ok t, s1)
      → Accepted w pt s s1 × (content_type pt.content ≡ ok t)
  unfolding checks admit check_signature
  checks-Accepted pt s s1 t e =
      let (pub_key, s0, f, e1) = and_then-eq-ok (admit w pt s, s) _ e in
      let (ctx, mid, g, e2) = and_then-eq-ok (group_context w s0) _ e1 in
      let at_s : s ≡ s0 = ap (λ q. q.1) f in
      let at_mid : mid ≡ s1 = ap (λ q. q.1) e2 in
      let (_, g1, a1) =
        >>=-eq-ok (guard (bytes_eq pt.group_id s.group_id) wrong_group) _ (ap (λ q. q.0) f) in
      let (_, g2, a2) = >>=-eq-ok (guard (pt.epoch == s.epoch) wrong_epoch) _ a1 in
      let (good, g3, a3) =
        >>=-eq-ok (plaintext_verify w.wire w.services ctx pub_key mid.scheme pt) _
          (ap (λ q. q.0) e2) in
      let (_, g4, a4) = >>=-eq-ok (guard good bad_signature) _ a3 in
      (
        record {
          same_group = bytes_eq→eq pt.group_id s.group_id (guard-eq-ok _ wrong_group g1);
          same_epoch = (==_iff pt.epoch s.epoch).0 (guard-eq-ok _ wrong_epoch g2);
          pub_key = pub_key;
          of_signer = a2;
          ctx = ctx;
          in_context =
              subst (λ x. group_context w x ≡ (ok ctx, mid)) (sym at_s) g
              ∙ ap (λ x. (ok ctx, x)) at_mid;
          signed =
              subst (λ x. plaintext_verify w.wire w.services ctx pub_key x.scheme pt ≡ ok true)
                at_mid (g3 ∙ ap ok (guard-eq-ok good bad_signature g4));
        },
        a4,
      )

  pub group_context-standing :
      (s s1 : State) (ctx : GroupContext)
      → group_context w s ≡ (ok ctx, s1)
      → standing s1 ≡ standing s
  unfolding group_context
  group_context-standing s s1 ctx e =
      let (b, mid, g, e1) = and_then-eq-ok (state_root_hash w s) _ e in
      ap (λ q. standing q.1) (sym e1)
      ∙ ap (λ q. standing q.1) (sym g)
      ∙ state_root_hash-standing w s

  handle_commit-standing :
      (now : ℕ) (pt : MlsPlaintext) (d : CommitData) (s : State) (m : Memory) (out : State × Memory)
      → handle_commit w now pt d s m ≡ ok out
      → standing out.0 ≡ successor s
  unfolding handle_commit emptied
  handle_commit-standing now pt d s m out e =
      let (next, f1, e1) = >>=-eq-ok (apply w now d.commit (state_clone s)) _ e in
      let (zero_secret, _, e2) = >>=-eq-ok (zero_bytes s.cipher_suite) _ e1 in
      let cleared = emptied next in
      let (r, f3, e3) =
        >>=-eq-ok (receive_path w pt.sender.sender zero_secret d.commit.path cleared) _ e2 in
      let kept =
        emptied-standing next (state_clone s)
          (apply-frame w now d.commit (state_clone s) next f1) in
      finish_handle-standing w pt d.confirmation r.0 r.1 m out e3
      ∙ ap next_standing
          (receive_path-standing w pt.sender.sender zero_secret d.commit.path cleared r f3)
      ∙ ap next_standing kept
      ∙ emptied-state_clone s

  -- What `Handle` leads to once the signature is checked: a proposal is queued, or a member other than
  -- this one has sent a commit and a next state is given. No other content leads anywhere.
  abbrev pub Led : MlsPlaintext → State → State → Option State → State → Type 0
  Led pt s s1 r out =
      ((content_type pt.content ≡ ok content_type_proposal) × (r ≡ none) × (out ≡ queue pt s1))
      ⊎ ((next : State) × (r ≡ some next)
          × (content_type pt.content ≡ ok content_type_commit)
          × (pt.sender.type ≡ sender_type_member)
          × (out ≡ s1)
          × (pt.sender.sender ≢ s.index)
          × (standing next ≡ successor s))

  handle_other-leads :
      (now t : ℕ) (pt : MlsPlaintext) (s : State) (m : Memory) (r : Option State × Memory)
      → handle_other w now t pt s m ≡ ok r
      → (next : State) × (r.0 ≡ some next)
        × (t ≡ content_type_commit)
        × (pt.sender.type ≡ sender_type_member)
        × (pt.sender.sender ≢ s.index)
        × (standing next ≡ successor s)
  unfolding handle_other
  handle_other-leads now t pt s m r e =
      let (_, f1, e1) = >>=-eq-ok (guard (t == content_type_commit) wrong_content) _ e in
      let (_, f2, e2) =
        >>=-eq-ok (guard (pt.sender.type == sender_type_member) wrong_sender) _ e1 in
      let (_, f3, e3) = >>=-eq-ok (guard (not (pt.sender.sender == s.index)) own_commit) _ e2 in
      let (d, _, e4) = >>=-eq-ok (commit_of pt.content) _ e3 in
      let (q, f5, e5) = >>=-eq-ok (handle_commit w now pt d s m) _ e4 in
      let other : not (pt.sender.sender == s.index) ≡ true = guard-eq-ok _ own_commit f3 in
      (
        q.0,
        ap (λ x. x.0) (sym (ok_injective e5)),
        (==_iff t content_type_commit).0 (guard-eq-ok _ wrong_content f1),
        (==_iff pt.sender.type sender_type_member).0 (guard-eq-ok _ wrong_sender f2),
        ground (arith, other),
        handle_commit-standing now pt d s m q f5,
      )

  -- `dispatch` on a test that was made.
  abbrev taken :
      ℕ → ℕ → MlsPlaintext → State → Memory → Bool → Outcome (Option State × Memory) × State
  taken now t pt s1 m b =
      if b then (ok (none, m), queue pt s1) else (handle_other w now t pt s1 m, s1)

  successor_of : (a b : State) → standing a ≡ standing b → successor a ≡ successor b
  unfolding successor
  successor_of a b e =
      let next : Standing → Standing = λ t. record t {
        epoch = (next_standing t).epoch;
        extensions = [];
        pending_proposals = [];
      } in
      ap next e

  dispatch-leads :
      (now t : ℕ) (pt : MlsPlaintext) (s s1 : State) (m : Memory) (r : Option State × Memory)
      (out : State)
      → standing s1 ≡ standing s
      → content_type pt.content ≡ ok t
      → dispatch w now pt m t s1 ≡ (ok r, out)
      → Led pt s s1 r.0 out
  unfolding dispatch
  dispatch-leads now t pt s s1 m r out same is e = elim (Bool-cases (t == content_type_proposal)) [
    | inl queued ↦
        let e' : taken now t pt s1 m true ≡ (ok r, out) =
          subst (λ b. taken now t pt s1 m b ≡ (ok r, out)) queued e in
        inl (
          is ∙ ap ok ((==_iff t content_type_proposal).0 queued),
          ap (λ x. x.0) (sym (ok_injective (ap (λ x. x.0) e'))),
          sym (ap (λ x. x.1) e'),
        )
    | inr other ↦
        let e' : taken now t pt s1 m false ≡ (ok r, out) =
          subst (λ b. taken now t pt s1 m b ≡ (ok r, out)) other e in
        let (next, got, commits, by_member, not_own, stands) =
          handle_other-leads now t pt s1 m r (ap (λ x. x.0) e') in
        inr (
          next,
          got,
          is ∙ ap ok commits,
          by_member,
          sym (ap (λ x. x.1) e'),
          λ own. not_own (own ∙ sym (unfold standing in ap (λ x. x.index) same)),
          stands ∙ successor_of s1 s same,
        )
  ]

  -- Where `Handle` returns without an error, the message has the group and the epoch of the state and
  -- a good signature under the key of the sender's leaf, over the state's group context; and either its
  -- content is a proposal, which is queued, or its content is a commit and its sender is another
  -- member, and the next state stands in the next epoch with no pending proposals and no extensions,
  -- everything else about where the member stands being as before. So application data is not taken.
  pub handle-outcome :
      (now : ℕ) (pt : MlsPlaintext) (s : State) (m : Memory) (r : Option State × Memory)
      (out : State)
      → handle w now pt s m ≡ (ok r, out)
      → (s1 : State) × Accepted w pt s s1 × Led pt s s1 r.0 out
  unfolding handle
  handle-outcome now pt s m r out e =
      let (t, s1, f, g) = and_then-eq-ok (checks w pt s) (dispatch w now pt m) e in
      let (a, is) = checks-Accepted pt s s1 t f in
      (
        s1,
        a,
        dispatch-leads now t pt s s1 m r out (group_context-standing s s1 a.ctx a.in_context) is g,
      )
