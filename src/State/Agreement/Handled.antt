-- ===== src/State/Agreement/Handled.antt =====
-- From what `Handle` does with a commit, once it has passed the checks, to the whole of `Handle`: that
-- another member's state takes the message that a `Commit` has made.
use go_mls.Base.{
  ==_refl, ℕ, ◌==◌, ◌≡◌, ◌≢◌, refl, sym, ap, subst, ◌∙◌, true, false, some, Bytes, bytes_eq,
  bytes_eq_refl, Outcome, ok, err, panic, >>=-eq-ok, and_then, and_then-eq-ok, ok_injective, arith,
}
use go_mls.KeyPackage.{or_error, SignaturePrivateKey, Services}
use go_mls.KeyPackage.Signing.{ChecksOut, or_error-eq-ok}
use go_mls.TreeKem.{Nodes}
use go_mls.Messages.Content.{content_type, content_type_commit, sender_type_member}
use go_mls.Messages.Plaintext.{
  GroupContext, MlsPlaintext, CommitData, PlaintextWire, commit_of, plaintext_sign,
  plaintext_verify, to_be_signed, signed_part, Sender,
}
use go_mls.Messages.Welcome.{Welcome}
use go_mls.KeySchedule.Memory.{Memory}
use go_mls.State.{
  World, State, keep_hashes, state_clone, state_root_hash, context_with, group_context,
  signer_public_key,
}
use go_mls.State.Commits.{commit_message}
use go_mls.State.Handling.{
  handle_commit, handle_other, admit, check_signature, checks, dispatch, handle,
}
use go_mls.State.Handling.Checks
use go_mls.State.Handling.Checks.{emptied-standing}
use go_mls.State.Frame.{apply-frame}
use go_mls.State.Standing.{Standing, standing}
use go_mls.State.Reached.{path_if_required-standing}
use go_mls.State.Agreement.{View, view, state_root_hash-view}
use go_mls.State.Agreement.Ends.{ratchet_and_sign-carries}
use go_mls.State.Agreement.Rounds.{emptied, Committed}

-- What lets a member's message through the checks of another, beside a common view: another leaf, the
-- same extensions and scheme, the sender's key in its leaf, and a root hash that is cached. A root
-- hash that `Handle` had to find first would reach the copy that it works on, where that of the
-- sender has none.
pub record Peers (w : World) (a b : State) : Type 0 where
  pub apart : a.index ≢ b.index
  pub same_extensions : a.extensions ≡ b.extensions
  pub same_scheme : a.scheme ≡ b.scheme
  pub signs :
      signer_public_key w (record { type = sender_type_member; sender = a.index }) b
      ≡ ok a.identity_priv.public_key
  pub cached : (state_root_hash w b).1 ≡ b

to_be_signed-signature :
    (w : PlaintextWire) (ctx : GroupContext) (pt : MlsPlaintext) (sig : Bytes)
    → to_be_signed w ctx (record pt { signature = sig }) ≡ to_be_signed w ctx pt
unfolding to_be_signed signed_part
to_be_signed-signature w ctx pt sig = refl

plaintext_verify_by :
    (w : PlaintextWire) (sv : Services) (ctx : GroupContext) (pub_key tbs : Bytes) (scheme : ℕ)
    (pt : MlsPlaintext)
    → to_be_signed w ctx pt ≡ ok tbs
    → sv.check scheme pub_key tbs pt.signature ≡ true
    → plaintext_verify w sv ctx pub_key scheme pt ≡ ok true
unfolding plaintext_verify
plaintext_verify_by w sv ctx pub_key tbs scheme pt f good = rw f (ap ok good)

-- A message that was signed is verified under the key that belongs to the signer's.
plaintext_verify-sign :
    (w : PlaintextWire) (sv : Services) (ctx : GroupContext) (priv : SignaturePrivateKey)
    (scheme : ℕ) (pt out : MlsPlaintext)
    → ChecksOut sv
    → plaintext_sign w sv ctx priv scheme pt ≡ ok out
    → plaintext_verify w sv ctx priv.public_key scheme out ≡ ok true
unfolding plaintext_sign
plaintext_verify-sign w sv ctx priv scheme pt out law e =
    let (tbs, f, e1) = >>=-eq-ok (to_be_signed w ctx pt) _ e in
    let (sig, g, e2) = >>=-eq-ok (or_error (sv.sign scheme priv tbs)) _ e1 in
    subst (λ x. plaintext_verify w sv ctx priv.public_key scheme x ≡ ok true) (ok_injective e2)
      (plaintext_verify_by w sv ctx priv.public_key tbs scheme (record pt { signature = sig })
        (to_be_signed-signature w ctx pt sig ∙ f) (law scheme priv tbs sig (or_error-eq-ok _ g)))

keep_hashes-identity :
    (o : Outcome (Bytes × Nodes)) (s : State) → (keep_hashes o s).1.identity_priv ≡ s.identity_priv
unfolding keep_hashes
keep_hashes-identity (ok r) s = refl
keep_hashes-identity (err why) s = refl
keep_hashes-identity (panic why) s = refl

module _ (w : World) where
  -- Two members with one view and the same extensions sign in one context.
  group_context-view :
      (a a' b : State) (ctx : GroupContext)
      → view a ≡ view b
      → a.extensions ≡ b.extensions
      → (state_root_hash w b).1 ≡ b
      → group_context w a ≡ (ok ctx, a')
      → (group_context w b ≡ (ok ctx, b)) × (a'.identity_priv ≡ a.identity_priv)
  unfolding group_context context_with view and_then state_root_hash
  group_context-view a a' b ctx e same_extensions cached run =
      let (h, mid, f, g) = and_then-eq-ok (state_root_hash w a) _ run in
      let (hashes, _) = state_root_hash-view w a b e in
      let there : state_root_hash w b ≡ (ok h, b) =
        ap (λ o. (o, (state_root_hash w b).1)) (hashes ∙ ap (λ q. q.0) f)
        ∙ ap (λ s. (ok h, s)) cached in
      let written : View → GroupContext = λ v. record {
        group_id = v.group_id;
        epoch = v.epoch;
        tree_hash = h;
        confirmed_transcript_hash = v.confirmed_transcript_hash;
        extensions = b.extensions;
      } in
      let contexts : context_with b.extensions b h ≡ context_with a.extensions a h =
        ap written (sym e) ∙ ap (λ x. context_with x a h) (sym same_extensions) in
      (
        rw there (
            ap (λ (c : GroupContext). (ok c, b)) contexts
            ∙ ap (λ (q : Outcome GroupContext × State). (q.0, b)) g),
        ap (λ (q : Outcome GroupContext × State). q.1.identity_priv) (sym g)
            ∙ ap (λ (q : Outcome Bytes × State). q.1.identity_priv) (sym f)
            ∙ keep_hashes-identity _ a,
      )

  -- `Handle` where all its checks let the message through.
  handle_by :
      (now : ℕ) (pt : MlsPlaintext) (d : CommitData) (pub_key : Bytes) (ctx : GroupContext)
      (b : State) (m : Memory) (r : State × Memory)
      → bytes_eq pt.group_id b.group_id ≡ true
      → (pt.epoch == b.epoch) ≡ true
      → signer_public_key w pt.sender b ≡ ok pub_key
      → group_context w b ≡ (ok ctx, b)
      → plaintext_verify w.wire w.services ctx pub_key b.scheme pt ≡ ok true
      → content_type pt.content ≡ ok content_type_commit
      → (pt.sender.type == sender_type_member) ≡ true
      → (pt.sender.sender == b.index) ≡ false
      → commit_of pt.content ≡ ok d
      → handle_commit w now pt d b m ≡ ok r
      → handle w now pt b m ≡ (ok (some r.0, r.1), b)
  unfolding handle checks admit check_signature and_then dispatch handle_other
  handle_by now pt d pub_key ctx b m r same_group same_epoch key context good type by_member other
        carries commits =
      rw (same_group, same_epoch, key, context, good, type, by_member, other, carries, commits) refl

  module _ (now : ℕ) (random : ℕ → ℕ → Bytes) (leaf_secret : Bytes) where
    -- The state that the sender signs for is where the sender stood.
    sent_from :
        (a a' : State) (m : Memory) (out : MlsPlaintext × Welcome × State × Memory)
        (c : Committed w now random leaf_secret a a' m out)
        → (c.next.group_id ≡ a.group_id)
          × (c.next.epoch ≡ a.epoch)
          × (c.next.index ≡ a.index)
          × (c.next.scheme ≡ a.scheme)
    unfolding standing state_clone go_mls.State.Handling.Checks.emptied
    sent_from a a' m out c =
        let stands =
          path_if_required-standing w random a.index leaf_secret c.named (emptied c.applied)
            (c.sent, c.next) c.has_path
          ∙ emptied-standing c.applied (state_clone a)
              (apply-frame w now c.named (state_clone a) c.applied c.is_applied) in
        (
          ap (λ (x : Standing). x.group_id) stands,
          ap (λ (x : Standing). x.epoch) stands,
          ap (λ (x : Standing). x.index) stands,
          ap (λ (x : Standing). x.scheme) stands,
        )

    -- The message of a commit passes the checks of a peer.
    pub handle_sent :
        (now' : ℕ) (a a' b : State) (m m' : Memory) (out : MlsPlaintext × Welcome × State × Memory)
        (d : CommitData) (r : State × Memory) (c : Committed w now random leaf_secret a a' m out)
        → view a ≡ view b
        → Peers w a b
        → ChecksOut w.services
        → commit_of out.0.content ≡ ok d
        → handle_commit w now' out.0 d b m' ≡ ok r
        → handle w now' out.0 b m' ≡ (ok (some r.0, r.1), b)
    unfolding commit_message content_type view
    handle_sent now' a a' b m m' out d r c e peers law carries commits =
        let (conf, sig, scheme, form, signed, same_scheme) =
          ratchet_and_sign-carries w c.sent c.next.tree_priv.update_secret c.ctx a'.identity_priv
            c.next m (out.0, out.2, out.3) c.is_signed in
        let (in_group, in_epoch, at_index, by_scheme) = sent_from a a' m out c in
        let (context, same_key) =
          group_context-view a a' b c.ctx e peers.same_extensions peers.cached c.in_context in
        let sender : out.0.sender ≡ record { type = sender_type_member; sender = a.index } =
          ap (λ (pt : MlsPlaintext). pt.sender) form
          ∙ ap (λ i. record { type = sender_type_member; sender = i }) at_index in
        let good =
          plaintext_verify-sign w.wire w.services c.ctx a'.identity_priv scheme _ out.0 law
            signed in
        let at_b : scheme ≡ b.scheme = same_scheme ∙ by_scheme ∙ peers.same_scheme in
        handle_by now' out.0 d a.identity_priv.public_key c.ctx b m' r
          (ap (λ g. bytes_eq g b.group_id)
              (ap (λ (pt : MlsPlaintext). pt.group_id) form
                ∙ in_group
                ∙ ap (λ (v : View). v.group_id) e)
            ∙ bytes_eq_refl b.group_id)
          (ap (λ n. n == b.epoch)
              (ap (λ (pt : MlsPlaintext). pt.epoch) form ∙ in_epoch ∙ ap (λ (v : View). v.epoch) e)
            ∙ ==_refl b.epoch)
          (ap (λ s. signer_public_key w s b) sender ∙ peers.signs) context
          (ap (λ x. plaintext_verify w.wire w.services c.ctx a.identity_priv.public_key x out.0)
              (sym at_b)
            ∙ ap
                (λ (k : SignaturePrivateKey).
                  plaintext_verify w.wire w.services c.ctx k.public_key scheme out.0)
                (sym same_key)
            ∙ good)
          (ap (λ (pt : MlsPlaintext). content_type pt.content) form)
          (ap (λ (s : Sender). s.type == sender_type_member) sender)
          (ap (λ (s : Sender). s.sender == b.index) sender ∙ ground (arith, peers.apart)) carries
          commits
