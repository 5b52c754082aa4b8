-- ===== src/State/Agreement/Ends.antt =====
-- The two ends of a commit: `ratchetAndSign` of the sender and the last part of `Handle` of the
-- receiver in state.go lead to one view, and the receiver accepts the sender's confirmation.
use go_mls.Base.{
  ℕ, true, ◌≡◌, refl, sym, ap, subst, ◌∙◌, [], ◌++◌, Bytes, bytes_eq_refl, ok, >>=-eq-ok,
  ok_injective,
}
use go_mls.KeyPackage.{or_error, SignaturePrivateKey}
use go_mls.Crypto.{digest}
use go_mls.Messages.{Commit}
use go_mls.Messages.Content.{content_type}
use go_mls.Messages.Plaintext.{
  GroupContext, MlsPlaintext, commit_of, commit_content, commit_auth_data, plaintext_sign,
  to_be_signed,
}
use go_mls.TreeKem.Merge.{DirectPath}
use go_mls.KeySchedule.Memory.{Memory}
use go_mls.KeySchedule.Material.{material}
use go_mls.KeySchedule.Agreement.{SameCommitSecret}
use go_mls.State.{World, State}
use go_mls.State.Commits.{
  confirm_transcript, interim_transcript, advance_epoch, confirmation_of, commit_message,
  ratchet_and_sign,
}
use go_mls.State.Handling.{verify_confirmation, finish_handle}
use go_mls.State.Standing.{
  Standing, standing, next_standing, confirm_transcript-standing, advance_epoch-standing,
}
use go_mls.State.Agreement.{
  view, confirm_transcript-view, interim_transcript-view, confirmation_of-view, advance_epoch-view,
}

module _ (w : World) where
  plaintext_sign-content :
      (ctx : GroupContext) (priv : SignaturePrivateKey) (scheme : ℕ) (pt out : MlsPlaintext)
      → plaintext_sign w.wire w.services ctx priv scheme pt ≡ ok out
      → (sig : Bytes) × (out ≡ record pt { signature = sig })
  unfolding plaintext_sign
  plaintext_sign-content ctx priv scheme pt out e =
      let (tbs, _, e1) = >>=-eq-ok (to_be_signed w.wire ctx pt) _ e in
      let (sig, _, e2) = >>=-eq-ok (or_error (w.services.sign scheme priv tbs)) _ e1 in
      (sig, sym (ok_injective e2))

  confirm_transcript-keys :
      (pt : MlsPlaintext) (s out : State) → confirm_transcript w pt s ≡ ok out → out.keys ≡ s.keys
  unfolding confirm_transcript
  confirm_transcript-keys pt s out e =
      let (content, _, e1) = >>=-eq-ok (commit_content w.wire pt) _ e in
      let (_, _, e2) =
        >>=-eq-ok (digest w.primitives s.cipher_suite (s.interim_transcript_hash ++ content)) _
          e1 in
      ap (λ (t : State). t.keys) (sym (ok_injective e2))

  interim_transcript-keys :
      (pt : MlsPlaintext) (s out : State) → interim_transcript w pt s ≡ ok out → out.keys ≡ s.keys
  unfolding interim_transcript
  interim_transcript-keys pt s out e =
      let (auth, _, e1) = >>=-eq-ok (commit_auth_data w.wire pt) _ e in
      let (_, _, e2) =
        >>=-eq-ok (digest w.primitives s.cipher_suite (s.confirmed_transcript_hash ++ auth)) _ e1 in
      ap (λ (t : State). t.keys) (sym (ok_injective e2))

  -- A message and its signed version go into the confirmed transcript alike.
  commit_content_signed :
      (op : Commit DirectPath) (c c' sig : Bytes) (s : State)
      → commit_content w.wire (record (commit_message w op c s) { signature = sig })
        ≡ commit_content w.wire (commit_message w op c' s)
  unfolding commit_content commit_message commit_of content_type
  commit_content_signed op c c' sig s = refl

  verify_confirmation-view :
      (a b : State) (c : Bytes)
      → view a ≡ view b
      → confirmation_of w a ≡ ok c
      → verify_confirmation w c b ≡ ok true
  unfolding verify_confirmation
  verify_confirmation-view a b c e f =
      rw (confirmation_of-view w a b e ∙ f) (ap ok (bytes_eq_refl c))

  finish_handle_by :
      (pt : MlsPlaintext) (c secret : Bytes) (s s1 s3 : State) (m : Memory) (r : State × Memory)
      → confirm_transcript w pt s ≡ ok s1
      → advance_epoch w secret s1 m ≡ ok r
      → verify_confirmation w c r.0 ≡ ok true
      → interim_transcript w pt r.0 ≡ ok s3
      → finish_handle w pt c secret s m ≡ ok (s3, r.1)
  unfolding finish_handle
  finish_handle_by pt c secret s s1 s3 m r f g h k = rw (f, g, h, k) refl

  -- A message that was signed carries the commit.
  pub ratchet_and_sign-carries :
      (op : Commit DirectPath) (secret : Bytes) (ctx : GroupContext) (priv : SignaturePrivateKey)
      (a : State) (m : Memory) (out : MlsPlaintext × State × Memory)
      → ratchet_and_sign w op secret ctx priv a m ≡ ok out
      → (c : Bytes) × (sig : Bytes) × (scheme : ℕ) × (out.0
          ≡ record (commit_message w op c a) { signature = sig })
        × (plaintext_sign w.wire w.services ctx priv scheme (commit_message w op c a) ≡ ok out.0)
        × (scheme ≡ a.scheme)
  unfolding ratchet_and_sign
  ratchet_and_sign-carries op secret ctx priv a m out e =
      let (s1, f1, e1) = >>=-eq-ok (confirm_transcript w (commit_message w op [] a) a) _ e in
      let (r, f2, e2) = >>=-eq-ok (advance_epoch w secret s1 m) _ e1 in
      let (c, _, e3) = >>=-eq-ok (confirmation_of w r.0) _ e2 in
      let (pt, f4, e4) =
        >>=-eq-ok (plaintext_sign w.wire w.services ctx priv r.0.scheme (commit_message w op c a)) _
          e3 in
      let (s3, _, e5) = >>=-eq-ok (interim_transcript w pt r.0) _ e4 in
      let (sig, form) =
        plaintext_sign-content ctx priv r.0.scheme (commit_message w op c a) pt f4 in
      let whole : pt ≡ out.0 = ap (λ (o : MlsPlaintext × State × Memory). o.0) (ok_injective e5) in
      let stands : standing r.0 ≡ next_standing (standing a) =
        advance_epoch-standing w secret s1 m r f2
        ∙ ap next_standing (confirm_transcript-standing w (commit_message w op [] a) a s1 f1) in
      (
        c,
        sig,
        r.0.scheme,
        sym whole ∙ form,
        f4 ∙ ap ok whole,
        unfold standing next_standing in ap (λ (t : Standing). t.scheme) stands,
      )

  -- What the receiver is left with, who has taken the sender's message.
  pub record Accepts (pt : MlsPlaintext) (op : Commit DirectPath) (secret : Bytes) (outA : State)
      (memoryA : Memory) (b : State) (m : Memory) : Type 0 where
    pub confirmation : Bytes
    pub out : State
    pub memory : Memory
    pub carries : commit_of pt.content ≡ ok (record { commit = op; confirmation = confirmation })
    pub takes : finish_handle w pt confirmation secret b m ≡ ok (out, memory)
    pub same_view : view outA ≡ view out
    pub same_material : material out.keys memory ≡ material outA.keys memoryA

  -- Two members with one view, who have secrets of a commit that the extraction of their suite does
  -- not tell apart: where `ratchetAndSign` of one returns, the last part of `Handle` of the other takes
  -- the message with its confirmation, and both have one view and keys of one material again.
  pub finish_agree :
      (op : Commit DirectPath) (sa sb : Bytes) (ctx : GroupContext) (priv : SignaturePrivateKey)
      (a b : State) (m m' : Memory) (out : MlsPlaintext × State × Memory)
      → view a ≡ view b
      → SameCommitSecret w.primitives a.keys.suite sa sb
      → ratchet_and_sign w op sa ctx priv a m ≡ ok out
      → Accepts out.0 op sb out.1 out.2 b m'
  unfolding ratchet_and_sign
  finish_agree op sa sb ctx priv a b m m' out e same run =
      let (s1, f1, e1) = >>=-eq-ok (confirm_transcript w (commit_message w op [] a) a) _ run in
      let (r, f2, e2) = >>=-eq-ok (advance_epoch w sa s1 m) _ e1 in
      let (c, f3, e3) = >>=-eq-ok (confirmation_of w r.0) _ e2 in
      let (pt, f4, e4) =
        >>=-eq-ok (plaintext_sign w.wire w.services ctx priv r.0.scheme (commit_message w op c a)) _
          e3 in
      let (s3, f5, e5) = >>=-eq-ok (interim_transcript w pt r.0) _ e4 in
      let (sig, form) =
        plaintext_sign-content ctx priv r.0.scheme (commit_message w op c a) pt f4 in
      let content : commit_content w.wire pt ≡ commit_content w.wire (commit_message w op [] a) =
        ap (commit_content w.wire) form ∙ commit_content_signed op c [] sig a in
      let same' =
        subst (λ k. SameCommitSecret w.primitives k.suite sa sb)
          (sym (confirm_transcript-keys (commit_message w op [] a) a s1 f1)) same in
      let (t1, g1, v1) =
        confirm_transcript-view w a b e (commit_message w op [] a) pt s1 content f1 in
      let (q, g2, v2, holds) = advance_epoch-view w sa sb s1 t1 m m' r v1 same' f2 in
      let (t3, g5, v3) = interim_transcript-view w r.0 q.0 v2 pt s3 f5 in
      let whole : out ≡ (pt, s3, r.1) = sym (ok_injective e5) in
      subst (λ (o : MlsPlaintext × State × Memory). Accepts o.0 op sb o.1 o.2 b m') (sym whole)
        (record {
          confirmation = c;
          out = t3;
          memory = q.1;
          carries =
              ap (λ (x : MlsPlaintext). commit_of x.content) form
              ∙ (unfold commit_of commit_message in refl);
          takes =
              finish_handle_by pt c sb b t1 t3 m' q g1 g2 (verify_confirmation-view r.0 q.0 c v2 f3)
                g5;
          same_view = v3;
          same_material =
              ap (λ k. material k q.1) (interim_transcript-keys pt q.0 t3 g5)
              ∙ holds
              ∙ ap (λ k. material k r.1) (sym (interim_transcript-keys pt r.0 s3 f5));
        })
