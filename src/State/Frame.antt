-- ===== src/State/Frame.antt =====
-- What the operations on proposals leave of a state as it was.
use go_mls.Base.{
  ℕ, ◌≡◌, refl, sym, ap, subst, ◌∙◌, Bool-cases, inl, inr, lookup, true, false, Bool, Option, none,
  some, List, [], ◌∷◌, Bytes, ok, ◌>>=◌, >>=-eq-ok, ok_injective, guard, unsupported_suite,
  bad_signature, wrong_sender, ◌==◌, not, if◌then◌else◌,
}
use go_mls.Extensions.{ExtensionList}
use go_mls.KeyPackage.{SignaturePrivateKey, key_package_verify}
use go_mls.Crypto.Aead.{errors_panic}
use go_mls.Credential.{credential_equals}
use go_mls.Messages.Content.{sender_type_member}
use go_mls.Messages.Welcome.{or_blank_leaf}
use go_mls.KeySchedule.Epoch.{KeyScheduleEpoch}
use go_mls.Messages.{AddProposal, UpdateProposal, RemoveProposal, Commit}
use go_mls.Messages.Plaintext.{MlsPlaintext}
use go_mls.TreeKem.{Nodes, blank_path, add_leaf, key_package_at, update_leaf}
use go_mls.TreeKem.Merge.{DirectPath}
use go_mls.PrivateTree.{set_leaf_secret, keep_secret}
use go_mls.State.{World, State, UpdateSecrets, to_ref, find_proposal}
use go_mls.State.Proposals.{
  with_nodes, mark_new, take_identity, take_update, take_own, apply_remove_proposal,
  apply_add_proposal, apply_update_proposal, apply_update_from, apply_proposal, apply_found,
  apply_new, apply_proposals, apply, seen, proposal_of,
}

-- All of a state but its tree, its private keys and the new credentials. Of the private keys of the
-- tree it has the update secret.
pub record Frame : Type 0 where
  pub cipher_suite : ℕ
  pub group_id : Bytes
  pub epoch : ℕ
  pub confirmed_transcript_hash : Bytes
  pub interim_transcript_hash : Bytes
  pub extensions : ExtensionList
  pub index : ℕ
  pub scheme : ℕ
  pub pending_proposals : List MlsPlaintext
  pub pending_updates : List (ℕ × UpdateSecrets)
  pub keys : KeyScheduleEpoch
  pub update_secret : Bytes

unfoldable pub frame : State → Frame
frame s = record {
  cipher_suite = s.cipher_suite;
  group_id = s.group_id;
  epoch = s.epoch;
  confirmed_transcript_hash = s.confirmed_transcript_hash;
  interim_transcript_hash = s.interim_transcript_hash;
  extensions = s.extensions;
  index = s.index;
  scheme = s.scheme;
  pending_proposals = s.pending_proposals;
  pending_updates = s.pending_updates;
  keys = s.keys;
  update_secret = s.tree_priv.update_secret;
}

take_identity-frame :
    (o : Option SignaturePrivateKey) (s : State) → frame (take_identity o s) ≡ frame s
unfolding take_identity frame
take_identity-frame none s = refl
take_identity-frame (some priv) s = refl

take_update-frame :
    (o : Option UpdateSecrets) (s out : State) → take_update o s ≡ ok out → frame out ≡ frame s
unfolding take_update frame set_leaf_secret keep_secret
take_update-frame none s out e = cc
take_update-frame (some u) s out e =
    ap frame (sym (ok_injective e)) ∙ take_identity-frame u.identity_priv _

apply_remove_proposal-frame :
    (r : RemoveProposal) (s out : State) → apply_remove_proposal r s ≡ ok out → frame out ≡ frame s
unfolding apply_remove_proposal with_nodes frame
apply_remove_proposal-frame r s out e =
    let (ns, _, f) = >>=-eq-ok (blank_path r.removed s.tree.nodes) _ e in
    ap frame (sym (ok_injective f))

mark_if-frame :
    (same : Bool) (target : ℕ) (ns : Nodes) (s : State)
    → frame (with_nodes ns (if same then s else mark_new target s)) ≡ frame s
unfolding frame with_nodes mark_new
mark_if-frame true target ns s = refl
mark_if-frame false target ns s = refl

module _ (w : World) (now : ℕ) where
  apply_add_proposal-frame :
      (a : AddProposal) (s out : State)
      → apply_add_proposal w now a s ≡ ok out
      → frame out ≡ frame s
  unfolding apply_add_proposal with_nodes frame mark_new
  apply_add_proposal-frame a s out e =
      let (_, _, e1) =
        >>=-eq-ok (guard (a.key_package.cipher_suite == s.cipher_suite) unsupported_suite) _ e in
      let (good, _, e2) = >>=-eq-ok (key_package_verify w.services now a.key_package) _ e1 in
      let (_, _, e3) = >>=-eq-ok (guard good bad_signature) _ e2 in
      let (_, _, e4) = >>=-eq-ok (add_leaf a.key_package s.tree.nodes) _ e3 in
      ap frame (sym (ok_injective e4))

  apply_update_proposal-frame :
      (target : ℕ) (u : UpdateProposal) (s out : State)
      → apply_update_proposal w now target u s ≡ ok out
      → frame out ≡ frame s
  unfolding apply_update_proposal with_nodes frame mark_new
  apply_update_proposal-frame target u s out e =
      let (_, _, e1) =
        >>=-eq-ok
          (errors_panic (guard (u.key_package.cipher_suite == s.cipher_suite) unsupported_suite)) _
          e in
      let (good, _, e2) = >>=-eq-ok (key_package_verify w.services now u.key_package) _ e1 in
      let (_, _, e3) = >>=-eq-ok (guard good bad_signature) _ e2 in
      let (o, _, e4) = >>=-eq-ok (key_package_at target s.tree.nodes) _ e3 in
      let (current, _, e5) = >>=-eq-ok (or_blank_leaf o) _ e4 in
      let (same, _, e6) =
        >>=-eq-ok (credential_equals u.key_package.credential current.credential) _ e5 in
      let (ns, _, e7) = >>=-eq-ok (update_leaf target u.key_package s.tree.nodes) _ e6 in
      ap frame (sym (ok_injective e7)) ∙ mark_if-frame same target ns s

  take_own-frame :
      (id : Bytes) (sender : ℕ) (s out : State)
      → take_own w id sender s ≡ ok out
      → frame out ≡ frame s
  unfolding take_own
  take_own-frame id sender s out e = elim (Bool-cases (sender == s.index)) [
    | inl own ↦
        let e' : (to_ref id >>= (λ ref. take_update (lookup ref s.pending_updates) s)) ≡ ok out =
          subst
            (λ b.
              (if not b
                then ok s
                else (to_ref id >>= (λ ref. take_update (lookup ref s.pending_updates) s)))
              ≡ ok out)
            own e in
        let (ref, _, f) = >>=-eq-ok (to_ref id) _ e' in
        take_update-frame (lookup ref s.pending_updates) s out f
    | inr other ↦
        let e' : ok s ≡ ok out =
          subst
            (λ b.
              (if not b
                then ok s
                else (to_ref id >>= (λ ref. take_update (lookup ref s.pending_updates) s)))
              ≡ ok out)
            other e in
        ap frame (sym (ok_injective e'))
  ]

  apply_update_from-frame :
      (id : Bytes) (pt : MlsPlaintext) (u : UpdateProposal) (s out : State)
      → apply_update_from w now id pt u s ≡ ok out
      → frame out ≡ frame s
  unfolding apply_update_from
  apply_update_from-frame id pt u s out e =
      let (_, _, e1) = >>=-eq-ok (guard (pt.sender.type == sender_type_member) wrong_sender) _ e in
      let (mid, e2, e3) = >>=-eq-ok (apply_update_proposal w now pt.sender.sender u s) _ e1 in
      take_own-frame id pt.sender.sender mid out e3
      ∙ apply_update_proposal-frame pt.sender.sender u s mid e2

  apply_member-frame :
      (id : Bytes) (pt : MlsPlaintext) (a : Option AddProposal) (u : Option UpdateProposal)
      (r : Option RemoveProposal) (s out : State)
      → apply_proposal w now id pt (record { add = a; update = u; remove = r }) s ≡ ok out
      → frame out ≡ frame s
  unfolding apply_proposal
  apply_member-frame id pt (some a) u r s out e = apply_add_proposal-frame a s out e
  apply_member-frame id pt none (some u) r s out e = apply_update_from-frame id pt u s out e
  apply_member-frame id pt none none (some r) s out e = apply_remove_proposal-frame r s out e
  apply_member-frame id pt none none none s out e = cc

  pub apply_found-frame :
      (id : Bytes) (pt : MlsPlaintext) (s out : State)
      → apply_found w now id pt s ≡ ok out
      → frame out ≡ frame s
  unfolding apply_found
  apply_found-frame id pt s out e =
      let (p, _, f) = >>=-eq-ok (proposal_of pt.content) _ e in
      apply_member-frame id pt p.add p.update p.remove s out f

  apply_new-frame :
      (id : Bytes) (o : Option MlsPlaintext) (done : List Bytes) (s : State)
      (r : List Bytes × State)
      → apply_new w now id o done s ≡ ok r
      → frame r.1 ≡ frame s
  unfolding apply_new
  apply_new-frame id none done s r e = cc
  apply_new-frame id (some pt) done s r e = elim (Bool-cases (seen done id)) [
    | inl known ↦
        let e' : ok (done, s) ≡ ok r =
          subst
            (λ b.
              elim b [
                | true ↦ ok (done, s)
                | false ↦ apply_found w now id pt s >>= (λ s'. ok (id ∷ done, s'))
              ]
              ≡ ok r)
            known e in
        ap (λ q. frame q.1) (sym (ok_injective e'))
    | inr fresh ↦
        let e' : (apply_found w now id pt s >>= (λ s'. ok (id ∷ done, s'))) ≡ ok r =
          subst
            (λ b.
              elim b [
                | true ↦ ok (done, s)
                | false ↦ apply_found w now id pt s >>= (λ s'. ok (id ∷ done, s'))
              ]
              ≡ ok r)
            fresh e in
        let (mid, f, g) = >>=-eq-ok (apply_found w now id pt s) _ e' in
        ap (λ q. frame q.1) (sym (ok_injective g)) ∙ apply_found-frame id pt s mid f
  ]

  apply_proposals-frame :
      (ids done : List Bytes) (s : State) (r : List Bytes × State)
      → apply_proposals w now ids done s ≡ ok r
      → frame r.1 ≡ frame s
  unfolding apply_proposals
  apply_proposals-frame [] done s r e = ap (λ q. frame q.1) (sym (ok_injective e))
  apply_proposals-frame (id ∷ ids) done s r e =
      let (o, _, e1) = >>=-eq-ok (find_proposal w s id s.pending_proposals) _ e in
      let (mid, f, g) = >>=-eq-ok (apply_new w now id o done s) _ e1 in
      apply_proposals-frame ids mid.0 mid.1 r g ∙ apply_new-frame id o done s mid f

  -- Where `apply` succeeds it changes no more of the state than the tree, the private keys and the
  -- new credentials, and keeps the update secret.
  pub apply-frame :
      (c : Commit DirectPath) (s out : State) → apply w now c s ≡ ok out → frame out ≡ frame s
  unfolding apply
  apply-frame c s out e =
      let (r1, f1, e1) = >>=-eq-ok (apply_proposals w now c.updates [] s) _ e in
      let (r2, f2, e2) = >>=-eq-ok (apply_proposals w now c.removes r1.0 r1.1) _ e1 in
      let (r3, f3, e3) = >>=-eq-ok (apply_proposals w now c.adds r2.0 r2.1) _ e2 in
      ap frame (sym (ok_injective e3))
      ∙ apply_proposals-frame c.adds r2.0 r2.1 r3 f3
      ∙ apply_proposals-frame c.removes r1.0 r1.1 r2 f2
      ∙ apply_proposals-frame c.updates [] s r1 f1
