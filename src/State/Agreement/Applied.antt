-- ===== src/State/Agreement/Applied.antt =====
-- What `apply` of state.go does to what the members share: the tree is edited by the proposals that
-- the commit names, and by nothing that only one member has.
use go_mls.Base.{
  ℕ, ◌==◌, ◌≡◌, refl, sym, ap, ◌∙◌, Bool, true, false, not, Option, none, some, if◌then◌else◌,
  Bytes, guard, lookup, Outcome, ok, panic, ◌>>=◌, >>=-eq-ok, ok_injective, unsupported_suite,
  bad_signature, wrong_sender, malformed_proposal,
}
use go_mls.KeyPackage.{SignaturePrivateKey, key_package_verify}
use go_mls.Credential.{credential_equals}
use go_mls.Crypto.Aead.{errors_panic}
use go_mls.Messages.{Proposal, AddProposal, UpdateProposal, RemoveProposal}
use go_mls.Messages.Content.{sender_type_member}
use go_mls.Messages.Plaintext.{MlsPlaintext}
use go_mls.Messages.Welcome.{or_blank_leaf}
use go_mls.TreeKem.{Nodes, add_leaf, blank_path, update_leaf, key_package_at}
use go_mls.State.{World, State, UpdateSecrets, to_ref}
use go_mls.State.Proposals.{
  with_nodes, mark_new, take_identity, take_update, take_own, apply_remove_proposal,
  apply_add_proposal, apply_update_proposal, apply_update_from, apply_proposal, apply_found,
  proposal_of,
}
use go_mls.State.Agreement.{view}

-- What a proposal of a sender does to the nodes of the tree.
unfoldable pub edit : ℕ → Proposal → Nodes → Outcome Nodes
edit sender p ns = elim p.add [
  | some a ↦ add_leaf a.key_package ns >>= λ r. ok r.1
  | none ↦ elim p.update [
    | some u ↦ update_leaf sender u.key_package ns
    | none ↦ elim p.remove [ some r ↦ blank_path r.removed ns | none ↦ panic malformed_proposal ]
  ]
]

-- A state with edited nodes, as the members see it.
abbrev pub Edited : (Nodes → Outcome Nodes) → State → State → Type 0
Edited f s out = (ns : Nodes) × (f s.tree.nodes ≡ ok ns) × (view out ≡ view (with_nodes ns s))

take_identity-view :
    (o : Option SignaturePrivateKey) (s : State) → view (take_identity o s) ≡ view s
unfolding take_identity view
take_identity-view none s = refl
take_identity-view (some priv) s = refl

take_update-view :
    (o : Option UpdateSecrets) (s out : State) → take_update o s ≡ ok out → view out ≡ view s
unfolding take_update view
take_update-view none s out e = cc
take_update-view (some u) s out e =
    ap view (sym (ok_injective e)) ∙ take_identity-view u.identity_priv _

mark_if-view :
    (same : Bool) (target : ℕ) (ns : Nodes) (s : State)
    → view (with_nodes ns (if same then s else mark_new target s)) ≡ view (with_nodes ns s)
unfolding view with_nodes mark_new
mark_if-view true target ns s = refl
mark_if-view false target ns s = refl

apply_remove_proposal-Edited :
    (r : RemoveProposal) (s out : State)
    → apply_remove_proposal r s ≡ ok out
    → Edited (blank_path r.removed) s out
unfolding apply_remove_proposal
apply_remove_proposal-Edited r s out e =
    let (ns, run, f) = >>=-eq-ok (blank_path r.removed s.tree.nodes) _ e in
    (ns, run, ap view (sym (ok_injective f)))

module _ (w : World) (now : ℕ) where
  apply_add_proposal-Edited :
      (a : AddProposal) (s out : State)
      → apply_add_proposal w now a s ≡ ok out
      → Edited (λ ns. add_leaf a.key_package ns >>= λ r. ok r.1) s out
  unfolding apply_add_proposal mark_new view with_nodes
  apply_add_proposal-Edited a s out e =
      let (_, _, e1) =
        >>=-eq-ok (guard (a.key_package.cipher_suite == s.cipher_suite) unsupported_suite) _ e in
      let (good, _, e2) = >>=-eq-ok (key_package_verify w.services now a.key_package) _ e1 in
      let (_, _, e3) = >>=-eq-ok (guard good bad_signature) _ e2 in
      let (r, run, e4) = >>=-eq-ok (add_leaf a.key_package s.tree.nodes) _ e3 in
      (r.1, rw run refl, ap view (sym (ok_injective e4)))

  apply_update_proposal-Edited :
      (target : ℕ) (u : UpdateProposal) (s out : State)
      → apply_update_proposal w now target u s ≡ ok out
      → Edited (update_leaf target u.key_package) s out
  unfolding apply_update_proposal
  apply_update_proposal-Edited target u s out e =
      let (_, _, e1) =
        >>=-eq-ok
          (errors_panic (guard (u.key_package.cipher_suite == s.cipher_suite) unsupported_suite)) _
          e in
      let (good, _, e2) = >>=-eq-ok (key_package_verify w.services now u.key_package) _ e1 in
      let (_, _, e3) = >>=-eq-ok (guard good bad_signature) _ e2 in
      let (o, _, e4) = >>=-eq-ok (key_package_at target s.tree.nodes) _ e3 in
      let (current, _, e5) = >>=-eq-ok (or_blank_leaf o) _ e4 in
      let (same, _, e6) =
        >>=-eq-ok (credential_equals u.key_package.credential current.credential) _ e5 in
      let (ns, run, e7) = >>=-eq-ok (update_leaf target u.key_package s.tree.nodes) _ e6 in
      (ns, run, ap view (sym (ok_injective e7)) ∙ mark_if-view same target ns s)

  take_own-view :
      (id : Bytes) (sender : ℕ) (s out : State)
      → take_own w id sender s ≡ ok out
      → view out ≡ view s
  unfolding take_own
  take_own-view id sender s out e = own_if (sender == s.index) e
    where
      own_if :
          (b : Bool)
          → (if not b
              then ok s
              else to_ref id >>= (λ ref. take_update (lookup ref s.pending_updates) s))
            ≡ ok out
          → view out ≡ view s
      own_if false e = ap view (sym (ok_injective e))
      own_if true e =
          let (ref, _, f) = >>=-eq-ok (to_ref id) _ e in
          take_update-view (lookup ref s.pending_updates) s out f

  apply_update_from-Edited :
      (id : Bytes) (pt : MlsPlaintext) (u : UpdateProposal) (s out : State)
      → apply_update_from w now id pt u s ≡ ok out
      → Edited (update_leaf pt.sender.sender u.key_package) s out
  unfolding apply_update_from
  apply_update_from-Edited id pt u s out e =
      let (_, _, e1) = >>=-eq-ok (guard (pt.sender.type == sender_type_member) wrong_sender) _ e in
      let (mid, e2, e3) = >>=-eq-ok (apply_update_proposal w now pt.sender.sender u s) _ e1 in
      let (ns, run, same) = apply_update_proposal-Edited pt.sender.sender u s mid e2 in
      (ns, run, take_own-view id pt.sender.sender mid out e3 ∙ same)

  apply_member-Edited :
      (id : Bytes) (pt : MlsPlaintext) (a : Option AddProposal) (u : Option UpdateProposal)
      (r : Option RemoveProposal) (s out : State)
      → apply_proposal w now id pt (record { add = a; update = u; remove = r }) s ≡ ok out
      → Edited (edit pt.sender.sender (record { add = a; update = u; remove = r })) s out
  unfolding apply_proposal edit
  apply_member-Edited id pt (some a) u r s out e = apply_add_proposal-Edited a s out e
  apply_member-Edited id pt none (some u) r s out e = apply_update_from-Edited id pt u s out e
  apply_member-Edited id pt none none (some r) s out e = apply_remove_proposal-Edited r s out e
  apply_member-Edited id pt none none none s out e = cc

  pub apply_found-Edited :
      (id : Bytes) (pt : MlsPlaintext) (s out : State)
      → apply_found w now id pt s ≡ ok out
      → (p : Proposal) × (proposal_of pt.content ≡ ok p) × Edited (edit pt.sender.sender p) s out
  unfolding apply_found
  apply_found-Edited id pt s out e =
      let (p, f, g) = >>=-eq-ok (proposal_of pt.content) _ e in
      (p, f, apply_member-Edited id pt p.add p.update p.remove s out g)
