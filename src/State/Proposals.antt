-- ===== src/State/Proposals.antt =====
-- The proposals of a member, and what `apply` does with those that a commit names. A state to which
-- proposals could not be applied is dropped by both callers of `apply`.
use go_mls.Base.{
  ℕ, ◌==◌, if◌then◌else◌, Bool, true, false, not, ◌||◌, Option, none, some, List, [], ◌∷◌, Bytes,
  bytes_eq, insert, lookup, Outcome, ok, err, panic, ◌>>=◌, and_then, guard, unsupported_suite,
  bad_signature, wrong_sender, unknown_secret, unknown_proposal, malformed_proposal,
  malformed_content,
}
use go_mls.Credential.{credential_equals}
use go_mls.KeyPackage.{KeyPackage, SignaturePrivateKey, key_package_verify}
use go_mls.Messages.{
  Proposal, AddProposal, UpdateProposal, RemoveProposal, Commit, added, updated, removed_member,
}
use go_mls.Messages.Content.{sender_type_member}
use go_mls.Messages.Plaintext.{Content, MlsPlaintext}
use go_mls.Messages.Welcome.{or_blank_leaf}
use go_mls.Crypto.Aead.{errors_panic}
use go_mls.TreeKem.{Nodes, key_package_at, add_leaf, blank_path, update_leaf}
use go_mls.TreeKem.Merge.{DirectPath}
use go_mls.PrivateTree.{set_leaf_secret}
use go_mls.State.{
  World, State, UpdateSecrets, to_ref, supports_all, proposal_id, find_proposal, state_sign,
}

unfoldable pub with_nodes : Nodes → State → State
with_nodes ns s = record s { tree = record { suite = s.tree.suite; nodes = ns } }

-- `s.NewCredentials[target] = true`
unfoldable pub mark_new : ℕ → State → State
mark_new target s = record s { new_credentials = insert target true s.new_credentials }

-- `pt.Content.Proposal`, which is dereferenced.
unfoldable pub proposal_of : Content → Outcome Proposal
proposal_of c = elim c.proposal [ none ↦ panic malformed_content | some p ↦ ok p ]

-- A self-update may have come with a new signature key.
unfoldable pub take_identity : Option SignaturePrivateKey → State → State
take_identity none s = s
take_identity (some priv) s = record s { identity_priv = priv }

-- What a self-update takes from the secrets kept for it.
unfoldable pub take_update : Option UpdateSecrets → State → Outcome State
take_update none s = err unknown_secret
take_update (some u) s =
    ok (
      take_identity u.identity_priv (record s { tree_priv = set_leaf_secret u.secret s.tree_priv }))

-- `processed[id.String()]`
unfoldable pub seen : List Bytes → Bytes → Bool
seen [] id = false
seen (x ∷ xs) id = bytes_eq x id || seen xs id

unfoldable pub apply_remove_proposal : RemoveProposal → State → Outcome State
apply_remove_proposal remove s =
    blank_path remove.removed s.tree.nodes >>= λ ns. ok (with_nodes ns s)

module _ (w : World) where
  unfoldable pub propose_add : KeyPackage → State → Outcome MlsPlaintext × State
  propose_add kp s =
      and_then (supports_all s.extensions kp.extensions, s)
        (λ _ s'. state_sign w (added (record { key_package = kp })) s')

  -- `s.PendingUpdates[toRef(s.proposalID(*pt))] = updateSecrets{dup(secret), sigPriv}`
  unfoldable pub remember_update :
      Bytes → Option SignaturePrivateKey → MlsPlaintext → State → Outcome MlsPlaintext × State
  remember_update secret sig_priv pt s =
      and_then (proposal_id w s pt >>= to_ref, s)
        (λ ref s'. (
          ok pt,
          record s' {
            pending_updates =
                insert ref (record { secret = secret; identity_priv = sig_priv })
                  s'.pending_updates;
          },
        ))

  unfoldable pub propose_update :
      Bytes → Option SignaturePrivateKey → KeyPackage → State → Outcome MlsPlaintext × State
  propose_update secret sig_priv kp s =
      and_then (state_sign w (updated (record { key_package = kp })) s)
        (λ pt s'. remember_update secret sig_priv pt s')

  unfoldable pub propose_remove : ℕ → State → Outcome MlsPlaintext × State
  propose_remove removed s = state_sign w (removed_member (record { removed = removed })) s

  -- The time is the one at which `Verify` reads the clock.
  unfoldable pub apply_add_proposal : ℕ → AddProposal → State → Outcome State
  apply_add_proposal now add s = do
    _ ← guard (add.key_package.cipher_suite == s.cipher_suite) unsupported_suite
    good ← key_package_verify w.services now add.key_package
    _ ← guard good bad_signature
    (target, ns) ← add_leaf add.key_package s.tree.nodes
    ok (mark_new target (with_nodes ns s))

  unfoldable pub apply_update_proposal : ℕ → ℕ → UpdateProposal → State → Outcome State
  apply_update_proposal now target update s = do
    _ ← errors_panic (guard (update.key_package.cipher_suite == s.cipher_suite) unsupported_suite)
    good ← key_package_verify w.services now update.key_package
    _ ← guard good bad_signature
    o ← key_package_at target s.tree.nodes
    current ← or_blank_leaf o
    same ← credential_equals update.key_package.credential current.credential
    ns ← update_leaf target update.key_package s.tree.nodes
    ok (with_nodes ns (if same then s else mark_new target s))

  -- `if senderIndex == s.Index`, in the case of an update.
  unfoldable pub take_own : Bytes → ℕ → State → Outcome State
  take_own id sender s =
      if not (sender == s.index)
      then ok s
      else to_ref id >>= (λ ref. take_update (lookup ref s.pending_updates) s)

  unfoldable pub apply_update_from :
      ℕ → Bytes → MlsPlaintext → UpdateProposal → State → Outcome State
  apply_update_from now id pt update s = do
    _ ← guard (pt.sender.type == sender_type_member) wrong_sender
    s' ← apply_update_proposal now pt.sender.sender update s
    take_own id pt.sender.sender s'

  -- `switch proposal.Type()`
  unfoldable pub apply_proposal : ℕ → Bytes → MlsPlaintext → Proposal → State → Outcome State
  apply_proposal now id pt proposal s = elim proposal.add [
    | some add ↦ apply_add_proposal now add s
    | none ↦ elim proposal.update [
      | some update ↦ apply_update_from now id pt update s
      | none ↦ elim proposal.remove [
        | some remove ↦ apply_remove_proposal remove s
        | none ↦ panic malformed_proposal
      ]
    ]
  ]

  unfoldable pub apply_found : ℕ → Bytes → MlsPlaintext → State → Outcome State
  apply_found now id pt s =
      proposal_of pt.content >>= λ proposal. apply_proposal now id pt proposal s

  -- A proposal that was processed already is passed over.
  unfoldable pub apply_new :
      ℕ → Bytes → Option MlsPlaintext → List Bytes → State → Outcome (List Bytes × State)
  apply_new now id none processed s = err unknown_proposal
  apply_new now id (some pt) processed s = elim (seen processed id) [
    | true ↦ ok (processed, s)
    | false ↦ apply_found now id pt s >>= λ s'. ok (id ∷ processed, s')
  ]

  unfoldable pub apply_proposals :
      ℕ → List Bytes → List Bytes → State → Outcome (List Bytes × State)
  apply_proposals now [] processed s = ok (processed, s)
  apply_proposals now (id ∷ ids) processed s = do
    o ← find_proposal w s id s.pending_proposals
    (processed', s') ← apply_new now id o processed s
    apply_proposals now ids processed' s'

  unfoldable pub apply : ℕ → Commit DirectPath → State → Outcome State
  apply now commit s = do
    (processed1, s1) ← apply_proposals now commit.updates [] s
    (processed2, s2) ← apply_proposals now commit.removes processed1 s1
    (_, s3) ← apply_proposals now commit.adds processed2 s2
    ok s3
