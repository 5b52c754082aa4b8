-- ===== src/State/Agreement/Paths.antt =====
-- A commit with a path, from `Commit` of its sender to `Handle` of a receiver.
use go_mls.Base.{
  ℕ, ◌≡◌, ◌≤◌, ◌<◌, ◌^◌, refl, sym, ap, subst, ◌∙◌, true, Option, some, List, [], Bytes, ok,
}
use go_mls.TreeMath.{to_node_index, sibling, node_width}
use go_mls.Crypto.{zero_bytes, hkdf_extract}
use go_mls.KeyPackage.{or_error}
use go_mls.Messages.{Commit, path_required}
use go_mls.Messages.Plaintext.{MlsPlaintext, CommitData, commit_of}
use go_mls.Messages.Welcome.{Welcome}
use go_mls.TreeKem.{TreeKemPublicKey, Nodes, size, path_of}
use go_mls.TreeKem.Merge.{DirectPath, resolve}
use go_mls.PrivateTree.{TreeKemPrivateKey, path_step, or_no_parent}
use go_mls.PrivateTree.Ways.{Above}
use go_mls.PrivateTree.Opening.{find_overlap}
use go_mls.PrivateTree.Sealing.{encap}
use go_mls.PrivateTree.Fitting.{OpensSealed, holds, Fits}
use go_mls.PrivateTree.Delivery.{decap-encap_path}
use go_mls.PrivateTree.Published.{merge-encap, encap-made}
use go_mls.KeySchedule.Memory.{Memory}
use go_mls.State.{World, State, state_root_hash, state_clone}
use go_mls.State.Proposals.{apply}
use go_mls.State.Commits.{commit_message, commit}
use go_mls.State.Handling.{receive_path, handle}
use go_mls.KeyPackage.Signing.{ChecksOut}
use go_mls.KeySchedule.Material.{material}
use go_mls.State.Agreement.Handled.{Peers}
use go_mls.State.Frame.{Frame, frame, apply-frame}
use go_mls.State.Standing.{Standing, standing}
use go_mls.State.Reached.{path_if_required-standing}
use go_mls.State.Agreement.{View, view}
use go_mls.State.Agreement.Ends.{ratchet_and_sign-carries}
use go_mls.State.Agreement.Alike.{Alike, apply-Alike}
use go_mls.State.Agreement.Rounds.{
  emptied, emptied-Alike, state_clone-Alike, Committed, commit-Committed,
}
use go_mls.State.Agreement.Adds.{round_agree, sent_commit}
use go_mls.State.Agreement.Added.{Added, both_hashed, path_if_required-Added, receive_path_by}

-- A member that can read a path which the member at a leaf makes for a tree: its secrets fit the tree,
-- and it has one for the resolution of the node beside the path from which the overlap is reached.
pub record Reads (w : World) (st : Bytes → Bytes) (suite from : ℕ) (ns : Nodes)
    (priv : TreeKemPrivateKey) : Type 0 where
  pub steps : (t : Bytes) → path_step w.primitives suite t ≡ ok (st t)
  pub some_leaf : 1 ≤ size ns
  pub few : size ns ≤ 2 ^ 31
  pub inside : to_node_index from < node_width (size ns)
  pub fits : Fits w.primitives w.hpke ns priv
  pub same_suite : priv.suite ≡ suite
  pub dp : List ℕ
  pub is_path : path_of (to_node_index from) ns ≡ ok dp
  pub at : ℕ
  pub overlap : ℕ
  pub before : ℕ
  pub found :
      find_overlap (to_node_index priv.index) 0 (to_node_index from) dp ≡ some (at, overlap, before)
  pub distance : ℕ
  pub above : Above (size ns) (to_node_index from) overlap distance
  pub held :
      (copath : ℕ) (res : List ℕ)
      → or_no_parent (sibling before (size ns)) ≡ ok copath
      → resolve 33 copath ns ≡ ok res
      → holds priv.path_secrets res ≡ true

module _ (w : World) where
  -- The receiver reads the path, with the sender's secret, and comes to the sender's view.
  path_received :
      (st : Bytes → Bytes) (random : ℕ → ℕ → Bytes) (i : ℕ) (leaf_secret z : Bytes)
      (s r next : State) (named sent : Commit DirectPath)
      → (p : Added w random i leaf_secret named s sent next) → view s ≡ view r
      → s.extensions ≡ []
      → OpensSealed w.hpke
      → (let t = (state_root_hash w r).1 in Reads w st t.tree.suite i t.tree.nodes t.tree_priv)
      → (sb : Bytes) × (out : State) × (receive_path w i z (some p.path) r ≡ ok (sb, out))
        × (view next ≡ view out)
        × (next.tree_priv.update_secret ≡ sb)
  unfolding view
  path_received st random i leaf_secret z s r next named sent p e bare law reads =
      let (h, hashed, ctx_same, views) = both_hashed w s r p.t p.ctx e bare p.in_context in
      let t = (state_root_hash w r).1 in
      let trees : p.t.tree ≡ t.tree = ap (λ (v : View). v.tree) views in
      let made =
        subst
          (λ (x : TreeKemPublicKey).
            encap w.primitives w.hpke w.services w.parent_hashing (w.hashing x.suite) x.suite random
              i p.enc leaf_secret p.t.identity_priv x.nodes
            ≡ (ok (p.priv, p.path), p.nodes))
          trees p.made in
      let only_path =
        encap-made w.primitives w.hpke w.services w.parent_hashing (w.hashing t.tree.suite)
          t.tree.suite random i p.enc leaf_secret p.t.identity_priv t.tree.nodes p.nodes
          (p.priv, p.path) made in
      let merged =
        merge-encap w.primitives w.hpke w.services w.parent_hashing (w.hashing t.tree.suite)
          t.tree.suite random i p.enc leaf_secret p.t.identity_priv t.tree.nodes p.nodes
          (p.priv, p.path) made in
      let (priv, opened, updates, _) =
        decap-encap_path w.primitives w.hpke w.services w.parent_hashing st t.tree.suite random i
          p.enc leaf_secret p.t.identity_priv t.tree.nodes p.priv t.tree_priv p.path reads.dp
          reads.at reads.overlap reads.before reads.distance law reads.steps reads.some_leaf
          reads.few reads.inside only_path reads.fits reads.same_suite reads.is_path reads.found
          reads.above reads.held in
      let placed : View → View =
        λ v. record v { tree = record { suite = v.tree.suite; nodes = p.nodes } } in
      (
        priv.update_secret,
        record t { tree_priv = priv; tree = record { suite = t.tree.suite; nodes = p.nodes } },
        receive_path_by w i z p.path r h p.enc priv p.nodes hashed
            (ap (λ x. or_error (w.wire.context x)) ctx_same ∙ p.written) opened merged,
        ap view p.is_next ∙ ap placed views,
        ap (λ (x : State). x.tree_priv.update_secret) p.is_next ∙ sym updates,
      )

  -- What the state of the sender keeps for its path.
  named_state :
      (now : ℕ) (random : ℕ → ℕ → Bytes) (leaf_secret : Bytes) (a a' : State) (m : Memory)
      (out : MlsPlaintext × Welcome × State × Memory)
      → (c : Committed w now random leaf_secret a a' m out)
      → (c.applied.extensions ≡ []) × (out.0.sender.sender ≡ a.index)
  unfolding frame state_clone commit_message standing
  named_state now random leaf_secret a a' m out c =
      let kept = apply-frame w now c.named (state_clone a) c.applied c.is_applied in
      let (conf, sig, scheme, form, _, _) =
        ratchet_and_sign-carries w c.sent c.next.tree_priv.update_secret c.ctx a'.identity_priv
          c.next m (out.0, out.2, out.3) c.is_signed in
      let stands =
        path_if_required-standing w random a.index leaf_secret c.named (emptied c.applied)
          (c.sent, c.next) c.has_path in
      (
        ap (λ (f : Frame). f.extensions) kept,
        ap (λ (pt : MlsPlaintext). pt.sender.sender) form
            ∙ ap (λ (x : Standing). x.index) stands
            ∙ ap (λ (f : Frame). f.index) kept,
      )

  -- The path of a commit does not matter to `apply`.
  apply_named :
      (now : ℕ) (named : Commit DirectPath) (path : DirectPath) (s : State)
      → apply w now named s ≡ apply w now (record named { path = some path }) s
  unfolding apply
  apply_named now named path s = refl

  -- One member commits with a path, and `Handle` of another, whose state was alike, takes the message:
  -- where the receiver is at another leaf, has the same extensions and scheme, the sender's key in the
  -- sender's leaf and its root hash cached, signatures that were made check out, the commit is one that
  -- needs a path, the named proposals apply for the receiver too, HPKE opens what it sealed and the
  -- receiver can read paths of the sender in the tree that the proposals lead to, `Handle` gives a next
  -- state, and both have one view of the next epoch and key sources with the same secrets.
  pub commit_path_agree :
      (now now' : ℕ) (random : ℕ → ℕ → Bytes) (welcome_random : ℕ → Bytes) (leaf_secret : Bytes)
      (st : Bytes → Bytes) (a b a' : State) (m m' : Memory)
      (out : MlsPlaintext × Welcome × State × Memory) (d : CommitData) (z : Bytes) (applied : State)
      → Alike a b
      → Peers w a b
      → ChecksOut w.services
      → commit w now random welcome_random leaf_secret a m ≡ (ok out, a')
      → commit_of out.0.content ≡ ok d
      → path_required d.commit ≡ true
      → apply w now' d.commit (state_clone b) ≡ ok applied
      → zero_bytes b.cipher_suite ≡ ok z
      → OpensSealed w.hpke
      → (let t = (state_root_hash w (emptied applied)).1 in
          Reads w st t.tree.suite a.index t.tree.nodes t.tree_priv)
      → (r : State × Memory) × (handle w now' out.0 b m' ≡ (ok (some r.0, r.1), b))
        × (view out.2 ≡ view r.0)
        × (material r.0.keys r.1 ≡ material out.2.keys out.3)
  commit_path_agree now now' random welcome_random leaf_secret st a b a' m m' out d z applied e
        peers checks_out run carries needs takes zeros law reads =
      let c = commit-Committed w now random leaf_secret welcome_random a a' m out run in
      let read : c.sent ≡ d.commit =
        sent_commit w now now' random welcome_random leaf_secret c carries in
      let p =
        path_if_required-Added w random a.index leaf_secret c.named c.sent (emptied c.applied)
          c.next c.has_path (ap path_required read ∙ needs) in
      let (bare, from) = named_state now random leaf_secret a a' m out c in
      let applies : apply w now' c.named (state_clone b) ≡ ok applied =
        apply_named now' c.named p.path (state_clone b)
        ∙ ap (λ x. apply w now' x (state_clone b)) (sym p.is_sent ∙ read)
        ∙ takes in
      let alike = emptied-Alike c.applied applied (
        apply-Alike w now now' c.named (state_clone a) (state_clone b) c.applied applied
          (state_clone-Alike a b e) c.is_applied applies) in
      let (sb, next, received, views, secret) =
        path_received st random a.index leaf_secret z (emptied c.applied) (emptied applied) c.next
          c.named c.sent p alike.views bare law reads in
      round_agree w now now' random welcome_random leaf_secret a b a' m m' out d z sb applied next c
        e.views peers checks_out carries views
        (λ x. ap (λ y. hkdf_extract w.primitives c.next.keys.suite y x) secret) takes zeros
        (subst
          (λ (o : Option DirectPath).
            receive_path w out.0.sender.sender z o (emptied applied) ≡ ok (sb, next))
          (sym (ap (λ (x : Commit DirectPath). x.path) p.is_sent)
            ∙ ap (λ (x : Commit DirectPath). x.path) read)
          (subst (λ i. receive_path w i z (some p.path) (emptied applied) ≡ ok (sb, next))
            (sym from) received))
