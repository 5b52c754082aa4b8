-- ===== src/State/Agreement/Rounds.antt =====
-- A whole commit: `Commit` of one member and what `Handle` of another does with its message.
use go_mls.Base.{
  ℕ, ◌≡◌, refl, sym, ap, subst, ◌∙◌, none, List, [], Bytes, ok, >>=-eq-ok, ok_injective,
  and_then-eq-ok,
}
use go_mls.KeyPackage.{KeyPackage}
use go_mls.Messages.{Commit}
use go_mls.Messages.Plaintext.{GroupContext, MlsPlaintext, commit_of}
use go_mls.Messages.Welcome.{Welcome}
use go_mls.TreeKem.Merge.{DirectPath}
use go_mls.TreeKem.Copies.{tree_clone}
use go_mls.PrivateTree.{private_clone}
use go_mls.KeySchedule.Memory.{Memory}
use go_mls.State.{World, State, state_clone, group_context}
use go_mls.State.Proposals.{apply}
use go_mls.State.Commits.{
  gather, path_if_required, prepare_commit, ratchet_and_sign, make_welcome, finish_commit, commit,
}
use go_mls.State.Frame.{Frame, frame, apply-frame}
use go_mls.State.Agreement.{View, view}
use go_mls.State.Agreement.Alike.{Alike}

abbrev pub emptied : State → State
emptied s = record s { pending_proposals = [] }

pub state_clone-Alike : (a b : State) → Alike a b → Alike (state_clone a) (state_clone b)
unfolding state_clone view
state_clone-Alike a b e =
    let cloned : View → View =
      λ v. record v { tree = tree_clone v.tree; confirmed_transcript_hash = [] } in
    record { views = ap cloned e.views; pending = e.pending }

pub emptied-Alike : (a b : State) → Alike a b → Alike (emptied a) (emptied b)
unfolding view
emptied-Alike a b e = record { views = e.views; pending = refl }

-- A copy has no update secret, and applying proposals gives it none.
pub applied_update_secret :
    (w : World) (now : ℕ) (c : Commit DirectPath) (a out : State)
    → apply w now c (state_clone a) ≡ ok out
    → out.tree_priv.update_secret ≡ []
unfolding frame state_clone private_clone
applied_update_secret w now c a out e =
    ap (λ (f : Frame). f.update_secret) (apply-frame w now c (state_clone a) out e)

finish_commit-signed :
    (w : World) (random : ℕ → Bytes) (sent : Commit DirectPath) (joiners : List KeyPackage)
    (next : State) (ctx : GroupContext) (s : State) (m : Memory)
    (out : MlsPlaintext × Welcome × State × Memory)
    → finish_commit w random sent joiners next ctx s m ≡ ok out
    → ratchet_and_sign w sent next.tree_priv.update_secret ctx s.identity_priv next m
      ≡ ok (out.0, out.2, out.3)
unfolding finish_commit
finish_commit-signed w random sent joiners next ctx s m out e =
    let (made, f, e1) =
      >>=-eq-ok (ratchet_and_sign w sent next.tree_priv.update_secret ctx s.identity_priv next m) _
        e in
    let (data', _, e2) = >>=-eq-ok (commit_of made.0.content) _ e1 in
    let (wel, _, e3) =
      >>=-eq-ok (make_welcome w random s.cipher_suite data'.confirmation joiners made.1) _ e2 in
    f ∙ ap (λ (o : MlsPlaintext × Welcome × State × Memory). ok (o.0, o.2, o.3)) (ok_injective e3)

module _ (w : World) (now : ℕ) (random : ℕ → ℕ → Bytes) (leaf_secret : Bytes) where
  -- The steps of a `Commit` that returned.
  pub record Committed (a a' : State) (m : Memory) (out : MlsPlaintext × Welcome × State × Memory)
      : Type 0 where
    pub named : Commit DirectPath
    pub sent : Commit DirectPath
    pub applied : State
    pub next : State
    pub ctx : GroupContext
    pub is_applied : apply w now named (state_clone a) ≡ ok applied
    pub has_path :
        path_if_required w random a.index leaf_secret named (emptied applied) ≡ ok (sent, next)
    pub in_context : group_context w a ≡ (ok ctx, a')
    pub is_signed :
        ratchet_and_sign w sent next.tree_priv.update_secret ctx a'.identity_priv next m
        ≡ ok (out.0, out.2, out.3)

  prepare_commit-steps :
      (a : State) (out : Commit DirectPath × List KeyPackage × State)
      → prepare_commit w now random leaf_secret a ≡ ok out
      → (named : Commit DirectPath) × (applied : State) × (apply w now named (state_clone a)
          ≡ ok applied)
        × (path_if_required w random a.index leaf_secret named (emptied applied)
            ≡ ok (out.0, out.2))
  unfolding prepare_commit
  prepare_commit-steps a out e =
      let (g, _, e1) =
        >>=-eq-ok
          (gather w a a.pending_proposals
            (record { updates = []; removes = []; adds = []; path = none }, []))
          _ e in
      let (applied, f, e2) = >>=-eq-ok (apply w now g.0 (state_clone a)) _ e1 in
      let (made, h, e3) =
        >>=-eq-ok (path_if_required w random a.index leaf_secret g.0 (emptied applied)) _ e2 in
      (
        g.0,
        applied,
        f,
        h
            ∙ ap (λ (o : Commit DirectPath × List KeyPackage × State). ok (o.0, o.2))
                (ok_injective e3),
      )

  pub commit-Committed :
      (welcome_random : ℕ → Bytes) (a a' : State) (m : Memory)
      (out : MlsPlaintext × Welcome × State × Memory)
      → commit w now random welcome_random leaf_secret a m ≡ (ok out, a')
      → Committed a a' m out
  unfolding commit
  commit-Committed welcome_random a a' m out e =
      let (prepared, s0, f, e1) =
        and_then-eq-ok (prepare_commit w now random leaf_secret a, a) _ e in
      let (ctx, s1, g, e2) = and_then-eq-ok (group_context w s0) _ e1 in
      let (named, applied, f1, f2) = prepare_commit-steps a prepared (ap (λ q. q.0) f) in
      let at : s0 ≡ a = sym (ap (λ q. q.1) f) in
      let there : s1 ≡ a' = ap (λ q. q.1) e2 in
      record {
        named = named;
        sent = prepared.0;
        applied = applied;
        next = prepared.2;
        ctx = ctx;
        is_applied = f1;
        has_path = f2;
        in_context =
            subst (λ s. group_context w s ≡ (ok ctx, a')) at (g ∙ ap (λ s. (ok ctx, s)) there);
        is_signed =
            subst
              (λ s.
                ratchet_and_sign w prepared.0 prepared.2.tree_priv.update_secret ctx s.identity_priv
                  prepared.2 m
                ≡ ok (out.0, out.2, out.3))
              there
              (finish_commit-signed w welcome_random prepared.0 prepared.1 prepared.2 ctx s1 m out
                (ap (λ q. q.0) e2));
      }
