-- ===== src/State/Agreement/Added.antt =====
-- The path that `Commit` adds, and what `Handle` needs to take it.
use go_mls.Base.{
  ℕ, ◌≡◌, refl, sym, ap, ◌∙◌, Bool, true, false, if◌then◌else◌, some, [], Bytes, Outcome, ok, err,
  panic, >>=-eq-ok, ok_injective, and_then-eq-ok,
}
use go_mls.KeyPackage.{or_error}
use go_mls.Messages.{Commit, path_required}
use go_mls.Messages.Plaintext.{GroupContext}
use go_mls.TreeKem.{Nodes}
use go_mls.TreeKem.Merge.{DirectPath, merge}
use go_mls.PrivateTree.{TreeKemPrivateKey}
use go_mls.PrivateTree.Opening.{decap}
use go_mls.PrivateTree.Sealing.{encap}
use go_mls.State.{World, State, keep_hashes, state_root_hash, context_with, group_context}
use go_mls.State.Commits.{add_path, path_if_required}
use go_mls.State.Handling.{receive_path}
use go_mls.State.Agreement.{View, view, state_root_hash-view}

keep_context :
    (o : Outcome (Bytes × Nodes)) (s : State) (h : Bytes)
    → context_with [] (keep_hashes o s).1 h ≡ context_with [] s h
unfolding keep_hashes context_with
keep_context (ok r) s h = refl
keep_context (err why) s h = refl
keep_context (panic why) s h = refl

module _ (w : World) where
  -- The context that the path was sealed in is the receiver's.
  pub both_hashed :
      (s r t : State) (ctx : GroupContext)
      → view s ≡ view r
      → s.extensions ≡ []
      → group_context w s ≡ (ok ctx, t)
      → let t' = (state_root_hash w r).1 in
        (h : Bytes) × ((state_root_hash w r).0 ≡ ok h)
        × (context_with [] t' h ≡ ctx)
        × (view t ≡ view t')
  unfolding group_context state_root_hash
  both_hashed s r t ctx e bare e0 =
      let (h, mid, g, e1) = and_then-eq-ok (state_root_hash w s) _ e0 in
      let (same, views) = state_root_hash-view w s r e in
      let mid_is : (state_root_hash w s).1 ≡ t = ap (λ q. q.1) g ∙ ap (λ q. q.1) e1 in
      let shared : context_with [] r h ≡ context_with [] s h =
        unfold view context_with in
        ap
          (λ (v : View). record {
            group_id = v.group_id;
            epoch = v.epoch;
            tree_hash = h;
            confirmed_transcript_hash = v.confirmed_transcript_hash;
            extensions = [];
          })
          (sym e) in
      (
        h,
        same ∙ ap (λ q. q.0) g,
        keep_context _ r h
            ∙ shared
            ∙ ap (λ x. context_with x s h) (sym bare)
            ∙ ok_injective (ap (λ q. q.0) e1),
        ap view (sym mid_is) ∙ views,
      )

  -- What a sender does for a commit that needs a path.
  pub record Added (random : ℕ → ℕ → Bytes) (i : ℕ) (leaf_secret : Bytes)
      (named : Commit DirectPath) (s : State) (sent : Commit DirectPath) (next : State)
      : Type 0 where
    pub ctx : GroupContext
    pub t : State
    pub enc : Bytes
    pub priv : TreeKemPrivateKey
    pub path : DirectPath
    pub nodes : Nodes
    pub in_context : group_context w s ≡ (ok ctx, t)
    pub written : or_error (w.wire.context ctx) ≡ ok enc
    pub made :
        encap w.primitives w.hpke w.services w.parent_hashing
          (w.hashing t.tree.suite)
          t.tree.suite
          random
          i
          enc
          leaf_secret
          t.identity_priv
          t.tree.nodes
        ≡ (ok (priv, path), nodes)
    pub is_sent : sent ≡ record named { path = some path }
    pub is_next :
        next ≡ record t { tree_priv = priv; tree = record { suite = t.tree.suite; nodes = nodes } }

  add_path-Added :
      (random : ℕ → ℕ → Bytes) (i : ℕ) (leaf_secret : Bytes) (named sent : Commit DirectPath)
      (s next : State)
      → add_path w random i leaf_secret named s ≡ ok (sent, next)
      → Added random i leaf_secret named s sent next
  unfolding add_path
  add_path-Added random i leaf_secret named sent s next e =
      let hashed = group_context w s in
      let (ctx, f1, e1) = >>=-eq-ok hashed.0 _ e in
      let (enc, f2, e2) = >>=-eq-ok (or_error (w.wire.context ctx)) _ e1 in
      let t = hashed.1 in
      let done =
        encap w.primitives w.hpke w.services w.parent_hashing (w.hashing t.tree.suite) t.tree.suite
          random i enc leaf_secret t.identity_priv t.tree.nodes in
      let (made, f3, e3) = >>=-eq-ok done.0 _ e2 in
      record {
        ctx = ctx;
        t = t;
        enc = enc;
        priv = made.0;
        path = made.1;
        nodes = done.1;
        in_context = ap (λ o. (o, t)) f1;
        written = f2;
        made = ap (λ o. (o, done.1)) f3;
        is_sent = ap (λ (q : Commit DirectPath × State). q.0) (sym (ok_injective e3));
        is_next = ap (λ (q : Commit DirectPath × State). q.1) (sym (ok_injective e3));
      }

  pub path_if_required-Added :
      (random : ℕ → ℕ → Bytes) (i : ℕ) (leaf_secret : Bytes) (named sent : Commit DirectPath)
      (s next : State)
      → path_if_required w random i leaf_secret named s ≡ ok (sent, next)
      → path_required sent ≡ true
      → Added random i leaf_secret named s sent next
  unfolding path_if_required
  path_if_required-Added random i leaf_secret named sent s next e needs =
      required (path_required named) refl e
    where
      required :
          (b : Bool)
          → path_required named ≡ b
          → (if b then add_path w random i leaf_secret named s else ok (named, s)) ≡ ok (sent, next)
          → Added random i leaf_secret named s sent next
      required true f e = add_path-Added random i leaf_secret named sent s next e
      required false f e =
          let same : named ≡ sent = ap (λ q. q.0) (ok_injective e) in
          let clash : true ≡ false = sym needs ∙ ap path_required (sym same) ∙ f in cc

  pub receive_path_by :
      (from : ℕ) (z : Bytes) (path : DirectPath) (r : State) (h enc : Bytes)
      (priv : TreeKemPrivateKey) (nodes : Nodes)
      → (state_root_hash w r).0 ≡ ok h
      → let t = (state_root_hash w r).1 in
        or_error (w.wire.context (context_with [] t h)) ≡ ok enc
        → decap w.primitives w.hpke from t.tree.nodes enc path t.tree_priv ≡ ok priv
        → merge (w.hashing t.tree.suite) from path t.tree.nodes ≡ (ok tt, nodes)
        → receive_path w from z (some path) r
          ≡ ok (
            priv.update_secret,
            record t { tree_priv = priv; tree = record { suite = t.tree.suite; nodes = nodes } },
          )
  unfolding receive_path
  receive_path_by from z path r h enc priv nodes f g k l = rw (f, g, k, l) refl
