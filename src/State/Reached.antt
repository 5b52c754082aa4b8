-- ===== src/State/Reached.antt =====
-- The states that a member comes to by `Handle` and `Commit`, one epoch after the other.
use go_mls.Base.{
  ℕ, suc, ◌+◌, ◌%◌, ◌<◌, ◌≡◌, refl, sym, ap, subst, ◌∙◌, arith, Bool, true, false, if◌then◌else◌,
  inl, inr, none, some, Bytes, u64, ok, >>=-eq-ok, ok_injective,
}
use mathlib.Core.Option.{some-injective}
use go_mls.Messages.{Commit, path_required}
use go_mls.Messages.Plaintext.{MlsPlaintext}
use go_mls.Messages.Welcome.{Welcome}
use go_mls.KeyPackage.{or_error}
use go_mls.TreeKem.Merge.{DirectPath}
use go_mls.PrivateTree.Sealing.{encap}
use go_mls.KeySchedule.Memory.{Memory}
use go_mls.State.{World, State, state_clone, group_context}
use go_mls.State.Commits.{next_epoch_number, add_path, path_if_required, commit}
use go_mls.State.Handling.{handle, queue}
use go_mls.State.Handling.Checks
use go_mls.State.Handling.Checks.{
  Accepted, Led, successor, emptied-standing, emptied-state_clone, group_context-standing,
  handle-outcome,
}
use go_mls.State.Frame.{apply-frame}
use go_mls.State.Standing.{Standing, standing, next_standing, ratchet_and_sign-standing}
use go_mls.State.Agreement.Rounds.{emptied, commit-Committed}

module _ (w : World) where
  add_path-standing :
      (random : ℕ → ℕ → Bytes) (i : ℕ) (leaf_secret : Bytes) (c : Commit DirectPath) (s : State)
      (out : Commit DirectPath × State)
      → add_path w random i leaf_secret c s ≡ ok out
      → standing out.1 ≡ standing s
  unfolding add_path standing
  add_path-standing random i leaf_secret c s out e =
      let hashed = group_context w s in
      let (ctx, f1, e1) = >>=-eq-ok hashed.0 _ e in
      let (enc, _, e2) = >>=-eq-ok (or_error (w.wire.context ctx)) _ e1 in
      let t = hashed.1 in
      let done =
        encap w.primitives w.hpke w.services w.parent_hashing (w.hashing t.tree.suite) t.tree.suite
          random i enc leaf_secret t.identity_priv t.tree.nodes in
      let (made, _, e3) = >>=-eq-ok done.0 _ e2 in
      ap (λ (q : Commit DirectPath × State). standing q.1) (sym (ok_injective e3))
      ∙ group_context-standing w s t ctx (ap (λ o. (o, t)) f1)

  pub path_if_required-standing :
      (random : ℕ → ℕ → Bytes) (i : ℕ) (leaf_secret : Bytes) (c : Commit DirectPath) (s : State)
      (out : Commit DirectPath × State)
      → path_if_required w random i leaf_secret c s ≡ ok out
      → standing out.1 ≡ standing s
  unfolding path_if_required
  path_if_required-standing random i leaf_secret c s out e = required (path_required c) e
    where
      required :
          (b : Bool)
          → (if b then add_path w random i leaf_secret c s else ok (c, s)) ≡ ok out
          → standing out.1 ≡ standing s
      required true e = add_path-standing random i leaf_secret c s out e
      required false e = ap (λ (q : Commit DirectPath × State). standing q.1) (sym (ok_injective e))

  pub commit-standing :
      (now : ℕ) (random : ℕ → ℕ → Bytes) (welcome_random : ℕ → Bytes) (leaf_secret : Bytes)
      (a a' : State) (m : Memory) (out : MlsPlaintext × Welcome × State × Memory)
      → commit w now random welcome_random leaf_secret a m ≡ (ok out, a')
      → standing out.2 ≡ successor a
  unfolding go_mls.State.Handling.Checks.emptied
  commit-standing now random welcome_random leaf_secret a a' m out e =
      let c = commit-Committed w now random leaf_secret welcome_random a a' m out e in
      ratchet_and_sign-standing w c.sent c.next.tree_priv.update_secret c.ctx a'.identity_priv
        c.next m (out.0, out.2, out.3) c.is_signed
      ∙ ap next_standing (
          path_if_required-standing random a.index leaf_secret c.named (emptied c.applied)
            (c.sent, c.next) c.has_path
          ∙ emptied-standing c.applied (state_clone a)
              (apply-frame w now c.named (state_clone a) c.applied c.is_applied))
      ∙ emptied-state_clone a

  -- A member goes from one state to another in so many epochs: it queues proposals, takes the next
  -- states that commits of others lead to, and commits itself.
  pub data Reached (s : State) : ℕ → State → Type 0 where
    start : Reached s 0 s
    queued :
        {n : ℕ} {a b : State} (now : ℕ) (pt : MlsPlaintext) (m m' : Memory)
        → Reached s n a
        → handle w now pt a m ≡ (ok (none, m'), b)
        → Reached s n b
    handled :
        {n : ℕ} {a b next : State} (now : ℕ) (pt : MlsPlaintext) (m m' : Memory)
        → Reached s n a
        → handle w now pt a m ≡ (ok (some next, m'), b)
        → Reached s (suc n) next
    committed :
        {n : ℕ} {a b : State} (now : ℕ) (random : ℕ → ℕ → Bytes) (welcome_random : ℕ → Bytes)
        (leaf_secret : Bytes) (m : Memory) (out : MlsPlaintext × Welcome × State × Memory)
        → Reached s n a
        → commit w now random welcome_random leaf_secret a m ≡ (ok out, b)
        → Reached s (suc n) out.2

  -- The same member of the same group, so many epochs later.
  pub record Later (s : State) (n : ℕ) (t : State) : Type 0 where
    pub same_group : t.group_id ≡ s.group_id
    pub same_suite : t.cipher_suite ≡ s.cipher_suite
    pub same_index : t.index ≡ s.index
    pub same_scheme : t.scheme ≡ s.scheme
    pub epochs : t.epoch ≡ (s.epoch + n) % u64

  next-Later :
      (s : State) (n : ℕ) (a b : State) → Later s n a → standing b ≡ successor a → Later s (suc n) b
  unfolding standing successor next_standing next_epoch_number
  next-Later s n a b l e = record {
    same_group = ap (λ (t : Standing). t.group_id) e ∙ l.same_group;
    same_suite = ap (λ (t : Standing). t.cipher_suite) e ∙ l.same_suite;
    same_index = ap (λ (t : Standing). t.index) e ∙ l.same_index;
    same_scheme = ap (λ (t : Standing). t.scheme) e ∙ l.same_scheme;
    epochs = omega (arith, ap (λ (t : Standing). t.epoch) e, l.epochs);
  }

  queue-Later :
      (s : State) (n : ℕ) (a a1 : State) (pt : MlsPlaintext)
      → Later s n a
      → standing a1 ≡ standing a
      → Later s n (queue pt a1)
  unfolding standing queue
  queue-Later s n a a1 pt l e = record {
    same_group = ap (λ (t : Standing). t.group_id) e ∙ l.same_group;
    same_suite = ap (λ (t : Standing). t.cipher_suite) e ∙ l.same_suite;
    same_index = ap (λ (t : Standing). t.index) e ∙ l.same_index;
    same_scheme = ap (λ (t : Standing). t.scheme) e ∙ l.same_scheme;
    epochs = ap (λ (t : Standing). t.epoch) e ∙ l.epochs;
  }

  -- From a state with a 64-bit epoch, whatever proposals and commits a member takes and whatever it
  -- commits itself: it stays the same member of the same group with the same suite and scheme, and
  -- its epoch is by the number of commits, its own and those of others, ahead of the first one, as a
  -- 64-bit number.
  pub Reached-Later : (s t : State) (n : ℕ) → s.epoch < u64 → Reached s n t → Later s n t
  Reached-Later s t n low start = record {
    same_group = refl;
    same_suite = refl;
    same_index = refl;
    same_scheme = refl;
    epochs = omega (arith, low);
  }
  Reached-Later s t n low (queued {a = a} now pt m m' r e) =
      let (s1, acc, led) = handle-outcome w now pt a m (none, m') t e in
      let l = Reached-Later s a n low r in
      elim led [
        | inl (_, _, out) ↦
            subst (Later s n) (sym out)
              (queue-Later s n a s1 pt l (group_context-standing w a s1 acc.ctx acc.in_context))
        | inr (_, got, _, _, _, _, _) ↦ cc
      ]
  Reached-Later s t n low (handled {n = k} {a = a} {b = b} now pt m m' r e) =
      let (s1, acc, led) = handle-outcome w now pt a m (some t, m') b e in
      let l = Reached-Later s a k low r in
      elim led [
        | inl (_, got, _) ↦ cc
        | inr (next, got, _, _, _, _, stands) ↦
            next-Later s k a t l (ap standing (some-injective _ _ got) ∙ stands)
      ]
  Reached-Later s t n low
        (committed {n = k} {a = a} {b = b} now random welcome_random leaf_secret m out r e) =
      next-Later s k a out.2 (Reached-Later s a k low r)
        (commit-standing now random welcome_random leaf_secret a b m out e)
