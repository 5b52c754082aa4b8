-- ===== src/State/Agreement/Alike.antt =====
-- Two members who apply the same proposals to states that are alike, each at a time of its own.
use go_mls.Base.{
  ◌≡◌, refl, sym, ap, subst, ◌∙◌, Bool, true, false, Option, none, some, List, [], ◌∷◌, Bytes,
  bytes_eq, Outcome, ok, ◌>>=◌, ℕ, >>=-eq-ok, ok_injective,
}
use go_mls.Messages.{Commit}
use go_mls.Messages.Plaintext.{MlsPlaintext}
use go_mls.TreeKem.{Nodes}
use go_mls.TreeKem.Merge.{DirectPath}
use go_mls.State.{World, State, proposal_id, find_proposal}
use go_mls.State.Proposals.{with_nodes, apply_found, apply_new, apply_proposals, apply, seen}
use go_mls.State.Frame.{Frame, frame, apply_found-frame}
use go_mls.State.Agreement.{View, view}
use go_mls.State.Agreement.Applied.{Edited, edit, apply_found-Edited}

-- One view, and the same proposals pending.
pub record Alike (a b : State) : Type 0 where
  pub views : view a ≡ view b
  pub pending : a.pending_proposals ≡ b.pending_proposals

-- What two successful calls with equal outcomes return.
same_result {ℓ} : {A : Type ℓ} {x y : Outcome A} {a b : A} → x ≡ y → x ≡ ok a → y ≡ ok b → a ≡ b
same_result e f g = ok_injective (sym f ∙ e ∙ g)

Edited-unique :
    (f : Nodes → Outcome Nodes) (a b a' b' : State)
    → view a ≡ view b
    → Edited f a a'
    → Edited f b b'
    → view a' ≡ view b'
unfolding view with_nodes
Edited-unique f a b a' b' e (ns, run, made) (ns', run', made') =
    let nodes : f a.tree.nodes ≡ f b.tree.nodes = ap (λ (v : View). f v.tree.nodes) e in
    let now : Nodes → View → View =
      λ new v. record v { tree = record { suite = v.tree.suite; nodes = new } } in
    made ∙ ap (now ns) e ∙ ap (λ new. now new (view b)) (same_result nodes run run') ∙ sym made'

module _ (w : World) (now now' : ℕ) where
  apply_found-pending :
      (time : ℕ) (id : Bytes) (pt : MlsPlaintext) (s out : State)
      → apply_found w time id pt s ≡ ok out
      → out.pending_proposals ≡ s.pending_proposals
  unfolding frame
  apply_found-pending time id pt s out e =
      ap (λ (f : Frame). f.pending_proposals) (apply_found-frame w time id pt s out e)

  apply_found-Alike :
      (id : Bytes) (pt : MlsPlaintext) (a b a' b' : State)
      → Alike a b
      → apply_found w now id pt a ≡ ok a'
      → apply_found w now' id pt b ≡ ok b'
      → Alike a' b'
  apply_found-Alike id pt a b a' b' e f g =
      let (p, named, edited) = apply_found-Edited w now id pt a a' f in
      let (p', named', edited') = apply_found-Edited w now' id pt b b' g in
      let same : p' ≡ p = same_result refl named' named in
      record {
        views =
            Edited-unique (edit pt.sender.sender p) a b a' b' e.views edited
              (subst (λ q. Edited (edit pt.sender.sender q) b b') same edited');
        pending =
            apply_found-pending now id pt a a' f
            ∙ e.pending
            ∙ sym (apply_found-pending now' id pt b b' g);
      }

  -- The lists of what was processed, and the states.
  abbrev Both : List Bytes × State → List Bytes × State → Type 0
  Both r r' = (r.0 ≡ r'.0) × Alike r.1 r'.1

  apply_new-Alike :
      (id : Bytes) (o : Option MlsPlaintext) (done : List Bytes) (a b : State)
      (r r' : List Bytes × State)
      → Alike a b
      → apply_new w now id o done a ≡ ok r
      → apply_new w now' id o done b ≡ ok r'
      → Both r r'
  unfolding apply_new
  apply_new-Alike id none done a b r r' e f g = cc
  apply_new-Alike id (some pt) done a b r r' e f g = known (seen done id) f g
    where
      known :
          (k : Bool)
          → elim k [
            | true ↦ ok (done, a)
            | false ↦ apply_found w now id pt a >>= λ s. ok (id ∷ done, s)
          ]
            ≡ ok r
          → elim k [
            | true ↦ ok (done, b)
            | false ↦ apply_found w now' id pt b >>= λ s. ok (id ∷ done, s)
          ]
            ≡ ok r'
          → Both r r'
      known true f g =
          subst (Both r) (ok_injective g) (subst (λ x. Both x (done, b)) (ok_injective f) (refl, e))
      known false f g =
          let (a', f1, f2) = >>=-eq-ok (apply_found w now id pt a) _ f in
          let (b', g1, g2) = >>=-eq-ok (apply_found w now' id pt b) _ g in
          subst (Both r) (ok_injective g2) (
            subst (λ x. Both x (id ∷ done, b')) (ok_injective f2)
              (refl, apply_found-Alike id pt a b a' b' e f1 g1))

  proposal_id-suite :
      (a b : State) (pt : MlsPlaintext)
      → a.cipher_suite ≡ b.cipher_suite
      → proposal_id w a pt ≡ proposal_id w b pt
  unfolding proposal_id
  proposal_id-suite a b pt e = rw e refl

  pub find_proposal-suite :
      (a b : State) (id : Bytes) (pts : List MlsPlaintext)
      → a.cipher_suite ≡ b.cipher_suite
      → find_proposal w a id pts ≡ find_proposal w b id pts
  unfolding find_proposal
  find_proposal-suite a b id [] e = refl
  find_proposal-suite a b id (pt ∷ pts) e =
      let looked : Outcome Bytes → Outcome (Option MlsPlaintext) → Outcome (Option MlsPlaintext) =
        λ i rest. i >>= λ other. elim (bytes_eq other id) [ true ↦ ok (some pt) | false ↦ rest ] in
      ap (λ i. looked i (find_proposal w a id pts)) (proposal_id-suite a b pt e)
      ∙ ap (looked (proposal_id w b pt)) (find_proposal-suite a b id pts e)

  apply_proposals-Alike :
      (ids done : List Bytes) (a b : State) (r r' : List Bytes × State)
      → Alike a b
      → apply_proposals w now ids done a ≡ ok r
      → apply_proposals w now' ids done b ≡ ok r'
      → Both r r'
  unfolding apply_proposals
  apply_proposals-Alike [] done a b r r' e f g =
      subst (Both r) (ok_injective g) (subst (λ x. Both x (done, b)) (ok_injective f) (refl, e))
  apply_proposals-Alike (id ∷ ids) done a b r r' e f g =
      let (o, f1, f2) = >>=-eq-ok (find_proposal w a id a.pending_proposals) _ f in
      let (mid, f3, f4) = >>=-eq-ok (apply_new w now id o done a) _ f2 in
      let (o', g1, g2) = >>=-eq-ok (find_proposal w b id b.pending_proposals) _ g in
      let (mid', g3, g4) = >>=-eq-ok (apply_new w now' id o' done b) _ g2 in
      let suite : a.cipher_suite ≡ b.cipher_suite =
        unfold view in ap (λ (v : View). v.cipher_suite) e.views in
      let found : o' ≡ o =
        same_result
          (sym (
            find_proposal-suite a b id a.pending_proposals suite
            ∙ ap (find_proposal w b id) e.pending))
          g1 f1 in
      let (lists, states) =
        apply_new-Alike id o done a b mid mid' e f3
          (subst (λ x. apply_new w now' id x done b ≡ ok mid') found g3) in
      apply_proposals-Alike ids mid.0 mid.1 mid'.1 r r' states f4
        (subst (λ d. apply_proposals w now' ids d mid'.1 ≡ ok r') (sym lists) g4)

  after :
      (ids : List Bytes) (r q r' q' : List Bytes × State)
      → r.0 ≡ q.0
      → Alike r.1 q.1
      → apply_proposals w now ids r.0 r.1 ≡ ok r'
      → apply_proposals w now' ids q.0 q.1 ≡ ok q'
      → Both r' q'
  after ids r q r' q' lists states f g =
      apply_proposals-Alike ids r.0 r.1 q.1 r' q' states f
        (subst (λ d. apply_proposals w now' ids d q.1 ≡ ok q') (sym lists) g)

  -- Where `apply` of one commit returns for two members whose states are alike, what it leaves is
  -- alike too, whatever each has of its own.
  pub apply-Alike :
      (c : Commit DirectPath) (a b a' b' : State)
      → Alike a b
      → apply w now c a ≡ ok a'
      → apply w now' c b ≡ ok b'
      → Alike a' b'
  unfolding apply
  apply-Alike c a b a' b' e f g =
      let (r1, f1, f2) = >>=-eq-ok (apply_proposals w now c.updates [] a) _ f in
      let (r2, f3, f4) = >>=-eq-ok (apply_proposals w now c.removes r1.0 r1.1) _ f2 in
      let (r3, f5, f6) = >>=-eq-ok (apply_proposals w now c.adds r2.0 r2.1) _ f4 in
      let (q1, g1, g2) = >>=-eq-ok (apply_proposals w now' c.updates [] b) _ g in
      let (q2, g3, g4) = >>=-eq-ok (apply_proposals w now' c.removes q1.0 q1.1) _ g2 in
      let (q3, g5, g6) = >>=-eq-ok (apply_proposals w now' c.adds q2.0 q2.1) _ g4 in
      let (l1, s1) = apply_proposals-Alike c.updates [] a b r1 q1 e f1 g1 in
      let (l2, s2) = after c.removes r1 q1 r2 q2 l1 s1 f3 g3 in
      let (_, s3) = after c.adds r2 q2 r3 q3 l2 s2 f5 g5 in
      subst (Alike a') (ok_injective g6) (subst (λ x. Alike x q3.1) (ok_injective f6) s3)
