-- ===== src/Messages/Commits.antt =====
-- Which commits need a path.
use go_mls.Base.{◌≡◌, ◌↔◌, ◌⊎◌, ◌≢◌, refl, arith, true, false, Option, List, [], ◌∷◌}
use go_mls.Messages.{Commit, ProposalId, have, path_required, has_path, commit_valid}

cons_ne : (i : ProposalId) (ids : List ProposalId) → (i ∷ ids) ≢ []
cons_ne i ids e = cc

have_none : have [] ≡ false
unfolding have
have_none = refl

have_some : (i : ProposalId) (ids : List ProposalId) → have (i ∷ ids) ≡ true
unfolding have
have_some i ids = ground arith

module _ {ℓ} {P : Type ℓ} where
  abbrev make : List ProposalId → List ProposalId → List ProposalId → Option P → Commit P
  make us rs ads path = record { updates = us; removes = rs; adds = ads; path = path }

  valid_by :
      (us rs ads : List ProposalId) (path : Option P)
      → (commit_valid (make us rs ads path) ≡ true)
        ↔ ((has_path path ≡ true) ⊎ ((us ≡ []) × (rs ≡ []) × (ads ≢ [])))
  unfolding commit_valid path_required
  valid_by (u ∷ us) rs ads path = ground (arith, have_some u us, cons_ne u us)
  valid_by [] (r ∷ rs) ads path = ground (arith, have_none, have_some r rs, cons_ne r rs)
  valid_by [] [] (a ∷ ads) path = ground (arith, have_none, have_some a ads, cons_ne a ads)
  valid_by [] [] [] path = ground (arith, have_none)

  -- Only a commit to some adds and to nothing else may do without a path: `ValidForTLS` holds
  -- exactly when there is a path or when the commit has adds but neither updates nor removes.
  pub commit_valid_iff :
      (c : Commit P)
      → (commit_valid c ≡ true)
        ↔ ((has_path c.path ≡ true) ⊎ ((c.updates ≡ []) × (c.removes ≡ []) × (c.adds ≢ [])))
  commit_valid_iff c = valid_by c.updates c.removes c.adds c.path
