-- ===== src/Examples/Unions.antt =====
-- Proposals, contents and commits at concrete inputs.
use go_mls.Base.{
  ℕ, ◌≡◌, ◌↔◌, ◌⊎◌, ◌≢◌, refl, true, subst, none, some, Option, [], ◌∷◌, ◌++◌, length, Bytes, Codec,
  ReadsBack, ok,
}
use mathlib.Core.Option.{some-injective}
use go_mls.KeyPackage.{or_error}
use go_mls.Messages.{
  RemoveProposal, ProposalCodecs, Commit, removed_member, proposal_type, write_behind, write_member,
  marshal_proposal, unmarshal_proposal, commit_valid, has_path,
}
use go_mls.Messages.RoundTrip.{Faithful, one_remove, unmarshal-marshal}
use go_mls.Messages.Commits.{commit_valid_iff}
use go_mls.Messages.Content.{
  ContentCodecs, of_commit, content_type, write_content, marshal_content, unmarshal_content,
}
use go_mls.Messages.Content.RoundTrip.{FaithfulContent, one_commit, unmarshal-marshal_content}

-- One byte for a number.
abbrev pub one_byte : Bytes → Option (ℕ × ℕ)
one_byte [] = none
one_byte (x ∷ b) = some (x, 1)

abbrev pub byte : Codec ℕ
byte = record { encode = λ n. some (n ∷ []); decode = one_byte }

pub byte-ReadsBack : ReadsBack byte
byte-ReadsBack n d rest e =
    subst (λ d. byte.decode (d ++ rest) ≡ some (n, length d)) (some-injective _ _ e) refl

-- A format that refuses all.
abbrev refusing : {A : Type 0} → Codec A
refusing = record { encode = λ a. none; decode = λ b. none }

refusing-ReadsBack : {A : Type 0} → ReadsBack (refusing {A = A})
refusing-ReadsBack a d rest e = cc

abbrev one_removed : Bytes → Option (RemoveProposal × ℕ)
one_removed [] = none
one_removed (x ∷ b) = some (record { removed = x }, 1)

abbrev removal : Codec RemoveProposal
removal = record { encode = λ r. some (r.removed ∷ []); decode = one_removed }

removal-ReadsBack : ReadsBack removal
removal-ReadsBack r d rest e =
    subst (λ d. removal.decode (d ++ rest) ≡ some (r, length d)) (some-injective _ _ e) refl

abbrev pub proposals : ProposalCodecs
proposals = record { tag = byte; add = refusing; update = refusing; remove = removal }

pub proposals-Faithful : Faithful proposals
proposals-Faithful = record {
  tag = byte-ReadsBack;
  add = refusing-ReadsBack;
  update = refusing-ReadsBack;
  remove = removal-ReadsBack;
}

unmarshal-marshal_example :
    unmarshal_proposal proposals (3 ∷ 7 ∷ 9 ∷ []) ≡ ok (removed_member (record { removed = 7 }), 2)
unfolding marshal_proposal proposal_type write_member write_behind or_error
unmarshal-marshal_example =
    unmarshal-marshal proposals (removed_member (record { removed = 7 })) (3 ∷ 7 ∷ []) (9 ∷ [])
      proposals-Faithful (one_remove (record { removed = 7 })) refl

abbrev contents : ContentCodecs ℕ ℕ ℕ
contents = record { tag = byte; application = byte; proposal = byte; commit = byte }

contents-Faithful : FaithfulContent contents
contents-Faithful = record {
  tag = byte-ReadsBack;
  application = byte-ReadsBack;
  proposal = byte-ReadsBack;
  commit = byte-ReadsBack;
}

unmarshal-marshal_content_example : unmarshal_content contents (3 ∷ 8 ∷ []) ≡ ok (of_commit 8, 2)
unfolding marshal_content content_type write_content write_behind or_error
unmarshal-marshal_content_example =
    unmarshal-marshal_content contents (of_commit 8) (3 ∷ 8 ∷ []) [] contents-Faithful
      (one_commit 8) refl

abbrev adds_only : Commit ℕ
adds_only = record { updates = []; removes = []; adds = (1 ∷ []) ∷ []; path = none }

commit_valid_iff_example : (commit_valid adds_only ≡ true) ↔ (
    (has_path {P = ℕ} none ≡ true)
    ⊎ ((adds_only.updates ≡ []) × (adds_only.removes ≡ []) × (adds_only.adds ≢ [])))
commit_valid_iff_example = commit_valid_iff adds_only
