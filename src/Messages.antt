-- ===== src/Messages.antt =====
-- The tagged unions of messages.go, proposals and plaintext contents, with the commit's checks.
-- A union is a struct with a pointer for each member; a nil pointer is `none`.
pub mod RoundTrip
pub mod Commits
pub mod Content
pub mod Plaintext
pub mod Welcome
use go_mls.Base.{
  ℕ, ◌+◌, ◌==◌, if◌then◌else◌, Bool, true, false, not, ◌&&◌, ◌||◌, ltb, Option, none, some, List,
  [], ◌∷◌, ◌++◌, length, Bytes, Codec, Outcome, ok, err, panic, ◌>>=◌, marshal_failure,
  unmarshal_failure, malformed_proposal, malformed_content, unknown_enum,
}
use go_mls.KeyPackage.{KeyPackage, or_error}

-- `validateEnum`
unfoldable pub validate_enum : ℕ → List ℕ → Outcome (Unit {0})
validate_enum v [] = err unknown_enum
validate_enum v (kv ∷ known) = if v == kv then ok tt else validate_enum v known

abbrev pub proposal_type_add : ℕ
proposal_type_add = 1

abbrev pub proposal_type_update : ℕ
proposal_type_update = 2

abbrev pub proposal_type_remove : ℕ
proposal_type_remove = 3

unfoldable pub proposal_type_valid : ℕ → Outcome (Unit {0})
proposal_type_valid pt =
    validate_enum pt (proposal_type_add ∷ proposal_type_update ∷ proposal_type_remove ∷ [])

pub record AddProposal : Type 0 where
  pub key_package : KeyPackage

pub record UpdateProposal : Type 0 where
  pub key_package : KeyPackage

pub record RemoveProposal : Type 0 where
  pub removed : ℕ

pub record Proposal : Type 0 where
  pub add : Option AddProposal
  pub update : Option UpdateProposal
  pub remove : Option RemoveProposal

unfoldable pub proposal_type : Proposal → Outcome ℕ
proposal_type p = elim p.add [
  | some a ↦ ok proposal_type_add
  | none ↦ elim p.update [
    | some u ↦ ok proposal_type_update
    | none ↦ elim p.remove [ some r ↦ ok proposal_type_remove | none ↦ panic malformed_proposal ]
  ]
]

-- `s.Write` behind what the stream holds, and `s.Data()`. A nil pointer is not written.
unfoldable pub write_behind {ℓ} : {A : Type ℓ} → Codec A → Bytes → Option A → Outcome Bytes
write_behind c b none = err marshal_failure
write_behind c b (some a) = or_error (c.encode a) >>= λ d. ok (b ++ d)

-- `s.Read` from a position, with the position after it.
unfoldable pub drop : ℕ → Bytes → Bytes
drop ℕ.zero b = b
drop (ℕ.suc n) [] = []
drop (ℕ.suc n) (x ∷ b) = drop n b

unfoldable pub read_at {ℓ} : {A : Type ℓ} → Codec A → Bytes → ℕ → Outcome (A × ℕ)
read_at c data' position = elim (c.decode (drop position data')) [
  | none ↦ err unmarshal_failure
  | some (a, read) ↦ ok (a, position + read)
]

-- How the package go-tls-syntax writes the type tags and the members.
pub record ProposalCodecs : Type 0 where
  pub tag : Codec ℕ
  pub add : Codec AddProposal
  pub update : Codec UpdateProposal
  pub remove : Codec RemoveProposal

abbrev pub added : AddProposal → Proposal
added a = record { add = some a; update = none; remove = none }

abbrev pub updated : UpdateProposal → Proposal
updated u = record { add = none; update = some u; remove = none }

abbrev pub removed_member : RemoveProposal → Proposal
removed_member r = record { add = none; update = none; remove = some r }

module _ (c : ProposalCodecs) where
  -- The two switches on the type tag.
  unfoldable pub write_member : Proposal → ℕ → Bytes → Outcome Bytes
  write_member p t b =
      if t == proposal_type_add
      then write_behind c.add b p.add
      else if t == proposal_type_update
      then write_behind c.update b p.update
      else if t == proposal_type_remove
      then write_behind c.remove b p.remove
      else err marshal_failure

  unfoldable pub read_member : Bytes → ℕ → ℕ → Outcome (Proposal × ℕ)
  read_member data' position t =
      if t == proposal_type_add
      then read_at c.add data' position >>= (λ r. ok (added r.0, r.1))
      else if t == proposal_type_update
      then read_at c.update data' position >>= (λ r. ok (updated r.0, r.1))
      else if t == proposal_type_remove
      then read_at c.remove data' position >>= (λ r. ok (removed_member r.0, r.1))
      else err unmarshal_failure

  unfoldable pub marshal_proposal : Proposal → Outcome Bytes
  marshal_proposal p = do t ← proposal_type p; b ← or_error (c.tag.encode t); write_member p t b

  unfoldable pub unmarshal_proposal : Bytes → Outcome (Proposal × ℕ)
  unmarshal_proposal data' = do (t, position) ← read_at c.tag data' 0; read_member data' position t

abbrev pub ProposalId : Type 0
ProposalId = Bytes

-- The path stands for any type here: only whether there is one matters.
pub record Commit {ℓ} (P : Type ℓ) : Type ℓ where
  pub updates : List ProposalId
  pub removes : List ProposalId
  pub adds : List ProposalId
  pub path : Option P

unfoldable pub have : List ProposalId → Bool
have ids = ltb 0 (length ids)

unfoldable pub path_required {ℓ} : {P : Type ℓ} → Commit P → Bool
path_required commit =
    let have_updates = have commit.updates in
    let have_removes = have commit.removes in
    let have_adds = have commit.adds in
    let non_add_proposals = have_updates || have_removes in
    let no_proposals_at_all = not have_updates && not have_removes && not have_adds in
    non_add_proposals || no_proposals_at_all

unfoldable pub has_path {ℓ} : {P : Type ℓ} → Option P → Bool
has_path none = false
has_path (some p) = true

unfoldable pub commit_valid {ℓ} : {P : Type ℓ} → Commit P → Bool
commit_valid commit = has_path commit.path || not (path_required commit)
