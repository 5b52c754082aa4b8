-- ===== src/Messages/Content.antt =====
-- The content of a plaintext message: application data, a proposal or a commit. What these three
-- are, and how they are written, is a parameter.
pub mod RoundTrip
use go_mls.Base.{
  ℕ, ◌==◌, if◌then◌else◌, Option, none, some, List, [], ◌∷◌, Bytes, Codec, Outcome, ok, err, panic,
  ◌>>=◌, marshal_failure, unmarshal_failure, malformed_content,
}
use go_mls.KeyPackage.{or_error}
use go_mls.Messages.{validate_enum, write_behind, read_at}

abbrev pub content_type_application : ℕ
content_type_application = 1

abbrev pub content_type_proposal : ℕ
content_type_proposal = 2

abbrev pub content_type_commit : ℕ
content_type_commit = 3

pub record MlsPlaintextContent (A P C : Type 0) : Type 0 where
  pub application : Option A
  pub proposal : Option P
  pub commit : Option C

unfoldable pub content_type_valid : ℕ → Outcome (Unit {0})
content_type_valid ct =
    validate_enum ct (content_type_application ∷ content_type_proposal ∷ content_type_commit ∷ [])

abbrev pub sender_type_member : ℕ
sender_type_member = 1

abbrev pub sender_type_preconfigured : ℕ
sender_type_preconfigured = 2

abbrev pub sender_type_new_member : ℕ
sender_type_new_member = 3

unfoldable pub sender_type_valid : ℕ → Outcome (Unit {0})
sender_type_valid st =
    validate_enum st (sender_type_member ∷ sender_type_preconfigured ∷ sender_type_new_member ∷ [])

pub record ContentCodecs (A P C : Type 0) : Type 0 where
  pub tag : Codec ℕ
  pub application : Codec A
  pub proposal : Codec P
  pub commit : Codec C

module _ {A P C : Type 0} where
  abbrev pub of_application : A → MlsPlaintextContent A P C
  of_application a = record { application = some a; proposal = none; commit = none }

  abbrev pub of_proposal : P → MlsPlaintextContent A P C
  of_proposal p = record { application = none; proposal = some p; commit = none }

  abbrev pub of_commit : C → MlsPlaintextContent A P C
  of_commit c = record { application = none; proposal = none; commit = some c }

  unfoldable pub content_type : MlsPlaintextContent A P C → Outcome ℕ
  content_type c = elim c.application [
    | some a ↦ ok content_type_application
    | none ↦ elim c.proposal [
      | some p ↦ ok content_type_proposal
      | none ↦ elim c.commit [ some d ↦ ok content_type_commit | none ↦ panic malformed_content ]
    ]
  ]

  -- The two switches on the type tag.
  unfoldable pub write_content :
      ContentCodecs A P C → MlsPlaintextContent A P C → ℕ → Bytes → Outcome Bytes
  write_content k c t b =
      if t == content_type_application
      then write_behind k.application b c.application
      else if t == content_type_proposal
      then write_behind k.proposal b c.proposal
      else if t == content_type_commit
      then write_behind k.commit b c.commit
      else err marshal_failure

  unfoldable pub read_content :
      ContentCodecs A P C → Bytes → ℕ → ℕ → Outcome (MlsPlaintextContent A P C × ℕ)
  read_content k data' position t =
      if t == content_type_application
      then read_at k.application data' position >>= (λ r. ok (of_application r.0, r.1))
      else if t == content_type_proposal
      then read_at k.proposal data' position >>= (λ r. ok (of_proposal r.0, r.1))
      else if t == content_type_commit
      then read_at k.commit data' position >>= (λ r. ok (of_commit r.0, r.1))
      else err unmarshal_failure

  unfoldable pub marshal_content : ContentCodecs A P C → MlsPlaintextContent A P C → Outcome Bytes
  marshal_content k c = do t ← content_type c; b ← or_error (k.tag.encode t); write_content k c t b

  unfoldable pub unmarshal_content :
      ContentCodecs A P C → Bytes → Outcome (MlsPlaintextContent A P C × ℕ)
  unmarshal_content k data' = do
    (t, position) ← read_at k.tag data' 0
    read_content k data' position t
