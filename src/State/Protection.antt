-- ===== src/State/Protection.antt =====
-- `Protect` and `Unprotect`: messages under the keys of the epoch. The state and the memory are kept
-- where a call fails after it has drawn keys.
pub mod Sending
pub mod Receiving
pub mod Opened
pub mod RoundTrip
use go_mls.Base.{
  ℕ, zero, suc, ◌==◌, if◌then◌else◌, Bool, true, false, Option, none, some, List, [], ◌∷◌, ◌++◌,
  Bytes, bytes_eq, bit_xor, Outcome, ok, err, panic, ◌>>=◌, and_then, guard, wrong_group,
  wrong_epoch, wrong_content, unmarshal_failure, index_out_of_range, bad_signature,
  malformed_content,
}
use go_mls.KeyPackage.{or_error}
use go_mls.Crypto.{constants}
use go_mls.Crypto.Aead.{aead_unchecked}
use go_mls.Messages.{read_at}
use go_mls.Messages.Content.{
  MlsPlaintextContent, of_application, content_type, content_type_application,
  content_type_proposal, content_type_commit, sender_type_member, marshal_content,
  unmarshal_content,
}
use go_mls.Messages.Plaintext.{
  GroupContext, Content, MlsPlaintext, MlsCiphertext, PlaintextWire, or_nil, plaintext_sign,
  plaintext_verify,
}
use go_mls.KeySchedule.Memory.{Memory}
use go_mls.KeySchedule.Ratchet.{KeyAndNonce}
use go_mls.KeySchedule.Source.{GroupKeySource, Call, group_next, group_get, group_erase}
use go_mls.KeySchedule.Epoch.{KeyScheduleEpoch}
use go_mls.State.{World, State, ProtectionWire, group_context, signer_public_key}

-- `for i := range reuseGuard { nonceOut[i] ^= reuseGuard[i] }`
unfoldable pub apply_guard : Bytes → Bytes → Outcome Bytes
apply_guard nonce [] = ok nonce
apply_guard [] (g ∷ reuse_guard) = panic index_out_of_range
apply_guard (b ∷ nonce) (g ∷ reuse_guard) =
    apply_guard nonce reuse_guard >>= λ rest. ok (bit_xor b g ∷ rest)

-- Which keys a message takes.
pub data KeyUse : Type 0 where
  for_application for_handshake : KeyUse

unfoldable pub key_use : ℕ → Outcome KeyUse
key_use t =
    if t == content_type_application
    then ok for_application
    else if t == content_type_proposal
    then ok for_handshake
    else if t == content_type_commit
    then ok for_handshake
    else err wrong_content

unfoldable pub source_of : KeyUse → State → GroupKeySource
source_of for_application s = s.keys.application_keys
source_of for_handshake s = s.keys.handshake_keys

unfoldable pub put_source : KeyUse → GroupKeySource → State → State
put_source for_application g s = record s { keys = record s.keys { application_keys = g } }
put_source for_handshake g s = record s { keys = record s.keys { handshake_keys = g } }

unfoldable pub or_unreadable {ℓ} : {A : Type ℓ} → Option A → Outcome A
or_unreadable none = err unmarshal_failure
or_unreadable (some a) = ok a

abbrev pub Store : Type 0
Store = State × Memory

-- The bytes of a key and a nonce.
unfoldable pub key_bytes : KeyAndNonce → Memory → Bytes × Bytes
key_bytes kn m = (m.cells kn.key, m.cells kn.nonce)

-- Which member wrote a message, the generation of its keys, and the bytes that guard the nonce.
pub record SenderData : Type 0 where
  pub sender : ℕ
  pub generation : ℕ
  pub reuse_guard : Bytes

unfoldable pub application_of : Content → Outcome Bytes
application_of c = elim c.application [ none ↦ panic malformed_content | some d ↦ ok d ]

-- A call that gives the store that it left.
unfoldable pub and_store : {A : Type 0} → Outcome (A × Store) → Store → Outcome A × Store
and_store (ok (a, st)) old = (ok a, st)
and_store (err why) old = (err why, old)
and_store (panic why) old = (panic why, old)

-- The state that a call on it left, beside the memory.
unfoldable pub beside : {A : Type 0} → Outcome A × State → Memory → Outcome A × Store
beside (o, s) m = (o, (s, m))
