-- ===== src/Messages/Plaintext.antt =====
-- Plaintext messages and the context of a group: what is signed, and what goes into the transcript.
-- How the package go-tls-syntax writes the structures is a parameter; the content is written by its
-- own `MarshalTLS`.
use go_mls.Base.{
  ℕ, Bool, Option, none, some, [], Bytes, Outcome, ok, panic, ◌>>=◌, malformed_content,
}
use go_mls.Extensions.{ExtensionList}
use go_mls.KeyPackage.{Services, SignaturePrivateKey, or_error}
use go_mls.Crypto.Aead.{errors_panic}
use go_mls.Messages.{Proposal, Commit}
use go_mls.Messages.Content.{MlsPlaintextContent, ContentCodecs, marshal_content, content_type}
use go_mls.TreeKem.Merge.{DirectPath}

pub record GroupContext : Type 0 where
  pub group_id : Bytes
  pub epoch : ℕ
  pub tree_hash : Bytes
  pub confirmed_transcript_hash : Bytes
  pub extensions : ExtensionList

pub record Sender : Type 0 where
  pub type : ℕ
  pub sender : ℕ

pub record CommitData : Type 0 where
  pub commit : Commit DirectPath
  pub confirmation : Bytes

abbrev pub Content : Type 0
Content = MlsPlaintextContent Bytes Proposal CommitData

pub record MlsPlaintext : Type 0 where
  pub group_id : Bytes
  pub epoch : ℕ
  pub sender : Sender
  pub authenticated_data : Bytes
  pub content : Content
  pub signature : Bytes

pub record MlsCiphertext : Type 0 where
  pub group_id : Bytes
  pub epoch : ℕ
  pub content_type : ℕ
  pub sender_data_nonce : Bytes
  pub encrypted_sender_data : Bytes
  pub authenticated_data : Bytes
  pub ciphertext : Bytes

-- The structure that `toBeSigned` writes behind the context, with the content as it was written.
pub record SignedPart : Type 0 where
  pub group_id : Bytes
  pub epoch : ℕ
  pub sender : Sender
  pub authenticated_data : Bytes
  pub content : Bytes

-- The structure that `commitContent` writes.
pub record CommitPart : Type 0 where
  pub group_id : Bytes
  pub epoch : ℕ
  pub sender : Sender
  pub commit : Commit DirectPath
  pub content_type : ℕ

pub record PlaintextWire : Type 0 where
  pub content : ContentCodecs Bytes Proposal CommitData
  pub context : GroupContext → Option Bytes
  pub signed_part : Bytes → SignedPart → Option Bytes
  pub commit_part : CommitPart → Option Bytes
  pub auth_data : Bytes → Bytes → Option Bytes
  pub plaintext : SignedPart → Bytes → Option Bytes

-- `pt.Content.Commit`, which is dereferenced.
unfoldable pub commit_of : Content → Outcome CommitData
commit_of c = elim c.commit [ none ↦ panic malformed_content | some d ↦ ok d ]

-- A marshalling error leaves nil.
unfoldable pub or_nil : Option Bytes → Bytes
or_nil none = []
or_nil (some b) = b

module _ (w : PlaintextWire) where
  unfoldable pub signed_part : MlsPlaintext → Outcome SignedPart
  signed_part pt = do
    content ← marshal_content w.content pt.content
    ok (record {
      group_id = pt.group_id;
      epoch = pt.epoch;
      sender = pt.sender;
      authenticated_data = pt.authenticated_data;
      content = content;
    })

  -- `toBeSigned`; an error panics.
  unfoldable pub to_be_signed : GroupContext → MlsPlaintext → Outcome Bytes
  to_be_signed ctx pt = do
    start ← errors_panic (or_error (w.context ctx))
    part ← errors_panic (signed_part pt)
    errors_panic (or_error (w.signed_part start part))

  unfoldable pub plaintext_sign :
      Services → GroupContext → SignaturePrivateKey → ℕ → MlsPlaintext → Outcome MlsPlaintext
  plaintext_sign sv ctx priv scheme pt = do
    tbs ← to_be_signed ctx pt
    sig ← or_error (sv.sign scheme priv tbs)
    ok (record pt { signature = sig })

  unfoldable pub plaintext_verify :
      Services → GroupContext → Bytes → ℕ → MlsPlaintext → Outcome Bool
  plaintext_verify sv ctx pub_key scheme pt = do
    tbs ← to_be_signed ctx pt
    ok (sv.check scheme pub_key tbs pt.signature)

  unfoldable pub commit_content : MlsPlaintext → Outcome Bytes
  commit_content pt = do
    data' ← commit_of pt.content
    t ← content_type pt.content
    ok (
        or_nil (
          w.commit_part (record {
            group_id = pt.group_id;
            epoch = pt.epoch;
            sender = pt.sender;
            commit = data'.commit;
            content_type = t;
          })))

  unfoldable pub commit_auth_data : MlsPlaintext → Outcome Bytes
  commit_auth_data pt = do
    data' ← commit_of pt.content
    or_error (w.auth_data data'.confirmation pt.signature)
