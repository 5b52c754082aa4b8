-- ===== src/State/Protection/Receiving.antt =====
-- `Unprotect` and `decrypt`.
use go_mls.Base.{
  ◌==◌, Bytes, bytes_eq, Outcome, ok, ◌>>=◌, and_then, guard, wrong_group, wrong_epoch,
  wrong_content, bad_signature,
}
use go_mls.Crypto.Aead.{aead_unchecked}
use go_mls.Messages.{read_at}
use go_mls.Messages.Content.{
  content_type, content_type_application, sender_type_member, unmarshal_content,
}
use go_mls.Messages.Plaintext.{
  GroupContext, Content, MlsPlaintext, MlsCiphertext, or_nil, plaintext_verify,
}
use go_mls.KeySchedule.Source.{group_get, group_erase}
use go_mls.State.{World, State, group_context, signer_public_key}
use go_mls.State.Protection.{
  apply_guard, KeyUse, key_use, source_of, put_source, Store, key_bytes, SenderData, and_store,
  beside, or_unreadable, application_of,
}

module _ (w : World) where
  unfoldable pub open_sender_data : MlsCiphertext → State → Outcome SenderData
  open_sender_data ct s = do
    _ ← guard (bytes_eq ct.group_id s.group_id) wrong_group
    _ ← guard (ct.epoch == s.epoch) wrong_epoch
    aead ← aead_unchecked w.ciphers s.cipher_suite s.keys.sender_data_key
    sd ← aead.unseal ct.sender_data_nonce ct.encrypted_sender_data (
        or_nil (
          w.protection_wire.sender_data_aad ct.group_id ct.epoch ct.content_type
            ct.sender_data_nonce))
    (sender, generation, reuse_guard) ← or_unreadable (w.protection_wire.read_sender_data sd)
    ok (record { sender = sender; generation = generation; reuse_guard = reuse_guard })

  -- `Get`, and then `Erase` of what it returned: the bytes are read after both.
  unfoldable pub take_message_keys : KeyUse → SenderData → Store → Outcome ((Bytes × Bytes) × Store)
  take_message_keys u d (s, m) = do
    c ← group_get w.primitives (source_of u s) d.sender d.generation m
    (g, m') ← group_erase w.primitives c.source d.sender d.generation c.memory
    ok (key_bytes c.result m', (put_source u g s, m'))

  unfoldable pub read_message : Bytes → Outcome (Content × Bytes)
  read_message data' = do
    (content, position) ← unmarshal_content w.wire.content data'
    (signature, _) ← read_at w.protection_wire.signature data' position
    ok (content, signature)

  unfoldable pub open_message :
      MlsCiphertext → SenderData → (Bytes × Bytes) → State → Outcome MlsPlaintext
  open_message ct d (key, key_nonce) s = do
    let aad = or_nil (
        w.protection_wire.content_aad ct.group_id ct.epoch ct.content_type ct.authenticated_data
          ct.sender_data_nonce ct.encrypted_sender_data)
    aead ← aead_unchecked w.ciphers s.cipher_suite key
    guarded ← apply_guard key_nonce d.reuse_guard
    data' ← aead.unseal guarded ct.ciphertext aad
    (content, signature) ← read_message data'
    ok (record {
      group_id = s.group_id;
      epoch = s.epoch;
      sender = record { type = sender_type_member; sender = d.sender };
      authenticated_data = ct.authenticated_data;
      content = content;
      signature = signature;
    })

  unfoldable pub decrypt : MlsCiphertext → Store → Outcome MlsPlaintext × Store
  decrypt ct st =
      and_then (open_sender_data ct st.0, st)
        (λ d st0.
          and_then (key_use ct.content_type, st0)
            (λ u st1.
              and_then (and_store (take_message_keys u d st1) st1)
                (λ keys st2. (open_message ct d keys st2.0, st2))))

  unfoldable pub unwrap : MlsPlaintext → Bytes → GroupContext → State → Outcome Bytes
  unwrap pt pub_key ctx s = do
    good ← plaintext_verify w.wire w.services ctx pub_key s.scheme pt
    _ ← guard good bad_signature
    t ← content_type pt.content
    _ ← guard (t == content_type_application) wrong_content
    application_of pt.content

  unfoldable pub verify_message : MlsPlaintext → State → Outcome Bytes × State
  verify_message pt s =
      and_then (signer_public_key w pt.sender s, s)
        (λ pub_key s0. and_then (group_context w s0) (λ ctx s1. (unwrap pt pub_key ctx s1, s1)))

  unfoldable pub unprotect : MlsCiphertext → Store → Outcome Bytes × Store
  unprotect ct st = and_then (decrypt ct st) (λ pt st'. beside (verify_message pt st'.0) st'.1)
