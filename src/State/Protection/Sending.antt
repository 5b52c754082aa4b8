-- ===== src/State/Protection/Sending.antt =====
-- `Protect` and `encrypt`.
use go_mls.Base.{ℕ, [], ◌++◌, Bytes, Outcome, ok, ◌>>=◌, and_then}
use go_mls.KeyPackage.{or_error}
use go_mls.Crypto.Aead.{aead_unchecked}
use go_mls.Messages.Content.{of_application, content_type, sender_type_member, marshal_content}
use go_mls.Messages.Plaintext.{MlsPlaintext, MlsCiphertext, or_nil, plaintext_sign}
use go_mls.KeySchedule.Source.{group_next}
use go_mls.State.{World, State, group_context}
use go_mls.State.Protection.{
  apply_guard, KeyUse, key_use, source_of, put_source, Store, key_bytes, SenderData, and_store,
  beside,
}

module _ (w : World) where
  -- The generation, and the keys as bytes.
  unfoldable pub draw_keys : KeyUse → Store → Outcome ((ℕ × Bytes × Bytes) × Store)
  draw_keys u (s, m) = do
    c ← group_next w.primitives (source_of u s) s.index m
    let (key, nonce) = key_bytes c.result.1 c.memory
    ok ((c.result.0, key, nonce), (put_source u c.source s, c.memory))

  unfoldable pub seal_sender_data : ℕ → SenderData → Bytes → State → Outcome Bytes
  seal_sender_data t d nonce s = do
    sender_data ← or_error (w.protection_wire.sender_data d.sender d.generation d.reuse_guard)
    aead ← aead_unchecked w.ciphers s.cipher_suite s.keys.sender_data_key
    aead.seal nonce sender_data
        (or_nil (w.protection_wire.sender_data_aad s.group_id s.epoch t nonce))

  unfoldable pub write_message : MlsPlaintext → Outcome Bytes
  write_message pt = do
    content ← marshal_content w.wire.content pt.content
    signature ← or_error (w.protection_wire.signature.encode pt.signature)
    ok (content ++ signature)

  -- What `encrypt` does with the keys of a generation; the guard and the nonce are random.
  unfoldable pub seal_message :
      Bytes → Bytes → MlsPlaintext → ℕ → (ℕ × Bytes × Bytes) → State → Outcome MlsCiphertext
  seal_message reuse_guard nonce pt t (generation, key, key_nonce) s = do
    sd ←
        seal_sender_data t
          (record { sender = s.index; generation = generation; reuse_guard = reuse_guard }) nonce s
    content ← write_message pt
    let aad =
        or_nil (w.protection_wire.content_aad s.group_id s.epoch t pt.authenticated_data nonce sd)
    aead ← aead_unchecked w.ciphers s.cipher_suite key
    guarded ← apply_guard key_nonce reuse_guard
    ct ← aead.seal guarded content aad
    ok (record {
      group_id = s.group_id;
      epoch = s.epoch;
      content_type = t;
      sender_data_nonce = nonce;
      encrypted_sender_data = sd;
      authenticated_data = pt.authenticated_data;
      ciphertext = ct;
    })

  unfoldable pub encrypt : Bytes → Bytes → MlsPlaintext → Store → Outcome MlsCiphertext × Store
  encrypt reuse_guard nonce pt st =
      and_then (content_type pt.content, st)
        (λ t st0.
          and_then (key_use t, st0)
            (λ u st1.
              and_then (and_store (draw_keys u st1) st1)
                (λ keys st2. (seal_message reuse_guard nonce pt t keys st2.0, st2))))

  unfoldable pub sign_application : Bytes → State → Outcome MlsPlaintext × State
  sign_application data' s = and_then (group_context w s) (λ ctx s'. (
    plaintext_sign w.wire w.services ctx s.identity_priv s.scheme (record {
      group_id = s.group_id;
      epoch = s.epoch;
      sender = record { type = sender_type_member; sender = s.index };
      authenticated_data = [];
      content = of_application data';
      signature = [];
    }),
    s',
  ))

  unfoldable pub protect : Bytes → Bytes → Bytes → Store → Outcome MlsCiphertext × Store
  protect reuse_guard nonce data' (s, m) =
      and_then (beside (sign_application data' s) m) (encrypt reuse_guard nonce)
