-- ===== src/State/Protection/Opened.antt =====
-- The parts of a message that was sealed, as a member in the same epoch opens them.
use mathlib.Core.List.{append-nil}
use go_mls.Base.{
  ==_refl, Option, none, err, panic, ℕ, ◌≡◌, refl, sym, ap, subst, ◌∙◌, some, [], ◌++◌, length,
  Bytes, ReadsBack, bytes_eq_refl, Outcome, ok, >>=-eq-ok, ok_injective,
}
use go_mls.KeyPackage.{or_error}
use go_mls.Crypto.{AeadFamily, new_aead}
use go_mls.Crypto.Aead.{
  Cipher, CipherLibrary, make_aead, aead_unchecked, errors_panic, or_aead_error,
}
use go_mls.Messages.{read_at}
use go_mls.Messages.RoundTrip.{read_behind}
use go_mls.Messages.Content.{sender_type_member, marshal_content}
use go_mls.Messages.Content.RoundTrip.{Legible, unmarshal-marshal_one}
use go_mls.Messages.Plaintext.{MlsPlaintext, MlsCiphertext, or_nil}
use go_mls.State.{World, State}
use go_mls.State.Protection.{apply_guard, SenderData, or_unreadable}
use go_mls.State.Protection.Sending.{seal_sender_data, write_message, seal_message}
use go_mls.State.Protection.Receiving.{open_sender_data, read_message, open_message}

-- A cipher opens what it sealed under the same key, nonce and additional data.
unfoldable pub Opens : CipherLibrary → Type 0
Opens lib =
    (family : AeadFamily) (key : Bytes) (c : Cipher) (nonce pt aad ct : Bytes)
    → lib family key ≡ some c
    → c.seal nonce pt aad ≡ ok ct
    → c.unseal nonce ct aad ≡ ok pt

-- What is read back around the content of a message, and that ciphers open what they sealed.
pub record Readable (w : World) : Type 0 where
  pub opens : Opens w.ciphers
  pub tag : ReadsBack w.wire.content.tag
  pub signature : ReadsBack w.protection_wire.signature
  pub sender_data :
      (sender generation : ℕ) (reuse_guard b : Bytes)
      → w.protection_wire.sender_data sender generation reuse_guard ≡ some b
      → w.protection_wire.read_sender_data b ≡ some (sender, generation, reuse_guard)

errors_panic-eq-ok : {A : Type 0} (o : Outcome A) {a : A} → errors_panic o ≡ ok a → o ≡ ok a
unfolding errors_panic
errors_panic-eq-ok (ok b) e = e
errors_panic-eq-ok (err why) e = cc
errors_panic-eq-ok (panic why) e = cc

or_aead_error-eq-ok : (o : Option Cipher) {c : Cipher} → or_aead_error o ≡ ok c → o ≡ some c
unfolding or_aead_error
or_aead_error-eq-ok none e = cc
or_aead_error-eq-ok (some d) e = ap some (ok_injective e)

or_error-eq-ok : (o : Option Bytes) {a : Bytes} → or_error o ≡ ok a → o ≡ some a
unfolding or_error
or_error-eq-ok none e = cc
or_error-eq-ok (some d) e = ap some (ok_injective e)

aead_unchecked-Opens :
    (lib : CipherLibrary) (cs : ℕ) (key : Bytes) (c : Cipher) (nonce pt aad ct : Bytes)
    → Opens lib
    → aead_unchecked lib cs key ≡ ok c
    → c.seal nonce pt aad ≡ ok ct
    → c.unseal nonce ct aad ≡ ok pt
unfolding aead_unchecked make_aead Opens
aead_unchecked-Opens lib cs key c nonce pt aad ct law e f =
    let (family, g, h) = >>=-eq-ok (new_aead cs) _ (errors_panic-eq-ok (make_aead lib cs key) e) in
    law family key c nonce pt aad ct (or_aead_error-eq-ok (lib family key) h) f

-- The message that `encrypt` makes of what it sealed.
abbrev carried : State → ℕ → Bytes → Bytes → Bytes → Bytes → MlsCiphertext
carried s t authenticated nonce sd ct = record {
  group_id = s.group_id;
  epoch = s.epoch;
  content_type = t;
  sender_data_nonce = nonce;
  encrypted_sender_data = sd;
  authenticated_data = authenticated;
  ciphertext = ct;
}

-- The message as the receiver has it: from the sender's leaf, in its own group and epoch.
unfoldable pub delivered : State → State → MlsPlaintext → MlsPlaintext
delivered a b pt = record pt {
  group_id = b.group_id;
  epoch = b.epoch;
  sender = record { type = sender_type_member; sender = a.index };
}

module _ (w : World) where
  -- What decrypting needs of the two states.
  pub record Together (a b : State) : Type 0 where
    pub suite : a.cipher_suite ≡ b.cipher_suite
    pub group : a.group_id ≡ b.group_id
    pub epoch : a.epoch ≡ b.epoch
    pub key : a.keys.sender_data_key ≡ b.keys.sender_data_key

  read-write_message :
      (pt : MlsPlaintext) (data' : Bytes)
      → Readable w
      → Legible w.wire.content pt.content
      → write_message w pt ≡ ok data'
      → read_message w data' ≡ ok (pt.content, pt.signature)
  unfolding write_message read_message
  read-write_message pt data' law one e =
      let (c, f, e1) = >>=-eq-ok (marshal_content w.wire.content pt.content) _ e in
      let (sig, g, e2) =
        >>=-eq-ok (or_error (w.protection_wire.signature.encode pt.signature)) _ e1 in
      let encoded = or_error-eq-ok _ g in
      let whole : c ++ sig ≡ data' = ok_injective e2 in
      let first = unmarshal-marshal_one w.wire.content pt.content c sig law.tag one f in
      let second =
        read_behind w.protection_wire.signature c sig [] pt.signature
          (law.signature pt.signature sig [] encoded) in
      subst (λ x. read_message w x ≡ ok (pt.content, pt.signature)) whole
        (rw
          (
            first,
            subst
                (λ x.
                  read_at w.protection_wire.signature x (length c)
                  ≡ ok (pt.signature, length (c ++ sig)))
                (append-nil (c ++ sig)) second,
          )
          refl)

  open-seal_sender_data :
      (a b : State) (t : ℕ) (d : SenderData) (auth nonce sd body : Bytes)
      → Readable w
      → Together a b
      → seal_sender_data w t d nonce a ≡ ok sd
      → open_sender_data w (carried a t auth nonce sd body) b ≡ ok d
  unfolding seal_sender_data open_sender_data or_unreadable
  open-seal_sender_data a b t d auth nonce sd body law same e =
      let (written, f, e1) =
        >>=-eq-ok (or_error (w.protection_wire.sender_data d.sender d.generation d.reuse_guard)) _
          e in
      let (aead, g, e2) =
        >>=-eq-ok (aead_unchecked w.ciphers a.cipher_suite a.keys.sender_data_key) _ e1 in
      let opened =
        aead_unchecked-Opens w.ciphers a.cipher_suite a.keys.sender_data_key aead nonce written
          (or_nil (w.protection_wire.sender_data_aad a.group_id a.epoch t nonce)) sd law.opens g
          e2 in
      let read = law.sender_data d.sender d.generation d.reuse_guard written (or_error-eq-ok _ f) in
      rw
        (
          same.group,
          bytes_eq_refl b.group_id,
          same.epoch,
          ==_refl b.epoch,
          ← same.suite,
          ← same.key,
          g,
          ← same.group,
          ← same.epoch,
          opened,
          read,
        )
        refl

  open_message_by :
      (a b : State) (pt : MlsPlaintext) (d : SenderData) (key key_nonce guarded content : Bytes)
      (aead : Cipher) (ct : MlsCiphertext)
      → d.sender ≡ a.index
      → ct.authenticated_data ≡ pt.authenticated_data
      → aead_unchecked w.ciphers b.cipher_suite key ≡ ok aead
      → apply_guard key_nonce d.reuse_guard ≡ ok guarded
      → aead.unseal guarded ct.ciphertext (
          or_nil (
            w.protection_wire.content_aad ct.group_id ct.epoch ct.content_type ct.authenticated_data
              ct.sender_data_nonce ct.encrypted_sender_data))
        ≡ ok content
      → read_message w content ≡ ok (pt.content, pt.signature)
      → open_message w ct d (key, key_nonce) b ≡ ok (delivered a b pt)
  unfolding open_message delivered
  open_message_by a b pt d key key_nonce guarded content aead ct es ea f g h k =
      rw (f, g, h, k, es, ea) refl

  pub open-seal_message :
      (a b : State) (pt : MlsPlaintext) (t generation : ℕ) (reuse_guard nonce key key_nonce : Bytes)
      (ct : MlsCiphertext)
      → Readable w
      → Legible w.wire.content pt.content
      → Together a b
      → seal_message w reuse_guard nonce pt t (generation, key, key_nonce) a ≡ ok ct
      → let d : SenderData = record {
        sender = a.index;
        generation = generation;
        reuse_guard = reuse_guard;
      } in
        (open_sender_data w ct b ≡ ok d)
        × (ct.content_type ≡ t)
        × (open_message w ct d (key, key_nonce) b ≡ ok (delivered a b pt))
  unfolding seal_message
  open-seal_message a b pt t generation reuse_guard nonce key key_nonce ct law one same e =
      let d : SenderData = record {
        sender = a.index;
        generation = generation;
        reuse_guard = reuse_guard;
      } in
      let (sd, f, e1) = >>=-eq-ok (seal_sender_data w t d nonce a) _ e in
      let (content, g, e2) = >>=-eq-ok (write_message w pt) _ e1 in
      let (aead, h, e3) = >>=-eq-ok (aead_unchecked w.ciphers a.cipher_suite key) _ e2 in
      let (guarded, k, e4) = >>=-eq-ok (apply_guard key_nonce reuse_guard) _ e3 in
      let (body, l, e5) = >>=-eq-ok (aead.seal guarded content _) _ e4 in
      let opened =
        aead_unchecked-Opens w.ciphers a.cipher_suite key aead guarded content
          (or_nil
            (w.protection_wire.content_aad a.group_id a.epoch t pt.authenticated_data nonce sd))
          body law.opens h l in
      let read = read-write_message pt content law one g in
      subst
        (λ x.
          (open_sender_data w x b ≡ ok d)
          × (x.content_type ≡ t)
          × (open_message w x d (key, key_nonce) b ≡ ok (delivered a b pt)))
        (ok_injective e5)
        (
          open-seal_sender_data a b t d pt.authenticated_data nonce sd body law same f,
          refl,
          open_message_by a b pt d key key_nonce guarded content aead
              (carried a t pt.authenticated_data nonce sd body) refl refl
              (ap (λ cs. aead_unchecked w.ciphers cs key) (sym same.suite) ∙ h) k opened read,
        )
