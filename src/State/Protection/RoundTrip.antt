-- ===== src/State/Protection/RoundTrip.antt =====
-- What `encrypt` makes of a message, `decrypt` of another member opens.
use go_mls.Base.{
  ℕ, ◌≡◌, refl, sym, ap, subst, ◌∙◌, Bytes, Outcome, ok, >>=-eq-ok, ok_injective, and_then,
}
use go_mls.Messages.Content.{content_type}
use go_mls.Messages.Content.RoundTrip.{Legible}
use go_mls.Messages.Plaintext.{MlsPlaintext, MlsCiphertext}
use go_mls.KeySchedule.Memory.{Memory}
use go_mls.KeySchedule.Source.{GroupKeySource, group_next, group_get, group_erase}
use go_mls.State.{World, State}
use go_mls.State.Protection.{
  for_application, for_handshake, source_of, KeyUse, key_use, put_source, Store, SenderData,
  and_store,
}
use go_mls.State.Protection.Sending.{draw_keys, seal_message, encrypt}
use go_mls.State.Protection.Receiving.{open_sender_data, take_message_keys, open_message, decrypt}
use go_mls.State.Protection.Opened.{Readable, Together, delivered, open-seal_message}

module _ (w : World) where
  sent_source-Together :
      (u : KeyUse) (g : GroupKeySource) (a b : State)
      → Together w a b
      → Together w (put_source u g a) b
  unfolding put_source
  sent_source-Together for_application g a b e = record {
    suite = e.suite;
    group = e.group;
    epoch = e.epoch;
    key = e.key;
  }
  sent_source-Together for_handshake g a b e = record {
    suite = e.suite;
    group = e.group;
    epoch = e.epoch;
    key = e.key;
  }

  received_source-Together :
      (u : KeyUse) (g : GroupKeySource) (a b : State)
      → Together w a b
      → Together w a (put_source u g b)
  unfolding put_source
  received_source-Together for_application g a b e = record {
    suite = e.suite;
    group = e.group;
    epoch = e.epoch;
    key = e.key;
  }
  received_source-Together for_handshake g a b e = record {
    suite = e.suite;
    group = e.group;
    epoch = e.epoch;
    key = e.key;
  }

  put_source-delivered :
      (u : KeyUse) (g g' : GroupKeySource) (a b : State) (pt : MlsPlaintext)
      → delivered (put_source u g a) (put_source u g' b) pt ≡ delivered a b pt
  unfolding put_source delivered
  put_source-delivered for_application g g' a b pt = refl
  put_source-delivered for_handshake g g' a b pt = refl

  put_source-index :
      (u : KeyUse) (g : GroupKeySource) (a : State) → (put_source u g a).index ≡ a.index
  unfolding put_source
  put_source-index for_application g a = refl
  put_source-index for_handshake g a = refl

  drawn :
      (u : KeyUse) (st out : Store) (keys : ℕ × Bytes × Bytes)
      → draw_keys w u st ≡ ok (keys, out)
      → (g : GroupKeySource) × (out.0 ≡ put_source u g st.0)
  unfolding draw_keys
  drawn u st out keys e =
      let (c, f, e1) = >>=-eq-ok (group_next w.primitives (source_of u st.0) st.0.index st.1) _ e in
      (c.source, ap (λ q. q.1.0) (sym (ok_injective e1)))

  taken :
      (u : KeyUse) (d : SenderData) (st out : Store) (keys : Bytes × Bytes)
      → take_message_keys w u d st ≡ ok (keys, out)
      → (g : GroupKeySource) × (out.0 ≡ put_source u g st.0)
  unfolding take_message_keys
  taken u d st out keys e =
      let (c, f, e1) =
        >>=-eq-ok (group_get w.primitives (source_of u st.0) d.sender d.generation st.1) _ e in
      let (g, f2, e2) =
        >>=-eq-ok (group_erase w.primitives c.source d.sender d.generation c.memory) _ e1 in
      (g.0, ap (λ q. q.1.0) (sym (ok_injective e2)))

  encrypt_by :
      (pt : MlsPlaintext) (t : ℕ) (u : KeyUse) (reuse_guard nonce : Bytes)
      (keys : ℕ × Bytes × Bytes) (st sent : Store)
      → content_type pt.content ≡ ok t
      → key_use t ≡ ok u
      → draw_keys w u st ≡ ok (keys, sent)
      → encrypt w reuse_guard nonce pt st
        ≡ (seal_message w reuse_guard nonce pt t keys sent.0, sent)
  unfolding encrypt and_then and_store
  encrypt_by pt t u reuse_guard nonce keys st sent f g h = rw (f, g, h) refl

  decrypt_by :
      (ct : MlsCiphertext) (d : SenderData) (u : KeyUse) (keys : Bytes × Bytes)
      (st received : Store)
      → open_sender_data w ct st.0 ≡ ok d
      → key_use ct.content_type ≡ ok u
      → take_message_keys w u d st ≡ ok (keys, received)
      → decrypt w ct st ≡ (open_message w ct d keys received.0, received)
  unfolding decrypt and_then and_store
  decrypt_by ct d u keys st received f g h = rw (f, g, h) refl

  -- Where ciphers open what they sealed and tags, signatures and sender data are read back: a message
  -- with exactly one member, which is itself read back from what is written of it, that `encrypt`
  -- sealed, another member in the same epoch opens with `decrypt`, if it takes the keys that the
  -- sender drew. It gets the content, the authenticated data and the signature as they were, from the
  -- sender's leaf.
  pub decrypt-encrypt :
      (a b : State) (m m' : Memory) (pt : MlsPlaintext) (t generation : ℕ) (u : KeyUse)
      (reuse_guard nonce key key_nonce : Bytes) (sent received : Store) (ct : MlsCiphertext)
      → Readable w
      → Legible w.wire.content pt.content
      → Together w a b
      → content_type pt.content ≡ ok t
      → key_use t ≡ ok u
      → draw_keys w u (a, m) ≡ ok ((generation, key, key_nonce), sent)
      → take_message_keys w u
          (record { sender = a.index; generation = generation; reuse_guard = reuse_guard })
          (b, m')
        ≡ ok ((key, key_nonce), received)
      → encrypt w reuse_guard nonce pt (a, m) ≡ (ok ct, sent)
      → decrypt w ct (b, m') ≡ (ok (delivered a b pt), received)
  decrypt-encrypt a b m m' pt t generation u reuse_guard nonce key key_nonce sent received ct law
        one same et eu draws takes e =
      let d : SenderData = record {
        sender = a.index;
        generation = generation;
        reuse_guard = reuse_guard;
      } in
      let keys : ℕ × Bytes × Bytes = (generation, key, key_nonce) in
      let (g, at_a) = drawn u (a, m) sent keys draws in
      let (g', at_b) = taken u d (b, m') received (key, key_nonce) takes in
      let sealed : seal_message w reuse_guard nonce pt t keys sent.0 ≡ ok ct =
        ap (λ (q : Outcome MlsCiphertext × Store). q.0)
          (sym (encrypt_by pt t u reuse_guard nonce keys (a, m) sent et eu draws) ∙ e) in
      let index : sent.0.index ≡ a.index =
        ap (λ (s : State). s.index) at_a ∙ put_source-index u g a in
      let d' : SenderData = record {
        sender = sent.0.index;
        generation = generation;
        reuse_guard = reuse_guard;
      } in
      let same_data : d' ≡ d =
        ap (λ i. record { sender = i; generation = generation; reuse_guard = reuse_guard }) index in
      let before : Together w sent.0 b =
        subst (λ x. Together w x b) (sym at_a) (sent_source-Together u g a b same) in
      let after : Together w sent.0 received.0 =
        subst (Together w sent.0) (sym at_b) (received_source-Together u g' sent.0 b before) in
      let (opened, type, _) =
        open-seal_message w sent.0 b pt t generation reuse_guard nonce key key_nonce ct law one
          before sealed in
      let (_, _, got) =
        open-seal_message w sent.0 received.0 pt t generation reuse_guard nonce key key_nonce ct law
          one after sealed in
      let left : delivered sent.0 received.0 pt ≡ delivered a b pt =
        ap (λ x. delivered x received.0 pt) at_a
        ∙ ap (λ x. delivered (put_source u g a) x pt) at_b
        ∙ put_source-delivered u g g' a b pt in
      decrypt_by ct d u (key, key_nonce) (b, m') received (opened ∙ ap ok same_data)
        (ap key_use type ∙ eu) takes
      ∙ ap (λ o. (o, received))
          (ap (λ x. open_message w ct x (key, key_nonce) received.0) (sym same_data)
            ∙ got
            ∙ ap ok left)
