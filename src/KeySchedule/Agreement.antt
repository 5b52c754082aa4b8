-- ===== src/KeySchedule/Agreement.antt =====
-- Two members who go to the next epoch each in a memory of their own.
use go_mls.Base.{
  ℕ, suc, ◌≡◌, refl, sym, ap, subst, ◌∙◌, [], Bytes, Outcome, ok, ◌>>=◌, >>=-eq-ok, ok_injective,
}
use mathlib.Core.Path.{fun_ext}
use go_mls.Crypto.{
  CipherConstants, Primitives, constants, hkdf_extract, hkdf_expand_label, derive_secret,
}
use go_mls.KeySchedule.Memory.{Memory}
use go_mls.KeySchedule.Material.{
  material, material-made, made, Extracted, Scheduled, first_cell, second_cell,
  new_tree_base_key_source-started,
}
use go_mls.KeySchedule.Epoch.{
  KeyScheduleEpoch, new_key_schedule_epoch, choose_psk, next_epoch_secret, next_epoch,
}

-- The secrets of an epoch that are no addresses.
pub record Secrets : Type 0 where
  pub suite : ℕ
  pub group_context : Bytes
  pub epoch_secret : Bytes
  pub sender_data_secret : Bytes
  pub sender_data_key : Bytes
  pub exporter_secret : Bytes
  pub confirmation_key : Bytes
  pub init_secret : Bytes

unfoldable pub secrets : KeyScheduleEpoch → Secrets
secrets k = record {
  suite = k.suite;
  group_context = k.group_context;
  epoch_secret = k.epoch_secret;
  sender_data_secret = k.sender_data_secret;
  sender_data_key = k.sender_data_key;
  exporter_secret = k.exporter_secret;
  confirmation_key = k.confirmation_key;
  init_secret = k.init_secret;
}

module _ (p : Primitives) where
  new_key_schedule_epoch_by :
      (suite n : ℕ) (secret context : Bytes) (m : Memory) (sd hs app ex conf init key : Bytes)
      (c : CipherConstants)
      → derive_secret p suite secret "sender data" context ≡ ok sd
      → derive_secret p suite secret "handshake" context ≡ ok hs
      → derive_secret p suite secret "app" context ≡ ok app
      → derive_secret p suite secret "exporter" context ≡ ok ex
      → derive_secret p suite secret "confirm" context ≡ ok conf
      → derive_secret p suite secret "init" context ≡ ok init
      → constants suite ≡ ok c
      → hkdf_expand_label p suite sd "sd key" [] c.key_size ≡ ok key
      → new_key_schedule_epoch p suite n secret context m
        ≡ ok (made suite n sd hs app ex conf init key secret context c m)
  unfolding new_key_schedule_epoch
  new_key_schedule_epoch_by suite n secret context m sd hs app ex conf init key c f1 f2 f3 f4 f5 f6
        f7 f8 =
      rw
        (f1, f2, f3, f4, f5, f6, f7, f8, new_tree_base_key_source-started suite n (suc m.used) c f7)
        refl

  -- What an epoch is made of, and that it is made of the same elsewhere.
  new_key_schedule_epoch_elsewhere :
      (suite n : ℕ) (secret context : Bytes) (m m' : Memory) (r : KeyScheduleEpoch × Memory)
      → new_key_schedule_epoch p suite n secret context m ≡ ok r
      → (r' : KeyScheduleEpoch × Memory) × (new_key_schedule_epoch p suite n secret context m'
          ≡ ok r')
        × (secrets r'.0 ≡ secrets r.0)
        × (material r'.0 r'.1 ≡ material r.0 r.1)
        × Scheduled p suite n context r'.0 r'.1
        × (r'.0.epoch_secret ≡ secret)
  unfolding new_key_schedule_epoch secrets
  new_key_schedule_epoch_elsewhere suite n secret context m m' r e =
      let (sd, f1, e1) = >>=-eq-ok (derive_secret p suite secret "sender data" context) _ e in
      let (hs, f2, e2) = >>=-eq-ok (derive_secret p suite secret "handshake" context) _ e1 in
      let (app, f3, e3) = >>=-eq-ok (derive_secret p suite secret "app" context) _ e2 in
      let (ex, f4, e4) = >>=-eq-ok (derive_secret p suite secret "exporter" context) _ e3 in
      let (conf, f5, e5) = >>=-eq-ok (derive_secret p suite secret "confirm" context) _ e4 in
      let (init, f6, e6) = >>=-eq-ok (derive_secret p suite secret "init" context) _ e5 in
      let (c, f7, e7) = >>=-eq-ok (constants suite) _ e6 in
      let (key, f8, _) = >>=-eq-ok (hkdf_expand_label p suite sd "sd key" [] c.key_size) _ e7 in
      let here = made suite n sd hs app ex conf init key secret context c m in
      let there = made suite n sd hs app ex conf init key secret context c m' in
      let at_m : here ≡ r = ok_injective (
        sym (
          new_key_schedule_epoch_by suite n secret context m sd hs app ex conf init key c f1 f2 f3
            f4 f5 f6 f7 f8)
        ∙ e) in
      (
        there,
        new_key_schedule_epoch_by suite n secret context m' sd hs app ex conf init key c f1 f2 f3 f4
            f5 f6 f7 f8,
        ap (λ q. secrets q.0) at_m,
        material-made suite n sd hs app ex conf init key secret context c m'
            ∙ sym (material-made suite n sd hs app ex conf init key secret context c m)
            ∙ ap (λ q. material q.0 q.1) at_m,
        record {
          same_suite = refl;
          same_context = refl;
          sizes = c;
          has_sizes = f7;
          sender_data = f1;
          handshake = f2 ∙ ap ok (sym (first_cell hs app m'));
          application = f3 ∙ ap ok (sym (second_cell hs app m'));
          exporter = f4;
          confirmation = f5;
          init = f6;
          key = f8;
          handshake_source = refl;
          application_source = refl;
          no_handshake_ratchets = refl;
          no_application_ratchets = refl;
        },
        refl,
      )

  -- Two secrets of a commit that the extraction does not tell apart.
  abbrev pub SameCommitSecret : ℕ → Bytes → Bytes → Type 0
  SameCommitSecret suite a b = (x : Bytes) → hkdf_extract p suite a x ≡ hkdf_extract p suite b x

  next_epoch_secret_same :
      (suite : ℕ) (init psk a b context : Bytes)
      → SameCommitSecret suite a b
      → next_epoch_secret p suite init psk a context ≡ next_epoch_secret p suite init psk b context
  unfolding next_epoch_secret
  next_epoch_secret_same suite init psk a b context same =
      let last : (Bytes → Outcome Bytes) → Outcome Bytes = λ f. choose_psk p suite psk >>= (λ k.
        hkdf_extract p suite k init
        >>= (λ early. derive_secret p suite early "derived" context >>= f)) in
      ap last (fun_ext same)

  next_epoch_secret-Extracted :
      (suite : ℕ) (init psk commit_secret context secret : Bytes)
      → next_epoch_secret p suite init psk commit_secret context ≡ ok secret
      → Extracted p suite init psk commit_secret context secret
  unfolding next_epoch_secret
  next_epoch_secret-Extracted suite init psk commit_secret context secret e =
      let (k, f1, e1) = >>=-eq-ok (choose_psk p suite psk) _ e in
      let (early, f2, e2) = >>=-eq-ok (hkdf_extract p suite k init) _ e1 in
      let (pre, f3, e3) = >>=-eq-ok (derive_secret p suite early "derived" context) _ e2 in
      record {
        psk = k;
        early = early;
        pre = pre;
        chosen = f1;
        extracts_early = f2;
        derives_pre = f3;
        extracts_epoch = e3;
      }

  -- Two members whose epochs have the same suite and the same initial secret, who go on with the same
  -- tree size and context and with secrets of the commit that the extraction does not tell apart,
  -- each in a memory of its own: where `Next` returns for one, it returns for the other, with the same
  -- secrets and with key sources that hold the same bytes. The epoch's secret is extracted from the
  -- initial secret, the pre-shared key and the secret of the commit; the sender data, handshake,
  -- application, exporter, confirmation and initial secrets are derived from it, each under its own
  -- label; the key sources start from the handshake and the application secret.
  pub next_epoch_agree :
      (a b : KeyScheduleEpoch) (n : ℕ) (psk sa sb context : Bytes) (m m' : Memory)
      (r : KeyScheduleEpoch × Memory)
      → a.suite ≡ b.suite
      → a.init_secret ≡ b.init_secret
      → SameCommitSecret a.suite sa sb
      → next_epoch p a n psk sa context m ≡ ok r
      → (r' : KeyScheduleEpoch × Memory) × (next_epoch p b n psk sb context m' ≡ ok r')
        × (secrets r'.0 ≡ secrets r.0)
        × (material r'.0 r'.1 ≡ material r.0 r.1)
        × Extracted p b.suite b.init_secret psk sb context r'.0.epoch_secret
        × Scheduled p b.suite n context r'.0 r'.1
  unfolding next_epoch
  next_epoch_agree a b n psk sa sb context m m' r es ei same e =
      let (secret, f, g) =
        >>=-eq-ok (next_epoch_secret p a.suite a.init_secret psk sa context) _ e in
      let (r', run, eq, holds, scheduled, at) =
        new_key_schedule_epoch_elsewhere a.suite n secret context m m' r g in
      let f' = sym (next_epoch_secret_same a.suite a.init_secret psk sa sb context same) ∙ f in
      let from = next_epoch_secret-Extracted b.suite b.init_secret psk sb context secret (
        ap (λ s. next_epoch_secret p s b.init_secret psk sb context) (sym es)
        ∙ ap (λ i. next_epoch_secret p a.suite i psk sb context) (sym ei)
        ∙ f') in
      (
        r',
        rw (← es, ← ei, f') run,
        eq,
        holds,
        subst (Extracted p b.suite b.init_secret psk sb context) (sym at) from,
        subst (λ s. Scheduled p s n context r'.0 r'.1) es scheduled,
      )
