-- ===== src/KeySchedule/Epoch.antt =====
-- The secrets of an epoch, and the step to the next epoch.
use go_mls.Base.{ℕ, suc, ◌==◌, if◌then◌else◌, [], Bytes, length, Outcome, ok, ◌>>=◌}
use Prim.Native.String.{String}
use go_mls.Crypto.{
  Primitives, constants, digest, zero_bytes, hkdf_extract, hkdf_expand_label, derive_secret,
}
use go_mls.KeySchedule.Memory.{Memory, alloc}
use go_mls.KeySchedule.Source.{GroupKeySource, new_tree_base_key_source, no_fs, tree}

-- The handshake and application secrets are addresses, since the key sources share their slices.
pub record KeyScheduleEpoch : Type 0 where
  pub suite : ℕ
  pub group_context : Bytes
  pub epoch_secret : Bytes
  pub sender_data_secret : Bytes
  pub sender_data_key : Bytes
  pub handshake_secret : ℕ
  pub application_secret : ℕ
  pub exporter_secret : Bytes
  pub confirmation_key : Bytes
  pub init_secret : Bytes
  pub handshake_keys : GroupKeySource
  pub application_keys : GroupKeySource

-- `groupInfoKeyAndNonce`: the key and the nonce.
module _ (p : Primitives) where
  unfoldable pub group_info_key_and_nonce : ℕ → Bytes → Outcome (Bytes × Bytes)
  group_info_key_and_nonce suite epoch_secret = do
    c ← constants suite
    s ← hkdf_expand_label p suite epoch_secret "group info" [] c.secret_size
    key ← hkdf_expand_label p suite s "key" [] c.key_size
    nonce ← hkdf_expand_label p suite s "nonce" [] c.nonce_size
    ok (key, nonce)

  unfoldable pub new_key_schedule_epoch :
      ℕ → ℕ → Bytes → Bytes → Memory → Outcome (KeyScheduleEpoch × Memory)
  new_key_schedule_epoch suite size epoch_secret context m = do
    sender_data ← derive_secret p suite epoch_secret "sender data" context
    handshake ← derive_secret p suite epoch_secret "handshake" context
    application ← derive_secret p suite epoch_secret "app" context
    exporter ← derive_secret p suite epoch_secret "exporter" context
    confirmation ← derive_secret p suite epoch_secret "confirm" context
    init ← derive_secret p suite epoch_secret "init" context
    c ← constants suite
    key ← hkdf_expand_label p suite sender_data "sd key" [] c.key_size
    base ← new_tree_base_key_source suite size (suc m.used)
    ok (
      record {
        suite = suite;
        group_context = context;
        epoch_secret = epoch_secret;
        sender_data_secret = sender_data;
        sender_data_key = key;
        handshake_secret = m.used;
        application_secret = suc m.used;
        exporter_secret = exporter;
        confirmation_key = confirmation;
        init_secret = init;
        handshake_keys = record {
          base = no_fs (record { cipher_suite = suite; root_secret = m.used });
          ratchets = [];
        };
        application_keys = record { base = tree base; ratchets = [] };
      },
      alloc application (alloc handshake m),
    )

  unfoldable pub choose_psk : ℕ → Bytes → Outcome Bytes
  choose_psk suite psk_in = if length psk_in == 0 then zero_bytes suite else ok psk_in

  -- The part of `Next` that finds the secret of the next epoch.
  unfoldable pub next_epoch_secret : ℕ → Bytes → Bytes → Bytes → Bytes → Outcome Bytes
  next_epoch_secret suite init_secret psk_in commit_secret context = do
    psk ← choose_psk suite psk_in
    early ← hkdf_extract p suite psk init_secret
    pre ← derive_secret p suite early "derived" context
    hkdf_extract p suite commit_secret pre

  unfoldable pub next_epoch :
      KeyScheduleEpoch → ℕ → Bytes → Bytes → Bytes → Memory → Outcome (KeyScheduleEpoch × Memory)
  next_epoch kse size psk_in commit_secret context m = do
    epoch_secret ← next_epoch_secret kse.suite kse.init_secret psk_in commit_secret context
    new_key_schedule_epoch kse.suite size epoch_secret context m

  unfoldable pub export : KeyScheduleEpoch → String → Bytes → ℕ → Outcome Bytes
  export kse label context key_length = do
    base ← derive_secret p kse.suite kse.exporter_secret label kse.group_context
    hctx ← digest p kse.suite context
    hkdf_expand_label p kse.suite base "exporter" hctx key_length
