-- ===== src/KeySchedule/Material.antt =====
-- What the key sources of an epoch give out: their secrets as bytes, in whatever memory they stand.
use go_mls.Base.{insert, ℕ, suc, ◌≡◌, refl, ap, ◌∙◌, arith, List, [], ◌∷◌, map, Bytes, ok}
use go_mls.TreeMath.{root}
use go_mls.Crypto.{
  CipherConstants, Primitives, constants, hkdf_extract, hkdf_expand_label, derive_secret,
}
use go_mls.KeySchedule.Memory.{Memory, alloc}
use go_mls.KeySchedule.Source.{
  BaseKeySource, TreeBaseKeySource, new_tree_base_key_source, no_fs, tree,
}
use go_mls.KeySchedule.Epoch.{KeyScheduleEpoch, choose_psk}

-- A base key source with the secrets that its addresses hold.
pub data BaseSecrets : Type 0 where
  no_fs_secrets : ℕ → Bytes → BaseSecrets
  tree_secrets : ℕ → ℕ → ℕ → ℕ → List (ℕ × Bytes) → BaseSecrets

unfoldable pub base_secrets : BaseKeySource → Memory → BaseSecrets
base_secrets (no_fs s) m = no_fs_secrets s.cipher_suite (m.cells s.root_secret)
base_secrets (tree s) m =
    tree_secrets s.cipher_suite s.secret_size s.root_node s.size
      (map (λ e. (e.0, m.cells e.1)) s.secrets)

-- The handshake and application secrets, and the key sources with the senders that have a ratchet.
pub record Material : Type 0 where
  pub handshake_secret : Bytes
  pub application_secret : Bytes
  pub handshake_base : BaseSecrets
  pub application_base : BaseSecrets
  pub handshake_senders : List ℕ
  pub application_senders : List ℕ

unfoldable pub material : KeyScheduleEpoch → Memory → Material
material k m = record {
  handshake_secret = m.cells k.handshake_secret;
  application_secret = m.cells k.application_secret;
  handshake_base = base_secrets k.handshake_keys.base m;
  application_base = base_secrets k.application_keys.base m;
  handshake_senders = map (λ e. e.0) k.handshake_keys.ratchets;
  application_senders = map (λ e. e.0) k.application_keys.ratchets;
}

module _ (p : Primitives) (suite : ℕ) where
  -- The secret of the epoch is extracted from the initial secret of the one before, the pre-shared
  -- key and the secret of the commit.
  pub record Extracted (init psk_in commit_secret context epoch_secret : Bytes) : Type 0 where
    pub psk : Bytes
    pub early : Bytes
    pub pre : Bytes
    pub chosen : choose_psk p suite psk_in ≡ ok psk
    pub extracts_early : hkdf_extract p suite psk init ≡ ok early
    pub derives_pre : derive_secret p suite early "derived" context ≡ ok pre
    pub extracts_epoch : hkdf_extract p suite commit_secret pre ≡ ok epoch_secret

  -- Every secret of the epoch is derived from the epoch's under a label of its own, and the key
  -- sources start from two of them and have no ratchets.
  pub record Scheduled (n : ℕ) (context : Bytes) (k : KeyScheduleEpoch) (m : Memory) : Type 0 where
    pub same_suite : k.suite ≡ suite
    pub same_context : k.group_context ≡ context
    pub sizes : CipherConstants
    pub has_sizes : constants suite ≡ ok sizes
    pub sender_data :
        derive_secret p suite k.epoch_secret "sender data" context ≡ ok k.sender_data_secret
    pub handshake :
        derive_secret p suite k.epoch_secret "handshake" context ≡ ok (m.cells k.handshake_secret)
    pub application :
        derive_secret p suite k.epoch_secret "app" context ≡ ok (m.cells k.application_secret)
    pub exporter : derive_secret p suite k.epoch_secret "exporter" context ≡ ok k.exporter_secret
    pub confirmation :
        derive_secret p suite k.epoch_secret "confirm" context ≡ ok k.confirmation_key
    pub init : derive_secret p suite k.epoch_secret "init" context ≡ ok k.init_secret
    pub key :
        hkdf_expand_label p suite k.sender_data_secret "sd key" [] sizes.key_size
        ≡ ok k.sender_data_key
    pub handshake_source :
        k.handshake_keys.base
        ≡ no_fs (record { cipher_suite = suite; root_secret = k.handshake_secret })
    pub application_source :
        k.application_keys.base
        ≡ tree (record {
          cipher_suite = suite;
          secret_size = sizes.secret_size;
          root_node = root n;
          size = n;
          secrets = (root n, k.application_secret) ∷ [];
        })
    pub no_handshake_ratchets : k.handshake_keys.ratchets ≡ []
    pub no_application_ratchets : k.application_keys.ratchets ≡ []

-- The tree source that the application secrets start from.
abbrev pub started : ℕ → ℕ → ℕ → CipherConstants → TreeBaseKeySource
started suite n a c = record {
  cipher_suite = suite;
  secret_size = c.secret_size;
  root_node = root n;
  size = n;
  secrets = (root n, a) ∷ [];
}

pub new_tree_base_key_source-started :
    (suite n a : ℕ) (c : CipherConstants)
    → constants suite ≡ ok c
    → new_tree_base_key_source suite n a ≡ ok (started suite n a c)
unfolding new_tree_base_key_source insert
new_tree_base_key_source-started suite n a c e = rw e refl

-- The epoch that is made of its secrets.
abbrev pub made :
    ℕ
    → ℕ
    → Bytes
    → Bytes
    → Bytes
    → Bytes
    → Bytes
    → Bytes
    → Bytes
    → Bytes
    → Bytes
    → CipherConstants
    → Memory
    → KeyScheduleEpoch × Memory
made suite n sd hs app ex conf init key secret context c m = (
  record {
    suite = suite;
    group_context = context;
    epoch_secret = secret;
    sender_data_secret = sd;
    sender_data_key = key;
    handshake_secret = m.used;
    application_secret = suc m.used;
    exporter_secret = ex;
    confirmation_key = conf;
    init_secret = init;
    handshake_keys = record {
      base = no_fs (record { cipher_suite = suite; root_secret = m.used });
      ratchets = [];
    };
    application_keys = record { base = tree (started suite n (suc m.used) c); ratchets = [] };
  },
  alloc app (alloc hs m),
)

-- The two slices that `newKeyScheduleEpoch` makes.
pub first_cell : (hs app : Bytes) (m : Memory) → (alloc app (alloc hs m)).cells m.used ≡ hs
first_cell hs app m = ground arith

pub second_cell : (hs app : Bytes) (m : Memory) → (alloc app (alloc hs m)).cells (suc m.used) ≡ app
second_cell hs app m = ground arith

-- The material of a new epoch does not depend on where its slices are.
pub material-made :
    (suite n : ℕ) (sd hs app ex conf init key secret context : Bytes) (c : CipherConstants)
    (m : Memory)
    → let r = made suite n sd hs app ex conf init key secret context c m in
      material r.0 r.1 ≡ record {
        handshake_secret = hs;
        application_secret = app;
        handshake_base = no_fs_secrets suite hs;
        application_base = tree_secrets suite c.secret_size (root n) n ((root n, app) ∷ []);
        handshake_senders = [];
        application_senders = [];
      }
unfolding material base_secrets
material-made suite n sd hs app ex conf init key secret context c m =
    let shape : Bytes → Bytes → Material = λ x y. record {
      handshake_secret = x;
      application_secret = y;
      handshake_base = no_fs_secrets suite x;
      application_base = tree_secrets suite c.secret_size (root n) n ((root n, y) ∷ []);
      handshake_senders = [];
      application_senders = [];
    } in
    ap (λ x. shape x ((alloc app (alloc hs m)).cells (suc m.used))) (first_cell hs app m)
    ∙ ap (shape hs) (second_cell hs app m)
