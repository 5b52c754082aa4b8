-- ===== src/Examples/Keys.antt =====
-- The ratchets and the base key sources at concrete inputs.
use go_mls.Base.{
  ℕ, suc, ◌%◌, ◌^◌, ◌≡◌, refl, arith, none, List, [], ◌∷◌, ◌++◌, Bytes, panic, u32, ascii, lookup,
  Outcome, ok, err, expired_key,
}
use mathlib.Core.Option
use Prim.Native.String.{String}
use go_mls.TreeMath.{
  to_node_index, left, right, level, level_loop, right_loop, node_width, parent, root, log2,
  log2_loop, parent_loop, parent_step, dirpath, dirpath_loop,
}
use go_mls.Crypto.{
  sha256, expand_loop, derive_app_secret, hkdf_expand_label, hkdf_expand, new_digest, or_panic,
  constants,
}
use go_mls.KeySchedule.Memory.{Memory}
use go_mls.KeySchedule.Ratchet.{
  HashRatchet, new_hash_ratchet, KeyAndNonce, Step, take_keys, erase, get,
}
use go_mls.KeySchedule.Ratchet.Advance.{Derives, chain}
use go_mls.KeySchedule.Ratchet.Fresh.{take_keys_fresh}
use go_mls.KeySchedule.Ratchet.Late.{take_keys_late, get-erase}
use go_mls.KeySchedule.Source.{
  TreeBaseKeySource, GroupKeySource, no_fs, add_ratchet, suite_of, base_get, no_fs_get, or_stuck,
  first_populated, get_below, derive_down, index, Call, split, tree_get, ratchet,
}
use go_mls.KeySchedule.Source.Once.{Splits, split-Splits, tree_get_forgets, ratchet_twice}
use go_mls.KeySchedule.Epoch.{KeyScheduleEpoch}
use go_mls.Examples.Suites.{primitives}

-- What the derivations of suite 1 return with these primitives.
abbrev pub derived : Bytes → String → ℕ → ℕ → ℕ → Bytes
derived s label node generation n =
    expand_loop primitives (suc n) sha256 s
      (n % 2 ^ 16 ∷ (ascii "mls10 " ++ ascii label) ++ node ∷ generation ∷ []) n [] 1 []

derived-Derives : Derives primitives 1 derived
unfolding derive_app_secret hkdf_expand_label hkdf_expand new_digest or_panic
derived-Derives s label node generation n = refl

abbrev pub memory : Memory
memory = record { cells = λ a. a ∷ 9 ∷ []; used = 4 }

abbrev hash_ratchet : HashRatchet
hash_ratchet = record {
  suite = 1;
  node = 2;
  next_secret = 0;
  next_generation = 3;
  cache = (1, record { key = 1; nonce = 2 }) ∷ [];
  key_size = 16;
  nonce_size = 12;
  secret_size = 32;
}

take_keys_fresh_example :
    (s : Step KeyAndNonce) × (take_keys primitives hash_ratchet 5 memory ≡ ok s)
    × (let b = chain derived 2 32 (0 ∷ 9 ∷ []) 3 2 in
        (s.memory.cells s.result.key ≡ derived b "app-key" 2 5 16)
        × (s.memory.cells s.result.nonce ≡ derived b "app-nonce" 2 5 12))
    × (s.ratchet.next_generation ≡ 6 % u32)
    × (lookup 5 s.ratchet.cache ≡ none)
unfolding lookup
take_keys_fresh_example =
    take_keys_fresh primitives 1 derived derived-Derives hash_ratchet 5 2 memory refl refl
      (omega arith) (omega arith) refl

take_keys_late_example :
    (s : Step KeyAndNonce) × (take_keys primitives hash_ratchet 1 memory ≡ ok s)
    × (s.memory.cells s.result.key ≡ 0 ∷ 0 ∷ [])
    × (s.memory.cells s.result.nonce ≡ 0 ∷ 0 ∷ [])
unfolding lookup
take_keys_late_example =
    take_keys_late primitives hash_ratchet 1 memory (record { key = 1; nonce = 2 }) refl
      (omega arith)

get-erase_example :
    let (hr', m') = erase hash_ratchet 1 memory in get primitives hr' 1 m' ≡ err expired_key
get-erase_example = get-erase primitives hash_ratchet 1 memory (omega arith)

-- A tree of three leaves with the secret of its root.
abbrev base_keys : TreeBaseKeySource
base_keys = record {
  cipher_suite = 1;
  secret_size = 32;
  root_node = 3;
  size = 3;
  secrets = (3, 0) ∷ [];
}

split-Splits_example :
    (after : List (ℕ × ℕ)) × (m' : Memory) × (split primitives base_keys 3 ((3, 0) ∷ []) memory
      ≡ ok (after, m'))
    × Splits
        ((3, 0) ∷ [])
        after
        memory
        m'
        3
        (left 3)
        4
        0
        (derived (0 ∷ 9 ∷ []) "tree" (left 3) 0 32)
        (derived (0 ∷ 9 ∷ []) "tree" 4 0 32)
unfolding lookup left right level level_loop right_loop node_width
split-Splits_example =
    split-Splits primitives base_keys derived 3 4 0 ((3, 0) ∷ []) memory derived-Derives refl
      (omega arith) (omega arith) refl (omega arith)

-- The value of a call that returns, or a default.
abbrev pub or_else : {A : Type 0} → A → Outcome A → A
or_else a (ok b) = b
or_else a (err e) = a
or_else a (panic e) = a

-- What the base key source gives leaf 2, whose parent is the root.
abbrev key_of_two : ℕ × TreeBaseKeySource × Memory
key_of_two = or_else (0, base_keys, memory) (tree_get primitives base_keys 2 memory)

tree_get_forgets_example : lookup (to_node_index 2) key_of_two.1.secrets ≡ none
unfolding tree_get or_stuck dirpath Option.bind parent root log2 node_width log2_loop parent_loop
    parent_step level dirpath_loop level_loop first_populated lookup get_below derive_down split
    index right right_loop derive_app_secret hkdf_expand_label hkdf_expand new_digest or_panic
    to_node_index left
tree_get_forgets_example =
    tree_get_forgets primitives base_keys key_of_two.1 2 key_of_two.0 memory key_of_two.2 refl

abbrev group_keys : GroupKeySource
group_keys = record { base = no_fs (record { cipher_suite = 1; root_secret = 0 }); ratchets = [] }

abbrev ratchet_of_one : Call HashRatchet
ratchet_of_one =
    or_else (record { result = hash_ratchet; source = group_keys; memory = memory })
      (ratchet primitives group_keys 1 memory)

ratchet_twice_example :
    ratchet primitives ratchet_of_one.source 1 memory
    ≡ ok
        (record { result = ratchet_of_one.result; source = ratchet_of_one.source; memory = memory })
unfolding ratchet lookup add_ratchet base_get no_fs_get new_hash_ratchet derive_app_secret
    hkdf_expand_label hkdf_expand new_digest or_panic constants suite_of
ratchet_twice_example = ratchet_twice primitives group_keys 1 memory memory ratchet_of_one refl

-- An epoch of which every secret is empty.
abbrev pub empty_epoch : KeyScheduleEpoch
empty_epoch = record {
  suite = 1;
  group_context = [];
  epoch_secret = [];
  sender_data_secret = [];
  sender_data_key = [];
  handshake_secret = 0;
  application_secret = 0;
  exporter_secret = [];
  confirmation_key = [];
  init_secret = [];
  handshake_keys = group_keys;
  application_keys = group_keys;
}
