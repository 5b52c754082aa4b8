-- ===== src/KeySchedule/Source.antt =====
-- The base key sources and the group key source, which holds a ratchet for each sender.
pub mod Once
use go_mls.Base.{
  ℕ, zero, suc, ◌+◌, ◌≡◌, if◌then◌else◌, true, false, Option, none, some, List, [], ◌∷◌, Bytes,
  get_elem?, Outcome, ok, err, panic, ◌>>=◌, no_base_key, malformed_path, index_out_of_range,
  lookup, insert, delete,
}
use go_mls.TreeMath.{to_node_index, root, left, right, dirpath}
use go_mls.Crypto.{Primitives, constants, derive_app_secret}
use go_mls.KeySchedule.Memory.{Memory, alloc, zeroize, dup}
use go_mls.KeySchedule.Ratchet.{HashRatchet, KeyAndNonce, Step, new_hash_ratchet, next, get, erase}

pub record NoFsBaseKeySource : Type 0 where
  pub cipher_suite : ℕ
  pub root_secret : ℕ

-- `secrets` holds addresses of slices.
pub record TreeBaseKeySource : Type 0 where
  pub cipher_suite : ℕ
  pub secret_size : ℕ
  pub root_node : ℕ
  pub size : ℕ
  pub secrets : List (ℕ × ℕ)

-- The interface `baseKeySource` has these two implementations.
pub data BaseKeySource : Type 0 where
  no_fs : NoFsBaseKeySource → BaseKeySource
  tree : TreeBaseKeySource → BaseKeySource

unfoldable pub suite_of : BaseKeySource → ℕ
suite_of (no_fs s) = s.cipher_suite
suite_of (tree s) = s.cipher_suite

-- The slice `rootSecret` is kept, not copied.
unfoldable pub new_tree_base_key_source : ℕ → ℕ → ℕ → Outcome TreeBaseKeySource
new_tree_base_key_source suite size root_secret = do
  c ← constants suite
  ok (record {
    cipher_suite = suite;
    secret_size = c.secret_size;
    root_node = root size;
    size = size;
    secrets = insert (root size) root_secret [];
  })

-- The first node of the path that has a secret, as an index.
unfoldable pub first_populated : List (ℕ × ℕ) → List ℕ → Option ℕ
first_populated secrets [] = none
first_populated secrets (node ∷ d) = elim (lookup node secrets) [
  | some a ↦ some 0
  | none ↦ elim (first_populated secrets d) [ none ↦ none | some i ↦ some (suc i) ]
]

-- A direct path or a child that the loops of tree-math.go do not reach has no value to go on with.
unfoldable pub or_stuck {ℓ} : {A : Type ℓ} → Option A → Outcome A
or_stuck none = panic malformed_path
or_stuck (some a) = ok a

-- `d[i]`
unfoldable pub index : List ℕ → ℕ → Outcome ℕ
index d i = elim (get_elem? d i) [ none ↦ panic index_out_of_range | some x ↦ ok x ]

-- The bytes under a key of the map; a missing key reads as the nil slice.
unfoldable pub secret_bytes : List (ℕ × ℕ) → ℕ → Memory → Bytes
secret_bytes secrets node m = elim (lookup node secrets) [ none ↦ [] | some a ↦ m.cells a ]

-- `zeroize(Secrets[node]); delete(Secrets, node)`
unfoldable pub forget : ℕ → List (ℕ × ℕ) → Memory → List (ℕ × ℕ) × Memory
forget node secrets m = elim (lookup node secrets) [
  | none ↦ (secrets, m)
  | some a ↦ (delete node secrets, zeroize a m)
]

module _ (p : Primitives) where
  unfoldable pub no_fs_get : NoFsBaseKeySource → ℕ → Memory → Outcome (ℕ × Memory)
  no_fs_get s sender m = do
    c ← constants s.cipher_suite
    b ←
        derive_app_secret p s.cipher_suite (m.cells s.root_secret) "hs-secret"
          (to_node_index sender) 0 c.secret_size
    ok (m.used, alloc b m)

  -- One round of the loop that derives down: the secrets of both children, and none of the node.
  unfoldable pub split :
      TreeBaseKeySource → ℕ → List (ℕ × ℕ) → Memory → Outcome (List (ℕ × ℕ) × Memory)
  split s node secrets m = do
    let l = left node
    r ← or_stuck (right node s.size)
    let secret = secret_bytes secrets node m
    bl ← derive_app_secret p s.cipher_suite secret "tree" l 0 s.secret_size
    br ← derive_app_secret p s.cipher_suite secret "tree" r 0 s.secret_size
    let m' = alloc br (alloc bl m)
    ok (forget node (insert r (suc m.used) (insert l m.used secrets)) m')

  -- `for ; curr > 0; curr -= 1`
  unfoldable pub derive_down :
      TreeBaseKeySource → List ℕ → ℕ → List (ℕ × ℕ) → Memory → Outcome (List (ℕ × ℕ) × Memory)
  derive_down s d zero secrets m = ok (secrets, m)
  derive_down s d (suc curr) secrets m = do
    node ← index d (suc curr)
    (secrets', m') ← split s node secrets m
    derive_down s d curr secrets' m'

  -- `out := dup(Secrets[leaf])`, and then the leaf's own secret is forgotten.
  unfoldable pub hand_out :
      TreeBaseKeySource → ℕ → List (ℕ × ℕ) → Memory → ℕ × TreeBaseKeySource × Memory
  hand_out s leaf secrets m =
      let out = alloc (secret_bytes secrets leaf m) m in
      let (secrets', m') = forget leaf secrets out in (m.used, record s { secrets = secrets' }, m')

  -- What follows the search for a populated ancestor.
  unfoldable pub get_below :
      TreeBaseKeySource → ℕ → List ℕ → Memory → Option ℕ → Outcome (ℕ × TreeBaseKeySource × Memory)
  get_below s leaf d m none = panic no_base_key
  get_below s leaf d m (some curr) = do
    (secrets, m') ← derive_down s d curr s.secrets m
    ok (hand_out s leaf secrets m')

  unfoldable pub tree_get :
      TreeBaseKeySource → ℕ → Memory → Outcome (ℕ × TreeBaseKeySource × Memory)
  tree_get s sender m = do
    let leaf = to_node_index sender
    d ← or_stuck (dirpath leaf s.size)
    get_below s leaf (leaf ∷ d) m (first_populated s.secrets (leaf ∷ d))

  unfoldable pub base_get : BaseKeySource → ℕ → Memory → Outcome (ℕ × BaseKeySource × Memory)
  base_get (no_fs s) sender m = do (a, m') ← no_fs_get s sender m; ok (a, no_fs s, m')
  base_get (tree s) sender m = do (a, s', m') ← tree_get s sender m; ok (a, tree s', m')

pub record GroupKeySource : Type 0 where
  pub base : BaseKeySource
  pub ratchets : List (ℕ × HashRatchet)

-- The state that a call leaves, with its result.
pub record Call (A : Type 0) : Type 0 where
  pub result : A
  pub source : GroupKeySource
  pub memory : Memory

unfoldable pub keep : {A : Type 0} → GroupKeySource → ℕ → Step A → Call A
keep g sender s = record {
  result = s.result;
  source = record g { ratchets = insert sender s.ratchet g.ratchets };
  memory = s.memory;
}

module _ (p : Primitives) where
  -- A sender without a ratchet gets one on its base key.
  unfoldable pub add_ratchet : GroupKeySource → ℕ → Memory → Outcome (Call HashRatchet)
  add_ratchet g sender m = do
    (base_secret, base, m') ← base_get p g.base sender m
    r ← new_hash_ratchet (suite_of g.base) (to_node_index sender) base_secret
    ok (record {
      result = r;
      source = record { base = base; ratchets = insert sender r g.ratchets };
      memory = m';
    })

  unfoldable pub ratchet : GroupKeySource → ℕ → Memory → Outcome (Call HashRatchet)
  ratchet g sender m = elim (lookup sender g.ratchets) [
    | some r ↦ ok (record { result = r; source = g; memory = m })
    | none ↦ add_ratchet g sender m
  ]

  unfoldable pub group_next : GroupKeySource → ℕ → Memory → Outcome (Call (ℕ × KeyAndNonce))
  group_next g sender m = do
    c ← ratchet g sender m
    s ← next p c.result c.memory
    ok (keep c.source sender s)

  unfoldable pub group_get : GroupKeySource → ℕ → ℕ → Memory → Outcome (Call KeyAndNonce)
  group_get g sender generation m = do
    c ← ratchet g sender m
    s ← get p c.result generation c.memory
    ok (keep c.source sender s)

  unfoldable pub group_erase : GroupKeySource → ℕ → ℕ → Memory → Outcome (GroupKeySource × Memory)
  group_erase g sender generation m = do
    c ← ratchet g sender m
    let (r, m') = erase c.result generation c.memory
    ok (record c.source { ratchets = insert sender r c.source.ratchets }, m')
