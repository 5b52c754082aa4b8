-- ===== src/KeySchedule/Ratchet/Advance.antt =====
-- What `Next` and `Erase` of the ratchet leave, and the chain of secrets that they go down.
use go_mls.Base.{
  ℕ, zero, suc, ◌+◌, ◌%◌, ◌<◌, ◌≡◌, ◌≢◌, refl, arith, none, some, lookup, lookup-insert,
  lookup-delete, ok, Bytes, u32,
}
use Prim.Native.String.{String}
use go_mls.Crypto.{Primitives, derive_app_secret}
use go_mls.KeySchedule.Memory.{Memory, zeros}
use go_mls.KeySchedule.Ratchet.{HashRatchet, KeyAndNonce, Step, advance, erase}

-- What erasing a cached generation leaves alone, and what it does to the cache.
module _ (hr : HashRatchet) (generation : ℕ) (m : Memory) (kn : KeyAndNonce)
    (cached : lookup generation hr.cache ≡ some kn) where
  pub erase_cells :
      (a : ℕ) → kn.key < a → kn.nonce < a → (erase hr generation m).1.cells a ≡ m.cells a
  unfolding erase
  erase_cells a hk hn = ground arith

  pub erase_generation : (erase hr generation m).0.next_generation ≡ hr.next_generation
  unfolding erase
  erase_generation = ground arith

  pub erase_cache : lookup generation (erase hr generation m).0.cache ≡ none
  unfolding erase
  erase_cache = ground (arith, lookup-delete generation generation hr.cache)

-- Where no derivation panics, `d` gives its bytes.
abbrev pub Derives : Primitives → ℕ → (Bytes → String → ℕ → ℕ → ℕ → Bytes) → Type 0
Derives p suite d =
    (s : Bytes) (label : String) (node generation n : ℕ)
    → derive_app_secret p suite s label node generation n ≡ ok (d s label node generation n)

-- The secret after `n` steps from one at `generation`.
unfoldable pub chain : (Bytes → String → ℕ → ℕ → ℕ → Bytes) → ℕ → ℕ → Bytes → ℕ → ℕ → Bytes
chain d node size s generation zero = s
chain d node size s generation (suc n) =
    chain d node size (d s "app-secret" node generation size) (generation + 1) n

-- What `advance` leaves, for a ratchet of which the secret is an allocated slice.
pub record Advanced (hr : HashRatchet) (m : Memory) (key nonce secret : Bytes)
    (s : Step (ℕ × KeyAndNonce)) : Type 0 where
  pub key_bytes : s.memory.cells s.result.1.key ≡ key
  pub nonce_bytes : s.memory.cells s.result.1.nonce ≡ nonce
  pub secret_bytes : s.memory.cells s.ratchet.next_secret ≡ secret
  pub allocated : s.ratchet.next_secret < s.memory.used
  pub old_wiped : s.memory.cells hr.next_secret ≡ zeros (m.cells hr.next_secret)
  pub generation : s.result.0 ≡ hr.next_generation
  pub next_up : s.ratchet.next_generation ≡ (hr.next_generation + 1) % u32
  pub same_suite : s.ratchet.suite ≡ hr.suite
  pub same_node : s.ratchet.node ≡ hr.node
  pub same_key : s.ratchet.key_size ≡ hr.key_size
  pub same_nonce : s.ratchet.nonce_size ≡ hr.nonce_size
  pub same_secret : s.ratchet.secret_size ≡ hr.secret_size
  pub others : (g : ℕ) → g ≢ hr.next_generation → lookup g s.ratchet.cache ≡ lookup g hr.cache
  pub stored : KeyAndNonce
  pub is_stored : lookup hr.next_generation s.ratchet.cache ≡ some stored
  pub copied :
      (stored.key < s.result.1.key)
      × (stored.nonce < s.result.1.key)
      × (s.result.1.key < s.result.1.nonce)

pub advance-Advanced :
    (hr : HashRatchet) (m : Memory) (key nonce secret : Bytes)
    → hr.next_secret < m.used
    → Advanced hr m key nonce secret (advance hr m key nonce secret)
unfolding advance
advance-Advanced hr m key nonce secret low = record {
  key_bytes = ground arith;
  nonce_bytes = ground arith;
  secret_bytes = ground arith;
  allocated = ground arith;
  old_wiped = ground arith;
  generation = refl;
  next_up = refl;
  same_suite = refl;
  same_node = refl;
  same_key = refl;
  same_nonce = refl;
  same_secret = refl;
  others = λ g apart. ground (
    arith,
    lookup-insert hr.next_generation g (record { key = m.used; nonce = suc m.used }) hr.cache,
  );
  stored = record { key = m.used; nonce = suc m.used };
  is_stored = ground (
    arith,
    lookup-insert hr.next_generation hr.next_generation
        (record { key = m.used; nonce = suc m.used }) hr.cache,
  );
  copied = (omega arith, omega arith, omega arith);
}

pub chain_next :
    (d : Bytes → String → ℕ → ℕ → ℕ → Bytes) (node size g n node' size' g' : ℕ) (s s' : Bytes)
    → s' ≡ d s "app-secret" node g size
    → g' ≡ g + 1
    → node' ≡ node
    → size' ≡ size
    → chain d node' size' s' g' n ≡ chain d node size s g (suc n)
unfolding chain
chain_next d node size g n node' size' g' s s' e f en es = rw (e, f, en, es)
