-- ===== src/KeySchedule/Ratchet.antt =====
-- The hash ratchet of one sender. Keys and nonces are addresses of slices.
pub mod Advance
pub mod Fresh
pub mod Late
use go_mls.Base.{
  ℕ, zero, suc, ◌+◌, ◌-◌, ◌%◌, ltb, if◌then◌else◌, true, false, Option, none, some, List, [], Bytes,
  u32, Outcome, ok, err, ◌>>=◌, expired_key, lookup, insert, delete,
}
use go_mls.Crypto.{Primitives, constants, derive_app_secret}
use go_mls.KeySchedule.Memory.{Memory, alloc, zeroize, dup}

pub record KeyAndNonce : Type 0 where
  pub key : ℕ
  pub nonce : ℕ

pub record HashRatchet : Type 0 where
  pub suite : ℕ
  pub node : ℕ
  pub next_secret : ℕ
  pub next_generation : ℕ
  pub cache : List (ℕ × KeyAndNonce)
  pub key_size : ℕ
  pub nonce_size : ℕ
  pub secret_size : ℕ

-- The slice `baseSecret` is kept, not copied.
unfoldable pub new_hash_ratchet : ℕ → ℕ → ℕ → Outcome HashRatchet
new_hash_ratchet suite node base_secret = do
  c ← constants suite
  ok (record {
    suite = suite;
    node = node;
    next_secret = base_secret;
    next_generation = 0;
    cache = [];
    key_size = c.key_size;
    nonce_size = c.nonce_size;
    secret_size = c.secret_size;
  })

-- `KeyAndNonce.clone`: two new slices with the same bytes.
unfoldable pub clone : KeyAndNonce → Memory → KeyAndNonce × Memory
clone kn m =
    let copied = dup kn.nonce (dup kn.key m) in
    (record { key = m.used; nonce = suc m.used }, copied)

-- The state that a call leaves, with its result.
pub record Step (A : Type 0) : Type 0 where
  pub result : A
  pub ratchet : HashRatchet
  pub memory : Memory

-- What `Next` does once the three derivations have returned.
unfoldable pub advance : HashRatchet → Memory → Bytes → Bytes → Bytes → Step (ℕ × KeyAndNonce)
unfolding clone
advance hr m key nonce secret =
    let filled = alloc secret (alloc nonce (alloc key m)) in
    let wiped = zeroize hr.next_secret filled in
    let kn : KeyAndNonce = record { key = m.used; nonce = suc m.used } in
    let (copy, after) = clone kn wiped in
    record {
      result = (hr.next_generation, copy);
      ratchet = record hr {
        next_generation = (hr.next_generation + 1) % u32;
        next_secret = suc (suc m.used);
        cache = insert hr.next_generation kn hr.cache;
      };
      memory = after;
    }

unfoldable pub erase : HashRatchet → ℕ → Memory → HashRatchet × Memory
erase hr generation m = elim (lookup generation hr.cache) [
  | none ↦ (hr, m)
  | some kn ↦
      (record hr { cache = delete generation hr.cache }, zeroize kn.nonce (zeroize kn.key m))
]

module _ (p : Primitives) where
  unfoldable pub next : HashRatchet → Memory → Outcome (Step (ℕ × KeyAndNonce))
  next hr m = do
    let s = m.cells hr.next_secret
    key ← derive_app_secret p hr.suite s "app-key" hr.node hr.next_generation hr.key_size
    nonce ← derive_app_secret p hr.suite s "app-nonce" hr.node hr.next_generation hr.nonce_size
    secret ← derive_app_secret p hr.suite s "app-secret" hr.node hr.next_generation hr.secret_size
    ok (advance hr m key nonce secret)

  -- `for hr.NextGeneration < generation { hr.Next() }`, in at most as many rounds as the fuel.
  unfoldable pub skip : ℕ → ℕ → HashRatchet → Memory → Outcome (HashRatchet × Memory)
  skip zero generation hr m = ok (hr, m)
  skip (suc fuel) generation hr m = elim (ltb hr.next_generation generation) [
    | true ↦ next hr m >>= (λ s. skip fuel generation s.ratchet s.memory)
    | false ↦ ok (hr, m)
  ]

  -- The generations in between are as many as the loop needs rounds.
  unfoldable pub get_new : HashRatchet → ℕ → Memory → Outcome (Step KeyAndNonce)
  get_new hr generation m = do
    (hr', m') ← skip (generation - hr.next_generation) generation hr m
    s ← next hr' m'
    ok (record { result = s.result.1; ratchet = s.ratchet; memory = s.memory })

  -- A cached entry is returned as it is: its slices are those of the cache.
  unfoldable pub get : HashRatchet → ℕ → Memory → Outcome (Step KeyAndNonce)
  get hr generation m = elim (lookup generation hr.cache) [
    | some kn ↦ ok (record { result = kn; ratchet = hr; memory = m })
    | none ↦ if ltb generation hr.next_generation then err expired_key else get_new hr generation m
  ]

  -- How `decrypt` of state.go takes its keys, by way of the group key source, which hands both calls
  -- on to the ratchet of the sender: it erases them before it uses what `Get` returned.
  unfoldable pub take_keys : HashRatchet → ℕ → Memory → Outcome (Step KeyAndNonce)
  take_keys hr generation m = do
    s ← get hr generation m
    let (hr', m') = erase s.ratchet generation s.memory
    ok (record { result = s.result; ratchet = hr'; memory = m' })
