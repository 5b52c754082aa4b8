-- ===== src/KeySchedule/Ratchet/Late.antt =====
-- Keys of a generation that is in the cache already, and of one that was erased.
use go_mls.Base.{ℕ, ◌<◌, ◌≡◌, ◌≢◌, arith, some, lookup, delete, lookup-delete, ok, err, expired_key}
use go_mls.Crypto.{Primitives}
use go_mls.KeySchedule.Memory.{Memory, zeros, zeroize}
use go_mls.KeySchedule.Ratchet.{HashRatchet, KeyAndNonce, Step, get, erase, take_keys}

-- Where the keys of a generation are cached, in two slices, taking them succeeds, and the slices that
-- the caller goes on to use hold zeros only.
pub take_keys_late :
    (p : Primitives) (hr : HashRatchet) (generation : ℕ) (m : Memory) (kn : KeyAndNonce)
    → lookup generation hr.cache ≡ some kn
    → kn.key ≢ kn.nonce
    → (s : Step KeyAndNonce) × (take_keys p hr generation m ≡ ok s)
      × (s.memory.cells s.result.key ≡ zeros (m.cells kn.key))
      × (s.memory.cells s.result.nonce ≡ zeros (m.cells kn.nonce))
unfolding take_keys get erase
take_keys_late p hr generation m kn e apart = (
  record {
    result = kn;
    ratchet = record hr { cache = delete generation hr.cache };
    memory = zeroize kn.nonce (zeroize kn.key m);
  },
  ground arith,
  ground arith,
  ground arith,
)

-- After `Erase`, `Get` refuses the generation if it is a past one.
pub get-erase :
    (p : Primitives) (hr : HashRatchet) (generation : ℕ) (m : Memory)
    → generation < hr.next_generation
    → let (hr', m') = erase hr generation m in get p hr' generation m' ≡ err expired_key
unfolding erase get
get-erase p hr generation m past = ground (arith, lookup-delete generation generation hr.cache)
