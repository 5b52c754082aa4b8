-- ===== src/KeySchedule/Ratchet/Fresh.antt =====
-- Keys of a generation that the ratchet has not reached yet: the chain of derivations.
use go_mls.Base.{
  ℕ, zero, suc, ◌+◌, ◌-◌, ◌%◌, ◌≤◌, ◌<◌, ◌≡◌, refl, sym, ap, ◌∙◌, arith, none, some, lookup, lt→ltb,
  ok, ◌>>=◌, Bytes, u32,
}
use native.Mathlib.Nat.{mod-eq_of_lt}
use Prim.Native.String.{String}
use go_mls.Crypto.{Primitives}
use go_mls.KeySchedule.Memory.{Memory}
use go_mls.KeySchedule.Ratchet.Advance.{
  Derives, chain, chain_next, Advanced, advance-Advanced, erase_cells, erase_generation,
  erase_cache,
}
use go_mls.KeySchedule.Ratchet.{
  HashRatchet, KeyAndNonce, Step, advance, next, skip, get_new, get, erase, take_keys,
}

module _ (p : Primitives) (hr : HashRatchet) (generation : ℕ) (m : Memory) where
  get_by :
      (after : HashRatchet) (m' : Memory) (st : Step (ℕ × KeyAndNonce))
      → lookup generation hr.cache ≡ none
      → hr.next_generation ≤ generation
      → skip p (generation - hr.next_generation) generation hr m ≡ ok (after, m')
      → next p after m' ≡ ok st
      → get p hr generation m
        ≡ ok (record { result = st.result.1; ratchet = st.ratchet; memory = st.memory })
  unfolding get get_new
  get_by after m' st fresh low run last = ground (arith, run, last)

  take_keys_by :
      (s : Step KeyAndNonce)
      → get p hr generation m ≡ ok s
      → take_keys p hr generation m
        ≡ ok (record {
          result = s.result;
          ratchet = (erase s.ratchet generation s.memory).0;
          memory = (erase s.ratchet generation s.memory).1;
        })
  unfolding take_keys
  take_keys_by s e = rw e

-- A ratchet for which `skip` has come to a generation.
record Skipped (d : Bytes → String → ℕ → ℕ → ℕ → Bytes) (generation : ℕ) (hr : HashRatchet)
    (m : Memory) (n : ℕ) (after : HashRatchet) (m' : Memory) : Type 0 where
  same_suite : after.suite ≡ hr.suite
  same_node : after.node ≡ hr.node
  same_key : after.key_size ≡ hr.key_size
  same_nonce : after.nonce_size ≡ hr.nonce_size
  arrived : after.next_generation ≡ generation
  not_cached : lookup generation after.cache ≡ lookup generation hr.cache
  allocated : after.next_secret < m'.used
  secret :
      m'.cells after.next_secret
      ≡ chain d hr.node hr.secret_size (m.cells hr.next_secret) hr.next_generation n

module _ (p : Primitives) (suite : ℕ) (d : Bytes → String → ℕ → ℕ → ℕ → Bytes)
    (h : Derives p suite d) where
  next-advance :
      (hr : HashRatchet) (m : Memory)
      → hr.suite ≡ suite
      → let s = m.cells hr.next_secret in
        next p hr m
        ≡ ok (
            advance hr m
              (d s "app-key" hr.node hr.next_generation hr.key_size)
              (d s "app-nonce" hr.node hr.next_generation hr.nonce_size)
              (d s "app-secret" hr.node hr.next_generation hr.secret_size))
  unfolding next
  next-advance hr m e = simp (e, h)

  skip_done :
      (fuel generation : ℕ) (hr : HashRatchet) (m : Memory)
      → hr.next_generation ≡ generation
      → skip p fuel generation hr m ≡ ok (hr, m)
  unfolding skip
  skip_done zero generation hr m e = refl
  skip_done (suc fuel) generation hr m e = ground arith

  skip_step :
      (fuel generation : ℕ) (hr : HashRatchet) (m : Memory)
      → hr.next_generation < generation
      → skip p (suc fuel) generation hr m
        ≡ (next p hr m >>= λ s. skip p fuel generation s.ratchet s.memory)
  unfolding skip
  skip_step fuel generation hr m low = rw (lt→ltb hr.next_generation generation low, skip)

  skip-Skipped :
      (n generation : ℕ) (hr : HashRatchet) (m : Memory)
      → hr.suite ≡ suite
      → hr.next_generation + n ≡ generation
      → generation < u32
      → hr.next_secret < m.used
      → (after : HashRatchet) × (m' : Memory) × (skip p n generation hr m ≡ ok (after, m'))
        × Skipped d generation hr m n after m'
  skip-Skipped zero generation hr m e sum small low = (
    hr,
    m,
    skip_done 0 generation hr m (omega arith),
    record {
      same_suite = refl;
      same_node = refl;
      same_key = refl;
      same_nonce = refl;
      arrived = omega arith;
      not_cached = refl;
      allocated = low;
      secret = unfold chain in refl;
    },
  )
  skip-Skipped (suc n) generation hr m e sum small low =
      let b = m.cells hr.next_secret in
      let st =
        advance hr m (d b "app-key" hr.node hr.next_generation hr.key_size)
          (d b "app-nonce" hr.node hr.next_generation hr.nonce_size)
          (d b "app-secret" hr.node hr.next_generation hr.secret_size) in
      let a = advance-Advanced hr m _ _ _ low in
      let up : st.ratchet.next_generation ≡ hr.next_generation + 1 =
        a.next_up ∙ mod-eq_of_lt (omega arith) in
      let (after, m', run, s) =
        skip-Skipped n generation st.ratchet st.memory (a.same_suite ∙ e) (omega (arith, up)) small
          a.allocated in
      (
        after,
        m',
        skip_step n generation hr m (omega arith) ∙ rw (next-advance hr m e) run,
        record {
          same_suite = s.same_suite ∙ a.same_suite;
          same_node = s.same_node ∙ a.same_node;
          same_key = s.same_key ∙ a.same_key;
          same_nonce = s.same_nonce ∙ a.same_nonce;
          arrived = s.arrived;
          not_cached = s.not_cached ∙ a.others generation (omega arith);
          allocated = s.allocated;
          secret =
              s.secret
              ∙ chain_next d hr.node hr.secret_size hr.next_generation n _ _ _ _ _ a.secret_bytes up
                  a.same_node a.same_secret;
        },
      )

  -- Where derivations return, the secret is an allocated slice, and a generation below 2 ^ 32 is n
  -- steps ahead and not cached, taking its keys succeeds: the slices hold the key and the nonce
  -- derived from the secret n steps down the chain, the next generation follows, and the generation
  -- is not cached any more.
  pub take_keys_fresh :
      (hr : HashRatchet) (generation n : ℕ) (m : Memory)
      → hr.suite ≡ suite
      → hr.next_generation + n ≡ generation
      → generation < u32
      → hr.next_secret < m.used
      → lookup generation hr.cache ≡ none
      → (s : Step KeyAndNonce) × (take_keys p hr generation m ≡ ok s)
        × (let b = chain d hr.node hr.secret_size (m.cells hr.next_secret) hr.next_generation n in
            (s.memory.cells s.result.key ≡ d b "app-key" hr.node generation hr.key_size)
            × (s.memory.cells s.result.nonce ≡ d b "app-nonce" hr.node generation hr.nonce_size))
        × (s.ratchet.next_generation ≡ (generation + 1) % u32)
        × (lookup generation s.ratchet.cache ≡ none)
  take_keys_fresh hr generation n m e sum small low fresh =
      let (after, m', run, s) = skip-Skipped n generation hr m e sum small low in
      let count : generation - hr.next_generation ≡ n = omega arith in
      let b = m'.cells after.next_secret in
      let a : Advanced after m' _ _ _ _ = advance-Advanced after m' _ _ _ s.allocated in
      let st =
        advance after m' (d b "app-key" after.node after.next_generation after.key_size)
          (d b "app-nonce" after.node after.next_generation after.nonce_size)
          (d b "app-secret" after.node after.next_generation after.secret_size) in
      let got =
        get_by p hr generation m after m' st fresh (omega arith) (rw count run)
          (next-advance after m' (s.same_suite ∙ e)) in
      let cached : lookup generation st.ratchet.cache ≡ some a.stored =
        ap (λ g. lookup g st.ratchet.cache) (sym s.arrived) ∙ a.is_stored in
      (
        _,
        take_keys_by p hr generation m _ got,
        (
          erase_cells st.ratchet generation st.memory a.stored cached st.result.1.key a.copied.0
                a.copied.1
              ∙ a.key_bytes
              ∙ rw (s.secret, s.same_node, s.arrived, s.same_key),
          erase_cells st.ratchet generation st.memory a.stored cached st.result.1.nonce
                (omega (arith, a.copied)) (omega (arith, a.copied))
              ∙ a.nonce_bytes
              ∙ rw (s.secret, s.same_node, s.arrived, s.same_nonce),
        ),
        erase_generation st.ratchet generation st.memory a.stored cached
            ∙ a.next_up
            ∙ ap (λ g. (g + 1) % u32) s.arrived,
        erase_cache st.ratchet generation st.memory a.stored cached,
      )
