-- ===== src/Crypto/Expand.antt =====
-- The loop of `hkdfExpand` in crypto.go and the length of its result.
use go_mls.Base.{
  ℕ, zero, suc, ◌+◌, ◌%◌, ◌≤◌, ◌<◌, ◌≡◌, refl, ap, arith, [], ◌∷◌, ◌++◌, length, length-append,
  Bytes, ok,
}
use go_mls.Crypto.{Hash, Primitives, take, expand_loop, hkdf_expand, new_digest}

length-take : (n : ℕ) (b : Bytes) → n ≤ length b → length (take n b) ≡ n
unfolding take
length-take zero b h = refl
length-take (suc n) [] h = absurd (omega arith)
length-take (suc n) (x ∷ b) h = ap suc (length-take n b (omega arith))

module _ (p : Primitives) (not_empty : (h : Hash) (k m : Bytes) → 0 < length (p.hmac h k m)) where
  length-expand_loop :
      (fuel : ℕ) (h : Hash) (secret info : Bytes) (n : ℕ) (last : Bytes) (counter : ℕ) (buf : Bytes)
      → n < fuel + length buf
      → length (expand_loop p fuel h secret info n last counter buf) ≡ n
  unfolding expand_loop
  length-expand_loop zero h secret info n last counter buf enough = length-take n buf (omega arith)
  length-expand_loop (suc fuel) h secret info n last counter buf enough =
      let msg : Bytes = last ++ info ++ counter ∷ [] in
      let mac : Bytes = p.hmac h secret msg in
      ground (
        arith,
        length-take n buf,
        not_empty h secret msg,
        length-append buf mac,
        length-expand_loop fuel h secret info n mac ((counter + 1) % 256) (buf ++ mac),
      )

  -- Where MACs are not empty and the suite has a hash, `hkdfExpand` returns exactly as many bytes as
  -- it was asked for.
  pub length-hkdf_expand :
      (cs : ℕ) (secret info : Bytes) (n : ℕ) (h : Hash)
      → new_digest cs ≡ ok h
      → (b : Bytes) × (hkdf_expand p cs secret info n ≡ ok b) × (length b ≡ n)
  unfolding hkdf_expand
  length-hkdf_expand cs secret info n h e = (
    expand_loop p (suc n) h secret info n [] 1 [],
    rw e,
    length-expand_loop (suc n) h secret info n [] 1 [] (omega arith),
  )
