-- ===== src/Examples/Suites.antt =====
-- The cipher suites and `hkdfExpand` at concrete inputs.
use go_mls.Base.{
  ◌<◌, ◌≡◌, refl, arith, some, [], ◌∷◌, ◌++◌, length, Bytes, ok, panic, unsupported_suite,
}
use go_mls.Crypto.{Primitives, Hash, sha512, constants, scheme, new_digest, hkdf_expand, supported}
use go_mls.Crypto.Suites.{Usable, supported-Usable, unsupported_panics}
use go_mls.Crypto.Expand.{length-hkdf_expand}

supported-Usable_example : Usable 5
unfolding supported
supported-Usable_example = supported-Usable 5 refl

unsupported_panics_example :
    (constants 4 ≡ panic unsupported_suite) × (scheme 4 ≡ panic unsupported_suite)
unfolding supported
unsupported_panics_example = unsupported_panics 4 refl

abbrev pub mac : Hash → Bytes → Bytes → Bytes
mac h k m = 7 ∷ m

abbrev pub primitives : Primitives
primitives = record {
  sum = λ h d. d;
  hmac = mac;
  marshal_label = λ n label context. some (n ∷ label ++ context);
  marshal_context = λ node generation. some (node ∷ generation ∷ []);
}

mac_not_empty : (h : Hash) (k m : Bytes) → 0 < length (primitives.hmac h k m)
mac_not_empty h k m = omega arith

length-hkdf_expand_example :
    (b : Bytes) × (hkdf_expand primitives 5 (1 ∷ []) (2 ∷ []) 40 ≡ ok b) × (length b ≡ 40)
unfolding new_digest
length-hkdf_expand_example =
    length-hkdf_expand primitives mac_not_empty 5 (1 ∷ []) (2 ∷ []) 40 sha512 refl
