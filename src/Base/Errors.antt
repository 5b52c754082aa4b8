-- ===== src/Base/Errors.antt =====
-- What a Go call can do: return, return an error, or panic. Which error is kept as a tag.
use mathlib.Core.Bool.{Bool, true, false}
use mathlib.Core.Path.{◌≡◌, refl}

pub data Failure : Type 0 where
  not_leaf marshal_failure unmarshal_failure trailing_data : Failure
  expired_key no_base_key : Failure
  wrong_node_type index_out_of_range malformed_node malformed_path : Failure
  unknown_enum malformed_proposal malformed_content : Failure
  unsupported_suite : Failure
  malformed_credential unsupported_certificate no_trust_anchor bad_signature : Failure
  key_mismatch no_key no_overlap undecryptable hpke_failure aead_failure : Failure
  no_parent_hash wrong_parent_hash blank_leaf unknown_proposal unknown_secret : Failure
  wrong_group wrong_epoch wrong_content wrong_sender own_commit wrong_confirmation : Failure
  unsupported_extension not_in_tree : Failure

pub data Outcome {ℓ} (A : Type ℓ) : Type ℓ where
  ok : A → Outcome A
  err : Failure → Outcome A
  panic : Failure → Outcome A

-- `if !holds { return err }`
abbrev pub guard : Bool → Failure → Outcome (Unit {0})
guard false why = err why
guard true why = ok tt

-- A panic and an error both end the chain.
infixl 5 ◌>>=◌
abbrev pub ◌>>=◌ {ℓ κ} : {A : Type ℓ} {B : Type κ} → Outcome A → (A → Outcome B) → Outcome B
panic why >>= next = panic why
err why >>= next = err why
ok a >>= next = next a

infixl 5 ◌>>◌
abbrev pub ◌>>◌ {ℓ} : {B : Type ℓ} → Outcome (Unit {0}) → Outcome B → Outcome B
first >> second = first >>= (λ _. second)

-- A call that may return an error after it has changed what it works on comes with that.
unfoldable pub and_then {ℓ} :
    {S A B : Type ℓ} → Outcome A × S → (A → S → Outcome B × S) → Outcome B × S
and_then (ok a, s) next = next a s
and_then (err why, s) next = (err why, s)
and_then (panic why, s) next = (panic why, s)

-- Inversion of a successful chain.
pub >>=-eq-ok {ℓ κ} :
    {A : Type ℓ} {B : Type κ} (first : Outcome A) (next : A → Outcome B) {out : B}
    → (first >>= next) ≡ ok out
    → (got : A) × (first ≡ ok got) × (next got ≡ ok out)
>>=-eq-ok (panic why) next e = cc
>>=-eq-ok (err why) next e = cc
>>=-eq-ok (ok got) next e = (got, refl, e)

pub and_then-eq-ok {ℓ} :
    {S A B : Type ℓ} (first : Outcome A × S) (next : A → S → Outcome B × S) {b : B} {out : S}
    → and_then first next ≡ (ok b, out)
    → (a : A) × (s : S) × (first ≡ (ok a, s)) × (next a s ≡ (ok b, out))
unfolding and_then
and_then-eq-ok (ok a, s) next e = (a, s, refl, e)
and_then-eq-ok (err why, s) next e = cc
and_then-eq-ok (panic why, s) next e = cc

pub guard-eq-ok : (b : Bool) (why : Failure) {u : Unit {0}} → guard b why ≡ ok u → b ≡ true
guard-eq-ok false why e = cc
guard-eq-ok true why e = refl

pub ok_injective {ℓ} : {A : Type ℓ} {a b : A} → ok a ≡ ok b → a ≡ b
ok_injective e = cc
